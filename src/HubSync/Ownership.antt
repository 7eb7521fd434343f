-- ===== src/HubSync/Ownership.antt =====
-- No door of hub_sync.py is held open without a durable row that says so.
pub mod Steps
pub mod Releases
pub mod Observed
pub mod Run
pub mod Queue
pub mod Closing
pub mod Rest
pub mod Requeue
pub mod Recovery
use hassio_access_control.Prelude.{
  String, ◌≡◌, ◌≢◌, refl, ◌⊎◌, inl, inr, Bool, true, false, not, ◌&&◌, ◌||◌, Option, none, some,
  List, [], ◌∷◌, keep, arith, if◌then◌else◌, str_eq, eq_iff, subst, sym, Some, Some-imp, Bool-cases,
}
use hassio_access_control.Prelude.Map.{insert}
use hassio_access_control.HubSync.{
  Override, HoldRow, AccessRule, native, held_open, held_locked, Hub, HubState, owns_open,
  owns_lock, owns_nothing, Sync, same_hold, upsert_hold, delete_hold, write_hub_sync_hold,
  next_fails, rest_of, hubs_of, statement_of, hold_row, record_hub_state,
}

-- a row whose key satisfies `R`
abbrev pub HasRow : (String → String → Type 0) → List HoldRow → Type 0
HasRow R = Some (λ r. R r.entity_id r.hub_device_id)

same_hold_lem :
    (R : String → String → Type 0) (r x : HoldRow)
    → same_hold r.entity_id r.hub_device_id x ≡ true
    → R x.entity_id x.hub_device_id
    → R r.entity_id r.hub_device_id
same_hold_lem R r x e h =
    let entity = (eq_iff x.entity_id r.entity_id).0 (ground (arith, e)) in
    let device = (eq_iff x.hub_device_id r.hub_device_id).0 (ground (arith, e)) in
    subst (λ d. R r.entity_id d) device (subst (λ k. R k x.hub_device_id) entity h)

pub upsert-HasRow :
    (R : String → String → Type 0) (r : HoldRow) (holds : List HoldRow)
    → HasRow R holds
    → HasRow R (upsert_hold r holds)
unfolding upsert_hold
upsert-HasRow R r [] h = inr h
upsert-HasRow R r (x ∷ holds) h =
    by_key (same_hold r.entity_id r.hub_device_id x) refl h (upsert-HasRow R r holds)
  where
    by_key :
        (b : Bool)
        → same_hold r.entity_id r.hub_device_id x ≡ b
        → HasRow R (x ∷ holds)
        → (HasRow R holds → HasRow R (upsert_hold r holds))
        → HasRow R (if b then r ∷ holds else x ∷ upsert_hold r holds)
    by_key true e (inl p) rest = inl (same_hold_lem R r x e p)
    by_key true e (inr h') rest = inr h'
    by_key false e (inl p) rest = inl p
    by_key false e (inr h') rest = inr (rest h')

pub upserted-HasRow :
    (R : String → String → Type 0) (r : HoldRow) (holds : List HoldRow)
    → R r.entity_id r.hub_device_id
    → HasRow R (upsert_hold r holds)
unfolding upsert_hold
upserted-HasRow R r [] p = inl p
upserted-HasRow R r (x ∷ holds) p =
    by_key (same_hold r.entity_id r.hub_device_id x) (upserted-HasRow R r holds p)
  where
    by_key :
        (b : Bool)
        → HasRow R (upsert_hold r holds)
        → HasRow R (if b then r ∷ holds else x ∷ upsert_hold r holds)
    by_key true rest = inl p
    by_key false rest = inr rest

pub delete-HasRow :
    (R : String → String → Type 0) (eid device : String) (holds : List HoldRow)
    → ((k d : String) → R k d → device ≢ d)
    → HasRow R holds
    → HasRow R (delete_hold eid device holds)
unfolding delete_hold
delete-HasRow R eid device [] n h = h
delete-HasRow R eid device (x ∷ holds) n h =
    by_key (same_hold eid device x) refl h (delete-HasRow R eid device holds n)
  where
    by_key :
        (b : Bool)
        → same_hold eid device x ≡ b
        → HasRow R (x ∷ holds)
        → (HasRow R holds → HasRow R (delete_hold eid device holds))
        → HasRow R
            (if not b then x ∷ delete_hold eid device holds else delete_hold eid device holds)
    by_key true e (inl p) rest = absurd (
        n x.entity_id x.hub_device_id p
          (sym ((eq_iff x.hub_device_id device).0 (ground (arith, e)))))
    by_key true e (inr h') rest = rest h'
    by_key false e (inl p) rest = inl p
    by_key false e (inr h') rest = inr (rest h')

module _ (eid : String) (hub : Hub) (o : HubState) (s : Sync) where
  -- a write runs whole or not at all
  record-holds :
      (record_hub_state eid hub o s).1.holds
      ≡ (if next_fails s.faults then s.holds else statement_of eid hub o s.holds)
  unfolding record_hub_state write_hub_sync_hold
  record-holds = ground arith

  pub record-rules : (record_hub_state eid hub o s).1.rules ≡ s.rules
  unfolding record_hub_state write_hub_sync_hold
  record-rules = ground arith

  pub record-pending : (record_hub_state eid hub o s).1.pending_release ≡ s.pending_release
  unfolding record_hub_state write_hub_sync_hold
  record-pending = ground arith

  record-wrote : (record_hub_state eid hub o s).0 ≡ not (next_fails s.faults)
  unfolding record_hub_state write_hub_sync_hold
  record-wrote = ground arith

module _ (R : String → String → Type 0) (eid : String) (hub : Hub) where
  pub record-HasRow :
      (o : HubState) (s : Sync)
      → (HasRow R s.holds → HasRow R (statement_of eid hub o s.holds))
      → HasRow R s.holds
      → HasRow R (record_hub_state eid hub o s).1.holds
  record-HasRow o s f h = rw (record-holds eid hub o s) (fails (next_fails s.faults))
    where
      fails : (b : Bool) → HasRow R (if b then s.holds else statement_of eid hub o s.holds)
      fails true = h
      fails false = f h

  -- a write of a hold that ran has its row
  pub recorded-HasRow :
      (o : HubState) (s : Sync)
      → HasRow R (statement_of eid hub o s.holds)
      → (record_hub_state eid hub o s).0 ≡ true
      → HasRow R (record_hub_state eid hub o s).1.holds
  recorded-HasRow o s h wrote =
      rw (record-holds eid hub o s)
        (fails (next_fails s.faults) (ground (arith, record-wrote eid hub o s, wrote)))
    where
      fails :
          (b : Bool) → b ≡ false → HasRow R (if b then s.holds else statement_of eid hub o s.holds)
      fails true e = absurd (ground (arith, e))
      fails false e = h
