-- ===== src/HubSync/Ownership/Queue.antt =====
-- After a restart, hub_sync.py queues every held door for release, and forgets none.
use hassio_access_control.Prelude.{
  String, ◌≡◌, ◌≢◌, refl, sym, ◌∙◌, inl, inr, Bool, true, false, ◌||◌, List, [], ◌∷◌, ◌++◌, arith,
  if◌then◌else◌, str_eq, eq_iff, eq_refl, subst, Some, Some-imp, ◌⊎◌, Bool-cases,
}
use hassio_access_control.Prelude.Map.{Map, get-insert}
use hassio_access_control.HubSync.{HoldRow, held_open, Hub, Sync, hubs_of, has_hub}
use hassio_access_control.HubSync.Release.{
  fill_known, append_unique_hubs, hub_of_row, add_hubs, load_row, load_rows, load_persisted_holds,
}
use hassio_access_control.HubSync.Marker.{is_in}
use hassio_access_control.HubSync.Ownership.{HasRow}
use hassio_access_control.HubSync.Ownership.Steps.{IsOwned}

-- an entity is preserved, or the hub is in its queue
abbrev pub IsKept : List String → String → Sync → String → Type 0
IsKept preserved d s k =
    (is_in k preserved ≡ true) ⊎ (has_hub d (hubs_of k s.pending_release) ≡ true)

-- some entity has a row for the hub and is kept
abbrev pub Waits : List String → String → Sync → Type 0
Waits preserved d s = HasRow (λ k e. (e ≡ d) × IsKept preserved d s k) s.holds

pub has_hub-snoc :
    (d : String) (hubs : List Hub) (h : Hub)
    → has_hub d (hubs ++ h ∷ []) ≡ (has_hub d hubs || str_eq h.device_id d)
has_hub-snoc d [] h = ground arith
has_hub-snoc d (x ∷ hubs) h = ground (arith, has_hub-snoc d hubs h)

pub has_hub-fill :
    (d : String) (h : Hub) (hubs : List Hub) → has_hub d (fill_known h hubs) ≡ has_hub d hubs
unfolding fill_known
has_hub-fill d h [] = refl
has_hub-fill d h (x ∷ hubs) = ground (arith, has_hub-fill d h hubs)

has_hub-append :
    (d : String) (h : Hub) (hubs : List Hub)
    → has_hub d hubs ≡ true
    → has_hub d (append_unique_hubs hubs (h ∷ [])) ≡ true
unfolding append_unique_hubs
has_hub-append d h hubs e = ground (arith, has_hub-snoc d hubs h, has_hub-fill d h hubs, e)

has_hub-appended :
    (h : Hub) (hubs : List Hub)
    → h.device_id ≢ ""
    → has_hub h.device_id (append_unique_hubs hubs (h ∷ [])) ≡ true
unfolding append_unique_hubs
has_hub-appended h hubs n = elim (Bool-cases (str_eq h.device_id "")) [
  | inl e ↦ absurd (n ((eq_iff h.device_id "").0 e))
  | inr e ↦ ground (
    arith,
    e,
    has_hub-snoc h.device_id hubs h,
    has_hub-fill h.device_id h hubs,
    eq_refl h.device_id,
  )
]

pub hubs_of-add :
    (k eid : String) (hubs : List Hub) (m : Map (List Hub))
    → hubs_of k (add_hubs eid hubs m)
      ≡ (if str_eq eid k then append_unique_hubs (hubs_of eid m) hubs else hubs_of k m)
hubs_of-add k eid hubs m =
    ground (arith, get-insert k eid (append_unique_hubs (hubs_of eid m) hubs) m)

load_row-pending :
    (r : HoldRow) (s : Sync)
    → (load_row r s).pending_release ≡ add_hubs r.entity_id (hub_of_row r ∷ []) s.pending_release
unfolding load_row
load_row-pending r s = ground arith

-- what is queued stays queued
load_row-has :
    (d k : String) (r : HoldRow) (s : Sync)
    → has_hub d (hubs_of k s.pending_release) ≡ true
    → has_hub d (hubs_of k (load_row r s).pending_release) ≡ true
load_row-has d k r s h =
    rw (load_row-pending r s, hubs_of-add k r.entity_id (hub_of_row r ∷ []) s.pending_release)
      (by_key (str_eq r.entity_id k) refl)
  where
    by_key :
        (b : Bool)
        → str_eq r.entity_id k ≡ b
        → has_hub d (
            if b
            then append_unique_hubs (hubs_of r.entity_id s.pending_release) (hub_of_row r ∷ [])
            else hubs_of k s.pending_release)
          ≡ true
    by_key true e = has_hub-append d (hub_of_row r) (hubs_of r.entity_id s.pending_release) (
        subst (λ j. has_hub d (hubs_of j s.pending_release) ≡ true)
          (sym ((eq_iff r.entity_id k).0 e)) h)
    by_key false e = h

load_rows-has :
    (d k : String) (rows : List HoldRow) (s : Sync)
    → has_hub d (hubs_of k s.pending_release) ≡ true
    → has_hub d (hubs_of k (load_rows rows s).pending_release) ≡ true
unfolding load_rows
load_rows-has d k [] s h = h
load_rows-has d k (r ∷ rows) s h = load_rows-has d k rows (load_row r s) (load_row-has d k r s h)

load_row-queues :
    (d : String) (r : HoldRow) (s : Sync)
    → d ≢ ""
    → r.hub_device_id ≡ d
    → has_hub d (hubs_of r.entity_id (load_row r s).pending_release) ≡ true
load_row-queues d r s n p =
    rw
      (
        load_row-pending r s,
        hubs_of-add r.entity_id r.entity_id (hub_of_row r ∷ []) s.pending_release,
        eq_refl r.entity_id,
        ← p,
      )
      (has_hub-appended (hub_of_row r) (hubs_of r.entity_id s.pending_release) (λ e. n (sym p ∙ e)))

load_rows-queues :
    (d : String) (rows : List HoldRow) (s : Sync)
    → d ≢ ""
    → Some (λ r. r.hub_device_id ≡ d) rows
    → Some
        (λ r.
          (r.hub_device_id ≡ d)
          × (has_hub d (hubs_of r.entity_id (load_rows rows s).pending_release) ≡ true))
        rows
unfolding load_rows
load_rows-queues d [] s n h = h
load_rows-queues d (r ∷ rows) s n (inl p) =
    inl (p, load_rows-has d r.entity_id rows (load_row r s) (load_row-queues d r s n p))
load_rows-queues d (r ∷ rows) s n (inr h) = inr (load_rows-queues d rows (load_row r s) n h)

load_row-holds :
    (r : HoldRow) (s : Sync) → ((load_row r s).holds ≡ s.holds) × ((load_row r s).rules ≡ s.rules)
unfolding load_row
load_row-holds r s = (ground arith, ground arith)

load_rows-holds :
    (rows : List HoldRow) (s : Sync)
    → ((load_rows rows s).holds ≡ s.holds) × ((load_rows rows s).rules ≡ s.rules)
unfolding load_rows
load_rows-holds [] s = (refl, refl)
load_rows-holds (r ∷ rows) s =
    let rest = load_rows-holds rows (load_row r s) in
    let first = load_row-holds r s in (rest.0 ∙ first.0, rest.1 ∙ first.1)

-- every hub that holds its door open waits for its release, but for the preserved ones
pub record IsQueued (preserved : List String) (s : Sync) : Type 0 where
  pub at : (d : String) → d ≢ "" → s.rules d ≡ held_open → Waits preserved d s

pub load-IsQueued :
    (preserved : List String) (s : Sync) → IsOwned s → IsQueued preserved (load_persisted_holds s)
unfolding load_persisted_holds
load-IsQueued preserved s h = record {
  at = λ d n held.
      let e = load_rows-holds s.holds s in
      subst (HasRow (λ k x. (x ≡ d) × IsKept preserved d (load_rows s.holds s) k)) (sym e.0) (
        Some-imp _ _ (λ r p. (p.0, inr p.1)) s.holds
          (load_rows-queues d s.holds s n (h.at d (subst (λ r. r d ≡ held_open) e.1 held))));
}
