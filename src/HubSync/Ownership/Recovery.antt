-- ===== src/HubSync/Ownership/Recovery.antt =====
-- The queue of hub_sync.py after a restart: but for the preserved holds, a held door stays in it until
-- its release is confirmed.
use hassio_access_control.Prelude.{
  String, ◌≡◌, ◌≢◌, refl, sym, ◌∙◌, Bool, true, false, not, ◌&&◌, List, [], ◌∷◌, arith,
  if◌then◌else◌, str_eq, eq_iff, subst, Some-imp, inl, inr,
}
use hassio_access_control.Prelude.Map.{get-insert, get-erase}
use hassio_access_control.HubSync.{held_open, Hub, Sync, hubs_of, has_hub}
use hassio_access_control.HubSync.Release.{
  Meeting, Visit, restart, release_hubs, store_remaining, release_entity, process_pending_releases,
}
use hassio_access_control.HubSync.Ownership.{HasRow}
use hassio_access_control.HubSync.Ownership.Steps.{Owns}
use hassio_access_control.HubSync.Ownership.Queue.{IsKept, Waits, IsQueued, load-IsQueued}
use hassio_access_control.HubSync.Recover.{recover}
use hassio_access_control.HubSync.Ownership.Rest.{IsRest, release_hubs-IsRest}
use hassio_access_control.HubSync.Ownership.Requeue.{latch_recovered-IsQueued, queue_all-IsQueued}

store-has :
    (d k eid : String) (x : List Hub × Sync)
    → has_hub d (hubs_of k (store_remaining eid x).pending_release)
      ≡ (if str_eq eid k then has_hub d x.0 else has_hub d (hubs_of k x.1.pending_release))
store-has d k eid ([], t) = ground (arith, get-erase k eid t.pending_release)
store-has d k eid (hub ∷ hubs, t) = ground (arith, get-insert k eid (hub ∷ hubs) t.pending_release)

store-holds : (eid : String) (x : List Hub × Sync) → (store_remaining eid x).holds ≡ x.1.holds
store-holds eid ([], t) = refl
store-holds eid (hub ∷ hubs, t) = refl

store-rules : (eid : String) (x : List Hub × Sync) → (store_remaining eid x).rules ≡ x.1.rules
store-rules eid ([], t) = refl
store-rules eid (hub ∷ hubs, t) = refl

release_entity-IsQueued :
    (preserved : List String) (enforcing : Bool) (meets : Hub → Meeting) (eid : String) (s : Sync)
    → IsQueued preserved s
    → IsQueued preserved (release_entity enforcing meets eid s)
unfolding release_entity
release_entity-IsQueued preserved enforcing meets eid s h = record {
  at = λ d n held. waits d n (subst (λ r. r d ≡ held_open) (store-rules eid x) held);
}
  where
    x : List Hub × Sync
    x = release_hubs eid enforcing meets [] (hubs_of eid s.pending_release) s

    left : IsRest (hubs_of eid s.pending_release) [] s x
    left = release_hubs-IsRest eid enforcing meets (hubs_of eid s.pending_release) [] s

    queued_at :
        (d k : String)
        → d ≢ ""
        → x.1.rules d ≡ held_open
        → has_hub d (hubs_of k s.pending_release) ≡ true
        → (b : Bool) → str_eq eid k ≡ b
        → (if b then has_hub d x.0 else has_hub d (hubs_of k x.1.pending_release)) ≡ true
    queued_at d k n held q true e =
        left.rest d n held
          (subst (λ j. has_hub d (hubs_of j s.pending_release) ≡ true) (sym ((eq_iff eid k).0 e)) q)
    queued_at d k n held q false e =
        subst (λ p. has_hub d (hubs_of k p) ≡ true) (sym left.closing.pending) q

    kept :
        (d k : String)
        → d ≢ ""
        → x.1.rules d ≡ held_open
        → IsKept preserved d s k
        → IsKept preserved d (store_remaining eid x) k
    kept d k n held (inl p) = inl p
    kept d k n held (inr q) = inr (store-has d k eid x ∙ queued_at d k n held q (str_eq eid k) refl)

    waits :
        (d : String) → d ≢ "" → x.1.rules d ≡ held_open → Waits preserved d (store_remaining eid x)
    waits d n held =
        let rows =
          left.closing.keeps (λ k e. (e ≡ d) × IsKept preserved d s k) d (λ k e p. p.0) held
            (h.at d n (left.closing.closes d held)) in
        subst (HasRow (λ k e. (e ≡ d) × IsKept preserved d (store_remaining eid x) k))
          (sym (store-holds eid x))
          (Some-imp _ _ (λ r p. (p.0, kept d r.entity_id n held p.1)) x.1.holds rows)

process-IsQueued :
    (preserved : List String) (enforcing : Bool) (visits : String → Visit) (eids : List String)
    (s : Sync)
    → IsQueued preserved s
    → IsQueued preserved (process_pending_releases enforcing visits eids s)
unfolding process_pending_releases
process-IsQueued preserved enforcing visits [] s h = h
process-IsQueued preserved enforcing visits (eid ∷ eids) s h =
    by_urgent ((visits eid).urgent && not enforcing)
      (process-IsQueued preserved enforcing visits eids _ (visited (visits eid).not_due))
  where
    visited :
        (b : Bool)
        → IsQueued preserved (if b then s else release_entity enforcing (visits eid).meets eid s)
    visited true = h
    visited false = release_entity-IsQueued preserved enforcing (visits eid).meets eid s h

    s' : Sync
    s' = if (visits eid).not_due then s else release_entity enforcing (visits eid).meets eid s

    by_urgent :
        (b : Bool)
        → IsQueued preserved (process_pending_releases enforcing visits eids s')
        → IsQueued preserved (if b then s else process_pending_releases enforcing visits eids s')
    by_urgent true k = h
    by_urgent false k = k

-- one round of releases for each entry: whether it enforces a lockdown, what it meets, and the keys
abbrev pub process_rounds : List (Bool × (String → Visit) × List String) → Sync → Sync
process_rounds [] s = s
process_rounds ((enforcing, visits, eids) ∷ rounds) s =
    process_rounds rounds (process_pending_releases enforcing visits eids s)

rounds-IsQueued :
    (preserved : List String) (rounds : List (Bool × (String → Visit) × List String)) (s : Sync)
    → IsQueued preserved s
    → IsQueued preserved (process_rounds rounds s)
rounds-IsQueued preserved [] s h = h
rounds-IsQueued preserved ((enforcing, visits, eids) ∷ rounds) s h =
    rounds-IsQueued preserved rounds _ (process-IsQueued preserved enforcing visits eids s h)

-- When the process ends at a time when the hubs that hold their doors open have rows, starts again
-- and recovers, then after any number of further rounds of releases, with any failures of the
-- commands and the database, each hub with a device id that still holds its door open has a row of
-- an entity that is either preserved by the recovery or has the hub in its queue of releases.
pub restart-IsQueued :
    (s : Sync) (preserved : List String) (resolved : String → List Hub) (enforcing : Bool)
    (visits : String → Visit) (eids : List String)
    (rounds : List (Bool × (String → Visit) × List String)) (d : String)
    → ((e : String) → s.rules e ≡ held_open → Owns e s.holds)
    → d ≢ ""
    → (process_rounds rounds (recover preserved resolved enforcing visits eids (restart s))).rules d
      ≡ held_open
    → Waits preserved d
        (process_rounds rounds (recover preserved resolved enforcing visits eids (restart s)))
unfolding restart recover
restart-IsQueued s preserved resolved enforcing visits eids rounds d owned n held =
    (rounds-IsQueued preserved rounds _ (
        process-IsQueued preserved enforcing visits eids _ (
          queue_all-IsQueued preserved resolved _ _ (
            latch_recovered-IsQueued preserved _
              (load-IsQueued preserved (restart s) (record { at = owned })))))).at
      d n held
