-- ===== src/HubSync/Ownership/Releases.antt =====
-- The releases of hub_sync.py keep the ownership of held doors.
use hassio_access_control.Prelude.{
  String, ◌≡◌, ◌≢◌, refl, sym, ◌∙◌, Bool, true, false, not, ◌&&◌, ◌||◌, Option, List, [], ◌∷◌, ◌++◌,
  arith, if◌then◌else◌,
}
use hassio_access_control.HubSync.{
  HoldRow, Override, keep_unlock, keep_lock, held_open, Hub, Sync, hubs_of,
}
use hassio_access_control.HubSync.Drive.{rule_of, Attempt, drive_hub, max_attempts, take}
use hassio_access_control.HubSync.Release.{
  Meeting, append_unique_hubs, load_row, load_rows, queue_release, release_command, own_release,
  end_release, drive_release, release_hub, release_hubs, Visit, release_entity, store_remaining,
  process_pending_releases, add_hubs, hub_of_row,
}
use hassio_access_control.HubSync.Ownership.Steps.{
  IsOwned, hold-IsOwned, clear-IsOwned, drive_hub-IsOwned, drive_hub-Sets,
}

own_release-IsOwned :
    (eid : String) (hub : Hub) (persistent : Bool) (s : Sync)
    → IsOwned s
    → IsOwned (own_release eid hub persistent s).1
unfolding own_release
own_release-IsOwned eid hub true s h = hold-IsOwned eid hub s h
own_release-IsOwned eid hub false s h = h

pub release_command-closes :
    (persistent recorded enforcing : Bool)
    → rule_of (release_command persistent recorded enforcing) ≢ held_open
release_command-closes persistent recorded enforcing e = ground (arith, e)

end_release-IsOwned :
    (eid : String) (hub : Hub) (persistent recorded drove : Bool) (s : Sync)
    → (drove ≡ true → s.rules hub.device_id ≢ held_open)
    → IsOwned s
    → IsOwned (end_release eid hub persistent recorded (drove, s)).1
unfolding end_release
end_release-IsOwned eid hub persistent false drove s f h = h
end_release-IsOwned eid hub persistent true false s f h = h
end_release-IsOwned eid hub true true true s f h = h
end_release-IsOwned eid hub false true true s f h = clear-IsOwned eid hub s (f refl) h

drive_release-IsOwned :
    (eid : String) (hub : Hub) (persistent enforcing : Bool) (attempts : List Attempt)
    (x : Bool × Sync)
    → IsOwned x.1
    → IsOwned (drive_release eid hub persistent enforcing attempts x).1
unfolding drive_release
drive_release-IsOwned eid hub persistent enforcing attempts (recorded, s) h =
    let command = release_command persistent recorded enforcing in
    let tries = take (max_attempts enforcing) attempts in
    let x = drive_hub eid hub command tries s in
    end_release-IsOwned eid hub persistent recorded x.0 x.1
      (λ drove held.
        release_command-closes persistent recorded enforcing
          (sym (drive_hub-Sets eid hub command tries s drove) ∙ held))
      (drive_hub-IsOwned eid hub command tries s h)

release_hub-IsOwned :
    (eid : String) (enforcing : Bool) (hub : Hub) (attempts : List Attempt) (s : Sync)
    → IsOwned s
    → IsOwned (release_hub eid enforcing hub attempts s).1
unfolding release_hub
release_hub-IsOwned eid enforcing hub attempts s h =
    let persistent = enforcing || s.fail_safe eid in
    drive_release-IsOwned eid hub persistent enforcing attempts (own_release eid hub persistent s)
      (own_release-IsOwned eid hub persistent s h)

release_hubs-IsOwned :
    (eid : String) (enforcing : Bool) (meets : Hub → Meeting) (hubs remaining : List Hub) (s : Sync)
    → IsOwned s
    → IsOwned (release_hubs eid enforcing meets remaining hubs s).1
unfolding release_hubs
release_hubs-IsOwned eid enforcing meets [] remaining s h = h
release_hubs-IsOwned eid enforcing meets (hub ∷ hubs) remaining s h =
    by_urgent ((meets hub).urgent && not enforcing) (
      release_hubs-IsOwned eid enforcing meets hubs _ _
        (release_hub-IsOwned eid enforcing hub (meets hub).attempts s h))
  where
    after : List Hub × Sync
    after =
        release_hubs eid enforcing meets
          (if (release_hub eid enforcing hub (meets hub).attempts s).0
            then remaining
            else remaining ++ hub ∷ [])
          hubs (release_hub eid enforcing hub (meets hub).attempts s).1

    by_urgent :
        (b : Bool)
        → IsOwned after.1
        → IsOwned
            (if◌then◌else◌ {A = List Hub × Sync} b
              (append_unique_hubs remaining (hub ∷ hubs), s)
              after).1
    by_urgent true k = h
    by_urgent false k = k

store-IsOwned : (eid : String) (x : List Hub × Sync) → IsOwned x.1 → IsOwned (store_remaining eid x)
store-IsOwned eid ([], s) h = record { at = h.at }
store-IsOwned eid (hub ∷ hubs, s) h = record { at = h.at }

release_entity-IsOwned :
    (enforcing : Bool) (meets : Hub → Meeting) (eid : String) (s : Sync)
    → IsOwned s
    → IsOwned (release_entity enforcing meets eid s)
unfolding release_entity
release_entity-IsOwned enforcing meets eid s h =
    store-IsOwned eid _
      (release_hubs-IsOwned eid enforcing meets (hubs_of eid s.pending_release) [] s h)

pub process-IsOwned :
    (enforcing : Bool) (visits : String → Visit) (eids : List String) (s : Sync)
    → IsOwned s
    → IsOwned (process_pending_releases enforcing visits eids s)
unfolding process_pending_releases
process-IsOwned enforcing visits [] s h = h
process-IsOwned enforcing visits (eid ∷ eids) s h =
    by_urgent ((visits eid).urgent && not enforcing)
      (process-IsOwned enforcing visits eids _ (visited (visits eid).not_due))
  where
    visited :
        (b : Bool) → IsOwned (if b then s else release_entity enforcing (visits eid).meets eid s)
    visited true = h
    visited false = release_entity-IsOwned enforcing (visits eid).meets eid s h

    s' : Sync
    s' = if (visits eid).not_due then s else release_entity enforcing (visits eid).meets eid s

    by_urgent :
        (b : Bool)
        → IsOwned (process_pending_releases enforcing visits eids s')
        → IsOwned (if b then s else process_pending_releases enforcing visits eids s')
    by_urgent true k = h
    by_urgent false k = k

load_row-IsOwned : (r : HoldRow) (s : Sync) → IsOwned s → IsOwned (load_row r s)
unfolding load_row
load_row-IsOwned r s h = by_type r.override_type
  where
    by_type :
        (o : Override)
        → IsOwned (elim o as (λ x. Sync) [
          | keep_lock ↦ record s {
            held_locked = add_hubs r.entity_id (hub_of_row r ∷ []) s.held_locked;
            pending_release = add_hubs r.entity_id (hub_of_row r ∷ []) s.pending_release;
          }
          | keep_unlock ↦ record s {
            held_open = add_hubs r.entity_id (hub_of_row r ∷ []) s.held_open;
            pending_release = add_hubs r.entity_id (hub_of_row r ∷ []) s.pending_release;
          }
        ])
    by_type keep_lock = record { at = h.at }
    by_type keep_unlock = record { at = h.at }

pub load_rows-IsOwned : (rows : List HoldRow) (s : Sync) → IsOwned s → IsOwned (load_rows rows s)
unfolding load_rows
load_rows-IsOwned [] s h = h
load_rows-IsOwned (r ∷ rows) s h = load_rows-IsOwned rows (load_row r s) (load_row-IsOwned r s h)

pub queue_release-rules :
    (eid : String) (baseline : Option (List Hub)) (resolved : List Hub) (s : Sync)
    → ((queue_release eid baseline resolved s).holds ≡ s.holds)
      × ((queue_release eid baseline resolved s).rules ≡ s.rules)
unfolding queue_release
queue_release-rules eid baseline resolved s = (ground arith, ground arith)
