-- ===== src/HubSync/Release.antt =====
-- The release of held hubs in hub_sync.py: `_append_unique_hubs`, `_load_persisted_holds`,
-- `_queue_release` and `_process_pending_releases`, and a restart of the process.
use hassio_access_control.Prelude.{
  String, Bool, true, false, not, ◌&&◌, ◌||◌, Option, none, some, List, [], ◌∷◌, ◌++◌,
  if◌then◌else◌, str_eq,
}
use hassio_access_control.Prelude.Map.{Map, insert, erase}
use hassio_access_control.HubSync.{
  keep_unlock, keep_lock, HoldRow, Hub, owns_lock, owns_nothing, Sync, record_hub_state, hubs_of,
  has_hub,
}
use hassio_access_control.HubSync.Drive.{
  Command, hold_locked, reset, Attempt, drive_hub, max_attempts, take,
}

-- the value of a key, if it is missing
abbrev or_value : {A : Type 0} → Option A → Option A → Option A
or_value none b = b
or_value (some a) b = some a

abbrev or_text : Option String → Option String → Option String
or_text none b = b
or_text (some a) none = some a
or_text (some a) (some b) = some (if str_eq a "" then b else a)

-- `existing` takes the values that it lacks
abbrev pub fill : Hub → Hub → Hub
fill hub existing = record {
  id = or_value existing.id hub.id;
  device_id = existing.device_id;
  location_id = or_text existing.location_id hub.location_id;
  name = if str_eq existing.name "" then hub.name else existing.name;
}

unfoldable pub fill_known : Hub → List Hub → List Hub
fill_known hub [] = []
fill_known hub (h ∷ hubs) =
    let rest = fill_known hub hubs in
    if str_eq h.device_id hub.device_id then fill hub h ∷ hubs else h ∷ rest

abbrev pub append_hub : List Hub → Hub → List Hub
append_hub target hub =
    if str_eq hub.device_id ""
    then target
    else if has_hub hub.device_id target
    then fill_known hub target
    else target ++ hub ∷ []

unfoldable pub append_unique_hubs : List Hub → List Hub → List Hub
append_unique_hubs target [] = target
append_unique_hubs target (hub ∷ hubs) = append_unique_hubs (append_hub target hub) hubs

-- the hub that a row stands for
abbrev pub hub_of_row : HoldRow → Hub
hub_of_row r = record {
  id = r.hub_lock_id;
  device_id = r.hub_device_id;
  location_id = r.hub_location_id;
  name = if str_eq r.hub_name "" then r.hub_device_id else r.hub_name;
}

abbrev pub add_hubs : String → List Hub → Map (List Hub) → Map (List Hub)
add_hubs eid hubs m = insert eid (append_unique_hubs (hubs_of eid m) hubs) m

unfoldable pub load_row : HoldRow → Sync → Sync
load_row r s =
    let queued = add_hubs r.entity_id (hub_of_row r ∷ []) s.pending_release in
    elim r.override_type [
      | keep_lock ↦ record s {
        held_locked = add_hubs r.entity_id (hub_of_row r ∷ []) s.held_locked;
        pending_release = queued;
      }
      | keep_unlock ↦ record s {
        held_open = add_hubs r.entity_id (hub_of_row r ∷ []) s.held_open;
        pending_release = queued;
      }
    ]

unfoldable pub load_rows : List HoldRow → Sync → Sync
load_rows [] s = s
load_rows (r ∷ rows) s = load_rows rows (load_row r s)

-- the query's rows come in the order of the key, which is that of the list here
unfoldable pub load_persisted_holds : Sync → Sync
load_persisted_holds s = load_rows s.holds s

-- what the process loses when it ends
unfoldable pub restart : Sync → Sync
restart s = record s {
  held_open = [];
  held_locked = [];
  pending_release = [];
  fail_safe = λ e. false;
}

-- `baseline` are the paired hubs, if the applied state is "unlocked"; `resolved` is what
-- `_resolve_hub_locks` finds for the row, or nothing
unfoldable pub queue_release : String → Option (List Hub) → List Hub → Sync → Sync
queue_release eid baseline resolved s =
    let held =
      append_unique_hubs (append_unique_hubs [] (hubs_of eid s.held_open))
        (hubs_of eid s.held_locked) in
    let pending = hubs_of eid s.pending_release in
    let queue = λ (owned : List Hub).
      let hubs =
        append_unique_hubs (append_unique_hubs (append_unique_hubs [] owned) pending) resolved in
      elim hubs as (λ x. Sync) [
        | [] ↦ s
        | hub ∷ more ↦ record s { pending_release = add_hubs eid (hub ∷ more) s.pending_release }
      ] in
    elim baseline [
      | none ↦ elim held [ [] ↦ s | hub ∷ more ↦ queue (hub ∷ more) ]
      | some paired ↦ queue (append_unique_hubs held paired)
    ]

-- what the release of one hub meets: an urgent lockdown before it, and the attempts
pub record Meeting : Type 0 where
  pub urgent : Bool
  pub attempts : List Attempt

-- one hub is released, or stays
-- after the drive: the ownership is cleared after a reset
unfoldable pub end_release : String → Hub → Bool → Bool → Bool × Sync → Bool × Sync
end_release eid hub persistent recorded (drove, s) =
    if not recorded
    then (false, s)
    else if drove && not persistent
    then record_hub_state eid hub owns_nothing s
    else (drove, s)

abbrev pub release_command : Bool → Bool → Bool → Command
release_command persistent recorded enforcing =
    if persistent && (recorded || enforcing) then hold_locked else reset

unfoldable pub drive_release : String → Hub → Bool → Bool → List Attempt → Bool × Sync → Bool × Sync
drive_release eid hub persistent enforcing attempts (recorded, s) =
    end_release eid hub persistent recorded (
      drive_hub eid hub (release_command persistent recorded enforcing)
        (take (max_attempts enforcing) attempts) s)

-- the ownership that is recorded before a lasting lock
unfoldable pub own_release : String → Hub → Bool → Sync → Bool × Sync
own_release eid hub persistent s =
    if persistent then record_hub_state eid hub owns_lock s else (true, s)

unfoldable pub release_hub : String → Bool → Hub → List Attempt → Sync → Bool × Sync
release_hub eid enforcing hub attempts s =
    let persistent = enforcing || s.fail_safe eid in
    drive_release eid hub persistent enforcing attempts (own_release eid hub persistent s)

-- the hubs of one entity in order; with those that remain
unfoldable pub release_hubs :
    String → Bool → (Hub → Meeting) → List Hub → List Hub → Sync → List Hub × Sync
release_hubs eid enforcing meets remaining [] s = (remaining, s)
release_hubs eid enforcing meets remaining (hub ∷ hubs) s =
    let (released, s1) = release_hub eid enforcing hub (meets hub).attempts s in
    let rest =
      release_hubs eid enforcing meets (if released then remaining else remaining ++ hub ∷ []) hubs
        s1 in
    if (meets hub).urgent && not enforcing
    then (append_unique_hubs remaining (hub ∷ hubs), s)
    else rest

-- what the visit of an entity meets: an urgent lockdown, and a retry that is not due yet
pub record Visit : Type 0 where
  pub urgent : Bool
  pub not_due : Bool
  pub meets : Hub → Meeting

abbrev pub store_remaining : String → List Hub × Sync → Sync
store_remaining eid ([], s) = record s { pending_release = erase eid s.pending_release }
store_remaining eid (hub ∷ hubs, s) = record s {
  pending_release = insert eid (hub ∷ hubs) s.pending_release;
}

unfoldable pub release_entity : Bool → (Hub → Meeting) → String → Sync → Sync
release_entity enforcing meets eid s =
    store_remaining eid (release_hubs eid enforcing meets [] (hubs_of eid s.pending_release) s)

-- over the keys of the queue as they were at the beginning
unfoldable pub process_pending_releases : Bool → (String → Visit) → List String → Sync → Sync
process_pending_releases enforcing visits [] s = s
process_pending_releases enforcing visits (eid ∷ eids) s =
    let s' =
      if (visits eid).not_due then s else release_entity enforcing (visits eid).meets eid s in
    let rest = process_pending_releases enforcing visits eids s' in
    if (visits eid).urgent && not enforcing then s else rest
