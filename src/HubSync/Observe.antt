-- ===== src/HubSync/Observe.antt =====
-- Writes of the ownership in hub_sync.py outside the commands for one entity: the part of
-- `_observe_access_side` that clears what another rule has superseded, the round of one hub in
-- `_fail_safe_shared_hub_owners`, and `_drop_tracking`.
use hassio_access_control.Prelude.{
  String, Bool, true, false, not, ◌&&◌, ◌||◌, List, [], ◌∷◌, if◌then◌else◌, str_eq,
}
use hassio_access_control.Prelude.Map.{erase}
use hassio_access_control.HubSync.{
  AccessRule, held_open, held_locked, Hub, owns_lock, owns_nothing, Sync, record_hub_state, hubs_of,
  has_hub,
}
use hassio_access_control.HubSync.Drive.{
  Command, hold_locked, reset, Attempt, drive_hub, max_attempts, take,
}

abbrev pub is_held_open : AccessRule → Bool
is_held_open held_open = true
is_held_open _ = false

abbrev pub is_held_locked : AccessRule → Bool
is_held_locked held_locked = true
is_held_locked _ = false

-- `owns_open and rule_type != "keep_unlock"`, or the same of a lock
abbrev pub is_superseded : String → Hub → AccessRule → Sync → Bool
is_superseded eid hub rule s =
    has_hub hub.device_id (hubs_of eid s.held_open) && not (is_held_open rule)
    || has_hub hub.device_id (hubs_of eid s.held_locked) && not (is_held_locked rule)

-- one hub of an observation, whose readback returned `rule`
unfoldable pub observe_hub : String → Hub → AccessRule → Sync → Bool × Sync
observe_hub eid hub rule s =
    if is_superseded eid hub rule s then record_hub_state eid hub owns_nothing s else (true, s)

abbrev pub latch : String → Sync → Sync
latch eid s = record s { fail_safe = λ e. if str_eq eid e then true else s.fail_safe e }

-- the owners of a shared hub, with `ownership_recorded`
unfoldable pub own_shared : List String → Hub → Sync → Bool × Sync
own_shared [] hub s = (true, s)
own_shared (eid ∷ eids) hub s =
    let (wrote, s') = record_hub_state eid hub owns_lock (latch eid s) in
    let (rest, s'') = own_shared eids hub s' in (wrote && rest, s'')

abbrev pub shared_command : Bool → Command
shared_command recorded = if recorded then hold_locked else reset

-- one hub of several entities is locked; `eid` is the owner in whose name it is driven
unfoldable pub fail_safe_hub : String → List String → Hub → Bool → List Attempt → Sync → Bool × Sync
fail_safe_hub eid eids hub enforcing attempts s =
    let (recorded, s') = own_shared eids hub s in
    drive_hub eid hub (shared_command recorded) (take (max_attempts enforcing) attempts) s'

unfoldable pub drop_tracking : String → Sync → Sync
drop_tracking eid s = record s {
  held_open = erase eid s.held_open;
  held_locked = erase eid s.held_locked;
  fail_safe = λ e. if str_eq eid e then false else s.fail_safe e;
}
