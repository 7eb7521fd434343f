-- ===== src/HubSync/Apply.antt =====
-- `_apply_state` of hub_sync.py: all paired hubs of an entity are driven to a state.
use hassio_access_control.Prelude.{
  String, Bool, true, false, not, ◌&&◌, ◌||◌, List, [], ◌∷◌, if◌then◌else◌,
}
use hassio_access_control.HubSync.{Hub, owns_lock, owns_nothing, Sync, record_hub_state}
use hassio_access_control.HubSync.Drive.{
  Command, hold_unlocked, hold_locked, reset, Attempt, drive_hub, max_attempts, take,
}

pub data Goal : Type 0 where
  unlocked locked : Goal

-- the arguments `state`, `enforcing_lockdown` and `fail_safe`
pub record Request : Type 0 where
  pub goal : Goal
  pub enforcing_lockdown : Bool
  pub fail_safe : Bool

-- what the round of one hub meets: the lockdown flag, the attempts, the urgent lockdown after them
pub record Meeting : Type 0 where
  pub lockdown : Bool
  pub attempts : List Attempt
  pub urgent : Bool

abbrev pub is_unlock : Goal → Bool
is_unlock unlocked = true
is_unlock locked = false

-- `persistent_rule_requested`
abbrev pub wants_hold : Request → Bool
wants_hold q = not (is_unlock q.goal) && (q.enforcing_lockdown || q.fail_safe)

-- the command, where `wrote` is false after a failed write of the ownership
abbrev pub command_for : Request → Bool → Command
command_for q wrote =
    if is_unlock q.goal
    then hold_unlocked
    else if not wrote && not q.enforcing_lockdown
    then reset
    else if q.enforcing_lockdown || q.fail_safe
    then hold_locked
    else reset

-- the loop goes on with the flag `ok_all`, or it is left
pub data Loop : Type 0 where
  next : Bool → Sync → Loop
  stopped : Sync → Loop

-- the ownership before the command, and after it
unfoldable pub own_before : String → Hub → Request → Sync → Bool × Sync
own_before eid hub q s = if wants_hold q then record_hub_state eid hub owns_lock s else (true, s)

unfoldable pub own_after : String → Hub → Request → Bool × Sync → Bool × Sync
own_after eid hub q (drove, s) =
    if drove && not (is_unlock q.goal) && not (wants_hold q)
    then record_hub_state eid hub owns_nothing s
    else (true, s)

-- after the drive, with whether the ownership was written before it
unfoldable pub end_round : String → Hub → Request → Meeting → Bool → Bool × Sync → Loop
end_round eid hub q w wrote (drove, s) =
    let (cleared, s') = own_after eid hub q (drove, s) in
    if w.urgent && not q.enforcing_lockdown then stopped s else next (drove && wrote && cleared) s'

unfoldable pub drive_owned : String → Hub → Request → Meeting → Bool × Sync → Loop
drive_owned eid hub q w (wrote, s) =
    let attempts = take (max_attempts q.enforcing_lockdown) w.attempts in
    end_round eid hub q w wrote (drive_hub eid hub (command_for q wrote) attempts s)

unfoldable pub apply_hub : String → Request → Hub → Meeting → Sync → Loop
apply_hub eid q hub w s =
    if is_unlock q.goal && w.lockdown
    then stopped s
    else drive_owned eid hub q w (own_before eid hub q s)

-- with whether all hubs are in the state and recorded
unfoldable pub apply_all : String → Request → List (Hub × Meeting) → Sync → Bool × Sync
apply_all eid q [] s = (true, s)
apply_all eid q ((hub, w) ∷ hubs) s = elim (apply_hub eid q hub w s) [
  | stopped s' ↦ (false, s')
  | next ok s' ↦ let (rest, s'') = apply_all eid q hubs s' in (ok && rest, s'')
]

-- no hub is no success
unfoldable pub apply_state : String → Request → List (Hub × Meeting) → Sync → Bool × Sync
apply_state eid q [] s = (false, s)
apply_state eid q (h ∷ hubs) s = apply_all eid q (h ∷ hubs) s
