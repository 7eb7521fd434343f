-- ===== src/Actions/External.antt =====
-- The branch of `execute_lock_action` (lock_actions.py) for a Home Assistant lock, with the calls of
-- the relock manager: a timed unlock writes its intent first, a plain command pauses the timer.
use hassio_access_control.Prelude.{
  String, Bool, true, false, not, ◌&&◌, Option, none, some, if◌then◌else◌,
}
use hassio_access_control.Relock.Manager.{
  show_unlocked, show_locked, show_unknown, command_lock, command_unlock, mark_momentary,
  mark_app_unlock, Effect, Method, ◌>>=◌, ◌>>◌, return, modify, except, emit,
}
use hassio_access_control.Relock.Timers.{schedule, extend_after_success, cancel, pause}
use hassio_access_control.Unlock.{
  Write, accepted, refused, write_raised, write_cancelled, Readback, confirmed, not_confirmed,
  readback_raised, readback_cancelled, confirm_ha_state, ha_confirm_attempts,
}
use hassio_access_control.Actions.{
  Action, lock, unlock, buzz, restore_schedule, Outcome, accepted_unconfirmed, denied, error,
  ConfirmedState, unlocked, locked, Reason, schedule_is_native, no_home_assistant,
  no_relock_manager, rejected, ActionResult, LockRow, Weather, present, refuse, succeed, Owed,
  nothing, intent, held, settle, on_cancelled, on_exception,
}

-- the state that a command asks for
abbrev pub goal : Action → ConfirmedState
goal lock = locked
goal _ = unlocked

abbrev pub goal_text : Action → String
goal_text lock = "locked"
goal_text _ = "unlocked"

abbrev pub command_of : Action → String → Effect
command_of lock = command_lock
command_of _ = command_unlock

abbrev pub shows : Action → String → Effect
shows lock = show_locked
shows _ = show_unlocked

-- after a confirmation: an intent is extended, a failure of which is logged; a paused timer is
-- cancelled, a failure of which is an exception of the action
unfoldable pub on_confirmed : LockRow → Action → String → Weather → Owed → Method ActionResult
on_confirmed row action entity w nothing = return (succeed row action (goal action))
on_confirmed row action entity w (intent i) = do
  except (do extend_after_success i row.relock_duration w.later; return tt) (return tt)
  return (succeed row action (goal action))
on_confirmed row action entity w (held r) =
    except (do cancel entity; return (succeed row action (goal action)))
      (on_exception row action w.cancelled_late true (held r))

-- without a confirmation: what is owed is settled, a failure of which is an exception of the action
unfoldable pub on_unconfirmed :
    LockRow → Action → String → Weather → Owed → Outcome → Reason → Method ActionResult
on_unconfirmed row action entity w owed outcome reason =
    except (do settle owed; emit (show_unknown entity); return (refuse row action outcome reason))
      (on_exception row action w.cancelled_late true owed)

unfoldable pub after_readback :
    LockRow → Action → String → Weather → Owed → Readback → Method ActionResult
after_readback row action entity w owed confirmed = do
  emit (shows action entity)
  on_confirmed row action entity w owed
after_readback row action entity w owed not_confirmed =
    on_unconfirmed row action entity w owed accepted_unconfirmed Reason.not_confirmed
after_readback row action entity w owed readback_raised =
    on_exception row action w.cancelled_late true owed
after_readback row action entity w owed readback_cancelled = on_cancelled row action true owed

unfoldable pub after_write :
    LockRow → Action → String → Weather → Owed → Write → Method ActionResult
after_write row action entity w owed accepted =
    after_readback row action entity w owed
      (confirm_ha_state (goal_text action) ha_confirm_attempts 0 w.readings)
after_write row action entity w owed refused =
    on_unconfirmed row action entity w owed error rejected
after_write row action entity w owed write_raised =
    on_exception row action w.cancelled_late true owed
after_write row action entity w owed write_cancelled = on_cancelled row action true owed

-- from the command on
unfoldable pub command : LockRow → Action → String → Weather → Owed → Method ActionResult
command row action entity w owed = do
  emit (command_of action entity)
  modify w.meanwhile
  after_write row action entity w owed w.write

-- the marks of the hub synchronisation, before the command
abbrev pub mark_timed : LockRow → String → Weather → Method (Unit {0})
mark_timed row entity w =
    if row.sync_hub_state && w.has_hub_sync then emit (mark_momentary entity) else return tt

abbrev pub mark_held : LockRow → Action → String → Weather → Method (Unit {0})
mark_held row unlock entity w =
    if row.sync_hub_state && w.has_hub_sync then emit (mark_app_unlock entity) else return tt
mark_held row action entity w = return tt

-- the relock manager before the command
unfoldable pub prepare : LockRow → Action → String → Weather → Method Owed
prepare row buzz entity w = do
  i ← schedule entity row.relock_duration (some row.id) row.name "buzz" w.now
  mark_timed row entity w
  return (intent i)
prepare row action entity w =
    if w.has_relock_manager
    then (do r ← pause entity; mark_held row action entity w; return (held r))
    else (do mark_held row action entity w; return nothing)

unfoldable pub drive : LockRow → Action → String → Weather → Method ActionResult
drive row action entity w = do
  prepared ← except (do owed ← prepare row action entity w; return (some owed)) (return none)
  elim prepared [
    | none ↦ on_exception row action w.cancelled_late false nothing
    | some owed ↦ command row action entity w owed
  ]

-- the entity, if the client and the entity are there
abbrev pub target : LockRow → Weather → Option String
target row w = if w.has_client then present row.entity_id else none

abbrev pub needs_manager : Action → Weather → Bool
needs_manager buzz w = not w.has_relock_manager
needs_manager action w = false

abbrev pub is_schedule : Action → Bool
is_schedule restore_schedule = true
is_schedule _ = false

-- with the client and the entity, or without
unfoldable pub on_target : LockRow → Action → Weather → Option String → Method ActionResult
on_target row action w none = return (refuse row action error no_home_assistant)
on_target row action w (some entity) =
    if needs_manager action w
    then return (refuse row action error no_relock_manager)
    else drive row action entity w

unfoldable pub external_action : LockRow → Action → Weather → Method ActionResult
external_action row action w =
    if is_schedule action
    then return (refuse row action denied schedule_is_native)
    else on_target row action w (target row w)
