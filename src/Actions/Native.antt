-- ===== src/Actions/Native.antt =====
-- The branch of `execute_lock_action` (lock_actions.py) for a native UniFi Access lock.
use hassio_access_control.Prelude.{String, true, not, Option, none, some, if◌then◌else◌, str_eq}
use hassio_access_control.Relock.Manager.{
  show_unlocked, show_locked, show_unknown, command_access, Method, ◌>>◌, return, modify, emit,
}
use hassio_access_control.Actions.{
  Action, lock, unlock, buzz, restore_schedule, accepted_unconfirmed, error, ConfirmedState,
  unlocked, locked, scheduled, Reason, no_access_client, no_location, no_device, unconfirmed,
  outcome_unknown, ActionResult, LockRow, AccessAnswer, returned, raised_unconfirmed,
  raised_unknown, raised_other, raised_cancelled, Weather, present, refuse, succeed, nothing,
  on_cancelled, on_exception,
}

-- the two exact states of a relay
pub data Relay : Type 0 where
  opened shut : Relay

unfoldable pub relay_of : Option String → Option Relay
relay_of none = none
relay_of (some s) =
    if str_eq s "unlocked" then some opened else if str_eq s "locked" then some shut else none

-- the state that a confirmation proves and the one that the result reports; `none` raises
-- `AccessCommandAcceptedUnconfirmedError`
unfoldable pub judge : Weather → Action → Option Relay → Option (Relay × ConfirmedState)
judge w action none = none
judge w lock (some opened) = none
judge w lock (some shut) = if w.has_relay_state then some (shut, locked) else none
judge w unlock (some opened) = if w.has_relay_state then some (opened, unlocked) else none
judge w unlock (some shut) = none
judge w buzz (some opened) = if w.has_confirmed_command then some (opened, unlocked) else none
judge w buzz (some shut) = none
judge w restore_schedule (some relay) = if w.has_relay_state then some (relay, scheduled) else none

unfoldable pub publish : Option String → Relay → Method (Unit {0})
publish none relay = return tt
publish (some device) opened = emit (show_unlocked device)
publish (some device) shut = emit (show_locked device)

-- the two handlers of the Access client's exceptions
unfoldable pub not_proved : LockRow → Action → Reason → Method ActionResult
not_proved row action reason = do
  elim (present row.device_id) [ none ↦ return tt | some device ↦ emit (show_unknown device) ]
  return (refuse row action accepted_unconfirmed reason)

unfoldable pub proved : LockRow → Action → Relay × ConfirmedState → Method ActionResult
unfolding publish
proved row action (relay, state) = do
  publish (present row.device_id) relay
  return (succeed row action state)

unfoldable pub after_answer : LockRow → Action → Weather → AccessAnswer → Method ActionResult
unfolding not_proved proved
after_answer row action w (returned state) = elim (judge w action (relay_of state)) [
  | none ↦ not_proved row action unconfirmed
  | some p ↦ proved row action p
]
after_answer row action w raised_unconfirmed = not_proved row action unconfirmed
after_answer row action w raised_unknown = not_proved row action outcome_unknown
after_answer row action w raised_other = on_exception row action w.cancelled_late true nothing
after_answer row action w raised_cancelled = on_cancelled row action true nothing

-- `invoke_access_command`
unfoldable pub invoke : LockRow → Action → Weather → Method ActionResult
invoke row action w = do
  emit (command_access row.id)
  modify w.meanwhile
  after_answer row action w w.access_answer

-- what the command needs, and the reason if it is missing
abbrev pub needed : LockRow → Action → Option String × Reason
needed row buzz = (present row.location_id, no_location)
needed row action = (present row.device_id, no_device)

unfoldable pub native_action : LockRow → Action → Weather → Method ActionResult
native_action row action w =
    if not w.has_access_client
    then return (refuse row action error no_access_client)
    else elim (needed row action).0 [
      | none ↦ return (refuse row action error (needed row action).1)
      | some id ↦ invoke row action w
    ]
