-- ===== src/Actions.antt =====
-- Manual and API lock commands, lock_actions.py: the types, the publication of a state and the
-- handlers that both kinds of lock share. `External` and `Native` are the two branches of
-- `execute_lock_action`, `Disarm` is `_auto_disarm`, and `Execute` puts them together.
pub mod Cache
pub mod Native
pub mod External
pub mod Disarm
pub mod Execute
pub mod Keep
pub mod Lockdown
pub mod Timed
pub mod Sent
pub mod Yields
pub mod Safe
pub mod Evidence
pub mod ReadBack
pub mod Relayed
pub mod Granted
mod Tests
use hassio_access_control.Prelude.{
  ℕ, String, Bool, true, false, Option, none, some, List, ◌&&◌, if◌then◌else◌, str_eq,
}
use hassio_access_control.Relock.Rows.{Row}
use hassio_access_control.Relock.Manager.{
  Clock, Manager, Result, ok, raise, task_cancelled, show_unlocked, show_locked, show_unknown,
  log_access, Method, ◌>>=◌, ◌>>◌, return, fail, modify, select, except, emit,
}
use hassio_access_control.Relock.Timers.{RelockIntent, retain_after_uncertain_unlock, resume}
use hassio_access_control.Unlock.{Write, Reading}

pub data Action : Type 0 where
  lock unlock buzz restore_schedule : Action

pub data Outcome : Type 0 where
  granted accepted_unconfirmed denied error not_found : Outcome

-- `confirmed_state`
pub data ConfirmedState : Type 0 where
  unlocked locked scheduled : ConfirmedState

-- the texts of `reason`
pub data Reason : Type 0 where
  lock_not_found lockdown_active buzz_disabled no_access_client no_location no_device : Reason
  unconfirmed outcome_unknown schedule_is_native no_home_assistant no_relock_manager : Reason
  not_confirmed rejected unsupported_type upstream_failed : Reason
  cancelled_after cancelled_before : Reason

-- `LockActionResult`
pub record ActionResult : Type 0 where
  pub lock_id : ℕ
  pub action : Action
  pub outcome : Outcome
  pub reason : Option Reason
  pub confirmed_state : Option ConfirmedState

pub data LockKind : Type 0 where
  access_native ha_external other_type : LockKind

-- the columns of `locks` that an action reads
pub record LockRow : Type 0 where
  pub id : ℕ
  pub name : String
  pub kind : LockKind
  pub device_id : Option String
  pub location_id : Option String
  pub entity_id : Option String
  pub buzz_enabled : Bool
  pub relock_duration : ℕ
  pub sync_hub_state : Bool

-- how the awaited call of the Access client ends: with the "state" of its confirmation, which is
-- `none` if there is no such text, or with an exception
pub data AccessAnswer : Type 0 where
  returned : Option String → AccessAnswer
  raised_unconfirmed raised_unknown raised_other raised_cancelled : AccessAnswer

-- one panel in `_auto_disarm`: the flag and the client under the barrier, and the answer of
-- `alarm_disarm`, where `none` is an exception
pub record Panel : Type 0 where
  pub entity_id : String
  pub lockdown : Bool
  pub has_client : Bool
  pub disarmed : Option Bool

-- what an action meets
pub record Weather : Type 0 where
  -- the lockdown flag at the first test, under the barrier, and before the disarming
  pub lockdown_before : Bool
  pub lockdown : Bool
  pub lockdown_after : Bool
  -- the task is cancelled while it waits for the entity's lock or for the barrier
  pub cancelled_waiting : Bool
  pub has_access_client : Bool
  -- the client has `unlock_momentary_confirmed`; it can read the official relay
  pub has_confirmed_command : Bool
  pub has_relay_state : Bool
  pub access_answer : AccessAnswer
  pub has_client : Bool
  pub has_relock_manager : Bool
  pub has_hub_sync : Bool
  pub now : Clock
  pub write : Write
  pub readings : ℕ → Reading
  pub meanwhile : Manager → Manager
  pub later : Clock
  -- the task is cancelled again while it completes a clean-up
  pub cancelled_late : Bool
  pub panels : List Panel

-- `_DANGEROUS_DURING_LOCKDOWN`
abbrev pub is_dangerous : Action → Bool
is_dangerous lock = false
is_dangerous _ = true

-- `if not value`: an empty text counts as none
abbrev pub present : Option String → Option String
present none = none
present (some s) = if str_eq s "" then none else some s

abbrev pub finish :
    LockRow → Action → Outcome → Option Reason → Option ConfirmedState → ActionResult
finish row action outcome reason confirmed_state = record {
  lock_id = row.id;
  action = action;
  outcome = outcome;
  reason = reason;
  confirmed_state = confirmed_state;
}

abbrev pub refuse : LockRow → Action → Outcome → Reason → ActionResult
refuse row action outcome reason = finish row action outcome (some reason) none

abbrev pub succeed : LockRow → Action → ConfirmedState → ActionResult
succeed row action state = finish row action granted none (some state)

abbrev pub outcome_text : Outcome → String
outcome_text granted = "granted"
outcome_text accepted_unconfirmed = "accepted_unconfirmed"
outcome_text denied = "denied"
outcome_text error = "error"
outcome_text not_found = "not_found"

-- a call of the database that the manager's table is not concerned in
abbrev pub db_call : Method (Unit {0})
db_call = select (λ rows. tt)

-- `_audit_result` of a lock that was found
unfoldable pub audit_result : ActionResult → Method (Unit {0})
audit_result r = do db_call; emit (log_access (outcome_text r.outcome))

-- what a handler has to resolve: an intent, a paused row, or nothing
pub data Owed : Type 0 where
  nothing : Owed
  intent : RelockIntent → Owed
  held : Option Row → Owed

-- `retain_intent` and `resume_paused`
unfoldable pub settle : Owed → Method (Unit {0})
settle nothing = return tt
settle (intent i) = do retain_after_uncertain_unlock i; return tt
settle (held row) = do resume row; return tt

-- the entity or the device whose state the handlers mark as unknown
abbrev pub shown_of : LockRow → Option String
shown_of row = elim row.kind [
  | access_native ↦ present row.device_id
  | ha_external ↦ present row.entity_id
  | other_type ↦ none
]

-- `if physical_command_attempted: publish_lock_state(…, "unknown")`
unfoldable pub mark_unknown : LockRow → Bool → Method (Unit {0})
mark_unknown row attempted =
    if attempted
    then elim (shown_of row) [ none ↦ return tt | some k ↦ emit (show_unknown k) ]
    else return tt

-- `except asyncio.CancelledError`: clean up, audit, and raise again
unfoldable pub on_cancelled : LockRow → Action → Bool → Owed → Method ActionResult
unfolding settle audit_result mark_unknown
on_cancelled row action attempted owed = do
  mark_unknown row attempted
  except (settle owed) (return tt)
  except
      (audit_result (
        refuse row action (if attempted then accepted_unconfirmed else error)
          (if attempted then cancelled_after else cancelled_before)))
      (return tt)
  fail task_cancelled

abbrev pub is_owed : Owed → Bool
is_owed nothing = false
is_owed owed = true

-- `except Exception`: clean up; a cancellation of the clean-up is raised, unless it failed
unfoldable pub on_exception : LockRow → Action → Bool → Bool → Owed → Method ActionResult
unfolding settle mark_unknown
on_exception row action late attempted owed = do
  mark_unknown row attempted
  cancelled ← except (do settle owed; return (is_owed owed && late)) (return false)
  if cancelled then fail task_cancelled else return (refuse row action error upstream_failed)
