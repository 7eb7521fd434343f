-- ===== src/Unlock.antt =====
-- `AuthEngine._unlock_ha_external` and `_unlock_ha_external_coordinated` of auth_engine.py, which
-- unlock an external lock for a credential, with the calls of the relock manager that keep the
-- door from staying open. The manager is taken to be there; what other tasks do to it while the
-- command and the readbacks wait, and what these answer, are arguments.
pub mod Due
pub mod Safety
pub mod Confirmed
mod Tests
use hassio_access_control.Prelude.{
  ℕ, zero, suc, ◌+◌, String, Bool, true, false, not, Option, none, some, if◌then◌else◌, str_eq,
}
use hassio_access_control.Relock.Rows.{Row}
use hassio_access_control.Relock.Manager.{
  Clock, Manager, Result, ok, raise, command_unlock, show_unlocked, show_unknown, Method, ◌>>=◌,
  ◌>>◌, return, fail, modify, except, emit,
}
use hassio_access_control.Relock.Timers.{
  RelockIntent, schedule, retain_after_uncertain_unlock, extend_after_success, cancel, pause,
  resume,
}

pub record ExternalLock : Type 0 where
  pub entity_id : String
  pub id : Option ℕ
  pub name : String
  pub relock_on_device_auth : Bool
  pub relock_duration : ℕ

-- how `await ha.unlock(entity_id)` ends
pub data Write : Type 0 where
  accepted refused write_raised write_cancelled : Write

-- how one `await ha.get_entity_state(entity_id)` ends
pub data Reading : Type 0 where
  state : Option String → Reading
  reading_raised reading_cancelled : Reading

pub record Weather : Type 0 where
  -- `recheck_lockdown and self._lockdown`, under the barrier
  pub lockdown : Bool
  pub has_client : Bool
  pub now : Clock
  pub write : Write
  pub readings : ℕ → Reading
  pub meanwhile : Manager → Manager
  pub later : Clock
  -- the task is cancelled while it completes a call of the relock manager
  pub cancelled_late : Bool

pub data Ending : Type 0 where
  not_issued unlocked unconfirmed failed cancelled : Ending

pub data Readback : Type 0 where
  confirmed not_confirmed readback_raised readback_cancelled : Readback

after_reading : String → Reading → Readback → Readback
after_reading expected (state none) later = later
after_reading expected (state (some s)) later = if str_eq s expected then confirmed else later
after_reading expected reading_raised later = readback_raised
after_reading expected reading_cancelled later = readback_cancelled

-- `_confirm_ha_state`: `n` readbacks are left, and the next is number `i`
unfoldable pub confirm_ha_state : String → ℕ → ℕ → (ℕ → Reading) → Readback
unfolding after_reading
confirm_ha_state expected zero i readings = not_confirmed
confirm_ha_state expected (suc n) i readings =
    let later = confirm_ha_state expected n (i + 1) readings in
    after_reading expected (readings i) later

abbrev pub ha_confirm_attempts : ℕ
ha_confirm_attempts = 3

-- what a failure has to resolve: a new intent, or a paused row
pub data Owed : Type 0 where
  intent : RelockIntent → Owed
  held : Option Row → Owed

-- before the command
unfoldable pub prepare : ExternalLock → Clock → Method Owed
prepare lock now =
    if lock.relock_on_device_auth
    then (do
      i ← schedule lock.entity_id lock.relock_duration lock.id lock.name "device_auth" now
      return (intent i))
    else (do row ← pause lock.entity_id; return (held row))

-- `_complete_safety_operation`: the call is completed, and a cancellation is raised after it
abbrev ends : Bool → Ending → Ending
ends late e = if late then cancelled else e

-- `resolve_relock_safety` under its `try`, which logs an exception
unfoldable pub resolve : Owed → Bool → Ending → Method Ending
resolve (intent i) late e =
    except (do retain_after_uncertain_unlock i; return (ends late e)) (return e)
resolve (held row) late e = except (do resume row; return (ends late e)) (return e)

-- after the state was confirmed
unfoldable pub succeed : ExternalLock → Weather → Owed → Method Ending
unfolding resolve
succeed lock w (intent i) =
    except
      (do
        extend_after_success i lock.relock_duration w.later
        return (ends w.cancelled_late unlocked))
      (return unlocked)
succeed lock w (held row) =
    except (do cancel lock.entity_id; return (ends w.cancelled_late unlocked))
      (resolve (held row) w.cancelled_late failed)

-- the handlers of an exception and of a cancellation
unfoldable pub recover : ExternalLock → Weather → Owed → Ending → Method Ending
recover lock w owed e = do emit (show_unknown lock.entity_id); resolve owed w.cancelled_late e

unfoldable pub confirm : ExternalLock → Weather → Owed → Readback → Method Ending
confirm lock w owed confirmed = do emit (show_unlocked lock.entity_id); succeed lock w owed
confirm lock w owed not_confirmed = recover lock w owed unconfirmed
confirm lock w owed readback_raised = recover lock w owed failed
confirm lock w owed readback_cancelled = recover lock w owed cancelled

unfoldable pub after_write : ExternalLock → Weather → Owed → Write → Method Ending
unfolding confirm
after_write lock w owed accepted =
    confirm lock w owed (confirm_ha_state "unlocked" ha_confirm_attempts 0 w.readings)
after_write lock w owed refused = recover lock w owed failed
after_write lock w owed write_raised = recover lock w owed failed
after_write lock w owed write_cancelled = recover lock w owed cancelled

-- from the command on
unfoldable pub command : ExternalLock → Weather → Owed → Method Ending
unfolding after_write
command lock w owed = do
  emit (command_unlock lock.entity_id)
  modify w.meanwhile
  after_write lock w owed w.write

-- a call that is prepared, or `none` when the preparation raised
unfoldable pub unlock_ha_external : ExternalLock → Weather → Method Ending
unlock_ha_external lock w =
    if str_eq lock.entity_id ""
    then return failed
    else if w.lockdown
    then return not_issued
    else if not w.has_client
    then return failed
    else do
      prepared ← except (do owed ← prepare lock w.now; return (some owed)) (return none)
      elim prepared [ none ↦ return failed | some owed ↦ command lock w owed ]
