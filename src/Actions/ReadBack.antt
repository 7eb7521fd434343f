-- ===== src/Actions/ReadBack.antt =====
-- A granted action on a Home Assistant lock, lock_actions.py, was read back.
use hassio_access_control.Prelude.{String, ◌≡◌, refl, true, false, Option, none, some}
use hassio_access_control.Relock.Manager.{Method, ◌>>=◌, return, emit, modify, except}
use hassio_access_control.Unlock.{
  Write, accepted, refused, write_raised, write_cancelled, Readback, confirmed, not_confirmed,
  readback_raised, readback_cancelled, confirm_ha_state, ha_confirm_attempts,
}
use hassio_access_control.Unlock.Confirmed.{confirmed_lem}
use hassio_access_control.Actions.{
  Action, denied, error, Reason, ActionResult, LockRow, Weather, Owed, nothing, refuse,
  on_exception, accepted_unconfirmed, no_home_assistant, no_relock_manager, schedule_is_native,
  rejected,
}
use hassio_access_control.Actions.Yields.{Yields, Yields-if, Yields-bind, on_cancelled-Yields}
use hassio_access_control.Actions.External.{
  goal_text, after_readback, after_write, command, drive, on_target, external_action, shows,
  command_of, prepare, target, needs_manager, is_schedule,
}
use hassio_access_control.Actions.Evidence.{
  IsReadBack, Proves, refused-Proves, on_exception-Proves, on_unconfirmed-Proves,
  on_confirmed-Proves,
}

module _ (row : LockRow) (action : Action) (w : Weather) where
  after_readback-Proves :
      (k : String) (owed : Owed) (r : Readback)
      → w.write ≡ accepted
      → confirm_ha_state (goal_text action) ha_confirm_attempts 0 w.readings ≡ r
      → Yields (Proves (IsReadBack action w)) (after_readback row action k w owed r)
  unfolding after_readback
  after_readback-Proves k owed confirmed a h = Yields-bind (emit (shows action k)) _ (λ _.
      on_confirmed-Proves (IsReadBack action w) row action k w owed
        (a, confirmed_lem (goal_text action) ha_confirm_attempts 0 w.readings h))
  after_readback-Proves k owed not_confirmed a h =
      on_unconfirmed-Proves (IsReadBack action w) row action k w owed accepted_unconfirmed
        Reason.not_confirmed refl
  after_readback-Proves k owed readback_raised a h =
      on_exception-Proves (IsReadBack action w) row action w.cancelled_late true owed
  after_readback-Proves k owed readback_cancelled a h =
      on_cancelled-Yields (Proves (IsReadBack action w)) row action true owed

  after_write-Proves :
      (k : String) (owed : Owed) (r : Write)
      → w.write ≡ r
      → Yields (Proves (IsReadBack action w)) (after_write row action k w owed r)
  unfolding after_write
  after_write-Proves k owed accepted h = after_readback-Proves k owed _ h refl
  after_write-Proves k owed refused h =
      on_unconfirmed-Proves (IsReadBack action w) row action k w owed error rejected refl
  after_write-Proves k owed write_raised h =
      on_exception-Proves (IsReadBack action w) row action w.cancelled_late true owed
  after_write-Proves k owed write_cancelled h =
      on_cancelled-Yields (Proves (IsReadBack action w)) row action true owed

  command-Proves :
      (k : String) (owed : Owed)
      → Yields (Proves (IsReadBack action w)) (command row action k w owed)
  unfolding command
  command-Proves k owed =
      Yields-bind (emit (command_of action k)) _
        (λ _. Yields-bind (modify w.meanwhile) _ (λ _. after_write-Proves k owed w.write refl))

  drive-Proves : (k : String) → Yields (Proves (IsReadBack action w)) (drive row action k w)
  unfolding drive
  drive-Proves k =
      Yields-bind (except (do owed ← prepare row action k w; return (some owed)) (return none)) _
        driven
    where
      driven :
          (o : Option Owed)
          → Yields (Proves (IsReadBack action w)) (elim o as (λ x. Method ActionResult) [
            | none ↦ on_exception row action w.cancelled_late false nothing
            | some owed ↦ command row action k w owed
          ])
      driven none =
          on_exception-Proves (IsReadBack action w) row action w.cancelled_late false nothing
      driven (some owed) = command-Proves k owed

  on_target-Proves :
      (o : Option String) → Yields (Proves (IsReadBack action w)) (on_target row action w o)
  unfolding on_target
  on_target-Proves none =
      refused-Proves (IsReadBack action w) (refuse row action error no_home_assistant) refl
  on_target-Proves (some k) =
      Yields-if (needs_manager action w) _ _
        (refused-Proves (IsReadBack action w) (refuse row action error no_relock_manager) refl)
        (drive-Proves k)

  pub external-Proves : Yields (Proves (IsReadBack action w)) (external_action row action w)
  unfolding external_action
  external-Proves =
      Yields-if (is_schedule action) _ _
        (refused-Proves (IsReadBack action w) (refuse row action denied schedule_is_native) refl)
        (on_target-Proves (target row w))
