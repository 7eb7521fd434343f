-- ===== src/Actions/Tests.antt =====
-- The actions of lock_actions.py on small inputs.
use hassio_access_control.Prelude.{
  ℕ, String, ◌≡◌, refl, true, false, ◌⊎◌, Option, none, some, List, [], ◌∷◌, if◌then◌else◌, ◌==◌,
  arith, eq_iff,
}
use hassio_access_control.Relock.Manager.{
  Clock, Result, ok, start, Effect, command_unlock, show_unlocked, log_access, alarm_disarm,
}
use hassio_access_control.Relock.Due.{IsDueBy}
use hassio_access_control.Unlock.{confirm_ha_state, accepted, state}
use hassio_access_control.Actions.{
  Action, buzz, restore_schedule, ActionResult, access_native, ha_external, LockRow, returned,
  Weather, audit_result, succeed, unlocked, scheduled,
}
use hassio_access_control.Actions.Cache.{
  Observation, publish_all, publish_all-newest, empty_cache, Shows,
}
use hassio_access_control.Actions.Execute.{
  on_row, act, under_barrier, by_kind, conclude, execute_lock_action, is_granted,
}
use hassio_access_control.Actions.External.{
  external_action, on_target, drive, prepare, command, after_write, after_readback, on_confirmed,
}
use hassio_access_control.Actions.Native.{
  native_action, invoke, after_answer, judge, relay_of, proved, publish,
}
use hassio_access_control.Actions.Disarm.{auto_disarm, disarm_panels, after_disarm, logged}
use hassio_access_control.Relock.Timers.{schedule, extend_after_success}
use hassio_access_control.Relock.Rows.{rows_at_deadline, get_pending_relock, add_pending_relock}
use hassio_access_control.Actions.Sent.{commands}
use hassio_access_control.Actions.Safe.{timed_unlock-IsSafe}
use hassio_access_control.Actions.Lockdown.{execute_lock_action-IsInert, IsInert}
use hassio_access_control.Actions.Granted.{execute_lock_action-IsEvident, IsEvident}
use hassio_access_control.Actions.Yields.{Holds}

abbrev front : LockRow
front = record {
  id = 7;
  name = "Front";
  kind = ha_external;
  device_id = none;
  location_id = none;
  entity_id = some "lock.front";
  buzz_enabled = true;
  relock_duration = 30;
  sync_hub_state = false;
}

abbrev gate : LockRow
gate = record front {
  id = 8;
  kind = access_native;
  device_id = some "dev";
  location_id = some "loc";
  entity_id = none;
}

abbrev noon : Clock
noon = record { wall = 1000; monotonic = 50 }

abbrev calm : Weather
calm = record {
  lockdown_before = false;
  lockdown = false;
  lockdown_after = false;
  cancelled_waiting = false;
  has_access_client = true;
  has_confirmed_command = true;
  has_relay_state = true;
  access_answer = returned (some "locked");
  has_client = true;
  has_relock_manager = true;
  has_hub_sync = false;
  now = noon;
  write = accepted;
  readings = λ n. if n == 0 then state (some "locked") else state (some "unlocked");
  meanwhile = λ m. m;
  later = record { wall = 1002; monotonic = 52 };
  cancelled_late = false;
  panels =
      record { entity_id = "alarm.home"; lockdown = false; has_client = true; disarmed = some true }
      ∷ [];
}

abbrev locks : ℕ → Option LockRow
locks id = if id == 7 then some front else if id == 8 then some gate else none

abbrev outcomes : ℕ → Action → Weather → Result ActionResult × List Effect
outcomes id action w =
    let (r, m) = execute_lock_action locks id action true w (start []) in (r, m.effects)

timed : outcomes 7 buzz calm ≡ (
  ok (succeed front buzz unlocked),
  command_unlock "lock.front"
      ∷ show_unlocked "lock.front"
      ∷ log_access "granted"
      ∷ alarm_disarm "alarm.home"
      ∷ log_access "granted"
      ∷ [],
)
unfolding execute_lock_action on_row act under_barrier by_kind external_action on_target drive
    prepare command after_write after_readback on_confirmed conclude audit_result auto_disarm
    disarm_panels after_disarm logged confirm_ha_state schedule extend_after_success
    get_pending_relock add_pending_relock rows_at_deadline
timed = refl

timed_unlock-IsSafe_example :
    let m' = (execute_lock_action locks 7 buzz true calm (start [])).1 in
    (commands m' ≡ []) ⊎ IsDueBy "lock.front" 1032 m'
timed_unlock-IsSafe_example =
    timed_unlock-IsSafe front "lock.front" calm refl (λ m. refl) locks 7 true (start []) refl refl

-- the lockdown begins while the command waits for the barrier
abbrev stopped : Weather
stopped = record calm { lockdown = true }

execute_lock_action-IsInert_example :
    let (r, m') = execute_lock_action locks 8 restore_schedule true stopped (start []) in
    Holds (λ a. is_granted a.outcome ≡ false) r × IsInert (start []) m'
execute_lock_action-IsInert_example =
    execute_lock_action-IsInert restore_schedule true stopped 8 refl refl locks (start [])

restored :
    (execute_lock_action locks 8 restore_schedule true calm (start [])).0
    ≡ ok (succeed gate restore_schedule scheduled)
unfolding execute_lock_action on_row act under_barrier by_kind native_action invoke after_answer
    judge relay_of proved publish conclude audit_result
restored = refl

execute_lock_action-IsEvident_example : IsEvident (some gate) restore_schedule calm
execute_lock_action-IsEvident_example =
    execute_lock_action-IsEvident locks 8 restore_schedule true calm (start [])
      (succeed gate restore_schedule scheduled) restored refl

abbrev seen : String → String → ℕ → Observation
seen k v t = record { entity_id = k; value = v; observed_at = t }

publish_all-newest_example : Shows (seen "lock.front" "locked" 9) (
    publish_all
      (seen "lock.front" "unlocked" 9
        ∷ seen "dev" "unknown" 20
        ∷ seen "lock.front" "locked" 9
        ∷ seen "lock.front" "unlocked" 5
        ∷ [])
      empty_cache)
publish_all-newest_example =
    publish_all-newest (seen "lock.front" "locked" 9)
      (seen "lock.front" "unlocked" 9 ∷ seen "dev" "unknown" 20 ∷ [])
      (seen "lock.front" "unlocked" 5 ∷ [])
      (λ e. omega arith, (λ e. ground (arith, (eq_iff "dev" "lock.front").1 e), tt))
      (λ e. omega arith, tt)
