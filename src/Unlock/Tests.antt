-- ===== src/Unlock/Tests.antt =====
-- A credential unlocks a door, and the theorems of the modules below at it.
use hassio_access_control.Prelude.{
  ℕ, ◌<◌, max, ◌≡◌, refl, true, false, some, [], arith, ◌==◌, if◌then◌else◌,
}
use hassio_access_control.Relock.Rows.{rows_at_deadline, get_pending_relock, add_pending_relock}
use hassio_access_control.Relock.Manager.{Manager, ok, start}
use hassio_access_control.Relock.Timers.{
  schedule, retain_after_uncertain_unlock, extend_after_success,
}
use hassio_access_control.Unlock.{
  ExternalLock, Weather, Write, accepted, refused, state, unlocked, confirm_ha_state, prepare,
  resolve, succeed, recover, confirm, after_write, command, unlock_ha_external,
}
use hassio_access_control.Relock.Due.{IsDueBy}
use hassio_access_control.Unlock.Safety.{
  Sends, unlock_ha_external-IsDueBy, unlock_ha_external-confirmed,
}

abbrev gate : ExternalLock
gate = record {
  entity_id = "lock.gate";
  id = some 4;
  name = "gate";
  relock_on_device_auth = true;
  relock_duration = 30;
}

-- the command is refused
abbrev storm : Weather
storm = record {
  lockdown = false;
  has_client = true;
  now = record { wall = 50; monotonic = 5 };
  write = refused;
  readings = λ i. state (some "unlocked");
  meanwhile = λ m. m;
  later = record { wall = 52; monotonic = 7 };
  cancelled_late = false;
}

abbrev idle : Manager
idle = start []

storm-Sends : Sends gate storm idle
unfolding unlock_ha_external prepare command after_write confirm recover resolve succeed schedule
    retain_after_uncertain_unlock get_pending_relock add_pending_relock
storm-Sends e = ground (arith, e)

unlock_ha_external-IsDueBy_example :
    IsDueBy "lock.gate" (max 80 82) (unlock_ha_external gate storm idle).1
unlock_ha_external-IsDueBy_example =
    unlock_ha_external-IsDueBy gate storm idle (λ m. refl) refl storm-Sends

-- the command is accepted, and the first readback is still "locked"
abbrev calm : Weather
calm = record storm {
  write = accepted;
  readings = λ i. if i == 0 then state (some "locked") else state (some "unlocked");
}

calm_unlocks : (unlock_ha_external gate calm idle).0 ≡ ok unlocked
unfolding unlock_ha_external prepare command after_write confirm recover resolve succeed
    confirm_ha_state schedule extend_after_success get_pending_relock add_pending_relock
    rows_at_deadline
calm_unlocks = refl

unlock_ha_external-confirmed_example :
    (false ≡ false)
    × (◌≡◌ {A = Write} accepted accepted)
    × ((j : ℕ) × (j < 3) × (calm.readings j ≡ state (some "unlocked")))
unlock_ha_external-confirmed_example = unlock_ha_external-confirmed gate calm idle calm_unlocks
