-- ===== src/HubSync/Tests.antt =====
-- A hub is opened by a command of unknown outcome, and the process ends.
use hassio_access_control.Prelude.{◌≡◌, refl, true, false, none, some, [], ◌∷◌, eq_iff, arith, All}
use hassio_access_control.Prelude.Map.{erase}
use hassio_access_control.HubSync.{
  native, held_open, Hub, Sync, upsert_hold, delete_hold, write_hub_sync_hold, record_hub_state,
  hubs_of,
}
use hassio_access_control.HubSync.Drive.{raised, no_client, write_ahead, send, try_once, drive_hub}
use hassio_access_control.HubSync.Apply.{
  unlocked, Request, Meeting, own_before, own_after, end_round, drive_owned, apply_hub, apply_all,
  apply_state,
}
use hassio_access_control.HubSync.Release.{
  queue_release, load_row, load_rows, load_persisted_holds, restart, append_unique_hubs, fill_known,
  process_pending_releases, release_entity, release_hubs, release_hub, own_release, drive_release,
  end_release, Visit,
}
use hassio_access_control.HubSync.Ownership.Steps.{Owns, IsOwned}
use hassio_access_control.HubSync.Ownership.Queue.{Waits}
use hassio_access_control.HubSync.Ownership.Recovery.{process_rounds, restart-IsQueued}
use hassio_access_control.HubSync.Observe.{observe_hub, own_shared, fail_safe_hub}
use hassio_access_control.HubSync.Recover.{latch_recovered, queue_all, recover}
use hassio_access_control.HubSync.Marker.{
  LockOption, Shutdown, Recovery, recover_marker, shutdown_marker, consume_clean_shutdown_marker,
  adopted_holds, preserve_clean_holds, preservable_holds, write_clean_shutdown_marker, is_opted,
  vouched, deleted,
}
use hassio_access_control.HubSync.Marker.Restart.{IsVouched, recover_marker-IsVouched}
use hassio_access_control.HubSync.Ownership.Run.{applied, restarted, here, then_step, Run-IsOwned}

abbrev garage : Hub
garage = record { id = some 3; device_id = "hub-1"; location_id = some "yard"; name = "Garage" }

abbrev at_rest : Sync
at_rest = record {
  holds = [];
  faults = [];
  held_open = [];
  held_locked = [];
  pending_release = [];
  fail_safe = λ e. false;
  rules = λ d. native;
}

abbrev open_request : Request
open_request = record { goal = unlocked; enforcing_lockdown = false; fail_safe = false }

-- the first attempt finds no client, and the second raises after the hub has taken the rule
abbrev unsure : Meeting
unsure = record { lockdown = false; attempts = no_client ∷ raised true ∷ []; urgent = false }

abbrev opened : Sync
opened = (apply_state "lock.garage" open_request ((garage, unsure) ∷ []) at_rest).1

abbrev ended : Sync
ended = restart opened

left_open : (ended.rules "hub-1" ≡ held_open) × (hubs_of "lock.garage" ended.held_open ≡ [])
unfolding apply_state apply_all apply_hub drive_owned own_before end_round own_after drive_hub
    try_once write_ahead send record_hub_state write_hub_sync_hold upsert_hold restart
left_open = (refl, refl)

at_rest-IsOwned : IsOwned at_rest
at_rest-IsOwned = record { at = λ d e. absurd (ground (arith, e)) }

Run-IsOwned_example : Owns "hub-1" ended.holds
Run-IsOwned_example =
    Run-IsOwned at_rest ended at_rest-IsOwned
      (then_step
        (then_step (here at_rest)
          (applied "lock.garage" open_request ((garage, unsure) ∷ []) at_rest))
        (restarted opened))
      "hub-1" left_open.0

-- the release of the garage finds no client, while the hub's entity is visited
abbrev no_luck : Visit
no_luck = record {
  urgent = false;
  not_due = false;
  meets = λ hub. record { urgent = false; attempts = no_client ∷ no_client ∷ [] };
}

abbrev recovered : Sync
recovered =
    process_rounds ((false, (λ eid. no_luck), "lock.garage" ∷ []) ∷ [])
      (recover [] (λ eid. garage ∷ []) false (λ eid. no_luck) ("lock.garage" ∷ []) ended)

still_open : (recovered.rules "hub-1" ≡ held_open) × (recovered.fail_safe "lock.garage" ≡ true)
unfolding apply_state apply_all apply_hub drive_owned own_before end_round own_after drive_hub
    try_once write_ahead send record_hub_state write_hub_sync_hold upsert_hold restart recover
    latch_recovered queue_all queue_release erase load_persisted_holds load_rows load_row
    append_unique_hubs fill_known process_pending_releases release_entity release_hubs release_hub
    own_release drive_release end_release
still_open = (refl, refl)

restart-IsQueued_example : Waits [] "hub-1" recovered
restart-IsQueued_example =
    restart-IsQueued opened [] (λ eid. garage ∷ []) false (λ eid. no_luck) ("lock.garage" ∷ [])
      ((false, (λ eid. no_luck), "lock.garage" ∷ []) ∷ []) "hub-1"
      (Run-IsOwned at_rest opened at_rest-IsOwned (
        then_step (here at_rest)
          (applied "lock.garage" open_request ((garage, unsure) ∷ []) at_rest)))
      (λ e. ground (arith, (eq_iff "hub-1" "").1 e)) still_open.0

-- a lock of the open garage fails after its write, and an observation then deletes the row
abbrev orphaned : Sync
orphaned =
    (observe_hub "lock.garage" garage held_open
      (fail_safe_hub "lock.garage" ("lock.garage" ∷ []) garage false (no_client ∷ []) opened).1).1

no_row : (orphaned.rules "hub-1" ≡ held_open) × (orphaned.holds ≡ [])
unfolding apply_state apply_all apply_hub drive_owned own_before end_round own_after drive_hub
    try_once write_ahead send record_hub_state write_hub_sync_hold upsert_hold delete_hold
    observe_hub fail_safe_hub own_shared
no_row = (refl, refl)

-- a graceful restart of sixty seconds with the garage held open
abbrev garage_option : LockOption
garage_option = record {
  entity_id = "lock.garage";
  is_external = true;
  sync_hub_state = true;
  preserve_hold_on_restart = true;
  hidden = false;
}

abbrev at_end : Shutdown
at_end = record {
  lockdown = false;
  recovered = true;
  locks = some (garage_option ∷ []);
  candidates = "lock.garage" ∷ [];
  sync = opened;
  fails = false;
  time = 100;
}

abbrev at_start : Recovery
at_start = record {
  lockdown = false;
  locks = some (garage_option ∷ []);
  readback = record { is_unlocked = λ e. true; bidirectional = true; is_held = λ h. true };
  recovered = "lock.garage" ∷ [];
  sync = opened;
  read_fails = false;
  deletion = deleted;
  time = 160;
}

readopted : (recover_marker at_start (shutdown_marker at_end none).1).0 ≡ "lock.garage" ∷ []
unfolding apply_state apply_all apply_hub drive_owned own_before end_round own_after drive_hub
    try_once write_ahead send record_hub_state write_hub_sync_hold upsert_hold recover_marker
    shutdown_marker consume_clean_shutdown_marker adopted_holds preserve_clean_holds
    preservable_holds write_clean_shutdown_marker is_opted vouched
readopted = refl

recover_marker-IsVouched_example :
    All
      (IsVouched at_end at_start (recover_marker at_start (shutdown_marker at_end none).1).1)
      (recover_marker at_start (shutdown_marker at_end none).1).0
recover_marker-IsVouched_example = recover_marker-IsVouched at_end at_start none refl
