-- ===== src/Auth/Tests.antt =====
-- The engine on a small house, and the theorems of the modules below at it.
use hassio_access_control.Prelude.{
  Some, ◌≡◌, ◌≢◌, refl, true, false, ◌||◌, none, some, [], ◌∷◌, map, any, keep, inr, arith,
}
use hassio_access_control.Text.{codes, lower_char}
use hassio_access_control.Schedule.{Schedule}
use hassio_access_control.Auth.Alarm.{
  disarmed, armed_home, unknown, known_state, known_states, agree, combine, Cache, Panels, read,
  get_alarm_state, Group, blocks, disarms, may_disarm, is_blocked, AlarmState-discrete,
}
use hassio_access_control.Auth.Alarm.Safety.{
  AllDisarmed, OnlyArmed, disarmed-AllDisarmed, combine-OnlyArmed, failure-unknown,
}
use hassio_access_control.Auth.Lockdown.{
  Stored, zero, one, enforcing, Barrier, unlocking, restarted, load_persisted_lockdown,
  enable_publish, enable_written, enable_drained, unlock_begin, unlock_end, Reach, here, next,
  still, then_on, enable_returned, restart,
}
use hassio_access_control.Auth.Lockdown.Safety.{no_unlock_in_lockdown, durable_in_force}
use hassio_access_control.Auth.Database.{value, User, Lock, access_native, ha_external, Database}
use hassio_access_control.Auth.Locks.{
  seen, add_locks, add_cameras, protect_device_ids, get_locks_for_location,
}
use hassio_access_control.Auth.Locks.Resolution.{
  IsVisible, HasDistinctIds, get_locks_for_location-IsResolved, seen-get_locks_for_location,
  shows_in,
}
use hassio_access_control.Auth.Round.{
  Reason, Attempt, at_barrier, confirmed, cancelled, Decision, decided, Access, access, authorized,
  handle_lock, handle_locks, conclude,
}
use hassio_access_control.Auth.Process.{
  alarm_state, Event, start_loop, group_lock_ids, group_granted, unlock_locks, is_active_user,
  process_event,
}
use hassio_access_control.Auth.Process.Soundness.{commands, effects_of, opens}
use hassio_access_control.Auth.Process.Soundness.Rounds.{handle_locks-commands}
use hassio_access_control.Auth.Process.Soundness.Decision.{
  IsPermitted, Permission, command-IsPermitted, process_event-decides, accesses_of,
}

abbrev always : Schedule
always = record {
  schedule_enabled = false;
  schedule_days = none;
  schedule_start = none;
  schedule_end = none;
}

abbrev family : Group
family = record {
  id = 1;
  schedule = always;
  blocked_when_armed_away = false;
  blocked_when_armed_home = false;
  can_disarm = true;
  all_locks = false;
}

abbrev front : Lock
front = record { id = 1; name = "front"; lock_type = ha_external; hidden = false }

abbrev back : Lock
back = record { id = 2; name = "back"; lock_type = access_native; hidden = false }

abbrev cellar : Lock
cellar = record { id = 3; name = "cellar"; lock_type = ha_external; hidden = true }

abbrev anna : User
anna = record { id = 7; name = "Anna"; status = some (codes "ACTIVE") }

-- Anna's group opens the front door only
abbrev house : Database
house = record {
  get_user_by_ulp_id = λ ulp_id. value (some anna);
  get_user_groups = λ user_id. value (family ∷ []);
  get_group_locks = λ group_id. value (1 ∷ []);
  get_locks_for_location = λ location_id. value (cellar ∷ back ∷ []);
  get_locks_by_entry_device = λ kind device_id. value (front ∷ back ∷ []);
  get_rules_for_user_and_lock = λ user_id lock_id. value none;
}

abbrev tap : Event
tap = record {
  ulp_id = "anna";
  location_id = "gate";
  group_now = λ i. record { weekday = 0; minute = 0 };
  rule_now = λ i. record { weekday = 0; minute = 0 };
  lockdown = false;
  cache = record { value = none; expires = 0 };
  loop_time = 5;
  has_client = true;
  panels = read (some "armed_away" ∷ []);
  cameras = value [];
  attempts = λ lock. at_barrier false confirmed;
}

abbrev answer : Decision
answer = record {
  is_granted = true;
  user_name = some "Anna";
  reason = Reason.access_granted;
  locks = "front" ∷ [];
}

tap_granted : (process_event house tap).0 ≡ decided answer
unfolding process_event alarm_state get_alarm_state known_states known_state combine agree
    AlarmState-discrete is_active_user lower_char is_blocked blocks may_disarm disarms
    get_locks_for_location add_locks add_cameras protect_device_ids unlock_locks group_lock_ids
    group_granted access handle_locks handle_lock conclude
tap_granted = refl

tap-IsPermitted : IsPermitted house tap anna (family ∷ []) (back ∷ front ∷ [])
unfolding alarm_state get_alarm_state known_states known_state combine agree AlarmState-discrete
    is_active_user lower_char is_blocked blocks may_disarm disarms get_locks_for_location add_locks
    add_cameras protect_device_ids
tap-IsPermitted = record {
  known = refl;
  active = refl;
  no_lockdown = refl;
  member = refl;
  not_blocked = refl;
  found = refl;
}

process_event-decides_example :
    (true
      ≡ any
          (opens (accesses_of house tap anna (family ∷ []) (1 ∷ [])) tap.attempts)
          (back ∷ front ∷ []))
    × (true ≡ true
        → "front" ∷ []
          ≡ map
              (λ l. l.name)
              (keep
                (opens (accesses_of house tap anna (family ∷ []) (1 ∷ [])) tap.attempts)
                (back ∷ front ∷ [])))
unfolding group_lock_ids
process_event-decides_example =
    process_event-decides house tap anna (family ∷ []) (back ∷ front ∷ []) (1 ∷ []) answer
      tap-IsPermitted refl tap_granted

command-IsPermitted_example : Permission house tap
unfolding process_event alarm_state get_alarm_state known_states known_state combine agree
    AlarmState-discrete is_active_user lower_char is_blocked blocks may_disarm disarms
    get_locks_for_location add_locks add_cameras protect_device_ids unlock_locks group_lock_ids
    group_granted access handle_locks handle_lock conclude
command-IsPermitted_example = command-IsPermitted house tap (λ e. cc)

abbrev all_open : Lock → Access
all_open lock = authorized

abbrev interrupted : Lock → Attempt
interrupted lock = at_barrier false cancelled

handle_locks-commands_example :
    commands (effects_of (handle_locks all_open interrupted (back ∷ front ∷ []) start_loop))
    ≡ 2 ∷ []
handle_locks-commands_example =
    handle_locks-commands all_open interrupted (back ∷ front ∷ []) start_loop

get_locks_for_location-IsResolved_example :
    IsVisible (back ∷ front ∷ []) × HasDistinctIds (back ∷ front ∷ [])
unfolding get_locks_for_location add_locks add_cameras protect_device_ids
get_locks_for_location-IsResolved_example =
    get_locks_for_location-IsResolved house (value []) "gate" (cellar ∷ back ∷ [])
      (back ∷ front ∷ []) refl (refl, (refl, tt)) refl

seen-get_locks_for_location_example : seen 1 (back ∷ front ∷ []) ≡ (
    shows_in 1 (house.get_locks_for_location "gate")
    || shows_in 1 (house.get_locks_by_entry_device "access_reader" "gate")
    || any
        (λ d. shows_in 1 (house.get_locks_by_entry_device "protect_doorbell" d))
        (protect_device_ids "gate" (value [])))
unfolding get_locks_for_location add_locks add_cameras protect_device_ids
seen-get_locks_for_location_example =
    seen-get_locks_for_location house (value []) "gate" 1 (back ∷ front ∷ []) refl

abbrev cold : Cache
cold = record { value = none; expires = 0 }

abbrev all_quiet : Panels
all_quiet = read (some "disarmed" ∷ some "disarmed" ∷ [])

disarmed-AllDisarmed_example : AllDisarmed all_quiet
unfolding get_alarm_state known_states known_state combine
disarmed-AllDisarmed_example =
    disarmed-AllDisarmed cold 5 true all_quiet (record { not_disarmed = λ e. cc }) refl

combine-OnlyArmed_example :
    OnlyArmed armed_home (disarmed ∷ armed_home ∷ armed_home ∷ [])
    × Some (λ t. t ≡ armed_home) (disarmed ∷ armed_home ∷ armed_home ∷ [])
unfolding combine agree AlarmState-discrete
combine-OnlyArmed_example =
    combine-OnlyArmed armed_home (disarmed ∷ armed_home ∷ armed_home ∷ []) (λ e. cc) (λ e. cc) refl

failure-unknown_example :
    get_alarm_state cold 5 true (read (some "unavailable" ∷ [])) ≡ (unknown, cold)
unfolding known_states known_state
failure-unknown_example =
    failure-unknown cold 5 true (read (some "unavailable" ∷ [])) (omega arith) (inr refl)

-- an enable that waits for an unlock which was let out before it
locked_down :
    Reach (restarted (some zero) zero) (record {
      lockdown = true;
      stored = one;
      transition = enforcing false;
      barrier = Barrier.free;
    })
unfolding load_persisted_lockdown
locked_down =
    next
      (next
        (next (next (next here (unlock_begin refl refl refl)) (enable_publish refl refl))
          (enable_written refl refl))
        (unlock_end refl refl))
      (enable_drained false refl refl refl)

load_one : (restarted (some one) one).lockdown ≡ true
unfolding load_persisted_lockdown
load_one = refl

-- the enable returns, and the process starts again
no_unlock_in_lockdown_example : (true ≡ true) × (◌≢◌ {A = Barrier} Barrier.free unlocking)
no_unlock_in_lockdown_example =
    no_unlock_in_lockdown (some zero) zero _ (restarted (some one) one) false locked_down refl (
      then_on (then_on (still refl) (enable_returned false refl refl) refl)
        (restart (some one) (inr refl) refl) load_one)

durable_in_force_example :
    (◌≡◌ {A = Stored} one one → true ≡ true)
    × (enforcing false ≡ enforcing false → ◌≡◌ {A = Stored} one one)
durable_in_force_example = durable_in_force (some zero) zero _ (inr refl) locked_down
