-- ===== src/Auth/Tables/Tests.antt =====
-- A house in tables, where the query of the rules fails.
use hassio_access_control.Prelude.{◌≡◌, refl, inl, inr, true, false, none, some, List, [], ◌∷◌, All}
use hassio_access_control.Text.{codes, lower_char}
use hassio_access_control.Auth.Alarm.{
  AlarmState-discrete, read, get_alarm_state, known_state, known_states, combine, agree, is_blocked,
  blocks, may_disarm, disarms,
}
use hassio_access_control.Auth.Database.{value, raised, access_native, ha_external, Database}
use hassio_access_control.Auth.Locks.{
  get_locks_for_location, add_locks, add_cameras, protect_device_ids,
}
use hassio_access_control.Auth.Round.{
  at_barrier, confirmed, access, handle_lock, handle_locks, conclude,
}
use hassio_access_control.Auth.Process.{
  Event, alarm_state, process_event, is_active_user, unlock_locks, group_lock_ids, group_granted,
}
use hassio_access_control.Auth.Process.Soundness.{commands}
use hassio_access_control.Auth.Tables.{LockEntry, GroupRow, Tables, Serves}
use hassio_access_control.Auth.Tables as Rows
use hassio_access_control.Auth.Tables.Authority.{IsAuthorized}
use hassio_access_control.Auth.Tables.Authority.Commands.{process_event-IsAuthorized}

abbrev home : Tables
home = record {
  users =
      record {
        ulp_id = "anna";
        user = record { id = 7; name = "Anna"; status = some (codes "ACTIVE") };
      }
      ∷ [];
  locks =
      record {
        lock = record { id = 2; name = "back"; lock_type = access_native; hidden = false };
        location_id = some "gate";
        access_location_id = none;
        upstream_present = true;
      }
      ∷ record {
        lock = record { id = 1; name = "front"; lock_type = ha_external; hidden = false };
        location_id = none;
        access_location_id = none;
        upstream_present = true;
      }
      ∷ [];
  access_rules = [];
  groups =
      record {
        name = "family";
        group = record {
          id = 1;
          schedule = record {
            schedule_enabled = false;
            schedule_days = none;
            schedule_start = none;
            schedule_end = none;
          };
          blocked_when_armed_away = false;
          blocked_when_armed_home = false;
          can_disarm = true;
          all_locks = false;
        };
      }
      ∷ [];
  group_members = record { group_id = 1; user_id = 7 } ∷ [];
  group_locks = record { group_id = 1; lock_id = 1 } ∷ [];
  entry_devices =
      record { lock_id = 1; device_type = "access_reader"; device_id = some "gate" } ∷ [];
}

-- the rows of `home` stand in the order of their names
abbrev in_order : {A : Type 0} → List A → List A
in_order xs = xs

abbrev failing : Database
failing = record {
  get_user_by_ulp_id = λ ulp_id. value (Rows.get_user_by_ulp_id home ulp_id);
  get_user_groups = λ id. value (Rows.get_user_groups home in_order id);
  get_group_locks = λ id. value (Rows.get_group_locks home in_order id);
  get_locks_for_location = λ id. value (Rows.get_locks_for_location home id);
  get_locks_by_entry_device = λ kind id. value (Rows.get_locks_by_entry_device home kind id);
  get_rules_for_user_and_lock = λ user_id lock_id. raised;
}

failing-Serves : Serves in_order in_order home failing
failing-Serves = record {
  users = λ ulp_id. inr refl;
  groups = λ id. inr refl;
  group_locks = λ id. inr refl;
  locks = λ id. inr refl;
  devices = λ kind id. inr refl;
  rules = λ user_id lock_id. inl refl;
}

abbrev tap : Event
tap = record {
  ulp_id = "anna";
  location_id = "gate";
  group_now = λ i. record { weekday = 0; minute = 0 };
  rule_now = λ i. record { weekday = 0; minute = 0 };
  lockdown = false;
  cache = record { value = none; expires = 0 };
  loop_time = 5;
  has_client = true;
  panels = read [];
  cameras = value [];
  attempts = λ lock. at_barrier false confirmed;
}

-- the front door's reader stands at the gate, and the back door is not Anna's
commanded : commands (process_event failing tap).1 ≡ 1 ∷ []
unfolding process_event alarm_state get_alarm_state known_states known_state combine agree
    AlarmState-discrete is_active_user lower_char is_blocked blocks may_disarm disarms
    get_locks_for_location add_locks add_cameras protect_device_ids unlock_locks group_lock_ids
    group_granted access handle_locks handle_lock conclude Rows.get_user_by_ulp_id
    Rows.get_user_groups Rows.get_group_locks Rows.get_locks_for_location
    Rows.get_locks_by_entry_device Rows.join_devices
commanded = refl

process_event-IsAuthorized_example :
    All (IsAuthorized home tap) (commands (process_event failing tap).1)
process_event-IsAuthorized_example =
    process_event-IsAuthorized in_order in_order home failing failing-Serves (λ P xs h. h)
      (λ P xs h. h) tap
