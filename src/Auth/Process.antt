-- ===== src/Auth/Process.antt =====
-- `AuthEngine.process_event` of auth_engine.py. The database's answers, what the alarm's panels
-- answer, the time and what each unlock met are arguments.
pub mod Soundness
use hassio_access_control.Prelude.{
  ℕ, String, Bool, true, false, not, ◌&&◌, ◌||◌, Option, none, some, List, [], ◌∷◌, ◌++◌, map, any,
  keep, ◌==◌, if◌then◌else◌,
}
use hassio_access_control.Text.{Text, codes, text_eq, or_empty, lower_char}
use hassio_access_control.Schedule.{Now, Schedule, check_schedule}
use hassio_access_control.Auth.Alarm.{
  AlarmState, Cache, Panels, get_alarm_state, Group, is_active, may_disarm, is_blocked,
}
use hassio_access_control.Auth.Database.{
  Answer, value, raised, User, Lock, LockType, access_native, ha_external, other, Rule, Database,
}
use hassio_access_control.Auth.Locks.{get_locks_for_location}
use hassio_access_control.Auth.Round.{
  Reason, AccessResult, Effect, Outcome, Attempt, Decision, Reply, deny, Loop, Access, access,
  Progress, has_client_for, handle_lock, handle_locks, conclude, access_granted, db_failed,
  unknown_user, not_active, lockdown_active, no_locks_found, no_matching_rules, alarm_is,
  cancelled_unlock, unlock_error, lockdown_won, granted, denied, error, accepted_unconfirmed, log,
  unlock, fire_ha_event, auto_disarm, confirmed, cancelled, ha_not_confirmed, access_not_confirmed,
  not_known, failed, not_sent, not_prepared, cancelled_before, at_barrier, decided, propagated,
  authorized, refused, rule_error, go_on, stop,
}

-- the ids of the locks of the active groups, or an exception
unfoldable pub group_lock_ids : Database → List Group → Answer (List ℕ)
group_lock_ids db [] = value []
group_lock_ids db (g ∷ groups) = elim (db.get_group_locks g.id) [
  | raised ↦ raised
  | value ids ↦ elim (group_lock_ids db groups) [
    | raised ↦ raised
    | value more ↦ value (ids ++ more)
  ]
]

abbrev pub start_loop : Loop
start_loop = record {
  effects = [];
  granted_locks = [];
  any_granted = false;
  last_denied_reason = no_matching_rules;
}

-- `group_granted` of step 5a
unfoldable pub group_granted : Bool → List ℕ → Lock → Bool
group_granted group_all_locks ids lock = group_all_locks || any (λ id. id == lock.id) ids

pub record Event : Type 0 where
  pub ulp_id : String
  pub location_id : String
  -- the readings of the clock at the checks of the schedules, by the id of the group or of the lock
  pub group_now : ℕ → Now
  pub rule_now : ℕ → Now
  pub lockdown : Bool
  -- what `_get_alarm_state` finds: its cache, the loop's clock, whether there is a client, the panels
  pub cache : Cache
  pub loop_time : ℕ
  pub has_client : Bool
  pub panels : Panels
  pub cameras : Answer (List (String × String))
  pub attempts : Lock → Attempt

-- `alarm_state = await self._get_alarm_state()`
unfoldable pub alarm_state : Event → AlarmState
alarm_state ev = (get_alarm_state ev.cache ev.loop_time ev.has_client ev.panels).0

-- steps 5 to 7
unfoldable pub unlock_locks :
    Database → Event → User → List Group → Bool → List Lock → Reply × List Effect
unlock_locks db ev user active can_disarm locks =
    let group_all_locks = any (λ g. g.all_locks) active in
    elim (if group_all_locks then value [] else group_lock_ids db active) [
      | raised ↦ (propagated, [])
      | value ids ↦ conclude can_disarm user.name (
          handle_locks (access db ev.rule_now user.id (group_granted group_all_locks ids))
            ev.attempts locks start_loop)
    ]

abbrev logged : Reason → Reply → Reply × List Effect
logged reason reply = (reply, log denied none reason ∷ [])

-- step 4
find_locks : Database → Event → User → List Group → Bool → Reply × List Effect
find_locks db ev user active can_disarm =
    elim (get_locks_for_location db ev.cameras ev.location_id) [
      | raised ↦ (propagated, [])
      | value [] ↦ logged no_locks_found (deny (some user.name) no_locks_found)
      | value (lock ∷ locks) ↦ unlock_locks db ev user active can_disarm (lock ∷ locks)
    ]

-- step 3.5
gate : Database → Event → User → List Group → Reply × List Effect
unfolding find_locks
gate db ev user groups =
    let active = keep (is_active ev.group_now) groups in
    if is_blocked (alarm_state ev) groups active
    then logged (alarm_is (alarm_state ev)) (deny (some user.name) (alarm_is (alarm_state ev)))
    else find_locks db ev user active (may_disarm (alarm_state ev) active)

-- `(user.get("status") or "").lower() != "active"`
unfoldable pub is_active_user : User → Bool
is_active_user user = text_eq (map lower_char (or_empty user.status)) (codes "active")

-- steps 2 and 3
check_user : Database → Event → User → Reply × List Effect
unfolding gate
check_user db ev user =
    if not (is_active_user user)
    then logged not_active (deny (some user.name) not_active)
    else if ev.lockdown
    then logged lockdown_active (deny (some user.name) lockdown_active)
    else elim (db.get_user_groups user.id) [
      | raised ↦ (propagated, [])
      | value groups ↦ gate db ev user groups
    ]

unfoldable pub process_event : Database → Event → Reply × List Effect
unfolding check_user
process_event db ev = elim (db.get_user_by_ulp_id ev.ulp_id) [
  | raised ↦ (deny none db_failed, log error none db_failed ∷ [])
  | value none ↦ logged unknown_user (deny none unknown_user)
  | value (some user) ↦ check_user db ev user
]
