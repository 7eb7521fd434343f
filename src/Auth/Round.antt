-- ===== src/Auth/Round.antt =====
-- Steps 5 to 7 of `AuthEngine.process_event` in auth_engine.py: the loop over the locks of a
-- location, with the queries of rules and what each unlock meets as arguments. The trace holds what
-- the event did outside.
use hassio_access_control.Prelude.{
  ℕ, String, Bool, true, false, not, ◌&&◌, Option, none, some, List, [], ◌∷◌, ◌++◌, if◌then◌else◌,
}
use hassio_access_control.Schedule.{Now, check_schedule}
use hassio_access_control.Auth.Alarm.{AlarmState}
use hassio_access_control.Auth.Database.{
  Answer, value, raised, Lock, LockType, other, Rule, Database,
}

-- the texts of `reason`, with the lock that they name
pub data Reason : Type 0 where
  access_granted db_failed unknown_user not_active lockdown_active no_locks_found : Reason
  no_matching_rules : Reason
  alarm_is : AlarmState → Reason
  no_rule rule_disabled outside_schedule ha_unconfirmed access_unconfirmed outcome_unknown :
      ℕ → Reason
  cancelled_unlock unlock_error lockdown_won : ℕ → Reason

-- `AccessResult` of models.py, and the engine's fourth text
pub data AccessResult : Type 0 where
  granted denied error accepted_unconfirmed : AccessResult

-- what the outside sees of an event, in order
pub data Effect : Type 0 where
  -- `_log`, with the lock's id where the entry names one
  log : AccessResult → Option ℕ → Reason → Effect
  -- the physical command of a lock went out
  unlock : ℕ → Effect
  fire_ha_event : List String → Effect
  auto_disarm : Effect

-- how a command ended; `not_sent` is an exception after the check of the flag and before the command
pub data Outcome : Type 0 where
  confirmed cancelled ha_not_confirmed access_not_confirmed not_known failed not_sent : Outcome

-- what the unlock of a lock meets: an exception, or a cancellation, before it has the command
-- barrier; or the lockdown flag under the barrier and, if it is down, the command's outcome
pub data Attempt : Type 0 where
  not_prepared cancelled_before : Attempt
  at_barrier : Bool → Outcome → Attempt

pub record Decision : Type 0 where
  pub is_granted : Bool
  pub user_name : Option String
  pub reason : Reason
  pub locks : List String

pub data Reply : Type 0 where
  decided : Decision → Reply
  -- an exception leaves `process_event`
  propagated : Reply

abbrev pub deny : Option String → Reason → Reply
deny name reason =
    decided (record { is_granted = false; user_name = name; reason = reason; locks = [] })

-- the loop's variables
pub record Loop : Type 0 where
  pub effects : List Effect
  pub granted_locks : List String
  pub any_granted : Bool
  pub last_denied_reason : Reason

pub data Access : Type 0 where
  authorized : Access
  refused : Reason → Access
  rule_error : Access

-- steps 5a and 5b, from the answer to the query of the rule
unfoldable pub rule_access : Now → ℕ → Answer (Option Rule) → Access
rule_access now id raised = rule_error
rule_access now id (value none) = refused (no_rule id)
rule_access now id (value (some rule)) =
    if not rule.enabled
    then refused (rule_disabled id)
    else if rule.schedule.schedule_enabled && not (check_schedule now rule.schedule)
    then refused (outside_schedule id)
    else authorized

unfoldable pub access : Database → (ℕ → Now) → ℕ → (Lock → Bool) → Lock → Access
unfolding rule_access
access db now user_id in_group lock =
    if in_group lock
    then authorized
    else rule_access (now lock.id) lock.id (db.get_rules_for_user_and_lock user_id lock.id)

-- log entries and the `continue` of a lock that is not granted
abbrev denied_with : AccessResult → ℕ → Reason → Loop → Loop
denied_with result id reason s = record s {
  effects = s.effects ++ log result (some id) reason ∷ [];
  last_denied_reason = reason;
}

-- a failure is logged, and keeps the reason of before
abbrev failed_with : ℕ → Reason → Loop → Loop
failed_with id reason s = record s { effects = s.effects ++ log error (some id) reason ∷ [] }

abbrev commanded : ℕ → Loop → Loop
commanded id s = record s { effects = s.effects ++ unlock id ∷ [] }

abbrev grant : Lock → Loop → Loop
grant lock s = record s {
  effects = s.effects ++ log granted (some lock.id) access_granted ∷ [];
  granted_locks = s.granted_locks ++ lock.name ∷ [];
  any_granted = true;
}

-- a loop that goes on, or an exception that leaves it
pub data Progress : Type 0 where
  go_on : Loop → Progress
  stop : List Effect → Progress

-- the handler of a CancelledError, which is raised again
abbrev interrupted : ℕ → Loop → Progress
interrupted id s = stop (s.effects ++ log accepted_unconfirmed (some id) (cancelled_unlock id) ∷ [])

-- the command, and the handlers of step 6
after_command : Lock → Outcome → Loop → Progress
after_command lock confirmed s = go_on (grant lock (commanded lock.id s))
after_command lock cancelled s = interrupted lock.id (commanded lock.id s)
after_command lock ha_not_confirmed s =
    go_on (denied_with accepted_unconfirmed lock.id (ha_unconfirmed lock.id) (commanded lock.id s))
after_command lock access_not_confirmed s =
    go_on
      (denied_with accepted_unconfirmed lock.id (access_unconfirmed lock.id) (commanded lock.id s))
after_command lock not_known s =
    go_on (denied_with accepted_unconfirmed lock.id (outcome_unknown lock.id) (commanded lock.id s))
after_command lock failed s =
    go_on (failed_with lock.id (unlock_error lock.id) (commanded lock.id s))
after_command lock not_sent s = go_on (failed_with lock.id (unlock_error lock.id) s)

abbrev pub has_client_for : LockType → Bool
has_client_for other = false
has_client_for _ = true

-- step 6: an unknown type raises a ValueError in `_unlock`, under the barrier and before a command
try_unlock : Lock → Attempt → Loop → Progress
unfolding after_command
try_unlock lock not_prepared s = go_on (failed_with lock.id (unlock_error lock.id) s)
try_unlock lock cancelled_before s = interrupted lock.id s
try_unlock lock (at_barrier true outcome) s =
    go_on (denied_with denied lock.id (lockdown_won lock.id) s)
try_unlock lock (at_barrier false outcome) s =
    if has_client_for lock.lock_type
    then after_command lock outcome s
    else go_on (failed_with lock.id (unlock_error lock.id) s)

-- one round of the loop
unfoldable pub handle_lock : Access → Lock → Attempt → Loop → Progress
unfolding try_unlock
handle_lock (refused reason) lock attempt s = go_on (denied_with denied lock.id reason s)
handle_lock rule_error lock attempt s = go_on (failed_with lock.id db_failed s)
handle_lock authorized lock attempt s = try_unlock lock attempt s

unfoldable pub handle_locks : (Lock → Access) → (Lock → Attempt) → List Lock → Loop → Progress
handle_locks accesses attempts [] s = go_on s
handle_locks accesses attempts (lock ∷ locks) s =
    elim (handle_lock (accesses lock) lock (attempts lock) s) [
      | go_on s' ↦ handle_locks accesses attempts locks s'
      | stop effects ↦ stop effects
    ]

-- after the loop
unfoldable pub conclude : Bool → String → Progress → Reply × List Effect
conclude can_disarm name (stop effects) = (propagated, effects)
conclude can_disarm name (go_on s) =
    if s.any_granted
    then (
      decided (record {
        is_granted = true;
        user_name = some name;
        reason = access_granted;
        locks = s.granted_locks;
      }),
      (s.effects ++ fire_ha_event s.granted_locks ∷ [])
          ++ (if can_disarm then auto_disarm ∷ [] else []),
    )
    else (deny (some name) s.last_denied_reason, s.effects)
