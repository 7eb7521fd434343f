-- ===== src/Auth/Alarm.antt =====
-- `_get_alarm_state` of auth_engine.py with its cache, and the alarm gate of `process_event`.
pub mod Safety
use mathlib.Core.Bool.{not}
use hassio_access_control.Prelude.{
  ℕ, ◌+◌, String, Bool, true, false, ◌&&◌, ◌||◌, Option, none, some, List, [], ◌∷◌, any, ltb,
  if◌then◌else◌, str_eq,
}
use hassio_access_control.Schedule.{Now, Schedule, check_schedule}

pub data AlarmState : Type 0 where
  disarmed triggered armed_away armed_home armed_night arming pending unknown : AlarmState

unfoldable pub AlarmState-discrete : Discrete AlarmState
AlarmState-discrete = hlevel

abbrev pub is_disarmed : AlarmState → Bool
is_disarmed disarmed = true
is_disarmed _ = false

abbrev pub same_state : AlarmState → AlarmState → Bool
same_state a b = elim (AlarmState-discrete a b) [ yes p ↦ true | no p ↦ false ]

-- `known_states`; any other text, an exception and a value that is no text are `none`
unfoldable pub known_state : Option String → Option AlarmState
known_state none = none
known_state (some s) =
    if str_eq s "disarmed"
    then some disarmed
    else if str_eq s "triggered"
    then some triggered
    else if str_eq s "armed_away"
    then some armed_away
    else if str_eq s "armed_home"
    then some armed_home
    else if str_eq s "armed_night"
    then some armed_night
    else if str_eq s "arming"
    then some arming
    else if str_eq s "pending"
    then some pending
    else none

-- the cache fields of the engine; times are milliseconds of the event loop's clock
pub record Cache : Type 0 where
  pub value : Option AlarmState
  pub expires : ℕ

abbrev pub alarm_cache_ttl : ℕ
alarm_cache_ttl = 1500

-- what `get_all_alarm_panels` and the panels answer: an exception, or one read for each panel
pub data Panels : Type 0 where
  db_error : Panels
  read : List (Option String) → Panels

-- the states of the panels, unless one of them is not known
unfoldable pub known_states : List (Option String) → Option (List AlarmState)
known_states [] = some []
known_states (r ∷ reads) = elim (known_state r) [
  | none ↦ none
  | some s ↦ elim (known_states reads) [ none ↦ none | some states ↦ some (s ∷ states) ]
]

-- whether every armed state is `s`
unfoldable pub agree : AlarmState → List AlarmState → Bool
agree s [] = true
agree s (t ∷ states) = let rest = agree s states in (is_disarmed t || same_state s t) && rest

-- the set of the armed states: none, one or more
unfoldable pub combine : List AlarmState → AlarmState
unfolding agree
combine [] = disarmed
combine (s ∷ states) =
    let rest = combine states in
    if is_disarmed s then rest else if agree s states then s else unknown

-- the result and whether it may be cached; a failure is not cached
fresh_state : Bool → Panels → AlarmState × Bool
fresh_state has_client db_error = (unknown, false)
fresh_state has_client (read []) = (disarmed, true)
fresh_state has_client (read (r ∷ reads)) =
    if has_client
    then elim (known_states (r ∷ reads)) [
      | none ↦ (unknown, false)
      | some states ↦ (combine states, true)
    ]
    else (unknown, false)

store : Cache → ℕ → AlarmState × Bool → AlarmState × Cache
store cache now (state, false) = (state, cache)
store cache now (state, true) =
    if is_disarmed state
    then (state, record { value = none; expires = 0 })
    else (state, record { value = some state; expires = now + alarm_cache_ttl })

look_up : Option AlarmState → Cache → ℕ → Bool → Panels → AlarmState × Cache
unfolding fresh_state store
look_up none cache now has_client panels = store cache now (fresh_state has_client panels)
look_up (some state) cache now has_client panels =
    if ltb now cache.expires
    then (state, cache)
    else store cache now (fresh_state has_client panels)

unfoldable pub get_alarm_state : Cache → ℕ → Bool → Panels → AlarmState × Cache
unfolding look_up
get_alarm_state cache now has_client panels = look_up cache.value cache now has_client panels

-- `_FULLY_RESTRICTIVE_ALARM_STATES`
abbrev pub fully_restrictive : AlarmState → Bool
fully_restrictive disarmed = false
fully_restrictive armed_away = false
fully_restrictive armed_home = false
fully_restrictive _ = true

-- a row of `groups`
pub record Group : Type 0 where
  pub id : ℕ
  pub schedule : Schedule
  pub blocked_when_armed_away : Bool
  pub blocked_when_armed_home : Bool
  pub can_disarm : Bool
  pub all_locks : Bool

abbrev pub is_armed_away : AlarmState → Bool
is_armed_away armed_away = true
is_armed_away _ = false

abbrev pub is_armed_home : AlarmState → Bool
is_armed_home armed_home = true
is_armed_home _ = false

-- the operand of `any_blocking`
unfoldable pub blocks : AlarmState → Group → Bool
blocks state g =
    is_armed_away state && g.blocked_when_armed_away
    || is_armed_home state && g.blocked_when_armed_home
    || fully_restrictive state && (g.blocked_when_armed_away || g.blocked_when_armed_home)

-- the operand of `can_disarm`
unfoldable pub disarms : AlarmState → Group → Bool
disarms state g =
    g.can_disarm
    && not (is_armed_away state && g.blocked_when_armed_away)
    && not (is_armed_home state && g.blocked_when_armed_home)
    && not (fully_restrictive state && (g.blocked_when_armed_away || g.blocked_when_armed_home))

-- `not g.get("schedule_enabled") or self._check_schedule(g)`; the clock is read for each group
abbrev pub is_active : (ℕ → Now) → Group → Bool
is_active now g = not g.schedule.schedule_enabled || check_schedule (now g.id) g.schedule

-- the value of `can_disarm` after the gate, which stays false for a disarmed panel
unfoldable pub may_disarm : AlarmState → List Group → Bool
may_disarm state active = if is_disarmed state then false else any (disarms state) active

-- whether the gate denies
unfoldable pub is_blocked : AlarmState → List Group → List Group → Bool
is_blocked state groups active =
    if is_disarmed state then false else any (blocks state) groups && not (may_disarm state active)
