-- ===== src/Schedule.antt =====
-- `AuthEngine._check_schedule` of access_control/rootfs/opt/access_control/auth_engine.py.
-- `datetime.now(tz)` is an argument: the weekday from Monday, 0, and the minute of the day, which
-- is what `now.time().replace(second=0, microsecond=0)` keeps. A `time` is its minute of the day.
pub mod Window
pub mod Parsing
mod Tests
use mathlib.Core.Bool.{xor}
use hassio_access_control.Prelude.{
  ℕ, zero, suc, ◌+◌, ◌*◌, ◌%◌, Bool, true, false, not, ◌&&◌, ◌||◌, Option, none, some, List, [],
  ◌∷◌, map, any, keep, ltb, leb, if◌then◌else◌,
}
use hassio_access_control.Text.{
  Text, codes, text_eq, or_empty, nonempty, split, strip, lower_char, isdigit, ℤ, pos, negsuc, int,
}

pub record Now : Type 0 where
  pub weekday : ℕ
  pub minute : ℕ

-- the schedule columns of an access rule or of a group
pub record Schedule : Type 0 where
  pub schedule_enabled : Bool
  pub schedule_days : Option Text
  pub schedule_start : Option Text
  pub schedule_end : Option Text

-- `DAY_NAMES[i]`
unfoldable pub day_name : ℕ → Text
day_name zero = codes "mon"
day_name (suc zero) = codes "tue"
day_name (suc (suc zero)) = codes "wed"
day_name (suc (suc (suc zero))) = codes "thu"
day_name (suc (suc (suc (suc zero)))) = codes "fri"
day_name (suc (suc (suc (suc (suc zero))))) = codes "sat"
day_name (suc (suc (suc (suc (suc (suc i)))))) = codes "sun"

-- `time(hour, minute)`; `none` is its ValueError
unfoldable pub time : ℤ → ℤ → Option ℕ
time (pos h) (pos m) = if ltb h 24 && ltb m 60 then some (h * 60 + m) else none
time _ _ = none

pair : Option ℤ → Option ℤ → Option ℕ
unfolding time
pair (some h) (some m) = time h m
pair _ _ = none

unpack : List Text → Option ℕ
unfolding pair
unpack (h ∷ m ∷ []) = pair (int h) (int m)
unpack _ = none

-- `h, m = (int(x) for x in text.split(":"))` and `time(h, m)`
unfoldable pub parse_time : Text → Option ℕ
unfolding unpack
parse_time t = unpack (split b':' t)

pub data Bounds : Type 0 where
  invalid unbounded : Bounds
  between : ℕ → ℕ → Bounds

both : Option ℕ → Option ℕ → Bounds
both (some s) (some e) = between s e
both _ _ = invalid

-- the first part: what the two bounds say
unfoldable pub time_bounds : Text → Text → Bounds
unfolding both xor
time_bounds start_str end_str =
    if xor (nonempty start_str) (nonempty end_str)
    then invalid
    else if nonempty start_str
    then both (parse_time start_str) (parse_time end_str)
    else unbounded

name_of_index : Option ℤ → Text → Text
name_of_index (some (pos i)) d = if ltb i 7 then day_name i else d
name_of_index _ d = d

-- `DAY_NAMES[int(d)] if d.isdigit() and int(d) < 7 else d`
unfoldable pub named_day : Text → Text
unfolding name_of_index
named_day d = if isdigit d then name_of_index (int d) d else d

-- the set `allowed_days`, as a list
unfoldable pub allowed_days : Text → List Text
unfolding named_day
allowed_days raw_days =
    let days =
      map (λ d. map lower_char (strip d)) (keep (λ d. nonempty (strip d)) (split b',' raw_days)) in
    if any isdigit days then map named_day days else days

-- a blank `schedule_days` restricts no day
unfoldable pub day_in : Text → ℕ → Bool
day_in raw_days d =
    not (nonempty (strip raw_days)) || any (text_eq (day_name d)) (allowed_days raw_days)

-- in the after-midnight part of an overnight window the day is the day before
abbrev pub day_of : Bounds → Now → ℕ
day_of (between s e) now =
    if ltb e s && leb now.minute e then (now.weekday + 6) % 7 else now.weekday
day_of _ now = now.weekday

abbrev pub in_hours : Bounds → Now → Bool
in_hours invalid now = false
in_hours unbounded now = true
in_hours (between s e) now =
    if leb s e then leb s now.minute && leb now.minute e else leb s now.minute || leb now.minute e

is_between : Bounds → Bool
is_between (between s e) = true
is_between _ = false

check_at : Bounds → Text → Now → Bool
unfolding is_between
check_at invalid raw_days now = false
check_at bounds raw_days now =
    if not (nonempty (strip raw_days)) && not (is_between bounds)
    then false
    else if not (day_in raw_days (day_of bounds now))
    then false
    else in_hours bounds now

unfoldable pub check_schedule : Now → Schedule → Bool
unfolding check_at time_bounds
check_schedule now rule =
    check_at (time_bounds (or_empty rule.schedule_start) (or_empty rule.schedule_end))
      (or_empty rule.schedule_days) now
