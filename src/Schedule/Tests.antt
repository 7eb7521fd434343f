-- ===== src/Schedule/Tests.antt =====
-- Schedules on concrete rules and times, and the theorems of the modules above at them.
use hassio_access_control.Prelude.{◌≡◌, refl, true, false, none, some, inl, arith, ◌∷◌}
use hassio_access_control.Text.{codes, int, pos, strip, c_strip, signed, isdigit, split, lower_char}
use hassio_access_control.Schedule.{
  Now, Schedule, between, parse_time, time, time_bounds, day_in, allowed_days, day_name,
  check_schedule,
}
use hassio_access_control.Schedule.Window.{IsCovered, check_schedule-IsCovered}
use hassio_access_control.Schedule.Parsing.{parse_time-format_time, check_schedule_fails_closed}

-- Monday to Friday, 22:00 to 06:00
abbrev night : Schedule
night = record {
  schedule_enabled = true;
  schedule_days = some (codes "Mon, tue,2,thu,fri");
  schedule_start = some (codes "22:00");
  schedule_end = some (codes "06:00");
}

abbrev saturday_early : Now
saturday_early = record { weekday = 5; minute = 60 }

abbrev monday_early : Now
monday_early = record { weekday = 0; minute = 60 }

night_bounds : time_bounds (codes "22:00") (codes "06:00") ≡ between 1320 360
unfolding time_bounds parse_time time int strip c_strip signed split
night_bounds = refl

saturday_early_granted : check_schedule saturday_early night ≡ true
unfolding check_schedule parse_time time int strip c_strip signed split day_in allowed_days day_name
    lower_char isdigit
saturday_early_granted = refl

monday_early_denied : check_schedule monday_early night ≡ false
unfolding check_schedule parse_time time int strip c_strip signed split day_in allowed_days day_name
    lower_char isdigit
monday_early_denied = refl

check_schedule-IsCovered_example : IsCovered (codes "Mon, tue,2,thu,fri") 1320 360 saturday_early
unfolding parse_time time int strip c_strip signed split
check_schedule-IsCovered_example =
    (check_schedule-IsCovered saturday_early night 1320 360 (omega arith) refl refl).0
      saturday_early_granted

parse_time-format_time_example : parse_time (codes "07:30") ≡ some 450
parse_time-format_time_example = parse_time-format_time 7 30 (omega arith) (omega arith)

abbrev one_bound : Schedule
one_bound = record night { schedule_end = none }

check_schedule_fails_closed_example : check_schedule monday_early one_bound ≡ false
check_schedule_fails_closed_example =
    check_schedule_fails_closed monday_early one_bound (inl (λ e. cc))

lenient_int : int (codes " +1_0 ") ≡ some (pos 10)
unfolding int strip c_strip signed
lenient_int = refl

-- `int` keeps a separator that `strip` takes away
strict_int : int (28 ∷ codes "10") ≡ none
unfolding int c_strip signed
strict_int = refl
