-- ===== src/Schedule/Window.antt =====
-- An enabled schedule with both bounds, against windows on the circle of the minutes of a week.
use hassio_access_control.Prelude.{
  ℕ, ◌+◌, ◌-◌, ◌*◌, ◌%◌, ◌≤◌, ◌<◌, ◌≡◌, ◌↔◌, Bool, true, ◌&&◌, some, [], ◌∷◌, arith, ltb, leb,
  if◌then◌else◌,
}
use hassio_access_control.Text.{Text, or_empty, split}
use hassio_access_control.Schedule.{
  Now, Schedule, between, parse_time, time, time_bounds, day_in, day_of, in_hours, check_at,
  check_schedule,
}

abbrev pub minutes_per_day : ℕ
minutes_per_day = 1440

-- how many minutes after its start a window ends; a window that ends before it starts runs over
-- midnight
abbrev pub span : ℕ → ℕ → ℕ
span s e = if leb s e then e - s else e + minutes_per_day - s

-- the minute of the week
abbrev pub instant : Now → ℕ
instant now = now.weekday * minutes_per_day + now.minute

-- A window that opens on an allowed day is open now: `d` is the day, `k` the minutes since.
abbrev pub IsCovered : Text → ℕ → ℕ → Now → Type 0
IsCovered raw_days s e now =
    (d : ℕ) × (k : ℕ) × (d < 7)
    × (day_in raw_days d ≡ true)
    × (k ≤ span s e)
    × ((d * minutes_per_day + s + k) % (7 * minutes_per_day) ≡ instant now)

pub record IsClock (now : Now) : Type 0 where
  pub weekday : now.weekday < 7
  pub minute : now.minute < minutes_per_day

pub parse_time-lt : (t : Text) (m : ℕ) → parse_time t ≡ some m → m < minutes_per_day
unfolding parse_time time
parse_time-lt t m h = ground arith

pub time_bounds-between :
    (a b : Text) (s e : ℕ)
    → parse_time a ≡ some s
    → parse_time b ≡ some e
    → time_bounds a b ≡ between s e
unfolding time_bounds
time_bounds-between [] b s e h k = unfold parse_time split in cc
time_bounds-between (c ∷ a) [] s e h k = unfold parse_time split in cc
time_bounds-between (c ∷ a) (d ∷ b) s e h k = ground arith

check_at-between :
    (raw_days : Text) (s e : ℕ) (now : Now)
    → check_at (between s e) raw_days now
      ≡ (day_in raw_days (day_of (between s e) now) && in_hours (between s e) now)
unfolding check_at
check_at-between raw_days s e now = ground arith

and_cases : {a b : Bool} → (a && b) ≡ true → (a ≡ true) × (b ≡ true)
and_cases {a} {b} h = ground arith

and_true : {a b : Bool} → a ≡ true → b ≡ true → (a && b) ≡ true
and_true {a} {b} h k = ground arith

-- the minutes since the window that is open began
abbrev since : ℕ → ℕ → Now → ℕ
since s e now =
    if ltb e s && leb now.minute e then now.minute + minutes_per_day - s else now.minute - s

module _ (s e : ℕ) (now : Now) (c : IsClock now) (hs : s < minutes_per_day)
    (he : e < minutes_per_day) where
  day_of-lt : day_of (between s e) now < 7
  day_of-lt = ground (arith, c)

  since-le : in_hours (between s e) now ≡ true → since s e now ≤ span s e
  since-le h = ground (arith, c)

  instant-since :
      in_hours (between s e) now ≡ true
      → (day_of (between s e) now * minutes_per_day + s + since s e now) % (7 * minutes_per_day)
        ≡ instant now
  instant-since h = ground (arith, c)

  -- the day of an open window is determined
  open_window :
      (d k : ℕ)
      → d < 7
      → k ≤ span s e
      → (d * minutes_per_day + s + k) % (7 * minutes_per_day) ≡ instant now
      → (d ≡ day_of (between s e) now) × (in_hours (between s e) now ≡ true)
  open_window d k hd hk h = ground (arith, c)

-- A schedule whose two bounds parse grants exactly while a window that opened on an allowed day is
-- open, on the circle of the minutes of a week; a window that ends before it starts runs over
-- midnight, and both bounds are inside.
pub check_schedule-IsCovered :
    (now : Now) (rule : Schedule) (s e : ℕ)
    → IsClock now
    → parse_time (or_empty rule.schedule_start) ≡ some s
    → parse_time (or_empty rule.schedule_end) ≡ some e
    → (check_schedule now rule ≡ true) ↔ IsCovered (or_empty rule.schedule_days) s e now
unfolding check_schedule
check_schedule-IsCovered now rule s e c hs he =
    let ls = parse_time-lt _ s hs in
    let le = parse_time-lt _ e he in
    let raw_days : Text = or_empty rule.schedule_days in
    rw (time_bounds-between _ _ s e hs he, check_at-between raw_days s e now)
      ((
        λ h.
            let (allowed, hours) = and_cases h in
            (
              day_of (between s e) now,
              since s e now,
              day_of-lt s e now c ls le,
              allowed,
              since-le s e now c ls le hours,
              instant-since s e now c ls le hours,
            ),
        λ w.
            let (same, hours) = open_window s e now c ls le w.0 w.1 w.2 w.4 w.5 in
            and_true (rw (← same) w.3) hours,
      ))
