-- ===== src/Schedule/Parsing.antt =====
-- What the schedule columns mean: the time format, the day lists, and the schedules refused.
use hassio_access_control.Prelude.{
  ℕ, ◌+◌, ◌*◌, ◌/◌, ◌%◌, ◌<◌, ◌≡◌, ◌≢◌, ap, ◌⊎◌, true, false, none, some, [], ◌∷◌, ◌++◌, arith,
}
use hassio_access_control.Text.{Text, or_empty, nonempty, split, strip, c_strip, int, pos, signed}
use hassio_access_control.Schedule.{Now, Schedule, parse_time, time, check_schedule}

-- a number below 100 in two digits
abbrev pub two_digits : ℕ → Text
two_digits n = (n / 10 + b'0') ∷ (n % 10 + b'0') ∷ []

-- `f"{h:02d}:{m:02d}"`
abbrev pub format_time : ℕ → ℕ → Text
format_time h m = two_digits h ++ b':' ∷ two_digits m

split-format_time :
    (a b c d : ℕ)
    → a < 10
    → b < 10
    → c < 10
    → d < 10
    → split b':' ((a + b'0') ∷ (b + b'0') ∷ b':' ∷ (c + b'0') ∷ (d + b'0') ∷ [])
      ≡ ((a + b'0') ∷ (b + b'0') ∷ []) ∷ ((c + b'0') ∷ (d + b'0') ∷ []) ∷ []
unfolding split
split-format_time a b c d ha hb hc hd = ground arith

c_strip-two_digits :
    (a b : ℕ)
    → a < 10
    → b < 10
    → c_strip ((a + b'0') ∷ (b + b'0') ∷ []) ≡ (a + b'0') ∷ (b + b'0') ∷ []
unfolding c_strip
c_strip-two_digits a b ha hb = ground arith

signed-two_digits :
    (a b : ℕ) → a < 10 → b < 10 → signed ((a + b'0') ∷ (b + b'0') ∷ []) ≡ some (pos (a * 10 + b))
unfolding signed
signed-two_digits a b ha hb = ground arith

int-two_digits : (n : ℕ) → n < 100 → int (two_digits n) ≡ some (pos n)
unfolding int
int-two_digits n h =
    let hi : n / 10 < 10 = omega arith in
    let lo : n % 10 < 10 = omega arith in
    rw (c_strip-two_digits _ _ hi lo, signed-two_digits _ _ hi lo)
      (ap (λ (k : ℕ). some (pos k)) (omega arith))

-- Every time of day, written as HH:MM, parses to its minute of the day.
pub parse_time-format_time :
    (h m : ℕ) → h < 24 → m < 60 → parse_time (format_time h m) ≡ some (h * 60 + m)
unfolding parse_time time
parse_time-format_time h m hh hm =
    rw
      (split-format_time (h / 10) (h % 10) (m / 10) (m % 10) (omega arith) (omega arith)
        (omega arith) (omega arith))
      (ground (arith, int-two_digits h (omega arith), int-two_digits m (omega arith)))

-- An enabled schedule fails closed: it grants at no time when exactly one bound is given, when the
-- bounds do not parse, or when it has neither a bound nor a day.
pub check_schedule_fails_closed :
    (now : Now) (rule : Schedule)
    → let start = or_empty rule.schedule_start in
      let end = or_empty rule.schedule_end in
      let days = or_empty rule.schedule_days in
      ((nonempty start ≢ nonempty end)
        ⊎ ((nonempty start ≡ true) × ((parse_time start ≡ none) ⊎ (parse_time end ≡ none)))
        ⊎ ((nonempty start ≡ false) × (nonempty end ≡ false) × (nonempty (strip days) ≡ false)))
      → check_schedule now rule ≡ false
unfolding check_schedule
check_schedule_fails_closed now rule h = ground arith
