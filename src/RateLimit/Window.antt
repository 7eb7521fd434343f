-- ===== src/RateLimit/Window.antt =====
-- How many actions `consume_rate_limit` allows in a period, over any sequence of calls.
use hassio_access_control.Prelude.{
  ℕ, ◌≤◌, ◌≡◌, refl, sym, Bool, false, ◌&&◌, inl, inr, List, [], ◌∷◌, ◌++◌, length, keep, All,
  arith, if◌then◌else◌, Bool-cases,
}
use hassio_access_control.RateLimit.{
  Key, same_key, Table, find, recent, Policy, is_rate_limited, record_rate_limit_failure,
  clear_rate_limit, consume_rate_limit,
}
use hassio_access_control.RateLimit.Rows.{same_key_refl, find-other, same_key-eq}
use hassio_access_control.RateLimit.Bound.{
  append-nil, append_assoc, IsBounded, later-IsBounded, consume-IsBounded, check-IsBounded,
}

-- a call, with its key and the time at which it is made
pub data Call : Type 0 where
  check consume failure clear : Key → ℕ → Call

abbrev pub time_of : Call → ℕ
time_of (check k now) = now
time_of (consume k now) = now
time_of (failure k now) = now
time_of (clear k now) = now

-- the answer and the table after a call; the policies are those of the callers
abbrev pub perform : (Key → Policy) → Call → Table → Bool × Table
perform policies (check k now) rows = is_rate_limited k now rows
perform policies (consume k now) rows = consume_rate_limit (policies k) k now rows
perform policies (failure k now) rows = record_rate_limit_failure (policies k) k now rows
perform policies (clear k now) rows = (false, clear_rate_limit k rows)

-- the time of an action of `k` that is allowed
abbrev pub admitted : Key → Call → Bool → List ℕ
admitted k (consume j now) allowed = if same_key j k && allowed then now ∷ [] else []
admitted k _ allowed = []

-- the times at which the calls allow an action of `k`
unfoldable pub allowed_times : (Key → Policy) → Key → List Call → Table → List ℕ
allowed_times policies k [] rows = []
allowed_times policies k (c ∷ calls) rows =
    let (allowed, rows') = perform policies c rows in
    admitted k c allowed ++ allowed_times policies k calls rows'

-- the clock does not run backwards between the calls, nor up to `now`
abbrev pub IsOrdered : ℕ → List Call → ℕ → Type 0
IsOrdered last [] now = last ≤ now
IsOrdered last (c ∷ calls) now = (last ≤ time_of c) × IsOrdered (time_of c) calls now

-- `k` is limited by actions alone: no failure is recorded for it, and it is not cleared
abbrev pub IsSpared : Key → Call → Type 0
IsSpared k (failure j now) = same_key j k ≡ false
IsSpared k (clear j now) = same_key j k ≡ false
IsSpared k _ = Unit

module _ (policies : Key → Policy) (k : Key) (q : ℕ) (hw : q ≤ (policies k).window)
    (hl : q ≤ (policies k).lockout) where
  step-IsBounded :
      (c : Call) (rows : Table) (granted : List ℕ) (last : ℕ)
      → last ≤ time_of c
      → IsSpared k c
      → IsBounded (policies k) q (find k rows) granted last
      → let (allowed, rows') = perform policies c rows in
        IsBounded (policies k) q (find k rows') (granted ++ admitted k c allowed) (time_of c)
  step-IsBounded (check j now) rows granted last h spared b = elim (Bool-cases (same_key j k)) [
    | inl e ↦
        rw (same_key-eq j k e, append-nil granted)
          (check-IsBounded (policies k) q hw hl k rows granted last now h b)
    | inr e ↦
        rw ((find-other (policies j) k j now rows e).0, append-nil granted)
          (later-IsBounded (policies k) q hw hl (find k rows) granted last now h b)
  ]
  step-IsBounded (consume j now) rows granted last h spared b = elim (Bool-cases (same_key j k)) [
    | inl e ↦
        rw (same_key-eq j k e, same_key_refl k)
          (consume-IsBounded (policies k) q hw hl k rows granted last now h b)
    | inr e ↦
        rw (e, (find-other (policies j) k j now rows e).3, append-nil granted)
          (later-IsBounded (policies k) q hw hl (find k rows) granted last now h b)
  ]
  step-IsBounded (failure j now) rows granted last h spared b =
      rw ((find-other (policies j) k j now rows spared).1, append-nil granted)
        (later-IsBounded (policies k) q hw hl (find k rows) granted last now h b)
  step-IsBounded (clear j now) rows granted last h spared b =
      rw ((find-other (policies j) k j now rows spared).2, append-nil granted)
        (later-IsBounded (policies k) q hw hl (find k rows) granted last now h b)

  run-bounded :
      (calls : List Call) (rows : Table) (granted : List ℕ) (last now : ℕ)
      → IsOrdered last calls now
      → All (IsSpared k) calls
      → IsBounded (policies k) q (find k rows) granted last
      → length (keep (recent q now) (granted ++ allowed_times policies k calls rows))
        ≤ (policies k).max_attempts
  unfolding allowed_times
  run-bounded [] rows granted last now ordered spared b =
      rw (append-nil granted) (b.bounded now ordered)
  run-bounded (c ∷ calls) rows granted last now ordered spared b =
      let (allowed, rows') = perform policies c rows in
      let step = step-IsBounded c rows granted last ordered.0 spared.0 b in
      let rest =
        run-bounded calls rows' (granted ++ admitted k c allowed) (time_of c) now ordered.1 spared.1
          step in
      rw (sym (append_assoc granted (admitted k c allowed) (allowed_times policies k calls rows')))
        rest

  -- Whatever calls are made on an empty table with a clock that does not run backwards, if no
  -- failure is recorded for a key and it is never cleared: in no period that is as long as neither
  -- its window nor its lockout exceeds are more than `max_attempts` of its actions allowed.
  pub consume_rate_limit_bounds :
      (calls : List Call) (start now : ℕ)
      → IsOrdered start calls now
      → All (IsSpared k) calls
      → length (keep (recent q now) (allowed_times policies k calls [])) ≤ (policies k).max_attempts
  unfolding find
  consume_rate_limit_bounds calls start now ordered spared =
      run-bounded calls [] [] start now ordered spared (record {
        exact = λ n hn hr. refl;
        bounded = λ n hn. omega arith;
        past = tt;
        cleared = inl refl;
      })
