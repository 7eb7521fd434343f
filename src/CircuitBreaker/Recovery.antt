-- ===== src/CircuitBreaker/Recovery.antt =====
-- When the breaker trips and when it lets a call through again.
use hassio_access_control.Prelude.{
  ℕ, suc, ◌+◌, ◌≤◌, ◌<◌, ◌≡◌, refl, false, List, [], ◌∷◌, arith, ltb, if◌then◌else◌,
}
use hassio_access_control.CircuitBreaker.{
  CircuitBreaker, Call, closed, tripped, half_open, failure, is_open, record_success, abort_probe,
  step, run,
}
use hassio_access_control.CircuitBreaker.Invariant.{IsValid}

-- failures at the given times
abbrev pub failures_at : List ℕ → List Call
failures_at [] = []
failures_at (t ∷ ts) = failure t ∷ failures_at ts

abbrev pub length_at : List ℕ → ℕ
length_at [] = 0
length_at (t ∷ ts) = suc (length_at ts)

-- `b` after `k` of its failures in a row, before the one that trips it
record IsCounting (b : CircuitBreaker) (n k : ℕ) : Type 0 where
  threshold : b.threshold ≡ n
  counted : b.failures ≡ k
  shut : b.state ≡ closed

step-failure-IsCounting :
    (b : CircuitBreaker) (n k t : ℕ)
    → IsCounting b n k
    → suc k < n
    → IsCounting (step b (failure t)) n (suc k)
unfolding step
step-failure-IsCounting b n k t c h = ground arith

step-failure-trips :
    (b : CircuitBreaker) (n k t : ℕ)
    → IsCounting b n k
    → n ≤ suc k
    → ((step b (failure t)).state ≡ tripped) × ((step b (failure t)).opened_at ≡ t)
unfolding step
step-failure-trips b n k t c h = ground arith

step-failure-tripped :
    (b : CircuitBreaker) (t : ℕ)
    → b.state ≡ tripped
    → step b (failure t) ≡ record b { failures = b.failures + 1 }
unfolding step
step-failure-tripped b t h = ground arith

-- what a tripped breaker keeps under late failures
record KeepsWindow (b c : CircuitBreaker) : Type 0 where
  state : c.state ≡ tripped
  opened_at : c.opened_at ≡ b.opened_at
  recovery_timeout : c.recovery_timeout ≡ b.recovery_timeout

run-failures-tripped :
    (b : CircuitBreaker) (ts : List ℕ) → b.state ≡ tripped → KeepsWindow b (run b (failures_at ts))
unfolding run
run-failures-tripped b [] h = record { state = h; opened_at = refl; recovery_timeout = refl }
run-failures-tripped b (t ∷ ts) h =
    let r = run-failures-tripped (record b { failures = b.failures + 1 }) ts h in
    rw (run, step-failure-tripped b t h)
      (record { state = r.state; opened_at = r.opened_at; recovery_timeout = r.recovery_timeout })

run-failures-IsCounting :
    (b : CircuitBreaker) (n k : ℕ) (ts : List ℕ)
    → IsCounting b n k
    → k < n
    → (run b (failures_at ts)).state ≡ (if ltb (k + length_at ts) n then closed else tripped)
unfolding run
run-failures-IsCounting b n k [] c h = ground arith
run-failures-IsCounting b n k (t ∷ ts) c h = ground (
  arith,
  step-failure-IsCounting b n k t c,
  step-failure-trips b n k t c,
  run-failures-tripped (step b (failure t)) ts,
  run-failures-IsCounting (step b (failure t)) n (suc k) ts,
)

-- Consecutive failures trip a closed breaker whose counter is 0 (as `__init__` and
-- `record_success` leave it) exactly when there are as many as the threshold, whatever their times.
pub trips_exactly :
    (b : CircuitBreaker) (ts : List ℕ)
    → b.state ≡ closed
    → b.failures ≡ 0
    → 0 < b.threshold
    → (run b (failures_at ts)).state ≡ (if ltb (length_at ts) b.threshold then closed else tripped)
trips_exactly b ts c f p =
    ground (arith, run-failures-IsCounting b b.threshold 0 ts (ground arith) p)

-- Late failures do not extend the outage: after any failures, a tripped breaker blocks a check
-- exactly before the window that began when it tripped has passed.
pub late_failures :
    (b : CircuitBreaker) (ts : List ℕ) (now : ℕ)
    → b.state ≡ tripped
    → (is_open (run b (failures_at ts)) now).1 ≡ ltb now (b.opened_at + b.recovery_timeout)
unfolding is_open
late_failures b ts now h = ground (arith, run-failures-tripped b ts h)

-- An abandoned probe is not lost: after `abort_probe` of a half-open breaker that holds its probe,
-- a check is admitted as soon as the recovery window has passed, and not before.
pub abort_releases :
    (b : CircuitBreaker) (at_time now : ℕ)
    → IsValid b
    → b.state ≡ half_open
    → (is_open (abort_probe b at_time) now).1 ≡ ltb now (at_time + b.recovery_timeout)
unfolding is_open abort_probe
abort_releases b at_time now v h = ground arith

-- A probe that succeeds closes the breaker with its counter at 0, and every check is admitted.
pub success_closes :
    (b : CircuitBreaker) (now : ℕ) → is_open (record_success b) now ≡ (record_success b, false)
unfolding is_open record_success
success_closes b now = refl
