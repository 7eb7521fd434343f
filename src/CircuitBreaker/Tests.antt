-- ===== src/CircuitBreaker/Tests.antt =====
-- The breaker on concrete calls, and the theorems of the modules above at them.
use hassio_access_control.Prelude.{◌≡◌, refl, true, false, [], ◌∷◌, arith}
use hassio_access_control.CircuitBreaker.{
  CircuitBreaker, check, failure, abort, success, closed, tripped, half_open, new, is_open,
  abort_probe, step, run,
}
use hassio_access_control.CircuitBreaker.Invariant.{IsValid, checks, run-IsValid, one_probe}
use hassio_access_control.CircuitBreaker.Recovery.{
  failures_at, trips_exactly, late_failures, abort_releases,
}

-- three failures at 10, 11 and 12, with a window of 60
abbrev down : CircuitBreaker
down = record {
  threshold = 3;
  recovery_timeout = 60;
  state = tripped;
  failures = 3;
  opened_at = 12;
  probe_in_flight = false;
}

run-failures_down : run (new 3 60) (failures_at (10 ∷ 11 ∷ 12 ∷ [])) ≡ down
unfolding run step new
run-failures_down = refl

run-IsValid_example : IsValid (run (new 3 60) (failure 1 ∷ check 2 ∷ success ∷ abort 3 ∷ []))
run-IsValid_example = run-IsValid 3 60 (failure 1 ∷ check 2 ∷ success ∷ abort 3 ∷ []) (omega arith)

one_probe_example : (is_open (run (is_open down 72).0 (checks (73 ∷ 500 ∷ []))) 501).1 ≡ true
unfolding is_open
one_probe_example = one_probe down 72 501 (73 ∷ 500 ∷ []) (ground arith) refl refl

trips_exactly_example : (run (new 3 60) (failures_at (10 ∷ 11 ∷ []))).state ≡ closed
unfolding new
trips_exactly_example = trips_exactly (new 3 60) (10 ∷ 11 ∷ []) refl refl (omega arith)

late_failures_example : (is_open (run down (failures_at (70 ∷ []))) 72).1 ≡ false
late_failures_example = late_failures down (70 ∷ []) 72 refl

abbrev probing : CircuitBreaker
probing = record down { state = half_open; probe_in_flight = true }

abort_releases_example : (is_open (abort_probe probing 80) 139).1 ≡ true
abort_releases_example = abort_releases probing 80 139 (ground arith) refl
