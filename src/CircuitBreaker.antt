-- ===== src/CircuitBreaker.antt =====
-- access_control/rootfs/opt/access_control/circuit_breaker.py: the breaker of the HTTP clients.
-- A method takes the reading of `time.monotonic()` that it makes and returns the new object; the
-- name, which is only logged, is left out. `OPEN` is spelled `tripped`, since `open` is reserved.
pub mod Invariant
pub mod Recovery
mod Tests
use hassio_access_control.Prelude.{
  ℕ, ◌+◌, Bool, true, false, ◌&&◌, List, [], ◌∷◌, leb, if◌then◌else◌,
}

pub data State : Type 0 where
  closed tripped half_open : State

pub record CircuitBreaker : Type 0 where
  pub threshold : ℕ
  pub recovery_timeout : ℕ
  pub state : State
  pub failures : ℕ
  pub opened_at : ℕ
  pub probe_in_flight : Bool

-- `__init__`
unfoldable pub new : ℕ → ℕ → CircuitBreaker
new failure_threshold recovery_timeout = record {
  threshold = failure_threshold;
  recovery_timeout = recovery_timeout;
  state = closed;
  failures = 0;
  opened_at = 0;
  probe_in_flight = false;
}

-- `time.monotonic() - self._opened_at >= self._recovery_timeout`, without the subtraction
abbrev pub window_elapsed : CircuitBreaker → ℕ → Bool
window_elapsed b now = leb (b.opened_at + b.recovery_timeout) now

is_open_at : State → CircuitBreaker → ℕ → CircuitBreaker × Bool
is_open_at closed b now = (b, false)
is_open_at half_open b now = (b, b.probe_in_flight)
is_open_at tripped b now =
    if window_elapsed b now
    then (record b { state = half_open; probe_in_flight = true }, false)
    else (b, true)

-- `true`: the call is blocked
unfoldable pub is_open : CircuitBreaker → ℕ → CircuitBreaker × Bool
unfolding is_open_at
is_open b now = is_open_at b.state b now

unfoldable pub record_success : CircuitBreaker → CircuitBreaker
record_success b = record b { state = closed; failures = 0; probe_in_flight = false }

record_failure_at : State → CircuitBreaker → ℕ → CircuitBreaker
record_failure_at closed b now =
    if leb b.threshold b.failures then record b { opened_at = now; state = tripped } else b
record_failure_at half_open b now = record b {
  opened_at = now;
  state = tripped;
  probe_in_flight = false;
}
record_failure_at tripped b now = b

unfoldable pub record_failure : CircuitBreaker → ℕ → CircuitBreaker
unfolding record_failure_at
record_failure b now =
    let counted = record b { failures = b.failures + 1 } in
    record_failure_at counted.state counted now

abbrev pub is_half_open : State → Bool
is_half_open half_open = true
is_half_open _ = false

unfoldable pub abort_probe : CircuitBreaker → ℕ → CircuitBreaker
abort_probe b now =
    if is_half_open b.state && b.probe_in_flight
    then record b { state = tripped; opened_at = now; probe_in_flight = false }
    else b

-- The calls of any number of clients that share the breaker, in the order in which they are made.
pub data Call : Type 0 where
  check failure abort : ℕ → Call
  success : Call

unfoldable pub step : CircuitBreaker → Call → CircuitBreaker
unfolding is_open record_failure record_success abort_probe
step b (check now) = (is_open b now).0
step b (failure now) = record_failure b now
step b (abort now) = abort_probe b now
step b success = record_success b

unfoldable pub run : CircuitBreaker → List Call → CircuitBreaker
run b [] = b
run b (c ∷ cs) = run (step b c) cs
