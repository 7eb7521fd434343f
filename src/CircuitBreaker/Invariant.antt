-- ===== src/CircuitBreaker/Invariant.antt =====
-- The breaker's invariant, and that the half-open state admits one probe.
use hassio_access_control.Prelude.{
  ℕ, ◌≤◌, ◌<◌, ◌≡◌, refl, ◌↔◌, ◌≢◌, true, false, List, [], ◌∷◌, arith,
}
use hassio_access_control.CircuitBreaker.{
  CircuitBreaker, Call, closed, tripped, half_open, check, new, is_open, step, run,
}

pub record IsValid (b : CircuitBreaker) : Type 0 where
  pub probe_half_open : (b.probe_in_flight ≡ true) ↔ (b.state ≡ half_open)
  pub closed_below : b.state ≡ closed → b.failures < b.threshold
  pub tripped_above : b.state ≢ closed → b.threshold ≤ b.failures
  pub positive : 0 < b.threshold

pub new-IsValid : (n t : ℕ) → 0 < n → IsValid (new n t)
unfolding new
new-IsValid n t h = ground arith

pub step-IsValid : (b : CircuitBreaker) (c : Call) → IsValid b → IsValid (step b c)
unfolding step
step-IsValid b c v = ground arith

step_check-IsValid : (b : CircuitBreaker) (now : ℕ) → IsValid b → IsValid (is_open b now).0
unfolding step
step_check-IsValid b now v = step-IsValid b (check now) v

run_from-IsValid : (b : CircuitBreaker) (cs : List Call) → IsValid b → IsValid (run b cs)
unfolding run
run_from-IsValid b [] v = v
run_from-IsValid b (c ∷ cs) v = run_from-IsValid (step b c) cs (step-IsValid b c v)

-- Whatever the calls and their order, a breaker made with a positive threshold is closed exactly
-- while fewer failures than the threshold are counted, and reserves the probe exactly while it is
-- half open.
pub run-IsValid : (n t : ℕ) (cs : List Call) → 0 < n → IsValid (run (new n t) cs)
run-IsValid n t cs h = run_from-IsValid (new n t) cs (new-IsValid n t h)

-- the checks of clients, while no outcome is recorded
abbrev pub checks : List ℕ → List Call
checks [] = []
checks (t ∷ ts) = check t ∷ checks ts

-- Once a valid breaker is half open, a check blocks its caller and changes nothing.
pub is_open-half_open :
    (b : CircuitBreaker) (now : ℕ) → IsValid b → b.state ≡ half_open → is_open b now ≡ (b, true)
unfolding is_open
is_open-half_open b now v h = ground arith

step-check-half_open :
    (b : CircuitBreaker) (now : ℕ) → IsValid b → b.state ≡ half_open → step b (check now) ≡ b
unfolding step
step-check-half_open b now v h = ground (arith, is_open-half_open b now v h)

run-checks-half_open :
    (b : CircuitBreaker) (ts : List ℕ) → IsValid b → b.state ≡ half_open → run b (checks ts) ≡ b
unfolding run
run-checks-half_open b [] v h = refl
run-checks-half_open b (t ∷ ts) v h =
    rw (run, step-check-half_open b t v h) (run-checks-half_open b ts v h)

-- A valid tripped breaker that admits a caller has become half open.
pub admitted-half_open :
    (b : CircuitBreaker) (now : ℕ)
    → b.state ≡ tripped
    → (is_open b now).1 ≡ false
    → (is_open b now).0.state ≡ half_open
unfolding is_open
admitted-half_open b now tr admitted = ground arith

-- A valid tripped breaker that admits a caller admits no other until an outcome is recorded:
-- after any further checks, at any times, the next one is blocked.
pub one_probe :
    (b : CircuitBreaker) (now later : ℕ) (ts : List ℕ)
    → IsValid b
    → b.state ≡ tripped
    → (is_open b now).1 ≡ false
    → (is_open (run (is_open b now).0 (checks ts)) later).1 ≡ true
one_probe b now later ts v tr admitted =
    let b' = (is_open b now).0 in
    let v' : IsValid b' = step_check-IsValid b now v in
    let h : b'.state ≡ half_open = admitted-half_open b now tr admitted in
    rw (run-checks-half_open b' ts v' h, is_open-half_open b' later v' h)
