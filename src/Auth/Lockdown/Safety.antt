-- ===== src/Auth/Lockdown/Safety.antt =====
-- What a lockdown guarantees, over all interleavings of unlocks, transitions, cancellations and
-- restarts.
use hassio_access_control.Prelude.{Bool, true, false, Option, none, some, ◌≡◌, ◌≢◌, ◌⊎◌, arith}
use hassio_access_control.Auth.Lockdown.{
  Stored, one, Transition, publishing, draining, enforcing, disabling, unlocking, by_transition,
  Engine, load_persisted_lockdown, restarted, Step, unlock_begin, unlock_end, enable_publish,
  enable_written, enable_not_written, enable_drained, enable_returned, disable_acquired,
  disable_written, disable_not_written, enable_cancelled, drain_cancelled, disable_cancelled,
  restart, Reach, here, next, StaysOn, still, then_on,
}

-- an enable has published its flag and may still wait for a command that was let out before
abbrev pub waits : Transition → Bool
waits publishing = true
waits (draining failing) = true
waits _ = false

pub record IsSafe (s : Engine) : Type 0 where
  -- while an enable runs its callback the flag is up, and no command is on the way
  pub enforced :
      (failing : Bool)
      → s.transition ≡ enforcing failing
      → (s.lockdown ≡ true) × (s.barrier ≢ unlocking)
  pub raised : waits s.transition ≡ true → s.lockdown ≡ true
  -- a disable holds the barrier
  pub held : s.transition ≡ disabling → s.barrier ≡ by_transition

Step-IsSafe : {s t : Engine} → Step s t → IsSafe s → IsSafe t
Step-IsSafe (unlock_begin b l e) v = ground (arith, v.enforced)
Step-IsSafe (unlock_end b e) v = ground (arith, v.enforced)
Step-IsSafe (enable_publish i e) v = ground (arith, v.enforced)
Step-IsSafe (enable_written p e) v = ground (arith, v.enforced)
Step-IsSafe (enable_not_written p e) v = ground (arith, v.enforced)
Step-IsSafe (enable_drained failing d b e) v = ground (arith, v.enforced failing)
Step-IsSafe (enable_returned failing f e) v = ground (arith, v.enforced failing)
Step-IsSafe (enable_cancelled stored p w e) v = ground (arith, v.enforced)
Step-IsSafe (drain_cancelled failing d e) v = ground (arith, v.enforced)
Step-IsSafe (disable_cancelled stored d w e) v = ground (arith, v.enforced)
Step-IsSafe (disable_acquired i b e) v = ground (arith, v.enforced)
Step-IsSafe (disable_written d e) v = ground (arith, v.enforced)
Step-IsSafe (disable_not_written d e) v = ground (arith, v.enforced)
Step-IsSafe (restart value r e) v = ground (arith, v.enforced)

start-IsSafe : (value : Option Stored) (stored : Stored) → IsSafe (restarted value stored)
start-IsSafe value stored = record {
  enforced = λ failing e. ground arith;
  raised = λ w. ground arith;
  held = λ d. ground arith;
}

Reach-IsSafe : {s t : Engine} → IsSafe s → Reach s t → IsSafe t
Reach-IsSafe v here = v
Reach-IsSafe v (next r st) = Step-IsSafe st (Reach-IsSafe v r)

-- with the flag up, no step lets a command out
Step-quiet :
    {s t : Engine} → Step s t → s.lockdown ≡ true → s.barrier ≢ unlocking → t.barrier ≢ unlocking
Step-quiet (unlock_begin b l e) on q = ground (arith, on, l)
Step-quiet (unlock_end b e) on q = ground (arith, e)
Step-quiet (enable_publish i e) on q = ground (arith, e, q)
Step-quiet (enable_written p e) on q = ground (arith, e, q)
Step-quiet (enable_not_written p e) on q = ground (arith, e, q)
Step-quiet (enable_drained failing d b e) on q = ground (arith, e, q)
Step-quiet (enable_returned failing f e) on q = ground (arith, e, q)
Step-quiet (enable_cancelled stored p w e) on q = ground (arith, e, q)
Step-quiet (drain_cancelled failing d e) on q = ground (arith, e, q)
Step-quiet (disable_cancelled stored d w e) on q = ground (arith, e, q)
Step-quiet (disable_acquired i b e) on q = ground (arith, e, q)
Step-quiet (disable_written d e) on q = ground (arith, e, q)
Step-quiet (disable_not_written d e) on q = ground (arith, e, q)
Step-quiet (restart value r e) on q = ground (arith, e, q)

StaysOn-quiet :
    {s t : Engine}
    → s.barrier ≢ unlocking
    → StaysOn s t
    → (t.lockdown ≡ true) × (t.barrier ≢ unlocking)
StaysOn-quiet q (still on) = (on, q)
StaysOn-quiet q (then_on r st on) =
    let before = StaysOn-quiet q r in (on, Step-quiet st before.0 before.1)

-- Whatever unlocks, transitions, cancellations and restarts happen after a start, in any
-- interleaving: once an enable has drained the barrier and runs its callback, the lockdown is on
-- and no unlock command is on the way, and none is at any later time as long as the lockdown stays
-- on, further transitions, cancellations and restarts included.
pub no_unlock_in_lockdown :
    (value : Option Stored) (stored : Stored) (s t : Engine) (failing : Bool)
    → Reach (restarted value stored) s
    → s.transition ≡ enforcing failing
    → StaysOn s t
    → (s.lockdown ≡ true) × (t.barrier ≢ unlocking)
no_unlock_in_lockdown value stored s t failing r e on =
    let drained = (Reach-IsSafe (start-IsSafe value stored) r).enforced failing e in
    (drained.0, (StaysOn-quiet drained.1 on).1)

-- a start that read what is stored, or could not read it
abbrev pub IsStart : Option Stored → Stored → Type 0
IsStart value stored = (value ≡ none) ⊎ (value ≡ some stored)

pub record IsDurable (s : Engine) : Type 0 where
  pub in_force : s.stored ≡ one → s.lockdown ≡ true
  pub drains : s.transition ≡ draining false → s.stored ≡ one
  pub enforces : s.transition ≡ enforcing false → s.stored ≡ one
  pub up : waits s.transition ≡ true → s.lockdown ≡ true

Step-IsDurable : {s t : Engine} → Step s t → IsDurable s → IsDurable t
Step-IsDurable (unlock_begin b l e) v = ground arith
Step-IsDurable (unlock_end b e) v = ground arith
Step-IsDurable (enable_publish i e) v = ground arith
Step-IsDurable (enable_written p e) v = ground arith
Step-IsDurable (enable_not_written p e) v = ground arith
Step-IsDurable (enable_drained failing d b e) v = ground arith
Step-IsDurable (enable_returned failing f e) v = ground arith
Step-IsDurable (enable_cancelled stored p w e) v = ground arith
Step-IsDurable (drain_cancelled failing d e) v = ground arith
Step-IsDurable (disable_cancelled stored d w e) v = ground arith
Step-IsDurable (disable_acquired i b e) v = ground arith
Step-IsDurable (disable_written d e) v = ground arith
Step-IsDurable (disable_not_written d e) v = ground arith
Step-IsDurable (restart value r e) v = unfold load_persisted_lockdown in ground arith

start-IsDurable :
    (value : Option Stored) (stored : Stored)
    → IsStart value stored
    → IsDurable (restarted value stored)
unfolding load_persisted_lockdown
start-IsDurable value stored h = ground arith

Reach-IsDurable : {s t : Engine} → IsDurable s → Reach s t → IsDurable t
Reach-IsDurable v here = v
Reach-IsDurable v (next r st) = Step-IsDurable st (Reach-IsDurable v r)

-- In every interleaving a durable lockdown is in force, restarts, cancellations and failing reads and writes
-- included; and when an enable has drained the barrier and reports no error of its write, the
-- lockdown is durable.
pub durable_in_force :
    (value : Option Stored) (stored : Stored) (t : Engine)
    → IsStart value stored
    → Reach (restarted value stored) t
    → (t.stored ≡ one → t.lockdown ≡ true) × (t.transition ≡ enforcing false → t.stored ≡ one)
durable_in_force value stored t h r =
    let v = Reach-IsDurable (start-IsDurable value stored h) r in (v.in_force, v.enforces)
