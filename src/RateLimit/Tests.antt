-- ===== src/RateLimit/Tests.antt =====
-- Two actions a minute, and the theorems of the modules below at them.
use hassio_access_control.Prelude.{
  ℕ, ◌≤◌, ◌≡◌, refl, true, ◌&&◌, List, [], ◌∷◌, length, keep, arith, ltb,
}
use hassio_access_control.RateLimit.{
  Key, Table, find, delete, upsert, recent, Policy, is_rate_limited, record_rate_limit_failure,
  consume_rate_limit,
}
use hassio_access_control.RateLimit.Window.{
  Call, IsOrdered, check, consume, failure, allowed_times, consume_rate_limit_bounds,
}
use hassio_access_control.RateLimit.Prune.{prune_rate_limits}
use hassio_access_control.RateLimit.Agreement.{Agrees}
use hassio_access_control.RateLimit.History.{Event, called, pruned, table_after, pruning-Agrees}
use hassio_access_control.RateLimit.Lockout.{failures, failure_locks}

abbrev twice : Policy
twice = record { max_attempts = 2; window = 60; lockout = 60 }

abbrev phone : Key
phone = record { scope = "action"; subject = "phone" }

abbrev tablet : Key
tablet = record { scope = "action"; subject = "tablet" }

abbrev presses : List Call
presses =
    consume phone 0
    ∷ consume phone 10
    ∷ consume tablet 15
    ∷ consume phone 20
    ∷ check phone 30
    ∷ consume phone 80
    ∷ []

presses_allowed : allowed_times (λ k. twice) phone presses [] ≡ 0 ∷ 10 ∷ 80 ∷ []
unfolding allowed_times is_rate_limited consume_rate_limit find upsert delete
presses_allowed = refl

presses-IsOrdered : IsOrdered 0 presses 80
presses-IsOrdered = ground arith

consume_rate_limit_bounds_example :
    length (keep (recent 60 80) (allowed_times (λ k. twice) phone presses [])) ≤ 2
consume_rate_limit_bounds_example =
    consume_rate_limit_bounds (λ k. twice) phone 60 (omega arith) (omega arith) presses 0 80
      presses-IsOrdered (tt, (tt, (tt, (tt, (tt, (tt, tt))))))

failure_locks_example :
    let (locked, rows') =
      record_rate_limit_failure twice phone 20 (failures twice phone (5 ∷ []) []) in
    (locked ≡ true)
    × ((later : ℕ) → (is_rate_limited phone later rows').0 ≡ (locked && ltb later 80))
unfolding find
failure_locks_example =
    failure_locks twice phone 20 (5 ∷ []) [] refl ((omega arith, omega arith), tt) (omega arith)
      (omega arith)

-- the phone's attempts are stale, and the tablet is locked out
abbrev events : List Event
events =
    called (consume phone 5)
    ∷ called (consume phone 10)
    ∷ pruned 3600 100
    ∷ called (failure tablet 3950)
    ∷ called (failure tablet 3960)
    ∷ []

abbrev stored : Table
stored = table_after (λ k. twice) events []

what_stays :
    prune_rate_limits 3600 4000 stored
    ≡ (tablet, record { attempts = []; lockout_until = 4020 }) ∷ []
unfolding prune_rate_limits consume_rate_limit record_rate_limit_failure find upsert delete
what_stays = refl

pruning-Agrees_example : Agrees twice phone 4010 (prune_rate_limits 3600 4000 stored) stored
pruning-Agrees_example =
    pruning-Agrees (λ k. twice) events twice 3600 4000 4010 phone
      (ground arith, (ground arith, (ground arith, (ground arith, (ground arith, ground arith)))))
      (ground arith) (ground arith)
