-- ===== src/RateLimit.antt =====
-- The rate limits of database.py: `is_rate_limited`, `record_rate_limit_failure`,
-- `clear_rate_limit` and `consume_rate_limit` on the table `rate_limits`. Each holds
-- `_rate_limit_lock` from end to end and writes at most one statement, so each is one function on
-- the table; one that raises is rolled back and leaves the table. `now` is the argument or
-- `time.time()`, and the list of attempts is stored as JSON, which keeps it.
pub mod Rows
pub mod Bound
pub mod Window
pub mod Lockout
pub mod Agreement
pub mod Prune
pub mod Tidy
pub mod History
mod Tests
use hassio_access_control.Prelude.{
  ℕ, ◌+◌, String, Bool, true, false, not, ◌&&◌, Option, none, some, List, [], ◌∷◌, ◌++◌, length,
  keep, ltb, leb, ◌==◌, if◌then◌else◌, str_eq,
}

-- the primary key
pub record Key : Type 0 where
  pub scope : String
  pub subject : String

abbrev pub same_key : Key → Key → Bool
same_key a b = str_eq a.scope b.scope && str_eq a.subject b.subject

pub record Limit : Type 0 where
  pub attempts : List ℕ
  pub lockout_until : ℕ

abbrev pub Table : Type 0
Table = List (Key × Limit)

-- `SELECT … WHERE scope = ? AND subject = ?`
unfoldable pub find : Key → Table → Option Limit
find k [] = none
find k ((j, row) ∷ rows) = let rest = find k rows in if same_key j k then some row else rest

-- `DELETE … WHERE scope = ? AND subject = ?`
unfoldable pub delete : Key → Table → Table
delete k [] = []
delete k ((j, row) ∷ rows) =
    let rest = delete k rows in if same_key j k then rest else (j, row) ∷ rest

-- `INSERT … ON CONFLICT DO UPDATE`
unfoldable pub upsert : Key → Limit → Table → Table
unfolding delete
upsert k row rows = (k, row) ∷ delete k rows

abbrev pub attempts_of : Option Limit → List ℕ
attempts_of none = []
attempts_of (some row) = row.attempts

abbrev pub lockout_of : Option Limit → ℕ
lockout_of none = 0
lockout_of (some row) = row.lockout_until

-- `lockout_until and now < lockout_until`
abbrev pub is_locked : Option Limit → ℕ → Bool
is_locked row now = not (lockout_of row == 0) && ltb now (lockout_of row)

-- `t > now - window`, without the subtraction
abbrev pub recent : ℕ → ℕ → ℕ → Bool
recent window now t = ltb now (t + window)

-- the keyword arguments of a caller
pub record Policy : Type 0 where
  pub max_attempts : ℕ
  pub window : ℕ
  pub lockout : ℕ

limited_row : Option Limit → Key → ℕ → Table → Bool × Table
limited_row none k now rows = (false, rows)
limited_row (some row) k now rows =
    if ltb now row.lockout_until
    then (true, rows)
    else if not (row.lockout_until == 0)
    then (false, delete k rows)
    else (false, rows)

unfoldable pub is_rate_limited : Key → ℕ → Table → Bool × Table
unfolding limited_row
is_rate_limited k now rows = limited_row (find k rows) k now rows

-- `true`: the subject is locked now
unfoldable pub record_rate_limit_failure : Policy → Key → ℕ → Table → Bool × Table
record_rate_limit_failure p k now rows =
    let row = find k rows in
    if is_locked row now
    then (true, rows)
    else let attempts = keep (recent p.window now) (attempts_of row) ++ now ∷ [] in
      let lockout_until = if leb p.max_attempts (length attempts) then now + p.lockout else 0 in
      (
        not (lockout_until == 0),
        upsert k
            (record {
              attempts = if lockout_until == 0 then attempts else [];
              lockout_until = lockout_until;
            })
            rows,
      )

unfoldable pub clear_rate_limit : Key → Table → Table
clear_rate_limit k rows = elim (find k rows) [ none ↦ rows | some row ↦ delete k rows ]

-- `true`: the action is allowed
unfoldable pub consume_rate_limit : Policy → Key → ℕ → Table → Bool × Table
consume_rate_limit p k now rows =
    let row = find k rows in
    if is_locked row now
    then (false, rows)
    else let attempts = keep (recent p.window now) (attempts_of row) in
      if leb p.max_attempts (length attempts)
      then (false, upsert k (record { attempts = []; lockout_until = now + p.lockout }) rows)
      else (true, upsert k (record { attempts = attempts ++ now ∷ []; lockout_until = 0 }) rows)
