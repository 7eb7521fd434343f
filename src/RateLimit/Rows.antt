-- ===== src/RateLimit/Rows.antt =====
-- The table of rate limits: what a write of one key does to each key.
use hassio_access_control.Prelude.{
  ℕ, ◌≡◌, refl, Bool, true, false, not, ◌&&◌, length, keep, leb, ◌==◌, Bool-cases, inl, inr, Option,
  none, some, [], ◌∷◌, arith, if◌then◌else◌, eq_iff, eq_refl,
}
use hassio_access_control.RateLimit.{
  Key, same_key, Limit, Table, find, delete, upsert, attempts_of, lockout_of, is_locked, recent,
  Policy, is_rate_limited, record_rate_limit_failure, clear_rate_limit, consume_rate_limit,
}

pub same_key_refl : (k : Key) → same_key k k ≡ true
same_key_refl k = ground (arith, eq_refl k.scope, eq_refl k.subject)

-- A deletion removes the key's row and no other.
pub find-delete :
    (e k : Key) (rows : Table)
    → find e (delete k rows) ≡ (if same_key k e then none else find e rows)
unfolding find delete
find-delete e k [] = ground arith
find-delete e k ((j, row) ∷ rows) = ground (
  arith,
  eq_iff j.scope k.scope,
  eq_iff j.subject k.subject,
  eq_iff j.scope e.scope,
  eq_iff j.subject e.subject,
  eq_iff k.scope e.scope,
  eq_iff k.subject e.subject,
  find-delete e k rows,
)

-- A write sets the key's row and no other.
pub find-upsert :
    (e k : Key) (row : Limit) (rows : Table)
    → find e (upsert k row rows) ≡ (if same_key k e then some row else find e rows)
unfolding find upsert
find-upsert e k row rows = ground (arith, find-delete e k rows)

-- the row has a lockout that has passed
abbrev pub has_expired : Option Limit → ℕ → Bool
has_expired row now = not (lockout_of row == 0) && leb (lockout_of row) now

-- A check removes the row of its key exactly when its lockout has passed, and changes no other.
pub find-is_rate_limited :
    (e k : Key) (now : ℕ) (rows : Table)
    → find e (is_rate_limited k now rows).1
      ≡ (if same_key k e && has_expired (find k rows) now then none else find e rows)
unfolding is_rate_limited
find-is_rate_limited e k now rows = ground (arith, find-delete e k rows)

-- The operations on one key leave the rows of the others.
pub find-other :
    (p : Policy) (e k : Key) (now : ℕ) (rows : Table)
    → same_key k e ≡ false
    → (find e (is_rate_limited k now rows).1 ≡ find e rows)
      × (find e (record_rate_limit_failure p k now rows).1 ≡ find e rows)
      × (find e (clear_rate_limit k rows) ≡ find e rows)
      × (find e (consume_rate_limit p k now rows).1 ≡ find e rows)
unfolding record_rate_limit_failure clear_rate_limit consume_rate_limit
find-other p e k now rows h = (
  ground (arith, find-is_rate_limited e k now rows),
  elim (Bool-cases (is_locked (find k rows) now)) [
    | inl l ↦ rw l refl
    | inr u ↦ rw (u, find-upsert e k _ rows, h) refl
  ],
  ground (arith, find-delete e k rows),
  elim (Bool-cases (is_locked (find k rows) now)) [
    | inl l ↦ rw l refl
    | inr u ↦
        rw u
          (elim (Bool-cases (
            leb p.max_attempts (length (keep (recent p.window now) (attempts_of (find k rows)))))) [
              | inl f ↦ rw (f, find-upsert e k _ rows, h) refl
              | inr f ↦ rw (f, find-upsert e k _ rows, h) refl
            ])
  ],
)

pub same_key-eq : (a b : Key) → same_key a b ≡ true → a ≡ b
same_key-eq a b h =
    let scope : a.scope ≡ b.scope = ground (arith, eq_iff a.scope b.scope) in
    let subject : a.subject ≡ b.subject = ground (arith, eq_iff a.subject b.subject) in
    λ i. record { scope = scope i; subject = subject i }
