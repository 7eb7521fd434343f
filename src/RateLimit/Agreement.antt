-- ===== src/RateLimit/Agreement.antt =====
-- When two tables of rate limits are the same to a key under a policy: what the operations of
-- database.py read of the key's row.
use hassio_access_control.Prelude.{
  ℕ, ◌+◌, ◌≡◌, ◌∙◌, sym, ap, ◌⊎◌, refl, Bool, true, false, not, Option, some, List, [], ◌∷◌, ◌++◌,
  keep, length, arith, leb, ◌==◌, if◌then◌else◌, Bool-cases, inl, inr,
}
use hassio_access_control.RateLimit.{
  Key, Limit, Table, find, attempts_of, is_locked, recent, Policy, is_rate_limited,
  record_rate_limit_failure, consume_rate_limit,
}
use hassio_access_control.RateLimit.Rows.{same_key_refl, find-upsert}

-- what an operation reads of a row
unfoldable pub HasSameEffect : ℕ → ℕ → Option Limit → Option Limit → Type 0
HasSameEffect window later a b =
    (a ≡ b)
    ⊎ ((is_locked a later ≡ false)
        × (is_locked b later ≡ false)
        × (keep (recent window later) (attempts_of a) ≡ [])
        × (keep (recent window later) (attempts_of b) ≡ []))

-- the answers of the operations on the key, and the row that each leaves
abbrev pub Agrees : Policy → Key → ℕ → Table → Table → Type 0
Agrees p k now a b =
    ((is_rate_limited k now a).0 ≡ (is_rate_limited k now b).0)
    × ((record_rate_limit_failure p k now a).0 ≡ (record_rate_limit_failure p k now b).0)
    × ((consume_rate_limit p k now a).0 ≡ (consume_rate_limit p k now b).0)
    × (find k (record_rate_limit_failure p k now a).1
        ≡ find k (record_rate_limit_failure p k now b).1)
    × (find k (consume_rate_limit p k now a).1 ≡ find k (consume_rate_limit p k now b).1)

-- `record_rate_limit_failure` and `consume_rate_limit` on the row alone
abbrev recorded : Policy → ℕ → Bool → List ℕ → Option Limit → Bool × Option Limit
recorded p now locked old row =
    if locked
    then (true, row)
    else let attempts = old ++ now ∷ [] in
      let lockout_until = if leb p.max_attempts (length attempts) then now + p.lockout else 0 in
      (
        not (lockout_until == 0),
        some (record {
          attempts = if lockout_until == 0 then attempts else [];
          lockout_until = lockout_until;
        }),
      )

abbrev consumed : Policy → ℕ → Bool → List ℕ → Option Limit → Bool × Option Limit
consumed p now locked old row =
    if locked
    then (false, row)
    else if leb p.max_attempts (length old)
    then (false, some (record { attempts = []; lockout_until = now + p.lockout }))
    else (true, some (record { attempts = old ++ now ∷ []; lockout_until = 0 }))

check_row :
    (k : Key) (now : ℕ) (rows : Table)
    → (is_rate_limited k now rows).0 ≡ is_locked (find k rows) now
unfolding is_rate_limited
check_row k now rows = ground arith

record_row :
    (p : Policy) (k : Key) (now : ℕ) (rows : Table)
    → let x = record_rate_limit_failure p k now rows in
      let row = find k rows in
      (x.0, find k x.1)
      ≡ recorded p now (is_locked row now) (keep (recent p.window now) (attempts_of row)) row
unfolding record_rate_limit_failure
record_row p k now rows = elim (Bool-cases (is_locked (find k rows) now)) [
  | inl l ↦ rw l refl
  | inr u ↦ rw (u, find-upsert k k _ rows, same_key_refl k) refl
]

consume_row :
    (p : Policy) (k : Key) (now : ℕ) (rows : Table)
    → let x = consume_rate_limit p k now rows in
      let row = find k rows in
      (x.0, find k x.1)
      ≡ consumed p now (is_locked row now) (keep (recent p.window now) (attempts_of row)) row
unfolding consume_rate_limit
consume_row p k now rows = elim (Bool-cases (is_locked (find k rows) now)) [
  | inl l ↦ rw l refl
  | inr u ↦
      elim (Bool-cases
        (leb p.max_attempts (length (keep (recent p.window now) (attempts_of (find k rows)))))) [
          | inl f ↦ rw (u, f, find-upsert k k _ rows, same_key_refl k) refl
          | inr f ↦ rw (u, f, find-upsert k k _ rows, same_key_refl k) refl
        ]
]

-- an operation that reads the row by these two reads the same
same_effect :
    {A : Type 0} (f : Bool → List ℕ → Option Limit → A) (window now : ℕ) (a b : Option Limit)
    → ((old : List ℕ) → f false old a ≡ f false old b)
    → HasSameEffect window now a b
    → f (is_locked a now) (keep (recent window now) (attempts_of a)) a
      ≡ f (is_locked b now) (keep (recent window now) (attempts_of b)) b
unfolding HasSameEffect
same_effect f window now a b h (inl e) =
    ap (λ x. f (is_locked x now) (keep (recent window now) (attempts_of x)) x) e
same_effect f window now a b h (inr (la, lb, ka, kb)) = rw (la, lb, ka, kb) (h [])

pub HasSameEffect-Agrees :
    (p : Policy) (k : Key) (now : ℕ) (a b : Table)
    → HasSameEffect p.window now (find k a) (find k b)
    → Agrees p k now a b
HasSameEffect-Agrees p k now a b e =
    let checked =
      check_row k now a
      ∙ same_effect (λ locked old row. locked) p.window now (find k a) (find k b) (λ old. refl) e
      ∙ sym (check_row k now b) in
    let rec =
      record_row p k now a
      ∙ same_effect (recorded p now) p.window now (find k a) (find k b) (λ old. refl) e
      ∙ sym (record_row p k now b) in
    let con =
      consume_row p k now a
      ∙ same_effect (consumed p now) p.window now (find k a) (find k b) (λ old. refl) e
      ∙ sym (consume_row p k now b) in
    (checked, ap (λ x. x.0) rec, ap (λ x. x.0) con, ap (λ x. x.1) rec, ap (λ x. x.1) con)
