-- ===== src/RateLimit/Prune.antt =====
-- The rows of `rate_limits` that `prune_runtime_state` of database.py deletes. The cache of pages
-- that it also clears has no part here. `now - stale_after` is written without the subtraction.
use hassio_access_control.Prelude.{
  ℕ, ◌+◌, ◌≤◌, ◌≡◌, ◌∙◌, sym, subst, ◌⊎◌, refl, Bool, true, false, not, ◌&&◌, ◌||◌, Option, none,
  some, List, [], ◌∷◌, any, keep, arith, leb, ◌==◌, if◌then◌else◌, All, Bool-cases, inl, inr,
}
use hassio_access_control.RateLimit.{Key, same_key, Limit, Table, find, attempts_of, recent, Policy}
use hassio_access_control.RateLimit.Rows.{same_key-eq}
use hassio_access_control.RateLimit.Agreement.{HasSameEffect, Agrees, HasSameEffect-Agrees}

abbrev pub last_or : ℕ → List ℕ → ℕ
last_or default [] = default
last_or default (t ∷ ts) = last_or t ts

-- `COALESCE(…'$[#-1]'…, 0)`
abbrev pub newest : List ℕ → ℕ
newest ts = last_or 0 ts

abbrev pub is_empty : List ℕ → Bool
is_empty [] = true
is_empty (t ∷ ts) = false

-- the clause `prune_where`
abbrev pub is_prunable : ℕ → ℕ → Limit → Bool
is_prunable stale_after now row =
    leb row.lockout_until now
    && (not (row.lockout_until == 0) && is_empty row.attempts
        || leb (newest row.attempts + stale_after) now)

-- the deletion, which a query for one such row precedes
unfoldable pub prune_rate_limits : ℕ → ℕ → Table → Table
prune_rate_limits stale_after now rows =
    if any (λ r. is_prunable stale_after now r.1) rows
    then keep (λ r. not (is_prunable stale_after now r.1)) rows
    else rows

-- the primary key
unfoldable pub HasDistinctKeys : Table → Type 0
HasDistinctKeys [] = Unit
HasDistinctKeys ((j, row) ∷ rows) = (find j rows ≡ none) × HasDistinctKeys rows

-- the last attempt is the newest one
abbrev pub IsNewestLast : List ℕ → Type 0
IsNewestLast ts = All (λ t. t ≤ newest ts) ts

abbrev pub is_dropped : (Limit → Bool) → Option Limit → Bool
is_dropped test none = false
is_dropped test (some row) = not (test row)

pub find-keep :
    (k : Key) (test : Limit → Bool) (rows : Table)
    → HasDistinctKeys rows
    → (find k (keep (λ r. test r.1) rows) ≡ find k rows)
      ⊎ ((find k (keep (λ r. test r.1) rows) ≡ none) × (is_dropped test (find k rows) ≡ true))
unfolding find HasDistinctKeys
find-keep k test [] d = inl refl
find-keep k test ((j, row) ∷ rows) d = elim (Bool-cases (same_key j k)) [
  | inl s ↦ elim (Bool-cases (test row)) [
    | inl t ↦ rw (t, s) (inl refl)
    | inr t ↦
        rw (t, s)
          (inr (
            elim (find-keep k test rows d.1) [
              | inl e ↦ e ∙ subst (λ x. find x rows ≡ none) (same_key-eq j k s) d.0
              | inr e ↦ e.0
            ],
            ground (arith, t),
          ))
  ]
  | inr s ↦ elim (Bool-cases (test row)) [
    | inl t ↦ rw (t, s) (find-keep k test rows d.1)
    | inr t ↦ rw (t, s) (find-keep k test rows d.1)
  ]
]

keep_old :
    (window later n : ℕ) (ts : List ℕ)
    → All (λ t. t ≤ n) ts
    → n + window ≤ later
    → keep (recent window later) ts ≡ []
keep_old window later n [] h le = refl
keep_old window later n (t ∷ ts) h le = ground (arith, h.0, le, keep_old window later n ts h.1 le)

keep_prunable :
    (window stale_after now later lockout_until : ℕ) (ts : List ℕ)
    → IsNewestLast ts
    → window ≤ stale_after
    → now ≤ later
    → not (lockout_until == 0) && is_empty ts || leb (newest ts + stale_after) now ≡ true
    → keep (recent window later) ts ≡ []
keep_prunable window stale_after now later lockout_until [] o w le h = refl
keep_prunable window stale_after now later lockout_until (t ∷ ts) o w le h =
    keep_old window later (newest (t ∷ ts)) (t ∷ ts) o (ground (arith, h, w, le))

is_prunable-HasSameEffect :
    (window stale_after now later : ℕ) (row : Option Limit)
    → IsNewestLast (attempts_of row)
    → window ≤ stale_after
    → now ≤ later
    → is_dropped (λ r. not (is_prunable stale_after now r)) row ≡ true
    → HasSameEffect window later none row
unfolding HasSameEffect
is_prunable-HasSameEffect window stale_after now later none o w le h = inl refl
is_prunable-HasSameEffect window stale_after now later (some row) o w le h = inr (
  refl,
  ground (arith, h, le),
  refl,
  keep_prunable window stale_after now later row.lockout_until row.attempts o w le
      (ground (arith, h)),
)

pub find-prune_rate_limits :
    (window stale_after now later : ℕ) (k : Key) (rows : Table)
    → HasDistinctKeys rows
    → IsNewestLast (attempts_of (find k rows))
    → window ≤ stale_after
    → now ≤ later
    → HasSameEffect window later (find k (prune_rate_limits stale_after now rows)) (find k rows)
unfolding prune_rate_limits HasSameEffect
find-prune_rate_limits window stale_after now later k rows d o w le =
    by_query (any (λ r. is_prunable stale_after now r.1) rows)
  where
    live : Limit → Bool
    live row = not (is_prunable stale_after now row)

    by_query :
        (b : Bool)
        → HasSameEffect window later
            (find k (if b then keep (λ r. live r.1) rows else rows))
            (find k rows)
    by_query true = elim (find-keep k live rows d) [
      | inl e ↦ inl e
      | inr (gone, h) ↦
          subst (λ x. HasSameEffect window later x (find k rows)) (sym gone)
            (is_prunable-HasSameEffect window stale_after now later (find k rows) o w le h)
    ]
    by_query false = inl refl

-- When no two rows share a key and the last attempt in the row of a key is its newest one, a pruning
-- is unobservable to the key under every policy whose window is at most `stale_after`: at each time
-- from the pruning on, `is_rate_limited`, `record_rate_limit_failure` and `consume_rate_limit`
-- answer on the pruned table as on the table before, and the latter two leave the same row.
pub prune_rate_limits-Agrees :
    (p : Policy) (stale_after now later : ℕ) (k : Key) (rows : Table)
    → HasDistinctKeys rows
    → IsNewestLast (attempts_of (find k rows))
    → p.window ≤ stale_after
    → now ≤ later
    → Agrees p k later (prune_rate_limits stale_after now rows) rows
prune_rate_limits-Agrees p stale_after now later k rows d o w le =
    HasSameEffect-Agrees p k later (prune_rate_limits stale_after now rows) rows
      (find-prune_rate_limits p.window stale_after now later k rows d o w le)
