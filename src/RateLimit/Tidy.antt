-- ===== src/RateLimit/Tidy.antt =====
-- Tables of rate limits in which no two rows share a key and the attempts of each are in order up to
-- their last: the operations of database.py and the deletion of stale rows keep them so.
use hassio_access_control.Prelude.{
  ℕ, ◌+◌, ◌≤◌, ◌≡◌, ◌⊎◌, ◌∙◌, refl, sym, subst, Bool, true, false, not, Option, none, some, List,
  [], ◌∷◌, ◌++◌, any, keep, arith, ◌==◌, length, leb, if◌then◌else◌, All, All-imp, All-keep,
  Bool-cases, inl, inr,
}
use hassio_access_control.RateLimit.{
  Key, same_key, Limit, Table, find, delete, upsert, attempts_of, is_locked, recent, Policy,
  is_rate_limited, record_rate_limit_failure, clear_rate_limit, consume_rate_limit,
}
use hassio_access_control.RateLimit.Rows.{same_key_refl, find-delete}
use hassio_access_control.RateLimit.Prune.{
  last_or, IsNewestLast, HasDistinctKeys, is_prunable, prune_rate_limits, find-keep,
}

-- the attempts of a row, at `last` or before
abbrev pub IsLog : ℕ → List ℕ → Type 0
IsLog last ts = IsNewestLast ts × All (λ t. t ≤ last) ts

abbrev pub IsTidy : ℕ → Table → Type 0
IsTidy last rows = HasDistinctKeys rows × All (λ r. IsLog last r.1.attempts) rows

last_or_append : (d now : ℕ) (ts : List ℕ) → last_or d (ts ++ now ∷ []) ≡ now
last_or_append d now [] = refl
last_or_append d now (t ∷ ts) = last_or_append t now ts

All-snoc : (P : ℕ → Type 0) (t : ℕ) (ts : List ℕ) → All P ts → P t → All P (ts ++ t ∷ [])
All-snoc P t [] h p = (p, tt)
All-snoc P t (x ∷ xs) h p = (h.0, All-snoc P t xs h.1 p)

append-IsLog :
    (last now : ℕ) (test : ℕ → Bool) (ts : List ℕ)
    → last ≤ now
    → IsLog last ts
    → IsLog now (keep test ts ++ now ∷ [])
append-IsLog last now test ts le h =
    let bounded : All (λ t. t ≤ now) (keep test ts ++ now ∷ []) =
      All-snoc (λ t. t ≤ now) now (keep test ts)
        (All-imp _ _ (λ t p. ground (arith, p.1, le)) (keep test ts)
          (All-keep (λ t. t ≤ last) test ts h.1))
        (ground arith) in
    (
      subst (λ n. All (λ t. t ≤ n) (keep test ts ++ now ∷ []))
          (sym (last_or_append 0 now (keep test ts))) bounded,
      bounded,
    )

pub find-IsLog :
    (last : ℕ) (k : Key) (rows : Table)
    → All (λ r. IsLog last r.1.attempts) rows
    → IsLog last (attempts_of (find k rows))
unfolding find
find-IsLog last k [] h = (tt, tt)
find-IsLog last k ((j, row) ∷ rows) h = elim (Bool-cases (same_key j k)) [
  | inl s ↦ rw s h.0
  | inr s ↦ rw s (find-IsLog last k rows h.1)
]

delete-IsTidy : (last : ℕ) (k : Key) (rows : Table) → IsTidy last rows → IsTidy last (delete k rows)
unfolding HasDistinctKeys delete
delete-IsTidy last k [] h = h
delete-IsTidy last k ((j, row) ∷ rows) h =
    let rest = delete-IsTidy last k rows (h.0.1, h.1.1) in
    elim (Bool-cases (same_key j k)) [
      | inl s ↦ rw s rest
      | inr s ↦ rw s ((ground (arith, find-delete j k rows, h.0.0), rest.0), (h.1.0, rest.1))
    ]

pub later-IsTidy : (last now : ℕ) (rows : Table) → last ≤ now → IsTidy last rows → IsTidy now rows
later-IsTidy last now rows le h = (
  h.0,
  All-imp _ _ (λ r p. (p.0, All-imp _ _ (λ t q. ground (arith, q, le)) r.1.attempts p.1)) rows h.1,
)

upsert-IsTidy :
    (last : ℕ) (k : Key) (row : Limit) (rows : Table)
    → IsLog last row.attempts
    → IsTidy last rows
    → IsTidy last (upsert k row rows)
unfolding HasDistinctKeys upsert
upsert-IsTidy last k row rows r h =
    let rest = delete-IsTidy last k rows h in
    ((ground (arith, find-delete k k rows, same_key_refl k), rest.0), (r, rest.1))

keep-IsTidy :
    (last : ℕ) (test : Limit → Bool) (rows : Table)
    → IsTidy last rows
    → IsTidy last (keep (λ r. test r.1) rows)
unfolding HasDistinctKeys
keep-IsTidy last test [] h = h
keep-IsTidy last test ((j, row) ∷ rows) h =
    let rest = keep-IsTidy last test rows (h.0.1, h.1.1) in
    elim (Bool-cases (test row)) [
      | inl t ↦ rw t (
        (elim (find-keep j test rows h.0.1) [ inl e ↦ e ∙ h.0.0 | inr e ↦ e.0 ], rest.0),
        (h.1.0, rest.1),
      )
      | inr t ↦ rw t rest
    ]

check_table :
    (k : Key) (now : ℕ) (rows : Table)
    → ((is_rate_limited k now rows).1 ≡ rows) ⊎ ((is_rate_limited k now rows).1 ≡ delete k rows)
unfolding is_rate_limited
check_table k now rows = ground arith

pub check-IsTidy :
    (k : Key) (now : ℕ) (rows : Table) → IsTidy now rows → IsTidy now (is_rate_limited k now rows).1
check-IsTidy k now rows h = elim (check_table k now rows) [
  | inl e ↦ subst (IsTidy now) (sym e) h
  | inr e ↦ subst (IsTidy now) (sym e) (delete-IsTidy now k rows h)
]

pub failure-IsTidy :
    (p : Policy) (k : Key) (last now : ℕ) (rows : Table)
    → last ≤ now
    → IsTidy last rows
    → IsTidy now (record_rate_limit_failure p k now rows).1
unfolding record_rate_limit_failure
failure-IsTidy p k last now rows le h =
    let tidy = later-IsTidy last now rows le h in
    let ts = keep (recent p.window now) (attempts_of (find k rows)) in
    let log =
      append-IsLog last now (recent p.window now) (attempts_of (find k rows)) le
        (find-IsLog last k rows h.1) in
    let until = if leb p.max_attempts (length (ts ++ now ∷ [])) then now + p.lockout else 0 in
    elim (Bool-cases (is_locked (find k rows) now)) [
      | inl l ↦ rw l tidy
      | inr u ↦ rw u (upsert-IsTidy now k _ rows (either (until == 0) ts log) tidy)
    ]
  where
    either :
        (b : Bool) (ts : List ℕ)
        → IsLog now (ts ++ now ∷ [])
        → IsLog now (if b then ts ++ now ∷ [] else [])
    either true ts log = log
    either false ts log = (tt, tt)

pub consume-IsTidy :
    (p : Policy) (k : Key) (last now : ℕ) (rows : Table)
    → last ≤ now
    → IsTidy last rows
    → IsTidy now (consume_rate_limit p k now rows).1
unfolding consume_rate_limit
consume-IsTidy p k last now rows le h =
    let tidy = later-IsTidy last now rows le h in
    let ts = keep (recent p.window now) (attempts_of (find k rows)) in
    let log =
      append-IsLog last now (recent p.window now) (attempts_of (find k rows)) le
        (find-IsLog last k rows h.1) in
    elim (Bool-cases (is_locked (find k rows) now)) [
      | inl l ↦ rw l tidy
      | inr u ↦ elim (Bool-cases (leb p.max_attempts (length ts))) [
        | inl f ↦ rw (u, f) (upsert-IsTidy now k _ rows (tt, tt) tidy)
        | inr f ↦ rw (u, f) (upsert-IsTidy now k _ rows log tidy)
      ]
    ]

pub clear-IsTidy :
    (k : Key) (now : ℕ) (rows : Table) → IsTidy now rows → IsTidy now (clear_rate_limit k rows)
unfolding clear_rate_limit
clear-IsTidy k now rows h = by_row (find k rows)
  where
    by_row : (row : Option Limit) → IsTidy now (elim row [ none ↦ rows | some r ↦ delete k rows ])
    by_row none = h
    by_row (some r) = delete-IsTidy now k rows h

pub prune-IsTidy :
    (stale_after now : ℕ) (rows : Table)
    → IsTidy now rows
    → IsTidy now (prune_rate_limits stale_after now rows)
unfolding prune_rate_limits
prune-IsTidy stale_after now rows h = by_query (any (λ r. is_prunable stale_after now r.1) rows)
  where
    live : Limit → Bool
    live row = not (is_prunable stale_after now row)

    by_query : (b : Bool) → IsTidy now (if b then keep (λ r. live r.1) rows else rows)
    by_query true = keep-IsTidy now live rows h
    by_query false = h
