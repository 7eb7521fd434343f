-- ===== src/RateLimit/Lockout.antt =====
-- What recorded failures (`record_rate_limit_failure` of database.py) do to later checks.
use hassio_access_control.Prelude.{
  ℕ, suc, ◌+◌, ◌≤◌, ◌<◌, ◌≡◌, refl, sym, false, ◌&&◌, inl, inr, none, List, [], ◌∷◌, ◌++◌, length,
  keep, All, All-append, length-append, arith, ltb, leb, Bool-cases,
}
use hassio_access_control.RateLimit.{
  Key, Limit, Table, find, attempts_of, lockout_of, recent, Policy, is_rate_limited,
  record_rate_limit_failure,
}
use hassio_access_control.RateLimit.Rows.{same_key_refl, find-upsert}
use hassio_access_control.RateLimit.Bound.{append-nil, append_assoc}

-- the table after a failure at each of the times
unfoldable pub failures : Policy → Key → List ℕ → Table → Table
failures p k [] rows = rows
failures p k (t ∷ times) rows = failures p k times (record_rate_limit_failure p k t rows).1

-- the times are up to `now`, and in the window that ends there
abbrev pub IsInWindow : ℕ → ℕ → List ℕ → Type 0
IsInWindow window now = All (λ t. (t ≤ now) × (now < t + window))

keep-all :
    (window t now : ℕ) (xs : List ℕ)
    → t ≤ now
    → IsInWindow window now xs
    → keep (recent window t) xs ≡ xs
keep-all window t now [] h hx = refl
keep-all window t now (x ∷ xs) h hx = ground (arith, hx.0, keep-all window t now xs h hx.1)

-- the key has failed at these times, and is not locked
record HasFailed (k : Key) (rows : Table) (times : List ℕ) : Type 0 where
  attempts : attempts_of (find k rows) ≡ times
  free : lockout_of (find k rows) ≡ 0

module _ (p : Policy) (k : Key) (now : ℕ) where
  failure-HasFailed :
      (t : ℕ) (rows : Table) (past : List ℕ)
      → t ≤ now
      → IsInWindow p.window now past
      → suc (length past) < p.max_attempts
      → HasFailed k rows past
      → HasFailed k (record_rate_limit_failure p k t rows).1 (past ++ t ∷ [])
  unfolding record_rate_limit_failure
  failure-HasFailed t rows past ht hp hm f =
      let row : Limit = record { attempts = past ++ t ∷ []; lockout_until = 0 } in
      let few : leb p.max_attempts (length (past ++ t ∷ [])) ≡ false =
        let l = length-append past (t ∷ []) in ground (arith, l, hm) in
      rw (f.attempts, f.free, keep-all p.window t now past ht hp, few)
        (record {
          attempts = rw (find-upsert k k row rows, same_key_refl k) refl;
          free = rw (find-upsert k k row rows, same_key_refl k) refl;
        })

  failures-HasFailed :
      (times : List ℕ) (rows : Table) (past : List ℕ)
      → IsInWindow p.window now times
      → IsInWindow p.window now past
      → length past + length times < p.max_attempts
      → HasFailed k rows past
      → HasFailed k (failures p k times rows) (past ++ times)
  unfolding failures
  failures-HasFailed [] rows past ht hp hm f = rw (append-nil past) f
  failures-HasFailed (t ∷ times) rows past ht hp hm f =
      let g = failure-HasFailed t rows past ht.0.0 hp (omega (arith, hm)) f in
      let l = length-append past (t ∷ []) in
      let r =
        failures-HasFailed times (record_rate_limit_failure p k t rows).1 (past ++ t ∷ []) ht.1
          (All-append _ past (t ∷ []) hp (ht.0, tt)) (omega (arith, l, hm)) g in
      rw (sym (append_assoc past (t ∷ []) times)) r

  -- A key without a row that fails fewer than `max_attempts` times in a window and then once more:
  -- the last failure answers that the key is locked exactly if it is the `max_attempts`-th, and
  -- then every check is refused before the lockout has passed and none after; otherwise none is.
  pub failure_locks :
      (times : List ℕ) (rows : Table)
      → find k rows ≡ none
      → IsInWindow p.window now times
      → length times < p.max_attempts
      → 0 < p.lockout
      → let (locked, rows') = record_rate_limit_failure p k now (failures p k times rows) in
        (locked ≡ leb p.max_attempts (suc (length times)))
        × ((later : ℕ)
            → (is_rate_limited k later rows').0 ≡ (locked && ltb later (now + p.lockout)))
  unfolding record_rate_limit_failure is_rate_limited
  failure_locks times rows fresh ht hm hl =
      let f =
        failures-HasFailed times rows [] ht tt (omega (arith, hm))
          (record { attempts = rw fresh refl; free = rw fresh refl }) in
      let l = length-append times (now ∷ []) in
      let same : leb p.max_attempts (length (times ++ now ∷ []))
          ≡ leb p.max_attempts (suc (length times)) =
        ground (arith, l) in
      rw (f.attempts, f.free, keep-all p.window now now times (omega arith) ht, same)
        (elim (Bool-cases (leb p.max_attempts (suc (length times)))) [
          | inl full ↦ rw full (
            ground (arith),
            λ later. ground (
              arith,
              find-upsert k k (record { attempts = []; lockout_until = now + p.lockout })
                  (failures p k times rows),
              same_key_refl k,
            ),
          )
          | inr room ↦ rw room (
            refl,
            λ later. ground (
              arith,
              find-upsert k k (record { attempts = times ++ now ∷ []; lockout_until = 0 })
                  (failures p k times rows),
              same_key_refl k,
            ),
          )
        ])
