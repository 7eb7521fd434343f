-- ===== src/RateLimit/Bound.antt =====
-- What the stored attempts of `consume_rate_limit` and `is_rate_limited` (database.py) say of the
-- actions that were allowed.
use hassio_access_control.Prelude.{
  ℕ, ◌+◌, ◌≤◌, ◌<◌, ◌≡◌, ◌≢◌, refl, ap, ◌∙◌, Bool, ◌⊎◌, inl, inr, Option, none, some, List, [], ◌∷◌,
  ◌++◌, length, keep, All, All-append, length-append, length-keep-le, arith, leb, if◌then◌else◌,
  Bool-cases,
}
use hassio_access_control.RateLimit.{
  Key, Limit, Table, find, attempts_of, lockout_of, is_locked, recent, Policy, is_rate_limited,
  consume_rate_limit,
}
use hassio_access_control.RateLimit.Rows.{
  same_key_refl, has_expired, find-upsert, find-is_rate_limited,
}

keep-append :
    (test : ℕ → Bool) (xs ys : List ℕ) → keep test (xs ++ ys) ≡ keep test xs ++ keep test ys
keep-append test [] ys = refl
keep-append test (x ∷ xs) ys = ground (arith, keep-append test xs ys)

-- what is recent in a shorter period and later is recent in a longer one and earlier
keep-keep-recent :
    (q w now later : ℕ) (xs : List ℕ)
    → q ≤ w
    → now ≤ later
    → keep (recent q later) (keep (recent w now) xs) ≡ keep (recent q later) xs
keep-keep-recent q w now later [] hq hn = refl
keep-keep-recent q w now later (x ∷ xs) hq hn =
    ground (arith, keep-keep-recent q w now later xs hq hn)

keep-recent-none :
    (q now last : ℕ) (xs : List ℕ)
    → All (λ t. t ≤ last) xs
    → last + q ≤ now
    → keep (recent q now) xs ≡ []
keep-recent-none q now last [] h hn = refl
keep-recent-none q now last (x ∷ xs) h hn = ground (arith, keep-recent-none q now last xs h.1 hn)

All-le : (a b : ℕ) (xs : List ℕ) → a ≤ b → All (λ t. t ≤ a) xs → All (λ t. t ≤ b) xs
All-le a b [] h hx = tt
All-le a b (x ∷ xs) h hx = (omega (arith, hx.0), All-le a b xs h hx.1)

pub append-nil : (xs : List ℕ) → xs ++ [] ≡ xs
append-nil [] = refl
append-nil (x ∷ xs) = ap (λ r. x ∷ r) (append-nil xs)

pub append_assoc : (xs ys zs : List ℕ) → (xs ++ ys) ++ zs ≡ xs ++ (ys ++ zs)
append_assoc [] ys zs = refl
append_assoc (x ∷ xs) ys zs = ap (λ r. x ∷ r) (append_assoc xs ys zs)

-- `granted` holds the times of the allowed actions up to `last`
pub record IsBounded (p : Policy) (q : ℕ) (row : Option Limit) (granted : List ℕ) (last : ℕ)
    : Type 0 where
  -- once a lockout has passed, the stored attempts are the recent ones
  pub exact :
      (now : ℕ)
      → last ≤ now
      → lockout_of row ≤ now
      → keep (recent q now) granted ≡ keep (recent q now) (attempts_of row)
  pub bounded : (now : ℕ) → last ≤ now → length (keep (recent q now) granted) ≤ p.max_attempts
  pub past : All (λ t. t ≤ last) granted
  pub cleared : (lockout_of row ≡ 0) ⊎ (attempts_of row ≡ [])

module _ (p : Policy) (q : ℕ) (hw : q ≤ p.window) (hl : q ≤ p.lockout) where
  pub later-IsBounded :
      (row : Option Limit) (granted : List ℕ) (last now : ℕ)
      → last ≤ now
      → IsBounded p q row granted last
      → IsBounded p q row granted now
  later-IsBounded row granted last now h b = record {
    exact = λ n hn hr. b.exact n (omega (arith, h, hn)) hr;
    bounded = λ n hn. b.bounded n (omega (arith, h, hn));
    past = All-le last now granted h b.past;
    cleared = b.cleared;
  }

  locked-IsBounded :
      (row : Option Limit) (granted : List ℕ) (last now : ℕ)
      → last ≤ now
      → IsBounded p q row granted last
      → IsBounded p q (some (record { attempts = []; lockout_until = now + p.lockout })) granted now
  locked-IsBounded row granted last now h b = record {
    exact = λ n hn hr.
        keep-recent-none q n now granted (All-le last now granted h b.past) (omega (arith, hl, hr));
    bounded = λ n hn. b.bounded n (omega (arith, h, hn));
    past = All-le last now granted h b.past;
    cleared = inr refl;
  }

  allowed-IsBounded :
      (row : Option Limit) (granted : List ℕ) (last now : ℕ)
      → last ≤ now
      → lockout_of row ≤ now
      → length (keep (recent p.window now) (attempts_of row)) < p.max_attempts
      → IsBounded p q row granted last
      → IsBounded p q
          (some (record {
            attempts = keep (recent p.window now) (attempts_of row) ++ now ∷ [];
            lockout_until = 0;
          }))
          (granted ++ now ∷ [])
          now
  allowed-IsBounded row granted last now h hr hm b =
      let kept = keep (recent p.window now) (attempts_of row) in
      let same : (n : ℕ)
          → now ≤ n
          → keep (recent q n) (granted ++ now ∷ []) ≡ keep (recent q n) (kept ++ now ∷ []) =
        λ n hn.
          let e = b.exact n (omega (arith, h, hn)) (omega (arith, hr, hn)) in
          let k = keep-keep-recent q p.window now n (attempts_of row) hw hn in
          ground (
            arith,
            keep-append (recent q n) granted (now ∷ []),
            keep-append (recent q n) kept (now ∷ []),
            e,
            k,
          ) in
      record {
        exact = λ n hn hz. same n hn;
        bounded = λ n hn.
            let l = length-keep-le (recent q n) (kept ++ now ∷ []) in
            let a = length-append kept (now ∷ []) in rw (same n hn) (omega (arith, l, a, hm));
        past =
            All-append (λ t. t ≤ now) granted (now ∷ []) (All-le last now granted h b.past)
              (omega arith, tt);
        cleared = inl refl;
      }

  pub consume-IsBounded :
      (k : Key) (rows : Table) (granted : List ℕ) (last now : ℕ)
      → last ≤ now
      → IsBounded p q (find k rows) granted last
      → let (allowed, rows') = consume_rate_limit p k now rows in
        IsBounded p q (find k rows') (granted ++ (if allowed then now ∷ [] else [])) now
  unfolding consume_rate_limit
  consume-IsBounded k rows granted last now h b =
      let row = find k rows in
      let kept = keep (recent p.window now) (attempts_of row) in
      elim (Bool-cases (is_locked row now)) [
        | inl e ↦ rw (e, append-nil granted) (later-IsBounded row granted last now h b)
        | inr e ↦ rw e (elim (Bool-cases (leb p.max_attempts (length kept))) [
          | inl full ↦
              rw
                (
                  full,
                  append-nil granted,
                  find-upsert k k (record { attempts = []; lockout_until = now + p.lockout }) rows,
                  same_key_refl k,
                )
                (locked-IsBounded row granted last now h b)
          | inr room ↦
              rw
                (
                  room,
                  find-upsert k k (record { attempts = kept ++ now ∷ []; lockout_until = 0 }) rows,
                  same_key_refl k,
                )
                (allowed-IsBounded row granted last now h (ground (arith, e)) (ground (arith, room))
                  b)
        ])
      ]

  unlocked-IsBounded :
      (row : Option Limit) (granted : List ℕ) (last : ℕ)
      → lockout_of row ≢ 0
      → lockout_of row ≤ last
      → IsBounded p q row granted last
      → IsBounded p q none granted last
  unlocked-IsBounded row granted last hz hr b =
      let empty : attempts_of row ≡ [] = elim b.cleared [ inl z ↦ absurd (hz z) | inr e ↦ e ] in
      record {
        exact = λ n hn h. b.exact n hn (omega (arith, hr, hn)) ∙ rw empty refl;
        bounded = b.bounded;
        past = b.past;
        cleared = inr refl;
      }

  pub check-IsBounded :
      (k : Key) (rows : Table) (granted : List ℕ) (last now : ℕ)
      → last ≤ now
      → IsBounded p q (find k rows) granted last
      → IsBounded p q (find k (is_rate_limited k now rows).1) granted now
  check-IsBounded k rows granted last now h b =
      let row = find k rows in
      let later = later-IsBounded row granted last now h b in
      elim (Bool-cases (has_expired row now)) [
        | inl e ↦
            rw (find-is_rate_limited k k now rows, same_key_refl k, e)
              (unlocked-IsBounded row granted now (λ z. ground (arith, e, z)) (ground (arith, e))
                later)
        | inr e ↦ rw (find-is_rate_limited k k now rows, same_key_refl k, e) later
      ]
