-- ===== src/Auth/Process/Soundness/Rounds.antt =====
-- The loop of `process_event` over the locks.
use mathlib.Core.List.{append-nil, append_assoc}
use hassio_access_control.Prelude.{
  ℕ, String, ◌≡◌, refl, sym, Bool, true, false, ◌||◌, List, [], ◌∷◌, ◌++◌, map, any, keep, arith,
  if◌then◌else◌,
}
use hassio_access_control.Auth.Database.{Lock}
use hassio_access_control.Auth.Round.{
  Attempt, Loop, Access, Progress, go_on, stop, handle_lock, handle_locks,
}
use hassio_access_control.Auth.Process.Soundness.{
  sends, opens, ends, reached, commands, effects_of, stops, Granted, handle_lock-commands,
  handle_lock-stops, handle_lock-Granted,
}

-- the rest of a loop after one round
abbrev after : (Loop → Progress) → Progress → Progress
after rest (go_on s) = rest s
after rest (stop effects) = stop effects

or_assoc : (a b c : Bool) → ((a || b) || c) ≡ (a || (b || c))
or_assoc true b c = refl
or_assoc false b c = refl

after-commands :
    (rest : Loop → Progress) (later : List ℕ) (p : Progress)
    → ((s : Loop) → commands (effects_of (rest s)) ≡ commands s.effects ++ later)
    → commands (effects_of (after rest p))
      ≡ commands (effects_of p) ++ (if stops p then [] else later)
after-commands rest later (go_on s) ih = ih s
after-commands rest later (stop effects) ih = sym (append-nil (commands effects))

after-Granted :
    (rest : Loop → Progress) (names : List String) (some_granted : Bool) (p : Progress)
    (before : List String) (was : Bool)
    → ((s : Loop) → Granted (rest s) (s.granted_locks ++ names) (s.any_granted || some_granted))
    → Granted p before was
    → Granted (after rest p) (before ++ names) (was || some_granted)
after-Granted rest names some_granted (go_on s) before was ih h = rw (← h.0, ← h.1) (ih s)
after-Granted rest names some_granted (stop effects) before was ih h = tt

-- the commands of one round and of the rounds that follow it, if any
joined :
    (l : Lock) (f : Lock → Bool) (rest : List Lock) (xs : List ℕ) (here ended : Bool)
    → f l ≡ here
    → (xs ++ (if here then l.id ∷ [] else []))
        ++ (if ended then [] else map (λ k. k.id) (keep f rest))
      ≡ xs ++ map (λ k. k.id) (keep f (l ∷ (if ended then [] else rest)))
joined l f rest xs true true e = rw e (simp append-nil)
joined l f rest xs true false e = rw e (simp append_assoc)
joined l f rest xs false true e = rw e (simp append-nil)
joined l f rest xs false false e = rw e (simp append-nil)

named :
    (l : Lock) (f : Lock → Bool) (rest : List Lock) (xs : List String) (here : Bool)
    → f l ≡ here
    → (xs ++ (if here then l.name ∷ [] else [])) ++ map (λ k. k.name) (keep f rest)
      ≡ xs ++ map (λ k. k.name) (keep f (l ∷ rest))
named l f rest xs true e = rw e (simp append_assoc)
named l f rest xs false e = rw e (simp append-nil)

module _ (accesses : Lock → Access) (attempts : Lock → Attempt) where
  handle_locks-cons :
      (l : Lock) (locks : List Lock) (s : Loop)
      → handle_locks accesses attempts (l ∷ locks) s
        ≡ after (handle_locks accesses attempts locks) (handle_lock (accesses l) l (attempts l) s)
  unfolding handle_locks
  handle_locks-cons l locks s = by_round (handle_lock (accesses l) l (attempts l) s)
    where
      by_round :
          (p : Progress)
          → elim p as (λ x. Progress) [
            | go_on s' ↦ handle_locks accesses attempts locks s'
            | stop effects ↦ stop effects
          ]
            ≡ after (handle_locks accesses attempts locks) p
      by_round (go_on s') = refl
      by_round (stop effects) = refl

  -- Over any list of locks, the commands that go out are, in order, those of the locks that the
  -- loop reaches whose access is authorized and whose attempt found the lockdown down and was sent:
  -- the loop stops at the first authorized lock whose unlock is cancelled.
  pub handle_locks-commands :
      (locks : List Lock) (s : Loop)
      → commands (effects_of (handle_locks accesses attempts locks s))
        ≡ commands s.effects
          ++ map (λ l. l.id) (keep (sends accesses attempts) (reached accesses attempts locks))
  handle_locks-commands [] s = unfold handle_locks in sym (append-nil (commands s.effects))
  handle_locks-commands (l ∷ locks) s =
      let p = handle_lock (accesses l) l (attempts l) s in
      let rest = handle_locks accesses attempts locks in
      let f = sends accesses attempts in
      let later = map (λ k. k.id) (keep f (reached accesses attempts locks)) in
      rw
        (
          handle_locks-cons l locks s,
          after-commands rest later p (handle_locks-commands locks),
          handle_lock-commands (accesses l) l (attempts l) s,
          handle_lock-stops (accesses l) l (attempts l) s,
        )
        (joined l f (reached accesses attempts locks) (commands s.effects) (f l)
          (ends (accesses l) l (attempts l)) refl)

  -- If the loop is not left, the names that it grants are those of the authorized locks whose
  -- unlock was confirmed with the lockdown down, in order, and it grants if there is one.
  pub handle_locks-Granted :
      (locks : List Lock) (s : Loop)
      → Granted
          (handle_locks accesses attempts locks s)
          (s.granted_locks ++ map (λ l. l.name) (keep (opens accesses attempts) locks))
          (s.any_granted || any (opens accesses attempts) locks)
  handle_locks-Granted [] s = unfold handle_locks in ground (arith, append-nil s.granted_locks)
  handle_locks-Granted (l ∷ locks) s =
      let p = handle_lock (accesses l) l (attempts l) s in
      let f = opens accesses attempts in
      let names = map (λ k. k.name) (keep f locks) in
      let h =
        after-Granted (handle_locks accesses attempts locks) names (any f locks) p _ _
          (handle_locks-Granted locks) (handle_lock-Granted (accesses l) l (attempts l) s) in
      rw
        (
          handle_locks-cons l locks s,
          ← named l f locks s.granted_locks (f l) refl,
          ← or_assoc s.any_granted (f l) (any f locks),
        )
        h
