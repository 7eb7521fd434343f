-- ===== src/Auth/Process/Soundness.antt =====
-- Which locks an event opens, and that no command goes out for any other.
pub mod Rounds
pub mod Decision
use hassio_access_control.Prelude.{
  ℕ, String, ◌≡◌, ◌≢◌, refl, ◌∙◌, Bool, true, false, not, ◌&&◌, ◌||◌, Option, none, some, List, [],
  ◌∷◌, ◌++◌, map, any, keep, arith, if◌then◌else◌, Bool-cases, inl, inr,
}
use mathlib.Core.List.{append-nil, append_assoc}
use hassio_access_control.Auth.Database.{Lock}
use hassio_access_control.Auth.Round.{
  Reason, AccessResult, Effect, log, unlock, fire_ha_event, auto_disarm, Outcome, confirmed,
  cancelled, ha_not_confirmed, access_not_confirmed, not_known, failed, not_sent, Attempt,
  not_prepared, cancelled_before, at_barrier, Loop, Access, authorized, refused, rule_error,
  Progress, go_on, stop, has_client_for, handle_lock, handle_locks,
}

-- an independent account: which attempts send a command, open the lock, and end the event
abbrev pub sent : Outcome → Bool
sent not_sent = false
sent _ = true

abbrev pub sends_at : Attempt → Bool
sends_at not_prepared = false
sends_at cancelled_before = false
sends_at (at_barrier lockdown outcome) = not lockdown && sent outcome

abbrev pub is_confirmed : Outcome → Bool
is_confirmed confirmed = true
is_confirmed _ = false

abbrev pub opens_at : Attempt → Bool
opens_at not_prepared = false
opens_at cancelled_before = false
opens_at (at_barrier lockdown outcome) = not lockdown && is_confirmed outcome

abbrev pub is_authorized : Access → Bool
is_authorized authorized = true
is_authorized _ = false

abbrev pub is_cancelled : Outcome → Bool
is_cancelled cancelled = true
is_cancelled _ = false

module _ (accesses : Lock → Access) (attempts : Lock → Attempt) where
  abbrev pub sends : Lock → Bool
  sends l = is_authorized (accesses l) && has_client_for l.lock_type && sends_at (attempts l)

  abbrev pub opens : Lock → Bool
  opens l = is_authorized (accesses l) && has_client_for l.lock_type && opens_at (attempts l)

abbrev ends_at : Bool → Attempt → Bool
ends_at known not_prepared = false
ends_at known cancelled_before = true
ends_at known (at_barrier lockdown outcome) = known && not lockdown && is_cancelled outcome

-- the attempt is cancelled, which ends the event
abbrev pub ends : Access → Lock → Attempt → Bool
ends access l attempt = is_authorized access && ends_at (has_client_for l.lock_type) attempt

-- the locks that the loop reaches
abbrev pub reached : (Lock → Access) → (Lock → Attempt) → List Lock → List Lock
reached accesses attempts [] = []
reached accesses attempts (l ∷ locks) =
    let rest = reached accesses attempts locks in
    l ∷ (if ends (accesses l) l (attempts l) then [] else rest)

-- the locks that were commanded, in order
abbrev pub commands : List Effect → List ℕ
commands [] = []
commands (unlock id ∷ effects) = id ∷ commands effects
commands (log result id reason ∷ effects) = commands effects
commands (fire_ha_event locks ∷ effects) = commands effects
commands (auto_disarm ∷ effects) = commands effects

abbrev pub effects_of : Progress → List Effect
effects_of (go_on s) = s.effects
effects_of (stop effects) = effects

pub commands-append : (xs ys : List Effect) → commands (xs ++ ys) ≡ commands xs ++ commands ys
commands-append [] ys = refl
commands-append (unlock id ∷ xs) ys = ground (arith, commands-append xs ys)
commands-append (log result id reason ∷ xs) ys = commands-append xs ys
commands-append (fire_ha_event locks ∷ xs) ys = commands-append xs ys
commands-append (auto_disarm ∷ xs) ys = commands-append xs ys

commands-log :
    (xs : List Effect) (r : AccessResult) (id : Option ℕ) (reason : Reason)
    → commands (xs ++ log r id reason ∷ []) ≡ commands xs
commands-log xs r id reason = commands-append xs (log r id reason ∷ []) ∙ append-nil (commands xs)

commands-unlock :
    (xs : List Effect) (id : ℕ) → commands (xs ++ unlock id ∷ []) ≡ commands xs ++ id ∷ []
commands-unlock xs id = commands-append xs (unlock id ∷ [])

pub handle_lock-commands :
    (a : Access) (l : Lock) (attempt : Attempt) (s : Loop)
    → commands (effects_of (handle_lock a l attempt s))
      ≡ commands s.effects
        ++ (if is_authorized a && has_client_for l.lock_type && sends_at attempt
            then l.id ∷ []
            else [])
unfolding handle_lock
handle_lock-commands (refused reason) l attempt s = simp (commands-log, append-nil)
handle_lock-commands rule_error l attempt s = simp (commands-log, append-nil)
handle_lock-commands authorized l not_prepared s = grind (arith, commands-log, append-nil)
handle_lock-commands authorized l cancelled_before s = grind (arith, commands-log, append-nil)
handle_lock-commands authorized l (at_barrier true outcome) s =
    grind (arith, commands-log, append-nil)
handle_lock-commands authorized l (at_barrier false outcome) s =
    grind (arith, commands-log, commands-unlock, append-nil)

abbrev pub stops : Progress → Bool
stops (go_on s) = false
stops (stop effects) = true

pub handle_lock-stops :
    (a : Access) (l : Lock) (attempt : Attempt) (s : Loop)
    → stops (handle_lock a l attempt s) ≡ ends a l attempt
unfolding handle_lock
handle_lock-stops a l attempt s = ground arith

-- what the loop's variables say, if the loop has not been left
abbrev pub Granted : Progress → List String → Bool → Type 0
Granted (go_on s) names some_granted = (s.granted_locks ≡ names) × (s.any_granted ≡ some_granted)
Granted (stop effects) names some_granted = Unit

pub handle_lock-Granted :
    (a : Access) (l : Lock) (attempt : Attempt) (s : Loop)
    → let opened = is_authorized a && has_client_for l.lock_type && opens_at attempt in
      Granted
        (handle_lock a l attempt s)
        (s.granted_locks ++ (if opened then l.name ∷ [] else []))
        (s.any_granted || opened)
unfolding handle_lock
handle_lock-Granted (refused reason) l attempt s = ground (arith, append-nil s.granted_locks)
handle_lock-Granted rule_error l attempt s = ground (arith, append-nil s.granted_locks)
handle_lock-Granted authorized l attempt s = ground (arith, append-nil s.granted_locks)
