-- ===== src/Actions/Yields.antt =====
-- What a method's result satisfies, if it returns, one rule for each way to build a method.
use hassio_access_control.Prelude.{Bool, true, false, if◌then◌else◌}
use hassio_access_control.Relock.Manager.{
  Manager, Error, Result, ok, raise, Method, ◌>>=◌, return, fail, except,
}
use hassio_access_control.Relock.Keeps.{Keeps}
use hassio_access_control.Actions.{Action, ActionResult, LockRow, Owed, on_cancelled}

abbrev pub Holds : {A : Type 0} → (A → Type 0) → Result A → Type 0
Holds Q (ok a) = Q a
Holds Q (raise e) = Unit {0}

-- what `x` returns satisfies `Q`
pub record Yields {A : Type 0} (Q : A → Type 0) (x : Method A) : Type 0 where
  pub at : (m : Manager) → Holds Q (x m).0

module _ {A : Type 0} {Q : A → Type 0} where
  pub Yields-return : (a : A) → Q a → Yields Q (return a)
  Yields-return a q = record { at = λ m. q }

  pub Yields-fail : (e : Error) → Yields Q (fail e)
  Yields-fail e = record { at = λ m. tt }

  pub Yields-if :
      (b : Bool) (x y : Method A) → Yields Q x → Yields Q y → Yields Q (if b then x else y)
  Yields-if true x y hx hy = hx
  Yields-if false x y hx hy = hy

  pub Yields-except : (x y : Method A) → Yields Q x → Yields Q y → Yields Q (except x y)
  Yields-except x y hx hy = record { at = λ m. handled (x m).0 (x m).1 (hx.at m) }
    where
      handled :
          (r : Result A) (m : Manager)
          → Holds Q r
          → Holds Q (elim r as (λ s. Result A × Manager) [ ok a ↦ (ok a, m) | raise e ↦ y m ]).0
      handled (ok a) m h = h
      handled (raise e) m h = hy.at m

module _ {A B : Type 0} {Q : B → Type 0} where
  -- with what the first method's result satisfies
  pub Yields-then :
      (R : A → Type 0) (x : Method A) (f : A → Method B)
      → Yields R x
      → ((a : A) → R a → Yields Q (f a))
      → Yields Q (x >>= f)
  Yields-then R x f hx hf = record { at = λ m. continued (x m).0 (x m).1 (hx.at m) }
    where
      continued :
          (r : Result A) (m : Manager)
          → Holds R r
          → Holds Q
              (elim r as (λ s. Result B × Manager) [ ok a ↦ f a m | raise e ↦ (raise e, m) ]).0
      continued (ok a) m h = (hf a h).at m
      continued (raise e) m h = tt

  pub Yields-bind :
      (x : Method A) (f : A → Method B) → ((a : A) → Yields Q (f a)) → Yields Q (x >>= f)
  Yields-bind x f hf = record { at = λ m. continued (x m).0 (x m).1 }
    where
      continued :
          (r : Result A) (m : Manager)
          → Holds Q
              (elim r as (λ s. Result B × Manager) [ ok a ↦ f a m | raise e ↦ (raise e, m) ]).0
      continued (ok a) m = (hf a).at m
      continued (raise e) m = tt

-- the rule for `Keeps`, with what the first method's result satisfies
pub Keeps-then :
    {A B : Type 0} {P : Manager → Type 0} (R : A → Type 0) (x : Method A) (f : A → Method B)
    → Keeps P x
    → Yields R x
    → ((a : A) → R a → Keeps P (f a))
    → Keeps P (x >>= f)
Keeps-then {A = A} {B = B} {P = P} R x f kx hx hf = record {
  at = λ m p. continued (x m).0 (x m).1 (hx.at m) (kx.at m p);
}
  where
    continued :
        (r : Result A) (m : Manager)
        → Holds R r
        → P m
        → P (elim r as (λ s. Result B × Manager) [ ok a ↦ f a m | raise e ↦ (raise e, m) ]).1
    continued (ok a) m h p = (hf a h).at m p
    continued (raise e) m h p = p

pub ruleset yields_rules = (Yields-return, Yields-fail, Yields-if, Yields-except, Yields-bind)

-- the handler of a cancellation returns nothing
pub on_cancelled-Yields :
    (Q : ActionResult → Type 0) (row : LockRow) (action : Action) (attempted : Bool) (owed : Owed)
    → Yields Q (on_cancelled row action attempted owed)
unfolding on_cancelled
on_cancelled-Yields Q row action attempted owed = search (yields_rules) depth 12
