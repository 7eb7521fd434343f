-- ===== src/Relock/Keeps.antt =====
-- Invariants of methods, one rule for each way to build a method.
use hassio_access_control.Prelude.{◌≡◌, refl, ◌⊎◌, inl, inr, Bool, true, false, if◌then◌else◌}
use hassio_access_control.Relock.Manager.{
  Manager, Error, Result, ok, raise, Method, ◌>>=◌, return, fail, gets, except,
}

-- `x` keeps `P`, whether it returns or raises
pub record Keeps {A : Type 0} (P : Manager → Type 0) (x : Method A) : Type 0 where
  pub at : (m : Manager) → P m → P (x m).1

module _ {A : Type 0} {P : Manager → Type 0} where
  pub Keeps-return : (a : A) → Keeps P (return a)
  Keeps-return a = record { at = λ m h. h }

  pub Keeps-fail : (e : Error) → Keeps {A = A} P (fail e)
  Keeps-fail e = record { at = λ m h. h }

  pub Keeps-gets : (f : Manager → A) → Keeps P (gets f)
  Keeps-gets f = record { at = λ m h. h }

  pub Keeps-if : (b : Bool) (x y : Method A) → Keeps P x → Keeps P y → Keeps P (if b then x else y)
  Keeps-if true x y kx ky = kx
  Keeps-if false x y kx ky = ky

  pub Keeps-except : (x y : Method A) → Keeps P x → Keeps P y → Keeps P (except x y)
  Keeps-except x y kx ky = record { at = λ m h. handled (x m).0 (x m).1 (kx.at m h) }
    where
      handled :
          (r : Result A) (m : Manager)
          → P m
          → P (elim r as (λ s. Result A × Manager) [ ok a ↦ (ok a, m) | raise e ↦ y m ]).1
      handled (ok a) m h = h
      handled (raise e) m h = ky.at m h

module _ {A B : Type 0} {P : Manager → Type 0} where
  -- what comes after a method, from the state that the method leaves
  pub Keeps-after :
      (x : Method A) (f : A → Method B) (m : Manager)
      → ((a : A) → Keeps P (f a))
      → P (x m).1
      → P ((x >>= f) m).1
  Keeps-after x f m kf = continued (x m).0 (x m).1
    where
      continued :
          (r : Result A) (m : Manager)
          → P m
          → P (elim r as (λ s. Result B × Manager) [ ok a ↦ f a m | raise e ↦ (raise e, m) ]).1
      continued (ok a) m h = (kf a).at m h
      continued (raise e) m h = h

  pub Keeps-bind :
      (x : Method A) (f : A → Method B) → Keeps P x → ((a : A) → Keeps P (f a)) → Keeps P (x >>= f)
  Keeps-bind x f kx kf = record { at = λ m h. Keeps-after x f m kf (kx.at m h) }

-- what comes after a method that keeps one predicate, where it establishes another
pub after_keeps :
    {A B : Type 0} (P Q : Manager → Type 0) (x : Method A) (f : A → Method B) (m : Manager)
    → P (x m).1
    → ((m' : Manager) → P m' → Q m')
    → ((a : A) (m' : Manager) → P m' → Q (f a m').1)
    → Q ((x >>= f) m).1
after_keeps {A = A} {B = B} P Q x f m h weaken kf = continued (x m).0 (x m).1 h
  where
    continued :
        (r : Result A) (m' : Manager)
        → P m'
        → Q (elim r as (λ s. Result B × Manager) [ ok a ↦ f a m' | raise e ↦ (raise e, m') ]).1
    continued (ok a) m' h = kf a m' h
    continued (raise e) m' h = weaken m' h

pub ruleset keeps_rules = (Keeps-return, Keeps-fail, Keeps-gets, Keeps-if, Keeps-except, Keeps-bind)

pub Result-cases :
    {A : Type 0} (x : Result A) → ((a : A) × (x ≡ ok a)) ⊎ ((e : Error) × (x ≡ raise e))
Result-cases (ok a) = inl (a, refl)
Result-cases (raise e) = inr (e, refl)
