-- ===== src/Prelude/Quantified.antt =====
-- What holds of some entry of a list, and of all of them.
use mathlib.Core.Path.{◌≡◌, refl}
use mathlib.Core.Logic.{◌⊎◌, inl, inr}
use mathlib.Core.Bool.{Bool, true, false}
use mathlib.Core.List.{List, [], ◌∷◌, ◌++◌, map}
use native.Mathlib.Omega.{arith}
use hassio_access_control.Prelude.Tests.{if◌then◌else◌, Bool-cases}
use hassio_access_control.Prelude.Lists.{keep, any, All}

-- some entry satisfies `P`
abbrev pub Some {ℓ} : {A : Type ℓ} → (A → Type 0) → List A → Type 0
Some P [] = ⊥
Some P (x ∷ xs) = P x ⊎ Some P xs

module _ {ℓ} {A : Type ℓ} (P : A → Type 0) where
  pub Some-imp : (Q : A → Type 0) → ((x : A) → P x → Q x) → (xs : List A) → Some P xs → Some Q xs
  Some-imp Q f [] h = h
  Some-imp Q f (x ∷ xs) (inl p) = inl (f x p)
  Some-imp Q f (x ∷ xs) (inr h) = inr (Some-imp Q f xs h)

  pub All-imp : (Q : A → Type 0) → ((x : A) → P x → Q x) → (xs : List A) → All P xs → All Q xs
  All-imp Q f [] h = tt
  All-imp Q f (x ∷ xs) h = (f x h.0, All-imp Q f xs h.1)

  pub Some-append : (xs ys : List A) → Some P (xs ++ ys) → Some P xs ⊎ Some P ys
  Some-append [] ys h = inr h
  Some-append (x ∷ xs) ys (inl p) = inl (inl p)
  Some-append (x ∷ xs) ys (inr h) = elim (Some-append xs ys h) [
    | inl a ↦ inl (inr a)
    | inr b ↦ inr b
  ]

  pub Some-keep :
      (f : A → Bool) (xs : List A) → Some P (keep f xs) → Some (λ x. (f x ≡ true) × P x) xs
  Some-keep f [] h = h
  Some-keep f (x ∷ xs) h = split (f x) refl (Some-keep f xs) h
    where
      split :
          (b : Bool)
          → f x ≡ b
          → (Some P (keep f xs) → Some (λ y. (f y ≡ true) × P y) xs)
          → Some P (if b then x ∷ keep f xs else keep f xs)
          → ((f x ≡ true) × P x) ⊎ Some (λ y. (f y ≡ true) × P y) xs
      split true e rest (inl p) = inl (e, p)
      split true e rest (inr h') = inr (rest h')
      split false e rest h' = inr (rest h')

  pub All-keep : (f : A → Bool) (xs : List A) → All P xs → All (λ x. (f x ≡ true) × P x) (keep f xs)
  All-keep f [] h = tt
  All-keep f (x ∷ xs) h = split (f x) refl (All-keep f xs h.1)
    where
      split :
          (b : Bool)
          → f x ≡ b
          → All (λ y. (f y ≡ true) × P y) (keep f xs)
          → All (λ y. (f y ≡ true) × P y) (if b then x ∷ keep f xs else keep f xs)
      split true e rest = ((e, h.0), rest)
      split false e rest = rest

-- every entry of a list is related to some entry of it
pub All-among {ℓ} :
    {A : Type ℓ} (R : A → A → Type 0)
    → ((x : A) → R x x)
    → (xs : List A) → All (λ x. Some (R x) xs) xs
All-among R r [] = tt
All-among R r (x ∷ xs) = (
  inl (r x),
  All-imp (λ y. Some (R y) xs) (λ y. Some (R y) (x ∷ xs)) (λ y h. inr h) xs (All-among R r xs),
)

module _ {ℓ} {A : Type ℓ} where
  pub any-Some : (f : A → Bool) (xs : List A) → any f xs ≡ true → Some (λ x. f x ≡ true) xs
  any-Some f [] h = ground (arith, h)
  any-Some f (x ∷ xs) h = elim (Bool-cases (f x)) [
    | inl e ↦ inl e
    | inr e ↦ inr (any-Some f xs (ground (arith, e, h)))
  ]

module _ {ℓ ℓ'} {A : Type ℓ} {B : Type ℓ'} (f : A → B) (P : B → Type 0) where
  pub Some-map : (xs : List A) → Some P (map f xs) → Some (λ x. P (f x)) xs
  Some-map [] h = h
  Some-map (x ∷ xs) (inl p) = inl p
  Some-map (x ∷ xs) (inr h) = inr (Some-map xs h)

  pub All-map : (xs : List A) → All (λ x. P (f x)) xs → All P (map f xs)
  All-map [] h = tt
  All-map (x ∷ xs) h = (h.0, All-map xs h.1)
