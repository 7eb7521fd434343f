-- ===== src/Prelude/Map.antt =====
-- Python's dict with text keys, as an association list; its order, which the modelled code never
-- reads, is not Python's.
use Prim.Native.String.{String}
use mathlib.Core.Path.{◌≡◌}
use mathlib.Core.Bool.{Bool, true, false}
use mathlib.Core.List.{List, [], ◌∷◌}
use mathlib.Core.Option.{Option, none, some}
use native.Mathlib.Omega.{arith}
use text.Mathlib.Text.{◌==◌ as str_eq}
use text.Mathlib.TextEquality.{eq_iff}
use hassio_access_control.Prelude.Tests.{if◌then◌else◌}

abbrev pub Map {ℓ} : Type ℓ → Type ℓ
Map A = List (String × A)

module _ {ℓ} {A : Type ℓ} where
  -- `m.get(k)`
  abbrev pub get : String → Map A → Option A
  get k [] = none
  get k ((j, v) ∷ m) = if str_eq j k then some v else get k m

  -- `m.pop(k, None)`
  unfoldable pub erase : String → Map A → Map A
  erase k [] = []
  erase k ((j, v) ∷ m) = let rest = erase k m in if str_eq j k then rest else (j, v) ∷ rest

  -- `m[k] = v`
  abbrev pub insert : String → A → Map A → Map A
  insert k v m = (k, v) ∷ erase k m

  -- `not m`
  abbrev pub is_empty : Map A → Bool
  is_empty [] = true
  is_empty (e ∷ m) = false

  pub get-erase :
      (e k : String) (m : Map A) → get e (erase k m) ≡ (if str_eq k e then none else get e m)
  unfolding erase
  get-erase e k [] = ground arith
  get-erase e k ((j, v) ∷ m) = ground (arith, eq_iff j k, eq_iff j e, eq_iff k e, get-erase e k m)

  pub get-insert :
      (e k : String) (v : A) (m : Map A)
      → get e (insert k v m) ≡ (if str_eq k e then some v else get e m)
  get-insert e k v m = ground (arith, get-erase e k m)
