-- ===== src/Text.antt =====
-- Python's `str` methods and `int()` on ASCII text, which the schedule parser of auth_engine.py
-- uses. A text is its list of code points; other alphabets are not modelled.
use Prim.Native.Char.{code}
use hassio_access_control.Prelude.{
  ℕ, ◌+◌, ◌-◌, ◌*◌, String, Bool, true, false, ◌&&◌, ◌||◌, Option, none, some, List, [], ◌∷◌, leb,
  ◌==◌, if◌then◌else◌,
}
use mathlib.Core.List.{reverse}

abbrev pub Text : Type 0
Text = List ℕ

abbrev pub codes : String → Text
codes String.[] = []
codes (String.◌∷◌ c s) = code c ∷ codes s

abbrev pub text_eq : Text → Text → Bool
text_eq [] [] = true
text_eq (a ∷ s) (b ∷ t) = a == b && text_eq s t
text_eq _ _ = false

-- `value or ""`
abbrev pub or_empty : Option Text → Text
or_empty none = []
or_empty (some t) = t

-- `bool(text)`
abbrev pub nonempty : Text → Bool
nonempty [] = false
nonempty (c ∷ t) = true

prepend : ℕ → List Text → List Text
prepend c [] = (c ∷ []) ∷ []
prepend c (w ∷ ws) = (c ∷ w) ∷ ws

-- `text.split(sep)`
unfoldable pub split : ℕ → Text → List Text
unfolding prepend
split sep [] = [] ∷ []
split sep (c ∷ t) = let rest = split sep t in if c == sep then [] ∷ rest else prepend c rest

abbrev pub is_space : ℕ → Bool
is_space c = (leb 9 c && leb c 13) || (leb 28 c && leb c 32)

abbrev pub is_digit : ℕ → Bool
is_digit c = leb b'0' c && leb c b'9'

unfoldable pub lstrip : Text → Text
lstrip [] = []
lstrip (c ∷ t) = let rest = lstrip t in if is_space c then rest else c ∷ t

-- `text.strip()`
unfoldable pub strip : Text → Text
unfolding lstrip
strip t = reverse (lstrip (reverse (lstrip t)))

unfoldable pub lower_char : ℕ → ℕ
lower_char c = if leb b'A' c && leb c b'Z' then c + 32 else c

-- `text.isdigit()`
unfoldable pub isdigit : Text → Bool
isdigit [] = false
isdigit (c ∷ []) = is_digit c
isdigit (c ∷ d ∷ t) = is_digit c && isdigit (d ∷ t)

pub data ℤ : Type 0 where
  pos negsuc : ℕ → ℤ

-- the digits of an integer, with single underscores between them; `true` after a digit
unfoldable pub digits : ℕ → Bool → Text → Option ℕ
digits n true [] = some n
digits n false [] = none
digits n after (c ∷ t) = elim (is_digit c) [
  | true ↦ digits (n * 10 + (c - b'0')) true t
  | false ↦ elim (c == b'_' && after) [ true ↦ digits n false t | false ↦ none ]
]

abbrev pub negate : Option ℕ → Option ℤ
negate none = none
negate (some n) = some (if n == 0 then pos 0 else negsuc (n - 1))

abbrev pub positive : Option ℕ → Option ℤ
positive none = none
positive (some n) = some (pos n)

unfoldable pub signed : Text → Option ℤ
unfolding digits
signed [] = none
signed (c ∷ t) =
    if c == b'-'
    then negate (digits 0 false t)
    else if c == b'+'
    then positive (digits 0 false t)
    else positive (digits 0 false (c ∷ t))

-- the spaces that `int` skips around an ASCII text, which are fewer than those of `strip`
abbrev pub is_c_space : ℕ → Bool
is_c_space c = (leb 9 c && leb c 13) || c == 32

unfoldable pub skip_spaces : Text → Text
skip_spaces [] = []
skip_spaces (c ∷ t) = let rest = skip_spaces t in if is_c_space c then rest else c ∷ t

unfoldable pub c_strip : Text → Text
unfolding skip_spaces
c_strip t = reverse (skip_spaces (reverse (skip_spaces t)))

-- `int(text)`; `none` is its ValueError
unfoldable pub int : Text → Option ℤ
int t = signed (c_strip t)
