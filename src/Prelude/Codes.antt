-- ===== src/Prelude/Codes.antt =====
-- Texts as the numbers of their characters, and back.
use mathlib.Core.Path.{◌≡◌, refl, ap, ◌∙◌}
use mathlib.Core.List.{List, [], ◌∷◌}
use mathlib.Core.Option.{Option, none, some}
use Prim.Native.Nat.{ℕ, Ordering, compare}
use Prim.Native.Char.{char, code, IsScalar}
use Prim.Native.String.{String}

abbrev pub codes : String → List ℕ
codes String.[] = []
codes (String.◌∷◌ c s) = code c ∷ codes s

data Cases (o : Ordering) : Type 0 where
  is_lt : o ≡ Ordering.lt → Cases o
  is_eq : o ≡ Ordering.eq → Cases o
  is_gt : o ≡ Ordering.gt → Cases o

cases : (o : Ordering) → Cases o
cases Ordering.lt = is_lt refl
cases Ordering.eq = is_eq refl
cases Ordering.gt = is_gt refl

-- Whether a type has an element, and that it has no other.
abbrev Known : Type 0 → Type 0
Known A = (found : Option A) × ((a : A) → found ≡ some a)

known_unit : Known Unit
known_unit = (some tt, λ a. refl)

known_empty : Known ⊥
known_empty = (none, λ a. absurd a)

is_scalar : (n : ℕ) → Known (IsScalar n)
is_scalar n = elim (cases (compare n 55296)) [
  | is_lt a ↦ rw a known_unit
  | is_eq a ↦ elim (cases (compare 57343 n)) [
    | is_lt b ↦ elim (cases (compare n 1114112)) [
      | is_lt c ↦ rw (a, b, c) known_unit
      | is_eq c ↦ rw (a, b, c) known_empty
      | is_gt c ↦ rw (a, b, c) known_empty
    ]
    | is_eq b ↦ rw (a, b) known_empty
    | is_gt b ↦ rw (a, b) known_empty
  ]
  | is_gt a ↦ elim (cases (compare 57343 n)) [
    | is_lt b ↦ elim (cases (compare n 1114112)) [
      | is_lt c ↦ rw (a, b, c) known_unit
      | is_eq c ↦ rw (a, b, c) known_empty
      | is_gt c ↦ rw (a, b, c) known_empty
    ]
    | is_eq b ↦ rw (a, b) known_empty
    | is_gt b ↦ rw (a, b) known_empty
  ]
]

abbrev add_char : (n : ℕ) → Option (IsScalar n) → Option String → Option String
add_char n (some p) (some s) = some (String.◌∷◌ (char n p) s)
add_char n _ _ = none

pub from_codes : List ℕ → Option String
from_codes [] = some String.[]
from_codes (n ∷ ns) = add_char n (is_scalar n).0 (from_codes ns)

pub from_codes-codes : (s : String) → from_codes (codes s) ≡ some s
unfolding from_codes
from_codes-codes String.[] = refl
from_codes-codes (String.◌∷◌ (char n p) s) =
    ap (λ o. add_char n o (from_codes (codes s))) ((is_scalar n).1 p)
    ∙ ap (add_char n (some p)) (from_codes-codes s)
