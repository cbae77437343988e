-- ===== src/Prelude/Structures.antt =====
-- Equality of lists, options and Booleans, as derived by Rust.
use mathlib.Core.Path.{◌≡◌, refl}
use mathlib.Core.Logic.{◌↔◌}
use mathlib.Core.Bool.{Bool, true, false, ◌&&◌}
use mathlib.Core.Option.{Option, none, some}
use mathlib.Core.List.{List, [], ◌∷◌}
use native.Mathlib.Omega.{arith}
use runt.Prelude.Equality.{PartialEq}

module _ {ℓ} {A : Type ℓ} ⦃e : PartialEq A⦄ where
  abbrev pub list_beq : List A → List A → Bool
  list_beq [] [] = true
  list_beq (a ∷ as') (b ∷ bs) = e.same a b && list_beq as' bs
  list_beq _ _ = false

  pub list_beq_iff : (xs ys : List A) → (list_beq xs ys ≡ true) ↔ (xs ≡ ys)
  list_beq_iff [] [] = (λ h. refl, λ h. refl)
  list_beq_iff [] (b ∷ bs) = (λ h. ground arith, λ h. ground arith)
  list_beq_iff (a ∷ as') [] = (λ h. ground arith, λ h. ground arith)
  list_beq_iff (a ∷ as') (b ∷ bs) = (
    λ h. ground (arith, list_beq_iff as' bs, e.same_iff a b),
    λ h. ground (arith, list_beq_iff as' bs, e.same_iff a b),
  )

  abbrev pub option_beq : Option A → Option A → Bool
  option_beq none none = true
  option_beq (some a) (some b) = e.same a b
  option_beq _ _ = false

  pub option_beq_iff : (x y : Option A) → (option_beq x y ≡ true) ↔ (x ≡ y)
  option_beq_iff none none = (λ h. refl, λ h. refl)
  option_beq_iff none (some b) = (λ h. ground arith, λ h. ground arith)
  option_beq_iff (some a) none = (λ h. ground arith, λ h. ground arith)
  option_beq_iff (some a) (some b) =
      (λ h. ground (arith, e.same_iff a b), λ h. ground (arith, e.same_iff a b))

instance abbrev pub list_eq {ℓ} : {A : Type ℓ} ⦃e : PartialEq A⦄ → PartialEq (List A)
list_eq = record { same = list_beq; same_iff = list_beq_iff }

instance abbrev pub option_eq {ℓ} : {A : Type ℓ} ⦃e : PartialEq A⦄ → PartialEq (Option A)
option_eq = record { same = option_beq; same_iff = option_beq_iff }

abbrev pub bool_beq : Bool → Bool → Bool
bool_beq true b = b
bool_beq false true = false
bool_beq false false = true

pub bool_beq_iff : (a b : Bool) → (bool_beq a b ≡ true) ↔ (a ≡ b)
bool_beq_iff a b = (λ h. ground arith, λ h. ground arith)

instance abbrev pub bool_eq : PartialEq Bool
bool_eq = record { same = bool_beq; same_iff = bool_beq_iff }
