-- ===== src/Prelude/Equality.antt =====
-- Equality as an interface (Rust's `PartialEq`), with the instances for the keys of the program.
use Prim.Native.Nat.{ℕ}
use Prim.Native.String.{String}
use mathlib.Core.Path.{◌≡◌, refl}
use mathlib.Core.Logic.{◌≢◌, ◌↔◌, inl, inr}
use mathlib.Core.Bool.{Bool, true, false, ◌&&◌, ◌||◌}
use mathlib.Core.List.{List, [], ◌∷◌}
use native.Mathlib.Omega.{arith}
use text.Mathlib.Text.{◌==◌ as str_eq}
use text.Mathlib.TextEquality.{eq_iff}
use runt.Prelude.Tests.{nat_beq, nat_beq_iff, Bool-cases}

pub record PartialEq {ℓ} (K : Type ℓ) : Type ℓ where
  pub same : K → K → Bool
  pub same_iff : (j k : K) → (same j k ≡ true) ↔ (j ≡ k)

module _ {ℓ} {K : Type ℓ} ⦃keys : PartialEq K⦄ where
  infix 50 ◌==◌
  abbrev pub ◌==◌ : K → K → Bool
  j == k = keys.same j k

-- Instances unfold, so that a test on literals computes.
instance abbrev pub string_eq : PartialEq String
string_eq = record { same = str_eq; same_iff = eq_iff }

instance abbrev pub nat_eq : PartialEq ℕ
nat_eq = record { same = nat_beq; same_iff = nat_beq_iff }

module _ {ℓ} {A : Type ℓ} ⦃e : PartialEq A⦄ where
  pub beq_refl : (a : A) → (a == a) ≡ true
  beq_refl a = (e.same_iff a a).1 refl

  pub beq→eq : (a b : A) → (a == b) ≡ true → a ≡ b
  beq→eq a b = (e.same_iff a b).0

  pub beq_false : (a b : A) → a ≢ b → (a == b) ≡ false
  beq_false a b h = elim (Bool-cases (a == b)) [ inl t ↦ absurd (h (beq→eq a b t)) | inr f ↦ f ]

  pub beq_ne : (a b : A) → (a == b) ≡ false → a ≢ b
  beq_ne a b h same = ground (arith, beq→eq a b, beq_refl a)

  -- `iter().any(|x| x == a)`.
  unfoldable pub contains : List A → A → Bool
  contains [] a = false
  contains (x ∷ xs) a = x == a || contains xs a

abbrev pub pair_beq {ℓ} : {A B : Type ℓ} ⦃d : PartialEq A⦄ ⦃e : PartialEq B⦄ → A × B → A × B → Bool
pair_beq ⦃d⦄ ⦃e⦄ (a, b) (a', b') = d.same a a' && e.same b b'

pub pair_beq_iff {ℓ} :
    {A B : Type ℓ} ⦃d : PartialEq A⦄ ⦃e : PartialEq B⦄ (p q : A × B)
    → (pair_beq p q ≡ true) ↔ (p ≡ q)
pair_beq_iff ⦃d⦄ ⦃e⦄ (a, b) (a', b') = (
  λ h. ground (arith, d.same_iff a a', e.same_iff b b'),
  λ h. ground (arith, d.same_iff a a', e.same_iff b b'),
)

instance abbrev pub pair_eq {ℓ} :
    {A B : Type ℓ} ⦃d : PartialEq A⦄ ⦃e : PartialEq B⦄ → PartialEq (A × B)
pair_eq = record { same = pair_beq; same_iff = pair_beq_iff }
