-- ===== src/Prelude/Texts.antt =====
-- Texts as lists of characters: equality, and how they begin and end.
use mathlib.Core.Path.{◌≡◌, refl}
use mathlib.Core.Logic.{◌↔◌}
use mathlib.Core.Bool.{Bool, true, false, ◌&&◌}
use mathlib.Core.List.{List, [], ◌∷◌}
use native.Mathlib.Omega.{arith}
use Prim.Native.Nat.{ℕ, ◌-◌}
use runt.Prelude.Tests.{nat_beq, nat_beq_iff}
use runt.Prelude.Lists.{length, drop}
use runt.Prelude.Equality.{PartialEq}

abbrev pub Text : Type 0
Text = List ℕ

abbrev pub text_beq : Text → Text → Bool
text_beq [] [] = true
text_beq (a ∷ as') (b ∷ bs) = nat_beq a b && text_beq as' bs
text_beq _ _ = false

pub text_beq_iff : (s t : Text) → (text_beq s t ≡ true) ↔ (s ≡ t)
text_beq_iff [] [] = (λ h. refl, λ h. refl)
text_beq_iff [] (b ∷ bs) = (λ h. ground arith, λ h. ground arith)
text_beq_iff (a ∷ as') [] = (λ h. ground arith, λ h. ground arith)
text_beq_iff (a ∷ as') (b ∷ bs) = (
  λ h. ground (arith, text_beq_iff as' bs, nat_beq_iff a b),
  λ h. ground (arith, text_beq_iff as' bs, nat_beq_iff a b),
)

instance abbrev pub text_eq : PartialEq Text
text_eq = record { same = text_beq; same_iff = text_beq_iff }

unfoldable pub starts_with : Text → Text → Bool
starts_with [] t = true
starts_with (a ∷ p) [] = false
starts_with (a ∷ p) (b ∷ t) = nat_beq a b && starts_with p t

unfoldable pub ends_with : Text → Text → Bool
ends_with p t = text_beq (drop (length t - length p) t) p
