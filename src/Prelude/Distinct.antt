-- ===== src/Prelude/Distinct.antt =====
-- Lists in which nothing stands twice, by the Boolean test `contains`.
use mathlib.Core.Path.{◌≡◌, refl}
use mathlib.Core.Bool.{Bool, true, false}
use mathlib.Core.Option.{none}
use mathlib.Core.List.{List, [], ◌∷◌, ◌++◌}
use native.Mathlib.Omega.{arith}
use runt.Prelude.Tests.{if◌then◌else◌}
use runt.Prelude.Lists.{retain}
use runt.Prelude.Equality.{PartialEq, contains}
use runt.Prelude.Map.{Map, retain_entries, get, remove}

module _ {ℓ} {A : Type ℓ} ⦃e : PartialEq A⦄ where
  abbrev pub Distinct : List A → Type 0
  Distinct [] = Unit {0}
  Distinct (x ∷ xs) = (contains xs x ≡ false) × Distinct xs

  pub contains-append :
      (xs ys : List A) (a : A)
      → contains (xs ++ ys) a ≡ (if contains xs a then true else contains ys a)
  unfolding contains
  contains-append [] ys a = refl
  contains-append (x ∷ xs) ys a = ground (arith, contains-append xs ys a)

  pub Distinct-snoc :
      (xs : List A) (a : A) → Distinct xs → contains xs a ≡ false → Distinct (xs ++ a ∷ [])
  unfolding contains
  Distinct-snoc [] a d h = (refl, tt)
  Distinct-snoc (x ∷ xs) a d h =
      ground (
        arith,
        Distinct-snoc xs a d.1,
        contains-append xs (a ∷ []) x,
        e.same_iff x a,
        e.same_iff a x,
      )

  pub contains-retain :
      (p : A → Bool) (xs : List A) (a : A)
      → contains (retain p xs) a ≡ (if p a then contains xs a else false)
  unfolding contains retain
  contains-retain p [] a = ground arith
  contains-retain p (x ∷ xs) a = ground (arith, contains-retain p xs a, e.same_iff x a)

  pub Distinct-retain : (p : A → Bool) (xs : List A) → Distinct xs → Distinct (retain p xs)
  unfolding retain
  Distinct-retain p [] d = tt
  Distinct-retain p (x ∷ xs) d = ground (arith, Distinct-retain p xs d.1, contains-retain p xs x)

-- The values of a dictionary.
abbrev pub values {ℓ} : {K V : Type ℓ} → Map K V → List V
values [] = []
values ((k, v) ∷ m) = v ∷ values m

module _ {ℓ} {K V : Type ℓ} ⦃e : PartialEq V⦄ where
  pub values-retain_entries :
      (p : V → Bool) (m : Map K V) → values (retain_entries (λ _ v. p v) m) ≡ retain p (values m)
  unfolding retain_entries retain
  values-retain_entries p [] = refl
  values-retain_entries p ((k, v) ∷ m) = ground (arith, values-retain_entries p m)

module _ {ℓ} {K V : Type ℓ} ⦃d : PartialEq K⦄ ⦃e : PartialEq V⦄ where
  pub contains-remove :
      (i : K) (v : V) (m : Map K V)
      → contains (values m) v ≡ false
      → contains (values (remove i m)) v ≡ false
  unfolding contains remove
  contains-remove i v [] h = refl
  contains-remove i v ((j, w) ∷ m) h = ground (arith, contains-remove i v m)

  pub Distinct-remove : (i : K) (m : Map K V) → Distinct (values m) → Distinct (values (remove i m))
  unfolding remove
  Distinct-remove i [] h = tt
  Distinct-remove i ((j, v) ∷ m) h = ground (arith, Distinct-remove i m h.1, contains-remove i v m)

-- The keys of a dictionary.
abbrev pub keys {ℓ} : {K V : Type ℓ} → Map K V → List K
keys [] = []
keys ((k, v) ∷ m) = k ∷ keys m

module _ {ℓ} {K V : Type ℓ} ⦃e : PartialEq K⦄ where
  pub get_absent : (k : K) (m : Map K V) → contains (keys m) k ≡ false → get k m ≡ none
  unfolding get contains
  get_absent k [] h = refl
  get_absent k ((j, v) ∷ m) h = ground (arith, get_absent k m)

  pub remove_absent : (k : K) (m : Map K V) → get k m ≡ none → remove k m ≡ m
  unfolding get remove
  remove_absent k [] h = refl
  remove_absent k ((j, v) ∷ m) h = ground (arith, remove_absent k m)
