-- ===== src/Prelude/Positions.antt =====
-- Lists by their places: the first element of a kind, and changes at an index.
use Prim.Native.Nat.{ℕ, zero, suc}
use mathlib.Core.Path.{◌≡◌, refl, ap, ◌∙◌}
use mathlib.Core.Logic.{inl, inr}
use mathlib.Core.List.{List, [], ◌∷◌, ◌++◌}
use mathlib.Core.Option.{Option, none, some}
use mathlib.Core.Bool.{Bool, true, false}
use native.Mathlib.Omega.{arith}
use runt.Prelude.Tests.{if◌then◌else◌, Bool-cases, map_some}
use runt.Prelude.Lists.{length, get_elem?, All}

-- The first place where a test holds.
abbrev pub position {ℓ} : {A : Type ℓ} → (A → Bool) → List A → Option ℕ
position p [] = none
position p (x ∷ xs) = let rest = map_some suc (position p xs) in if p x then some zero else rest

-- `&mut v[i]`.
abbrev pub change_at {ℓ} : {A : Type ℓ} → (A → A) → ℕ → List A → List A
change_at f i [] = []
change_at f zero (x ∷ xs) = f x ∷ xs
change_at f (suc i) (x ∷ xs) = x ∷ change_at f i xs

-- `Vec::insert`.
abbrev pub insert_at {ℓ} : {A : Type ℓ} → ℕ → A → List A → List A
insert_at zero a xs = a ∷ xs
insert_at (suc i) a [] = a ∷ []
insert_at (suc i) a (x ∷ xs) = x ∷ insert_at i a xs

-- `Vec::remove`.
abbrev pub remove_at {ℓ} : {A : Type ℓ} → ℕ → List A → List A
remove_at i [] = []
remove_at zero (x ∷ xs) = xs
remove_at (suc i) (x ∷ xs) = x ∷ remove_at i xs

-- `filter_map`.
abbrev pub filter_map {ℓ κ} : {A : Type ℓ} {B : Type κ} → (A → Option B) → List A → List B
filter_map f [] = []
filter_map f (x ∷ xs) = elim (f x) [ none ↦ filter_map f xs | some y ↦ y ∷ filter_map f xs ]

module _ {ℓ} {A : Type ℓ} where
  -- The first element that passes stands at an index.
  abbrev pub Found : (A → Bool) → List A → ℕ → Type ℓ
  Found p xs i =
      (before : List A) × (a : A) × (after : List A) × (xs ≡ before ++ a ∷ after)
      × (length before ≡ i)
      × (p a ≡ true)
      × All (λ x. p x ≡ false) before

  position_go :
      (p : A → Bool) (x : A) (xs : List A) (o : Option ℕ) (i : ℕ)
      → p x ≡ false
      → ((j : ℕ) → o ≡ some j → Found p xs j)
      → map_some suc o ≡ some i
      → Found p (x ∷ xs) i
  position_go p x xs none i h rest e = ground arith
  position_go p x xs (some j) i h rest e =
      let r = rest j refl in
      (x ∷ r.0, r.1, r.2, ap (◌∷◌ x) (r.3), ground (arith, r.4, e), r.5, (h, r.6))

  pub position-Found : (p : A → Bool) (xs : List A) (i : ℕ) → position p xs ≡ some i → Found p xs i
  position-Found p [] i h = ground arith
  position-Found p (x ∷ xs) i h = elim (Bool-cases (p x)) [
    | inl here ↦ ([], x, xs, refl, ground (arith, h, here), here, tt)
    | inr later ↦
        position_go p x xs (position p xs) i later (position-Found p xs) (ground (arith, h, later))
  ]

  pub position_absent :
      (p : A → Bool) (xs : List A) → position p xs ≡ none → All (λ x. p x ≡ false) xs
  position_absent p [] h = tt
  position_absent p (x ∷ xs) h = (ground (arith, h), position_absent p xs (ground (arith, h)))

  pub position-none :
      (p : A → Bool) (xs : List A) → All (λ x. p x ≡ false) xs → position p xs ≡ none
  position-none p [] h = refl
  position-none p (x ∷ xs) h = ground (arith, position-none p xs (h.1), h.0)

  pub position_first :
      (p : A → Bool) (before : List A) (a : A) (after : List A)
      → All (λ x. p x ≡ false) before
      → p a ≡ true
      → position p (before ++ a ∷ after) ≡ some (length before)
  position_first p [] a after b h = ground (arith, h)
  position_first p (x ∷ before) a after b h =
      ground (arith, position_first p before a after (b.1) h, b.0)

  pub change_at-append :
      (f : A → A) (before : List A) (a : A) (after : List A)
      → change_at f (length before) (before ++ a ∷ after) ≡ before ++ f a ∷ after
  change_at-append f [] a after = refl
  change_at-append f (x ∷ before) a after = ap (◌∷◌ x) (change_at-append f before a after)

  pub remove_at-append :
      (before : List A) (a : A) (after : List A)
      → remove_at (length before) (before ++ a ∷ after) ≡ before ++ after
  remove_at-append [] a after = refl
  remove_at-append (x ∷ before) a after = ap (◌∷◌ x) (remove_at-append before a after)

  pub insert_at-append :
      (before : List A) (a : A) (after : List A)
      → insert_at (length before) a (before ++ after) ≡ before ++ a ∷ after
  insert_at-append [] a after = refl
  insert_at-append (x ∷ before) a after = ap (◌∷◌ x) (insert_at-append before a after)

  pub get_elem-append :
      (before : List A) (a : A) (after : List A)
      → get_elem? (before ++ a ∷ after) (length before) ≡ some a
  get_elem-append [] a after = refl
  get_elem-append (x ∷ before) a after = get_elem-append before a after

-- The same by recursion on the list: what is done to the first element that passes.
module _ {ℓ} {A : Type ℓ} (p : A → Bool) where
  abbrev pub find : List A → Option A
  find [] = none
  find (x ∷ xs) = if p x then some x else find xs

  abbrev pub change_first : (A → A) → List A → List A
  change_first f [] = []
  change_first f (x ∷ xs) = if p x then f x ∷ xs else x ∷ change_first f xs

  abbrev pub remove_first : List A → List A
  remove_first [] = []
  remove_first (x ∷ xs) = if p x then xs else x ∷ remove_first xs

  -- What is done at an index that may be missing.
  abbrev pub at_index : {B : Type ℓ} → Option ℕ → B → (ℕ → B) → B
  at_index none b f = b
  at_index (some i) b f = f i

  at_index-step :
      {B : Type ℓ} (b : Bool) (o : Option ℕ) (z : B) (f : ℕ → B)
      → at_index (if b then some 0 else map_some suc o) z f
        ≡ (if b then f 0 else at_index o z (λ i. f (suc i)))
  at_index-step true o z f = refl
  at_index-step false none z f = refl
  at_index-step false (some i) z f = refl

  at_index-cons :
      (o : Option ℕ) (x : A) (z : List A) (f : ℕ → List A)
      → at_index o (x ∷ z) (λ i. x ∷ f i) ≡ x ∷ at_index o z f
  at_index-cons none x z f = refl
  at_index-cons (some i) x z f = refl

  pub position-get_elem :
      (xs : List A) → at_index (position p xs) none (λ i. get_elem? xs i) ≡ find xs
  position-get_elem [] = refl
  position-get_elem (x ∷ xs) =
      at_index-step (p x) (position p xs) none (λ i. get_elem? (x ∷ xs) i)
      ∙ ap (λ r. if p x then some x else r) (position-get_elem xs)

  pub position-change_at :
      (f : A → A) (xs : List A)
      → at_index (position p xs) xs (λ i. change_at f i xs) ≡ change_first f xs
  position-change_at f [] = refl
  position-change_at f (x ∷ xs) =
      at_index-step (p x) (position p xs) (x ∷ xs) (λ i. change_at f i (x ∷ xs))
      ∙ ap (λ r. if p x then f x ∷ xs else r)
          (at_index-cons (position p xs) x xs (λ i. change_at f i xs)
            ∙ ap (◌∷◌ x) (position-change_at f xs))

  pub position-remove_at :
      (xs : List A) → at_index (position p xs) xs (λ i. remove_at i xs) ≡ remove_first xs
  position-remove_at [] = refl
  position-remove_at (x ∷ xs) =
      at_index-step (p x) (position p xs) (x ∷ xs) (λ i. remove_at i (x ∷ xs))
      ∙ ap (λ r. if p x then xs else r)
          (at_index-cons (position p xs) x xs (λ i. remove_at i xs)
            ∙ ap (◌∷◌ x) (position-remove_at xs))
