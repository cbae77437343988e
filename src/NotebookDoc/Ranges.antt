-- ===== src/NotebookDoc/Ranges.antt =====
-- Loops over a range of indices, and what they are when the indices are those of a list.
use runt.Prelude.{
  ℕ, zero, suc, ◌+◌, Bool, true, false, Option, none, some, List, [], ◌∷◌, if◌then◌else◌, map_some,
  length, get_elem?, ◌≡◌, refl, ap, ◌∙◌, arith,
}
use runt.Prelude.Positions.{position, filter_map}

-- `for i in start..start + n`, that returns the first index that passes.
abbrev pub find_in : (ℕ → Bool) → ℕ → ℕ → Option ℕ
find_in p zero i = none
find_in p (suc n) i = let rest = find_in p n (suc i) in if p i then some i else rest

abbrev pub some_cons : {B : Type 0} → Option B → List B → List B
some_cons none bs = bs
some_cons (some b) bs = b ∷ bs

-- `(start..start + n).filter_map(f)`.
abbrev pub collect_in : {B : Type 0} → (ℕ → Option B) → ℕ → ℕ → List B
collect_in f zero i = []
collect_in f (suc n) i = some_cons (f i) (collect_in f n (suc i))

found_step :
    (b : Bool) (i : ℕ) (o : Option ℕ)
    → (if b then some i else map_some (λ j. suc i + j) o)
      ≡ map_some (λ j. i + j) (if b then some 0 else map_some suc o)
found_step true i o = let e : i ≡ i + 0 = omega arith in ap some e
found_step false i none = refl
found_step false i (some j) = let e : suc i + j ≡ i + suc j = omega arith in ap some e

some_cons-elim :
    {B : Type 0} (o : Option B) (bs : List B)
    → some_cons o bs ≡ (elim o [ none ↦ bs | some b ↦ b ∷ bs ])
some_cons-elim none bs = refl
some_cons-elim (some b) bs = refl

module _ {A : Type 0} where
  -- A function of an index that gives what another gives of the element there.
  abbrev pub Follows : {B : Type 0} → (ℕ → B) → (A → B) → List A → ℕ → Type 0
  Follows f g [] i = Unit
  Follows f g (x ∷ xs) i = (f i ≡ g x) × Follows f g xs (suc i)

  pub find_in-position :
      (p : ℕ → Bool) (q : A → Bool) (xs : List A) (i : ℕ)
      → Follows p q xs i
      → find_in p (length xs) i ≡ map_some (λ j. i + j) (position q xs)
  find_in-position p q [] i h = refl
  find_in-position p q (x ∷ xs) i h =
      ap (λ r. if p i then some i else r) (find_in-position p q xs (suc i) (h.1))
      ∙ ap (λ b. if b then some i else map_some (λ j. suc i + j) (position q xs)) (h.0)
      ∙ found_step (q x) i (position q xs)

  pub collect_in-filter_map :
      {B : Type 0} (f : ℕ → Option B) (g : A → Option B) (xs : List A) (i : ℕ)
      → Follows f g xs i
      → collect_in f (length xs) i ≡ filter_map g xs
  collect_in-filter_map f g [] i h = refl
  collect_in-filter_map f g (x ∷ xs) i h =
      ap (λ o. some_cons o (collect_in f (length xs) (suc i))) (h.0)
      ∙ ap (some_cons (g x)) (collect_in-filter_map f g xs (suc i) (h.1))
      ∙ some_cons-elim (g x) (filter_map g xs)

  Follows-from :
      {B : Type 0} (h : Option A → B) (ys xs : List A) (i : ℕ)
      → ((j : ℕ) → get_elem? ys (i + j) ≡ get_elem? xs j)
      → Follows (λ i. h (get_elem? ys i)) (λ x. h (some x)) xs i
  Follows-from h ys [] i e = tt
  Follows-from h ys (x ∷ xs) i e =
      let here : i ≡ i + 0 = omega arith in
      (
        ap h (ap (get_elem? ys) here ∙ e 0),
        Follows-from h ys xs (suc i) (λ j.
            let next : suc i + j ≡ i + suc j = omega arith in ap (get_elem? ys) next ∙ e (suc j)),
      )

  -- Any function of the element at an index follows.
  pub get_elem-Follows :
      {B : Type 0} (h : Option A → B) (xs : List A)
      → Follows (λ i. h (get_elem? xs i)) (λ x. h (some x)) xs 0
  get_elem-Follows h xs =
      Follows-from h xs xs 0 (λ j. let e : 0 + j ≡ j = omega arith in ap (get_elem? xs) e)
