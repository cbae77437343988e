-- ===== src/Prelude/Map.antt =====
-- Dictionaries (`HashMap`, `BTreeMap`): a list of entries, with the laws of each operation in the
-- form of a conditional. A key stands at most once after any `insert`, as `remove` drops them all.
use runt.Prelude.Tests.{if◌then◌else◌}
use runt.Prelude.Equality.{PartialEq, ◌==◌}
use mathlib.Core.Path.{◌≡◌, refl}
use mathlib.Core.Bool.{Bool}
use mathlib.Core.List.{List, [], ◌∷◌}
use mathlib.Core.Option.{Option, none, some}
use native.Mathlib.Omega.{arith}

abbrev pub Map {ℓ} : Type ℓ → Type ℓ → Type ℓ
Map K V = List (K × V)

module _ {ℓ} {K V : Type ℓ} where
  -- `retain(|k, v| p(k, v))`.
  unfoldable pub retain_entries : (K → V → Bool) → Map K V → Map K V
  retain_entries p [] = []
  retain_entries p ((k, v) ∷ m) = if p k v then (k, v) ∷ retain_entries p m else retain_entries p m

module _ {ℓ} {K V : Type ℓ} ⦃e : PartialEq K⦄ where
  -- `get(k).cloned()`.
  unfoldable pub get : K → Map K V → Option V
  get k [] = none
  get k ((j, v) ∷ m) = if j == k then some v else get k m

  unfoldable pub remove : K → Map K V → Map K V
  remove k [] = []
  remove k ((j, v) ∷ m) = if j == k then remove k m else (j, v) ∷ remove k m

  unfoldable pub insert : K → V → Map K V → Map K V
  unfolding remove
  insert k v m = (k, v) ∷ remove k m

  pub get-remove : (k j : K) (m : Map K V) → get k (remove j m) ≡ (if j == k then none else get k m)
  unfolding get remove
  get-remove k j [] = ground arith
  get-remove k j ((i, v) ∷ m) =
      ground (arith, get-remove k j m, e.same_iff i j, e.same_iff i k, e.same_iff j k)

  pub get-insert :
      (k j : K) (v : V) (m : Map K V) → get k (insert j v m) ≡ (if j == k then some v else get k m)
  unfolding get insert
  get-insert k j v m = ground (arith, get-remove k j m)

  -- A filter on the keys alone.
  pub get-retain_entries :
      (p : K → Bool) (k : K) (m : Map K V)
      → get k (retain_entries (λ j _. p j) m) ≡ (if p k then get k m else none)
  unfolding get retain_entries
  get-retain_entries p k [] = ground arith
  get-retain_entries p k ((i, v) ∷ m) = ground (arith, get-retain_entries p k m, e.same_iff i k)

pub get-nil {ℓ} : {K V : Type ℓ} ⦃e : PartialEq K⦄ (k : K) → get {V = V} k [] ≡ none
unfolding get
get-nil k = refl

pub ruleset map_laws = (get-nil, get-remove, get-insert, get-retain_entries)
