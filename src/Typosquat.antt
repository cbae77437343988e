-- ===== src/Typosquat.antt =====
-- crates/notebook/src/typosquat.rs: the warning about a package whose name is close to a popular one.
-- The edit distance (strsim), `to_lowercase` and `trim` are parameters.
mod Popular
pub mod Nearest
mod Tests
pub use Popular.{popular_packages}
use Prim.Native.Char.{Char, code}
use Prim.Native.String.{len}
use runt.Prelude.{
  ℕ, String, Bool, true, false, not, ◌&&◌, ◌||◌, Option, none, some, List, [], ◌∷◌, ◌==◌, string_eq,
  nat_eq, ltb, leb, if◌then◌else◌, contains, ◌≡◌,
}

pub record TyposquatWarning : Type 0 where
  pub package_ : String
  pub similar_to : String
  pub distance : ℕ

-- The distance of two names, and what the standard library makes of one.
pub record Names : Type 0 where
  pub levenshtein : String → String → ℕ
  pub levenshtein_zero : (a b : String) → levenshtein a b ≡ 0 → a ≡ b
  pub to_lowercase : String → String
  pub trim : String → String

-- `> < = ! ~ [ ; @`.
abbrev pub is_separator : Char → Bool
is_separator c = contains (62 ∷ 60 ∷ 61 ∷ 33 ∷ 126 ∷ 91 ∷ 59 ∷ 64 ∷ []) (code c)

abbrev pub first_part : String → String
first_part String.[] = ""
first_part (String.◌∷◌ c cs) =
    let rest = first_part cs in if is_separator c then "" else String.◌∷◌ c rest

-- `_` and `.` become `-`.
abbrev pub dashed : String → String
dashed String.[] = ""
dashed (String.◌∷◌ c cs) = String.◌∷◌ (if code c == 95 || code c == 46 then "-" else c) (dashed cs)

abbrev pub Best : Type 0
Best = Option (String × ℕ)

abbrev pub is_better : ℕ → Best → Bool
is_better distance none = true
is_better distance (some (popular, best)) = ltb distance best

abbrev pub warning_for : String → Best → Option TyposquatWarning
warning_for pkg_name none = none
warning_for pkg_name (some (popular, distance)) =
    some (record { package_ = pkg_name; similar_to = popular; distance = distance })

module _ (names : Names) where
  unfoldable pub extract_package_name : String → String
  extract_package_name dep = names.trim (first_part dep)

  unfoldable pub normalize_name : String → String
  normalize_name name = dashed (names.to_lowercase name)

  -- The loop that skips a popular package.
  unfoldable pub is_popular : String → List String → Bool
  unfolding normalize_name
  is_popular normalized [] = false
  is_popular normalized (popular ∷ rest) =
      normalize_name popular == normalized || is_popular normalized rest

  unfoldable pub threshold_for : String → ℕ
  threshold_for normalized =
      if leb (len normalized) 3 then 1 else if leb (len normalized) 6 then 2 else 3

  abbrev pub distance_to : String → String → ℕ
  distance_to normalized popular = names.levenshtein normalized (normalize_name popular)

  -- One turn of the loop for the best match.
  unfoldable pub consider : String → ℕ → String → Best → Best
  unfolding normalize_name
  consider normalized threshold popular best =
      let distance = distance_to normalized popular in
      if distance == 0
      then best
      else if leb distance threshold && is_better distance best
      then some (popular, distance)
      else best

  unfoldable pub best_match : String → ℕ → List String → Best → Best
  unfolding consider
  best_match normalized threshold [] best = best
  best_match normalized threshold (popular ∷ rest) best =
      best_match normalized threshold rest (consider normalized threshold popular best)

  unfoldable pub check_typosquat : String → Option TyposquatWarning
  unfolding extract_package_name is_popular threshold_for best_match
  check_typosquat package_ =
      let pkg_name = extract_package_name package_ in
      let normalized = normalize_name pkg_name in
      if is_popular normalized popular_packages
      then none
      else warning_for pkg_name
          (best_match normalized (threshold_for normalized) popular_packages none)

  unfoldable pub check_packages : List String → List TyposquatWarning
  unfolding check_typosquat
  check_packages [] = []
  check_packages (pkg ∷ packages) =
      let rest = check_packages packages in
      elim (check_typosquat pkg) [ none ↦ rest | some w ↦ w ∷ rest ]
