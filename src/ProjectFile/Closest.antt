-- ===== src/ProjectFile/Closest.antt =====
-- The search for a project file: which one it finds, and when it finds none.
use runt.Prelude.{
  ℕ, ◌≤◌, ◌<◌, String, Bool, true, false, ◌&&◌, Option, none, some, List, ◌∷◌, ◌++◌, string_eq,
  contains, ◌≡◌, ◌⊎◌, length, drop, All,
}
use runt.ProjectFile.{
  ProjectFileKind, FilePath, DetectedProjectFile, kind_eq, all_candidates, check_level, stops_at,
}

module _ (exists : FilePath → Bool) (home_dir : Option FilePath)
    (kinds : List ProjectFileKind) where
  -- The first of the candidates that is asked for and stands in a directory.
  abbrev pub Preferred : List (String × ProjectFileKind) → FilePath → DetectedProjectFile → Type 0
  Preferred candidates dir f =
      (before : List (String × ProjectFileKind)) × (name : String) × (after : List
        (String × ProjectFileKind))
      × (candidates ≡ before ++ (name, f.kind) ∷ after)
      × (f.path ≡ name ∷ dir)
      × (contains kinds f.kind ≡ true)
      × (exists f.path ≡ true)
      × All (λ c. contains kinds c.1 && exists (c.0 ∷ dir) ≡ false) before

  abbrev pub Nothing : FilePath → Type 0
  Nothing dir = check_level exists home_dir all_candidates kinds dir ≡ none

  -- The search goes on above a directory.
  abbrev pub Passed : FilePath → Type 0
  Passed dir = Nothing dir × (stops_at exists home_dir dir ≡ false)

  abbrev pub FoundAt : FilePath → DetectedProjectFile → Type 0
  FoundAt start f =
      (n : ℕ) × (n ≤ length start)
      × ((k : ℕ) → k < n → Passed (drop k start))
      × Preferred all_candidates (drop n start) f

  abbrev pub Missed : FilePath → Type 0
  Missed start =
      (n : ℕ) × (n ≤ length start)
      × ((k : ℕ) → k < n → Passed (drop k start))
      × Nothing (drop n start)
      × ((stops_at exists home_dir (drop n start) ≡ true) ⊎ (n ≡ length start))

  abbrev pub Outcome : FilePath → Option DetectedProjectFile → Type 0
  Outcome start none = Missed start
  Outcome start (some f) = FoundAt start f
