-- ===== src/ProjectFile.antt =====
-- crates/runtimed/src/project_file.rs, and crates/notebook/src/project_file.rs, whose search is the
-- same text: the project file that is closest to a notebook. A path is the list of its components, the
-- last one first, so the root is the empty list; `exists` says which paths exist.
pub mod Closest
mod Tests
use runt.Prelude.{
  String, Bool, true, false, not, ◌&&◌, ◌||◌, Option, none, some, List, [], ◌∷◌, PartialEq,
  string_eq, ◌==◌, contains, if◌then◌else◌, ◌≡◌, ◌↔◌, refl, arith,
}

pub data ProjectFileKind : Type 0 where
  pyproject_toml pixi_toml environment_yml : ProjectFileKind

abbrev pub FilePath : Type 0
FilePath = List String

pub record DetectedProjectFile : Type 0 where
  pub path : FilePath
  pub kind : ProjectFileKind

abbrev pub kind_beq : ProjectFileKind → ProjectFileKind → Bool
kind_beq pyproject_toml pyproject_toml = true
kind_beq pixi_toml pixi_toml = true
kind_beq environment_yml environment_yml = true
kind_beq _ _ = false

pub kind_beq_iff : (j k : ProjectFileKind) → (kind_beq j k ≡ true) ↔ (j ≡ k)
kind_beq_iff j k = (λ h. ground arith, λ h. ground arith)

instance abbrev pub kind_eq : PartialEq ProjectFileKind
kind_eq = record { same = kind_beq; same_iff = kind_beq_iff }

abbrev pub path_beq : FilePath → FilePath → Bool
path_beq [] [] = true
path_beq (a ∷ p) (b ∷ q) = a == b && path_beq p q
path_beq _ _ = false

unfoldable pub to_env_source : DetectedProjectFile → String
to_env_source f = elim f.kind [
  | pyproject_toml ↦ "uv:pyproject"
  | pixi_toml ↦ "conda:pixi"
  | environment_yml ↦ "conda:env_yml"
]

abbrev pub all_candidates : List (String × ProjectFileKind)
all_candidates =
    ("pyproject.toml", pyproject_toml)
    ∷ ("pixi.toml", pixi_toml)
    ∷ ("environment.yml", environment_yml)
    ∷ ("environment.yaml", environment_yml)
    ∷ []

abbrev pub all_kinds : List ProjectFileKind
all_kinds = pyproject_toml ∷ pixi_toml ∷ environment_yml ∷ []

abbrev pub parent_search :
    Option DetectedProjectFile → Bool → Option DetectedProjectFile → Option DetectedProjectFile
parent_search (some f) stops above = some f
parent_search none true above = none
parent_search none false above = above

module _ (exists : FilePath → Bool) (home_dir : Option FilePath) where
  -- The inner loop, at one directory.
  unfoldable pub check_level :
      List (String × ProjectFileKind) → List ProjectFileKind → FilePath → Option DetectedProjectFile
  unfolding contains
  check_level [] kinds current = none
  check_level ((filename, kind) ∷ candidates) kinds current =
      let rest = check_level candidates kinds current in
      if contains kinds kind && exists (filename ∷ current)
      then some (record { path = filename ∷ current; kind = kind })
      else rest

  abbrev pub is_home : FilePath → Bool
  is_home current = elim home_dir [ none ↦ false | some home ↦ path_beq current home ]

  abbrev pub stops_at : FilePath → Bool
  stops_at current = is_home current || exists (".git" ∷ current)

  -- The outer loop.
  unfoldable pub walk_up : List ProjectFileKind → FilePath → Option DetectedProjectFile
  unfolding check_level
  walk_up kinds [] = parent_search (check_level all_candidates kinds []) (stops_at []) none
  walk_up kinds (c ∷ parent) =
      parent_search (check_level all_candidates kinds (c ∷ parent)) (stops_at (c ∷ parent))
        (walk_up kinds parent)

  unfoldable pub find_nearest_project_file :
      (FilePath → Bool) → FilePath → List ProjectFileKind → Option DetectedProjectFile
  unfolding walk_up
  find_nearest_project_file is_file [] kinds = if is_file [] then none else walk_up kinds []
  find_nearest_project_file is_file (c ∷ parent) kinds =
      if is_file (c ∷ parent) then walk_up kinds parent else walk_up kinds (c ∷ parent)

  unfoldable pub detect_project_file : (FilePath → Bool) → FilePath → Option DetectedProjectFile
  unfolding find_nearest_project_file
  detect_project_file is_file notebook_path =
      find_nearest_project_file is_file notebook_path all_kinds
