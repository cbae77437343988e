-- ===== src/ProjectFile/Tests.antt =====
-- The search for a project file in a small tree.
use runt.Prelude.{Bool, ◌||◌, none, some, [], ◌∷◌, ◌≡◌, refl, contains, string_eq}
use runt.ProjectFile.{FilePath, pixi_toml, all_kinds, path_beq, walk_up, check_level}

-- A repository `p` with a pyproject.toml, and `p/sub` with a pixi.toml.
abbrev exists_test : FilePath → Bool
exists_test path =
    path_beq path ("pyproject.toml" ∷ "p" ∷ [])
    || path_beq path (".git" ∷ "p" ∷ [])
    || path_beq path ("pixi.toml" ∷ "sub" ∷ "p" ∷ [])

closest :
    walk_up exists_test none all_kinds ("deep" ∷ "sub" ∷ "p" ∷ [])
    ≡ some (record { path = "pixi.toml" ∷ "sub" ∷ "p" ∷ []; kind = pixi_toml })
unfolding walk_up check_level contains
closest = refl
