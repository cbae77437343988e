-- ===== src/EnvSync/Drift.antt =====
-- Drift of the metadata from what a kernel was launched with: when there is none, and what a kernel that
-- was just launched is told.
use runt.Prelude.{
  String, Bool, true, false, not, ◌&&◌, Option, none, some, List, [], ◌∷◌, ◌++◌, ◌==◌, string_eq,
  is_some, is_empty, if◌then◌else◌, map_some, unwrap_or, contains, ◌≡◌, ◌↔◌, refl, arith,
  Bool-cases, inl, inr, beq_refl, beq→eq, subst,
}
use runt.Prelude.Distinct.{contains-retain}
use runt.Prelude.Structures.{list_eq, option_eq, bool_eq}
use runt.Prelude.Options.{and_then}
use runt.NotebookMetadata.{DenoMetadata, CondaInlineMetadata, NotebookMetadataSnapshot}
use runt.EnvSync.{
  FilePath, DenoLaunchedConfig, LaunchedEnvConfig, missing_in, deps_diff, uv_dependencies,
  conda_dependencies, conda_channels_of, have_channels_changed, has_deno_changed, launched_deno,
  differs, diff_unless_empty, compute_env_sync_diff, get_inline_uv_deps, get_inline_conda_deps,
  get_inline_conda_channels, config_of_source, build_launched_config, non_empty,
}

empty_contains : (xs : List String) (x : String) → is_empty xs ≡ true → contains xs x ≡ false
unfolding contains
empty_contains [] x h = refl
empty_contains (y ∷ ys) x h = ground (arith, h)

contains_empty : (xs : List String) → ((x : String) → contains xs x ≡ false) → is_empty xs ≡ true
unfolding contains
contains_empty [] h = refl
contains_empty (y ∷ ys) h = ground (arith, h y, beq_refl y)

-- A launch that had dependencies has the same ones as the metadata, up to order.
abbrev pub SameDeps : Option (List String) → List String → Type 0
SameDeps none current = Unit
SameDeps (some launched) current = (x : String) → contains launched x ≡ contains current x

contains-missing_in :
    (other deps : List String) (x : String)
    → contains (missing_in other deps) x ≡ (contains deps x && not (contains other x))
contains-missing_in other deps x =
    ground (arith, contains-retain (λ dep. not (contains other dep)) deps x)

deps_diff-none :
    (launched : Option (List String)) (current : List String)
    → is_empty (deps_diff launched current).0 ≡ true
    → is_empty (deps_diff launched current).1 ≡ true
    → SameDeps launched current
deps_diff-none none current a r = tt
deps_diff-none (some launched) current a r = λ x. ground (
  arith,
  empty_contains (missing_in launched current) x a,
  empty_contains (missing_in current launched) x r,
  contains-missing_in launched current x,
  contains-missing_in current launched x,
)

deps_diff-same :
    (launched : Option (List String)) (current : List String)
    → SameDeps launched current
    → (is_empty (deps_diff launched current).0 ≡ true)
      × (is_empty (deps_diff launched current).1 ≡ true)
deps_diff-same none current h = (refl, refl)
deps_diff-same (some launched) current h = (
  contains_empty (missing_in launched current)
      (λ x. ground (arith, h x, contains-missing_in launched current x)),
  contains_empty (missing_in current launched)
      (λ x. ground (arith, h x, contains-missing_in current launched x)),
)

is_empty-append : (xs ys : List String) → is_empty (xs ++ ys) ≡ (is_empty xs && is_empty ys)
is_empty-append [] ys = refl
is_empty-append (x ∷ xs) ys = refl

-- The channels of a Conda launch are those of the metadata, in order.
abbrev pub SameChannels : Option (List String) → Option (List String) → List String → Type 0
SameChannels (some deps) (some launched) current = launched ≡ current
SameChannels (some deps) none current = Unit
SameChannels none launched current = Unit

-- A launch with Deno settings has each of those of the metadata, where npm imports are flexible unless
-- it says otherwise.
abbrev pub SameDeno : Option DenoLaunchedConfig → Option DenoMetadata → Type 0
SameDeno none current = Unit
SameDeno (some launched) none = ⊥
SameDeno (some launched) (some current) =
    (launched.permissions ≡ current.permissions)
    × (launched.import_map ≡ current.import_map)
    × (launched.config ≡ current.config)
    × (launched.flexible_npm_imports ≡ unwrap_or current.flexible_npm_imports true)

abbrev pub IsInSync : LaunchedEnvConfig → NotebookMetadataSnapshot → Type 0
IsInSync launched current =
    SameDeps launched.uv_deps (uv_dependencies current)
    × SameDeps launched.conda_deps (conda_dependencies current)
    × SameChannels launched.conda_deps launched.conda_channels (conda_channels_of current)
    × SameDeno launched.deno_config current.runt.deno

channels_iff :
    (deps launched : Option (List String)) (current : List String)
    → ((is_some deps && (elim launched [ none ↦ false | some cs ↦ not (cs == current) ])) ≡ false)
      ↔ SameChannels deps launched current
channels_iff none launched current = (λ h. tt, λ h. refl)
channels_iff (some deps) none current = (λ h. tt, λ h. refl)
channels_iff (some deps) (some cs) current = (
  λ h. beq→eq cs current (ground (arith, h)),
  λ h. ground (arith, subst (λ x. (cs == x) ≡ true) h (beq_refl cs)),
)

differs_iff :
    (a b : DenoLaunchedConfig)
    → (differs a b ≡ false) ↔ (
        (a.permissions ≡ b.permissions)
        × (a.import_map ≡ b.import_map)
        × (a.config ≡ b.config)
        × (a.flexible_npm_imports ≡ b.flexible_npm_imports))
differs_iff a b = (
  λ h. (
    beq→eq a.permissions b.permissions (ground (arith, h)),
    beq→eq a.import_map b.import_map (ground (arith, h)),
    beq→eq a.config b.config (ground (arith, h)),
    beq→eq a.flexible_npm_imports b.flexible_npm_imports (ground (arith, h)),
  ),
  λ (p, i, c, f). ground (
    arith,
    subst (λ x. (a.permissions == x) ≡ true) p (beq_refl a.permissions),
    subst (λ x. (a.import_map == x) ≡ true) i (beq_refl a.import_map),
    subst (λ x. (a.config == x) ≡ true) c (beq_refl a.config),
    subst (λ x. (a.flexible_npm_imports == x) ≡ true) f (beq_refl a.flexible_npm_imports),
  ),
)

deno_iff :
    (launched : Option DenoLaunchedConfig) (current : Option DenoMetadata)
    → (has_deno_changed launched current ≡ false) ↔ SameDeno launched current
deno_iff none current = (λ h. tt, λ h. refl)
deno_iff (some launched) none = (λ h. ground (arith, h), λ h. absurd h)
deno_iff (some launched) (some current) = differs_iff launched (launched_deno current)

diff_unless_empty-none :
    (uv conda uv' conda' : List String) (channels deno : Bool)
    → (diff_unless_empty (uv ++ conda) (uv' ++ conda') channels deno ≡ none) ↔ (
        (is_empty uv ≡ true)
        × (is_empty conda ≡ true)
        × (is_empty uv' ≡ true)
        × (is_empty conda' ≡ true)
        × (channels ≡ false)
        × (deno ≡ false))
diff_unless_empty-none uv conda uv' conda' channels deno = (
  λ h. ground (arith, h, is_empty-append uv conda, is_empty-append uv' conda'),
  λ h. ground (arith, h, is_empty-append uv conda, is_empty-append uv' conda'),
)

-- No drift is reported exactly when a launch with dependencies has the same ones as the metadata, up
-- to order and repetition, the same channels in order if it had some, and the same Deno settings.
pub compute_env_sync_diff-none :
    (launched : LaunchedEnvConfig) (current : NotebookMetadataSnapshot)
    → (compute_env_sync_diff launched current ≡ none) ↔ IsInSync launched current
unfolding compute_env_sync_diff
compute_env_sync_diff-none launched current =
    let uv = deps_diff launched.uv_deps (uv_dependencies current) in
    let conda = deps_diff launched.conda_deps (conda_dependencies current) in
    let empty =
      diff_unless_empty-none uv.0 conda.0 uv.1 conda.1 (have_channels_changed launched current)
        (has_deno_changed launched.deno_config current.runt.deno) in
    (
      λ h.
          let (a, b, c, d, e, f) = empty.0 h in
          (
            deps_diff-none launched.uv_deps (uv_dependencies current) a c,
            deps_diff-none launched.conda_deps (conda_dependencies current) b d,
            (channels_iff launched.conda_deps launched.conda_channels (conda_channels_of current)).0
                e,
            (deno_iff launched.deno_config current.runt.deno).0 f,
          ),
      λ (u, v, e, f).
          let (a, c) = deps_diff-same launched.uv_deps (uv_dependencies current) u in
          let (b, d) = deps_diff-same launched.conda_deps (conda_dependencies current) v in
          empty.1 (
            a,
            b,
            c,
            d,
            (channels_iff launched.conda_deps launched.conda_channels (conda_channels_of current)).1
                e,
            (deno_iff launched.deno_config current.runt.deno).1 f,
          ),
    )

-- What a launch with an environment's source takes as its inline dependencies.
abbrev pub inline_by : Bool → Bool → NotebookMetadataSnapshot → Option (List String)
inline_by is_uv is_conda s =
    if is_uv then get_inline_uv_deps s else if is_conda then get_inline_conda_deps s else none

abbrev pub inline_of : String → NotebookMetadataSnapshot → Option (List String)
inline_of env_source s = inline_by (env_source == "uv:inline") (env_source == "conda:inline") s

missing_self : (deps : List String) → missing_in deps deps ≡ []
missing_self deps =
    is_empty-nil (missing_in deps deps)
      (contains_empty (missing_in deps deps) (λ x. ground (arith, contains-missing_in deps deps x)))
  where
    is_empty-nil : (xs : List String) → is_empty xs ≡ true → xs ≡ []
    is_empty-nil [] h = refl
    is_empty-nil (x ∷ xs) h = ground (arith, h)

non_empty-map :
    {A : Type 0} (f : A → List String) (o : Option A)
    → deps_diff (and_then o (λ a. non_empty (f a))) (unwrap_or (map_some f o) []) ≡ ([], [])
non_empty-map f none = refl
non_empty-map f (some a) = elim (Bool-cases (is_empty (f a))) [
  | inl e ↦ rw e refl
  | inr e ↦ rw (e, missing_self) refl
]

deno_unchanged : (deno : DenoMetadata) → differs (launched_deno deno) (launched_deno deno) ≡ false
deno_unchanged deno = ground (
  arith,
  beq_refl deno.permissions,
  beq_refl deno.import_map,
  beq_refl deno.config,
  beq_refl (unwrap_or deno.flexible_npm_imports true),
)

deno_launched :
    (is_deno : Bool) (o : Option DenoMetadata)
    → has_deno_changed (if is_deno then map_some launched_deno o else none) o ≡ false
deno_launched false o = refl
deno_launched true none = refl
deno_launched true (some deno) = deno_unchanged deno

-- Whether a launch takes channels other than those of the metadata: with dependencies and no channels
-- it takes the default one.
abbrev pub takes_default : String → NotebookMetadataSnapshot → Bool
takes_default env_source s =
    not (env_source == "uv:inline")
    && env_source == "conda:inline"
    && is_some (get_inline_conda_deps s)
    && is_empty (conda_channels_of s)

channels_launched :
    (o : Option CondaInlineMetadata)
    → (is_some (and_then o (λ c. non_empty c.dependencies))
        && not (
            unwrap_or (and_then o (λ c. non_empty c.channels)) ("conda-forge" ∷ [])
            == unwrap_or (map_some (λ (c : CondaInlineMetadata). c.channels) o) []))
      ≡ (is_some (and_then o (λ c. non_empty c.dependencies))
          && is_empty (unwrap_or (map_some (λ (c : CondaInlineMetadata). c.channels) o) []))
channels_launched none = refl
channels_launched (some c) = go c.channels
  where
    go :
        (channels : List String)
        → (is_some (non_empty c.dependencies)
            && not (unwrap_or (non_empty channels) ("conda-forge" ∷ []) == channels))
          ≡ (is_some (non_empty c.dependencies) && is_empty channels)
    go [] = refl
    go (x ∷ xs) = ground (arith, beq_refl (x ∷ xs))

diff-parts :
    (launched : LaunchedEnvConfig) (current : NotebookMetadataSnapshot) (c : Bool)
    → deps_diff launched.uv_deps (uv_dependencies current) ≡ ([], [])
    → deps_diff launched.conda_deps (conda_dependencies current) ≡ ([], [])
    → have_channels_changed launched current ≡ c
    → has_deno_changed launched.deno_config current.runt.deno ≡ false
    → compute_env_sync_diff launched current ≡ diff_unless_empty [] [] c false
unfolding compute_env_sync_diff
diff-parts launched current c uv conda channels deno = rw (uv, conda, channels, deno) refl

abbrev pub config_by :
    String
    → Bool
    → Bool
    → Bool
    → NotebookMetadataSnapshot
    → Option FilePath
    → Option FilePath
    → LaunchedEnvConfig
config_by launch_id is_deno is_uv is_conda s venv_path python_path =
    record (config_of_source is_uv is_conda (inline_by is_uv is_conda s) (some s) venv_path
      python_path) {
        deno_config = if is_deno then map_some launched_deno s.runt.deno else none;
        launch_id = some launch_id;
      }

launched_parts :
    (launch_id : String) (is_deno is_uv is_conda : Bool) (s : NotebookMetadataSnapshot)
    (v p : Option FilePath)
    → compute_env_sync_diff (config_by launch_id is_deno is_uv is_conda s v p) s
      ≡ diff_unless_empty [] []
          (not is_uv
            && is_conda
            && is_some (get_inline_conda_deps s)
            && is_empty (conda_channels_of s))
          false
unfolding get_inline_uv_deps get_inline_conda_deps get_inline_conda_channels
launched_parts i d true b s v p =
    diff-parts (config_by i d true b s v p) s false (non_empty-map (λ u. u.dependencies) s.runt.uv)
      refl refl (deno_launched d s.runt.deno)
launched_parts i d false true s v p =
    diff-parts (config_by i d false true s v p) s _ refl
      (non_empty-map (λ c. c.dependencies) s.runt.conda) (channels_launched s.runt.conda)
      (deno_launched d s.runt.deno)
launched_parts i d false false s v p =
    diff-parts (config_by i d false false s v p) s false refl refl refl
      (deno_launched d s.runt.deno)

-- A kernel that was just launched is in sync with the metadata it was launched with, except one with
-- conda dependencies and no channels: it takes the default channel, and is told at once that the
-- channels have changed.
pub launch-diff :
    (launch_id kernel_type env_source : String) (s : NotebookMetadataSnapshot)
    (venv_path python_path : Option FilePath)
    → compute_env_sync_diff
        (build_launched_config launch_id kernel_type env_source
          (inline_of env_source s)
          (some s)
          venv_path
          python_path)
        s
      ≡ diff_unless_empty [] [] (takes_default env_source s) false
unfolding build_launched_config get_inline_uv_deps get_inline_conda_deps get_inline_conda_channels
launch-diff launch_id kernel_type env_source s venv_path python_path =
    let is_uv = env_source == "uv:inline" in
    let is_conda = env_source == "conda:inline" in
    launched_parts launch_id (kernel_type == "deno") is_uv is_conda s venv_path python_path
