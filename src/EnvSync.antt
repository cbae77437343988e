-- ===== src/EnvSync.antt =====
-- The parts of crates/runtimed/src/notebook_sync_server.rs that read a notebook's metadata: the kind of
-- kernel, the inline dependencies, what a kernel was launched with, and how the metadata has drifted
-- from that since. Lower case, JSON and random identifiers are parameters.
pub mod Drift
mod Tests
use runt.Prelude.{
  String, Bool, true, false, not, ◌&&◌, ◌||◌, Option, none, some, List, [], ◌∷◌, ◌++◌, ◌==◌,
  string_eq, PartialEq, is_some, is_empty, if◌then◌else◌, map_some, unwrap_or, contains, retain,
}
use runt.Prelude.Structures.{list_eq, option_eq, bool_eq}
use runt.Prelude.Options.{and_then, or_else}
use runt.Runtime.{Lowercase, has_infix}
use runt.NotebookMetadata.{
  UvInlineMetadata, CondaInlineMetadata, DenoMetadata, RuntMetadata, KernelspecSnapshot,
  LanguageInfoSnapshot, NotebookMetadataSnapshot,
}

abbrev pub FilePath : Type 0
FilePath = List String

pub record DenoLaunchedConfig : Type 0 where
  pub permissions : List String
  pub import_map : Option String
  pub config : Option String
  pub flexible_npm_imports : Bool

pub record LaunchedEnvConfig : Type 0 where
  pub uv_deps : Option (List String)
  pub conda_deps : Option (List String)
  pub conda_channels : Option (List String)
  pub deno_config : Option DenoLaunchedConfig
  pub venv_path : Option FilePath
  pub python_path : Option FilePath
  pub launch_id : Option String

pub record EnvSyncDiff : Type 0 where
  pub added : List String
  pub removed : List String
  pub channels_changed : Bool
  pub deno_changed : Bool

-- `EnvSyncState { in_sync, diff }`.
pub record EnvSyncState : Type 0 where
  pub in_sync : Bool
  pub diff : Option EnvSyncDiff

module _ (lower : Lowercase) where
  -- A name of a language.
  abbrev pub kernel_of_language : String → Option String
  kernel_of_language lang =
      let l = lower.to_lowercase lang in
      if l == "typescript" || l == "javascript"
      then some "deno"
      else if l == "python"
      then some "python"
      else none

  abbrev pub kernel_of_kernelspec : KernelspecSnapshot → Option String
  kernel_of_kernelspec ks =
      let name_lower = lower.to_lowercase ks.name in
      if has_infix "deno" name_lower
      then some "deno"
      else if has_infix "python" name_lower
      then some "python"
      else and_then ks.language kernel_of_language

  abbrev pub kernel_of_language_info : LanguageInfoSnapshot → Option String
  kernel_of_language_info li =
      let name_lower = lower.to_lowercase li.name in
      if name_lower == "typescript" || name_lower == "javascript" || name_lower == "deno"
      then some "deno"
      else if name_lower == "python"
      then some "python"
      else none

  unfoldable pub detect_notebook_kernel_type : NotebookMetadataSnapshot → Option String
  detect_notebook_kernel_type snapshot =
      or_else (and_then snapshot.kernelspec kernel_of_kernelspec)
        (and_then snapshot.language_info kernel_of_language_info)

-- Dependencies that are there and not empty.
abbrev pub non_empty : List String → Option (List String)
non_empty deps = if is_empty deps then none else some deps

unfoldable pub get_inline_conda_deps : NotebookMetadataSnapshot → Option (List String)
get_inline_conda_deps snapshot =
    and_then snapshot.runt.conda (λ conda. non_empty conda.dependencies)

unfoldable pub get_inline_uv_deps : NotebookMetadataSnapshot → Option (List String)
get_inline_uv_deps snapshot = and_then snapshot.runt.uv (λ uv. non_empty uv.dependencies)

unfoldable pub check_inline_deps : NotebookMetadataSnapshot → Option String
check_inline_deps snapshot =
    if is_some snapshot.runt.deno
    then some "deno"
    else or_else
        (and_then snapshot.runt.uv
          (λ uv. if is_empty uv.dependencies then none else some "uv:inline"))
        (and_then snapshot.runt.conda
          (λ conda. if is_empty conda.dependencies then none else some "conda:inline"))

unfoldable pub get_inline_conda_channels : NotebookMetadataSnapshot → List String
get_inline_conda_channels snapshot =
    unwrap_or (and_then snapshot.runt.conda (λ conda. non_empty conda.channels))
      ("conda-forge" ∷ [])

abbrev pub default_config : LaunchedEnvConfig
default_config = record {
  uv_deps = none;
  conda_deps = none;
  conda_channels = none;
  deno_config = none;
  venv_path = none;
  python_path = none;
  launch_id = none;
}

abbrev pub launched_deno : DenoMetadata → DenoLaunchedConfig
launched_deno deno = record {
  permissions = deno.permissions;
  import_map = deno.import_map;
  config = deno.config;
  flexible_npm_imports = unwrap_or deno.flexible_npm_imports true;
}

-- The match on the source of the environment, by whether it is `uv:inline` or `conda:inline`.
abbrev pub config_of_source :
    Bool
    → Bool
    → Option (List String)
    → Option NotebookMetadataSnapshot
    → Option FilePath
    → Option FilePath
    → LaunchedEnvConfig
config_of_source is_uv is_conda inline_deps snapshot venv_path python_path =
    if is_uv
    then record default_config {
      uv_deps = inline_deps;
      venv_path = venv_path;
      python_path = python_path;
    }
    else if is_conda
    then record default_config {
      conda_deps = inline_deps;
      conda_channels = map_some get_inline_conda_channels snapshot;
      venv_path = venv_path;
      python_path = python_path;
    }
    else default_config

-- `launch_id` is the random identifier.
unfoldable pub build_launched_config :
    String
    → String
    → String
    → Option (List String)
    → Option NotebookMetadataSnapshot
    → Option FilePath
    → Option FilePath
    → LaunchedEnvConfig
build_launched_config launch_id kernel_type env_source inline_deps snapshot venv_path python_path =
    record (config_of_source (env_source == "uv:inline") (env_source == "conda:inline") inline_deps
      snapshot venv_path python_path) {
        deno_config =
            if kernel_type == "deno"
            then and_then snapshot (λ s. map_some launched_deno s.runt.deno)
            else none;
        launch_id = some launch_id;
      }

-- The elements of a list that another lacks, in order.
abbrev pub missing_in : List String → List String → List String
missing_in other deps = retain (λ dep. not (contains other dep)) deps

abbrev pub uv_dependencies : NotebookMetadataSnapshot → List String
uv_dependencies s = unwrap_or (map_some (λ (u : UvInlineMetadata). u.dependencies) s.runt.uv) []

abbrev pub conda_dependencies : NotebookMetadataSnapshot → List String
conda_dependencies s =
    unwrap_or (map_some (λ (c : CondaInlineMetadata). c.dependencies) s.runt.conda) []

abbrev pub conda_channels_of : NotebookMetadataSnapshot → List String
conda_channels_of s = unwrap_or (map_some (λ (c : CondaInlineMetadata). c.channels) s.runt.conda) []

-- The dependencies that were added and removed, for a launch that had some.
abbrev pub deps_diff : Option (List String) → List String → List String × List String
deps_diff none current = ([], [])
deps_diff (some launched) current = (missing_in launched current, missing_in current launched)

abbrev pub have_channels_changed : LaunchedEnvConfig → NotebookMetadataSnapshot → Bool
have_channels_changed launched current =
    is_some launched.conda_deps && (elim launched.conda_channels [
      | none ↦ false
      | some channels ↦ not (channels == conda_channels_of current)
    ])

abbrev pub differs : DenoLaunchedConfig → DenoLaunchedConfig → Bool
differs a b =
    not (a.permissions == b.permissions)
    || not (a.import_map == b.import_map)
    || not (a.config == b.config)
    || not (a.flexible_npm_imports == b.flexible_npm_imports)

abbrev pub has_deno_changed : Option DenoLaunchedConfig → Option DenoMetadata → Bool
has_deno_changed none current = false
has_deno_changed (some launched) none = true
has_deno_changed (some launched) (some current) = differs launched (launched_deno current)

abbrev pub diff_unless_empty : List String → List String → Bool → Bool → Option EnvSyncDiff
diff_unless_empty added removed channels_changed deno_changed =
    if is_empty added && is_empty removed && not channels_changed && not deno_changed
    then none
    else some (record {
      added = added;
      removed = removed;
      channels_changed = channels_changed;
      deno_changed = deno_changed;
    })

unfoldable pub compute_env_sync_diff :
    LaunchedEnvConfig → NotebookMetadataSnapshot → Option EnvSyncDiff
compute_env_sync_diff launched current =
    let uv = deps_diff launched.uv_deps (uv_dependencies current) in
    let conda = deps_diff launched.conda_deps (conda_dependencies current) in
    diff_unless_empty (uv.0 ++ conda.0) (uv.1 ++ conda.1) (have_channels_changed launched current)
      (has_deno_changed launched.deno_config current.runt.deno)

abbrev pub is_tracking : LaunchedEnvConfig → Bool
is_tracking launched =
    is_some launched.uv_deps || is_some launched.conda_deps || is_some launched.deno_config

-- The dependencies that a prewarmed kernel lacks.
abbrev pub added_inline : NotebookMetadataSnapshot → List String
added_inline s = elim (check_inline_deps s) [
  | none ↦ []
  | some inline_source ↦
      if inline_source == "uv:inline"
      then unwrap_or (get_inline_uv_deps s) []
      else if inline_source == "conda:inline"
      then unwrap_or (get_inline_conda_deps s) []
      else []
]

-- What is broadcast: nothing without readable metadata or a running kernel.
unfoldable pub check_and_broadcast_sync_state :
    Option NotebookMetadataSnapshot → Option (Bool × LaunchedEnvConfig) → Option EnvSyncState
check_and_broadcast_sync_state none kernel = none
check_and_broadcast_sync_state (some current) none = none
check_and_broadcast_sync_state (some current) (some (is_running, launched)) =
    if not is_running
    then none
    else if is_tracking launched
    then (let diff = compute_env_sync_diff launched current in
        some (record { in_sync = not (is_some diff); diff = diff }))
    else if is_empty (added_inline current)
    then none
    else some (record {
      in_sync = false;
      diff = some (record {
        added = added_inline current;
        removed = [];
        channels_changed = false;
        deno_changed = false;
      });
    })
