-- ===== src/NotebookState/Create.antt =====
-- New notebooks, and the runtime of a notebook: `new_empty` and its variants and `get_runtime` of
-- notebook_state.rs. The identifiers are random, and the preferred environment is a setting.
use runt.Prelude.{
  String, false, ◌||◌, Option, none, some, List, [], ◌∷◌, ◌==◌, string_eq, is_empty, if◌then◌else◌,
  map_some, unwrap_or, map,
}
use runt.Prelude.Options.{and_then}
use runt.Prelude.Map.{Map}
use runt.Prelude.Map
use runt.Json.{Json}
use runt.Runtime.{Lowercase, has_infix, Runtime, python, deno}
use runt.Settings.{PythonEnvType, uv, conda}
use runt.Settings
use runt.NotebookState.{Nbformat, code_cell, NotebookState, KernelSpec, Metadata}

module _ (json : Json) where
  open json use {Value}

  abbrev pub strings : List String → Value
  strings items = json.array (map json.string items)

  -- The namespace without an environment.
  abbrev pub runt_base : String → Map String Value
  runt_base env_id = ("schema_version", json.string "1") ∷ ("env_id", json.string env_id) ∷ []

  abbrev pub with_uv : String → Map String Value → Value
  with_uv env_id fields = json.object (
      ("schema_version", json.string "1")
      ∷ ("env_id", json.string env_id)
      ∷ ("uv", json.object fields)
      ∷ [])

  abbrev pub with_conda : String → List String → Value
  with_conda env_id channels = json.object (
      ("schema_version", json.string "1")
      ∷ ("env_id", json.string env_id)
      ∷ ("conda", json.object (("dependencies", strings []) ∷ ("channels", strings channels) ∷ []))
      ∷ [])

  abbrev pub runt_for : PythonEnvType → String → Value
  runt_for conda env_id = with_conda env_id ("conda-forge" ∷ [])
  runt_for uv env_id = with_uv env_id (("dependencies", strings []) ∷ [])
  runt_for (Settings.other s) env_id = with_uv env_id (("dependencies", strings []) ∷ [])

  abbrev pub python_kernelspec : KernelSpec Value
  python_kernelspec = record {
    name = "python3";
    display_name = "Python 3";
    language = some "python";
    additional = [];
  }

  -- The namespace and the other metadata that a runtime begins with.
  abbrev pub additional_for : Runtime → PythonEnvType → String → Map String Value
  additional_for python env env_id = ("runt", runt_for env env_id) ∷ []
  additional_for deno env env_id =
      Map.insert "runt" (json.object (runt_base env_id))
        (("deno", json.object (("permissions", strings []) ∷ [])) ∷ [])
  additional_for (Runtime.other s) env env_id = ("runt", json.object (runt_base env_id)) ∷ []

  abbrev pub kernelspec_for : Runtime → KernelSpec Value
  kernelspec_for python = python_kernelspec
  kernelspec_for deno = record {
    name = "deno";
    display_name = "Deno";
    language = some "typescript";
    additional = [];
  }
  kernelspec_for (Runtime.other s) = record {
    name = s;
    display_name = s;
    language = none;
    additional = [];
  }

  module _ (nb : Nbformat json) where
    -- One empty code cell, and no path.
    abbrev pub one_cell : String → KernelSpec Value → Map String Value → NotebookState json nb
    one_cell new_id kernelspec additional = record {
      notebook = record {
        metadata = record {
          kernelspec = some kernelspec;
          language_info = none;
          authors = none;
          additional = additional;
        };
        nbformat = 4;
        nbformat_minor = 5;
        cells = code_cell new_id nb.empty_cell_metadata none [] [] ∷ [];
      };
      path = none;
      dirty = false;
    }

    unfoldable pub new_empty : String → String → PythonEnvType → NotebookState json nb
    new_empty env_id new_id env =
        one_cell new_id python_kernelspec (("runt", runt_for env env_id) ∷ [])

    unfoldable pub new_empty_with_runtime :
        String → String → PythonEnvType → Runtime → NotebookState json nb
    new_empty_with_runtime env_id new_id env runtime =
        one_cell new_id (kernelspec_for runtime) (additional_for runtime env env_id)

    -- From the channels of an environment.yml.
    unfoldable pub new_empty_with_conda_from_environment_yml :
        String → String → List String → NotebookState json nb
    new_empty_with_conda_from_environment_yml env_id new_id config_channels =
        let channels = if is_empty config_channels then "conda-forge" ∷ [] else config_channels in
        one_cell new_id python_kernelspec (("runt", with_conda env_id channels) ∷ [])

    -- From the dependencies and the Python version of a pyproject.toml.
    unfoldable pub new_empty_with_uv_from_pyproject :
        String → String → List String → Option String → NotebookState json nb
    new_empty_with_uv_from_pyproject env_id new_id all_deps requires_python =
        one_cell new_id python_kernelspec (
          (
            "runt",
            with_uv env_id (
                ("dependencies", strings all_deps)
                ∷ ("requires-python", unwrap_or (map_some json.string requires_python) json.null)
                ∷ []),
          )
          ∷ [])

module _ (lower : Lowercase) where
  abbrev pub runtime_of_language : String → Option Runtime
  runtime_of_language lang =
      let l = lower.to_lowercase lang in
      if l == "typescript" || l == "javascript"
      then some deno
      else if l == "python"
      then some python
      else none

  abbrev pub runtime_of_kernelspec : String → Option String → Runtime
  runtime_of_kernelspec name language =
      let name_lower = lower.to_lowercase name in
      if has_infix "deno" name_lower
      then deno
      else if has_infix "python" name_lower
      then python
      else unwrap_or (and_then language runtime_of_language) (Runtime.other name)

  abbrev pub runtime_of_language_info : String → Option Runtime
  runtime_of_language_info name =
      let l = lower.to_lowercase name in
      if l == "typescript" || l == "javascript" || l == "deno"
      then some deno
      else if l == "python"
      then some python
      else none

  unfoldable pub get_runtime : {Value : Type 0} → Metadata Value → Runtime
  get_runtime metadata = elim metadata.kernelspec [
    | some ks ↦ runtime_of_kernelspec ks.name ks.language
    | none ↦
        unwrap_or (and_then metadata.language_info (λ li. runtime_of_language_info li.name)) python
  ]
