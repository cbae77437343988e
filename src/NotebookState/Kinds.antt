-- ===== src/NotebookState/Kinds.antt =====
-- The runtime of a notebook as the application and as the daemon detect it.
use runt.Prelude.{
  String, Bool, true, false, Option, none, some, ◌==◌, string_eq, is_some, if◌then◌else◌, map_some,
  unwrap_or, ◌≡◌, refl, ap, ◌∙◌, arith,
}
use runt.Prelude.Options.{and_then, or_else}
use runt.Json.{Json}
use runt.Runtime.{Lowercase, has_infix, Runtime, python, deno}
use runt.Settings.{PythonEnvType}
use runt.NotebookMetadata.{Serde, Serdes}
use runt.EnvSync.{
  detect_notebook_kernel_type, kernel_of_kernelspec, kernel_of_language, kernel_of_language_info,
}
use runt.NotebookState.{Nbformat, Metadata, KernelSpec, LanguageInfo}
use runt.NotebookState.Create.{
  runtime_of_language_info, get_runtime, new_empty_with_runtime, runtime_of_kernelspec,
  runtime_of_language,
}
use runt.NotebookState.Snapshot.{
  DenoDependencies, snapshot_from_nbformat, kernelspec_snapshot, language_info_snapshot,
}

-- The runtime of a kind of kernel.
abbrev pub runtime_of : Option String → Runtime
runtime_of none = python
runtime_of (some kernel) = if kernel == "deno" then deno else python

module _ (lower : Lowercase) where
  runtime_of-language :
      (lang : String)
      → runtime_of_language lower lang
        ≡ map_some (λ k. runtime_of (some k)) (kernel_of_language lower lang)
  runtime_of-language lang = ground arith

  runtime_of-languages :
      (o : Option String)
      → and_then o (runtime_of_language lower)
        ≡ map_some (λ k. runtime_of (some k)) (and_then o (kernel_of_language lower))
  runtime_of-languages none = refl
  runtime_of-languages (some lang) = runtime_of-language lang

  runtime_of-language_info :
      (name : String) (o : Option String)
      → unwrap_or (runtime_of_language_info lower name) python
        ≡ runtime_of (kernel_of_language_info lower (record { name = name; version = o }))
  runtime_of-language_info name o = ground arith

  -- What both take a specification for.
  kernelspec_cases :
      (a b : Bool) (o : Option String) (name : String) (rest : Option String)
      → (if a
          then deno
          else if b
          then python
          else unwrap_or (map_some (λ k. runtime_of (some k)) o) (Runtime.other name))
        ≡ (elim (if is_some (if a then some "deno" else if b then some "python" else o)
            then none
            else some name) [
              | some name ↦ Runtime.other name
              | none ↦
                  runtime_of
                    (or_else (if a then some "deno" else if b then some "python" else o) rest)
            ])
  kernelspec_cases true b o name rest = refl
  kernelspec_cases false true o name rest = refl
  kernelspec_cases false false none name rest = refl
  kernelspec_cases false false (some k) name rest = refl

  -- The name of a kernel specification that the daemon knows no kernel for.
  abbrev pub unknown_kernelspec : {Value : Type 0} → Option (KernelSpec Value) → Option String
  unknown_kernelspec none = none
  unknown_kernelspec (some ks) =
      if is_some (
        kernel_of_kernelspec lower
          (record { name = ks.name; display_name = ks.display_name; language = ks.language }))
      then none
      else some ks.name

  module _ (json : Json) (serdes : Serdes json) (legacy_denos : Serde json DenoDependencies) where
    -- The application finds the runtime that the daemon finds, or Python if it finds none, unless the
    -- notebook has a kernel specification that neither knows: then the application takes its name,
    -- while the daemon goes on to the language.
    pub get_runtime-detect :
        (metadata : Metadata json.Value)
        → get_runtime lower metadata ≡ (elim (unknown_kernelspec metadata.kernelspec) [
          | some name ↦ Runtime.other name
          | none ↦ runtime_of (
              detect_notebook_kernel_type lower
                (snapshot_from_nbformat json serdes legacy_denos metadata))
        ])
    unfolding get_runtime detect_notebook_kernel_type snapshot_from_nbformat
    get_runtime-detect metadata = go metadata.kernelspec metadata.language_info
      where
        go :
            (o : Option (KernelSpec json.Value)) (li : Option (LanguageInfo json.Value))
            → (elim o [
              | some ks ↦ runtime_of_kernelspec lower ks.name ks.language
              | none ↦ unwrap_or (and_then li (λ l. runtime_of_language_info lower l.name)) python
            ])
              ≡ (elim (unknown_kernelspec o) [
                | some name ↦ Runtime.other name
                | none ↦ runtime_of (
                    or_else
                      (and_then
                        (map_some (kernelspec_snapshot json serdes legacy_denos) o)
                        (kernel_of_kernelspec lower))
                      (and_then
                        (map_some (language_info_snapshot json serdes legacy_denos) li)
                        (kernel_of_language_info lower)))
              ])
        go none none = refl
        go none (some li) = runtime_of-language_info li.name li.version
        go (some ks) li =
            let l = lower.to_lowercase ks.name in
            let rest =
              and_then (map_some (language_info_snapshot json serdes legacy_denos) li)
                (kernel_of_language_info lower) in
            ap
              (λ o.
                if has_infix "deno" l
                then deno
                else if has_infix "python" l
                then python
                else unwrap_or o (Runtime.other ks.name))
              (runtime_of-languages ks.language)
            ∙ kernelspec_cases (has_infix "deno" l) (has_infix "python" l)
                (and_then ks.language (kernel_of_language lower)) ks.name rest

  -- A notebook that is made for a runtime has it, unless an unknown runtime has a name that contains
  -- one of those that the program knows.
  get_runtime-new_empty_with_runtime :
      (json : Json) (nb : Nbformat json) (env_id new_id : String) (env : PythonEnvType)
      (runtime : Runtime)
      → get_runtime lower
          (new_empty_with_runtime json nb env_id new_id env runtime).notebook.metadata
        ≡ (elim runtime [
          | python ↦ python
          | deno ↦ deno
          | Runtime.other s ↦
              if has_infix "deno" (lower.to_lowercase s)
              then deno
              else if has_infix "python" (lower.to_lowercase s)
              then python
              else Runtime.other s
        ])
  unfolding get_runtime new_empty_with_runtime
  get_runtime-new_empty_with_runtime json nb env_id new_id env python =
      rw (lower.to_lowercase_lower "python3" refl) refl
  get_runtime-new_empty_with_runtime json nb env_id new_id env deno =
      rw (lower.to_lowercase_lower "deno" refl) refl
  get_runtime-new_empty_with_runtime json nb env_id new_id env (Runtime.other s) = refl
