-- ===== src/NotebookState/Snapshot.antt =====
-- `snapshot_from_nbformat` and `merge_snapshot_into_nbformat` of notebook_state.rs: the synchronized
-- metadata of a notebook of the application.
use runt.Prelude.{
  String, Bool, false, Option, none, some, List, [], string_eq, if◌then◌else◌, map_some, unwrap_or,
}
use runt.Prelude.Options.{and_then, or_else}
use runt.Prelude.Map.{Map}
use runt.Prelude.Map
use runt.Json.{Json}
use runt.NotebookMetadata.{
  DenoMetadata, RuntMetadata, KernelspecSnapshot, LanguageInfoSnapshot, NotebookMetadataSnapshot,
  Serde, Serdes, runt_from_value, merged_runt,
}
use runt.NotebookState.{KernelSpec, LanguageInfo, Metadata}

-- deno_env.rs.
pub record DenoDependencies : Type 0 where
  pub permissions : List String
  pub import_map : Option String
  pub config : Option String
  pub flexible_npm_imports : Bool

-- Only what differs from the default, which is true, is recorded.
abbrev pub convert_legacy_deno : DenoDependencies → DenoMetadata
convert_legacy_deno dd = record {
  permissions = dd.permissions;
  import_map = dd.import_map;
  config = dd.config;
  flexible_npm_imports = if dd.flexible_npm_imports then none else some false;
}

abbrev pub empty_runt : RuntMetadata
empty_runt = record { schema_version = "1"; env_id = none; uv = none; conda = none; deno = none }

module _ (json : Json) (serdes : Serdes json) (legacy_denos : Serde json DenoDependencies) where
  open json use {Value}

  abbrev pub legacy_deno : Map String Value → Option DenoMetadata
  legacy_deno additional =
      map_some convert_legacy_deno (and_then (Map.get "deno" additional) legacy_denos.from_value)

  -- The namespace, whose Deno settings may stand at the top.
  abbrev pub with_legacy_deno : Map String Value → RuntMetadata → RuntMetadata
  with_legacy_deno additional runt = record runt {
    deno = or_else runt.deno (legacy_deno additional);
  }

  abbrev pub runt_or_legacy : Option Value → Map String Value → RuntMetadata
  runt_or_legacy (some runt_value) additional =
      with_legacy_deno additional (unwrap_or (runt_from_value json serdes runt_value) empty_runt)
  runt_or_legacy none additional = record {
    schema_version = "1";
    env_id = none;
    uv = and_then (Map.get "uv" additional) serdes.uvs.from_value;
    conda = and_then (Map.get "conda" additional) serdes.condas.from_value;
    deno = legacy_deno additional;
  }

  abbrev pub runt_from_additional : Map String Value → RuntMetadata
  runt_from_additional additional = runt_or_legacy (Map.get "runt" additional) additional

  abbrev pub kernelspec_snapshot : KernelSpec Value → KernelspecSnapshot
  kernelspec_snapshot ks = record {
    name = ks.name;
    display_name = ks.display_name;
    language = ks.language;
  }

  abbrev pub language_info_snapshot : LanguageInfo Value → LanguageInfoSnapshot
  language_info_snapshot li = record { name = li.name; version = li.version }

  unfoldable pub snapshot_from_nbformat : Metadata Value → NotebookMetadataSnapshot
  snapshot_from_nbformat metadata = record {
    kernelspec = map_some kernelspec_snapshot metadata.kernelspec;
    language_info = map_some language_info_snapshot metadata.language_info;
    runt = runt_from_additional metadata.additional;
  }

  abbrev pub merged_kernelspec : Option (KernelSpec Value) → KernelspecSnapshot → KernelSpec Value
  merged_kernelspec existing ks = record {
    name = ks.name;
    display_name = ks.display_name;
    language = ks.language;
    additional = unwrap_or (map_some (λ (k : KernelSpec Value). k.additional) existing) [];
  }

  abbrev pub merged_language_info :
      Option (LanguageInfo Value) → LanguageInfoSnapshot → LanguageInfo Value
  merged_language_info existing li = record {
    name = li.name;
    version = li.version;
    codemirror_mode = and_then existing (λ l. l.codemirror_mode);
    additional = unwrap_or (map_some (λ (l : LanguageInfo Value). l.additional) existing) [];
  }

  unfoldable pub merge_snapshot_into_nbformat :
      NotebookMetadataSnapshot → Metadata Value → Metadata Value
  merge_snapshot_into_nbformat snapshot metadata = record metadata {
    kernelspec = map_some (merged_kernelspec metadata.kernelspec) snapshot.kernelspec;
    language_info = map_some (merged_language_info metadata.language_info) snapshot.language_info;
    additional =
        Map.insert "runt"
          (json.object (merged_runt json serdes snapshot.runt (Map.get "runt" metadata.additional)))
          metadata.additional;
  }
