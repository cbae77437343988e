-- ===== src/NotebookMetadata.antt =====
-- crates/runtimed/src/notebook_metadata.rs: the metadata of a notebook that is synchronized, and its
-- way into and out of the metadata of a file. What serde derives for the inner structs is a parameter;
-- for the two structs whose keys the merge handles one by one it is written out.
pub mod Merge
pub mod Trees
mod Tests
use runt.Prelude.{
  String, Bool, not, Option, none, some, List, [], ◌∷◌, ◌≡◌, string_eq, is_some, if◌then◌else◌,
  map_some, unwrap_or, ◌==◌, false,
}
use runt.Prelude.Options.{and_then, or_else}
use runt.Prelude.Map.{Map}
use runt.Prelude.Map
use runt.Json.{Json}

pub record UvInlineMetadata : Type 0 where
  pub dependencies : List String
  pub requires_python : Option String

pub record CondaInlineMetadata : Type 0 where
  pub dependencies : List String
  pub channels : List String
  pub python : Option String

pub record DenoMetadata : Type 0 where
  pub permissions : List String
  pub import_map : Option String
  pub config : Option String
  pub flexible_npm_imports : Option Bool

pub record RuntMetadata : Type 0 where
  pub schema_version : String
  pub env_id : Option String
  pub uv : Option UvInlineMetadata
  pub conda : Option CondaInlineMetadata
  pub deno : Option DenoMetadata

pub record KernelspecSnapshot : Type 0 where
  pub name : String
  pub display_name : String
  pub language : Option String

pub record LanguageInfoSnapshot : Type 0 where
  pub name : String
  pub version : Option String

pub record NotebookMetadataSnapshot : Type 0 where
  pub kernelspec : Option KernelspecSnapshot
  pub language_info : Option LanguageInfoSnapshot
  pub runt : RuntMetadata

-- `serde_json::to_value` and `serde_json::from_value` of a struct: it is read as it was written, and
-- never written as null.
pub record Serde (json : Json) (A : Type 0) : Type 0 where
  pub to_value : A → json.Value
  pub from_value : json.Value → Option A
  pub from_value-to_value : (a : A) → from_value (to_value a) ≡ some a
  pub is_null-to_value : (a : A) → json.is_null (to_value a) ≡ false

pub record Serdes (json : Json) : Type 0 where
  pub kernelspecs : Serde json KernelspecSnapshot
  pub uvs : Serde json UvInlineMetadata
  pub condas : Serde json CondaInlineMetadata
  pub denos : Serde json DenoMetadata

unfoldable pub new_uv : String → RuntMetadata
new_uv env_id = record {
  schema_version = "1";
  env_id = some env_id;
  uv = some (record { dependencies = []; requires_python = none });
  conda = none;
  deno = none;
}

unfoldable pub new_conda : String → RuntMetadata
new_conda env_id = record {
  schema_version = "1";
  env_id = some env_id;
  uv = none;
  conda = some (record { dependencies = []; channels = "conda-forge" ∷ []; python = none });
  deno = none;
}

unfoldable pub new_deno : String → RuntMetadata
new_deno env_id = record {
  schema_version = "1";
  env_id = some env_id;
  uv = none;
  conda = none;
  deno =
      some (record {
        permissions = [];
        import_map = none;
        config = none;
        flexible_npm_imports = none;
      });
}

module _ (json : Json) where
  open json use {Value}

  -- `skip_serializing_if = "Option::is_none"`.
  abbrev pub skip_none : String → Option Value → Map String Value → Map String Value
  skip_none k none m = m
  skip_none k (some v) m = (k, v) ∷ m

  -- An `Option` field of a struct that is read: it may be missing or null.
  abbrev pub optional_field : {A : Type 0} → (Value → Option A) → Option Value → Option (Option A)
  optional_field from_value none = some none
  optional_field from_value (some v) =
      if json.is_null v then some none else map_some some (from_value v)

  unfoldable pub language_info_entries : LanguageInfoSnapshot → Map String Value
  language_info_entries li =
      ("name", json.string li.name) ∷ skip_none "version" (map_some json.string li.version) []

  unfoldable pub language_info_of_object : Map String Value → Option LanguageInfoSnapshot
  language_info_of_object m = and_then (and_then (Map.get "name" m) json.as_str) (λ name.
      and_then (optional_field json.as_str (Map.get "version" m))
        (λ version. some (record { name = name; version = version })))

  abbrev pub language_info_from_value : Value → Option LanguageInfoSnapshot
  language_info_from_value v = and_then (json.as_object v) language_info_of_object

  -- `for (k, val) in new_obj { existing_obj.insert(k, val) }`.
  unfoldable pub insert_all : Map String Value → Map String Value → Map String Value
  insert_all [] existing = existing
  insert_all ((k, val) ∷ new) existing = insert_all new (Map.insert k val existing)

  abbrev pub merge_into_language_info :
      Map String Value → Option Value → Map String Value → Map String Value
  merge_into_language_info new none obj = Map.insert "language_info" (json.object new) obj
  merge_into_language_info new (some existing) obj = elim (json.as_object existing) [
    | none ↦ obj
    | some existing_obj ↦ Map.insert "language_info" (json.object (insert_all new existing_obj)) obj
  ]

  abbrev pub merge_language_info : Option LanguageInfoSnapshot → Map String Value → Map String Value
  merge_language_info none obj = Map.remove "language_info" obj
  merge_language_info (some li) obj =
      merge_into_language_info (language_info_entries li) (Map.get "language_info" obj) obj

  -- The keys of an existing namespace that the new one does not have.
  unfoldable pub keep_missing : Map String Value → Map String Value → Map String Value
  keep_missing [] new_obj = new_obj
  keep_missing ((k, v) ∷ existing) new_obj =
      keep_missing existing
        (if is_some (Map.get k new_obj) then new_obj else Map.insert k v new_obj)

module _ (json : Json) (serdes : Serdes json) where
  open json use {Value}

  unfoldable pub runt_entries : RuntMetadata → Map String Value
  runt_entries r =
      ("schema_version", json.string r.schema_version)
      ∷ skip_none json "env_id" (map_some json.string r.env_id) (
          skip_none json "uv" (map_some serdes.uvs.to_value r.uv) (
            skip_none json "conda" (map_some serdes.condas.to_value r.conda)
              (skip_none json "deno" (map_some serdes.denos.to_value r.deno) [])))

  unfoldable pub runt_of_object : Map String Value → Option RuntMetadata
  runt_of_object m = and_then (and_then (Map.get "schema_version" m) json.as_str) (λ schema_version.
      and_then (optional_field json json.as_str (Map.get "env_id" m)) (λ env_id.
        and_then (optional_field json serdes.uvs.from_value (Map.get "uv" m)) (λ uv.
          and_then (optional_field json serdes.condas.from_value (Map.get "conda" m)) (λ conda.
            and_then (optional_field json serdes.denos.from_value (Map.get "deno" m)) (λ deno.
              some (record {
                schema_version = schema_version;
                env_id = env_id;
                uv = uv;
                conda = conda;
                deno = deno;
              }))))))

  -- `from_value::<RuntMetadata>`, `from_value::<LanguageInfoSnapshot>`.
  abbrev pub runt_from_value : Value → Option RuntMetadata
  runt_from_value v = and_then (json.as_object v) runt_of_object

  -- The metadata of a file from before the namespace.
  abbrev pub legacy_runt : Value → RuntMetadata
  legacy_runt metadata = record {
    schema_version = "1";
    env_id = none;
    uv = and_then (json.get "uv" metadata) serdes.uvs.from_value;
    conda = and_then (json.get "conda" metadata) serdes.condas.from_value;
    deno = none;
  }

  unfoldable pub from_metadata_value : Value → NotebookMetadataSnapshot
  from_metadata_value metadata = record {
    kernelspec = and_then (json.get "kernelspec" metadata) serdes.kernelspecs.from_value;
    language_info = and_then (json.get "language_info" metadata) (language_info_from_value json);
    runt = unwrap_or (and_then (json.get "runt" metadata) runt_from_value) (legacy_runt metadata);
  }

  abbrev pub merge_kernelspec : Option KernelspecSnapshot → Map String Value → Map String Value
  merge_kernelspec (some ks) obj = Map.insert "kernelspec" (serdes.kernelspecs.to_value ks) obj
  merge_kernelspec none obj = Map.remove "kernelspec" obj

  abbrev pub merged_runt : RuntMetadata → Option Value → Map String Value
  merged_runt r none = runt_entries r
  merged_runt r (some existing) = elim (json.as_object existing) [
    | none ↦ runt_entries r
    | some existing_obj ↦ keep_missing json existing_obj (runt_entries r)
  ]

  abbrev pub merge_object : NotebookMetadataSnapshot → Map String Value → Map String Value
  merge_object snapshot m =
      let obj =
        merge_language_info json snapshot.language_info (merge_kernelspec snapshot.kernelspec m) in
      Map.insert "runt" (json.object (merged_runt snapshot.runt (Map.get "runt" obj))) obj

  unfoldable pub merge_into_metadata_value : NotebookMetadataSnapshot → Value → Value
  merge_into_metadata_value snapshot metadata = elim (json.as_object metadata) [
    | none ↦ metadata
    | some m ↦ json.object (merge_object snapshot m)
  ]
