-- ===== src/NotebookState/Migration.antt =====
-- `migrate_legacy_metadata` of notebook_state.rs: the legacy keys move into the namespace `runt`.
use runt.Prelude.{
  String, Bool, true, false, ◌||◌, Option, none, some, [], ◌∷◌, string_eq, is_some, if◌then◌else◌,
  unwrap_or,
}
use runt.Prelude.Map.{Map}
use runt.Prelude.Map
use runt.Json.{Json}

module _ (json : Json) where
  open json use {Value}

  -- One legacy key, if it is present and not already in the namespace.
  abbrev pub migrate_key : String → Option Value → Bool × Map String Value → Bool × Map String Value
  migrate_key k none r = r
  migrate_key k (some v) r = if is_some (Map.get k r.1) then r else (true, Map.insert k v r.1)

  abbrev pub put_back : String → Option Value → Map String Value → Map String Value
  put_back k none m = m
  put_back k (some v) m = Map.insert k v m

  -- `entry("runt").or_insert_with(...)`.
  abbrev pub runt_or_new : Map String Value → Value
  runt_or_new m =
      unwrap_or (Map.get "runt" m) (json.object (("schema_version", json.string "1") ∷ []))

  abbrev pub without_legacy : Map String Value → Map String Value
  without_legacy m = Map.remove "deno" (Map.remove "conda" (Map.remove "uv" m))

  abbrev pub migrate_into :
      Option (Map String Value) → Map String Value → Map String Value → Bool × Map String Value
  migrate_into none additional rest = (
    false,
    put_back "deno" (Map.get "deno" additional) (
        put_back "conda" (Map.get "conda" additional)
          (put_back "uv" (Map.get "uv" additional) (Map.insert "runt" (runt_or_new rest) rest))),
  )
  migrate_into (some runt_obj) additional rest =
      let r = migrate_key "deno" (Map.get "deno" additional) (
        migrate_key "conda" (Map.get "conda" additional)
          (migrate_key "uv" (Map.get "uv" additional) (false, runt_obj))) in
      (r.0, Map.insert "runt" (json.object r.1) rest)

  abbrev pub has_legacy : Map String Value → Bool
  has_legacy m =
      is_some (Map.get "uv" m) || is_some (Map.get "conda" m) || is_some (Map.get "deno" m)

  unfoldable pub migrate_legacy_metadata : Map String Value → Bool × Map String Value
  migrate_legacy_metadata additional =
      let rest = without_legacy additional in
      if has_legacy additional
      then migrate_into (json.as_object (runt_or_new rest)) additional rest
      else (false, rest)
