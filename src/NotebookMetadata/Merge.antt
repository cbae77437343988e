-- ===== src/NotebookMetadata/Merge.antt =====
-- Metadata that is merged into that of a file and read back.
use runt.Prelude.{
  String, Bool, true, false, Option, none, some, [], ◌∷◌, ◌==◌, string_eq, is_some, if◌then◌else◌,
  map_some, unwrap_or, ◌≡◌, inl, inr, refl, ap, sym, ◌∙◌, arith, Option-cases,
}
use runt.Prelude.Options.{and_then, or_else, and_then-some}
use runt.Prelude.Map.{Map, get-insert, get-remove}
use runt.Prelude.Map
use runt.Json.{Json}
use runt.NotebookMetadata.{
  RuntMetadata, KernelspecSnapshot, LanguageInfoSnapshot, NotebookMetadataSnapshot, Serde, Serdes,
  skip_none, optional_field, runt_entries, language_info_entries, runt_of_object, runt_from_value,
  legacy_runt, from_metadata_value, merge_kernelspec, insert_all, merge_into_language_info,
  merge_language_info, keep_missing, merged_runt, merge_object, merge_into_metadata_value,
}

module _ (json : Json) where
  open json use {Value}

  get-skip_none :
      (j k : String) (o : Option Value) (m : Map String Value)
      → Map.get k (skip_none json j o m) ≡ (if j == k then or_else o (Map.get k m) else Map.get k m)
  unfolding Map.get
  get-skip_none j k none m = ground arith
  get-skip_none j k (some v) m = ground arith

  get-keep_missing :
      (k : String) (existing new : Map String Value)
      → Map.get k (keep_missing json existing new) ≡ or_else (Map.get k new) (Map.get k existing)
  unfolding keep_missing Map.get
  get-keep_missing k [] new = ground arith
  get-keep_missing k ((j, v) ∷ existing) new = ground (
    arith,
    get-keep_missing k existing (if is_some (Map.get j new) then new else Map.insert j v new),
    get-insert k j v new,
    string_eq.same_iff j k,
  )

  -- An optional field that was merged is the new one, or else the existing one.
  field-or_else :
      {A : Type 0} (serde : Serde json A) (new : Option A) (o : Option Value) (old : Option A)
      → optional_field json serde.from_value o ≡ some old
      → optional_field json serde.from_value (or_else (map_some serde.to_value new) o)
        ≡ some (or_else new old)
  field-or_else serde none o old h = h
  field-or_else serde (some a) o old h =
      rw (serde.is_null-to_value a, serde.from_value-to_value a) refl

or_else-none : {A : Type 0} (o : Option A) → or_else o none ≡ o
or_else-none none = refl
or_else-none (some a) = refl

module _ (json : Json) (serdes : Serdes json) where
  open json use {Value}

  -- A string is read as it was written.
  abbrev pub strings : Option String → Option Value
  strings o = map_some json.string o

  -- The namespace of a notebook that was merged into an existing one.
  abbrev pub merged_with : Option RuntMetadata → RuntMetadata → RuntMetadata
  merged_with none r = r
  merged_with (some old) r = record {
    schema_version = r.schema_version;
    env_id = or_else r.env_id old.env_id;
    uv = or_else r.uv old.uv;
    conda = or_else r.conda old.conda;
    deno = or_else r.deno old.deno;
  }

  runt_entries-get :
      (r : RuntMetadata)
      → (Map.get "schema_version" (runt_entries json serdes r)
          ≡ some (json.string r.schema_version))
        × (Map.get "env_id" (runt_entries json serdes r) ≡ strings r.env_id)
        × (Map.get "uv" (runt_entries json serdes r) ≡ map_some serdes.uvs.to_value r.uv)
        × (Map.get "conda" (runt_entries json serdes r) ≡ map_some serdes.condas.to_value r.conda)
        × (Map.get "deno" (runt_entries json serdes r) ≡ map_some serdes.denos.to_value r.deno)
  unfolding runt_entries Map.get
  runt_entries-get r =
      let e = strings r.env_id in
      let u = map_some serdes.uvs.to_value r.uv in
      let c = map_some serdes.condas.to_value r.conda in
      let d = map_some serdes.denos.to_value r.deno in
      (
        refl,
        get-skip_none json "env_id" "env_id" e _
            ∙ ap (or_else e) (
                get-skip_none json "uv" "env_id" u _
                ∙ get-skip_none json "conda" "env_id" c _
                ∙ get-skip_none json "deno" "env_id" d [])
            ∙ or_else-none e,
        get-skip_none json "env_id" "uv" e _
            ∙ get-skip_none json "uv" "uv" u _
            ∙ ap (or_else u)
                (get-skip_none json "conda" "uv" c _ ∙ get-skip_none json "deno" "uv" d [])
            ∙ or_else-none u,
        get-skip_none json "env_id" "conda" e _
            ∙ get-skip_none json "uv" "conda" u _
            ∙ get-skip_none json "conda" "conda" c _
            ∙ ap (or_else c) (get-skip_none json "deno" "conda" d [])
            ∙ or_else-none c,
        get-skip_none json "env_id" "deno" e _
            ∙ get-skip_none json "uv" "deno" u _
            ∙ get-skip_none json "conda" "deno" c _
            ∙ get-skip_none json "deno" "deno" d []
            ∙ or_else-none d,
      )

  -- An object whose fields are read is the struct of them.
  runt_of_fields :
      (m : Map String Value) (r : RuntMetadata)
      → and_then (Map.get "schema_version" m) json.as_str ≡ some r.schema_version
      → optional_field json json.as_str (Map.get "env_id" m) ≡ some r.env_id
      → optional_field json serdes.uvs.from_value (Map.get "uv" m) ≡ some r.uv
      → optional_field json serdes.condas.from_value (Map.get "conda" m) ≡ some r.conda
      → optional_field json serdes.denos.from_value (Map.get "deno" m) ≡ some r.deno
      → runt_of_object json serdes m ≡ some r
  unfolding runt_of_object
  runt_of_fields m r s e u c d = rw (s, e, u, c, d) refl

  abbrev pub HasFields : Map String Value → RuntMetadata → Type 0
  HasFields m r =
      (optional_field json json.as_str (Map.get "env_id" m) ≡ some r.env_id)
      × (optional_field json serdes.uvs.from_value (Map.get "uv" m) ≡ some r.uv)
      × (optional_field json serdes.condas.from_value (Map.get "conda" m) ≡ some r.conda)
      × (optional_field json serdes.denos.from_value (Map.get "deno" m) ≡ some r.deno)

  fields_of_runt :
      (m : Map String Value) (r : RuntMetadata)
      → runt_of_object json serdes m ≡ some r
      → HasFields m r
  unfolding runt_of_object
  fields_of_runt m r h =
      let a = and_then-some (and_then (Map.get "schema_version" m) json.as_str) _ r h in
      let e = and_then-some (optional_field json json.as_str (Map.get "env_id" m)) _ r (a.2) in
      let u =
        and_then-some (optional_field json serdes.uvs.from_value (Map.get "uv" m)) _ r (e.2) in
      let c =
        and_then-some (optional_field json serdes.condas.from_value (Map.get "conda" m)) _ r
          (u.2) in
      let d =
        and_then-some (optional_field json serdes.denos.from_value (Map.get "deno" m)) _ r (c.2) in
      (
        ground (arith, e.1, d.2),
        ground (arith, u.1, d.2),
        ground (arith, c.1, d.2),
        ground (arith, d.1, d.2),
      )

  abbrev pub strings_serde : Serde json String
  strings_serde = record {
    to_value = json.string;
    from_value = json.as_str;
    from_value-to_value = json.as_str-string;
    is_null-to_value = json.is_null-string;
  }

  merged_runt-get :
      (r old : RuntMetadata) (existing : Map String Value)
      → HasFields existing old
      → runt_of_object json serdes (keep_missing json existing (runt_entries json serdes r))
        ≡ some (merged_with (some old) r)
  merged_runt-get r old existing (e, u, c, d) =
      let g = runt_entries-get r in
      let new = runt_entries json serdes r in
      let get = λ (k : String). get-keep_missing json k existing new in
      runt_of_fields (keep_missing json existing new) (merged_with (some old) r)
        (ap (λ o. and_then o json.as_str)
            (get "schema_version" ∙ ap (λ o. or_else o (Map.get "schema_version" existing)) (g.0))
          ∙ json.as_str-string r.schema_version)
        (ap (optional_field json json.as_str)
            (get "env_id" ∙ ap (λ o. or_else o (Map.get "env_id" existing)) (g.1))
          ∙ field-or_else json strings_serde r.env_id (Map.get "env_id" existing) old.env_id e)
        (ap (optional_field json serdes.uvs.from_value)
            (get "uv" ∙ ap (λ o. or_else o (Map.get "uv" existing)) (g.2))
          ∙ field-or_else json serdes.uvs r.uv (Map.get "uv" existing) old.uv u)
        (ap (optional_field json serdes.condas.from_value)
            (get "conda" ∙ ap (λ o. or_else o (Map.get "conda" existing)) (g.3))
          ∙ field-or_else json serdes.condas r.conda (Map.get "conda" existing) old.conda c)
        (ap (optional_field json serdes.denos.from_value)
            (get "deno" ∙ ap (λ o. or_else o (Map.get "deno" existing)) (g.4))
          ∙ field-or_else json serdes.denos r.deno (Map.get "deno" existing) old.deno d)

  field-to_value :
      {A : Type 0} (serde : Serde json A) (o : Option A)
      → optional_field json serde.from_value (map_some serde.to_value o) ≡ some o
  field-to_value serde none = refl
  field-to_value serde (some a) = rw (serde.is_null-to_value a, serde.from_value-to_value a) refl

  runt_entries-read :
      (r : RuntMetadata) → runt_of_object json serdes (runt_entries json serdes r) ≡ some r
  runt_entries-read r =
      let (s, e, u, c, d) = runt_entries-get r in
      runt_of_fields (runt_entries json serdes r) r
        (ap (λ o. and_then o json.as_str) s ∙ json.as_str-string r.schema_version)
        (ap (optional_field json json.as_str) e ∙ field-to_value strings_serde r.env_id)
        (ap (optional_field json serdes.uvs.from_value) u ∙ field-to_value serdes.uvs r.uv)
        (ap (optional_field json serdes.condas.from_value) c ∙ field-to_value serdes.condas r.conda)
        (ap (optional_field json serdes.denos.from_value) d ∙ field-to_value serdes.denos r.deno)

  -- The namespace of a file, if it is an object.
  abbrev pub namespace_of : Option Value → Option (Map String Value)
  namespace_of o = and_then o json.as_object

  abbrev pub is_readable : Option Value → Bool
  is_readable o = elim (namespace_of o) [
    | none ↦ true
    | some existing ↦ is_some (runt_of_object json serdes existing)
  ]

  read_namespace :
      (n : Option (Map String Value)) (r : RuntMetadata) (merged : Map String Value)
      → (elim n [ none ↦ true | some existing ↦ is_some (runt_of_object json serdes existing) ])
        ≡ true
      → merged ≡ (elim n [
        | none ↦ runt_entries json serdes r
        | some existing ↦ keep_missing json existing (runt_entries json serdes r)
      ])
      → runt_of_object json serdes merged
        ≡ some (merged_with (and_then n (runt_of_object json serdes)) r)
  read_namespace none r merged h e = ap (runt_of_object json serdes) e ∙ runt_entries-read r
  read_namespace (some existing) r merged h e =
      elim (Option-cases (runt_of_object json serdes existing)) [
        | inl unread ↦ ground (arith, h, unread)
        | inr (old, read) ↦
            ap (runt_of_object json serdes) e
            ∙ merged_runt-get r old existing (fields_of_runt existing old read)
            ∙ ap (λ o. some (merged_with o r)) (sym read)
      ]

  pub merged_runt-read :
      (r : RuntMetadata) (o : Option Value)
      → is_readable o ≡ true
      → runt_of_object json serdes (merged_runt json serdes r o)
        ≡ some (merged_with (and_then (namespace_of o) (runt_of_object json serdes)) r)
  merged_runt-read r none h = read_namespace none r (runt_entries json serdes r) h refl
  merged_runt-read r (some v) h =
      read_namespace (json.as_object v) r (merged_runt json serdes r (some v)) h refl

  get-merge_kernelspec :
      (k : String) (ks : Option KernelspecSnapshot) (m : Map String Value)
      → Map.get k (merge_kernelspec json serdes ks m)
        ≡ (if "kernelspec" == k then map_some serdes.kernelspecs.to_value ks else Map.get k m)
  get-merge_kernelspec k none m = ground (arith, get-remove k "kernelspec" m)
  get-merge_kernelspec k (some ks) m =
      ground (arith, get-insert k "kernelspec" (serdes.kernelspecs.to_value ks) m)

  get-merge_language_info :
      (k : String) (li : Option LanguageInfoSnapshot) (m : Map String Value)
      → ("language_info" == k) ≡ false
      → Map.get k (merge_language_info json li m) ≡ Map.get k m
  get-merge_language_info k none m h = ground (arith, get-remove k "language_info" m, h)
  get-merge_language_info k (some li) m h = go (Map.get "language_info" m)
    where
      put : (v : Value) → Map.get k (Map.insert "language_info" v m) ≡ Map.get k m
      put v = ground (arith, get-insert k "language_info" v m, h)

      into :
          (e : Option (Map String Value))
          → Map.get k (elim e [
            | none ↦ m
            | some existing ↦
                Map.insert "language_info"
                  (json.object (insert_all json (language_info_entries json li) existing))
                  m
          ])
            ≡ Map.get k m
      into none = refl
      into (some existing) = put _

      go :
          (o : Option Value)
          → Map.get k (merge_into_language_info json (language_info_entries json li) o m)
            ≡ Map.get k m
      go none = put _
      go (some v) = into (json.as_object v)

  -- What stands under a key after the merge, for the keys that are not the namespace or the language.
  merge_object-get :
      (k : String) (snapshot : NotebookMetadataSnapshot) (m : Map String Value)
      → ("runt" == k) ≡ false
      → ("language_info" == k) ≡ false
      → Map.get k (merge_object json serdes snapshot m) ≡ (
          if "kernelspec" == k
          then map_some serdes.kernelspecs.to_value snapshot.kernelspec
          else Map.get k m)
  merge_object-get k snapshot m r l =
      let ks = merge_kernelspec json serdes snapshot.kernelspec m in
      rw (get-insert, r)
        (get-merge_language_info k snapshot.language_info ks l
          ∙ get-merge_kernelspec k snapshot.kernelspec m)

  runt_after :
      (snapshot : NotebookMetadataSnapshot) (m : Map String Value)
      → Map.get "runt" (merge_object json serdes snapshot m)
        ≡ some (json.object (merged_runt json serdes snapshot.runt (Map.get "runt" m)))
  runt_after snapshot m =
      let ks = merge_kernelspec json serdes snapshot.kernelspec m in
      let obj = merge_language_info json snapshot.language_info ks in
      get-insert "runt" "runt" _ obj
      ∙ ap (λ o. some (json.object (merged_runt json serdes snapshot.runt o)))
          (get-merge_language_info "runt" snapshot.language_info ks refl
            ∙ get-merge_kernelspec "runt" snapshot.kernelspec m)

  merge_opened :
      (snapshot : NotebookMetadataSnapshot) (metadata : Value) (m : Map String Value)
      → json.as_object metadata ≡ some m
      → merge_into_metadata_value json serdes snapshot metadata
        ≡ json.object (merge_object json serdes snapshot m)
  unfolding merge_into_metadata_value
  merge_opened snapshot metadata m h = rw (merge_into_metadata_value, h) refl

  -- The namespace that is read after a merge is that of the snapshot, and each part that the snapshot
  -- lacks is the part of the file's namespace. The file's namespace has to be absent, no object, or
  -- well formed.
  pub merge_into_metadata_value-runt :
      (snapshot : NotebookMetadataSnapshot) (metadata : Value) (m : Map String Value)
      → json.as_object metadata ≡ some m
      → is_readable (Map.get "runt" m) ≡ true
      → (from_metadata_value json serdes
          (merge_into_metadata_value json serdes snapshot metadata)).runt
        ≡ merged_with
            (and_then (namespace_of (Map.get "runt" m)) (runt_of_object json serdes))
            snapshot.runt
  unfolding from_metadata_value
  merge_into_metadata_value-runt snapshot metadata m h readable =
      let merged = merge_object json serdes snapshot m in
      let runt = merged_runt json serdes snapshot.runt (Map.get "runt" m) in
      let value = merge_into_metadata_value json serdes snapshot metadata in
      let got : json.get "runt" value ≡ some (json.object runt) =
        ap (json.get "runt") (merge_opened snapshot metadata m h)
        ∙ json.get-object "runt" merged
        ∙ runt_after snapshot m in
      ap (λ o. unwrap_or (and_then o (runt_from_value json serdes)) (legacy_runt json serdes value))
        got
      ∙ ap
          (λ o. unwrap_or (and_then o (runt_of_object json serdes)) (legacy_runt json serdes value))
          (json.as_object-object runt)
      ∙ ap (λ o. unwrap_or o (legacy_runt json serdes value))
          (merged_runt-read snapshot.runt (Map.get "runt" m) readable)

  -- A merge writes the kernel specification of the snapshot, or takes it away, and keeps every key that
  -- it does not track.
  merge_into_metadata_value-get :
      (k : String) (snapshot : NotebookMetadataSnapshot) (metadata : Value) (m : Map String Value)
      → json.as_object metadata ≡ some m
      → ("runt" == k) ≡ false
      → ("language_info" == k) ≡ false
      → (json.get k (merge_into_metadata_value json serdes snapshot metadata) ≡ (
          if "kernelspec" == k
          then map_some serdes.kernelspecs.to_value snapshot.kernelspec
          else Map.get k m))
        × ((from_metadata_value json serdes
              (merge_into_metadata_value json serdes snapshot metadata)).kernelspec
            ≡ snapshot.kernelspec)
  unfolding from_metadata_value
  merge_into_metadata_value-get k snapshot metadata m h r l =
      let merged = merge_object json serdes snapshot m in
      let opened = merge_opened snapshot metadata m h in
      (
        ap (json.get k) opened ∙ json.get-object k merged ∙ merge_object-get k snapshot m r l,
        ap (λ o. and_then o serdes.kernelspecs.from_value)
              (ap (json.get "kernelspec") opened
                ∙ json.get-object "kernelspec" merged
                ∙ merge_object-get "kernelspec" snapshot m refl refl)
            ∙ read_back snapshot.kernelspec,
      )
    where
      read_back :
          (o : Option KernelspecSnapshot)
          → and_then (map_some serdes.kernelspecs.to_value o) serdes.kernelspecs.from_value ≡ o
      read_back none = refl
      read_back (some ks) = serdes.kernelspecs.from_value-to_value ks
