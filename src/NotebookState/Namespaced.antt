-- ===== src/NotebookState/Namespaced.antt =====
-- The migration of legacy metadata as its readers see it: the namespace goes before a legacy key.
use runt.Prelude.{
  String, true, false, Option, none, some, [], ◌∷◌, ◌==◌, string_eq, if◌then◌else◌, unwrap_or, ◌≡◌,
  refl, ap, sym, ◌∙◌, arith,
}
use runt.Prelude.Map.{Map, get-insert, get-remove, get-nil}
use runt.Prelude.Map
use runt.Prelude.Options.{and_then, or_else}
use runt.Json.{Json}
use runt.NotebookState.Migrated.{
  is_legacy, by_legacy, legacy_ne, get-migrate_key, get-put_back, get-without_legacy,
  runt_or_new-without_legacy, legacy_absent, get-migrate_into,
}
use runt.NotebookState.Migration.{
  migrate_key, put_back, runt_or_new, without_legacy, migrate_into, migrate_legacy_metadata,
}

module _ (json : Json) where
  open json use {Value}

  abbrev pub in_object : String → Option Value → Option Value
  in_object k o = and_then o (λ v. and_then (json.as_object v) (Map.get k))

  -- A key of the namespace, and the key as the program reads it: the namespace goes first.
  abbrev pub namespaced : String → Map String Value → Option Value
  namespaced k m = in_object k (Map.get "runt" m)

  abbrev pub lookup : String → Map String Value → Option Value
  lookup k m = or_else (namespaced k m) (Map.get k m)

  namespaced-insert :
      (k : String) (v : Value) (m : Map String Value)
      → namespaced k (Map.insert "runt" v m) ≡ and_then (json.as_object v) (Map.get k)
  namespaced-insert k v m = rw get-insert refl

  get-migrate_keys :
      (k : String) (uv conda deno : Option Value) (obj : Map String Value)
      → is_legacy k ≡ true
      → Map.get k
          (migrate_key json "deno" deno
            (migrate_key json "conda" conda (migrate_key json "uv" uv (false, obj)))).1
        ≡ or_else (Map.get k obj) (if "uv" == k then uv else if "conda" == k then conda else deno)
  get-migrate_keys k uv conda deno obj l =
      by_legacy
        (λ k.
          Map.get k
            (migrate_key json "deno" deno
              (migrate_key json "conda" conda (migrate_key json "uv" uv (false, obj)))).1
          ≡ or_else (Map.get k obj)
              (if "uv" == k then uv else if "conda" == k then conda else deno))
        (get-migrate_key json "uv" "deno" deno _
          ∙ get-migrate_key json "uv" "conda" conda _
          ∙ get-migrate_key json "uv" "uv" uv _)
        (get-migrate_key json "conda" "deno" deno _
          ∙ get-migrate_key json "conda" "conda" conda _
          ∙ ap (λ x. or_else x conda) (get-migrate_key json "conda" "uv" uv _))
        (get-migrate_key json "deno" "deno" deno _
          ∙ ap (λ x. or_else x deno)
              (get-migrate_key json "deno" "conda" conda _ ∙ get-migrate_key json "deno" "uv" uv _))
        k l

  -- The legacy value that a key takes from the dictionary.
  pick-legacy :
      (k : String) (m : Map String Value)
      → is_legacy k ≡ true
      → (if "uv" == k
          then Map.get "uv" m
          else if "conda" == k
          then Map.get "conda" m
          else Map.get "deno" m)
        ≡ Map.get k m
  pick-legacy k m =
      by_legacy
        (λ k.
          (if "uv" == k
            then Map.get "uv" m
            else if "conda" == k
            then Map.get "conda" m
            else Map.get "deno" m)
          ≡ Map.get k m)
        refl refl refl k

  fresh :
      (k : String) (obj : Map String Value)
      → json.as_object (json.object (("schema_version", json.string "1") ∷ [])) ≡ some obj
      → ("schema_version" == k) ≡ false
      → Map.get k obj ≡ none
  unfolding Map.get
  fresh k obj h other =
      ground (arith, json.as_object-object (("schema_version", json.string "1") ∷ []), h, other)

  -- The namespace that a migration starts from has what the dictionary has.
  namespaced_start :
      (k : String) (o : Option Value) (obj : Map String Value)
      → is_legacy k ≡ true
      → json.as_object (unwrap_or o (json.object (("schema_version", json.string "1") ∷ [])))
        ≡ some obj
      → Map.get k obj ≡ in_object k o
  namespaced_start k (some v) obj l h = rw h refl
  namespaced_start k none obj l h =
      by_legacy (λ k. Map.get k obj ≡ none) (fresh "uv" obj h refl) (fresh "conda" obj h refl)
        (fresh "deno" obj h refl) k l

  -- A namespace that is no object has no key.
  in_object-none :
      (k : String) (o : Option Value)
      → json.as_object (unwrap_or o (json.object (("schema_version", json.string "1") ∷ []))) ≡ none
      → in_object k o ≡ none
  in_object-none k (some v) h = rw h refl
  in_object-none k none h = refl

  get-put_backs :
      (m kept : Map String Value) (v : Value)
      → Map.get "runt" (
          put_back json "deno" (Map.get "deno" m) (
            put_back json "conda"
              (Map.get "conda" m)
              (put_back json "uv" (Map.get "uv" m) (Map.insert "runt" v kept))))
        ≡ some v
  get-put_backs m kept v =
      get-put_back json "runt" "deno" (Map.get "deno" m) _
      ∙ get-put_back json "runt" "conda" (Map.get "conda" m) _
      ∙ get-put_back json "runt" "uv" (Map.get "uv" m) _
      ∙ get-insert "runt" "runt" v kept

  lookup-migrate_into :
      (k : String) (o : Option (Map String Value)) (m : Map String Value)
      → is_legacy k ≡ true
      → json.as_object (runt_or_new json m) ≡ o
      → lookup k (migrate_into json o m (without_legacy json m)).1 ≡ lookup k m
  lookup-migrate_into k none m l h =
      let v = runt_or_new json (without_legacy json m) in
      let unread : in_object k (some v) ≡ none =
        ap (λ o. and_then o (Map.get k))
          (ap json.as_object (runt_or_new-without_legacy json m) ∙ h) in
      ground (
        arith,
        ap (in_object k) (get-put_backs m (without_legacy json m) v),
        unread,
        in_object-none k (Map.get "runt" m) h,
        get-migrate_into json k none m (legacy_ne k l),
        l,
      )
  lookup-migrate_into k (some obj) m l h =
      let r = migrate_key json "deno" (Map.get "deno" m) (
        migrate_key json "conda" (Map.get "conda" m)
          (migrate_key json "uv" (Map.get "uv" m) (false, obj))) in
      let new =
        namespaced-insert k (json.object r.1) (without_legacy json m)
        ∙ ap (λ o. and_then o (Map.get k)) (json.as_object-object r.1)
        ∙ get-migrate_keys k (Map.get "uv" m) (Map.get "conda" m) (Map.get "deno" m) obj l in
      ground (
        arith,
        new,
        pick-legacy k m l,
        namespaced_start k (Map.get "runt" m) obj l h,
        get-migrate_into json k (some obj) m (legacy_ne k l),
        l,
      )

  -- What the program reads under a legacy key, in the namespace or else at the top, is the same after
  -- the migration: no value is lost, and a value of the namespace goes before a legacy one.
  pub migrate-lookup :
      (k : String) (m : Map String Value)
      → is_legacy k ≡ true
      → lookup k (migrate_legacy_metadata json m).1 ≡ lookup k m
  unfolding migrate_legacy_metadata
  migrate-lookup k m l =
      let rest = without_legacy json m in
      ground (
        arith,
        lookup-migrate_into k (json.as_object (runt_or_new json rest)) m l
            (ap json.as_object (sym (runt_or_new-without_legacy json m))),
        get-without_legacy json "runt" m,
        get-without_legacy json k m,
        legacy_absent json k m,
      )
