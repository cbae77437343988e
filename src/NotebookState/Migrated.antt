-- ===== src/NotebookState/Migrated.antt =====
-- What the migration of legacy metadata keeps.
use runt.Prelude.{
  String, Bool, true, false, ◌||◌, Option, none, some, ◌==◌, string_eq, is_some, if◌then◌else◌, ◌≡◌,
  inl, inr, refl, subst, ap, ◌∙◌, arith, Bool-cases, beq→eq,
}
use runt.Prelude.Map.{Map, get-insert, get-remove, get-nil}
use runt.Prelude.Map
use runt.Prelude.Distinct.{remove_absent}
use runt.Prelude.Options.{or_else}
use runt.Json.{Json}
use runt.NotebookState.Migration.{
  migrate_key, put_back, runt_or_new, without_legacy, migrate_into, has_legacy,
  migrate_legacy_metadata,
}

abbrev pub is_legacy : String → Bool
is_legacy k = "uv" == k || "conda" == k || "deno" == k

-- What holds of each legacy key.
pub by_legacy :
    (P : String → Type 0) → P "uv" → P "conda" → P "deno" → (k : String) → is_legacy k ≡ true → P k
by_legacy P uv conda deno k h = elim (Bool-cases ("uv" == k)) [
  | inl e ↦ subst P (beq→eq "uv" k e) uv
  | inr not_uv ↦ elim (Bool-cases ("conda" == k)) [
    | inl e ↦ subst P (beq→eq "conda" k e) conda
    | inr not_conda ↦ subst P (beq→eq "deno" k (ground (arith, h, not_uv, not_conda))) deno
  ]
]

pub legacy_ne : (k : String) → is_legacy k ≡ true → ("runt" == k) ≡ false
legacy_ne k l = by_legacy (λ k. ("runt" == k) ≡ false) refl refl refl k l

module _ (json : Json) where
  open json use {Value}

  abbrev pub IsReadable : Map String Value → Type 0
  IsReadable m = is_some (json.as_object (runt_or_new json m)) ≡ true

  pub get-migrate_key :
      (k j : String) (o : Option Value) (r : Bool × Map String Value)
      → Map.get k (migrate_key json j o r).1
        ≡ (if j == k then or_else (Map.get k r.1) o else Map.get k r.1)
  get-migrate_key k j none r = ground arith
  get-migrate_key k j (some v) (b, m) = ground (arith, get-insert k j v m, string_eq.same_iff j k)

  pub get-put_back :
      (k j : String) (o : Option Value) (m : Map String Value)
      → Map.get k (put_back json j o m) ≡ (if j == k then or_else o (Map.get k m) else Map.get k m)
  get-put_back k j none m = ground arith
  get-put_back k j (some v) m = ground (arith, get-insert k j v m)

  pub get-without_legacy :
      (k : String) (m : Map String Value)
      → Map.get k (without_legacy json m) ≡ (if is_legacy k then none else Map.get k m)
  get-without_legacy k m = ground (
    arith,
    get-remove k "deno" (Map.remove "conda" (Map.remove "uv" m)),
    get-remove k "conda" (Map.remove "uv" m),
    get-remove k "uv" m,
  )

  pub runt_or_new-without_legacy :
      (m : Map String Value) → runt_or_new json (without_legacy json m) ≡ runt_or_new json m
  runt_or_new-without_legacy m = ground (arith, get-without_legacy "runt" m)

  pub legacy_absent :
      (k : String) (m : Map String Value)
      → has_legacy json m ≡ false
      → is_legacy k ≡ true
      → Map.get k m ≡ none
  legacy_absent k m h l = ground (
    arith,
    string_eq.same_iff "uv" k,
    string_eq.same_iff "conda" k,
    string_eq.same_iff "deno" k,
    h,
    l,
  )

  pub get-migrate_into :
      (k : String) (o : Option (Map String Value)) (m : Map String Value)
      → ("runt" == k) ≡ false
      → Map.get k (migrate_into json o m (without_legacy json m)).1
        ≡ (if is_legacy k then if is_some o then none else Map.get k m else Map.get k m)
  get-migrate_into k none m h =
      let inserted =
        Map.insert "runt" (runt_or_new json (without_legacy json m)) (without_legacy json m) in
      let uv = put_back json "uv" (Map.get "uv" m) inserted in
      ground (
        arith,
        get-put_back k "deno" (Map.get "deno" m) (put_back json "conda" (Map.get "conda" m) uv),
        get-put_back k "conda" (Map.get "conda" m) uv,
        get-put_back k "uv" (Map.get "uv" m) inserted,
        get-insert k "runt" (runt_or_new json (without_legacy json m)) (without_legacy json m),
        get-without_legacy k m,
        string_eq.same_iff "uv" k,
        string_eq.same_iff "conda" k,
        string_eq.same_iff "deno" k,
        h,
      )
  get-migrate_into k (some obj) m h = rw (get-insert, h, get-without_legacy) refl

  -- Migration leaves every key but `runt`, and takes the legacy keys away if the namespace is an
  -- object or absent; otherwise it leaves these as well.
  migrate-get :
      (k : String) (m : Map String Value)
      → ("runt" == k) ≡ false
      → Map.get k (migrate_legacy_metadata json m).1 ≡ (
          if is_legacy k
          then if is_some (json.as_object (runt_or_new json m)) then none else Map.get k m
          else Map.get k m)
  unfolding migrate_legacy_metadata
  migrate-get k m h =
      let rest = without_legacy json m in
      ground (
        arith,
        get-migrate_into k (json.as_object (runt_or_new json rest)) m h,
        runt_or_new-without_legacy m,
        get-without_legacy k m,
        legacy_absent k m,
      )

  absent-without_legacy :
      (m : Map String Value) → has_legacy json m ≡ false → without_legacy json m ≡ m
  absent-without_legacy m h =
      let uv = remove_absent "uv" m (legacy_absent "uv" m h refl) in
      let conda = remove_absent "conda" m (legacy_absent "conda" m h refl) in
      let deno = remove_absent "deno" m (legacy_absent "deno" m h refl) in
      ap (λ x. Map.remove "deno" (Map.remove "conda" x)) uv ∙ ap (Map.remove "deno") conda ∙ deno

  migrate_none :
      (m : Map String Value)
      → has_legacy json m ≡ false
      → migrate_legacy_metadata json m ≡ (false, m)
  unfolding migrate_legacy_metadata
  migrate_none m h = ground (arith, absent-without_legacy m h, h)

  no_legacy :
      (m : Map String Value)
      → Map.get "uv" m ≡ none
      → Map.get "conda" m ≡ none
      → Map.get "deno" m ≡ none
      → has_legacy json m ≡ false
  no_legacy m uv conda deno = ground (arith, uv, conda, deno)

  -- Once the namespace is an object or absent, a second migration changes nothing and says so.
  migrate_twice :
      (m : Map String Value)
      → IsReadable m
      → migrate_legacy_metadata json (migrate_legacy_metadata json m).1
        ≡ (false, (migrate_legacy_metadata json m).1)
  migrate_twice m h =
      let gone : (k : String)
          → is_legacy k ≡ true
          → Map.get k (migrate_legacy_metadata json m).1 ≡ none =
        λ k l. ground (arith, migrate-get k m (legacy_ne k l), l, h) in
      migrate_none _ (no_legacy _ (gone "uv" refl) (gone "conda" refl) (gone "deno" refl))
