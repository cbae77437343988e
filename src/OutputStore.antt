-- ===== src/OutputStore.antt =====
-- crates/runtimed/src/output_store.rs: references to content that is inlined or stored by its hash, and
-- bundles of content by MIME type. The blob store is an interface; JSON values, their text and UTF-8
-- are parameters. Manifests are left out.
pub mod References
pub mod Bundles
pub mod Stored
mod Tests
use Prim.Native.String.{len, slice}
use runt.Prelude.{
  ◌-◌, ℕ, String, Bool, ◌||◌, Option, none, some, List, [], ◌∷◌, ◌≡◌, string_eq, ◌==◌, ltb,
  if◌then◌else◌, length, unwrap_or,
}
use runt.Prelude.Texts.{Text}
use runt.Prelude.Map.{Map}
use runt.Prelude.Map
use runt.Json.{Json}
use runt.Stream.{IoResult, ok, err, other, try_then}

-- `as_bytes` and `String::from_utf8`.
pub record Utf8 : Type 1 where
  pub Bytes : Type 0
  pub len : Bytes → ℕ
  pub as_bytes : String → Bytes
  pub from_utf8 : Bytes → Option String
  pub from_utf8-as_bytes : (s : String) → from_utf8 (as_bytes s) ≡ some s

-- `serde_json::to_string` and `serde_json::from_str`.
pub record Printer (json : Json) : Type 0 where
  pub to_string : json.Value → Option String
  pub from_str : String → Option json.Value

-- `str::ends_with`.
abbrev pub ends_with : String → String → Bool
ends_with s suffix = slice s (len s - len suffix) (len s) == suffix

-- The blob store as one client sees it whose calls do not overlap with others and whose reads do not
-- fail: a blob that was put is there, and stays. `IsGood` holds of the stores that such a client meets,
-- and `IsSafe` of contents that do not collide. OutputStore.Stored fills this with the blob store.
pub record Blobs (Bytes : Type 0) : Type 1 where
  pub Store : Type 0
  pub put : Bytes → String → Store → IoResult Text × Store
  pub get : Text → Store → IoResult (Option Bytes)
  pub IsGood : Store → Type 0
  pub IsSafe : Bytes → Type 0
  pub put_good :
      (bytes : Bytes) (media_type : String) (s : Store)
      → IsSafe bytes
      → IsGood s
      → IsGood (put bytes media_type s).1
  pub put_get :
      (bytes : Bytes) (media_type : String) (s : Store) (hash : Text)
      → IsSafe bytes
      → IsGood s
      → (put bytes media_type s).0 ≡ ok hash
      → get hash (put bytes media_type s).1 ≡ ok (some bytes)
  pub put_keeps :
      (bytes : Bytes) (media_type : String) (s : Store) (hash : Text) (h : Text) (kept : Bytes)
      → IsSafe bytes
      → IsGood s
      → (put bytes media_type s).0 ≡ ok hash
      → get h s ≡ ok (some kept)
      → get h (put bytes media_type s).1 ≡ ok (some kept)

pub data ContentRef : Type 0 where
  inline : String → ContentRef
  blob : Text → ℕ → ContentRef

module _ (utf8 : Utf8) (blobs : Blobs utf8.Bytes) where
  open blobs use {Store}

  unfoldable pub from_data : String → String → ℕ → Store → IoResult ContentRef × Store
  from_data data' media_type threshold s =
      if ltb (utf8.len (utf8.as_bytes data')) threshold
      then (ok (inline data'), s)
      else try_then (blobs.put (utf8.as_bytes data') media_type s)
          (λ hash s'. (ok (blob hash (utf8.len (utf8.as_bytes data'))), s'))

  abbrev pub decode : IoResult (Option utf8.Bytes) → IoResult String
  decode (err e) = err e
  decode (ok none) = err (other "blob not found")
  decode (ok (some bytes)) = elim (utf8.from_utf8 bytes) [
    | none ↦ err (other "invalid UTF-8")
    | some s ↦ ok s
  ]

  unfoldable pub resolve : ContentRef → Store → IoResult String
  resolve (inline text) s = ok text
  resolve (blob hash size) s = decode (blobs.get hash s)

  module _ (json : Json) (printer : Printer json) where
    open json use {Value}

    unfoldable pub value_to_string : Value → String
    value_to_string value = elim (json.as_str value) [
      | some s ↦ s
      | none ↦ unwrap_or (printer.to_string value) ""
    ]

    -- The loop of `convert_data_bundle` and of `convert_value_to_content_refs`.
    unfoldable pub convert_entries :
        Map String Value
        → ℕ
        → Map String ContentRef
        → Store
        → IoResult (Map String ContentRef) × Store
    unfolding from_data value_to_string
    convert_entries [] threshold result s = (ok result, s)
    convert_entries ((mime_type, value) ∷ map) threshold result s =
        try_then (from_data (value_to_string value) mime_type threshold s)
          (λ ref s'. convert_entries map threshold (Map.insert mime_type ref result) s')

    unfoldable pub convert_data_bundle :
        Option Value → ℕ → Store → IoResult (Map String ContentRef) × Store
    unfolding convert_entries
    convert_data_bundle none threshold s = (ok [], s)
    convert_data_bundle (some data') threshold s = elim (json.as_object data') [
      | none ↦ (ok [], s)
      | some map ↦ convert_entries map threshold [] s
    ]

    abbrev pub is_structured : String → Bool
    is_structured mime_type = ends_with mime_type "+json" || mime_type == "application/json"

    -- The value that a content becomes again.
    unfoldable pub restored_value : String → String → Value
    restored_value mime_type content =
        if is_structured mime_type
        then unwrap_or (printer.from_str content) (json.string content)
        else json.string content

    abbrev pub or_fail :
        IoResult String → (String → IoResult (Map String Value)) → IoResult (Map String Value)
    or_fail (ok content) f = f content
    or_fail (err e) f = err e

    unfoldable pub resolve_entries :
        Map String ContentRef → Map String Value → Store → IoResult (Map String Value)
    unfolding resolve restored_value
    resolve_entries [] result s = ok result
    resolve_entries ((mime_type, ref) ∷ data') result s = or_fail (resolve ref s) (λ content.
        resolve_entries data' (Map.insert mime_type (restored_value mime_type content) result) s)

    unfoldable pub resolve_data_bundle : Map String ContentRef → Store → IoResult (Map String Value)
    unfolding resolve_entries
    resolve_data_bundle data' s = resolve_entries data' [] s
