-- ===== src/OutputStore/Tests.antt =====
-- A bundle with an inlined text, a stored one and a JSON value.
use runt.Prelude.{
  ℕ, zero, suc, String, Bool, true, false, if◌then◌else◌, ◌==◌, some, List, [], ◌∷◌, ◌≡◌, refl,
  arith, contains, length, string_eq, All, inl, inr, pair_eq, nat_eq,
}
use runt.Prelude.Codes.{codes, from_codes, from_codes-codes}
use runt.Prelude.Texts.{Text, text_eq}
use runt.Prelude.Map.{Map, insert, remove, get as lookup}
use runt.Prelude.Distinct.{Distinct, keys}
use runt.Json.Tree.{Tree, text, node, end, trees, tree_object}
use runt.Stream.{ok}
use runt.BlobStore.{validate_hash, all_hexdigits, is_hexdigit, Outcome, succeeds, access}
use runt.BlobStore.Lone.{run_put}
use runt.OutputStore.{
  Utf8, Printer, Blobs, ContentRef, inline, blob, from_data, value_to_string, convert_entries,
  convert_data_bundle, resolve_data_bundle, restored_value,
}
use runt.OutputStore.Bundles.{bundle_round_trip, restored, IsPlain, HasSafeText}
use runt.OutputStore.Stored.{Setting, Calls, stored}

-- A text's bytes, for this test, are the numbers of its characters.
abbrev strings : Utf8
strings = record {
  Bytes = List ℕ;
  len = length;
  as_bytes = codes;
  from_utf8 = from_codes;
  from_utf8-as_bytes = from_codes-codes;
}

abbrev repeat : ℕ → ℕ → Text
repeat zero c = []
repeat (suc n) c = c ∷ repeat n c

-- Three hashes, by the first character, and the content in use with each.
abbrev tag : Bool → Bool → ℕ
tag true b = 97
tag false true = 98
tag false false = 99

abbrev digest_test : List ℕ → Text
digest_test [] = 99 ∷ repeat 63 97
digest_test (c ∷ bytes) = tag (c == 104) (c == 60) ∷ repeat 63 97

abbrev content_test : Text → List ℕ
content_test [] = codes "{}"
content_test (c ∷ h) =
    if c == 97 then codes "hi" else if c == 98 then codes "<b>hello</b>" else codes "{}"

tag-hashed : (a b : Bool) → validate_hash (tag a b ∷ repeat 63 97) ≡ true
unfolding validate_hash all_hexdigits is_hexdigit
tag-hashed true b = refl
tag-hashed false true = refl
tag-hashed false false = refl

digest_test-hashed : (bytes : List ℕ) → validate_hash (digest_test bytes) ≡ true
digest_test-hashed [] = tag-hashed false false
digest_test-hashed (c ∷ bytes) = tag-hashed (c == 104) (c == 60)

abbrev every_success : List Outcome
every_success =
    succeeds ∷ succeeds ∷ succeeds ∷ succeeds ∷ succeeds ∷ succeeds ∷ succeeds ∷ succeeds ∷ succeeds
    ∷ succeeds ∷ succeeds ∷ succeeds ∷ []

abbrev setting_test : Setting
setting_test = record {
  digest = digest_test;
  codec = record {
    to_vec = λ m. ok (m.size ∷ []);
    from_slice =
        λ bytes. ok (record { media_type = "text/plain"; size = length bytes; created_at = 0 });
  };
  content_of = content_test;
  calls = λ i. record {
    blob_id = i ∷ repeat 35 48;
    meta_id = i ∷ repeat 35 49;
    made_at = 0;
    outcomes = every_success;
  };
  hashed = digest_test-hashed;
  blob_ids = λ i. refl;
  meta_ids = λ i. refl;
  enough = λ i. omega arith;
}

abbrev files : Blobs (List ℕ)
files = stored setting_test

abbrev nothing_stored : Calls
nothing_stored = record { count = 0; disk = record { dirs = []; files = [] } }

nothing_stored-IsGood : files.IsGood nothing_stored
unfolding lookup
nothing_stored-IsGood h bytes valid found = ground arith

-- The empty object, and its text.
abbrev printer_test : Printer trees
printer_test = record { to_string = λ v. some "{}"; from_str = λ s. some (node end) }

abbrev bundle : Map String Tree
bundle =
    ("text/plain", text "hi")
    ∷ ("text/html", text "<b>hello</b>")
    ∷ ("application/json", node end)
    ∷ []

abbrev stored_refs : Map String ContentRef
stored_refs =
    ("application/json", inline "{}")
    ∷ ("text/html", blob (98 ∷ repeat 63 97) 12)
    ∷ ("text/plain", inline "hi")
    ∷ []

bundle-Distinct : Distinct (keys bundle)
unfolding contains
bundle-Distinct = (refl, (refl, (refl, tt)))

convert_bundle :
    (convert_data_bundle strings files trees printer_test
      (some (tree_object bundle))
      8
      nothing_stored).0
    ≡ ok stored_refs
unfolding convert_data_bundle convert_entries from_data value_to_string insert remove run_put access
    lookup
convert_bundle = refl

bundle-HasSafeText : All (HasSafeText strings files trees printer_test) bundle
unfolding value_to_string
bundle-HasSafeText = (refl, (refl, (refl, tt)))

bundle_round_trip_example :
    let s' =
      (convert_data_bundle strings files trees printer_test
        (some (tree_object bundle))
        8
        nothing_stored).1 in
    (resolve_data_bundle strings files trees printer_test stored_refs s'
      ≡ ok (restored strings files trees printer_test bundle))
    × (All (IsPlain strings files trees printer_test) bundle
        → resolve_data_bundle strings files trees printer_test stored_refs s' ≡ ok bundle)
bundle_round_trip_example =
    bundle_round_trip strings files trees printer_test (tree_object bundle) bundle 8 nothing_stored
      stored_refs refl bundle-Distinct bundle-HasSafeText nothing_stored-IsGood convert_bundle

bundle-IsPlain : All (IsPlain strings files trees printer_test) bundle
bundle-IsPlain = (
  inl (refl, "hi", refl, refl),
  (inl (refl, "<b>hello</b>", refl, refl), (inr (refl, refl, "{}", refl, refl), tt)),
)

-- A string under a JSON type comes back as what it parses to.
parsed_string : restored_value strings files trees printer_test "application/json" "{}" ≡ node end
unfolding restored_value
parsed_string = refl
