-- ===== src/BlobStore/Tests.antt =====
-- The theorems on the blob store at concrete calls.
use runt.Prelude.{
  ℕ, zero, suc, true, false, some, List, [], ◌∷◌, ◌≡◌, refl, arith, length, nat_eq, contains, ◌++◌,
  ◌&&◌,
}
use runt.Prelude.Texts.{Text, text_eq, starts_with, ends_with}
use runt.Prelude.Map.{get as lookup, insert, remove}
use runt.Stream.{IoResult, ok}
use runt.Connection.{Codec}
use runt.BlobStore.{
  Disk, list, list_shard, all_hexdigits, is_hexdigit, Outcome, succeeds, fails, begin, done,
  validate_hash, all_hexdigits, is_hexdigit, BlobMeta, Put, put_step, access, get, exists,
}
use runt.BlobStore.Content.{IsNamed}
use runt.BlobStore.Interleaving.{
  World, Event, steps, happen, happen_all, AreNamed, IsSound, get_returns_content,
}
use runt.BlobStore.Lone.{run_put}
use runt.BlobStore.Results.{put_ends, HasBlob, HasMeta}
use runt.BlobStore.Listing.{list-contains}
use runt.BlobStore.Race.{IsRacing, schedule, put_loses_blob}

abbrev repeat : ℕ → ℕ → Text
repeat zero c = []
repeat (suc n) c = c ∷ repeat n c

-- All bytes have the hash aaa...: a digest may do that, as the theorems ask for no more.
abbrev digest_test : List ℕ → Text
digest_test bytes = repeat 64 97

abbrev codec_test : Codec BlobMeta
codec_test = record {
  to_vec = λ m. ok (m.size ∷ []);
  from_slice =
      λ bytes. ok (record { media_type = "text/plain"; size = length bytes; created_at = 0 });
}

-- The UUIDs of the i-th call.
abbrev put_test : ℕ → Put
put_test i = record {
  bytes = 1 ∷ 2 ∷ 3 ∷ [];
  media_type = "text/plain";
  made_at = 0;
  blob_id = i ∷ repeat 35 48;
  meta_id = i ∷ repeat 35 49;
  stage = begin;
}

abbrev start : World
start = record { puts = put_test; disk = record { dirs = []; files = [] } }

hash_valid : validate_hash (repeat 64 97) ≡ true
unfolding validate_hash all_hexdigits is_hexdigit
hash_valid = refl

put_test-IsNamed : (i : ℕ) → IsNamed digest_test codec_test (put_test i)
put_test-IsNamed i = record { hashed = hash_valid; blob_length = refl; meta_length = refl }

start-AreNamed : AreNamed digest_test codec_test start.puts
start-AreNamed = record { named = put_test-IsNamed; differ = λ i j apart same. apart cc }

start-IsSound : IsSound digest_test codec_test start
unfolding lookup
start-IsSound = record {
  addressed = λ h bytes valid found. ground arith;
  staged = λ i h. ground arith;
}

abbrev two_writers : List Event
two_writers =
    steps 0 succeeds
    ∷ steps 1 succeeds
    ∷ steps 0 succeeds
    ∷ steps 1 succeeds
    ∷ steps 0 succeeds
    ∷ steps 1 (fails (1 ∷ []))
    ∷ steps 0 succeeds
    ∷ []

two_written :
    get succeeds (repeat 64 97) (happen_all digest_test codec_test two_writers start).disk
    ≡ ok (some (1 ∷ 2 ∷ 3 ∷ []))
unfolding get happen_all happen put_step access validate_hash all_hexdigits is_hexdigit lookup
    insert remove
two_written = refl

get_returns_content_example : digest_test (1 ∷ 2 ∷ 3 ∷ []) ≡ repeat 64 97
get_returns_content_example =
    get_returns_content digest_test codec_test two_writers start succeeds (repeat 64 97)
      (1 ∷ 2 ∷ 3 ∷ []) start-AreNamed start-IsSound two_written

abbrev twelve : List Outcome
twelve =
    succeeds
    ∷ succeeds
    ∷ succeeds
    ∷ fails []
    ∷ succeeds
    ∷ succeeds
    ∷ succeeds
    ∷ succeeds
    ∷ succeeds
    ∷ succeeds
    ∷ succeeds
    ∷ succeeds
    ∷ []

put_ends_example :
    let end = run_put digest_test codec_test twelve begin (put_test 0) start.disk in
    (r : IoResult Text) × (end.0 ≡ done r)
    × ((hash : Text)
        → r ≡ ok hash
        → (hash ≡ repeat 64 97)
          × HasBlob digest_test codec_test (put_test 0) end.1
          × HasMeta digest_test codec_test (put_test 0) end.1)
put_ends_example =
    put_ends digest_test codec_test (put_test 0) twelve start.disk (put_test-IsNamed 0)
      (omega arith)

-- Both calls place the blob, and the second then fails to write its metadata.
abbrev before_race : List Event
before_race =
    steps 0 succeeds
    ∷ steps 1 succeeds
    ∷ steps 0 succeeds
    ∷ steps 1 succeeds
    ∷ steps 0 succeeds
    ∷ steps 1 succeeds
    ∷ steps 0 succeeds
    ∷ steps 1 succeeds
    ∷ steps 0 succeeds
    ∷ steps 1 (fails [])
    ∷ steps 1 succeeds
    ∷ []

abbrev racing : World
unfolding happen_all happen put_step access lookup insert remove
racing = happen_all digest_test codec_test before_race start

racing-IsRacing : IsRacing digest_test codec_test 0 1 racing
unfolding happen_all happen put_step access lookup insert remove
racing-IsRacing = record {
  apart = omega arith;
  same_bytes = refl;
  first = refl;
  second = refl;
  staged = refl;
  no_meta = refl;
}

put_loses_blob_example :
    let end = happen_all digest_test codec_test (schedule digest_test codec_test 0 1) racing in
    ((end.puts 0).stage ≡ done (ok (repeat 64 97))) × (exists (repeat 64 97) end.disk ≡ false)
unfolding happen_all happen put_step access lookup insert remove
put_loses_blob_example = put_loses_blob digest_test codec_test 0 1 racing racing-IsRacing

-- A directory with a blob, its metadata and what a failed write left.
abbrev listed : Disk
listed = record {
  dirs = (97 ∷ 97 ∷ []) ∷ [];
  files =
      ((97 ∷ 97 ∷ [], repeat 62 97), 1 ∷ [])
      ∷ ((97 ∷ 97 ∷ [], repeat 62 97 ++ 46 ∷ 109 ∷ 101 ∷ 116 ∷ 97 ∷ []), [])
      ∷ ((97 ∷ 97 ∷ [], 46 ∷ 116 ∷ 109 ∷ 112 ∷ 46 ∷ 48 ∷ []), [])
      ∷ [];
}

list-listed : list listed.dirs listed ≡ repeat 64 97 ∷ []
unfolding list list_shard validate_hash all_hexdigits is_hexdigit starts_with ends_with
list-listed = refl

list-contains_example :
    contains (list listed.dirs listed) (repeat 64 97)
    ≡ (contains listed.dirs (97 ∷ 97 ∷ []) && exists (repeat 64 97) listed)
list-contains_example = list-contains listed.dirs (repeat 64 97) listed
