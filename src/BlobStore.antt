-- ===== src/BlobStore.antt =====
-- crates/runtimed/src/blob_store.rs: the content-addressed store. A text is the list of its characters.
-- The disk holds directories and files; `put` is a machine with one step for each access to the disk,
-- each of which may fail, so that several writers interleave. SHA-256 and serde_json are parameters.
pub mod Paths
pub mod Content
pub mod Writers
pub mod Interleaving
pub mod Lone
pub mod Results
pub mod Race
pub mod Listing
mod Tests
use runt.Prelude.{
  ℕ, zero, suc, String, ◌+◌, ◌-◌, ◌*◌, ◌≤◌, ◌<◌, Bool, true, false, not, ◌&&◌, ◌||◌, Option, none,
  some, List, [], ◌∷◌, ◌++◌, PartialEq, pair_eq, nat_eq, ◌==◌, ltb, leb, if◌then◌else◌, length,
  take, drop, is_some, contains, ◌≡◌,
}
use runt.Prelude.Texts.{Text, text_eq, starts_with, ends_with}
use runt.Prelude.Map.{Map}
use runt.Prelude.Map
use runt.Stream.{IoError, other, invalid_json, IoResult, ok, err}
use runt.Connection.{Codec}

abbrev pub max_blob_size : ℕ
max_blob_size = 100 * 1024 * 1024

pub record BlobMeta : Type 0 where
  pub media_type : String
  pub size : ℕ
  pub created_at : ℕ

-- `.meta` and `.tmp.`, in characters.
abbrev pub dot_meta : Text
dot_meta = 46 ∷ 109 ∷ 101 ∷ 116 ∷ 97 ∷ []

abbrev pub dot_tmp : Text
dot_tmp = 46 ∷ 116 ∷ 109 ∷ 112 ∷ 46 ∷ []

-- A file under the root: its directory and its name.
abbrev pub Location : Type 0
Location = Text × Text

pub record Disk : Type 0 where
  pub dirs : List Text
  pub files : Map Location (List ℕ)

unfoldable pub is_hexdigit : ℕ → Bool
is_hexdigit c = (leb 48 c && leb c 57) || (leb 97 c && leb c 102) || (leb 65 c && leb c 70)

unfoldable pub all_hexdigits : Text → Bool
unfolding is_hexdigit
all_hexdigits [] = true
all_hexdigits (c ∷ cs) = is_hexdigit c && all_hexdigits cs

unfoldable pub validate_hash : Text → Bool
unfolding all_hexdigits
validate_hash hash = length hash == 64 && all_hexdigits hash

-- The three results of `paths`.
abbrev pub shard_dir : Text → Text
shard_dir hash = take 2 hash

abbrev pub blob_path : Text → Location
blob_path hash = (shard_dir hash, drop 2 hash)

abbrev pub meta_path : Text → Location
meta_path hash = (shard_dir hash, drop 2 hash ++ dot_meta)

abbrev pub present : Location → Disk → Bool
present p d = is_some (Map.get p d.files)

abbrev pub write_file : Location → List ℕ → Disk → Disk
write_file p bytes d = record d { files = Map.insert p bytes d.files }

abbrev pub remove_file : Location → Disk → Disk
remove_file p d = record d { files = Map.remove p d.files }

-- How an access ends; a write that fails may leave a part of the bytes.
pub data Outcome : Type 0 where
  succeeds : Outcome
  fails : List ℕ → Outcome

pub data Stage : Type 0 where
  begin check_meta make_dir write_blob rename_blob drop_blob_tmp check_blob : Stage
  write_meta rename_meta drop_meta_tmp check_meta_again : Bool → Stage
  remove_blob : Stage
  done : IoResult Text → Stage

-- A call of `put`, with the two UUIDs and the time that it will draw.
pub record Put : Type 0 where
  pub bytes : List ℕ
  pub media_type : String
  pub made_at : ℕ
  pub blob_id : Text
  pub meta_id : Text
  pub stage : Stage

abbrev pub meta_of : Put → BlobMeta
meta_of p = record { media_type = p.media_type; size = length p.bytes; created_at = p.made_at }

-- `rename` of a file with the given bytes, if it is there: what stood at the target is replaced.
abbrev pub renamed : Option (List ℕ) → Location → Location → Stage → Stage → Disk → Stage × Disk
renamed none from to good bad d = (bad, d)
renamed (some bytes) from to good bad d = (good, write_file to bytes (remove_file from d))

-- The write of the metadata, once they are encoded.
abbrev pub written : IoResult (List ℕ) → Bool → Outcome → Location → Disk → Stage × Disk
written (err e) wrote o tmp d = (done (err e), d)
written (ok json) wrote (fails part) tmp d = (drop_meta_tmp wrote, write_file tmp part d)
written (ok json) wrote succeeds tmp d = (rename_meta wrote, write_file tmp json d)

abbrev pub failure : IoResult Text
failure = err (other "i/o error")

abbrev pub create_dir_all : Text → Disk → Disk
create_dir_all dir d = record d { dirs = if contains d.dirs dir then d.dirs else dir ∷ d.dirs }

module _ (digest : List ℕ → Text) where
  abbrev pub hash_of : Put → Text
  hash_of p = digest p.bytes

  abbrev pub tmp_blob : Put → Location
  tmp_blob p = (shard_dir (hash_of p), dot_tmp ++ p.blob_id)

  abbrev pub tmp_meta : Put → Location
  tmp_meta p = (shard_dir (hash_of p), dot_tmp ++ (p.meta_id ++ dot_meta))

  module _ (codec : Codec BlobMeta) where
    -- One access of `put` to the disk, at a stage.
    unfoldable pub access : Stage → Outcome → Put → Disk → Stage × Disk
    access begin o p d = (
      if ltb max_blob_size (length p.bytes)
          then done (err (other "blob too large"))
          else if present (blob_path (hash_of p)) d
          then check_meta
          else make_dir,
      d,
    )
    access check_meta o p d =
        (if present (meta_path (hash_of p)) d then done (ok (hash_of p)) else make_dir, d)
    access make_dir (fails _) p d = (done failure, d)
    access make_dir succeeds p d = (write_blob, create_dir_all (shard_dir (hash_of p)) d)
    access write_blob (fails part) p d = (drop_blob_tmp, write_file (tmp_blob p) part d)
    access write_blob succeeds p d = (rename_blob, write_file (tmp_blob p) p.bytes d)
    access rename_blob (fails _) p d = (drop_blob_tmp, d)
    access rename_blob succeeds p d =
        renamed (Map.get (tmp_blob p) d.files) (tmp_blob p) (blob_path (hash_of p))
          (write_meta true) drop_blob_tmp d
    access drop_blob_tmp (fails _) p d = (check_blob, d)
    access drop_blob_tmp succeeds p d = (check_blob, remove_file (tmp_blob p) d)
    access check_blob o p d =
        (if present (blob_path (hash_of p)) d then write_meta false else done failure, d)
    access (write_meta wrote) o p d = written (codec.to_vec (meta_of p)) wrote o (tmp_meta p) d
    access (rename_meta wrote) (fails _) p d = (drop_meta_tmp wrote, d)
    access (rename_meta wrote) succeeds p d =
        renamed (Map.get (tmp_meta p) d.files) (tmp_meta p) (meta_path (hash_of p))
          (done (ok (hash_of p))) (drop_meta_tmp wrote) d
    access (drop_meta_tmp wrote) (fails _) p d = (check_meta_again wrote, d)
    access (drop_meta_tmp wrote) succeeds p d = (check_meta_again wrote, remove_file (tmp_meta p) d)
    access (check_meta_again wrote) o p d = (
      if present (meta_path (hash_of p)) d
          then done (ok (hash_of p))
          else if wrote
          then remove_blob
          else done failure,
      d,
    )
    access remove_blob (fails _) p d = (done failure, d)
    access remove_blob succeeds p d = (done failure, remove_file (blob_path (hash_of p)) d)
    access (done r) o p d = (done r, d)

    unfoldable pub put_step : Outcome → Put → Disk → Stage × Disk
    unfolding access
    put_step o p d = access p.stage o p d

unfoldable pub get : Outcome → Text → Disk → IoResult (Option (List ℕ))
unfolding validate_hash
get o hash d =
    if validate_hash hash
    then elim o [
      | fails _ ↦ err (other "i/o error")
      | succeeds ↦ ok (Map.get (blob_path hash) d.files)
    ]
    else ok none

unfoldable pub get_meta : Codec BlobMeta → Outcome → Text → Disk → IoResult (Option BlobMeta)
unfolding validate_hash
get_meta codec o hash d =
    if validate_hash hash
    then elim o [
      | fails _ ↦ err (other "i/o error")
      | succeeds ↦ elim (Map.get (meta_path hash) d.files) [
        | none ↦ ok none
        | some json ↦ elim (codec.from_slice json) [ ok m ↦ ok (some m) | err e ↦ err invalid_json ]
      ]
    ]
    else ok none

unfoldable pub exists : Text → Disk → Bool
unfolding validate_hash
exists hash d = validate_hash hash && present (blob_path hash) d

abbrev pub removed_if : Outcome → Location → Disk → Disk
removed_if succeeds p d = remove_file p d
removed_if (fails _) p d = d

unfoldable pub delete : Outcome → Outcome → Text → Disk → Bool × Disk
unfolding exists validate_hash
delete o₁ o₂ hash d =
    if exists hash d
    then (true, removed_if o₂ (meta_path hash) (removed_if o₁ (blob_path hash) d))
    else (false, d)

-- The names in a directory that are taken for blobs.
abbrev pub is_blob_name : Text → Text → Bool
is_blob_name shard name =
    not (ends_with dot_meta name || starts_with (take 4 dot_tmp) name)
    && validate_hash (shard ++ name)

-- The hashes of one directory.
unfoldable pub list_shard : Text → Map Location (List ℕ) → List Text
unfolding validate_hash
list_shard shard [] = []
list_shard shard (((dir, name), bytes) ∷ files) =
    let rest = list_shard shard files in
    if dir == shard && is_blob_name shard name then (shard ++ name) ∷ rest else rest

unfoldable pub list : List Text → Disk → List Text
unfolding list_shard all_hexdigits
list [] d = []
list (shard ∷ dirs) d =
    let rest = list dirs d in
    if length shard == 2 && all_hexdigits shard then list_shard shard d.files ++ rest else rest
