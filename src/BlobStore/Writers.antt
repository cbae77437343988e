-- ===== src/BlobStore/Writers.antt =====
-- What one access of `put` to the disk touches, and what it leaves for the rename of the blob.
use runt.Prelude.{
  ℕ, Bool, true, Option, none, some, List, ◌≡◌, ◌≢◌, refl, ◌∙◌, arith, pair_eq, nat_eq,
}
use runt.Prelude.Texts.{Text, text_eq}
use runt.Prelude.Map.{get as lookup}
use runt.Stream.{IoResult, ok, err}
use runt.Connection.{Codec}
use runt.BlobStore.{
  Disk, Location, Outcome, succeeds, fails, Stage, begin, check_meta, make_dir, write_blob,
  rename_blob, drop_blob_tmp, check_blob, write_meta, rename_meta, drop_meta_tmp, check_meta_again,
  remove_blob, done, blob_path, meta_path, remove_file, BlobMeta, Put, tmp_blob, tmp_meta, access,
  renamed, written, hash_of, meta_of,
}
use runt.BlobStore.Paths.{get-write, get-write-other, get-remove-other}
use runt.BlobStore.Content.{IsStaged}

module _ (digest : List ℕ → Text) (codec : Codec BlobMeta) where
  module _ (q : Location) where
    renamed-other :
        (o : Option (List ℕ)) (from to : Location) (good bad : Stage) (d : Disk)
        → from ≢ q
        → to ≢ q
        → lookup q (renamed o from to good bad d).1.files ≡ lookup q d.files
    renamed-other none from to good bad d f t = refl
    renamed-other (some bytes) from to good bad d f t =
        get-write-other to q bytes (remove_file from d) t ∙ get-remove-other from q d f

    written-other :
        (r : IoResult (List ℕ)) (wrote : Bool) (o : Outcome) (tmp : Location) (d : Disk)
        → tmp ≢ q
        → lookup q (written r wrote o tmp d).1.files ≡ lookup q d.files
    written-other (err e) wrote o tmp d t = refl
    written-other (ok json) wrote (fails part) tmp d t = get-write-other tmp q part d t
    written-other (ok json) wrote succeeds tmp d t = get-write-other tmp q json d t

    -- An access touches no file but the four of its call.
    pub access-other :
        (s : Stage) (o : Outcome) (p : Put) (d : Disk)
        → tmp_blob digest p ≢ q
        → blob_path (hash_of digest p) ≢ q
        → tmp_meta digest p ≢ q
        → meta_path (hash_of digest p) ≢ q
        → lookup q (access digest codec s o p d).1.files ≡ lookup q d.files
    unfolding access
    access-other begin o p d tb b tm m = refl
    access-other check_meta o p d tb b tm m = refl
    access-other make_dir (fails _) p d tb b tm m = refl
    access-other make_dir succeeds p d tb b tm m = refl
    access-other write_blob (fails part) p d tb b tm m =
        get-write-other (tmp_blob digest p) q part d tb
    access-other write_blob succeeds p d tb b tm m =
        get-write-other (tmp_blob digest p) q p.bytes d tb
    access-other rename_blob (fails _) p d tb b tm m = refl
    access-other rename_blob succeeds p d tb b tm m =
        renamed-other (lookup (tmp_blob digest p) d.files) (tmp_blob digest p)
          (blob_path (hash_of digest p)) (write_meta true) drop_blob_tmp d tb b
    access-other drop_blob_tmp (fails _) p d tb b tm m = refl
    access-other drop_blob_tmp succeeds p d tb b tm m = get-remove-other (tmp_blob digest p) q d tb
    access-other check_blob o p d tb b tm m = refl
    access-other (write_meta wrote) o p d tb b tm m =
        written-other (codec.to_vec (meta_of p)) wrote o (tmp_meta digest p) d tm
    access-other (rename_meta wrote) (fails _) p d tb b tm m = refl
    access-other (rename_meta wrote) succeeds p d tb b tm m =
        renamed-other (lookup (tmp_meta digest p) d.files) (tmp_meta digest p)
          (meta_path (hash_of digest p)) (done (ok (hash_of digest p))) (drop_meta_tmp wrote) d tm m
    access-other (drop_meta_tmp wrote) (fails _) p d tb b tm m = refl
    access-other (drop_meta_tmp wrote) succeeds p d tb b tm m =
        get-remove-other (tmp_meta digest p) q d tm
    access-other (check_meta_again wrote) o p d tb b tm m = refl
    access-other remove_blob (fails _) p d tb b tm m = refl
    access-other remove_blob succeeds p d tb b tm m =
        get-remove-other (blob_path (hash_of digest p)) q d b
    access-other (done r) o p d tb b tm m = refl

  renamed-not_staged :
      (o : Option (List ℕ)) (from to : Location) (good bad : Stage) (d : Disk)
      → good ≢ rename_blob
      → bad ≢ rename_blob
      → (renamed o from to good bad d).0 ≢ rename_blob
  renamed-not_staged none from to good bad d g b = b
  renamed-not_staged (some bytes) from to good bad d g b = g

  written-not_staged :
      (r : IoResult (List ℕ)) (wrote : Bool) (o : Outcome) (tmp : Location) (d : Disk)
      → (written r wrote o tmp d).0 ≢ rename_blob
  written-not_staged (err e) wrote o tmp d = ground arith
  written-not_staged (ok json) wrote (fails part) tmp d = ground arith
  written-not_staged (ok json) wrote succeeds tmp d = ground arith

  pub access-IsStaged :
      (s : Stage) (o : Outcome) (p : Put) (d : Disk)
      → let (s', d') = access digest codec s o p d in IsStaged digest codec s' p d'
  unfolding access
  access-IsStaged begin o p d h = ground arith
  access-IsStaged check_meta o p d h = ground arith
  access-IsStaged make_dir (fails _) p d h = ground arith
  access-IsStaged make_dir succeeds p d h = ground arith
  access-IsStaged write_blob (fails part) p d h = ground arith
  access-IsStaged write_blob succeeds p d h = get-write (tmp_blob digest p) p.bytes d
  access-IsStaged rename_blob (fails _) p d h = ground arith
  access-IsStaged rename_blob succeeds p d h = absurd (
      renamed-not_staged (lookup (tmp_blob digest p) d.files) (tmp_blob digest p)
        (blob_path (hash_of digest p)) (write_meta true) drop_blob_tmp d (ground arith)
        (ground arith) h)
  access-IsStaged drop_blob_tmp (fails _) p d h = ground arith
  access-IsStaged drop_blob_tmp succeeds p d h = ground arith
  access-IsStaged check_blob o p d h = ground arith
  access-IsStaged (write_meta wrote) o p d h =
      absurd (written-not_staged (codec.to_vec (meta_of p)) wrote o (tmp_meta digest p) d h)
  access-IsStaged (rename_meta wrote) (fails _) p d h = ground arith
  access-IsStaged (rename_meta wrote) succeeds p d h = absurd (
      renamed-not_staged (lookup (tmp_meta digest p) d.files) (tmp_meta digest p)
        (meta_path (hash_of digest p)) (done (ok (hash_of digest p))) (drop_meta_tmp wrote) d
        (ground arith) (ground arith) h)
  access-IsStaged (drop_meta_tmp wrote) (fails _) p d h = ground arith
  access-IsStaged (drop_meta_tmp wrote) succeeds p d h = ground arith
  access-IsStaged (check_meta_again wrote) o p d h = ground arith
  access-IsStaged remove_blob (fails _) p d h = ground arith
  access-IsStaged remove_blob succeeds p d h = ground arith
  access-IsStaged (done r) o p d h = ground arith
