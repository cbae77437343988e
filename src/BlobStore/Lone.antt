-- ===== src/BlobStore/Lone.antt =====
-- A call of `put` ends after at most twelve accesses.
use runt.Prelude.{
  ℕ, ◌-◌, ◌≤◌, Bool, true, Option, none, some, List, [], ◌∷◌, ◌≡◌, refl, arith, pair_eq, nat_eq,
  length,
}
use runt.Prelude.Texts.{Text, text_eq}
use runt.Prelude.Map.{get as lookup}
use runt.Stream.{IoResult, ok, err}
use runt.Connection.{Codec}
use runt.BlobStore.{
  Disk, Location, Outcome, succeeds, fails, Stage, begin, check_meta, make_dir, write_blob,
  rename_blob, drop_blob_tmp, check_blob, write_meta, rename_meta, drop_meta_tmp, check_meta_again,
  remove_blob, done, blob_path, meta_path, BlobMeta, Put, tmp_blob, tmp_meta, access, renamed,
  written, hash_of, meta_of,
}

-- How many accesses are left at most.
abbrev pub accesses_left : Stage → ℕ
accesses_left begin = 12
accesses_left check_meta = 11
accesses_left make_dir = 10
accesses_left write_blob = 9
accesses_left rename_blob = 8
accesses_left drop_blob_tmp = 7
accesses_left check_blob = 6
accesses_left (write_meta wrote) = 5
accesses_left (rename_meta wrote) = 4
accesses_left (drop_meta_tmp wrote) = 3
accesses_left (check_meta_again wrote) = 2
accesses_left remove_blob = 1
accesses_left (done r) = 0

module _ (digest : List ℕ → Text) (codec : Codec BlobMeta) where
  -- The accesses of a call, with how each ends.
  unfoldable pub run_put : List Outcome → Stage → Put → Disk → Stage × Disk
  unfolding access
  run_put [] s p d = (s, d)
  run_put (o ∷ os) s p d =
      run_put os (access digest codec s o p d).0 p (access digest codec s o p d).1

  renamed-left :
      (n : ℕ) (o : Option (List ℕ)) (from to : Location) (good bad : Stage) (d : Disk)
      → accesses_left good ≤ n
      → accesses_left bad ≤ n
      → accesses_left (renamed o from to good bad d).0 ≤ n
  renamed-left n none from to good bad d g b = b
  renamed-left n (some bytes) from to good bad d g b = g

  written-left :
      (r : IoResult (List ℕ)) (wrote : Bool) (o : Outcome) (tmp : Location) (d : Disk)
      → accesses_left (written r wrote o tmp d).0 ≤ 4
  written-left (err e) wrote o tmp d = omega arith
  written-left (ok json) wrote (fails part) tmp d = omega arith
  written-left (ok json) wrote succeeds tmp d = omega arith

  access-left :
      (s : Stage) (o : Outcome) (p : Put) (d : Disk)
      → accesses_left (access digest codec s o p d).0 ≤ accesses_left s - 1
  unfolding access
  access-left begin o p d = ground arith
  access-left check_meta o p d = ground arith
  access-left make_dir (fails _) p d = omega arith
  access-left make_dir succeeds p d = omega arith
  access-left write_blob (fails part) p d = omega arith
  access-left write_blob succeeds p d = omega arith
  access-left rename_blob (fails _) p d = omega arith
  access-left rename_blob succeeds p d =
      renamed-left 7 (lookup (tmp_blob digest p) d.files) (tmp_blob digest p)
        (blob_path (hash_of digest p)) (write_meta true) drop_blob_tmp d (omega arith) (omega arith)
  access-left drop_blob_tmp (fails _) p d = omega arith
  access-left drop_blob_tmp succeeds p d = omega arith
  access-left check_blob o p d = ground arith
  access-left (write_meta wrote) o p d =
      written-left (codec.to_vec (meta_of p)) wrote o (tmp_meta digest p) d
  access-left (rename_meta wrote) (fails _) p d = omega arith
  access-left (rename_meta wrote) succeeds p d =
      renamed-left 3 (lookup (tmp_meta digest p) d.files) (tmp_meta digest p)
        (meta_path (hash_of digest p)) (done (ok (hash_of digest p))) (drop_meta_tmp wrote) d
        (omega arith) (omega arith)
  access-left (drop_meta_tmp wrote) (fails _) p d = omega arith
  access-left (drop_meta_tmp wrote) succeeds p d = omega arith
  access-left (check_meta_again wrote) o p d = ground arith
  access-left remove_blob (fails _) p d = omega arith
  access-left remove_blob succeeds p d = omega arith
  access-left (done r) o p d = omega arith

  pub run_put-left :
      (os : List Outcome) (s : Stage) (p : Put) (d : Disk)
      → accesses_left s ≤ length os
      → accesses_left (run_put os s p d).0 ≡ 0
  unfolding run_put
  run_put-left [] s p d h = omega arith
  run_put-left (o ∷ os) s p d h =
      let next = access digest codec s o p d in
      run_put-left os next.0 p next.1 (omega (arith, access-left s o p d))

  pub none_left : (s : Stage) → accesses_left s ≡ 0 → (r : IoResult Text) × (s ≡ done r)
  none_left (done r) h = (r, refl)
  none_left begin h = ground arith
  none_left check_meta h = ground arith
  none_left make_dir h = ground arith
  none_left write_blob h = ground arith
  none_left rename_blob h = ground arith
  none_left drop_blob_tmp h = ground arith
  none_left check_blob h = ground arith
  none_left (write_meta wrote) h = ground arith
  none_left (rename_meta wrote) h = ground arith
  none_left (drop_meta_tmp wrote) h = ground arith
  none_left (check_meta_again wrote) h = ground arith
  none_left remove_blob h = ground arith
