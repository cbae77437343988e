-- ===== src/BlobStore/Results.antt =====
-- What the result of a call of `put` that is alone on the store says of the disk.
use runt.Prelude.{
  is_some, ltb, ℕ, ◌≤◌, Bool, true, false, Option, none, some, List, [], ◌∷◌, ◌≡◌, ◌≢◌, refl, ap,
  subst, ◌∙◌, arith, pair_eq, nat_eq, length, if◌then◌else◌,
}
use runt.Prelude.Texts.{Text, text_eq}
use runt.Prelude.Map.{get as lookup}
use runt.Stream.{IoResult, ok, err, other}
use runt.Connection.{Codec}
use runt.BlobStore.{
  Disk, Location, Outcome, succeeds, fails, Stage, begin, check_meta, make_dir, write_blob,
  rename_blob, drop_blob_tmp, check_blob, write_meta, rename_meta, drop_meta_tmp, check_meta_again,
  remove_blob, done, blob_path, meta_path, write_file, remove_file, BlobMeta, Put, tmp_blob,
  tmp_meta, access, renamed, written, hash_of, meta_of, present, max_blob_size, failure,
}
use runt.BlobStore.Paths.{
  blob_name_length, meta_name_length, names_differ, get-write, get-write-other, get-remove-other,
}
use runt.BlobStore.Content.{IsNamed, length-tmp_meta}
use runt.BlobStore.Lone.{run_put, run_put-left, none_left}

module _ (digest : List ℕ → Text) (codec : Codec BlobMeta) where
  abbrev pub HasBlob : Put → Disk → Type 0
  HasBlob p d = present (blob_path (hash_of digest p)) d ≡ true

  abbrev pub HasMeta : Put → Disk → Type 0
  HasMeta p d = present (meta_path (hash_of digest p)) d ≡ true

  -- What a call knows of the disk at a stage.
  abbrev pub Knows : Stage → Put → Disk → Type 0
  Knows check_meta p d = HasBlob p d
  Knows (write_meta wrote) p d = HasBlob p d
  Knows (rename_meta wrote) p d = HasBlob p d
  Knows (drop_meta_tmp wrote) p d = HasBlob p d
  Knows (check_meta_again wrote) p d = HasBlob p d
  Knows (done (ok hash)) p d = (hash ≡ hash_of digest p) × HasBlob p d × HasMeta p d
  Knows _ p d = Unit

  module _ (p : Put) (n : IsNamed digest codec p) where
    blob_apart : (q : Location) → length q.1 ≢ 62 → q ≢ blob_path (hash_of digest p)
    blob_apart q h =
        names_differ q (blob_path (hash_of digest p))
          (λ e. h (e ∙ blob_name_length (hash_of digest p) n.hashed))

    write-HasBlob :
        (q : Location) (bytes : List ℕ) (d : Disk)
        → length q.1 ≢ 62
        → HasBlob p d
        → HasBlob p (write_file q bytes d)
    write-HasBlob q bytes d h b =
        ap is_some (get-write-other q (blob_path (hash_of digest p)) bytes d (blob_apart q h)) ∙ b

    remove-HasBlob :
        (q : Location) (d : Disk) → length q.1 ≢ 62 → HasBlob p d → HasBlob p (remove_file q d)
    remove-HasBlob q d h b =
        ap is_some (get-remove-other q (blob_path (hash_of digest p)) d (blob_apart q h)) ∙ b

    tmp_apart : length (tmp_meta digest p).1 ≢ 62
    tmp_apart = omega (arith, length-tmp_meta digest codec p n)

    meta_apart : length (meta_path (hash_of digest p)).1 ≢ 62
    meta_apart = omega (arith, meta_name_length (hash_of digest p) n.hashed)

    written-Knows :
        (r : IoResult (List ℕ)) (wrote : Bool) (o : Outcome) (d : Disk)
        → HasBlob p d
        → Knows
            (written r wrote o (tmp_meta digest p) d).0
            p
            (written r wrote o (tmp_meta digest p) d).1
    written-Knows (err e) wrote o d b = tt
    written-Knows (ok json) wrote (fails part) d b =
        write-HasBlob (tmp_meta digest p) part d tmp_apart b
    written-Knows (ok json) wrote succeeds d b =
        write-HasBlob (tmp_meta digest p) json d tmp_apart b

    rename_blob-Knows :
        (o : Option (List ℕ)) (d : Disk)
        → let r =
            renamed o
              (tmp_blob digest p)
              (blob_path (hash_of digest p))
              (write_meta true)
              drop_blob_tmp
              d in
          Knows r.0 p r.1
    rename_blob-Knows none d = tt
    rename_blob-Knows (some bytes) d =
        ap is_some
          (get-write (blob_path (hash_of digest p)) bytes (remove_file (tmp_blob digest p) d))

    rename_meta-Knows :
        (o : Option (List ℕ)) (wrote : Bool) (d : Disk)
        → HasBlob p d
        → let r =
            renamed o
              (tmp_meta digest p)
              (meta_path (hash_of digest p))
              (done (ok (hash_of digest p)))
              (drop_meta_tmp wrote)
              d in
          Knows r.0 p r.1
    rename_meta-Knows none wrote d b = b
    rename_meta-Knows (some bytes) wrote d b =
        let d' = remove_file (tmp_meta digest p) d in
        (
          refl,
          write-HasBlob (meta_path (hash_of digest p)) bytes d' meta_apart
              (remove-HasBlob (tmp_meta digest p) d tmp_apart b),
          ap is_some (get-write (meta_path (hash_of digest p)) bytes d'),
        )

    begin-Knows :
        (large there : Bool) (d : Disk)
        → present (blob_path (hash_of digest p)) d ≡ there
        → Knows
            (if large
              then done (err (other "blob too large"))
              else if there
              then check_meta
              else make_dir)
            p
            d
    begin-Knows true there d h = tt
    begin-Knows false true d h = h
    begin-Knows false false d h = tt

    check_meta-Knows :
        (there : Bool) (d : Disk)
        → present (meta_path (hash_of digest p)) d ≡ there
        → HasBlob p d
        → Knows (if there then done (ok (hash_of digest p)) else make_dir) p d
    check_meta-Knows true d h b = (refl, b, h)
    check_meta-Knows false d h b = tt

    check_blob-Knows :
        (there : Bool) (d : Disk)
        → present (blob_path (hash_of digest p)) d ≡ there
        → Knows (if there then write_meta false else done failure) p d
    check_blob-Knows true d h = h
    check_blob-Knows false d h = tt

    check_again-Knows :
        (there wrote : Bool) (d : Disk)
        → present (meta_path (hash_of digest p)) d ≡ there
        → HasBlob p d
        → Knows
            (if there
              then done (ok (hash_of digest p))
              else if wrote
              then remove_blob
              else done failure)
            p
            d
    check_again-Knows true wrote d h b = (refl, b, h)
    check_again-Knows false true d h b = tt
    check_again-Knows false false d h b = tt

    access-Knows :
        (s : Stage) (o : Outcome) (d : Disk)
        → Knows s p d
        → Knows (access digest codec s o p d).0 p (access digest codec s o p d).1
    unfolding access
    access-Knows begin o d k = begin-Knows (ltb max_blob_size (length p.bytes)) _ d refl
    access-Knows check_meta o d k = check_meta-Knows _ d refl k
    access-Knows make_dir (fails _) d k = tt
    access-Knows make_dir succeeds d k = tt
    access-Knows write_blob (fails part) d k = tt
    access-Knows write_blob succeeds d k = tt
    access-Knows rename_blob (fails _) d k = tt
    access-Knows rename_blob succeeds d k = rename_blob-Knows (lookup (tmp_blob digest p) d.files) d
    access-Knows drop_blob_tmp (fails _) d k = tt
    access-Knows drop_blob_tmp succeeds d k = tt
    access-Knows check_blob o d k = check_blob-Knows _ d refl
    access-Knows (write_meta wrote) o d k = written-Knows (codec.to_vec (meta_of p)) wrote o d k
    access-Knows (rename_meta wrote) (fails _) d k = k
    access-Knows (rename_meta wrote) succeeds d k =
        rename_meta-Knows (lookup (tmp_meta digest p) d.files) wrote d k
    access-Knows (drop_meta_tmp wrote) (fails _) d k = k
    access-Knows (drop_meta_tmp wrote) succeeds d k =
        remove-HasBlob (tmp_meta digest p) d tmp_apart k
    access-Knows (check_meta_again wrote) o d k = check_again-Knows _ wrote d refl k
    access-Knows remove_blob (fails _) d k = tt
    access-Knows remove_blob succeeds d k = tt
    access-Knows (done (ok hash)) o d k = k
    access-Knows (done (err e)) o d k = tt

    run_put-Knows :
        (os : List Outcome) (s : Stage) (d : Disk)
        → Knows s p d
        → Knows (run_put digest codec os s p d).0 p (run_put digest codec os s p d).1
    unfolding run_put
    run_put-Knows [] s d k = k
    run_put-Knows (o ∷ os) s d k =
        run_put-Knows os (access digest codec s o p d).0 (access digest codec s o p d).1
          (access-Knows s o d k)

  -- A call of `put` that is alone on the store ends within twelve accesses, whatever fails; if it
  -- returns a hash, that is the hash of the bytes, and the blob and its metadata are there.
  pub put_ends :
      (p : Put) (os : List Outcome) (d : Disk)
      → IsNamed digest codec p
      → 12 ≤ length os
      → (r : IoResult Text) × ((run_put digest codec os begin p d).0 ≡ done r)
        × ((hash : Text)
            → r ≡ ok hash
            → (hash ≡ hash_of digest p)
              × HasBlob p (run_put digest codec os begin p d).1
              × HasMeta p (run_put digest codec os begin p d).1)
  put_ends p os d n enough =
      let end = run_put digest codec os begin p d in
      let ended = none_left digest codec end.0 (run_put-left digest codec os begin p d enough) in
      (
        ended.0,
        ended.1,
        λ hash e.
            subst (λ s. Knows s p end.1) (ended.1 ∙ ap done e) (run_put-Knows p n os begin d tt),
      )
