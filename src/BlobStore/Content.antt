-- ===== src/BlobStore/Content.antt =====
-- What the files of the blob store hold, whatever writers interleave and whatever fails.
use runt.Prelude.{
  ℕ, Bool, true, Option, none, some, List, ◌≡◌, ◌≢◌, refl, sym, ap, ◌∙◌, arith, subst, ◌==◌,
  pair_eq, nat_eq, length, length-append, Bool-cases, inl, inr, beq→eq, beq_ne,
}
use runt.Prelude.Texts.{Text, text_eq}
use runt.Prelude.Map.{get as lookup}
use runt.Stream.{IoResult, ok, err}
use runt.Connection.{Codec}
use runt.BlobStore.{
  Disk, Location, Outcome, succeeds, fails, Stage, begin, check_meta, make_dir, write_blob,
  rename_blob, drop_blob_tmp, check_blob, write_meta, rename_meta, drop_meta_tmp, check_meta_again,
  remove_blob, done, validate_hash, blob_path, meta_path, dot_meta, write_file, remove_file,
  BlobMeta, Put, tmp_blob, tmp_meta, access, renamed, written, hash_of, meta_of,
}
use runt.BlobStore.Paths.{
  blob_name_length, meta_name_length, names_differ, blob_path-injective, get-write, get-write-other,
  get-remove-some,
}

some_injective : {A : Type 0} {a b : A} → some a ≡ some b → a ≡ b
some_injective h = cc

module _ (digest : List ℕ → Text) (codec : Codec BlobMeta) where
  -- A UUID has 36 characters, and a digest 64 that are hexadecimal.
  pub record IsNamed (p : Put) : Type 0 where
    pub hashed : validate_hash (hash_of digest p) ≡ true
    pub blob_length : length p.blob_id ≡ 36
    pub meta_length : length p.meta_id ≡ 36

  pub length-tmp_blob : (p : Put) → IsNamed p → length (tmp_blob digest p).1 ≡ 41
  length-tmp_blob p n = omega (arith, n.blob_length)

  pub length-tmp_meta : (p : Put) → IsNamed p → length (tmp_meta digest p).1 ≡ 46
  length-tmp_meta p n = omega (arith, n.meta_length, length-append p.meta_id dot_meta)

  abbrev pub IsStaged : Stage → Put → Disk → Type 0
  IsStaged s p d = s ≡ rename_blob → lookup (tmp_blob digest p) d.files ≡ some p.bytes

  -- What the blobs hold, by their hashes.
  module _ (P : Text → List ℕ → Type 0) where
    abbrev pub IsHeld : Disk → Type 0
    IsHeld d =
        (h : Text) (bytes : List ℕ)
        → validate_hash h ≡ true
        → lookup (blob_path h) d.files ≡ some bytes
        → P h bytes

    write-IsHeld :
        (p : Location) (bytes : List ℕ) (d : Disk)
        → length p.1 ≢ 62
        → IsHeld d
        → IsHeld (write_file p bytes d)
    write-IsHeld p bytes d other v h b valid found =
        let apart : p ≢ blob_path h =
          names_differ p (blob_path h) (λ e. other (e ∙ blob_name_length h valid)) in
        v h b valid (sym (get-write-other p (blob_path h) bytes d apart) ∙ found)

    pub remove-IsHeld : (p : Location) (d : Disk) → IsHeld d → IsHeld (remove_file p d)
    remove-IsHeld p d v h b valid found = v h b valid (get-remove-some p (blob_path h) b d found)

    blob-IsHeld :
        (bytes : List ℕ) (d : Disk)
        → P (digest bytes) bytes
        → IsHeld d
        → IsHeld (write_file (blob_path (digest bytes)) bytes d)
    blob-IsHeld bytes d own v h b valid found =
        let q = blob_path (digest bytes) in
        elim (Bool-cases (q == blob_path h)) [
          | inl same ↦
              let e = beq→eq q (blob_path h) same in
              let stored = ap (λ r. lookup r (write_file q bytes d).files) e ∙ found in
              subst (λ x. P h x) (some_injective (sym (get-write q bytes d) ∙ stored))
                (subst (λ g. P g bytes) (blob_path-injective (digest bytes) h e) own)
          | inr apart ↦
              let other = get-write-other q (blob_path h) bytes d (beq_ne q (blob_path h) apart) in
              v h b valid (sym other ∙ found)
        ]

    rename_blob-IsHeld :
        (p : Put) (d : Disk) (o : Option (List ℕ))
        → o ≡ some p.bytes
        → P (hash_of digest p) p.bytes
        → IsHeld d
        → IsHeld
            (renamed o
              (tmp_blob digest p)
              (blob_path (hash_of digest p))
              (write_meta true)
              drop_blob_tmp
              d).1
    rename_blob-IsHeld p d o e own v = rw e (
        blob-IsHeld p.bytes (remove_file (tmp_blob digest p) d) own
          (remove-IsHeld (tmp_blob digest p) d v))

    rename_meta-IsHeld :
        (p : Put) (d : Disk) (o : Option (List ℕ)) (good bad : Stage)
        → IsNamed p
        → IsHeld d
        → IsHeld (renamed o (tmp_meta digest p) (meta_path (hash_of digest p)) good bad d).1
    rename_meta-IsHeld p d none good bad n v = v
    rename_meta-IsHeld p d (some bytes) good bad n v =
        write-IsHeld (meta_path (hash_of digest p)) bytes (remove_file (tmp_meta digest p) d)
          (omega (arith, meta_name_length (hash_of digest p) n.hashed))
          (remove-IsHeld (tmp_meta digest p) d v)

    written-IsHeld :
        (p : Put) (d : Disk) (r : IoResult (List ℕ)) (wrote : Bool) (o : Outcome)
        → IsNamed p
        → IsHeld d
        → IsHeld (written r wrote o (tmp_meta digest p) d).1
    written-IsHeld p d (err e) wrote o n v = v
    written-IsHeld p d (ok json) wrote (fails part) n v =
        write-IsHeld (tmp_meta digest p) part d (omega (arith, length-tmp_meta p n)) v
    written-IsHeld p d (ok json) wrote succeeds n v =
        write-IsHeld (tmp_meta digest p) json d (omega (arith, length-tmp_meta p n)) v

    pub access-IsHeld :
        (s : Stage) (o : Outcome) (p : Put) (d : Disk)
        → IsNamed p
        → P (hash_of digest p) p.bytes
        → IsStaged s p d
        → IsHeld d
        → IsHeld (access digest codec s o p d).1
    unfolding access
    access-IsHeld begin o p d n own st v = v
    access-IsHeld check_meta o p d n own st v = v
    access-IsHeld make_dir (fails _) p d n own st v = v
    access-IsHeld make_dir succeeds p d n own st v = v
    access-IsHeld write_blob (fails part) p d n own st v =
        write-IsHeld (tmp_blob digest p) part d (omega (arith, length-tmp_blob p n)) v
    access-IsHeld write_blob succeeds p d n own st v =
        write-IsHeld (tmp_blob digest p) p.bytes d (omega (arith, length-tmp_blob p n)) v
    access-IsHeld rename_blob (fails _) p d n own st v = v
    access-IsHeld rename_blob succeeds p d n own st v =
        rename_blob-IsHeld p d (lookup (tmp_blob digest p) d.files) (st refl) own v
    access-IsHeld drop_blob_tmp (fails _) p d n own st v = v
    access-IsHeld drop_blob_tmp succeeds p d n own st v = remove-IsHeld (tmp_blob digest p) d v
    access-IsHeld check_blob o p d n own st v = v
    access-IsHeld (write_meta wrote) o p d n own st v =
        written-IsHeld p d (codec.to_vec (meta_of p)) wrote o n v
    access-IsHeld (rename_meta wrote) (fails _) p d n own st v = v
    access-IsHeld (rename_meta wrote) succeeds p d n own st v =
        rename_meta-IsHeld p d (lookup (tmp_meta digest p) d.files) (done (ok (hash_of digest p)))
          (drop_meta_tmp wrote) n v
    access-IsHeld (drop_meta_tmp wrote) (fails _) p d n own st v = v
    access-IsHeld (drop_meta_tmp wrote) succeeds p d n own st v =
        remove-IsHeld (tmp_meta digest p) d v
    access-IsHeld (check_meta_again wrote) o p d n own st v = v
    access-IsHeld remove_blob (fails _) p d n own st v = v
    access-IsHeld remove_blob succeeds p d n own st v =
        remove-IsHeld (blob_path (hash_of digest p)) d v
    access-IsHeld (done r) o p d n own st v = v

  -- The blob at a hash is content with that hash.
  abbrev pub IsAddressed : Disk → Type 0
  IsAddressed d =
      (h : Text) (bytes : List ℕ)
      → validate_hash h ≡ true
      → lookup (blob_path h) d.files ≡ some bytes
      → digest bytes ≡ h

  pub remove-IsAddressed : (p : Location) (d : Disk) → IsAddressed d → IsAddressed (remove_file p d)
  remove-IsAddressed = remove-IsHeld (λ h bytes. digest bytes ≡ h)

  pub access-IsAddressed :
      (s : Stage) (o : Outcome) (p : Put) (d : Disk)
      → IsNamed p
      → IsStaged s p d
      → IsAddressed d
      → IsAddressed (access digest codec s o p d).1
  access-IsAddressed s o p d n st v =
      access-IsHeld (λ h bytes. digest bytes ≡ h) s o p d n refl st v
