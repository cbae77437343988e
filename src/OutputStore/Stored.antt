-- ===== src/OutputStore/Stored.antt =====
-- The blob store of blob_store.rs as the interface of output_store.rs has it: one `put` after the other,
-- whichever of their accesses fail, and reads that do not fail. `content_of` names for each hash the one
-- content in use that may have it, so that hashes of contents in use do not collide.
use runt.Prelude.{
  ℕ, suc, ◌≤◌, true, false, Option, none, some, List, [], ◌∷◌, pair_eq, nat_eq, ◌==◌, is_some,
  length, ◌≡◌, ◌≢◌, refl, sym, ap, ◌∙◌, arith, String, Bool-cases, inl, inr, beq→eq, beq_ne,
}
use runt.Prelude.Texts.{Text, text_eq}
use runt.Prelude.Map.{get as lookup}
use runt.Stream.{IoResult, ok}
use runt.Connection.{Codec}
use runt.BlobStore.{
  Disk, Location, Outcome, succeeds, Stage, begin, done, failure, validate_hash, blob_path,
  meta_path, BlobMeta, Put, tmp_blob, tmp_meta, access, get,
}
use runt.BlobStore.Paths.{blob_name_length, meta_name_length, names_differ, blob_path-injective}
use runt.BlobStore.Content.{
  IsNamed, IsHeld, IsStaged, access-IsHeld, length-tmp_blob, length-tmp_meta,
}
use runt.BlobStore.Writers.{access-other, access-IsStaged}
use runt.BlobStore.Lone.{run_put}
use runt.BlobStore.Results.{put_ends}
use runt.OutputStore.{Blobs}

-- What a call draws, and how its accesses end.
pub record Call : Type 0 where
  pub blob_id : Text
  pub meta_id : Text
  pub made_at : ℕ
  pub outcomes : List Outcome

-- The calls so far, and the disk.
pub record Calls : Type 0 where
  pub count : ℕ
  pub disk : Disk

pub record Setting : Type 0 where
  pub digest : List ℕ → Text
  pub codec : Codec BlobMeta
  pub content_of : Text → List ℕ
  pub calls : ℕ → Call
  pub hashed : (bytes : List ℕ) → validate_hash (digest bytes) ≡ true
  pub blob_ids : (i : ℕ) → length (calls i).blob_id ≡ 36
  pub meta_ids : (i : ℕ) → length (calls i).meta_id ≡ 36
  pub enough : (i : ℕ) → 12 ≤ length (calls i).outcomes

-- The result of a call that has ended.
abbrev pub result_of : Stage → IoResult Text
result_of (done r) = r
result_of _ = failure

module _ (g : Setting) where
  open g use {digest, codec, content_of, calls}

  abbrev pub put_of : ℕ → List ℕ → String → Put
  put_of i bytes media_type = record {
    bytes = bytes;
    media_type = media_type;
    made_at = (calls i).made_at;
    blob_id = (calls i).blob_id;
    meta_id = (calls i).meta_id;
    stage = begin;
  }

  abbrev pub put_run : List ℕ → String → Calls → Stage × Disk
  put_run bytes media_type s =
      run_put digest codec (calls s.count).outcomes begin (put_of s.count bytes media_type) s.disk

  abbrev pub put_stored : List ℕ → String → Calls → IoResult Text × Calls
  put_stored bytes media_type s =
      let r = put_run bytes media_type s in
      (result_of r.0, record { count = suc s.count; disk = r.1 })

  -- The contents in use stand at their hashes.
  abbrev pub IsStocked : Disk → Type 0
  IsStocked = IsHeld digest codec (λ h bytes. bytes ≡ content_of h)

  abbrev pub IsUsed : List ℕ → Type 0
  IsUsed bytes = content_of (digest bytes) ≡ bytes

  put_of-IsNamed :
      (i : ℕ) (bytes : List ℕ) (media_type : String)
      → IsNamed digest codec (put_of i bytes media_type)
  put_of-IsNamed i bytes media_type = record {
    hashed = g.hashed bytes;
    blob_length = g.blob_ids i;
    meta_length = g.meta_ids i;
  }

  run_put-IsStocked :
      (os : List Outcome) (s : Stage) (p : Put) (d : Disk)
      → IsNamed digest codec p
      → IsUsed p.bytes
      → IsStaged digest codec s p d
      → IsStocked d
      → IsStocked (run_put digest codec os s p d).1
  unfolding run_put
  run_put-IsStocked [] s p d n used staged v = v
  run_put-IsStocked (o ∷ os) s p d n used staged v =
      run_put-IsStocked os (access digest codec s o p d).0 p (access digest codec s o p d).1 n used
        (access-IsStaged digest codec s o p d)
        (access-IsHeld digest codec (λ h bytes. bytes ≡ content_of h) s o p d n (sym used) staged v)

  run_put-other :
      (os : List Outcome) (s : Stage) (p : Put) (d : Disk) (h : Text)
      → IsNamed digest codec p
      → validate_hash h ≡ true
      → digest p.bytes ≢ h
      → lookup (blob_path h) (run_put digest codec os s p d).1.files ≡ lookup (blob_path h) d.files
  unfolding run_put
  run_put-other [] s p d h n valid apart = refl
  run_put-other (o ∷ os) s p d h n valid apart =
      let named = blob_name_length h valid in
      let other : (q : Location) → length q.1 ≢ 62 → q ≢ blob_path h =
        λ q ne. names_differ q (blob_path h) (λ e. ne (e ∙ named)) in
      run_put-other os (access digest codec s o p d).0 p (access digest codec s o p d).1 h n valid
        apart
      ∙ access-other digest codec (blob_path h) s o p d
          (other (tmp_blob digest p) (omega (arith, length-tmp_blob digest codec p n)))
          (λ e. apart (blob_path-injective (digest p.bytes) h e))
          (other (tmp_meta digest p) (omega (arith, length-tmp_meta digest codec p n)))
          (other (meta_path (digest p.bytes))
            (omega (arith, meta_name_length (digest p.bytes) n.hashed)))

  present-some : {A : Type 0} (o : Option A) → is_some o ≡ true → (a : A) × (o ≡ some a)
  present-some none h = ground (arith, h)
  present-some (some a) h = (a, refl)

  pub stored_good :
      (bytes : List ℕ) (media_type : String) (s : Calls)
      → IsUsed bytes
      → IsStocked s.disk
      → IsStocked (put_stored bytes media_type s).1.disk
  stored_good bytes media_type s used v =
      run_put-IsStocked (calls s.count).outcomes begin (put_of s.count bytes media_type) s.disk
        (put_of-IsNamed s.count bytes media_type) used (λ h. ground (arith, h)) v

  -- What a put that returned a hash leaves at it.
  stored_at :
      (bytes : List ℕ) (media_type : String) (s : Calls) (hash : Text)
      → IsUsed bytes
      → IsStocked s.disk
      → (put_stored bytes media_type s).0 ≡ ok hash
      → (hash ≡ digest bytes)
        × (lookup (blob_path (digest bytes)) (put_stored bytes media_type s).1.disk.files
            ≡ some bytes)
  stored_at bytes media_type s hash used v e =
      let p = put_of s.count bytes media_type in
      let (r, ended, says) =
        put_ends digest codec p (calls s.count).outcomes s.disk
          (put_of-IsNamed s.count bytes media_type) (g.enough s.count) in
      let (same, blob, meta) = says hash (sym (ap result_of ended) ∙ e) in
      let (b, found) = present-some _ blob in
      let content = stored_good bytes media_type s used v (digest bytes) b (g.hashed bytes) found in
      (same, found ∙ ap some (content ∙ used))

  get-valid :
      (h : Text) (d : Disk)
      → validate_hash h ≡ true
      → get succeeds h d ≡ ok (lookup (blob_path h) d.files)
  unfolding get
  get-valid h d valid = rw valid refl

  pub stored_get :
      (bytes : List ℕ) (media_type : String) (s : Calls) (hash : Text)
      → IsUsed bytes
      → IsStocked s.disk
      → (put_stored bytes media_type s).0 ≡ ok hash
      → get succeeds hash (put_stored bytes media_type s).1.disk ≡ ok (some bytes)
  stored_get bytes media_type s hash used v e =
      let (same, found) = stored_at bytes media_type s hash used v e in
      let d = (put_stored bytes media_type s).1.disk in
      ap (λ h. get succeeds h d) same ∙ get-valid (digest bytes) d (g.hashed bytes) ∙ ap ok found

  get-invalid : (h : Text) (d : Disk) → validate_hash h ≡ false → get succeeds h d ≡ ok none
  unfolding get
  get-invalid h d bad = rw bad refl

  ok_found : {A : Type 0} {a b : Option A} → ok a ≡ ok b → a ≡ b
  ok_found h = cc

  pub stored_kept :
      (bytes : List ℕ) (media_type : String) (s : Calls) (hash h : Text) (kept : List ℕ)
      → IsUsed bytes
      → IsStocked s.disk
      → (put_stored bytes media_type s).0 ≡ ok hash
      → get succeeds h s.disk ≡ ok (some kept)
      → get succeeds h (put_stored bytes media_type s).1.disk ≡ ok (some kept)
  stored_kept bytes media_type s hash h kept used v e found = elim (Bool-cases (validate_hash h)) [
    | inr bad ↦
        let missing = ok_found (sym (get-invalid h s.disk bad) ∙ found) in ground (arith, missing)
    | inl valid ↦
        let d = (put_stored bytes media_type s).1.disk in
        let there = ok_found (sym (get-valid h s.disk valid) ∙ found) in
        elim (Bool-cases (digest bytes == h)) [
          | inl same ↦
              let at_h = beq→eq (digest bytes) h same in
              let content : bytes ≡ kept =
                sym used ∙ ap content_of at_h ∙ sym (v h kept valid there) in
              get-valid h d valid
              ∙ ap (λ x. ok (lookup (blob_path x) d.files)) (sym at_h)
              ∙ ap ok ((stored_at bytes media_type s hash used v e).1)
              ∙ ap (λ x. ok (some x)) content
          | inr apart ↦
              get-valid h d valid
              ∙ ap ok (
                  run_put-other (calls s.count).outcomes begin (put_of s.count bytes media_type)
                    s.disk h (put_of-IsNamed s.count bytes media_type) valid
                    (beq_ne (digest bytes) h apart)
                  ∙ there)
        ]
  ]

  -- The blob store fills the interface.
  abbrev pub stored : Blobs (List ℕ)
  stored = record {
    Store = Calls;
    put = put_stored;
    get = λ h s. get succeeds h s.disk;
    IsGood = λ s. IsStocked s.disk;
    IsSafe = IsUsed;
    put_good = stored_good;
    put_get = stored_get;
    put_keeps = stored_kept;
  }
