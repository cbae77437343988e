-- ===== src/BlobStore/Interleaving.antt =====
-- Many writers of the blob store at once, with any faults.
use runt.Prelude.{
  ℕ, true, some, List, [], ◌∷◌, ◌≡◌, ◌≢◌, refl, ap, subst, ◌∙◌, arith, ◌==◌, pair_eq, nat_eq,
  Bool-cases, inl, inr, if◌then◌else◌, beq→eq, beq_ne, drop,
}
use runt.Prelude.Texts.{Text, text_eq}
use runt.Prelude.Map.{get as lookup}
use runt.Stream.{ok}
use runt.Connection.{Codec}
use runt.BlobStore.{
  Disk, Location, Outcome, succeeds, fails, Stage, validate_hash, blob_path, meta_path, BlobMeta,
  Put, tmp_blob, tmp_meta, put_step, access, hash_of, get, delete, removed_if, exists,
}
use runt.BlobStore.Paths.{blob_name_length, meta_name_length, names_differ, get-remove-other}
use runt.BlobStore.Content.{
  IsAddressed, IsNamed, IsStaged, access-IsAddressed, remove-IsAddressed, length-tmp_blob,
  length-tmp_meta,
}
use runt.BlobStore.Writers.{access-other, access-IsStaged}

-- All calls of `put` under way, and the disk they share.
pub record World : Type 0 where
  pub puts : ℕ → Put
  pub disk : Disk

abbrev pub with_stage : ℕ → Stage → (ℕ → Put) → ℕ → Put
with_stage i s puts j = record (puts j) { stage = if i == j then s else (puts j).stage }

pub data Event : Type 0 where
  -- An access of one call of `put`, and a `delete`.
  steps : ℕ → Outcome → Event
  deletes : Outcome → Outcome → Text → Event

module _ (digest : List ℕ → Text) (codec : Codec BlobMeta) where
  unfoldable pub happen : Event → World → World
  unfolding put_step delete
  happen (steps i o) w =
      let (s, d) = put_step digest codec o (w.puts i) w.disk in
      record { puts = with_stage i s w.puts; disk = d }
  happen (deletes o₁ o₂ hash) w = record w { disk = (delete o₁ o₂ hash w.disk).1 }

  unfoldable pub happen_all : List Event → World → World
  unfolding happen
  happen_all [] w = w
  happen_all (e ∷ es) w = happen_all es (happen e w)

  -- No two calls draw the same UUID.
  pub record AreNamed (puts : ℕ → Put) : Type 0 where
    pub named : (i : ℕ) → IsNamed digest codec (puts i)
    pub differ : (i j : ℕ) → i ≢ j → (puts i).blob_id ≢ (puts j).blob_id

  pub record IsSound (w : World) : Type 0 where
    pub addressed : IsAddressed digest codec w.disk
    pub staged : (i : ℕ) → IsStaged digest codec (w.puts i).stage (w.puts i) w.disk

  tmp_blobs_differ :
      (puts : ℕ → Put) (i j : ℕ)
      → AreNamed puts
      → i ≢ j
      → tmp_blob digest (puts i) ≢ tmp_blob digest (puts j)
  tmp_blobs_differ puts i j n apart e = n.differ i j apart (ap (λ r. drop 5 r.1) e)

  -- An access of another call leaves the temporary file of a call alone.
  others-IsStaged :
      (o : Outcome) (w : World) (i j : ℕ)
      → AreNamed w.puts
      → i ≢ j
      → IsStaged digest codec (w.puts j).stage (w.puts j) w.disk
      → IsStaged digest codec
          (w.puts j).stage
          (w.puts j)
          (access digest codec (w.puts i).stage o (w.puts i) w.disk).1
  others-IsStaged o w i j n apart staged h =
      let p = w.puts i in
      let q = tmp_blob digest (w.puts j) in
      let hash = hash_of digest p in
      let long = length-tmp_blob digest codec (w.puts j) (n.named j) in
      access-other digest codec q (w.puts i).stage o p w.disk (tmp_blobs_differ w.puts i j n apart)
        (names_differ (blob_path hash) q
          (omega (arith, long, blob_name_length hash (n.named i).hashed)))
        (names_differ (tmp_meta digest p) q
          (omega (arith, long, length-tmp_meta digest codec p (n.named i))))
        (names_differ (meta_path hash) q
          (omega (arith, long, meta_name_length hash (n.named i).hashed)))
      ∙ staged h

  steps-IsSound :
      (i : ℕ) (o : Outcome) (w : World)
      → AreNamed w.puts
      → IsSound w
      → IsSound (happen (steps i o) w)
  unfolding happen put_step
  steps-IsSound i o w n v =
      let p = w.puts i in
      let done = access digest codec p.stage o p w.disk in
      record {
        addressed =
            access-IsAddressed digest codec p.stage o p w.disk (n.named i) (v.staged i) v.addressed;
        staged = λ j. elim (Bool-cases (i == j)) [
          | inl same ↦ rw same (
              subst (λ k. IsStaged digest codec done.0 (w.puts k) done.1) (beq→eq i j same)
                (access-IsStaged digest codec p.stage o p w.disk))
          | inr apart ↦ rw apart (others-IsStaged o w i j n (beq_ne i j apart) (v.staged j))
        ];
      }

  removed_if-IsAddressed :
      (o : Outcome) (q : Location) (d : Disk)
      → IsAddressed digest codec d
      → IsAddressed digest codec (removed_if o q d)
  removed_if-IsAddressed succeeds q d v = remove-IsAddressed digest codec q d v
  removed_if-IsAddressed (fails _) q d v = v

  removed_if-other :
      (o : Outcome) (p q : Location) (d : Disk)
      → p ≢ q
      → lookup q (removed_if o p d).files ≡ lookup q d.files
  removed_if-other succeeds p q d h = get-remove-other p q d h
  removed_if-other (fails _) p q d h = refl

  deletes-IsSound :
      (o₁ o₂ : Outcome) (hash : Text) (w : World)
      → AreNamed w.puts
      → IsSound w
      → IsSound (happen (deletes o₁ o₂ hash) w)
  unfolding happen delete exists
  deletes-IsSound o₁ o₂ hash w n v = elim (Bool-cases (exists hash w.disk)) [
    | inr gone ↦ rw (delete, gone) v
    | inl there ↦
        let valid : validate_hash hash ≡ true = ground (arith, there) in
        let d₁ = removed_if o₁ (blob_path hash) w.disk in
        rw (delete, there)
          (record {
            addressed =
                removed_if-IsAddressed o₂ (meta_path hash) d₁
                  (removed_if-IsAddressed o₁ (blob_path hash) w.disk v.addressed);
            staged = λ j h.
                let q = tmp_blob digest (w.puts j) in
                let long = length-tmp_blob digest codec (w.puts j) (n.named j) in
                removed_if-other o₂ (meta_path hash) q d₁ (
                  names_differ (meta_path hash) q
                    (omega (arith, long, meta_name_length hash valid)))
                ∙ removed_if-other o₁ (blob_path hash) q w.disk (
                    names_differ (blob_path hash) q
                      (omega (arith, long, blob_name_length hash valid)))
                ∙ v.staged j h;
          })
  ]

  happen-AreNamed : (e : Event) (w : World) → AreNamed w.puts → AreNamed (happen e w).puts
  unfolding happen
  happen-AreNamed (steps i o) w n = record {
    named = λ j. record {
      hashed = (n.named j).hashed;
      blob_length = (n.named j).blob_length;
      meta_length = (n.named j).meta_length;
    };
    differ = n.differ;
  }
  happen-AreNamed (deletes o₁ o₂ hash) w n = n

  happen-IsSound : (e : Event) (w : World) → AreNamed w.puts → IsSound w → IsSound (happen e w)
  happen-IsSound (steps i o) w n v = steps-IsSound i o w n v
  happen-IsSound (deletes o₁ o₂ hash) w n v = deletes-IsSound o₁ o₂ hash w n v

  happen_all-IsSound :
      (es : List Event) (w : World) → AreNamed w.puts → IsSound w → IsSound (happen_all es w)
  unfolding happen_all
  happen_all-IsSound [] w n v = v
  happen_all-IsSound (e ∷ es) w n v =
      happen_all-IsSound es (happen e w) (happen-AreNamed e w n) (happen-IsSound e w n v)

  -- Readers never see a partial or a foreign blob. Take any interleaving of the accesses of any number
  -- of `put`s, and of `delete`s, in which any access may fail and a failed write may leave any part of
  -- its bytes: what `get` then returns for a hash is content with that hash, if this held at the
  -- start, digests are valid hashes and the UUIDs that the calls draw differ.
  pub get_returns_content :
      (es : List Event) (w : World) (o : Outcome) (hash : Text) (bytes : List ℕ)
      → AreNamed w.puts
      → IsSound w
      → get o hash (happen_all es w).disk ≡ ok (some bytes)
      → digest bytes ≡ hash
  unfolding get
  get_returns_content es w o hash bytes n v found =
      let valid : validate_hash hash ≡ true = ground (arith, found) in
      let stored : lookup (blob_path hash) (happen_all es w).disk.files ≡ some bytes =
        ground (arith, found) in
      (happen_all-IsSound es w n v).addressed hash bytes valid stored
