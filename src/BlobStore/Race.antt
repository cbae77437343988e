-- ===== src/BlobStore/Race.antt =====
-- Two calls of `put` with the same bytes, interleaved.
use runt.Prelude.{
  ℕ, true, false, Option, none, some, List, [], ◌∷◌, ◌≡◌, ◌≢◌, refl, sym, ap, subst, ◌∙◌, arith,
  nat_eq, pair_eq, beq_false, beq_refl, is_some,
}
use runt.Prelude.Texts.{Text, text_eq}
use runt.Prelude.Map.{get as lookup, get-remove}
use runt.Stream.{ok}
use runt.Connection.{Codec}
use runt.BlobStore.{
  Disk, Outcome, succeeds, Stage, rename_meta, check_meta_again, remove_blob, done, blob_path,
  meta_path, write_file, remove_file, BlobMeta, Put, tmp_meta, put_step, access, hash_of, present,
  exists,
}
use runt.BlobStore.Interleaving.{World, with_stage, Event, steps, happen, happen_all}

is_some_value : {A : Type 0} (o : Option A) → is_some o ≡ true → (a : A) × (o ≡ some a)
is_some_value none h = ground arith
is_some_value (some a) h = (a, refl)

module _ (digest : List ℕ → Text) (codec : Codec BlobMeta) where
  -- Both calls have put the blob in its place, and neither its metadata: `i` is about to rename its
  -- own, and `j`, which failed to write its own, is about to look for them.
  pub record IsRacing (i j : ℕ) (w : World) : Type 0 where
    pub apart : i ≢ j
    pub same_bytes : (w.puts j).bytes ≡ (w.puts i).bytes
    pub first : (w.puts i).stage ≡ rename_meta true
    pub second : (w.puts j).stage ≡ check_meta_again true
    pub staged : is_some (lookup (tmp_meta digest (w.puts i)) w.disk.files) ≡ true
    pub no_meta : present (meta_path (hash_of digest (w.puts i))) w.disk ≡ false

  abbrev pub schedule : ℕ → ℕ → List Event
  schedule i j = steps j succeeds ∷ steps i succeeds ∷ steps j succeeds ∷ []

  happen-steps :
      (i : ℕ) (o : Outcome) (w : World) (r : Stage × Disk)
      → access digest codec (w.puts i).stage o (w.puts i) w.disk ≡ r
      → happen digest codec (steps i o) w ≡ record { puts = with_stage i r.0 w.puts; disk = r.1 }
  unfolding happen put_step
  happen-steps i o w r e = ap (λ x. record { puts = with_stage i x.0 w.puts; disk = x.1 }) e

  access-check_meta_again :
      (p : Put) (d : Disk)
      → p.stage ≡ check_meta_again true
      → present (meta_path (hash_of digest p)) d ≡ false
      → access digest codec p.stage succeeds p d ≡ (remove_blob, d)
  unfolding access
  access-check_meta_again p d at none_there =
      ap (λ s. access digest codec s succeeds p d) at ∙ rw none_there refl

  access-rename_meta :
      (p : Put) (d : Disk) (bytes : List ℕ)
      → p.stage ≡ rename_meta true
      → lookup (tmp_meta digest p) d.files ≡ some bytes
      → access digest codec p.stage succeeds p d ≡ (
        done (ok (hash_of digest p)),
        write_file (meta_path (hash_of digest p)) bytes (remove_file (tmp_meta digest p) d),
      )
  unfolding access
  access-rename_meta p d bytes at found =
      ap (λ s. access digest codec s succeeds p d) at ∙ rw found refl

  access-remove_blob :
      (p : Put) (d : Disk)
      → p.stage ≡ remove_blob
      → (access digest codec p.stage succeeds p d).1 ≡ remove_file (blob_path (hash_of digest p)) d
  unfolding access
  access-remove_blob p d at = ap (λ s. (access digest codec s succeeds p d).1) at

  absent_after_remove :
      (hash : Text) (d : Disk) → exists hash (remove_file (blob_path hash) d) ≡ false
  unfolding exists
  absent_after_remove hash d =
      rw (get-remove (blob_path hash) (blob_path hash) d.files, beq_refl (blob_path hash))
        (ground arith)

  module _ (i j : ℕ) (w : World) (race : IsRacing i j w) where
    abbrev hash : Text
    hash = hash_of digest (w.puts i)

    same_hash : hash_of digest (w.puts j) ≡ hash
    same_hash = ap digest race.same_bytes

    abbrev checked : World
    checked = record { puts = with_stage j remove_blob w.puts; disk = w.disk }

    second_checks : happen digest codec (steps j succeeds) w ≡ checked
    second_checks =
        happen-steps j succeeds w (remove_blob, w.disk)
          (access-check_meta_again (w.puts j) w.disk race.second
            (ap (λ h. present (meta_path h) w.disk) same_hash ∙ race.no_meta))

    first_waits : (checked.puts i).stage ≡ rename_meta true
    first_waits = rw (beq_false j i (λ e. race.apart (sym e))) race.first

    abbrev placed : List ℕ → World
    placed bytes = record {
      puts = with_stage i (done (ok hash)) checked.puts;
      disk = write_file (meta_path hash) bytes (remove_file (tmp_meta digest (w.puts i)) w.disk);
    }

    first_places :
        (bytes : List ℕ)
        → lookup (tmp_meta digest (w.puts i)) w.disk.files ≡ some bytes
        → happen digest codec (steps i succeeds) checked ≡ placed bytes
    first_places bytes found =
        happen-steps i succeeds checked (done (ok hash), (placed bytes).disk)
          (access-rename_meta (checked.puts i) w.disk bytes first_waits found)

    second_removes : (bytes : List ℕ) → ((placed bytes).puts j).stage ≡ remove_blob
    second_removes bytes = rw (beq_false i j race.apart, beq_refl j) refl

    blob_removed :
        (bytes : List ℕ)
        → exists hash (happen digest codec (steps j succeeds) (placed bytes)).disk ≡ false
    unfolding happen put_step
    blob_removed bytes =
        ap (exists hash) (
          access-remove_blob ((placed bytes).puts j) (placed bytes).disk (second_removes bytes)
          ∙ ap (λ h. remove_file (blob_path h) (placed bytes).disk) same_hash)
        ∙ absent_after_remove hash (placed bytes).disk

    first_succeeds :
        (bytes : List ℕ)
        → ((happen digest codec (steps j succeeds) (placed bytes)).puts i).stage ≡ done (ok hash)
    unfolding happen
    first_succeeds bytes = rw (beq_false j i (λ e. race.apart (sym e)), beq_refl i) refl

  -- A `put` that succeeds may leave no blob. Two calls with the same bytes have both placed the blob
  -- and no metadata yet; the second finds none after its own write of them failed, the first then
  -- places its metadata and returns the hash, and the second removes the blob, which is the first's.
  pub put_loses_blob :
      (i j : ℕ) (w : World)
      → IsRacing i j w
      → let hash = hash_of digest (w.puts i) in
        let end = happen_all digest codec (schedule i j) w in
        ((end.puts i).stage ≡ done (ok hash)) × (exists hash end.disk ≡ false)
  unfolding happen_all
  put_loses_blob i j w race =
      let (bytes, found) = is_some_value _ race.staged in
      let last = happen digest codec (steps j succeeds) in
      let end : happen_all digest codec (schedule i j) w ≡ last (placed i j w race bytes) =
        ap (λ x. last (happen digest codec (steps i succeeds) x)) (second_checks i j w race)
        ∙ ap last (first_places i j w race bytes found) in
      subst
        (λ x.
          ((x.puts i).stage ≡ done (ok (hash_of digest (w.puts i))))
          × (exists (hash_of digest (w.puts i)) x.disk ≡ false))
        (sym end) (first_succeeds i j w race bytes, blob_removed i j w race bytes)
