-- ===== src/BlobStore/Paths.antt =====
-- Where the files of the blob store stand: names of different kinds have different lengths.
use runt.Prelude.{
  ℕ, ◌-◌, true, some, List, [], ◌∷◌, ◌++◌, ◌≡◌, ◌≢◌, refl, sym, ap, ◌∙◌, arith, pair_eq, nat_eq,
  length, drop, take-append-drop, length-append, beq_false, beq_refl,
}
use runt.Prelude.Texts.{Text, text_eq}
use runt.Prelude.Map.{get, get-insert, get-remove}
use runt.BlobStore.{
  Disk, Location, validate_hash, blob_path, meta_path, dot_meta, write_file, remove_file,
}

hash_length : (h : Text) → validate_hash h ≡ true → length h ≡ 64
unfolding validate_hash
hash_length h v = ground arith

length-drop2 : (h : Text) → length (drop 2 h) ≡ length h - 2
length-drop2 [] = omega arith
length-drop2 (a ∷ []) = omega arith
length-drop2 (a ∷ b ∷ h) = omega arith

pub blob_name_length : (h : Text) → validate_hash h ≡ true → length (blob_path h).1 ≡ 62
blob_name_length h v = omega (arith, hash_length h v, length-drop2 h)

pub meta_name_length : (h : Text) → validate_hash h ≡ true → length (meta_path h).1 ≡ 67
meta_name_length h v =
    omega (arith, hash_length h v, length-drop2 h, length-append (drop 2 h) dot_meta)

pub names_differ : (p q : Location) → length p.1 ≢ length q.1 → p ≢ q
names_differ p q h e = h (ap (λ r. length r.1) e)

pub blob_path-injective : (g h : Text) → blob_path g ≡ blob_path h → g ≡ h
blob_path-injective g h e =
    sym (take-append-drop 2 g) ∙ ap (λ r. r.0 ++ r.1) e ∙ take-append-drop 2 h

pub get-write :
    (p : Location) (bytes : List ℕ) (d : Disk) → get p (write_file p bytes d).files ≡ some bytes
get-write p bytes d = get-insert p p bytes d.files ∙ rw (beq_refl p) refl

pub get-write-other :
    (p q : Location) (bytes : List ℕ) (d : Disk)
    → p ≢ q
    → get q (write_file p bytes d).files ≡ get q d.files
get-write-other p q bytes d h = get-insert q p bytes d.files ∙ rw (beq_false p q h) refl

pub get-remove-other :
    (p q : Location) (d : Disk) → p ≢ q → get q (remove_file p d).files ≡ get q d.files
get-remove-other p q d h = get-remove q p d.files ∙ rw (beq_false p q h) refl

pub get-remove-some :
    (p q : Location) (bytes : List ℕ) (d : Disk)
    → get q (remove_file p d).files ≡ some bytes
    → get q d.files ≡ some bytes
get-remove-some p q bytes d h = ground (arith, get-remove q p d.files)
