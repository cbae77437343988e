-- ===== src/BlobStore/Listing.antt =====
-- What `list` returns against what `exists` says.
use runt.Prelude.{
  ℕ, zero, suc, ◌-◌, ◌≤◌, Bool, true, false, ◌&&◌, ◌||◌, Option, some, List, [], ◌∷◌, ◌++◌, ◌≡◌,
  ◌≢◌, refl, sym, ap, subst, ◌∙◌, arith, ◌==◌, pair_eq, nat_eq, length, take, drop,
  take-append-drop, Bool-cases, inl, inr, if◌then◌else◌, beq→eq, contains, is_some,
}
use runt.Prelude.Texts.{Text, text_eq, text_beq, text_beq_iff, starts_with, ends_with}
use runt.Prelude.Distinct.{contains-append}
use runt.Prelude.Map.{Map, get as lookup}
use runt.BlobStore.{
  Disk, Location, validate_hash, all_hexdigits, is_hexdigit, blob_path, dot_meta, dot_tmp, exists,
  is_blob_name, list, list_shard, present,
}

take-length-append : (s t : Text) → length s ≡ 2 → take 2 (s ++ t) ≡ s
take-length-append (a ∷ b ∷ []) t h = refl
take-length-append [] t h = ground arith
take-length-append (a ∷ []) t h = ground arith
take-length-append (a ∷ b ∷ c ∷ s) t h = absurd (omega (arith, h))

drop-length-append : (s t : Text) → length s ≡ 2 → drop 2 (s ++ t) ≡ t
drop-length-append (a ∷ b ∷ []) t h = refl
drop-length-append [] t h = ground arith
drop-length-append (a ∷ []) t h = ground arith
drop-length-append (a ∷ b ∷ c ∷ s) t h = absurd (omega (arith, h))

all_hexdigits-drop : (n : ℕ) (t : Text) → all_hexdigits t ≡ true → all_hexdigits (drop n t) ≡ true
unfolding all_hexdigits
all_hexdigits-drop zero t h = h
all_hexdigits-drop (suc n) [] h = refl
all_hexdigits-drop (suc n) (c ∷ t) h = all_hexdigits-drop n t (ground arith)

all_hexdigits-take : (n : ℕ) (t : Text) → all_hexdigits t ≡ true → all_hexdigits (take n t) ≡ true
unfolding all_hexdigits
all_hexdigits-take zero t h = refl
all_hexdigits-take (suc n) [] h = refl
all_hexdigits-take (suc n) (c ∷ t) h = ground (arith, all_hexdigits-take n t)

dot_not_hex : all_hexdigits dot_meta ≢ true
unfolding all_hexdigits is_hexdigit
dot_not_hex h = ground arith

-- The names of hashes are neither metadata nor temporary: a dot is no hexadecimal digit.
ends_with-hex : (t : Text) → all_hexdigits t ≡ true → ends_with dot_meta t ≡ false
unfolding ends_with
ends_with-hex t h = elim (Bool-cases (text_beq (drop (length t - 5) t) dot_meta)) [
  | inr other ↦ other
  | inl same ↦
      let e = (text_beq_iff (drop (length t - 5) t) dot_meta).0 same in
      let hex : all_hexdigits dot_meta ≡ true =
        subst (λ x. all_hexdigits x ≡ true) e (all_hexdigits-drop (length t - 5) t h) in
      absurd (dot_not_hex hex)
]

starts_with-hex : (t : Text) → all_hexdigits t ≡ true → starts_with (take 4 dot_tmp) t ≡ false
unfolding starts_with all_hexdigits is_hexdigit
starts_with-hex [] h = refl
starts_with-hex (c ∷ t) h = ground arith

hash_name : (h : Text) → validate_hash h ≡ true → is_blob_name (take 2 h) (drop 2 h) ≡ true
unfolding validate_hash
hash_name h v =
    let hex : all_hexdigits h ≡ true = ground (arith, v) in
    let rest = all_hexdigits-drop 2 h hex in
    rw (take-append-drop 2 h, ends_with-hex (drop 2 h) rest, starts_with-hex (drop 2 h) rest) v

own_name : (h : Text) → is_blob_name (take 2 h) (drop 2 h) ≡ validate_hash h
own_name h = elim (Bool-cases (validate_hash h)) [
  | inl v ↦ hash_name h v ∙ sym v
  | inr v ↦ rw (take-append-drop 2 h, v) (ground arith)
]

joined_iff :
    (shard name h : Text)
    → length shard ≡ 2
    → (shard ++ name == h) ≡ (take 2 h == shard && name == drop 2 h)
joined_iff shard name h two = elim (Bool-cases (shard ++ name == h)) [
  | inl same ↦
      let e = beq→eq (shard ++ name) h same in
      let t : take 2 h ≡ shard = ap (take 2) (sym e) ∙ take-length-append shard name two in
      let d : name ≡ drop 2 h = sym (drop-length-append shard name two) ∙ ap (drop 2) e in
      ground (arith, same, (text_beq_iff (take 2 h) shard).1 t, (text_beq_iff name (drop 2 h)).1 d)
  | inr apart ↦ elim (Bool-cases (take 2 h == shard)) [
    | inr other ↦ rw (apart, other) refl
    | inl t ↦ elim (Bool-cases (name == drop 2 h)) [
      | inr other ↦ rw (apart, t, other) refl
      | inl d ↦
          let e : shard ++ name ≡ h =
            ap (λ x. x ++ name) (sym (beq→eq (take 2 h) shard t))
            ∙ ap (λ x. take 2 h ++ x) (beq→eq name (drop 2 h) d)
            ∙ take-append-drop 2 h in
          ground (arith, apart, (text_beq_iff (shard ++ name) h).1 e)
    ]
  ]
]

blob_name_valid :
    (shard name h : Text)
    → take 2 h == shard ≡ true
    → name == drop 2 h ≡ true
    → is_blob_name shard name ≡ validate_hash h
blob_name_valid shard name h t d =
    let s = beq→eq (take 2 h) shard t in
    let n = beq→eq name (drop 2 h) d in
    ap (λ x. is_blob_name x name) (sym s) ∙ ap (is_blob_name (take 2 h)) n ∙ own_name h

nothing_listed : (b v : Bool) (h : Text) → contains [] h ≡ (b && v && false)
unfolding contains
nothing_listed b v h = ground arith

-- One file of a directory, as an equation of tests.
one_file :
    (here joined prefix_ name blob valid later more : Bool)
    → joined ≡ (prefix_ && name)
    → (prefix_ ≡ true → name ≡ true → blob ≡ valid)
    → later ≡ (prefix_ && valid && more)
    → (if here && blob then joined || later else later)
      ≡ (prefix_ && valid && (if here && name then true else more))
one_file here joined prefix_ name blob valid later more j n l = ground (arith, j, n, l)

contains-if :
    (b : Bool) (t h : Text) (rest : List Text)
    → contains (if b then t ∷ rest else rest) h
      ≡ (if b then t == h || contains rest h else contains rest h)
unfolding contains
contains-if true t h rest = refl
contains-if false t h rest = refl

is_some-if :
    (b : Bool) (bytes : List ℕ) (o : Option (List ℕ))
    → is_some (if b then some bytes else o) ≡ (if b then true else is_some o)
is_some-if true bytes o = refl
is_some-if false bytes o = refl

list_shard-contains :
    (shard h : Text) (files : Map Location (List ℕ))
    → length shard ≡ 2
    → contains (list_shard shard files) h
      ≡ (take 2 h == shard && validate_hash h && is_some (lookup (shard, drop 2 h) files))
unfolding list_shard lookup
list_shard-contains shard h [] two = nothing_listed (take 2 h == shard) (validate_hash h) h
list_shard-contains shard h (((dir, name), bytes) ∷ files) two =
    contains-if (dir == shard && is_blob_name shard name) (shard ++ name) h (list_shard shard files)
    ∙ one_file (dir == shard) (shard ++ name == h) (take 2 h == shard) (name == drop 2 h)
        (is_blob_name shard name) (validate_hash h) (contains (list_shard shard files) h)
        (is_some (lookup (shard, drop 2 h) files)) (joined_iff shard name h two)
        (blob_name_valid shard name h) (list_shard-contains shard h files two)
    ∙ ap (λ x. take 2 h == shard && validate_hash h && x)
        (sym (is_some-if (dir == shard && name == drop 2 h) bytes (lookup (shard, drop 2 h) files)))

if_or : (a b : Bool) → (if a then true else b) ≡ (a || b)
if_or true b = refl
if_or false b = refl

-- One directory, as an equation of tests.
one_dir :
    (taken own valid here there later known : Bool)
    → (own ≡ true → here ≡ there)
    → (valid ≡ true → own ≡ true → taken ≡ true)
    → later ≡ (known && (valid && there))
    → (if taken then (own && valid && here) || later else later)
      ≡ ((own || known) && (valid && there))
one_dir taken own valid here there later known h t l = ground (arith, h, t, l)

text_beq-sym : (s t : Text) → text_beq s t ≡ text_beq t s
text_beq-sym s t = elim (Bool-cases (text_beq t s)) [
  | inl same ↦ (text_beq_iff s t).1 (sym ((text_beq_iff t s).0 same)) ∙ sym same
  | inr apart ↦ elim (Bool-cases (text_beq s t)) [
    | inl same ↦
        absurd (ground (arith, apart, (text_beq_iff t s).1 (sym ((text_beq_iff s t).0 same))))
    | inr apart' ↦ apart' ∙ sym apart
  ]
]

abbrev is_shard : Text → Bool
is_shard shard = length shard == 2 && all_hexdigits shard

length-take2 : (h : Text) → 2 ≤ length h → length (take 2 h) ≡ 2
length-take2 [] two = omega (arith, two)
length-take2 (a ∷ []) two = omega (arith, two)
length-take2 (a ∷ b ∷ h) two = refl

take2-is_shard : (h : Text) → validate_hash h ≡ true → is_shard (take 2 h) ≡ true
unfolding validate_hash
take2-is_shard h v =
    let long : 2 ≤ length h = ground (arith, v) in
    ground (arith, length-take2 h long, all_hexdigits-take 2 h (ground (arith, v)))

contains-if-append :
    (b : Bool) (h : Text) (found rest : List Text)
    → contains (if b then found ++ rest else rest) h
      ≡ (if b then contains found h || contains rest h else contains rest h)
contains-if-append true h found rest =
    contains-append found rest h ∙ if_or (contains found h) (contains rest h)
contains-if-append false h found rest = refl

swap_found :
    (taken found other later : Bool)
    → (taken ≡ true → found ≡ other)
    → (if taken then found || later else later) ≡ (if taken then other || later else later)
swap_found true found other later h = ap (λ x. x || later) (h refl)
swap_found false found other later h = refl

own_shard :
    (shard h : Text) (d : Disk)
    → take 2 h == shard ≡ true
    → is_some (lookup (shard, drop 2 h) d.files) ≡ present (blob_path h) d
own_shard shard h d t =
    ap (λ x. is_some (lookup (x, drop 2 h) d.files)) (sym (beq→eq (take 2 h) shard t))

shard_taken :
    (shard h : Text) → validate_hash h ≡ true → take 2 h == shard ≡ true → is_shard shard ≡ true
shard_taken shard h v t = ap is_shard (sym (beq→eq (take 2 h) shard t)) ∙ take2-is_shard h v

-- `list` returns exactly the hashes that `exists` knows, in the directories that the disk has: no
-- metadata, no temporary file and no name that is not a hash is listed, and no blob is missed.
pub list-contains :
    (dirs : List Text) (h : Text) (d : Disk)
    → contains (list dirs d) h ≡ (contains dirs (take 2 h) && exists h d)
unfolding list contains exists
list-contains [] h d = refl
list-contains (shard ∷ dirs) h d =
    let taken = is_shard shard in
    let there = present (blob_path h) d in
    let here = is_some (lookup (shard, drop 2 h) d.files) in
    let own = take 2 h == shard in
    let later = contains (list dirs d) h in
    contains-if-append taken h (list_shard shard d.files) (list dirs d)
    ∙ swap_found taken (contains (list_shard shard d.files) h) (own && validate_hash h && here)
        later (λ two. list_shard-contains shard h d.files (ground (arith, two)))
    ∙ one_dir taken own (validate_hash h) here there later (contains dirs (take 2 h))
        (own_shard shard h d) (shard_taken shard h) (list-contains dirs h d)
    ∙ ap (λ x. (x || contains dirs (take 2 h)) && (validate_hash h && there))
        (text_beq-sym (take 2 h) shard)
