-- ===== src/OutputStore/Bundles.antt =====
-- Bundles of content by MIME type, converted and resolved again.
use mathlib.Core.List.{append-nil}
use runt.Prelude.{
  ℕ, String, true, false, none, some, List, [], ◌∷◌, ◌++◌, ◌≡◌, refl, sym, ap, subst, ◌∙◌, arith,
  string_eq, contains, All, ◌⊎◌, inl, inr,
}
use runt.Prelude.Map.{Map, insert}
use runt.Prelude.Distinct.{Distinct, keys, get_absent, remove_absent}
use runt.Json.{Json}
use runt.Stream.{ok, try_then-ok}
use runt.OutputStore.{
  Utf8, Printer, Blobs, ContentRef, from_data, resolve, value_to_string, convert_entries,
  restored_value, is_structured, or_fail, resolve_entries, resolve_data_bundle, convert_data_bundle,
}
use runt.OutputStore.References.{ok_injective, from_data-resolve, from_data-keeps, from_data-IsGood}

abbrev rev_append : {A : Type 0} → List A → List A → List A
rev_append [] acc = acc
rev_append (x ∷ xs) acc = rev_append xs (x ∷ acc)

rev_append-rev_append :
    {A : Type 0} (xs a b : List A) → rev_append (rev_append xs a) b ≡ rev_append a (xs ++ b)
rev_append-rev_append [] a b = refl
rev_append-rev_append (x ∷ xs) a b = rev_append-rev_append xs (x ∷ a) b

-- No key of the first dictionary stands in it again or in the second.
abbrev Fresh : {V : Type 0} → Map String V → Map String V → Type 0
Fresh [] done = Unit {0}
Fresh ((k, v) ∷ m) done = (contains (keys done) k ≡ false) × Fresh m ((k, v) ∷ done)

Distinct-Fresh :
    {V : Type 0} (m done : Map String V)
    → Distinct (keys m)
    → ((k : String) → contains (keys m) k ≡ true → contains (keys done) k ≡ false)
    → Fresh m done
unfolding contains
Distinct-Fresh [] done d apart = tt
Distinct-Fresh ((k, v) ∷ m) done d apart = (
  apart k (ground (arith, string_eq.same_iff k k)),
  Distinct-Fresh m ((k, v) ∷ done) d.1
      (λ j h. ground (arith, apart j, h, d.0, string_eq.same_iff k j)),
)

Fresh-Distinct :
    {V : Type 0} (m done : Map String V)
    → Fresh m done
    → Distinct (keys done)
    → Distinct (keys (rev_append m done))
Fresh-Distinct [] done f d = d
Fresh-Distinct ((k, v) ∷ m) done f d = Fresh-Distinct m ((k, v) ∷ done) f.1 (f.0, d)

nothing_in : (k : String) → contains {A = String} [] k ≡ false
unfolding contains
nothing_in k = refl

insert-fresh :
    {V : Type 0} (k : String) (v : V) (m : Map String V)
    → contains (keys m) k ≡ false
    → insert k v m ≡ (k, v) ∷ m
unfolding insert
insert-fresh k v m h = ap (λ r. (k, v) ∷ r) (remove_absent k m (get_absent k m h))

module _ (utf8 : Utf8) (blobs : Blobs utf8.Bytes) (json : Json) (printer : Printer json) where
  open blobs use {Store}
  open json use {Value}

  -- The references resolve to the texts of the values, key by key.
  abbrev Refers : Store → Map String ContentRef → Map String Value → Type 0
  Refers s [] [] = Unit {0}
  Refers s ((k, ref) ∷ refs) ((j, v) ∷ m) =
      (k ≡ j)
      × (resolve utf8 blobs ref s ≡ ok (value_to_string utf8 blobs json printer v))
      × Refers s refs m
  Refers s _ _ = ⊥

  Refers-keys :
      (s : Store) (refs : Map String ContentRef) (m : Map String Value)
      → Refers s refs m
      → keys refs ≡ keys m
  Refers-keys s [] [] r = refl
  Refers-keys s [] (x ∷ m) r = absurd r
  Refers-keys s (x ∷ refs) [] r = absurd r
  Refers-keys s ((k, ref) ∷ refs) ((j, v) ∷ m) r =
      ap (λ x. x ∷ keys refs) r.0 ∙ ap (λ x. j ∷ x) (Refers-keys s refs m r.2)

  from_data-Refers :
      (t media_type : String) (threshold : ℕ) (s : Store) (ref : ContentRef)
      (refs : Map String ContentRef) (m : Map String Value)
      → blobs.IsSafe (utf8.as_bytes t)
      → blobs.IsGood s
      → (from_data utf8 blobs t media_type threshold s).0 ≡ ok ref
      → Refers s refs m
      → Refers (from_data utf8 blobs t media_type threshold s).1 refs m
  from_data-Refers t media_type threshold s ref [] [] safe good h r = tt
  from_data-Refers t media_type threshold s ref [] (x ∷ m) safe good h r = absurd r
  from_data-Refers t media_type threshold s ref (x ∷ refs) [] safe good h r = absurd r
  from_data-Refers t media_type threshold s ref ((k, old) ∷ refs) ((j, v) ∷ m) safe good h r = (
    r.0,
    from_data-keeps utf8 blobs t media_type threshold s ref old
        (value_to_string utf8 blobs json printer v) safe good h r.1,
    from_data-Refers t media_type threshold s ref refs m safe good h r.2,
  )

  -- The text of a value does not collide with others.
  abbrev pub HasSafeText : String × Value → Type 0
  HasSafeText (k, v) = blobs.IsSafe (utf8.as_bytes (value_to_string utf8 blobs json printer v))

  convert_entries-Refers :
      (m : Map String Value) (threshold : ℕ) (refs : Map String ContentRef)
      (done : Map String Value) (s : Store) (out : Map String ContentRef)
      → Fresh m done
      → All HasSafeText m
      → blobs.IsGood s
      → Refers s refs done
      → (convert_entries utf8 blobs json printer m threshold refs s).0 ≡ ok out
      → Refers
          (convert_entries utf8 blobs json printer m threshold refs s).1
          out
          (rev_append m done)
  unfolding convert_entries
  convert_entries-Refers [] threshold refs done s out f safe good r h =
      subst (λ o. Refers s o done) (ok_injective h) r
  convert_entries-Refers ((k, v) ∷ m) threshold refs done s out f safe good r h =
      let t = value_to_string utf8 blobs json printer v in
      let x = from_data utf8 blobs t k threshold s in
      let first = try_then-ok x _ out h in
      let now = insert k first.0 refs in
      let absent : contains (keys refs) k ≡ false =
        ap (λ ks. contains ks k) (Refers-keys s refs done r) ∙ f.0 in
      let more : Refers x.1 now ((k, v) ∷ done) =
        subst (λ o. Refers x.1 o ((k, v) ∷ done)) (sym (insert-fresh k first.0 refs absent))
          (
            refl,
            from_data-resolve utf8 blobs t k threshold s first.0 safe.0 good first.1,
            from_data-Refers t k threshold s first.0 refs done safe.0 good first.1 r,
          ) in
      subst (λ y. Refers y.1 out (rev_append m ((k, v) ∷ done))) (sym first.2)
        (convert_entries-Refers m threshold now ((k, v) ∷ done) x.1 out f.1 safe.1
          (from_data-IsGood utf8 blobs t k threshold s safe.0 good) more
          (ap (λ y. y.0) (sym first.2) ∙ h))

  -- What a bundle is after a round trip.
  abbrev pub restored : Map String Value → Map String Value
  restored [] = []
  restored ((k, v) ∷ m) =
      (k, restored_value utf8 blobs json printer k (value_to_string utf8 blobs json printer v))
      ∷ restored m

  keys-restored : (m : Map String Value) → keys (restored m) ≡ keys m
  keys-restored [] = refl
  keys-restored ((k, v) ∷ m) = ap (λ x. k ∷ x) (keys-restored m)

  restored-rev_append :
      (m done : Map String Value)
      → restored (rev_append m done) ≡ rev_append (restored m) (restored done)
  restored-rev_append [] done = refl
  restored-rev_append ((k, v) ∷ m) done = restored-rev_append m ((k, v) ∷ done)

  resolve_entries-restored :
      (m done : Map String Value) (refs : Map String ContentRef) (s : Store)
      → Fresh m done
      → Refers s refs m
      → resolve_entries utf8 blobs json printer refs (restored done) s
        ≡ ok (rev_append (restored m) (restored done))
  unfolding resolve_entries
  resolve_entries-restored [] done [] s f r = refl
  resolve_entries-restored [] done (x ∷ refs) s f r = absurd r
  resolve_entries-restored (x ∷ m) done [] s f r = absurd r
  resolve_entries-restored ((j, v) ∷ m) done ((k, ref) ∷ refs) s f r =
      let t = value_to_string utf8 blobs json printer v in
      let value = restored_value utf8 blobs json printer in
      let absent : contains (keys (restored done)) j ≡ false =
        ap (λ ks. contains ks j) (keys-restored done) ∙ f.0 in
      ap (λ i. resolve_entries utf8 blobs json printer ((i, ref) ∷ refs) (restored done) s) r.0
      ∙ ap
          (λ o. or_fail utf8 blobs json printer o (λ content.
            resolve_entries utf8 blobs json printer refs
              (insert j (value j content) (restored done)) s))
          r.1
      ∙ ap (λ acc. resolve_entries utf8 blobs json printer refs acc s)
          (insert-fresh j (value j t) (restored done) absent)
      ∙ resolve_entries-restored m ((j, v) ∷ done) refs s f.1 r.2

  -- A string under a type that is not JSON, or a value that is no string, and that its text stands
  -- for, under one that is.
  abbrev pub IsPlain : String × Value → Type 0
  IsPlain (k, v) =
      ((is_structured utf8 blobs json printer k ≡ false)
        × (t : String) × (json.as_str v ≡ some t)
        × (v ≡ json.string t))
      ⊎ ((is_structured utf8 blobs json printer k ≡ true)
          × (json.as_str v ≡ none)
          × (t : String) × (printer.to_string v ≡ some t)
          × (printer.from_str t ≡ some v))

  restored_value_plain :
      (k : String) (v : Value)
      → IsPlain (k, v)
      → restored_value utf8 blobs json printer k (value_to_string utf8 blobs json printer v) ≡ v
  unfolding restored_value value_to_string
  restored_value_plain k v (inl (mime, t, str, same)) =
      rw (restored_value, value_to_string, mime, str) (sym same)
  restored_value_plain k v (inr (mime, no_str, t, printed, parsed)) =
      rw (restored_value, value_to_string, mime, no_str, printed, parsed) refl

  restored_of_plain : (m : Map String Value) → All IsPlain m → restored m ≡ m
  restored_of_plain [] p = refl
  restored_of_plain ((k, v) ∷ m) p =
      ap (λ w. (k, w) ∷ restored m) (restored_value_plain k v p.0)
      ∙ ap (λ l. (k, v) ∷ l) (restored_of_plain m p.1)

  -- For texts whose hashes do not collide, over a store whose calls do not overlap and whose reads do
  -- not fail: a bundle that was converted resolves, from the store that the conversion leaves, to the
  -- same types in the same order, each with what its text is read as: under a JSON type the value that
  -- the text parses to, and else the text as a string. It is the same bundle if every value under a
  -- JSON type is no string and is what its text parses to, and every other value is a string.
  pub bundle_round_trip :
      (data' : Value) (m : Map String Value) (threshold : ℕ) (s : Store)
      (out : Map String ContentRef)
      → json.as_object data' ≡ some m
      → Distinct (keys m)
      → All HasSafeText m
      → blobs.IsGood s
      → (convert_data_bundle utf8 blobs json printer (some data') threshold s).0 ≡ ok out
      → let s' = (convert_data_bundle utf8 blobs json printer (some data') threshold s).1 in
        (resolve_data_bundle utf8 blobs json printer out s' ≡ ok (restored m))
        × (All IsPlain m → resolve_data_bundle utf8 blobs json printer out s' ≡ ok m)
  unfolding convert_data_bundle resolve_data_bundle
  bundle_round_trip data' m threshold s out object distinct safe good h =
      let conv = convert_entries utf8 blobs json printer m threshold [] s in
      let e : convert_data_bundle utf8 blobs json printer (some data') threshold s ≡ conv =
        rw (convert_data_bundle, object) refl in
      let fresh = Distinct-Fresh m [] distinct (λ k k_in. nothing_in k) in
      let refers =
        convert_entries-Refers m threshold [] [] s out fresh safe good tt
          (ap (λ y. y.0) (sym e) ∙ h) in
      let back =
        Distinct-Fresh (rev_append m []) [] (Fresh-Distinct m [] fresh tt)
          (λ k k_in. nothing_in k) in
      let resolved : resolve_data_bundle utf8 blobs json printer out conv.1 ≡ ok (restored m) =
        resolve_entries-restored (rev_append m []) [] out conv.1 back refers
        ∙ ap (λ l. ok (rev_append l [])) (restored-rev_append m [])
        ∙ ap ok (rev_append-rev_append (restored m) [] [] ∙ append-nil (restored m)) in
      let final = ap (λ y. resolve_data_bundle utf8 blobs json printer out y.1) e ∙ resolved in
      (final, λ plain. final ∙ ap ok (restored_of_plain m plain))
