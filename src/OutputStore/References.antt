-- ===== src/OutputStore/References.antt =====
-- References to content: what resolves to what, and for how long.
use runt.Prelude.{
  ℕ, String, false, Option, none, some, ◌≡◌, refl, sym, ap, ◌∙◌, arith, ltb, Bool-cases, inl, inr,
}
use runt.Prelude.Texts.{Text}
use runt.Stream.{IoResult, ok, err, try_then, try_then-ok}
use runt.OutputStore.{Utf8, Blobs, ContentRef, inline, blob, from_data, decode, resolve}

pub ok_injective : {A : Type 0} {a b : A} → ok a ≡ ok b → a ≡ b
ok_injective h = cc

module _ (utf8 : Utf8) (blobs : Blobs utf8.Bytes) where
  open blobs use {Store}

  decode-as_bytes : (t : String) → decode utf8 blobs (ok (some (utf8.as_bytes t))) ≡ ok t
  decode-as_bytes t = rw (decode, utf8.from_utf8-as_bytes t) refl

  -- The reference to a stored content: a blob whose put has succeeded.
  from_data-stored :
      (t media_type : String) (threshold : ℕ) (s : Store) (ref : ContentRef)
      → ltb (utf8.len (utf8.as_bytes t)) threshold ≡ false
      → (from_data utf8 blobs t media_type threshold s).0 ≡ ok ref
      → (hash : Text) × ((blobs.put (utf8.as_bytes t) media_type s).0 ≡ ok hash)
        × (from_data utf8 blobs t media_type threshold s ≡ (
          ok (blob hash (utf8.len (utf8.as_bytes t))),
          (blobs.put (utf8.as_bytes t) media_type s).1,
        ))
  unfolding from_data
  from_data-stored t media_type threshold s ref large h =
      let put = blobs.put (utf8.as_bytes t) media_type s in
      let stored : from_data utf8 blobs t media_type threshold s
          ≡ try_then put (λ hash s'. (ok (blob hash (utf8.len (utf8.as_bytes t))), s')) =
        rw (from_data, large) refl in
      let first = try_then-ok put _ ref (ap (λ x. x.0) (sym stored) ∙ h) in
      (first.0, first.1, stored ∙ first.2)

  through :
      (t : String) (ref r : ContentRef) (s' : Store) (x : IoResult ContentRef × Store)
      → x ≡ (ok r, s')
      → x.0 ≡ ok ref
      → resolve utf8 blobs r s' ≡ ok t
      → resolve utf8 blobs ref x.1 ≡ ok t
  through t ref r s' x e h resolved =
      ap (λ y. resolve utf8 blobs ref y.1) e
      ∙ ap (λ q. resolve utf8 blobs q s') (sym (ok_injective (sym (ap (λ y. y.0) e) ∙ h)))
      ∙ resolved

  -- A content resolves to itself through the reference that was made of it.
  pub from_data-resolve :
      (t media_type : String) (threshold : ℕ) (s : Store) (ref : ContentRef)
      → blobs.IsSafe (utf8.as_bytes t)
      → blobs.IsGood s
      → (from_data utf8 blobs t media_type threshold s).0 ≡ ok ref
      → resolve utf8 blobs ref (from_data utf8 blobs t media_type threshold s).1 ≡ ok t
  unfolding from_data resolve
  from_data-resolve t media_type threshold s ref safe good h =
      elim (Bool-cases (ltb (utf8.len (utf8.as_bytes t)) threshold)) [
        | inl small ↦
            let e : from_data utf8 blobs t media_type threshold s ≡ (ok (inline t), s) =
              rw (from_data, small) refl in
            through t ref (inline t) s _ e h refl
        | inr large ↦
            let got = from_data-stored t media_type threshold s ref large h in
            let r = blob got.0 (utf8.len (utf8.as_bytes t)) in
            through t ref r (blobs.put (utf8.as_bytes t) media_type s).1 _ got.2 h (
              ap (decode utf8 blobs)
                (blobs.put_get (utf8.as_bytes t) media_type s got.0 safe good got.1)
              ∙ decode-as_bytes t)
      ]

  decode-ok :
      (r : IoResult (Option utf8.Bytes)) (t : String)
      → decode utf8 blobs r ≡ ok t
      → (bytes : utf8.Bytes) × (r ≡ ok (some bytes))
  decode-ok (err e) t h = ground arith
  decode-ok (ok none) t h = ground arith
  decode-ok (ok (some bytes)) t h = (bytes, refl)

  put-keeps :
      (bytes : utf8.Bytes) (media_type : String) (s : Store) (hash : Text) (r : ContentRef)
      (t : String)
      → blobs.IsSafe bytes
      → blobs.IsGood s
      → (blobs.put bytes media_type s).0 ≡ ok hash
      → resolve utf8 blobs r s ≡ ok t
      → resolve utf8 blobs r (blobs.put bytes media_type s).1 ≡ ok t
  unfolding resolve
  put-keeps bytes media_type s hash (inline text) t safe good put h = h
  put-keeps bytes media_type s hash (blob kept size) t safe good put h =
      let found = decode-ok (blobs.get kept s) t h in
      ap (decode utf8 blobs)
        (blobs.put_keeps bytes media_type s hash kept found.0 safe good put found.1)
      ∙ ap (decode utf8 blobs) (sym found.1)
      ∙ h

  -- A new content leaves what the other references resolve to.
  pub from_data-keeps :
      (t media_type : String) (threshold : ℕ) (s : Store) (ref r : ContentRef) (old : String)
      → blobs.IsSafe (utf8.as_bytes t)
      → blobs.IsGood s
      → (from_data utf8 blobs t media_type threshold s).0 ≡ ok ref
      → resolve utf8 blobs r s ≡ ok old
      → resolve utf8 blobs r (from_data utf8 blobs t media_type threshold s).1 ≡ ok old
  unfolding from_data
  from_data-keeps t media_type threshold s ref r old safe good h resolved =
      elim (Bool-cases (ltb (utf8.len (utf8.as_bytes t)) threshold)) [
        | inl small ↦
            let e : from_data utf8 blobs t media_type threshold s ≡ (ok (inline t), s) =
              rw (from_data, small) refl in
            ap (λ y. resolve utf8 blobs r y.1) e ∙ resolved
        | inr large ↦
            let got = from_data-stored t media_type threshold s ref large h in
            ap (λ y. resolve utf8 blobs r y.1) got.2
            ∙ put-keeps (utf8.as_bytes t) media_type s got.0 r old safe good got.1 resolved
      ]

  try_then-IsGood :
      (x : IoResult Text × Store) (f : Text → ContentRef)
      → blobs.IsGood (x.1)
      → blobs.IsGood (try_then x (λ hash s. (ok (f hash), s))).1
  try_then-IsGood (ok hash, s) f good = good
  try_then-IsGood (err e, s) f good = good

  -- A new content keeps the store good.
  pub from_data-IsGood :
      (t media_type : String) (threshold : ℕ) (s : Store)
      → blobs.IsSafe (utf8.as_bytes t)
      → blobs.IsGood s
      → blobs.IsGood (from_data utf8 blobs t media_type threshold s).1
  unfolding from_data
  from_data-IsGood t media_type threshold s safe good =
      elim (Bool-cases (ltb (utf8.len (utf8.as_bytes t)) threshold)) [
        | inl small ↦ rw (from_data, small) good
        | inr large ↦
            rw (from_data, large)
              (try_then-IsGood (blobs.put (utf8.as_bytes t) media_type s) _
                (blobs.put_good (utf8.as_bytes t) media_type s safe good))
      ]
