-- ===== src/Connection/Frames.antt =====
-- Frames of connection.rs on both ends of a stream.
use mathlib.Core.List.{append_assoc}
use runt.Prelude.{
  ℕ, zero, suc, ◌%◌, ◌≤◌, ◌<◌, false, none, some, List, [], ◌∷◌, ◌++◌, ◌≡◌, ◌⊎◌, inl, inr, refl, ap,
  subst, ◌∙◌, arith, ltb, length, take, drop, length-append, Bool-cases,
}
use runt.Stream.{
  try_then-ok, try_then-of, unexpected_eof, frame_too_large, IoResult, ok, err, Reader, Writer,
}
use runt.Connection.{
  to_be_bytes, from_be_bytes, u32_mod, send_frame, recv_frame_with_limit, after_length,
  recv_payload,
}

-- The bytes of a frame on the wire, and what of them the receiver takes for the payload.
abbrev pub announced : List ℕ → ℕ
announced data' = length data' % u32_mod

abbrev pub frame_bytes : List ℕ → List ℕ
frame_bytes data' = to_be_bytes (announced data') ++ data'

be_bytes : (n : ℕ) → n < u32_mod → from_be_bytes 0 (to_be_bytes n) ≡ n
unfolding from_be_bytes to_be_bytes
be_bytes n h = omega arith

length-to_be_bytes : (n : ℕ) → length (to_be_bytes n) ≡ 4
unfolding to_be_bytes
length-to_be_bytes n = refl

announced_fits : (data' : List ℕ) → announced data' < u32_mod
announced_fits data' = omega arith

announced_le : (data' : List ℕ) → announced data' ≤ length data'
announced_le data' = omega arith

drop-append-lt : (n : ℕ) (xs ys : List ℕ) → n ≤ length xs → drop n (xs ++ ys) ≡ drop n xs ++ ys
drop-append-lt zero xs ys h = refl
drop-append-lt (suc n) [] ys h = ground arith
drop-append-lt (suc n) (x ∷ xs) ys h = drop-append-lt n xs ys (omega arith)

take-append-lt : (n : ℕ) (xs ys : List ℕ) → n ≤ length xs → take n (xs ++ ys) ≡ take n xs
take-append-lt zero xs ys h = refl
take-append-lt (suc n) [] ys h = ground arith
take-append-lt (suc n) (x ∷ xs) ys h = ap (◌∷◌ x) (take-append-lt n xs ys (omega arith))

module _ (w : Writer) where
  open w use {Sink}

  pub send_frame-written :
      (data' : List ℕ) (s : Sink)
      → (send_frame w data' s).0 ≡ ok tt
      → w.written (send_frame w data' s).1 ≡ w.written s ++ frame_bytes data'
  unfolding send_frame
  send_frame-written data' s h =
      let header = to_be_bytes (announced data') in
      let first = try_then-ok (w.write_all header s) _ tt h in
      let s₁ = (w.write_all header s).1 in
      let rest = subst (λ x. x.0 ≡ ok tt) first.2 h in
      let second = try_then-ok (w.write_all data' s₁) _ tt rest in
      let e = first.2 ∙ second.2 in
      ap (λ x. w.written x.1) e
      ∙ w.flush_written (w.write_all data' s₁).1
      ∙ w.write_all_written data' s₁ second.1
      ∙ ap (λ l. l ++ data') (w.write_all_written header s first.1)
      ∙ append_assoc (w.written s) header data'

module _ (r : Reader) where
  open r use {Source}

  module _ (s : Source) (data' rest : List ℕ) (coming : r.incoming s ≡ data' ++ rest) where
    -- What `read_exact` gives of a prefix of the bytes that come.
    pub read_prefix :
        (n : ℕ)
        → n ≤ length data'
        → ((r.read_exact n s).0 ≡ ok (take n data'))
          × (r.incoming (r.read_exact n s).1 ≡ drop n data' ++ rest)
          × (r.ends_with (r.read_exact n s).1 ≡ r.ends_with s)
    read_prefix n h =
        let enough : n ≤ length (r.incoming s) =
          rw coming (omega (arith, length-append data' rest)) in
        let got = r.read_exact_enough n s enough in
        (
          got.0 ∙ ap ok (ap (take n) coming ∙ take-append-lt n data' rest h),
          got.1 ∙ ap (drop n) coming ∙ drop-append-lt n data' rest h,
          got.2,
        )

    recv_payload-fits :
        (max_size len : ℕ)
        → len ≤ length data'
        → ltb max_size len ≡ false
        → recv_payload r max_size len s ≡ (ok (some (take len data')), (r.read_exact len s).1)
    unfolding recv_payload
    recv_payload-fits max_size len h fits =
        rw fits (try_then-of (r.read_exact len s) _ (take len data') (read_prefix len h).0)

    recv_payload-cases :
        (max_size len : ℕ)
        → len ≤ length data'
        → let (answer, s') = recv_payload r max_size len s in
          ((len ≤ max_size)
            × (answer ≡ ok (some (take len data')))
            × (r.incoming s' ≡ drop len data' ++ rest)
            × (r.ends_with s' ≡ r.ends_with s))
          ⊎ ((max_size < len)
              × (answer ≡ err (frame_too_large len max_size))
              × (r.incoming s' ≡ data' ++ rest))
    unfolding recv_payload
    recv_payload-cases max_size len h = elim (Bool-cases (ltb max_size len)) [
      | inl over ↦ rw (recv_payload, over) (inr (ground arith, refl, coming))
      | inr fits ↦
          let got = read_prefix len h in
          rw (recv_payload-fits max_size len h fits) (inl (ground arith, refl, got.1, got.2))
    ]

  after_length-ok :
      (max_size : ℕ) (x : IoResult (List ℕ) × Source) (len_buf : List ℕ)
      → x.0 ≡ ok len_buf
      → after_length r max_size x ≡ recv_payload r max_size (from_be_bytes 0 len_buf) x.1
  unfolding after_length
  after_length-ok max_size (ok b, s) len_buf h = cc
  after_length-ok max_size (err e, s) len_buf h = ground arith

  after_length-eof :
      (max_size : ℕ) (x : IoResult (List ℕ) × Source)
      → x.0 ≡ err unexpected_eof
      → (after_length r max_size x).0 ≡ ok none
  unfolding after_length
  after_length-eof max_size (ok b, s) h = ground arith
  after_length-eof max_size (err unexpected_eof, s) h = refl
  after_length-eof max_size (err _, s) h = ground arith

  header_read :
      (max_size : ℕ) (data' rest : List ℕ) (s : Source)
      → r.incoming s ≡ frame_bytes data' ++ rest
      → let s' = (r.read_exact 4 s).1 in
        (recv_frame_with_limit r max_size s ≡ recv_payload r max_size (announced data') s')
        × (r.incoming s' ≡ data' ++ rest)
        × (r.ends_with s' ≡ r.ends_with s)
  unfolding recv_frame_with_limit to_be_bytes
  header_read max_size data' rest s coming =
      let len = announced data' in
      let got = read_prefix s (to_be_bytes len) (data' ++ rest) coming 4 (omega arith) in
      let s' = (r.read_exact 4 s).1 in
      (
        after_length-ok max_size (r.read_exact 4 s) (to_be_bytes len) got.0
            ∙ ap (λ n. recv_payload r max_size n s') (be_bytes len (announced_fits data')),
        got.1,
        got.2,
      )

  -- What a frame on the wire is to a receiver, for a payload of any length: the length is sent modulo
  -- 2 ^ 32. If that is within the limit, as many bytes of the payload are the frame, and those behind
  -- them are read as the next one; if not, the frame is refused before any of its payload is read.
  pub recv_frame_with_limit-cases :
      (max_size : ℕ) (data' rest : List ℕ) (s : Source)
      → r.incoming s ≡ frame_bytes data' ++ rest
      → let len = announced data' in
        let (answer, s') = recv_frame_with_limit r max_size s in
        ((len ≤ max_size)
          × (answer ≡ ok (some (take len data')))
          × (r.incoming s' ≡ drop len data' ++ rest)
          × (r.ends_with s' ≡ r.ends_with s))
        ⊎ ((max_size < len)
            × (answer ≡ err (frame_too_large len max_size))
            × (r.incoming s' ≡ data' ++ rest))
  recv_frame_with_limit-cases max_size data' rest s coming =
      let got = header_read max_size data' rest s coming in
      rw (got.0, ← got.2)
        (recv_payload-cases (r.read_exact 4 s).1 data' rest got.1 max_size (announced data')
          (announced_le data'))

  -- A stream that its peer closes before four bytes have come is taken for a clean disconnect, also
  -- within the length of a frame.
  pub cut_header :
      (max_size : ℕ) (s : Source)
      → length (r.incoming s) < 4
      → r.ends_with s ≡ unexpected_eof
      → (recv_frame_with_limit r max_size s).0 ≡ ok none
  unfolding recv_frame_with_limit
  cut_header max_size s short closed =
      after_length-eof max_size (r.read_exact 4 s) (r.read_exact_short 4 s short ∙ ap err closed)

take-all : (xs : List ℕ) → take (length xs) xs ≡ xs
take-all [] = refl
take-all (x ∷ xs) = ap (◌∷◌ x) (take-all xs)

drop-all : (xs : List ℕ) → drop (length xs) xs ≡ []
drop-all [] = refl
drop-all (x ∷ xs) = drop-all xs

module _ (r : Reader) where
  open r use {Source}

  -- A frame within the limit is received whole, and nothing behind it is read.
  pub received_whole :
      (max_size : ℕ) (data' rest : List ℕ) (s : Source)
      → max_size < u32_mod
      → length data' ≤ max_size
      → r.incoming s ≡ frame_bytes data' ++ rest
      → let (answer, s') = recv_frame_with_limit r max_size s in
        (answer ≡ ok (some data')) × (r.incoming s' ≡ rest) × (r.ends_with s' ≡ r.ends_with s)
  received_whole max_size data' rest s small h coming =
      let whole : announced data' ≡ length data' = omega arith in
      elim (recv_frame_with_limit-cases r max_size data' rest s coming) [
        | inr over ↦ absurd (omega (arith, over.0, whole, h))
        | inl got ↦ (
          got.1 ∙ ap (λ l. ok (some l)) (ap (λ n. take n data') whole ∙ take-all data'),
          got.2 ∙ ap (λ l. l ++ rest) (ap (λ n. drop n data') whole ∙ drop-all data'),
          got.3,
        )
      ]

  -- A frame over the limit, but not over what a length can say, is refused by its length.
  pub refused_by_length :
      (max_size : ℕ) (data' rest : List ℕ) (s : Source)
      → max_size < length data'
      → length data' < u32_mod
      → r.incoming s ≡ frame_bytes data' ++ rest
      → (recv_frame_with_limit r max_size s).0 ≡ err (frame_too_large (length data') max_size)
  refused_by_length max_size data' rest s over fits coming =
      let whole : announced data' ≡ length data' = omega arith in
      elim (recv_frame_with_limit-cases r max_size data' rest s coming) [
        | inl got ↦ absurd (omega (arith, over, whole, got.0))
        | inr refused ↦ refused.1 ∙ ap (λ n. err (frame_too_large n max_size)) whole
      ]
