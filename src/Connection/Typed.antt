-- ===== src/Connection/Typed.antt =====
-- Typed and JSON frames of connection.rs: whole conversations.
use mathlib.Core.List.{append_assoc, append-nil}
use runt.Prelude.{
  ℕ, zero, suc, ◌≤◌, ◌<◌, Option, none, some, List, [], ◌∷◌, ◌++◌, ◌≡◌, refl, sym, ap, subst, ◌∙◌,
  arith, length, All,
}
use runt.Stream.{
  try_then-ok, try_then-of, unexpected_eof, frame_too_large, IoResult, ok, err, try_then, Reader,
  Writer,
}
use runt.Connection.{
  max_frame_size, max_control_frame_size, NotebookFrameType, automerge_sync, request, response,
  broadcast, frame_byte, try_from, TypedNotebookFrame, Codec, send_frame, send_typed_frame,
  send_json_frame, recv_frame, recv_control_frame, typed, recv_typed_frame, decoded,
  recv_json_frame,
}
use runt.Connection.Frames.{
  frame_bytes, send_frame-written, received_whole, refused_by_length, cut_header,
}

abbrev pub typed_bytes : TypedNotebookFrame → List ℕ
typed_bytes f = frame_byte f.frame_type ∷ f.payload

try_from-frame_byte : (t : NotebookFrameType) → try_from (frame_byte t) ≡ ok t
unfolding try_from frame_byte
try_from-frame_byte automerge_sync = refl
try_from-frame_byte request = refl
try_from-frame_byte response = refl
try_from-frame_byte broadcast = refl

typed-typed_bytes : (f : TypedNotebookFrame) → typed (some (typed_bytes f)) ≡ ok (some f)
unfolding typed
typed-typed_bytes f = rw (typed, try_from-frame_byte f.frame_type) refl

-- Frames sent one after the other, as long as the stream takes them.
abbrev pub send_all : (w : Writer) → List TypedNotebookFrame → w.Sink → IoResult Unit × w.Sink
send_all w [] s = (ok tt, s)
send_all w (f ∷ fs) s =
    try_then (send_typed_frame w f.frame_type f.payload s) (λ _ s'. send_all w fs s')

abbrev pub push_received :
    TypedNotebookFrame → IoResult (List TypedNotebookFrame) → IoResult (List TypedNotebookFrame)
push_received f (ok fs) = ok (f ∷ fs)
push_received f (err e) = err e

abbrev pub and_loop :
    {S : Type 0}
    → IoResult (Option TypedNotebookFrame) × S
    → (S → IoResult (List TypedNotebookFrame))
    → IoResult (List TypedNotebookFrame)
and_loop (ok none, s) f = ok []
and_loop (ok (some frame), s) f = push_received frame (f s)
and_loop (err e, s) f = err e

-- A receiver's loop, for at most as many frames: it ends when the peer disconnects.
abbrev pub recv_loop : (r : Reader) → ℕ → r.Source → IoResult (List TypedNotebookFrame)
recv_loop r zero s = ok []
recv_loop r (suc n) s = and_loop (recv_typed_frame r s) (recv_loop r n)

abbrev pub wire : List TypedNotebookFrame → List ℕ
wire [] = []
wire (f ∷ fs) = frame_bytes (typed_bytes f) ++ wire fs

send_all-written :
    (w : Writer) (fs : List TypedNotebookFrame) (s : w.Sink)
    → (send_all w fs s).0 ≡ ok tt
    → w.written (send_all w fs s).1 ≡ w.written s ++ wire fs
unfolding send_typed_frame
send_all-written w [] s h = sym (append-nil (w.written s))
send_all-written w (f ∷ fs) s h =
    let x = send_typed_frame w f.frame_type f.payload s in
    let first = try_then-ok x (λ _ s'. send_all w fs s') tt h in
    let more = subst (λ y. y.0 ≡ ok tt) first.2 h in
    ap (λ y. w.written y.1) first.2
    ∙ send_all-written w fs x.1 more
    ∙ ap (λ l. l ++ wire fs) (send_frame-written w (typed_bytes f) s first.1)
    ∙ append_assoc (w.written s) (frame_bytes (typed_bytes f)) (wire fs)

module _ (r : Reader) where
  recv_sent :
      (f : TypedNotebookFrame) (rest : List ℕ) (s : r.Source)
      → length f.payload < max_frame_size
      → r.incoming s ≡ frame_bytes (typed_bytes f) ++ rest
      → ((recv_typed_frame r s).0 ≡ ok (some f))
        × (r.incoming (recv_typed_frame r s).1 ≡ rest)
        × (r.ends_with (recv_typed_frame r s).1 ≡ r.ends_with s)
  unfolding recv_typed_frame recv_frame
  recv_sent f rest s small coming =
      let got =
        received_whole r max_frame_size (typed_bytes f) rest s (omega arith) (omega (arith, small))
          coming in
      let e =
        try_then-of (recv_frame r s) (λ frame s'. (typed frame, s')) (some (typed_bytes f)) got.0 in
      (
        ap (λ x. x.0) e ∙ typed-typed_bytes f,
        ap (λ x. r.incoming x.1) e ∙ got.1,
        ap (λ x. r.ends_with x.1) e ∙ got.2,
      )

  and_loop-some :
      (x : IoResult (Option TypedNotebookFrame) × r.Source) (f : TypedNotebookFrame)
      (g : r.Source → IoResult (List TypedNotebookFrame))
      → x.0 ≡ ok (some f)
      → and_loop x g ≡ push_received f (g x.1)
  and_loop-some (ok none, s) f g h = ground arith
  and_loop-some (ok (some f'), s) f g h = cc
  and_loop-some (err e, s) f g h = ground arith

  and_loop-none :
      (x : IoResult (Option TypedNotebookFrame) × r.Source)
      (g : r.Source → IoResult (List TypedNotebookFrame))
      → x.0 ≡ ok none
      → and_loop x g ≡ ok []
  and_loop-none (ok none, s) g h = refl
  and_loop-none (ok (some f'), s) g h = ground arith
  and_loop-none (err e, s) g h = ground arith

  recv_loop-wire :
      (fs : List TypedNotebookFrame) (s : r.Source)
      → All (λ f. length f.payload < max_frame_size) fs
      → r.incoming s ≡ wire fs
      → r.ends_with s ≡ unexpected_eof
      → recv_loop r (suc (length fs)) s ≡ ok fs
  unfolding recv_typed_frame recv_frame typed
  recv_loop-wire [] s small coming closed =
      let cut = cut_header r max_frame_size s (rw coming (omega arith)) closed in
      and_loop-none (recv_typed_frame r s) _
        (ap (λ x. x.0) (try_then-of (recv_frame r s) (λ frame s'. (typed frame, s')) none cut))
  recv_loop-wire (f ∷ fs) s small coming closed =
      let got = recv_sent f (wire fs) s small.0 coming in
      let s' = (recv_typed_frame r s).1 in
      and_loop-some (recv_typed_frame r s) f (recv_loop r (suc (length fs))) got.0
      ∙ ap (push_received f) (recv_loop-wire fs s' small.1 got.1 (got.2 ∙ closed))

-- A conversation: if all sends of a list of typed frames succeed, then a receiver of the bytes that
-- were written, whose peer then closes, gets the same frames in the same order and ends without an
-- error, provided that no payload reaches the frame limit.
pub conversation_arrives :
    (w : Writer) (r : Reader) (fs : List TypedNotebookFrame) (sink : w.Sink)
    → All (λ f. length f.payload < max_frame_size) fs
    → (send_all w fs sink).0 ≡ ok tt
    → (sent : List ℕ) × (w.written (send_all w fs sink).1 ≡ w.written sink ++ sent)
      × ((s : r.Source)
          → r.incoming s ≡ sent
          → r.ends_with s ≡ unexpected_eof
          → recv_loop r (suc (length fs)) s ≡ ok fs)
conversation_arrives w r fs sink small h = (
  wire fs,
  send_all-written w fs sink h,
  λ s coming closed. recv_loop-wire r fs s small coming closed,
)

decoded-some :
    {T : Type 0} (codec : Codec T) (bytes : List ℕ) (v : T)
    → codec.from_slice bytes ≡ ok v
    → decoded codec (some bytes) ≡ ok (some v)
unfolding decoded
decoded-some codec bytes v h = rw (decoded, h) refl

-- A value whose encoding is longer than a control frame but within a data frame is sent without an
-- error, refused by `recv_control_frame`, and received by `recv_json_frame`, if decoding undoes
-- encoding for it.
json_frame_received :
    {T : Type 0} (codec : Codec T) (w : Writer) (r : Reader) (v : T) (bytes rest : List ℕ)
    (sink : w.Sink)
    → codec.to_vec v ≡ ok bytes
    → codec.from_slice bytes ≡ ok v
    → length bytes ≤ max_frame_size
    → (send_json_frame w codec v sink).0 ≡ ok tt
    → (w.written (send_json_frame w codec v sink).1 ≡ w.written sink ++ frame_bytes bytes)
      × ((s : r.Source)
          → r.incoming s ≡ frame_bytes bytes ++ rest
          → ((recv_json_frame r codec s).0 ≡ ok (some v))
            × (r.incoming (recv_json_frame r codec s).1 ≡ rest)
            × (max_control_frame_size < length bytes
                → (recv_control_frame r s).0
                  ≡ err (frame_too_large (length bytes) max_control_frame_size)))
unfolding send_json_frame recv_json_frame recv_control_frame recv_frame decoded
json_frame_received codec w r v bytes rest sink encoded inverse small h =
    let sends = try_then-of (codec.to_vec v, sink) (send_frame w) bytes encoded in
    let sent = subst (λ x. x.0 ≡ ok tt) sends h in
    (
      ap (λ x. w.written x.1) sends ∙ send_frame-written w bytes sink sent,
      λ s coming.
          let got = received_whole r max_frame_size bytes rest s (omega arith) small coming in
          let e =
            try_then-of (recv_frame r s) (λ frame s'. (decoded codec frame, s')) (some bytes)
              got.0 in
          (
            ap (λ x. x.0) e ∙ decoded-some codec bytes v inverse,
            ap (λ x. r.incoming x.1) e ∙ got.1,
            λ over.
                refused_by_length r max_control_frame_size bytes rest s over (omega (arith, small))
                  coming,
          ),
    )
