-- ===== src/Connection.antt =====
-- crates/runtimed/src/connection.rs: frames on a byte stream. Every function runs on the state of the
-- stream and returns it.
pub mod Frames
pub mod Typed
mod Tests
use runt.Prelude.{
  ℕ, zero, suc, String, ◌+◌, ◌*◌, ◌/◌, ◌%◌, ◌^◌, Bool, Option, none, some, List, [], ◌∷◌, ltb,
  if◌then◌else◌, length,
}
use runt.Stream.{
  IoError, unexpected_eof, frame_too_large, empty_frame, unknown_frame_type, IoResult, ok, err,
  try_then, Reader, Writer,
}

abbrev pub max_frame_size : ℕ
max_frame_size = 100 * 1024 * 1024

abbrev pub max_control_frame_size : ℕ
max_control_frame_size = 64 * 1024

abbrev pub u32_mod : ℕ
u32_mod = 2 ^ 32

-- `u32::to_be_bytes` and `u32::from_be_bytes`.
unfoldable pub to_be_bytes : ℕ → List ℕ
to_be_bytes n = n / 16_777_216 % 256 ∷ n / 65_536 % 256 ∷ n / 256 % 256 ∷ n % 256 ∷ []

unfoldable pub from_be_bytes : ℕ → List ℕ → ℕ
from_be_bytes acc [] = acc
from_be_bytes acc (b ∷ bs) = from_be_bytes (acc * 256 + b) bs

pub data NotebookFrameType : Type 0 where
  automerge_sync request response broadcast : NotebookFrameType

unfoldable pub frame_byte : NotebookFrameType → ℕ
frame_byte automerge_sync = 0
frame_byte request = 1
frame_byte response = 2
frame_byte broadcast = 3

unfoldable pub try_from : ℕ → IoResult NotebookFrameType
try_from zero = ok automerge_sync
try_from (suc zero) = ok request
try_from (suc (suc zero)) = ok response
try_from (suc (suc (suc zero))) = ok broadcast
try_from (suc (suc (suc (suc n)))) = err (unknown_frame_type (n + 4))

pub record TypedNotebookFrame : Type 0 where
  pub frame_type : NotebookFrameType
  pub payload : List ℕ

unfoldable pub typed : Option (List ℕ) → IoResult (Option TypedNotebookFrame)
unfolding try_from
typed none = ok none
typed (some []) = err empty_frame
typed (some (b ∷ payload)) = elim (try_from b) [
  | ok frame_type ↦ ok (some (record { frame_type = frame_type; payload = payload }))
  | err e ↦ err e
]

-- `serde_json::to_vec` and `serde_json::from_slice` at one type.
pub record Codec (T : Type 0) : Type 0 where
  pub to_vec : T → IoResult (List ℕ)
  pub from_slice : List ℕ → IoResult T

unfoldable pub decoded : {T : Type 0} → Codec T → Option (List ℕ) → IoResult (Option T)
decoded codec none = ok none
decoded codec (some data') = elim (codec.from_slice data') [ ok v ↦ ok (some v) | err e ↦ err e ]

module _ (w : Writer) where
  open w use {Sink}

  unfoldable pub send_frame : List ℕ → Sink → IoResult Unit × Sink
  unfolding to_be_bytes
  send_frame data' s =
      try_then (w.write_all (to_be_bytes (length data' % u32_mod)) s)
        (λ _ s₁. try_then (w.write_all data' s₁) (λ _ s₂. w.flush s₂))

  unfoldable pub send_typed_frame : NotebookFrameType → List ℕ → Sink → IoResult Unit × Sink
  unfolding send_frame frame_byte
  send_typed_frame frame_type payload s = send_frame (frame_byte frame_type ∷ payload) s

  module _ {T : Type 0} (codec : Codec T) where
    unfoldable pub send_json_frame : T → Sink → IoResult Unit × Sink
    unfolding send_frame
    send_json_frame value s = try_then (codec.to_vec value, s) send_frame

    unfoldable pub send_typed_json_frame : NotebookFrameType → T → Sink → IoResult Unit × Sink
    unfolding send_typed_frame
    send_typed_json_frame frame_type value s =
        try_then (codec.to_vec value, s) (send_typed_frame frame_type)

module _ (r : Reader) where
  open r use {Source}

  -- The payload, once the length is read.
  unfoldable pub recv_payload : ℕ → ℕ → Source → IoResult (Option (List ℕ)) × Source
  recv_payload max_size len s =
      if ltb max_size len
      then (err (frame_too_large len max_size), s)
      else try_then (r.read_exact len s) (λ buf s'. (ok (some buf), s'))

  unfoldable pub after_length : ℕ → IoResult (List ℕ) × Source → IoResult (Option (List ℕ)) × Source
  unfolding recv_payload from_be_bytes
  after_length max_size (ok len_buf, s) = recv_payload max_size (from_be_bytes 0 len_buf) s
  after_length max_size (err unexpected_eof, s) = (ok none, s)
  after_length max_size (err e, s) = (err e, s)

  unfoldable pub recv_frame_with_limit : ℕ → Source → IoResult (Option (List ℕ)) × Source
  unfolding after_length
  recv_frame_with_limit max_size s = after_length max_size (r.read_exact 4 s)

  unfoldable pub recv_frame : Source → IoResult (Option (List ℕ)) × Source
  unfolding recv_frame_with_limit
  recv_frame s = recv_frame_with_limit max_frame_size s

  unfoldable pub recv_control_frame : Source → IoResult (Option (List ℕ)) × Source
  unfolding recv_frame_with_limit
  recv_control_frame s = recv_frame_with_limit max_control_frame_size s

  unfoldable pub recv_typed_frame : Source → IoResult (Option TypedNotebookFrame) × Source
  unfolding recv_frame typed
  recv_typed_frame s = try_then (recv_frame s) (λ frame s'. (typed frame, s'))

  module _ {T : Type 0} (codec : Codec T) where
    unfoldable pub recv_json_frame : Source → IoResult (Option T) × Source
    unfolding recv_frame decoded
    recv_json_frame s = try_then (recv_frame s) (λ frame s'. (decoded codec frame, s'))
