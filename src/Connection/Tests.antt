-- ===== src/Connection/Tests.antt =====
-- The theorems on frames at concrete bytes, over streams in memory.
use runt.Prelude.{ℕ, ◌≤◌, ◌<◌, some, List, [], ◌∷◌, ◌≡◌, ◌⊎◌, refl, arith}
use runt.Stream.{unexpected_eof, frame_too_large, ok, err}
use runt.Stream.Memory.{cursor, buffer}
use runt.Connection.{
  to_be_bytes, from_be_bytes, request, broadcast, TypedNotebookFrame, Codec, send_json_frame,
  send_typed_frame, send_frame, recv_frame_with_limit, after_length, recv_payload, frame_byte,
}
use runt.Connection.Frames.{recv_frame_with_limit-cases}
use runt.Connection.Typed.{send_all, recv_loop, conversation_arrives}

received_frame :
    (recv_frame_with_limit cursor 10 (0 ∷ 0 ∷ 0 ∷ 2 ∷ 7 ∷ 8 ∷ 9 ∷ [])).0 ≡ ok (some (7 ∷ 8 ∷ []))
unfolding recv_frame_with_limit after_length recv_payload from_be_bytes
received_frame = refl

recv_frame_with_limit-cases_example :
    ((2 ≤ 10)
      × ((recv_frame_with_limit cursor 10 (0 ∷ 0 ∷ 0 ∷ 2 ∷ 7 ∷ 8 ∷ 9 ∷ [])).0
          ≡ ok (some (7 ∷ 8 ∷ [])))
      × ((recv_frame_with_limit cursor 10 (0 ∷ 0 ∷ 0 ∷ 2 ∷ 7 ∷ 8 ∷ 9 ∷ [])).1 ≡ 9 ∷ [])
      × (unexpected_eof ≡ unexpected_eof))
    ⊎ ((10 < 2)
        × ((recv_frame_with_limit cursor 10 (0 ∷ 0 ∷ 0 ∷ 2 ∷ 7 ∷ 8 ∷ 9 ∷ [])).0
            ≡ err (frame_too_large 2 10))
        × ((recv_frame_with_limit cursor 10 (0 ∷ 0 ∷ 0 ∷ 2 ∷ 7 ∷ 8 ∷ 9 ∷ [])).1 ≡ 7 ∷ 8 ∷ 9 ∷ []))
unfolding to_be_bytes
recv_frame_with_limit-cases_example =
    recv_frame_with_limit-cases cursor 10 (7 ∷ 8 ∷ []) (9 ∷ []) (0 ∷ 0 ∷ 0 ∷ 2 ∷ 7 ∷ 8 ∷ 9 ∷ [])
      refl

abbrev two_frames : List TypedNotebookFrame
two_frames =
    record { frame_type = request; payload = 5 ∷ 6 ∷ [] }
    ∷ record { frame_type = broadcast; payload = [] }
    ∷ []

two_sent : (send_all (buffer 100) two_frames []).0 ≡ ok tt
unfolding send_typed_frame send_frame frame_byte to_be_bytes
two_sent = refl

conversation_arrives_example :
    (sent : List ℕ) × ((buffer 100).written (send_all (buffer 100) two_frames []).1 ≡ sent)
    × ((s : List ℕ)
        → s ≡ sent
        → unexpected_eof ≡ unexpected_eof
        → recv_loop cursor 3 s ≡ ok two_frames)
conversation_arrives_example =
    conversation_arrives (buffer 100) cursor two_frames [] (omega arith, (omega arith, tt)) two_sent

-- A type whose encoding is the bytes themselves.
abbrev raw : Codec (List ℕ)
raw = record { to_vec = ok; from_slice = ok }

raw_sent : (send_json_frame (buffer 100) raw (1 ∷ 2 ∷ []) []).0 ≡ ok tt
unfolding send_json_frame send_frame to_be_bytes
raw_sent = refl
