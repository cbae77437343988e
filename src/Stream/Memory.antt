-- ===== src/Stream/Memory.antt =====
-- Streams in memory: a cursor on bytes, and a buffer that may break when it is full.
use runt.Prelude.{
  ℕ, ◌+◌, ◌≤◌, ◌<◌, List, [], ◌++◌, ◌≡◌, refl, arith, leb, if◌then◌else◌, length, take, drop,
}
use runt.Stream.{unexpected_eof, other, IoResult, ok, err, Reader, Writer}

abbrev read_cursor : ℕ → List ℕ → IoResult (List ℕ) × List ℕ
read_cursor n bytes =
    if leb n (length bytes) then (ok (take n bytes), drop n bytes) else (err unexpected_eof, [])

pub read_enough :
    (n : ℕ) (bytes : List ℕ)
    → n ≤ length bytes
    → ((read_cursor n bytes).0 ≡ ok (take n bytes))
      × ((read_cursor n bytes).1 ≡ drop n bytes)
      × (unexpected_eof ≡ unexpected_eof)
read_enough n bytes h = ground arith

pub read_short :
    (n : ℕ) (bytes : List ℕ) → length bytes < n → (read_cursor n bytes).0 ≡ err unexpected_eof
read_short n bytes h = ground arith

-- `Cursor`, whose peer has closed.
abbrev pub cursor : Reader
cursor = record {
  Source = List ℕ;
  read_exact = read_cursor;
  incoming = λ bytes. bytes;
  ends_with = λ bytes. unexpected_eof;
  read_exact_enough = read_enough;
  read_exact_short = read_short;
}

abbrev write_buffer : ℕ → List ℕ → List ℕ → IoResult Unit × List ℕ
write_buffer room bytes kept =
    if leb (length kept + length bytes) room
    then (ok tt, kept ++ bytes)
    else (err (other "broken pipe"), kept)

pub write_all_appends :
    (room : ℕ) (bytes kept : List ℕ)
    → (write_buffer room bytes kept).0 ≡ ok tt
    → (write_buffer room bytes kept).1 ≡ kept ++ bytes
write_all_appends room bytes kept h = ground arith

abbrev pub buffer : ℕ → Writer
buffer room = record {
  Sink = List ℕ;
  write_all = write_buffer room;
  flush = λ kept. (ok tt, kept);
  written = λ kept. kept;
  write_all_written = write_all_appends room;
  flush_written = λ kept. refl;
}
