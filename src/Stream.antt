-- ===== src/Stream.antt =====
-- Byte streams (tokio's `AsyncRead` and `AsyncWrite`), which the daemon does not implement: what the
-- program calls, with the documented behaviour as laws. A byte is a number.
pub mod Memory
use runt.Prelude.{refl, arith, ℕ, String, List, ◌++◌, ◌≡◌, ◌≤◌, ◌<◌, length, take, drop}

-- The kinds of `std::io::Error` that the code tells apart or makes.
pub data IoError : Type 0 where
  unexpected_eof : IoError
  frame_too_large : ℕ → ℕ → IoError
  empty_frame : IoError
  unknown_frame_type : ℕ → IoError
  invalid_json : IoError
  other : String → IoError

pub data IoResult (A : Type 0) : Type 0 where
  ok : A → IoResult A
  err : IoError → IoResult A

-- The operator `?`, with the state of the stream.
abbrev pub try_then : {A B S : Type 0} → IoResult A × S → (A → S → IoResult B × S) → IoResult B × S
try_then (ok a, s) f = f a s
try_then (err e, s) f = (err e, s)

-- A chain that succeeds has a first step that does.
pub try_then-ok :
    {A B S : Type 0} (x : IoResult A × S) (f : A → S → IoResult B × S) (b : B)
    → (try_then x f).0 ≡ ok b
    → (a : A) × (x.0 ≡ ok a) × (try_then x f ≡ f a x.1)
try_then-ok (ok a, s) f b h = (a, refl, refl)
try_then-ok (err e, s) f b h = ground arith

pub try_then-of :
    {A B S : Type 0} (x : IoResult A × S) (f : A → S → IoResult B × S) (a : A)
    → x.0 ≡ ok a
    → try_then x f ≡ f a x.1
try_then-of (ok a', s) f a h = cc
try_then-of (err e, s) f a h = ground arith

pub record Reader : Type 1 where
  pub Source : Type 0
  pub read_exact : ℕ → Source → IoResult (List ℕ) × Source
  -- The bytes that still come, and what a read beyond them gives.
  pub incoming : Source → List ℕ
  pub ends_with : Source → IoError
  pub read_exact_enough :
      (n : ℕ) (s : Source)
      → n ≤ length (incoming s)
      → ((read_exact n s).0 ≡ ok (take n (incoming s)))
        × (incoming (read_exact n s).1 ≡ drop n (incoming s))
        × (ends_with (read_exact n s).1 ≡ ends_with s)
  pub read_exact_short :
      (n : ℕ) (s : Source) → length (incoming s) < n → (read_exact n s).0 ≡ err (ends_with s)

pub record Writer : Type 1 where
  pub Sink : Type 0
  pub write_all : List ℕ → Sink → IoResult Unit × Sink
  pub flush : Sink → IoResult Unit × Sink
  pub written : Sink → List ℕ
  pub write_all_written :
      (bytes : List ℕ) (s : Sink)
      → (write_all bytes s).0 ≡ ok tt
      → written (write_all bytes s).1 ≡ written s ++ bytes
  pub flush_written : (s : Sink) → written (flush s).1 ≡ written s
