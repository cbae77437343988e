-- ===== src/Comm/Channels/Replay.antt =====
-- The order in which a new client is sent the open comms (comm_state.rs).
use runt.Prelude.{
  ℕ, String, ◌+◌, ◌≤◌, ◌<◌, ◌%◌, some, List, [], ◌∷◌, ◌++◌, ◌≡◌, refl, arith, string_eq, All, ap,
  ◌∙◌, length, Option-cases, inl, inr,
}
use runt.Prelude.Map.{Map, get, insert, remove}
use runt.Json.{Json}
use runt.Comm.Channels.{
  CommState, CommEntry, Op, opens, updates, closes, clears, step, run, u64_mod, entries,
  insert_by_seq, sort_by_seq, snapshots, get_all, opened, on_comm_open, on_comm_update,
  on_comm_close,
}

module _ (json : Json) where
  abbrev pub Below : ℕ → List (CommEntry json) → Type 0
  Below n = All (λ e. e.seq < n)

  -- Every comm's number is below the next one.
  abbrev pub IsNumbered : CommState json → Type 0
  IsNumbered s = Below s.next_seq (entries json s.comms)

  insert_by_seq-Below :
      (n : ℕ) (e : CommEntry json) (es : List (CommEntry json))
      → e.seq < n
      → Below n es
      → Below n (insert_by_seq json e es)
  unfolding insert_by_seq
  insert_by_seq-Below n e [] h b = (h, tt)
  insert_by_seq-Below n e (f ∷ fs) h b = ground (arith, insert_by_seq-Below n e fs h b.1)

  sort-Below : (n : ℕ) (es : List (CommEntry json)) → Below n es → Below n (sort_by_seq json es)
  unfolding sort_by_seq
  sort-Below n [] b = tt
  sort-Below n (e ∷ es) b = insert_by_seq-Below n e (sort_by_seq json es) b.0 (sort-Below n es b.1)

  insert_by_seq_last :
      (e : CommEntry json) (es : List (CommEntry json))
      → Below e.seq es
      → insert_by_seq json e es ≡ es ++ e ∷ []
  unfolding insert_by_seq
  insert_by_seq_last e [] b = refl
  insert_by_seq_last e (f ∷ fs) b = ground (arith, insert_by_seq_last e fs b.1)

  snapshots-append :
      (es fs : List (CommEntry json))
      → snapshots json (es ++ fs) ≡ snapshots json es ++ snapshots json fs
  snapshots-append [] fs = refl
  snapshots-append (e ∷ es) fs = ap (◌∷◌ e.snapshot) (snapshots-append es fs)

  remove-Below :
      (n : ℕ) (i : String) (m : Map String (CommEntry json))
      → Below n (entries json m)
      → Below n (entries json (remove i m))
  unfolding remove
  remove-Below n i [] b = tt
  remove-Below n i ((j, e) ∷ m) b = ground (arith, remove-Below n i m b.1)

  -- A comm that is opened, for the first time or again, is replayed after all other open comms, whose
  -- order it does not change.
  open_replays_last :
      (i t : String) (d : json.Value) (b : List (List ℕ)) (s : CommState json)
      → IsNumbered s
      → get_all json (on_comm_open json i t d b s)
        ≡ get_all json (on_comm_close json i s) ++ opened json i t d b ∷ []
  unfolding get_all on_comm_open on_comm_close insert
  open_replays_last i t d b s v =
      ap (snapshots json)
        (insert_by_seq_last _ _ (sort-Below s.next_seq _ (remove-Below s.next_seq i s.comms v)))
      ∙ snapshots-append (sort_by_seq json (entries json (remove i s.comms))) _

  weaker : (m n : ℕ) (es : List (CommEntry json)) → m ≤ n → Below m es → Below n es
  weaker m n [] h b = tt
  weaker m n (e ∷ es) h b = (omega arith, weaker m n es h b.1)

  found-Below :
      (n : ℕ) (i : String) (e : CommEntry json) (m : Map String (CommEntry json))
      → Below n (entries json m)
      → get i m ≡ some e
      → e.seq < n
  unfolding get
  found-Below n i e [] b h = cc
  found-Below n i e ((j, f) ∷ m) b h = ground (arith, found-Below n i e m b.1)

  update-IsNumbered :
      (i : String) (d : json.Value) (s : CommState json)
      → IsNumbered s
      → IsNumbered (on_comm_update json i d s)
  unfolding on_comm_update insert
  update-IsNumbered i d s v = elim (Option-cases (get i s.comms)) [
    | inl e ↦ rw (e, on_comm_update) v
    | inr (x, e) ↦
        rw (e, on_comm_update)
          (found-Below s.next_seq i x s.comms v e, remove-Below s.next_seq i s.comms v)
  ]

  step-IsNumbered :
      (o : Op json) (s : CommState json)
      → s.next_seq + 1 < u64_mod
      → IsNumbered s
      → (IsNumbered (step json o s)) × ((step json o s).next_seq ≤ s.next_seq + 1)
  unfolding step insert
  step-IsNumbered (opens i t d b) s fits v =
      let e : (s.next_seq + 1) % u64_mod ≡ s.next_seq + 1 = omega arith in
      (
        rw e (
          omega arith,
          weaker s.next_seq _ _ (omega arith) (remove-Below s.next_seq i s.comms v),
        ),
        rw e (omega arith),
      )
  step-IsNumbered (updates i d) s fits v = (update-IsNumbered i d s v, omega arith)
  step-IsNumbered (closes i) s fits v = (remove-Below s.next_seq i s.comms v, omega arith)
  step-IsNumbered clears s fits v = (tt, omega arith)

  -- The counter is a u64: while fewer than 2 ^ 64 messages have come, every open comm has a number
  -- below the next one.
  run-IsNumbered :
      (os : List (Op json)) (s : CommState json)
      → s.next_seq + length os < u64_mod
      → IsNumbered s
      → IsNumbered (run json os s)
  unfolding run
  run-IsNumbered [] s fits v = v
  run-IsNumbered (o ∷ os) s fits v =
      let h = step-IsNumbered o s (omega arith) v in
      run-IsNumbered os (step json o s) (omega (arith, h.1)) h.0
