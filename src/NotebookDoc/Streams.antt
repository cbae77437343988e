-- ===== src/NotebookDoc/Streams.antt =====
-- `upsert_stream_output`: the output of a stream is updated while it is the last one and as it was
-- written, or else a new one is appended.
use runt.Prelude.{
  ℕ, zero, suc, ◌+◌, ◌<◌, String, Bool, true, false, Option, none, some, List, [], ◌∷◌, ◌++◌, ◌&&◌,
  ◌==◌, nat_eq, string_eq, if◌then◌else◌, length, get_elem?, ◌≡◌, inl, inr, refl, ap, sym, ◌∙◌,
  subst, arith, Bool-cases,
}
use runt.Prelude.Positions.{change_at}
use runt.Prelude.Structures.{option_eq}
use runt.NotebookDoc.{as_string, read_str_at}
use runt.Automerge.{in_list, Automerge, Result, done, list_node, then_, then-of, length_of}
use runt.NotebookDoc.{
  CellSnapshot, StreamOutputState, or_none, cell_object, list_id, upsert_stream_output,
  is_valid_state, state_index,
}
use runt.NotebookDoc.View.{Held, snapshots, strings, IsCell, Holds, list_id-IsCell}
use runt.NotebookDoc.Located.{Changes, change_one}
use runt.NotebookDoc.Edits.{opened, outputs_written, append_law}
use runt.NotebookDoc.Outputs.{put_at_law}
use runt.NotebookDoc.Objects.{length_of-outputs}

-- Whether a stream's last output stands at the end of the outputs.
abbrev pub is_last : Option StreamOutputState → List String → Bool
is_last none outputs = false
is_last (some state) outputs =
    state.index + 1 == length outputs && get_elem? outputs state.index == some state.manifest_hash

abbrev pub upserted : Option StreamOutputState → String → CellSnapshot → CellSnapshot
upserted state output c = record c {
  outputs =
      if is_last state c.outputs
      then change_at (λ _. output) (state_index state) c.outputs
      else c.outputs ++ output ∷ [];
}

abbrev pub upsert_result : Option StreamOutputState → CellSnapshot → Bool × ℕ
upsert_result state c =
    if is_last state c.outputs then (true, state_index state) else (false, length c.outputs)

module _ (am : Automerge) where
  open am use {Doc, ObjId, node}

  or_none-none :
      (o : Option ObjId) (d : Doc) (f : ObjId → Result (Bool × ℕ) × Doc)
      → o ≡ none
      → or_none am o d f ≡ (done (false, 0), d)
  or_none-none o d f h = ap (λ o. or_none am o d f) h

  or_none-some :
      (o : Option ObjId) (d : Doc) (f : ObjId → Result (Bool × ℕ) × Doc) (a : ObjId)
      → o ≡ some a
      → or_none am o d f ≡ f a
  or_none-some o d f a h = ap (λ o. or_none am o d f) h

  string_at :
      (k : ℕ) (ss : List String) → as_string am (get_elem? (strings am ss) k) ≡ get_elem? ss k
  string_at k [] = refl
  string_at zero (s ∷ ss) = refl
  string_at (suc k) (s ∷ ss) = string_at k ss

  is_valid-is_last :
      (d : Doc) (o : ObjId) (outputs : List String) (state : Option StreamOutputState)
      → node d o ≡ some (list_node (strings am outputs))
      → is_valid_state am d o state ≡ is_last state outputs
  unfolding read_str_at
  is_valid-is_last d o outputs none h = refl
  is_valid-is_last d o outputs (some state) h =
      ap (λ n. state.index + 1 == n && read_str_at am d o state.index == some state.manifest_hash)
        (length_of-outputs am d o outputs h)
      ∙ ap (λ s. state.index + 1 == length outputs && s == some state.manifest_hash)
          (ap (λ n. as_string am (in_list am state.index n)) h ∙ string_at state.index outputs)

  last_bound :
      (state : Option StreamOutputState) (outputs : List String)
      → is_last state outputs ≡ true
      → state_index state < length outputs
  last_bound none outputs h = ground (arith, h)
  last_bound (some state) outputs h = ground (arith, h)

  -- A stream's output replaces the one it wrote if that is still the last and as it was written, and is
  -- appended otherwise; the result says which, and where it stands.
  pub upsert_stream_output-Changes :
      (d : Doc) (ps : List (Held am)) (id output : String) (state : Option StreamOutputState)
      → Holds am d ps
      → Changes am
          (upsert_stream_output am id output state d)
          (false, 0)
          (upsert_result state)
          (upserted state output)
          id
          (snapshots am ps)
  unfolding upsert_stream_output
  upsert_stream_output-Changes d ps id output state h =
      let choose : Bool → ℕ → ObjId → Result (Bool × ℕ) × Doc = λ b n l.
        if b
        then then_ (am.put_at l (state_index state) output d)
            (λ _ d. (done (true, state_index state), d))
        else then_ (am.insert l n output d) (λ _ d. (done (false, n), d)) in
      let inner : ObjId → Result (Bool × ℕ) × Doc =
        λ l. choose (is_valid_state am d l state) (length_of am d l) l in
      let body : ObjId → Result (Bool × ℕ) × Doc =
        λ o. or_none am (list_id am d o "outputs") d inner in
      change_one am d ps h id (upsert_stream_output am id output state d) (false, 0)
        (upsert_result state) (upserted state output) (or_none-none (cell_object am d id) d body)
        (λ i c cell apart found.
          let n = length c.outputs in
          let k = state_index state in
          let e =
            or_none-some (cell_object am d id) d body i.obj found
            ∙ or_none-some (list_id am d i.obj "outputs") d inner i.outputs
                (list_id-IsCell am d i c cell)
            ∙ ap (λ b. choose b (length_of am d i.outputs) i.outputs)
                (is_valid-is_last d i.outputs c.outputs state cell.node_outputs)
            ∙ ap (λ n. choose (is_last state c.outputs) n i.outputs)
                (length_of-outputs am d i.outputs c.outputs cell.node_outputs) in
          elim (Bool-cases (is_last state c.outputs)) [
            | inl last ↦
                let call = am.put_at i.outputs k output d in
                let law =
                  put_at_law am d i.outputs c.outputs k output cell.node_outputs
                    (last_bound state c.outputs last) in
                let (keeps, cell') =
                  outputs_written am d (call.1) i c _ (change_at (λ _. output) k c.outputs) apart
                    cell (law.1) refl in
                opened am d i c (upsert_stream_output am id output state d) (call.1)
                  (upsert_result state c) (upserted state output)
                  (e
                    ∙ ap (λ b. choose b n i.outputs) last
                    ∙ then-of call (λ _ d. (done (true, k), d)) tt (law.0)
                    ∙ ap (λ b. (done (if b then (true, k) else (false, n)), call.1)) (sym last))
                  keeps
                  (subst
                    (λ b. IsCell am (call.1) i (record c {
                      outputs =
                          if b
                          then change_at (λ _. output) k c.outputs
                          else c.outputs ++ output ∷ [];
                    }))
                    (sym last) cell')
            | inr other ↦
                let call = am.insert i.outputs n output d in
                let law = append_law am d i.outputs c.outputs n output cell.node_outputs refl in
                let (keeps, cell') =
                  outputs_written am d (call.1) i c _ (c.outputs ++ output ∷ []) apart cell (law.1)
                    refl in
                opened am d i c (upsert_stream_output am id output state d) (call.1)
                  (upsert_result state c) (upserted state output)
                  (e
                    ∙ ap (λ b. choose b n i.outputs) other
                    ∙ then-of call (λ _ d. (done (false, n), d)) tt (law.0)
                    ∙ ap (λ b. (done (if b then (true, k) else (false, n)), call.1)) (sym other))
                  keeps
                  (subst
                    (λ b. IsCell am (call.1) i (record c {
                      outputs =
                          if b
                          then change_at (λ _. output) k c.outputs
                          else c.outputs ++ output ∷ [];
                    }))
                    (sym other) cell')
          ])
