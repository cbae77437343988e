-- ===== src/NotebookDoc/Edits.antt =====
-- The operations on one cell: each does to the cells that a document holds what its name says.
use runt.Prelude.{
  ℕ, ◌≤◌, String, Bool, true, false, Option, none, some, List, [], ◌∷◌, ◌++◌, nat_eq, string_eq,
  length, ◌≡◌, inl, refl, ap, sym, ◌∙◌, subst, arith,
}
use runt.Prelude.Distinct.{Distinct}
use runt.Prelude.Positions.{insert_at}
use runt.Prelude.Map.{Map, get-insert, get-remove}
use runt.Prelude.Map
use runt.Automerge.{
  Automerge, Result, done, map_node, list_node, text_node, Value, str, then-of, length_of,
}
use runt.NotebookDoc.{
  CellSnapshot, or_false, then_true, cell_object, text_id, list_id, update_source, append_output,
  set_execution_count,
}
use runt.NotebookDoc.View.{
  CellIds, Held, owned, snapshots, strings, IsCell, Holds, text_id-IsCell, list_id-IsCell,
}
use runt.NotebookDoc.Change.{Keeps}
use runt.NotebookDoc.Located.{Changes, Local, change_one}
use runt.NotebookDoc.Objects.{
  Writes, Writes-Keeps, Distinct-AreApart, IsCell-source, IsCell-outputs, IsCell-execution_count,
  length_of-outputs, length-strings, insert_at-strings,
}

abbrev pub with_source : String → CellSnapshot → CellSnapshot
with_source s c = record c { source = s }

abbrev pub with_outputs_of : List String → CellSnapshot → CellSnapshot
with_outputs_of outputs c = record c { outputs = outputs }

abbrev pub with_count : String → CellSnapshot → CellSnapshot
with_count count c = record c { execution_count = count }

abbrev pub found_it : CellSnapshot → Bool
found_it c = true

module _ (am : Automerge) where
  open am use {Doc, ObjId, node}

  pub then_true-of : (x : Result Unit × Doc) → x.0 ≡ done tt → then_true am x ≡ (done true, x.1)
  then_true-of x h = then-of x (λ _ d. (done true, d)) tt h

  -- An operation that computes to a document.
  pub opened :
      {R : Type 0} (d : Doc) (i : CellIds ObjId) (c : CellSnapshot) (r : Result R × Doc) (d' : Doc)
      (result : R) (f : CellSnapshot → CellSnapshot)
      → r ≡ (done result, d')
      → Keeps am d d' i
      → IsCell am d' i (f c)
      → Local am d i c r result f
  opened d i c r d' result f e keeps cell =
      let to = sym (ap (λ x. x.1) e) in
      record {
        outputs = i.outputs;
        result_is = ap (λ x. x.0) e;
        keeps = subst (λ x. Keeps am d x i) to keeps;
        is_new = inl refl;
        is_cell = subst (λ x. IsCell am x i (f c)) to cell;
      }

  pub or_false-none :
      (o : Option ObjId) (d : Doc) (f : ObjId → Result Bool × Doc)
      → o ≡ none
      → or_false am o d f ≡ (done false, d)
  or_false-none o d f h = ap (λ o. or_false am o d f) h

  pub or_false-some :
      (o : Option ObjId) (d : Doc) (f : ObjId → Result Bool × Doc) (a : ObjId)
      → o ≡ some a
      → or_false am o d f ≡ f a
  or_false-some o d f a h = ap (λ o. or_false am o d f) h

  -- The source of the cell that is found is the new one, and the result says whether there is one.
  pub update_source-Changes :
      (d : Doc) (ps : List (Held am)) (id s : String)
      → Holds am d ps
      → Changes am (update_source am id s d) false found_it (with_source s) id (snapshots am ps)
  unfolding update_source
  update_source-Changes d ps id s h =
      let inner : ObjId → Result Bool × Doc = λ t. then_true am (am.update_text t s d) in
      let body : ObjId → Result Bool × Doc = λ o. or_false am (text_id am d o "source") d inner in
      change_one am d ps h id (update_source am id s d) false found_it (with_source s)
        (or_false-none (cell_object am d id) d body)
        (λ i c cell apart found.
          let a = Distinct-AreApart am i apart in
          let law = am.node-update_text i.source s d c.source cell.node_source in
          let d' = (am.update_text i.source s d).1 in
          let e =
            or_false-some (cell_object am d id) d body i.obj found
            ∙ or_false-some (text_id am d i.obj "source") d inner i.source
                (text_id-IsCell am d i c cell)
            ∙ then_true-of (am.update_text i.source s d) (law.0) in
          opened d i c (update_source am id s d) d' true (with_source s) e
            (Writes-Keeps am d d' i i.source (text_node s) (law.1) a.owns_source)
            (IsCell-source am d d' i c s a cell (law.1)))

  -- The execution count of the cell that is found is the new one.
  pub set_execution_count-Changes :
      (d : Doc) (ps : List (Held am)) (id count : String)
      → Holds am d ps
      → Changes am
          (set_execution_count am id count d)
          false
          found_it
          (with_count count)
          id
          (snapshots am ps)
  unfolding set_execution_count
  set_execution_count-Changes d ps id count h =
      let body : ObjId → Result Bool × Doc =
        λ o. then_true am (am.put o "execution_count" count d) in
      change_one am d ps h id (set_execution_count am id count d) false found_it (with_count count)
        (or_false-none (cell_object am d id) d body)
        (λ i c cell apart found.
          let a = Distinct-AreApart am i apart in
          let law = am.node-put i.obj "execution_count" count d cell.fields cell.node_obj in
          let call = am.put i.obj "execution_count" count d in
          let fields = map_node (Map.insert "execution_count" (str count) cell.fields) in
          let e =
            or_false-some (cell_object am d id) d body i.obj found ∙ then_true-of call (law.0) in
          opened d i c (set_execution_count am id count d) (call.1) true (with_count count) e
            (Writes-Keeps am d (call.1) i i.obj fields (law.1) a.owns_obj)
            (IsCell-execution_count am d (call.1) i c count a cell (law.1)))

  -- A write of the list of outputs.
  pub outputs_written :
      (d d' : Doc) (i : CellIds ObjId) (c : CellSnapshot) (vs : List (Value ObjId))
      (outputs : List String)
      → Distinct ⦃e = am.ids⦄ (owned am i)
      → IsCell am d i c
      → Writes am d d' i.outputs (list_node vs)
      → vs ≡ strings am outputs
      → Keeps am d d' i × IsCell am d' i (record c { outputs = outputs })
  outputs_written d d' i c vs outputs apart cell w e =
      let a = Distinct-AreApart am i apart in
      let w' = subst (λ vs. Writes am d d' i.outputs (list_node vs)) e w in
      (
        Writes-Keeps am d d' i i.outputs (list_node (strings am outputs)) w' a.owns_outputs,
        IsCell-outputs am d d' i c outputs a cell w',
      )

  -- The insertion of an output at the end of a list of them.
  pub append_law :
      (d : Doc) (o : ObjId) (outputs : List String) (k : ℕ) (output : String)
      → node d o ≡ some (list_node (strings am outputs))
      → k ≡ length outputs
      → ((am.insert o k output d).0 ≡ done tt)
        × Writes am d (am.insert o k output d).1 o (list_node (strings am (outputs ++ output ∷ [])))
  append_law d o outputs k output h e =
      let bound : k ≤ length (strings am outputs) = omega (arith, e, length-strings am outputs) in
      let law = am.node-insert o k output d (strings am outputs) h bound in
      let at_end =
        ap (λ k. insert_at k (str output) (strings am outputs)) e
        ∙ insert_at-strings am outputs output in
      (law.0, subst (λ vs. Writes am d (am.insert o k output d).1 o (list_node vs)) at_end (law.1))

  abbrev pub with_appended : String → CellSnapshot → CellSnapshot
  with_appended output c = record c { outputs = c.outputs ++ output ∷ [] }

  -- The outputs of the cell that is found have the new one at the end.
  pub append_output-Changes :
      (d : Doc) (ps : List (Held am)) (id output : String)
      → Holds am d ps
      → Changes am
          (append_output am id output d)
          false
          found_it
          (with_appended output)
          id
          (snapshots am ps)
  unfolding append_output
  append_output-Changes d ps id output h =
      let inner : ObjId → Result Bool × Doc =
        λ l. then_true am (am.insert l (length_of am d l) output d) in
      let body : ObjId → Result Bool × Doc = λ o. or_false am (list_id am d o "outputs") d inner in
      change_one am d ps h id (append_output am id output d) false found_it (with_appended output)
        (or_false-none (cell_object am d id) d body)
        (λ i c cell apart found.
          let count = length_of am d i.outputs in
          let call = am.insert i.outputs count output d in
          let law =
            append_law d i.outputs c.outputs count output cell.node_outputs
              (length_of-outputs am d i.outputs c.outputs cell.node_outputs) in
          let e =
            or_false-some (cell_object am d id) d body i.obj found
            ∙ or_false-some (list_id am d i.obj "outputs") d inner i.outputs
                (list_id-IsCell am d i c cell)
            ∙ then_true-of call (law.0) in
          let (keeps, cell') =
            outputs_written d (call.1) i c _ (c.outputs ++ output ∷ []) apart cell (law.1) refl in
          opened d i c (append_output am id output d) (call.1) true (with_appended output) e keeps
            cell')
