-- ===== src/NotebookDoc/Refinement.antt =====
-- Every run of operations on a new document: the cells that are read at its end are those of the same
-- run on a list of cells.
use runt.Prelude.{
  ℕ, min, String, Option, some, List, [], ◌∷◌, ◌++◌, string_eq, is_some, length, contains, ◌≡◌,
  refl, ap, sym, ◌∙◌, subst, arith, beq_refl,
}
use runt.Prelude.Positions.{change_first, remove_first, insert_at, change_at}
use runt.Prelude.Map.{get-insert}
use runt.Automerge.{Automerge, Result, done, failed, object, map_type, list_type, map_node}
use runt.NotebookDoc.{
  CellSnapshot, StreamOutputState, new, if_done, get_cells, add_cell, delete_cell, update_source,
  set_outputs, clear_outputs, append_output, upsert_stream_output, replace_output,
  set_execution_count,
}
use runt.NotebookDoc.View.{Held, snapshots, Holds, get_cells-Holds}
use runt.NotebookDoc.Located.{named, Changes}
use runt.NotebookDoc.Objects.{same_sym}
use runt.NotebookDoc.Edits.{
  with_source, with_outputs_of, with_count, update_source-Changes, set_execution_count-Changes,
  append_output-Changes,
}
use runt.NotebookDoc.Outputs.{replace_output-Changes}
use runt.NotebookDoc.Streams.{upserted, upsert_stream_output-Changes}
use runt.NotebookDoc.Replaced.{there_apart, set_outputs-Changes}
use runt.NotebookDoc.Deleted.{delete_cell-Removes}
use runt.NotebookDoc.Display.{change_display, update_output, update_output-Displays}
use runt.NotebookDoc.Added.{add_cell-Inserts, put_step, put_object_step}

-- The operations that change cells.
pub data Operation : Type 0 where
  add : ℕ → String → String → Operation
  delete : String → Operation
  source : String → String → Operation
  count : String → String → Operation
  outputs : String → List String → Operation
  clear : String → Operation
  append : String → String → Operation
  upsert : String → String → Option StreamOutputState → Operation
  replace : String → ℕ → String → Operation
  display : (String → Option String) → Operation

-- An operation on a list of cells.
abbrev pub on_cells : Operation → List CellSnapshot → List CellSnapshot
on_cells (add index id cell_type) cs =
    insert_at (min index (length cs))
      (record {
        id = id;
        cell_type = cell_type;
        source = "";
        execution_count = "null";
        outputs = [];
      })
      cs
on_cells (delete id) cs = remove_first (named id) cs
on_cells (source id s) cs = change_first (named id) (with_source s) cs
on_cells (count id n) cs = change_first (named id) (with_count n) cs
on_cells (outputs id os) cs = change_first (named id) (with_outputs_of os) cs
on_cells (clear id) cs = change_first (named id) (with_outputs_of []) cs
on_cells (append id o) cs = change_first (named id) with_one cs
  where
    with_one : CellSnapshot → CellSnapshot
    with_one c = record c { outputs = c.outputs ++ o ∷ [] }
on_cells (upsert id o state) cs = change_first (named id) (upserted state o) cs
on_cells (replace id k o) cs = change_first (named id) replaced cs
  where
    replaced : CellSnapshot → CellSnapshot
    replaced c = record c { outputs = change_at (λ _. o) k c.outputs }
on_cells (display update) cs = change_display update cs

abbrev pub run_on_cells : List Operation → List CellSnapshot → List CellSnapshot
run_on_cells [] cs = cs
run_on_cells (op ∷ ops) cs = run_on_cells ops (on_cells op cs)

module _ (am : Automerge) where
  open am use {Doc, ObjId, root, node}

  -- An operation on a document.
  abbrev pub on_doc : Operation → Doc → Doc
  on_doc (add index id cell_type) d = (add_cell am index id cell_type d).1
  on_doc (delete id) d = (delete_cell am id d).1
  on_doc (source id s) d = (update_source am id s d).1
  on_doc (count id n) d = (set_execution_count am id n d).1
  on_doc (outputs id os) d = (set_outputs am id os d).1
  on_doc (clear id) d = (clear_outputs am id d).1
  on_doc (append id o) d = (append_output am id o d).1
  on_doc (upsert id o state) d = (upsert_stream_output am id o state d).1
  on_doc (replace id k o) d = (replace_output am id k o d).1
  on_doc (display update) d = (update_output am update d).1

  abbrev pub run_on_doc : List Operation → Doc → Doc
  run_on_doc [] d = d
  run_on_doc (op ∷ ops) d = run_on_doc ops (on_doc op d)

  -- A document that holds some cells.
  abbrev pub HoldsCells : Doc → List CellSnapshot → Type 0
  HoldsCells d cs = (ps : List (Held am)) × Holds am d ps × (snapshots am ps ≡ cs)

  changed :
      {R : Type 0} (r : Result R × Doc) (a : R) (g : CellSnapshot → R)
      (f : CellSnapshot → CellSnapshot) (id : String) (cs : List CellSnapshot)
      → Changes am r a g f id cs
      → HoldsCells (r.1) (change_first (named id) f cs)
  changed r a g f id cs h = (h.held, h.holds, h.cells_are)

  on_doc-Holds :
      (op : Operation) (d : Doc) (ps : List (Held am))
      → Holds am d ps
      → HoldsCells (on_doc op d) (on_cells op (snapshots am ps))
  unfolding clear_outputs
  on_doc-Holds (add index id cell_type) d ps h =
      let r = add_cell-Inserts am d ps index id cell_type h in (r.held, r.holds, r.cells_are)
  on_doc-Holds (delete id) d ps h =
      let r = delete_cell-Removes am d ps id h in (r.held, r.holds, r.cells_are)
  on_doc-Holds (source id s) d ps h = changed _ _ _ _ id _ (update_source-Changes am d ps id s h)
  on_doc-Holds (count id n) d ps h =
      changed _ _ _ _ id _ (set_execution_count-Changes am d ps id n h)
  on_doc-Holds (outputs id os) d ps h = changed _ _ _ _ id _ (set_outputs-Changes am d ps id os h)
  on_doc-Holds (clear id) d ps h = changed _ _ _ _ id _ (set_outputs-Changes am d ps id [] h)
  on_doc-Holds (append id o) d ps h = changed _ _ _ _ id _ (append_output-Changes am d ps id o h)
  on_doc-Holds (upsert id o state) d ps h =
      changed _ _ _ _ id _ (upsert_stream_output-Changes am d ps id o state h)
  on_doc-Holds (replace id k o) d ps h =
      changed _ _ _ _ id _ (replace_output-Changes am d ps id k o h)
  on_doc-Holds (display update) d ps h =
      let r = update_output-Displays am update d ps h in (r.held, r.holds, r.cells_are)

  run-Holds :
      (ops : List Operation) (d : Doc) (cs : List CellSnapshot)
      → HoldsCells d cs
      → HoldsCells (run_on_doc ops d) (run_on_cells ops cs)
  run-Holds [] d cs h = h
  run-Holds (op ∷ ops) d cs (ps, h, e) =
      run-Holds ops (on_doc op d) (on_cells op cs)
        (subst (λ cs. HoldsCells (on_doc op d) (on_cells op cs)) e (on_doc-Holds op d ps h))

  done-if_done :
      {A : Type 0} (r : Result A × Doc) (f : A → Doc → Doc) (a : A)
      → r.0 ≡ done a
      → if_done am r f ≡ f a (r.1)
  done-if_done (done b, d) f a h = cc
  done-if_done (failed e, d) f a h = ground (arith, h)

  pub new-Holds : (notebook_id : String) → Holds am (new am notebook_id) []
  unfolding new contains
  new-Holds notebook_id =
      let empty : node am.new root ≡ some (map_node []) =
        ground (arith, am.node-new root, beq_refl ⦃e = am.ids⦄ root) in
      let c1 = am.put root "notebook_id" notebook_id am.new in
      let (r1, n1, t1) = put_step am am.new root "notebook_id" notebook_id [] empty in
      let c2 = am.put_object root "cells" list_type c1.1 in
      let (cid, free_c, r2, n2, list, t2) = put_object_step am c1.1 root "cells" list_type _ n1 in
      let c3 = am.put_object root "metadata" map_type c2.1 in
      let (mid, free_m, r3, n3, meta, t3) = put_object_step am c2.1 root "metadata" map_type _ n2 in
      let c4 = am.put mid "runtime" "python" c3.1 in
      let (r4, n4, t4) = put_step am c3.1 mid "runtime" "python" [] meta in
      let root_c = there_apart am c1.1 root cid (ap is_some n1) free_c in
      let root_m = there_apart am c2.1 root mid (ap is_some n2) free_m in
      let c_m = there_apart am c2.1 cid mid (ap is_some list) free_m in
      let c_root = same_sym am root cid root_c in
      let list3 = t3 cid c_root (ap is_some list) ∙ list in
      let e : new am notebook_id ≡ c4.1 =
        done-if_done c3 (λ m d. (am.put m "runtime" "python" d).1) mid r3 in
      subst (λ d. Holds am d []) (sym e)
        (record {
          entries = _;
          cells_id = cid;
          node_root = t4 root root_m (ap is_some n3) ∙ n3;
          get_cells_id =
              get-insert "cells" "metadata" (object map_type mid) _
              ∙ get-insert "cells" "cells" (object list_type cid) _;
          node_cells = t4 cid c_m (ap is_some list3) ∙ list3;
          are_cells = tt;
          distinct = (ground (arith, c_root), (refl, tt));
        })

  -- The cells that are read after any operations on a new document are those of the same operations on
  -- an empty list: positions, sources, outputs, execution counts and the order of the cells.
  pub run-get_cells :
      (notebook_id : String) (ops : List Operation)
      → get_cells am (run_on_doc ops (new am notebook_id)) ≡ run_on_cells ops []
  run-get_cells notebook_id ops =
      let (ps, h, e) = run-Holds ops (new am notebook_id) [] ([], new-Holds notebook_id, refl) in
      get_cells-Holds am (run_on_doc ops (new am notebook_id)) ps h ∙ e
