-- ===== src/NotebookDoc/Located.antt =====
-- The cell that an operation finds by its identifier, and what an operation on one cell does to the
-- cells that a document holds.
use runt.Prelude.{
  ℕ, String, Bool, true, false, Option, none, some, List, [], ◌∷◌, ◌++◌, ◌==◌, string_eq, length,
  get_elem?, All, ◌≡◌, ◌⊎◌, inl, inr, refl, ap, sym, ◌∙◌, subst, arith, Option-cases,
}
use runt.Prelude.Options.{and_then, and_then-of}
use runt.Prelude.Positions.{position, position-Found, position_absent, find, change_first}
use runt.Automerge.{Automerge, Result, done, object, map_type, in_list}
use runt.NotebookDoc.{CellSnapshot, as_object, cell_object, cells_list_id, cell_at_index}
use runt.NotebookDoc.View.{
  CellIds, Held, owned, objects, snapshots, IsCell, Holds, has_id, cells_list_id-Holds,
  find_cell_index-Holds,
}
use runt.NotebookDoc.Frame.{AreCells-split}
use runt.Prelude.Distinct.{Distinct}
use runt.NotebookDoc.Change.{Distinct-owned, with_outputs, Keeps, IsNewOutputs, Holds-change}

abbrev pub named : String → CellSnapshot → Bool
named id c = c.id == id

module _ (am : Automerge) where
  open am use {Doc, ObjId, root, node}

  get_elem-objects :
      (before : List (Held am)) (i : CellIds ObjId) (c : CellSnapshot) (after : List (Held am))
      → get_elem? (objects am (before ++ (i, c) ∷ after)) (length before)
        ≡ some (object map_type i.obj)
  get_elem-objects [] i c after = refl
  get_elem-objects ((j, b) ∷ before) i c after = get_elem-objects before i c after

  cell_at-Holds :
      (d : Doc) (ps before : List (Held am)) (i : CellIds ObjId) (c : CellSnapshot)
      (after : List (Held am)) (k : ℕ) (h : Holds am d ps)
      → ps ≡ before ++ (i, c) ∷ after
      → length before ≡ k
      → cell_at_index am d h.cells_id k ≡ some i.obj
  unfolding cell_at_index
  cell_at-Holds d ps before i c after k h split len =
      ap (λ n. as_object am map_type (in_list am k n)) h.node_cells
      ∙ ap (λ qs. as_object am map_type (get_elem? (objects am qs) k)) split
      ∙ ap (λ k. as_object am map_type (get_elem? (objects am (before ++ (i, c) ∷ after)) k))
          (sym len)
      ∙ ap (as_object am map_type) (get_elem-objects before i c after)

  -- Where the cell of an identifier stands, if there is one.
  pub record IsFound (d : Doc) (ps : List (Held am)) (id : String) : Type 0 where
    pub before : List (Held am)
    pub ids : CellIds ObjId
    pub cell : CellSnapshot
    pub after : List (Held am)
    pub split : ps ≡ before ++ (ids, cell) ∷ after
    pub is_named : (cell.id == id) ≡ true
    pub is_first : All (λ p. has_id am id p ≡ false) before
    pub object_found : cell_object am d id ≡ some ids.obj

  abbrev pub IsAbsent : Doc → List (Held am) → String → Type 0
  IsAbsent d ps id = All (λ p. has_id am id p ≡ false) ps × (cell_object am d id ≡ none)

  pub locate :
      (d : Doc) (ps : List (Held am)) (id : String)
      → Holds am d ps
      → IsAbsent d ps id ⊎ IsFound d ps id
  locate d ps id h = elim (Option-cases (position (has_id am id) ps)) [
    | inl missing ↦ inl (
      position_absent (has_id am id) ps missing,
      and_then-of (cells_list_id am d) _ h.cells_id (cells_list_id-Holds am d ps h)
          ∙ ap (λ o. and_then o (cell_at_index am d h.cells_id))
              (find_cell_index-Holds am d ps h id ∙ missing),
    )
    | inr (k, at_k) ↦
        let f = position-Found (has_id am id) ps k at_k in
        inr (record {
          before = f.0;
          ids = f.1.0;
          cell = f.1.1;
          after = f.2;
          split = f.3;
          is_named = f.5;
          is_first = f.6;
          object_found =
              and_then-of (cells_list_id am d) _ h.cells_id (cells_list_id-Holds am d ps h)
              ∙ ap (λ o. and_then o (cell_at_index am d h.cells_id))
                  (find_cell_index-Holds am d ps h id ∙ at_k)
              ∙ cell_at-Holds d ps (f.0) (f.1.0) (f.1.1) (f.2) k h (f.3) (f.4);
        })
  ]

  find_absent :
      (id : String) (ps : List (Held am))
      → All (λ p. has_id am id p ≡ false) ps
      → find (named id) (snapshots am ps) ≡ none
  find_absent id [] h = refl
  find_absent id ((i, c) ∷ ps) h = ground (arith, find_absent id ps (h.1), h.0)

  change_absent :
      (id : String) (f : CellSnapshot → CellSnapshot) (ps : List (Held am))
      → All (λ p. has_id am id p ≡ false) ps
      → change_first (named id) f (snapshots am ps) ≡ snapshots am ps
  change_absent id f [] h = refl
  change_absent id f ((i, c) ∷ ps) h = ground (arith, change_absent id f ps (h.1), h.0)

  find_first :
      (id : String) (before : List (Held am)) (i : CellIds ObjId) (c : CellSnapshot)
      (after : List (Held am))
      → All (λ p. has_id am id p ≡ false) before
      → (c.id == id) ≡ true
      → find (named id) (snapshots am (before ++ (i, c) ∷ after)) ≡ some c
  find_first id [] i c after first h = ground (arith, h)
  find_first id ((j, b) ∷ before) i c after first h =
      ground (arith, find_first id before i c after (first.1) h, first.0)

  change_found :
      (id : String) (f : CellSnapshot → CellSnapshot) (before : List (Held am))
      (i j : CellIds ObjId) (c : CellSnapshot) (after : List (Held am))
      → All (λ p. has_id am id p ≡ false) before
      → (c.id == id) ≡ true
      → change_first (named id) f (snapshots am (before ++ (i, c) ∷ after))
        ≡ snapshots am (before ++ (j, f c) ∷ after)
  change_found id f [] i j c after first h = ground (arith, h)
  change_found id f ((k, b) ∷ before) i j c after first h =
      ground (arith, change_found id f before i j c after (first.1) h, first.0)

  -- A result and a document that holds the cells with the first one of a name changed.
  pub record Changes {R : Type 0} (r : Result R × Doc) (absent_result : R)
      (result : CellSnapshot → R) (f : CellSnapshot → CellSnapshot) (id : String)
      (cells : List CellSnapshot) : Type 0 where
    pub held : List (Held am)
    pub holds : Holds am (r.1) held
    pub cells_are : snapshots am held ≡ change_first (named id) f cells
    pub result_is :
        r.0 ≡ done (elim (find (named id) cells) [ none ↦ absent_result | some c ↦ result c ])

  -- What an operation does to the objects of the cell that it finds.
  pub record Local {R : Type 0} (d : Doc) (i : CellIds ObjId) (c : CellSnapshot)
      (r : Result R × Doc) (result : R) (f : CellSnapshot → CellSnapshot) : Type 0 where
    pub outputs : ObjId
    pub result_is : r.0 ≡ done result
    pub keeps : Keeps am d (r.1) i
    pub is_new : IsNewOutputs am d i outputs
    pub is_cell : IsCell am (r.1) (with_outputs am i outputs) (f c)

  pub change_one :
      {R : Type 0} (d : Doc) (ps : List (Held am)) (h : Holds am d ps) (id : String)
      (r : Result R × Doc) (absent_result : R) (result : CellSnapshot → R)
      (f : CellSnapshot → CellSnapshot)
      → (cell_object am d id ≡ none → r ≡ (done absent_result, d))
      → ((i : CellIds ObjId) (c : CellSnapshot)
          → IsCell am d i c
          → Distinct ⦃e = am.ids⦄ (owned am i)
          → cell_object am d id ≡ some i.obj
          → Local d i c r (result c) f)
      → Changes r absent_result result f id (snapshots am ps)
  change_one d ps h id r absent_result result f missing found = elim (locate d ps id h) [
    | inl (all_other, gone) ↦
        let e = missing gone in
        record {
          held = ps;
          holds = subst (λ x. Holds am x ps) (sym (ap (λ x. x.1) e)) h;
          cells_are = sym (change_absent id f ps all_other);
          result_is =
              ap (λ x. x.0) e
              ∙ ap
                  (λ (o : Option CellSnapshot).
                    done (elim o [ none ↦ absent_result | some c ↦ result c ]))
                  (sym (find_absent id ps all_other));
        }
    | inr l ↦
        let h' = subst (Holds am d) l.split h in
        let cell = (AreCells-split am d l.before l.ids l.cell l.after h'.are_cells).1 in
        let local =
          found l.ids l.cell cell
            (Distinct-owned am l.before l.ids l.cell l.after (h'.distinct.1.1)) l.object_found in
        let j = with_outputs am l.ids local.outputs in
        record {
          held = l.before ++ (j, f l.cell) ∷ l.after;
          holds =
              Holds-change am d (r.1) l.before l.ids l.cell (f l.cell) l.after local.outputs h'
                local.keeps local.is_new local.is_cell;
          cells_are =
              sym (change_found id f l.before l.ids j l.cell l.after l.is_first l.is_named)
              ∙ ap (λ qs. change_first (named id) f (snapshots am qs)) (sym l.split);
          result_is =
              local.result_is
              ∙ ap
                  (λ (o : Option CellSnapshot).
                    done (elim o [ none ↦ absent_result | some c ↦ result c ]))
                  (sym (find_first id l.before l.ids l.cell l.after l.is_first l.is_named)
                    ∙ ap (λ qs. find (named id) (snapshots am qs)) (sym l.split));
        }
  ]
