-- ===== src/NotebookDoc/Change.antt =====
-- A change inside one cell: the document holds the same cells with that one changed.
use runt.Prelude.{
  true, false, none, some, List, [], ◌∷◌, ◌++◌, is_some, ◌≡◌, ◌⊎◌, refl, ap, sym, ◌∙◌, subst, arith,
  Bool-cases, inl, inr,
}
use runt.Prelude.Distinct.{Distinct, contains-append}
use runt.Automerge.{Automerge, list_node}
use runt.NotebookDoc.{CellSnapshot}
use runt.NotebookDoc.View.{CellIds, Held, owned, all_owned, IsCell, Holds}
use runt.NotebookDoc.Frame.{
  Distinct-left, Distinct-right, Distinct-apart, Distinct-replace, contains_tail, has,
  AreCells-keep, AreCells-split, AreCells-join, AreCells-present, all_owned-append, objects-same,
  Holds-fresh,
}

module _ (am : Automerge) where
  open am use {Doc, ObjId, root, node}

  abbrev pub with_outputs : CellIds ObjId → ObjId → CellIds ObjId
  with_outputs i o = record i { outputs = o }

  -- The objects of a document, around those of one cell, and around its list of outputs.
  pub around :
      (before : List (Held am)) (i : CellIds ObjId) (c : CellSnapshot) (after : List (Held am))
      → all_owned am (before ++ (i, c) ∷ after)
        ≡ all_owned am before ++ (owned am i ++ all_owned am after)
  around before i c after = all_owned-append am before ((i, c) ∷ after)

  around_outputs :
      (before : List (Held am)) (i : CellIds ObjId) (c : CellSnapshot) (after : List (Held am))
      → all_owned am (before ++ (i, c) ∷ after)
        ≡ (all_owned am before ++ (i.obj ∷ i.source ∷ [])) ++ (i.outputs ∷ all_owned am after)
  around_outputs [] i c after = refl
  around_outputs ((j, b) ∷ before) i c after =
      ap (λ xs. owned am j ++ xs) (around_outputs before i c after)

  -- The new list of outputs is the old one, or an object that was not there.
  abbrev pub IsNewOutputs : Doc → CellIds ObjId → ObjId → Type 0
  IsNewOutputs d i o = (o ≡ i.outputs) ⊎ (node d o ≡ none)

  Distinct-after :
      (d : Doc) (before : List (Held am)) (i : CellIds ObjId) (c c' : CellSnapshot)
      (after : List (Held am)) (h : Holds am d (before ++ (i, c) ∷ after)) (o : ObjId)
      → IsNewOutputs d i o
      → Distinct ⦃e = am.ids⦄
          (root ∷ h.cells_id ∷ all_owned am (before ++ (with_outputs i o, c') ∷ after))
  Distinct-after d before i c c' after h o (inl same) =
      let e =
        around_outputs before (with_outputs i o) c' after
        ∙ ap (λ o. (all_owned am before ++ (i.obj ∷ i.source ∷ [])) ++ (o ∷ all_owned am after))
            same
        ∙ sym (around_outputs before i c after) in
      subst (λ xs. Distinct ⦃e = am.ids⦄ (root ∷ h.cells_id ∷ xs)) (sym e) h.distinct
  Distinct-after d before i c c' after h o (inr fresh) =
      let first = all_owned am before ++ (i.obj ∷ i.source ∷ []) in
      let e = around_outputs before i c after in
      let distinct = subst (λ xs. Distinct ⦃e = am.ids⦄ (root ∷ h.cells_id ∷ xs)) e h.distinct in
      let free =
        ap (λ xs. has am (root ∷ h.cells_id ∷ xs) o) (sym e)
        ∙ Holds-fresh am d (before ++ (i, c) ∷ after) h o fresh in
      subst (λ xs. Distinct ⦃e = am.ids⦄ (root ∷ h.cells_id ∷ xs))
        (sym (around_outputs before (with_outputs i o) c' after))
        (Distinct-replace ⦃e = am.ids⦄ (root ∷ h.cells_id ∷ first) i.outputs o (all_owned am after)
          distinct free)

  -- The objects of the other cells stand apart from those of the cell.
  pub apart_before :
      (before : List (Held am)) (i : CellIds ObjId) (c : CellSnapshot) (after : List (Held am))
      (p : ObjId)
      → Distinct ⦃e = am.ids⦄ (all_owned am (before ++ (i, c) ∷ after))
      → has am (all_owned am before) p ≡ true
      → has am (owned am i) p ≡ false
  apart_before before i c after p d own =
      let split = subst (λ xs. Distinct ⦃e = am.ids⦄ xs) (around before i c after) d in
      let free =
        Distinct-apart ⦃e = am.ids⦄ (all_owned am before) (owned am i ++ all_owned am after) p split
          own in
      ground (arith, free, contains-append ⦃e = am.ids⦄ (owned am i) (all_owned am after) p)

  apart_after :
      (before : List (Held am)) (i : CellIds ObjId) (c : CellSnapshot) (after : List (Held am))
      (p : ObjId)
      → Distinct ⦃e = am.ids⦄ (all_owned am (before ++ (i, c) ∷ after))
      → has am (all_owned am after) p ≡ true
      → has am (owned am i) p ≡ false
  apart_after before i c after p d own =
      let split = subst (λ xs. Distinct ⦃e = am.ids⦄ xs) (around before i c after) d in
      let right =
        Distinct-right ⦃e = am.ids⦄ (all_owned am before) (owned am i ++ all_owned am after)
          split in
      elim (Bool-cases (has am (owned am i) p)) [
        | inl mine ↦
            ground (
              arith,
              Distinct-apart ⦃e = am.ids⦄ (owned am i) (all_owned am after) p right mine,
              own,
            )
        | inr free ↦ free
      ]

  pub Distinct-owned :
      (before : List (Held am)) (i : CellIds ObjId) (c : CellSnapshot) (after : List (Held am))
      → Distinct ⦃e = am.ids⦄ (all_owned am (before ++ (i, c) ∷ after))
      → Distinct ⦃e = am.ids⦄ (owned am i)
  Distinct-owned before i c after d =
      let split = subst (λ xs. Distinct ⦃e = am.ids⦄ xs) (around before i c after) d in
      Distinct-left ⦃e = am.ids⦄ (owned am i) (all_owned am after)
        (Distinct-right ⦃e = am.ids⦄ (all_owned am before) (owned am i ++ all_owned am after) split)

  abbrev pub Keeps : Doc → Doc → CellIds ObjId → Type 0
  Keeps d d' i =
      (p : ObjId) → has am (owned am i) p ≡ false → is_some (node d p) ≡ true → node d' p ≡ node d p

  not_owned :
      (before : List (Held am)) (i : CellIds ObjId) (c : CellSnapshot) (after : List (Held am))
      (p : ObjId)
      → has am (all_owned am (before ++ (i, c) ∷ after)) p ≡ false
      → has am (owned am i) p ≡ false
  not_owned before i c after p free = ground (
    arith,
    ap (λ xs. has am xs p) (around before i c after),
    contains-append ⦃e = am.ids⦄ (all_owned am before) (owned am i ++ all_owned am after) p,
    contains-append ⦃e = am.ids⦄ (owned am i) (all_owned am after) p,
    free,
  )

  pub Holds-change :
      (d d' : Doc) (before : List (Held am)) (i : CellIds ObjId) (c c' : CellSnapshot)
      (after : List (Held am)) (o : ObjId)
      → Holds am d (before ++ (i, c) ∷ after)
      → Keeps d d' i
      → IsNewOutputs d i o
      → IsCell am d' (with_outputs i o) c'
      → Holds am d' (before ++ (with_outputs i o, c') ∷ after)
  Holds-change d d' before i c c' after o h keeps new cell =
      let ps = before ++ (i, c) ∷ after in
      let (old_before, old_cell, old_after) = AreCells-split am d before i c after h.are_cells in
      let tail = h.distinct.1.1 in
      let e = around before i c after in
      let root_free : has am (owned am i) root ≡ false =
        not_owned before i c after root
          (contains_tail ⦃e = am.ids⦄ h.cells_id (all_owned am ps) root (h.distinct.0)) in
      let cells_free : has am (owned am i) h.cells_id ≡ false =
        not_owned before i c after h.cells_id (h.distinct.1.0) in
      record {
        entries = h.entries;
        cells_id = h.cells_id;
        node_root = keeps root root_free (ap is_some h.node_root) ∙ h.node_root;
        get_cells_id = h.get_cells_id;
        node_cells =
            keeps h.cells_id cells_free (ap is_some h.node_cells)
            ∙ h.node_cells
            ∙ ap (λ xs. some (list_node xs))
                (sym (objects-same am before i (with_outputs i o) c' c after refl));
        are_cells =
            AreCells-join am d' before ((with_outputs i o, c') ∷ after)
              (AreCells-keep am d d' before
                (λ p own.
                  keeps p (apart_before before i c after p tail own)
                    (AreCells-present am d before p old_before own))
                old_before)
              (
                cell,
                AreCells-keep am d d' after
                    (λ p own.
                      keeps p (apart_after before i c after p tail own)
                        (AreCells-present am d after p old_after own))
                    old_after,
              );
        distinct = Distinct-after d before i c c' after h o new;
      }
