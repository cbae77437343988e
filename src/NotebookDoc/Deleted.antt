-- ===== src/NotebookDoc/Deleted.antt =====
-- `delete_cell`: the document holds the other cells, in their order.
use runt.Prelude.{
  ℕ, ◌<◌, String, Bool, true, false, Option, none, some, List, [], ◌∷◌, ◌++◌, ◌==◌, string_eq,
  PartialEq, is_some, length, contains, All, ◌≡◌, inl, inr, refl, ap, sym, ◌∙◌, subst, arith,
  Option-cases,
}
use runt.Prelude.Distinct.{Distinct, contains-append}
use runt.Prelude.Positions.{
  position, position-Found, position_absent, find, remove_first, remove_at,
}
use runt.Automerge.{Automerge, Result, done, object, map_type, list_node}
use runt.NotebookDoc.{CellSnapshot, then_true, find_cell_index, delete_cell}
use runt.NotebookDoc.View.{
  CellIds, Held, owned, all_owned, objects, snapshots, AreCells, Holds, has_id, cells_list_id-Holds,
  find_cell_index-Holds,
}
use runt.NotebookDoc.Frame.{
  Distinct-right, has, AreCells-split, AreCells-join, AreCells-keep, all_owned-append,
}
use runt.NotebookDoc.Change.{around}
use runt.NotebookDoc.Located.{named}
use runt.NotebookDoc.Objects.{Writes, Writes-here, Writes-away, has_apart, same_sym}
use runt.NotebookDoc.Edits.{then_true-of}

-- A list of which no element stands twice, without its middle.
module _ {ℓ} {A : Type ℓ} ⦃e : PartialEq A⦄ where
  contains-middle :
      (xs ys zs : List A) (a : A)
      → contains (xs ++ (ys ++ zs)) a ≡ false
      → contains (xs ++ zs) a ≡ false
  contains-middle xs ys zs a h =
      ground (
        arith,
        contains-append xs (ys ++ zs) a,
        contains-append ys zs a,
        contains-append xs zs a,
        h,
      )

  Distinct-middle : (xs ys zs : List A) → Distinct (xs ++ (ys ++ zs)) → Distinct (xs ++ zs)
  Distinct-middle [] ys zs d = Distinct-right ys zs d
  Distinct-middle (x ∷ xs) ys zs d =
      (contains-middle xs ys zs x (d.0), Distinct-middle xs ys zs (d.1))

module _ (am : Automerge) where
  open am use {Doc, ObjId, root, node}

  remove_at-objects :
      (before : List (Held am)) (i : CellIds ObjId) (c : CellSnapshot) (after : List (Held am))
      → remove_at (length before) (objects am (before ++ (i, c) ∷ after))
        ≡ objects am (before ++ after)
  remove_at-objects [] i c after = refl
  remove_at-objects ((j, b) ∷ before) i c after =
      ap (◌∷◌ (object map_type j.obj)) (remove_at-objects before i c after)

  length-objects :
      (before : List (Held am)) (i : CellIds ObjId) (c : CellSnapshot) (after : List (Held am))
      → length before < length (objects am (before ++ (i, c) ∷ after))
  length-objects [] i c after = omega arith
  length-objects ((j, b) ∷ before) i c after = omega (arith, length-objects before i c after)

  Holds-delete :
      (d d' : Doc) (before : List (Held am)) (i : CellIds ObjId) (c : CellSnapshot)
      (after : List (Held am)) (h : Holds am d (before ++ (i, c) ∷ after))
      → Writes am d d' h.cells_id
          (list_node (remove_at (length before) (objects am (before ++ (i, c) ∷ after))))
      → Holds am d' (before ++ after)
  unfolding contains
  Holds-delete d d' before i c after h w =
      let ps = before ++ (i, c) ∷ after in
      let n = list_node (remove_at (length before) (objects am ps)) in
      let (cells_before, cell, cells_after) = AreCells-split am d before i c after h.are_cells in
      let root_apart : am.ids.same root h.cells_id ≡ false =
        same_sym am h.cells_id root (ground (arith, h.distinct.0)) in
      let kept : (p : ObjId) → has am (all_owned am ps) p ≡ true → node d' p ≡ node d p = λ p own.
        Writes-away am d d' h.cells_id n p w (
          same_sym am h.cells_id p
            (has_apart am (all_owned am ps) h.cells_id p (h.distinct.1.0) own)) in
      let in_all : (p : ObjId)
          → has am (all_owned am ps) p
            ≡ has am (all_owned am before ++ (owned am i ++ all_owned am after)) p =
        λ p. ap (λ xs. has am xs p) (around am before i c after) in
      let whole : (xs : List ObjId) → Type 0 =
        λ xs. Distinct ⦃e = am.ids⦄ (root ∷ h.cells_id ∷ xs) in
      record {
        entries = h.entries;
        cells_id = h.cells_id;
        node_root = Writes-away am d d' h.cells_id n root w root_apart ∙ h.node_root;
        get_cells_id = h.get_cells_id;
        node_cells =
            Writes-here am d d' h.cells_id n w
            ∙ ap (λ vs. some (list_node vs)) (remove_at-objects before i c after);
        are_cells =
            AreCells-join am d' before after
              (AreCells-keep am d d' before
                (λ p own. kept p (
                  ground (
                    arith,
                    own,
                    in_all p,
                    contains-append ⦃e = am.ids⦄ (all_owned am before)
                        (owned am i ++ all_owned am after) p,
                  )))
                cells_before)
              (AreCells-keep am d d' after
                (λ p own. kept p (
                  ground (
                    arith,
                    own,
                    in_all p,
                    contains-append ⦃e = am.ids⦄ (all_owned am before)
                        (owned am i ++ all_owned am after) p,
                    contains-append ⦃e = am.ids⦄ (owned am i) (all_owned am after) p,
                  )))
                cells_after);
        distinct = subst whole (sym (all_owned-append am before after)) (
            Distinct-middle ⦃e = am.ids⦄ (root ∷ h.cells_id ∷ all_owned am before) (owned am i)
              (all_owned am after) (subst whole (around am before i c after) h.distinct));
      }

  remove_absent :
      (id : String) (ps : List (Held am))
      → All (λ p. has_id am id p ≡ false) ps
      → (remove_first (named id) (snapshots am ps) ≡ snapshots am ps)
        × (is_some (find (named id) (snapshots am ps)) ≡ false)
  remove_absent id [] h = (refl, refl)
  remove_absent id ((i, c) ∷ ps) h = ground (arith, remove_absent id ps (h.1), h.0)

  remove_found :
      (id : String) (before : List (Held am)) (i : CellIds ObjId) (c : CellSnapshot)
      (after : List (Held am))
      → All (λ p. has_id am id p ≡ false) before
      → (c.id == id) ≡ true
      → (remove_first (named id) (snapshots am (before ++ (i, c) ∷ after))
          ≡ snapshots am (before ++ after))
        × (is_some (find (named id) (snapshots am (before ++ (i, c) ∷ after))) ≡ true)
  remove_found id [] i c after first h = (ground (arith, h), ground (arith, h))
  remove_found id ((j, b) ∷ before) i c after first h =
      ground (arith, remove_found id before i c after (first.1) h, first.0)

  -- A result and a document that holds the cells without the first one of a name.
  pub record Removes (r : Result Bool × Doc) (id : String) (cells : List CellSnapshot)
      : Type 0 where
    pub held : List (Held am)
    pub holds : Holds am (r.1) held
    pub cells_are : snapshots am held ≡ remove_first (named id) cells
    pub result_is : r.0 ≡ done (is_some (find (named id) cells))

  removed :
      (d : Doc) (ps before : List (Held am)) (i : CellIds ObjId) (c : CellSnapshot)
      (after : List (Held am)) (id : String) (h : Holds am d ps)
      → ps ≡ before ++ (i, c) ∷ after
      → (c.id == id) ≡ true
      → All (λ p. has_id am id p ≡ false) before
      → (r : Result Bool × Doc) → r ≡ then_true am (am.delete_at h.cells_id (length before) d)
      → Removes r id (snapshots am ps)
  removed d ps before i c after id h split is_named first r e =
      let qs = before ++ (i, c) ∷ after in
      let call = am.delete_at h.cells_id (length before) d in
      let h' : Holds am d qs = record {
        entries = h.entries;
        cells_id = h.cells_id;
        node_root = h.node_root;
        get_cells_id = h.get_cells_id;
        node_cells = h.node_cells ∙ ap (λ ps. some (list_node (objects am ps))) split;
        are_cells = subst (AreCells am d) split h.are_cells;
        distinct =
            subst (λ ps. Distinct ⦃e = am.ids⦄ (root ∷ h.cells_id ∷ all_owned am ps)) split
              h.distinct;
      } in
      let law =
        am.node-delete_at h.cells_id (length before) d (objects am qs) h'.node_cells
          (length-objects before i c after) in
      let e' = e ∙ then_true-of am call (law.0) in
      let gone = remove_found id before i c after first is_named in
      record {
        held = before ++ after;
        holds =
            subst (λ x. Holds am x (before ++ after)) (sym (ap (λ x. x.1) e'))
              (Holds-delete d (call.1) before i c after h' (law.1));
        cells_are = sym (gone.0) ∙ ap (λ ps. remove_first (named id) (snapshots am ps)) (sym split);
        result_is =
            ap (λ x. x.0) e'
            ∙ ap done
                (sym (gone.1) ∙ ap (λ ps. is_some (find (named id) (snapshots am ps))) (sym split));
      }

  -- The cell that is found is gone and the others stay, and the result says whether there was one.
  pub delete_cell-Removes :
      (d : Doc) (ps : List (Held am)) (id : String)
      → Holds am d ps
      → Removes (delete_cell am id d) id (snapshots am ps)
  unfolding delete_cell
  delete_cell-Removes d ps id h =
      let at : ObjId → Option ℕ → Result Bool × Doc =
        λ o k. elim k [ none ↦ (done false, d) | some idx ↦ then_true am (am.delete_at o idx d) ] in
      let body : Option ObjId → Result Bool × Doc =
        λ o. elim o [ none ↦ (done false, d) | some l ↦ at l (find_cell_index am d l id) ] in
      let e =
        ap body (cells_list_id-Holds am d ps h)
        ∙ ap (at h.cells_id) (find_cell_index-Holds am d ps h id) in
      elim (Option-cases (position (has_id am id) ps)) [
        | inl missing ↦
            let e' = e ∙ ap (at h.cells_id) missing in
            let gone = remove_absent id ps (position_absent (has_id am id) ps missing) in
            record {
              held = ps;
              holds = subst (λ x. Holds am x ps) (sym (ap (λ x. x.1) e')) h;
              cells_are = sym (gone.0);
              result_is = ap (λ x. x.0) e' ∙ ap done (sym (gone.1));
            }
        | inr (k, at_k) ↦
            let (before, (i, c), after, split, len, is_named, first) =
              position-Found (has_id am id) ps k at_k in
            removed d ps before i c after id h split is_named first (delete_cell am id d)
              (e ∙ ap (at h.cells_id) (at_k ∙ ap some (sym len)))
      ]
