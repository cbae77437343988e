-- ===== src/NotebookDoc/Frame.antt =====
-- What a change inside one cell leaves: the document still holds the other cells as they were.
use runt.Prelude.{
  Bool, true, false, none, some, List, [], ◌∷◌, ◌++◌, PartialEq, is_some, contains, ◌≡◌, refl, ap,
  sym, ◌∙◌, arith, Bool-cases, inl, inr, beq_refl, beq→eq,
}
use runt.Prelude.Distinct.{Distinct, contains-append}
use runt.Automerge.{Automerge, Node, object, map_type}
use runt.NotebookDoc.{CellSnapshot}
use runt.NotebookDoc.View.{CellIds, Held, owned, all_owned, objects, IsCell, AreCells, Holds}

-- Lists of which no element stands twice, cut in two.
module _ {ℓ} {A : Type ℓ} ⦃e : PartialEq A⦄ where
  pub Distinct-left : (xs ys : List A) → Distinct (xs ++ ys) → Distinct xs
  Distinct-left [] ys d = tt
  Distinct-left (x ∷ xs) ys d =
      ground (arith, Distinct-left xs ys (d.1), contains-append xs ys x, d.0)

  pub Distinct-right : (xs ys : List A) → Distinct (xs ++ ys) → Distinct ys
  Distinct-right [] ys d = d
  Distinct-right (x ∷ xs) ys d = Distinct-right xs ys (d.1)

  pub Distinct-apart :
      (xs ys : List A) (a : A) → Distinct (xs ++ ys) → contains xs a ≡ true → contains ys a ≡ false
  unfolding contains
  Distinct-apart [] ys a d h = ground (arith, h)
  Distinct-apart (x ∷ xs) ys a d h =
      ground (arith, Distinct-apart xs ys a (d.1), contains-append xs ys x, e.same_iff x a, d.0, h)

  pub contains_tail :
      (x : A) (xs : List A) (a : A) → contains (x ∷ xs) a ≡ false → contains xs a ≡ false
  unfolding contains
  contains_tail x xs a h = ground (arith, h)

  -- One element for another that is new.
  pub Distinct-replace :
      (xs : List A) (a b : A) (ys : List A)
      → Distinct (xs ++ a ∷ ys)
      → contains (xs ++ a ∷ ys) b ≡ false
      → Distinct (xs ++ b ∷ ys)
  unfolding contains
  Distinct-replace [] a b ys d h = ground (arith, d, h)
  Distinct-replace (x ∷ xs) a b ys d h = ground (
    arith,
    Distinct-replace xs a b ys (d.1),
    contains-append xs (a ∷ ys) x,
    contains-append xs (b ∷ ys) x,
    e.same_iff b x,
    e.same_iff x b,
    d.0,
    h,
  )

module _ (am : Automerge) where
  open am use {Doc, ObjId, root, node}

  abbrev pub has : List ObjId → ObjId → Bool
  has = contains ⦃e = am.ids⦄

  -- A cell whose objects are as they were is as it was.
  IsCell-keep :
      (d d' : Doc) (i : CellIds ObjId) (c : CellSnapshot)
      → ((p : ObjId) → has (owned am i) p ≡ true → node d' p ≡ node d p)
      → IsCell am d i c
      → IsCell am d' i c
  unfolding contains
  IsCell-keep d d' i c same h =
      let refls = beq_refl ⦃e = am.ids⦄ in
      record {
        fields = h.fields;
        node_obj = same i.obj (ground (arith, refls i.obj)) ∙ h.node_obj;
        get_id = h.get_id;
        get_cell_type = h.get_cell_type;
        get_execution_count = h.get_execution_count;
        get_source = h.get_source;
        get_outputs = h.get_outputs;
        node_source = same i.source (ground (arith, refls i.source)) ∙ h.node_source;
        node_outputs = same i.outputs (ground (arith, refls i.outputs)) ∙ h.node_outputs;
      }

  pub AreCells-keep :
      (d d' : Doc) (ps : List (Held am))
      → ((p : ObjId) → has (all_owned am ps) p ≡ true → node d' p ≡ node d p)
      → AreCells am d ps
      → AreCells am d' ps
  unfolding contains
  AreCells-keep d d' [] same h = tt
  AreCells-keep d d' ((i, c) ∷ ps) same h = (
    IsCell-keep d d' i c
        (λ p own.
          same p
            (ground (arith, own, contains-append ⦃e = am.ids⦄ (owned am i) (all_owned am ps) p)))
        (h.0),
    AreCells-keep d d' ps
        (λ p own.
          same p
            (ground (arith, own, contains-append ⦃e = am.ids⦄ (owned am i) (all_owned am ps) p)))
        (h.1),
  )

  pub AreCells-split :
      (d : Doc) (before : List (Held am)) (i : CellIds ObjId) (c : CellSnapshot)
      (after : List (Held am))
      → AreCells am d (before ++ (i, c) ∷ after)
      → AreCells am d before × IsCell am d i c × AreCells am d after
  AreCells-split d [] i c after h = (tt, h.0, h.1)
  AreCells-split d ((j, b) ∷ before) i c after h =
      let r = AreCells-split d before i c after (h.1) in ((h.0, r.0), r.1, r.2)

  pub AreCells-join :
      (d : Doc) (before after : List (Held am))
      → AreCells am d before
      → AreCells am d after
      → AreCells am d (before ++ after)
  AreCells-join d [] after h g = g
  AreCells-join d ((j, b) ∷ before) after h g = (h.0, AreCells-join d before after (h.1) g)

  pub all_owned-append :
      (before after : List (Held am))
      → all_owned am (before ++ after) ≡ all_owned am before ++ all_owned am after
  all_owned-append [] after = refl
  all_owned-append ((j, b) ∷ before) after =
      ap (λ xs. owned am j ++ xs) (all_owned-append before after)

  pub objects-same :
      (before : List (Held am)) (i j : CellIds ObjId) (b c : CellSnapshot) (after : List (Held am))
      → j.obj ≡ i.obj
      → objects am (before ++ (j, b) ∷ after) ≡ objects am (before ++ (i, c) ∷ after)
  objects-same [] i j b c after e = ap (λ o. object map_type o ∷ objects am after) e
  objects-same ((k, a) ∷ before) i j b c after e =
      ap (◌∷◌ (object map_type k.obj)) (objects-same before i j b c after e)

  -- Each object that holds a cell is there.
  pub AreCells-present :
      (d : Doc) (ps : List (Held am)) (p : ObjId)
      → AreCells am d ps
      → has (all_owned am ps) p ≡ true
      → is_some (node d p) ≡ true
  unfolding contains
  AreCells-present d [] p h own = ground (arith, own)
  AreCells-present d ((i, c) ∷ ps) p h own =
      let cell = h.0 in
      let there : (o : ObjId) (n : Node ObjId)
          → node d o ≡ some n
          → am.ids.same o p ≡ true
          → is_some (node d p) ≡ true =
        λ o n g e. ap (λ q. is_some (node d q)) (sym (beq→eq ⦃e = am.ids⦄ o p e)) ∙ ap is_some g in
      elim (Bool-cases (am.ids.same i.obj p)) [
        | inl e ↦ there i.obj _ cell.node_obj e
        | inr not_obj ↦ elim (Bool-cases (am.ids.same i.source p)) [
          | inl e ↦ there i.source _ cell.node_source e
          | inr not_source ↦ elim (Bool-cases (am.ids.same i.outputs p)) [
            | inl e ↦ there i.outputs _ cell.node_outputs e
            | inr not_outputs ↦
                AreCells-present d ps p (h.1)
                  (ground (arith, own, not_obj, not_source, not_outputs))
          ]
        ]
      ]

  pub Holds-present :
      (d : Doc) (ps : List (Held am)) (h : Holds am d ps) (p : ObjId)
      → has (root ∷ h.cells_id ∷ all_owned am ps) p ≡ true
      → is_some (node d p) ≡ true
  unfolding contains
  Holds-present d ps h p own = elim (Bool-cases (am.ids.same root p)) [
    | inl e ↦
        ap (λ q. is_some (node d q)) (sym (beq→eq ⦃e = am.ids⦄ root p e)) ∙ ap is_some h.node_root
    | inr not_root ↦ elim (Bool-cases (am.ids.same h.cells_id p)) [
      | inl e ↦
          ap (λ q. is_some (node d q)) (sym (beq→eq ⦃e = am.ids⦄ h.cells_id p e))
          ∙ ap is_some h.node_cells
      | inr not_cells ↦
          AreCells-present d ps p h.are_cells (ground (arith, own, not_root, not_cells))
    ]
  ]

  -- An object that is not there holds nothing.
  pub Holds-fresh :
      (d : Doc) (ps : List (Held am)) (h : Holds am d ps) (p : ObjId)
      → node d p ≡ none
      → has (root ∷ h.cells_id ∷ all_owned am ps) p ≡ false
  Holds-fresh d ps h p absent_ = elim (Bool-cases (has (root ∷ h.cells_id ∷ all_owned am ps) p)) [
    | inl own ↦ ground (arith, Holds-present d ps h p own, absent_)
    | inr free ↦ free
  ]
