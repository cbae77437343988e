-- ===== src/NotebookDoc/Added.antt =====
-- `add_cell`: the document holds a new empty cell at the index, or at the end if it is beyond.
use runt.Prelude.{
  ℕ, zero, suc, ◌≤◌, min, String, true, false, Option, none, some, List, [], ◌∷◌, ◌++◌, string_eq,
  PartialEq, is_some, if◌then◌else◌, length, take, drop, take-append-drop, contains, ◌≡◌, inl, inr,
  refl, ap, sym, ◌∙◌, subst, arith, Option-cases, ◌==◌, beq_refl,
}
use runt.Prelude.Distinct.{Distinct, contains-append}
use runt.Prelude.Positions.{insert_at}
use runt.Prelude.Map.{Map, get-insert, get-nil}
use runt.Prelude.Map
use runt.Automerge.{
  Automerge, Result, done, failed, invalid_obj_id, ObjType, map_type, list_type, text_type, Value,
  str, object, map_node, list_node, empty_node, then_, then-of, length_of, size,
}
use runt.NotebookDoc.{CellSnapshot, fill, add_cell}
use runt.NotebookDoc.View.{
  CellIds, Held, all_owned, objects, snapshots, IsCell, AreCells, Holds, cells_list_id-Holds,
}
use runt.NotebookDoc.Frame.{
  has, AreCells-keep, AreCells-join, AreCells-present, Holds-fresh, all_owned-append,
}
use runt.NotebookDoc.Objects.{same_sym, has_apart}
use runt.NotebookDoc.Replaced.{there_apart}

-- A new element in a list of which no element stands twice.
module _ {ℓ} {A : Type ℓ} ⦃e : PartialEq A⦄ where
  Distinct-insert :
      (xs : List A) (a : A) (ys : List A)
      → Distinct (xs ++ ys)
      → contains (xs ++ ys) a ≡ false
      → Distinct (xs ++ a ∷ ys)
  unfolding contains
  Distinct-insert [] a ys d h = (h, d)
  Distinct-insert (x ∷ xs) a ys d h = ground (
    arith,
    Distinct-insert xs a ys (d.1),
    contains-append xs ys x,
    contains-append xs (a ∷ ys) x,
    e.same_iff a x,
    e.same_iff x a,
    d.0,
    h,
  )

  contains_inserted :
      (xs : List A) (a : A) (ys : List A) (b : A)
      → contains (xs ++ ys) b ≡ false
      → e.same a b ≡ false
      → contains (xs ++ a ∷ ys) b ≡ false
  unfolding contains
  contains_inserted xs a ys b h other =
      ground (arith, contains-append xs ys b, contains-append xs (a ∷ ys) b, h, other)

module _ (am : Automerge) where
  open am use {Doc, ObjId, root, node}

  -- The objects that are there stay, but one.
  abbrev pub Stays : Doc → Doc → ObjId → Type 0
  Stays d d' o =
      (p : ObjId) → am.ids.same p o ≡ false → is_some (node d p) ≡ true → node d' p ≡ node d p

  Stays_then : (d d' d'' : Doc) (o : ObjId) → Stays d d' o → Stays d' d'' o → Stays d d'' o
  Stays_then d d' d'' o s t p other there =
      let kept = s p other there in t p other (ap is_some kept ∙ there) ∙ kept

  -- A string in the new object.
  pub put_step :
      (d : Doc) (o : ObjId) (k s : String) (fields : Map String (Value ObjId))
      → node d o ≡ some (map_node fields)
      → ((am.put o k s d).0 ≡ done tt)
        × (node (am.put o k s d).1 o ≡ some (map_node (Map.insert k (str s) fields)))
        × Stays d (am.put o k s d).1 o
  put_step d o k s fields h =
      let law = am.node-put o k s d fields h in
      (
        law.0,
        ground (arith, law.1 o, beq_refl ⦃e = am.ids⦄ o),
        λ p other there. ground (arith, law.1 p, other),
      )

  -- An object in the new object.
  pub put_object_step :
      (d : Doc) (o : ObjId) (k : String) (type : ObjType) (fields : Map String (Value ObjId))
      → node d o ≡ some (map_node fields)
      → (fresh : ObjId) × (node d fresh ≡ none)
        × ((am.put_object o k type d).0 ≡ done fresh)
        × (node (am.put_object o k type d).1 o
            ≡ some (map_node (Map.insert k (object type fresh) fields)))
        × (node (am.put_object o k type d).1 fresh ≡ some (empty_node type))
        × Stays d (am.put_object o k type d).1 o
  put_object_step d o k type fields h =
      let (fresh, free, made, law) = am.node-put_object o k type d fields h in
      let apart = there_apart am d o fresh (ap is_some h) free in
      let refls = beq_refl ⦃e = am.ids⦄ in
      (
        fresh,
        free,
        made,
        ground (arith, law o, refls o),
        ground (arith, law fresh, refls fresh, same_sym am o fresh apart),
        λ p other there. ground (arith, law p, other, there_apart am d p fresh there free),
      )

  abbrev pub empty_cell : String → String → CellSnapshot
  empty_cell id cell_type = record {
    id = id;
    cell_type = cell_type;
    source = "";
    execution_count = "null";
    outputs = [];
  }

  -- An object that is not there after steps that let the others stay was not there before.
  absent_before :
      (d d' : Doc) (o p : ObjId)
      → Stays d d' o
      → am.ids.same p o ≡ false
      → node d' p ≡ none
      → node d p ≡ none
  absent_before d d' o p stays other free = elim (Option-cases (node d p)) [
    | inl none_ ↦ none_
    | inr (n, there) ↦ ground (arith, stays p other (ap is_some there), there, free)
  ]

  abbrev pub cell_fields : String → String → ObjId → ObjId → Map String (Value ObjId)
  cell_fields id cell_type s l = Map.insert "outputs" (object list_type l) (
      Map.insert "execution_count" (str "null") (
        Map.insert "source" (object text_type s)
          (Map.insert "cell_type" (str cell_type) (Map.insert "id" (str id) []))))

  five_fields :
      (k id cell_type : String) (s l : ObjId)
      → Map.get k (cell_fields id cell_type s l) ≡ (
          if "outputs" == k
          then some (object list_type l)
          else if "execution_count" == k
          then some (str "null")
          else if "source" == k
          then some (object text_type s)
          else if "cell_type" == k
          then some (str cell_type)
          else if "id" == k
          then some (str id)
          else none)
  five_fields k id cell_type s l =
      rw (get-insert, get-insert, get-insert, get-insert, get-insert, get-nil) refl

  -- The calls on the new object.
  filled :
      (d : Doc) (o : ObjId) (id cell_type : String)
      → node d o ≡ some (map_node [])
      → (s : ObjId) × (l : ObjId) × (d' : Doc) × (fill am o id cell_type d ≡ (done tt, d'))
        × (node d s ≡ none)
        × (node d l ≡ none)
        × (am.ids.same s l ≡ false)
        × (am.ids.same o s ≡ false)
        × (am.ids.same o l ≡ false)
        × Stays d d' o
        × IsCell am d' (record { obj = o; source = s; outputs = l }) (empty_cell id cell_type)
  unfolding fill
  filled d o id cell_type h =
      let c1 = am.put o "id" id d in
      let (r1, n1, t1) = put_step d o "id" id [] h in
      let c2 = am.put o "cell_type" cell_type c1.1 in
      let (r2, n2, t2) = put_step c1.1 o "cell_type" cell_type _ n1 in
      let c3 = am.put_object o "source" text_type c2.1 in
      let (s, free_s, r3, n3, text, t3) = put_object_step c2.1 o "source" text_type _ n2 in
      let c4 = am.put o "execution_count" "null" c3.1 in
      let (r4, n4, t4) = put_step c3.1 o "execution_count" "null" _ n3 in
      let c5 = am.put_object o "outputs" list_type c4.1 in
      let (l, free_l, r5, n5, list, t5) = put_object_step c4.1 o "outputs" list_type _ n4 in
      let to2 = Stays_then d c1.1 c2.1 o t1 t2 in
      let to4 = Stays_then d c3.1 c4.1 o (Stays_then d c2.1 c3.1 o to2 t3) t4 in
      let o_s = there_apart am c2.1 o s (ap is_some n2) free_s in
      let o_l = there_apart am c4.1 o l (ap is_some n4) free_l in
      let s_o = same_sym am o s o_s in
      let text4 = t4 s s_o (ap is_some text) ∙ text in
      let s_l = there_apart am c4.1 s l (ap is_some text4) free_l in
      (
        s,
        l,
        c5.1,
        then-of c1 _ tt r1
            ∙ then-of c2 _ tt r2
            ∙ then-of c3 _ s r3
            ∙ then-of c4 _ tt r4
            ∙ then-of c5 _ l r5,
        absent_before d c2.1 o s to2 s_o free_s,
        absent_before d c4.1 o l to4 (same_sym am o l o_l) free_l,
        s_l,
        o_s,
        o_l,
        Stays_then d c4.1 c5.1 o to4 t5,
        record {
          fields = _;
          node_obj = n5;
          get_id = five_fields "id" id cell_type s l;
          get_cell_type = five_fields "cell_type" id cell_type s l;
          get_execution_count = five_fields "execution_count" id cell_type s l;
          get_source = five_fields "source" id cell_type s l;
          get_outputs = five_fields "outputs" id cell_type s l;
          node_source = t5 s s_o (ap is_some text4) ∙ text4;
          node_outputs = list;
        },
      )

  objects-insert :
      (k : ℕ) (ps : List (Held am)) (i : CellIds ObjId) (c : CellSnapshot)
      → insert_at k (object map_type i.obj) (objects am ps)
        ≡ objects am (take k ps ++ (i, c) ∷ drop k ps)
  objects-insert zero ps i c = refl
  objects-insert (suc k) [] i c = refl
  objects-insert (suc k) ((j, b) ∷ ps) i c =
      ap (◌∷◌ (object map_type j.obj)) (objects-insert k ps i c)

  snapshots-insert :
      (k : ℕ) (ps : List (Held am)) (i : CellIds ObjId) (c : CellSnapshot)
      → snapshots am (take k ps ++ (i, c) ∷ drop k ps) ≡ insert_at k c (snapshots am ps)
  snapshots-insert zero ps i c = refl
  snapshots-insert (suc k) [] i c = refl
  snapshots-insert (suc k) ((j, b) ∷ ps) i c = ap (◌∷◌ b) (snapshots-insert k ps i c)

  length-objects : (ps : List (Held am)) → length (objects am ps) ≡ length ps
  length-objects [] = refl
  length-objects ((j, b) ∷ ps) = ap suc (length-objects ps)

  length-snapshots : (ps : List (Held am)) → length (snapshots am ps) ≡ length ps
  length-snapshots [] = refl
  length-snapshots ((j, b) ∷ ps) = ap suc (length-snapshots ps)

  cut_owned :
      (k : ℕ) (ps : List (Held am))
      → all_owned am ps ≡ all_owned am (take k ps) ++ all_owned am (drop k ps)
  cut_owned k ps =
      ap (all_owned am) (sym (take-append-drop k ps)) ∙ all_owned-append am (take k ps) (drop k ps)

  AreCells-cut :
      (d : Doc) (k : ℕ) (ps : List (Held am))
      → AreCells am d ps
      → AreCells am d (take k ps) × AreCells am d (drop k ps)
  AreCells-cut d zero ps h = (tt, h)
  AreCells-cut d (suc k) [] h = (tt, tt)
  AreCells-cut d (suc k) ((j, b) ∷ ps) h = let r = AreCells-cut d k ps (h.1) in ((h.0, r.0), r.1)

  -- The objects of a new cell among those of a document.
  Distinct-added :
      (xs ys : List ObjId) (o s l : ObjId)
      → Distinct ⦃e = am.ids⦄ (xs ++ ys)
      → has am (xs ++ ys) o ≡ false
      → has am (xs ++ ys) s ≡ false
      → has am (xs ++ ys) l ≡ false
      → am.ids.same o s ≡ false
      → am.ids.same o l ≡ false
      → am.ids.same s l ≡ false
      → Distinct ⦃e = am.ids⦄ (xs ++ o ∷ s ∷ l ∷ ys)
  Distinct-added xs ys o s l d fo fs fl os ol sl =
      let dl = Distinct-insert ⦃e = am.ids⦄ xs l ys d fl in
      let ls = contains_inserted ⦃e = am.ids⦄ xs l ys s fs (same_sym am s l sl) in
      let ds = Distinct-insert ⦃e = am.ids⦄ xs s (l ∷ ys) dl ls in
      let lo = contains_inserted ⦃e = am.ids⦄ xs l ys o fo (same_sym am o l ol) in
      let so = contains_inserted ⦃e = am.ids⦄ xs s (l ∷ ys) o lo (same_sym am o s os) in
      Distinct-insert ⦃e = am.ids⦄ xs o (s ∷ l ∷ ys) ds so

  -- The new list of cells, with the new cell's objects.
  Holds-add :
      (d d' : Doc) (ps : List (Held am)) (h : Holds am d ps) (k : ℕ) (i : CellIds ObjId)
      (c : CellSnapshot)
      → node d i.obj ≡ none
      → node d i.source ≡ none
      → node d i.outputs ≡ none
      → am.ids.same i.obj i.source ≡ false
      → am.ids.same i.obj i.outputs ≡ false
      → am.ids.same i.source i.outputs ≡ false
      → node d' h.cells_id ≡ some (list_node (insert_at k (object map_type i.obj) (objects am ps)))
      → Stays d d' h.cells_id
      → IsCell am d' i c
      → Holds am d' (take k ps ++ (i, c) ∷ drop k ps)
  unfolding contains
  Holds-add d d' ps h k i c fo fs fl os ol sl cells stays cell =
      let (cells_before, cells_after) = AreCells-cut d k ps h.are_cells in
      let first = all_owned am (take k ps) in
      let later = all_owned am (drop k ps) in
      let whole : List ObjId → Type 0 = λ xs. Distinct ⦃e = am.ids⦄ (root ∷ h.cells_id ∷ xs) in
      let root_apart : am.ids.same root h.cells_id ≡ false =
        same_sym am h.cells_id root (ground (arith, h.distinct.0)) in
      let in_all : (p : ObjId) → has am (all_owned am ps) p ≡ has am (first ++ later) p =
        λ p. ap (λ xs. has am xs p) (cut_owned k ps) in
      let apart : (p : ObjId)
          → has am (all_owned am ps) p ≡ true
          → am.ids.same p h.cells_id ≡ false =
        λ p own.
          same_sym am h.cells_id p
            (has_apart am (all_owned am ps) h.cells_id p (h.distinct.1.0) own) in
      let free : (p : ObjId)
          → node d p ≡ none
          → has am (root ∷ h.cells_id ∷ (first ++ later)) p ≡ false =
        λ p absent_.
          ap (λ xs. has am (root ∷ h.cells_id ∷ xs) p) (sym (cut_owned k ps))
          ∙ Holds-fresh am d ps h p absent_ in
      record {
        entries = h.entries;
        cells_id = h.cells_id;
        node_root = stays root root_apart (ap is_some h.node_root) ∙ h.node_root;
        get_cells_id = h.get_cells_id;
        node_cells = cells ∙ ap (λ vs. some (list_node vs)) (objects-insert k ps i c);
        are_cells =
            AreCells-join am d' (take k ps) ((i, c) ∷ drop k ps)
              (AreCells-keep am d d' (take k ps)
                (λ p own.
                  stays p
                    (apart p
                      (ground (arith, own, in_all p, contains-append ⦃e = am.ids⦄ first later p)))
                    (AreCells-present am d (take k ps) p cells_before own))
                cells_before)
              (
                cell,
                AreCells-keep am d d' (drop k ps)
                    (λ p own.
                      stays p
                        (apart p (
                          ground
                            (arith, own, in_all p, contains-append ⦃e = am.ids⦄ first later p)))
                        (AreCells-present am d (drop k ps) p cells_after own))
                    cells_after,
              );
        distinct = subst whole (sym (all_owned-append am (take k ps) ((i, c) ∷ drop k ps))) (
            Distinct-added (root ∷ h.cells_id ∷ first) later i.obj i.source i.outputs
              (subst whole (cut_owned k ps) h.distinct) (free i.obj fo) (free i.source fs)
              (free i.outputs fl) os ol sl);
      }

  -- A result and a document that holds the cells with a new one at an index.
  pub record Inserts (r : Result Unit × Doc) (k : ℕ) (c : CellSnapshot) (cells : List CellSnapshot)
      : Type 0 where
    pub held : List (Held am)
    pub holds : Holds am (r.1) held
    pub cells_are : snapshots am held ≡ insert_at k c cells
    pub result_is : r.0 ≡ done tt

  -- The new cell stands at the index, or at the end if the index is beyond, and is empty; the call
  -- succeeds.
  pub add_cell-Inserts :
      (d : Doc) (ps : List (Held am)) (index : ℕ) (id cell_type : String)
      → Holds am d ps
      → Inserts
          (add_cell am index id cell_type d)
          (min index (length (snapshots am ps)))
          (empty_cell id cell_type)
          (snapshots am ps)
  unfolding add_cell
  add_cell-Inserts d ps index id cell_type h =
      let k = min index (length (snapshots am ps)) in
      let next : ObjId → Doc → Result Unit × Doc = λ cell_map d. fill am cell_map id cell_type d in
      let at : ObjId → ℕ → Result Unit × Doc =
        λ l n. then_ (am.insert_object l (min index n) map_type d) next in
      let body : Option ObjId → Result Unit × Doc = λ o. elim o [
        | none ↦ (failed (invalid_obj_id "cells list not found"), d)
        | some l ↦ at l (length_of am d l)
      ] in
      let lengths = length-objects ps ∙ sym (length-snapshots ps) in
      let bound : k ≤ length (objects am ps) = omega (arith, lengths) in
      let call = am.insert_object h.cells_id k map_type d in
      let (o, free_o, made, law) =
        am.node-insert_object h.cells_id k map_type d (objects am ps) h.node_cells bound in
      let refls = beq_refl ⦃e = am.ids⦄ in
      let cells_o = there_apart am d h.cells_id o (ap is_some h.node_cells) free_o in
      let o_cells = same_sym am h.cells_id o cells_o in
      let vs = insert_at k (object map_type o) (objects am ps) in
      let cells1 : node (call.1) h.cells_id ≡ some (list_node vs) =
        ground (arith, law h.cells_id, refls h.cells_id) in
      let o1 : node (call.1) o ≡ some (map_node []) = ground (arith, law o, o_cells, refls o) in
      let (s, l, d', filled_, free_s, free_l, s_l, o_s, o_l, stays, cell) =
        filled (call.1) o id cell_type o1 in
      let old : (p : ObjId)
          → am.ids.same p h.cells_id ≡ false
          → am.ids.same p o ≡ false
          → node (call.1) p ≡ node d p =
        λ p a b. ground (arith, law p, a, b) in
      let new : (p : ObjId) → am.ids.same o p ≡ false → node (call.1) p ≡ none → node d p ≡ none =
        λ p other free.
          sym (
            old p
              (same_sym am h.cells_id p
                (there_apart am (call.1) h.cells_id p (ap is_some cells1) free))
              (same_sym am o p other))
          ∙ free in
      let e =
        ap body (cells_list_id-Holds am d ps h)
        ∙ ap (at h.cells_id) (ap (size am) h.node_cells ∙ lengths)
        ∙ then-of call next o made
        ∙ filled_ in
      let i : CellIds ObjId = record { obj = o; source = s; outputs = l } in
      let c = empty_cell id cell_type in
      record {
        held = take k ps ++ (i, c) ∷ drop k ps;
        holds =
            subst (λ x. Holds am x (take k ps ++ (i, c) ∷ drop k ps)) (sym (ap (λ x. x.1) e))
              (Holds-add d d' ps h k i c free_o (new s o_s free_s) (new l o_l free_l) o_s o_l s_l
                (stays h.cells_id cells_o (ap is_some cells1) ∙ cells1)
                (λ p other there.
                  let p_o = there_apart am d p o there free_o in
                  let kept = old p other p_o in stays p p_o (ap is_some kept ∙ there) ∙ kept)
                cell);
        cells_are = snapshots-insert k ps i c;
        result_is = ap (λ x. x.0) e;
      }
