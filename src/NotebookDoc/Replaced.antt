-- ===== src/NotebookDoc/Replaced.antt =====
-- `set_outputs`: the old list of outputs is deleted, and a new one is made and filled.
use runt.Prelude.{
  ℕ, suc, String, Bool, true, false, none, some, List, [], ◌∷◌, ◌++◌, ◌==◌, nat_eq, string_eq,
  is_some, length, ◌≡◌, inl, inr, refl, ap, sym, ◌∙◌, subst, arith, Bool-cases, beq_refl, beq→eq,
}
use runt.Prelude.Map.{Map, get-insert, get-remove}
use runt.Prelude.Map
use runt.Automerge.{
  Automerge, Result, done, map_node, list_node, Value, object, list_type, then_, then-of,
}
use runt.NotebookDoc.{cell_object, insert_outputs, set_outputs}
use runt.NotebookDoc.View.{CellIds, Held, owned, snapshots, strings, IsCell, Holds}
use runt.NotebookDoc.Change.{with_outputs, Keeps}
use runt.NotebookDoc.Located.{Changes, change_one}
use runt.NotebookDoc.Edits.{found_it, or_false-none, or_false-some, append_law, with_outputs_of}
use runt.NotebookDoc.Objects.{Writes-here, Writes-away, Distinct-AreApart, same_sym, has_apart}

module _ (am : Automerge) where
  open am use {Doc, ObjId, node}

  append_assoc :
      (xs : List String) (y : String) (ys : List String) → (xs ++ y ∷ []) ++ ys ≡ xs ++ y ∷ ys
  append_assoc [] y ys = refl
  append_assoc (x ∷ xs) y ys = ap (◌∷◌ x) (append_assoc xs y ys)

  append_nil : (xs : List String) → xs ++ [] ≡ xs
  append_nil [] = refl
  append_nil (x ∷ xs) = ap (◌∷◌ x) (append_nil xs)

  length-snoc : (xs : List String) (x : String) → suc (length xs) ≡ length (xs ++ x ∷ [])
  length-snoc [] x = refl
  length-snoc (y ∷ xs) x = ap suc (length-snoc xs x)

  -- The loop puts the outputs behind those that are there.
  insert_outputs-law :
      (d : Doc) (o : ObjId) (before outputs : List String) (k : ℕ)
      → node d o ≡ some (list_node (strings am before))
      → k ≡ length before
      → ((insert_outputs am o k outputs d).0 ≡ done true)
        × ((p : ObjId)
            → am.ids.same p o ≡ false
            → node (insert_outputs am o k outputs d).1 p ≡ node d p)
        × (node (insert_outputs am o k outputs d).1 o
            ≡ some (list_node (strings am (before ++ outputs))))
  unfolding insert_outputs
  insert_outputs-law d o before [] k h e = (
    refl,
    λ p other. refl,
    h ∙ ap (λ xs. some (list_node (strings am xs))) (sym (append_nil before)),
  )
  insert_outputs-law d o before (s ∷ ss) k h e =
      let call = am.insert o k s d in
      let law = append_law am d o before k s h e in
      let n = list_node (strings am (before ++ s ∷ [])) in
      let step = then-of call (λ _ d. insert_outputs am o (suc k) ss d) tt (law.0) in
      let rest =
        insert_outputs-law (call.1) o (before ++ s ∷ []) ss (suc k)
          (Writes-here am d (call.1) o n (law.1)) (ap suc e ∙ length-snoc before s) in
      (
        ap (λ r. r.0) step ∙ rest.0,
        λ p other.
            ap (λ r. node (r.1) p) step
            ∙ rest.1 p other
            ∙ Writes-away am d (call.1) o n p (law.1) other,
        ap (λ r. node (r.1) o) step
            ∙ rest.2
            ∙ ap (λ xs. some (list_node (strings am xs))) (append_assoc before s ss),
      )

  replaced_call :
      (d : Doc) (o : ObjId) (outputs : List String) (fresh : ObjId) (x : Result ObjId × Doc)
      → x.0 ≡ done fresh
      → then_ x (λ list_id d. insert_outputs am list_id 0 outputs d)
        ≡ insert_outputs am fresh 0 outputs (x.1)
  replaced_call d o outputs fresh x h =
      then-of x (λ list_id d. insert_outputs am list_id 0 outputs d) fresh h

  -- An object that is there is not one that is new.
  pub there_apart :
      (d : Doc) (p fresh : ObjId)
      → is_some (node d p) ≡ true
      → node d fresh ≡ none
      → am.ids.same p fresh ≡ false
  there_apart d p fresh there free = elim (Bool-cases (am.ids.same p fresh)) [
    | inl e ↦
        ground (arith, there, free, ap (λ q. is_some (node d q)) (beq→eq ⦃e = am.ids⦄ p fresh e))
    | inr other ↦ other
  ]

  -- What a new list of outputs under its key leaves of the objects.
  abbrev pub Relinks :
      Doc → Doc → CellIds ObjId → ObjId → Map String (Value ObjId) → List String → Type 0
  Relinks d d' i fresh fields outputs =
      (node d fresh ≡ none)
      × (node d' i.obj
          ≡ some (
              map_node
                (Map.insert "outputs" (object list_type fresh) (Map.remove "outputs" fields))))
      × (node d' fresh ≡ some (list_node (strings am outputs)))
      × ((p : ObjId)
          → am.ids.same p i.obj ≡ false
          → is_some (node d p) ≡ true
          → node d' p ≡ node d p)

  relink :
      (d : Doc) (i : CellIds ObjId) (fields : Map String (Value ObjId)) (outputs : List String)
      → node d i.obj ≡ some (map_node fields)
      → (fresh : ObjId) × (d' : Doc) × (then_
            (am.put_object i.obj "outputs" list_type (am.delete i.obj "outputs" d).1)
            (λ list_id d. insert_outputs am list_id 0 outputs d)
          ≡ (done true, d'))
        × Relinks d d' i fresh fields outputs
  relink d i fields outputs h =
      let d1 = (am.delete i.obj "outputs" d).1 in
      let deleted = am.node-delete i.obj "outputs" d fields h in
      let less = Map.remove "outputs" fields in
      let obj1 = Writes-here am d d1 i.obj (map_node less) deleted in
      let (fresh, free, made, law) = am.node-put_object i.obj "outputs" list_type d1 less obj1 in
      let call = am.put_object i.obj "outputs" list_type d1 in
      let apart = there_apart d1 i.obj fresh (ap is_some obj1) free in
      let refls = beq_refl ⦃e = am.ids⦄ in
      let more = map_node (Map.insert "outputs" (object list_type fresh) less) in
      let fresh2 : node (call.1) fresh ≡ some (list_node []) =
        ground (arith, law fresh, same_sym am i.obj fresh apart, refls fresh) in
      let loop = insert_outputs-law (call.1) fresh [] outputs 0 fresh2 refl in
      let filled = insert_outputs am fresh 0 outputs (call.1) in
      (
        fresh,
        filled.1,
        replaced_call d i.obj outputs fresh call made ∙ ap (λ r. (r, filled.1)) (loop.0),
        (
          sym (
                Writes-away am d d1 i.obj (map_node less) fresh deleted
                  (same_sym am i.obj fresh apart))
              ∙ free,
          loop.1 i.obj apart ∙ ground (arith, law i.obj, refls i.obj),
          loop.2,
          λ p other there.
              let kept = Writes-away am d d1 i.obj (map_node less) p deleted other in
              let away = there_apart d1 p fresh (ap is_some kept ∙ there) free in
              loop.1 p away ∙ ground (arith, law p, other, away) ∙ kept,
        ),
      )

  -- The outputs of the cell that is found are the new ones, in order.
  pub set_outputs-Changes :
      (d : Doc) (ps : List (Held am)) (id : String) (outputs : List String)
      → Holds am d ps
      → Changes am
          (set_outputs am id outputs d)
          false
          found_it
          (with_outputs_of outputs)
          id
          (snapshots am ps)
  unfolding set_outputs
  set_outputs-Changes d ps id outputs h =
      let body : ObjId → Result Bool × Doc = λ o.
        then_ (am.put_object o "outputs" list_type (am.delete o "outputs" d).1)
          (λ list_id d. insert_outputs am list_id 0 outputs d) in
      change_one am d ps h id (set_outputs am id outputs d) false found_it (with_outputs_of outputs)
        (or_false-none am (cell_object am d id) d body)
        (λ i c cell apart found.
          let a = Distinct-AreApart am i apart in
          let (fresh, d', e, (free, obj, filled, kept)) =
            relink d i cell.fields outputs cell.node_obj in
          let fields =
            Map.insert "outputs" (object list_type fresh) (Map.remove "outputs" cell.fields) in
          let get : (k : String)
              → ("outputs" == k) ≡ false
              → Map.get k fields ≡ Map.get k cell.fields =
            λ k other. ground (
              arith,
              get-insert k "outputs" (object list_type fresh) (Map.remove "outputs" cell.fields),
              get-remove k "outputs" cell.fields,
              other,
            ) in
          let whole = or_false-some am (cell_object am d id) d body i.obj found ∙ e in
          let to = sym (ap (λ x. x.1) whole) in
          record {
            outputs = fresh;
            result_is = ap (λ x. x.0) whole;
            keeps =
                subst (λ x. Keeps am d x i) to
                  (λ p away there.
                    kept p (has_apart am (owned am i) p i.obj away a.owns_obj) there);
            is_new = inr free;
            is_cell =
                subst (λ x. IsCell am x (with_outputs am i fresh) (with_outputs_of outputs c)) to
                  (record {
                    fields = fields;
                    node_obj = obj;
                    get_id = get "id" refl ∙ cell.get_id;
                    get_cell_type = get "cell_type" refl ∙ cell.get_cell_type;
                    get_execution_count = get "execution_count" refl ∙ cell.get_execution_count;
                    get_source = get "source" refl ∙ cell.get_source;
                    get_outputs =
                        get-insert "outputs" "outputs" (object list_type fresh)
                          (Map.remove "outputs" cell.fields);
                    node_source =
                        kept i.source (same_sym am i.obj i.source a.obj_source)
                          (ap is_some cell.node_source)
                        ∙ cell.node_source;
                    node_outputs = filled;
                  });
          })
