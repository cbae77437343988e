-- ===== src/NotebookDoc/Display.antt =====
-- `update_output_by_display_id` of notebook_doc.rs: the search through the outputs of all cells, which
-- writes the first output that has the display id. JSON text is a parameter.
use runt.Prelude.{
  ℕ, zero, suc, ◌+◌, ◌<◌, String, Bool, true, false, Option, none, some, List, [], ◌∷◌, ◌++◌, ◌==◌,
  string_eq, is_some, length, map_some, get_elem?, if◌then◌else◌, ◌≡◌, ◌⊎◌, inl, inr, refl, ap, sym,
  ◌∙◌, subst, arith, Option-cases,
}
use runt.Prelude.Structures.{option_eq}
use runt.Prelude.Options.{and_then, or_else}
use runt.Prelude.Positions.{change_at}
use runt.Prelude.Map.{Map}
use runt.Prelude.Map
use runt.Json.{Json}
use runt.Automerge.{Automerge, Result, done, in_list, length_of, size}
use runt.NotebookDoc.{
  CellSnapshot, as_string, read_str_at, cells_list_id, cell_at_index, list_id, then_true,
}
use runt.NotebookDoc.Ranges.{Follows, get_elem-Follows}
use runt.NotebookDoc.View.{
  CellIds, Held, strings, objects, snapshots, at_object, IsCell, AreCells, Holds,
  cells_list_id-Holds, list_id-IsCell,
}
use runt.NotebookDoc.Frame.{AreCells-split}
use runt.NotebookDoc.Change.{Distinct-owned, Holds-change}
use runt.NotebookDoc.Edits.{then_true-of, outputs_written}
use runt.NotebookDoc.Objects.{length-strings}
use runt.NotebookDoc.Outputs.{with_replaced, put_at_law}

-- A loop over `start..start + n` that returns at the first index that gives something.
abbrev pub find_map_in : {B : Type 0} → (ℕ → Option B) → ℕ → ℕ → Option B
find_map_in f zero i = none
find_map_in f (suc n) i = or_else (f i) (find_map_in f n (suc i))

-- The first element that gives something.
abbrev pub find_map : {A B : Type 0} → (A → Option B) → List A → Option B
find_map f [] = none
find_map f (x ∷ xs) = or_else (f x) (find_map f xs)

find_map_in-Follows :
    {A B : Type 0} (f : ℕ → Option B) (g : A → Option B) (xs : List A) (i : ℕ)
    → Follows f g xs i
    → find_map_in f (length xs) i ≡ find_map g xs
find_map_in-Follows f g [] i h = refl
find_map_in-Follows f g (x ∷ xs) i h =
    ap (λ o. or_else o (find_map_in f (length xs) (suc i))) (h.0)
    ∙ ap (or_else (g x)) (find_map_in-Follows f g xs (suc i) (h.1))

-- The place of the first output that is updated, counted from a place, and its new text.
abbrev pub find_output : (String → Option String) → ℕ → List String → Option (ℕ × String)
find_output update i [] = none
find_output update i (s ∷ ss) =
    or_else (map_some (λ t. (i, t)) (update s)) (find_output update (suc i) ss)

find_output_in :
    (read : ℕ → Option String) (update : String → Option String) (ss : List String) (i : ℕ)
    → Follows (λ k. and_then (read k) update) update ss i
    → find_map_in (λ k. map_some (λ t. (k, t)) (and_then (read k) update)) (length ss) i
      ≡ find_output update i ss
find_output_in read update [] i h = refl
find_output_in read update (s ∷ ss) i h =
    let rest =
      find_map_in (λ k. map_some (λ t. (k, t)) (and_then (read k) update)) (length ss) (suc i) in
    ap (λ o. or_else (map_some (λ t. (i, t)) o) rest) (h.0)
    ∙ ap (or_else (map_some (λ t. (i, t)) (update s))) (find_output_in read update ss (suc i) (h.1))

find_output_bound :
    (update : String → Option String) (i k : ℕ) (t : String) (ss : List String)
    → find_output update i ss ≡ some (k, t)
    → k < i + length ss
find_output_bound update i k t [] h = ground arith
find_output_bound update i k t (s ∷ ss) h = elim (Option-cases (update s)) [
  | inl other ↦
      let rest = find_output_bound update (suc i) k t ss (ground (arith, h, other)) in
      omega (arith, rest)
  | inr (u, here) ↦ ground (arith, h, here)
]

-- The first cell with an output that is updated.
abbrev pub change_display : (String → Option String) → List CellSnapshot → List CellSnapshot
change_display update [] = []
change_display update (c ∷ cs) = elim (find_output update 0 c.outputs) [
  | none ↦ c ∷ change_display update cs
  | some (k, t) ↦ record c { outputs = change_at (λ _. t) k c.outputs } ∷ cs
]

abbrev pub has_display : (String → Option String) → List CellSnapshot → Bool
has_display update cs = is_some (find_map (λ c. find_output update 0 c.outputs) cs)

-- What becomes of an output: its data and metadata, if it has the display id, which only an object
-- has.
unfoldable pub updated_output :
    (json : Json)
    → (String → Option json.Value)
    → (json.Value → String)
    → String
    → json.Value
    → Map String json.Value
    → String
    → Option String
updated_output json from_str to_string display_id new_data new_metadata output_str =
    and_then (from_str output_str) (λ output_json.
      let found =
        and_then (and_then (json.get "transient" output_json) (json.get "display_id"))
          json.as_str in
      if found == some display_id
      then map_some
          (λ m. to_string (
            json.object
              (Map.insert "metadata" (json.object new_metadata) (Map.insert "data" new_data m))))
          (json.as_object output_json)
      else none)

module _ (am : Automerge) where
  open am use {Doc, ObjId, root, node}

  -- The loop over the outputs, and the loop over the cells. They write nothing before they return.
  abbrev pub output_in : (String → Option String) → Doc → ObjId → Option (ObjId × (ℕ × String))
  output_in update d l =
      map_some (λ found. (l, found))
        (find_map_in (λ k. map_some (λ t. (k, t)) (and_then (read_str_at am d l k) update))
          (length_of am d l) 0)

  abbrev pub output_of : (String → Option String) → Doc → ObjId → Option (ObjId × (ℕ × String))
  output_of update d cell_obj = and_then (list_id am d cell_obj "outputs") (output_in update d)

  abbrev pub output_found : (String → Option String) → Doc → ObjId → Option (ObjId × (ℕ × String))
  output_found update d cells_id =
      find_map_in (λ i. and_then (cell_at_index am d cells_id i) (output_of update d))
        (length_of am d cells_id) 0

  unfoldable pub update_output : (String → Option String) → Doc → Result Bool × Doc
  update_output update d = elim (cells_list_id am d) [
    | none ↦ (done false, d)
    | some cells_id ↦ elim (output_found update d cells_id) [
      | none ↦ (done false, d)
      | some (outputs_id, (k, t)) ↦ then_true am (am.put_at outputs_id k t d)
    ]
  ]

  abbrev pub update_output_by_display_id :
      (json : Json)
      → (String → Option json.Value)
      → (json.Value → String)
      → String
      → json.Value
      → Map String json.Value
      → Doc
      → Result Bool × Doc
  unfolding update_output
  update_output_by_display_id json from_str to_string display_id new_data new_metadata =
      update_output (updated_output json from_str to_string display_id new_data new_metadata)

  module _ (update : String → Option String) where
    -- Among the cells that a document holds.
    abbrev output_held : Held am → Option (ObjId × (ℕ × String))
    output_held (i, c) = map_some (λ found. (i.outputs, found)) (find_output update 0 c.outputs)

    Follows-strings :
        (ss : List String) (f : ℕ → Option String) (i : ℕ)
        → Follows f (λ v. and_then (as_string am (some v)) update) (strings am ss) i
        → Follows f update ss i
    Follows-strings [] f i h = tt
    Follows-strings (s ∷ ss) f i h = (h.0, Follows-strings ss f (suc i) (h.1))

    output_in-held :
        (d : Doc) (i : CellIds ObjId) (c : CellSnapshot)
        → IsCell am d i c
        → output_of update d i.obj ≡ output_held (i, c)
    unfolding read_str_at
    output_in-held d i c h =
        ap (λ o. and_then o (output_in update d)) (list_id-IsCell am d i c h)
        ∙ ap (map_some (λ found. (i.outputs, found))) (
            ap
              (λ n.
                find_map_in
                  (λ k. map_some (λ t. (k, t)) (and_then (as_string am (in_list am k n)) update))
                  (size am n) 0)
              h.node_outputs
            ∙ ap
                (λ n.
                  find_map_in
                    (λ k.
                      map_some (λ t. (k, t))
                        (and_then (as_string am (get_elem? (strings am c.outputs) k)) update))
                    n 0)
                (length-strings am c.outputs)
            ∙ find_output_in (λ k. as_string am (get_elem? (strings am c.outputs) k)) update
                c.outputs 0
                (Follows-strings c.outputs _ 0 (
                  get_elem-Follows (λ o. and_then (as_string am o) update) (strings am c.outputs))))

    find_map-objects :
        (d : Doc) (ps : List (Held am))
        → AreCells am d ps
        → find_map (λ v. at_object am (output_of update d) (some v)) (objects am ps)
          ≡ find_map output_held ps
    find_map-objects d [] h = refl
    find_map-objects d ((i, c) ∷ ps) h =
        ap
          (λ o.
            or_else o (find_map (λ v. at_object am (output_of update d) (some v)) (objects am ps)))
          (output_in-held d i c (h.0))
        ∙ ap (or_else (output_held (i, c))) (find_map-objects d ps (h.1))

    output_found-held :
        (d : Doc) (ps : List (Held am)) (h : Holds am d ps)
        → output_found update d h.cells_id ≡ find_map output_held ps
    unfolding cell_at_index
    output_found-held d ps h =
        ap
          (λ n. find_map_in (λ i. at_object am (output_of update d) (in_list am i n)) (size am n) 0)
          h.node_cells
        ∙ find_map_in-Follows (λ i. at_object am (output_of update d) (get_elem? (objects am ps) i))
            (λ v. at_object am (output_of update d) (some v)) (objects am ps) 0
            (get_elem-Follows (at_object am (output_of update d)) (objects am ps))
        ∙ find_map-objects d ps h.are_cells

    -- No cell has an output that is updated, or the first such cell and output.
    record IsMissed (ps : List (Held am)) : Type 0 where
      missed : find_map output_held ps ≡ none
      unchanged : change_display update (snapshots am ps) ≡ snapshots am ps
      no_display : has_display update (snapshots am ps) ≡ false

    record IsHit (ps : List (Held am)) : Type 0 where
      before : List (Held am)
      ids : CellIds ObjId
      cell : CellSnapshot
      after : List (Held am)
      place : ℕ
      text : String
      split : ps ≡ before ++ (ids, cell) ∷ after
      within : place < length cell.outputs
      hit : find_map output_held ps ≡ some (ids.outputs, (place, text))
      changed :
          change_display update (snapshots am ps)
          ≡ snapshots am (before ++ (ids, with_replaced am place text cell) ∷ after)
      display : has_display update (snapshots am ps) ≡ true

    search_cases : (ps : List (Held am)) → IsMissed ps ⊎ IsHit ps
    search_cases [] = inl (record { missed = refl; unchanged = refl; no_display = refl })
    search_cases ((i, c) ∷ ps) = elim (Option-cases (find_output update 0 c.outputs)) [
      | inl other ↦ elim (search_cases ps) [
        | inl m ↦ inl (record {
          missed = ground (arith, m.missed, other);
          unchanged = ground (arith, m.unchanged, other);
          no_display = ground (arith, m.no_display, other);
        })
        | inr w ↦ inr (record {
          before = (i, c) ∷ w.before;
          ids = w.ids;
          cell = w.cell;
          after = w.after;
          place = w.place;
          text = w.text;
          split = ap (◌∷◌ (i, c)) w.split;
          within = w.within;
          hit = ground (arith, w.hit, other);
          changed = ground (arith, w.changed, other);
          display = ground (arith, w.display, other);
        })
      ]
      | inr ((k, t), here) ↦
          let bound = find_output_bound update 0 k t c.outputs here in
          inr (record {
            before = [];
            ids = i;
            cell = c;
            after = ps;
            place = k;
            text = t;
            split = refl;
            within = omega (arith, bound);
            hit = ground (arith, here);
            changed = ground (arith, here);
            display = ground (arith, here);
          })
    ]

    -- The calls of the update, once the search has an answer.
    abbrev act : Doc → Option (ObjId × (ℕ × String)) → Result Bool × Doc
    act d none = (done false, d)
    act d (some (outputs_id, (k, t))) = then_true am (am.put_at outputs_id k t d)

    update_output-act :
        (d : Doc) (ps : List (Held am))
        → Holds am d ps
        → update_output update d ≡ act d (find_map output_held ps)
    unfolding update_output
    update_output-act d ps h =
        ap
          (λ o. elim o [
            | none ↦ (done false, d)
            | some cells_id ↦ act d (output_found update d cells_id)
          ])
          (cells_list_id-Holds am d ps h)
        ∙ ap (act d) (output_found-held d ps h)

    -- A result and a document that holds the cells after the update.
    pub record Displays (r : Result Bool × Doc) (cs : List CellSnapshot) : Type 0 where
      pub held : List (Held am)
      pub holds : Holds am r.1 held
      pub cells_are : snapshots am held ≡ change_display update cs
      pub result_is : r.0 ≡ done (has_display update cs)

    -- The first output that the update applies to, in the order of the cells and of their outputs, is
    -- written in its place, and nothing else is changed; the result says whether there is one.
    pub update_output-Displays :
        (d : Doc) (ps : List (Held am))
        → Holds am d ps
        → Displays (update_output update d) (snapshots am ps)
    update_output-Displays d ps h = elim (search_cases ps) [
      | inl m ↦
          let e = update_output-act d ps h ∙ ap (act d) m.missed in
          record {
            held = ps;
            holds = subst (λ x. Holds am x ps) (sym (ap (λ x. x.1) e)) h;
            cells_are = sym m.unchanged;
            result_is = ap (λ x. x.0) e ∙ ap done (sym m.no_display);
          }
      | inr w ↦
          let h' = subst (Holds am d) w.split h in
          let cell = (AreCells-split am d w.before w.ids w.cell w.after h'.are_cells).1 in
          let apart = Distinct-owned am w.before w.ids w.cell w.after (h'.distinct.1.1) in
          let call = am.put_at w.ids.outputs w.place w.text d in
          let law =
            put_at_law am d w.ids.outputs w.cell.outputs w.place w.text cell.node_outputs
              w.within in
          let (keeps, cell') =
            outputs_written am d (call.1) w.ids w.cell _
              (change_at (λ _. w.text) w.place w.cell.outputs) apart cell (law.1) refl in
          let e = update_output-act d ps h ∙ ap (act d) w.hit ∙ then_true-of am call (law.0) in
          let new = with_replaced am w.place w.text w.cell in
          record {
            held = w.before ++ (w.ids, new) ∷ w.after;
            holds =
                subst (λ x. Holds am x (w.before ++ (w.ids, new) ∷ w.after)) (sym (ap (λ x. x.1) e))
                  (Holds-change am d (call.1) w.before w.ids w.cell new w.after w.ids.outputs h'
                    keeps (inl refl) cell');
            cells_are = sym w.changed;
            result_is = ap (λ x. x.0) e ∙ ap done (sym w.display);
          }
    ]
