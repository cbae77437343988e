-- ===== src/NotebookDoc/View.antt =====
-- The cells that a document stands for: which objects hold them, and what is read of them.
use runt.Prelude.{
  ℕ, suc, ◌+◌, String, Bool, Option, none, some, List, [], ◌∷◌, ◌++◌, ◌==◌, string_eq,
  if◌then◌else◌, unwrap_or, map_some, get_elem?, ◌≡◌, refl, ap, ◌∙◌, arith,
}
use runt.Prelude.Distinct.{Distinct}
use runt.Prelude.Structures.{option_eq}
use runt.Prelude.Options.{and_then}
use runt.Prelude.Positions.{position, filter_map}
use runt.Prelude.Map.{Map}
use runt.Prelude.Map
use runt.Automerge.{
  map_type, list_type, text_type, Value, str, object, map_node, list_node, text_node, Automerge,
  get_at, in_list, in_map, length_of, size,
}
use runt.NotebookDoc.{
  CellSnapshot, as_object, as_string, read_str, read_str_at, cells_list_id, cell_at_index, text_id,
  list_id, find_cell_index, read_cell, get_cells,
}
use runt.NotebookDoc.Ranges.{
  find_in, collect_in, find_in-position, collect_in-filter_map, get_elem-Follows,
}

pub record CellIds (ObjId : Type 0) : Type 0 where
  pub obj : ObjId
  pub source : ObjId
  pub outputs : ObjId

from_start : (o : Option ℕ) → map_some (λ j. 0 + j) o ≡ o
from_start none = refl
from_start (some j) = let e : 0 + j ≡ j = omega arith in ap some e

module _ (am : Automerge) where
  open am use {Doc, ObjId, root, node}

  abbrev pub Held : Type 0
  Held = CellIds ObjId × CellSnapshot

  abbrev pub strings : List String → List (Value ObjId)
  strings [] = []
  strings (s ∷ ss) = str s ∷ strings ss

  abbrev pub objects : List Held → List (Value ObjId)
  objects [] = []
  objects ((i, c) ∷ ps) = object map_type i.obj ∷ objects ps

  abbrev pub snapshots : List Held → List CellSnapshot
  snapshots [] = []
  snapshots ((i, c) ∷ ps) = c ∷ snapshots ps

  -- The objects that hold a cell.
  abbrev pub owned : CellIds ObjId → List ObjId
  owned i = i.obj ∷ i.source ∷ i.outputs ∷ []

  abbrev pub all_owned : List Held → List ObjId
  all_owned [] = []
  all_owned ((i, c) ∷ ps) = owned i ++ all_owned ps

  pub record IsCell (d : Doc) (i : CellIds ObjId) (c : CellSnapshot) : Type 0 where
    pub fields : Map String (Value ObjId)
    pub node_obj : node d i.obj ≡ some (map_node fields)
    pub get_id : Map.get "id" fields ≡ some (str c.id)
    pub get_cell_type : Map.get "cell_type" fields ≡ some (str c.cell_type)
    pub get_execution_count : Map.get "execution_count" fields ≡ some (str c.execution_count)
    pub get_source : Map.get "source" fields ≡ some (object text_type i.source)
    pub get_outputs : Map.get "outputs" fields ≡ some (object list_type i.outputs)
    pub node_source : node d i.source ≡ some (text_node c.source)
    pub node_outputs : node d i.outputs ≡ some (list_node (strings c.outputs))

  abbrev pub AreCells : Doc → List Held → Type 0
  AreCells d [] = Unit
  AreCells d ((i, c) ∷ ps) = IsCell d i c × AreCells d ps

  -- A document holds cells: the list of cells stands under its key, and no object is used twice.
  pub record Holds (d : Doc) (ps : List Held) : Type 0 where
    pub entries : Map String (Value ObjId)
    pub cells_id : ObjId
    pub node_root : node d root ≡ some (map_node entries)
    pub get_cells_id : Map.get "cells" entries ≡ some (object list_type cells_id)
    pub node_cells : node d cells_id ≡ some (list_node (objects ps))
    pub are_cells : AreCells d ps
    pub distinct : Distinct ⦃e = am.ids⦄ (root ∷ cells_id ∷ all_owned ps)

  pub cells_list_id-Holds :
      (d : Doc) (ps : List Held) (h : Holds d ps) → cells_list_id am d ≡ some h.cells_id
  unfolding cells_list_id
  cells_list_id-Holds d ps h =
      ap (λ n. as_object am list_type (in_map am "cells" n)) h.node_root
      ∙ ap (as_object am list_type) h.get_cells_id

  -- A field that is a string, and the identifier of an object under a key.
  read_field :
      (d : Doc) (o : ObjId) (k s : String) (m : Map String (Value ObjId))
      → node d o ≡ some (map_node m)
      → Map.get k m ≡ some (str s)
      → read_str am d o k ≡ some s
  unfolding read_str
  read_field d o k s m n g = ap (λ n. as_string am (in_map am k n)) n ∙ ap (as_string am) g

  pub text_id-IsCell :
      (d : Doc) (i : CellIds ObjId) (c : CellSnapshot) (h : IsCell d i c)
      → text_id am d i.obj "source" ≡ some i.source
  unfolding text_id
  text_id-IsCell d i c h =
      ap (λ n. as_object am text_type (in_map am "source" n)) h.node_obj
      ∙ ap (as_object am text_type) h.get_source

  pub list_id-IsCell :
      (d : Doc) (i : CellIds ObjId) (c : CellSnapshot) (h : IsCell d i c)
      → list_id am d i.obj "outputs" ≡ some i.outputs
  unfolding list_id
  list_id-IsCell d i c h =
      ap (λ n. as_object am list_type (in_map am "outputs" n)) h.node_obj
      ∙ ap (as_object am list_type) h.get_outputs

  pub read_str-IsCell :
      (d : Doc) (i : CellIds ObjId) (c : CellSnapshot) (h : IsCell d i c)
      → read_str am d i.obj "id" ≡ some c.id
  read_str-IsCell d i c h = read_field d i.obj "id" c.id h.fields h.node_obj h.get_id

  filter_map-strings :
      (ss : List String) → filter_map (λ v. as_string am (some v)) (strings ss) ≡ ss
  filter_map-strings [] = refl
  filter_map-strings (s ∷ ss) = ap (◌∷◌ s) (filter_map-strings ss)

  read_outputs :
      (d : Doc) (l : ObjId) (outputs : List String)
      → node d l ≡ some (list_node (strings outputs))
      → collect_in (read_str_at am d l) (length_of am d l) 0 ≡ outputs
  unfolding read_str_at
  read_outputs d l outputs h =
      ap (λ n. collect_in (λ i. as_string am (in_list am i n)) (size am n) 0) h
      ∙ collect_in-filter_map (λ i. as_string am (get_elem? (strings outputs) i))
          (λ v. as_string am (some v)) (strings outputs) 0
          (get_elem-Follows (as_string am) (strings outputs))
      ∙ filter_map-strings outputs

  pub read_cell-IsCell :
      (d : Doc) (i : CellIds ObjId) (c : CellSnapshot) (h : IsCell d i c)
      → read_cell am d i.obj ≡ some c
  unfolding read_cell
  read_cell-IsCell d i c h =
      rw
        (
          read_cell,
          read_str-IsCell d i c h,
          read_field d i.obj "cell_type" c.cell_type h.fields h.node_obj h.get_cell_type,
          read_field d i.obj "execution_count" c.execution_count h.fields h.node_obj
              h.get_execution_count,
          text_id-IsCell d i c h,
          h.node_source,
          list_id-IsCell d i c h,
          read_outputs d i.outputs c.outputs h.node_outputs,
        )
        refl

  -- What is read at the index of a cell is what its object gives.
  abbrev pub at_object : {B : Type 0} → (ObjId → Option B) → Option (Value ObjId) → Option B
  at_object f v = and_then (as_object am map_type v) f

  filter_map-objects :
      (d : Doc) (ps : List Held)
      → AreCells d ps
      → filter_map (λ v. at_object (read_cell am d) (some v)) (objects ps) ≡ snapshots ps
  filter_map-objects d [] h = refl
  filter_map-objects d ((i, c) ∷ ps) h =
      let rest = filter_map (λ v. at_object (read_cell am d) (some v)) (objects ps) in
      ap (λ (o : Option CellSnapshot). elim o [ none ↦ rest | some y ↦ y ∷ rest ])
        (read_cell-IsCell d i c (h.0))
      ∙ ap (◌∷◌ c) (filter_map-objects d ps (h.1))

  -- The cells that a document holds are the ones that are read from it.
  pub get_cells-Holds : (d : Doc) (ps : List Held) → Holds d ps → get_cells am d ≡ snapshots ps
  unfolding get_cells cell_at_index
  get_cells-Holds d ps h =
      ap
        (λ o.
          unwrap_or
            (map_some
              (λ cells_id.
                collect_in (λ i. at_object (read_cell am d) (get_at am d cells_id i))
                  (length_of am d cells_id) 0)
              o)
            [])
        (cells_list_id-Holds d ps h)
      ∙ ap (λ n. collect_in (λ i. at_object (read_cell am d) (in_list am i n)) (size am n) 0)
          h.node_cells
      ∙ collect_in-filter_map (λ i. at_object (read_cell am d) (get_elem? (objects ps) i))
          (λ v. at_object (read_cell am d) (some v)) (objects ps) 0
          (get_elem-Follows (at_object (read_cell am d)) (objects ps))
      ∙ filter_map-objects d ps h.are_cells

  abbrev pub has_id : String → Held → Bool
  has_id id (i, c) = c.id == id

  position-objects :
      (d : Doc) (id : String) (ps : List Held)
      → AreCells d ps
      → position (λ v. at_object (λ o. read_str am d o "id") (some v) == some id) (objects ps)
        ≡ position (has_id id) ps
  position-objects d id [] h = refl
  position-objects d id ((i, c) ∷ ps) h =
      ap
        (λ s.
          if s == some id
          then some 0
          else map_some suc (
              position (λ v. at_object (λ o. read_str am d o "id") (some v) == some id)
                (objects ps)))
        (read_str-IsCell d i c (h.0))
      ∙ ap (λ r. if c.id == id then some 0 else map_some suc r) (position-objects d id ps (h.1))

  -- The search by identifier is the search among the cells.
  pub find_cell_index-Holds :
      (d : Doc) (ps : List Held) (h : Holds d ps) (id : String)
      → find_cell_index am d h.cells_id id ≡ position (has_id id) ps
  unfolding find_cell_index cell_at_index
  find_cell_index-Holds d ps h id =
      let read : Option (Value ObjId) → Bool =
        λ v. at_object (λ o. read_str am d o "id") v == some id in
      ap (λ n. find_in (λ i. read (in_list am i n)) (size am n) 0) h.node_cells
      ∙ find_in-position (λ i. read (get_elem? (objects ps) i)) (λ v. read (some v)) (objects ps) 0
          (get_elem-Follows read (objects ps))
      ∙ from_start (position (λ v. read (some v)) (objects ps))
      ∙ position-objects d id ps h.are_cells
