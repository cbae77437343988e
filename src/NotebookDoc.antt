-- ===== src/NotebookDoc.antt =====
-- crates/runtimed/src/notebook_doc.rs: the notebook document, by its calls of automerge, which is an
-- interface. A call that fails leaves what was done before it. Files and synchronization are left out.
pub mod Ranges
pub mod View
pub mod Frame
pub mod Change
pub mod Located
pub mod Objects
pub mod Edits
pub mod Outputs
pub mod Streams
pub mod Replaced
pub mod Deleted
pub mod Added
pub mod Refinement
mod Bare
pub mod Display
mod Tests
use runt.Prelude.{
  ℕ, zero, suc, ◌+◌, String, Bool, true, false, not, ◌&&◌, Option, none, some, List, [], ◌∷◌, ◌++◌,
  ◌==◌, nat_eq, string_eq, PartialEq, ltb, if◌then◌else◌, min, unwrap_or, map_some,
}
use runt.Prelude.Structures.{option_eq}
use runt.Prelude.Options.{and_then}
use runt.Prelude.Map
use runt.Automerge.{
  AutomergeError, invalid_obj_id, Result, done, failed, ObjType, map_type, list_type, text_type,
  Value, str, scalar, object, Automerge, then_, get, get_at, length_of, text_in,
}
use runt.NotebookDoc.Ranges.{find_in, collect_in}

pub record CellSnapshot : Type 0 where
  pub id : String
  pub cell_type : String
  pub source : String
  pub execution_count : String
  pub outputs : List String

-- stream_terminal.rs: the output that a stream wrote last.
pub record StreamOutputState : Type 0 where
  pub index : ℕ
  pub manifest_hash : String

abbrev pub state_index : Option StreamOutputState → ℕ
state_index none = 0
state_index (some state) = state.index

module _ (am : Automerge) where
  open am use {Doc, ObjId, root}

  abbrev pub as_object : ObjType → Option (Value ObjId) → Option ObjId
  as_object list_type (some (object list_type id)) = some id
  as_object map_type (some (object map_type id)) = some id
  as_object text_type (some (object text_type id)) = some id
  as_object _ _ = none

  abbrev pub as_string : Option (Value ObjId) → Option String
  as_string (some (str s)) = some s
  as_string _ = none

  -- `read_str`, by key and by index.
  unfoldable pub read_str : Doc → ObjId → String → Option String
  read_str d o k = as_string (get am d o k)

  unfoldable pub read_str_at : Doc → ObjId → ℕ → Option String
  read_str_at d o i = as_string (get_at am d o i)

  unfoldable pub cells_list_id : Doc → Option ObjId
  cells_list_id d = as_object list_type (get am d root "cells")

  unfoldable pub metadata_map_id : Doc → Option ObjId
  metadata_map_id d = as_object map_type (get am d root "metadata")

  unfoldable pub cell_at_index : Doc → ObjId → ℕ → Option ObjId
  cell_at_index d cells_id i = as_object map_type (get_at am d cells_id i)

  unfoldable pub text_id : Doc → ObjId → String → Option ObjId
  text_id d parent key = as_object text_type (get am d parent key)

  unfoldable pub list_id : Doc → ObjId → String → Option ObjId
  list_id d parent key = as_object list_type (get am d parent key)

  -- Whether the cell at an index has an identifier.
  abbrev pub is_cell_at : Doc → ObjId → String → ℕ → Bool
  is_cell_at d cells_id cell_id i =
      and_then (cell_at_index d cells_id i) (λ o. read_str d o "id") == some cell_id

  unfoldable pub find_cell_index : Doc → ObjId → String → Option ℕ
  find_cell_index d cells_id cell_id =
      find_in (is_cell_at d cells_id cell_id) (length_of am d cells_id) 0

  unfoldable pub read_cell : Doc → ObjId → Option CellSnapshot
  read_cell d o =
      map_some
        (λ id. record {
          id = id;
          cell_type = unwrap_or (read_str d o "cell_type") "";
          source = unwrap_or (and_then (text_id d o "source") (λ t. text_in am (am.node d t))) "";
          execution_count = unwrap_or (read_str d o "execution_count") "null";
          outputs =
              unwrap_or
                (map_some (λ l. collect_in (read_str_at d l) (length_of am d l) 0)
                  (list_id d o "outputs"))
                [];
        })
        (read_str d o "id")

  unfoldable pub notebook_id : Doc → Option String
  notebook_id d = read_str d root "notebook_id"

  unfoldable pub cell_count : Doc → ℕ
  cell_count d = unwrap_or (map_some (length_of am d) (cells_list_id d)) 0

  unfoldable pub get_cells : Doc → List CellSnapshot
  get_cells d =
      unwrap_or
        (map_some
          (λ cells_id.
            collect_in (λ i. and_then (cell_at_index d cells_id i) (read_cell d))
              (length_of am d cells_id) 0)
          (cells_list_id d))
        []

  -- The object of a cell, in the list of cells.
  abbrev pub cell_object : Doc → String → Option ObjId
  cell_object d cell_id =
      and_then (cells_list_id d)
        (λ cells_id. and_then (find_cell_index d cells_id cell_id) (cell_at_index d cells_id))

  unfoldable pub get_cell : Doc → String → Option CellSnapshot
  get_cell d cell_id = and_then (cell_object d cell_id) (read_cell d)

  unfoldable pub get_metadata : Doc → String → Option String
  get_metadata d key = and_then (metadata_map_id d) (λ meta_id. read_str d meta_id key)

  -- An error that is ignored (`let _ =`).
  abbrev pub ignored : {A : Type 0} → Result A × Doc → Doc
  ignored r = r.1

  -- `if let Ok(id) = ...`.
  abbrev pub if_done : {A : Type 0} → Result A × Doc → (A → Doc → Doc) → Doc
  if_done (done a, d) f = f a d
  if_done (failed e, d) f = d

  unfoldable pub new : String → Doc
  new notebook_id =
      let d = ignored (am.put root "notebook_id" notebook_id am.new) in
      let d = ignored (am.put_object root "cells" list_type d) in
      if_done (am.put_object root "metadata" map_type d)
        (λ meta_id d. ignored (am.put meta_id "runtime" "python" d))

  -- `Ok(false)` without one of the objects, or else a call that ends in `Ok(true)`.
  abbrev pub or_false : Option ObjId → Doc → (ObjId → Result Bool × Doc) → Result Bool × Doc
  or_false none d f = (done false, d)
  or_false (some o) d f = f o

  abbrev pub then_true : Result Unit × Doc → Result Bool × Doc
  then_true r = then_ r (λ _ d. (done true, d))

  -- The calls of `add_cell` on the new object.
  unfoldable pub fill : ObjId → String → String → Doc → Result Unit × Doc
  fill cell_map cell_id cell_type d = then_ (am.put cell_map "id" cell_id d) (λ _ d.
      then_ (am.put cell_map "cell_type" cell_type d) (λ _ d.
        then_ (am.put_object cell_map "source" text_type d) (λ _ d.
          then_ (am.put cell_map "execution_count" "null" d)
            (λ _ d. then_ (am.put_object cell_map "outputs" list_type d) (λ _ d. (done tt, d))))))

  unfoldable pub add_cell : ℕ → String → String → Doc → Result Unit × Doc
  add_cell index cell_id cell_type d = elim (cells_list_id d) [
    | none ↦ (failed (invalid_obj_id "cells list not found"), d)
    | some cells_id ↦
        then_ (am.insert_object cells_id (min index (length_of am d cells_id)) map_type d)
          (λ cell_map d. fill cell_map cell_id cell_type d)
  ]

  unfoldable pub delete_cell : String → Doc → Result Bool × Doc
  delete_cell cell_id d = elim (cells_list_id d) [
    | none ↦ (done false, d)
    | some cells_id ↦ elim (find_cell_index d cells_id cell_id) [
      | none ↦ (done false, d)
      | some idx ↦ then_true (am.delete_at cells_id idx d)
    ]
  ]

  unfoldable pub update_source : String → String → Doc → Result Bool × Doc
  update_source cell_id new_source d = or_false (cell_object d cell_id) d (λ cell_obj.
      or_false (text_id d cell_obj "source") d
        (λ source_id. then_true (am.update_text source_id new_source d)))

  -- The loop of `set_outputs`.
  unfoldable pub insert_outputs : ObjId → ℕ → List String → Doc → Result Bool × Doc
  insert_outputs list_id i [] d = (done true, d)
  insert_outputs list_id i (output ∷ outputs) d =
      then_ (am.insert list_id i output d) (λ _ d. insert_outputs list_id (suc i) outputs d)

  unfoldable pub set_outputs : String → List String → Doc → Result Bool × Doc
  set_outputs cell_id outputs d = or_false (cell_object d cell_id) d (λ cell_obj.
      then_ (am.put_object cell_obj "outputs" list_type (ignored (am.delete cell_obj "outputs" d)))
        (λ list_id d. insert_outputs list_id 0 outputs d))

  unfoldable pub clear_outputs : String → Doc → Result Bool × Doc
  clear_outputs cell_id = set_outputs cell_id []

  unfoldable pub append_output : String → String → Doc → Result Bool × Doc
  append_output cell_id output d = or_false (cell_object d cell_id) d (λ cell_obj.
      or_false (list_id d cell_obj "outputs") d
        (λ outputs_id. then_true (am.insert outputs_id (length_of am d outputs_id) output d)))

  -- Whether the output that the stream wrote is still the last one, as it was written.
  abbrev pub is_valid_state : Doc → ObjId → Option StreamOutputState → Bool
  is_valid_state d outputs_id none = false
  is_valid_state d outputs_id (some state) =
      state.index + 1 == length_of am d outputs_id
      && read_str_at d outputs_id state.index == some state.manifest_hash

  abbrev pub or_none :
      Option ObjId → Doc → (ObjId → Result (Bool × ℕ) × Doc) → Result (Bool × ℕ) × Doc
  or_none none d f = (done (false, 0), d)
  or_none (some o) d f = f o

  unfoldable pub upsert_stream_output :
      String → String → Option StreamOutputState → Doc → Result (Bool × ℕ) × Doc
  upsert_stream_output cell_id output_ref known_state d =
      or_none (cell_object d cell_id) d (λ cell_obj.
        or_none (list_id d cell_obj "outputs") d (λ outputs_id.
          let output_count = length_of am d outputs_id in
          if is_valid_state d outputs_id known_state
          then then_ (am.put_at outputs_id (state_index known_state) output_ref d)
              (λ _ d. (done (true, state_index known_state), d))
          else then_ (am.insert outputs_id output_count output_ref d)
              (λ _ d. (done (false, output_count), d))))

  unfoldable pub replace_output : String → ℕ → String → Doc → Result Bool × Doc
  replace_output cell_id output_idx new_output d = or_false (cell_object d cell_id) d (λ cell_obj.
      or_false (list_id d cell_obj "outputs") d (λ outputs_id.
        if ltb output_idx (length_of am d outputs_id)
        then then_true (am.put_at outputs_id output_idx new_output d)
        else (done false, d)))

  unfoldable pub set_execution_count : String → String → Doc → Result Bool × Doc
  set_execution_count cell_id count d =
      or_false (cell_object d cell_id) d
        (λ cell_obj. then_true (am.put cell_obj "execution_count" count d))

  unfoldable pub set_metadata : String → String → Doc → Result Unit × Doc
  set_metadata key value d = elim (metadata_map_id d) [
    | none ↦
        then_ (am.put_object root "metadata" map_type d)
          (λ id d. then_ (am.put id key value d) (λ _ d. (done tt, d)))
    | some meta_id ↦ then_ (am.put meta_id key value d) (λ _ d. (done tt, d))
  ]

  -- The outputs of a cell with their places, and of all cells.
  abbrev pub outputs_of : Doc → ObjId → List (String × (ℕ × String))
  outputs_of d cell_obj =
      unwrap_or
        (and_then (read_str d cell_obj "id") (λ cell_id.
          map_some
            (λ outputs_id.
              collect_in (λ i. map_some (λ s. (cell_id, (i, s))) (read_str_at d outputs_id i))
                (length_of am d outputs_id) 0)
            (list_id d cell_obj "outputs")))
        []

  abbrev pub concat : {A : Type 0} → List (List A) → List A
  concat [] = []
  concat (xs ∷ xss) = xs ++ concat xss

  unfoldable pub get_all_outputs : Doc → List (String × (ℕ × String))
  get_all_outputs d =
      unwrap_or
        (map_some
          (λ cells_id. concat (
            collect_in (λ i. map_some (outputs_of d) (cell_at_index d cells_id i))
              (length_of am d cells_id) 0))
          (cells_list_id d))
        []
