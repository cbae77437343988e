-- ===== src/NotebookDoc/Bare.antt =====
-- The functions of notebook_doc.rs on a bare document, which the sync client holds; they repeat methods
-- of `NotebookDoc`.
use runt.Prelude.{String, Option, none, some, List, [], map_some, unwrap_or, ◌≡◌, refl, ap, ◌∙◌}
use mathlib.Core.Path.{fun_ext}
use runt.Prelude.Options.{and_then}
use runt.Automerge.{
  Automerge, Result, done, map_type, list_type, text_type, then_, get, get_at, length_of, text_in,
}
use runt.NotebookDoc.Ranges.{collect_in}
use runt.NotebookDoc.{
  CellSnapshot, as_object, read_str, read_str_at, cells_list_id, metadata_map_id, cell_at_index,
  text_id, list_id, read_cell, get_cells, get_metadata, set_metadata,
}

match_or :
    {A B : Type 0} (f : A → B) (b : B) (o : Option A)
    → (elim o [ none ↦ b | some a ↦ f a ]) ≡ unwrap_or (map_some f o) b
match_or f b none = refl
match_or f b (some a) = refl

and_then-some :
    {A B : Type 0} (f : A → B) (o : Option A) → and_then o (λ a. some (f a)) ≡ map_some f o
and_then-some f none = refl
and_then-some f (some a) = refl

module _ (am : Automerge) where
  open am use {Doc, ObjId, root}

  unfoldable get_metadata_from_doc : Doc → String → Option String
  unfolding read_str
  get_metadata_from_doc d key =
      and_then (as_object am map_type (get am d root "metadata"))
        (λ meta_id. read_str am d meta_id key)

  unfoldable set_metadata_in_doc : String → String → Doc → Result Unit × Doc
  set_metadata_in_doc key value d = elim (as_object am map_type (get am d root "metadata")) [
    | none ↦
        then_ (am.put_object root "metadata" map_type d)
          (λ meta_id d. then_ (am.put meta_id key value d) (λ _ d. (done tt, d)))
    | some meta_id ↦ then_ (am.put meta_id key value d) (λ _ d. (done tt, d))
  ]

  -- One cell of `get_cells_from_doc`.
  unfoldable cell_from_doc : Doc → ObjId → Option CellSnapshot
  unfolding read_str read_str_at
  cell_from_doc d cell_obj = and_then (read_str am d cell_obj "id") (λ id.
      let source =
        unwrap_or
          (and_then (as_object am text_type (get am d cell_obj "source"))
            (λ t. text_in am (am.node d t)))
          "" in
      let outputs : List String = elim (as_object am list_type (get am d cell_obj "outputs")) [
        | none ↦ []
        | some l ↦ collect_in (read_str_at am d l) (length_of am d l) 0
      ] in
      some (record {
        id = id;
        cell_type = unwrap_or (read_str am d cell_obj "cell_type") "";
        source = source;
        execution_count = unwrap_or (read_str am d cell_obj "execution_count") "null";
        outputs = outputs;
      }))

  unfoldable get_cells_from_doc : Doc → List CellSnapshot
  unfolding cell_from_doc
  get_cells_from_doc d = elim (as_object am list_type (get am d root "cells")) [
    | none ↦ []
    | some cells_id ↦
        collect_in
          (λ i. and_then (as_object am map_type (get_at am d cells_id i)) (cell_from_doc d))
          (length_of am d cells_id) 0
  ]

  -- The client reads the cell of an object as the daemon does.
  cell_from_doc-read_cell : (d : Doc) (o : ObjId) → cell_from_doc d o ≡ read_cell am d o
  unfolding cell_from_doc read_cell text_id list_id
  cell_from_doc-read_cell d o =
      let with_outputs : List String → String → CellSnapshot = λ outputs id. record {
        id = id;
        cell_type = unwrap_or (read_str am d o "cell_type") "";
        source =
            unwrap_or
              (and_then (as_object am text_type (get am d o "source"))
                (λ t. text_in am (am.node d t)))
              "";
        execution_count = unwrap_or (read_str am d o "execution_count") "null";
        outputs = outputs;
      } in
      let read : ObjId → List String = λ l. collect_in (read_str_at am d l) (length_of am d l) 0 in
      ap (λ outputs. and_then (read_str am d o "id") (λ id. some (with_outputs outputs id)))
        (match_or read [] (as_object am list_type (get am d o "outputs")))
      ∙ and_then-some
          (with_outputs
            (unwrap_or (map_some read (as_object am list_type (get am d o "outputs"))) []))
          (read_str am d o "id")

  -- The client reads the same cells from a document as the daemon.
  get_cells_from_doc-get_cells : (d : Doc) → get_cells_from_doc d ≡ get_cells am d
  unfolding get_cells_from_doc get_cells cells_list_id cell_at_index
  get_cells_from_doc-get_cells d =
      let read : (ObjId → Option CellSnapshot) → ObjId → List CellSnapshot = λ cell cells_id.
        collect_in (λ i. and_then (as_object am map_type (get_at am d cells_id i)) cell)
          (length_of am d cells_id) 0 in
      match_or (read (cell_from_doc d)) [] (as_object am list_type (get am d root "cells"))
      ∙ ap
          (λ cell.
            unwrap_or (map_some (read cell) (as_object am list_type (get am d root "cells"))) [])
          (fun_ext (cell_from_doc-read_cell d))

  -- The client reads and writes the metadata of a document as the daemon does.
  in_doc-metadata :
      (key value : String) (d : Doc)
      → (get_metadata_from_doc d key ≡ get_metadata am d key)
        × (set_metadata_in_doc key value d ≡ set_metadata am key value d)
  unfolding get_metadata_from_doc get_metadata set_metadata_in_doc set_metadata metadata_map_id
  in_doc-metadata key value d = (refl, refl)
