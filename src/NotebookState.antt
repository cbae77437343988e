-- ===== src/NotebookState.antt =====
-- crates/notebook/src/notebook_state.rs: the notebook of the application, its cells and metadata. The
-- types and the serializer of the crate `nbformat` are parameters, as are random identifiers. An index
-- that is in range is used as the source uses it; out of range it would panic.
pub mod Migration
pub mod Create
pub mod Snapshot
pub mod RoundTrip
pub mod Kinds
pub mod Lines
pub mod Editing
pub mod Session
pub mod Migrated
pub mod Namespaced
mod Tests
use Prim.Native.Char.{Char, code}
use runt.Prelude.{
  ℕ, zero, suc, ◌+◌, ◌-◌, String, Bool, true, false, Option, none, some, List, [], ◌∷◌, ◌==◌,
  string_eq, nat_eq, leb, if◌then◌else◌, length, map, map_some, get_elem?,
}
use runt.Prelude.Positions.{position, change_at, insert_at, remove_at, filter_map}
use runt.Prelude.Map.{Map}
use runt.Json.{Json}

-- `i32`, which the notebook only keeps.
pub data ℤ : Type 0 where
  pos negsuc : ℕ → ℤ

abbrev pub FilePath : Type 0
FilePath = List String

-- What the crate `nbformat` defines, and the source does not open.
pub record Nbformat (json : Json) : Type 1 where
  pub Output : Type 0
  pub CellMetadata : Type 0
  pub empty_cell_metadata : CellMetadata
  -- `serde_json::to_value`.
  pub to_value : Output → Option json.Value

abbrev pub append : String → String → String
append String.[] t = t
append (String.◌∷◌ c cs) t = String.◌∷◌ c (append cs t)

-- `join("")`.
abbrev pub join : List String → String
join [] = ""
join (line ∷ lines) = append line (join lines)

abbrev pub is_newline : Char → Bool
is_newline c = code c == 10

-- A character before the first of the lines.
abbrev pub push_front : Char → List String → List String
push_front c [] = String.◌∷◌ c "" ∷ []
push_front c (line ∷ lines) = String.◌∷◌ c line ∷ lines

abbrev pub split_inclusive : String → List String
split_inclusive String.[] = []
split_inclusive (String.◌∷◌ c cs) =
    let rest = split_inclusive cs in
    if is_newline c then String.◌∷◌ c "" ∷ rest else push_front c rest

unfoldable pub source_to_lines : String → List String
source_to_lines source = if source == "" then [] else split_inclusive source

pub record KernelSpec (Value : Type 0) : Type 0 where
  pub name : String
  pub display_name : String
  pub language : Option String
  pub additional : Map String Value

pub record LanguageInfo (Value : Type 0) : Type 0 where
  pub name : String
  pub version : Option String
  pub codemirror_mode : Option Value
  pub additional : Map String Value

pub record Metadata (Value : Type 0) : Type 0 where
  pub kernelspec : Option (KernelSpec Value)
  pub language_info : Option (LanguageInfo Value)
  pub authors : Option Value
  pub additional : Map String Value

module _ (json : Json) (nb : Nbformat json) where
  open nb use {Output, CellMetadata}

  pub data Cell : Type 0 where
    code_cell : String → CellMetadata → Option ℤ → List String → List Output → Cell
    markdown_cell : String → CellMetadata → List String → Option json.Value → Cell
    raw_cell : String → CellMetadata → List String → Cell

  pub data FrontendCell : Type 0 where
    code_view : String → String → Option ℤ → List json.Value → FrontendCell
    markdown_view : String → String → FrontendCell
    raw_view : String → String → FrontendCell

  pub record Notebook : Type 0 where
    pub metadata : Metadata json.Value
    pub nbformat : ℕ
    pub nbformat_minor : ℕ
    pub cells : List Cell

  pub record NotebookState : Type 0 where
    pub notebook : Notebook
    pub path : Option FilePath
    pub dirty : Bool

  -- `FrontendCell::id`.
  unfoldable pub view_id : FrontendCell → String
  view_id (code_view id source execution_count outputs) = id
  view_id (markdown_view id source) = id
  view_id (raw_view id source) = id

  -- `Cell::id`, `Cell::source`.
  abbrev pub cell_id : Cell → String
  cell_id (code_cell id metadata execution_count source outputs) = id
  cell_id (markdown_cell id metadata source attachments) = id
  cell_id (raw_cell id metadata source) = id

  abbrev pub cell_source : Cell → List String
  cell_source (code_cell id metadata execution_count source outputs) = source
  cell_source (markdown_cell id metadata source attachments) = source
  cell_source (raw_cell id metadata source) = source

  unfoldable pub cell_to_frontend : Cell → FrontendCell
  cell_to_frontend (code_cell id metadata execution_count source outputs) =
      code_view id (join source) execution_count (filter_map nb.to_value outputs)
  cell_to_frontend (markdown_cell id metadata source attachments) = markdown_view id (join source)
  cell_to_frontend (raw_cell id metadata source) = raw_view id (join source)

  unfoldable pub from_notebook : Notebook → FilePath → NotebookState
  from_notebook notebook path = record { notebook = notebook; path = some path; dirty = false }

  abbrev pub cells : NotebookState → List Cell
  cells s = s.notebook.cells

  -- The notebook with other cells.
  abbrev pub with_cells : List Cell → NotebookState → NotebookState
  with_cells cs s = record s { notebook = record (s.notebook) { cells = cs } }

  unfoldable pub cells_for_frontend : NotebookState → List FrontendCell
  unfolding cell_to_frontend
  cells_for_frontend s = map cell_to_frontend (cells s)

  abbrev pub code_id : Cell → Option String
  code_id (code_cell id metadata execution_count source outputs) = some id
  code_id _ = none

  unfoldable pub get_code_cell_ids : NotebookState → List String
  get_code_cell_ids s = filter_map code_id (cells s)

  unfoldable pub find_cell_index : NotebookState → String → Option ℕ
  find_cell_index s id = position (λ c. cell_id c == id) (cells s)

  abbrev pub set_source : List String → Cell → Cell
  set_source lines (code_cell id metadata execution_count source outputs) =
      code_cell id metadata execution_count lines outputs
  set_source lines (markdown_cell id metadata source attachments) =
      markdown_cell id metadata lines attachments
  set_source lines (raw_cell id metadata source) = raw_cell id metadata lines

  unfoldable pub update_cell_source : String → String → NotebookState → NotebookState
  unfolding find_cell_index source_to_lines
  update_cell_source id source s = elim (find_cell_index s id) [
    | none ↦ s
    | some idx ↦
        record (with_cells (change_at (set_source (source_to_lines source)) idx (cells s)) s) {
          dirty = true;
        }
  ]

  unfoldable pub get_cell_source : String → NotebookState → Option String
  unfolding find_cell_index
  get_cell_source id s = elim (find_cell_index s id) [
    | none ↦ none
    | some idx ↦ map_some (λ c. join (cell_source c)) (get_elem? (cells s) idx)
  ]

  -- The cell that `add_cell` makes; `new_id` is the random identifier.
  unfoldable pub new_cell : String → String → Option Cell
  new_cell new_id cell_type =
      if cell_type == "code"
      then some (code_cell new_id nb.empty_cell_metadata none [] [])
      else if cell_type == "markdown"
      then some (markdown_cell new_id nb.empty_cell_metadata [] none)
      else if cell_type == "raw"
      then some (raw_cell new_id nb.empty_cell_metadata [])
      else none

  -- The place of a new cell; none is the end.
  abbrev pub insert_idx : NotebookState → Option String → Option ℕ
  unfolding find_cell_index
  insert_idx s none = some 0
  insert_idx s (some id) = map_some (λ i. i + 1) (find_cell_index s id)

  abbrev pub insert_or_push : Option ℕ → Cell → List Cell → List Cell
  insert_or_push (some idx) cell cs = insert_at idx cell cs
  insert_or_push none cell cs = insert_at (length cs) cell cs

  unfoldable pub add_cell :
      String → String → Option String → NotebookState → Option FrontendCell × NotebookState
  unfolding new_cell cell_to_frontend
  add_cell new_id cell_type after_cell_id s = elim (new_cell new_id cell_type) [
    | none ↦ (none, s)
    | some cell ↦ (
      some (cell_to_frontend cell),
      record (with_cells (insert_or_push (insert_idx s after_cell_id) cell (cells s)) s) {
        dirty = true;
      },
    )
  ]

  unfoldable pub delete_cell : String → NotebookState → Bool × NotebookState
  unfolding find_cell_index
  delete_cell id s = if leb (length (cells s)) 1 then (false, s) else elim (find_cell_index s id) [
    | none ↦ (false, s)
    | some idx ↦ (true, record (with_cells (remove_at idx (cells s)) s) { dirty = true })
  ]

  -- A change of the cell that is found, which leaves `dirty`.
  abbrev pub at_cell : (Cell → Cell) → String → NotebookState → NotebookState
  unfolding find_cell_index
  at_cell f id s = elim (find_cell_index s id) [
    | none ↦ s
    | some idx ↦ with_cells (change_at f idx (cells s)) s
  ]

  abbrev pub on_code : (Option ℤ × List Output → Option ℤ × List Output) → Cell → Cell
  on_code f (code_cell id metadata execution_count source outputs) =
      let r = f (execution_count, outputs) in code_cell id metadata r.0 source r.1
  on_code f c = c

  unfoldable pub clear_cell_outputs : String → NotebookState → NotebookState
  clear_cell_outputs = at_cell (on_code (λ r. (none, [])))

  unfoldable pub set_cell_execution_count : String → ℤ → NotebookState → NotebookState
  set_cell_execution_count id count = at_cell (on_code (λ r. (some count, r.1))) id

  unfoldable pub append_cell_output : String → Output → NotebookState → NotebookState
  append_cell_output id output =
      at_cell (on_code (λ r. (r.0, insert_at (length r.1) output r.1))) id
