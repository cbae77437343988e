-- ===== src/NotebookState/Editing.antt =====
-- What the edits of a notebook do to its cells: sources, places, and the identifiers, which stay
-- distinct while a new one is fresh.
use runt.Prelude.{
  ℕ, suc, ◌+◌, String, Bool, true, false, not, ◌&&◌, Option, none, some, List, [], ◌∷◌, ◌==◌,
  string_eq, leb, if◌then◌else◌, length, get_elem?, map_some, contains, is_empty, ◌≡◌, refl, ap,
  ◌∙◌, arith,
}
use runt.Prelude.Distinct.{Distinct}
use runt.Prelude.Positions.{
  position, find, change_first, remove_first, at_index, insert_at, position-get_elem,
  position-change_at, position-remove_at,
}
use runt.Json.{Json}
use runt.NotebookState.{
  Nbformat, Cell, NotebookState, join, source_to_lines, cell_id, cell_source, cells, with_cells,
  find_cell_index, set_source, update_cell_source, get_cell_source, new_cell, insert_or_push,
  add_cell, delete_cell, at_cell, cell_to_frontend,
}
use runt.NotebookState.Lines.{source_to_lines_iff}

module _ (json : Json) (nb : Nbformat json) where
  abbrev pub NbCell : Type 0
  NbCell = Cell json nb

  abbrev pub State : Type 0
  State = NotebookState json nb

  abbrev pub has_id : String → NbCell → Bool
  has_id id c = cell_id json nb c == id

  abbrev pub ids : List NbCell → List String
  ids [] = []
  ids (c ∷ cs) = cell_id json nb c ∷ ids cs

  -- What is found at the index of a cell, read and changed.
  read_found :
      {B : Type 0} (o : Option ℕ) (f : NbCell → B) (cs : List NbCell)
      → (elim o [ none ↦ none | some idx ↦ map_some f (get_elem? cs idx) ])
        ≡ map_some f (at_index (has_id "") o none (λ i. get_elem? cs i))
  read_found none f cs = refl
  read_found (some i) f cs = refl

  get_cell_source-find :
      (id : String) (s : State)
      → get_cell_source json nb id s
        ≡ map_some (λ c. join (cell_source json nb c)) (find (has_id id) (cells json nb s))
  unfolding get_cell_source find_cell_index
  get_cell_source-find id s =
      read_found (position (has_id id) (cells json nb s)) (λ c. join (cell_source json nb c))
        (cells json nb s)
      ∙ ap (map_some (λ c. join (cell_source json nb c)))
          (position-get_elem (has_id id) (cells json nb s))

  pub update_cells :
      (id source : String) (s : State)
      → cells json nb (update_cell_source json nb id source s)
        ≡ change_first (has_id id) (set_source json nb (source_to_lines source)) (cells json nb s)
  unfolding update_cell_source find_cell_index
  update_cells id source s =
      let f = set_source json nb (source_to_lines source) in
      ground (arith, position-change_at (has_id id) f (cells json nb s))

  pub at_cells :
      (f : NbCell → NbCell) (id : String) (s : State)
      → cells json nb (at_cell json nb f id s) ≡ change_first (has_id id) f (cells json nb s)
  unfolding at_cell find_cell_index
  at_cells f id s = ground (arith, position-change_at (has_id id) f (cells json nb s))

  pub delete_cells :
      (id : String) (s : State)
      → cells json nb (delete_cell json nb id s).1 ≡ (
          if leb (length (cells json nb s)) 1
          then cells json nb s
          else remove_first (has_id id) (cells json nb s))
  unfolding delete_cell find_cell_index
  delete_cells id s = ground (arith, position-remove_at (has_id id) (cells json nb s))

  pub set_source-id :
      (lines : List String) (c : NbCell)
      → cell_id json nb (set_source json nb lines c) ≡ cell_id json nb c
  set_source-id lines c = ground arith

  set_source-source :
      (lines : List String) (c : NbCell) → cell_source json nb (set_source json nb lines c) ≡ lines
  set_source-source lines c = ground arith

  find-change_first :
      (i j : String) (lines : List String) (cs : List NbCell)
      → map_some
          (λ c. join (cell_source json nb c))
          (find (has_id j) (change_first (has_id i) (set_source json nb lines) cs))
        ≡ (if i == j
            then map_some (λ _. join lines) (find (has_id j) cs)
            else map_some (λ c. join (cell_source json nb c)) (find (has_id j) cs))
  find-change_first i j lines [] = ground arith
  find-change_first i j lines (c ∷ cs) = ground (
    arith,
    find-change_first i j lines cs,
    set_source-id lines c,
    set_source-source lines c,
    string_eq.same_iff (cell_id json nb c) i,
    string_eq.same_iff (cell_id json nb c) j,
    string_eq.same_iff i j,
  )

  map_some_const :
      (f : NbCell → String) (t : String) (o : Option NbCell)
      → map_some (λ _. t) (map_some f o) ≡ map_some (λ _. t) o
  map_some_const f t none = refl
  map_some_const f t (some c) = refl

  -- A source that is stored is read back as it was, if there is such a cell, and the sources that are
  -- read under other identifiers stay.
  pub update-get_cell_source :
      (i j source : String) (s : State)
      → get_cell_source json nb j (update_cell_source json nb i source s) ≡ (
          if i == j
          then map_some (λ _. source) (get_cell_source json nb j s)
          else get_cell_source json nb j s)
  update-get_cell_source i j source s =
      let lines = source_to_lines source in
      let kept = ((source_to_lines_iff source lines).0 refl).0 in
      let text : NbCell → String = λ c. join (cell_source json nb c) in
      ground (
        arith,
        get_cell_source-find j (update_cell_source json nb i source s)
            ∙ ap (λ cs. map_some text (find (has_id j) cs)) (update_cells i source s)
            ∙ find-change_first i j lines (cells json nb s),
        get_cell_source-find j s,
        map_some_const text source (find (has_id j) (cells json nb s)),
        kept,
      )

  -- The place that `add_cell` gives a cell: first, behind the cell that is named, or last if there is
  -- none of that name.
  abbrev pub placed : Option String → NbCell → List NbCell → List NbCell
  placed none a cs = a ∷ cs
  placed (some id) a [] = a ∷ []
  placed (some id) a (c ∷ cs) = if has_id id c then c ∷ a ∷ cs else c ∷ placed (some id) a cs

  insert_step :
      (b : Bool) (o : Option ℕ) (a c : NbCell) (cs : List NbCell)
      → insert_or_push json nb
          (map_some (λ i. i + 1) (if b then some 0 else map_some suc o))
          a
          (c ∷ cs)
        ≡ (if b then c ∷ a ∷ cs else c ∷ insert_or_push json nb (map_some (λ i. i + 1) o) a cs)
  insert_step true o a c cs = refl
  insert_step false none a c cs = refl
  insert_step false (some i) a c cs =
      let later : suc i + 1 ≡ suc (i + 1) = omega arith in ap (λ n. insert_at n a (c ∷ cs)) later

  insert_after :
      (id : String) (a : NbCell) (cs : List NbCell)
      → insert_or_push json nb (map_some (λ i. i + 1) (position (has_id id) cs)) a cs
        ≡ placed (some id) a cs
  insert_after id a [] = refl
  insert_after id a (c ∷ cs) =
      insert_step (has_id id c) (position (has_id id) cs) a c cs
      ∙ ap (λ r. if has_id id c then c ∷ a ∷ cs else c ∷ r) (insert_after id a cs)

  pub add_cells :
      (new_id cell_type : String) (after : Option String) (s : State) (a : NbCell)
      → new_cell json nb new_id cell_type ≡ some a
      → add_cell json nb new_id cell_type after s ≡ (
        some (cell_to_frontend json nb a),
        record (with_cells json nb (placed after a (cells json nb s)) s) { dirty = true },
      )
  unfolding add_cell find_cell_index
  add_cells new_id cell_type none s a h = rw (add_cell, h) refl
  add_cells new_id cell_type (some id) s a h = rw (add_cell, h, insert_after id) refl

  abbrev pub IsWellFormed : State → Type 0
  IsWellFormed s = Distinct (ids (cells json nb s)) × (is_empty (cells json nb s) ≡ false)

  find_absent :
      (j : String) (cs : List NbCell) → contains (ids cs) j ≡ false → find (has_id j) cs ≡ none
  unfolding contains
  find_absent j [] h = refl
  find_absent j (c ∷ cs) h = ground (arith, find_absent j cs, h)

  find-remove_first :
      (i j : String) (cs : List NbCell)
      → Distinct (ids cs)
      → find (has_id j) (remove_first (has_id i) cs) ≡ (if i == j then none else find (has_id j) cs)
  find-remove_first i j [] d = ground arith
  find-remove_first i j (c ∷ cs) d = ground (
    arith,
    find-remove_first i j cs (d.1),
    find_absent (cell_id json nb c) cs (d.0),
    string_eq.same_iff (cell_id json nb c) i,
    string_eq.same_iff (cell_id json nb c) j,
    string_eq.same_iff i j,
  )

  -- Deleting a cell takes exactly its source away, and does so unless it is the last cell, which stays.
  pub delete-get_cell_source :
      (i j : String) (s : State)
      → IsWellFormed s
      → get_cell_source json nb j (delete_cell json nb i s).1 ≡ (
          if not (leb (length (cells json nb s)) 1) && i == j
          then none
          else get_cell_source json nb j s)
  delete-get_cell_source i j s w =
      let text : NbCell → String = λ c. join (cell_source json nb c) in
      ground (
        arith,
        get_cell_source-find j (delete_cell json nb i s).1
            ∙ ap (λ cs. map_some text (find (has_id j) cs)) (delete_cells i s),
        find-remove_first i j (cells json nb s) (w.0),
        get_cell_source-find j s,
      )
