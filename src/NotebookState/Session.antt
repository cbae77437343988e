-- ===== src/NotebookState/Session.antt =====
-- Sessions of edits: the identifiers of the cells stay distinct while a new one is fresh.
use runt.Prelude.{
  String, Bool, false, ◌||◌, Option, none, some, List, [], ◌∷◌, ◌==◌, string_eq, leb, length,
  contains, is_empty, ◌≡◌, refl, ap, sym, ◌∙◌, arith, Bool-cases, subst, Option-cases, inl, inr,
}
use runt.Prelude.Distinct.{Distinct}
use runt.Prelude.Positions.{change_first, remove_first, insert_at}
use runt.Json.{Json}
use runt.NotebookState.{
  ℤ, Nbformat, source_to_lines, cell_id, cells, set_source, update_cell_source, new_cell, add_cell,
  delete_cell, on_code, clear_cell_outputs, set_cell_execution_count, append_cell_output,
}
use runt.NotebookState.Editing.{
  NbCell, State, has_id, ids, IsWellFormed, placed, update_cells, at_cells, delete_cells, add_cells,
  set_source-id,
}

module _ (json : Json) (nb : Nbformat json) where
  ids-change_first :
      (p : NbCell json nb → Bool) (f : NbCell json nb → NbCell json nb) (cs : List (NbCell json nb))
      → ((c : NbCell json nb) → cell_id json nb (f c) ≡ cell_id json nb c)
      → ids json nb (change_first p f cs) ≡ ids json nb cs
  ids-change_first p f [] h = refl
  ids-change_first p f (c ∷ cs) h = ground (arith, ids-change_first p f cs h, h c)

  contains-remove_first :
      (i j : String) (cs : List (NbCell json nb))
      → contains (ids json nb cs) j ≡ false
      → contains (ids json nb (remove_first (has_id json nb i) cs)) j ≡ false
  unfolding contains
  contains-remove_first i j [] h = refl
  contains-remove_first i j (c ∷ cs) h = ground (arith, contains-remove_first i j cs)

  Distinct-remove_first :
      (i : String) (cs : List (NbCell json nb))
      → Distinct (ids json nb cs)
      → Distinct (ids json nb (remove_first (has_id json nb i) cs))
  Distinct-remove_first i [] h = tt
  Distinct-remove_first i (c ∷ cs) h =
      ground
        (arith, Distinct-remove_first i cs (h.1), contains-remove_first i (cell_id json nb c) cs, h)

  remove_first-nonempty :
      (p : NbCell json nb → Bool) (cs : List (NbCell json nb))
      → leb (length cs) 1 ≡ false
      → is_empty (remove_first p cs) ≡ false
  remove_first-nonempty p [] h = ground (arith, h)
  remove_first-nonempty p (c ∷ []) h = ground (arith, h)
  remove_first-nonempty p (c ∷ d ∷ cs) h = ground arith

  contains-placed :
      (j : String) (after : Option String) (a : NbCell json nb) (cs : List (NbCell json nb))
      → contains (ids json nb (placed json nb after a cs)) j
        ≡ (cell_id json nb a == j || contains (ids json nb cs) j)
  unfolding contains
  contains-placed j none a cs = refl
  contains-placed j (some id) a [] = refl
  contains-placed j (some id) a (c ∷ cs) = ground (arith, contains-placed j (some id) a cs)

  Distinct-placed :
      (after : Option String) (a : NbCell json nb) (cs : List (NbCell json nb))
      → Distinct (ids json nb cs)
      → contains (ids json nb cs) (cell_id json nb a) ≡ false
      → Distinct (ids json nb (placed json nb after a cs))
        × (is_empty (placed json nb after a cs) ≡ false)
  unfolding contains
  Distinct-placed none a cs d h = ((h, d), refl)
  Distinct-placed (some id) a [] d h = ((refl, tt), refl)
  Distinct-placed (some id) a (c ∷ cs) d h = ground (
    arith,
    Distinct-placed (some id) a cs (d.1),
    contains-placed (cell_id json nb c) (some id) a cs,
    string_eq.same_iff (cell_id json nb c) (cell_id json nb a),
    string_eq.same_iff (cell_id json nb a) (cell_id json nb c),
    d.0,
    h,
  )

  abbrev pub OnCode : Type 0
  OnCode = Option ℤ × List nb.Output → Option ℤ × List nb.Output

  on_code-id :
      (f : OnCode) (c : NbCell json nb) → cell_id json nb (on_code json nb f c) ≡ cell_id json nb c
  on_code-id f c = ground arith

  new_cell-id :
      (new_id cell_type : String) (a : NbCell json nb)
      → new_cell json nb new_id cell_type ≡ some a
      → cell_id json nb a ≡ new_id
  unfolding new_cell
  new_cell-id new_id cell_type a h = ground (arith, h)

  -- One call of the application; the identifier of a new cell is fresh.
  pub data Edit : State json nb → State json nb → Type 0 where
    update :
        (id source : String) (s : State json nb) → Edit s (update_cell_source json nb id source s)
    add :
        (new_id cell_type : String) (after : Option String) (s : State json nb)
        → contains (ids json nb (cells json nb s)) new_id ≡ false
        → Edit s (add_cell json nb new_id cell_type after s).1
    delete : (id : String) (s : State json nb) → Edit s (delete_cell json nb id s).1
    clear : (id : String) (s : State json nb) → Edit s (clear_cell_outputs json nb id s)
    count :
        (id : String) (n : ℤ) (s : State json nb) → Edit s (set_cell_execution_count json nb id n s)
    output :
        (id : String) (o : nb.Output) (s : State json nb)
        → Edit s (append_cell_output json nb id o s)

  pub data Session : State json nb → State json nb → Type 0 where
    start : (s : State json nb) → Session s s
    edit : (s t u : State json nb) → Session s t → Edit t u → Session s u

  is_empty-change_first :
      (p : NbCell json nb → Bool) (f : NbCell json nb → NbCell json nb) (cs : List (NbCell json nb))
      → is_empty (change_first p f cs) ≡ is_empty cs
  is_empty-change_first p f [] = refl
  is_empty-change_first p f (c ∷ cs) = ground arith

  -- The invariant depends on the cells alone.
  IsWellFormed-change :
      (id : String) (f : NbCell json nb → NbCell json nb) (s t : State json nb)
      → ((c : NbCell json nb) → cell_id json nb (f c) ≡ cell_id json nb c)
      → cells json nb t ≡ change_first (has_id json nb id) f (cells json nb s)
      → IsWellFormed json nb s
      → IsWellFormed json nb t
  IsWellFormed-change id f s t h e (d, n) = (
    subst Distinct
        (sym (ap (ids json nb) e ∙ ids-change_first (has_id json nb id) f (cells json nb s) h)) d,
    ap is_empty e ∙ is_empty-change_first (has_id json nb id) f (cells json nb s) ∙ n,
  )

  add_none :
      (new_id cell_type : String) (after : Option String) (s : State json nb)
      → new_cell json nb new_id cell_type ≡ none
      → add_cell json nb new_id cell_type after s ≡ (none, s)
  unfolding add_cell
  add_none new_id cell_type after s h = rw (add_cell, h) refl

  IsWellFormed-cells :
      (s : State json nb) (cs : List (NbCell json nb))
      → cells json nb s ≡ cs
      → Distinct (ids json nb cs) × (is_empty cs ≡ false)
      → IsWellFormed json nb s
  IsWellFormed-cells s cs e h =
      subst (λ cs. Distinct (ids json nb cs) × (is_empty cs ≡ false)) (sym e) h

  Edit-IsWellFormed :
      (s t : State json nb) → Edit s t → IsWellFormed json nb s → IsWellFormed json nb t
  unfolding clear_cell_outputs set_cell_execution_count append_cell_output
  Edit-IsWellFormed s _ (update id source _) w =
      IsWellFormed-change id (set_source json nb (source_to_lines source)) s
        (update_cell_source json nb id source s) (set_source-id json nb (source_to_lines source))
        (update_cells json nb id source s) w
  Edit-IsWellFormed s _ (add new_id cell_type after _ fresh) w =
      elim (Option-cases (new_cell json nb new_id cell_type)) [
        | inl unknown ↦
            subst (IsWellFormed json nb)
              (sym (ap (λ r. r.1) (add_none new_id cell_type after s unknown))) w
        | inr (a, made) ↦
            IsWellFormed-cells (add_cell json nb new_id cell_type after s).1
              (placed json nb after a (cells json nb s))
              (ap (λ r. cells json nb (r.1)) (add_cells json nb new_id cell_type after s a made))
              (Distinct-placed after a (cells json nb s) (w.0) (
                ap (contains (ids json nb (cells json nb s))) (new_cell-id new_id cell_type a made)
                ∙ fresh))
      ]
  Edit-IsWellFormed s _ (delete id _) w =
      IsWellFormed-cells (delete_cell json nb id s).1 _ (delete_cells json nb id s)
        (elim (Bool-cases (leb (length (cells json nb s)) 1)) [
          | inl few ↦ rw few w
          | inr many ↦ rw many (
            Distinct-remove_first id (cells json nb s) (w.0),
            remove_first-nonempty (has_id json nb id) (cells json nb s) many,
          )
        ])
  Edit-IsWellFormed s _ (clear id _) w =
      let f : OnCode = λ r. (none, []) in
      IsWellFormed-change id (on_code json nb f) s (clear_cell_outputs json nb id s) (on_code-id f)
        (at_cells json nb (on_code json nb f) id s) w
  Edit-IsWellFormed s _ (count id n _) w =
      let f : OnCode = λ r. (some n, r.1) in
      IsWellFormed-change id (on_code json nb f) s (set_cell_execution_count json nb id n s)
        (on_code-id f) (at_cells json nb (on_code json nb f) id s) w
  Edit-IsWellFormed s _ (output id o _) w =
      let f : OnCode = λ r. (r.0, insert_at (length (r.1)) o (r.1)) in
      IsWellFormed-change id (on_code json nb f) s (append_cell_output json nb id o s)
        (on_code-id f) (at_cells json nb (on_code json nb f) id s) w

  -- Whatever sequence of edits a notebook goes through, its cells have distinct identifiers and it keeps
  -- at least one cell, if both hold at the start and each new identifier is fresh.
  pub Session-IsWellFormed :
      (s t : State json nb) → Session s t → IsWellFormed json nb s → IsWellFormed json nb t
  Session-IsWellFormed s _ (start _) w = w
  Session-IsWellFormed s u (edit _ t _ before last) w =
      Edit-IsWellFormed t u last (Session-IsWellFormed s t before w)
