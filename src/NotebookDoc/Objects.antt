-- ===== src/NotebookDoc/Objects.antt =====
-- One object of a cell is written: the cell that its objects hold then, and the objects that stay.
use runt.Prelude.{
  ℕ, zero, suc, String, true, false, some, List, [], ◌∷◌, ◌++◌, string_eq, if◌then◌else◌, length,
  contains, ◌≡◌, inl, inr, refl, ap, ◌∙◌, arith, Bool-cases, beq_refl, beq→eq,
}
use runt.Prelude.Distinct.{Distinct}
use runt.Prelude.Positions.{insert_at, change_at}
use runt.Prelude.Map.{Map, get-insert}
use runt.Prelude.Map
use runt.Automerge.{Automerge, Node, map_node, list_node, text_node, str, length_of, size}
use runt.NotebookDoc.{CellSnapshot}
use runt.NotebookDoc.View.{CellIds, owned, strings, IsCell}
use runt.NotebookDoc.Frame.{has}
use runt.NotebookDoc.Change.{Keeps}

module _ (am : Automerge) where
  open am use {Doc, ObjId, node}

  -- One object is written.
  abbrev pub Writes : Doc → Doc → ObjId → Node ObjId → Type 0
  Writes d d' t n = (p : ObjId) → node d' p ≡ (if am.ids.same p t then some n else node d p)

  pub Writes-here : (d d' : Doc) (t : ObjId) (n : Node ObjId) → Writes d d' t n → node d' t ≡ some n
  Writes-here d d' t n w = w t ∙ ap (λ b. if b then some n else node d t) (beq_refl ⦃e = am.ids⦄ t)

  pub Writes-away :
      (d d' : Doc) (t : ObjId) (n : Node ObjId) (p : ObjId)
      → Writes d d' t n
      → am.ids.same p t ≡ false
      → node d' p ≡ node d p
  Writes-away d d' t n p w other = w p ∙ ap (λ b. if b then some n else node d p) other

  pub same_sym : (p q : ObjId) → am.ids.same p q ≡ false → am.ids.same q p ≡ false
  same_sym p q h = ground (arith, h, am.ids.same_iff p q, am.ids.same_iff q p)

  -- An object that is not in a list is none of its elements.
  pub has_apart :
      (xs : List ObjId) (p t : ObjId)
      → has am xs p ≡ false
      → has am xs t ≡ true
      → am.ids.same p t ≡ false
  has_apart xs p t free own = elim (Bool-cases (am.ids.same p t)) [
    | inl e ↦ ground (arith, free, own, ap (has am xs) (beq→eq ⦃e = am.ids⦄ p t e))
    | inr other ↦ other
  ]

  pub Writes-Keeps :
      (d d' : Doc) (i : CellIds ObjId) (t : ObjId) (n : Node ObjId)
      → Writes d d' t n
      → has am (owned am i) t ≡ true
      → Keeps am d d' i
  Writes-Keeps d d' i t n w own p free there =
      Writes-away d d' t n p w (has_apart (owned am i) p t free own)

  -- The objects of a cell are owned, and differ.
  pub record AreApart (i : CellIds ObjId) : Type 0 where
    pub owns_obj : has am (owned am i) i.obj ≡ true
    pub owns_source : has am (owned am i) i.source ≡ true
    pub owns_outputs : has am (owned am i) i.outputs ≡ true
    pub obj_source : am.ids.same i.obj i.source ≡ false
    pub obj_outputs : am.ids.same i.obj i.outputs ≡ false
    pub source_outputs : am.ids.same i.source i.outputs ≡ false

  pub Distinct-AreApart : (i : CellIds ObjId) → Distinct ⦃e = am.ids⦄ (owned am i) → AreApart i
  unfolding contains
  Distinct-AreApart i d =
      let refls = beq_refl ⦃e = am.ids⦄ in
      record {
        owns_obj = ground (arith, refls i.obj);
        owns_source = ground (arith, refls i.source);
        owns_outputs = ground (arith, refls i.outputs);
        obj_source = same_sym i.source i.obj (ground (arith, d.0));
        obj_outputs = same_sym i.outputs i.obj (ground (arith, d.0));
        source_outputs = same_sym i.outputs i.source (ground (arith, d.1.0));
      }

  pub IsCell-source :
      (d d' : Doc) (i : CellIds ObjId) (c : CellSnapshot) (s : String)
      → AreApart i
      → IsCell am d i c
      → Writes d d' i.source (text_node s)
      → IsCell am d' i (record c { source = s })
  IsCell-source d d' i c s a h w = record {
    fields = h.fields;
    node_obj = Writes-away d d' i.source (text_node s) i.obj w a.obj_source ∙ h.node_obj;
    get_id = h.get_id;
    get_cell_type = h.get_cell_type;
    get_execution_count = h.get_execution_count;
    get_source = h.get_source;
    get_outputs = h.get_outputs;
    node_source = Writes-here d d' i.source (text_node s) w;
    node_outputs =
        Writes-away d d' i.source (text_node s) i.outputs w
          (same_sym i.source i.outputs a.source_outputs)
        ∙ h.node_outputs;
  }

  pub IsCell-outputs :
      (d d' : Doc) (i : CellIds ObjId) (c : CellSnapshot) (outputs : List String)
      → AreApart i
      → IsCell am d i c
      → Writes d d' i.outputs (list_node (strings am outputs))
      → IsCell am d' i (record c { outputs = outputs })
  IsCell-outputs d d' i c outputs a h w =
      let n = list_node (strings am outputs) in
      record {
        fields = h.fields;
        node_obj = Writes-away d d' i.outputs n i.obj w a.obj_outputs ∙ h.node_obj;
        get_id = h.get_id;
        get_cell_type = h.get_cell_type;
        get_execution_count = h.get_execution_count;
        get_source = h.get_source;
        get_outputs = h.get_outputs;
        node_source = Writes-away d d' i.outputs n i.source w a.source_outputs ∙ h.node_source;
        node_outputs = Writes-here d d' i.outputs n w;
      }

  pub IsCell-execution_count :
      (d d' : Doc) (i : CellIds ObjId) (c : CellSnapshot) (count : String)
      → AreApart i
      → (h : IsCell am d i c)
      → Writes d d' i.obj (map_node (Map.insert "execution_count" (str count) h.fields))
      → IsCell am d' i (record c { execution_count = count })
  IsCell-execution_count d d' i c count a h w =
      let fields = Map.insert "execution_count" (str count) h.fields in
      let get = λ (k : String). get-insert k "execution_count" (str count) h.fields in
      record {
        fields = fields;
        node_obj = Writes-here d d' i.obj (map_node fields) w;
        get_id = get "id" ∙ h.get_id;
        get_cell_type = get "cell_type" ∙ h.get_cell_type;
        get_execution_count = get "execution_count";
        get_source = get "source" ∙ h.get_source;
        get_outputs = get "outputs" ∙ h.get_outputs;
        node_source =
            Writes-away d d' i.obj (map_node fields) i.source w
              (same_sym i.obj i.source a.obj_source)
            ∙ h.node_source;
        node_outputs =
            Writes-away d d' i.obj (map_node fields) i.outputs w
              (same_sym i.obj i.outputs a.obj_outputs)
            ∙ h.node_outputs;
      }

  pub length-strings : (ss : List String) → length (strings am ss) ≡ length ss
  length-strings [] = refl
  length-strings (s ∷ ss) = ap suc (length-strings ss)

  pub length_of-outputs :
      (d : Doc) (o : ObjId) (outputs : List String)
      → node d o ≡ some (list_node (strings am outputs))
      → length_of am d o ≡ length outputs
  length_of-outputs d o outputs h = ap (size am) h ∙ length-strings outputs

  pub insert_at-strings :
      (ss : List String) (s : String)
      → insert_at (length ss) (str s) (strings am ss) ≡ strings am (ss ++ s ∷ [])
  insert_at-strings [] s = refl
  insert_at-strings (t ∷ ss) s = ap (◌∷◌ (str t)) (insert_at-strings ss s)

  pub change_at-strings :
      (k : ℕ) (s : String) (ss : List String)
      → change_at (λ _. str s) k (strings am ss) ≡ strings am (change_at (λ _. s) k ss)
  change_at-strings k s [] = refl
  change_at-strings zero s (t ∷ ss) = refl
  change_at-strings (suc k) s (t ∷ ss) = ap (◌∷◌ (str t)) (change_at-strings k s ss)
