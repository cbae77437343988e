-- ===== src/Automerge/Memory.antt =====
-- Documents as dictionaries of numbered objects: a value of the interface, for concrete runs.
use runt.Prelude.{
  ℕ, suc, ◌+◌, ◌≤◌, String, Bool, true, Option, none, some, List, [], ◌∷◌, nat_eq, string_eq, ◌==◌,
  ltb, leb, if◌then◌else◌, ◌≡◌, refl, ap, ◌∙◌, arith, length, le→leb, lt→ltb, nat_beq_iff,
}
use runt.Prelude.Positions.{insert_at, remove_at, change_at}
use runt.Prelude.Map.{Map, get-insert}
use runt.Prelude.Map
use runt.Automerge.{
  failure, Result, done, failed, ObjType, Value, str, object, Node, map_node, list_node, text_node,
  empty_node, Automerge,
}

abbrev pub Store : Type 0
Store = Map ℕ (Node ℕ)

-- A number above all that are in use.
abbrev pub above : Store → ℕ
above [] = 0
above ((j, v) ∷ m) = suc (j + above m)

pub get_above : (k : ℕ) (m : Store) → above m ≤ k → Map.get k m ≡ none
unfolding Map.get
get_above k [] h = refl
get_above k ((j, v) ∷ m) h = ground (arith, get_above k m, h)

module _ {A : Type 0} (d : Store) where
  abbrev pub on_map : Option (Node ℕ) → (Map String (Value ℕ) → Result A × Store) → Result A × Store
  on_map (some (map_node m)) f = f m
  on_map _ f = (failed failure, d)

  abbrev pub on_list : Option (Node ℕ) → (List (Value ℕ) → Result A × Store) → Result A × Store
  on_list (some (list_node vs)) f = f vs
  on_list _ f = (failed failure, d)

  abbrev pub on_text : Option (Node ℕ) → (String → Result A × Store) → Result A × Store
  on_text (some (text_node t)) f = f t
  on_text _ f = (failed failure, d)

  abbrev pub if_ok : Bool → Result A × Store → Result A × Store
  if_ok b r = if b then r else (failed failure, d)

-- A write, read at any number.
pub get_written :
    (o p : ℕ) (n : Node ℕ) (d : Store)
    → Map.get p (Map.insert o n d) ≡ (if p == o then some n else Map.get p d)
get_written o p n d = ground (arith, get-insert p o n d, nat_beq_iff o p, nat_beq_iff p o)

pub get_written_twice :
    (o q p : ℕ) (n n' : Node ℕ) (d : Store)
    → Map.get p (Map.insert o n (Map.insert q n' d))
      ≡ (if p == o then some n else if p == q then some n' else Map.get p d)
get_written_twice o q p n n' d =
    ground (arith, get_written o p n (Map.insert q n' d), get_written q p n' d)

-- What a call that computes to a write leaves.
pub written :
    {A : Type 0} (o p : ℕ) (n : Node ℕ) (d : Store) (a : A) (x : Result A × Store)
    → x ≡ (done a, Map.insert o n d)
    → Map.get p (x.1) ≡ (if p == o then some n else Map.get p d)
written o p n d a x e = ap (λ (r : Result _ × Store). Map.get p (r.1)) e ∙ get_written o p n d

pub written_twice :
    (o q p : ℕ) (n n' : Node ℕ) (d : Store) (x : Result ℕ × Store)
    → x ≡ (done q, Map.insert o n (Map.insert q n' d))
    → Map.get p (x.1) ≡ (if p == o then some n else if p == q then some n' else Map.get p d)
written_twice o q p n n' d x e =
    ap (λ (r : Result ℕ × Store). Map.get p (r.1)) e ∙ get_written_twice o q p n n' d

abbrev pub put_m : ℕ → String → String → Store → Result Unit × Store
put_m o k s d =
    on_map d (Map.get o d) (λ m. (done tt, Map.insert o (map_node (Map.insert k (str s) m)) d))

abbrev pub delete_m : ℕ → String → Store → Result Unit × Store
delete_m o k d = on_map d (Map.get o d) (λ m. (done tt, Map.insert o (map_node (Map.remove k m)) d))

abbrev pub put_object_m : ℕ → String → ObjType → Store → Result ℕ × Store
put_object_m o k type d = on_map d (Map.get o d) (λ m. (
  done (above d),
  Map.insert o (map_node (Map.insert k (object type (above d)) m))
      (Map.insert (above d) (empty_node type) d),
))

abbrev pub put_at_m : ℕ → ℕ → String → Store → Result Unit × Store
put_at_m o i s d = on_list d (Map.get o d) (λ vs.
    if_ok d (ltb i (length vs)) (done tt, Map.insert o (list_node (change_at (λ _. str s) i vs)) d))

abbrev pub delete_at_m : ℕ → ℕ → Store → Result Unit × Store
delete_at_m o i d =
    on_list d (Map.get o d)
      (λ vs. if_ok d (ltb i (length vs)) (done tt, Map.insert o (list_node (remove_at i vs)) d))

abbrev pub insert_m : ℕ → ℕ → String → Store → Result Unit × Store
insert_m o i s d = on_list d (Map.get o d) (λ vs.
    if_ok d (leb i (length vs)) (done tt, Map.insert o (list_node (insert_at i (str s) vs)) d))

abbrev pub insert_object_m : ℕ → ℕ → ObjType → Store → Result ℕ × Store
insert_object_m o i type d = on_list d (Map.get o d) (λ vs. if_ok d (leb i (length vs)) (
  done (above d),
  Map.insert o (list_node (insert_at i (object type (above d)) vs))
      (Map.insert (above d) (empty_node type) d),
))

abbrev pub update_text_m : ℕ → String → Store → Result Unit × Store
update_text_m o s d = on_text d (Map.get o d) (λ t. (done tt, Map.insert o (text_node s) d))

pub put_opened :
    (o : ℕ) (k s : String) (d : Store) (m : Map String (Value ℕ))
    → Map.get o d ≡ some (map_node m)
    → put_m o k s d ≡ (done tt, Map.insert o (map_node (Map.insert k (str s) m)) d)
put_opened o k s d m h =
    ap (λ n. on_map d n (λ m. (done tt, Map.insert o (map_node (Map.insert k (str s) m)) d))) h

pub delete_opened :
    (o : ℕ) (k : String) (d : Store) (m : Map String (Value ℕ))
    → Map.get o d ≡ some (map_node m)
    → delete_m o k d ≡ (done tt, Map.insert o (map_node (Map.remove k m)) d)
delete_opened o k d m h =
    ap (λ n. on_map d n (λ m. (done tt, Map.insert o (map_node (Map.remove k m)) d))) h

pub put_object_opened :
    (o : ℕ) (k : String) (type : ObjType) (d : Store) (m : Map String (Value ℕ))
    → Map.get o d ≡ some (map_node m)
    → put_object_m o k type d ≡ (
      done (above d),
      Map.insert o
          (map_node (Map.insert k (object type (above d)) m))
          (Map.insert (above d) (empty_node type) d),
    )
put_object_opened o k type d m h =
    ap
      (λ n. on_map d n (λ m. (
        done (above d),
        Map.insert o (map_node (Map.insert k (object type (above d)) m))
            (Map.insert (above d) (empty_node type) d),
      )))
      h

pub list_opened :
    {A : Type 0} (o : ℕ) (d : Store) (vs : List (Value ℕ)) (b : List (Value ℕ) → Bool)
    (r : List (Value ℕ) → Result A × Store)
    → Map.get o d ≡ some (list_node vs)
    → b vs ≡ true
    → on_list d (Map.get o d) (λ vs. if_ok d (b vs) (r vs)) ≡ r vs
list_opened o d vs b r h ok =
    ap (λ n. on_list d n (λ vs. if_ok d (b vs) (r vs))) h ∙ ap (λ b. if_ok d b (r vs)) ok

pub update_text_opened :
    (o : ℕ) (s : String) (d : Store) (t : String)
    → Map.get o d ≡ some (text_node t)
    → update_text_m o s d ≡ (done tt, Map.insert o (text_node s) d)
update_text_opened o s d t h =
    ap (λ n. on_text d n (λ t. (done tt, Map.insert o (text_node s) d))) h

abbrev pub start : Store
start = (0, map_node []) ∷ []

pub new_law : (p : ℕ) → Map.get p start ≡ (if p == 0 then some (map_node []) else none)
unfolding Map.get
new_law p = ground (arith, nat_beq_iff 0 p, nat_beq_iff p 0)

abbrev pub memory : Automerge
memory = record {
  Doc = Store;
  ObjId = ℕ;
  ids = nat_eq;
  root = 0;
  new = start;
  node = λ d o. Map.get o d;
  put = put_m;
  put_at = put_at_m;
  put_object = put_object_m;
  insert = insert_m;
  insert_object = insert_object_m;
  delete = delete_m;
  delete_at = delete_at_m;
  update_text = update_text_m;
  node-new = new_law;
  node-put = λ o k s d m h.
      let e = put_opened o k s d m h in
      (ap (λ r. r.0) e, λ p. written o p _ d tt (put_m o k s d) e);
  node-put_at = λ o i s d vs h bound.
      let e = list_opened o d vs (λ vs. ltb i (length vs)) _ h (lt→ltb i (length vs) bound) in
      (ap (λ r. r.0) e, λ p. written o p _ d tt (put_at_m o i s d) e);
  node-put_object = λ o k type d m h.
      let e = put_object_opened o k type d m h in
      (
        above d,
        get_above (above d) d (omega arith),
        ap (λ r. r.0) e,
        λ p. written_twice o (above d) p _ _ d (put_object_m o k type d) e,
      );
  node-insert = λ o i s d vs h bound.
      let e = list_opened o d vs (λ vs. leb i (length vs)) _ h (le→leb i (length vs) bound) in
      (ap (λ r. r.0) e, λ p. written o p _ d tt (insert_m o i s d) e);
  node-insert_object = λ o i type d vs h bound.
      let e = list_opened o d vs (λ vs. leb i (length vs)) _ h (le→leb i (length vs) bound) in
      (
        above d,
        get_above (above d) d (omega arith),
        ap (λ r. r.0) e,
        λ p. written_twice o (above d) p _ _ d (insert_object_m o i type d) e,
      );
  node-delete = λ o k d m h p. written o p _ d tt (delete_m o k d) (delete_opened o k d m h);
  node-delete_at = λ o i d vs h bound.
      let e = list_opened o d vs (λ vs. ltb i (length vs)) _ h (lt→ltb i (length vs) bound) in
      (ap (λ r. r.0) e, λ p. written o p _ d tt (delete_at_m o i d) e);
  node-update_text = λ o s d t h.
      let e = update_text_opened o s d t h in
      (ap (λ r. r.0) e, λ p. written o p _ d tt (update_text_m o s d) e);
}
