-- ===== src/Automerge.antt =====
-- The document of the crate `automerge`, which the program does not implement: a store of objects by
-- their identifiers, with the calls that the program makes and their documented behaviour as laws. An
-- object that is deleted from its parent can still be read by its identifier.
pub mod Memory
use Prim.Native.String.{len}
use runt.Prelude.{
  ℕ, ◌≤◌, ◌<◌, String, Bool, Option, none, some, List, [], ◌∷◌, PartialEq, string_eq, ◌==◌,
  if◌then◌else◌, ◌≡◌, length, get_elem?, arith,
}
use runt.Prelude.Positions.{insert_at, remove_at, change_at}
use runt.Prelude.Map.{Map}
use runt.Prelude.Map

-- `AutomergeError`.
pub data AutomergeError : Type 0 where
  invalid_obj_id : String → AutomergeError
  failure : AutomergeError

pub data Result (A : Type 0) : Type 0 where
  done : A → Result A
  failed : AutomergeError → Result A

pub data ObjType : Type 0 where
  map_type list_type text_type : ObjType

-- `automerge::Value`: a scalar, of which only strings are told apart, or an object.
pub data Value (ObjId : Type 0) : Type 0 where
  str : String → Value ObjId
  scalar : Value ObjId
  object : ObjType → ObjId → Value ObjId

pub data Node (ObjId : Type 0) : Type 0 where
  map_node : Map String (Value ObjId) → Node ObjId
  list_node : List (Value ObjId) → Node ObjId
  text_node : String → Node ObjId

abbrev pub empty_node : {ObjId : Type 0} → ObjType → Node ObjId
empty_node map_type = map_node []
empty_node list_type = list_node []
empty_node text_type = text_node ""

pub record Automerge : Type 1 where
  pub Doc : Type 0
  pub ObjId : Type 0
  pub ids : PartialEq ObjId
  pub root : ObjId
  pub new : Doc
  pub node : Doc → ObjId → Option (Node ObjId)
  pub put : ObjId → String → String → Doc → Result Unit × Doc
  pub put_at : ObjId → ℕ → String → Doc → Result Unit × Doc
  pub put_object : ObjId → String → ObjType → Doc → Result ObjId × Doc
  pub insert : ObjId → ℕ → String → Doc → Result Unit × Doc
  pub insert_object : ObjId → ℕ → ObjType → Doc → Result ObjId × Doc
  pub delete : ObjId → String → Doc → Result Unit × Doc
  pub delete_at : ObjId → ℕ → Doc → Result Unit × Doc
  pub update_text : ObjId → String → Doc → Result Unit × Doc
  pub node-new : (p : ObjId) → node new p ≡ (if ids.same p root then some (map_node []) else none)
  pub node-put :
      (o : ObjId) (k s : String) (d : Doc) (m : Map String (Value ObjId))
      → node d o ≡ some (map_node m)
      → ((put o k s d).0 ≡ done tt)
        × ((p : ObjId)
            → node (put o k s d).1 p
              ≡ (if ids.same p o then some (map_node (Map.insert k (str s) m)) else node d p))
  pub node-put_at :
      (o : ObjId) (i : ℕ) (s : String) (d : Doc) (vs : List (Value ObjId))
      → node d o ≡ some (list_node vs)
      → i < length vs
      → ((put_at o i s d).0 ≡ done tt)
        × ((p : ObjId)
            → node (put_at o i s d).1 p
              ≡ (if ids.same p o then some (list_node (change_at (λ _. str s) i vs)) else node d p))
  pub node-put_object :
      (o : ObjId) (k : String) (type : ObjType) (d : Doc) (m : Map String (Value ObjId))
      → node d o ≡ some (map_node m)
      → (fresh : ObjId) × (node d fresh ≡ none)
        × ((put_object o k type d).0 ≡ done fresh)
        × ((p : ObjId)
            → node (put_object o k type d).1 p ≡ (
                if ids.same p o
                then some (map_node (Map.insert k (object type fresh) m))
                else if ids.same p fresh
                then some (empty_node type)
                else node d p))
  pub node-insert :
      (o : ObjId) (i : ℕ) (s : String) (d : Doc) (vs : List (Value ObjId))
      → node d o ≡ some (list_node vs)
      → i ≤ length vs
      → ((insert o i s d).0 ≡ done tt)
        × ((p : ObjId)
            → node (insert o i s d).1 p
              ≡ (if ids.same p o then some (list_node (insert_at i (str s) vs)) else node d p))
  pub node-insert_object :
      (o : ObjId) (i : ℕ) (type : ObjType) (d : Doc) (vs : List (Value ObjId))
      → node d o ≡ some (list_node vs)
      → i ≤ length vs
      → (fresh : ObjId) × (node d fresh ≡ none)
        × ((insert_object o i type d).0 ≡ done fresh)
        × ((p : ObjId)
            → node (insert_object o i type d).1 p ≡ (
                if ids.same p o
                then some (list_node (insert_at i (object type fresh) vs))
                else if ids.same p fresh
                then some (empty_node type)
                else node d p))
  pub node-delete :
      (o : ObjId) (k : String) (d : Doc) (m : Map String (Value ObjId))
      → node d o ≡ some (map_node m)
      → (p : ObjId)
      → node (delete o k d).1 p
        ≡ (if ids.same p o then some (map_node (Map.remove k m)) else node d p)
  pub node-delete_at :
      (o : ObjId) (i : ℕ) (d : Doc) (vs : List (Value ObjId))
      → node d o ≡ some (list_node vs)
      → i < length vs
      → ((delete_at o i d).0 ≡ done tt)
        × ((p : ObjId)
            → node (delete_at o i d).1 p
              ≡ (if ids.same p o then some (list_node (remove_at i vs)) else node d p))
  pub node-update_text :
      (o : ObjId) (s : String) (d : Doc) (t : String)
      → node d o ≡ some (text_node t)
      → ((update_text o s d).0 ≡ done tt)
        × ((p : ObjId)
            → node (update_text o s d).1 p
              ≡ (if ids.same p o then some (text_node s) else node d p))

-- The operator `?`, with the document.
abbrev pub then_ : {A B D : Type 0} → Result A × D → (A → D → Result B × D) → Result B × D
then_ (done a, d) f = f a d
then_ (failed e, d) f = (failed e, d)

pub then-of :
    {A B D : Type 0} (x : Result A × D) (f : A → D → Result B × D) (a : A)
    → x.0 ≡ done a
    → then_ x f ≡ f a x.1
then-of (done b, d) f a h = cc
then-of (failed e, d) f a h = ground (arith, h)

-- The reads: `get(...).ok().flatten()` and `length`.
module _ (am : Automerge) where
  open am use {Doc, ObjId}

  abbrev pub in_map : String → Option (Node ObjId) → Option (Value ObjId)
  in_map k (some (map_node m)) = Map.get k m
  in_map k _ = none

  abbrev pub in_list : ℕ → Option (Node ObjId) → Option (Value ObjId)
  in_list i (some (list_node vs)) = get_elem? vs i
  in_list i _ = none

  abbrev pub get : Doc → ObjId → String → Option (Value ObjId)
  get d o k = in_map k (am.node d o)

  abbrev pub get_at : Doc → ObjId → ℕ → Option (Value ObjId)
  get_at d o i = in_list i (am.node d o)

  abbrev pub size : Option (Node ObjId) → ℕ
  size (some (list_node vs)) = length vs
  size (some (map_node m)) = length m
  size (some (text_node t)) = len t
  size none = 0

  abbrev pub length_of : Doc → ObjId → ℕ
  length_of d o = size (am.node d o)

  abbrev pub text_in : Option (Node ObjId) → Option String
  text_in (some (text_node t)) = some t
  text_in _ = none
