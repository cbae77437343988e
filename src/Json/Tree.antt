-- ===== src/Json/Tree.antt =====
-- Trees of objects, arrays and strings: a value of the interface, for concrete runs.
use runt.Prelude.{
  String, Bool, true, false, Option, none, some, List, [], ◌∷◌, ◌≡◌, refl, ap, string_eq,
}
use runt.Prelude.Map.{Map}
use runt.Prelude.Map
use runt.Json.Defs.{Json}

mutual
  pub data Tree : Type 0 where
    text : String → Tree
    node : Fields → Tree
    items : Trees → Tree
    nothing : Tree

  pub data Fields : Type 0 where
    end : Fields
    field : String → Tree → Fields → Fields

  pub data Trees : Type 0 where
    last : Trees
    item : Tree → Trees → Trees

abbrev pub of_list : List Tree → Trees
of_list [] = last
of_list (t ∷ ts) = item t (of_list ts)

abbrev pub to_map : Fields → Map String Tree
to_map end = []
to_map (field k v fs) = (k, v) ∷ to_map fs

abbrev pub of_map : Map String Tree → Fields
of_map [] = end
of_map ((k, v) ∷ m) = field k v (of_map m)

pub to_map-of_map : (m : Map String Tree) → to_map (of_map m) ≡ m
to_map-of_map [] = refl
to_map-of_map ((k, v) ∷ m) = ap (◌∷◌ (k, v)) (to_map-of_map m)

abbrev pub tree_as_object : Tree → Option (Map String Tree)
tree_as_object (node fs) = some (to_map fs)
tree_as_object _ = none

abbrev pub tree_as_str : Tree → Option String
tree_as_str (text s) = some s
tree_as_str _ = none

abbrev pub tree_get : String → Tree → Option Tree
tree_get k (node fs) = Map.get k (to_map fs)
tree_get k _ = none

abbrev pub tree_is_null : Tree → Bool
tree_is_null nothing = true
tree_is_null _ = false

abbrev pub tree_object : Map String Tree → Tree
tree_object m = node (of_map m)

abbrev pub trees : Json
trees = record {
  Value = Tree;
  get = tree_get;
  as_str = tree_as_str;
  as_object = tree_as_object;
  object = tree_object;
  string = text;
  array = λ vs. items (of_list vs);
  null = nothing;
  is_null = tree_is_null;
  get-object = λ k m. ap (Map.get k) (to_map-of_map m);
  as_object-object = λ m. ap some (to_map-of_map m);
  as_str-string = λ s. refl;
  is_null-string = λ s. refl;
}
