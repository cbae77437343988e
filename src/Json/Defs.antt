-- ===== src/Json/Defs.antt =====
-- `serde_json::Value`, which the daemon does not implement: what the program uses of it, with the
-- documented behaviour as laws. Objects are dictionaries.
use runt.Prelude.{String, Bool, false, Option, some, List, ◌≡◌, string_eq}
use runt.Prelude.Map.{Map}
use runt.Prelude.Map

pub record Json : Type 1 where
  pub Value : Type 0
  -- `Value::get(key)`, `Value::as_str`, `Value::as_object`, `Value::Object`, `Value::String`.
  pub get : String → Value → Option Value
  pub as_str : Value → Option String
  pub as_object : Value → Option (Map String Value)
  pub object : Map String Value → Value
  pub string : String → Value
  -- `Value::Array`, `Value::Null`.
  pub array : List Value → Value
  pub null : Value
  pub is_null : Value → Bool
  pub get-object : (k : String) (m : Map String Value) → get k (object m) ≡ Map.get k m
  pub as_object-object : (m : Map String Value) → as_object (object m) ≡ some m
  pub as_str-string : (s : String) → as_str (string s) ≡ some s
  pub is_null-string : (s : String) → is_null (string s) ≡ false
