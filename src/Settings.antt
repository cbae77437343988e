-- ===== src/Settings.antt =====
-- crates/runtimed/src/settings_doc.rs: the kinds of settings, and lists kept as text. Lower case and
-- trimming are parameters. The document that keeps the settings is left out.

use Prim.Native.Char.{code}
use runt.Prelude.{String, not, List, [], ◌∷◌, ◌==◌, string_eq, nat_eq, map, if◌then◌else◌, retain}
use runt.Runtime.{Lowercase}

pub data PythonEnvType : Type 0 where
  uv conda : PythonEnvType
  other : String → PythonEnvType

-- `Display`, which is also the serialization.
unfoldable pub env_to_string : PythonEnvType → String
env_to_string uv = "uv"
env_to_string conda = "conda"
env_to_string (other s) = s

-- `FromStr`, which is also the deserialization.
unfoldable pub env_from_str : Lowercase → String → PythonEnvType
env_from_str lower s =
    let l = lower.to_lowercase s in
    if l == "uv" then uv else if l == "conda" then conda else other s

-- `split(',')`: there is always a first part.
abbrev pub split_comma : String → String × List String
split_comma String.[] = ("", [])
split_comma (String.◌∷◌ c cs) =
    let rest = split_comma cs in
    if code c == 44 then ("", rest.0 ∷ rest.1) else (String.◌∷◌ c rest.0, rest.1)

-- `trim`, `filter` and `collect`.
unfoldable pub split_comma_list : (String → String) → String → List String
split_comma_list trim s =
    let parts = split_comma s in retain (λ p. not (p == "")) (map trim (parts.0 ∷ parts.1))
