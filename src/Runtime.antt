-- ===== src/Runtime.antt =====
-- crates/runtimed/src/runtime.rs: the kinds of runtime, and their names. Lower case is a parameter.
pub mod Names
use runt.Prelude.{◌≡◌, String, Bool, true, false, ◌||◌, ◌&&◌, ◌==◌, string_eq, leb, if◌then◌else◌}
use Prim.Native.Char.{Char, code}

-- `str::to_lowercase`, with what it does to a name that is in lower case.
abbrev pub is_lower : String → Bool
is_lower String.[] = true
is_lower (String.◌∷◌ c cs) =
    (leb 97 (code c) && leb (code c) 122 || leb 48 (code c) && leb (code c) 57) && is_lower cs

pub record Lowercase : Type 0 where
  pub to_lowercase : String → String
  pub to_lowercase_lower : (s : String) → is_lower s ≡ true → to_lowercase s ≡ s

-- `str::contains`.
abbrev pub has_prefix : String → String → Bool
has_prefix String.[] s = true
has_prefix (String.◌∷◌ c p) String.[] = false
has_prefix (String.◌∷◌ c p) (String.◌∷◌ d s) = String.◌∷◌ c "" == String.◌∷◌ d "" && has_prefix p s

abbrev pub has_infix : String → String → Bool
has_infix p String.[] = p == ""
has_infix p (String.◌∷◌ c s) = has_prefix p (String.◌∷◌ c s) || has_infix p s

pub data Runtime : Type 0 where
  python deno : Runtime
  other : String → Runtime

-- `Display`, which is also the serialization.
unfoldable pub to_string : Runtime → String
to_string python = "python"
to_string deno = "deno"
to_string (other s) = s

module _ (lower : Lowercase) where
  -- `FromStr`, which is also the deserialization.
  unfoldable pub from_str : String → Runtime
  from_str s =
      let l = lower.to_lowercase s in
      if l == "python" || l == "py"
      then python
      else if l == "deno" || l == "typescript" || l == "ts"
      then deno
      else other s
