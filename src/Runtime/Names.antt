-- ===== src/Runtime/Names.antt =====
-- The names of runtimes: writing one and reading it back.
use runt.Prelude.{
  ◌≡◌, refl, ap, sym, ◌∙◌, String, Bool, true, false, ◌||◌, ◌==◌, string_eq, if◌then◌else◌,
}
use runt.Runtime.{Lowercase, Runtime, python, deno, other, to_string, from_str}

module _ (lower : Lowercase) where
  abbrev pub named_python : String → Bool
  named_python s = let l = lower.to_lowercase s in l == "python" || l == "py"

  abbrev pub named_deno : String → Bool
  named_deno s = let l = lower.to_lowercase s in l == "deno" || l == "typescript" || l == "ts"

  abbrev pub kind_of : Bool → Bool → String → Runtime
  kind_of a b s = if a then python else if b then deno else other s

  from_str-kind_of : (s : String) → from_str lower s ≡ kind_of (named_python s) (named_deno s) s
  unfolding from_str
  from_str-kind_of s = refl

  read_again :
      (a b : Bool) (s : String)
      → named_python s ≡ a
      → named_deno s ≡ b
      → from_str lower (to_string (kind_of a b s)) ≡ kind_of a b s
  unfolding to_string from_str
  read_again true b s p d = rw (lower.to_lowercase_lower "python" refl) refl
  read_again false true s p d = rw (lower.to_lowercase_lower "deno" refl) refl
  read_again false false s p d =
      ap (λ a. kind_of a (named_deno s) s) p ∙ ap (λ b. kind_of false b s) d

  -- A runtime that was read from a setting survives being written and read again, also one that this
  -- version does not know.
  from_str-to_string :
      (s : String) → from_str lower (to_string (from_str lower s)) ≡ from_str lower s
  from_str-to_string s =
      ap (λ r. from_str lower (to_string r)) (from_str-kind_of s)
      ∙ read_again (named_python s) (named_deno s) s refl refl
      ∙ sym (from_str-kind_of s)
