-- ===== src/NotebookState/Lines.antt =====
-- The lines of a source, as nbformat keeps them: what `source_to_lines` gives, and only it.
use Prim.Native.Char.{Char}
use runt.Prelude.{
  String, Bool, true, false, not, ◌&&◌, ◌||◌, List, [], ◌∷◌, string_eq, ◌==◌, ◌≡◌, ◌↔◌, refl, ap,
  sym, ◌∙◌, arith, Bool-cases, inl, inr, beq→eq, if◌then◌else◌,
}
use runt.NotebookState.{append, join, is_newline, push_front, split_inclusive, source_to_lines}

-- A newline at the end, and none before it.
abbrev pub is_ended : String → Bool
is_ended String.[] = false
is_ended (String.◌∷◌ c cs) = if is_newline c then cs == "" else is_ended cs

abbrev pub no_newline : String → Bool
no_newline String.[] = true
no_newline (String.◌∷◌ c cs) = not (is_newline c) && no_newline cs

abbrev pub is_unended : String → Bool
is_unended String.[] = false
is_unended (String.◌∷◌ c cs) = not (is_newline c) && no_newline cs

-- Each line but the last has its newline at the end; the last may lack it, and is not empty.
abbrev pub are_lines : List String → Bool
are_lines [] = true
are_lines (line ∷ []) = is_ended line || is_unended line
are_lines (line ∷ next ∷ lines) = is_ended line && are_lines (next ∷ lines)

join-step :
    (b : Bool) (c : Char) (lines : List String)
    → join (if b then String.◌∷◌ c "" ∷ lines else push_front c lines) ≡ String.◌∷◌ c (join lines)
join-step true c lines = refl
join-step false c [] = refl
join-step false c (line ∷ lines) = refl

join-split : (s : String) → join (split_inclusive s) ≡ s
join-split String.[] = refl
join-split (String.◌∷◌ c cs) =
    join-step (is_newline c) c (split_inclusive cs) ∙ ap (String.◌∷◌ c) (join-split cs)

unended-no_newline : (line : String) → is_unended line ≡ true → no_newline line ≡ true
unended-no_newline String.[] h = refl
unended-no_newline (String.◌∷◌ c cs) h = h

are_lines-push_front :
    (c : Char) (lines : List String)
    → is_newline c ≡ false
    → are_lines lines ≡ true
    → are_lines (push_front c lines) ≡ true
are_lines-push_front c [] h l = ground (arith, h)
are_lines-push_front c (line ∷ []) h l = ground (arith, h, l, unended-no_newline line)
are_lines-push_front c (line ∷ next ∷ lines) h l = ground (arith, h, l)

are_lines-newline :
    (c : Char) (lines : List String)
    → is_newline c ≡ true
    → are_lines lines ≡ true
    → are_lines (String.◌∷◌ c "" ∷ lines) ≡ true
are_lines-newline c [] h l = ground (arith, h)
are_lines-newline c (next ∷ lines) h l = ground (arith, h, l)

are_lines-split : (s : String) → are_lines (split_inclusive s) ≡ true
are_lines-split String.[] = refl
are_lines-split (String.◌∷◌ c cs) =
    let rest = are_lines-split cs in
    ground (
      arith,
      are_lines-newline c (split_inclusive cs),
      are_lines-push_front c (split_inclusive cs),
      rest,
    )

split-ended :
    (line s : String)
    → is_ended line ≡ true
    → split_inclusive (append line s) ≡ line ∷ split_inclusive s
split-ended String.[] s h = ground (arith, h)
split-ended (String.◌∷◌ c cs) s h = elim (Bool-cases (is_newline c)) [
  | inl newline ↦
      let empty : cs ≡ "" = beq→eq cs "" (ground (arith, h, newline)) in rw (empty, newline) refl
  | inr other ↦ let rest = split-ended cs s (ground (arith, h, other)) in rw (other, rest) refl
]

split-no_newline :
    (line : String) (c : Char)
    → is_newline c ≡ false
    → no_newline line ≡ true
    → split_inclusive (String.◌∷◌ c line) ≡ String.◌∷◌ c line ∷ []
split-no_newline String.[] c h l = rw h refl
split-no_newline (String.◌∷◌ d cs) c h l =
    let rest = split-no_newline cs d (ground (arith, l)) (ground (arith, l)) in rw (h, rest) refl

split-unended : (line : String) → is_unended line ≡ true → split_inclusive line ≡ line ∷ []
split-unended String.[] h = ground (arith, h)
split-unended (String.◌∷◌ c cs) h = split-no_newline cs c (ground (arith, h)) (ground (arith, h))

append_nil : (s : String) → append s "" ≡ s
append_nil String.[] = refl
append_nil (String.◌∷◌ c cs) = ap (String.◌∷◌ c) (append_nil cs)

split-join : (lines : List String) → are_lines lines ≡ true → split_inclusive (join lines) ≡ lines
split-join [] h = refl
split-join (line ∷ []) h = elim (Bool-cases (is_ended line)) [
  | inl ended ↦ split-ended line "" ended
  | inr open_ ↦ ap split_inclusive (append_nil line) ∙ split-unended line (ground (arith, h, open_))
]
split-join (line ∷ next ∷ lines) h =
    let rest = split-join (next ∷ lines) (ground (arith, h)) in
    split-ended line (join (next ∷ lines)) (ground (arith, h)) ∙ ap (◌∷◌ line) rest

-- The guard for the empty source gives what the split gives.
source_to_lines-split : (s : String) → source_to_lines s ≡ split_inclusive s
unfolding source_to_lines
source_to_lines-split s = elim (Bool-cases (s == "")) [
  | inl empty ↦ let e : s ≡ "" = beq→eq s "" empty in ground (arith, empty, ap split_inclusive e)
  | inr other ↦ ground (arith, other)
]

-- The lines of a source are the one list of proper lines whose text it is: each line but the last ends
-- in its only newline, and the last is not empty and has a newline at most at its end.
pub source_to_lines_iff :
    (source : String) (lines : List String)
    → (source_to_lines source ≡ lines) ↔ ((join lines ≡ source) × (are_lines lines ≡ true))
source_to_lines_iff source lines = (
  λ h.
      let e : split_inclusive source ≡ lines = sym (source_to_lines-split source) ∙ h in
      (ap join (sym e) ∙ join-split source, ap are_lines (sym e) ∙ are_lines-split source),
  λ h. source_to_lines-split source ∙ ap split_inclusive (sym (h.0)) ∙ split-join lines (h.1),
)
