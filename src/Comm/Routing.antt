-- ===== src/Comm/Routing.antt =====
-- Which Output widget an output goes to (comm_state.rs): the two dictionaries agree, and captures nest.
use mathlib.Core.List.{append-nil}
use runt.Prelude.{
  String, true, false, not, none, some, List, [], ◌∷◌, ◌++◌, ◌≡◌, ◌≢◌, refl, sym, ◌∙◌, arith, ◌==◌,
  string_eq, if◌then◌else◌, is_empty, last, retain, unwrap_or, contains, Option-cases, Bool-cases,
  inl, inr, last-snoc,
}
use runt.Prelude.Map.{Map, get, insert, get-remove, get-insert}
use runt.Prelude.Distinct.{
  Distinct, contains-append, Distinct-snoc, contains-retain, Distinct-retain,
}
use runt.Comm.{
  Captures, drop_from, clear_capture_for_widget, on_output_widget_msg_id_change, get_capture_widget,
}

-- The widgets that capture a message, the outermost first.
abbrev pub stack : Captures → String → List String
stack s msg_id = unwrap_or (get msg_id s.capture_contexts) []

abbrev pub without : String → List String → List String
without id = retain (λ j. not (j == id))

-- `widget_captures` says which stack a widget stands in, and it stands there once.
pub record IsRouted (s : Captures) : Type 0 where
  pub listed : (w m : String) → get w s.widget_captures ≡ some m → contains (stack s m) w ≡ true
  pub owned : (w m : String) → contains (stack s m) w ≡ true → get w s.widget_captures ≡ some m
  pub no_empty_stack : (m : String) → get m s.capture_contexts ≢ some []
  pub distinct : (m : String) → Distinct (stack s m)

is_empty→eq : (xs : List String) → is_empty xs ≡ true → xs ≡ []
is_empty→eq [] h = refl
is_empty→eq (x ∷ xs) h = cc

get-drop_from :
    (m m' w : String) (c : Map String (List String))
    → unwrap_or (get m' (drop_from m w c)) []
      ≡ (if m == m' then without w (unwrap_or (get m' c) []) else unwrap_or (get m' c) [])
unfolding drop_from retain
get-drop_from m m' w c = elim (Option-cases (get m c)) [
  | inl e ↦ ground (arith, string_eq.same_iff m m')
  | inr (st, e) ↦ ground (
    arith,
    e,
    string_eq.same_iff m m',
    get-remove m' m c,
    get-insert m' m (without w st) c,
    is_empty→eq (without w st),
  )
]

no_empty-drop_from :
    (m m' w : String) (c : Map String (List String))
    → get m' c ≢ some []
    → get m' (drop_from m w c) ≢ some []
unfolding drop_from
no_empty-drop_from m m' w c h = elim (Option-cases (get m c)) [
  | inl e ↦ ground (arith, string_eq.same_iff m m')
  | inr (st, e) ↦
      ground
        (arith, e, string_eq.same_iff m m', get-remove m' m c, get-insert m' m (without w st) c)
]

module _ (w : String) (s : Captures) (v : IsRouted s) where
  pub clear-IsRouted : IsRouted (clear_capture_for_widget w s)
  unfolding clear_capture_for_widget
  clear-IsRouted = elim (Option-cases (get w s.widget_captures)) [
    | inl e ↦ rw (e, clear_capture_for_widget) v
    | inr (old, e) ↦
        rw (e, clear_capture_for_widget)
          (record {
            listed = λ x m. ground (
              arith,
              v.listed x m,
              v.owned x m,
              get-remove x w s.widget_captures,
              get-drop_from old m w s.capture_contexts,
              contains-retain (λ j. not (j == w)) (stack s m) x,
              string_eq.same_iff x w,
              string_eq.same_iff w x,
            );
            owned = λ x m. ground (
              arith,
              v.listed x m,
              v.owned x m,
              get-remove x w s.widget_captures,
              get-drop_from old m w s.capture_contexts,
              contains-retain (λ j. not (j == w)) (stack s m) x,
              string_eq.same_iff x w,
              string_eq.same_iff w x,
              string_eq.same_iff old m,
            );
            no_empty_stack =
                λ m. no_empty-drop_from old m w s.capture_contexts (v.no_empty_stack m);
            distinct = λ m. ground (
              arith,
              v.distinct m,
              get-drop_from old m w s.capture_contexts,
              Distinct-retain (λ j. not (j == w)) (stack s m),
            );
          })
  ]

-- The second half of `on_output_widget_msg_id_change`, on a widget that captures nothing.
abbrev pushed : String → String → Captures → Captures
pushed w m s = record {
  capture_contexts = insert m (stack s m ++ w ∷ []) s.capture_contexts;
  widget_captures = insert w m s.widget_captures;
}

append-ne-nil : (xs : List String) (a : String) → xs ++ a ∷ [] ≢ []
append-ne-nil [] a = λ e. cc
append-ne-nil (x ∷ xs) a = λ e. cc

module _ (w m : String) (s : Captures) (v : IsRouted s)
    (free : get w s.widget_captures ≡ none) where
  pushed-IsRouted : IsRouted (pushed w m s)
  unfolding contains
  pushed-IsRouted = record {
    listed = λ x m'. ground (
      arith,
      free,
      v.listed x m',
      get-insert x w m s.widget_captures,
      get-insert m' m (stack s m ++ w ∷ []) s.capture_contexts,
      contains-append (stack s m) (w ∷ []) x,
      string_eq.same_iff w x,
      string_eq.same_iff m m',
    );
    owned = λ x m'. ground (
      arith,
      free,
      v.owned x m',
      v.owned x m,
      get-insert x w m s.widget_captures,
      get-insert m' m (stack s m ++ w ∷ []) s.capture_contexts,
      contains-append (stack s m) (w ∷ []) x,
      string_eq.same_iff w x,
      string_eq.same_iff m m',
    );
    no_empty_stack = λ m'. ground (
      arith,
      v.no_empty_stack m',
      get-insert m' m (stack s m ++ w ∷ []) s.capture_contexts,
      append-ne-nil (stack s m) w,
    );
    distinct = λ m'. ground (
      arith,
      v.distinct m',
      v.owned w m,
      get-insert m' m (stack s m ++ w ∷ []) s.capture_contexts,
      Distinct-snoc (stack s m) w,
      string_eq.same_iff m m',
    );
  }

cleared-free :
    (w : String) (s : Captures) → get w (clear_capture_for_widget w s).widget_captures ≡ none
unfolding clear_capture_for_widget
cleared-free w s =
    ground (arith, string_eq.same_iff w w, λ (m : String). get-remove w w s.widget_captures)

-- A widget's msg_id change and its close keep the two dictionaries in agreement: a widget stands in
-- the stack of the message that it captures and in no other, once, and no stack is empty.
pub change-IsRouted :
    (w m : String) (s : Captures) → IsRouted s → IsRouted (on_output_widget_msg_id_change w m s)
unfolding on_output_widget_msg_id_change
change-IsRouted w m s v = elim (Bool-cases (m == "")) [
  | inl off ↦ rw off (clear-IsRouted w s v)
  | inr on ↦ rw on (pushed-IsRouted w m _ (clear-IsRouted w s v) (cleared-free w s))
]

without_absent : (w : String) (xs : List String) → contains xs w ≡ false → without w xs ≡ xs
unfolding contains retain
without_absent w [] h = refl
without_absent w (x ∷ xs) h = ground (arith, without_absent w xs)

stack-clear :
    (w : String) (s : Captures)
    → IsRouted s
    → (m : String) → stack (clear_capture_for_widget w s) m ≡ without w (stack s m)
unfolding clear_capture_for_widget
stack-clear w s v m = elim (Option-cases (get w s.widget_captures)) [
  | inl e ↦ ground (arith, e, v.owned w m, without_absent w (stack s m))
  | inr (old, e) ↦ ground (
    arith,
    e,
    v.owned w m,
    without_absent w (stack s m),
    get-drop_from old m w s.capture_contexts,
    string_eq.same_iff old m,
  )
]

-- What a change of a widget's msg_id does to every stack: the widget leaves each stack that it stands
-- in, and goes on top of the new message's stack unless the new msg_id is empty.
pub stack-change :
    (w m m' : String) (s : Captures)
    → IsRouted s
    → stack (on_output_widget_msg_id_change w m s) m'
      ≡ without w (stack s m') ++ (if m == "" then [] else if m == m' then w ∷ [] else [])
unfolding on_output_widget_msg_id_change
stack-change w m m' s v = ground (
  arith,
  stack-clear w s v m',
  append-nil (without w (stack s m')),
  get-insert m' m (stack (clear_capture_for_widget w s) m ++ w ∷ [])
      (clear_capture_for_widget w s).capture_contexts,
  string_eq.same_iff m m',
)

get_capture-eq-last : (m : String) (s : Captures) → get_capture_widget m s ≡ last (stack s m)
unfolding get_capture_widget
get_capture-eq-last m s = ground arith

without_top :
    (w : String) (xs : List String) → contains xs w ≡ false → without w (xs ++ w ∷ []) ≡ xs
unfolding contains retain
without_top w [] h = ground (arith, string_eq.same_iff w w)
without_top w (x ∷ xs) h = ground (arith, without_top w xs)

-- A widget that starts to capture a message receives its outputs; when it stops, they go where they
-- went before, and so do those of every other message.
capture_nests :
    (w m : String) (s : Captures)
    → IsRouted s
    → get w s.widget_captures ≡ none
    → m ≢ ""
    → let inner = on_output_widget_msg_id_change w m s in
      (get_capture_widget m inner ≡ some w)
      × ((m' : String)
          → get_capture_widget m' (on_output_widget_msg_id_change w "" inner)
            ≡ get_capture_widget m' s)
capture_nests w m s v free some_id =
    let inner = on_output_widget_msg_id_change w m s in
    (
      ground (
        arith,
        get_capture-eq-last m inner,
        stack-change w m m s v,
        string_eq.same_iff m "",
        string_eq.same_iff m m,
        last-snoc (without w (stack s m)) w,
      ),
      λ m'. ground (
        arith,
        get_capture-eq-last m' s,
        get_capture-eq-last m' (on_output_widget_msg_id_change w "" inner),
        stack-change w "" m' inner (change-IsRouted w m s v),
        stack-change w m m' s v,
        v.owned w m',
        without_absent w (stack s m'),
        without_top w (stack s m'),
        append-nil (stack s m'),
        append-nil (without w (stack inner m')),
        string_eq.same_iff "" "",
      ),
    )

-- Which widgets capture, after each of the two operations.
pub clear_captures :
    (w i : String) (s : Captures)
    → get w (clear_capture_for_widget i s).widget_captures
      ≡ (if i == w then none else get w s.widget_captures)
unfolding clear_capture_for_widget
clear_captures w i s = ground (arith, get-remove w i s.widget_captures, string_eq.same_iff i w)

pub change_captures_of :
    (w i m : String) (s : Captures)
    → get w (on_output_widget_msg_id_change i m s).widget_captures
      ≡ (if i == w then (if m == "" then none else some m) else get w s.widget_captures)
unfolding on_output_widget_msg_id_change
change_captures_of w i m s =
    ground
      (arith, clear_captures w i s, get-insert w i m (clear_capture_for_widget i s).widget_captures)

contains-last : (xs : List String) (a : String) → last xs ≡ some a → contains xs a ≡ true
unfolding contains
contains-last [] a h = cc
contains-last (x ∷ []) a h = ground (arith, string_eq.same_iff x a)
contains-last (x ∷ y ∷ xs) a h = ground (arith, contains-last (y ∷ xs) a h)

-- The widget that receives a message's outputs captures that message.
pub captures_of_get :
    (m w : String) (s : Captures)
    → IsRouted s
    → get_capture_widget m s ≡ some w
    → get w s.widget_captures ≡ some m
captures_of_get m w s v h =
    v.owned w m (contains-last (stack s m) w (sym (get_capture-eq-last m s) ∙ h))
