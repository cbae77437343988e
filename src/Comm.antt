-- ===== src/Comm.antt =====
-- crates/runtimed/src/comm_state.rs: the widgets' comm channels of a notebook room, and the Output
-- widgets that capture outputs. The locks are taken in one order and held by one call at a time, so a
-- method is a function on the state.
pub mod Routing
pub mod Channels
use runt.Prelude.{
  ℕ, String, ◌+◌, ◌%◌, ◌^◌, Bool, true, false, not, Option, none, some, List, [], ◌∷◌, ◌++◌, ◌==◌,
  string_eq, leb, if◌then◌else◌, is_empty, last, retain, unwrap_or, map_some,
}
use runt.Prelude.Map.{Map}
use runt.Prelude.Map
use runt.Json.{Json}

abbrev pub and_then {ℓ κ} : {A : Type ℓ} {B : Type κ} → Option A → (A → Option B) → Option B
and_then none f = none
and_then (some a) f = f a

-- The part of the state that routes outputs: msg_id -> stack of comm_ids (the last one receives), and
-- comm_id -> the msg_id that it captures.
pub record Captures : Type 0 where
  pub capture_contexts : Map String (List String)
  pub widget_captures : Map String String

-- `stack.retain(|id| id != comm_id)`, and no empty stack is left.
unfoldable pub drop_from : String → String → Map String (List String) → Map String (List String)
drop_from msg_id comm_id contexts = elim (Map.get msg_id contexts) [
  | none ↦ contexts
  | some stack ↦
      let kept = retain (λ id. not (id == comm_id)) stack in
      if is_empty kept then Map.remove msg_id contexts else Map.insert msg_id kept contexts
]

unfoldable pub clear_capture_for_widget : String → Captures → Captures
unfolding drop_from
clear_capture_for_widget comm_id s = elim (Map.get comm_id s.widget_captures) [
  | none ↦ s
  | some msg_id ↦ record {
    capture_contexts = drop_from msg_id comm_id s.capture_contexts;
    widget_captures = Map.remove comm_id s.widget_captures;
  }
]

unfoldable pub on_output_widget_msg_id_change : String → String → Captures → Captures
unfolding clear_capture_for_widget
on_output_widget_msg_id_change comm_id new_msg_id s =
    let freed = clear_capture_for_widget comm_id s in
    if new_msg_id == "" then freed else record {
      capture_contexts =
          Map.insert new_msg_id
            (unwrap_or (Map.get new_msg_id freed.capture_contexts) [] ++ comm_id ∷ [])
            freed.capture_contexts;
      widget_captures = Map.insert comm_id new_msg_id freed.widget_captures;
    }

unfoldable pub get_capture_widget : String → Captures → Option String
get_capture_widget msg_id s = and_then (Map.get msg_id s.capture_contexts) last
