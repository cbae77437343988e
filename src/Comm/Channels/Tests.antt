-- ===== src/Comm/Channels/Tests.antt =====
-- Runs of the comm state over trees, and its theorems at concrete messages.
use runt.Prelude.{retain, String, true, none, some, List, [], ◌∷◌, ◌≡◌, refl, string_eq, is_some}
use runt.Prelude.Map.{get, insert, remove}
use runt.Json.Tree.{Tree, text, trees, tree_object}
use runt.Comm.{Captures, get_capture_widget, on_output_widget_msg_id_change}
use runt.Comm.Routing.{IsRouted, change-IsRouted, stack, stack-change}
use runt.Comm.Channels.{CommState, CommEntry, Op, opens, updates, new, run}
use runt.Comm.Channels.Lifetime.{IsLive, new-IsLive, run-IsLive, receiver_is_open}

abbrev empty : Captures
empty = record { capture_contexts = []; widget_captures = [] }

empty-IsRouted : IsRouted empty
unfolding new
empty-IsRouted = (new-IsLive trees).routed

-- `outer` captures the message "m".
abbrev outer : Captures
outer = on_output_widget_msg_id_change "outer" "m" empty

outer-IsRouted : IsRouted outer
outer-IsRouted = change-IsRouted "outer" "m" empty empty-IsRouted

change-IsRouted_example : IsRouted (on_output_widget_msg_id_change "inner" "m" outer)
change-IsRouted_example = change-IsRouted "inner" "m" outer outer-IsRouted

stack-change_example :
    stack (on_output_widget_msg_id_change "inner" "m" outer) "m" ≡ "outer" ∷ "inner" ∷ []
unfolding on_output_widget_msg_id_change get insert remove retain
stack-change_example = stack-change "inner" "m" "m" outer outer-IsRouted

inner_free : get "inner" outer.widget_captures ≡ none
unfolding on_output_widget_msg_id_change get insert remove
inner_free = refl

abbrev output_data : Tree
output_data = tree_object (("state", tree_object (("_model_name", text "OutputModel") ∷ [])) ∷ [])

abbrev msg_id_is : String → Tree
msg_id_is m = tree_object (("msg_id", text m) ∷ [])

-- An Output widget opens and captures the message "m".
abbrev messages : List (Op trees)
messages = opens "w" "jupyter.widget" output_data [] ∷ updates "w" (msg_id_is "m") ∷ []

abbrev capturing : CommState trees
capturing = run trees messages (new trees)

capturing_routes : get_capture_widget "m" capturing.captures ≡ some "w"
unfolding get_capture_widget new run on_output_widget_msg_id_change get insert remove
capturing_routes = refl

run-IsLive_example : IsLive trees (run trees messages (new trees))
run-IsLive_example = run-IsLive trees messages (new trees) (new-IsLive trees)

receiver_is_open_example : is_some (get "w" (run trees messages (new trees)).comms) ≡ true
receiver_is_open_example = receiver_is_open trees messages "m" "w" capturing_routes

abbrev slider : Tree
slider = tree_object (("value", text "1") ∷ ("min", text "0") ∷ [])

abbrev slider_entry : CommEntry trees
slider_entry = record {
  snapshot = record {
    comm_id = "s";
    target_name = "jupyter.widget";
    state = slider;
    model_module = none;
    model_name = none;
    buffers = [];
  };
  seq = 4;
}

abbrev with_slider : CommState trees
with_slider = record { comms = ("s", slider_entry) ∷ []; next_seq = 5; captures = empty }
