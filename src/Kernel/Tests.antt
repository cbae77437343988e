-- ===== src/Kernel/Tests.antt =====
-- Runs of the execution queue, and the theorems at concrete kernels.
use runt.Prelude.{String, true, none, List, [], ◌∷◌, ◌++◌, ◌≡◌, contains, refl, string_eq}
use runt.Kernel.{
  RoomKernel, Env, Op, queues, commands, shuts_down, execution_done_command, new, launched, step,
  run, queue_cell, err, broadcast, queue_changed, on_command_launch, on_command_auto,
}
use runt.Kernel.Spec.{advance}
use runt.Kernel.Invariant.{IsConsistent, pending, run-IsConsistent, launched-new-IsConsistent}
use runt.Kernel.Pending.{step-pending}
use runt.Kernel.Order.{requests, history, queue_cell-history}
use runt.Kernel.Errors.{queue_cell_stopped, failing_cell_differs, failing, serve}

abbrev reached : String → Env
reached m = record { msg_id = m; connects = true; sends = true }

abbrev ready : RoomKernel
unfolding launched new
ready = launched 7 "kernel.json" new

abbrev script : List Op
script =
    queues (reached "m1") "a" "x = 1"
    ∷ queues (reached "m2") "b" "y = 2"
    ∷ queues (reached "m3") "b" "y = 2"
    ∷ queues (reached "m4") "c" "z = 3"
    ∷ []

-- Cell `a` runs, `b` and `c` wait, and the second `b` was dropped.
abbrev three : RoomKernel
unfolding launched new run
three = run script (launched 7 "kernel.json" new)

pending-three : pending three ≡ "a" ∷ "b" ∷ "c" ∷ []
unfolding launched new run step
pending-three = refl

history-three : history three ≡ "x = 1" ∷ "y = 2" ∷ "z = 3" ∷ []
unfolding launched new run step
history-three = refl

ready-IsConsistent : IsConsistent (launched 7 "kernel.json" new)
ready-IsConsistent = launched-new-IsConsistent 7 "kernel.json"

run-IsConsistent_example : IsConsistent (run script (launched 7 "kernel.json" new))
run-IsConsistent_example = run-IsConsistent script (launched 7 "kernel.json" new) ready-IsConsistent

step-pending_example :
    pending (step (commands (reached "m5") (execution_done_command "a")) three) ≡ "b" ∷ "c" ∷ []
unfolding launched new run step advance contains
step-pending_example =
    step-pending (commands (reached "m5") (execution_done_command "a")) three
      run-IsConsistent_example refl refl

queue_cell-history_example :
    history (queue_cell (reached "m5") "d" "w = 4" three).1
    ≡ "x = 1" ∷ "y = 2" ∷ "z = 3" ∷ "w = 4" ∷ []
unfolding launched new run step contains
queue_cell-history_example = queue_cell-history (reached "m5") "d" "w = 4" three refl refl

stopped-IsConsistent : IsConsistent (run (shuts_down ∷ []) (launched 7 "kernel.json" new))
stopped-IsConsistent =
    run-IsConsistent (shuts_down ∷ []) (launched 7 "kernel.json" new) ready-IsConsistent

abbrev stopped : RoomKernel
unfolding launched new run
stopped = run (shuts_down ∷ []) (launched 7 "kernel.json" new)

queue_cell_stopped_example :
    ((queue_cell (reached "m1") "a" "x = 1" stopped).0 ≡ err "No kernel running")
    × (pending (queue_cell (reached "m1") "a" "x = 1" stopped).1 ≡ [])
    × ((queue_cell (reached "m1") "a" "x = 1" stopped).1.effects
        ≡ stopped.effects ++ broadcast (queue_changed none ("a" ∷ [])) ∷ [])
unfolding launched new run step
queue_cell_stopped_example =
    queue_cell_stopped (reached "m1") "a" "x = 1" stopped stopped-IsConsistent refl

failing_cell_differs_example :
    (requests (serve (on_command_launch (reached "m5")) (failing "a") three).effects ≡ "x = 1" ∷ [])
    × (pending (serve (on_command_launch (reached "m5")) (failing "a") three) ≡ [])
    × (requests (serve (on_command_auto (reached "m5")) (failing "a") three).effects
        ≡ "x = 1" ∷ "y = 2" ∷ [])
    × (pending (serve (on_command_auto (reached "m5")) (failing "a") three) ≡ "b" ∷ "c" ∷ [])
unfolding launched new run step
failing_cell_differs_example =
    failing_cell_differs (reached "m5") "a" (record { cell_id = "b"; code = "y = 2" })
      (record { cell_id = "c"; code = "z = 3" } ∷ []) three refl refl refl refl
