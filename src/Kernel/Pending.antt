-- ===== src/Kernel/Pending.antt =====
-- The queue of kernel_manager.rs against its specification: the list of the pending cells.
use runt.Prelude.{
  String, true, none, List, [], ◌∷◌, ◌≡◌, refl, arith, ◌==◌, string_eq, contains, is_some,
  Bool-cases, Option-cases, inl, inr,
}
use runt.Kernel.{
  RoomKernel, QueuedCell, Env, Op, queues, commands, interrupts, shuts_down, execution_done_command,
  cell_error, ids, step, queue_cell, execution_done, process_next, start_next, clear_queue,
  interrupt, shutdown, on_command_launch,
}
use runt.Kernel.Spec.{enqueue, finish, keep_first, advance}
use runt.Kernel.Invariant.{IsConsistent, pending, ids-snoc}

queue_cell-pending :
    (env : Env) (id code : String) (k : RoomKernel)
    → IsConsistent k
    → is_some k.shell_writer ≡ true
    → pending (queue_cell env id code k).1 ≡ enqueue id (pending k)
unfolding queue_cell enqueue contains
queue_cell-pending env id code k v up =
    ground
      (arith, ids-snoc k.queue (record { cell_id = id; code = code }), string_eq.same_iff id id)

served-pending :
    (env : Env) (cells : List QueuedCell) (k : RoomKernel)
    → k.executing ≡ none
    → k.queue ≡ cells
    → is_some k.shell_writer ≡ true
    → pending (start_next env cells k).1 ≡ ids cells
unfolding start_next
served-pending env [] k none_runs e up = ground arith
served-pending env (cell ∷ rest) k none_runs e up = ground arith

execution_done-pending :
    (env : Env) (id : String) (k : RoomKernel)
    → IsConsistent k
    → pending (execution_done env id k).1 ≡ finish id (pending k)
unfolding execution_done process_next finish
execution_done-pending env id k v = elim (Option-cases k.executing) [
  | inl none_runs ↦ ground (arith, v.none_waits_alone none_runs)
  | inr (c, runs) ↦ elim (Bool-cases (c == id)) [
    | inl hit ↦ rw (runs, hit) (served-pending env k.queue _ refl refl (ground arith))
    | inr miss ↦ ground arith
  ]
]

-- On a consistent kernel that runs and is connected, each call acts on the pending cells as the
-- specification says: queueing adds a cell that is not pending to the end, the end of the cell that
-- runs removes it and no other cell's end does, a cell's error and an interrupt that reaches the
-- kernel keep the cell that runs alone, and a shutdown drops all.
pub step-pending :
    (o : Op) (k : RoomKernel)
    → IsConsistent k
    → is_some k.shell_writer ≡ true
    → is_some k.connection_info ≡ true
    → pending (step o k) ≡ advance o (pending k)
unfolding step on_command_launch advance clear_queue interrupt shutdown keep_first
step-pending (queues env id code) k v up there = queue_cell-pending env id code k v up
step-pending (commands env (execution_done_command id)) k v up there =
    execution_done-pending env id k v
step-pending (commands env (cell_error id)) k v up there = ground arith
step-pending (interrupts env) k v up there = ground arith
step-pending shuts_down k v up there = refl
