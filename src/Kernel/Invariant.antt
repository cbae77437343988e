-- ===== src/Kernel/Invariant.antt =====
-- What holds of a kernel of kernel_manager.rs between two calls.
use runt.Prelude.{
  String, true, false, not, none, some, List, [], ◌∷◌, ◌++◌, ◌≡◌, refl, arith, ◌==◌, string_eq, ℕ,
  Bool-cases, inl, inr, contains, is_some, Option, beq_refl, ap,
}
use runt.Prelude.Map.{Map, insert, retain_entries}
use runt.Prelude.Distinct.{
  Distinct, values, Distinct-snoc, contains-retain, Distinct-retain, values-retain_entries,
  contains-remove, Distinct-remove,
}
use runt.Kernel.{
  RoomKernel, QueuedCell, Env, Op, queues, commands, interrupts, shuts_down, execution_done_command,
  cell_error, ids, step, run, new, launched, queue_cell, execution_done, process_next, start_next,
  send_execute, clear_queue, interrupt, shutdown, on_command_launch, register, busy, idle,
  is_executing,
}

abbrev pub running_first : Option String → List String
running_first none = []
running_first (some c) = c ∷ []

-- The cell that runs, then the cells that wait.
abbrev pub pending : RoomKernel → List String
pending k = running_first k.executing ++ ids k.queue

pub record IsConsistent (k : RoomKernel) : Type 0 where
  pub distinct : Distinct (pending k)
  pub busy_when_executing : is_some k.executing ≡ true → k.status ≡ busy
  pub executing_when_busy : k.status ≡ busy → is_some k.executing ≡ true
  pub none_waits_alone : k.executing ≡ none → k.queue ≡ []
  pub stopped_runs_nothing : k.shell_writer ≡ none → k.executing ≡ none
  pub one_message_each : Distinct (values k.cell_id_map)

-- Registering a message leaves one message for each cell.
register-Distinct :
    (msg_id cell_id : String) (m : Map String String)
    → Distinct (values m)
    → Distinct (values (register msg_id cell_id m))
unfolding register insert
register-Distinct msg_id cell_id m d =
    let p = λ (v : String). not (v == cell_id) in
    let fresh : contains (values (retain_entries (λ _ v. p v) m)) cell_id ≡ false =
      rw (values-retain_entries p m)
        (ground (arith, contains-retain p (values m) cell_id, beq_refl cell_id)) in
    (
      contains-remove msg_id cell_id _ fresh,
      Distinct-remove msg_id _ (rw (values-retain_entries p m) (Distinct-retain p (values m) d)),
    )

send_execute-IsConsistent :
    (env : Env) (cell : QueuedCell) (k : RoomKernel)
    → k.executing ≡ none
    → is_some k.shell_writer ≡ true
    → Distinct (cell.cell_id ∷ ids k.queue)
    → Distinct (values k.cell_id_map)
    → IsConsistent (send_execute env cell k).1
unfolding send_execute
send_execute-IsConsistent env cell k none_runs up d m =
    ground (arith, register-Distinct env.msg_id cell.cell_id k.cell_id_map m)

pub ids-snoc : (q : List QueuedCell) (c : QueuedCell) → ids (q ++ c ∷ []) ≡ ids q ++ c.cell_id ∷ []
ids-snoc [] c = refl
ids-snoc (x ∷ q) c = ap (◌∷◌ x.cell_id) (ids-snoc q c)

queue_cell-IsConsistent :
    (env : Env) (cell_id code : String) (k : RoomKernel)
    → IsConsistent k
    → IsConsistent (queue_cell env cell_id code k).1
unfolding queue_cell
queue_cell-IsConsistent env cell_id code k v = ground (
  arith,
  ids-snoc k.queue (record { cell_id = cell_id; code = code }),
  Distinct-snoc (pending k) cell_id,
  register-Distinct env.msg_id cell_id k.cell_id_map,
)

-- The queue that is served when a cell is done; `rest` is that queue.
served-IsConsistent :
    (env : Env) (rest : List QueuedCell) (k : RoomKernel)
    → k.executing ≡ none
    → k.status ≡ idle
    → is_some k.shell_writer ≡ true
    → Distinct (ids rest)
    → Distinct (values k.cell_id_map)
    → k.queue ≡ rest
    → IsConsistent (start_next env rest k).1
unfolding start_next
served-IsConsistent env [] k none_runs calm up d m e = ground arith
served-IsConsistent env (cell ∷ rest) k none_runs calm up d m e =
    ground (arith, register-Distinct env.msg_id cell.cell_id k.cell_id_map)

execution_done-IsConsistent :
    (env : Env) (cell_id : String) (k : RoomKernel)
    → IsConsistent k
    → IsConsistent (execution_done env cell_id k).1
unfolding execution_done process_next
execution_done-IsConsistent env cell_id k v = elim (Bool-cases (is_executing cell_id k.executing)) [
  | inl hit ↦ rw hit (
      served-IsConsistent env k.queue _ refl refl (ground arith) (ground arith) v.one_message_each
        refl)
  | inr miss ↦ rw miss v
]

clear_queue-IsConsistent : (k : RoomKernel) → IsConsistent k → IsConsistent (clear_queue k).1
unfolding clear_queue contains
clear_queue-IsConsistent k v = ground arith

interrupt-IsConsistent :
    (env : Env) (k : RoomKernel) → IsConsistent k → IsConsistent (interrupt env k).1
unfolding interrupt contains
interrupt-IsConsistent env k v = ground arith

shutdown-IsConsistent : (k : RoomKernel) → IsConsistent k → IsConsistent (shutdown k).1
unfolding shutdown
shutdown-IsConsistent k v = ground arith

step-IsConsistent : (o : Op) (k : RoomKernel) → IsConsistent k → IsConsistent (step o k)
unfolding step on_command_launch
step-IsConsistent (queues env cell_id code) k v = queue_cell-IsConsistent env cell_id code k v
step-IsConsistent (commands env (execution_done_command cell_id)) k v =
    execution_done-IsConsistent env cell_id k v
step-IsConsistent (commands env (cell_error cell_id)) k v = clear_queue-IsConsistent k v
step-IsConsistent (interrupts env) k v = interrupt-IsConsistent env k v
step-IsConsistent shuts_down k v = shutdown-IsConsistent k v

pub launched-new-IsConsistent :
    (handle : ℕ) (file : String) → IsConsistent (launched handle file new)
unfolding launched new
launched-new-IsConsistent handle file = ground arith

-- Every history of calls keeps a consistent kernel consistent: no cell stands twice among the one
-- that runs and those that wait, the status is busy exactly while a cell runs, no cell waits while
-- none runs, a stopped kernel runs none, and each cell has one message id at most.
pub run-IsConsistent : (os : List Op) (k : RoomKernel) → IsConsistent k → IsConsistent (run os k)
unfolding run
run-IsConsistent [] k v = v
run-IsConsistent (o ∷ os) k v = run-IsConsistent os (step o k) (step-IsConsistent o k v)
