-- ===== src/Kernel/Errors.antt =====
-- Failures of kernel_manager.rs, and the two command tasks of notebook_sync_server.rs.
use mathlib.Core.List.{append-nil, append_assoc}
use runt.Prelude.{
  ℕ, false, String, true, Option, none, some, List, [], ◌∷◌, ◌++◌, ◌≡◌, beq_refl, ap, ◌∙◌, refl,
  arith, string_eq, contains, is_some,
}
use runt.Kernel.{
  RoomKernel, idle, execution_done_event, QueuedCell, QueueCommand, execution_done_command,
  execution_done, send_execute, Env, err, broadcast, queue_changed, cell_error, queue_cell,
  process_next, start_next, on_command_launch, on_command_auto, clear_queue, ids, emit, Effect,
  abort_task, kill_group, remove_file, shutdown_request, shutdown, emit_some, is_running,
  kernel_status, ok,
}
use runt.Kernel.Order.{requests, requests-append}
use runt.Kernel.Invariant.{IsConsistent, pending}

-- A kernel that does not run refuses a cell and keeps none; yet the last that its peers are told is
-- that the cell is queued.
pub queue_cell_stopped :
    (env : Env) (id code : String) (k : RoomKernel)
    → IsConsistent k
    → k.shell_writer ≡ none
    → ((queue_cell env id code k).0 ≡ err "No kernel running")
      × (pending (queue_cell env id code k).1 ≡ [])
      × ((queue_cell env id code k).1.effects
          ≡ k.effects ++ broadcast (queue_changed none (id ∷ [])) ∷ [])
unfolding queue_cell process_next contains
queue_cell_stopped env id code k v stopped = ground (arith, v.stopped_runs_nothing stopped)

-- The two commands that a failing cell sends: its error, then its end.
abbrev pub failing : String → List QueueCommand
failing id = cell_error id ∷ execution_done_command id ∷ []

abbrev pub serve :
    (QueueCommand → RoomKernel → RoomKernel) → List QueueCommand → RoomKernel → RoomKernel
serve on_command [] k = k
serve on_command (c ∷ cs) k = serve on_command cs (on_command c k)

abbrev finished : String → RoomKernel → RoomKernel
finished id k =
    emit (broadcast (queue_changed none (ids k.queue)))
      (emit (broadcast (execution_done_event id)) (record k { executing = none; status = idle }))

execution_done_runs :
    (env : Env) (id : String) (k : RoomKernel)
    → k.executing ≡ some id
    → execution_done env id k ≡ start_next env k.queue (finished id k)
unfolding execution_done process_next
execution_done_runs env id k runs = ground (arith, beq_refl id)

start_next_sends :
    (env : Env) (next : QueuedCell) (rest : List QueuedCell) (k : RoomKernel)
    → is_some k.shell_writer ≡ true
    → env.sends ≡ true
    → (requests (start_next env (next ∷ rest) k).1.effects ≡ requests k.effects ++ next.code ∷ [])
      × (pending (start_next env (next ∷ rest) k).1 ≡ next.cell_id ∷ ids rest)
unfolding start_next send_execute
start_next_sends env next rest k up sent =
    (rw (up, sent) (simp (requests-append, append-nil)), rw (up, sent))

requests-finished :
    (id : String) (k : RoomKernel) → requests (finished id k).effects ≡ requests k.effects
requests-finished id k = simp (requests-append, append-nil)

-- The cell that runs fails while another waits. The task of `LaunchKernel` stops there: nothing more
-- is sent and nothing is pending. The task of `auto_launch_kernel` runs on: the next cell's code is
-- sent, and that cell and those behind it are pending.
pub failing_cell_differs :
    (env : Env) (id : String) (next : QueuedCell) (rest : List QueuedCell) (k : RoomKernel)
    → k.executing ≡ some id
    → k.queue ≡ next ∷ rest
    → is_some k.shell_writer ≡ true
    → env.sends ≡ true
    → let stops = serve (on_command_launch env) (failing id) k in
      let goes_on = serve (on_command_auto env) (failing id) k in
      (requests stops.effects ≡ requests k.effects)
      × (pending stops ≡ [])
      × (requests goes_on.effects ≡ requests k.effects ++ next.code ∷ [])
      × (pending goes_on ≡ next.cell_id ∷ ids rest)
unfolding on_command_launch on_command_auto start_next
failing_cell_differs env id next rest k runs waits up sent =
    let dropped = (clear_queue k).1 in
    let stops = execution_done_runs env id dropped runs in
    let next_starts = start_next_sends env next rest (finished id k) up sent in
    let goes_on =
      execution_done_runs env id k runs ∙ ap (λ q. start_next env q (finished id k)) waits in
    (
      ap (λ r. requests r.1.effects) stops ∙ simp (requests-append, append-nil),
      ap (λ r. pending r.1) stops,
      ap (λ r. requests r.1.effects) goes_on
          ∙ next_starts.0
          ∙ ap (λ rs. rs ++ next.code ∷ []) (requests-finished id k),
      ap (λ r. pending r.1) goes_on ∙ next_starts.1,
    )

abbrev one_if {ℓ} : {A : Type ℓ} → (A → Effect) → Option A → List Effect
one_if f none = []
one_if f (some a) = f a ∷ []

effects-emit_some {ℓ} :
    {A : Type ℓ} (f : A → Effect) (o : Option A) (k : RoomKernel)
    → (emit_some f o k).effects ≡ k.effects ++ one_if f o
effects-emit_some f none k = simp append-nil
effects-emit_some f (some a) k = refl

-- A shutdown always succeeds. It tells the peers and then releases each handle that the kernel holds,
-- once, in the order tasks, shell, process group, connection file; afterwards the kernel does not run
-- and nothing is pending.
shutdown_releases :
    (k : RoomKernel)
    → ((shutdown k).0 ≡ ok)
      × ((shutdown k).1.effects
          ≡ k.effects
            ++ (broadcast (kernel_status "shutdown" none)
                ∷ (one_if abort_task k.iopub_task
                    ++ (one_if abort_task k.shell_reader_task
                        ++ (one_if (λ (_ : ℕ). shutdown_request) k.shell_writer
                            ++ (one_if kill_group k.process_group_id
                                ++ one_if remove_file k.connection_file))))))
      × (is_running (shutdown k).1 ≡ false)
      × (pending (shutdown k).1 ≡ [])
unfolding shutdown is_running
shutdown_releases k = (refl, simp (effects-emit_some, append_assoc), refl, refl)
