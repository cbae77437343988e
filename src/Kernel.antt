-- ===== src/Kernel.antt =====
-- crates/runtimed/src/kernel_manager.rs: the execution queue of a `RoomKernel`, and the task of
-- crates/runtimed/src/notebook_sync_server.rs that feeds it the commands of the kernel's channels.
-- A method returns its `Result` and the new kernel. What leaves the process (broadcasts, messages to
-- the kernel, signals, files removed) is appended to the field `effects`. What the environment
-- decides in a call is its argument of type `Env`. Launching a kernel is `launched`: the assignments
-- of a launch that succeeded.
pub mod Spec
pub mod Pending
pub mod Invariant
pub mod Order
pub mod Errors
mod Tests
use runt.Prelude.{
  ℕ, String, Bool, true, false, not, Option, none, some, List, [], ◌∷◌, ◌++◌, map, ◌==◌, string_eq,
  contains, if◌then◌else◌, is_some, is_empty,
}
use runt.Prelude.Map.{Map, retain_entries}
use runt.Prelude.Map

pub record QueuedCell : Type 0 where
  pub cell_id : String
  pub code : String

pub data KernelStatus : Type 0 where
  starting idle busy error shutting_down : KernelStatus

pub data NotebookBroadcast : Type 0 where
  execution_done_event : String → NotebookBroadcast
  queue_changed : Option String → List String → NotebookBroadcast
  kernel_status : String → Option String → NotebookBroadcast

pub data Effect : Type 0 where
  broadcast : NotebookBroadcast → Effect
  execute_request : String → String → Effect
  interrupt_request : Effect
  shutdown_request : Effect
  abort_task : ℕ → Effect
  kill_group : ℕ → Effect
  remove_file : String → Effect

-- Task, process and connection handles are numbers; only their presence matters.
pub record RoomKernel : Type 0 where
  pub connection_info : Option ℕ
  pub connection_file : Option String
  pub iopub_task : Option ℕ
  pub shell_reader_task : Option ℕ
  pub shell_writer : Option ℕ
  pub process : Option ℕ
  pub process_group_id : Option ℕ
  pub cell_id_map : Map String String
  pub queue : List QueuedCell
  pub executing : Option String
  pub status : KernelStatus
  pub cmd_tx : Option ℕ
  pub effects : List Effect

pub data Result : Type 0 where
  ok : Result
  err : String → Result

-- The id that the next execute request gets, and whether a connection and a send succeed.
pub record Env : Type 0 where
  pub msg_id : String
  pub connects : Bool
  pub sends : Bool

pub new : RoomKernel
new = record {
  connection_info = none;
  connection_file = none;
  iopub_task = none;
  shell_reader_task = none;
  shell_writer = none;
  process = none;
  process_group_id = none;
  cell_id_map = [];
  queue = [];
  executing = none;
  status = starting;
  cmd_tx = none;
  effects = [];
}

abbrev pub emit : Effect → RoomKernel → RoomKernel
emit e k = record k { effects = k.effects ++ e ∷ [] }

-- What `launch` stores, of a process that has an id.
pub launched : ℕ → String → RoomKernel → RoomKernel
launched handle file k = emit (broadcast (kernel_status "idle" none)) (record k {
  connection_info = some handle;
  connection_file = some file;
  iopub_task = some handle;
  shell_reader_task = some handle;
  shell_writer = some handle;
  process = some handle;
  process_group_id = some handle;
  cmd_tx = some handle;
  status = idle;
})

pub is_running : RoomKernel → Bool
is_running k = is_some k.shell_writer

abbrev pub ids : List QueuedCell → List String
ids [] = []
ids (c ∷ cs) = c.cell_id ∷ ids cs

pub queued_cells : RoomKernel → List String
queued_cells k = ids k.queue

-- `map.retain(|_, v| v != cell_id); map.insert(msg_id, cell_id)`.
pub register : String → String → Map String String → Map String String
register msg_id cell_id m = Map.insert msg_id cell_id (retain_entries (λ _ v. not (v == cell_id)) m)

-- `shell.send(message).await?` may fail, after the state has changed.
pub send_execute : Env → QueuedCell → RoomKernel → Result × RoomKernel
unfolding queued_cells
send_execute env cell k =
    let started = emit (broadcast (queue_changed (some cell.cell_id) (queued_cells k))) (record k {
      executing = some cell.cell_id;
      status = busy;
      cell_id_map = register env.msg_id cell.cell_id k.cell_id_map;
    }) in
    if env.sends
    then (ok, emit (execute_request env.msg_id cell.code) started)
    else (err "send failed", started)

start_next : Env → List QueuedCell → RoomKernel → Result × RoomKernel
unfolding send_execute
start_next env [] k = (ok, k)
start_next env (cell ∷ rest) k =
    if is_some k.shell_writer
    then send_execute env cell (record k { queue = rest })
    else (err "No kernel running", record k { queue = rest })

pub process_next : Env → RoomKernel → Result × RoomKernel
unfolding start_next
process_next env k = if is_some k.executing then (ok, k) else start_next env k.queue k

abbrev pub is_executing : String → Option String → Bool
is_executing id none = false
is_executing id (some c) = c == id

pub queue_cell : Env → String → String → RoomKernel → Result × RoomKernel
unfolding process_next queued_cells contains
queue_cell env cell_id code k =
    if is_executing cell_id k.executing
    then (ok, k)
    else if contains (queued_cells k) cell_id
    then (ok, k)
    else let grown = record k {
      queue = k.queue ++ (record { cell_id = cell_id; code = code }) ∷ [];
    } in
      process_next env (emit (broadcast (queue_changed grown.executing (queued_cells grown))) grown)

pub execution_done : Env → String → RoomKernel → Result × RoomKernel
unfolding process_next queued_cells
execution_done env cell_id k =
    if is_executing cell_id k.executing
    then process_next env (
        emit (broadcast (queue_changed none (queued_cells k))) (
          emit (broadcast (execution_done_event cell_id))
            (record k { executing = none; status = idle })))
    else (ok, k)

-- Returns the ids that it dropped.
pub clear_queue : RoomKernel → List String × RoomKernel
clear_queue k =
    (ids k.queue, emit (broadcast (queue_changed k.executing [])) (record k { queue = [] }))

pub interrupt : Env → RoomKernel → Result × RoomKernel
unfolding clear_queue
interrupt env k =
    if is_some k.connection_info
    then if env.connects
      then if env.sends
        then (ok, (clear_queue (emit interrupt_request k)).1)
        else (err "send failed", k)
      else (err "connection failed", k)
    else (err "No kernel running", k)

abbrev emit_some {ℓ} : {A : Type ℓ} → (A → Effect) → Option A → RoomKernel → RoomKernel
emit_some f none k = k
emit_some f (some a) k = emit (f a) k

pub shutdown : RoomKernel → Result × RoomKernel
shutdown k =
    let told =
      emit (broadcast (kernel_status "shutdown" none)) (record k { status = shutting_down }) in
    let aborted =
      emit_some abort_task k.shell_reader_task (emit_some abort_task k.iopub_task told) in
    let asked = emit_some (λ _. shutdown_request) k.shell_writer aborted in
    let killed = emit_some kill_group k.process_group_id asked in
    let cleaned = emit_some remove_file k.connection_file killed in
    (
      ok,
      record cleaned {
        iopub_task = none;
        shell_reader_task = none;
        shell_writer = none;
        process_group_id = none;
        process = none;
        connection_info = none;
        connection_file = none;
        cell_id_map = [];
        queue = [];
        executing = none;
        cmd_tx = none;
      },
    )

pub data QueueCommand : Type 0 where
  execution_done_command : String → QueueCommand
  cell_error : String → QueueCommand

-- The command task that `LaunchKernel` spawns: a cell's error stops the cells behind it.
pub on_command_launch : Env → QueueCommand → RoomKernel → RoomKernel
unfolding execution_done clear_queue
on_command_launch env (execution_done_command cell_id) k = (execution_done env cell_id k).1
on_command_launch env (cell_error cell_id) k = (clear_queue k).1

-- The command task that `auto_launch_kernel` spawns: a cell's error is only logged.
pub on_command_auto : Env → QueueCommand → RoomKernel → RoomKernel
unfolding execution_done
on_command_auto env (execution_done_command cell_id) k = (execution_done env cell_id k).1
on_command_auto env (cell_error cell_id) k = k

pub data Op : Type 0 where
  queues : Env → String → String → Op
  commands : Env → QueueCommand → Op
  interrupts : Env → Op
  shuts_down : Op

-- One call on the kernel, as the sync server makes them for a `LaunchKernel` kernel.
pub step : Op → RoomKernel → RoomKernel
unfolding queue_cell on_command_launch interrupt shutdown
step (queues env cell_id code) k = (queue_cell env cell_id code k).1
step (commands env c) k = on_command_launch env c k
step (interrupts env) k = (interrupt env k).1
step shuts_down k = (shutdown k).1

pub run : List Op → RoomKernel → RoomKernel
run [] k = k
run (o ∷ os) k = run os (step o k)
