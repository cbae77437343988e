-- ===== src/Kernel/Order.antt =====
-- The order in which kernel_manager.rs hands cells to the kernel.
use mathlib.Core.List.{append-nil, append_assoc}
use runt.Prelude.{
  String, true, Option, none, some, List, [], ◌∷◌, ◌++◌, ◌≡◌, refl, arith, string_eq, contains,
  if◌then◌else◌, is_some, Bool-cases, inl, inr, ap, ◌∙◌,
}
use runt.Kernel.{
  RoomKernel, QueuedCell, Effect, execute_request, broadcast, interrupt_request, shutdown_request,
  abort_task, kill_group, remove_file, Env, queue_cell, process_next, start_next, queue_changed,
  ids, ok,
}
use runt.Kernel.Invariant.{pending}

-- The code of the execute requests among the effects, oldest first.
abbrev pub requests : List Effect → List String
requests [] = []
requests (execute_request m code ∷ es) = code ∷ requests es
requests (broadcast b ∷ es) = requests es
requests (interrupt_request ∷ es) = requests es
requests (shutdown_request ∷ es) = requests es
requests (abort_task t ∷ es) = requests es
requests (kill_group p ∷ es) = requests es
requests (remove_file f ∷ es) = requests es

abbrev pub codes : List QueuedCell → List String
codes [] = []
codes (c ∷ cs) = c.code ∷ codes cs

-- What the kernel was asked to run, then what waits to be.
abbrev pub history : RoomKernel → List String
history k = requests k.effects ++ codes k.queue

codes-append : (p q : List QueuedCell) → codes (p ++ q) ≡ codes p ++ codes q
codes-append [] q = refl
codes-append (c ∷ p) q = ap (◌∷◌ c.code) (codes-append p q)

pub requests-append : (es fs : List Effect) → requests (es ++ fs) ≡ requests es ++ requests fs
requests-append [] fs = refl
requests-append (execute_request m c ∷ es) fs = ap (◌∷◌ c) (requests-append es fs)
requests-append (broadcast b ∷ es) fs = requests-append es fs
requests-append (interrupt_request ∷ es) fs = requests-append es fs
requests-append (shutdown_request ∷ es) fs = requests-append es fs
requests-append (abort_task t ∷ es) fs = requests-append es fs
requests-append (kill_group p ∷ es) fs = requests-append es fs
requests-append (remove_file f ∷ es) fs = requests-append es fs

start_next-history :
    (env : Env) (cells : List QueuedCell) (k : RoomKernel)
    → k.queue ≡ cells
    → is_some k.shell_writer ≡ true
    → env.sends ≡ true
    → history (start_next env cells k).1 ≡ history k
unfolding start_next
start_next-history env [] k e up sent = refl
start_next-history env (cell ∷ rest) k e up sent =
    rw (up, sent, e) (simp (requests-append, append_assoc))

-- The state in which `queue_cell` goes on to `process_next`.
abbrev grown : String → String → RoomKernel → RoomKernel
grown id code k =
    let q = k.queue ++ (record { cell_id = id; code = code }) ∷ [] in
    record k {
      queue = q;
      effects = k.effects ++ broadcast (queue_changed k.executing (ids q)) ∷ [];
    }

queue_cell_cases :
    (env : Env) (id code : String) (k : RoomKernel)
    → queue_cell env id code k
      ≡ (if contains (pending k) id then (ok, k) else process_next env (grown id code k))
unfolding queue_cell contains
queue_cell_cases env id code k = ground arith

history-grown :
    (id code : String) (k : RoomKernel) → history (grown id code k) ≡ history k ++ code ∷ []
history-grown id code k = simp (requests-append, codes-append, append-nil, append_assoc)

process_next-history :
    (env : Env) (k : RoomKernel)
    → is_some k.shell_writer ≡ true
    → env.sends ≡ true
    → history (process_next env k).1 ≡ history k
unfolding process_next
process_next-history env k up sent = ground (arith, start_next-history env k.queue k refl up sent)

-- While the kernel runs and its socket takes every message, queueing a cell that is not pending adds
-- its code to the end of the history (what was sent to the kernel, then what waits), whether the cell
-- starts at once or waits; queueing one that is pending changes nothing of it.
pub queue_cell-history :
    (env : Env) (id code : String) (k : RoomKernel)
    → is_some k.shell_writer ≡ true
    → env.sends ≡ true
    → history (queue_cell env id code k).1
      ≡ (if contains (pending k) id then history k else history k ++ code ∷ [])
queue_cell-history env id code k up sent =
    rw queue_cell_cases (elim (Bool-cases (contains (pending k) id)) [
      | inl old ↦ rw old
      | inr new ↦
          rw new (process_next-history env (grown id code k) up sent ∙ history-grown id code k)
    ])

-- The first of the waiting cells, if any.
abbrev pub next_code : List QueuedCell → List String
next_code [] = []
next_code (cell ∷ rest) = cell.code ∷ []

abbrev pub next_id : List QueuedCell → Option String
next_id [] = none
next_id (cell ∷ rest) = some cell.cell_id

abbrev pub behind : List QueuedCell → List QueuedCell
behind [] = []
behind (cell ∷ rest) = rest
