-- ===== src/Kernel/Spec.antt =====
-- The specification of the execution queue of kernel_manager.rs: a list of ids whose head runs.
use runt.Prelude.{String, List, [], ◌∷◌, ◌++◌, ◌==◌, string_eq, contains, if◌then◌else◌, ◌&&◌}
use runt.Kernel.{Op, queues, commands, interrupts, shuts_down, execution_done_command, cell_error}

unfoldable pub enqueue : String → List String → List String
enqueue id ps = if contains ps id then ps else ps ++ id ∷ []

unfoldable pub finish : String → List String → List String
finish id [] = []
finish id (p ∷ ps) = if p == id then ps else p ∷ ps

unfoldable pub keep_first : List String → List String
keep_first [] = []
keep_first (p ∷ ps) = p ∷ []

unfoldable pub advance : Op → List String → List String
unfolding enqueue finish keep_first
advance (queues env id code) ps = enqueue id ps
advance (commands env (execution_done_command id)) ps = finish id ps
advance (commands env (cell_error id)) ps = keep_first ps
advance (interrupts env) ps = if env.connects && env.sends then keep_first ps else ps
advance shuts_down ps = []
