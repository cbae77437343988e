-- ===== src/Daemon.antt =====
-- crates/runtimed/src/daemon.rs: the requests on the pool channel, the hand-out of environments to
-- kernels, the end of a creation, the settings change and the startup scan. What the daemon starts,
-- deletes or tells is appended to `effects`. Rooms are read only: a room is what the requests see.
pub mod Requests
pub mod Told
pub mod Overlap
mod Tests
use runt.Prelude.{
  ℕ, String, ◌+◌, Bool, true, false, ◌||◌, Option, none, some, List, [], ◌∷◌, ◌++◌, string_eq, ltb,
  if◌then◌else◌, length, map,
}
use runt.Prelude.Map.{Map}
use runt.Prelude.Map
use runt.Pool.{
  EnvType, uv, conda, PooledEnv, PoolEntry, Pool, PoolError, PackageInstallError, take, stats,
  get_error, reset_failure_state, deficit,
}
use runt.Pool
use runt.Pool.Warming.{Created, created, failed, finish_creation}

pub record CellSnapshot : Type 0 where
  pub id : String
  pub cell_type : String
  pub source : String
  pub execution_count : String
  pub outputs : List String

-- (kernel_type, env_source, status) of a running kernel.
pub record NotebookKernelInfo : Type 0 where
  pub kernel_type : String
  pub env_source : String
  pub status : String

pub record Room : Type 0 where
  pub cells : List CellSnapshot
  pub active_peers : ℕ
  pub has_kernel : Bool
  pub kernel_info : Option NotebookKernelInfo

pub record RoomInfo : Type 0 where
  pub notebook_id : String
  pub active_peers : ℕ
  pub has_kernel : Bool
  pub kernel_type : Option String
  pub env_source : Option String
  pub kernel_status : Option String

pub record PoolStats : Type 0 where
  pub uv_available : ℕ
  pub uv_warming : ℕ
  pub conda_available : ℕ
  pub conda_warming : ℕ
  pub uv_error : Option PoolError
  pub conda_error : Option PoolError

pub data Effect : Type 0 where
  spawn_create_uv_env spawn_replenish_conda_env notify_shutdown : Effect
  remove_dir_all : String → Effect
  pool_state : Option PoolError → Option PoolError → Effect

pub record Daemon : Type 0 where
  pub uv_pool : Pool
  pub conda_pool : Pool
  pub shutdown : Bool
  pub notebook_rooms : Map String Room
  pub effects : List Effect

pub data Request : Type 0 where
  take_env : EnvType → Request
  return_env : PooledEnv → Request
  status ping shutdown_daemon flush_pool list_rooms : Request
  inspect_notebook : String → Request

-- The texts of `Response::Error`, with what they quote.
pub data ErrorText : Type 0 where
  failed_to_parse failed_to_read not_found : String → ErrorText

pub data Response : Type 0 where
  env : PooledEnv → Response
  empty returned pong shutting_down flushed : Response
  pool_stats : PoolStats → Response
  notebook_state : String → List CellSnapshot → String → Option NotebookKernelInfo → Response
  rooms_list : List RoomInfo → Response
  error : ErrorText → Response

-- What the file of a notebook's document holds: `std::fs::read` and `NotebookDoc::load` of it.
pub data Persisted : Type 0 where
  missing unreadable unparsable : String → Persisted
  loaded : List CellSnapshot → Persisted

abbrev pub emit : Effect → Daemon → Daemon
emit e d = record d { effects = d.effects ++ e ∷ [] }

abbrev pub pool_of : EnvType → Daemon → Pool
pool_of uv d = d.uv_pool
pool_of conda d = d.conda_pool

abbrev pub with_pool : EnvType → Pool → Daemon → Daemon
with_pool uv p d = record d { uv_pool = p }
with_pool conda p d = record d { conda_pool = p }

abbrev pub replenish : EnvType → Effect
replenish uv = spawn_create_uv_env
replenish conda = spawn_replenish_conda_env

-- `take_uv_env` and `take_conda_env`.
unfoldable pub take_pooled : ℕ → (String → Bool) → EnvType → Daemon → Option PooledEnv × Daemon
take_pooled now exists t d =
    let (found, p) = take now exists (pool_of t d) in
    let d' = with_pool t p d in
    elim found [ none ↦ (none, d') | some e ↦ (some e, emit (replenish t) d') ]

unfoldable pub push_back : ℕ → PooledEnv → Pool → Pool
push_back now e p = record p {
  available = p.available ++ (record { env = e; created_at = now }) ∷ [];
}

unfoldable pub give_back : ℕ → PooledEnv → Daemon → Daemon
unfolding push_back
give_back now e d =
    let p = pool_of e.env_type d in
    if ltb (length p.available) p.target
    then with_pool e.env_type (push_back now e p) d
    else emit (remove_dir_all e.venv_path) d

abbrev pub removals : List PoolEntry → List Effect
removals [] = []
removals (e ∷ es) = remove_dir_all e.env.venv_path ∷ removals es

-- One of the two blocks of `FlushPool`.
unfoldable pub drain : EnvType → Daemon → Daemon
drain t d =
    let p = pool_of t d in
    let d' = with_pool t (record p { available = [] }) d in
    record d' { effects = d'.effects ++ removals p.available }

unfoldable pub pool_stats_of : ℕ → Daemon → PoolStats
pool_stats_of now d = record {
  uv_available = (stats d.uv_pool).0;
  uv_warming = (stats d.uv_pool).1;
  conda_available = (stats d.conda_pool).0;
  conda_warming = (stats d.conda_pool).1;
  uv_error = get_error now d.uv_pool;
  conda_error = get_error now d.conda_pool;
}

unfoldable pub inspect : (String → Persisted) → String → Daemon → Response
inspect persisted id d = elim (Map.get id d.notebook_rooms) [
  | some room ↦ notebook_state id room.cells "live_room" room.kernel_info
  | none ↦ elim (persisted id) [
    | missing path ↦ error (not_found path)
    | unreadable e ↦ error (failed_to_read e)
    | unparsable e ↦ error (failed_to_parse e)
    | loaded cells ↦ notebook_state id cells "persisted_file" none
  ]
]

abbrev pub room_info : String → Room → RoomInfo
room_info id room = record {
  notebook_id = id;
  active_peers = room.active_peers;
  has_kernel = room.has_kernel;
  kernel_type = elim room.kernel_info [ none ↦ none | some k ↦ some k.kernel_type ];
  env_source = elim room.kernel_info [ none ↦ none | some k ↦ some k.env_source ];
  kernel_status = elim room.kernel_info [ none ↦ none | some k ↦ some k.status ];
}

unfoldable pub room_infos : Map String Room → List RoomInfo
room_infos [] = []
room_infos ((id, room) ∷ m) = room_info id room ∷ room_infos m

abbrev pub answer_take : Option PooledEnv × Daemon → Response × Daemon
answer_take (none, d) = (empty, d)
answer_take (some e, d) = (env e, d)

unfoldable pub handle_request :
    ℕ → (String → Bool) → (String → Persisted) → Request → Daemon → Response × Daemon
unfolding take_pooled give_back drain pool_stats_of inspect room_infos
handle_request now exists persisted (take_env t) d = answer_take (take_pooled now exists t d)
handle_request now exists persisted (return_env e) d = (returned, give_back now e d)
handle_request now exists persisted status d = (pool_stats (pool_stats_of now d), d)
handle_request now exists persisted ping d = (pong, d)
handle_request now exists persisted shutdown_daemon d =
    (shutting_down, emit notify_shutdown (record d { shutdown = true }))
handle_request now exists persisted flush_pool d = (flushed, drain conda (drain uv d))
handle_request now exists persisted list_rooms d = (rooms_list (room_infos d.notebook_rooms), d)
handle_request now exists persisted (inspect_notebook id) d = (inspect persisted id d, d)

abbrev pub has_failures : Pool → Bool
has_failures p = ltb 0 p.failure_state.consecutive_failures

-- The last lock of the pool in `create_uv_env` and `create_conda_env`, and whether the task goes on to
-- broadcast: a failure is always told, a success if it clears failures.
unfoldable pub end_creation : ℕ → EnvType → Created → Daemon → Bool × Daemon
end_creation now t (failed at cause) d =
    (true, with_pool t (finish_creation (failed at cause) (pool_of t d)) d)
end_creation now t (created at e) d =
    (has_failures (pool_of t d), with_pool t (finish_creation (created at e) (pool_of t d)) d)

-- One of the two blocks of `watch_settings_json`, and whether it found failures.
unfoldable pub reset_failures : EnvType → Daemon → Bool × Daemon
reset_failures t d =
    let p = pool_of t d in
    if has_failures p then (true, with_pool t (reset_failure_state p) d) else (false, d)

-- Where a task stands that may broadcast: each stage holds one lock, or sends.
pub data Task : Type 0 where
  ends : EnvType → Created → Task
  resets_uv : Task
  resets_conda : Bool → Task
  reads_uv : Task
  reads_conda : Option PoolError → Task
  sends : Option PoolError → Option PoolError → Task
  finished : Task

abbrev pub report_if : Bool → Task
report_if told = if told then reads_uv else finished

-- `broadcast_pool_state` from its first lock, and what leads to it.
unfoldable pub advance : ℕ → Task → Daemon → Task × Daemon
unfolding end_creation reset_failures
advance now (ends t c) d = let (tells, d') = end_creation now t c d in (report_if tells, d')
advance now resets_uv d =
    let (had_errors, d') = reset_failures uv d in (resets_conda had_errors, d')
advance now (resets_conda had_errors) d =
    let (had, d') = reset_failures conda d in (report_if (had_errors || had), d')
advance now reads_uv d = (reads_conda (get_error now d.uv_pool), d)
advance now (reads_conda uv_error) d = (sends uv_error (get_error now d.conda_pool), d)
advance now (sends uv_error conda_error) d = (finished, emit (pool_state uv_error conda_error) d)
advance now finished d = (finished, d)

-- An entry of the cache directory as `find_existing_environments` meets it: its kind by its name, and
-- the time.
pub record CacheDir : Type 0 where
  pub kind : Option EnvType
  pub env_path : String
  pub python_path : String
  pub met_at : ℕ

abbrev pub env_of : EnvType → CacheDir → PooledEnv
env_of t c = record { env_type = t; venv_path = c.env_path; python_path = c.python_path }

unfoldable pub keep_existing : (String → Bool) → EnvType → CacheDir → Daemon → Daemon
unfolding push_back
keep_existing exists t c d =
    if exists c.python_path
    then if ltb (length (pool_of t d).available) (pool_of t d).target
      then with_pool t (push_back c.met_at (env_of t c) (pool_of t d)) d
      else d
    else emit (remove_dir_all c.env_path) d

unfoldable pub find_existing : (String → Bool) → List CacheDir → Daemon → Daemon
unfolding keep_existing
find_existing exists [] d = d
find_existing exists (c ∷ cs) d =
    find_existing exists cs (elim c.kind [ none ↦ d | some t ↦ keep_existing exists t c d ])
