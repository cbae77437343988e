-- ===== src/Daemon/Tests.antt =====
-- The theorems on the daemon's requests at concrete inputs.
use runt.Prelude.{String, true, false, none, List, [], ◌∷◌, ◌+◌, ◌%◌, ◌≡◌, refl, arith}
use runt.Pool.{PooledEnv, uv, conda, new, u32_mod}
use runt.Pool.Warming.{failed}
use runt.Daemon.{
  Daemon, Persisted, missing, take_env, return_env, handle_request, ends, finished, advance,
  end_creation, reset_failures,
}
use runt.Daemon.Requests.{IsBounded, KeepsOrDeletes, handle_request-IsBounded}
use runt.Daemon.Told.{
  IsTold, Step, creation_ends, settings_change, moves, asked, last_told, perform_all,
  perform_all-IsTold,
}
use runt.Daemon.Overlap.{take_turns, overtaken, broadcast_goes_stale}
use runt.Pool.Backoff.{failed_times}

abbrev env_a : PooledEnv
env_a = record { env_type = uv; venv_path = "a"; python_path = "a/bin/python" }

abbrev full_daemon : Daemon
unfolding new
full_daemon = record {
  uv_pool = record (new 1 60) { available = record { env = env_a; created_at = 0 } ∷ [] };
  conda_pool = new 1 60;
  shutdown = false;
  notebook_rooms = [];
  effects = [];
}

abbrev nothing_stored : String → Persisted
nothing_stored id = missing id

handle_request-IsBounded_example :
    let d' = (handle_request 5 (λ _. true) nothing_stored (return_env env_a) full_daemon).1 in
    IsBounded uv d' × KeepsOrDeletes 5 (return_env env_a) full_daemon d'
unfolding new
handle_request-IsBounded_example =
    handle_request-IsBounded 5 (λ _. true) nothing_stored (return_env env_a) uv full_daemon
      (omega arith)

-- A failure is told while a request comes, and a settings change clears it.
abbrev steps : List Step
steps =
    asked 1 (λ _. true) nothing_stored (take_env uv)
    ∷ creation_ends uv (failed 2 none)
    ∷ moves 2
    ∷ moves 3
    ∷ asked 3 (λ _. true) nothing_stored (return_env env_a)
    ∷ moves 4
    ∷ moves 5
    ∷ settings_change
    ∷ moves 6
    ∷ moves 6
    ∷ moves 6
    ∷ moves 6
    ∷ moves 6
    ∷ []

steps_end : (perform_all steps (finished, full_daemon)).0 ≡ finished
unfolding new advance end_creation reset_failures handle_request runt.Pool.Warming.finish_creation
    runt.Pool.warming_failed_with_error runt.Pool.take runt.Prelude.retain
steps_end = refl

perform_all-IsTold_example : IsTold (perform_all steps (finished, full_daemon)).1
unfolding new
perform_all-IsTold_example = perform_all-IsTold steps full_daemon refl steps_end

broadcast_goes_stale_example :
    let (s, (t, d')) =
      take_turns 7 overtaken (ends conda (failed 7 none)) (ends uv (failed 7 none)) full_daemon in
    (s ≡ finished)
    × (t ≡ finished)
    × (failed_times d'.uv_pool ≡ (failed_times full_daemon.uv_pool + 1) % u32_mod)
    × (last_told (0, 0) d'.effects ≡ (failed_times full_daemon.uv_pool, failed_times d'.conda_pool))
broadcast_goes_stale_example = broadcast_goes_stale 7 none none full_daemon
