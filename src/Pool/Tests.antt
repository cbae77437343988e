-- ===== src/Pool/Tests.antt =====
-- The theorems on the pools at concrete inputs.
use runt.Prelude.{
  String, ◌-◌, ◌+◌, ◌<◌, Bool, true, none, some, List, [], ◌∷◌, ◌++◌, ◌≡◌, refl, arith, retain,
  length, ◌==◌, nat_eq, string_eq, ◌||◌, max, false,
}
use runt.Pool.{
  Pool, PoolEntry, PooledEnv, EnvType, uv, conda, new, take, prune_stale, pop_usable, is_fresh,
  is_usable, from_secs, should_retry, deficit,
}
use runt.Pool.Take.{Popped, take-Popped, take_sound}
use runt.Pool.Warming.{
  Watched, Created, created, failed, finish_all, begin_round, round_balances, begins, replenished,
  Run, start, next, request, replenish, IsCounted, conda-IsCounted, uv_overshoots, successes,
}

abbrev env_a : PooledEnv
env_a = record { env_type = uv; venv_path = "a"; python_path = "a/bin/python" }

abbrev env_b : PooledEnv
env_b = record { env_type = uv; venv_path = "b"; python_path = "b/bin/python" }

-- "b" was deleted by hand.
abbrev exists_test : String → Bool
exists_test path = path == "a" || path == "a/bin/python"

abbrev aged : Pool
aged = record (new 3 60) {
  available =
      record { env = env_a; created_at = 0 }
      ∷ record { env = env_b; created_at = 50_000_000_000 }
      ∷ record { env = env_a; created_at = 55_000_000_000 }
      ∷ [];
}

taken : (take 70_000_000_000 exists_test aged).0 ≡ some env_a
unfolding take prune_stale pop_usable is_fresh is_usable new retain
taken = refl

take-Popped_example :
    Popped exists_test
      (retain (is_fresh aged.max_age_secs 70_000_000_000) aged.available)
      ((take 70_000_000_000 exists_test aged).0, (take 70_000_000_000 exists_test aged).1.available)
take-Popped_example = take-Popped 70_000_000_000 exists_test aged

abbrev TakenFromAged : Type 0
TakenFromAged =
    (before : List PoolEntry) × (e : PoolEntry) × (after : List PoolEntry) × (aged.available
      ≡ before ++ e ∷ after)
    × (e.env ≡ env_a)
    × (70_000_000_000 - e.created_at < from_secs 60)
    × (exists_test "a" ≡ true)
    × (exists_test "a/bin/python" ≡ true)

take_sound_example : TakenFromAged
unfolding new
take_sound_example = take_sound 70_000_000_000 exists_test aged env_a taken

abbrev failing : Pool
failing = record (new 3 60) {
  failure_state = record {
    consecutive_failures = 2;
    last_failure = some 100_000_000_000;
    last_error = some "no such package";
    failed_package = some "nonsense";
  };
}

abbrev three_ends : List Created
three_ends = created 1 env_a ∷ failed 2 none ∷ created 3 env_b ∷ []

may_retry : should_retry 0 (new 3 60) ≡ true
unfolding should_retry new
may_retry = refl

round_balances_example :
    let begun = (begin_round 0 (new 3 60)).1 in
    (length begun.available + begun.warming
      ≡ max (new 3 60).target (length (new 3 60).available + (new 3 60).warming))
    × ((finish_all three_ends begun).warming ≡ (new 3 60).warming)
    × (length (finish_all three_ends begun).available
        ≡ length (new 3 60).available + successes three_ends)
unfolding deficit new
round_balances_example = round_balances 0 (new 3 60) three_ends may_retry (omega arith) refl

-- A pool with one environment, and nothing in creation.
abbrev idle : Watched
unfolding new
idle = record {
  pool = record (new 1 60) { available = record { env = env_a; created_at = 0 } ∷ [] };
  own = 0;
  spawned = 0;
  abandoned = 0;
  stopped = false;
}

abbrev emptied : Watched
emptied = record idle { pool = record (idle.pool) { available = [] } }

-- The environment is taken, and its replenishment starts.
taken_run : (t : EnvType) → Run t idle (replenished t emptied)
unfolding new
taken_run t =
    next idle emptied (replenished t emptied)
      (next idle idle emptied (start idle) (request [] idle)) (replenish emptied (omega arith))

conda-IsCounted_example : IsCounted (replenished conda emptied)
unfolding new
conda-IsCounted_example = conda-IsCounted idle (replenished conda emptied) (taken_run conda) refl

-- The loop creates one, beside the one that the replenishment creates, for a target of one.
uv_overshoots_example :
    let full = begins 9 (replenished uv emptied) in
    length full.pool.available + (full.own + full.spawned)
    ≡ full.pool.target + (replenished uv emptied).spawned
unfolding deficit should_retry new
uv_overshoots_example =
    uv_overshoots 9 idle (replenished uv emptied) (taken_run uv) (omega arith) refl (omega arith)
      refl (omega arith)
