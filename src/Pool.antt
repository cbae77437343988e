-- ===== src/Pool.antt =====
-- crates/runtimed/src/daemon.rs: `Pool`, one of the daemon's two pools of prewarmed environments.
-- A method reads the clock once: `now` is in nanoseconds, and a call of `elapsed` is `now - at`, which
-- stops at 0 as `Instant::elapsed` does. `exists` says which paths exist. A `usize` has 64 bits.
pub mod Take
pub mod Backoff
pub mod Warming
mod Tests
use runt.Prelude.{
  ℕ, zero, suc, String, ◌+◌, ◌-◌, ◌*◌, ◌/◌, ◌%◌, ◌^◌, min, Bool, true, ◌&&◌, Option, none, some,
  List, [], ◌∷◌, ◌++◌, ◌==◌, nat_eq, ltb, leb, if◌then◌else◌, length, retain, unwrap_or,
}

pub data EnvType : Type 0 where
  uv conda : EnvType

pub record PooledEnv : Type 0 where
  pub env_type : EnvType
  pub venv_path : String
  pub python_path : String

pub record PoolEntry : Type 0 where
  pub env : PooledEnv
  pub created_at : ℕ

pub record FailureState : Type 0 where
  pub consecutive_failures : ℕ  -- u32
  pub last_failure : Option ℕ
  pub last_error : Option String
  pub failed_package : Option String

pub record PackageInstallError : Type 0 where
  pub failed_package : Option String
  pub error_message : String

pub record Pool : Type 0 where
  pub available : List PoolEntry
  pub warming : ℕ
  pub target : ℕ
  pub max_age_secs : ℕ
  pub failure_state : FailureState

pub record PoolError : Type 0 where
  pub message : String
  pub failed_package : Option String
  pub consecutive_failures : ℕ
  pub retry_in_secs : ℕ

abbrev pub usize_mod : ℕ
usize_mod = 2 ^ 64

abbrev pub u32_mod : ℕ
u32_mod = 2 ^ 32

-- `Duration::from_secs`, in nanoseconds.
abbrev pub from_secs : ℕ → ℕ
from_secs n = n * 1_000_000_000

-- `FailureState::default`.
abbrev pub no_failure : FailureState
no_failure = record {
  consecutive_failures = 0;
  last_failure = none;
  last_error = none;
  failed_package = none;
}

unfoldable pub new : ℕ → ℕ → Pool
new target max_age_secs = record {
  available = [];
  warming = 0;
  target = target;
  max_age_secs = max_age_secs;
  failure_state = no_failure;
}

unfoldable pub is_fresh : ℕ → ℕ → PoolEntry → Bool
is_fresh max_age_secs now e = ltb (now - e.created_at) (from_secs max_age_secs)

unfoldable pub prune_stale : ℕ → Pool → Pool
unfolding is_fresh
prune_stale now p = record p { available = retain (is_fresh p.max_age_secs now) p.available }

unfoldable pub is_usable : (String → Bool) → PoolEntry → Bool
is_usable exists e = exists e.env.venv_path && exists e.env.python_path

-- The loop of `take`: entries with a missing path are dropped.
unfoldable pub pop_usable : (String → Bool) → List PoolEntry → Option PooledEnv × List PoolEntry
unfolding is_usable
pop_usable exists [] = (none, [])
pop_usable exists (e ∷ es) = if is_usable exists e then (some e.env, es) else pop_usable exists es

unfoldable pub take : ℕ → (String → Bool) → Pool → Option PooledEnv × Pool
unfolding prune_stale pop_usable
take now exists p =
    let (found, rest) = pop_usable exists (prune_stale now p).available in
    (found, record p { available = rest })

unfoldable pub add : ℕ → PooledEnv → Pool → Pool
add now env p = record p {
  available = p.available ++ (record { env = env; created_at = now }) ∷ [];
  warming = p.warming - 1;
  failure_state = no_failure;
}

unfoldable pub with_error : Option PackageInstallError → FailureState → FailureState
with_error none f = f
with_error (some e) f = record f {
  last_error = some e.error_message;
  failed_package = e.failed_package;
}

unfoldable pub warming_failed_with_error : ℕ → Option PackageInstallError → Pool → Pool
unfolding with_error
warming_failed_with_error now error p = record p {
  warming = p.warming - 1;
  failure_state = with_error error (record p.failure_state {
    consecutive_failures = (p.failure_state.consecutive_failures + 1) % u32_mod;
    last_failure = some now;
  });
}

unfoldable pub reset_failure_state : Pool → Pool
reset_failure_state p = record p { failure_state = no_failure }

-- In nanoseconds; the largest value, 300 seconds, is far from any overflow.
unfoldable pub backoff_delay : Pool → ℕ
backoff_delay p =
    if p.failure_state.consecutive_failures == 0
    then 0
    else from_secs (min (30 * 2 ^ (min (p.failure_state.consecutive_failures - 1) 4)) 300)

unfoldable pub should_retry : ℕ → Pool → Bool
unfolding backoff_delay
should_retry now p = elim p.failure_state.last_failure [
  | none ↦ true
  | some last ↦ leb (backoff_delay p) (now - last)
]

unfoldable pub deficit : Pool → ℕ
deficit p = p.target - (length p.available + p.warming) % usize_mod

unfoldable pub mark_warming : ℕ → Pool → Pool
mark_warming count p = record p { warming = (p.warming + count) % usize_mod }

unfoldable pub stats : Pool → ℕ × ℕ
stats p = (length p.available, p.warming)

unfoldable pub get_error : ℕ → Pool → Option PoolError
unfolding backoff_delay
get_error now p =
    if p.failure_state.consecutive_failures == 0
    then none
    else some (record {
      message = unwrap_or p.failure_state.last_error "Unknown error";
      failed_package = p.failure_state.failed_package;
      consecutive_failures = p.failure_state.consecutive_failures;
      retry_in_secs = elim p.failure_state.last_failure [
        | none ↦ 0
        | some last ↦ (backoff_delay p - (now - last)) / 1_000_000_000
      ];
    })
