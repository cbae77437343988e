-- ===== src/Pool/Backoff.antt =====
-- When a pool of daemon.rs retries after failures.
use runt.Prelude.{
  ℕ, zero, suc, ◌+◌, ◌-◌, ◌*◌, ◌^◌, ◌≤◌, ◌<◌, min, not, true, Option, none, some, ◌≡◌, refl, arith,
  ◌==◌, nat_eq, if◌then◌else◌, ◌↔◌, is_some, subst,
}
use runt.Pool.{
  Pool, PackageInstallError, PoolError, backoff_delay, should_retry, get_error,
  warming_failed_with_error, with_error, from_secs, reset_failure_state, u32_mod,
}

-- The documented table, in seconds, by the number of consecutive failures.
abbrev pub schedule : ℕ → ℕ
schedule zero = 0
schedule (suc zero) = 30
schedule (suc (suc zero)) = 60
schedule (suc (suc (suc zero))) = 120
schedule (suc (suc (suc (suc zero)))) = 240
schedule (suc (suc (suc (suc (suc n))))) = 300

delay_of :
    (n : ℕ)
    → (if n == 0 then 0 else from_secs (min (30 * 2 ^ (min (n - 1) 4)) 300))
      ≡ from_secs (schedule n)
delay_of zero = refl
delay_of (suc zero) = refl
delay_of (suc (suc zero)) = refl
delay_of (suc (suc (suc zero))) = refl
delay_of (suc (suc (suc (suc zero)))) = refl
delay_of (suc (suc (suc (suc (suc n))))) =
    let e : min (suc (suc (suc (suc (suc n)))) - 1) 4 ≡ 4 = omega arith in rw e (ground arith)

-- The shifted and capped computation gives the documented table: 0, 30, 60, 120 and 240 seconds for
-- no to four consecutive failures, and 300 for more.
backoff_delay-eq-schedule :
    (p : Pool) → backoff_delay p ≡ from_secs (schedule p.failure_state.consecutive_failures)
unfolding backoff_delay
backoff_delay-eq-schedule p = delay_of p.failure_state.consecutive_failures

abbrev pub failed_times : Pool → ℕ
failed_times p = p.failure_state.consecutive_failures

failure_time :
    (now : ℕ) (error : Option PackageInstallError) (p : Pool)
    → (warming_failed_with_error now error p).failure_state.last_failure ≡ some now
unfolding warming_failed_with_error
failure_time now none p = refl
failure_time now (some e) p = refl

counted_once :
    (now : ℕ) (error : Option PackageInstallError) (p : Pool)
    → failed_times p + 1 < u32_mod
    → failed_times (warming_failed_with_error now error p) ≡ failed_times p + 1
unfolding warming_failed_with_error
counted_once now none p fits = omega arith
counted_once now (some e) p fits = omega arith

retry_iff :
    (later : ℕ) (q : Pool) (last : ℕ)
    → q.failure_state.last_failure ≡ some last
    → (should_retry later q ≡ true) ↔ (from_secs (schedule (failed_times q)) ≤ later - last)
unfolding should_retry
retry_iff later q last e = (
  λ h. ground (arith, e, backoff_delay-eq-schedule q),
  λ h. ground (arith, e, backoff_delay-eq-schedule q),
)

-- A failure counts once, starts the wait of the schedule's next step at its own time, and keeps the
-- error before it if it has none of its own; a success or a settings change ends the wait.
failure_starts_wait :
    (now later : ℕ) (error : Option PackageInstallError) (p : Pool)
    → failed_times p + 1 < u32_mod
    → let q = warming_failed_with_error now error p in
      (failed_times q ≡ failed_times p + 1)
      × ((should_retry later q ≡ true) ↔ (from_secs (schedule (failed_times p + 1)) ≤ later - now))
      × (should_retry later (reset_failure_state q) ≡ true)
unfolding warming_failed_with_error should_retry reset_failure_state with_error
failure_starts_wait now later error p fits =
    let counted = counted_once now error p fits in
    let waits =
      retry_iff later (warming_failed_with_error now error p) now (failure_time now error p) in
    (
      counted,
      subst
          (λ n.
            (should_retry later (warming_failed_with_error now error p) ≡ true)
            ↔ (from_secs (schedule n) ≤ later - now))
          counted waits,
      refl,
    )

-- What clients are told agrees with what the pool does: an error is reported exactly while failures
-- are counted, the wait reported is at most that of the schedule, and it is 0 once the pool retries.
reported_wait :
    (now : ℕ) (p : Pool)
    → (is_some (get_error now p) ≡ not (failed_times p == 0))
      × ((e : PoolError)
          → get_error now p ≡ some e
          → (e.consecutive_failures ≡ failed_times p)
            × (e.retry_in_secs ≤ schedule (failed_times p))
            × (should_retry now p ≡ true → e.retry_in_secs ≡ 0))
unfolding get_error should_retry
reported_wait now p = (
  ground arith,
  λ e h. (ground arith, ground (arith, backoff_delay-eq-schedule p), λ retries. ground arith),
)
