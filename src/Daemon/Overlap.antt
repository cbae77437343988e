-- ===== src/Daemon/Overlap.antt =====
-- Two tasks of daemon.rs that broadcast at the same time.
use runt.Prelude.{ℕ, ◌+◌, ◌%◌, Option, none, some, List, [], ◌∷◌, ◌++◌, ◌≡◌, refl, ap, ◌∙◌}
use runt.Pool.{
  uv, conda, Pool, PackageInstallError, get_error, warming_failed_with_error, with_error, u32_mod,
}
use runt.Pool.Warming.{failed, finish_creation}
use runt.Pool.Backoff.{failed_times}
use runt.Daemon.{Daemon, Task, ends, finished, advance, end_creation, pool_state}
use runt.Daemon.Told.{last_told, last_told-append, told_failures, told_error}

-- Which of two tasks moves.
pub data Turn : Type 0 where
  first second : Turn

abbrev pub take_turns : ℕ → List Turn → Task → Task → Daemon → Task × (Task × Daemon)
take_turns now [] s t d = (s, (t, d))
take_turns now (first ∷ turns) s t d =
    take_turns now turns (advance now s d).0 t (advance now s d).1
take_turns now (second ∷ turns) s t d =
    take_turns now turns s (advance now t d).0 (advance now t d).1

-- The first task reads the UV pool, then the second fails and tells, and then the first goes on.
abbrev pub overtaken : List Turn
overtaken = first ∷ first ∷ second ∷ second ∷ second ∷ second ∷ first ∷ first ∷ []

failed_again :
    (now : ℕ) (cause : Option PackageInstallError) (p : Pool)
    → failed_times (warming_failed_with_error now cause p) ≡ (failed_times p + 1) % u32_mod
unfolding warming_failed_with_error with_error
failed_again now none p = refl
failed_again now (some e) p = refl

-- A broadcast that was overtaken is the last one and is wrong. When a Conda and a UV creation fail at
-- the same time, and the Conda task reads the UV pool before the UV creation fails and sends after that
-- failure was told, both tasks end, and the last broadcast has the number of UV failures from before
-- and the new number of Conda failures; so clients do not know that the UV pool failed.
pub broadcast_goes_stale :
    (now : ℕ) (conda_cause uv_cause : Option PackageInstallError) (d : Daemon)
    → let (s, (t, d')) =
        take_turns now overtaken
          (ends conda (failed now conda_cause))
          (ends uv (failed now uv_cause))
          d in
      (s ≡ finished)
      × (t ≡ finished)
      × (failed_times d'.uv_pool ≡ (failed_times d.uv_pool + 1) % u32_mod)
      × (last_told (0, 0) d'.effects ≡ (failed_times d.uv_pool, failed_times d'.conda_pool))
unfolding advance end_creation finish_creation warming_failed_with_error
broadcast_goes_stale now conda_cause uv_cause d =
    let uv' = warming_failed_with_error now uv_cause d.uv_pool in
    let conda' = warming_failed_with_error now conda_cause d.conda_pool in
    let told = pool_state (get_error now uv') (get_error now conda') in
    let stale = pool_state (get_error now d.uv_pool) (get_error now conda') in
    (
      refl,
      refl,
      failed_again now uv_cause d.uv_pool,
      last_told-append (0, 0) (d.effects ++ told ∷ []) (stale ∷ [])
          ∙ ap (λ n. (n, told_failures (get_error now conda'))) (told_error now d.uv_pool)
          ∙ ap (λ n. (failed_times d.uv_pool, n)) (told_error now conda'),
    )
