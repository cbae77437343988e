-- ===== src/Daemon/Told.antt =====
-- What the daemon of daemon.rs has told its clients about failing pools, against the pools.
use runt.Prelude.{
  ℕ, String, Bool, true, false, Option, none, some, List, [], ◌∷◌, ◌++◌, ◌≡◌, refl, arith, ltb,
  nat_eq, Bool-cases, Option-cases, subst, inl, inr, sym, ap, ◌∙◌, length,
}
use runt.Pool.{EnvType, uv, conda, PooledEnv, PoolEntry, Pool, PoolError, take, get_error, add}
use runt.Pool.Warming.{Created, created, failed, finish_creation}
use runt.Pool.Backoff.{failed_times}
use runt.Daemon.Requests.{answer_take-daemon}
use runt.Daemon.{
  Daemon, Request, Persisted, Effect, pool_state, remove_dir_all, spawn_create_uv_env,
  spawn_replenish_conda_env, notify_shutdown, handle_request, end_creation, reset_failures, Task,
  ends, resets_uv, resets_conda, reads_uv, reads_conda, sends, finished, report_if, advance,
  CacheDir, pool_of, with_pool, removals, emit, drain, take_pooled, give_back, push_back,
  has_failures, keep_existing, env_of, take_env, return_env, flush_pool, shutdown_daemon, replenish,
}

abbrev pub told_failures : Option PoolError → ℕ
told_failures none = 0
told_failures (some e) = e.consecutive_failures

-- The failures of the two pools in the last broadcast, or else those given.
abbrev pub last_told : ℕ × ℕ → List Effect → ℕ × ℕ
last_told acc [] = acc
last_told acc (pool_state u c ∷ es) = last_told (told_failures u, told_failures c) es
last_told acc (_ ∷ es) = last_told acc es

abbrev pub IsTold : Daemon → Type 0
IsTold d = last_told (0, 0) d.effects ≡ (failed_times d.uv_pool, failed_times d.conda_pool)

pub last_told-append :
    (acc : ℕ × ℕ) (es fs : List Effect) → last_told acc (es ++ fs) ≡ last_told (last_told acc es) fs
last_told-append acc [] fs = refl
last_told-append acc (pool_state u c ∷ es) fs =
    last_told-append (told_failures u, told_failures c) es fs
last_told-append acc (spawn_create_uv_env ∷ es) fs = last_told-append acc es fs
last_told-append acc (spawn_replenish_conda_env ∷ es) fs = last_told-append acc es fs
last_told-append acc (notify_shutdown ∷ es) fs = last_told-append acc es fs
last_told-append acc (remove_dir_all p ∷ es) fs = last_told-append acc es fs

last_told-removals : (acc : ℕ × ℕ) (ps : List PoolEntry) → last_told acc (removals ps) ≡ acc
last_told-removals acc [] = refl
last_told-removals acc (p ∷ ps) = last_told-removals acc ps

pub told_error : (now : ℕ) (p : Pool) → told_failures (get_error now p) ≡ failed_times p
unfolding get_error
told_error now p = ground arith

module _ (told : ℕ × ℕ) (u c : ℕ) where
  -- The last broadcast and the failures of the pools are as given.
  abbrev Stands : Daemon → Type 0
  Stands d =
      (last_told (0, 0) d.effects ≡ told)
      × (failed_times d.uv_pool ≡ u)
      × (failed_times d.conda_pool ≡ c)

  -- Effects that are no broadcast, and pools whose failures are the same.
  quiet-Stands :
      (d d' : Daemon) (fs : List Effect)
      → d'.effects ≡ d.effects ++ fs
      → last_told (last_told (0, 0) d.effects) fs ≡ last_told (0, 0) d.effects
      → failed_times d'.uv_pool ≡ failed_times d.uv_pool
      → failed_times d'.conda_pool ≡ failed_times d.conda_pool
      → Stands d
      → Stands d'
  quiet-Stands d d' fs grown quiet same_u same_c h = (
    ap (last_told (0, 0)) grown ∙ last_told-append (0, 0) d.effects fs ∙ quiet ∙ h.0,
    same_u ∙ h.1,
    same_c ∙ h.2,
  )

  emit-Stands : (t : EnvType) (d : Daemon) → Stands d → Stands (emit (replenish t) d)
  emit-Stands uv d h =
      quiet-Stands d (emit spawn_create_uv_env d) (spawn_create_uv_env ∷ []) refl refl refl refl h
  emit-Stands conda d h =
      quiet-Stands d (emit spawn_replenish_conda_env d) (spawn_replenish_conda_env ∷ []) refl refl
        refl refl h

  with_pool-Stands :
      (t : EnvType) (p : Pool) (d : Daemon)
      → failed_times p ≡ failed_times (pool_of t d)
      → Stands d
      → Stands (with_pool t p d)
  with_pool-Stands uv p d same h = (h.0, same ∙ h.1, h.2)
  with_pool-Stands conda p d same h = (h.0, h.1, same ∙ h.2)

  remove-Stands : (path : String) (d : Daemon) → Stands d → Stands (emit (remove_dir_all path) d)
  remove-Stands path d h =
      quiet-Stands d (emit (remove_dir_all path) d) (remove_dir_all path ∷ []) refl refl refl refl h

  take_pooled-Stands :
      (now : ℕ) (exists : String → Bool) (t : EnvType) (d : Daemon)
      → Stands d
      → Stands (take_pooled now exists t d).1
  unfolding take_pooled take
  take_pooled-Stands now exists t d h =
      let q = (take now exists (pool_of t d)).1 in
      let kept = with_pool-Stands t q d refl h in
      elim (Option-cases (take now exists (pool_of t d)).0) [
        | inl e ↦ rw (take_pooled, e) kept
        | inr (x, e) ↦ rw (take_pooled, e) (emit-Stands t (with_pool t q d) kept)
      ]

  give_back-Stands : (now : ℕ) (e : PooledEnv) (d : Daemon) → Stands d → Stands (give_back now e d)
  unfolding give_back push_back
  give_back-Stands now e d h =
      let p = pool_of e.env_type d in
      elim (Bool-cases (ltb (length p.available) p.target)) [
        | inl room ↦ rw room (with_pool-Stands e.env_type (push_back now e p) d refl h)
        | inr full ↦ rw full (remove-Stands e.venv_path d h)
      ]

  drain-Stands : (t : EnvType) (d : Daemon) → Stands d → Stands (drain t d)
  unfolding drain
  drain-Stands uv d h =
      quiet-Stands d (drain uv d) (removals d.uv_pool.available) refl
        (last_told-removals _ d.uv_pool.available) refl refl h
  drain-Stands conda d h =
      quiet-Stands d (drain conda d) (removals d.conda_pool.available) refl
        (last_told-removals _ d.conda_pool.available) refl refl h

  request-Stands :
      (now : ℕ) (exists : String → Bool) (persisted : String → Persisted) (r : Request) (d : Daemon)
      → Stands d
      → Stands (handle_request now exists persisted r d).1
  unfolding handle_request
  request-Stands now exists persisted (take_env t) d h =
      subst Stands (sym (answer_take-daemon (take_pooled now exists t d)))
        (take_pooled-Stands now exists t d h)
  request-Stands now exists persisted (return_env e) d h = give_back-Stands now e d h
  request-Stands now exists persisted flush_pool d h =
      drain-Stands conda (drain uv d) (drain-Stands uv d h)
  request-Stands now exists persisted shutdown_daemon d h =
      quiet-Stands d (emit notify_shutdown (record d { shutdown = true })) (notify_shutdown ∷ [])
        refl refl refl refl h
  request-Stands now exists persisted _ d h = h

  keep_existing-Stands :
      (exists : String → Bool) (t : EnvType) (c : CacheDir) (d : Daemon)
      → Stands d
      → Stands (keep_existing exists t c d)
  unfolding keep_existing push_back
  keep_existing-Stands exists t c d h = elim (Bool-cases (exists c.python_path)) [
    | inr gone ↦ rw gone (remove-Stands c.env_path d h)
    | inl good ↦ elim (Bool-cases (ltb (length (pool_of t d).available) (pool_of t d).target)) [
      | inl room ↦
          rw (good, room)
            (with_pool-Stands t (push_back c.met_at (env_of t c) (pool_of t d)) d refl h)
      | inr full ↦ rw (good, full) h
    ]
  ]

-- What the task that is at work has still to tell: nothing, or all.
abbrev IsTelling : Task → Daemon → Type 0
IsTelling (ends t c) d = IsTold d
IsTelling resets_uv d = IsTold d
IsTelling (resets_conda true) d = Unit
IsTelling (resets_conda false) d = IsTold d
IsTelling reads_uv d = Unit
IsTelling (reads_conda u) d = told_failures u ≡ failed_times d.uv_pool
IsTelling (sends u c) d =
    (told_failures u ≡ failed_times d.uv_pool) × (told_failures c ≡ failed_times d.conda_pool)
IsTelling finished d = IsTold d

abbrev IsQuiet : Daemon → Daemon → Type 0
IsQuiet d d' =
    Stands (last_told (0, 0) d.effects) (failed_times d.uv_pool) (failed_times d.conda_pool) d'

quiet-IsTold : (d d' : Daemon) → IsQuiet d d' → IsTold d → IsTold d'
quiet-IsTold d d' q told =
    q.0
    ∙ told
    ∙ ap (λ x. (x, failed_times d.conda_pool)) (sym q.1)
    ∙ ap (λ x. (failed_times d'.uv_pool, x)) (sym q.2)

quiet-IsTelling : (t : Task) (d d' : Daemon) → IsQuiet d d' → IsTelling t d → IsTelling t d'
quiet-IsTelling (ends t c) d d' q h = quiet-IsTold d d' q h
quiet-IsTelling resets_uv d d' q h = quiet-IsTold d d' q h
quiet-IsTelling (resets_conda true) d d' q h = tt
quiet-IsTelling (resets_conda false) d d' q h = quiet-IsTold d d' q h
quiet-IsTelling reads_uv d d' q h = tt
quiet-IsTelling (reads_conda u) d d' q h = h ∙ sym q.1
quiet-IsTelling (sends u c) d d' q h = (h.0 ∙ sym q.1, h.1 ∙ sym q.2)
quiet-IsTelling finished d d' q h = quiet-IsTold d d' q h

no_failure-cases : (n : ℕ) → ltb 0 n ≡ false → n ≡ 0
no_failure-cases n h = ground arith

end_creation-IsTelling :
    (now : ℕ) (t : EnvType) (c : Created) (d : Daemon)
    → IsTold d
    → IsTelling (report_if (end_creation now t c d).0) (end_creation now t c d).1
unfolding end_creation finish_creation add
end_creation-IsTelling now t (failed at cause) d told = tt
end_creation-IsTelling now t (created at e) d told =
    elim (Bool-cases (has_failures (pool_of t d))) [
      | inl failing ↦ rw failing tt
      | inr fine ↦ rw fine (
          quiet-IsTold d (with_pool t (add at e (pool_of t d)) d)
            (with_pool-Stands _ _ _ t (add at e (pool_of t d)) d
              (sym (no_failure-cases (failed_times (pool_of t d)) fine)) (refl, refl, refl))
            told)
    ]

reset_failures-fine :
    (t : EnvType) (d : Daemon)
    → has_failures (pool_of t d) ≡ false
    → reset_failures t d ≡ (false, d)
unfolding reset_failures
reset_failures-fine t d fine = rw fine refl

reset_failures-failing :
    (t : EnvType) (d : Daemon) → has_failures (pool_of t d) ≡ true → (reset_failures t d).0 ≡ true
unfolding reset_failures
reset_failures-failing t d failing = rw failing refl

advance-IsTelling :
    (now : ℕ) (t : Task) (d : Daemon)
    → IsTelling t d
    → IsTelling (advance now t d).0 (advance now t d).1
unfolding advance
advance-IsTelling now (ends t c) d h = end_creation-IsTelling now t c d h
advance-IsTelling now resets_uv d h = elim (Bool-cases (has_failures d.uv_pool)) [
  | inl failing ↦
      subst (λ b. IsTelling (resets_conda b) (reset_failures uv d).1)
        (sym (reset_failures-failing uv d failing)) tt
  | inr fine ↦ subst (λ r. IsTelling (resets_conda r.0) r.1) (sym (reset_failures-fine uv d fine)) h
]
advance-IsTelling now (resets_conda true) d h = tt
advance-IsTelling now (resets_conda false) d h = elim (Bool-cases (has_failures d.conda_pool)) [
  | inl failing ↦
      subst (λ b. IsTelling (report_if b) (reset_failures conda d).1)
        (sym (reset_failures-failing conda d failing)) tt
  | inr fine ↦ subst (λ r. IsTelling (report_if r.0) r.1) (sym (reset_failures-fine conda d fine)) h
]
advance-IsTelling now reads_uv d h = told_error now d.uv_pool
advance-IsTelling now (reads_conda u) d h = (h, told_error now d.conda_pool)
advance-IsTelling now (sends u c) d h =
    last_told-append (0, 0) d.effects (pool_state u c ∷ [])
    ∙ ap (λ x. (x, told_failures c)) h.0
    ∙ ap (λ x. (failed_times d.uv_pool, x)) h.1
advance-IsTelling now finished d h = h

-- What happens: a task starts if none is at work, the one at work takes its next lock or sends, a
-- request comes, or the scan meets an entry.
pub data Step : Type 0 where
  creation_ends : EnvType → Created → Step
  settings_change : Step
  moves : ℕ → Step
  asked : ℕ → (String → Bool) → (String → Persisted) → Request → Step
  scanned : (String → Bool) → EnvType → CacheDir → Step

abbrev pub start_if_idle : Task → Task → Task
start_if_idle t finished = t
start_if_idle t s = s

abbrev pub perform : Step → Task × Daemon → Task × Daemon
perform (creation_ends t c) (s, d) = (start_if_idle (ends t c) s, d)
perform settings_change (s, d) = (start_if_idle resets_uv s, d)
perform (moves now) (s, d) = advance now s d
perform (asked now exists persisted r) (s, d) = (s, (handle_request now exists persisted r d).1)
perform (scanned exists t c) (s, d) = (s, keep_existing exists t c d)

abbrev pub perform_all : List Step → Task × Daemon → Task × Daemon
perform_all [] w = w
perform_all (s ∷ ss) w = perform_all ss (perform s w)

start-IsTelling :
    (t s : Task) (d : Daemon)
    → (IsTold d → IsTelling t d)
    → IsTelling s d
    → IsTelling (start_if_idle t s) d
start-IsTelling t finished d f h = f h
start-IsTelling t (ends k c) d f h = h
start-IsTelling t resets_uv d f h = h
start-IsTelling t (resets_conda had_errors) d f h = h
start-IsTelling t reads_uv d f h = h
start-IsTelling t (reads_conda u) d f h = h
start-IsTelling t (sends u c) d f h = h

perform-IsTelling :
    (s : Step) (w : Task × Daemon) → IsTelling w.0 w.1 → IsTelling (perform s w).0 (perform s w).1
perform-IsTelling (creation_ends t c) (s, d) h = start-IsTelling (ends t c) s d (λ x. x) h
perform-IsTelling settings_change (s, d) h = start-IsTelling resets_uv s d (λ x. x) h
perform-IsTelling (moves now) (s, d) h = advance-IsTelling now s d h
perform-IsTelling (asked now exists persisted r) (s, d) h =
    quiet-IsTelling s d _ (request-Stands _ _ _ now exists persisted r d (refl, refl, refl)) h
perform-IsTelling (scanned exists t c) (s, d) h =
    quiet-IsTelling s d _ (keep_existing-Stands _ _ _ exists t c d (refl, refl, refl)) h

perform_all-IsTelling :
    (ss : List Step) (w : Task × Daemon)
    → IsTelling w.0 w.1
    → IsTelling (perform_all ss w).0 (perform_all ss w).1
perform_all-IsTelling [] w h = h
perform_all-IsTelling (s ∷ ss) w h =
    perform_all-IsTelling ss (perform s w) (perform-IsTelling s w h)

-- Clients that follow the broadcasts know the failures, as long as broadcasts do not overlap: take any
-- sequence of ends of creations and settings changes, one after the other, with requests and the scan
-- between any two of their locks. Whenever none of them is at work, the counts of consecutive failures
-- in the last broadcast are those of the two pools, if this held before.
pub perform_all-IsTold :
    (ss : List Step) (d : Daemon)
    → IsTold d
    → (perform_all ss (finished, d)).0 ≡ finished
    → IsTold (perform_all ss (finished, d)).1
perform_all-IsTold ss d told idle =
    subst (λ t. IsTelling t (perform_all ss (finished, d)).1) idle
      (perform_all-IsTelling ss (finished, d) told)
