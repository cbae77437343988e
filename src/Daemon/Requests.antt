-- ===== src/Daemon/Requests.antt =====
-- What the requests of daemon.rs do to the two pools.
use mathlib.Core.List.{append_assoc}
use runt.Prelude.{
  ℕ, String, ◌≤◌, ◌<◌, Bool, Option, none, some, List, [], ◌∷◌, ◌++◌, ◌≡◌, ◌≢◌, ◌⊎◌, inl, inr, refl,
  arith, ltb, length, length-append, length-retain-le, retain, if◌then◌else◌, Bool-cases,
  Option-cases, ap, sym, subst, ◌∙◌, ltb→lt,
}
use runt.Pool.{
  EnvType, uv, conda, PooledEnv, PoolEntry, Pool, take, prune_stale, pop_usable, is_fresh,
}
use runt.Daemon.{
  Daemon, Request, Persisted, Effect, take_env, return_env, shutdown_daemon, flush_pool, empty, env,
  remove_dir_all, pool_of, replenish, removals, handle_request, take_pooled, give_back, drain,
  push_back, answer_take, with_pool, emit,
}

abbrev pub IsBounded : EnvType → Daemon → Type 0
IsBounded t d = length (pool_of t d).available ≤ (pool_of t d).target

length-pop_usable-le :
    (exists : String → Bool) (es : List PoolEntry) → length (pop_usable exists es).1 ≤ length es
unfolding pop_usable
length-pop_usable-le exists [] = omega arith
length-pop_usable-le exists (e ∷ es) = ground (arith, length-pop_usable-le exists es)

length-take-le :
    (now : ℕ) (exists : String → Bool) (p : Pool)
    → length (take now exists p).1.available ≤ length p.available
unfolding take prune_stale
length-take-le now exists p =
    let fresh = retain (is_fresh p.max_age_secs now) p.available in
    omega (
      arith,
      length-pop_usable-le exists fresh,
      length-retain-le (is_fresh p.max_age_secs now) p.available,
    )

target-take :
    (now : ℕ) (exists : String → Bool) (p : Pool) → (take now exists p).1.target ≡ p.target
unfolding take
target-take now exists p = refl

take_pooled-IsBounded :
    (now : ℕ) (exists : String → Bool) (t s : EnvType) (d : Daemon)
    → IsBounded s d
    → IsBounded s (take_pooled now exists t d).1
unfolding take_pooled
take_pooled-IsBounded now exists uv uv d b =
    ground (arith, length-take-le now exists d.uv_pool, target-take now exists d.uv_pool)
take_pooled-IsBounded now exists uv conda d b = ground arith
take_pooled-IsBounded now exists conda uv d b = ground arith
take_pooled-IsBounded now exists conda conda d b =
    ground (arith, length-take-le now exists d.conda_pool, target-take now exists d.conda_pool)

give_back-IsBounded :
    (now : ℕ) (t s : EnvType) (e : PooledEnv) (d : Daemon)
    → e.env_type ≡ t
    → IsBounded s d
    → IsBounded s (give_back now e d)
unfolding give_back
give_back-IsBounded now uv uv e d h b =
    ground (arith, length-append d.uv_pool.available ((record { env = e; created_at = now }) ∷ []))
give_back-IsBounded now uv conda e d h b = ground arith
give_back-IsBounded now conda uv e d h b = ground arith
give_back-IsBounded now conda conda e d h b =
    ground
      (arith, length-append d.conda_pool.available ((record { env = e; created_at = now }) ∷ []))

pub answer_take-daemon : (r : Option PooledEnv × Daemon) → (answer_take r).1 ≡ r.1
answer_take-daemon (none, d) = refl
answer_take-daemon (some e, d) = refl

pool_of-with_pool : (t : EnvType) (p : Pool) (d : Daemon) → pool_of t (with_pool t p d) ≡ p
pool_of-with_pool uv p d = refl
pool_of-with_pool conda p d = refl

effects-with_pool : (t : EnvType) (p : Pool) (d : Daemon) → (with_pool t p d).effects ≡ d.effects
effects-with_pool uv p d = refl
effects-with_pool conda p d = refl

pool_of_other :
    (s t : EnvType) (p : Pool) (d : Daemon) → s ≢ t → pool_of s (with_pool t p d) ≡ pool_of s d
pool_of_other uv uv p d h = absurd (h refl)
pool_of_other uv conda p d h = refl
pool_of_other conda uv p d h = refl
pool_of_other conda conda p d h = absurd (h refl)

pool_of-emit : (s : EnvType) (f : Effect) (d : Daemon) → pool_of s (emit f d) ≡ pool_of s d
pool_of-emit uv f d = refl
pool_of-emit conda f d = refl

request-IsBounded :
    (now : ℕ) (exists : String → Bool) (persisted : String → Persisted) (r : Request) (s : EnvType)
    (d : Daemon)
    → IsBounded s d
    → IsBounded s (handle_request now exists persisted r d).1
unfolding handle_request
request-IsBounded now exists persisted (take_env t) s d b =
    subst (IsBounded s) (sym (answer_take-daemon (take_pooled now exists t d)))
      (take_pooled-IsBounded now exists t s d b)
request-IsBounded now exists persisted (return_env e) s d b =
    give_back-IsBounded now e.env_type s e d refl b
request-IsBounded now exists persisted flush_pool uv d b = omega arith
request-IsBounded now exists persisted flush_pool conda d b = omega arith
request-IsBounded now exists persisted shutdown_daemon uv d b = b
request-IsBounded now exists persisted shutdown_daemon conda d b = b
request-IsBounded now exists persisted _ s d b = b

-- What a request does to an environment that is given back.
abbrev pub KeepsOrDeletes : ℕ → Request → Daemon → Daemon → Type 0
KeepsOrDeletes now (return_env e) d d' =
    let p = pool_of e.env_type d in
    let entry : PoolEntry = record { env = e; created_at = now } in
    if ltb (length p.available) p.target
    then ((pool_of e.env_type d').available ≡ p.available ++ entry ∷ []) × (d'.effects ≡ d.effects)
    else ((pool_of e.env_type d').available ≡ p.available)
      × (d'.effects ≡ d.effects ++ remove_dir_all e.venv_path ∷ [])
KeepsOrDeletes now r d d' = Unit

-- An environment given back goes to the end of its pool if that has room, and otherwise its directory
-- is deleted and its pool left alone; the other pool is left alone in both cases.
give_back_once :
    (now : ℕ) (e : PooledEnv) (d : Daemon)
    → let p = pool_of e.env_type d in
      let d' = give_back now e d in
      (((length p.available < p.target)
          × ((pool_of e.env_type d').available
              ≡ p.available ++ (record { env = e; created_at = now }) ∷ [])
          × (d'.effects ≡ d.effects))
        ⊎ ((p.target ≤ length p.available)
            × ((pool_of e.env_type d').available ≡ p.available)
            × (d'.effects ≡ d.effects ++ remove_dir_all e.venv_path ∷ [])))
      × ((s : EnvType) → s ≢ e.env_type → pool_of s d' ≡ pool_of s d)
unfolding give_back push_back
give_back_once now e d =
    let t = e.env_type in
    let p = pool_of t d in
    elim (Bool-cases (ltb (length p.available) p.target)) [
      | inl room ↦
          let q = push_back now e p in
          rw room (
            inl (
              ltb→lt _ _ room,
              ap (λ r. r.available) (pool_of-with_pool t q d),
              effects-with_pool t q d,
            ),
            λ s other. pool_of_other s t q d other,
          )
      | inr full ↦
          let f = remove_dir_all e.venv_path in
          rw full (
            inr (ground arith, ap (λ r. r.available) (pool_of-emit t f d), refl),
            λ s other. pool_of-emit s f d,
          )
    ]

give_back-KeepsOrDeletes :
    (now : ℕ) (e : PooledEnv) (d : Daemon) → KeepsOrDeletes now (return_env e) d (give_back now e d)
unfolding give_back push_back
give_back-KeepsOrDeletes now e d =
    let t = e.env_type in
    let p = pool_of t d in
    elim (Bool-cases (ltb (length p.available) p.target)) [
      | inl room ↦
          let q = push_back now e p in
          rw room (ap (λ r. r.available) (pool_of-with_pool t q d), effects-with_pool t q d)
      | inr full ↦
          rw full (ap (λ r. r.available) (pool_of-emit t (remove_dir_all e.venv_path) d), refl)
    ]

request-Keeps :
    (now : ℕ) (exists : String → Bool) (persisted : String → Persisted) (r : Request) (d : Daemon)
    → KeepsOrDeletes now r d (handle_request now exists persisted r d).1
unfolding handle_request
request-Keeps now exists persisted (return_env e) d = give_back-KeepsOrDeletes now e d
request-Keeps now exists persisted _ d = tt

-- No request grows a pool beyond its target, and none loses an environment that is given back: it goes
-- to the end of its pool if that has room, and otherwise its directory is deleted.
pub handle_request-IsBounded :
    (now : ℕ) (exists : String → Bool) (persisted : String → Persisted) (r : Request) (s : EnvType)
    (d : Daemon)
    → IsBounded s d
    → let d' = (handle_request now exists persisted r d).1 in
      IsBounded s d' × KeepsOrDeletes now r d d'
unfolding handle_request
handle_request-IsBounded now exists persisted r s d b =
    (request-IsBounded now exists persisted r s d b, request-Keeps now exists persisted r d)

-- `FlushPool` empties both pools and deletes the directory of each environment in them, once and in
-- order; what is in creation and the failures are left as they were.
flush_removes_all :
    (now : ℕ) (exists : String → Bool) (persisted : String → Persisted) (d : Daemon)
    → let d' = (handle_request now exists persisted flush_pool d).1 in
      (d'.uv_pool ≡ record d.uv_pool { available = [] })
      × (d'.conda_pool ≡ record d.conda_pool { available = [] })
      × (d'.effects
          ≡ d.effects ++ (removals d.uv_pool.available ++ removals d.conda_pool.available))
unfolding handle_request drain
flush_removes_all now exists persisted d = (refl, refl, append_assoc d.effects _ _)

-- A request for an environment is served exactly if the pool of its kind has one to hand out, and
-- then starts one replenishment of that kind; otherwise the answer is `Empty` and nothing is started.
-- The other pool is left alone.
take_env_replenishes :
    (now : ℕ) (exists : String → Bool) (persisted : String → Persisted) (t : EnvType) (d : Daemon)
    → let (answer, d') = handle_request now exists persisted (take_env t) d in
      (((e : PooledEnv) × ((take now exists (pool_of t d)).0 ≡ some e)
          × (answer ≡ env e)
          × (d'.effects ≡ d.effects ++ replenish t ∷ []))
        ⊎ (((take now exists (pool_of t d)).0 ≡ none)
            × (answer ≡ empty)
            × (d'.effects ≡ d.effects)))
      × ((s : EnvType) → s ≢ t → pool_of s d' ≡ pool_of s d)
unfolding handle_request take_pooled
take_env_replenishes now exists persisted t d =
    let q = (take now exists (pool_of t d)).1 in
    elim (Option-cases (take now exists (pool_of t d)).0) [
      | inl e ↦
          rw (handle_request, take_pooled, e)
            (inr (refl, refl, effects-with_pool t q d), λ s other. pool_of_other s t q d other)
      | inr (x, e) ↦
          rw (handle_request, take_pooled, e)
            (
              inl (x, refl, refl, ap (λ l. l ++ replenish t ∷ []) (effects-with_pool t q d)),
              λ s other.
                  pool_of-emit s (replenish t) (with_pool t q d) ∙ pool_of_other s t q d other,
            )
    ]
