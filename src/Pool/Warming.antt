-- ===== src/Pool/Warming.antt =====
-- The count of environments in creation (daemon.rs): the warming loops mark what they start, the
-- Conda replenishment marks one, and the UV replenishment marks none.
use runt.Prelude.{
  ℕ, suc, ◌+◌, ◌-◌, ◌≤◌, ◌<◌, Bool, true, Option, List, [], ◌∷◌, ◌≡◌, refl, ap, arith, length,
  if◌then◌else◌, ltb, ◌&&◌, length-append, max, false,
}
use runt.Pool.{
  Pool, PooledEnv, PackageInstallError, add, warming_failed_with_error, mark_warming, deficit,
  should_retry, usize_mod, EnvType, uv, conda, PoolEntry, reset_failure_state,
}

-- How one creation ends, at a time.
pub data Created : Type 0 where
  created : ℕ → PooledEnv → Created
  failed : ℕ → Option PackageInstallError → Created

-- The pool's part of `create_uv_env` and `create_conda_env`.
unfoldable pub finish_creation : Created → Pool → Pool
finish_creation (created now env) p = add now env p
finish_creation (failed now error) p = warming_failed_with_error now error p

unfoldable pub finish_all : List Created → Pool → Pool
unfolding finish_creation
finish_all [] p = p
finish_all (c ∷ cs) p = finish_all cs (finish_creation c p)

-- One round of a warming loop up to the creations: `(d, retry)` and the pool.
unfoldable pub begin_round : ℕ → Pool → (ℕ × Bool) × Pool
begin_round now p =
    let d = deficit p in
    let retry = should_retry now p in ((d, retry), if ltb 0 d && retry then mark_warming d p else p)

abbrev pub successes : List Created → ℕ
successes [] = 0
successes (created now env ∷ cs) = suc (successes cs)
successes (failed now error ∷ cs) = successes cs

finish_all-counts :
    (cs : List Created) (p : Pool)
    → length cs ≤ p.warming
    → ((finish_all cs p).warming + length cs ≡ p.warming)
      × (length (finish_all cs p).available ≡ length p.available + successes cs)
unfolding finish_all add warming_failed_with_error
finish_all-counts [] p h = (omega arith, omega arith)
finish_all-counts (created now env ∷ cs) p h =
    let ih = finish_all-counts cs (add now env p) (omega arith) in
    (
      omega (arith, ih.0),
      omega
          (arith, ih.1, length-append p.available ((record { env = env; created_at = now }) ∷ [])),
    )
finish_all-counts (failed now error ∷ cs) p h =
    let ih = finish_all-counts cs (warming_failed_with_error now error p) (omega arith) in
    (omega (arith, ih.0), omega (arith, ih.1))

begin_round-counts :
    (now : ℕ) (p : Pool)
    → should_retry now p ≡ true
    → p.warming + deficit p < usize_mod
    → ((begin_round now p).1.available ≡ p.available)
      × ((begin_round now p).1.warming ≡ p.warming + deficit p)
unfolding begin_round mark_warming
begin_round-counts now p retries fits = (ground arith, ground arith)

closes_deficit :
    (p : Pool)
    → length p.available + p.warming < usize_mod
    → length p.available + (p.warming + deficit p) ≡ max p.target (length p.available + p.warming)
unfolding deficit
closes_deficit p fits = ground arith

-- A round of a warming loop that may retry closes the deficit while it creates: available and warming
-- environments together are then as many as the target, or as many as before if that was more. Once
-- as many creations have ended as it marked, in any mix of successes and failures, the count of those
-- in creation is what it was before the round, and the pool has grown by the successes.
pub round_balances :
    (now : ℕ) (p : Pool) (ends : List Created)
    → should_retry now p ≡ true
    → length p.available + (p.warming + deficit p) < usize_mod
    → length ends ≡ deficit p
    → let begun = (begin_round now p).1 in
      (length begun.available + begun.warming ≡ max p.target (length p.available + p.warming))
      × ((finish_all ends begun).warming ≡ p.warming)
      × (length (finish_all ends begun).available ≡ length p.available + successes ends)
round_balances now p ends retries fits all =
    let begun = (begin_round now p).1 in
    let counts = begin_round-counts now p retries (omega (arith, fits)) in
    let same : length begun.available ≡ length p.available = ap length counts.0 in
    let ended = finish_all-counts ends begun (omega (arith, counts.1, all)) in
    (
      omega (arith, closes_deficit p (omega (arith, fits)), same, counts.1),
      omega (arith, ended.0, counts.1, all),
      omega (arith, ended.1, same),
    )

-- A pool with the creations that are under way: those that its warming loop has still to run of the
-- ones it marked, one after the other, and those that a taken environment started. `abandoned` counts
-- the marks that the loop left when it stopped.
pub record Watched : Type 0 where
  pub pool : Pool
  pub own : ℕ
  pub spawned : ℕ
  pub abandoned : ℕ
  pub stopped : Bool

-- One round of a loop, up to its creations.
abbrev pub begins : ℕ → Watched → Watched
unfolding begin_round
begins now w =
    let ((d, retry), p) = begin_round now w.pool in
    record w { pool = p; own = if ltb 0 d && retry then d else 0 }

-- `create_uv_env` after a UV environment was taken, and `replenish_conda_env`.
abbrev pub replenished : EnvType → Watched → Watched
replenished uv w = record w { spawned = w.spawned + 1 }
replenished conda w = record w { pool = mark_warming 1 w.pool; spawned = w.spawned + 1 }

-- The Conda loop finds a shutdown before its next creation.
abbrev pub gives_up : Watched → Watched
gives_up w = record w { own = 0; abandoned = w.abandoned + w.own; stopped = true }

-- What can happen to the pool of a kind, while the count does not reach the width of `usize`. The
-- requests and the scan of the cache change the available environments, and the settings the failures.
pub data Step (t : EnvType) : Watched → Watched → Type 0 where
  begin :
      (now : ℕ) (w : Watched)
      → w.own ≡ 0
      → w.stopped ≡ false
      → length w.pool.available + (w.pool.warming + deficit w.pool) < usize_mod
      → Step t w (begins now w)
  own_end :
      (c : Created) (w : Watched)
      → 0 < w.own
      → Step t w (record w { pool = finish_creation c w.pool; own = w.own - 1 })
  give_up : (w : Watched) → t ≡ conda → Step t w (gives_up w)
  replenish : (w : Watched) → w.pool.warming + 1 < usize_mod → Step t w (replenished t w)
  spawned_end :
      (c : Created) (w : Watched)
      → 0 < w.spawned
      → Step t w (record w { pool = finish_creation c w.pool; spawned = w.spawned - 1 })
  request :
      (es : List PoolEntry) (w : Watched)
      → Step t w (record w { pool = record (w.pool) { available = es } })
  reset : (w : Watched) → Step t w (record w { pool = reset_failure_state w.pool })

pub data Run (t : EnvType) : Watched → Watched → Type 0 where
  start : (w : Watched) → Run t w w
  next : (w v u : Watched) → Run t w v → Step t v u → Run t w u

finish-warming : (c : Created) (p : Pool) → (finish_creation c p).warming ≡ p.warming - 1
unfolding finish_creation add warming_failed_with_error
finish-warming (created now env) p = refl
finish-warming (failed now error) p = refl

-- The marks of a pool are its creations under way and those that its loop abandoned.
abbrev pub IsCounted : Watched → Type 0
IsCounted w = w.pool.warming ≡ w.own + w.spawned + w.abandoned

begins-IsCounted :
    (now : ℕ) (w : Watched)
    → w.own ≡ 0
    → length w.pool.available + (w.pool.warming + deficit w.pool) < usize_mod
    → IsCounted w
    → IsCounted (begins now w)
unfolding begin_round mark_warming
begins-IsCounted now w finished fits h = ground arith

conda_step-IsCounted : (w v : Watched) → Step conda w v → IsCounted w → IsCounted v
unfolding mark_warming reset_failure_state
conda_step-IsCounted w _ (begin now _ finished runs fits) h = begins-IsCounted now w finished fits h
conda_step-IsCounted w _ (own_end c _ some_left) h =
    omega (arith, h, some_left, finish-warming c w.pool)
conda_step-IsCounted w _ (give_up _ is_conda) h = omega (arith, h)
conda_step-IsCounted w _ (replenish _ fits) h = ground (arith, h, fits)
conda_step-IsCounted w _ (spawned_end c _ some_left) h =
    omega (arith, h, some_left, finish-warming c w.pool)
conda_step-IsCounted w _ (request es _) h = h
conda_step-IsCounted w _ (reset _) h = h

-- Whatever happens to the Conda pool (rounds of its loop and their creations, replenishments, requests,
-- the scan, settings changes, and a shutdown between two creations), the environments that it counts
-- as in creation are those under way and those that the loop marked and abandoned at the shutdown, if
-- this held at the start.
pub conda-IsCounted : (w v : Watched) → Run conda w v → IsCounted w → IsCounted v
conda-IsCounted w _ (start _) h = h
conda-IsCounted w v (next _ u _ before last) h =
    conda_step-IsCounted u v last (conda-IsCounted w u before h)

-- The marks of the UV pool are at most the creations that its loop has still to run.
abbrev pub IsUncounted : Watched → Type 0
IsUncounted w = w.pool.warming ≤ w.own

begins-IsUncounted :
    (now : ℕ) (w : Watched)
    → w.own ≡ 0
    → length w.pool.available + (w.pool.warming + deficit w.pool) < usize_mod
    → IsUncounted w
    → IsUncounted (begins now w)
unfolding begin_round mark_warming
begins-IsUncounted now w finished fits h = ground arith

uv_step-IsUncounted : (w v : Watched) → Step uv w v → IsUncounted w → IsUncounted v
unfolding reset_failure_state
uv_step-IsUncounted w _ (begin now _ finished runs fits) h =
    begins-IsUncounted now w finished fits h
uv_step-IsUncounted w _ (own_end c _ some_left) h = omega (arith, h, finish-warming c w.pool)
uv_step-IsUncounted w _ (give_up _ is_conda) h = absurd (uv_ne is_conda)
  where
    uv_ne : uv ≡ conda → ⊥
    uv_ne e = ground (arith, e)
uv_step-IsUncounted w _ (replenish _ fits) h = h
uv_step-IsUncounted w _ (spawned_end c _ some_left) h = omega (arith, h, finish-warming c w.pool)
uv_step-IsUncounted w _ (request es _) h = h
uv_step-IsUncounted w _ (reset _) h = h

run-IsUncounted : (w v : Watched) → Run uv w v → IsUncounted w → IsUncounted v
run-IsUncounted w _ (start _) h = h
run-IsUncounted w v (next _ u _ before last) h =
    uv_step-IsUncounted u v last (run-IsUncounted w u before h)

overshoots :
    (now : ℕ) (v : Watched)
    → IsUncounted v
    → v.own ≡ 0
    → 0 < deficit v.pool
    → should_retry now v.pool ≡ true
    → length v.pool.available + (v.pool.warming + deficit v.pool) < usize_mod
    → let full = begins now v in
      length full.pool.available + (full.own + full.spawned) ≡ full.pool.target + v.spawned
unfolding begin_round mark_warming deficit
overshoots now v h finished short retries fits = ground arith

-- The UV loop does not see what a taken environment started. In any state that the UV pool reaches from
-- one without marks beyond its loop's creations, a round that finds a deficit and may retry brings the
-- available environments and the creations under way to the target and as many more as were started
-- for taken environments and still run.
pub uv_overshoots :
    (now : ℕ) (w v : Watched)
    → Run uv w v
    → IsUncounted w
    → v.own ≡ 0
    → 0 < deficit v.pool
    → should_retry now v.pool ≡ true
    → length v.pool.available + (v.pool.warming + deficit v.pool) < usize_mod
    → let full = begins now v in
      length full.pool.available + (full.own + full.spawned) ≡ full.pool.target + v.spawned
uv_overshoots now w v run h finished short retries fits =
    overshoots now v (run-IsUncounted w v run h) finished short retries fits
