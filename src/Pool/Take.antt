-- ===== src/Pool/Take.antt =====
-- Which environment `take` of daemon.rs hands out, and what it leaves.
use runt.Prelude.{
  ℕ, String, Bool, true, false, Option, none, some, List, [], ◌∷◌, ◌++◌, ◌≡◌, refl, ap, arith, All,
  retain, inl, inr, Bool-cases, ◌<◌, ◌-◌, ltb→lt, retain_split, subst,
}
use runt.Pool.{
  Pool, PoolEntry, PooledEnv, take, pop_usable, prune_stale, is_fresh, is_usable, from_secs,
}

-- The unusable entries before the one that is handed out, if any.
abbrev pub Popped : (String → Bool) → List PoolEntry → Option PooledEnv × List PoolEntry → Type 0
Popped exists es (none, rest) = (rest ≡ []) × All (λ e. is_usable exists e ≡ false) es
Popped exists es (some env, rest) =
    (skipped : List PoolEntry) × (e : PoolEntry) × (es ≡ skipped ++ e ∷ rest)
    × (e.env ≡ env)
    × (is_usable exists e ≡ true)
    × All (λ e. is_usable exists e ≡ false) skipped

Popped-cons :
    (exists : String → Bool) (e : PoolEntry) (es : List PoolEntry)
    (r : Option PooledEnv × List PoolEntry)
    → is_usable exists e ≡ false
    → Popped exists es r
    → Popped exists (e ∷ es) r
Popped-cons exists e es (none, rest) h p = (p.0, (h, p.1))
Popped-cons exists e es (some env, rest) h p = (e ∷ p.0, p.1, ap (◌∷◌ e) p.2, p.3, p.4, (h, p.5))

pop_usable-Popped :
    (exists : String → Bool) (es : List PoolEntry) → Popped exists es (pop_usable exists es)
unfolding pop_usable
pop_usable-Popped exists [] = (refl, tt)
pop_usable-Popped exists (e ∷ es) = elim (Bool-cases (is_usable exists e)) [
  | inl good ↦ rw good ([], e, refl, refl, good, tt)
  | inr bad ↦ rw bad (Popped-cons exists e es _ bad (pop_usable-Popped exists es))
]

-- `take` hands out the oldest entry that is within the maximum age and whose two paths exist; it
-- drops the stale entries and the unusable ones before it, keeps the fresh ones behind it in order,
-- and fails only if every fresh entry is unusable, which leaves the pool empty.
pub take-Popped :
    (now : ℕ) (exists : String → Bool) (p : Pool)
    → Popped exists
        (retain (is_fresh p.max_age_secs now) p.available)
        ((take now exists p).0, (take now exists p).1.available)
unfolding take prune_stale
take-Popped now exists p =
    pop_usable-Popped exists (retain (is_fresh p.max_age_secs now) p.available)

usable_paths :
    (exists : String → Bool) (e : PoolEntry)
    → is_usable exists e ≡ true
    → (exists e.env.venv_path ≡ true) × (exists e.env.python_path ≡ true)
unfolding is_usable
usable_paths exists e h = (ground arith, ground arith)

-- An environment that `take` hands out stood in the pool, is younger than the maximum age, and both
-- its paths exist.
pub take_sound :
    (now : ℕ) (exists : String → Bool) (p : Pool) (env : PooledEnv)
    → (take now exists p).0 ≡ some env
    → (before : List PoolEntry) × (e : PoolEntry) × (after : List PoolEntry) × (p.available
        ≡ before ++ e ∷ after)
      × (e.env ≡ env)
      × (now - e.created_at < from_secs p.max_age_secs)
      × (exists env.venv_path ≡ true)
      × (exists env.python_path ≡ true)
unfolding is_fresh is_usable
take_sound now exists p env h =
    let found =
      subst
        (λ o.
          Popped exists (retain (is_fresh p.max_age_secs now) p.available)
            (o, (take now exists p).1.available))
        h (take-Popped now exists p) in
    let kept = retain_split (is_fresh p.max_age_secs now) p.available found.0 found.1 _ found.2 in
    let paths =
      subst (λ v. (exists v.venv_path ≡ true) × (exists v.python_path ≡ true)) found.3
        (usable_paths exists found.1 found.4) in
    (kept.0, found.1, kept.1, kept.2, found.3, ltb→lt _ _ kept.3, paths.0, paths.1)
