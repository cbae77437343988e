-- ===== src/Typosquat/Nearest.antt =====
-- Which popular package a name is confused with.
use mathlib.Core.List.{append_assoc, append-nil}
use runt.Prelude.{
  ℕ, String, ◌≤◌, ◌<◌, true, false, Option, none, some, List, [], ◌∷◌, ◌++◌, ◌≡◌, ◌⊎◌, inl, inr,
  refl, sym, ap, subst, ◌∙◌, arith, ◌==◌, nat_eq, string_eq, ltb, leb, Bool-cases, All,
}
use runt.Typosquat.{
  Names, Best, TyposquatWarning, extract_package_name, normalize_name, is_popular, threshold_for,
  distance_to, is_better, consider, best_match, warning_for, check_typosquat, popular_packages,
}

All-map :
    {A : Type 0} {P Q : A → Type 0} (xs : List A) → ((x : A) → P x → Q x) → All P xs → All Q xs
All-map [] f a = tt
All-map (x ∷ xs) f a = (f x a.0, All-map xs f a.1)

All-append : {A : Type 0} (P : A → Type 0) (xs ys : List A) → All P xs → All P ys → All P (xs ++ ys)
All-append P [] ys a b = b
All-append P (x ∷ xs) ys a b = (a.0, All-append P xs ys a.1 b)

module _ (names : Names) (normalized : String) (threshold : ℕ) where
  abbrev d : String → ℕ
  d popular = distance_to names normalized popular

  -- The first of the packages at the least distance that is not 0 and within the threshold.
  abbrev pub IsNearest : List String → Best → Type 0
  IsNearest ps none = All (λ q. (d q ≡ 0) ⊎ (threshold < d q)) ps
  IsNearest ps (some (p, n)) =
      (before : List String) × (after : List String) × (ps ≡ before ++ p ∷ after)
      × (n ≡ d p)
      × (0 < n)
      × (n ≤ threshold)
      × All (λ q. (d q ≡ 0) ⊎ (n < d q)) before
      × All (λ q. (d q ≡ 0) ⊎ (n ≤ d q)) after

  none-taken :
      (seen : List String) (p : String)
      → IsNearest seen none
      → 0 < d p
      → d p ≤ threshold
      → IsNearest (seen ++ p ∷ []) (some (p, d p))
  none-taken seen p far pos close =
      (seen, [], refl, refl, pos, close, All-map seen (λ q. nearer q) far, tt)
    where
      nearer : (q : String) → (d q ≡ 0) ⊎ (threshold < d q) → (d q ≡ 0) ⊎ (d p < d q)
      nearer q (inl z) = inl z
      nearer q (inr far') = inr (omega (arith, far', close))

  -- A package that is no better is one more behind the nearest.
  kept :
      (seen : List String) (p : String) (best : Best)
      → IsNearest seen best
      → (d p ≡ 0) ⊎ ((threshold < d p) ⊎ (is_better (d p) best ≡ false))
      → IsNearest (seen ++ p ∷ []) best
  kept seen p none far (inl z) = All-append _ seen (p ∷ []) far (inl z, tt)
  kept seen p none far (inr (inl more)) = All-append _ seen (p ∷ []) far (inr more, tt)
  kept seen p none far (inr (inr worse)) = ground arith
  kept seen p (some (q, n)) (before, after, split, at, pos, close, lo, hi) no_better = (
    before,
    after ++ p ∷ [],
    ap (λ l. l ++ p ∷ []) split ∙ append_assoc before (q ∷ after) (p ∷ []),
    at,
    pos,
    close,
    lo,
    All-append (λ x. (d x ≡ 0) ⊎ (n ≤ d x)) after (p ∷ []) hi (not_nearer no_better, tt),
  )
    where
      not_nearer : (d p ≡ 0) ⊎ ((threshold < d p) ⊎ (ltb (d p) n ≡ false)) → (d p ≡ 0) ⊎ (n ≤ d p)
      not_nearer (inl z) = inl z
      not_nearer (inr (inl more)) = inr (omega (arith, more, close))
      not_nearer (inr (inr worse)) = inr (ground (arith, worse))

  some-taken :
      (seen : List String) (p q : String) (n : ℕ)
      → IsNearest seen (some (q, n))
      → 0 < d p
      → d p < n
      → IsNearest (seen ++ p ∷ []) (some (p, d p))
  some-taken seen p q n (before, after, split, at, pos, close, lo, hi) positive nearer = (
    seen,
    [],
    refl,
    refl,
    positive,
    omega (arith, nearer, close),
    subst (All (λ x. (d x ≡ 0) ⊎ (d p < d x))) (sym split) (
        All-append _ before (q ∷ after) (All-map before further lo)
          (inr (omega (arith, nearer, at)), All-map after further' hi)),
    tt,
  )
    where
      further : (x : String) → (d x ≡ 0) ⊎ (n < d x) → (d x ≡ 0) ⊎ (d p < d x)
      further x (inl z) = inl z
      further x (inr far) = inr (omega (arith, far, nearer))

      further' : (x : String) → (d x ≡ 0) ⊎ (n ≤ d x) → (d x ≡ 0) ⊎ (d p < d x)
      further' x (inl z) = inl z
      further' x (inr far) = inr (omega (arith, far, nearer))

  taken :
      (seen : List String) (p : String) (best : Best)
      → IsNearest seen best
      → 0 < d p
      → d p ≤ threshold
      → is_better (d p) best ≡ true
      → IsNearest (seen ++ p ∷ []) (some (p, d p))
  taken seen p none v pos close better = none-taken seen p v pos close
  taken seen p (some (q, n)) v pos close better =
      some-taken seen p q n v pos (ground (arith, better))

  consider-IsNearest :
      (seen : List String) (p : String) (best : Best)
      → IsNearest seen best
      → IsNearest (seen ++ p ∷ []) (consider names normalized threshold p best)
  unfolding consider
  consider-IsNearest seen p best v = elim (Bool-cases (d p == 0)) [
    | inl zero_away ↦
        rw (consider, zero_away) (kept seen p best v (inl (ground (arith, zero_away))))
    | inr away ↦ elim (Bool-cases (leb (d p) threshold)) [
      | inr far ↦ rw (consider, away, far) (kept seen p best v (inr (inl (ground (arith, far)))))
      | inl close ↦ elim (Bool-cases (is_better (d p) best)) [
        | inr worse ↦ rw (consider, away, close, worse) (kept seen p best v (inr (inr worse)))
        | inl better ↦
            rw (consider, away, close, better)
              (taken seen p best v (ground (arith, away)) (ground (arith, close)) better)
      ]
    ]
  ]

  best_match-IsNearest :
      (ps seen : List String) (best : Best)
      → IsNearest seen best
      → IsNearest (seen ++ ps) (best_match names normalized threshold ps best)
  unfolding best_match
  best_match-IsNearest [] seen best v = subst (λ l. IsNearest l best) (sym (append-nil seen)) v
  best_match-IsNearest (p ∷ ps) seen best v =
      subst (λ l. IsNearest l (best_match names normalized threshold (p ∷ ps) best))
        (append_assoc seen (p ∷ []) ps)
        (best_match-IsNearest ps (seen ++ p ∷ []) (consider names normalized threshold p best)
          (consider-IsNearest seen p best v))

module _ (names : Names) where
  none_popular :
      (normalized : String) (ps : List String)
      → is_popular names normalized ps ≡ false
      → All (λ q. 0 < distance_to names normalized q) ps
  unfolding is_popular
  none_popular normalized [] h = tt
  none_popular normalized (p ∷ ps) h = (
    ground (
      arith,
      h,
      names.levenshtein_zero normalized (normalize_name names p),
      string_eq.same_iff (normalize_name names p) normalized,
    ),
    none_popular normalized ps (ground (arith, h)),
  )

  abbrev pub Verdict : String → Option TyposquatWarning → Type 0
  Verdict package_ none =
      let normalized = normalize_name names (extract_package_name names package_) in
      (is_popular names normalized popular_packages ≡ true)
      ⊎ (All (λ q. 0 < distance_to names normalized q) popular_packages
          × IsNearest names normalized (threshold_for names normalized) popular_packages none)
  Verdict package_ (some w) =
      let normalized = normalize_name names (extract_package_name names package_) in
      (w.package_ ≡ extract_package_name names package_)
      × (is_popular names normalized popular_packages ≡ false)
      × All (λ q. 0 < distance_to names normalized q) popular_packages
      × IsNearest names normalized (threshold_for names normalized) popular_packages
          (some (w.similar_to, w.distance))

  warned :
      (package_ : String) (best : Best)
      → let normalized = normalize_name names (extract_package_name names package_) in
        is_popular names normalized popular_packages ≡ false
        → IsNearest names normalized (threshold_for names normalized) popular_packages best
        → Verdict package_ (warning_for (extract_package_name names package_) best)
  warned package_ none fresh v = inr (none_popular _ popular_packages fresh, v)
  warned package_ (some (p, n)) fresh v = (refl, fresh, none_popular _ popular_packages fresh, v)

  -- A name is warned about exactly if it is no popular name but within its threshold of one; the
  -- warning then names the first of the popular packages at the least distance, with that distance,
  -- which is not 0. Without a warning the name is popular or farther than the threshold from all.
  pub check_typosquat-Verdict :
      (package_ : String) → Verdict package_ (check_typosquat names package_)
  unfolding check_typosquat
  check_typosquat-Verdict package_ =
      let normalized = normalize_name names (extract_package_name names package_) in
      elim (Bool-cases (is_popular names normalized popular_packages)) [
        | inl popular ↦ rw (check_typosquat, popular) (inl popular)
        | inr fresh ↦
            rw (check_typosquat, fresh)
              (warned package_ _ fresh (
                best_match-IsNearest names normalized (threshold_for names normalized)
                  popular_packages [] none tt))
      ]
