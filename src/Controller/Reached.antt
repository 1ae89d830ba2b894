-- ===== src/Controller/Reached.antt =====
-- controllers/: what holds of the version cache and of the mutexes in every state of a run.
use addon_manager.Common.{
  ℕ, ◌<◌, String, ◌≡◌, sym, ap, subst, ◌∙◌, ◌⊎◌, inl, inr, Bool, none, some, List, [], ◌∷◌, arith,
  eq_iff, Option-cases, lookup, lookup-insert, lookup-remove,
}
use addon_manager.Cluster.{Memory, Sys, memory_of}
use addon_manager.Controller.Reach.{Act, act, acts, caches, locks, unlocks}
use addon_manager.Controller.System.{Steps, Steps-Moves}
use addon_manager.Controller.Types.{Env}
use addon_manager.VersionCache.{Version, get_version}
use addon_manager.VersionCache.Keyed.{IsKeyed, Satisfies, calls, calls-IsKeyed, get_version_sound}

act-IsKeyed : (x : Act) (m : Memory) → IsKeyed m.0 → IsKeyed (act x m).0
unfolding act calls
act-IsKeyed (caches x) (c, t, n) h = calls-IsKeyed (x ∷ []) c h
act-IsKeyed (locks name) (c, t, n) h = elim (Option-cases (lookup name t)) [
  | inl new ↦ rw (new, act) h
  | inr (m, old) ↦ rw (old, act) h
]
act-IsKeyed (unlocks name) (c, t, n) h = h

acts-IsKeyed : (xs : List Act) (m : Memory) → IsKeyed m.0 → IsKeyed (acts xs m).0
unfolding acts
acts-IsKeyed [] m h = h
acts-IsKeyed (x ∷ xs) m h = acts-IsKeyed xs (act x m) (act-IsKeyed x m h)

-- The mutexes of a memory: each was made before the next one, and no two names have the same.
abbrev pub IsSeparate : Memory → Type 0
IsSeparate m =
    ((p : String) (k : ℕ) → lookup p m.1 ≡ some k → k < m.2)
    × ((p q : String) (k : ℕ) → lookup p m.1 ≡ some k → lookup q m.1 ≡ some k → p ≡ q)

act-IsSeparate : (x : Act) (m : Memory) → IsSeparate m → IsSeparate (act x m)
unfolding act
act-IsSeparate (caches x) (c, t, n) h = h
act-IsSeparate (locks name) (c, t, n) (below, apart) = elim (Option-cases (lookup name t)) [
  | inr (m, old) ↦ rw (old, act) (below, apart)
  | inl new ↦
      rw (new, act)
        (
          λ p k e. ground (arith, lookup-insert name p n t, below p k, eq_iff name p),
          λ p q k e f. ground (
            arith,
            lookup-insert name p n t,
            lookup-insert name q n t,
            below p k,
            below q k,
            apart p q k,
            eq_iff name p,
            eq_iff name q,
          ),
        )
]
act-IsSeparate (unlocks name) (c, t, n) (below, apart) = (
  λ p k e. ground (arith, lookup-remove name p t, below p k, eq_iff name p),
  λ p q k e f. ground (
    arith,
    lookup-remove name p t,
    lookup-remove name q t,
    apart p q k,
    eq_iff name p,
    eq_iff name q,
  ),
)

acts-IsSeparate : (xs : List Act) (m : Memory) → IsSeparate m → IsSeparate (acts xs m)
unfolding acts
acts-IsSeparate [] m h = h
acts-IsSeparate (x ∷ xs) m h = acts-IsSeparate xs (act x m) (act-IsSeparate x m h)

module _ {W V F : Type 0} (env : Env W V F) where
  -- In every state that the two controllers reach from an empty version cache, in whatever order
  -- their reconciles, each as one step and all with one clock, and the changes of the cluster follow
  -- each other, every version stands under its own package
  -- name and version text; so what GetVersion returns there is a version of the package asked for,
  -- with the text asked for or one that satisfies it as a constraint.
  pub reached_get_version :
      (s t : Sys W) (p k : String) (v : Version)
      → Steps env s t
      → s.cache ≡ []
      → get_version env.semver p k t.cache ≡ some v
      → IsKeyed t.cache
        × (v.pkg_name ≡ p)
        × ((v.pkg_version ≡ k)
            ⊎ ((check : V → Bool) × (env.semver.new_constraint k ≡ some check)
                × Satisfies env.semver check v.pkg_version))
  reached_get_version s t p k v run empty got =
      let (xs, moved) = Steps-Moves env run in
      let before : IsKeyed s.cache = subst IsKeyed (sym empty) tt in
      let keyed : IsKeyed t.cache =
        subst (λ (m : Memory). IsKeyed m.0) (sym moved) (acts-IsKeyed xs (memory_of s) before) in
      let (named, fits) = get_version_sound env.semver t.cache p k v keyed got in
      (keyed, named, fits)

  -- In every state that the two controllers reach from an empty map of mutexes, two names of addons
  -- have the same mutex only if they are the same: a writer never waits for a writer of an addon of
  -- another name.
  pub reached_mutexes_apart :
      (s t : Sys W) (p q : String) (k : ℕ)
      → Steps env s t
      → s.status_map ≡ []
      → lookup p t.status_map ≡ some k
      → lookup q t.status_map ≡ some k
      → p ≡ q
  unfolding lookup
  reached_mutexes_apart s t p q k run empty e f =
      let (xs, moved) = Steps-Moves env run in
      let before : IsSeparate (memory_of s) = (
        λ r m there. let no : none ≡ some m = ap (lookup r) (sym empty) ∙ there in cc,
        λ r u m there too. let no : none ≡ some m = ap (lookup r) (sym empty) ∙ there in cc,
      ) in
      let after : IsSeparate (memory_of t) =
        subst IsSeparate (sym moved) (acts-IsSeparate xs (memory_of s) before) in
      after.1 p q k e f
