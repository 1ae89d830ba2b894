-- ===== src/Validator/Complete.antt =====
-- pkg/addon/addon_validator.go, `resolveDependencies`: what it accepts.
use addon_manager.Common.{
  ℕ, zero, suc, String, ◌≡◌, refl, subst, ◌∙◌, ◌≢◌, ◌↔◌, ◌⊎◌, inl, inr, false, none, some, [], ◌∷◌,
  arith, ◌==◌, eq_iff, Bool-cases, Option-cases, Result, ok, All, trim_space, Assoc, lookup, insert,
  remove, lookup-insert,
}
use addon_manager.VersionCache.{Version, Semver, Cache, get_version}
use addon_manager.Validator.Dependencies.{version_key, resolve_each, resolve}
use addon_manager.Validator.Soundness.{ResolvesTo, Resolves, resolve_sound}
use addon_manager.Validator.Visited.{SameKeys, Restores, resolve-Restores}

-- The dependency stands in the map.
abbrev pub Depends : String × String → Assoc String → Type 0
Depends d [] = ⊥
Depends d (d' ∷ deps) = (d' ≡ d) ⊎ Depends d deps

Depends-All :
    (P : String × String → Type 0) (d : String × String) (deps : Assoc String)
    → Depends d deps
    → All P deps
    → P d
Depends-All P d [] h all = elim h [ ]
Depends-All P d (d' ∷ deps) (inl same) all = subst P same all.0
Depends-All P d (d' ∷ deps) (inr h) all = Depends-All P d deps h all.1

All-Depends :
    (P : String × String → Type 0) (deps : Assoc String)
    → ((d : String × String) → Depends d deps → P d)
    → All P deps
All-Depends P [] h = tt
All-Depends P (d ∷ deps) h = (h d (inl refl), All-Depends P deps (λ d' h'. h d' (inr h')))

module _ {V : Type 0} (semver : Semver V) (cache : Cache) where
  -- The cache resolves a dependency of the version to another one.
  abbrev pub Child : Version → Version → Type 0
  Child u v =
      (d : String × String) × Depends d u.pkg_deps
      × (get_version semver (trim_space d.0) (trim_space d.1) cache ≡ some v)

  -- A dependency, or a dependency of one, and so on.
  pub data Below : Version → Version → Type 0 where
    child : {u v : Version} → Child u v → Below u v
    under : {u c v : Version} → Child u c → Below c v → Below u v

  Below-Child : (u v w : Version) → Below u v → Child v w → Below u w
  Below-Child u v w (child first) last = under first (child last)
  Below-Child u v w (under {c = c} first rest) last = under first (Below-Child c v w rest last)

  Child-deps : (u u' v : Version) → u.pkg_deps ≡ u'.pkg_deps → Child u v → Child u' v
  Child-deps u u' v same (d, there, found) = (d, subst (Depends d) same there, found)

  Child-Resolves :
      (depth : ℕ) (u v : Version)
      → Resolves semver cache (suc depth) u
      → Child u v
      → Resolves semver cache depth v
  Child-Resolves depth u v tree (d, there, found) =
      let (apart, (w, found', sub)) =
        Depends-All (ResolvesTo semver cache (Resolves semver cache depth) u) d u.pkg_deps there
          tree in
      let same : w ≡ v = cc in subst (Resolves semver cache depth) same sub

  -- A version with a complete tree is not found again below itself.
  Resolves-acyclic :
      (depth : ℕ) (u v : Version)
      → Resolves semver cache depth u
      → Below u v
      → u.pkg_deps ≢ v.pkg_deps
  Resolves-acyclic zero u v tree below same = elim tree [ ]
  Resolves-acyclic (suc depth) u v tree (child first) same =
      Resolves-acyclic depth v v (Child-Resolves depth u v tree first)
        (child (Child-deps u v v same first)) refl
  Resolves-acyclic (suc depth) u v tree (under {c = c} first rest) same =
      Resolves-acyclic depth c c (Child-Resolves depth u c tree first)
        (Below-Child c v c rest (Child-deps u v c same first)) refl

  -- One round of the loop can be taken, from any visited set with the keys of this one.
  abbrev Passes :
      (Version → Assoc Version → Result (Assoc Version))
      → Version
      → Assoc Version
      → String × String
      → Type 0
  Passes visit n x (name, version) =
      (trim_space name ≢ n.pkg_name)
      × ((v : Version) × (get_version semver (trim_space name) (trim_space version) cache ≡ some v)
          × (lookup (version_key v) x ≡ none)
          × ((x' : Assoc Version) → SameKeys x' x → (y : Assoc Version) × (visit v x' ≡ ok y)))

  resolve_each-Passes :
      (visit : Version → Assoc Version → Result (Assoc Version))
      → Restores semver cache visit
      → (n : Version) (x x' : Assoc Version) (deps : Assoc String) → SameKeys x' x
      → All (Passes visit n x) deps
      → (y : Assoc Version) × (resolve_each semver cache visit n x' deps ≡ ok y)
  unfolding resolve_each
  resolve_each-Passes visit restores n x x' [] same all = (x', refl)
  resolve_each-Passes visit restores n x x' ((name, version) ∷ deps) same
        ((apart, (v, found, fresh, runs)), all) =
      let (y, step) = runs x' same in
      let fresh' : lookup (version_key v) x' ≡ none = same (version_key v) ∙ fresh in
      let (z, rest) =
        resolve_each-Passes visit restores n x y deps (λ k. restores v x' y fresh' step k ∙ same k)
          all in
      let own : (trim_space name == n.pkg_name) ≡ false =
        ground (arith, eq_iff (trim_space name) n.pkg_name, apart) in
      (z, rw (own, found, fresh', step, resolve_each) rest)

  -- The version that the walk starts from, or one of those below it.
  abbrev pub IsKnown : Version → Version → Type 0
  IsKnown start v = (v ≡ start) ⊎ Below start v

  Child-IsKnown : (start n v : Version) → IsKnown start n → Child n v → IsKnown start v
  Child-IsKnown start n v (inl same) next =
      inr (child (subst (λ (x : Version). Child x v) same next))
  Child-IsKnown start n v (inr below) next = inr (Below-Child start n v below next)

  -- Among these, the key `name:version`, by which the visited set knows a version, determines its
  -- dependencies.
  abbrev pub KeysTellDependencies : Version → Type 0
  KeysTellDependencies start =
      (u v : Version)
      → IsKnown start u
      → IsKnown start v
      → version_key u ≡ version_key v
      → u.pkg_deps ≡ v.pkg_deps

  -- All visited keys are those of versions above `n`, which have complete trees.
  Ancestors : Version → Assoc Version → Version → Type 0
  Ancestors start x n =
      (k : String)
      → lookup k x ≢ none
      → (u : Version) × (version_key u ≡ k)
        × IsKnown start u
        × ((depth : ℕ) × Resolves semver cache depth u)
        × Below u n

  Ancestors-fresh :
      (start v : Version) (x : Assoc Version)
      → KeysTellDependencies start
      → IsKnown start v
      → Ancestors start x v
      → lookup (version_key v) x ≡ none
  unfolding Ancestors
  Ancestors-fresh start v x tell known above = elim (Option-cases (lookup (version_key v) x)) [
    | inl fresh ↦ fresh
    | inr (w, seen) ↦
        let (u, key, known', (depth, tree), below) = above (version_key v) (λ e. ground arith) in
        absurd (Resolves-acyclic depth u v tree below (tell u v known' known key))
  ]

  Ancestors-Child :
      (start n v : Version) (x x' : Assoc Version) (depth : ℕ)
      → SameKeys x' (insert (version_key n) n x)
      → IsKnown start n
      → Resolves semver cache depth n
      → Child n v
      → Ancestors start x n
      → Ancestors start x' v
  unfolding Ancestors
  Ancestors-Child start n v x x' depth same known tree next above k seen =
      elim (Bool-cases (version_key n == k)) [
        | inl here ↦ (n, (eq_iff (version_key n) k).0 here, known, (depth, tree), child next)
        | inr apart ↦
            let (u, key, known', tree', below) =
              above k (λ e. seen (same k ∙ lookup-insert (version_key n) k n x ∙ rw apart e)) in
            (u, key, known', tree', Below-Child u n v below next)
      ]

  resolve_complete :
      (start : Version) (depth : ℕ) (n : Version) (x : Assoc Version)
      → KeysTellDependencies start
      → IsKnown start n
      → Resolves semver cache depth n
      → Ancestors start x n
      → (y : Assoc Version) × (resolve semver cache depth n x ≡ ok y)
  unfolding resolve
  resolve_complete start zero n x tell known tree above = elim tree [ ]
  resolve_complete start (suc depth) n x tell known tree above =
      let inner = insert (version_key n) n x in
      let rounds : All (Passes (resolve semver cache depth) n inner) n.pkg_deps =
        All-Depends (Passes (resolve semver cache depth) n inner) n.pkg_deps λ d there.
          let (apart, (v, found, sub)) =
            Depends-All (ResolvesTo semver cache (Resolves semver cache depth) n) d n.pkg_deps there
              tree in
          let known' : IsKnown start v = Child-IsKnown start n v known (d, there, found) in
          let above' = λ (x' : Assoc Version) (same : SameKeys x' inner).
            Ancestors-Child start n v x x' (suc depth) same known tree (d, there, found) above in
          (
            apart,
            (
              v,
              found,
              Ancestors-fresh start v inner tell known' (above' inner (λ k. refl)),
              λ x' same. resolve_complete start depth v x' tell known' sub (above' x' same),
            ),
          ) in
      let (y, done) =
        resolve_each-Passes (resolve semver cache depth) (resolve-Restores semver cache depth) n
          inner inner n.pkg_deps (λ k. refl) rounds in
      (remove (version_key n) y, rw done refl)

  -- If keys tell dependencies below a version, `resolveDependencies` accepts it, from an empty visited set,
  -- exactly when its dependencies form a complete tree that is not deeper than the bound.
  pub resolve_iff :
      (depth : ℕ) (n : Version)
      → KeysTellDependencies n
      → ((visited : Assoc Version) × (resolve semver cache depth n [] ≡ ok visited))
        ↔ Resolves semver cache depth n
  unfolding Ancestors lookup
  resolve_iff depth n tell = (
    (λ r. resolve_sound semver cache depth n [] r.0 r.1),
    (λ tree. resolve_complete n depth n [] tell (inl refl) tree (λ k seen. absurd (seen refl))),
  )
