-- ===== src/Validator/Soundness.antt =====
-- pkg/addon/addon_validator.go, `resolveDependencies`: what a successful run has established.
use addon_manager.Common.{
  ℕ, zero, suc, String, ◌≡◌, ◌≢◌, inl, inr, none, some, [], ◌∷◌, arith, ◌==◌, eq_iff, Bool-cases,
  Option-cases, Result, ok, >>=-eq-ok, All, trim_space, Assoc, lookup,
}
use addon_manager.VersionCache.{Version, Semver, Cache, get_version}
use addon_manager.Validator.Dependencies.{version_key, resolve_each, resolve}

module _ {V : Type 0} (semver : Semver V) (cache : Cache) where
  -- The dependency is no version of the package itself, and the cache resolves it to a version
  -- for which `P` holds.
  abbrev pub ResolvesTo : (Version → Type 0) → Version → String × String → Type 0
  ResolvesTo P n (name, version) =
      (trim_space name ≢ n.pkg_name)
      × ((v : Version) × (get_version semver (trim_space name) (trim_space version) cache ≡ some v)
          × P v)

  -- The tree of dependencies below a version is complete, and no path in it is longer than the
  -- bound; so no version is reached from itself.
  abbrev pub Resolves : ℕ → Version → Type 0
  Resolves zero n = ⊥
  Resolves (suc depth) n = All (ResolvesTo (Resolves depth) n) n.pkg_deps

  -- One round of the loop that does not fail.
  pub resolve_each-cons :
      (visit : Version → Assoc Version → Result (Assoc Version)) (n : Version)
      (visited w : Assoc Version) (name version : String) (deps : Assoc String)
      → resolve_each semver cache visit n visited ((name, version) ∷ deps) ≡ ok w
      → (v : Version) × (visited' : Assoc Version) × (trim_space name ≢ n.pkg_name)
        × (get_version semver (trim_space name) (trim_space version) cache ≡ some v)
        × (lookup (version_key v) visited ≡ none)
        × (visit v visited ≡ ok visited')
        × (resolve_each semver cache visit n visited' deps ≡ ok w)
  unfolding resolve_each
  resolve_each-cons visit n visited w name version deps e =
      elim (Bool-cases (trim_space name == n.pkg_name)) [
        | inl own ↦ absurd (ground arith)
        | inr apart ↦
            elim (Option-cases (get_version semver (trim_space name) (trim_space version) cache)) [
              | inl missing ↦ absurd (ground arith)
              | inr (v, found) ↦ elim (Option-cases (lookup (version_key v) visited)) [
                | inr (u, seen) ↦ absurd (ground arith)
                | inl fresh ↦
                    let (visited', step, rest) =
                      >>=-eq-ok (visit v visited) (λ x. resolve_each semver cache visit n x deps)
                        (rw (apart, found, fresh, resolve_each) at e) in
                    (
                      v,
                      visited',
                      (λ same. ground (arith, eq_iff (trim_space name) n.pkg_name)),
                      found,
                      fresh,
                      step,
                      rest,
                    )
              ]
            ]
      ]

  resolve_each_sound :
      (P : Version → Type 0) (visit : Version → Assoc Version → Result (Assoc Version))
      → ((v : Version) (x y : Assoc Version) → visit v x ≡ ok y → P v)
      → (n : Version) (visited w : Assoc Version) (deps : Assoc String)
      → resolve_each semver cache visit n visited deps ≡ ok w
      → All (ResolvesTo P n) deps
  resolve_each_sound P visit each n visited w [] e = tt
  resolve_each_sound P visit each n visited w ((name, version) ∷ deps) e =
      let (v, visited', apart, found, fresh, step, rest) =
        resolve_each-cons visit n visited w name version deps e in
      (
        (apart, (v, found, each v visited visited' step)),
        resolve_each_sound P visit each n visited' w deps rest,
      )

  -- A version that `resolveDependencies` accepts has a complete tree of dependencies with no cycle.
  pub resolve_sound :
      (depth : ℕ) (n : Version) (visited w : Assoc Version)
      → resolve semver cache depth n visited ≡ ok w
      → Resolves depth n
  unfolding resolve
  resolve_sound zero n visited w e = cc
  resolve_sound (suc depth) n visited w e =
      let (visited', done, _) = >>=-eq-ok _ _ e in
      resolve_each_sound (Resolves depth) (resolve semver cache depth)
        (λ v x y. resolve_sound depth v x y) n _ visited' n.pkg_deps done
