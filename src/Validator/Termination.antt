-- ===== src/Validator/Termination.antt =====
-- pkg/addon/addon_validator.go, `resolveDependencies`: when the depth guard can fire.
use addon_manager.Common.{
  ℕ, zero, suc, ◌≤◌, ◌<◌, String, ◌≡◌, ◌≢◌, ◌⊎◌, inl, inr, none, some, [], ◌∷◌, arith, ◌==◌,
  Bool-cases, Option-cases, Result, ok, panic, >>=-eq-panic, length, trim_space, Assoc, lookup,
  insert, remove,
}
use addon_manager.VersionCache.{Version, Semver, Cache, get_version}
use addon_manager.Validator.Dependencies.{version_key, resolve_each, resolve}
use addon_manager.Validator.Visited.{
  Has, cached_keys, free, free-le-length, free-SameKeys, free-insert-lt, get_version-Has, Restores,
  resolve-Restores,
}

module _ {V : Type 0} (semver : Semver V) (cache : Cache) where
  -- A round that panics does so in the recursive call, or in a later round.
  resolve_each-eq-panic :
      (visit : Version → Assoc Version → Result (Assoc Version)) (n : Version)
      (visited : Assoc Version) (name version : String) (deps : Assoc String) {s : String}
      → resolve_each semver cache visit n visited ((name, version) ∷ deps) ≡ panic s
      → (v : Version) × (get_version semver (trim_space name) (trim_space version) cache ≡ some v)
        × (lookup (version_key v) visited ≡ none)
        × ((visit v visited ≡ panic s)
            ⊎ ((x : Assoc Version) × (visit v visited ≡ ok x)
                × (resolve_each semver cache visit n x deps ≡ panic s)))
  unfolding resolve_each
  resolve_each-eq-panic visit n visited name version deps e =
      elim (Bool-cases (trim_space name == n.pkg_name)) [
        | inl own ↦ absurd (ground arith)
        | inr apart ↦
            elim (Option-cases (get_version semver (trim_space name) (trim_space version) cache)) [
              | inl missing ↦ absurd (ground arith)
              | inr (v, found) ↦ elim (Option-cases (lookup (version_key v) visited)) [
                | inr (u, seen) ↦ absurd (ground arith)
                | inl fresh ↦ (
                  v,
                  found,
                  fresh,
                  >>=-eq-panic (visit v visited) (λ x. resolve_each semver cache visit n x deps)
                      (rw (apart, found, fresh, resolve_each) at e),
                )
              ]
            ]
      ]

  -- A call on a cached version that is not visited does not panic, with at most `room` keys free.
  abbrev NoPanic : ℕ → (Version → Assoc Version → Result (Assoc Version)) → Type 0
  NoPanic room visit =
      (v : Version) (x : Assoc Version) (s : String)
      → Has (version_key v) (cached_keys cache)
      → lookup (version_key v) x ≡ none
      → free (cached_keys cache) x ≤ room
      → visit v x ≢ panic s

  resolve_each-ne-panic :
      (room : ℕ) (visit : Version → Assoc Version → Result (Assoc Version))
      → NoPanic room visit
      → Restores semver cache visit
      → (n : Version) (x : Assoc Version) (deps : Assoc String) (s : String)
      → free (cached_keys cache) x ≤ room
      → resolve_each semver cache visit n x deps ≢ panic s
  unfolding resolve_each
  resolve_each-ne-panic room visit safe restores n x [] s h e = cc
  resolve_each-ne-panic room visit safe restores n x ((name, version) ∷ deps) s h e =
      let (v, found, fresh, which) = resolve_each-eq-panic visit n x name version deps e in
      elim which [
        | inl now ↦
            safe v x s (get_version-Has semver (trim_space name) (trim_space version) cache v found)
              fresh h now
        | inr (y, step, later) ↦
            resolve_each-ne-panic room visit safe restores n y deps s
              (rw (free-SameKeys (cached_keys cache) y x (restores v x y fresh step)) h) later
      ]

  resolve-NoPanic : (depth : ℕ) → NoPanic depth (resolve semver cache depth)
  unfolding resolve
  resolve-NoPanic zero n x s cached fresh h e =
      absurd (omega (arith, free-insert-lt (version_key n) n (cached_keys cache) x cached fresh))
  resolve-NoPanic (suc depth) n x s cached fresh h e =
      let key = version_key n in
      elim (>>=-eq-panic
        (resolve_each semver cache (resolve semver cache depth) n (insert key n x) n.pkg_deps)
        (λ z. ok (remove key z)) e) [
          | inr (y, _, last) ↦ cc
          | inl now ↦
              resolve_each-ne-panic depth (resolve semver cache depth) (resolve-NoPanic depth)
                (resolve-Restores semver cache depth) n (insert key n x) n.pkg_deps s
                (omega (arith, free-insert-lt key n (cached_keys cache) x cached fresh)) now
        ]

  -- With fewer cached versions than the depth bound, `resolveDependencies` never panics on a first
  -- call, whatever the dependencies are: cycles and long chains are reported or accepted before.
  pub resolve-ne-panic :
      (depth : ℕ) (n : Version) (s : String)
      → length (cached_keys cache) < depth
      → resolve semver cache depth n [] ≢ panic s
  unfolding resolve
  resolve-ne-panic zero n s h e = absurd (omega arith)
  resolve-ne-panic (suc depth) n s h e =
      let key = version_key n in
      let first : Assoc Version = insert key n [] in
      elim (>>=-eq-panic (resolve_each semver cache (resolve semver cache depth) n first n.pkg_deps)
        (λ z. ok (remove key z)) e) [
          | inr (y, _, last) ↦ cc
          | inl now ↦
              resolve_each-ne-panic depth (resolve semver cache depth) (resolve-NoPanic depth)
                (resolve-Restores semver cache depth) n first n.pkg_deps s
                (omega (arith, free-le-length (cached_keys cache) first)) now
        ]
