-- ===== src/Validator/Installed.antt =====
-- pkg/addon/addon_validator.go, `ValidateDependencies`: what is checked, and what its errors say.
use addon_manager.Common.{
  String, ◌≡◌, refl, ◌≢◌, ◌↔◌, ◌⊎◌, inl, inr, true, some, [], ◌∷◌, ◌++◌, arith, ◌==◌, eq_iff,
  Bool-cases, Option-cases, ok, >>=-eq-ok, All, trim_space, Assoc,
}
use addon_manager.Api.Phase.{succeeded}
use addon_manager.VersionCache.{Version, Semver, Cache, get_versions}
use addon_manager.Validator.Dependencies.{any_succeeded, require_any, validate_dependencies}

-- The dependency asks for any version.
abbrev pub IsWild : String × String → Type 0
IsWild (name, version) = trim_space version ≡ "*"

-- Some version among these was installed.
abbrev pub SomeSucceeded : Assoc Version → Type 0
SomeSucceeded [] = ⊥
SomeSucceeded ((k, v) ∷ m) = (v.pkg_phase ≡ succeeded) ⊎ SomeSucceeded m

any_succeeded_iff : (m : Assoc Version) → (any_succeeded m ≡ true) ↔ SomeSucceeded m
unfolding any_succeeded
any_succeeded_iff [] = ((λ h. cc), (λ h. elim h [ ]))
any_succeeded_iff ((k, v) ∷ m) = ground (arith, any_succeeded_iff m)

module _ {V : Type 0} (semver : Semver V) (cache : Cache) where
  -- The package has an installed version.
  abbrev pub HasSucceeded : String → Type 0
  HasSucceeded p = (m : Assoc Version) × (get_versions p cache ≡ some m) × SomeSucceeded m

  pub require_any_iff : (p : String) → (require_any semver cache p ≡ ok tt) ↔ HasSucceeded p
  unfolding require_any
  require_any_iff p = elim (Option-cases (get_versions p cache)) [
    | inl missing ↦ ((λ e. ground arith), (λ h. ground (arith, h.1)))
    | inr (m, found) ↦ (
      (λ e. (m, found, (any_succeeded_iff m).0 (ground arith))),
      (λ h.
          let same : h.0 ≡ m = ground (arith, h.1) in
          let hit : any_succeeded m ≡ true = (any_succeeded_iff m).1 (rw same at h.2) in
          ground arith),
    )
  ]

  -- If every dependency asks for any version, they pass exactly when each named package has an
  -- installed version.
  validate_dependencies_wild_iff :
      (deps : Assoc String)
      → All IsWild deps
      → (validate_dependencies semver cache deps ≡ ok tt)
        ↔ All (λ d. HasSucceeded (trim_space d.0)) deps
  unfolding validate_dependencies
  validate_dependencies_wild_iff [] w = ((λ _. tt), (λ _. refl))
  validate_dependencies_wild_iff ((name, version) ∷ deps) (wild, w) =
      let ih = validate_dependencies_wild_iff deps w in
      let here = require_any_iff (trim_space name) in
      let star : (trim_space version == "*") ≡ true = (eq_iff (trim_space version) "*").1 wild in
      rw star (
        (λ e. let (a, first, rest) = >>=-eq-ok _ _ e in (here.0 first, ih.0 rest)),
        (λ h. rw (here.1 h.0) (ih.1 h.1)),
      )

  -- A dependency with a version text ends the check: whatever stands behind it is never looked at.
  pub validate_dependencies_skips :
      (wild : Assoc String) (name version : String) (deps deps' : Assoc String)
      → All IsWild wild
      → trim_space version ≢ "*"
      → validate_dependencies semver cache (wild ++ (name, version) ∷ deps)
        ≡ validate_dependencies semver cache (wild ++ (name, version) ∷ deps')
  unfolding validate_dependencies
  validate_dependencies_skips [] name version deps deps' w exact =
      elim (Bool-cases (trim_space version == "*")) [
        | inl star ↦ absurd (exact ((eq_iff (trim_space version) "*").0 star))
        | inr other ↦ rw other refl
      ]
  validate_dependencies_skips ((p, k) ∷ wild) name version deps deps' (star, w) exact =
      let hit : (trim_space k == "*") ≡ true = (eq_iff (trim_space k) "*").1 star in
      rw (hit, validate_dependencies_skips wild name version deps deps' w exact) refl
