-- ===== src/Validator/Messages.antt =====
-- pkg/addon/addon_validator.go: which errors of `Validate` begin with `ErrDepPending`.
use addon_manager.Common.{
  ℕ, zero, suc, String, ◌≡◌, refl, ◌⊎◌, inl, inr, true, false, some, [], ◌∷◌, ◌==◌, Bool-cases,
  Option-cases, Error, errorf, Result, ◌+++◌, trim_space, Assoc, lookup, has_prefix, diverges,
  has_prefix-append, has_prefix-append_of_diverges, Errs, Errs-bind,
}
use addon_manager.Api.Phase.{Phase, pending, succeeded}
use addon_manager.VersionCache.{Version, Semver, Cache, get_version, get_versions}
use addon_manager.Validator.Dependencies.{
  err_dep_not_installed, err_dep_pending, own_package, unresolvable, circular, resolve_each,
  resolve, require_any, any_succeeded, not_installed, dep_pending, require_phase, require_version,
  validate_dependencies, version_key,
}

-- The test of the controller on the text of an error.
abbrev pub IsPendingError : Error → Type 0
IsPendingError e = has_prefix e.text err_dep_pending ≡ true

abbrev pub NotPending : Error → Type 0
NotPending e = has_prefix e.text err_dep_pending ≡ false

pub NotPending-text :
    (head rest : String)
    → diverges head err_dep_pending ≡ true
    → NotPending (errorf (head +++ rest))
NotPending-text head rest d = has_prefix-append_of_diverges head err_dep_pending rest d

pub not_installed-NotPending : (p k : String) → NotPending (not_installed p k)
unfolding not_installed diverges
not_installed-NotPending p k = NotPending-text err_dep_not_installed _ refl

pub dep_pending-IsPendingError : (p k : String) → IsPendingError (dep_pending p k)
unfolding dep_pending
dep_pending-IsPendingError p k = has_prefix-append err_dep_pending _

module _ {V : Type 0} (semver : Semver V) (cache : Cache) where
  -- A dependency with this name and version text is cached, and not yet installed.
  abbrev pub DepPending : Type 0
  DepPending =
      (p : String) × (k : String) × (v : Version) × (get_version semver p k cache ≡ some v)
      × (v.pkg_phase ≡ pending)

  -- The error is not about a pending dependency, or there is one.
  abbrev pub TellsPending : Error → Type 0
  TellsPending e = NotPending e ⊎ DepPending

  require_any-TellsPending : (p : String) → Errs TellsPending (require_any semver cache p)
  unfolding require_any diverges
  require_any-TellsPending p = elim (Option-cases (get_versions p cache)) [
    | inl missing ↦ rw (missing, require_any) (inl (NotPending-text err_dep_not_installed _ refl))
    | inr (m, found) ↦
        rw (found, require_any)
          (elim (Bool-cases (any_succeeded m)) [
            | inl hit ↦ rw hit tt
            | inr miss ↦ rw miss (inl (NotPending-text err_dep_not_installed _ refl))
          ])
  ]

  require_phase-TellsPending :
      (p k : String) (v : Version) (phase : Phase)
      → get_version semver p k cache ≡ some v
      → v.pkg_phase ≡ phase
      → Errs TellsPending (require_phase p k phase)
  unfolding require_phase
  require_phase-TellsPending p k v succeeded found e = tt
  require_phase-TellsPending p k v pending found e = inr (p, k, v, found, e)
  require_phase-TellsPending p k v _ found e = inl (not_installed-NotPending p k)

  require_version-TellsPending :
      (p k : String) → Errs TellsPending (require_version semver cache p k)
  unfolding require_version
  require_version-TellsPending p k = elim (Option-cases (get_version semver p k cache)) [
    | inl missing ↦ rw (missing, require_version) (inl (not_installed-NotPending p k))
    | inr (v, found) ↦
        rw (found, require_version) (require_phase-TellsPending p k v v.pkg_phase found refl)
  ]

  pub validate_dependencies-TellsPending :
      (deps : Assoc String) → Errs TellsPending (validate_dependencies semver cache deps)
  unfolding validate_dependencies
  validate_dependencies-TellsPending [] = tt
  validate_dependencies-TellsPending ((name, version) ∷ deps) =
      elim (Bool-cases (trim_space version == "*")) [
        | inl star ↦
            rw (star, validate_dependencies)
              (Errs-bind TellsPending (require_any semver cache (trim_space name))
                (λ _. validate_dependencies semver cache deps)
                (require_any-TellsPending (trim_space name))
                (λ _. validate_dependencies-TellsPending deps))
        | inr exact ↦
            rw (exact, validate_dependencies)
              (require_version-TellsPending (trim_space name) (trim_space version))
      ]

  resolve_each-NotPending :
      (visit : Version → Assoc Version → Result (Assoc Version))
      → ((v : Version) (x : Assoc Version) → Errs NotPending (visit v x))
      → (n : Version) (x : Assoc Version) (deps : Assoc String)
      → Errs NotPending (resolve_each semver cache visit n x deps)
  unfolding resolve_each own_package unresolvable circular diverges
  resolve_each-NotPending visit h n x [] = tt
  resolve_each-NotPending visit h n x ((name, version) ∷ deps) =
      elim (Bool-cases (trim_space name == n.pkg_name)) [
        | inl own ↦ rw (own, resolve_each) (NotPending-text _ _ refl)
        | inr apart ↦
            elim (Option-cases (get_version semver (trim_space name) (trim_space version) cache)) [
              | inl missing ↦
                  rw (apart, missing, resolve_each) (NotPending-text err_dep_not_installed _ refl)
              | inr (v, found) ↦ elim (Option-cases (lookup (version_key v) x)) [
                | inr (u, seen) ↦ rw (apart, found, seen, resolve_each) (NotPending-text _ _ refl)
                | inl fresh ↦
                    rw (apart, found, fresh, resolve_each)
                      (Errs-bind NotPending (visit v x)
                        (λ y. resolve_each semver cache visit n y deps) (h v x)
                        (λ y. resolve_each-NotPending visit h n y deps))
              ]
            ]
      ]

  pub resolve-NotPending :
      (depth : ℕ) (n : Version) (x : Assoc Version)
      → Errs NotPending (resolve semver cache depth n x)
  unfolding resolve
  resolve-NotPending zero n x = tt
  resolve-NotPending (suc depth) n x =
      Errs-bind NotPending _ _
        (resolve_each-NotPending (resolve semver cache depth) (resolve-NotPending depth) n _
          n.pkg_deps)
        (λ _. tt)
