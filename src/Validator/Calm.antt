-- ===== src/Validator/Calm.antt =====
-- pkg/addon/addon_validator.go, `Validate`: when it returns.
use addon_manager.Common.{
  ℕ, ◌<◌, String, ◌≢◌, inl, inr, List, [], ◌∷◌, ◌==◌, ltb, len, Bool-cases, Option-cases, panic,
  length, Assoc, trim_space, Safe, Safe-bind, Safe-of, Any,
}
use addon_manager.Api.Addon.{Addon}
use addon_manager.Api.Phase.{
  Phase, unset, pending, succeeded, failed, validation_failed, deleting, delete_failed,
  delete_succeeded, LifecycleStep,
}
use addon_manager.Api.Spec.{AddonSpec}
use addon_manager.Document.{Documents, Fields, end}
use addon_manager.Validator.{
  addon_version, validate_duplicate, validate_addon_name_length, validate_namespace, validate,
}
use addon_manager.Validator.Dependencies.{
  any_succeeded, max_depth, require_any, require_phase, require_version, resolve,
  validate_dependencies,
}
use addon_manager.Validator.Termination.{resolve-ne-panic}
use addon_manager.Validator.Visited.{cached_keys}
use addon_manager.Validator.Workflow.{check_workflows, validate_workflow}
use addon_manager.Validator.Names.{HasNames, AllSteps, KeepsNames, check_workflows-Safe}
use addon_manager.VersionCache.{Cache, Semver, get_version, get_versions}

module _ {V : Type 0} (semver : Semver V) (cache : Cache) where
  require_phase-Safe : (p k : String) (phase : Phase) → Safe Any (require_phase p k phase)
  unfolding require_phase
  require_phase-Safe p k succeeded = tt
  require_phase-Safe p k pending = tt
  require_phase-Safe p k unset = tt
  require_phase-Safe p k failed = tt
  require_phase-Safe p k validation_failed = tt
  require_phase-Safe p k deleting = tt
  require_phase-Safe p k delete_failed = tt
  require_phase-Safe p k delete_succeeded = tt

  require_version-Safe : (p k : String) → Safe Any (require_version semver cache p k)
  unfolding require_version
  require_version-Safe p k = elim (Option-cases (get_version semver p k cache)) [
    | inl missing ↦ rw (missing, require_version) tt
    | inr (v, hit) ↦ rw (hit, require_version) (require_phase-Safe p k v.pkg_phase)
  ]

  require_any-Safe : (p : String) → Safe Any (require_any semver cache p)
  unfolding require_any
  require_any-Safe p = elim (Option-cases (get_versions p cache)) [
    | inl missing ↦ rw (missing, require_any) tt
    | inr (m, hit) ↦ elim (Bool-cases (any_succeeded m)) [
      | inl some_one ↦ rw (hit, some_one, require_any) tt
      | inr no_one ↦ rw (hit, no_one, require_any) tt
    ]
  ]

  validate_dependencies-Safe :
      (deps : Assoc String) → Safe Any (validate_dependencies semver cache deps)
  unfolding validate_dependencies
  validate_dependencies-Safe [] = tt
  validate_dependencies-Safe ((name, version) ∷ deps) =
      elim (Bool-cases (trim_space version == "*")) [
        | inl star ↦
            rw (star, validate_dependencies)
              (Safe-bind Any Any (require_any semver cache (trim_space name)) _
                (require_any-Safe (trim_space name)) λ _ _. validate_dependencies-Safe deps)
        | inr exact ↦
            rw (exact, validate_dependencies)
              (require_version-Safe (trim_space name) (trim_space version))
      ]

module _ {V : Type 0} (semver : Semver V) (docs : Documents) (spec_bytes : AddonSpec → List ℕ)
    (cache : Cache) (a : Addon) where
  duplicate-Safe : Safe Any (validate_duplicate semver docs spec_bytes cache a (addon_version a))
  unfolding validate_duplicate addon_version
  duplicate-Safe =
      elim (Option-cases (get_version semver a.spec.pkg_name a.spec.pkg_version cache)) [
        | inl missing ↦ rw (missing, validate_duplicate) tt
        | inr (v, hit) ↦ elim (Bool-cases (v.name == a.name)) [
          | inl own ↦ rw (hit, own, validate_duplicate) tt
          | inr foreign ↦ rw (hit, foreign, validate_duplicate) tt
        ]
      ]

  name-Safe : Safe Any (validate_addon_name_length semver docs spec_bytes a)
  unfolding validate_addon_name_length
  name-Safe = elim (Bool-cases (ltb 31 (len a.name))) [
    | inl long ↦ rw (long, validate_addon_name_length) tt
    | inr short ↦ rw (short, validate_addon_name_length) tt
  ]

  namespace-Safe : Safe Any (validate_namespace semver docs spec_bytes a)
  unfolding validate_namespace
  namespace-Safe = elim (Bool-cases (a.spec.params.namespace == "")) [
    | inl empty ↦ rw (empty, validate_namespace) tt
    | inr given ↦ rw (given, validate_namespace) tt
  ]

  pub validate-Safe :
      (order : List LifecycleStep)
      → ((text : String) (m : Fields) (s : String) → docs.unmarshal text m ≢ panic s)
      → AllSteps (KeepsNames docs) a.spec.lifecycle
      → HasNames docs end
      → length (cached_keys cache) < max_depth
      → Safe Any (validate semver docs spec_bytes order cache a)
  unfolding validate validate_workflow
  validate-Safe order calm all start few =
      Safe-bind Any Any (validate_duplicate semver docs spec_bytes cache a (addon_version a)) _
        duplicate-Safe
        λ _ _.
          Safe-bind Any Any (validate_addon_name_length semver docs spec_bytes a) _ name-Safe λ _ _.
            Safe-bind Any Any (validate_namespace semver docs spec_bytes a) _ namespace-Safe λ _ _.
              Safe-bind Any Any (check_workflows docs spec_bytes a order end) _
                (check_workflows-Safe docs spec_bytes a calm order end all start)
                λ _ _.
                  Safe-bind Any Any (resolve semver cache max_depth (addon_version a) []) _
                    (Safe-of (resolve semver cache max_depth (addon_version a) [])
                      (λ s. resolve-ne-panic semver cache max_depth (addon_version a) s few))
                    λ _ _. validate_dependencies-Safe semver cache a.spec.pkg_deps
