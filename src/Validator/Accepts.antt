-- ===== src/Validator/Accepts.antt =====
-- pkg/addon/addon_validator.go, `Validate`: which addons it accepts.
use addon_manager.Common.{
  ℕ, String, ◌≡◌, refl, ◌≢◌, ◌↔◌, ◌⊎◌, inl, inr, some, List, [], ◌∷◌, arith, ◌==◌, eq_iff,
  Bool-cases, Option-cases, Result, ok, >>=-eq-ok, >>-eq-ok, ◌>>=◌, ◌>>◌, ◌≤◌, len, trim_space,
  Assoc,
}
use addon_manager.Api.Phase.{
  Phase, unset, pending, succeeded, failed, validation_failed, deleting, delete_failed,
  delete_succeeded, LifecycleStep,
}
use addon_manager.Api.Spec.{AddonSpec}
use addon_manager.Api.Addon.{Addon}
use addon_manager.VersionCache.{Version, Semver, Cache, get_version}
use addon_manager.Document.{Documents}
use addon_manager.Validator.Dependencies.{
  max_depth, require_phase, require_version, resolve, validate_dependencies,
}
use addon_manager.Validator.Complete.{KeysTellDependencies, resolve_iff}
use addon_manager.Validator.Installed.{HasSucceeded, require_any_iff}
use addon_manager.Validator.Verdict.{IsValid, validate_sound}
use addon_manager.Validator.Workflow.{validate_workflow}
use addon_manager.Validator.{
  addon_version, validate_duplicate, validate_addon_name_length, validate_namespace, validate,
}

module _ {V : Type 0} (semver : Semver V) (cache : Cache) where
  -- The dependencies are installed as far as they are looked at: an installed version of each
  -- package up to the first dependency that asks for a version, and the version of that one.
  abbrev pub LooksInstalled : Assoc String → Type 0
  LooksInstalled [] = Unit {0}
  LooksInstalled ((name, version) ∷ deps) =
      ((trim_space version ≡ "*")
        × HasSucceeded semver cache (trim_space name)
        × LooksInstalled deps)
      ⊎ ((trim_space version ≢ "*")
          × ((v : Version) × (get_version semver (trim_space name) (trim_space version) cache
                ≡ some v)
              × (v.pkg_phase ≡ succeeded)))

  require_phase-ok :
      (p k : String) (phase : Phase) → require_phase p k phase ≡ ok tt → phase ≡ succeeded
  unfolding require_phase
  require_phase-ok p k unset e = cc
  require_phase-ok p k pending e = cc
  require_phase-ok p k succeeded e = refl
  require_phase-ok p k failed e = cc
  require_phase-ok p k validation_failed e = cc
  require_phase-ok p k deleting e = cc
  require_phase-ok p k delete_failed e = cc
  require_phase-ok p k delete_succeeded e = cc

  require_version_iff :
      (p k : String)
      → (require_version semver cache p k ≡ ok tt)
        ↔ ((v : Version) × (get_version semver p k cache ≡ some v) × (v.pkg_phase ≡ succeeded))
  unfolding require_version require_phase
  require_version_iff p k = elim (Option-cases (get_version semver p k cache)) [
    | inl missing ↦ ((λ e. ground arith), (λ h. ground (arith, h.1)))
    | inr (v, found) ↦ (
      (λ e. (v, found, require_phase-ok p k v.pkg_phase (rw (found, require_version) at e))),
      (λ h.
          let same : h.0 ≡ v = ground (arith, h.1) in
          let installed : v.pkg_phase ≡ succeeded = rw same at h.2 in
          rw (found, require_version) (rw installed refl)),
    )
  ]

  validate_dependencies_iff :
      (deps : Assoc String)
      → (validate_dependencies semver cache deps ≡ ok tt) ↔ LooksInstalled deps
  unfolding validate_dependencies
  validate_dependencies_iff [] = ((λ _. tt), (λ _. refl))
  validate_dependencies_iff ((name, version) ∷ deps) =
      let ih = validate_dependencies_iff deps in
      let any = require_any_iff semver cache (trim_space name) in
      let one = require_version_iff (trim_space name) (trim_space version) in
      let is_star = eq_iff (trim_space version) "*" in
      elim (Bool-cases (trim_space version == "*")) [
        | inl star ↦ rw star (
          (λ e.
              let (a, first, rest) = >>=-eq-ok _ _ e in
              inl (is_star.0 star, any.0 first, ih.0 rest)),
          (λ h. elim h [
            | inl (_, first, rest) ↦ rw (any.1 first) (ih.1 rest)
            | inr (exact, _) ↦ absurd (exact (is_star.0 star))
          ]),
        )
        | inr exact ↦ rw exact (
          (λ e. inr ((λ same. ground (arith, is_star.1 same)), one.0 e)),
          (λ h. elim h [
            | inl (same, _, _) ↦ ground (arith, is_star.1 same)
            | inr (_, found) ↦ one.1 found
          ]),
        )
      ]

-- Five checks in turn, the fourth with a result that is dropped.
checks_iff :
    {A : Type 0} (m1 m2 m3 m4 : Result (Unit {0})) (m5 : Result A) (m6 : Result (Unit {0}))
    → ((m1 >> (m2 >> (m3 >> (m4 >> (m5 >>= λ _. m6))))) ≡ ok tt) ↔ (
        (m1 ≡ ok tt)
        × (m2 ≡ ok tt)
        × (m3 ≡ ok tt)
        × (m4 ≡ ok tt)
        × ((x : A) × (m5 ≡ ok x))
        × (m6 ≡ ok tt))
checks_iff m1 m2 m3 m4 m5 m6 = (
  (λ e.
      let (h1, e1) = >>-eq-ok m1 _ e in
      let (h2, e2) = >>-eq-ok m2 _ e1 in
      let (h3, e3) = >>-eq-ok m3 _ e2 in
      let (h4, e4) = >>-eq-ok m4 _ e3 in
      let (x, h5, h6) = >>=-eq-ok m5 (λ _. m6) e4 in (h1, h2, h3, h4, (x, h5), h6)),
  (λ h. let (h1, h2, h3, h4, (x, h5), h6) = h in rw (h1, h2, h3, h4, h5) h6),
)

module _ {V : Type 0} (semver : Semver V) (docs : Documents) (spec_bytes : AddonSpec → List ℕ)
    (order : List LifecycleStep) (cache : Cache) (a : Addon) where
  duplicate_complete :
      ((v : Version)
        → get_version semver a.spec.pkg_name a.spec.pkg_version cache ≡ some v
        → v.name ≡ a.name)
      → validate_duplicate semver docs spec_bytes cache a (addon_version a) ≡ ok tt
  unfolding validate_duplicate addon_version
  duplicate_complete own =
      elim (Option-cases (get_version semver a.spec.pkg_name a.spec.pkg_version cache)) [
        | inl missing ↦ ground arith
        | inr (v, found) ↦ ground (arith, eq_iff v.name a.name, own v found)
      ]

  name_complete : len a.name ≤ 31 → validate_addon_name_length semver docs spec_bytes a ≡ ok tt
  unfolding validate_addon_name_length
  name_complete short = ground arith

  namespace_complete :
      a.spec.params.namespace ≢ "" → validate_namespace semver docs spec_bytes a ≡ ok tt
  unfolding validate_namespace
  namespace_complete named = ground (arith, eq_iff a.spec.params.namespace "", named)

  -- If keys tell dependencies below an addon's version, `Validate` accepts it exactly when no other
  -- addon holds its package version, its name has at most 31 bytes, it names a namespace, its
  -- dependencies form a complete tree within the depth bound, its workflow templates pass their
  -- check, and those of its dependencies that are looked at are installed.
  pub validate_iff :
      KeysTellDependencies semver cache (addon_version a)
      → (validate semver docs spec_bytes order cache a ≡ ok tt) ↔ (
          IsValid semver docs spec_bytes order cache a
          × (validate_workflow docs spec_bytes order a ≡ ok tt)
          × LooksInstalled semver cache a.spec.pkg_deps)
  unfolding validate
  validate_iff tell =
      let start = addon_version a in
      let acyclic = resolve_iff semver cache max_depth start tell in
      let checks =
        checks_iff (validate_duplicate semver docs spec_bytes cache a start)
          (validate_addon_name_length semver docs spec_bytes a)
          (validate_namespace semver docs spec_bytes a) (validate_workflow docs spec_bytes order a)
          (resolve semver cache max_depth start [])
          (validate_dependencies semver cache a.spec.pkg_deps) in
      let installed = validate_dependencies_iff semver cache a.spec.pkg_deps in
      (
        (λ e.
            let (_, _, _, workflow, _, deps) = checks.0 e in
            (validate_sound semver docs spec_bytes order cache a e, workflow, installed.0 deps)),
        (λ h.
            let ((own, short, named, tree), workflow, deps) = h in
            checks.1 (
              duplicate_complete own,
              name_complete short,
              namespace_complete named,
              workflow,
              acyclic.1 tree,
              installed.1 deps,
            )),
      )
