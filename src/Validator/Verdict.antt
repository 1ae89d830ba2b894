-- ===== src/Validator/Verdict.antt =====
-- pkg/addon/addon_validator.go, `Validate`: what its verdicts mean.
use addon_manager.Common.{
  ℕ, ◌≤◌, ◌≡◌, refl, ◌≢◌, inl, inr, some, List, [], arith, ◌==◌, eq_iff, ltb, Bool-cases,
  Option-cases, Error, Result, ok, err, panic, >>=-eq-ok, >>-eq-ok, ◌>>=◌, ◌>>◌, len, has_prefix,
  diverges, Errs, Errs-bind, Errs-err,
}
use addon_manager.Api.Phase.{LifecycleStep}
use addon_manager.Api.Spec.{AddonSpec}
use addon_manager.Api.Addon.{Addon}
use addon_manager.VersionCache.{Version, Semver, Cache, get_version}
use addon_manager.Document.{Documents}
use addon_manager.Validator.Dependencies.{max_depth, resolve, validate_dependencies}
use addon_manager.Validator.Soundness.{Resolves, resolve_sound}
use addon_manager.Validator.{
  addon_version, validate_duplicate, validate_addon_name_length, validate_namespace, validate,
  duplicate_error,
}
use addon_manager.Validator.Workflow.{validate_workflow, check_workflows}
use addon_manager.Validator.Messages.{
  IsPendingError, NotPending, TellsPending, DepPending, NotPending-text,
  validate_dependencies-TellsPending, resolve-NotPending,
}
use addon_manager.Validator.WorkflowMessages.{check_workflows-NotPending}
use addon_manager.Document.{end}

module _ {V : Type 0} (semver : Semver V) (docs : Documents) (spec_bytes : AddonSpec → List ℕ)
    (order : List LifecycleStep) (cache : Cache) (a : Addon) where
  -- What a valid addon has: no other addon holds its package version, its name has at most 31
  -- bytes, it names a namespace, and its dependencies form a complete tree with no cycle.
  abbrev pub IsValid : Type 0
  IsValid =
      ((v : Version)
        → get_version semver a.spec.pkg_name a.spec.pkg_version cache ≡ some v
        → v.name ≡ a.name)
      × (len a.name ≤ 31)
      × (a.spec.params.namespace ≢ "")
      × Resolves semver cache max_depth (addon_version a)

  duplicate_sound :
      validate_duplicate semver docs spec_bytes cache a (addon_version a) ≡ ok tt
      → (v : Version) → get_version semver a.spec.pkg_name a.spec.pkg_version cache ≡ some v
      → v.name ≡ a.name
  unfolding validate_duplicate addon_version
  duplicate_sound e v found = ground (arith, eq_iff v.name a.name)

  name_sound : validate_addon_name_length semver docs spec_bytes a ≡ ok tt → len a.name ≤ 31
  unfolding validate_addon_name_length
  name_sound e = ground arith

  namespace_sound :
      validate_namespace semver docs spec_bytes a ≡ ok tt → a.spec.params.namespace ≢ ""
  unfolding validate_namespace
  namespace_sound e = ground (arith, eq_iff a.spec.params.namespace "")

  -- An addon that `Validate` accepts is no duplicate, has a name of at most 31 bytes and a namespace,
  -- and its dependencies form a complete tree with no cycle.
  pub validate_sound : validate semver docs spec_bytes order cache a ≡ ok tt → IsValid
  unfolding validate
  validate_sound e =
      let installed = validate_dependencies semver cache a.spec.pkg_deps in
      let acyclic = resolve semver cache max_depth (addon_version a) [] in
      let workflow = validate_workflow docs spec_bytes order a in
      let space = validate_namespace semver docs spec_bytes a in
      let name = validate_addon_name_length semver docs spec_bytes a in
      let tail : Result (Unit {0}) = workflow >> (acyclic >>= λ _. installed) in
      let (unique, e1) =
        >>-eq-ok (validate_duplicate semver docs spec_bytes cache a (addon_version a))
          (name >> (space >> tail)) e in
      let (short, e2) = >>-eq-ok name (space >> tail) e1 in
      let (named, e3) = >>-eq-ok space tail e2 in
      let (_, e4) = >>-eq-ok workflow (acyclic >>= λ _. installed) e3 in
      let (visited, resolved, _) = >>=-eq-ok acyclic (λ _. installed) e4 in
      (
        duplicate_sound unique,
        name_sound short,
        namespace_sound named,
        resolve_sound semver cache max_depth (addon_version a) [] visited resolved,
      )

  duplicate-NotPending :
      Errs NotPending (validate_duplicate semver docs spec_bytes cache a (addon_version a))
  unfolding validate_duplicate duplicate_error addon_version diverges
  duplicate-NotPending =
      elim (Option-cases (get_version semver a.spec.pkg_name a.spec.pkg_version cache)) [
        | inl missing ↦ rw (missing, validate_duplicate) tt
        | inr (v, found) ↦ elim (Bool-cases (v.name == a.name)) [
          | inl own ↦ rw (found, own, validate_duplicate) tt
          | inr other ↦ rw (found, other, validate_duplicate) (NotPending-text _ _ refl)
        ]
      ]

  name-NotPending : Errs NotPending (validate_addon_name_length semver docs spec_bytes a)
  unfolding validate_addon_name_length diverges
  name-NotPending = elim (Bool-cases (ltb 31 (len a.name))) [
    | inl long ↦ rw (long, validate_addon_name_length) (NotPending-text _ _ refl)
    | inr short ↦ rw (short, validate_addon_name_length) tt
  ]

  namespace-NotPending : Errs NotPending (validate_namespace semver docs spec_bytes a)
  unfolding validate_namespace has_prefix
  namespace-NotPending = elim (Bool-cases (a.spec.params.namespace == "")) [
    | inl empty ↦ rw (empty, validate_namespace) refl
    | inr given ↦ rw (given, validate_namespace) tt
  ]

  Errs-inl : {A : Type 0} (m : Result A) → Errs NotPending m → Errs (TellsPending semver cache) m
  Errs-inl (ok x) h = tt
  Errs-inl (err e) h = inl h
  Errs-inl (panic s) h = tt

  validate-TellsPending :
      Errs (TellsPending semver cache) (validate semver docs spec_bytes order cache a)
  unfolding validate validate_workflow
  validate-TellsPending =
      let T = TellsPending semver cache in
      let dup = validate_duplicate semver docs spec_bytes cache a (addon_version a) in
      let name = validate_addon_name_length semver docs spec_bytes a in
      let space = validate_namespace semver docs spec_bytes a in
      let workflow = check_workflows docs spec_bytes a order end in
      let acyclic = resolve semver cache max_depth (addon_version a) [] in
      Errs-bind T dup _ (Errs-inl dup duplicate-NotPending) λ _.
        Errs-bind T name _ (Errs-inl name name-NotPending) λ _.
          Errs-bind T space _ (Errs-inl space namespace-NotPending) λ _.
            Errs-bind T workflow _
              (Errs-inl workflow (check_workflows-NotPending docs spec_bytes a order end))
              λ _.
                Errs-bind T acyclic _
                  (Errs-inl acyclic
                    (resolve-NotPending semver cache max_depth (addon_version a) []))
                  λ _. validate_dependencies-TellsPending semver cache a.spec.pkg_deps

  -- An error of `Validate` begins with `ErrDepPending` only if a cached version of some package,
  -- which `GetVersion` returns, is in phase Pending.
  pub validate_pending :
      (e : Error)
      → validate semver docs spec_bytes order cache a ≡ err e
      → IsPendingError e
      → DepPending semver cache
  validate_pending e failed hit =
      elim (Errs-err (TellsPending semver cache) _ failed validate-TellsPending) [
        | inl not_pending ↦ cc
        | inr found ↦ found
      ]
