-- ===== src/Validator.antt =====
-- pkg/addon/addon_validator.go. A `range` over a map follows the order of the association list.
pub mod Workflow
pub mod Dependencies
pub mod Soundness
pub mod Complete
pub mod Visited
pub mod Termination
pub mod Installed
pub mod Messages
pub mod WorkflowMessages
pub mod Verdict
pub mod Accepts
pub mod Names
pub mod Calm
pub mod NameLength
use addon_manager.Common.{
  ℕ, zero, suc, ◌+◌, ◌-◌, ◌*◌, ◌/◌, ◌%◌, ◌^◌, ◌≤◌, ◌<◌, Char, code, String, ◌≡◌, refl, sym, ap,
  subst, ◌∙◌, ◌≢◌, ◌↔◌, ◌⊎◌, inl, inr, Bool, true, false, not, ◌&&◌, ◌||◌, Option, none, some, List,
  [], ◌∷◌, ◌++◌, map, arith, ◌==◌, starts_with, eq_iff, eq_refl, leb, ltb, eqb, if◌then◌else◌,
  Bool-cases, Option-cases, is_some, Reason, unknown, not_found, already_exists, conflict, Error,
  errorf, Result, ok, err, panic, bind, >>=-eq-ok, >>=-eq-panic, ◌>>=◌, ◌>>◌, length, get_elem?,
  length-append, get_elem?-append, All, ◌+++◌, len, is_space, trim_left, trim_right, trim_space,
  cons_head, split, join, hex_digit, quote, Assoc, lookup, insert, remove, lookup-insert,
  lookup-remove, All-lookup, All-insert, All-remove, has_prefix, diverges, has_prefix-append,
  has_prefix-append_of_diverges, Errs, Errs-bind, Errs-err,
}
use addon_manager.Api.Phase.{Phase, succeeded, pending, LifecycleStep}
use addon_manager.Api.Addon.{Addon}
use addon_manager.Api.Spec.{AddonSpec}
use addon_manager.Api.Addon.{get_package_spec}
use addon_manager.VersionCache.{Version, Semver, Cache, get_version}
use addon_manager.Document.{Documents}
use Workflow.{validate_workflow}
use Dependencies.{resolve, validate_dependencies, max_depth}

-- The version that `Validate` looks for.
unfoldable pub addon_version : Addon → Version
unfolding get_package_spec
addon_version a = record {
  name = a.name;
  namespace = a.namespace;
  package_spec = get_package_spec a;
  pkg_phase = a.status.lifecycle.installed;
}

unfoldable pub duplicate_error : Addon → Error
duplicate_error a = errorf (
    "package version " +++ a.spec.pkg_name +++ ":" +++ a.spec.pkg_version
    +++ " already exists and cannot be installed as a duplicate")

module _ {V : Type 0} (semver : Semver V) (docs : Documents) (spec_bytes : AddonSpec → List ℕ) where
  unfoldable pub validate_duplicate : Cache → Addon → Version → Result (Unit {0})
  validate_duplicate cache a version =
      elim (get_version semver version.pkg_name version.pkg_version cache) [
        | none ↦ ok tt
        | some v ↦ if v.name == version.name then ok tt else err (duplicate_error a)
      ]

  unfoldable pub validate_addon_name_length : Addon → Result (Unit {0})
  validate_addon_name_length a =
      if ltb 31 (len a.name)
      then err (errorf ("Addon name " +++ a.name +++ " must be less than 32 characters"))
      else ok tt

  unfoldable pub validate_namespace : Addon → Result (Unit {0})
  validate_namespace a =
      if a.spec.params.namespace == ""
      then err (errorf "namespace is empty in addon.spec.params.namespace")
      else ok tt

  -- `Validate`; `order` is the order in which the map of lifecycle steps is visited.
  unfoldable pub validate : List LifecycleStep → Cache → Addon → Result (Unit {0})
  unfolding validate_duplicate duplicate_error validate_addon_name_length validate_namespace
      addon_version
  validate order cache a = do
    validate_duplicate cache a (addon_version a)
    validate_addon_name_length a
    validate_namespace a
    validate_workflow docs spec_bytes order a
    visited ← resolve semver cache max_depth (addon_version a) []
    validate_dependencies semver cache a.spec.pkg_deps
