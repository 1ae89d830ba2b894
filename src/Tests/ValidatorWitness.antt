-- ===== src/Tests/ValidatorWitness.antt =====
-- Runs of the validator.
use addon_manager.Validator.NameLength.{get_formatted_workflow_name_bound}
use addon_manager.Api.Addon.{get_formatted_workflow_name, get_workflow_type}
use addon_manager.Common.{
  ◌≡◌, refl, ◌≢◌, [], ◌∷◌, arith, eq_iff, panic, trim_space, quote, lookup, insert, remove,
  has_prefix, len, ◌≤◌, ◌+◌,
}
use addon_manager.Api.Phase.{pending, succeeded, install}
use addon_manager.Tests.Fixtures.{app, lib_cache, version_of, semver, docs, spec_bytes, no_workflow}
use addon_manager.Validator.{
  addon_version, validate, validate_addon_name_length, validate_duplicate, validate_namespace,
}
use addon_manager.Validator.Dependencies.{
  dep_pending, resolve, resolve_each, validate_dependencies, version_key,
}
use addon_manager.Validator.Installed.{validate_dependencies_skips}
use addon_manager.Validator.Messages.{DepPending}
use addon_manager.Validator.Termination.{resolve-ne-panic}
use addon_manager.Validator.Verdict.{IsValid, validate_pending, validate_sound}
use addon_manager.Validator.Workflow.{check_workflows, validate_workflow}
use addon_manager.VersionCache.{Cache, get_version, get_version_in, get_versions}

-- Two packages that depend on each other.
abbrev cyclic : Cache
cyclic =
    ("a", ("1.0", version_of "a" "1.0" (("b", "1.0") ∷ []) pending) ∷ [])
    ∷ ("b", ("1.0", version_of "b" "1.0" (("a", "1.0") ∷ []) pending) ∷ [])
    ∷ []

resolve-ne-panic_example :
    resolve semver cyclic 3 (version_of "a" "1.0" (("b", "1.0") ∷ []) pending) [] ≢ panic "cycle"
resolve-ne-panic_example =
    resolve-ne-panic semver cyclic 3 (version_of "a" "1.0" (("b", "1.0") ∷ []) pending) "cycle"
      (omega arith)

validate_dependencies_skips_example :
    validate_dependencies semver [] (("lib", "1.0") ∷ [])
    ≡ validate_dependencies semver [] (("lib", "1.0") ∷ ("db", "3.1") ∷ [])
unfolding trim_space
validate_dependencies_skips_example =
    validate_dependencies_skips semver [] [] "lib" "1.0" [] (("db", "3.1") ∷ []) tt
      (λ e. ground (arith, eq_iff "1.0" "*"))

validate_sound_example : IsValid semver docs spec_bytes [] (lib_cache succeeded) (app "2.0")
unfolding validate validate_duplicate validate_addon_name_length validate_namespace
    validate_workflow check_workflows resolve resolve_each validate_dependencies get_version
    get_versions get_version_in version_key lookup insert remove trim_space addon_version
validate_sound_example =
    validate_sound semver docs spec_bytes [] (lib_cache succeeded) (app "2.0") refl

get_formatted_workflow_name_bound_example :
    len (get_formatted_workflow_name spec_bytes (app "2.0") install) ≤ 53 + 0
unfolding validate validate_duplicate validate_addon_name_length validate_namespace
    validate_workflow check_workflows resolve resolve_each validate_dependencies get_version
    get_versions get_version_in version_key lookup insert remove trim_space addon_version
    get_workflow_type
get_formatted_workflow_name_bound_example =
    get_formatted_workflow_name_bound semver docs spec_bytes [] (lib_cache succeeded) (app "2.0")
      no_workflow install refl refl

validate_pending_example : DepPending semver (lib_cache pending)
unfolding validate validate_duplicate validate_addon_name_length validate_namespace
    validate_workflow check_workflows resolve resolve_each validate_dependencies get_version
    get_versions get_version_in version_key lookup insert remove trim_space addon_version
    dep_pending has_prefix quote
validate_pending_example =
    validate_pending semver docs spec_bytes [] (lib_cache pending) (app "2.0")
      (dep_pending "lib" "2.0") refl refl
