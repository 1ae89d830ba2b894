-- ===== src/Tests/SystemWitness.antt =====
-- A run of the system.
use addon_manager.Common.{
  String, ◌≡◌, refl, ◌⊎◌, Bool, some, [], trim_space, hex_digit, lookup, insert, remove, none, ◌∷◌,
}
use addon_manager.Api.Addon.{
  Addon, calculate_checksum, get_formatted_workflow_name, get_workflow_type,
}
use addon_manager.Api.Checksum.{adler32, hex}
use addon_manager.Api.Phase.{deleting, pending, succeeded}
use addon_manager.Api.Spec.{NamespacedName}
use addon_manager.Cluster.{Sys, state_of}
use addon_manager.Controller.Cycle.{invalid_not_installed, run_after}
use addon_manager.Controller.Finalize.{
  after_delete, after_process, drop_finalizer, exec_addon, finalize, reconcile,
}
use addon_manager.Controller.Forgets.{finalize_forgets}
use addon_manager.Controller.Process.{process_addon, process_unchanged}
use addon_manager.Controller.Reached.{reached_get_version, reached_mutexes_apart}
use addon_manager.Controller.System.{addon_step, goes, stays}
use addon_manager.Controller.Workflow.{run_template, run_workflow, step_completed, submitted}
use addon_manager.Objects.{put_in}
use addon_manager.Objects.Paths.{get_in}
use addon_manager.Tests.Fixtures.{
  addon_of, app, env, lib_cache, run_of, semver, some_workflow, sum, system, version_of, web,
}
use addon_manager.Updater.{
  add_addon_to_cache, attempt, finish_update, get_status_mutex, is_stale, update_status,
}
use addon_manager.Validator.{
  addon_version, validate, validate_addon_name_length, validate_duplicate, validate_namespace,
}
use addon_manager.Validator.Dependencies.{
  dep_pending, resolve, resolve_each, validate_dependencies, version_key,
}
use addon_manager.Validator.Workflow.{check_workflow, check_workflows, validate_workflow}
use addon_manager.VersionCache.{Cache, add_version, get_version, get_version_in, get_versions}
use addon_manager.VersionCache.Keyed.{IsKeyed, Satisfies}
use addon_manager.VersionCache.Laws.{stored}
use addon_manager.Workflows.Artifacts.{configure_workflow_artifacts}
use addon_manager.Workflows.Defaults.{inject_active_deadline_seconds, inject_ttls}
use addon_manager.Workflows.Install.{install_workflow, parse, prepare, submit, submit_prepared}
use addon_manager.Workflows.Parameters.{configure_global_wf_parameters}

abbrev start : Sys Addon
start = system (web succeeded) []

abbrev request : NamespacedName
request = record { namespace = "system"; name = "web" }

-- A reconcile of a completed addon puts its version into the cache.
reached_get_version_example :
    IsKeyed (reconcile env request start).2.cache
    × (◌≡◌ {A = String} "web" "web")
    × ((◌≡◌ {A = String} "1.0" "1.0")
        ⊎ ((check : String → Bool) × (semver.new_constraint "1.0" ≡ some check)
            × Satisfies semver check "1.0"))
unfolding get_version get_versions get_version_in lookup reconcile exec_addon after_process
    process_addon calculate_checksum process_unchanged update_status finish_update attempt is_stale
    get_status_mutex add_addon_to_cache add_version insert
reached_get_version_example =
    reached_get_version env start (reconcile env request start).2 "web" "1.0"
      (version_of "web" "1.0" [] succeeded) (goes (addon_step request start) stays) refl refl

invalid_not_installed_example :
    (run_after (process_addon env (run_of (app "2.0") (lib_cache pending)))).sys.world ≡ app "2.0"
unfolding validate validate_duplicate validate_addon_name_length validate_namespace
    validate_workflow check_workflows check_workflow resolve resolve_each validate_dependencies
    get_version get_versions get_version_in version_key lookup insert remove trim_space
    addon_version calculate_checksum hex adler32 hex_digit
invalid_not_installed_example =
    invalid_not_installed env (run_of (app "2.0") (lib_cache pending)) (dep_pending "lib" "2.0")
      refl refl

reached_mutexes_apart_example : ◌≡◌ {A = String} "web" "web"
unfolding lookup reconcile exec_addon after_process process_addon calculate_checksum
    process_unchanged update_status finish_update attempt is_stale get_status_mutex
    add_addon_to_cache insert
reached_mutexes_apart_example =
    reached_mutexes_apart env start (reconcile env request start).2 "web" "web" 0
      (goes (addon_step request start) stays) refl refl refl

-- An addon with a delete workflow that is only just submitted, and its version in the cache.
abbrev leaving : Addon
leaving = addon_of "1.0" [] some_workflow sum succeeded deleting

abbrev web_cache : Cache
web_cache = ("web", ("1.0", version_of "web" "1.0" [] deleting) ∷ []) ∷ []

finalize_forgets_example :
    stored (state_of (finalize env (run_of leaving web_cache))).sys.cache "web" "1.0" ≡ none
unfolding finalize after_delete drop_finalizer run_workflow run_template submitted step_completed
    get_workflow_type get_formatted_workflow_name install_workflow submit_prepared prepare parse
    get_in put_in configure_global_wf_parameters configure_workflow_artifacts inject_ttls
    inject_active_deadline_seconds submit
finalize_forgets_example =
    finalize_forgets env (run_of leaving web_cache)
      (state_of (finalize env (run_of leaving web_cache))) refl
