-- ===== src/Tests/ControllerWitness.antt =====
-- Runs of the reconciler.
use addon_manager.Workflows.Artifacts.{configure_workflow_artifacts}
use addon_manager.Workflows.Parameters.{configure_global_wf_parameters}
use addon_manager.Objects.Paths.{get_in}
use addon_manager.Objects.{put_in}
use addon_manager.Workflows.Defaults.{inject_ttls, inject_active_deadline_seconds}
use addon_manager.Cluster.{state_of}
use addon_manager.Workflows.Install.{install_workflow, submit_prepared, submit, prepare, parse}
use addon_manager.Common.{
  String, ◌≡◌, refl, ◌⊎◌, true, none, some, List, [], ◌∷◌, arith, eq_iff, trim_space, hex_digit,
  lookup, insert, remove,
}
use addon_manager.Api.Addon.{
  Addon, calculate_checksum, get_formatted_workflow_name, get_workflow_type,
}
use addon_manager.Api.Checksum.{adler32, hex}
use addon_manager.Api.Phase.{deleting, pending, succeeded, validation_failed}
use addon_manager.Api.Spec.{NamespacedName}
use addon_manager.Controller.Cycle.{
  finalize_waits_for_delete, install_waits_for_prereqs, installed_after, process_addon_changed,
  process_invalid_phase,
}
use addon_manager.Controller.Finalize.{finalize, get_addon_requests_from_labels}
use addon_manager.Controller.Process.{
  delete_each, delete_listed, delete_old_workflows, process_addon, process_invalid, returned,
}
use addon_manager.Controller.Requests.{get_addon_requests_sound}
use addon_manager.Controller.Types.{resource_default_own_label}
use addon_manager.Controller.Workflow.{
  execute_prereq_and_install, run_template, run_workflow, step_completed, submitted,
}
use addon_manager.Tests.Fixtures.{
  addon_of, app, env, lib_cache, no_workflow, run_of, some_workflow, sum, system, web, semver,
  spec_bytes,
}
use addon_manager.Validator.{
  addon_version, validate, validate_addon_name_length, validate_duplicate, validate_namespace,
}
use addon_manager.Validator.Dependencies.{
  dep_pending, resolve, resolve_each, validate_dependencies, version_key,
}
use addon_manager.Validator.Messages.{DepPending}
use addon_manager.Validator.Workflow.{check_workflow, check_workflows, validate_workflow}
use addon_manager.VersionCache.{
  get_all_versions, get_version, get_version_in, get_versions, has_version_name, named_in,
  named_version,
}

abbrev changed : Addon
changed = addon_of "1.0" [] no_workflow "1" succeeded succeeded

abbrev leaving : Addon
leaving = addon_of "1.0" [] some_workflow sum succeeded deleting

get_addon_requests_sound_example :
    (lookup {V = String} resource_default_own_label ((resource_default_own_label, "lib") ∷ [])
      ≡ some "lib")
    × (◌≡◌ {A = List NamespacedName} [] [])
unfolding get_addon_requests_from_labels has_version_name get_all_versions named_in named_version
    lookup trim_space
get_addon_requests_sound_example =
    get_addon_requests_sound (lib_cache pending) ((resource_default_own_label, "lib") ∷ [])
      (record { namespace = "system"; name = "lib" }) [] refl

process_invalid_phase_example :
    let r =
      process_invalid env (dep_pending "lib" "2.0") (run_of (app "2.0") (lib_cache pending)) in
    ((installed_after r ≡ pending) × DepPending semver (lib_cache pending))
    ⊎ (installed_after r ≡ validation_failed)
unfolding validate validate_duplicate validate_addon_name_length validate_namespace
    validate_workflow check_workflows check_workflow resolve resolve_each validate_dependencies
    get_version get_versions get_version_in version_key lookup insert remove trim_space
    addon_version dep_pending
process_invalid_phase_example =
    process_invalid_phase env (run_of (app "2.0") (lib_cache pending)) (dep_pending "lib" "2.0")
      refl

process_addon_changed_example :
    process_addon env (run_of changed [])
    ≡ returned
        (record { requeue = true; requeue_after = 0 })
        none
        (record {
          instance_addon = record changed {
            status = record {
              checksum = calculate_checksum spec_bytes changed;
              lifecycle = record { prereqs = pending; installed = pending };
              resources = [];
              reason = "";
              start_time = 5000;
            };
          };
          sys = system changed [];
        })
unfolding calculate_checksum hex adler32 hex_digit delete_old_workflows delete_listed delete_each
process_addon_changed_example =
    process_addon_changed env (run_of changed []) changed (λ e. ground (arith, eq_iff "1" sum)) refl

abbrev waiting : Addon
waiting = record (web pending) {
  spec = record (web pending).spec {
    lifecycle = record (web pending).spec.lifecycle { prereqs = some_workflow };
  };
}

install_waits_for_prereqs_example :
    (state_of (execute_prereq_and_install env (run_of waiting []))).sys.world ≡ waiting
unfolding run_workflow run_template submitted step_completed get_workflow_type
    get_formatted_workflow_name install_workflow submit_prepared prepare parse get_in put_in
    configure_global_wf_parameters configure_workflow_artifacts inject_ttls
    inject_active_deadline_seconds submit
install_waits_for_prereqs_example = install_waits_for_prereqs env (run_of waiting []) refl

finalize_waits_for_delete_example :
    ((state_of (finalize env (run_of leaving []))).sys.world ≡ leaving)
    × ((state_of (finalize env (run_of leaving []))).instance_addon ≡ leaving)
unfolding run_workflow run_template submitted step_completed get_workflow_type
    get_formatted_workflow_name install_workflow submit_prepared prepare parse get_in put_in
    configure_global_wf_parameters configure_workflow_artifacts inject_ttls
    inject_active_deadline_seconds submit
finalize_waits_for_delete_example =
    finalize_waits_for_delete env (run_of leaving [])
      (λ e. ground (arith, eq_iff "kind: Workflow" "")) refl
