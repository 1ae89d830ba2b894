-- ===== src/Tests/PanicWitness.antt =====
-- Runs of the reconciler that panic, and one that is called again.
use addon_manager.Controller.Cycle.{process_addon_changed}
use addon_manager.Tests.Trees.{objects}
use addon_manager.Common.{
  String, ◌≡◌, refl, true, none, [], ◌∷◌, arith, eq_iff, ok, found, trim_space, hex_digit, lookup,
  insert, remove,
}
use addon_manager.Api.Addon.{
  Addon, calculate_checksum, get_formatted_workflow_name, get_workflow_type,
}
use addon_manager.Api.Checksum.{adler32, hex}
use addon_manager.Api.Phase.{pending, prereqs, succeeded}
use addon_manager.Controller.Attended.{IsCalledAgain, process_addon_attended}
use addon_manager.Controller.Finalize.{exec_addon}
use addon_manager.Controller.Panics.{IsDue, exec_addon_loses_panic}
use addon_manager.Controller.Process.{delete_each, delete_listed, delete_old_workflows}
use addon_manager.Controller.Types.{Env, event, finalizer_name, no_requeue}
use addon_manager.Document.{Fields, end, field, get_field, null}
use addon_manager.Helpers.{contains_string, is_expired}
use addon_manager.Objects.{put_field, put_in}
use addon_manager.Objects.Paths.{get_in}
use addon_manager.Tests.Fixtures.{
  addon_of, docs, env, no_workflow, run_of, some_workflow, spec_bytes, sum, web,
}
use addon_manager.Validator.{
  addon_version, validate, validate_addon_name_length, validate_duplicate, validate_namespace,
}
use addon_manager.Validator.Dependencies.{resolve, resolve_each, validate_dependencies, version_key}
use addon_manager.Validator.Workflow.{
  check_document, check_parameters, check_workflow, check_workflows, validate_workflow,
}
use addon_manager.VersionCache.{get_version, get_version_in, get_versions}
use addon_manager.Workflows.Install.{decode, parse, stamp}

abbrev changed : Addon
changed = addon_of "1.0" [] no_workflow "1" succeeded succeeded

abbrev waiting : Addon
waiting = record (web pending) {
  spec = record (web pending).spec {
    lifecycle = record (web pending).spec.lifecycle { prereqs = some_workflow };
  };
}

-- A template whose `spec` is null.
abbrev null_tree : Fields
null_tree = field "spec" null end

abbrev null_env : Env Addon String Fields
null_env = record env {
  docs = record docs { unmarshal = λ s m. ok null_tree };
  objects = record objects { unmarshal_json = λ s. found null_tree };
}

abbrev due : Addon
due = record waiting { finalizers = finalizer_name ∷ [] }

due-IsDue : IsDue null_env (run_of due [])
unfolding calculate_checksum hex adler32 hex_digit validate validate_duplicate
    validate_addon_name_length validate_namespace validate_workflow check_workflows check_workflow
    resolve resolve_each validate_dependencies get_version get_versions get_version_in version_key
    lookup insert remove trim_space addon_version check_document get_field contains_string
    is_expired get_formatted_workflow_name get_workflow_type check_parameters
due-IsDue = record {
  live = refl;
  same = refl;
  open_still = refl;
  valid = refl;
  kept = refl;
  in_time = refl;
  pending_still = refl;
  given = refl;
  named = refl;
}

exec_addon_loses_panic_example : exec_addon null_env (run_of due []) ≡ (
  no_requeue,
  none,
  (event "Normal" "Completed" "Addon system/web is valid." (run_of due [])).sys,
)
unfolding get_formatted_workflow_name get_workflow_type parse decode stamp get_in put_in get_field
    put_field
exec_addon_loses_panic_example =
    exec_addon_loses_panic null_env (run_of due [])
      (stamp docs objects due (get_formatted_workflow_name spec_bytes due prereqs) null_tree) refl
      due-IsDue refl refl

-- The changed addon as `processAddon` leaves it.
abbrev restarted : Addon
restarted = record changed {
  status = record {
    checksum = calculate_checksum spec_bytes changed;
    lifecycle = record { prereqs = pending; installed = pending };
    resources = [];
    reason = "";
    start_time = 5000;
  };
}

process_addon_attended_example : IsCalledAgain (record { requeue = true; requeue_after = 0 }) none
unfolding calculate_checksum hex adler32 hex_digit delete_old_workflows delete_listed delete_each
process_addon_attended_example =
    process_addon_attended env (run_of changed [])
      (record (run_of changed []) { instance_addon = restarted })
      (record { requeue = true; requeue_after = 0 }) none
      (process_addon_changed env (run_of changed []) changed (λ e. ground (arith, eq_iff "1" sum))
        refl)
      refl
