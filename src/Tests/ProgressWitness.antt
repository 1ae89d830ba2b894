-- ===== src/Tests/ProgressWitness.antt =====
-- A reconcile in which an addon comes to be installed.
use addon_manager.Common.{
  String, ◌≡◌, refl, ap, subst, inl, inr, none, [], ◌∷◌, arith, eq_iff, found, hex_digit, lookup,
  insert, remove, trim_space, ok,
}
use addon_manager.Api.Addon.{
  Addon, calculate_checksum, get_formatted_workflow_name, get_workflow_type,
}
use addon_manager.Api.Checksum.{adler32, hex}
use addon_manager.Api.Phase.{install, pending, succeeded}
use addon_manager.Cluster.{state_of, Workflow}
use addon_manager.Controller.Observe.{
  collect, observe_cron_job, observe_daemon_set, observe_deployment, observe_job,
  observe_replica_set, observe_resources, observe_service, observe_stateful_set,
}
use addon_manager.Api.Status.{set_status_by_lifecycle_step}
use addon_manager.Controller.Open.{IsOpen, announced}
use addon_manager.Controller.Process.{process_addon, returned, with_checksum}
use addon_manager.Controller.Progress.{
  IsDone, InstallDone, installed_of, prereqs_of, process_addon_succeeds,
}
use addon_manager.Controller.Types.{Env, Run, finalizer_name, no_requeue}
use addon_manager.Controller.Workflow.{
  missing_secret, run_template, run_workflow, step_completed, submitted, validate_secrets,
}
use addon_manager.Document.{Fields, get_field}
use addon_manager.Helpers.{contains_string, is_expired, workflow_succeeded}
use addon_manager.Tests.Fixtures.{docs, env, kube, run_of, some_workflow, spec_bytes, web}
use addon_manager.Tests.Trees.{tree}
use addon_manager.Validator.{
  addon_version, validate, validate_addon_name_length, validate_duplicate, validate_namespace,
}
use addon_manager.Validator.Dependencies.{resolve, resolve_each, validate_dependencies, version_key}
use addon_manager.Validator.Workflow.{
  check_document, check_parameters, check_workflow, check_workflows, validate_workflow,
}
use addon_manager.VersionCache.{get_version, get_version_in, get_versions}
use addon_manager.Objects.{put_in}
use addon_manager.Objects.Paths.{get_in}
use addon_manager.Workflows.Artifacts.{configure_workflow_artifacts}
use addon_manager.Workflows.Defaults.{inject_active_deadline_seconds, inject_ttls}
use addon_manager.Workflows.Install.{install_workflow, parse, prepare, submit, submit_prepared}
use addon_manager.Workflows.Parameters.{configure_global_wf_parameters}

abbrev finished : Workflow
finished = record {
  namespace = "system";
  name = "wf";
  deletion_timestamp = none;
  owner = none;
  phase = workflow_succeeded;
  message = "";
}

-- Every workflow is reported as succeeded.
abbrev quick_env : Env Addon String Fields
quick_env = record env {
  kube = record kube { get_workflow = λ key w. found finished };
  docs = record docs { unmarshal = λ s m. ok tree };
}

abbrev waiting : Addon
waiting = record (web pending) {
  finalizers = finalizer_name ∷ [];
  spec = record (web pending).spec {
    lifecycle = record (web pending).spec.lifecycle { install = some_workflow };
  };
}

abbrev begun : Run Addon
begun = with_checksum (calculate_checksum spec_bytes waiting) (run_of waiting [])

begun-IsOpen : IsOpen quick_env begun
unfolding calculate_checksum hex adler32 hex_digit validate validate_duplicate
    validate_addon_name_length validate_namespace validate_workflow check_workflows check_workflow
    resolve resolve_each validate_dependencies get_version get_versions get_version_in version_key
    lookup insert remove trim_space addon_version check_document get_field contains_string
    is_expired get_formatted_workflow_name get_workflow_type check_parameters
begun-IsOpen = record { live = refl; open_still = refl; valid = refl; kept = refl; in_time = refl }

begun-InstallDone : InstallDone quick_env (announced begun)
unfolding run_workflow run_template submitted step_completed get_workflow_type validate_secrets
    missing_secret get_formatted_workflow_name install_workflow submit_prepared prepare parse get_in
    put_in configure_global_wf_parameters configure_workflow_artifacts inject_ttls
    inject_active_deadline_seconds submit calculate_checksum hex adler32 hex_digit
    set_status_by_lifecycle_step
begun-InstallDone r1 ran =
    subst
      (λ (x : Run Addon).
        (validate_secrets quick_env x.instance_addon x.sys.world ≡ none)
        × IsDone quick_env install x.instance_addon.spec.lifecycle.install x)
      (ap state_of ran)
      (
        refl,
        inr (
          (λ e. ground (arith, eq_iff "web-install-40004-wf" "")),
          (_, finished, refl, refl, refl),
        ),
      )

process_addon_succeeds_example :
    (r' : Run Addon) × (process_addon quick_env (run_of waiting []) ≡ returned no_requeue none r')
    × (installed_of r' ≡ succeeded)
    × (prereqs_of r' ≡ succeeded)
unfolding observe_resources calculate_checksum hex adler32 hex_digit observe_replica_set
    observe_daemon_set observe_deployment observe_stateful_set observe_cron_job observe_job
    observe_service collect
process_addon_succeeds_example =
    process_addon_succeeds quick_env (run_of waiting []) refl begun-IsOpen (inr (refl, inl refl))
      begun-InstallDone (λ a w. ([], refl))
