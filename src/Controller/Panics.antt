-- ===== src/Controller/Panics.antt =====
-- controllers/addon_controller.go: how a panic below `processAddon` ends.
use addon_manager.Common.{String, ◌≡◌, refl, sym, ap, ◌∙◌, true, false, none, [], ◌==◌, eq_iff, ok}
use addon_manager.Api.Addon.{calculate_checksum, get_formatted_workflow_name, get_workflow_type}
use addon_manager.Api.Phase.{prereqs as prereqs_step}
use addon_manager.Api.Phase.{is_completed}
use addon_manager.Cluster.{unwound}
use addon_manager.Controller.Finalize.{after_process, exec_addon}
use addon_manager.Controller.Open.{IsOpen, announced, open_installs}
use addon_manager.Controller.Process.{
  process_addon, process_executed, process_install, process_unchanged, validate_checksum,
  with_checksum, panicked,
}
use addon_manager.Controller.Types.{Env, Run, finalizer_name, no_requeue, ttl}
use addon_manager.Controller.Workflow.{
  after_prereqs, execute_prereq_and_install, run_template, run_workflow, step_completed, submitted,
}
use addon_manager.Document.{Fields, get_field}
use addon_manager.Helpers.{is_expired}
use addon_manager.Validator.{validate}
use addon_manager.Workflows.Effects.{install_workflow_panics}
use addon_manager.Workflows.Install.{parse}
use addon_manager.Workflows.Parameters.{nil_map_text, spec_map}

module _ {W V F : Type 0} (env : Env W V F) where
  -- What holds of an instance whose prerequisites are to be submitted by the reconcile in hand.
  pub record IsDue (r : Run W) : Type 0 where
    pub live : r.instance_addon.deletion_timestamp ≡ none
    pub same : r.instance_addon.status.checksum ≡ calculate_checksum env.spec_bytes r.instance_addon
    pub open_still : is_completed r.instance_addon.status.lifecycle.installed ≡ false
    pub valid :
        validate env.semver env.docs env.spec_bytes env.order r.sys.cache r.instance_addon ≡ ok tt
    pub kept : env.kube.contains_finalizer r.instance_addon finalizer_name ≡ true
    pub in_time : is_expired env.now r.instance_addon.status.start_time ttl ≡ false
    pub pending_still : is_completed r.instance_addon.status.lifecycle.prereqs ≡ false
    pub given : (r.instance_addon.spec.lifecycle.prereqs.template == "") ≡ false
    pub named :
        (get_formatted_workflow_name env.spec_bytes r.instance_addon prereqs_step == "") ≡ false

  with_checksum_same :
      (sum : String) (r : Run W)
      → r.instance_addon.status.checksum ≡ sum
      → r.instance_addon.status.resources ≡ []
      → with_checksum sum r ≡ r
  with_checksum_same sum r same fresh = λ i. record r {
    instance_addon = record r.instance_addon {
      status = record r.instance_addon.status { checksum = sym same i; resources = sym fresh i };
    };
  }

  -- The submission of the prerequisites panics.
  run_workflow_panics :
      (r : Run W) (m : Fields)
      → is_completed r.instance_addon.status.lifecycle.prereqs ≡ false
      → (r.instance_addon.spec.lifecycle.prereqs.template == "") ≡ false
      → (get_formatted_workflow_name env.spec_bytes r.instance_addon prereqs_step == "") ≡ false
      → parse env.docs env.objects r.instance_addon r.instance_addon.spec.lifecycle.prereqs.template
          (get_formatted_workflow_name env.spec_bytes r.instance_addon prereqs_step)
        ≡ ok m
      → spec_map (get_field "spec" m) ≡ none
      → run_workflow env prereqs_step r ≡ unwound nil_map_text r
  unfolding run_workflow run_template step_completed get_workflow_type submitted
  run_workflow_panics r m pending_still given named parsed no_spec =
      let sent =
        install_workflow_panics env.docs env.objects env.client r.instance_addon
          (get_formatted_workflow_name env.spec_bytes r.instance_addon prereqs_step)
          r.instance_addon.spec.lifecycle.prereqs r.sys m parsed no_spec in
      rw (pending_still, run_workflow) (rw (given, named, run_template) (rw (sent, submitted) refl))

  pub unchanged_same :
      (r : Run W)
      → r.instance_addon.status.checksum ≡ calculate_checksum env.spec_bytes r.instance_addon
      → r.instance_addon.status.resources ≡ []
      → process_addon env r ≡ process_unchanged env r
  unfolding process_addon validate_checksum
  unchanged_same r same fresh =
      let sum = calculate_checksum env.spec_bytes r.instance_addon in
      let equal : (r.instance_addon.status.checksum == sum) ≡ true = (eq_iff _ sum).1 same in
      rw (equal, process_addon) (ap (process_unchanged env) (with_checksum_same sum r same fresh))

  IsDue-IsOpen : (r : Run W) → IsDue r → IsOpen env r
  IsDue-IsOpen r due = record {
    live = due.live;
    open_still = due.open_still;
    valid = due.valid;
    kept = due.kept;
    in_time = due.in_time;
  }

  install_panics :
      (r : Run W)
      → IsDue r
      → run_workflow env prereqs_step (announced r) ≡ unwound nil_map_text (announced r)
      → process_install env (announced r) ≡ panicked nil_map_text (announced r)
  unfolding process_install execute_prereq_and_install after_prereqs process_executed
  install_panics r due ran =
      rw (due.open_still, process_install)
        (rw (due.in_time, process_install) (rw (ran, after_prereqs) refl))

  -- A prerequisites template whose `spec` is there but is no map panics in the submission, and the
  -- panic is lost: the reconcile of an instance that is due, with no resources in its status,
  -- returns neither an error nor a requeue, and it writes nothing to the cluster; all that is left
  -- of it is the event that the addon is valid.
  pub exec_addon_loses_panic :
      (r : Run W) (m : Fields)
      → r.instance_addon.status.resources ≡ []
      → IsDue r
      → parse env.docs env.objects r.instance_addon r.instance_addon.spec.lifecycle.prereqs.template
          (get_formatted_workflow_name env.spec_bytes r.instance_addon prereqs_step)
        ≡ ok m
      → spec_map (get_field "spec" m) ≡ none
      → exec_addon env r ≡ (no_requeue, none, (announced r).sys)
  unfolding exec_addon after_process
  exec_addon_loses_panic r m fresh due parsed no_spec =
      let ran =
        run_workflow_panics (announced r) m due.pending_still due.given due.named parsed no_spec in
      let ends =
        unchanged_same r due.same fresh
        ∙ open_installs env r (IsDue-IsOpen r due)
        ∙ install_panics r due ran in
      rw (due.live, exec_addon) (rw (ends, after_process) refl)
