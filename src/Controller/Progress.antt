-- ===== src/Controller/Progress.antt =====
-- controllers/addon_controller.go: the reconcile in which an addon comes to be installed.
use addon_manager.Common.{
  String, ◌≡◌, refl, sym, ap, ◌∙◌, ◌≢◌, ◌⊎◌, inl, inr, Bool, true, false, none, List, [], ◌∷◌, ◌==◌,
  arith, if◌then◌else◌, eq_iff, Bool-cases, Reply, found,
}
use addon_manager.Api.Addon.{
  Addon, calculate_checksum, get_formatted_workflow_name, get_workflow_type,
}
use addon_manager.Api.Phase.{
  LifecycleStep, Phase, succeeded, prereqs, install, is_completed, is_running, is_succeeded,
}
use addon_manager.Api.Spec.{AddonStatus, ObjectStatus, WorkflowType}
use addon_manager.Api.Status.{
  set_install_status, set_prereq_and_install_statuses, set_status_by_lifecycle_step,
}
use addon_manager.Cluster.{Sys, Workflow, ended}
use addon_manager.Controller.Observe.{observe_resources, share_labels}
use addon_manager.Controller.Open.{IsOpen, announced, open_installs}
use addon_manager.Controller.Process.{
  process_addon, process_executed, process_install, process_observed, returned, validate_checksum,
  with_checksum,
}
use addon_manager.Controller.Types.{Env, Run, mark, no_requeue}
use addon_manager.Controller.Workflow.{
  after_prereqs, execute_prereq_and_install, install_phase, mark_phase, run_install, run_template,
  run_workflow, step_completed, submitted, sync_phase, validate_secrets,
}
use addon_manager.Helpers.{convert_workflow_phase_to_addon_phase, workflow_succeeded, WorkflowPhase}
use addon_manager.Workflows.Install.{install_workflow}

-- Both phases of the instance.
abbrev pub installed_of : {W : Type 0} → Run W → Phase
installed_of r = r.instance_addon.status.lifecycle.installed

abbrev pub prereqs_of : {W : Type 0} → Run W → Phase
prereqs_of r = r.instance_addon.status.lifecycle.prereqs

if_status : (b : Bool) (x y : Addon) → x.status ≡ y.status → (if b then x else y).status ≡ x.status
if_status true x y same = refl
if_status false x y same = sym same

share_labels-status : (a : Addon) → (share_labels a).status ≡ a.status
unfolding share_labels
share_labels-status a = if_status _ a _ refl

module _ {W V F : Type 0} (env : Env W V F) where
  -- The step has nothing to run, or its workflow is taken by the API server, which reports it as
  -- succeeded.
  abbrev pub IsDone : LifecycleStep → WorkflowType → Run W → Type 0
  IsDone step wt r =
      let name = get_formatted_workflow_name env.spec_bytes r.instance_addon step in
      (wt.template ≡ "")
      ⊎ ((name ≢ "")
          × ((s : Sys W) × (wf : Workflow) × (install_workflow env.docs env.objects env.client
                  r.instance_addon name wt r.sys
                ≡ ended none s)
              × (env.kube.get_workflow
                    (record { namespace = r.instance_addon.namespace; name = name }) s.world
                  ≡ found wf)
              × (wf.phase ≡ workflow_succeeded)))

  sync_phase_done :
      (step : LifecycleStep) (q : Reply Workflow) (wf : Workflow) (x : Run W)
      → convert_workflow_phase_to_addon_phase step workflow_succeeded ≡ succeeded
      → q ≡ found wf
      → wf.phase ≡ workflow_succeeded
      → (sync_phase step q x).instance_addon ≡ (mark step succeeded x).instance_addon
  sync_phase_done step q wf x plain got done = rw got (
      ap
        (λ (p : WorkflowPhase).
          (mark_phase step (convert_workflow_phase_to_addon_phase step p) x).instance_addon)
        done
      ∙ ap (λ (p : Phase). (mark_phase step p x).instance_addon) plain)

  submitted_done :
      (step : LifecycleStep) (name : String) (s : Sys W) (wf : Workflow) (r : Run W)
      → convert_workflow_phase_to_addon_phase step workflow_succeeded ≡ succeeded
      → env.kube.get_workflow
          (record { namespace = r.instance_addon.namespace; name = name })
          s.world
        ≡ found wf
      → wf.phase ≡ workflow_succeeded
      → (r' : Run W) × (submitted env step name (ended none s) r ≡ ended none r')
        × (r'.instance_addon ≡ (mark step succeeded r).instance_addon)
  unfolding submitted
  submitted_done step name s wf r plain got done =
      (_, refl, sync_phase_done step _ wf _ plain got done)

  -- Such a step leaves its success on the instance.
  run_template_done :
      (step : LifecycleStep) (wt : WorkflowType) (r : Run W)
      → convert_workflow_phase_to_addon_phase step workflow_succeeded ≡ succeeded
      → IsDone step wt r
      → (r' : Run W) × (run_template env step wt r ≡ ended none r')
        × (r'.instance_addon ≡ (mark step succeeded r).instance_addon)
  unfolding run_template
  run_template_done step wt r plain (inl empty) =
      let none_given : (wt.template == "") ≡ true = (eq_iff wt.template "").1 empty in
      (mark step succeeded r, rw (none_given, run_template) refl, refl)
  run_template_done step wt r plain (inr (named, (s, wf, sent, got, done))) =
      let name = get_formatted_workflow_name env.spec_bytes r.instance_addon step in
      elim (Bool-cases (wt.template == "")) [
        | inl empty ↦ (mark step succeeded r, rw (empty, run_template) refl, refl)
        | inr given ↦
            let unnamed : (name == "") ≡ false = ground (arith, eq_iff name "", named) in
            let (r', ran, left) = submitted_done step name s wf r plain got done in
            (r', rw (given, unnamed, run_template) (rw sent ran), left)
      ]

  run_workflow_done :
      (step : LifecycleStep) (wt : WorkflowType) (r : Run W)
      → convert_workflow_phase_to_addon_phase step workflow_succeeded ≡ succeeded
      → step_completed step r.instance_addon ≡ false
      → get_workflow_type r.instance_addon step ≡ found wt
      → IsDone step wt r
      → (r' : Run W) × (run_workflow env step r ≡ ended none r')
        × (r'.instance_addon ≡ (mark step succeeded r).instance_addon)
  unfolding run_workflow
  run_workflow_done step wt r plain open_still given done =
      let (r', ran, left) = run_template_done step wt r plain done in
      (r', rw (open_still, given, run_workflow) ran, left)

  -- The prerequisites have succeeded already, or they are done by this reconcile.
  abbrev pub PrereqsDone : Run W → Type 0
  PrereqsDone r =
      (prereqs_of r ≡ succeeded)
      ⊎ ((is_completed (prereqs_of r) ≡ false)
          × IsDone prereqs r.instance_addon.spec.lifecycle.prereqs r)

  -- After the prerequisites the secrets are there, and the installation is done.
  abbrev pub InstallDone : Run W → Type 0
  InstallDone r =
      (r1 : Run W)
      → run_workflow env prereqs r ≡ ended none r1
      → (validate_secrets env r1.instance_addon r1.sys.world ≡ none)
        × IsDone install r1.instance_addon.spec.lifecycle.install r1

  prereqs_done :
      (r : Run W)
      → is_completed (installed_of r) ≡ false
      → PrereqsDone r
      → (r1 : Run W) × (run_workflow env prereqs r ≡ ended none r1)
        × (prereqs_of r1 ≡ succeeded)
        × (is_completed (installed_of r1) ≡ false)
  unfolding run_workflow step_completed get_workflow_type convert_workflow_phase_to_addon_phase
      set_status_by_lifecycle_step set_prereq_and_install_statuses set_install_status
  prereqs_done r open_still (inl already) =
      let completed : is_completed (prereqs_of r) ≡ true = ap is_completed already in
      (r, rw (completed, run_workflow) refl, already, open_still)
  prereqs_done r open_still (inr (waiting, done)) =
      let (r1, ran, left) =
        run_workflow_done prereqs r.instance_addon.spec.lifecycle.prereqs r refl waiting refl
          done in
      (
        r1,
        ran,
        ap (λ (x : Addon). x.status.lifecycle.prereqs) left,
        ap (λ (x : Addon). is_completed x.status.lifecycle.installed) left,
      )

  install_phase_done :
      (r1 : Run W)
      → prereqs_of r1 ≡ succeeded
      → is_completed (installed_of r1) ≡ false
      → validate_secrets env r1.instance_addon r1.sys.world ≡ none
      → IsDone install r1.instance_addon.spec.lifecycle.install r1
      → (r2 : Run W) × (install_phase env r1 ≡ ended none r2)
        × (installed_of r2 ≡ succeeded)
        × (prereqs_of r2 ≡ succeeded)
  unfolding install_phase run_install step_completed get_workflow_type
      convert_workflow_phase_to_addon_phase set_status_by_lifecycle_step set_install_status
  install_phase_done r1 done open_still secrets installs =
      let (r2, ran, left) =
        run_workflow_done install r1.instance_addon.spec.lifecycle.install r1 refl open_still refl
          installs in
      (
        r2,
        rw (secrets, ran, install_phase) refl,
        ap (λ (x : Addon). x.status.lifecycle.installed) left,
        ap (λ (x : Addon). x.status.lifecycle.prereqs) left ∙ done,
      )

  execute_done :
      (r : Run W)
      → is_completed (installed_of r) ≡ false
      → PrereqsDone r
      → InstallDone r
      → (r2 : Run W) × (execute_prereq_and_install env r ≡ ended none r2)
        × (installed_of r2 ≡ succeeded)
        × (prereqs_of r2 ≡ succeeded)
  unfolding execute_prereq_and_install after_prereqs
  execute_done r open_still first second =
      let (r1, ran, done, open_again) = prereqs_done r open_still first in
      let (secrets, installs) = second r1 ran in
      let (r2, installed, a, b) = install_phase_done r1 done open_again secrets installs in
      let ok_prereqs : is_succeeded (prereqs_of r1) ≡ true = ap is_succeeded done in
      (r2, rw (ran, ok_prereqs, after_prereqs) installed, a, b)

  observed_done :
      (observed : List ObjectStatus) (r : Run W)
      → installed_of r ≡ succeeded
      → prereqs_of r ≡ succeeded
      → (r' : Run W) × (process_observed env (found observed) r ≡ returned no_requeue none r')
        × (installed_of r' ≡ succeeded)
        × (prereqs_of r' ≡ succeeded)
  unfolding process_observed
  observed_done [] r a b =
      let rests : is_running (installed_of r) ≡ false = ap is_running a in
      (r, rw (rests, process_observed) refl, a, b)
  observed_done (o ∷ os) r a b =
      let rests : is_running (installed_of r) ≡ false = ap is_running a in
      let listed = record r {
        instance_addon = record r.instance_addon {
          status = record r.instance_addon.status { resources = o ∷ os };
        };
      } in
      (listed, rw (rests, process_observed) refl, a, b)

  -- In a reconcile of an addon that is open to be installed, whose workflows the API server takes and
  -- reports as succeeded, or has reported before, and whose secrets and resources can be listed,
  -- `processAddon` returns no error and asks for no other call, and both phases are Succeeded.
  pub process_addon_succeeds :
      (r : Run W)
      → r.instance_addon.status.checksum ≡ calculate_checksum env.spec_bytes r.instance_addon
      → let begun = with_checksum (calculate_checksum env.spec_bytes r.instance_addon) r in
        IsOpen env begun
        → PrereqsDone (announced begun)
        → InstallDone (announced begun)
        → ((a : Addon) (w : W)
            → (observed : List ObjectStatus) × (observe_resources env.kube a w ≡ found observed))
        → (r' : Run W) × (process_addon env r ≡ returned no_requeue none r')
          × (installed_of r' ≡ succeeded)
          × (prereqs_of r' ≡ succeeded)
  unfolding process_addon validate_checksum process_install process_executed
  process_addon_succeeds r same opened first second lists =
      let sum = calculate_checksum env.spec_bytes r.instance_addon in
      let begun = with_checksum sum r in
      let equal : (r.instance_addon.status.checksum == sum) ≡ true = (eq_iff _ sum).1 same in
      let (r2, ran, a, b) = execute_done (announced begun) opened.open_still first second in
      let (observed, listed) = lists r2.instance_addon r2.sys.world in
      let left = record r2 { instance_addon = share_labels r2.instance_addon } in
      let status = share_labels-status r2.instance_addon in
      let (r', ends, a', b') =
        observed_done observed left (ap (λ (x : AddonStatus). x.lifecycle.installed) status ∙ a)
          (ap (λ (x : AddonStatus). x.lifecycle.prereqs) status ∙ b) in
      (
        r',
        rw (equal, process_addon)
            (open_installs env begun opened
              ∙ rw (opened.open_still, opened.in_time, process_install)
                  (rw ran (rw (listed, process_executed) ends))),
        a',
        b',
      )
