-- ===== src/Controller/Frame.antt =====
-- controllers/addon_controller.go: what a run of `processAddon` leaves alone.
use addon_manager.Workflows.Effects.{install_workflow-memory}
use addon_manager.Common.{
  String, ◌≡◌, refl, ◌∙◌, inl, inr, Option, none, some, List, [], ◌∷◌, ◌==◌, Bool-cases,
  Option-cases, Error, Result, ok, err, panic, Reply, found, failure, Reply-cases, has_prefix, sym,
  ap,
}
use addon_manager.Api.Phase.{
  Phase, unset, LifecycleStep, prereqs, install, is_completed, is_succeeded, is_failed, is_running,
}
use addon_manager.Api.Spec.{WorkflowType, ObjectStatus}
use addon_manager.Api.Addon.{get_workflow_type, get_formatted_workflow_name}
use addon_manager.VersionCache.{Cache}
use addon_manager.Validator.Dependencies.{err_dep_pending, err_dep_not_installed}
use addon_manager.Helpers.{convert_workflow_phase_to_addon_phase, is_expired}
use addon_manager.Cluster.{Workflow, Ended, ended, state_of, Sys, unwound, memory_of, Memory}
use addon_manager.Controller.Types.{Env, Run, finalizer_name, ttl}
use addon_manager.Controller.Workflow.{
  mark_phase, sync_phase, step_completed, submitted, run_template, run_workflow, validate_secrets,
  run_install, secrets_failed, install_phase, after_prereqs, execute_prereq_and_install,
}
use addon_manager.Controller.Observe.{observe_resources, share_labels}
use addon_manager.Controller.Process.{
  Processed, returned, panicked, validate_checksum, with_checksum, delete_old_workflows,
  set_finalizer, process_changed, wait_pending, wait_installed, not_valid, process_invalid,
  process_observed, process_executed, process_expired, process_install, process_finalizer,
  process_validated, process_unchanged, process_addon,
}

-- The version cache at the end of `processAddon`.
abbrev pub cache_after : {W : Type 0} → Processed W → Cache
cache_after (returned result e r) = r.sys.cache
cache_after (panicked message r) = r.sys.cache

abbrev pub memory_after : {W : Type 0} → Processed W → Memory
memory_after (returned result e r) = memory_of r.sys
memory_after (panicked message r) = memory_of r.sys

memory_after-cache : {W : Type 0} (p : Processed W) → (memory_after p).0 ≡ cache_after p
memory_after-cache (returned result e r) = refl
memory_after-cache (panicked message r) = refl

module _ {W V F : Type 0} (env : Env W V F) where
  mark_phase-memory :
      (step : LifecycleStep) (p : Phase) (r : Run W)
      → memory_of (mark_phase step p r).sys ≡ memory_of r.sys
  mark_phase-memory step unset r = refl
  mark_phase-memory step p r = refl

  sync_phase-memory :
      (step : LifecycleStep) (answer : Reply Workflow) (r : Run W)
      → memory_of (sync_phase step answer r).sys ≡ memory_of r.sys
  sync_phase-memory step (failure e) r = refl
  sync_phase-memory step (found wf) r =
      mark_phase-memory step (convert_workflow_phase_to_addon_phase step wf.phase) r

  submitted-memory :
      (step : LifecycleStep) (name : String) (answer : Ended (Sys W)) (r : Run W)
      → memory_of (state_of (submitted env step name answer r)).sys ≡ memory_of (state_of answer)
  unfolding submitted
  submitted-memory step name (unwound text s) r = refl
  submitted-memory step name (ended (some e) s) r = refl
  submitted-memory step name (ended none s) r = sync_phase-memory step _ _

  run_template-memory :
      (step : LifecycleStep) (wt : WorkflowType) (r : Run W)
      → memory_of (state_of (run_template env step wt r)).sys ≡ memory_of r.sys
  unfolding run_template
  run_template-memory step wt r = elim (Bool-cases (wt.template == "")) [
    | inl empty ↦ rw (empty, run_template) refl
    | inr given ↦
        elim (Bool-cases (get_formatted_workflow_name env.spec_bytes r.instance_addon step == "")) [
          | inl unnamed ↦ rw (given, unnamed, run_template) refl
          | inr named ↦
              rw (given, named, run_template)
                (submitted-memory step _ _ r
                  ∙ install_workflow-memory env.docs env.objects env.client r.instance_addon _ wt
                      r.sys)
        ]
  ]

  pub run_workflow-memory :
      (step : LifecycleStep) (r : Run W)
      → memory_of (state_of (run_workflow env step r)).sys ≡ memory_of r.sys
  unfolding run_workflow
  run_workflow-memory step r = elim (Bool-cases (step_completed step r.instance_addon)) [
    | inl done ↦ rw (done, run_workflow) refl
    | inr due ↦ elim (Reply-cases (get_workflow_type r.instance_addon step)) [
      | inl (wt, known) ↦ rw (due, known, run_workflow) (run_template-memory step wt r)
      | inr (e, bad) ↦ rw (due, bad, run_workflow) refl
    ]
  ]

  run_install-memory :
      (p : Ended (Run W))
      → memory_of (state_of (run_install env p)).sys ≡ memory_of (state_of p).sys
  unfolding run_install
  run_install-memory (unwound text r) = refl
  run_install-memory (ended none r) = refl
  run_install-memory (ended (some e) r) = refl

  install_phase-memory :
      (r : Run W) → memory_of (state_of (install_phase env r)).sys ≡ memory_of r.sys
  unfolding install_phase secrets_failed
  install_phase-memory r = elim (Option-cases (validate_secrets env r.instance_addon r.sys.world)) [
    | inl there ↦
        rw (there, install_phase)
          (run_install-memory (run_workflow env install r) ∙ run_workflow-memory install r)
    | inr (e, missing) ↦ rw (missing, install_phase) refl
  ]

  after_prereqs-memory :
      (p : Ended (Run W))
      → memory_of (state_of (after_prereqs env p)).sys ≡ memory_of (state_of p).sys
  unfolding after_prereqs
  after_prereqs-memory (unwound text r) = refl
  after_prereqs-memory (ended (some e) r) = refl
  after_prereqs-memory (ended none r) =
      elim (Bool-cases (is_succeeded r.instance_addon.status.lifecycle.prereqs)) [
        | inl done ↦ rw (done, after_prereqs) (install_phase-memory r)
        | inr waits ↦ elim (Bool-cases (is_failed r.instance_addon.status.lifecycle.prereqs)) [
          | inl bad ↦ rw (waits, bad, after_prereqs) refl
          | inr open_still ↦ rw (waits, open_still, after_prereqs) refl
        ]
      ]

  execute-memory :
      (r : Run W) → memory_of (state_of (execute_prereq_and_install env r)).sys ≡ memory_of r.sys
  unfolding execute_prereq_and_install
  execute-memory r =
      after_prereqs-memory (run_workflow env prereqs r) ∙ run_workflow-memory prereqs r

  set_finalizer-memory : (r : Run W) → memory_of (set_finalizer env r).1.sys ≡ memory_of r.sys
  unfolding set_finalizer
  set_finalizer-memory r = elim (Option-cases r.instance_addon.deletion_timestamp) [
    | inr (t, leaves) ↦ rw (leaves, set_finalizer) refl
    | inl stays ↦ elim (Bool-cases (env.kube.contains_finalizer r.instance_addon finalizer_name)) [
      | inl there ↦ rw (stays, there, set_finalizer) refl
      | inr missing ↦
          let a = env.kube.add_finalizer r.instance_addon finalizer_name in
          elim (Reply-cases (env.kube.update_addon a r.sys.world).0) [
            | inl (stored, done) ↦ rw (stays, missing, done, set_finalizer) refl
            | inr (e, bad) ↦ rw (stays, missing, bad, set_finalizer) refl
          ]
    ]
  ]

  process_observed-memory :
      (answer : Reply (List ObjectStatus)) (r : Run W)
      → memory_after (process_observed env answer r) ≡ memory_of r.sys
  unfolding process_observed
  process_observed-memory (failure e) r = refl
  process_observed-memory (found []) r =
      elim (Bool-cases (is_running r.instance_addon.status.lifecycle.installed)) [
        | inl runs ↦ rw (runs, process_observed) refl
        | inr ends ↦ rw (ends, process_observed) refl
      ]
  process_observed-memory (found (o ∷ os)) r =
      elim (Bool-cases (is_running r.instance_addon.status.lifecycle.installed)) [
        | inl runs ↦ rw (runs, process_observed) refl
        | inr ends ↦ rw (ends, process_observed) refl
      ]

  process_executed-memory :
      (p : Ended (Run W)) → memory_after (process_executed env p) ≡ memory_of (state_of p).sys
  unfolding process_executed
  process_executed-memory (unwound text r) = refl
  process_executed-memory (ended (some e) r) = refl
  process_executed-memory (ended none r) =
      process_observed-memory (observe_resources env.kube r.instance_addon r.sys.world)
        (record r { instance_addon = share_labels r.instance_addon })

  process_install-memory : (r : Run W) → memory_after (process_install env r) ≡ memory_of r.sys
  unfolding process_install process_expired
  process_install-memory r =
      elim (Bool-cases (is_completed r.instance_addon.status.lifecycle.installed)) [
        | inl done ↦ rw (done, process_install) (process_executed-memory (ended none r))
        | inr due ↦ elim (Bool-cases (is_expired env.now r.instance_addon.status.start_time ttl)) [
          | inl late ↦ rw (due, late, process_install) refl
          | inr early ↦
              rw (due, early, process_install)
                (process_executed-memory (execute_prereq_and_install env r) ∙ execute-memory r)
        ]
      ]

  process_finalizer-memory :
      (p : Option Error × Run W) → memory_after (process_finalizer env p) ≡ memory_of p.1.sys
  unfolding process_finalizer
  process_finalizer-memory (some e, r) = refl
  process_finalizer-memory (none, r) = process_install-memory r

  process_invalid-memory :
      (e : Error) (r : Run W) → memory_after (process_invalid env e r) ≡ memory_of r.sys
  unfolding process_invalid wait_pending wait_installed not_valid
  process_invalid-memory e r = elim (Bool-cases (has_prefix e.text err_dep_pending)) [
    | inl waits ↦ rw (waits, process_invalid) refl
    | inr other ↦ elim (Bool-cases (has_prefix e.text err_dep_not_installed)) [
      | inl missing ↦ rw (other, missing, process_invalid) refl
      | inr bad ↦ rw (other, bad, process_invalid) refl
    ]
  ]

  process_validated-memory :
      (verdict : Result (Unit {0})) (r : Run W)
      → memory_after (process_validated env verdict r) ≡ memory_of r.sys
  unfolding process_validated
  process_validated-memory (ok x) r =
      process_finalizer-memory (set_finalizer env _) ∙ set_finalizer-memory _
  process_validated-memory (err e) r = process_invalid-memory e r
  process_validated-memory (panic s) r = refl

  process_unchanged-memory : (r : Run W) → memory_after (process_unchanged env r) ≡ memory_of r.sys
  unfolding process_unchanged
  process_unchanged-memory r =
      elim (Bool-cases (is_completed r.instance_addon.status.lifecycle.installed)) [
        | inl done ↦ rw (done, process_unchanged) refl
        | inr due ↦ rw (due, process_unchanged) (process_validated-memory _ r)
      ]

  process_changed-memory :
      (answer : Option Error × W) (r : Run W)
      → memory_after (process_changed env answer r) ≡ memory_of r.sys
  unfolding process_changed
  process_changed-memory (none, w) r = refl
  process_changed-memory (some e, w) r = refl

  pub process_addon-memory : (r : Run W) → memory_after (process_addon env r) ≡ memory_of r.sys
  unfolding process_addon
  process_addon-memory r =
      let (changed, checksum) = validate_checksum env r.instance_addon in
      let r' = with_checksum checksum r in
      elim (Bool-cases changed) [
        | inl new ↦
            rw (new, process_addon)
              (process_changed-memory (delete_old_workflows env r'.instance_addon r'.sys.world) r')
        | inr same ↦ rw (same, process_addon) (process_unchanged-memory r')
      ]

  -- `processAddon` never touches the version cache, on any branch, errors and panics included: only
  -- a status that has been written, or a removal, changes what other addons see of this one.
  process_addon_keeps_cache : (r : Run W) → cache_after (process_addon env r) ≡ r.sys.cache
  process_addon_keeps_cache r =
      sym (memory_after-cache (process_addon env r))
      ∙ ap (λ (m : Memory). m.0) (process_addon-memory r)
