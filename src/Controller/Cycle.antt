-- ===== src/Controller/Cycle.antt =====
-- controllers/addon_controller.go: an addon's install cycle, from a changed spec to its end.
use addon_manager.Cluster.{Ended, ended, unwound, state_of}
use addon_manager.Common.{
  ◌≡◌, refl, ◌≢◌, ◌⊎◌, inl, inr, true, false, none, some, [], ◌==◌, eq_iff, Bool-cases, Error, err,
  has_prefix,
}
use addon_manager.Api.Phase.{
  Phase, pending, validation_failed, is_completed, is_succeeded, is_failed, delete,
}
use addon_manager.Api.Phase.{prereqs as prereqs_step}
use addon_manager.Api.Addon.{calculate_checksum}
use addon_manager.Api.Status.{set_prereq_and_install_statuses, set_install_status, clear_status}
use addon_manager.Validator.{validate}
use addon_manager.Validator.Dependencies.{err_dep_pending, err_dep_not_installed}
use addon_manager.Validator.Messages.{DepPending}
use addon_manager.Validator.Verdict.{validate_pending}
use addon_manager.Controller.Types.{Env, Run}
use addon_manager.Controller.Workflow.{run_workflow, after_prereqs, execute_prereq_and_install}
use addon_manager.Controller.Process.{
  Processed, returned, panicked, restart, with_checksum, validate_checksum, delete_old_workflows,
  process_changed, process_unchanged, process_addon, process_invalid, wait_pending, wait_installed,
  not_valid, process_validated,
}
use addon_manager.Controller.Finalize.{finalize, after_delete, drop_finalizer}

-- What `processAddon` leaves.
abbrev pub run_after : {W : Type 0} → Processed W → Run W
run_after (returned result e r') = r'
run_after (panicked message r') = r'

-- The install phase that `processAddon` leaves on the instance.
abbrev pub installed_after : {W : Type 0} → Processed W → Phase
installed_after (returned result e r') = r'.instance_addon.status.lifecycle.installed
installed_after (panicked message r') = r'.instance_addon.status.lifecycle.installed

module _ {W V F : Type 0} (env : Env W V F) (r : Run W) where
  -- A changed spec begins a new cycle: once the old workflows are deleted, both phases are Pending,
  -- the reason and the resources are empty, the clock of the time limit starts, the new checksum is
  -- kept, and the addon is requeued without an error.
  pub process_addon_changed :
      (w : W)
      → let a = r.instance_addon in
        let sum = calculate_checksum env.spec_bytes a in
        a.status.checksum ≢ sum
        → delete_old_workflows env (with_checksum sum r).instance_addon r.sys.world ≡ (none, w)
        → process_addon env r
          ≡ returned
              (record { requeue = true; requeue_after = 0 })
              none
              (record {
                instance_addon = record a {
                  status = record {
                    checksum = sum;
                    lifecycle = record { prereqs = pending; installed = pending };
                    resources = [];
                    reason = "";
                    start_time = env.now;
                  };
                };
                sys = record r.sys { world = w };
              })
  unfolding process_addon validate_checksum process_changed restart set_prereq_and_install_statuses
      clear_status
  process_addon_changed w changed deleted =
      let a = r.instance_addon in
      let sum = calculate_checksum env.spec_bytes a in
      elim (Bool-cases (a.status.checksum == sum)) [
        | inl same ↦ absurd (changed ((eq_iff a.status.checksum sum).0 same))
        | inr differs ↦ rw (differs, deleted, process_changed) refl
      ]

  after_prereqs-world :
      (p : Ended (Run W))
      → is_succeeded (state_of p).instance_addon.status.lifecycle.prereqs ≡ false
      → (state_of (after_prereqs env p)).sys.world ≡ (state_of p).sys.world
  unfolding after_prereqs
  after_prereqs-world (unwound text r') waits = refl
  after_prereqs-world (ended (some e) r') waits = refl
  after_prereqs-world (ended none r') waits =
      elim (Bool-cases (is_failed r'.instance_addon.status.lifecycle.prereqs)) [
        | inl bad ↦ rw (waits, bad, after_prereqs) refl
        | inr open_still ↦ rw (waits, open_still, after_prereqs) refl
      ]

  after_delete_waits :
      (p : Ended (Run W))
      → is_succeeded (state_of p).instance_addon.status.lifecycle.installed ≡ false
      → ((state_of (after_delete env p)).sys.world ≡ (state_of p).sys.world)
        × ((state_of (after_delete env p)).instance_addon ≡ (state_of p).instance_addon)
  unfolding after_delete drop_finalizer
  after_delete_waits (unwound text r') waits = (refl, refl)
  after_delete_waits (ended (some e) r') waits = (refl, refl)
  after_delete_waits (ended none r') waits = rw (waits, after_delete, drop_finalizer) (refl, refl)

  -- Unless the prerequisites have succeeded, `executePrereqAndInstall` leaves the cluster as their
  -- workflow left it: nothing is installed.
  pub install_waits_for_prereqs :
      let ran = state_of (run_workflow env prereqs_step r) in
      is_succeeded ran.instance_addon.status.lifecycle.prereqs ≡ false
      → (state_of (execute_prereq_and_install env r)).sys.world ≡ ran.sys.world
  unfolding execute_prereq_and_install
  install_waits_for_prereqs waits = after_prereqs-world (run_workflow env prereqs_step r) waits

  -- While a delete workflow has not succeeded, `Finalize` keeps the finalizer: the cluster and the
  -- instance are as the run of that workflow left them.
  pub finalize_waits_for_delete :
      let ran = state_of (run_workflow env delete r) in
      r.instance_addon.spec.lifecycle.delete.template ≢ ""
      → is_succeeded ran.instance_addon.status.lifecycle.installed ≡ false
      → ((state_of (finalize env r)).sys.world ≡ ran.sys.world)
        × ((state_of (finalize env r)).instance_addon ≡ ran.instance_addon)
  unfolding finalize
  finalize_waits_for_delete given waits =
      elim (Bool-cases (r.instance_addon.spec.lifecycle.delete.template == "")) [
        | inl empty ↦ absurd (given ((eq_iff _ _).0 empty))
        | inr some_template ↦
            rw (some_template, finalize) (after_delete_waits (run_workflow env delete r) waits)
      ]

  process_invalid-world :
      (e : Error) → (run_after (process_invalid env e r)).sys.world ≡ r.sys.world
  unfolding process_invalid wait_pending wait_installed not_valid
  process_invalid-world e = elim (Bool-cases (has_prefix e.text err_dep_pending)) [
    | inl waits ↦ rw (waits, process_invalid) refl
    | inr other ↦ elim (Bool-cases (has_prefix e.text err_dep_not_installed)) [
      | inl missing ↦ rw (other, missing, process_invalid) refl
      | inr bad ↦ rw (other, bad, process_invalid) refl
    ]
  ]

  -- An addon that is not valid is set to Pending only if a version in the cache is in phase Pending;
  -- otherwise to Validation Failed.
  pub process_invalid_phase :
      (e : Error)
      → validate env.semver env.docs env.spec_bytes env.order r.sys.cache r.instance_addon ≡ err e
      → ((installed_after (process_invalid env e r) ≡ pending) × DepPending env.semver r.sys.cache)
        ⊎ (installed_after (process_invalid env e r) ≡ validation_failed)
  unfolding process_invalid wait_pending wait_installed not_valid set_install_status
  process_invalid_phase e invalid = elim (Bool-cases (has_prefix e.text err_dep_pending)) [
    | inl waits ↦
        rw (waits, process_invalid)
          (inl (
            refl,
            validate_pending env.semver env.docs env.spec_bytes env.order r.sys.cache
                r.instance_addon e invalid waits,
          ))
    | inr other ↦ elim (Bool-cases (has_prefix e.text err_dep_not_installed)) [
      | inl missing ↦ rw (other, missing, process_invalid) (inr refl)
      | inr bad ↦ rw (other, bad, process_invalid) (inr refl)
    ]
  ]

process_unchanged-world :
    {W V F : Type 0} (env : Env W V F) (r : Run W) (e : Error)
    → validate env.semver env.docs env.spec_bytes env.order r.sys.cache r.instance_addon ≡ err e
    → (run_after (process_unchanged env r)).sys.world ≡ r.sys.world
unfolding process_unchanged process_validated
process_unchanged-world env r e invalid =
    elim (Bool-cases (is_completed r.instance_addon.status.lifecycle.installed)) [
      | inl done ↦ rw (done, process_unchanged) refl
      | inr open_still ↦
          rw (open_still, process_unchanged)
            (rw (invalid, process_validated) (process_invalid-world env r e))
    ]

-- For an addon whose spec is as it was and that `Validate` rejects, `processAddon` changes nothing in
-- the cluster: no workflow is submitted and no finalizer is set.
pub invalid_not_installed :
    {W V F : Type 0} (env : Env W V F) (r : Run W) (e : Error)
    → let sum = calculate_checksum env.spec_bytes r.instance_addon in
      r.instance_addon.status.checksum ≡ sum
      → validate env.semver env.docs env.spec_bytes env.order r.sys.cache
          (with_checksum sum r).instance_addon
        ≡ err e
      → (run_after (process_addon env r)).sys.world ≡ r.sys.world
unfolding process_addon validate_checksum
invalid_not_installed env r e same invalid =
    let sum = calculate_checksum env.spec_bytes r.instance_addon in
    let equal : (r.instance_addon.status.checksum == sum) ≡ true = (eq_iff _ sum).1 same in
    rw (equal, process_addon) (process_unchanged-world env (with_checksum sum r) e invalid)
