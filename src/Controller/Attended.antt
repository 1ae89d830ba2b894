-- ===== src/Controller/Attended.antt =====
-- controllers/addon_controller.go: `processAddon` does not lose an addon that is still being installed.
use addon_manager.Common.{
  ◌<◌, ◌≡◌, refl, sym, subst, ◌∙◌, ◌⊎◌, inl, inr, true, false, Option, none, some, List, [], ◌∷◌,
  arith, Bool-cases, is_some, Error, Result, ok, err, panic, Reply, found, failure, has_prefix,
}
use addon_manager.Api.Phase.{
  Phase, delete_failed, delete_succeeded, deleting, failed, is_completed, is_running, pending,
  succeeded, unset, validation_failed,
}
use addon_manager.Api.Spec.{ObjectStatus}
use addon_manager.Cluster.{Ended, ended, unwound}
use addon_manager.Controller.Process.{
  Processed, not_valid, panicked, process_addon, process_changed, process_executed, process_expired,
  process_finalizer, process_install, process_invalid, process_observed, process_unchanged,
  process_validated, returned, validate_checksum, wait_installed, wait_pending,
}
use addon_manager.Controller.Types.{Env, ReconcileResult, Run, ttl}
use addon_manager.Controller.Workflow.{execute_prereq_and_install}
use addon_manager.Helpers.{is_expired}
use addon_manager.Validator.Dependencies.{err_dep_not_installed, err_dep_pending}

is_running_completed : (p : Phase) → is_completed p ≡ true → is_running p ≡ false
is_running_completed unset e = cc
is_running_completed pending e = cc
is_running_completed succeeded e = refl
is_running_completed failed e = refl
is_running_completed validation_failed e = cc
is_running_completed deleting e = refl
is_running_completed delete_failed e = refl
is_running_completed delete_succeeded e = refl

-- The controller is called again: at once, after a while, or because of an error.
abbrev pub IsCalledAgain : ReconcileResult → Option Error → Type 0
IsCalledAgain result e = (result.requeue ≡ true) ⊎ (0 < result.requeue_after) ⊎ (is_some e ≡ true)

-- What ends with a result, and is not called again, has left the install phase where it stays.
abbrev pub IsAttended : {W : Type 0} → Processed W → Type 0
IsAttended (panicked text r) = Unit {0}
IsAttended (returned result e r) =
    IsCalledAgain result e ⊎ (is_running r.instance_addon.status.lifecycle.installed ≡ false)

module _ {W V F : Type 0} (env : Env W V F) where
  process_observed-IsAttended :
      (observed : Reply (List ObjectStatus)) (r : Run W)
      → IsAttended (process_observed env observed r)
  unfolding process_observed
  process_observed-IsAttended (failure e) r = inl (inr (inr refl))
  process_observed-IsAttended (found []) r =
      elim (Bool-cases (is_running r.instance_addon.status.lifecycle.installed)) [
        | inl running ↦ rw (running, process_observed) (inl (inr (inl (omega arith))))
        | inr stays ↦ rw (stays, process_observed) (inr stays)
      ]
  process_observed-IsAttended (found (o ∷ os)) r =
      elim (Bool-cases (is_running r.instance_addon.status.lifecycle.installed)) [
        | inl running ↦ rw (running, process_observed) (inl (inr (inl (omega arith))))
        | inr stays ↦ rw (stays, process_observed) (inr stays)
      ]

  process_executed-IsAttended : (p : Ended (Run W)) → IsAttended (process_executed env p)
  unfolding process_executed
  process_executed-IsAttended (unwound text r) = tt
  process_executed-IsAttended (ended (some e) r) = inl (inr (inr refl))
  process_executed-IsAttended (ended none r) = process_observed-IsAttended _ _

  process_install-IsAttended : (r : Run W) → IsAttended (process_install env r)
  unfolding process_install process_expired
  process_install-IsAttended r =
      elim (Bool-cases (is_completed r.instance_addon.status.lifecycle.installed)) [
        | inl done ↦ rw (done, process_install) (process_executed-IsAttended (ended none r))
        | inr open_still ↦
            elim (Bool-cases (is_expired env.now r.instance_addon.status.start_time ttl)) [
              | inl late ↦ rw (open_still, late, process_install) (inl (inr (inr refl)))
              | inr in_time ↦
                  rw (open_still, in_time, process_install)
                    (process_executed-IsAttended (execute_prereq_and_install env r))
            ]
      ]

  process_invalid-IsAttended : (e : Error) (r : Run W) → IsAttended (process_invalid env e r)
  unfolding process_invalid wait_pending wait_installed not_valid
  process_invalid-IsAttended e r = elim (Bool-cases (has_prefix e.text err_dep_pending)) [
    | inl waits ↦ rw (waits, process_invalid) (inl (inr (inl (omega arith))))
    | inr further ↦ elim (Bool-cases (has_prefix e.text err_dep_not_installed)) [
      | inl missing ↦ rw (further, missing, process_invalid) (inl (inr (inl (omega arith))))
      | inr bad ↦ rw (further, bad, process_invalid) (inl (inr (inr refl)))
    ]
  ]

  process_finalizer-IsAttended : (p : Option Error × Run W) → IsAttended (process_finalizer env p)
  unfolding process_finalizer
  process_finalizer-IsAttended (some e, r) = inl (inl refl)
  process_finalizer-IsAttended (none, r) = process_install-IsAttended r

  process_validated-IsAttended :
      (v : Result (Unit {0})) (r : Run W) → IsAttended (process_validated env v r)
  unfolding process_validated
  process_validated-IsAttended (ok _) r = process_finalizer-IsAttended _
  process_validated-IsAttended (err e) r = process_invalid-IsAttended e r
  process_validated-IsAttended (panic s) r = tt

  process_unchanged-IsAttended : (r : Run W) → IsAttended (process_unchanged env r)
  unfolding process_unchanged
  process_unchanged-IsAttended r =
      elim (Bool-cases (is_completed r.instance_addon.status.lifecycle.installed)) [
        | inl done ↦ rw (done, process_unchanged) (inr (is_running_completed _ done))
        | inr open_still ↦ rw (open_still, process_unchanged) (process_validated-IsAttended _ r)
      ]

  process_changed-IsAttended :
      (p : Option Error × W) (r : Run W) → IsAttended (process_changed env p r)
  unfolding process_changed
  process_changed-IsAttended (some e, w) r = inl (inr (inr refl))
  process_changed-IsAttended (none, w) r = inl (inl refl)

  process_addon-IsAttended : (r : Run W) → IsAttended (process_addon env r)
  unfolding process_addon
  process_addon-IsAttended r = elim (Bool-cases (validate_checksum env r.instance_addon).0) [
    | inl changed ↦ rw (changed, process_addon) (process_changed-IsAttended _ _)
    | inr same ↦ rw (same, process_addon) (process_unchanged-IsAttended _)
  ]

  -- An addon is not forgotten while it is being installed: when `processAddon` returns with its install
  -- phase Pending or Validation Failed, it asks to be called again, at once, after a while, or by an
  -- error.
  pub process_addon_attended :
      (r r' : Run W) (result : ReconcileResult) (e : Option Error)
      → process_addon env r ≡ returned result e r'
      → is_running r'.instance_addon.status.lifecycle.installed ≡ true
      → IsCalledAgain result e
  process_addon_attended r r' result e same running =
      elim (subst IsAttended same (process_addon-IsAttended r)) [
        | inl called ↦ called
        | inr stays ↦ let wrong : true ≡ false = sym running ∙ stays in cc
      ]
