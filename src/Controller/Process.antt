-- ===== src/Controller/Process.antt =====
-- controllers/addon_controller.go: `processAddon` and what it calls.
use addon_manager.Common.{
  ℕ, String, Bool, true, false, not, Option, none, some, List, [], ◌∷◌, ◌==◌, if◌then◌else◌, Error,
  errorf, Result, ok, err, panic, Reply, found, failure, ◌+++◌, has_prefix,
}
use addon_manager.Api.Phase.{pending, failed, validation_failed, is_completed, is_running}
use addon_manager.Api.Spec.{ObjectStatus}
use addon_manager.Api.Addon.{Addon, calculate_checksum}
use addon_manager.Api.Status.{clear_status, set_prereq_and_install_statuses}
use addon_manager.Validator.{validate}
use addon_manager.Validator.Dependencies.{err_dep_pending, err_dep_not_installed}
use addon_manager.Helpers.{is_expired}
use addon_manager.Cluster.{Workflow, Ended, ended, unwound}
use addon_manager.Controller.Types.{
  ReconcileResult, no_requeue, finalizer_name, ttl, resource_default_own_label, Env, Run,
  set_install, event, in_world, full_name,
}
use addon_manager.Controller.Workflow.{execute_prereq_and_install}
use addon_manager.Controller.Observe.{observe_resources, share_labels}

-- How `processAddon` ends: with a result and an error, or by a panic.
pub data Processed (W : Type 0) : Type 0 where
  returned : ReconcileResult → Option Error → Run W → Processed W
  panicked : String → Run W → Processed W

abbrev requeue_now : ReconcileResult
requeue_now = record { requeue = true; requeue_after = 0 }

abbrev requeue_in : ℕ → ReconcileResult
requeue_in millis = record { requeue = true; requeue_after = millis }

abbrev is_empty : List ObjectStatus → Bool
is_empty [] = true
is_empty (o ∷ os) = false

-- The status of a new install cycle, begun at `now`.
unfoldable pub restart : ℕ → Addon → Addon
restart now a =
    (set_prereq_and_install_statuses pending []
      (clear_status (record a { status = record a.status { start_time = now } }))).0

module _ {W : Type 0} where
  -- `instance.Status.Checksum = …` and `instance.Status.Resources = make(…, 0)`.
  abbrev pub with_checksum : String → Run W → Run W
  with_checksum checksum r = record r {
    instance_addon = record r.instance_addon {
      status = record r.instance_addon.status { checksum = checksum; resources = [] };
    };
  }

  abbrev with_resources : List ObjectStatus → Run W → Run W
  with_resources resources r = record r {
    instance_addon = record r.instance_addon {
      status = record r.instance_addon.status { resources = resources };
    };
  }

  abbrev restarted : ℕ → Run W → Run W
  restarted now r = record r { instance_addon = restart now r.instance_addon }

module _ {W V F : Type 0} (env : Env W V F) where
  unfoldable pub validate_checksum : Addon → Bool × String
  validate_checksum a =
      let checksum = calculate_checksum env.spec_bytes a in
      (not (a.status.checksum == checksum), checksum)

  -- The loop that deletes the workflows; a failure is only logged.
  unfoldable pub delete_each : String → List Workflow → W → W
  delete_each ns [] w = w
  delete_each ns (wf ∷ wfs) w =
      delete_each ns wfs (env.kube.delete_workflow (record { namespace = ns; name = wf.name }) w).1

  unfoldable pub delete_listed : Addon → Reply (List Workflow) → W → Option Error × W
  delete_listed a (failure e) w = (some e, w)
  delete_listed a (found wfs) w = (none, delete_each a.namespace wfs w)

  unfoldable pub delete_old_workflows : Addon → W → Option Error × W
  unfolding delete_listed delete_each
  delete_old_workflows a w =
      elim (env.kube.as_selector ((resource_default_own_label, a.name) ∷ [])) [
        | failure e ↦ (some e, w)
        | found selector ↦ delete_listed a (env.kube.list_workflows a.namespace selector w) w
      ]

  -- `SetFinalizer`: an update overwrites the instance with the server's answer.
  abbrev pub updated : Addon → Reply Addon × W → Run W → Option Error × Run W
  updated a (found stored, w) r = (none, record (in_world w r) { instance_addon = stored })
  updated a (failure e, w) r = (some e, record (in_world w r) { instance_addon = a })

  unfoldable pub set_finalizer : Run W → Option Error × Run W
  set_finalizer r = elim r.instance_addon.deletion_timestamp [
    | some t ↦ (none, r)
    | none ↦
        if env.kube.contains_finalizer r.instance_addon finalizer_name
        then (none, r)
        else let a = env.kube.add_finalizer r.instance_addon finalizer_name in
          updated a (env.kube.update_addon a r.sys.world) r
  ]

  -- The branch of a changed checksum, after the old workflows have been deleted.
  unfoldable pub process_changed : Option Error × W → Run W → Processed W
  process_changed (some e, w) r = returned no_requeue (some e) (in_world w r)
  process_changed (none, w) r = returned requeue_now none (restarted env.now (in_world w r))

  unfoldable pub wait_pending : Run W → Processed W
  wait_pending r =
      let reason =
        "Addon " +++ full_name r +++ " is waiting on dependencies to be out of Pending state." in
      returned (requeue_in 10000) none
        (set_install pending (reason ∷ []) (event "Normal" "Pending" reason r))

  unfoldable pub wait_installed : Error → Run W → Processed W
  wait_installed e r =
      let reason =
        "Addon " +++ full_name r +++ " is waiting on dependencies to be installed. " +++ e.text in
      returned (requeue_in 30000) none
        (set_install validation_failed (reason ∷ []) (event "Normal" "Failed" reason r))

  unfoldable pub not_valid : Error → Run W → Processed W
  not_valid e r =
      let reason = "Addon " +++ full_name r +++ " is not valid. " +++ e.text in
      returned no_requeue (some e)
        (set_install validation_failed (reason ∷ []) (event "Warning" "Failed" reason r))

  -- The branches on the error of the validator.
  unfoldable pub process_invalid : Error → Run W → Processed W
  process_invalid e r =
      if has_prefix e.text err_dep_pending
      then wait_pending r
      else if has_prefix e.text err_dep_not_installed
      then wait_installed e r
      else not_valid e r

  -- The end of `processAddon`.
  unfoldable pub process_observed : Reply (List ObjectStatus) → Run W → Processed W
  process_observed (failure e) r =
      let reason = "Addon " +++ full_name r +++ " failed to find deployed resources. " +++ e.text in
      returned no_requeue (some e)
        (set_install failed (reason ∷ []) (event "Warning" "Failed" reason r))
  process_observed (found observed) r =
      let r' = if is_empty observed then r else with_resources observed r in
      if is_running r'.instance_addon.status.lifecycle.installed
      then returned (record { requeue = false; requeue_after = 30000 }) none r'
      else returned no_requeue none r'

  unfoldable pub process_executed : Ended (Run W) → Processed W
  process_executed (unwound text r) = panicked text r
  process_executed (ended (some e) r) = returned no_requeue (some e) r
  process_executed (ended none r) =
      let observed = observe_resources env.kube r.instance_addon r.sys.world in
      process_observed observed (record r { instance_addon = share_labels r.instance_addon })

  unfoldable pub process_expired : Run W → Processed W
  process_expired r =
      let reason = "Addon " +++ full_name r +++ " ttl expired, starttime exceeded 1h0m0s" in
      returned no_requeue
        (some (errorf ("ttl expired for addon " +++ full_name r +++ ": " +++ reason)))
        (set_install failed (reason ∷ []) (event "Warning" "Failed" reason r))

  -- The block that installs, unless the status has completed.
  unfoldable pub process_install : Run W → Processed W
  process_install r =
      if is_completed r.instance_addon.status.lifecycle.installed
      then process_executed (ended none r)
      else if is_expired env.now r.instance_addon.status.start_time ttl
      then process_expired r
      else process_executed (execute_prereq_and_install env r)

  unfoldable pub process_finalizer : Option Error × Run W → Processed W
  process_finalizer (some e, r) = returned requeue_now (some e) (
      event "Warning" "Failed"
        ("Addon " +++ full_name r +++ " could not add finalizer. " +++ e.text) r)
  process_finalizer (none, r) = process_install r

  unfoldable pub process_validated : Result (Unit {0}) → Run W → Processed W
  process_validated (err e) r = process_invalid e r
  process_validated (panic s) r = panicked s r
  process_validated (ok _) r =
      process_finalizer
        (set_finalizer (event "Normal" "Completed" ("Addon " +++ full_name r +++ " is valid.") r))

  unfoldable pub process_unchanged : Run W → Processed W
  process_unchanged r =
      if is_completed r.instance_addon.status.lifecycle.installed
      then returned no_requeue none r
      else process_validated
          (validate env.semver env.docs env.spec_bytes env.order r.sys.cache r.instance_addon) r

  unfoldable pub process_addon : Run W → Processed W
  unfolding validate_checksum
  process_addon r =
      let (changed, checksum) = validate_checksum r.instance_addon in
      let r' = with_checksum checksum r in
      if changed
      then process_changed (delete_old_workflows r'.instance_addon r'.sys.world) r'
      else process_unchanged r'
