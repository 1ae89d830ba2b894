-- ===== src/Controller/Finalize.antt =====
-- controllers/addon_controller.go: `Finalize`, `execAddon`, `Reconcile` and the mapping of watched
-- objects to requests. controllers/workflow_controller.go: `Reconcile`.
use addon_manager.Common.{
  String, Bool, true, false, Option, none, some, List, [], ◌∷◌, ◌==◌, if◌then◌else◌, not_found,
  Error, errorf, Reply, found, failure, ◌+++◌, trim_space, Assoc, lookup,
}
use addon_manager.Api.Phase.{deleting, delete_failed, is_succeeded, is_deleting, delete}
use addon_manager.Api.Spec.{NamespacedName}
use addon_manager.Api.Addon.{Addon}
use addon_manager.Api.Status.{set_install_status}
use addon_manager.VersionCache.{Version, Cache, remove_version, has_version_name}
use addon_manager.Helpers.{workflow_unknown, WorkflowPhase}
use addon_manager.Cluster.{Workflow, Owner, Sys, record_event, Ended, ended, unwound}
use addon_manager.Updater.{
  update_status, remove_from_cache, update_addon_status_lifecycle_from_workflow,
}
use addon_manager.Controller.Types.{
  ReconcileResult, no_requeue, finalizer_name, resource_default_own_label, Env, Run, set_install,
  in_world, full_name,
}
use addon_manager.Controller.Workflow.{run_workflow}
use addon_manager.Controller.Process.{Processed, returned, panicked, process_addon}

-- `versionCache.RemoveVersion` of the instance's package.
abbrev forget : {W : Type 0} → Run W → Run W
forget r =
    let p = r.instance_addon.spec.package_spec in
    record r { sys = record r.sys { cache = remove_version p.pkg_name p.pkg_version r.sys.cache } }

abbrev pub finalized : {W : Type 0} → Addon → Reply Addon × W → Run W → Option Error × Run W
finalized a (found stored, w) r = (none, record (in_world w r) { instance_addon = stored })
finalized a (failure e, w) r = (
  some e,
  set_install delete_failed
      (("Addon " +++ a.namespace +++ "/" +++ a.name +++ " could not be deleted, " +++ e.text) ∷ [])
      (record (in_world w r) { instance_addon = a }),
)

-- `ignoreNotFound`.
unfoldable pub ignore_not_found : Error → Option Error
ignore_not_found e = elim e.reason [ not_found ↦ none | _ ↦ some e ]

module _ {W V F : Type 0} (env : Env W V F) where
  -- The end of `Finalize`: the cache forgets the version, and the finalizer goes if it may.
  unfoldable pub drop_finalizer : Bool → Run W → Option Error × Run W
  drop_finalizer false r = (none, forget r)
  drop_finalizer true r =
      let a = env.kube.remove_finalizer r.instance_addon finalizer_name in
      finalized a (env.kube.update_addon a r.sys.world) (forget r)

  unfoldable pub after_delete : Ended (Run W) → Ended (Run W)
  after_delete (unwound text r) = unwound text r
  after_delete (ended (some e) r) = ended (some e) r
  after_delete (ended none r) =
      let (e, r') = drop_finalizer (is_succeeded r.instance_addon.status.lifecycle.installed) r in
      ended e r'

  unfoldable pub finalize : Run W → Ended (Run W)
  finalize r =
      if r.instance_addon.spec.lifecycle.delete.template == ""
      then (let (e, r') = drop_finalizer true r in ended e r')
      else after_delete (run_workflow env delete r)

  -- The instance is gone at the end of `execAddon`: what it returns is a result, an error, the system.
  abbrev pub Answer : Type 0
  Answer = ReconcileResult × Option Error × Sys W

  abbrev pub status_written : ReconcileResult → Option Error → Option Error × Sys W → Answer
  status_written result proc_err (none, s) = (result, proc_err, s)
  status_written result proc_err (some e, s) =
      (record { requeue = false; requeue_after = 1000 }, some e, s)

  -- A panic is recovered, and the zero result is returned.
  unfoldable pub after_process : Processed W → Answer
  after_process (panicked message r) = (no_requeue, none, r.sys)
  after_process (returned result proc_err r) =
      status_written result proc_err
        (update_status env.kube env.retry env.spec_bytes r.instance_addon r.sys)

  abbrev pub after_finalize : Ended (Run W) → Answer
  after_finalize (unwound text r) = (no_requeue, none, r.sys)
  after_finalize (ended none r) = (no_requeue, none, r.sys)
  after_finalize (ended (some e) r) = (
    no_requeue,
    some e,
    record_event "Warning" "Failed"
        ("Addon " +++ full_name r +++ " could not be finalized. " +++ e.text) r.sys,
  )

  unfoldable pub exec_deleted : Run W → Answer
  exec_deleted r =
      if is_deleting r.instance_addon.status.lifecycle.installed
      then after_finalize (finalize r)
      else let (e, s) =
          update_status env.kube env.retry env.spec_bytes
            (set_install_status deleting [] r.instance_addon) r.sys in
        (no_requeue, e, s)

  unfoldable pub exec_addon : Run W → Answer
  exec_addon r = elim r.instance_addon.deletion_timestamp [
    | some t ↦ exec_deleted r
    | none ↦ after_process (process_addon env r)
  ]

  -- `AddonReconciler.Reconcile`.
  unfoldable pub reconcile : NamespacedName → Sys W → Answer
  reconcile req s = elim (env.kube.get_addon req s.world) [
    | failure e ↦ (no_requeue, ignore_not_found e, remove_from_cache req.name s)
    | found a ↦ exec_addon (record { instance_addon = a; sys = s })
  ]

  -- `WorkflowReconciler.Reconcile`, from the owner on.
  unfoldable pub reconcile_owned : Workflow → Sys W → Option Owner → Option Error × Sys W
  reconcile_owned wf s none =
      (some (errorf ("workflow " +++ wf.namespace +++ "/" +++ wf.name +++ " has no owner")), s)
  reconcile_owned wf s (some owner) =
      if owner.kind == "Addon"
      then update_addon_status_lifecycle_from_workflow env.kube env.retry env.spec_bytes
          wf.namespace owner.name wf s
      else (none, s)

  unfoldable pub reconcile_phase : Workflow → Sys W → WorkflowPhase → Option Error × Sys W
  reconcile_phase wf s workflow_unknown = (none, s)
  reconcile_phase wf s _ = reconcile_owned wf s wf.owner

  abbrev failed_get : NamespacedName → Error → Option Error
  failed_get req e = elim e.reason [
    | not_found ↦ none
    | _ ↦ some (
        errorf
          ("failed to get workflow " +++ req.namespace +++ "/" +++ req.name +++ ": " +++ e.text))
  ]

  unfoldable pub reconcile_workflow : NamespacedName → Sys W → Option Error × Sys W
  reconcile_workflow req s = elim (env.kube.get_workflow req s.world) [
    | failure e ↦ (failed_get req e, s)
    | found wf ↦ elim wf.deletion_timestamp [
      | some t ↦ (none, s)
      | none ↦ reconcile_phase wf s wf.phase
    ]
  ]

-- `getAddonRequestsFromLabels`, which each of the six mappers calls on the labels of its object.
abbrev request_of : Option Version → List NamespacedName
request_of none = []
request_of (some v) = record { namespace = v.namespace; name = v.name } ∷ []

unfoldable pub get_addon_requests_from_labels : Cache → Assoc String → List NamespacedName
get_addon_requests_from_labels cache labels = elim (lookup resource_default_own_label labels) [
  | none ↦ []
  | some name ↦ if trim_space name == "" then [] else request_of (has_version_name name cache)
]

-- The kinds of objects whose changes are mapped to requests.
pub data Watched : Type 0 where
  deployments services daemon_sets replica_sets stateful_sets jobs : Watched

-- `mapDeploymentToAddonRequests` and the five others, on the labels of the object.
unfoldable pub map_to_addon_requests : Watched → Cache → Assoc String → List NamespacedName
unfolding get_addon_requests_from_labels
map_to_addon_requests deployments cache labels = get_addon_requests_from_labels cache labels
map_to_addon_requests services cache labels = get_addon_requests_from_labels cache labels
map_to_addon_requests daemon_sets cache labels = get_addon_requests_from_labels cache labels
map_to_addon_requests replica_sets cache labels = get_addon_requests_from_labels cache labels
map_to_addon_requests stateful_sets cache labels = get_addon_requests_from_labels cache labels
map_to_addon_requests jobs cache labels = get_addon_requests_from_labels cache labels
