-- ===== src/Controller/Types.antt =====
-- controllers/addon_controller.go: what the methods of the reconciler share.
use addon_manager.Objects.{Objects}
use addon_manager.Workflows.Install.{WorkflowClient}
use addon_manager.Common.{ℕ, String, Bool, false, List, [], ◌+++◌}
use addon_manager.Api.Phase.{Phase, LifecycleStep}
use addon_manager.Api.Spec.{AddonSpec}
use addon_manager.Api.Addon.{Addon}
use addon_manager.Api.Status.{set_install_status, set_status_by_lifecycle_step}
use addon_manager.VersionCache.{Semver}
use addon_manager.Document.{Documents}
use addon_manager.Updater.{Retry}
use addon_manager.Cluster.{Kube, Sys, record_event}

-- `reconcile.Result`; `requeue_after` in milliseconds.
pub record ReconcileResult : Type 0 where
  pub requeue : Bool
  pub requeue_after : ℕ

abbrev pub no_requeue : ReconcileResult
no_requeue = record { requeue = false; requeue_after = 0 }

-- `addonapiv1.FinalizerName`.
abbrev pub finalizer_name : String
finalizer_name = "delete.addonmgr.keikoproj.io"

-- `addonapiv1.TTL.Milliseconds()`.
abbrev pub ttl : ℕ
ttl = 3600000

abbrev pub resource_default_own_label : String
resource_default_own_label = "app.kubernetes.io/name"

-- What the reconciler is made of: the clients, the libraries that it calls, the order in which the
-- validator visits the lifecycle steps, and the clock. `F` is `wfv1.Workflow`.
pub record Env (W V F : Type 0) : Type 0 where
  pub kube : Kube W
  pub client : WorkflowClient W F
  pub retry : Retry W
  pub semver : Semver V
  pub docs : Documents
  pub objects : Objects
  pub spec_bytes : AddonSpec → List ℕ
  pub order : List LifecycleStep
  pub now : ℕ

-- The instance and the system.
pub record Run (W : Type 0) : Type 0 where
  pub instance_addon : Addon
  pub sys : Sys W

module _ {W : Type 0} where
  -- `SetStatusByLifecyleStep` on the instance, its error dropped.
  abbrev pub mark : LifecycleStep → Phase → Run W → Run W
  mark step phase r = record r {
    instance_addon = (set_status_by_lifecycle_step step phase [] r.instance_addon).0;
  }

  abbrev pub set_install : Phase → List String → Run W → Run W
  set_install phase reasons r = record r {
    instance_addon = set_install_status phase reasons r.instance_addon;
  }

  abbrev pub event : String → String → String → Run W → Run W
  event event_type reason message r = record r {
    sys = record_event event_type reason message r.sys;
  }

  abbrev pub in_sys : Sys W → Run W → Run W
  in_sys s r = record r { sys = s }

  abbrev pub in_world : W → Run W → Run W
  in_world w r = record r { sys = record r.sys { world = w } }

  -- `namespace/name` of the instance.
  abbrev pub full_name : Run W → String
  full_name r = r.instance_addon.namespace +++ "/" +++ r.instance_addon.name
