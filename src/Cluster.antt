-- ===== src/Cluster.antt =====
-- What the controllers call of other packages: the Kubernetes API server and the Argo workflow
-- client, over a state `W` of the cluster that only they know; and the state of the process.
use addon_manager.Common.{ℕ, String, Bool, Option, List, [], ◌∷◌, ◌++◌, Error, Reply, Assoc}
use addon_manager.Api.Spec.{NamespacedName}
use addon_manager.Api.Addon.{Addon}
use addon_manager.VersionCache.{Cache}
use addon_manager.Helpers.{WorkflowPhase}

-- `metav1.OwnerReference` of a controller.
pub record Owner : Type 0 where
  pub kind : String
  pub name : String

-- `wfv1.Workflow`, with the fields that the program reads; `owner` is `metav1.GetControllerOf`.
pub record Workflow : Type 0 where
  pub namespace : String
  pub name : String
  pub deletion_timestamp : Option ℕ
  pub owner : Option Owner
  pub phase : WorkflowPhase
  pub message : String

-- The kinds of objects that are listed for an addon.
pub data ObjectKind : Type 0 where
  service job cron_job deployment daemon_set replica_set stateful_set namespace : ObjectKind

-- A listed object: its metadata.
pub record Object : Type 0 where
  pub namespace : String
  pub name : String
  pub self_link : String

-- An update answers with the object that the server keeps, which overwrites the caller's.
pub record Kube (W : Type 0) : Type 0 where
  pub get_addon : NamespacedName → W → Reply Addon
  pub update_addon : Addon → W → Reply Addon × W
  pub update_addon_status : Addon → W → Reply Addon × W
  pub contains_finalizer : Addon → String → Bool
  pub add_finalizer : Addon → String → Addon
  pub remove_finalizer : Addon → String → Addon
  pub as_selector : Assoc String → Reply String
  pub get_workflow : NamespacedName → W → Reply Workflow
  pub list_workflows : String → String → W → Reply (List Workflow)
  pub delete_workflow : NamespacedName → W → Option Error × W
  pub list_secrets : String → W → Reply (List String)
  pub list_objects : ObjectKind → Option String → String → W → Reply (List Object)

-- How a call that may panic ends: it returns an error or nil, or it unwinds; and the state that it
-- leaves.
pub data Ended (S : Type 0) : Type 0 where
  ended : Option Error → S → Ended S
  unwound : String → S → Ended S

abbrev pub state_of : {S : Type 0} → Ended S → S
state_of (ended e s) = s
state_of (unwound text s) = s

-- `recorder.Event` of one call.
pub record Event : Type 0 where
  pub event_type : String
  pub reason : String
  pub message : String

-- The state that the two controllers share: the cluster, the version cache, the events recorded,
-- and `AddonUpdater.statusMap`, in which a mutex is known by the number it was made with.
pub record Sys (W : Type 0) : Type 0 where
  pub world : W
  pub cache : Cache
  pub events : List Event
  pub status_map : Assoc ℕ
  pub next_mutex : ℕ

abbrev pub record_event : {W : Type 0} → String → String → String → Sys W → Sys W
record_event event_type reason message s = record s {
  events = s.events ++ record { event_type = event_type; reason = reason; message = message } ∷ [];
}

-- The part of the system that is the memory of the process: the version cache, and the mutexes with
-- the number of the next.
abbrev pub Memory : Type 0
Memory = Cache × Assoc ℕ × ℕ

abbrev pub memory_of : {W : Type 0} → Sys W → Memory
memory_of s = (s.cache, s.status_map, s.next_mutex)
