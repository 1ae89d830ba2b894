-- ===== src/Controller/Observe.antt =====
-- controllers/objects.go, and `observeResources` of controllers/addon_controller.go.
use addon_manager.Common.{
  String, Bool, true, false, none, some, List, [], ◌∷◌, ◌++◌, ◌==◌, if◌then◌else◌, Error, errorf,
  Reply, found, failure, ◌+++◌, join, Assoc, insert,
}
use addon_manager.Api.Spec.{ObjectStatus}
use addon_manager.Api.Addon.{Addon}
use addon_manager.Cluster.{
  Object, service, job, cron_job, deployment, daemon_set, replica_set, stateful_set, namespace,
  Kube,
}

-- The status that is made of a listed object.
abbrev object_status : String → String → Object → ObjectStatus
object_status kind group o = record {
  link = o.self_link;
  name = o.name;
  kind = kind;
  group = group;
  status = "";
}

-- The loops over the listed objects, with the test that two of them make first.
unfoldable pub collect : (Object → Bool) → String → String → List Object → List ObjectStatus
collect keep kind group [] = []
collect keep kind group (o ∷ os) =
    let rest = collect keep kind group os in
    if keep o then object_status kind group o ∷ rest else rest

abbrev wrap : String → Error → Error
wrap prefix e = errorf (prefix +++ e.text)

-- An error, if the list failed, and otherwise the statuses.
abbrev gather :
    (Error → Error)
    → (List Object → List ObjectStatus)
    → Reply (List Object)
    → Reply (List ObjectStatus)
gather on_error f (failure e) = failure (on_error e)
gather on_error f (found os) = found (f os)

module _ {W : Type 0} (kube : Kube W) (w : W) where
  unfoldable pub observe_service : String → String → Reply (List ObjectStatus)
  observe_service ns selector =
      gather (wrap "failed to list services ") (collect (λ o. o.namespace == ns) "Service" "")
        (kube.list_objects service (some ns) selector w)

  unfoldable pub observe_job : String → String → Reply (List ObjectStatus)
  observe_job ns selector =
      gather (wrap "failed to list cronjobs ") (collect (λ _. true) "Job" "batch/v1")
        (kube.list_objects job (some ns) selector w)

  unfoldable pub observe_cron_job : String → String → Reply (List ObjectStatus)
  observe_cron_job ns selector =
      gather (wrap "failed to list cronjobs ") (collect (λ _. true) "CronJob" "batch/v1")
        (kube.list_objects cron_job (some ns) selector w)

  unfoldable pub observe_deployment : String → String → Reply (List ObjectStatus)
  observe_deployment ns selector =
      gather (λ e. e) (collect (λ _. true) "Deployment" "apps/v1")
        (kube.list_objects deployment none selector w)

  unfoldable pub observe_daemon_set : String → String → Reply (List ObjectStatus)
  observe_daemon_set ns selector =
      gather (λ e. e) (collect (λ _. true) "DaemonSet" "apps/v1")
        (kube.list_objects daemon_set none selector w)

  unfoldable pub observe_replica_set : String → String → Reply (List ObjectStatus)
  observe_replica_set ns selector =
      gather (λ e. e) (collect (λ _. true) "ReplicaSe" "apps/v1")
        (kube.list_objects replica_set none selector w)

  unfoldable pub observe_stateful_set : String → String → Reply (List ObjectStatus)
  observe_stateful_set name selector =
      gather (λ e. e) (collect (λ _. true) "StatefulSet" "apps/v1")
        (kube.list_objects stateful_set none selector w)

  unfoldable pub observe_namespace : String → String → Reply (List ObjectStatus)
  observe_namespace name selector =
      gather (λ e. e) (collect (λ o. o.name == name) "Namespace" "")
        (kube.list_objects namespace none selector w)

-- What the rounds of `observeResources` gather: the statuses, and the texts of the errors.
pub record Observed : Type 0 where
  pub objects : List ObjectStatus
  pub errors : List String

-- One round: an error is kept and the next kind is listed all the same.
abbrev observe_round : Addon → String → Reply (List ObjectStatus) → Observed → Observed
observe_round a label (found res) o = record o { objects = o.objects ++ res }
observe_round a label (failure e) o = record o {
  errors =
      o.errors
      ++ ("failed to observe resource " +++ label +++ " for addon " +++ a.namespace +++ "/"
          +++ a.name +++ ": " +++ e.text)
        ∷ [];
}

-- `labelSelector.MatchLabels` with the two labels of the addon.
unfoldable pub own_labels : Addon → Assoc String
own_labels a =
    insert "app.kubernetes.io/name" a.name
      (insert "app.kubernetes.io/managed-by" "addonmgr.keikoproj.io" a.spec.selector.match_labels)

abbrev is_empty : Assoc String → Bool
is_empty [] = true
is_empty (b ∷ m) = false

-- A map that is not empty is shared with the spec of the instance, which the two writes change.
unfoldable pub share_labels : Addon → Addon
unfolding own_labels
share_labels a =
    if is_empty a.spec.selector.match_labels
    then a
    else record a { spec = record a.spec { selector = record { match_labels = own_labels a } } }

module _ {W : Type 0} (kube : Kube W) where
  -- The seven rounds.
  unfoldable pub observe_all : Addon → String → W → Observed
  observe_all a selector w =
      let ns = a.namespace in
      observe_round a "ReplicaSet" (observe_replica_set kube w ns selector) (
        observe_round a "DaemonSet" (observe_daemon_set kube w ns selector) (
          observe_round a "Deployment" (observe_deployment kube w ns selector) (
            observe_round a "StatefulSet" (observe_stateful_set kube w ns selector) (
              observe_round a "cronjob" (observe_cron_job kube w ns selector) (
                observe_round a "job" (observe_job kube w ns selector) (
                  observe_round a "service" (observe_service kube w ns selector)
                    (record { objects = []; errors = [] })))))))

  abbrev observed_result : Observed → Reply (List ObjectStatus)
  observed_result o = elim o.errors [
    | [] ↦ found o.objects
    | e ∷ es ↦ failure (errorf ("observed err [" +++ join " " (e ∷ es) +++ "]"))
  ]

  unfoldable pub observe_resources : Addon → W → Reply (List ObjectStatus)
  unfolding observe_all
  observe_resources a w = elim (kube.as_selector (own_labels a)) [
    | failure e ↦ failure (errorf ("label selector is invalid. " +++ e.text))
    | found selector ↦ observed_result (observe_all a selector w)
  ]
