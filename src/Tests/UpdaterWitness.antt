-- ===== src/Tests/UpdaterWitness.antt =====
-- Runs of the addon updater.
use addon_manager.Common.{◌≡◌, refl, inl, none, [], lookup, insert}
use addon_manager.Api.Addon.{Addon, get_formatted_workflow_name}
use addon_manager.Api.Phase.{install, pending, succeeded}
use addon_manager.Cluster.{Workflow}
use addon_manager.Helpers.{workflow_succeeded}
use addon_manager.Tests.Fixtures.{once, once_law, system, web, kube, spec_bytes}
use addon_manager.Updater.{
  attempt, cached_version, finish_update, get_status_mutex, is_stale,
  update_addon_status_lifecycle_from_workflow, update_status,
}
use addon_manager.Updater.Guard.{update_status_refused, update_status_written}
use addon_manager.Updater.Workflows.{stale_workflow_ignored}
use addon_manager.VersionCache.{add_version}

update_status_refused_example :
    (update_status kube once spec_bytes (web pending) (system (web succeeded) [])).1.cache ≡ []
update_status_refused_example =
    (update_status_refused kube once spec_bytes (web pending) (web succeeded)
      (system (web succeeded) []) once_law refl refl refl refl).2

update_status_written_example :
    (update_status kube once spec_bytes (web succeeded) (system (web pending) [])).1.cache
    ≡ add_version (cached_version (web succeeded)) []
unfolding update_status attempt is_stale finish_update get_status_mutex lookup insert
update_status_written_example =
    (update_status_written kube once spec_bytes (web succeeded) (system (web pending) []) once_law
      refl).1

abbrev workflow_of : Addon → Workflow
workflow_of a = record {
  namespace = "system";
  name = get_formatted_workflow_name spec_bytes a install;
  deletion_timestamp = none;
  owner = none;
  phase = workflow_succeeded;
  message = "";
}

stale_workflow_ignored_example :
    update_addon_status_lifecycle_from_workflow kube once spec_bytes "system" "web"
      (workflow_of (web pending))
      (system (web succeeded) [])
    ≡ (none, system (web succeeded) [])
stale_workflow_ignored_example =
    stale_workflow_ignored kube once spec_bytes (web succeeded) (web pending) install
      (workflow_of (web pending)) "system" "web" (system (web succeeded) []) refl tt refl (inl refl)
