-- ===== src/Updater/Workflows.antt =====
-- pkg/addon/addon_update.go, `UpdateAddonStatusLifecycleFromWorkflow`: which workflows are heard.
use addon_manager.Common.{
  ℕ, String, ◌≡◌, refl, sym, ap, subst, ◌∙◌, ◌≢◌, ◌⊎◌, inl, inr, true, none, List, ◌==◌, eq_iff,
  Bool-cases, found,
}
use addon_manager.Api.Phase.{
  Phase, pending, succeeded, failed, deleting, delete_failed, delete_succeeded, is_completed,
  LifecycleStep, prereqs, install, delete,
}
use addon_manager.Api.Spec.{AddonSpec}
use addon_manager.Api.Addon.{Addon, calculate_checksum, get_formatted_workflow_name}
use addon_manager.Helpers.{
  WorkflowPhase, workflow_pending, workflow_running, workflow_succeeded, workflow_failed,
  workflow_error, extract_checksum_and_lifecycle_step,
}
use addon_manager.Helpers.Names.{IsKnown, extract-get_formatted_workflow_name}
use addon_manager.Cluster.{Workflow, Kube, Sys}
use addon_manager.Updater.{Retry, apply_workflow, update_addon_status_lifecycle_from_workflow}

-- The phases of the prerequisites and of the installation, and the reason.
abbrev pub Shown : Type 0
Shown = Phase × Phase × String

-- The addon has this status.
abbrev pub Shows : Addon → Shown → Type 0
Shows a (prereqs_phase, install_phase, reason) =
    (a.status.lifecycle.prereqs ≡ prereqs_phase)
    × (a.status.lifecycle.installed ≡ install_phase)
    × (a.status.reason ≡ reason)

-- What a workflow's phase and message say of an addon, for each step.
abbrev pub reported : LifecycleStep → WorkflowPhase → String → Addon → Shown
reported prereqs workflow_pending message a = (pending, pending, "")
reported prereqs workflow_running message a = (pending, pending, "")
reported prereqs workflow_succeeded message a = (succeeded, pending, "")
reported prereqs workflow_failed message a = (failed, failed, message)
reported prereqs workflow_error message a = (failed, failed, message)
reported install workflow_pending message a = (a.status.lifecycle.prereqs, pending, "")
reported install workflow_running message a = (a.status.lifecycle.prereqs, pending, "")
reported install workflow_succeeded message a = (a.status.lifecycle.prereqs, succeeded, "")
reported install workflow_failed message a = (a.status.lifecycle.prereqs, failed, message)
reported install workflow_error message a = (a.status.lifecycle.prereqs, failed, message)
reported delete workflow_pending message a = (a.status.lifecycle.prereqs, deleting, "")
reported delete workflow_running message a = (a.status.lifecycle.prereqs, deleting, "")
reported delete workflow_succeeded message a = (a.status.lifecycle.prereqs, delete_succeeded, "")
reported delete workflow_failed message a = (a.status.lifecycle.prereqs, delete_failed, message)
reported delete workflow_error message a = (a.status.lifecycle.prereqs, delete_failed, message)
reported step phase message a =
    (a.status.lifecycle.prereqs, a.status.lifecycle.installed, a.status.reason)

module _ {W : Type 0} (kube : Kube W) (retry : Retry W) (spec_bytes : AddonSpec → List ℕ) where
  other_checksum :
      (existing : Addon) (wf : Workflow) (checksum : String) (step : LifecycleStep) (s : Sys W)
      → checksum ≢ calculate_checksum spec_bytes existing
      → apply_workflow kube retry spec_bytes existing wf (found (checksum, step)) s ≡ (none, s)
  unfolding apply_workflow
  other_checksum existing wf checksum step s h =
      elim (Bool-cases (get_formatted_workflow_name spec_bytes existing step == wf.name)) [
        | inr other_name ↦ rw other_name refl
        | inl same_name ↦ elim (Bool-cases (calculate_checksum spec_bytes existing == checksum)) [
          | inl same ↦ absurd (h (sym ((eq_iff _ _).0 same)))
          | inr differs ↦ rw (same_name, differs) refl
        ]
      ]

  -- A workflow has nothing to say about an addon that has completed, nor about one whose checksum
  -- is another than that in the workflow's name, which was made for the addon `old`: nothing changes.
  pub stale_workflow_ignored :
      (existing old : Addon) (step : LifecycleStep) (wf : Workflow) (namespace name : String)
      (s : Sys W)
      → kube.get_addon (record { namespace = namespace; name = name }) s.world ≡ found existing
      → IsKnown spec_bytes old step
      → wf.name ≡ get_formatted_workflow_name spec_bytes old step
      → (is_completed existing.status.lifecycle.installed ≡ true)
        ⊎ (calculate_checksum spec_bytes old ≢ calculate_checksum spec_bytes existing)
      → update_addon_status_lifecycle_from_workflow kube retry spec_bytes namespace name wf s
        ≡ (none, s)
  unfolding update_addon_status_lifecycle_from_workflow
  stale_workflow_ignored existing old step wf namespace name s e known named why =
      rw (e, update_addon_status_lifecycle_from_workflow)
        (elim (Bool-cases (is_completed existing.status.lifecycle.installed)) [
          | inl done ↦ rw done refl
          | inr running ↦ rw running (
              subst (λ x. apply_workflow kube retry spec_bytes existing wf x s ≡ (none, s))
                (sym (
                  ap extract_checksum_and_lifecycle_step named
                  ∙ extract-get_formatted_workflow_name spec_bytes old step known))
                (other_checksum existing wf (calculate_checksum spec_bytes old) step s
                  (elim why [ inl done ↦ cc | inr differs ↦ differs ])))
        ])
