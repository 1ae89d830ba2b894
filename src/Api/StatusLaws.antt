-- ===== src/Api/StatusLaws.antt =====
-- api/addon/v1alpha1/addon_types.go: the status methods keep the reason in step with the phase.
use addon_manager.Common.{String, ◌≡◌, refl, ◌⊎◌, inl, inr, List}
use addon_manager.Api.Phase.{
  Phase, pending, succeeded, failed, validation_failed, delete_failed, LifecycleStep, prereqs,
  install, delete, validate, other,
}
use addon_manager.Api.Addon.{Addon}
use addon_manager.Api.Status.{
  reason_for, set_install_status, set_prereq_and_install_statuses, delete_phase,
  set_status_by_lifecycle_step,
}

-- A phase that comes with a reason.
abbrev WantsReason : Phase → Type 0
WantsReason pending = Unit
WantsReason validation_failed = Unit
WantsReason delete_failed = Unit
WantsReason failed = Unit
WantsReason _ = ⊥

-- A status shows a reason only beside a phase that comes with one.
abbrev IsCoherent : Addon → Type 0
IsCoherent a = (a.status.reason ≡ "") ⊎ WantsReason a.status.lifecycle.installed

reason_for-coherent :
    (p : Phase) (reasons : List String) → (reason_for p reasons ≡ "") ⊎ WantsReason p
unfolding reason_for
reason_for-coherent pending reasons = inr tt
reason_for-coherent validation_failed reasons = inr tt
reason_for-coherent delete_failed reasons = inr tt
reason_for-coherent failed reasons = inr tt
reason_for-coherent _ reasons = inl refl

set_install_status-IsCoherent :
    (p : Phase) (reasons : List String) (a : Addon) → IsCoherent (set_install_status p reasons a)
unfolding set_install_status
set_install_status-IsCoherent p reasons a = reason_for-coherent p reasons

set_prereq-IsCoherent :
    (p : Phase) (reasons : List String) (a : Addon)
    → IsCoherent a
    → IsCoherent (set_prereq_and_install_statuses p reasons a).0
unfolding set_prereq_and_install_statuses
set_prereq-IsCoherent pending reasons a h = inr tt
set_prereq-IsCoherent failed reasons a h = inr tt
set_prereq-IsCoherent succeeded reasons a h = inr tt
set_prereq-IsCoherent _ reasons a h = h

-- Writing a phase for any lifecycle step keeps a reason only beside a phase that comes with one.
set_status_by_lifecycle_step-IsCoherent :
    (step : LifecycleStep) (p : Phase) (reasons : List String) (a : Addon)
    → IsCoherent a
    → IsCoherent (set_status_by_lifecycle_step step p reasons a).0
unfolding set_status_by_lifecycle_step
set_status_by_lifecycle_step-IsCoherent prereqs p reasons a h = set_prereq-IsCoherent p reasons a h
set_status_by_lifecycle_step-IsCoherent install p reasons a h =
    set_install_status-IsCoherent p reasons a
set_status_by_lifecycle_step-IsCoherent delete p reasons a h =
    set_install_status-IsCoherent (delete_phase p) reasons a
set_status_by_lifecycle_step-IsCoherent validate p reasons a h = h
set_status_by_lifecycle_step-IsCoherent (other s) p reasons a h = h
