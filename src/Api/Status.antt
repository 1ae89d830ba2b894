-- ===== src/Api/Status.antt =====
-- api/addon/v1alpha1/addon_types.go: the methods that write an addon's status. A method on the
-- pointer returns the addon that it leaves.
use addon_manager.Common.{String, Option, none, some, List, [], Error, errorf, ◌+++◌, join}
use addon_manager.Api.Phase.{
  Phase, unset, pending, succeeded, failed, validation_failed, delete_failed, delete_succeeded,
  phase_text, LifecycleStep, prereqs, install, delete, validate, other,
}
use addon_manager.Api.Addon.{Addon}

-- The reason that `SetInstallStatus` leaves beside a phase.
unfoldable pub reason_for : Phase → List String → String
unfolding join
reason_for pending reasons = join ", " reasons
reason_for validation_failed reasons = join ", " reasons
reason_for delete_failed reasons = join ", " reasons
reason_for failed reasons = join ", " reasons
reason_for _ reasons = ""

abbrev pub set_installed : Phase → String → Addon → Addon
set_installed phase reason a = record a {
  status = record a.status {
    lifecycle = record a.status.lifecycle { installed = phase };
    reason = reason;
  };
}

abbrev pub set_prereqs : Phase → Addon → Addon
set_prereqs phase a = record a {
  status = record a.status { lifecycle = record a.status.lifecycle { prereqs = phase } };
}

unfoldable pub set_install_status : Phase → List String → Addon → Addon
unfolding reason_for
set_install_status phase reasons a = set_installed phase (reason_for phase reasons) a

unfoldable pub unsupported : Phase → Addon → Addon × Option Error
unsupported phase a = (
  set_prereqs unset a,
  some (errorf ("unknown phase " +++ phase_text phase +++ ", is not supported for prereqs status")),
)

unfoldable pub set_prereq_and_install_statuses : Phase → List String → Addon → Addon × Option Error
unfolding set_install_status unsupported
set_prereq_and_install_statuses pending reasons a =
    (set_install_status pending [] (set_prereqs pending a), none)
set_prereq_and_install_statuses failed reasons a =
    (set_install_status failed reasons (set_prereqs failed a), none)
set_prereq_and_install_statuses succeeded reasons a =
    (set_install_status pending [] (set_prereqs succeeded a), none)
set_prereq_and_install_statuses phase reasons a = unsupported phase a

-- The phase that the `Delete` case of `SetStatusByLifecyleStep` writes.
unfoldable pub delete_phase : Phase → Phase
delete_phase succeeded = delete_succeeded
delete_phase failed = delete_failed
delete_phase phase = phase

unfoldable pub set_status_by_lifecycle_step :
    LifecycleStep → Phase → List String → Addon → Addon × Option Error
unfolding set_prereq_and_install_statuses delete_phase
set_status_by_lifecycle_step prereqs phase reasons a =
    set_prereq_and_install_statuses phase reasons a
set_status_by_lifecycle_step install phase reasons a = (set_install_status phase reasons a, none)
set_status_by_lifecycle_step delete phase reasons a =
    (set_install_status (delete_phase phase) reasons a, none)
set_status_by_lifecycle_step validate phase reasons a = (a, none)
set_status_by_lifecycle_step (other s) phase reasons a = (a, none)

unfoldable pub clear_status : Addon → Addon
clear_status a = record a {
  status = record a.status {
    lifecycle = record { prereqs = unset; installed = unset };
    reason = "";
  };
}
