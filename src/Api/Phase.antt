-- ===== src/Api/Phase.antt =====
-- api/addon/v1alpha1/addon_types.go: the phases, the lifecycle steps and the phase predicates.
use addon_manager.Common.{String, Bool, true, false, ◌||◌}

-- `ApplicationAssemblyPhase`; `unset` is the empty string of a status never written.
pub data Phase : Type 0 where
  unset pending succeeded failed validation_failed deleting delete_failed delete_succeeded : Phase

abbrev pub phase_text : Phase → String
phase_text unset = ""
phase_text pending = "Pending"
phase_text succeeded = "Succeeded"
phase_text failed = "Failed"
phase_text validation_failed = "Validation Failed"
phase_text deleting = "Deleting"
phase_text delete_failed = "Delete Failed"
phase_text delete_succeeded = "Delete Succeeded"

-- `LifecycleStep`, a string type: its four constants, and any other text.
pub data LifecycleStep : Type 0 where
  prereqs install delete validate : LifecycleStep
  other : String → LifecycleStep

abbrev pub step_text : LifecycleStep → String
step_text prereqs = "prereqs"
step_text install = "install"
step_text delete = "delete"
step_text validate = "validate"
step_text (other s) = s

-- `Succeeded()`.
abbrev pub is_succeeded : Phase → Bool
is_succeeded succeeded = true
is_succeeded delete_succeeded = true
is_succeeded _ = false

-- `Failed()`.
abbrev pub is_failed : Phase → Bool
is_failed failed = true
is_failed delete_failed = true
is_failed _ = false

-- `Completed()`.
abbrev pub is_completed : Phase → Bool
is_completed p = is_succeeded p || is_failed p

-- `Deleting()`.
abbrev pub is_deleting : Phase → Bool
is_deleting deleting = true
is_deleting delete_failed = true
is_deleting delete_succeeded = true
is_deleting _ = false

-- `Running()`.
abbrev pub is_running : Phase → Bool
is_running pending = true
is_running validation_failed = true
is_running _ = false
