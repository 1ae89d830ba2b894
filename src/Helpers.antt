-- ===== src/Helpers.antt =====
-- pkg/common/helpers.go: strings in lists, expiry, and what a workflow's phase and name say.
pub mod Lists
pub mod Names
use addon_manager.Common.{
  ℕ, zero, suc, ◌+◌, ◌-◌, ◌*◌, ◌/◌, ◌%◌, ◌^◌, ◌≤◌, ◌<◌, Char, code, String, ◌≡◌, refl, sym, ap,
  subst, ◌∙◌, ◌≢◌, ◌↔◌, ◌⊎◌, inl, inr, Bool, true, false, not, ◌&&◌, ◌||◌, Option, none, some, List,
  [], ◌∷◌, ◌++◌, map, arith, ◌==◌, starts_with, eq_iff, eq_refl, leb, ltb, eqb, if◌then◌else◌,
  Bool-cases, Option-cases, is_some, Reason, unknown, not_found, already_exists, conflict, Error,
  errorf, Result, ok, err, panic, Reply, found, failure, Reply-cases, bind, >>=-eq-ok, >>=-eq-panic,
  >>-eq-ok, ◌>>=◌, ◌>>◌, length, get_elem?, length-append, get_elem?-append, All, ◌+++◌, len,
  is_space, trim_left, trim_right, trim_space, cons_head, split, join, hex_digit, quote, Assoc,
  lookup, insert, remove, lookup-insert, lookup-remove, All-lookup, All-insert, All-remove,
  has_prefix, diverges, has_prefix-append, has_prefix-append_of_diverges, Errs, Errs-bind, Errs-err,
}
use addon_manager.Api.Phase.{
  Phase, unset, pending, succeeded, failed, deleting, delete_failed, delete_succeeded,
  LifecycleStep, prereqs, install, delete, validate, other,
}

unfoldable pub contains_string : List String → String → Bool
contains_string [] s = false
contains_string (item ∷ items) s = (item == s) || contains_string items s

unfoldable pub remove_string : List String → String → List String
remove_string [] s = []
remove_string (item ∷ items) s =
    let rest = remove_string items s in if item == s then rest else item ∷ rest

-- `IsExpired` at the time `now`, in milliseconds: the difference of the source is moved to the
-- other side of the test, so that no number is negative.
unfoldable pub is_expired : ℕ → ℕ → ℕ → Bool
is_expired now start_time ttl_time = leb (start_time + ttl_time) now

-- `wfv1.WorkflowPhase`; `WorkflowUnknown` is the empty string.
pub data WorkflowPhase : Type 0 where
  workflow_unknown workflow_pending workflow_running : WorkflowPhase
  workflow_succeeded workflow_failed workflow_error : WorkflowPhase

-- `if lifecycle == addonv1.Delete`.
abbrev on_delete : LifecycleStep → Phase → Phase → Phase
on_delete delete p q = p
on_delete _ p q = q

unfoldable pub convert_workflow_phase_to_addon_phase : LifecycleStep → WorkflowPhase → Phase
convert_workflow_phase_to_addon_phase l workflow_pending = on_delete l deleting pending
convert_workflow_phase_to_addon_phase l workflow_running = on_delete l deleting pending
convert_workflow_phase_to_addon_phase l workflow_succeeded = on_delete l delete_succeeded succeeded
convert_workflow_phase_to_addon_phase l workflow_failed = on_delete l delete_failed failed
convert_workflow_phase_to_addon_phase l workflow_error = on_delete l delete_failed failed
convert_workflow_phase_to_addon_phase l workflow_unknown = unset

-- `parts[i]`, for an index in range.
unfoldable pub part : List String → ℕ → String
part parts i = elim (get_elem? parts i) [ none ↦ "" | some s ↦ s ]

-- The `switch` on the lifecycle part of the name.
unfoldable pub step_of : String → Option LifecycleStep
step_of s =
    if s == "prereqs"
    then some prereqs
    else if s == "install"
    then some install
    else if s == "validate"
    then some validate
    else if s == "delete"
    then some delete
    else none

step_or_error : String → String → Option LifecycleStep → Reply (String × LifecycleStep)
step_or_error name checksum none = failure (errorf ("invalid lifecycle in workflow name " +++ name))
step_or_error name checksum (some step) = found (checksum, step)

-- The checks on the parts of a name.
unfoldable pub extract_from : String → List String → Reply (String × LifecycleStep)
unfolding step_or_error
extract_from name parts =
    let n = length parts in
    if ltb n 4 || not (trim_space (part parts (n - 1)) == "wf")
    then failure (errorf ("invalid workflow name " +++ name))
    else step_or_error name (trim_space (part parts (n - 2)))
        (step_of (trim_space (part parts (n - 3))))

unfoldable pub extract_checksum_and_lifecycle_step : String → Reply (String × LifecycleStep)
unfolding extract_from
extract_checksum_and_lifecycle_step name = extract_from name (split b'-' name)
