-- ===== src/Controller/Workflow.antt =====
-- controllers/addon_controller.go: `runWorkflow`, `validateSecrets` and `executePrereqAndInstall`.
use addon_manager.Workflows.Install.{install_workflow}
use addon_manager.Common.{
  String, Bool, true, false, Option, none, some, List, [], ◌∷◌, ◌==◌, if◌then◌else◌, Error, errorf,
  Reply, found, failure, ◌+++◌,
}
use addon_manager.Api.Phase.{
  Phase, unset, succeeded, failed, delete_failed, delete_succeeded, is_completed, is_succeeded,
  is_failed, LifecycleStep, prereqs, install, delete, validate, other,
}
use addon_manager.Api.Spec.{WorkflowType, SecretCmdSpec}
use addon_manager.Api.Addon.{Addon, get_workflow_type, get_formatted_workflow_name}
use addon_manager.Helpers.{contains_string, convert_workflow_phase_to_addon_phase}
use addon_manager.Cluster.{Workflow, Ended, Sys, ended, unwound}
use addon_manager.Controller.Types.{Env, Run, mark, set_install, event, full_name, in_sys}

abbrev is_delete_end : Phase → Bool
is_delete_end delete_failed = true
is_delete_end delete_succeeded = true
is_delete_end _ = false

-- The tests at the head of `runWorkflow`: the step has run already.
unfoldable pub step_completed : LifecycleStep → Addon → Bool
step_completed prereqs a = is_completed a.status.lifecycle.prereqs
step_completed install a = is_completed a.status.lifecycle.installed
step_completed delete a = is_delete_end a.status.lifecycle.installed
step_completed validate a = false
step_completed (other s) a = false

-- `strings.Title` of a lifecycle step; another text never comes to be submitted.
abbrev title : LifecycleStep → String
title prereqs = "Prereqs"
title install = "Install"
title delete = "Delete"
title validate = "Validate"
title (other s) = s

abbrev pub mark_phase : {W : Type 0} → LifecycleStep → Phase → Run W → Run W
mark_phase step unset r = r
mark_phase step phase r = mark step phase r

-- The workflow's phase on the addon's status; a failed read is not fatal.
abbrev pub sync_phase : {W : Type 0} → LifecycleStep → Reply Workflow → Run W → Run W
sync_phase step (failure e) r = r
sync_phase step (found wf) r =
    mark_phase step (convert_workflow_phase_to_addon_phase step wf.phase) r

-- The loop over `addon.Spec.Secrets`.
unfoldable pub missing_secret : Addon → List String → List SecretCmdSpec → Option Error
missing_secret a names [] = none
missing_secret a names (secret ∷ secrets) =
    let rest = missing_secret a names secrets in
    if contains_string names secret.name
    then rest
    else some (
        errorf (
          "addon " +++ a.name +++ " needs secret \"" +++ secret.name
          +++ "\" that was not found in namespace " +++ a.spec.params.namespace))

module _ {W V F : Type 0} (env : Env W V F) where
  -- From the answer of `wfl.Install` to the end.
  unfoldable pub submitted : LifecycleStep → String → Ended (Sys W) → Run W → Ended (Run W)
  submitted step name (unwound text s) r = unwound text (in_sys s r)
  submitted step name (ended (some e) s) r = ended (some e) (mark step failed (in_sys s r))
  submitted step name (ended none s) r = ended none (
      sync_phase step
        (env.kube.get_workflow (record { namespace = r.instance_addon.namespace; name = name })
          s.world)
        (event "Normal" "Submitted"
          ("Submitted "
            +++ title step
            +++ " workflow "
            +++ r.instance_addon.namespace
            +++ "/"
            +++ name
            +++ ".")
          (in_sys s r)))

  -- The workflow type of the step: an empty template counts as a success.
  unfoldable pub run_template : LifecycleStep → WorkflowType → Run W → Ended (Run W)
  run_template step wt r =
      let name = get_formatted_workflow_name env.spec_bytes r.instance_addon step in
      if wt.template == ""
      then ended none (mark step succeeded r)
      else if name == ""
      then ended (some (errorf "could not generate workflow template name")) (mark step failed r)
      else submitted step name
          (install_workflow env.docs env.objects env.client r.instance_addon name wt r.sys) r

  unfoldable pub run_workflow : LifecycleStep → Run W → Ended (Run W)
  run_workflow step r =
      if step_completed step r.instance_addon
      then ended none r
      else elim (get_workflow_type r.instance_addon step) [
        | failure e ↦ ended (some e) (mark step failed r)
        | found wt ↦ run_template step wt r
      ]

  unfoldable pub validate_secrets : Addon → W → Option Error
  validate_secrets a w = elim (env.kube.list_secrets a.spec.params.namespace w) [
    | failure e ↦ some e
    | found names ↦ missing_secret a names a.spec.secrets
  ]

  -- After the secrets have been found.
  unfoldable pub run_install : Ended (Run W) → Ended (Run W)
  run_install (unwound text r) = unwound text r
  run_install (ended none r) = ended none r
  run_install (ended (some e) r) = ended (some e) (
      event "Warning" "Failed"
        ("Addon " +++ full_name r +++ " could not be installed due to error. " +++ e.text) r)

  unfoldable pub secrets_failed : Error → Run W → Ended (Run W)
  secrets_failed e r =
      let reason = "Addon " +++ full_name r +++ " could not validate secrets. " +++ e.text in
      ended (some e) (set_install failed (reason ∷ []) (event "Warning" "Failed" reason r))

  unfoldable pub install_phase : Run W → Ended (Run W)
  install_phase r = elim (validate_secrets r.instance_addon r.sys.world) [
    | some e ↦ secrets_failed e r
    | none ↦ run_install (run_workflow install r)
  ]

  unfoldable pub after_prereqs : Ended (Run W) → Ended (Run W)
  after_prereqs (unwound text r) = unwound text r
  after_prereqs (ended (some e) r) =
      ended (some e)
        (event "Warning" "Failed" ("Addon " +++ full_name r +++ " prereqs failed. " +++ e.text) r)
  after_prereqs (ended none r) =
      if is_succeeded r.instance_addon.status.lifecycle.prereqs
      then install_phase r
      else if is_failed r.instance_addon.status.lifecycle.prereqs
      then ended none (set_install failed [] r)
      else ended none r

  unfoldable pub execute_prereq_and_install : Run W → Ended (Run W)
  execute_prereq_and_install r = after_prereqs (run_workflow prereqs r)
