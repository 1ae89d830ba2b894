-- ===== src/Validator/Workflow.antt =====
-- pkg/addon/addon_validator.go: `validateWorkflow`.
use addon_manager.Common.{
  ℕ, String, Bool, ◌&&◌, Option, none, some, List, [], ◌∷◌, ◌==◌, if◌then◌else◌, is_some, Error,
  errorf, Result, ok, err, panic, ◌>>=◌, ◌>>◌, ◌+++◌, quote, Assoc, lookup,
}
use addon_manager.Api.Phase.{LifecycleStep, prereqs, install, delete, validate, other, step_text}
use addon_manager.Api.Spec.{WorkflowType, AddonSpec}
use addon_manager.Api.Addon.{Addon, get_all_addon_parameters, get_formatted_workflow_name}
use addon_manager.Document.{
  Value, str, obj, Items, nil, cons, Fields, end, get_field, GroupVersionKind, Documents,
}

abbrev pub argo_gvk : GroupVersionKind
argo_gvk = record { kind = "Workflow"; group = "argoproj.io"; version = "v1alpha1" }

unfoldable pub gvk_eq : GroupVersionKind → GroupVersionKind → Bool
gvk_eq g h = (g.kind == h.kind) && (g.group == h.group) && (g.version == h.version)

-- `wfParam.(map[string]interface{})["name"].(string)`: any other shape panics.
unfoldable pub as_name : Option Value → Result String
as_name (some (str s)) = ok s
as_name _ = panic "interface conversion: interface {} is not string"

unfoldable pub param_name : Value → Result String
unfolding as_name
param_name (obj fs) = as_name (get_field "name" fs)
param_name _ = panic "interface conversion: interface {} is not map[string]interface {}"

unfoldable pub overlap : String → String → Error
overlap name wf_name = errorf (
    "invalid workflow, parameter named "
    +++ quote name
    +++ " found in addon params and in workflow "
    +++ wf_name)

-- The loop over `wfParameters`.
unfoldable pub check_overlaps : Assoc String → String → Items → Result (Unit {0})
unfolding param_name overlap
check_overlaps addon_params wf_name nil = ok tt
check_overlaps addon_params wf_name (cons p ps) = do
  name ← param_name p
  let rest = check_overlaps addon_params wf_name ps
  if is_some (lookup name addon_params) then err (overlap name wf_name) else rest

-- The step's entry of `workflowTypes`.
abbrev pub workflow_type_of : Addon → LifecycleStep → Option WorkflowType
workflow_type_of a prereqs = some a.spec.lifecycle.prereqs
workflow_type_of a install = some a.spec.lifecycle.install
workflow_type_of a delete = some a.spec.lifecycle.delete
workflow_type_of a validate = some a.spec.lifecycle.validate
workflow_type_of a (other s) = none

module _ (docs : Documents) (spec_bytes : AddonSpec → List ℕ) where
  -- The third result of `NestedMap` and `NestedSlice`, an error, is dropped: it counts as not found.
  unfoldable pub found_in : {A : Type 0} → Result (Option A) → Result (Option A)
  found_in (ok x) = ok x
  found_in (err e) = ok none
  found_in (panic s) = panic s

  -- The loop over the parameters, if there are any.
  unfoldable pub check_found : Addon → LifecycleStep → Option Items → Result (Unit {0})
  unfolding check_overlaps
  check_found a key none = ok tt
  check_found a key (some wf_parameters) =
      check_overlaps (get_all_addon_parameters a) (get_formatted_workflow_name spec_bytes a key)
        wf_parameters

  -- The parameters are looked for if there are arguments.
  unfoldable pub check_arguments :
      Addon → LifecycleStep → Fields → Option Fields → Result (Unit {0})
  unfolding check_found found_in
  check_arguments a key content none = ok tt
  check_arguments a key content (some arguments) = do
    ps ← found_in (docs.nested_slice content ("spec" ∷ "arguments" ∷ "parameters" ∷ []))
    check_found a key ps

  -- From `NestedMap` to the end of one round of the loop.
  unfoldable pub check_parameters : Addon → LifecycleStep → Fields → Result (Unit {0})
  unfolding check_arguments found_in
  check_parameters a key content = do
    arguments ← found_in (docs.nested_map content ("spec" ∷ "arguments" ∷ []))
    check_arguments a key content arguments

  unfoldable pub check_document : Addon → LifecycleStep → Fields → Result (Unit {0})
  unfolding check_parameters gvk_eq
  check_document a key content =
      if gvk_eq (docs.group_version_kind content) argo_gvk
      then if is_some (get_field "spec" content)
        then check_parameters a key content
        else err (errorf "invalid workflow, missing spec")
      else err (
          errorf
            "invalid workflow, type is not a valid kind Workflow and api-version argoproj.io/v1alpha1")

  unfoldable pub invalid_template : LifecycleStep → Error → Error
  invalid_template key e =
      errorf ("invalid workflow template " +++ quote (step_text key) +++ ". " +++ e.text)

  -- `yaml.Unmarshal` of one template into `content`, with its error wrapped.
  unfoldable pub load_template : LifecycleStep → Result Fields → Result Fields
  unfolding invalid_template
  load_template key (ok content) = ok content
  load_template key (err e) = err (invalid_template key e)
  load_template key (panic s) = panic s

  -- One round: the map `content` is declared outside the loop, and each template is decoded into it.
  unfoldable pub check_workflow : Addon → LifecycleStep → WorkflowType → Fields → Result Fields
  unfolding check_document load_template
  check_workflow a key wt content = if wt.template == "" then ok content else do
    content' ← load_template key (docs.unmarshal wt.template content)
    check_document a key content'
    ok content'

  unfoldable pub check_workflows : Addon → List LifecycleStep → Fields → Result (Unit {0})
  unfolding check_workflow
  check_workflows a [] content = ok tt
  check_workflows a (key ∷ keys) content = elim (workflow_type_of a key) [
    | none ↦ check_workflows a keys content
    | some wt ↦ check_workflow a key wt content >>= check_workflows a keys
  ]

  unfoldable pub validate_workflow : List LifecycleStep → Addon → Result (Unit {0})
  unfolding check_workflows
  validate_workflow order a = check_workflows a order end
