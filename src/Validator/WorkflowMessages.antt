-- ===== src/Validator/WorkflowMessages.antt =====
-- pkg/addon/addon_validator.go: no error of `validateWorkflow` begins with `ErrDepPending`.
use addon_manager.Common.{
  ℕ, String, refl, inl, inr, Option, none, some, List, [], ◌∷◌, ◌==◌, Bool-cases, Option-cases,
  is_some, Result, ok, err, panic, Assoc, lookup, has_prefix, diverges, Errs, Errs-bind,
}
use addon_manager.Api.Phase.{LifecycleStep}
use addon_manager.Api.Spec.{AddonSpec, WorkflowType}
use addon_manager.Api.Addon.{Addon}
use addon_manager.Document.{Value, obj, str, Items, nil, cons, Fields, Documents, get_field}
use addon_manager.Validator.Messages.{NotPending, NotPending-text}
use addon_manager.Validator.Workflow.{
  as_name, param_name, overlap, check_overlaps, found_in, check_found, check_arguments,
  check_parameters, check_document, gvk_eq, argo_gvk, invalid_template, load_template,
  workflow_type_of, check_workflow, check_workflows,
}

as_name-NotPending : (o : Option Value) → Errs NotPending (as_name o)
unfolding as_name
as_name-NotPending (some (str s)) = tt
as_name-NotPending _ = tt

param_name-NotPending : (p : Value) → Errs NotPending (param_name p)
unfolding param_name
param_name-NotPending (obj fs) = as_name-NotPending (get_field "name" fs)
param_name-NotPending _ = tt

check_overlaps-NotPending :
    (params : Assoc String) (wf_name : String) (ps : Items)
    → Errs NotPending (check_overlaps params wf_name ps)
unfolding check_overlaps overlap diverges
check_overlaps-NotPending params wf_name nil = tt
check_overlaps-NotPending params wf_name (cons p ps) =
    Errs-bind NotPending (param_name p) _ (param_name-NotPending p) λ name.
      elim (Bool-cases (is_some (lookup name params))) [
        | inl hit ↦ rw hit (NotPending-text _ _ refl)
        | inr miss ↦ rw miss (check_overlaps-NotPending params wf_name ps)
      ]

module _ (docs : Documents) (spec_bytes : AddonSpec → List ℕ) where
  found_in-NotPending :
      {A : Type 0} (r : Result (Option A)) → Errs NotPending (found_in docs spec_bytes r)
  unfolding found_in
  found_in-NotPending (ok x) = tt
  found_in-NotPending (err e) = tt
  found_in-NotPending (panic s) = tt

  check_found-NotPending :
      (a : Addon) (key : LifecycleStep) (ps : Option Items)
      → Errs NotPending (check_found docs spec_bytes a key ps)
  unfolding check_found
  check_found-NotPending a key none = tt
  check_found-NotPending a key (some ps) = check_overlaps-NotPending _ _ ps

  check_arguments-NotPending :
      (a : Addon) (key : LifecycleStep) (content : Fields) (x : Option Fields)
      → Errs NotPending (check_arguments docs spec_bytes a key content x)
  unfolding check_arguments
  check_arguments-NotPending a key content none = tt
  check_arguments-NotPending a key content (some m) =
      let r = docs.nested_slice content ("spec" ∷ "arguments" ∷ "parameters" ∷ []) in
      Errs-bind NotPending (found_in docs spec_bytes r) _ (found_in-NotPending r)
        (check_found-NotPending a key)

  check_parameters-NotPending :
      (a : Addon) (key : LifecycleStep) (content : Fields)
      → Errs NotPending (check_parameters docs spec_bytes a key content)
  unfolding check_parameters
  check_parameters-NotPending a key content =
      let r = docs.nested_map content ("spec" ∷ "arguments" ∷ []) in
      Errs-bind NotPending (found_in docs spec_bytes r) _ (found_in-NotPending r)
        (check_arguments-NotPending a key content)

  check_document-NotPending :
      (a : Addon) (key : LifecycleStep) (content : Fields)
      → Errs NotPending (check_document docs spec_bytes a key content)
  unfolding check_document has_prefix
  check_document-NotPending a key content =
      elim (Bool-cases (gvk_eq (docs.group_version_kind content) argo_gvk)) [
        | inr other ↦ rw (other, check_document) refl
        | inl same ↦ elim (Bool-cases (is_some (get_field "spec" content))) [
          | inr missing ↦ rw (same, missing, check_document) refl
          | inl found ↦ rw (same, found, check_document) (check_parameters-NotPending a key content)
        ]
      ]

  load_template-NotPending :
      (key : LifecycleStep) (r : Result Fields)
      → Errs NotPending (load_template docs spec_bytes key r)
  unfolding load_template invalid_template diverges
  load_template-NotPending key (ok c) = tt
  load_template-NotPending key (err e) = NotPending-text _ _ refl
  load_template-NotPending key (panic s) = tt

  check_workflow-NotPending :
      (a : Addon) (key : LifecycleStep) (wt : WorkflowType) (content : Fields)
      → Errs NotPending (check_workflow docs spec_bytes a key wt content)
  unfolding check_workflow
  check_workflow-NotPending a key wt content = elim (Bool-cases (wt.template == "")) [
    | inl empty ↦ rw (empty, check_workflow) tt
    | inr given ↦
        rw (given, check_workflow)
          (Errs-bind NotPending
            (load_template docs spec_bytes key (docs.unmarshal wt.template content)) _
            (load_template-NotPending key (docs.unmarshal wt.template content))
            λ c.
              Errs-bind NotPending (check_document docs spec_bytes a key c) (λ _. ok c)
                (check_document-NotPending a key c) λ _. tt)
  ]

  pub check_workflows-NotPending :
      (a : Addon) (keys : List LifecycleStep) (content : Fields)
      → Errs NotPending (check_workflows docs spec_bytes a keys content)
  unfolding check_workflows
  check_workflows-NotPending a [] content = tt
  check_workflows-NotPending a (key ∷ keys) content = elim (Option-cases (workflow_type_of a key)) [
    | inl missing ↦ rw (missing, check_workflows) (check_workflows-NotPending a keys content)
    | inr (wt, found) ↦
        rw (found, check_workflows)
          (Errs-bind NotPending (check_workflow docs spec_bytes a key wt content) _
            (check_workflow-NotPending a key wt content) λ c. check_workflows-NotPending a keys c)
  ]
