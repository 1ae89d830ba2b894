-- ===== src/Validator/Names.antt =====
-- pkg/addon/addon_validator.go, `validateWorkflow`: on named parameters it does not panic.
use addon_manager.Common.{
  ℕ, String, ◌≡◌, refl, ◌≢◌, inl, inr, none, Option, some, List, [], ◌∷◌, ◌==◌, Bool-cases, Result,
  ok, err, panic, is_some, Assoc, lookup, Safe, Safe-bind, Safe-of, Any,
}
use addon_manager.Api.Addon.{Addon, get_all_addon_parameters, get_formatted_workflow_name}
use addon_manager.Api.Phase.{
  LifecycleStep, prereqs, install, delete, validate as validate_step, other,
}
use addon_manager.Api.Spec.{AddonSpec, WorkflowType, LifecycleWorkflowSpec}
use addon_manager.Document.{
  Documents, Fields, Items, Value, null, scalar, int, str, arr, obj, nil, cons, get_field,
}
use addon_manager.Validator.Workflow.{
  argo_gvk, gvk_eq, as_name, param_name, check_overlaps, found_in, check_found, check_arguments,
  check_parameters, check_document, load_template, check_workflow, check_workflows,
}

-- A text, if it is there.
abbrev pub IsName : Value → Type 0
IsName (str s) = Unit {0}
IsName _ = ⊥

-- The parameters are maps with a text for their name.
abbrev pub AreNamed : Items → Type 0
AreNamed nil = Unit {0}
AreNamed (cons (obj m) ps) = ((v : Value) × (get_field "name" m ≡ some v) × IsName v) × AreNamed ps
AreNamed (cons _ ps) = ⊥

-- A decoded template whose arguments, as far as they are there, can be copied, and whose parameters
-- are such, if it has a list of them.
abbrev pub HasNames : Documents → Fields → Type 0
HasNames docs m =
    ((s : String) → docs.nested_map m ("spec" ∷ "arguments" ∷ []) ≢ panic s)
    × Safe (λ x. (ps : Items) → x ≡ some ps → AreNamed ps)
        (docs.nested_slice m ("spec" ∷ "arguments" ∷ "parameters" ∷ []))

-- It holds of the templates of all four steps.
abbrev pub AllSteps : (WorkflowType → Type 0) → LifecycleWorkflowSpec → Type 0
AllSteps P l = P l.prereqs × P l.install × P l.delete × P l.validate

-- The template decodes with names for its parameters, also into a map that has them.
abbrev pub KeepsNames : Documents → WorkflowType → Type 0
KeepsNames docs wt =
    (m m' : Fields) → HasNames docs m → docs.unmarshal wt.template m ≡ ok m' → HasNames docs m'

as_name-Safe : (v : Value) → IsName v → Safe Any (as_name (some v))
unfolding as_name
as_name-Safe (str s) h = tt
as_name-Safe null h = elim h [ ]
as_name-Safe (scalar s) h = elim h [ ]
as_name-Safe (int n) h = elim h [ ]
as_name-Safe (arr xs) h = elim h [ ]
as_name-Safe (obj m) h = elim h [ ]

check_overlaps-Safe :
    (params : Assoc String) (name : String) (ps : Items)
    → AreNamed ps
    → Safe Any (check_overlaps params name ps)
unfolding check_overlaps param_name
check_overlaps-Safe params name nil h = tt
check_overlaps-Safe params name (cons (obj m) ps) ((v, there, named), h) =
    Safe-bind Any Any (param_name (obj m)) _ (rw there (as_name-Safe v named)) λ p _.
      elim (Bool-cases (is_some (lookup p params))) [
        | inl taken ↦ rw taken tt
        | inr unused ↦ rw unused (check_overlaps-Safe params name ps h)
      ]
check_overlaps-Safe params name (cons null ps) h = elim h [ ]
check_overlaps-Safe params name (cons (scalar s) ps) h = elim h [ ]
check_overlaps-Safe params name (cons (int n) ps) h = elim h [ ]
check_overlaps-Safe params name (cons (str s) ps) h = elim h [ ]
check_overlaps-Safe params name (cons (arr xs) ps) h = elim h [ ]

module _ (docs : Documents) (spec_bytes : AddonSpec → List ℕ) (a : Addon) where
  found_in-Safe :
      {A : Type 0} (P : Option A → Type 0) (r : Result (Option A))
      → P none
      → Safe P r
      → Safe P (found_in docs spec_bytes r)
  unfolding found_in
  found_in-Safe P (ok x) p h = h
  found_in-Safe P (err e) p h = p
  found_in-Safe P (panic s) p h = h

  check_found-Safe :
      (key : LifecycleStep) (x : Option Items)
      → ((ps : Items) → x ≡ some ps → AreNamed ps)
      → Safe Any (check_found docs spec_bytes a key x)
  unfolding check_found
  check_found-Safe key none h = tt
  check_found-Safe key (some ps) h =
      check_overlaps-Safe (get_all_addon_parameters a)
        (get_formatted_workflow_name spec_bytes a key) ps (h ps refl)

  check_arguments-Safe :
      (key : LifecycleStep) (m : Fields) (x : Option Fields)
      → HasNames docs m
      → Safe Any (check_arguments docs spec_bytes a key m x)
  unfolding check_arguments
  check_arguments-Safe key m none h = tt
  check_arguments-Safe key m (some args) h =
      let r = docs.nested_slice m ("spec" ∷ "arguments" ∷ "parameters" ∷ []) in
      Safe-bind (λ x. (ps : Items) → x ≡ some ps → AreNamed ps) Any (found_in docs spec_bytes r) _
        (found_in-Safe (λ x. (ps : Items) → x ≡ some ps → AreNamed ps) r (λ ps e. cc) h.1)
        (check_found-Safe key)

  check_parameters-Safe :
      (key : LifecycleStep) (m : Fields)
      → HasNames docs m
      → Safe Any (check_parameters docs spec_bytes a key m)
  unfolding check_parameters
  check_parameters-Safe key m h =
      let r = docs.nested_map m ("spec" ∷ "arguments" ∷ []) in
      Safe-bind Any Any (found_in docs spec_bytes r) _ (found_in-Safe Any r tt (Safe-of r h.0))
        λ x _. check_arguments-Safe key m x h

  check_document-Safe :
      (key : LifecycleStep) (m : Fields)
      → HasNames docs m
      → Safe Any (check_document docs spec_bytes a key m)
  unfolding check_document
  check_document-Safe key m h = elim (Bool-cases (gvk_eq (docs.group_version_kind m) argo_gvk)) [
    | inr foreign ↦ rw (foreign, check_document) tt
    | inl argo ↦ elim (Bool-cases (is_some (get_field "spec" m))) [
      | inr missing ↦ rw (argo, missing, check_document) tt
      | inl there ↦ rw (argo, there, check_document) (check_parameters-Safe key m h)
    ]
  ]

  load_template-Safe :
      (key : LifecycleStep) (P : Fields → Type 0) (r : Result Fields)
      → ((s : String) → r ≢ panic s)
      → ((m : Fields) → r ≡ ok m → P m)
      → Safe P (load_template docs spec_bytes key r)
  unfolding load_template
  load_template-Safe key P (ok m) h k = k m refl
  load_template-Safe key P (err e) h k = tt
  load_template-Safe key P (panic s) h k = h s refl

  module _
      (calm : (text : String) (m : Fields) (s : String) → docs.unmarshal text m ≢ panic s) where
    check_workflow-Safe :
        (key : LifecycleStep) (wt : WorkflowType) (m : Fields)
        → KeepsNames docs wt
        → HasNames docs m
        → Safe (HasNames docs) (check_workflow docs spec_bytes a key wt m)
    unfolding check_workflow
    check_workflow-Safe key wt m keeps h = elim (Bool-cases (wt.template == "")) [
      | inl empty ↦ rw (empty, check_workflow) h
      | inr given ↦
          rw (given, check_workflow)
            (Safe-bind (HasNames docs) (HasNames docs)
              (load_template docs spec_bytes key (docs.unmarshal wt.template m)) _
              (load_template-Safe key (HasNames docs) (docs.unmarshal wt.template m)
                (calm wt.template m) (λ m' e. keeps m m' h e))
              λ m' h'.
                Safe-bind Any (HasNames docs) (check_document docs spec_bytes a key m') _
                  (check_document-Safe key m' h') λ _ _. h')
    ]

    pub check_workflows-Safe :
        (keys : List LifecycleStep) (m : Fields)
        → AllSteps (KeepsNames docs) a.spec.lifecycle
        → HasNames docs m
        → Safe Any (check_workflows docs spec_bytes a keys m)
    unfolding check_workflows
    check_workflows-Safe [] m all h = tt
    check_workflows-Safe (prereqs ∷ keys) m all h =
        Safe-bind (HasNames docs) Any
          (check_workflow docs spec_bytes a prereqs a.spec.lifecycle.prereqs m) _
          (check_workflow-Safe prereqs a.spec.lifecycle.prereqs m all.0 h)
          λ m' h'. check_workflows-Safe keys m' all h'
    check_workflows-Safe (install ∷ keys) m all h =
        Safe-bind (HasNames docs) Any
          (check_workflow docs spec_bytes a install a.spec.lifecycle.install m) _
          (check_workflow-Safe install a.spec.lifecycle.install m all.1 h)
          λ m' h'. check_workflows-Safe keys m' all h'
    check_workflows-Safe (delete ∷ keys) m all h =
        Safe-bind (HasNames docs) Any
          (check_workflow docs spec_bytes a delete a.spec.lifecycle.delete m) _
          (check_workflow-Safe delete a.spec.lifecycle.delete m all.2 h)
          λ m' h'. check_workflows-Safe keys m' all h'
    check_workflows-Safe (validate_step ∷ keys) m all h =
        Safe-bind (HasNames docs) Any
          (check_workflow docs spec_bytes a validate_step a.spec.lifecycle.validate m) _
          (check_workflow-Safe validate_step a.spec.lifecycle.validate m all.3 h)
          λ m' h'. check_workflows-Safe keys m' all h'
    check_workflows-Safe (other s ∷ keys) m all h = check_workflows-Safe keys m all h
