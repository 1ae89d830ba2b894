-- ===== src/Controller/Typed.antt =====
-- controllers/addon_controller.go: `processAddon` and `Finalize` on an addon whose templates have the
-- right shape.
use addon_manager.Common.{
  String, ◌≡◌, refl, sym, ap, ◌∙◌, inl, inr, Option, none, some, List, [], ◌==◌, Bool-cases,
  Option-cases, Error, ok, Reply, found, failure,
}
use addon_manager.Api.Addon.{Addon, get_workflow_type, get_formatted_workflow_name}
use addon_manager.Api.Phase.{
  Phase, unset, pending, succeeded, failed, validation_failed, deleting, delete_failed,
  delete_succeeded, is_succeeded, is_failed, LifecycleStep, prereqs, install, delete,
  validate as validate_step, other,
}
use addon_manager.Api.Spec.{AddonSpec, WorkflowType, LifecycleWorkflowSpec}
use addon_manager.Api.Status.{
  set_install_status, set_prereq_and_install_statuses, set_status_by_lifecycle_step, unsupported,
}
use addon_manager.Cluster.{Ended, ended, unwound, Sys, Workflow}
use addon_manager.Controller.Types.{Env, Run, mark, in_sys}
use addon_manager.Controller.Workflow.{
  mark_phase, sync_phase, submitted, run_template, run_workflow, step_completed, validate_secrets,
  run_install, secrets_failed, install_phase, after_prereqs, execute_prereq_and_install,
}
use addon_manager.Document.{Fields, end}
use addon_manager.Objects.Faithful.{Faithful}
use addon_manager.Validator.Names.{HasNames, AllSteps, KeepsNames}
use addon_manager.Workflows.Install.{decode}
use addon_manager.Workflows.Safety.Install.{IsDecoded, install_workflow_returns}
use addon_manager.Workflows.Safety.Resources.{NeverPanics}

-- The call returns, and what it leaves satisfies `P`.
abbrev pub Returns : {S : Type 0} → (S → Type 0) → Ended S → Type 0
Returns P (ended e s) = P s
Returns P (unwound text s) = ⊥

-- The instance has this `spec`.
abbrev pub HasSpec : {W : Type 0} → AddonSpec → Run W → Type 0
HasSpec spec r = r.instance_addon.spec ≡ spec

set_prereq_and_install_statuses-spec :
    (phase : Phase) (reasons : List String) (a : Addon)
    → (set_prereq_and_install_statuses phase reasons a).0.spec ≡ a.spec
unfolding set_prereq_and_install_statuses set_install_status unsupported
set_prereq_and_install_statuses-spec pending reasons a = refl
set_prereq_and_install_statuses-spec failed reasons a = refl
set_prereq_and_install_statuses-spec succeeded reasons a = refl
set_prereq_and_install_statuses-spec unset reasons a = refl
set_prereq_and_install_statuses-spec validation_failed reasons a = refl
set_prereq_and_install_statuses-spec deleting reasons a = refl
set_prereq_and_install_statuses-spec delete_failed reasons a = refl
set_prereq_and_install_statuses-spec delete_succeeded reasons a = refl

set_status_by_lifecycle_step-spec :
    (step : LifecycleStep) (phase : Phase) (reasons : List String) (a : Addon)
    → (set_status_by_lifecycle_step step phase reasons a).0.spec ≡ a.spec
unfolding set_status_by_lifecycle_step set_install_status
set_status_by_lifecycle_step-spec prereqs phase reasons a =
    set_prereq_and_install_statuses-spec phase reasons a
set_status_by_lifecycle_step-spec install phase reasons a = refl
set_status_by_lifecycle_step-spec delete phase reasons a = refl
set_status_by_lifecycle_step-spec validate_step phase reasons a = refl
set_status_by_lifecycle_step-spec (other s) phase reasons a = refl

module _ {W : Type 0} where
  mark-HasSpec :
      (step : LifecycleStep) (phase : Phase) (spec : AddonSpec) (r : Run W)
      → HasSpec spec r
      → HasSpec spec (mark step phase r)
  mark-HasSpec step phase spec r h =
      set_status_by_lifecycle_step-spec step phase [] r.instance_addon ∙ h

  mark_phase-HasSpec :
      (step : LifecycleStep) (phase : Phase) (spec : AddonSpec) (r : Run W)
      → HasSpec spec r
      → HasSpec spec (mark_phase step phase r)
  mark_phase-HasSpec step unset spec r h = h
  mark_phase-HasSpec step pending spec r h = mark-HasSpec step pending spec r h
  mark_phase-HasSpec step succeeded spec r h = mark-HasSpec step succeeded spec r h
  mark_phase-HasSpec step failed spec r h = mark-HasSpec step failed spec r h
  mark_phase-HasSpec step validation_failed spec r h = mark-HasSpec step validation_failed spec r h
  mark_phase-HasSpec step deleting spec r h = mark-HasSpec step deleting spec r h
  mark_phase-HasSpec step delete_failed spec r h = mark-HasSpec step delete_failed spec r h
  mark_phase-HasSpec step delete_succeeded spec r h = mark-HasSpec step delete_succeeded spec r h

  sync_phase-HasSpec :
      (step : LifecycleStep) (wf : Reply Workflow) (spec : AddonSpec) (r : Run W)
      → HasSpec spec r
      → HasSpec spec (sync_phase step wf r)
  sync_phase-HasSpec step (failure e) spec r h = h
  sync_phase-HasSpec step (found wf) spec r h = mark_phase-HasSpec step _ spec r h

module _ {W V F : Type 0} (env : Env W V F) where
  -- What the environment and a `spec` have, when no type assertion fails: the YAML reader does not
  -- panic, the operations on objects do as documented, and each of the four templates has the right
  -- shape for the submission, and, for the validator, arguments that it can copy and named parameters.
  pub record IsTyped (spec : AddonSpec) : Type 0 where
    pub calm : NeverPanics env.docs
    pub laws : Faithful env.objects
    pub decoded :
        AllSteps
          (λ wt. (m : Fields) → decode env.docs env.objects wt.template ≡ ok m → IsDecoded m)
          spec.lifecycle
    pub names : AllSteps (KeepsNames env.docs) spec.lifecycle
    pub start : HasNames env.docs end

  submitted-Returns :
      (step : LifecycleStep) (name : String) (e : Option Error) (s : Sys W) (spec : AddonSpec)
      (r : Run W)
      → HasSpec spec r
      → Returns (HasSpec spec) (submitted env step name (ended e s) r)
  unfolding submitted
  submitted-Returns step name (some e) s spec r h = mark-HasSpec step failed spec (in_sys s r) h
  submitted-Returns step name none s spec r h = sync_phase-HasSpec step _ spec _ h

  run_template-Returns :
      (spec : AddonSpec)
      → IsTyped spec
      → (step : LifecycleStep) (wt : WorkflowType) (r : Run W)
      → ((m : Fields) → decode env.docs env.objects wt.template ≡ ok m → IsDecoded m)
      → HasSpec spec r
      → Returns (HasSpec spec) (run_template env step wt r)
  unfolding run_template
  run_template-Returns spec typed step wt r shaped h =
      let name = get_formatted_workflow_name env.spec_bytes r.instance_addon step in
      elim (Bool-cases (wt.template == "")) [
        | inl empty ↦ rw (empty, run_template) (mark-HasSpec step succeeded spec r h)
        | inr given ↦ elim (Bool-cases (name == "")) [
          | inl unnamed ↦ rw (given, unnamed, run_template) (mark-HasSpec step failed spec r h)
          | inr named ↦
              let (e, s, done) =
                install_workflow_returns env.docs typed.calm env.objects typed.laws r.instance_addon
                  env.client name wt r.sys shaped in
              rw (given, named, run_template) (rw done (submitted-Returns step name e s spec r h))
        ]
      ]

  run_found-Returns :
      (spec : AddonSpec)
      → IsTyped spec
      → (step : LifecycleStep) (wt : WorkflowType) (r : Run W)
      → get_workflow_type r.instance_addon step ≡ found wt
      → ((m : Fields) → decode env.docs env.objects wt.template ≡ ok m → IsDecoded m)
      → HasSpec spec r
      → Returns (HasSpec spec) (run_workflow env step r)
  unfolding run_workflow
  run_found-Returns spec typed step wt r e shaped h =
      elim (Bool-cases (step_completed step r.instance_addon)) [
        | inl completed ↦ rw (completed, run_workflow) h
        | inr open_still ↦
            rw (open_still, e, run_workflow) (run_template-Returns spec typed step wt r shaped h)
      ]

  -- What a template of the instance decodes to, by the field of the `spec` that it stands in.
  shape_of :
      (spec : AddonSpec) (r : Run W) (pick : LifecycleWorkflowSpec → WorkflowType)
      → HasSpec spec r
      → ((m : Fields)
          → decode env.docs env.objects (pick spec.lifecycle).template ≡ ok m
          → IsDecoded m)
      → (m : Fields)
      → decode env.docs env.objects (pick r.instance_addon.spec.lifecycle).template ≡ ok m
      → IsDecoded m
  shape_of spec r pick h shaped m e =
      shaped m (
        ap (λ (x : AddonSpec). decode env.docs env.objects (pick x.lifecycle).template) (sym h) ∙ e)

  pub run_workflow-Returns :
      (spec : AddonSpec)
      → IsTyped spec
      → (step : LifecycleStep) (r : Run W) → HasSpec spec r
      → Returns (HasSpec spec) (run_workflow env step r)
  unfolding run_workflow get_workflow_type
  run_workflow-Returns spec typed prereqs r h =
      run_found-Returns spec typed prereqs r.instance_addon.spec.lifecycle.prereqs r refl
        (shape_of spec r (λ l. l.prereqs) h typed.decoded.0) h
  run_workflow-Returns spec typed install r h =
      run_found-Returns spec typed install r.instance_addon.spec.lifecycle.install r refl
        (shape_of spec r (λ l. l.install) h typed.decoded.1) h
  run_workflow-Returns spec typed delete r h =
      run_found-Returns spec typed delete r.instance_addon.spec.lifecycle.delete r refl
        (shape_of spec r (λ l. l.delete) h typed.decoded.2) h
  run_workflow-Returns spec typed validate_step r h =
      run_found-Returns spec typed validate_step r.instance_addon.spec.lifecycle.validate r refl
        (shape_of spec r (λ l. l.validate) h typed.decoded.3) h
  run_workflow-Returns spec typed (other s) r h =
      elim (Bool-cases (step_completed (other s) r.instance_addon)) [
        | inl completed ↦ rw (completed, run_workflow) h
        | inr open_still ↦ rw (open_still, run_workflow) (mark-HasSpec (other s) failed spec r h)
      ]

  run_install-Returns :
      (spec : AddonSpec) (p : Ended (Run W))
      → Returns (HasSpec spec) p
      → Returns (HasSpec spec) (run_install env p)
  unfolding run_install
  run_install-Returns spec (ended none r) h = h
  run_install-Returns spec (ended (some e) r) h = h
  run_install-Returns spec (unwound text r) h = h

  install_phase-Returns :
      (spec : AddonSpec)
      → IsTyped spec
      → (r : Run W) → HasSpec spec r
      → Returns (HasSpec spec) (install_phase env r)
  unfolding install_phase secrets_failed set_install_status
  install_phase-Returns spec typed r h =
      elim (Option-cases (validate_secrets env r.instance_addon r.sys.world)) [
        | inr (e, bad) ↦ rw (bad, install_phase) h
        | inl fine ↦
            rw (fine, install_phase)
              (run_install-Returns spec (run_workflow env install r)
                (run_workflow-Returns spec typed install r h))
      ]

  after_prereqs-Returns :
      (spec : AddonSpec)
      → IsTyped spec
      → (p : Ended (Run W)) → Returns (HasSpec spec) p
      → Returns (HasSpec spec) (after_prereqs env p)
  unfolding after_prereqs set_install_status
  after_prereqs-Returns spec typed (unwound text r) h = h
  after_prereqs-Returns spec typed (ended (some e) r) h = h
  after_prereqs-Returns spec typed (ended none r) h =
      elim (Bool-cases (is_succeeded r.instance_addon.status.lifecycle.prereqs)) [
        | inl done ↦ rw (done, after_prereqs) (install_phase-Returns spec typed r h)
        | inr open_still ↦ elim (Bool-cases (is_failed r.instance_addon.status.lifecycle.prereqs)) [
          | inl bad ↦ rw (open_still, bad, after_prereqs) h
          | inr waiting ↦ rw (open_still, waiting, after_prereqs) h
        ]
      ]

  pub execute-Returns :
      (spec : AddonSpec)
      → IsTyped spec
      → (r : Run W) → HasSpec spec r
      → Returns (HasSpec spec) (execute_prereq_and_install env r)
  unfolding execute_prereq_and_install
  execute-Returns spec typed r h =
      after_prereqs-Returns spec typed (run_workflow env prereqs r)
        (run_workflow-Returns spec typed prereqs r h)
