-- ===== src/Controller/Forgets.antt =====
-- controllers/addon_controller.go, `Finalize`: the version of an addon that is deleted.
use addon_manager.Common.{
  String, ◌≡◌, refl, ap, subst, ◌∙◌, inl, inr, Bool, true, false, none, some, ◌==◌, eq_refl,
  Bool-cases, Reply, found, failure,
}
use addon_manager.Api.Addon.{get_formatted_workflow_name, get_workflow_type}
use addon_manager.Api.Phase.{Phase, delete, is_succeeded, unset}
use addon_manager.Api.Spec.{AddonSpec}
use addon_manager.Api.Status.{set_status_by_lifecycle_step}
use addon_manager.Cluster.{Ended, Memory, Sys, Workflow, ended, state_of, unwound}
use addon_manager.Controller.Finalize.{after_delete, drop_finalizer, finalize}
use addon_manager.Controller.System.{finalized-memory}
use addon_manager.Controller.Types.{Env, Run, finalizer_name}
use addon_manager.Controller.Workflow.{
  mark_phase, run_template, run_workflow, step_completed, submitted, sync_phase,
}
use addon_manager.Helpers.{convert_workflow_phase_to_addon_phase}
use addon_manager.VersionCache.{Cache, remove_version}
use addon_manager.VersionCache.Laws.{stored, stored-remove_version}

-- The specs are the same.
abbrev SameSpec : {W : Type 0} → Run W → Run W → Type 0
SameSpec r t = r.instance_addon.spec ≡ t.instance_addon.spec

module _ {W V F : Type 0} (env : Env W V F) where
  mark_phase-SameSpec : (p : Phase) (r : Run W) → SameSpec (mark_phase delete p r) r
  unfolding set_status_by_lifecycle_step
  mark_phase-SameSpec unset r = refl
  mark_phase-SameSpec p r = refl

  sync_phase-SameSpec :
      (answer : Reply Workflow) (r : Run W) → SameSpec (sync_phase delete answer r) r
  sync_phase-SameSpec (failure e) r = refl
  sync_phase-SameSpec (found wf) r =
      mark_phase-SameSpec (convert_workflow_phase_to_addon_phase delete wf.phase) r

  submitted-SameSpec :
      (name : String) (answer : Ended (Sys W)) (r : Run W)
      → SameSpec (state_of (submitted env delete name answer r)) r
  unfolding submitted set_status_by_lifecycle_step
  submitted-SameSpec name (unwound text s) r = refl
  submitted-SameSpec name (ended (some e) s) r = refl
  submitted-SameSpec name (ended none s) r = sync_phase-SameSpec _ _

  run_delete-SameSpec : (r : Run W) → SameSpec (state_of (run_workflow env delete r)) r
  unfolding run_workflow run_template get_workflow_type set_status_by_lifecycle_step
  run_delete-SameSpec r = elim (Bool-cases (step_completed delete r.instance_addon)) [
    | inl done ↦ rw (done, run_workflow) refl
    | inr due ↦ elim (Bool-cases (r.instance_addon.spec.lifecycle.delete.template == "")) [
      | inl empty ↦ rw (due, run_workflow) (rw (empty, run_template) refl)
      | inr given ↦
          elim (Bool-cases
            (get_formatted_workflow_name env.spec_bytes r.instance_addon delete == "")) [
              | inl unnamed ↦ rw (due, run_workflow) (rw (given, unnamed, run_template) refl)
              | inr has_name ↦
                  rw (due, run_workflow)
                    (rw (given, has_name, run_template) (submitted-SameSpec _ _ r))
            ]
    ]
  ]

  drop_finalizer-cache :
      (b : Bool) (r : Run W)
      → (drop_finalizer env b r).1.sys.cache
        ≡ remove_version r.instance_addon.spec.pkg_name r.instance_addon.spec.pkg_version
            r.sys.cache
  unfolding drop_finalizer
  drop_finalizer-cache false r = refl
  drop_finalizer-cache true r =
      ap (λ (m : Memory). m.0)
        (finalized-memory (env.kube.remove_finalizer r.instance_addon finalizer_name)
          (env.kube.update_addon (env.kube.remove_finalizer r.instance_addon finalizer_name)
            r.sys.world)
          _)

  drop_finalizer_forgets :
      (b : Bool) (r t : Run W)
      → SameSpec r t
      → stored
          (drop_finalizer env b r).1.sys.cache
          t.instance_addon.spec.pkg_name
          t.instance_addon.spec.pkg_version
        ≡ none
  drop_finalizer_forgets b r t same =
      let p = r.instance_addon.spec.pkg_name in
      let k = r.instance_addon.spec.pkg_version in
      let gone : stored (remove_version p k r.sys.cache) p k ≡ none =
        stored-remove_version p k r.sys.cache p k ∙ rw (eq_refl p, eq_refl k) refl in
      let here : stored (drop_finalizer env b r).1.sys.cache p k ≡ none =
        ap (λ (c : Cache). stored c p k) (drop_finalizer-cache b r) ∙ gone in
      subst
        (λ (s : AddonSpec).
          stored (drop_finalizer env b r).1.sys.cache s.pkg_name s.pkg_version ≡ none)
        same here

  after_delete_forgets :
      (q : Ended (Run W)) (r r' : Run W)
      → SameSpec (state_of q) r
      → after_delete env q ≡ ended none r'
      → stored r'.sys.cache r.instance_addon.spec.pkg_name r.instance_addon.spec.pkg_version ≡ none
  unfolding after_delete
  after_delete_forgets (unwound text r1) r r' same e = cc
  after_delete_forgets (ended (some f) r1) r r' same e = cc
  after_delete_forgets (ended none r1) r r' same e =
      let b = is_succeeded r1.instance_addon.status.lifecycle.installed in
      let left : (drop_finalizer env b r1).1 ≡ r' = ap state_of e in
      subst
        (λ (x : Run W).
          stored x.sys.cache r.instance_addon.spec.pkg_name r.instance_addon.spec.pkg_version
          ≡ none)
        left (drop_finalizer_forgets b r1 r same)

  -- When `Finalize` returns nil, whether it has removed the finalizer or still waits for the workflow
  -- that deletes, the version cache no longer holds the version of the addon.
  pub finalize_forgets :
      (r r' : Run W)
      → finalize env r ≡ ended none r'
      → stored r'.sys.cache r.instance_addon.spec.pkg_name r.instance_addon.spec.pkg_version ≡ none
  unfolding finalize
  finalize_forgets r r' e =
      elim (Bool-cases (r.instance_addon.spec.lifecycle.delete.template == "")) [
        | inl empty ↦
            let e' : ended (drop_finalizer env true r).0 (drop_finalizer env true r).1
                ≡ ended none r' =
              (rw (empty, finalize) at e) in
            let left : (drop_finalizer env true r).1 ≡ r' = ap state_of e' in
            subst
              (λ (x : Run W).
                stored x.sys.cache r.instance_addon.spec.pkg_name r.instance_addon.spec.pkg_version
                ≡ none)
              left (drop_finalizer_forgets true r r refl)
        | inr given ↦
            after_delete_forgets (run_workflow env delete r) r r' (run_delete-SameSpec r)
              (rw (given, finalize) at e)
      ]
