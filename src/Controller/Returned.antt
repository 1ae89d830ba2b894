-- ===== src/Controller/Returned.antt =====
-- controllers/addon_controller.go: when `processAddon` and `Finalize` return, rather than panic.
use addon_manager.Common.{
  ◌<◌, String, ◌≡◌, refl, ◌∙◌, inl, inr, Option, none, some, List, [], ◌∷◌, ◌==◌, Bool-cases,
  Option-cases, Error, Result, ok, err, panic, Reply, found, failure, length, Safe, Any, has_prefix,
  ◌+++◌,
}
use addon_manager.Api.Addon.{Addon}
use addon_manager.Api.Phase.{is_completed, is_running, delete}
use addon_manager.Api.Spec.{AddonSpec, ObjectStatus}
use addon_manager.Cluster.{Ended, ended, unwound, Kube}
use addon_manager.Controller.Finalize.{after_delete, finalize}
use addon_manager.Controller.Process.{
  Processed, returned, panicked, process_addon, process_changed, process_executed, process_expired,
  process_finalizer, process_install, process_invalid, process_observed, process_unchanged,
  process_validated, not_valid, wait_installed, wait_pending, set_finalizer, validate_checksum,
  with_checksum, delete_old_workflows, updated,
}
use addon_manager.Controller.Types.{
  Env, Run, ReconcileResult, finalizer_name, event, full_name, ttl,
}
use addon_manager.Controller.Typed.{
  Returns, HasSpec, IsTyped, run_workflow-Returns, execute-Returns,
}
use addon_manager.Controller.Workflow.{execute_prereq_and_install, run_workflow}
use addon_manager.Controller.Observe.{observe_resources, share_labels}
use addon_manager.Helpers.{is_expired}
use addon_manager.Validator.{validate}
use addon_manager.Validator.Calm.{validate-Safe}
use addon_manager.Validator.Dependencies.{max_depth, err_dep_pending, err_dep_not_installed}
use addon_manager.Validator.Visited.{cached_keys}

-- A finalizer is metadata, and an update answers with the `spec` that it was given.
pub record KeepsSpec {W : Type 0} (kube : Kube W) : Type 0 where
  pub add_finalizer_lem : (a : Addon) (f : String) → (kube.add_finalizer a f).spec ≡ a.spec
  pub update_addon_lem :
      (a stored : Addon) (w w' : W)
      → kube.update_addon a w ≡ (found stored, w')
      → stored.spec ≡ a.spec

-- `processAddon` returns.
abbrev Answers : {W : Type 0} → Processed W → Type 0
Answers (returned result e r) = Unit {0}
Answers (panicked text r) = ⊥

Answers-returned :
    {W : Type 0} (p : Processed W)
    → Answers p
    → (result : ReconcileResult) × (e : Option Error) × (r : Run W) × (p ≡ returned result e r)
Answers-returned (returned result e r) h = (result, e, r, refl)
Answers-returned (panicked text r) h = elim h [ ]

Returns-ended :
    {S : Type 0} (P : S → Type 0) (p : Ended S)
    → Returns P p
    → (e : Option Error) × (s : S) × (p ≡ ended e s)
Returns-ended P (ended e s) h = (e, s, refl)
Returns-ended P (unwound text s) h = elim h [ ]

module _ {W V F : Type 0} (env : Env W V F) where
  process_observed-Answers :
      (observed : Reply (List ObjectStatus)) (r : Run W) → Answers (process_observed env observed r)
  unfolding process_observed
  process_observed-Answers (failure e) r = tt
  process_observed-Answers (found []) r =
      elim (Bool-cases (is_running r.instance_addon.status.lifecycle.installed)) [
        | inl running ↦ rw (running, process_observed) tt
        | inr at_rest ↦ rw (at_rest, process_observed) tt
      ]
  process_observed-Answers (found (o ∷ os)) r =
      elim (Bool-cases (is_running r.instance_addon.status.lifecycle.installed)) [
        | inl running ↦ rw (running, process_observed) tt
        | inr at_rest ↦ rw (at_rest, process_observed) tt
      ]

  process_executed-Answers :
      (spec : AddonSpec) (p : Ended (Run W))
      → Returns (HasSpec spec) p
      → Answers (process_executed env p)
  unfolding process_executed
  process_executed-Answers spec (unwound text r) h = elim h [ ]
  process_executed-Answers spec (ended (some e) r) h = tt
  process_executed-Answers spec (ended none r) h =
      process_observed-Answers (observe_resources env.kube r.instance_addon r.sys.world)
        (record r { instance_addon = share_labels r.instance_addon })

  process_install-Answers :
      (spec : AddonSpec)
      → IsTyped env spec
      → (r : Run W) → HasSpec spec r
      → Answers (process_install env r)
  unfolding process_install process_expired
  process_install-Answers spec typed r h =
      elim (Bool-cases (is_completed r.instance_addon.status.lifecycle.installed)) [
        | inl done ↦ rw (done, process_install) (process_executed-Answers spec (ended none r) h)
        | inr open_still ↦
            elim (Bool-cases (is_expired env.now r.instance_addon.status.start_time ttl)) [
              | inl late ↦ rw (open_still, late, process_install) tt
              | inr in_time ↦
                  rw (open_still, in_time, process_install)
                    (process_executed-Answers spec (execute_prereq_and_install env r)
                      (execute-Returns env spec typed r h))
            ]
      ]

  updated-HasSpec :
      (spec : AddonSpec) (a : Addon) (p : Reply Addon × W) (r : Run W)
      → a.spec ≡ spec
      → ((stored : Addon) (w : W) → p ≡ (found stored, w) → stored.spec ≡ a.spec)
      → HasSpec spec (updated env a p r).1
  updated-HasSpec spec a (found stored, w) r same keeps = keeps stored w refl ∙ same
  updated-HasSpec spec a (failure e, w) r same keeps = same

  set_finalizer-HasSpec :
      (spec : AddonSpec) (r : Run W)
      → KeepsSpec env.kube
      → HasSpec spec r
      → HasSpec spec (set_finalizer env r).1
  unfolding set_finalizer
  set_finalizer-HasSpec spec r keeps h = elim (Option-cases r.instance_addon.deletion_timestamp) [
    | inr (t, marked) ↦ simp (marked, set_finalizer) h
    | inl live ↦ elim (Bool-cases (env.kube.contains_finalizer r.instance_addon finalizer_name)) [
      | inl there ↦ simp (live, there, set_finalizer) h
      | inr missing ↦
          let a = env.kube.add_finalizer r.instance_addon finalizer_name in
          simp (live, missing, set_finalizer)
            (updated-HasSpec spec a (env.kube.update_addon a r.sys.world) r
              (keeps.add_finalizer_lem r.instance_addon finalizer_name ∙ h)
              (λ stored w e. keeps.update_addon_lem a stored r.sys.world w e))
    ]
  ]

  process_finalizer-Answers :
      (spec : AddonSpec)
      → IsTyped env spec
      → (p : Option Error × Run W) → HasSpec spec p.1
      → Answers (process_finalizer env p)
  unfolding process_finalizer
  process_finalizer-Answers spec typed (some e, r) h = tt
  process_finalizer-Answers spec typed (none, r) h = process_install-Answers spec typed r h

  process_invalid-Answers : (e : Error) (r : Run W) → Answers (process_invalid env e r)
  unfolding process_invalid wait_pending wait_installed not_valid
  process_invalid-Answers e r = elim (Bool-cases (has_prefix e.text err_dep_pending)) [
    | inl waits ↦ rw (waits, process_invalid) tt
    | inr settled ↦ elim (Bool-cases (has_prefix e.text err_dep_not_installed)) [
      | inl absent ↦ rw (settled, absent, process_invalid) tt
      | inr wrong ↦ rw (settled, wrong, process_invalid) tt
    ]
  ]

  process_validated-Answers :
      (m : Result (Unit {0})) (r : Run W)
      → IsTyped env r.instance_addon.spec
      → KeepsSpec env.kube
      → Safe Any m
      → Answers (process_validated env m r)
  unfolding process_validated
  process_validated-Answers (err e) r typed keeps h = process_invalid-Answers e r
  process_validated-Answers (panic s) r typed keeps h = elim h [ ]
  process_validated-Answers (ok x) r typed keeps h =
      let valid = event "Normal" "Completed" ("Addon " +++ full_name r +++ " is valid.") r in
      process_finalizer-Answers r.instance_addon.spec typed (set_finalizer env valid)
        (set_finalizer-HasSpec r.instance_addon.spec valid keeps refl)

  process_unchanged-Answers :
      (r : Run W)
      → IsTyped env r.instance_addon.spec
      → KeepsSpec env.kube
      → length (cached_keys r.sys.cache) < max_depth
      → Answers (process_unchanged env r)
  unfolding process_unchanged
  process_unchanged-Answers r typed keeps few =
      elim (Bool-cases (is_completed r.instance_addon.status.lifecycle.installed)) [
        | inl done ↦ rw (done, process_unchanged) tt
        | inr open_still ↦
            rw (open_still, process_unchanged)
              (process_validated-Answers
                (validate env.semver env.docs env.spec_bytes env.order r.sys.cache r.instance_addon)
                r typed keeps
                (validate-Safe env.semver env.docs env.spec_bytes r.sys.cache r.instance_addon
                  env.order typed.calm typed.names typed.start few))
      ]

  process_changed-Answers : (p : Option Error × W) (r : Run W) → Answers (process_changed env p r)
  unfolding process_changed
  process_changed-Answers (some e, w) r = tt
  process_changed-Answers (none, w) r = tt

  process_addon-Answers :
      (r : Run W)
      → IsTyped env r.instance_addon.spec
      → KeepsSpec env.kube
      → length (cached_keys r.sys.cache) < max_depth
      → Answers (process_addon env r)
  unfolding process_addon
  process_addon-Answers r typed keeps few =
      let (changed, checksum) = validate_checksum env r.instance_addon in
      let r' = with_checksum checksum r in
      elim (Bool-cases changed) [
        | inl anew ↦
            rw (anew, process_addon)
              (process_changed-Answers (delete_old_workflows env r'.instance_addon r'.sys.world) r')
        | inr same ↦ rw (same, process_addon) (process_unchanged-Answers r' typed keeps few)
      ]

  after_delete-Returns :
      (spec : AddonSpec) (p : Ended (Run W))
      → Returns (HasSpec spec) p
      → Returns (λ _. Unit {0}) (after_delete env p)
  unfolding after_delete
  after_delete-Returns spec (unwound text r) h = elim h [ ]
  after_delete-Returns spec (ended (some e) r) h = tt
  after_delete-Returns spec (ended none r) h = tt

  finalize-Returns :
      (r : Run W) → IsTyped env r.instance_addon.spec → Returns (λ _. Unit {0}) (finalize env r)
  unfolding finalize
  finalize-Returns r typed =
      elim (Bool-cases (r.instance_addon.spec.lifecycle.delete.template == "")) [
        | inl empty ↦ rw (empty, finalize) tt
        | inr given ↦
            rw (given, finalize)
              (after_delete-Returns r.instance_addon.spec (run_workflow env delete r)
                (run_workflow-Returns env r.instance_addon.spec typed delete r refl))
      ]

  -- An addon whose templates have the right shape, arguments that the validator can copy, and named
  -- parameters is processed and finalized
  -- with no panic: if the libraries do as documented, updates keep its `spec`, and fewer versions
  -- than the depth bound are cached, `processAddon` returns a result, and `Finalize` returns too.
  pub reconcile_returns :
      (r : Run W)
      → IsTyped env r.instance_addon.spec
      → KeepsSpec env.kube
      → length (cached_keys r.sys.cache) < max_depth
      → ((result : ReconcileResult) × (e : Option Error) × (r' : Run W) × (process_addon env r
            ≡ returned result e r'))
        × ((e : Option Error) × (r' : Run W) × (finalize env r ≡ ended e r'))
  reconcile_returns r typed keeps few = (
    Answers-returned (process_addon env r) (process_addon-Answers r typed keeps few),
    Returns-ended (λ _. Unit {0}) (finalize env r) (finalize-Returns r typed),
  )
