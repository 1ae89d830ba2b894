-- ===== src/Controller/System.antt =====
-- controllers/: runs of the system, in which the two reconcilers and the rest of the cluster take turns.
use addon_manager.Api.Addon.{Addon}
use addon_manager.Helpers.{
  WorkflowPhase, workflow_unknown, workflow_pending, workflow_running, workflow_succeeded,
  workflow_failed, workflow_error,
}
use addon_manager.VersionCache.Keyed.{removes, call}
use addon_manager.Common.{
  ℕ, ◌≡◌, refl, sym, ap, subst, ◌∙◌, inl, inr, Bool, true, false, Option, none, some, List, [], ◌∷◌,
  ◌++◌, ◌==◌, Bool-cases, Option-cases, Error, Reply, found, failure, Reply-cases,
}
use addon_manager.Api.Phase.{delete, is_deleting, is_succeeded}
use addon_manager.Api.Spec.{NamespacedName}
use addon_manager.Cluster.{Ended, Owner, Sys, Workflow, ended, state_of, unwound, Memory, memory_of}
use addon_manager.Controller.Finalize.{
  after_delete, after_process, drop_finalizer, exec_addon, exec_deleted, finalize, reconcile,
  reconcile_owned, finalized, after_finalize, status_written, reconcile_workflow, reconcile_phase,
}
use addon_manager.Controller.Frame.{memory_after, process_addon-memory, run_workflow-memory}
use addon_manager.Controller.Process.{Processed, panicked, process_addon, returned}
use addon_manager.Controller.Reach.{
  Moves, update_status-Moves, remove_from_cache-Moves, from_workflow-Moves, Act, act, acts, caches,
}
use addon_manager.Controller.Types.{Env, ReconcileResult, Run, finalizer_name}
use addon_manager.Controller.Workflow.{run_workflow}
use addon_manager.Updater.{update_status}

acts-append : (xs ys : List Act) (m : Memory) → acts (xs ++ ys) m ≡ acts ys (acts xs m)
unfolding acts
acts-append [] ys m = refl
acts-append (x ∷ xs) ys m = acts-append xs ys (act x m)

Moves-trans : (c d e : Memory) → Moves c d → Moves d e → Moves c e
Moves-trans c d e (xs, p) (ys, q) = (xs ++ ys, q ∙ ap (acts ys) p ∙ sym (acts-append xs ys c))

pub finalized-memory :
    {W : Type 0} (a : Addon) (p : Reply Addon × W) (r : Run W)
    → memory_of (finalized a p r).1.sys ≡ memory_of r.sys
finalized-memory a (found stored, w) r = refl
finalized-memory a (failure e, w) r = refl

module _ {W V F : Type 0} (env : Env W V F) where
  drop_finalizer-Moves :
      (b : Bool) (r : Run W) → Moves (memory_of r.sys) (memory_of (drop_finalizer env b r).1.sys)
  unfolding drop_finalizer acts act call
  drop_finalizer-Moves false r =
      (caches (removes r.instance_addon.spec.pkg_name r.instance_addon.spec.pkg_version) ∷ [], refl)
  drop_finalizer-Moves true r = (
    caches (removes r.instance_addon.spec.pkg_name r.instance_addon.spec.pkg_version) ∷ [],
    finalized-memory (env.kube.remove_finalizer r.instance_addon finalizer_name)
        (env.kube.update_addon (env.kube.remove_finalizer r.instance_addon finalizer_name)
          r.sys.world)
        _,
  )

  after_delete-Moves :
      (p : Ended (Run W))
      → Moves (memory_of (state_of p).sys) (memory_of (state_of (after_delete env p)).sys)
  unfolding after_delete acts
  after_delete-Moves (unwound text r) = ([], refl)
  after_delete-Moves (ended (some e) r) = ([], refl)
  after_delete-Moves (ended none r) =
      drop_finalizer-Moves (is_succeeded r.instance_addon.status.lifecycle.installed) r

  finalize-Moves : (r : Run W) → Moves (memory_of r.sys) (memory_of (state_of (finalize env r)).sys)
  unfolding finalize
  finalize-Moves r = elim (Bool-cases (r.instance_addon.spec.lifecycle.delete.template == "")) [
    | inl empty ↦ rw (empty, finalize) (drop_finalizer-Moves true r)
    | inr given ↦
        rw (given, finalize)
          (subst
            (λ (c : Memory).
              Moves c (memory_of (state_of (after_delete env (run_workflow env delete r))).sys))
            (run_workflow-memory env delete r) (after_delete-Moves (run_workflow env delete r)))
  ]

  after_finalize-memory :
      (p : Ended (Run W)) → (memory_of (after_finalize env p).2) ≡ (memory_of (state_of p).sys)
  after_finalize-memory (unwound text r) = refl
  after_finalize-memory (ended none r) = refl
  after_finalize-memory (ended (some e) r) = refl

  exec_deleted-Moves : (r : Run W) → Moves (memory_of r.sys) (memory_of (exec_deleted env r).2)
  unfolding exec_deleted
  exec_deleted-Moves r =
      elim (Bool-cases (is_deleting r.instance_addon.status.lifecycle.installed)) [
        | inl marked ↦
            rw (marked, exec_deleted)
              (subst (Moves (memory_of r.sys)) (sym (after_finalize-memory (finalize env r)))
                (finalize-Moves r))
        | inr unmarked ↦ rw (unmarked, exec_deleted) (update_status-Moves env _ r.sys)
      ]

  status_written-memory :
      (result : ReconcileResult) (e : Option Error) (p : Option Error × Sys W)
      → (memory_of (status_written env result e p).2) ≡ (memory_of p.1)
  status_written-memory result e (none, s) = refl
  status_written-memory result e (some f, s) = refl

  after_process-Moves :
      (p : Processed W) → Moves (memory_after p) (memory_of (after_process env p).2)
  unfolding after_process acts
  after_process-Moves (panicked message r) = ([], refl)
  after_process-Moves (returned result e r) =
      subst (Moves (memory_of r.sys))
        (sym (
          status_written-memory result e
            (update_status env.kube env.retry env.spec_bytes r.instance_addon r.sys)))
        (update_status-Moves env r.instance_addon r.sys)

  exec_addon_live :
      (r : Run W)
      → r.instance_addon.deletion_timestamp ≡ none
      → exec_addon env r ≡ after_process env (process_addon env r)
  unfolding exec_addon
  exec_addon_live r live = simp (live, exec_addon)

  exec_addon_marked :
      (r : Run W) (t : ℕ)
      → r.instance_addon.deletion_timestamp ≡ some t
      → exec_addon env r ≡ exec_deleted env r
  unfolding exec_addon
  exec_addon_marked r t marked = simp (marked, exec_addon)

  process-Moves :
      (r : Run W) → Moves (memory_of r.sys) (memory_of (after_process env (process_addon env r)).2)
  process-Moves r =
      subst (λ (c : Memory). Moves c (memory_of (after_process env (process_addon env r)).2))
        (process_addon-memory env r) (after_process-Moves (process_addon env r))

  exec_addon-Moves : (r : Run W) → Moves (memory_of r.sys) (memory_of (exec_addon env r).2)
  unfolding exec_addon
  exec_addon-Moves r = elim (Option-cases r.instance_addon.deletion_timestamp) [
    | inr (t, marked) ↦
        subst
          (λ (x : ReconcileResult × Option Error × Sys W). Moves (memory_of r.sys) (memory_of x.2))
          (sym (exec_addon_marked r t marked)) (exec_deleted-Moves r)
    | inl live ↦
        subst
          (λ (x : ReconcileResult × Option Error × Sys W). Moves (memory_of r.sys) (memory_of x.2))
          (sym (exec_addon_live r live)) (process-Moves r)
  ]

  reconcile-Moves :
      (req : NamespacedName) (s : Sys W) → Moves (memory_of s) (memory_of (reconcile env req s).2)
  unfolding reconcile
  reconcile-Moves req s = elim (Reply-cases (env.kube.get_addon req s.world)) [
    | inr (e, bad) ↦ rw (bad, reconcile) (remove_from_cache-Moves env req.name s)
    | inl (a, there) ↦
        rw (there, reconcile) (exec_addon-Moves (record { instance_addon = a; sys = s }))
  ]

  reconcile_owned-Moves :
      (wf : Workflow) (s : Sys W) (owner : Option Owner)
      → Moves (memory_of s) (memory_of (reconcile_owned env wf s owner).1)
  unfolding reconcile_owned acts
  reconcile_owned-Moves wf s none = ([], refl)
  reconcile_owned-Moves wf s (some owner) = elim (Bool-cases (owner.kind == "Addon")) [
    | inl owned ↦ rw (owned, reconcile_owned) (from_workflow-Moves env wf.namespace owner.name wf s)
    | inr foreign ↦ rw (foreign, reconcile_owned) ([], refl)
  ]

  phase-Moves :
      (wf : Workflow) (s : Sys W) (phase : WorkflowPhase)
      → Moves (memory_of s) (memory_of (reconcile_phase env wf s phase).1)
  unfolding reconcile_phase acts
  phase-Moves wf s workflow_unknown = ([], refl)
  phase-Moves wf s workflow_pending = reconcile_owned-Moves wf s wf.owner
  phase-Moves wf s workflow_running = reconcile_owned-Moves wf s wf.owner
  phase-Moves wf s workflow_succeeded = reconcile_owned-Moves wf s wf.owner
  phase-Moves wf s workflow_failed = reconcile_owned-Moves wf s wf.owner
  phase-Moves wf s workflow_error = reconcile_owned-Moves wf s wf.owner

  reconcile_workflow-Moves :
      (req : NamespacedName) (s : Sys W)
      → Moves (memory_of s) (memory_of (reconcile_workflow env req s).1)
  unfolding reconcile_workflow reconcile_phase acts
  reconcile_workflow-Moves req s = elim (Reply-cases (env.kube.get_workflow req s.world)) [
    | inr (e, bad) ↦ rw (bad, reconcile_workflow) ([], refl)
    | inl (wf, there) ↦ elim (Option-cases wf.deletion_timestamp) [
      | inr (t, marked) ↦
          rw (there, reconcile_workflow) (rw (marked, reconcile_workflow) ([], refl))
      | inl live ↦
          rw (there, reconcile_workflow) (rw (live, reconcile_workflow) (phase-Moves wf s wf.phase))
    ]
  ]

  -- One step: a reconcile of an addon or of a workflow, or a change of the cluster by anyone else.
  pub data Step : Sys W → Sys W → Type 0 where
    addon_step : (req : NamespacedName) (s : Sys W) → Step s (reconcile env req s).2
    workflow_step : (req : NamespacedName) (s : Sys W) → Step s (reconcile_workflow env req s).1
    outer_step : (w : W) (s : Sys W) → Step s (record s { world = w })

  pub data Steps : Sys W → Sys W → Type 0 where
    stays : {s : Sys W} → Steps s s
    goes : {s t u : Sys W} → Step s t → Steps t u → Steps s u

  Step-Moves : {s t : Sys W} → Step s t → Moves (memory_of s) (memory_of t)
  unfolding acts
  Step-Moves (addon_step req s) = reconcile-Moves req s
  Step-Moves (workflow_step req s) = reconcile_workflow-Moves req s
  Step-Moves (outer_step w s) = ([], refl)

  pub Steps-Moves : {s t : Sys W} → Steps s t → Moves (memory_of s) (memory_of t)
  unfolding acts
  Steps-Moves stays = ([], refl)
  Steps-Moves (goes first rest) = Moves-trans _ _ _ (Step-Moves first) (Steps-Moves rest)
