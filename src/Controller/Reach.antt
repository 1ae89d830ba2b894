-- ===== src/Controller/Reach.antt =====
-- controllers/: what `AddonUpdater` does to the memory that the two reconcilers share.
use addon_manager.Common.{
  String, ◌≡◌, refl, inl, inr, Option, none, some, List, [], ◌∷◌, ◌==◌, Bool-cases, Option-cases,
  Error, Reply, found, failure, Reply-cases, lookup, insert, remove, suc, ◌∙◌, ap,
}
use addon_manager.Api.Addon.{Addon, calculate_checksum, get_formatted_workflow_name}
use addon_manager.Api.Phase.{
  LifecycleStep, Phase, delete_failed, delete_succeeded, deleting, failed, is_completed, pending,
  succeeded, unset, validation_failed,
}
use addon_manager.Cluster.{Sys, Workflow, Memory, memory_of}
use addon_manager.Controller.Types.{Env}
use addon_manager.Updater.{
  Attempt, add_addon_to_cache, apply_phase, apply_workflow, attempt, cached_version, finish_update,
  first_attempt, get_status_mutex, remove_from_cache, remove_status_wait_group,
  update_addon_status_lifecycle_from_workflow, update_status, write_step,
}
use addon_manager.VersionCache.{has_version_name}
use addon_manager.VersionCache.Keyed.{Call, adds, removes, call}

-- What the calls do to the memory: a call on the version cache, `getStatusMutex` for a name, and the
-- removal of a name's mutex.
pub data Act : Type 0 where
  caches : Call → Act
  locks unlocks : String → Act

unfoldable pub act : Act → Memory → Memory
act (caches x) (c, t, n) = (call x c, t, n)
act (locks name) (c, t, n) = elim (lookup name t) [
  | some m ↦ (c, t, n)
  | none ↦ (c, insert name n t, suc n)
]
act (unlocks name) (c, t, n) = (c, remove name t, n)

unfoldable pub acts : List Act → Memory → Memory
unfolding act
acts [] m = m
acts (x ∷ xs) m = acts xs (act x m)

-- The second memory comes from the first by such calls.
abbrev pub Moves : Memory → Memory → Type 0
Moves m n = (xs : List Act) × (n ≡ acts xs m)

module _ {W V F : Type 0} (env : Env W V F) where
  get_status_mutex-memory :
      (name : String) (s : Sys W)
      → memory_of (get_status_mutex name s).1 ≡ act (locks name) (memory_of s)
  unfolding get_status_mutex act
  get_status_mutex-memory name s = elim (Option-cases (lookup name s.status_map)) [
    | inl new ↦ rw (new, get_status_mutex, act) refl
    | inr (m, old) ↦ rw (old, get_status_mutex, act) refl
  ]

  finish_update-Moves :
      (a : Addon) (s : Sys W) (t : Option Error × Attempt W)
      → Moves (memory_of s) (memory_of (finish_update env.kube env.retry env.spec_bytes a s t).1)
  unfolding finish_update add_addon_to_cache acts act call
  finish_update-Moves a s (some e, t) = ([], refl)
  finish_update-Moves a s (none, t) = elim (Bool-cases t.guard_fired) [
    | inl fired ↦ rw (fired, finish_update) ([], refl)
    | inr quiet ↦ rw (quiet, finish_update) (caches (adds (cached_version a)) ∷ [], refl)
  ]

  pub update_status-Moves :
      (a : Addon) (s : Sys W)
      → Moves (memory_of s) (memory_of (update_status env.kube env.retry env.spec_bytes a s).1)
  unfolding update_status acts
  update_status-Moves a s =
      let s1 = (get_status_mutex a.name s).1 in
      let (xs, moved) = finish_update-Moves a s1 (
        env.retry (attempt env.kube env.retry env.spec_bytes a)
          (first_attempt env.kube env.retry env.spec_bytes s1)) in
      (locks a.name ∷ xs, moved ∙ ap (acts xs) (get_status_mutex-memory a.name s))

  pub remove_from_cache-Moves :
      (name : String) (s : Sys W) → Moves (memory_of s) (memory_of (remove_from_cache name s))
  unfolding remove_from_cache remove_status_wait_group acts act call
  remove_from_cache-Moves name s = elim (Option-cases (has_version_name name s.cache)) [
    | inl missing ↦ rw (missing, remove_from_cache) (unlocks name ∷ [], refl)
    | inr (v, hit) ↦
        rw (hit, remove_from_cache)
          (caches (removes v.pkg_name v.pkg_version) ∷ unlocks name ∷ [], refl)
  ]

  write_step-Moves :
      (p : Addon × Option Error) (s : Sys W)
      → Moves (memory_of s) (memory_of (write_step env.kube env.retry env.spec_bytes p s).1)
  unfolding write_step acts
  write_step-Moves (a, some e) s = ([], refl)
  write_step-Moves (a, none) s = update_status-Moves a s

  apply_phase-Moves :
      (a : Addon) (step : LifecycleStep) (message : String) (p : Phase) (s : Sys W)
      → Moves
          (memory_of s)
          (memory_of (apply_phase env.kube env.retry env.spec_bytes a step message p s).1)
  unfolding apply_phase acts
  apply_phase-Moves a step message unset s = ([], refl)
  apply_phase-Moves a step message pending s = write_step-Moves _ s
  apply_phase-Moves a step message succeeded s = write_step-Moves _ s
  apply_phase-Moves a step message failed s = write_step-Moves _ s
  apply_phase-Moves a step message validation_failed s = write_step-Moves _ s
  apply_phase-Moves a step message deleting s = write_step-Moves _ s
  apply_phase-Moves a step message delete_failed s = write_step-Moves _ s
  apply_phase-Moves a step message delete_succeeded s = write_step-Moves _ s

  apply_workflow-Moves :
      (a : Addon) (wf : Workflow) (r : Reply (String × LifecycleStep)) (s : Sys W)
      → Moves
          (memory_of s)
          (memory_of (apply_workflow env.kube env.retry env.spec_bytes a wf r s).1)
  unfolding apply_workflow acts
  apply_workflow-Moves a wf (failure e) s = ([], refl)
  apply_workflow-Moves a wf (found (checksum, step)) s =
      elim (Bool-cases (get_formatted_workflow_name env.spec_bytes a step == wf.name)) [
        | inr stale ↦ rw (stale, apply_workflow) ([], refl)
        | inl named ↦ elim (Bool-cases (calculate_checksum env.spec_bytes a == checksum)) [
          | inr stale ↦ rw (named, apply_workflow) (rw (stale, apply_workflow) ([], refl))
          | inl same_sum ↦
              rw (named, apply_workflow)
                (rw (same_sum, apply_workflow) (apply_phase-Moves a step wf.message _ s))
        ]
      ]

  pub from_workflow-Moves :
      (ns name : String) (wf : Workflow) (s : Sys W)
      → Moves (memory_of s) (
          memory_of
            (update_addon_status_lifecycle_from_workflow env.kube env.retry env.spec_bytes ns name
              wf s).1)
  unfolding update_addon_status_lifecycle_from_workflow acts
  from_workflow-Moves ns name wf s =
      elim (Reply-cases (env.kube.get_addon (record { namespace = ns; name = name }) s.world)) [
        | inr (e, bad) ↦ rw (bad, update_addon_status_lifecycle_from_workflow) ([], refl)
        | inl (a, there) ↦ elim (Bool-cases (is_completed a.status.lifecycle.installed)) [
          | inl done ↦
              rw (there, update_addon_status_lifecycle_from_workflow)
                (rw (done, update_addon_status_lifecycle_from_workflow) ([], refl))
          | inr open_still ↦
              rw (there, update_addon_status_lifecycle_from_workflow)
                (rw (open_still, update_addon_status_lifecycle_from_workflow)
                  (apply_workflow-Moves a wf _ s))
        ]
      ]
