-- ===== src/Updater.antt =====
-- pkg/addon/addon_update.go: `AddonUpdater`. A call holds the addon's mutex throughout, so it is one
-- step of the system for that addon.
pub mod Guard
pub mod Mutex
pub mod Race
pub mod Workflows
use addon_manager.Common.{
  ℕ, zero, suc, ◌+◌, ◌-◌, ◌*◌, ◌/◌, ◌%◌, ◌^◌, ◌≤◌, ◌<◌, Char, code, String, ◌≡◌, refl, sym, ap,
  subst, ◌∙◌, ◌≢◌, ◌↔◌, ◌⊎◌, inl, inr, Bool, true, false, not, ◌&&◌, ◌||◌, Option, none, some, List,
  [], ◌∷◌, ◌++◌, map, arith, ◌==◌, starts_with, eq_iff, eq_refl, leb, ltb, eqb, if◌then◌else◌,
  Bool-cases, Option-cases, is_some, Reason, unknown, not_found, already_exists, conflict, Error,
  errorf, Result, ok, err, panic, Reply, found, failure, Reply-cases, bind, >>=-eq-ok, >>=-eq-panic,
  >>-eq-ok, ◌>>=◌, ◌>>◌, length, get_elem?, length-append, get_elem?-append, All, ◌+++◌, len,
  is_space, trim_left, trim_right, trim_space, cons_head, split, join, hex_digit, quote, Assoc,
  lookup, insert, remove, lookup-insert, lookup-remove, All-lookup, All-insert, All-remove,
  has_prefix, diverges, has_prefix-append, has_prefix-append_of_diverges, Errs, Errs-bind, Errs-err,
}
use addon_manager.Api.Phase.{
  Phase, unset, is_completed, is_running, is_failed, phase_text, LifecycleStep,
}
use addon_manager.Api.Spec.{AddonSpec, NamespacedName}
use addon_manager.Api.Addon.{
  Addon, get_package_spec, calculate_checksum, get_formatted_workflow_name,
}
use addon_manager.Api.Status.{set_status_by_lifecycle_step}
use addon_manager.VersionCache.{Version, Cache, add_version, remove_version, has_version_name}
use addon_manager.Helpers.{
  convert_workflow_phase_to_addon_phase, extract_checksum_and_lifecycle_step,
}
use addon_manager.Cluster.{Workflow, Kube, Sys, record_event}

-- `getStatusMutex`: the mutex, made on the first call.
unfoldable pub get_status_mutex : {W : Type 0} → String → Sys W → ℕ × Sys W
get_status_mutex name s = elim (lookup name s.status_map) [
  | some m ↦ (m, s)
  | none ↦ (
    s.next_mutex,
    record s { status_map = insert name s.next_mutex s.status_map; next_mutex = suc s.next_mutex },
  )
]

unfoldable pub remove_status_wait_group : {W : Type 0} → String → Sys W → Sys W
remove_status_wait_group name s = record s { status_map = remove name s.status_map }

unfoldable pub cached_version : Addon → Version
unfolding get_package_spec
cached_version a = record {
  name = a.name;
  namespace = a.namespace;
  package_spec = get_package_spec a;
  pkg_phase = a.status.lifecycle.installed;
}

unfoldable pub add_addon_to_cache : {W : Type 0} → Addon → Sys W → Sys W
unfolding cached_version
add_addon_to_cache a s = record s { cache = add_version (cached_version a) s.cache }

-- `RemoveFromCache`.
unfoldable pub remove_from_cache : {W : Type 0} → String → Sys W → Sys W
unfolding remove_status_wait_group
remove_from_cache name s = elim (has_version_name name s.cache) [
  | none ↦ remove_status_wait_group name s
  | some v ↦
      remove_status_wait_group name
        (record s { cache = remove_version v.pkg_name v.pkg_version s.cache })
]

-- What the closure of `UpdateStatus` writes: the cluster, and the variables of the race guard.
pub record Attempt (W : Type 0) : Type 0 where
  pub world : W
  pub guard_fired : Bool
  pub guard_installed : Phase
  pub guard_prereqs : Phase

abbrev pub key_of : Addon → NamespacedName
key_of a = record { namespace = a.namespace; name = a.name }

-- The condition of the race guard.
unfoldable pub is_stale : Addon → Addon → Bool
is_stale current incoming =
    is_completed current.status.lifecycle.installed
    && is_running incoming.status.lifecycle.installed
    && (current.status.checksum == incoming.status.checksum)

-- What the closure knows after its first call: an error, an addon that stops it, or the one to change.
pub data Look : Type 0 where
  unread : Error → Look
  held_back : Addon → Look
  has_read : Addon → Look

abbrev written : {W : Type 0} → Attempt W → Reply Addon × W → Option Error × Attempt W
written t (found a, w) = (none, record t { world = w })
written t (failure e, w) = (some e, record t { world = w })

unfoldable pub race_error : Addon → Phase → Error
race_error a api_installed = errorf (
    "race guard: stale "
    +++ quote (phase_text a.status.lifecycle.installed)
    +++ " write over terminal "
    +++ quote (phase_text api_installed)
    +++ " API state blocked for addon "
    +++ a.namespace
    +++ "/"
    +++ a.name
    +++ " (checksum: "
    +++ a.status.checksum
    +++ "); requeuing with fresh state")

-- `retry.RetryOnConflict` with `retry.DefaultRetry`.
abbrev pub Retry : Type 0 → Type 0
Retry W = (Attempt W → Option Error × Attempt W) → Attempt W → Option Error × Attempt W

module _ {W : Type 0} (kube : Kube W) where
  -- The first call of the closure, `Get`, with the race guard.
  unfoldable pub look : Addon → W → Look
  look a w = elim (kube.get_addon (key_of a) w) [
    | failure e ↦ unread e
    | found current ↦ if is_stale current a then held_back current else has_read current
  ]

  -- The second call, `Status().Update`, of the addon that was read with the new status.
  unfoldable pub store : Addon → Addon → W → Reply Addon × W
  store a current w = kube.update_addon_status (record current { status = a.status }) w

module _ {W : Type 0} (kube : Kube W) (retry : Retry W) (spec_bytes : AddonSpec → List ℕ) where
  -- The closure that is retried.
  unfoldable pub attempt : Addon → Attempt W → Option Error × Attempt W
  unfolding look store
  attempt a t = elim (look kube a t.world) [
    | unread e ↦ (some e, t)
    | held_back current ↦ (
      none,
      record t {
        guard_fired = true;
        guard_installed = current.status.lifecycle.installed;
        guard_prereqs = current.status.lifecycle.prereqs;
      },
    )
    | has_read current ↦ written t (store kube a current t.world)
  ]

  -- The rest of `UpdateStatus`, after the loop.
  unfoldable pub finish_update : Addon → Sys W → Option Error × Attempt W → Option Error × Sys W
  finish_update a s (some e, t) = (
    some e,
    record_event "Warning" "Failed"
        ("Addon " +++ a.namespace +++ "/" +++ a.name +++ " status could not be updated. "
          +++ e.text)
        (record s { world = t.world }),
  )
  finish_update a s (none, t) =
      if t.guard_fired
      then (some (race_error a t.guard_installed), record s { world = t.world })
      else (none, add_addon_to_cache a (record s { world = t.world }))

  abbrev pub first_attempt : Sys W → Attempt W
  first_attempt s = record {
    world = s.world;
    guard_fired = false;
    guard_installed = unset;
    guard_prereqs = unset;
  }

  unfoldable pub update_status : Addon → Sys W → Option Error × Sys W
  update_status a s =
      let (mutex, s') = get_status_mutex a.name s in
      finish_update a s' (retry (attempt a) (first_attempt s'))

  -- The end of `UpdateAddonStatusLifecycleFromWorkflow`.
  unfoldable pub write_step : Addon × Option Error → Sys W → Option Error × Sys W
  write_step (a, some e) s = (some (errorf ("failed to update prereqs status. " +++ e.text)), s)
  write_step (a, none) s = update_status a s

  abbrev reason_of : Phase → String → String
  reason_of phase message = if is_failed phase then message else ""

  -- From the name test to the end; `phase == ""` returns without a write.
  unfoldable pub apply_phase : Addon → LifecycleStep → String → Phase → Sys W → Option Error × Sys W
  apply_phase existing step message unset s = (none, s)
  apply_phase existing step message phase s =
      write_step (set_status_by_lifecycle_step step phase (reason_of phase message ∷ []) existing) s

  unfoldable pub apply_workflow :
      Addon → Workflow → Reply (String × LifecycleStep) → Sys W → Option Error × Sys W
  apply_workflow existing wf (failure e) s = (some e, s)
  apply_workflow existing wf (found (checksum, step)) s =
      if get_formatted_workflow_name spec_bytes existing step == wf.name
      then if calculate_checksum spec_bytes existing == checksum
        then apply_phase existing step wf.message
            (convert_workflow_phase_to_addon_phase step wf.phase) s
        else (none, s)
      else (none, s)

  unfoldable pub update_addon_status_lifecycle_from_workflow :
      String → String → Workflow → Sys W → Option Error × Sys W
  update_addon_status_lifecycle_from_workflow namespace name wf s =
      elim (kube.get_addon (record { namespace = namespace; name = name }) s.world) [
        | failure e ↦ (some e, s)
        | found existing ↦
            if is_completed existing.status.lifecycle.installed
            then (none, s)
            else apply_workflow existing wf (extract_checksum_and_lifecycle_step wf.name) s
      ]
