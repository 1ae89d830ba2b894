-- ===== src/Updater/Guard.antt =====
-- pkg/addon/addon_update.go, `UpdateStatus`: the race guard, and what a nil error means.
use addon_manager.Common.{
  ℕ, String, ◌≡◌, refl, sym, ap, ◌∙◌, inl, inr, true, false, Option, none, some, List, arith,
  eq_iff, Bool-cases, Option-cases, conflict, Error, Reply, found, failure, Reply-cases, lookup,
}
use addon_manager.Api.Phase.{is_completed, is_running}
use addon_manager.Api.Spec.{AddonSpec}
use addon_manager.Api.Addon.{Addon}
use addon_manager.VersionCache.{add_version}
use addon_manager.Cluster.{Kube, Sys}
use addon_manager.Updater.{
  Attempt, Retry, key_of, is_stale, written, race_error, attempt, finish_update, first_attempt,
  update_status, get_status_mutex, cached_version, add_addon_to_cache,
}

-- The runs of a retried closure: those before the last end in a conflict.
pub data Runs {S : Type 0} (fn : S → Option Error × S) : S → Option Error × S → Type 0 where
  final : {t : S} {r : Option Error × S} → fn t ≡ r → Runs fn t r
  again :
      {t t' : S} {e : Error} {r : Option Error × S}
      → fn t ≡ (some e, t')
      → e.reason ≡ conflict
      → Runs fn t' r
      → Runs fn t r

-- `RetryOnConflict`: it calls the closure again only after a conflict, and returns what the last call
-- returned.
abbrev pub RetriesOnConflict : {W : Type 0} → Retry W → Type 0
RetriesOnConflict {W} retry =
    (fn : Attempt W → Option Error × Attempt W) (t : Attempt W) → Runs fn t (retry fn t)

-- A run whose first call returns nil is that call alone.
Runs-nil :
    {S : Type 0} (fn : S → Option Error × S) {t u : S} {r : Option Error × S}
    → fn t ≡ (none, u)
    → Runs fn t r
    → r ≡ (none, u)
Runs-nil fn e (final e') = sym e' ∙ e
Runs-nil fn e (again e' c more) = cc

get_status_mutex_keeps :
    {W : Type 0} (name : String) (s : Sys W)
    → let s' = (get_status_mutex name s).1 in
      (s'.world ≡ s.world) × (s'.cache ≡ s.cache) × (s'.events ≡ s.events)
unfolding get_status_mutex
get_status_mutex_keeps name s = elim (Option-cases (lookup name s.status_map)) [
  | inl new ↦ rw (new, get_status_mutex) (refl, refl, refl)
  | inr (m, old) ↦ rw (old, get_status_mutex) (refl, refl, refl)
]

module _ {W : Type 0} (kube : Kube W) (retry : Retry W) (spec_bytes : AddonSpec → List ℕ) where
  attempt-stale :
      (a current : Addon) (t : Attempt W)
      → kube.get_addon (key_of a) t.world ≡ found current
      → is_stale current a ≡ true
      → attempt kube retry spec_bytes a t ≡ (
        none,
        record t {
          guard_fired = true;
          guard_installed = current.status.lifecycle.installed;
          guard_prereqs = current.status.lifecycle.prereqs;
        },
      )
  unfolding attempt
  attempt-stale a current t e stale = rw (e, attempt) (rw stale refl)

  -- The race guard: if the API holds a terminal status for the same checksum, a write of a
  -- non-terminal status is refused with an error, and neither the cluster nor the version cache nor
  -- the events change.
  pub update_status_refused :
      (a current : Addon) (s : Sys W)
      → RetriesOnConflict retry
      → kube.get_addon (key_of a) s.world ≡ found current
      → is_completed current.status.lifecycle.installed ≡ true
      → is_running a.status.lifecycle.installed ≡ true
      → current.status.checksum ≡ a.status.checksum
      → let (e, s') = update_status kube retry spec_bytes a s in
        (e ≡ some (race_error a current.status.lifecycle.installed))
        × (s'.world ≡ s.world)
        × (s'.cache ≡ s.cache)
        × (s'.events ≡ s.events)
  unfolding update_status is_stale finish_update
  update_status_refused a current s law e terminal running same =
      let s' = (get_status_mutex a.name s).1 in
      let (world, cache, events) = get_status_mutex_keeps a.name s in
      let fired =
        Runs-nil (attempt kube retry spec_bytes a)
          (attempt-stale a current (first_attempt kube retry spec_bytes s') (rw world e)
            (ground (arith, eq_iff current.status.checksum a.status.checksum)))
          (law (attempt kube retry spec_bytes a) (first_attempt kube retry spec_bytes s')) in
      rw (fired, update_status, finish_update) (refl, world, cache, events)

  written-nil :
      (t : Attempt W) (r : Reply Addon × W) {u : Attempt W}
      → written t r ≡ (none, u)
      → (stored : Addon) × (r ≡ (found stored, u.world))
  written-nil t (found stored, w) e = (stored, cc)
  written-nil t (failure f, w) e = cc

  -- The last write of a call that returned nil: the API held `current`, which did not stop it.
  abbrev pub Writes : Addon → W → W → Type 0
  Writes a w w' =
      (current : Addon) × (stored : Addon) × (kube.get_addon (key_of a) w ≡ found current)
      × (is_stale current a ≡ false)
      × (kube.update_addon_status (record current { status = a.status }) w ≡ (found stored, w'))

  attempt-Writes :
      (a : Addon) (t u : Attempt W)
      → attempt kube retry spec_bytes a t ≡ (none, u)
      → u.guard_fired ≡ false
      → Writes a t.world u.world
  unfolding attempt
  attempt-Writes a t u e open_guard = elim (Reply-cases (kube.get_addon (key_of a) t.world)) [
    | inr (f, failed) ↦ let h = (rw (failed, attempt) at e) in absurd (cc)
    | inl (current, got) ↦ elim (Bool-cases (is_stale current a)) [
      | inl stale ↦ let h = (rw stale at (rw (got, attempt) at e)) in absurd (ground arith)
      | inr fresh ↦
          let (stored, done) =
            written-nil t (kube.update_addon_status (record current { status = a.status }) t.world)
              (rw fresh at (rw (got, attempt) at e)) in
          (current, stored, got, fresh, done)
    ]
  ]

  Runs-Writes :
      (a : Addon) (t u : Attempt W) (r : Option Error × Attempt W)
      → r ≡ (none, u)
      → u.guard_fired ≡ false
      → Runs (attempt kube retry spec_bytes a) t r
      → (w : W) × Writes a w u.world
  Runs-Writes a t u r e open_guard (final done) =
      (t.world, attempt-Writes a t u (done ∙ e) open_guard)
  Runs-Writes a t u r e open_guard (again {t' = t'} stopped c more) =
      Runs-Writes a t' u r e open_guard more

  finish_update-nil :
      (a : Addon) (s : Sys W) (r : Option Error × Attempt W)
      → (finish_update kube retry spec_bytes a s r).0 ≡ none
      → (u : Attempt W) × (r ≡ (none, u))
        × (u.guard_fired ≡ false)
        × ((finish_update kube retry spec_bytes a s r).1
            ≡ add_addon_to_cache a (record s { world = u.world }))
  unfolding finish_update
  finish_update-nil a s (some e, u) h = cc
  finish_update-nil a s (none, u) h = elim (Bool-cases u.guard_fired) [
    | inl fired ↦ absurd (ground arith)
    | inr open_guard ↦ (u, refl, open_guard, rw (finish_update, open_guard) refl)
  ]

  -- A nil error means that the status was written over one that the race guard lets go, that the
  -- cluster is as this write left it, and that the version cache holds the addon with its phase.
  pub update_status_written :
      (a : Addon) (s : Sys W)
      → RetriesOnConflict retry
      → (update_status kube retry spec_bytes a s).0 ≡ none
      → ((w : W) × Writes a w (update_status kube retry spec_bytes a s).1.world)
        × ((update_status kube retry spec_bytes a s).1.cache
            ≡ add_version (cached_version a) s.cache)
  unfolding update_status add_addon_to_cache
  update_status_written a s law e =
      let s' = (get_status_mutex a.name s).1 in
      let (world, cache, events) = get_status_mutex_keeps a.name s in
      let start = first_attempt kube retry spec_bytes s' in
      let (u, done, open_guard, last) =
        finish_update-nil a s' (retry (attempt kube retry spec_bytes a) start) e in
      (
        rw (ap (λ (x : Sys W). x.world) last)
            (Runs-Writes a start u _ done open_guard (law (attempt kube retry spec_bytes a) start)),
        ap (λ (x : Sys W). x.cache) last ∙ ap (add_version (cached_version a)) cache,
      )
