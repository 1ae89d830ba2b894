-- ===== src/Controller/Open.antt =====
-- controllers/addon_controller.go: a reconcile that comes as far as the installation.
use addon_manager.Common.{◌≡◌, ap, true, false, none, ok, ◌+++◌}
use addon_manager.Api.Phase.{is_completed}
use addon_manager.Controller.Process.{
  process_finalizer, process_install, process_unchanged, process_validated, set_finalizer,
}
use addon_manager.Controller.Types.{Env, Run, event, finalizer_name, full_name, ttl}
use addon_manager.Helpers.{is_expired}
use addon_manager.Validator.{validate}

abbrev pub announced : {W : Type 0} → Run W → Run W
announced r = event "Normal" "Completed" ("Addon " +++ full_name r +++ " is valid.") r

module _ {W V F : Type 0} (env : Env W V F) where
  -- What holds of an instance that is to be installed: it is not deleted, not completed, valid, has
  -- the finalizer, and its time is not up.
  pub record IsOpen (r : Run W) : Type 0 where
    pub live : r.instance_addon.deletion_timestamp ≡ none
    pub open_still : is_completed r.instance_addon.status.lifecycle.installed ≡ false
    pub valid :
        validate env.semver env.docs env.spec_bytes env.order r.sys.cache r.instance_addon ≡ ok tt
    pub kept : env.kube.contains_finalizer r.instance_addon finalizer_name ≡ true
    pub in_time : is_expired env.now r.instance_addon.status.start_time ttl ≡ false

  finalizer_kept :
      (r : Run W)
      → r.instance_addon.deletion_timestamp ≡ none
      → env.kube.contains_finalizer r.instance_addon finalizer_name ≡ true
      → set_finalizer env r ≡ (none, r)
  unfolding set_finalizer
  finalizer_kept r live kept = simp (live, kept, set_finalizer)

  pub open_installs :
      (r : Run W) → IsOpen r → process_unchanged env r ≡ process_install env (announced r)
  unfolding process_unchanged process_validated process_finalizer
  open_installs r h =
      rw (h.open_still, process_unchanged)
        (rw (h.valid, process_validated)
          (ap (process_finalizer env) (finalizer_kept (announced r) h.live h.kept)))
