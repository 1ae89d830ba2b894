-- ===== src/Controller/Uncopied.antt =====
-- pkg/addon/addon_validator.go and controllers/addon_controller.go: a template whose arguments cannot
-- be copied.
use addon_manager.Common.{String, ◌≡◌, true, false, none, List, [], ◌∷◌, ◌==◌, is_some, ok, panic}
use addon_manager.Api.Addon.{calculate_checksum}
use addon_manager.Api.Phase.{LifecycleStep, is_completed, prereqs as prereqs_step}
use addon_manager.Controller.Types.{Env, Run}
use addon_manager.Document.{Fields, end, get_field}
use addon_manager.Validator.{
  addon_version, validate_addon_name_length, validate_duplicate, validate_namespace,
}
use addon_manager.Validator.Workflow.{argo_gvk, gvk_eq}

module _ {W V F : Type 0} (env : Env W V F) where
  -- The addon is to be validated, passes the checks before that of its templates, and the first of
  -- these is a workflow of Argo with a `spec` whose arguments `NestedMap` panics on.
  pub record IsUncopied (r : Run W) (m : Fields) (keys : List LifecycleStep) (s : String)
      : Type 0 where
    pub live : r.instance_addon.deletion_timestamp ≡ none
    pub same : r.instance_addon.status.checksum ≡ calculate_checksum env.spec_bytes r.instance_addon
    pub fresh : r.instance_addon.status.resources ≡ []
    pub open_still : is_completed r.instance_addon.status.lifecycle.installed ≡ false
    pub unique :
        validate_duplicate env.semver env.docs env.spec_bytes r.sys.cache r.instance_addon
          (addon_version r.instance_addon)
        ≡ ok tt
    pub short :
        validate_addon_name_length env.semver env.docs env.spec_bytes r.instance_addon ≡ ok tt
    pub placed : validate_namespace env.semver env.docs env.spec_bytes r.instance_addon ≡ ok tt
    pub first : env.order ≡ prereqs_step ∷ keys
    pub given : (r.instance_addon.spec.lifecycle.prereqs.template == "") ≡ false
    pub decoded : env.docs.unmarshal r.instance_addon.spec.lifecycle.prereqs.template end ≡ ok m
    pub argo : gvk_eq (env.docs.group_version_kind m) argo_gvk ≡ true
    pub has_spec : is_some (get_field "spec" m) ≡ true
    pub uncopied : env.docs.nested_map m ("spec" ∷ "arguments" ∷ []) ≡ panic s
