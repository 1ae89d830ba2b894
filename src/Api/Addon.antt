-- ===== src/Api/Addon.antt =====
-- api/addon/v1alpha1/addon_types.go: `Addon` and the methods that read it.
use addon_manager.Common.{
  ℕ, String, Option, List, [], ◌∷◌, ◌==◌, if◌then◌else◌, errorf, Reply, found, failure, ◌+++◌,
  Assoc, insert,
}
use addon_manager.Api.Phase.{
  Phase, LifecycleStep, prereqs, install, delete, validate, other, step_text,
}
use addon_manager.Api.Spec.{FlexString, PackageSpec, WorkflowType, AddonSpec, AddonStatus}
use addon_manager.Api.Checksum.{adler32, hex}

-- `Addon`, with the fields of its `ObjectMeta` that the program reads or writes.
pub record Addon : Type 0 where
  pub namespace : String
  pub name : String
  pub resource_version : String
  pub deletion_timestamp : Option ℕ
  pub finalizers : List String
  pub spec : AddonSpec
  pub status : AddonStatus

unfoldable pub get_package_spec : Addon → PackageSpec
get_package_spec a = record {
  pkg_channel = a.spec.pkg_channel;
  pkg_name = a.spec.pkg_name;
  pkg_version = a.spec.pkg_version;
  pkg_type = a.spec.pkg_type;
  pkg_description = a.spec.pkg_description;
  pkg_deps = a.spec.pkg_deps;
}

-- `for k, v := range m { params[k] = string(v) }`.
insert_all : Assoc FlexString → Assoc String → Assoc String
insert_all [] params = params
insert_all ((k, v) ∷ m) params = insert_all m (insert k v params)

unfoldable pub get_all_addon_parameters : Addon → Assoc String
unfolding insert_all
get_all_addon_parameters a =
    let p = a.spec.params in
    insert_all p.values (
      insert_all p.context.additional_configs (
        insert "clusterRegion" p.context.cluster_region
          (insert "clusterName" p.context.cluster_name (insert "namespace" p.namespace []))))

unfoldable pub get_workflow_type : Addon → LifecycleStep → Reply WorkflowType
get_workflow_type a install = found a.spec.lifecycle.install
get_workflow_type a prereqs = found a.spec.lifecycle.prereqs
get_workflow_type a delete = found a.spec.lifecycle.delete
get_workflow_type a validate = found a.spec.lifecycle.validate
get_workflow_type a (other s) = failure (errorf ("no WorkflowType of type " +++ s +++ " exists"))

abbrev pub get_install_status : Addon → Phase
get_install_status a = a.status.lifecycle.installed

abbrev pub get_prereq_status : Addon → Phase
get_prereq_status a = a.status.lifecycle.prereqs

-- `prefix` of `GetFormattedWorkflowName`.
unfoldable pub workflow_prefix : Addon → WorkflowType → String
workflow_prefix a wt = if wt.name_prefix == "" then a.name else a.name +++ "-" +++ wt.name_prefix

-- `spec_bytes` is `fmt.Sprintf("%+v", spec)`, which prints types of other packages.
module _ (spec_bytes : AddonSpec → List ℕ) where
  unfoldable pub calculate_checksum : Addon → String
  unfolding hex adler32
  calculate_checksum a = hex (adler32 (spec_bytes a.spec))

  unfoldable pub get_formatted_workflow_name : Addon → LifecycleStep → String
  unfolding calculate_checksum get_workflow_type workflow_prefix
  get_formatted_workflow_name a step = elim (get_workflow_type a step) [
    | failure _ ↦ ""
    | found wt ↦
        workflow_prefix a wt +++ "-" +++ step_text step +++ "-" +++ calculate_checksum a +++ "-wf"
  ]
