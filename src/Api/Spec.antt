-- ===== src/Api/Spec.antt =====
-- api/addon/v1alpha1/addon_types.go: the data types of an addon's spec and status.
use addon_manager.Common.{ℕ, String, List, Assoc}
use addon_manager.Api.Phase.{Phase}

-- `FlexString`: a string, which a JSON boolean or integer is read as.
abbrev pub FlexString : Type 0
FlexString = String

pub record ClusterContext : Type 0 where
  pub cluster_name : String
  pub cluster_region : String
  pub additional_configs : Assoc FlexString

pub record AddonParams : Type 0 where
  pub namespace : String
  pub context : ClusterContext
  pub values : Assoc FlexString

pub record KustomizeTemplate : Type 0 where
  pub template : Assoc String

pub record KustomizeSpec : Type 0 where
  pub labels : Assoc String
  pub annotations : Assoc String
  pub resources : List String
  pub overlay : KustomizeTemplate

pub record AddonOverridesSpec : Type 0 where
  pub kustomize : KustomizeSpec
  pub template : Assoc String

-- `CmdType`: the constants of an integer type, whose zero value is `cert`.
pub data CmdType : Type 0 where
  cert random : CmdType

pub record SecretCmdSpec : Type 0 where
  pub name : String
  pub cmd : CmdType
  pub args : List String

pub record WorkflowType : Type 0 where
  pub name_prefix : String
  pub role : String
  pub workflow_role : String
  pub template : String

pub record LifecycleWorkflowSpec : Type 0 where
  pub prereqs : WorkflowType
  pub install : WorkflowType
  pub delete : WorkflowType
  pub validate : WorkflowType

-- `PackageSpec`; a `PackageType` is a string.
pub record PackageSpec : Type 0 where
  pub pkg_channel : String
  pub pkg_name : String
  pub pkg_version : String
  pub pkg_type : String
  pub pkg_description : String
  pub pkg_deps : Assoc String

-- The part of `metav1.LabelSelector` that the program reads and writes: `matchExpressions`, which it
-- only copies, is left out.
pub record LabelSelector : Type 0 where
  pub match_labels : Assoc String

pub record AddonSpec : Type 0 where
  pub package_spec : PackageSpec
  pub open package_spec use *
  pub params : AddonParams
  pub selector : LabelSelector
  pub overrides : AddonOverridesSpec
  pub secrets : List SecretCmdSpec
  pub lifecycle : LifecycleWorkflowSpec

pub record AddonStatusLifecycle : Type 0 where
  pub prereqs : Phase
  pub installed : Phase

pub record ObjectStatus : Type 0 where
  pub link : String
  pub name : String
  pub kind : String
  pub group : String
  pub status : String

-- `AddonStatus`; `start_time` is in milliseconds.
pub record AddonStatus : Type 0 where
  pub checksum : String
  pub lifecycle : AddonStatusLifecycle
  pub resources : List ObjectStatus
  pub reason : String
  pub start_time : ℕ

-- `types.NamespacedName`.
pub record NamespacedName : Type 0 where
  pub namespace : String
  pub name : String
