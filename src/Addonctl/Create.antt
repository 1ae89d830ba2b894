-- ===== src/Addonctl/Create.antt =====
-- pkg/addonctl/addonctl.go: the command `create`, after its arguments have been parsed.
use addon_manager.Common.{
  String, Bool, Option, none, some, List, [], ◌∷◌, map, if◌then◌else◌, Error, Result, ok, Reply,
  found, failure, ◌>>=◌, Assoc,
}
use addon_manager.Addonctl.{Parsed, insert_into}
use addon_manager.Api.Addon.{Addon}
use addon_manager.Api.Phase.{unset}
use addon_manager.Api.Spec.{NamespacedName, SecretCmdSpec, WorkflowType, cert}
use addon_manager.Document.{Fields}
use addon_manager.Objects.{Objects}
use addon_manager.Workflows.Builder.{
  build, convert_unstructured_workflow_to_string, delete_builder, new_builder, resources, scripts,
}

-- The flags that are taken as they are given, and the name from the arguments.
pub record Given : Type 0 where
  pub addon_name : String
  pub cluster_name : String
  pub cluster_region : String
  pub description : String
  pub namespace : String
  pub pkg_channel : String
  pub pkg_type : String
  pub pkg_version : String
  pub dry_run : Bool

abbrev pub addon_mgr_system_namespace : String
addon_mgr_system_namespace = "addon-manager-system"

-- `range` over a map that may be nil.
abbrev pub entries : Option (Assoc String) → Assoc String
entries none = []
entries (some m) = m

-- The loop that copies the parameters.
unfoldable pub copy_params : Assoc String → Option (Assoc String) → Result (Option (Assoc String))
copy_params [] m = ok m
copy_params ((name, value) ∷ ps) m = insert_into name value m >>= copy_params ps

abbrev pub secret_of : String → SecretCmdSpec
secret_of name = record { name = name; cmd = cert; args = [] }

abbrev pub workflow_of : String → WorkflowType
workflow_of template = record {
  name_prefix = "";
  role = "";
  workflow_role = "";
  template = template;
}

-- The instance that the command fills, but for what may panic.
unfoldable pub instance_of : Given → Parsed → Assoc String → String → String → String → Addon
instance_of g p values prereqs install delete = record {
  namespace = addon_mgr_system_namespace;
  name = g.addon_name;
  resource_version = "";
  deletion_timestamp = none;
  finalizers = [];
  spec = record {
    package_spec = record {
      pkg_channel = g.pkg_channel;
      pkg_name = g.addon_name;
      pkg_version = g.pkg_version;
      pkg_type = g.pkg_type;
      pkg_description = g.description;
      pkg_deps = p.dependencies_map;
    };
    params = record {
      namespace = g.namespace;
      context = record {
        cluster_name = g.cluster_name;
        cluster_region = g.cluster_region;
        additional_configs = [];
      };
      values = values;
    };
    selector = record { match_labels = p.selector_map };
    overrides = record {
      kustomize = record {
        labels = [];
        annotations = [];
        resources = [];
        overlay = record { template = [] };
      };
      template = [];
    };
    secrets = map secret_of p.secrets_list;
    lifecycle = record {
      prereqs = workflow_of prereqs;
      install = workflow_of install;
      delete = workflow_of delete;
      validate = workflow_of "";
    };
  };
  status = record {
    checksum = "";
    lifecycle = record { prereqs = unset; installed = unset };
    resources = [];
    reason = "";
    start_time = 0;
  };
}

module _ (o : Objects) (set_generate_name : String → Fields → Fields) where
  -- `New().Scripts(…).Resources(…).Build()`, as a text.
  unfoldable pub step_workflow : Bool → Assoc String → List String → Result String
  unfolding convert_unstructured_workflow_to_string
  step_workflow do_delete script_map texts = do
    b ← scripts script_map new_builder
    (b', m) ← build o set_generate_name do_delete (resources texts b)
    convert_unstructured_workflow_to_string o set_generate_name m

  -- `New().Delete().Build()`, as a text; the mode of the process is left set.
  unfoldable pub delete_workflow_text : Bool → Result (Bool × String)
  unfolding delete_builder convert_unstructured_workflow_to_string
  delete_workflow_text do_delete = do
    let (mode, b) = delete_builder (do_delete, new_builder)
    (b', m) ← build o set_generate_name mode b
    text ← convert_unstructured_workflow_to_string o set_generate_name m
    ok (mode, text)

  -- `Run` up to the instance, with the mode of the builders before and after.
  unfoldable pub create_instance : Bool → Given → Parsed → Result (Bool × Addon)
  unfolding copy_params step_workflow delete_workflow_text instance_of
  create_instance do_delete g p = do
    values ← copy_params (entries p.params) none
    prereqs ← step_workflow do_delete p.prereq_scripts p.prereq_resources
    install ← step_workflow do_delete p.install_scripts p.install_resources
    (mode, delete) ← delete_workflow_text do_delete
    ok (mode, instance_of g p (entries values) prereqs install delete)

-- The dynamic client for addons; `to_fields` is `json.Marshal` and `json.Unmarshal`.
pub record AddonClient (W : Type 0) : Type 0 where
  pub to_fields : Addon → Reply Fields
  pub get_resource_version : NamespacedName → W → Reply String
  pub set_resource_version : String → Fields → Fields
  pub update_object : String → Fields → W → Option Error × W
  pub create_object : String → Fields → W → Option Error × W

module _ {W : Type 0} (client : AddonClient W) where
  unfoldable pub send_object : Fields → Reply String → W → W
  send_object m (found version) w =
      (client.update_object addon_mgr_system_namespace (client.set_resource_version version m) w).1
  send_object m (failure e) w = (client.create_object addon_mgr_system_namespace m w).1

  -- The end of `Run`: a failure is only printed.
  unfoldable pub submit_instance : Given → Addon → W → W
  unfolding send_object
  submit_instance g a w = if g.dry_run then w else elim (client.to_fields a) [
    | failure e ↦ w
    | found m ↦
        send_object m
          (client.get_resource_version
            (record { namespace = addon_mgr_system_namespace; name = g.addon_name }) w)
          w
  ]
