-- ===== src/Tests/Fixtures.antt =====
-- A small cluster: its state is the one stored addon; versions are compared as texts.
use addon_manager.Common.{
  ℕ, String, ◌≡◌, refl, Bool, true, false, Option, none, some, List, [], ◌∷◌, ◌==◌, not_found, ok,
  found, failure, hex_digit, Assoc,
}
use addon_manager.Api.Addon.{Addon}
use addon_manager.Api.Checksum.{adler32, hex}
use addon_manager.Api.Phase.{Phase, delete, install, pending, prereqs, validate}
use addon_manager.Api.Spec.{AddonSpec, PackageSpec, WorkflowType}
use addon_manager.Cluster.{Kube, Sys}
use addon_manager.Controller.Types.{Env, Run}
use addon_manager.Document.{Documents, Fields, end}
use addon_manager.Workflows.Install.{WorkflowClient}
use addon_manager.Tests.Trees.{objects}
use addon_manager.Helpers.{contains_string, remove_string}
use addon_manager.Updater.{Retry}
use addon_manager.Updater.Guard.{RetriesOnConflict, final}
use addon_manager.VersionCache.{Cache, Semver, Version}
use Prim.Native.String

abbrev pub package_of : String → String → Assoc String → PackageSpec
package_of name version deps = record {
  pkg_channel = "addons";
  pkg_name = name;
  pkg_version = version;
  pkg_type = "composite";
  pkg_description = "";
  pkg_deps = deps;
}

abbrev pub version_of : String → String → Assoc String → Phase → Version
version_of name version deps phase = record {
  name = name;
  namespace = "system";
  package_spec = package_of name version deps;
  pkg_phase = phase;
}

-- Version texts are versions; the one constraint is "any".
abbrev any_constraint : Bool → Option (String → Bool)
any_constraint true = some (λ v. true)
any_constraint false = none

abbrev pub semver : Semver String
semver = record { new_version = λ s. some s; new_constraint = λ s. any_constraint (s == "any") }

abbrev pub docs : Documents
docs = record {
  unmarshal = λ s m. ok m;
  group_version_kind =
      λ m. record { kind = "Workflow"; group = "argoproj.io"; version = "v1alpha1" };
  nested_map = λ m path. ok none;
  nested_slice = λ m path. ok none;
}

-- The checksum in these tests looks at the length of the version text.
abbrev pub spec_bytes : AddonSpec → List ℕ
spec_bytes s = String.len s.pkg_version ∷ []

abbrev pub no_workflow : WorkflowType
no_workflow = record { name_prefix = ""; role = ""; workflow_role = ""; template = "" }

abbrev pub some_workflow : WorkflowType
some_workflow = record {
  name_prefix = "";
  role = "";
  workflow_role = "";
  template = "kind: Workflow";
}

abbrev pub spec_of : String → Assoc String → WorkflowType → AddonSpec
spec_of version deps wt = record {
  package_spec = package_of "web" version deps;
  params = record {
    namespace = "apps";
    context = record { cluster_name = "c"; cluster_region = "r"; additional_configs = [] };
    values = [];
  };
  selector = record { match_labels = [] };
  overrides = record {
    kustomize = record {
      labels = [];
      annotations = [];
      resources = [];
      overlay = record { template = [] };
    };
    template = [];
  };
  secrets = [];
  lifecycle = record {
    prereqs = no_workflow;
    install = no_workflow;
    delete = wt;
    validate = no_workflow;
  };
}

abbrev pub addon_of : String → Assoc String → WorkflowType → String → Phase → Phase → Addon
addon_of version deps wt checksum prereqs_phase installed = record {
  namespace = "system";
  name = "web";
  resource_version = "";
  deletion_timestamp = none;
  finalizers = [];
  spec = spec_of version deps wt;
  status = record {
    checksum = checksum;
    lifecycle = record { prereqs = prereqs_phase; installed = installed };
    resources = [];
    reason = "";
    start_time = 0;
  };
}

-- Adler-32 of the byte 3, the length of "1.0".
abbrev pub sum : String
sum = "40004"

sum_test : hex (adler32 (3 ∷ [])) ≡ sum
unfolding hex adler32 hex_digit
sum_test = refl

abbrev pub web : Phase → Addon
web phase = addon_of "1.0" [] no_workflow sum phase phase

abbrev pub kube : Kube Addon
kube = record {
  get_addon = λ key w. found w;
  update_addon = λ a w. (found a, a);
  update_addon_status = λ a w. (found a, a);
  contains_finalizer = λ a f. contains_string a.finalizers f;
  add_finalizer = λ a f. record a { finalizers = f ∷ a.finalizers };
  remove_finalizer = λ a f. record a { finalizers = remove_string a.finalizers f };
  as_selector = λ labels. found "selector";
  get_workflow = λ key w. failure (record { text = "gone"; reason = not_found });
  list_workflows = λ ns selector w. found [];
  delete_workflow = λ key w. (none, w);
  list_secrets = λ ns w. found [];
  list_objects = λ kind ns selector w. found [];
}

-- A retry that is content with one call.
abbrev pub once : Retry Addon
once fn t = fn t

pub once_law : RetriesOnConflict once
once_law fn t = final refl

abbrev pub system : Addon → Cache → Sys Addon
system w cache = record { world = w; cache = cache; events = []; status_map = []; next_mutex = 0 }

-- The workflow is the object itself; the API server takes it and forgets it.
abbrev pub client : WorkflowClient Addon Fields
client = record {
  from_unstructured = λ m. found m;
  marshal_object = λ m. found "";
  decode_workflow = λ raw. found end;
  set_controller_reference = λ a m. found m;
  create_workflow = λ ns m w. (found m, w);
  delete_workflow = λ key w. (none, w);
}

abbrev pub env : Env Addon String Fields
env = record {
  kube = kube;
  retry = once;
  semver = semver;
  docs = docs;
  spec_bytes = spec_bytes;
  order = prereqs ∷ install ∷ delete ∷ validate ∷ [];
  now = 5000;
  objects = objects;
  client = client;
}

abbrev pub run_of : Addon → Cache → Run Addon
run_of a cache = record { instance_addon = a; sys = system a cache }

-- The package `lib` in one version, in the given phase.
abbrev pub lib_cache : Phase → Cache
lib_cache phase = ("lib", ("2.0", version_of "lib" "2.0" [] phase) ∷ []) ∷ []

-- An addon that depends on `lib`.
abbrev pub app : String → Addon
app wanted = addon_of "1.0" (("lib", wanted) ∷ []) no_workflow sum pending pending
