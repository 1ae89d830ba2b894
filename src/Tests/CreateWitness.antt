-- ===== src/Tests/CreateWitness.antt =====
-- Runs of addonctl on directories, and of its command `create`.
use addon_manager.Common.{
  String, ◌≡◌, refl, true, some, [], ◌∷◌, ◌==◌, if◌then◌else◌, Error, errorf, err, found, failure,
  has_suffix,
}
use addon_manager.Addonctl.{Files, Parsed, extract_files}
use addon_manager.Addonctl.Create.{Given, instance_of}
use addon_manager.Addonctl.Extracting.{extract_files_refuses}
use addon_manager.Api.Addon.{Addon}
use addon_manager.Document.{Fields, str}
use addon_manager.Objects.{put_in}

abbrev set_generate_name : String → Fields → Fields
set_generate_name s m = put_in ("metadata" ∷ "generateName" ∷ []) (str s) m

abbrev no_flags : Parsed
no_flags = record {
  dependencies_map = [];
  params = some [];
  prereq_resources = [];
  prereq_scripts = [];
  install_resources = "kind: A" ∷ [];
  install_scripts = [];
  secrets_list = "token" ∷ [];
  selector_map = [];
}

abbrev given : Given
given = record {
  addon_name = "web";
  cluster_name = "c";
  cluster_region = "r";
  description = "";
  namespace = "apps";
  pkg_channel = "addons";
  pkg_type = "composite";
  pkg_version = "1.0";
  dry_run = true;
}

abbrev created_addon : Addon
created_addon = instance_of given no_flags [] "" "" ""

-- A shell in a directory `/d` that holds a script and a file of resources.
abbrev disk : Files
disk = record {
  join_path = λ s. "/d";
  stat = λ s. found ("d", true);
  read_dir = λ s. found ("a.py" ∷ "b.yaml" ∷ []);
  read_file = λ s. if s == "a.py" then found "print(1)" else failure (errorf "is a directory");
}

extract_files_refuses_example :
    (e : Error) × (extract_files disk "/d" "install" ("a.py" ∷ "b.yaml" ∷ []) no_flags ≡ err e)
unfolding has_suffix
extract_files_refuses_example =
    extract_files_refuses disk "/d" "install" "b.yaml" ("a.py" ∷ []) [] no_flags
      (errorf "is a directory") refl refl refl
