-- ===== src/Workflows/Defaults.antt =====
-- pkg/workflows/workflow.go: the default labels, the time to live, the deadline, the instance id.
use addon_manager.Common.{
  ℕ, String, Option, none, some, List, [], ◌∷◌, if◌then◌else◌, Reply, found, failure, Assoc, insert,
}
use addon_manager.Api.Addon.{Addon}
use addon_manager.Document.{Fields, int}
use addon_manager.Objects.{Objects, is_zero, ℤ}

-- `addon.ResourceDefault…Label` of api/addon/const.go.
abbrev pub own_label : String
own_label = "app.kubernetes.io/name"

abbrev pub version_label : String
version_label = "app.kubernetes.io/version"

abbrev pub part_label : String
part_label = "app.kubernetes.io/part-of"

abbrev pub manage_by_label : String
manage_by_label = "app.kubernetes.io/managed-by"

abbrev pub group : String
group = "addonmgr.keikoproj.io"

abbrev pub wf_instance_id_label_key : String
wf_instance_id_label_key = "workflows.argoproj.io/controller-instanceid"

abbrev pub wf_instance_id : String
wf_instance_id = "addon-manager-workflow-controller"

abbrev pub wf_default_active_deadline_seconds : ℕ
wf_default_active_deadline_seconds = 300

-- The seconds of 72 hours.
abbrev pub default_ttl : ℕ
default_ttl = 259200

abbrev pub ttl_path : List String
ttl_path = "spec" ∷ "ttlStrategy" ∷ "secondsAfterCompletion" ∷ []

abbrev pub deadline_path : List String
deadline_path = "spec" ∷ "activeDeadlineSeconds" ∷ []

-- The labels of an object, an empty map if it has none.
abbrev pub labels_or_new : Option (Assoc String) → Assoc String
labels_or_new none = []
labels_or_new (some ls) = ls

unfoldable pub default_labels : Addon → Assoc String → Assoc String
default_labels a ls = insert manage_by_label group (
    insert part_label a.name (insert version_label a.spec.pkg_version (insert own_label a.name ls)))

module _ (o : Objects) where
  unfoldable pub add_default_labels_to_resource : Addon → Fields → Fields
  unfolding default_labels
  add_default_labels_to_resource a m =
      o.set_labels (default_labels a (labels_or_new (o.get_labels m))) m

  unfoldable pub inject_instance_id : Fields → Fields
  inject_instance_id m =
      o.set_labels (insert wf_instance_id_label_key wf_instance_id (labels_or_new (o.get_labels m)))
        m

  -- A number of seconds that is absent or zero is set.
  unfoldable pub inject_seconds : List String → ℕ → Fields → Reply (Option ℤ) → Reply Fields
  inject_seconds path seconds m (failure e) = failure e
  inject_seconds path seconds m (found none) = o.set_nested_field m (int seconds) path
  inject_seconds path seconds m (found (some i)) =
      if is_zero i then o.set_nested_field m (int seconds) path else found m

  unfoldable pub inject_ttls : Fields → Reply Fields
  unfolding inject_seconds
  inject_ttls m = inject_seconds ttl_path default_ttl m (o.nested_int64 m ttl_path)

  unfoldable pub inject_active_deadline_seconds : Fields → Reply Fields
  unfolding inject_seconds
  inject_active_deadline_seconds m =
      inject_seconds deadline_path wf_default_active_deadline_seconds m
        (o.nested_int64 m deadline_path)
