-- ===== src/Document.antt =====
-- The documents of gopkg.in/yaml.v3 and of k8s.io/apimachinery's `unstructured` package, and what the
-- program calls of those packages.
use addon_manager.Common.{ℕ, String, Option, none, some, List, ◌==◌, if◌then◌else◌, Result}

-- `interface{}` values of a decoded document; `scalar` is a boolean or a number that is no natural
-- number, by its text.
mutual
  pub data Value : Type 0 where
    null : Value
    scalar : String → Value
    int : ℕ → Value
    str : String → Value
    arr : Items → Value
    obj : Fields → Value

  pub data Fields : Type 0 where
    end : Fields
    field : String → Value → Fields → Fields

  pub data Items : Type 0 where
    nil : Items
    cons : Value → Items → Items

-- `m[k]` on a `map[string]interface{}`.
unfoldable pub get_field : String → Fields → Option Value
get_field k end = none
get_field k (field j v m) = if j == k then some v else get_field k m

pub record GroupVersionKind : Type 0 where
  pub kind : String
  pub group : String
  pub version : String

-- `unmarshal` is `yaml.Unmarshal` into a map that may hold entries already; the others are
-- `GroupVersionKind`, `NestedMap` and `NestedSlice`. The last two copy the value that they find and
-- answer `none` for not found; the copy panics on a value of a type that JSON does not decode to, such
-- as the `int` of yaml.v3.
pub record Documents : Type 0 where
  pub unmarshal : String → Fields → Result Fields
  pub group_version_kind : Fields → GroupVersionKind
  pub nested_map : Fields → List String → Result (Option Fields)
  pub nested_slice : Fields → List String → Result (Option Items)
