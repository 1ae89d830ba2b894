-- ===== src/Workflows/Parameters.antt =====
-- pkg/workflows/workflow.go: `configureGlobalWFParameters`.
use addon_manager.Common.{
  String, Bool, true, false, Option, none, some, List, [], ◌∷◌, ◌++◌, if◌then◌else◌, errorf, Result,
  ok, err, panic, Reply, found, failure, ◌>>=◌, Assoc,
}
use addon_manager.Api.Addon.{Addon}
use addon_manager.Document.{
  Fields, Items, Value, arr, cons, end, field, get_field, nil, null, obj, str,
}
use addon_manager.Objects.{Objects, put_field}

abbrev no_map : {A : Type 0} → Result A
no_map = panic "interface conversion: interface {} is not map[string]interface {}"

abbrev no_slice : {A : Type 0} → Result A
no_slice = panic "interface conversion: interface {} is not []interface {}"

abbrev pub nil_map_text : String
nil_map_text = "assignment to entry in nil map"

abbrev nil_map : {A : Type 0} → Result A
nil_map = panic nil_map_text

unfoldable pub append_items : Items → Items → Items
append_items nil ys = ys
append_items (cons x xs) ys = cons x (append_items xs ys)

-- A parameter: a map of a name and a value.
abbrev pub parameter : String → String → Value
parameter name value = obj (field "name" (str name) (field "value" (str value) end))

unfoldable pub parameters_of : Assoc String → Items
parameters_of [] = nil
parameters_of ((name, value) ∷ ps) = cons (parameter name value) (parameters_of ps)

-- The namespace, then the fields of `PackageSpec` and of `ClusterContext` that are strings, under their
-- JSON names, then the additional configs and the values.
unfoldable pub addon_parameters : Addon → Assoc String
addon_parameters a =
    ("namespace", a.spec.params.namespace)
    ∷ ("pkgChannel", a.spec.pkg_channel)
    ∷ ("pkgName", a.spec.pkg_name)
    ∷ ("pkgVersion", a.spec.pkg_version)
    ∷ ("pkgType", a.spec.pkg_type)
    ∷ ("pkgDescription", a.spec.pkg_description)
    ∷ ("clusterName", a.spec.params.context.cluster_name)
    ∷ ("clusterRegion", a.spec.params.context.cluster_region)
    ∷ (a.spec.params.context.additional_configs ++ a.spec.params.values)

-- `spec, _ := content["spec"].(map[string]interface{})`: a nil map for any other value.
abbrev pub spec_map : Option Value → Option Fields
spec_map (some (obj m)) = some m
spec_map _ = none

abbrev pub is_nil : Option Value → Bool
is_nil none = true
is_nil (some null) = true
is_nil _ = false

-- `if m[k] == nil { m[k] = v }` on a map that may be nil.
unfoldable pub default_field : String → Value → Option Fields → Result Fields
default_field k v none = nil_map
default_field k v (some m) = if is_nil (get_field k m) then ok (put_field k v m) else ok m

unfoldable pub as_map : Option Value → Result Fields
as_map (some (obj m)) = ok m
as_map _ = no_map

unfoldable pub as_slice : Option Value → Result Items
as_slice (some (arr xs)) = ok xs
as_slice _ = no_slice

-- The object with `spec.arguments.parameters` in it, and those parameters.
unfoldable pub with_parameters : Fields → Result (Fields × Items)
unfolding default_field as_map as_slice put_field
with_parameters m = do
  spec ← default_field "arguments" (obj end) (spec_map (get_field "spec" m))
  arguments ← as_map (get_field "arguments" spec)
  arguments' ← default_field "parameters" (arr nil) (some arguments)
  wf_params ← as_slice (get_field "parameters" arguments')
  ok (put_field "spec" (obj (put_field "arguments" (obj arguments') spec)) m, wf_params)

abbrev pub parameters_path : List String
parameters_path = "spec" ∷ "arguments" ∷ "parameters" ∷ []

module _ (o : Objects) where
  -- The answer is an error for `false`.
  abbrev pub set_parameters : Reply Fields → Result Fields
  set_parameters (found m) = ok m
  set_parameters (failure e) = err (errorf "invalid workflow parameter")

  unfoldable pub configure_global_wf_parameters : Addon → Fields → Result Fields
  unfolding with_parameters append_items parameters_of addon_parameters
  configure_global_wf_parameters a m = do
    (m', wf_params) ← with_parameters m
    set_parameters (
        o.set_nested_field m' (arr (append_items wf_params (parameters_of (addon_parameters a))))
          parameters_path)
