-- ===== src/Workflows/Configured.antt =====
-- pkg/workflows/workflow.go: the parameters that a submitted workflow carries.
use addon_manager.Common.{
  String, ◌≡◌, refl, sym, ap, ◌∙◌, Option, none, some, List, [], ◌∷◌, eq_refl, Result, ok, Reply,
  found, failure, >>=-eq-ok, Assoc, ◌++◌,
}
use addon_manager.Api.Addon.{Addon}
use addon_manager.Document.{
  Fields, Items, Value, arr, cons, field, end, nil, get_field, null, scalar, int, str, obj,
}
use addon_manager.Objects.{Objects, fields_of, put_field}
use addon_manager.Objects.Faithful.{Faithful}
use addon_manager.Objects.Paths.{get_in, get_in-put_in_self, get_field-put_field}
use addon_manager.Workflows.Parameters.{
  addon_parameters, append_items, as_map, as_slice, configure_global_wf_parameters, default_field,
  parameters_of, parameters_path, set_parameters, with_parameters, spec_map,
}

-- The items of a value that may be missing or null.
abbrev pub items_of : Option Value → Items
items_of (some (arr xs)) = xs
items_of _ = nil

-- A field after it has been given its default.
unfoldable pub or_default : Value → Option Value → Option Value
or_default v none = some v
or_default v (some null) = some v
or_default v (some w) = some w

kept :
    (k : String) (v : Value) (m m' : Fields) (w : Value)
    → get_field k m ≡ some w
    → (◌≡◌ {A = Result Fields} (ok m) (ok m'))
    → get_field k m' ≡ some w
kept k v m m' w there e = let same : m ≡ m' = cc in ap (get_field k) (sym same) ∙ there

get_field-default_field :
    (k : String) (v : Value) (m m' : Fields) (x : Option Value)
    → get_field k m ≡ x
    → default_field k v (some m) ≡ ok m'
    → get_field k m' ≡ or_default v x
unfolding default_field or_default
get_field-default_field k v m m' none there e =
    let same : put_field k v m ≡ m' = (let e' = (rw (there, default_field) at e) in cc) in
    ap (get_field k) (sym same) ∙ get_field-put_field k k v m ∙ rw (eq_refl k) refl
get_field-default_field k v m m' (some null) there e =
    let same : put_field k v m ≡ m' = (let e' = (rw (there, default_field) at e) in cc) in
    ap (get_field k) (sym same) ∙ get_field-put_field k k v m ∙ rw (eq_refl k) refl
get_field-default_field k v m m' (some (scalar s)) there e =
    kept k v m m' (scalar s) there (rw (there, default_field) at e)
get_field-default_field k v m m' (some (int n)) there e =
    kept k v m m' (int n) there (rw (there, default_field) at e)
get_field-default_field k v m m' (some (str s)) there e =
    kept k v m m' (str s) there (rw (there, default_field) at e)
get_field-default_field k v m m' (some (arr xs)) there e =
    kept k v m m' (arr xs) there (rw (there, default_field) at e)
get_field-default_field k v m m' (some (obj f)) there e =
    kept k v m m' (obj f) there (rw (there, default_field) at e)

as_map-or_default :
    (x : Option Value) (f : Fields) → as_map (or_default (obj end) x) ≡ ok f → f ≡ fields_of x
unfolding as_map or_default
as_map-or_default none f e = cc
as_map-or_default (some null) f e = cc
as_map-or_default (some (scalar s)) f e = cc
as_map-or_default (some (int n)) f e = cc
as_map-or_default (some (str s)) f e = cc
as_map-or_default (some (arr xs)) f e = cc
as_map-or_default (some (obj g)) f e = cc

as_slice-or_default :
    (x : Option Value) (xs : Items) → as_slice (or_default (arr nil) x) ≡ ok xs → xs ≡ items_of x
unfolding as_slice or_default
as_slice-or_default none xs e = cc
as_slice-or_default (some null) xs e = cc
as_slice-or_default (some (scalar s)) xs e = cc
as_slice-or_default (some (int n)) xs e = cc
as_slice-or_default (some (str s)) xs e = cc
as_slice-or_default (some (arr ys)) xs e = cc
as_slice-or_default (some (obj g)) xs e = cc

default_field-spec :
    (k : String) (v : Value) (x : Option Value) (spec : Fields)
    → default_field k v (spec_map x) ≡ ok spec
    → default_field k v (some (fields_of x)) ≡ ok spec
unfolding default_field
default_field-spec k v none spec e = cc
default_field-spec k v (some null) spec e = cc
default_field-spec k v (some (scalar s)) spec e = cc
default_field-spec k v (some (int n)) spec e = cc
default_field-spec k v (some (str s)) spec e = cc
default_field-spec k v (some (arr ys)) spec e = cc
default_field-spec k v (some (obj g)) spec e = e

-- The parameters that are read are those of the template.
with_parameters_lem :
    (m m1 : Fields) (xs : Items)
    → with_parameters m ≡ ok (m1, xs)
    → xs ≡ items_of (get_in parameters_path m)
unfolding with_parameters get_in
with_parameters_lem m m1 xs e =
    let (spec, e_spec, e1) =
      >>=-eq-ok (default_field "arguments" (obj end) (spec_map (get_field "spec" m))) _ e in
    let (arguments, e_args, e2) = >>=-eq-ok (as_map (get_field "arguments" spec)) _ e1 in
    let (arguments', e_args', e3) =
      >>=-eq-ok (default_field "parameters" (arr nil) (some arguments)) _ e2 in
    let (wf_params, e_params, e4) = >>=-eq-ok (as_slice (get_field "parameters" arguments')) _ e3 in
    let old = fields_of (get_field "spec" m) in
    let read_args =
      get_field-default_field "arguments" (obj end) old spec (get_field "arguments" old) refl
        (default_field-spec "arguments" (obj end) (get_field "spec" m) spec e_spec) in
    let args : arguments ≡ fields_of (get_field "arguments" old) =
      as_map-or_default (get_field "arguments" old) arguments
        (ap as_map (sym read_args) ∙ e_args) in
    let read_params =
      get_field-default_field "parameters" (arr nil) arguments arguments'
        (get_field "parameters" arguments) refl e_args' in
    let params : wf_params ≡ items_of (get_field "parameters" arguments) =
      as_slice-or_default (get_field "parameters" arguments) wf_params
        (ap as_slice (sym read_params) ∙ e_params) in
    let same : xs ≡ wf_params = cc in
    same ∙ params ∙ ap (λ (f : Fields). items_of (get_field "parameters" f)) args

-- Items that are maps of one name and one value each, those of the list, in its order.
pub data Carries : List (String × String) → Items → Type 0 where
  no_parameter : Carries [] nil
  one_parameter :
      {name value : String} {ps : List (String × String)} {xs : Items}
      → Carries ps xs
      → Carries
          ((name, value) ∷ ps)
          (cons (obj (field "name" (str name) (field "value" (str value) end))) xs)

-- The items of the first and then those of the second, in their order.
pub data Joined : Items → Items → Items → Type 0 where
  second : {ys : Items} → Joined nil ys ys
  from_first : {x : Value} {xs ys zs : Items} → Joined xs ys zs → Joined (cons x xs) ys (cons x zs)

append_items-Joined : (xs ys : Items) → Joined xs ys (append_items xs ys)
unfolding append_items
append_items-Joined nil ys = second
append_items-Joined (cons x xs) ys = from_first (append_items-Joined xs ys)

parameters_of-Carries : (ps : Assoc String) → Carries ps (parameters_of ps)
unfolding parameters_of
parameters_of-Carries [] = no_parameter
parameters_of-Carries ((name, value) ∷ ps) = one_parameter (parameters_of-Carries ps)

module _ (o : Objects) (laws : Faithful o) where
  set_parameters-eq-ok : (r : Reply Fields) (m : Fields) → set_parameters o r ≡ ok m → r ≡ found m
  set_parameters-eq-ok (found n) m e = cc
  set_parameters-eq-ok (failure f) m e = cc

  -- When the parameters have been configured, the object has all the parameters that its template
  -- has, in their order, and then, whether or not the template has one of that name, one for the
  -- namespace, for each text of the package, for the name and the region of the cluster, for each
  -- additional config and for each value.
  pub configure_global_wf_parameters_lem :
      (a : Addon) (m m' : Fields)
      → configure_global_wf_parameters o a m ≡ ok m'
      → (xs : Items) × (zs : Items) × (get_in parameters_path m' ≡ some (arr zs))
        × Joined (items_of (get_in parameters_path m)) xs zs
        × Carries
            (("namespace", a.spec.params.namespace)
              ∷ ("pkgChannel", a.spec.pkg_channel)
              ∷ ("pkgName", a.spec.pkg_name)
              ∷ ("pkgVersion", a.spec.pkg_version)
              ∷ ("pkgType", a.spec.pkg_type)
              ∷ ("pkgDescription", a.spec.pkg_description)
              ∷ ("clusterName", a.spec.params.context.cluster_name)
              ∷ ("clusterRegion", a.spec.params.context.cluster_region)
              ∷ (a.spec.params.context.additional_configs ++ a.spec.params.values))
            xs
  unfolding configure_global_wf_parameters with_parameters default_field as_map as_slice get_in
      addon_parameters
  configure_global_wf_parameters_lem a m m' e =
      let ((m1, wf_params), shaped, e1) = >>=-eq-ok (with_parameters m) _ e in
      let written =
        laws.set_nested_field_lem
          (arr (append_items wf_params (parameters_of (addon_parameters a)))) parameters_path m1 m'
          (set_parameters-eq-ok _ m' e1) parameters_path in
      let same : wf_params ≡ items_of (get_in parameters_path m) =
        with_parameters_lem m m1 wf_params shaped in
      let old = items_of (get_in parameters_path m) in
      let new = parameters_of (addon_parameters a) in
      (
        new,
        append_items old new,
        written
            ∙ get_in-put_in_self "spec" ("arguments" ∷ "parameters" ∷ []) _ m1
            ∙ ap (λ (xs : Items). some (arr (append_items xs new))) same,
        append_items-Joined old new,
        parameters_of-Carries (addon_parameters a),
      )
