-- ===== src/Workflows/Safety/Parameters.antt =====
-- pkg/workflows/workflow.go: on a template of the right shape `configureGlobalWFParameters` does not
-- panic, and it leaves what `configureWorkflowArtifacts` reads.
use addon_manager.Common.{
  String, ◌≡◌, refl, sym, ap, subst, ◌∙◌, ◌≢◌, inl, inr, Option, none, some, List, [], ◌∷◌, arith,
  eq_iff, eq_refl, Bool-cases, Reply-cases, Safe, Safe-bind, Any, false, true,
}
use addon_manager.Api.Addon.{Addon}
use addon_manager.Document.{
  Value, null, scalar, int, str, arr, obj, Fields, end, Items, nil, get_field,
}
use addon_manager.Objects.{Objects, put_field, put_in, fields_of}
use addon_manager.Objects.Faithful.{Faithful}
use addon_manager.Objects.Paths.{
  Apart, get_in, get_in-put_in-Apart, get_in-put_in_self, get_field-put_field,
}
use addon_manager.Workflows.Artifacts.{arguments_artifacts, resource_manifest}
use addon_manager.Workflows.Configured.{or_default}
use addon_manager.Workflows.Parameters.{
  append_items, parameters_of, addon_parameters, is_nil, default_field, as_map, as_slice,
  with_parameters, parameters_path, set_parameters, configure_global_wf_parameters,
}
use addon_manager.Workflows.Shapes.{
  IsParameters, IsArguments, IsArtifacts, IsManifest, HasTemplates, IsBody, IsSpec, SpecWith,
}

-- The key has a value that is not nil, and the others are as they were.
abbrev Filled : String → Value → Fields → Fields → Type 0
Filled k v m n =
    (get_field k n ≡ or_default v (get_field k m))
    × ((j : String) → k ≢ j → get_field j n ≡ get_field j m)

or_default-nil : (v : Value) (x : Option Value) → is_nil x ≡ true → or_default v x ≡ some v
unfolding or_default
or_default-nil v none e = refl
or_default-nil v (some null) e = refl
or_default-nil v (some (scalar s)) e = cc
or_default-nil v (some (int n)) e = cc
or_default-nil v (some (str s)) e = cc
or_default-nil v (some (arr xs)) e = cc
or_default-nil v (some (obj m)) e = cc

or_default-given : (v : Value) (x : Option Value) → is_nil x ≡ false → or_default v x ≡ x
unfolding or_default
or_default-given v none e = cc
or_default-given v (some null) e = cc
or_default-given v (some (scalar s)) e = refl
or_default-given v (some (int n)) e = refl
or_default-given v (some (str s)) e = refl
or_default-given v (some (arr xs)) e = refl
or_default-given v (some (obj m)) e = refl

default_field-Safe :
    (k : String) (v : Value) (m : Fields) → Safe (Filled k v m) (default_field k v (some m))
unfolding default_field
default_field-Safe k v m = elim (Bool-cases (is_nil (get_field k m))) [
  | inl missing ↦
      rw (missing, default_field)
        (
          get_field-put_field k k v m
              ∙ rw (eq_refl k) (sym (or_default-nil v (get_field k m) missing)),
          (λ j apart. ground (arith, get_field-put_field k j v m, eq_iff k j)),
        )
  | inr given ↦
      rw (given, default_field) (sym (or_default-given v (get_field k m) given), (λ j apart. refl))
]

as_map-Safe :
    (x : Option Value)
    → IsArguments x
    → Safe (λ f. f ≡ fields_of x) (as_map (or_default (obj end) x))
unfolding as_map or_default
as_map-Safe none h = refl
as_map-Safe (some null) h = refl
as_map-Safe (some (obj m)) h = refl
as_map-Safe (some (scalar s)) h = elim h [ ]
as_map-Safe (some (int n)) h = elim h [ ]
as_map-Safe (some (str s)) h = elim h [ ]
as_map-Safe (some (arr xs)) h = elim h [ ]

as_slice-Safe : (x : Option Value) → IsParameters x → Safe Any (as_slice (or_default (arr nil) x))
unfolding as_slice or_default
as_slice-Safe none h = tt
as_slice-Safe (some null) h = tt
as_slice-Safe (some (arr xs)) h = tt
as_slice-Safe (some (scalar s)) h = elim h [ ]
as_slice-Safe (some (int n)) h = elim h [ ]
as_slice-Safe (some (str s)) h = elim h [ ]
as_slice-Safe (some (obj m)) h = elim h [ ]

-- What `configureWorkflowArtifacts` reads of `spec` is as it was.
abbrev SameBody : Fields → Fields → Type 0
SameBody m n =
    (get_in arguments_artifacts n ≡ get_in arguments_artifacts m)
    × (get_in resource_manifest n ≡ get_in resource_manifest m)
    × (get_in ("templates" ∷ []) n ≡ get_in ("templates" ∷ []) m)

SameBody-IsBody : (m n : Fields) → SameBody m n → IsBody m → IsBody n
SameBody-IsBody m n (a, r, t) ((artifacts, manifest), templates) = (
  (subst IsArtifacts (sym a) artifacts, subst IsManifest (sym r) manifest),
  subst HasTemplates (sym t) templates,
)

Filled-SameBody :
    (spec spec' arguments arguments' : Fields)
    → Filled "arguments" (obj end) spec spec'
    → arguments ≡ fields_of (get_field "arguments" spec)
    → Filled "parameters" (arr nil) arguments arguments'
    → SameBody spec (put_field "arguments" (obj arguments') spec')
unfolding get_in put_in
Filled-SameBody spec spec' arguments arguments' (_, others) same (_, others') =
    let spec1 = put_field "arguments" (obj arguments') spec' in
    let keeps = λ (q : List String) (h : Apart ("arguments" ∷ []) q).
      get_in-put_in-Apart ("arguments" ∷ []) q (obj arguments') spec' h in
    let resource = others "resource" (λ c. ground (arith, eq_iff "arguments" "resource")) in
    let templates = others "templates" (λ c. ground (arith, eq_iff "arguments" "templates")) in
    let artifacts = others' "artifacts" (λ c. ground (arith, eq_iff "parameters" "artifacts")) in
    (
      ap (λ (x : Option Value). get_field "artifacts" (fields_of x))
            (get_in-put_in_self "arguments" [] (obj arguments') spec')
          ∙ artifacts
          ∙ ap (get_field "artifacts") same,
      keeps resource_manifest (inl (λ c. ground (arith, eq_iff "arguments" "resource")))
          ∙ ap (λ (x : Option Value). get_in ("manifest" ∷ []) (fields_of x)) resource,
      keeps ("templates" ∷ []) (inl (λ c. ground (arith, eq_iff "arguments" "templates")))
          ∙ templates,
    )

-- What `with_parameters` leaves behind.
with_parameters-Safe :
    (m : Fields) → SpecWith IsSpec m → Safe (λ r. SpecWith IsBody r.0) (with_parameters m)
unfolding with_parameters get_in put_in
with_parameters-Safe m (spec, there, (args, params, body)) =
    let result = λ (r : Fields × Items). SpecWith IsBody r.0 in
    rw there (
      Safe-bind (Filled "arguments" (obj end) spec) result
        (default_field "arguments" (obj end) (some spec)) _
        (default_field-Safe "arguments" (obj end) spec)
        λ spec' filled. rw filled.0 (
          Safe-bind (λ f. f ≡ fields_of (get_field "arguments" spec)) result
            (as_map (or_default (obj end) (get_field "arguments" spec))) _
            (as_map-Safe (get_field "arguments" spec) args)
            λ arguments same.
              Safe-bind (Filled "parameters" (arr nil) arguments) result
                (default_field "parameters" (arr nil) (some arguments)) _
                (default_field-Safe "parameters" (arr nil) arguments)
                λ arguments' filled'.
                  let spec1 = put_field "arguments" (obj arguments') spec' in
                  rw filled'.0 (
                    Safe-bind Any result
                      (as_slice (or_default (arr nil) (get_field "parameters" arguments))) _
                      (as_slice-Safe (get_field "parameters" arguments) (
                        subst (λ (x : Fields). IsParameters (get_field "parameters" x)) (sym same)
                          params))
                      λ xs _. (
                        spec1,
                        get_in-put_in_self "spec" [] (obj spec1) m,
                        SameBody-IsBody spec spec1
                            (Filled-SameBody spec spec' arguments arguments' filled same filled')
                            body,
                      ))))

module _ (o : Objects) (laws : Faithful o) (a : Addon) where
  set_parameters-IsBody :
      (m : Fields) (v : Value)
      → SpecWith IsBody m
      → Safe (SpecWith IsBody) (set_parameters o (o.set_nested_field m v parameters_path))
  unfolding get_in put_in
  set_parameters-IsBody m v (spec, there, body) =
      let path : List String = "arguments" ∷ "parameters" ∷ [] in
      elim (Reply-cases (o.set_nested_field m v parameters_path)) [
        | inr (e, bad) ↦ rw bad tt
        | inl (n, done) ↦
            let spec1 = put_in path v spec in
            let read =
              laws.set_nested_field_lem v parameters_path m n done ("spec" ∷ [])
              ∙ get_in-put_in_self "spec" [] (obj (put_in path v (fields_of (get_field "spec" m))))
                  m in
            let keeps =
              λ (q : List String) (h : Apart path q). get_in-put_in-Apart path q v spec h in
            rw done (
              spec1,
              read ∙ ap (λ (x : Option Value). some (obj (put_in path v (fields_of x)))) there,
              SameBody-IsBody spec spec1
                  (
                    keeps arguments_artifacts
                        (inr (refl, inl (λ c. ground (arith, eq_iff "parameters" "artifacts")))),
                    keeps resource_manifest
                        (inl (λ c. ground (arith, eq_iff "arguments" "resource"))),
                    keeps ("templates" ∷ [])
                        (inl (λ c. ground (arith, eq_iff "arguments" "templates"))),
                  )
                  body,
            )
      ]

  pub configure_global_wf_parameters-Safe :
      (m : Fields)
      → SpecWith IsSpec m
      → Safe (SpecWith IsBody) (configure_global_wf_parameters o a m)
  unfolding configure_global_wf_parameters
  configure_global_wf_parameters-Safe m shaped =
      Safe-bind (λ r. SpecWith IsBody r.0) (SpecWith IsBody) (with_parameters m) _
        (with_parameters-Safe m shaped)
        λ r body.
          set_parameters-IsBody r.0 (arr (append_items r.1 (parameters_of (addon_parameters a))))
            body
