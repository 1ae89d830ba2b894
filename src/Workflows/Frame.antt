-- ===== src/Workflows/Frame.antt =====
-- pkg/workflows/workflow.go: the parameters, the artifacts, the time to live and the deadline are
-- written below `spec`.
use addon_manager.Common.{
  ℕ, String, ◌≡◌, refl, subst, ◌∙◌, inl, inr, Option, none, some, List, [], ◌∷◌, Bool-cases, ok,
  Reply, found, failure, Reply-cases, >>=-eq-ok,
}
use addon_manager.Api.Addon.{Addon}
use addon_manager.Document.{
  Documents, Fields, Items, Value, arr, end, get_field, int, nil, null, obj, scalar, str,
}
use addon_manager.Objects.{Objects, is_zero, put_field, put_in, ℤ}
use addon_manager.Objects.Faithful.{Faithful}
use addon_manager.Objects.Paths.{Apart, get_in, get_in-put_in-Apart}
use addon_manager.Workflows.Artifacts.{
  configure_workflow_artifacts, or_null, process_template_list, process_templates,
  process_workflow_resources, try,
}
use addon_manager.Workflows.Defaults.{
  default_ttl, inject_active_deadline_seconds, inject_seconds, inject_ttls, ttl_path,
  wf_default_active_deadline_seconds, deadline_path,
}
use addon_manager.Workflows.Parameters.{
  addon_parameters, append_items, as_map, as_slice, configure_global_wf_parameters, default_field,
  parameters_of, parameters_path, spec_map, with_parameters,
}

-- Outside of `spec` the second object reads as the first.
abbrev pub SpecOnly : Fields → Fields → Type 0
SpecOnly m n = (q : List String) → Apart ("spec" ∷ []) q → get_in q n ≡ get_in q m

spec-Apart : (ks q : List String) → Apart ("spec" ∷ []) q → Apart ("spec" ∷ ks) q
spec-Apart ks [] h = h
spec-Apart ks (j ∷ js) (inl h) = inl h
spec-Apart ks (j ∷ js) (inr (e, h)) = elim h [ ]

pub put_in-SpecOnly :
    (ks : List String) (v : Value) (m : Fields) → SpecOnly m (put_in ("spec" ∷ ks) v m)
put_in-SpecOnly ks v m q h = get_in-put_in-Apart ("spec" ∷ ks) q v m (spec-Apart ks q h)

put_field-SpecOnly : (v : Value) (m : Fields) → SpecOnly m (put_field "spec" v m)
unfolding put_in
put_field-SpecOnly v m = put_in-SpecOnly [] v m

pub SpecOnly-trans : (m n k : Fields) → SpecOnly m n → SpecOnly n k → SpecOnly m k
SpecOnly-trans m n k h h' q apart = h' q apart ∙ h q apart

with_parameters-SpecOnly :
    (m m' : Fields) (ps : Items) → with_parameters m ≡ ok (m', ps) → SpecOnly m m'
unfolding with_parameters
with_parameters-SpecOnly m m' ps e =
    let (spec, _, e1) =
      >>=-eq-ok (default_field "arguments" (obj end) (spec_map (get_field "spec" m))) _ e in
    let (arguments, _, e2) = >>=-eq-ok (as_map (get_field "arguments" spec)) _ e1 in
    let (arguments', _, e3) =
      >>=-eq-ok (default_field "parameters" (arr nil) (some arguments)) _ e2 in
    let (params, _, e4) = >>=-eq-ok (as_slice (get_field "parameters" arguments')) _ e3 in
    let same : put_field "spec" (obj (put_field "arguments" (obj arguments') spec)) m ≡ m' = cc in
    subst (SpecOnly m) same
      (put_field-SpecOnly (obj (put_field "arguments" (obj arguments') spec)) m)

module _ (o : Objects) (laws : Faithful o) where
  pub set_nested_field-SpecOnly :
      (v : Value) (ks : List String) (m m' : Fields)
      → o.set_nested_field m v ("spec" ∷ ks) ≡ found m'
      → SpecOnly m m'
  set_nested_field-SpecOnly v ks m m' e q h =
      laws.set_nested_field_lem v ("spec" ∷ ks) m m' e q ∙ put_in-SpecOnly ks v m q h

  pub configure_global_wf_parameters-SpecOnly :
      (a : Addon) (m m' : Fields) → configure_global_wf_parameters o a m ≡ ok m' → SpecOnly m m'
  unfolding configure_global_wf_parameters
  configure_global_wf_parameters-SpecOnly a m m' e =
      let ((m1, ps), e1, e2) = >>=-eq-ok (with_parameters m) _ e in
      elim (Reply-cases (
        o.set_nested_field m1 (arr (append_items ps (parameters_of (addon_parameters a))))
          parameters_path)) [
            | inr (f, bad) ↦ let h = (rw bad at e2) in absurd (cc)
            | inl (m2, done) ↦
                let same : m2 ≡ m' = (let h = (rw done at e2) in cc) in
                subst (SpecOnly m) same (
                  SpecOnly-trans m m1 m2 (with_parameters-SpecOnly m m1 ps e1)
                    (set_nested_field-SpecOnly _ ("arguments" ∷ "parameters" ∷ []) m1 m2 done))
          ]

  inject_seconds-SpecOnly :
      (ks : List String) (seconds : ℕ) (m m' : Fields) (r : Reply (Option ℤ))
      → inject_seconds o ("spec" ∷ ks) seconds m r ≡ found m'
      → SpecOnly m m'
  unfolding inject_seconds
  inject_seconds-SpecOnly ks seconds m m' (failure e) h = cc
  inject_seconds-SpecOnly ks seconds m m' (found none) h =
      set_nested_field-SpecOnly (int seconds) ks m m' h
  inject_seconds-SpecOnly ks seconds m m' (found (some i)) h = elim (Bool-cases (is_zero i)) [
    | inl zero_there ↦ set_nested_field-SpecOnly (int seconds) ks m m' (rw zero_there at h)
    | inr given ↦
        let same : m ≡ m' = (let h' = (rw given at h) in cc) in
        subst (SpecOnly m) same (λ q _. refl)
  ]

  pub inject_ttls-SpecOnly : (m m' : Fields) → inject_ttls o m ≡ found m' → SpecOnly m m'
  unfolding inject_ttls
  inject_ttls-SpecOnly m m' h =
      inject_seconds-SpecOnly ("ttlStrategy" ∷ "secondsAfterCompletion" ∷ []) default_ttl m m'
        (o.nested_int64 m ttl_path) h

  pub inject_active_deadline_seconds-SpecOnly :
      (m m' : Fields) → inject_active_deadline_seconds o m ≡ found m' → SpecOnly m m'
  unfolding inject_active_deadline_seconds
  inject_active_deadline_seconds-SpecOnly m m' h =
      inject_seconds-SpecOnly ("activeDeadlineSeconds" ∷ []) wf_default_active_deadline_seconds m m'
        (o.nested_int64 m deadline_path) h

  module _ (docs : Documents) (a : Addon) where
    process_template_list-SpecOnly :
        (m m' : Fields) (templates : Option Value)
        → process_template_list docs o a m templates ≡ ok m'
        → SpecOnly m m'
    unfolding process_template_list
    process_template_list-SpecOnly m m' none e = subst (SpecOnly m) (cc) (λ q _. refl)
    process_template_list-SpecOnly m m' (some null) e = subst (SpecOnly m) (cc) (λ q _. refl)
    process_template_list-SpecOnly m m' (some (arr xs)) e =
        let (ys, _, e1) = >>=-eq-ok (process_templates docs o a xs) _ e in
        subst (SpecOnly m) (cc) (put_in-SpecOnly ("templates" ∷ []) (arr ys) m)
    process_template_list-SpecOnly m m' (some (obj fs)) e = cc
    process_template_list-SpecOnly m m' (some (str s)) e = cc
    process_template_list-SpecOnly m m' (some (int n)) e = cc
    process_template_list-SpecOnly m m' (some (scalar s)) e = cc

    pub configure_workflow_artifacts-SpecOnly :
        (m m' : Fields) → configure_workflow_artifacts docs o a m ≡ ok m' → SpecOnly m m'
    unfolding configure_workflow_artifacts
    configure_workflow_artifacts-SpecOnly m m' e =
        let (spec, _, e1) = >>=-eq-ok (try (o.nested_field m ("spec" ∷ []))) _ e in
        let (spec', _, e2) =
          >>=-eq-ok (process_workflow_resources docs o a (or_null docs o a spec)) _ e1 in
        let m1 = put_in ("spec" ∷ []) spec' m in
        let (templates, _, e3) =
          >>=-eq-ok (try (o.nested_field m1 ("spec" ∷ "templates" ∷ []))) _ e2 in
        SpecOnly-trans m m1 m' (put_in-SpecOnly [] spec' m)
          (process_template_list-SpecOnly m1 m' templates e3)
