-- ===== src/Workflows/Safety/Install.antt =====
-- pkg/workflows/workflow.go: on a template of the right shape `Install` does not panic.
use addon_manager.Common.{
  String, ◌≡◌, refl, ◌∙◌, ◌≢◌, ◌⊎◌, inl, inr, Option, none, some, [], ◌∷◌, arith, eq_iff, Error,
  Result, ok, err, panic, Reply, found, failure, Safe, Safe-bind, Any,
}
use addon_manager.Api.Addon.{Addon}
use addon_manager.Api.Spec.{WorkflowType}
use addon_manager.Cluster.{ended, Sys}
use addon_manager.Document.{Documents, Fields, Value, end}
use addon_manager.Objects.{Objects}
use addon_manager.Objects.Faithful.{Faithful, IsMeta}
use addon_manager.Objects.Paths.{get_in}
use addon_manager.Validator.Workflow.{argo_gvk}
use addon_manager.Workflows.Artifacts.{configure_workflow_artifacts, try}
use addon_manager.Workflows.Defaults.{inject_active_deadline_seconds, inject_ttls}
use addon_manager.Workflows.Install.{
  WorkflowClient, decode, stamp, require_spec, parse, invalid_workflow, prepare, load_template_text,
  or_error, submit, submit_prepared, install_workflow,
}
use addon_manager.Workflows.Parameters.{configure_global_wf_parameters}
use addon_manager.Workflows.Safety.Parameters.{configure_global_wf_parameters-Safe}
use addon_manager.Workflows.Safety.Resources.{NeverPanics, Safe-try}
use addon_manager.Workflows.Safety.Templates.{configure_workflow_artifacts-Safe}
use addon_manager.Workflows.Shapes.{IsBody, IsSpec, SpecWith}

-- The shape of a decoded template: `spec` is not there, or a map of the right shape.
abbrev pub IsTemplate : Fields → Type 0
IsTemplate m = (get_in ("spec" ∷ []) m ≡ none) ⊎ SpecWith IsSpec m

-- The same with the metadata that the setters of the name and the namespace want.
abbrev pub IsDecoded : Fields → Type 0
IsDecoded m = IsMeta m × IsTemplate m

IsTemplate-same :
    (m n : Fields) → get_in ("spec" ∷ []) n ≡ get_in ("spec" ∷ []) m → IsTemplate m → IsTemplate n
IsTemplate-same m n same (inl missing) = inl (same ∙ missing)
IsTemplate-same m n same (inr (spec, there, shaped)) = inr (spec, same ∙ there, shaped)

module _ (docs : Documents) (calm : NeverPanics docs) (o : Objects) (laws : Faithful o)
    (a : Addon) where
  stamp_same :
      (name : String) (m : Fields)
      → IsMeta m
      → get_in ("spec" ∷ []) (stamp docs o a name m) ≡ get_in ("spec" ∷ []) m
  unfolding stamp
  stamp_same name m ok_meta =
      let m1 = o.set_group_version_kind argo_gvk m in
      let m2 = o.set_namespace a.namespace m1 in
      let same =
        laws.set_group_version_kind_lem argo_gvk m ("metadata" ∷ [])
          (inl (λ c. ground (arith, eq_iff "kind" "metadata")))
          (inl (λ c. ground (arith, eq_iff "apiVersion" "metadata"))) in
      let meta1 : IsMeta m1 = elim ok_meta [
        | inl e ↦ inl (same ∙ e)
        | inr (fs, e) ↦ inr (fs, same ∙ e)
      ] in
      let meta2 = laws.set_namespace-IsMeta a.namespace m1 meta1 in
      laws.set_name-keeps name m2 ("spec" ∷ []) meta2
        (inl (λ c. ground (arith, eq_iff "metadata" "spec")))
      ∙ laws.set_namespace-keeps a.namespace m1 ("spec" ∷ []) meta1
          (inl (λ c. ground (arith, eq_iff "metadata" "spec")))
      ∙ laws.set_group_version_kind_lem argo_gvk m ("spec" ∷ [])
          (inl (λ c. ground (arith, eq_iff "kind" "spec")))
          (inl (λ c. ground (arith, eq_iff "apiVersion" "spec")))

  load_template_text-Safe :
      (r : Result Fields) → ((s : String) → r ≢ panic s) → Safe Any (load_template_text docs o r)
  load_template_text-Safe (ok m) h = tt
  load_template_text-Safe (err e) h = tt
  load_template_text-Safe (panic s) h = h s refl

  or_error-Safe : {A : Type 0} (text : String) (r : Reply A) → Safe Any (or_error docs o text r)
  or_error-Safe text (found x) = tt
  or_error-Safe text (failure e) = tt

  decode-Safe : (template : String) → Safe Any (decode docs o template)
  unfolding decode
  decode-Safe template =
      Safe-bind Any Any (load_template_text docs o (docs.unmarshal template end)) _
        (load_template_text-Safe (docs.unmarshal template end) (calm template end))
        λ content _.
          Safe-bind Any Any
            (or_error docs o "invalid workflow, unable to marshal data" (o.marshal_json content)) _
            (or_error-Safe _ (o.marshal_json content))
            λ raw _. or_error-Safe _ (o.unmarshal_json raw)

  Safe-eq :
      {A : Type 0} (P : A → Type 0) (r : Result A)
      → Safe Any r
      → ((x : A) → r ≡ ok x → P x)
      → Safe P r
  Safe-eq P (ok x) h k = k x refl
  Safe-eq P (err e) h k = tt
  Safe-eq P (panic s) h k = h

  require_spec-Safe :
      (m : Fields) (r : Reply (Option Value))
      → IsTemplate m
      → ((x : Option Value) → r ≡ found x → x ≡ get_in ("spec" ∷ []) m)
      → Safe (SpecWith IsSpec) (require_spec docs o m r)
  require_spec-Safe m (failure e) h k = tt
  require_spec-Safe m (found none) h k = tt
  require_spec-Safe m (found (some v)) (inr shaped) k = shaped
  require_spec-Safe m (found (some v)) (inl missing) k = let there = k (some v) refl in absurd (cc)

  parse-Safe :
      (template name : String)
      → ((m : Fields) → decode docs o template ≡ ok m → IsDecoded m)
      → Safe (SpecWith IsSpec) (parse docs o a template name)
  unfolding parse
  parse-Safe template name shaped =
      Safe-bind IsDecoded (SpecWith IsSpec) (decode docs o template) _
        (Safe-eq IsDecoded (decode docs o template) (decode-Safe template) shaped)
        λ m (ok_meta, there).
          let n = stamp docs o a name m in
          require_spec-Safe n (o.nested_field n ("spec" ∷ []))
            (IsTemplate-same m n (stamp_same name m ok_meta) there)
            (λ x e. laws.nested_field_lem n ("spec" ∷ []) x tt e)

  invalid_workflow-Safe :
      (P : Fields → Type 0) (r : Result Fields) → Safe P r → Safe P (invalid_workflow docs o r)
  invalid_workflow-Safe P (ok m) h = h
  invalid_workflow-Safe P (err e) h = tt
  invalid_workflow-Safe P (panic s) h = h

  prepare-Safe :
      (wt : WorkflowType) (name : String)
      → ((m : Fields) → decode docs o wt.template ≡ ok m → IsDecoded m)
      → Safe Any (prepare docs o a wt name)
  unfolding prepare
  prepare-Safe wt name shaped =
      Safe-bind (SpecWith IsSpec) Any (invalid_workflow docs o (parse docs o a wt.template name)) _
        (invalid_workflow-Safe (SpecWith IsSpec) (parse docs o a wt.template name)
          (parse-Safe wt.template name shaped))
        λ m there.
          Safe-bind (SpecWith IsBody) Any (configure_global_wf_parameters o a m) _
            (configure_global_wf_parameters-Safe o laws a m there)
            λ m1 body.
              Safe-bind Any Any (configure_workflow_artifacts docs o a m1) _
                (configure_workflow_artifacts-Safe docs calm o laws a m1 body)
                λ m2 _.
                  Safe-bind Any Any (try (inject_ttls o m2)) _ (Safe-try Any _ (λ x e. tt)) λ m3 _.
                    Safe-bind Any Any (try (inject_active_deadline_seconds o m3)) _
                      (Safe-try Any _ (λ x e. tt)) λ m4 _. tt

  module _ {W F : Type 0} (client : WorkflowClient W F) where
    submit_prepared-ended :
        (r : Result Fields) (s : Sys W)
        → Safe Any r
        → (e : Option Error) × (s' : Sys W) × (submit_prepared docs o client a r s ≡ ended e s')
    unfolding submit_prepared
    submit_prepared-ended (ok m) s h =
        ((submit docs o client a m s).0, (submit docs o client a m s).1, refl)
    submit_prepared-ended (err e) s h = (some e, s, refl)
    submit_prepared-ended (panic text) s h = elim h [ ]

    -- If the YAML reader does not panic, and what a template decodes to has metadata and a `spec` of
    -- the right shape as far as they are there, `Install` returns: none of its type assertions
    -- panics.
    pub install_workflow_returns :
        (name : String) (wt : WorkflowType) (s : Sys W)
        → ((m : Fields) → decode docs o wt.template ≡ ok m → IsDecoded m)
        → (e : Option Error) × (s' : Sys W) × (install_workflow docs o client a name wt s
            ≡ ended e s')
    unfolding install_workflow
    install_workflow_returns name wt s shaped =
        submit_prepared-ended (prepare docs o a wt name) s (prepare-Safe wt name shaped)
