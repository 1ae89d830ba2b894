-- ===== src/Workflows/Install.antt =====
-- pkg/workflows/workflow.go: `Install` and `Delete`, with `parse` and `submit`; and the conversion of
-- pkg/common/helpers.go.
use addon_manager.Common.{
  String, Option, none, some, [], ◌∷◌, ◌==◌, if◌then◌else◌, already_exists, Error, errorf, Result,
  ok, err, panic, Reply, found, failure, ◌>>=◌, ◌+++◌,
}
use addon_manager.Api.Addon.{Addon}
use addon_manager.Api.Spec.{NamespacedName, WorkflowType}
use addon_manager.Cluster.{Ended, Sys, ended, record_event, unwound}
use addon_manager.Document.{Documents, Fields, Value, end}
use addon_manager.Objects.{Objects}
use addon_manager.Validator.Workflow.{argo_gvk}
use addon_manager.Workflows.Artifacts.{configure_workflow_artifacts, try}
use addon_manager.Workflows.Defaults.{
  add_default_labels_to_resource, inject_active_deadline_seconds, inject_instance_id, inject_ttls,
}
use addon_manager.Workflows.Parameters.{configure_global_wf_parameters}

-- The clients of Argo and of Kubernetes that a workflow is sent by; `F` is `wfv1.Workflow`.
-- `marshal_object` is `json.Marshal` of an object, `decode_workflow` is `json.Unmarshal`.
pub record WorkflowClient (W F : Type 0) : Type 0 where
  pub from_unstructured : Fields → Reply F
  pub marshal_object : Fields → Reply String
  pub decode_workflow : String → Reply F
  pub set_controller_reference : Addon → F → Reply F
  pub create_workflow : String → F → W → Reply F × W
  pub delete_workflow : NamespacedName → W → Option Error × W

module _ {W F : Type 0} (client : WorkflowClient W F) where
  unfoldable pub decode_object : Reply String → Reply F
  decode_object (failure e) = failure e
  decode_object (found raw) = client.decode_workflow raw

  -- `WorkFlowFromUnstructured`: one error of the converter is worked around by way of JSON.
  unfoldable pub work_flow_from_unstructured : Fields → Reply F
  unfolding decode_object
  work_flow_from_unstructured m = elim (client.from_unstructured m) [
    | found wf ↦ found wf
    | failure e ↦
        if e.text == "cannot convert int64 to v1alpha1.AnyString"
        then decode_object (client.marshal_object m)
        else failure e
  ]

  -- The answer of `Create`: a workflow that is there already is no error.
  unfoldable pub created : String → String → Reply F × W → Sys W → Option Error × Sys W
  created ns name (found wf, w) s = (
    none,
    record_event "Normal" "Created" ("Created Workflow " +++ ns +++ "/" +++ name)
        (record s { world = w }),
  )
  created ns name (failure e, w) s = elim e.reason [
    | already_exists ↦ (none, record s { world = w })
    | _ ↦ (
      some (errorf ("failed creating wf " +++ name +++ " err " +++ e.text)),
      record s { world = w },
    )
  ]

  unfoldable pub submit_owned : String → String → Reply F → Sys W → Option Error × Sys W
  unfolding created
  submit_owned ns name (failure e) s = (some e, s)
  submit_owned ns name (found wf) s = created ns name (client.create_workflow ns wf s.world) s

  unfoldable pub submit_converted : Addon → String → String → Reply F → Sys W → Option Error × Sys W
  unfolding submit_owned
  submit_converted a ns name (failure e) s = (some e, s)
  submit_converted a ns name (found wf) s =
      submit_owned ns name (client.set_controller_reference a wf) s

  -- `delete` of `AddonLifecycle`.
  unfoldable pub delete_workflow : Addon → String → Sys W → Option Error × Sys W
  delete_workflow a name s =
      let (e, w) =
        client.delete_workflow (record { namespace = a.namespace; name = name }) s.world in
      (e, record s { world = w })

module _ (docs : Documents) (o : Objects) where
  abbrev pub load_template_text : Result Fields → Result Fields
  load_template_text (ok m) = ok m
  load_template_text (err e) = err (errorf ("invalid workflow yaml spec passed. " +++ e.text))
  load_template_text (panic s) = panic s

  abbrev pub or_error : {A : Type 0} → String → Reply A → Result A
  or_error text (found x) = ok x
  or_error text (failure e) = err (errorf text)

  -- The template as an object, by way of YAML and JSON.
  unfoldable pub decode : String → Result Fields
  decode template = do
    content ← load_template_text (docs.unmarshal template end)
    raw ← or_error "invalid workflow, unable to marshal data" (o.marshal_json content)
    or_error "invalid workflow, unable to unmarshal to workflow" (o.unmarshal_json raw)

  -- The kind, the namespace and the name are enforced.
  unfoldable pub stamp : Addon → String → Fields → Fields
  stamp a name m =
      o.set_name name (o.set_namespace a.namespace (o.set_group_version_kind argo_gvk m))

  abbrev pub require_spec : Fields → Reply (Option Value) → Result Fields
  require_spec m (found (some v)) = ok m
  require_spec m _ = err (errorf "invalid workflow, missing spec")

  unfoldable pub parse : Addon → String → String → Result Fields
  unfolding decode stamp
  parse a template name = do
    m ← decode template
    require_spec (stamp a name m) (o.nested_field (stamp a name m) ("spec" ∷ []))

  abbrev pub invalid_workflow : Result Fields → Result Fields
  invalid_workflow (ok m) = ok m
  invalid_workflow (err e) = err (errorf ("invalid workflow. " +++ e.text))
  invalid_workflow (panic s) = panic s

  -- All of `Install` but the submission.
  unfoldable pub prepare : Addon → WorkflowType → String → Result Fields
  prepare a wt name = do
    m ← invalid_workflow (parse a wt.template name)
    m1 ← configure_global_wf_parameters o a m
    m2 ← configure_workflow_artifacts docs o a m1
    m3 ← try (inject_ttls o m2)
    m4 ← try (inject_active_deadline_seconds o m3)
    ok (add_default_labels_to_resource o a (inject_instance_id o m4))

  module _ {W F : Type 0} (client : WorkflowClient W F) where
    unfoldable pub submit : Addon → Fields → Sys W → Option Error × Sys W
    unfolding work_flow_from_unstructured submit_converted
    submit a m s =
        submit_converted client a (o.get_namespace m) (o.get_name m)
          (work_flow_from_unstructured client m) s

    unfoldable pub submit_prepared : Addon → Result Fields → Sys W → Ended (Sys W)
    submit_prepared a (ok m) s = let (e, s') = submit a m s in ended e s'
    submit_prepared a (err e) s = ended (some e) s
    submit_prepared a (panic text) s = unwound text s

    -- `Install` of `AddonLifecycle`.
    unfoldable pub install_workflow : Addon → String → WorkflowType → Sys W → Ended (Sys W)
    unfolding submit_prepared
    install_workflow a name wt s = submit_prepared a (prepare a wt name) s
