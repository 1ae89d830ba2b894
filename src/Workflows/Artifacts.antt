-- ===== src/Workflows/Artifacts.antt =====
-- pkg/workflows/workflow.go: `configureWorkflowArtifacts` and what it calls. The maps that it changes
-- through references are returned.
use addon_manager.Common.{
  String, Option, none, some, List, [], ◌∷◌, ◌==◌, if◌then◌else◌, errorf, Result, ok, err, panic,
  Reply, found, failure, ◌>>=◌, ◌+++◌, trim_space, join, split_on,
}
use addon_manager.Api.Addon.{Addon}
use addon_manager.Document.{Documents, Fields, Items, Value, arr, cons, end, nil, null, obj, str}
use addon_manager.Objects.{Objects, put_in}
use addon_manager.Workflows.Defaults.{add_default_labels_to_resource}

-- An error that is not nil ends the function.
abbrev pub try : {A : Type 0} → Reply A → Result A
try (found x) = ok x
try (failure e) = err e

-- `strings.Split(s, "---\n")`.
abbrev pub split_manifests : String → List String
split_manifests s = split_on "---\n" 3 0 s

abbrev pub raw_data : List String
raw_data = "raw" ∷ "data" ∷ []

abbrev pub arguments_artifacts : List String
arguments_artifacts = "arguments" ∷ "artifacts" ∷ []

abbrev pub resource_manifest : List String
resource_manifest = "resource" ∷ "manifest" ∷ []

abbrev pub text_or_empty : Option String → String
text_or_empty none = ""
text_or_empty (some s) = s

module _ (docs : Documents) (o : Objects) (a : Addon) where
  -- `yaml.Unmarshal` into a map of its own, with its error wrapped.
  unfoldable pub load_artifact : String → Result Fields → Result Fields
  load_artifact text (ok m) = ok m
  load_artifact text (err e) =
      err (errorf ("unable to unmarshall artifact: " +++ text +++ ". " +++ e.text))
  load_artifact text (panic s) = panic s

  unfoldable pub store_artifact : Reply String → Result String
  store_artifact (found s) = ok s
  store_artifact (failure e) = err (errorf "unable to marshall resource")

  unfoldable pub process_artifact : String → Result String
  unfolding load_artifact store_artifact add_default_labels_to_resource
  process_artifact text =
      let text' = trim_space text in
      if text' == "" then ok "" else (do
        m ← load_artifact text' (docs.unmarshal text' end)
        store_artifact (o.marshal (add_default_labels_to_resource o a m)))

  unfoldable pub process_each : List String → Result (List String)
  unfolding process_artifact
  process_each [] = ok []
  process_each (text ∷ texts) = do
    text' ← process_artifact text
    texts' ← process_each texts
    ok (text' ∷ texts')

  -- The documents of one text.
  unfoldable pub process_manifests : String → Result String
  unfolding process_each
  process_manifests text = do texts ← process_each (split_manifests text); ok (join "---\n" texts)

  unfoldable pub process_argument : Value → Result Value
  unfolding process_manifests
  process_argument (obj m) = do
    text ← try (o.nested_string m raw_data)
    text' ← process_manifests (text_or_empty text)
    m' ← try (o.set_nested_field m (str text') raw_data)
    ok (obj m')
  process_argument _ = panic "interface conversion: interface {} is not map[string]interface {}"

  unfoldable pub process_arguments : Items → Result Items
  unfolding process_argument
  process_arguments nil = ok nil
  process_arguments (cons x xs) = do
    x' ← process_argument x
    xs' ← process_arguments xs
    ok (cons x' xs')

  unfoldable pub process_artifacts : Fields → Value → Result Fields
  unfolding process_arguments put_in
  process_artifacts m (arr xs) = do
    xs' ← process_arguments xs
    ok (put_in arguments_artifacts (arr xs') m)
  process_artifacts m _ = panic "interface conversion: interface {} is not []interface {}"

  unfoldable pub process_resource : Fields → Option Value → Result Fields
  unfolding process_manifests
  process_resource m none = ok m
  process_resource m (some (str text)) = do
    text' ← process_manifests text
    try (o.set_nested_field m (str text') resource_manifest)
  process_resource m (some v) = panic "interface conversion: interface {} is not string"

  unfoldable pub process_map : Fields → Option Value → Result Fields
  unfolding process_artifacts process_resource
  process_map m (some artifacts) = process_artifacts m artifacts
  process_map m none = do
    manifests ← try (o.nested_field m resource_manifest)
    process_resource m manifests

  unfoldable pub process_fields : Fields → Result Fields
  unfolding process_map
  process_fields m = do
    artifacts ← try (o.nested_field m arguments_artifacts)
    process_map m artifacts

  -- `processWorkflowResources`.
  unfoldable pub process_workflow_resources : Value → Result Value
  unfolding process_fields
  process_workflow_resources (obj m) = do m' ← process_fields m; ok (obj m')
  process_workflow_resources _ =
      panic "interface conversion: interface {} is not map[string]interface {}"

  unfoldable pub process_steps : Items → Result Items
  unfolding process_workflow_resources
  process_steps nil = ok nil
  process_steps (cons step steps) = do
    step' ← process_workflow_resources step
    steps' ← process_steps steps
    ok (cons step' steps')

  unfoldable pub process_step_lists : Items → Result Items
  unfolding process_steps
  process_step_lists nil = ok nil
  process_step_lists (cons (arr steps) rest) = do
    steps' ← process_steps steps
    rest' ← process_step_lists rest
    ok (cons (arr steps') rest')
  process_step_lists (cons _ rest) = err (errorf "template.steps entry is not a list")

  unfoldable pub process_all_steps : Fields → Option Value → Result Fields
  unfolding process_step_lists
  process_all_steps m none = ok m
  process_all_steps m (some (arr lists)) = do
    lists' ← process_step_lists lists
    ok (put_in ("steps" ∷ []) (arr lists') m)
  process_all_steps m (some _) = err (errorf "template.steps is not a list")

  -- One round of the loop over the templates.
  unfoldable pub process_template : Value → Result Value
  unfolding process_fields process_all_steps
  process_template (obj m) = do
    m' ← process_fields m
    all_steps ← try (o.nested_field m' ("steps" ∷ []))
    m'' ← process_all_steps m' all_steps
    ok (obj m'')
  process_template _ = err (errorf "spec.templates entry is not an object")

  unfoldable pub process_templates : Items → Result Items
  unfolding process_template
  process_templates nil = ok nil
  process_templates (cons template templates) = do
    template' ← process_template template
    templates' ← process_templates templates
    ok (cons template' templates')

  unfoldable pub process_template_list : Fields → Option Value → Result Fields
  unfolding process_templates
  process_template_list m none = ok m
  process_template_list m (some null) = ok m
  process_template_list m (some (arr templates)) = do
    templates' ← process_templates templates
    ok (put_in ("spec" ∷ "templates" ∷ []) (arr templates') m)
  process_template_list m (some _) = err (errorf "spec.templates is not a list")

  -- The value of `spec`; one that is not there is nil.
  abbrev pub or_null : Option Value → Value
  or_null none = null
  or_null (some v) = v

  unfoldable pub configure_workflow_artifacts : Fields → Result Fields
  unfolding process_workflow_resources process_template_list put_in
  configure_workflow_artifacts m = do
    spec ← try (o.nested_field m ("spec" ∷ []))
    spec' ← process_workflow_resources (or_null spec)
    templates ← try (o.nested_field (put_in ("spec" ∷ []) spec' m) ("spec" ∷ "templates" ∷ []))
    process_template_list (put_in ("spec" ∷ []) spec' m) templates
