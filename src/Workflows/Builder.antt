-- ===== src/Workflows/Builder.antt =====
-- pkg/workflows/workflow_builder.go. The maps that the builder shares by reference are kept by name:
-- a template or a step stands for the map that it refers to, and is written out when the workflow is.
use addon_manager.Validator.Workflow.{argo_gvk}
use addon_manager.Objects.{put_in, Objects}
use addon_manager.Common.{
  String, Bool, true, false, List, [], ◌∷◌, ◌++◌, map, if◌then◌else◌, Result, ok, err, panic, found,
  failure, ◌>>=◌, ◌+++◌, Assoc, has_suffix, trim_suffix,
}
use addon_manager.Document.{Fields, Items, Value, cons, end, field, nil, obj, str, arr}

-- The templates that a list of templates refers to; a script is a map of its own.
pub data Template : Type 0 where
  entry submit_template delete_entry delete_ns : Template
  script : String → String → Template

-- `templates` as the type that it is stored with: `[]map[string]interface{}`, or `[]interface{}`.
pub data Templates : Type 0 where
  maps : List Template → Templates
  anys : List Template → Templates

-- The entries of the first list of steps: `defaultSubmitStep`, or the step of a script.
pub data Step : Type 0 where
  submit_step : Step
  script_step : String → Step

-- `workflowBuilder`: `content` is the default content but for the templates, `arguments` and `inputs`
-- are the parameters of the submit step and of the submit template, `artifacts` the data of the
-- latter's artifacts.
pub record Builder : Type 0 where
  pub content : Fields
  pub templates : Templates
  pub steps : List Step
  pub arguments : List String
  pub inputs : List String
  pub artifacts : List String

abbrev pub default_python3_script_image : String
default_python3_script_image = "python:3"

abbrev pub default_submit_container_image : String
default_submit_container_image = "expert360/kubectl-awscli:v1.11.2"

abbrev pub entry_content : Fields
entry_content =
    field "spec"
      (obj (
        field "entrypoint" (str "entry")
          (field "serviceAccountName" (str "addon-manager-workflow-installer-sa") end)))
      end

-- `New`.
unfoldable pub new_builder : Builder
new_builder = record {
  content = entry_content;
  templates = maps [];
  steps = [];
  arguments = [];
  inputs = [];
  artifacts = [];
}

-- `Delete` sets the variable `doDelete` of the package, which every builder reads.
unfoldable pub delete_builder : Bool × Builder → Bool × Builder
delete_builder (do_delete, b) = (true, b)

-- The documents of a list, each closed by a separator on a line of its own.
unfoldable pub resource_data : List String → String
resource_data [] = ""
resource_data (resource ∷ resources) =
    let separator = if has_suffix "\n" resource then "---\n" else "\n---\n" in
    resource +++ separator +++ resource_data resources

-- `Resources`.
unfoldable pub resources : List String → Builder → Builder
unfolding resource_data
resources texts b = record b {
  artifacts = b.artifacts ++ resource_data texts ∷ [];
  steps = b.steps ++ submit_step ∷ [];
}

-- `strings.TrimSuffix(name, ".py")`.
unfoldable pub script_name : String → String
script_name name = trim_suffix ".py" name

-- `append` to the templates after the assertion that they are an `[]interface{}`.
unfoldable pub add_script : Template → Templates → Result Templates
add_script t (anys ts) = ok (anys (ts ++ t ∷ []))
add_script t (maps ts) =
    panic "interface conversion: interface {} is []map[string]interface {}, not []interface {}"

-- `Scripts`, over the scripts in the order of the map.
unfoldable pub scripts : Assoc String → Builder → Result Builder
unfolding script_name add_script
scripts [] b = ok b
scripts ((name, source) ∷ more) b = do
  templates' ← add_script (script (script_name name) source) b.templates
  scripts more (record b {
    templates = templates';
    steps = b.steps ++ script_step (script_name name) ∷ [];
    arguments = b.arguments ++ script_name name ∷ [];
    inputs = b.inputs ++ script_name name ∷ [];
  })

abbrev pub items : List Value → Items
items [] = nil
items (v ∷ vs) = cons v (items vs)

abbrev named : String → Fields → Value
named name m = obj (field "name" (str name) m)

-- A container that runs one command of the shell.
abbrev container : String → Value
container args = obj (
    field "image" (str default_submit_container_image) (
      field "command" (arr (items (str "sh" ∷ str "-c" ∷ [])))
        (field "args" (arr (items (str args ∷ []))) end)))

-- The output of a script, as a parameter of the submit step.
abbrev argument_value : String → Value
argument_value name =
    named name (field "value" (str ("{{steps." +++ name +++ ".outputs.result}}")) end)

abbrev artifact_value : String → Value
artifact_value text =
    named "doc"
      (field "path" (str "/tmp/doc") (field "raw" (obj (field "data" (str text) end)) end))

unfoldable pub step_value : Builder → Step → Value
step_value b submit_step = named "install" (
    field "arguments"
      (obj (
        field "parameters" (arr (items (map argument_value b.arguments)))
          (field "artifacts" (arr nil) end)))
      (field "template" (str "submit") end))
step_value b (script_step name) = named name (field "template" (str name) end)

-- A list of one list of steps.
abbrev steps_value : List Value → Value
steps_value steps = arr (cons (arr (items steps)) nil)

unfoldable pub template_value : Builder → Template → Value
unfolding step_value
template_value b entry =
    named "entry" (field "steps" (steps_value (map (step_value b) b.steps)) end)
template_value b submit_template = named "submit" (
    field "inputs"
      (obj (
        field "parameters" (arr (items (map (λ name. named name end) b.inputs)))
          (field "artifacts" (arr (items (map artifact_value b.artifacts))) end)))
      (field "container" (container "kubectl apply -f /tmp/doc") end))
template_value b delete_entry = named "delete-wf" (
    field "steps" (steps_value (named "delete-ns" (field "template" (str "delete-ns") end) ∷ []))
      end)
template_value b delete_ns = named "delete-ns" (
    field "container" (container "kubectl delete all -n {{workflow.parameters.namespace}} --all")
      end)
template_value b (script name source) = named name (
    field "script"
      (obj (
        field "image" (str default_python3_script_image)
          (field "command" (arr (items (str "pyhton" ∷ []))) (field "source" (str source) end))))
      end)

abbrev pub templates_path : List String
templates_path = "spec" ∷ "templates" ∷ []

-- The content with its templates written out.
unfoldable pub content_of : Builder → List Template → Fields
unfolding template_value put_in
content_of b ts = put_in templates_path (arr (items (map (template_value b) ts))) b.content

abbrev added : Bool → List Template
added false = entry ∷ submit_template ∷ []
added true = delete_entry ∷ delete_ns ∷ []

-- `set_generate_name` is the method of `Unstructured`.
module _ (o : Objects) (set_generate_name : String → Fields → Fields) where
  -- `Build`: the object is the builder's own content, which is changed with it.
  unfoldable pub build : Bool → Builder → Result (Builder × Fields)
  unfolding content_of
  build do_delete b = elim b.templates [
    | anys ts ↦
        panic "interface conversion: interface {} is []interface {}, not []map[string]interface {}"
    | maps ts ↦
        let all = ts ++ added do_delete in
        let m = set_generate_name "-" (o.set_group_version_kind argo_gvk (content_of b all)) in
        ok (record b { content = m; templates = maps all }, m)
  ]

  -- `ConvertUnstructuredWorkflowToString`; a failure ends the process.
  unfoldable pub convert_unstructured_workflow_to_string : Fields → Result String
  convert_unstructured_workflow_to_string m = elim (o.marshal m) [
    | found text ↦ ok text
    | failure e ↦ err e
  ]
