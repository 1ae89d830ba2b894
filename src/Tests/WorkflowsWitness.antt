-- ===== src/Tests/WorkflowsWitness.antt =====
-- Submissions of workflows.
use addon_manager.Workflows.Configured.{
  configure_global_wf_parameters_lem, Carries, Joined, items_of,
}
use addon_manager.Tests.Trees.{objects, objects-Faithful, tree}
use addon_manager.Common.{
  String, ◌≡◌, refl, subst, ◌⊎◌, inr, [], ok, err, panic, found, some, ◌∷◌, ◌++◌,
}
use addon_manager.Api.Phase.{pending}
use addon_manager.Cluster.{state_of}
use addon_manager.Document.{Documents, Items, Fields, end, field, get_field, str, arr}
use addon_manager.Objects.{put_in, Objects, put_field}
use addon_manager.Objects.Faithful.{Faithful, IsMeta}
use addon_manager.Objects.Paths.{get_in}
use addon_manager.Tests.Fixtures.{client, docs, some_workflow, system, web}
use addon_manager.Workflows.Artifacts.{configure_workflow_artifacts}
use addon_manager.Workflows.Defaults.{inject_active_deadline_seconds, inject_ttls}
use addon_manager.Workflows.Effects.{Sends, install_workflow-cases}
use addon_manager.Workflows.Install.{decode, install_workflow, parse, prepare}
use addon_manager.Workflows.Parameters.{
  configure_global_wf_parameters, parameters_path, with_parameters, default_field, as_map, as_slice,
  append_items,
}
use addon_manager.Workflows.Submitted.{IsReady, prepare-IsReady}

-- The template as it is decoded here has metadata that is a map.
tree_metadata : (template : String) (m : Fields) → decode docs objects template ≡ ok m → IsMeta m
unfolding decode get_in get_field
tree_metadata template m e =
    let same : tree ≡ m = cc in subst IsMeta same (inr (field "name" (str "old") end, refl))

abbrev prepared : Fields
prepared = elim (prepare docs objects (web pending) some_workflow "wf") [
  | ok m ↦ m
  | err e ↦ end
  | panic text ↦ end
]

prepare-IsReady_example : IsReady docs objects objects-Faithful (web pending) "wf" prepared
unfolding prepare parse get_in put_in configure_global_wf_parameters configure_workflow_artifacts
    inject_ttls inject_active_deadline_seconds
prepare-IsReady_example =
    prepare-IsReady docs objects objects-Faithful (web pending) some_workflow "wf" prepared
      (tree_metadata some_workflow.template) refl

install_workflow-cases_example :
    let s = system (web pending) [] in
    let s' = state_of (install_workflow docs objects client (web pending) "wf" some_workflow s) in
    (s' ≡ s)
    ⊎ ((m : Fields) × IsReady docs objects objects-Faithful (web pending) "wf" m
        × Sends docs objects client (web pending) m s s')
install_workflow-cases_example =
    install_workflow-cases docs objects client objects-Faithful (web pending) "wf" some_workflow
      (system (web pending) []) (tree_metadata some_workflow.template)

-- The tree with the parameters of the addon.
abbrev parametrized : Fields
parametrized = elim (configure_global_wf_parameters objects (web pending) tree) [
  | ok m ↦ m
  | err e ↦ end
  | panic text ↦ end
]

configure_global_wf_parameters_lem_example :
    let a = web pending in
    (xs : Items) × (zs : Items) × (get_in parameters_path parametrized ≡ some (arr zs))
    × Joined (items_of (get_in parameters_path tree)) xs zs
    × Carries
        (("namespace", a.spec.params.namespace)
          ∷ ("pkgChannel", a.spec.pkg_channel)
          ∷ ("pkgName", a.spec.pkg_name)
          ∷ ("pkgVersion", a.spec.pkg_version)
          ∷ ("pkgType", a.spec.pkg_type)
          ∷ ("pkgDescription", a.spec.pkg_description)
          ∷ ("clusterName", a.spec.params.context.cluster_name)
          ∷ ("clusterRegion", a.spec.params.context.cluster_region)
          ∷ (a.spec.params.context.additional_configs ++ a.spec.params.values))
        xs
unfolding configure_global_wf_parameters with_parameters default_field as_map as_slice get_in put_in
    get_field put_field append_items
configure_global_wf_parameters_lem_example =
    configure_global_wf_parameters_lem objects objects-Faithful (web pending) tree parametrized refl

-- The reader of YAML, and objects that are written as one text.
abbrev plain_docs : Documents
plain_docs = record docs { unmarshal = λ text m. ok tree }

abbrev writing : Objects
writing = record objects { marshal = λ m. found "labelled\n" }
