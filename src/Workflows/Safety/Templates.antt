-- ===== src/Workflows/Safety/Templates.antt =====
-- pkg/workflows/workflow.go: on a template of the right shape `configureWorkflowArtifacts` does not
-- panic in the loops over the templates and their steps.
use addon_manager.Common.{
  String, ◌≡◌, refl, sym, subst, ◌∙◌, ◌≢◌, inl, Option, none, some, [], ◌∷◌, arith, eq_iff, Safe,
  Safe-bind, Any, ◌>>=◌,
}
use addon_manager.Api.Addon.{Addon}
use addon_manager.Document.{
  Documents, Value, null, scalar, int, str, arr, obj, Fields, Items, nil, cons,
}
use addon_manager.Objects.{Objects, put_in}
use addon_manager.Objects.Faithful.{Faithful}
use addon_manager.Objects.Paths.{get_in, get_in-put_in_self}
use addon_manager.Workflows.Artifacts.{
  try, process_fields, process_workflow_resources, process_steps, process_step_lists,
  process_all_steps, process_template, process_templates, process_template_list,
  configure_workflow_artifacts,
}
use addon_manager.Workflows.Safety.Resources.{NeverPanics, Keeps, Safe-try, process_fields-Safe}
use addon_manager.Workflows.Shapes.{
  HasResources, AreSteps, AreGroups, HasGroups, AreTemplates, HasTemplates, IsBody, SpecWith,
}

top_Keeps :
    (k : String) (m n : Fields)
    → "arguments" ≢ k
    → "resource" ≢ k
    → Keeps m n
    → get_in (k ∷ []) n ≡ get_in (k ∷ []) m
top_Keeps k m n a r keeps = keeps (k ∷ []) (inl a) (inl r)

module _ (docs : Documents) (calm : NeverPanics docs) (o : Objects) (laws : Faithful o)
    (a : Addon) where
  process_workflow_resources-Safe :
      (m : Fields)
      → HasResources m
      → Safe
          (λ v. (n : Fields) × (v ≡ obj n) × Keeps m n)
          (process_workflow_resources docs o a (obj m))
  unfolding process_workflow_resources
  process_workflow_resources-Safe m h =
      Safe-bind (Keeps m) _ (process_fields docs o a m) _
        (process_fields-Safe docs calm o laws a m h) λ n keeps. (n, refl, keeps)

  process_steps-Safe : (xs : Items) → AreSteps xs → Safe Any (process_steps docs o a xs)
  unfolding process_steps
  process_steps-Safe nil h = tt
  process_steps-Safe (cons (obj m) xs) (h, hs) =
      Safe-bind _ Any (process_workflow_resources docs o a (obj m)) _
        (process_workflow_resources-Safe m h)
        λ x _. Safe-bind Any Any (process_steps docs o a xs) _ (process_steps-Safe xs hs) λ ys _. tt
  process_steps-Safe (cons null xs) h = elim h [ ]
  process_steps-Safe (cons (scalar s) xs) h = elim h [ ]
  process_steps-Safe (cons (int n) xs) h = elim h [ ]
  process_steps-Safe (cons (str s) xs) h = elim h [ ]
  process_steps-Safe (cons (arr ys) xs) h = elim h [ ]

  process_step_lists-Safe : (xs : Items) → AreGroups xs → Safe Any (process_step_lists docs o a xs)
  unfolding process_step_lists
  process_step_lists-Safe nil h = tt
  process_step_lists-Safe (cons (arr steps) rest) (h, hs) =
      Safe-bind Any Any (process_steps docs o a steps) _ (process_steps-Safe steps h) λ x _.
        Safe-bind Any Any (process_step_lists docs o a rest) _ (process_step_lists-Safe rest hs)
          λ ys _. tt
  process_step_lists-Safe (cons null xs) h = tt
  process_step_lists-Safe (cons (scalar s) xs) h = tt
  process_step_lists-Safe (cons (int n) xs) h = tt
  process_step_lists-Safe (cons (str s) xs) h = tt
  process_step_lists-Safe (cons (obj m) xs) h = tt

  process_all_steps-Safe :
      (m : Fields) (x : Option Value) → HasGroups x → Safe Any (process_all_steps docs o a m x)
  unfolding process_all_steps
  process_all_steps-Safe m none h = tt
  process_all_steps-Safe m (some (arr lists)) h =
      Safe-bind Any Any (process_step_lists docs o a lists) _ (process_step_lists-Safe lists h)
        λ x _. tt
  process_all_steps-Safe m (some null) h = tt
  process_all_steps-Safe m (some (scalar s)) h = tt
  process_all_steps-Safe m (some (int n)) h = tt
  process_all_steps-Safe m (some (str s)) h = tt
  process_all_steps-Safe m (some (obj f)) h = tt

  process_template-Safe :
      (m : Fields)
      → HasResources m
      → HasGroups (get_in ("steps" ∷ []) m)
      → Safe Any (process_template docs o a (obj m))
  unfolding process_template
  process_template-Safe m h groups =
      Safe-bind (Keeps m) Any (process_fields docs o a m) _
        (process_fields-Safe docs calm o laws a m h)
        λ n keeps.
          let same =
            top_Keeps "steps" m n (λ c. ground (arith, eq_iff "arguments" "steps"))
              (λ c. ground (arith, eq_iff "resource" "steps")) keeps in
          Safe-bind (λ x. x ≡ get_in ("steps" ∷ []) n) Any (try (o.nested_field n ("steps" ∷ []))) _
            (Safe-try _ _ (λ x e. laws.nested_field_lem n ("steps" ∷ []) x tt e))
            λ x e.
              Safe-bind Any Any (process_all_steps docs o a n x) _
                (process_all_steps-Safe n x (subst HasGroups (sym (e ∙ same)) groups)) λ y _. tt

  process_templates-Safe : (xs : Items) → AreTemplates xs → Safe Any (process_templates docs o a xs)
  unfolding process_templates process_template
  process_templates-Safe nil h = tt
  process_templates-Safe (cons (obj m) xs) ((h, groups), hs) =
      Safe-bind Any Any (process_template docs o a (obj m)) _ (process_template-Safe m h groups)
        λ x _.
          Safe-bind Any Any (process_templates docs o a xs) _ (process_templates-Safe xs hs)
            λ ys _. tt
  process_templates-Safe (cons null xs) h = tt
  process_templates-Safe (cons (scalar s) xs) h = tt
  process_templates-Safe (cons (int n) xs) h = tt
  process_templates-Safe (cons (str s) xs) h = tt
  process_templates-Safe (cons (arr ys) xs) h = tt

  process_template_list-Safe :
      (m : Fields) (x : Option Value)
      → HasTemplates x
      → Safe Any (process_template_list docs o a m x)
  unfolding process_template_list
  process_template_list-Safe m none h = tt
  process_template_list-Safe m (some null) h = tt
  process_template_list-Safe m (some (arr xs)) h =
      Safe-bind Any Any (process_templates docs o a xs) _ (process_templates-Safe xs h) λ ys _. tt
  process_template_list-Safe m (some (scalar s)) h = tt
  process_template_list-Safe m (some (int n)) h = tt
  process_template_list-Safe m (some (str s)) h = tt
  process_template_list-Safe m (some (obj f)) h = tt

  -- The templates are read from the new `spec`.
  new_templates :
      (m spec spec' : Fields)
      → Keeps spec spec'
      → get_in ("spec" ∷ "templates" ∷ []) (put_in ("spec" ∷ []) (obj spec') m)
        ≡ get_in ("templates" ∷ []) spec
  unfolding get_in put_in
  new_templates m spec spec' keeps =
      let same =
        top_Keeps "templates" spec spec' (λ c. ground (arith, eq_iff "arguments" "templates"))
          (λ c. ground (arith, eq_iff "resource" "templates")) keeps in
      rw (get_in-put_in_self "spec" [] (obj spec') m) same

  -- The loop over the templates, behind the new `spec`.
  new_spec-Safe :
      (m spec spec' : Fields)
      → Keeps spec spec'
      → HasTemplates (get_in ("templates" ∷ []) spec)
      → let m' = put_in ("spec" ∷ []) (obj spec') m in
        Safe Any (
          try (o.nested_field m' ("spec" ∷ "templates" ∷ [])) >>= λ x.
          process_template_list docs o a m' x)
  new_spec-Safe m spec spec' keeps templates =
      let m' = put_in ("spec" ∷ []) (obj spec') m in
      let path = "spec" ∷ "templates" ∷ [] in
      Safe-bind (λ x. x ≡ get_in path m') Any (try (o.nested_field m' path)) _
        (Safe-try _ _ (λ x e. laws.nested_field_lem m' path x tt e))
        λ x e.
          process_template_list-Safe m' x
            (subst HasTemplates (sym (e ∙ new_templates m spec spec' keeps)) templates)

  pub configure_workflow_artifacts-Safe :
      (m : Fields) → SpecWith IsBody m → Safe Any (configure_workflow_artifacts docs o a m)
  unfolding configure_workflow_artifacts
  configure_workflow_artifacts-Safe m (spec, there, (h, templates)) =
      Safe-bind (λ x. x ≡ some (obj spec)) Any (try (o.nested_field m ("spec" ∷ []))) _
        (Safe-try _ _ (λ x e. laws.nested_field_lem m ("spec" ∷ []) x tt e ∙ there))
        λ x e. rw e (
          Safe-bind (λ v. (n : Fields) × (v ≡ obj n) × Keeps spec n) Any
            (process_workflow_resources docs o a (obj spec)) _
            (process_workflow_resources-Safe spec h)
            λ v (n, same, keeps). rw same (new_spec-Safe m spec n keeps templates))
