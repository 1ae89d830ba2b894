-- ===== src/Workflows/Safety/Resources.antt =====
-- pkg/workflows/workflow.go: on a template of the right shape `configureWorkflowArtifacts` does not
-- panic.
use addon_manager.Common.{
  String, ◌≡◌, refl, sym, subst, ◌∙◌, ◌≢◌, inl, inr, Option, none, some, List, [], ◌∷◌, ◌==◌,
  Bool-cases, Result, ok, err, panic, Reply, found, failure, trim_space, Safe, Safe-bind, Any,
}
use addon_manager.Api.Addon.{Addon}
use addon_manager.Document.{
  Documents, Value, null, scalar, int, str, arr, obj, Fields, end, Items, nil, cons,
}
use addon_manager.Objects.{Objects}
use addon_manager.Objects.Faithful.{Faithful}
use addon_manager.Objects.Paths.{Apart, get_in, get_in-put_in-Apart}
use addon_manager.Workflows.Artifacts.{
  try, split_manifests, raw_data, arguments_artifacts, resource_manifest, text_or_empty,
  load_artifact, store_artifact, process_artifact, process_each, process_manifests,
  process_argument, process_arguments, process_artifacts, process_resource, process_map,
  process_fields,
}
use addon_manager.Workflows.Defaults.{add_default_labels_to_resource}
use addon_manager.Workflows.Shapes.{AreMaps, IsArtifacts, IsManifest, HasResources}

-- `yaml.Unmarshal` answers a bad document with an error.
abbrev pub NeverPanics : Documents → Type 0
NeverPanics docs = (text : String) (m : Fields) (s : String) → docs.unmarshal text m ≢ panic s

-- Away from the artifacts and the manifest the second map reads as the first.
abbrev pub Keeps : Fields → Fields → Type 0
Keeps m n =
    (q : List String)
    → Apart arguments_artifacts q
    → Apart resource_manifest q
    → get_in q n ≡ get_in q m

pub Safe-try :
    {A : Type 0} (P : A → Type 0) (r : Reply A) → ((x : A) → r ≡ found x → P x) → Safe P (try r)
Safe-try P (found x) h = h x refl
Safe-try P (failure e) h = tt

module _ (docs : Documents) (calm : NeverPanics docs) (o : Objects) (laws : Faithful o)
    (a : Addon) where
  load_artifact-Safe :
      (text : String) (r : Result Fields)
      → ((s : String) → r ≢ panic s)
      → Safe Any (load_artifact docs o a text r)
  unfolding load_artifact
  load_artifact-Safe text (ok m) h = tt
  load_artifact-Safe text (err e) h = tt
  load_artifact-Safe text (panic s) h = h s refl

  store_artifact-Safe : (r : Reply String) → Safe Any (store_artifact docs o a r)
  unfolding store_artifact
  store_artifact-Safe (found s) = tt
  store_artifact-Safe (failure e) = tt

  process_artifact-Safe : (text : String) → Safe Any (process_artifact docs o a text)
  unfolding process_artifact
  process_artifact-Safe text = elim (Bool-cases (trim_space text == "")) [
    | inl empty ↦ rw (empty, process_artifact) tt
    | inr given ↦
        rw (given, process_artifact)
          (Safe-bind Any Any
            (load_artifact docs o a (trim_space text) (docs.unmarshal (trim_space text) end)) _
            (load_artifact-Safe (trim_space text) _ (calm (trim_space text) end))
            λ m _. store_artifact-Safe (o.marshal (add_default_labels_to_resource o a m)))
  ]

  process_each-Safe : (texts : List String) → Safe Any (process_each docs o a texts)
  unfolding process_each
  process_each-Safe [] = tt
  process_each-Safe (text ∷ texts) =
      Safe-bind Any Any (process_artifact docs o a text) _ (process_artifact-Safe text) λ x _.
        Safe-bind Any Any (process_each docs o a texts) _ (process_each-Safe texts) λ xs _. tt

  process_manifests-Safe : (text : String) → Safe Any (process_manifests docs o a text)
  unfolding process_manifests
  process_manifests-Safe text =
      Safe-bind Any Any (process_each docs o a (split_manifests text)) _
        (process_each-Safe (split_manifests text)) λ xs _. tt

  process_argument-Safe : (m : Fields) → Safe Any (process_argument docs o a (obj m))
  unfolding process_argument
  process_argument-Safe m =
      Safe-bind Any Any (try (o.nested_string m raw_data)) _ (Safe-try Any _ (λ x e. tt)) λ text _.
        Safe-bind Any Any (process_manifests docs o a (text_or_empty text)) _
          (process_manifests-Safe (text_or_empty text))
          λ text' _.
            Safe-bind Any Any (try (o.set_nested_field m (str text') raw_data)) _
              (Safe-try Any _ (λ x e. tt)) λ m' _. tt

  process_arguments-Safe : (xs : Items) → AreMaps xs → Safe Any (process_arguments docs o a xs)
  unfolding process_arguments
  process_arguments-Safe nil h = tt
  process_arguments-Safe (cons (obj m) xs) h =
      Safe-bind Any Any (process_argument docs o a (obj m)) _ (process_argument-Safe m) λ x _.
        Safe-bind Any Any (process_arguments docs o a xs) _ (process_arguments-Safe xs h) λ ys _. tt
  process_arguments-Safe (cons null xs) h = elim h [ ]
  process_arguments-Safe (cons (scalar s) xs) h = elim h [ ]
  process_arguments-Safe (cons (int n) xs) h = elim h [ ]
  process_arguments-Safe (cons (str s) xs) h = elim h [ ]
  process_arguments-Safe (cons (arr ys) xs) h = elim h [ ]

  process_resource-Safe :
      (m : Fields) (x : Option Value)
      → IsManifest x
      → Safe (Keeps m) (process_resource docs o a m x)
  unfolding process_resource
  process_resource-Safe m none h = λ q _ _. refl
  process_resource-Safe m (some (str text)) h =
      Safe-bind Any (Keeps m) (process_manifests docs o a text) _ (process_manifests-Safe text)
        λ text' _.
          Safe-try (Keeps m) (o.set_nested_field m (str text') resource_manifest) (λ m' e q _ apart.
            laws.set_nested_field_lem (str text') resource_manifest m m' e q
            ∙ get_in-put_in-Apart resource_manifest q (str text') m apart)
  process_resource-Safe m (some null) h = elim h [ ]
  process_resource-Safe m (some (scalar s)) h = elim h [ ]
  process_resource-Safe m (some (int n)) h = elim h [ ]
  process_resource-Safe m (some (arr ys)) h = elim h [ ]
  process_resource-Safe m (some (obj f)) h = elim h [ ]

  process_map-Safe :
      (m : Fields) (x : Option Value)
      → IsArtifacts x
      → IsManifest (get_in resource_manifest m)
      → Safe (Keeps m) (process_map docs o a m x)
  unfolding process_map process_artifacts
  process_map-Safe m none h manifest =
      Safe-bind (λ x. x ≡ get_in resource_manifest m) (Keeps m)
        (try (o.nested_field m resource_manifest)) _
        (Safe-try _ _ (λ x e. laws.nested_field_lem m resource_manifest x tt e))
        λ x e. process_resource-Safe m x (subst IsManifest (sym e) manifest)
  process_map-Safe m (some (arr xs)) h manifest =
      Safe-bind Any (Keeps m) (process_arguments docs o a xs) _ (process_arguments-Safe xs h)
        λ xs' _ q apart _. get_in-put_in-Apart arguments_artifacts q (arr xs') m apart
  process_map-Safe m (some null) h manifest = elim h [ ]
  process_map-Safe m (some (scalar s)) h manifest = elim h [ ]
  process_map-Safe m (some (int n)) h manifest = elim h [ ]
  process_map-Safe m (some (str s)) h manifest = elim h [ ]
  process_map-Safe m (some (obj f)) h manifest = elim h [ ]

  pub process_fields-Safe :
      (m : Fields) → HasResources m → Safe (Keeps m) (process_fields docs o a m)
  unfolding process_fields
  process_fields-Safe m (artifacts, manifest) =
      Safe-bind (λ x. x ≡ get_in arguments_artifacts m) (Keeps m)
        (try (o.nested_field m arguments_artifacts)) _
        (Safe-try _ _ (λ x e. laws.nested_field_lem m arguments_artifacts x tt e))
        λ x e. process_map-Safe m x (subst IsArtifacts (sym e) artifacts) manifest
