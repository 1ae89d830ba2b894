-- ===== src/Workflows/Shapes.antt =====
-- pkg/workflows/workflow.go: the templates that `Install` is made for. The code asserts the type of
-- what it finds at these places.
use addon_manager.Common.{◌≡◌, Option, none, some, [], ◌∷◌}
use addon_manager.Document.{Value, null, str, arr, obj, Fields, Items, nil, cons}
use addon_manager.Objects.Paths.{get_in}
use addon_manager.Workflows.Artifacts.{arguments_artifacts, resource_manifest}

-- A list of maps, if it is there.
abbrev pub AreMaps : Items → Type 0
AreMaps nil = Unit {0}
AreMaps (cons (obj m) xs) = AreMaps xs
AreMaps (cons _ xs) = ⊥

abbrev pub IsArtifacts : Option Value → Type 0
IsArtifacts none = Unit {0}
IsArtifacts (some (arr xs)) = AreMaps xs
IsArtifacts (some _) = ⊥

-- A text, if it is there.
abbrev pub IsManifest : Option Value → Type 0
IsManifest none = Unit {0}
IsManifest (some (str s)) = Unit {0}
IsManifest (some _) = ⊥

-- What `spec`, a template and a step may hold: artifacts and the manifest of a resource.
abbrev pub HasResources : Fields → Type 0
HasResources m =
    IsArtifacts (get_in arguments_artifacts m) × IsManifest (get_in resource_manifest m)

abbrev pub AreSteps : Items → Type 0
AreSteps nil = Unit {0}
AreSteps (cons (obj m) xs) = HasResources m × AreSteps xs
AreSteps (cons _ xs) = ⊥

-- The steps of a template, in groups; a group that is no list is reported and not asserted.
abbrev pub AreGroups : Items → Type 0
AreGroups nil = Unit {0}
AreGroups (cons (arr steps) rest) = AreSteps steps × AreGroups rest
AreGroups (cons _ rest) = AreGroups rest

abbrev pub HasGroups : Option Value → Type 0
HasGroups (some (arr lists)) = AreGroups lists
HasGroups _ = Unit {0}

-- A template that is no map is reported and not asserted.
abbrev pub AreTemplates : Items → Type 0
AreTemplates nil = Unit {0}
AreTemplates (cons (obj m) xs) =
    (HasResources m × HasGroups (get_in ("steps" ∷ []) m)) × AreTemplates xs
AreTemplates (cons _ xs) = AreTemplates xs

abbrev pub HasTemplates : Option Value → Type 0
HasTemplates (some (arr xs)) = AreTemplates xs
HasTemplates _ = Unit {0}

-- A list, if it is there and not null.
abbrev pub IsParameters : Option Value → Type 0
IsParameters none = Unit {0}
IsParameters (some null) = Unit {0}
IsParameters (some (arr xs)) = Unit {0}
IsParameters (some _) = ⊥

-- A map, if it is there and not null.
abbrev pub IsArguments : Option Value → Type 0
IsArguments none = Unit {0}
IsArguments (some null) = Unit {0}
IsArguments (some (obj m)) = Unit {0}
IsArguments (some _) = ⊥

-- The shape of what `configureWorkflowArtifacts` reads of `spec`.
abbrev pub IsBody : Fields → Type 0
IsBody m = HasResources m × HasTemplates (get_in ("templates" ∷ []) m)

-- The shape of `spec`.
abbrev pub IsSpec : Fields → Type 0
IsSpec m =
    IsArguments (get_in ("arguments" ∷ []) m)
    × IsParameters (get_in ("arguments" ∷ "parameters" ∷ []) m)
    × IsBody m

-- `spec` is a map of which `P` holds.
abbrev pub SpecWith : (Fields → Type 0) → Fields → Type 0
SpecWith P m = (spec : Fields) × (get_in ("spec" ∷ []) m ≡ some (obj spec)) × P spec
