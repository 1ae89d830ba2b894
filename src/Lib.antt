-- ===== src/Lib.antt =====
-- addon-manager: the core of the controller that installs add-ons into a Kubernetes cluster.
--
-- An `Addon` (api/addon/v1alpha1) describes a package, its dependencies and up to four workflows
-- (prereqs, install, delete, validate). `AddonReconciler` (controllers/addon_controller.go) brings
-- an addon through its cycle: it validates it against the cache of package versions, submits the
-- workflow of the step that is due, observes the objects that belong to it, and writes its status.
-- `WorkflowReconciler` (controllers/workflow_controller.go) turns the phase of a workflow into the
-- status of the addon that owns it. Both write through `AddonUpdater` (pkg/addon/addon_update.go),
-- which retries on conflicts, refuses to write an old running status over a terminal one, and keeps
-- the version cache (pkg/addon/addon_version_cache.go) in step.
--
-- Files, with the code they model:
--   Common, Common/*           texts, lists, association lists, errors and results shared by all
--   Api/Phase, Spec, Addon     api/addon/v1alpha1/addon_types.go: the data and the methods on names
--   Api/Status                 the same file: the methods that write phases
--   Api/Checksum               `CalculateChecksum`: Adler-32 and its hexadecimal text
--   VersionCache               pkg/addon/addon_version_cache.go: `AddVersion` is add_version, and so on
--   Document                   the part of unstructured documents that the validator reads
--   Objects, Objects/*         decoded objects as trees of maps, and the calls of apimachinery on them
--   Workflows, Workflows/*     pkg/workflows/workflow.go: `Install` is install_workflow, `parse` is parse,
--                              `configureGlobalWFParameters`, `configureWorkflowArtifacts`, `submit` and
--                              the injections under their own names; Workflows/Shapes
--                              describes templates, Workflows/Safety the type assertions on them
--   Validator, Validator/*     pkg/addon/addon_validator.go: `Validate` is Validator.validate,
--                              `resolveDependencies` is Validator.Dependencies.resolve
--   Helpers                    pkg/common/helpers.go
--   Cluster                    what the controllers call of the API server; the shared state `Sys`
--   Updater, Updater/*         pkg/addon/addon_update.go; Updater/Race has its calls interleaved
--   Controller/*               controllers/addon_controller.go, objects.go, workflow_controller.go;
--                              Controller/System and Reached put their steps together,
--                              Controller/Typed and Returned follow them on templates of the right shape,
--                              Panics and Uncopied on others
--   Api/Flex                   `FlexString.UnmarshalJSON`
--   Workflows/Builder, Built   pkg/workflows/workflow_builder.go: `New` is new_builder, `Build` is build
--   Addonctl, Addonctl/*       pkg/addonctl/addonctl.go: the parsers of the flags, the reading of files
--                              (`extractResources`), and the command `create` (Addonctl/Create)
--   Tests/*                    fixtures, and runs of the theorems at concrete inputs
--
-- State is passed explicitly. `Sys` holds the cluster, the version cache, the events and the map of
-- status mutexes; `Run` adds the instance that a reconcile works on. The cluster is a type that only
-- the record `Kube` of its operations knows; what a theorem assumes of the API server stands among its
-- hypotheses (`Optimistic`, `KeepsSpec`). An update
-- answers with the stored object, which overwrites the caller's. Go maps are association lists with
-- distinct keys: where the code ranges over a map, the model takes the list in its order, and the
-- theorems hold for every list. Texts are sequences of characters,
-- whose length counts the bytes of UTF-8 as in Go. A nil error is `none`; a Go panic is the result
-- `panic`, or the end `unwound` where state has been changed before it; `execAddon` recovers it. What
-- the source changes through a reference into an object is written back at its place. The text of a
-- panic on a type assertion names the type that was wanted and not the one that was there.
--
-- Parameters stand for code of other packages: the version library (`Semver`), the YAML and
-- unstructured access (`Documents`), the bytes of a spec as `fmt` prints them (spec_bytes), the
-- clock, `retry.RetryOnConflict` (with the law RetriesOnConflict), the operations of apimachinery and
-- of the two YAML packages on an object (`Objects`, with the laws `Faithful`), the clients that send a
-- workflow (`WorkflowClient`) or an addon (`AddonClient`), and the file system (`Files`).
-- `NestedMap` and `NestedSlice`, which the validator calls, may panic: they copy what they find.
--
-- Recursion: `resolveDependencies` has the depth bound 256 of the source as fuel (max_depth); at zero
-- it panics like the source. `hex` prints eight digits at most, which is enough for 32 bits. All else
-- is structural.
--
-- Not modelled: the registration of addonctl's flags, the wiring of the manager and the building of its
-- clients, the load and behaviour tests, generated clients and deep copies, and log lines. A builder is not used again after a panic, so its state then is not kept.
pub mod Common
pub mod Api
pub mod VersionCache
pub mod Document
pub mod Validator
pub mod Helpers
pub mod Cluster
pub mod Updater
pub mod Objects
pub mod Workflows
pub mod Controller
pub mod Addonctl
pub mod Tests
