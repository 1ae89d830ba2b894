-- ===== src/Tests/TypedWitness.antt =====
-- Runs on templates of the right shape, and on one whose arguments cannot be copied.
use addon_manager.Api.Addon.{Addon}
use addon_manager.Api.Phase.{pending, succeeded}
use addon_manager.Common.{
  ◌≡◌, refl, sym, ap, subst, inl, inr, [], arith, ok, Error, Option, String, none, some, err, panic,
  errorf, Result, Bool, true, false, ◌&&◌, if◌then◌else◌,
}
use addon_manager.Controller.Finalize.{finalize}
use addon_manager.Controller.Types.{Env, ReconcileResult, Run}
use addon_manager.Cluster.{ended}
use addon_manager.Controller.Process.{process_addon, returned}
use addon_manager.Controller.Returned.{KeepsSpec, reconcile_returns}
use addon_manager.Controller.Typed.{IsTyped}
use addon_manager.Document.{
  Documents, Value, Items, int, Fields, end, field, arr, cons, nil, get_field, obj, str,
}
use addon_manager.Objects.{fields_of}
use addon_manager.Objects.Paths.{get_in}
use addon_manager.Tests.Fixtures.{addon_of, docs, env, kube, lib_cache, run_of, some_workflow, sum}
use addon_manager.Tests.Trees.{objects_of, objects_of-Faithful}
use addon_manager.Validator.Names.{HasNames, AreNamed}
use addon_manager.Workflows.Install.{decode}
use addon_manager.Workflows.Safety.Install.{IsDecoded}
use addon_manager.Workflows.Safety.Resources.{NeverPanics}

-- A template with an artifact, a parameter, and a step that applies a manifest.
abbrev rich : Fields
rich =
    field "spec"
      (obj (
        field "arguments"
          (obj (
            field "parameters" (arr (cons (obj (field "name" (str "size") end)) nil)) (
              field "artifacts"
                (arr (cons (obj (field "raw" (obj (field "data" (str "kind: Job") end)) end)) nil))
                end)))
          (field "templates"
            (arr (
              cons
                (obj (
                  field "steps"
                    (arr (
                      cons
                        (arr (
                          cons
                            (obj
                              (field "resource" (obj (field "manifest" (str "kind: Job") end)) end))
                            nil))
                        nil))
                    end))
                nil))
            end)))
      end

-- No number is in the value.
mutual
  copies : Value → Bool
  copies (int n) = false
  copies (arr xs) = copies_items xs
  copies (obj fs) = copies_fields fs
  copies _ = true

  copies_items : Items → Bool
  copies_items nil = true
  copies_items (cons x xs) = copies x && copies_items xs

  copies_fields : Fields → Bool
  copies_fields end = true
  copies_fields (field k v fs) = copies v && copies_fields fs

abbrev copied_map : Option Value → Result (Option Fields)
copied_map none = ok none
copied_map (some (obj fs)) = if copies_fields fs then ok (some fs) else panic "cannot deep copy int"
copied_map (some _) = err (errorf "not a map")

abbrev copied_slice : Option Value → Result (Option Items)
copied_slice none = ok none
copied_slice (some (arr xs)) =
    if copies_items xs then ok (some xs) else panic "cannot deep copy int"
copied_slice (some _) = err (errorf "not a slice")

-- The reader of YAML, with getters that copy.
abbrev copying : Documents
copying = record docs {
  unmarshal = λ text m. ok rich;
  nested_map = λ m p. copied_map (get_in p m);
  nested_slice = λ m p. copied_slice (get_in p m);
}

copying-NeverPanics : NeverPanics copying
copying-NeverPanics text m s e = cc

abbrev rich_env : Env Addon String Fields
rich_env = record env { docs = copying; objects = objects_of rich }

rich-IsDecoded :
    (template : String) (m : Fields)
    → decode copying (objects_of rich) template ≡ ok m
    → IsDecoded m
unfolding decode get_in get_field
rich-IsDecoded template m e =
    let same : rich ≡ m = cc in
    subst IsDecoded same (
      inl refl,
      inr (
        fields_of (get_field "spec" rich),
        refl,
        (tt, tt, (((tt, tt), (((tt, tt), (((tt, tt), tt), tt)), tt)))),
      ),
    )

rich-HasNames : HasNames copying rich
unfolding get_in get_field copies_fields copies copies_items
rich-HasNames = (
  (λ s e. cc),
  λ ps e.
      let same : cons (obj (field "name" (str "size") end)) nil ≡ ps = cc in
      subst AreNamed same ((str "size", refl, tt), tt),
)

end-HasNames : HasNames copying end
unfolding get_in get_field
end-HasNames = ((λ s e. cc), λ ps e. cc)

keeps :
    (template : String) (m m' : Fields) → copying.unmarshal template m ≡ ok m' → HasNames copying m'
keeps template m m' e = let same : rich ≡ m' = cc in subst (HasNames copying) same rich-HasNames

abbrev rich_addon : Addon
rich_addon = addon_of "1.0" [] some_workflow sum pending pending

rich_addon-IsTyped : IsTyped rich_env rich_addon.spec
rich_addon-IsTyped = record {
  calm = copying-NeverPanics;
  laws = objects_of-Faithful rich;
  decoded =
      (rich-IsDecoded "", rich-IsDecoded "", rich-IsDecoded "kind: Workflow", rich-IsDecoded "");
  names = (
    (λ m m' h e. keeps "" m m' e),
    (λ m m' h e. keeps "" m m' e),
    (λ m m' h e. keeps "kind: Workflow" m m' e),
    (λ m m' h e. keeps "" m m' e),
  );
  start = end-HasNames;
}

kube-KeepsSpec : KeepsSpec kube
kube-KeepsSpec = record {
  add_finalizer_lem = λ a f. refl;
  update_addon_lem =
      λ a stored w w' e. let same : a ≡ stored = cc in ap (λ (x : Addon). x.spec) (sym same);
}

reconcile_returns_example :
    let r = run_of rich_addon (lib_cache succeeded) in
    ((result : ReconcileResult) × (e : Option Error) × (r' : Run Addon) × (process_addon rich_env r
        ≡ returned result e r'))
    × ((e : Option Error) × (r' : Run Addon) × (finalize rich_env r ≡ ended e r'))
reconcile_returns_example =
    reconcile_returns rich_env (run_of rich_addon (lib_cache succeeded)) rich_addon-IsTyped
      kube-KeepsSpec (omega arith)

-- A template with an integer among its arguments.
abbrev counted : Fields
counted = field "spec" (obj (field "arguments" (obj (field "size" (int 3) end)) end)) end

abbrev counted_env : Env Addon String Fields
counted_env = record env { docs = record copying { unmarshal = λ text m. ok counted } }

abbrev stuck : Addon
stuck = record (addon_of "1.0" [] some_workflow sum pending pending) {
  spec = record (addon_of "1.0" [] some_workflow sum pending pending).spec {
    lifecycle = record (addon_of "1.0" [] some_workflow sum pending pending).spec.lifecycle {
      prereqs = some_workflow;
    };
  };
}
