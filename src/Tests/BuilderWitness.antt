-- ===== src/Tests/BuilderWitness.antt =====
-- Workflows that are built.
use addon_manager.Tests.Trees.{objects, objects-Faithful}
use addon_manager.Common.{
  String, ◌≡◌, refl, inl, inr, true, false, List, [], ◌∷◌, ok, some, panic, has_suffix,
}
use addon_manager.Document.{Fields, Items, arr, cons, str}
use addon_manager.Objects.{put_in}
use addon_manager.Objects.Paths.{Apart, get_in, get_in-put_in-Apart}
use addon_manager.Workflows.Builder.{
  Builder, templates_path, build, delete_builder, new_builder, resource_data, resources, scripts,
}
use addon_manager.Workflows.Built.{
  call, calls, delete_leaks, scripts_never, scripts_panic, with_resources, deletion,
  deletion_command, OnlyDeletes,
}

abbrev set_generate_name : String → Fields → Fields
set_generate_name s m = put_in ("metadata" ∷ "generateName" ∷ []) (str s) m

set_generate_name_lem :
    (s : String) (m : Fields) (q : List String)
    → Apart ("metadata" ∷ []) q
    → get_in q (set_generate_name s m) ≡ get_in q m
set_generate_name_lem s m [] h = elim h [ ]
set_generate_name_lem s m (k ∷ ks) (inl h) =
    get_in-put_in-Apart ("metadata" ∷ "generateName" ∷ []) (k ∷ ks) (str s) m (inl h)
set_generate_name_lem s m (k ∷ ks) (inr (e, h)) = elim h [ ]

abbrev texts : List String
texts = "kind: A" ∷ "kind: B\n" ∷ []

resource_data_test : resource_data texts ≡ "kind: A\n---\nkind: B\n---\n"
unfolding resource_data has_suffix
resource_data_test = refl

scripts_never_example :
    scripts (("a.py", "print(1)") ∷ []) (resources texts new_builder) ≡ panic scripts_panic
unfolding calls call
scripts_never_example =
    scripts_never objects set_generate_name (with_resources texts ∷ []) false false
      (resources texts new_builder) "a.py" "print(1)" [] refl

abbrev busy : Builder
busy = resources texts new_builder

delete_leaks_example :
    (b3 : Builder) × (m : Fields) × (xs : Items) × (build objects set_generate_name true busy
      ≡ ok (b3, m))
    × (get_in templates_path m ≡ some (arr (cons deletion (cons deletion_command xs))))
    × OnlyDeletes xs
unfolding calls call delete_builder
delete_leaks_example =
    delete_leaks objects set_generate_name objects-Faithful set_generate_name_lem
      (with_resources texts ∷ []) (with_resources texts ∷ []) false true true new_builder busy busy
      refl refl
