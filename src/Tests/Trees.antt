-- ===== src/Tests/Trees.antt =====
-- Operations on objects that do what is documented.
use addon_manager.Common.{
  String, ◌≡◌, refl, ap, ◌∙◌, Option, none, some, [], ◌∷◌, found, ◌+++◌, Assoc,
}
use addon_manager.Document.{Value, int, str, obj, Fields, end, field}
use addon_manager.Objects.{ℤ, pos, put_in, Objects}
use addon_manager.Objects.Faithful.{Faithful, label_fields, text_in}
use addon_manager.Workflows.Ready.{IsMeta-put}
use addon_manager.Objects.Paths.{get_in, get_in-put_in_self, get_in-put_in-Apart}

abbrev int_of : Option Value → Option ℤ
int_of (some (int n)) = some (pos n)
int_of _ = none

abbrev str_of : Option Value → Option String
str_of (some (str s)) = some s
str_of _ = none

abbrev labels_in : Fields → Assoc String
labels_in end = []
labels_in (field k (str v) m) = (k, v) ∷ labels_in m
labels_in (field k _ m) = labels_in m

abbrev labels_at : Option Value → Option (Assoc String)
labels_at (some (obj m)) = some (labels_in m)
labels_at _ = none

-- A decoded template.
abbrev pub tree : Fields
tree =
    field "metadata" (obj (field "name" (str "old") end))
      (field "spec" (obj (field "entrypoint" (str "main") end)) end)

-- The tree is what every text decodes to.
abbrev pub objects_of : Fields → Objects
objects_of decoded = record {
  marshal = λ m. found "";
  marshal_json = λ m. found "";
  unmarshal_json = λ s. found decoded;
  set_group_version_kind = λ g m.
      put_in ("kind" ∷ []) (str g.kind)
        (put_in ("apiVersion" ∷ []) (str (g.group +++ "/" +++ g.version)) m);
  set_namespace = λ s m. put_in ("metadata" ∷ "namespace" ∷ []) (str s) m;
  set_name = λ s m. put_in ("metadata" ∷ "name" ∷ []) (str s) m;
  get_namespace = λ m. text_in (get_in ("metadata" ∷ "namespace" ∷ []) m);
  get_name = λ m. text_in (get_in ("metadata" ∷ "name" ∷ []) m);
  get_labels = λ m. labels_at (get_in ("metadata" ∷ "labels" ∷ []) m);
  set_labels = λ ls m. put_in ("metadata" ∷ "labels" ∷ []) (obj (label_fields ls)) m;
  nested_field = λ m p. found (get_in p m);
  nested_string = λ m p. found (str_of (get_in p m));
  nested_int64 = λ m p. found (int_of (get_in p m));
  set_nested_field = λ m v p. found (put_in p v m);
}

abbrev pub objects : Objects
objects = objects_of tree

labels_in-label_fields : (ls : Assoc String) → labels_in (label_fields ls) ≡ ls
labels_in-label_fields [] = refl
labels_in-label_fields ((k, v) ∷ ls) =
    ap (λ (x : Assoc String). (k, v) ∷ x) (labels_in-label_fields ls)

pub objects_of-Faithful : (decoded : Fields) → Faithful (objects_of decoded)
objects_of-Faithful decoded = record {
  set_group_version_kind_lem = λ g m q h1 h2.
      get_in-put_in-Apart ("kind" ∷ []) q (str g.kind) _ h1
      ∙ get_in-put_in-Apart ("apiVersion" ∷ []) q _ m h2;
  kind-set_group_version_kind = λ g m. get_in-put_in_self "kind" [] (str g.kind) _;
  set_namespace_lem =
      λ s m h. ap text_in (get_in-put_in_self "metadata" ("namespace" ∷ []) (str s) m);
  set_namespace-keeps =
      λ s m q h apart. get_in-put_in-Apart ("metadata" ∷ "namespace" ∷ []) q (str s) m apart;
  set_namespace-IsMeta = λ s m h.
      IsMeta-put "namespace" (str s) m (put_in ("metadata" ∷ "namespace" ∷ []) (str s) m)
        (λ q. refl);
  get_namespace_lem = λ m. refl;
  set_name_lem = λ s m h. ap text_in (get_in-put_in_self "metadata" ("name" ∷ []) (str s) m);
  set_name-keeps =
      λ s m q h apart. get_in-put_in-Apart ("metadata" ∷ "name" ∷ []) q (str s) m apart;
  set_name-IsMeta = λ s m h.
      IsMeta-put "name" (str s) m (put_in ("metadata" ∷ "name" ∷ []) (str s) m) (λ q. refl);
  get_name_lem = λ m. refl;
  set_labels_lem = λ ls m h q. refl;
  get_labels_lem = λ ls m h. ap labels_at h ∙ ap some (labels_in-label_fields ls);
  set_nested_field_lem = λ v p m m' h q. cc;
  nested_field_lem = λ m p x path h. cc;
  nested_int64_int = λ n p m h. ap (λ x. found (int_of x)) h;
  nested_int64_same = λ i p m m' h same. ap (λ x. found (int_of x)) same ∙ h;
}

pub objects-Faithful : Faithful objects
objects-Faithful = objects_of-Faithful tree
