-- ===== src/Objects/Faithful.antt =====
-- The documented behaviour of the operations on objects that the program relies on.
use addon_manager.Common.{ℕ, String, ◌≡◌, ◌⊎◌, Option, none, some, List, [], ◌∷◌, found, Assoc}
use addon_manager.Document.{Value, int, str, obj, Fields, end, field, GroupVersionKind}
use addon_manager.Objects.{ℤ, pos, put_in, Objects}
use addon_manager.Objects.Paths.{get_in, Apart}

-- The map of labels as a value.
abbrev pub label_fields : Assoc String → Fields
label_fields [] = end
label_fields ((k, v) ∷ ls) = field k (str v) (label_fields ls)

-- Both read the same at every path.
abbrev pub ReadsAs : Fields → Fields → Type 0
ReadsAs m n = (q : List String) → get_in q m ≡ get_in q n

-- A text, with the empty one for what is missing or no text.
abbrev pub text_in : Option Value → String
text_in (some (str s)) = s
text_in _ = ""

-- At least one key.
abbrev pub IsPath : List String → Type 0
IsPath [] = ⊥
IsPath (k ∷ ks) = Unit {0}

-- The object has no metadata, or metadata that is a map. On other metadata the setters do nothing.
abbrev pub IsMeta : Fields → Type 0
IsMeta m =
    (get_in ("metadata" ∷ []) m ≡ none)
    ⊎ ((fs : Fields) × (get_in ("metadata" ∷ []) m ≡ some (obj fs)))

-- `SetName` and `SetNamespace` of the empty text remove the field, and the getters answer with the
-- empty text for a field that is missing. The labels that are set are a map that is not nil.
pub record Faithful (o : Objects) : Type 0 where
  pub set_group_version_kind_lem :
      (g : GroupVersionKind) (m : Fields) (q : List String)
      → Apart ("kind" ∷ []) q
      → Apart ("apiVersion" ∷ []) q
      → get_in q (o.set_group_version_kind g m) ≡ get_in q m
  pub kind-set_group_version_kind :
      (g : GroupVersionKind) (m : Fields)
      → get_in ("kind" ∷ []) (o.set_group_version_kind g m) ≡ some (str g.kind)
  pub set_namespace_lem :
      (s : String) (m : Fields)
      → IsMeta m
      → text_in (get_in ("metadata" ∷ "namespace" ∷ []) (o.set_namespace s m)) ≡ s
  pub set_namespace-keeps :
      (s : String) (m : Fields) (q : List String)
      → IsMeta m
      → Apart ("metadata" ∷ "namespace" ∷ []) q
      → get_in q (o.set_namespace s m) ≡ get_in q m
  pub set_namespace-IsMeta : (s : String) (m : Fields) → IsMeta m → IsMeta (o.set_namespace s m)
  pub get_namespace_lem :
      (m : Fields) → o.get_namespace m ≡ text_in (get_in ("metadata" ∷ "namespace" ∷ []) m)
  pub set_name_lem :
      (s : String) (m : Fields)
      → IsMeta m
      → text_in (get_in ("metadata" ∷ "name" ∷ []) (o.set_name s m)) ≡ s
  pub set_name-keeps :
      (s : String) (m : Fields) (q : List String)
      → IsMeta m
      → Apart ("metadata" ∷ "name" ∷ []) q
      → get_in q (o.set_name s m) ≡ get_in q m
  pub set_name-IsMeta : (s : String) (m : Fields) → IsMeta m → IsMeta (o.set_name s m)
  pub get_name_lem : (m : Fields) → o.get_name m ≡ text_in (get_in ("metadata" ∷ "name" ∷ []) m)
  pub set_labels_lem :
      (ls : Assoc String) (m : Fields)
      → IsMeta m
      → ReadsAs (o.set_labels ls m) (put_in ("metadata" ∷ "labels" ∷ []) (obj (label_fields ls)) m)
  pub get_labels_lem :
      (ls : Assoc String) (m : Fields)
      → get_in ("metadata" ∷ "labels" ∷ []) m ≡ some (obj (label_fields ls))
      → o.get_labels m ≡ some ls
  pub set_nested_field_lem :
      (v : Value) (p : List String) (m m' : Fields)
      → o.set_nested_field m v p ≡ found m'
      → ReadsAs m' (put_in p v m)
  pub nested_field_lem :
      (m : Fields) (p : List String) (x : Option Value)
      → IsPath p
      → o.nested_field m p ≡ found x
      → x ≡ get_in p m
  pub nested_int64_int :
      (n : ℕ) (p : List String) (m : Fields)
      → get_in p m ≡ some (int n)
      → o.nested_int64 m p ≡ found (some (pos n))
  pub nested_int64_same :
      (i : ℤ) (p : List String) (m m' : Fields)
      → o.nested_int64 m p ≡ found (some i)
      → get_in p m' ≡ get_in p m
      → o.nested_int64 m' p ≡ found (some i)
