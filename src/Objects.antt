-- ===== src/Objects.antt =====
-- What pkg/workflows calls of other packages on a decoded object: apimachinery's `unstructured`,
-- yaml.v3 and encoding/json. An object is a tree of maps; a map that is changed through a reference
-- is written back at its place.
pub mod Paths
pub mod Faithful
use addon_manager.Common.{
  ℕ, zero, suc, ◌+◌, ◌-◌, ◌*◌, ◌/◌, ◌%◌, ◌^◌, ◌≤◌, ◌<◌, Char, code, String, ◌≡◌, refl, sym, ap,
  subst, ◌∙◌, ◌≢◌, ◌↔◌, ◌⊎◌, inl, inr, Bool, true, false, not, ◌&&◌, ◌||◌, Option, none, some, List,
  [], ◌∷◌, ◌++◌, map, arith, ◌==◌, starts_with, eq_iff, eq_refl, leb, ltb, eqb, if◌then◌else◌,
  Bool-cases, Option-cases, is_some, Reason, unknown, not_found, already_exists, conflict, Error,
  errorf, Result, ok, err, panic, Reply, found, failure, Reply-cases, bind, >>=-eq-ok, >>=-eq-panic,
  >>-eq-ok, ◌>>=◌, ◌>>◌, length, get_elem?, length-append, get_elem?-append, All, ◌+++◌, len,
  is_space, trim_left, trim_right, trim_space, cons_head, split, join, hex_digit, quote, Assoc,
  lookup, insert, remove, lookup-insert, lookup-remove, All-lookup, All-insert, All-remove,
  has_prefix, diverges, has_prefix-append, has_prefix-append_of_diverges, Errs, Errs-bind, Errs-err,
}
use addon_manager.Document.{Value, int, obj, Fields, end, field, get_field, GroupVersionKind}

-- Go's `int64`, as an integer: `negsuc n` is -(n + 1).
pub data ℤ : Type 0 where
  pos : ℕ → ℤ
  negsuc : ℕ → ℤ

abbrev pub is_zero : ℤ → Bool
is_zero (pos n) = eqb n 0
is_zero (negsuc n) = false

-- `m[k] = v` on a map that is not nil.
unfoldable pub put_field : String → Value → Fields → Fields
put_field k v end = field k v end
put_field k v (field j w m) = if j == k then field j v m else field j w (put_field k v m)

-- The map under a key; what is no map counts as an empty one.
abbrev pub fields_of : Option Value → Fields
fields_of (some (obj m)) = m
fields_of _ = end

-- The value at a path of keys is replaced; maps that are missing on the way are made.
unfoldable pub put_in : List String → Value → Fields → Fields
unfolding put_field
put_in [] v m = m
put_in (k ∷ []) v m = put_field k v m
put_in (k ∷ l ∷ ks) v m = put_field k (obj (put_in (l ∷ ks) v (fields_of (get_field k m)))) m

-- `marshal` is `yaml.Marshal`, `marshal_json` is `json.Marshal`, and `unmarshal_json` the method of
-- `Unstructured`. The nested getters answer `none` for not found. A setter of metadata returns the
-- changed object.
pub record Objects : Type 0 where
  pub marshal : Fields → Reply String
  pub marshal_json : Fields → Reply String
  pub unmarshal_json : String → Reply Fields
  pub set_group_version_kind : GroupVersionKind → Fields → Fields
  pub set_namespace : String → Fields → Fields
  pub set_name : String → Fields → Fields
  pub get_namespace : Fields → String
  pub get_name : Fields → String
  pub get_labels : Fields → Option (Assoc String)
  pub set_labels : Assoc String → Fields → Fields
  pub nested_field : Fields → List String → Reply (Option Value)
  pub nested_string : Fields → List String → Reply (Option String)
  pub nested_int64 : Fields → List String → Reply (Option ℤ)
  pub set_nested_field : Fields → Value → List String → Reply Fields
