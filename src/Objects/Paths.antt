-- ===== src/Objects/Paths.antt =====
-- Reading and writing a tree of maps at a path of keys.
use addon_manager.Common.{
  String, ◌≡◌, refl, ◌∙◌, ◌≢◌, ◌⊎◌, inl, inr, Option, none, some, List, [], ◌∷◌, arith, ◌==◌,
  eq_iff, eq_refl, if◌then◌else◌, Bool-cases,
}
use addon_manager.Document.{Value, obj, Fields, end, field, get_field}
use addon_manager.Objects.{put_field, fields_of, put_in}

-- The value at a path, if maps lead there.
unfoldable pub get_in : List String → Fields → Option Value
unfolding get_field
get_in [] m = none
get_in (k ∷ []) m = get_field k m
get_in (k ∷ l ∷ ks) m = get_in (l ∷ ks) (fields_of (get_field k m))

pub get_field-put_field :
    (k j : String) (v : Value) (m : Fields)
    → get_field j (put_field k v m) ≡ (if k == j then some v else get_field j m)
unfolding get_field put_field
get_field-put_field k j v end = refl
get_field-put_field k j v (field i w m) =
    ground (arith, get_field-put_field k j v m, eq_iff i j, eq_iff i k, eq_iff k j)

-- Neither path leads to the other.
abbrev pub Apart : List String → List String → Type 0
Apart (k ∷ ks) (j ∷ js) = (k ≢ j) ⊎ ((k ≡ j) × Apart ks js)
Apart _ _ = ⊥

get_field-put_field_self :
    (k : String) (v : Value) (m : Fields) → get_field k (put_field k v m) ≡ some v
get_field-put_field_self k v m = get_field-put_field k k v m ∙ rw (eq_refl k) refl

get_field-put_field_ne :
    (k j : String) (v : Value) (m : Fields) → k ≢ j → get_field j (put_field k v m) ≡ get_field j m
get_field-put_field_ne k j v m h = elim (Bool-cases (k == j)) [
  | inl same ↦ absurd (h ((eq_iff k j).0 same))
  | inr other ↦ get_field-put_field k j v m ∙ rw other refl
]

-- What is written at a path is read there.
pub get_in-put_in_self :
    (k : String) (ks : List String) (v : Value) (m : Fields)
    → get_in (k ∷ ks) (put_in (k ∷ ks) v m) ≡ some v
unfolding get_in put_in
get_in-put_in_self k [] v m = get_field-put_field_self k v m
get_in-put_in_self k (l ∷ ks) v m =
    rw (get_field-put_field_self k (obj (put_in (l ∷ ks) v (fields_of (get_field k m)))) m)
      (get_in-put_in_self l ks v (fields_of (get_field k m)))

get_in_ne :
    (k j : String) (js : List String) (v : Value) (m : Fields)
    → k ≢ j
    → get_in (j ∷ js) (put_field k v m) ≡ get_in (j ∷ js) m
unfolding get_in
get_in_ne k j [] v m h = get_field-put_field_ne k j v m h
get_in_ne k j (l ∷ js) v m h = rw (get_field-put_field_ne k j v m h) refl

-- Every other path reads what it did.
pub get_in-put_in-Apart :
    (p q : List String) (v : Value) (m : Fields) → Apart p q → get_in q (put_in p v m) ≡ get_in q m
unfolding put_in get_in
get_in-put_in-Apart [] q v m h = elim h [ ]
get_in-put_in-Apart (k ∷ []) [] v m h = elim h [ ]
get_in-put_in-Apart (k ∷ l ∷ ks) [] v m h = elim h [ ]
get_in-put_in-Apart (k ∷ []) (j ∷ js) v m (inl h) = get_in_ne k j js v m h
get_in-put_in-Apart (k ∷ l ∷ ks) (j ∷ js) v m (inl h) = get_in_ne k j js _ m h
get_in-put_in-Apart (k ∷ []) (j ∷ js) v m (inr (e, h)) = elim h [ ]
get_in-put_in-Apart (k ∷ l ∷ ks) (j ∷ []) v m (inr (e, h)) = elim h [ ]
get_in-put_in-Apart (k ∷ l ∷ ks) (j ∷ i ∷ js) v m (inr (e, h)) = rw (← e) (
    rw (get_field-put_field_self k (obj (put_in (l ∷ ks) v (fields_of (get_field k m)))) m)
      (get_in-put_in-Apart (l ∷ ks) (i ∷ js) v (fields_of (get_field k m)) h))
