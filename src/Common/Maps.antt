-- ===== src/Common/Maps.antt =====
-- A Go `map[string]V` as an association list. Iteration follows the list: Go's order is arbitrary,
-- and a statement for every list covers each order.
use addon_manager.Common.Base.{
  ◌≡◌, refl, List, [], ◌∷◌, Option, none, some, String, ◌==◌, eq_iff, arith, if◌then◌else◌,
  Bool-cases, inl, inr,
}
use addon_manager.Common.Lists.{All}

abbrev pub Assoc {ℓ} : Type ℓ → Type ℓ
Assoc V = List (String × V)

module _ {ℓ} {V : Type ℓ} where
  -- `m[k]` with its `ok`.
  unfoldable pub lookup : String → Assoc V → Option V
  lookup key [] = none
  lookup key ((k, v) ∷ rest) = if k == key then some v else lookup key rest

  -- `m[k] = v`.
  unfoldable pub insert : String → V → Assoc V → Assoc V
  insert key new [] = (key, new) ∷ []
  insert key new ((k, v) ∷ rest) =
      if k == key then (key, new) ∷ rest else (k, v) ∷ insert key new rest

  -- `delete(m, k)`.
  unfoldable pub remove : String → Assoc V → Assoc V
  remove k [] = []
  remove k ((j, w) ∷ m) = if j == k then remove k m else (j, w) ∷ remove k m

  pub lookup-insert :
      (k j : String) (v : V) (m : Assoc V)
      → lookup j (insert k v m) ≡ (if k == j then some v else lookup j m)
  unfolding lookup insert
  lookup-insert k j v [] = refl
  lookup-insert k j v ((i, w) ∷ rest) =
      ground (arith, lookup-insert k j v rest, eq_iff i j, eq_iff i k, eq_iff k j)

  pub lookup-remove :
      (k j : String) (m : Assoc V) → lookup j (remove k m) ≡ (if k == j then none else lookup j m)
  unfolding lookup remove
  lookup-remove k j [] = ground arith
  lookup-remove k j ((i, w) ∷ rest) =
      ground (arith, lookup-remove k j rest, eq_iff i j, eq_iff i k, eq_iff k j)

  -- What holds of every binding, and its upkeep by the three operations.
  module _ {κ} (P : String × V → Type κ) where
    pub All-lookup : (k : String) (m : Assoc V) {v : V} → lookup k m ≡ some v → All P m → P (k, v)
    unfolding lookup
    All-lookup k [] e h = cc
    All-lookup k ((j, w) ∷ m) {v} e (p, h) = elim (Bool-cases (j == k)) [
      | inl same ↦
          let found : (j ≡ k) × (w ≡ v) = ground (arith, eq_iff j k) in rw (← found.0, ← found.1) p
      | inr other ↦ All-lookup k m (ground arith) h
    ]

    pub All-insert : (k : String) (v : V) (m : Assoc V) → P (k, v) → All P m → All P (insert k v m)
    unfolding insert
    All-insert k v [] p h = (p, tt)
    All-insert k v ((j, w) ∷ m) p (q, h) = elim (Bool-cases (j == k)) [
      | inl same ↦ rw same (p, h)
      | inr other ↦ rw other (q, All-insert k v m p h)
    ]

    pub All-remove : (k : String) (m : Assoc V) → All P m → All P (remove k m)
    unfolding remove
    All-remove k [] h = tt
    All-remove k ((j, w) ∷ m) (q, h) = elim (Bool-cases (j == k)) [
      | inl same ↦ rw same (All-remove k m h)
      | inr other ↦ rw other (q, All-remove k m h)
    ]
