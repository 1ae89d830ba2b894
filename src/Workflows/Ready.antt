-- ===== src/Workflows/Ready.antt =====
-- pkg/workflows/workflow.go: what every workflow that `Install` submits has.
use addon_manager.Common.{
  ℕ, String, ◌≡◌, refl, ap, subst, ◌∙◌, inl, inr, false, Option, none, some, List, [], ◌∷◌, arith,
  eq_iff, eqb, Bool-cases, Reply, found, failure, Assoc,
}
use addon_manager.Api.Addon.{Addon}
use addon_manager.Document.{Documents, Fields, Value, get_field, int, obj, str}
use addon_manager.Objects.{Objects, fields_of, is_zero, pos, put_field, put_in, ℤ}
use addon_manager.Objects.Faithful.{Faithful, IsMeta, ReadsAs, label_fields, text_in}
use addon_manager.Objects.Paths.{Apart, get_in, get_in-put_in-Apart, get_in-put_in_self}
use addon_manager.Validator.Workflow.{argo_gvk}
use addon_manager.Workflows.Defaults.{inject_seconds}
use addon_manager.Workflows.Frame.{SpecOnly}
use addon_manager.Workflows.Install.{stamp}

-- One of the entries of metadata.
abbrev pub meta : String → List String
meta k = "metadata" ∷ k ∷ []

pub IsMeta-put :
    (k : String) (v : Value) (m n : Fields) → ReadsAs n (put_in (meta k) v m) → IsMeta n
unfolding put_in get_in put_field
IsMeta-put k v m n h = inr (
  put_in (k ∷ []) v (fields_of (get_field "metadata" m)),
  h ("metadata" ∷ [])
      ∙ get_in-put_in_self "metadata" []
          (obj (put_in (k ∷ []) v (fields_of (get_field "metadata" m)))) m,
)

IsMeta-SpecOnly : (m n : Fields) → SpecOnly m n → IsMeta m → IsMeta n
IsMeta-SpecOnly m n only (inl e) =
    inl (only _ (inl (λ c. ground (arith, eq_iff "spec" "metadata"))) ∙ e)
IsMeta-SpecOnly m n only (inr (fs, e)) =
    inr (fs, only _ (inl (λ c. ground (arith, eq_iff "spec" "metadata"))) ∙ e)

-- What `parse` has written outside of `spec`.
pub record Stamped (a : Addon) (name : String) (m : Fields) : Type 0 where
  pub kind : get_in ("kind" ∷ []) m ≡ some (str "Workflow")
  pub named : text_in (get_in (meta "name") m) ≡ name
  pub placed : text_in (get_in (meta "namespace") m) ≡ a.namespace
  pub has_meta : IsMeta m

pub Stamped-SpecOnly :
    (a : Addon) (name : String) (m n : Fields) → SpecOnly m n → Stamped a name m → Stamped a name n
Stamped-SpecOnly a name m n only s = record {
  kind = only _ (inl (λ c. ground (arith, eq_iff "spec" "kind"))) ∙ s.kind;
  named = ap text_in (only _ (inl (λ c. ground (arith, eq_iff "spec" "metadata")))) ∙ s.named;
  placed = ap text_in (only _ (inl (λ c. ground (arith, eq_iff "spec" "metadata")))) ∙ s.placed;
  has_meta = IsMeta-SpecOnly m n only s.has_meta;
}

module _ (o : Objects) (laws : Faithful o) where
  -- A number of seconds other than zero stands at the path.
  abbrev pub IsPresent : List String → Fields → Type 0
  IsPresent path m = (i : ℤ) × (o.nested_int64 m path ≡ found (some i)) × (is_zero i ≡ false)

  pub IsPresent-keeps :
      (path : List String) (m n : Fields)
      → get_in path n ≡ get_in path m
      → IsPresent path m
      → IsPresent path n
  IsPresent-keeps path m n same (i, there, more) =
      (i, laws.nested_int64_same i path m n there same, more)

  IsPresent-set :
      (k : String) (ks : List String) (seconds : ℕ) (m m' : Fields)
      → eqb seconds 0 ≡ false
      → o.set_nested_field m (int seconds) (k ∷ ks) ≡ found m'
      → IsPresent (k ∷ ks) m'
  IsPresent-set k ks seconds m m' more e = (
    pos seconds,
    laws.nested_int64_int seconds (k ∷ ks) m' (
        laws.set_nested_field_lem (int seconds) (k ∷ ks) m m' e (k ∷ ks)
        ∙ get_in-put_in_self k ks (int seconds) m),
    more,
  )

  pub inject_seconds-IsPresent :
      (k : String) (ks : List String) (seconds : ℕ) (m m' : Fields) (r : Reply (Option ℤ))
      → eqb seconds 0 ≡ false
      → o.nested_int64 m (k ∷ ks) ≡ r
      → inject_seconds o (k ∷ ks) seconds m r ≡ found m'
      → IsPresent (k ∷ ks) m'
  unfolding inject_seconds
  inject_seconds-IsPresent k ks seconds m m' (failure e) more read h = cc
  inject_seconds-IsPresent k ks seconds m m' (found none) more read h =
      IsPresent-set k ks seconds m m' more h
  inject_seconds-IsPresent k ks seconds m m' (found (some i)) more read h =
      elim (Bool-cases (is_zero i)) [
        | inl zero_there ↦ IsPresent-set k ks seconds m m' more (rw zero_there at h)
        | inr given ↦
            let same : m ≡ m' = (let h' = (rw given at h) in cc) in
            subst (IsPresent (k ∷ ks)) same (i, read, given)
      ]

  -- The labels are written and everything else is kept.
  pub set_labels-keeps :
      (ls : Assoc String) (m : Fields) (q : List String)
      → IsMeta m
      → Apart (meta "labels") q
      → get_in q (o.set_labels ls m) ≡ get_in q m
  set_labels-keeps ls m q ok_meta apart =
      laws.set_labels_lem ls m ok_meta q
      ∙ get_in-put_in-Apart (meta "labels") q (obj (label_fields ls)) m apart

  pub get_labels-set_labels :
      (ls : Assoc String) (m : Fields) → IsMeta m → o.get_labels (o.set_labels ls m) ≡ some ls
  get_labels-set_labels ls m ok_meta = laws.get_labels_lem ls (o.set_labels ls m) (
      laws.set_labels_lem ls m ok_meta (meta "labels")
      ∙ get_in-put_in_self "metadata" ("labels" ∷ []) (obj (label_fields ls)) m)

  pub IsMeta-set_labels : (ls : Assoc String) (m : Fields) → IsMeta m → IsMeta (o.set_labels ls m)
  IsMeta-set_labels ls m ok_meta =
      IsMeta-put "labels" (obj (label_fields ls)) m (o.set_labels ls m)
        (laws.set_labels_lem ls m ok_meta)

  pub Stamped-set_labels :
      (a : Addon) (name : String) (ls : Assoc String) (m : Fields)
      → Stamped a name m
      → Stamped a name (o.set_labels ls m)
  Stamped-set_labels a name ls m s = record {
    kind =
        set_labels-keeps ls m _ s.has_meta (inl (λ c. ground (arith, eq_iff "metadata" "kind")))
        ∙ s.kind;
    named =
        ap text_in (
          set_labels-keeps ls m _ s.has_meta
            (inr (refl, inl (λ c. ground (arith, eq_iff "labels" "name")))))
        ∙ s.named;
    placed =
        ap text_in (
          set_labels-keeps ls m _ s.has_meta
            (inr (refl, inl (λ c. ground (arith, eq_iff "labels" "namespace")))))
        ∙ s.placed;
    has_meta = IsMeta-set_labels ls m s.has_meta;
  }

  pub stamp-Stamped :
      (docs : Documents) (a : Addon) (name : String) (m : Fields)
      → IsMeta m
      → Stamped a name (stamp docs o a name m)
  unfolding stamp
  stamp-Stamped docs a name m ok_meta =
      let m1 = o.set_group_version_kind argo_gvk m in
      let m2 = o.set_namespace a.namespace m1 in
      let m3 = o.set_name name m2 in
      let same =
        laws.set_group_version_kind_lem argo_gvk m ("metadata" ∷ [])
          (inl (λ c. ground (arith, eq_iff "kind" "metadata")))
          (inl (λ c. ground (arith, eq_iff "apiVersion" "metadata"))) in
      let meta1 : IsMeta m1 = elim ok_meta [
        | inl e ↦ inl (same ∙ e)
        | inr (fs, e) ↦ inr (fs, same ∙ e)
      ] in
      let meta2 = laws.set_namespace-IsMeta a.namespace m1 meta1 in
      record {
        kind =
            laws.set_name-keeps name m2 ("kind" ∷ []) meta2
              (inl (λ c. ground (arith, eq_iff "metadata" "kind")))
            ∙ laws.set_namespace-keeps a.namespace m1 ("kind" ∷ []) meta1
                (inl (λ c. ground (arith, eq_iff "metadata" "kind")))
            ∙ laws.kind-set_group_version_kind argo_gvk m;
        named = laws.set_name_lem name m2 meta2;
        placed =
            ap text_in (
              laws.set_name-keeps name m2 (meta "namespace") meta2
                (inr (refl, inl (λ c. ground (arith, eq_iff "name" "namespace")))))
            ∙ laws.set_namespace_lem a.namespace m1 meta1;
        has_meta = laws.set_name-IsMeta name m2 meta2;
      }
