-- ===== src/Workflows/Labelled.antt =====
-- pkg/workflows/workflow.go: the manifests that a submitted workflow carries.
use addon_manager.Common.{
  if◌then◌else◌, String, ◌≡◌, some, List, [], ◌∷◌, ◌==◌, ok, found, trim_space, Assoc, lookup,
}
use addon_manager.Api.Addon.{Addon}
use addon_manager.Document.{Documents, Fields, end, obj}
use addon_manager.Objects.{Objects, put_in}
use addon_manager.Objects.Faithful.{Faithful, IsMeta, ReadsAs, label_fields}
use addon_manager.Workflows.Defaults.{labels_or_new}

-- The labels `ls` are the four of the addon, and the others of `old`.
abbrev pub AddonLabels : Addon → Assoc String → Assoc String → Type 0
AddonLabels a old ls =
    (k : String)
    → lookup k ls ≡ (
        if "app.kubernetes.io/managed-by" == k
        then some "addonmgr.keikoproj.io"
        else if "app.kubernetes.io/part-of" == k
        then some a.name
        else if "app.kubernetes.io/version" == k
        then some a.spec.pkg_version
        else if "app.kubernetes.io/name" == k
        then some a.name
        else lookup k old)

module _ (docs : Documents) (o : Objects) (laws : Faithful o) (a : Addon) where
  -- `n` is `m` with the labels of the addon, besides the others that `m` has.
  pub record Relabelled (m n : Fields) : Type 0 where
    pub new_labels : Assoc String
    pub read : o.get_labels n ≡ some new_labels
    pub has_labels : AddonLabels a (labels_or_new (o.get_labels m)) new_labels
    pub reads : ReadsAs n (put_in ("metadata" ∷ "labels" ∷ []) (obj (label_fields new_labels)) m)

  -- A manifest and what it becomes: blank stays blank, and every other one is the document with the
  -- labels of the addon.
  pub data Labelled : String → String → Type 0 where
    blank : {text : String} → trim_space text ≡ "" → Labelled text ""
    labelled :
        {text out : String} {m n : Fields}
        → docs.unmarshal (trim_space text) end ≡ ok m
        → Relabelled m n
        → o.marshal n ≡ found out
        → Labelled text out

  -- What the text decodes to has no metadata, or metadata that is a map.
  abbrev pub Decodes : String → Type 0
  Decodes text = (m : Fields) → docs.unmarshal (trim_space text) end ≡ ok m → IsMeta m

  -- One for one, in order.
  pub data Each : List String → List String → Type 0 where
    none_left : Each [] []
    next :
        {text out : String} {texts outs : List String}
        → Labelled text out
        → Each texts outs
        → Each (text ∷ texts) (out ∷ outs)
