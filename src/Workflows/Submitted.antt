-- ===== src/Workflows/Submitted.antt =====
-- pkg/workflows/workflow.go: what `Install` sends, and what it leaves alone.
use addon_manager.Common.{
  String, ◌≡◌, refl, ap, subst, ◌∙◌, inl, inr, Option, none, some, List, [], ◌∷◌, arith, eq_iff,
  Bool-cases, Result, ok, err, panic, Reply, found, failure, >>=-eq-ok, Assoc, lookup, insert,
  lookup-insert,
}
use addon_manager.Api.Addon.{Addon}
use addon_manager.Api.Spec.{WorkflowType}
use addon_manager.Document.{Documents, Fields, Value, int, str}
use addon_manager.Objects.{Objects, is_zero, ℤ}
use addon_manager.Objects.Faithful.{Faithful, IsMeta}
use addon_manager.Objects.Paths.{Apart, get_in, get_in-put_in-Apart}
use addon_manager.Workflows.Artifacts.{configure_workflow_artifacts, try}
use addon_manager.Workflows.Defaults.{
  add_default_labels_to_resource, deadline_path, default_labels, default_ttl, group,
  inject_active_deadline_seconds, inject_instance_id, inject_seconds, inject_ttls, labels_or_new,
  manage_by_label, own_label, part_label, ttl_path, version_label,
  wf_default_active_deadline_seconds, wf_instance_id, wf_instance_id_label_key,
}
use addon_manager.Workflows.Frame.{
  SpecOnly-trans, configure_global_wf_parameters-SpecOnly, configure_workflow_artifacts-SpecOnly,
  inject_active_deadline_seconds-SpecOnly, inject_ttls-SpecOnly,
}
use addon_manager.Workflows.Install.{decode, invalid_workflow, parse, prepare, require_spec}
use addon_manager.Workflows.Parameters.{configure_global_wf_parameters}
use addon_manager.Workflows.Ready.{
  IsPresent, IsPresent-keeps, Stamped, Stamped-SpecOnly, Stamped-set_labels, get_labels-set_labels,
  inject_seconds-IsPresent, meta, set_labels-keeps, stamp-Stamped,
}

module _ (docs : Documents) (o : Objects) (laws : Faithful o) where
  -- What a submitted workflow has: the name and the namespace it was meant to have, the labels of
  -- its addon and of the controller's Argo instance, a time to live and a deadline.
  pub record IsReady (a : Addon) (name : String) (m : Fields) : Type 0 where
    pub kind : get_in ("kind" ∷ []) m ≡ some (str "Workflow")
    pub named : o.get_name m ≡ name
    pub placed : o.get_namespace m ≡ a.namespace
    pub labels : Assoc String
    pub labelled : o.get_labels m ≡ some labels
    pub owned : lookup own_label labels ≡ some a.name
    pub part : lookup part_label labels ≡ some a.name
    pub versioned : lookup version_label labels ≡ some a.spec.pkg_version
    pub managed : lookup manage_by_label labels ≡ some group
    pub instance_id : lookup wf_instance_id_label_key labels ≡ some wf_instance_id
    pub ttl : IsPresent o laws ttl_path m
    pub deadline : IsPresent o laws deadline_path m

  lookup-default_labels :
      (a : Addon) (ls : Assoc String)
      → (lookup own_label (default_labels a ls) ≡ some a.name)
        × (lookup part_label (default_labels a ls) ≡ some a.name)
        × (lookup version_label (default_labels a ls) ≡ some a.spec.pkg_version)
        × (lookup manage_by_label (default_labels a ls) ≡ some group)
        × (lookup wf_instance_id_label_key (default_labels a ls)
            ≡ lookup wf_instance_id_label_key ls)
  unfolding default_labels
  lookup-default_labels a ls = (
    simp lookup-insert,
    simp lookup-insert,
    simp lookup-insert,
    simp lookup-insert,
    simp lookup-insert,
  )

  -- The two calls that write labels.
  labelled-IsReady :
      (a : Addon) (name : String) (m : Fields)
      → Stamped a name m
      → IsPresent o laws ttl_path m
      → IsPresent o laws deadline_path m
      → IsReady a name (add_default_labels_to_resource o a (inject_instance_id o m))
  unfolding add_default_labels_to_resource inject_instance_id
  labelled-IsReady a name m s ttl deadline =
      let ls1 = insert wf_instance_id_label_key wf_instance_id (labels_or_new (o.get_labels m)) in
      let m1 = o.set_labels ls1 m in
      let s1 = Stamped-set_labels o laws a name ls1 m s in
      let ls2 = default_labels a (labels_or_new (o.get_labels m1)) in
      let m2 = o.set_labels ls2 m1 in
      let s2 = Stamped-set_labels o laws a name ls2 m1 s1 in
      let got1 = get_labels-set_labels o laws ls1 m s.has_meta in
      let (own, part, version, manage, instance_id) =
        lookup-default_labels a (labels_or_new (o.get_labels m1)) in
      let keeps = λ (q : List String) (h : Apart (meta "labels") q).
        set_labels-keeps o laws ls2 m1 q s1.has_meta h
        ∙ set_labels-keeps o laws ls1 m q s.has_meta h in
      record {
        kind = s2.kind;
        named = laws.get_name_lem m2 ∙ s2.named;
        placed = laws.get_namespace_lem m2 ∙ s2.placed;
        labels = ls2;
        labelled = get_labels-set_labels o laws ls2 m1 s1.has_meta;
        owned = own;
        part = part;
        versioned = version;
        managed = manage;
        instance_id =
            instance_id
            ∙ ap (λ (x : Option (Assoc String)). lookup wf_instance_id_label_key (labels_or_new x))
                got1
            ∙ simp lookup-insert;
        ttl =
            IsPresent-keeps o laws ttl_path m m2
              (keeps ttl_path (inl (λ c. ground (arith, eq_iff "metadata" "spec")))) ttl;
        deadline =
            IsPresent-keeps o laws deadline_path m m2
              (keeps deadline_path (inl (λ c. ground (arith, eq_iff "metadata" "spec")))) deadline;
      }

  inject_ttls-IsPresent :
      (m m' : Fields) → inject_ttls o m ≡ found m' → IsPresent o laws ttl_path m'
  unfolding inject_ttls
  inject_ttls-IsPresent m m' h =
      inject_seconds-IsPresent o laws "spec" ("ttlStrategy" ∷ "secondsAfterCompletion" ∷ [])
        default_ttl m m' (o.nested_int64 m ttl_path) refl refl h

  deadline-keeps_ttl :
      (m m' : Fields)
      → o.set_nested_field m (int wf_default_active_deadline_seconds) deadline_path ≡ found m'
      → IsPresent o laws ttl_path m
      → IsPresent o laws ttl_path m'
  deadline-keeps_ttl m m' h ttl =
      IsPresent-keeps o laws ttl_path m m'
        (laws.set_nested_field_lem (int wf_default_active_deadline_seconds) deadline_path m m' h
            ttl_path
          ∙ get_in-put_in-Apart deadline_path ttl_path (int wf_default_active_deadline_seconds) m
              (inr (refl, inl (λ c. ground (arith, eq_iff "activeDeadlineSeconds" "ttlStrategy")))))
        ttl

  inject_seconds-keeps_ttl :
      (m m' : Fields) (r : Reply (Option ℤ))
      → inject_seconds o deadline_path wf_default_active_deadline_seconds m r ≡ found m'
      → IsPresent o laws ttl_path m
      → IsPresent o laws ttl_path m'
  unfolding inject_seconds
  inject_seconds-keeps_ttl m m' (failure e) h ttl = cc
  inject_seconds-keeps_ttl m m' (found none) h ttl = deadline-keeps_ttl m m' h ttl
  inject_seconds-keeps_ttl m m' (found (some i)) h ttl = elim (Bool-cases (is_zero i)) [
    | inl zero_there ↦ deadline-keeps_ttl m m' (rw zero_there at h) ttl
    | inr given ↦
        let same : m ≡ m' = (let h' = (rw given at h) in cc) in
        subst (IsPresent o laws ttl_path) same ttl
  ]

  -- The deadline is set, and the time to live is not lost.
  inject_deadline-IsPresent :
      (m m' : Fields)
      → inject_active_deadline_seconds o m ≡ found m'
      → IsPresent o laws ttl_path m
      → IsPresent o laws deadline_path m' × IsPresent o laws ttl_path m'
  unfolding inject_active_deadline_seconds
  inject_deadline-IsPresent m m' h ttl = (
    inject_seconds-IsPresent o laws "spec" ("activeDeadlineSeconds" ∷ [])
        wf_default_active_deadline_seconds m m' (o.nested_int64 m deadline_path) refl refl h,
    inject_seconds-keeps_ttl m m' (o.nested_int64 m deadline_path) h ttl,
  )

  try-eq-ok : {A : Type 0} (r : Reply A) (x : A) → try r ≡ ok x → r ≡ found x
  try-eq-ok (found y) x h = cc
  try-eq-ok (failure e) x h = cc

  invalid_workflow-eq-ok :
      (r : Result Fields) (m : Fields) → invalid_workflow docs o r ≡ ok m → r ≡ ok m
  invalid_workflow-eq-ok (ok n) m h = h
  invalid_workflow-eq-ok (err e) m h = cc
  invalid_workflow-eq-ok (panic s) m h = cc

  require_spec_same :
      (m n : Fields) (r : Reply (Option Value)) → require_spec docs o m r ≡ ok n → m ≡ n
  require_spec_same m n (found (some v)) h = cc
  require_spec_same m n (found none) h = cc
  require_spec_same m n (failure e) h = cc

  parse-Stamped :
      (a : Addon) (template name : String) (m : Fields)
      → ((m : Fields) → decode docs o template ≡ ok m → IsMeta m)
      → invalid_workflow docs o (parse docs o a template name) ≡ ok m
      → Stamped a name m
  unfolding parse
  parse-Stamped a template name m metadata e =
      let (n, decoded, e1) =
        >>=-eq-ok (decode docs o template) _
          (invalid_workflow-eq-ok (parse docs o a template name) m e) in
      let stamped = stamp-Stamped o laws docs a name n (metadata n decoded) in
      subst (Stamped a name) (require_spec_same _ _ _ e1) stamped

  -- Every object that `Install` goes on to submit is ready, if the template's metadata, where it has
  -- any, is a map.
  pub prepare-IsReady :
      (a : Addon) (wt : WorkflowType) (name : String) (wf : Fields)
      → ((m : Fields) → decode docs o wt.template ≡ ok m → IsMeta m)
      → prepare docs o a wt name ≡ ok wf
      → IsReady a name wf
  unfolding prepare
  prepare-IsReady a wt name wf metadata e =
      let (m, parsed, e1) =
        >>=-eq-ok (invalid_workflow docs o (parse docs o a wt.template name)) _ e in
      let (m1, params, e2) = >>=-eq-ok (configure_global_wf_parameters o a m) _ e1 in
      let (m2, artifacts, e3) = >>=-eq-ok (configure_workflow_artifacts docs o a m1) _ e2 in
      let (m3, ttls, e4) = >>=-eq-ok (try (inject_ttls o m2)) _ e3 in
      let (m4, deadlines, e5) = >>=-eq-ok (try (inject_active_deadline_seconds o m3)) _ e4 in
      let only1 = configure_global_wf_parameters-SpecOnly o laws a m m1 params in
      let only2 = configure_workflow_artifacts-SpecOnly o laws docs a m1 m2 artifacts in
      let only3 = inject_ttls-SpecOnly o laws m2 m3 (try-eq-ok _ _ ttls) in
      let only4 = inject_active_deadline_seconds-SpecOnly o laws m3 m4 (try-eq-ok _ _ deadlines) in
      let only =
        SpecOnly-trans m m1 m4 only1
          (SpecOnly-trans m1 m2 m4 only2 (SpecOnly-trans m2 m3 m4 only3 only4)) in
      let (deadline, ttl) =
        inject_deadline-IsPresent m3 m4 (try-eq-ok _ _ deadlines)
          (inject_ttls-IsPresent m2 m3 (try-eq-ok _ _ ttls)) in
      subst (IsReady a name) (cc) (
        labelled-IsReady a name m4
          (Stamped-SpecOnly a name m m4 only (parse-Stamped a wt.template name m metadata parsed))
          ttl deadline)
