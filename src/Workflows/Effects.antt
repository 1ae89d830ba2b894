-- ===== src/Workflows/Effects.antt =====
-- pkg/workflows/workflow.go: what `Install` changes.
use addon_manager.Workflows.Parameters.{
  nil_map_text, spec_map, configure_global_wf_parameters, with_parameters, default_field,
}
use addon_manager.Common.{
  ◌+++◌, String, ◌≡◌, refl, sym, ap, ◌⊎◌, inl, inr, none, Reason, unknown, not_found,
  already_exists, conflict, Error, ok, Reply, found, failure, Reply-cases, Result-cases,
}
use addon_manager.Api.Addon.{Addon}
use addon_manager.Api.Spec.{WorkflowType}
use addon_manager.Cluster.{record_event, Sys, ended, state_of, unwound, memory_of}
use addon_manager.Document.{Documents, Fields, get_field}
use addon_manager.Objects.{Objects}
use addon_manager.Objects.Faithful.{Faithful, IsMeta}
use addon_manager.Workflows.Install.{
  WorkflowClient, created, decode, install_workflow, prepare, submit, submit_converted,
  submit_owned, submit_prepared, work_flow_from_unstructured, parse,
}
use addon_manager.Workflows.Submitted.{IsReady, prepare-IsReady}

module _ (docs : Documents) (o : Objects) {W F : Type 0} (client : WorkflowClient W F) where
  -- One call of `Create` with this workflow, and nothing else but, perhaps, the event that says so.
  pub record Creates (ns name : String) (g : F) (s s' : Sys W) : Type 0 where
    pub world : s'.world ≡ (client.create_workflow ns g s.world).1
    pub cache : s'.cache ≡ s.cache
    pub status_map : s'.status_map ≡ s.status_map
    pub next_mutex : s'.next_mutex ≡ s.next_mutex
    pub events :
        (s'.events ≡ s.events)
        ⊎ (s'.events
            ≡ (record_event "Normal" "Created"
                ("Created Workflow " +++ ns +++ "/" +++ name)
                s).events)

  refused-Creates :
      (ns name : String) (g : F) (s : Sys W) (f : Error) (w : W) (reason : Reason)
      → f.reason ≡ reason
      → client.create_workflow ns g s.world ≡ (failure f, w)
      → Creates ns name g s (created client ns name (failure f, w) s).1
  unfolding created
  refused-Creates ns name g s f w already_exists why e =
      rw (why, created)
        (record {
          world = ap (λ (p : Reply F × W). p.1) (sym e);
          cache = refl;
          status_map = refl;
          next_mutex = refl;
          events = inl refl;
        })
  refused-Creates ns name g s f w unknown why e =
      rw (why, created)
        (record {
          world = ap (λ (p : Reply F × W). p.1) (sym e);
          cache = refl;
          status_map = refl;
          next_mutex = refl;
          events = inl refl;
        })
  refused-Creates ns name g s f w not_found why e =
      rw (why, created)
        (record {
          world = ap (λ (p : Reply F × W). p.1) (sym e);
          cache = refl;
          status_map = refl;
          next_mutex = refl;
          events = inl refl;
        })
  refused-Creates ns name g s f w conflict why e =
      rw (why, created)
        (record {
          world = ap (λ (p : Reply F × W). p.1) (sym e);
          cache = refl;
          status_map = refl;
          next_mutex = refl;
          events = inl refl;
        })

  created-Creates :
      (ns name : String) (g : F) (s : Sys W) (r : Reply F × W)
      → client.create_workflow ns g s.world ≡ r
      → Creates ns name g s (created client ns name r s).1
  unfolding created
  created-Creates ns name g s (found wf, w) e = record {
    world = ap (λ (p : Reply F × W). p.1) (sym e);
    cache = refl;
    status_map = refl;
    next_mutex = refl;
    events = inr refl;
  }
  created-Creates ns name g s (failure f, w) e = refused-Creates ns name g s f w f.reason refl e

  -- The object was converted to a workflow of the addon, and that was sent.
  pub record Sends (a : Addon) (m : Fields) (s s' : Sys W) : Type 0 where
    pub converted : F
    pub conversion : work_flow_from_unstructured client m ≡ found converted
    pub owned : F
    pub owner : client.set_controller_reference a converted ≡ found owned
    pub creates : Creates (o.get_namespace m) (o.get_name m) owned s s'

  submit-cases :
      (a : Addon) (m : Fields) (s : Sys W)
      → ((submit docs o client a m s).1 ≡ s) ⊎ Sends a m s (submit docs o client a m s).1
  unfolding submit submit_converted submit_owned
  submit-cases a m s = elim (Reply-cases (work_flow_from_unstructured client m)) [
    | inr (e, bad) ↦ rw (bad, submit, submit_converted) (inl refl)
    | inl (f, converts) ↦ elim (Reply-cases (client.set_controller_reference a f)) [
      | inr (e, bad) ↦ rw (converts, submit, submit_converted) (rw (bad, submit_owned) (inl refl))
      | inl (g, owns) ↦
          rw (converts, submit, submit_converted)
            (rw (owns, submit_owned)
              (inr (record {
                converted = f;
                conversion = converts;
                owned = g;
                owner = owns;
                creates = created-Creates (o.get_namespace m) (o.get_name m) g s _ refl;
              })))
    ]
  ]

  -- Whether it returns nil, an error, or panics, `Install` either changes nothing at all, or it has
  -- made one call of `Create`, in the addon's namespace, of a workflow that the addon owns and that
  -- was converted from a ready object, and has changed nothing else but that the event of the
  -- creation may have been recorded. The template's metadata, where it has any, is a map.
  pub install_workflow-cases :
      (laws : Faithful o) (a : Addon) (name : String) (wt : WorkflowType) (s : Sys W)
      → ((m : Fields) → decode docs o wt.template ≡ ok m → IsMeta m)
      → let s' = state_of (install_workflow docs o client a name wt s) in
        (s' ≡ s) ⊎ ((m : Fields) × IsReady docs o laws a name m × Sends a m s s')
  unfolding install_workflow submit_prepared
  install_workflow-cases laws a name wt s metadata =
      elim (Result-cases (prepare docs o a wt name)) [
        | inr (inr (text, bad)) ↦ rw (bad, install_workflow, submit_prepared) (inl refl)
        | inr (inl (e, bad)) ↦ rw (bad, install_workflow, submit_prepared) (inl refl)
        | inl (m, prepared) ↦
            let ready = prepare-IsReady docs o laws a wt name m metadata prepared in
            rw (prepared, install_workflow, submit_prepared)
              (elim (submit-cases a m s) [
                | inl none_sent ↦ inl none_sent
                | inr sent ↦ inr (m, ready, sent)
              ])
      ]

  submit-memory :
      (a : Addon) (m : Fields) (s : Sys W) → memory_of (submit docs o client a m s).1 ≡ memory_of s
  submit-memory a m s = elim (submit-cases a m s) [
    | inl none_sent ↦ ap memory_of none_sent
    | inr sent ↦ λ i. (sent.creates.cache i, sent.creates.status_map i, sent.creates.next_mutex i)
  ]

  pub install_workflow-memory :
      (a : Addon) (name : String) (wt : WorkflowType) (s : Sys W)
      → memory_of (state_of (install_workflow docs o client a name wt s)) ≡ memory_of s
  unfolding install_workflow submit_prepared
  install_workflow-memory a name wt s = elim (Result-cases (prepare docs o a wt name)) [
    | inr (inr (text, bad)) ↦ rw (bad, install_workflow, submit_prepared) refl
    | inr (inl (e, bad)) ↦ rw (bad, install_workflow, submit_prepared) refl
    | inl (m, prepared) ↦ rw (prepared, install_workflow, submit_prepared) (submit-memory a m s)
  ]

  -- A workflow that is there already counts as submitted: `Install` returns nil and records no event.
  pub install_workflow_again :
      (a : Addon) (name : String) (wt : WorkflowType) (s : Sys W) (m : Fields) (f g : F) (e : Error)
      (w : W)
      → prepare docs o a wt name ≡ ok m
      → work_flow_from_unstructured client m ≡ found f
      → client.set_controller_reference a f ≡ found g
      → client.create_workflow (o.get_namespace m) g s.world ≡ (failure e, w)
      → e.reason ≡ already_exists
      → install_workflow docs o client a name wt s ≡ ended none (record s { world = w })
  unfolding install_workflow submit_prepared submit submit_converted submit_owned created
  install_workflow_again a name wt s m f g e w prepared converts owns there why =
      rw (prepared, install_workflow, submit_prepared)
        (rw (converts, submit, submit_converted)
          (rw (owns, submit_owned) (rw (there, created) (rw why refl))))

  -- A template whose `spec` is there but is no map, null included, makes `Install` panic; nothing has
  -- been sent.
  pub install_workflow_panics :
      (a : Addon) (name : String) (wt : WorkflowType) (s : Sys W) (m : Fields)
      → parse docs o a wt.template name ≡ ok m
      → spec_map (get_field "spec" m) ≡ none
      → install_workflow docs o client a name wt s ≡ unwound nil_map_text s
  unfolding install_workflow submit_prepared prepare configure_global_wf_parameters with_parameters
      default_field
  install_workflow_panics a name wt s m parsed no_spec =
      rw (parsed, install_workflow, submit_prepared) (rw (no_spec, default_field) refl)
