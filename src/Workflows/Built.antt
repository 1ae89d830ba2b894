-- ===== src/Workflows/Built.antt =====
-- pkg/workflows/workflow_builder.go: what the builders of one process can and cannot build.
use addon_manager.Objects.Paths.{Apart, get_in, get_in-put_in_self}
use addon_manager.Validator.Workflow.{argo_gvk}
use addon_manager.Objects.Faithful.{Faithful}
use addon_manager.Common.{
  ℕ, zero, suc, String, ◌≡◌, refl, sym, ap, subst, ◌∙◌, inl, Bool, true, some, List, [], ◌∷◌, ◌++◌,
  map, arith, eq_iff, Result, ok, err, panic, >>=-eq-ok, ◌>>=◌, Assoc,
}
use addon_manager.Document.{Fields, Items, Value, nil, cons, obj, field, end, str, arr}
use addon_manager.Objects.{Objects}
use addon_manager.Workflows.Builder.{
  Builder, Template, add_script, build, delete_builder, maps, resources, scripts, Templates,
  new_builder, items, template_value, content_of, templates_path, delete_entry, delete_ns,
}

-- A call of the interface `WorkflowBuilder`.
pub data Call : Type 0 where
  with_scripts : Assoc String → Call
  with_resources : List String → Call
  to_delete to_build : Call

abbrev pub scripts_panic : String
scripts_panic =
    "interface conversion: interface {} is []map[string]interface {}, not []interface {}"

abbrev pub templates_in : Result (Builder × Fields) → Templates
templates_in (ok (b, m)) = b.templates
templates_in (err e) = maps []
templates_in (panic s) = maps []

-- The template whose one step is the next one.
abbrev pub deletion : Value
deletion = obj (
    field "name" (str "delete-wf") (
      field "steps"
        (arr (
          cons
            (arr (
              cons (obj (field "name" (str "delete-ns") (field "template" (str "delete-ns") end)))
                nil))
            nil))
        end))

-- The template that runs `kubectl delete all` on the namespace.
abbrev pub deletion_command : Value
deletion_command = obj (
    field "name" (str "delete-ns") (
      field "container"
        (obj (
          field "image" (str "expert360/kubectl-awscli:v1.11.2") (
            field "command" (arr (cons (str "sh") (cons (str "-c") nil))) (
              field "args"
                (arr
                  (cons (str "kubectl delete all -n {{workflow.parameters.namespace}} --all") nil))
                end))))
        end))

-- Pairs of these two.
pub data OnlyDeletes : Items → Type 0 where
  no_more : OnlyDeletes nil
  one_more : {xs : Items} → OnlyDeletes xs → OnlyDeletes (cons deletion (cons deletion_command xs))

module _ (o : Objects) (set_generate_name : String → Fields → Fields) where
  -- One call, in the mode that the process is in.
  unfoldable pub call : Call → Bool × Builder → Result (Bool × Builder)
  call (with_scripts m) (d, b) = do b' ← scripts m b; ok (d, b')
  call (with_resources texts) (d, b) = ok (d, resources texts b)
  call to_delete s = ok (delete_builder s)
  call to_build (d, b) = do (b', m) ← build o set_generate_name d b; ok (d, b')

  unfoldable pub calls : List Call → Bool × Builder → Result (Bool × Builder)
  unfolding call
  calls [] s = ok s
  calls (c ∷ cs) s = call c s >>= calls cs

  -- The templates are of the type that they were made with.
  abbrev IsMaps : Builder → Type 0
  IsMaps b = (ts : List Template) × (b.templates ≡ maps ts)

  scripts-IsMaps : (m : Assoc String) (b b' : Builder) → IsMaps b → scripts m b ≡ ok b' → IsMaps b'
  unfolding scripts add_script
  scripts-IsMaps [] b b' h e = let same : b ≡ b' = cc in subst IsMaps same h
  scripts-IsMaps ((name, source) ∷ more) b b' (ts, h) e = let e' = (rw (h, add_script) at e) in cc

  build-IsMaps :
      (d : Bool) (b b' : Builder) (m : Fields)
      → IsMaps b
      → build o set_generate_name d b ≡ ok (b', m)
      → IsMaps b'
  unfolding build
  build-IsMaps d b b' m (ts, h) e =
      let e' = (rw (h, build) at e) in
      (_, ap (λ (x : Result (Builder × Fields)). templates_in x) (sym e'))

  call-IsMaps :
      (c : Call) (d d' : Bool) (b b' : Builder) → IsMaps b → call c (d, b) ≡ ok (d', b') → IsMaps b'
  unfolding call resources delete_builder
  call-IsMaps (with_scripts m) d d' b b' h e =
      let (b1, ran, e1) = >>=-eq-ok (scripts m b) _ e in
      let same : b1 ≡ b' = cc in subst IsMaps same (scripts-IsMaps m b b1 h ran)
  call-IsMaps (with_resources texts) d d' b b' (ts, h) e =
      let same : resources texts b ≡ b' = cc in subst IsMaps same (ts, h)
  call-IsMaps to_delete d d' b b' h e = let same : b ≡ b' = cc in subst IsMaps same h
  call-IsMaps to_build d d' b b' h e =
      let ((b1, m), built, e1) = >>=-eq-ok (build o set_generate_name d b) _ e in
      let same : b1 ≡ b' = cc in subst IsMaps same (build-IsMaps d b b1 m h built)

  calls-IsMaps :
      (cs : List Call) (d d' : Bool) (b b' : Builder)
      → IsMaps b
      → calls cs (d, b) ≡ ok (d', b')
      → IsMaps b'
  unfolding calls
  calls-IsMaps [] d d' b b' h e = let same : b ≡ b' = cc in subst IsMaps same h
  calls-IsMaps (c ∷ cs) d d' b b' h e =
      let ((d1, b1), called, e1) = >>=-eq-ok (call c (d, b)) _ e in
      calls-IsMaps cs d1 d' b1 b' (call-IsMaps c d d1 b b1 h called) e1

  -- No builder ever takes a script: whatever has been called before on a builder from `New`,
  -- `Scripts` panics on every map that is not empty.
  pub scripts_never :
      (cs : List Call) (d d' : Bool) (b : Builder) (name source : String) (more : Assoc String)
      → calls cs (d, new_builder) ≡ ok (d', b)
      → scripts ((name, source) ∷ more) b ≡ panic scripts_panic
  unfolding scripts add_script new_builder
  scripts_never cs d d' b name source more e =
      let (ts, h) = calls-IsMaps cs d d' new_builder b ([], refl) e in rw (h, add_script) refl

  call-deletes : (c : Call) (d : Bool) (b b' : Builder) → call c (true, b) ≡ ok (d, b') → d ≡ true
  unfolding call delete_builder
  call-deletes (with_scripts m) d b b' e = let (b1, ran, e1) = >>=-eq-ok (scripts m b) _ e in cc
  call-deletes (with_resources texts) d b b' e = cc
  call-deletes to_delete d b b' e = cc
  call-deletes to_build d b b' e =
      let (built, ran, e1) = >>=-eq-ok (build o set_generate_name true b) _ e in cc

  calls-deletes :
      (cs : List Call) (d : Bool) (b b' : Builder) → calls cs (true, b) ≡ ok (d, b') → d ≡ true
  unfolding calls
  calls-deletes [] d b b' e = cc
  calls-deletes (c ∷ cs) d b b' e =
      let ((d1, b1), called, e1) = >>=-eq-ok (call c (true, b)) _ e in
      let still = call-deletes c d1 b b1 called in
      calls-deletes cs d b1 b' (subst (λ x. calls cs (x, b1) ≡ ok (d, b')) still e1)

  -- Pairs of the two templates that delete.
  abbrev pairs : ℕ → List Template
  pairs zero = []
  pairs (suc n) = delete_entry ∷ delete_ns ∷ pairs n

  pairs-append : (n : ℕ) → pairs n ++ delete_entry ∷ delete_ns ∷ [] ≡ pairs (suc n)
  pairs-append zero = refl
  pairs-append (suc n) = ap (λ (ts : List Template). delete_entry ∷ delete_ns ∷ ts) (pairs-append n)

  -- Nothing but such pairs has been built.
  abbrev HasPairs : Builder → Type 0
  HasPairs b = (n : ℕ) × (b.templates ≡ maps (pairs n))

  call-HasPairs :
      (c : Call) (d : Bool) (b b' : Builder)
      → HasPairs b
      → call c (true, b) ≡ ok (d, b')
      → HasPairs b'
  unfolding call resources delete_builder scripts add_script build
  call-HasPairs (with_scripts []) d b b' h e = let same : b ≡ b' = cc in subst HasPairs same h
  call-HasPairs (with_scripts ((name, source) ∷ more)) d b b' (n, h) e =
      let e' = (rw (h, add_script) at e) in cc
  call-HasPairs (with_resources texts) d b b' (n, h) e =
      let same : resources texts b ≡ b' = cc in subst HasPairs same (n, h)
  call-HasPairs to_delete d b b' h e = let same : b ≡ b' = cc in subst HasPairs same h
  call-HasPairs to_build d b b' (n, h) e =
      let ((b1, m), built, e1) = >>=-eq-ok (build o set_generate_name true b) _ e in
      let built' = (rw (h, build) at built) in
      let same : b1 ≡ b' = cc in
      subst HasPairs same (
        suc n,
        ap (λ (x : Result (Builder × Fields)). templates_in x) (sym built')
            ∙ ap (λ (x : List Template). maps x) (pairs-append n),
      )

  calls-HasPairs :
      (cs : List Call) (d : Bool) (b b' : Builder)
      → HasPairs b
      → calls cs (true, b) ≡ ok (d, b')
      → HasPairs b'
  unfolding calls
  calls-HasPairs [] d b b' h e = let same : b ≡ b' = cc in subst HasPairs same h
  calls-HasPairs (c ∷ cs) d b b' h e =
      let ((d1, b1), called, e1) = >>=-eq-ok (call c (true, b)) _ e in
      let still = call-deletes c d1 b b1 called in
      calls-HasPairs cs d b1 b' (call-HasPairs c d1 b b1 h called)
        (subst (λ x. calls cs (x, b1) ≡ ok (d, b')) still e1)

  OnlyDeletes-pairs : (b : Builder) (n : ℕ) → OnlyDeletes (items (map (template_value b) (pairs n)))
  unfolding template_value
  OnlyDeletes-pairs b zero = no_more
  OnlyDeletes-pairs b (suc n) = one_more (OnlyDeletes-pairs b n)

  module _ (laws : Faithful o)
      (set_generate_name_lem : (s : String) (m : Fields) (q : List String)
        → Apart ("metadata" ∷ []) q
        → get_in q (set_generate_name s m) ≡ get_in q m) where
    -- The generated name and the kind leave the templates as they are.
    built_templates :
        (b : Builder) (ts : List Template)
        → get_in templates_path
            (set_generate_name "-" (o.set_group_version_kind argo_gvk (content_of b ts)))
          ≡ some (arr (items (map (template_value b) ts)))
    unfolding content_of
    built_templates b ts =
        let m0 = content_of b ts in
        set_generate_name_lem "-" (o.set_group_version_kind argo_gvk m0) templates_path
          (inl (λ c. ground (arith, eq_iff "metadata" "spec")))
        ∙ laws.set_group_version_kind_lem argo_gvk m0 templates_path
            (inl (λ c. ground (arith, eq_iff "kind" "spec")))
            (inl (λ c. ground (arith, eq_iff "apiVersion" "spec")))
        ∙ get_in-put_in_self "spec" ("templates" ∷ []) (arr (items (map (template_value b) ts)))
            b.content

    build-pairs :
        (b2 : Builder) (n : ℕ)
        → b2.templates ≡ maps (pairs n)
        → (b3 : Builder) × (m : Fields) × (xs : Items) × (build o set_generate_name true b2
            ≡ ok (b3, m))
          × (get_in templates_path m ≡ some (arr (cons deletion (cons deletion_command xs))))
          × OnlyDeletes xs
    unfolding build template_value
    build-pairs b2 n h =
        let ts = pairs n ++ delete_entry ∷ delete_ns ∷ [] in
        let m = set_generate_name "-" (o.set_group_version_kind argo_gvk (content_of b2 ts)) in
        (
          record b2 { content = m; templates = maps ts },
          m,
          items (map (template_value b2) (pairs n)),
          rw (h, build) refl,
          built_templates b2 ts
              ∙ ap (λ (x : List Template). some (arr (items (map (template_value b2) x))))
                  (pairs-append n),
          OnlyDeletes-pairs b2 n,
        )

    -- The mode of one builder is that of all: once `Delete` has been called on any builder, and
    -- whatever is called on it after that, every builder that is made later and on which any calls
    -- return builds an object whose templates are, once or several times, the two that delete all
    -- that is in the namespace, and no others. The generated name is taken to change only metadata.
    pub delete_leaks :
        (cs1 cs2 : List Call) (d d1 d2 : Bool) (b b1 b2 : Builder)
        → calls (to_delete ∷ cs1) (d, b) ≡ ok (d1, b1)
        → calls cs2 (d1, new_builder) ≡ ok (d2, b2)
        → (b3 : Builder) × (m : Fields) × (xs : Items) × (build o set_generate_name d2 b2
            ≡ ok (b3, m))
          × (get_in templates_path m ≡ some (arr (cons deletion (cons deletion_command xs))))
          × OnlyDeletes xs
    unfolding calls call delete_builder new_builder
    delete_leaks cs1 cs2 d d1 d2 b b1 b2 e1 e2 =
        let on1 = calls-deletes cs1 d1 b b1 e1 in
        let e2' = subst (λ x. calls cs2 (x, new_builder) ≡ ok (d2, b2)) on1 e2 in
        let on2 = calls-deletes cs2 d2 new_builder b2 e2' in
        let (n, h) = calls-HasPairs cs2 d2 new_builder b2 (0, refl) e2' in
        subst
          (λ (x : Bool).
            (b3 : Builder) × (m : Fields) × (xs : Items) × (build o set_generate_name x b2
              ≡ ok (b3, m))
            × (get_in templates_path m ≡ some (arr (cons deletion (cons deletion_command xs))))
            × OnlyDeletes xs)
          (sym on2) (build-pairs b2 n h)
