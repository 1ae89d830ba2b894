-- ===== src/Tests/RaceWitness.antt =====
-- A server that takes one write, and a run of two calls of `UpdateStatus`.
use addon_manager.Common.{
  String, ◌≡◌, refl, sym, ap, ◌∙◌, ◌≢◌, ◌⊎◌, inl, inr, Bool, true, false, ◌&&◌, arith, ◌==◌, Option,
  none, some, eq_iff, Reply, found, failure, not_found, conflict, [],
}
use addon_manager.Api.Phase.{pending, succeeded}
use addon_manager.Api.Spec.{AddonStatus, NamespacedName}
use addon_manager.Api.Addon.{Addon}
use addon_manager.Cluster.{Kube}
use addon_manager.Updater.{key_of, look, is_stale, store}
use addon_manager.Updater.Race.{
  Point, after_closure, Writer, after_look, Race, Optimistic, begins, reads, writes, starts, moves,
}
use addon_manager.Updater.Race.Regress.{no_move_regresses}
use addon_manager.Tests.Fixtures.{addon_of, kube, no_workflow, sum, web}

-- The status that was written, if one was.
abbrev World : Type 0
World = Option AddonStatus

abbrev kept : World → Addon
kept none = record (web succeeded) { resource_version = "1" }
kept (some status) = record (web succeeded) { resource_version = "2"; status = status }

abbrev serves : NamespacedName → World → Bool → Reply Addon
serves k w true = found (kept w)
serves k w false = failure (record { text = "no such addon"; reason = not_found })

abbrev is_web : NamespacedName → Bool
is_web k = (k.namespace == "system") && (k.name == "web")

abbrev takes : Addon → World → Bool → Reply Addon × World
takes b none true = (found b, some b.status)
takes b w _ = (failure (record { text = "conflict"; reason = conflict }), w)

abbrev server : Kube World
server = record {
  get_addon = λ k w. serves k w (is_web k);
  update_addon = λ a w. (failure (record { text = "conflict"; reason = conflict }), w);
  update_addon_status = λ b w. takes b w (is_web (key_of b) && (b.resource_version == "1"));
  contains_finalizer = kube.contains_finalizer;
  add_finalizer = kube.add_finalizer;
  remove_finalizer = kube.remove_finalizer;
  as_selector = kube.as_selector;
  get_workflow = λ key w. failure (record { text = "gone"; reason = not_found });
  list_workflows = λ ns selector w. found [];
  delete_workflow = λ key w. (none, w);
  list_secrets = λ ns w. found [];
  list_objects = λ kind ns selector w. found [];
}

abbrev Later : World → World → Type 0
Later none w = Unit {0}
Later (some s) w = w ≡ some s

Later-refl : (w : World) → Later w w
Later-refl none = tt
Later-refl (some s) = refl

Later-trans : (u v w : World) → Later u v → Later v w → Later u w
Later-trans none v w a b = tt
Later-trans (some s) none w a b = cc
Later-trans (some s) (some t) w a b = b ∙ a

abbrev web_key : NamespacedName
web_key = record { namespace = "system"; name = "web" }

is_web-key : (k : NamespacedName) → is_web k ≡ true → k ≡ web_key
is_web-key k e =
    let n : k.namespace ≡ "system" =
      ground (arith, eq_iff k.namespace "system", eq_iff k.name "web") in
    let m : k.name ≡ "web" = ground (arith, eq_iff k.namespace "system", eq_iff k.name "web") in
    λ i. record { namespace = n i; name = m i }

serves-named :
    (k : NamespacedName) (w : World) (a : Addon) (b : Bool)
    → is_web k ≡ b
    → serves k w b ≡ found a
    → key_of a ≡ k
serves-named k w a false e got = absurd (cc)
serves-named k none a true e got =
    let same : kept none ≡ a = cc in ap key_of (sym same) ∙ sym (is_web-key k e)
serves-named k (some s) a true e got =
    let same : kept (some s) ≡ a = cc in ap key_of (sym same) ∙ sym (is_web-key k e)

serves-versioned :
    (k : NamespacedName) (w w' : World) (a b : Addon) (t : Bool)
    → Later w w'
    → serves k w t ≡ found a
    → serves k w' t ≡ found b
    → a.resource_version ≡ b.resource_version
    → a ≡ b
serves-versioned k w w' a b false later got got' e = cc
serves-versioned k none none a b true later got got' e = cc
serves-versioned k none (some s) a b true later got got' e = ground (arith, eq_iff "1" "2")
serves-versioned k (some t) none a b true later got got' e = cc
serves-versioned k (some t) (some s) a b true later got got' e = cc

takes-Later : (b : Addon) (w : World) (t : Bool) → Later w (takes b w t).1
takes-Later b none t = tt
takes-Later b (some s) true = refl
takes-Later b (some s) false = refl

takes-writes :
    (b : Addon) (w : World) (k : NamespacedName) (after : Addon) (t u : Bool)
    → is_web k ≡ u
    → (is_web (key_of b) && (b.resource_version == "1")) ≡ t
    → serves k (takes b w t).1 u ≡ found after
    → (serves k w u ≡ found after)
      ⊎ ((k ≡ key_of b)
          × (after.status ≡ b.status)
          × ((before : Addon) × (serves k w u ≡ found before)
              × (before.resource_version ≡ b.resource_version)))
takes-writes b none k after false u e e' got = inl got
takes-writes b (some s) k after false u e e' got = inl got
takes-writes b (some s) k after true u e e' got = inl got
takes-writes b none k after true false e e' got = inl got
takes-writes b none k after true true e e' got =
    let mine : is_web (key_of b) ≡ true = ground arith in
    let version : b.resource_version ≡ "1" = ground (arith, eq_iff b.resource_version "1") in
    let there : kept (some b.status) ≡ after = cc in
    inr (
      is_web-key k e ∙ sym (is_web-key (key_of b) mine),
      ap (λ (x : Addon). x.status) (sym there),
      (kept none, refl, sym version),
    )

server-Optimistic : Optimistic server Later
server-Optimistic = record {
  later_refl = Later-refl;
  later_trans = Later-trans;
  get_named = λ k w a. serves-named k w a (is_web k) refl;
  versioned = λ k w w' a b. serves-versioned k w w' a b (is_web k);
  update_later = λ b w. takes-Later b w (is_web (key_of b) && (b.resource_version == "1"));
  update_writes = λ b w k after. takes-writes b w k after _ (is_web k) refl refl;
}

-- A new cycle of the addon: its checksum is another one.
abbrev again : Addon
again = addon_of "1.0" [] no_workflow "new" pending pending

abbrev writer_at : Point → Writer
writer_at point = record { addon = again; point = point }

abbrev idle : Race World
idle = record { world = none; writers = λ j. writer_at after_closure }

no_move_regresses_example : ◌≢◌ {A = String} sum "new"
unfolding look store is_stale after_look
no_move_regresses_example =
    no_move_regresses server Later idle _ 1 _ server-Optimistic (λ j. refl)
      (moves 1 (moves 1 starts (begins again refl)) (reads refl))
      (writes (kept none) after_closure refl (inr refl)) web_key (kept none)
      (record (kept none) { resource_version = "2"; status = again.status }) refl refl refl refl
