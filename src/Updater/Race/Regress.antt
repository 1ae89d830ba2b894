-- ===== src/Updater/Race/Regress.antt =====
-- pkg/addon/addon_update.go, `UpdateStatus`: what interleaved writes cannot do.
use addon_manager.Common.{
  ℕ, ◌≡◌, refl, sym, ap, subst, ◌∙◌, ◌≢◌, inl, inr, true, false, arith, eqb, eq_iff, Bool-cases,
  found, Reply-cases,
}
use addon_manager.Api.Phase.{
  Phase, unset, pending, succeeded, failed, validation_failed, deleting, delete_failed,
  delete_succeeded, is_completed, is_running,
}
use addon_manager.Api.Spec.{AddonStatus, NamespacedName}
use addon_manager.Api.Addon.{Addon}
use addon_manager.Cluster.{Kube}
use addon_manager.Updater.{key_of, is_stale, look, store}
use addon_manager.Updater.Race.{
  after_closure, before_write, Writer, after_look, Race, turn, Optimistic, Moves, begins, reads,
  writes, Runs, starts, moves, outside,
}

completed-running : (p : Phase) → is_completed p ≡ true → is_running p ≢ true
completed-running unset c e = cc
completed-running pending c e = cc
completed-running succeeded c e = cc
completed-running failed c e = cc
completed-running validation_failed c e = cc
completed-running deleting c e = cc
completed-running delete_failed c e = cc
completed-running delete_succeeded c e = cc

stale_clash :
    (before a : Addon)
    → is_completed before.status.lifecycle.installed ≡ true
    → is_running a.status.lifecycle.installed ≡ true
    → before.status.checksum ≡ a.status.checksum
    → is_stale before a ≢ false
unfolding is_stale
stale_clash before a terminal running equal fresh =
    ground (arith, eq_iff before.status.checksum a.status.checksum)

module _ {W : Type 0} (kube : Kube W) where
  -- What a call that is about to write has read is a state that the server was in.
  Recent : (W → W → Type 0) → W → Writer → Type 0
  Recent Later w wr =
      (current : Addon)
      → wr.point ≡ before_write current
      → (w0 : W) × Later w0 w
        × (kube.get_addon (key_of wr.addon) w0 ≡ found current)
        × (is_stale current wr.addon ≡ false)

  look-Recent :
      (Later : W → W → Type 0) (law : Optimistic kube Later) (a : Addon) (w : W)
      → Recent Later w (record { addon = a; point = after_look (look kube a w) })
  unfolding Recent look after_look
  look-Recent Later law a w current e = elim (Reply-cases (kube.get_addon (key_of a) w)) [
    | inr (f, bad) ↦ absurd (ground arith)
    | inl (c, got) ↦ elim (Bool-cases (is_stale c a)) [
      | inl stale ↦ absurd (ground arith)
      | inr fresh ↦
          let same : c ≡ current = ground arith in
          subst
            (λ (x : Addon).
              (w0 : W) × Later w0 w
              × (kube.get_addon (key_of a) w0 ≡ found x)
              × (is_stale x a ≡ false))
            same (w, law.later_refl w, got, fresh)
    ]
  ]

  Recent-later :
      (Later : W → W → Type 0) (law : Optimistic kube Later) (w w' : W) (wr : Writer)
      → Later w w'
      → Recent Later w wr
      → Recent Later w' wr
  unfolding Recent
  Recent-later Later law w w' wr later h current e =
      let (w0, before, got, fresh) = h current e in
      (w0, law.later_trans w0 w w' before later, got, fresh)

  Recent-turn :
      (Later : W → W → Type 0) (w : W) (writers : ℕ → Writer) (i : ℕ) (wr : Writer)
      → Recent Later w wr
      → ((j : ℕ) → Recent Later w (writers j))
      → (j : ℕ) → Recent Later w (turn writers i wr j)
  Recent-turn Later w writers i wr new old j = elim (Bool-cases (eqb i j)) [
    | inl same ↦ rw same new
    | inr apart ↦ rw apart (old j)
  ]

  Moves-Recent :
      (Later : W → W → Type 0)
      → Optimistic kube Later
      → (i : ℕ) (r t : Race W) → Moves kube i r t
      → ((j : ℕ) → Recent Later r.world (r.writers j))
      → (j : ℕ) → Recent Later t.world (t.writers j)
  unfolding Recent store
  Moves-Recent Later law i r t (begins a idle) old =
      Recent-turn Later r.world r.writers i _ (λ current e. absurd (cc)) old
  Moves-Recent Later law i r t (reads e) old =
      Recent-turn Later r.world r.writers i _ (look-Recent Later law (r.writers i).addon r.world)
        old
  Moves-Recent Later law i r t (writes current next e where_to) old =
      Recent-turn Later t.world r.writers i _ (λ c e'. ground (arith, where_to))
        (λ j.
          Recent-later Later law r.world t.world (r.writers j)
            (law.update_later (record current { status = (r.writers i).addon.status }) r.world)
            (old j))

  Runs-Recent :
      (Later : W → W → Type 0)
      → Optimistic kube Later
      → (s r : Race W) → Runs kube Later s r
      → ((j : ℕ) → (s.writers j).point ≡ after_closure)
      → (j : ℕ) → Recent Later r.world (r.writers j)
  unfolding Recent
  Runs-Recent Later law s r starts idle j = λ current e. let h = idle j in absurd (cc)
  Runs-Recent Later law s r (moves {r = q} i before step) idle j =
      Moves-Recent Later law i q r step (Runs-Recent Later law s q before idle) j
  Runs-Recent Later law s r (outside {r = q} w before later) idle j =
      Recent-later Later law q.world w (q.writers j) later (Runs-Recent Later law s q before idle j)

  -- A write between two states of the server, by a call whose reading was a state of the server.
  store_regresses :
      (Later : W → W → Type 0)
      → Optimistic kube Later
      → (w : W) (a current : Addon)
      → Recent Later w (record { addon = a; point = before_write current })
      → (k : NamespacedName) (before after : Addon) → kube.get_addon k w ≡ found before
      → kube.get_addon k (store kube a current w).1 ≡ found after
      → is_completed before.status.lifecycle.installed ≡ true
      → is_running after.status.lifecycle.installed ≡ true
      → before.status.checksum ≢ after.status.checksum
  unfolding Recent store is_stale
  store_regresses Later law w a current recent k before after got wrote terminal running same =
      elim (law.update_writes (record current { status = a.status }) w k after wrote) [
        | inl kept ↦
            let unchanged : before ≡ after = cc in
            completed-running before.status.lifecycle.installed terminal (rw unchanged running)
        | inr (key, status, (named, there, version)) ↦
            let (w0, later, read, fresh) = recent current refl in
            let k' : key_of a ≡ k = sym (law.get_named (key_of a) w0 current read) ∙ sym key in
            let at_k = (rw k' at read) in
            let one : named ≡ before = cc in
            let version' : before.resource_version ≡ current.resource_version =
              ap (λ (x : Addon). x.resource_version) (sym one) ∙ version in
            let read_now : current ≡ before =
              law.versioned k w0 w current before later at_k got (sym version') in
            let fresh' : is_stale before a ≡ false =
              subst (λ (x : Addon). is_stale x a ≡ false) read_now fresh in
            let moving : is_running a.status.lifecycle.installed ≡ true =
              ap (λ (x : AddonStatus). is_running x.lifecycle.installed) (sym status) ∙ running in
            let equal : before.status.checksum ≡ a.status.checksum =
              same ∙ ap (λ (x : AddonStatus). x.checksum) status in
            stale_clash before a terminal moving equal fresh'
      ]

  -- Calls of `UpdateStatus` that no mutex keeps apart, interleaved in any way with what the rest of
  -- the cluster does, under the server's optimistic concurrency control: no step of any of them
  -- turns a terminal status of an addon into a running one of the same checksum.
  pub no_move_regresses :
      (Later : W → W → Type 0) (s r : Race W) (i : ℕ) (t : Race W)
      → Optimistic kube Later
      → ((j : ℕ) → (s.writers j).point ≡ after_closure)
      → Runs kube Later s r
      → Moves kube i r t
      → (k : NamespacedName) (before after : Addon) → kube.get_addon k r.world ≡ found before
      → kube.get_addon k t.world ≡ found after
      → is_completed before.status.lifecycle.installed ≡ true
      → is_running after.status.lifecycle.installed ≡ true
      → before.status.checksum ≢ after.status.checksum
  unfolding Recent
  no_move_regresses Later s r i t law idle run (begins a e) k before after b c terminal running =
      let unchanged : before ≡ after = cc in
      absurd (completed-running before.status.lifecycle.installed terminal (rw unchanged running))
  no_move_regresses Later s r i t law idle run (reads e) k before after b c terminal running =
      let unchanged : before ≡ after = cc in
      absurd (completed-running before.status.lifecycle.installed terminal (rw unchanged running))
  no_move_regresses Later s r i t law idle run (writes current next e _) k before after b c terminal
        running =
      store_regresses Later law r.world (r.writers i).addon current
        (λ x e'. Runs-Recent Later law s r run idle i x (e ∙ e')) k before after b c terminal
        running
