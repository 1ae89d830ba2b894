-- ===== src/Updater/Race.antt =====
-- pkg/addon/addon_update.go, `UpdateStatus`: several calls at once, with no mutex between them. Each
-- of the two calls of the API server in the closure is a step of its own, so that anything may
-- happen between the read and the write.
pub mod Regress
use addon_manager.Common.{
  ℕ, String, ◌≡◌, refl, sym, ap, ◌∙◌, ◌≢◌, ◌⊎◌, inl, inr, Bool, true, false, arith, ◌==◌, eqb,
  if◌then◌else◌, eq_iff, Bool-cases, Reply, found, failure, Reply-cases, subst,
}
use addon_manager.Api.Phase.{
  Phase, unset, pending, succeeded, failed, validation_failed, deleting, delete_failed,
  delete_succeeded, is_completed, is_running,
}
use addon_manager.Api.Spec.{AddonStatus, NamespacedName}
use addon_manager.Api.Addon.{Addon}
use addon_manager.Cluster.{Kube}
use addon_manager.Updater.{Look, unread, held_back, has_read, key_of, is_stale, look, store}

-- Where a call of `UpdateStatus` stands in its closure: before the read, between the read of
-- `current` and the write, or behind the closure.
pub data Point : Type 0 where
  before_read after_closure : Point
  before_write : Addon → Point

pub record Writer : Type 0 where
  pub addon : Addon
  pub point : Point

unfoldable pub after_look : Look → Point
after_look (unread e) = after_closure
after_look (held_back current) = after_closure
after_look (has_read current) = before_write current

-- The API server and all calls under way, by number.
pub record Race (W : Type 0) : Type 0 where
  pub world : W
  pub writers : ℕ → Writer

abbrev pub turn : (ℕ → Writer) → ℕ → Writer → ℕ → Writer
turn writers i wr j = if eqb i j then wr else writers j

module _ {W : Type 0} (kube : Kube W) where
  -- The server's optimistic concurrency control, where `Later w w'` means that the server came
  -- from `w` to `w'`: a resource version names one state of an object for good, and an update of a
  -- status takes effect only on the version that it names. An update that answers with an error
  -- may have taken effect.
  pub record Optimistic (Later : W → W → Type 0) : Type 0 where
    pub later_refl : (w : W) → Later w w
    pub later_trans : (u v w : W) → Later u v → Later v w → Later u w
    pub get_named :
        (k : NamespacedName) (w : W) (a : Addon) → kube.get_addon k w ≡ found a → key_of a ≡ k
    pub versioned :
        (k : NamespacedName) (w w' : W) (a b : Addon)
        → Later w w'
        → kube.get_addon k w ≡ found a
        → kube.get_addon k w' ≡ found b
        → a.resource_version ≡ b.resource_version
        → a ≡ b
    pub update_later : (b : Addon) (w : W) → Later w (kube.update_addon_status b w).1
    pub update_writes :
        (b : Addon) (w : W) (k : NamespacedName) (after : Addon)
        → kube.get_addon k (kube.update_addon_status b w).1 ≡ found after
        → (kube.get_addon k w ≡ found after)
          ⊎ ((k ≡ key_of b)
              × (after.status ≡ b.status)
              × ((before : Addon) × (kube.get_addon k w ≡ found before)
                  × (before.resource_version ≡ b.resource_version)))

  -- One step of the writer `i`.
  pub data Moves (i : ℕ) : Race W → Race W → Type 0 where
    begins :
        {r : Race W} (a : Addon)
        → (r.writers i).point ≡ after_closure
        → Moves i r
            (record r { writers = turn r.writers i (record { addon = a; point = before_read }) })
    reads :
        {r : Race W}
        → (r.writers i).point ≡ before_read
        → Moves i r (record r {
          writers = turn r.writers i (record {
            addon = (r.writers i).addon;
            point = after_look (look kube (r.writers i).addon r.world);
          });
        })
    writes :
        {r : Race W} (current : Addon) (next : Point)
        → (r.writers i).point ≡ before_write current
        → (next ≡ before_read) ⊎ (next ≡ after_closure)
        → Moves i r (record {
          world = (store kube (r.writers i).addon current r.world).1;
          writers = turn r.writers i (record { addon = (r.writers i).addon; point = next });
        })

  -- Any interleaving of the writers with what the rest of the cluster does.
  pub data Runs (Later : W → W → Type 0) (s : Race W) : Race W → Type 0 where
    starts : Runs Later s s
    moves : {r t : Race W} (i : ℕ) → Runs Later s r → Moves i r t → Runs Later s t
    outside :
        {r : Race W} (w : W)
        → Runs Later s r
        → Later r.world w
        → Runs Later s (record r { world = w })
