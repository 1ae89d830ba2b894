-- ===== src/Updater/Mutex.antt =====
-- pkg/addon/addon_update.go: which mutex the status of an addon is written under.
use addon_manager.Common.{
  ℕ, suc, ◌<◌, String, ◌≡◌, refl, ap, ◌∙◌, ◌≢◌, inl, inr, none, some, List, [], ◌∷◌, arith, eq_iff,
  eq_refl, Option-cases, All, Assoc, lookup, remove, lookup-insert, lookup-remove, All-lookup,
  All-insert,
}
use addon_manager.Cluster.{Sys}
use addon_manager.Updater.{get_status_mutex, remove_status_wait_group, remove_from_cache}
use addon_manager.VersionCache.{has_version_name}

-- Every mutex in the map was made before the next one.
abbrev pub IsFresh : {W : Type 0} → Sys W → Type 0
IsFresh s = All {A = String × ℕ} (λ b. b.1 < s.next_mutex) s.status_map

All-weaken :
    (m : Assoc ℕ) (n : ℕ)
    → All {A = String × ℕ} (λ b. b.1 < n) m
    → All {A = String × ℕ} (λ b. b.1 < suc n) m
All-weaken [] n h = tt
All-weaken ((k, v) ∷ m) n (p, h) = (omega (arith, p), All-weaken m n h)

get_status_mutex-IsFresh :
    {W : Type 0} (name : String) (s : Sys W) → IsFresh s → IsFresh (get_status_mutex name s).1
unfolding get_status_mutex
get_status_mutex-IsFresh name s h = elim (Option-cases (lookup name s.status_map)) [
  | inl new ↦
      rw (new, get_status_mutex)
        (All-insert (λ b. b.1 < suc s.next_mutex) name s.next_mutex s.status_map (omega arith)
          (All-weaken s.status_map s.next_mutex h))
  | inr (m, old) ↦ rw (old, get_status_mutex) h
]

-- The calls of `getStatusMutex` for these names, in turn.
get_mutexes : {W : Type 0} → List String → Sys W → Sys W
get_mutexes [] s = s
get_mutexes (name ∷ names) s = get_mutexes names (get_status_mutex name s).1

get_status_mutex-lookup :
    {W : Type 0} (name : String) (s : Sys W)
    → lookup name (get_status_mutex name s).1.status_map ≡ some (get_status_mutex name s).0
unfolding get_status_mutex
get_status_mutex-lookup name s = elim (Option-cases (lookup name s.status_map)) [
  | inl new ↦
      rw (new, get_status_mutex)
        (lookup-insert name name s.next_mutex s.status_map ∙ rw (eq_refl name) refl)
  | inr (m, old) ↦ rw (old, get_status_mutex) old
]

get_status_mutex-keeps :
    {W : Type 0} (other name : String) (s : Sys W) (m : ℕ)
    → lookup name s.status_map ≡ some m
    → lookup name (get_status_mutex other s).1.status_map ≡ some m
unfolding get_status_mutex
get_status_mutex-keeps other name s m e = elim (Option-cases (lookup other s.status_map)) [
  | inl new ↦
      rw (new, get_status_mutex)
        (ground (arith, lookup-insert other name s.next_mutex s.status_map, eq_iff other name))
  | inr (k, old) ↦ rw (old, get_status_mutex) e
]

get_mutexes-keeps :
    {W : Type 0} (names : List String) (name : String) (s : Sys W) (m : ℕ)
    → lookup name s.status_map ≡ some m
    → lookup name (get_mutexes names s).status_map ≡ some m
unfolding get_mutexes
get_mutexes-keeps [] name s m e = e
get_mutexes-keeps (other ∷ names) name s m e =
    get_mutexes-keeps names name _ m (get_status_mutex-keeps other name s m e)

get_status_mutex_old :
    {W : Type 0} (name : String) (s : Sys W) (m : ℕ)
    → lookup name s.status_map ≡ some m
    → (get_status_mutex name s).0 ≡ m
unfolding get_status_mutex
get_status_mutex_old name s m e = rw (e, get_status_mutex) refl

-- While no addon is removed, all writers of one addon get one mutex: a later call returns what the
-- first one did, whatever mutexes were asked for between the two.
get_status_mutex_shared :
    {W : Type 0} (name : String) (names : List String) (s : Sys W)
    → (get_status_mutex name (get_mutexes names (get_status_mutex name s).1)).0
      ≡ (get_status_mutex name s).0
get_status_mutex_shared name names s =
    get_status_mutex_old name _ _
      (get_mutexes-keeps names name _ _ (get_status_mutex-lookup name s))

remove_from_cache-status_map :
    {W : Type 0} (name : String) (s : Sys W)
    → ((remove_from_cache name s).status_map ≡ remove name s.status_map)
      × ((remove_from_cache name s).next_mutex ≡ s.next_mutex)
unfolding remove_from_cache remove_status_wait_group
remove_from_cache-status_map name s = elim (Option-cases (has_version_name name s.cache)) [
  | inl missing ↦ rw (missing, remove_from_cache) (refl, refl)
  | inr (v, hit) ↦ rw (hit, remove_from_cache) (refl, refl)
]

get_status_mutex_new :
    {W : Type 0} (name : String) (s : Sys W)
    → lookup name s.status_map ≡ none
    → (get_status_mutex name s).0 ≡ s.next_mutex
unfolding get_status_mutex
get_status_mutex_new name s e = rw (e, get_status_mutex) refl

-- Removing an addon from the cache drops its mutex even if a writer holds it: the next writer of
-- the same addon gets another one, and is not kept out.
pub remove_from_cache_splits :
    {W : Type 0} (name : String) (s : Sys W) (m : ℕ)
    → IsFresh s
    → lookup name s.status_map ≡ some m
    → (get_status_mutex name (remove_from_cache name s)).0 ≢ m
remove_from_cache_splits name s m h e same =
    let (removed, next) = remove_from_cache-status_map name s in
    let gone : lookup name (remove_from_cache name s).status_map ≡ none =
      ap (lookup name) removed ∙ lookup-remove name name s.status_map ∙ rw (eq_refl name) refl in
    let new = get_status_mutex_new name (remove_from_cache name s) gone in
    let below = All-lookup (λ b. b.1 < s.next_mutex) name s.status_map e h in
    omega (arith, new, next, same, below)
