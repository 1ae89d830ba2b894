-- ===== src/Validator/Visited.antt =====
-- pkg/addon/addon_validator.go, `resolveDependencies`: the visited set and the cached keys.
use addon_manager.Common.{
  ℕ, zero, suc, ◌≤◌, ◌<◌, String, ◌≡◌, refl, ◌∙◌, ◌⊎◌, inl, inr, Bool, none, some, List, [], ◌∷◌,
  ◌++◌, arith, ◌==◌, eq_iff, eq_refl, Bool-cases, Option-cases, Result, ok, >>=-eq-ok, length,
  Assoc, lookup, insert, remove, lookup-insert, lookup-remove,
}
use addon_manager.VersionCache.{
  Version, Semver, Cache, get_version, get_version_in, get_versions, resolve_version, first_match,
}
use addon_manager.Validator.Dependencies.{version_key, resolve_each, resolve}
use addon_manager.Validator.Soundness.{resolve_each-cons}

abbrev pub Has : String → List String → Type 0
Has k [] = ⊥
Has k (x ∷ xs) = (x ≡ k) ⊎ Has k xs

Has-append_left : (k : String) (xs ys : List String) → Has k xs → Has k (xs ++ ys)
Has-append_left k (x ∷ xs) ys (inl e) = inl e
Has-append_left k (x ∷ xs) ys (inr h) = inr (Has-append_left k xs ys h)
Has-append_left k [] ys h = elim h [ ]

Has-append_right : (k : String) (xs ys : List String) → Has k ys → Has k (xs ++ ys)
Has-append_right k [] ys h = h
Has-append_right k (x ∷ xs) ys h = inr (Has-append_right k xs ys h)

abbrev pub keys_in : Assoc Version → List String
keys_in [] = []
keys_in ((k, v) ∷ m) = version_key v ∷ keys_in m

-- The keys `name:version` of all cached versions.
abbrev pub cached_keys : Cache → List String
cached_keys [] = []
cached_keys ((p, m) ∷ c) = keys_in m ++ cached_keys c

-- How many of the keys are not visited.
pub free : List String → Assoc Version → ℕ
free [] visited = 0
free (k ∷ ks) visited = elim (lookup k visited) [
  | none ↦ suc (free ks visited)
  | some _ ↦ free ks visited
]

pub free-le-length : (ks : List String) (x : Assoc Version) → free ks x ≤ length ks
unfolding free
free-le-length [] x = omega arith
free-le-length (k ∷ ks) x = ground (arith, free-le-length ks x)

abbrev pub SameKeys : Assoc Version → Assoc Version → Type 0
SameKeys x y = (k : String) → lookup k x ≡ lookup k y

pub free-SameKeys : (ks : List String) (x y : Assoc Version) → SameKeys x y → free ks x ≡ free ks y
unfolding free
free-SameKeys [] x y h = refl
free-SameKeys (k ∷ ks) x y h = ground (arith, h k, free-SameKeys ks x y h)

pub free-insert-le :
    (k : String) (v : Version) (ks : List String) (x : Assoc Version)
    → free ks (insert k v x) ≤ free ks x
unfolding free
free-insert-le k v [] x = omega arith
free-insert-le k v (j ∷ ks) x = ground (arith, lookup-insert k j v x, free-insert-le k v ks x)

pub free-insert-lt :
    (k : String) (v : Version) (ks : List String) (x : Assoc Version)
    → Has k ks
    → lookup k x ≡ none
    → free ks (insert k v x) < free ks x
unfolding free
free-insert-lt k v [] x h e = elim h [ ]
free-insert-lt k v (j ∷ ks) x (inl same) e =
    ground (arith, eq_refl k, lookup-insert k k v x, free-insert-le k v ks x)
free-insert-lt k v (j ∷ ks) x (inr h) e =
    ground (arith, lookup-insert k j v x, free-insert-lt k v ks x h e)

lookup-Has :
    (k : String) (m : Assoc Version) (v : Version)
    → lookup k m ≡ some v
    → Has (version_key v) (keys_in m)
unfolding lookup
lookup-Has k [] v e = cc
lookup-Has k ((j, w) ∷ m) v e = elim (Bool-cases (j == k)) [
  | inl same ↦ inl (ground arith)
  | inr other ↦ inr (lookup-Has k m v (ground arith))
]

lookup-Has_outer :
    (k p : String) (c : Cache) (m : Assoc Version)
    → lookup p c ≡ some m
    → Has k (keys_in m)
    → Has k (cached_keys c)
unfolding lookup
lookup-Has_outer k p [] m e h = cc
lookup-Has_outer k p ((j, w) ∷ c) m e h = elim (Bool-cases (j == p)) [
  | inl same ↦
      let found : w ≡ m = ground arith in Has-append_left k (keys_in w) (cached_keys c) (rw found h)
  | inr other ↦
      Has-append_right k (keys_in w) (cached_keys c) (lookup-Has_outer k p c m (ground arith) h)
]

module _ {V : Type 0} (semver : Semver V) where
  first_match-Has :
      (check : V → Bool) (m : Assoc Version) (v : Version)
      → first_match semver check m ≡ some v
      → Has (version_key v) (keys_in m)
  unfolding first_match
  first_match-Has check [] v e = cc
  first_match-Has check ((key, w) ∷ m) v e = elim (Option-cases (semver.new_version key)) [
    | inl bad ↦ inr (first_match-Has check m v (rw (bad, first_match) at e))
    | inr (sv, parsed) ↦ elim (Bool-cases (check sv)) [
      | inl fits ↦ inl (ground arith)
      | inr not_fits ↦ inr (first_match-Has check m v (ground arith))
    ]
  ]

  get_version_in-Has :
      (m : Assoc Version) (k : String) (v : Version)
      → get_version_in semver m k ≡ some v
      → Has (version_key v) (keys_in m)
  unfolding get_version_in resolve_version
  get_version_in-Has m k v e = elim (Option-cases (lookup k m)) [
    | inr (w, exact) ↦ lookup-Has k m v (ground arith)
    | inl inexact ↦ elim (Option-cases (semver.new_constraint k)) [
      | inl bad ↦ absurd (ground arith)
      | inr (check, parsed) ↦ first_match-Has check m v (ground arith)
    ]
  ]

  -- Whatever `GetVersion` returns is one of the cached versions.
  pub get_version-Has :
      (p k : String) (c : Cache) (v : Version)
      → get_version semver p k c ≡ some v
      → Has (version_key v) (cached_keys c)
  unfolding get_version get_versions
  get_version-Has p k c v e = elim (Option-cases (lookup p c)) [
    | inl missing ↦ absurd (ground arith)
    | inr (m, found) ↦
        lookup-Has_outer (version_key v) p c m found (get_version_in-Has m k v (ground arith))
  ]

module _ {V : Type 0} (semver : Semver V) (cache : Cache) where
  -- A call on a version that is not visited leaves the visited set as it was.
  abbrev pub Restores : (Version → Assoc Version → Result (Assoc Version)) → Type 0
  Restores visit =
      (v : Version) (x y : Assoc Version)
      → lookup (version_key v) x ≡ none
      → visit v x ≡ ok y
      → SameKeys y x

  pub resolve_each-SameKeys :
      (visit : Version → Assoc Version → Result (Assoc Version))
      → Restores visit
      → (n : Version) (x y : Assoc Version) (deps : Assoc String)
      → resolve_each semver cache visit n x deps ≡ ok y
      → SameKeys y x
  unfolding resolve_each
  resolve_each-SameKeys visit restores n x y [] e = λ k. cc
  resolve_each-SameKeys visit restores n x y ((name, version) ∷ deps) e =
      let (v, x', _, _, fresh, step, rest) =
        resolve_each-cons semver cache visit n x y name version deps e in
      λ k. resolve_each-SameKeys visit restores n x' y deps rest k ∙ restores v x x' fresh step k

  pub resolve-Restores : (depth : ℕ) → Restores (resolve semver cache depth)
  unfolding resolve
  resolve-Restores zero n x y fresh e = cc
  resolve-Restores (suc depth) n x y fresh e =
      let key = version_key n in
      let (x', done, last) =
        >>=-eq-ok
          (resolve_each semver cache (resolve semver cache depth) n (insert key n x) n.pkg_deps)
          (λ z. ok (remove key z)) e in
      λ k. ground (
        arith,
        eq_iff key k,
        lookup-remove key k x',
        lookup-insert key k n x,
        resolve_each-SameKeys (resolve semver cache depth) (resolve-Restores depth) n
            (insert key n x) x' n.pkg_deps done k,
      )
