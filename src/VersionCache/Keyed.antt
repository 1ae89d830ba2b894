-- ===== src/VersionCache/Keyed.antt =====
-- The cache's invariant: a version is kept under its own package name and version text. With it,
-- what `GetVersion` and `HasVersionName` return, and when they return nothing.
use addon_manager.Common.{
  String, ◌≡◌, refl, ◌⊎◌, inl, inr, Bool, true, Option, none, some, List, [], ◌∷◌, arith,
  Bool-cases, Option-cases, is_some, All, Assoc, lookup, All-lookup, All-insert, All-remove,
}
use addon_manager.VersionCache.{
  Version, Semver, Cache, versions_or_new, add_version, get_versions, remove_version,
  remove_versions, first_match, resolve_version, get_version_in, get_version,
}

abbrev pub IsKeyedIn : String → Assoc Version → Type 0
IsKeyedIn p m = All (λ b. (b.1.pkg_name ≡ p) × (b.1.pkg_version ≡ b.0)) m

abbrev pub IsKeyed : Cache → Type 0
IsKeyed c = All (λ b. IsKeyedIn b.0 b.1) c

versions_or_new-IsKeyedIn :
    (p : String) (c : Cache) (o : Option (Assoc Version))
    → lookup p c ≡ o
    → IsKeyed c
    → IsKeyedIn p (versions_or_new o)
versions_or_new-IsKeyedIn p c none e h = tt
versions_or_new-IsKeyedIn p c (some m) e h = All-lookup (λ b. IsKeyedIn b.0 b.1) p c e h

pub add_version-IsKeyed : (v : Version) (c : Cache) → IsKeyed c → IsKeyed (add_version v c)
unfolding add_version
add_version-IsKeyed v c h =
    All-insert (λ b. IsKeyedIn b.0 b.1) v.pkg_name _ c
      (All-insert (λ b. (b.1.pkg_name ≡ v.pkg_name) × (b.1.pkg_version ≡ b.0)) v.pkg_version v _
        (refl, refl) (versions_or_new-IsKeyedIn v.pkg_name c _ refl h))
      h

pub remove_version-IsKeyed : (q j : String) (c : Cache) → IsKeyed c → IsKeyed (remove_version q j c)
unfolding remove_version
remove_version-IsKeyed q j c h = elim (Option-cases (lookup q c)) [
  | inl gone ↦ rw (gone, remove_version) h
  | inr (m, found) ↦
      rw (found, remove_version)
        (elim (Bool-cases (is_some (lookup j m))) [
          | inl hit ↦ rw hit (
              All-insert (λ b. IsKeyedIn b.0 b.1) q _ c
                (All-remove (λ b. (b.1.pkg_name ≡ q) × (b.1.pkg_version ≡ b.0)) j m
                  (All-lookup (λ b. IsKeyedIn b.0 b.1) q c found h))
                h)
          | inr miss ↦ rw miss h
        ])
]

pub remove_versions-IsKeyed : (q : String) (c : Cache) → IsKeyed c → IsKeyed (remove_versions q c)
unfolding remove_versions
remove_versions-IsKeyed q c h = elim (Bool-cases (is_some (lookup q c))) [
  | inl hit ↦ rw hit (All-remove (λ b. IsKeyedIn b.0 b.1) q c h)
  | inr miss ↦ rw miss h
]

-- The calls that change the cache, in any order.
pub data Call : Type 0 where
  adds : Version → Call
  removes : String → String → Call
  removes_all : String → Call

unfoldable pub call : Call → Cache → Cache
call (adds v) c = add_version v c
call (removes p k) c = remove_version p k c
call (removes_all p) c = remove_versions p c

unfoldable pub calls : List Call → Cache → Cache
unfolding call
calls [] c = c
calls (x ∷ xs) c = calls xs (call x c)

-- Calls on a cache keep it well formed: every version stands under its own package name and version text.
pub calls-IsKeyed : (xs : List Call) (c : Cache) → IsKeyed c → IsKeyed (calls xs c)
unfolding calls
calls-IsKeyed [] c h = h
calls-IsKeyed (adds v ∷ xs) c h = calls-IsKeyed xs _ (add_version-IsKeyed v c h)
calls-IsKeyed (removes p k ∷ xs) c h = calls-IsKeyed xs _ (remove_version-IsKeyed p k c h)
calls-IsKeyed (removes_all p ∷ xs) c h = calls-IsKeyed xs _ (remove_versions-IsKeyed p c h)

module _ {V : Type 0} (semver : Semver V) where
  -- The version text `key` parses and satisfies the constraint `check`.
  abbrev pub Satisfies : (V → Bool) → String → Type 0
  Satisfies check key = (sv : V) × (semver.new_version key ≡ some sv) × (check sv ≡ true)

  pub first_match_sound :
      (check : V → Bool) (p : String) (m : Assoc Version) (v : Version)
      → first_match semver check m ≡ some v
      → IsKeyedIn p m
      → (v.pkg_name ≡ p) × Satisfies check v.pkg_version
  unfolding first_match
  first_match_sound check p [] v e h = cc
  first_match_sound check p ((key, w) ∷ m) v e ((named, keyed), h) =
      elim (Option-cases (semver.new_version key)) [
        | inl bad ↦ first_match_sound check p m v (rw (bad, first_match) at e) h
        | inr (sv, parsed) ↦ elim (Bool-cases (check sv)) [
          | inl fits ↦
              let same : w ≡ v = ground arith in
              (rw (← same) named, (sv, rw (← same, keyed) parsed, fits))
          | inr not_fits ↦ first_match_sound check p m v (ground arith) h
        ]
      ]

  pub first_match_complete :
      (check : V → Bool) (m : Assoc Version)
      → first_match semver check m ≡ none
      → All (λ b. ¬ Satisfies check b.0) m
  unfolding first_match
  first_match_complete check [] e = tt
  first_match_complete check ((key, w) ∷ m) e =
      (λ s. ground (arith, s.1, s.2), first_match_complete check m (ground arith))

  -- What `GetVersion` returns belongs to the package that was asked for, and its version text is
  -- the one asked for or satisfies it as a constraint.
  pub get_version_sound :
      (c : Cache) (p k : String) (v : Version)
      → IsKeyed c
      → get_version semver p k c ≡ some v
      → (v.pkg_name ≡ p)
        × ((v.pkg_version ≡ k)
            ⊎ ((check : V → Bool) × (semver.new_constraint k ≡ some check)
                × Satisfies check v.pkg_version))
  unfolding get_version get_versions get_version_in resolve_version
  get_version_sound c p k v keyed e = elim (Option-cases (lookup p c)) [
    | inl none_there ↦ absurd (ground arith)
    | inr (m, found) ↦
        let here = All-lookup (λ b. IsKeyedIn b.0 b.1) p c found keyed in
        elim (Option-cases (lookup k m)) [
          | inl inexact ↦ elim (Option-cases (semver.new_constraint k)) [
            | inl bad ↦ absurd (ground arith)
            | inr (check, parsed) ↦
                let (named, fits) = first_match_sound check p m v (ground arith) here in
                (named, inr (check, parsed, fits))
          ]
          | inr (w, exact) ↦
              let same : w ≡ v = ground arith in
              let (named, text) =
                All-lookup (λ b. (b.1.pkg_name ≡ p) × (b.1.pkg_version ≡ b.0)) k m exact here in
              (rw (← same) named, inl (rw (← same) text))
        ]
  ]
