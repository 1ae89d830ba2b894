-- ===== src/VersionCache/Complete.antt =====
-- pkg/addon/addon_version_cache.go, `GetVersion`: when it finds nothing.
use addon_manager.Common.{
  String, ◌≡◌, refl, subst, ◌↔◌, inl, inr, Bool, none, some, [], ◌∷◌, arith, Bool-cases,
  Option-cases, All, Assoc, lookup,
}
use addon_manager.VersionCache.{
  Version, Semver, Cache, first_match, get_version, get_version_in, get_versions, resolve_version,
}
use addon_manager.VersionCache.Keyed.{Satisfies, first_match_complete}

module _ {V : Type 0} (semver : Semver V) where
  -- No version stands under this text, and if the text is a constraint, none stands under a version
  -- that satisfies it.
  abbrev pub IsAbsentIn : Assoc Version → String → Type 0
  IsAbsentIn m k =
      (lookup k m ≡ none)
      × ((check : V → Bool)
          → semver.new_constraint k ≡ some check
          → All {A = String × Version} (λ b. ¬ Satisfies semver check b.0) m)

  -- So it is for the versions of the package, if it has any.
  abbrev pub IsAbsent : Cache → String → String → Type 0
  IsAbsent c p k = (m : Assoc Version) → get_versions p c ≡ some m → IsAbsentIn m k

  first_match-none :
      (check : V → Bool) (m : Assoc Version)
      → All {A = String × Version} (λ b. ¬ Satisfies semver check b.0) m
      → first_match semver check m ≡ none
  unfolding first_match
  first_match-none check [] h = refl
  first_match-none check ((key, v) ∷ m) (unfit, h) = elim (Option-cases (semver.new_version key)) [
    | inl bad ↦ rw (bad, first_match) (first_match-none check m h)
    | inr (sv, parsed) ↦ elim (Bool-cases (check sv)) [
      | inl fits ↦ absurd (unfit (sv, parsed, fits))
      | inr unlike ↦ rw (parsed, unlike, first_match) (first_match-none check m h)
    ]
  ]

  get_version_in-none :
      (m : Assoc Version) (k : String) → get_version_in semver m k ≡ none → IsAbsentIn m k
  unfolding get_version_in resolve_version
  get_version_in-none m k e = elim (Option-cases (lookup k m)) [
    | inr (v, exact) ↦ let hit = (rw (exact, get_version_in) at e) in absurd (cc)
    | inl inexact ↦ (
      inexact,
      λ check parsed.
          first_match_complete semver check m
            (rw (parsed, resolve_version) at (rw (inexact, get_version_in) at e)),
    )
  ]

  IsAbsentIn-get_version_in :
      (m : Assoc Version) (k : String) → IsAbsentIn m k → get_version_in semver m k ≡ none
  unfolding get_version_in resolve_version
  IsAbsentIn-get_version_in m k (inexact, h) = elim (Option-cases (semver.new_constraint k)) [
    | inl bad ↦ rw (inexact, get_version_in) (rw (bad, resolve_version) refl)
    | inr (check, parsed) ↦
        rw (inexact, get_version_in)
          (rw (parsed, resolve_version) (first_match-none check m (h check parsed)))
  ]

  -- `GetVersion` finds nothing exactly when no version of the package stands under the text asked for
  -- and, if that text is a constraint, no cached version of the package satisfies it.
  pub get_version-none_iff :
      (c : Cache) (p k : String) → (get_version semver p k c ≡ none) ↔ IsAbsent c p k
  unfolding get_version
  get_version-none_iff c p k = elim (Option-cases (get_versions p c)) [
    | inl missing ↦ ((λ e m there. absurd (ground arith)), (λ h. rw (missing, get_version) refl))
    | inr (m, hit) ↦ (
      (λ e n there.
          let same : m ≡ n = ground arith in
          subst (λ (x : Assoc Version). IsAbsentIn x k) same
            (get_version_in-none m k (rw (hit, get_version) at e))),
      (λ h. rw (hit, get_version) (IsAbsentIn-get_version_in m k (h m hit))),
    )
  ]
