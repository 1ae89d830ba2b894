-- ===== src/Tests/AcceptsWitness.antt =====
-- Runs of the validator in which keys tell dependencies.
use addon_manager.Common.{
  String, ◌≡◌, refl, sym, ap, ◌∙◌, ◌⊎◌, subst, ◌↔◌, inl, inr, some, [], ◌∷◌, arith, ok, lookup,
  trim_space, eq_iff,
}
use addon_manager.Api.Phase.{pending, succeeded}
use addon_manager.Tests.Fixtures.{app, lib_cache, version_of, semver, docs, spec_bytes}
use addon_manager.Validator.{addon_version, validate}
use addon_manager.Validator.Accepts.{LooksInstalled, validate_iff}
use addon_manager.Validator.Complete.{
  Below, Child, Depends, IsKnown, KeysTellDependencies, child, under,
}
use addon_manager.Validator.Dependencies.{version_key}
use addon_manager.Validator.Verdict.{IsValid}
use addon_manager.Validator.Workflow.{validate_workflow}
use addon_manager.VersionCache.{Cache, Version, get_version, get_version_in, get_versions}

abbrev cached : Cache
cached = lib_cache succeeded

abbrev lib : Version
lib = version_of "lib" "2.0" [] succeeded

abbrev start : Version
start = version_of "web" "1.0" (("lib", "2.0") ∷ []) pending

start-Child : (u c : Version) → u ≡ start → Child semver cached u c → c ≡ lib
unfolding get_version get_versions get_version_in lookup trim_space
start-Child u c e (d, there, found) =
    let here : Depends d (("lib", "2.0") ∷ []) =
      subst (λ (x : Version). Depends d x.pkg_deps) e there in
    elim here [
      | inr none_left ↦ elim none_left [ ]
      | inl same ↦
          let hit =
            subst
              (λ (x : String × String).
                get_version semver (trim_space x.0) (trim_space x.1) cached ≡ some c)
              (sym same) found in
          cc
    ]

lib-Child : (u c : Version) → u ≡ lib → Child semver cached u c → ⊥
lib-Child u c e (d, there, found) = subst (λ (x : Version). Depends d x.pkg_deps) e there

lib-Below : (u v : Version) → u ≡ lib → Below semver cached u v → ⊥
lib-Below u v e (child c) = lib-Child u v e c
lib-Below u v e (under {c = w} c rest) = lib-Child u w e c

start-Below : (u v : Version) → u ≡ start → Below semver cached u v → v ≡ lib
start-Below u v e (child c) = start-Child u v e c
start-Below u v e (under {c = w} c rest) = absurd (lib-Below w v (start-Child u w e c) rest)

known_two : (u : Version) → IsKnown semver cached start u → (u ≡ start) ⊎ (u ≡ lib)
known_two u (inl e) = inl e
known_two u (inr below) = inr (start-Below start u refl below)

start-tells : KeysTellDependencies semver cached start
unfolding version_key
start-tells u v known known' same = elim (known_two u known) [
  | inl a ↦ elim (known_two v known') [
    | inl b ↦ cc
    | inr b ↦
        let keys : version_key start ≡ version_key lib =
          ap version_key (sym a) ∙ same ∙ ap version_key b in
        ground (arith, eq_iff "web:1.0" "lib:2.0")
  ]
  | inr a ↦ elim (known_two v known') [
    | inr b ↦ cc
    | inl b ↦
        let keys : version_key lib ≡ version_key start =
          ap version_key (sym a) ∙ same ∙ ap version_key b in
        ground (arith, eq_iff "lib:2.0" "web:1.0")
  ]
]

validate_iff_example : (validate semver docs spec_bytes [] cached (app "2.0") ≡ ok tt) ↔ (
    IsValid semver docs spec_bytes [] cached (app "2.0")
    × (validate_workflow docs spec_bytes [] (app "2.0") ≡ ok tt)
    × LooksInstalled semver cached (("lib", "2.0") ∷ []))
unfolding addon_version
validate_iff_example = validate_iff semver docs spec_bytes [] cached (app "2.0") start-tells
