-- ===== src/VersionCache.antt =====
-- pkg/addon/addon_version_cache.go: the cache of package versions. The lock makes each call one
-- step; a value of the model cannot change, so a copied map is the map.
pub mod Laws
pub mod Keyed
pub mod Complete
pub mod Refines
use addon_manager.Common.{
  ℕ, zero, suc, ◌+◌, ◌-◌, ◌*◌, ◌/◌, ◌%◌, ◌^◌, ◌≤◌, ◌<◌, Char, code, String, ◌≡◌, refl, sym, ap,
  subst, ◌∙◌, ◌≢◌, ◌↔◌, ◌⊎◌, inl, inr, Bool, true, false, not, ◌&&◌, ◌||◌, Option, none, some, List,
  [], ◌∷◌, ◌++◌, map, arith, ◌==◌, starts_with, eq_iff, eq_refl, leb, ltb, eqb, if◌then◌else◌,
  Bool-cases, Option-cases, is_some, Reason, unknown, not_found, already_exists, conflict, Error,
  errorf, Result, ok, err, panic, bind, >>=-eq-ok, ◌>>=◌, ◌>>◌, length, get_elem?, length-append,
  get_elem?-append, All, ◌+++◌, len, is_space, trim_left, trim_right, trim_space, cons_head, split,
  join, hex_digit, quote, Assoc, lookup, insert, remove, lookup-insert, lookup-remove, All-lookup,
  All-insert, All-remove,
}
use addon_manager.Api.Phase.{Phase}
use addon_manager.Api.Spec.{PackageSpec}

pub record Version : Type 0 where
  pub name : String
  pub namespace : String
  pub package_spec : PackageSpec
  pub open package_spec use *
  pub pkg_phase : Phase

-- What the cache calls of github.com/Masterminds/semver: `NewVersion`, and `NewConstraint` with
-- the `Check` of its result; `none` is a parse error.
pub record Semver (V : Type 0) : Type 0 where
  pub new_version : String → Option V
  pub new_constraint : String → Option (V → Bool)

-- `addons map[string]map[string]Version`.
abbrev pub Cache : Type 0
Cache = Assoc (Assoc Version)

abbrev pub new_addon_version_cache_client : Cache
new_addon_version_cache_client = []

-- `c.addons[pkgName]`, the new map where there is none.
abbrev versions_or_new : Option (Assoc Version) → Assoc Version
versions_or_new none = []
versions_or_new (some m) = m

unfoldable pub add_version : Version → Cache → Cache
add_version v c =
    insert v.pkg_name (insert v.pkg_version v (versions_or_new (lookup v.pkg_name c))) c

unfoldable pub get_versions : String → Cache → Option (Assoc Version)
get_versions pkg_name c = lookup pkg_name c

unfoldable pub remove_version : String → String → Cache → Cache
remove_version pkg_name pkg_version c = elim (lookup pkg_name c) [
  | none ↦ c
  | some m ↦ if is_some (lookup pkg_version m) then insert pkg_name (remove pkg_version m) c else c
]

unfoldable pub remove_versions : String → Cache → Cache
remove_versions pkg_name c = if is_some (lookup pkg_name c) then remove pkg_name c else c

unfoldable pub get_all_versions : Cache → Cache
get_all_versions c = c

-- The inner loop of `HasVersionName`.
unfoldable pub named_version : String → Assoc Version → Option Version
named_version name [] = none
named_version name ((key, v) ∷ m) =
    let rest = named_version name m in if v.name == name then some v else rest

-- The outer loop of `HasVersionName`.
unfoldable pub named_in : String → Cache → Option Version
unfolding named_version
named_in name [] = none
named_in name ((pkg, m) ∷ c) =
    let rest = named_in name c in elim (named_version name m) [ none ↦ rest | some v ↦ some v ]

unfoldable pub has_version_name : String → Cache → Option Version
unfolding named_in get_all_versions
has_version_name name c = named_in name (get_all_versions c)

module _ {V : Type 0} (semver : Semver V) where
  -- The loop of `resolveVersion`.
  unfoldable pub first_match : (V → Bool) → Assoc Version → Option Version
  first_match check [] = none
  first_match check ((key, v) ∷ m) =
      let rest = first_match check m in
      elim (semver.new_version key) [ none ↦ rest | some sv ↦ if check sv then some v else rest ]

  unfoldable pub resolve_version : Assoc Version → String → Option Version
  unfolding first_match
  resolve_version m pkg_version = elim (semver.new_constraint pkg_version) [
    | none ↦ none
    | some check ↦ first_match check m
  ]

  -- The lookup of `GetVersion` in the package's versions.
  unfoldable pub get_version_in : Assoc Version → String → Option Version
  unfolding resolve_version
  get_version_in vmap pkg_version = elim (lookup pkg_version vmap) [
    | some v ↦ some v
    | none ↦ resolve_version vmap pkg_version
  ]

  unfoldable pub get_version : String → String → Cache → Option Version
  unfolding get_version_in get_versions
  get_version pkg_name pkg_version c = elim (get_versions pkg_name c) [
    | none ↦ none
    | some vmap ↦ get_version_in vmap pkg_version
  ]
