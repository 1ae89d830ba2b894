-- ===== src/Validator/Dependencies.antt =====
-- pkg/addon/addon_validator.go: `resolveDependencies` and `ValidateDependencies`.
use addon_manager.Common.{
  ℕ, zero, suc, String, Bool, true, false, none, some, [], ◌∷◌, ◌==◌, if◌then◌else◌, Error, errorf,
  Result, ok, err, panic, ◌>>=◌, ◌>>◌, ◌+++◌, trim_space, quote, Assoc, lookup, insert, remove,
}
use addon_manager.Api.Phase.{succeeded, pending, Phase}
use addon_manager.VersionCache.{Version, Semver, Cache, get_version, get_versions}

abbrev pub err_dep_not_installed : String
err_dep_not_installed = "required dependency is not installed"

abbrev pub err_dep_pending : String
err_dep_pending = "required dependency is in pending state"

-- `PkgName + ":" + PkgVersion`.
unfoldable pub version_key : Version → String
version_key v = v.pkg_name +++ ":" +++ v.pkg_version

-- The depth at which `resolveDependencies` panics.
abbrev pub max_depth : ℕ
max_depth = 256

unfoldable pub own_package : String → String → Error
own_package p k = errorf (
    "invalid package dependency, addon cannot depend on it's own package name " +++ p +++ ":" +++ k)

unfoldable pub unresolvable : String → String → Error
unresolvable p k =
    errorf
      (err_dep_not_installed +++ ": unable to resolve required dependency " +++ p +++ ":" +++ k)

unfoldable pub circular : Version → Error
unfolding version_key
circular v = errorf ("circular dependency was found in " +++ version_key v)

-- The search for an installed version among all versions of a package.
unfoldable pub any_succeeded : Assoc Version → Bool
any_succeeded [] = false
any_succeeded ((key, v) ∷ m) =
    let rest = any_succeeded m in elim v.pkg_phase [ succeeded ↦ true | _ ↦ rest ]

unfoldable pub not_installed : String → String → Error
not_installed p k = errorf (err_dep_not_installed +++ ": " +++ quote p +++ ":" +++ quote k)

unfoldable pub dep_pending : String → String → Error
dep_pending p k = errorf (err_dep_pending +++ ": " +++ quote p +++ ":" +++ quote k)

-- The `switch` on the phase of a dependency that was found.
unfoldable pub require_phase : String → String → Phase → Result (Unit {0})
unfolding not_installed dep_pending
require_phase p k succeeded = ok tt
require_phase p k pending = err (dep_pending p k)
require_phase p k _ = err (not_installed p k)

module _ {V : Type 0} (semver : Semver V) (cache : Cache) where
  -- The loop over `n.PkgDeps`; `visit` is the recursive call one level down.
  unfoldable pub resolve_each :
      (Version → Assoc Version → Result (Assoc Version))
      → Version
      → Assoc Version
      → Assoc String
      → Result (Assoc Version)
  unfolding own_package unresolvable circular version_key
  resolve_each visit n visited [] = ok visited
  resolve_each visit n visited ((name, version) ∷ deps) =
      let p = trim_space name in
      let k = trim_space version in
      elim (p == n.pkg_name) [
        | true ↦ err (own_package p k)
        | false ↦ elim (get_version semver p k cache) [
          | none ↦ err (unresolvable p k)
          | some v ↦ elim (lookup (version_key v) visited) [
            | some _ ↦ err (circular v)
            | none ↦ visit v visited >>= λ visited'. resolve_each visit n visited' deps
          ]
        ]
      ]

  -- `resolveDependencies` with the depth counted down from `max_depth`.
  unfoldable pub resolve : ℕ → Version → Assoc Version → Result (Assoc Version)
  unfolding resolve_each version_key
  resolve zero n visited = panic "Recursive max depth of 256 seen, this is bad!"
  resolve (suc depth) n visited = do
    visited' ← resolve_each (resolve depth) n (insert (version_key n) n visited) n.pkg_deps
    ok (remove (version_key n) visited')

  unfoldable pub require_any : String → Result (Unit {0})
  unfolding any_succeeded
  require_any p = elim (get_versions p cache) [
    | none ↦ err (errorf (err_dep_not_installed +++ ": " +++ quote p))
    | some versions ↦
        if any_succeeded versions
        then ok tt
        else err (
            errorf
              (err_dep_not_installed +++ ": " +++ quote p +++ " has no valid versions installed"))
  ]

  unfoldable pub require_version : String → String → Result (Unit {0})
  unfolding not_installed require_phase
  require_version p k = elim (get_version semver p k cache) [
    | none ↦ err (not_installed p k)
    | some v ↦ require_phase p k v.pkg_phase
  ]

  -- `ValidateDependencies`: a dependency with a version ends the loop on each of its branches.
  unfoldable pub validate_dependencies : Assoc String → Result (Unit {0})
  unfolding require_any require_version
  validate_dependencies [] = ok tt
  validate_dependencies ((name, version) ∷ deps) =
      let p = trim_space name in
      let k = trim_space version in
      let later = validate_dependencies deps in
      if k == "*" then (require_any p >> later) else require_version p k
