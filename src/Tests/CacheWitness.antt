-- ===== src/Tests/CacheWitness.antt =====
-- Runs of the version cache, of the name of a workflow and of the helpers.
use addon_manager.VersionCache.Refines.{
  stored-calls, has_version_name-first_named, bind_calls, first_named, all_versions,
}
use addon_manager.Common.{◌≡◌, ◌↔◌, none, some, [], ◌∷◌, found, lookup}
use addon_manager.Api.Addon.{calculate_checksum, get_formatted_workflow_name}
use addon_manager.Api.Phase.{failed, install, pending}
use addon_manager.Helpers.{extract_checksum_and_lifecycle_step}
use addon_manager.Helpers.Names.{extract-get_formatted_workflow_name}
use addon_manager.Tests.Fixtures.{lib_cache, semver, version_of, web, spec_bytes}
use addon_manager.VersionCache.{get_version, has_version_name}
use addon_manager.VersionCache.Complete.{IsAbsent, get_version-none_iff}
use addon_manager.VersionCache.Keyed.{adds, calls, removes}
use addon_manager.VersionCache.Laws.{stored}

stored-calls_example :
    stored
      (calls (adds (version_of "lib" "2.0" [] failed) ∷ removes "app" "1.0" ∷ []) [])
      "lib"
      "2.0"
    ≡ some (version_of "lib" "2.0" [] failed)
unfolding lookup bind_calls
stored-calls_example =
    stored-calls (adds (version_of "lib" "2.0" [] failed) ∷ removes "app" "1.0" ∷ []) [] "lib" "2.0"

has_version_name-first_named_example : has_version_name "system" (lib_cache failed) ≡ none
unfolding first_named all_versions
has_version_name-first_named_example = has_version_name-first_named "system" (lib_cache failed)

extract_example :
    extract_checksum_and_lifecycle_step
      (get_formatted_workflow_name spec_bytes (web pending) install)
    ≡ found (calculate_checksum spec_bytes (web pending), install)
extract_example = extract-get_formatted_workflow_name spec_bytes (web pending) install tt

get_version-none_iff_example :
    (get_version semver "lib" "3.0" (lib_cache failed) ≡ none)
    ↔ IsAbsent semver (lib_cache failed) "lib" "3.0"
get_version-none_iff_example = get_version-none_iff semver (lib_cache failed) "lib" "3.0"
