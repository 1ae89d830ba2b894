-- ===== src/Tests/AddonctlWitness.antt =====
-- Runs of the parsers of addonctl, and of the map of mutexes.
use addon_manager.Common.{
  ◌≡◌, refl, ◌≢◌, some, [], ◌∷◌, map, arith, ok, panic, split, join, lookup, insert,
}
use addon_manager.Addonctl.{parse_addon_params, parse_dependencies, parse_param, parse_params}
use addon_manager.Addonctl.Parsing.{
  NoErr, insert_all, parse_addon_params-NoErr, parse_dependencies-join, shown,
}
use addon_manager.Api.Phase.{pending}
use addon_manager.Tests.Fixtures.{system, web}
use addon_manager.Updater.{get_status_mutex, remove_from_cache}
use addon_manager.Updater.Mutex.{remove_from_cache_splits}

parse_addon_params_example : NoErr (parse_addon_params "replicas" (some []))
parse_addon_params_example = parse_addon_params-NoErr "replicas" (some [])

-- An item without a separator panics.
parse_addon_params_panics : parse_addon_params "replicas" (some []) ≡ panic "index out of range"
unfolding parse_addon_params parse_params parse_param split
parse_addon_params_panics = refl

parse_dependencies_example :
    parse_dependencies (join "," (map shown (("lib", "2.0") ∷ ("db", "*") ∷ []))) []
    ≡ ok (insert_all (("lib", "2.0") ∷ ("db", "*") ∷ []) [])
parse_dependencies_example = parse_dependencies-join (("lib", "2.0") ∷ ("db", "*") ∷ []) [] (
  (
    (refl, (refl, (refl, tt))),
    (refl, (refl, (refl, tt))),
    (refl, (refl, (refl, tt))),
    (refl, (refl, (refl, tt))),
  ),
  (((refl, (refl, tt)), (refl, tt), (refl, (refl, tt)), (refl, tt)), tt),
)

remove_from_cache_splits_example :
    (get_status_mutex "web"
      (remove_from_cache "web" (get_status_mutex "web" (system (web pending) [])).1)).0
    ≢ 0
unfolding get_status_mutex lookup insert
remove_from_cache_splits_example =
    remove_from_cache_splits "web" (get_status_mutex "web" (system (web pending) [])).1 0
      (omega arith, tt) refl
