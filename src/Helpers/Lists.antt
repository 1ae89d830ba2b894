-- ===== src/Helpers/Lists.antt =====
-- pkg/common/helpers.go: `ContainsString` and `RemoveString`.
use addon_manager.Common.{String, ◌≡◌, false, List, [], ◌∷◌, arith, ◌==◌, eq_iff, if◌then◌else◌}
use addon_manager.Helpers.{contains_string, remove_string}

-- After `RemoveString` the removed text is gone, and every other text is there exactly if it was.
pub contains_string-remove_string :
    (items : List String) (s t : String)
    → contains_string (remove_string items s) t
      ≡ (if s == t then false else contains_string items t)
unfolding contains_string remove_string
contains_string-remove_string [] s t = ground arith
contains_string-remove_string (item ∷ items) s t =
    ground
      (arith, eq_iff item s, eq_iff item t, eq_iff s t, contains_string-remove_string items s t)
