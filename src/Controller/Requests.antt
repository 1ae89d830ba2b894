-- ===== src/Controller/Requests.antt =====
-- controllers/addon_controller.go, `getAddonRequestsFromLabels`: which addon a watched object wakes.
use addon_manager.Common.{
  String, ◌≡◌, ◌∙◌, inl, inr, some, List, [], ◌∷◌, arith, ◌==◌, eq_iff, Bool-cases, Option-cases,
  trim_space, Assoc, lookup,
}
use addon_manager.Api.Spec.{NamespacedName}
use addon_manager.VersionCache.{
  Version, Cache, named_version, named_in, has_version_name, get_all_versions,
}
use addon_manager.Controller.Types.{resource_default_own_label}
use addon_manager.Controller.Finalize.{get_addon_requests_from_labels}

named_version-name :
    (name : String) (m : Assoc Version) (v : Version)
    → named_version name m ≡ some v
    → v.name ≡ name
unfolding named_version
named_version-name name [] v e = cc
named_version-name name ((key, w) ∷ m) v e = elim (Bool-cases (w.name == name)) [
  | inl same ↦ let this : w ≡ v = ground arith in rw (← this) ((eq_iff w.name name).0 same)
  | inr other ↦ named_version-name name m v (ground arith)
]

named_in-name : (name : String) (c : Cache) (v : Version) → named_in name c ≡ some v → v.name ≡ name
unfolding named_in
named_in-name name [] v e = cc
named_in-name name ((pkg, m) ∷ c) v e = elim (Option-cases (named_version name m)) [
  | inl missing ↦ named_in-name name c v (rw (missing, named_in) at e)
  | inr (w, hit) ↦ named_version-name name m v (hit ∙ (rw (hit, named_in) at e))
]

-- An object wakes at most one addon, and only one whose name the object's label gives.
pub get_addon_requests_sound :
    (cache : Cache) (labels : Assoc String) (req : NamespacedName) (rest : List NamespacedName)
    → get_addon_requests_from_labels cache labels ≡ req ∷ rest
    → (lookup resource_default_own_label labels ≡ some req.name) × (rest ≡ [])
unfolding get_addon_requests_from_labels has_version_name get_all_versions
get_addon_requests_sound cache labels req rest e =
    elim (Option-cases (lookup resource_default_own_label labels)) [
      | inl missing ↦ absurd (ground arith)
      | inr (name, label) ↦ elim (Bool-cases (trim_space name == "")) [
        | inl blank ↦ absurd (ground arith)
        | inr given ↦ elim (Option-cases (named_in name cache)) [
          | inl unknown_name ↦ absurd (ground arith)
          | inr (v, hit) ↦ ground (arith, named_in-name name cache v hit)
        ]
      ]
    ]
