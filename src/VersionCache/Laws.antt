-- ===== src/VersionCache/Laws.antt =====
-- The cache as a finite map from a package name and a version text to a version.
use addon_manager.Common.{
  String, ◌≡◌, refl, ◌&&◌, Option, none, some, arith, ◌==◌, eq_iff, if◌then◌else◌, Assoc, lookup,
  insert, remove, lookup-insert, lookup-remove,
}
use addon_manager.VersionCache.{
  Version, Cache, versions_or_new, add_version, remove_version, remove_versions,
}

-- The specification: what is stored under a package name and a version text.
abbrev pub stored_in : Option (Assoc Version) → String → Option Version
stored_in none k = none
stored_in (some m) k = lookup k m

abbrev pub stored : Cache → String → String → Option Version
stored c p k = stored_in (lookup p c) k

stored_in-versions_or_new :
    (o : Option (Assoc Version)) (k : String) → lookup k (versions_or_new o) ≡ stored_in o k
unfolding lookup
stored_in-versions_or_new none k = refl
stored_in-versions_or_new (some m) k = refl

-- Adding a version binds its package name and version text to it and changes no other binding.
pub stored-add_version :
    (v : Version) (c : Cache) (p k : String)
    → stored (add_version v c) p k
      ≡ (if (v.pkg_name == p) && (v.pkg_version == k) then some v else stored c p k)
unfolding add_version
stored-add_version v c p k =
    let old = versions_or_new (lookup v.pkg_name c) in
    ground (
      arith,
      eq_iff v.pkg_name p,
      eq_iff v.pkg_version k,
      lookup-insert v.pkg_name p (insert v.pkg_version v old) c,
      lookup-insert v.pkg_version k v old,
      stored_in-versions_or_new (lookup v.pkg_name c) k,
    )

-- Removing a version clears its binding and no other.
pub stored-remove_version :
    (q j : String) (c : Cache) (p k : String)
    → stored (remove_version q j c) p k ≡ (if (q == p) && (j == k) then none else stored c p k)
unfolding remove_version
stored-remove_version q j c p k =
    let old = versions_or_new (lookup q c) in
    ground
      (arith, eq_iff q p, eq_iff j k, lookup-insert q p (remove j old) c, lookup-remove j k old)

-- Removing a package clears all its bindings and no other.
pub stored-remove_versions :
    (q : String) (c : Cache) (p k : String)
    → stored (remove_versions q c) p k ≡ (if q == p then none else stored c p k)
unfolding remove_versions
stored-remove_versions q c p k = ground (arith, eq_iff q p, lookup-remove q p c)
