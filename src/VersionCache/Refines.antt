-- ===== src/VersionCache/Refines.antt =====
-- pkg/addon/addon_version_cache.go: the nested maps against a map of pairs, and the search by name.
use addon_manager.Common.{
  String, ◌≡◌, refl, ap, ◌∙◌, inl, inr, ◌&&◌, Option, none, some, List, [], ◌∷◌, ◌++◌, ◌==◌,
  if◌then◌else◌, Bool-cases, Option-cases, Assoc,
}
use addon_manager.VersionCache.{
  Cache, Version, get_all_versions, has_version_name, named_in, named_version,
}
use addon_manager.VersionCache.Keyed.{Call, adds, call, calls, removes, removes_all}
use addon_manager.VersionCache.Laws.{
  stored, stored-add_version, stored-remove_version, stored-remove_versions,
}

-- What the calls promise: a binding for each package name and version text.
abbrev pub Bindings : Type 0
Bindings = String → String → Option Version

pub bind_call : Call → Bindings → Bindings
bind_call (adds v) m p k = if (v.pkg_name == p) && (v.pkg_version == k) then some v else m p k
bind_call (removes q j) m p k = if (q == p) && (j == k) then none else m p k
bind_call (removes_all q) m p k = if q == p then none else m p k

unfoldable pub bind_calls : List Call → Bindings → Bindings
unfolding bind_call
bind_calls [] m = m
bind_calls (x ∷ xs) m = bind_calls xs (bind_call x m)

stored-call :
    (x : Call) (c : Cache) (p k : String) → stored (call x c) p k ≡ bind_call x (stored c) p k
unfolding call bind_call
stored-call (adds v) c p k = stored-add_version v c p k
stored-call (removes q j) c p k = stored-remove_version q j c p k
stored-call (removes_all q) c p k = stored-remove_versions q c p k

-- After any calls of AddVersion, RemoveVersion and RemoveVersions, in any order and on any cache, the
-- cache holds the bindings that the same calls give on a map from pairs of a package name and a version
-- text.
pub stored-calls :
    (xs : List Call) (c : Cache) (p k : String)
    → stored (calls xs c) p k ≡ bind_calls xs (stored c) p k
unfolding calls bind_calls
stored-calls [] c p k = refl
stored-calls (x ∷ xs) c p k =
    let step : stored (call x c) ≡ bind_call x (stored c) = λ i q j. stored-call x c q j i in
    stored-calls xs (call x c) p k ∙ ap (λ (m : Bindings). bind_calls xs m p k) step

-- All versions, package by package.
unfoldable pub versions_of : Assoc Version → List Version
versions_of [] = []
versions_of ((k, v) ∷ m) = v ∷ versions_of m

unfoldable pub all_versions : Cache → List Version
unfolding versions_of
all_versions [] = []
all_versions ((p, m) ∷ c) = versions_of m ++ all_versions c

-- The first version of a list that an addon of this name holds.
unfoldable pub first_named : String → List Version → Option Version
first_named name [] = none
first_named name (v ∷ vs) = if v.name == name then some v else first_named name vs

or_else : Option Version → Option Version → Option Version
or_else none o = o
or_else (some v) o = some v

first_named-append :
    (name : String) (vs ws : List Version)
    → first_named name (vs ++ ws) ≡ or_else (first_named name vs) (first_named name ws)
unfolding first_named or_else
first_named-append name [] ws = refl
first_named-append name (v ∷ vs) ws = elim (Bool-cases (v.name == name)) [
  | inl hit ↦ rw (hit, first_named) refl
  | inr miss ↦ rw (miss, first_named) (first_named-append name vs ws)
]

named_version-first_named :
    (name : String) (m : Assoc Version) → named_version name m ≡ first_named name (versions_of m)
unfolding named_version first_named versions_of
named_version-first_named name [] = refl
named_version-first_named name ((k, v) ∷ m) = elim (Bool-cases (v.name == name)) [
  | inl hit ↦ rw (hit, named_version, first_named) refl
  | inr miss ↦ rw (miss, named_version, first_named) (named_version-first_named name m)
]

named_in-first_named :
    (name : String) (c : Cache) → named_in name c ≡ first_named name (all_versions c)
unfolding named_in all_versions first_named or_else
named_in-first_named name [] = refl
named_in-first_named name ((p, m) ∷ c) =
    rw
      (first_named-append name (versions_of m) (all_versions c), ← named_version-first_named name m)
      (elim (Option-cases (named_version name m)) [
        | inl gone ↦ rw (gone, named_in, or_else) (named_in-first_named name c)
        | inr (v, there) ↦ rw (there, named_in, or_else) refl
      ])

-- The two nested loops of HasVersionName find what one search through the list of all versions finds.
pub has_version_name-first_named :
    (name : String) (c : Cache) → has_version_name name c ≡ first_named name (all_versions c)
unfolding has_version_name get_all_versions
has_version_name-first_named name c = named_in-first_named name c
