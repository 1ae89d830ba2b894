-- ===== src/Addonctl/Parsing.antt =====
-- pkg/addonctl/addonctl.go: what the parsers of the flags accept and report.
use addon_manager.Common.{
  Char, String, ◌≡◌, refl, sym, ap, subst, ◌∙◌, ◌≢◌, inl, inr, Option, none, some, List, [], ◌∷◌,
  map, ◌==◌, eq_iff, Bool-cases, Result, ok, err, panic, bind, All, ◌+++◌, split, join, Assoc,
  insert,
}
use addon_manager.Common.{Lacks, split-Lacks, All-split, Lacks-append, split_first, one-append}
use addon_manager.Addonctl.{
  insert_into, parse_param, parse_params, parse_addon_params, parse_dependency,
  parse_dependency_list, parse_dependencies,
}
use Prim.Native.Char.{char}

-- An answer that is no error.
abbrev pub NoErr : {A : Type 0} → Result A → Type 0
NoErr (err e) = ⊥
NoErr _ = Unit

NoErr-bind :
    {A B : Type 0} (m : Result A) (f : A → Result B)
    → NoErr m
    → ((a : A) → NoErr (f a))
    → NoErr (bind m f)
NoErr-bind (ok a) f h k = k a
NoErr-bind (err e) f h k = h
NoErr-bind (panic s) f h k = tt

insert_into-NoErr : (k v : String) (m : Option (Assoc String)) → NoErr (insert_into k v m)
insert_into-NoErr k v none = tt
insert_into-NoErr k v (some m) = tt

parse_param-NoErr :
    (raw item : String) (kv : List String) (m : Option (Assoc String))
    → All (Lacks b'=') kv
    → NoErr (parse_param raw item kv m)
unfolding parse_param
parse_param-NoErr raw item [] m h = tt
parse_param-NoErr raw item (k ∷ []) m (h, _) = elim (Bool-cases (k == "=")) [
  | inl bare ↦ let clash : Lacks b'=' "=" = subst (Lacks b'=') ((eq_iff k "=").0 bare) h in cc
  | inr other ↦ rw (other, parse_param) tt
]
parse_param-NoErr raw item (k ∷ v ∷ more) m h = insert_into-NoErr k v m

parse_params-NoErr :
    (raw : String) (items : List String) (m : Option (Assoc String))
    → NoErr (parse_params raw items m)
unfolding parse_params
parse_params-NoErr raw [] m = tt
parse_params-NoErr raw (item ∷ items) m =
    NoErr-bind (parse_param raw item (split b'=' item) m) (parse_params raw items)
      (parse_param-NoErr raw item (split b'=' item) m (All-split b'=' item))
      (parse_params-NoErr raw items)

-- `parseAddonParams` never returns an error: an item without a separator is not reported.
pub parse_addon_params-NoErr :
    (raw : String) (m : Option (Assoc String)) → NoErr (parse_addon_params raw m)
unfolding parse_addon_params
parse_addon_params-NoErr raw m = elim (Bool-cases (raw == "")) [
  | inl empty ↦ rw (empty, parse_addon_params) tt
  | inr given ↦ rw (given, parse_addon_params) (parse_params-NoErr raw (split b',' raw) m)
]

-- The text of a dependency.
abbrev pub shown : String × String → String
shown (k, v) = k +++ ":" +++ v

-- Neither the name nor the version has a separator in it.
abbrev pub IsClean : String × String → Type 0
IsClean (k, v) = Lacks b':' k × Lacks b':' v × Lacks b',' k × Lacks b',' v

-- The map after all these were set.
abbrev pub insert_all : Assoc String → Assoc String → Assoc String
insert_all [] m = m
insert_all ((k, v) ∷ deps) m = insert_all deps (insert k v m)

abbrev colon : Char
colon = char 58 tt

abbrev comma : Char
comma = char 44 tt

split-shown : (k v : String) → Lacks b':' k → Lacks b':' v → split b':' (shown (k, v)) ≡ k ∷ v ∷ []
split-shown k v h h' =
    ap (λ u. split b':' (k +++ u)) (one-append colon v)
    ∙ split_first b':' colon k v refl h
    ∙ ap (λ u. k ∷ u) (split-Lacks b':' v h')

split-join :
    (x : String) (xs : List String)
    → All (Lacks b',') (x ∷ xs)
    → split b',' (join "," (x ∷ xs)) ≡ x ∷ xs
unfolding join
split-join x [] (h, _) = split-Lacks b',' x h
split-join x (y ∷ ys) (h, hs) =
    ap (λ u. split b',' (x +++ u)) (one-append comma (join "," (y ∷ ys)))
    ∙ split_first b',' comma x (join "," (y ∷ ys)) refl h
    ∙ ap (λ u. x ∷ u) (split-join y ys hs)

shown-Lacks : (deps : Assoc String) → All IsClean deps → All (Lacks b',') (map shown deps)
shown-Lacks [] h = tt
shown-Lacks ((k, v) ∷ deps) ((_, _, a, b), h) =
    (Lacks-append b',' k (":" +++ v) a (Lacks-append b',' ":" v (refl, tt) b), shown-Lacks deps h)

parse_dependency_list-shown :
    (deps m : Assoc String)
    → All IsClean deps
    → parse_dependency_list (map shown deps) m ≡ ok (insert_all deps m)
unfolding parse_dependency_list parse_dependency
parse_dependency_list-shown [] m h = refl
parse_dependency_list-shown ((k, v) ∷ deps) m ((a, b, _, _), h) =
    rw (split-shown k v a b) (parse_dependency_list-shown deps (insert k v m) h)

join-ne-empty :
    (k v : String) (deps : Assoc String)
    → All IsClean ((k, v) ∷ deps)
    → join "," (map shown ((k, v) ∷ deps)) ≢ ""
unfolding split
join-ne-empty k v deps (clean, h) e =
    let pieces =
      split-join (shown (k, v)) (map shown deps) (shown-Lacks ((k, v) ∷ deps) (clean, h)) in
    let first : "" ∷ [] ≡ shown (k, v) ∷ map shown deps = sym (ap (split b',') e) ∙ pieces in
    let none_shown : shown (k, v) ≡ "" = cc in
    let both : "" ∷ [] ≡ k ∷ v ∷ [] =
      sym (ap (split b':') none_shown) ∙ split-shown k v clean.0 clean.1 in
    cc

-- A joined list of dependencies with no separator in a name or a version is read back: every one
-- of them is set in the map, in its order.
pub parse_dependencies-join :
    (deps m : Assoc String)
    → All IsClean deps
    → parse_dependencies (join "," (map shown deps)) m ≡ ok (insert_all deps m)
unfolding parse_dependencies join
parse_dependencies-join [] m h = refl
parse_dependencies-join ((k, v) ∷ deps) m h =
    elim (Bool-cases (join "," (map shown ((k, v) ∷ deps)) == "")) [
      | inl empty ↦ absurd (join-ne-empty k v deps h ((eq_iff _ _).0 empty))
      | inr other ↦ rw other (
          ap (λ u. parse_dependency_list u m)
            (split-join (shown (k, v)) (map shown deps) (shown-Lacks ((k, v) ∷ deps) h))
          ∙ parse_dependency_list-shown ((k, v) ∷ deps) m h)
    ]
