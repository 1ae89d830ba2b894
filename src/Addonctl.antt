-- ===== src/Addonctl.antt =====
-- pkg/addonctl/addonctl.go: the parsers of the flags. The global maps that they fill are passed in
-- and returned; after an error or a panic the command ends, and its globals are not read again.
pub mod Parsing
pub mod Extracting
pub mod Create
pub mod Created
use addon_manager.Common.{
  ℕ, zero, suc, ◌+◌, ◌-◌, ◌*◌, ◌/◌, ◌%◌, ◌^◌, ◌≤◌, ◌<◌, Char, code, String, ◌≡◌, refl, sym, ap,
  subst, ◌∙◌, ◌≢◌, ◌↔◌, ◌⊎◌, inl, inr, Bool, true, false, not, ◌&&◌, ◌||◌, Option, none, some, List,
  [], ◌∷◌, ◌++◌, map, arith, ◌==◌, starts_with, eq_iff, eq_refl, leb, ltb, eqb, if◌then◌else◌,
  Bool-cases, Option-cases, is_some, Reason, unknown, not_found, already_exists, conflict, Error,
  errorf, Result, ok, err, panic, Reply, found, failure, Reply-cases, bind, >>=-eq-ok, >>=-eq-panic,
  >>-eq-ok, ◌>>=◌, ◌>>◌, length, get_elem?, length-append, get_elem?-append, All, ◌+++◌, len,
  is_space, trim_left, trim_right, trim_space, cons_head, split, join, hex_digit, quote, Assoc,
  lookup, insert, remove, lookup-insert, lookup-remove, All-lookup, All-insert, All-remove,
  has_prefix, diverges, has_prefix-append, has_prefix-append_of_diverges, Errs, Errs-bind, Errs-err,
  has_suffix, split_on,
}

-- The globals that the flags are parsed into; `params` may become a nil map.
pub record Parsed : Type 0 where
  pub dependencies_map : Assoc String
  pub params : Option (Assoc String)
  pub prereq_resources : List String
  pub prereq_scripts : Assoc String
  pub install_resources : List String
  pub install_scripts : Assoc String
  pub secrets_list : List String
  pub selector_map : Assoc String

-- The flags as they are given.
pub record Flags : Type 0 where
  pub prereqs : String
  pub install : String
  pub params_raw : String
  pub dependencies : String
  pub secrets_raw : String
  pub selector : String
  pub pkg_type : String

-- `m[key] = value` for a map that may be nil.
abbrev pub insert_into : String → String → Option (Assoc String) → Result (Option (Assoc String))
insert_into key value none = panic "assignment to entry in nil map"
insert_into key value (some m) = ok (some (insert key value m))

abbrev out_of_range : {A : Type 0} → Result A
out_of_range = panic "index out of range"

unfoldable pub parse_selector : String → Assoc String → Result (Assoc String)
parse_selector sel m = if sel == "" then ok m else elim (split b':' sel) [
  | [] ↦ err (errorf "Dependency had multiple separators")
  | k ∷ rest ↦ elim rest [
    | [] ↦
        if k == ":"
        then err (errorf "Missing ':' separator in selector")
        else err (errorf "Dependency had multiple separators")
    | v ∷ more ↦ elim more [
      | [] ↦ ok (insert k v m)
      | x ∷ xs ↦ err (errorf "Dependency had multiple separators")
    ]
  ]
]

-- One item of the list: `kv[1]` is read without a test of the length.
unfoldable pub parse_param :
    String → String → List String → Option (Assoc String) → Result (Option (Assoc String))
parse_param raw item [] params = out_of_range
parse_param raw item (k ∷ []) params =
    if k == "="
    then err (
        errorf (
          "Unable to parse addon params: '" +++ raw +++ "'. Key-value pair " +++ item
          +++ " does not have separator '='"))
    else out_of_range
parse_param raw item (k ∷ v ∷ more) params = insert_into k v params

unfoldable pub parse_params :
    String → List String → Option (Assoc String) → Result (Option (Assoc String))
parse_params raw [] params = ok params
parse_params raw (item ∷ items) params =
    parse_param raw item (split b'=' item) params >>= parse_params raw items

unfoldable pub parse_addon_params : String → Option (Assoc String) → Result (Option (Assoc String))
unfolding parse_params
parse_addon_params raw params =
    if raw == "" then ok none else parse_params raw (split b',' raw) params

unfoldable pub validate_pkg_type : String → Result (Unit {0})
validate_pkg_type t =
    if (t == "helm") || (t == "ship") || (t == "kustomize") || (t == "cnab") || (t == "composite")
    then ok tt
    else err (errorf "unsupported package type")

unfoldable pub parse_dependency : List String → Assoc String → Result (Assoc String)
parse_dependency (k ∷ v ∷ []) m = ok (insert k v m)
parse_dependency (k ∷ []) m =
    if k == ":"
    then err (errorf "missing ':' separator in dependency")
    else err (errorf "dependency had multiple separators")
parse_dependency _ m = err (errorf "dependency had multiple separators")

unfoldable pub parse_dependency_list : List String → Assoc String → Result (Assoc String)
parse_dependency_list [] m = ok m
parse_dependency_list (dep ∷ deps) m =
    parse_dependency (split b':' dep) m >>= parse_dependency_list deps

unfoldable pub parse_dependencies : String → Assoc String → Result (Assoc String)
parse_dependencies deps m = if deps == "" then ok m else parse_dependency_list (split b',' deps) m

abbrev is_comma : List String → Bool
is_comma (s ∷ []) = s == ","
is_comma _ = false

unfoldable pub parse_secrets : String → List String → Result (List String)
parse_secrets raw secrets_list =
    if raw == ""
    then ok secrets_list
    else if is_comma (split b',' raw)
    then err (errorf ("Error parsing secrets " +++ raw))
    else ok (secrets_list ++ split b',' raw)

-- What the command asks of the file system: `stat` answers with the base name of a path and whether it
-- is a directory, and `join_path` puts the directory of the shell before a path.
pub record Files : Type 0 where
  pub join_path : String → String
  pub stat : String → Reply (String × Bool)
  pub read_dir : String → Reply (List String)
  pub read_file : String → Reply String

abbrev add_resource : String → String → Parsed → Parsed
add_resource step text p =
    if step == "prereqs"
    then record p { prereq_resources = p.prereq_resources ++ text ∷ [] }
    else if step == "install"
    then record p { install_resources = p.install_resources ++ text ∷ [] }
    else p

unfoldable pub add_resources : String → List String → Parsed → Parsed
add_resources step [] p = p
add_resources step (text ∷ texts) p =
    add_resources step texts (if trim_space text == "" then p else add_resource step text p)

abbrev add_script_file : String → String → String → Parsed → Parsed
add_script_file step name source p =
    if step == "prereqs"
    then record p { prereq_scripts = insert name source p.prereq_scripts }
    else if step == "install"
    then record p { install_scripts = insert name source p.install_scripts }
    else p

module _ (files : Files) where
  unfoldable pub parse_resources : String → String → Parsed → Result Parsed
  unfolding add_resources
  parse_resources path step p = elim (files.read_file path) [
    | failure e ↦ err (errorf ("failed to read file " +++ path +++ ": " +++ e.text))
    | found text ↦ ok (add_resources step (split_on "---\n" 3 0 text) p)
  ]

  -- A script: `read_as` is the path that it is read from.
  unfoldable pub read_script : String → String → String → Parsed → Result Parsed
  read_script read_as name step p = elim (files.read_file read_as) [
    | failure e ↦ err (errorf ("unable to read file " +++ name))
    | found source ↦ ok (add_script_file step name source p)
  ]

  -- A file by its ending; `read_as` is where a script is read from, `path` where resources are.
  unfoldable pub extract_file : String → String → String → String → Parsed → Result Parsed
  unfolding parse_resources read_script
  extract_file read_as name path step p =
      if has_suffix ".py" name
      then read_script read_as name step p
      else if has_suffix ".yaml" name || has_suffix ".yml" name
      then parse_resources path step p
      else ok p

  -- The loop over a directory: a script is read by its bare name, resources from the directory itself.
  unfoldable pub extract_files : String → String → List String → Parsed → Result Parsed
  unfolding extract_file
  extract_files path step [] p = ok p
  extract_files path step (name ∷ names) p =
      extract_file name name path step p >>= extract_files path step names

  abbrev extract_dir : String → String → Reply (List String) → Parsed → Result Parsed
  extract_dir path step (failure e) p =
      err (errorf ("failed to read dir path " +++ path +++ ": " +++ e.text))
  extract_dir path step (found names) p = extract_files path step names p

  abbrev extract_path : String → String → Reply (String × Bool) → Parsed → Result Parsed
  extract_path path step (failure e) p = err e
  extract_path path step (found (name, true)) p = extract_dir path step (files.read_dir path) p
  extract_path path step (found (name, false)) p = extract_file path name path step p

  -- `extractResources`, over the two steps in the order of the map.
  unfoldable pub extract_resources : List (String × String) → Parsed → Result Parsed
  unfolding extract_files
  extract_resources [] p = ok p
  extract_resources ((step, given) ∷ more) p =
      (if given == ""
        then ok p
        else extract_path (files.join_path given) step (files.stat (files.join_path given)) p)
      >>= extract_resources more

  abbrev lifecycle_steps : Bool → Flags → List (String × String)
  lifecycle_steps true f = ("install", f.install) ∷ ("prereqs", f.prereqs) ∷ []
  lifecycle_steps false f = ("prereqs", f.prereqs) ∷ ("install", f.install) ∷ []

  -- `parseAllArgs`; `install_first` is the order in which the map of the two steps is visited.
  unfoldable pub parse_all_args : Bool → Flags → Parsed → Result Parsed
  unfolding extract_resources
  parse_all_args install_first f p0 = do
    p ← extract_resources (lifecycle_steps install_first f) p0
    params ← parse_addon_params f.params_raw p.params
    dependencies_map ← parse_dependencies f.dependencies p.dependencies_map
    secrets_list ← parse_secrets f.secrets_raw p.secrets_list
    selector_map ← parse_selector f.selector p.selector_map
    validate_pkg_type f.pkg_type
    ok (record p {
      dependencies_map = dependencies_map;
      params = params;
      secrets_list = secrets_list;
      selector_map = selector_map;
    })
