-- ===== src/Addonctl/Extracting.antt =====
-- pkg/addonctl/addonctl.go, `extractResources`: directories.
use addon_manager.Common.{
  String, ◌≡◌, refl, ◌⊎◌, inl, inr, true, false, ◌||◌, List, [], ◌∷◌, ◌++◌, Bool-cases, Error, ok,
  err, failure, Reply-cases,
}
use addon_manager.Addonctl.{
  Files, Parsed, extract_file, extract_files, parse_resources, has_suffix, read_script,
}

module _ (files : Files) where
  -- A file of a directory never panics.
  extract_file-cases :
      (read_as name path step : String) (p : Parsed)
      → ((p' : Parsed) × (extract_file files read_as name path step p ≡ ok p'))
        ⊎ ((e : Error) × (extract_file files read_as name path step p ≡ err e))
  unfolding extract_file parse_resources read_script
  extract_file-cases read_as name path step p = elim (Bool-cases (has_suffix ".py" name)) [
    | inl is_script ↦ elim (Reply-cases (files.read_file read_as)) [
      | inl (text, there) ↦ rw (is_script, extract_file) (rw (there, read_script) (inl (_, refl)))
      | inr (e, bad) ↦ rw (is_script, extract_file) (rw (bad, read_script) (inr (_, refl)))
    ]
    | inr further ↦ elim (Bool-cases (has_suffix ".yaml" name || has_suffix ".yml" name)) [
      | inr neither ↦ rw (further, extract_file) (rw (neither, extract_file) (inl (p, refl)))
      | inl text_file ↦ elim (Reply-cases (files.read_file path)) [
        | inl (text, there) ↦
            rw (further, extract_file)
              (rw (text_file, extract_file) (rw (there, parse_resources) (inl (_, refl))))
        | inr (e, bad) ↦
            rw (further, extract_file)
              (rw (text_file, extract_file) (rw (bad, parse_resources) (inr (_, refl))))
      ]
    ]
  ]

  -- If the path of a directory cannot be read as a file, a directory that holds a file of resources
  -- is refused with an error, whatever else it holds.
  pub extract_files_refuses :
      (path step name : String) (front back : List String) (p : Parsed) (unread : Error)
      → files.read_file path ≡ failure unread
      → has_suffix ".py" name ≡ false
      → has_suffix ".yaml" name || has_suffix ".yml" name ≡ true
      → (e : Error) × (extract_files files path step (front ++ name ∷ back) p ≡ err e)
  unfolding extract_files extract_file parse_resources
  extract_files_refuses path step name [] back p unread dir no_script text_file =
      rw (no_script, extract_file)
        (rw (text_file, extract_file) (rw (dir, parse_resources) (_, refl)))
  extract_files_refuses path step name (other_name ∷ front) back p unread dir no_script text_file =
      elim (extract_file-cases other_name other_name path step p) [
        | inr (e, bad) ↦ rw (bad, extract_files) (e, refl)
        | inl (p', fine) ↦
            rw (fine, extract_files)
              (extract_files_refuses path step name front back p' unread dir no_script text_file)
      ]
