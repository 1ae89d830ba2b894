-- ===== src/Api/Flex.antt =====
-- api/addon/v1alpha1/addon_types.go: how a `FlexString` is read from JSON.
use addon_manager.Common.{
  code, String, ◌≡◌, ap, ◌∙◌, ◌⊎◌, inl, inr, Bool, true, false, Option, none, some, arith, eqb,
  if◌then◌else◌, Bool-cases, Option-cases, errorf, Result, ok, err, panic, Reply, found, failure,
  Reply-cases,
}
use addon_manager.Api.Spec.{FlexString}

-- `json.Unmarshal` into a string, a bool and an int, and `strconv.Itoa`.
pub record Json (I : Type 0) : Type 0 where
  pub as_string : String → Reply String
  pub as_bool : String → Option Bool
  pub as_int : String → Option I
  pub itoa : I → String

module _ {I : Type 0} (json : Json I) where
  unfoldable read_quoted : Reply String → Result FlexString
  read_quoted (found s) = ok s
  read_quoted (failure e) = err e

  unfoldable read_int : Option I → Result FlexString
  read_int (some i) = ok (json.itoa i)
  read_int none = err (errorf "unable to unmarshal from bool or int into string")

  unfoldable read_bare : String → Option Bool → Result FlexString
  read_bare b (some true) = ok "true"
  read_bare b (some false) = ok "false"
  read_bare b none = read_int (json.as_int b)

  -- `FlexString.UnmarshalJSON`; the first byte is read without a test of the length.
  unfoldable pub unmarshal_json : String → Result FlexString
  unfolding read_quoted read_bare read_int
  unmarshal_json String.[] = panic "index out of range"
  unmarshal_json (String.◌∷◌ c s) =
      let b = String.◌∷◌ c s in
      if eqb (code c) 34 then read_quoted (json.as_string b) else read_bare b (json.as_bool b)

  -- What is read is the decoded string, the text of a truth value, or that of a number.
  abbrev pub Reads : String → FlexString → Type 0
  Reads b t =
      (json.as_string b ≡ found t)
      ⊎ ((v : Bool) × (json.as_bool b ≡ some v) × (t ≡ (if v then "true" else "false")))
      ⊎ ((i : I) × (json.as_int b ≡ some i) × (t ≡ json.itoa i))

  -- A text that is read comes from the string, the truth value or the number that the JSON holds.
  pub unmarshal_json_sound : (b : String) (t : FlexString) → unmarshal_json b ≡ ok t → Reads b t
  unfolding unmarshal_json read_quoted read_bare read_int
  unmarshal_json_sound String.[] t e = cc
  unmarshal_json_sound (String.◌∷◌ c s) t e =
      let b = String.◌∷◌ c s in
      elim (Bool-cases (eqb (code c) 34)) [
        | inl quoted ↦ elim (Reply-cases (json.as_string b)) [
          | inl (u, got) ↦ inl (got ∙ ap found (ground arith))
          | inr (f, bad) ↦ absurd (ground arith)
        ]
        | inr bare ↦ elim (Option-cases (json.as_bool b)) [
          | inr (true, got) ↦ inr (inl (true, got, ground arith))
          | inr (false, got) ↦ inr (inl (false, got, ground arith))
          | inl other ↦ elim (Option-cases (json.as_int b)) [
            | inr (i, got) ↦ inr (inr (i, got, ground arith))
            | inl bad ↦ absurd (ground arith)
          ]
        ]
      ]
