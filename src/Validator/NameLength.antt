-- ===== src/Validator/NameLength.antt =====
-- api/addon/v1alpha1/addon_types.go and pkg/addon/addon_validator.go: the length of a workflow's name.
use addon_manager.Validator.Verdict.{validate_sound}
use addon_manager.Validator.{validate}
use addon_manager.Document.{Documents}
use addon_manager.VersionCache.{Semver, Cache}
use addon_manager.Common.{
  ℕ, zero, suc, ◌+◌, ◌/◌, ◌%◌, ◌≤◌, String, ◌≡◌, refl, inl, inr, Bool, true, false, List, arith,
  ◌==◌, ltb, eqb, if◌then◌else◌, Bool-cases, ok, found, ◌+++◌, len, hex_digit,
}
use addon_manager.Api.Phase.{LifecycleStep, prereqs, install, delete, other, step_text}
use addon_manager.Api.Phase.{validate as validate_step}
use addon_manager.Api.Addon.{
  Addon, calculate_checksum, workflow_prefix, get_workflow_type, get_formatted_workflow_name,
}
use addon_manager.Api.Checksum.{adler32, hex, hex_from}
use addon_manager.Api.Spec.{AddonSpec, WorkflowType}
use text.Mathlib.TextPositions.{len-append}

one_byte : (b : Bool) (x y : String) → len x ≡ 1 → len y ≡ 1 → len (if b then x else y) ≡ 1
one_byte true x y hx hy = hx
one_byte false x y hx hy = hy

len-hex_digit : (n : ℕ) → len (hex_digit n) ≡ 1
unfolding hex_digit
len-hex_digit n = one_byte (eqb n 0) "0" _ refl (
    one_byte (eqb n 1) "1" _ refl (
      one_byte (eqb n 2) "2" _ refl (
        one_byte (eqb n 3) "3" _ refl (
          one_byte (eqb n 4) "4" _ refl (
            one_byte (eqb n 5) "5" _ refl (
              one_byte (eqb n 6) "6" _ refl (
                one_byte (eqb n 7) "7" _ refl (
                  one_byte (eqb n 8) "8" _ refl (
                    one_byte (eqb n 9) "9" _ refl (
                      one_byte (eqb n 10) "a" _ refl (
                        one_byte (eqb n 11) "b" _ refl (
                          one_byte (eqb n 12) "c" _ refl (
                            one_byte (eqb n 13) "d" _ refl
                              (one_byte (eqb n 14) "e" _ refl refl))))))))))))))

-- At most one digit for each unit of fuel, and one more.
len-hex_from : (fuel n : ℕ) (acc : String) → len (hex_from fuel n acc) ≤ suc fuel + len acc
unfolding hex_from
len-hex_from zero n acc =
    let one = len-hex_digit (n % 16) in
    let more = len-append (hex_digit (n % 16)) acc in omega arith
len-hex_from (suc fuel) n acc = elim (Bool-cases (ltb n 16)) [
  | inl small ↦
      let one = len-hex_digit n in let more = len-append (hex_digit n) acc in rw small (omega arith)
  | inr large ↦
      let rest = len-hex_from fuel (n / 16) (hex_digit (n % 16) +++ acc) in
      let one = len-hex_digit (n % 16) in
      let more = len-append (hex_digit (n % 16)) acc in rw large (omega arith)
]

len_checksum :
    (spec_bytes : AddonSpec → List ℕ) (a : Addon) → len (calculate_checksum spec_bytes a) ≤ 8
unfolding calculate_checksum hex
len_checksum spec_bytes a = len-hex_from 7 (adler32 (spec_bytes a.spec)) ""

len_prefix :
    (a : Addon) (wt : WorkflowType)
    → len (workflow_prefix a wt) ≤ len a.name + 1 + len wt.name_prefix
unfolding workflow_prefix
len_prefix a wt = elim (Bool-cases (wt.name_prefix == "")) [
  | inl bare ↦ rw bare (omega arith)
  | inr given ↦
      let one = len-append a.name ("-" +++ wt.name_prefix) in
      let more = len-append "-" wt.name_prefix in rw given (omega arith)
]

-- A text of the name's shape.
len_name :
    (prefix step checksum : String)
    → len (prefix +++ "-" +++ step +++ "-" +++ checksum +++ "-wf")
      ≡ len prefix + len step + len checksum + 5
len_name prefix step checksum =
    let a = len-append prefix ("-" +++ step +++ "-" +++ checksum +++ "-wf") in
    let b = len-append "-" (step +++ "-" +++ checksum +++ "-wf") in
    let c = len-append step ("-" +++ checksum +++ "-wf") in
    let d = len-append "-" (checksum +++ "-wf") in let e = len-append checksum "-wf" in omega arith

module _ {V : Type 0} (semver : Semver V) (docs : Documents) (spec_bytes : AddonSpec → List ℕ)
    (order : List LifecycleStep) (cache : Cache) (a : Addon) where
  name_fits :
      (wt : WorkflowType) (step : LifecycleStep)
      → len a.name ≤ 31
      → len (step_text step) ≤ 8
      → get_workflow_type a step ≡ found wt
      → len (get_formatted_workflow_name spec_bytes a step) ≤ 53 + len wt.name_prefix
  unfolding get_formatted_workflow_name
  name_fits wt step short step_fits there =
      let shape =
        len_name (workflow_prefix a wt) (step_text step) (calculate_checksum spec_bytes a) in
      let front = len_prefix a wt in
      let sum = len_checksum spec_bytes a in rw (there, get_formatted_workflow_name) (omega arith)

  step_fits :
      (wt : WorkflowType) (step : LifecycleStep)
      → get_workflow_type a step ≡ found wt
      → len (step_text step) ≤ 8
  unfolding get_workflow_type
  step_fits wt prereqs there = omega arith
  step_fits wt install there = omega arith
  step_fits wt delete there = omega arith
  step_fits wt validate_step there = omega arith
  step_fits wt (other s) there = cc

  -- The name of a workflow of an addon that `Validate` accepts, for a step that has a workflow
  -- type, has at most 53 bytes beside the prefix that this type asks for.
  pub get_formatted_workflow_name_bound :
      (wt : WorkflowType) (step : LifecycleStep)
      → validate semver docs spec_bytes order cache a ≡ ok tt
      → get_workflow_type a step ≡ found wt
      → len (get_formatted_workflow_name spec_bytes a step) ≤ 53 + len wt.name_prefix
  get_formatted_workflow_name_bound wt step accepted there =
      let (_, short, _, _) = validate_sound semver docs spec_bytes order cache a accepted in
      name_fits wt step short (step_fits wt step there) there
