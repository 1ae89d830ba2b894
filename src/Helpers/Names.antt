-- ===== src/Helpers/Names.antt =====
-- pkg/common/helpers.go, `ExtractChecksumAndLifecycleStep`, against `GetFormattedWorkflowName`.
use addon_manager.Common.{
  ℕ, zero, suc, ◌+◌, ◌-◌, ◌/◌, ◌%◌, ◌≤◌, String, ◌≡◌, refl, inl, inr, false, some, List, [], ◌∷◌,
  ◌++◌, arith, ltb, Bool-cases, found, length, length-append, get_elem?-append, ◌+++◌, is_space,
  trim_space, split, hex_digit, IsPlain, IsPlain-append, split-append_dash, split-pos,
  trim_space-IsPlain, hex_digit-IsPlain, split-IsPlain,
}
use addon_manager.Common.{
  ℕ, zero, suc, ◌+◌, ◌-◌, ◌/◌, ◌%◌, ◌≤◌, String, ◌≡◌, refl, inl, inr, false, some, List, [], ◌∷◌,
  ◌++◌, arith, ltb, Bool-cases, found, length, length-append, get_elem?-append, ◌+++◌, is_space,
  trim_space, split, hex_digit,
}
use addon_manager.Api.Phase.{LifecycleStep, prereqs, install, delete, validate, other}
use addon_manager.Api.Spec.{AddonSpec, WorkflowType}
use addon_manager.Api.Checksum.{adler32, hex_from, hex}
use addon_manager.Api.Addon.{
  Addon, get_workflow_type, workflow_prefix, calculate_checksum, get_formatted_workflow_name,
}
use addon_manager.Helpers.{part, step_of, extract_checksum_and_lifecycle_step, extract_from}

hex_from-IsPlain : (fuel n : ℕ) (acc : String) → IsPlain acc → IsPlain (hex_from fuel n acc)
unfolding hex_from
hex_from-IsPlain zero n acc h =
    IsPlain-append (hex_digit (n % 16)) acc (hex_digit-IsPlain (n % 16)) h
hex_from-IsPlain (suc fuel) n acc h = elim (Bool-cases (ltb n 16)) [
  | inl small ↦ rw small (IsPlain-append (hex_digit n) acc (hex_digit-IsPlain n) h)
  | inr large ↦ rw large (
      hex_from-IsPlain fuel (n / 16) (hex_digit (n % 16) +++ acc)
        (IsPlain-append (hex_digit (n % 16)) acc (hex_digit-IsPlain (n % 16)) h))
]

module _ (spec_bytes : AddonSpec → List ℕ) (a : Addon) where
  calculate_checksum-IsPlain : IsPlain (calculate_checksum spec_bytes a)
  unfolding calculate_checksum hex
  calculate_checksum-IsPlain = hex_from-IsPlain 7 (adler32 (spec_bytes a.spec)) "" tt

-- The pieces of a workflow's name: those of its prefix, and three more.
name_pieces :
    (prefix step checksum : String)
    → IsPlain step
    → IsPlain checksum
    → split b'-' (prefix +++ "-" +++ step +++ "-" +++ checksum +++ "-wf")
      ≡ split b'-' prefix ++ step ∷ checksum ∷ "wf" ∷ []
unfolding split
name_pieces prefix step checksum h k =
    rw
      (
        split-append_dash prefix (step +++ "-" +++ checksum +++ "-wf"),
        split-append_dash step (checksum +++ "-wf"),
        split-append_dash checksum "wf",
        split-IsPlain step h,
        split-IsPlain checksum k,
      )
      refl

part_behind :
    (front back : List String) (i n : ℕ)
    → n ≡ length front + i
    → part (front ++ back) n ≡ part back i
unfolding part
part_behind front back i n e = rw (part, get_elem?-append front back i n e) refl

-- A known step, a checksum and "wf" behind at least one part give back the checksum and the step.
extract_from_lem :
    (name : String) (front : List String) (text checksum : String) (step : LifecycleStep)
    → 1 ≤ length front
    → IsPlain text
    → IsPlain checksum
    → step_of text ≡ some step
    → extract_from name (front ++ text ∷ checksum ∷ "wf" ∷ []) ≡ found (checksum, step)
unfolding extract_from part trim_space
extract_from_lem name front text checksum step pos h k e =
    let back = text ∷ checksum ∷ "wf" ∷ [] in
    let size = length-append front back in
    let short : ltb (length (front ++ back)) 4 ≡ false = ground (arith, size) in
    let last = part_behind front back 2 (length (front ++ back) - 1) (omega (arith, size)) in
    let middle = part_behind front back 1 (length (front ++ back) - 2) (omega (arith, size)) in
    let first = part_behind front back 0 (length (front ++ back) - 3) (omega (arith, size)) in
    rw (short, last, middle, first, trim_space-IsPlain text h, trim_space-IsPlain checksum k, e)
      refl

prereqs_IsPlain : IsPlain "prereqs"
unfolding is_space
prereqs_IsPlain = (
  refl,
  refl,
  (refl, refl, (refl, refl, (refl, refl, (refl, refl, (refl, refl, (refl, refl, tt)))))),
)

install_IsPlain : IsPlain "install"
unfolding is_space
install_IsPlain = (
  refl,
  refl,
  (refl, refl, (refl, refl, (refl, refl, (refl, refl, (refl, refl, (refl, refl, tt)))))),
)

delete_IsPlain : IsPlain "delete"
unfolding is_space
delete_IsPlain =
    (refl, refl, (refl, refl, (refl, refl, (refl, refl, (refl, refl, (refl, refl, tt))))))

validate_IsPlain : IsPlain "validate"
unfolding is_space
validate_IsPlain = (
  refl,
  refl,
  (
    refl,
    refl,
    (refl, refl, (refl, refl, (refl, refl, (refl, refl, (refl, refl, (refl, refl, tt)))))),
  ),
)

module _ (spec_bytes : AddonSpec → List ℕ) (a : Addon) where
  name_round_trip :
      (step : LifecycleStep) (text : String)
      → IsPlain text
      → step_of text ≡ some step
      → (wt : WorkflowType)
      → extract_checksum_and_lifecycle_step (
          workflow_prefix a wt
          +++ "-"
          +++ text
          +++ "-"
          +++ calculate_checksum spec_bytes a
          +++ "-wf")
        ≡ found (calculate_checksum spec_bytes a, step)
  unfolding extract_checksum_and_lifecycle_step
  name_round_trip step text h e wt =
      let checksum = calculate_checksum spec_bytes a in
      let prefix = workflow_prefix a wt in
      let plain = calculate_checksum-IsPlain spec_bytes a in
      rw (name_pieces prefix text checksum h plain) (
        extract_from_lem (prefix +++ "-" +++ text +++ "-" +++ checksum +++ "-wf")
          (split b'-' prefix) text checksum step (split-pos 45 prefix) h plain e)

  -- One of the four lifecycle steps.
  abbrev pub IsKnown : LifecycleStep → Type 0
  IsKnown (other s) = ⊥
  IsKnown _ = Unit

  -- The checksum and the step are read back from the name of a workflow, whatever the addon is
  -- called and whatever prefix its workflows have.
  pub extract-get_formatted_workflow_name :
      (step : LifecycleStep)
      → IsKnown step
      → extract_checksum_and_lifecycle_step (get_formatted_workflow_name spec_bytes a step)
        ≡ found (calculate_checksum spec_bytes a, step)
  unfolding get_formatted_workflow_name get_workflow_type step_of is_space
  extract-get_formatted_workflow_name prereqs h =
      name_round_trip prereqs "prereqs" prereqs_IsPlain refl a.spec.lifecycle.prereqs
  extract-get_formatted_workflow_name install h =
      name_round_trip install "install" install_IsPlain refl a.spec.lifecycle.install
  extract-get_formatted_workflow_name delete h =
      name_round_trip delete "delete" delete_IsPlain refl a.spec.lifecycle.delete
  extract-get_formatted_workflow_name validate h =
      name_round_trip validate "validate" validate_IsPlain refl a.spec.lifecycle.validate
  extract-get_formatted_workflow_name (other s) h = elim h [ ]
