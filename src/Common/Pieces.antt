-- ===== src/Common/Pieces.antt =====
-- Splitting a text that was joined with a separator, and texts that trimming leaves alone.
use addon_manager.Common.Base.{
  ℕ, ◌≤◌, ◌≡◌, refl, ap, ◌∙◌, Bool, true, false, List, [], ◌∷◌, ◌++◌, Char, code, String, eqb,
  if◌then◌else◌, arith, Bool-cases, inl, inr,
}
use addon_manager.Common.Lists.{length, All}
use addon_manager.Common.Text.{
  ◌+++◌, is_space, trim_left, trim_right, trim_space, cons_head, split, hex_digit,
}
use Prim.Native.Char.{char}
use text.Mathlib.TextLemmas.{nil-append, cons-append}

cons_head-pos : (c : Char) (xs : List String) → 1 ≤ length (cons_head c xs)
cons_head-pos c [] = omega arith
cons_head-pos c (x ∷ xs) = omega arith

pub split-pos : (sep : ℕ) (s : String) → 1 ≤ length (split sep s)
unfolding split
split-pos sep String.[] = omega arith
split-pos sep (String.◌∷◌ c s) = ground (arith, cons_head-pos c (split sep s))

cons_head-append :
    (c : Char) (xs ys : List String) → 1 ≤ length xs → cons_head c (xs ++ ys) ≡ cons_head c xs ++ ys
cons_head-append c [] ys h = absurd (omega arith)
cons_head-append c (x ∷ xs) ys h = refl

-- The pieces of a text with a separator in it are those before and those behind.
pub split-append_cons :
    (sep : ℕ) (d : Char) (s t : String)
    → code d ≡ sep
    → split sep (s +++ String.◌∷◌ d t) ≡ split sep s ++ split sep t
unfolding split
split-append_cons sep d String.[] t e = rw nil-append (ground arith)
split-append_cons sep d (String.◌∷◌ c s) t e = rw cons-append (
    ground (
      arith,
      split-append_cons sep d s t e,
      cons_head-append c (split sep s) (split sep t) (split-pos sep s),
    ))

abbrev dash : Char
dash = char 45 tt

pub dash-append : (t : String) → "-" +++ t ≡ String.◌∷◌ dash t
dash-append t = cons-append dash String.[] t ∙ ap (String.◌∷◌ dash) (nil-append t)

pub split-append_dash : (s t : String) → split 45 (s +++ "-" +++ t) ≡ split 45 s ++ split 45 t
split-append_dash s t =
    ap (λ u. split 45 (s +++ u)) (dash-append t) ∙ split-append_cons 45 dash s t refl

-- No character is the separator.
abbrev pub Lacks : ℕ → String → Type 0
Lacks sep String.[] = Unit
Lacks sep (String.◌∷◌ c s) = (eqb (code c) sep ≡ false) × Lacks sep s

-- A text without the separator is one piece.
pub split-Lacks : (sep : ℕ) (s : String) → Lacks sep s → split sep s ≡ s ∷ []
unfolding split
split-Lacks sep String.[] h = refl
split-Lacks sep (String.◌∷◌ c s) (apart, h) = ground (arith, split-Lacks sep s h)

cons_head-Lacks :
    (sep : ℕ) (c : Char) (xs : List String)
    → eqb (code c) sep ≡ false
    → All (Lacks sep) xs
    → All (Lacks sep) (cons_head c xs)
cons_head-Lacks sep c [] apart h = ((apart, tt), tt)
cons_head-Lacks sep c (x ∷ xs) apart (p, h) = ((apart, p), h)

-- No piece has the separator in it.
pub All-split : (sep : ℕ) (s : String) → All (Lacks sep) (split sep s)
unfolding split
All-split sep String.[] = (tt, tt)
All-split sep (String.◌∷◌ c s) = elim (Bool-cases (eqb (code c) sep)) [
  | inl hit ↦ rw hit (tt, All-split sep s)
  | inr apart ↦ rw apart (cons_head-Lacks sep c (split sep s) apart (All-split sep s))
]

pub Lacks-append : (sep : ℕ) (s t : String) → Lacks sep s → Lacks sep t → Lacks sep (s +++ t)
Lacks-append sep String.[] t h k = rw nil-append k
Lacks-append sep (String.◌∷◌ c s) t (a, h) k = rw cons-append (a, Lacks-append sep s t h k)

-- Splitting behind the first separator.
pub split_first :
    (sep : ℕ) (d : Char) (s t : String)
    → code d ≡ sep
    → Lacks sep s
    → split sep (s +++ String.◌∷◌ d t) ≡ s ∷ split sep t
split_first sep d s t e h = rw (split-append_cons sep d s t e, split-Lacks sep s h) refl

pub one-append : (c : Char) (t : String) → String.◌∷◌ c String.[] +++ t ≡ String.◌∷◌ c t
one-append c t = cons-append c String.[] t ∙ ap (String.◌∷◌ c) (nil-append t)

-- No character is a space or a dash.
abbrev pub IsPlain : String → Type 0
IsPlain String.[] = Unit
IsPlain (String.◌∷◌ c s) = (is_space (code c) ≡ false) × (eqb (code c) 45 ≡ false) × IsPlain s

-- A plain text is one piece.
pub split-IsPlain : (s : String) → IsPlain s → split 45 s ≡ s ∷ []
unfolding split
split-IsPlain String.[] h = refl
split-IsPlain (String.◌∷◌ c s) (_, apart, h) = ground (arith, split-IsPlain s h)

trim_left-IsPlain : (s : String) → IsPlain s → trim_left s ≡ s
unfolding trim_left
trim_left-IsPlain String.[] h = refl
trim_left-IsPlain (String.◌∷◌ c s) (solid, _, h) = rw solid refl

trim_right-IsPlain : (s : String) → IsPlain s → trim_right s ≡ s
unfolding trim_right
trim_right-IsPlain String.[] h = refl
trim_right-IsPlain (String.◌∷◌ c s) (solid, _, h) = rw (solid, trim_right-IsPlain s h) refl

-- Trimming leaves a plain text alone.
pub trim_space-IsPlain : (s : String) → IsPlain s → trim_space s ≡ s
unfolding trim_space
trim_space-IsPlain s h = rw (trim_left-IsPlain s h) (trim_right-IsPlain s h)

pub IsPlain-append : (s t : String) → IsPlain s → IsPlain t → IsPlain (s +++ t)
IsPlain-append String.[] t h k = rw nil-append k
IsPlain-append (String.◌∷◌ c s) t (a, b, h) k = rw cons-append (a, b, IsPlain-append s t h k)

IsPlain-if : (b : Bool) (s t : String) → IsPlain s → IsPlain t → IsPlain (if b then s else t)
IsPlain-if true s t h k = h
IsPlain-if false s t h k = k

pub hex_digit-IsPlain : (n : ℕ) → IsPlain (hex_digit n)
unfolding hex_digit is_space
hex_digit-IsPlain n =
    IsPlain-if (eqb n 0) "0" _ (refl, refl, tt)
      (IsPlain-if (eqb n 1) "1" _ (refl, refl, tt)
        (IsPlain-if (eqb n 2) "2" _ (refl, refl, tt)
          (IsPlain-if (eqb n 3) "3" _ (refl, refl, tt)
            (IsPlain-if (eqb n 4) "4" _ (refl, refl, tt)
              (IsPlain-if (eqb n 5) "5" _ (refl, refl, tt)
                (IsPlain-if (eqb n 6) "6" _ (refl, refl, tt)
                  (IsPlain-if (eqb n 7) "7" _ (refl, refl, tt)
                    (IsPlain-if (eqb n 8) "8" _ (refl, refl, tt)
                      (IsPlain-if (eqb n 9) "9" _ (refl, refl, tt)
                        (IsPlain-if (eqb n 10) "a" _ (refl, refl, tt)
                          (IsPlain-if (eqb n 11) "b" _ (refl, refl, tt)
                            (IsPlain-if (eqb n 12) "c" _ (refl, refl, tt)
                              (IsPlain-if (eqb n 13) "d" _ (refl, refl, tt)
                                (IsPlain-if (eqb n 14) "e" "f" (refl, refl, tt)
                                  (refl, refl, tt)))))))))))))))
