-- ===== src/Common/Prefix.antt =====
-- `strings.HasPrefix`, and texts that begin with a known constant.
use addon_manager.Common.Base.{
  Bool, true, false, ◌≡◌, refl, ◌&&◌, String, code, eqb, if◌then◌else◌, arith, Result, ok, err,
  panic, Error, bind,
}
use addon_manager.Common.Text.{◌+++◌}
use text.Mathlib.TextLemmas.{cons-append}

unfoldable pub has_prefix : String → String → Bool
has_prefix s String.[] = true
has_prefix String.[] (String.◌∷◌ d t) = false
has_prefix (String.◌∷◌ c s) (String.◌∷◌ d t) = eqb (code c) (code d) && has_prefix s t

-- The two texts differ at some character that both have.
unfoldable pub diverges : String → String → Bool
diverges String.[] t = false
diverges (String.◌∷◌ c s) String.[] = false
diverges (String.◌∷◌ c s) (String.◌∷◌ d t) =
    let rest = diverges s t in if eqb (code c) (code d) then rest else true

pub has_prefix-append : (a s : String) → has_prefix (a +++ s) a ≡ true
unfolding has_prefix
has_prefix-append String.[] s = refl
has_prefix-append (String.◌∷◌ c a) s = rw cons-append (ground (arith, has_prefix-append a s))

pub has_prefix-append_of_diverges :
    (a b s : String) → diverges a b ≡ true → has_prefix (a +++ s) b ≡ false
unfolding has_prefix diverges
has_prefix-append_of_diverges String.[] b s h = cc
has_prefix-append_of_diverges (String.◌∷◌ c a) String.[] s h = cc
has_prefix-append_of_diverges (String.◌∷◌ c a) (String.◌∷◌ d b) s h =
    rw cons-append (ground (arith, has_prefix-append_of_diverges a b s))

-- Every error that the result can be satisfies `P`.
abbrev pub Errs {ℓ κ} : {A : Type ℓ} → (Error → Type κ) → Result A → Type κ
Errs P (ok a) = Unit
Errs P (err e) = P e
Errs P (panic s) = Unit

pub Errs-bind {ℓ κ μ} :
    {A : Type ℓ} {B : Type κ} (P : Error → Type μ) (m : Result A) (f : A → Result B)
    → Errs P m
    → ((a : A) → Errs P (f a))
    → Errs P (bind m f)
Errs-bind P (ok a) f h k = k a
Errs-bind P (err e) f h k = h
Errs-bind P (panic s) f h k = tt

pub Errs-err {ℓ κ} :
    {A : Type ℓ} (P : Error → Type κ) (m : Result A) {e : Error} → m ≡ err e → Errs P m → P e
Errs-err P m h p = rw h at p
