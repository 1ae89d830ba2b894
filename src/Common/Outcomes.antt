-- ===== src/Common/Outcomes.antt =====
-- Results that are no panic.
use addon_manager.Common.Base.{◌≢◌, refl, Result, ok, err, panic, bind, String}

-- The result is no panic, and a value that it holds satisfies `P`.
abbrev pub Safe {ℓ} : {A : Type ℓ} → (A → Type 0) → Result A → Type 0
Safe P (ok a) = P a
Safe P (err e) = Unit
Safe P (panic s) = ⊥

pub Safe-bind {ℓ κ} :
    {A : Type ℓ} {B : Type κ} (P : A → Type 0) (Q : B → Type 0) (m : Result A) (f : A → Result B)
    → Safe P m
    → ((a : A) → P a → Safe Q (f a))
    → Safe Q (bind m f)
Safe-bind P Q (ok a) f h k = k a h
Safe-bind P Q (err e) f h k = tt
Safe-bind P Q (panic s) f h k = elim h [ ]

-- The value carries no condition.
abbrev pub Any {ℓ} : {A : Type ℓ} → A → Type 0
Any a = Unit

pub Safe-of : {A : Type 0} (m : Result A) → ((s : String) → m ≢ panic s) → Safe Any m
Safe-of (ok x) h = tt
Safe-of (err e) h = tt
Safe-of (panic s) h = h s refl
