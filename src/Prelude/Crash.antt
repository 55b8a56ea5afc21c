-- ===== src/Prelude/Crash.antt =====
-- What a piece of C code does: it completes with a value, or it crashes, which stands for
-- undefined behaviour at an invalid pointer.
use mathlib.Core.Path.{◌≡◌, refl}
use mathlib.Core.Logic.{◌⊎◌, inl, inr}

pub data Outcome {ℓ} (A : Type ℓ) : Type ℓ where
  crash : Outcome A
  done : A → Outcome A

infixl 5 ◌>>=◌
abbrev pub ◌>>=◌ {ℓ κ} : {A : Type ℓ} {B : Type κ} → Outcome A → (A → Outcome B) → Outcome B
crash >>= f = crash
done a >>= f = f a

pub >>=-eq-done {ℓ κ} :
    {A : Type ℓ} {B : Type κ} (m : Outcome A) (f : A → Outcome B) {b : B}
    → (m >>= f) ≡ done b
    → (a : A) × (m ≡ done a) × (f a ≡ done b)
>>=-eq-done crash f h = cc
>>=-eq-done (done a) f h = (a, refl, h)

pub Outcome-cases {ℓ} : {A : Type ℓ} (m : Outcome A) → (m ≡ crash) ⊎ ((a : A) × (m ≡ done a))
Outcome-cases crash = inl refl
Outcome-cases (done a) = inr (a, refl)

pub done-injective {ℓ} : {A : Type ℓ} {a b : A} → done a ≡ done b → a ≡ b
done-injective e = cc
