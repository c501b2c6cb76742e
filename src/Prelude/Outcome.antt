-- ===== src/Prelude/Outcome.antt =====
-- What a call of the program comes to: a result, or a Go panic. `stuck` is no behaviour of the
-- program: a loop of the model ran out of fuel.
use mathlib.Core.Path.{◌≡◌, refl}
use mathlib.Core.Logic.{◌≢◌, ◌⊎◌, inl, inr}

pub data Outcome {ℓ} (A : Type ℓ) : Type ℓ where
  ok : A → Outcome A
  panic : Outcome A
  stuck : Outcome A

infixl 5 ◌>>=◌
abbrev pub ◌>>=◌ {ℓ κ} : {A : Type ℓ} {B : Type κ} → Outcome A → (A → Outcome B) → Outcome B
ok a >>= f = f a
panic >>= f = panic
stuck >>= f = stuck

-- A result that does not run out of fuel is a panic or a value.
pub Outcome-cases {ℓ} :
    {A : Type ℓ} (r : Outcome A) → r ≢ stuck → (r ≡ panic) ⊎ ((a : A) × (r ≡ ok a))
Outcome-cases (ok a) h = inr (a, refl)
Outcome-cases panic h = inl refl
Outcome-cases stuck h = absurd (h refl)
