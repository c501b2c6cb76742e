-- ===== src/Prelude/Family.antt =====
-- Families over the natural numbers, one value of which is changed at a time.
use Prim.Native.Nat.{ℕ}
use mathlib.Core.Path.{◌≡◌, refl, sym, subst}
use mathlib.Core.Logic.{◌≢◌, ite}
use native.Mathlib.Decide.{ℕ_discrete}

abbrev pub put {ℓ} : {A : Type ℓ} → ℕ → A → (ℕ → A) → ℕ → A
put i a f j = ite (ℕ_discrete j i) a (f j)

module _ {ℓ} {A : Type ℓ} where
  ite_yes : {P : Type 0} (d : Dec P) (a b : A) → P → ite d a b ≡ a
  ite_yes (yes p) a b h = refl
  ite_yes (no n) a b h = absurd (n h)

  ite_no : {P : Type 0} (d : Dec P) (a b : A) → (P → ⊥) → ite d a b ≡ b
  ite_no (yes p) a b h = absurd (h p)
  ite_no (no n) a b h = refl

  pub put_here : (i : ℕ) (a : A) (f : ℕ → A) → put i a f i ≡ a
  put_here i a f = ite_yes (ℕ_discrete i i) a (f i) refl

  pub put_away : (i : ℕ) (a : A) (f : ℕ → A) (j : ℕ) → j ≢ i → put i a f j ≡ f j
  put_away i a f j h = ite_no (ℕ_discrete j i) a (f j) h

  -- What holds of the new value and of the others holds of the family.
  pub put-keeps {κ} :
      (P : ℕ → A → Type κ) (i : ℕ) (a : A) (f : ℕ → A)
      → P i a
      → ((j : ℕ) → j ≢ i → P j (f j))
      → (j : ℕ) → P j (put i a f j)
  put-keeps P i a f p q j = elim (ℕ_discrete j i) [
    | yes e ↦ subst (λ k. P k (put i a f k)) (sym e) (subst (P i) (sym (put_here i a f)) p)
    | no n ↦ subst (P j) (sym (put_away i a f j n)) (q j n)
  ]
