-- ===== src/Prelude/Bits.antt =====
-- The bits of a number, which Go's |, &^, & and ^ read and write: `b & (1 << k) != 0`,
-- `b | 1 << k`, `b &^ (1 << k)`, and the exclusive or of words of w bits.
use pebble.Prelude.Tests.{◌==◌}
use Prim.Native.Nat.{ℕ, zero, suc, ◌+◌, ◌-◌, ◌*◌, ◌/◌, ◌%◌}
use mathlib.Core.Path.{◌≡◌, refl, ap, ◌∙◌}
use mathlib.Core.Logic.{◌≢◌}
use mathlib.Core.Bool.{Bool, true, false}
use native.Mathlib.Omega.{arith}

unfoldable pub test_bit : ℕ → ℕ → Bool
test_bit zero b = b % 2 == 1
test_bit (suc k) b = test_bit k (b / 2)

unfoldable pub set_bit : ℕ → ℕ → ℕ
set_bit zero b = b - b % 2 + 1
set_bit (suc k) b = b % 2 + 2 * set_bit k (b / 2)

unfoldable pub clear_bit : ℕ → ℕ → ℕ
clear_bit zero b = b - b % 2
clear_bit (suc k) b = b % 2 + 2 * clear_bit k (b / 2)

unfoldable pub xor : ℕ → ℕ → ℕ → ℕ
xor zero a b = 0
xor (suc w) a b = (a + b) % 2 + 2 * xor w (a / 2) (b / 2)

half : (r x : ℕ) → (r % 2 + 2 * x) / 2 ≡ x
half r x = omega arith

pub test_bit-set_bit : (k b : ℕ) → test_bit k (set_bit k b) ≡ true
unfolding test_bit set_bit
test_bit-set_bit zero b = ground arith
test_bit-set_bit (suc k) b = rw (half b (set_bit k (b / 2))) (test_bit-set_bit k (b / 2))

pub test_bit-set_bit_other : (j k b : ℕ) → j ≢ k → test_bit j (set_bit k b) ≡ test_bit j b
unfolding test_bit set_bit
test_bit-set_bit_other zero zero b h = absurd (h refl)
test_bit-set_bit_other zero (suc k) b h = ap (λ r. r == 1) (omega arith)
test_bit-set_bit_other (suc j) zero b h = ap (test_bit j) (omega arith)
test_bit-set_bit_other (suc j) (suc k) b h =
    ap (test_bit j) (half b (set_bit k (b / 2)))
    ∙ test_bit-set_bit_other j k (b / 2) (λ e. h (ap suc e))

pub test_bit-clear_bit : (k b : ℕ) → test_bit k (clear_bit k b) ≡ false
unfolding test_bit clear_bit
test_bit-clear_bit zero b = ground arith
test_bit-clear_bit (suc k) b = rw (half b (clear_bit k (b / 2))) (test_bit-clear_bit k (b / 2))

pub test_bit-clear_bit_other : (j k b : ℕ) → j ≢ k → test_bit j (clear_bit k b) ≡ test_bit j b
unfolding test_bit clear_bit
test_bit-clear_bit_other zero zero b h = absurd (h refl)
test_bit-clear_bit_other zero (suc k) b h = ap (λ r. r == 1) (omega arith)
test_bit-clear_bit_other (suc j) zero b h = ap (test_bit j) (omega arith)
test_bit-clear_bit_other (suc j) (suc k) b h =
    ap (test_bit j) (half b (clear_bit k (b / 2)))
    ∙ test_bit-clear_bit_other j k (b / 2) (λ e. h (ap suc e))

pub test_bit-set_bit_mono : (j k b : ℕ) → test_bit j b ≡ true → test_bit j (set_bit k b) ≡ true
unfolding test_bit set_bit
test_bit-set_bit_mono zero zero b h = test_bit-set_bit zero b
test_bit-set_bit_mono zero (suc k) b h = ap (λ r. r == 1) (omega arith) ∙ h
test_bit-set_bit_mono (suc j) zero b h = ap (test_bit j) (omega arith) ∙ h
test_bit-set_bit_mono (suc j) (suc k) b h =
    ap (test_bit j) (half b (set_bit k (b / 2))) ∙ test_bit-set_bit_mono j k (b / 2) h
