-- ===== src/AckSeq/Window.antt =====
-- Ack moves the base to the smallest number that is not acknowledged: internal/ackseq/ackseq.go.
use pebble.Prelude.{
  ℕ, zero, suc, ◌+◌, ◌-◌, ltb, ◌/◌, ◌%◌, ◌^◌, ◌≤◌, ◌<◌, ◌≡◌, ◌⊎◌, inl, inr, refl, sym, ap, ◌∙◌,
  Bool-cases, true, false, none, some, ◌==◌, if◌then◌else◌, arith, ◌≢◌,
}
use pebble.Prelude.Outcome.{Outcome, ok}
use pebble.Prelude.Bits.{
  test_bit, test_bit-set_bit, test_bit-set_bit_other, test_bit-clear_bit, test_bit-clear_bit_other,
}
use pebble.AckSeq.{AckSeq, window_size, get_locked, set_locked, clear_locked, advance, ack, counted}

get-set : (n : ℕ) (s : AckSeq) → get_locked (set_locked n s) n ≡ true
unfolding get_locked set_locked
get-set n s =
    let bit = n % window_size in
    let here : (bit / 8 == bit / 8) ≡ true = ground arith in
    rw here (test_bit-set_bit (bit % 8) (s.window (bit / 8)))

get-set_other :
    (m n : ℕ) (s : AckSeq)
    → m % window_size ≢ n % window_size
    → get_locked (set_locked n s) m ≡ get_locked s m
unfolding get_locked set_locked
get-set_other m n s h =
    let a = m % window_size in
    let b = n % window_size in
    elim (Bool-cases (a / 8 == b / 8)) [
      | inr e ↦ rw e refl
      | inl e ↦
          rw e (test_bit-set_bit_other (a % 8) (b % 8) (s.window (a / 8)) (λ p. h (ground arith)))
    ]

get-clear : (n : ℕ) (s : AckSeq) → get_locked (clear_locked n s) n ≡ false
unfolding get_locked clear_locked
get-clear n s =
    let bit = n % window_size in
    let here : (bit / 8 == bit / 8) ≡ true = ground arith in
    rw here (test_bit-clear_bit (bit % 8) (s.window (bit / 8)))

get-clear_other :
    (m n : ℕ) (s : AckSeq)
    → m % window_size ≢ n % window_size
    → get_locked (clear_locked n s) m ≡ get_locked s m
unfolding get_locked clear_locked
get-clear_other m n s h =
    let a = m % window_size in
    let b = n % window_size in
    elim (Bool-cases (a / 8 == b / 8)) [
      | inr e ↦ rw e refl
      | inl e ↦
          rw e (test_bit-clear_bit_other (a % 8) (b % 8) (s.window (a / 8)) (λ p. h (ground arith)))
    ]

-- Numbers of one window have different bits.
apart : (lo m n : ℕ) → lo ≤ m → m < n → n < lo + 2 ^ 20 → m % 2 ^ 20 ≢ n % 2 ^ 20
apart lo m n a b c e = omega arith

true_ne_false : true ≢ false
true_ne_false e = cc

same_bit : (lo : ℕ) (s : AckSeq) → get_locked s (lo + 2 ^ 20) ≡ get_locked s lo
unfolding get_locked
same_bit lo s = ap (λ bit. test_bit (bit % 8) (s.window (bit / 8))) (omega arith)

-- The loop from `lo`, `count` rounds in, ends at `m`: it passed set bits only, the bits behind it
-- are clear and those in front of it are as they were.
abbrev Stop : ℕ → ℕ → AckSeq → ℕ → AckSeq → Type 0
Stop lo count s m t =
    (t.base ≡ lo + m)
    × (count ≤ m)
    × (m ≤ 2 ^ 20)
    × (get_locked t t.base ≡ false)
    × ((n : ℕ) → lo + count ≤ n → n < lo + m → get_locked s n ≡ true)
    × ((n : ℕ) → lo + m ≤ n → n < lo + 2 ^ 20 → get_locked t n ≡ get_locked s n)
    × ((n : ℕ) → lo ≤ n → n < lo + m → get_locked t n ≡ false)

-- One round: the bit of the base is cleared and the base moves on.
abbrev stepped : AckSeq → AckSeq
stepped s = record (clear_locked s.base s) { base = (s.base + 1) % 2 ^ 64 }

stepped-here : (s : AckSeq) (n : ℕ) → n ≡ s.base → get_locked (stepped s) n ≡ false
unfolding get_locked
stepped-here s n e = ap (get_locked (clear_locked s.base s)) e ∙ get-clear s.base s

stepped-other :
    (s : AckSeq) (m n : ℕ)
    → m % 2 ^ 20 ≢ n % 2 ^ 20
    → n ≡ s.base
    → get_locked (stepped s) m ≡ get_locked s m
unfolding get_locked
stepped-other s m n h e = get-clear_other m s.base s (λ p. h (p ∙ ap (λ x. x % 2 ^ 20) (sym e)))

stepped-above :
    (lo : ℕ) (s : AckSeq) (n : ℕ)
    → lo ≤ s.base
    → s.base < n
    → n < lo + 2 ^ 20
    → get_locked (stepped s) n ≡ get_locked s n
stepped-above lo s n a b c = stepped-other s n s.base (λ p. apart lo s.base n a b c (sym p)) refl

stepped-clear :
    (lo count : ℕ) (s : AckSeq)
    → s.base ≡ lo + count
    → count < 2 ^ 20
    → ((n : ℕ) → lo ≤ n → n < lo + count → get_locked s n ≡ false)
    → (n : ℕ) → lo ≤ n
    → n < lo + (count + 1)
    → get_locked (stepped s) n ≡ false
stepped-clear lo count s b room clear n x y = elim (Bool-cases (n == s.base)) [
  | inl e ↦ stepped-here s n (ground arith)
  | inr e ↦
      let below : n < s.base = ground (arith, y, b) in
      stepped-other s n s.base (apart lo n s.base x below (omega arith)) refl
      ∙ clear n x (omega arith)
]

-- When every bit of the window was cleared, the base is back at a cleared bit.
in_window :
    (lo count : ℕ) (s : AckSeq)
    → s.base ≡ lo + count
    → count ≤ 2 ^ 20
    → ((n : ℕ) → lo ≤ n → n < lo + count → get_locked s n ≡ false)
    → get_locked s s.base ≡ true
    → count < 2 ^ 20
in_window lo count s b le clear e = elim (Bool-cases (count == 2 ^ 20)) [
  | inr h ↦ ground arith
  | inl h ↦
      let full : count ≡ 2 ^ 20 = ground arith in
      let at : s.base ≡ lo + 2 ^ 20 = b ∙ ap (λ k. lo + k) full in
      let low = clear lo (omega arith) (omega arith) in
      absurd (true_ne_false (sym e ∙ ap (get_locked s) at ∙ same_bit lo s ∙ low))
]

advance-step :
    (fuel count : ℕ) (s : AckSeq) (r : Outcome (ℕ × AckSeq))
    → get_locked s s.base ≡ true
    → advance fuel (count + 1) (stepped s) ≡ r
    → advance (suc fuel) count s ≡ r
unfolding advance
advance-step fuel count s r e h = rw e h

advance-Stop :
    (fuel lo count : ℕ) (s : AckSeq)
    → s.base ≡ lo + count
    → count ≤ 2 ^ 20
    → 2 ^ 20 < fuel + count
    → lo + 2 ^ 20 < 2 ^ 64
    → ((n : ℕ) → lo ≤ n → n < lo + count → get_locked s n ≡ false)
    → (m : ℕ) × (t : AckSeq) × (advance fuel count s ≡ ok (m, t)) × Stop lo count s m t
advance-Stop zero lo count s b le lt small clear = absurd (omega arith)
advance-Stop (suc fuel) lo count s b le lt small clear = elim (Bool-cases (get_locked s s.base)) [
  | inr e ↦ (
    count,
    s,
    unfold advance in rw e refl,
    (b, omega arith, le, e, λ n x y. absurd (omega arith), λ n x y. refl, clear),
  )
  | inl e ↦
      let room = in_window lo count s b le clear e in
      let (m, u, r, (p, q, w, f, passed, kept, gone)) =
        advance-Stop fuel lo (count + 1) (stepped s) (omega arith) (omega arith) (omega arith) small
          (stepped-clear lo count s b room clear) in
      (
        m,
        u,
        advance-step fuel count s (ok (m, u)) e r,
        (
          p,
          omega arith,
          w,
          f,
          λ n x y. elim (Bool-cases (n == s.base)) [
            | inl h ↦ ap (get_locked s) (ground arith) ∙ e
            | inr h ↦
                let above : s.base < n = ground (arith, b, x) in
                sym (stepped-above lo s n (omega arith) above (omega arith))
                ∙ passed n (omega arith) y
          ],
          λ n x y. kept n x y ∙ stepped-above lo s n (omega arith) (omega arith) y,
          gone,
        ),
      )
]

set_locked-base : (n : ℕ) (s : AckSeq) → (set_locked n s).base ≡ s.base
unfolding set_locked
set_locked-base n s = refl

ack-step :
    (n : ℕ) (s : AckSeq) (r : ℕ × AckSeq)
    → get_locked s n ≡ false
    → advance (window_size + 1) 0 (set_locked n s) ≡ ok r
    → ack n s ≡ ok (some (r.0), r.1)
unfolding ack
ack-step n s r fresh e =
    ap (λ x. if x then ok (none, s) else counted (advance (window_size + 1) 0 (set_locked n s)))
      fresh
    ∙ ap counted e

get-set_near :
    (n : ℕ) (s : AckSeq) (m : ℕ)
    → s.base ≤ n
    → n < s.base + window_size
    → s.base ≤ m
    → m < s.base + window_size
    → m ≢ n
    → get_locked (set_locked n s) m ≡ get_locked s m
get-set_near n s m a b c d h = elim (Bool-cases (ltb m n)) [
  | inl e ↦ get-set_other m n s (apart s.base m n c (ground arith) b)
  | inr e ↦
      let above : n < m = ground (arith, h) in
      get-set_other m n s (λ p. apart s.base n m a above d (sym p))
]

back : (m : ℕ) → 2 ^ 20 ≤ m → m ≡ m - 2 ^ 20 + 2 ^ 20
back m h = omega arith

-- The state after Ack of `n` moved the base of `s` by `count`: every number that the base passed
-- was acknowledged or is `n`, the new base is not, the numbers of the old window from there on are
-- as they were but for `n`, and the numbers that came into the window are not acknowledged.
abbrev pub IsAcked : ℕ → AckSeq → ℕ → AckSeq → Type 0
IsAcked n s count t =
    (t.base ≡ s.base + count)
    × (get_locked t t.base ≡ false)
    × ((m : ℕ) → s.base ≤ m → m < t.base → (get_locked s m ≡ true) ⊎ (m ≡ n))
    × ((m : ℕ) → t.base ≤ m → m < s.base + window_size → m ≢ n → get_locked t m ≡ get_locked s m)
    × (t.base ≤ n → get_locked t n ≡ true)
    × ((m : ℕ) → s.base + window_size ≤ m → m < t.base + window_size → get_locked t m ≡ false)

-- While the end of the window is below 2^64, for a number of the window that is not acknowledged yet:
-- Ack ends without an error and moves the
-- base to the smallest number that is not acknowledged, counting the numbers that the base passes;
-- each of them was acknowledged, no acknowledgement in front of the new base is lost, and the
-- numbers that the window reaches anew are not acknowledged.
pub ack-IsAcked :
    (n : ℕ) (s : AckSeq)
    → s.base ≤ n
    → n < s.base + window_size
    → s.base + window_size < 2 ^ 64
    → get_locked s n ≡ false
    → (count : ℕ) × (t : AckSeq) × (ack n s ≡ ok (some count, t)) × IsAcked n s count t
ack-IsAcked n s lo hi small fresh =
    let s' = set_locked n s in
    let b : s'.base ≡ s.base + 0 = set_locked-base n s ∙ omega arith in
    let (count, t, r, (p, q, w, f, passed, kept, gone)) =
      advance-Stop (window_size + 1) s.base 0 s' b (omega arith) (omega arith) (omega arith)
        (λ m x y. absurd (omega arith)) in
    (
      count,
      t,
      ack-step n s (count, t) fresh r,
      (
        p,
        f,
        λ m x y. elim (Bool-cases (m == n)) [
          | inl e ↦ inr (ground arith)
          | inr e ↦ inl (
              sym (get-set_near n s m lo hi x (omega arith) (λ h. ground arith))
              ∙ passed m (omega arith) (omega arith))
        ],
        λ m x y h. kept m (omega arith) y ∙ get-set_near n s m lo hi (omega arith) y h,
        λ x. kept n (omega arith) hi ∙ get-set n s,
        λ m x y.
            ap (get_locked t) (back m (omega arith))
            ∙ same_bit (m - 2 ^ 20) t
            ∙ gone (m - 2 ^ 20) (omega arith) (omega arith),
      ),
    )
