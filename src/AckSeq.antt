-- ===== src/AckSeq.antt =====
-- The tracker of acknowledged sequence numbers: internal/ackseq/ackseq.go. A method is one critical
-- section of the mutex, or one atomic addition.
pub mod Window
mod Examples
use pebble.Prelude.{ℕ, zero, suc, ◌+◌, ◌/◌, ◌%◌, ◌^◌, Bool, Option, none, some, ◌==◌, if◌then◌else◌}
use pebble.Prelude.Outcome.{Outcome, ok, stuck, ◌>>=◌}
use pebble.Prelude.Bits.{test_bit, set_bit, clear_bit}

abbrev pub window_size : ℕ
window_size = 2 ^ 20

-- S. The window's bytes are read at indices below windowBytes only.
pub record AckSeq : Type 0 where
  pub next_num : ℕ
  pub base : ℕ
  pub window : ℕ → ℕ

unfoldable pub new_ack_seq : ℕ → AckSeq
new_ack_seq base = record { next_num = base; base = base; window = λ i. 0 }

-- The number to use. The uint64 wraps around.
unfoldable pub next : AckSeq → ℕ × AckSeq
next s = (s.next_num, record s { next_num = (s.next_num + 1) % 2 ^ 64 })

unfoldable pub get_locked : AckSeq → ℕ → Bool
get_locked s n = let bit = n % window_size in test_bit (bit % 8) (s.window (bit / 8))

abbrev pub update : ℕ → (ℕ → ℕ) → (ℕ → ℕ) → ℕ → ℕ
update i f window j = if j == i then f (window j) else window j

unfoldable pub set_locked : ℕ → AckSeq → AckSeq
set_locked n s =
    let bit = n % window_size in record s { window = update (bit / 8) (set_bit (bit % 8)) s.window }

unfoldable pub clear_locked : ℕ → AckSeq → AckSeq
clear_locked n s =
    let bit = n % window_size in
    record s { window = update (bit / 8) (clear_bit (bit % 8)) s.window }

-- The loop of Ack, over fuel. The base is a uint64, which wraps around.
unfoldable pub advance : ℕ → ℕ → AckSeq → Outcome (ℕ × AckSeq)
advance zero count s = stuck
advance (suc fuel) count s =
    let rest =
      advance fuel (count + 1) (record (clear_locked s.base s) { base = (s.base + 1) % 2 ^ 64 }) in
    if get_locked s s.base then rest else ok (count, s)

-- What Ack returns after its loop.
abbrev pub counted : Outcome (ℕ × AckSeq) → Outcome (Option ℕ × AckSeq)
counted r = r >>= (λ p. ok (some (p.0), p.1))

-- Ack: none is the error. The loop stops after one round for each bit of the window at most.
unfoldable pub ack : ℕ → AckSeq → Outcome (Option ℕ × AckSeq)
ack n s =
    if get_locked s n then ok (none, s) else counted (advance (window_size + 1) 0 (set_locked n s))
