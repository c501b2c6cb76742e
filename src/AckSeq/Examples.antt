-- ===== src/AckSeq/Examples.antt =====
-- Acknowledgements at concrete numbers (internal/ackseq/ackseq.go).
use pebble.Prelude.{ℕ, ◌≡◌, refl, some, arith}
use pebble.Prelude.Outcome.{ok}
use pebble.Prelude.Bits.{test_bit}
use pebble.AckSeq.{AckSeq, get_locked, ack}
use pebble.AckSeq.Window.{IsAcked, ack-IsAcked}

-- The numbers of the window that are 6 modulo 8 are acknowledged.
abbrev waiting : AckSeq
waiting = record { next_num = 8; base = 5; window = λ i. 64 }

ack-IsAcked_example :
    (count : ℕ) × (t : AckSeq) × (ack 5 waiting ≡ ok (some count, t)) × IsAcked 5 waiting count t
ack-IsAcked_example =
    ack-IsAcked 5 waiting (omega arith) (omega arith) (omega arith)
      (unfold get_locked test_bit in refl)
