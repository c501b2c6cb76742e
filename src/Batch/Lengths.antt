-- ===== src/Batch/Lengths.antt =====
-- The length prefix of batch.go: what is written is read back, and takes at most five bytes.
use pebble.Prelude.{
  ℕ, zero, suc, ◌+◌, ◌/◌, ◌^◌, ◌≤◌, ◌<◌, ◌≡◌, ap, some, List, ◌++◌, length, length-append,
  take-length-append, drop-length-append, arith,
}
use mathlib.Core.List.{append_assoc}
use pebble.Prelude.Outcome.{ok}
use pebble.Batch.Varint.{u32, put_uvarint, encode_str, decode_uvarint, split_str, batch_decode_str}

pub length-put_uvarint : (n x : ℕ) → length (put_uvarint n x) ≤ n + 1
unfolding put_uvarint
length-put_uvarint zero x = omega arith
length-put_uvarint (suc n) x = ground (arith, length-put_uvarint n (x / 128))

pub decode-put_uvarint :
    (x : ℕ) (rest : List ℕ) → x < 2 ^ 32 → decode_uvarint (put_uvarint 4 x ++ rest) ≡ ok (x, rest)
unfolding decode_uvarint put_uvarint
decode-put_uvarint x rest h = ground arith

pub length-encode_str : (s : List ℕ) → length (encode_str s) ≤ 5 + length s
unfolding encode_str
length-encode_str s =
    omega (
      arith,
      length-append (put_uvarint 4 (u32 (length s))) s,
      length-put_uvarint 4 (u32 (length s)),
    )

split_str-append :
    (s rest : List ℕ)
    → length s + length rest < 2 ^ 32
    → split_str (length s, s ++ rest) ≡ some (rest, s)
unfolding split_str
split_str-append s rest h = ground (
  arith,
  length-append s rest,
  drop-length-append (length s) s rest,
  take-length-append (length s) s rest,
)

-- A string that fits together with what follows it in 32 bits is read back, and the rest is left.
pub decode-encode_str :
    (s rest : List ℕ)
    → length s + length rest < 2 ^ 32
    → batch_decode_str (encode_str s ++ rest) ≡ ok (some (rest, s))
unfolding batch_decode_str encode_str
decode-encode_str s rest h =
    let fits : u32 (length s) ≡ length s = omega arith in
    rw
      (
        fits,
        append_assoc (put_uvarint 4 (length s)) s rest,
        decode-put_uvarint (length s) (s ++ rest) (omega arith),
      )
      (ap ok (split_str-append s rest h))
