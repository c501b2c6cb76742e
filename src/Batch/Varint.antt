-- ===== src/Batch/Varint.antt =====
-- Length-prefixed strings: the inlined PutUvarint of batch.go and batchDecodeStr.
use pebble.Prelude.{
  ℕ, zero, suc, ◌+◌, ◌*◌, ◌/◌, ◌%◌, ◌^◌, Option, none, some, List, [], ◌∷◌, ◌++◌, ltb, leb,
  if◌then◌else◌, length, take, drop,
}
use pebble.Prelude.Outcome.{Outcome, ok, panic, ◌>>=◌}

abbrev pub u32 : ℕ → ℕ
u32 n = n % 2 ^ 32

-- `for x >= 0x80`: seven bits a byte, lowest first. A uint32 takes at most four rounds before the
-- last byte. `byte(x) | 0x80` keeps the low seven bits and sets the top one.
unfoldable pub put_uvarint : ℕ → ℕ → List ℕ
put_uvarint zero x = (x % 256) ∷ []
put_uvarint (suc rounds) x =
    let rest = put_uvarint rounds (x / 128) in
    if leb 128 x then (x % 128 + 128) ∷ rest else (x % 256) ∷ []

unfoldable pub encode_str : List ℕ → List ℕ
encode_str s = put_uvarint 4 (u32 (length s)) ++ s

-- The unrolled decoder. Reading past the slice gives some byte, but then the slice `data[n:]`
-- panics whatever that byte was.
decode_5 : ℕ → List ℕ → Outcome (ℕ × List ℕ)
decode_5 acc [] = panic
decode_5 acc (e ∷ r) = ok (u32 (e * 2 ^ 28) + acc, r)

decode_4 : ℕ → List ℕ → Outcome (ℕ × List ℕ)
unfolding decode_5
decode_4 acc [] = panic
decode_4 acc (d ∷ r) =
    if ltb d 128 then ok (d * 2 ^ 21 + acc, r) else decode_5 (d % 128 * 2 ^ 21 + acc) r

decode_3 : ℕ → List ℕ → Outcome (ℕ × List ℕ)
unfolding decode_4
decode_3 acc [] = panic
decode_3 acc (c ∷ r) =
    if ltb c 128 then ok (c * 2 ^ 14 + acc, r) else decode_4 (c % 128 * 2 ^ 14 + acc) r

decode_2 : ℕ → List ℕ → Outcome (ℕ × List ℕ)
unfolding decode_3
decode_2 acc [] = panic
decode_2 acc (b ∷ r) =
    if ltb b 128 then ok (b * 2 ^ 7 + acc, r) else decode_3 (b % 128 * 2 ^ 7 + acc) r

unfoldable pub decode_uvarint : List ℕ → Outcome (ℕ × List ℕ)
unfolding decode_2
decode_uvarint [] = panic
decode_uvarint (a ∷ r) = if ltb a 128 then ok (a, r) else decode_2 (a % 128) r

-- The rest and the string; none is the result `ok == false`.
unfoldable pub split_str : ℕ × List ℕ → Option (List ℕ × List ℕ)
split_str (v, r) = if ltb (u32 (length r)) v then none else some (drop v r, take v r)

unfoldable pub batch_decode_str : List ℕ → Outcome (Option (List ℕ × List ℕ))
batch_decode_str r = decode_uvarint r >>= (λ p. ok (split_str p))
