-- ===== src/Bloom/Hash.antt =====
-- The hash of a key: `hash` of bloom/bloom.go, in uint32.
use pebble.Prelude.{ℕ, ◌+◌, ◌-◌, ◌*◌, ◌/◌, ◌%◌, ◌^◌, List, [], ◌∷◌, ltb, if◌then◌else◌, length}
use pebble.Prelude.Bits.{xor}

abbrev pub u32 : ℕ → ℕ
u32 n = n % 2 ^ 32

abbrev pub seed : ℕ
seed = 3164544308

abbrev pub multiplier : ℕ
multiplier = 3332679571

-- uint32(int8(b)), with the sign extended.
abbrev pub sign_extend : ℕ → ℕ
sign_extend b = if ltb b 128 then b else b + (2 ^ 32 - 256)

-- `h *= m; h ^= h >> shift`, with the shift given as a power of two.
abbrev pub stir : ℕ → ℕ → ℕ
stir power h = let g = u32 (h * multiplier) in xor 32 g (g / power)

-- The rounds over four bytes, and the switch over the last three.
unfoldable pub hash_loop : ℕ → List ℕ → ℕ
unfolding xor
hash_loop h (a ∷ b ∷ c ∷ d ∷ r) =
    hash_loop (stir (2 ^ 16) (u32 (h + (a + b * 2 ^ 8 + c * 2 ^ 16 + d * 2 ^ 24)))) r
hash_loop h (a ∷ b ∷ c ∷ []) =
    stir (2 ^ 24)
      (u32 (h + u32 (sign_extend c * 2 ^ 16) + u32 (sign_extend b * 2 ^ 8) + sign_extend a))
hash_loop h (a ∷ b ∷ []) = stir (2 ^ 24) (u32 (h + u32 (sign_extend b * 2 ^ 8) + sign_extend a))
hash_loop h (a ∷ []) = stir (2 ^ 24) (u32 (h + sign_extend a))
hash_loop h [] = h

unfoldable pub hash : List ℕ → ℕ
unfolding hash_loop xor
hash b = hash_loop (xor 32 seed (u32 (u32 (length b) * multiplier))) b
