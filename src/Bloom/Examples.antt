-- ===== src/Bloom/Examples.antt =====
-- The hash and a filter at concrete keys (bloom/bloom.go). The hashes are those of TestHash in
-- bloom/bloom_test.go.
use pebble.Prelude.{ℕ, ◌*◌, ◌/◌, ◌≡◌, refl, true, List, [], ◌∷◌, ◌++◌, All, arith}
use pebble.Prelude.Outcome.{ok}
use pebble.Prelude.Bits.{xor}
use pebble.Bloom.Hash.{hash, hash_loop}
use pebble.Bloom.Defs.{new_writer, add_key, lines_of, finish, may_contain}
use pebble.Bloom.Contains.{add_keys, written_by, may_contain-finish}

hash-nil : hash [] ≡ 3164544308
unfolding hash hash_loop xor
hash-nil = refl

hash-one : hash (154 ∷ []) ≡ 3195034349
unfolding hash hash_loop xor
hash-one = refl

hash-seven : hash (92 ∷ 190 ∷ 151 ∷ 117 ∷ 84 ∷ 154 ∷ 82 ∷ []) ≡ 815120748
unfolding hash hash_loop xor
hash-seven = refl

-- Three keys at ten bits each fit one line.
abbrev keys : List (List ℕ)
keys = (1 ∷ 2 ∷ []) ∷ (3 ∷ []) ∷ [] ∷ []

-- bits_per_key * 0.69, rounded down.
abbrev scale : ℕ → ℕ
scale n = n * 69 / 100

may_contain-finish_example :
    (f : List ℕ) × (finish scale (7 ∷ []) (written_by 10 keys)
      ≡ ok ((7 ∷ []) ++ f, record (written_by 10 keys) { hashes = [] }))
    × All (λ key. may_contain f key ≡ ok true) keys
may_contain-finish_example =
    may_contain-finish scale 10 keys (7 ∷ [])
      (unfold add_keys add_key new_writer hash hash_loop xor lines_of in omega arith)
