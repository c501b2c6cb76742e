-- ===== src/Sstable/Block/Examples.antt =====
-- Two keys with a common prefix in one block: sstable/block.go.
use pebble.Prelude.{ℕ, suc, some, ◌+◌, ◌*◌, ◌≡◌, List, [], ◌∷◌, length, arith}
use pebble.Prelude.Outcome.{ok}
use pebble.Key.{size}
use pebble.Sstable.Block.{BlockIter, init, first}
use pebble.Sstable.Block.Writing.{Entry, read_rest}
use pebble.Sstable.Block.RoundTrip.{block_of, read-block_of}

-- ab#9 and ac#7, both Sets.
abbrev entries : List Entry
entries =
    (record { user_key = b'a' ∷ b'b' ∷ []; trailer = 9 * 256 + 1 }, b'x' ∷ [])
    ∷ (record { user_key = b'a' ∷ b'c' ∷ []; trailer = 7 * 256 + 1 }, [])
    ∷ []

read-block_of_example :
    (block : List ℕ) × (i : BlockIter) × (block_of entries 16 ≡ ok block)
    × (init 0 block ≡ ok (some i))
    × (read_rest (suc (length entries)) (first i) ≡ ok entries)
unfolding size
read-block_of_example = read-block_of entries 16 (omega arith, (omega arith, tt)) (omega arith)
