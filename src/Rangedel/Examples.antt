-- ===== src/Rangedel/Examples.antt =====
-- Two tombstones that share a key (internal/rangedel/tombstone.go).
use pebble.Prelude.{ℕ, List, ◌+◌, ◌*◌, ◌↔◌, ◌≡◌, refl, [], ◌∷◌}
use pebble.Key.Bytewise.{bytes_compare, bytes_compare-IsCompare, bytes_equal}
use pebble.Rangedel.{Tombstone, overlaps}
use pebble.Rangedel.Overlap.{Share, overlaps_iff}
use Prim.Native.Nat.{Ordering}

-- [a, c)#9 and [b, d)#7.
abbrev tombstone_ac : Tombstone
tombstone_ac = record {
  start = record { user_key = b'a' ∷ []; trailer = 9 * 256 + 15 };
  end = b'c' ∷ [];
}

abbrev tombstone_bd : Tombstone
tombstone_bd = record {
  start = record { user_key = b'b' ∷ []; trailer = 7 * 256 + 15 };
  end = b'd' ∷ [];
}

overlaps_iff_example :
    (overlaps bytes_compare tombstone_ac tombstone_bd ≡ Ordering.eq)
    ↔ ((key : List ℕ) × Share bytes_compare tombstone_ac tombstone_bd key)
unfolding bytes_compare bytes_equal
overlaps_iff_example =
    overlaps_iff bytes_compare bytes_compare-IsCompare tombstone_ac tombstone_bd refl refl refl
