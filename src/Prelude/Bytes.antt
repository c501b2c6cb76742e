-- ===== src/Prelude/Bytes.antt =====
-- Little-endian words of w bytes (encoding/binary's LittleEndian), as Go's PutUint64 and Uint64
-- write and read them.
use pebble.Prelude.Lists.{length}
use Prim.Native.Nat.{ℕ, zero, suc, ◌+◌, ◌*◌, ◌/◌, ◌%◌, ◌^◌, ◌<◌}
use mathlib.Core.Path.{◌≡◌, refl, ap}
use mathlib.Core.List.{List, [], ◌∷◌}
use native.Mathlib.Omega.{arith}

-- The low w bytes of v, lowest first.
unfoldable pub put_le : ℕ → ℕ → List ℕ
put_le zero v = []
put_le (suc w) v = (v % 256) ∷ put_le w (v / 256)

unfoldable pub get_le : List ℕ → ℕ
get_le [] = 0
get_le (b ∷ bs) = b + 256 * get_le bs

pub length-put_le : (w v : ℕ) → length (put_le w v) ≡ w
unfolding put_le
length-put_le zero v = refl
length-put_le (suc w) v = ap suc (length-put_le w (v / 256))

-- A value that fits w bytes is read back.
pub get_le-put_le : (w v : ℕ) → v < 256 ^ w → get_le (put_le w v) ≡ v
unfolding put_le get_le
get_le-put_le zero v h = omega arith
get_le-put_le (suc w) v h = omega (arith, get_le-put_le w (v / 256) (grind arith))
