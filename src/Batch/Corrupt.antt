-- ===== src/Batch/Corrupt.antt =====
-- The reader of batch.go on a batch that is cut off.
use pebble.Prelude.{
  ℕ, ◌≤◌, ◌<◌, ◌^◌, ◌≡◌, refl, ap, ◌∙◌, ◌⊎◌, sym, some, List, [], ◌∷◌, length, arith,
}
use mathlib.Core.List.{append-nil}
use pebble.Prelude.Outcome.{ok, panic}
use pebble.Key.{kind_set, kind_merge, kind_range_delete, kind_max}
use pebble.Batch.Varint.{encode_str, decode_uvarint, batch_decode_str}
use pebble.Batch.Defs.{next_entry}
use pebble.Batch.Lengths.{decode-encode_str}

decode-nil : batch_decode_str [] ≡ panic
unfolding batch_decode_str decode_uvarint
decode-nil = refl

decode-encode_str_alone :
    (s : List ℕ) → length s < 2 ^ 32 → batch_decode_str (encode_str s) ≡ ok (some ([], s))
decode-encode_str_alone s h =
    ap batch_decode_str (sym (append-nil (encode_str s))) ∙ decode-encode_str s [] (omega arith)

-- Next panics, and does not report a corrupt batch by its last result, on a record of a valid kind
-- that ends before its key, and on a Set, Merge or DeleteRange record that ends before its value.
pub next_entry-cut_off :
    (kd : ℕ) (key : List ℕ)
    → kd ≤ kind_max
    → length key < 2 ^ 32
    → (next_entry (kd ∷ []) ≡ panic)
      × ((kd ≡ kind_set) ⊎ ((kd ≡ kind_merge) ⊎ (kd ≡ kind_range_delete))
          → next_entry (kd ∷ encode_str key) ≡ panic)
unfolding next_entry
next_entry-cut_off kd key h g =
    (ground (arith, decode-nil), λ v. ground (arith, decode-nil, decode-encode_str_alone key g))
