-- ===== src/Key/Examples.antt =====
-- Internal keys at concrete inputs, over the bytewise order of user keys.
use pebble.Prelude.{ℕ, ◌+◌, ◌*◌, ◌<◌, ◌≡◌, ◌≢◌, ◌↔◌, refl, none, some, List, [], ◌∷◌, arith, length}
use pebble.Key.Defs.{
  InternalKey, make_internal_key, make_search_key, seq_num, kind, set_seq_num, set_kind, valid,
  IsCompare, internal_compare, separator, successor, encode, decode_internal_key, size,
}
use pebble.Key.Fields.{IsStored, make_internal_key_fields}
use pebble.Key.Order.{
  internal_compare-IsCompare, make_search_key-first, separator_bounds, successor_bound,
}
use pebble.Key.Codec.{encode-panics_iff, decode-encode}
use pebble.Key.Bytewise.{bytes_compare, bytes_compare-IsCompare}
use mathlib.Core.Option
use Prim.Native.Nat.{Ordering}

-- "a"#7,SET.
abbrev key_a : InternalKey
key_a = record { user_key = b'a' ∷ []; trailer = 7 * 256 + 1 }

-- "abc"#3,DEL and "abd"#9,SET.
abbrev key_abc : InternalKey
key_abc = record { user_key = b'a' ∷ b'b' ∷ b'c' ∷ []; trailer = 768 }

abbrev key_abz : InternalKey
key_abz = record { user_key = b'a' ∷ b'd' ∷ []; trailer = 9 * 256 + 1 }

-- A separator that takes the first two bytes of the right key, one lower.
abbrev short_sep : List ℕ → List ℕ → List ℕ
short_sep a b = b'a' ∷ b'c' ∷ []

make_internal_key_fields_example :
    let k = make_internal_key (b'a' ∷ []) 7 1 in
    (seq_num k ≡ 7)
    × (kind k ≡ 1)
    × IsStored k
    × (set_seq_num 0 k ≡ make_internal_key (b'a' ∷ []) 0 1)
    × (set_kind 2 k ≡ make_internal_key (b'a' ∷ []) 7 2)
make_internal_key_fields_example =
    make_internal_key_fields (b'a' ∷ []) 7 1 0 2 (omega arith) (omega arith) (omega arith)
      (omega arith)

internal_compare-IsCompare_example : IsCompare (internal_compare bytes_compare)
internal_compare-IsCompare_example =
    internal_compare-IsCompare bytes_compare bytes_compare-IsCompare

make_search_key-first_example :
    internal_compare bytes_compare (make_search_key (b'a' ∷ [])) key_a ≢ Ordering.gt
unfolding valid
make_search_key-first_example =
    make_search_key-first bytes_compare bytes_compare-IsCompare key_a (omega arith) refl

separator_bounds_example :
    (internal_compare bytes_compare key_abc (separator bytes_compare short_sep key_abc key_abz)
      ≢ Ordering.gt)
    × (internal_compare bytes_compare (separator bytes_compare short_sep key_abc key_abz) key_abz
        ≡ Ordering.lt)
unfolding bytes_compare
separator_bounds_example =
    separator_bounds bytes_compare bytes_compare-IsCompare short_sep key_abc key_abz refl refl

abbrev short_buf : List ℕ
short_buf = 0 ∷ 0 ∷ []

encode-panics_iff_example : (encode key_a short_buf ≡ none) ↔ (length short_buf < size key_a)
encode-panics_iff_example = encode-panics_iff key_a short_buf

decode-encode_example :
    Option.map decode_internal_key (encode key_a (1 ∷ 2 ∷ 3 ∷ 4 ∷ 5 ∷ 6 ∷ 7 ∷ 8 ∷ 9 ∷ []))
    ≡ some key_a
unfolding size
decode-encode_example =
    decode-encode key_a (1 ∷ 2 ∷ 3 ∷ 4 ∷ 5 ∷ 6 ∷ 7 ∷ 8 ∷ 9 ∷ []) (omega arith) refl

successor_bound_example :
    internal_compare bytes_compare key_a (successor bytes_compare (λ a. 255 ∷ []) key_a)
    ≢ Ordering.gt
successor_bound_example =
    successor_bound bytes_compare bytes_compare-IsCompare (λ a. 255 ∷ []) key_a
