-- ===== src/Key/Codec.antt =====
-- Encoding of internal keys (internal/base/internal.go): Encode, DecodeInternalKey and Size.
use pebble.Prelude.{
  ℕ, ◌-◌, ◌≤◌, ◌<◌, ◌≡◌, ◌↔◌, ap, ◌∙◌, none, some, List, arith, drop, length, length-append, ◌++◌,
  take-all, take-length-append, drop-length-append, drop-all,
}
use mathlib.Core.Option
use mathlib.Core.List.{append-nil}
use pebble.Prelude.Bytes.{put_le, get_le, length-put_le, get_le-put_le}
use pebble.Key.Defs.{InternalKey, size, encode, decode_internal_key}
use pebble.Key.Fields.{IsStored}

-- Encode panics exactly on a buffer that is shorter than Size.
pub encode-panics_iff :
    (k : InternalKey) (buf : List ℕ) → (encode k buf ≡ none) ↔ (length buf < size k)
unfolding encode size
encode-panics_iff k buf = (λ h. ground arith, λ h. ground arith)

pub encode-fits :
    (k : InternalKey) (buf : List ℕ)
    → size k ≤ length buf
    → encode k buf ≡ some (k.user_key ++ (put_le 8 k.trailer ++ drop (size k) buf))
unfolding encode size
encode-fits k buf h = ground (arith, take-all (length k.user_key) k.user_key)

pub decode-append :
    (u t : List ℕ)
    → length t ≡ 8
    → decode_internal_key (u ++ t) ≡ record { user_key = u; trailer = get_le t }
unfolding decode_internal_key
decode-append u t h = ground (
  arith,
  length-append u t,
  take-length-append (length (u ++ t) - 8) u t,
  drop-length-append (length (u ++ t) - 8) u t,
)

-- On a buffer of exactly Size bytes, whatever they held, Encode writes what DecodeInternalKey
-- reads back as the same key.
pub decode-encode :
    (k : InternalKey) (buf : List ℕ)
    → IsStored k
    → length buf ≡ size k
    → Option.map decode_internal_key (encode k buf) ≡ some k
decode-encode k buf h e =
    rw
      (
        encode-fits k buf (omega (arith, e)),
        drop-all (size k) buf (omega (arith, e)),
        append-nil (put_le 8 k.trailer),
      )
      (ap some (
        decode-append k.user_key (put_le 8 k.trailer) (length-put_le 8 k.trailer)
        ∙ rw (get_le-put_le 8 k.trailer (omega arith))))
