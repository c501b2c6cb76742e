-- ===== src/Key/Fields.antt =====
-- The two fields of a trailer (internal/base/internal.go), which the constructors and the setters
-- write and the getters read.
use pebble.Prelude.{ℕ, ◌^◌, ◌≤◌, ◌<◌, ◌≡◌, List, arith}
use pebble.Key.Defs.{
  InternalKey, make_internal_key, seq_num, kind, set_seq_num, set_kind, seq_num_max,
}

-- A stored key: its trailer fits 64 bits.
abbrev pub IsStored : InternalKey → Type 0
IsStored k = k.trailer < 2 ^ 64

-- For a sequence number of at most 56 bits and a kind of one byte, a made key has just these
-- fields and fits 64 bits; setting the sequence number keeps the kind, and setting the kind keeps
-- the sequence number.
pub make_internal_key_fields :
    (u : List ℕ) (seq kd seq' kd' : ℕ)
    → seq ≤ seq_num_max
    → seq' ≤ seq_num_max
    → kd < 256
    → kd' < 256
    → let k = make_internal_key u seq kd in
      (seq_num k ≡ seq)
      × (kind k ≡ kd)
      × IsStored k
      × (set_seq_num seq' k ≡ make_internal_key u seq' kd)
      × (set_kind kd' k ≡ make_internal_key u seq kd')
unfolding make_internal_key seq_num kind set_seq_num set_kind
make_internal_key_fields u seq kd seq' kd' h h' g g' = ground arith
