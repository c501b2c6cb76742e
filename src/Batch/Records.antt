-- ===== src/Batch/Records.antt =====
-- The records that operations become in a batch, and the loop that reads them (batch.go).
use pebble.Prelude.{
  ℕ, zero, suc, ◌+◌, ◌^◌, ◌≤◌, ◌<◌, ◌≡◌, refl, some, List, [], ◌∷◌, ◌++◌, map, length,
  length-append, arith,
}
use mathlib.Core.List.{append_assoc}
use pebble.Prelude.Outcome.{ok}
use pebble.Key.{
  kind_delete, kind_set, kind_merge, kind_log_data, kind_single_delete, kind_range_delete,
}
use pebble.Batch.Varint.{encode_str, batch_decode_str}
use pebble.Batch.Defs.{
  mem_table_entry_size, BatchOp, op_set, op_merge, op_delete, op_single_delete, op_delete_range,
  op_log_data, BatchEntry, next_entry, entries,
}
use pebble.Batch.Lengths.{length-encode_str, decode-encode_str}

-- The record that an operation becomes, its bytes, and the size that `grow` reserves.
abbrev pub op_entry : BatchOp → BatchEntry
op_entry (op_set k v) = record { kind = kind_set; ukey = k; value = v }
op_entry (op_merge k v) = record { kind = kind_merge; ukey = k; value = v }
op_entry (op_delete_range k v) = record { kind = kind_range_delete; ukey = k; value = v }
op_entry (op_delete k) = record { kind = kind_delete; ukey = k; value = [] }
op_entry (op_single_delete k) = record { kind = kind_single_delete; ukey = k; value = [] }
op_entry (op_log_data k) = record { kind = kind_log_data; ukey = k; value = [] }

abbrev pub op_bytes : BatchOp → List ℕ
op_bytes (op_set k v) = kind_set ∷ (encode_str k ++ encode_str v)
op_bytes (op_merge k v) = kind_merge ∷ (encode_str k ++ encode_str v)
op_bytes (op_delete_range k v) = kind_range_delete ∷ (encode_str k ++ encode_str v)
op_bytes (op_delete k) = kind_delete ∷ encode_str k
op_bytes (op_single_delete k) = kind_single_delete ∷ encode_str k
op_bytes (op_log_data k) = kind_log_data ∷ encode_str k

abbrev pub op_bound : BatchOp → ℕ
op_bound (op_set k v) = 11 + length k + length v
op_bound (op_merge k v) = 11 + length k + length v
op_bound (op_delete_range k v) = 11 + length k + length v
op_bound (op_delete k) = 6 + length k
op_bound (op_single_delete k) = 6 + length k
op_bound (op_log_data k) = 6 + length k

abbrev pub ops_bytes : List BatchOp → List ℕ
ops_bytes [] = []
ops_bytes (o ∷ os) = op_bytes o ++ ops_bytes os

abbrev pub ops_bound : List BatchOp → ℕ
ops_bound [] = 0
ops_bound (o ∷ os) = op_bound o + ops_bound os

-- What an operation adds to the count, to the count of range deletions and to the memtable size.
abbrev pub op_count : BatchOp → ℕ
op_count (op_log_data k) = 0
op_count _ = 1

abbrev pub op_range_dels : BatchOp → ℕ
op_range_dels (op_delete_range k v) = 1
op_range_dels _ = 0

abbrev pub op_size : BatchOp → ℕ
op_size (op_log_data k) = 0
op_size o = let e = op_entry o in mem_table_entry_size (length e.ukey) (length e.value)

pub length-op_bytes : (o : BatchOp) → length (op_bytes o) ≤ op_bound o
length-op_bytes (op_set k v) =
    omega
      (arith, length-append (encode_str k) (encode_str v), length-encode_str k, length-encode_str v)
length-op_bytes (op_merge k v) =
    omega
      (arith, length-append (encode_str k) (encode_str v), length-encode_str k, length-encode_str v)
length-op_bytes (op_delete_range k v) =
    omega
      (arith, length-append (encode_str k) (encode_str v), length-encode_str k, length-encode_str v)
length-op_bytes (op_delete k) = omega (arith, length-encode_str k)
length-op_bytes (op_single_delete k) = omega (arith, length-encode_str k)
length-op_bytes (op_log_data k) = omega (arith, length-encode_str k)

pub length-ops_bytes : (os : List BatchOp) → length (ops_bytes os) ≤ ops_bound os
length-ops_bytes [] = omega arith
length-ops_bytes (o ∷ os) =
    omega (arith, length-append (op_bytes o) (ops_bytes os), length-op_bytes o, length-ops_bytes os)

decode_first :
    (k v rest : List ℕ)
    → 11 + length k + length v + length rest < 2 ^ 32
    → batch_decode_str ((encode_str k ++ encode_str v) ++ rest)
      ≡ ok (some (encode_str v ++ rest, k))
decode_first k v rest h = rw (append_assoc (encode_str k) (encode_str v) rest) (
    decode-encode_str k (encode_str v ++ rest)
      (omega (arith, length-append (encode_str v) rest, length-encode_str v)))

next_entry-op_bytes :
    (o : BatchOp) (rest : List ℕ)
    → op_bound o + length rest < 2 ^ 32
    → next_entry (op_bytes o ++ rest) ≡ ok (some (op_entry o, rest))
unfolding next_entry
next_entry-op_bytes (op_set k v) rest h =
    rw (decode_first k v rest h) (rw (decode-encode_str v rest (omega arith)))
next_entry-op_bytes (op_merge k v) rest h =
    rw (decode_first k v rest h) (rw (decode-encode_str v rest (omega arith)))
next_entry-op_bytes (op_delete_range k v) rest h =
    rw (decode_first k v rest h) (rw (decode-encode_str v rest (omega arith)))
next_entry-op_bytes (op_delete k) rest h = rw (decode-encode_str k rest (omega arith))
next_entry-op_bytes (op_single_delete k) rest h = rw (decode-encode_str k rest (omega arith))
next_entry-op_bytes (op_log_data k) rest h = rw (decode-encode_str k rest (omega arith))

-- The loop over Next on the records of operations, with more rounds than bytes.
pub entries-ops_bytes :
    (os : List BatchOp) (fuel : ℕ)
    → ops_bound os < 2 ^ 32
    → length os < fuel
    → entries fuel (ops_bytes os) ≡ ok (map op_entry os)
unfolding entries
entries-ops_bytes [] zero h g = absurd (omega arith)
entries-ops_bytes [] (suc fuel) h g = unfold next_entry in refl
entries-ops_bytes (o ∷ os) zero h g = absurd (omega arith)
entries-ops_bytes (o ∷ os) (suc fuel) h g =
    let first = next_entry-op_bytes o (ops_bytes os) (omega (arith, length-ops_bytes os)) in
    let rest = entries-ops_bytes os fuel (omega arith) (omega arith) in
    rw (first, entries) (rw rest)

pub op_bytes_nonempty : (o : BatchOp) → 0 < length (op_bytes o)
op_bytes_nonempty (op_set k v) = omega arith
op_bytes_nonempty (op_merge k v) = omega arith
op_bytes_nonempty (op_delete_range k v) = omega arith
op_bytes_nonempty (op_delete k) = omega arith
op_bytes_nonempty (op_single_delete k) = omega arith
op_bytes_nonempty (op_log_data k) = omega arith

pub length-le-ops_bytes : (os : List BatchOp) → length os ≤ length (ops_bytes os)
length-le-ops_bytes [] = omega arith
length-le-ops_bytes (o ∷ os) =
    omega (
      arith,
      length-append (op_bytes o) (ops_bytes os),
      op_bytes_nonempty o,
      length-le-ops_bytes os,
    )
