-- ===== src/Batch/Repr.antt =====
-- The binary form of a batch (batch.go): Repr writes the count into the header, and SetRepr reads
-- a batch of a database back.
pub mod Refresh
pub mod Reset
use pebble.Prelude.{
  ℕ, ◌+◌, ◌-◌, ◌^◌, Bool, true, false, List, [], ◌∷◌, ◌++◌, length, take, drop, ltb, leb, ◌==◌,
  if◌then◌else◌,
}
use pebble.Prelude.Outcome.{Outcome, ok, panic, ◌>>=◌}
use pebble.Prelude.Bytes.{put_le, get_le}
use pebble.Key.{kind_range_delete}
use pebble.Batch.Defs.{
  Batch, batch_header_len, with_header, BatchEntry, entries, mem_table_entry_size,
}

-- Count: panics on a count that does not fit a uint32.
unfoldable pub count_of : Batch → Outcome ℕ
count_of b = if ltb (2 ^ 32 - 1) b.count then panic else ok b.count

unfoldable pub repr : List ℕ → Batch → Outcome (List ℕ × Batch)
unfolding with_header count_of
repr raw b =
    let h = with_header raw b in
    count_of h >>= (λ n.
      let bytes = take 8 h.data_bytes ++ (put_le 4 n ++ drop batch_header_len h.data_bytes) in
      ok (bytes, record h { data_bytes = bytes }))

unfoldable pub batch_seq_num : List ℕ → Batch → ℕ
unfolding with_header
batch_seq_num raw b = get_le (take 8 (with_header raw b).data_bytes)

unfoldable pub set_batch_seq_num : ℕ → Batch → Batch
set_batch_seq_num n b = record b { data_bytes = put_le 8 n ++ drop 8 b.data_bytes }

unfoldable pub is_empty : Batch → Bool
is_empty b = leb (length b.data_bytes) batch_header_len

-- Reset. `retained` says that the buffer is kept; the slice `data[:batchHeaderLen]` of a shorter
-- buffer is not modelled, since a buffer is nil or holds a header.
unfoldable pub reset : Bool → Batch → Batch
unfolding set_batch_seq_num
reset retained b =
    let h = record b { count = 0; count_range_dels = 0; mem_table_size = 0 } in
    elim b.data_bytes [
      | [] ↦ h
      | x ∷ xs ↦
          if retained
          then set_batch_seq_num 0 (record h { data_bytes = take batch_header_len (x ∷ xs) })
          else record h { data_bytes = [] }
    ]

-- One round of refreshMemTableSize.
unfoldable pub count_entry : BatchEntry → Batch → Batch
count_entry e b = record b {
  mem_table_size = b.mem_table_size + mem_table_entry_size (length e.ukey) (length e.value);
  count_range_dels =
      if e.kind == kind_range_delete then b.count_range_dels + 1 else b.count_range_dels;
}

unfoldable pub count_entries : List BatchEntry → Batch → Batch
unfolding count_entry
count_entries [] b = b
count_entries (e ∷ es) b = count_entries es (count_entry e b)

unfoldable pub refresh_mem_table_size : Batch → Outcome Batch
unfolding count_entries
refresh_mem_table_size b =
    if ltb (length b.data_bytes) batch_header_len
    then ok (record b { mem_table_size = 0 })
    else let r = drop batch_header_len b.data_bytes in
      entries (length r + 1) r
      >>= (λ es. ok (count_entries es (record b { mem_table_size = 0; count_range_dels = 0 })))

-- True is the error of an invalid batch.
unfoldable pub set_repr : List ℕ → Batch → Outcome (Batch × Bool)
unfolding refresh_mem_table_size
set_repr bytes b =
    if ltb (length bytes) batch_header_len
    then ok (b, true)
    else let b' = record b { data_bytes = bytes; count = get_le (take 4 (drop 8 bytes)) } in
      if b.has_db then refresh_mem_table_size b' >>= (λ b''. ok (b'', false)) else ok (b', false)
