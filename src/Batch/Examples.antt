-- ===== src/Batch/Examples.antt =====
-- Batches at concrete operations (batch.go).
use pebble.Prelude.{ℕ, ◌≡◌, refl, ◌⊎◌, inr, true, false, List, [], ◌∷◌, arith}
use pebble.Prelude.Outcome.{ok, panic}
use pebble.Batch.Varint.{encode_str}
use pebble.Batch.Defs.{
  Batch, new_batch, apply_ops, next_entry, BatchOp, op_set, op_delete, op_delete_range, op_log_data,
}
use pebble.Batch.Corrupt.{next_entry-cut_off}
use pebble.Batch.RoundTrip.{IsWritten, write-read}
use pebble.Batch.Repr.{repr, set_repr, reset}
use pebble.Batch.Repr.Reset.{IsFresh, reset-IsFresh}
use pebble.Batch.Apply.{apply}
use pebble.Batch.Apply.Concat.{IsConcat, apply-IsConcat}
use pebble.Batch.Repr.Refresh.{IsReadBack, set_repr-repr}

-- Four bytes of unset memory.
abbrev unset : List ℕ
unset = 9 ∷ 9 ∷ 9 ∷ 9 ∷ []

abbrev ops : List BatchOp
ops =
    op_set (1 ∷ 2 ∷ []) (3 ∷ [])
    ∷ op_log_data (5 ∷ [])
    ∷ op_delete_range (1 ∷ []) (4 ∷ [])
    ∷ op_delete []
    ∷ []

write-read_example :
    (b : Batch) × (apply_ops unset ops (new_batch true) ≡ ok b) × IsWritten unset true ops b
write-read_example = write-read unset true ops refl (omega arith)

next_entry-cut_off_example :
    (next_entry (1 ∷ []) ≡ panic)
    × ((◌≡◌ {A = ℕ} 1 1) ⊎ ((◌≡◌ {A = ℕ} 1 2) ⊎ (◌≡◌ {A = ℕ} 1 15))
        → next_entry (1 ∷ encode_str (7 ∷ [])) ≡ panic)
next_entry-cut_off_example = next_entry-cut_off 1 (7 ∷ []) (omega arith) (omega arith)

set_repr-repr_example :
    (b : Batch) × (bytes : List ℕ) × (b' : Batch) × (c : Batch) × (apply_ops unset ops
        (new_batch true)
      ≡ ok b)
    × (repr unset b ≡ ok (bytes, b'))
    × (set_repr bytes (new_batch true) ≡ ok (c, false))
    × IsReadBack unset ops b c
set_repr-repr_example = set_repr-repr unset ops refl (omega arith)

apply-IsConcat_example :
    (a : Batch) × (b : Batch) × (c : Batch) × (apply_ops unset
        (op_delete [] ∷ ops)
        (new_batch false)
      ≡ ok a)
    × (apply_ops unset ops (new_batch true) ≡ ok b)
    × (apply unset a b ≡ ok (c, false))
    × IsConcat unset ops (op_delete [] ∷ ops) a b c
apply-IsConcat_example = apply-IsConcat unset false ops (op_delete []) ops refl (omega arith)

-- A batch with a header and one Delete.
abbrev used : Batch
used = record {
  data_bytes = 5 ∷ 0 ∷ 0 ∷ 0 ∷ 0 ∷ 0 ∷ 0 ∷ 0 ∷ 1 ∷ 0 ∷ 0 ∷ 0 ∷ 0 ∷ 1 ∷ 65 ∷ [];
  count = 1;
  count_range_dels = 0;
  mem_table_size = 188;
  has_db = true;
}

reset-IsFresh_example : IsFresh unset (reset true used) × ((reset true used).has_db ≡ true)
reset-IsFresh_example = reset-IsFresh unset true used refl (inr (omega arith))
