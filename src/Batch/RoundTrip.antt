-- ===== src/Batch/RoundTrip.antt =====
-- Reading a batch gives the operations that were written to it, in their order (batch.go).
use pebble.Prelude.{
  ℕ, ◌+◌, ◌^◌, ◌≤◌, ◌<◌, ◌≡◌, refl, ap, ◌∙◌, sym, Bool, List, [], ◌∷◌, ◌++◌, map, length,
  length-append, drop-length-append, drop-all, arith,
}
use mathlib.Core.List.{append_assoc, append-nil}
use pebble.Prelude.Outcome.{ok}
use pebble.Prelude.Bytes.{put_le}
use pebble.Batch.Defs.{
  Batch, new_batch, with_header, initial, reader, BatchOp, op_set, op_merge, op_delete,
  op_single_delete, op_delete_range, op_log_data, apply_op, apply_ops, next_entry, entries,
}
use pebble.Batch.Records.{
  op_entry, op_bytes, ops_bytes, op_bound, ops_bound, op_count, op_range_dels, op_size,
  length-op_bytes, length-le-ops_bytes, entries-ops_bytes,
}

-- The batch after an operation that `grow` lets through.
grown : List ℕ → BatchOp → Batch → Batch
grown hd o b = record b {
  data_bytes = hd ++ op_bytes o;
  count = b.count + op_count o;
  count_range_dels = b.count_range_dels + op_range_dels o;
  mem_table_size = b.mem_table_size + op_size o;
}

-- Each operation appends its record, unless the batch with the record's size bound reaches 4 GB.
apply_op-grown :
    (raw : List ℕ) (o : BatchOp) (b : Batch) (x : ℕ) (xs : List ℕ)
    → b.data_bytes ≡ x ∷ xs
    → length b.data_bytes + op_bound o < 2 ^ 32
    → apply_op raw o b ≡ ok (grown b.data_bytes o b)
unfolding apply_op grown
apply_op-grown raw (op_set k v) b x xs e h = ground arith
apply_op-grown raw (op_merge k v) b x xs e h = ground arith
apply_op-grown raw (op_delete_range k v) b x xs e h = ground arith
apply_op-grown raw (op_delete k) b x xs e h = ground arith
apply_op-grown raw (op_single_delete k) b x xs e h = ground arith
apply_op-grown raw (op_log_data k) b x xs e h = ground arith

abbrev pub total : (BatchOp → ℕ) → List BatchOp → ℕ
total f [] = 0
total f (o ∷ os) = f o + total f os

-- The batch after a list of operations, behind the bytes `hd`.
grown_all : List ℕ → List BatchOp → Batch → Batch
grown_all hd os b = record b {
  data_bytes = hd ++ ops_bytes os;
  count = b.count + total op_count os;
  count_range_dels = b.count_range_dels + total op_range_dels os;
  mem_table_size = b.mem_table_size + total op_size os;
}

grown_all-cons :
    (hd : List ℕ) (o : BatchOp) (os : List BatchOp) (b : Batch)
    → grown_all (hd ++ op_bytes o) os (grown hd o b) ≡ grown_all hd (o ∷ os) b
unfolding grown grown_all
grown_all-cons hd o os b = ground (arith, append_assoc hd (op_bytes o) (ops_bytes os))

apply_ops-grown :
    (raw : List ℕ) (os : List BatchOp) (b : Batch) (x : ℕ) (xs : List ℕ)
    → b.data_bytes ≡ x ∷ xs
    → length b.data_bytes + ops_bound os < 2 ^ 32
    → apply_ops raw os b ≡ ok (grown_all b.data_bytes os b)
unfolding apply_ops
apply_ops-grown raw [] b x xs e h = unfold grown_all in ground (arith, append-nil b.data_bytes)
apply_ops-grown raw (o ∷ os) b x xs e h =
    let b' = grown b.data_bytes o b in
    let longer = length-append b.data_bytes (op_bytes o) in
    rw (apply_op-grown raw o b x xs e (omega arith)) (
      apply_ops-grown raw os b' x (xs ++ op_bytes o) (unfold grown in ap (λ l. l ++ op_bytes o) e)
        (unfold grown in omega (arith, longer, length-op_bytes o))
      ∙ ap ok (unfold grown in grown_all-cons b.data_bytes o os b))

-- A new batch with its header.
started : List ℕ → Bool → Batch
started raw db = record {
  data_bytes = initial raw;
  count = 0;
  count_range_dels = 0;
  mem_table_size = 0;
  has_db = db;
}

apply_op-started :
    (raw : List ℕ) (db : Bool) (o : BatchOp)
    → apply_op raw o (new_batch db) ≡ apply_op raw o (started raw db)
unfolding apply_op new_batch started put_le
apply_op-started raw db (op_set k v) = refl
apply_op-started raw db (op_merge k v) = refl
apply_op-started raw db (op_delete_range k v) = refl
apply_op-started raw db (op_delete k) = refl
apply_op-started raw db (op_single_delete k) = refl
apply_op-started raw db (op_log_data k) = refl

apply_ops-started :
    (raw : List ℕ) (db : Bool) (o : BatchOp) (os : List BatchOp)
    → apply_ops raw (o ∷ os) (new_batch db) ≡ apply_ops raw (o ∷ os) (started raw db)
unfolding apply_ops
apply_ops-started raw db o os = rw (apply_op-started raw db o)

started_bytes :
    (raw : List ℕ) (db : Bool) → (started raw db).data_bytes ≡ 0 ∷ 0 ∷ 0 ∷ 0 ∷ 0 ∷ 0 ∷ 0 ∷ 0 ∷ raw
unfolding started put_le
started_bytes raw db = refl

reader-new_batch : (raw : List ℕ) (db : Bool) → length raw ≡ 4 → reader raw (new_batch db) ≡ []
unfolding reader new_batch put_le
reader-new_batch raw db h = drop-all 4 raw (omega arith)

entries-nil : entries 1 [] ≡ ok []
unfolding entries next_entry
entries-nil = refl

reader-grown_all :
    (raw : List ℕ) (db : Bool) (os : List BatchOp)
    → length raw ≡ 4
    → reader raw (grown_all (initial raw) os (started raw db)) ≡ ops_bytes os
unfolding reader grown_all started put_le
reader-grown_all raw db os h = drop-length-append 4 raw (ops_bytes os) (sym h)

-- What a written batch is: its reader yields the operations in order, its counters are exact, and
-- with its header, which is made if it has none, it is as long as a header, keeps its count and
-- has the records of the operations. It belongs to the database it was made for.
abbrev pub IsWritten : List ℕ → Bool → List BatchOp → Batch → Type 0
IsWritten raw db os b =
    (entries (length (reader raw b) + 1) (reader raw b) ≡ ok (map op_entry os))
    × (b.count ≡ total op_count os)
    × (b.count_range_dels ≡ total op_range_dels os)
    × (b.mem_table_size ≡ total op_size os)
    × (12 ≤ length (with_header raw b).data_bytes)
    × ((with_header raw b).count ≡ b.count)
    × (reader raw b ≡ ops_bytes os)
    × (b.has_db ≡ db)

grown_all-IsWritten :
    (raw : List ℕ) (db : Bool) (os : List BatchOp)
    → length raw ≡ 4
    → ops_bound os < 2 ^ 32
    → IsWritten raw db os (grown_all (initial raw) os (started raw db))
grown_all-IsWritten raw db os h g = (
  rw (reader-grown_all raw db os h)
      (entries-ops_bytes os (length (ops_bytes os) + 1) g (omega (arith, length-le-ops_bytes os))),
  unfold grown_all started in omega arith,
  unfold grown_all started in omega arith,
  unfold grown_all started in omega arith,
  unfold with_header grown_all started put_le in omega (arith, length-append raw (ops_bytes os), h),
  unfold with_header grown_all started put_le in refl,
  reader-grown_all raw db os h,
  unfold grown_all started in refl,
)

-- If the header and the size bounds of the records stay below 4 GB, the operations written to a
-- new batch all succeed, and a reader of the batch yields exactly these operations, in order; the
-- count is that of the operations other than LogData, and the range deletions and the memtable
-- size are counted too. With its header, which is made if there is none, the batch holds the
-- records of the operations and keeps its count, and it is of the database it was made for.
pub write-read :
    (raw : List ℕ) (db : Bool) (os : List BatchOp)
    → length raw ≡ 4
    → 12 + ops_bound os < 2 ^ 32
    → (b : Batch) × (apply_ops raw os (new_batch db) ≡ ok b) × IsWritten raw db os b
write-read raw db [] h g = (
  new_batch db,
  unfold apply_ops in refl,
  (
    rw (reader-new_batch raw db h) entries-nil,
    unfold new_batch in refl,
    unfold new_batch in refl,
    unfold new_batch in refl,
    unfold with_header new_batch put_le in omega (arith, h),
    unfold with_header new_batch put_le in refl,
    reader-new_batch raw db h,
    unfold new_batch in refl,
  ),
)
write-read raw db (o ∷ os) h g = (
  grown_all (initial raw) (o ∷ os) (started raw db),
  apply_ops-started raw db o os
      ∙ unfold started in
        apply_ops-grown raw (o ∷ os) (started raw db) 0 (0 ∷ 0 ∷ 0 ∷ 0 ∷ 0 ∷ 0 ∷ 0 ∷ raw)
          (started_bytes raw db) (omega (arith, ap length (started_bytes raw db))),
  grown_all-IsWritten raw db (o ∷ os) h (omega arith),
)
