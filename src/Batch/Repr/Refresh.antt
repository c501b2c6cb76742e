-- ===== src/Batch/Repr/Refresh.antt =====
-- Reading back the binary form of a written batch: Repr and SetRepr of batch.go.
use pebble.Prelude.{
  ℕ, ◌+◌, ◌-◌, ◌^◌, ◌≤◌, ◌<◌, ◌≡◌, refl, sym, ap, ◌∙◌, true, false, List, [], ◌∷◌, ◌++◌, map,
  length, take, drop, ltb, length-append, length-take, length-drop, drop-length-append,
  take-length-append, arith,
}
use mathlib.Core.List.{append_assoc}
use mathlib.Core.Path.{subst}
use pebble.Prelude.Outcome.{ok}
use pebble.Prelude.Bytes.{put_le, get_le, length-put_le, get_le-put_le}
use pebble.Batch.Defs.{
  Batch, with_header, new_batch, reader, BatchOp, apply_ops, entries, mem_table_entry_size,
}
use pebble.Batch.Records.{op_entry, op_count, op_range_dels, ops_bound}
use pebble.Batch.RoundTrip.{total, write-read}
use pebble.Batch.Repr.{count_of, repr, count_entry, count_entries, set_repr}

-- What refreshMemTableSize adds for a record of each operation, LogData included.
abbrev pub refreshed_size : BatchOp → ℕ
refreshed_size o = let e = op_entry o in mem_table_entry_size (length e.ukey) (length e.value)

-- The batch after refreshMemTableSize has counted the operations.
abbrev pub refreshed : List BatchOp → Batch → Batch
refreshed os b = record b {
  mem_table_size = b.mem_table_size + total refreshed_size os;
  count_range_dels = b.count_range_dels + total op_range_dels os;
}

count_entry-op :
    (o : BatchOp) (b : Batch)
    → count_entry (op_entry o) b ≡ record b {
      mem_table_size = b.mem_table_size + refreshed_size o;
      count_range_dels = b.count_range_dels + op_range_dels o;
    }
unfolding count_entry
count_entry-op (BatchOp.op_set k v) b = ground arith
count_entry-op (BatchOp.op_merge k v) b = ground arith
count_entry-op (BatchOp.op_delete_range k v) b = ground arith
count_entry-op (BatchOp.op_delete k) b = ground arith
count_entry-op (BatchOp.op_single_delete k) b = ground arith
count_entry-op (BatchOp.op_log_data k) b = ground arith

pub count_entries-ops :
    (os : List BatchOp) (b : Batch) → count_entries (map op_entry os) b ≡ refreshed os b
unfolding count_entries
count_entries-ops [] b = ground arith
count_entries-ops (o ∷ os) b =
    ap (count_entries (map op_entry os)) (count_entry-op o b)
    ∙ count_entries-ops os (record b {
      mem_table_size = b.mem_table_size + refreshed_size o;
      count_range_dels = b.count_range_dels + op_range_dels o;
    })
    ∙ ground arith

-- The header that Repr writes: the sequence number, the count, and the records as they are.
abbrev sealed : List ℕ → ℕ → List ℕ
sealed data_bytes n = take 8 data_bytes ++ (put_le 4 n ++ drop 12 data_bytes)

length-sealed : (d : List ℕ) (n : ℕ) → 12 ≤ length d → length (sealed d n) ≡ length d
length-sealed d n h = omega (
  arith,
  length-append (take 8 d) (put_le 4 n ++ drop 12 d),
  length-append (put_le 4 n) (drop 12 d),
  length-take 8 d,
  length-put_le 4 n,
  length-drop 12 d,
)

drop-sealed : (d : List ℕ) (n : ℕ) → 12 ≤ length d → drop 8 (sealed d n) ≡ put_le 4 n ++ drop 12 d
drop-sealed d n h =
    drop-length-append 8 (take 8 d) (put_le 4 n ++ drop 12 d) (omega (arith, length-take 8 d))

count-sealed :
    (d : List ℕ) (n : ℕ) → 12 ≤ length d → n < 2 ^ 32 → get_le (take 4 (drop 8 (sealed d n))) ≡ n
count-sealed d n h small =
    ap (λ l. get_le (take 4 l)) (drop-sealed d n h)
    ∙ ap get_le (take-length-append 4 (put_le 4 n) (drop 12 d) (sym (length-put_le 4 n)))
    ∙ get_le-put_le 4 n (omega arith)

records-sealed : (d : List ℕ) (n : ℕ) → 12 ≤ length d → drop 12 (sealed d n) ≡ drop 12 d
records-sealed d n h =
    ap (drop 12) (sym (append_assoc (take 8 d) (put_le 4 n) (drop 12 d)))
    ∙ drop-length-append 12 (take 8 d ++ put_le 4 n) (drop 12 d)
        (omega (arith, length-append (take 8 d) (put_le 4 n), length-take 8 d, length-put_le 4 n))

pub op_count-le : (os : List BatchOp) → total op_count os ≤ ops_bound os
op_count-le [] = omega arith
op_count-le (BatchOp.op_set k v ∷ os) = omega (arith, op_count-le os)
op_count-le (BatchOp.op_merge k v ∷ os) = omega (arith, op_count-le os)
op_count-le (BatchOp.op_delete_range k v ∷ os) = omega (arith, op_count-le os)
op_count-le (BatchOp.op_delete k ∷ os) = omega (arith, op_count-le os)
op_count-le (BatchOp.op_single_delete k ∷ os) = omega (arith, op_count-le os)
op_count-le (BatchOp.op_log_data k ∷ os) = omega (arith, op_count-le os)

-- SetRepr on a new batch of a database, given the bytes of a batch whose records are `os`.
set_repr-ops :
    (os : List BatchOp) (d : List ℕ) (n : ℕ)
    → 12 ≤ length d
    → get_le (take 4 (drop 8 d)) ≡ n
    → entries (length (drop 12 d) + 1) (drop 12 d) ≡ ok (map op_entry os)
    → set_repr d (new_batch true)
      ≡ ok (
        record {
          data_bytes = d;
          count = n;
          count_range_dels = total op_range_dels os;
          mem_table_size = total refreshed_size os;
          has_db = true;
        },
        false,
      )
unfolding set_repr new_batch
set_repr-ops os d n h c e =
    let long : ltb (length d) 12 ≡ false = ground arith in
    let b : Batch = record {
      data_bytes = d;
      count = n;
      count_range_dels = 0;
      mem_table_size = 0;
      has_db = true;
    } in
    rw (long, c, e) (ap (λ x. ok (x, false)) (count_entries-ops os b) ∙ ground arith)

repr-sealed :
    (raw : List ℕ) (b : Batch)
    → b.count < 2 ^ 32
    → (with_header raw b).count ≡ b.count
    → repr raw b
      ≡ ok (
        sealed (with_header raw b).data_bytes b.count,
        record (with_header raw b) { data_bytes = sealed (with_header raw b).data_bytes b.count },
      )
unfolding repr count_of
repr-sealed raw b small same =
    let fits : ltb (2 ^ 32 - 1) b.count ≡ false = ground arith in rw (same, fits) refl

pub reader-full :
    (raw : List ℕ) (b : Batch) → 12 ≤ length b.data_bytes → reader raw b ≡ drop 12 b.data_bytes
unfolding reader with_header
reader-full raw b h = go b.data_bytes refl
  where
    go : (l : List ℕ) → b.data_bytes ≡ l → reader raw b ≡ drop 12 b.data_bytes
    go [] e = absurd (omega (arith, ap length e, h))
    go (x ∷ xs) e = rw e refl

-- What SetRepr makes of the bytes: a batch `c` whose reader yields the operations in order, with
-- the count and the range deletions of `b`, and with every record in the memtable size.
abbrev pub IsReadBack : List ℕ → List BatchOp → Batch → Batch → Type 0
IsReadBack raw os b c =
    (entries (length (reader raw c) + 1) (reader raw c) ≡ ok (map op_entry os))
    × (c.count ≡ b.count)
    × (c.count_range_dels ≡ b.count_range_dels)
    × (c.mem_table_size ≡ total refreshed_size os)

-- If the header and the size bounds of the records stay below 4 GB, the operations written to a
-- new batch succeed, Repr of the batch does not panic, and SetRepr of its bytes on a new batch of
-- a database succeeds and gives a batch with the same operations, count and range deletions. Its
-- memtable size is the sum over all records, those of LogData included, which the written batch
-- does not count.
pub set_repr-repr :
    (raw : List ℕ) (os : List BatchOp)
    → length raw ≡ 4
    → 12 + ops_bound os < 2 ^ 32
    → (b : Batch) × (bytes : List ℕ) × (b' : Batch) × (c : Batch) × (apply_ops raw os
          (new_batch true)
        ≡ ok b)
      × (repr raw b ≡ ok (bytes, b'))
      × (set_repr bytes (new_batch true) ≡ ok (c, false))
      × IsReadBack raw os b c
set_repr-repr raw os h small =
    let (b, e, (es, count, dels, mem, long, same, records, own)) = write-read raw true os h small in
    let d = (with_header raw b).data_bytes in
    let few : b.count < 2 ^ 32 = omega (arith, op_count-le os) in
    let bytes = sealed d b.count in
    let len = length-sealed d b.count long in
    let kept = records-sealed d b.count long in
    let written : entries (length (drop 12 d) + 1) (drop 12 d) ≡ ok (map op_entry os) =
      unfold reader in es in
    let read = subst (λ r. entries (length r + 1) r ≡ ok (map op_entry os)) (sym kept) written in
    let c : Batch = record {
      data_bytes = bytes;
      count = b.count;
      count_range_dels = total op_range_dels os;
      mem_table_size = total refreshed_size os;
      has_db = true;
    } in
    let full : 12 ≤ length bytes = omega arith in
    (
      b,
      bytes,
      record (with_header raw b) { data_bytes = bytes },
      c,
      e,
      repr-sealed raw b few same,
      set_repr-ops os bytes b.count full (count-sealed d b.count long few) read,
      (rw (reader-full raw c full) read, refl, sym dels, refl),
    )
