-- ===== src/Batch/Apply/Concat.antt =====
-- A batch that is applied to another one adds its operations behind those of the other (batch.go).
use pebble.Prelude.{
  ℕ, ◌+◌, ◌%◌, ◌^◌, ◌≤◌, ◌<◌, ◌≡◌, refl, sym, ap, ◌∙◌, Bool, true, false, List, [], ◌∷◌, ◌++◌, map,
  length, drop, ltb, ◌==◌, length-append, drop-append, drop-all, ◌-◌, drop-length-append,
  if◌then◌else◌, arith,
}
use mathlib.Core.List.{append_assoc}
use pebble.Prelude.Outcome.{ok, ◌>>=◌}
use pebble.Prelude.Bytes.{put_le}
use pebble.Batch.Defs.{Batch, with_header, new_batch, reader, BatchOp, apply_ops, entries}
use pebble.Batch.Records.{
  op_entry, ops_bound, ops_bytes, op_bytes_nonempty, op_bytes, entries-ops_bytes,
  length-le-ops_bytes,
}
use pebble.Batch.RoundTrip.{total, IsWritten, write-read}
use pebble.Batch.Repr.{count_of, count_entries}
use pebble.Batch.Repr.Refresh.{
  refreshed_size, refreshed, count_entries-ops, reader-full, op_count-le,
}
use pebble.Batch.Apply.{apply, track_entries}

ops_bytes-append : (os ps : List BatchOp) → ops_bytes (os ++ ps) ≡ ops_bytes os ++ ops_bytes ps
ops_bytes-append [] ps = refl
ops_bytes-append (o ∷ os) ps =
    ap (λ l. op_bytes o ++ l) (ops_bytes-append os ps)
    ∙ sym (append_assoc (op_bytes o) (ops_bytes os) (ops_bytes ps))

ops_bound-append : (os ps : List BatchOp) → ops_bound (os ++ ps) ≡ ops_bound os + ops_bound ps
ops_bound-append [] ps = omega arith
ops_bound-append (o ∷ os) ps = omega (arith, ops_bound-append os ps)

-- Where Apply starts to count: behind the header, or behind the records that were there.
offset_lem :
    (raw : List ℕ) (b : Batch)
    → length raw ≡ 4
    → (if length b.data_bytes == 0 then 12 else length b.data_bytes)
      ≡ length (with_header raw b).data_bytes
unfolding with_header
offset_lem raw b h = go b.data_bytes refl
  where
    go :
        (l : List ℕ)
        → b.data_bytes ≡ l
        → (if length b.data_bytes == 0 then 12 else length b.data_bytes)
          ≡ length (with_header raw b).data_bytes
    go [] e = rw e (unfold put_le in omega (arith, h))
    go (x ∷ xs) e = ground arith

with_header_kept :
    (raw : List ℕ) (b : Batch) (x : ℕ) (xs : List ℕ)
    → b.data_bytes ≡ x ∷ xs
    → (with_header raw b).data_bytes ≡ b.data_bytes
unfolding with_header
with_header_kept raw b x xs e = rw e refl

reader-empty : (raw : List ℕ) (b : Batch) → length raw ≡ 4 → b.data_bytes ≡ [] → reader raw b ≡ []
unfolding reader with_header put_le
reader-empty raw b h e = rw e (drop-all 4 raw (omega arith))

-- A written batch with an operation has a header, and behind it the records.
written_records :
    (raw : List ℕ) (db : Bool) (o : BatchOp) (os : List BatchOp) (b : Batch)
    → length raw ≡ 4
    → IsWritten raw db (o ∷ os) b
    → (12 ≤ length b.data_bytes) × (drop 12 b.data_bytes ≡ ops_bytes (o ∷ os))
written_records raw db o os b h (es, count, dels, mem, long, same, records, own) =
    go b.data_bytes refl
  where
    go :
        (l : List ℕ)
        → b.data_bytes ≡ l
        → (12 ≤ length b.data_bytes) × (drop 12 b.data_bytes ≡ ops_bytes (o ∷ os))
    go [] e = absurd (
        omega (
          arith,
          ap length (sym (reader-empty raw b h e) ∙ records),
          length-append (op_bytes o) (ops_bytes os),
          op_bytes_nonempty o,
        ))
    go (x ∷ xs) e =
        let whole : 12 ≤ length b.data_bytes =
          omega (arith, long, ap length (with_header_kept raw b x xs e)) in
        (whole, sym (reader-full raw b whole) ∙ records)

apply-step :
    (raw : List ℕ) (a b : Batch) (n m : ℕ)
    → 12 ≤ length a.data_bytes
    → (if length b.data_bytes == 0 then 12 else length b.data_bytes)
      ≡ length (with_header raw b).data_bytes
    → (with_header raw b).count ≡ n
    → a.count ≡ m
    → n + m < 2 ^ 32
    → let d = (with_header raw b).data_bytes in
      apply raw a b ≡ (
        track_entries
          (drop (length d) (d ++ drop 12 a.data_bytes))
          (record (with_header raw b) { data_bytes = d ++ drop 12 a.data_bytes; count = n + m })
        >>= (λ b'. ok (b', false)))
unfolding apply count_of
apply-step raw a b n m long offset cn cm fit =
    let some_bytes : (length a.data_bytes == 0) ≡ false = ground arith in
    let whole : ltb (length a.data_bytes) 12 ≡ false = ground arith in
    let fits_n : ltb (2 ^ 32 - 1) n ≡ false = ground arith in
    let fits_m : ltb (2 ^ 32 - 1) m ≡ false = ground arith in
    let sum : (n + m) % 2 ^ 32 ≡ n + m = omega arith in
    rw (some_bytes, whole, offset, cn, cm, fits_n, fits_m, sum) refl

with_header_same :
    (raw : List ℕ) (b : Batch)
    → ((with_header raw b).count_range_dels ≡ b.count_range_dels)
      × ((with_header raw b).mem_table_size ≡ b.mem_table_size)
      × ((with_header raw b).has_db ≡ b.has_db)
unfolding with_header
with_header_same raw b = go b.data_bytes refl
  where
    go :
        (l : List ℕ)
        → b.data_bytes ≡ l
        → ((with_header raw b).count_range_dels ≡ b.count_range_dels)
          × ((with_header raw b).mem_table_size ≡ b.mem_table_size)
          × ((with_header raw b).has_db ≡ b.has_db)
    go [] e = rw e (refl, refl, refl)
    go (x ∷ xs) e = rw e (refl, refl, refl)

track_entries-ops :
    (os : List BatchOp) (r : List ℕ) (b : Batch)
    → b.has_db ≡ true
    → entries (length r + 1) r ≡ ok (map op_entry os)
    → track_entries r b ≡ ok (refreshed os b)
unfolding track_entries
track_entries-ops os r b own e =
    ap (λ x. if x then entries (length r + 1) r >>= (λ es. ok (count_entries es b)) else ok b) own
    ∙ ap (λ x. x >>= (λ es. ok (count_entries es b))) e
    ∙ ap ok (count_entries-ops os b)

entries-bytes :
    (os : List BatchOp) (r : List ℕ)
    → r ≡ ops_bytes os
    → ops_bound os < 2 ^ 32
    → entries (length r + 1) r ≡ ok (map op_entry os)
entries-bytes os r e small =
    rw e (
      entries-ops_bytes os (length (ops_bytes os) + 1) small
        (omega (arith, length-le-ops_bytes os)))

-- The records of a batch `c` are those of two lists of operations, one after the other, and its
-- counters are the sums; the memtable size counts every record of the second list.
abbrev pub IsConcat : List ℕ → List BatchOp → List BatchOp → Batch → Batch → Batch → Type 0
IsConcat raw os ps a b c =
    (entries (length (reader raw c) + 1) (reader raw c) ≡ ok (map op_entry (os ++ ps)))
    × (c.count ≡ b.count + a.count)
    × (c.count_range_dels ≡ b.count_range_dels + a.count_range_dels)
    × (c.mem_table_size ≡ b.mem_table_size + total refreshed_size ps)

-- If the header and the size bounds of all records stay below 4 GB, a batch with operations that
-- is applied to a batch of a database gives, without a panic or an error, a batch whose reader
-- yields the operations of the receiver followed by those of the argument; the count and the range
-- deletions are the sums, and the memtable size grows by that of every record of the argument.
pub apply-IsConcat :
    (raw : List ℕ) (db : Bool) (os : List BatchOp) (p : BatchOp) (ps : List BatchOp)
    → length raw ≡ 4
    → 12 + (ops_bound os + ops_bound (p ∷ ps)) < 2 ^ 32
    → (a : Batch) × (b : Batch) × (c : Batch) × (apply_ops raw (p ∷ ps) (new_batch db) ≡ ok a)
      × (apply_ops raw os (new_batch true) ≡ ok b)
      × (apply raw a b ≡ ok (c, false))
      × IsConcat raw os (p ∷ ps) a b c
apply-IsConcat raw db os p ps h small =
    let (a, ea, wa) = write-read raw db (p ∷ ps) h (omega arith) in
    let (b, eb, wb) = write-read raw true os h (omega arith) in
    let (es, count, dels, mem, long, same, records, own) = wb in
    let (es', count', dels', mem', long', same', records', own') = wa in
    let (whole, tail) = written_records raw db p ps a h wa in
    let hd = with_header raw b in
    let bytes = hd.data_bytes ++ drop 12 a.data_bytes in
    let (sd, sm, so) = with_header_same raw b in
    let start : Batch = record hd { data_bytes = bytes; count = b.count + a.count } in
    let c = refreshed (p ∷ ps) start in
    let behind : drop (length hd.data_bytes) bytes ≡ ops_bytes (p ∷ ps) =
      drop-length-append (length hd.data_bytes) hd.data_bytes (drop 12 a.data_bytes) refl ∙ tail in
    let first : drop 12 hd.data_bytes ≡ ops_bytes os = unfold reader in records in
    let all : reader raw c ≡ ops_bytes (os ++ (p ∷ ps)) =
      reader-full raw c (omega (arith, length-append hd.data_bytes (drop 12 a.data_bytes)))
      ∙ drop-append 12 hd.data_bytes (drop 12 a.data_bytes) long
      ∙ ap (λ l. l ++ drop 12 a.data_bytes) first
      ∙ ap (λ l. ops_bytes os ++ l) tail
      ∙ sym (ops_bytes-append os (p ∷ ps)) in
    (
      a,
      b,
      c,
      ea,
      eb,
      apply-step raw a b b.count a.count whole (offset_lem raw b h) same refl
            (omega (arith, op_count-le os, op_count-le (p ∷ ps)))
          ∙ ap (λ r. r >>= (λ b'. ok (b', false)))
              (track_entries-ops (p ∷ ps) (drop (length hd.data_bytes) bytes) start (so ∙ own)
                (entries-bytes (p ∷ ps) (drop (length hd.data_bytes) bytes) behind (omega arith))),
      (
        entries-bytes (os ++ (p ∷ ps)) (reader raw c) all
            (omega (arith, ops_bound-append os (p ∷ ps))),
        refl,
        omega arith,
        omega arith,
      ),
    )
