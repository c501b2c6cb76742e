-- ===== src/Batch/Repr/Reset.antt =====
-- A batch after Reset (batch.go).
use pebble.Prelude.{
  ℕ, ◌≤◌, ◌≡◌, ◌⊎◌, inl, inr, refl, ap, ◌∙◌, sym, Bool, true, false, List, [], ◌∷◌, ◌++◌, length,
  take, drop, length-take, length-drop, drop-all, arith,
}
use pebble.Prelude.Bytes.{put_le, get_le}
use pebble.Batch.Defs.{Batch, with_header, reader}
use pebble.Batch.Repr.{reset, is_empty, batch_seq_num}

-- The header of a new batch, of length 12 with the sequence number zero.
abbrev pub IsFresh : List ℕ → Batch → Type 0
IsFresh raw b =
    (is_empty b ≡ true)
    × (reader raw b ≡ [])
    × (batch_seq_num raw b ≡ 0)
    × (b.count ≡ 0)
    × (b.count_range_dels ≡ 0)
    × (b.mem_table_size ≡ 0)

nil_IsFresh :
    (raw : List ℕ) (db : Bool)
    → length raw ≡ 4
    → IsFresh raw (record {
      data_bytes = [];
      count = 0;
      count_range_dels = 0;
      mem_table_size = 0;
      has_db = db;
    })
unfolding is_empty batch_seq_num reader with_header put_le get_le
nil_IsFresh raw db h = (refl, drop-all 4 raw (omega arith), refl, refl, refl, refl)

kept_IsFresh :
    (raw tail : List ℕ) (db : Bool)
    → length tail ≡ 4
    → IsFresh raw (record {
      data_bytes = put_le 8 0 ++ tail;
      count = 0;
      count_range_dels = 0;
      mem_table_size = 0;
      has_db = db;
    })
unfolding is_empty batch_seq_num reader with_header put_le get_le
kept_IsFresh raw tail db h = (ground arith, drop-all 4 tail (omega arith), refl, refl, refl, refl)

-- Whether or not its buffer is kept, a batch that has no data or a whole header is empty after
-- Reset: its reader yields nothing, its sequence number and its counters are zero, and it belongs
-- to the database that it belonged to.
pub reset-IsFresh :
    (raw : List ℕ) (retained : Bool) (b : Batch)
    → length raw ≡ 4
    → (b.data_bytes ≡ []) ⊎ (12 ≤ length b.data_bytes)
    → IsFresh raw (reset retained b) × ((reset retained b).has_db ≡ b.has_db)
unfolding reset
reset-IsFresh raw retained b h shape = go retained b.data_bytes refl
  where
    go :
        (kept : Bool) (l : List ℕ)
        → b.data_bytes ≡ l
        → IsFresh raw (reset kept b) × ((reset kept b).has_db ≡ b.has_db)
    go kept [] e = rw e (nil_IsFresh raw b.has_db h, refl)
    go false (x ∷ xs) e = rw e (nil_IsFresh raw b.has_db h, refl)
    go true (x ∷ xs) e = elim shape [
      | inl p ↦ absurd (omega (arith, ap length (sym e ∙ p)))
      | inr p ↦
          let l = take 12 (x ∷ xs) in
          let four : length (drop 8 l) ≡ 4 =
            omega (arith, length-drop 8 l, length-take 12 (x ∷ xs), ap length e, p) in
          rw e (kept_IsFresh raw (drop 8 l) b.has_db four, refl)
    ]
