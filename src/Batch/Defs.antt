-- ===== src/Batch/Defs.antt =====
-- The batch and its operations: batch.go.
use pebble.Prelude.{
  ℕ, zero, suc, ◌+◌, ◌*◌, ◌^◌, Bool, ◌||◌, Option, none, some, List, [], ◌∷◌, ◌++◌, ltb, leb, ◌==◌,
  if◌then◌else◌, length, drop,
}
use pebble.Prelude.Outcome.{Outcome, ok, panic, stuck, ◌>>=◌}
use pebble.Prelude.Bytes.{put_le}
use pebble.Key.{
  kind_delete, kind_set, kind_merge, kind_log_data, kind_single_delete, kind_range_delete, kind_max,
}
use pebble.Batch.Varint.{u32, encode_str, batch_decode_str}

abbrev pub batch_header_len : ℕ
batch_header_len = 12

-- 4 << 30 (open.go).
abbrev pub max_batch_size : ℕ
max_batch_size = 2 ^ 32

abbrev pub max_varint_len32 : ℕ
max_varint_len32 = 5

-- `has_db` says that the batch was created for a database.
pub record Batch : Type 0 where
  pub data_bytes : List ℕ
  pub count : ℕ
  pub count_range_dels : ℕ
  pub mem_table_size : ℕ
  pub has_db : Bool

-- arenaskl.MaxNodeSize of the key with its trailer: a node of 176 bytes, 4 words and 20 links of
-- 8 bytes, and 3 bytes of padding, in uint32.
unfoldable pub mem_table_entry_size : ℕ → ℕ → ℕ
mem_table_entry_size key_bytes value_bytes =
    u32 (176 + u32 (u32 key_bytes + 8) + u32 value_bytes + 3)

-- init: a zero sequence number over four bytes of unset memory, `raw`, where the count goes.
abbrev pub initial : List ℕ → List ℕ
initial raw = put_le 8 0 ++ raw

unfoldable pub with_header : List ℕ → Batch → Batch
with_header raw b = elim b.data_bytes [
  | [] ↦ record b { data_bytes = initial raw; count = 0 }
  | x ∷ xs ↦ b
]

-- newBatch.
unfoldable pub new_batch : Bool → Batch
new_batch db = record {
  data_bytes = [];
  count = 0;
  count_range_dels = 0;
  mem_table_size = 0;
  has_db = db;
}

-- Reader: the records behind the header.
unfoldable pub reader : List ℕ → Batch → List ℕ
unfolding with_header
reader raw b = drop batch_header_len (with_header raw b).data_bytes

-- What is appended, when `grow` to an upper bound of the record's size does not panic.
append_record : ℕ → List ℕ → Batch → Outcome Batch
append_record bound rec b =
    if leb max_batch_size (length b.data_bytes + bound)
    then panic
    else ok (record b { data_bytes = b.data_bytes ++ rec })

module _ (raw : List ℕ) where
  -- prepareDeferredKeyValueRecord, with the key and the value copied in.
  key_value_record : ℕ → List ℕ → List ℕ → Batch → Outcome Batch
  unfolding with_header append_record mem_table_entry_size
  key_value_record kind key value b =
      let h = with_header raw b in
      append_record (1 + 2 * max_varint_len32 + length key + length value)
        (kind ∷ (encode_str key ++ encode_str value))
        (record h {
          count = h.count + 1;
          mem_table_size = h.mem_table_size + mem_table_entry_size (length key) (length value);
        })

  -- prepareDeferredKeyRecord, with the key copied in.
  key_record : ℕ → List ℕ → Batch → Outcome Batch
  unfolding with_header append_record mem_table_entry_size
  key_record kind key b =
      let h = with_header raw b in
      append_record (1 + max_varint_len32 + length key) (kind ∷ encode_str key) (record h {
        count = h.count + 1;
        mem_table_size = h.mem_table_size + mem_table_entry_size (length key) 0;
      })

  unfoldable pub set : List ℕ → List ℕ → Batch → Outcome Batch
  unfolding key_value_record
  set key value b = key_value_record kind_set key value b

  unfoldable pub merge : List ℕ → List ℕ → Batch → Outcome Batch
  unfolding key_value_record
  merge key value b = key_value_record kind_merge key value b

  unfoldable pub delete : List ℕ → Batch → Outcome Batch
  unfolding key_record
  delete key b = key_record kind_delete key b

  unfoldable pub single_delete : List ℕ → Batch → Outcome Batch
  unfolding key_record
  single_delete key b = key_record kind_single_delete key b

  unfoldable pub delete_range : List ℕ → List ℕ → Batch → Outcome Batch
  unfolding key_value_record
  delete_range start end b =
      key_value_record kind_range_delete start end b
      >>= (λ b'. ok (record b' { count_range_dels = b'.count_range_dels + 1 }))

  -- Written to the log only: the count and the size in the memtable are put back.
  unfoldable pub log_data : List ℕ → Batch → Outcome Batch
  unfolding key_record
  log_data bytes b =
      key_record kind_log_data bytes b
      >>= (λ b'. ok (record b' { count = b.count; mem_table_size = b.mem_table_size }))

pub data BatchOp : Type 0 where
  op_set op_merge op_delete_range : List ℕ → List ℕ → BatchOp
  op_delete op_single_delete op_log_data : List ℕ → BatchOp

unfoldable pub apply_op : List ℕ → BatchOp → Batch → Outcome Batch
unfolding set merge delete single_delete delete_range log_data
apply_op raw (op_set k v) b = set raw k v b
apply_op raw (op_merge k v) b = merge raw k v b
apply_op raw (op_delete_range k v) b = delete_range raw k v b
apply_op raw (op_delete k) b = delete raw k b
apply_op raw (op_single_delete k) b = single_delete raw k b
apply_op raw (op_log_data d) b = log_data raw d b

unfoldable pub apply_ops : List ℕ → List BatchOp → Batch → Outcome Batch
apply_ops raw [] b = ok b
apply_ops raw (o ∷ os) b = apply_op raw o b >>= (λ b'. apply_ops raw os b')

-- One record of the binary form.
pub record BatchEntry : Type 0 where
  pub kind : ℕ
  pub ukey : List ℕ
  pub value : List ℕ

has_value : ℕ → Bool
has_value kind = kind == kind_set || (kind == kind_merge || kind == kind_range_delete)

decode_value : ℕ → Option (List ℕ × List ℕ) → Outcome (Option (BatchEntry × List ℕ))
unfolding has_value
decode_value kind none = ok none
decode_value kind (some (r, key)) =
    if has_value kind
    then batch_decode_str r >>= (λ o. ok (elim o [
      | none ↦ none
      | some (r', v) ↦ some (record { kind = kind; ukey = key; value = v }, r')
    ]))
    else ok (some (record { kind = kind; ukey = key; value = [] }, r))

-- BatchReader.Next: none is the result `ok == false`, at the end or on a corrupt batch.
unfoldable pub next_entry : List ℕ → Outcome (Option (BatchEntry × List ℕ))
unfolding decode_value
next_entry [] = ok none
next_entry (kind ∷ r) =
    if ltb kind_max kind then ok none else batch_decode_str r >>= (λ o. decode_value kind o)

-- The entries that a loop over Next sees until `ok == false`.
unfoldable pub entries : ℕ → List ℕ → Outcome (List BatchEntry)
entries zero r = stuck
entries (suc fuel) r = elim (next_entry r) [
  | panic ↦ panic
  | stuck ↦ stuck
  | ok none ↦ ok []
  | ok (some (e, r')) ↦ elim (entries fuel r') [
    | panic ↦ panic
    | stuck ↦ stuck
    | ok es ↦ ok (e ∷ es)
  ]
]
