-- ===== src/Sstable/Block.antt =====
-- Blocks of a table, written and read forwards: sstable/block.go. The inlined varints are those of
-- batch.go.
pub mod Writing
pub mod Reading
pub mod Opening
pub mod RoundTrip
mod Examples
use pebble.Prelude.{
  ℕ, zero, suc, ◌+◌, ◌-◌, ◌*◌, ◌%◌, ◌^◌, Bool, true, false, not, ◌&&◌, ◌||◌, Option, none, some,
  List, [], ◌∷◌, ◌++◌, ◌==◌, ltb, if◌then◌else◌, length, take, drop,
}
use pebble.Prelude.Bytes.{put_le, get_le}
use pebble.Prelude.Outcome.{Outcome, ok, panic, stuck, ◌>>=◌}
use pebble.Key.{InternalKey, size, encode, decode_internal_key, set_seq_num, kind_invalid}
use pebble.Batch.Varint.{u32, put_uvarint, decode_uvarint}

pub record BlockWriter : Type 0 where
  pub restart_interval : ℕ
  pub n_entries : ℕ
  pub next_restart : ℕ
  pub buf : List ℕ
  pub restarts : List ℕ
  pub cur_key : List ℕ
  pub prev_key : List ℕ

unfoldable pub new_block_writer : ℕ → BlockWriter
new_block_writer interval = record {
  restart_interval = interval;
  n_entries = 0;
  next_restart = 0;
  buf = [];
  restarts = [];
  cur_key = [];
  prev_key = [];
}

-- The loop of store over the prefix that both keys have.
unfoldable pub shared_len : List ℕ → List ℕ → ℕ
shared_len [] ys = 0
shared_len (x ∷ xs) [] = 0
shared_len (x ∷ xs) (y ∷ ys) = let rest = shared_len xs ys in if x == y then suc rest else 0

-- What store appends to the buffer.
abbrev pub entry : ℕ → List ℕ → List ℕ → List ℕ
entry shared key value =
    put_uvarint 4 (u32 shared)
    ++ (put_uvarint 4 (u32 (length key - shared))
        ++ (put_uvarint 4 (u32 (length value)) ++ (drop shared key ++ value)))

unfoldable pub store : List ℕ → BlockWriter → BlockWriter
store value w =
    let restart = w.n_entries == w.next_restart in
    let shared = if restart then 0 else shared_len w.cur_key w.prev_key in
    record w {
      next_restart = if restart then w.n_entries + w.restart_interval else w.next_restart;
      restarts = if restart then w.restarts ++ (u32 (length w.buf) ∷ []) else w.restarts;
      buf = w.buf ++ entry shared w.cur_key value;
      n_entries = w.n_entries + 1;
    }

-- The buffer of the key before the last one is used again; Encode writes all of it, so what it held
-- does not matter.
abbrev pub blank : ℕ → List ℕ
blank zero = []
blank (suc n) = 0 ∷ blank n

unfoldable pub add : InternalKey → List ℕ → BlockWriter → Outcome BlockWriter
add key value w = elim (encode key (blank (size key))) [
  | none ↦ panic
  | some enc ↦ ok (store value (record w { cur_key = enc; prev_key = w.cur_key }))
]

unfoldable pub put_words : List ℕ → List ℕ
put_words [] = []
put_words (x ∷ xs) = put_le 4 x ++ put_words xs

unfoldable pub finish : BlockWriter → List ℕ × BlockWriter
finish w =
    let restarts = if w.n_entries == 0 then 0 ∷ [] else w.restarts in
    (
      w.buf ++ (put_words restarts ++ put_le 4 (u32 (length restarts))),
      record w { n_entries = 0; next_restart = 0; buf = []; restarts = [] },
    )

-- The fields that forward iteration uses; offsets are byte indices in `block`.
pub record BlockIter : Type 0 where
  pub block : List ℕ
  pub restarts : ℕ
  pub num_restarts : ℕ
  pub global_seq_num : ℕ
  pub offset : ℕ
  pub next_offset : ℕ
  pub full_key : List ℕ
  pub key : List ℕ
  pub val : List ℕ
  pub first_key : InternalKey

abbrev pub no_key : InternalKey
no_key = record { user_key = []; trailer = 0 }

-- decodeInternalKey, and the same lines in readFirstKey and Next.
unfoldable pub decode_key : ℕ → List ℕ → InternalKey
decode_key global key =
    let k = decode_internal_key key in
    if ltb (length key) 8 || (global == 0) then k else set_seq_num global k

-- A read outside of the block is a panic here; in Go it reads other memory.
unfoldable pub read_first_key : ℕ → List ℕ → Outcome (Option InternalKey)
read_first_key global [] = panic
read_first_key global (b ∷ r) =
    if not (b == 0)
    then panic
    else decode_uvarint r >>= (λ p. decode_uvarint (p.1) >>= (λ q.
      let key = take (p.0) (q.1) in
      if ltb (length (q.1)) (p.0)
      then panic
      else ok (if ltb (length key) 8 then none else some (decode_key global key))))

-- init on a block of at least four bytes; `none` is the error of a corrupt block.
unfoldable pub init : ℕ → List ℕ → Outcome (Option BlockIter)
init global block =
    let num = get_le (drop (length block - 4) block) in
    let restarts = length block - 4 * (1 + num) in
    let i : BlockIter = record {
      block = block;
      restarts = restarts;
      num_restarts = num;
      global_seq_num = global;
      offset = 0;
      next_offset = 0;
      full_key = [];
      key = [];
      val = [];
      first_key = no_key;
    } in
    if ltb (length block) 4
    then panic
    else if num == 0
    then ok none
    else if ltb 0 restarts
    then read_first_key global block >>= (λ r. ok (elim r as (λ x. Option BlockIter) [
      | none ↦ none
      | some k ↦ some (record i { first_key = k })
    ]))
    else ok (some i)

-- readEntry. As above for reads outside of the block, or of the key buffer.
unfoldable pub read_entry : BlockIter → Outcome BlockIter
read_entry i = decode_uvarint (drop i.offset i.block) >>= (λ s. decode_uvarint (s.1) >>= (λ u.
    decode_uvarint (u.1) >>= (λ v.
      let part = take (u.0) (v.1) in
      let full = take (s.0) i.full_key ++ part in
      let rest = drop (u.0) (v.1) in
      if ltb (length i.full_key) (s.0) || ltb (length (v.1)) (u.0 + v.0)
      then panic
      else ok (record i {
        full_key = full;
        key = if s.0 == 0 then part else full;
        val = take (v.0) rest;
        next_offset = (length i.block - length rest) + v.0;
      }))))

unfoldable pub valid : BlockIter → Bool
valid i = ltb i.offset i.restarts

abbrev pub Read : Type 0
Read = BlockIter × Option (InternalKey × List ℕ)

-- What First and Next do at their offset.
unfoldable pub read_at : BlockIter → Outcome Read
read_at i =
    if valid i
    then read_entry i >>= (λ j. ok (j, some (decode_key j.global_seq_num j.key, j.val)))
    else ok (i, none)

unfoldable pub first : BlockIter → Outcome Read
first i = read_at (record i { offset = 0 })

unfoldable pub next : BlockIter → Outcome Read
next i = read_at (record i { offset = i.next_offset })
