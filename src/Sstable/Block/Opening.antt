-- ===== src/Sstable/Block/Opening.antt =====
-- Opening a block that the writer finished: sstable/block.go.
use pebble.Prelude.{
  ℕ, ◌+◌, ◌-◌, ◌*◌, ◌^◌, ◌≤◌, ◌<◌, ◌≡◌, refl, sym, ap, ◌∙◌, inl, inr, Bool-cases, true, false, some,
  List, [], ◌∷◌, ◌++◌, ◌==◌, ltb, length, take, drop, length-append, take-length-append,
  drop-length-append, All, arith,
}
use mathlib.Core.List.{append_assoc}
use pebble.Prelude.Bytes.{put_le, get_le, length-put_le, get_le-put_le}
use pebble.Prelude.Outcome.{ok}
use pebble.Key.{InternalKey}
use pebble.Key.Fields.{IsStored}
use pebble.Batch.Varint.{u32, put_uvarint}
use pebble.Batch.Lengths.{decode-put_uvarint}
use pebble.Sstable.Block.{entry, put_words, BlockIter, no_key, read_first_key, init, read_at, first}
use pebble.Sstable.Block.Writing.{encoded, Entry, Encodes, room, length-encoded}
use pebble.Sstable.Block.Reading.{not_ltb, entry-split, decode_key-encoded}

length-put_words : (xs : List ℕ) → length (put_words xs) ≡ 4 * length xs
unfolding put_words
length-put_words [] = refl
length-put_words (x ∷ xs) =
    omega (arith, length-append (put_le 4 x) (put_words xs), length-put_le 4 x, length-put_words xs)

-- The restart points and their number, as finish writes them.
unfoldable pub trailer_of : List ℕ → List ℕ
trailer_of rs = put_words rs ++ put_le 4 (u32 (length rs))

length-trailer_of : (rs : List ℕ) → length (trailer_of rs) ≡ 4 * (1 + length rs)
unfolding trailer_of
length-trailer_of rs = omega (
  arith,
  length-append (put_words rs) (put_le 4 (u32 (length rs))),
  length-put_words rs,
  length-put_le 4 (u32 (length rs)),
)

num-trailer_of :
    (bs rs : List ℕ)
    → length rs < 2 ^ 32
    → get_le (drop (length (bs ++ trailer_of rs) - 4) (bs ++ trailer_of rs)) ≡ length rs
unfolding trailer_of
num-trailer_of bs rs h =
    let last = put_le 4 (u32 (length rs)) in
    let four = length-put_le 4 (u32 (length rs)) in
    let whole = append_assoc bs (put_words rs) last in
    let same : u32 (length rs) ≡ length rs = omega arith in
    ap (λ z. get_le (drop (length z - 4) z)) (sym whole)
    ∙ ap get_le (
        drop-length-append (length ((bs ++ put_words rs) ++ last) - 4) (bs ++ put_words rs) last
          (omega (arith, length-append (bs ++ put_words rs) last, four)))
    ∙ get_le-put_le 4 (u32 (length rs)) (omega arith)
    ∙ same

put_uvarint_zero : put_uvarint 4 0 ≡ 0 ∷ []
unfolding put_uvarint
put_uvarint_zero = refl

read_first_key-fields :
    (k : InternalKey) (n : ℕ) (rest : List ℕ)
    → IsStored k
    → length (encoded k) < 2 ^ 32
    → n < 2 ^ 32
    → length (encoded k) ≤ length rest
    → take (length (encoded k)) rest ≡ encoded k
    → read_first_key 0 (0 ∷ (put_uvarint 4 (length (encoded k)) ++ (put_uvarint 4 n ++ rest)))
      ≡ ok (some k)
unfolding read_first_key
read_first_key-fields k n rest st a b l part =
    let fits = not_ltb (length rest) (length (encoded k)) l in
    let long =
      not_ltb (length (encoded k)) 8
        (omega (arith, length-append k.user_key (put_le 8 k.trailer), length-put_le 8 k.trailer)) in
    rw
      (
        decode-put_uvarint (length (encoded k)) (put_uvarint 4 n ++ rest) a,
        decode-put_uvarint n rest b,
        fits,
        part,
        long,
        decode_key-encoded k st,
      )
      refl

-- The first entry of a block shares nothing.
read_first_key-entry :
    (k : InternalKey) (v tail : List ℕ)
    → IsStored k
    → length (encoded k) < 2 ^ 32
    → length v < 2 ^ 32
    → read_first_key 0 (entry 0 (encoded k) v ++ tail) ≡ ok (some k)
read_first_key-entry k v tail st a b =
    let key = encoded k in
    let rest = key ++ (v ++ tail) in
    let n : length key - 0 ≡ length key = omega arith in
    ap (read_first_key 0) (
      entry-split 0 key v tail (omega arith) a b
      ∙ ap (λ z. z ++ (put_uvarint 4 (length key - 0) ++ (put_uvarint 4 (length v) ++ rest)))
          put_uvarint_zero
      ∙ ap (λ z. 0 ∷ (put_uvarint 4 z ++ (put_uvarint 4 (length v) ++ rest))) n)
    ∙ read_first_key-fields k (length v) rest st a b (omega (arith, length-append key (v ++ tail)))
        (take-length-append (length key) key (v ++ tail) refl)

not_zero : (n : ℕ) → 1 ≤ n → (n == 0) ≡ false
not_zero n h = grind arith

some_of : (n : ℕ) → ltb 0 n ≡ true → 1 ≤ n
some_of n e = grind arith

pub first-read_at : (i : BlockIter) → first i ≡ read_at (record i { offset = 0 })
unfolding first
first-read_at i = refl

abbrev read_from : List ℕ → ℕ → ℕ → BlockIter
read_from block restarts num = record {
  block = block;
  restarts = restarts;
  num_restarts = num;
  global_seq_num = 0;
  offset = 0;
  next_offset = 0;
  full_key = [];
  key = [];
  val = [];
  first_key = no_key;
}

-- A block that holds these bytes and restart points.
pub init-block :
    (bs rs : List ℕ) (first_key : InternalKey)
    → 1 ≤ length rs
    → length rs < 2 ^ 32
    → ((1 ≤ length bs) → read_first_key 0 (bs ++ trailer_of rs) ≡ ok (some first_key))
    → (i : BlockIter) × (init 0 (bs ++ trailer_of rs) ≡ ok (some i))
      × (i.block ≡ bs ++ trailer_of rs)
      × (i.restarts ≡ length bs)
      × (i.global_seq_num ≡ 0)
      × (i.full_key ≡ [])
unfolding init
init-block bs rs k some_restart small reads =
    let block = bs ++ trailer_of rs in
    let long = length-append bs (trailer_of rs) in
    let trailer = length-trailer_of rs in
    let num = num-trailer_of bs rs small in
    let fits = not_ltb (length block) 4 (omega (arith, long, trailer)) in
    let read = get_le (drop (length block - 4) block) in
    let some_num = not_zero read (omega (arith, num, some_restart)) in
    let left = length block - 4 * (1 + read) in
    let restarts : left ≡ length bs = omega (arith, long, trailer, num) in
    elim (Bool-cases (ltb 0 left)) [
      | inl e ↦ (
        record (read_from block left read) { first_key = k },
        rw (fits, some_num, e, reads (omega (arith, some_of left e, restarts))) refl,
        refl,
        restarts,
        refl,
        refl,
      )
      | inr e ↦ (read_from block left read, rw (fits, some_num, e) refl, refl, restarts, refl, refl)
    ]

pub head_key : List Entry → InternalKey
head_key [] = no_key
head_key (e ∷ es) = e.0

pub Encodes-first :
    (es : List Entry) (bs tail : List ℕ)
    → All (λ e. IsStored (e.0)) es
    → room es < 2 ^ 31
    → Encodes [] es bs
    → 1 ≤ length bs
    → read_first_key 0 (bs ++ tail) ≡ ok (some (head_key es))
unfolding head_key
Encodes-first [] bs tail a r enc some_bytes = absurd (omega (arith, some_bytes, ap length enc))
Encodes-first ((k, x) ∷ es) bs tail (st, a) r (s, rest, p, q, t, b, enc) some_bytes =
    let zero_shared : s ≡ 0 = omega (arith, p) in
    ap (λ z. read_first_key 0 (z ++ tail)) (b ∙ ap (λ z. entry z (encoded k) x ++ rest) zero_shared)
    ∙ ap (read_first_key 0) (append_assoc (entry 0 (encoded k) x) rest tail)
    ∙ read_first_key-entry k x (rest ++ tail) st (omega (arith, r, length-encoded k))
        (omega (arith, r))
