-- ===== src/Sstable/Block/Reading.antt =====
-- What the block iterator reads where entries stand: sstable/block.go.
use pebble.Prelude.{
  ℕ, zero, suc, ◌+◌, ◌-◌, ◌^◌, ◌≤◌, ◌<◌, ◌≡◌, refl, sym, ap, ◌∙◌, inl, inr, Bool, Bool-cases, true,
  false, ◌||◌, none, some, List, [], ◌∷◌, ◌++◌, ◌==◌, ltb, if◌then◌else◌, length, take, drop,
  length-append, length-drop, take-length-append, drop-length-append, All, arith,
}
use mathlib.Core.List.{append_assoc}
use pebble.Prelude.Bytes.{put_le, length-put_le, get_le-put_le}
use pebble.Prelude.Outcome.{ok}
use pebble.Key.{InternalKey}
use pebble.Key.Fields.{IsStored}
use pebble.Key.Codec.{decode-append}
use pebble.Batch.Varint.{u32, put_uvarint}
use pebble.Batch.Lengths.{decode-put_uvarint}
use pebble.Sstable.Block.{entry, BlockIter, decode_key, read_entry, valid, read_at, next}
use pebble.Sstable.Block.Writing.{
  encoded, Entry, read_rest, Encodes, eq_of, room, entry_some, length-encoded,
}

two_false : (a b : Bool) → a ≡ false → b ≡ false → (a || b) ≡ false
two_false a b e f = rw (e, f) refl

pub not_ltb : (a b : ℕ) → b ≤ a → ltb a b ≡ false
not_ltb a b h = grind arith

whole_key : (s : ℕ) (key : List ℕ) → (if s == 0 then drop s key else key) ≡ key
whole_key zero key = refl
whole_key (suc s) key = elim (Bool-cases (suc s == 0)) [
  | inl e ↦ absurd (omega (arith, eq_of (suc s) 0 e))
  | inr e ↦ rw e refl
]

is_ltb : (a b : ℕ) → a < b → ltb a b ≡ true
is_ltb a b h = grind arith

drop_nil : (n : ℕ) → drop {A = ℕ} n [] ≡ []
drop_nil zero = refl
drop_nil (suc n) = refl

drop_add : (m n : ℕ) (xs : List ℕ) → drop (m + n) xs ≡ drop n (drop m xs)
drop_add zero n xs = ap (λ z. drop z xs) (omega arith)
drop_add (suc m) n [] = drop_nil (suc m + n) ∙ sym (drop_nil n)
drop_add (suc m) n (x ∷ xs) =
    let e : suc m + n ≡ suc (m + n) = omega arith in ap (λ z. drop z (x ∷ xs)) e ∙ drop_add m n xs

-- The bytes of an entry, one field after the other.
pub entry-split :
    (s : ℕ) (key v tail : List ℕ)
    → s < 2 ^ 32
    → length key < 2 ^ 32
    → length v < 2 ^ 32
    → entry s key v ++ tail
      ≡ put_uvarint 4 s
        ++ (put_uvarint 4 (length key - s)
            ++ (put_uvarint 4 (length v) ++ (drop s key ++ (v ++ tail))))
entry-split s key v tail a b c =
    let d = put_uvarint 4 (u32 s) in
    let e = put_uvarint 4 (u32 (length key - s)) in
    let f = put_uvarint 4 (u32 (length v)) in
    let here : u32 s ≡ s = omega arith in
    let there : u32 (length key - s) ≡ length key - s = omega arith in
    let last : u32 (length v) ≡ length v = omega arith in
    append_assoc d (e ++ (f ++ (drop s key ++ v))) tail
    ∙ ap (λ z. d ++ z)
        (append_assoc e (f ++ (drop s key ++ v)) tail
          ∙ ap (λ z. e ++ z)
              (append_assoc f (drop s key ++ v) tail
                ∙ ap (λ z. f ++ z) (append_assoc (drop s key) v tail)))
    ∙ rw (here, there, last) refl

-- readEntry at an entry whose prefix the key buffer holds.
read_entry-entry :
    (i : BlockIter) (s : ℕ) (key v tail : List ℕ)
    → drop i.offset i.block ≡ entry s key v ++ tail
    → s < 2 ^ 32
    → length key < 2 ^ 32
    → length v < 2 ^ 32
    → s ≤ length i.full_key
    → s ≤ length key
    → take s i.full_key ++ drop s key ≡ key
    → read_entry i
      ≡ ok (record i {
        full_key = key;
        key = key;
        val = v;
        next_offset = (length i.block - length (v ++ tail)) + length v;
      })
unfolding read_entry
read_entry-entry i s key v tail e a b c d f g =
    let rest = v ++ tail in
    let part : take (length key - s) (drop s key ++ rest) ≡ drop s key =
      take-length-append (length key - s) (drop s key) rest (omega (arith, length-drop s key)) in
    let left : drop (length key - s) (drop s key ++ rest) ≡ rest =
      drop-length-append (length key - s) (drop s key) rest (omega (arith, length-drop s key)) in
    let value : take (length v) rest ≡ v = take-length-append (length v) v tail refl in
    let fits : (ltb (length i.full_key) s
          || ltb (length (drop s key ++ rest)) (length key - s + length v))
        ≡ false =
      two_false _ _ (not_ltb _ _ d) (
        not_ltb _ _ (
          omega
            (arith, length-append (drop s key) rest, length-append v tail, length-drop s key))) in
    let whole : (if s == 0 then drop s key else key) ≡ key = whole_key s key in
    rw
      (
        e ∙ entry-split s key v tail a b c,
        decode-put_uvarint s
            (put_uvarint 4 (length key - s) ++ (put_uvarint 4 (length v) ++ (drop s key ++ rest)))
            a,
        decode-put_uvarint (length key - s) (put_uvarint 4 (length v) ++ (drop s key ++ rest))
            (omega arith),
        decode-put_uvarint (length v) (drop s key ++ rest) c,
        fits,
        part,
        left,
        value,
        g,
        whole,
      )
      refl

pub decode_key-encoded : (k : InternalKey) → IsStored k → decode_key 0 (encoded k) ≡ k
unfolding decode_key
decode_key-encoded k h =
    let e = decode-append k.user_key (put_le 8 k.trailer) (length-put_le 8 k.trailer) in
    elim (Bool-cases (ltb (length (encoded k)) 8)) [
      | inl c ↦ absurd (
          cc (
            c,
            not_ltb (length (encoded k)) 8 (
                omega (
                  arith,
                  length-append k.user_key (put_le 8 k.trailer),
                  length-put_le 8 k.trailer,
                )),
          ))
      | inr c ↦ rw (c, e, get_le-put_le 8 k.trailer (omega arith)) refl
    ]

read_at-some :
    (i j : BlockIter)
    → valid i ≡ true
    → read_entry i ≡ ok j
    → read_at i ≡ ok (j, some (decode_key j.global_seq_num j.key, j.val))
unfolding read_at
read_at-some i j v e = rw (v, e) refl

read_at-none : (i : BlockIter) → valid i ≡ false → read_at i ≡ ok (i, none)
unfolding read_at
read_at-none i v = rw v refl

read_rest-some :
    (fuel : ℕ) (j : BlockIter) (e : Entry) (es : List Entry)
    → read_rest fuel (next j) ≡ ok es
    → read_rest (suc fuel) (ok (j, some e)) ≡ ok (e ∷ es)
unfolding read_rest
read_rest-some fuel j e es h = rw h refl

next-read_at : (j : BlockIter) → next j ≡ read_at (record j { offset = j.next_offset })
unfolding next
next-read_at j = refl

entry_longer : (s : ℕ) (key v : List ℕ) → length v ≤ length (entry s key v)
entry_longer s key v =
    let a = put_uvarint 4 (u32 s) in
    let b = put_uvarint 4 (u32 (length key - s)) in
    let c = put_uvarint 4 (u32 (length v)) in
    omega (
      arith,
      length-append a (b ++ (c ++ (drop s key ++ v))),
      length-append b (c ++ (drop s key ++ v)),
      length-append c (drop s key ++ v),
      length-append (drop s key) v,
    )

-- Reading the entries of a block from where they begin.
pub read_rest-Encodes :
    (es : List Entry) (i : BlockIter) (bs tail : List ℕ)
    → drop i.offset i.block ≡ bs ++ tail
    → i.offset + length bs ≡ i.restarts
    → i.offset ≤ length i.block
    → i.global_seq_num ≡ 0
    → All (λ e. IsStored (e.0)) es
    → room es < 2 ^ 31
    → Encodes i.full_key es bs
    → read_rest (suc (length es)) (read_at i) ≡ ok es
read_rest-Encodes [] i bs tail d l o g a r enc =
    let at_end : valid i ≡ false =
      unfold valid in not_ltb i.offset i.restarts (omega (arith, l, ap length enc)) in
    ap (read_rest 1) (read_at-none i at_end) ∙ unfold read_rest in refl
read_rest-Encodes ((k, x) ∷ es) i bs tail d l o g (st, a) r (s, rest, p, q, t, b, enc) =
    let key = encoded k in
    let size_key = length-encoded k in
    let parts = length-append (entry s key x) rest in
    let here : drop i.offset i.block ≡ entry s key x ++ (rest ++ tail) =
      d ∙ ap (λ z. z ++ tail) b ∙ append_assoc (entry s key x) rest tail in
    let long = length-drop i.offset i.block in
    let whole = ap length here ∙ length-append (entry s key x) (rest ++ tail) in
    let n = (length i.block - length (x ++ (rest ++ tail))) + length x in
    let j : BlockIter = record i { full_key = key; key = key; val = x; next_offset = n } in
    let goes_on : valid i ≡ true =
      unfold valid in
      is_ltb i.offset i.restarts (omega (arith, l, ap length b, parts, entry_some s key x)) in
    let e =
      read_entry-entry i s key x (rest ++ tail) here (omega (arith, t, r, size_key))
        (omega (arith, r, size_key)) (omega (arith, r)) p t q in
    let sits : n ≡ i.offset + length (entry s key x) =
      omega (arith, o, long, whole, length-append x (rest ++ tail), entry_longer s key x) in
    let rec =
      read_rest-Encodes es (record j { offset = n }) rest tail
        (ap (λ z. drop z i.block) sits
          ∙ drop_add i.offset (length (entry s key x)) i.block
          ∙ ap (drop (length (entry s key x))) here
          ∙ drop-length-append (length (entry s key x)) (entry s key x) (rest ++ tail) refl)
        (omega (arith, sits, l, ap length b, parts)) (omega (arith, sits, o, long, whole)) g a
        (omega (arith, r)) enc in
    ap (read_rest (suc (suc (length es)))) (
      read_at-some i j goes_on e
      ∙ ap (λ z. ok (j, some (z, x))) (ap (λ z. decode_key z key) g ∙ decode_key-encoded k st))
    ∙ read_rest-some (suc (length es)) j (k, x) es
        (ap (read_rest (suc (length es))) (next-read_at j) ∙ rec)
