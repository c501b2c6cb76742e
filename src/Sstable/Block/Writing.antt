-- ===== src/Sstable/Block/Writing.antt =====
-- What the block writer puts into a block: sstable/block.go.
use pebble.Prelude.{
  ℕ, zero, suc, ◌+◌, ◌-◌, ◌*◌, ◌≤◌, ◌≡◌, refl, sym, ap, ◌∙◌, inl, inr, Bool, Bool-cases, true,
  false, none, some, List, [], ◌∷◌, ◌++◌, ◌==◌, if◌then◌else◌, length, take, drop, length-append,
  length-drop, arith,
}
use mathlib.Core.List.{append_assoc, append-nil}
use pebble.Prelude.Bytes.{put_le, length-put_le}
use pebble.Prelude.Outcome.{Outcome, ok, panic, stuck, ◌>>=◌}
use pebble.Key.{InternalKey, size, encode}
use pebble.Key.Codec.{encode-fits}
use pebble.Batch.Varint.{u32, put_uvarint}
use pebble.Batch.Lengths.{length-put_uvarint}
use pebble.Sstable.Block.{BlockWriter, shared_len, entry, store, blank, add, Read, next}

-- The key as Encode writes it.
abbrev pub encoded : InternalKey → List ℕ
encoded k = k.user_key ++ put_le 8 k.trailer

abbrev pub Entry : Type 0
Entry = InternalKey × List ℕ

-- All of Add, in order.
unfoldable pub add_all : List Entry → BlockWriter → Outcome BlockWriter
add_all [] w = ok w
add_all (e ∷ es) w = add (e.0) (e.1) w >>= (λ v. add_all es v)

-- What Next yields until it yields nothing.
unfoldable pub read_rest : ℕ → Outcome Read → Outcome (List Entry)
read_rest fuel panic = panic
read_rest fuel stuck = stuck
read_rest zero (ok r) = stuck
read_rest (suc fuel) (ok r) =
    let rest = read_rest fuel (next (r.0)) in
    elim (r.1) [ none ↦ ok [] | some e ↦ rest >>= (λ es. ok (e ∷ es)) ]

-- The entries behind a key, as bytes: each shares at most what it has in common with the one before.
abbrev pub Encodes : List ℕ → List Entry → List ℕ → Type 0
Encodes prev [] bs = bs ≡ []
Encodes prev (e ∷ es) bs =
    (shared : ℕ) × (rest : List ℕ) × (shared ≤ length prev)
    × (take shared prev ++ drop shared (encoded (e.0)) ≡ encoded (e.0))
    × (shared ≤ length (encoded (e.0)))
    × (bs ≡ entry shared (encoded (e.0)) (e.1) ++ rest)
    × Encodes (encoded (e.0)) es rest

length-blank : (n : ℕ) → length (blank n) ≡ n
length-blank zero = refl
length-blank (suc n) = ap suc (length-blank n)

drop-blank : (n : ℕ) → drop n (blank n) ≡ []
drop-blank zero = refl
drop-blank (suc n) = drop-blank n

encode-blank : (k : InternalKey) → encode k (blank (size k)) ≡ some (encoded k)
encode-blank k =
    encode-fits k (blank (size k)) (omega (arith, length-blank (size k)))
    ∙ ap (λ z. some (k.user_key ++ (put_le 8 k.trailer ++ z))) (drop-blank (size k))
    ∙ ap (λ z. some (k.user_key ++ z)) (append-nil (put_le 8 k.trailer))

add-store :
    (k : InternalKey) (v : List ℕ) (w : BlockWriter)
    → add k v w ≡ ok (store v (record w { cur_key = encoded k; prev_key = w.cur_key }))
unfolding add
add-store k v w = rw (encode-blank k, add) refl

shared_len_le : (xs ys : List ℕ) → shared_len xs ys ≤ length ys
unfolding shared_len
shared_len_le [] ys = omega arith
shared_len_le (x ∷ xs) [] = omega arith
shared_len_le (x ∷ xs) (y ∷ ys) = ground (arith, shared_len_le xs ys)

shared_len_le_left : (xs ys : List ℕ) → shared_len xs ys ≤ length xs
unfolding shared_len
shared_len_le_left [] ys = omega arith
shared_len_le_left (x ∷ xs) [] = omega arith
shared_len_le_left (x ∷ xs) (y ∷ ys) = ground (arith, shared_len_le_left xs ys)

pub eq_of : (a b : ℕ) → (a == b) ≡ true → a ≡ b
eq_of a b e = grind arith

take-shared_len : (xs ys : List ℕ) → take (shared_len xs ys) ys ++ drop (shared_len xs ys) xs ≡ xs
unfolding shared_len
take-shared_len [] ys = refl
take-shared_len (x ∷ xs) [] = refl
take-shared_len (x ∷ xs) (y ∷ ys) = elim (Bool-cases (x == y)) [
  | inl e ↦ rw e (
      ap (λ z. z ∷ (take (shared_len xs ys) ys ++ drop (shared_len xs ys) xs)) (sym (eq_of x y e))
      ∙ ap (λ r. x ∷ r) (take-shared_len xs ys))
  | inr e ↦ rw e refl
]

-- The bytes that the entries of a block and its restart points take at most.
abbrev pub room : List Entry → ℕ
room [] = 8
room (e ∷ es) = 19 + size (e.0) + length (e.1) + room es

length-entry : (s : ℕ) (key v : List ℕ) → length (entry s key v) ≤ 15 + length key + length v
length-entry s key v =
    let a = put_uvarint 4 (u32 s) in
    let b = put_uvarint 4 (u32 (length key - s)) in
    let c = put_uvarint 4 (u32 (length v)) in
    omega (
      arith,
      length-append a (b ++ (c ++ (drop s key ++ v))),
      length-append b (c ++ (drop s key ++ v)),
      length-append c (drop s key ++ v),
      length-append (drop s key) v,
      length-drop s key,
      length-put_uvarint 4 (u32 s),
      length-put_uvarint 4 (u32 (length key - s)),
      length-put_uvarint 4 (u32 (length v)),
    )

put_uvarint_some : (n x : ℕ) → 1 ≤ length (put_uvarint n x)
unfolding put_uvarint
put_uvarint_some zero x = omega arith
put_uvarint_some (suc n) x = ground arith

pub entry_some : (s : ℕ) (key v : List ℕ) → 1 ≤ length (entry s key v)
entry_some s key v = omega (
  arith,
  length-append (put_uvarint 4 (u32 s)) (
      put_uvarint 4 (u32 (length key - s))
      ++ (put_uvarint 4 (u32 (length v)) ++ (drop s key ++ v))),
  put_uvarint_some 4 (u32 s),
)

-- What store shares with the key before.
store_shared :
    (c : Bool) (prev cur : List ℕ)
    → let s = if c then 0 else shared_len cur prev in
      (s ≤ length prev) × (take s prev ++ drop s cur ≡ cur) × (s ≤ length cur)
store_shared true prev cur = (omega arith, refl, omega arith)
store_shared false prev cur =
    (shared_len_le cur prev, take-shared_len cur prev, shared_len_le_left cur prev)

pub length-encoded : (k : InternalKey) → length (encoded k) ≡ size k
unfolding size
length-encoded k =
    omega (arith, length-append k.user_key (put_le 8 k.trailer), length-put_le 8 k.trailer)

-- What the writer appends for the entries.
pub add_all-Encodes :
    (es : List Entry) (w : BlockWriter)
    → (v : BlockWriter) × (bs : List ℕ) × (add_all es w ≡ ok v)
      × (v.buf ≡ w.buf ++ bs)
      × Encodes w.cur_key es bs
      × (length v.restarts ≤ length w.restarts + length es)
      × (length bs + 4 * length es + 8 ≤ room es)
      × (v.n_entries ≡ w.n_entries + length es)
      × (length w.restarts ≤ length v.restarts)
      × ((w.n_entries == w.next_restart) ≡ true → 1 ≤ length es → 1 ≤ length v.restarts)
unfolding add_all
add_all-Encodes [] w = (
  w,
  [],
  refl,
  sym (append-nil w.buf),
  refl,
  omega arith,
  omega arith,
  omega arith,
  omega arith,
  λ c l. omega arith,
)
add_all-Encodes ((k, x) ∷ es) w =
    let c = w.n_entries == w.next_restart in
    let key = encoded k in
    let s = if c then 0 else shared_len key w.cur_key in
    let u : BlockWriter = record {
      restart_interval = w.restart_interval;
      n_entries = w.n_entries + 1;
      next_restart = if c then w.n_entries + w.restart_interval else w.next_restart;
      buf = w.buf ++ entry s key x;
      restarts = if c then w.restarts ++ (u32 (length w.buf) ∷ []) else w.restarts;
      cur_key = key;
      prev_key = w.cur_key;
    } in
    let step : add k x w ≡ ok u = add-store k x w ∙ unfold store in refl in
    let (v, bs, r, b, enc, l, m, n, lo, one) = add_all-Encodes es u in
    let (p, q, t) = store_shared c w.cur_key key in
    (
      v,
      entry s key x ++ bs,
      ap (λ o. o >>= (λ y. add_all es y)) step ∙ r,
      b ∙ append_assoc w.buf (entry s key x) bs,
      (s, bs, p, q, t, refl, enc),
      omega (arith, l, restarts-short c w.restarts (u32 (length w.buf))),
      omega (arith, m, length-append (entry s key x) bs, length-entry s key x, length-encoded k),
      omega (arith, n),
      omega (arith, lo, restarts-long c w.restarts (u32 (length w.buf))),
      λ d h. omega (arith, lo, restarts-new c w.restarts (u32 (length w.buf)) d),
    )
  where
    restarts-long :
        (c : Bool) (rs : List ℕ) (a : ℕ) → length rs ≤ length (if c then rs ++ (a ∷ []) else rs)
    restarts-long true rs a = omega (arith, length-append rs (a ∷ []))
    restarts-long false rs a = omega arith

    restarts-new :
        (c : Bool) (rs : List ℕ) (a : ℕ) → c ≡ true → 1 ≤ length (if c then rs ++ (a ∷ []) else rs)
    restarts-new true rs a e = omega (arith, length-append rs (a ∷ []))
    restarts-new false rs a e = absurd (cc)

    restarts-short :
        (c : Bool) (rs : List ℕ) (a : ℕ) → length (if c then rs ++ (a ∷ []) else rs) ≤ length rs + 1
    restarts-short true rs a = omega (arith, length-append rs (a ∷ []))
    restarts-short false rs a = omega arith
