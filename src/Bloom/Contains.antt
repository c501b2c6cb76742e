-- ===== src/Bloom/Contains.antt =====
-- A table filter has no false negatives: bloom/bloom.go.
use pebble.Prelude.{
  ℕ, zero, suc, ◌+◌, ◌-◌, ◌*◌, ◌/◌, ◌%◌, ◌^◌, ◌≤◌, ◌<◌, ◌≡◌, inl, inr, refl, ap, ◌∙◌, sym,
  Bool-cases, true, false, none, some, List, [], ◌∷◌, ◌++◌, leb, ◌==◌, length, take, drop,
  length-append, length-take, drop-length-append, take-all, All, All-map, Among, Among-append_left,
  Among-append_right, All-at, get_elem?-take, arith,
}
use mathlib.Core.List.{append_assoc}
use pebble.Prelude.Outcome.{ok, panic}
use pebble.Prelude.Bytes.{put_le, get_le, length-put_le, get_le-put_le}
use pebble.Prelude.Bits.{test_bit}
use pebble.Bloom.Hash.{u32, hash}
use pebble.Bloom.Defs.{
  cache_line_bits, rotate, probe_loop, may_contain, TableFilterWriter, new_writer, is_last, add_key,
  calculate_probes, lines_of, set_hashes, zeros, filter_of, finish,
}
use pebble.Bloom.Probes.{Sub, Probed, line_in, probe_loop_mono, set_hashes-Grown}

is_last-Among : (h : ℕ) (hs : List ℕ) → is_last h hs ≡ true → Among h hs
is_last-Among h [] e = cc
is_last-Among h (x ∷ []) e = inl (ground arith)
is_last-Among h (x ∷ y ∷ ys) e = inr (is_last-Among h (y ∷ ys) e)

add_key-Among : (key : List ℕ) (w : TableFilterWriter) → Among (hash key) (add_key key w).hashes
unfolding add_key
add_key-Among key w = elim (Bool-cases (is_last (hash key) w.hashes)) [
  | inl e ↦ rw e (is_last-Among (hash key) w.hashes e)
  | inr e ↦ rw e (Among-append_right (hash key) w.hashes (hash key ∷ []) (inl refl))
]

add_key-keeps :
    (h : ℕ) (key : List ℕ) (w : TableFilterWriter)
    → Among h w.hashes
    → Among h (add_key key w).hashes
unfolding add_key
add_key-keeps h key w m = elim (Bool-cases (is_last (hash key) w.hashes)) [
  | inl e ↦ rw e m
  | inr e ↦ rw e (Among-append_left h w.hashes (hash key ∷ []) m)
]

-- The keys are added in their order.
unfoldable pub add_keys : List (List ℕ) → TableFilterWriter → TableFilterWriter
add_keys [] w = w
add_keys (k ∷ ks) w = add_keys ks (add_key k w)

add_keys-keeps :
    (h : ℕ) (ks : List (List ℕ)) (w : TableFilterWriter)
    → Among h w.hashes
    → Among h (add_keys ks w).hashes
unfolding add_keys
add_keys-keeps h [] w m = m
add_keys-keeps h (k ∷ ks) w m = add_keys-keeps h ks (add_key k w) (add_key-keeps h k w m)

add_keys-Among :
    (ks : List (List ℕ)) (w : TableFilterWriter)
    → All (λ k. Among (hash k) (add_keys ks w).hashes) ks
unfolding add_keys
add_keys-Among [] w = tt
add_keys-Among (k ∷ ks) w =
    (add_keys-keeps (hash k) ks (add_key k w) (add_key-Among k w), add_keys-Among ks (add_key k w))

-- What the reader does on a filter of m lines.
may_contain-read :
    (f key : List ℕ) (n probes m : ℕ)
    → length f ≡ n + 5
    → 0 < n
    → get_le (take 1 (drop n f)) ≡ probes
    → get_le (take 4 (drop (n + 1) f)) ≡ m
    → (m == 0) ≡ false
    → u32 (8 * (u32 n / m)) ≡ 512
    → may_contain f key
      ≡ probe_loop probes 512 (u32 (hash key % m * 512)) (hash key) (rotate (hash key)) f
unfolding may_contain
may_contain-read f key n probes m len pos ps ms nz lb =
    let less : (n + 5 - 5) ≡ n = omega arith in
    let long : leb (n + 5) 5 ≡ false = ground arith in rw (len, long, less, ps, ms, nz, lb) refl

-- The filter: the bytes of the lines and the trailer.
abbrev framed : List ℕ → ℕ → ℕ → List ℕ
framed g probes m = take (m * 64) g ++ ((probes % 256) ∷ put_le 4 m)

Sub-framed : (g : List ℕ) (probes m : ℕ) → m * 64 ≤ length g → Sub (m * 64) g (framed g probes m)
Sub-framed g probes m h j k i e =
    ap (λ o. elim o [ none ↦ panic | some b ↦ ok (test_bit k b) ])
      (get_elem?-take (m * 64) j g ((probes % 256) ∷ put_le 4 m) i (omega arith))
    ∙ e

lines_div : (m : ℕ) → 0 < m → m * 64 / m ≡ 64
lines_div m p = grind arith

may_contain-framed :
    (g key : List ℕ) (probes m : ℕ)
    → length g ≡ m * 64 + 5
    → 0 < m
    → m * 512 < 2 ^ 32
    → probes < 256
    → Probed probes m g (hash key)
    → may_contain (framed g probes m) key ≡ ok true
may_contain-framed g key probes m len pos small few p =
    let t = take (m * 64) g in
    let n : length t ≡ m * 64 = omega (arith, length-take (m * 64) g) in
    let line = u32 (hash key % m * 512) in
    let inside = line_in (hash key) m pos small in
    let same : u32 (m * 64) ≡ m * 64 = omega arith in
    may_contain-read (framed g probes m) key (m * 64) probes m
      (omega (arith, n, length-append t ((probes % 256) ∷ put_le 4 m), length-put_le 4 m))
      (omega arith)
      (ap (λ r. get_le (take 1 r))
          (drop-length-append (m * 64) t ((probes % 256) ∷ put_le 4 m) (sym n))
        ∙ unfold get_le in omega arith)
      (ap get_le (
          ap (take 4) (
            ap (drop (m * 64 + 1)) (sym (append_assoc t ((probes % 256) ∷ []) (put_le 4 m)))
            ∙ drop-length-append (m * 64 + 1) (t ++ ((probes % 256) ∷ [])) (put_le 4 m)
                (omega (arith, n, length-append t ((probes % 256) ∷ []))))
          ∙ take-all 4 (put_le 4 m) (omega (arith, length-put_le 4 m)))
        ∙ get_le-put_le 4 m (omega arith))
      (ground arith) (rw (same, lines_div m pos) refl)
    ∙ probe_loop_mono probes line (hash key) (rotate (hash key)) (m * 64) g (framed g probes m)
        (omega arith) (omega arith) (Sub-framed g probes m (omega arith)) p

length-zeros : (n : ℕ) → length (zeros n) ≡ n
length-zeros zero = refl
length-zeros (suc n) = ap suc (length-zeros n)

calculate_probes-le : (scale : ℕ → ℕ) (b : ℕ) → calculate_probes scale b ≤ 30
unfolding calculate_probes
calculate_probes-le scale b = ground arith

lines_of-pos : (keys b : ℕ) → 0 < keys → 0 < lines_of keys b
unfolding lines_of
lines_of-pos keys b h = ground arith

length-pos : (h : ℕ) (hs : List ℕ) → Among h hs → 0 < length hs
length-pos h [] m = absurd m
length-pos h (x ∷ xs) m = omega arith

filter_of-step :
    (scale : ℕ → ℕ) (w : TableFilterWriter) (m : ℕ) (g : List ℕ)
    → lines_of (length w.hashes) w.bits_per_key ≡ m
    → (m == 0) ≡ false
    → m * 512 / 8 ≡ m * 64
    → set_hashes w.hashes (calculate_probes scale w.bits_per_key) m (zeros (m * 64 + 5)) ≡ ok g
    → filter_of scale w ≡ ok (framed g (calculate_probes scale w.bits_per_key) m)
unfolding filter_of
filter_of-step scale w m g lines some_lines bytes e = rw (lines, some_lines, bytes, e) refl

-- What the writer makes of at least one hash.
filter_of-framed :
    (scale : ℕ → ℕ) (w : TableFilterWriter)
    → let m = lines_of (length w.hashes) w.bits_per_key in
      let probes = calculate_probes scale w.bits_per_key in
      0 < length w.hashes
      → m * 512 < 2 ^ 32
      → (g : List ℕ) × (filter_of scale w ≡ ok (framed g probes m))
        × (length g ≡ m * 64 + 5)
        × All (Probed probes m g) w.hashes
filter_of-framed scale w nonempty small =
    let m = lines_of (length w.hashes) w.bits_per_key in
    let probes = calculate_probes scale w.bits_per_key in
    let pos : 0 < m = lines_of-pos (length w.hashes) w.bits_per_key nonempty in
    let some_lines : (m == 0) ≡ false = ground arith in
    let bytes : m * 512 / 8 ≡ m * 64 = omega arith in
    let len = length-zeros (m * 64 + 5) in
    let (g, e, l, s, c) =
      set_hashes-Grown w.hashes probes m (zeros (m * 64 + 5)) pos small (omega arith) in
    (g, filter_of-step scale w m g refl some_lines bytes e, l ∙ len, c)

-- The writer after keys were added to a new one.
abbrev pub written_by : ℕ → List (List ℕ) → TableFilterWriter
written_by bits_per_key keys = add_keys keys (new_writer bits_per_key)

-- A filter whose lines have less than 2^32 bits has no false negatives: after any keys are added
-- to a new writer, Finish appends a filter to its buffer and empties the writer, without a panic,
-- and MayContain is true of each of the keys, whatever the number of probes is scaled to.
pub may_contain-finish :
    (scale : ℕ → ℕ) (bits_per_key : ℕ) (keys : List (List ℕ)) (buf : List ℕ)
    → lines_of
          (length (written_by bits_per_key keys).hashes)
          (written_by bits_per_key keys).bits_per_key
        * cache_line_bits
      < 2 ^ 32
    → (f : List ℕ) × (finish scale buf (written_by bits_per_key keys)
        ≡ ok (buf ++ f, record (written_by bits_per_key keys) { hashes = [] }))
      × All (λ key. may_contain f key ≡ ok true) keys
unfolding finish
may_contain-finish scale bits_per_key [] buf small =
    (zeros 5, unfold add_keys new_writer filter_of lines_of in refl, tt)
may_contain-finish scale bits_per_key (k ∷ ks) buf small =
    let w = written_by bits_per_key (k ∷ ks) in
    let m = lines_of (length w.hashes) w.bits_per_key in
    let probes = calculate_probes scale w.bits_per_key in
    let added = add_keys-Among (k ∷ ks) (new_writer bits_per_key) in
    let nonempty = length-pos (hash k) w.hashes (added.0) in
    let (g, e, l, c) = filter_of-framed scale w nonempty small in
    let contains : (key : List ℕ)
        → Among (hash key) w.hashes
        → may_contain (framed g probes m) key ≡ ok true =
      λ key i.
        may_contain-framed g key probes m l (lines_of-pos (length w.hashes) w.bits_per_key nonempty)
          small (omega (arith, calculate_probes-le scale w.bits_per_key))
          (All-at (Probed probes m g) (hash key) w.hashes c i) in
    (framed g probes m, rw e refl, All-map (k ∷ ks) contains added)
