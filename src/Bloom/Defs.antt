-- ===== src/Bloom/Defs.antt =====
-- The table filter of bloom/bloom.go: its writer and its reader.
use pebble.Prelude.{
  ℕ, zero, suc, ◌+◌, ◌-◌, ◌*◌, ◌/◌, ◌%◌, ◌^◌, Bool, true, false, none, some, List, [], ◌∷◌, ◌++◌,
  ltb, leb, ◌==◌, if◌then◌else◌, length, get_elem?, take, drop,
}
use pebble.Prelude.Outcome.{Outcome, ok, panic, ◌>>=◌}
use pebble.Prelude.Bytes.{put_le, get_le}
use pebble.Prelude.Bits.{test_bit, set_bit}
use pebble.Bloom.Hash.{u32, hash}

-- cacheLineBits: a line has 64 bytes.
abbrev pub cache_line_bits : ℕ
cache_line_bits = 512

-- f[pos/8]&(1<<(pos%8)) != 0.
unfoldable pub test_at : ℕ → List ℕ → Outcome Bool
test_at pos f = elim (get_elem? f (pos / 8)) [ none ↦ panic | some b ↦ ok (test_bit (pos % 8) b) ]

-- filter[i] |= 1 << k.
unfoldable pub set_at : ℕ → ℕ → List ℕ → Outcome (List ℕ)
set_at i k [] = panic
set_at zero k (b ∷ bs) = ok (set_bit k b ∷ bs)
set_at (suc i) k (b ∷ bs) = set_at i k bs >>= (λ r. ok (b ∷ r))

-- h>>17 | h<<15: the two parts share no bits.
abbrev pub rotate : ℕ → ℕ
rotate h = h / 2 ^ 17 + u32 (h * 2 ^ 15)

-- The reader's loop over the probes. `h % line_bits` divides by zero on a line without bits.
unfoldable pub probe_loop : ℕ → ℕ → ℕ → ℕ → ℕ → List ℕ → Outcome Bool
probe_loop zero line_bits line h delta f = ok true
probe_loop (suc probes) line_bits line h delta f =
    let rest = probe_loop probes line_bits line (u32 (h + delta)) delta f in
    if line_bits == 0
    then panic
    else test_at (u32 (line + h % line_bits)) f >>= (λ is_set. if is_set then rest else ok false)

-- tableFilter.MayContain: behind the lines, a byte with the number of probes and four bytes with
-- the number of lines.
unfoldable pub may_contain : List ℕ → List ℕ → Outcome Bool
unfolding probe_loop
may_contain f key =
    if leb (length f) 5
    then ok false
    else let n = length f - 5 in
      let n_probes = get_le (take 1 (drop n f)) in
      let n_lines = get_le (take 4 (drop (n + 1) f)) in
      if n_lines == 0
      then panic
      else let line_bits = u32 (8 * (u32 n / n_lines)) in
        let h = hash key in
        probe_loop n_probes line_bits (u32 (h % n_lines * line_bits)) h (rotate h) f

-- tableFilterWriter.
pub record TableFilterWriter : Type 0 where
  pub bits_per_key : ℕ
  pub hashes : List ℕ

unfoldable pub new_writer : ℕ → TableFilterWriter
new_writer bits_per_key = record { bits_per_key = bits_per_key; hashes = [] }

abbrev pub is_last : ℕ → List ℕ → Bool
is_last h [] = false
is_last h (x ∷ []) = x == h
is_last h (x ∷ y ∷ ys) = is_last h (y ∷ ys)

-- A hash that repeats the one before is not stored again.
unfoldable pub add_key : List ℕ → TableFilterWriter → TableFilterWriter
add_key key w =
    if is_last (hash key) w.hashes then w else record w { hashes = w.hashes ++ (hash key ∷ []) }

-- `scale` is the floating-point `uint32(float64(bitsPerKey) * 0.69)`.
unfoldable pub calculate_probes : (ℕ → ℕ) → ℕ → ℕ
calculate_probes scale bits_per_key =
    let n = scale bits_per_key in if ltb n 1 then 1 else if ltb 30 n then 30 else n

-- The number of lines: enough for the bits, and odd.
unfoldable pub lines_of : ℕ → ℕ → ℕ
lines_of keys bits_per_key =
    let n = (keys * bits_per_key + cache_line_bits - 1) / cache_line_bits in
    if keys == 0 then 0 else if n % 2 == 0 then n + 1 else n

unfoldable pub set_probes : ℕ → ℕ → ℕ → ℕ → List ℕ → Outcome (List ℕ)
set_probes zero line h delta f = ok f
set_probes (suc probes) line h delta f =
    let pos = u32 (line + h % cache_line_bits) in
    set_at (pos / 8) (pos % 8) f >>= (λ g. set_probes probes line (u32 (h + delta)) delta g)

unfoldable pub set_hashes : List ℕ → ℕ → ℕ → List ℕ → Outcome (List ℕ)
unfolding set_probes
set_hashes [] probes n_lines f = ok f
set_hashes (h ∷ hs) probes n_lines f =
    if u32 n_lines == 0
    then panic
    else set_probes probes (u32 (h % u32 n_lines * cache_line_bits)) h (rotate h) f
      >>= (λ g. set_hashes hs probes n_lines g)

abbrev pub zeros : ℕ → List ℕ
zeros zero = []
zeros (suc n) = 0 ∷ zeros n

-- The filter that Finish appends to its buffer.
unfoldable pub filter_of : (ℕ → ℕ) → TableFilterWriter → Outcome (List ℕ)
unfolding lines_of calculate_probes set_hashes
filter_of scale w =
    let n_lines = lines_of (length w.hashes) w.bits_per_key in
    let n_bytes = n_lines * cache_line_bits / 8 in
    let probes = calculate_probes scale w.bits_per_key in
    let filter = zeros (n_bytes + 5) in
    if n_lines == 0
    then ok filter
    else set_hashes w.hashes probes n_lines filter
      >>= (λ f. ok (take n_bytes f ++ ((probes % 256) ∷ put_le 4 n_lines)))

unfoldable pub finish : (ℕ → ℕ) → List ℕ → TableFilterWriter → Outcome (List ℕ × TableFilterWriter)
unfolding filter_of
finish scale buf w = filter_of scale w >>= (λ f. ok (buf ++ f, record w { hashes = [] }))
