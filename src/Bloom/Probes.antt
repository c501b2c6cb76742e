-- ===== src/Bloom/Probes.antt =====
-- The probes that the writer of bloom/bloom.go sets are the probes that its reader tests.
use pebble.Prelude.{
  ℕ, zero, suc, ◌+◌, ◌*◌, ◌/◌, ◌%◌, ◌^◌, ◌≤◌, ◌<◌, ◌≡◌, refl, ap, ◌∙◌, Bool, true, false, none,
  some, List, [], ◌∷◌, ◌==◌, if◌then◌else◌, length, get_elem?, All, arith,
}
use pebble.Prelude.Outcome.{Outcome, ok, panic, stuck, ◌>>=◌}
use pebble.Prelude.Bits.{test_bit, set_bit, test_bit-set_bit, test_bit-set_bit_mono}
use pebble.Bloom.Hash.{u32}
use pebble.Bloom.Defs.{test_at, set_at, rotate, probe_loop, set_probes, set_hashes}

-- Bit k of byte i.
abbrev pub byte_test : ℕ → ℕ → List ℕ → Outcome Bool
byte_test i k f = elim (get_elem? f i) [ none ↦ panic | some b ↦ ok (test_bit k b) ]

-- Each bit that is set in the first n bytes of f is set in g.
abbrev pub Sub : ℕ → List ℕ → List ℕ → Type 0
Sub n f g = (j k : ℕ) → j < n → byte_test j k f ≡ ok true → byte_test j k g ≡ ok true

written : ℕ → ℕ → List ℕ → List ℕ
written i k [] = []
written zero k (b ∷ bs) = set_bit k b ∷ bs
written (suc i) k (b ∷ bs) = b ∷ written i k bs

set_at-written : (i k : ℕ) (f : List ℕ) → i < length f → set_at i k f ≡ ok (written i k f)
unfolding set_at written
set_at-written i k [] h = absurd (omega arith)
set_at-written zero k (b ∷ bs) h = refl
set_at-written (suc i) k (b ∷ bs) h = rw (set_at-written i k bs (omega arith))

length-written : (i k : ℕ) (f : List ℕ) → length (written i k f) ≡ length f
unfolding written
length-written i k [] = refl
length-written zero k (b ∷ bs) = refl
length-written (suc i) k (b ∷ bs) = ap suc (length-written i k bs)

byte_test-written : (i k : ℕ) (f : List ℕ) → i < length f → byte_test i k (written i k f) ≡ ok true
unfolding written
byte_test-written i k [] h = absurd (omega arith)
byte_test-written zero k (b ∷ bs) h = ap ok (test_bit-set_bit k b)
byte_test-written (suc i) k (b ∷ bs) h = byte_test-written i k bs (omega arith)

ok_true : (b : Bool) → ◌≡◌ {A = Outcome Bool} (ok b) (ok true) → b ≡ true
ok_true true e = refl
ok_true false e = cc

written_mono :
    (i k j l : ℕ) (f : List ℕ) → byte_test j l f ≡ ok true → byte_test j l (written i k f) ≡ ok true
unfolding written
written_mono i k j l [] e = e
written_mono zero k zero l (b ∷ bs) e =
    ap ok (test_bit-set_bit_mono l k b (ok_true (test_bit l b) e))
written_mono zero k (suc j) l (b ∷ bs) e = e
written_mono (suc i) k zero l (b ∷ bs) e = e
written_mono (suc i) k (suc j) l (b ∷ bs) e = written_mono i k j l bs e

-- A round that passes tested a set bit, and the later rounds pass.
passed :
    (r rest : Outcome Bool)
    → (r >>= (λ is_set. if is_set then rest else ok false)) ≡ ok true
    → (r ≡ ok true) × (rest ≡ ok true)
passed (ok true) rest e = (refl, e)
passed (ok false) rest e = cc
passed panic rest e = cc
passed stuck rest e = cc

in_bytes : (n line h : ℕ) → line + 512 ≤ 8 * n → line + 512 ≤ 2 ^ 32 → u32 (line + h % 512) / 8 < n
in_bytes n line h a b = omega arith

pub probe_loop_mono :
    (probes line h delta n : ℕ) (f g : List ℕ)
    → line + 512 ≤ 8 * n
    → line + 512 ≤ 2 ^ 32
    → Sub n f g
    → probe_loop probes 512 line h delta f ≡ ok true
    → probe_loop probes 512 line h delta g ≡ ok true
unfolding probe_loop test_at
probe_loop_mono zero line h delta n f g a b s e = refl
probe_loop_mono (suc probes) line h delta n f g a b s e =
    let pos = u32 (line + h % 512) in
    let (now, later) =
      passed (byte_test (pos / 8) (pos % 8) f)
        (probe_loop probes 512 line (u32 (h + delta)) delta f) e in
    rw (s (pos / 8) (pos % 8) (in_bytes n line h a b) now)
      (probe_loop_mono probes line (u32 (h + delta)) delta n f g a b s later)

-- What writing gives: a filter of the same length, with the old bits and with those of the probes.
abbrev pub Grown : ℕ → List ℕ → Outcome (List ℕ) → (List ℕ → Type 0) → Type 0
Grown n f r P = (g : List ℕ) × (r ≡ ok g) × (length g ≡ length f) × Sub n f g × P g

set_probes-Grown :
    (probes line h delta n : ℕ) (f : List ℕ)
    → line + 512 ≤ 8 * n
    → line + 512 ≤ 2 ^ 32
    → n ≤ length f
    → Grown n f
        (set_probes probes line h delta f)
        (λ g. probe_loop probes 512 line h delta g ≡ ok true)
unfolding set_probes probe_loop test_at
set_probes-Grown zero line h delta n f a b c = (f, refl, refl, λ j k i e. e, refl)
set_probes-Grown (suc probes) line h delta n f a b c =
    let pos = u32 (line + h % 512) in
    let i = pos / 8 in
    let k = pos % 8 in
    let inside : i < n = in_bytes n line h a b in
    let f' = written i k f in
    let (g, e, l, s, p) =
      set_probes-Grown probes line (u32 (h + delta)) delta n f' a b
        (omega (arith, length-written i k f)) in
    (
      g,
      rw (set_at-written i k f (omega arith)) e,
      l ∙ length-written i k f,
      λ j m q t. s j m q (written_mono i k j m f t),
      rw (s i k inside (byte_test-written i k f (omega arith))) p,
    )

-- All probes of a hash are set.
abbrev pub Probed : ℕ → ℕ → List ℕ → ℕ → Type 0
Probed probes n_lines g h = probe_loop probes 512 (u32 (h % n_lines * 512)) h (rotate h) g ≡ ok true

pub line_in : (h m : ℕ) → 0 < m → m * 512 < 2 ^ 32 → u32 (h % m * 512) + 512 ≤ m * 512
line_in h m p q = omega arith

set_hashes-step :
    (h : ℕ) (hs : List ℕ) (probes m : ℕ) (f : List ℕ)
    → u32 m ≡ m
    → (m == 0) ≡ false
    → set_hashes (h ∷ hs) probes m f
      ≡ (set_probes probes (u32 (h % m * 512)) h (rotate h) f >>= (λ g. set_hashes hs probes m g))
unfolding set_hashes
set_hashes-step h hs probes m f same some_lines = rw (same, some_lines) refl

-- The loop over the hashes, on a filter with room for the lines.
pub set_hashes-Grown :
    (hs : List ℕ) (probes m : ℕ) (f : List ℕ)
    → 0 < m
    → m * 512 < 2 ^ 32
    → m * 64 ≤ length f
    → Grown (m * 64) f (set_hashes hs probes m f) (λ g. All (Probed probes m g) hs)
unfolding set_hashes
set_hashes-Grown [] probes m f p q r = (f, refl, refl, λ j k i e. e, tt)
set_hashes-Grown (h ∷ hs) probes m f p q r =
    let same : u32 m ≡ m = omega arith in
    let some_lines : (m == 0) ≡ false = ground arith in
    let line = u32 (h % m * 512) in
    let inside = line_in h m p q in
    let (f', e, l, s, c) =
      set_probes-Grown probes line h (rotate h) (m * 64) f (omega arith) (omega arith) r in
    let (g, e', l', s', cs) = set_hashes-Grown hs probes m f' p q (omega arith) in
    (
      g,
      set_hashes-step h hs probes m f same some_lines
          ∙ ap (λ r. r >>= (λ x. set_hashes hs probes m x)) e
          ∙ e',
      l' ∙ l,
      λ j k i t. s' j k i (s j k i t),
      (probe_loop_mono probes line h (rotate h) (m * 64) f' g (omega arith) (omega arith) s' c, cs),
    )
