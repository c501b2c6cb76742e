-- ===== src/Sstable/Block/RoundTrip.antt =====
-- A block that is written is read back: sstable/block.go.
use pebble.Prelude.{
  ℕ, suc, ◌+◌, ◌^◌, ◌≤◌, ◌<◌, ◌≡◌, refl, sym, ap, ◌∙◌, inl, inr, Bool-cases, false, some, List, [],
  ◌∷◌, ◌++◌, ◌==◌, if◌then◌else◌, length, All, arith,
}
use mathlib.Core.Path.{subst}
use pebble.Prelude.Outcome.{Outcome, ok, ◌>>=◌}
use pebble.Key.Fields.{IsStored}
use pebble.Sstable.Block.{BlockWriter, new_block_writer, add, finish, BlockIter, init, first}
use pebble.Sstable.Block.Writing.{Entry, add_all, read_rest, Encodes, room, add_all-Encodes}
use pebble.Sstable.Block.Reading.{read_rest-Encodes}
use pebble.Sstable.Block.Opening.{trailer_of, first-read_at, init-block, head_key, Encodes-first}

-- The restart points that finish writes.
restarts_of : BlockWriter → List ℕ
restarts_of w = if w.n_entries == 0 then 0 ∷ [] else w.restarts

restarts_of-bounds :
    (w : BlockWriter) (n : ℕ)
    → w.n_entries ≡ n
    → (1 ≤ n → 1 ≤ length w.restarts)
    → length w.restarts ≤ n
    → (1 ≤ length (restarts_of w)) × (length (restarts_of w) ≤ n + 1)
unfolding restarts_of
restarts_of-bounds w n e f l = elim (Bool-cases (w.n_entries == 0)) [
  | inl c ↦ rw c (omega arith, omega arith)
  | inr c ↦ rw c (f (omega (arith, e, not_eq w.n_entries c)), omega (arith, l))
]
  where
    not_eq : (n : ℕ) → (n == 0) ≡ false → 1 ≤ n
    not_eq n c = grind arith

finish-block : (w : BlockWriter) → (finish w).0 ≡ w.buf ++ trailer_of (restarts_of w)
unfolding finish trailer_of restarts_of
finish-block w = refl

abbrev pub block_of : List Entry → ℕ → Outcome (List ℕ)
block_of es interval = add_all es (new_block_writer interval) >>= (λ w. ok (finish w).0)

-- If the keys have trailers of 64 bits and the bound `room` of the block's size stays below 2^31, the
-- entries that are added to a block are written without a panic, the finished block opens, and First
-- and then Next yield the entries in order until they yield nothing.
pub read-block_of :
    (es : List Entry) (interval : ℕ)
    → All (λ e. IsStored (e.0)) es
    → room es < 2 ^ 31
    → (block : List ℕ) × (i : BlockIter) × (block_of es interval ≡ ok block)
      × (init 0 block ≡ ok (some i))
      × (read_rest (suc (length es)) (first i) ≡ ok es)
unfolding new_block_writer
read-block_of es interval a r =
    let (w, bs, add, b, enc, l, m, n, lo, one) = add_all-Encodes es (new_block_writer interval) in
    let rs = restarts_of w in
    let (some_restart, few) =
      restarts_of-bounds w (length es) (omega (arith, n)) (one refl) (omega (arith, l)) in
    let block = bs ++ trailer_of rs in
    let (i, opened, ib, ir, ig, ik) =
      init-block bs rs (head_key es) some_restart (omega (arith, few, m, r))
        (Encodes-first es bs (trailer_of rs) a r enc) in
    (
      block,
      i,
      ap (λ o. o >>= (λ v. ok (finish v).0)) add
          ∙ ap ok (finish-block w ∙ ap (λ z. z ++ trailer_of rs) b),
      opened,
      ap (read_rest (suc (length es))) (first-read_at i)
          ∙ read_rest-Encodes es (record i { offset = 0 }) bs (trailer_of rs) ib (omega (arith, ir))
              (omega arith) ig a r (subst (λ p. Encodes p es bs) (sym ik) enc),
    )
