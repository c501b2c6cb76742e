-- ===== src/Compaction/Iter/View.antt =====
-- What a reader sees of a compaction's output (compaction_iter.go): every snapshot and the latest
-- state read of each key what they read of the input.
pub mod Reads
mod Examples
use pebble.Prelude.{
  Among, ℕ, ◌+◌, ◌≤◌, ◌<◌, ◌≡◌, ◌⊎◌, Bool, true, false, ◌&&◌, Option, none, some, List, [], ◌∷◌,
  ◌==◌, if◌then◌else◌, All,
}
use pebble.Key.{
  InternalKey, Compare, internal_compare, seq_num, kind, kind_set, visible, seq_num_batch,
}
use pebble.Compaction.Iter.Stripe.{Entry, Config, is_eq}
use Prim.Native.Nat.{Ordering}

-- The entry is of user key u and visible at sequence number s.
abbrev pub is_read : Compare → List ℕ → ℕ → Entry → Bool
is_read cmp u s e = is_eq (cmp u (e.0).user_key) && visible (e.0) s

-- A point read: the first entry of the key that the snapshot sees is its value, or a tombstone.
unfoldable pub read : Compare → List ℕ → ℕ → List Entry → Option (List ℕ)
read cmp u s [] = none
read cmp u s (e ∷ es) =
    let rest = read cmp u s es in
    if is_read cmp u s e then (if kind (e.0) == kind_set then some (e.1) else none) else rest

-- Strictly ascending in the order of internal keys.
abbrev pub IsSorted : Compare → List Entry → Type 0
IsSorted cmp [] = Unit {0}
IsSorted cmp (e ∷ es) =
    All (λ f. internal_compare cmp (e.0) (f.0) ≡ Ordering.lt) es × IsSorted cmp es

-- A committed key (no batch bit), read at a snapshot of the compaction or above the key.
abbrev pub IsViewed : List ℕ → ℕ → Entry → Type 0
IsViewed snapshots s e = (seq_num (e.0) < seq_num_batch) × (Among s snapshots ⊎ (seq_num (e.0) < s))
