-- ===== src/Compaction/Iter/Collapse.antt =====
-- What the iterator of compaction_iter.go makes of point keys without merges, in one definition:
-- of the entries of one user key in one snapshot stripe, the first is kept.
pub mod Skip
pub mod Drain
use pebble.Prelude.{
  ℕ, zero, suc, ◌≤◌, ◌≡◌, Bool, true, false, ◌&&◌, Option, none, some, List, [], ◌∷◌, ◌++◌, ◌==◌,
  if◌then◌else◌, All,
}
use pebble.Prelude.Outcome.{Outcome, ok, panic, stuck}
use pebble.Key.{InternalKey, kind, seq_num, set_seq_num, kind_set}
use pebble.Rangedel.{Fragmenter}
use pebble.Compaction.Iter.Stripe.{Entry, Config, CompactionIter, snapshot_index, is_eq}
use pebble.Compaction.Iter.Methods.{Output, first, next}

-- A Set or a Delete.
abbrev pub IsPoint : Entry → Type 0
IsPoint e = kind (e.0) ≤ kind_set

-- A fragmenter with no pending tombstone.
abbrev pub no_tombstones : Fragmenter
no_tombstones = record { pending = []; flushed_key = none; finished = false }

module _ {V : Type 0} (c : Config V) where
  -- The snapshot stripe of a key.
  unfoldable pub stripe : InternalKey → ℕ
  stripe k = (snapshot_index (seq_num k) c.snapshots).0

  abbrev pub is_same_stripe : List ℕ → ℕ → InternalKey → Bool
  is_same_stripe u i k = is_eq (c.cmp u k.user_key) && stripe k == i

  -- What is left behind the entries of user key u in stripe i that stand in front.
  unfoldable pub dropping : List ℕ → ℕ → List Entry → List Entry
  dropping u i [] = []
  dropping u i ((k, v) ∷ es) =
      let rest = dropping u i es in if is_same_stripe u i k then rest else (k, v) ∷ es

  abbrev pub zeroed : InternalKey → InternalKey
  zeroed k = if c.allow_zero_seq_num && stripe k == 0 then set_seq_num 0 k else k

  -- The first entry of a stripe: a tombstone of the bottom stripe is elided where that is allowed,
  -- and a value of the bottom stripe gets sequence number zero where that is allowed.
  unfoldable pub emit : Entry → List Entry
  emit (k, v) =
      if kind k == kind_set
      then (zeroed k, v) ∷ []
      else if stripe k == 0 && c.elide_tombstone k.user_key
      then []
      else (k, v) ∷ []

  -- `prev` is the user key and the stripe of the last entry that was kept or elided.
  unfoldable pub collapse_after : Option (List ℕ × ℕ) → List Entry → List Entry
  collapse_after prev [] = []
  collapse_after none ((k, v) ∷ es) = emit (k, v) ++ collapse_after (some (k.user_key, stripe k)) es
  collapse_after (some (u, i)) ((k, v) ∷ es) =
      let same = collapse_after (some (u, i)) es in
      let other = emit (k, v) ++ collapse_after (some (k.user_key, stripe k)) es in
      if is_same_stripe u i k then same else other

  unfoldable pub collapse : List Entry → List Entry
  collapse es = collapse_after none es

  -- What a caller collects that calls Next until it returns nil.
  unfoldable pub drain_from : ℕ → Outcome (Output × CompactionIter) → Outcome (List Entry)
  drain_from zero r = stuck
  drain_from (suc fuel) panic = panic
  drain_from (suc fuel) stuck = stuck
  drain_from (suc fuel) (ok (none, s)) = ok []
  drain_from (suc fuel) (ok (some e, s)) = elim (drain_from fuel (next c s)) [
    | ok es ↦ ok (e ∷ es)
    | panic ↦ panic
    | stuck ↦ stuck
  ]
