-- ===== src/Rangedel.antt =====
-- Range tombstones: internal/rangedel/tombstone.go and the pending tombstones of
-- internal/rangedel/fragmenter.go.
pub mod Covering
pub mod Overlap
pub mod Fragment
mod Examples
use pebble.Prelude.{
  ℕ, Bool, true, false, not, ◌&&◌, Option, List, [], ◌∷◌, ltb, ◌==◌, if◌then◌else◌,
}
use pebble.Key.Bytewise.{bytes_equal}
use pebble.Prelude.Outcome.{Outcome, ok, panic}
use pebble.Key.{InternalKey, Compare, is_lt, kind, seq_num, visible, kind_range_delete}
use pebble.Key.TotalOrder.{is_gt, is_le}
use Prim.Native.Nat.{Ordering}

-- The outcome of a Go comparison is zero.
abbrev pub is_eq : Ordering → Bool
is_eq Ordering.eq = true
is_eq _ = false

-- [start, end) at the sequence number of `start`.
pub record Tombstone : Type 0 where
  pub start : InternalKey
  pub end : List ℕ

-- Overlaps: lt for a tombstone that comes before the other, gt for one that comes after it.
unfoldable pub overlaps : Compare → Tombstone → Tombstone → Ordering
overlaps cmp t other =
    if is_eq (cmp t.start.user_key other.start.user_key) && bytes_equal t.end other.end
    then if ltb (seq_num other.start) (seq_num t.start) then Ordering.lt else Ordering.gt
    else if is_le (cmp t.end other.start.user_key)
    then Ordering.lt
    else if is_le (cmp other.end t.start.user_key)
    then Ordering.gt
    else Ordering.eq

-- Empty: the zero value is no range deletion.
unfoldable pub is_empty : Tombstone → Bool
is_empty t = not (kind t.start == kind_range_delete)

unfoldable pub contains : Compare → Tombstone → List ℕ → Bool
contains cmp t key = is_le (cmp t.start.user_key key) && is_lt (cmp key t.end)

unfoldable pub deletes : Tombstone → ℕ → Bool
unfolding is_empty
deletes t seq = not (is_empty t) && ltb seq (seq_num t.start)

-- `pending` holds the tombstones not flushed yet; they share one start key. No tombstone may start
-- before `flushed_key`, where it is set.
pub record Fragmenter : Type 0 where
  pub pending : List Tombstone
  pub flushed_key : Option (List ℕ)
  pub finished : Bool

-- The loop of Deleted: a pending tombstone deletes a key below its end that is strictly older, if
-- the snapshot sees the tombstone.
unfoldable pub deleted_by : Compare → List Tombstone → InternalKey → ℕ → Bool
deleted_by cmp [] key snapshot = false
deleted_by cmp (t ∷ ts) key snapshot =
    let rest = deleted_by cmp ts key snapshot in
    if is_lt (cmp key.user_key t.end)
      && (visible t.start snapshot && ltb (seq_num key) (seq_num t.start))
    then true
    else rest

-- Keys are given in order: a key before the pending start is a panic.
unfoldable pub deleted_pending : Compare → List Tombstone → InternalKey → ℕ → Outcome Bool
unfolding deleted_by
deleted_pending cmp [] key snapshot = ok false
deleted_pending cmp (t ∷ ts) key snapshot =
    if is_gt (cmp t.start.user_key key.user_key)
    then panic
    else ok (deleted_by cmp (t ∷ ts) key snapshot)

unfoldable pub deleted : Compare → Fragmenter → InternalKey → ℕ → Outcome Bool
unfolding deleted_pending
deleted cmp f key snapshot =
    if f.finished then panic else deleted_pending cmp f.pending key snapshot
