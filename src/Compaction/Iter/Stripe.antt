-- ===== src/Compaction/Iter/Stripe.antt =====
-- The state and the methods of compactionIter (compaction_iter.go). The wrapped internalIterator is
-- the sequence of entries it yields, and a method returns the new state.
use pebble.Prelude.{
  ℕ, suc, Bool, true, false, ◌||◌, Option, none, some, List, [], ◌∷◌, ltb, ◌==◌, if◌then◌else◌,
}
use pebble.Prelude.Outcome.{Outcome, ok, panic, stuck}
use pebble.Key.{
  InternalKey, Compare, kind, seq_num, kind_range_delete, kind_invalid, seq_num_max,
  range_delete_sentinel,
}
use pebble.Rangedel.{Fragmenter}
use Prim.Native.Nat.{Ordering}

-- An error: of a merger, a value closer or the input; a kind that the loops do not know; or one
-- that is marked as a corruption.
pub data Err : Type 0 where
  external : ℕ → Err
  invalid_kind : ℕ → Err
  corruption : Err → Err

pub data Fallible (A : Type 0) : Type 0 where
  value_of : A → Fallible A
  failed : Err → Fallible A

abbrev pub Entry : Type 0
Entry = InternalKey × List ℕ

-- The outcome that closing a value will have.
abbrev pub Closer : Type 0
Closer = Option Err

-- The user's merge operator (base.Merger): the value merger, MergeOlder and Finish.
pub record Merger (V : Type 0) : Type 0 where
  pub merge : List ℕ → List ℕ → Fallible V
  pub merge_older : V → List ℕ → Fallible V
  pub finish : V → Bool → Fallible (List ℕ × Option Closer)

-- The fields that newCompactionIter sets and no method changes.
pub record Config (V : Type 0) : Type 0 where
  pub cmp : Compare
  pub merger : Merger V
  pub snapshots : List ℕ
  pub allow_zero_seq_num : Bool
  pub elide_tombstone : List ℕ → Bool

pub data IterPos : Type 0 where
  cur_forward next_forward : IterPos

pub record CompactionIter : Type 0 where
  pub iter : List Entry  -- what the wrapped iterator has not yielded
  pub iter_entry : Option Entry  -- iterKey and iterValue
  pub err : Option Err
  pub key : InternalKey
  pub value : List ℕ
  pub value_closer : Option Closer
  pub valid : Bool
  pub skip : Bool
  pub pos : IterPos
  pub cur_snapshot_idx : ℕ
  pub cur_snapshot_seq_num : ℕ
  pub range_del_frag : Fragmenter

pub data StripeChange : Type 0 where
  new_stripe same_stripe_skippable same_stripe_non_skippable : StripeChange

-- sort.Search for the first snapshot above the sequence number, counting from `i`.
unfoldable pub search_from : ℕ → ℕ → List ℕ → ℕ × ℕ
search_from i seq [] = (i, seq_num_max)
search_from i seq (x ∷ xs) = if ltb seq x then (i, x) else search_from (suc i) seq xs

unfoldable pub snapshot_index : ℕ → List ℕ → ℕ × ℕ
unfolding search_from
snapshot_index seq snapshots = search_from 0 seq snapshots

abbrev pub is_eq : Ordering → Bool
is_eq Ordering.eq = true
is_eq _ = false

unfoldable pub save_key : InternalKey → CompactionIter → CompactionIter
save_key k s = record s { key = k }

module _ {V : Type 0} (c : Config V) where
  -- How the stripe changed from the saved key and the old index to a key with index `idx`.
  unfoldable pub stripe_change : CompactionIter → InternalKey → ℕ → StripeChange
  stripe_change s k idx =
      if is_eq (c.cmp s.key.user_key k.user_key)
      then if idx == s.cur_snapshot_idx
        then if kind k == kind_range_delete || kind k == kind_invalid
          then same_stripe_non_skippable
          else same_stripe_skippable
        else new_stripe
      else new_stripe

  -- The rest of nextInStripe once iterNext has yielded an entry.
  unfoldable pub land :
      Entry → List Entry → CompactionIter → Outcome (StripeChange × CompactionIter)
  unfolding stripe_change snapshot_index
  land (k, v) rest s =
      let (idx, seq) = snapshot_index (seq_num k) c.snapshots in
      if k.trailer == range_delete_sentinel
      then panic
      else ok (
        stripe_change s k idx,
        record s {
          iter = rest;
          iter_entry = some (k, v);
          cur_snapshot_idx = idx;
          cur_snapshot_seq_num = seq;
        },
      )

  abbrev pub exhausted : CompactionIter → CompactionIter
  exhausted s = record s { iter = []; iter_entry = none }

  unfoldable pub next_in_stripe_from :
      List Entry → CompactionIter → Outcome (StripeChange × CompactionIter)
  next_in_stripe_from [] s = ok (new_stripe, exhausted s)
  next_in_stripe_from (e ∷ es) s = land e es s

  unfoldable pub next_in_stripe : CompactionIter → Outcome (StripeChange × CompactionIter)
  next_in_stripe s = next_in_stripe_from s.iter s

  -- The loops over nextInStripe recur on what the wrapped iterator has left, `s.iter`.
  unfoldable pub skip_loop : List Entry → CompactionIter → Outcome CompactionIter
  skip_loop [] s = ok (record s { iter = []; iter_entry = none; skip = false })
  skip_loop (e ∷ es) s = elim (land e es s) [
    | ok (new_stripe, s') ↦ ok (record s' { skip = false })
    | ok (same_stripe_non_skippable, s') ↦ ok s'
    | ok (same_stripe_skippable, s') ↦ skip_loop es s'
    | panic ↦ panic
    | stuck ↦ stuck
  ]

  unfoldable pub skip_in_stripe : CompactionIter → Outcome CompactionIter
  skip_in_stripe s = skip_loop s.iter (record s { skip = true })
