-- ===== src/Compaction/Iter/Total/Turns.antt =====
-- A pass of the loop of Next (compaction_iter.go) that continues has advanced the iterator.
use pebble.Prelude.{
  ℕ, ◌≢◌, Bool-cases, ◌&&◌, ◌==◌, ◌||◌, if◌then◌else◌, inl, inr, Bool, true, false, none, some,
  List, length, arith,
}
use pebble.Prelude.Outcome.{Outcome, ok, panic, stuck, ◌>>=◌, Outcome-cases}
use pebble.Rangedel.{deleted}
use pebble.Compaction.Iter.Stripe.{
  Entry, Config, CompactionIter, corruption, Fallible, value_of, failed, StripeChange,
  skip_in_stripe, save_key,
}
use pebble.Key.{
  InternalKey, kind, kind_delete, kind_set, kind_merge, kind_single_delete, kind_range_delete,
}
use pebble.Compaction.Iter.Methods.{
  set_error, drop_turn, delete_turn, merge_turn, merge_next, finish_merge, single_delete_next,
  point_turn, set_turn, again, return, turn, merge_loop, single_delete_loop,
}
use pebble.Compaction.Iter.Total.Loops.{
  Within, TurnWithin, PairWithin, skip_in_stripe-Within, merge_loop-ne-stuck,
  single_delete_loop-Within,
}

module _ {V : Type 0} (c : Config V) where
  pub drop_turn-TurnWithin :
      (k : InternalKey) (s : CompactionIter) → TurnWithin (length s.iter) (drop_turn c k s)
  unfolding drop_turn save_key
  drop_turn-TurnWithin k s =
      go (skip_in_stripe c (record s { key = k })) (skip_in_stripe-Within c (record s { key = k }))
    where
      go :
          (r : Outcome CompactionIter)
          → Within (length s.iter) r
          → TurnWithin (length s.iter) (r >>= (λ s'. ok (again s')))
      go (ok t) h = h
      go panic h = tt
      go stuck h = h

  pub delete_turn-TurnWithin :
      (k : InternalKey) (v : List ℕ) (s : CompactionIter)
      → TurnWithin (length s.iter) (delete_turn c (k, v) s)
  unfolding delete_turn single_delete_next
  delete_turn-TurnWithin k v s =
      elim (Bool-cases (s.cur_snapshot_idx == 0 && c.elide_tombstone k.user_key)) [
        | inl e ↦ rw e (drop_turn-TurnWithin k s)
        | inr e ↦ rw e (elim (Bool-cases (kind k == kind_delete)) [
          | inl d ↦ rw d tt
          | inr d ↦ rw d (
              go (single_delete_loop c s.iter (record s { key = k; value = v; valid = true })) (
                single_delete_loop-Within c s.iter (record s { key = k; value = v; valid = true })))
        ])
      ]
    where
      go :
          (r : Outcome (Bool × CompactionIter))
          → PairWithin (length s.iter) r
          → TurnWithin (length s.iter) (
              r >>= (λ r.
                if r.0 then ok (return (some (r.1.key, r.1.value)) (r.1)) else ok (again (r.1))))
      go (ok (true, t)) h = tt
      go (ok (false, t)) h = h
      go panic h = tt
      go stuck h = h

  pub merge_turn-TurnWithin :
      (k : InternalKey) (v : List ℕ) (s : CompactionIter)
      → TurnWithin (length s.iter) (merge_turn c (k, v) s)
  unfolding merge_turn merge_next
  merge_turn-TurnWithin k v s = go (c.merger.merge k.user_key v)
    where
      finish_go :
          (idx : ℕ) (change : StripeChange) (vm : V) (t : CompactionIter)
          → TurnWithin (length s.iter) (ok (finish_merge c idx change vm t))
      finish_go idx change vm t = unfold finish_merge in ground arith

      go :
          (m : Fallible V)
          → TurnWithin (length s.iter) (elim m [
            | failed e ↦ ok (return none (set_error (corruption e) s))
            | value_of vm ↦
                merge_loop c s.iter vm (record s { err = none; key = k; valid = true })
                >>= (λ r. ok (finish_merge c s.cur_snapshot_idx (r.0) (r.1) (r.2)))
          ])
      go (failed e) = tt
      go (value_of vm) =
          elim (Outcome-cases
            (merge_loop c s.iter vm (record s { err = none; key = k; valid = true }))
            (merge_loop-ne-stuck c s.iter vm (record s { err = none; key = k; valid = true }))) [
              | inl p ↦ rw p tt
              | inr ((ch, vm', t), p) ↦ rw p (finish_go s.cur_snapshot_idx ch vm' t)
            ]

  pub deleted-ne-stuck :
      (s : CompactionIter) (k : InternalKey)
      → deleted c.cmp s.range_del_frag k s.cur_snapshot_seq_num ≢ stuck
  unfolding deleted
  deleted-ne-stuck s k = ground arith

  pub point_turn-TurnWithin :
      (k : InternalKey) (v : List ℕ) (s : CompactionIter)
      → TurnWithin (length s.iter) (point_turn c (k, v) s)
  unfolding point_turn set_turn
  point_turn-TurnWithin k v s =
      elim (Bool-cases (kind k == kind_delete || kind k == kind_single_delete)) [
        | inl e ↦ rw e (delete_turn-TurnWithin k v s)
        | inr e ↦ rw e (elim (Bool-cases (kind k == kind_set)) [
          | inl d ↦ rw d tt
          | inr d ↦ rw d (elim (Bool-cases (kind k == kind_merge)) [
            | inl m ↦ rw m (merge_turn-TurnWithin k v s)
            | inr m ↦ rw m tt
          ])
        ])
      ]

  pub turn-TurnWithin : (e : Entry) (s : CompactionIter) → TurnWithin (length s.iter) (turn c e s)
  unfolding turn
  turn-TurnWithin (k, v) s = elim (Bool-cases (kind k == kind_range_delete)) [
    | inl r ↦ rw r tt
    | inr r ↦
        rw r
          (elim (Outcome-cases (deleted c.cmp s.range_del_frag k s.cur_snapshot_seq_num)
            (deleted-ne-stuck s k)) [
              | inl p ↦ rw p tt
              | inr (true, p) ↦ rw p (drop_turn-TurnWithin k s)
              | inr (false, p) ↦ rw p (point_turn-TurnWithin k v s)
            ])
  ]
