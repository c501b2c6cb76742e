-- ===== src/Compaction/Iter/Total.antt =====
-- The loops of compaction_iter.go end: every pass of the loop of Next advances the wrapped iterator.
pub mod Loops
pub mod Turns
use pebble.Prelude.{
  ℕ, zero, suc, ◌+◌, ◌≤◌, ◌<◌, ◌≡◌, ◌≢◌, refl, ap, Bool-cases, ◌&&◌, ◌==◌, ◌||◌, if◌then◌else◌, inl,
  inr, Bool, true, false, Option, none, some, List, [], ◌∷◌, length, arith,
}
use pebble.Prelude.Outcome.{Outcome, ok, panic, stuck, ◌>>=◌, Outcome-cases}
use pebble.Rangedel.{deleted}
use pebble.Compaction.Iter.Stripe.{
  Entry, Config, CompactionIter, Err, invalid_kind, corruption, Fallible, value_of, failed,
  StripeChange, new_stripe, same_stripe_skippable, same_stripe_non_skippable, land, skip_loop,
  skip_in_stripe, next_in_stripe, next_in_stripe_from, next_forward, cur_forward, save_key,
}
use pebble.Key.{
  InternalKey, kind, kind_delete, kind_set, kind_merge, kind_single_delete, kind_range_delete,
}
use pebble.Compaction.Iter.Methods.{
  settle, set_error, next_positioned, close_value, start, drop_turn, delete_turn, merge_turn,
  merge_next, finish_merge, single_delete_next, point_turn, set_turn, Turn, again, return, turn,
  merge_entry, merge_loop, single_delete_loop, next_loop, advance, next, first,
}
use pebble.Compaction.Iter.Total.Loops.{
  left, Landed, Within, TurnWithin, left-le, Within-weaken, PairWithin, PairWithin-weaken,
  PairWithin-if, ne_of_Within, ne_of_PairWithin, land-Landed, land-ne-stuck, skip_loop-Within,
  skip_in_stripe-Within, merge_entry-ne-stuck, merge_loop-ne-stuck, land-iter,
  next_in_stripe_from-Within, next_in_stripe-Within, moved_switch, single_delete_switch,
  single_delete_loop-Within,
}
use pebble.Compaction.Iter.Total.Turns.{
  drop_turn-TurnWithin, delete_turn-TurnWithin, merge_turn-TurnWithin, deleted-ne-stuck,
  point_turn-TurnWithin, turn-TurnWithin,
}

module _ {V : Type 0} (c : Config V) where
  next_loop-ne-stuck : (fuel : ℕ) (s : CompactionIter) → left s ≤ fuel → next_loop c fuel s ≢ stuck
  unfolding next_loop
  next_loop-ne-stuck zero s h = ground arith
  next_loop-ne-stuck (suc fuel) s h = go s.iter_entry refl (λ t. next_loop-ne-stuck fuel t)
    where
      after :
          (r : Outcome Turn)
          → TurnWithin (length s.iter) r
          → length s.iter ≤ fuel
          → ((t : CompactionIter) → left t ≤ fuel → next_loop c fuel t ≢ stuck)
          → ¬ (
              (elim r [
                | panic ↦ panic
                | stuck ↦ stuck
                | ok (return o s') ↦ ok (o, s')
                | ok (again s') ↦ next_loop c fuel s'
              ])
              ≡ stuck)
      after panic w l ih = λ e. cc
      after stuck w l ih = absurd w
      after (ok (return o s')) w l ih = λ e. cc
      after (ok (again s')) w l ih = ih s' (omega arith)

      go :
          (o : Option Entry)
          → s.iter_entry ≡ o
          → ((t : CompactionIter) → left t ≤ fuel → next_loop c fuel t ≢ stuck)
          → next_loop c (suc fuel) s ≢ stuck
      go none e ih = ground arith
      go (some x) e ih =
          rw (e, next_loop) (after (turn c x s) (turn-TurnWithin c x s) (ground (arith, h, e)) ih)

  advance-ne-stuck : (s : CompactionIter) → advance c s ≢ stuck
  unfolding advance
  advance-ne-stuck s = ground (
    arith,
    ne_of_Within (length s.iter) (skip_in_stripe c s) (skip_in_stripe-Within c s),
    ne_of_PairWithin (length s.iter) (next_in_stripe c s) (next_in_stripe-Within c s),
  )

  next_positioned-ne-stuck : (s : CompactionIter) → next_positioned c s ≢ stuck
  unfolding next_positioned
  next_positioned-ne-stuck s = elim (Outcome-cases (advance c s) (advance-ne-stuck s)) [
    | inl p ↦ ground (arith, p)
    | inr (t, p) ↦
        let t' = record t { pos = cur_forward; valid = false } in
        ground (arith, p, next_loop-ne-stuck (suc (length t.iter)) t' (left-le t' t.iter refl))
  ]

  -- First and Next end in every state, whatever the entries, the merge operator, the pending range
  -- tombstones and the elision are: the fuel of their loop never runs out.
  pub next-ne-stuck : (s : CompactionIter) → (next c s ≢ stuck) × (first c s ≢ stuck)
  unfolding first next
  next-ne-stuck s = (
    ground (arith, next_positioned-ne-stuck (close_value c s)),
    ground (
      arith,
      next_positioned-ne-stuck (close_value c (record (start c s.iter s) { pos = next_forward })),
    ),
  )
