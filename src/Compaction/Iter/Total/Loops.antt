-- ===== src/Compaction/Iter/Total/Loops.antt =====
-- How much of its input each loop of compaction_iter.go over nextInStripe leaves, and that it ends.
use pebble.Prelude.{
  ℕ, suc, ◌≤◌, ◌≡◌, ◌≢◌, ap, ◌==◌, ◌||◌, if◌then◌else◌, inl, inr, Bool, true, false, none, some,
  List, [], ◌∷◌, length, arith,
}
use pebble.Prelude.Outcome.{Outcome, ok, panic, stuck, ◌>>=◌, Outcome-cases}
use pebble.Rangedel.{deleted}
use pebble.Compaction.Iter.Stripe.{
  Entry, Config, CompactionIter, invalid_kind, StripeChange, new_stripe, same_stripe_skippable,
  same_stripe_non_skippable, land, skip_loop, skip_in_stripe, next_in_stripe, next_in_stripe_from,
  next_forward,
}
use pebble.Key.{InternalKey, kind, kind_delete, kind_set, kind_merge, kind_single_delete}
use pebble.Compaction.Iter.Methods.{
  settle, set_error, Turn, again, return, merge_entry, merge_loop, single_delete_loop,
}

-- The entries that the iterator stands at or has before it.
abbrev pub left : CompactionIter → ℕ
left s = elim s.iter_entry [ none ↦ length s.iter | some e ↦ suc (length s.iter) ]

-- A landing stands at its entry, with the rest before it.
abbrev pub Landed : List Entry → Outcome (StripeChange × CompactionIter) → Type 0
Landed es (ok (ch, s)) = s.iter ≡ es
Landed es panic = Unit {0}
Landed es stuck = ⊥

-- The result, if any, has at most n entries left, and the fuel did not run out.
abbrev pub Within : ℕ → Outcome CompactionIter → Type 0
Within n (ok s) = left s ≤ n
Within n panic = Unit {0}
Within n stuck = ⊥

abbrev pub TurnWithin : ℕ → Outcome Turn → Type 0
TurnWithin n (ok (again s)) = left s ≤ n
TurnWithin n (ok (return o s)) = Unit {0}
TurnWithin n panic = Unit {0}
TurnWithin n stuck = ⊥

pub left-le : (s : CompactionIter) (es : List Entry) → s.iter ≡ es → left s ≤ suc (length es)
left-le s es h = ground (arith, h)

pub Within-weaken : (n : ℕ) (r : Outcome CompactionIter) → Within n r → Within (suc n) r
Within-weaken n (ok s) h = omega arith
Within-weaken n panic h = tt
Within-weaken n stuck h = h

abbrev pub PairWithin : {A : Type 0} → ℕ → Outcome (A × CompactionIter) → Type 0
PairWithin n (ok (a, s)) = left s ≤ n
PairWithin n panic = Unit {0}
PairWithin n stuck = ⊥

pub PairWithin-weaken :
    {A : Type 0} (n : ℕ) (r : Outcome (A × CompactionIter)) → PairWithin n r → PairWithin (suc n) r
PairWithin-weaken n (ok (a, s)) h = omega arith
PairWithin-weaken n panic h = tt
PairWithin-weaken n stuck h = h

pub PairWithin-if :
    {A : Type 0} (n : ℕ) (b : Bool) (x y : Outcome (A × CompactionIter))
    → PairWithin n x
    → PairWithin n y
    → PairWithin n (if b then x else y)
PairWithin-if n true x y hx hy = hx
PairWithin-if n false x y hx hy = hy

pub ne_of_Within : (n : ℕ) (r : Outcome CompactionIter) → Within n r → r ≢ stuck
ne_of_Within n (ok s) h = λ e. cc
ne_of_Within n panic h = λ e. cc
ne_of_Within n stuck h = absurd h

pub ne_of_PairWithin :
    {A : Type 0} (n : ℕ) (r : Outcome (A × CompactionIter)) → PairWithin n r → r ≢ stuck
ne_of_PairWithin n (ok (a, s)) h = λ e. cc
ne_of_PairWithin n panic h = λ e. cc
ne_of_PairWithin n stuck h = absurd h

module _ {V : Type 0} (c : Config V) where
  pub land-Landed : (e : Entry) (es : List Entry) (s : CompactionIter) → Landed es (land c e es s)
  unfolding land
  land-Landed (k, v) es s = ground arith

  pub land-ne-stuck : (e : Entry) (es : List Entry) (s : CompactionIter) → land c e es s ≢ stuck
  unfolding land
  land-ne-stuck (k, v) es s = ground arith

  pub skip_loop-Within :
      (es : List Entry) (s : CompactionIter) → Within (length es) (skip_loop c es s)
  unfolding skip_loop
  skip_loop-Within [] s = omega arith
  skip_loop-Within (e ∷ es) s = go (land c e es s) (land-Landed e es s) (skip_loop-Within es)
    where
      go :
          (r : Outcome (StripeChange × CompactionIter))
          → Landed es r
          → ((t : CompactionIter) → Within (length es) (skip_loop c es t))
          → Within (suc (length es)) (elim r [
            | ok (new_stripe, s') ↦ ok (record s' { skip = false })
            | ok (same_stripe_non_skippable, s') ↦ ok s'
            | ok (same_stripe_skippable, s') ↦ skip_loop c es s'
            | panic ↦ panic
            | stuck ↦ stuck
          ])
      go panic l ih = tt
      go stuck l ih = l
      go (ok (new_stripe, s')) l ih = left-le (record s' { skip = false }) es l
      go (ok (same_stripe_non_skippable, s')) l ih = left-le s' es l
      go (ok (same_stripe_skippable, s')) l ih =
          Within-weaken (length es) (skip_loop c es s') (ih s')

  pub skip_in_stripe-Within : (s : CompactionIter) → Within (length s.iter) (skip_in_stripe c s)
  unfolding skip_in_stripe
  skip_in_stripe-Within s = skip_loop-Within s.iter (record s { skip = true })

  pub merge_entry-ne-stuck :
      (e : Entry) (vm : V) (s : CompactionIter) → merge_entry c e vm s ≢ stuck
  unfolding merge_entry deleted
  merge_entry-ne-stuck (k, v) vm s = ground arith

  pub merge_loop-ne-stuck :
      (es : List Entry) (vm : V) (s : CompactionIter) → merge_loop c es vm s ≢ stuck
  unfolding merge_loop
  merge_loop-ne-stuck [] vm s = λ e. cc
  merge_loop-ne-stuck (e ∷ es) vm s = elim (Outcome-cases (land c e es s) (land-ne-stuck e es s)) [
    | inl p ↦ ground (arith, p)
    | inr ((new_stripe, s'), p) ↦ ground (arith, p)
    | inr ((same_stripe_non_skippable, s'), p) ↦ ground (arith, p)
    | inr ((same_stripe_skippable, s'), p) ↦
        elim (Outcome-cases (merge_entry c e vm s') (merge_entry-ne-stuck e vm s')) [
          | inl q ↦ ground (arith, p, q)
          | inr ((false, vm', t), q) ↦ ground (arith, p, q)
          | inr ((true, vm', t), q) ↦ ground (arith, p, q, merge_loop-ne-stuck es vm' t)
        ]
  ]

  pub land-iter :
      (e : Entry) (es : List Entry) (s s' : CompactionIter) (ch : StripeChange)
      → land c e es s ≡ ok (ch, s')
      → s'.iter ≡ es
  unfolding land
  land-iter (k, v) es s s' ch p = ground arith

  pub next_in_stripe_from-Within :
      (es : List Entry) (s : CompactionIter) → PairWithin (length es) (next_in_stripe_from c es s)
  unfolding next_in_stripe_from
  next_in_stripe_from-Within [] s = omega arith
  next_in_stripe_from-Within (e ∷ es) s =
      elim (Outcome-cases (land c e es s) (land-ne-stuck e es s)) [
        | inl p ↦ rw p tt
        | inr ((ch, s'), p) ↦ rw p (left-le s' es (land-iter e es s s' ch p))
      ]

  pub next_in_stripe-Within : (s : CompactionIter) → PairWithin (length s.iter) (next_in_stripe c s)
  unfolding next_in_stripe
  next_in_stripe-Within s = next_in_stripe_from-Within s.iter s

  pub moved_switch :
      (es : List Entry) (s' : CompactionIter)
      → s'.iter ≡ es
      → PairWithin
          (suc (length es))
          (next_in_stripe c s' >>= (λ moved. ok (false, record (moved.1) { valid = false })))
  moved_switch es s' i = go (next_in_stripe c s') (next_in_stripe-Within s')
    where
      go :
          (r : Outcome (StripeChange × CompactionIter))
          → PairWithin (length s'.iter) r
          → PairWithin
              (suc (length es))
              (r >>= (λ moved. ok (false, record (moved.1) { valid = false })))
      go (ok (ch, t)) h = omega (arith, ap length i, h)
      go panic h = tt
      go stuck h = h

  pub single_delete_switch :
      (k : InternalKey) (es : List Entry) (s' : CompactionIter)
      (later : Outcome (Bool × CompactionIter))
      → s'.iter ≡ es
      → PairWithin (length es) later
      → PairWithin (suc (length es)) (
          if kind k == kind_delete || kind k == kind_merge
          then ok (true, settle kind_delete s')
          else if kind k == kind_set
          then next_in_stripe c s' >>= (λ moved. ok (false, record (moved.1) { valid = false }))
          else if kind k == kind_single_delete
          then later
          else ok (false, set_error (invalid_kind (kind k)) s'))
  single_delete_switch k es s' later i h =
      let n = suc (length es) in
      PairWithin-if n (kind k == kind_delete || kind k == kind_merge) _ _
        (left-le (settle kind_delete s') es i)
        (PairWithin-if n (kind k == kind_set) _ _ (moved_switch es s' i) (
          PairWithin-if n (kind k == kind_single_delete) _ _ (PairWithin-weaken (length es) later h)
            (left-le (set_error (invalid_kind (kind k)) s') es i)))

  pub single_delete_loop-Within :
      (es : List Entry) (s : CompactionIter) → PairWithin (length es) (single_delete_loop c es s)
  unfolding single_delete_loop
  single_delete_loop-Within [] s = omega arith
  single_delete_loop-Within ((k, v) ∷ es) s =
      elim (Outcome-cases (land c (k, v) es s) (land-ne-stuck (k, v) es s)) [
        | inl p ↦ rw (p, single_delete_loop) tt
        | inr ((new_stripe, s'), p) ↦
            rw (p, single_delete_loop)
              (left-le (record s' { pos = next_forward }) es
                (land-iter (k, v) es s s' new_stripe p))
        | inr ((same_stripe_non_skippable, s'), p) ↦
            rw (p, single_delete_loop)
              (left-le (record s' { pos = next_forward }) es
                (land-iter (k, v) es s s' same_stripe_non_skippable p))
        | inr ((same_stripe_skippable, s'), p) ↦
            let i = land-iter (k, v) es s s' same_stripe_skippable p in
            rw (p, single_delete_loop)
              (single_delete_switch k es s' (single_delete_loop c es s') i
                (single_delete_loop-Within es s'))
      ]
