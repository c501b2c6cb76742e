-- ===== src/Compaction/Iter/Methods.antt =====
-- First, Next and what they call: compaction_iter.go.
use pebble.Prelude.{
  ℕ, zero, suc, Bool, true, false, ◌&&◌, ◌||◌, Option, none, some, List, [], ◌∷◌, ltb, ◌==◌,
  if◌then◌else◌, length,
}
use pebble.Prelude.Outcome.{Outcome, ok, panic, stuck, ◌>>=◌}
use pebble.Key.{
  InternalKey, kind, seq_num, set_kind, set_seq_num, kind_delete, kind_set, kind_merge,
  kind_single_delete, kind_range_delete,
}
use pebble.Rangedel.{Fragmenter, deleted}
use pebble.Compaction.Iter.Stripe.{
  Err, invalid_kind, corruption, value_of, failed, Entry, Config, cur_forward, next_forward,
  CompactionIter, StripeChange, new_stripe, same_stripe_skippable, same_stripe_non_skippable,
  snapshot_index, save_key, land, next_in_stripe, skip_in_stripe,
}

-- What Next returns: nil, or an entry of the output.
abbrev pub Output : Type 0
Output = Option Entry

-- One pass of Next's loop: `continue`, or a return.
pub data Turn : Type 0 where
  again : CompactionIter → Turn
  return : Output → CompactionIter → Turn

abbrev is_non_skippable : StripeChange → Bool
is_non_skippable same_stripe_non_skippable = true
is_non_skippable _ = false

abbrev pub set_error : Err → CompactionIter → CompactionIter
set_error e s = record s { err = some e }

-- The key is turned into kind `kd` and the rest of the stripe will be skipped.
abbrev pub settle : ℕ → CompactionIter → CompactionIter
settle kd s = record s { key = set_kind kd s.key; skip = true }

module _ {V : Type 0} (c : Config V) where
  unfoldable pub maybe_zero_seqnum : ℕ → CompactionIter → CompactionIter
  maybe_zero_seqnum idx s =
      if c.allow_zero_seq_num
      then if ltb 0 idx then s else record s { key = set_seq_num 0 s.key }
      else s

  -- What mergeNext makes of a value that is not deleted; the Bool says that its loop goes on.
  unfoldable pub merge_value : Bool → V → List ℕ → CompactionIter → Bool × V × CompactionIter
  merge_value is_set vm v s = elim (c.merger.merge_older vm v) [
    | value_of vm' ↦ if is_set then (false, vm', settle kind_set s) else (true, vm', s)
    | failed e ↦ (false, vm, set_error e s)
  ]

  -- The switch of mergeNext on a skippable entry of the same stripe.
  unfoldable pub merge_entry : Entry → V → CompactionIter → Outcome (Bool × V × CompactionIter)
  merge_entry (k, v) vm s =
      if kind k == kind_delete
      then ok (false, vm, settle kind_set s)
      else if kind k == kind_set || kind k == kind_merge
      then deleted c.cmp s.range_del_frag k s.cur_snapshot_seq_num >>= (λ gone.
        if gone
        then ok (false, vm, settle kind_set s)
        else ok (merge_value (kind k == kind_set) vm v s))
      else ok (false, vm, set_error (invalid_kind (kind k)) s)

  -- The loop of mergeNext, from a state that has a saved key.
  unfoldable pub merge_loop :
      List Entry → V → CompactionIter → Outcome (StripeChange × V × CompactionIter)
  merge_loop [] vm s =
      ok (new_stripe, vm, record s { iter = []; iter_entry = none; pos = next_forward })
  merge_loop (e ∷ es) vm s = elim (land c e es s) [
    | panic ↦ panic
    | stuck ↦ stuck
    | ok (new_stripe, s') ↦ ok (new_stripe, vm, record s' { pos = next_forward })
    | ok (same_stripe_non_skippable, s') ↦
        ok (same_stripe_non_skippable, vm, record s' { pos = next_forward })
    | ok (same_stripe_skippable, s') ↦ elim (merge_entry e vm s') [
      | panic ↦ panic
      | stuck ↦ stuck
      | ok (true, vm', t) ↦ merge_loop es vm' t
      | ok (false, vm', t) ↦ ok (same_stripe_skippable, vm', t)
    ]
  ]

  unfoldable pub merge_next :
      InternalKey → V → CompactionIter → Outcome (StripeChange × V × CompactionIter)
  merge_next k vm s = merge_loop s.iter vm (record s { key = k; valid = true })

  -- The loop of singleDeleteNext; true says that the saved key is returned.
  unfoldable pub single_delete_loop : List Entry → CompactionIter → Outcome (Bool × CompactionIter)
  single_delete_loop [] s = ok (true, record s { iter = []; iter_entry = none; pos = next_forward })
  single_delete_loop ((k, v) ∷ es) s = elim (land c (k, v) es s) [
    | panic ↦ panic
    | stuck ↦ stuck
    | ok (new_stripe, s') ↦ ok (true, record s' { pos = next_forward })
    | ok (same_stripe_non_skippable, s') ↦ ok (true, record s' { pos = next_forward })
    | ok (same_stripe_skippable, s') ↦
        let later = single_delete_loop es s' in
        if kind k == kind_delete || kind k == kind_merge
        then ok (true, settle kind_delete s')
        else if kind k == kind_set
        then next_in_stripe c s' >>= (λ moved. ok (false, record (moved.1) { valid = false }))
        else if kind k == kind_single_delete
        then later
        else ok (false, set_error (invalid_kind (kind k)) s')
  ]

  unfoldable pub single_delete_next : Entry → CompactionIter → Outcome (Bool × CompactionIter)
  single_delete_next (k, v) s =
      single_delete_loop s.iter (record s { key = k; value = v; valid = true })

  -- Next's return of the merged value, after mergeNext. `idx` is the index of the first operand.
  unfoldable pub finish_merge : ℕ → StripeChange → V → CompactionIter → Turn
  finish_merge idx change vm s = elim s.err [
    | some e ↦ return none (set_error (corruption e) s)
    | none ↦ elim (c.merger.finish vm (kind s.key == kind_set)) [
      | failed e ↦ return none (set_error (corruption e) s)
      | value_of (v, closer) ↦
          let t = record s { value = v; value_closer = closer } in
          let z = if is_non_skippable change then t else maybe_zero_seqnum idx t in
          return (some (z.key, v)) z
    ]
  ]

  unfoldable pub merge_turn : Entry → CompactionIter → Outcome Turn
  merge_turn (k, v) s = elim (c.merger.merge k.user_key v) [
    | failed e ↦ ok (return none (set_error (corruption e) s))
    | value_of vm ↦
        merge_next k vm (record s { err = none })
        >>= (λ r. ok (finish_merge s.cur_snapshot_idx (r.0) (r.1) (r.2)))
  ]

  -- Save the key, skip to the end of the stripe, and `continue`.
  unfoldable pub drop_turn : InternalKey → CompactionIter → Outcome Turn
  drop_turn k s = skip_in_stripe c (save_key k s) >>= (λ s'. ok (again s'))

  unfoldable pub delete_turn : Entry → CompactionIter → Outcome Turn
  delete_turn (k, v) s =
      if s.cur_snapshot_idx == 0 && c.elide_tombstone k.user_key
      then drop_turn k s
      else if kind k == kind_delete
      then ok (return (some (k, v)) (record s { key = k; value = v; valid = true; skip = true }))
      else single_delete_next (k, v) s
        >>= (λ r. if r.0 then ok (return (some (r.1.key, r.1.value)) (r.1)) else ok (again (r.1)))

  unfoldable pub set_turn : Entry → CompactionIter → Turn
  set_turn (k, v) s =
      let t =
        maybe_zero_seqnum s.cur_snapshot_idx
          (record s { key = k; value = v; valid = true; skip = true }) in
      return (some (t.key, v)) t

  unfoldable pub point_turn : Entry → CompactionIter → Outcome Turn
  point_turn (k, v) s =
      if kind k == kind_delete || kind k == kind_single_delete
      then delete_turn (k, v) s
      else if kind k == kind_set
      then ok (set_turn (k, v) s)
      else if kind k == kind_merge
      then merge_turn (k, v) s
      else ok (return none (set_error (invalid_kind (kind k)) s))

  -- The body of Next's loop at `iterKey`, `iterValue`.
  unfoldable pub turn : Entry → CompactionIter → Outcome Turn
  turn (k, v) s =
      if kind k == kind_range_delete
      then ok (return (some (k, v)) (record s { key = k; value = v; valid = true }))
      else deleted c.cmp s.range_del_frag k s.cur_snapshot_seq_num
        >>= (λ gone. if gone then drop_turn k s else point_turn (k, v) s)

  -- `for i.iterKey != nil`. A pass that continues has advanced the wrapped iterator.
  unfoldable pub next_loop : ℕ → CompactionIter → Outcome (Output × CompactionIter)
  next_loop zero s = elim s.iter_entry [ none ↦ ok (none, s) | some e ↦ stuck ]
  next_loop (suc fuel) s = elim s.iter_entry [
    | none ↦ ok (none, s)
    | some e ↦ elim (turn e s) [
      | panic ↦ panic
      | stuck ↦ stuck
      | ok (return o s') ↦ ok (o, s')
      | ok (again s') ↦ next_loop fuel s'
    ]
  ]

  -- Closing the value that was returned last.
  unfoldable pub close_value : CompactionIter → CompactionIter
  close_value s = elim s.value_closer [
    | none ↦ s
    | some e ↦ record s { err = e; value_closer = none }
  ]

  -- To the entry after the one that was returned last.
  unfoldable pub advance : CompactionIter → Outcome CompactionIter
  advance s = elim s.pos [
    | next_forward ↦ ok s
    | cur_forward ↦
        if s.skip then skip_in_stripe c s else next_in_stripe c s >>= (λ moved. ok (moved.1))
  ]

  unfoldable pub next_positioned : CompactionIter → Outcome (Output × CompactionIter)
  next_positioned s = elim s.err [
    | some e ↦ ok (none, s)
    | none ↦ advance s >>= (λ s'.
        next_loop (suc (length s'.iter)) (record s' { pos = cur_forward; valid = false }))
  ]

  unfoldable pub next : CompactionIter → Outcome (Output × CompactionIter)
  next s = elim s.err [ some e ↦ ok (none, s) | none ↦ next_positioned (close_value s) ]

  -- i.iter.First(), from an iterator that has yielded nothing.
  unfoldable pub start : List Entry → CompactionIter → CompactionIter
  start [] s = record s { iter_entry = none }
  start ((k, v) ∷ es) s =
      let (idx, seq) = snapshot_index (seq_num k) c.snapshots in
      record s {
        iter = es;
        iter_entry = some (k, v);
        cur_snapshot_idx = idx;
        cur_snapshot_seq_num = seq;
      }

  unfoldable pub first : CompactionIter → Outcome (Output × CompactionIter)
  first s = elim s.err [
    | some e ↦ ok (none, s)
    | none ↦ next (record (start s.iter s) { pos = next_forward })
  ]

-- newCompactionIter over the entries of the wrapped iterator and the compaction's fragmenter.
unfoldable pub new_compaction_iter : List Entry → Fragmenter → CompactionIter
new_compaction_iter entries frag = record {
  iter = entries;
  iter_entry = none;
  err = none;
  key = record { user_key = []; trailer = 0 };
  value = [];
  value_closer = none;
  valid = false;
  skip = false;
  pos = cur_forward;
  cur_snapshot_idx = 0;
  cur_snapshot_seq_num = 0;
  range_del_frag = frag;
}
