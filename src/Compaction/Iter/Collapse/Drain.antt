-- ===== src/Compaction/Iter/Collapse/Drain.antt =====
-- The iterator of compaction_iter.go, called until it returns nil, yields the collapsed entries.
use pebble.Prelude.{
  ℕ, zero, suc, ◌+◌, ◌≤◌, ◌<◌, ◌≡◌, refl, ap, Bool, true, false, ◌&&◌, none, some, List, [], ◌∷◌,
  ◌++◌, inl, inr, Bool-cases, arith, All, ◌==◌, length, if◌then◌else◌,
}
use pebble.Prelude.Outcome.{ok, ◌>>=◌}
use pebble.Key.{InternalKey, kind, kind_set, kind_delete, set_seq_num}
use pebble.Rangedel.{deleted}
use pebble.Compaction.Iter.Stripe.{
  Entry, Config, CompactionIter, cur_forward, skip_in_stripe, save_key, snapshot_index,
}
use pebble.Compaction.Iter.Methods.{
  again, return, turn, next_loop, advance, next, first, new_compaction_iter, maybe_zero_seqnum,
  drop_turn, point_turn, delete_turn, set_turn, close_value, next_positioned, start,
}
use pebble.Compaction.Iter.Collapse.{
  IsPoint, no_tombstones, stripe, dropping, is_same_stripe, emit, zeroed, collapse_after, collapse,
  drain_from,
}
use pebble.Compaction.Iter.Collapse.Skip.{IsQuiet, At, skip_in_stripe-At}

module _ {V : Type 0} (c : Config V) where
  length-dropping : (u : List ℕ) (i : ℕ) (es : List Entry) → length (dropping c u i es) ≤ length es
  unfolding dropping
  length-dropping u i [] = omega arith
  length-dropping u i ((k, v) ∷ es) = ground (arith, length-dropping u i es)

  dropping-IsPoint :
      (u : List ℕ) (i : ℕ) (es : List Entry) → All IsPoint es → All IsPoint (dropping c u i es)
  unfolding dropping
  dropping-IsPoint u i [] p = tt
  dropping-IsPoint u i ((k, v) ∷ es) p = elim (Bool-cases (is_same_stripe c u i k)) [
    | inl e ↦ rw e (dropping-IsPoint u i es (p.1))
    | inr e ↦ rw e p
  ]

  collapse_after-dropping :
      (u : List ℕ) (i : ℕ) (es : List Entry)
      → collapse_after c (some (u, i)) es ≡ collapse_after c none (dropping c u i es)
  unfolding collapse_after dropping
  collapse_after-dropping u i [] = refl
  collapse_after-dropping u i ((k, v) ∷ es) = elim (Bool-cases (is_same_stripe c u i k)) [
    | inl e ↦ rw e (collapse_after-dropping u i es)
    | inr e ↦ rw e
  ]

  collapse-cons :
      (k : InternalKey) (v : List ℕ) (es : List Entry)
      → collapse c ((k, v) ∷ es)
        ≡ emit c (k, v) ++ collapse c (dropping c k.user_key (stripe c k) es)
  unfolding collapse
  collapse-cons k v es =
      unfold collapse_after in
      ap (λ l. emit c (k, v) ++ l) (collapse_after-dropping k.user_key (stripe c k) es)

  -- A tombstone that is elided.
  abbrev elided : InternalKey → Bool
  elided k = kind k == kind_delete && (stripe c k == 0 && c.elide_tombstone k.user_key)

  not_deleted :
      (s : CompactionIter) (k : InternalKey)
      → IsQuiet s
      → deleted c.cmp s.range_del_frag k s.cur_snapshot_seq_num ≡ ok false
  unfolding deleted
  not_deleted s k q = rw (q.no_frag)

  turn-elided :
      (k : InternalKey) (v : List ℕ) (s : CompactionIter)
      → IsQuiet s
      → s.cur_snapshot_idx ≡ stripe c k
      → elided k ≡ true
      → turn c (k, v) s ≡ (skip_in_stripe c (save_key k s) >>= (λ s'. ok (again s')))
  unfolding turn drop_turn point_turn delete_turn
  turn-elided k v s q i h = ground (arith, not_deleted s k q)

  emit-elided : (k : InternalKey) (v : List ℕ) → elided k ≡ true → emit c (k, v) ≡ []
  unfolding emit
  emit-elided k v h = ground arith

  kept_key : InternalKey → InternalKey
  kept_key k = if kind k == kind_set then zeroed c k else k

  user_key-kept_key : (k : InternalKey) → (kept_key k).user_key ≡ k.user_key
  unfolding kept_key set_seq_num
  user_key-kept_key k = ground arith

  emit_kept :
      (k : InternalKey) (v : List ℕ)
      → IsPoint (k, v)
      → elided k ≡ false
      → emit c (k, v) ≡ (kept_key k, v) ∷ []
  unfolding emit kept_key
  emit_kept k v p h = ground arith

  kept_state : InternalKey → List ℕ → CompactionIter → CompactionIter
  kept_state k v s = record s { key = kept_key k; value = v; valid = true; skip = true }

  turn_kept :
      (k : InternalKey) (v : List ℕ) (s : CompactionIter)
      → IsPoint (k, v)
      → IsQuiet s
      → s.cur_snapshot_idx ≡ stripe c k
      → elided k ≡ false
      → turn c (k, v) s ≡ ok (return (some (kept_key k, v)) (kept_state k v s))
  unfolding turn point_turn delete_turn set_turn maybe_zero_seqnum kept_state kept_key
  turn_kept k v s p q i h = ground (arith, not_deleted s k q)

  -- Next after an entry was returned with `skip` set: to the end of its stripe, and the loop.
  next-At :
      (s : CompactionIter) (u : List ℕ) (i : ℕ) (es : List Entry)
      → s.iter ≡ es
      → All IsPoint es
      → IsQuiet s
      → s.key.user_key ≡ u
      → s.cur_snapshot_idx ≡ i
      → s.skip ≡ true
      → (s' : CompactionIter) × (next c s ≡ next_loop c (suc (length s'.iter)) s')
        × IsQuiet s'
        × At c (dropping c u i es) s'
  unfolding next close_value next_positioned advance
  next-At s u i es hes p q hu hi hs =
      let (s2, e2, q2, a2) = skip_in_stripe-At c s u i es hes p q hu hi in
      (
        record s2 { pos = cur_forward; valid = false },
        ground (arith, e2),
        ground arith,
        At-positioned (dropping c u i es) s2 a2,
      )
    where
      At-positioned :
          (l : List Entry) (t : CompactionIter)
          → At c l t
          → At c l (record t { pos = cur_forward; valid = false })
      At-positioned [] t a = a
      At-positioned (e ∷ l) t a = a

  length-At : (l : List Entry) (s : CompactionIter) → At c l s → length l ≤ suc (length s.iter)
  length-At [] s a = omega arith
  length-At (e ∷ es) s a = omega (arith, ap length (a.1))

  next_loop-elided :
      (k : InternalKey) (v : List ℕ) (es : List Entry) (s : CompactionIter) (g : ℕ)
      → All IsPoint es
      → IsQuiet s
      → At c ((k, v) ∷ es) s
      → elided k ≡ true
      → (s' : CompactionIter) × (next_loop c (suc g) s ≡ next_loop c g s')
        × IsQuiet s'
        × At c (dropping c k.user_key (stripe c k) es) s'
  unfolding next_loop save_key
  next_loop-elided k v es s g p q a gone =
      let (s2, e2, q2, a2) =
        skip_in_stripe-At c (save_key k s) k.user_key (stripe c k) es (a.1) p (ground arith) refl
          (a.2) in
      (s2, ground (arith, turn-elided k v s q (a.2) gone, e2), q2, a2)

  next_loop-kept :
      (k : InternalKey) (v : List ℕ) (es : List Entry) (s : CompactionIter) (g : ℕ)
      → IsPoint (k, v)
      → IsQuiet s
      → At c ((k, v) ∷ es) s
      → elided k ≡ false
      → next_loop c (suc g) s ≡ ok (some (kept_key k, v), kept_state k v s)
  unfolding next_loop
  next_loop-kept k v es s g p q a kept = ground (arith, turn_kept k v s p q (a.2) kept)

  next-kept_state :
      (k : InternalKey) (v : List ℕ) (es : List Entry) (s : CompactionIter)
      → All IsPoint es
      → IsQuiet s
      → At c ((k, v) ∷ es) s
      → (s' : CompactionIter) × (next c (kept_state k v s) ≡ next_loop c (suc (length s'.iter)) s')
        × IsQuiet s'
        × At c (dropping c k.user_key (stripe c k) es) s'
  unfolding kept_state
  next-kept_state k v es s p q a =
      next-At (kept_state k v s) k.user_key (stripe c k) es (a.1) p (ground arith)
        (user_key-kept_key k) (a.2) refl

  drain_from-some :
      (f : ℕ) (e : Entry) (s : CompactionIter) (es : List Entry)
      → drain_from c f (next c s) ≡ ok es
      → drain_from c (suc f) (ok (some e, s)) ≡ ok (e ∷ es)
  unfolding drain_from
  drain_from-some f e s es h = rw h

  drain_from-next_loop :
      (n : ℕ) (l : List Entry) (s : CompactionIter) (f g : ℕ)
      → length l ≤ n
      → length l ≤ g
      → length l < f
      → All IsPoint l
      → IsQuiet s
      → At c l s
      → drain_from c f (next_loop c g s) ≡ ok (collapse c l)
  drain_from-next_loop n [] s zero g hn hg hf p q a = absurd (omega arith)
  drain_from-next_loop n [] s (suc f) zero hn hg hf p q a =
      unfold drain_from next_loop collapse collapse_after in ground arith
  drain_from-next_loop n [] s (suc f) (suc g) hn hg hf p q a =
      unfold drain_from next_loop collapse collapse_after in ground arith
  drain_from-next_loop zero (e ∷ es) s f g hn hg hf p q a = absurd (omega arith)
  drain_from-next_loop (suc n) (e ∷ es) s f zero hn hg hf p q a = absurd (omega arith)
  drain_from-next_loop (suc n) (e ∷ es) s zero (suc g) hn hg hf p q a = absurd (omega arith)
  drain_from-next_loop (suc n) ((k, v) ∷ es) s (suc f) (suc g) hn hg hf p q a =
      let l' = dropping c k.user_key (stripe c k) es in
      let p' = dropping-IsPoint k.user_key (stripe c k) es (p.1) in
      let shorter = length-dropping k.user_key (stripe c k) es in
      elim (Bool-cases (elided k)) [
        | inl gone ↦
            let (s2, e2, q2, a2) = next_loop-elided k v es s g (p.1) q a gone in
            rw (e2, collapse-cons k v es, emit-elided k v gone)
              (drain_from-next_loop n l' s2 (suc f) g (omega arith) (omega arith) (omega arith) p'
                q2 a2)
        | inr kept ↦
            let (s2, e2, q2, a2) = next-kept_state k v es s (p.1) q a in
            let fuel = length-At l' s2 a2 in
            let ih =
              drain_from-next_loop n l' s2 f (suc (length s2.iter)) (omega arith) fuel (omega arith)
                p' q2 a2 in
            rw
              (
                next_loop-kept k v es s g (p.0) q a kept,
                collapse-cons k v es,
                emit_kept k v (p.0) kept,
              )
              (drain_from-some f (kept_key k, v) (kept_state k v s) (collapse c l') (rw e2 ih))
      ]

  -- Without pending range tombstones, for Sets and Deletes and whatever the order of the entries,
  -- the snapshots and the elision are, First and then Next until it returns nil end, with no panic
  -- and with one call for each entry at most, and yield the collapsed entries.
  pub drain-collapse :
      (es : List Entry)
      → All IsPoint es
      → drain_from c (length es + 1) (first c (new_compaction_iter es no_tombstones))
        ≡ ok (collapse c es)
  unfolding first start next close_value next_positioned advance new_compaction_iter stripe
      snapshot_index
  drain-collapse [] p = unfold drain_from next_loop collapse collapse_after in refl
  drain-collapse ((k, v) ∷ es) p =
      drain_from-next_loop (suc (length es)) ((k, v) ∷ es) _ (suc (length es) + 1) (suc (length es))
        (omega arith) (omega arith) (omega arith) p
        (record { no_err = refl; no_closer = refl; no_frag = refl; is_forward = refl })
        (refl, refl, refl)
