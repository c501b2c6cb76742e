-- ===== src/Compaction/Iter/Collapse/Skip.antt =====
-- skipInStripe over point keys (compaction_iter.go): it lands behind the entries of the stripe.
use pebble.Prelude.{
  ℕ, ◌≡◌, refl, sym, ap, ◌∙◌, true, false, none, some, List, [], ◌∷◌, inl, inr, Bool-cases, arith,
  All,
}
use pebble.Prelude.Outcome.{ok}
use mathlib.Core.Path.{subst}
use pebble.Key.{kind, seq_num}
use pebble.Compaction.Iter.Stripe.{
  Entry, Config, CompactionIter, cur_forward, same_stripe_skippable, new_stripe, land, skip_loop,
  skip_in_stripe, snapshot_index,
}
use pebble.Compaction.Iter.Collapse.{IsPoint, no_tombstones, stripe, dropping, is_same_stripe}

-- No error, no open value, no pending range tombstone, and the last entry returned is current.
pub record IsQuiet (s : CompactionIter) : Type 0 where
  pub no_err : s.err ≡ none
  pub no_closer : s.value_closer ≡ none
  pub no_frag : s.range_del_frag ≡ no_tombstones
  pub is_forward : s.pos ≡ cur_forward

module _ {V : Type 0} (c : Config V) where
  -- The iterator stands at the first of these entries, and the others follow.
  abbrev pub At : List Entry → CompactionIter → Type 0
  At [] s = s.iter_entry ≡ none
  At (e ∷ es) s = (s.iter_entry ≡ some e) × (s.iter ≡ es) × (s.cur_snapshot_idx ≡ stripe c (e.0))

  pub land_same :
      (e : Entry) (es : List Entry) (s : CompactionIter) (u : List ℕ) (i : ℕ)
      → IsPoint e
      → IsQuiet s
      → s.key.user_key ≡ u
      → s.cur_snapshot_idx ≡ i
      → is_same_stripe c u i (e.0) ≡ true
      → (s' : CompactionIter) × (land c e es s ≡ ok (same_stripe_skippable, s'))
        × IsQuiet s'
        × (s'.key.user_key ≡ u)
        × (s'.cur_snapshot_idx ≡ i)
  unfolding land stripe kind
  land_same (k, v) es s u i p q hu hi h = (
    record s {
      iter = es;
      iter_entry = some (k, v);
      cur_snapshot_idx = (snapshot_index (seq_num k) c.snapshots).0;
      cur_snapshot_seq_num = (snapshot_index (seq_num k) c.snapshots).1;
    },
    ground arith,
    ground arith,
    hu,
    ground arith,
  )

  pub land_new :
      (e : Entry) (es : List Entry) (s : CompactionIter) (u : List ℕ) (i : ℕ)
      → IsPoint e
      → IsQuiet s
      → s.key.user_key ≡ u
      → s.cur_snapshot_idx ≡ i
      → is_same_stripe c u i (e.0) ≡ false
      → (s' : CompactionIter) × (land c e es s ≡ ok (new_stripe, s')) × IsQuiet s' × At (e ∷ es) s'
  unfolding land stripe kind
  land_new (k, v) es s u i p q hu hi h = (
    record s {
      iter = es;
      iter_entry = some (k, v);
      cur_snapshot_idx = (snapshot_index (seq_num k) c.snapshots).0;
      cur_snapshot_seq_num = (snapshot_index (seq_num k) c.snapshots).1;
    },
    ground arith,
    ground arith,
    (refl, refl, refl),
  )

  dropping_same :
      (e : Entry) (es : List Entry) (u : List ℕ) (i : ℕ)
      → is_same_stripe c u i (e.0) ≡ true
      → dropping c u i (e ∷ es) ≡ dropping c u i es
  unfolding dropping
  dropping_same (k, v) es u i h = rw h

  dropping_new :
      (e : Entry) (es : List Entry) (u : List ℕ) (i : ℕ)
      → is_same_stripe c u i (e.0) ≡ false
      → dropping c u i (e ∷ es) ≡ e ∷ es
  unfolding dropping
  dropping_new (k, v) es u i h = rw h

  pub skip_loop-At :
      (es : List Entry) (s : CompactionIter) (u : List ℕ) (i : ℕ)
      → All IsPoint es
      → IsQuiet s
      → s.key.user_key ≡ u
      → s.cur_snapshot_idx ≡ i
      → (s' : CompactionIter) × (skip_loop c es s ≡ ok s') × IsQuiet s' × At (dropping c u i es) s'
  unfolding skip_loop
  skip_loop-At [] s u i p q hu hi = (
    record s { iter = []; iter_entry = none; skip = false },
    refl,
    ground arith,
    unfold dropping in refl,
  )
  skip_loop-At ((k, v) ∷ es) s u i p q hu hi = elim (Bool-cases (is_same_stripe c u i k)) [
    | inl same ↦
        let (s1, e1, q1, u1, i1) = land_same (k, v) es s u i (p.0) q hu hi same in
        let (s2, e2, q2, a2) = skip_loop-At es s1 u i (p.1) q1 u1 i1 in
        (
          s2,
          rw (e1, skip_loop) e2,
          q2,
          subst (λ l. At l s2) (sym (dropping_same (k, v) es u i same)) a2,
        )
    | inr other ↦
        let (s1, e1, q1, a1) = land_new (k, v) es s u i (p.0) q hu hi other in
        (
          record s1 { skip = false },
          rw (e1, skip_loop),
          ground arith,
          subst (λ l. At l (record s1 { skip = false })) (sym (dropping_new (k, v) es u i other))
              a1,
        )
  ]

  -- skipInStripe leaves the iterator at the first entry of another user key or stripe.
  pub skip_in_stripe-At :
      (s : CompactionIter) (u : List ℕ) (i : ℕ) (es : List Entry)
      → s.iter ≡ es
      → All IsPoint es
      → IsQuiet s
      → s.key.user_key ≡ u
      → s.cur_snapshot_idx ≡ i
      → (s' : CompactionIter) × (skip_in_stripe c s ≡ ok s')
        × IsQuiet s'
        × At (dropping c u i es) s'
  unfolding skip_in_stripe
  skip_in_stripe-At s u i es hes p q hu hi =
      let (s', e, q', a) = skip_loop-At es (record s { skip = true }) u i p (ground arith) hu hi in
      (s', ap (λ l. skip_loop c l (record s { skip = true })) hes ∙ e, q', a)
