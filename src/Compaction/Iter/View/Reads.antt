-- ===== src/Compaction/Iter/View/Reads.antt =====
-- Collapsing (compaction_iter.go) keeps what every snapshot reads.
use pebble.Prelude.{
  ℕ, ◌+◌, ◌/◌, ◌<◌, ◌≡◌, ◌≢◌, inl, inr, refl, sym, ◌∙◌, true, false, ◌&&◌, Option, none, some, List,
  [], ◌∷◌, ◌++◌, All-map, ◌==◌, if◌then◌else◌, All, length, arith, Bool-cases,
}
use mathlib.Core.Path.{subst₂}
use pebble.Key.{
  InternalKey, IsCompare, internal_compare, seq_num, kind, kind_set, visible, set_seq_num,
}
use pebble.Compaction.Iter.Stripe.{Entry, Config, is_eq}
use pebble.Compaction.Iter.Snapshots.{
  IsAscending, snapshot_index_uniform, snapshot_index_bottom, snapshot_index_mono,
}
use pebble.Compaction.Iter.Collapse.{
  IsPoint, stripe, is_same_stripe, emit, collapse_after, collapse, no_tombstones, drain_from,
}
use pebble.Compaction.Iter.Methods.{first, new_compaction_iter}
use pebble.Prelude.Outcome.{ok}
use pebble.Compaction.Iter.Collapse.Drain.{drain-collapse}
use pebble.Compaction.Iter.View.{is_read, read, IsSorted, IsViewed}
use Prim.Native.Nat.{Ordering}

module _ {V : Type 0} (c : Config V) (total : IsCompare c.cmp) (asc : IsAscending c.snapshots)
    (u : List ℕ) (s : ℕ) where
  visible_uniform :
      (e f : Entry)
      → IsViewed c.snapshots s e
      → IsViewed c.snapshots s f
      → stripe c (e.0) ≡ stripe c (f.0)
      → visible (e.0) s ≡ visible (f.0) s
  unfolding visible stripe
  visible_uniform e f (ce, inl m) (cf, w) h =
      ground (arith, snapshot_index_uniform (seq_num (e.0)) (seq_num (f.0)) s c.snapshots asc m h)
  visible_uniform e f (ce, inr l) (cf, inl m) h =
      ground (arith, snapshot_index_uniform (seq_num (e.0)) (seq_num (f.0)) s c.snapshots asc m h)
  visible_uniform e f (ce, inr l) (cf, inr l') h = ground arith

  bottom_visible : (e : Entry) → IsViewed c.snapshots s e → stripe c (e.0) ≡ 0 → seq_num (e.0) < s
  unfolding stripe
  bottom_visible e (ce, inl m) h = snapshot_index_bottom (seq_num (e.0)) s c.snapshots asc m h
  bottom_visible e (ce, inr l) h = l

  -- The entry that is read gives its value, whatever follows, unless it is an elided tombstone.
  read-emit_visible :
      (e : Entry) (r : List Entry)
      → IsPoint e
      → IsViewed c.snapshots s e
      → is_read c.cmp u s e ≡ true
      → read c.cmp u s (emit c e ++ r) ≡ (
          if kind (e.0) == kind_set
          then some (e.1)
          else if stripe c (e.0) == 0 && c.elide_tombstone (e.0).user_key
          then read c.cmp u s r
          else none)
  unfolding emit read visible set_seq_num kind seq_num
  read-emit_visible (k, v) r p w h = ground (arith, bottom_visible (k, v) w)

  read-emit_hidden :
      (e : Entry) (r : List Entry)
      → IsPoint e
      → IsViewed c.snapshots s e
      → is_read c.cmp u s e ≡ false
      → read c.cmp u s (emit c e ++ r) ≡ read c.cmp u s r
  unfolding emit read visible set_seq_num
  read-emit_hidden (k, v) r p w h = ground (arith, bottom_visible (k, v) w)

  read-emit_absent :
      (e : Entry) (r : List Entry)
      → is_eq (c.cmp u (e.0).user_key) ≡ false
      → read c.cmp u s (emit c e ++ r) ≡ read c.cmp u s r
  unfolding emit read set_seq_num
  read-emit_absent (k, v) r h = ground arith

  -- Without entries of the key, nothing of the key is read.
  read-collapse_absent :
      (prev : Option (List ℕ × ℕ)) (es : List Entry)
      → All IsPoint es
      → All (λ f. is_eq (c.cmp u (f.0).user_key) ≡ false) es
      → read c.cmp u s (collapse_after c prev es) ≡ none
  unfolding collapse_after
  read-collapse_absent prev [] p a = unfold read in refl
  read-collapse_absent none ((k, v) ∷ es) p a =
      read-emit_absent (k, v) _ (a.0)
      ∙ read-collapse_absent (some (k.user_key, stripe c k)) es (p.1) (a.1)
  read-collapse_absent (some (u0, i)) ((k, v) ∷ es) p a =
      elim (Bool-cases (is_same_stripe c u0 i k)) [
        | inl same ↦ rw same (read-collapse_absent (some (u0, i)) es (p.1) (a.1))
        | inr other ↦ rw other (
            read-emit_absent (k, v) _ (a.0)
            ∙ read-collapse_absent (some (k.user_key, stripe c k)) es (p.1) (a.1))
      ]

  key_after :
      (k : InternalKey) (f : Entry)
      → c.cmp u k.user_key ≡ Ordering.lt
      → internal_compare c.cmp k (f.0) ≡ Ordering.lt
      → is_eq (c.cmp u (f.0).user_key) ≡ false
  unfolding internal_compare
  key_after k f h g =
      ground
        (arith, total.eq_of k.user_key (f.0).user_key, total.lt_trans u k.user_key (f.0).user_key)

  other_lt :
      (k : InternalKey)
      → (is_eq (c.cmp u k.user_key) ≡ true → stripe c k ≡ 0)
      → c.cmp u k.user_key ≢ Ordering.gt
      → is_same_stripe c u 0 k ≡ false
      → c.cmp u k.user_key ≡ Ordering.lt
  other_lt k b g h = ground arith

  -- Behind an elided tombstone of the bottom stripe the rest of the key's entries is dropped.
  read-collapse_bottom :
      (es : List Entry)
      → All IsPoint es
      → All (λ f. is_eq (c.cmp u (f.0).user_key) ≡ true → stripe c (f.0) ≡ 0) es
      → IsSorted c.cmp es
      → All (λ f. c.cmp u (f.0).user_key ≢ Ordering.gt) es
      → read c.cmp u s (collapse_after c (some (u, 0)) es) ≡ none
  unfolding collapse_after
  read-collapse_bottom [] p b so g = unfold read in refl
  read-collapse_bottom ((k, v) ∷ es) p b so g = elim (Bool-cases (is_same_stripe c u 0 k)) [
    | inl same ↦ rw same (read-collapse_bottom es (p.1) (b.1) (so.1) (g.1))
    | inr other ↦
        let below = other_lt k (b.0) (g.0) other in
        let absent = All-map es (λ f. key_after k f below) (so.0) in
        rw other (
          read-emit_absent (k, v) (collapse_after c (some (k.user_key, stripe c k)) es)
            (ground (arith, below))
          ∙ read-collapse_absent (some (k.user_key, stripe c k)) es (p.1) absent)
  ]

  -- `prev` stands before these entries and none that is dropped behind it is read.
  abbrev Unread : Option (List ℕ × ℕ) → List Entry → Type 0
  Unread none es = Unit {0}
  Unread (some (u0, i)) es =
      All (λ f. is_same_stripe c u0 i (f.0) ≡ true → is_read c.cmp u s f ≡ false) es

  Unread_behind :
      (k : InternalKey) (v : List ℕ) (f : Entry)
      → IsViewed c.snapshots s (k, v)
      → is_read c.cmp u s (k, v) ≡ false
      → IsViewed c.snapshots s f
      → is_same_stripe c k.user_key (stripe c k) (f.0) ≡ true
      → is_read c.cmp u s f ≡ false
  Unread_behind k v f w h w' same =
      ground (arith, total.eq_of k.user_key (f.0).user_key, visible_uniform (k, v) f w w')

  bottom_behind :
      (k : InternalKey) (f : Entry)
      → u ≡ k.user_key
      → stripe c k ≡ 0
      → internal_compare c.cmp k (f.0) ≡ Ordering.lt
      → is_eq (c.cmp u (f.0).user_key) ≡ true
      → stripe c (f.0) ≡ 0
  unfolding internal_compare stripe seq_num
  bottom_behind k f e z h same =
      ground (arith, snapshot_index_mono ((f.0).trailer / 256) (k.trailer / 256) c.snapshots)

  not_gt_behind :
      (k : InternalKey) (f : Entry)
      → u ≡ k.user_key
      → internal_compare c.cmp k (f.0) ≡ Ordering.lt
      → c.cmp u (f.0).user_key ≢ Ordering.gt
  unfolding internal_compare
  not_gt_behind k f e h = ground arith

  -- What an emitted entry and a collapsed rest give, when the rest without what the entry hides
  -- gives what the input does.
  read_head :
      (k : InternalKey) (v : List ℕ) (es : List Entry)
      → All IsPoint ((k, v) ∷ es)
      → All (IsViewed c.snapshots s) ((k, v) ∷ es)
      → IsSorted c.cmp ((k, v) ∷ es)
      → (Unread (some (k.user_key, stripe c k)) es
          → read c.cmp u s (collapse_after c (some (k.user_key, stripe c k)) es)
            ≡ read c.cmp u s es)
      → read c.cmp u s (emit c (k, v) ++ collapse_after c (some (k.user_key, stripe c k)) es)
        ≡ read c.cmp u s ((k, v) ∷ es)
  read_head k v es p w so ih =
      let rest = collapse_after c (some (k.user_key, stripe c k)) es in
      elim (Bool-cases (is_read c.cmp u s (k, v))) [
        | inr hidden ↦
            read-emit_hidden (k, v) rest (p.0) (w.0) hidden
            ∙ ih (All-map es (λ f. Unread_behind k v f (w.0) hidden) (w.1))
            ∙ unfold read in rw hidden
        | inl seen ↦
            let same : u ≡ k.user_key = total.eq_of u k.user_key (ground (arith, seen)) in
            elim (Bool-cases (kind k == kind_set)) [
              | inl set ↦
                  read-emit_visible (k, v) rest (p.0) (w.0) seen ∙ unfold read in ground arith
              | inr del ↦ elim (Bool-cases (stripe c k == 0 && c.elide_tombstone k.user_key)) [
                | inr kept ↦
                    read-emit_visible (k, v) rest (p.0) (w.0) seen ∙ unfold read in ground arith
                | inl gone ↦
                    let bottom : stripe c k ≡ 0 = ground arith in
                    let nothing =
                      read-collapse_bottom es (p.1)
                        (All-map es (λ f. bottom_behind k f same bottom) (so.0)) (so.1)
                        (All-map es (λ f. not_gt_behind k f same) (so.0)) in
                    let nothing' : read c.cmp u s rest ≡ none =
                      subst₂ (λ a i. read c.cmp u s (collapse_after c (some (a, i)) es) ≡ none) same
                        (sym bottom) nothing in
                    read-emit_visible (k, v) rest (p.0) (w.0) seen
                    ∙ unfold read in ground (arith, nothing')
              ]
            ]
      ]

  read-collapse_after :
      (prev : Option (List ℕ × ℕ)) (es : List Entry)
      → All IsPoint es
      → All (IsViewed c.snapshots s) es
      → IsSorted c.cmp es
      → Unread prev es
      → read c.cmp u s (collapse_after c prev es) ≡ read c.cmp u s es
  unfolding collapse_after
  read-collapse_after prev [] p w so h = refl
  read-collapse_after none ((k, v) ∷ es) p w so h =
      read_head k v es p w so
        (read-collapse_after (some (k.user_key, stripe c k)) es (p.1) (w.1) (so.1))
  read-collapse_after (some (u0, i)) ((k, v) ∷ es) p w so h =
      elim (Bool-cases (is_same_stripe c u0 i k)) [
        | inl same ↦ rw same (
            read-collapse_after (some (u0, i)) es (p.1) (w.1) (so.1) (h.1)
            ∙ unfold read in rw (h.0 same))
        | inr other ↦ rw other (
            read_head k v es p w so
              (read-collapse_after (some (k.user_key, stripe c k)) es (p.1) (w.1) (so.1)))
      ]

-- The collapsed entries give every viewed snapshot what the input gives.
pub read-collapse :
    {V : Type 0} (c : Config V) (u : List ℕ) (s : ℕ) (es : List Entry)
    → IsCompare c.cmp
    → IsAscending c.snapshots
    → All IsPoint es
    → All (IsViewed c.snapshots s) es
    → IsSorted c.cmp es
    → read c.cmp u s (collapse c es) ≡ read c.cmp u s es
unfolding collapse
read-collapse c u s es total asc p w so = read-collapse_after c total asc u s none es p w so tt

-- A compaction without pending range tombstones, over a total user order, ascending snapshots and
-- committed Sets and Deletes sorted as internal keys: calling First and then Next until it returns
-- nil ends with no panic, and a point read of what was returned, at a snapshot of the compaction
-- or above all entries, gives what it gives on the input, whatever tombstones of the bottom stripe
-- are elided and whether or not sequence numbers are zeroed.
pub drain-read :
    {V : Type 0} (c : Config V) (u : List ℕ) (s : ℕ) (es : List Entry)
    → IsCompare c.cmp
    → IsAscending c.snapshots
    → All IsPoint es
    → All (IsViewed c.snapshots s) es
    → IsSorted c.cmp es
    → (out : List Entry) × (drain_from c
          (length es + 1)
          (first c (new_compaction_iter es no_tombstones))
        ≡ ok out)
      × (read c.cmp u s out ≡ read c.cmp u s es)
drain-read c u s es total asc p w so =
    (collapse c es, drain-collapse c es p, read-collapse c u s es total asc p w so)
