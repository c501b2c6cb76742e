-- ===== src/Rangedel/Covering.antt =====
-- Deleted of internal/rangedel/fragmenter.go against the tombstones that cover a key.
use pebble.Prelude.{
  Any, Any-Among, Any-of_Among, All, ℕ, ◌<◌, ◌≡◌, ◌↔◌, inl, inr, refl, sym, Bool, Bool-cases, true,
  false, ◌&&◌, List, [], ◌∷◌, ltb, arith,
}
use mathlib.Core.Path.{subst}
use pebble.Prelude.Outcome.{ok}
use pebble.Prelude.Sort.{IsSort}
use pebble.Key.{InternalKey, Compare, IsCompare, is_lt, seq_num, visible}
use pebble.Key.TotalOrder.{Lt, Le}
use pebble.Rangedel.{Tombstone, Fragmenter, deleted_by, deleted_pending, deleted}
use pebble.Rangedel.Fragment.{ends_less, seqs_less, new_fragmenter, is_before_pending}
use pebble.Rangedel.Fragment.Chunks.{Covers, From}
use pebble.Rangedel.Fragment.Cut.{IsStored}
use pebble.Rangedel.Fragment.Conserve.{before_false}
use pebble.Rangedel.Fragment.Calls.{FragmentCall, call_key, added, IsOrdered, steps}
use pebble.Rangedel.Fragment.Pending.{steps-pending}

-- The tombstone covers the key, is seen at the snapshot, and is newer than the key.
abbrev pub Deletes : Compare → InternalKey → ℕ → Tombstone → Type 0
Deletes cmp key snapshot t =
    Le cmp t.start.user_key key.user_key
    × Lt cmp key.user_key t.end
    × (visible t.start snapshot ≡ true)
    × (seq_num key < seq_num t.start)

-- The part that hangs on the trailer of the tombstone.
abbrev Outranks : InternalKey → ℕ → ℕ → Type 0
Outranks key snapshot n =
    let start : InternalKey = record { user_key = []; trailer = n } in
    (visible start snapshot ≡ true) × (seq_num key < seq_num start)

Deletes-Covers :
    (cmp : Compare) (key : InternalKey) (snapshot : ℕ) (ts : List Tombstone)
    → Any (Deletes cmp key snapshot) ts
    → (n : ℕ) × Any (Covers cmp key.user_key n) ts × Outranks key snapshot n
unfolding visible seq_num
Deletes-Covers cmp key snapshot ts m =
    let (t, k, (a, b, v, s)) = Any-Among (Deletes cmp key snapshot) ts m in
    (
      t.start.trailer,
      Any-of_Among (Covers cmp key.user_key t.start.trailer) t ts k (a, b, refl),
      (v, s),
    )

Covers-Deletes :
    (cmp : Compare) (key : InternalKey) (snapshot : ℕ) (ts : List Tombstone) (n : ℕ)
    → Any (Covers cmp key.user_key n) ts
    → Outranks key snapshot n
    → Any (Deletes cmp key snapshot) ts
unfolding visible seq_num
Covers-Deletes cmp key snapshot ts n m o =
    let (t, k, (a, b, e)) = Any-Among (Covers cmp key.user_key n) ts m in
    let (v, s) = subst (Outranks key snapshot) (sym e) o in
    Any-of_Among (Deletes cmp key snapshot) t ts k (a, b, v, s)

deleted_by→Any :
    (cmp : Compare) (k : List ℕ) (ts : List Tombstone) (key : InternalKey) (snapshot : ℕ)
    → All (From cmp k) ts
    → Le cmp k key.user_key
    → deleted_by cmp ts key snapshot ≡ true
    → Any (Deletes cmp key snapshot) ts
unfolding deleted_by
deleted_by→Any cmp k [] key snapshot a l h = cc
deleted_by→Any cmp k (t ∷ ts) key snapshot ((e, f), a) l h =
    elim (Bool-cases (
      is_lt (cmp key.user_key t.end)
      && (visible t.start snapshot && ltb (seq_num key) (seq_num t.start)))) [
        | inl c ↦
            inl (
              subst (λ x. Le cmp x key.user_key) (sym e) l,
              ground arith,
              ground arith,
              ground arith,
            )
        | inr c ↦ inr (deleted_by→Any cmp k ts key snapshot a l (ground arith))
      ]

Any→deleted_by :
    (cmp : Compare) (ts : List Tombstone) (key : InternalKey) (snapshot : ℕ)
    → Any (Deletes cmp key snapshot) ts
    → deleted_by cmp ts key snapshot ≡ true
unfolding deleted_by
Any→deleted_by cmp [] key snapshot h = absurd h
Any→deleted_by cmp (t ∷ ts) key snapshot (inl (a, b, c, d)) = ground arith
Any→deleted_by cmp (t ∷ ts) key snapshot (inr h) =
    ground (arith, Any→deleted_by cmp ts key snapshot h)

deleted_unfold :
    (cmp : Compare) (f : Fragmenter) (key : InternalKey) (snapshot : ℕ)
    → f.finished ≡ false
    → is_before_pending cmp key.user_key f.pending ≡ false
    → deleted cmp f key snapshot ≡ ok (deleted_by cmp f.pending key snapshot)
unfolding deleted
deleted_unfold cmp f key snapshot h o = rw h (go f.pending o)
  where
    go :
        (ts : List Tombstone)
        → is_before_pending cmp key.user_key ts ≡ false
        → deleted_pending cmp ts key snapshot ≡ ok (deleted_by cmp ts key snapshot)
    go [] o = unfold deleted_by in refl
    go (t ∷ ts) o = unfold deleted_pending in rw o refl

module _ (cmp : Compare) (total : IsCompare cmp)
    (sort_ends sort_seqs : List Tombstone → List Tombstone)
    (ends : IsSort (ends_less cmp) sort_ends) (seqs : IsSort seqs_less sort_seqs) where
  -- Let the user's Compare be a total order and the trailers of the tombstones be of 64 bits. With
  -- calls of Add, FlushTo and TruncateAndFlushTo whose keys ascend, on a new Fragmenter, none of
  -- them panics, and neither does Deleted of a key that is not in front of theirs; it answers true
  -- exactly if a tombstone that was added covers the key, is visible at the snapshot and has a
  -- strictly larger sequence number. The sorts are any that behave as sort.Sort is documented.
  pub deleted_iff :
      (calls : List FragmentCall) (first : List ℕ) (key : InternalKey) (snapshot : ℕ)
      → IsOrdered cmp first calls
      → All IsStored (added calls)
      → Le cmp first key.user_key
      → All (λ c. Le cmp (call_key c) key.user_key) calls
      → (f : Fragmenter) × (out : List (List Tombstone)) × (steps cmp sort_ends sort_seqs calls
            new_fragmenter
          ≡ ok (f, out))
        × (answer : Bool) × (deleted cmp f key snapshot ≡ ok answer)
        × ((answer ≡ true) ↔ Any (Deletes cmp key snapshot) (added calls))
  deleted_iff calls first key snapshot s a l b =
      let (f, out, r, o, e) =
        steps-pending cmp total sort_ends sort_seqs ends seqs calls first key.user_key s a l b in
      let before =
        before_false cmp total sort_ends sort_seqs ends seqs key.user_key o.first f.pending
          o.first_le o.together in
      (
        f,
        out,
        r,
        deleted_by cmp f.pending key snapshot,
        deleted_unfold cmp f key snapshot o.running before,
        (
          λ h.
              let (n, m, w) =
                Deletes-Covers cmp key snapshot f.pending
                  (deleted_by→Any cmp o.first f.pending key snapshot o.together o.first_le h) in
              Covers-Deletes cmp key snapshot (added calls) n ((e n).0 m) w,
          λ h.
              let (n, m, w) = Deletes-Covers cmp key snapshot (added calls) h in
              Any→deleted_by cmp f.pending key snapshot
                (Covers-Deletes cmp key snapshot f.pending n ((e n).1 m) w),
        ),
      )
