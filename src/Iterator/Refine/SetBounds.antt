-- ===== src/Iterator/Refine/SetBounds.antt =====
-- SetBounds of iterator.go and the calls after it.
use pebble.Prelude.{ℕ, ◌≡◌, refl, ◌⊎◌, inl, inr, Bool, true, false, Option, none, List, [], ◌∷◌}
use pebble.Prelude.Outcome.{ok}
use pebble.Key.{IsCompare}
use pebble.Compaction.Iter.{Entry, Closer, is_eq}
use pebble.Iterator.Internal.{Position, nowhere}
use pebble.Iterator.Merging.{IsAssociative, Closes, default_merger, default-IsAssociative, concat}
use pebble.Iterator.Search.{
  IterPos, pos_cur_forward, pos_next, pos_prev, pos_cur_reverse, Config, Iterator,
}
use pebble.Iterator.Calls.{Call, new_iter, run, state_after, same_bounds, set_bounds, with_bounds}
use pebble.Iterator.Rows.{Group, Cursor, before_first, after_last, view, moves, IsContents}
use pebble.Iterator.Refine.Standing.{state, Stands, at_group, at_end, at_start}
use pebble.Iterator.Refine.Runs.{parts, call-reaches, run-moves_from}

-- The iterator stands at no row, for whichever groups.
abbrev Outside : (List (List ℕ) → List ℕ) → Iterator → Type 0
Outside combine s =
    ((gs : List Group) → Stands combine gs s before_first)
    ⊎ ((gs : List Group) → Stands combine gs s after_last)

module _ {V : Type 0} (c : Config V) (combine : List (List ℕ) → List ℕ)
    (assoc : IsAssociative c.merger combine) (total : IsCompare c.cmp)
    (agree : (a b : List ℕ) → c.equal a b ≡ is_eq (c.cmp a b)) where
  set_bounds-state :
      (lower upper : Option (List ℕ)) (i : Position Entry) (k v : List ℕ) (o : Option Closer)
      (b : Bool) (ps : IterPos) (pr : List ℕ)
      → same_bounds c lower upper ≡ false
      → Closes o
      → Outside combine (set_bounds c lower upper (state i k v o b ps pr))
  unfolding set_bounds
  set_bounds-state lower upper i k v o b pos_cur_forward pr h cl =
      rw (h, set_bounds) (inr (λ gs. at_end k v o pr cl))
  set_bounds-state lower upper i k v o b pos_next pr h cl =
      rw (h, set_bounds) (inr (λ gs. at_end k v o pr cl))
  set_bounds-state lower upper i k v o b pos_prev pr h cl =
      rw (h, set_bounds) (inl (λ gs. at_start k v o pr cl))
  set_bounds-state lower upper i k v o b pos_cur_reverse pr h cl =
      rw (h, set_bounds) (inl (λ gs. at_start k v o pr cl))

  set_bounds-Stands :
      (lower upper : Option (List ℕ)) (gs : List Group) (s : Iterator) (p : Cursor)
      → same_bounds c lower upper ≡ false
      → Stands combine gs s p
      → Outside combine (set_bounds c lower upper s)
  set_bounds-Stands lower upper gs s p h (at_group d g a v i ps o pr q r cl sp) =
      set_bounds-state lower upper i (g.0) v o true ps pr h cl
  set_bounds-Stands lower upper gs s p h (at_end k v o pr cl) =
      set_bounds-state lower upper nowhere k v o false pos_cur_forward pr h cl
  set_bounds-Stands lower upper gs s p h (at_start k v o pr cl) =
      set_bounds-state lower upper nowhere k v o false pos_cur_reverse pr h cl

  module _ (good : IsContents c) where
    abbrev all : List Group
    all = parts c combine assoc total agree good

    state_after-Stands :
        (ks : List Call) (s : Iterator) (p : Cursor)
        → Stands combine all s p
        → (t : Iterator) × (q : Cursor) × (state_after c ks s ≡ ok t) × Stands combine all t q
    unfolding state_after
    state_after-Stands [] s p z = (s, p, refl, z)
    state_after-Stands (k ∷ ks) s p z =
        let r = call-reaches c combine assoc total agree good k s p z in
        let (t, q, e, y) = state_after-Stands ks r.now _ r.stands in
        (t, q, rw (r.returned, state_after) e, y)

    -- For a merge operator that does not fail, does not look at the key, and is associative.
    set_bounds-moves_of :
        (lower upper : Option (List ℕ)) (es : List Entry) (ks ks' : List Call)
        → same_bounds c lower upper ≡ false
        → IsContents (with_bounds c lower upper es)
        → (t : Iterator) × (p : Cursor) × ((p ≡ before_first) ⊎ (p ≡ after_last))
          × (state_after c ks new_iter ≡ ok t)
          × (run (with_bounds c lower upper es) ks' (set_bounds c lower upper t)
              ≡ ok (moves c.cmp (view combine (with_bounds c lower upper es)) ks' p))
    set_bounds-moves_of lower upper es ks ks' h good' =
        let (t, q, e, y) = state_after-Stands ks new_iter after_last (at_end [] [] none [] tt) in
        elim (set_bounds-Stands lower upper all t q h y) [
          | inl z ↦ (t, before_first, inl refl, e, shows before_first t z)
          | inr z ↦ (t, after_last, inr refl, e, shows after_last t z)
        ]
      where
        shows :
            (p : Cursor) (t : Iterator)
            → ((gs : List Group) → Stands combine gs (set_bounds c lower upper t) p)
            → run (with_bounds c lower upper es) ks' (set_bounds c lower upper t)
              ≡ ok (moves c.cmp (view combine (with_bounds c lower upper es)) ks' p)
        shows p t z =
            run-moves_from (with_bounds c lower upper es) combine assoc total agree good' ks'
              (set_bounds c lower upper t) p (z _)

-- Let the merge operator be the default one, the user's Compare a total order with which Equal
-- agrees, and the entries of the internal iterator, before as after SetBounds, in order, within the
-- bounds and of kinds that iterators read. After any positioning calls on a new iterator and then
-- SetBounds with other bounds, every sequence of positioning calls shows what a cursor over the rows
-- within the new bounds shows that starts in front of the first row or behind the last.
pub set_bounds-moves :
    (c : Config (List ℕ)) (lower upper : Option (List ℕ)) (es : List Entry) (ks ks' : List Call)
    → c.merger ≡ default_merger
    → IsCompare c.cmp
    → ((a b : List ℕ) → c.equal a b ≡ is_eq (c.cmp a b))
    → IsContents c
    → same_bounds c lower upper ≡ false
    → IsContents (with_bounds c lower upper es)
    → (t : Iterator) × (p : Cursor) × ((p ≡ before_first) ⊎ (p ≡ after_last))
      × (state_after c ks new_iter ≡ ok t)
      × (run (with_bounds c lower upper es) ks' (set_bounds c lower upper t)
          ≡ ok (moves c.cmp (view concat (with_bounds c lower upper es)) ks' p))
set_bounds-moves c lower upper es ks ks' m total agree good h good' =
    set_bounds-moves_of c concat (default-IsAssociative c.merger m) total agree good lower upper es
      ks ks' h good'
