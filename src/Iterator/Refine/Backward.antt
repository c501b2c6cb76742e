-- ===== src/Iterator/Refine/Backward.antt =====
-- findPrevEntry of iterator.go stops at the previous user key that has a value.
use pebble.Prelude.{ℕ, ◌≡◌, refl, ◌∙◌, ap, Bool, true, false, Option, none, some, List, [], ◌∷◌}
use pebble.Prelude.Outcome.{Outcome, ok}
use pebble.Key.{IsCompare}
use pebble.Compaction.Iter.{Entry, Closer, value_of, is_eq}
use pebble.Iterator.Internal.{Position, nowhere, behind, onto}
use pebble.Iterator.Merging.{IsAssociative, Closes}
use pebble.Iterator.Search.{pos_prev, pos_cur_reverse, Config, Iterator, finish_value}
use pebble.Iterator.Reverse.{finish_prev, find_prev_loop}
use pebble.Iterator.Calls.{entry_key}
use pebble.Iterator.Rows.{Group, older, resolve, rows, at_last}
use pebble.Iterator.Groups.{flat, flat_back, Cut, Cut-Sorted}
use pebble.Iterator.Skip.{Other, equal_other}
use pebble.Iterator.Refine.Standing.{state, in_front, at_group, at_start, Reached}
use pebble.Iterator.Refine.Rounds.{rows-none, rows-some}
use pebble.Iterator.Refine.Neighbours.{Other-flat_back}
use pebble.Iterator.Refine.Walk.{Kept, kept_none, kept_value, kept_merger, walk}

module _ {V : Type 0} (c : Config V) (combine : List (List ℕ) → List ℕ)
    (assoc : IsAssociative c.merger combine) (total : IsCompare c.cmp)
    (agree : (a b : List ℕ) → c.equal a b ≡ is_eq (c.cmp a b)) (gs : List Group) where
  -- At the end of a user key that is kept.
  stop_kept :
      (l r : List Entry) (m : Option V) (i : Position Entry) (u v pr : List ℕ)
      → Other u l
      → find_prev_loop c l r m (state i u v none true pos_cur_reverse pr)
        ≡ finish_prev c m (state i u v none true pos_cur_reverse pr)
  unfolding find_prev_loop
  stop_kept [] r m i u v pr o = refl
  stop_kept (e ∷ l) r m i u v pr o =
      rw (equal_other c total agree (entry_key e) u o, find_prev_loop) refl

  finish_merger :
      (w : V) (i : Position Entry) (u v pr x : List ℕ) (o : Option Closer)
      → c.merger.finish w true ≡ value_of (x, o)
      → finish_prev c (some w) (state i u v none true pos_cur_reverse pr)
        ≡ (true, state i u x o true pos_prev pr)
  unfolding finish_prev finish_value
  finish_merger w i u v pr x o f = rw (f, finish_value) refl

  -- The loop, at the last entry before a cut.
  abbrev pub FindsBack : List Group → List Group → List ℕ → List ℕ → List ℕ → Type 0
  FindsBack d a k v pr =
      Reached combine gs
        (ok (
          find_prev_loop c (flat_back d) (flat a) none
            (state (behind (flat_back d) (flat a)) k v none false pos_cur_reverse pr)))
        (at_last (rows combine d) (rows combine a))

  find_prev-live :
      (d : List Group) (g : Group) (a : List Group) (r : Outcome (Bool × Iterator)) (x : List ℕ)
      (o : Option Closer) (pr : List ℕ)
      → onto d (g ∷ a) ≡ gs
      → resolve combine (g.1) ≡ some x
      → Closes o
      → r ≡ ok (true, state (behind (flat_back d) (flat (g ∷ a))) (g.0) x o true pos_prev pr)
      → Reached combine gs r (at_last (rows combine (g ∷ d)) (rows combine a))
  unfolding at_last
  find_prev-live d g a r x o pr q h cl z = record {
    now = state (behind (flat_back d) (flat (g ∷ a))) (g.0) x o true pos_prev pr;
    returned = z;
    stands =
        rw (rows-some combine g d x h, at_last)
          (at_group d g a x (behind (flat_back d) (flat (g ∷ a))) pos_prev o pr q h cl in_front);
  }

  -- What the loop does from the newest entry of a group on, by what it has kept.
  find_prev-Kept :
      (d : List Group) (g : Group) (a : List Group) (pr : List ℕ) (m : Option V) (b : Bool)
      (k v : List ℕ)
      → Cut c d (g ∷ a)
      → onto d (g ∷ a) ≡ gs
      → ((k' v' : List ℕ) → FindsBack d (g ∷ a) k' v' pr)
      → Kept c combine assoc total agree (g.0) (g.1) m b k v
      → Reached combine gs
          (ok (
            find_prev_loop c
              (flat_back d)
              (flat (g ∷ a))
              m
              (state (behind (flat_back d) (flat (g ∷ a))) k v none b pos_cur_reverse pr)))
          (at_last (rows combine (g ∷ d)) (rows combine a))
  find_prev-Kept d g a pr m b k v t q rest (kept_none k' v' h o) =
      rw (rows-none combine g d h, ← rows-none combine g a h) (rest k v)
  find_prev-Kept d g a pr m b k v t q rest (kept_value k' v' e h o) =
      let i = behind (flat_back d) (flat (g ∷ a)) in
      find_prev-live d g a _ v none pr q h tt (
        rw e (
          ap ok (
            stop_kept (flat_back d) (flat (g ∷ a)) none i (g.0) v pr
              (Other-flat_back c total d g a t)
            ∙ unfold finish_prev in refl)))
  find_prev-Kept d g a pr m b k v t q rest (kept_merger w k' v' e h o) =
      let i = behind (flat_back d) (flat (g ∷ a)) in
      let (cl, f, closes) = assoc.finish_ok w (older (g.1)) o in
      find_prev-live d g a _ (combine (older (g.1))) cl pr q h closes (
        rw e (
          ap ok (
            stop_kept (flat_back d) (flat (g ∷ a)) (some w) i (g.0) v pr
              (Other-flat_back c total d g a t)
            ∙ finish_merger w i (g.0) v pr (combine (older (g.1))) cl f)))

  -- findPrevEntry stops at the row before the cut.
  pub find_prev :
      (d a : List Group) (k v pr : List ℕ) → Cut c d a → onto d a ≡ gs → FindsBack d a k v pr
  unfolding onto flat flat_back
  find_prev [] a k v pr t q = record {
    now = state nowhere k v none false pos_cur_reverse pr;
    returned = unfold find_prev_loop behind in refl;
    stands = unfold rows at_last in at_start k v none pr tt;
  }
  find_prev (g ∷ d) a k v pr t q =
      let ok_g = (Cut-Sorted c d (g ∷ a) t).0 in
      let w =
        walk c combine assoc total agree (g.0) (g.1) (flat_back d) (flat a) k v pr ok_g.keyed
          ok_g.readable in
      let z =
        find_prev-Kept d g a pr w.merger w.valid w.key w.value t q
          (λ k' v'. find_prev d (g ∷ a) k' v' pr t q) w.kept in
      record { now = z.now; returned = ap ok w.returned ∙ z.returned; stands = z.stands }
