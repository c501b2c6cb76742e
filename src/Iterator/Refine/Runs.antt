-- ===== src/Iterator/Refine/Runs.antt =====
-- A user's calls of an Iterator (iterator.go) show the rows of its contents.
use pebble.Prelude.{ℕ, ◌≡◌, refl, sym, none, List, [], ◌∷◌}
use pebble.Prelude.Outcome.{ok}
use pebble.Key.{IsCompare}
use pebble.Compaction.Iter.{is_eq}
use pebble.Iterator.Merging.{IsAssociative, default_merger, default-IsAssociative, concat}
use pebble.Iterator.Search.{Config, Iterator}
use pebble.Iterator.Calls.{
  Call, call_first, call_last, call_next, call_prev, call_seek_ge, call_seek_lt, new_iter, call,
  run,
}
use pebble.Iterator.Rows.{Group, Cursor, after_last, groups, view, move, moves, IsContents}
use pebble.Iterator.Groups.{flat, Sorted, flat-groups, groups-Sorted}
use pebble.Iterator.Refine.Standing.{Stands, at_end, Reached, Stands-seen, Stands-Closes}
use pebble.Iterator.Refine.Methods.{next-reaches, prev-reaches}
use pebble.Iterator.Refine.Seeks.{first-reaches, last-reaches, seek_ge-reaches, seek_lt-reaches}

module _ {V : Type 0} (c : Config V) (combine : List (List ℕ) → List ℕ)
    (assoc : IsAssociative c.merger combine) (total : IsCompare c.cmp)
    (agree : (a b : List ℕ) → c.equal a b ≡ is_eq (c.cmp a b)) (good : IsContents c) where
  abbrev pub parts : List Group
  parts = groups c.cmp c.contents

  whole : c.contents ≡ flat parts
  whole = sym (flat-groups c c.contents)

  sorted : Sorted c parts
  sorted = groups-Sorted c total c.contents good.ordered good.readable

  pub call-reaches :
      (k : Call) (s : Iterator) (p : Cursor)
      → Stands combine parts s p
      → Reached combine parts (call c k s) (move c.cmp (view combine c) k p)
  unfolding call view
  call-reaches call_first s p t =
      first-reaches c combine assoc total agree parts whole sorted good.within s
        (Stands-Closes combine parts s p t) p
  call-reaches call_last s p t =
      last-reaches c combine assoc total agree parts whole sorted good.within s
        (Stands-Closes combine parts s p t) p
  call-reaches call_next s p t =
      next-reaches c combine assoc total agree parts whole sorted good.within s p t
  call-reaches call_prev s p t =
      prev-reaches c combine assoc total agree parts whole sorted good.within s p t
  call-reaches (call_seek_ge key) s p t =
      seek_ge-reaches c combine assoc total agree parts whole sorted good.within s
        (Stands-Closes combine parts s p t) p key
  call-reaches (call_seek_lt key) s p t =
      seek_lt-reaches c combine assoc total agree parts whole sorted good.within s
        (Stands-Closes combine parts s p t) p key

  pub run-moves_from :
      (ks : List Call) (s : Iterator) (p : Cursor)
      → Stands combine parts s p
      → run c ks s ≡ ok (moves c.cmp (view combine c) ks p)
  unfolding run moves
  run-moves_from [] s p t = refl
  run-moves_from (k ∷ ks) s p t =
      let z = call-reaches k s p t in
      rw (z.returned, run)
        (rw
          (
            run-moves_from ks z.now (move c.cmp (view combine c) k p) z.stands,
            run,
            Stands-seen combine parts z.now (move c.cmp (view combine c) k p) z.stands,
          )
          refl)

  -- The same from a new iterator, for a merge operator that does not fail, does not look at the key,
  -- and is associative.
  pub run-moves_new :
      (ks : List Call) → run c ks new_iter ≡ ok (moves c.cmp (view combine c) ks after_last)
  run-moves_new ks = run-moves_from ks new_iter after_last (at_end [] [] none [] tt)

-- Let the merge operator be the default one, the user's Compare a total order with which Equal
-- agrees, and the entries of the internal iterator in order, within the bounds and of kinds that
-- iterators read. Then every sequence of calls of First, Last, Next, Prev, SeekGE and SeekLT on a
-- new iterator returns, and after each call the result, Valid with Key and Value, and Error are
-- those of a cursor over the rows of the entries: one row for each user key that has a value, where
-- a row with merge operands has their concatenation from the oldest.
pub run-moves :
    (c : Config (List ℕ)) (ks : List Call)
    → c.merger ≡ default_merger
    → IsCompare c.cmp
    → ((a b : List ℕ) → c.equal a b ≡ is_eq (c.cmp a b))
    → IsContents c
    → run c ks new_iter ≡ ok (moves c.cmp (view concat c) ks after_last)
run-moves c ks m total agree good =
    run-moves_new c concat (default-IsAssociative c.merger m) total agree good ks
