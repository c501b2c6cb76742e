-- ===== src/Iterator/Refine/Seeks.antt =====
-- The absolute positioning methods of iterator.go move the cursor over the rows.
use pebble.Prelude.{ℕ, ◌≡◌, refl, sym, ◌∙◌, ap, List, [], All}
use mathlib.Core.Path.{subst}
use pebble.Key.{IsCompare}
use pebble.Compaction.Iter.{Entry, is_eq}
use pebble.Iterator.Internal
use pebble.Iterator.Internal.{Position, ahead, behind, onto, cut}
use pebble.Iterator.Merging.{IsAssociative, Closes}
use pebble.Iterator.Search.{Config, Iterator, find_next_entry}
use pebble.Iterator.Reverse.{find_prev_entry}
use pebble.Iterator.Calls.{
  entry_key, call_first, call_last, call_seek_ge, call_seek_lt, seek_ge_key, seek_lt_key, first,
  last, seek_ge, seek_lt,
}
use pebble.Iterator.Rows.{Group, Cursor, row_key, rows, at_first, at_last, move, IsWithin}
use pebble.Iterator.Groups.{flat, flat_back, Sorted, Cut}
use pebble.Iterator.Refine.Standing.{state, Reached, Reached-by}
use pebble.Iterator.Refine.Bounds.{to_first_lem, to_last_lem, seek_ge-clipped, seek_lt-clipped}
use pebble.Iterator.Refine.Enter.{
  onto-end, Cut-end, find_next_entry-reaches, find_prev_entry-reaches,
}
use pebble.Iterator.Refine.Locate.{Located, locate}
use pebble.Iterator.Refine.Steps.{last_place, last_rows}

module _ {V : Type 0} (c : Config V) (combine : List (List ℕ) → List ℕ)
    (assoc : IsAssociative c.merger combine) (total : IsCompare c.cmp)
    (agree : (a b : List ℕ) → c.equal a b ≡ is_eq (c.cmp a b)) (gs : List Group)
    (contents : c.contents ≡ flat gs) (so : Sorted c gs)
    (w : All (λ e. IsWithin c (entry_key e)) c.contents) (s : Iterator) (cl : Closes s.value_closer)
    (p : Cursor) where
  -- The state in which a method calls findNextEntry or findPrevEntry.
  abbrev at_position : Position Entry → Iterator
  at_position i = state i s.key s.value s.value_closer s.valid s.pos s.prefix

  forward_from :
      (i : Position Entry) (d a : List Group)
      → i ≡ ahead (flat_back d) (flat a)
      → Cut c d a
      → onto d a ≡ gs
      → Reached combine gs
          (find_next_entry c (at_position i))
          (at_first (rows combine d) (rows combine a))
  forward_from i d a h t q =
      Reached-by combine gs _ _ _ (ap (λ j. find_next_entry c (at_position j)) h) (
        find_next_entry-reaches c combine assoc total agree gs d a s.key s.value s.value_closer
          s.valid s.pos s.prefix cl t q)

  backward_from :
      (i : Position Entry) (d a : List Group)
      → i ≡ behind (flat_back d) (flat a)
      → Cut c d a
      → onto d a ≡ gs
      → Reached combine gs
          (find_prev_entry c (at_position i))
          (at_last (rows combine d) (rows combine a))
  backward_from i d a h t q =
      Reached-by combine gs _ _ _ (ap (λ j. find_prev_entry c (at_position j)) h) (
        find_prev_entry-reaches c combine assoc total agree gs d a s.key s.value s.value_closer
          s.valid s.pos s.prefix cl t q)

  pub first-reaches : Reached combine gs (first c s) (move c.cmp (rows combine gs) call_first p)
  unfolding first move rows flat_back onto
  first-reaches = forward_from _ [] gs (to_first_lem c total w ∙ ap (ahead []) contents) so refl

  pub last-reaches : Reached combine gs (last c s) (move c.cmp (rows combine gs) call_last p)
  unfolding last move onto
  last-reaches = rw (← last_rows combine gs) (
      backward_from _ (onto gs []) [] (to_last_lem c total w ∙ last_place c gs contents)
        (Cut-end c combine assoc total agree gs gs [] so) (onto-end gs [] gs refl))

  located : (key : List ℕ) → Located c combine total gs key [] gs
  located key = locate c combine total gs key [] gs so (unfold onto in refl)

  cut-contents :
      (key : List ℕ)
      → cut c.cmp entry_key key [] c.contents
        ≡ (flat_back (located key).before, flat (located key).after)
  unfolding flat_back
  cut-contents key = ap (cut c.cmp entry_key key []) contents ∙ (located key).entries

  cut-rows :
      (key : List ℕ)
      → cut c.cmp row_key key [] (rows combine gs)
        ≡ (rows combine (located key).before, rows combine (located key).after)
  unfolding rows
  cut-rows key = (located key).shown

  ge_place :
      (key : List ℕ)
      → Internal.seek_ge c.cmp entry_key (seek_ge_key c key) c.contents
        ≡ ahead (flat_back (located key).before) (flat (located key).after)
  unfolding Internal.seek_ge
  ge_place key = seek_ge-clipped c total w key ∙ ap (λ z. ahead (z.0) (z.1)) (cut-contents key)

  lt_place :
      (key : List ℕ)
      → Internal.seek_lt c.cmp entry_key (seek_lt_key c key) c.contents
        ≡ behind (flat_back (located key).before) (flat (located key).after)
  unfolding Internal.seek_lt
  lt_place key = seek_lt-clipped c total w key ∙ ap (λ z. behind (z.0) (z.1)) (cut-contents key)

  pub seek_ge-reaches :
      (key : List ℕ)
      → Reached combine gs (seek_ge c key s) (move c.cmp (rows combine gs) (call_seek_ge key) p)
  unfolding seek_ge move
  seek_ge-reaches key =
      subst (λ z. Reached combine gs (seek_ge c key s) (at_first (z.0) (z.1))) (sym (cut-rows key))
        (forward_from _ (located key).before (located key).after (ge_place key) (located key).sorted
          (located key).whole)

  pub seek_lt-reaches :
      (key : List ℕ)
      → Reached combine gs (seek_lt c key s) (move c.cmp (rows combine gs) (call_seek_lt key) p)
  unfolding seek_lt move
  seek_lt-reaches key =
      subst (λ z. Reached combine gs (seek_lt c key s) (at_last (z.0) (z.1))) (sym (cut-rows key))
        (backward_from _ (located key).before (located key).after (lt_place key)
          (located key).sorted (located key).whole)
