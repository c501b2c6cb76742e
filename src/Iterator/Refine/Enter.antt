-- ===== src/Iterator/Refine/Enter.antt =====
-- findNextEntry and findPrevEntry of iterator.go, as the positioning methods call them.
use pebble.Prelude.{
  ℕ, suc, ◌<◌, ◌≡◌, refl, ◌∙◌, Bool, false, Option, none, some, List, [], ◌∷◌, ◌++◌, length, arith,
}
use mathlib.Core.List.{append-nil}
use pebble.Prelude.Outcome.{ok}
use pebble.Key.{IsCompare}
use pebble.Compaction.Iter.{Entry, Closer, is_eq}
use pebble.Iterator.Internal.{ahead, behind, onto}
use pebble.Iterator.Merging.{IsAssociative, Closes}
use pebble.Iterator.Search.{
  IterPos, pos_cur_reverse, Config, remaining, after_close, find_next_entry,
}
use pebble.Iterator.Reverse.{find_prev_loop, find_prev_at, find_prev_entry}
use pebble.Iterator.Rows.{Group, rows, at_first, at_last}
use pebble.Iterator.Groups.{flat, flat_back, Cut}
use pebble.Iterator.Refine.Standing.{state, Reached}
use pebble.Iterator.Refine.Forward.{find_next}
use pebble.Iterator.Refine.Backward.{find_prev}

module _ {A : Type 0} where
  pub onto-onto : (d a l : List A) → onto (onto d a) l ≡ onto a (d ++ l)
  unfolding onto
  onto-onto [] a l = refl
  onto-onto (x ∷ d) a l = onto-onto d (x ∷ a) l

  -- The same list, with the cut after its last element.
  pub onto-end : (a d l : List A) → onto d a ≡ l → onto (onto a d) [] ≡ l
  unfolding onto
  onto-end [] d l h = h
  onto-end (x ∷ a) d l h = onto-end a (x ∷ d) l h

  -- The elements before the cut, if none comes after it.
  pub onto-all : (d l : List A) → onto d [] ≡ l → onto l [] ≡ d
  unfolding onto
  onto-all d l h = rw (← h) (onto-onto d [] [] ∙ append-nil d)

pub remaining-ahead : (l r : List Entry) → remaining (ahead l r) ≡ length r
unfolding ahead
remaining-ahead l [] = refl
remaining-ahead l (e ∷ r) = refl

module _ {V : Type 0} (c : Config V) (combine : List (List ℕ) → List ℕ)
    (assoc : IsAssociative c.merger combine) (total : IsCompare c.cmp)
    (agree : (a b : List ℕ) → c.equal a b ≡ is_eq (c.cmp a b)) (gs : List Group) where
  pub Cut-end : (a d : List Group) → Cut c d a → Cut c (onto a d) []
  unfolding onto
  Cut-end [] d h = h
  Cut-end (g ∷ a) d h = Cut-end a (g ∷ d) h

  enough : (d a : List Group) → length (flat a) < suc (remaining (ahead (flat_back d) (flat a)))
  enough d a = omega (arith, remaining-ahead (flat_back d) (flat a))

  pub find_next_entry-reaches :
      (d a : List Group) (k v : List ℕ) (o : Option Closer) (b : Bool) (ps : IterPos) (pr : List ℕ)
      → Closes o
      → Cut c d a
      → onto d a ≡ gs
      → Reached combine gs
          (find_next_entry c (state (ahead (flat_back d) (flat a)) k v o b ps pr))
          (at_first (rows combine d) (rows combine a))
  unfolding find_next_entry after_close
  find_next_entry-reaches d a k v none b ps pr cl t q =
      find_next c combine assoc total agree gs (suc (remaining (ahead (flat_back d) (flat a)))) d a
        k v pr t q (enough d a)
  find_next_entry-reaches d a k v (some none) b ps pr cl t q =
      find_next c combine assoc total agree gs (suc (remaining (ahead (flat_back d) (flat a)))) d a
        k v pr t q (enough d a)
  find_next_entry-reaches d a k v (some (some e)) b ps pr cl t q = absurd cl

  find_prev_at-behind :
      (l r : List Entry) (k v pr : List ℕ)
      → find_prev_at c (behind l r) (state (behind l r) k v none false pos_cur_reverse pr)
        ≡ find_prev_loop c l r none (state (behind l r) k v none false pos_cur_reverse pr)
  unfolding find_prev_at behind find_prev_loop
  find_prev_at-behind [] r k v pr = refl
  find_prev_at-behind (e ∷ l) r k v pr = refl

  find_prev_at-reaches :
      (d a : List Group) (k v pr : List ℕ)
      → Cut c d a
      → onto d a ≡ gs
      → Reached combine gs
          (ok (
            find_prev_at c
              (behind (flat_back d) (flat a))
              (state (behind (flat_back d) (flat a)) k v none false pos_cur_reverse pr)))
          (at_last (rows combine d) (rows combine a))
  find_prev_at-reaches d a k v pr t q =
      rw (find_prev_at-behind (flat_back d) (flat a) k v pr)
        (find_prev c combine assoc total agree gs d a k v pr t q)

  pub find_prev_entry-reaches :
      (d a : List Group) (k v : List ℕ) (o : Option Closer) (b : Bool) (ps : IterPos) (pr : List ℕ)
      → Closes o
      → Cut c d a
      → onto d a ≡ gs
      → Reached combine gs
          (find_prev_entry c (state (behind (flat_back d) (flat a)) k v o b ps pr))
          (at_last (rows combine d) (rows combine a))
  unfolding find_prev_entry after_close
  find_prev_entry-reaches d a k v none b ps pr cl t q = find_prev_at-reaches d a k v pr t q
  find_prev_entry-reaches d a k v (some none) b ps pr cl t q = find_prev_at-reaches d a k v pr t q
  find_prev_entry-reaches d a k v (some (some e)) b ps pr cl t q = absurd cl
