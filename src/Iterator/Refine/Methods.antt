-- ===== src/Iterator/Refine/Methods.antt =====
-- Each positioning method of iterator.go moves the cursor over the rows.
use pebble.Prelude.{ℕ, ◌≡◌, refl, sym, ◌∙◌, ap, true, false, Option, some, List, [], ◌∷◌, All}
use mathlib.Core.Path.{subst}
use pebble.Key.{IsCompare}
use pebble.Compaction.Iter.{Entry, Closer, is_eq}
use pebble.Iterator.Internal.{Position, nowhere, ahead, behind, onto}
use pebble.Iterator.Merging.{IsAssociative, Closes}
use pebble.Iterator.Search.{
  IterPos, pos_cur_forward, pos_next, pos_prev, pos_cur_reverse, Config, Iterator, next_user_key,
  prev_user_key, find_next_entry,
}
use pebble.Iterator.Reverse.{find_prev_entry}
use pebble.Iterator.Calls.{entry_key, call_next, call_prev, leave_next, next, prev}
use pebble.Iterator.Rows.{Group, Cursor, resolve, rows, at_first, at_last, move, IsWithin}
use pebble.Iterator.Groups.{flat, flat_back, Sorted, Cut}
use pebble.Iterator.Refine.Standing.{
  state, Spot, within, beyond, in_front, Stands, at_group, at_end, at_start, Reached, Reached-by,
}
use pebble.Iterator.Refine.Bounds.{to_first_lem, to_last_lem}
use pebble.Iterator.Refine.Enter.{
  onto-end, Cut-end, find_next_entry-reaches, find_prev_entry-reaches,
}
use pebble.Iterator.Refine.Passing.{
  skip_forward-group, skip_back-group, next_user_key-group, prev_user_key-group,
}
use pebble.Iterator.Refine.Steps.{
  last_place, last_rows, next-row, prev-row, leave_prev-front, leave_next-past,
}

module _ {V : Type 0} (c : Config V) (combine : List (List ℕ) → List ℕ)
    (assoc : IsAssociative c.merger combine) (total : IsCompare c.cmp)
    (agree : (a b : List ℕ) → c.equal a b ≡ is_eq (c.cmp a b)) (gs : List Group)
    (contents : c.contents ≡ flat gs) (so : Sorted c gs)
    (w : All (λ e. IsWithin c (entry_key e)) c.contents) where
  Sorted-Cut : (d a : List Group) → Sorted c (onto d a) → Cut c d a
  unfolding onto
  Sorted-Cut [] a h = h
  Sorted-Cut (g ∷ d) a h = Sorted-Cut d (g ∷ a) h

  Cut-of : (d a : List Group) → onto d a ≡ gs → Cut c d a
  Cut-of d a q = Sorted-Cut d a (subst (Sorted c) (sym q) so)

  next-Spot :
      (d : List Group) (g : Group) (a : List Group) (v : List ℕ) (i : Position Entry) (ps : IterPos)
      (o : Option Closer) (pr : List ℕ)
      → onto d (g ∷ a) ≡ gs
      → resolve combine (g.1) ≡ some v
      → Closes o
      → Spot d g a i ps
      → Reached combine gs
          (next c (state i (g.0) v o true ps pr))
          (at_first ((g.0, v) ∷ rows combine d) (rows combine a))
  unfolding next next_user_key
  next-Spot d g a v i ps o pr q h cl (within xs e ys z) =
      let t = Cut-of d (g ∷ a) q in
      Reached-by combine gs _ _ _
        (ap (λ j. find_next_entry c (state j (g.0) v o true pos_cur_forward pr))
          (skip_forward-group c total agree d g a t xs e ys z))
        (next-row c combine assoc total agree gs contents so w d g a v (g.0) v o true
          pos_cur_forward pr t q h cl)
  next-Spot d g a v i ps o pr q h cl beyond =
      next-row c combine assoc total agree gs contents so w d g a v (g.0) v o true pos_next pr
        (Cut-of d (g ∷ a) q) q h cl
  next-Spot d g a v i ps o pr q h cl in_front =
      let t = Cut-of d (g ∷ a) q in
      let (k, z) =
        leave_prev-front c combine assoc total agree gs contents so w d g a (g.0) v o true pr t q in
      Reached-by combine gs _ _ _
        (ap (λ s. find_next_entry c (next_user_key c s)) z
          ∙ ap (find_next_entry c) (next_user_key-group c total agree d g a k v o pos_prev pr t))
        (next-row c combine assoc total agree gs contents so w d g a v (g.0) v o false pos_prev pr t
          q h cl)

  prev-Spot :
      (d : List Group) (g : Group) (a : List Group) (v : List ℕ) (i : Position Entry) (ps : IterPos)
      (o : Option Closer) (pr : List ℕ)
      → onto d (g ∷ a) ≡ gs
      → resolve combine (g.1) ≡ some v
      → Closes o
      → Spot d g a i ps
      → Reached combine gs
          (prev c (state i (g.0) v o true ps pr))
          (at_last (rows combine d) ((g.0, v) ∷ rows combine a))
  unfolding prev leave_next prev_user_key
  prev-Spot d g a v i ps o pr q h cl (within xs e ys z) =
      let t = Cut-of d (g ∷ a) q in
      Reached-by combine gs _ _ _
        (ap (λ j. find_prev_entry c (state j (entry_key e) v o false pos_cur_forward pr))
          (skip_back-group c total agree d g a t xs e ys z))
        (prev-row c combine assoc total agree gs contents so w d g a v (entry_key e) v o false
          pos_cur_forward pr t q h cl)
  prev-Spot d g a v i ps o pr q h cl beyond =
      let t = Cut-of d (g ∷ a) q in
      let (k, z) =
        leave_next-past c combine assoc total agree gs contents so w d g a (g.0) v o true pos_next
          pr t q in
      let (k', y) = prev_user_key-group c total agree d g a k v o pos_next pr t in
      Reached-by combine gs _ _ _
        (ap (λ s. find_prev_entry c (prev_user_key c s)) z ∙ ap (find_prev_entry c) y)
        (prev-row c combine assoc total agree gs contents so w d g a v k' v o false pos_next pr t q
          h cl)
  prev-Spot d g a v i ps o pr q h cl in_front =
      prev-row c combine assoc total agree gs contents so w d g a v (g.0) v o true pos_prev pr
        (Cut-of d (g ∷ a) q) q h cl

  next-at_start :
      (k v : List ℕ) (o : Option Closer) (pr : List ℕ)
      → next c (state nowhere k v o false pos_cur_reverse pr)
        ≡ find_next_entry c (state (ahead (flat_back []) (flat gs)) k v o false pos_cur_reverse pr)
  unfolding next flat_back
  next-at_start k v o pr =
      ap (λ i. find_next_entry c (state i k v o false pos_cur_reverse pr))
        (to_first_lem c total w ∙ ap (ahead []) contents)

  prev-at_end :
      (k v : List ℕ) (o : Option Closer) (pr : List ℕ)
      → prev c (state nowhere k v o false pos_cur_forward pr)
        ≡ find_prev_entry c
            (state (behind (flat_back (onto gs [])) (flat [])) k v o false pos_cur_forward pr)
  unfolding prev leave_next
  prev-at_end k v o pr =
      ap (λ i. find_prev_entry c (state i k v o false pos_cur_forward pr))
        (to_last_lem c total w ∙ last_place c gs contents)

  pub next-reaches :
      (s : Iterator) (p : Cursor)
      → Stands combine gs s p
      → Reached combine gs (next c s) (move c.cmp (rows combine gs) call_next p)
  unfolding move next next_user_key rows at_first flat flat_back ahead onto
  next-reaches s p (at_group d g a v i ps o pr q h cl sp) = next-Spot d g a v i ps o pr q h cl sp
  next-reaches s p (at_end k v o pr cl) =
      find_next_entry-reaches c combine assoc total agree gs (onto gs []) [] k v o false
        pos_cur_forward pr cl (Cut-end c combine assoc total agree gs gs [] so)
        (onto-end gs [] gs refl)
  next-reaches s p (at_start k v o pr cl) = Reached-by combine gs _ _ _ (next-at_start k v o pr) (
      find_next_entry-reaches c combine assoc total agree gs [] gs k v o false pos_cur_reverse pr cl
        so refl)

  pub prev-reaches :
      (s : Iterator) (p : Cursor)
      → Stands combine gs s p
      → Reached combine gs (prev c s) (move c.cmp (rows combine gs) call_prev p)
  unfolding move prev prev_user_key rows at_last flat flat_back behind onto
  prev-reaches s p (at_group d g a v i ps o pr q h cl sp) = prev-Spot d g a v i ps o pr q h cl sp
  prev-reaches s p (at_start k v o pr cl) =
      find_prev_entry-reaches c combine assoc total agree gs [] gs k v o false pos_cur_reverse pr cl
        so refl
  prev-reaches s p (at_end k v o pr cl) = Reached-by combine gs _ _ _ (prev-at_end k v o pr) (
      rw (← last_rows combine gs) (
        find_prev_entry-reaches c combine assoc total agree gs (onto gs []) [] k v o false
          pos_cur_forward pr cl (Cut-end c combine assoc total agree gs gs [] so)
          (onto-end gs [] gs refl)))
