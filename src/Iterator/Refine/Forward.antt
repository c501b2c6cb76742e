-- ===== src/Iterator/Refine/Forward.antt =====
-- findNextEntry of iterator.go stops at the next user key that has a value.
use pebble.Prelude.{
  ℕ, zero, suc, ◌<◌, ◌≡◌, refl, ◌∙◌, ap, true, false, Option, none, some, List, [], ◌∷◌, ◌++◌, inl,
  inr, length, length-append, arith,
}
use mathlib.Core.Path.{subst}
use pebble.Prelude.Outcome.{ok}
use pebble.Key.{IsCompare}
use pebble.Compaction.Iter.{Entry, Closer, is_eq}
use pebble.Iterator.Internal.{Position, nowhere, on, ahead, onto}
use pebble.Iterator.Merging.{IsAssociative, Closes}
use pebble.Iterator.Search.{
  IterPos, pos_cur_forward, Config, deletion, set_value, merge_operand, find_next_loop,
}
use pebble.Iterator.Calls.{entry_key}
use pebble.Iterator.Rows.{Group, kind_of, older, resolve, rows, at_first}
use pebble.Iterator.Groups.{flat, flat_back, Sorted, Cut, Cut-Sorted}
use pebble.Iterator.Skip.{skip_forward-past}
use pebble.Iterator.Refine.Standing.{state, Spot, within, at_group, at_end, Reached}
use pebble.Iterator.Refine.Operands.{Readable-cases, merge_loop-collects}
use pebble.Iterator.Refine.Neighbours.{Other-flat}
use pebble.Iterator.Refine.Rounds.{
  round_deletion, round_set, round_merge, Landed-Spot, rows-none, rows-some, resolve-deletion,
  resolve-set, resolve-merge,
}

module _ {V : Type 0} (c : Config V) (combine : List (List ℕ) → List ℕ)
    (assoc : IsAssociative c.merger combine) (total : IsCompare c.cmp)
    (agree : (a b : List ℕ) → c.equal a b ≡ is_eq (c.cmp a b)) (gs : List Group) where
  -- The loop, at the first entry of a group.
  abbrev pub Finds : ℕ → List Group → List Group → List ℕ → List ℕ → List ℕ → Type 0
  Finds n d a k v pr =
      Reached combine gs
        (find_next_loop c n
          (state (ahead (flat_back d) (flat a)) k v none false pos_cur_forward pr))
        (at_first (rows combine d) (rows combine a))

  find_next-live :
      (n : ℕ) (d : List Group) (g : Group) (a : List Group) (x : List ℕ) (i : Position Entry)
      (ps : IterPos) (o : Option Closer) (k v pr : List ℕ)
      → onto d (g ∷ a) ≡ gs
      → resolve combine (g.1) ≡ some x
      → Closes o
      → Spot d g a i ps
      → find_next_loop c n
          (state (ahead (flat_back d) (flat (g ∷ a))) k v none false pos_cur_forward pr)
        ≡ ok (true, state i (g.0) x o true ps pr)
      → Finds n d (g ∷ a) k v pr
  unfolding at_first
  find_next-live n d g a x i ps o k v pr q h cl sp z = record {
    now = state i (g.0) x o true ps pr;
    returned = z;
    stands = rw (rows-some combine g a x h, at_first) (at_group d g a x i ps o pr q h cl sp);
  }

  find_next-merge :
      (n : ℕ) (d : List Group) (e : Entry) (ys : List Entry) (a : List Group) (k v pr : List ℕ)
      → Sorted c ((entry_key e, e ∷ ys) ∷ a)
      → onto d ((entry_key e, e ∷ ys) ∷ a) ≡ gs
      → kind_of e ≡ merge_operand
      → Finds (suc n) d ((entry_key e, e ∷ ys) ∷ a) k v pr
  unfolding flat ahead
  find_next-merge n d e ys a k v pr so q h =
      let (ok_g, l, so') = so in
      let (m, p, ops) = assoc.merge_ok k (e.1) in
      let at = on (flat_back d) e (ys ++ flat a) in
      let t =
        merge_loop-collects c combine assoc total agree (flat_back d) e ys (flat a) m (e.1 ∷ []) at
          (entry_key e) v pr ops (ok_g.keyed.1) (ok_g.readable.1)
          (Other-flat c total (entry_key e, e ∷ ys) a so) in
      let (o, f, cl) = assoc.finish_ok t.merger (older ys ++ e.1 ∷ []) t.collected in
      find_next-live (suc n) d (entry_key e, e ∷ ys) a (combine (older ys ++ e.1 ∷ [])) t.spot t.pos
        o k v pr q (resolve-merge combine e ys h) cl
        (Landed-Spot d (entry_key e) e ys a t.spot t.pos t.landed)
        (round_merge c (flat_back d) e (ys ++ flat a) k v pr n m t.merger t.spot t.pos
          (combine (older ys ++ e.1 ∷ [])) o h p t.returned f)

  find_next-set :
      (n : ℕ) (d : List Group) (e : Entry) (ys : List Entry) (a : List Group) (k v pr : List ℕ)
      → onto d ((entry_key e, e ∷ ys) ∷ a) ≡ gs
      → kind_of e ≡ set_value
      → Finds (suc n) d ((entry_key e, e ∷ ys) ∷ a) k v pr
  unfolding flat ahead onto
  find_next-set n d e ys a k v pr q h =
      find_next-live (suc n) d (entry_key e, e ∷ ys) a (e.1) (on (flat_back d) e (ys ++ flat a))
        pos_cur_forward none k v pr q (resolve-set combine e ys h) tt (within [] e ys refl)
        (round_set c (flat_back d) e (ys ++ flat a) k v pr n h)

  -- Passing a deleted user key.
  pass_deletion :
      (n : ℕ) (d : List Group) (e : Entry) (ys : List Entry) (a : List Group) (k v pr : List ℕ)
      → Sorted c ((entry_key e, e ∷ ys) ∷ a)
      → kind_of e ≡ deletion
      → find_next_loop c (suc n) (
          state
            (ahead (flat_back d) (flat ((entry_key e, e ∷ ys) ∷ a)))
            k
            v
            none
            false
            pos_cur_forward
            pr)
        ≡ find_next_loop c n (
            state
              (ahead (flat_back ((entry_key e, e ∷ ys) ∷ d)) (flat a))
              (entry_key e)
              v
              none
              false
              pos_cur_forward
              pr)
  unfolding flat flat_back ahead onto
  pass_deletion n d e ys a k v pr so h =
      let (ok_g, l, so') = so in
      round_deletion c (flat_back d) e (ys ++ flat a) k v pr n h
      ∙ ap (λ i. find_next_loop c n (state i (entry_key e) v none false pos_cur_forward pr))
          (skip_forward-past c total agree (entry_key e) (flat_back d) e ys (flat a) (ok_g.keyed.1)
            ok_g.descending (Other-flat c total (entry_key e, e ∷ ys) a so))

  find_next-end : (n : ℕ) (d : List Group) (k v pr : List ℕ) → Finds (suc n) d [] k v pr
  unfolding find_next_loop flat ahead rows at_first
  find_next-end n d k v pr = record {
    now = state nowhere k v none false pos_cur_forward pr;
    returned = refl;
    stands = at_end k v none pr tt;
  }

  fuel_left :
      (n : ℕ) (u : List ℕ) (e : Entry) (ys : List Entry) (a : List Group)
      → length (flat ((u, e ∷ ys) ∷ a)) < suc n
      → length (flat a) < n
  unfolding flat
  fuel_left n u e ys a h = omega (arith, length-append ys (flat a))

  find_next-deletion :
      (n : ℕ) (d : List Group) (e : Entry) (ys : List Entry) (a : List Group) (k v pr : List ℕ)
      → Sorted c ((entry_key e, e ∷ ys) ∷ a)
      → kind_of e ≡ deletion
      → Finds n ((entry_key e, e ∷ ys) ∷ d) a (entry_key e) v pr
      → Finds (suc n) d ((entry_key e, e ∷ ys) ∷ a) k v pr
  find_next-deletion n d e ys a k v pr so h rest =
      let dead = resolve-deletion combine e ys h in
      record {
        now = rest.now;
        returned = pass_deletion n d e ys a k v pr so h ∙ rest.returned;
        stands =
            rw
              (
                rows-none combine (entry_key e, e ∷ ys) a dead,
                ← rows-none combine (entry_key e, e ∷ ys) d dead,
              )
              rest.stands;
      }

  -- At a group, if the loop finds what comes after it.
  find_next-group :
      (n : ℕ) (d : List Group) (u : List ℕ) (e : Entry) (ys : List Entry) (a : List Group)
      (k v pr : List ℕ)
      → entry_key e ≡ u
      → Sorted c ((u, e ∷ ys) ∷ a)
      → onto d ((u, e ∷ ys) ∷ a) ≡ gs
      → ((k' : List ℕ) → Finds n ((u, e ∷ ys) ∷ d) a k' v pr)
      → Finds (suc n) d ((u, e ∷ ys) ∷ a) k v pr
  find_next-group n d u e ys a k v pr p =
      subst
        (λ w.
          Sorted c ((w, e ∷ ys) ∷ a)
          → onto d ((w, e ∷ ys) ∷ a) ≡ gs
          → ((k' : List ℕ) → Finds n ((w, e ∷ ys) ∷ d) a k' v pr)
          → Finds (suc n) d ((w, e ∷ ys) ∷ a) k v pr)
        p
        (λ so q rest. elim (Readable-cases c (kind_of e) (so.0.readable.0)) [
          | inl h ↦ find_next-deletion n d e ys a k v pr so h (rest (entry_key e))
          | inr (inl h) ↦ find_next-set n d e ys a k v pr q h
          | inr (inr h) ↦ find_next-merge n d e ys a k v pr so q h
        ])

  -- With fuel for the entries that are left, findNextEntry stops at the next row.
  pub find_next :
      (n : ℕ) (d a : List Group) (k v pr : List ℕ)
      → Cut c d a
      → onto d a ≡ gs
      → length (flat a) < n
      → Finds n d a k v pr
  find_next zero d a k v pr t q h = absurd (omega arith)
  find_next (suc n) d [] k v pr t q h = find_next-end n d k v pr
  find_next (suc n) d ((u, []) ∷ a) k v pr t q h =
      absurd (Cut-Sorted c d ((u, []) ∷ a) t).0.inhabited
  find_next (suc n) d ((u, e ∷ ys) ∷ a) k v pr t q h =
      let so = Cut-Sorted c d ((u, e ∷ ys) ∷ a) t in
      find_next-group n d u e ys a k v pr (so.0.keyed.0) so q (λ k'.
        find_next n ((u, e ∷ ys) ∷ d) a k' v pr t (unfold onto in q) (fuel_left n u e ys a h))
