-- ===== src/Iterator/Refine/Steps.antt =====
-- Next and Prev of iterator.go from every state, also when they change the direction.
use pebble.Prelude.{
  ℕ, ◌≡◌, refl, sym, ◌∙◌, ap, Bool, false, Option, some, List, [], ◌∷◌, All, inl, inr, Option-cases,
}
use mathlib.Core.Path.{subst}
use pebble.Key.{IsCompare}
use pebble.Compaction.Iter.{Entry, Closer, is_eq}
use pebble.Iterator.Internal.{ahead, behind, onto}
use pebble.Iterator.Merging.{IsAssociative, Closes}
use pebble.Iterator.Search.{
  IterPos, pos_prev, Config, next_user_key, prev_user_key, find_next_entry,
}
use pebble.Iterator.Reverse.{find_prev_entry}
use pebble.Iterator.Calls.{entry_key, leave_prev, leave_next}
use pebble.Iterator.Rows.{Group, resolve, rows, at_first, at_last, IsWithin}
use pebble.Iterator.Groups.{flat, flat_back, flat_back-onto, Sorted, Cut}
use pebble.Iterator.Refine.Standing.{state, Reached}
use pebble.Iterator.Refine.Rounds.{rows-none, rows-some}
use pebble.Iterator.Refine.Bounds.{to_first_lem, to_last_lem}
use pebble.Iterator.Refine.Enter.{onto-all, find_next_entry-reaches, find_prev_entry-reaches}
use pebble.Iterator.Refine.Passing.{
  next_user_key-Cut, prev_user_key-Cut, flat_back-entry, flat-entry,
}

rows-onto :
    (combine : List (List ℕ) → List ℕ) (a d : List Group)
    → rows combine (onto a d) ≡ onto (rows combine a) (rows combine d)
unfolding onto
rows-onto combine [] d = unfold rows in refl
rows-onto combine (g ∷ a) d = elim (Option-cases (resolve combine (g.1))) [
  | inl e ↦ rows-onto combine a (g ∷ d) ∙ rw (rows-none combine g d e, rows-none combine g a e) refl
  | inr (v, e) ↦
      rows-onto combine a (g ∷ d) ∙ rw (rows-some combine g d v e, rows-some combine g a v e) refl
]

-- The last entry and the last row.
pub last_place :
    {V : Type 0} (c : Config V) (gs : List Group)
    → c.contents ≡ flat gs
    → behind (onto c.contents []) [] ≡ behind (flat_back (onto gs [])) (flat [])
unfolding flat flat_back
last_place c gs contents =
    ap (λ z. behind z []) (ap (λ z. onto z []) contents ∙ sym (flat_back-onto gs []))

pub last_rows :
    (combine : List (List ℕ) → List ℕ) (gs : List Group)
    → at_last (rows combine (onto gs [])) (rows combine []) ≡ at_last (onto (rows combine gs) []) []
unfolding rows
last_rows combine gs = ap (λ z. at_last z []) (rows-onto combine gs [])

module _ {V : Type 0} (c : Config V) where
  -- With an entry at the internal iterator, the direction changes by nextUserKey or prevUserKey.
  leave_prev-on :
      (e : Entry) (l r : List Entry) (k v : List ℕ) (o : Option Closer) (b : Bool) (pr : List ℕ)
      → leave_prev c (state (behind (e ∷ l) r) k v o b pos_prev pr)
        ≡ next_user_key c (state (behind (e ∷ l) r) k v o false pos_prev pr)
  unfolding leave_prev behind
  leave_prev-on e l r k v o b pr = refl

  leave_next-on :
      (e : Entry) (l r : List Entry) (k v : List ℕ) (o : Option Closer) (b : Bool) (ps : IterPos)
      (pr : List ℕ)
      → leave_next c (state (ahead l (e ∷ r)) k v o b ps pr)
        ≡ prev_user_key c (state (ahead l (e ∷ r)) k v o false ps pr)
  unfolding leave_next ahead
  leave_next-on e l r k v o b ps pr = refl

module _ {V : Type 0} (c : Config V) (combine : List (List ℕ) → List ℕ)
    (assoc : IsAssociative c.merger combine) (total : IsCompare c.cmp)
    (agree : (a b : List ℕ) → c.equal a b ≡ is_eq (c.cmp a b)) (gs : List Group)
    (contents : c.contents ≡ flat gs) (so : Sorted c gs)
    (w : All (λ e. IsWithin c (entry_key e)) c.contents) where
  -- From a row, when the internal iterator has come to the next group.
  pub next-row :
      (d : List Group) (g : Group) (a : List Group) (x k v : List ℕ) (o : Option Closer) (b : Bool)
      (ps : IterPos) (pr : List ℕ)
      → Cut c d (g ∷ a)
      → onto d (g ∷ a) ≡ gs
      → resolve combine (g.1) ≡ some x
      → Closes o
      → Reached combine gs
          (find_next_entry c (state (ahead (flat_back (g ∷ d)) (flat a)) k v o b ps pr))
          (at_first ((g.0, x) ∷ rows combine d) (rows combine a))
  next-row d g a x k v o b ps pr t q h cl =
      subst
        (λ l.
          Reached combine gs
            (find_next_entry c (state (ahead (flat_back (g ∷ d)) (flat a)) k v o b ps pr))
            (at_first l (rows combine a)))
        (rows-some combine g d x h)
        (find_next_entry-reaches c combine assoc total agree gs (g ∷ d) a k v o b ps pr cl t
          (unfold onto in q))

  pub prev-row :
      (d : List Group) (g : Group) (a : List Group) (x k v : List ℕ) (o : Option Closer) (b : Bool)
      (ps : IterPos) (pr : List ℕ)
      → Cut c d (g ∷ a)
      → onto d (g ∷ a) ≡ gs
      → resolve combine (g.1) ≡ some x
      → Closes o
      → Reached combine gs
          (find_prev_entry c (state (behind (flat_back d) (flat (g ∷ a))) k v o b ps pr))
          (at_last (rows combine d) ((g.0, x) ∷ rows combine a))
  prev-row d g a x k v o b ps pr t q h cl =
      subst
        (λ r.
          Reached combine gs
            (find_prev_entry c (state (behind (flat_back d) (flat (g ∷ a))) k v o b ps pr))
            (at_last (rows combine d) r))
        (rows-some combine g a x h)
        (find_prev_entry-reaches c combine assoc total agree gs d (g ∷ a) k v o b ps pr cl t q)

  pub leave_prev-front :
      (d : List Group) (g : Group) (a : List Group) (k v : List ℕ) (o : Option Closer) (b : Bool)
      (pr : List ℕ)
      → Cut c d (g ∷ a)
      → onto d (g ∷ a) ≡ gs
      → (k' : List ℕ) × (leave_prev c
            (state (behind (flat_back d) (flat (g ∷ a))) k v o b pos_prev pr)
          ≡ state (ahead (flat_back d) (flat (g ∷ a))) k' v o false pos_prev pr)
  unfolding leave_prev flat_back behind
  leave_prev-front [] g a k v o b pr t q = (
    k,
    ap (λ i. state i k v o false pos_prev pr)
        (to_first_lem c total w ∙ ap (ahead []) (contents ∙ ap flat (sym (unfold onto in q)))),
  )
  leave_prev-front (h ∷ d) g a k v o b pr t q =
      let (e, l, z) = flat_back-entry c total agree d h (g ∷ a) t in
      let (k', m) = next_user_key-Cut c total agree d h (g ∷ a) k v o pos_prev pr t in
      (
        k',
        ap (λ y. leave_prev c (state (behind y (flat (g ∷ a))) k v o b pos_prev pr)) z
            ∙ leave_prev-on c e l (flat (g ∷ a)) k v o b pr
            ∙ ap (λ y. next_user_key c (state (behind y (flat (g ∷ a))) k v o false pos_prev pr))
                (sym z)
            ∙ m,
      )

  pub leave_next-past :
      (d : List Group) (g : Group) (a : List Group) (k v : List ℕ) (o : Option Closer) (b : Bool)
      (ps : IterPos) (pr : List ℕ)
      → Cut c d (g ∷ a)
      → onto d (g ∷ a) ≡ gs
      → (k' : List ℕ) × (leave_next c (state (ahead (flat_back (g ∷ d)) (flat a)) k v o b ps pr)
          ≡ state (behind (flat_back (g ∷ d)) (flat a)) k' v o false ps pr)
  unfolding leave_next flat flat_back ahead
  leave_next-past d g [] k v o b ps pr t q = (
    k,
    ap (λ i. state i k v o false ps pr)
        (to_last_lem c total w
          ∙ ap (λ z. behind z [])
              (ap (λ z. onto z []) contents
                ∙ sym (flat_back-onto gs [])
                ∙ ap flat_back (onto-all (g ∷ d) gs (unfold onto in q)))),
  )
  leave_next-past d g (h ∷ a) k v o b ps pr t q =
      let (e, r, z) = flat-entry c total agree (g ∷ d) h a t in
      let (k', m) = prev_user_key-Cut c total agree (g ∷ d) h a k v o ps pr t in
      (
        k',
        ap (λ y. leave_next c (state (ahead (flat_back (g ∷ d)) y) k v o b ps pr)) z
            ∙ leave_next-on c e (flat_back (g ∷ d)) r k v o b ps pr
            ∙ ap (λ y. prev_user_key c (state (ahead (flat_back (g ∷ d)) y) k v o false ps pr))
                (sym z)
            ∙ m,
      )
