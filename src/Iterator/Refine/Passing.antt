-- ===== src/Iterator/Refine/Passing.antt =====
-- nextUserKey and prevUserKey of iterator.go at the places of a user key's entries where Next and
-- Prev call them.
use pebble.Prelude.{ℕ, ◌≡◌, refl, sym, ◌∙◌, ap, false, Option, List, [], ◌∷◌, ◌++◌, All, ◌==◌}
use mathlib.Core.Path.{subst}
use mathlib.Core.List.{append_assoc}
use pebble.Key.{IsCompare, seq_num}
use pebble.Compaction.Iter.{Entry, Closer, is_eq}
use pebble.Iterator.Internal.{ahead, behind, onto}
use pebble.Iterator.Search.{IterPos, Config, skip_forward, next_user_key, skip_back, prev_user_key}
use pebble.Iterator.Calls.{entry_key}
use pebble.Iterator.Rows.{Group}
use pebble.Iterator.Groups.{
  flat, flat_back, onto-append, All-append_left, Descending, Cut, Cut-Sorted,
}
use pebble.Iterator.Skip.{skip_forward-past, skip_back-past}
use pebble.Iterator.Refine.Standing.{state}
use pebble.Iterator.Refine.Neighbours.{Other-flat, Other-flat_back}

pub All-append_right : {A : Type 0} (P : A → Type 0) (xs ys : List A) → All P (xs ++ ys) → All P ys
All-append_right P [] ys a = a
All-append_right P (x ∷ xs) ys a = All-append_right P xs ys (a.1)

Descending-append_right : (xs ys : List Entry) → Descending (xs ++ ys) → Descending ys
Descending-append_right [] ys d = d
Descending-append_right (x ∷ xs) ys d = Descending-append_right xs ys (d.1)

-- A list with a last element.
pub last-split :
    {A : Type 0} (x : A) (xs : List A) → (ys : List A) × (y : A) × (x ∷ xs ≡ ys ++ y ∷ [])
last-split x [] = ([], x, refl)
last-split x (z ∷ xs) = let (ys, y, h) = last-split z xs in (x ∷ ys, y, ap (λ t. x ∷ t) h)

module _ {V : Type 0} (c : Config V) (total : IsCompare c.cmp)
    (agree : (a b : List ℕ) → c.equal a b ≡ is_eq (c.cmp a b)) where
  module _ (d : List Group) (g : Group) (a : List Group) (t : Cut c d (g ∷ a)) (xs : List Entry)
      (e : Entry) (ys : List Entry) (h : g.1 ≡ xs ++ e ∷ ys) where
    keyed : All (λ f. entry_key f ≡ g.0) (xs ++ e ∷ ys)
    keyed = subst (All (λ f. entry_key f ≡ g.0)) h (Cut-Sorted c d (g ∷ a) t).0.keyed

    pub key_within : entry_key e ≡ g.0
    key_within = (All-append_right (λ f. entry_key f ≡ g.0) xs (e ∷ ys) keyed).0

    -- From an entry of the group to the next group.
    pub skip_forward-group :
        skip_forward c (g.0) (seq_num (e.0) == 0) (onto xs (flat_back d)) e (ys ++ flat a)
        ≡ ahead (flat_back (g ∷ d)) (flat a)
    unfolding flat_back onto
    skip_forward-group =
        skip_forward-past c total agree (g.0) (onto xs (flat_back d)) e ys (flat a)
          (All-append_right (λ f. entry_key f ≡ g.0) xs (e ∷ ys) keyed).1
          (Descending-append_right xs (e ∷ ys)
            (subst Descending h (Cut-Sorted c d (g ∷ a) t).0.descending))
          (Other-flat c total g a (Cut-Sorted c d (g ∷ a) t))
        ∙ ap (λ z. ahead z (flat a))
            (sym (ap (λ z. onto z (flat_back d)) h ∙ onto-append xs (e ∷ ys) (flat_back d)))

    -- From an entry of the group back to the group before.
    pub skip_back-group :
        skip_back c (entry_key e) (onto xs (flat_back d)) e (ys ++ flat a)
        ≡ behind (flat_back d) (flat (g ∷ a))
    unfolding flat
    skip_back-group =
        ap (λ u. skip_back c u (onto xs (flat_back d)) e (ys ++ flat a)) key_within
        ∙ skip_back-past c total agree (g.0) xs (flat_back d) e (ys ++ flat a)
            (All-append_left (λ f. entry_key f ≡ g.0) xs (e ∷ ys) keyed)
            (Other-flat_back c total d g a t)
        ∙ ap (behind (flat_back d))
            (sym (ap (λ z. z ++ flat a) h ∙ append_assoc xs (e ∷ ys) (flat a)))

  -- Over a whole group, forward.
  pub next_user_key-group :
      (d : List Group) (g : Group) (a : List Group) (k v : List ℕ) (o : Option Closer)
      (ps : IterPos) (pr : List ℕ)
      → Cut c d (g ∷ a)
      → next_user_key c (state (ahead (flat_back d) (flat (g ∷ a))) k v o false ps pr)
        ≡ state (ahead (flat_back (g ∷ d)) (flat a)) (g.0) v o false ps pr
  unfolding next_user_key flat ahead onto
  next_user_key-group d (u, []) a k v o ps pr t =
      absurd (Cut-Sorted c d ((u, []) ∷ a) t).0.inhabited
  next_user_key-group d (u, e ∷ ys) a k v o ps pr t =
      ap
        (λ w.
          state (skip_forward c w (seq_num (e.0) == 0) (flat_back d) e (ys ++ flat a)) w v o false
            ps pr)
        (key_within d (u, e ∷ ys) a t [] e ys refl)
      ∙ ap (λ i. state i u v o false ps pr) (skip_forward-group d (u, e ∷ ys) a t [] e ys refl)

  -- Back over a whole group.
  pub prev_user_key-group :
      (d : List Group) (g : Group) (a : List Group) (k v : List ℕ) (o : Option Closer)
      (ps : IterPos) (pr : List ℕ)
      → Cut c d (g ∷ a)
      → (k' : List ℕ) × (prev_user_key c
            (state (behind (flat_back (g ∷ d)) (flat a)) k v o false ps pr)
          ≡ state (behind (flat_back d) (flat (g ∷ a))) k' v o false ps pr)
  unfolding prev_user_key flat_back behind onto
  prev_user_key-group d (u, []) a k v o ps pr t =
      absurd (Cut-Sorted c d ((u, []) ∷ a) t).0.inhabited
  prev_user_key-group d (u, x ∷ es) a k v o ps pr t =
      let (xs, e, h) = last-split x es in
      (
        entry_key e,
        ap (λ l. prev_user_key c (state (behind l (flat a)) k v o false ps pr))
              (ap (λ z. onto z (flat_back d)) h ∙ onto-append xs (e ∷ []) (flat_back d))
            ∙ ap (λ i. state i (entry_key e) v o false ps pr)
                (skip_back-group d (u, x ∷ es) a t xs e [] h),
      )

  -- From the last entry before a cut to the first after it, and back.
  pub next_user_key-Cut :
      (d : List Group) (g : Group) (a : List Group) (k v : List ℕ) (o : Option Closer)
      (ps : IterPos) (pr : List ℕ)
      → Cut c d (g ∷ a)
      → (k' : List ℕ) × (next_user_key c
            (state (behind (flat_back (g ∷ d)) (flat a)) k v o false ps pr)
          ≡ state (ahead (flat_back (g ∷ d)) (flat a)) k' v o false ps pr)
  unfolding next_user_key flat_back behind onto
  next_user_key-Cut d (u, []) a k v o ps pr t = absurd (Cut-Sorted c d ((u, []) ∷ a) t).0.inhabited
  next_user_key-Cut d (u, x ∷ es) a k v o ps pr t =
      let (xs, e, h) = last-split x es in
      (
        entry_key e,
        ap (λ l. next_user_key c (state (behind l (flat a)) k v o false ps pr))
              (ap (λ z. onto z (flat_back d)) h ∙ onto-append xs (e ∷ []) (flat_back d))
            ∙ ap
                (λ w.
                  state (skip_forward c w (seq_num (e.0) == 0) (onto xs (flat_back d)) e (flat a))
                    (entry_key e) v o false ps pr)
                (key_within d (u, x ∷ es) a t xs e [] h)
            ∙ ap (λ i. state i (entry_key e) v o false ps pr)
                (skip_forward-group d (u, x ∷ es) a t xs e [] h),
      )

  pub prev_user_key-Cut :
      (d : List Group) (g : Group) (a : List Group) (k v : List ℕ) (o : Option Closer)
      (ps : IterPos) (pr : List ℕ)
      → Cut c d (g ∷ a)
      → (k' : List ℕ) × (prev_user_key c
            (state (ahead (flat_back d) (flat (g ∷ a))) k v o false ps pr)
          ≡ state (behind (flat_back d) (flat (g ∷ a))) k' v o false ps pr)
  unfolding prev_user_key flat ahead onto
  prev_user_key-Cut d (u, []) a k v o ps pr t = absurd (Cut-Sorted c d ((u, []) ∷ a) t).0.inhabited
  prev_user_key-Cut d (u, e ∷ ys) a k v o ps pr t = (
    entry_key e,
    ap (λ i. state i (entry_key e) v o false ps pr)
        (skip_back-group d (u, e ∷ ys) a t [] e ys refl),
  )

  -- There is an entry at the place.
  pub flat_back-entry :
      (d : List Group) (g : Group) (a : List Group)
      → Cut c d (g ∷ a)
      → (e : Entry) × (l : List Entry) × (flat_back (g ∷ d) ≡ e ∷ l)
  unfolding flat_back onto
  flat_back-entry d (u, []) a t = absurd (Cut-Sorted c d ((u, []) ∷ a) t).0.inhabited
  flat_back-entry d (u, x ∷ es) a t =
      let (xs, e, h) = last-split x es in
      (
        e,
        onto xs (flat_back d),
        ap (λ z. onto z (flat_back d)) h ∙ onto-append xs (e ∷ []) (flat_back d),
      )

  pub flat-entry :
      (d : List Group) (g : Group) (a : List Group)
      → Cut c d (g ∷ a)
      → (e : Entry) × (r : List Entry) × (flat (g ∷ a) ≡ e ∷ r)
  unfolding flat
  flat-entry d (u, []) a t = absurd (Cut-Sorted c d ((u, []) ∷ a) t).0.inhabited
  flat-entry d (u, e ∷ ys) a t = (e, ys ++ flat a, refl)
