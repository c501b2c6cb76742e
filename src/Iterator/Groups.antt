-- ===== src/Iterator/Groups.antt =====
-- The contents of an internal iterator as the concatenation of the entries of each user key, for
-- the proofs about iterator.go.
use pebble.Prelude.{
  ℕ, ◌<◌, ◌≡◌, refl, sym, ◌∙◌, ap, inl, inr, true, false, List, [], ◌∷◌, ◌++◌, All, All-map,
  All-zip, Bool-cases, arith,
}
use mathlib.Core.Path.{subst}
use pebble.Key.{IsCompare, seq_num}
use pebble.Compaction.Iter.{Entry, is_eq}
use pebble.Iterator.Internal.{onto}
use pebble.Iterator.Search.{Config}
use pebble.Iterator.Calls.{entry_key}
use pebble.Iterator.Rows.{Group, kind_of, add_entry, groups, Precedes, IsOrdered, IsReadable}
use Prim.Native.Nat.{Ordering}

module _ {A : Type 0} where
  pub onto-append : (xs ys l : List A) → onto (xs ++ ys) l ≡ onto ys (onto xs l)
  unfolding onto
  onto-append [] ys l = refl
  onto-append (x ∷ xs) ys l = onto-append xs ys (x ∷ l)

pub All-append_left : {A : Type 0} (P : A → Type 0) (xs ys : List A) → All P (xs ++ ys) → All P xs
All-append_left P [] ys a = tt
All-append_left P (x ∷ xs) ys a = (a.0, All-append_left P xs ys (a.1))

-- The entries of groups, in order; and those of groups nearest first, nearest first.
unfoldable pub flat : List Group → List Entry
flat [] = []
flat (g ∷ gs) = g.1 ++ flat gs

unfoldable pub flat_back : List Group → List Entry
unfolding onto
flat_back [] = []
flat_back (g ∷ gs) = onto (g.1) (flat_back gs)

pub flat_back-onto : (a d : List Group) → flat_back (onto a d) ≡ onto (flat a) (flat_back d)
unfolding flat flat_back onto
flat_back-onto [] d = refl
flat_back-onto (g ∷ a) d = flat_back-onto a (g ∷ d) ∙ sym (onto-append (g.1) (flat a) (flat_back d))

abbrev pub Descending : List Entry → Type 0
Descending [] = Unit {0}
Descending (e ∷ es) = All (λ f. seq_num (f.0) < seq_num (e.0)) es × Descending es

abbrev pub NonEmpty : List Entry → Type 0
NonEmpty [] = ⊥
NonEmpty (e ∷ es) = Unit {0}

module _ {V : Type 0} (c : Config V) where
  pub record IsGroup (g : Group) : Type 0 where
    pub inhabited : NonEmpty (g.1)
    pub keyed : All (λ e. entry_key e ≡ g.0) (g.1)
    pub descending : Descending (g.1)
    pub readable : All (λ e. IsReadable c (kind_of e)) (g.1)

  -- Groups by ascending user key.
  abbrev pub Sorted : List Group → Type 0
  Sorted [] = Unit {0}
  Sorted (g ∷ gs) = IsGroup g × All (λ h. c.cmp (g.0) (h.0) ≡ Ordering.lt) gs × Sorted gs

  -- The groups before a cut, nearest first, and those after it.
  abbrev pub Cut : List Group → List Group → Type 0
  Cut [] a = Sorted a
  Cut (g ∷ d) a = Cut d (g ∷ a)

  pub Cut-Sorted : (d a : List Group) → Cut d a → Sorted a
  Cut-Sorted [] a h = h
  Cut-Sorted (g ∷ d) a h = (Cut-Sorted d (g ∷ a) h).2

  pub flat-add_entry : (e : Entry) (gs : List Group) → flat (add_entry c.cmp e gs) ≡ e ∷ flat gs
  unfolding flat add_entry
  flat-add_entry e [] = refl
  flat-add_entry e ((u, es) ∷ gs) = elim (Bool-cases (is_eq (c.cmp (entry_key e) u))) [
    | inl h ↦ rw (h, flat) refl
    | inr h ↦ rw (h, flat) refl
  ]

  -- Nothing is lost in the groups.
  pub flat-groups : (es : List Entry) → flat (groups c.cmp es) ≡ es
  unfolding groups flat
  flat-groups [] = refl
  flat-groups (e ∷ es) = flat-add_entry e (groups c.cmp es) ∙ ap (λ r. e ∷ r) (flat-groups es)

  module _ (total : IsCompare c.cmp) where
    eq_of_is_eq : (u w : List ℕ) → is_eq (c.cmp u w) ≡ true → u ≡ w
    eq_of_is_eq u w h = ground (arith, total.eq_of u w)

    Precedes-newer :
        (e f : Entry) (u : List ℕ)
        → entry_key e ≡ u
        → entry_key f ≡ u
        → Precedes c e f
        → seq_num (f.0) < seq_num (e.0)
    Precedes-newer e f u p q (inl l) = absurd (cc (total.eq_refl u))
    Precedes-newer e f u p q (inr m) = m.1

    Precedes-lt :
        (e f : Entry) (u : List ℕ)
        → is_eq (c.cmp (entry_key e) u) ≡ false
        → entry_key f ≡ u
        → Precedes c e f
        → c.cmp (entry_key e) u ≡ Ordering.lt
    Precedes-lt e f u n q (inl l) = subst (λ k. c.cmp (entry_key e) k ≡ Ordering.lt) q l
    Precedes-lt e f u n q (inr m) = absurd (cc (total.eq_refl u))

    first_lt :
        (e : Entry) (g : Group) (r : List Entry)
        → IsGroup g
        → is_eq (c.cmp (entry_key e) (g.0)) ≡ false
        → All (Precedes c e) (g.1 ++ r)
        → c.cmp (entry_key e) (g.0) ≡ Ordering.lt
    first_lt e (u, []) r ok n a = absurd ok.inhabited
    first_lt e (u, f ∷ es) r ok n a = Precedes-lt e f u n (ok.keyed.0) (a.0)

    singleton-IsGroup : (e : Entry) → IsReadable c (kind_of e) → IsGroup (entry_key e, e ∷ [])
    singleton-IsGroup e k = record {
      inhabited = tt;
      keyed = (refl, tt);
      descending = (tt, tt);
      readable = (k, tt);
    }

    cons-IsGroup :
        (e : Entry) (g : Group) (r : List Entry)
        → IsReadable c (kind_of e)
        → entry_key e ≡ g.0
        → All (Precedes c e) (g.1 ++ r)
        → IsGroup g
        → IsGroup (g.0, e ∷ g.1)
    cons-IsGroup e (u, es) r k p a ok = record {
      inhabited = tt;
      keyed = (p, ok.keyed);
      descending = (
        All-zip es (λ f q m. Precedes-newer e f u p q m) ok.keyed
            (All-append_left (Precedes c e) es r a),
        ok.descending,
      );
      readable = (k, ok.readable);
    }

    add_entry-Sorted :
        (e : Entry) (gs : List Group)
        → IsReadable c (kind_of e)
        → All (Precedes c e) (flat gs)
        → Sorted gs
        → Sorted (add_entry c.cmp e gs)
    unfolding add_entry
    add_entry-Sorted e [] k a so = (singleton-IsGroup e k, tt, tt)
    add_entry-Sorted e ((u, es) ∷ gs) k a (ok, above, so) =
        elim (Bool-cases (is_eq (c.cmp (entry_key e) u))) [
          | inl h ↦
              rw (h, Sorted)
                (
                  cons-IsGroup e (u, es) (flat gs) k (eq_of_is_eq (entry_key e) u h)
                      (unfold flat in a) ok,
                  above,
                  so,
                )
          | inr h ↦
              let l = first_lt e (u, es) (flat gs) ok h (unfold flat in a) in
              rw (h, Sorted)
                (
                  singleton-IsGroup e k,
                  (l, All-map gs (λ x m. total.lt_trans (entry_key e) u (x.0) l m) above),
                  (ok, above, so),
                )
        ]

    -- The groups of ordered entries are as they should be.
    pub groups-Sorted :
        (es : List Entry)
        → IsOrdered c es
        → All (λ e. IsReadable c (kind_of e)) es
        → Sorted (groups c.cmp es)
    unfolding groups
    groups-Sorted [] o k = tt
    groups-Sorted (e ∷ es) (a, o) (k, ks) =
        add_entry-Sorted e (groups c.cmp es) k (subst (All (Precedes c e)) (sym (flat-groups es)) a)
          (groups-Sorted es o ks)
