-- ===== src/Iterator/Refine/Locate.antt =====
-- The seeks of the internal iterator and the bounds of iterator.go, in terms of user keys.
use pebble.Prelude.{
  ℕ, ◌≡◌, refl, sym, ◌∙◌, true, false, List, [], ◌∷◌, ◌++◌, All, All-map, inl, inr, Bool-cases,
  Option-cases, arith,
}
use mathlib.Core.Path.{subst}
use pebble.Key.{Compare, IsCompare, is_lt}
use pebble.Iterator.Internal.{onto, cut}
use pebble.Iterator.Search.{Config}
use pebble.Iterator.Calls.{entry_key}
use pebble.Iterator.Rows.{Group, group_key, row_key, resolve, rows}
use pebble.Iterator.Groups.{flat, flat_back, Cut, Cut-Sorted, IsGroup}
use pebble.Iterator.Refine.Rounds.{rows-none, rows-some}
use Prim.Native.Nat.{Ordering}

module _ {A : Type 0} (cmp : Compare) (user_key : A → List ℕ) (key : List ℕ) where
  abbrev pub Less : A → Type 0
  Less e = is_lt (cmp (user_key e) key) ≡ true

  abbrev pub NotLess : A → Type 0
  NotLess e = is_lt (cmp (user_key e) key) ≡ false

  cut-Less :
      (l : List A) (e : A) (r : List A)
      → Less e
      → cut cmp user_key key l (e ∷ r) ≡ cut cmp user_key key (e ∷ l) r
  unfolding cut
  cut-Less l e r h = rw (h, cut) refl

  cut_stop :
      (l : List A) (e : A) (r : List A) → NotLess e → cut cmp user_key key l (e ∷ r) ≡ (l, e ∷ r)
  unfolding cut
  cut_stop l e r h = rw (h, cut) refl

  -- All elements are less.
  cut_over :
      (l es r : List A)
      → All Less es
      → cut cmp user_key key l (es ++ r) ≡ cut cmp user_key key (onto es l) r
  unfolding onto
  cut_over l [] r h = refl
  cut_over l (e ∷ es) r (h, hs) = cut-Less l e (es ++ r) h ∙ cut_over (e ∷ l) es r hs

  pub cut_end : (l es : List A) → All Less es → cut cmp user_key key l es ≡ (onto es l, [])
  unfolding onto
  cut_end l [] h = unfold cut in refl
  cut_end l (e ∷ es) (h, hs) = cut-Less l e es h ∙ cut_end (e ∷ l) es hs

  -- No element is less.
  pub cut_start : (l es : List A) → All NotLess es → cut cmp user_key key l es ≡ (l, es)
  cut_start l [] h = unfold cut in refl
  cut_start l (e ∷ es) (h, hs) = cut_stop l e es h

module _ {V : Type 0} (c : Config V) (combine : List (List ℕ) → List ℕ) (total : IsCompare c.cmp)
    (gs : List Group) (key : List ℕ) where
  -- The groups before and from `key` on, by the entries and by the rows.
  pub record Located (d a : List Group) : Type 0 where
    pub before : List Group
    pub after : List Group
    pub entries : cut c.cmp entry_key key (flat_back d) (flat a) ≡ (flat_back before, flat after)
    pub shown :
        cut c.cmp row_key key (rows combine d) (rows combine a)
        ≡ (rows combine before, rows combine after)
    pub sorted : Cut c before after
    pub whole : onto before after ≡ gs

  NotLess_above :
      (u w : List ℕ)
      → is_lt (c.cmp u key) ≡ false
      → c.cmp u w ≡ Ordering.lt
      → is_lt (c.cmp w key) ≡ false
  NotLess_above u w h g =
      ground (arith, total.eq_of u key, total.lt_trans u w key, total.gt_of_lt u w)

  rows-NotLess :
      (a : List Group)
      → All (NotLess c.cmp group_key key) a
      → All (NotLess c.cmp row_key key) (rows combine a)
  unfolding rows
  rows-NotLess [] h = tt
  rows-NotLess (g ∷ a) (h, hs) = elim (Option-cases (resolve combine (g.1))) [
    | inl e ↦
        subst (All (NotLess c.cmp row_key key)) (sym (rows-none combine g a e)) (rows-NotLess a hs)
    | inr (v, e) ↦
        subst (All (NotLess c.cmp row_key key)) (sym (rows-some combine g a v e))
          (h, rows-NotLess a hs)
  ]

  cut-rows_less :
      (d : List Group) (g : Group) (a : List Group)
      → is_lt (c.cmp (g.0) key) ≡ true
      → cut c.cmp row_key key (rows combine d) (rows combine (g ∷ a))
        ≡ cut c.cmp row_key key (rows combine (g ∷ d)) (rows combine a)
  cut-rows_less d g a h = elim (Option-cases (resolve combine (g.1))) [
    | inl e ↦ rw (rows-none combine g a e, rows-none combine g d e) refl
    | inr (v, e) ↦
        rw (rows-some combine g a v e, rows-some combine g d v e)
          (cut-Less c.cmp row_key key (rows combine d) (g.0, v) (rows combine a) h)
  ]

  cut-flat_less :
      (d : List Group) (g : Group) (a : List Group)
      → IsGroup c g
      → is_lt (c.cmp (g.0) key) ≡ true
      → cut c.cmp entry_key key (flat_back d) (flat (g ∷ a))
        ≡ cut c.cmp entry_key key (flat_back (g ∷ d)) (flat a)
  unfolding flat flat_back
  cut-flat_less d g a t h =
      cut_over c.cmp entry_key key (flat_back d) (g.1) (flat a)
        (All-map (g.1) (λ e p. subst (λ u. is_lt (c.cmp u key) ≡ true) (sym p) h) t.keyed)

  cut-flat_stop :
      (d : List Group) (g : Group) (a : List Group)
      → IsGroup c g
      → is_lt (c.cmp (g.0) key) ≡ false
      → cut c.cmp entry_key key (flat_back d) (flat (g ∷ a)) ≡ (flat_back d, flat (g ∷ a))
  unfolding flat
  cut-flat_stop d (u, []) a t h = absurd t.inhabited
  cut-flat_stop d (u, e ∷ ys) a t h =
      cut_stop c.cmp entry_key key (flat_back d) e (ys ++ flat a)
        (subst (λ w. is_lt (c.cmp w key) ≡ false) (sym (t.keyed.0)) h)

  -- A seek finds the same place among the entries and among the rows.
  pub locate : (d a : List Group) → Cut c d a → onto d a ≡ gs → Located d a
  unfolding onto
  locate d [] t q = record {
    before = d;
    after = [];
    entries = unfold flat in cut_start c.cmp entry_key key (flat_back d) [] tt;
    shown = unfold rows in cut_start c.cmp row_key key (rows combine d) [] tt;
    sorted = t;
    whole = q;
  }
  locate d (g ∷ a) t q =
      let (ok_g, above, so) = Cut-Sorted c d (g ∷ a) t in
      elim (Bool-cases (is_lt (c.cmp (g.0) key))) [
        | inl h ↦
            let rest = locate (g ∷ d) a t q in
            record {
              before = rest.before;
              after = rest.after;
              entries = cut-flat_less d g a ok_g h ∙ rest.entries;
              shown = cut-rows_less d g a h ∙ rest.shown;
              sorted = rest.sorted;
              whole = rest.whole;
            }
        | inr h ↦ record {
          before = d;
          after = g ∷ a;
          entries = cut-flat_stop d g a ok_g h;
          shown =
              cut_start c.cmp row_key key (rows combine d) (rows combine (g ∷ a))
                (rows-NotLess (g ∷ a) (h, All-map a (λ x l. NotLess_above (g.0) (x.0) h l) above));
          sorted = t;
          whole = q;
        }
      ]
