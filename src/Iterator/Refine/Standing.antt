-- ===== src/Iterator/Refine/Standing.antt =====
-- How a state of Iterator (iterator.go) stands for a cursor over the rows.
use pebble.Prelude.{ℕ, ◌∙◌, ◌≡◌, refl, Bool, true, false, Option, none, some, List, ◌∷◌, ◌++◌}
use pebble.Prelude.Outcome.{Outcome, ok}
use pebble.Compaction.Iter.{Entry, Closer}
use pebble.Iterator.Internal.{Position, nowhere, on, ahead, behind, onto}
use pebble.Iterator.Merging.{Closes}
use pebble.Iterator.Search.{IterPos, pos_cur_forward, pos_next, pos_prev, pos_cur_reverse, Iterator}
use pebble.Iterator.Calls.{seen}
use pebble.Iterator.Rows.{Group, Cursor, before_first, after_last, at_row, resolve, rows, shown}
use pebble.Iterator.Groups.{flat, flat_back}

-- A state without an error, out of prefix iteration.
abbrev pub state :
    Position Entry → List ℕ → List ℕ → Option Closer → Bool → IterPos → List ℕ → Iterator
state i k v o b ps pr = record {
  iter = i;
  err = none;
  key = k;
  value = v;
  value_closer = o;
  valid = b;
  pos = ps;
  has_prefix = false;
  prefix = pr;
}

-- The internal iterator while the user is at a group: within the group, at the end of it or in
-- front of it.
pub data Spot (d : List Group) (g : Group) (a : List Group)
    : Position Entry → IterPos → Type 0 where
  within :
      (xs : List Entry) (e : Entry) (ys : List Entry)
      → g.1 ≡ xs ++ e ∷ ys
      → Spot d g a (on (onto xs (flat_back d)) e (ys ++ flat a)) pos_cur_forward
  beyond : Spot d g a (ahead (flat_back (g ∷ d)) (flat a)) pos_next
  in_front : Spot d g a (behind (flat_back d) (flat (g ∷ a))) pos_prev

module _ (combine : List (List ℕ) → List ℕ) (gs : List Group) where
  pub data Stands : Iterator → Cursor → Type 0 where
    at_group :
        (d : List Group) (g : Group) (a : List Group) (v : List ℕ) (i : Position Entry)
        (ps : IterPos) (o : Option Closer) (pr : List ℕ)
        → onto d (g ∷ a) ≡ gs
        → resolve combine (g.1) ≡ some v
        → Closes o
        → Spot d g a i ps
        → Stands (state i (g.0) v o true ps pr) (at_row (rows combine d) (g.0, v) (rows combine a))
    at_end :
        (k v : List ℕ) (o : Option Closer) (pr : List ℕ)
        → Closes o
        → Stands (state nowhere k v o false pos_cur_forward pr) after_last
    at_start :
        (k v : List ℕ) (o : Option Closer) (pr : List ℕ)
        → Closes o
        → Stands (state nowhere k v o false pos_cur_reverse pr) before_first

  -- The call returns, in a state that stands for the cursor, and says whether that is at a row.
  pub record Reached (r : Outcome (Bool × Iterator)) (p : Cursor) : Type 0 where
    pub now : Iterator
    pub returned : r ≡ ok (now.valid, now)
    pub stands : Stands now p

  -- Such a state shows the row of the cursor, and no error.
  pub Stands-seen : (s : Iterator) (p : Cursor) → Stands s p → seen (s.valid, s) ≡ shown p
  unfolding seen shown
  Stands-seen s p (at_group d g a v i ps o pr e r h w) = refl
  Stands-seen s p (at_end k v o pr h) = refl
  Stands-seen s p (at_start k v o pr h) = refl

  pub Reached-by :
      (r r' : Outcome (Bool × Iterator)) (p : Cursor) → r ≡ r' → Reached r' p → Reached r p
  Reached-by r r' p h t = record { now = t.now; returned = h ∙ t.returned; stands = t.stands }

  pub Stands-Closes : (s : Iterator) (p : Cursor) → Stands s p → Closes s.value_closer
  Stands-Closes s p (at_group d g a v i ps o pr e r h w) = h
  Stands-Closes s p (at_end k v o pr h) = h
  Stands-Closes s p (at_start k v o pr h) = h
