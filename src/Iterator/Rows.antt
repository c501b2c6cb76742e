-- ===== src/Iterator/Rows.antt =====
-- What a user of an Iterator (iterator.go) is promised: a cursor over the rows of the contents, one
-- for each user key that has a value.
use pebble.Prelude.{ℕ, ◌<◌, ◌≡◌, ◌⊎◌, true, false, Option, none, some, List, [], ◌∷◌, ◌++◌, All}
use pebble.Key.{Compare, kind, seq_num, is_lt}
use pebble.Compaction.Iter.{Entry, is_eq}
use pebble.Iterator.Internal.{onto, cut}
use pebble.Iterator.Search.{Config, KindCase, deletion, set_value, merge_operand, other, kind_case}
use pebble.Iterator.Calls.{
  Call, call_first, call_last, call_next, call_prev, call_seek_ge, call_seek_lt, Seen, entry_key,
}
use Prim.Native.Nat.{Ordering}

-- A user key and its entries, the newest first.
abbrev pub Group : Type 0
Group = List ℕ × List Entry

abbrev pub Row : Type 0
Row = List ℕ × List ℕ

abbrev pub group_key : Group → List ℕ
group_key g = g.0

abbrev pub row_key : Row → List ℕ
row_key x = x.0

unfoldable pub kind_of : Entry → KindCase
unfolding kind_case kind
kind_of e = kind_case (kind (e.0))

-- The operands that a merge on top of the entries gets from them, the oldest first.
unfoldable pub older : List Entry → List (List ℕ)
unfolding kind_of
older [] = []
older (e ∷ es) = elim (kind_of e) [
  | deletion ↦ []
  | set_value ↦ e.1 ∷ []
  | merge_operand ↦ older es ++ e.1 ∷ []
  | other k ↦ []
]

module _ (combine : List (List ℕ) → List ℕ) where
  -- The value of a user key.
  unfoldable pub resolve : List Entry → Option (List ℕ)
  unfolding older kind_of
  resolve [] = none
  resolve (e ∷ es) = elim (kind_of e) [
    | deletion ↦ none
    | set_value ↦ some (e.1)
    | merge_operand ↦ some (combine (older es ++ e.1 ∷ []))
    | other k ↦ none
  ]

  unfoldable pub rows : List Group → List Row
  unfolding resolve
  rows [] = []
  rows (g ∷ gs) = elim (resolve (g.1)) [ none ↦ rows gs | some v ↦ (g.0, v) ∷ rows gs ]

-- The entries by user key.
unfoldable pub add_entry : Compare → Entry → List Group → List Group
add_entry cmp e [] = (entry_key e, e ∷ []) ∷ []
add_entry cmp e ((u, es) ∷ gs) = elim (is_eq (cmp (entry_key e) u)) [
  | true ↦ (u, e ∷ es) ∷ gs
  | false ↦ (entry_key e, e ∷ []) ∷ (u, es) ∷ gs
]

unfoldable pub groups : Compare → List Entry → List Group
unfolding add_entry
groups cmp [] = []
groups cmp (e ∷ es) = add_entry cmp e (groups cmp es)

unfoldable pub view : {V : Type 0} → (List (List ℕ) → List ℕ) → Config V → List Row
unfolding rows groups
view combine c = rows combine (groups c.cmp c.contents)

-- A cursor over rows: before the first, at one with those before, the nearest first, and those
-- after it, or after the last.
pub data Cursor : Type 0 where
  before_first after_last : Cursor
  at_row : List Row → Row → List Row → Cursor

unfoldable pub at_first : List Row → List Row → Cursor
at_first l [] = after_last
at_first l (x ∷ r) = at_row l x r

unfoldable pub at_last : List Row → List Row → Cursor
at_last [] r = before_first
at_last (x ∷ l) r = at_row l x r

unfoldable pub move : Compare → List Row → Call → Cursor → Cursor
unfolding at_first at_last onto cut
move cmp all call_first p = at_first [] all
move cmp all call_last p = at_last (onto all []) []
move cmp all call_next before_first = at_first [] all
move cmp all call_next (at_row l x r) = at_first (x ∷ l) r
move cmp all call_next after_last = after_last
move cmp all call_prev before_first = before_first
move cmp all call_prev (at_row l x r) = at_last l (x ∷ r)
move cmp all call_prev after_last = at_last (onto all []) []
move cmp all (call_seek_ge key) p = let (l, r) = cut cmp row_key key [] all in at_first l r
move cmp all (call_seek_lt key) p = let (l, r) = cut cmp row_key key [] all in at_last l r

unfoldable pub shown : Cursor → Seen
shown before_first = (false, none, none)
shown after_last = (false, none, none)
shown (at_row l x r) = (true, some x, none)

unfoldable pub moves : Compare → List Row → List Call → Cursor → List Seen
unfolding move shown
moves cmp all [] p = []
moves cmp all (k ∷ ks) p = let q = move cmp all k p in shown q ∷ moves cmp all ks q

module _ {V : Type 0} (c : Config V) where
  -- The entry belongs in front of the other one.
  abbrev pub Precedes : Entry → Entry → Type 0
  Precedes e f =
      (c.cmp (entry_key e) (entry_key f) ≡ Ordering.lt)
      ⊎ ((entry_key e ≡ entry_key f) × (seq_num (f.0) < seq_num (e.0)))

  abbrev pub IsOrdered : List Entry → Type 0
  IsOrdered [] = Unit {0}
  IsOrdered (e ∷ es) = All (Precedes e) es × IsOrdered es

  abbrev pub AboveLower : Option (List ℕ) → List ℕ → Type 0
  AboveLower none u = Unit {0}
  AboveLower (some b) u = is_lt (c.cmp u b) ≡ false

  abbrev pub BelowUpper : Option (List ℕ) → List ℕ → Type 0
  BelowUpper none u = Unit {0}
  BelowUpper (some b) u = c.cmp u b ≡ Ordering.lt

  abbrev pub IsWithin : List ℕ → Type 0
  IsWithin u = AboveLower c.lower u × BelowUpper c.upper u

  -- A kind that iterators read.
  abbrev pub IsReadable : KindCase → Type 0
  IsReadable (other k) = ⊥
  IsReadable _ = Unit {0}

  -- What the internal iterator promises of its entries.
  pub record IsContents : Type 0 where
    pub ordered : IsOrdered c.contents
    pub readable : All (λ e. IsReadable (kind_of e)) c.contents
    pub within : All (λ e. IsWithin (entry_key e)) c.contents
