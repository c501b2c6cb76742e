-- ===== src/Iterator/Refine/Operands.antt =====
-- mergeNext of iterator.go collects the operands of one user key.
use pebble.Prelude.{ℕ, ◌≡◌, refl, sym, ◌∙◌, ap, true, none, List, [], ◌∷◌, ◌++◌, All, ◌⊎◌, inl, inr}
use mathlib.Core.List.{append_assoc}
use pebble.Key.{IsCompare}
use pebble.Compaction.Iter.{Entry, value_of, is_eq}
use pebble.Iterator.Internal.{Position, on, ahead, onto}
use pebble.Iterator.Merging.{IsAssociative}
use pebble.Iterator.Search.{
  IterPos, pos_cur_forward, pos_next, Config, KindCase, deletion, set_value, merge_operand, other,
  merge_older_entry, merge_loop,
}
use pebble.Iterator.Calls.{entry_key}
use pebble.Iterator.Rows.{kind_of, older, IsReadable}
use pebble.Iterator.Skip.{Other, equal_same, equal_other}
use pebble.Iterator.Refine.Standing.{state}

-- Where mergeNext leaves the internal iterator: at an entry that is not newer than `e`, or past the
-- user key.
pub data Landed (l : List Entry) (e : Entry) (ys r : List Entry)
    : Position Entry → IterPos → Type 0 where
  landed_within :
      (xs : List Entry) (f : Entry) (zs : List Entry)
      → ys ≡ xs ++ f ∷ zs
      → Landed l e ys r (on (onto xs (e ∷ l)) f (zs ++ r)) pos_cur_forward
  landed_past : Landed l e ys r (ahead (onto ys (e ∷ l)) r) pos_next

Landed-cons :
    (l : List Entry) (e y : Entry) (ys r : List Entry) (i : Position Entry) (ps : IterPos)
    → Landed (e ∷ l) y ys r i ps
    → Landed l e (y ∷ ys) r i ps
unfolding onto
Landed-cons l e y ys r i ps (landed_within xs f zs h) =
    landed_within (y ∷ xs) f zs (ap (λ t. y ∷ t) h)
Landed-cons l e y ys r i ps landed_past = landed_past

-- The kinds that iterators read.
pub Readable-cases :
    {V : Type 0} (c : Config V) (k : KindCase)
    → IsReadable c k
    → (k ≡ deletion) ⊎ ((k ≡ set_value) ⊎ (k ≡ merge_operand))
Readable-cases c deletion h = inl refl
Readable-cases c set_value h = inr (inl refl)
Readable-cases c merge_operand h = inr (inr refl)
Readable-cases c (other k) h = absurd h

pub older-deletion : (y : Entry) (ys : List Entry) → kind_of y ≡ deletion → older (y ∷ ys) ≡ []
unfolding older
older-deletion y ys k = rw (k, older) refl

pub older-set : (y : Entry) (ys : List Entry) → kind_of y ≡ set_value → older (y ∷ ys) ≡ y.1 ∷ []
unfolding older
older-set y ys k = rw (k, older) refl

pub older-merge :
    (y : Entry) (ys : List Entry)
    → kind_of y ≡ merge_operand
    → older (y ∷ ys) ≡ older ys ++ y.1 ∷ []
unfolding older
older-merge y ys k = rw (k, older) refl

module _ {V : Type 0} (c : Config V) (combine : List (List ℕ) → List ℕ)
    (assoc : IsAssociative c.merger combine) (total : IsCompare c.cmp)
    (agree : (a b : List ℕ) → c.equal a b ≡ is_eq (c.cmp a b)) where
  -- mergeNext returns a value merger that has the older operands in front of its own.
  pub record Collected (l : List Entry) (e : Entry) (ys r : List Entry) (m : V) (t : List (List ℕ))
      (i0 : Position Entry) (u v : List ℕ) (pr : List ℕ) : Type 0 where
    pub merger : V
    pub spot : Position Entry
    pub pos : IterPos
    pub returned :
        merge_loop c l e (ys ++ r) m (state i0 u v none true pos_cur_forward pr)
        ≡ (merger, state spot u v none true pos pr)
    pub collected : assoc.Gathered merger (older ys ++ t)
    pub landed : Landed l e ys r spot pos

  loop-Other :
      (l : List Entry) (e : Entry) (r : List Entry) (m : V) (i0 : Position Entry) (u v pr : List ℕ)
      → Other u r
      → merge_loop c l e r m (state i0 u v none true pos_cur_forward pr)
        ≡ (m, state (ahead (e ∷ l) r) u v none true pos_next pr)
  unfolding merge_loop ahead
  loop-Other l e [] m i0 u v pr o = refl
  loop-Other l e (f ∷ r) m i0 u v pr o =
      rw (equal_other c total agree u (entry_key f) (λ p. o (sym p)), merge_loop) refl

  module _ (l : List Entry) (e y : Entry) (r : List Entry) (m : V) (i0 : Position Entry)
      (u v pr : List ℕ) (same : entry_key y ≡ u) where
    loop_deletion :
        kind_of y ≡ deletion
        → merge_loop c l e (y ∷ r) m (state i0 u v none true pos_cur_forward pr)
          ≡ (m, state (on (e ∷ l) y r) u v none true pos_cur_forward pr)
    unfolding merge_loop kind_of
    loop_deletion k =
        rw (equal_same c total agree u (entry_key y) (sym same), merge_loop)
          (rw (k, merge_loop) refl)

    loop_set :
        (w : V)
        → kind_of y ≡ set_value
        → c.merger.merge_older m (y.1) ≡ value_of w
        → merge_loop c l e (y ∷ r) m (state i0 u v none true pos_cur_forward pr)
          ≡ (w, state (on (e ∷ l) y r) u v none true pos_cur_forward pr)
    unfolding merge_loop kind_of merge_older_entry
    loop_set w k h =
        rw (equal_same c total agree u (entry_key y) (sym same), merge_loop)
          (rw (k, merge_loop) (rw (h, merge_older_entry) refl))

    loop_merge :
        (w : V)
        → kind_of y ≡ merge_operand
        → c.merger.merge_older m (y.1) ≡ value_of w
        → merge_loop c l e (y ∷ r) m (state i0 u v none true pos_cur_forward pr)
          ≡ merge_loop c (e ∷ l) y r w (state (on (e ∷ l) y r) u v none true pos_cur_forward pr)
    unfolding merge_loop kind_of
    loop_merge w k h =
        rw (equal_same c total agree u (entry_key y) (sym same), merge_loop)
          (rw (k, merge_loop) (rw (h, merge_loop) refl))

  pub merge_loop-collects :
      (l : List Entry) (e : Entry) (ys r : List Entry) (m : V) (t : List (List ℕ))
      (i0 : Position Entry) (u v pr : List ℕ)
      → assoc.Gathered m t
      → All (λ f. entry_key f ≡ u) ys
      → All (λ f. IsReadable c (kind_of f)) ys
      → Other u r
      → Collected l e ys r m t i0 u v pr
  merge_loop-collects l e [] r m t i0 u v pr ga ks rs o = record {
    merger = m;
    spot = ahead (e ∷ l) r;
    pos = pos_next;
    returned = loop-Other l e r m i0 u v pr o;
    collected = unfold older in ga;
    landed = unfold onto in landed_past;
  }
  merge_loop-collects l e (y ∷ ys) r m t i0 u v pr ga (k, ks) (h, hs) o =
      elim (Readable-cases c (kind_of y) h) [
        | inl del ↦ record {
          merger = m;
          spot = on (e ∷ l) y (ys ++ r);
          pos = pos_cur_forward;
          returned = loop_deletion l e y (ys ++ r) m i0 u v pr k del;
          collected = rw (older-deletion y ys del) ga;
          landed = unfold onto in landed_within [] y ys refl;
        }
        | inr (inl set) ↦
            let (w, q, ops) = assoc.older_ok m t (y.1) ga in
            record {
              merger = w;
              spot = on (e ∷ l) y (ys ++ r);
              pos = pos_cur_forward;
              returned = loop_set l e y (ys ++ r) m i0 u v pr k w set q;
              collected = rw (older-set y ys set) ops;
              landed = unfold onto in landed_within [] y ys refl;
            }
        | inr (inr merge) ↦
            let (w, q, ops) = assoc.older_ok m t (y.1) ga in
            let rest =
              merge_loop-collects (e ∷ l) y ys r w (y.1 ∷ t) (on (e ∷ l) y (ys ++ r)) u v pr ops ks
                hs o in
            record {
              merger = rest.merger;
              spot = rest.spot;
              pos = rest.pos;
              returned = loop_merge l e y (ys ++ r) m i0 u v pr k w merge q ∙ rest.returned;
              collected =
                  rw (older-merge y ys merge, append_assoc (older ys) (y.1 ∷ []) t) rest.collected;
              landed = Landed-cons l e y ys r rest.spot rest.pos rest.landed;
            }
      ]
