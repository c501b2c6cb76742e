-- ===== src/Iterator/Refine/Neighbours.antt =====
-- The user keys on both sides of a group of entries, for the proofs about iterator.go.
use pebble.Prelude.{ℕ, ◌≡◌, ◌≢◌, sym, ◌∙◌, List, [], ◌∷◌, All}
use pebble.Key.{IsCompare}
use pebble.Compaction.Iter.{Entry}
use pebble.Iterator.Internal.{onto}
use pebble.Iterator.Search.{Config}
use pebble.Iterator.Calls.{entry_key}
use pebble.Iterator.Rows.{Group}
use pebble.Iterator.Groups.{flat, flat_back, NonEmpty, Sorted, Cut, Cut-Sorted}
use pebble.Iterator.Skip.{Other}
use Prim.Native.Nat.{Ordering}

Other-onto :
    (u w : List ℕ) (xs l : List Entry)
    → NonEmpty xs
    → All (λ f. entry_key f ≡ w) xs
    → w ≢ u
    → Other u (onto xs l)
unfolding onto
Other-onto u w [] l n k h = absurd n
Other-onto u w (x ∷ []) l n (k, ks) h = λ p. h (sym k ∙ p)
Other-onto u w (x ∷ y ∷ xs) l n (k, ks) h = Other-onto u w (y ∷ xs) (x ∷ l) tt ks h

module _ {V : Type 0} (c : Config V) (total : IsCompare c.cmp) where
  lt_apart : (a b : List ℕ) → c.cmp a b ≡ Ordering.lt → a ≢ b
  lt_apart a b h p = cc (total.eq_refl a)

  pub Other-flat : (g : Group) (a : List Group) → Sorted c (g ∷ a) → Other (g.0) (flat a)
  unfolding flat
  Other-flat g [] so = tt
  Other-flat g ((w, []) ∷ a) (ok, l, (ok', l', so)) = absurd ok'.inhabited
  Other-flat g ((w, f ∷ zs) ∷ a) (ok, l, (ok', l', so)) =
      λ p. lt_apart (g.0) w (l.0) (sym p ∙ ok'.keyed.0)

  pub Other-flat_back :
      (d : List Group) (g : Group) (a : List Group) → Cut c d (g ∷ a) → Other (g.0) (flat_back d)
  unfolding flat_back
  Other-flat_back [] g a t = tt
  Other-flat_back (h ∷ d) g a t =
      let (ok, l, so) = Cut-Sorted c d (h ∷ g ∷ a) t in
      Other-onto (g.0) (h.0) (h.1) (flat_back d) ok.inhabited ok.keyed (lt_apart (h.0) (g.0) (l.0))
