-- ===== src/Iterator/Compacted/Extent.antt =====
-- Rows in the order of their keys are determined by what is found of each key, for the proofs about
-- iterator.go.
use pebble.Prelude.{
  ℕ, ◌≡◌, refl, sym, ◌∙◌, ap, true, false, Option, none, some, List, [], ◌∷◌, All, All-map, inl,
  inr, Bool-cases, arith,
}
use mathlib.Core.Path.{subst, ap₂}
use pebble.Key.{Compare, IsCompare}
use pebble.Key.Order.{Ordering-cases}
use pebble.Compaction.Iter.{is_eq}
use pebble.Iterator.Rows.{Row}
use Prim.Native.Nat.{Ordering}

module _ (cmp : Compare) (u : List ℕ) where
  unfoldable pub find_row : List Row → Option (List ℕ)
  find_row [] = none
  find_row (x ∷ r) = elim (is_eq (cmp u (x.0))) [ true ↦ some (x.1) | false ↦ find_row r ]

  pub find_row_same :
      (x : Row) (r : List Row) → is_eq (cmp u (x.0)) ≡ true → find_row (x ∷ r) ≡ some (x.1)
  unfolding find_row
  find_row_same x r h = rw (h, find_row) refl

  pub find_row_other :
      (x : Row) (r : List Row) → is_eq (cmp u (x.0)) ≡ false → find_row (x ∷ r) ≡ find_row r
  unfolding find_row
  find_row_other x r h = rw (h, find_row) refl

  pub find_row_absent :
      (r : List Row) → All (λ x. is_eq (cmp u (x.0)) ≡ false) r → find_row r ≡ none
  find_row_absent [] a = unfold find_row in refl
  find_row_absent (x ∷ r) (h, a) = find_row_other x r h ∙ find_row_absent r a

module _ (cmp : Compare) (total : IsCompare cmp) where
  abbrev pub Ascending : List Row → Type 0
  Ascending [] = Unit {0}
  Ascending (x ∷ r) = All (λ y. cmp (x.0) (y.0) ≡ Ordering.lt) r × Ascending r

  same_key : (u : List ℕ) → is_eq (cmp u u) ≡ true
  same_key u = ap is_eq (total.eq_refl u)

  -- Rows behind a key do not have it.
  above_absent :
      (u : List ℕ) (r : List Row) → All (λ y. cmp u (y.0) ≡ Ordering.lt) r → find_row cmp u r ≡ none
  above_absent u r a = find_row_absent cmp u r (All-map r (λ y h. ap is_eq h) a)

  before_absent :
      (u : List ℕ) (y : Row) (r : List Row)
      → cmp u (y.0) ≡ Ordering.lt
      → Ascending (y ∷ r)
      → find_row cmp u (y ∷ r) ≡ none
  before_absent u y r h (a, so) =
      above_absent u (y ∷ r) (h, All-map r (λ z l. total.lt_trans u (y.0) (z.0) h l) a)

  differ :
      (u : List ℕ) (x : Row) (r t : List Row)
      → u ≡ x.0
      → find_row cmp u t ≡ none
      → find_row cmp u (x ∷ r) ≡ find_row cmp u t
      → ⊥
  differ u x r t e h g =
      let s = find_row_same cmp u x r (subst (λ k. is_eq (cmp u k) ≡ true) e (same_key u)) in
      (cc (s, h, g))

  tail_found :
      (u : List ℕ) (x : Row) (r : List Row) (y : Row) (t : List Row)
      → x.0 ≡ y.0
      → All (λ z. cmp (x.0) (z.0) ≡ Ordering.lt) r
      → All (λ z. cmp (y.0) (z.0) ≡ Ordering.lt) t
      → find_row cmp u (x ∷ r) ≡ find_row cmp u (y ∷ t)
      → find_row cmp u r ≡ find_row cmp u t
  tail_found u x r y t e a b h = elim (Bool-cases (is_eq (cmp u (x.0)))) [
    | inl s ↦
        let p = eq_of_is_eq u (x.0) s in
        above_absent u r (subst (λ k. All (λ z. cmp k (z.0) ≡ Ordering.lt) r) (sym p) a)
        ∙ sym
            (above_absent u t (subst (λ k. All (λ z. cmp k (z.0) ≡ Ordering.lt) t) (sym (p ∙ e)) b))
    | inr s ↦
        sym (find_row_other cmp u x r s)
        ∙ h
        ∙ find_row_other cmp u y t (subst (λ k. is_eq (cmp u k) ≡ false) e s)
  ]
    where
      eq_of_is_eq : (u w : List ℕ) → is_eq (cmp u w) ≡ true → u ≡ w
      eq_of_is_eq u w h = ground (arith, total.eq_of u w)

  some_inj : (v w : List ℕ) → some v ≡ some w → v ≡ w
  some_inj v w h = cc

  pub Ascending-extent :
      (r t : List Row)
      → Ascending r
      → Ascending t
      → ((u : List ℕ) → find_row cmp u r ≡ find_row cmp u t)
      → r ≡ t
  Ascending-extent [] [] a b h = refl
  Ascending-extent [] (y ∷ t) a b h =
      absurd (differ (y.0) y t [] refl (unfold find_row in refl) (sym (h (y.0))))
  Ascending-extent (x ∷ r) [] a b h =
      absurd (differ (x.0) x r [] refl (unfold find_row in refl) (h (x.0)))
  Ascending-extent (x ∷ r) (y ∷ t) (a, ar) (b, bt) h = elim (Ordering-cases (cmp (x.0) (y.0))) [
    | inl l ↦ absurd (differ (x.0) x r (y ∷ t) refl (before_absent (x.0) y t l (b, bt)) (h (x.0)))
    | inr (inr g) ↦ absurd (
        differ (y.0) y t (x ∷ r) refl
          (before_absent (y.0) x r (total.lt_of_gt (x.0) (y.0) g) (a, ar)) (sym (h (y.0))))
    | inr (inl q) ↦
        let e = total.eq_of (x.0) (y.0) q in
        let v = some_inj (x.1) (y.1) (
          sym (find_row_same cmp (x.0) x r (same_key (x.0)))
          ∙ h (x.0)
          ∙ find_row_same cmp (x.0) y t (ap is_eq q)) in
        let rest = Ascending-extent r t ar bt (λ u. tail_found u x r y t e a b (h u)) in
        ap₂ (λ z zs. z ∷ zs) (row_path x y e v) rest
  ]
    where
      row_path : (x y : Row) → x.0 ≡ y.0 → x.1 ≡ y.1 → x ≡ y
      row_path (k, v) (k', v') e f = ap₂ (λ i j. (i, j)) e f
