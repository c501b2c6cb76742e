-- ===== src/Key/Bytewise.antt =====
-- The bytewise lexicographic order of user keys, a Compare that the theorems are tried on.
use pebble.Prelude.{ℕ, ◌≡◌, ◌↔◌, refl, Bool, true, false, ◌&&◌, List, [], ◌∷◌, ◌==◌, arith}
use pebble.Key.Defs.{Compare, IsCompare}
use Prim.Native.Nat.{Ordering, compare}

unfoldable pub bytes_compare : Compare
bytes_compare [] [] = Ordering.eq
bytes_compare [] (y ∷ ys) = Ordering.lt
bytes_compare (x ∷ xs) [] = Ordering.gt
bytes_compare (x ∷ xs) (y ∷ ys) =
    let rest = bytes_compare xs ys in
    elim (compare x y) [
      | Ordering.lt ↦ Ordering.lt
      | Ordering.gt ↦ Ordering.gt
      | Ordering.eq ↦ rest
    ]

-- bytes.Equal.
unfoldable pub bytes_equal : List ℕ → List ℕ → Bool
bytes_equal [] [] = true
bytes_equal (x ∷ xs) (y ∷ ys) = x == y && bytes_equal xs ys
bytes_equal _ _ = false

pub bytes_equal_iff : (a b : List ℕ) → (bytes_equal a b ≡ true) ↔ (a ≡ b)
unfolding bytes_equal
bytes_equal_iff [] [] = (λ e. refl, λ e. refl)
bytes_equal_iff [] (y ∷ ys) = (λ e. cc, λ e. cc)
bytes_equal_iff (x ∷ xs) [] = (λ e. cc, λ e. cc)
bytes_equal_iff (x ∷ xs) (y ∷ ys) =
    let (f, g) = bytes_equal_iff xs ys in (λ e. ground (arith, f), λ e. ground (arith, g))

bytes_refl : (a : List ℕ) → bytes_compare a a ≡ Ordering.eq
unfolding bytes_compare
bytes_refl [] = refl
bytes_refl (x ∷ xs) = ground (arith, bytes_refl xs)

bytes_eq_of : (a b : List ℕ) → bytes_compare a b ≡ Ordering.eq → a ≡ b
unfolding bytes_compare
bytes_eq_of [] [] h = refl
bytes_eq_of [] (y ∷ ys) h = cc
bytes_eq_of (x ∷ xs) [] h = cc
bytes_eq_of (x ∷ xs) (y ∷ ys) h = ground (arith, bytes_eq_of xs ys)

bytes_gt_of_lt : (a b : List ℕ) → bytes_compare a b ≡ Ordering.lt → bytes_compare b a ≡ Ordering.gt
unfolding bytes_compare
bytes_gt_of_lt [] [] h = cc
bytes_gt_of_lt [] (y ∷ ys) h = refl
bytes_gt_of_lt (x ∷ xs) [] h = cc
bytes_gt_of_lt (x ∷ xs) (y ∷ ys) h = ground (arith, bytes_gt_of_lt xs ys)

bytes_lt_of_gt : (a b : List ℕ) → bytes_compare a b ≡ Ordering.gt → bytes_compare b a ≡ Ordering.lt
unfolding bytes_compare
bytes_lt_of_gt [] [] h = cc
bytes_lt_of_gt [] (y ∷ ys) h = cc
bytes_lt_of_gt (x ∷ xs) [] h = refl
bytes_lt_of_gt (x ∷ xs) (y ∷ ys) h = ground (arith, bytes_lt_of_gt xs ys)

bytes_lt_trans :
    (a b c : List ℕ)
    → bytes_compare a b ≡ Ordering.lt
    → bytes_compare b c ≡ Ordering.lt
    → bytes_compare a c ≡ Ordering.lt
unfolding bytes_compare
bytes_lt_trans [] [] c h g = cc
bytes_lt_trans [] (y ∷ ys) [] h g = cc
bytes_lt_trans [] (y ∷ ys) (z ∷ zs) h g = refl
bytes_lt_trans (x ∷ xs) [] c h g = cc
bytes_lt_trans (x ∷ xs) (y ∷ ys) [] h g = cc
bytes_lt_trans (x ∷ xs) (y ∷ ys) (z ∷ zs) h g = ground (arith, bytes_lt_trans xs ys zs)

pub bytes_compare-IsCompare : IsCompare bytes_compare
bytes_compare-IsCompare = record {
  eq_refl = bytes_refl;
  eq_of = bytes_eq_of;
  gt_of_lt = bytes_gt_of_lt;
  lt_of_gt = bytes_lt_of_gt;
  lt_trans = bytes_lt_trans;
}
