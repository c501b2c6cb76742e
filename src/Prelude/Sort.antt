-- ===== src/Prelude/Sort.antt =====
-- What Go documents of sort.Sort, and a sort that behaves so.
use Prim.Native.Nat.{ℕ, zero, suc}
use pebble.Prelude.Lists.{All, All-map, All-at, Among, drop}
use mathlib.Core.Path.{◌≡◌, refl, subst, sym, ◌∙◌}
use mathlib.Core.Logic.{◌⊎◌, inl, inr}
use mathlib.Core.Bool.{Bool, true, false}
use mathlib.Core.List.{List, [], ◌∷◌, map}
use pebble.Prelude.Tests.{Bool-cases, if◌then◌else◌}

-- Each element is in no position after one that it is less than.
abbrev pub IsSorted : {A : Type 0} → (A → A → Bool) → List A → Type 0
IsSorted less [] = Unit {0}
IsSorted less (x ∷ xs) = All (λ y. less y x ≡ false) xs × IsSorted less xs

-- The sorted list has the same elements; nothing is said of the order of equal ones.
pub record IsSort {A : Type 0} (less : A → A → Bool) (sort : List A → List A) : Type 0 where
  pub among : (x : A) (xs : List A) → Among x (sort xs) → Among x xs
  pub among_of : (x : A) (xs : List A) → Among x xs → Among x (sort xs)
  pub sorted : (xs : List A) → IsSorted less (sort xs)

pub All-of : {A : Type 0} (P : A → Type 0) (xs : List A) → ((x : A) → Among x xs → P x) → All P xs
All-of P [] f = tt
All-of P (x ∷ xs) f = (f x (inl refl), All-of P xs (λ y m. f y (inr m)))

module _ {A : Type 0} (less : A → A → Bool) where
  unfoldable pub insert : A → List A → List A
  insert x [] = x ∷ []
  insert x (y ∷ ys) = let rest = insert x ys in if less y x then y ∷ rest else x ∷ y ∷ ys

  unfoldable pub insertion_sort : List A → List A
  insertion_sort [] = []
  insertion_sort (x ∷ xs) = insert x (insertion_sort xs)

  Among-insert : (z x : A) (ys : List A) → Among z (insert x ys) → (z ≡ x) ⊎ Among z ys
  unfolding insert
  Among-insert z x [] m = m
  Among-insert z x (y ∷ ys) m = elim (Bool-cases (less y x)) [
    | inr e ↦ rw e at m
    | inl e ↦ elim (rw e at m) [
      | inl p ↦ inr (inl p)
      | inr p ↦ elim (Among-insert z x ys p) [ inl q ↦ inl q | inr q ↦ inr (inr q) ]
    ]
  ]

  Among-insert_of : (z x : A) (ys : List A) → (z ≡ x) ⊎ Among z ys → Among z (insert x ys)
  unfolding insert
  Among-insert_of z x [] m = m
  Among-insert_of z x (y ∷ ys) m = elim (Bool-cases (less y x)) [
    | inr e ↦ rw e m
    | inl e ↦ rw e (elim m [
      | inl p ↦ inr (Among-insert_of z x ys (inl p))
      | inr (inl p) ↦ inl p
      | inr (inr p) ↦ inr (Among-insert_of z x ys (inr p))
    ])
  ]

  Among-insertion_sort : (x : A) (xs : List A) → Among x (insertion_sort xs) → Among x xs
  unfolding insertion_sort
  Among-insertion_sort x [] m = m
  Among-insertion_sort x (y ∷ ys) m = elim (Among-insert x y (insertion_sort ys) m) [
    | inl e ↦ inl e
    | inr n ↦ inr (Among-insertion_sort x ys n)
  ]

  Among-insertion_sort_of : (x : A) (xs : List A) → Among x xs → Among x (insertion_sort xs)
  unfolding insertion_sort
  Among-insertion_sort_of x [] m = m
  Among-insertion_sort_of x (y ∷ ys) (inl e) = Among-insert_of x y (insertion_sort ys) (inl e)
  Among-insertion_sort_of x (y ∷ ys) (inr m) =
      Among-insert_of x y (insertion_sort ys) (inr (Among-insertion_sort_of x ys m))

  module _ (asym : (x y : A) → less x y ≡ true → less y x ≡ false)
      (trans : (x y z : A) → less y x ≡ false → less z y ≡ false → less z x ≡ false) where
    insert-IsSorted : (x : A) (ys : List A) → IsSorted less ys → IsSorted less (insert x ys)
    unfolding insert
    insert-IsSorted x [] s = (tt, tt)
    insert-IsSorted x (y ∷ ys) (a, s) = elim (Bool-cases (less y x)) [
      | inl e ↦ rw e (
        All-of (λ z. less z y ≡ false) (insert x ys)
            (λ z m. elim (Among-insert z x ys m) [
              | inl p ↦ subst (λ w. less w y ≡ false) (sym p) (asym y x e)
              | inr p ↦ All-at (λ w. less w y ≡ false) z ys a p
            ]),
        insert-IsSorted x ys s,
      )
      | inr e ↦ rw e ((e, All-map ys (λ z h. trans x y z e h) a), (a, s))
    ]

    insertion_sort-IsSorted : (xs : List A) → IsSorted less (insertion_sort xs)
    unfolding insertion_sort
    insertion_sort-IsSorted [] = tt
    insertion_sort-IsSorted (x ∷ xs) =
        insert-IsSorted x (insertion_sort xs) (insertion_sort-IsSorted xs)

    pub insertion_sort-IsSort : IsSort less insertion_sort
    insertion_sort-IsSort = record {
      among = Among-insertion_sort;
      among_of = Among-insertion_sort_of;
      sorted = insertion_sort-IsSorted;
    }

module _ {A : Type 0} (less : A → A → Bool) where
  pub IsSorted-drop : (n : ℕ) (xs : List A) → IsSorted less xs → IsSorted less (drop n xs)
  IsSorted-drop zero xs s = s
  IsSorted-drop (suc n) [] s = tt
  IsSorted-drop (suc n) (x ∷ xs) s = IsSorted-drop n xs (s.1)

  -- A change of the elements that Less does not see.
  pub IsSorted-map :
      (f : A → A) (xs : List A)
      → ((x y : A) → less (f x) (f y) ≡ less x y)
      → IsSorted less xs
      → IsSorted less (map f xs)
  IsSorted-map f [] e s = tt
  IsSorted-map f (x ∷ xs) e s = (go xs (s.0), IsSorted-map f xs e (s.1))
    where
      go :
          (ys : List A)
          → All (λ y. less y x ≡ false) ys
          → All (λ y. less y (f x) ≡ false) (map f ys)
      go [] a = tt
      go (y ∷ ys) a = (e y x ∙ a.0, go ys (a.1))
