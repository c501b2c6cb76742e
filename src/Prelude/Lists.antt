-- ===== src/Prelude/Lists.antt =====
-- Lists measured and indexed by native numbers, under the library's names.
use Prim.Native.Nat.{ℕ, zero, suc, ◌+◌, ◌-◌, ◌≤◌, ◌<◌, min}
use mathlib.Core.Path.{◌≡◌, refl, ap, sym, subst}
use mathlib.Core.List.{List, [], ◌∷◌, ◌++◌, map}
use mathlib.Core.Logic.{◌⊎◌, inl, inr}
use mathlib.Core.Option.{Option, none, some}
use native.Mathlib.Omega.{arith}

module _ {ℓ} {A : Type ℓ} where
  abbrev pub length : List A → ℕ
  length [] = 0
  length (x ∷ xs) = suc (length xs)

  abbrev pub get_elem? : List A → ℕ → Option A
  get_elem? [] i = none
  get_elem? (x ∷ xs) zero = some x
  get_elem? (x ∷ xs) (suc i) = get_elem? xs i

  abbrev pub take : ℕ → List A → List A
  take zero xs = []
  take (suc n) [] = []
  take (suc n) (x ∷ xs) = x ∷ take n xs

  abbrev pub drop : ℕ → List A → List A
  drop zero xs = xs
  drop (suc n) [] = []
  drop (suc n) (x ∷ xs) = drop n xs

  abbrev pub All {κ} : (A → Type κ) → List A → Type κ
  All P [] = Unit {κ}
  All P (x ∷ xs) = P x × All P xs

module _ {ℓ} {A : Type ℓ} where
  pub length-append : (xs ys : List A) → length (xs ++ ys) ≡ length xs + length ys
  length-append [] ys = omega arith
  length-append (x ∷ xs) ys = omega (arith, length-append xs ys)

  pub length-take : (n : ℕ) (xs : List A) → length (take n xs) ≡ min n (length xs)
  length-take zero xs = omega arith
  length-take (suc n) [] = omega arith
  length-take (suc n) (x ∷ xs) = omega (arith, length-take n xs)

  pub length-drop : (n : ℕ) (xs : List A) → length (drop n xs) ≡ length xs - n
  length-drop zero xs = omega arith
  length-drop (suc n) [] = omega arith
  length-drop (suc n) (x ∷ xs) = omega (arith, length-drop n xs)

  pub take-length-append : (n : ℕ) (xs ys : List A) → n ≡ length xs → take n (xs ++ ys) ≡ xs
  take-length-append zero [] ys h = refl
  take-length-append (suc n) [] ys h = absurd (omega arith)
  take-length-append zero (x ∷ xs) ys h = absurd (omega arith)
  take-length-append (suc n) (x ∷ xs) ys h =
      ap (λ r. x ∷ r) (take-length-append n xs ys (omega arith))

  pub drop-length-append : (n : ℕ) (xs ys : List A) → n ≡ length xs → drop n (xs ++ ys) ≡ ys
  drop-length-append zero [] ys h = refl
  drop-length-append (suc n) [] ys h = absurd (omega arith)
  drop-length-append zero (x ∷ xs) ys h = absurd (omega arith)
  drop-length-append (suc n) (x ∷ xs) ys h = drop-length-append n xs ys (omega arith)

  pub drop-append : (n : ℕ) (xs ys : List A) → n ≤ length xs → drop n (xs ++ ys) ≡ drop n xs ++ ys
  drop-append zero xs ys h = refl
  drop-append (suc n) [] ys h = absurd (omega arith)
  drop-append (suc n) (x ∷ xs) ys h = drop-append n xs ys (omega arith)

  pub take-all : (n : ℕ) (xs : List A) → length xs ≤ n → take n xs ≡ xs
  take-all zero [] h = refl
  take-all zero (x ∷ xs) h = absurd (omega arith)
  take-all (suc n) [] h = refl
  take-all (suc n) (x ∷ xs) h = ap (λ r. x ∷ r) (take-all n xs (omega arith))

  pub drop-all : (n : ℕ) (xs : List A) → length xs ≤ n → drop n xs ≡ []
  drop-all zero [] h = refl
  drop-all zero (x ∷ xs) h = absurd (omega arith)
  drop-all (suc n) [] h = refl
  drop-all (suc n) (x ∷ xs) h = drop-all n xs (omega arith)

pub All-map {ℓ κ μ} :
    {A : Type ℓ} {P : A → Type κ} {Q : A → Type μ} (xs : List A)
    → ((x : A) → P x → Q x)
    → All P xs
    → All Q xs
All-map [] f a = tt
All-map (x ∷ xs) f a = (f x (a.0), All-map xs f (a.1))

pub All-zip {ℓ κ μ ν} :
    {A : Type ℓ} {P : A → Type κ} {Q : A → Type μ} {R : A → Type ν} (xs : List A)
    → ((x : A) → P x → Q x → R x)
    → All P xs
    → All Q xs
    → All R xs
All-zip [] f a b = tt
All-zip (x ∷ xs) f a b = (f x (a.0) (b.0), All-zip xs f (a.1) (b.1))

-- s is an element of the list.
abbrev pub Among : {A : Type 0} → A → List A → Type 0
Among s [] = ⊥
Among s (x ∷ xs) = (s ≡ x) ⊎ Among s xs

module _ {A : Type 0} where
  pub Among-append_left : (x : A) (xs ys : List A) → Among x xs → Among x (xs ++ ys)
  Among-append_left x [] ys m = absurd m
  Among-append_left x (z ∷ xs) ys (inl e) = inl e
  Among-append_left x (z ∷ xs) ys (inr m) = inr (Among-append_left x xs ys m)

  pub Among-append_right : (x : A) (xs ys : List A) → Among x ys → Among x (xs ++ ys)
  Among-append_right x [] ys m = m
  Among-append_right x (z ∷ xs) ys m = inr (Among-append_right x xs ys m)

  pub All-at {κ} : (P : A → Type κ) (x : A) (xs : List A) → All P xs → Among x xs → P x
  All-at P x [] a m = absurd m
  All-at P x (y ∷ ys) a (inl e) = subst P (sym e) (a.0)
  All-at P x (y ∷ ys) a (inr m) = All-at P x ys (a.1) m

module _ {ℓ} {A : Type ℓ} where
  pub get_elem?-take :
      (n j : ℕ) (xs ys : List A)
      → j < n
      → j < length xs
      → get_elem? (take n xs ++ ys) j ≡ get_elem? xs j
  get_elem?-take zero j xs ys h g = absurd (omega arith)
  get_elem?-take (suc n) j [] ys h g = absurd (omega arith)
  get_elem?-take (suc n) zero (x ∷ xs) ys h g = refl
  get_elem?-take (suc n) (suc j) (x ∷ xs) ys h g =
      get_elem?-take n j xs ys (omega arith) (omega arith)

  pub get_elem?-past : (j : ℕ) (xs : List A) → length xs ≤ j → get_elem? xs j ≡ none
  get_elem?-past j [] h = refl
  get_elem?-past zero (x ∷ xs) h = absurd (omega arith)
  get_elem?-past (suc j) (x ∷ xs) h = get_elem?-past j xs (omega arith)

-- Some element has the property.
abbrev pub Any : {A : Type 0} → (A → Type 0) → List A → Type 0
Any P [] = ⊥
Any P (x ∷ xs) = P x ⊎ Any P xs

module _ {A : Type 0} where
  pub Any-mono : {P Q : A → Type 0} (xs : List A) → ((x : A) → P x → Q x) → Any P xs → Any Q xs
  Any-mono [] f m = m
  Any-mono (x ∷ xs) f (inl p) = inl (f x p)
  Any-mono (x ∷ xs) f (inr m) = inr (Any-mono xs f m)

  -- With a property that all elements have.
  pub Any-mono_All :
      {R P Q : A → Type 0} (xs : List A)
      → All R xs
      → ((x : A) → R x → P x → Q x)
      → Any P xs
      → Any Q xs
  Any-mono_All [] a f m = m
  Any-mono_All (x ∷ xs) a f (inl p) = inl (f x (a.0) p)
  Any-mono_All (x ∷ xs) a f (inr m) = inr (Any-mono_All xs (a.1) f m)

  pub Any-map :
      {B : Type 0} (P : B → Type 0) (f : A → B) (xs : List A)
      → Any P (map f xs)
      → Any (λ x. P (f x)) xs
  Any-map P f [] m = m
  Any-map P f (x ∷ xs) (inl p) = inl p
  Any-map P f (x ∷ xs) (inr m) = inr (Any-map P f xs m)

  pub Any-map_of :
      {B : Type 0} (P : B → Type 0) (f : A → B) (xs : List A)
      → Any (λ x. P (f x)) xs
      → Any P (map f xs)
  Any-map_of P f [] m = m
  Any-map_of P f (x ∷ xs) (inl p) = inl p
  Any-map_of P f (x ∷ xs) (inr m) = inr (Any-map_of P f xs m)

  pub Any-append : (P : A → Type 0) (xs ys : List A) → Any P (xs ++ ys) → Any P xs ⊎ Any P ys
  Any-append P [] ys m = inr m
  Any-append P (x ∷ xs) ys (inl p) = inl (inl p)
  Any-append P (x ∷ xs) ys (inr m) = elim (Any-append P xs ys m) [
    | inl n ↦ inl (inr n)
    | inr n ↦ inr n
  ]

  pub Any-append_of : (P : A → Type 0) (xs ys : List A) → Any P xs ⊎ Any P ys → Any P (xs ++ ys)
  Any-append_of P [] ys (inl m) = absurd m
  Any-append_of P [] ys (inr m) = m
  Any-append_of P (x ∷ xs) ys (inl (inl p)) = inl p
  Any-append_of P (x ∷ xs) ys (inl (inr m)) = inr (Any-append_of P xs ys (inl m))
  Any-append_of P (x ∷ xs) ys (inr m) = inr (Any-append_of P xs ys (inr m))

  pub Any-split :
      (P : A → Type 0) (n : ℕ) (xs : List A) → Any P xs → Any P (take n xs) ⊎ Any P (drop n xs)
  Any-split P zero xs m = inr m
  Any-split P (suc n) [] m = inr m
  Any-split P (suc n) (x ∷ xs) (inl p) = inl (inl p)
  Any-split P (suc n) (x ∷ xs) (inr m) = elim (Any-split P n xs m) [
    | inl k ↦ inl (inr k)
    | inr k ↦ inr k
  ]

  pub Any-split_of :
      (P : A → Type 0) (n : ℕ) (xs : List A) → Any P (take n xs) ⊎ Any P (drop n xs) → Any P xs
  Any-split_of P zero xs (inl m) = absurd m
  Any-split_of P zero xs (inr m) = m
  Any-split_of P (suc n) [] (inl m) = absurd m
  Any-split_of P (suc n) [] (inr m) = m
  Any-split_of P (suc n) (x ∷ xs) (inl (inl p)) = inl p
  Any-split_of P (suc n) (x ∷ xs) (inl (inr m)) = inr (Any-split_of P n xs (inl m))
  Any-split_of P (suc n) (x ∷ xs) (inr m) = inr (Any-split_of P n xs (inr m))

  pub Any-Among : (P : A → Type 0) (xs : List A) → Any P xs → (x : A) × Among x xs × P x
  Any-Among P [] m = absurd m
  Any-Among P (x ∷ xs) (inl p) = (x, inl refl, p)
  Any-Among P (x ∷ xs) (inr m) = let (y, n, q) = Any-Among P xs m in (y, inr n, q)

  pub Any-of_Among : (P : A → Type 0) (x : A) (xs : List A) → Among x xs → P x → Any P xs
  Any-of_Among P x [] m p = absurd m
  Any-of_Among P x (y ∷ ys) (inl e) p = inl (subst P e p)
  Any-of_Among P x (y ∷ ys) (inr m) p = inr (Any-of_Among P x ys m p)
