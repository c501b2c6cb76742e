-- ===== src/Key/TotalOrder.antt =====
-- Reasoning by the order that a Compare of internal/base/comparer.go stands for.
use pebble.Prelude.{◌≡◌, sym, Bool, true, false, ◌⊎◌, inl, inr}
use mathlib.Core.Path.{subst}
use pebble.Key.Defs.{IsCompare, is_lt}
use pebble.Key.Order.{Ordering-cases}
use Prim.Native.Nat.{Ordering}

module _ {A : Type 0} (cmp : A → A → Ordering) where
  abbrev pub Lt : A → A → Type 0
  Lt a b = cmp a b ≡ Ordering.lt

  abbrev pub Le : A → A → Type 0
  Le a b = (a ≡ b) ⊎ (cmp a b ≡ Ordering.lt)

-- `cmp(a, b) <= 0`.
abbrev pub is_le : Ordering → Bool
is_le Ordering.gt = false
is_le _ = true

abbrev pub is_gt : Ordering → Bool
is_gt Ordering.gt = true
is_gt _ = false

module _ {A : Type 0} (cmp : A → A → Ordering) (total : IsCompare cmp) where
  pub lt_irrefl : (a : A) → Lt cmp a a → ⊥
  lt_irrefl a h = cc (total.eq_refl a)

  pub lt_asym : (a b : A) → Lt cmp a b → Lt cmp b a → ⊥
  lt_asym a b h g = cc (total.gt_of_lt a b h)

  pub lt_trans : (a b c : A) → Lt cmp a b → Lt cmp b c → Lt cmp a c
  lt_trans = total.lt_trans

  pub le_lt_trans : (a b c : A) → Le cmp a b → Lt cmp b c → Lt cmp a c
  le_lt_trans a b c (inl e) g = subst (λ x. Lt cmp x c) (sym e) g
  le_lt_trans a b c (inr h) g = total.lt_trans a b c h g

  pub lt_le_trans : (a b c : A) → Lt cmp a b → Le cmp b c → Lt cmp a c
  lt_le_trans a b c h (inl e) = subst (Lt cmp a) e h
  lt_le_trans a b c h (inr g) = total.lt_trans a b c h g

  pub le_trans : (a b c : A) → Le cmp a b → Le cmp b c → Le cmp a c
  le_trans a b c h (inl e) = subst (Le cmp a) e h
  le_trans a b c h (inr g) = inr (le_lt_trans a b c h g)

  pub lt_or_le : (a b : A) → Lt cmp a b ⊎ Le cmp b a
  lt_or_le a b = elim (Ordering-cases (cmp a b)) [
    | inl l ↦ inl l
    | inr (inl e) ↦ inr (inl (sym (total.eq_of a b e)))
    | inr (inr g) ↦ inr (inr (total.lt_of_gt a b g))
  ]

  pub not_lt_of_le : (a b : A) → Le cmp b a → Lt cmp a b → ⊥
  not_lt_of_le a b (inl e) h = lt_irrefl a (subst (Lt cmp a) e h)
  not_lt_of_le a b (inr g) h = lt_asym a b h g

  pub le_of_not_gt : (a b : A) → is_gt (cmp a b) ≡ false → Le cmp a b
  le_of_not_gt a b h = elim (lt_or_le b a) [
    | inl l ↦ absurd (cc (total.gt_of_lt b a l))
    | inr l ↦ l
  ]

  pub is_le_of_le : (a b : A) → Le cmp a b → is_le (cmp a b) ≡ true
  is_le_of_le a b (inl e) = cc (e, total.eq_refl b)
  is_le_of_le a b (inr l) = cc

  pub le_of_is_le : (a b : A) → is_le (cmp a b) ≡ true → Le cmp a b
  le_of_is_le a b h = elim (lt_or_le b a) [ inl l ↦ absurd (cc (total.gt_of_lt b a l)) | inr l ↦ l ]

  pub lt_of_is_lt : (a b : A) → is_lt (cmp a b) ≡ true → Lt cmp a b
  lt_of_is_lt a b h = elim (Ordering-cases (cmp a b)) [
    | inl l ↦ l
    | inr (inl e) ↦ absurd (cc)
    | inr (inr g) ↦ absurd (cc)
  ]

  pub le_of_not_lt : (a b : A) → is_lt (cmp a b) ≡ false → Le cmp b a
  le_of_not_lt a b h = elim (lt_or_le a b) [ inl l ↦ absurd (cc) | inr l ↦ l ]
