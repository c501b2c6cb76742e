-- ===== src/Iterator/Compacted/Order.antt =====
-- What a compaction (compaction_iter.go) writes is in the order that iterators rely on, also after
-- sequence numbers are zeroed.
use pebble.Prelude.{
  ℕ, ◌≤◌, ◌<◌, ◌≡◌, ◌≢◌, refl, sym, ◌∙◌, ap, true, false, Option, none, some, List, [], ◌∷◌, ◌++◌,
  All, All-map, inl, inr, ◌⊎◌, Bool-cases, arith, ◌==◌, ◌&&◌,
}
use mathlib.Core.Path.{subst}
use pebble.Key.{InternalKey, IsCompare, internal_compare, seq_num, kind, kind_set, set_seq_num}
use pebble.Key.Order.{Ordering-cases}
use pebble.Compaction.Iter.{Entry, Config, is_eq}
use pebble.Compaction.Iter.Collapse.{IsPoint, stripe, is_same_stripe, zeroed, emit, collapse_after}
use pebble.Compaction.Iter.Snapshots.{snapshot_index_mono}
use pebble.Compaction.Iter.View.{IsSorted}
use pebble.Iterator.Calls.{entry_key}
use Prim.Native.Nat.{Ordering}

module _ {V : Type 0} (k : Config V) (total : IsCompare k.cmp) where
  abbrev pub Before : Entry → Entry → Type 0
  Before e f =
      (k.cmp (entry_key e) (entry_key f) ≡ Ordering.lt)
      ⊎ ((entry_key e ≡ entry_key f) × (seq_num (f.0) < seq_num (e.0)))

  abbrev pub AllBefore : List Entry → Type 0
  AllBefore [] = Unit {0}
  AllBefore (e ∷ es) = All (Before e) es × AllBefore es

  -- The entry `x` is what is written for `e`.
  abbrev From : Entry → Entry → Type 0
  From e x =
      (entry_key x ≡ entry_key e)
      × (seq_num (x.0) ≤ seq_num (e.0))
      × (stripe k (e.0) ≢ 0 → seq_num (x.0) ≡ seq_num (e.0))
      × (kind (x.0) ≡ kind (e.0))

  zeroed-From : (i : InternalKey) (v : List ℕ) → From (i, v) (zeroed k i, v)
  unfolding set_seq_num seq_num kind
  zeroed-From i v = elim (Bool-cases (k.allow_zero_seq_num && stripe k i == 0)) [
    | inl h ↦ rw h (refl, omega arith, (λ z. absurd (ground (arith))), omega arith)
    | inr h ↦ rw h (refl, omega arith, (λ z. refl), refl)
  ]

  emit-cases : (e : Entry) → (emit k e ≡ []) ⊎ ((x : Entry) × (emit k e ≡ x ∷ []) × From e x)
  unfolding emit
  emit-cases (i, v) = elim (Bool-cases (kind i == kind_set)) [
    | inl h ↦ inr ((zeroed k i, v), rw h refl, zeroed-From i v)
    | inr h ↦ elim (Bool-cases (stripe k i == 0 && k.elide_tombstone i.user_key)) [
      | inl d ↦ inl (rw h (rw d refl))
      | inr d ↦ inr ((i, v), rw h (rw d refl), (refl, omega arith, (λ z. refl), refl))
    ]
  ]

  -- Of a later user key, or of a lower stripe.
  abbrev Lower : Entry → Entry → Type 0
  Lower e g =
      (k.cmp (entry_key e) (entry_key g) ≡ Ordering.lt)
      ⊎ ((entry_key e ≡ entry_key g) × (stripe k (g.0) < stripe k (e.0)))

  stripe_lt : (a b : InternalKey) → stripe k a < stripe k b → seq_num a < seq_num b
  unfolding stripe
  stripe_lt a b h = grind (arith, snapshot_index_mono (seq_num b) (seq_num a) k.snapshots)

  Lower-Before : (e x g y : Entry) → Lower e g → From e x → From g y → Before x y
  Lower-Before e x g y (inl l) (p, q, r, t) (p', q', r', t') = inl (rw (p, p') l)
  Lower-Before e x g y (inr (h, m)) (p, q, r, t) (p', q', r', t') =
      inr (p ∙ h ∙ sym p', omega (arith, stripe_lt (g.0) (e.0) m, r (λ z. omega arith)))

  collapse-keep :
      (P : Entry → Type 0) (g : Entry) (r : List Entry)
      → ((y : Entry) → From g y → P y)
      → All P r
      → All P (emit k g ++ r)
  collapse-keep P g r f a = elim (emit-cases g) [ inl h ↦ rw h a | inr (y, h, m) ↦ rw h (f y m, a) ]

  -- What holds of all that may be written for the entries holds of what is written.
  collapse-All :
      (P : Entry → Type 0) (prev : Option (List ℕ × ℕ)) (es : List Entry)
      → All (λ g. (y : Entry) → From g y → P y) es
      → All P (collapse_after k prev es)
  unfolding collapse_after
  collapse-All P prev [] a = tt
  collapse-All P none ((i, v) ∷ es) (f, a) =
      collapse-keep P (i, v) _ f (collapse-All P (some (i.user_key, stripe k i)) es a)
  collapse-All P (some (u, j)) ((i, v) ∷ es) (f, a) = elim (Bool-cases (is_same_stripe k u j i)) [
    | inl h ↦ rw h (collapse-All P (some (u, j)) es a)
    | inr h ↦
        rw h (collapse-keep P (i, v) _ f (collapse-All P (some (i.user_key, stripe k i)) es a))
  ]

  same_key_seq :
      (e g : Entry)
      → k.cmp (entry_key e) (entry_key g) ≡ Ordering.eq
      → internal_compare k.cmp (e.0) (g.0) ≡ Ordering.lt
      → seq_num (g.0) ≤ seq_num (e.0)
  unfolding internal_compare seq_num
  same_key_seq e g q h = ground arith

  stripe_le : (a b : InternalKey) → seq_num a ≤ seq_num b → stripe k a ≤ stripe k b
  unfolding stripe
  stripe_le a b h = snapshot_index_mono (seq_num a) (seq_num b) k.snapshots h

  no_gt :
      (e g : Entry)
      → k.cmp (entry_key e) (entry_key g) ≡ Ordering.gt
      → internal_compare k.cmp (e.0) (g.0) ≡ Ordering.lt
      → ⊥
  unfolding internal_compare
  no_gt e g q h = ground arith

  -- The user keys of sorted entries.
  later_key :
      (e g : Entry)
      → internal_compare k.cmp (e.0) (g.0) ≡ Ordering.lt
      → (k.cmp (entry_key e) (entry_key g) ≡ Ordering.lt)
        ⊎ ((entry_key e ≡ entry_key g) × (stripe k (g.0) ≤ stripe k (e.0)))
  later_key e g h = elim (Ordering-cases (k.cmp (entry_key e) (entry_key g))) [
    | inl l ↦ inl l
    | inr (inl q) ↦
        inr
          (total.eq_of (entry_key e) (entry_key g) q, stripe_le (g.0) (e.0) (same_key_seq e g q h))
    | inr (inr q) ↦ absurd (no_gt e g q h)
  ]

  other_stripe :
      (e g : Entry)
      → entry_key e ≡ entry_key g
      → is_same_stripe k (entry_key e) (stripe k (e.0)) (g.0) ≡ false
      → stripe k (g.0) ≢ stripe k (e.0)
  other_stripe e g p n q = cc (
    n,
    same_is
        (ap is_eq
          (subst (λ w. k.cmp w (entry_key g) ≡ Ordering.eq) (sym p) (total.eq_refl (entry_key g))))
        q,
  )
    where
      same_is :
          is_eq (k.cmp (entry_key e) (entry_key g)) ≡ true
          → stripe k (g.0) ≡ stripe k (e.0)
          → is_same_stripe k (entry_key e) (stripe k (e.0)) (g.0) ≡ true
      same_is a b = ground arith

  not_same-Lower :
      (e g : Entry)
      → internal_compare k.cmp (e.0) (g.0) ≡ Ordering.lt
      → is_same_stripe k (entry_key e) (stripe k (e.0)) (g.0) ≡ false
      → Lower e g
  not_same-Lower e g h n = elim (later_key e g h) [
    | inl l ↦ inl l
    | inr (p, m) ↦ let d = other_stripe e g p n in inr (p, grind (arith, d))
  ]

  Lower-later :
      (e g f : Entry) → Lower e g → internal_compare k.cmp (g.0) (f.0) ≡ Ordering.lt → Lower e f
  Lower-later e g f (inl l) h = elim (later_key g f h) [
    | inl m ↦ inl (total.lt_trans (entry_key e) (entry_key g) (entry_key f) l m)
    | inr (p, m) ↦ inl (subst (λ w. k.cmp (entry_key e) w ≡ Ordering.lt) p l)
  ]
  Lower-later e g f (inr (q, n)) h = elim (later_key g f h) [
    | inl m ↦ inl (subst (λ w. k.cmp w (entry_key f) ≡ Ordering.lt) (sym q) m)
    | inr (p, m) ↦ inr (q ∙ p, omega arith)
  ]

  -- What is written behind an entry comes after it.
  collapse-after :
      (e x : Entry) (es : List Entry)
      → From e x
      → All (λ g. internal_compare k.cmp (e.0) (g.0) ≡ Ordering.lt) es
      → IsSorted k.cmp es
      → All (Before x) (collapse_after k (some (entry_key e, stripe k (e.0))) es)
  unfolding collapse_after
  collapse-after e x [] m a so = tt
  collapse-after e x ((i, v) ∷ es) m (h, a) (b, so) =
      elim (Bool-cases (is_same_stripe k (entry_key e) (stripe k (e.0)) i)) [
        | inl same ↦ rw same (collapse-after e x es m a so)
        | inr n ↦
            let low = not_same-Lower e (i, v) h n in
            rw n (
              collapse-keep (Before x) (i, v) _ (λ y t. Lower-Before e x (i, v) y low m t)
                (collapse-All (Before x) (some (i.user_key, stripe k i)) es (
                  All-map es (λ f t y r. Lower-Before e x f y (Lower-later e (i, v) f low t) m r)
                    b)))
      ]

  keep-AllBefore :
      (g : Entry) (r : List Entry)
      → ((x : Entry) → From g x → All (Before x) r)
      → AllBefore r
      → AllBefore (emit k g ++ r)
  keep-AllBefore g r f a = elim (emit-cases g) [ inl h ↦ rw h a | inr (x, h, m) ↦ rw h (f x m, a) ]

  -- What is written is in order.
  pub collapse-AllBefore :
      (prev : Option (List ℕ × ℕ)) (es : List Entry)
      → IsSorted k.cmp es
      → AllBefore (collapse_after k prev es)
  unfolding collapse_after
  collapse-AllBefore prev [] so = tt
  collapse-AllBefore none ((i, v) ∷ es) (b, so) =
      keep-AllBefore (i, v) _ (λ x m. collapse-after (i, v) x es m b so)
        (collapse-AllBefore (some (i.user_key, stripe k i)) es so)
  collapse-AllBefore (some (u, j)) ((i, v) ∷ es) (b, so) =
      elim (Bool-cases (is_same_stripe k u j i)) [
        | inl h ↦ rw h (collapse-AllBefore (some (u, j)) es so)
        | inr h ↦ rw h (
            keep-AllBefore (i, v) _ (λ x m. collapse-after (i, v) x es m b so)
              (collapse-AllBefore (some (i.user_key, stripe k i)) es so))
      ]

  -- Sets and Deletes are written as such.
  pub collapse-IsPoint :
      (prev : Option (List ℕ × ℕ)) (es : List Entry)
      → All IsPoint es
      → All IsPoint (collapse_after k prev es)
  collapse-IsPoint prev es p =
      collapse-All IsPoint prev es (All-map es (λ g h y m. subst (λ z. z ≤ 1) (sym (m.3)) h) p)
