-- ===== src/Rangedel/Overlap.antt =====
-- Tombstone.Overlaps (internal/rangedel/tombstone.go) against the keys that the tombstones contain.
use pebble.Prelude.{ℕ, ◌≡◌, ◌↔◌, refl, ap, inl, inr, Bool, Bool-cases, true, false, ◌&&◌, List}
use pebble.Key.{Compare, IsCompare, is_lt}
use pebble.Key.Bytewise.{bytes_equal}
use pebble.Key.TotalOrder.{
  Lt, Le, is_le, lt_or_le, le_lt_trans, not_lt_of_le, is_le_of_le, le_of_is_le, lt_of_is_lt,
}
use pebble.Rangedel.{Tombstone, is_eq, overlaps, contains}
use Prim.Native.Nat.{Ordering}

-- Both tombstones contain the key.
abbrev pub Share : Compare → Tombstone → Tombstone → List ℕ → Type 0
Share cmp t o key = (contains cmp t key ≡ true) × (contains cmp o key ≡ true)

lt_ne_eq : Ordering.lt ≡ Ordering.eq → ⊥
lt_ne_eq e = cc

gt_ne_eq : Ordering.gt ≡ Ordering.eq → ⊥
gt_ne_eq e = cc

and-true : (a b : Bool) → a ≡ true → b ≡ true → (a && b) ≡ true
and-true a b e f = rw (e, f) refl

and-split : (a b : Bool) → (a && b) ≡ true → (a ≡ true) × (b ≡ true)
and-split true true e = (refl, refl)
and-split true false e = cc
and-split false b e = cc

module _ (cmp : Compare) (total : IsCompare cmp) where
  contains-of :
      (t : Tombstone) (key : List ℕ)
      → Le cmp t.start.user_key key
      → Lt cmp key t.end
      → contains cmp t key ≡ true
  unfolding contains
  contains-of t key l h = and-true _ _ (is_le_of_le cmp total t.start.user_key key l) (ap is_lt h)

  contains-bounds :
      (t : Tombstone) (key : List ℕ)
      → contains cmp t key ≡ true
      → Le cmp t.start.user_key key × Lt cmp key t.end
  unfolding contains
  contains-bounds t key e =
      let (a, b) = and-split (is_le (cmp t.start.user_key key)) (is_lt (cmp key t.end)) e in
      (le_of_is_le cmp total t.start.user_key key a, lt_of_is_lt cmp total key t.end b)

  lt_of_not_le : (a b : List ℕ) → is_le (cmp a b) ≡ false → Lt cmp b a
  lt_of_not_le a b e = elim (lt_or_le cmp total b a) [
    | inl l ↦ l
    | inr l ↦ absurd (cc (is_le_of_le cmp total a b l, e))
  ]

  not_le : (a b : List ℕ) → Lt cmp b a → is_le (cmp a b) ≡ false
  not_le a b l = elim (Bool-cases (is_le (cmp a b))) [
    | inl e ↦ absurd (not_lt_of_le cmp total b a (le_of_is_le cmp total a b e) l)
    | inr e ↦ e
  ]

  -- Two tombstones that reach into each other share the start of the later one.
  shared_key :
      (t o : Tombstone)
      → Lt cmp t.start.user_key t.end
      → Lt cmp o.start.user_key o.end
      → Lt cmp o.start.user_key t.end
      → Lt cmp t.start.user_key o.end
      → (key : List ℕ) × Share cmp t o key
  shared_key t o lt lo a b = elim (lt_or_le cmp total t.start.user_key o.start.user_key) [
    | inl h ↦ (
      o.start.user_key,
      (contains-of t o.start.user_key (inr h) a, contains-of o o.start.user_key (inl refl) lo),
    )
    | inr h ↦ (
      t.start.user_key,
      (contains-of t t.start.user_key (inl refl) lt, contains-of o t.start.user_key h b),
    )
  ]

  -- Of tombstones that are not empty and differ in a bound, Overlaps answers 0 exactly if some key lies
  -- in both.
  pub overlaps_iff :
      (t o : Tombstone)
      → Lt cmp t.start.user_key t.end
      → Lt cmp o.start.user_key o.end
      → (is_eq (cmp t.start.user_key o.start.user_key) && bytes_equal t.end o.end) ≡ false
      → (overlaps cmp t o ≡ Ordering.eq) ↔ ((key : List ℕ) × Share cmp t o key)
  unfolding overlaps
  overlaps_iff t o lt lo differ = (
    λ e. elim (Bool-cases (is_le (cmp t.end o.start.user_key))) [
      | inl a ↦ absurd (lt_ne_eq (rw (differ, a) at e))
      | inr a ↦ elim (Bool-cases (is_le (cmp o.end t.start.user_key))) [
        | inl b ↦ absurd (gt_ne_eq (rw (differ, a, b) at e))
        | inr b ↦
            shared_key t o lt lo (lt_of_not_le t.end o.start.user_key a)
              (lt_of_not_le o.end t.start.user_key b)
      ]
    ],
    λ (key, (in_t, in_o)).
        let (ts, te) = contains-bounds t key in_t in
        let (os, oe) = contains-bounds o key in_o in
        let a =
          not_le t.end o.start.user_key (le_lt_trans cmp total o.start.user_key key t.end os te) in
        let b =
          not_le o.end t.start.user_key (le_lt_trans cmp total t.start.user_key key o.end ts oe) in
        rw (differ, a, b) refl,
  )
