-- ===== src/Key/Order.antt =====
-- The order of internal keys (internal/base/internal.go): InternalCompare, the search key, and
-- the separators of index blocks.
use pebble.Prelude.{ℕ, ◌≡◌, ◌≢◌, refl, true, List, arith, ◌⊎◌, inl, inr}
use pebble.Key.Defs.{
  InternalKey, make_search_key, valid, Compare, IsCompare, internal_compare, separator, successor,
}
use pebble.Key.Fields.{IsStored}
use Prim.Native.Nat.{Ordering}

pub Ordering-cases : (o : Ordering) → (o ≡ Ordering.lt) ⊎ ((o ≡ Ordering.eq) ⊎ (o ≡ Ordering.gt))
Ordering-cases Ordering.lt = inl refl
Ordering-cases Ordering.eq = inr (inl refl)
Ordering-cases Ordering.gt = inr (inr refl)

module _ (cmp : Compare) (total : IsCompare cmp) where
  internal_compare_refl : (a : InternalKey) → internal_compare cmp a a ≡ Ordering.eq
  unfolding internal_compare
  internal_compare_refl a = ground (arith, total.eq_refl a.user_key)

  internal_compare-eq_of : (a b : InternalKey) → internal_compare cmp a b ≡ Ordering.eq → a ≡ b
  unfolding internal_compare
  internal_compare-eq_of a b h = ground (arith, total.eq_of a.user_key b.user_key)

  internal_compare-gt_of_lt :
      (a b : InternalKey)
      → internal_compare cmp a b ≡ Ordering.lt
      → internal_compare cmp b a ≡ Ordering.gt
  unfolding internal_compare
  internal_compare-gt_of_lt a b h = ground (
    arith,
    total.eq_of a.user_key b.user_key,
    total.eq_refl a.user_key,
    total.gt_of_lt a.user_key b.user_key,
    total.lt_of_gt a.user_key b.user_key,
  )

  internal_compare-lt_of_gt :
      (a b : InternalKey)
      → internal_compare cmp a b ≡ Ordering.gt
      → internal_compare cmp b a ≡ Ordering.lt
  unfolding internal_compare
  internal_compare-lt_of_gt a b h = ground (
    arith,
    total.eq_of a.user_key b.user_key,
    total.eq_refl a.user_key,
    total.gt_of_lt a.user_key b.user_key,
    total.lt_of_gt a.user_key b.user_key,
  )

  internal_compare-lt_trans :
      (a b c : InternalKey)
      → internal_compare cmp a b ≡ Ordering.lt
      → internal_compare cmp b c ≡ Ordering.lt
      → internal_compare cmp a c ≡ Ordering.lt
  unfolding internal_compare
  internal_compare-lt_trans a b c h g = ground (
    arith,
    total.eq_of a.user_key b.user_key,
    total.eq_of b.user_key c.user_key,
    total.eq_refl a.user_key,
    total.lt_trans a.user_key b.user_key c.user_key,
  )

  -- Over a user order that is total and in which only equal contents are equal, InternalCompare
  -- is again such an order, on internal keys.
  pub internal_compare-IsCompare : IsCompare (internal_compare cmp)
  internal_compare-IsCompare = record {
    eq_refl = internal_compare_refl;
    eq_of = internal_compare-eq_of;
    gt_of_lt = internal_compare-gt_of_lt;
    lt_of_gt = internal_compare-lt_of_gt;
    lt_trans = internal_compare-lt_trans;
  }

  -- The search key of a user key sorts at or before each stored key of that user key whose kind
  -- is valid.
  pub make_search_key-first :
      (k : InternalKey)
      → IsStored k
      → valid k ≡ true
      → internal_compare cmp (make_search_key k.user_key) k ≢ Ordering.gt
  unfolding internal_compare make_search_key valid
  make_search_key-first k h v = ground (arith, total.eq_refl k.user_key)

  -- A separator lies at or after the left key and before the right one, if the user's Separator
  -- does so on their user keys and these differ.
  pub separator_bounds :
      (sep : List ℕ → List ℕ → List ℕ) (k other : InternalKey)
      → cmp k.user_key other.user_key ≡ Ordering.lt
      → cmp (sep k.user_key other.user_key) other.user_key ≡ Ordering.lt
      → (internal_compare cmp k (separator cmp sep k other) ≢ Ordering.gt)
        × (internal_compare cmp (separator cmp sep k other) other ≡ Ordering.lt)
  unfolding internal_compare separator
  separator_bounds sep k other h g = (ground (arith, total.eq_refl k.user_key), ground arith)

  -- A successor lies at or after its key, whatever the user's Successor returns.
  pub successor_bound :
      (succ : List ℕ → List ℕ) (k : InternalKey)
      → internal_compare cmp k (successor cmp succ k) ≢ Ordering.gt
  unfolding internal_compare successor
  successor_bound succ k = ground (arith, total.eq_refl k.user_key)
