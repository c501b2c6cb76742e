-- ===== src/Rangedel/Fragment/Ends.antt =====
-- The split of flush (internal/rangedel/fragmenter.go): in a buffer that is sorted by end keys, the
-- tombstones that end at the split point come first.
use pebble.Prelude.{ℕ, ◌≡◌, refl, sym, ap, ◌∙◌, inl, inr, List, [], ◌∷◌, take, drop, All, All-map}
use pebble.Prelude.Sort.{IsSorted}
use pebble.Key.{Compare, IsCompare}
use pebble.Key.TotalOrder.{Lt, Le, lt_le_trans, le_of_not_lt}
use pebble.Rangedel.{Tombstone, is_eq}
use pebble.Rangedel.Fragment.{ends_less, count_ends}

module _ (cmp : Compare) (total : IsCompare cmp) where
  -- In a sorted buffer no tombstone ends before the first one.
  pub ends_above :
      (t : Tombstone) (ts : List Tombstone)
      → IsSorted (ends_less cmp) (t ∷ ts)
      → All (λ s. Le cmp t.end s.end) ts
  ends_above t ts s = All-map ts (λ x h. le_of_not_lt cmp total x.end t.end h) (s.0)

  count_ends-zero :
      (split : List ℕ) (ts : List Tombstone)
      → All (λ s. Lt cmp split s.end) ts
      → count_ends cmp split ts ≡ 0
  unfolding count_ends
  count_ends-zero split [] a = refl
  count_ends-zero split (t ∷ ts) a = rw (a.0) (count_ends-zero split ts (a.1))

  -- The rest of a sorted buffer, behind a tombstone that ends after the split point.
  above_rest :
      (split : List ℕ) (t : Tombstone) (ts : List Tombstone)
      → Lt cmp split t.end
      → IsSorted (ends_less cmp) (t ∷ ts)
      → All (λ s. Lt cmp split s.end) (t ∷ ts)
  above_rest split t ts h s =
      (h, All-map ts (λ x k. lt_le_trans cmp total split t.end x.end h k) (ends_above t ts s))

  -- What is counted ends at the split point; what is left ends after it.
  pub take-ends :
      (split : List ℕ) (ts : List Tombstone)
      → IsSorted (ends_less cmp) ts
      → All (λ s. Le cmp split s.end) ts
      → All (λ s. split ≡ s.end) (take (count_ends cmp split ts) ts)
  unfolding count_ends
  take-ends split [] s a = tt
  take-ends split (t ∷ ts) s (inl e, a) =
      rw (ap is_eq (ap (cmp split) (sym e) ∙ total.eq_refl split)) (e, take-ends split ts (s.1) a)
  take-ends split (t ∷ ts) s (inr l, a) =
      let zero_left = count_ends-zero split (t ∷ ts) (above_rest split t ts l s) in
      unfold count_ends in rw zero_left tt

  pub drop-ends :
      (split : List ℕ) (ts : List Tombstone)
      → IsSorted (ends_less cmp) ts
      → All (λ s. Le cmp split s.end) ts
      → All (λ s. Lt cmp split s.end) (drop (count_ends cmp split ts) ts)
  unfolding count_ends
  drop-ends split [] s a = tt
  drop-ends split (t ∷ ts) s (inl e, a) =
      rw (ap is_eq (ap (cmp split) (sym e) ∙ total.eq_refl split)) (drop-ends split ts (s.1) a)
  drop-ends split (t ∷ ts) s (inr l, a) =
      let zero_left = count_ends-zero split (t ∷ ts) (above_rest split t ts l s) in
      unfold count_ends in rw zero_left (above_rest split t ts l s)
