-- ===== src/Iterator/Refine/Bounds.antt =====
-- The bounds of iterator.go: the keys that are sought and the first and last positions.
use pebble.Prelude.{
  ℕ, ◌≡◌, refl, sym, ◌∙◌, ap, true, false, none, some, List, [], All, All-map, inl, inr, ◌⊎◌,
  Bool-cases, Option-cases, arith,
}
use mathlib.Core.Path.{subst}
use pebble.Key.{IsCompare, is_lt}
use pebble.Key.TotalOrder.{is_gt}
use pebble.Compaction.Iter.{Entry}
use pebble.Iterator.Internal.{ahead, behind, onto, cut, seek_ge, seek_lt, seek_first, seek_last}
use pebble.Iterator.Search.{Config}
use pebble.Iterator.Calls.{
  entry_key, below_lower, above_upper, seek_ge_key, seek_lt_key, to_first, to_last,
}
use pebble.Iterator.Rows.{AboveLower, BelowUpper, IsWithin}
use pebble.Iterator.Refine.Locate.{cut_start, cut_end}
use Prim.Native.Nat.{Ordering}

module _ {V : Type 0} (c : Config V) (total : IsCompare c.cmp) where
  -- The key that is sought for `key`: itself, or a bound on the same side of the contents.
  data Sought (key : List ℕ) : List ℕ → Type 0 where
    unclipped : Sought key key
    to_lower :
        (b : List ℕ)
        → is_lt (c.cmp key b) ≡ true
        → ((u : List ℕ) → IsWithin c u → AboveLower c (some b) u)
        → Sought key b
    to_upper :
        (b : List ℕ)
        → is_gt (c.cmp key b) ≡ true
        → ((u : List ℕ) → IsWithin c u → BelowUpper c (some b) u)
        → Sought key b

  below_lower-cases :
      (key : List ℕ)
      → (below_lower c key ≡ none) ⊎ ((b : List ℕ) × (below_lower c key ≡ some b) × Sought key b)
  unfolding below_lower
  below_lower-cases key = elim (Option-cases c.lower) [
    | inl e ↦ inl (rw (e, below_lower) refl)
    | inr (b, e) ↦ elim (Bool-cases (is_lt (c.cmp key b))) [
      | inl h ↦ inr (
        b,
        rw (e, below_lower) (rw (h, below_lower) refl),
        to_lower b h (λ u w. subst (λ o. AboveLower c o u) e (w.0)),
      )
      | inr h ↦ inl (rw (e, below_lower) (rw (h, below_lower) refl))
    ]
  ]

  above_upper-cases :
      (key : List ℕ)
      → (above_upper c key ≡ none) ⊎ ((b : List ℕ) × (above_upper c key ≡ some b) × Sought key b)
  unfolding above_upper
  above_upper-cases key = elim (Option-cases c.upper) [
    | inl e ↦ inl (rw (e, above_upper) refl)
    | inr (b, e) ↦ elim (Bool-cases (is_gt (c.cmp key b))) [
      | inl h ↦ inr (
        b,
        rw (e, above_upper) (rw (h, above_upper) refl),
        to_upper b h (λ u w. subst (λ o. BelowUpper c o u) e (w.1)),
      )
      | inr h ↦ inl (rw (e, above_upper) (rw (h, above_upper) refl))
    ]
  ]

  seek_ge_key-Sought : (key : List ℕ) → Sought key (seek_ge_key c key)
  unfolding seek_ge_key
  seek_ge_key-Sought key = elim (below_lower-cases key) [
    | inr (b, e, s) ↦ rw (e, seek_ge_key) s
    | inl e ↦ elim (above_upper-cases key) [
      | inr (b, f, s) ↦ rw (e, seek_ge_key) (rw (f, seek_ge_key) s)
      | inl f ↦ rw (e, seek_ge_key) (rw (f, seek_ge_key) unclipped)
    ]
  ]

  seek_lt_key-Sought : (key : List ℕ) → Sought key (seek_lt_key c key)
  unfolding seek_lt_key
  seek_lt_key-Sought key = elim (above_upper-cases key) [
    | inr (b, e, s) ↦ rw (e, seek_lt_key) s
    | inl e ↦ elim (below_lower-cases key) [
      | inr (b, f, s) ↦ rw (e, seek_lt_key) (rw (f, seek_lt_key) s)
      | inl f ↦ rw (e, seek_lt_key) (rw (f, seek_lt_key) unclipped)
    ]
  ]

  ge_not_lt :
      (u b key : List ℕ)
      → is_lt (c.cmp key b) ≡ true
      → is_lt (c.cmp u b) ≡ false
      → is_lt (c.cmp u key) ≡ false
  ge_not_lt u b key h g = ground (arith, total.lt_trans u key b)

  lt_lt :
      (u b key : List ℕ)
      → is_gt (c.cmp key b) ≡ true
      → c.cmp u b ≡ Ordering.lt
      → is_lt (c.cmp u key) ≡ true
  lt_lt u b key h g = ground (arith, total.lt_of_gt key b, total.lt_trans u b key)

  -- Seeking a bound instead of the key makes no difference.
  cut-Sought :
      (key k : List ℕ) (es : List Entry)
      → All (λ e. IsWithin c (entry_key e)) es
      → Sought key k
      → cut c.cmp entry_key k [] es ≡ cut c.cmp entry_key key [] es
  cut-Sought key k es w unclipped = refl
  cut-Sought key k es w (to_lower b h g) =
      cut_start c.cmp entry_key k [] es (All-map es (λ e i. g (entry_key e) i) w)
      ∙ sym (
          cut_start c.cmp entry_key key [] es
            (All-map es (λ e i. ge_not_lt (entry_key e) k key h (g (entry_key e) i)) w))
  cut-Sought key k es w (to_upper b h g) =
      cut_end c.cmp entry_key k [] es (All-map es (λ e i. ap is_lt (g (entry_key e) i)) w)
      ∙ sym (
          cut_end c.cmp entry_key key [] es
            (All-map es (λ e i. lt_lt (entry_key e) k key h (g (entry_key e) i)) w))

  module _ (w : All (λ e. IsWithin c (entry_key e)) c.contents) where
    -- SeekGE and SeekLT of the internal iterator are called with keys that find what the user's key
    -- finds.
    pub seek_ge-clipped :
        (key : List ℕ)
        → seek_ge c.cmp entry_key (seek_ge_key c key) c.contents
          ≡ seek_ge c.cmp entry_key key c.contents
    unfolding seek_ge
    seek_ge-clipped key =
        rw (cut-Sought key (seek_ge_key c key) c.contents w (seek_ge_key-Sought key)) refl

    pub seek_lt-clipped :
        (key : List ℕ)
        → seek_lt c.cmp entry_key (seek_lt_key c key) c.contents
          ≡ seek_lt c.cmp entry_key key c.contents
    unfolding seek_lt
    seek_lt-clipped key =
        rw (cut-Sought key (seek_lt_key c key) c.contents w (seek_lt_key-Sought key)) refl

    pub to_first_lem : to_first c ≡ ahead [] c.contents
    unfolding to_first seek_ge seek_first
    to_first_lem = elim (Option-cases c.lower) [
      | inl e ↦ rw (e, to_first) refl
      | inr (b, e) ↦
          rw (e, to_first)
            (rw
              (cut_start c.cmp entry_key b [] c.contents
                (All-map c.contents (λ x i. subst (λ o. AboveLower c o (entry_key x)) e (i.0)) w))
              refl)
    ]

    pub to_last_lem : to_last c ≡ behind (onto c.contents []) []
    unfolding to_last seek_lt seek_last
    to_last_lem = elim (Option-cases c.upper) [
      | inl e ↦ rw (e, to_last) refl
      | inr (b, e) ↦
          rw (e, to_last)
            (rw
              (cut_end c.cmp entry_key b [] c.contents (
                All-map c.contents
                  (λ x i. ap is_lt (subst (λ o. BelowUpper c o (entry_key x)) e (i.1))) w))
              refl)
    ]
