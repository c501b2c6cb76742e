-- ===== src/Rangedel/Fragment/Cut.antt =====
-- Cutting the pending tombstones at a key: truncateAndFlush and FlushTo of
-- internal/rangedel/fragmenter.go.
use pebble.Prelude.{
  ℕ, ◌^◌, ◌<◌, ◌≡◌, ◌⊎◌, refl, sym, ap, ◌∙◌, inl, inr, Bool-cases, true, List, [], ◌∷◌, All, Any,
  arith,
}
use mathlib.Core.Path.{subst}
use pebble.Key.{Compare, IsCompare, is_lt, seq_num, kind, make_internal_key}
use pebble.Key.TotalOrder.{
  Lt, Le, lt_irrefl, le_lt_trans, lt_le_trans, le_trans, lt_trans, lt_or_le, lt_of_is_lt,
  le_of_not_lt,
}
use pebble.Rangedel.{Tombstone}
use pebble.Rangedel.Fragment.{restart, cut_behind, cut_before}
use pebble.Rangedel.Fragment.Chunks.{Covers, From}

-- A trailer of 64 bits.
abbrev pub IsStored : Tombstone → Type 0
IsStored t = t.start.trailer < 2 ^ 64

-- The tombstone ends behind the key, with this trailer.
abbrev pub Reaches : Compare → List ℕ → ℕ → Tombstone → Type 0
Reaches cmp u n t = Lt cmp u t.end × (t.start.trailer ≡ n)

restart_trailer :
    (key : List ℕ) (t : Tombstone) → IsStored t → (restart key t).start.trailer ≡ t.start.trailer
unfolding make_internal_key seq_num kind
restart_trailer key t h = omega arith

module _ (cmp : Compare) (total : IsCompare cmp) where
  pub cut_behind-IsStored :
      (key : List ℕ) (ts : List Tombstone) → All IsStored ts → All IsStored (cut_behind cmp key ts)
  unfolding cut_behind
  cut_behind-IsStored key [] a = tt
  cut_behind-IsStored key (t ∷ ts) a = elim (Bool-cases (is_lt (cmp key t.end))) [
    | inl e ↦ rw e (
      subst (λ n. n < 2 ^ 64) (sym (restart_trailer key t (a.0))) (a.0),
      cut_behind-IsStored key ts (a.1),
    )
    | inr e ↦ rw e (cut_behind-IsStored key ts (a.1))
  ]

  pub cut_behind-From :
      (key : List ℕ) (ts : List Tombstone) → All (From cmp key) (cut_behind cmp key ts)
  unfolding cut_behind make_internal_key
  cut_behind-From key [] = tt
  cut_behind-From key (t ∷ ts) = elim (Bool-cases (is_lt (cmp key t.end))) [
    | inl e ↦ rw e ((refl, lt_of_is_lt cmp total key t.end e), cut_behind-From key ts)
    | inr e ↦ rw e (cut_behind-From key ts)
  ]

  pub cut_behind_sound :
      (key : List ℕ) (ts : List Tombstone) (u : List ℕ) (n : ℕ)
      → All IsStored ts
      → Any (Covers cmp u n) (cut_behind cmp key ts)
      → Le cmp key u × Any (Reaches cmp u n) ts
  unfolding cut_behind make_internal_key
  cut_behind_sound key [] u n a m = absurd m
  cut_behind_sound key (t ∷ ts) u n a m = elim (Bool-cases (is_lt (cmp key t.end))) [
    | inl e ↦ elim (rw e at m) [
      | inl (p, q, r) ↦
          (p, inl (q, sym (restart_trailer key t (a.0)) ∙ unfold make_internal_key in r))
      | inr p ↦ let (l, k) = cut_behind_sound key ts u n (a.1) p in (l, inr k)
    ]
    | inr e ↦ let (l, k) = cut_behind_sound key ts u n (a.1) (rw e at m) in (l, inr k)
  ]

  pub cut_behind_complete :
      (key : List ℕ) (ts : List Tombstone) (u : List ℕ) (n : ℕ)
      → All IsStored ts
      → Le cmp key u
      → Any (Reaches cmp u n) ts
      → Any (Covers cmp u n) (cut_behind cmp key ts)
  unfolding cut_behind make_internal_key
  cut_behind_complete key [] u n a l m = m
  cut_behind_complete key (t ∷ ts) u n a l m = elim (Bool-cases (is_lt (cmp key t.end))) [
    | inl e ↦ rw e (elim m [
      | inl (q, r) ↦ inl (l, q, unfold make_internal_key in (restart_trailer key t (a.0) ∙ r))
      | inr p ↦ inr (cut_behind_complete key ts u n (a.1) l p)
    ])
    | inr e ↦ rw e (elim m [
      | inl (q, r) ↦ absurd (
          lt_irrefl cmp total u (
            lt_le_trans cmp total u t.end u q
              (le_trans cmp total t.end key u (le_of_not_lt cmp total key t.end e) l)))
      | inr p ↦ cut_behind_complete key ts u n (a.1) l p
    ])
  ]

  pub cut_before-From :
      (key k : List ℕ) (ts : List Tombstone)
      → All (From cmp k) ts
      → All (From cmp k) (cut_before cmp key ts)
  unfolding cut_before
  cut_before-From key k [] a = tt
  cut_before-From key k (t ∷ ts) ((st, lt), a) = elim (Bool-cases (is_lt (cmp key t.end))) [
    | inr e ↦ rw e ((st, lt), cut_before-From key k ts a)
    | inl e ↦ elim (Bool-cases (is_lt (cmp t.start.user_key key))) [
      | inl g ↦
          rw (e, g)
            (
              (st, subst (λ x. Lt cmp x key) st (lt_of_is_lt cmp total t.start.user_key key g)),
              cut_before-From key k ts a,
            )
      | inr g ↦ rw (e, g) (cut_before-From key k ts a)
    ]
  ]

  pub cut_before_sound :
      (key : List ℕ) (ts : List Tombstone) (u : List ℕ) (n : ℕ)
      → Any (Covers cmp u n) (cut_before cmp key ts)
      → Any (Covers cmp u n) ts
  unfolding cut_before
  cut_before_sound key [] u n m = m
  cut_before_sound key (t ∷ ts) u n m = elim (Bool-cases (is_lt (cmp key t.end))) [
    | inr e ↦ elim (rw e at m) [ inl p ↦ inl p | inr p ↦ inr (cut_before_sound key ts u n p) ]
    | inl e ↦ elim (Bool-cases (is_lt (cmp t.start.user_key key))) [
      | inl g ↦ elim (rw (e, g) at m) [
        | inl (p, q, r) ↦
            inl (p, lt_trans cmp total u key t.end q (lt_of_is_lt cmp total key t.end e), r)
        | inr p ↦ inr (cut_before_sound key ts u n p)
      ]
      | inr g ↦ inr (cut_before_sound key ts u n (rw (e, g) at m))
    ]
  ]

  pub cut_before_complete :
      (key : List ℕ) (ts : List Tombstone) (u : List ℕ) (n : ℕ)
      → Any (Covers cmp u n) ts
      → Any (Covers cmp u n) (cut_before cmp key ts) ⊎ (Le cmp key u × Any (Reaches cmp u n) ts)
  unfolding cut_before
  cut_before_complete key [] u n m = absurd m
  cut_before_complete key (t ∷ ts) u n (inr m) = elim (cut_before_complete key ts u n m) [
    | inr (l, p) ↦ inr (l, inr p)
    | inl p ↦ inl (elim (Bool-cases (is_lt (cmp key t.end))) [
      | inr e ↦ rw e (inr p)
      | inl e ↦ elim (Bool-cases (is_lt (cmp t.start.user_key key))) [
        | inl g ↦ rw (e, g) (inr p)
        | inr g ↦ rw (e, g) p
      ]
    ])
  ]
  cut_before_complete key (t ∷ ts) u n (inl (p, q, r)) = elim (lt_or_le cmp total u key) [
    | inr above ↦ inr (above, inl (q, r))
    | inl below ↦ inl (elim (Bool-cases (is_lt (cmp key t.end))) [
      | inr e ↦ rw e (inl (p, q, r))
      | inl e ↦
          let g : is_lt (cmp t.start.user_key key) ≡ true =
            ap is_lt (le_lt_trans cmp total t.start.user_key u key p below) in
          rw (e, g) (inl (p, below, r))
    ])
  ]
