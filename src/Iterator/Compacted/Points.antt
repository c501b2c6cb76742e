-- ===== src/Iterator/Compacted/Points.antt =====
-- The rows of an iterator (iterator.go) over Sets and Deletes are what point reads find.
use pebble.Prelude.{
  ℕ, ◌≡◌, refl, sym, ◌∙◌, ap, true, false, Option, none, some, List, [], ◌∷◌, ◌++◌, All, All-map,
  inl, inr, ◌⊎◌, Bool-cases, Option-cases, arith, ◌==◌, if◌then◌else◌,
}
use mathlib.Core.Path.{subst}
use pebble.Key.{Compare, IsCompare, kind, kind_set, visible}
use pebble.Compaction.Iter.{Entry, is_eq}
use pebble.Compaction.Iter.Collapse.{IsPoint}
use pebble.Compaction.Iter.View.{read}
use pebble.Iterator.Search.{Config, deletion, set_value, kind_case}
use pebble.Iterator.Calls.{entry_key}
use pebble.Iterator.Rows.{Group, kind_of, resolve, rows}
use pebble.Iterator.Groups.{flat, Sorted, IsGroup}
use pebble.Iterator.Refine.Passing.{All-append_right}
use pebble.Iterator.Refine.Rounds.{rows-none, rows-some, resolve-deletion, resolve-set}
use pebble.Iterator.Compacted.Extent.{
  find_row, find_row_same, find_row_other, find_row_absent, Ascending,
}
use Prim.Native.Nat.{Ordering}

-- The entries that a reader at sequence number `s` sees.
unfoldable pub sighted : ℕ → List Entry → List Entry
sighted s [] = []
sighted s (e ∷ es) = elim (visible (e.0) s) [ true ↦ e ∷ sighted s es | false ↦ sighted s es ]

module _ (cmp : Compare) (u : List ℕ) where
  -- The first entry of the user key decides.
  unfoldable pub newest : List Entry → Option (List ℕ)
  newest [] = none
  newest (e ∷ es) = elim (is_eq (cmp u (entry_key e))) [
    | true ↦ if kind (e.0) == kind_set then some (e.1) else none
    | false ↦ newest es
  ]

  newest-other :
      (e : Entry) (es : List Entry)
      → is_eq (cmp u (entry_key e)) ≡ false
      → newest (e ∷ es) ≡ newest es
  unfolding newest
  newest-other e es h = rw (h, newest) refl

  newest-past :
      (es r : List Entry)
      → All (λ e. is_eq (cmp u (entry_key e)) ≡ false) es
      → newest (es ++ r) ≡ newest r
  newest-past [] r a = refl
  newest-past (e ∷ es) r (h, a) = newest-other e (es ++ r) h ∙ newest-past es r a

  -- A point read is one of the visible entries.
  pub newest-sighted : (s : ℕ) (es : List Entry) → newest (sighted s es) ≡ read cmp u s es
  unfolding sighted newest read
  newest-sighted s [] = refl
  newest-sighted s (e ∷ es) = ground (arith, newest-sighted s es)

module _ {V : Type 0} (c : Config V) (combine : List (List ℕ) → List ℕ)
    (total : IsCompare c.cmp) where
  -- The rows of groups are in the order of their keys, those of the groups.
  rows-keys :
      (P : List ℕ → Type 0) (gs : List Group)
      → All (λ g. P (g.0)) gs
      → All (λ x. P (x.0)) (rows combine gs)
  rows-keys P [] a = unfold rows in tt
  rows-keys P (g ∷ gs) (h, a) = elim (Option-cases (resolve combine (g.1))) [
    | inl e ↦ subst (All (λ x. P (x.0))) (sym (rows-none combine g gs e)) (rows-keys P gs a)
    | inr (v, e) ↦
        subst (All (λ x. P (x.0))) (sym (rows-some combine g gs v e)) (h, rows-keys P gs a)
  ]

  pub rows-Ascending : (gs : List Group) → Sorted c gs → Ascending c.cmp total (rows combine gs)
  rows-Ascending [] so = unfold rows in tt
  rows-Ascending (g ∷ gs) (ok, a, so) = elim (Option-cases (resolve combine (g.1))) [
    | inl e ↦ subst (Ascending c.cmp total) (sym (rows-none combine g gs e)) (rows-Ascending gs so)
    | inr (v, e) ↦
        subst (Ascending c.cmp total) (sym (rows-some combine g gs v e))
          (rows-keys (λ k. c.cmp (g.0) k ≡ Ordering.lt) gs a, rows-Ascending gs so)
  ]

  pub point_kind : (e : Entry) → IsPoint e → (kind_of e ≡ deletion) ⊎ (kind_of e ≡ set_value)
  unfolding kind_of kind_case kind
  point_kind e h = ground arith

  newest-set :
      (u : List ℕ) (e : Entry) (es : List Entry)
      → is_eq (c.cmp u (entry_key e)) ≡ true
      → kind_of e ≡ set_value
      → newest c.cmp u (e ∷ es) ≡ some (e.1)
  unfolding newest kind_of kind_case
  newest-set u e es h k = ground arith

  newest-deletion :
      (u : List ℕ) (e : Entry) (es : List Entry)
      → is_eq (c.cmp u (entry_key e)) ≡ true
      → kind_of e ≡ deletion
      → newest c.cmp u (e ∷ es) ≡ none
  unfolding newest kind_of kind_case
  newest-deletion u e es h k = ground arith

  absent_later :
      (u : List ℕ) (g : Group) (gs : List Group)
      → is_eq (c.cmp u (g.0)) ≡ true
      → All (λ h. c.cmp (g.0) (h.0) ≡ Ordering.lt) gs
      → find_row c.cmp u (rows combine gs) ≡ none
  absent_later u g gs h a = find_row_absent c.cmp u (rows combine gs) (
      rows-keys (λ k. is_eq (c.cmp u k) ≡ false) gs (All-map gs (λ x l. later u (g.0) (x.0) h l) a))
    where
      later :
          (u w x : List ℕ)
          → is_eq (c.cmp u w) ≡ true
          → c.cmp w x ≡ Ordering.lt
          → is_eq (c.cmp u x) ≡ false
      later u w x h l = ground (arith, total.eq_of u w)

  -- At a group whose first entry is `e`.
  found_same :
      (u : List ℕ) (e : Entry) (ys : List Entry) (gs : List Group)
      → is_eq (c.cmp u (entry_key e)) ≡ true
      → IsPoint e
      → Sorted c ((entry_key e, e ∷ ys) ∷ gs)
      → find_row c.cmp u (rows combine ((entry_key e, e ∷ ys) ∷ gs))
        ≡ newest c.cmp u (flat ((entry_key e, e ∷ ys) ∷ gs))
  unfolding flat
  found_same u e ys gs h p so = elim (point_kind e p) [
    | inl k ↦
        ap (find_row c.cmp u)
          (rows-none combine (entry_key e, e ∷ ys) gs (resolve-deletion combine e ys k))
        ∙ absent_later u (entry_key e, e ∷ ys) gs h (so.1)
        ∙ sym (newest-deletion u e (ys ++ flat gs) h k)
    | inr k ↦
        ap (find_row c.cmp u)
          (rows-some combine (entry_key e, e ∷ ys) gs (e.1) (resolve-set combine e ys k))
        ∙ find_row_same c.cmp u (entry_key e, e.1) (rows combine gs) h
        ∙ sym (newest-set u e (ys ++ flat gs) h k)
  ]

  found_other :
      (u : List ℕ) (g : Group) (gs : List Group)
      → is_eq (c.cmp u (g.0)) ≡ false
      → IsGroup c g
      → find_row c.cmp u (rows combine gs) ≡ newest c.cmp u (flat gs)
      → find_row c.cmp u (rows combine (g ∷ gs)) ≡ newest c.cmp u (flat (g ∷ gs))
  unfolding flat
  found_other u g gs h ok rest =
      skip_row
      ∙ rest
      ∙ sym (
          newest-past c.cmp u (g.1) (flat gs)
            (All-map (g.1) (λ e p. subst (λ k. is_eq (c.cmp u k) ≡ false) (sym p) h) ok.keyed))
    where
      skip_row : find_row c.cmp u (rows combine (g ∷ gs)) ≡ find_row c.cmp u (rows combine gs)
      skip_row = elim (Option-cases (resolve combine (g.1))) [
        | inl e ↦ ap (find_row c.cmp u) (rows-none combine g gs e)
        | inr (v, e) ↦
            ap (find_row c.cmp u) (rows-some combine g gs v e)
            ∙ find_row_other c.cmp u (g.0, v) (rows combine gs) h
      ]

  points_of :
      (w : List ℕ) (e : Entry) (ys : List Entry) (gs : List Group)
      → All IsPoint (flat ((w, e ∷ ys) ∷ gs))
      → IsPoint e × All IsPoint (flat gs)
  unfolding flat
  points_of w e ys gs p = (p.0, All-append_right IsPoint ys (flat gs) (p.1))

  -- The row of a user key has the value of its newest entry.
  pub find_row-rows :
      (u : List ℕ) (gs : List Group)
      → Sorted c gs
      → All IsPoint (flat gs)
      → find_row c.cmp u (rows combine gs) ≡ newest c.cmp u (flat gs)
  find_row-rows u [] so p = unfold rows flat find_row newest in refl
  find_row-rows u ((w, []) ∷ gs) so p = absurd (so.0).inhabited
  find_row-rows u ((w, e ∷ ys) ∷ gs) so p =
      let q = points_of w e ys gs p in
      elim (Bool-cases (is_eq (c.cmp u w))) [
        | inl h ↦
            subst
              (λ k.
                is_eq (c.cmp u k) ≡ true
                → Sorted c ((k, e ∷ ys) ∷ gs)
                → find_row c.cmp u (rows combine ((k, e ∷ ys) ∷ gs))
                  ≡ newest c.cmp u (flat ((k, e ∷ ys) ∷ gs)))
              (so.0.keyed.0) (λ h' so'. found_same u e ys gs h' (q.0) so') h so
        | inr h ↦ found_other u (w, e ∷ ys) gs h (so.0) (find_row-rows u gs (so.2) (q.1))
      ]
