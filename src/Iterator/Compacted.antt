-- ===== src/Iterator/Compacted.antt =====
-- An iterator (iterator.go) over what a compaction (compaction_iter.go) has written.
pub mod Extent
pub mod Points
pub mod Order
mod Examples
use pebble.Prelude.{
  ℕ, ◌+◌, ◌≡◌, refl, sym, ◌∙◌, ap, true, false, Option, none, some, List, [], ◌∷◌, All, All-map,
  length, inl, inr, Bool-cases, arith,
}
use mathlib.Core.Path.{subst}
use pebble.Prelude.Outcome.{ok}
use pebble.Key.{IsCompare, internal_compare, seq_num, visible}
use pebble.Compaction.Iter.{Entry, is_eq, first, new_compaction_iter}
use pebble.Compaction.Iter
use pebble.Compaction.Iter.Snapshots.{IsAscending}
use pebble.Compaction.Iter.Collapse.{IsPoint, collapse, no_tombstones, drain_from}
use pebble.Compaction.Iter.Collapse.Drain.{drain-collapse}
use pebble.Compaction.Iter.View.{read, IsSorted, IsViewed}
use pebble.Compaction.Iter.View.Reads.{read-collapse}
use pebble.Iterator.Merging.{IsAssociative}
use pebble.Iterator.Search.{Config, kind_case}
use pebble.Iterator.Calls.{Call, entry_key, new_iter, run}
use pebble.Iterator.Rows.{
  kind_of, rows, groups, view, moves, after_last, Precedes, IsOrdered, IsReadable, IsWithin,
  IsContents,
}
use pebble.Iterator.Groups.{flat, Sorted, flat-groups, groups-Sorted}
use pebble.Iterator.Refine.Runs.{run-moves_new}
use pebble.Iterator.Compacted.Extent.{find_row, Ascending, Ascending-extent}
use pebble.Iterator.Compacted.Points.{
  point_kind, sighted, newest, newest-sighted, rows-Ascending, find_row-rows,
}
use pebble.Iterator.Compacted.Order.{AllBefore, collapse-AllBefore, collapse-IsPoint}
use Prim.Native.Nat.{Ordering}

-- An iterator without bounds that reads the entries at sequence number `s`.
abbrev pub reader : {V W : Type 0} → Config V → Iter.Config W → ℕ → List Entry → Config V
reader c k s es = record c { cmp = k.cmp; lower = none; upper = none; contents = sighted s es }

sighted-visible :
    (s : ℕ) (e : Entry) (es : List Entry)
    → visible (e.0) s ≡ true
    → sighted s (e ∷ es) ≡ e ∷ sighted s es
unfolding sighted
sighted-visible s e es v = rw (v, sighted) refl

sighted-hidden :
    (s : ℕ) (e : Entry) (es : List Entry)
    → visible (e.0) s ≡ false
    → sighted s (e ∷ es) ≡ sighted s es
unfolding sighted
sighted-hidden s e es v = rw (v, sighted) refl

sighted-All : (P : Entry → Type 0) (s : ℕ) (es : List Entry) → All P es → All P (sighted s es)
sighted-All P s [] a = unfold sighted in tt
sighted-All P s (e ∷ es) (h, a) = elim (Bool-cases (visible (e.0) s)) [
  | inl v ↦ subst (All P) (sym (sighted-visible s e es v)) (h, sighted-All P s es a)
  | inr v ↦ subst (All P) (sym (sighted-hidden s e es v)) (sighted-All P s es a)
]

module _ {V W : Type 0} (c : Config V) (k : Iter.Config W) (s : ℕ) where
  abbrev reading : Config V
  reading = reader c k s []

  sighted-IsOrdered : (es : List Entry) → IsOrdered reading es → IsOrdered reading (sighted s es)
  sighted-IsOrdered [] o = unfold sighted in tt
  sighted-IsOrdered (e ∷ es) (a, o) = elim (Bool-cases (visible (e.0) s)) [
    | inl v ↦
        subst (IsOrdered reading) (sym (sighted-visible s e es v))
          (sighted-All (Precedes reading e) s es a, sighted-IsOrdered es o)
    | inr v ↦ subst (IsOrdered reading) (sym (sighted-hidden s e es v)) (sighted-IsOrdered es o)
  ]

  module _ (combine : List (List ℕ) → List ℕ) (total : IsCompare k.cmp) where
    IsPoint-IsReadable : (e : Entry) → IsPoint e → IsReadable reading (kind_of e)
    IsPoint-IsReadable e h = elim (point_kind reading combine total e h) [
      | inl q ↦ subst (IsReadable reading) (sym q) tt
      | inr q ↦ subst (IsReadable reading) (sym q) tt
    ]

    reader-IsContents :
        (es : List Entry) → IsOrdered reading es → All IsPoint es → IsContents (reader c k s es)
    reader-IsContents es o p = record {
      ordered = sighted-IsOrdered es o;
      readable =
          sighted-All (λ e. IsReadable reading (kind_of e)) s es
            (All-map es (λ e h. IsPoint-IsReadable e h) p);
      within =
          sighted-All (λ e. IsWithin reading (entry_key e)) s es (All-map es (λ e h. (tt, tt)) p);
    }

    Precedes-internal_compare :
        (e f : Entry) → Precedes reading e f → internal_compare k.cmp (e.0) (f.0) ≡ Ordering.lt
    unfolding internal_compare seq_num
    Precedes-internal_compare e f (inl l) = ground arith
    Precedes-internal_compare e f (inr (q, h)) =
        let r = key_eq (entry_key e) (entry_key f) q in ground (arith, r)
      where
        key_eq : (a b : List ℕ) → a ≡ b → k.cmp a b ≡ Ordering.eq
        key_eq a b q = subst (λ w. k.cmp w b ≡ Ordering.eq) (sym q) (total.eq_refl b)

    IsOrdered-IsSorted : (es : List Entry) → IsOrdered reading es → IsSorted k.cmp es
    IsOrdered-IsSorted [] o = tt
    IsOrdered-IsSorted (e ∷ es) (a, o) =
        (All-map es (λ f h. Precedes-internal_compare e f h) a, IsOrdered-IsSorted es o)

    IsOrdered-AllBefore : (es : List Entry) → AllBefore k total es → IsOrdered reading es
    IsOrdered-AllBefore [] o = tt
    IsOrdered-AllBefore (e ∷ es) (a, o) = (a, IsOrdered-AllBefore es o)

    -- Each row of a reader is a point read.
    find_row-view :
        (u : List ℕ) (es : List Entry)
        → IsOrdered reading es
        → All IsPoint es
        → find_row k.cmp u (view combine (reader c k s es)) ≡ read k.cmp u s es
    unfolding view
    find_row-view u es o p =
        let good = reader-IsContents es o p in
        let gs = groups k.cmp (sighted s es) in
        let whole = flat-groups reading (sighted s es) in
        find_row-rows reading combine total u gs
          (groups-Sorted reading total (sighted s es) good.ordered good.readable)
          (subst (All IsPoint) (sym whole) (sighted-All IsPoint s es p))
        ∙ ap (newest k.cmp u) whole
        ∙ newest-sighted k.cmp u s es

    view-Ascending :
        (es : List Entry)
        → IsOrdered reading es
        → All IsPoint es
        → Ascending k.cmp total (view combine (reader c k s es))
    unfolding view
    view-Ascending es o p =
        let good = reader-IsContents es o p in
        rows-Ascending reading combine total (groups k.cmp (sighted s es))
          (groups-Sorted reading total (sighted s es) good.ordered good.readable)

    module _ (asc : IsAscending k.snapshots) (es : List Entry) (p : All IsPoint es)
        (seen : All (IsViewed k.snapshots s) es) (o : IsOrdered reading es) where
      written-IsOrdered : IsOrdered reading (collapse k es)
      unfolding collapse
      written-IsOrdered =
          IsOrdered-AllBefore _ (collapse-AllBefore k total none es (IsOrdered-IsSorted es o))

      written-IsPoint : All IsPoint (collapse k es)
      unfolding collapse
      written-IsPoint = collapse-IsPoint k total none es p

      view-collapse : view combine (reader c k s (collapse k es)) ≡ view combine (reader c k s es)
      view-collapse =
          Ascending-extent k.cmp total _ _
            (view-Ascending (collapse k es) written-IsOrdered written-IsPoint)
            (view-Ascending es o p)
            (λ u.
              find_row-view u (collapse k es) written-IsOrdered written-IsPoint
              ∙ read-collapse k u s es total asc p seen (IsOrdered-IsSorted es o)
              ∙ sym (find_row-view u es o p))

-- Let Sets and Deletes, of which those of one user key descend in their sequence numbers and each
-- is committed, be the input of a compaction without pending range tombstones, with ascending
-- snapshots, under a total order of user keys with which Equal agrees; let the iterator's merge
-- operator, which has nothing to merge here, be one that does not fail, ignores the key given to
-- Merge and is associative. Then calling First and Next of the compaction iterator until it returns
-- nil ends with no panic, and an iterator without bounds over what was returned, at a snapshot of
-- the compaction or above all entries, shows for every sequence of positioning calls what an
-- iterator over the input shows.
pub run-drain :
    {V W : Type 0} (c : Config V) (k : Iter.Config W) (combine : List (List ℕ) → List ℕ) (s : ℕ)
    (es : List Entry) (ks : List Call)
    → IsAssociative c.merger combine
    → IsCompare k.cmp
    → ((a b : List ℕ) → c.equal a b ≡ is_eq (k.cmp a b))
    → IsAscending k.snapshots
    → All IsPoint es
    → All (IsViewed k.snapshots s) es
    → IsOrdered (reader c k s []) es
    → (out : List Entry) × (drain_from k
          (length es + 1)
          (first k (new_compaction_iter es no_tombstones))
        ≡ ok out)
      × (run (reader c k s out) ks new_iter ≡ run (reader c k s es) ks new_iter)
run-drain c k combine s es ks assoc total agree asc p seen o = (
  collapse k es,
  drain-collapse k es p,
  run-moves_new (reader c k s (collapse k es)) combine assoc total agree
        (reader-IsContents c k s combine total (collapse k es)
          (written-IsOrdered c k s combine total asc es p seen o)
          (written-IsPoint c k s combine total asc es p seen o))
        ks
      ∙ ap (λ v. ok (moves k.cmp v ks after_last))
          (view-collapse c k s combine total asc es p seen o)
      ∙ sym (
          run-moves_new (reader c k s es) combine assoc total agree
            (reader-IsContents c k s combine total es o p) ks),
)
