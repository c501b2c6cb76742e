-- ===== src/Iterator/Compacted/Examples.antt =====
-- Iterators at a snapshot over a compaction's input and output (iterator.go, compaction_iter.go).
use pebble.Prelude.{ℕ, ◌+◌, ◌*◌, ◌≡◌, refl, inl, inr, true, none, List, [], ◌∷◌, arith, All, length}
use pebble.Prelude.Outcome.{ok}
use pebble.Key.{kind, seq_num}
use pebble.Key.Bytewise.{bytes_compare, bytes_compare-IsCompare}
use pebble.Compaction.Iter
use pebble.Compaction.Iter.{Entry, Merger, failed, external, is_eq, first, new_compaction_iter}
use pebble.Compaction.Iter.Collapse.{IsPoint, no_tombstones, drain_from}
use pebble.Compaction.Iter.View.{IsViewed}
use pebble.Iterator.Merging.{default_merger, concat, default_merger-IsAssociative}
use pebble.Iterator.Search.{Config}
use pebble.Iterator.Calls.{call_first, call_next, call_prev, new_iter, run}
use pebble.Iterator.Rows.{IsOrdered}
use pebble.Iterator.Compacted.{reader, run-drain}

abbrev no_merger : Merger (List ℕ)
no_merger = record {
  merge = λ k v. failed (external 1);
  merge_older = λ vm v. failed (external 1);
  finish = λ vm b. failed (external 1);
}

abbrev compaction : Iter.Config (List ℕ)
compaction = record {
  cmp = bytes_compare;
  merger = no_merger;
  snapshots = 7 ∷ [];
  allow_zero_seq_num = true;
  elide_tombstone = λ k. true;
}

abbrev options : Config (List ℕ)
options = record {
  cmp = bytes_compare;
  equal = λ a b. is_eq (bytes_compare a b);
  split = λ u. 1;
  merger = default_merger;
  lower = none;
  upper = none;
  contents = [];
}

abbrev entry : ℕ → ℕ → ℕ → Entry
entry u seq kind = (record { user_key = u ∷ []; trailer = seq * 256 + kind }, seq ∷ [])

-- a.PUT.9, a.PUT.6, a.PUT.5, b.DEL.4, b.PUT.3.
abbrev entries : List Entry
entries = entry 97 9 1 ∷ entry 97 6 1 ∷ entry 97 5 1 ∷ entry 98 4 0 ∷ entry 98 3 1 ∷ []

entries-IsPoint : All IsPoint entries
unfolding kind
entries-IsPoint = omega arith

entries-IsViewed : All (IsViewed (7 ∷ []) 7) entries
unfolding seq_num
entries-IsViewed = omega arith

entries-IsOrdered : IsOrdered (reader options compaction 7 []) entries
unfolding bytes_compare seq_num
entries-IsOrdered = (
  (inr (refl, omega arith), (inr (refl, omega arith), (inl refl, (inl refl, tt)))),
  (
    (inr (refl, omega arith), (inl refl, (inl refl, tt))),
    ((inl refl, (inl refl, tt)), ((inr (refl, omega arith), tt), (tt, tt))),
  ),
)

run-drain_example :
    (out : List Entry) × (drain_from compaction
        (length entries + 1)
        (first compaction (new_compaction_iter entries no_tombstones))
      ≡ ok out)
    × (run (reader options compaction 7 out) (call_first ∷ call_next ∷ call_prev ∷ []) new_iter
        ≡ run
            (reader options compaction 7 entries)
            (call_first ∷ call_next ∷ call_prev ∷ [])
            new_iter)
run-drain_example =
    run-drain options compaction concat 7 entries (call_first ∷ call_next ∷ call_prev ∷ [])
      default_merger-IsAssociative bytes_compare-IsCompare (λ a b. refl) (omega arith)
      entries-IsPoint entries-IsViewed entries-IsOrdered
