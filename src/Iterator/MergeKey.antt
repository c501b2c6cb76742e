-- ===== src/Iterator/MergeKey.antt =====
-- The key that First and Last of an Iterator give to Merge (iterator.go).
use pebble.Prelude.{ℕ, ◌+◌, ◌*◌, ◌%◌, ◌≡◌, refl, true, false, none, List, [], ◌∷◌, arith}
use pebble.Prelude.Outcome.{ok}
use pebble.Key.{kind, kind_merge}
use pebble.Compaction.Iter.{Entry, value_of}
use pebble.Iterator.Internal.{seek_first, seek_last, ahead, behind, onto, nowhere}
use pebble.Iterator.Search.{
  pos_next, pos_prev, Config, Iterator, merge_operand, kind_case, find_next_entry, find_next_loop,
  find_next_merge, merge_next, merge_loop, after_merge, finish_value, outside_prefix, after_close,
}
use pebble.Iterator.Reverse.{
  find_prev_entry, find_prev_at, find_prev_loop, merge_newer_entry, finish_prev,
}
use pebble.Iterator.Calls.{first, last, to_first, to_last}

abbrev pub operand : List ℕ → List ℕ → ℕ → Entry
operand u v n = (record { user_key = u; trailer = n * 256 + kind_merge }, v)

operand-case :
    (u : List ℕ) (n : ℕ)
    → kind_case (kind (record { user_key = u; trailer = n * 256 + kind_merge })) ≡ merge_operand
unfolding kind_case kind
operand-case u n = let e : (n * 256 + 2) % 256 ≡ 2 = omega arith in rw e refl

-- Let there be no bounds, no open closer, and one entry, a merge operand, for which Merge does not
-- fail, with the key that the iterator holds or with that of the operand, nor Finish, which opens
-- no closer. Then First shows the value that Merge starts from the key held before, and Last the
-- value that Merge starts from the key of the operand, each as the value of the operand's key.
pub first-last-merge :
    {V : Type 0} (c : Config V) (u v : List ℕ) (n : ℕ) (s : Iterator) (w w' : V) (x x' : List ℕ)
    → c.lower ≡ none
    → c.upper ≡ none
    → c.contents ≡ operand u v n ∷ []
    → s.value_closer ≡ none
    → c.merger.merge s.key v ≡ value_of w
    → c.merger.finish w true ≡ value_of (x, none)
    → c.merger.merge u v ≡ value_of w'
    → c.merger.finish w' true ≡ value_of (x', none)
    → (t : Iterator) × (t' : Iterator) × (first c s ≡ ok (true, t))
      × (last c s ≡ ok (true, t'))
      × (t.key ≡ u)
      × (t'.key ≡ u)
      × (t.value ≡ x)
      × (t'.value ≡ x')
unfolding first last to_first to_last find_next_entry find_prev_entry after_close find_next_loop
    outside_prefix find_next_merge merge_next merge_loop after_merge finish_value find_prev_at
    find_prev_loop merge_newer_entry finish_prev seek_first seek_last ahead behind onto
first-last-merge c u v n s w w' x x' lo hi es cl m f m' f' =
    let k = operand-case u n in
    (
      record s {
        iter = nowhere;
        err = none;
        key = u;
        value = x;
        value_closer = none;
        valid = true;
        pos = pos_next;
        has_prefix = false;
      },
      record s {
        iter = nowhere;
        err = none;
        key = u;
        value = x';
        value_closer = none;
        valid = true;
        pos = pos_prev;
        has_prefix = false;
      },
      rw (lo, es, cl)
          (rw (k, after_close, ahead, find_next_loop, outside_prefix)
            (rw (m, find_next_merge)
              (rw (f, after_merge, finish_value, merge_next, merge_loop) refl))),
      rw (hi, es, cl)
          (rw (k, after_close, find_prev_at, find_prev_loop, behind, onto)
            (rw (m', merge_newer_entry) (rw (f', finish_value, find_prev_loop, finish_prev) refl))),
      refl,
      refl,
      refl,
      refl,
    )
