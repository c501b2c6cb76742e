-- ===== src/Iterator/Examples.antt =====
-- An iterator with bounds over six entries of four user keys (iterator.go).
use pebble.Prelude.{
  ℕ, ◌+◌, ◌*◌, ◌≡◌, refl, inl, inr, ◌⊎◌, true, false, none, some, List, [], ◌∷◌, ◌++◌, arith, All,
}
use pebble.Prelude.Outcome.{ok}
use pebble.Key.{kind, seq_num}
use pebble.Key.Bytewise.{bytes_compare, bytes_compare-IsCompare, bytes_equal}
use pebble.Compaction.Iter.{Entry, is_eq, value_of}
use pebble.Iterator.Internal.{onto, cut}
use pebble.Iterator.Merging.{default_merger, concat, ValueMerger}
use pebble.Iterator.MergeKey.{operand, first-last-merge}
use pebble.Iterator.Search.{Config, Iterator, kind_case}
use pebble.Iterator.Calls.{
  Call, call_first, call_last, call_next, call_prev, call_seek_ge, call_seek_lt, entry_key, first,
  last, new_iter, run, state_after, same_bound, same_bounds, set_bounds, with_bounds,
}
use pebble.Iterator.Rows.{
  kind_of, older, resolve, rows, add_entry, groups, view, at_first, at_last, move, moves, shown,
  Cursor, before_first, after_last, IsOrdered, IsReadable, IsWithin, IsContents,
}
use pebble.Iterator.Refine.Runs.{run-moves}
use pebble.Iterator.Refine.SetBounds.{set_bounds-moves}

abbrev entry : ℕ → ℕ → ℕ → ℕ → Entry
entry u seq kind v = (record { user_key = u ∷ []; trailer = seq * 256 + kind }, v ∷ [])

-- a.MERGE.5, a.SET.3, b.DEL.4, b.SET.2, c.SET.0, d.MERGE.6.
abbrev config : Config (List ℕ)
config = record {
  cmp = bytes_compare;
  equal = λ a b. is_eq (bytes_compare a b);
  split = λ u. 1;
  merger = default_merger;
  lower = some (97 ∷ []);
  upper = some (101 ∷ []);
  contents =
      entry 97 5 2 1
      ∷ entry 97 3 1 2
      ∷ entry 98 4 0 3
      ∷ entry 98 2 1 4
      ∷ entry 99 0 1 5
      ∷ entry 100 6 2 6
      ∷ [];
}

ordered : IsOrdered config config.contents
unfolding bytes_compare seq_num
ordered = (
  (inr (refl, omega arith), (inl refl, (inl refl, (inl refl, (inl refl, tt))))),
  (
    (inl refl, (inl refl, (inl refl, (inl refl, tt)))),
    (
      (inr (refl, omega arith), (inl refl, (inl refl, tt))),
      ((inl refl, (inl refl, tt)), ((inl refl, tt), (tt, tt))),
    ),
  ),
)

readable : All (λ e. IsReadable config (kind_of e)) config.contents
unfolding kind_of kind_case kind
readable = (tt, (tt, (tt, (tt, (tt, (tt, tt))))))

within : All (λ e. IsWithin config (entry_key e)) config.contents
unfolding bytes_compare
within = (
  (refl, refl),
  ((refl, refl), ((refl, refl), ((refl, refl), ((refl, refl), ((refl, refl), tt))))),
)

config-IsContents : IsContents config
config-IsContents = record { ordered = ordered; readable = readable; within = within }

-- Seeks beyond the bounds and changes of direction at every row.
abbrev calls : List Call
calls =
    call_seek_ge (42 ∷ [])
    ∷ call_next
    ∷ call_prev
    ∷ call_prev
    ∷ call_next
    ∷ call_last
    ∷ call_next
    ∷ call_prev
    ∷ call_seek_lt (99 ∷ [])
    ∷ call_seek_ge (122 ∷ [])
    ∷ []

run-moves_example :
    run config calls new_iter
    ≡ ok (
        (true, some (97 ∷ [], 2 ∷ 1 ∷ []), none)
        ∷ (true, some (99 ∷ [], 5 ∷ []), none)
        ∷ (true, some (97 ∷ [], 2 ∷ 1 ∷ []), none)
        ∷ (false, none, none)
        ∷ (true, some (97 ∷ [], 2 ∷ 1 ∷ []), none)
        ∷ (true, some (100 ∷ [], 6 ∷ []), none)
        ∷ (false, none, none)
        ∷ (true, some (100 ∷ [], 6 ∷ []), none)
        ∷ (true, some (97 ∷ [], 2 ∷ 1 ∷ []), none)
        ∷ (false, none, none)
        ∷ [])
unfolding view rows resolve older kind_of kind_case kind groups add_entry moves move shown at_first
    at_last onto cut bytes_compare
run-moves_example =
    run-moves config calls refl bytes_compare-IsCompare (λ a b. refl) config-IsContents

-- Without an upper bound and from b on.
abbrev later : List Entry
later = entry 98 4 0 3 ∷ entry 98 2 1 4 ∷ entry 99 0 1 5 ∷ entry 100 6 2 6 ∷ entry 120 7 1 8 ∷ []

later-IsContents : IsContents (with_bounds config (some (98 ∷ [])) none later)
unfolding bytes_compare seq_num kind_of kind_case kind
later-IsContents = record {
  ordered = (
    (inr (refl, omega arith), (inl refl, (inl refl, (inl refl, tt)))),
    (
      (inl refl, (inl refl, (inl refl, tt))),
      ((inl refl, (inl refl, tt)), ((inl refl, tt), (tt, tt))),
    ),
  );
  readable = (tt, (tt, (tt, (tt, (tt, tt)))));
  within = ((refl, tt), ((refl, tt), ((refl, tt), ((refl, tt), ((refl, tt), tt)))));
}

set_bounds-moves_example :
    (t : Iterator) × (p : Cursor) × ((p ≡ before_first) ⊎ (p ≡ after_last))
    × (state_after config (call_last ∷ call_prev ∷ []) new_iter ≡ ok t)
    × (run
          (with_bounds config (some (98 ∷ [])) none later)
          (call_prev ∷ call_first ∷ call_next ∷ call_last ∷ [])
          (set_bounds config (some (98 ∷ [])) none t)
        ≡ ok (
            moves bytes_compare
              (view concat (with_bounds config (some (98 ∷ [])) none later))
              (call_prev ∷ call_first ∷ call_next ∷ call_last ∷ [])
              p))
set_bounds-moves_example =
    set_bounds-moves config (some (98 ∷ [])) none later (call_last ∷ call_prev ∷ [])
      (call_prev ∷ call_first ∷ call_next ∷ call_last ∷ []) refl bytes_compare-IsCompare
      (λ a b. refl) config-IsContents (unfold same_bounds same_bound bytes_equal in refl)
      later-IsContents

-- An associative operator whose result is the key in front of the operands, the oldest first.
abbrev keyed_merger : ValueMerger (List ℕ × List ℕ)
keyed_merger = record {
  merge = λ key v. value_of (key, v);
  merge_newer = λ u v. value_of (u.0, u.1 ++ v);
  merge_older = λ u v. value_of (u.0, v ++ u.1);
  finish = λ u b. value_of (u.0 ++ u.1, none);
}

abbrev keyed_config : Config (List ℕ × List ℕ)
keyed_config = record {
  cmp = bytes_compare;
  equal = λ a b. is_eq (bytes_compare a b);
  split = λ u. 1;
  merger = keyed_merger;
  lower = none;
  upper = none;
  contents = operand (97 ∷ []) (1 ∷ []) 5 ∷ [];
}

first-last-merge_example :
    (t : Iterator) × (t' : Iterator) × (first keyed_config new_iter ≡ ok (true, t))
    × (last keyed_config new_iter ≡ ok (true, t'))
    × (t.key ≡ 97 ∷ [])
    × (t'.key ≡ 97 ∷ [])
    × (t.value ≡ 1 ∷ [])
    × (t'.value ≡ 97 ∷ 1 ∷ [])
first-last-merge_example =
    first-last-merge keyed_config (97 ∷ []) (1 ∷ []) 5 new_iter ([], 1 ∷ []) (97 ∷ [], 1 ∷ [])
      (1 ∷ []) (97 ∷ 1 ∷ []) refl refl refl refl refl refl refl refl
