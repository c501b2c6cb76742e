-- ===== src/Rangedel/Fragment/Examples.antt =====
-- A run of the Fragmenter of internal/rangedel/fragmenter.go with the byte order and an insertion
-- sort.
use pebble.Prelude.{
  ◌+◌, ◌*◌, ◌≡◌, ◌↔◌, inl, inr, Bool, true, false, List, [], ◌∷◌, Any, ℕ, refl, arith,
}
use pebble.Prelude.Outcome.{ok}
use pebble.Prelude.Sort.{IsSort, insertion_sort, insertion_sort-IsSort}
use pebble.Key.{InternalKey, Compare, IsCompare, is_lt}
use pebble.Key.Bytewise.{bytes_compare, bytes_compare-IsCompare}
use pebble.Key.TotalOrder.{lt_of_is_lt, le_of_not_lt, le_trans, not_lt_of_le, lt_asym}
use pebble.Rangedel.{Tombstone, Fragmenter, deleted}
use pebble.Rangedel.Fragment.{ends_less, seqs_less, new_fragmenter}
use pebble.Rangedel.Fragment.Chunks.{Covers}
use pebble.Rangedel.Fragment.Calls.{
  FragmentCall, add_call, flush_call, truncate_call, added, run, steps,
}
use pebble.Rangedel.Fragment.Runs.{run_conserves}
use pebble.Rangedel.Covering.{Deletes, deleted_iff}

false_of : (c : Bool) → (c ≡ true → ⊥) → c ≡ false
false_of true h = absurd (h refl)
false_of false h = refl

module _ (cmp : Compare) (total : IsCompare cmp) where
  ends-IsSort : IsSort (ends_less cmp) (insertion_sort (ends_less cmp))
  ends-IsSort =
      insertion_sort-IsSort (ends_less cmp)
        (λ a b h. false_of (is_lt (cmp b.end a.end)) (λ g.
          lt_asym cmp total a.end b.end (lt_of_is_lt cmp total a.end b.end h)
            (lt_of_is_lt cmp total b.end a.end g)))
        (λ a b c h g. false_of (is_lt (cmp c.end a.end)) (λ k.
          not_lt_of_le cmp total c.end a.end
            (le_trans cmp total a.end b.end c.end (le_of_not_lt cmp total b.end a.end h)
              (le_of_not_lt cmp total c.end b.end g))
            (lt_of_is_lt cmp total c.end a.end k)))

seqs-IsSort : IsSort seqs_less (insertion_sort seqs_less)
seqs-IsSort = insertion_sort-IsSort seqs_less (λ a b h. grind arith) (λ a b c h g. grind arith)

-- [a, c)#9 and [a, d)#7, a flush at b, [b, c)#5, and a truncation at c.
abbrev calls : List FragmentCall
calls =
    add_call
      (record { start = record { user_key = b'a' ∷ []; trailer = 9 * 256 + 15 }; end = b'c' ∷ [] })
    ∷ add_call (record {
      start = record { user_key = b'a' ∷ []; trailer = 7 * 256 + 15 };
      end = b'd' ∷ [];
    })
    ∷ flush_call (b'b' ∷ [])
    ∷ add_call (record {
      start = record { user_key = b'b' ∷ []; trailer = 5 * 256 + 15 };
      end = b'c' ∷ [];
    })
    ∷ truncate_call (b'c' ∷ [])
    ∷ []

run_conserves_example :
    (g : Fragmenter) × (out : List (List Tombstone)) × (run bytes_compare
        (insertion_sort (ends_less bytes_compare))
        (insertion_sort seqs_less)
        calls
        new_fragmenter
      ≡ ok (g, out))
    × ((u : List ℕ) (n : ℕ)
        → Any (Any (Covers bytes_compare u n)) out ↔ Any (Covers bytes_compare u n) (added calls))
unfolding bytes_compare
run_conserves_example =
    run_conserves bytes_compare bytes_compare-IsCompare (insertion_sort (ends_less bytes_compare))
      (insertion_sort seqs_less) (ends-IsSort bytes_compare bytes_compare-IsCompare) seqs-IsSort
      calls (b'a' ∷ []) (inl refl, (inl refl, (inr refl, (inl refl, (inr refl, tt)))))
      (omega arith, (omega arith, (omega arith, tt)))

-- c#6 is behind all of the calls, and only [a, d)#7 reaches it.
abbrev key_c : InternalKey
key_c = record { user_key = b'c' ∷ []; trailer = 6 * 256 + 1 }

deleted_iff_example :
    (f : Fragmenter) × (out : List (List Tombstone)) × (steps bytes_compare
        (insertion_sort (ends_less bytes_compare))
        (insertion_sort seqs_less)
        calls
        new_fragmenter
      ≡ ok (f, out))
    × (answer : Bool) × (deleted bytes_compare f key_c 10 ≡ ok answer)
    × ((answer ≡ true) ↔ Any (Deletes bytes_compare key_c 10) (added calls))
unfolding bytes_compare
deleted_iff_example =
    deleted_iff bytes_compare bytes_compare-IsCompare (insertion_sort (ends_less bytes_compare))
      (insertion_sort seqs_less) (ends-IsSort bytes_compare bytes_compare-IsCompare) seqs-IsSort
      calls (b'a' ∷ []) key_c 10 (inl refl, (inl refl, (inr refl, (inl refl, (inr refl, tt)))))
      (omega arith, (omega arith, (omega arith, tt))) (inr refl)
      (inr refl, (inr refl, (inr refl, (inr refl, (inl refl, tt)))))
