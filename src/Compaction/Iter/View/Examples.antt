-- ===== src/Compaction/Iter/View/Examples.antt =====
-- A compaction of five entries with a snapshot at 7, as in the comment of compaction_iter.go.
use pebble.Prelude.{ℕ, ◌+◌, ◌*◌, ◌≡◌, ◌≢◌, refl, true, List, [], ◌∷◌, length, arith, All}
use pebble.Prelude.Outcome.{ok, stuck}
use pebble.Key.{kind, seq_num, internal_compare}
use pebble.Key.Bytewise.{bytes_compare, bytes_compare-IsCompare}
use pebble.Compaction.Iter.Stripe.{snapshot_index, Entry, Config, Merger, failed, external}
use pebble.Compaction.Iter.Methods.{first, next, new_compaction_iter}
use pebble.Compaction.Iter.Collapse.{
  IsPoint, collapse, collapse_after, emit, stripe, no_tombstones, drain_from,
}
use pebble.Compaction.Iter.Collapse.Drain.{drain-collapse}
use pebble.Compaction.Iter.View.{read, IsViewed, IsSorted}
use pebble.Compaction.Iter.Total.{next-ne-stuck}
use pebble.Compaction.Iter.View.Reads.{drain-read}

abbrev no_merger : Merger (List ℕ)
no_merger = record {
  merge = λ k v. failed (external 1);
  merge_older = λ vm v. failed (external 1);
  finish = λ vm b. failed (external 1);
}

abbrev config : Config (List ℕ)
config = record {
  cmp = bytes_compare;
  merger = no_merger;
  snapshots = 7 ∷ [];
  allow_zero_seq_num = true;
  elide_tombstone = λ k. true;
}

abbrev entry : ℕ → ℕ → Entry
entry seq kind = (record { user_key = b'a' ∷ []; trailer = seq * 256 + kind }, seq ∷ [])

-- a.PUT.9, a.DEL.8, a.PUT.7, a.DEL.6, a.PUT.5.
abbrev entries : List Entry
entries = entry 9 1 ∷ entry 8 0 ∷ entry 7 1 ∷ entry 6 0 ∷ entry 5 1 ∷ []

IsPoint-entries : All IsPoint entries
unfolding kind
IsPoint-entries = omega arith

IsViewed-entries : All (IsViewed (7 ∷ []) 7) entries
unfolding seq_num
IsViewed-entries = omega arith

IsSorted-entries : IsSorted bytes_compare entries
unfolding internal_compare bytes_compare
IsSorted-entries = (
  (refl, (refl, (refl, (refl, tt)))),
  ((refl, (refl, (refl, tt))), ((refl, (refl, tt)), ((refl, tt), (tt, tt)))),
)

drain-collapse_example :
    drain_from config
      (length entries + 1)
      (first config (new_compaction_iter entries no_tombstones))
    ≡ ok (collapse config entries)
drain-collapse_example = drain-collapse config entries IsPoint-entries

-- The snapshot at 7 reads nothing, also after the tombstone a.DEL.6 is elided.
drain-read_example :
    (out : List Entry) × (drain_from config
        (length entries + 1)
        (first config (new_compaction_iter entries no_tombstones))
      ≡ ok out)
    × (read bytes_compare (b'a' ∷ []) 7 out ≡ read bytes_compare (b'a' ∷ []) 7 entries)
drain-read_example =
    drain-read config (b'a' ∷ []) 7 entries bytes_compare-IsCompare (omega arith) IsPoint-entries
      IsViewed-entries IsSorted-entries

-- The output: a.PUT.9 alone, since the stripe below 7 is elided.
collapse-entries : collapse config entries ≡ entry 9 1 ∷ []
unfolding collapse collapse_after emit stripe snapshot_index kind seq_num bytes_compare
collapse-entries = refl

next-ne-stuck_example :
    (next config (new_compaction_iter entries no_tombstones) ≢ stuck)
    × (first config (new_compaction_iter entries no_tombstones) ≢ stuck)
next-ne-stuck_example = next-ne-stuck config (new_compaction_iter entries no_tombstones)
