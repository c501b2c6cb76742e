-- ===== src/Compaction/Iter/Snapshots.antt =====
-- Snapshot stripes (snapshotIndex of compaction_iter.go): keys of one stripe are seen by the same
-- snapshots, and every snapshot sees the bottom stripe.
use pebble.Prelude.{ℕ, suc, ◌≤◌, ◌<◌, ◌≡◌, inl, inr, List, [], ◌∷◌, ltb, arith, All, Among}
use pebble.Compaction.Iter.Stripe.{search_from, snapshot_index}

abbrev pub IsAscending : List ℕ → Type 0
IsAscending [] = Unit {0}
IsAscending (x ∷ xs) = All (λ y. x < y) xs × IsAscending xs

pub lt_of_Among : (x s : ℕ) (xs : List ℕ) → All (λ y. x < y) xs → Among s xs → x < s
lt_of_Among x s [] a m = absurd m
lt_of_Among x s (y ∷ ys) a (inl e) = omega arith
lt_of_Among x s (y ∷ ys) a (inr m) = lt_of_Among x s ys (a.1) m

search_from-ge : (i seq : ℕ) (xs : List ℕ) → i ≤ (search_from i seq xs).0
unfolding search_from
search_from-ge i seq [] = omega arith
search_from-ge i seq (x ∷ xs) = ground (arith, search_from-ge (suc i) seq xs)

search_from_uniform :
    (i a b s : ℕ) (xs : List ℕ)
    → IsAscending xs
    → Among s xs
    → (search_from i a xs).0 ≡ (search_from i b xs).0
    → ltb a s ≡ ltb b s
unfolding search_from
search_from_uniform i a b s [] asc m e = absurd m
search_from_uniform i a b s (x ∷ xs) asc (inl eq) e =
    ground (arith, search_from-ge (suc i) a xs, search_from-ge (suc i) b xs)
search_from_uniform i a b s (x ∷ xs) asc (inr m) e = ground (
  arith,
  search_from-ge (suc i) a xs,
  search_from-ge (suc i) b xs,
  lt_of_Among x s xs (asc.0) m,
  search_from_uniform (suc i) a b s xs (asc.1) m,
)

-- Two sequence numbers of one stripe lie on the same side of every snapshot.
pub snapshot_index_uniform :
    (a b s : ℕ) (xs : List ℕ)
    → IsAscending xs
    → Among s xs
    → (snapshot_index a xs).0 ≡ (snapshot_index b xs).0
    → ltb a s ≡ ltb b s
unfolding snapshot_index
snapshot_index_uniform a b s xs asc m e = search_from_uniform 0 a b s xs asc m e

-- The bottom stripe lies below every snapshot.
pub snapshot_index_bottom :
    (a s : ℕ) (xs : List ℕ) → IsAscending xs → Among s xs → (snapshot_index a xs).0 ≡ 0 → a < s
unfolding snapshot_index search_from
snapshot_index_bottom a s [] asc m e = absurd m
snapshot_index_bottom a s (x ∷ xs) asc (inl eq) e = ground (arith, search_from-ge 1 a xs)
snapshot_index_bottom a s (x ∷ xs) asc (inr m) e =
    ground (arith, search_from-ge 1 a xs, lt_of_Among x s xs (asc.0) m)

search_from_mono :
    (i a b : ℕ) (xs : List ℕ) → a ≤ b → (search_from i a xs).0 ≤ (search_from i b xs).0
unfolding search_from
search_from_mono i a b [] h = omega arith
search_from_mono i a b (x ∷ xs) h =
    ground (arith, search_from-ge (suc i) b xs, search_from_mono (suc i) a b xs h)

-- An older key lies in the same stripe or a lower one.
pub snapshot_index_mono :
    (a b : ℕ) (xs : List ℕ) → a ≤ b → (snapshot_index a xs).0 ≤ (snapshot_index b xs).0
unfolding snapshot_index
snapshot_index_mono a b xs h = search_from_mono 0 a b xs h
