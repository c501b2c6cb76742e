-- ===== src/Rangedel/Fragment.antt =====
-- The Fragmenter's operations: internal/rangedel/fragmenter.go. Emit is called with the chunks that
-- an operation returns, in order. The sorts are those of sort.Sort by end key and by sequence number.
pub mod Ends
pub mod Chunks
pub mod Flush
pub mod Cut
pub mod Conserve
pub mod Calls
pub mod Runs
pub mod Pending
mod Examples
use pebble.Prelude.{
  ℕ, zero, suc, ◌+◌, Bool, true, false, not, ◌&&◌, ◌||◌, Option, none, some, List, [], ◌∷◌, ◌++◌,
  map, ltb, if◌then◌else◌, length, take, drop,
}
use pebble.Prelude.Outcome.{Outcome, ok, panic, stuck, ◌>>=◌}
use pebble.Key.{InternalKey, Compare, is_lt, make_internal_key, kind, seq_num}
use pebble.Key.TotalOrder.{is_gt, is_le}
use pebble.Rangedel.{Tombstone, Fragmenter, is_eq}

abbrev pub with_start : List ℕ → Tombstone → Tombstone
with_start key t = record t { start = record (t.start) { user_key = key } }

abbrev pub with_end : List ℕ → Tombstone → Tombstone
with_end key t = record t { end = key }

-- Less of tombstonesByEndKey and of tombstonesBySeqNum.
abbrev pub ends_less : Compare → Tombstone → Tombstone → Bool
ends_less cmp a b = is_lt (cmp a.end b.end)

abbrev pub seqs_less : Tombstone → Tombstone → Bool
seqs_less a b = ltb (seq_num b.start) (seq_num a.start)

unfoldable pub new_fragmenter : Fragmenter
new_fragmenter = record { pending = []; flushed_key = none; finished = false }

-- Empty and Start.
unfoldable pub is_flushed : Fragmenter → Bool
is_flushed f = elim f.pending [ [] ↦ true | t ∷ ts ↦ f.finished ]

unfoldable pub start_key : Fragmenter → Option (List ℕ)
start_key f = elim f.pending [ [] ↦ none | t ∷ ts ↦ some t.start.user_key ]

abbrev pub restart : List ℕ → Tombstone → Tombstone
restart key t = record {
  start = make_internal_key key (seq_num t.start) (kind t.start);
  end = t.end;
}

abbrev pub Emitted : Type 0
Emitted = Fragmenter × List (List Tombstone)

module _ (cmp : Compare) where
  -- The tombstones that end at the split point, as flush counts them.
  unfoldable pub count_ends : List ℕ → List Tombstone → ℕ
  count_ends split [] = 0
  count_ends split (t ∷ ts) =
      let rest = count_ends split ts in if is_eq (cmp split t.end) then suc rest else rest

  abbrev pub passes : Option (List ℕ) → List ℕ → Bool
  passes none split = false
  passes (some last) split = is_gt (cmp split last)

  -- The tombstones that go on behind the key, from there on.
  unfoldable pub cut_behind : List ℕ → List Tombstone → List Tombstone
  cut_behind key [] = []
  cut_behind key (t ∷ ts) =
      let rest = cut_behind key ts in if is_lt (cmp key t.end) then restart key t ∷ rest else rest

  -- What truncateAndFlush collects as done.
  unfoldable pub cut_before : List ℕ → List Tombstone → List Tombstone
  cut_before key [] = []
  cut_before key (t ∷ ts) =
      let rest = cut_before key ts in
      if is_lt (cmp key t.end)
      then if is_lt (cmp t.start.user_key key) then with_end key t ∷ rest else rest
      else t ∷ rest

  -- A key in front of the key that was flushed to.
  abbrev pub is_behind : List ℕ → Fragmenter → Bool
  is_behind key f = elim f.flushed_key [ none ↦ false | some k ↦ is_lt (cmp key k) ]

  -- The key is in front of the pending tombstones.
  abbrev pub is_before_pending : List ℕ → List Tombstone → Bool
  is_before_pending key [] = false
  is_before_pending key (p ∷ ps) = is_gt (cmp p.start.user_key key)

  abbrev pub is_at_pending : List ℕ → List Tombstone → Bool
  is_at_pending key [] = false
  is_at_pending key (p ∷ ps) = is_eq (cmp p.start.user_key key)

module _ (cmp : Compare) (sort_ends sort_seqs : List Tombstone → List Tombstone) where
  -- The loop of flush over the buffer that is left: the chunks, and the buffer as it is left behind.
  unfoldable pub flush_loop :
      ℕ → Option (List ℕ) → List Tombstone → Outcome (List (List Tombstone) × List Tombstone)
  unfolding count_ends
  flush_loop fuel last [] = ok ([], [])
  flush_loop zero last (t ∷ ts) = stuck
  flush_loop (suc fuel) last (t ∷ ts) =
      let chunk = sort_seqs (t ∷ map (with_end t.end) ts) in
      let n = count_ends cmp t.end ts in
      let rest = flush_loop fuel last (map (with_start t.end) (drop n ts)) in
      if passes cmp last t.end
      then ok (chunk ∷ [], t ∷ ts)
      else rest >>= (λ r. ok (chunk ∷ r.0, t ∷ (take n ts ++ r.1)))

  unfoldable pub flush :
      List Tombstone → Option (List ℕ) → Outcome (List (List Tombstone) × List Tombstone)
  unfolding flush_loop
  flush buf last = let b = sort_ends buf in flush_loop (length b) last b

  unfoldable pub truncate_and_flush : List ℕ → Fragmenter → Outcome Emitted
  unfolding flush cut_before cut_behind
  truncate_and_flush key f = flush (cut_before cmp key f.pending) none >>= (λ r.
      ok (record f { pending = cut_behind cmp key f.pending; flushed_key = some key }, r.0))

  unfoldable pub add_pending : List Tombstone → Tombstone → Fragmenter → Outcome Emitted
  unfolding truncate_and_flush
  add_pending [] t f = ok (record f { pending = f.pending ++ (t ∷ []) }, [])
  add_pending (p ∷ ps) t f =
      if is_gt (cmp p.start.user_key t.start.user_key)
      then panic
      else if is_eq (cmp p.start.user_key t.start.user_key)
      then ok (record f { pending = f.pending ++ (t ∷ []) }, [])
      else truncate_and_flush t.start.user_key f
        >>= (λ r. ok (record (r.0) { pending = (r.0).pending ++ (t ∷ []) }, r.1))

  unfoldable pub add : InternalKey → List ℕ → Fragmenter → Outcome Emitted
  unfolding add_pending
  add start end f =
      if f.finished || is_behind cmp start.user_key f
      then panic
      else if not (is_lt (cmp start.user_key end))
      then ok (f, [])
      else add_pending f.pending (record { start = start; end = end }) f

  unfoldable pub flush_to : List ℕ → Fragmenter → Outcome Emitted
  unfolding flush cut_behind
  flush_to key f =
      if f.finished || (is_behind cmp key f || is_before_pending cmp key f.pending)
      then panic
      else flush f.pending (some key)
        >>= (λ r. ok (record f { pending = cut_behind cmp key (r.1); flushed_key = some key }, r.0))

  unfoldable pub truncate_and_flush_to : List ℕ → Fragmenter → Outcome Emitted
  unfolding truncate_and_flush
  truncate_and_flush_to key f =
      if f.finished || (is_behind cmp key f || is_before_pending cmp key f.pending)
      then panic
      else if is_at_pending cmp key f.pending
      then ok (f, [])
      else truncate_and_flush key f

  unfoldable pub finish : Fragmenter → Outcome Emitted
  unfolding flush
  finish f =
      if f.finished
      then panic
      else flush f.pending none >>= (λ r. ok (record f { pending = r.1; finished = true }, r.0))
