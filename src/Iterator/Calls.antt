-- ===== src/Iterator/Calls.antt =====
-- The positioning methods of Iterator (iterator.go) without those of prefix iteration. Each returns
-- what the method returns and the new state.
use pebble.Prelude.{◌&&◌, ℕ, Bool, true, false, Option, none, some, List, [], ◌∷◌, if◌then◌else◌}
use pebble.Prelude.Outcome.{Outcome, ok, panic, stuck}
use pebble.Key.{is_lt}
use pebble.Key.Bytewise.{bytes_equal}
use pebble.Key.TotalOrder.{is_gt}
use pebble.Compaction.Iter.{Entry}
use pebble.Iterator.Internal
use pebble.Iterator.Internal.{Position, nowhere, on}
use pebble.Iterator.Search.{
  IterError, pos_cur_forward, pos_next, pos_prev, pos_cur_reverse, not_at_prev, reverse_prefix,
  Config, Iterator, next_user_key, prev_user_key, find_next_entry,
}
use pebble.Iterator.Reverse.{find_prev_entry}

abbrev pub entry_key : Entry → List ℕ
entry_key e = (e.0).user_key

-- The Iterator that newIter returns.
abbrev pub new_iter : Iterator
new_iter = record {
  iter = nowhere;
  err = none;
  key = [];
  value = [];
  value_closer = none;
  valid = false;
  pos = pos_cur_forward;
  has_prefix = false;
  prefix = [];
}

module _ {V : Type 0} (c : Config V) where
  -- The lower bound, if the key is less; the upper bound, if the key is greater.
  unfoldable pub below_lower : List ℕ → Option (List ℕ)
  below_lower key = elim c.lower [
    | none ↦ none
    | some b ↦ if is_lt (c.cmp key b) then some b else none
  ]

  unfoldable pub above_upper : List ℕ → Option (List ℕ)
  above_upper key = elim c.upper [
    | none ↦ none
    | some b ↦ if is_gt (c.cmp key b) then some b else none
  ]

  -- The keys that SeekGE and SeekLT look for.
  unfoldable pub seek_ge_key : List ℕ → List ℕ
  unfolding below_lower above_upper
  seek_ge_key key = elim (below_lower key) [
    | some b ↦ b
    | none ↦ elim (above_upper key) [ some b ↦ b | none ↦ key ]
  ]

  unfoldable pub seek_lt_key : List ℕ → List ℕ
  unfolding below_lower above_upper
  seek_lt_key key = elim (above_upper key) [
    | some b ↦ b
    | none ↦ elim (below_lower key) [ some b ↦ b | none ↦ key ]
  ]

  -- The internal iterator at the first and at the last entry within the bounds.
  unfoldable pub to_first : Position Entry
  unfolding Internal.seek_ge Internal.seek_first
  to_first = elim c.lower [
    | some b ↦ Internal.seek_ge c.cmp entry_key b c.contents
    | none ↦ Internal.seek_first c.contents
  ]

  unfoldable pub to_last : Position Entry
  unfolding Internal.seek_lt Internal.seek_last
  to_last = elim c.upper [
    | some b ↦ Internal.seek_lt c.cmp entry_key b c.contents
    | none ↦ Internal.seek_last c.contents
  ]

  -- The start of each absolute positioning.
  abbrev reset : Position Entry → Iterator → Iterator
  reset p s = record s { err = none; has_prefix = false; iter = p }

  unfoldable pub seek_ge : List ℕ → Iterator → Outcome (Bool × Iterator)
  unfolding find_next_entry seek_ge_key Internal.seek_ge
  seek_ge key s =
      find_next_entry c (reset (Internal.seek_ge c.cmp entry_key (seek_ge_key key) c.contents) s)

  unfoldable pub seek_lt : List ℕ → Iterator → Outcome (Bool × Iterator)
  unfolding find_prev_entry seek_lt_key Internal.seek_lt
  seek_lt key s =
      find_prev_entry c (reset (Internal.seek_lt c.cmp entry_key (seek_lt_key key) c.contents) s)

  unfoldable pub first : Iterator → Outcome (Bool × Iterator)
  unfolding find_next_entry to_first
  first s = find_next_entry c (reset to_first s)

  unfoldable pub last : Iterator → Outcome (Bool × Iterator)
  unfolding find_prev_entry to_last
  last s = find_prev_entry c (reset to_last s)

  -- The case iterPosPrev of Next: to the entries of the current user key, unless the internal
  -- iterator is before the first.
  unfoldable pub leave_prev : Iterator → Iterator
  unfolding next_user_key to_first
  leave_prev s = elim s.iter [
    | nowhere ↦ record s { valid = false; iter = to_first }
    | on l e r ↦ next_user_key c (record s { valid = false })
  ]

  unfoldable pub next : Iterator → Outcome (Bool × Iterator)
  unfolding find_next_entry leave_prev next_user_key to_first
  next s = elim s.err [
    | some e ↦ ok (false, s)
    | none ↦ elim s.pos [
      | pos_cur_forward ↦ find_next_entry c (next_user_key c s)
      | pos_cur_reverse ↦ elim s.iter [
        | on l e r ↦ ok (false, record s { err = some not_at_prev; valid = false })
        | nowhere ↦ find_next_entry c (record s { iter = to_first })
      ]
      | pos_prev ↦ find_next_entry c (next_user_key c (leave_prev s))
      | pos_next ↦ find_next_entry c s
    ]
  ]

  -- Switching direction in Prev.
  unfoldable pub leave_next : Iterator → Iterator
  unfolding prev_user_key to_last
  leave_next s = elim s.iter [
    | nowhere ↦ record s { valid = false; iter = to_last }
    | on l e r ↦ prev_user_key c (record s { valid = false })
  ]

  unfoldable pub prev : Iterator → Outcome (Bool × Iterator)
  unfolding find_prev_entry leave_next prev_user_key to_last
  prev s = elim s.err [
    | some e ↦ ok (false, s)
    | none ↦ elim s.has_prefix [
      | true ↦ ok (false, record s { err = some reverse_prefix })
      | false ↦ elim s.pos [
        | pos_cur_forward ↦ find_prev_entry c (leave_next s)
        | pos_next ↦ find_prev_entry c (prev_user_key c (leave_next s))
        | pos_cur_reverse ↦ find_prev_entry c (prev_user_key c s)
        | pos_prev ↦ find_prev_entry c s
      ]
    ]
  ]

-- A bound, where nil differs from an empty one.
unfoldable pub same_bound : Option (List ℕ) → Option (List ℕ) → Bool
unfolding bytes_equal
same_bound none none = true
same_bound none (some b) = false
same_bound (some a) none = false
same_bound (some a) (some b) = bytes_equal a b

module _ {V : Type 0} (c : Config V) where
  unfoldable pub same_bounds : Option (List ℕ) → Option (List ℕ) → Bool
  unfolding same_bound
  same_bounds lower upper = same_bound lower c.lower && same_bound upper c.upper

  -- The state after SetBounds.
  unfoldable pub set_bounds : Option (List ℕ) → Option (List ℕ) → Iterator → Iterator
  unfolding same_bounds
  set_bounds lower upper s = elim (same_bounds lower upper) [
    | true ↦ s
    | false ↦ record s {
      has_prefix = false;
      iter = nowhere;
      valid = false;
      pos = elim s.pos [
        | pos_cur_forward ↦ pos_cur_forward
        | pos_next ↦ pos_cur_forward
        | pos_cur_reverse ↦ pos_cur_reverse
        | pos_prev ↦ pos_cur_reverse
      ];
    }
  ]

  -- The options after SetBounds, where the internal iterator has the entries `es` within the new
  -- bounds.
  abbrev pub with_bounds : Option (List ℕ) → Option (List ℕ) → List Entry → Config V
  with_bounds lower upper es = record c { lower = lower; upper = upper; contents = es }

-- The calls of a user.
pub data Call : Type 0 where
  call_first call_last call_next call_prev : Call
  call_seek_ge call_seek_lt : List ℕ → Call

-- What a user sees after a call: the result, the key and value if Valid, and Error.
abbrev pub Seen : Type 0
Seen = Bool × Option (List ℕ × List ℕ) × Option IterError

unfoldable pub seen : Bool × Iterator → Seen
seen (b, s) = (b, if s.valid then some (s.key, s.value) else none, s.err)

module _ {V : Type 0} (c : Config V) where
  unfoldable pub call : Call → Iterator → Outcome (Bool × Iterator)
  unfolding first last next prev seek_ge seek_lt
  call call_first s = first c s
  call call_last s = last c s
  call call_next s = next c s
  call call_prev s = prev c s
  call (call_seek_ge key) s = seek_ge c key s
  call (call_seek_lt key) s = seek_lt c key s

  -- A sequence of calls, by what the user sees after each.
  unfoldable pub run : List Call → Iterator → Outcome (List Seen)
  unfolding call seen
  run [] s = ok []
  run (k ∷ ks) s = elim (call k s) [
    | ok (b, t) ↦ elim (run ks t) [
      | ok out ↦ ok (seen (b, t) ∷ out)
      | panic ↦ panic
      | stuck ↦ stuck
    ]
    | panic ↦ panic
    | stuck ↦ stuck
  ]

  -- The state after a sequence of calls.
  unfoldable pub state_after : List Call → Iterator → Outcome Iterator
  unfolding call
  state_after [] s = ok s
  state_after (k ∷ ks) s = elim (call k s) [
    | ok (b, t) ↦ state_after ks t
    | panic ↦ panic
    | stuck ↦ stuck
  ]
