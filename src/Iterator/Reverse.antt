-- ===== src/Iterator/Reverse.antt =====
-- findPrevEntry of iterator.go, which collects the versions of a user key from the oldest to the
-- newest, up to the entry of the user key before.
use pebble.Prelude.{Bool, true, false, not, ◌&&◌, Option, none, some, List, [], ◌∷◌, if◌then◌else◌}
use pebble.Prelude.Outcome.{Outcome, ok}
use pebble.Key.{kind}
use pebble.Compaction.Iter.{Entry, Fallible, value_of, failed}
use pebble.Iterator.Internal.{Position, nowhere, on, behind}
use pebble.Iterator.Search.{
  pos_prev, pos_cur_reverse, raised, Config, Iterator, deletion, set_value, merge_operand, other,
  kind_case, bad_kind, after_close, finish_value,
}

module _ {V : Type 0} (c : Config V) where
  -- The value merger after a merge operand: a new one, one that starts with the value of a Set, or
  -- the one that is there.
  unfoldable pub merge_newer_entry : Option V → Entry → Iterator → Fallible V
  merge_newer_entry m (k, v) s = elim s.valid [
    | false ↦ c.merger.merge k.user_key v
    | true ↦ elim m [
      | some u ↦ c.merger.merge_newer u v
      | none ↦ elim (c.merger.merge s.key s.value) [
        | failed x ↦ failed x
        | value_of u ↦ c.merger.merge_newer u v
      ]
    ]
  ]

  -- The user key is complete.
  unfoldable pub finish_prev : Option V → Iterator → Bool × Iterator
  unfolding finish_value
  finish_prev m s = elim m [
    | none ↦ (true, record s { pos = pos_prev })
    | some u ↦ finish_value c u (record s { pos = pos_prev })
  ]

  -- The loop, at the first of the entries `l` that are before `r`, the nearest first.
  unfoldable pub find_prev_loop : List Entry → List Entry → Option V → Iterator → Bool × Iterator
  unfolding merge_newer_entry finish_prev behind
  find_prev_loop [] r m s = elim s.valid [ true ↦ finish_prev m s | false ↦ (false, s) ]
  find_prev_loop ((k, v) ∷ l) r m s = elim (s.valid && not (c.equal k.user_key s.key)) [
    | true ↦ finish_prev m s
    | false ↦ elim (kind_case (kind k)) [
      | deletion ↦
          find_prev_loop l ((k, v) ∷ r) none
            (record s { value = []; valid = false; iter = behind l ((k, v) ∷ r) })
      | set_value ↦
          find_prev_loop l ((k, v) ∷ r) none
            (record s { key = k.user_key; value = v; valid = true; iter = behind l ((k, v) ∷ r) })
      | merge_operand ↦
          let t = record s { key = if s.valid then s.key else k.user_key } in
          elim (merge_newer_entry m (k, v) s) [
            | failed x ↦ (false, record t { err = some (raised x) })
            | value_of u ↦
                find_prev_loop l ((k, v) ∷ r) (some u)
                  (record t { err = none; valid = true; iter = behind l ((k, v) ∷ r) })
          ]
      | other x ↦ (false, record s { err = bad_kind x })
    ]
  ]

  unfoldable pub find_prev_at : Position Entry → Iterator → Bool × Iterator
  unfolding find_prev_loop
  find_prev_at nowhere s = find_prev_loop [] [] none s
  find_prev_at (on l e r) s = find_prev_loop (e ∷ l) r none s

  unfoldable pub find_prev_entry : Iterator → Outcome (Bool × Iterator)
  unfolding find_prev_at after_close
  find_prev_entry s =
      after_close (λ t. ok (find_prev_at t.iter t))
        (record s { valid = false; pos = pos_cur_reverse })
