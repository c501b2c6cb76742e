-- ===== src/Iterator/Search.antt =====
-- The state of Iterator (iterator.go) and the loops that look for the next or the previous user
-- key with a value. The internal iterator is a position among the entries between the bounds, and
-- iterKey and iterValue are the entry there.
use pebble.Prelude.{
  ℕ, zero, suc, Bool, true, false, not, ◌&&◌, ◌||◌, Option, none, some, List, [], ◌∷◌, ◌==◌,
  if◌then◌else◌, length, take,
}
use pebble.Prelude.Outcome.{Outcome, ok, stuck}
use pebble.Key.{Compare, kind, seq_num, kind_delete, kind_single_delete, kind_set, kind_merge}
use pebble.Key.Bytewise.{bytes_equal}
use pebble.Compaction.Iter.{Entry, Err, corruption, invalid_kind, Closer, value_of, failed}
use pebble.Iterator.Internal.{Position, nowhere, on}
use pebble.Iterator.Merging.{ValueMerger}

-- iterPos.
pub data IterPos : Type 0 where
  pos_cur_forward pos_next pos_prev pos_cur_reverse : IterPos

-- An error of the merge operator, a closer or the input, or one of the iterator's own.
pub data IterError : Type 0 where
  raised : Err → IterError
  not_at_prev reverse_prefix : IterError

-- What newIter sets: the options, the operator and the entries of the internal iterator.
pub record Config (V : Type 0) : Type 0 where
  pub cmp : Compare
  pub equal : List ℕ → List ℕ → Bool
  pub split : List ℕ → ℕ
  pub merger : ValueMerger V
  pub lower : Option (List ℕ)
  pub upper : Option (List ℕ)
  pub contents : List Entry

pub record Iterator : Type 0 where
  pub iter : Position Entry
  pub err : Option IterError
  pub key : List ℕ
  pub value : List ℕ
  pub value_closer : Option Closer
  pub valid : Bool
  pub pos : IterPos
  pub has_prefix : Bool
  pub prefix : List ℕ

-- The cases of the switches on the kind of a key.
pub data KindCase : Type 0 where
  deletion set_value merge_operand : KindCase
  other : ℕ → KindCase

unfoldable pub kind_case : ℕ → KindCase
kind_case k =
    if k == kind_delete || k == kind_single_delete
    then deletion
    else if k == kind_set
    then set_value
    else if k == kind_merge
    then merge_operand
    else other k

-- base.CorruptionErrorf on a kind that the switches do not know.
abbrev pub bad_kind : ℕ → Option IterError
bad_kind k = some (raised (corruption (invalid_kind k)))

-- How far a search can go: the entries from the position on.
abbrev pub remaining : Position Entry → ℕ
remaining nowhere = 0
remaining (on l e r) = suc (length r)

-- Closes the closer of the current value, if one is open, and goes on unless that fails.
unfoldable pub after_close :
    (Iterator → Outcome (Bool × Iterator)) → Iterator → Outcome (Bool × Iterator)
after_close go s = elim s.value_closer [
  | none ↦ go s
  | some none ↦ go (record s { err = none; value_closer = none })
  | some (some e) ↦ ok (false, record s { err = some (raised e); value_closer = none })
]

module _ {V : Type 0} (c : Config V) where
  -- The loop of nextUserKey, from the entry `e`; the last version of a key has number 0.
  unfoldable pub skip_forward : List ℕ → Bool → List Entry → Entry → List Entry → Position Entry
  skip_forward u done l e [] = nowhere
  skip_forward u done l e (f ∷ r) = elim (done || not (c.equal u (f.0).user_key)) [
    | true ↦ on (e ∷ l) f r
    | false ↦ skip_forward u (seq_num (f.0) == 0) (e ∷ l) f r
  ]

  unfoldable pub next_user_key : Iterator → Iterator
  unfolding skip_forward
  next_user_key s = elim s.iter [
    | nowhere ↦ s
    | on l (k, v) r ↦
        let u = if s.valid then s.key else k.user_key in
        record s { key = u; iter = skip_forward u (seq_num k == 0) l (k, v) r }
  ]

  -- The loop of prevUserKey.
  unfoldable pub skip_back : List ℕ → List Entry → Entry → List Entry → Position Entry
  skip_back u [] e r = nowhere
  skip_back u (f ∷ l) e r = elim (c.equal u (f.0).user_key) [
    | false ↦ on l f (e ∷ r)
    | true ↦ skip_back u l f (e ∷ r)
  ]

  unfoldable pub prev_user_key : Iterator → Iterator
  unfolding skip_back
  prev_user_key s = elim s.iter [
    | nowhere ↦ s
    | on l (k, v) r ↦
        let u = if s.valid then s.key else k.user_key in
        record s { key = u; iter = skip_back u l (k, v) r }
  ]

  -- MergeOlder on the entry `f`; it ends the loop of mergeNext if the entry is a Set.
  unfoldable pub merge_older_entry : Entry → V → Iterator → V × Iterator
  merge_older_entry f u s = elim (c.merger.merge_older u (f.1)) [
    | value_of w ↦ (w, record s { err = none })
    | failed e ↦ (u, record s { err = some (raised e) })
  ]

  -- The loop of mergeNext, which returns the value merger as well, since calls change it.
  unfoldable pub merge_loop : List Entry → Entry → List Entry → V → Iterator → V × Iterator
  unfolding merge_older_entry
  merge_loop l e [] u s = (u, record s { iter = nowhere; pos = pos_next })
  merge_loop l e (f ∷ r) u s = elim (c.equal s.key (f.0).user_key) [
    | false ↦ (u, record s { iter = on (e ∷ l) f r; pos = pos_next })
    | true ↦ elim (kind_case (kind (f.0))) [
      | deletion ↦ (u, record s { iter = on (e ∷ l) f r })
      | set_value ↦ merge_older_entry f u (record s { iter = on (e ∷ l) f r })
      | merge_operand ↦ elim (c.merger.merge_older u (f.1)) [
        | value_of w ↦ merge_loop (e ∷ l) f r w (record s { iter = on (e ∷ l) f r; err = none })
        | failed x ↦ (u, record s { iter = on (e ∷ l) f r; err = some (raised x) })
      ]
      | other k ↦ (u, record s { iter = on (e ∷ l) f r; err = bad_kind k })
    ]
  ]

  unfoldable pub merge_next : List Entry → Entry → List Entry → V → Iterator → V × Iterator
  unfolding merge_loop
  merge_next l e r u s = merge_loop l e r u (record s { key = (e.0).user_key; valid = true })

  -- Finish; the caller returns whether there is no error.
  unfoldable pub finish_value : V → Iterator → Bool × Iterator
  finish_value u s = elim (c.merger.finish u true) [
    | value_of (v, o) ↦ (true, record s { value = v; value_closer = o; err = none })
    | failed e ↦ (false, record s { value = []; value_closer = none; err = some (raised e) })
  ]

  unfoldable pub after_merge : V × Iterator → Bool × Iterator
  unfolding finish_value
  after_merge (w, s) = elim s.err [ none ↦ finish_value w s | some x ↦ (false, s) ]

  -- The case of a merge operand in findNextEntry. Merge is called with the key that the iterator
  -- holds at that time.
  unfoldable pub find_next_merge : List Entry → Entry → List Entry → Iterator → Bool × Iterator
  unfolding merge_next after_merge
  find_next_merge l e r s = elim (c.merger.merge s.key (e.1)) [
    | failed x ↦ (false, record s { err = some (raised x) })
    | value_of u ↦ after_merge (merge_next l e r u (record s { err = none }))
  ]

  unfoldable pub outside_prefix : List ℕ → Iterator → Bool
  unfolding bytes_equal
  outside_prefix u s = s.has_prefix && not (bytes_equal s.prefix (take (c.split u) u))

  unfoldable pub find_next_loop : ℕ → Iterator → Outcome (Bool × Iterator)
  unfolding next_user_key find_next_merge outside_prefix
  find_next_loop zero s = stuck
  find_next_loop (suc n) s = elim s.iter [
    | nowhere ↦ ok (false, s)
    | on l (k, v) r ↦ elim (outside_prefix k.user_key s) [
      | true ↦ ok (false, s)
      | false ↦ elim (kind_case (kind k)) [
        | deletion ↦ find_next_loop n (next_user_key s)
        | set_value ↦ ok (true, record s { key = k.user_key; value = v; valid = true })
        | merge_operand ↦ ok (find_next_merge l (k, v) r s)
        | other x ↦ ok (false, record s { err = bad_kind x })
      ]
    ]
  ]

  -- Each round passes at least one entry.
  unfoldable pub find_next_entry : Iterator → Outcome (Bool × Iterator)
  unfolding find_next_loop after_close
  find_next_entry s =
      after_close (λ t. find_next_loop (suc (remaining t.iter)) t)
        (record s { valid = false; pos = pos_cur_forward })
