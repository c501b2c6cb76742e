-- ===== src/Iterator/Refine/Rounds.antt =====
-- The rounds of findNextEntry of iterator.go, and the rows of groups.
use pebble.Prelude.{
  ℕ, suc, ◌≡◌, refl, ◌∙◌, ap, true, false, Option, none, some, List, [], ◌∷◌, ◌++◌, ◌==◌,
}
use pebble.Prelude.Outcome.{ok}
use pebble.Key.{seq_num}
use pebble.Compaction.Iter.{Entry, Closer, value_of}
use pebble.Iterator.Internal.{Position, on, onto}
use pebble.Iterator.Search.{
  IterPos, pos_cur_forward, Config, deletion, set_value, merge_operand, skip_forward, next_user_key,
  merge_loop, merge_next, finish_value, find_next_merge, after_merge, outside_prefix,
  find_next_loop,
}
use pebble.Iterator.Calls.{entry_key}
use pebble.Iterator.Rows.{Group, kind_of, older, resolve, rows}
use pebble.Iterator.Groups.{flat, flat_back}
use pebble.Iterator.Refine.Standing.{state, Spot, within, beyond}
use pebble.Iterator.Refine.Operands.{Landed, landed_within, landed_past}

module _ {V : Type 0} (c : Config V) (l : List Entry) (e : Entry) (r : List Entry)
    (k v pr : List ℕ) where
  pub round_deletion :
      (n : ℕ)
      → kind_of e ≡ deletion
      → find_next_loop c (suc n) (state (on l e r) k v none false pos_cur_forward pr)
        ≡ find_next_loop c n (
            state
              (skip_forward c (entry_key e) (seq_num (e.0) == 0) l e r)
              (entry_key e)
              v
              none
              false
              pos_cur_forward
              pr)
  unfolding find_next_loop next_user_key kind_of outside_prefix
  round_deletion n h = rw (h, find_next_loop) refl

  pub round_set :
      (n : ℕ)
      → kind_of e ≡ set_value
      → find_next_loop c (suc n) (state (on l e r) k v none false pos_cur_forward pr)
        ≡ ok (true, state (on l e r) (entry_key e) (e.1) none true pos_cur_forward pr)
  unfolding find_next_loop kind_of outside_prefix
  round_set n h = rw (h, find_next_loop) refl

  pub after_merge_ok :
      (w : V) (i : Position Entry) (ps : IterPos) (x : List ℕ) (o : Option Closer)
      → c.merger.finish w true ≡ value_of (x, o)
      → after_merge c (w, state i (entry_key e) v none true ps pr)
        ≡ (true, state i (entry_key e) x o true ps pr)
  unfolding after_merge finish_value
  after_merge_ok w i ps x o f = rw (f, finish_value) refl

  pub round_operand :
      (n : ℕ) (m : V)
      → kind_of e ≡ merge_operand
      → c.merger.merge k (e.1) ≡ value_of m
      → find_next_loop c (suc n) (state (on l e r) k v none false pos_cur_forward pr)
        ≡ ok (
            after_merge c (
              merge_loop c l e r m (state (on l e r) (entry_key e) v none true pos_cur_forward pr)))
  unfolding find_next_loop kind_of outside_prefix find_next_merge merge_next
  round_operand n m h p = rw (h, find_next_loop) (rw (p, find_next_merge) refl)

  pub round_merge :
      (n : ℕ) (m w : V) (i : Position Entry) (ps : IterPos) (x : List ℕ) (o : Option Closer)
      → kind_of e ≡ merge_operand
      → c.merger.merge k (e.1) ≡ value_of m
      → merge_loop c l e r m (state (on l e r) (entry_key e) v none true pos_cur_forward pr)
        ≡ (w, state i (entry_key e) v none true ps pr)
      → c.merger.finish w true ≡ value_of (x, o)
      → find_next_loop c (suc n) (state (on l e r) k v none false pos_cur_forward pr)
        ≡ ok (true, state i (entry_key e) x o true ps pr)
  round_merge n m w i ps x o h p q f =
      round_operand n m h p ∙ ap (λ t. ok (after_merge c t)) q ∙ ap ok (after_merge_ok w i ps x o f)

pub Landed-Spot :
    (d : List Group) (u : List ℕ) (e : Entry) (ys : List Entry) (a : List Group)
    (i : Position Entry) (ps : IterPos)
    → Landed (flat_back d) e ys (flat a) i ps
    → Spot d (u, e ∷ ys) a i ps
unfolding onto flat_back
Landed-Spot d u e ys a i ps (landed_within xs f zs h) = within (e ∷ xs) f zs (ap (λ t. e ∷ t) h)
Landed-Spot d u e ys a i ps landed_past = beyond

module _ (combine : List (List ℕ) → List ℕ) where
  pub rows-none :
      (g : Group) (a : List Group)
      → resolve combine (g.1) ≡ none
      → rows combine (g ∷ a) ≡ rows combine a
  unfolding rows
  rows-none g a h = rw (h, rows) refl

  pub rows-some :
      (g : Group) (a : List Group) (v : List ℕ)
      → resolve combine (g.1) ≡ some v
      → rows combine (g ∷ a) ≡ (g.0, v) ∷ rows combine a
  unfolding rows
  rows-some g a v h = rw (h, rows) refl

  pub resolve-deletion :
      (e : Entry) (ys : List Entry) → kind_of e ≡ deletion → resolve combine (e ∷ ys) ≡ none
  unfolding resolve
  resolve-deletion e ys h = rw (h, resolve) refl

  pub resolve-set :
      (e : Entry) (ys : List Entry) → kind_of e ≡ set_value → resolve combine (e ∷ ys) ≡ some (e.1)
  unfolding resolve
  resolve-set e ys h = rw (h, resolve) refl

  pub resolve-merge :
      (e : Entry) (ys : List Entry)
      → kind_of e ≡ merge_operand
      → resolve combine (e ∷ ys) ≡ some (combine (older ys ++ e.1 ∷ []))
  unfolding resolve
  resolve-merge e ys h = rw (h, resolve) refl
