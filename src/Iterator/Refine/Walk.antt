-- ===== src/Iterator/Refine/Walk.antt =====
-- findPrevEntry of iterator.go goes back over the entries of one user key and keeps its value.
use pebble.Prelude.{
  ℕ, ◌≡◌, refl, sym, ◌∙◌, Bool, true, false, not, ◌&&◌, Option, none, some, List, [], ◌∷◌, ◌++◌,
  All, inl, inr, if◌then◌else◌,
}
use pebble.Key.{IsCompare}
use pebble.Compaction.Iter.{Entry, value_of, is_eq}
use pebble.Iterator.Internal.{Position, behind, onto}
use pebble.Iterator.Merging.{IsAssociative}
use pebble.Iterator.Search.{pos_cur_reverse, Config, Iterator, deletion, set_value, merge_operand}
use pebble.Iterator.Reverse.{merge_newer_entry, find_prev_loop}
use pebble.Iterator.Calls.{entry_key}
use pebble.Iterator.Rows.{kind_of, older, resolve, IsReadable}
use pebble.Iterator.Skip.{equal_same}
use pebble.Iterator.Refine.Standing.{state}
use pebble.Iterator.Refine.Operands.{Readable-cases, older-deletion, older-set, older-merge}
use pebble.Iterator.Refine.Rounds.{resolve-deletion, resolve-set, resolve-merge}

module _ {V : Type 0} (c : Config V) (combine : List (List ℕ) → List ℕ)
    (assoc : IsAssociative c.merger combine) (total : IsCompare c.cmp)
    (agree : (a b : List ℕ) → c.equal a b ≡ is_eq (c.cmp a b)) where
  -- What the loop keeps of the entries `ys` of the user key: the value merger, i.valid, i.key and
  -- i.value.
  pub data Kept (u : List ℕ) (ys : List Entry) : Option V → Bool → List ℕ → List ℕ → Type 0 where
    kept_none :
        (k v : List ℕ) → resolve combine ys ≡ none → older ys ≡ [] → Kept u ys none false k v
    kept_value :
        (k v : List ℕ)
        → k ≡ u
        → resolve combine ys ≡ some v
        → older ys ≡ v ∷ []
        → Kept u ys none true k v
    kept_merger :
        (w : V) (k v : List ℕ)
        → k ≡ u
        → resolve combine ys ≡ some (combine (older ys))
        → assoc.Gathered w (older ys)
        → Kept u ys (some w) true k v

  -- The loop has come to stand between `l` and `r`.
  pub record Walked (start : Bool × Iterator) (u : List ℕ) (ys l r : List Entry) (pr : List ℕ)
      : Type 0 where
    pub merger : Option V
    pub valid : Bool
    pub key : List ℕ
    pub value : List ℕ
    pub returned :
        start
        ≡ find_prev_loop c l r merger (state (behind l r) key value none valid pos_cur_reverse pr)
    pub kept : Kept u ys merger valid key value

  same_key :
      (u : List ℕ) (ys : List Entry) (m : Option V) (b : Bool) (k v : List ℕ) (x : Entry)
      → Kept u ys m b k v
      → entry_key x ≡ u
      → b && not (c.equal (entry_key x) k) ≡ false
  same_key u ys m b k v x (kept_none k' v' h o) p = refl
  same_key u ys m b k v x (kept_value k' v' e h o) p =
      rw (equal_same c total agree (entry_key x) k (p ∙ sym e)) refl
  same_key u ys m b k v x (kept_merger w k' v' e h o) p =
      rw (equal_same c total agree (entry_key x) k (p ∙ sym e)) refl

  module _ (x : Entry) (l r : List Entry) (m : Option V) (b : Bool) (i : Position Entry)
      (k v pr : List ℕ) (same : b && not (c.equal (entry_key x) k) ≡ false) where
    back_deletion :
        kind_of x ≡ deletion
        → find_prev_loop c (x ∷ l) r m (state i k v none b pos_cur_reverse pr)
          ≡ find_prev_loop c l
              (x ∷ r)
              none
              (state (behind l (x ∷ r)) k [] none false pos_cur_reverse pr)
    unfolding find_prev_loop kind_of
    back_deletion h = rw (same, find_prev_loop) (rw (h, find_prev_loop) refl)

    back_set :
        kind_of x ≡ set_value
        → find_prev_loop c (x ∷ l) r m (state i k v none b pos_cur_reverse pr)
          ≡ find_prev_loop c l
              (x ∷ r)
              none
              (state (behind l (x ∷ r)) (entry_key x) (x.1) none true pos_cur_reverse pr)
    unfolding find_prev_loop kind_of
    back_set h = rw (same, find_prev_loop) (rw (h, find_prev_loop) refl)

    back_merge :
        (w : V)
        → kind_of x ≡ merge_operand
        → merge_newer_entry c m x (state i k v none b pos_cur_reverse pr) ≡ value_of w
        → find_prev_loop c (x ∷ l) r m (state i k v none b pos_cur_reverse pr)
          ≡ find_prev_loop c l (x ∷ r) (some w) (
              state
                (behind l (x ∷ r))
                (if b then k else entry_key x)
                v
                none
                true
                pos_cur_reverse
                pr)
    unfolding find_prev_loop kind_of
    back_merge w h q =
        rw (same, find_prev_loop) (rw (h, find_prev_loop) (rw (q, find_prev_loop) refl))

  -- The value merger after a merge operand has the operands of what is kept, then this one.
  newer_ok :
      (u : List ℕ) (ys : List Entry) (m : Option V) (b : Bool) (i : Position Entry)
      (k v pr : List ℕ) (x : Entry)
      → Kept u ys m b k v
      → (w : V) × (merge_newer_entry c m x (state i k v none b pos_cur_reverse pr) ≡ value_of w)
        × assoc.Gathered w (older ys ++ x.1 ∷ [])
  unfolding merge_newer_entry
  newer_ok u ys m b i k v pr x (kept_none k' v' h o) =
      let (w, q, ops) = assoc.merge_ok (entry_key x) (x.1) in (w, q, rw o ops)
  newer_ok u ys m b i k v pr x (kept_value k' v' e h o) =
      let (w0, q0, ops0) = assoc.merge_ok k v in
      let (w, q, ops) = assoc.newer_ok w0 (v ∷ []) (x.1) ops0 in
      (w, rw (q0, merge_newer_entry) q, rw o ops)
  newer_ok u ys m b i k v pr x (kept_merger w0 k' v' e h o) =
      let (w, q, ops) = assoc.newer_ok w0 (older ys) (x.1) o in (w, q, ops)

  kept_key :
      (u : List ℕ) (ys : List Entry) (m : Option V) (b : Bool) (k v : List ℕ) (x : Entry)
      → Kept u ys m b k v
      → entry_key x ≡ u
      → (if b then k else entry_key x) ≡ u
  kept_key u ys m b k v x (kept_none k' v' h o) p = p
  kept_key u ys m b k v x (kept_value k' v' e h o) p = e
  kept_key u ys m b k v x (kept_merger w k' v' e h o) p = e

  -- One round.
  walk_one :
      (u : List ℕ) (ys l r : List Entry) (m : Option V) (b : Bool) (k v pr : List ℕ) (x : Entry)
      → Kept u ys m b k v
      → entry_key x ≡ u
      → IsReadable c (kind_of x)
      → Walked
          (find_prev_loop c (x ∷ l) r m (state (behind (x ∷ l) r) k v none b pos_cur_reverse pr))
          u
          (x ∷ ys)
          l
          (x ∷ r)
          pr
  walk_one u ys l r m b k v pr x t p h =
      let same = same_key u ys m b k v x t p in
      elim (Readable-cases c (kind_of x) h) [
        | inl del ↦ record {
          merger = none;
          valid = false;
          key = k;
          value = [];
          returned = back_deletion x l r m b (behind (x ∷ l) r) k v pr same del;
          kept = kept_none k [] (resolve-deletion combine x ys del) (older-deletion x ys del);
        }
        | inr (inl set) ↦ record {
          merger = none;
          valid = true;
          key = entry_key x;
          value = x.1;
          returned = back_set x l r m b (behind (x ∷ l) r) k v pr same set;
          kept =
              kept_value (entry_key x) (x.1) p (resolve-set combine x ys set) (older-set x ys set);
        }
        | inr (inr merge) ↦
            let (w, q, ops) = newer_ok u ys m b (behind (x ∷ l) r) k v pr x t in
            let same_older = older-merge x ys merge in
            record {
              merger = some w;
              valid = true;
              key = if b then k else entry_key x;
              value = v;
              returned = back_merge x l r m b (behind (x ∷ l) r) k v pr same w merge q;
              kept =
                  kept_merger w (if b then k else entry_key x) v (kept_key u ys m b k v x t p)
                    (rw same_older (resolve-merge combine x ys merge)) (rw same_older ops);
            }
      ]

  -- Over all entries of a user key.
  pub walk :
      (u : List ℕ) (xs l r : List Entry) (k v pr : List ℕ)
      → All (λ f. entry_key f ≡ u) xs
      → All (λ f. IsReadable c (kind_of f)) xs
      → Walked
          (find_prev_loop c
            (onto xs l)
            r
            none
            (state (behind (onto xs l) r) k v none false pos_cur_reverse pr))
          u
          xs
          l
          (xs ++ r)
          pr
  unfolding onto
  walk u [] l r k v pr ks hs = record {
    merger = none;
    valid = false;
    key = k;
    value = v;
    returned = refl;
    kept = kept_none k v (unfold resolve in refl) (unfold older in refl);
  }
  walk u (x ∷ xs) l r k v pr (p, ks) (h, hs) =
      let t = walk u xs (x ∷ l) r k v pr ks hs in
      let z = walk_one u xs l (xs ++ r) t.merger t.valid t.key t.value pr x t.kept p h in
      record {
        merger = z.merger;
        valid = z.valid;
        key = z.key;
        value = z.value;
        returned = t.returned ∙ z.returned;
        kept = z.kept;
      }
