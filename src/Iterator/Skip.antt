-- ===== src/Iterator/Skip.antt =====
-- nextUserKey and prevUserKey of iterator.go pass exactly the entries of one user key.
use pebble.Prelude.{
  ℕ, ◌<◌, ◌≡◌, ◌≢◌, refl, sym, ◌∙◌, Bool, true, false, not, ◌||◌, List, [], ◌∷◌, ◌++◌, ◌==◌, All,
  arith,
}
use pebble.Key.{IsCompare, seq_num}
use pebble.Compaction.Iter.{Entry, is_eq}
use pebble.Iterator.Internal.{Position, nowhere, ahead, behind, onto}
use pebble.Iterator.Search.{Config, skip_forward, skip_back}
use pebble.Iterator.Calls.{entry_key}
use pebble.Iterator.Groups.{Descending}

-- The nearest entry, if there is one, is of another user key.
abbrev pub Other : List ℕ → List Entry → Type 0
Other u [] = Unit {0}
Other u (e ∷ es) = entry_key e ≢ u

or_not : (a b : Bool) → b ≡ false → a || not b ≡ true
or_not true b h = refl
or_not false b h = rw h refl

module _ {V : Type 0} (c : Config V) (total : IsCompare c.cmp)
    (agree : (a b : List ℕ) → c.equal a b ≡ is_eq (c.cmp a b)) where
  pub equal_same : (a b : List ℕ) → a ≡ b → c.equal a b ≡ true
  equal_same a b h = agree a b ∙ rw (sym h) (rw (total.eq_refl a) refl)

  pub equal_other : (a b : List ℕ) → a ≢ b → c.equal a b ≡ false
  equal_other a b h = ground (arith, agree a b, total.eq_of a b)

  stop-Other :
      (u : List ℕ) (done : Bool) (l : List Entry) (e : Entry) (r : List Entry)
      → Other u r
      → skip_forward c u done l e r ≡ ahead (e ∷ l) r
  unfolding skip_forward ahead
  stop-Other u done l e [] o = refl
  stop-Other u done l e (f ∷ r) o =
      rw
        (
          or_not done (c.equal u (entry_key f)) (equal_other u (entry_key f) (λ p. o (sym p))),
          skip_forward,
        )
        refl

  not_last : (e f : Entry) → seq_num (f.0) < seq_num (e.0) → seq_num (e.0) == 0 ≡ false
  not_last e f h = ground arith

  skip_one :
      (u : List ℕ) (l : List Entry) (e f : Entry) (r : List Entry)
      → seq_num (f.0) < seq_num (e.0)
      → entry_key f ≡ u
      → skip_forward c u (seq_num (e.0) == 0) l e (f ∷ r)
        ≡ skip_forward c u (seq_num (f.0) == 0) (e ∷ l) f r
  unfolding skip_forward
  skip_one u l e f r h k =
      rw (not_last e f h, skip_forward) (rw (equal_same u (entry_key f) (sym k), skip_forward) refl)

  -- From an entry on, over the older ones of its user key.
  pub skip_forward-past :
      (u : List ℕ) (l : List Entry) (e : Entry) (ys r : List Entry)
      → All (λ f. entry_key f ≡ u) ys
      → Descending (e ∷ ys)
      → Other u r
      → skip_forward c u (seq_num (e.0) == 0) l e (ys ++ r) ≡ ahead (onto ys (e ∷ l)) r
  unfolding onto
  skip_forward-past u l e [] r k d o = stop-Other u (seq_num (e.0) == 0) l e r o
  skip_forward-past u l e (y ∷ ys) r (k, ks) ((h, a), d) o =
      skip_one u l e y (ys ++ r) h k ∙ skip_forward-past u (e ∷ l) y ys r ks d o

  -- prevUserKey at the first of the entries `r`.
  abbrev back : List ℕ → List Entry → List Entry → Position Entry
  back u l [] = nowhere
  back u l (e ∷ r) = skip_back c u l e r

  back_one :
      (u : List ℕ) (l : List Entry) (f e : Entry) (r : List Entry)
      → entry_key f ≡ u
      → skip_back c u (f ∷ l) e r ≡ skip_back c u l f (e ∷ r)
  unfolding skip_back
  back_one u l f e r k = rw (equal_same u (entry_key f) (sym k), skip_back) refl

  back-onto :
      (u : List ℕ) (xs l : List Entry) (e : Entry) (r : List Entry)
      → All (λ f. entry_key f ≡ u) xs
      → back u (onto xs l) (e ∷ r) ≡ back u l (xs ++ e ∷ r)
  unfolding onto
  back-onto u [] l e r k = refl
  back-onto u (x ∷ []) l e r (k, ks) = back_one u l x e r k
  back-onto u (x ∷ y ∷ xs) l e r (k, ks) =
      back-onto u (y ∷ xs) (x ∷ l) e r ks ∙ back_one u l x y (xs ++ e ∷ r) k

  back-Other :
      (u : List ℕ) (l : List Entry) (e : Entry) (r : List Entry)
      → Other u l
      → skip_back c u l e r ≡ behind l (e ∷ r)
  unfolding skip_back behind
  back-Other u [] e r o = refl
  back-Other u (f ∷ l) e r o = rw (equal_other u (entry_key f) (λ p. o (sym p)), skip_back) refl

  -- From an entry back, over the newer ones of its user key.
  pub skip_back-past :
      (u : List ℕ) (xs l : List Entry) (e : Entry) (r : List Entry)
      → All (λ f. entry_key f ≡ u) xs
      → Other u l
      → skip_back c u (onto xs l) e r ≡ behind l (xs ++ e ∷ r)
  unfolding onto
  skip_back-past u [] l e r k o = back-Other u l e r o
  skip_back-past u (x ∷ xs) l e r k o =
      back-onto u (x ∷ xs) l e r k ∙ back-Other u l x (xs ++ e ∷ r) o
