-- ===== src/Rangedel/Fragment/Chunks.antt =====
-- One chunk of flush in the Fragmenter (internal/rangedel/fragmenter.go), and what is left behind it.
use pebble.Prelude.{
  ℕ, suc, ◌≡◌, ◌⊎◌, refl, sym, ap, inl, inr, Bool, true, Option, none, some, List, [], ◌∷◌, map,
  length, take, drop, All, Any, Any-mono, Any-mono_All, Any-split, Any-split_of, Any-map,
  Any-map_of, Any-Among, Any-of_Among,
}
use mathlib.Core.Path.{subst}
use pebble.Prelude.Sort.{IsSorted, IsSort, IsSorted-drop, IsSorted-map}
use pebble.Key.{Compare, IsCompare}
use pebble.Key.TotalOrder.{Lt, Le, lt_irrefl, lt_le_trans, is_gt}
use pebble.Rangedel.{Tombstone}
use pebble.Rangedel.Fragment.{ends_less, seqs_less, with_start, with_end, count_ends}
use pebble.Rangedel.Fragment.Ends.{ends_above, take-ends, drop-ends}
use Prim.Native.Nat.{Ordering}

-- The tombstone covers the user key, with this trailer.
abbrev pub Covers : Compare → List ℕ → ℕ → Tombstone → Type 0
Covers cmp u n t = Le cmp t.start.user_key u × Lt cmp u t.end × (t.start.trailer ≡ n)

-- All start at k, and none is empty.
abbrev pub From : Compare → List ℕ → Tombstone → Type 0
From cmp k t = (t.start.user_key ≡ k) × Lt cmp k t.end

-- The key lies behind the key that was flushed to.
abbrev pub Beyond : Compare → Option (List ℕ) → List ℕ → Type 0
Beyond cmp none u = ⊥
Beyond cmp (some last) u = Lt cmp last u

pub length-map : (f : Tombstone → Tombstone) (ts : List Tombstone) → length (map f ts) ≡ length ts
length-map f [] = refl
length-map f (t ∷ ts) = ap suc (length-map f ts)

All-map_of :
    (P Q : Tombstone → Type 0) (f : Tombstone → Tombstone) (ts : List Tombstone)
    → ((t : Tombstone) → P t → Q (f t))
    → All P ts
    → All Q (map f ts)
All-map_of P Q f [] g a = tt
All-map_of P Q f (t ∷ ts) g a = (g t (a.0), All-map_of P Q f ts g (a.1))

pub Any-sort :
    {less : Tombstone → Tombstone → Bool} {sort : List Tombstone → List Tombstone}
    → IsSort less sort
    → (P : Tombstone → Type 0) (ts : List Tombstone) → Any P (sort ts)
    → Any P ts
Any-sort s P ts m = let (t, n, p) = Any-Among P _ m in Any-of_Among P t ts (s.among t ts n) p

pub Any-sort_of :
    {less : Tombstone → Tombstone → Bool} {sort : List Tombstone → List Tombstone}
    → IsSort less sort
    → (P : Tombstone → Type 0) (ts : List Tombstone) → Any P ts
    → Any P (sort ts)
Any-sort_of s P ts m = let (t, n, p) = Any-Among P _ m in Any-of_Among P t _ (s.among_of t ts n) p

pub gt_of_is_gt : (o : Ordering) → is_gt o ≡ true → o ≡ Ordering.gt
gt_of_is_gt Ordering.gt e = refl
gt_of_is_gt Ordering.lt e = cc
gt_of_is_gt Ordering.eq e = cc

module _ (cmp : Compare) (total : IsCompare cmp)
    (sort_ends sort_seqs : List Tombstone → List Tombstone)
    (ends : IsSort (ends_less cmp) sort_ends) (seqs : IsSort seqs_less sort_seqs) where
  -- The fragments of one chunk: every tombstone up to the split point.
  unfoldable pub chunk_of : Tombstone → List Tombstone → List Tombstone
  chunk_of t ts = sort_seqs (t ∷ map (with_end t.end) ts)

  pub chunk_sound :
      (t : Tombstone) (ts : List Tombstone) (u : List ℕ) (n : ℕ)
      → IsSorted (ends_less cmp) (t ∷ ts)
      → Any (Covers cmp u n) (chunk_of t ts)
      → Any (Covers cmp u n) (t ∷ ts)
  unfolding chunk_of
  chunk_sound t ts u n s m = elim (Any-sort seqs (Covers cmp u n) (t ∷ map (with_end t.end) ts) m) [
    | inl p ↦ inl p
    | inr p ↦ inr (
        Any-mono_All ts (ends_above cmp total t ts s)
          (λ x h (a, b, c). (a, lt_le_trans cmp total u t.end x.end b h, c))
          (Any-map (Covers cmp u n) (with_end t.end) ts p))
  ]

  pub chunk_complete :
      (t : Tombstone) (ts : List Tombstone) (u : List ℕ) (n : ℕ)
      → Lt cmp u t.end
      → Any (Covers cmp u n) (t ∷ ts)
      → Any (Covers cmp u n) (chunk_of t ts)
  unfolding chunk_of
  chunk_complete t ts u n below (inl p) =
      Any-sort_of seqs (Covers cmp u n) (t ∷ map (with_end t.end) ts) (inl p)
  chunk_complete t ts u n below (inr m) =
      Any-sort_of seqs (Covers cmp u n) (t ∷ map (with_end t.end) ts) (
        inr (
          Any-map_of (Covers cmp u n) (with_end t.end) ts
            (Any-mono ts (λ x (a, b, c). (a, below, c)) m)))

  -- The tombstones that go on behind the split point.
  unfoldable pub rest_of : Tombstone → List Tombstone → List Tombstone
  rest_of t ts = map (with_start t.end) (drop (count_ends cmp t.end ts) ts)

  pub rest-From :
      (t : Tombstone) (ts : List Tombstone)
      → IsSorted (ends_less cmp) (t ∷ ts)
      → All (From cmp t.end) (rest_of t ts)
  unfolding rest_of
  rest-From t ts s =
      All-map_of (λ x. Lt cmp t.end x.end) (From cmp t.end) (with_start t.end)
        (drop (count_ends cmp t.end ts) ts) (λ x h. (refl, h))
        (drop-ends cmp total t.end ts (s.1) (ends_above cmp total t ts s))

  pub rest-IsSorted :
      (t : Tombstone) (ts : List Tombstone)
      → IsSorted (ends_less cmp) (t ∷ ts)
      → IsSorted (ends_less cmp) (rest_of t ts)
  unfolding rest_of
  rest-IsSorted t ts s =
      IsSorted-map (ends_less cmp) (with_start t.end) (drop (count_ends cmp t.end ts) ts)
        (λ x y. refl) (IsSorted-drop (ends_less cmp) (count_ends cmp t.end ts) ts (s.1))

  pub rest_sound :
      (k : List ℕ) (t : Tombstone) (ts : List Tombstone) (u : List ℕ) (n : ℕ)
      → All (From cmp k) (t ∷ ts)
      → Any (Covers cmp u n) (rest_of t ts)
      → Any (Covers cmp u n) ts
  unfolding rest_of
  rest_sound k t ts u n ((st, lt), a) m =
      Any-mono_All ts a
        (λ x (e, f) (p, q, r). (
          inr (
              lt_le_trans cmp total x.start.user_key t.end u
                (subst (λ y. Lt cmp y t.end) (sym e) lt) p),
          q,
          r,
        ))
        (Any-split_of (Covers' t u n) (count_ends cmp t.end ts) ts
          (inr (Any-map (Covers cmp u n) (with_start t.end) (drop (count_ends cmp t.end ts) ts) m)))
    where
      Covers' : Tombstone → List ℕ → ℕ → Tombstone → Type 0
      Covers' t u n x = Le cmp t.end u × Lt cmp u x.end × (x.start.trailer ≡ n)

  pub rest_complete :
      (t : Tombstone) (ts : List Tombstone) (u : List ℕ) (n : ℕ)
      → IsSorted (ends_less cmp) (t ∷ ts)
      → Le cmp t.end u
      → Any (Covers cmp u n) (t ∷ ts)
      → Any (Covers cmp u n) (rest_of t ts)
  unfolding rest_of
  rest_complete t ts u n s above (inl (a, b, c)) =
      absurd (lt_irrefl cmp total u (lt_le_trans cmp total u t.end u b above))
  rest_complete t ts u n s above (inr m) =
      elim (Any-split (Covers cmp u n) (count_ends cmp t.end ts) ts m) [
        | inl k ↦
            let at_end = take-ends cmp total t.end ts (s.1) (ends_above cmp total t ts s) in
            absurd (absent (take (count_ends cmp t.end ts) ts) at_end k)
        | inr k ↦
            Any-map_of (Covers cmp u n) (with_start t.end) (drop (count_ends cmp t.end ts) ts)
              (Any-mono (drop (count_ends cmp t.end ts) ts) (λ x (a, b, c). (above, b, c)) k)
      ]
    where
      absent : (xs : List Tombstone) → All (λ x. t.end ≡ x.end) xs → Any (Covers cmp u n) xs → ⊥
      absent [] a m = m
      absent (x ∷ xs) (e, a) (inl (p, q, r)) =
          lt_irrefl cmp total u
            (lt_le_trans cmp total u x.end u q (subst (λ y. Le cmp y u) e above))
      absent (x ∷ xs) (e, a) (inr m) = absent xs a m

  pub rest-keeps :
      (G : List ℕ → ℕ → Type 0) (t : Tombstone) (ts : List Tombstone)
      → Any (λ x. G x.end x.start.trailer) (rest_of t ts)
      → Any (λ x. G x.end x.start.trailer) (drop (count_ends cmp t.end ts) ts)
  unfolding rest_of
  rest-keeps G t ts m =
      Any-map (λ x. G x.end x.start.trailer) (with_start t.end) (drop (count_ends cmp t.end ts) ts)
        m

  pub rest-keeps_of :
      (G : List ℕ → ℕ → Type 0) (t : Tombstone) (ts : List Tombstone)
      → Any (λ x. G x.end x.start.trailer) (drop (count_ends cmp t.end ts) ts)
      → Any (λ x. G x.end x.start.trailer) (rest_of t ts)
  unfolding rest_of
  rest-keeps_of G t ts m =
      Any-map_of (λ x. G x.end x.start.trailer) (with_start t.end)
        (drop (count_ends cmp t.end ts) ts) m

  -- Some chunk has a fragment that covers the key.
  abbrev pub Emits : List ℕ → ℕ → List (List Tombstone) → Type 0
  Emits u n cs = Any (Any (Covers cmp u n)) cs

  -- What a run of the loop on `ts` gives: the chunks cover what `ts` covers, but for keys that lie
  -- behind `last`, and the buffer keeps the end keys and trailers.
  abbrev pub IsFlush :
      Option (List ℕ) → List Tombstone → List (List Tombstone) → List Tombstone → Type 1
  IsFlush last ts cs left =
      ((u : List ℕ) (n : ℕ) → Emits u n cs → Any (Covers cmp u n) ts)
      × ((u : List ℕ) (n : ℕ) → Any (Covers cmp u n) ts → Emits u n cs ⊎ Beyond cmp last u)
      × ((G : List ℕ → ℕ → Type 0)
          → Any (λ t. G t.end t.start.trailer) left
          → Any (λ t. G t.end t.start.trailer) ts)
      × ((G : List ℕ → ℕ → Type 0)
          → Any (λ t. G t.end t.start.trailer) ts
          → Any (λ t. G t.end t.start.trailer) left)
