-- ===== src/Rangedel/Fragment/Conserve.antt =====
-- The fragments that the Fragmenter of internal/rangedel/fragmenter.go emits cover, with the same
-- trailers, what the tombstones that were added cover.
use pebble.Prelude.{
  ℕ, ◌≡◌, ◌⊎◌, ◌↔◌, refl, sym, ap, ◌∙◌, inl, inr, Bool-cases, Bool, true, false, Option, none, some,
  List, [], ◌∷◌, ◌++◌, All, Any, Any-mono, Any-mono_All, Any-append, Any-append_of,
}
use mathlib.Core.Path.{subst}
use pebble.Prelude.Outcome.{Outcome, ok}
use pebble.Prelude.Sort.{IsSort}
use pebble.Key.{Compare, IsCompare, is_lt}
use pebble.Key.TotalOrder.{Lt, Le, le_trans, not_lt_of_le, is_gt, lt_of_is_lt}
use pebble.Rangedel.{Tombstone, Fragmenter, is_eq}
use pebble.Rangedel.Fragment.{
  ends_less, seqs_less, cut_behind, cut_before, is_before_pending, truncate_and_flush, add_pending,
}
use pebble.Rangedel.Fragment.Chunks.{Covers, From}
use pebble.Rangedel.Fragment.Flush.{flush-IsFlush}
use pebble.Rangedel.Fragment.Cut.{
  IsStored, Reaches, cut_behind-IsStored, cut_behind-From, cut_behind_sound, cut_behind_complete,
  cut_before-From, cut_before_sound, cut_before_complete,
}
use Prim.Native.Nat.{Ordering}

eq_of_is_eq : (o : Ordering) → is_eq o ≡ true → o ≡ Ordering.eq
eq_of_is_eq Ordering.eq e = refl
eq_of_is_eq Ordering.lt e = cc
eq_of_is_eq Ordering.gt e = cc

All-append {ℓ} :
    {A : Type 0} (P : A → Type ℓ) (xs ys : List A) → All P xs → All P ys → All P (xs ++ ys)
All-append P [] ys a b = b
All-append P (x ∷ xs) ys a b = (a.0, All-append P xs ys (a.1) b)

module _ (cmp : Compare) (total : IsCompare cmp)
    (sort_ends sort_seqs : List Tombstone → List Tombstone)
    (ends : IsSort (ends_less cmp) sort_ends) (seqs : IsSort seqs_less sort_seqs) where
  abbrev pub FlushedLe : List ℕ → Option (List ℕ) → Type 0
  FlushedLe key none = Unit {0}
  FlushedLe key (some k) = Le cmp k key

  -- No operation went past `key`, and the pending tombstones start together.
  pub record IsOpen (key : List ℕ) (f : Fragmenter) : Type 0 where
    pub running : f.finished ≡ false
    pub flushed : FlushedLe key f.flushed_key
    pub first : List ℕ
    pub first_le : Le cmp first key
    pub together : All (From cmp first) f.pending
    pub stored : All IsStored f.pending

  -- What is pending or emitted after an operation covers what was pending before it and `new`.
  abbrev pub Conserves : Fragmenter → List Tombstone → Fragmenter → List (List Tombstone) → Type 0
  Conserves f new g cs =
      (u : List ℕ) (n : ℕ)
      → (Any (Covers cmp u n) g.pending ⊎ Any (Any (Covers cmp u n)) cs)
        ↔ (Any (Covers cmp u n) f.pending ⊎ Any (Covers cmp u n) new)

  -- From the key on, what covered a key is pending still.
  abbrev pub Keeps : List ℕ → Fragmenter → List Tombstone → Fragmenter → Type 0
  Keeps key f new g =
      (u : List ℕ) (n : ℕ)
      → Le cmp key u
      → Any (Covers cmp u n) f.pending ⊎ Any (Covers cmp u n) new
      → Any (Covers cmp u n) g.pending

  abbrev pub IsStep :
      List ℕ → Fragmenter → List Tombstone → Outcome (Fragmenter × List (List Tombstone)) → Type 0
  IsStep key f new r =
      (g : Fragmenter) × (cs : List (List Tombstone)) × (r ≡ ok (g, cs))
      × IsOpen key g
      × Conserves f new g cs
      × Keeps key f new g

  pub FlushedLe-mono :
      (j k : List ℕ) (o : Option (List ℕ)) → Le cmp j k → FlushedLe j o → FlushedLe k o
  FlushedLe-mono j k none l h = tt
  FlushedLe-mono j k (some x) l h = le_trans cmp total x j k h l

  not_lt : (a b : List ℕ) → Le cmp b a → is_lt (cmp a b) ≡ false
  not_lt a b l = elim (Bool-cases (is_lt (cmp a b))) [
    | inr e ↦ e
    | inl e ↦ absurd (not_lt_of_le cmp total a b l (lt_of_is_lt cmp total a b e))
  ]

  not_gt : (a b : List ℕ) → Le cmp a b → is_gt (cmp a b) ≡ false
  not_gt a b (inl e) = ap is_gt (ap (cmp a) (sym e) ∙ total.eq_refl a)
  not_gt a b (inr l) = ap is_gt l

  pub behind_false :
      (key : List ℕ) (o : Option (List ℕ))
      → FlushedLe key o
      → (elim o as (λ x. Bool) [ none ↦ false | some k ↦ is_lt (cmp key k) ]) ≡ false
  behind_false key none h = refl
  behind_false key (some k) h = not_lt key k h

  pub before_false :
      (key k : List ℕ) (ts : List Tombstone)
      → Le cmp k key
      → All (From cmp k) ts
      → is_before_pending cmp key ts ≡ false
  before_false key k [] l a = refl
  before_false key k (t ∷ ts) l a =
      not_gt t.start.user_key key (subst (λ x. Le cmp x key) (sym ((a.0).0)) l)

  pub Covers-of_Reaches :
      (k : List ℕ) (ts : List Tombstone) (u : List ℕ) (n : ℕ)
      → All (From cmp k) ts
      → Le cmp k u
      → Any (Reaches cmp u n) ts
      → Any (Covers cmp u n) ts
  Covers-of_Reaches k ts u n a l m =
      Any-mono_All ts a (λ t (e, f) (q, r). (subst (λ x. Le cmp x u) (sym e) l, q, r)) m

  pub Reaches-of_Covers :
      (ts : List Tombstone) (u : List ℕ) (n : ℕ)
      → Any (Covers cmp u n) ts
      → Any (Reaches cmp u n) ts
  Reaches-of_Covers ts u n m = Any-mono ts (λ t (p, q, r). (q, r)) m

  pub truncate_and_flush-IsStep :
      (j key : List ℕ) (f : Fragmenter)
      → Le cmp j key
      → IsOpen j f
      → (g : Fragmenter) × (cs : List (List Tombstone)) × (truncate_and_flush cmp sort_ends
            sort_seqs key f
          ≡ ok (g, cs))
        × IsOpen key g
        × Conserves f [] g cs
        × Keeps key f [] g
        × All (From cmp key) g.pending
  unfolding truncate_and_flush
  truncate_and_flush-IsStep j key f l o =
      let (cs, left, r, (sound, complete, back, forth)) =
        flush-IsFlush cmp total sort_ends sort_seqs ends seqs none o.first
          (cut_before cmp key f.pending)
          (cut_before-From cmp total key o.first f.pending o.together) in
      (
        record f { pending = cut_behind cmp key f.pending; flushed_key = some key },
        cs,
        rw r refl,
        record {
          running = o.running;
          flushed = inl refl;
          first = key;
          first_le = inl refl;
          together = cut_behind-From cmp total key f.pending;
          stored = cut_behind-IsStored cmp total key f.pending o.stored;
        },
        λ u n. (
          λ m. inl (elim m [
            | inl p ↦
                let (k, q) = cut_behind_sound cmp total key f.pending u n o.stored p in
                Covers-of_Reaches o.first f.pending u n o.together
                  (le_trans cmp total o.first key u (le_trans cmp total o.first j key o.first_le l)
                    k)
                  q
            | inr p ↦ cut_before_sound cmp total key f.pending u n (sound u n p)
          ]),
          λ m. elim m [
            | inr p ↦ absurd p
            | inl p ↦ elim (cut_before_complete cmp total key f.pending u n p) [
              | inl q ↦ elim (complete u n q) [ inl x ↦ inr x | inr x ↦ absurd x ]
              | inr (k, q) ↦ inl (cut_behind_complete cmp total key f.pending u n o.stored k q)
            ]
          ],
        ),
        λ u n k m. elim m [
          | inr p ↦ absurd p
          | inl p ↦
              cut_behind_complete cmp total key f.pending u n o.stored k
                (Reaches-of_Covers f.pending u n p)
        ],
        cut_behind-From cmp total key f.pending,
      )

  -- A tombstone of the same start goes behind the pending ones.
  append-IsOpen :
      (key : List ℕ) (f : Fragmenter) (t : Tombstone)
      → f.finished ≡ false
      → FlushedLe key f.flushed_key
      → t.start.user_key ≡ key
      → Lt cmp key t.end
      → IsStored t
      → All (From cmp key) f.pending
      → All IsStored f.pending
      → IsOpen key (record f { pending = f.pending ++ (t ∷ []) })
  append-IsOpen key f t run fl e lt st a b = record {
    running = run;
    flushed = fl;
    first = key;
    first_le = inl refl;
    together = All-append (From cmp key) f.pending (t ∷ []) a ((e, lt), tt);
    stored = All-append IsStored f.pending (t ∷ []) b (st, tt);
  }

  append-Conserves :
      (f : Fragmenter) (t : Tombstone) (new : List Tombstone) (g : Fragmenter)
      (cs : List (List Tombstone))
      → Conserves f [] g cs
      → Conserves f (t ∷ []) (record g { pending = g.pending ++ (t ∷ []) }) cs
  append-Conserves f t new g cs c u n = (
    λ m. elim m [
      | inr p ↦ elim ((c u n).0 (inr p)) [ inl q ↦ inl q | inr q ↦ absurd q ]
      | inl p ↦ elim (Any-append (Covers cmp u n) g.pending (t ∷ []) p) [
        | inr q ↦ inr q
        | inl q ↦ elim ((c u n).0 (inl q)) [ inl x ↦ inl x | inr x ↦ absurd x ]
      ]
    ],
    λ m. elim m [
      | inr p ↦ inl (Any-append_of (Covers cmp u n) g.pending (t ∷ []) (inr p))
      | inl p ↦ elim ((c u n).1 (inl p)) [
        | inl q ↦ inl (Any-append_of (Covers cmp u n) g.pending (t ∷ []) (inl q))
        | inr q ↦ inr q
      ]
    ],
  )

  append-Keeps :
      (key : List ℕ) (f : Fragmenter) (t : Tombstone) (g : Fragmenter)
      → Keeps key f [] g
      → Keeps key f (t ∷ []) (record g { pending = g.pending ++ (t ∷ []) })
  append-Keeps key f t g h u n l m =
      Any-append_of (Covers cmp u n) g.pending (t ∷ [])
        (elim m [ inl p ↦ inl (h u n l (inl p)) | inr p ↦ inr p ])

  pub same-Keeps : (key : List ℕ) (f : Fragmenter) → Keeps key f [] f
  same-Keeps key f u n l m = elim m [ inl p ↦ p | inr p ↦ absurd p ]

  pub same-Conserves : (f : Fragmenter) → Conserves f [] f []
  same-Conserves f u n = (
    λ m. elim m [ inl p ↦ inl p | inr p ↦ absurd p ],
    λ m. elim m [ inl p ↦ inl p | inr p ↦ absurd p ],
  )

  pub IsOpen-weaken : (j key : List ℕ) (f : Fragmenter) → Le cmp j key → IsOpen j f → IsOpen key f
  IsOpen-weaken j key f l o = record {
    running = o.running;
    flushed = FlushedLe-mono j key f.flushed_key l o.flushed;
    first = o.first;
    first_le = le_trans cmp total o.first j key o.first_le l;
    together = o.together;
    stored = o.stored;
  }

  pub add_pending-IsStep :
      (j : List ℕ) (ps : List Tombstone) (t : Tombstone) (f : Fragmenter)
      → Le cmp j t.start.user_key
      → f.pending ≡ ps
      → Lt cmp t.start.user_key t.end
      → IsStored t
      → IsOpen j f
      → IsStep t.start.user_key f (t ∷ []) (add_pending cmp sort_ends sort_seqs ps t f)
  add_pending-IsStep j [] t f l e lt st o = (
    record f { pending = f.pending ++ (t ∷ []) },
    [],
    unfold add_pending in refl,
    append-IsOpen t.start.user_key f t o.running
        (FlushedLe-mono j t.start.user_key f.flushed_key l o.flushed) refl lt st
        (subst (All (From cmp t.start.user_key)) (sym e) tt) o.stored,
    append-Conserves f t [] f [] (same-Conserves f),
    append-Keeps t.start.user_key f t f (same-Keeps t.start.user_key f),
  )
  add_pending-IsStep j (p ∷ ps) t f l e lt st o =
      let key = t.start.user_key in
      let together = subst (All (From cmp o.first)) e o.together in
      let start : p.start.user_key ≡ o.first = (together.0).0 in
      let le : Le cmp p.start.user_key key =
        subst (λ x. Le cmp x key) (sym start) (le_trans cmp total o.first j key o.first_le l) in
      let not_after = not_gt p.start.user_key key le in
      elim (Bool-cases (is_eq (cmp p.start.user_key key))) [
        | inl s ↦
            let here : o.first ≡ key =
              sym start ∙ total.eq_of p.start.user_key key (eq_of_is_eq _ s) in
            (
              record f { pending = f.pending ++ (t ∷ []) },
              [],
              unfold add_pending in rw (not_after, s) refl,
              append-IsOpen key f t o.running (FlushedLe-mono j key f.flushed_key l o.flushed) refl
                  lt st (subst (λ x. All (From cmp x) f.pending) here o.together) o.stored,
              append-Conserves f t [] f [] (same-Conserves f),
              append-Keeps key f t f (same-Keeps key f),
            )
        | inr s ↦
            let (g, cs, r, og, c, h, a) = truncate_and_flush-IsStep j key f l o in
            (
              record g { pending = g.pending ++ (t ∷ []) },
              cs,
              unfold add_pending in rw (not_after, s, r) refl,
              append-IsOpen key g t og.running og.flushed refl lt st a og.stored,
              append-Conserves f t [] g cs c,
              append-Keeps key f t g h,
            )
      ]
