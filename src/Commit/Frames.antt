-- ===== src/Commit/Frames.antt =====
-- What a step of the commit pipeline (commit.go) leaves as it was.
use pebble.Prelude.{
  ℕ, suc, ◌≤◌, ◌≡◌, ◌≢◌, ◌⊎◌, refl, sym, ap, ◌∙◌, inl, inr, true, List, [], ◌∷◌, ◌++◌, length,
  Among, arith,
}
use mathlib.Core.Path.{subst}
use native.Mathlib.Decide.{ℕ_discrete}
use pebble.Prelude.Family.{put, put_here, put_away}
use pebble.Commit.{Phase, settling, holding, signalling, CommitBatch}
use pebble.Commit.Invariant.{
  stage, is_live, end_of, Place, unqueued, queued, held_by, signal_by, spent, Fits, IsNext, Chain,
}

-- A goroutine that neither holds nor signals `i` changes its phase, and not its stage if it is `i`.
pub Fits-phase :
    (phase : ℕ → Phase) (k : ℕ) (p : Phase) (b : CommitBatch) (pend : List ℕ) (low visible i : ℕ)
    (at_place : Place)
    → (i ≢ k) ⊎ (stage p ≡ stage (phase k))
    → phase k ≢ holding i
    → phase k ≢ signalling i
    → Fits phase b pend low visible i at_place
    → Fits (put k p phase) b pend low visible i at_place
Fits-phase phase k p b pend low visible i at_place e h g f = go at_place f
  where
    same : stage (put k p phase i) ≡ stage (phase i)
    same = elim e [
      | inl n ↦ ap stage (put_away k p phase i n)
      | inr c ↦ elim (ℕ_discrete i k) [
        | yes d ↦
            subst (λ x. stage (put k p phase x) ≡ stage (phase x)) (sym d)
              (ap stage (put_here k p phase) ∙ c)
        | no n ↦ ap stage (put_away k p phase i n)
      ]
    ]

    kept : (j : ℕ) (q : Phase) → phase k ≢ q → phase j ≡ q → put k p phase j ≡ q
    kept j q n d = put_away k p phase j (λ x. n (sym (ap phase x) ∙ d)) ∙ d

    go :
        (at_place : Place)
        → Fits phase b pend low visible i at_place
        → Fits (put k p phase) b pend low visible i at_place
    go unqueued f = same ∙ f
    go queued (a, w, inl (c, d)) = (a, w, inl (same ∙ c, d))
    go queued (a, w, inr (c, d)) = (a, w, inr (same ∙ c, d))
    go (held_by j) (a, w, l, c) = (kept j (holding i) h a, w, l, same ∙ c)
    go (signal_by j) (a, w, l, c) = (kept j (signalling i) g a, w, l, same ∙ c)
    go spent (w, l, c) = (w, l, same ∙ c)

pub Fits-mono :
    (phase : ℕ → Phase) (b : CommitBatch) (pend pend' : List ℕ) (low low' visible visible' i : ℕ)
    (at_place : Place)
    → (Among i pend → Among i pend')
    → low ≤ low'
    → visible ≤ visible'
    → Fits phase b pend low visible i at_place
    → Fits phase b pend' low' visible' i at_place
Fits-mono phase b pend pend' low low' visible visible' i unqueued m l v f = f
Fits-mono phase b pend pend' low low' visible visible' i queued m l v (a, w, f) = (m a, w, f)
Fits-mono phase b pend pend' low low' visible visible' i (held_by j) m l v (a, w, e, c) =
    (a, w, omega (arith, e), c)
Fits-mono phase b pend pend' low low' visible visible' i (signal_by j) m l v (a, w, e, c) =
    (a, w, omega (arith, e), c)
Fits-mono phase b pend pend' low low' visible visible' i spent m l v (w, e, c) =
    (w, omega (arith, e), c)

-- The chain sees the sequence numbers of the batches and who settles.
pub Chain-same :
    (phase phase' : ℕ → Phase) (batches batches' : ℕ → CommitBatch) (low high : ℕ) (pend : List ℕ)
    → ((x : ℕ) → Among x pend → (n : ℕ) → phase' x ≡ settling n → phase x ≡ settling n)
    → ((x : ℕ)
        → Among x pend
        → ((batches' x).seq ≡ (batches x).seq) × ((batches' x).count ≡ (batches x).count))
    → Chain phase batches low pend high
    → Chain phase' batches' low pend high
Chain-same phase phase' batches batches' low high [] f g c = c
Chain-same phase phase' batches batches' low high (x ∷ xs) f g (a, b, c) =
    let (s, k) = g x (inl refl) in
    let e : end_of (batches x) ≡ end_of (batches' x) = omega (arith, s, k) in
    (
      subst (IsNext low) (sym s) a,
      λ n h. b n (f x (inl refl) n h),
      subst (λ l. Chain phase' batches' l xs high) e
          (Chain-same phase phase' batches batches' (end_of (batches x)) high xs
            (λ y m. f y (inr m)) (λ y m. g y (inr m)) c),
    )

pub Chain-append :
    (phase : ℕ → Phase) (batches : ℕ → CommitBatch) (low high : ℕ) (pend : List ℕ) (i : ℕ)
    → IsNext high (batches i).seq
    → ((n : ℕ) → phase i ≡ settling n → n ≡ high)
    → Chain phase batches low pend high
    → Chain phase batches low (pend ++ (i ∷ [])) (end_of (batches i))
Chain-append phase batches low high [] i a b c =
    (subst (λ l. IsNext l (batches i).seq) (sym c) a, λ n h. b n h ∙ sym c, refl)
Chain-append phase batches low high (x ∷ xs) i a b (d, e, c) =
    (d, e, Chain-append phase batches (end_of (batches x)) high xs i a b c)

-- Every queued batch begins at or behind `low`, and the chain ends there too.
pub Chain-low :
    (phase : ℕ → Phase) (batches : ℕ → CommitBatch) (low high : ℕ) (pend : List ℕ)
    → Chain phase batches low pend high
    → low ≤ high
Chain-low phase batches low high [] c = omega (arith, c)
Chain-low phase batches low high (x ∷ xs) (inl a, b, c) =
    omega (arith, a, Chain-low phase batches (end_of (batches x)) high xs c)
Chain-low phase batches low high (x ∷ xs) (inr (a, d), b, c) =
    omega (arith, a, Chain-low phase batches (end_of (batches x)) high xs c)

pub Chain-Among :
    (phase : ℕ → Phase) (batches : ℕ → CommitBatch) (low high : ℕ) (pend : List ℕ) (x : ℕ)
    → Chain phase batches low pend high
    → Among x pend
    → (low ≤ (batches x).seq) × (end_of (batches x) ≤ high)
Chain-Among phase batches low high [] x c m = absurd m
Chain-Among phase batches low high (y ∷ ys) x (a, b, c) (inl e) =
    let first : low ≤ (batches y).seq = elim a [
      | inl p ↦ omega (arith, p)
      | inr (p, q) ↦ omega (arith, p)
    ] in
    subst (λ z. (low ≤ (batches z).seq) × (end_of (batches z) ≤ high)) (sym e)
      (first, Chain-low phase batches (end_of (batches y)) high ys c)
Chain-Among phase batches low high (y ∷ ys) x (a, b, c) (inr m) =
    let first : low ≤ (batches y).seq = elim a [
      | inl p ↦ omega (arith, p)
      | inr (p, q) ↦ omega (arith, p)
    ] in
    let (p, q) = Chain-Among phase batches (end_of (batches y)) high ys x c m in
    (omega (arith, first, p), q)

-- Taking one goroutine out of a list.
pub Among-remove :
    (i : ℕ) (xs : List ℕ)
    → Among i xs
    → (ys : List ℕ) × (length xs ≡ suc (length ys)) × ((j : ℕ) → Among j xs → (j ≡ i) ⊎ Among j ys)
Among-remove i [] m = absurd m
Among-remove i (x ∷ xs) (inl e) =
    (xs, refl, λ j m. elim m [ inl p ↦ inl (p ∙ sym e) | inr p ↦ inr p ])
Among-remove i (x ∷ xs) (inr m) =
    let (ys, l, f) = Among-remove i xs m in
    (
      x ∷ ys,
      ap suc l,
      λ j m. elim m [
        | inl p ↦ inr (inl p)
        | inr p ↦ elim (f j p) [ inl q ↦ inl q | inr q ↦ inr (inr q) ]
      ],
    )

-- A goroutine stays alive, or the others do not notice that it ends.
pub live-put :
    (P : ℕ → Type 0) (phase : ℕ → Phase) (k : ℕ) (p : Phase)
    → (is_live p ≡ true → P k)
    → ((i : ℕ) → i ≢ k → is_live (phase i) ≡ true → P i)
    → (i : ℕ) → is_live (put k p phase i) ≡ true
    → P i
live-put P phase k p h f i l = elim (ℕ_discrete i k) [
  | yes e ↦
      subst P (sym e) (h (ap is_live (sym (put_here k p phase) ∙ ap (put k p phase) (sym e)) ∙ l))
  | no n ↦ f i n (ap is_live (sym (put_away k p phase i n)) ∙ l)
]
