-- ===== src/Iterator/Merging.antt =====
-- The merge operator (internal/base/merger.go): its interface, the default operator that
-- concatenates, and what an iterator relies on.
use pebble.Prelude.{ℕ, ◌≡◌, refl, sym, ◌∙◌, ap, Bool, true, Option, none, some, List, [], ◌∷◌, ◌++◌}
use mathlib.Core.Path.{subst}
use mathlib.Core.List.{append-nil, append_assoc}
use pebble.Compaction.Iter.{Closer, Fallible, value_of}

-- Merge and the methods of ValueMerger, whose state is V.
pub record ValueMerger (V : Type 0) : Type 0 where
  pub merge : List ℕ → List ℕ → Fallible V
  pub merge_newer : V → List ℕ → Fallible V
  pub merge_older : V → List ℕ → Fallible V
  pub finish : V → Bool → Fallible (List ℕ × Option Closer)

-- AppendValueMerger and DefaultMerger.
unfoldable pub append_newer : List ℕ → List ℕ → Fallible (List ℕ)
append_newer buf value = value_of (buf ++ value)

unfoldable pub append_older : List ℕ → List ℕ → Fallible (List ℕ)
append_older buf value = value_of (value ++ buf)

unfoldable pub append_finish : List ℕ → Bool → Fallible (List ℕ × Option Closer)
append_finish buf includes_base = value_of (buf, none)

unfoldable pub default_merge : List ℕ → List ℕ → Fallible (List ℕ)
default_merge key value = value_of ([] ++ value)

abbrev pub default_merger : ValueMerger (List ℕ)
default_merger = record {
  merge = default_merge;
  merge_newer = append_newer;
  merge_older = append_older;
  finish = append_finish;
}

-- A closer that is absent or closes without an error.
abbrev pub Closes : Option Closer → Type 0
Closes none = Unit {0}
Closes (some none) = Unit {0}
Closes (some (some e)) = ⊥

-- Three things of an operator: no call fails, the key given to Merge does not matter, and the result
-- is `combine` of the operands, the oldest first, whichever end they came from. The documentation
-- asks for the last only, as associativity. `Gathered u t`: the operands of u so far are t.
pub record IsAssociative {V : Type 0} (m : ValueMerger V) (combine : List (List ℕ) → List ℕ)
    : Type 1 where
  pub Gathered : V → List (List ℕ) → Type 0
  pub merge_ok : (key v : List ℕ) → (w : V) × (m.merge key v ≡ value_of w) × Gathered w (v ∷ [])
  pub newer_ok :
      (u : V) (t : List (List ℕ)) (v : List ℕ)
      → Gathered u t
      → (w : V) × (m.merge_newer u v ≡ value_of w) × Gathered w (t ++ v ∷ [])
  pub older_ok :
      (u : V) (t : List (List ℕ)) (v : List ℕ)
      → Gathered u t
      → (w : V) × (m.merge_older u v ≡ value_of w) × Gathered w (v ∷ t)
  pub finish_ok :
      (u : V) (t : List (List ℕ))
      → Gathered u t
      → (o : Option Closer) × (m.finish u true ≡ value_of (combine t, o)) × Closes o

-- The operands one after the other.
abbrev pub concat : List (List ℕ) → List ℕ
concat [] = []
concat (v ∷ t) = v ++ concat t

concat-append : (t : List (List ℕ)) (v : List ℕ) → concat (t ++ v ∷ []) ≡ concat t ++ v
concat-append [] v = append-nil v
concat-append (u ∷ t) v = ap (λ z. u ++ z) (concat-append t v) ∙ sym (append_assoc u (concat t) v)

-- The default operator concatenates its operands from the oldest to the newest.
pub default_merger-IsAssociative : IsAssociative default_merger concat
unfolding default_merge append_newer append_older append_finish
default_merger-IsAssociative = record {
  Gathered = λ u t. u ≡ concat t;
  merge_ok = λ key v. (v, refl, sym (append-nil v));
  newer_ok = λ u t v h. (u ++ v, refl, ap (λ z. z ++ v) h ∙ sym (concat-append t v));
  older_ok = λ u t v h. (v ++ u, refl, ap (λ z. v ++ z) h);
  finish_ok = λ u t h. (none, ap (λ z. value_of (z, none)) h, tt);
}

pub default-IsAssociative : (c : ValueMerger (List ℕ)) → c ≡ default_merger → IsAssociative c concat
default-IsAssociative c e = subst (λ m. IsAssociative m concat) (sym e) default_merger-IsAssociative
