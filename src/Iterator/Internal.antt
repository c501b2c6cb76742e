-- ===== src/Iterator/Internal.antt =====
-- The internal iterator (internal/base/iterator.go) by its contract: a cursor over the entries
-- between its bounds, by ascending user key and, for one user key, by descending sequence number.
use pebble.Prelude.{ℕ, true, false, List, [], ◌∷◌}
use pebble.Key.{Compare, is_lt}

-- Where the cursor stands: at an entry, with the entries before it, the nearest first, and those
-- after it; or at none, where the methods return nil.
pub data Position (A : Type 0) : Type 0 where
  nowhere : Position A
  on : List A → A → List A → Position A

module _ {A : Type 0} where
  -- At the first of the entries after the cut.
  unfoldable pub ahead : List A → List A → Position A
  ahead l [] = nowhere
  ahead l (e ∷ r) = on l e r

  -- At the last of the entries before the cut.
  unfoldable pub behind : List A → List A → Position A
  behind [] r = nowhere
  behind (e ∷ l) r = on l e r

  -- The elements in front of `l`, nearest first.
  unfoldable pub onto : List A → List A → List A
  onto [] l = l
  onto (e ∷ es) l = onto es (e ∷ l)

  -- Cuts the elements after `l` in front of the first whose key is at least `key`.
  unfoldable pub cut : Compare → (A → List ℕ) → List ℕ → List A → List A → List A × List A
  cut cmp user_key key l [] = (l, [])
  cut cmp user_key key l (e ∷ r) = elim (is_lt (cmp (user_key e) key)) [
    | true ↦ cut cmp user_key key (e ∷ l) r
    | false ↦ (l, e ∷ r)
  ]

  -- First and Last.
  unfoldable pub seek_first : List A → Position A
  unfolding ahead
  seek_first es = ahead [] es

  unfoldable pub seek_last : List A → Position A
  unfolding behind onto
  seek_last es = behind (onto es []) []

  -- SeekGE: the first entry whose key is at least `key`. SeekLT: the last one whose key is less,
  -- which is the one before that, since the entries are sorted.
  unfoldable pub seek_ge : Compare → (A → List ℕ) → List ℕ → List A → Position A
  unfolding ahead cut
  seek_ge cmp user_key key es = let (l, r) = cut cmp user_key key [] es in ahead l r

  unfoldable pub seek_lt : Compare → (A → List ℕ) → List ℕ → List A → Position A
  unfolding behind cut
  seek_lt cmp user_key key es = let (l, r) = cut cmp user_key key [] es in behind l r
