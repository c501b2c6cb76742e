-- ===== src/Key/Defs.antt =====
-- The data and the operations of internal/base/internal.go, and what internal/base/comparer.go
-- asks of a user's Compare, Separator and Successor.
use pebble.Prelude.{
  ℕ, ◌+◌, ◌-◌, ◌*◌, ◌/◌, ◌%◌, ◌^◌, ◌≡◌, Bool, ◌&&◌, ◌||◌, Option, none, some, List, [], ◌++◌, ltb,
  leb, ◌==◌, if◌then◌else◌, length, take, drop,
}
use pebble.Prelude.Bytes.{put_le, get_le}
use Prim.Native.Nat.{Ordering, min}

abbrev pub u64 : ℕ → ℕ
u64 n = n % 2 ^ 64

-- InternalKeyKind: the numbers of the file format.
abbrev pub kind_delete : ℕ
kind_delete = 0

abbrev pub kind_set : ℕ
kind_set = 1

abbrev pub kind_merge : ℕ
kind_merge = 2

abbrev pub kind_log_data : ℕ
kind_log_data = 3

abbrev pub kind_single_delete : ℕ
kind_single_delete = 7

abbrev pub kind_range_delete : ℕ
kind_range_delete = 15

abbrev pub kind_max : ℕ
kind_max = 17

abbrev pub kind_invalid : ℕ
kind_invalid = 255

-- 1 << 55 and 1 << 56 - 1.
abbrev pub seq_num_batch : ℕ
seq_num_batch = 2 ^ 55

abbrev pub seq_num_max : ℕ
seq_num_max = 2 ^ 56 - 1

abbrev pub range_delete_sentinel : ℕ
range_delete_sentinel = seq_num_max * 256 + kind_range_delete

pub record InternalKey : Type 0 where
  pub user_key : List ℕ
  pub trailer : ℕ

-- (seqNum << 8) | kind: the shift drops the bits above 64 and leaves eight zero bits below.
abbrev pub make_trailer : ℕ → ℕ → ℕ
make_trailer seq kind = u64 (seq * 256) + kind

unfoldable pub make_internal_key : List ℕ → ℕ → ℕ → InternalKey
make_internal_key u seq kind = record { user_key = u; trailer = make_trailer seq kind }

unfoldable pub make_search_key : List ℕ → InternalKey
make_search_key u = record { user_key = u; trailer = make_trailer seq_num_max kind_max }

unfoldable pub make_range_delete_sentinel_key : List ℕ → InternalKey
make_range_delete_sentinel_key u = record { user_key = u; trailer = range_delete_sentinel }

unfoldable pub seq_num : InternalKey → ℕ
seq_num k = k.trailer / 256

unfoldable pub kind : InternalKey → ℕ
kind k = k.trailer % 256

unfoldable pub set_seq_num : ℕ → InternalKey → InternalKey
set_seq_num seq k = record k { trailer = make_trailer seq (k.trailer % 256) }

unfoldable pub set_kind : ℕ → InternalKey → InternalKey
set_kind kd k = record k { trailer = k.trailer - k.trailer % 256 + kd }

-- Bit 55 of the sequence number marks a key of an uncommitted batch.
unfoldable pub visible : InternalKey → ℕ → Bool
unfolding seq_num
visible k snapshot = ltb (seq_num k) snapshot || seq_num k / seq_num_batch % 2 == 1

unfoldable pub valid : InternalKey → Bool
unfolding kind
valid k = leb (kind k) kind_max

unfoldable pub size : InternalKey → ℕ
size k = length k.user_key + 8

-- The int of a Go comparison, by its sign.
abbrev pub Compare : Type 0
Compare = List ℕ → List ℕ → Ordering

-- What the comment on `Compare` promises: a total order, in which only equal contents are equal.
pub record IsCompare {ℓ} {A : Type ℓ} (cmp : A → A → Ordering) : Type ℓ where
  pub eq_refl : (a : A) → cmp a a ≡ Ordering.eq
  pub eq_of : (a b : A) → cmp a b ≡ Ordering.eq → a ≡ b
  pub gt_of_lt : (a b : A) → cmp a b ≡ Ordering.lt → cmp b a ≡ Ordering.gt
  pub lt_of_gt : (a b : A) → cmp a b ≡ Ordering.gt → cmp b a ≡ Ordering.lt
  pub lt_trans : (a b c : A) → cmp a b ≡ Ordering.lt → cmp b c ≡ Ordering.lt → cmp a c ≡ Ordering.lt

unfoldable pub internal_compare : Compare → InternalKey → InternalKey → Ordering
internal_compare cmp a b = elim (cmp a.user_key b.user_key) [
  | Ordering.lt ↦ Ordering.lt
  | Ordering.gt ↦ Ordering.gt
  | Ordering.eq ↦
      if ltb b.trailer a.trailer
      then Ordering.lt
      else if ltb a.trailer b.trailer
      then Ordering.gt
      else Ordering.eq
]

abbrev pub is_lt : Ordering → Bool
is_lt Ordering.lt = Bool.true
is_lt _ = Bool.false

-- The shortened key `buf` replaces k only if it is no longer than k's user key and after it.
shortened : Compare → InternalKey → List ℕ → InternalKey
shortened cmp k buf =
    if leb (length buf) (length k.user_key) && is_lt (cmp k.user_key buf)
    then make_internal_key buf seq_num_max kind_max
    else k

-- `sep a b` is what the user's Separator appends to an empty buffer.
unfoldable pub separator :
    Compare → (List ℕ → List ℕ → List ℕ) → InternalKey → InternalKey → InternalKey
unfolding shortened make_internal_key
separator cmp sep k other = shortened cmp k (sep k.user_key other.user_key)

unfoldable pub successor : Compare → (List ℕ → List ℕ) → InternalKey → InternalKey
unfolding shortened make_internal_key
successor cmp succ k = shortened cmp k (succ k.user_key)

-- `buf` after the call; `none` is the panic of PutUint64 on fewer than 8 bytes.
unfoldable pub encode : InternalKey → List ℕ → Option (List ℕ)
encode k buf =
    let i = min (length buf) (length k.user_key) in
    if ltb (length buf - i) 8
    then none
    else some (take i k.user_key ++ (put_le 8 k.trailer ++ drop (i + 8) buf))

unfoldable pub encode_trailer : InternalKey → List ℕ
encode_trailer k = put_le 8 k.trailer

unfoldable pub decode_internal_key : List ℕ → InternalKey
decode_internal_key enc =
    if ltb (length enc) 8
    then record { user_key = []; trailer = kind_invalid }
    else let n = length enc - 8 in record { user_key = take n enc; trailer = get_le (drop n enc) }
