-- ===== src/Protocols/Slices.antt =====
-- Indices and slices: `getRanges` of protocols/utils.go, and the cases of an integer and of a range in
-- `DefaultAssociative.Associative` of protocols/protocol_associative.go. The result is the value and
-- whether it is present; a panic in `reflect` is recovered, and gives nil and false.
pub mod Bounds
use vfilter.Base.{
  ℕ, ◌-◌, Bool, true, false, ◌||◌, Option, none, some, List, [], ◌∷◌, length, take, drop, get_elem?,
  Bytes, if◌then◌else◌,
}
use vfilter.Base.Int.{ℤ, pos, negsuc, pos_part, ltb_ℤ, ◌+ℤ◌}
use vfilter.Value.{
  Runtime, Any, nil, null, integer, string, string_ref, array, lazy, time, other, bool, Items, size,
  to_list, of_list, uint8,
}
use vfilter.Value.Convert.{maybe_reduce}

abbrev pub from_end : ℤ → ℤ → ℤ
from_end n i = if ltb_ℤ i (pos 0) then n +ℤ i else i

abbrev pub at_least_zero : ℤ → ℤ
at_least_zero i = if ltb_ℤ i (pos 0) then pos 0 else i

abbrev pub at_most : ℤ → ℤ → ℤ
at_most n i = if ltb_ℤ n i then n else i

abbrev pub or_default : Option ℤ → ℤ → ℤ
or_default none d = d
or_default (some i) d = i

-- `none` is a nil pointer: a bound that the query leaves out.
unfoldable pub get_ranges : Option ℤ → Option ℤ → ℤ → ℤ × ℤ
get_ranges start stop array_length = (
  at_least_zero (from_end array_length (or_default start (pos 0))),
  at_most array_length (at_least_zero (from_end array_length (or_default stop array_length))),
)

-- `xs[lo:hi]` for bounds that are in range.
abbrev pub sub_list {ℓ} : {A : Type ℓ} → ℤ → ℤ → List A → List A
sub_list lo hi xs = take (pos_part hi - pos_part lo) (drop (pos_part lo) xs)

-- A slice of a list under the ranges that the query gives.
unfoldable pub slice_list {ℓ} : {A : Type ℓ} → Option ℤ → Option ℤ → List A → List A
unfolding get_ranges
slice_list start stop xs =
    let (lo, hi) = get_ranges start stop (pos (length xs)) in
    if ltb_ℤ lo hi then sub_list lo hi xs else []

module _ {rt : Runtime} where
  -- `a_value.Index(idx)` for an element list; out of range it panics, which is recovered.
  abbrev pub recovered : Option (Any rt) → Any rt × Bool
  recovered none = (nil, false)
  recovered (some v) = (v, true)

  abbrev pub index_checked : List (Any rt) → ℤ → Any rt × Bool
  index_checked xs idx =
      if ltb_ℤ idx (pos 0) || ltb_ℤ (pos (length xs)) idx
      then (null, false)
      else recovered (get_elem? xs (pos_part idx))

  -- A negative index counts from the end.
  abbrev pub index_list : List (Any rt) → ℤ → Any rt × Bool
  index_list xs idx = index_checked xs (from_end (pos (length xs)) idx)

  -- The bytes of a string as values.
  abbrev pub byte_values : Bytes → List (Any rt)
  byte_values [] = []
  byte_values (c ∷ cs) = integer uint8 (pos c) ∷ byte_values cs

  abbrev pub index_reduced : Any rt → ℤ → Any rt × Bool
  index_reduced nil idx = (nil, false)
  index_reduced (string s) idx = index_list (byte_values s) idx
  index_reduced (string_ref s) idx = index_list (byte_values s) idx
  index_reduced (array xs) idx = index_list (to_list xs) idx
  index_reduced a idx = (null, false)

  -- `b` is an integer.
  unfoldable pub associative_index : Any rt → ℤ → Any rt × Bool
  associative_index a idx = index_reduced (maybe_reduce a) idx

  abbrev pub range_reduced : Any rt → Option ℤ → Option ℤ → Any rt × Bool
  range_reduced nil start stop = (nil, false)
  range_reduced (string s) start stop = (string (slice_list start stop s), true)
  range_reduced (string_ref s) start stop = (string (slice_list start stop s), true)
  range_reduced (array xs) start stop = (array (of_list (slice_list start stop (to_list xs))), true)
  range_reduced a start stop = (null, false)

  -- `b` is a pair of bounds.
  unfoldable pub associative_range : Any rt → Option ℤ → Option ℤ → Any rt × Bool
  unfolding slice_list
  associative_range a start stop = range_reduced (maybe_reduce a) start stop
