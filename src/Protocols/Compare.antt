-- ===== src/Protocols/Compare.antt =====
-- The dispatchers of `=`, `<` and `>` (protocols/protocol_eq.go, protocol_lt.go, protocol_gt.go).
pub mod Order
use vfilter.Base.{
  ℕ, Bool, true, false, ◌&&◌, Option, none, some, List, [], ◌∷◌, ◌==◌, ltb, Bytes, equal,
  if◌then◌else◌,
}
use vfilter.Base.Int.{ℤ, ltb_ℤ, eqb_ℤ, wrap64}
use vfilter.Value.{
  Runtime, Any, nil, null, bool, integer, integer_ref, float, float_ref, string, string_ref, time,
  array, dict, lazy, other, Items, end, item, size,
}
use vfilter.Value.Convert.{maybe_reduce, is_null_object, to_int64, to_float}
use vfilter.Protocols.Dispatch.{Impl, search, or_else}

abbrev pub bool_eq : Bool → Bool → Bool
bool_eq true true = true
bool_eq false false = true
bool_eq _ _ = false

-- Go's `<` on strings: byte by byte, a prefix first.
unfoldable pub string_lt : Bytes → Bytes → Bool
string_lt s [] = false
string_lt [] (y ∷ ys) = true
string_lt (x ∷ xs) (y ∷ ys) = if ltb x y then true else if ltb y x then false else string_lt xs ys

module _ {rt : Runtime} where
  -- A test on both operands as int64, where both convert.
  abbrev pub on_int64 : (ℤ → ℤ → Bool) → Any rt → Any rt → Option Bool
  on_int64 f a b = elim (to_int64 a) [
    | none ↦ none
    | some lhs ↦ elim (to_int64 b) [ none ↦ none | some rhs ↦ some (f lhs rhs) ]
  ]

  -- A test on a float and the right operand, where that converts.
  abbrev pub on_float : (rt.Float → rt.Float → Bool) → rt.Float → Any rt → Option Bool
  on_float f t b = elim (to_float b) [ none ↦ none | some rhs ↦ some (f t rhs) ]

  abbrev pub on_time : (ℤ → ℤ → Bool) → ℤ → Any rt → Option Bool
  on_time f t (time u) = some (f t u)
  on_time f t _ = none

  abbrev pub on_string : (Bytes → Bytes → Bool) → Bytes → Any rt → Option Bool
  on_string f s (string t) = some (f s t)
  on_string f s _ = none

  -- What a switch decides, or else the comparison as int64, or else a registered implementation.
  abbrev pub compare_by :
      Option Bool → (ℤ → ℤ → Bool) → List (Impl rt Bool) → Any rt → Any rt → Bool
  compare_by switch ints impl a b =
      or_else switch (or_else (on_int64 ints a b) (or_else (search impl a b) false))

  -- The switch of `Eq`, on reduced operands.
  abbrev pub eq_switch : Any rt → Any rt → Option Bool
  eq_switch nil b = some (is_null_object b)
  eq_switch null b = some (is_null_object b)
  eq_switch (string s) b = on_string equal s b
  eq_switch (bool t) (bool rhs) = some (bool_eq t rhs)
  eq_switch (float t) b = on_float rt.float_eq t b
  eq_switch (time t) b = on_time (λ x y. eqb_ℤ (wrap64 x) (wrap64 y)) t b
  eq_switch a b = none

  -- `Eq` on reduced operands of which one at least is no slice.
  abbrev pub eq_scalar : List (Impl rt Bool) → Any rt → Any rt → Bool
  eq_scalar impl a b = compare_by (eq_switch a b) eqb_ℤ impl a b

  -- `Eq` on operands of which the right one is reduced, and `_ArrayEq`'s loop, which calls `Eq` on the
  -- elements.
  unfoldable mutual
    pub eq_reduced : List (Impl rt Bool) → Any rt → Any rt → Bool
    eq_reduced impl (array xs) (array ys) =
        if size xs == size ys then array_eq impl xs ys else false
    eq_reduced impl (lazy (array xs)) (array ys) =
        if size xs == size ys then array_eq impl xs ys else false
    eq_reduced impl a b = eq_scalar impl (maybe_reduce a) b

    pub array_eq : List (Impl rt Bool) → Items rt → Items rt → Bool
    array_eq impl (item x xs) (item y ys) =
        eq_reduced impl x (maybe_reduce y) && array_eq impl xs ys
    array_eq impl _ _ = true

  unfoldable pub eq : List (Impl rt Bool) → Any rt → Any rt → Bool
  unfolding eq_reduced
  eq impl a b = eq_reduced impl a (maybe_reduce b)

  -- The switches of `Lt` and `Gt`.
  abbrev pub lt_switch : Any rt → Any rt → Option Bool
  lt_switch nil b = some false
  lt_switch null b = some false
  lt_switch (string s) b = on_string string_lt s b
  lt_switch (float t) b = on_float rt.float_lt t b
  lt_switch (time t) b = on_time ltb_ℤ t b
  lt_switch a b = none

  abbrev pub gt_switch : Any rt → Any rt → Option Bool
  gt_switch (string s) b = on_string (λ x y. string_lt y x) s b
  gt_switch (float t) b = on_float (λ x y. rt.float_lt y x) t b
  gt_switch (time t) b = on_time (λ x y. ltb_ℤ y x) t b
  gt_switch a b = none

  abbrev pub lt_reduced : List (Impl rt Bool) → Any rt → Any rt → Bool
  lt_reduced impl a b = compare_by (lt_switch a b) ltb_ℤ impl a b

  abbrev pub gt_reduced : List (Impl rt Bool) → Any rt → Any rt → Bool
  gt_reduced impl a b = compare_by (gt_switch a b) (λ x y. ltb_ℤ y x) impl a b

  unfoldable pub lt : List (Impl rt Bool) → Any rt → Any rt → Bool
  lt impl a b = lt_reduced impl (maybe_reduce a) (maybe_reduce b)

  unfoldable pub gt : List (Impl rt Bool) → Any rt → Any rt → Bool
  gt impl a b = gt_reduced impl (maybe_reduce a) (maybe_reduce b)
