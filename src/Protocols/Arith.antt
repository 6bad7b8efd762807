-- ===== src/Protocols/Arith.antt =====
-- The dispatchers of `+`, `-`, `*` and `/` (protocols/protocol_add.go, protocol_sub.go,
-- protocol_mul.go, protocol_div.go). `Mul` may panic, in `strings.Repeat`.
pub mod Integers
pub mod Repeat
pub mod Concat
use vfilter.Base.{
  ℕ, zero, suc, ◌+◌, ◌*◌, ◌^◌, Bool, true, false, ◌||◌, Option, none, some, List, [], ◌∷◌, ◌++◌,
  ltb, leb, length, Bytes, if◌then◌else◌, Outcome, returns, panics, hangs,
}
use vfilter.Base.Int.{ℤ, pos, negsuc, ltb_ℤ, wrap64, ◌+ℤ◌, ◌-ℤ◌, ◌*ℤ◌}
use vfilter.Value.{
  Runtime, Any, nil, null, bool, integer, integer_ref, float, float_ref, string, string_ref, time,
  array, dict, lazy, other, Items, end, item, append, int64,
}
use vfilter.Value.Convert.{maybe_reduce, is_array, to_int64, to_float}
use vfilter.Protocols.Dispatch.{Impl, search, or_else}

-- The test on the estimated memory, `memory > 100000000`.
abbrev pub too_large : ℤ → Bool
too_large memory = ltb_ℤ (pos 100000000) memory

-- Go's `strings.Repeat`: it panics on a negative count and where the length of the result overflows.
unfoldable pub replicate : ℕ → Bytes → Bytes
replicate zero s = []
replicate (suc n) s = s ++ replicate n s

abbrev pub repeat : Bytes → ℤ → Outcome Bytes
repeat s (negsuc n) = panics
repeat s (pos n) = if leb (2 ^ 63) (length s * n) then panics else returns (replicate n s)

abbrev pub is_zero : (rt : Runtime) → rt.Float → Bool
is_zero rt f = rt.float_eq f (rt.of_int (pos 0))

module _ {rt : Runtime} where
  -- An operation on both operands as int64, where both convert.
  abbrev pub arith_int64 : (ℤ → ℤ → ℤ) → Any rt → Any rt → Option (Any rt)
  arith_int64 f a b = elim (to_int64 a) [
    | none ↦ none
    | some x ↦ elim (to_int64 b) [ none ↦ none | some y ↦ some (integer int64 (wrap64 (f x y))) ]
  ]

  -- An operation on a float and the other operand, where that converts.
  abbrev pub arith_float : (rt.Float → Any rt) → Any rt → Option (Any rt)
  arith_float f b = elim (to_float b) [ none ↦ none | some y ↦ some (f y) ]

  abbrev pub convert_to_slice : Any rt → Items rt
  convert_to_slice (array xs) = xs
  convert_to_slice a = item a end

  abbrev pub add_strings : Bytes → Any rt → Option (Any rt)
  add_strings s (string t) =
      some (if too_large (wrap64 (pos (length s * length t))) then null else string (s ++ t))
  add_strings s b = none

  abbrev pub add_switch : Any rt → Any rt → Option (Any rt)
  add_switch (string s) b = add_strings s b
  add_switch nil b = some null
  add_switch null b = some null
  add_switch (float t) b = arith_float (λ y. float (rt.float_add t y)) b
  add_switch a b = none

  -- Behind the registered implementations slices are concatenated.
  abbrev pub add_slices : Any rt → Any rt → Any rt
  add_slices a b =
      if is_array a || is_array b
      then array (append (convert_to_slice a) (convert_to_slice b))
      else null

  abbrev pub add_reduced : List (Impl rt (Any rt)) → Any rt → Any rt → Any rt
  add_reduced impl a b =
      or_else (add_switch a b)
        (or_else (arith_int64 ◌+ℤ◌ a b) (or_else (search impl a b) (add_slices a b)))

  unfoldable pub add : List (Impl rt (Any rt)) → Any rt → Any rt → Any rt
  add impl a b = add_reduced impl (maybe_reduce a) (maybe_reduce b)

  -- The first switch of `Sub`, on the left operand, and the second, on the right one.
  abbrev pub sub_left : Any rt → Any rt → Option (Any rt)
  sub_left nil b = some null
  sub_left null b = some null
  sub_left (float t) b = arith_float (λ y. float (rt.float_sub t y)) b
  sub_left a b = none

  abbrev pub sub_right : Any rt → Any rt → Option (Any rt)
  sub_right a nil = some null
  sub_right a null = some null
  sub_right a (float t) = arith_float (λ x. float (rt.float_sub x t)) a
  sub_right a b = none

  abbrev pub sub_reduced : List (Impl rt (Any rt)) → Any rt → Any rt → Any rt
  sub_reduced impl a b =
      or_else (sub_left a b)
        (or_else (sub_right a b) (or_else (arith_int64 ◌-ℤ◌ a b) (or_else (search impl a b) null)))

  unfoldable pub sub : List (Impl rt (Any rt)) → Any rt → Any rt → Any rt
  sub impl a b = sub_reduced impl (maybe_reduce a) (maybe_reduce b)

  -- A string times a count.
  abbrev pub repeated : Outcome Bytes → Outcome (Any rt)
  repeated (returns s) = returns (string s)
  repeated panics = panics
  repeated hangs = hangs

  abbrev pub mul_string : Bytes → ℤ → Outcome (Any rt)
  mul_string s n =
      if too_large (wrap64 (pos (length s) *ℤ n)) then returns null else repeated (repeat s n)

  abbrev pub mul_left : Any rt → Any rt → Option (Outcome (Any rt))
  mul_left nil b = some (returns null)
  mul_left null b = some (returns null)
  mul_left (string s) b = elim (to_int64 b) [ none ↦ none | some n ↦ some (mul_string s n) ]
  mul_left (float t) b = elim (to_float b) [
    | none ↦ none
    | some y ↦ some (returns (float (rt.float_mul t y)))
  ]
  mul_left a b = none

  abbrev pub mul_right : Any rt → Any rt → Option (Any rt)
  mul_right a nil = some null
  mul_right a null = some null
  mul_right a (float t) = arith_float (λ x. float (rt.float_mul t x)) a
  mul_right a b = none

  abbrev pub mul_reduced : List (Impl rt (Any rt)) → Any rt → Any rt → Outcome (Any rt)
  mul_reduced impl a b = or_else (mul_left a b) (
      returns
        (or_else (mul_right a b) (or_else (arith_int64 ◌*ℤ◌ a b) (or_else (search impl a b) null))))

  unfoldable pub mul : List (Impl rt (Any rt)) → Any rt → Any rt → Outcome (Any rt)
  mul impl a b = mul_reduced impl (maybe_reduce a) (maybe_reduce b)

  -- The left operand is a float `t`: the divisor is tested.
  abbrev pub div_left : Any rt → Any rt → Option (Any rt)
  div_left nil b = some null
  div_left null b = some null
  div_left (float t) b =
      arith_float (λ y. if is_zero rt y then null else float (rt.float_div t y)) b
  div_left a b = none

  -- The right operand is a float `t`: the code tests the dividend.
  abbrev pub div_right : Any rt → Any rt → Option (Any rt)
  div_right a nil = some null
  div_right a null = some null
  div_right a (float t) =
      arith_float (λ x. if is_zero rt x then null else float (rt.float_div x t)) a
  div_right a b = none

  -- Other numbers are divided as floats.
  abbrev pub div_numbers : Any rt → Any rt → Option (Any rt)
  div_numbers a b = elim (to_float a) [
    | none ↦ none
    | some x ↦ arith_float (λ y. if is_zero rt y then null else float (rt.float_div x y)) b
  ]

  abbrev pub div_reduced : List (Impl rt (Any rt)) → Any rt → Any rt → Any rt
  div_reduced impl a b =
      or_else (div_left a b)
        (or_else (div_right a b) (or_else (div_numbers a b) (or_else (search impl a b) null)))

  -- The right operand is not reduced.
  unfoldable pub div : List (Impl rt (Any rt)) → Any rt → Any rt → Any rt
  div impl a b = div_reduced impl (maybe_reduce a) b
