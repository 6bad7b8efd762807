-- ===== src/Protocols/Truth.antt =====
-- The dispatchers of truth values and of `IN` (protocols/protocol_bool.go, protocol_membership.go).
pub mod Search
use vfilter.Base.{
  ℕ, zero, suc, Bool, true, false, ◌&&◌, ◌||◌, Option, none, some, List, [], ◌∷◌, ◌==◌, ltb, length,
  Bytes, if◌then◌else◌,
}
use vfilter.Base.Int.{ℤ, pos, ltb_ℤ}
use vfilter.Value.{
  Runtime, Any, nil, null, bool, integer, integer_ref, float, float_ref, string, string_ref, time,
  array, dict, lazy, other, Items, end, item, size,
}
use vfilter.Value.Convert.{maybe_reduce, int64_kind}
use vfilter.Protocols.Dispatch.{Impl, search, or_else}
use vfilter.Protocols.Compare.{eq}

-- An implementation of the truth value.
pub record BoolImpl (rt : Runtime) : Type 0 where
  pub applicable : Any rt → Bool
  pub truth : Any rt → Bool

module _ {rt : Runtime} where
  unfoldable pub search_bool : List (BoolImpl rt) → Any rt → Bool
  search_bool [] a = false
  search_bool (i ∷ impl) a = if i.applicable a then i.truth a else search_bool impl a

  -- `Bool` on a value that is no LazyExpr. The switch has no case for `uint`, which goes to the
  -- registered implementations, as pointers, times and client types do.
  unfoldable pub bool_reduced : List (BoolImpl rt) → Any rt → Bool
  bool_reduced impl nil = false
  bool_reduced impl null = false
  bool_reduced impl (bool b) = b
  bool_reduced impl (integer k z) =
      if int64_kind k then ltb_ℤ (pos 0) z else search_bool impl (integer k z)
  bool_reduced impl (float f) = rt.float_lt (rt.of_int (pos 0)) f
  bool_reduced impl (string s) = ltb 0 (length s)
  bool_reduced impl (string_ref s) = ltb 0 (length s)
  bool_reduced impl (dict d) = ltb 0 (rt.dict_len d)
  bool_reduced impl (array xs) = ltb 0 (size xs)
  bool_reduced impl a = search_bool impl a

  unfoldable pub truth_of : List (BoolImpl rt) → Any rt → Bool
  unfolding bool_reduced
  truth_of impl (lazy (lazy v)) = truth_of impl v
  truth_of impl (lazy v) = bool_reduced impl v
  truth_of impl v = bool_reduced impl v

-- Go's `strings.HasPrefix` with the prefix first, and `strings.Contains`.
abbrev pub is_prefix : Bytes → Bytes → Bool
is_prefix [] s = true
is_prefix (x ∷ xs) [] = false
is_prefix (x ∷ xs) (y ∷ ys) = x == y && is_prefix xs ys

unfoldable pub contains : Bytes → Bytes → Bool
contains [] p = is_prefix p []
contains (x ∷ xs) p = is_prefix p (x ∷ xs) || contains xs p

module _ {rt : Runtime} where
  -- The default: the left operand against each element.
  unfoldable pub member_of : List (Impl rt Bool) → Any rt → Items rt → Bool
  member_of eqs a end = false
  member_of eqs a (item x xs) = if eq eqs a x then true else member_of eqs a xs

  abbrev pub member_default : List (Impl rt Bool) → Any rt → Any rt → Bool
  member_default eqs a (array xs) = member_of eqs a xs
  member_default eqs a b = false

  abbrev pub member_switch : Any rt → Any rt → Option Bool
  member_switch a nil = some false
  member_switch a null = some false
  member_switch (string s) (string t) = some (contains t s)
  member_switch a b = none

  abbrev pub member_reduced : List (Impl rt Bool) → List (Impl rt Bool) → Any rt → Any rt → Bool
  member_reduced eqs impl a b =
      or_else (member_switch a b) (or_else (search impl a b) (member_default eqs a b))

  -- `eqs` are the implementations of `Eq`, which the default calls.
  unfoldable pub membership : List (Impl rt Bool) → List (Impl rt Bool) → Any rt → Any rt → Bool
  unfolding member_of
  membership eqs impl a b = member_reduced eqs impl (maybe_reduce a) (maybe_reduce b)
