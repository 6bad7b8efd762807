-- ===== src/Value/Convert.antt =====
-- `ToInt64`, `ToFloat`, `ToString`, `IsInt`, `IsArray` and `InString` of utils/utils.go, `IsNullObject` of types/null.go
-- and `maybeReduce` of protocols/common.go.
use vfilter.Base.{
  ◌++◌, ◌≡◌, if◌then◌else◌, arith, Bool, true, false, ◌||◌, Option, none, some, List, [], ◌∷◌,
  Bytes, equal, if◌then◌else◌,
}
use vfilter.Base.Int.{ℤ, pos, wrap64}
use vfilter.Value.{
  Runtime, Any, nil, null, bool, integer, integer_ref, float, float_ref, string, string_ref, array,
  lazy, IntKind, uint,
}

module _ {rt : Runtime} where
  abbrev pub maybe_reduce : Any rt → Any rt
  maybe_reduce (lazy v) = v
  maybe_reduce v = v

  abbrev pub is_null_object : Any rt → Bool
  is_null_object nil = true
  is_null_object null = true
  is_null_object _ = false

  abbrev pub is_array : Any rt → Bool
  is_array (array xs) = true
  is_array _ = false

  -- `string`, `*string`.
  abbrev pub to_string : Any rt → Option Bytes
  to_string (string s) = some s
  to_string (string_ref s) = some s
  to_string _ = none

-- The integer types that `ToInt64` converts: each one but `uint`.
abbrev pub int64_kind : IntKind → Bool
int64_kind uint = false
int64_kind _ = true

abbrev pub int_of_bool : Bool → ℤ
int_of_bool b = if b then pos 1 else pos 0

-- `int64(t)` for an integer of one of these types.
abbrev pub int_to_int64 : IntKind → ℤ → Option ℤ
int_to_int64 k z = if int64_kind k then some (wrap64 z) else none

module _ {rt : Runtime} where
  unfoldable pub to_int64 : Any rt → Option ℤ
  to_int64 (bool b) = some (int_of_bool b)
  to_int64 (integer k z) = int_to_int64 k z
  to_int64 (integer_ref k z) = int_to_int64 k z
  to_int64 (float f) = some (rt.to_int f)
  to_int64 (float_ref f) = some (rt.to_int f)
  to_int64 _ = none

  unfoldable pub to_float : Any rt → Option rt.Float
  to_float (bool b) = some (rt.of_int (int_of_bool b))
  to_float (integer k z) = some (rt.of_int z)
  to_float (integer_ref k z) = some (rt.of_int z)
  to_float (float f) = some f
  to_float (float_ref f) = some f
  to_float _ = none

  -- Does it resemble an int?
  unfoldable pub is_int : Any rt → Bool
  is_int (bool b) = true
  is_int (integer k z) = int64_kind k
  is_int _ = false

-- Linear search.
unfoldable pub in_string : List Bytes → Bytes → Bool
in_string [] needle = false
in_string (x ∷ hay) needle = equal x needle || in_string hay needle

pub in_string-append :
    (ks : List Bytes) (j k : Bytes)
    → in_string (ks ++ j ∷ []) k ≡ (if equal j k then true else in_string ks k)
unfolding in_string
in_string-append [] j k = ground arith
in_string-append (x ∷ ks) j k = ground (arith, in_string-append ks j k)
