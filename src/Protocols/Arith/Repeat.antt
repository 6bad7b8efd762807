-- ===== src/Protocols/Arith/Repeat.antt =====
-- `*` on a string and an integer.
use vfilter.Base.{
  leb, ℕ, suc, ◌+◌, ◌-◌, ◌*◌, ◌^◌, ◌<◌, List, arith, ◌≡◌, if◌then◌else◌, Bytes, length, Outcome,
  returns, panics, Halts, Bool, true, false, Option, none, some,
}
use vfilter.Base.Int.{ℤ, pos, negsuc, wrap64_self, ◌*ℤ◌, pos_part, neg_part}
use vfilter.Value.{
  Runtime, Any, nil, null, bool, integer, integer_ref, float, float_ref, string, string_ref, time,
  array, dict, lazy, other,
}
use vfilter.Value.Convert.{to_int64, to_float, maybe_reduce}
use vfilter.Protocols.Dispatch.{Impl}
use vfilter.Protocols.Arith.{
  mul, replicate, mul_string, mul_left, repeat, repeated, or_else, too_large,
}
use vfilter.Protocols.Compare.Order.{Whole, to_int64-Whole, maybe_reduce-Whole}

product_pos : (m n : ℕ) → pos m *ℤ pos n ≡ pos (m * n)
unfolding ◌*ℤ◌
product_pos m n = ground arith

product_negsuc : (m n : ℕ) → 0 < m → pos m *ℤ negsuc n ≡ negsuc (m * suc n - 1)
unfolding ◌*ℤ◌
product_negsuc m n h = ground arith

module _ {rt : Runtime} where
  -- What a string times a count comes to.
  abbrev pub repetition : Bytes → ℤ → Outcome (Any rt)
  repetition s (pos k) =
      if leb (length s * k) 100000000 then returns (string (replicate k s)) else returns null
  repetition s (negsuc k) = panics

module _ {rt : Runtime} (impl : List (Impl rt (Any rt))) (s : Bytes) where
  mul-string : (b : Any rt) (n : ℤ) → Whole b n → mul impl (string s) b ≡ mul_string s n
  unfolding mul
  mul-string b n h = ground (arith, to_int64-Whole b n h, maybe_reduce-Whole b n h)

  -- A string that is not empty times a count, which is an integer, or a pointer to one, of any type but
  -- `uint`, where the count and the product of the length and the count are within an int64: up to a length of 100000000 the string is repeated so often, above it the result is null,
  -- and a negative count panics.
  pub mul_string_lem :
      (b : Any rt) (n : ℤ)
      → Whole b n
      → 0 < length s
      → length s * (pos_part n + neg_part n) < 2 ^ 63
      → mul impl (string s) b ≡ repetition s n
  mul_string_lem b (pos k) h ne f =
      ground
        (arith, mul-string b (pos k) h, product_pos (length s) k, wrap64_self (pos (length s * k)))
  mul_string_lem b (negsuc k) h ne f = ground (
    arith,
    mul-string b (negsuc k) h,
    product_negsuc (length s) k ne,
    wrap64_self (negsuc (length s * suc k - 1)),
  )

Halts-if :
    {A : Type 0} (b : Bool) (m n : Outcome A) → Halts m → Halts n → Halts (if b then m else n)
Halts-if true m n h k = h
Halts-if false m n h k = k

-- A product ends: by a value, or by the panic of a negative count.
module _ (rt : Runtime) where
  Halts-repeated :
      (b : Bool) (r : Bytes) → Halts (repeated {rt = rt} (if b then panics else returns r))
  Halts-repeated true r = tt
  Halts-repeated false r = tt

  repeat-Halts : (s : Bytes) (n : ℤ) → Halts (repeated {rt = rt} (repeat s n))
  repeat-Halts s (pos k) = Halts-repeated (leb (2 ^ 63) (length s * k)) (replicate k s)
  repeat-Halts s (negsuc k) = tt

  HaltsOr : Option (Outcome (Any rt)) → Type 0
  HaltsOr o = (v : Any rt) → Halts (or_else o (returns v))

  string-HaltsOr :
      (s : Bytes) (o : Option ℤ) → HaltsOr (elim o [ none ↦ none | some n ↦ some (mul_string s n) ])
  unfolding HaltsOr
  string-HaltsOr s none v = tt
  string-HaltsOr s (some n) v =
      Halts-if (too_large _) (returns null) (repeated (repeat s n)) tt (repeat-Halts s n)

  float-HaltsOr :
      (t : rt.Float) (o : Option rt.Float)
      → HaltsOr (elim o [ none ↦ none | some y ↦ some (returns (float (rt.float_mul t y))) ])
  unfolding HaltsOr
  float-HaltsOr t none v = tt
  float-HaltsOr t (some y) v = tt

  mul_left-HaltsOr : (a b : Any rt) → HaltsOr (mul_left a b)
  unfolding HaltsOr
  mul_left-HaltsOr (string s) b v = string-HaltsOr s (to_int64 b) v
  mul_left-HaltsOr (float t) b v = float-HaltsOr t (to_float b) v
  mul_left-HaltsOr nil b v = tt
  mul_left-HaltsOr null b v = tt
  mul_left-HaltsOr (bool x) b v = tt
  mul_left-HaltsOr (integer k z) b v = tt
  mul_left-HaltsOr (integer_ref k z) b v = tt
  mul_left-HaltsOr (float_ref t) b v = tt
  mul_left-HaltsOr (string_ref s) b v = tt
  mul_left-HaltsOr (time z) b v = tt
  mul_left-HaltsOr (array xs) b v = tt
  mul_left-HaltsOr (dict d) b v = tt
  mul_left-HaltsOr (lazy x) b v = tt
  mul_left-HaltsOr (other n) b v = tt

module _ {rt : Runtime} where
  pub mul-Halts : (impl : List (Impl rt (Any rt))) (a b : Any rt) → Halts (mul impl a b)
  unfolding mul HaltsOr
  mul-Halts impl a b = mul_left-HaltsOr rt (maybe_reduce a) (maybe_reduce b) _
