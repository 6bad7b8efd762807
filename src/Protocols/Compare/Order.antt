-- ===== src/Protocols/Compare/Order.antt =====
-- How `=`, `<` and `>` order the integers, and where `=` is symmetric.
use vfilter.Base.{Bool, true, false, some, List, arith, ◌≡◌, refl, ◌↔◌}
use vfilter.Base.Int.{ℤ, ltb_ℤ, eqb_ℤ, wrap64_self, IsInt64, ◌<ℤ◌, eq_of_parts}
use vfilter.Value.{Runtime, Any, nil, integer, integer_ref, float, int64}
use vfilter.Value.Convert.{maybe_reduce, to_int64, to_float, int64_kind}
use vfilter.Protocols.Dispatch.{Impl}
use vfilter.Protocols.Compare.{eq, lt, gt}

pub eqb_ℤ_iff : (x y : ℤ) → (eqb_ℤ x y ≡ true) ↔ (x ≡ y)
eqb_ℤ_iff x y = (λ h. eq_of_parts x y (ground arith), λ h. ground arith)

pub ltb_ℤ_iff : (x y : ℤ) → (ltb_ℤ x y ≡ true) ↔ (x <ℤ y)
ltb_ℤ_iff x y = (λ h. ground arith, λ h. ground arith)

module _ {rt : Runtime} where
  -- `v` is an integer of value `x`, of any of Go's integer types but `uint`, or a pointer to one.
  abbrev pub Whole : Any rt → ℤ → Type 0
  Whole (integer k z) x = (int64_kind k ≡ true) × (z ≡ x) × IsInt64 x
  Whole (integer_ref k z) x = (int64_kind k ≡ true) × (z ≡ x) × IsInt64 x
  Whole _ x = ⊥

  pub to_int64-Whole : (v : Any rt) (x : ℤ) → Whole v x → to_int64 v ≡ some x
  unfolding to_int64
  to_int64-Whole (integer k z) x (h, e, r) = ground (arith, wrap64_self x r)
  to_int64-Whole (integer_ref k z) x (h, e, r) = ground (arith, wrap64_self x r)
  to_int64-Whole nil x h = absurd h
  to_int64-Whole _ x h = absurd h

  pub maybe_reduce-Whole : (v : Any rt) (x : ℤ) → Whole v x → maybe_reduce v ≡ v
  maybe_reduce-Whole (integer k z) x h = refl
  maybe_reduce-Whole (integer_ref k z) x h = refl
  maybe_reduce-Whole nil x h = absurd h
  maybe_reduce-Whole _ x h = absurd h

  -- The switches leave integers to the comparison as int64.
  pub eq-int64 :
      (impl : List (Impl rt Bool)) (a b : Any rt) (x y : ℤ)
      → Whole a x
      → Whole b y
      → eq impl a b ≡ eqb_ℤ x y
  unfolding eq
  eq-int64 impl (integer k z) b x y h g =
      ground
        (arith, to_int64-Whole (integer k z) x h, to_int64-Whole b y g, maybe_reduce-Whole b y g)
  eq-int64 impl (integer_ref k z) b x y h g =
      ground (
        arith,
        to_int64-Whole (integer_ref k z) x h,
        to_int64-Whole b y g,
        maybe_reduce-Whole b y g,
      )
  eq-int64 impl nil b x y h g = absurd h
  eq-int64 impl _ b x y h g = absurd h

  pub lt-int64 :
      (impl : List (Impl rt Bool)) (a b : Any rt) (x y : ℤ)
      → Whole a x
      → Whole b y
      → lt impl a b ≡ ltb_ℤ x y
  unfolding lt
  lt-int64 impl (integer k z) b x y h g =
      ground
        (arith, to_int64-Whole (integer k z) x h, to_int64-Whole b y g, maybe_reduce-Whole b y g)
  lt-int64 impl (integer_ref k z) b x y h g =
      ground (
        arith,
        to_int64-Whole (integer_ref k z) x h,
        to_int64-Whole b y g,
        maybe_reduce-Whole b y g,
      )
  lt-int64 impl nil b x y h g = absurd h
  lt-int64 impl _ b x y h g = absurd h

  pub gt-int64 :
      (impl : List (Impl rt Bool)) (a b : Any rt) (x y : ℤ)
      → Whole a x
      → Whole b y
      → gt impl a b ≡ ltb_ℤ y x
  unfolding gt
  gt-int64 impl (integer k z) b x y h g =
      ground
        (arith, to_int64-Whole (integer k z) x h, to_int64-Whole b y g, maybe_reduce-Whole b y g)
  gt-int64 impl (integer_ref k z) b x y h g =
      ground (
        arith,
        to_int64-Whole (integer_ref k z) x h,
        to_int64-Whole b y g,
        maybe_reduce-Whole b y g,
      )
  gt-int64 impl nil b x y h g = absurd h
  gt-int64 impl _ b x y h g = absurd h

  -- A float that is no integer is equal to its integer part when it stands on the right of `=`, and
  -- not when it stands on the left.
  pub eq_float_asymmetric :
      (impl : List (Impl rt Bool)) (f : rt.Float)
      → rt.float_eq f (rt.of_int (rt.to_int f)) ≡ false
      → IsInt64 (rt.to_int f)
      → (eq impl (integer int64 (rt.to_int f)) (float f) ≡ true)
        × (eq impl (float f) (integer int64 (rt.to_int f)) ≡ false)
  unfolding eq to_int64 to_float
  eq_float_asymmetric impl f h r =
      ground (arith, wrap64_self (rt.to_int f) r, (eqb_ℤ_iff (rt.to_int f) (rt.to_int f)).1 refl)
