-- ===== src/Expr/Comparisons.antt =====
-- What the comparison operators decide on integers.
use vfilter.Base.{Bool, true, false, not, ◌||◌, ◌≢◌, ◌≡◌, refl, ◌↔◌, arith}
use vfilter.Base.Int.{ℤ, ◌<ℤ◌, ◌≤ℤ◌, eqb_ℤ, ltb_ℤ}
use vfilter.Value.{Runtime, Any}
use vfilter.Protocols.Compare.Order.{Whole, eqb_ℤ_iff, ltb_ℤ_iff, eq-int64, lt-int64, gt-int64}
use vfilter.Expr.{Scope, op_lt, op_eq, op_ne, op_le, op_gt, op_ge, op_diamond}
use vfilter.Expr.Reduce.{compare_values}

ne_iff : (x y : ℤ) → (not (eqb_ℤ x y) ≡ true) ↔ (x ≢ y)
ne_iff x y = (λ h e. absurd (cc ((eqb_ℤ_iff x y).1 e)), λ h. go (eqb_ℤ x y) refl h)
  where
    go : (b : Bool) → eqb_ℤ x y ≡ b → x ≢ y → not b ≡ true
    go true e h = absurd (h ((eqb_ℤ_iff x y).0 e))
    go false e h = refl

le_iff : (x y : ℤ) → ((ltb_ℤ x y || eqb_ℤ x y) ≡ true) ↔ (x ≤ℤ y)
le_iff x y = (λ h. ground arith, λ h. ground arith)

ge_iff : (x y : ℤ) → ((ltb_ℤ y x || eqb_ℤ x y) ≡ true) ↔ (y ≤ℤ x)
ge_iff x y = (λ h. ground arith, λ h. ground arith)

module _ {rt : Runtime} {S : Type 0} (scope : Scope rt S) where
  -- On integers, or pointers to integers, of any type but `uint`, whose numbers fit an int64, the
  -- comparison operators `=`, `!=`, `<`, `<=`, `>` and `>=` decide the orders that they name; and `<>` is
  -- false on any two values whatever, equal or not.
  pub compare_values-Whole :
      (a b : Any rt) (x y : ℤ)
      → Whole a x
      → Whole b y
      → ((compare_values scope op_eq a b ≡ true) ↔ (x ≡ y))
        × ((compare_values scope op_ne a b ≡ true) ↔ (x ≢ y))
        × ((compare_values scope op_lt a b ≡ true) ↔ (x <ℤ y))
        × ((compare_values scope op_le a b ≡ true) ↔ (x ≤ℤ y))
        × ((compare_values scope op_gt a b ≡ true) ↔ (y <ℤ x))
        × ((compare_values scope op_ge a b ≡ true) ↔ (y ≤ℤ x))
        × ((c d : Any rt) → compare_values scope op_diamond c d ≡ false)
  unfolding compare_values
  compare_values-Whole a b x y h g =
      let eqs = eq-int64 scope.eq_impl a b x y h g in
      let lts = lt-int64 scope.lt_impl a b x y h g in
      let gts = gt-int64 scope.gt_impl a b x y h g in
      rw (eqs, lts, gts)
        (
          eqb_ℤ_iff x y,
          ne_iff x y,
          ltb_ℤ_iff x y,
          le_iff x y,
          ltb_ℤ_iff y x,
          ge_iff x y,
          λ c d. refl,
        )
