-- ===== src/Protocols/Arith/Integers.antt =====
-- `+`, `-` and `*` on integers are the operations modulo 2^64; `*` on a string repeats it.
use vfilter.Base.{none, List, arith, ◌≡◌, refl, ap, sym, ◌∙◌}
use vfilter.Base.Int.{int_laws, ℤ, pos, negsuc, wrap64, wrap64-IsInt64, IsInt64, ◌+ℤ◌, ◌-ℤ◌}
use vfilter.Value.{Runtime, Any, nil, integer, integer_ref, int64}
use vfilter.Protocols.Dispatch.{Impl}
use vfilter.Protocols.Arith.{sub_right, add, sub}
use vfilter.Protocols.Compare.Order.{Whole, to_int64-Whole, maybe_reduce-Whole}

+ℤ_comm : (a b : ℤ) → a +ℤ b ≡ b +ℤ a
+ℤ_comm a b = omega int_laws

+ℤ_regroup : (a b c : ℤ) → a +ℤ b +ℤ c ≡ b +ℤ c +ℤ a
+ℤ_regroup a b c = omega int_laws

-- Two integers are alike modulo 2^64.
pub wrap64-wrap64-add : (x y : ℤ) → wrap64 (wrap64 x +ℤ y) ≡ wrap64 (x +ℤ y)
unfolding wrap64 ◌+ℤ◌
wrap64-wrap64-add (pos m) (pos n) = ground arith
wrap64-wrap64-add (pos m) (negsuc n) = ground arith
wrap64-wrap64-add (negsuc m) (pos n) = ground arith
wrap64-wrap64-add (negsuc m) (negsuc n) = ground arith

wrap64-sub : (x y : ℤ) → IsInt64 x → wrap64 (wrap64 (x +ℤ y) -ℤ y) ≡ x
unfolding wrap64 ◌+ℤ◌ ◌-ℤ◌
wrap64-sub (pos m) (pos n) h = ground arith
wrap64-sub (pos m) (negsuc n) h = ground arith
wrap64-sub (negsuc m) (pos n) h = ground arith
wrap64-sub (negsuc m) (negsuc n) h = ground arith

wrap64-add_assoc : (x y z : ℤ) → wrap64 (wrap64 (x +ℤ y) +ℤ z) ≡ wrap64 (x +ℤ wrap64 (y +ℤ z))
wrap64-add_assoc x y z =
    wrap64-wrap64-add (x +ℤ y) z
    ∙ ap wrap64 (+ℤ_regroup x y z)
    ∙ sym (wrap64-wrap64-add (y +ℤ z) x)
    ∙ ap wrap64 (+ℤ_comm (wrap64 (y +ℤ z)) x)

module _ {rt : Runtime} where
  Whole-IsInt64 : (v : Any rt) (x : ℤ) → Whole v x → IsInt64 x
  Whole-IsInt64 (integer k z) x h = h.2
  Whole-IsInt64 (integer_ref k z) x h = h.2
  Whole-IsInt64 nil x h = absurd h
  Whole-IsInt64 _ x h = absurd h

  -- The second switch of `Sub` leaves an integer alone.
  sub_right-Whole : (a b : Any rt) (y : ℤ) → Whole b y → sub_right a b ≡ none
  sub_right-Whole a (integer k z) y g = refl
  sub_right-Whole a (integer_ref k z) y g = refl
  sub_right-Whole a nil y g = absurd g
  sub_right-Whole a _ y g = absurd g

module _ {rt : Runtime} (impl : List (Impl rt (Any rt))) where
  add-int64 :
      (a b : Any rt) (x y : ℤ)
      → Whole a x
      → Whole b y
      → add impl a b ≡ integer int64 (wrap64 (x +ℤ y))
  unfolding add
  add-int64 (integer k z) b x y h g = ground (
    arith,
    to_int64-Whole {rt = rt} (integer k z) x h,
    to_int64-Whole b y g,
    maybe_reduce-Whole b y g,
  )
  add-int64 (integer_ref k z) b x y h g = ground (
    arith,
    to_int64-Whole {rt = rt} (integer_ref k z) x h,
    to_int64-Whole b y g,
    maybe_reduce-Whole b y g,
  )
  add-int64 nil b x y h g = absurd h
  add-int64 _ b x y h g = absurd h

  sub-int64 :
      (a b : Any rt) (x y : ℤ)
      → Whole a x
      → Whole b y
      → sub impl a b ≡ integer int64 (wrap64 (x -ℤ y))
  unfolding sub
  sub-int64 (integer k z) b x y h g = ground (
    arith,
    to_int64-Whole {rt = rt} (integer k z) x h,
    to_int64-Whole b y g,
    maybe_reduce-Whole b y g,
    sub_right-Whole _ b y g,
  )
  sub-int64 (integer_ref k z) b x y h g = ground (
    arith,
    to_int64-Whole {rt = rt} (integer_ref k z) x h,
    to_int64-Whole b y g,
    maybe_reduce-Whole b y g,
    sub_right-Whole _ b y g,
  )
  sub-int64 nil b x y h g = absurd h
  sub-int64 _ b x y h g = absurd h

  sum-Whole : (z : ℤ) → Whole {rt = rt} (integer int64 (wrap64 z)) (wrap64 z)
  sum-Whole z = (refl, refl, wrap64-IsInt64 z)

  -- `+` on integers, or pointers to integers, of any type but `uint`, whose numbers fit an int64, is
  -- commutative and associative, wrap-around included, and `-` undoes it: the result is the left
  -- summand, as an int64.
  pub add-sub_laws :
      (a b c : Any rt) (x y z : ℤ)
      → Whole a x
      → Whole b y
      → Whole c z
      → (add impl a b ≡ add impl b a)
        × (add impl (add impl a b) c ≡ add impl a (add impl b c))
        × (sub impl (add impl a b) b ≡ integer int64 x)
  add-sub_laws a b c x y z h g k =
      let ab = add-int64 a b x y h g in
      let bc = add-int64 b c y z g k in
      (
        ab ∙ ap (λ t. integer int64 (wrap64 t)) (+ℤ_comm x y) ∙ sym (add-int64 b a y x g h),
        rw (ab, bc)
            (add-int64 (integer int64 (wrap64 (x +ℤ y))) c (wrap64 (x +ℤ y)) z (sum-Whole (x +ℤ y))
                k
              ∙ ap (integer int64) (wrap64-add_assoc x y z)
              ∙ sym (
                  add-int64 a (integer int64 (wrap64 (y +ℤ z))) x (wrap64 (y +ℤ z)) h
                    (sum-Whole (y +ℤ z)))),
        rw ab (
            sub-int64 (integer int64 (wrap64 (x +ℤ y))) b (wrap64 (x +ℤ y)) y (sum-Whole (x +ℤ y)) g
            ∙ ap (integer int64) (wrap64-sub x y (Whole-IsInt64 a x h))),
      )
