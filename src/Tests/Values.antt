-- ===== src/Tests/Values.antt =====
-- The protocols on values.
use vfilter.Base.{ℕ, ◌≡◌, refl, [], codes, arith, true, false, some, Bool}
use vfilter.Base.Int.{◌+ℤ◌, pos, negsuc, ◌≤ℤ◌}
use vfilter.Value.{Any, Items, item, end, integer, float, string, int64, int8}
use vfilter.Protocols.Dispatch.{Impl}
use vfilter.Protocols.Compare.{eq}
use vfilter.Protocols.Compare.Order.{eq_float_asymmetric}
use vfilter.Protocols.Arith.{add, sub, mul}
use vfilter.Protocols.Arith.Integers.{add-sub_laws}
use vfilter.Protocols.Arith.Repeat.{mul_string_lem, repetition}
use vfilter.Protocols.Slices.{get_ranges}
use vfilter.Protocols.Slices.Bounds.{get_ranges_bounds}
use vfilter.Tests.Fixtures.{halves}

abbrev Value : Type 0
Value = Any halves

abbrev number : ℕ → Value
number n = integer int8 (pos n)

abbrev pair : Items halves
pair = item (number 1) (item (number 2) end)

abbrev always : Bool → Impl halves Bool
always b = record { applicable = λ x y. true; run = λ x y. b }

eq_float_asymmetric_example :
    (eq {rt = halves} [] (integer int64 (pos 1)) (float (pos 3)) ≡ true)
    × (eq {rt = halves} [] (float (pos 3)) (integer int64 (pos 1)) ≡ false)
unfolding ◌+ℤ◌
eq_float_asymmetric_example = eq_float_asymmetric [] (pos 3) refl (omega arith, omega arith)

add-sub_laws_example :
    (add [] (number 1) (number 2) ≡ add [] (number 2) (number 1))
    × (add [] (add [] (number 1) (number 2)) (number 3)
        ≡ add [] (number 1) (add [] (number 2) (number 3)))
    × (sub [] (add [] (number 1) (number 2)) (number 2) ≡ integer int64 (pos 1))
add-sub_laws_example =
    add-sub_laws [] (number 1) (number 2) (number 3) (pos 1) (pos 2) (pos 3)
      (refl, refl, (omega arith, omega arith)) (refl, refl, (omega arith, omega arith))
      (refl, refl, (omega arith, omega arith))

mul_string_lem_example :
    mul [] (string (codes "ab")) (number 3) ≡ repetition {rt = halves} (codes "ab") (pos 3)
mul_string_lem_example =
    mul_string_lem [] (codes "ab") (number 3) (pos 3) (refl, refl, (omega arith, omega arith))
      (omega arith) (omega arith)

get_ranges_bounds_example :
    (pos 0 ≤ℤ (get_ranges (some (negsuc 6)) (some (pos 9)) (pos 3)).0)
    × (pos 0 ≤ℤ (get_ranges (some (negsuc 6)) (some (pos 9)) (pos 3)).1)
    × ((get_ranges (some (negsuc 6)) (some (pos 9)) (pos 3)).1 ≤ℤ pos 3)
get_ranges_bounds_example = get_ranges_bounds (some (negsuc 6)) (some (pos 9)) 3
