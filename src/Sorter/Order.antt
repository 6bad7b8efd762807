-- ===== src/Sorter/Order.antt =====
-- What `Less` decides.
use vfilter.Base.{Bool, true, false, not, List, Bytes, ◌≡◌, ◌↔◌, refl, arith}
use vfilter.Base.Int.{ℤ, ◌<ℤ◌, ◌≤ℤ◌, ltb_ℤ}
use vfilter.Value.{Runtime, Any}
use vfilter.Protocols.Dispatch.{Impl}
use vfilter.Protocols.Compare.Order.{Whole, ltb_ℤ_iff, lt-int64}
use vfilter.Sorter.{less_rows}

not_lt_iff : (x y : ℤ) → (not (ltb_ℤ x y) ≡ true) ↔ (y ≤ℤ x)
not_lt_iff x y = (λ h. ground arith, λ h. ground arith)

module _ {rt : Runtime} {Row : Type 0} (associative : Row → Bytes → Any rt × Bool)
    (lt_impl : List (Impl rt Bool)) where
  -- The row has the member, and it is the integer `x`.
  abbrev pub HasKey : Bytes → Row → ℤ → Type 0
  HasKey key row x = ((associative row key).1 ≡ true) × Whole (associative row key).0 x

  less_rows-ascending :
      (key : Bytes) (row1 row2 : Row) (x y : ℤ)
      → HasKey key row1 x
      → HasKey key row2 y
      → less_rows associative lt_impl key false row1 row2 ≡ ltb_ℤ x y
  less_rows-ascending key row1 row2 x y (p, h) (q, g) = rw (p, q) (lt-int64 lt_impl _ _ x y h g)

  less_rows-descending :
      (key : Bytes) (row1 row2 : Row) (x y : ℤ)
      → HasKey key row1 x
      → HasKey key row2 y
      → less_rows associative lt_impl key true row1 row2 ≡ not (ltb_ℤ x y)
  less_rows-descending key row1 row2 x y (p, h) (q, g) =
      rw (p, q, lt-int64 lt_impl (associative row1 key).0 (associative row2 key).0 x y h g) refl

  -- On rows whose keys are integers, or pointers to integers, of any type but `uint`, with numbers that fit
  -- an int64, `Less` is the order `<` of the keys in ascending sorts. In descending sorts it is `≥`, by which rows with equal keys are each less than the other.
  pub less_rows-order :
      (key : Bytes) (row1 row2 : Row) (x y : ℤ)
      → HasKey key row1 x
      → HasKey key row2 y
      → ((less_rows associative lt_impl key false row1 row2 ≡ true) ↔ (x <ℤ y))
        × ((less_rows associative lt_impl key true row1 row2 ≡ true) ↔ (y ≤ℤ x))
  less_rows-order key row1 row2 x y h g =
      rw (less_rows-ascending key row1 row2 x y h g, less_rows-descending key row1 row2 x y h g)
        (ltb_ℤ_iff x y, not_lt_iff x y)
