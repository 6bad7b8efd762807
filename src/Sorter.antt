-- ===== src/Sorter.antt =====
-- The default sorter (sort/sort.go): the methods of `DefaultSorterCtx`, and `Sort` on lists of rows. Go's
-- `sort.Sort` is a parameter.
pub mod Order
use vfilter.Base.{
  Bool, true, false, not, ◌||◌, Option, List, [], Bytes, ℕ, length, get_elem?, if◌then◌else◌,
  Outcome, returns, panics, hangs, ◌>>=◌, index,
}
use vfilter.Value.{Runtime, Any}
use vfilter.Protocols.Dispatch.{Impl}
use vfilter.Protocols.Compare.{lt}

-- The members of a row, and the implementations of `Lt`, come from the scope.
module _ {rt : Runtime} {Row : Type 0} (associative : Row → Bytes → Any rt × Bool)
    (lt_impl : List (Impl rt Bool)) where
  pub record DefaultSorterCtx : Type 0 where
    pub items : List Row
    pub order_by : Bytes
    pub desc : Bool

  -- `Less` on two rows.
  abbrev pub less_rows : Bytes → Bool → Row → Row → Bool
  less_rows order_by desc row1 row2 =
      if not (associative row1 order_by).1 || not (associative row2 order_by).1
      then false
      else if desc
      then not (lt lt_impl (associative row1 order_by).0 (associative row2 order_by).0)
      else lt lt_impl (associative row1 order_by).0 (associative row2 order_by).0

  unfoldable pub less : DefaultSorterCtx → ℕ → ℕ → Outcome Bool
  less ctx i j = do
    row1 ← index ctx.items i
    row2 ← index ctx.items j
    returns (less_rows ctx.order_by ctx.desc row1 row2)
