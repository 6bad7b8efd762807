-- ===== src/Functions/If.antt =====
-- `if` (functions/if.go), behind the extraction of its arguments. A missing argument is nil.
pub mod Branch
use vfilter.Base.{Bool, Option, none, some, if◌then◌else◌, Outcome, returns, panics, hangs}
use vfilter.Expr.Monad.{Eval, pure, ◌>>=◌}

-- The type switches on a value: `IsNil`, a StoredQuery, and a LazyExpr by its ReduceWithScope.
pub record Kinds (S V : Type 0) : Type 0 where
  pub is_nil : V → Bool
  pub is_stored_query : V → Bool
  pub as_lazy : V → Option (Eval S V)
  pub null : V

module _ {S V : Type 0} (kinds : Kinds S V) where
  -- A LazyExpr is reduced, and any other value left.
  abbrev pub reduce_once : V → Eval S V
  reduce_once v = elim (kinds.as_lazy v) [ none ↦ pure v | some m ↦ m ]

  abbrev pub else_switch : V → Eval S V
  else_switch v =
      if kinds.is_stored_query v
      then pure v
      else elim (kinds.as_lazy v) [ some m ↦ m | none ↦ pure v ]

  abbrev pub else_value : V → Eval S V
  else_value v = if kinds.is_nil v then pure kinds.null else reduce_once v >>= else_switch

  -- A LazyExpr that comes to no stored query falls out of the switch, to the value of `else`.
  abbrev pub then_switch : V → V → Eval S V
  then_switch otherwise v = if kinds.is_stored_query v then pure v else elim (kinds.as_lazy v) [
    | some m ↦ m >>= λ s. if kinds.is_stored_query s then pure s else else_value otherwise
    | none ↦ pure v
  ]

  unfoldable pub if_call : Bool → V → V → Eval S V
  if_call condition then_arg else_arg =
      if condition
      then (if kinds.is_nil then_arg
          then pure kinds.null
          else reduce_once then_arg >>= then_switch else_arg)
      else else_value else_arg
