-- ===== src/LazyExpr.antt =====
-- Lazy expressions (`LazyExprImpl` of lazy.go), which keep their value once they were reduced. What the
-- expression comes to is given by the type switch of the code.
pub mod Once
use vfilter.Base.{
  Bool, true, false, Option, none, some, if◌then◌else◌, Outcome, returns, panics, hangs,
}
use vfilter.Expr.Monad.{Eval, pure, ◌>>=◌}

-- A Materializer, a function of Go and a LazyExpr by what their calls do; a stored query and any other
-- value are themselves.
pub data Result (Scope S V : Type 0) : Type 0 where
  materializer : (Scope → Eval S V) → Result Scope S V
  go_function : Eval S V → Result Scope S V
  lazy_expr : Eval S V → Result Scope S V
  itself : V → Result Scope S V

-- `value` is none where the field is Go's nil.
pub record LazyExpr (Scope S V : Type 0) : Type 0 where
  pub value : Option V
  pub expr : Option (Scope → Eval S (Result Scope S V))
  pub scope : Scope

abbrev pub kept : {V : Type 0} → (V → Bool) → V → Option V
kept is_nil v = if is_nil v then none else some v

module _ {Scope S V : Type 0} where
  abbrev pub new_lazy_expr : Scope → Option (Scope → Eval S (Result Scope S V)) → LazyExpr Scope S V
  new_lazy_expr scope expr = record { value = none; expr = expr; scope = scope }

  abbrev pub finish : Scope → Result Scope S V → Eval S V
  finish scope (materializer m) = m scope
  finish scope (go_function m) = m
  finish scope (lazy_expr m) = m
  finish scope (itself v) = pure v

  module _ (null_value : V) (is_nil : V → Bool) where
    -- The expression is evaluated in its own scope, a Materializer in the one that is given.
    unfoldable pub reduce_with_scope : LazyExpr Scope S V → Scope → Eval S V
    reduce_with_scope l scope = elim l.expr [
      | none ↦ pure null_value
      | some e ↦ e l.scope >>= finish scope
    ]

    -- The value, and the expression that it is kept in.
    abbrev pub reduce_by : Option V → LazyExpr Scope S V → Eval S (V × LazyExpr Scope S V)
    reduce_by (some v) l = pure (v, l)
    reduce_by none l = do
      v ← reduce_with_scope l l.scope
      pure (v, record l { value = kept is_nil v })

    unfoldable pub reduce_lazy : LazyExpr Scope S V → Eval S (V × LazyExpr Scope S V)
    reduce_lazy l = reduce_by l.value l
