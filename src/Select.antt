-- ===== src/Select.antt =====
-- `_Select.Eval`, `processSingleRow` (vfilter.go), `GetNextRow` and `EvalGroupBy` (vfilter_group.go).
-- The rows of a channel are a list; cancelling, the explainer and the closing of scopes are left out.
-- Parts of the program that are given here as functions: the row that the plugin puts out, `transform`
-- for `_SelectExpression.Transform` in a scope of these variables, `reduce` for the `Reduce` of a clause
-- (what aggregate functions keep between rows is left to Grouper), `text` for `types.ToString`,
-- `materialize` for `MaterializedLazyRow`, and the sorter and the grouper that the client may set.
pub mod Limit
pub mod Filter
use vfilter.Base.{
  ℕ, ◌+◌, Bool, true, false, ◌&&◌, not, Option, none, some, List, [], ◌∷◌, ◌++◌, Bytes,
  if◌then◌else◌,
}
use vfilter.Base.Int.{ℤ, pos, ◌+ℤ◌, ltb_ℤ}
use vfilter.Value.{Runtime, Any}
use vfilter.Expr.{CommaExpression}
use vfilter.Protocols.Truth.{BoolImpl, truth_of}
use vfilter.Scope.{Vars, copy, append_vars, is_nil}

-- The clauses of a query, with the name to sort by.
pub record Query : Type 0 where
  pub where_clause : Option CommaExpression
  pub group_by : Option CommaExpression
  pub order_by : Option Bytes
  pub order_by_desc : Option Bool
  pub limit : Option ℤ

-- `desc` is false without a DESC.
abbrev pub descending : Option Bool → Bool
descending none = false
descending (some b) = b

module _ {A : Type 0} where
  -- The loop under LIMIT, with the count that it starts with.
  unfoldable pub limited : ℤ → ℤ → List A → List A
  limited limit count [] = []
  limited limit count (row ∷ rows) =
      let rest = limited limit (count +ℤ pos 1) rows in
      row ∷ (if ltb_ℤ limit (count +ℤ pos 1) then [] else rest)

  -- ORDER BY: the rows go through the sorter.
  abbrev pub ordered : (Bytes → Bool → List A → List A) → Option Bytes → Bool → List A → List A
  ordered sort none desc rows = rows
  ordered sort (some key) desc rows = sort key desc rows

module _ {rt : Runtime} (bool_impl : List (BoolImpl rt)) where
  -- `expression != nil && scope.Bool(expression)`.
  abbrev pub accepts : Any rt → Bool
  accepts v = not (is_nil v) && truth_of bool_impl v

module _ {Row : Type 0} (transform : Vars Row → Row → Row) where
  -- The variables that WHERE sees: those of the query, the row and the transformed row.
  abbrev pub filter_vars : Vars Row → Row → Vars Row
  filter_vars subscope row = append_vars (transform subscope row) (append_vars row (copy subscope))

  -- The variables over which a group's row is reduced.
  abbrev pub group_vars : Vars Row → Row → Vars Row
  group_vars vars row =
      let new_scope = copy vars in append_vars (transform new_scope row) (append_vars row new_scope)

module _ {rt : Runtime} {Row : Type 0} (bool_impl : List (BoolImpl rt))
    (transform : Vars Row → Row → Row) (reduce : CommaExpression → Vars Row → Any rt) where
  unfoldable pub process_single_row :
      (Row → Vars Row → Row) → Option CommaExpression → Vars Row → Row → List Row
  process_single_row materialize none vars row =
      let subscope = copy vars in materialize (transform subscope row) subscope ∷ []
  process_single_row materialize (some clause) vars row =
      let subscope = copy vars in
      let new_scope = filter_vars transform subscope row in
      if accepts bool_impl (reduce clause new_scope)
      then materialize (transform subscope row) new_scope ∷ []
      else []

  unfoldable pub process_rows :
      (Row → Vars Row → Row) → Option CommaExpression → Vars Row → List Row → List Row
  process_rows materialize clause vars [] = []
  process_rows materialize clause vars (row ∷ rows) =
      process_single_row materialize clause vars row ++ process_rows materialize clause vars rows

  abbrev pub kept_by : Option CommaExpression → Vars Row → Bool
  kept_by none new_scope = true
  kept_by (some clause) new_scope = accepts bool_impl (reduce clause new_scope)

  -- The rows that `GetNextRow` hands to the grouper one after the other: the transformed row, the row,
  -- the text of the group and the scope.
  unfoldable pub next_rows :
      (Any rt → Bytes)
      → Option CommaExpression
      → CommaExpression
      → Vars Row
      → List Row
      → List (Row × Row × Bytes × Vars Row)
  next_rows text clause group_by vars [] = []
  next_rows text clause group_by vars (row ∷ rows) =
      let rest = next_rows text clause group_by vars rows in
      let new_scope = group_vars transform vars row in
      if kept_by clause new_scope
      then (transform (copy vars) row, row, text (reduce group_by new_scope), new_scope) ∷ rest
      else rest

  module _ (materialize : Row → Vars Row → Row) (text : Any rt → Bytes)
      (sort : Bytes → Bool → List Row → List Row)
      (group : List (Row × Row × Bytes × Vars Row) → List Row) where
    unfoldable pub eval_group_by : Query → CommaExpression → Vars Row → List Row → List Row
    unfolding next_rows
    eval_group_by q group_by vars rows =
        ordered sort q.order_by (descending q.order_by_desc)
          (group (next_rows text q.where_clause group_by vars rows))

    -- `Eval` with no GROUP BY and no LIMIT.
    unfoldable pub eval_ordered : Query → Vars Row → List Row → List Row
    unfolding process_rows
    eval_ordered q vars rows =
        ordered sort q.order_by (descending q.order_by_desc)
          (process_rows materialize q.where_clause vars rows)

    -- `Eval` with no GROUP BY.
    unfoldable pub eval_limited : Query → Option ℤ → Vars Row → List Row → List Row
    unfolding eval_ordered limited
    eval_limited q none vars rows = eval_ordered q vars rows
    eval_limited q (some limit) vars rows = limited limit (pos 1) (eval_ordered q vars rows)

    unfoldable pub eval : Query → Vars Row → List Row → List Row
    unfolding eval_group_by eval_limited
    eval q vars rows = elim q.group_by [
      | some group_by ↦ eval_group_by q group_by vars rows
      | none ↦ eval_limited q q.limit vars rows
    ]
