-- ===== src/Statements.antt =====
-- The statements of a text (vfilter.go): `MultiVQL` with `GetStatements`, and `VQL` with `Type`,
-- `getParameters` and `Eval`. `E` and `Q` are the expressions and the queries, `C` the comments. Logging
-- is left out.
pub mod Comments
pub mod Let
use vfilter.Base.{
  Bool, true, false, Option, none, some, List, [], ◌∷◌, ◌++◌, Bytes, codes, equal, if◌then◌else◌,
  Outcome, returns, panics, hangs,
}
use vfilter.Expr.Monad.{Eval, pure, ◌>>=◌}
use vfilter.Scope.{Vars, copy, append_vars}

-- `=`, `<=`, and none, which is that of a query.
pub data LetOperator : Type 0 where
  lazy materialized no_operator : LetOperator

-- `_ParameterList`: a name, and the list behind a comma.
pub data ParameterList : Type 0 where
  last_name : Bytes → ParameterList
  next_name : Bytes → ParameterList → ParameterList

pub record Vql (E Q C : Type 0) : Type 0 where
  pub let_name : Bytes
  pub parameters : Option ParameterList
  pub let_operator : LetOperator
  pub stored_query : Option Q
  pub expression : Option E
  pub query : Option Q
  pub comments : List C

-- Comments, a statement, more comments, and the statements behind these.
pub data MultiVql (E Q C : Type 0) : Type 0 where
  last_statement : List C → Vql E Q C → List C → MultiVql E Q C
  statement : List C → Vql E Q C → List C → MultiVql E Q C → MultiVql E Q C

module _ {E Q C : Type 0} where
  abbrev pub with_comments : List C → Vql E Q C → Vql E Q C
  with_comments comments vql = record vql { comments = comments }

  -- `GetStatements`: the tree that it leaves, and the statements. The comments behind a statement, which
  -- go to the next one, are `moved`.
  unfoldable pub statements_from : List C → MultiVql E Q C → MultiVql E Q C × List (Vql E Q C)
  statements_from moved (last_statement comments vql comments2) =
      let vql1 = with_comments (moved ++ comments) vql in
      (last_statement (moved ++ comments) vql1 comments2, vql1 ∷ [])
  statements_from moved (statement comments vql comments2 next) =
      let vql1 = with_comments (moved ++ comments) vql in
      let rest = statements_from comments2 next in
      (statement (moved ++ comments) vql1 [] rest.0, vql1 ∷ rest.1)

  unfoldable pub get_statements : MultiVql E Q C → MultiVql E Q C × List (Vql E Q C)
  unfolding statements_from
  get_statements multi = statements_from [] multi

-- `visitor`.
unfoldable pub visitor : ParameterList → List Bytes → List Bytes
visitor (last_name left) result = result ++ left ∷ []
visitor (next_name left right) result = visitor right (result ++ left ∷ [])

abbrev pub names_of : Option ParameterList → List Bytes
names_of none = []
names_of (some list) = visitor list []

-- `explained` says whether a query has the word EXPLAIN.
abbrev pub query_type : {Q : Type 0} → (Q → Bool) → Option Q → Bytes
query_type explained none = []
query_type explained (some query) = if explained query then codes "EXPLAIN" else codes "SELECT"

abbrev pub type_by : LetOperator → Bytes → Bytes
type_by lazy of_query = codes "LAZY_LET"
type_by materialized of_query = codes "MATERIALIZED_LET"
type_by no_operator of_query = of_query

module _ {E Q C : Type 0} where
  abbrev pub is_let : Vql E Q C → Bool
  is_let vql = if equal vql.let_name [] then false else true

  unfoldable pub get_parameters : Vql E Q C → List Bytes
  unfolding visitor
  get_parameters vql = if is_let vql then names_of vql.parameters else []

  unfoldable pub vql_type : (Q → Bool) → Vql E Q C → Bytes
  vql_type explained vql = type_by vql.let_operator (query_type explained vql.query)

-- What a LET stores: a StoredExpression or a stored query with its name and its parameters, which are nil
-- where there is no list of them, or a value.
pub data Stored (E Q V : Type 0) : Type 0 where
  stored_expression : E → Bytes → Option (List Bytes) → Stored E Q V
  stored_query : Option Q → Bytes → Option (List Bytes) → Stored E Q V
  stored_value : V → Stored E Q V

-- What a statement takes as given: the evaluation of an expression and of a query in a scope, the type
-- switch for a stored query, a query as a value, `Materialize`, `Unquote_ident`, a dictionary with one
-- key as a row, and the text of a statement.
pub record Engine (E Q C V S Row : Type 0) : Type 0 where
  pub reduce : E → Vars Row → Eval S V
  pub eval_query : Q → Vars Row → Eval S (List Row)
  pub is_stored_query : V → Bool
  pub value_of_query : Q → V
  pub materialize : Bytes → V → Vars Row → Eval S V
  pub unquote_ident : Bytes → Bytes
  pub single : Bytes → Stored E Q V → Row
  pub format_to_string : Vql E Q C → V

module _ {E Q C V S Row : Type 0} (engine : Engine E Q C V S Row) where
  -- The parameters of what is stored.
  abbrev pub stored_parameters : Vql E Q C → Option (List Bytes)
  stored_parameters vql = elim vql.parameters [
    | none ↦ none
    | some list ↦ some (get_parameters vql)
  ]

  -- A value that is a stored query is materialized.
  abbrev pub materialize_value : Bytes → V → Vars Row → Eval S V
  materialize_value name value vars =
      if engine.is_stored_query value then engine.materialize name value vars else pure value

  -- A nil query panics when it is materialized.
  abbrev pub materialize_query : Bytes → Option Q → Vars Row → Eval S V
  materialize_query name none vars = λ s. panics
  materialize_query name (some query) vars =
      engine.materialize name (engine.value_of_query query) vars

  -- What a LET binds, for an expression and for a query.
  unfoldable pub bound_expression :
      Vql E Q C → E → LetOperator → Bytes → Vars Row → Eval S (Option (Stored E Q V))
  bound_expression vql e lazy name vars =
      pure (some (stored_expression e name (stored_parameters vql)))
  bound_expression vql e materialized name vars = do
    value ← engine.reduce e vars
    result ← materialize_value name value vars
    pure (some (stored_value result))
  bound_expression vql e no_operator name vars = pure none

  unfoldable pub bound_query :
      Vql E Q C → LetOperator → Bytes → Vars Row → Eval S (Option (Stored E Q V))
  bound_query vql lazy name vars =
      pure (some (stored_query vql.stored_query name (stored_parameters vql)))
  bound_query vql materialized name vars = do
    result ← materialize_query name vql.stored_query vars
    pure (some (stored_value result))
  bound_query vql no_operator name vars = pure none

  abbrev pub bound_by : Option E → Vql E Q C → Bytes → Vars Row → Eval S (Option (Stored E Q V))
  bound_by none vql name vars = bound_query vql vql.let_operator name vars
  bound_by (some e) vql name vars = bound_expression vql e vql.let_operator name vars

  -- `AppendVars` with a dictionary that has the name.
  abbrev pub bind_name : Bytes → Option (Stored E Q V) → Vars Row → Vars Row
  bind_name name none vars = vars
  bind_name name (some stored) vars = append_vars (engine.single name stored) vars

  unfoldable pub eval_let : Vql E Q C → Vars Row → Eval S (Vars Row × List Row)
  unfolding bound_expression bound_query
  eval_let vql vars = do
    stored ← bound_by vql.expression vql (engine.unquote_ident vql.let_name) vars
    pure (bind_name (engine.unquote_ident vql.let_name) stored vars, [])

  -- A query sees its own text as a variable, in a copy of the scope.
  abbrev pub query_vars : Vql E Q C → Vars Row → Vars Row
  query_vars vql vars =
      append_vars (engine.single (codes "$Query") (stored_value (engine.format_to_string vql)))
        (copy vars)

  unfoldable pub eval_query : Option Q → Vql E Q C → Vars Row → Eval S (Vars Row × List Row)
  eval_query none vql vars = λ s. panics
  eval_query (some query) vql vars = do
    rows ← engine.eval_query query (query_vars vql vars)
    pure (vars, rows)

  -- `VQL.Eval`: the variables that it leaves in the scope, and the rows that it puts out.
  unfoldable pub eval_statement : Vql E Q C → Vars Row → Eval S (Vars Row × List Row)
  unfolding eval_let eval_query
  eval_statement vql vars = if is_let vql then eval_let vql vars else eval_query vql.query vql vars
