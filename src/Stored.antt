-- ===== src/Stored.antt =====
-- Stored expressions and stored queries that are called with arguments (stored.go), and lambdas (lambda.go).
-- `V` are the values, `S` the state; what the values are is given by the type switch of the code.
pub mod Arguments
use vfilter.Base.{
  ℕ, zero, suc, Bool, true, false, not, ◌==◌, Option, none, some, List, [], ◌∷◌, ◌++◌, Bytes,
  length, ltb, if◌then◌else◌, Outcome, returns, panics, hangs,
}
use vfilter.Value.Convert.{in_string}
use vfilter.Expr.Monad.{Eval, pure, ◌>>=◌}
use vfilter.Scope.{Vars, copy, append_vars}
use vfilter.Statements.{ParameterList, names_of}

-- What `checkCallingArgs` writes to the log: an argument that is no parameter, and a parameter that has no
-- argument.
pub data Message : Type 0 where
  extra_arg missing_arg : Bytes → Message

abbrev pub extra_args : List Bytes → List Bytes → List Message
extra_args parameters [] = []
extra_args parameters (k ∷ keys) =
    let rest = extra_args parameters keys in
    if in_string parameters k then rest else extra_arg k ∷ rest

-- The keys of `seen_map`.
abbrev pub seen_map : List Bytes → List Bytes
seen_map [] = []
seen_map (k ∷ keys) = let rest = seen_map keys in if in_string rest k then rest else k ∷ rest

abbrev pub missing_args : List Bytes → List Bytes → List Message
missing_args seen [] = []
missing_args seen (k ∷ parameters) =
    let rest = missing_args seen parameters in
    if in_string seen k then rest else missing_arg k ∷ rest

-- The parameters are looked at only where fewer arguments were seen.
unfoldable pub check_calling_args : Option (List Bytes) → List Bytes → List Message
check_calling_args none keys = []
check_calling_args (some parameters) keys =
    extra_args parameters keys
    ++ (if ltb (length (seen_map keys)) (length parameters)
        then missing_args (seen_map keys) parameters
        else [])

-- The type switch on an argument: a LazyExpr and a Materializer by what their calls do, a StoredQuery by
-- what `types.Materialize` does with it in a scope, and anything else.
pub data CallArg (S V Row : Type 0) : Type 0 where
  lazy_expr : Eval S V → CallArg S V Row
  materializer : (Vars Row → Eval S V) → V → CallArg S V Row
  stored_query : (Vars Row → Eval S V) → CallArg S V Row
  plain_arg : V → CallArg S V Row

-- `Reduce` of a Lambda: the parameters with the arguments at their places.
abbrev pub paired : {V : Type 0} → List Bytes → List V → Outcome (List (Bytes × V))
paired [] values = returns []
paired (name ∷ names) [] = panics
paired (name ∷ names) (v ∷ values) = elim (paired names values) [
  | returns rest ↦ returns ((name, v) ∷ rest)
  | panics ↦ panics
  | hangs ↦ hangs
]

module _ {S V Row : Type 0} where
  -- A StoredExpression leaves a Materializer as it is.
  abbrev pub expression_arg : Vars Row → CallArg S V Row → Eval S V
  expression_arg vars (lazy_expr m) = m
  expression_arg vars (materializer m v) = pure v
  expression_arg vars (stored_query m) = m vars
  expression_arg vars (plain_arg v) = pure v

  abbrev pub query_arg : Vars Row → CallArg S V Row → Eval S V
  query_arg vars (lazy_expr m) = m
  query_arg vars (materializer m v) = m vars
  query_arg vars (stored_query m) = m vars
  query_arg vars (plain_arg v) = pure v

  -- The loop over the arguments, in their order.
  unfoldable pub call_args :
      (CallArg S V Row → Eval S V) → List (Bytes × CallArg S V Row) → Eval S (List (Bytes × V))
  call_args value_of [] = pure []
  call_args value_of ((k, a) ∷ args) = do
    v ← value_of a
    rest ← call_args value_of args
    pure ((k, v) ∷ rest)

  -- `Call` of a StoredExpression: `reduce` is its expression, and `row_of` the dictionary as a row. The
  -- copy of the scope is made before the arguments are evaluated, in the scope of the caller.
  unfoldable pub call_expression :
      (Vars Row → Eval S V)
      → (List (Bytes × V) → Row)
      → Vars Row
      → List (Bytes × CallArg S V Row)
      → Eval S V
  unfolding call_args
  call_expression reduce row_of vars args = do
    values ← call_args (expression_arg vars) args
    reduce (append_vars (row_of values) (copy vars))

  -- `Call` of a stored query, which makes a second copy in `Eval`; `query` gives its rows. That the context
  -- of the aggregates is cleared is left out.
  unfoldable pub call_query :
      (Vars Row → Eval S (List Row))
      → (List (Bytes × V) → Row)
      → Vars Row
      → List (Bytes × CallArg S V Row)
      → Eval S (List Row)
  unfolding call_args
  call_query query row_of vars args = do
    values ← call_args (query_arg (copy vars)) args
    query (copy (append_vars (row_of values) (copy vars)))

  abbrev pub lambda_body :
      (Vars Row → Eval S V)
      → (List (Bytes × V) → Row)
      → Vars Row
      → Outcome (List (Bytes × V))
      → Eval S V
  lambda_body reduce row_of vars (returns pairs) = reduce (append_vars (row_of pairs) (copy vars))
  lambda_body reduce row_of vars panics = λ s. panics
  lambda_body reduce row_of vars hangs = λ s. hangs

  unfoldable pub reduce_lambda :
      V
      → Option ParameterList
      → (Vars Row → Eval S V)
      → (List (Bytes × V) → Row)
      → Vars Row
      → List V
      → Eval S V
  reduce_lambda null_value parameters reduce row_of vars values =
      if length (names_of parameters) == length values
      then lambda_body reduce row_of vars (paired (names_of parameters) values)
      else pure null_value
