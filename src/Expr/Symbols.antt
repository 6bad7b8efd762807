-- ===== src/Expr/Symbols.antt =====
-- The evaluation of a symbol: `getFunction`, `_SymbolRef.Reduce` and `callFunction` of vfilter.go. A symbol
-- may be a stored expression (`LET f(x) = ...`), which is evaluated in a copy of the scope with the
-- arguments, and may refer to itself; `CheckForOverflow` stops it. Logging and statistics are left out.
pub mod Depth
pub mod Enough
use vfilter.Base.{
  ℕ, zero, suc, ◌==◌, Bool, true, false, ◌&&◌, Option, none, some, List, [], ◌∷◌, Bytes, length,
  if◌then◌else◌, Outcome, returns, panics, hangs,
}
use vfilter.Value.{Runtime, Any, null, string, other}
use vfilter.Utils.Ident.{split_ident}
use vfilter.Scope.{Vars, is_nil, copy, append_vars, check_for_overflow, resolve}
use vfilter.Expr.{AndExpression, SymbolRef, Argument, Scope, field}
use vfilter.Expr.Monad.{Eval, pure, ◌>>=◌}
use vfilter.Expr.Reduce.{reduce_and}

-- What a value of the kind `other` is, by its number.
pub data Object : Type 0 where
  plain : Object
  function_object : ℕ → Object
  stored_expression : AndExpression → Object
  stored_query : ℕ → Object

-- What the evaluation of symbols takes as given: the scope's operators and protocols (its
-- `reduce_symbol` is not used), the members of a row of variables, the objects, `GetFunction`, the `Call`
-- of a function for a node of the tree, the StoredQueryCallSite of a query, and the dictionary of
-- arguments as a row.
pub record Library (rt : Runtime) (S Row : Type 0) : Type 0 where
  pub scope : Scope rt S
  pub member_of_row : Row → Bytes → Any rt × Bool
  pub object : ℕ → Object
  pub get_function : Bytes → Option ℕ
  pub call : ℕ → ℕ → List (Bytes × Argument rt S) → Vars Row → Eval S (Any rt)
  pub call_site : ℕ → Vars Row → Any rt
  pub row_of : List (Bytes × Any rt) → Row

module _ {rt : Runtime} {S Row : Type 0} (lib : Library rt S Row) where
  -- The components behind the first one.
  unfoldable pub follow : List Bytes → Any rt → Eval S (Option (Any rt))
  follow [] result = pure (some result)
  follow (component ∷ components) result = do
    found ← lib.scope.associative result (field (string component))
    if found.1 then follow components found.0 else pure none

  -- The first component is a variable. `SplitIdent` gives at least one.
  abbrev pub resolve_components : List Bytes → Vars Row → Eval S (Option (Any rt))
  resolve_components [] vars = pure none
  resolve_components (component ∷ components) vars =
      let found = resolve lib.member_of_row component vars in
      if found.1 then follow components found.0 else pure none

  -- A single component that is called is looked up among the functions first.
  abbrev pub built_in : SymbolRef → List Bytes → Option ℕ
  built_in r components =
      if (length components == 1) && r.called then lib.get_function r.symbol else none

  abbrev pub or_resolve : Option ℕ → List Bytes → Vars Row → Eval S (Option (Any rt))
  or_resolve (some n) components vars = pure (some (other n))
  or_resolve none components vars = resolve_components components vars

  unfoldable pub get_symbol : SymbolRef → Vars Row → Eval S (Option (Any rt))
  get_symbol r vars = or_resolve (built_in r (split_ident r.symbol)) (split_ident r.symbol) vars

  abbrev pub object_of : Any rt → Object
  object_of (other n) = lib.object n
  object_of value = plain

  unfoldable pub call_function :
      ℕ → SymbolRef → Eval S (List (Bytes × Argument rt S)) → Vars Row → Eval S (Any rt)
  call_function n r lazies vars = do
    args ← lazies
    result ← lib.call n r.node args vars
    pure (if is_nil result then null else result)

  -- Anything else is taken literally.
  abbrev pub literal : SymbolRef → Any rt → Any rt
  literal r value = if r.called then null else value

  -- Without a call there are no arguments.
  abbrev pub args_if_called :
      SymbolRef → Eval S (List (Bytes × Any rt)) → Eval S (List (Bytes × Any rt))
  args_if_called r eager = if r.called then eager else pure []

  abbrev pub with_args : Vars Row → List (Bytes × Any rt) → Vars Row
  with_args vars args = append_vars (lib.row_of args) (copy vars)

  -- The copy of the scope is not too deep.
  abbrev pub if_shallow : Vars Row → Eval S (Any rt) → Eval S (Any rt)
  if_shallow vars m = if check_for_overflow (copy vars) then pure null else m

  abbrev pub call_query :
      ℕ → SymbolRef → Eval S (List (Bytes × Any rt)) → Vars Row → Eval S (Any rt)
  call_query n r eager vars = do
    args ← args_if_called r eager
    pure (lib.call_site n (with_args vars args))

  module _ (evaluate : AndExpression → Vars Row → Eval S (Any rt)) where
    -- The switch on the type of the symbol.
    unfoldable pub reduce_object :
        SymbolRef
        → Eval S (List (Bytes × Any rt))
        → Eval S (List (Bytes × Argument rt S))
        → Vars Row
        → Any rt
        → Object
        → Eval S (Any rt)
    reduce_object r eager lazies vars value plain = pure (literal r value)
    reduce_object r eager lazies vars value (function_object n) =
        if r.called then call_function n r lazies vars else pure null
    reduce_object r eager lazies vars value (stored_expression e) =
        if_shallow vars (do args ← args_if_called r eager; evaluate e (with_args vars args))
    reduce_object r eager lazies vars value (stored_query n) =
        if r.parameters then if_shallow vars (call_query n r eager vars) else pure (literal r value)

    abbrev pub reduce_found :
        SymbolRef
        → Eval S (List (Bytes × Any rt))
        → Eval S (List (Bytes × Argument rt S))
        → Vars Row
        → Option (Any rt)
        → Eval S (Any rt)
    reduce_found r eager lazies vars none = pure null
    reduce_found r eager lazies vars (some value) =
        if is_nil value
        then pure null
        else reduce_object r eager lazies vars value (object_of value)

    -- `_SymbolRef.Reduce`.
    unfoldable pub reduce_symbol :
        Vars Row
        → SymbolRef
        → Eval S (List (Bytes × Any rt))
        → Eval S (List (Bytes × Argument rt S))
        → Eval S (Any rt)
    unfolding get_symbol reduce_object
    reduce_symbol vars r eager lazies = do
      found ← get_symbol r vars
      reduce_found r eager lazies vars found

  -- The scope of an expression, on fuel for the stored expressions that are evaluated inside each other.
  unfoldable pub scope_at : ℕ → Vars Row → Scope rt S
  unfolding reduce_symbol
  scope_at zero vars = record lib.scope { reduce_symbol = λ r eager lazies s. hangs }
  scope_at (suc fuel) vars = record lib.scope {
    reduce_symbol = reduce_symbol (λ e inner. reduce_and (scope_at fuel inner) e) vars;
  }
