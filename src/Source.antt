-- ===== src/Source.antt =====
-- Where the rows of a query come from: `Plugin` of vfilter.go, with `resolveSymbol`, `Eval` and
-- `evalSymbol`. The rows of a channel are a list; logging is left out.
use vfilter.Base.{
  ℕ, zero, suc, Bool, Option, none, some, List, [], ◌∷◌, Bytes, if◌then◌else◌, hangs,
}
use vfilter.Expr.Monad.{Eval, pure, ◌>>=◌}
use vfilter.Scope.{Vars, copy, append_vars, check_for_overflow}
use vfilter.Utils.Ident.{split_ident}

-- The type of a symbol: a stored expression, a plugin, a stored query that can be called like a plugin,
-- a stored query that cannot, a slice, or anything else.
pub data Symbol (S V Row : Type 0) : Type 0 where
  stored_expression : (Vars Row → Eval S V) → Symbol S V Row
  generator : (Vars Row → List (Bytes × V) → Eval S (List Row)) → Symbol S V Row
  callable_query :
      (Vars Row → List (Bytes × V) → Eval S (List Row))
      → (Vars Row → Eval S (List Row))
      → Symbol S V Row
  stored_query : (Vars Row → Eval S (List Row)) → Symbol S V Row
  slice : List Row → Symbol S V Row
  scalar : Row → Symbol S V Row

-- What is taken as given: the type switch, `GetPlugin`, `Associative` on the scope and on a value, and the
-- dictionary of arguments as a row.
pub record Registry (S V Row : Type 0) : Type 0 where
  pub symbol_of : V → Symbol S V Row
  pub get_plugin : Bytes → Option V
  pub scope_member : Vars Row → Bytes → Eval S (V × Bool)
  pub associative : Vars Row → V → Bytes → Eval S (V × Bool)
  pub row_of : List (Bytes × V) → Row

-- `Plugin`: its name, and its arguments where it is called.
pub record Plugin (S V Row : Type 0) : Type 0 where
  pub name : Bytes
  pub call : Bool
  pub build_args : Vars Row → Eval S (List (Bytes × V))

module _ {S V Row : Type 0} (registry : Registry S V Row) where
  -- The components behind the first one.
  unfoldable pub follow : Vars Row → List Bytes → V → Eval S (Option V)
  follow vars [] result = pure (some result)
  follow vars (component ∷ components) result = do
    found ← registry.associative vars result component
    if found.1 then follow vars components found.0 else pure none

  -- `SplitIdent` gives at least one component.
  abbrev pub from_scope : Vars Row → List Bytes → Eval S (Option V)
  from_scope vars [] = pure none
  from_scope vars (component ∷ components) = do
    found ← registry.scope_member vars component
    if found.1 then follow vars components found.0 else pure none

  abbrev pub plugin_named : Bool → List Bytes → Option V
  plugin_named call (component ∷ []) = if call then registry.get_plugin component else none
  plugin_named call components = none

  abbrev pub or_from_scope : Option V → Vars Row → List Bytes → Eval S (Option V)
  or_from_scope (some plugin) vars components = pure (some plugin)
  or_from_scope none vars components = from_scope vars components

  unfoldable pub resolve_symbol : Bool → Vars Row → List Bytes → Eval S (Option V)
  unfolding follow
  resolve_symbol call vars components = or_from_scope (plugin_named call components) vars components

  -- The switch of a symbol that is called, and of one that is not; `again` evaluates the value of a stored
  -- expression, which is not called.
  abbrev pub called_symbol :
      (V → Eval S (List Row)) → Vars Row → List (Bytes × V) → Symbol S V Row → Eval S (List Row)
  called_symbol again vars args (stored_expression reduce) = do
    v ← reduce (append_vars (registry.row_of args) (copy vars))
    again v
  called_symbol again vars args (generator run) = run vars args
  called_symbol again vars args (callable_query run query) = run vars args
  called_symbol again vars args symbol = pure []

  -- A plugin is a row, if it is not called.
  abbrev pub plain_symbol :
      (V → Row) → (V → Eval S (List Row)) → Vars Row → V → Symbol S V Row → Eval S (List Row)
  plain_symbol as_row again vars value (stored_expression reduce) = do v ← reduce vars; again v
  plain_symbol as_row again vars value (callable_query run query) = query vars
  plain_symbol as_row again vars value (stored_query query) = query vars
  plain_symbol as_row again vars value (slice rows) = pure rows
  plain_symbol as_row again vars value (scalar row) = pure (row ∷ [])
  plain_symbol as_row again vars value (generator run) = pure (as_row value ∷ [])

  abbrev pub eval_by :
      (V → Row)
      → (V → Eval S (List Row))
      → Vars Row
      → V
      → Option (List (Bytes × V))
      → Eval S (List Row)
  eval_by as_row again vars value none =
      plain_symbol as_row again vars value (registry.symbol_of value)
  eval_by as_row again vars value (some args) =
      called_symbol again vars args (registry.symbol_of value)

  module _ (as_row : V → Row) where
    -- On fuel for the stored expressions that come to stored expressions.
    unfoldable pub eval_symbol : ℕ → Vars Row → V → Option (List (Bytes × V)) → Eval S (List Row)
    eval_symbol zero vars value args = λ s. hangs
    eval_symbol (suc fuel) vars value args =
        if check_for_overflow vars
        then pure []
        else eval_by as_row (λ v. eval_symbol fuel vars v none) vars value args

    -- The arguments are built after the symbol was found.
    abbrev pub eval_found : ℕ → Plugin S V Row → Vars Row → Option V → Eval S (List Row)
    eval_found fuel plugin vars none = pure []
    eval_found fuel plugin vars (some value) =
        if plugin.call
        then plugin.build_args vars >>= (λ args. eval_symbol fuel vars value (some args))
        else eval_symbol fuel vars value none

    unfoldable pub eval_plugin : ℕ → Plugin S V Row → Vars Row → Eval S (List Row)
    unfolding resolve_symbol eval_symbol
    eval_plugin fuel plugin vars = do
      found ← resolve_symbol plugin.call vars (split_ident plugin.name)
      eval_found fuel plugin vars found
