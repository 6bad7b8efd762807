-- ===== src/Statements/Let.antt =====
-- What a LET does to the variables of the scope.
use vfilter.Base.{
  ◌<◌, Bool, true, false, Option, none, some, [], Bytes, equal, if◌then◌else◌, returns, ◌≡◌, refl,
  ap, ◌∙◌, Bool-cases, inl, inr,
}
use vfilter.Value.{Runtime, Any, nil}
use vfilter.Expr.Monad.{bind-returns}
use vfilter.Scope.{Vars, emitted, append_vars, resolve}
use vfilter.Scope.Shadowing.{resolve-appended}
use vfilter.Statements.{
  Vql, lazy, Stored, stored_query, stored_expression, stored_parameters, Engine, is_let,
  bound_expression, bound_query, bound_by, eval_let, eval_statement,
}

module _ {E Q C S Row : Type 0} {rt : Runtime} (engine : Engine E Q C (Any rt) S Row)
    (associative : Row → Bytes → Any rt × Bool) (as_value : Stored E Q (Any rt) → Any rt)
    (single_lem : (name field : Bytes) (stored : Stored E Q (Any rt))
      → associative (engine.single name stored) field
        ≡ (if equal name field then (as_value stored, true) else (nil, false))) where
  resolve-single :
      (name field : Bytes) (stored : Stored E Q (Any rt)) (vars : Vars Row)
      → vars.stack_depth < 1000
      → resolve associative field (append_vars (engine.single name stored) vars) ≡ (
          if equal name field
          then (emitted (as_value stored), true)
          else resolve associative field vars)
  resolve-single name field stored vars h = elim (Bool-cases (equal name field)) [
    | inl e ↦
        let q : associative (engine.single name stored) field ≡ (as_value stored, true) =
          single_lem name field stored
          ∙ ap (λ b. if b then (as_value stored, true) else (nil, false)) e in
        rw e (
          resolve-appended associative field (engine.single name stored) vars h
            (inl (ap (λ r. r.1) q))
          ∙ rw q refl)
    | inr e ↦
        let q : associative (engine.single name stored) field ≡ (nil, false) =
          single_lem name field stored
          ∙ ap (λ b. if b then (as_value stored, true) else (nil, false)) e in
        rw e (
          resolve-appended associative field (engine.single name stored) vars h (inr q) ∙ rw q refl)
  ]

  -- What a lazy LET stores.
  abbrev pub stored_of : Option E → Vql E Q C → Stored E Q (Any rt)
  stored_of none vql =
      stored_query vql.stored_query (engine.unquote_ident vql.let_name)
        (stored_parameters engine vql)
  stored_of (some e) vql =
      stored_expression e (engine.unquote_ident vql.let_name) (stored_parameters engine vql)

  bound_by-lazy :
      (e : Option E) (vql : Vql E Q C) (vars : Vars Row) (s : S)
      → vql.let_operator ≡ lazy
      → bound_by engine e vql (engine.unquote_ident vql.let_name) vars s
        ≡ returns (some (stored_of e vql), s)
  unfolding bound_expression bound_query
  bound_by-lazy none vql vars s h = rw h refl
  bound_by-lazy (some e) vql vars s h = rw h refl

  -- `LET name = ...` evaluates nothing and puts out no row; from then on the name, unquoted, resolves to
  -- what is stored, and every other name as before. The depth of the scope is below 1000.
  pub eval_statement-lazy :
      (vql : Vql E Q C) (vars : Vars Row) (s : S) (field : Bytes)
      → is_let vql ≡ true
      → vql.let_operator ≡ lazy
      → vars.stack_depth < 1000
      → (vars' : Vars Row) × (eval_statement engine vql vars s ≡ returns ((vars', []), s))
        × (resolve associative field vars' ≡ (
            if equal (engine.unquote_ident vql.let_name) field
            then (emitted (as_value (stored_of vql.expression vql)), true)
            else resolve associative field vars))
  unfolding eval_statement eval_let
  eval_statement-lazy vql vars s field l o h = (
    append_vars (engine.single (engine.unquote_ident vql.let_name) (stored_of vql.expression vql))
        vars,
    rw l (
        bind-returns (bound_by engine vql.expression vql (engine.unquote_ident vql.let_name) vars) _
          _ s s (bound_by-lazy vql.expression vql vars s o)),
    resolve-single (engine.unquote_ident vql.let_name) field (stored_of vql.expression vql) vars h,
  )
