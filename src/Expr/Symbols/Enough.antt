-- ===== src/Expr/Symbols/Enough.antt =====
-- The fuel of `scope_at`.
use vfilter.Base.{
  ℕ, zero, suc, ◌+◌, ◌≤◌, ◌<◌, Option, none, some, List, Bytes, ◌≡◌, refl, ap, arith, ltb,
  Bool-cases, inl, inr, if◌then◌else◌,
}
use vfilter.Value.{Runtime, Any, null}
use vfilter.Scope.{Vars, is_nil, copy, append_vars, check_for_overflow}
use vfilter.Expr.{AndExpression, CommaExpression, SymbolRef, Argument}
use vfilter.Expr.Monad.{Eval, pure, ◌>>=◌}
use vfilter.Expr.Reduce.{reduce_and, reduce_comma}
use vfilter.Expr.Symbols.{
  Object, plain, function_object, stored_expression, stored_query, Library, get_symbol, object_of,
  args_if_called, with_args, if_shallow, reduce_object, reduce_found, reduce_symbol, scope_at,
}

module _ {S A B : Type 0} where
  bind_same : (m : Eval S A) (f g : A → Eval S B) → ((a : A) → f a ≡ g a) → (m >>= f) ≡ (m >>= g)
  bind_same m f g h = λ i. m >>= λ a. h a i

module _ {rt : Runtime} {S Row : Type 0} (lib : Library rt S Row) where
  if_shallow_same :
      (vars : Vars Row) (m n : Eval S (Any rt))
      → (vars.stack_depth + 1 < 1000 → m ≡ n)
      → if_shallow lib vars m ≡ if_shallow lib vars n
  unfolding check_for_overflow copy
  if_shallow_same vars m n h = elim (Bool-cases (ltb (vars.stack_depth + 1) 1000)) [
    | inl e ↦ rw e (h (ground arith))
    | inr e ↦ rw e refl
  ]

  -- Two ways to evaluate that agree on the scopes that are deeper than this one.
  module _ (one two : AndExpression → Vars Row → Eval S (Any rt)) (vars : Vars Row)
      (agree : (e : AndExpression) (inner : Vars Row)
        → inner.stack_depth ≡ vars.stack_depth + 1
        → inner.stack_depth < 1000
        → one e inner ≡ two e inner) where
    reduce_object_same :
        (r : SymbolRef) (eager : Eval S (List (Bytes × Any rt)))
        (lazies : Eval S (List (Bytes × Argument rt S))) (value : Any rt) (o : Object)
        → reduce_object lib one r eager lazies vars value o
          ≡ reduce_object lib two r eager lazies vars value o
    unfolding reduce_object append_vars copy
    reduce_object_same r eager lazies value plain = refl
    reduce_object_same r eager lazies value (function_object n) = refl
    reduce_object_same r eager lazies value (stored_expression e) =
        if_shallow_same vars _ _ (λ below.
          bind_same (args_if_called lib r eager) (λ args. one e (with_args lib vars args))
            (λ args. two e (with_args lib vars args))
            (λ args. agree e (with_args lib vars args) refl below))
    reduce_object_same r eager lazies value (stored_query n) = refl

    reduce_found_same :
        (r : SymbolRef) (eager : Eval S (List (Bytes × Any rt)))
        (lazies : Eval S (List (Bytes × Argument rt S))) (found : Option (Any rt))
        → reduce_found lib one r eager lazies vars found
          ≡ reduce_found lib two r eager lazies vars found
    reduce_found_same r eager lazies none = refl
    reduce_found_same r eager lazies (some value) =
        ap (λ m. if is_nil value then pure null else m)
          (reduce_object_same r eager lazies value (object_of lib value))

    reduce_symbol_same : reduce_symbol lib one vars ≡ reduce_symbol lib two vars
    unfolding reduce_symbol
    reduce_symbol_same = λ i r eager lazies.
        get_symbol lib r vars >>= λ found. reduce_found_same r eager lazies found i

  scope_at-step :
      (a b : ℕ) (vars : Vars Row)
      → ((inner : Vars Row)
          → inner.stack_depth ≡ vars.stack_depth + 1
          → inner.stack_depth < 1000
          → scope_at lib a inner ≡ scope_at lib b inner)
      → scope_at lib (suc a) vars ≡ scope_at lib (suc b) vars
  unfolding scope_at
  scope_at-step a b vars agree = λ i. record lib.scope {
    reduce_symbol =
        reduce_symbol_same (λ e inner. reduce_and (scope_at lib a inner) e)
          (λ e inner. reduce_and (scope_at lib b inner) e) vars
          (λ e inner d below. ap (λ scope. reduce_and scope e) (agree inner d below)) i;
  }

  scope_at_same :
      (a b : ℕ) (vars : Vars Row)
      → 1000 ≤ vars.stack_depth + suc a
      → 1000 ≤ vars.stack_depth + suc b
      → scope_at lib (suc a) vars ≡ scope_at lib (suc b) vars
  scope_at_same zero b vars h k = scope_at-step zero b vars (λ inner d below. absurd (omega arith))
  scope_at_same (suc a) zero vars h k =
      scope_at-step (suc a) zero vars (λ inner d below. absurd (omega arith))
  scope_at_same (suc a) (suc b) vars h k =
      scope_at-step (suc a) (suc b) vars
        (λ inner d below. scope_at_same a b inner (omega arith) (omega arith))

  -- An expression is evaluated, in any scope, on fuel for at least 1000 evaluations of stored expressions
  -- inside each other as on fuel for 1000.
  pub reduce_comma-scope_at :
      (fuel : ℕ) (vars : Vars Row) (e : CommaExpression)
      → 1000 ≤ fuel
      → reduce_comma (scope_at lib fuel vars) e ≡ reduce_comma (scope_at lib 1000 vars) e
  reduce_comma-scope_at zero vars e h = absurd (omega arith)
  reduce_comma-scope_at (suc fuel) vars e h =
      ap (λ scope. reduce_comma scope e) (scope_at_same fuel 999 vars (omega arith) (omega arith))
