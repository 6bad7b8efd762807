-- ===== src/Expr/Symbols/Depth.antt =====
-- The depth of evaluations of stored expressions inside each other.
use vfilter.Base.{
  ℕ, zero, suc, ◌+◌, ◌≤◌, ◌<◌, Option, none, some, List, [], ◌∷◌, Bytes, arith, ltb, Bool-cases,
  inl, inr,
}
use vfilter.Value.{Runtime, Any, null, string}
use vfilter.Utils.Ident.{split_ident}
use vfilter.Scope.{Vars, is_nil, copy, append_vars, check_for_overflow, resolve}
use vfilter.Expr.{AndExpression, CommaExpression, SymbolRef, Argument, Key, field}
use vfilter.Expr.Monad.{Eval, pure}
use vfilter.Expr.Keeps.{Keeps, Keeps-bind, Keeps-if, Keeps-args, KeepsArgs, AllSafe}
use vfilter.Expr.Frame.{Keeps-and, reduce_comma-Keeps}
use vfilter.Expr.Reduce.{reduce_and, reduce_comma}
use vfilter.Expr.Symbols.{
  Object, plain, function_object, stored_expression, stored_query, Library, follow, or_resolve,
  built_in, get_symbol, object_of, call_function, args_if_called, with_args, if_shallow,
  reduce_object, reduce_found, reduce_symbol, scope_at,
}

module _ {rt : Runtime} {S Row : Type 0} (lib : Library rt S Row) (R : S → S → Type 0)
    (reflexive : (s : S) → R s s) (transitive : (s t u : S) → R s t → R t u → R s u)
    (members : (a : Any rt) (k : Key rt) → Keeps R ⊥ (lib.scope.associative a k))
    (calls : (n node : ℕ) (args : List (Bytes × Argument rt S)) (vars : Vars Row)
      → AllSafe R ⊥ args
      → Keeps R ⊥ (lib.call n node args vars)) where
  follow-Keeps : (cs : List Bytes) (v : Any rt) → Keeps R ⊥ (follow lib cs v)
  unfolding follow
  follow-Keeps [] v = reflexive
  follow-Keeps (c ∷ cs) v =
      Keeps-bind R ⊥ reflexive transitive _ _ (members v (field (string c))) (λ found.
        Keeps-if R ⊥ reflexive transitive found.1 (follow lib cs found.0) (pure none)
          (follow-Keeps cs found.0) reflexive)

  or_resolve-Keeps :
      (o : Option ℕ) (cs : List Bytes) (vars : Vars Row) → Keeps R ⊥ (or_resolve lib o cs vars)
  or_resolve-Keeps (some n) cs vars = reflexive
  or_resolve-Keeps none [] vars = reflexive
  or_resolve-Keeps none (c ∷ cs) vars =
      Keeps-if R ⊥ reflexive transitive (resolve lib.member_of_row c vars).1
        (follow lib cs (resolve lib.member_of_row c vars).0) (pure none) (follow-Keeps cs _)
        reflexive

  call_function-Keeps :
      (n : ℕ) (r : SymbolRef) (lazies : Eval S (List (Bytes × Argument rt S))) (vars : Vars Row)
      → KeepsArgs R ⊥ lazies
      → Keeps R ⊥ (call_function lib n r lazies vars)
  unfolding call_function
  call_function-Keeps n r lazies vars h =
      Keeps-args R ⊥ reflexive transitive lazies _ h (λ args safe.
        Keeps-bind R ⊥ reflexive transitive _ _ (calls n r.node args vars safe)
          (λ result. reflexive))

  args_if_called-Keeps :
      (r : SymbolRef) (eager : Eval S (List (Bytes × Any rt)))
      → Keeps R ⊥ eager
      → Keeps R ⊥ (args_if_called lib r eager)
  args_if_called-Keeps r eager h =
      Keeps-if R ⊥ reflexive transitive r.called eager (pure []) h reflexive

  -- The evaluation inside may be counted on where the depth is below the limit.
  if_shallow-Keeps :
      (vars : Vars Row) (m : Eval S (Any rt))
      → (vars.stack_depth + 1 < 1000 → Keeps R ⊥ m)
      → Keeps R ⊥ (if_shallow lib vars m)
  unfolding check_for_overflow copy
  if_shallow-Keeps vars m h = elim (Bool-cases (ltb (vars.stack_depth + 1) 1000)) [
    | inl e ↦ rw e (h (ground arith))
    | inr e ↦ rw e reflexive
  ]

  module _ (fuel : ℕ)
      (inner : (e : AndExpression) (vars : Vars Row)
        → vars.stack_depth < 1000
        → 1000 ≤ vars.stack_depth + fuel
        → Keeps R ⊥ (reduce_and (scope_at lib fuel vars) e)) where
    reduce_object-Keeps :
        (r : SymbolRef) (eager : Eval S (List (Bytes × Any rt)))
        (lazies : Eval S (List (Bytes × Argument rt S))) (vars : Vars Row) (value : Any rt)
        (o : Object)
        → 1000 ≤ vars.stack_depth + suc fuel
        → Keeps R ⊥ eager
        → KeepsArgs R ⊥ lazies
        → Keeps R ⊥ (
            reduce_object lib
              (λ e vars. reduce_and (scope_at lib fuel vars) e)
              r
              eager
              lazies
              vars
              value
              o)
    unfolding reduce_object append_vars copy
    reduce_object-Keeps r eager lazies vars value plain d h k = reflexive
    reduce_object-Keeps r eager lazies vars value (function_object n) d h k =
        Keeps-if R ⊥ reflexive transitive r.called (call_function lib n r lazies vars) (pure null)
          (call_function-Keeps n r lazies vars k) reflexive
    reduce_object-Keeps r eager lazies vars value (stored_expression e) d h k =
        if_shallow-Keeps vars _ λ below.
          Keeps-bind R ⊥ reflexive transitive _ _ (args_if_called-Keeps r eager h)
            (λ args. inner e (with_args lib vars args) below (omega arith))
    reduce_object-Keeps r eager lazies vars value (stored_query n) d h k =
        Keeps-if R ⊥ reflexive transitive r.parameters _ _
          (if_shallow-Keeps vars _ λ below.
            Keeps-bind R ⊥ reflexive transitive _ _ (args_if_called-Keeps r eager h)
              (λ args. reflexive))
          reflexive

    reduce_found-Keeps :
        (r : SymbolRef) (eager : Eval S (List (Bytes × Any rt)))
        (lazies : Eval S (List (Bytes × Argument rt S))) (vars : Vars Row) (found : Option (Any rt))
        → 1000 ≤ vars.stack_depth + suc fuel
        → Keeps R ⊥ eager
        → KeepsArgs R ⊥ lazies
        → Keeps R ⊥ (
            reduce_found lib
              (λ e vars. reduce_and (scope_at lib fuel vars) e)
              r
              eager
              lazies
              vars
              found)
    reduce_found-Keeps r eager lazies vars none d h k = reflexive
    reduce_found-Keeps r eager lazies vars (some value) d h k =
        Keeps-if R ⊥ reflexive transitive (is_nil value) _ _ reflexive
          (reduce_object-Keeps r eager lazies vars value (object_of lib value) d h k)

    reduce_symbol-Keeps :
        (vars : Vars Row) (r : SymbolRef) (eager : Eval S (List (Bytes × Any rt)))
        (lazies : Eval S (List (Bytes × Argument rt S)))
        → 1000 ≤ vars.stack_depth + suc fuel
        → Keeps R ⊥ eager
        → KeepsArgs R ⊥ lazies
        → Keeps R ⊥ ((scope_at lib (suc fuel) vars).reduce_symbol r eager lazies)
    unfolding scope_at reduce_symbol get_symbol
    reduce_symbol-Keeps vars r eager lazies d h k =
        Keeps-bind R ⊥ reflexive transitive (get_symbol lib r vars) _
          (or_resolve-Keeps (built_in lib r (split_ident r.symbol)) (split_ident r.symbol) vars)
          (λ found. reduce_found-Keeps r eager lazies vars found d h k)

  scope_at-members :
      (fuel : ℕ) (vars : Vars Row) (a : Any rt) (k : Key rt)
      → Keeps R ⊥ ((scope_at lib fuel vars).associative a k)
  unfolding scope_at
  scope_at-members zero vars = members
  scope_at-members (suc fuel) vars = members

  scope_at-inner :
      (fuel : ℕ) (e : AndExpression) (vars : Vars Row)
      → vars.stack_depth < 1000
      → 1000 ≤ vars.stack_depth + fuel
      → Keeps R ⊥ (reduce_and (scope_at lib fuel vars) e)
  scope_at-inner zero e vars below d = absurd (omega arith)
  scope_at-inner (suc fuel) e vars below d =
      Keeps-and (scope_at lib (suc fuel) vars) R ⊥ reflexive transitive
        (λ r eager lazies. reduce_symbol-Keeps fuel (scope_at-inner fuel) vars r eager lazies d)
        (scope_at-members (suc fuel) vars) e

  -- The evaluation of an expression in a scope ends, with fuel for 1000 evaluations of stored expressions
  -- inside each other, whatever the stored expressions refer to: themselves, or each other. The accesses
  -- to members have to end, and the functions, on arguments that end. And a reflexive and transitive
  -- relation between states that these keep is kept.
  pub scope_at-Keeps :
      (vars : Vars Row) (e : CommaExpression) → Keeps R ⊥ (reduce_comma (scope_at lib 1000 vars) e)
  scope_at-Keeps vars e =
      reduce_comma-Keeps (scope_at lib 1000 vars) R ⊥ reflexive transitive
        (λ r eager lazies.
          reduce_symbol-Keeps 999 (scope_at-inner 999) vars r eager lazies (omega arith))
        (scope_at-members 1000 vars) e
