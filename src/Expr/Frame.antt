-- ===== src/Expr/Frame.antt =====
-- What evaluating an expression does to the state.
use vfilter.Base.{Bool, true, false, Option, none, some, List, [], ◌∷◌, Bytes}
use vfilter.Base.Int.{ℤ}
use vfilter.Value.{Runtime, Any, bool, null, array, of_list, other}
use vfilter.Utils.Unquote.{unquote}
use vfilter.Expr.Monad.{Eval, pure, ◌>>=◌}
use vfilter.Expr.{
  OrOp, MulOp, times, divide, SymbolRef, CommaExpression, comma, ArrayTerms, array_end, array_hole,
  array_term, AndExpression, conjunction, AndTerms, and_end, and_term, OrExpression, disjunction,
  OrTerms, or_end, or_term, ConditionOperand, negated, operand, compared, AdditionExpression,
  addition, AddTerms, add_end, add_term, MultiplicationExpression, multiplication, Factors,
  factor_end, factor, MemberExpression, member, Accesses, access_end, access_range, access_index,
  access_term, access_empty, Bound, absent, bound, Operand, sub_expression, symbol_ref,
  string_literal, number_literal, bool_literal, null_literal, Arguments, args_end, arg_right,
  arg_select, arg_array, arg_empty, Argument, lazily, ready, Key, Scope,
}
use vfilter.Expr.Keeps.{
  Keeps, Keeps-lift, Keeps-bind, Keeps-if, Safe, KeepsArgs, KeepsArgs-after, KeepsArgs-cons,
}
use vfilter.Expr.Reduce.{
  is_true, or_value, is_nil, and_then, or_then, if_present, if_bound, mul_values, reduce_comma,
  comma_result, array_terms, reduce_and, and_result, and_loop, reduce_or, or_result, or_loop,
  reduce_condition, reduce_addition, add_loop, reduce_multiplication, mul_loop, reduce_member,
  access_loop, reduce_bound, reduce_value, build_args, function_args,
}
use vfilter.Protocols.Arith.Repeat.{mul-Halts}
use vfilter.Utils.Unquote.Total.{unquote-Halts}

module _ {rt : Runtime} {S : Type 0} (scope : Scope rt S) (R : S → S → Type 0) (H : Type 0)
    (reflexive : (s : S) → R s s) (transitive : (s t u : S) → R s t → R t u → R s u)
    (symbols : (r : SymbolRef) (eager : Eval S (List (Bytes × Any rt)))
        (lazies : Eval S (List (Bytes × Argument rt S)))
      → Keeps R H eager
      → KeepsArgs R H lazies
      → Keeps R H (scope.reduce_symbol r eager lazies))
    (members : (a : Any rt) (k : Key rt) → Keeps R H (scope.associative a k)) where
  bind :
      {A B : Type 0} (m : Eval S A) (f : A → Eval S B)
      → Keeps R H m
      → ((a : A) → Keeps R H (f a))
      → Keeps R H (m >>= f)
  bind = Keeps-bind R H reflexive transitive

  cons :
      (name : Bytes) (a : Argument rt S) (m : Eval S (List (Bytes × Argument rt S)))
      → Safe R H a
      → KeepsArgs R H m
      → KeepsArgs R H (m >>= λ rest. pure ((name, a) ∷ rest))
  cons = KeepsArgs-cons R H reflexive transitive

  Keeps-present :
      (found : Any rt × Bool) (k : Any rt → Eval S (Any rt))
      → ((v : Any rt) → Keeps R H (k v))
      → Keeps R H (if_present scope found k)
  Keeps-present (v, true) k h = h v
  Keeps-present (v, false) k h = reflexive

  Keeps-bound :
      (i : Option (Option ℤ)) (k : Option ℤ → Eval S (Any rt))
      → ((b : Option ℤ) → Keeps R H (k b))
      → Keeps R H (if_bound scope i k)
  Keeps-bound none k h = reflexive
  Keeps-bound (some b) k h = h b

  Keeps-and_then :
      (v : Any rt) (rest : Eval S (Any rt)) → Keeps R H rest → Keeps R H (and_then scope v rest)
  Keeps-and_then v rest h =
      Keeps-if R H reflexive transitive (is_true scope v) rest (pure (bool false)) h reflexive

  Keeps-or_then :
      (op : OrOp) (v : Any rt) (rest : Eval S (Any rt))
      → Keeps R H rest
      → Keeps R H (or_then scope op v rest)
  Keeps-or_then op v rest h =
      Keeps-if R H reflexive transitive (is_true scope v) (pure (or_value scope op v)) rest
        reflexive h

  Keeps-mul : (op : MulOp) (a b : Any rt) → Keeps R H (mul_values scope op a b)
  Keeps-mul times a b = Keeps-lift R H reflexive transitive _ (mul-Halts scope.mul_impl a b)
  Keeps-mul divide a b = reflexive

  mutual
    unfolding reduce_comma

    Keeps-comma : (e : CommaExpression) → Keeps R H (reduce_comma scope e)
    Keeps-comma (comma left right) = bind _ _ (Keeps-and left) (λ v.
        Keeps-if R H reflexive transitive (is_nil scope v) (pure null) (comma_result scope right v)
          reflexive (Keeps-comma_result right v))

    Keeps-comma_result : (ts : ArrayTerms) (v : Any rt) → Keeps R H (comma_result scope ts v)
    Keeps-comma_result array_end v = reflexive
    Keeps-comma_result (array_hole ts) v = reflexive
    Keeps-comma_result (array_term t ts) v =
        bind _ _ (Keeps-and t) (λ w. bind _ _ (Keeps-array ts) (λ rest. reflexive))

    Keeps-array : (ts : ArrayTerms) → Keeps R H (array_terms scope ts)
    Keeps-array array_end = reflexive
    Keeps-array (array_hole ts) = reflexive
    Keeps-array (array_term t ts) =
        bind _ _ (Keeps-and t) (λ w. bind _ _ (Keeps-array ts) (λ rest. reflexive))

    pub Keeps-and : (e : AndExpression) → Keeps R H (reduce_and scope e)
    Keeps-and (conjunction left right) = bind _ _ (Keeps-or left) (λ v. Keeps-and_result right v)

    Keeps-and_result : (ts : AndTerms) (v : Any rt) → Keeps R H (and_result scope ts v)
    Keeps-and_result and_end v = reflexive
    Keeps-and_result (and_term t ts) v =
        Keeps-and_then v (reduce_or scope t >>= λ w. and_then scope w (and_loop scope ts))
          (bind _ _ (Keeps-or t) (λ w. Keeps-and_then w (and_loop scope ts) (Keeps-and_loop ts)))

    Keeps-and_loop : (ts : AndTerms) → Keeps R H (and_loop scope ts)
    Keeps-and_loop and_end = reflexive
    Keeps-and_loop (and_term t ts) =
        bind _ _ (Keeps-or t) (λ w. Keeps-and_then w (and_loop scope ts) (Keeps-and_loop ts))

    Keeps-or : (e : OrExpression) → Keeps R H (reduce_or scope e)
    Keeps-or (disjunction left right) =
        bind _ _ (Keeps-condition left) (λ v. Keeps-or_result right v)

    Keeps-or_result : (ts : OrTerms) (v : Any rt) → Keeps R H (or_result scope ts v)
    Keeps-or_result or_end v = reflexive
    Keeps-or_result (or_term op t ts) v =
        Keeps-if R H reflexive transitive (is_true scope v) (pure v)
          (reduce_condition scope t >>= λ w. or_then scope op w (or_loop scope ts w)) reflexive
          (bind _ _ (Keeps-condition t)
            (λ w. Keeps-or_then op w (or_loop scope ts w) (Keeps-or_loop ts w)))

    Keeps-or_loop : (ts : OrTerms) (v : Any rt) → Keeps R H (or_loop scope ts v)
    Keeps-or_loop or_end v = reflexive
    Keeps-or_loop (or_term op t ts) v =
        bind _ _ (Keeps-condition t)
          (λ w. Keeps-or_then op w (or_loop scope ts w) (Keeps-or_loop ts w))

    Keeps-condition : (e : ConditionOperand) → Keeps R H (reduce_condition scope e)
    Keeps-condition (negated c) = bind _ _ (Keeps-condition c) (λ v. reflexive)
    Keeps-condition (operand a) = Keeps-addition a
    Keeps-condition (compared a op b) =
        bind _ _ (Keeps-addition a) (λ x. bind _ _ (Keeps-addition b) (λ y. reflexive))

    Keeps-addition : (e : AdditionExpression) → Keeps R H (reduce_addition scope e)
    Keeps-addition (addition left right) =
        bind _ _ (Keeps-multiplication left) (λ v. Keeps-add_loop right v)

    Keeps-add_loop : (ts : AddTerms) (v : Any rt) → Keeps R H (add_loop scope ts v)
    Keeps-add_loop add_end v = reflexive
    Keeps-add_loop (add_term op t ts) v =
        bind _ _ (Keeps-multiplication t) (λ w. Keeps-add_loop ts _)

    Keeps-multiplication :
        (e : MultiplicationExpression) → Keeps R H (reduce_multiplication scope e)
    Keeps-multiplication (multiplication left right) =
        bind _ _ (Keeps-member left) (λ v. Keeps-mul_loop right v)

    Keeps-mul_loop : (ts : Factors) (v : Any rt) → Keeps R H (mul_loop scope ts v)
    Keeps-mul_loop factor_end v = reflexive
    Keeps-mul_loop (factor op t ts) v =
        bind _ _ (Keeps-value t) (λ w. bind _ _ (Keeps-mul op v w) (λ p. Keeps-mul_loop ts p))

    Keeps-member : (e : MemberExpression) → Keeps R H (reduce_member scope e)
    Keeps-member (member left right) = bind _ _ (Keeps-value left) (λ v. Keeps-access right v)

    Keeps-access : (ts : Accesses) (v : Any rt) → Keeps R H (access_loop scope ts v)
    Keeps-access access_end v = reflexive
    Keeps-access (access_range i j ts) v = bind _ _ (Keeps-bounds i) (λ lo. Keeps-bound lo _ (λ x.
        bind _ _ (Keeps-bounds j) (λ hi.
          Keeps-bound hi _
            (λ y. bind _ _ (members _ _) (λ found. Keeps-present found _ (Keeps-access ts))))))
    Keeps-access (access_index i ts) v =
        bind _ _ (Keeps-value i)
          (λ w. bind _ _ (members _ _) (λ found. Keeps-present found _ (Keeps-access ts)))
    Keeps-access (access_term name ts) v =
        bind _ _ (members _ _) (λ found. Keeps-present found _ (Keeps-access ts))
    Keeps-access (access_empty ts) v = reflexive

    Keeps-bounds : (b : Bound) → Keeps R H (reduce_bound scope b)
    Keeps-bounds absent = reflexive
    Keeps-bounds (bound v) = bind _ _ (Keeps-value v) (λ w. reflexive)

    Keeps-value : (e : Operand) → Keeps R H (reduce_value scope e)
    Keeps-value (sub_expression e) = Keeps-comma e
    Keeps-value (symbol_ref r args) = symbols r _ _ (Keeps-build args) (KeepsArgs-function args)
    Keeps-value (string_literal s) =
        bind _ _ (Keeps-lift R H reflexive transitive (unquote s) (unquote-Halts s))
          (λ v. reflexive)
    Keeps-value (number_literal s) = reflexive
    Keeps-value (bool_literal s) = reflexive
    Keeps-value null_literal = reflexive

    Keeps-build : (args : Arguments) → Keeps R H (build_args scope args)
    Keeps-build args_end = reflexive
    Keeps-build (arg_right name e args) =
        bind _ _ (Keeps-and e) (λ v. bind _ _ (Keeps-build args) (λ rest. reflexive))
    Keeps-build (arg_select name query args) = bind _ _ (Keeps-build args) (λ rest. reflexive)
    Keeps-build (arg_array name e args) =
        bind _ _ (Keeps-comma e) (λ v. bind _ _ (Keeps-build args) (λ rest. reflexive))
    Keeps-build (arg_empty name args) = bind _ _ (Keeps-build args) (λ rest. reflexive)

    KeepsArgs-function : (args : Arguments) → KeepsArgs R H (function_args scope args)
    KeepsArgs-function args_end = λ s. (reflexive s, tt)
    KeepsArgs-function (arg_right name e args) =
        cons (scope.unquote_ident name) (lazily (reduce_and scope e)) (function_args scope args)
          (Keeps-and e) (KeepsArgs-function args)
    KeepsArgs-function (arg_select name query args) =
        cons (scope.unquote_ident name) (ready (other query)) (function_args scope args) tt
          (KeepsArgs-function args)
    KeepsArgs-function (arg_array name e args) =
        KeepsArgs-after R H reflexive transitive _ _ (Keeps-comma e) (λ v.
          cons (scope.unquote_ident name) (ready v) (function_args scope args) tt
            (KeepsArgs-function args))
    KeepsArgs-function (arg_empty name args) =
        cons (scope.unquote_ident name) (ready (array (of_list []))) (function_args scope args) tt
          (KeepsArgs-function args)

  -- A relation between states that is reflexive and transitive, and that every evaluation of a symbol
  -- keeps if its arguments do, and every access to a member, is kept by the evaluation of any expression.
  -- If no symbol and no member runs on without end (`H` is empty), then no expression does.
  pub reduce_comma-Keeps : (e : CommaExpression) → Keeps R H (reduce_comma scope e)
  reduce_comma-Keeps e = Keeps-comma e
