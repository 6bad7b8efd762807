-- ===== src/Expr/Reduce.antt =====
-- The `Reduce` methods of the expressions in vfilter.go. The cache of a literal's value and the trace
-- of a comparison are left out.
use vfilter.Base.{
  ℕ, ◌+◌, ◌&&◌, Bool, true, false, not, ◌||◌, Option, none, some, List, [], ◌∷◌, codes, equal,
  Bytes, map, leb, if◌then◌else◌,
}
use vfilter.Base.Int.{ℤ}
use vfilter.Value.{
  Runtime, Any, nil, null, bool, integer, float, string, array, other, of_list, int64,
}
use vfilter.Value.Convert.{to_int64}
use vfilter.Protocols.Compare.{eq, lt, gt}
use vfilter.Protocols.Truth.{truth_of, membership}
use vfilter.Protocols.Arith.{add, sub, mul, div}
use vfilter.Utils.Unquote.{unquote}
use vfilter.Expr.Monad.{Eval, pure, lift, ◌>>=◌}
use vfilter.Expr.{
  CompareOp, op_in, op_lt, op_eq, op_ne, op_le, op_gt, op_ge, op_match, op_diamond, OrOp,
  double_bar, AddOp, plus, minus, MulOp, times, divide, CommaExpression, comma, ArrayTerms,
  array_end, array_hole, array_term, AndExpression, conjunction, AndTerms, and_end, and_term,
  OrExpression, disjunction, OrTerms, or_end, or_term, ConditionOperand, negated, operand, compared,
  AdditionExpression, addition, AddTerms, add_end, add_term, MultiplicationExpression,
  multiplication, Factors, factor_end, factor, MemberExpression, member, Accesses, access_end,
  access_range, access_index, access_term, access_empty, Bound, absent, bound, Operand,
  sub_expression, symbol_ref, string_literal, number_literal, bool_literal, null_literal, Arguments,
  args_end, arg_right, arg_select, arg_array, arg_empty, Argument, lazily, ready, field, range,
  Scope,
}

-- `strings.ToLower` on ASCII.
abbrev pub to_lower : ℕ → ℕ
to_lower c = if leb b'A' c && leb c b'Z' then c + 32 else c

module _ {rt : Runtime} {S : Type 0} (scope : Scope rt S) where
  abbrev pub is_true : Any rt → Bool
  is_true v = truth_of scope.bool_impl v

  -- The switch on the operator in `_ConditionOperand.Reduce`.
  unfoldable pub compare_values : CompareOp → Any rt → Any rt → Bool
  compare_values op_in lhs rhs = membership scope.eq_impl scope.membership_impl lhs rhs
  compare_values op_lt lhs rhs = lt scope.lt_impl lhs rhs
  compare_values op_eq lhs rhs = eq scope.eq_impl lhs rhs
  compare_values op_ne lhs rhs = not (eq scope.eq_impl lhs rhs)
  compare_values op_le lhs rhs = lt scope.lt_impl lhs rhs || eq scope.eq_impl lhs rhs
  compare_values op_gt lhs rhs = gt scope.gt_impl lhs rhs
  compare_values op_ge lhs rhs = gt scope.gt_impl lhs rhs || eq scope.eq_impl lhs rhs
  compare_values op_match lhs rhs = scope.match_regex rhs lhs
  compare_values op_diamond lhs rhs = false

  abbrev pub add_values : AddOp → Any rt → Any rt → Any rt
  add_values plus a b = add scope.add_impl a b
  add_values minus a b = sub scope.sub_impl a b

  abbrev pub mul_values : MulOp → Any rt → Any rt → Eval S (Any rt)
  mul_values times a b = lift (mul scope.mul_impl a b)
  mul_values divide a b = pure (div scope.div_impl a b)

  -- `maybeParseStrNumber`, and the null of a text that is no number.
  abbrev pub number_value : Bytes → Any rt
  number_value s = elim (scope.parse_int s) [
    | some z ↦ integer int64 z
    | none ↦ elim (scope.parse_float s) [ some f ↦ float f | none ↦ null ]
  ]

  abbrev pub string_value : Bytes → Eval S (Any rt)
  string_value s = do decoded ← lift (unquote s); pure (string decoded)

  abbrev pub is_nil : Any rt → Bool
  is_nil nil = true
  is_nil v = false

  -- The rest of a conjunction is evaluated only behind a true value.
  abbrev pub and_then : Any rt → Eval S (Any rt) → Eval S (Any rt)
  and_then v rest = if is_true v then rest else pure (bool false)

  -- A true operand of `||` is the result itself, one of OR the value true.
  abbrev pub or_value : OrOp → Any rt → Any rt
  or_value double_bar v = v
  or_value op v = bool true

  abbrev pub or_then : OrOp → Any rt → Eval S (Any rt) → Eval S (Any rt)
  or_then op v rest = if is_true v then pure (or_value op v) else rest

  -- A member that is not present makes the whole expression null.
  abbrev pub if_present : Any rt × Bool → (Any rt → Eval S (Any rt)) → Eval S (Any rt)
  if_present found rest = if found.1 then rest found.0 else pure null

  -- A bound of a range that is no number makes the whole expression null.
  abbrev pub if_bound : Option (Option ℤ) → (Option ℤ → Eval S (Any rt)) → Eval S (Any rt)
  if_bound none rest = pure null
  if_bound (some i) rest = rest i

  abbrev pub bound_of : Any rt → Option (Option ℤ)
  bound_of v = elim (to_int64 v) [ none ↦ none | some z ↦ some (some z) ]

  unfoldable mutual
    pub reduce_comma : CommaExpression → Eval S (Any rt)
    reduce_comma (comma left right) = do
      lhs ← reduce_and left
      if is_nil lhs then pure null else comma_result right lhs

    pub comma_result : ArrayTerms → Any rt → Eval S (Any rt)
    comma_result array_end lhs = pure lhs
    comma_result (array_hole ts) lhs = pure (array (of_list (lhs ∷ [])))
    comma_result (array_term t ts) lhs = do
      v ← reduce_and t
      rest ← array_terms ts
      pure (array (of_list (lhs ∷ v ∷ rest)))

    pub array_terms : ArrayTerms → Eval S (List (Any rt))
    array_terms array_end = pure []
    array_terms (array_hole ts) = pure []
    array_terms (array_term t ts) = do v ← reduce_and t; rest ← array_terms ts; pure (v ∷ rest)

    pub reduce_and : AndExpression → Eval S (Any rt)
    reduce_and (conjunction left right) = do result ← reduce_or left; and_result right result

    pub and_result : AndTerms → Any rt → Eval S (Any rt)
    and_result and_end result = pure result
    and_result (and_term t ts) result =
        and_then result (do v ← reduce_or t; and_then v (and_loop ts))

    pub and_loop : AndTerms → Eval S (Any rt)
    and_loop and_end = pure (bool true)
    and_loop (and_term t ts) = do v ← reduce_or t; and_then v (and_loop ts)

    pub reduce_or : OrExpression → Eval S (Any rt)
    reduce_or (disjunction left right) = do l ← reduce_condition left; or_result right l

    pub or_result : OrTerms → Any rt → Eval S (Any rt)
    or_result or_end left = pure left
    or_result (or_term op t ts) left =
        if is_true left then pure left else do v ← reduce_condition t; or_then op v (or_loop ts v)

    pub or_loop : OrTerms → Any rt → Eval S (Any rt)
    or_loop or_end last = pure last
    or_loop (or_term op t ts) last = do v ← reduce_condition t; or_then op v (or_loop ts v)

    pub reduce_condition : ConditionOperand → Eval S (Any rt)
    reduce_condition (negated c) = do v ← reduce_condition c; pure (bool (not (is_true v)))
    reduce_condition (operand a) = reduce_addition a
    reduce_condition (compared a op b) = do
      lhs ← reduce_addition a
      rhs ← reduce_addition b
      pure (bool (compare_values op lhs rhs))

    pub reduce_addition : AdditionExpression → Eval S (Any rt)
    reduce_addition (addition left right) = do
      result ← reduce_multiplication left
      add_loop right result

    pub add_loop : AddTerms → Any rt → Eval S (Any rt)
    add_loop add_end result = pure result
    add_loop (add_term op t ts) result = do
      v ← reduce_multiplication t
      add_loop ts (add_values op result v)

    pub reduce_multiplication : MultiplicationExpression → Eval S (Any rt)
    reduce_multiplication (multiplication left right) = do
      result ← reduce_member left
      mul_loop right result

    pub mul_loop : Factors → Any rt → Eval S (Any rt)
    mul_loop factor_end result = pure result
    mul_loop (factor op t ts) result = do
      v ← reduce_value t
      product ← mul_values op result v
      mul_loop ts product

    pub reduce_member : MemberExpression → Eval S (Any rt)
    reduce_member (member left right) = do lhs ← reduce_value left; access_loop right lhs

    pub access_loop : Accesses → Any rt → Eval S (Any rt)
    access_loop access_end lhs = pure lhs
    access_loop (access_range i j ts) lhs = do
      start ← reduce_bound i
      if_bound start (λ lo. do
        stop ← reduce_bound j
        if_bound stop (λ hi. do
          found ← scope.associative lhs (range lo hi)
          if_present found (access_loop ts)))
    access_loop (access_index i ts) lhs = do
      index ← reduce_value i
      found ← scope.associative lhs (field index)
      if_present found (access_loop ts)
    access_loop (access_term name ts) lhs = do
      found ← scope.associative lhs (field (string (scope.unquote_ident name)))
      if_present found (access_loop ts)
    access_loop (access_empty ts) lhs = pure null

    pub reduce_bound : Bound → Eval S (Option (Option ℤ))
    reduce_bound absent = pure (some none)
    reduce_bound (bound v) = do i ← reduce_value v; pure (bound_of i)

    pub reduce_value : Operand → Eval S (Any rt)
    reduce_value (sub_expression e) = reduce_comma e
    reduce_value (symbol_ref r args) = scope.reduce_symbol r (build_args args) (function_args args)
    reduce_value (string_literal s) = string_value s
    reduce_value (number_literal s) = pure (number_value s)
    reduce_value (bool_literal s) = pure (bool (equal (map to_lower s) (codes "true")))
    reduce_value null_literal = pure null

    -- `buildArgsFromParameters`: the writes to the dictionary, in order.
    pub build_args : Arguments → Eval S (List (Bytes × Any rt))
    build_args args_end = pure []
    build_args (arg_right name e args) = do
      v ← reduce_and e
      rest ← build_args args
      pure ((scope.unquote_ident name, v) ∷ rest)
    build_args (arg_select name query args) = do
      rest ← build_args args
      pure ((name, other query) ∷ rest)
    build_args (arg_array name e args) = do
      v ← reduce_comma e
      rest ← build_args args
      pure ((name, v) ∷ rest)
    build_args (arg_empty name args) = do
      rest ← build_args args
      pure ((name, array (of_list [])) ∷ rest)

    -- The arguments in `callFunction`.
    pub function_args : Arguments → Eval S (List (Bytes × Argument rt S))
    function_args args_end = pure []
    function_args (arg_right name e args) = do
      rest ← function_args args
      pure ((scope.unquote_ident name, lazily (reduce_and e)) ∷ rest)
    function_args (arg_select name query args) = do
      rest ← function_args args
      pure ((scope.unquote_ident name, ready (other query)) ∷ rest)
    function_args (arg_array name e args) = do
      v ← reduce_comma e
      rest ← function_args args
      pure ((scope.unquote_ident name, ready v) ∷ rest)
    function_args (arg_empty name args) = do
      rest ← function_args args
      pure ((scope.unquote_ident name, ready (array (of_list []))) ∷ rest)
