-- ===== src/Expr/Aggregate.antt =====
-- The `IsAggregate` methods of the expressions in vfilter.go: does an expression call an aggregate
-- function? `functions` stands for `GetFunction`, with what the `Info` of a function says.
use vfilter.Base.{Bool, false, ◌||◌, Option, none, some, Bytes, if◌then◌else◌}
use vfilter.Expr.{
  SymbolRef, CommaExpression, comma, ArrayTerms, array_end, array_hole, array_term, AndExpression,
  conjunction, AndTerms, and_end, and_term, OrExpression, disjunction, OrTerms, or_end, or_term,
  ConditionOperand, negated, operand, compared, AdditionExpression, addition, AddTerms, add_end,
  add_term, MultiplicationExpression, multiplication, Factors, factor_end, factor, MemberExpression,
  member, Operand, sub_expression, symbol_ref, string_literal, number_literal, bool_literal,
  null_literal,
}

module _ (functions : Bytes → Option Bool) where
  -- `_SymbolRef.IsAggregate`.
  abbrev pub symbol_aggregate : SymbolRef → Bool
  symbol_aggregate r =
      if r.parameters
      then (elim (functions r.symbol) [ none ↦ false | some aggregate ↦ aggregate ])
      else false

  unfoldable mutual
    pub comma_aggregate : CommaExpression → Bool
    comma_aggregate (comma left right) = and_aggregate left || array_aggregate right

    pub array_aggregate : ArrayTerms → Bool
    array_aggregate array_end = false
    array_aggregate (array_hole ts) = array_aggregate ts
    array_aggregate (array_term t ts) = and_aggregate t || array_aggregate ts

    pub and_aggregate : AndExpression → Bool
    and_aggregate (conjunction left right) = or_aggregate left || and_terms_aggregate right

    pub and_terms_aggregate : AndTerms → Bool
    and_terms_aggregate and_end = false
    and_terms_aggregate (and_term t ts) = or_aggregate t || and_terms_aggregate ts

    pub or_aggregate : OrExpression → Bool
    or_aggregate (disjunction left right) = condition_aggregate left || or_terms_aggregate right

    pub or_terms_aggregate : OrTerms → Bool
    or_terms_aggregate or_end = false
    or_terms_aggregate (or_term op t ts) = condition_aggregate t || or_terms_aggregate ts

    pub condition_aggregate : ConditionOperand → Bool
    condition_aggregate (negated c) = condition_aggregate c
    condition_aggregate (operand a) = addition_aggregate a
    condition_aggregate (compared a op b) = addition_aggregate a || addition_aggregate b

    pub addition_aggregate : AdditionExpression → Bool
    addition_aggregate (addition left right) =
        multiplication_aggregate left || add_terms_aggregate right

    pub add_terms_aggregate : AddTerms → Bool
    add_terms_aggregate add_end = false
    add_terms_aggregate (add_term op t ts) = multiplication_aggregate t || add_terms_aggregate ts

    pub multiplication_aggregate : MultiplicationExpression → Bool
    multiplication_aggregate (multiplication left right) =
        member_aggregate left || factors_aggregate right

    pub factors_aggregate : Factors → Bool
    factors_aggregate factor_end = false
    factors_aggregate (factor op t ts) = value_aggregate t || factors_aggregate ts

    -- The indices and bounds of a member expression are not looked at.
    pub member_aggregate : MemberExpression → Bool
    member_aggregate (member left right) = value_aggregate left

    pub value_aggregate : Operand → Bool
    value_aggregate (sub_expression e) = comma_aggregate e
    value_aggregate (symbol_ref r args) = symbol_aggregate r
    value_aggregate (string_literal s) = false
    value_aggregate (number_literal s) = false
    value_aggregate (bool_literal s) = false
    value_aggregate null_literal = false
