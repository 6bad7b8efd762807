-- ===== src/Expr/Calls.antt =====
-- Which symbols make an expression an aggregate.
use vfilter.Base.{
  Bool, true, false, ◌||◌, Option, List, [], ◌∷◌, ◌++◌, Bytes, ◌≡◌, refl, sym, arith,
}
use vfilter.Expr.{
  SymbolRef, CommaExpression, comma, ArrayTerms, array_end, array_hole, array_term, AndExpression,
  conjunction, AndTerms, and_end, and_term, OrExpression, disjunction, OrTerms, or_end, or_term,
  ConditionOperand, negated, operand, compared, AdditionExpression, addition, AddTerms, add_end,
  add_term, MultiplicationExpression, multiplication, Factors, factor_end, factor, MemberExpression,
  member, Operand, sub_expression, symbol_ref, string_literal, number_literal, bool_literal,
  null_literal,
}
use vfilter.Expr.Aggregate.{
  symbol_aggregate, comma_aggregate, array_aggregate, and_aggregate, and_terms_aggregate,
  or_aggregate, or_terms_aggregate, condition_aggregate, addition_aggregate, add_terms_aggregate,
  multiplication_aggregate, factors_aggregate, member_aggregate, value_aggregate,
}

-- The symbols of an expression in the order of the text, but for those in the indices and bounds of its
-- member expressions and in the parameters of symbols.
unfoldable mutual
  pub comma_symbols : CommaExpression → List SymbolRef
  comma_symbols (comma left right) = and_symbols left ++ array_symbols right

  array_symbols : ArrayTerms → List SymbolRef
  array_symbols array_end = []
  array_symbols (array_hole ts) = array_symbols ts
  array_symbols (array_term t ts) = and_symbols t ++ array_symbols ts

  and_symbols : AndExpression → List SymbolRef
  and_symbols (conjunction left right) = or_symbols left ++ and_terms_symbols right

  and_terms_symbols : AndTerms → List SymbolRef
  and_terms_symbols and_end = []
  and_terms_symbols (and_term t ts) = or_symbols t ++ and_terms_symbols ts

  or_symbols : OrExpression → List SymbolRef
  or_symbols (disjunction left right) = condition_symbols left ++ or_terms_symbols right

  or_terms_symbols : OrTerms → List SymbolRef
  or_terms_symbols or_end = []
  or_terms_symbols (or_term op t ts) = condition_symbols t ++ or_terms_symbols ts

  condition_symbols : ConditionOperand → List SymbolRef
  condition_symbols (negated c) = condition_symbols c
  condition_symbols (operand a) = addition_symbols a
  condition_symbols (compared a op b) = addition_symbols a ++ addition_symbols b

  addition_symbols : AdditionExpression → List SymbolRef
  addition_symbols (addition left right) = multiplication_symbols left ++ add_terms_symbols right

  add_terms_symbols : AddTerms → List SymbolRef
  add_terms_symbols add_end = []
  add_terms_symbols (add_term op t ts) = multiplication_symbols t ++ add_terms_symbols ts

  multiplication_symbols : MultiplicationExpression → List SymbolRef
  multiplication_symbols (multiplication left right) = member_symbols left ++ factors_symbols right

  factors_symbols : Factors → List SymbolRef
  factors_symbols factor_end = []
  factors_symbols (factor op t ts) = value_symbols t ++ factors_symbols ts

  member_symbols : MemberExpression → List SymbolRef
  member_symbols (member left right) = value_symbols left

  value_symbols : Operand → List SymbolRef
  value_symbols (sub_expression e) = comma_symbols e
  value_symbols (symbol_ref r args) = r ∷ []
  value_symbols (string_literal s) = []
  value_symbols (number_literal s) = []
  value_symbols (bool_literal s) = []
  value_symbols null_literal = []

or_false : (b : Bool) → (b || false) ≡ b
or_false true = refl
or_false false = refl

module _ (functions : Bytes → Option Bool) where
  -- One of the symbols calls an aggregate function.
  abbrev pub any_aggregate : List SymbolRef → Bool
  any_aggregate [] = false
  any_aggregate (r ∷ rs) = symbol_aggregate functions r || any_aggregate rs

  any-append :
      (rs ss : List SymbolRef) → any_aggregate (rs ++ ss) ≡ (any_aggregate rs || any_aggregate ss)
  any-append [] ss = refl
  any-append (r ∷ rs) ss = ground (arith, any-append rs ss)

  any_both :
      {a b : Bool} (rs ss : List SymbolRef)
      → a ≡ any_aggregate rs
      → b ≡ any_aggregate ss
      → (a || b) ≡ any_aggregate (rs ++ ss)
  any_both rs ss h k = rw (h, k) (sym (any-append rs ss))

  mutual
    unfolding comma_aggregate comma_symbols

    comma_any :
        (e : CommaExpression) → comma_aggregate functions e ≡ any_aggregate (comma_symbols e)
    comma_any (comma left right) =
        any_both (and_symbols left) (array_symbols right) (and_any left) (array_any right)

    array_any : (e : ArrayTerms) → array_aggregate functions e ≡ any_aggregate (array_symbols e)
    array_any array_end = refl
    array_any (array_hole ts) = array_any ts
    array_any (array_term t ts) =
        any_both (and_symbols t) (array_symbols ts) (and_any t) (array_any ts)

    and_any : (e : AndExpression) → and_aggregate functions e ≡ any_aggregate (and_symbols e)
    and_any (conjunction left right) =
        any_both (or_symbols left) (and_terms_symbols right) (or_any left) (and_terms_any right)

    and_terms_any :
        (e : AndTerms) → and_terms_aggregate functions e ≡ any_aggregate (and_terms_symbols e)
    and_terms_any and_end = refl
    and_terms_any (and_term t ts) =
        any_both (or_symbols t) (and_terms_symbols ts) (or_any t) (and_terms_any ts)

    or_any : (e : OrExpression) → or_aggregate functions e ≡ any_aggregate (or_symbols e)
    or_any (disjunction left right) =
        any_both (condition_symbols left) (or_terms_symbols right) (condition_any left)
          (or_terms_any right)

    or_terms_any :
        (e : OrTerms) → or_terms_aggregate functions e ≡ any_aggregate (or_terms_symbols e)
    or_terms_any or_end = refl
    or_terms_any (or_term op t ts) =
        any_both (condition_symbols t) (or_terms_symbols ts) (condition_any t) (or_terms_any ts)

    condition_any :
        (e : ConditionOperand)
        → condition_aggregate functions e ≡ any_aggregate (condition_symbols e)
    condition_any (negated c) = condition_any c
    condition_any (operand a) = addition_any a
    condition_any (compared a op b) =
        any_both (addition_symbols a) (addition_symbols b) (addition_any a) (addition_any b)

    addition_any :
        (e : AdditionExpression)
        → addition_aggregate functions e ≡ any_aggregate (addition_symbols e)
    addition_any (addition left right) =
        any_both (multiplication_symbols left) (add_terms_symbols right) (multiplication_any left)
          (add_terms_any right)

    add_terms_any :
        (e : AddTerms) → add_terms_aggregate functions e ≡ any_aggregate (add_terms_symbols e)
    add_terms_any add_end = refl
    add_terms_any (add_term op t ts) =
        any_both (multiplication_symbols t) (add_terms_symbols ts) (multiplication_any t)
          (add_terms_any ts)

    multiplication_any :
        (e : MultiplicationExpression)
        → multiplication_aggregate functions e ≡ any_aggregate (multiplication_symbols e)
    multiplication_any (multiplication left right) =
        any_both (member_symbols left) (factors_symbols right) (member_any left) (factors_any right)

    factors_any : (e : Factors) → factors_aggregate functions e ≡ any_aggregate (factors_symbols e)
    factors_any factor_end = refl
    factors_any (factor op t ts) =
        any_both (value_symbols t) (factors_symbols ts) (value_any t) (factors_any ts)

    member_any :
        (e : MemberExpression) → member_aggregate functions e ≡ any_aggregate (member_symbols e)
    member_any (member left right) = value_any left

    value_any : (e : Operand) → value_aggregate functions e ≡ any_aggregate (value_symbols e)
    value_any (sub_expression e) = comma_any e
    value_any (symbol_ref r args) = sym (or_false (symbol_aggregate functions r))
    value_any (string_literal s) = refl
    value_any (number_literal s) = refl
    value_any (bool_literal s) = refl
    value_any null_literal = refl

  -- An expression is an aggregate exactly if one of its symbols, outside the indices and bounds of its
  -- member expressions, calls an aggregate function.
  comma_aggregate-symbols :
      (e : CommaExpression) → comma_aggregate functions e ≡ any_aggregate (comma_symbols e)
  comma_aggregate-symbols e = comma_any e
