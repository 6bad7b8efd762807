-- ===== src/Visitor/Syntax.antt =====
-- The syntax tree that is printed (vfilter.go), with the comments at the places where the parser puts
-- them. Each list of terms is a type of the block. A string that the parser leaves empty is empty here.
use vfilter.Base.{Bool, Option, List, Bytes}
use vfilter.Base.Int.{ℤ}

-- `_Comment`, of three kinds.
pub record Comment : Type 0 where
  pub vql_comment : Option Bytes
  pub comment : Option Bytes
  pub multi_line : Option Bytes

mutual
  pub data CommaExpression : Type 0 where
    comma_expression : List Comment → AndExpression → ArrayTerms → CommaExpression

  -- The comments before the comma and behind it; a term may be missing.
  pub data ArrayTerms : Type 0 where
    array_end : ArrayTerms
    array_hole : List Comment → List Comment → ArrayTerms → ArrayTerms
    array_term : List Comment → List Comment → AndExpression → ArrayTerms → ArrayTerms

  pub data AndExpression : Type 0 where
    and_expression : List Comment → OrExpression → AndTerms → AndExpression

  pub data AndTerms : Type 0 where
    and_end : AndTerms
    and_term : Bytes → OrExpression → AndTerms → AndTerms

  pub data OrExpression : Type 0 where
    or_expression : List Comment → ConditionOperand → OrTerms → OrExpression

  pub data OrTerms : Type 0 where
    or_end : OrTerms
    or_term : Bytes → ConditionOperand → OrTerms → OrTerms

  pub data ConditionOperand : Type 0 where
    negated : List Comment → ConditionOperand → ConditionOperand
    operand : List Comment → AdditionExpression → ConditionOperand
    compared : List Comment → AdditionExpression → Bytes → AdditionExpression → ConditionOperand

  pub data AdditionExpression : Type 0 where
    addition : List Comment → MultiplicationExpression → AddTerms → AdditionExpression

  pub data AddTerms : Type 0 where
    add_end : AddTerms
    add_term : Bytes → MultiplicationExpression → AddTerms → AddTerms

  pub data MultiplicationExpression : Type 0 where
    multiplication : List Comment → MemberExpression → Factors → MultiplicationExpression

  pub data Factors : Type 0 where
    factor_end : Factors
    factor : Bytes → Value → Factors → Factors

  pub data MemberExpression : Type 0 where
    member : List Comment → Value → Accesses → MemberExpression

  pub data Accesses : Type 0 where
    access_end : Accesses
    access_range : Bound → Bound → Accesses → Accesses
    access_index : Value → Accesses → Accesses
    access_term : Bytes → Accesses → Accesses
    access_empty : Accesses → Accesses

  pub data Bound : Type 0 where
    absent : Bound
    bound : Value → Bound

  -- The comments, `Negated`, and what stands there.
  pub data Value : Type 0 where
    value : List Comment → Bool → Operand → Value

  pub data Operand : Type 0 where
    symbol_operand : SymbolRef → Operand
    sub_expression : CommaExpression → Operand
    string_literal number_literal bool_literal : Bytes → Operand
    null_literal : Operand

  pub data SymbolRef : Type 0 where
    symbol_ref : List Comment → Bytes → Bool → Args → SymbolRef

  pub data Args : Type 0 where
    args_end : Args
    args_next : Arg → Args → Args

  -- `a=expression`, `a={SELECT ...}`, `a=[...]` and `a=[]`.
  pub data Arg : Type 0 where
    arg_right : List Comment → Bytes → AndExpression → Arg
    arg_select : List Comment → Bytes → Select → Arg
    arg_array : List Comment → Bytes → CommaExpression → Arg
    arg_empty : List Comment → Bytes → Arg

  -- EXPLAIN, the columns, FROM, WHERE, GROUP BY, ORDER BY with DESC, and LIMIT.
  pub data Select : Type 0 where
    select :
        List Comment
        → Bool
        → SelectExpression
        → Plugin
        → Clause
        → Clause
        → Option (Bytes × Bool)
        → Option ℤ
        → Select

  pub data Clause : Type 0 where
    no_clause : Clause
    clause : CommaExpression → Clause

  pub data SelectExpression : Type 0 where
    select_expression : Bool → Columns → SelectExpression

  pub data Columns : Type 0 where
    columns_end : Columns
    columns_next : AliasedExpression → Columns → Columns

  -- The last string is the name behind AS.
  pub data AliasedExpression : Type 0 where
    star_column : List Comment → Bytes → AliasedExpression
    select_column : List Comment → Select → Bytes → AliasedExpression
    expression_column : List Comment → AndExpression → Bytes → AliasedExpression

  pub data Plugin : Type 0 where
    plugin : Bytes → Bool → Args → Plugin
