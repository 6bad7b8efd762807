-- ===== src/Expr.antt =====
-- The expressions of a query (vfilter.go): the syntax tree that the parser builds, and what the
-- evaluation of an expression takes from the scope. `Reduce` evaluates, `Aggregate` looks for
-- aggregate functions.
pub mod Monad
pub mod Reduce
pub mod Connectives
pub mod Comparisons
pub mod Keeps
pub mod Frame
pub mod Aggregate
pub mod Calls
pub mod Symbols
use vfilter.Base.{ℕ, Bool, Option, List, Bytes}
use vfilter.Base.Int.{ℤ}
use vfilter.Value.{Runtime, Any}
use vfilter.Protocols.Dispatch.{Impl}
use vfilter.Protocols.Truth.{BoolImpl}
use Monad.{Eval}

-- The operators of `_OpComparison`. The parser takes `<>`, and no other part of the code names it.
pub data CompareOp : Type 0 where
  op_in op_lt op_eq op_ne op_le op_gt op_ge op_match op_diamond : CompareOp

-- The word OR, the operator `||`, and one bar or more than two.
pub data OrOp : Type 0 where
  word double_bar other_bars : OrOp

pub data AddOp : Type 0 where
  plus minus : AddOp

pub data MulOp : Type 0 where
  times divide : MulOp

-- A reference to a symbol, without its parameters: `parameters` says whether the node has a parameter list, and `node` which
-- node of the tree it is.
pub record SymbolRef : Type 0 where
  pub symbol : Bytes
  pub called : Bool
  pub parameters : Bool
  pub node : ℕ

-- The nodes of the tree; each list of terms is a type of the block. Comments are left out.
mutual
  pub data CommaExpression : Type 0 where
    comma : AndExpression → ArrayTerms → CommaExpression

  -- A comma may stand at the end, with no term behind it.
  pub data ArrayTerms : Type 0 where
    array_end : ArrayTerms
    array_hole : ArrayTerms → ArrayTerms
    array_term : AndExpression → ArrayTerms → ArrayTerms

  pub data AndExpression : Type 0 where
    conjunction : OrExpression → AndTerms → AndExpression

  pub data AndTerms : Type 0 where
    and_end : AndTerms
    and_term : OrExpression → AndTerms → AndTerms

  pub data OrExpression : Type 0 where
    disjunction : ConditionOperand → OrTerms → OrExpression

  pub data OrTerms : Type 0 where
    or_end : OrTerms
    or_term : OrOp → ConditionOperand → OrTerms → OrTerms

  pub data ConditionOperand : Type 0 where
    negated : ConditionOperand → ConditionOperand
    operand : AdditionExpression → ConditionOperand
    compared : AdditionExpression → CompareOp → AdditionExpression → ConditionOperand

  pub data AdditionExpression : Type 0 where
    addition : MultiplicationExpression → AddTerms → AdditionExpression

  pub data AddTerms : Type 0 where
    add_end : AddTerms
    add_term : AddOp → MultiplicationExpression → AddTerms → AddTerms

  pub data MultiplicationExpression : Type 0 where
    multiplication : MemberExpression → Factors → MultiplicationExpression

  pub data Factors : Type 0 where
    factor_end : Factors
    factor : MulOp → Operand → Factors → Factors

  pub data MemberExpression : Type 0 where
    member : Operand → Accesses → MemberExpression

  -- `a[i]`, `a[i:j]`, `a.b` and `a[]`.
  pub data Accesses : Type 0 where
    access_end : Accesses
    access_range : Bound → Bound → Accesses → Accesses
    access_index : Operand → Accesses → Accesses
    access_term : Bytes → Accesses → Accesses
    access_empty : Accesses → Accesses

  pub data Bound : Type 0 where
    absent : Bound
    bound : Operand → Bound

  -- `_Value`: the literals hold the text of their token.
  pub data Operand : Type 0 where
    sub_expression : CommaExpression → Operand
    symbol_ref : SymbolRef → Arguments → Operand
    string_literal : Bytes → Operand
    number_literal : Bytes → Operand
    bool_literal : Bytes → Operand
    null_literal : Operand

  -- `_Args`: `a=expression`, `a={SELECT ...}` with a number for the query, `a=[...]` and `a=[]`.
  pub data Arguments : Type 0 where
    args_end : Arguments
    arg_right : Bytes → AndExpression → Arguments → Arguments
    arg_select : Bytes → ℕ → Arguments → Arguments
    arg_array : Bytes → CommaExpression → Arguments → Arguments
    arg_empty : Bytes → Arguments → Arguments

-- What `Associative` is asked for.
pub data Key (rt : Runtime) : Type 0 where
  field : Any rt → Key rt
  range : Option ℤ → Option ℤ → Key rt

-- An argument of a function: a LazyExpr, by what its Reduce does, or a value.
pub data Argument (rt : Runtime) (S : Type 0) : Type 0 where
  lazily : Eval S (Any rt) → Argument rt S
  ready : Any rt → Argument rt S

-- The scope as an expression sees it, with a state of type `S`: the registered implementations of
-- each protocol, and what this module takes as given: the protocols of regular expressions and of
-- members, the evaluation of symbols (which may call functions and so change the state), and
-- `strconv.ParseInt`, `strconv.ParseFloat` and `Unquote_ident`.
pub record Scope (rt : Runtime) (S : Type 0) : Type 0 where
  pub eq_impl : List (Impl rt Bool)
  pub lt_impl : List (Impl rt Bool)
  pub gt_impl : List (Impl rt Bool)
  pub add_impl : List (Impl rt (Any rt))
  pub sub_impl : List (Impl rt (Any rt))
  pub mul_impl : List (Impl rt (Any rt))
  pub div_impl : List (Impl rt (Any rt))
  pub bool_impl : List (BoolImpl rt)
  pub membership_impl : List (Impl rt Bool)
  pub match_regex : Any rt → Any rt → Bool
  pub associative : Any rt → Key rt → Eval S (Any rt × Bool)
  -- With the arguments as a stored expression and as a function is given them.
  pub reduce_symbol :
      SymbolRef
      → Eval S (List (Bytes × Any rt))
      → Eval S (List (Bytes × Argument rt S))
      → Eval S (Any rt)
  pub parse_int : Bytes → Option ℤ
  pub parse_float : Bytes → Option rt.Float
  pub unquote_ident : Bytes → Bytes
