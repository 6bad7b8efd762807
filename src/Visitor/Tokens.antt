-- ===== src/Visitor/Tokens.antt =====
-- The tokens of a query, which do not depend on where its lines are broken: an independent description of
-- what a `Visitor` (visitor.go) prints.
use vfilter.Base.{
  Bool, true, false, not, ◌&&◌, ◌||◌, ◌==◌, Option, none, some, List, [], ◌∷◌, ◌++◌, Bytes, codes,
  equal, if◌then◌else◌,
}
use vfilter.Base.Int.{ℤ}
use vfilter.Visitor.{space}
use vfilter.Visitor.Parts.{Numbers, number_text, comments_of, has_columns, is_nil}
use vfilter.Visitor.Syntax.{
  Comment, CommaExpression, comma_expression, ArrayTerms, array_end, array_hole, array_term,
  AndExpression, and_expression, AndTerms, and_end, and_term, OrExpression, or_expression, OrTerms,
  or_end, or_term, ConditionOperand, negated, operand, compared, AdditionExpression, addition,
  AddTerms, add_end, add_term, MultiplicationExpression, multiplication, Factors, factor_end,
  factor, MemberExpression, member, Accesses, access_end, access_range, access_index, access_term,
  access_empty, Bound, absent, bound, Value, value, Operand, symbol_operand, sub_expression,
  string_literal, number_literal, bool_literal, null_literal, SymbolRef, symbol_ref, Args, args_end,
  args_next, Arg, arg_right, arg_select, arg_array, arg_empty, Select, select, Clause, no_clause,
  clause, SelectExpression, select_expression, Columns, columns_end, columns_next,
  AliasedExpression, star_column, select_column, expression_column, Plugin, plugin,
}

-- A text, comments, or the comments of an argument, which are dropped where lines are not broken.
pub data Token : Type 0 where
  text : Bytes → Token
  comments : List Comment → Token
  arg_comments : List Comment → Token

abbrev pub optional_text : Option Bytes → List Bytes
optional_text none = []
optional_text (some t) = t ∷ []

abbrev pub comment_texts : Comment → List Bytes
comment_texts c =
    (optional_text c.comment ++ optional_text c.vql_comment) ++ optional_text c.multi_line

abbrev pub comments_texts : List Comment → List Bytes
comments_texts [] = []
comments_texts (c ∷ cs) = comment_texts c ++ comments_texts cs

abbrev pub token_texts : Bool → Token → List Bytes
token_texts breaks (text t) = t ∷ []
token_texts breaks (comments cs) = comments_texts cs
token_texts breaks (arg_comments cs) = if breaks then comments_texts cs else []

abbrev pub texts : Bool → List Token → List Bytes
texts breaks [] = []
texts breaks (t ∷ ts) = token_texts breaks t ++ texts breaks ts

abbrev pub is_comment : Token → Bool
is_comment (arg_comments (c ∷ cs)) = true
is_comment _ = false

-- Whether an argument has a comment.
abbrev pub commented : List Token → Bool
commented [] = false
commented (t ∷ ts) = is_comment t || commented ts

-- A fragment of spaces and line feeds, and the fragments that are none.
abbrev pub is_soft : Bytes → Bool
is_soft [] = true
is_soft (c ∷ cs) = (c == b' ' || c == 10) && is_soft cs

abbrev pub hard : List Bytes → List Bytes
hard [] = []
hard (t ∷ ts) = if is_soft t then hard ts else t ∷ hard ts

infixl 5 ◌⊕◌
abbrev pub ◌⊕◌ : List Token → List Token → List Token
s ⊕ t = s ++ t

abbrev pub word : Bytes → List Token
word t = text t ∷ []

abbrev pub remarks : List Comment → List Token
remarks cs = comments cs ∷ []

abbrev pub arg_remarks : List Comment → List Token
arg_remarks cs = arg_comments cs ∷ []

abbrev pub name_tokens : Bytes → List Token
name_tokens as_name = if equal as_name [] then [] else word (codes " AS ") ⊕ word as_name

abbrev pub comma_tokens : Args → List Token
comma_tokens args_end = []
comma_tokens (args_next a args) = word (codes ",")

abbrev pub order_tokens : Option (Bytes × Bool) → List Token
order_tokens none = []
order_tokens (some (name, desc)) =
    word (codes "ORDER BY ") ⊕ word name ⊕ (if desc then word (codes " DESC ") else [])

module _ (numbers : Numbers) where
  abbrev pub limit_tokens : Option ℤ → List Token
  limit_tokens none = []
  limit_tokens (some limit) = word (codes "LIMIT " ++ numbers.format_int limit ++ space)

  unfoldable mutual
    pub tokens_comma : CommaExpression → List Token
    tokens_comma (comma_expression cs left right) =
        remarks cs ⊕ tokens_and left ⊕ tokens_array right

    pub tokens_array : ArrayTerms → List Token
    tokens_array array_end = []
    tokens_array (array_hole cs cs2 ts) =
        word (codes ",") ⊕ remarks cs ⊕ remarks cs2 ⊕ tokens_array ts
    tokens_array (array_term cs cs2 t ts) =
        word (codes ",") ⊕ remarks cs ⊕ remarks cs2 ⊕ tokens_and t ⊕ tokens_array ts

    pub tokens_and : AndExpression → List Token
    tokens_and (and_expression cs left right) = tokens_or left ⊕ tokens_and_terms right

    pub tokens_and_terms : AndTerms → List Token
    tokens_and_terms and_end = []
    tokens_and_terms (and_term op t ts) = word op ⊕ (tokens_or t ⊕ tokens_and_terms ts)

    pub tokens_or : OrExpression → List Token
    tokens_or (or_expression cs left right) =
        remarks cs ⊕ tokens_condition left ⊕ tokens_or_terms right

    pub tokens_or_terms : OrTerms → List Token
    tokens_or_terms or_end = []
    tokens_or_terms (or_term op t ts) =
        word op ⊕ remarks (comments_of t) ⊕ tokens_condition t ⊕ tokens_or_terms ts

    pub tokens_condition : ConditionOperand → List Token
    tokens_condition (negated cs c) = word (codes "NOT ") ⊕ tokens_condition c
    tokens_condition (operand cs a) = tokens_addition a
    tokens_condition (compared cs a op b) = tokens_addition a ⊕ word op ⊕ tokens_addition b

    pub tokens_addition : AdditionExpression → List Token
    tokens_addition (addition cs left right) =
        remarks cs ⊕ tokens_multiplication left ⊕ tokens_add_terms right

    pub tokens_add_terms : AddTerms → List Token
    tokens_add_terms add_end = []
    tokens_add_terms (add_term op t ts) = word op ⊕ tokens_multiplication t ⊕ tokens_add_terms ts

    pub tokens_multiplication : MultiplicationExpression → List Token
    tokens_multiplication (multiplication cs left right) =
        remarks cs ⊕ tokens_member left ⊕ tokens_factors right

    pub tokens_factors : Factors → List Token
    tokens_factors factor_end = []
    tokens_factors (factor op t ts) = word op ⊕ tokens_value t ⊕ tokens_factors ts

    pub tokens_member : MemberExpression → List Token
    tokens_member (member cs left right) = remarks cs ⊕ tokens_value left ⊕ tokens_accesses right

    pub tokens_accesses : Accesses → List Token
    tokens_accesses access_end = []
    tokens_accesses (access_range i j ts) =
        word (codes "[")
        ⊕ tokens_bound i
        ⊕ word (codes ":")
        ⊕ tokens_bound j
        ⊕ word (codes "]")
        ⊕ tokens_accesses ts
    tokens_accesses (access_index i ts) =
        word (codes "[") ⊕ tokens_value i ⊕ word (codes "]") ⊕ tokens_accesses ts
    tokens_accesses (access_term name ts) = word (codes ".") ⊕ word name ⊕ tokens_accesses ts
    tokens_accesses (access_empty ts) = word (codes ".") ⊕ tokens_accesses ts

    pub tokens_bound : Bound → List Token
    tokens_bound absent = []
    tokens_bound (bound i) = tokens_value i

    pub tokens_value : Value → List Token
    tokens_value (value cs minus x) = remarks cs ⊕ tokens_operand minus x

    pub tokens_operand : Bool → Operand → List Token
    tokens_operand minus (symbol_operand r) = tokens_symbol r
    tokens_operand minus (sub_expression e) = word (codes "(") ⊕ (tokens_comma e ⊕ word (codes ")"))
    tokens_operand minus (string_literal s) = word s
    tokens_operand minus (number_literal s) = word (number_text numbers minus s)
    tokens_operand minus (bool_literal s) = word s
    tokens_operand minus null_literal = word (codes "NULL")

    pub tokens_symbol : SymbolRef → List Token
    tokens_symbol (symbol_ref cs symbol called args) =
        let inner = word (codes "(") ⊕ (tokens_args args ⊕ word (codes ")")) in
        remarks cs
        ⊕ word symbol
        ⊕ (if is_nil args then (if called then word (codes "()") else []) else inner)

    pub tokens_args : Args → List Token
    tokens_args args_end = []
    tokens_args (args_next a args) = tokens_arg a ⊕ comma_tokens args ⊕ tokens_args args

    pub tokens_arg : Arg → List Token
    tokens_arg (arg_right cs left e) = arg_remarks cs ⊕ word left ⊕ word (codes "=") ⊕ tokens_and e
    tokens_arg (arg_select cs left q) =
        arg_remarks cs ⊕ word left ⊕ word (codes "={") ⊕ tokens_select q ⊕ word (codes "}")
    tokens_arg (arg_array cs left e) =
        arg_remarks cs ⊕ word left ⊕ word (codes "=[") ⊕ tokens_comma e ⊕ word (codes "]")
    tokens_arg (arg_empty cs left) = arg_remarks cs ⊕ word left ⊕ word (codes "=[]")

    pub tokens_plugin : Plugin → List Token
    tokens_plugin (plugin name call args) =
        let inner = word (codes "(") ⊕ (tokens_args args ⊕ word (codes ")")) in
        word name ⊕ (if not call then [] else if is_nil args then word (codes "()") else inner)

    pub tokens_select : Select → List Token
    tokens_select (select cs explain columns from where_clause group_by order_by limit) =
        remarks cs
        ⊕ (if explain then word (codes "EXPLAIN ") else [])
        ⊕ word (codes "SELECT ")
        ⊕ tokens_select_expression columns
        ⊕ word (codes "FROM ")
        ⊕ tokens_plugin from
        ⊕ tokens_where where_clause
        ⊕ tokens_group_by group_by
        ⊕ order_tokens order_by
        ⊕ limit_tokens limit

    pub tokens_where : Clause → List Token
    tokens_where no_clause = []
    tokens_where (clause e) = word (codes "WHERE ") ⊕ tokens_comma e

    pub tokens_group_by : Clause → List Token
    tokens_group_by no_clause = []
    tokens_group_by (clause e) = word (codes "GROUP BY ") ⊕ tokens_comma e

    pub tokens_select_expression : SelectExpression → List Token
    tokens_select_expression (select_expression all columns) =
        (if all then word (codes "*") else [])
        ⊕ (if all && has_columns columns then word (codes ",") else [])
        ⊕ tokens_columns columns

    pub tokens_columns : Columns → List Token
    tokens_columns columns_end = []
    tokens_columns (columns_next c cs) =
        tokens_column c ⊕ (if has_columns cs then word (codes ",") else []) ⊕ tokens_columns cs

    pub tokens_column : AliasedExpression → List Token
    tokens_column (star_column cs as_name) = remarks cs ⊕ word (codes "*")
    tokens_column (select_column cs q as_name) =
        remarks cs ⊕ word (codes "{") ⊕ tokens_select q ⊕ word (codes "}") ⊕ name_tokens as_name
    tokens_column (expression_column cs e as_name) = remarks cs ⊕ tokens_and e ⊕ name_tokens as_name
