-- ===== src/Visitor/Document.antt =====
-- Whole texts (visitor.go, reformat/visitor.go): statements, lambdas, `FormatToString` and `ReFormatVQL`. The
-- parser of a text is participle's and a parameter.
pub mod Tokens
pub mod Layouts
pub mod Widths
use vfilter.Base.{
  Bool, true, false, not, ◌&&◌, ◌||◌, Option, none, some, List, [], ◌∷◌, ◌++◌, Bytes, codes, equal,
  if◌then◌else◌, ◌⊎◌, inl, inr,
}
use vfilter.Statements.{
  LetOperator, lazy, materialized, no_operator, Vql, MultiVql, ParameterList, last_name, next_name,
  get_parameters, get_statements, is_let, visitor, statements_from,
}
use vfilter.Visitor.{
  FormatOptions, Visitor, ◌▹◌, push, indent_in, pop_indent, line_break, space, new_visitor,
  to_string_options,
}
use vfilter.Visitor.Parts.{Numbers, visit_comments, push_comma, before_arg, visit_comment}
use vfilter.Visitor.Print.{
  visit_and, visit_select, visit_comma, visit_column, visit_select_expression, visit_plugin,
  visit_arg, visit_member, visit_multiplication, visit_addition, visit_condition, visit_or,
  visit_value, visit_symbol,
}
use vfilter.Visitor.Syntax.{
  CommaExpression, AndExpression, Select, Comment, AliasedExpression, SelectExpression, Plugin, Arg,
  MemberExpression, MultiplicationExpression, AdditionExpression, ConditionOperand, OrExpression,
  Value, SymbolRef,
}

abbrev pub Statement : Type 0
Statement = Vql AndExpression Select Comment

abbrev pub operator_text : LetOperator → Bytes
operator_text lazy = codes "="
operator_text materialized = codes "<="
operator_text no_operator = codes " = "

-- `strings.Join` with no separator.
abbrev pub join : List Bytes → Bytes
join [] = []
join (t ∷ ts) = t ++ join ts

abbrev pub to_string : Visitor → Bytes
to_string v = join v.fragments

abbrev pub is_some : {A : Type 0} → Option A → Bool
is_some none = false
is_some (some x) = true

-- No comma behind the last name.
unfoldable pub push_names : List Bytes → Visitor → Visitor
push_names [] v = v
push_names (p ∷ []) v = push p v
push_names (p ∷ q ∷ ps) v = push_names (q ∷ ps) (v ▹ push p ▹ push_comma)

unfoldable pub push_parameters : Statement → Visitor → Visitor
unfolding push_names get_parameters
push_parameters vql v =
    if is_some vql.parameters
    then v ▹ push (codes "(") ▹ push_names (get_parameters vql) ▹ push (codes ")")
    else v

-- The name and the parameters, where there is something to bind.
unfoldable pub push_let : Statement → Visitor → Visitor
unfolding push_parameters
push_let vql v =
    if is_some vql.expression || is_some vql.stored_query
    then v ▹ push (codes "LET ") ▹ push vql.let_name ▹ push_parameters vql
    else v

abbrev pub push_let_operator : LetOperator → Visitor → Visitor
push_let_operator op v = v ▹ push space ▹ push (operator_text op) ▹ push space

unfoldable pub visit_parameter_list : ParameterList → Visitor → Visitor
visit_parameter_list (last_name left) v = push left v
visit_parameter_list (next_name left right) v =
    visit_parameter_list right (v ▹ push left ▹ push (codes ", "))

-- The cases of `Visit`. A `_StoredQuery` is its query, a StoredExpression and a LazyExpr are their
-- expressions; a value with the string protocol is its text, and any other value is only logged.
pub data Node : Type 0 where
  statements_node : List Statement → Node
  vql_node : Statement → Node
  query_node : Select → Node
  expression_node : AndExpression → Node
  comma_node : CommaExpression → Node
  lambda_node : ParameterList → AndExpression → Node
  column_node : AliasedExpression → Node
  select_expression_node : SelectExpression → Node
  plugin_node : Plugin → Node
  arg_node : Arg → Node
  member_node : MemberExpression → Node
  multiplication_node : MultiplicationExpression → Node
  addition_node : AdditionExpression → Node
  condition_node : ConditionOperand → Node
  or_node : OrExpression → Node
  value_node : Value → Node
  symbol_node : SymbolRef → Node
  comment_node : Comment → Node
  comments_node : List Comment → Node
  parameters_node : ParameterList → Node
  text_node : Bytes → Node
  other_node : Node

module _ (numbers : Numbers) where
  abbrev pub visit_query : FormatOptions → Option Select → Visitor → Visitor
  visit_query opts none v = v
  visit_query opts (some q) v = visit_select numbers opts q v

  -- What a LET binds: the expression, and else the stored query; a query follows only where there is neither.
  abbrev pub visit_bound_to :
      FormatOptions → Option AndExpression → Option Select → Option Select → Visitor → Visitor
  visit_bound_to opts (some e) stored query v = visit_and numbers opts e v
  visit_bound_to opts none (some q) query v = visit_select numbers opts q v
  visit_bound_to opts none none query v = visit_query opts query v

  unfoldable pub visit_vql : FormatOptions → Statement → Visitor → Visitor
  unfolding visit_comments push_let
  visit_vql opts vql v =
      let v1 = visit_comments opts vql.comments v in
      if is_let vql
      then v1
        ▹ push_let vql
        ▹ push_let_operator vql.let_operator
        ▹ indent_in
        ▹ visit_bound_to opts vql.expression vql.stored_query vql.query
        ▹ pop_indent
      else visit_query opts vql.query v1

  -- An empty line behind each statement.
  unfoldable pub visit_statements : FormatOptions → List Statement → Visitor → Visitor
  unfolding visit_vql
  visit_statements opts [] v = v
  visit_statements opts (vql ∷ vqls) v =
      visit_statements opts vqls (v ▹ visit_vql opts vql ▹ line_break opts ▹ line_break opts)

  unfoldable pub visit_lambda : FormatOptions → ParameterList → AndExpression → Visitor → Visitor
  unfolding visit_parameter_list
  visit_lambda opts parameters e v =
      v ▹ visit_parameter_list parameters ▹ push (codes " => ") ▹ visit_and numbers opts e

  unfoldable pub visit : FormatOptions → Node → Visitor → Visitor
  unfolding visit_statements visit_lambda visit_parameter_list
  visit opts (statements_node vqls) v = visit_statements opts vqls v
  visit opts (vql_node vql) v = visit_vql opts vql v
  visit opts (query_node q) v = visit_select numbers opts q v
  visit opts (expression_node e) v = visit_and numbers opts e v
  visit opts (comma_node e) v = visit_comma numbers opts e v
  visit opts (lambda_node parameters e) v = visit_lambda opts parameters e v
  visit opts (column_node n) v = visit_column numbers opts n v
  visit opts (select_expression_node n) v = visit_select_expression numbers opts n v
  visit opts (plugin_node n) v = visit_plugin numbers opts n v
  visit opts (arg_node n) v = visit_arg numbers opts n v
  visit opts (member_node n) v = visit_member numbers opts n v
  visit opts (multiplication_node n) v = visit_multiplication numbers opts n v
  visit opts (addition_node n) v = visit_addition numbers opts n v
  visit opts (condition_node n) v = visit_condition numbers opts n v
  visit opts (or_node n) v = visit_or numbers opts n v
  visit opts (value_node n) v = visit_value numbers opts n v
  visit opts (symbol_node n) v = visit_symbol numbers opts n v
  visit opts (comment_node c) v = visit_comment c v
  visit opts (comments_node cs) v = visit_comments opts cs v
  visit opts (parameters_node ps) v = visit_parameter_list ps v
  visit opts (text_node t) v = push t v
  visit opts other_node v = v

  -- `ToString`, `FormatToString`, and `ReFormatVQL` for a parser.
  unfoldable pub format_to_string : Node → Bytes
  unfolding visit
  format_to_string node = to_string (visit to_string_options node new_visitor)

  unfoldable pub re_format_vql :
      {Error : Type 0}
      → (Bytes → Error ⊎ MultiVql AndExpression Select Comment)
      → FormatOptions
      → Bytes
      → Error ⊎ Bytes
  unfolding visit get_statements
  re_format_vql parse opts query = elim (parse query) [
    | inl err ↦ inl err
    | inr multi ↦
        inr (to_string (visit opts (statements_node (get_statements multi).1) new_visitor))
  ]
