-- ===== src/Visitor/Document/Tokens.antt =====
-- The tokens of statements and of the other nodes that are printed on their own (visitor.go).
use vfilter.Base.{◌||◌, Option, none, some, List, [], ◌∷◌, Bytes, codes, if◌then◌else◌}
use vfilter.Statements.{ParameterList, last_name, next_name, LetOperator, get_parameters, is_let}
use vfilter.Visitor.Parts.{Numbers}
use vfilter.Visitor.Syntax.{AndExpression, Select}
use vfilter.Visitor.Tokens.{
  Token, ◌⊕◌, word, remarks, tokens_and, tokens_comma, tokens_select, tokens_column,
  tokens_select_expression, tokens_plugin, tokens_arg, tokens_member, tokens_multiplication,
  tokens_addition, tokens_condition, tokens_or, tokens_value, tokens_symbol,
}
use vfilter.Visitor.Document.{
  Statement, Node, statements_node, vql_node, query_node, expression_node, comma_node, lambda_node,
  column_node, select_expression_node, plugin_node, arg_node, member_node, multiplication_node,
  addition_node, condition_node, or_node, value_node, symbol_node, comment_node, comments_node,
  parameters_node, text_node, other_node, operator_text, is_some,
}

abbrev pub tokens_names : List Bytes → List Token
tokens_names [] = []
tokens_names (p ∷ []) = word p
tokens_names (p ∷ q ∷ ps) = word p ⊕ word (codes ",") ⊕ tokens_names (q ∷ ps)

abbrev pub tokens_parameters : Statement → List Token
tokens_parameters vql =
    if is_some vql.parameters
    then word (codes "(") ⊕ tokens_names (get_parameters vql) ⊕ word (codes ")")
    else []

abbrev pub tokens_let : Statement → List Token
tokens_let vql =
    if is_some vql.expression || is_some vql.stored_query
    then word (codes "LET ") ⊕ word vql.let_name ⊕ tokens_parameters vql
    else []

-- An operator that is missing is printed with spaces around it.
abbrev pub tokens_operator : LetOperator → List Token
tokens_operator op = word (operator_text op)

abbrev pub tokens_parameter_list : ParameterList → List Token
tokens_parameter_list (last_name left) = word left
tokens_parameter_list (next_name left right) =
    word left ⊕ word (codes ", ") ⊕ tokens_parameter_list right

module _ (numbers : Numbers) where
  abbrev pub tokens_query : Option Select → List Token
  tokens_query none = []
  tokens_query (some q) = tokens_select numbers q

  abbrev pub tokens_bound_to : Option AndExpression → Option Select → Option Select → List Token
  tokens_bound_to (some e) stored query = tokens_and numbers e
  tokens_bound_to none (some q) query = tokens_select numbers q
  tokens_bound_to none none query = tokens_query query

  unfoldable pub tokens_vql : Statement → List Token
  tokens_vql vql =
      remarks vql.comments
      ⊕ (if is_let vql
          then tokens_let vql
            ⊕ tokens_operator vql.let_operator
            ⊕ tokens_bound_to vql.expression vql.stored_query vql.query
          else tokens_query vql.query)

  unfoldable pub tokens_statements : List Statement → List Token
  tokens_statements [] = []
  tokens_statements (vql ∷ vqls) = tokens_vql vql ⊕ tokens_statements vqls

  unfoldable pub tokens_of : Node → List Token
  unfolding tokens_statements
  tokens_of (statements_node vqls) = tokens_statements vqls
  tokens_of (vql_node vql) = tokens_vql vql
  tokens_of (query_node q) = tokens_select numbers q
  tokens_of (expression_node e) = tokens_and numbers e
  tokens_of (comma_node e) = tokens_comma numbers e
  tokens_of (lambda_node parameters e) =
      tokens_parameter_list parameters ⊕ word (codes " => ") ⊕ tokens_and numbers e
  tokens_of (column_node n) = tokens_column numbers n
  tokens_of (select_expression_node n) = tokens_select_expression numbers n
  tokens_of (plugin_node n) = tokens_plugin numbers n
  tokens_of (arg_node n) = tokens_arg numbers n
  tokens_of (member_node n) = tokens_member numbers n
  tokens_of (multiplication_node n) = tokens_multiplication numbers n
  tokens_of (addition_node n) = tokens_addition numbers n
  tokens_of (condition_node n) = tokens_condition numbers n
  tokens_of (or_node n) = tokens_or numbers n
  tokens_of (value_node n) = tokens_value numbers n
  tokens_of (symbol_node n) = tokens_symbol numbers n
  tokens_of (comment_node c) = remarks (c ∷ [])
  tokens_of (comments_node cs) = remarks cs
  tokens_of (parameters_node ps) = tokens_parameter_list ps
  tokens_of (text_node t) = word t
  tokens_of other_node = []
