-- ===== src/Visitor/Document/Layouts.antt =====
-- The texts of statements (visitor.go) for different options.
use vfilter.Base.{
  Bool, false, ◌||◌, Option, none, some, List, [], ◌∷◌, ◌++◌, Bytes, codes, ◌⊎◌, inl, inr, ◌≡◌,
  refl, sym, ap, ◌∙◌,
}
use vfilter.Statements.{ParameterList, last_name, next_name, get_parameters, is_let}
use vfilter.Visitor.{FormatOptions, Visitor, new_visitor, space}
use vfilter.Visitor.Parts.{Numbers}
use vfilter.Visitor.Syntax.{AndExpression, Select}
use vfilter.Visitor.Tokens.{texts, commented, hard}
use vfilter.Visitor.Writes.{
  Wrote, ◌▸◌, ◌▹soft◌, inside, nothing, push-Wrote, push-Soft, line_break-Soft, indent_in-Indented,
}
use vfilter.Visitor.Steps.{
  if-Wrote, push_comma-Wrote, visit_comments-Wrote, visit_comment-Wrote, texts-plain,
}
use vfilter.Visitor.Layout.{
  visit_and-Wrote, visit_comma-Wrote, visit_select-Wrote, visit_column-Wrote,
  visit_select_expression-Wrote, visit_plugin-Wrote, visit_arg-Wrote, visit_member-Wrote,
  visit_multiplication-Wrote, visit_addition-Wrote, visit_condition-Wrote, visit_or-Wrote,
  visit_value-Wrote, visit_symbol-Wrote,
}
use vfilter.Visitor.Document.{
  Statement, Node, statements_node, vql_node, query_node, expression_node, comma_node, lambda_node,
  column_node, select_expression_node, plugin_node, arg_node, member_node, multiplication_node,
  addition_node, condition_node, or_node, value_node, symbol_node, comment_node, comments_node,
  parameters_node, text_node, other_node, operator_text, is_some, push_names, push_parameters,
  push_let, visit_query, visit_bound_to, visit_vql, visit_statements, visit_parameter_list,
  visit_lambda, visit,
}
use vfilter.Visitor.Document.Tokens.{
  tokens_names, tokens_parameters, tokens_let, tokens_parameter_list, tokens_query, tokens_bound_to,
  tokens_vql, tokens_statements, tokens_of,
}

push_names-Wrote :
    {b : Bool} (ps : List Bytes) {v : Visitor} → Wrote b v (push_names ps v) (tokens_names ps)
unfolding push_names
push_names-Wrote [] = nothing
push_names-Wrote (p ∷ []) = push-Wrote p
push_names-Wrote (p ∷ q ∷ ps) = push-Wrote p ▸ push_comma-Wrote ▸ push_names-Wrote (q ∷ ps)

push_parameters-Wrote :
    {b : Bool} (vql : Statement) {v : Visitor}
    → Wrote b v (push_parameters vql v) (tokens_parameters vql)
unfolding push_parameters
push_parameters-Wrote vql =
    if-Wrote (is_some vql.parameters)
      (push-Wrote (codes "(") ▸ push_names-Wrote (get_parameters vql) ▸ push-Wrote (codes ")"))
      nothing

push_let-Wrote :
    {b : Bool} (vql : Statement) {v : Visitor} → Wrote b v (push_let vql v) (tokens_let vql)
unfolding push_let
push_let-Wrote vql =
    if-Wrote (is_some vql.expression || is_some vql.stored_query)
      (push-Wrote (codes "LET ") ▸ push-Wrote vql.let_name ▸ push_parameters-Wrote vql) nothing

visit_parameter_list-Wrote :
    {b : Bool} (list : ParameterList) {v : Visitor}
    → Wrote b v (visit_parameter_list list v) (tokens_parameter_list list)
unfolding visit_parameter_list
visit_parameter_list-Wrote (last_name left) = push-Wrote left
visit_parameter_list-Wrote (next_name left right) =
    push-Wrote left ▸ push-Wrote (codes ", ") ▸ visit_parameter_list-Wrote right

module _ (numbers : Numbers) where
  visit_query-Wrote :
      (opts : FormatOptions) (query : Option Select) {v : Visitor}
      → Wrote opts.break_lines v (visit_query numbers opts query v) (tokens_query numbers query)
  visit_query-Wrote opts none = nothing
  visit_query-Wrote opts (some q) = visit_select-Wrote numbers opts q

  visit_bound_to-Wrote :
      (opts : FormatOptions) (e : Option AndExpression) (stored query : Option Select) {v : Visitor}
      → Wrote opts.break_lines v
          (visit_bound_to numbers opts e stored query v)
          (tokens_bound_to numbers e stored query)
  visit_bound_to-Wrote opts (some e) stored query = visit_and-Wrote numbers opts e
  visit_bound_to-Wrote opts none (some q) query = visit_select-Wrote numbers opts q
  visit_bound_to-Wrote opts none none query = visit_query-Wrote opts query

  visit_vql-Wrote :
      (opts : FormatOptions) (vql : Statement) {v : Visitor}
      → Wrote opts.break_lines v (visit_vql numbers opts vql v) (tokens_vql numbers vql)
  unfolding visit_vql tokens_vql
  visit_vql-Wrote opts vql =
      visit_comments-Wrote opts vql.comments
      ▸ if-Wrote (is_let vql)
          (push_let-Wrote vql
            ▹soft push-Soft space refl
            ▸ push-Wrote (operator_text vql.let_operator)
            ▹soft push-Soft space refl
            ▸ inside indent_in-Indented
                (visit_bound_to-Wrote opts vql.expression vql.stored_query vql.query))
          (visit_query-Wrote opts vql.query)

  visit_statements-Wrote :
      (opts : FormatOptions) (vqls : List Statement) {v : Visitor}
      → Wrote opts.break_lines v
          (visit_statements numbers opts vqls v)
          (tokens_statements numbers vqls)
  unfolding visit_statements tokens_statements
  visit_statements-Wrote opts [] = nothing
  visit_statements-Wrote opts (vql ∷ vqls) =
      visit_vql-Wrote opts vql
      ▹soft line_break-Soft opts
      ▹soft line_break-Soft opts
      ▸ visit_statements-Wrote opts vqls

  pub visit-Wrote :
      (opts : FormatOptions) (node : Node) {v : Visitor}
      → Wrote opts.break_lines v (visit numbers opts node v) (tokens_of numbers node)
  unfolding visit tokens_of visit_lambda
  visit-Wrote opts (statements_node vqls) = visit_statements-Wrote opts vqls
  visit-Wrote opts (vql_node vql) = visit_vql-Wrote opts vql
  visit-Wrote opts (query_node q) = visit_select-Wrote numbers opts q
  visit-Wrote opts (expression_node e) = visit_and-Wrote numbers opts e
  visit-Wrote opts (comma_node e) = visit_comma-Wrote numbers opts e
  visit-Wrote opts (lambda_node parameters e) =
      visit_parameter_list-Wrote parameters
      ▸ push-Wrote (codes " => ")
      ▸ visit_and-Wrote numbers opts e
  visit-Wrote opts (column_node n) = visit_column-Wrote numbers opts n
  visit-Wrote opts (select_expression_node n) = visit_select_expression-Wrote numbers opts n
  visit-Wrote opts (plugin_node n) = visit_plugin-Wrote numbers opts n
  visit-Wrote opts (arg_node n) = visit_arg-Wrote numbers opts n
  visit-Wrote opts (member_node n) = visit_member-Wrote numbers opts n
  visit-Wrote opts (multiplication_node n) = visit_multiplication-Wrote numbers opts n
  visit-Wrote opts (addition_node n) = visit_addition-Wrote numbers opts n
  visit-Wrote opts (condition_node n) = visit_condition-Wrote numbers opts n
  visit-Wrote opts (or_node n) = visit_or-Wrote numbers opts n
  visit-Wrote opts (value_node n) = visit_value-Wrote numbers opts n
  visit-Wrote opts (symbol_node n) = visit_symbol-Wrote numbers opts n
  visit-Wrote opts (comment_node c) = visit_comment-Wrote c
  visit-Wrote opts (comments_node cs) = visit_comments-Wrote opts cs
  visit-Wrote opts (parameters_node ps) = visit_parameter_list-Wrote ps
  visit-Wrote opts (text_node t) = push-Wrote t
  visit-Wrote opts other_node = nothing

-- Whatever the options are, and wherever the visitor stands, a visit of a node adds the tokens of the node, in
-- their order, and white space; the comments of arguments are among them just where lines are broken. And it
-- leaves the indents as they were.
pub visit-tokens :
    (numbers : Numbers) (opts : FormatOptions) (node : Node) (v : Visitor)
    → (hard (visit numbers opts node v).fragments
        ≡ hard v.fragments ++ hard (texts opts.break_lines (tokens_of numbers node)))
      × ((visit numbers opts node v).indents ≡ v.indents)
visit-tokens numbers opts node v =
    let x = visit-Wrote numbers opts node {v = v} in (x.printed, x.restored)

-- Two layouts of a node have the same tokens, if lines are broken in both or in neither, or if no argument in the
-- node has a comment.
pub visit-visit :
    (numbers : Numbers) (opts opts2 : FormatOptions) (node : Node)
    → (opts.break_lines ≡ opts2.break_lines) ⊎ (commented (tokens_of numbers node) ≡ false)
    → hard (visit numbers opts node new_visitor).fragments
      ≡ hard (visit numbers opts2 node new_visitor).fragments
visit-visit numbers opts opts2 node same =
    (visit-Wrote numbers opts node).printed
    ∙ ap hard (agree same)
    ∙ sym (visit-Wrote numbers opts2 node).printed
  where
    agree :
        (opts.break_lines ≡ opts2.break_lines) ⊎ (commented (tokens_of numbers node) ≡ false)
        → texts opts.break_lines (tokens_of numbers node)
          ≡ texts opts2.break_lines (tokens_of numbers node)
    agree (inl e) = ap (λ b. texts b (tokens_of numbers node)) e
    agree (inr e) =
        texts-plain opts.break_lines (tokens_of numbers node) e
        ∙ sym (texts-plain opts2.break_lines (tokens_of numbers node) e)

-- Where lines are not broken, as in `FormatToString`, no visit of a node starts a line.
visit-one_line :
    (numbers : Numbers) (opts : FormatOptions) (node : Node) (v : Visitor)
    → opts.break_lines ≡ false
    → (visit numbers opts node v).line_breaks ≡ v.line_breaks
visit-one_line numbers opts node v e = (visit-Wrote numbers opts node).unbroken e
