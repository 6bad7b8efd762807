-- ===== src/Visitor/Layout.antt =====
-- What the visit of each node (visitor.go) writes.
use vfilter.Base.{ℕ, Bool, true, false, not, ◌&&◌, Bytes, codes, ◌≡◌, refl, arith}
use vfilter.Visitor.{FormatOptions, Visitor, ◌▹◌, push, line_break, space}
use vfilter.Visitor.Parts.{
  Numbers, number_text, visit_comments, before_arg, push_comma, on_one_line, on_one_line_all,
  uses_line_mode, column_fits, comments_of, is_nil, has_columns,
}
use vfilter.Visitor.Print.{
  visit_comma, visit_array, visit_and, visit_and_terms, visit_or, visit_or_terms, visit_condition,
  visit_addition, visit_add_terms, visit_multiplication, visit_factors, visit_member,
  visit_accesses, visit_bound, visit_value, visit_operand, visit_symbol, one_line_args, broken_args,
  visit_arg, visit_plugin, visit_select, visit_where, visit_group_by, visit_select_expression,
  visit_columns, visit_column,
}
use vfilter.Visitor.Syntax.{
  CommaExpression, comma_expression, ArrayTerms, array_end, array_hole, array_term, AndExpression,
  and_expression, AndTerms, and_end, and_term, OrExpression, or_expression, OrTerms, or_end,
  or_term, ConditionOperand, negated, operand, compared, AdditionExpression, addition, AddTerms,
  add_end, add_term, MultiplicationExpression, multiplication, Factors, factor_end, factor,
  MemberExpression, member, Accesses, access_end, access_range, access_index, access_term,
  access_empty, Bound, absent, bound, Value, value, Operand, symbol_operand, sub_expression,
  string_literal, number_literal, bool_literal, null_literal, SymbolRef, symbol_ref, Args, args_end,
  args_next, Arg, arg_right, arg_select, arg_array, arg_empty, Select, select, Clause, no_clause,
  clause, SelectExpression, select_expression, Columns, columns_end, columns_next,
  AliasedExpression, star_column, select_column, expression_column, Plugin, plugin,
}
use vfilter.Visitor.Tokens.{
  tokens_comma, tokens_array, tokens_and, tokens_and_terms, tokens_or, tokens_or_terms,
  tokens_condition, tokens_addition, tokens_add_terms, tokens_multiplication, tokens_factors,
  tokens_member, tokens_accesses, tokens_bound, tokens_value, tokens_operand, tokens_symbol,
  tokens_args, tokens_arg, tokens_plugin, tokens_select, tokens_where, tokens_group_by,
  tokens_select_expression, tokens_columns, tokens_column,
}
use vfilter.Visitor.Writes.{
  Wrote, ◌▸◌, ◌▹soft◌, ◌soft▹◌, inside, nothing, push-Wrote, push-Soft, line_break-Soft,
  push_indent-Indented, indent_in-Indented,
}
use vfilter.Visitor.Steps.{
  if-Wrote, when-Wrote, push_as-Wrote, push_operator-Wrote, push_comma-Wrote,
  comma_before_args-Wrote, push_order-Wrote, push_limit-Wrote, visit_comments-Wrote,
  before_arg-Wrote, indent_args-Indented, break_if-Soft, choose-Wrote, fits-plain,
}

and_plain :
    (line_mode fit : Bool) {c : Bool}
    → (fit ≡ true → c ≡ false)
    → (not line_mode && fit) ≡ true
    → c ≡ false
and_plain line_mode true h e = h refl
and_plain true false h e = absurd (ground arith)
and_plain false false h e = absurd (ground arith)

column_plain :
    (opts : FormatOptions) (as_name : Bytes) (v one : Visitor)
    → column_fits opts as_name v one ≡ true
    → one.has_comments ≡ false
column_plain opts as_name v one h = fits-plain opts v one (ground arith)

module _ (numbers : Numbers) where
  mutual
    unfolding visit_comma tokens_comma visit_comments before_arg

    pub visit_comma-Wrote :
        (opts : FormatOptions) (e : CommaExpression) {v : Visitor}
        → Wrote opts.break_lines v (visit_comma numbers opts e v) (tokens_comma numbers e)
    visit_comma-Wrote opts (comma_expression cs left right) =
        visit_comments-Wrote opts cs ▸ visit_and-Wrote opts left ▸ visit_array-Wrote opts right

    pub visit_array-Wrote :
        (opts : FormatOptions) (ts : ArrayTerms) {v : Visitor}
        → Wrote opts.break_lines v (visit_array numbers opts ts v) (tokens_array numbers ts)
    visit_array-Wrote opts array_end = nothing
    visit_array-Wrote opts (array_hole cs cs2 ts) =
        push_comma-Wrote
        ▸ visit_comments-Wrote opts cs
        ▸ visit_comments-Wrote opts cs2
        ▸ visit_array-Wrote opts ts
    visit_array-Wrote opts (array_term cs cs2 t ts) =
        push_comma-Wrote
        ▸ visit_comments-Wrote opts cs
        ▸ visit_comments-Wrote opts cs2
        ▸ visit_and-Wrote opts t
        ▸ visit_array-Wrote opts ts

    pub visit_and-Wrote :
        (opts : FormatOptions) (e : AndExpression) {v : Visitor}
        → Wrote opts.break_lines v (visit_and numbers opts e v) (tokens_and numbers e)
    visit_and-Wrote opts (and_expression cs left right) =
        visit_or-Wrote opts left ▸ visit_and_terms-Wrote opts right

    pub visit_and_terms-Wrote :
        (opts : FormatOptions) (ts : AndTerms) {v : Visitor}
        → Wrote opts.break_lines v (visit_and_terms numbers opts ts v) (tokens_and_terms numbers ts)
    visit_and_terms-Wrote opts and_end = nothing
    visit_and_terms-Wrote opts (and_term op t ts) =
        (line_break-Soft opts soft▹ push_operator-Wrote op)
        ▸ inside push_indent-Indented (visit_or-Wrote opts t ▸ visit_and_terms-Wrote opts ts)

    pub visit_or-Wrote :
        (opts : FormatOptions) (e : OrExpression) {v : Visitor}
        → Wrote opts.break_lines v (visit_or numbers opts e v) (tokens_or numbers e)
    visit_or-Wrote opts (or_expression cs left right) =
        visit_comments-Wrote opts cs
        ▸ visit_condition-Wrote opts left
        ▸ visit_or_terms-Wrote opts right

    pub visit_or_terms-Wrote :
        (opts : FormatOptions) (ts : OrTerms) {v : Visitor}
        → Wrote opts.break_lines v (visit_or_terms numbers opts ts v) (tokens_or_terms numbers ts)
    visit_or_terms-Wrote opts or_end = nothing
    visit_or_terms-Wrote opts (or_term op t ts) =
        push_operator-Wrote op
        ▸ visit_comments-Wrote opts (comments_of t)
        ▸ visit_condition-Wrote opts t
        ▸ visit_or_terms-Wrote opts ts

    pub visit_condition-Wrote :
        (opts : FormatOptions) (e : ConditionOperand) {v : Visitor}
        → Wrote opts.break_lines v (visit_condition numbers opts e v) (tokens_condition numbers e)
    visit_condition-Wrote opts (negated cs c) =
        push-Wrote (codes "NOT ") ▸ visit_condition-Wrote opts c
    visit_condition-Wrote opts (operand cs a) = visit_addition-Wrote opts a
    visit_condition-Wrote opts (compared cs a op b) =
        visit_addition-Wrote opts a ▸ push_operator-Wrote op ▸ visit_addition-Wrote opts b

    pub visit_addition-Wrote :
        (opts : FormatOptions) (e : AdditionExpression) {v : Visitor}
        → Wrote opts.break_lines v (visit_addition numbers opts e v) (tokens_addition numbers e)
    visit_addition-Wrote opts (addition cs left right) =
        visit_comments-Wrote opts cs
        ▸ visit_multiplication-Wrote opts left
        ▸ visit_add_terms-Wrote opts right

    pub visit_add_terms-Wrote :
        (opts : FormatOptions) (ts : AddTerms) {v : Visitor}
        → Wrote opts.break_lines v (visit_add_terms numbers opts ts v) (tokens_add_terms numbers ts)
    visit_add_terms-Wrote opts add_end = nothing
    visit_add_terms-Wrote opts (add_term op t ts) =
        push_operator-Wrote op ▸ visit_multiplication-Wrote opts t ▸ visit_add_terms-Wrote opts ts

    pub visit_multiplication-Wrote :
        (opts : FormatOptions) (e : MultiplicationExpression) {v : Visitor}
        → Wrote opts.break_lines v
            (visit_multiplication numbers opts e v)
            (tokens_multiplication numbers e)
    visit_multiplication-Wrote opts (multiplication cs left right) =
        visit_comments-Wrote opts cs ▸ visit_member-Wrote opts left ▸ visit_factors-Wrote opts right

    pub visit_factors-Wrote :
        (opts : FormatOptions) (ts : Factors) {v : Visitor}
        → Wrote opts.break_lines v (visit_factors numbers opts ts v) (tokens_factors numbers ts)
    visit_factors-Wrote opts factor_end = nothing
    visit_factors-Wrote opts (factor op t ts) =
        push_operator-Wrote op ▸ visit_value-Wrote opts t ▸ visit_factors-Wrote opts ts

    pub visit_member-Wrote :
        (opts : FormatOptions) (e : MemberExpression) {v : Visitor}
        → Wrote opts.break_lines v (visit_member numbers opts e v) (tokens_member numbers e)
    visit_member-Wrote opts (member cs left right) =
        visit_comments-Wrote opts cs ▸ visit_value-Wrote opts left ▸ visit_accesses-Wrote opts right

    pub visit_accesses-Wrote :
        (opts : FormatOptions) (ts : Accesses) {v : Visitor}
        → Wrote opts.break_lines v (visit_accesses numbers opts ts v) (tokens_accesses numbers ts)
    visit_accesses-Wrote opts access_end = nothing
    visit_accesses-Wrote opts (access_range i j ts) =
        push-Wrote (codes "[")
        ▸ visit_bound-Wrote opts i
        ▸ push-Wrote (codes ":")
        ▸ visit_bound-Wrote opts j
        ▸ push-Wrote (codes "]")
        ▸ visit_accesses-Wrote opts ts
    visit_accesses-Wrote opts (access_index i ts) =
        push-Wrote (codes "[")
        ▸ visit_value-Wrote opts i
        ▸ push-Wrote (codes "]")
        ▸ visit_accesses-Wrote opts ts
    visit_accesses-Wrote opts (access_term name ts) =
        push-Wrote (codes ".") ▸ push-Wrote name ▸ visit_accesses-Wrote opts ts
    visit_accesses-Wrote opts (access_empty ts) =
        push-Wrote (codes ".") ▸ visit_accesses-Wrote opts ts

    pub visit_bound-Wrote :
        (opts : FormatOptions) (i : Bound) {v : Visitor}
        → Wrote opts.break_lines v (visit_bound numbers opts i v) (tokens_bound numbers i)
    visit_bound-Wrote opts absent = nothing
    visit_bound-Wrote opts (bound i) = visit_value-Wrote opts i

    pub visit_value-Wrote :
        (opts : FormatOptions) (x : Value) {v : Visitor}
        → Wrote opts.break_lines v (visit_value numbers opts x v) (tokens_value numbers x)
    visit_value-Wrote opts (value cs minus x) =
        visit_comments-Wrote opts cs ▸ visit_operand-Wrote opts minus x

    pub visit_operand-Wrote :
        (opts : FormatOptions) (minus : Bool) (x : Operand) {v : Visitor}
        → Wrote opts.break_lines v
            (visit_operand numbers opts minus x v)
            (tokens_operand numbers minus x)
    visit_operand-Wrote opts minus (symbol_operand r) = visit_symbol-Wrote opts r
    visit_operand-Wrote opts minus (sub_expression e) =
        push-Wrote (codes "(")
        ▸ inside indent_in-Indented (visit_comma-Wrote opts e ▸ push-Wrote (codes ")"))
    visit_operand-Wrote opts minus (string_literal s) = push-Wrote s
    visit_operand-Wrote opts minus (number_literal s) = push-Wrote (number_text numbers minus s)
    visit_operand-Wrote opts minus (bool_literal s) = push-Wrote s
    visit_operand-Wrote opts minus null_literal = push-Wrote (codes "NULL")

    pub visit_symbol-Wrote :
        (opts : FormatOptions) (r : SymbolRef) {v : Visitor}
        → Wrote opts.break_lines v (visit_symbol numbers opts r v) (tokens_symbol numbers r)
    visit_symbol-Wrote opts (symbol_ref cs symbol called args) =
        visit_comments-Wrote opts cs
        ▸ push-Wrote symbol
        ▸ if-Wrote (is_nil args) (if-Wrote called (push-Wrote (codes "()")) nothing) (
            choose-Wrote _ (and_plain (uses_line_mode symbol) _ (fits-plain opts _ _))
              (push-Wrote (codes "(")
                ▸ (one_line_args-Wrote (on_one_line opts) args 0 ▸ push-Wrote (codes ")")))
              (push-Wrote (codes "(")
                ▸ inside (indent_args-Indented opts _ _) (
                    broken_args-Wrote opts opts.args_on_new_line true args
                    ▸ push-Wrote (codes ")"))))

    pub one_line_args-Wrote :
        (opts : FormatOptions) (args : Args) (longest : ℕ) {v : Visitor}
        → Wrote opts.break_lines v
            (one_line_args numbers opts args longest v).0
            (tokens_args numbers args)
    one_line_args-Wrote opts args_end longest = nothing
    one_line_args-Wrote opts (args_next a args) longest =
        visit_arg-Wrote opts a ▸ comma_before_args-Wrote args ▸ one_line_args-Wrote opts args _

    pub broken_args-Wrote :
        (opts : FormatOptions) (between first : Bool) (args : Args) {v : Visitor}
        → Wrote opts.break_lines v
            (broken_args numbers opts between first args v)
            (tokens_args numbers args)
    broken_args-Wrote opts between first args_end = nothing
    broken_args-Wrote opts between first (args_next a args) =
        (break_if-Soft (between && not first) opts soft▹ visit_arg-Wrote opts a)
        ▸ comma_before_args-Wrote args
        ▸ broken_args-Wrote opts between false args

    pub visit_arg-Wrote :
        (opts : FormatOptions) (a : Arg) {v : Visitor}
        → Wrote opts.break_lines v (visit_arg numbers opts a v) (tokens_arg numbers a)
    visit_arg-Wrote opts (arg_right cs left e) =
        before_arg-Wrote opts cs ▸ push-Wrote left ▸ push-Wrote (codes "=") ▸ visit_and-Wrote opts e
    visit_arg-Wrote opts (arg_select cs left q) =
        before_arg-Wrote opts cs
        ▸ push-Wrote left
        ▸ push-Wrote (codes "={")
        ▸ inside indent_in-Indented (line_break-Soft opts soft▹ visit_select-Wrote opts q)
        ▹soft line_break-Soft opts
        ▸ push-Wrote (codes "}")
    visit_arg-Wrote opts (arg_array cs left e) =
        before_arg-Wrote opts cs
        ▸ push-Wrote left
        ▸ push-Wrote (codes "=[")
        ▸ visit_comma-Wrote opts e
        ▸ push-Wrote (codes "]")
    visit_arg-Wrote opts (arg_empty cs left) =
        before_arg-Wrote opts cs ▸ push-Wrote left ▸ push-Wrote (codes "=[]")

    pub visit_plugin-Wrote :
        (opts : FormatOptions) (p : Plugin) {v : Visitor}
        → Wrote opts.break_lines v (visit_plugin numbers opts p v) (tokens_plugin numbers p)
    visit_plugin-Wrote opts (plugin name call args) =
        push-Wrote name
        ▸ if-Wrote (not call) nothing (
            if-Wrote (is_nil args) (push-Wrote (codes "()")) (
              choose-Wrote _ (and_plain (uses_line_mode name) _ (fits-plain opts _ _))
                (push-Wrote (codes "(")
                  ▸ (one_line_args-Wrote (on_one_line opts) args 0 ▸ push-Wrote (codes ")")))
                (push-Wrote (codes "(")
                  ▸ inside (indent_args-Indented opts _ _)
                      (broken_args-Wrote opts true true args ▸ push-Wrote (codes ")")))))

    pub visit_select-Wrote :
        (opts : FormatOptions) (q : Select) {v : Visitor}
        → Wrote opts.break_lines v (visit_select numbers opts q v) (tokens_select numbers q)
    visit_select-Wrote opts (select cs explain columns from where_clause group_by order_by limit) =
        visit_comments-Wrote opts cs
        ▸ when-Wrote (push (codes "EXPLAIN ")) explain (push-Wrote (codes "EXPLAIN "))
        ▸ push-Wrote (codes "SELECT ")
        ▸ inside push_indent-Indented (visit_select_expression-Wrote opts columns)
        ▹soft line_break-Soft opts
        ▸ push-Wrote (codes "FROM ")
        ▸ visit_plugin-Wrote opts from
        ▸ visit_where-Wrote opts where_clause
        ▸ visit_group_by-Wrote opts group_by
        ▸ push_order-Wrote order_by opts
        ▸ push_limit-Wrote numbers limit opts

    pub visit_where-Wrote :
        (opts : FormatOptions) (c : Clause) {v : Visitor}
        → Wrote opts.break_lines v (visit_where numbers opts c v) (tokens_where numbers c)
    visit_where-Wrote opts no_clause = nothing
    visit_where-Wrote opts (clause e) =
        (line_break-Soft opts soft▹ push-Wrote (codes "WHERE ")) ▸ visit_comma-Wrote opts e

    pub visit_group_by-Wrote :
        (opts : FormatOptions) (c : Clause) {v : Visitor}
        → Wrote opts.break_lines v (visit_group_by numbers opts c v) (tokens_group_by numbers c)
    visit_group_by-Wrote opts no_clause = nothing
    visit_group_by-Wrote opts (clause e) =
        (line_break-Soft opts soft▹ push-Wrote (codes "GROUP BY "))
        ▸ inside push_indent-Indented (visit_comma-Wrote opts e)

    pub visit_select_expression-Wrote :
        (opts : FormatOptions) (e : SelectExpression) {v : Visitor}
        → Wrote opts.break_lines v
            (visit_select_expression numbers opts e v)
            (tokens_select_expression numbers e)
    visit_select_expression-Wrote opts (select_expression all columns) =
        when-Wrote (push (codes "*")) all (push-Wrote (codes "*"))
        ▸ when-Wrote push_comma (all && has_columns columns) push_comma-Wrote
        ▸ visit_columns-Wrote opts columns

    pub visit_columns-Wrote :
        (opts : FormatOptions) (cs : Columns) {v : Visitor}
        → Wrote opts.break_lines v (visit_columns numbers opts cs v) (tokens_columns numbers cs)
    visit_columns-Wrote opts columns_end = nothing
    visit_columns-Wrote opts (columns_next c cs) =
        visit_column-Wrote opts c
        ▸ when-Wrote (λ u. u ▹ push_comma ▹ line_break opts) (has_columns cs)
            (push_comma-Wrote ▹soft line_break-Soft opts)
        ▸ visit_columns-Wrote opts cs

    pub visit_column-Wrote :
        (opts : FormatOptions) (c : AliasedExpression) {v : Visitor}
        → Wrote opts.break_lines v (visit_column numbers opts c v) (tokens_column numbers c)
    visit_column-Wrote opts (star_column cs as_name) =
        visit_comments-Wrote opts cs ▸ push-Wrote (codes "*")
    visit_column-Wrote opts (select_column cs q as_name) =
        visit_comments-Wrote opts cs
        ▸ push-Wrote (codes "{")
        ▹soft push-Soft space refl
        ▸ inside indent_in-Indented (line_break-Soft opts soft▹ visit_select-Wrote opts q)
        ▹soft line_break-Soft opts
        ▸ push-Wrote (codes "}")
        ▸ push_as-Wrote as_name
    visit_column-Wrote opts (expression_column cs e as_name) =
        visit_comments-Wrote opts cs
        ▸ choose-Wrote _ (column_plain opts as_name _ _) (visit_and-Wrote (on_one_line_all opts) e)
            (line_break-Soft opts soft▹ visit_and-Wrote opts e)
        ▸ push_as-Wrote as_name
