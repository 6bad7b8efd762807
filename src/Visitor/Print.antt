-- ===== src/Visitor/Print.antt =====
-- The visit of each node (visitor.go).
use vfilter.Base.{ℕ, Bool, true, false, not, ◌&&◌, ◌||◌, codes, if◌then◌else◌}
use vfilter.Visitor.{
  FormatOptions, Visitor, ◌▹◌, push, copy, push_indent, indent_in, pop_indent, line_break, fits,
  reported, space,
}
use vfilter.Visitor.Syntax.{
  CommaExpression, comma_expression, ArrayTerms, array_end, array_hole, array_term, AndExpression,
  and_expression, AndTerms, and_end, and_term, OrExpression, or_expression, OrTerms, or_end,
  or_term, ConditionOperand, negated, operand, compared, AdditionExpression, addition, AddTerms,
  add_end, add_term, MultiplicationExpression, multiplication, Factors, factor_end, factor,
  MemberExpression, member, Accesses, access_end, access_range, access_index, access_term,
  access_empty, Bound, absent, bound, Value, value, Operand, symbol_operand, sub_expression,
  string_literal, number_literal, bool_literal, null_literal, SymbolRef, symbol_ref, Args, args_end,
  args_next, Arg, arg_right, arg_select, arg_array, arg_empty, Select, select, Clause, no_clause,
  clause, SelectExpression, select_expression, Columns, columns_end, columns_next,
  AliasedExpression, star_column, select_column, expression_column, Plugin, plugin,
}
use vfilter.Visitor.Parts.{
  Numbers, before_arg, break_if, choose, column_fits, comma_before_args, comments_of, has_columns,
  indent_args, is_nil, longest_of, number_text, on_one_line, on_one_line_all, push_as, push_comma,
  push_limit, push_operator, push_order, uses_line_mode, visit_comments,
}

module _ (numbers : Numbers) where
  unfoldable mutual
    unfolding visit_comments before_arg

    pub visit_comma : FormatOptions → CommaExpression → Visitor → Visitor
    visit_comma opts (comma_expression cs left right) v =
        v ▹ visit_comments opts cs ▹ visit_and opts left ▹ visit_array opts right

    pub visit_array : FormatOptions → ArrayTerms → Visitor → Visitor
    visit_array opts array_end v = v
    visit_array opts (array_hole cs cs2 ts) v =
        v ▹ push_comma ▹ visit_comments opts cs ▹ visit_comments opts cs2 ▹ visit_array opts ts
    visit_array opts (array_term cs cs2 t ts) v =
        v
        ▹ push_comma
        ▹ visit_comments opts cs
        ▹ visit_comments opts cs2
        ▹ visit_and opts t
        ▹ visit_array opts ts

    -- The comments of the node itself are not printed.
    pub visit_and : FormatOptions → AndExpression → Visitor → Visitor
    visit_and opts (and_expression cs left right) v =
        v ▹ visit_or opts left ▹ visit_and_terms opts right

    pub visit_and_terms : FormatOptions → AndTerms → Visitor → Visitor
    visit_and_terms opts and_end v = v
    visit_and_terms opts (and_term op t ts) v =
        v
        ▹ line_break opts
        ▹ push_operator op
        ▹ push_indent
        ▹ visit_or opts t
        ▹ visit_and_terms opts ts
        ▹ pop_indent

    pub visit_or : FormatOptions → OrExpression → Visitor → Visitor
    visit_or opts (or_expression cs left right) v =
        v ▹ visit_comments opts cs ▹ visit_condition opts left ▹ visit_or_terms opts right

    pub visit_or_terms : FormatOptions → OrTerms → Visitor → Visitor
    visit_or_terms opts or_end v = v
    visit_or_terms opts (or_term op t ts) v =
        v
        ▹ push_operator op
        ▹ visit_comments opts (comments_of t)
        ▹ visit_condition opts t
        ▹ visit_or_terms opts ts

    -- Nor are the comments of this one, but for those above.
    pub visit_condition : FormatOptions → ConditionOperand → Visitor → Visitor
    visit_condition opts (negated cs c) v = v ▹ push (codes "NOT ") ▹ visit_condition opts c
    visit_condition opts (operand cs a) v = visit_addition opts a v
    visit_condition opts (compared cs a op b) v =
        v ▹ visit_addition opts a ▹ push_operator op ▹ visit_addition opts b

    pub visit_addition : FormatOptions → AdditionExpression → Visitor → Visitor
    visit_addition opts (addition cs left right) v =
        v ▹ visit_comments opts cs ▹ visit_multiplication opts left ▹ visit_add_terms opts right

    pub visit_add_terms : FormatOptions → AddTerms → Visitor → Visitor
    visit_add_terms opts add_end v = v
    visit_add_terms opts (add_term op t ts) v =
        v ▹ push_operator op ▹ visit_multiplication opts t ▹ visit_add_terms opts ts

    pub visit_multiplication : FormatOptions → MultiplicationExpression → Visitor → Visitor
    visit_multiplication opts (multiplication cs left right) v =
        v ▹ visit_comments opts cs ▹ visit_member opts left ▹ visit_factors opts right

    pub visit_factors : FormatOptions → Factors → Visitor → Visitor
    visit_factors opts factor_end v = v
    visit_factors opts (factor op t ts) v =
        v ▹ push_operator op ▹ visit_value opts t ▹ visit_factors opts ts

    pub visit_member : FormatOptions → MemberExpression → Visitor → Visitor
    visit_member opts (member cs left right) v =
        v ▹ visit_comments opts cs ▹ visit_value opts left ▹ visit_accesses opts right

    pub visit_accesses : FormatOptions → Accesses → Visitor → Visitor
    visit_accesses opts access_end v = v
    visit_accesses opts (access_range i j ts) v =
        v
        ▹ push (codes "[")
        ▹ visit_bound opts i
        ▹ push (codes ":")
        ▹ visit_bound opts j
        ▹ push (codes "]")
        ▹ visit_accesses opts ts
    visit_accesses opts (access_index i ts) v =
        v ▹ push (codes "[") ▹ visit_value opts i ▹ push (codes "]") ▹ visit_accesses opts ts
    visit_accesses opts (access_term name ts) v =
        v ▹ push (codes ".") ▹ push name ▹ visit_accesses opts ts
    visit_accesses opts (access_empty ts) v = v ▹ push (codes ".") ▹ visit_accesses opts ts

    pub visit_bound : FormatOptions → Bound → Visitor → Visitor
    visit_bound opts absent v = v
    visit_bound opts (bound i) v = visit_value opts i v

    pub visit_value : FormatOptions → Value → Visitor → Visitor
    visit_value opts (value cs minus x) v = v ▹ visit_comments opts cs ▹ visit_operand opts minus x

    pub visit_operand : FormatOptions → Bool → Operand → Visitor → Visitor
    visit_operand opts minus (symbol_operand r) v = visit_symbol opts r v
    visit_operand opts minus (sub_expression e) v =
        v ▹ push (codes "(") ▹ indent_in ▹ visit_comma opts e ▹ push (codes ")") ▹ pop_indent
    visit_operand opts minus (string_literal s) v = push s v
    visit_operand opts minus (number_literal s) v = push (number_text numbers minus s) v
    visit_operand opts minus (bool_literal s) v = push s v
    visit_operand opts minus null_literal v = push (codes "NULL") v

    pub visit_symbol : FormatOptions → SymbolRef → Visitor → Visitor
    visit_symbol opts (symbol_ref cs symbol called args) v =
        let v1 = v ▹ visit_comments opts cs ▹ push symbol in
        let trial = one_line_args (on_one_line opts) args 0 (v1 ▹ copy ▹ push (codes "(")) in
        let one_line = push (codes ")") trial.0 in
        let line_mode = uses_line_mode symbol in
        let longest = if line_mode then 0 else reported opts v1 one_line trial.1 in
        let broken =
          v1
          ▹ push (codes "(")
          ▹ indent_args opts (opts.args_on_new_line || line_mode) longest
          ▹ broken_args opts opts.args_on_new_line true args
          ▹ push (codes ")")
          ▹ pop_indent in
        if is_nil args
        then (if called then push (codes "()") v1 else v1)
        else choose (not line_mode && fits opts v1 one_line) v1 one_line broken

    -- The arguments on one line, and the widest so far.
    pub one_line_args : FormatOptions → Args → ℕ → Visitor → Visitor × ℕ
    one_line_args opts args_end longest v = (v, longest)
    one_line_args opts (args_next a args) longest v =
        let v1 = v ▹ visit_arg opts a ▹ comma_before_args args in
        one_line_args opts args (longest_of longest v.pos v1) v1

    -- A new line before each argument but the first, if `between` says so.
    pub broken_args : FormatOptions → Bool → Bool → Args → Visitor → Visitor
    broken_args opts between first args_end v = v
    broken_args opts between first (args_next a args) v =
        v
        ▹ break_if (between && not first) opts
        ▹ visit_arg opts a
        ▹ comma_before_args args
        ▹ broken_args opts between false args

    pub visit_arg : FormatOptions → Arg → Visitor → Visitor
    visit_arg opts (arg_right cs left e) v =
        v ▹ before_arg opts cs ▹ push left ▹ push (codes "=") ▹ visit_and opts e
    visit_arg opts (arg_select cs left q) v =
        v
        ▹ before_arg opts cs
        ▹ push left
        ▹ push (codes "={")
        ▹ indent_in
        ▹ line_break opts
        ▹ visit_select opts q
        ▹ pop_indent
        ▹ line_break opts
        ▹ push (codes "}")
    visit_arg opts (arg_array cs left e) v =
        v
        ▹ before_arg opts cs
        ▹ push left
        ▹ push (codes "=[")
        ▹ visit_comma opts e
        ▹ push (codes "]")
    visit_arg opts (arg_empty cs left) v = v ▹ before_arg opts cs ▹ push left ▹ push (codes "=[]")

    pub visit_plugin : FormatOptions → Plugin → Visitor → Visitor
    visit_plugin opts (plugin name call args) v =
        let v1 = push name v in
        let trial = one_line_args (on_one_line opts) args 0 (v1 ▹ copy ▹ push (codes "(")) in
        let one_line = push (codes ")") trial.0 in
        let line_mode = uses_line_mode name in
        let longest = if line_mode then 0 else reported opts v1 one_line trial.1 in
        let broken =
          v1
          ▹ push (codes "(")
          ▹ indent_args opts line_mode longest
          ▹ broken_args opts true true args
          ▹ push (codes ")")
          ▹ pop_indent in
        if not call
        then v1
        else if is_nil args
        then push (codes "()") v1
        else choose (not line_mode && fits opts v1 one_line) v1 one_line broken

    pub visit_select : FormatOptions → Select → Visitor → Visitor
    visit_select opts (select cs explain columns from where_clause group_by order_by limit) v =
        v
        ▹ visit_comments opts cs
        ▹ (if explain then push (codes "EXPLAIN ") else λ u. u)
        ▹ push (codes "SELECT ")
        ▹ push_indent
        ▹ visit_select_expression opts columns
        ▹ pop_indent
        ▹ line_break opts
        ▹ push (codes "FROM ")
        ▹ visit_plugin opts from
        ▹ visit_where opts where_clause
        ▹ visit_group_by opts group_by
        ▹ push_order order_by opts
        ▹ push_limit numbers limit opts

    pub visit_where : FormatOptions → Clause → Visitor → Visitor
    visit_where opts no_clause v = v
    visit_where opts (clause e) v = v ▹ line_break opts ▹ push (codes "WHERE ") ▹ visit_comma opts e

    pub visit_group_by : FormatOptions → Clause → Visitor → Visitor
    visit_group_by opts no_clause v = v
    visit_group_by opts (clause e) v =
        v
        ▹ line_break opts
        ▹ push (codes "GROUP BY ")
        ▹ push_indent
        ▹ visit_comma opts e
        ▹ pop_indent

    pub visit_select_expression : FormatOptions → SelectExpression → Visitor → Visitor
    visit_select_expression opts (select_expression all columns) v =
        v
        ▹ (if all then push (codes "*") else λ u. u)
        ▹ (if all && has_columns columns then push_comma else λ u. u)
        ▹ visit_columns opts columns

    pub visit_columns : FormatOptions → Columns → Visitor → Visitor
    visit_columns opts columns_end v = v
    visit_columns opts (columns_next c cs) v =
        v
        ▹ visit_column opts c
        ▹ (if has_columns cs then (λ u. u ▹ push_comma ▹ line_break opts) else λ u. u)
        ▹ visit_columns opts cs

    pub visit_column : FormatOptions → AliasedExpression → Visitor → Visitor
    visit_column opts (star_column cs as_name) v = v ▹ visit_comments opts cs ▹ push (codes "*")
    visit_column opts (select_column cs q as_name) v =
        v
        ▹ visit_comments opts cs
        ▹ push (codes "{")
        ▹ push space
        ▹ indent_in
        ▹ line_break opts
        ▹ visit_select opts q
        ▹ pop_indent
        ▹ line_break opts
        ▹ push (codes "}")
        ▹ push_as as_name
    visit_column opts (expression_column cs e as_name) v =
        let v1 = visit_comments opts cs v in
        let one_line = visit_and (on_one_line_all opts) e (copy v1) in
        choose (column_fits opts as_name v1 one_line) v1 one_line
          (v1 ▹ line_break opts ▹ visit_and opts e)
        ▹ push_as as_name
