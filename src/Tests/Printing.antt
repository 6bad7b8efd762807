-- ===== src/Tests/Printing.antt =====
-- The printing of queries at concrete inputs: texts of reformat/fixtures/formatting.golden.
use vfilter.Base.{
  ◌+◌, ◌-◌, true, false, none, some, List, [], ◌∷◌, ◌++◌, Bytes, codes, inr, ◌≡◌, refl, arith,
  length, ◌<◌,
}
use vfilter.Base.Int.{pos, negsuc, wrap64, ◌*ℤ◌}
use vfilter.Statements.{materialized}
use vfilter.Visitor.{
  Visitor, new_visitor, default_format_options, to_string_options, newline, push, pop_indent,
  push_indent, indent_in, line_break, fits,
}
use vfilter.Visitor.Syntax.{
  Comment, CommaExpression, comma_expression, array_end, array_hole, array_term, AndExpression,
  and_expression, and_end, or_expression, or_end, operand, addition, add_end, multiplication,
  factor_end, member, access_end, value, Operand, symbol_operand, sub_expression, number_literal,
  symbol_ref, Arg, Args, args_end, args_next, arg_right, Select, select, no_clause, clause,
  SelectExpression, select_expression, columns_end, columns_next, expression_column, Plugin, plugin,
}
use vfilter.Visitor.Parts.{Numbers}
use vfilter.Visitor.Print.{visit_and, visit_select, visit_column, visit_plugin}
use vfilter.Visitor.Tokens.{texts, hard, tokens_select}
use vfilter.Visitor.Document.Tokens.{tokens_of}
use vfilter.Visitor.Document.Layouts.{visit-tokens, visit-visit}
use vfilter.Visitor.Document.Widths.{visit-wide}
use vfilter.Visitor.Document.{
  Statement, vql_node, query_node, expression_node, visit, to_string, format_to_string,
}

-- Numbers of one digit, and texts as floats.
abbrev digits : Numbers
digits = record {
  Float = Bytes;
  parse_int =
      λ s. elim s [ [] ↦ none | c ∷ cs ↦ elim cs [ [] ↦ some (pos (c - 48)) | d ∷ ds ↦ none ] ];
  parse_float = λ s. some s;
  signed = λ minus s. s;
  format_int = λ z. elim z [ pos n ↦ (48 + n) ∷ [] | negsuc n ↦ b'-' ∷ (49 + n) ∷ [] ];
  format_float = λ s. s;
}

abbrev of_value : Operand → AndExpression
of_value x =
    and_expression []
      (or_expression []
        (operand [] (
          addition [] (multiplication [] (member [] (value [] false x) access_end) factor_end)
            add_end))
        or_end)
      and_end

abbrev name : Bytes → AndExpression
name s = of_value (symbol_operand (symbol_ref [] s false args_end))

abbrev number : Bytes → AndExpression
number s = of_value (number_literal s)

abbrev remark : Bytes → Comment
remark s = record { vql_comment = some s; comment = none; multi_line = none }

abbrev devices : CommaExpression
devices = comma_expression [] (of_value (number_literal (codes "2"))) (
    array_term [] [] (number (codes "7")) (
      array_term [] (remark (codes "-- loop") ∷ []) (number (codes "8"))
        (array_hole [] (remark (codes "-- sd") ∷ []) array_end)))

abbrev let_devices : Statement
let_devices = record {
  let_name = codes "Major";
  parameters = none;
  let_operator = materialized;
  stored_query = none;
  expression = some (of_value (sub_expression devices));
  query = none;
  comments = [];
}

let_devices_text :
    to_string (visit digits default_format_options (vql_node let_devices) new_visitor)
    ≡ codes "LET Major <= (2, 7, -- loop"
      ++ newline
      ++ codes "    8, -- sd"
      ++ newline
      ++ codes "    )"
unfolding visit pop_indent visit_and push line_break indent_in wrap64 ◌*ℤ◌
let_devices_text = refl

abbrev columns : SelectExpression
columns = select_expression false (
    columns_next (expression_column [] (name (codes "A")) (codes "First"))
      (columns_next (expression_column [] (name (codes "D")) []) columns_end))

abbrev info : List Comment → Plugin
info cs = plugin (codes "info") true (
    args_next (arg_right cs (codes "arg") (number (codes "1")))
      (args_next (arg_right [] (codes "arg2") (number (codes "3"))) args_end))

abbrev simple : List Comment → Select
simple cs =
    select [] false columns (info cs) (clause (comma_expression [] (number (codes "1")) array_end))
      no_clause (some (codes "C", false)) (some (pos 1))

simple_text :
    to_string (visit digits default_format_options (query_node (simple [])) new_visitor)
    ≡ codes "SELECT A AS First,"
      ++ newline
      ++ codes "       D"
      ++ newline
      ++ codes "FROM info(arg=1, arg2=3)"
      ++ newline
      ++ codes "WHERE 1"
      ++ newline
      ++ codes "ORDER BY C"
      ++ newline
      ++ codes "LIMIT 1 "
unfolding visit visit_select push line_break fits pop_indent push_indent wrap64 ◌*ℤ◌
simple_text = refl

abbrev with_devices : Select
with_devices =
    select [] false
      (select_expression false
        (columns_next (expression_column [] (of_value (sub_expression devices)) []) columns_end))
      (plugin (codes "x") false args_end) no_clause no_clause none none

commented_text :
    to_string (
      visit digits default_format_options
        (query_node (simple (remark (codes "-- This") ∷ [])))
        new_visitor)
    ≡ codes "SELECT A AS First,"
      ++ newline
      ++ codes "       D"
      ++ newline
      ++ codes "FROM info("
      ++ newline
      ++ codes "  -- This"
      ++ newline
      ++ codes "  arg=1,"
      ++ newline
      ++ codes "  arg2=3)"
      ++ newline
      ++ codes "WHERE 1"
      ++ newline
      ++ codes "ORDER BY C"
      ++ newline
      ++ codes "LIMIT 1 "
unfolding visit visit_select push line_break fits pop_indent push_indent wrap64 ◌*ℤ◌ indent_in
commented_text = refl

one_line_text :
    format_to_string digits (query_node (simple []))
    ≡ codes "SELECT A AS First, D FROM info(arg=1, arg2=3) WHERE 1 ORDER BY C LIMIT 1 "
unfolding format_to_string visit_select push line_break fits pop_indent push_indent wrap64 ◌*ℤ◌
one_line_text = refl

-- A comment within the parentheses of a column swallows the rest of its line.
merged_comment_text :
    to_string (visit digits default_format_options (query_node with_devices) new_visitor)
    ≡ codes "SELECT (2, 7, -- loop 8, -- sd )" ++ newline ++ codes "FROM x"
unfolding visit visit_select push line_break fits pop_indent push_indent indent_in wrap64 ◌*ℤ◌
merged_comment_text = refl

visit-tokens_example :
    (hard (visit digits default_format_options (vql_node let_devices) new_visitor).fragments
      ≡ hard (texts true (tokens_of digits (vql_node let_devices))))
    × ((visit digits default_format_options (vql_node let_devices) new_visitor).indents ≡ [])
visit-tokens_example = visit-tokens digits default_format_options (vql_node let_devices) new_visitor

visit-visit_example :
    hard (visit digits default_format_options (query_node (simple [])) new_visitor).fragments
    ≡ hard (visit digits to_string_options (query_node (simple [])) new_visitor).fragments
unfolding tokens_of tokens_select
visit-visit_example =
    visit-visit digits default_format_options to_string_options (query_node (simple [])) (inr refl)

abbrev one_arg : Args
one_arg = args_next (arg_right [] (codes "a") (number (codes "1"))) args_end

-- A visitor that has printed a line of 90 bytes.
abbrev wide_visitor : Visitor
wide_visitor = record new_visitor { max_width = 90 }

-- The short column after the wide line starts a line of its own.
short_column_text :
    (visit_column digits default_format_options
      (expression_column [] (name (codes "B")) [])
      wide_visitor).fragments
    ≡ newline ∷ [] ∷ codes "B" ∷ []
unfolding visit_column push line_break fits
short_column_text = refl

visit-wide_example :
    (let u =
        visit digits default_format_options (expression_node (name (codes "A"))) wide_visitor in
      ((cs : List Comment) (e : AndExpression) (as_name : Bytes)
        → length u.line_breaks
          < length
              (visit_column digits default_format_options
                (expression_column cs e as_name)
                u).line_breaks)
      × ((title : Bytes) (a b : Arg) (args : Args)
          → length u.line_breaks
            < length
                (visit_plugin digits default_format_options
                  (plugin title true (args_next a (args_next b args)))
                  u).line_breaks))
visit-wide_example =
    visit-wide digits default_format_options (expression_node (name (codes "A"))) wide_visitor refl
      (omega arith)
