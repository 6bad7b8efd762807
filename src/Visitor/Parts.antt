-- ===== src/Visitor/Parts.antt =====
-- What the visits of the nodes (visitor.go) share. Numbers are read and written by Go's strconv, which is a
-- parameter.
use vfilter.Base.{
  ℕ, ◌+◌, ◌-◌, Bool, true, false, ◌&&◌, ◌||◌, Option, none, some, List, [], ◌∷◌, ◌++◌, Bytes, codes,
  equal, length, ltb, if◌then◌else◌,
}
use vfilter.Base.Int.{ℤ, pos, negsuc, wrap64, ◌*ℤ◌}
use vfilter.Visitor.{
  FormatOptions, Visitor, ◌▹◌, push, merge, push_indent, indent_in, line_break, fits, reported,
  larger, space,
}
use vfilter.Visitor.Syntax.{
  Comment, ConditionOperand, negated, operand, compared, Args, args_end, args_next, Columns,
  columns_end, columns_next,
}

-- `ParseInt`, `ParseFloat`, the product of a float with 1.0 or (`true`) -1.0, `FormatInt`, and `FormatFloat`
-- with the format 'f'.
pub record Numbers : Type 1 where
  pub Float : Type 0
  pub parse_int : Bytes → Option ℤ
  pub parse_float : Bytes → Option Float
  pub signed : Bool → Float → Float
  pub format_int : ℤ → Bytes
  pub format_float : Float → Bytes

abbrev pub has_byte : ℕ → Bytes → Bool
has_byte c [] = false
has_byte c (b ∷ bs) = equal (b ∷ []) (c ∷ []) || has_byte c bs

abbrev pub with_point : Bytes → Bytes
with_point text = if has_byte b'.' text then text else text ++ codes ".0"

-- A number that cannot be read is printed as FALSE.
abbrev pub number_text : Numbers → Bool → Bytes → Bytes
number_text n minus s = elim (n.parse_int s) [
  | some z ↦ n.format_int (wrap64 ((if minus then negsuc 0 else pos 1) *ℤ z))
  | none ↦ elim (n.parse_float s) [
    | some x ↦ with_point (n.format_float (n.signed minus x))
    | none ↦ codes "FALSE"
  ]
]

abbrev pub push_some : Option Bytes → Visitor → Visitor
push_some none v = v
push_some (some text) v = push text v

abbrev pub visit_comment : Comment → Visitor → Visitor
visit_comment c v = v ▹ push_some c.comment ▹ push_some c.vql_comment ▹ push_some c.multi_line

unfoldable pub visit_comments : FormatOptions → List Comment → Visitor → Visitor
visit_comments opts [] v = v
visit_comments opts (c ∷ cs) v = visit_comments opts cs (v ▹ visit_comment c ▹ line_break opts)

-- A name behind AS.
abbrev pub push_as : Bytes → Visitor → Visitor
push_as as_name v = if equal as_name [] then v else v ▹ push (codes " AS ") ▹ push as_name

-- The operator of a binary expression.
abbrev pub push_operator : Bytes → Visitor → Visitor
push_operator op v = v ▹ push space ▹ push op ▹ push space

abbrev pub push_comma : Visitor → Visitor
push_comma v = v ▹ push (codes ",") ▹ push space

-- No comma behind the last argument or column.
abbrev pub comma_before_args : Args → Visitor → Visitor
comma_before_args args_end v = v
comma_before_args (args_next a args) v = push_comma v

abbrev pub is_nil : Args → Bool
is_nil args_end = true
is_nil (args_next a args) = false

abbrev pub has_columns : Columns → Bool
has_columns columns_end = false
has_columns (columns_next c cs) = true

-- The options of a trial: for the arguments of a call, and for a column.
abbrev pub on_one_line : FormatOptions → FormatOptions
on_one_line opts = record opts { break_lines = false }

abbrev pub on_one_line_all : FormatOptions → FormatOptions
on_one_line_all opts = record opts { break_lines = false; args_on_new_line = false }

abbrev pub uses_line_mode : Bytes → Bool
uses_line_mode name = equal name (codes "foreach") || equal name (codes "if")

abbrev pub set_has_comments : List Comment → Visitor → Visitor
set_has_comments [] v = v
set_has_comments (c ∷ cs) v = record v { has_comments = true }

-- What stands before an argument. Its comments are printed only where lines are broken.
unfoldable pub before_arg : FormatOptions → List Comment → Visitor → Visitor
unfolding visit_comments
before_arg opts cs v =
    let v1 = if ltb opts.indent_width_threshold v.pos then line_break opts v else v in
    let v2 = set_has_comments cs v1 in if opts.break_lines then visit_comments opts cs v2 else v2

-- The indent of the arguments that are not on one line.
abbrev pub indent_args : FormatOptions → Bool → ℕ → Visitor → Visitor
indent_args opts wrap longest v =
    if wrap || ltb opts.max_width_threshold (v.pos + longest)
    then v ▹ indent_in ▹ line_break opts
    else push_indent v

-- The widest argument of those on one line, where the last one goes from `start` to `v`.
abbrev pub longest_of : ℕ → ℕ → Visitor → ℕ
longest_of longest start v = larger longest (v.pos - start)

abbrev pub break_if : Bool → FormatOptions → Visitor → Visitor
break_if b opts v = if b then line_break opts v else v

-- The arguments on one line if they fit there, and else broken.
abbrev pub choose : Bool → Visitor → Visitor → Visitor → Visitor
choose fit v one_line broken = if fit then merge v one_line else broken

-- A column, whose trial on one line is `one_line` and whose text on a new line is `broken`.
abbrev pub column_fits : FormatOptions → Bytes → Visitor → Visitor → Bool
column_fits opts as_name v one_line =
    fits opts v one_line
    && (equal as_name []
        || ltb (reported opts v one_line one_line.max_width + 3 + length as_name)
            opts.max_width_threshold)

abbrev pub comments_of : ConditionOperand → List Comment
comments_of (negated cs c) = cs
comments_of (operand cs a) = cs
comments_of (compared cs a op b) = cs

abbrev pub push_order : Option (Bytes × Bool) → FormatOptions → Visitor → Visitor
push_order none opts v = v
push_order (some (name, desc)) opts v =
    let v1 = v ▹ line_break opts ▹ push (codes "ORDER BY ") ▹ push name in
    if desc then push (codes " DESC ") v1 else v1

module _ (numbers : Numbers) where
  abbrev pub push_limit : Option ℤ → FormatOptions → Visitor → Visitor
  push_limit none opts v = v
  push_limit (some limit) opts v =
      v ▹ line_break opts ▹ push (codes "LIMIT " ++ numbers.format_int limit ++ space)
