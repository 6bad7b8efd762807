-- ===== src/Visitor/Document/Widths.antt =====
-- What a wide line does to the text that follows it (visitor.go): the widest line is never forgotten.
use vfilter.Base.{
  ◌≤◌, ◌<◌, Bool, true, false, not, ℕ, List, Bytes, codes, length, ◌≡◌, arith, ◌&&◌, if◌then◌else◌,
}
use vfilter.Visitor.{
  FormatOptions, Visitor, ◌▹◌, push, copy, fits, reported, line_break, pop_indent,
}
use vfilter.Visitor.Parts.{
  Numbers, on_one_line, on_one_line_all, visit_comments, uses_line_mode, indent_args, choose,
  push_comma,
}
use vfilter.Visitor.Print.{
  one_line_args, broken_args, visit_arg, visit_and, visit_column, visit_plugin,
}
use vfilter.Visitor.Syntax.{Comment, AndExpression, expression_column, plugin, Arg, Args, args_next}
use vfilter.Visitor.Writes.{◌▸◌, push-Wrote, line_break-breaks}
use vfilter.Visitor.Steps.{
  visit_comments-Wrote, push_as-Wrote, push_comma-Wrote, comma_before_args-Wrote,
  indent_args-Indented, fits-narrow,
}
use vfilter.Visitor.Layout.{
  visit_and-Wrote, visit_arg-Wrote, one_line_args-Wrote, broken_args-Wrote,
}
use vfilter.Visitor.Document.{Node, visit}
use vfilter.Visitor.Document.Layouts.{visit-Wrote}

choose-breaks :
    {n : ℕ} (c f : Bool) (v one w : Visitor)
    → f ≡ false
    → n < length w.line_breaks
    → n < length (choose (c && f) v one w).line_breaks
choose-breaks true true v one w e h = absurd (ground arith)
choose-breaks false true v one w e h = h
choose-breaks true false v one w e h = h
choose-breaks false false v one w e h = h

module _ (numbers : Numbers) (opts : FormatOptions) (broken : opts.break_lines ≡ true) where
  -- A column does not stay on its line.
  column-breaks :
      (cs : List Comment) (e : AndExpression) (as_name : Bytes) (v : Visitor)
      → opts.max_width_threshold ≤ v.max_width
      → length v.line_breaks
        < length (visit_column numbers opts (expression_column cs e as_name) v).line_breaks
  unfolding visit_column
  column-breaks cs e as_name v wide =
      let v1 = visit_comments opts cs v in
      let x = visit_comments-Wrote opts cs {v = v} in
      let one = visit_and numbers (on_one_line_all opts) e (copy v1) in
      let narrow : fits opts v1 one ≡ false =
        fits-narrow opts v1 (visit_and-Wrote numbers (on_one_line_all opts) e)
          (omega (arith, wide, x.widened)) in
      let y = visit_and-Wrote numbers opts e {v = line_break opts v1} in
      let z =
        push_as-Wrote {b = true} as_name {v = visit_and numbers opts e (line_break opts v1)} in
      rw narrow (omega (arith, x.grown, line_break-breaks opts v1 broken, y.grown, z.grown))

  -- The second argument stands on a line of its own.
  args-break :
      (a b : Arg) (args : Args) (v : Visitor)
      → length v.line_breaks
        < length (broken_args numbers opts true true (args_next a (args_next b args)) v).line_breaks
  unfolding broken_args
  args-break a b args v =
      let x = visit_arg-Wrote numbers opts a {v = v} ▸ push_comma-Wrote in
      let u = push_comma (visit_arg numbers opts a v) in
      let y =
        visit_arg-Wrote numbers opts b {v = line_break opts u}
        ▸ comma_before_args-Wrote args
        ▸ broken_args-Wrote numbers opts true false args in
      omega (arith, x.grown, line_break-breaks opts u broken, y.grown)

  call-breaks :
      {n : ℕ} (wrap : Bool) (longest : ℕ) (a b : Arg) (args : Args) (v : Visitor)
      → n ≤ length v.line_breaks
      → n
        < length
            (v
              ▹ push (codes "(")
              ▹ indent_args opts wrap longest
              ▹ broken_args numbers opts true true (args_next a (args_next b args))
              ▹ push (codes ")")
              ▹ pop_indent).line_breaks
  unfolding pop_indent push
  call-breaks wrap longest a b args v h =
      let u = push (codes "(") v in
      let x = indent_args-Indented opts wrap longest {v = u} in
      omega (arith, h, x.grown, args-break a b args (indent_args opts wrap longest u))

  -- Nor do the arguments of a plugin.
  plugin-breaks :
      (name : Bytes) (a b : Arg) (args : Args) (v : Visitor)
      → opts.max_width_threshold ≤ v.max_width
      → length v.line_breaks
        < length
            (visit_plugin numbers opts
              (plugin name true (args_next a (args_next b args)))
              v).line_breaks
  unfolding visit_plugin
  plugin-breaks name a b args v wide =
      let all = args_next a (args_next b args) in
      let v1 = push name v in
      let x = push-Wrote {b = true} name {v = v} in
      let trial = one_line_args numbers (on_one_line opts) all 0 (v1 ▹ copy ▹ push (codes "(")) in
      let one = push (codes ")") trial.0 in
      let narrow : fits opts v1 one ≡ false =
        fits-narrow opts v1
          (push-Wrote (codes "(")
            ▸ one_line_args-Wrote numbers (on_one_line opts) all 0
            ▸ push-Wrote (codes ")"))
          (omega (arith, wide, x.widened)) in
      let longest = if uses_line_mode name then 0 else reported opts v1 one trial.1 in
      choose-breaks (not (uses_line_mode name)) (fits opts v1 one) v1 one _ narrow
        (call-breaks (uses_line_mode name) longest a b args v1 (omega (arith, x.grown)))

-- Where lines are broken and some line was as wide as the threshold, nothing fits on one line any more: after a
-- visit of any node, each column that is an expression, and each call of a plugin with two arguments or more, is
-- broken over lines, however short its text is.
pub visit-wide :
    (numbers : Numbers) (opts : FormatOptions) (node : Node) (v : Visitor)
    → opts.break_lines ≡ true
    → opts.max_width_threshold ≤ v.max_width
    → (let u = visit numbers opts node v in
        ((cs : List Comment) (e : AndExpression) (as_name : Bytes)
          → length u.line_breaks
            < length (visit_column numbers opts (expression_column cs e as_name) u).line_breaks)
        × ((name : Bytes) (a b : Arg) (args : Args)
            → length u.line_breaks
              < length
                  (visit_plugin numbers opts
                    (plugin name true (args_next a (args_next b args)))
                    u).line_breaks))
visit-wide numbers opts node v broken wide = (
  λ cs e as_name. column-breaks numbers opts broken cs e as_name _ wide_too,
  λ name a b args. plugin-breaks numbers opts broken name a b args _ wide_too,
)
  where
    wide_too : opts.max_width_threshold ≤ (visit numbers opts node v).max_width
    wide_too = let x = visit-Wrote numbers opts node {v = v} in omega (arith, wide, x.widened)
