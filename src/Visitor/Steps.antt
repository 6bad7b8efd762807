-- ===== src/Visitor/Steps.antt =====
-- What the steps that the nodes share (visitor.go) write: comments, names, operators, and the choice between a
-- trial on one line and a broken text.
use vfilter.Base.{
  ℕ, ◌+◌, ◌≤◌, Bool, true, false, ◌||◌, Option, none, some, List, [], ◌∷◌, ◌++◌, append-nil,
  append_assoc, Bytes, codes, equal, ltb, if◌then◌else◌, ◌≡◌, refl, sym, ap, subst, ◌∙◌, arith,
}
use vfilter.Base.Int.{ℤ}
use vfilter.Visitor.{FormatOptions, Visitor, copy, fits, space}
use vfilter.Visitor.Parts.{
  Numbers, visit_comment, visit_comments, before_arg, choose, set_has_comments, push_some, push_as,
  push_operator, push_comma, comma_before_args, push_order, push_limit, indent_args, break_if,
}
use vfilter.Visitor.Syntax.{Comment, Args, args_end, args_next}
use vfilter.Visitor.Tokens.{
  Token, text, comments, arg_comments, optional_text, comment_texts, comments_texts, texts,
  commented, hard, ◌⊕◌, word, remarks, arg_remarks, name_tokens, comma_tokens, order_tokens,
  limit_tokens,
}
use vfilter.Visitor.Writes.{
  Wrote, Soft, Indented, ◌▸◌, ◌▹soft◌, ◌soft▹◌, then-Indented, nothing, push-Wrote, push-Soft,
  line_break-Soft, push_indent-Indented, indent_in-Indented, same-Soft, if-Soft, if-Indented,
  same-Soft, if-Soft, if-Indented,
}

-- Steps with different tokens of the same texts.
retold :
    {b : Bool} {v w : Visitor} {s t : List Token}
    → texts b s ≡ texts b t
    → commented s ≡ commented t
    → Wrote b v w s
    → Wrote b v w t
retold {v} e c x = record {
  printed = x.printed ∙ ap (λ r. hard v.fragments ++ hard r) e;
  flagged = x.flagged ∙ ap (λ f. v.has_comments || f) c;
  restored = x.restored;
  widened = x.widened;
  grown = x.grown;
  unbroken = x.unbroken;
}

abbrev option_tokens : Option Bytes → List Token
option_tokens none = []
option_tokens (some t) = word t

push_some-Wrote :
    {b : Bool} (t : Option Bytes) {v : Visitor} → Wrote b v (push_some t v) (option_tokens t)
push_some-Wrote none = nothing
push_some-Wrote (some t) = push-Wrote t

texts_of_three :
    (b : Bool) (x y z : Option Bytes) (ts : List Token)
    → texts b (option_tokens x ⊕ option_tokens y ⊕ option_tokens z ⊕ ts)
      ≡ ((optional_text x ++ optional_text y) ++ optional_text z) ++ texts b ts
texts_of_three b x y z ts = ground arith

three-commented :
    (x y z : Option Bytes) (ts : List Token)
    → commented (option_tokens x ⊕ option_tokens y ⊕ option_tokens z ⊕ ts) ≡ commented ts
three-commented x y z ts = ground arith

pub if-Wrote :
    {b : Bool} {v w x : Visitor} {s t : List Token} (c : Bool)
    → Wrote b v w s
    → Wrote b v x t
    → Wrote b v (if c then w else x) (if c then s else t)
if-Wrote true y z = y
if-Wrote false y z = z

pub when-Wrote :
    {b : Bool} {v : Visitor} {s : List Token} (f : Visitor → Visitor) (c : Bool)
    → Wrote b v (f v) s
    → Wrote b v ((if c then f else λ u. u) v) (if c then s else [])
when-Wrote f true y = y
when-Wrote f false y = nothing

pub push_as-Wrote :
    {b : Bool} (as_name : Bytes) {v : Visitor} → Wrote b v (push_as as_name v) (name_tokens as_name)
push_as-Wrote as_name =
    if-Wrote (equal as_name []) nothing (push-Wrote (codes " AS ") ▸ push-Wrote as_name)

pub push_operator-Wrote :
    {b : Bool} (op : Bytes) {v : Visitor} → Wrote b v (push_operator op v) (word op)
push_operator-Wrote op = (push-Soft space refl soft▹ push-Wrote op) ▹soft push-Soft space refl

pub push_comma-Wrote : {b : Bool} {v : Visitor} → Wrote b v (push_comma v) (word (codes ","))
push_comma-Wrote = push-Wrote (codes ",") ▹soft push-Soft space refl

pub comma_before_args-Wrote :
    {b : Bool} (args : Args) {v : Visitor}
    → Wrote b v (comma_before_args args v) (comma_tokens args)
comma_before_args-Wrote args_end = nothing
comma_before_args-Wrote (args_next a args) = push_comma-Wrote

pub push_order-Wrote :
    (order : Option (Bytes × Bool)) (opts : FormatOptions) {v : Visitor}
    → Wrote opts.break_lines v (push_order order opts v) (order_tokens order)
push_order-Wrote none opts = nothing
push_order-Wrote (some (name, true)) opts =
    (line_break-Soft opts soft▹ push-Wrote (codes "ORDER BY "))
    ▸ push-Wrote name
    ▸ push-Wrote (codes " DESC ")
push_order-Wrote (some (name, false)) opts =
    (line_break-Soft opts soft▹ push-Wrote (codes "ORDER BY ")) ▸ push-Wrote name ▸ nothing

pub push_limit-Wrote :
    (numbers : Numbers) (limit : Option ℤ) (opts : FormatOptions) {v : Visitor}
    → Wrote opts.break_lines v (push_limit numbers limit opts v) (limit_tokens numbers limit)
push_limit-Wrote numbers none opts = nothing
push_limit-Wrote numbers (some limit) opts =
    line_break-Soft opts soft▹ push-Wrote (codes "LIMIT " ++ numbers.format_int limit ++ space)

pub visit_comment-Wrote :
    {b : Bool} (c : Comment) {v : Visitor} → Wrote b v (visit_comment c v) (remarks (c ∷ []))
visit_comment-Wrote {b} c =
    retold
      (texts_of_three b c.comment c.vql_comment c.multi_line []
        ∙ sym (append-nil (comment_texts c ++ [])))
      (three-commented c.comment c.vql_comment c.multi_line [])
      (push_some-Wrote c.comment
        ▸ push_some-Wrote c.vql_comment
        ▸ push_some-Wrote c.multi_line
        ▸ nothing)

pub visit_comments-Wrote :
    (opts : FormatOptions) (cs : List Comment) {v : Visitor}
    → Wrote opts.break_lines v (visit_comments opts cs v) (remarks cs)
unfolding visit_comments
visit_comments-Wrote opts [] = retold refl refl nothing
visit_comments-Wrote opts (c ∷ cs) =
    retold
      (texts_of_three opts.break_lines c.comment c.vql_comment c.multi_line (remarks cs)
        ∙ sym (append_assoc (comment_texts c) (comments_texts cs) []))
      (three-commented c.comment c.vql_comment c.multi_line (remarks cs))
      (push_some-Wrote c.comment
        ▸ push_some-Wrote c.vql_comment
        ▸ push_some-Wrote c.multi_line
        ▹soft line_break-Soft opts
        ▸ visit_comments-Wrote opts cs)

with_breaks : {b c : Bool} {v w : Visitor} {s : List Token} → b ≡ c → Wrote c v w s → Wrote b v w s
with_breaks {b} {c} {v} {w} {s} e x = subst (λ d. Wrote d v w s) (sym e) x

as_flagged :
    (c : Comment) (cs : List Comment) (v : Visitor) {w : Visitor}
    → Wrote true (record v { has_comments = true }) w (remarks (c ∷ cs))
    → Wrote true v w (arg_remarks (c ∷ cs))
as_flagged c cs v x = record {
  printed = x.printed;
  flagged = x.flagged ∙ ground arith;
  restored = x.restored;
  widened = x.widened;
  grown = x.grown;
  unbroken = x.unbroken;
}

arg_comments-Wrote :
    (b : Bool) (opts : FormatOptions) (cs : List Comment) (v : Visitor)
    → b ≡ opts.break_lines
    → Wrote b v
        (if b then visit_comments opts cs (set_has_comments cs v) else set_has_comments cs v)
        (arg_remarks cs)
arg_comments-Wrote true opts [] v e =
    retold refl refl (with_breaks e (visit_comments-Wrote opts []))
arg_comments-Wrote false opts [] v e = retold refl refl nothing
arg_comments-Wrote true opts (c ∷ cs) v e =
    as_flagged c cs v (with_breaks e (visit_comments-Wrote opts (c ∷ cs)))
arg_comments-Wrote false opts (c ∷ cs) v e = record {
  printed = sym (append-nil (hard v.fragments));
  flagged = ground arith;
  restored = refl;
  widened = omega arith;
  grown = omega arith;
  unbroken = λ _. refl;
}

pub before_arg-Wrote :
    (opts : FormatOptions) (cs : List Comment) {v : Visitor}
    → Wrote opts.break_lines v (before_arg opts cs v) (arg_remarks cs)
unfolding before_arg
before_arg-Wrote opts cs {v} =
    if-Soft (ltb opts.indent_width_threshold v.pos) (λ _. line_break-Soft opts) (λ _. same-Soft)
    soft▹ arg_comments-Wrote opts.break_lines opts cs _ refl

pub indent_args-Indented :
    (opts : FormatOptions) (wrap : Bool) (longest : ℕ) {v : Visitor}
    → Indented opts.break_lines v (indent_args opts wrap longest v)
indent_args-Indented opts wrap longest {v} =
    if-Indented (wrap || ltb opts.max_width_threshold (v.pos + longest))
      (then-Indented indent_in-Indented (line_break-Soft opts)) push_indent-Indented

pub break_if-Soft :
    (b : Bool) (opts : FormatOptions) {v : Visitor} → Soft opts.break_lines v (break_if b opts v)
break_if-Soft b opts = if-Soft b (λ _. line_break-Soft opts) (λ _. same-Soft)

pub texts-plain : (b : Bool) (ts : List Token) → commented ts ≡ false → texts b ts ≡ texts false ts
texts-plain b [] h = refl
texts-plain b (text t ∷ ts) h = ap (◌∷◌ t) (texts-plain b ts h)
texts-plain b (comments cs ∷ ts) h = ap (◌++◌ (comments_texts cs)) (texts-plain b ts h)
texts-plain b (arg_comments [] ∷ ts) h = ground (arith, texts-plain b ts h)
texts-plain b (arg_comments (c ∷ cs) ∷ ts) h = ground arith

pub choose-Wrote :
    {b : Bool} {v one broken : Visitor} {ts : List Token} (fit : Bool)
    → (fit ≡ true → one.has_comments ≡ false)
    → Wrote false (copy v) one ts
    → Wrote b v broken ts
    → Wrote b v (choose fit v one broken) ts
choose-Wrote {b} {v} {one} {broken} {ts} true h x y = record {
  printed = x.printed ∙ ap (λ r. hard v.fragments ++ hard r) (sym (texts-plain b ts plain));
  flagged = ground (arith, plain);
  restored = x.restored;
  widened = x.widened;
  grown = x.grown;
  unbroken = λ e. x.unbroken refl;
}
  where
    plain : commented ts ≡ false
    plain = sym x.flagged ∙ h refl
choose-Wrote false h x y = y

pub fits-plain :
    (opts : FormatOptions) (v one : Visitor) → fits opts v one ≡ true → one.has_comments ≡ false
unfolding fits
fits-plain opts v one h = ground arith

pub fits-narrow :
    (opts : FormatOptions) (v : Visitor) {u w : Visitor} {b : Bool} {ts : List Token}
    → Wrote b u w ts
    → opts.max_width_threshold ≤ u.max_width
    → fits opts v w ≡ false
unfolding fits
fits-narrow opts v x wide = ground (arith, x.widened)
