-- ===== src/Visitor/Writes.antt =====
-- What a step of the printing of queries (visitor.go) writes.
use vfilter.Base.{
  ℕ, zero, suc, ◌+◌, ◌≤◌, Bool, true, false, ◌||◌, List, [], ◌∷◌, ◌++◌, append-nil, append_assoc,
  length-append, ◌-◌, suc, ◌<◌, Bytes, equal, equal_iff, length, ltb, if◌then◌else◌, ◌≡◌, refl, sym,
  ap, ◌∙◌, arith,
}
use vfilter.Visitor.{
  FormatOptions, Visitor, push, pop, push_indent, indent_in, pop_indent, line_break, new_line,
  at_line_start, needs_space, space, newline, spaces, last_or, init, last_indent,
}
use vfilter.Visitor.Tokens.{Token, token_texts, texts, commented, is_soft, hard, ◌⊕◌, word}

pub hard-append : (s t : List Bytes) → hard (s ++ t) ≡ hard s ++ hard t
hard-append [] t = refl
hard-append (x ∷ s) t = ground (arith, hard-append s t)

texts-append : (b : Bool) (s t : List Token) → texts b (s ++ t) ≡ texts b s ++ texts b t
texts-append b [] t = refl
texts-append b (x ∷ s) t =
    ap (◌++◌ (token_texts b x)) (texts-append b s t)
    ∙ sym (append_assoc (token_texts b x) (texts b s) (texts b t))

commented-append : (s t : List Token) → commented (s ++ t) ≡ (commented s || commented t)
commented-append [] t = refl
commented-append (x ∷ s) t = ground (arith, commented-append s t)

pub spaces_soft : (n : ℕ) → is_soft (spaces n) ≡ true
spaces_soft zero = refl
spaces_soft (suc n) = spaces_soft n

init-last : (xs : List Bytes) → last_or [] xs ≡ space → hard (init xs) ≡ hard xs
init-last [] h = refl
init-last (x ∷ []) h = sym (ap (λ t. hard (t ∷ [])) h)
init-last (x ∷ y ∷ xs) h = ap (λ ts. if is_soft x then ts else x ∷ ts) (init-last (y ∷ xs) h)

init-snoc : (xs : List ℕ) (n : ℕ) → init (xs ++ n ∷ []) ≡ xs
init-snoc [] n = refl
init-snoc (x ∷ []) n = refl
init-snoc (x ∷ y ∷ xs) n = ap (◌∷◌ x) (init-snoc (y ∷ xs) n)

-- The step writes the tokens and restores the indents; it never makes the widest line narrower or takes
-- back the break of a line, and breaks no line where lines are not broken.
pub record Wrote (b : Bool) (v w : Visitor) (ts : List Token) : Type 0 where
  pub printed : hard w.fragments ≡ hard v.fragments ++ hard (texts b ts)
  pub flagged : w.has_comments ≡ (v.has_comments || commented ts)
  pub restored : w.indents ≡ v.indents
  pub widened : v.max_width ≤ w.max_width
  pub grown : length v.line_breaks ≤ length w.line_breaks
  pub unbroken : b ≡ false → w.line_breaks ≡ v.line_breaks

-- The step writes white space at most.
pub record Soft (b : Bool) (v w : Visitor) : Type 0 where
  pub printed : hard w.fragments ≡ hard v.fragments
  pub flagged : w.has_comments ≡ v.has_comments
  pub restored : w.indents ≡ v.indents
  pub widened : v.max_width ≤ w.max_width
  pub grown : length v.line_breaks ≤ length w.line_breaks
  pub unbroken : b ≡ false → w.line_breaks ≡ v.line_breaks

-- And pushes an indent.
pub record Indented (b : Bool) (v w : Visitor) : Type 0 where
  pub printed : hard w.fragments ≡ hard v.fragments
  pub flagged : w.has_comments ≡ v.has_comments
  pub level : ℕ
  pub nested : w.indents ≡ v.indents ++ level ∷ []
  pub widened : v.max_width ≤ w.max_width
  pub grown : length v.line_breaks ≤ length w.line_breaks
  pub unbroken : b ≡ false → w.line_breaks ≡ v.line_breaks

hard-texts :
    (b : Bool) (s t : List Token) → hard (texts b (s ⊕ t)) ≡ hard (texts b s) ++ hard (texts b t)
hard-texts b s t = ap hard (texts-append b s t) ∙ hard-append (texts b s) (texts b t)

infixl 5 ◌▸◌
pub ◌▸◌ :
    {b : Bool} {u v w : Visitor} {s t : List Token}
    → Wrote b u v s
    → Wrote b v w t
    → Wrote b u w (s ⊕ t)
◌▸◌ {b} {u} {v} {w} {s} {t} x y = record {
  printed =
      y.printed
      ∙ ap (λ r. r ++ hard (texts b t)) x.printed
      ∙ append_assoc (hard u.fragments) (hard (texts b s)) (hard (texts b t))
      ∙ sym (ap (◌++◌ (hard u.fragments)) (hard-texts b s t));
  flagged = ground (arith, commented-append s t, x.flagged, y.flagged);
  restored = y.restored ∙ x.restored;
  widened = omega (arith, x.widened, y.widened);
  grown = omega (arith, x.grown, y.grown);
  unbroken = λ e. y.unbroken e ∙ x.unbroken e;
}

infixl 5 ◌▹soft◌
pub ◌▹soft◌ :
    {b : Bool} {u v w : Visitor} {s : List Token} → Wrote b u v s → Soft b v w → Wrote b u w s
x ▹soft y = record {
  printed = y.printed ∙ x.printed;
  flagged = y.flagged ∙ x.flagged;
  restored = y.restored ∙ x.restored;
  widened = omega (arith, x.widened, y.widened);
  grown = omega (arith, x.grown, y.grown);
  unbroken = λ e. y.unbroken e ∙ x.unbroken e;
}

infixl 5 ◌soft▹◌
pub ◌soft▹◌ :
    {b : Bool} {u v w : Visitor} {s : List Token} → Soft b u v → Wrote b v w s → Wrote b u w s
◌soft▹◌ {b} {u} {v} {w} {s} x y = record {
  printed = y.printed ∙ ap (λ r. r ++ hard (texts b s)) x.printed;
  flagged = y.flagged ∙ ap (λ c. c || commented s) x.flagged;
  restored = y.restored ∙ x.restored;
  widened = omega (arith, x.widened, y.widened);
  grown = omega (arith, x.grown, y.grown);
  unbroken = λ e. y.unbroken e ∙ x.unbroken e;
}

pub then-Soft : {b : Bool} {u v w : Visitor} → Soft b u v → Soft b v w → Soft b u w
then-Soft x y = record {
  printed = y.printed ∙ x.printed;
  flagged = y.flagged ∙ x.flagged;
  restored = y.restored ∙ x.restored;
  widened = omega (arith, x.widened, y.widened);
  grown = omega (arith, x.grown, y.grown);
  unbroken = λ e. y.unbroken e ∙ x.unbroken e;
}

pub then-Indented : {b : Bool} {u v w : Visitor} → Indented b u v → Soft b v w → Indented b u w
then-Indented x y = record {
  printed = y.printed ∙ x.printed;
  flagged = y.flagged ∙ x.flagged;
  level = x.level;
  nested = y.restored ∙ x.nested;
  widened = omega (arith, x.widened, y.widened);
  grown = omega (arith, x.grown, y.grown);
  unbroken = λ e. y.unbroken e ∙ x.unbroken e;
}

-- What is written between an indent and its pop.
pub inside :
    {b : Bool} {u v w : Visitor} {s : List Token}
    → Indented b u v
    → Wrote b v w s
    → Wrote b u (pop_indent w) s
unfolding pop_indent
inside {b} {u} {v} {w} {s} x y = record {
  printed = y.printed ∙ ap (λ r. r ++ hard (texts b s)) x.printed;
  flagged = y.flagged ∙ ap (λ c. c || commented s) x.flagged;
  restored = ap init (y.restored ∙ x.nested) ∙ init-snoc u.indents x.level;
  widened = omega (arith, x.widened, y.widened);
  grown = omega (arith, x.grown, y.grown);
  unbroken = λ e. y.unbroken e ∙ x.unbroken e;
}

pub nothing : {b : Bool} {v : Visitor} → Wrote b v v []
nothing {b} {v} = record {
  printed = sym (append-nil (hard v.fragments));
  flagged = ground arith;
  restored = refl;
  widened = omega arith;
  grown = omega arith;
  unbroken = λ e. refl;
}

larger-le : (a b : ℕ) → a ≤ (if ltb a b then b else a)
larger-le a b = ground arith

pub push-Wrote : {b : Bool} (t : Bytes) {v : Visitor} → Wrote b v (push t v) (word t)
unfolding push
push-Wrote t {v} = record {
  printed = hard-append v.fragments (t ∷ []);
  flagged = ground arith;
  restored = refl;
  widened = larger-le v.max_width (v.pos + length t);
  grown = omega arith;
  unbroken = λ e. refl;
}

pub push-Soft : (t : Bytes) → is_soft t ≡ true → {b : Bool} {v : Visitor} → Soft b v (push t v)
unfolding push
push-Soft t h {b} {v} = record {
  printed =
      hard-append v.fragments (t ∷ [])
      ∙ ap (λ c. hard v.fragments ++ (if c then [] else t ∷ [])) h
      ∙ append-nil (hard v.fragments);
  flagged = refl;
  restored = refl;
  widened = larger-le v.max_width (v.pos + length t);
  grown = omega arith;
  unbroken = λ e. refl;
}

pop-Soft : {b : Bool} (v : Visitor) → last_or [] v.fragments ≡ space → Soft b v (pop v)
unfolding pop
pop-Soft v h = record {
  printed = init-last v.fragments h;
  flagged = refl;
  restored = refl;
  widened = omega arith;
  grown = omega arith;
  unbroken = λ e. refl;
}

at_line_start-Soft : {b : Bool} (v : Visitor) → b ≡ true → Soft b v (at_line_start v)
at_line_start-Soft v h = record {
  printed = refl;
  flagged = refl;
  restored = refl;
  widened = omega arith;
  grown = omega (arith, length-append v.line_breaks ((length v.fragments - 1) ∷ []));
  unbroken = λ e. absurd (ground arith);
}

pub same-Soft : {b : Bool} {v : Visitor} → Soft b v v
same-Soft = record {
  printed = refl;
  flagged = refl;
  restored = refl;
  widened = omega arith;
  grown = omega arith;
  unbroken = λ e. refl;
}

new_line-Soft : {b : Bool} (v : Visitor) → b ≡ true → Soft b v (new_line v)
new_line-Soft v h = then-Soft (push-Soft newline refl) (
    then-Soft (at_line_start-Soft _ h)
      (push-Soft (spaces (last_indent v)) (spaces_soft (last_indent v))))

pub if-Soft :
    {b : Bool} (c : Bool) {u v w : Visitor}
    → (c ≡ true → Soft b u v)
    → (c ≡ false → Soft b u w)
    → Soft b u (if c then v else w)
if-Soft true x y = x refl
if-Soft false x y = y refl

pub line_break-Soft :
    (opts : FormatOptions) {v : Visitor} → Soft opts.break_lines v (line_break opts v)
unfolding line_break push pop
line_break-Soft opts {v} =
    if-Soft opts.break_lines
      (λ e.
        then-Soft
          (if-Soft (equal (last_or [] v.fragments) space) (λ h. pop-Soft v ((equal_iff _ _).0 h))
            (λ _. same-Soft))
          (new_line-Soft _ e))
      (λ _.
        if-Soft (needs_space (last_or [] v.fragments)) (λ _. push-Soft space refl) (λ _. same-Soft))

new_line-breaks :
    (v u : Visitor)
    → length u.line_breaks ≡ length v.line_breaks
    → length v.line_breaks < length (new_line u).line_breaks
unfolding push
new_line-breaks v u e =
    omega (arith, e, length-append u.line_breaks ((length (push newline u).fragments - 1) ∷ []))

-- Where lines are broken, a line break is one.
pub line_break-breaks :
    (opts : FormatOptions) (v : Visitor)
    → opts.break_lines ≡ true
    → length v.line_breaks < length (line_break opts v).line_breaks
unfolding line_break pop
line_break-breaks opts v e = rw e (
    new_line-breaks v (if equal (last_or [] v.fragments) space then pop v else v)
      (same (equal (last_or [] v.fragments) space)))
  where
    same : (c : Bool) → length (if c then pop v else v).line_breaks ≡ length v.line_breaks
    same true = refl
    same false = refl

pub push_indent-Indented : {b : Bool} {v : Visitor} → Indented b v (push_indent v)
unfolding push_indent
push_indent-Indented {b} {v} = record {
  printed = refl;
  flagged = refl;
  level = v.pos;
  nested = refl;
  widened = omega arith;
  grown = omega arith;
  unbroken = λ e. refl;
}

pub indent_in-Indented : {b : Bool} {v : Visitor} → Indented b v (indent_in v)
unfolding indent_in
indent_in-Indented {b} {v} = record {
  printed = refl;
  flagged = refl;
  level = last_indent v + 2;
  nested = refl;
  widened = omega arith;
  grown = omega arith;
  unbroken = λ e. refl;
}

pub if-Indented :
    {b : Bool} (c : Bool) {u v w : Visitor}
    → Indented b u v
    → Indented b u w
    → Indented b u (if c then v else w)
if-Indented true x y = x
if-Indented false x y = y
