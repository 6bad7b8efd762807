-- ===== src/Visitor.antt =====
-- The printing of queries (visitor.go): the state of `Visitor` and its operations. `max_line`, which nothing
-- reads, and the scope, to which only a log is written, are left out.
pub mod Syntax
pub mod Parts
pub mod Print
pub mod Tokens
pub mod Writes
pub mod Steps
pub mod Layout
pub mod Document
use vfilter.Base.{
  ℕ, zero, suc, ◌+◌, ◌-◌, Bool, true, false, not, ◌&&◌, ◌||◌, ◌==◌, Option, none, some, List, [],
  ◌∷◌, ◌++◌, Bytes, codes, equal, length, ltb, if◌then◌else◌,
}

pub record FormatOptions : Type 0 where
  pub indent_width_threshold : ℕ
  pub max_width_threshold : ℕ
  pub args_on_new_line : Bool
  pub break_lines : Bool

abbrev pub to_string_options : FormatOptions
to_string_options = record {
  indent_width_threshold = 0;
  max_width_threshold = 1000000;
  args_on_new_line = false;
  break_lines = false;
}

abbrev pub default_format_options : FormatOptions
default_format_options = record {
  indent_width_threshold = 50;
  max_width_threshold = 80;
  args_on_new_line = true;
  break_lines = true;
}

pub record Visitor : Type 0 where
  pub fragments : List Bytes
  pub indents : List ℕ
  pub line_breaks : List ℕ
  pub pos : ℕ
  pub max_width : ℕ
  pub has_comments : Bool

abbrev pub new_visitor : Visitor
new_visitor = record {
  fragments = [];
  indents = [];
  line_breaks = 0 ∷ [];
  pos = 0;
  max_width = 0;
  has_comments = false;
}

-- The next step on a visitor.
infixl 5 ◌▹◌
abbrev pub ◌▹◌ : Visitor → (Visitor → Visitor) → Visitor
v ▹ f = f v

module _ {ℓ} {A : Type ℓ} where
  -- The last element, and the list without it.
  abbrev pub last_or : A → List A → A
  last_or d [] = d
  last_or d (x ∷ []) = x
  last_or d (x ∷ y ∷ xs) = last_or d (y ∷ xs)

  abbrev pub init : List A → List A
  init [] = []
  init (x ∷ []) = []
  init (x ∷ y ∷ xs) = x ∷ init (y ∷ xs)

abbrev pub space : Bytes
space = codes " "

abbrev pub newline : Bytes
newline = 10 ∷ []

abbrev pub spaces : ℕ → Bytes
spaces zero = []
spaces (suc n) = b' ' ∷ spaces n

abbrev pub larger : ℕ → ℕ → ℕ
larger a b = if ltb a b then b else a

unfoldable pub push : Bytes → Visitor → Visitor
push fragment v = record v {
  fragments = v.fragments ++ fragment ∷ [];
  pos = v.pos + length fragment;
  max_width = larger v.max_width (v.pos + length fragment);
}

unfoldable pub pop : Visitor → Visitor
pop v = record v { fragments = init v.fragments }

-- `merge`, which leaves `has_comments`; a copy has none.
abbrev pub merge : Visitor → Visitor → Visitor
merge v result = record result { has_comments = v.has_comments }

abbrev pub copy : Visitor → Visitor
copy v = record v { has_comments = false }

abbrev pub last_indent : Visitor → ℕ
last_indent v = last_or 0 v.indents

unfoldable pub push_indent : Visitor → Visitor
push_indent v = record v { indents = v.indents ++ v.pos ∷ [] }

unfoldable pub indent_in : Visitor → Visitor
indent_in v = record v { indents = v.indents ++ (last_indent v + 2) ∷ [] }

unfoldable pub pop_indent : Visitor → Visitor
pop_indent v = record v { indents = init v.indents }

abbrev pub last_fragment : Visitor → Bytes
last_fragment v = last_or [] v.fragments

-- The start of a new line.
abbrev pub at_line_start : Visitor → Visitor
at_line_start v = record v { pos = 0; line_breaks = v.line_breaks ++ (length v.fragments - 1) ∷ [] }

abbrev pub new_line : Visitor → Visitor
new_line v = v ▹ push newline ▹ at_line_start ▹ push (spaces (last_indent v))

abbrev pub needs_space : Bytes → Bool
needs_space fragment =
    not (equal fragment space || equal fragment (codes "(") || equal fragment (codes "{"))

unfoldable pub line_break : FormatOptions → Visitor → Visitor
unfolding push pop
line_break opts v =
    if opts.break_lines
    then new_line (if equal (last_fragment v) space then pop v else v)
    else if needs_space (last_fragment v)
    then push space v
    else v

-- The test that the two trials share: what was written on one line has no comments of arguments, is not
-- too wide, and has no line break.
unfoldable pub fits : FormatOptions → Visitor → Visitor → Bool
fits opts v result =
    not (ltb opts.max_width_threshold v.pos)
    && not result.has_comments
    && ltb result.max_width opts.max_width_threshold
    && (length result.line_breaks == length v.line_breaks)

-- The width that a trial reports: `width` is what it has measured.
abbrev pub reported : FormatOptions → Visitor → Visitor → ℕ → ℕ
reported opts v result width =
    if ltb opts.max_width_threshold v.pos
    then v.pos
    else if result.has_comments
    then opts.max_width_threshold
    else width
