-- ===== src/Tests/Symbols.antt =====
-- Stored expressions, for symbols and for plugins.
use vfilter.Base.{ℕ, ◌+◌, ◌≤◌, ◌≡◌, returns, arith, true, none, length}
use vfilter.Value.{null, other}
use vfilter.Expr.{conjunction, and_end, symbol_ref, args_end}
use vfilter.Expr.Reduce.{reduce_comma}
use vfilter.Expr.Keeps.{Keeps}
use vfilter.Expr.Symbols.{Library, stored_expression, scope_at}
use vfilter.Expr.Symbols.Enough.{reduce_comma-scope_at}
use vfilter.Expr.Symbols.Depth.{scope_at-Keeps}
use vfilter.Tests.Fixtures.{halves, counting}
use vfilter.Tests.Queries.{only, symbol, call, three}

-- LET f(g) = f(), and a function that counts.
abbrev looping : Library halves ℕ ℕ
looping = record {
  scope = counting;
  member_of_row = λ row name. (other 0, true);
  object = λ n. stored_expression (conjunction (only (symbol_ref symbol args_end)) and_end);
  get_function = λ name. none;
  call = λ n node args vars s. returns (null, s + 1);
  call_site = λ n vars. null;
  row_of = λ args. length args;
}

scope_at-Keeps_example : Keeps ◌≤◌ ⊥ (reduce_comma (scope_at looping 1000 three) call)
scope_at-Keeps_example =
    scope_at-Keeps looping ◌≤◌ (λ s. omega arith) (λ s t u h k. omega arith) (λ a k s. omega arith)
      (λ n node args vars h s. omega arith) three call

reduce_comma-scope_at_example :
    reduce_comma (scope_at looping 2000 three) call
    ≡ reduce_comma (scope_at looping 1000 three) call
reduce_comma-scope_at_example = reduce_comma-scope_at looping 2000 three call (omega arith)
