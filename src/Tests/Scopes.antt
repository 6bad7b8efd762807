-- ===== src/Tests/Scopes.antt =====
-- The tree of scopes, and lazy rows.
use vfilter.Base.{
  ℕ, Bool, true, false, Option, none, some, List, [], ◌∷◌, Bytes, codes, returns, panics, Outcome,
  ◌≡◌, refl, sym, ap, arith, equal, if◌then◌else◌,
}
use vfilter.Scope.{Vars}
use vfilter.Scope.Tree.{
  client, close_scope, World, copy_scope, add_destructor, adopt, close, close_node, leave,
  run_destructors, close_children,
}
use vfilter.Scope.Tree.Tally.{tally}
use vfilter.Scope.Tree.Shut.{IsShut}
use vfilter.Scope.Tree.Reach.{Reach, Reach-tally, Reach-close}
use vfilter.Value.Convert.{in_string}
use vfilter.OrderedDict.{OrderedDict}
use vfilter.Expr.Monad.{Eval, pure}
use vfilter.LazyRow.{LazyRow, new_lazy_row, add_column, get, materialize, Column, transform}
use vfilter.LazyRow.Cache.{materialize-eager, IsPure, Accessed}
use vfilter.LazyRow.Columns.{HasColumns, transform-HasColumns}
use vfilter.Tests.Fixtures.{association_list}

-- A scope with a destructor, which also closes the copy of it; the copy has a destructor.
abbrev two_scopes : World
two_scopes = record {
  nodes =
      record {
        children = some 1 ∷ [];
        children_garbage_count = 0;
        parent = none;
        is_destroyed = false;
        destructors = client 7 ∷ close_scope 1 ∷ [];
      }
      ∷ record {
        children = [];
        children_garbage_count = 0;
        parent = some 0;
        is_destroyed = false;
        destructors = client 8 ∷ [];
      }
      ∷ [];
  log = [];
}

two_scopes-Reach : Reach (client 8 ∷ close_scope 1 ∷ client 7 ∷ []) two_scopes
unfolding copy_scope add_destructor adopt
two_scopes-Reach =
    Reach.added 1 (client 8)
      (Reach.added 0 (close_scope 1)
        (Reach.added 0 (client 7) (Reach.copied 0 Reach.start refl) tt refl) (omega arith) refl)
      tt refl

Reach-tally_example : tally 8 two_scopes ≡ 1
Reach-tally_example = Reach-tally 8 two_scopes-Reach

Reach-close_example :
    (u : World) × (close 2 0 two_scopes ≡ returns u)
    × Reach (client 8 ∷ close_scope 1 ∷ client 7 ∷ []) u
    × IsShut 0 u
Reach-close_example = Reach-close 0 two_scopes-Reach (omega arith)

-- The copy's destructor is run once, and first, although the scope is closed twice.
close_log : Outcome World → List ℕ
close_log (returns w) = w.log
close_log panics = []
close_log Outcome.hangs = []

two_scopes_log : close_log (close 2 0 two_scopes) ≡ 8 ∷ 7 ∷ []
unfolding close close_node leave run_destructors close_children close_log
two_scopes_log = refl

abbrev Numbers : OrderedDict ℕ
Numbers = association_list

-- Two columns that give the scope, the first of which is read in the row's own scope.
abbrev scope_columns : LazyRow ℕ ℕ Numbers
scope_columns =
    add_column Numbers (codes "b") (λ scope s. returns (scope, s))
      (add_column Numbers (codes "a") (λ scope s. returns (scope, s)) (new_lazy_row Numbers 5))

scope_getter :
    (b c : Bool) (getter : ℕ → Eval ℕ ℕ)
    → ◌≡◌ {A = Option (ℕ → Eval ℕ ℕ)}
        (if b
          then some (λ scope s. returns (scope, s))
          else if c
          then some (λ scope s. returns (scope, s))
          else none)
        (some getter)
    → (scope s : ℕ) → getter scope s ≡ returns (scope, s)
scope_getter true c getter e scope s =
    ap (λ (o : Option (ℕ → Eval ℕ ℕ)). elim o [ none ↦ panics | some g ↦ g scope s ]) (sym e)
scope_getter false true getter e scope s =
    ap (λ (o : Option (ℕ → Eval ℕ ℕ)). elim o [ none ↦ panics | some g ↦ g scope s ]) (sym e)
scope_getter false false getter e scope s = cc

scope_columns-IsPure : IsPure Numbers 0 (λ scope name. scope) scope_columns
unfolding add_column new_lazy_row
scope_columns-IsPure = record {
  pure_getters = λ key getter e scope s.
      scope_getter (equal (codes "b") key) (equal (codes "a") key) getter e scope s;
  coherent = λ key v e. cc;
  complete = (refl, (refl, tt));
}

materialize-eager_example :
    materialize Numbers (record scope_columns { cache = (codes "a", 5) ∷ [] }) 6 8
    ≡ returns ((codes "a", 5) ∷ (codes "b", 6) ∷ [], 8)
unfolding get add_column new_lazy_row
materialize-eager_example =
    materialize-eager Numbers 0 (λ scope name. scope) {row = scope_columns} 6 8 scope_columns-IsPure
      (Accessed.read (codes "a") (5, true) 0 0 refl Accessed.unread)

-- SELECT *, a AS b, * of a row with the member `a`.
abbrev members_of : ℕ → List Bytes
members_of row = codes "a" ∷ []

abbrev member_value : ℕ → Bytes → ℕ × Bool
member_value row name = (row, equal name (codes "a"))

abbrev columns : List (Column ℕ ℕ ℕ)
columns =
    record { name = codes "b"; reduce = λ vars. pure 1 }
    ∷ record { name = codes "*"; reduce = λ vars. pure 0 }
    ∷ []

abbrev no_vars : Vars ℕ
no_vars = record { rows = []; stack_depth = 0 }

transform-HasColumns_example :
    HasColumns
      (codes "a" ∷ codes "b" ∷ [])
      (transform Numbers members_of member_value true columns no_vars 4)
unfolding in_string
transform-HasColumns_example =
    transform-HasColumns Numbers members_of member_value true columns no_vars 4
