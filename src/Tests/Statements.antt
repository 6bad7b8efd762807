-- ===== src/Tests/Statements.antt =====
-- Statements, calls with arguments, the sorter and the plugins.
use vfilter.Base.{
  ℕ, ◌+◌, ◌∷◌, [], List, Bool, true, false, not, ◌&&◌, ◌||◌, none, some, Bytes, codes, equal,
  returns, panics, arith, ◌≡◌, ◌==◌, ◌↔◌, refl, if◌then◌else◌,
}
use vfilter.Base.Int.{ℤ, pos, negsuc, ◌≤ℤ◌, ◌<ℤ◌, +ℤ_parts, wrap64}
use vfilter.Value.{Any, nil, integer, int8, int64, other}
use vfilter.Value.Convert.{in_string, to_int64}
use vfilter.Scope.{Vars, emitted, resolve}
use vfilter.Statements.{
  Vql, MultiVql, last_statement, statement, lazy, Stored, stored_expression, Engine, get_statements,
  eval_statement,
}
use vfilter.Statements.Comments.{IsSplit, get_statements-IsSplit}
use vfilter.Statements.Let.{eval_statement-lazy}
use vfilter.Stored.{check_calling_args}
use vfilter.Stored.Arguments.{check_calling_args-missing, is_reported}
use vfilter.Sorter.{less_rows}
use vfilter.Sorter.Order.{less_rows-order}
use vfilter.Plugins.Range.{RangePluginArgs, range_call}
use vfilter.Plugins.Range.Steps.{range_call-IsRange, IsRange}
use vfilter.ArgParser.{Args, FieldParser, Target, parse, parse_fields, int64_parser, any_parser}
use vfilter.ArgParser.Keys.{IsDict, is_some}
use vfilter.ArgParser.Accepts.{accepted, parse-accepts}
use vfilter.Tests.Fixtures.{halves}

abbrev Value : Type 0
Value = Any halves

abbrev tiny : ℕ → Value
tiny n = integer int8 (pos n)

-- LET x = 5
abbrev let_x : Vql ℕ ℕ ℕ
let_x = record {
  let_name = codes "x";
  parameters = none;
  let_operator = lazy;
  stored_query = none;
  expression = some 5;
  query = none;
  comments = [];
}

abbrev two_statements : MultiVql ℕ ℕ ℕ
two_statements = statement (1 ∷ []) let_x (2 ∷ []) (last_statement (3 ∷ []) let_x (4 ∷ []))

get_statements-IsSplit_example :
    IsSplit two_statements (get_statements two_statements)
    × (get_statements (get_statements two_statements).0 ≡ get_statements two_statements)
get_statements-IsSplit_example = get_statements-IsSplit two_statements

-- A row is a name with what is stored there.
abbrev StoredRow : Type 0
StoredRow = Bytes × Stored ℕ ℕ Value

abbrev value_of : Stored ℕ ℕ Value → Value
value_of (stored_expression e name parameters) = other e
value_of (Stored.stored_query query name parameters) = other 0
value_of (Stored.stored_value v) = v

abbrev member_of : StoredRow → Bytes → Value × Bool
member_of (name, stored) field = if equal name field then (value_of stored, true) else (nil, false)

abbrev engine : Engine ℕ ℕ ℕ Value ℕ StoredRow
engine = record {
  reduce = λ e vars s. returns (tiny e, s + 1);
  eval_query = λ query vars s. returns ([], s);
  is_stored_query = λ v. false;
  value_of_query = λ query. other query;
  materialize = λ name v vars s. returns (v, s);
  unquote_ident = λ name. name;
  single = λ name stored. (name, stored);
  format_to_string = λ vql. nil;
}

abbrev empty_vars : Vars StoredRow
empty_vars = record { rows = []; stack_depth = 2 }

eval_statement-lazy_example :
    (vars' : Vars StoredRow) × (eval_statement engine let_x empty_vars 7 ≡ returns ((vars', []), 7))
    × (resolve member_of (codes "y") vars' ≡ (
        if equal (codes "x") (codes "y")
        then (emitted (other 5), true)
        else resolve member_of (codes "y") empty_vars))
eval_statement-lazy_example =
    eval_statement-lazy engine member_of value_of (λ name field stored. refl) let_x empty_vars 7
      (codes "y") refl refl (omega arith)

check_calling_args-missing_example :
    is_reported
      (codes "b")
      (check_calling_args (some (codes "a" ∷ codes "b" ∷ [])) (codes "a" ∷ []))
    ≡ (in_string (codes "a" ∷ codes "b" ∷ []) (codes "b")
        && not (in_string (codes "a" ∷ []) (codes "b")))
unfolding in_string
check_calling_args-missing_example =
    check_calling_args-missing (codes "a" ∷ codes "b" ∷ []) (codes "a" ∷ []) (codes "b") refl refl

-- With an argument too many, the one that is missing is not reported.
hidden_missing_arg :
    is_reported
      (codes "b")
      (check_calling_args (some (codes "a" ∷ codes "b" ∷ [])) (codes "a" ∷ codes "c" ∷ []))
    ≡ false
unfolding check_calling_args in_string
hidden_missing_arg = refl

-- A row is its key.
abbrev key_of : ℕ → Bytes → Value × Bool
key_of row field = (tiny row, true)

less_rows-order_example :
    ((less_rows key_of [] (codes "k") false 3 3 ≡ true) ↔ (pos 3 <ℤ pos 3))
    × ((less_rows key_of [] (codes "k") true 3 3 ≡ true) ↔ (pos 3 ≤ℤ pos 3))
less_rows-order_example =
    less_rows-order key_of [] (codes "k") 3 3 (pos 3) (pos 3)
      (refl, (refl, refl, (omega arith, omega arith)))
      (refl, (refl, refl, (omega arith, omega arith)))

abbrev from_minus_two : RangePluginArgs
from_minus_two = record { start = negsuc 1; stop = pos 3; step = pos 0 }

range_call-IsRange_example :
    (rows : List ℤ) × (range_call 6 (some from_minus_two) ≡ returns rows)
    × IsRange (negsuc 1) (pos 3) (pos 1) rows
range_call-IsRange_example =
    range_call-IsRange from_minus_two 5 (omega arith, omega arith) (omega arith)
      (omega (arith, +ℤ_parts (pos 3) (pos 1))) (omega arith)

-- The arguments of `range`: a required end, given as an integer, and an optional step.
abbrev end_only : Args Value
end_only = record {
  keys = codes "end" ∷ [];
  get = λ k. if equal (codes "end") k then some (tiny 4) else none;
}

end_only-IsDict : IsDict end_only
unfolding in_string
end_only-IsDict = record { keys_distinct = refl; keys_listed = λ k. listed (equal (codes "end") k) }
  where
    listed : (b : Bool) → (b || false) ≡ is_some (if b then some (tiny 4) else none)
    listed true = refl
    listed false = refl

abbrev range_fields : List (FieldParser Value Value)
range_fields =
    record { field = codes "step"; field_idx = 2; required = false; parser = int64_parser }
    ∷ record { field = codes "end"; field_idx = 1; required = true; parser = int64_parser }
    ∷ []

abbrev is_int64 : Value → Bool
is_int64 (integer int64 z) = true
is_int64 v = false

-- The fields 1 and 2 are of the type int64.
abbrev range_target : Target Value
range_target = record { can_set = λ idx v. is_int64 v && (idx == 1 || idx == 2) }

-- A field of any type cannot be set to Go's nil.
abbrev any_target : Target Value
any_target = record { can_set = λ idx v. elim v [ nil ↦ false | _ ↦ true ] }

abbrev any_field : List (FieldParser Value Value)
any_field = record { field = codes "end"; field_idx = 0; required = true; parser = any_parser } ∷ []

nil_panics : parse (record end_only { get = λ k. some nil }) any_target any_field ≡ panics
unfolding parse parse_fields any_parser
nil_panics = refl

parse-accepts_example : accepted (parse end_only range_target range_fields) ≡ true
unfolding in_string int64_parser to_int64 wrap64
parse-accepts_example = parse-accepts end_only range_target range_fields end_only-IsDict refl
