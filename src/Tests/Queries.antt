-- ===== src/Tests/Queries.antt =====
-- Expressions, scopes, queries, groups and aggregates.
use vfilter.Base.{
  ℕ, ◌+◌, ◌≡◌, ◌≢◌, ◌↔◌, refl, inl, List, [], ◌∷◌, map, Bytes, codes, returns, arith, true, false,
  none, some, Bool, ltb, if◌then◌else◌, length, Option, ◌==◌,
}
use mathlib.Core.List.{reverse}
use vfilter.Base.Int.{ℤ, pos, ◌≤ℤ◌, ◌<ℤ◌}
use vfilter.Value.{Any, null, nil, bool, integer, int8}
use vfilter.Expr.{
  CommaExpression, comma, array_end, conjunction, and_end, and_term, OrExpression, disjunction,
  or_end, or_term, double_bar, ConditionOperand, operand, addition, add_end, multiplication,
  factor_end, member, access_end, Operand, bool_literal, symbol_ref, args_end, SymbolRef, op_eq,
  op_ne, op_lt, op_le, op_gt, op_ge, op_diamond,
}
use vfilter.Expr.Reduce.{reduce_and, reduce_or, reduce_comma, compare_values}
use vfilter.Expr.Connectives.{
  reduce_and-short_circuit, reduce_or-short_circuit, FirstFalse, FirstTrue, Disjoined,
}
use vfilter.Expr.Comparisons.{compare_values-Whole}
use vfilter.Scope.{Vars, copy, append_vars, resolve, emitted, walk, check_for_overflow}
use vfilter.Scope.Shadowing.{resolve-meaning, resolve-append_vars, meaning, newest, first_default}
use vfilter.Protocols.Truth.{truth_of}
use vfilter.Select.{Query, process_rows, process_single_row}
use vfilter.Select.Limit.{eval-limit, run, cut}
use vfilter.Grouper.{group, emit, add_rows, add_read, add_row}
use vfilter.Grouper.Bins.{group-bins, bins_of, keys_from, found_rows}
use vfilter.Aggregates.{calls, min_call}
use vfilter.Aggregates.Extremes.{min-least, values, Among, AtMostAll}
use vfilter.Tests.Fixtures.{halves, association_list, counting}

abbrev pub Value : Type 0
Value = Any halves

abbrev pub simple : Operand → ConditionOperand
simple v = operand (addition (multiplication (member v access_end) factor_end) add_end)

abbrev pub only : Operand → OrExpression
only v = disjunction (simple v) or_end

abbrev pub symbol : SymbolRef
symbol = record { symbol = codes "f"; called = true; parameters = true; node = 0 }

-- f() AND FALSE AND f()
reduce_and-short_circuit_example :
    reduce_and counting
      (conjunction (only (symbol_ref symbol args_end)) (
        and_term
          (only (bool_literal (codes "FALSE")))
          (and_term (only (symbol_ref symbol args_end)) and_end)))
      0
    ≡ returns (bool false, 1)
unfolding reduce_comma truth_of
reduce_and-short_circuit_example =
    reduce_and-short_circuit counting (only (symbol_ref symbol args_end))
      (only (bool_literal (codes "FALSE"))) (and_term (only (symbol_ref symbol args_end)) and_end) 0
      1 false (FirstFalse.later_one refl refl (FirstFalse.this_one refl refl))

-- FALSE || f()
reduce_or-short_circuit_example :
    reduce_or counting
      (disjunction
        (simple (bool_literal (codes "FALSE")))
        (or_term double_bar (simple (symbol_ref symbol args_end)) or_end))
      0
    ≡ returns (bool true, 1)
unfolding reduce_comma truth_of
reduce_or-short_circuit_example =
    reduce_or-short_circuit counting (simple (bool_literal (codes "FALSE")))
      (or_term double_bar (simple (symbol_ref symbol args_end)) or_end) (bool false) (bool true) 0 0
      1 refl (Disjoined.later_bars refl (FirstTrue.true_here refl refl))

abbrev tiny : ℕ → Value
tiny n = integer int8 (pos n)

compare_values-Whole_example :
    ((compare_values counting op_eq (tiny 1) (tiny 2) ≡ true) ↔ (pos 1 ≡ pos 2))
    × ((compare_values counting op_ne (tiny 1) (tiny 2) ≡ true) ↔ (pos 1 ≢ pos 2))
    × ((compare_values counting op_lt (tiny 1) (tiny 2) ≡ true) ↔ (pos 1 <ℤ pos 2))
    × ((compare_values counting op_le (tiny 1) (tiny 2) ≡ true) ↔ (pos 1 ≤ℤ pos 2))
    × ((compare_values counting op_gt (tiny 1) (tiny 2) ≡ true) ↔ (pos 2 <ℤ pos 1))
    × ((compare_values counting op_ge (tiny 1) (tiny 2) ≡ true) ↔ (pos 2 ≤ℤ pos 1))
    × ((c d : Any halves) → compare_values counting op_diamond c d ≡ false)
compare_values-Whole_example =
    compare_values-Whole counting (tiny 1) (tiny 2) (pos 1) (pos 2)
      (refl, refl, (omega arith, omega arith)) (refl, refl, (omega arith, omega arith))

abbrev pub call : CommaExpression
call = comma (conjunction (only (symbol_ref symbol args_end)) and_end) array_end

-- A row has the field of its own name.
abbrev has : ℕ → Bytes → Value × Bool
has row field = if ltb row (length field) then (tiny row, true) else (nil, false)

abbrev pub three : Vars ℕ
three = record { rows = 0 ∷ 5 ∷ []; stack_depth = 3 }

resolve-meaning_example : resolve has (codes "ab") three ≡ (
    if ltb three.stack_depth 1000
    then meaning
        (newest has (codes "ab") (reverse three.rows))
        (first_default has (codes "ab") (reverse three.rows))
    else (null, false))
resolve-meaning_example = resolve-meaning has (codes "ab") three

resolve-append_vars_example : resolve has (codes "ab") (append_vars 1 (copy three)) ≡ (
    if (has 1 (codes "ab")).1
    then (emitted (has 1 (codes "ab")).0, true)
    else resolve has (codes "ab") three)
resolve-append_vars_example = resolve-append_vars has (codes "ab") 1 three (omega arith) (inl refl)

abbrev ask : Query
ask = record {
  where_clause = none;
  group_by = none;
  order_by = none;
  order_by_desc = none;
  limit = none;
}

abbrev row_plus : Vars ℕ → ℕ → ℕ
row_plus vars row = row + 10

abbrev clause_value : CommaExpression → Vars ℕ → Value
clause_value e vars = tiny 1

eval-limit_example :
    run [] row_plus clause_value
      (λ row vars. row)
      (λ v. [])
      (λ key desc rows. rows)
      (λ rows. [])
      (record ask { limit = some (pos 0) })
      three
      (1 ∷ 2 ∷ [])
    ≡ cut ask.group_by (pos 0) (
        run [] row_plus clause_value
          (λ row vars. row)
          (λ v. [])
          (λ key desc rows. rows)
          (λ rows. [])
          (record ask { limit = none })
          three
          (1 ∷ 2 ∷ []))
eval-limit_example =
    eval-limit [] row_plus clause_value (λ row vars. row) (λ v. []) (λ key desc rows. rows)
      (λ rows. []) ask (pos 0) three (1 ∷ 2 ∷ [])

-- WHERE ab, where the transformed row of 0 is 1, that of 1 is 0, and the others do not have the name.
abbrev swapped : Vars ℕ → ℕ → ℕ
swapped vars row = if row == 0 then 1 else if row == 1 then 0 else row + 10

abbrev where_ab : CommaExpression → Vars ℕ → Value
where_ab clause vars = (resolve has (codes "ab") vars).0

masked_rows :
    process_rows [] swapped where_ab (λ row vars. row) (some call) three (0 ∷ 1 ∷ 2 ∷ []) ≡ 1 ∷ []
unfolding process_rows process_single_row resolve walk check_for_overflow copy append_vars truth_of
masked_rows = refl

-- A row is put out with the number of the rows of its group so far.
abbrev numbered : ℕ → ℕ → (ℕ × ℕ) × ℕ
numbered row before = ((row, before + 1), before + 1)

-- WHERE rejects the row 9.
abbrev found : ℕ × Bytes → Option (ℕ × Bytes)
found (row, key) = if row == 9 then none else some (row, key)

abbrev read_row : ℕ × Bytes → ℕ → Option (ℕ × Bytes) × ℕ
read_row r context = (found r, context)

abbrev grouped : List (ℕ × Bytes)
grouped = (1, codes "a") ∷ (2, codes "b") ∷ (9, codes "c") ∷ (3, codes "a") ∷ []

grouped_rows : group association_list 0 read_row numbered 7 grouped ≡ (3, 2) ∷ (2, 1) ∷ []
unfolding group emit add_rows add_read add_row
grouped_rows = refl

-- A WHERE with an aggregate counts in the context of the group of the row before: the second row of `b`
-- finds the count that reading the third row has left.
abbrev count_row : ℕ × Bytes → ℕ → Option (ℕ × Bytes) × ℕ
count_row r context = (some r, context + 10)

counted_rows :
    group association_list 0 count_row numbered 7
      ((1, codes "a") ∷ (2, codes "b") ∷ (3, codes "a") ∷ (4, codes "b") ∷ [])
    ≡ (3, 12) ∷ (4, 12) ∷ []
unfolding group emit add_rows add_read add_row
counted_rows = refl

group-bins_example :
    group association_list 0 read_row numbered 7 grouped
    ≡ bins_of association_list 0 read_row numbered
        (keys_from [] (found_rows found grouped))
        (found_rows found grouped)
group-bins_example = group-bins association_list 0 read_row numbered found 7 grouped (λ r c. refl)

abbrev rows_of_two : List (Value × ℤ)
rows_of_two = (tiny 4, pos 4) ∷ (tiny 3, pos 3) ∷ []

min-least_example :
    (w : Value) × (y : ℤ) × ((calls (min_call []) none none (map some (values rows_of_two))).0
      ≡ some w)
    × Among w y rows_of_two
    × AtMostAll y rows_of_two
min-least_example =
    min-least [] (tiny 4) (pos 4) ((tiny 3, pos 3) ∷ []) (refl, refl, (omega arith, omega arith))
      ((refl, refl, (omega arith, omega arith)), tt)
