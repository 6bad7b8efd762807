-- ===== src/Tests/Workers.antt =====
-- `foreach`, `flatten` and `if` at concrete inputs. For `foreach`: numbers as rows, and a query that sends its row twice.
use vfilter.Base.{
  ℕ, zero, suc, ◌≤◌, Bool, true, false, Option, none, some, List, [], ◌∷◌, Bytes, codes, equal,
  length, if◌then◌else◌, ◌≡◌, refl, ap, arith, ◌==◌, returns, panics, hangs, Outcome, ◌∙◌,
}
use vfilter.Expr.Monad.{Eval}
use vfilter.Functions.If.{Kinds, if_call}
use vfilter.Functions.If.Branch.{IsSettled, if_call-branch}
use vfilter.Plugins.Flatten.{FlattenScope, flatten}
use vfilter.Plugins.Flatten.Spread.{IsDistinct, spread, product, flatten-spread}
use vfilter.Base.Int.{pos, negsuc}
use vfilter.Plugins.Foreach.{
  Pool, sending, ended, stopped, begin, Run, here, later, take_row, run_scope, send_row, end_query,
  end_rows, end_worker, close_output, cancel, leave_worker,
}
use vfilter.Plugins.Foreach.Workers.{total, is_in}
use vfilter.Plugins.Foreach.Rows.{passing, expected, Run-at_most, Run-rows}
use vfilter.Plugins.Foreach.Ends.{steps, weight, End, Run-ends, Run-stuck}

abbrev twice : Option (ℕ → List ℕ)
twice = some (λ r. r ∷ r ∷ [])

abbrev same : ℕ → ℕ
same r = r

abbrev is_three : ℕ → Bool
is_three r = r == 3

-- One row and one worker, to the end.
abbrev at_end : Pool ℕ
at_end = record {
  input = [];
  loop = ended;
  workers = stopped ∷ [];
  output = 3 ∷ 3 ∷ [];
  is_cancelled = false;
  opened = 1;
  shut = 1;
}

whole_run : Run same twice (begin (3 ∷ []) false (pos 0)) at_end
whole_run =
    later
      (later
        (later
          (later
            (later
              (later (later (later here (take_row 3 [] refl refl)) (run_scope 3 [] [] refl refl))
                (send_row 3 (3 ∷ []) [] [] refl))
              (send_row 3 [] [] [] refl))
            (end_query [] [] refl))
          (end_rows refl refl))
        (end_worker [] [] refl refl))
      (close_output refl refl)

-- The context is cancelled and the worker leaves while the loop has a scope to send.
abbrev left_alone : Pool ℕ
left_alone = record {
  input = [];
  loop = sending 3;
  workers = stopped ∷ [];
  output = [];
  is_cancelled = true;
  opened = 1;
  shut = 0;
}

left_alone_run : Run same twice (begin (3 ∷ []) false (pos 1)) left_alone
left_alone_run =
    later (later (later here (take_row 3 [] refl refl)) (cancel refl))
      (leave_worker [] [] refl refl)

-- With a negative number of workers there are none.
abbrev no_workers : Pool ℕ
no_workers = record {
  input = [];
  loop = sending 3;
  workers = [];
  output = [];
  is_cancelled = false;
  opened = 1;
  shut = 0;
}

no_workers_run : Run same twice (begin (3 ∷ []) false (negsuc 4)) no_workers
no_workers_run = later here (take_row 3 [] refl refl)

Run-at_most_example :
    passing is_three (3 ∷ 3 ∷ []) ≤ passing is_three (expected same twice (3 ∷ []))
Run-at_most_example = Run-at_most same twice (3 ∷ []) false (pos 0) at_end whole_run is_three

Run-rows_example :
    (passing is_three (3 ∷ 3 ∷ []) ≡ passing is_three (expected same twice (3 ∷ [])))
    × (at_end.opened ≡ at_end.shut)
Run-rows_example = Run-rows same twice (3 ∷ []) false (pos 0) at_end whole_run refl refl is_three

Run-ends_example :
    (steps same twice whole_run ≤ weight same twice (begin (3 ∷ []) false (pos 0)))
    × End same twice at_end
Run-ends_example = Run-ends same twice (3 ∷ []) false (pos 0) at_end whole_run (omega arith) refl

Run-stuck_example :
    ((record no_workers { is_cancelled = true }).loop ≡ sending 3)
    × (total is_in (record no_workers { is_cancelled = true }).workers ≡ 0)
Run-stuck_example =
    Run-stuck same twice no_workers (record no_workers { is_cancelled = true }) 3
      (later here (cancel refl)) refl refl

-- `flatten` on rows with a column of lists and one of single values, where a value is a list of numbers.
abbrev lists : FlattenScope (List ℕ)
lists = record {
  Dict = List Bytes × (Bytes → Option (List ℕ));
  keys = λ d. d.0;
  get = λ k d. d.1 k;
  updated = λ d k v. (d.0, λ j. if equal k j then some v else d.1 j);
  as_dict = λ v. none;
  iterate = λ v. each v;
  get_members = λ v. [];
  associative = λ v k. none;
  new_dict = ([], λ k. none);
  set = λ k v d. (k ∷ d.0, λ j. if equal k j then some v else d.1 j);
  nil = [];
  keys_updated = λ d i k v e. refl;
  get_updated = λ d j k v. refl;
}
  where
    each : List ℕ → List (List ℕ)
    each [] = []
    each (n ∷ ns) = (n ∷ []) ∷ each ns

abbrev two_columns : List Bytes × (Bytes → Option (List ℕ))
two_columns = (
  codes "a" ∷ codes "bc" ∷ [],
  λ k. if equal k (codes "a") then some (1 ∷ 2 ∷ []) else some (5 ∷ []),
)

abbrev size : Option Bytes → ℕ
size none = 0
size (some k) = suc (length k)

two_columns-IsDistinct : IsDistinct two_columns.0
two_columns-IsDistinct zero zero k e f = refl
two_columns-IsDistinct zero (suc zero) k e f = absurd (omega (arith, ap size e, ap size f))
two_columns-IsDistinct (suc zero) zero k e f = absurd (omega (arith, ap size e, ap size f))
two_columns-IsDistinct (suc zero) (suc zero) k e f = refl
two_columns-IsDistinct (suc (suc i)) j k e f = absurd (omega (arith, ap size e, ap size f))
two_columns-IsDistinct i (suc (suc j)) k e f = absurd (omega (arith, ap size e, ap size f))

flatten-spread_example :
    (flatten lists 2 two_columns
      ≡ returns (spread lists (codes "bc" ∷ codes "a" ∷ []) two_columns two_columns))
    × (length (spread lists (codes "bc" ∷ codes "a" ∷ []) two_columns two_columns)
        ≡ product lists (codes "bc" ∷ codes "a" ∷ []) two_columns)
flatten-spread_example = flatten-spread lists two_columns two_columns-IsDistinct

-- `if` where true is a LazyExpr that comes to false and counts that it was reduced.
abbrev lazy_bits : Kinds ℕ Bool
lazy_bits = record {
  is_nil = λ v. false;
  is_stored_query = λ v. false;
  as_lazy = λ v. if v then some (λ n. returns (false, suc n)) else none;
  null = false;
}

abbrev run_at : ℕ → Option (Eval ℕ Bool) → Outcome (Bool × ℕ)
run_at n none = panics
run_at n (some m) = m n

abbrev bit : Outcome (Bool × ℕ) → ℕ
bit (returns (b, n)) = if b then 1 else 0
bit panics = 0
bit hangs = 0

lazy_bits-IsSettled : IsSettled lazy_bits
lazy_bits-IsSettled v m s t false e h = refl
lazy_bits-IsSettled true m s t true e h = absurd (omega (arith, ap bit (ap (run_at s) e ∙ h)))
lazy_bits-IsSettled false m s t true e h = cc

if_call-branch_example : if_call lazy_bits true true false 6 ≡ returns (false, 7)
if_call-branch_example = if_call-branch lazy_bits lazy_bits-IsSettled true true false 6
