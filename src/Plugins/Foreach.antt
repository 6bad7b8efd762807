-- ===== src/Plugins/Foreach.antt =====
-- `foreach` (plugins/foreach.go): the loop over the rows, and the workers that run the query, as steps that
-- interleave. `iterate` and the query are the lists of the rows that they send. What the consumer has read is
-- `output`; `opened` and `shut` count the child scopes. The arguments
-- have been extracted, and a missing query is none.
pub mod Workers
pub mod Rows
pub mod Sound
pub mod Ends
use vfilter.Base.{
  ℕ, zero, suc, ◌+◌, Bool, true, false, Option, none, some, List, [], ◌∷◌, ◌++◌, Bytes, equal,
  if◌then◌else◌, ◌≡◌,
}
use vfilter.Base.Int.{ℤ, pos, negsuc}

-- The loop: it takes a row, sends a scope to the workers, sends a row to the consumer, waits for the workers
-- to end, and has closed the output.
pub data Loop (Row : Type 0) : Type 0 where
  taking : Loop Row
  sending emitting : Row → Loop Row
  waiting ended : Loop Row

-- A worker with the rows that its query has still to send.
pub data Worker (Row : Type 0) : Type 0 where
  idle : Worker Row
  running : List Row → Worker Row
  stopped : Worker Row

pub record Pool (Row : Type 0) : Type 0 where
  pub input : List Row
  pub loop : Loop Row
  pub workers : List (Worker Row)
  pub output : List Row
  pub is_cancelled : Bool
  pub opened : ℕ
  pub shut : ℕ

-- The number of workers that are asked for, and those that are started.
abbrev pub workers_of : Bool → ℤ → ℤ
workers_of asynchronous (pos zero) = if asynchronous then pos 100 else pos 1
workers_of asynchronous workers = workers

module _ {Row : Type 0} where
  abbrev pub idle_workers : ℕ → List (Worker Row)
  idle_workers zero = []
  idle_workers (suc n) = idle ∷ idle_workers n

  abbrev pub new_worker_pool : ℤ → List (Worker Row)
  new_worker_pool (pos size) = idle_workers size
  new_worker_pool (negsuc n) = []

  -- The row, or the column of it that is asked for; `null` where it has no such column.
  abbrev pub row_item : (Row → Bytes → Option Row) → Row → Bytes → Row → Row
  row_item associative null column row =
      if equal column []
      then row
      else elim (associative row column) [ some value ↦ value | none ↦ null ]

  abbrev pub begin : List Row → Bool → ℤ → Pool Row
  begin rows asynchronous workers = record {
    input = rows;
    loop = taking;
    workers = new_worker_pool (workers_of asynchronous workers);
    output = [];
    is_cancelled = false;
    opened = 0;
    shut = 0;
  }

  abbrev pub all_stopped : List (Worker Row) → Bool
  all_stopped [] = true
  all_stopped (stopped ∷ ws) = all_stopped ws
  all_stopped (_ ∷ ws) = false

-- With `fetch` for `row_item`, and a query that may be missing.
module _ {Row : Type 0} (fetch : Row → Row) (query : Option (Row → List Row)) where
  -- What is sent for a row.
  abbrev pub rows_of : Row → List Row
  rows_of row = elim query [ some q ↦ q row | none ↦ row ∷ [] ]

  -- What the loop does with a row, and the scope that it copies for it.
  abbrev pub next_loop : Row → Loop Row
  next_loop row = elim query [ some q ↦ sending row | none ↦ emitting row ]

  abbrev pub next_opened : ℕ → ℕ
  next_opened n = elim query [ some q ↦ suc n | none ↦ n ]

  pub data Step (s : Pool Row) : Pool Row → Type 0 where
    take_row :
        (row : Row) (rows : List Row)
        → s.loop ≡ taking
        → s.input ≡ row ∷ rows
        → Step s
            (record s { input = rows; loop = next_loop (fetch row); opened = next_opened s.opened })
    end_rows : s.loop ≡ taking → s.input ≡ [] → Step s (record s { loop = waiting })
    emit_row :
        (row : Row)
        → s.loop ≡ emitting row
        → Step s (record s { loop = taking; output = s.output ++ row ∷ [] })
    run_scope :
        (row : Row) (before after : List (Worker Row))
        → s.loop ≡ sending row
        → s.workers ≡ before ++ idle ∷ after
        → Step s (record s { loop = taking; workers = before ++ running (rows_of row) ∷ after })
    send_row :
        (row : Row) (rows : List Row) (before after : List (Worker Row))
        → s.workers ≡ before ++ running (row ∷ rows) ∷ after
        → Step s
            (record s { workers = before ++ running rows ∷ after; output = s.output ++ row ∷ [] })
    end_query :
        (before after : List (Worker Row))
        → s.workers ≡ before ++ running [] ∷ after
        → Step s (record s { workers = before ++ idle ∷ after; shut = suc s.shut })
    end_worker :
        (before after : List (Worker Row))
        → s.loop ≡ waiting
        → s.workers ≡ before ++ idle ∷ after
        → Step s (record s { workers = before ++ stopped ∷ after })
    close_output :
        s.loop ≡ waiting → all_stopped s.workers ≡ true → Step s (record s { loop = ended })
    cancel : s.is_cancelled ≡ false → Step s (record s { is_cancelled = true })
    -- A `select` that sees the cancelled context returns; a send of a scope is no `select`.
    leave_rows : s.is_cancelled ≡ true → s.loop ≡ taking → Step s (record s { loop = waiting })
    leave_row :
        (row : Row)
        → s.is_cancelled ≡ true
        → s.loop ≡ emitting row
        → Step s (record s { loop = waiting })
    leave_query :
        (rows : List Row) (before after : List (Worker Row))
        → s.is_cancelled ≡ true
        → s.workers ≡ before ++ running rows ∷ after
        → Step s (record s { workers = before ++ idle ∷ after; shut = suc s.shut })
    leave_worker :
        (before after : List (Worker Row))
        → s.is_cancelled ≡ true
        → s.workers ≡ before ++ idle ∷ after
        → Step s (record s { workers = before ++ stopped ∷ after })

  -- The steps of a run.
  pub data Run (s : Pool Row) : Pool Row → Type 0 where
    here : Run s s
    later : {t u : Pool Row} → Run s t → Step t u → Run s u
