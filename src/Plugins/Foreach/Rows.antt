-- ===== src/Plugins/Foreach/Rows.antt =====
-- The rows of `foreach` (plugins/foreach.go), counted: those that pass a test `p`.
use vfilter.Base.{
  ℕ, ◌+◌, ◌≤◌, Bool, false, Option, none, some, List, [], ◌∷◌, ◌++◌, length, if◌then◌else◌, ◌≡◌,
  refl, ap, ◌∙◌, arith,
}
use vfilter.Base.Int.{ℤ, pos, negsuc}
use vfilter.Plugins.Foreach.{
  Loop, sending, emitting, ended, Worker, idle, running, stopped, Pool, new_worker_pool, begin,
  rows_of, next_loop, Step, take_row, end_rows, emit_row, run_scope, send_row, end_query,
  end_worker, close_output, cancel, leave_rows, leave_row, leave_query, leave_worker, Run, here,
  later, workers_of,
}
use vfilter.Plugins.Foreach.Workers.{total, shift, sent, total_idle, in_sent, in_running}
use vfilter.Plugins.Foreach.Sound.{IsSound, is_over, is_ended, holds, begin-IsSound, Step-IsSound}

no_rows : {Row : Type 0} (rows : List Row) → length rows ≡ 0 → rows ≡ []
no_rows [] e = refl
no_rows (r ∷ rows) e = absurd (omega arith)

-- The rows that are to be sent, one query after the other.
abbrev pub expected : {Row : Type 0} → (Row → Row) → Option (Row → List Row) → List Row → List Row
expected fetch query [] = []
expected fetch query (row ∷ rows) = rows_of fetch query (fetch row) ++ expected fetch query rows

module _ {Row : Type 0} (fetch : Row → Row) (query : Option (Row → List Row)) where
  -- Nothing undoes the cancelling.
  pub Step-uncancelled :
      {s t : Pool Row} → Step fetch query s t → t.is_cancelled ≡ false → s.is_cancelled ≡ false
  Step-uncancelled (cancel e) h = e
  Step-uncancelled (take_row row rows e f) h = h
  Step-uncancelled (end_rows e f) h = h
  Step-uncancelled (emit_row row e) h = h
  Step-uncancelled (run_scope row before after e f) h = h
  Step-uncancelled (send_row row rows before after f) h = h
  Step-uncancelled (end_query before after f) h = h
  Step-uncancelled (end_worker before after e f) h = h
  Step-uncancelled (close_output e f) h = h
  Step-uncancelled (leave_rows c e) h = h
  Step-uncancelled (leave_row row c e) h = h
  Step-uncancelled (leave_query rows before after c f) h = h
  Step-uncancelled (leave_worker before after c f) h = h

module _ {Row : Type 0} (p : Row → Bool) where
  abbrev pub passing : List Row → ℕ
  passing [] = 0
  passing (r ∷ rs) = (if p r then 1 else 0) + passing rs

  passing-append : (rs qs : List Row) → passing (rs ++ qs) ≡ passing rs + passing qs
  passing-append [] qs = omega arith
  passing-append (r ∷ rs) qs = omega (arith, passing-append rs qs)

  pool-total : (m : Worker Row → ℕ) (z : ℤ) → m idle ≡ 0 → total m (new_worker_pool z) ≡ 0
  pool-total m (pos n) e = total_idle m e n
  pool-total m (negsuc n) e = refl

  module _ (fetch : Row → Row) (query : Option (Row → List Row)) where
    -- The rows that the input comes to.
    abbrev pub due : List Row → ℕ
    due [] = 0
    due (row ∷ rows) = passing (rows_of fetch query (fetch row)) + due rows

    abbrev loop_tally : Loop Row → ℕ
    loop_tally (sending row) = passing (rows_of fetch query row)
    loop_tally (emitting row) = passing (row ∷ [])
    loop_tally _ = 0

    -- What was sent, and what is still to be sent.
    abbrev tally : Pool Row → ℕ
    tally s = passing s.output + total (sent passing) s.workers + loop_tally s.loop + due s.input

  next_tally :
      (fetch : Row → Row) (query : Option (Row → List Row)) (row : Row)
      → loop_tally fetch query (next_loop fetch query row) ≡ passing (rows_of fetch query row)
  next_tally fetch none row = refl
  next_tally fetch (some q) row = refl

  module _ (fetch : Row → Row) (query : Option (Row → List Row)) where
    Step-tally :
        {s t : Pool Row}
        → Step fetch query s t
        → (tally fetch query t ≤ tally fetch query s)
          × (t.is_cancelled ≡ false → tally fetch query t ≡ tally fetch query s)
    Step-tally {s} (take_row row rows e f) =
        let a = ap (loop_tally fetch query) e in
        let b = ap (due fetch query) f in
        let c = next_tally fetch query (fetch row) in
        (omega (arith, a, b, c), λ _. omega (arith, a, b, c))
    Step-tally {s} (end_rows e f) =
        let a = ap (loop_tally fetch query) e in (omega (arith, a), λ _. omega (arith, a))
    Step-tally {s} (emit_row row e) =
        let a = ap (loop_tally fetch query) e in
        let b = passing-append s.output (row ∷ []) in
        (omega (arith, a, b), λ _. omega (arith, a, b))
    Step-tally {s} (run_scope row before after e f) =
        let a = ap (loop_tally fetch query) e in
        let b = shift (sent passing) before idle (running (rows_of fetch query row)) after f in
        (omega (arith, a, b), λ _. omega (arith, a, b))
    Step-tally {s} (send_row row rows before after f) =
        let a = passing-append s.output (row ∷ []) in
        let b = shift (sent passing) before (running (row ∷ rows)) (running rows) after f in
        (omega (arith, a, b), λ _. omega (arith, a, b))
    Step-tally {s} (end_query before after f) =
        let b = shift (sent passing) before (running []) idle after f in
        (omega (arith, b), λ _. omega (arith, b))
    Step-tally {s} (end_worker before after e f) =
        let b = shift (sent passing) before idle stopped after f in
        (omega (arith, b), λ _. omega (arith, b))
    Step-tally {s} (close_output e h) =
        let a = ap (loop_tally fetch query) e in (omega (arith, a), λ _. omega (arith, a))
    Step-tally {s} (cancel e) = (omega arith, λ h. absurd (ground arith))
    Step-tally {s} (leave_rows c e) =
        let a = ap (loop_tally fetch query) e in
        (omega (arith, a), λ h. absurd (ground (arith, c, h)))
    Step-tally {s} (leave_row row c e) =
        let a = ap (loop_tally fetch query) e in
        (omega (arith, a), λ h. absurd (ground (arith, c, h)))
    Step-tally {s} (leave_query rows before after c f) =
        let b = shift (sent passing) before (running rows) idle after f in
        (omega (arith, b), λ h. absurd (ground (arith, c, h)))
    Step-tally {s} (leave_worker before after c f) =
        let b = shift (sent passing) before idle stopped after f in
        (omega (arith, b), λ h. absurd (ground (arith, c, h)))

    Run-tally :
        {s t : Pool Row}
        → Run fetch query s t
        → (tally fetch query t ≤ tally fetch query s)
          × (t.is_cancelled ≡ false → tally fetch query t ≡ tally fetch query s)
    Run-tally here = (omega arith, λ e. refl)
    Run-tally (later run step) =
        let (a, b) = Run-tally run in
        let (c, d) = Step-tally step in
        (omega (arith, a, c), λ h. d h ∙ b (Step-uncancelled fetch query step h))

    due-expected : (rows : List Row) → due fetch query rows ≡ passing (expected fetch query rows)
    due-expected [] = refl
    due-expected (row ∷ rows) = omega (
      arith,
      due-expected rows,
      passing-append (rows_of fetch query (fetch row)) (expected fetch query rows),
    )

    begin-tally :
        (rows : List Row) (asynchronous : Bool) (workers : ℤ)
        → tally fetch query (begin rows asynchronous workers) ≡ passing (expected fetch query rows)
    begin-tally rows asynchronous workers =
        omega (
          arith,
          due-expected rows,
          pool-total (sent passing) (workers_of asynchronous workers) refl,
        )

module _ {Row : Type 0} (fetch : Row → Row) (query : Option (Row → List Row)) where
  pub Run-IsSound : {n : ℕ} {s t : Pool Row} → IsSound n s → Run fetch query s t → IsSound n t
  Run-IsSound x here = x
  Run-IsSound x (later run step) = Step-IsSound fetch query (Run-IsSound x run) step

  -- However the loop, the workers and the consumer interleave, no row is sent twice and none is made up, whether
  -- the context is cancelled or not: of the rows that pass a test, no more are sent than all queries have.
  pub Run-at_most :
      (rows : List Row) (asynchronous : Bool) (workers : ℤ) (t : Pool Row)
      → Run fetch query (begin rows asynchronous workers) t
      → (p : Row → Bool) → passing p t.output ≤ passing p (expected fetch query rows)
  Run-at_most rows asynchronous workers t run p =
      omega (
        arith,
        (Run-tally p fetch query run).0,
        begin-tally p fetch query rows asynchronous workers,
      )

  -- When the output is closed and nobody has cancelled, the rows that were sent are those of all queries, whatever
  -- the number of workers and however they interleave: for each test, as many pass it. And every child scope
  -- that was opened is closed.
  pub Run-rows :
      (rows : List Row) (asynchronous : Bool) (workers : ℤ) (t : Pool Row)
      → Run fetch query (begin rows asynchronous workers) t
      → t.loop ≡ ended
      → t.is_cancelled ≡ false
      → (p : Row → Bool)
      → (passing p t.output ≡ passing p (expected fetch query rows)) × (t.opened ≡ t.shut)
  Run-rows rows asynchronous workers t run e u p =
      let x = Run-IsSound (begin-IsSound rows asynchronous workers) run in
      let out = x.finished (ap is_ended e) in
      let none = no_rows t.input (x.exhausted u (ap is_over e)) in
      (
        omega (
          arith,
          (Run-tally p fetch query run).1 u,
          begin-tally p fetch query rows asynchronous workers,
          ap (loop_tally p fetch query) e,
          ap (due p fetch query) none,
          in_sent (passing p) t.workers out,
        ),
        omega (arith, x.held, ap holds e, in_running t.workers out),
      )
