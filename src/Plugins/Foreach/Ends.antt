-- ===== src/Plugins/Foreach/Ends.antt =====
-- How a run of `foreach` (plugins/foreach.go) ends, and how it does not.
use vfilter.Base.{
  ℕ, zero, suc, ◌+◌, ◌≤◌, ◌<◌, Bool, false, Option, none, some, List, [], ◌∷◌, ◌++◌, length, ◌≡◌,
  refl, ap, arith, ◌⊎◌, inl, inr,
}
use vfilter.Base.Int.{ℤ}
use vfilter.Plugins.Foreach.{
  Loop, taking, sending, emitting, waiting, ended, Worker, idle, running, stopped, Pool, begin,
  workers_of, rows_of, next_loop, Step, take_row, end_rows, emit_row, run_scope, send_row,
  end_query, end_worker, close_output, cancel, leave_rows, leave_row, leave_query, leave_worker,
  Run, here, later,
}
use vfilter.Plugins.Foreach.Workers.{total, shift, is_in, none_in, find_in}
use vfilter.Plugins.Foreach.Sound.{IsSound, is_over, is_ended, size_of, begin-IsSound, Step-IsSound}
use vfilter.Plugins.Foreach.Rows.{Run-IsSound, Step-uncancelled}

abbrev pub worker_weight : {Row : Type 0} → Worker Row → ℕ
worker_weight idle = 1
worker_weight (running rs) = 2 + length rs
worker_weight stopped = 0

module _ {Row : Type 0} (fetch : Row → Row) (query : Option (Row → List Row)) where
  abbrev pub loop_weight : Loop Row → ℕ
  loop_weight taking = 2
  loop_weight (sending row) = 5 + length (rows_of fetch query row)
  loop_weight (emitting row) = 3
  loop_weight waiting = 1
  loop_weight ended = 0

  abbrev pub input_weight : List Row → ℕ
  input_weight [] = 0
  input_weight (row ∷ rows) = 4 + length (rows_of fetch query (fetch row)) + input_weight rows

  -- What is left to do while nobody cancels.
  abbrev pub weight : Pool Row → ℕ
  weight s = input_weight s.input + loop_weight s.loop + total worker_weight s.workers

  -- A step that is no cancelling.
  abbrev Next : Pool Row → Type 0
  Next s = (t : Pool Row) × Step fetch query s t × (t.is_cancelled ≡ false)

next-weight :
    {Row : Type 0} (fetch : Row → Row) (query : Option (Row → List Row)) (row : Row)
    → loop_weight fetch query (next_loop fetch query row) ≤ 5 + length (rows_of fetch query row)
next-weight fetch none row = omega arith
next-weight fetch (some q) row = omega arith

module _ {Row : Type 0} (fetch : Row → Row) (query : Option (Row → List Row)) where
  Step-weight :
      {s t : Pool Row}
      → Step fetch query s t
      → t.is_cancelled ≡ false
      → weight fetch query t < weight fetch query s
  Step-weight (take_row row rows e f) u = omega (
    arith,
    ap (loop_weight fetch query) e,
    ap (input_weight fetch query) f,
    next-weight fetch query (fetch row),
  )
  Step-weight (end_rows e f) u = omega (arith, ap (loop_weight fetch query) e)
  Step-weight (emit_row row e) u = omega (arith, ap (loop_weight fetch query) e)
  Step-weight (run_scope row before after e f) u = omega (
    arith,
    ap (loop_weight fetch query) e,
    shift worker_weight before idle (running (rows_of fetch query row)) after f,
  )
  Step-weight (send_row row rows before after f) u =
      omega (arith, shift worker_weight before (running (row ∷ rows)) (running rows) after f)
  Step-weight (end_query before after f) u =
      omega (arith, shift worker_weight before (running []) idle after f)
  Step-weight (end_worker before after e f) u =
      omega (arith, shift worker_weight before idle stopped after f)
  Step-weight (close_output e h) u = omega (arith, ap (loop_weight fetch query) e)
  Step-weight (cancel e) u = absurd (ground (arith, u))
  Step-weight (leave_rows c e) u = absurd (ground (arith, c, u))
  Step-weight (leave_row row c e) u = absurd (ground (arith, c, u))
  Step-weight (leave_query rows before after c f) u = absurd (ground (arith, c, u))
  Step-weight (leave_worker before after c f) u = absurd (ground (arith, c, u))

  abbrev pub steps : {s t : Pool Row} → Run fetch query s t → ℕ
  steps here = 0
  steps (later run step) = suc (steps run)

  Run-weight :
      {s t : Pool Row} (run : Run fetch query s t)
      → t.is_cancelled ≡ false
      → steps run + weight fetch query t ≤ weight fetch query s
  Run-weight here u = omega arith
  Run-weight (later run step) u =
      omega (arith, Step-weight step u, Run-weight run (Step-uncancelled fetch query step u))

module _ {Row : Type 0} (fetch : Row → Row) (query : Option (Row → List Row)) (s : Pool Row)
    (u : s.is_cancelled ≡ false) where
  next_of_query :
      (rows : List Row) (before after : List (Worker Row))
      → s.workers ≡ before ++ running rows ∷ after
      → Next fetch query s
  next_of_query [] before after f = (_, end_query before after f, u)
  next_of_query (row ∷ rows) before after f = (_, send_row row rows before after f, u)

  next_taking : (rows : List Row) → s.loop ≡ taking → s.input ≡ rows → Next fetch query s
  next_taking [] e f = (_, end_rows e f, u)
  next_taking (row ∷ rows) e f = (_, take_row row rows e f, u)

  -- A step of a worker that is in, where `move` is the one of an idle worker.
  next_worker :
      1 ≤ total is_in s.workers
      → ((before after : List (Worker Row))
          → s.workers ≡ before ++ idle ∷ after
          → Next fetch query s)
      → Next fetch query s
  next_worker h move = at (find_in s.workers h)
    where
      at :
          (before : List (Worker Row)) × (w : Worker Row) × (after : List (Worker Row)) × (s.workers
              ≡ before ++ w ∷ after)
            × (is_in w ≡ 1)
          → Next fetch query s
      at (before, idle, after, f, i) = move before after f
      at (before, running rows, after, f, i) = next_of_query rows before after f
      at (before, stopped, after, f, i) = absurd (omega arith)

  next_waiting : (n : ℕ) → s.loop ≡ waiting → total is_in s.workers ≡ n → Next fetch query s
  next_waiting zero e h = (_, close_output e (none_in s.workers h), u)
  next_waiting (suc n) e h =
      next_worker (omega arith) (λ before after f. (_, end_worker before after e f, u))

  next :
      {n : ℕ}
      → IsSound n s
      → 1 ≤ n
      → (l : Loop Row) → s.loop ≡ l
      → is_ended l ≡ 0
      → Next fetch query s
  next x h taking e o = next_taking s.input e refl
  next x h (sending row) e o =
      next_worker (omega (arith, x.staffed, x.working u (ap is_over e)))
        (λ before after f. (_, run_scope row before after e f, u))
  next x h (emitting row) e o = (_, emit_row row e, u)
  next x h waiting e o = next_waiting _ e refl
  next x h ended e o = absurd (omega arith)

module _ {Row : Type 0} (fetch : Row → Row) (query : Option (Row → List Row)) where
  -- The end of a run, which has started in `b`.
  abbrev pub End : Pool Row → Type 0
  End b = (t : Pool Row) × Run fetch query b t × (t.loop ≡ ended) × (t.is_cancelled ≡ false)

  ended_cases : (l : Loop Row) → (l ≡ ended) ⊎ (is_ended l ≡ 0)
  ended_cases ended = inl refl
  ended_cases taking = inr refl
  ended_cases (sending row) = inr refl
  ended_cases (emitting row) = inr refl
  ended_cases waiting = inr refl

  go_on :
      (fuel : ℕ) {n : ℕ} {b s : Pool Row}
      → weight fetch query s ≤ fuel
      → IsSound n s
      → 1 ≤ n
      → s.is_cancelled ≡ false
      → Run fetch query b s
      → End b
  go_on zero {s = s} w x h u run = elim (ended_cases s.loop) [
    | inl e ↦ (s, run, e, u)
    | inr o ↦
        let (t, step, v) = next fetch query s u x h s.loop refl o in
        absurd (omega (arith, w, Step-weight fetch query step v))
  ]
  go_on (suc fuel) {s = s} w x h u run = elim (ended_cases s.loop) [
    | inl e ↦ (s, run, e, u)
    | inr o ↦
        let (t, step, v) = next fetch query s u x h s.loop refl o in
        go_on fuel (omega (arith, w, Step-weight fetch query step v))
          (Step-IsSound fetch query x step) h v (later run step)
  ]

  -- With a worker, and as long as nobody cancels: a run has no more steps than the weight of its start, and
  -- from the state that it has reached there is a run on, without cancelling, to an end, where the output
  -- is closed.
  pub Run-ends :
      (rows : List Row) (asynchronous : Bool) (workers : ℤ) (t : Pool Row)
      → (run : Run fetch query (begin rows asynchronous workers) t)
      → 1 ≤ size_of (workers_of asynchronous workers)
      → t.is_cancelled ≡ false
      → (steps fetch query run ≤ weight fetch query (begin rows asynchronous workers)) × End t
  Run-ends rows asynchronous workers t run h u =
      let x = begin-IsSound rows asynchronous workers in
      (
        omega (arith, Run-weight fetch query run u),
        go_on (weight fetch query t) (omega arith) (Run-IsSound fetch query x run) h u here,
      )

  abbrev tag : Loop Row → ℕ
  tag taking = 0
  tag (sending row) = 1
  tag _ = 2

  -- No worker is in that could take a step.
  nobody :
      {ws : List (Worker Row)} {A : Type 0} (w : Worker Row)
      → is_in w ≡ 1
      → (before after : List (Worker Row)) → ws ≡ before ++ w ∷ after
      → total is_in ws ≡ 0
      → A
  nobody w i before after f h = absurd (omega (arith, i, h, shift is_in before w stopped after f))

  Step-stuck :
      {s t : Pool Row} (row : Row)
      → Step fetch query s t
      → s.loop ≡ sending row
      → total is_in s.workers ≡ 0
      → (t.loop ≡ sending row) × (total is_in t.workers ≡ 0)
  Step-stuck row (cancel c) e h = (e, h)
  Step-stuck row (take_row r rows f g) e h = absurd (omega (arith, ap tag e, ap tag f))
  Step-stuck row (end_rows f g) e h = absurd (omega (arith, ap tag e, ap tag f))
  Step-stuck row (emit_row r f) e h = absurd (omega (arith, ap tag e, ap tag f))
  Step-stuck row (close_output f g) e h = absurd (omega (arith, ap tag e, ap tag f))
  Step-stuck row (leave_rows c f) e h = absurd (omega (arith, ap tag e, ap tag f))
  Step-stuck row (leave_row r c f) e h = absurd (omega (arith, ap tag e, ap tag f))
  Step-stuck row (run_scope r before after g f) e h = nobody idle refl before after f h
  Step-stuck row (send_row r rows before after f) e h =
      nobody (running (r ∷ rows)) refl before after f h
  Step-stuck row (end_query before after f) e h = nobody (running []) refl before after f h
  Step-stuck row (end_worker before after g f) e h = nobody idle refl before after f h
  Step-stuck row (leave_query rows before after c f) e h =
      nobody (running rows) refl before after f h
  Step-stuck row (leave_worker before after c f) e h = nobody idle refl before after f h

  -- A `select` leaves when the context is cancelled, but the send of a scope to the workers is no `select`: once
  -- the last worker has left, a loop that has a scope to send stands there for ever, whatever else happens, and
  -- the output is never closed.
  pub Run-stuck :
      (s t : Pool Row) (row : Row)
      → Run fetch query s t
      → s.loop ≡ sending row
      → total is_in s.workers ≡ 0
      → (t.loop ≡ sending row) × (total is_in t.workers ≡ 0)
  Run-stuck s t row here e h = (e, h)
  Run-stuck s t row (later {t = r} run step) e h =
      let (f, k) = Run-stuck s r row run e h in Step-stuck row step f k
