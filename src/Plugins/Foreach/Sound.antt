-- ===== src/Plugins/Foreach/Sound.antt =====
-- The states that the steps of `foreach` (plugins/foreach.go) lead to.
use vfilter.Base.{
  ℕ, suc, ◌+◌, Bool, true, false, Option, none, some, List, [], ◌∷◌, ◌++◌, length, ◌≡◌, refl, ap,
  arith,
}
use vfilter.Base.Int.{ℤ, pos, negsuc}
use vfilter.Plugins.Foreach.{
  Loop, sending, waiting, ended, Worker, idle, running, stopped, Pool, begin, new_worker_pool,
  workers_of, rows_of, next_loop, next_opened, Step, take_row, end_rows, emit_row, run_scope,
  send_row, end_query, end_worker, close_output, cancel, leave_rows, leave_row, leave_query,
  leave_worker,
}
use vfilter.Plugins.Foreach.Workers.{
  total, shift, is_out, is_in, is_running, total_idle, total_in, all_stopped_in,
}

module _ {Row : Type 0} where
  -- A loop that takes no more rows, that has ended, and that holds a scope.
  abbrev pub is_over : Loop Row → ℕ
  is_over waiting = 1
  is_over ended = 1
  is_over _ = 0

  abbrev pub is_ended : Loop Row → ℕ
  is_ended ended = 1
  is_ended _ = 0

  abbrev pub holds : Loop Row → ℕ
  holds (sending row) = 1
  holds _ = 0

  -- Of `size` workers.
  pub record IsSound (size : ℕ) (s : Pool Row) : Type 0 where
    pub exhausted : s.is_cancelled ≡ false → is_over s.loop ≡ 1 → length s.input ≡ 0
    pub working : s.is_cancelled ≡ false → is_over s.loop ≡ 0 → total is_out s.workers ≡ 0
    pub finished : is_ended s.loop ≡ 1 → total is_in s.workers ≡ 0
    pub held : s.opened ≡ s.shut + holds s.loop + total is_running s.workers
    pub staffed : total is_out s.workers + total is_in s.workers ≡ size

  pub next-facts :
      (fetch : Row → Row) (query : Option (Row → List Row)) (row : Row) (n : ℕ)
      → (is_over (next_loop fetch query row) ≡ 0)
        × (is_ended (next_loop fetch query row) ≡ 0)
        × (next_opened fetch query n ≡ n + holds (next_loop fetch query row))
  next-facts fetch none row n = (refl, refl, omega arith)
  next-facts fetch (some q) row n = (refl, refl, omega arith)

-- The workers that are started for a number that may be negative.
abbrev pub size_of : ℤ → ℕ
size_of (pos n) = n
size_of (negsuc n) = 0

new_worker_pool-total :
    {Row : Type 0} (m : Worker Row → ℕ) (k : ℕ) (z : ℤ)
    → ((m idle ≡ 0) → total m (new_worker_pool z) ≡ 0)
      × ((m idle ≡ 1) → total m (new_worker_pool z) ≡ size_of z)
new_worker_pool-total m k (pos n) = (λ e. total_idle m e n, λ e. total_in m e n)
new_worker_pool-total m k (negsuc n) = (λ e. refl, λ e. refl)

module _ {Row : Type 0} (rows : List Row) (asynchronous : Bool) (workers : ℤ) where
  pub begin-IsSound :
      IsSound (size_of (workers_of asynchronous workers)) (begin rows asynchronous workers)
  begin-IsSound =
      let z = workers_of asynchronous workers in
      let a = (new_worker_pool-total {Row = Row} is_out 0 z).0 refl in
      let b = (new_worker_pool-total {Row = Row} is_running 0 z).0 refl in
      let c = (new_worker_pool-total {Row = Row} is_in 0 z).1 refl in
      record {
        exhausted = λ u o. absurd (omega arith);
        working = λ u o. a;
        finished = λ o. absurd (omega arith);
        held = omega (arith, b);
        staffed = omega (arith, a, c);
      }

module _ {Row : Type 0} (fetch : Row → Row) (query : Option (Row → List Row)) where
  -- A query that has ended, a worker that has, and a loop that takes no more rows.
  ended_query :
      {n : ℕ} {s : Pool Row}
      → IsSound n s
      → (rows : List Row) (before after : List (Worker Row))
      → s.workers ≡ before ++ running rows ∷ after
      → IsSound n (record s { workers = before ++ idle ∷ after; shut = suc s.shut })
  ended_query x rows before after f =
      let a = shift is_out before (running rows) idle after f in
      let b = shift is_in before (running rows) idle after f in
      let c = shift is_running before (running rows) idle after f in
      record {
        exhausted = x.exhausted;
        working = λ u o. omega (arith, x.working u o, a);
        finished = λ o. omega (arith, x.finished o, b);
        held = omega (arith, x.held, c);
        staffed = omega (arith, x.staffed, a, b);
      }

  ended_worker :
      {n : ℕ} {s : Pool Row}
      → IsSound n s
      → (before after : List (Worker Row)) → s.workers ≡ before ++ idle ∷ after
      → (s.is_cancelled ≡ false → is_over s.loop ≡ 0 → total is_out (before ++ stopped ∷ after) ≡ 0)
      → (is_ended s.loop ≡ 1 → total is_in (before ++ stopped ∷ after) ≡ 0)
      → IsSound n (record s { workers = before ++ stopped ∷ after })
  ended_worker x before after f p q =
      let a = shift is_out before idle stopped after f in
      let b = shift is_in before idle stopped after f in
      let c = shift is_running before idle stopped after f in
      record {
        exhausted = x.exhausted;
        working = p;
        finished = q;
        held = omega (arith, x.held, c);
        staffed = omega (arith, x.staffed, a, b);
      }

  left_loop :
      {n : ℕ} {s : Pool Row}
      → IsSound n s
      → s.is_cancelled ≡ true
      → holds s.loop ≡ 0
      → IsSound n (record s { loop = waiting })
  left_loop x c h = record {
    exhausted = λ u o. absurd (ground (arith, c, u));
    working = λ u o. absurd (omega arith);
    finished = λ o. absurd (omega arith);
    held = omega (arith, x.held, h);
    staffed = x.staffed;
  }

  pub Step-IsSound : {n : ℕ} {s t : Pool Row} → IsSound n s → Step fetch query s t → IsSound n t
  Step-IsSound {n} {s} x (take_row row rows e f) =
      let (a, b, c) = next-facts fetch query (fetch row) s.opened in
      let d = ap is_over e in
      let h = ap holds e in
      record {
        exhausted = λ u o. absurd (omega arith);
        working = λ u o. x.working u d;
        finished = λ o. absurd (omega arith);
        held = omega (arith, x.held);
        staffed = x.staffed;
      }
  Step-IsSound {n} {s} x (end_rows e f) =
      let h = ap holds e in
      record {
        exhausted = λ u o. ap length f;
        working = λ u o. absurd (omega arith);
        finished = λ o. absurd (omega arith);
        held = omega (arith, x.held);
        staffed = x.staffed;
      }
  Step-IsSound {n} {s} x (emit_row row e) =
      let d = ap is_over e in
      let h = ap holds e in
      record {
        exhausted = λ u o. absurd (omega arith);
        working = λ u o. x.working u d;
        finished = λ o. absurd (omega arith);
        held = omega (arith, x.held);
        staffed = x.staffed;
      }
  Step-IsSound {n} {s} x (run_scope row before after e f) =
      let d = ap is_over e in
      let h = ap holds e in
      let v = running (rows_of fetch query row) in
      let a = shift is_out before idle v after f in
      let b = shift is_in before idle v after f in
      let c = shift is_running before idle v after f in
      record {
        exhausted = λ u o. absurd (omega arith);
        working = λ u o. omega (arith, x.working u d, a);
        finished = λ o. absurd (omega arith);
        held = omega (arith, x.held, c);
        staffed = omega (arith, x.staffed, a, b);
      }
  Step-IsSound {n} {s} x (send_row row rows before after f) =
      let a = shift is_out before (running (row ∷ rows)) (running rows) after f in
      let b = shift is_in before (running (row ∷ rows)) (running rows) after f in
      let c = shift is_running before (running (row ∷ rows)) (running rows) after f in
      record {
        exhausted = x.exhausted;
        working = λ u o. omega (arith, x.working u o, a);
        finished = λ o. omega (arith, x.finished o, b);
        held = omega (arith, x.held, c);
        staffed = omega (arith, x.staffed, a, b);
      }
  Step-IsSound x (end_query before after f) = ended_query x [] before after f
  Step-IsSound {n} {s} x (end_worker before after e f) =
      let d = ap is_over e in
      ended_worker x before after f (λ u o. absurd (omega arith))
        (λ o. absurd (omega (arith, ap is_ended e)))
  Step-IsSound {n} {s} x (close_output e h) = record {
    exhausted = λ u o. x.exhausted u (ap is_over e);
    working = λ u o. absurd (omega arith);
    finished = λ o. all_stopped_in s.workers h;
    held = omega (arith, x.held, ap holds e);
    staffed = x.staffed;
  }
  Step-IsSound x (cancel e) = record {
    exhausted = λ u o. absurd (ground (arith, u));
    working = λ u o. absurd (ground (arith, u));
    finished = x.finished;
    held = x.held;
    staffed = x.staffed;
  }
  Step-IsSound x (leave_rows c e) = left_loop x c (ap holds e)
  Step-IsSound x (leave_row row c e) = left_loop x c (ap holds e)
  Step-IsSound x (leave_query rows before after c f) = ended_query x rows before after f
  Step-IsSound {n} {s} x (leave_worker before after c f) =
      ended_worker x before after f (λ u o. absurd (ground (arith, c, u)))
        (λ o. absurd (omega (arith, x.finished o, shift is_in before idle stopped after f)))
