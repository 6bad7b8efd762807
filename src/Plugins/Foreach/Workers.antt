-- ===== src/Plugins/Foreach/Workers.antt =====
-- The workers of `foreach` (plugins/foreach.go), measured.
use vfilter.Base.{ℕ, zero, suc, ◌+◌, ◌≤◌, true, List, [], ◌∷◌, ◌++◌, ◌≡◌, refl, ap, arith}
use vfilter.Plugins.Foreach.{Worker, idle, running, stopped, idle_workers, all_stopped}

module _ {Row : Type 0} where
  abbrev pub total : (Worker Row → ℕ) → List (Worker Row) → ℕ
  total m [] = 0
  total m (w ∷ ws) = m w + total m ws

  total_at :
      (m : Worker Row → ℕ) (before : List (Worker Row)) (w : Worker Row) (after : List (Worker Row))
      → total m (before ++ w ∷ after) ≡ total m before + m w + total m after
  total_at m [] w after = omega arith
  total_at m (v ∷ before) w after = omega (arith, total_at m before w after)

  -- A worker in the place of another.
  pub shift :
      (m : Worker Row → ℕ) {ws : List (Worker Row)} (before : List (Worker Row)) (w v : Worker Row)
      (after : List (Worker Row))
      → ws ≡ before ++ w ∷ after
      → total m (before ++ v ∷ after) + m w ≡ total m ws + m v
  shift m before w v after e =
      omega (arith, ap (total m) e, total_at m before w after, total_at m before v after)

  -- A worker that has ended, one that has not, one that runs a query, and any.
  abbrev pub is_out : Worker Row → ℕ
  is_out stopped = 1
  is_out _ = 0

  abbrev pub is_in : Worker Row → ℕ
  is_in stopped = 0
  is_in _ = 1

  abbrev pub is_running : Worker Row → ℕ
  is_running (running rs) = 1
  is_running _ = 0

  abbrev pub sent : (List Row → ℕ) → Worker Row → ℕ
  sent m (running rs) = m rs
  sent m _ = 0

  pub total_idle : (m : Worker Row → ℕ) → m idle ≡ 0 → (n : ℕ) → total m (idle_workers n) ≡ 0
  total_idle m e zero = refl
  total_idle m e (suc n) = omega (arith, e, total_idle m e n)

  pub total_in : (m : Worker Row → ℕ) → m idle ≡ 1 → (n : ℕ) → total m (idle_workers n) ≡ n
  total_in m e zero = refl
  total_in m e (suc n) = omega (arith, e, total_in m e n)

  pub all_stopped_in : (ws : List (Worker Row)) → all_stopped ws ≡ true → total is_in ws ≡ 0
  all_stopped_in [] h = refl
  all_stopped_in (stopped ∷ ws) h = omega (arith, all_stopped_in ws h)
  all_stopped_in (idle ∷ ws) h = absurd (ground arith)
  all_stopped_in (running rs ∷ ws) h = absurd (ground arith)

  pub none_in : (ws : List (Worker Row)) → total is_in ws ≡ 0 → all_stopped ws ≡ true
  none_in [] h = refl
  none_in (stopped ∷ ws) h = none_in ws (omega arith)
  none_in (idle ∷ ws) h = absurd (omega arith)
  none_in (running rs ∷ ws) h = absurd (omega arith)

  -- Where no worker is in, none runs a query, and none has rows to send.
  pub in_running : (ws : List (Worker Row)) → total is_in ws ≡ 0 → total is_running ws ≡ 0
  in_running [] h = refl
  in_running (stopped ∷ ws) h = omega (arith, in_running ws (omega arith))
  in_running (idle ∷ ws) h = absurd (omega arith)
  in_running (running rs ∷ ws) h = absurd (omega arith)

  pub in_sent :
      (m : List Row → ℕ) (ws : List (Worker Row)) → total is_in ws ≡ 0 → total (sent m) ws ≡ 0
  in_sent m [] h = refl
  in_sent m (stopped ∷ ws) h = omega (arith, in_sent m ws (omega arith))
  in_sent m (idle ∷ ws) h = absurd (omega arith)
  in_sent m (running rs ∷ ws) h = absurd (omega arith)

  -- A worker that is in.
  pub find_in :
      (ws : List (Worker Row))
      → 1 ≤ total is_in ws
      → (before : List (Worker Row)) × (w : Worker Row) × (after : List (Worker Row)) × (ws
          ≡ before ++ w ∷ after)
        × (is_in w ≡ 1)
  find_in [] h = absurd (omega arith)
  find_in (stopped ∷ ws) h =
      let (before, w, after, e, i) = find_in ws (omega arith) in
      (stopped ∷ before, w, after, ap (◌∷◌ stopped) e, i)
  find_in (idle ∷ ws) h = ([], idle, ws, refl, refl)
  find_in (running rs ∷ ws) h = ([], running rs, ws, refl, refl)
