-- ===== src/Plugins/Range/Steps.antt =====
-- The rows of `range`.
use vfilter.Base.{
  ℕ, zero, suc, ◌+◌, ◌≤◌, some, List, [], ◌∷◌, All, length, Outcome, returns, ◌>>=◌, ◌≡◌, refl, ap,
  arith, Bool-cases, inl, inr,
}
use vfilter.Base.Int.{
  ℤ, pos, ltb_ℤ, ◌+ℤ◌, +ℤ_parts, ◌≤ℤ◌, ◌<ℤ◌, pos_part, neg_part, wrap64_self, IsInt64, max_int64,
}
use vfilter.Plugins.Range.{RangePluginArgs, range_loop, step_of, range_call}

-- `n` numbers from `i` on, and the number behind them.
abbrev pub progression : ℕ → ℤ → ℤ → List ℤ
progression zero i step = []
progression (suc n) i step = i ∷ progression n (i +ℤ step) step

abbrev pub advance : ℕ → ℤ → ℤ → ℤ
advance zero i step = i
advance (suc n) i step = advance n (i +ℤ step) step

-- The rows are the numbers from `start` on, a step apart, that are less than `stop`.
pub record IsRange (start stop step : ℤ) (rows : List ℤ) : Type 0 where
  pub steps : rows ≡ progression (length rows) start step
  pub below : All (λ i. i <ℤ stop) rows
  pub reached : stop ≤ℤ advance (length rows) start step

module _ (stop step : ℤ) (up : pos 0 <ℤ step) (room : stop +ℤ step ≤ℤ max_int64) where
  next-IsInt64 : (i : ℤ) → IsInt64 i → i <ℤ stop → IsInt64 (i +ℤ step)
  next-IsInt64 i (lo, hi) h =
      (omega (arith, +ℤ_parts i step), omega (arith, +ℤ_parts i step, +ℤ_parts stop step))

  Ranges : ℤ → Outcome (List ℤ) → Type 0
  Ranges i m = (rows : List ℤ) × (m ≡ returns rows) × IsRange i stop step rows

  cons-Ranges :
      (i : ℤ) (m : Outcome (List ℤ))
      → i <ℤ stop
      → Ranges (i +ℤ step) m
      → Ranges i (m >>= λ rows. returns (i ∷ rows))
  unfolding Ranges
  cons-Ranges i m h (rows, e, q) = (
    i ∷ rows,
    rw e refl,
    record { steps = ap (λ xs. i ∷ xs) q.steps; below = (h, q.below); reached = q.reached },
  )

  range_loop-Ranges :
      (fuel : ℕ) (i : ℤ)
      → IsInt64 i
      → pos_part stop + neg_part i ≤ fuel + pos_part i + neg_part stop
      → Ranges i (range_loop (suc fuel) i stop step)
  unfolding range_loop Ranges
  range_loop-Ranges zero i r f = elim (Bool-cases (ltb_ℤ i stop)) [
    | inl e ↦ absurd (ground arith)
    | inr e ↦ ([], rw e refl, record { steps = refl; below = tt; reached = ground arith })
  ]
  range_loop-Ranges (suc n) i r f = elim (Bool-cases (ltb_ℤ i stop)) [
    | inl e ↦
        let r' = next-IsInt64 i r (ground arith) in
        rw (e, wrap64_self (i +ℤ step) r')
          (cons-Ranges i (range_loop (suc n) (i +ℤ step) stop step) (ground arith)
            (range_loop-Ranges n (i +ℤ step) r' (omega (arith, +ℤ_parts i step))))
    | inr e ↦ ([], rw e refl, record { steps = refl; below = tt; reached = ground arith })
  ]

-- A positive step, or 0 which stands for 1, and a stop with room for a step below 2 ^ 63: the call returns, on
-- fuel for the distance from start to stop and one more, the numbers from start on, a step apart, that
-- are less than stop.
pub range_call-IsRange :
    (arg : RangePluginArgs) (fuel : ℕ)
    → IsInt64 arg.start
    → pos 0 ≤ℤ arg.step
    → arg.stop +ℤ step_of arg.step ≤ℤ max_int64
    → pos_part arg.stop + neg_part arg.start ≤ fuel + pos_part arg.start + neg_part arg.stop
    → (rows : List ℤ) × (range_call (suc fuel) (some arg) ≡ returns rows)
      × IsRange arg.start arg.stop (step_of arg.step) rows
unfolding range_call Ranges
range_call-IsRange arg fuel r up room f =
    range_loop-Ranges arg.stop (step_of arg.step) (up_step arg.step up) room fuel arg.start r f
  where
    up_step : (step : ℤ) → pos 0 ≤ℤ step → pos 0 <ℤ step_of step
    up_step step h = ground arith
