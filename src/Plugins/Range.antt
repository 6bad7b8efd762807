-- ===== src/Plugins/Range.antt =====
-- The plugin `range` (plugins/range.go). The arguments are those that the argument parser has extracted,
-- or none where it fails. A row is its `_value`; the loop over an int64 is on fuel.
pub mod Steps
use vfilter.Base.{
  ℕ, zero, suc, Bool, true, false, Option, none, some, List, [], ◌∷◌, if◌then◌else◌, Outcome,
  returns, panics, hangs, ◌>>=◌,
}
use vfilter.Base.Int.{ℤ, pos, ltb_ℤ, eqb_ℤ, ◌+ℤ◌, wrap64}

pub record RangePluginArgs : Type 0 where
  pub start : ℤ
  pub stop : ℤ
  pub step : ℤ

unfoldable pub range_loop : ℕ → ℤ → ℤ → ℤ → Outcome (List ℤ)
range_loop zero i stop step = hangs
range_loop (suc fuel) i stop step =
    let rest = range_loop fuel (wrap64 (i +ℤ step)) stop step in
    if ltb_ℤ i stop then (rest >>= λ rows. returns (i ∷ rows)) else returns []

abbrev pub step_of : ℤ → ℤ
step_of step = if eqb_ℤ step (pos 0) then pos 1 else step

unfoldable pub range_call : ℕ → Option RangePluginArgs → Outcome (List ℤ)
unfolding range_loop
range_call fuel none = returns []
range_call fuel (some arg) = range_loop fuel arg.start arg.stop (step_of arg.step)
