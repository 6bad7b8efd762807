-- ===== src/Base/Panic.antt =====
-- What a run of Go code comes to: a value, a panic, or (in a model on fuel) no end.
use mathlib.Core.List.{List}
use mathlib.Core.Option.{none, some}
use Prim.Native.Nat.{ℕ}
use vfilter.Base.Lists.{get_elem?}

pub data Outcome {ℓ} (A : Type ℓ) : Type ℓ where
  returns : A → Outcome A
  panics hangs : Outcome A

infixl 5 ◌>>=◌
abbrev pub ◌>>=◌ {ℓ κ} : {A : Type ℓ} {B : Type κ} → Outcome A → (A → Outcome B) → Outcome B
returns a >>= f = f a
panics >>= f = panics
hangs >>= f = hangs

-- The code ends, by a value or a panic.
abbrev pub Halts {ℓ} : {A : Type ℓ} → Outcome A → Type 0
Halts (returns a) = Unit
Halts panics = Unit
Halts hangs = ⊥

-- `xs[i]`, which panics out of range.
abbrev pub index {ℓ} : {A : Type ℓ} → List A → ℕ → Outcome A
index xs i = elim (get_elem? xs i) [ none ↦ panics | some x ↦ returns x ]
