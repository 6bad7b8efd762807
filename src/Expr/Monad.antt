-- ===== src/Expr/Monad.antt =====
-- Evaluation: code that changes a state of type `S` and may panic.
use vfilter.Base.{◌≡◌, Outcome, returns, panics, hangs}

abbrev pub Eval : Type 0 → Type 0 → Type 0
Eval S A = S → Outcome (A × S)

module _ {S A : Type 0} where
  abbrev pub pure : A → Eval S A
  pure a s = returns (a, s)

  abbrev pub lift : Outcome A → Eval S A
  lift (returns a) s = returns (a, s)
  lift panics s = panics
  lift hangs s = hangs

module _ {S A B : Type 0} where
  infixl 5 ◌>>=◌
  abbrev pub ◌>>=◌ : Eval S A → (A → Eval S B) → Eval S B
  ◌>>=◌ m f s = elim (m s) [ returns (a, t) ↦ f a t | panics ↦ panics | hangs ↦ hangs ]

  pub bind-returns :
      (m : Eval S A) (f : A → Eval S B) (a : A) (s s1 : S)
      → m s ≡ returns (a, s1)
      → (m >>= f) s ≡ f a s1
  bind-returns m f a s s1 e = rw (e, ◌>>=◌)
