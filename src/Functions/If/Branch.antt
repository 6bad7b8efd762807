-- ===== src/Functions/If/Branch.antt =====
-- The branch that `if` (functions/if.go) takes.
use vfilter.Base.{
  Bool, true, false, Option, none, some, if◌then◌else◌, Outcome, returns, panics, hangs, ◌≡◌, refl,
}
use vfilter.Expr.Monad.{Eval, pure, ◌>>=◌}
use vfilter.Functions.If.{Kinds, reduce_once, else_switch, then_switch, if_call}

module _ {S V : Type 0} (kinds : Kinds S V) where
  -- What a LazyExpr is reduced to is no LazyExpr.
  abbrev pub IsSettled : Type 0
  IsSettled =
      (v : V) (m : Eval S V) (s t : S) (r : V)
      → kinds.as_lazy v ≡ some m
      → m s ≡ returns (r, t)
      → kinds.as_lazy r ≡ none

  -- An argument, reduced where it is lazy; null where it is missing.
  abbrev pub value_of : V → Eval S V
  value_of v = if kinds.is_nil v then pure kinds.null else reduce_once kinds v

  switch_settled :
      (b : Bool) (o : Option (Eval S V)) (f : Eval S V → Eval S V) (v : V) (s : S)
      → o ≡ none
      → (if b then pure v else elim o [ some m ↦ f m | none ↦ pure v ]) s ≡ returns (v, s)
  switch_settled true o f v s e = refl
  switch_settled false none f v s e = refl
  switch_settled false (some m) f v s e = cc

  bind_same :
      (o : Outcome (V × S)) (f : V → Eval S V)
      → ((r : V) (t : S) → o ≡ returns (r, t) → f r t ≡ returns (r, t))
      → (elim o [ returns (a, t) ↦ f a t | panics ↦ panics | hangs ↦ hangs ]) ≡ o
  bind_same (returns (r, t)) f h = h r t refl
  bind_same panics f h = refl
  bind_same hangs f h = refl

  abbrev once : V → Option (Eval S V) → Eval S V
  once v none = pure v
  once v (some m) = m

  reduced_settled :
      (v r : V) (s t : S) (o : Option (Eval S V))
      → IsSettled
      → kinds.as_lazy v ≡ o
      → once v o s ≡ returns (r, t)
      → kinds.as_lazy r ≡ none
  reduced_settled v r s t none settled e h = cc
  reduced_settled v r s t (some m) settled e h = settled v m s t r e h

  then_same :
      IsSettled
      → (v : V) (f : V → Eval S V) (s : S)
      → ((r : V) (t : S) → kinds.as_lazy r ≡ none → f r t ≡ returns (r, t))
      → (reduce_once kinds v >>= f) s ≡ reduce_once kinds v s
  then_same settled v f s h =
      bind_same (reduce_once kinds v s) f
        (λ r t e. h r t (reduced_settled v r s t (kinds.as_lazy v) settled refl e))

  if_same :
      (b : Bool) (m n k : Eval S V) (s : S)
      → n s ≡ k s
      → (if b then m else n) s ≡ (if b then m else k) s
  if_same true m n k s e = refl
  if_same false m n k s e = e

  -- `if` reduces the argument that the condition picks, once, and comes to its value; the other argument is never
  -- reduced. This is so where no LazyExpr is reduced to a LazyExpr.
  pub if_call-branch :
      IsSettled
      → (condition : Bool) (then_arg else_arg : V) (s : S)
      → if_call kinds condition then_arg else_arg s
        ≡ value_of (if condition then then_arg else else_arg) s
  unfolding if_call
  if_call-branch settled true t e s = if_same (kinds.is_nil t) _ _ _ s (
      then_same settled t (then_switch kinds e) s
        (λ r u h. switch_settled (kinds.is_stored_query r) (kinds.as_lazy r) _ r u h))
  if_call-branch settled false t e s = if_same (kinds.is_nil e) _ _ _ s (
      then_same settled e (else_switch kinds) s
        (λ r u h. switch_settled (kinds.is_stored_query r) (kinds.as_lazy r) (λ m. m) r u h))
