-- ===== src/LazyExpr/Once.antt =====
-- `Reduce` of a lazy expression, called again.
use vfilter.Base.{
  subst, Bool, false, Option, none, some, if◌then◌else◌, Outcome, returns, panics, hangs, ◌≡◌, refl,
  ap,
}
use vfilter.LazyExpr.{LazyExpr, kept, reduce_by, reduce_lazy, reduce_with_scope}

module _ {Scope S V : Type 0} (null_value : V) (is_nil : V → Bool) where
  Kept : Outcome ((V × LazyExpr Scope S V) × S) → Type 0
  Kept (returns ((v, l), t)) =
      is_nil v ≡ false → (u : S) → reduce_lazy null_value is_nil l u ≡ returns ((v, l), u)
  Kept panics = Unit
  Kept hangs = Unit

  reduce_kept :
      (l : LazyExpr Scope S V) (v : V) (u : S)
      → l.value ≡ some v
      → reduce_lazy null_value is_nil l u ≡ returns ((v, l), u)
  unfolding reduce_lazy
  reduce_kept l v u e = ap (λ o. reduce_by null_value is_nil o l u) e

  reduce_by-Kept :
      (o : Option V) (l : LazyExpr Scope S V) (s : S)
      → l.value ≡ o
      → Kept (reduce_by null_value is_nil o l s)
  unfolding Kept
  reduce_by-Kept (some v) l s e = λ n u. reduce_kept l v u e
  reduce_by-Kept none l s e = go (reduce_with_scope null_value is_nil l l.scope s)
    where
      go :
          (m : Outcome (V × S))
          → Kept (elim m [
            | returns (v, t) ↦ returns ((v, record l { value = kept is_nil v }), t)
            | panics ↦ panics
            | hangs ↦ hangs
          ])
      go (returns (v, t)) = λ n u.
          reduce_kept (record l { value = kept is_nil v }) v u
            (ap (λ b. if b then none else some v) n)
      go panics = tt
      go hangs = tt

  -- Once `Reduce` has returned a value that is not nil, it returns that value again in any state, and
  -- evaluates nothing.
  pub reduce_lazy-reduce_lazy :
      (l l' : LazyExpr Scope S V) (v : V) (s t u : S)
      → reduce_lazy null_value is_nil l s ≡ returns ((v, l'), t)
      → is_nil v ≡ false
      → reduce_lazy null_value is_nil l' u ≡ returns ((v, l'), u)
  unfolding reduce_lazy Kept
  reduce_lazy-reduce_lazy l l' v s t u e n = subst Kept e (reduce_by-Kept l.value l s refl) n u
