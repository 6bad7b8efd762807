-- ===== src/Expr/Keeps.antt =====
-- Relations between states that an evaluation keeps.
use vfilter.Base.{
  Bool, true, false, Outcome, returns, panics, hangs, Halts, List, [], ◌∷◌, Bytes, if◌then◌else◌,
}
use vfilter.Value.{Runtime}
use vfilter.Expr.Monad.{Eval, pure, lift, ◌>>=◌}
use vfilter.Expr.{Argument, lazily, ready}

module _ {S : Type 0} (R : S → S → Type 0) (H : Type 0) {A : Type 0} where
  -- Where the code returns, the state that it leaves is related to the one that it found; that it does
  -- not end is allowed where `H` is.
  abbrev pub After : S → Outcome (A × S) → Type 0
  After s (returns (a, t)) = R s t
  After s panics = Unit
  After s hangs = H

  abbrev pub Keeps : Eval S A → Type 0
  Keeps m = (s : S) → After s (m s)

module _ {S : Type 0} (R : S → S → Type 0) (H : Type 0) where
  -- Arguments of which each that is lazy keeps the relation when it is reduced.
  abbrev pub Safe : {rt : Runtime} → Argument rt S → Type 0
  Safe (lazily m) = Keeps R H m
  Safe (ready v) = Unit

  abbrev pub AllSafe : {rt : Runtime} → List (Bytes × Argument rt S) → Type 0
  AllSafe [] = Unit
  AllSafe ((name, a) ∷ args) = Safe a × AllSafe args

  abbrev pub AfterArgs : {rt : Runtime} → S → Outcome (List (Bytes × Argument rt S) × S) → Type 0
  AfterArgs s (returns (args, t)) = R s t × AllSafe args
  AfterArgs s panics = Unit
  AfterArgs s hangs = H

  -- Building them keeps the relation, and they are such.
  abbrev pub KeepsArgs : {rt : Runtime} → Eval S (List (Bytes × Argument rt S)) → Type 0
  KeepsArgs m = (s : S) → AfterArgs s (m s)

module _ {S : Type 0} (R : S → S → Type 0) (H : Type 0) (reflexive : (s : S) → R s s)
    (transitive : (s t u : S) → R s t → R t u → R s u) where
  pub Keeps-pure : {A : Type 0} (a : A) → Keeps R H (pure a)
  Keeps-pure a s = reflexive s

  pub Keeps-lift : {A : Type 0} (m : Outcome A) → Halts m → Keeps R H (lift m)
  Keeps-lift (returns a) h s = reflexive s
  Keeps-lift panics h s = tt
  Keeps-lift hangs h s = absurd h

  After-trans : {A : Type 0} (s t : S) (r : Outcome (A × S)) → R s t → After R H t r → After R H s r
  After-trans s t (returns (a, u)) h k = transitive s t u h k
  After-trans s t panics h k = tt
  After-trans s t hangs h k = k

  pub Keeps-bind :
      {A B : Type 0} (m : Eval S A) (f : A → Eval S B)
      → Keeps R H m
      → ((a : A) → Keeps R H (f a))
      → Keeps R H (m >>= f)
  Keeps-bind {A = A} m f h k s = go (m s) (h s)
    where
      go :
          (r : Outcome (A × S))
          → After R H s r
          → After R H s (elim r [ returns (a, t) ↦ f a t | panics ↦ panics | hangs ↦ hangs ])
      go (returns (a, t)) q = After-trans s t (f a t) q (k a t)
      go panics q = tt
      go hangs q = q

  pub Keeps-if :
      {A : Type 0} (b : Bool) (m n : Eval S A)
      → Keeps R H m
      → Keeps R H n
      → Keeps R H (if b then m else n)
  Keeps-if true m n h k = h
  Keeps-if false m n h k = k

  AfterArgs-trans :
      {rt : Runtime} (s t : S) (r : Outcome (List (Bytes × Argument rt S) × S))
      → R s t
      → AfterArgs R H t r
      → AfterArgs R H s r
  AfterArgs-trans s t (returns (args, u)) h k = (transitive s t u h k.0, k.1)
  AfterArgs-trans s t panics h k = tt
  AfterArgs-trans s t hangs h k = k

  pub KeepsArgs-after :
      {rt : Runtime} {A : Type 0} (m : Eval S A) (f : A → Eval S (List (Bytes × Argument rt S)))
      → Keeps R H m
      → ((a : A) → KeepsArgs R H (f a))
      → KeepsArgs R H (m >>= f)
  KeepsArgs-after {A = A} m f h k s = go (m s) (h s)
    where
      go :
          (r : Outcome (A × S))
          → After R H s r
          → AfterArgs R H s (elim r [ returns (a, t) ↦ f a t | panics ↦ panics | hangs ↦ hangs ])
      go (returns (a, t)) q = AfterArgs-trans s t (f a t) q (k a t)
      go panics q = tt
      go hangs q = q

  pub KeepsArgs-cons :
      {rt : Runtime} (name : Bytes) (a : Argument rt S) (m : Eval S (List (Bytes × Argument rt S)))
      → Safe R H a
      → KeepsArgs R H m
      → KeepsArgs R H (m >>= λ rest. pure ((name, a) ∷ rest))
  KeepsArgs-cons {rt} name a m h k s = go (m s) (k s)
    where
      go :
          (r : Outcome (List (Bytes × Argument rt S) × S))
          → AfterArgs R H s r
          → AfterArgs R H s (elim r [
            | returns (rest, t) ↦ returns ((name, a) ∷ rest, t)
            | panics ↦ panics
            | hangs ↦ hangs
          ])
      go (returns (rest, t)) q = (q.0, (h, q.1))
      go panics q = tt
      go hangs q = q

  pub Keeps-args :
      {rt : Runtime} {A : Type 0} (m : Eval S (List (Bytes × Argument rt S)))
      (f : List (Bytes × Argument rt S) → Eval S A)
      → KeepsArgs R H m
      → ((args : List (Bytes × Argument rt S)) → AllSafe R H args → Keeps R H (f args))
      → Keeps R H (m >>= f)
  Keeps-args {rt} m f h k s = go (m s) (h s)
    where
      go :
          (r : Outcome (List (Bytes × Argument rt S) × S))
          → AfterArgs R H s r
          → After R H s (elim r [ returns (a, t) ↦ f a t | panics ↦ panics | hangs ↦ hangs ])
      go (returns (a, t)) q = After-trans s t (f a t) q.0 (k a q.1 t)
      go panics q = tt
      go hangs q = q
