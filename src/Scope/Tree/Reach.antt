-- ===== src/Scope/Tree/Reach.antt =====
-- The worlds that copying scopes, adding destructors and closing scopes lead to.
use vfilter.Base.{
  subst, ℕ, zero, suc, ◌<◌, true, none, List, [], ◌∷◌, length, Outcome, returns, panics, hangs, ◌≡◌,
  refl, ◌∙◌, arith,
}
use vfilter.Scope.Tree.{Destructor, World, new_node, new_scope, copy_scope, add_destructor, close}
use vfilter.Scope.Tree.Ranks.{IsRanked, IsNode, IsTargetOf, Returns, close-Returns}
use vfilter.Scope.Tree.Tally.{occurrences-append, occurrences, tally, After, close-Tallies}
use vfilter.Scope.Tree.Copy.{
  found_or_panics, in_range, copied-IsRanked, copied-tally, added-IsRanked, added-tally,
}
use vfilter.Scope.Tree.Shut.{IsShut, close-IsShut}

-- From a new scope; with the destructors that were accepted so far, the last one first. A destructor
-- that closes a scope is given to an older scope.
pub data Reach : List Destructor → World → Type 0 where
  start : Reach [] new_scope
  copied :
      {ds : List Destructor} {w u : World} (id : ℕ)
      → Reach ds w
      → copy_scope id w ≡ returns u
      → Reach ds u
  added :
      {ds : List Destructor} {w u : World} (id : ℕ) (d : Destructor)
      → Reach ds w
      → IsTargetOf id (length w.nodes) d
      → add_destructor id d w ≡ returns (u, true)
      → Reach (d ∷ ds) u
  closed :
      {ds : List Destructor} {w u : World} (id : ℕ)
      → Reach ds w
      → close (length w.nodes) id w ≡ returns u
      → Reach ds u

new_scope-IsRanked : IsRanked new_scope
new_scope-IsRanked zero n e =
    let eq : new_node none ≡ n = cc in
    subst (IsNode 0 1) eq (record { children_above = tt; targets_above = tt; parent_in = tt })
new_scope-IsRanked (suc i) n e = cc

-- The result of a run that is known.
After-returns :
    (P : World → Type 0) (m : Outcome World) (u : World) → m ≡ returns u → After P m → P u
After-returns P m u e h = subst (After P) e h

Returns-returns :
    (len : ℕ) (m : Outcome World) (u : World) → m ≡ returns u → Returns len m → IsRanked u
Returns-returns len m u e h = (subst (Returns len) e h).0

-- `close` on an id that is taken.
close-inside : (fuel id : ℕ) (w u : World) → close fuel id w ≡ returns u → id < length w.nodes
unfolding close
close-inside zero id w u e = absurd (cc)
close-inside (suc fuel) id w u e =
    let (n, at, q) = found_or_panics id w _ u e in in_range w.nodes id n at

Reach-IsRanked : {ds : List Destructor} {w : World} → Reach ds w → IsRanked w
Reach-IsRanked start = new_scope-IsRanked
Reach-IsRanked (copied {w = w} {u} id r e) = copied-IsRanked id w u e (Reach-IsRanked r)
Reach-IsRanked (added {w = w} {u} id d r t e) = added-IsRanked id d w u t e (Reach-IsRanked r)
Reach-IsRanked (closed {w = w} {u} id r e) =
    Returns-returns (length w.nodes) (close (length w.nodes) id w) u e (
      close-Returns (length w.nodes) id w (Reach-IsRanked r)
        (close-inside (length w.nodes) id w u e) (omega arith))

-- In every world that is reached, where a destructor closes only scopes newer than its own, each of the
-- client's destructors has been run or is pending with a scope, as often in all as it was accepted.
pub Reach-tally :
    {ds : List Destructor} {w : World} (k : ℕ) → Reach ds w → tally k w ≡ occurrences k ds
Reach-tally k start = refl
Reach-tally k (copied {w = w} {u} id r e) = copied-tally k id w u e ∙ Reach-tally k r
Reach-tally k (added {ds} {w} {u} id d r t e) =
    omega (arith, added-tally k id d w u e, Reach-tally k r, occurrences-append k (d ∷ []) ds)
Reach-tally k (closed {w = w} {u} id r e) =
    After-returns (λ z. tally k z ≡ tally k w) (close (length w.nodes) id w) u e
      (close-Tallies k (length w.nodes) id w)
    ∙ Reach-tally k r

-- In every world that is reached, where a destructor closes only scopes newer than its own, the close of
-- any scope returns, on fuel for all scopes and without a panic, to a world that is reached so too; there the scope is destroyed and has no destructor left.
pub Reach-close :
    {ds : List Destructor} {w : World} (id : ℕ)
    → Reach ds w
    → id < length w.nodes
    → (u : World) × (close (length w.nodes) id w ≡ returns u) × Reach ds u × IsShut id u
Reach-close {ds} {w} id r h =
    go (close (length w.nodes) id w) refl
      (close-Returns (length w.nodes) id w (Reach-IsRanked r) h (omega arith))
      (close-IsShut (length w.nodes) id w)
  where
    go :
        (m : Outcome World)
        → close (length w.nodes) id w ≡ m
        → Returns (length w.nodes) m
        → After (IsShut id) m
        → (u : World) × (m ≡ returns u) × Reach ds u × IsShut id u
    go (returns u) e v s = (u, refl, closed id r e, s)
    go panics e v s = absurd v
    go hangs e v s = absurd v
