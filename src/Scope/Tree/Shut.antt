-- ===== src/Scope/Tree/Shut.antt =====
-- The scopes that are destroyed and have no destructor left.
use mathlib.Core.List.{reverse}
use vfilter.Base.{
  subst, ℕ, zero, suc, true, Option, none, some, List, [], ◌∷◌, ◌++◌, get_elem?, ◌==◌, Outcome, ◌≡◌,
  refl, ap, ◌∙◌, arith, Bool-cases, inl, inr,
}
use vfilter.Scope.Tree.{
  Destructor, client, close_scope, Node, World, set, put, without, leave, emptied, close_children,
  run_destructors, close, close_node,
}
use vfilter.Scope.Tree.Ranks.{get_elem?-set_ne}
use vfilter.Scope.Tree.Tally.{After, bind-After, After-node_at}

-- The scope `id` is destroyed, and has no destructor left.
abbrev pub IsShut : ℕ → World → Type 0
IsShut id w =
    (n : Node) × (get_elem? w.nodes id ≡ some n) × (n.is_destroyed ≡ true) × (n.destructors ≡ [])

get_elem?-set_self :
    {A : Type 0} (xs : List A) (i : ℕ) (u v : A)
    → get_elem? xs i ≡ some u
    → get_elem? (set xs i v) i ≡ some v
get_elem?-set_self [] i u v h = cc
get_elem?-set_self (x ∷ xs) zero u v h = refl
get_elem?-set_self (x ∷ xs) (suc i) u v h = get_elem?-set_self xs i u v h

put-IsShut :
    (id : ℕ) (w : World) (n m : Node)
    → get_elem? w.nodes id ≡ some n
    → m.is_destroyed ≡ true
    → m.destructors ≡ []
    → IsShut id (put id m w)
put-IsShut id w n m at d e = (m, get_elem?-set_self w.nodes id n m at, d, e)

-- A write that keeps a scope shut if it was.
module _ (j : ℕ) where
  write-IsShut :
      (id : ℕ) (w : World) (n m : Node)
      → get_elem? w.nodes id ≡ some n
      → (n.is_destroyed ≡ true → m.is_destroyed ≡ true)
      → (n.destructors ≡ [] → m.destructors ≡ [])
      → IsShut j w
      → IsShut j (put id m w)
  write-IsShut id w n m at keep_mark keep_none (u, f, d, e) = elim (Bool-cases (id == j)) [
    | inl same ↦
        let q : id ≡ j = ground arith in
        let is : n ≡ u = cc in
        subst (λ i. IsShut i (put id m w)) q
          (put-IsShut id w n m at (keep_mark (ap (λ (z : Node). z.is_destroyed) is ∙ d))
            (keep_none (ap (λ (z : Node). z.destructors) is ∙ e)))
    | inr other ↦ (u, get_elem?-set_ne w.nodes id m j (ground arith) ∙ f, d, e)
  ]

  leave-IsShut :
      (id : ℕ) (parent : Option ℕ) (w : World) → IsShut j w → After (IsShut j) (leave id parent w)
  unfolding leave
  leave-IsShut id none w h = h
  leave-IsShut id (some p) w h = elim (Bool-cases (p == id)) [
    | inl same ↦ rw same h
    | inr other ↦ rw other (
        After-node_at (IsShut j) p w _
          (λ n at. write-IsShut p w n (without id n) at (λ d. d) (λ e. e) h))
  ]

  module _ (close : ℕ → World → Outcome World)
      (closes : (c : ℕ) (w : World) → IsShut j w → After (IsShut j) (close c w)) where
    close_children-IsShut :
        (cs : List (Option ℕ)) (w : World)
        → IsShut j w
        → After (IsShut j) (close_children close cs w)
    unfolding close_children
    close_children-IsShut [] w h = h
    close_children-IsShut (none ∷ cs) w h = close_children-IsShut cs w h
    close_children-IsShut (some c ∷ cs) w h =
        bind-After (IsShut j) (IsShut j) (close c w) _ (closes c w h) (close_children-IsShut cs)

    run_destructors-IsShut :
        (ds : List Destructor) (w : World)
        → IsShut j w
        → After (IsShut j) (run_destructors close ds w)
    unfolding run_destructors
    run_destructors-IsShut [] w h = h
    run_destructors-IsShut (client n ∷ ds) w h =
        run_destructors-IsShut ds (record w { log = w.log ++ n ∷ [] }) h
    run_destructors-IsShut (close_scope c ∷ ds) w h =
        bind-After (IsShut j) (IsShut j) (close c w) _ (closes c w h) (run_destructors-IsShut ds)

    -- What follows once the scope is marked.
    close_node-IsShut :
        (id : ℕ) (w : World) (n : Node)
        → IsShut j (put id (emptied n) w)
        → After (IsShut j) (close_node close id w n)
    unfolding close_node
    close_node-IsShut id w n h =
        bind-After (IsShut j) (IsShut j) (close_children close n.children (put id (emptied n) w)) _
          (close_children-IsShut n.children (put id (emptied n) w) h)
          (λ w1 h1.
            bind-After (IsShut j) (IsShut j) (leave id n.parent w1) _
              (leave-IsShut id n.parent w1 h1) (run_destructors-IsShut (reverse n.destructors)))

  close-keeps_IsShut : (fuel id : ℕ) (w : World) → IsShut j w → After (IsShut j) (close fuel id w)
  unfolding close
  close-keeps_IsShut zero id w h = tt
  close-keeps_IsShut (suc fuel) id w h = After-node_at (IsShut j) id w _ (λ n at.
      close_node-IsShut (close fuel) (close-keeps_IsShut fuel) id w n
        (write-IsShut id w n (emptied n) at (λ d. refl) (λ e. refl) h))

pub close-IsShut : (fuel id : ℕ) (w : World) → After (IsShut id) (close fuel id w)
unfolding close
close-IsShut zero id w = tt
close-IsShut (suc fuel) id w = After-node_at (IsShut id) id w _ (λ n at.
    close_node-IsShut id (close fuel) (close-keeps_IsShut id fuel) id w n
      (put-IsShut id w n (emptied n) at refl refl))
