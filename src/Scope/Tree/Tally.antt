-- ===== src/Scope/Tree/Tally.antt =====
-- How often the destructors are run and pending.
use mathlib.Core.List.{reverse, reverse-append}
use vfilter.Base.{
  subst, ℕ, zero, suc, ◌+◌, Option, none, some, List, [], ◌∷◌, ◌++◌, get_elem?, ◌==◌, if◌then◌else◌,
  Outcome, returns, panics, hangs, ◌>>=◌, ◌≡◌, refl, ap, arith, Bool-cases, inl, inr,
}
use vfilter.Scope.Tree.{
  Destructor, client, close_scope, Node, World, set, put, found, node_at, without, leave, emptied,
  close_children, run_destructors, close, close_node,
}

-- How often the client's destructor `k` stands in a list of destructors, among the pending ones of all
-- scopes, and on the log.
abbrev pub occurrences : ℕ → List Destructor → ℕ
occurrences k [] = 0
occurrences k (client n ∷ ds) = (if n == k then 1 else 0) + occurrences k ds
occurrences k (close_scope id ∷ ds) = occurrences k ds

abbrev pub pending : ℕ → List Node → ℕ
pending k [] = 0
pending k (n ∷ ns) = occurrences k n.destructors + pending k ns

abbrev pub runs : ℕ → List ℕ → ℕ
runs k [] = 0
runs k (n ∷ ns) = (if n == k then 1 else 0) + runs k ns

abbrev pub tally : ℕ → World → ℕ
tally k w = runs k w.log + pending k w.nodes

-- Where the code returns, the world that it leaves satisfies `P`.
abbrev pub After : (World → Type 0) → Outcome World → Type 0
After P (returns w) = P w
After P panics = Unit
After P hangs = Unit

pub bind-After :
    (P Q : World → Type 0) (m : Outcome World) (f : World → Outcome World)
    → After P m
    → ((w : World) → P w → After Q (f w))
    → After Q (m >>= f)
bind-After P Q (returns w) f h k = k w h
bind-After P Q panics f h k = tt
bind-After P Q hangs f h k = tt

-- A dangling pointer panics, which satisfies everything.
pub After-node_at :
    (P : World → Type 0) (id : ℕ) (w : World) (f : Node → Outcome World)
    → ((n : Node) → get_elem? w.nodes id ≡ some n → After P (f n))
    → After P (node_at id w >>= f)
After-node_at P id w f h = go (get_elem? w.nodes id) h
  where
    go : (o : Option Node) → ((n : Node) → o ≡ some n → After P (f n)) → After P (found o >>= f)
    go none k = tt
    go (some n) k = k n refl

module _ (k : ℕ) where
  runs-append : (xs ys : List ℕ) → runs k (xs ++ ys) ≡ runs k xs + runs k ys
  runs-append [] ys = omega arith
  runs-append (x ∷ xs) ys = omega (arith, runs-append xs ys)

  pub occurrences-append :
      (xs ys : List Destructor) → occurrences k (xs ++ ys) ≡ occurrences k xs + occurrences k ys
  occurrences-append [] ys = omega arith
  occurrences-append (client n ∷ xs) ys = omega (arith, occurrences-append xs ys)
  occurrences-append (close_scope id ∷ xs) ys = occurrences-append xs ys

  occurrences-reverse : (ds : List Destructor) → occurrences k (reverse ds) ≡ occurrences k ds
  occurrences-reverse [] = refl
  occurrences-reverse (d ∷ ds) = rw (reverse-append (d ∷ []) ds) (
      omega (
        arith,
        occurrences-append (reverse ds) (d ∷ []),
        occurrences-append (d ∷ []) ds,
        occurrences-reverse ds,
      ))

  pub pending-append : (xs ys : List Node) → pending k (xs ++ ys) ≡ pending k xs + pending k ys
  pending-append [] ys = omega arith
  pending-append (x ∷ xs) ys = omega (arith, pending-append xs ys)

  pub pending-set :
      (ns : List Node) (i : ℕ) (n m : Node)
      → get_elem? ns i ≡ some n
      → pending k (set ns i m) + occurrences k n.destructors
        ≡ pending k ns + occurrences k m.destructors
  pending-set [] i n m e = cc
  pending-set (x ∷ ns) zero n m e =
      let same : x ≡ n = cc in omega (arith, ap (λ (z : Node). occurrences k z.destructors) same)
  pending-set (x ∷ ns) (suc i) n m e = omega (arith, pending-set ns i n m e)

  abbrev pub Tallies : ℕ → World → Type 0
  Tallies t w = tally k w ≡ t

  leave-Tallies :
      (t id : ℕ) (parent : Option ℕ) (w : World)
      → Tallies t w
      → After (Tallies t) (leave id parent w)
  unfolding leave
  leave-Tallies t id none w h = h
  leave-Tallies t id (some p) w h = elim (Bool-cases (p == id)) [
    | inl same ↦ rw same h
    | inr other ↦ rw other (
        After-node_at (Tallies t) p w _
          (λ n at. omega (arith, h, pending-set w.nodes p n (without id n) at)))
  ]

  module _ (close : ℕ → World → Outcome World)
      (closes : (c : ℕ) (w : World) (t : ℕ) → Tallies t w → After (Tallies t) (close c w)) where
    close_children-Tallies :
        (t : ℕ) (cs : List (Option ℕ)) (w : World)
        → Tallies t w
        → After (Tallies t) (close_children close cs w)
    unfolding close_children
    close_children-Tallies t [] w h = h
    close_children-Tallies t (none ∷ cs) w h = close_children-Tallies t cs w h
    close_children-Tallies t (some c ∷ cs) w h =
        bind-After (Tallies t) (Tallies t) (close c w) _ (closes c w t h)
          (close_children-Tallies t cs)

    run_destructors-Tallies :
        (t : ℕ) (ds : List Destructor) (w : World)
        → tally k w + occurrences k ds ≡ t
        → After (Tallies t) (run_destructors close ds w)
    unfolding run_destructors
    run_destructors-Tallies t [] w h = omega arith
    run_destructors-Tallies t (client n ∷ ds) w h =
        run_destructors-Tallies t ds (record w { log = w.log ++ n ∷ [] })
          (omega (arith, h, runs-append w.log (n ∷ [])))
    run_destructors-Tallies t (close_scope c ∷ ds) w h =
        bind-After (Tallies (tally k w)) (Tallies t) (close c w) _ (closes c w (tally k w) refl)
          (λ w1 e. run_destructors-Tallies t ds w1 (omega (arith, h, e)))

    close_node-Tallies :
        (id : ℕ) (w : World) (n : Node)
        → get_elem? w.nodes id ≡ some n
        → After (Tallies (tally k w)) (close_node close id w n)
    unfolding close_node
    close_node-Tallies id w n at =
        let w0 = put id (emptied n) w in
        let less : tally k w0 + occurrences k n.destructors ≡ tally k w =
          omega (arith, pending-set w.nodes id n (emptied n) at) in
        bind-After (Tallies (tally k w0)) (Tallies (tally k w)) (close_children close n.children w0)
          _ (close_children-Tallies (tally k w0) n.children w0 refl)
          (λ w1 e1.
            bind-After (Tallies (tally k w0)) (Tallies (tally k w)) (leave id n.parent w1) _
              (leave-Tallies (tally k w0) id n.parent w1 e1)
              (λ w2 e2.
                run_destructors-Tallies (tally k w) (reverse n.destructors) w2
                  (omega (arith, e2, less, occurrences-reverse n.destructors))))

  -- Whenever `Close` returns, each of the client's destructors has been run, or is still pending with a
  -- scope, as often in all as before.
  pub close-Tallies : (fuel id : ℕ) (w : World) → After (Tallies (tally k w)) (close fuel id w)
  unfolding close
  close-Tallies zero id w = tt
  close-Tallies (suc fuel) id w = After-node_at (Tallies (tally k w)) id w _ (
      close_node-Tallies (close fuel)
        (λ c w1 t h. subst (λ t. After (Tallies t) (close fuel c w1)) h (close-Tallies fuel c w1))
        id w)
