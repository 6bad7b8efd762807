-- ===== src/Scope/Tree/Ranks.antt =====
-- The age of scopes: children and the scopes that a destructor closes are newer.
use mathlib.Core.List.{reverse, reverse-append}
use vfilter.Base.{
  subst, ℕ, zero, suc, ◌+◌, ◌≤◌, ◌<◌, Bool, true, false, Option, none, some, List, [], ◌∷◌, ◌++◌,
  All, length, get_elem?, ◌==◌, if◌then◌else◌, Outcome, returns, panics, hangs, ◌>>=◌, ◌≡◌, ◌≢◌,
  refl, sym, ap, ◌∙◌, arith, Bool-cases, inl, inr,
}
use vfilter.Scope.Tree.{
  Destructor, client, close_scope, Node, World, set, put, found, node_at, forget, without, leave,
  emptied, close_children, run_destructors, close, close_node,
}

module _ {A : Type 0} where
  pub length-set : (xs : List A) (i : ℕ) (v : A) → length (set xs i v) ≡ length xs
  length-set [] i v = refl
  length-set (x ∷ xs) zero v = refl
  length-set (x ∷ xs) (suc i) v = ap suc (length-set xs i v)

  pub get_elem?-set_ne :
      (xs : List A) (i : ℕ) (v : A) (j : ℕ) → i ≢ j → get_elem? (set xs i v) j ≡ get_elem? xs j
  get_elem?-set_ne [] i v j h = refl
  get_elem?-set_ne (x ∷ xs) zero v zero h = absurd (h refl)
  get_elem?-set_ne (x ∷ xs) zero v (suc j) h = refl
  get_elem?-set_ne (x ∷ xs) (suc i) v zero h = refl
  get_elem?-set_ne (x ∷ xs) (suc i) v (suc j) h = get_elem?-set_ne xs i v j (λ e. h (ap suc e))

  -- What stands where a value was written is that value.
  pub set-written :
      (xs : List A) (i j : ℕ) (v w : A) → i ≡ j → get_elem? (set xs i v) j ≡ some w → w ≡ v
  set-written [] i j v w q h = cc
  set-written (x ∷ xs) zero zero v w q h = cc
  set-written (x ∷ xs) zero (suc j) v w q h = absurd (omega arith)
  set-written (x ∷ xs) (suc i) zero v w q h = absurd (omega arith)
  set-written (x ∷ xs) (suc i) (suc j) v w q h = set-written xs i j v w (omega arith) h

  pub get_elem?-IsSome : (xs : List A) (i : ℕ) → i < length xs → (x : A) × (get_elem? xs i ≡ some x)
  get_elem?-IsSome [] i h = absurd (omega arith)
  get_elem?-IsSome (x ∷ xs) zero h = (x, refl)
  get_elem?-IsSome (x ∷ xs) (suc i) h = get_elem?-IsSome xs i (omega arith)

pub bind-node_at :
    {B : Type 0} (id : ℕ) (w : World) (n : Node) (f : Node → Outcome B)
    → get_elem? w.nodes id ≡ some n
    → (node_at id w >>= f) ≡ f n
bind-node_at id w n f e = ap (λ o. found o >>= f) e

-- A child, or the target of a destructor, lies between the scope's own id and the next one.
abbrev pub IsChildOf : ℕ → ℕ → Option ℕ → Type 0
IsChildOf i len none = Unit
IsChildOf i len (some c) = (i < c) × (c < len)

abbrev pub IsTargetOf : ℕ → ℕ → Destructor → Type 0
IsTargetOf i len (client n) = Unit
IsTargetOf i len (close_scope c) = (i < c) × (c < len)

abbrev pub IsParentIn : ℕ → Option ℕ → Type 0
IsParentIn len none = Unit
IsParentIn len (some p) = p < len

pub record IsNode (i len : ℕ) (n : Node) : Type 0 where
  pub children_above : All (IsChildOf i len) n.children
  pub targets_above : All (IsTargetOf i len) n.destructors
  pub parent_in : IsParentIn len n.parent

abbrev pub AllNodes : ℕ → List Node → Type 0
AllNodes len ns = (i : ℕ) (n : Node) → get_elem? ns i ≡ some n → IsNode i len n

abbrev pub IsRanked : World → Type 0
IsRanked w = AllNodes (length w.nodes) w.nodes

pub set-AllNodes :
    (len id : ℕ) (n : Node) (ns : List Node)
    → AllNodes len ns
    → IsNode id len n
    → AllNodes len (set ns id n)
set-AllNodes len id n ns r h i m e = elim (Bool-cases (id == i)) [
  | inl same ↦
      let q : id ≡ i = ground arith in
      let eq : m ≡ n = set-written ns id i n m q e in rw (eq, ← q) h
  | inr other ↦ r i m (sym (get_elem?-set_ne ns id n i (ground arith)) ∙ e)
]

pub put-IsRanked :
    (id : ℕ) (n : Node) (w : World)
    → IsRanked w
    → IsNode id (length w.nodes) n
    → IsRanked (put id n w)
put-IsRanked id n w r h =
    rw (length-set w.nodes id n) (set-AllNodes (length w.nodes) id n w.nodes r h)

forget-All :
    (i len id : ℕ) (cs : List (Option ℕ))
    → All (IsChildOf i len) cs
    → All (IsChildOf i len) (forget id cs)
forget-All i len id [] h = tt
forget-All i len id (none ∷ cs) h = (tt, forget-All i len id cs h.1)
forget-All i len id (some c ∷ cs) h = (left (id == c), forget-All i len id cs h.1)
  where
    left : (b : Bool) → IsChildOf i len (if b then none else some c)
    left true = tt
    left false = h.0

pub All-append :
    {A : Type 0} (P : A → Type 0) (xs ys : List A) → All P xs → All P ys → All P (xs ++ ys)
All-append P [] ys h k = k
All-append P (x ∷ xs) ys h k = (h.0, All-append P xs ys h.1 k)

All-reverse : {A : Type 0} (P : A → Type 0) (xs : List A) → All P xs → All P (reverse xs)
All-reverse P [] h = tt
All-reverse P (x ∷ xs) h =
    rw (reverse-append (x ∷ []) xs)
      (All-append P (reverse xs) (x ∷ []) (All-reverse P xs h.1) (h.0, tt))

-- It returns, to a world of `len` scopes that are ranked.
abbrev pub Returns : ℕ → Outcome World → Type 0
Returns len (returns w) = IsRanked w × (length w.nodes ≡ len)
Returns len panics = ⊥
Returns len hangs = ⊥

bind-Returns :
    (len : ℕ) (m : Outcome World) (f : World → Outcome World)
    → Returns len m
    → ((w : World) → IsRanked w → length w.nodes ≡ len → Returns len (f w))
    → Returns len (m >>= f)
bind-Returns len (returns w) f h k = k w h.0 h.1
bind-Returns len panics f h k = h
bind-Returns len hangs f h k = h

module _ (len i : ℕ) (close : ℕ → World → Outcome World)
    (closes : (c : ℕ) (w : World)
      → IsRanked w
      → length w.nodes ≡ len
      → i < c
      → c < len
      → Returns len (close c w)) where
  close_children-Returns :
      (cs : List (Option ℕ)) (w : World)
      → All (IsChildOf i len) cs
      → IsRanked w
      → length w.nodes ≡ len
      → Returns len (close_children close cs w)
  unfolding close_children
  close_children-Returns [] w h r e = (r, e)
  close_children-Returns (none ∷ cs) w h r e = close_children-Returns cs w h.1 r e
  close_children-Returns (some c ∷ cs) w h r e =
      bind-Returns len (close c w) _ (closes c w r e h.0.0 h.0.1)
        (λ w1. close_children-Returns cs w1 h.1)

  run_destructors-Returns :
      (ds : List Destructor) (w : World)
      → All (IsTargetOf i len) ds
      → IsRanked w
      → length w.nodes ≡ len
      → Returns len (run_destructors close ds w)
  unfolding run_destructors
  run_destructors-Returns [] w h r e = (r, e)
  run_destructors-Returns (client n ∷ ds) w h r e =
      run_destructors-Returns ds (record w { log = w.log ++ n ∷ [] }) h.1 r e
  run_destructors-Returns (close_scope c ∷ ds) w h r e =
      bind-Returns len (close c w) _ (closes c w r e h.0.0 h.0.1)
        (λ w1. run_destructors-Returns ds w1 h.1)

leave-Returns :
    (len id : ℕ) (parent : Option ℕ) (w : World)
    → IsParentIn len parent
    → IsRanked w
    → length w.nodes ≡ len
    → Returns len (leave id parent w)
unfolding leave
leave-Returns len id none w h r e = (r, e)
leave-Returns len id (some p) w h r e = elim (Bool-cases (p == id)) [
  | inl same ↦ rw same (r, e)
  | inr other ↦
      let (n, at) = get_elem?-IsSome w.nodes p (omega arith) in
      let v = r p n at in
      rw (other, at)
        (
          put-IsRanked p (without id n) w r (record {
            children_above = forget-All p (length w.nodes) id n.children v.children_above;
            targets_above = v.targets_above;
            parent_in = v.parent_in;
          }),
          length-set w.nodes p (without id n) ∙ e,
        )
]

module _ (len id : ℕ) (close : ℕ → World → Outcome World)
    (closes : (c : ℕ) (w : World)
      → IsRanked w
      → length w.nodes ≡ len
      → id < c
      → c < len
      → Returns len (close c w)) where
  close_node-Returns :
      (w : World) (n : Node)
      → IsRanked w
      → length w.nodes ≡ len
      → IsNode id (length w.nodes) n
      → Returns len (close_node close id w n)
  unfolding close_node
  close_node-Returns w n r e v =
      let v' : IsNode id len n = subst (λ l. IsNode id l n) e v in
      let closed = emptied_node v in
      bind-Returns len (close_children close n.children (put id (emptied n) w)) _
        (close_children-Returns len id close closes n.children (put id (emptied n) w)
          v'.children_above (put-IsRanked id (emptied n) w r closed)
          (length-set w.nodes id (emptied n) ∙ e))
        (λ w1 r1 e1.
          bind-Returns len (leave id n.parent w1) _
            (leave-Returns len id n.parent w1 v'.parent_in r1 e1)
            (λ w2 r2 e2.
              run_destructors-Returns len id close closes (reverse n.destructors) w2
                (All-reverse (IsTargetOf id len) n.destructors v'.targets_above) r2 e2))
    where
      emptied_node : IsNode id (length w.nodes) n → IsNode id (length w.nodes) (emptied n)
      emptied_node v = record {
        children_above = v.children_above;
        targets_above = tt;
        parent_in = v.parent_in;
      }

close-ends :
    (fuel id len : ℕ) (w : World)
    → IsRanked w
    → length w.nodes ≡ len
    → id < len
    → len ≤ id + fuel
    → Returns len (close fuel id w)
unfolding close
close-ends zero id len w r e h f = absurd (omega arith)
close-ends (suc fuel) id len w r e h f =
    let (n, at) = get_elem?-IsSome w.nodes id (omega arith) in
    subst (Returns len) (sym (bind-node_at id w n (close_node (close fuel) id w) at)) (
      close_node-Returns len id (close fuel)
        (λ c w1 r1 e1 lo hi. close-ends fuel c len w1 r1 e1 hi (omega arith)) w n r e (r id n at))

-- In a world where every scope is older than its children and than the scopes that its destructors
-- close, `Close` returns on fuel for the scopes that are younger than this one, without a panic; the
-- world has the same scopes and is ranked so again.
pub close-Returns :
    (fuel id : ℕ) (w : World)
    → IsRanked w
    → id < length w.nodes
    → length w.nodes ≤ id + fuel
    → Returns (length w.nodes) (close fuel id w)
close-Returns fuel id w r h f = close-ends fuel id (length w.nodes) w r refl h f
