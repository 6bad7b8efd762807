-- ===== src/Scope/Tree/Copy.antt =====
-- What copying a scope and adding a destructor do to a world.
use vfilter.Base.{
  subst, ℕ, zero, suc, ◌+◌, ◌<◌, Bool, true, false, Option, none, some, List, [], ◌∷◌, ◌++◌, All,
  length, length-append, get_elem?, ltb, if◌then◌else◌, Outcome, returns, ◌>>=◌, ◌≡◌, refl, sym, ap,
  ◌∙◌, arith, inl, inr, ◌⊎◌,
}
use vfilter.Scope.Tree.{
  Destructor, client, close_scope, Node, World, set, put, found, node_at, new_node, compact, adopt,
  copy_scope, add_destructor,
}
use vfilter.Scope.Tree.Ranks.{
  IsRanked, AllNodes, set-AllNodes, IsNode, IsChildOf, IsTargetOf, IsParentIn, All-append,
  put-IsRanked, length-set,
}
use vfilter.Scope.Tree.Tally.{occurrences-append, occurrences, pending-set, pending-append, tally}

-- What a world that was copied or added to looks like.
pub found_or_panics :
    {B : Type 0} (id : ℕ) (w : World) (f : Node → Outcome B) (b : B)
    → (node_at id w >>= f) ≡ returns b
    → (n : Node) × (get_elem? w.nodes id ≡ some n) × (f n ≡ returns b)
found_or_panics id w f b e = go (get_elem? w.nodes id) refl e
  where
    go :
        (o : Option Node)
        → get_elem? w.nodes id ≡ o
        → (found o >>= f) ≡ returns b
        → (n : Node) × (get_elem? w.nodes id ≡ some n) × (f n ≡ returns b)
    go none at q = absurd (cc)
    go (some n) at q = (n, at, q)

compact-All :
    (i len : ℕ) (cs : List (Option ℕ))
    → All (IsChildOf i len) cs
    → All (IsChildOf i len) (compact cs)
compact-All i len [] h = tt
compact-All i len (none ∷ cs) h = compact-All i len cs h.1
compact-All i len (some c ∷ cs) h = (h.0, compact-All i len cs h.1)

-- A longer world has room for the new child.
children_in_longer :
    (i len : ℕ) (cs : List (Option ℕ)) → All (IsChildOf i len) cs → All (IsChildOf i (len + 1)) cs
children_in_longer i len [] h = tt
children_in_longer i len (none ∷ cs) h = (tt, children_in_longer i len cs h.1)
children_in_longer i len (some c ∷ cs) h =
    ((h.0.0, omega (arith, h.0.1)), children_in_longer i len cs h.1)

targets_in_longer :
    (i len : ℕ) (ds : List Destructor) → All (IsTargetOf i len) ds → All (IsTargetOf i (len + 1)) ds
targets_in_longer i len [] h = tt
targets_in_longer i len (client n ∷ ds) h = (tt, targets_in_longer i len ds h.1)
targets_in_longer i len (close_scope c ∷ ds) h =
    ((h.0.0, omega (arith, h.0.1)), targets_in_longer i len ds h.1)

IsParentIn-longer : (len : ℕ) (p : Option ℕ) → IsParentIn len p → IsParentIn (len + 1) p
IsParentIn-longer len none h = tt
IsParentIn-longer len (some p) h = omega arith

IsNode-longer : (i len : ℕ) (n : Node) → IsNode i len n → IsNode i (len + 1) n
IsNode-longer i len n v = record {
  children_above = children_in_longer i len n.children v.children_above;
  targets_above = targets_in_longer i len n.destructors v.targets_above;
  parent_in = IsParentIn-longer len n.parent v.parent_in;
}

adopt-IsNode : (i len : ℕ) (n : Node) → i < len → IsNode i len n → IsNode i (len + 1) (adopt len n)
unfolding adopt
adopt-IsNode i len n h v = go (ltb 10 n.children_garbage_count)
  where
    go :
        (b : Bool)
        → IsNode i (len + 1) (
            if b
            then record n {
              children = compact n.children ++ some len ∷ [];
              children_garbage_count = 0;
            }
            else record n { children = n.children ++ some len ∷ [] })
    go true = record {
      children_above =
          All-append (IsChildOf i (len + 1)) (compact n.children) (some len ∷ [])
            (compact-All i (len + 1) n.children
              (children_in_longer i len n.children v.children_above))
            ((h, omega arith), tt);
      targets_above = targets_in_longer i len n.destructors v.targets_above;
      parent_in = IsParentIn-longer len n.parent v.parent_in;
    }
    go false = record {
      children_above =
          All-append (IsChildOf i (len + 1)) n.children (some len ∷ [])
            (children_in_longer i len n.children v.children_above) ((h, omega arith), tt);
      targets_above = targets_in_longer i len n.destructors v.targets_above;
      parent_in = IsParentIn-longer len n.parent v.parent_in;
    }

adopt-destructors : (len : ℕ) (n : Node) → (adopt len n).destructors ≡ n.destructors
unfolding adopt
adopt-destructors len n = ground arith

get_elem?-last :
    {A : Type 0} (xs : List A) (y : A) (i : ℕ) (z : A)
    → get_elem? (xs ++ y ∷ []) i ≡ some z
    → (get_elem? xs i ≡ some z) ⊎ ((i ≡ length xs) × (z ≡ y))
get_elem?-last [] y zero z e = inr (refl, cc)
get_elem?-last [] y (suc i) z e = cc
get_elem?-last (x ∷ xs) y zero z e = inl e
get_elem?-last (x ∷ xs) y (suc i) z e = elim (get_elem?-last xs y i z e) [
  | inl q ↦ inl q
  | inr q ↦ inr (ap suc q.0, q.1)
]

length-last : {A : Type 0} (xs : List A) (y : A) → length (xs ++ y ∷ []) ≡ length xs + 1
length-last xs y = length-append xs (y ∷ [])

pub in_range : {A : Type 0} (xs : List A) (i : ℕ) (x : A) → get_elem? xs i ≡ some x → i < length xs
in_range [] i x e = cc
in_range (y ∷ xs) zero x e = omega arith
in_range (y ∷ xs) (suc i) x e = omega (arith, in_range xs i x e)

last-AllNodes :
    (len : ℕ) (ns : List Node) (n : Node)
    → AllNodes len ns
    → IsNode (length ns) len n
    → AllNodes len (ns ++ n ∷ [])
last-AllNodes len ns n r h i m e = elim (get_elem?-last ns n i m e) [
  | inl q ↦ r i m q
  | inr q ↦ rw (q.0, q.1) h
]

pub copied-IsRanked : (id : ℕ) (w u : World) → copy_scope id w ≡ returns u → IsRanked w → IsRanked u
unfolding copy_scope
copied-IsRanked id w u e r =
    let (n, at, q) = found_or_panics id w _ u e in
    let len = length w.nodes in
    let ns = set w.nodes id (adopt len n) in
    let same : length ns ≡ len = length-set w.nodes id (adopt len n) in
    let inside = in_range w.nodes id n at in
    let fresh : IsNode len (len + 1) (new_node (some id)) = record {
      children_above = tt;
      targets_above = tt;
      parent_in = omega arith;
    } in
    let nodes =
      last-AllNodes (len + 1) ns (new_node (some id))
        (set-AllNodes (len + 1) id (adopt len n) w.nodes (λ i m f. IsNode-longer i len m (r i m f))
          (adopt-IsNode id len n inside (r id n at)))
        (rw same fresh) in
    let eq : record w { nodes = ns ++ new_node (some id) ∷ [] } ≡ u = cc in
    subst IsRanked eq (
      subst (λ l. AllNodes l (ns ++ new_node (some id) ∷ []))
        (sym (length-last ns (new_node (some id)) ∙ ap (λ l. l + 1) same)) nodes)

pub copied-tally : (k id : ℕ) (w u : World) → copy_scope id w ≡ returns u → tally k u ≡ tally k w
unfolding copy_scope
copied-tally k id w u e =
    let (n, at, q) = found_or_panics id w _ u e in
    let ns = set w.nodes id (adopt (length w.nodes) n) in
    let eq : record w { nodes = ns ++ new_node (some id) ∷ [] } ≡ u = cc in
    subst (λ z. tally k z ≡ tally k w) eq
      (omega (
        arith,
        pending-append k ns (new_node (some id) ∷ []),
        pending-set k w.nodes id n (adopt (length w.nodes) n) at,
        ap (occurrences k) (adopt-destructors (length w.nodes) n),
      ))

accepted :
    (b : Bool) (x y u : World)
    → ◌≡◌ {A = Outcome (World × Bool)}
        (returns (if b then (x, false) else (y, true)))
        (returns (u, true))
    → y ≡ u
accepted true x y u e = cc
accepted false x y u e = cc

pub added-IsRanked :
    (id : ℕ) (d : Destructor) (w u : World)
    → IsTargetOf id (length w.nodes) d
    → add_destructor id d w ≡ returns (u, true)
    → IsRanked w
    → IsRanked u
unfolding add_destructor
added-IsRanked id d w u t e r =
    let (n, at, q) = found_or_panics id w _ (u, true) e in
    let m = record n { destructors = n.destructors ++ d ∷ [] } in
    let eq = accepted n.is_destroyed w (put id m w) u q in
    let v = r id n at in
    subst IsRanked eq (
      put-IsRanked id m w r (record {
        children_above = v.children_above;
        targets_above =
            All-append (IsTargetOf id (length w.nodes)) n.destructors (d ∷ []) v.targets_above
              (t, tt);
        parent_in = v.parent_in;
      }))

pub added-tally :
    (k id : ℕ) (d : Destructor) (w u : World)
    → add_destructor id d w ≡ returns (u, true)
    → tally k u ≡ occurrences k (d ∷ []) + tally k w
unfolding add_destructor
added-tally k id d w u e =
    let (n, at, q) = found_or_panics id w _ (u, true) e in
    let m = record n { destructors = n.destructors ++ d ∷ [] } in
    let eq = accepted n.is_destroyed w (put id m w) u q in
    subst (λ z. tally k z ≡ occurrences k (d ∷ []) + tally k w) eq
      (omega (arith, pending-set k w.nodes id n m at, occurrences-append k n.destructors (d ∷ [])))
