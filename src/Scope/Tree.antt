-- ===== src/Scope/Tree.antt =====
-- The tree of scopes and their destructors (scope/scope.go): `Copy`, `AddDestructor`, `Close`. A scope is
-- a node on a heap, at its id. A destructor is a client's function, which is known by its number and
-- puts that on a log when it is run, or the `Close` of another scope, which `Transform` adds. The locks
-- and the limit of 60 seconds for a destructor are left out.
pub mod Ranks
pub mod Tally
pub mod Shut
pub mod Copy
pub mod Reach
use mathlib.Core.List.{reverse}
use vfilter.Base.{
  ℕ, zero, suc, ◌+◌, Bool, true, false, ◌&&◌, not, Option, none, some, List, [], ◌∷◌, ◌++◌, length,
  get_elem?, ltb, ◌==◌, if◌then◌else◌, Outcome, returns, panics, hangs, ◌>>=◌,
}

pub data Destructor : Type 0 where
  client : ℕ → Destructor
  close_scope : ℕ → Destructor

-- `none` among the children is the nil that a child leaves there; `children_grabage_count` counts these.
pub record Node : Type 0 where
  pub children : List (Option ℕ)
  pub children_garbage_count : ℕ
  pub parent : Option ℕ
  pub is_destroyed : Bool
  pub destructors : List Destructor

-- The nodes by their ids, and the client's destructors that were run.
pub record World : Type 0 where
  pub nodes : List Node
  pub log : List ℕ

module _ {ℓ} {A : Type ℓ} where
  -- A write out of bounds changes nothing.
  abbrev pub set : List A → ℕ → A → List A
  set [] i v = []
  set (x ∷ xs) zero v = v ∷ xs
  set (x ∷ xs) (suc i) v = x ∷ set xs i v

abbrev pub put : ℕ → Node → World → World
put id n w = record w { nodes = set w.nodes id n }

-- A dangling pointer panics.
abbrev pub found : Option Node → Outcome Node
found none = panics
found (some n) = returns n

abbrev pub node_at : ℕ → World → Outcome Node
node_at id w = found (get_elem? w.nodes id)

abbrev pub new_node : Option ℕ → Node
new_node parent = record {
  children = [];
  children_garbage_count = 0;
  parent = parent;
  is_destroyed = false;
  destructors = [];
}

-- `NewScope`, in a world of its own.
abbrev pub new_scope : World
new_scope = record { nodes = new_node none ∷ []; log = [] }

-- The children that are not nil.
abbrev pub compact : List (Option ℕ) → List (Option ℕ)
compact [] = []
compact (none ∷ cs) = compact cs
compact (some c ∷ cs) = some c ∷ compact cs

-- The children are compacted when more than ten of them have left; the new one goes to the end.
unfoldable pub adopt : ℕ → Node → Node
adopt child n =
    if ltb 10 n.children_garbage_count
    then record n { children = compact n.children ++ some child ∷ []; children_garbage_count = 0 }
    else record n { children = n.children ++ some child ∷ [] }

-- `Copy`: the new scope is at the next id.
unfoldable pub copy_scope : ℕ → World → Outcome World
unfolding adopt
copy_scope id w = do
  n ← node_at id w
  let child = length w.nodes
  returns (record w { nodes = set w.nodes id (adopt child n) ++ new_node (some id) ∷ [] })

-- `AddDestructor`: false where the scope is closed.
unfoldable pub add_destructor : ℕ → Destructor → World → Outcome (World × Bool)
add_destructor id d w = do
  n ← node_at id w
  let added = put id (record n { destructors = n.destructors ++ d ∷ [] }) w
  returns (if n.is_destroyed then (w, false) else (added, true))

-- The loop over the parent's children: the child's place becomes nil.
abbrev pub is_child : ℕ → Option ℕ → Bool
is_child id none = false
is_child id (some c) = id == c

abbrev pub forget : ℕ → List (Option ℕ) → List (Option ℕ)
forget id [] = []
forget id (c ∷ cs) = (if is_child id c then none else c) ∷ forget id cs

abbrev pub forgotten : ℕ → List (Option ℕ) → ℕ
forgotten id [] = 0
forgotten id (c ∷ cs) = (if is_child id c then 1 else 0) + forgotten id cs

abbrev pub without : ℕ → Node → Node
without id n = record n {
  children = forget id n.children;
  children_garbage_count = n.children_garbage_count + forgotten id n.children;
}

unfoldable pub leave : ℕ → Option ℕ → World → Outcome World
leave id none w = returns w
leave id (some p) w =
    if p == id then returns w else do n ← node_at p w; returns (put p (without id n) w)

-- The scope is marked, and gives up its destructors.
abbrev pub emptied : Node → Node
emptied n = record n { is_destroyed = true; destructors = [] }

-- The children are closed in order.
unfoldable pub close_children :
    (ℕ → World → Outcome World) → List (Option ℕ) → World → Outcome World
close_children close [] w = returns w
close_children close (none ∷ cs) w = close_children close cs w
close_children close (some c ∷ cs) w = do w1 ← close c w; close_children close cs w1

unfoldable pub run_destructors :
    (ℕ → World → Outcome World) → List Destructor → World → Outcome World
run_destructors close [] w = returns w
run_destructors close (client n ∷ ds) w =
    run_destructors close ds (record w { log = w.log ++ n ∷ [] })
run_destructors close (close_scope id ∷ ds) w = do w1 ← close id w; run_destructors close ds w1

-- The body of `Close` on the scope `id`, which is the node `n`.
unfoldable pub close_node : (ℕ → World → Outcome World) → ℕ → World → Node → Outcome World
unfolding close_children leave run_destructors
close_node close id w n = do
  w1 ← close_children close n.children (put id (emptied n) w)
  w2 ← leave id n.parent w1
  run_destructors close (reverse n.destructors) w2

-- `Close`, on fuel for the depth of the calls.
unfoldable pub close : ℕ → ℕ → World → Outcome World
unfolding close_node
close zero id w = hangs
close (suc fuel) id w = do n ← node_at id w; close_node (close fuel) id w n
