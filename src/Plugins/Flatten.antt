-- ===== src/Plugins/Flatten.antt =====
-- `flatten` (plugins/flatten.go). What it relies on of the ordered dictionary and of the scope is the record
-- FlattenScope: `updated` is a copy of a row with a new value for a column.
pub mod Spread
use vfilter.Base.{
  ℕ, zero, suc, Bool, Option, none, some, List, [], ◌∷◌, ◌++◌, Bytes, codes, equal, length,
  get_elem?, if◌then◌else◌, ◌≡◌, Outcome, returns, panics, hangs, ◌>>=◌, index,
}

pub record FlattenScope (V : Type 0) : Type 1 where
  pub Dict : Type 0
  pub keys : Dict → List Bytes
  pub get : Bytes → Dict → Option V
  pub updated : Dict → Bytes → V → Dict
  pub as_dict : V → Option Dict
  pub iterate : V → List V
  pub get_members : V → List Bytes
  pub associative : V → Bytes → Option V
  pub new_dict : Dict
  pub set : Bytes → V → Dict → Dict
  pub nil : V
  pub keys_updated :
      (d : Dict) (i : ℕ) (k : Bytes) (v : V)
      → get_elem? (keys d) i ≡ some k
      → keys (updated d k v) ≡ keys d
  pub get_updated :
      (d : Dict) (j k : Bytes) (v : V)
      → get j (updated d k v) ≡ (if equal k j then some v else get j d)

-- `make` for every element, one result behind the other.
unfoldable pub collect : {A B : Type 0} → (A → Outcome (List B)) → List A → Outcome (List B)
collect make [] = returns []
collect make (x ∷ xs) = make x >>= λ a. collect make xs >>= λ b. returns (a ++ b)

module _ {V : Type 0} (scope : FlattenScope V) where
  abbrev pub cell : Bytes → scope.Dict → V
  cell column item = elim (scope.get column item) [ some v ↦ v | none ↦ scope.nil ]

  -- A dictionary with a `_value` stands for that value.
  abbrev pub real_member : V → V
  real_member member = elim (scope.as_dict member) [
    | none ↦ member
    | some d ↦ elim (scope.get (codes "_value") d) [ none ↦ member | some v ↦ v ]
  ]

  -- `idx` is one more than the code's.
  unfoldable pub flatten : ℕ → scope.Dict → Outcome (List scope.Dict)
  unfolding collect
  flatten zero item = returns (item ∷ [])
  flatten (suc idx) item = index (scope.keys item) idx >>= λ column.
      elim (scope.iterate (cell column item)) [
        | [] ↦ flatten idx item
        | m ∷ ms ↦ collect (λ v. flatten idx (scope.updated item column (real_member v))) (m ∷ ms)
      ]

  -- The members that the value has, in the order in which it names them.
  unfoldable pub add_members : V → List Bytes → scope.Dict → scope.Dict
  add_members item [] result = result
  add_members item (m ∷ ms) result =
      add_members item ms
        (elim (scope.associative item m) [ some v ↦ scope.set m v result | none ↦ result ])

  abbrev pub make_dict : V → scope.Dict
  make_dict item = elim (scope.as_dict item) [
    | some d ↦ d
    | none ↦ add_members item (scope.get_members item) scope.new_dict
  ]

  -- The rows of the plugin, for those of the query.
  unfoldable pub flatten_call : List V → Outcome (List scope.Dict)
  unfolding collect flatten
  flatten_call rows =
      collect (λ row. flatten (length (scope.keys (make_dict row))) (make_dict row)) rows
