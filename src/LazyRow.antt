-- ===== src/LazyRow.antt =====
-- Lazy rows (`LazyRowImpl` and `MaterializedLazyRow` of lazy.go), and the rows that a SELECT builds:
-- `mergeStarRow` and `Transform` of vfilter.go. A getter runs in a scope, changes a state of type `S`, and
-- may panic. A cache is an ordered dictionary.
pub mod Cache
pub mod Columns
use vfilter.Base.{
  Bool, true, false, Option, none, some, List, [], ◌∷◌, ◌++◌, Bytes, codes, equal, if◌then◌else◌,
  Outcome, returns, panics, hangs,
}
use vfilter.OrderedDict.{OrderedDict}
use vfilter.Expr.Monad.{Eval, pure, ◌>>=◌}
use vfilter.Scope.{Vars, copy, append_vars}

-- `Get` has the result that a Go map has: the getter, if there is one.
abbrev pub Getters : Type 0 → Type 0 → Type 0 → Type 0
Getters Scope S V = Bytes → Option (Scope → Eval S V)

module _ {Scope S V : Type 0} where
  -- A write to the map.
  abbrev pub with_getter : Bytes → (Scope → Eval S V) → Getters Scope S V → Getters Scope S V
  with_getter name getter getters key = if equal name key then some getter else getters key

  -- A call of a getter that is nil panics.
  abbrev pub call_getter : Option (Scope → Eval S V) → Scope → Eval S V
  call_getter none scope = λ s. panics
  call_getter (some getter) scope = getter scope

  -- The value of a column for `MaterializedLazyRow`.
  abbrev pub column_value : Option V → Option (Scope → Eval S V) → Scope → Eval S V
  column_value none getter scope = call_getter getter scope
  column_value (some value) getter scope = pure value

pub record LazyRow (Scope S : Type 0) {V : Type 0} (dict : OrderedDict V) : Type 0 where
  pub scope : Scope
  pub getters : Getters Scope S V
  pub columns : List Bytes
  pub cache : dict.Dict

abbrev pub is_present : {A : Type 0} → Option A → Bool
is_present none = false
is_present (some x) = true

module _ {Scope S V : Type 0} (dict : OrderedDict V) where
  unfoldable pub new_lazy_row : Scope → LazyRow Scope S dict
  new_lazy_row scope = record {
    scope = scope;
    getters = λ key. none;
    columns = [];
    cache = dict.new_dict;
  }

  unfoldable pub add_column :
      Bytes → (Scope → Eval S V) → LazyRow Scope S dict → LazyRow Scope S dict
  add_column name getter row = record row {
    getters = with_getter name getter row.getters;
    columns = row.columns ++ name ∷ [];
  }

  unfoldable pub has : Bytes → LazyRow Scope S dict → Bool
  has key row = if is_present (dict.get key row.cache) then true else is_present (row.getters key)

  unfoldable pub set_columns :
      LazyRow Scope S dict → Scope → List Bytes → dict.Dict → Eval S dict.Dict
  set_columns row scope [] result = pure result
  set_columns row scope (column ∷ columns) result = do
    value ← column_value (dict.get column row.cache) (row.getters column) scope
    set_columns row scope columns (dict.set column value result)

  -- `MaterializedLazyRow` on a lazy row.
  unfoldable pub materialize : LazyRow Scope S dict → Scope → Eval S dict.Dict
  unfolding set_columns
  materialize row scope = set_columns row scope row.columns dict.new_dict

module _ {Scope S V : Type 0} (dict : OrderedDict V) (null_value : V) where
  -- `Get` where the cache has no value.
  abbrev pub get_new :
      Bytes
      → Option (Scope → Eval S V)
      → LazyRow Scope S dict
      → Eval S ((V × Bool) × LazyRow Scope S dict)
  get_new key none row = pure ((null_value, false), row)
  get_new key (some getter) row = do
    res ← getter row.scope
    pure ((res, true), record row { cache = dict.set key res row.cache })

  abbrev pub get_cached :
      Bytes → Option V → LazyRow Scope S dict → Eval S ((V × Bool) × LazyRow Scope S dict)
  get_cached key none row = get_new key (row.getters key) row
  get_cached key (some res) row = pure ((res, true), row)

  unfoldable pub get : Bytes → LazyRow Scope S dict → Eval S ((V × Bool) × LazyRow Scope S dict)
  get key row = get_cached key (dict.get key row.cache) row

abbrev pub star : Bytes
star = codes "*"

-- A column expression of a SELECT: its name, what it comes to in a scope, materialized.
pub record Column (Row S V : Type 0) : Type 0 where
  pub name : Bytes
  pub reduce : Vars Row → Eval S V

-- `get_members` and `associative` stand for the protocol of members.
module _ {Row S V : Type 0} (dict : OrderedDict V) (get_members : Row → List Bytes)
    (associative : Row → Bytes → V × Bool) where
  -- The column `member` of a row, if the row has it.
  abbrev pub add_member : Bytes → V × Bool → LazyRow (Vars Row) S dict → LazyRow (Vars Row) S dict
  add_member member (value, true) new_row = add_column dict member (λ scope. pure value) new_row
  add_member member (value, false) new_row = new_row

  -- The loop of `Transform` for a query that starts with `*`.
  unfoldable pub add_all : Row → List Bytes → LazyRow (Vars Row) S dict → LazyRow (Vars Row) S dict
  unfolding add_column
  add_all row [] new_row = new_row
  add_all row (member ∷ members) new_row =
      add_all row members (add_member member (associative row member) new_row)

  unfoldable pub merge_star_row :
      Row → List Bytes → LazyRow (Vars Row) S dict → LazyRow (Vars Row) S dict
  unfolding add_column has
  merge_star_row row [] new_row = new_row
  merge_star_row row (member ∷ members) new_row = merge_star_row row members (
      if has dict member new_row
      then new_row
      else add_member member (associative row member) new_row)

  abbrev pub add_expression :
      Vars Row → Row → Column Row S V → LazyRow (Vars Row) S dict → LazyRow (Vars Row) S dict
  add_expression new_scope row expr new_row =
      if equal expr.name star
      then merge_star_row row (get_members row) new_row
      else add_column dict expr.name (λ scope. expr.reduce new_scope) new_row

  unfoldable pub add_expressions :
      Vars Row → Row → List (Column Row S V) → LazyRow (Vars Row) S dict → LazyRow (Vars Row) S dict
  unfolding merge_star_row add_column
  add_expressions new_scope row [] new_row = new_row
  add_expressions new_scope row (expr ∷ exprs) new_row =
      add_expressions new_scope row exprs (add_expression new_scope row expr new_row)

  -- `Transform`: the columns are reduced in a copy of the scope with the row.
  unfoldable pub transform :
      Bool → List (Column Row S V) → Vars Row → Row → LazyRow (Vars Row) S dict
  unfolding add_all add_expressions new_lazy_row
  transform all exprs scope row =
      let new_row = new_lazy_row dict scope in
      add_expressions (append_vars row (copy scope)) row exprs
        (if all then add_all row (get_members row) new_row else new_row)
