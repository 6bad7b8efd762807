-- ===== src/Select/Filter.antt =====
-- Which rows of its plugin a query without GROUP BY gives, where WHERE is the name of a column.
use vfilter.Base.{Bool, true, false, List, [], ◌∷◌, Bytes, if◌then◌else◌, ◌⊎◌, ◌≡◌}
use vfilter.Value.{Runtime, Any, nil}
use vfilter.Expr.{CommaExpression}
use vfilter.Protocols.Truth.{BoolImpl}
use vfilter.Scope.{Vars, copy, resolve, emitted}
use vfilter.Select.{accepts, filter_vars}

module _ {rt : Runtime} {Row : Type 0} (associative : Row → Bytes → Any rt × Bool)
    (transform : Vars Row → Row → Row) (field : Bytes) where
  -- The row has the field, or gives nil as absent.
  abbrev pub IsPlain : Row → Type 0
  IsPlain row = ((associative row field).1 ≡ true) ⊎ (associative row field ≡ (nil, false))

  -- The transformed row masks the row, which masks the variables of the query.
  abbrev pub masked : Vars Row → Row → Any rt
  masked vars row =
      let new = associative (transform (copy vars) row) field in
      let old = associative row field in
      if new.1
      then emitted new.0
      else if old.1
      then emitted old.0
      else (resolve associative field vars).0

module _ {rt : Runtime} {Row : Type 0} (bool_impl : List (BoolImpl rt))
    (associative : Row → Bytes → Any rt × Bool) (transform : Vars Row → Row → Row)
    (reduce : CommaExpression → Vars Row → Any rt) (materialize : Row → Vars Row → Row)
    (field : Bytes) where
  -- The rows for which the masked value is accepted, in their order.
  abbrev pub kept : Vars Row → List Row → List Row
  kept vars [] = []
  kept vars (row ∷ rows) =
      let rest = kept vars rows in
      if accepts bool_impl (masked associative transform field vars row)
      then materialize (transform (copy vars) row) (filter_vars transform (copy vars) row) ∷ rest
      else rest
