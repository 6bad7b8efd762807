-- ===== src/Scope.antt =====
-- The variables of a scope (scope/scope.go): `Copy`, `AppendVars`, `CheckForOverflow` and `Resolve`. A
-- scope is what these read: the stack of rows, oldest first, and the depth of the stack. `associative`
-- stands for the protocol of members with the implementations that are registered; it gives the
-- element and whether it is present. It is a function here: the getters of a lazy row and its cache are in
-- LazyRow.
pub mod Shadowing
pub mod Tree
use mathlib.Core.List.{reverse}
use vfilter.Base.{
  ℕ, ◌+◌, Bool, true, false, ◌&&◌, not, List, [], ◌∷◌, ◌++◌, Bytes, ltb, if◌then◌else◌,
}
use vfilter.Value.{Runtime, Any, nil, null}

-- `x == nil`.
abbrev pub is_nil : {rt : Runtime} → Any rt → Bool
is_nil nil = true
is_nil _ = false

pub record Vars (Row : Type 0) : Type 0 where
  pub rows : List Row
  pub stack_depth : ℕ

module _ {Row : Type 0} where
  unfoldable pub copy : Vars Row → Vars Row
  copy vars = record vars { stack_depth = vars.stack_depth + 1 }

  unfoldable pub append_vars : Row → Vars Row → Vars Row
  append_vars row vars = record vars { rows = vars.rows ++ row ∷ [] }

  unfoldable pub check_for_overflow : Vars Row → Bool
  check_for_overflow vars = if ltb vars.stack_depth 1000 then false else true

module _ {rt : Runtime} where
  -- The first non-nil element of a row that does not have the field is the default.
  abbrev pub next_default : Any rt → Any rt → Any rt
  next_default element default_value =
      if not (is_nil element) && is_nil default_value then element else default_value

  -- An element that is present, without Go's nil.
  abbrev pub emitted : Any rt → Any rt
  emitted element = if is_nil element then null else element

module _ {rt : Runtime} {Row : Type 0} (associative : Row → Bytes → Any rt × Bool) where
  -- The loop of `_Resolve`, over the rows newest first.
  unfoldable pub walk : Bytes → List Row → Any rt → Any rt × Bool
  walk field [] default_value = (default_value, not (is_nil default_value))
  walk field (row ∷ older) default_value =
      let rest = walk field older (next_default (associative row field).0 default_value) in
      if (associative row field).1 then (emitted (associative row field).0, true) else rest

  unfoldable pub resolve : Bytes → Vars Row → Any rt × Bool
  unfolding walk check_for_overflow
  resolve field vars =
      if check_for_overflow vars then (null, false) else walk field (reverse vars.rows) nil
