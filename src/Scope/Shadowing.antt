-- ===== src/Scope/Shadowing.antt =====
-- Which variable a name resolves to.
use mathlib.Core.List.{reverse, reverse-append}
use vfilter.Base.{
  ◌⊎◌, ◌+◌, ◌<◌, Bool, true, false, not, List, [], ◌∷◌, Bytes, ltb, if◌then◌else◌, Option, none,
  some, ◌≡◌, ◌≢◌, refl, ap, ◌∙◌, sym, arith, lt→ltb, Bool-cases, inl, inr,
}
use vfilter.Value.{Runtime, Any, nil, null}
use vfilter.Scope.{
  Vars, copy, append_vars, check_for_overflow, walk, resolve, is_nil, next_default, emitted,
}

module _ {rt : Runtime} where
  -- What a name resolves to: the newest variable; or else a default.
  abbrev pub meaning : Option (Any rt) → Any rt → Any rt × Bool
  meaning (some v) default_value = (emitted v, true)
  meaning none default_value = (default_value, not (is_nil default_value))

  abbrev kept : Any rt → Any rt → Any rt
  kept default_value later = if is_nil default_value then later else default_value

  kept_nil : (d : Any rt) → kept d nil ≡ d
  kept_nil nil = refl
  kept_nil _ = refl

  kept_next :
      (e d later : Any rt) → kept (next_default e d) later ≡ kept d (if is_nil e then later else e)
  kept_next e d later = elim (Bool-cases (is_nil e)) [
    | inl p ↦ rw p refl
    | inr p ↦ elim (Bool-cases (is_nil d)) [ inl q ↦ rw (p, q, p) refl | inr q ↦ rw (p, q, q) refl ]
  ]

  is_nil-emitted : (v : Any rt) → is_nil (emitted v) ≡ false
  is_nil-emitted nil = refl
  is_nil-emitted _ = refl

  -- What is present is not nil.
  abbrev NotNil : Any rt × Bool → Type 0
  NotNil r = r.1 ≡ true → is_nil r.0 ≡ false

  meaning-NotNil : (o : Option (Any rt)) (d : Any rt) → NotNil (meaning o d)
  meaning-NotNil (some v) d h = is_nil-emitted v
  meaning-NotNil none d h = ground arith

module _ {rt : Runtime} {Row : Type 0} (associative : Row → Bytes → Any rt × Bool) where
  -- The newest row that has the field.
  abbrev pub newest : Bytes → List Row → Option (Any rt)
  newest field [] = none
  newest field (row ∷ older) =
      let rest = newest field older in
      if (associative row field).1 then some (associative row field).0 else rest

  -- The first default that is not nil, in the rows newest first.
  abbrev pub first_default : Bytes → List Row → Any rt
  first_default field [] = nil
  first_default field (row ∷ older) =
      let rest = first_default field older in
      if is_nil (associative row field).0 then rest else (associative row field).0

  walk-meaning :
      (field : Bytes) (rows : List Row) (default_value : Any rt)
      → walk associative field rows default_value
        ≡ meaning (newest field rows) (kept default_value (first_default field rows))
  unfolding walk
  walk-meaning field [] d = rw kept_nil refl
  walk-meaning field (row ∷ rows) d =
      let rest =
        walk-meaning field rows (next_default (associative row field).0 d)
        ∙ ap (meaning (newest field rows))
            (kept_next (associative row field).0 d (first_default field rows)) in
      elim (Bool-cases (associative row field).1) [ inl p ↦ rw p refl | inr p ↦ rw p rest ]

  -- Below the depth of 1000, a name resolves to the newest variable of that name, with Go's nil read as
  -- null, and where there is none to the newest default that is not nil; from that depth on to none.
  pub resolve-meaning :
      (field : Bytes) (vars : Vars Row)
      → resolve associative field vars ≡ (
          if ltb vars.stack_depth 1000
          then meaning (newest field (reverse vars.rows)) (first_default field (reverse vars.rows))
          else (null, false))
  unfolding resolve check_for_overflow
  resolve-meaning field vars = ground (arith, walk-meaning field (reverse vars.rows) nil)

  overflow_below :
      (row : Row) (vars : Vars Row)
      → vars.stack_depth + 1 < 1000
      → check_for_overflow (append_vars row (copy vars)) ≡ false
  unfolding check_for_overflow copy append_vars
  overflow_below row vars h = rw (lt→ltb (vars.stack_depth + 1) 1000 h) refl

  -- A row that is appended to a copy of the scope shadows the older rows where it has the field; where
  -- it gives nil as absent, the field resolves as before. The copy is less deep than 1000.
  pub resolve-append_vars :
      (field : Bytes) (row : Row) (vars : Vars Row)
      → vars.stack_depth + 1 < 1000
      → ((associative row field).1 ≡ true) ⊎ (associative row field ≡ (nil, false))
      → resolve associative field (append_vars row (copy vars)) ≡ (
          if (associative row field).1
          then (emitted (associative row field).0, true)
          else resolve associative field vars)
  unfolding resolve check_for_overflow copy append_vars walk
  resolve-append_vars field row vars h (inl p) =
      rw (reverse-append vars.rows (row ∷ [])) (rw (overflow_below row vars h, p) refl)
  resolve-append_vars field row vars h (inr e) =
      rw (reverse-append vars.rows (row ∷ []))
        (rw (overflow_below row vars h, lt→ltb vars.stack_depth 1000 (omega arith), e) refl)

  -- The same without a copy.
  pub resolve-appended :
      (field : Bytes) (row : Row) (vars : Vars Row)
      → vars.stack_depth < 1000
      → ((associative row field).1 ≡ true) ⊎ (associative row field ≡ (nil, false))
      → resolve associative field (append_vars row vars) ≡ (
          if (associative row field).1
          then (emitted (associative row field).0, true)
          else resolve associative field vars)
  unfolding resolve check_for_overflow append_vars walk
  resolve-appended field row vars h (inl p) =
      rw (reverse-append vars.rows (row ∷ [])) (rw (lt→ltb vars.stack_depth 1000 h, p) refl)
  resolve-appended field row vars h (inr e) =
      rw (reverse-append vars.rows (row ∷ [])) (rw (lt→ltb vars.stack_depth 1000 h, e) refl)

  resolve-NotNil : (field : Bytes) (vars : Vars Row) → NotNil (resolve associative field vars)
  resolve-NotNil field vars = rw (resolve-meaning field vars) (go (ltb vars.stack_depth 1000))
    where
      go :
          (b : Bool)
          → NotNil (
              if b
              then meaning
                  (newest field (reverse vars.rows))
                  (first_default field (reverse vars.rows))
              else (null, false))
      go true =
          meaning-NotNil (newest field (reverse vars.rows))
            (first_default field (reverse vars.rows))
      go false = λ h. refl

  -- No name resolves to Go's nil as present.
  resolve-IsPresent :
      (field : Bytes) (vars : Vars Row) (v : Any rt)
      → resolve associative field vars ≡ (v, true)
      → v ≢ nil
  resolve-IsPresent field vars v e q =
      let present = resolve-NotNil field vars (ap (λ r. r.1) e) in
      let not_nil : is_nil v ≡ false = sym (ap (λ r. is_nil r.0) e) ∙ present in
      let is : is_nil v ≡ true = ap is_nil q in ground arith
