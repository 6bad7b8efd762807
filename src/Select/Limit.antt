-- ===== src/Select/Limit.antt =====
-- What LIMIT leaves of the rows of a query.
use vfilter.Base.{
  ℕ, zero, suc, ◌+◌, ◌≤◌, Bool, true, false, Option, none, some, List, [], ◌∷◌, Bytes, take, ltb,
  if◌then◌else◌, ◌≡◌, refl, ap, ◌∙◌, arith,
}
use vfilter.Base.Int.{ℤ, pos, negsuc, ltb_ℤ, ◌+ℤ◌}
use vfilter.Value.{Runtime, Any}
use vfilter.Expr.{CommaExpression}
use vfilter.Protocols.Truth.{BoolImpl}
use vfilter.Scope.{Vars}
use vfilter.Select.{Query, limited, eval, eval_limited, eval_group_by, eval_ordered}

not_below : (n c : ℕ) → c ≤ n → ltb n c ≡ false
not_below n c h = ground arith

next_pos : (c : ℕ) → pos c +ℤ pos 1 ≡ pos (c + 1)
unfolding ◌+ℤ◌
next_pos c = ground arith

-- The number of rows that a limit lets through: at least one.
abbrev pub at_least_one : ℤ → ℕ
at_least_one (pos (suc n)) = suc n
at_least_one _ = 1

module _ {A : Type 0} where
  limited-next :
      (limit : ℤ) (c : ℕ) (row : A) (rows : List A) (b : Bool)
      → ltb_ℤ limit (pos (c + 1)) ≡ b
      → limited limit (pos c) (row ∷ rows)
        ≡ row ∷ (if b then [] else limited limit (pos (c + 1)) rows)
  unfolding limited
  limited-next limit c row rows b e = rw (next_pos c, e) refl

  limited-take :
      (rows : List A) (n c m : ℕ) → n ≡ c + m → limited (pos n) (pos c) rows ≡ take (suc m) rows
  unfolding limited
  limited-take [] n c m e = refl
  limited-take (row ∷ rows) n c zero e = limited-next (pos n) c row rows true (ground arith)
  limited-take (row ∷ rows) n c (suc m) e =
      limited-next (pos n) c row rows false (ground arith)
      ∙ ap (◌∷◌ row) (limited-take rows n (c + 1) m (omega arith))

  limited-one :
      (rows : List A) (limit : ℤ)
      → ltb_ℤ limit (pos 2) ≡ true
      → limited limit (pos 1) rows ≡ take 1 rows
  unfolding limited ◌+ℤ◌
  limited-one [] limit h = refl
  limited-one (row ∷ rows) limit h = rw h refl

  limited-at_least_one :
      (rows : List A) (limit : ℤ) → limited limit (pos 1) rows ≡ take (at_least_one limit) rows
  limited-at_least_one rows (pos zero) = limited-one rows (pos zero) refl
  limited-at_least_one rows (pos (suc n)) = limited-take rows (suc n) 1 n (omega arith)
  limited-at_least_one rows (negsuc n) = limited-one rows (negsuc n) (ground arith)

module _ {A : Type 0} where
  -- What the limit leaves of the rows: with a GROUP BY, all of them.
  abbrev pub cut : Option CommaExpression → ℤ → List A → List A
  cut none limit rows = take (at_least_one limit) rows
  cut (some clause) limit rows = rows

module _ {rt : Runtime} {Row : Type 0} (bool_impl : List (BoolImpl rt))
    (transform : Vars Row → Row → Row) (reduce : CommaExpression → Vars Row → Any rt)
    (materialize : Row → Vars Row → Row) (text : Any rt → Bytes)
    (sort : Bytes → Bool → List Row → List Row)
    (group : List (Row × Row × Bytes × Vars Row) → List Row) where
  abbrev pub run : Query → Vars Row → List Row → List Row
  run q vars rows = eval bool_impl transform reduce materialize text sort group q vars rows

  -- LIMIT z cuts what the query without it gives, sorted where there is an ORDER BY, to its first z
  -- rows, and to one row for a z of 0 or less; but a query with a GROUP BY gives the same rows whatever
  -- its limit is.
  pub eval-limit :
      (q : Query) (limit : ℤ) (vars : Vars Row) (rows : List Row)
      → run (record q { limit = some limit }) vars rows
        ≡ cut q.group_by limit (run (record q { limit = none }) vars rows)
  unfolding eval eval_limited eval_group_by eval_ordered
  eval-limit q limit vars rows = by_group q.group_by
    where
      by_group :
          (o : Option CommaExpression)
          → (elim o [
            | some group_by ↦
                eval_group_by bool_impl transform reduce materialize text sort group
                  (record q { limit = some limit })
                  group_by
                  vars
                  rows
            | none ↦
                eval_limited bool_impl transform reduce materialize text sort group
                  (record q { limit = some limit })
                  (some limit)
                  vars
                  rows
          ])
            ≡ cut o limit (elim o [
              | some group_by ↦
                  eval_group_by bool_impl transform reduce materialize text sort group
                    (record q { limit = none })
                    group_by
                    vars
                    rows
              | none ↦
                  eval_limited bool_impl transform reduce materialize text sort group
                    (record q { limit = none })
                    none
                    vars
                    rows
            ])
      by_group none = limited-at_least_one _ limit
      by_group (some clause) = refl
