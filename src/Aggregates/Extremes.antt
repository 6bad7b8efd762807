-- ===== src/Aggregates/Extremes.antt =====
-- What `min` and `max` come to over the integers of a group.
use vfilter.Base.{
  Bool, false, not, none, some, List, [], ◌∷◌, map, ◌≡◌, refl, arith, ◌∙◌, ap, sym, if◌then◌else◌,
  ◌⊎◌, inl, inr, Bool-cases,
}
use vfilter.Base.Int.{ℤ, ◌≤ℤ◌, ◌<ℤ◌, ltb_ℤ}
use vfilter.Value.{Runtime, Any}
use vfilter.Protocols.Dispatch.{Impl}
use vfilter.Protocols.Compare.{lt}
use vfilter.Protocols.Compare.Order.{Whole, lt-int64, ltb_ℤ_iff}
use vfilter.Aggregates.{min_call, max_call, calls, calls-step}

module _ {rt : Runtime} where
  -- The values are integers, each of the number beside it.
  abbrev pub AllWhole : List (Any rt × ℤ) → Type 0
  AllWhole [] = Unit
  AllWhole ((v, x) ∷ rows) = Whole v x × AllWhole rows

  abbrev pub values : List (Any rt × ℤ) → List (Any rt)
  values [] = []
  values ((v, x) ∷ rows) = v ∷ values rows

  abbrev pub Among : Any rt → ℤ → List (Any rt × ℤ) → Type 0
  Among v x [] = ⊥
  Among v x ((w, y) ∷ rows) = ((v ≡ w) × (x ≡ y)) ⊎ Among v x rows

  abbrev pub AtMostAll : ℤ → List (Any rt × ℤ) → Type 0
  AtMostAll x [] = Unit
  AtMostAll x ((w, y) ∷ rows) = (x ≤ℤ y) × AtMostAll x rows

  abbrev pub AtLeastAll : ℤ → List (Any rt × ℤ) → Type 0
  AtLeastAll x [] = Unit
  AtLeastAll x ((w, y) ∷ rows) = (y ≤ℤ x) × AtLeastAll x rows

module _ {rt : Runtime} (impl : List (Impl rt Bool)) where
  min_call-some :
      (v' v w : Any rt)
      → (if not (lt impl v' v) then v else v') ≡ w
      → min_call impl (some v') (some v) ≡ (w, some w)
  unfolding min_call
  min_call-some v' v w e = ap (λ z. (z, some z)) e

  max_call-some :
      (v' v w : Any rt)
      → (if lt impl v' v then v else v') ≡ w
      → max_call impl (some v') (some v) ≡ (w, some w)
  unfolding max_call
  max_call-some v' v w e = ap (λ z. (z, some z)) e

  false_lt : (v' v : Any rt) (x' x : ℤ) → Whole v' x' → Whole v x → lt impl v' v ≡ false → x ≤ℤ x'
  false_lt v' v x' x h' h e =
      let e' : ltb_ℤ x' x ≡ false = sym (lt-int64 impl v' v x' x h' h) ∙ e in ground arith

  min_from :
      (rows : List (Any rt × ℤ)) (v : Any rt) (x : ℤ)
      → Whole v x
      → AllWhole rows
      → (w : Any rt) × (y : ℤ) × (calls (min_call impl) (some v) (some v) (map some (values rows))
          ≡ (some w, some w))
        × Among w y ((v, x) ∷ rows)
        × AtMostAll y ((v, x) ∷ rows)
  unfolding calls
  min_from [] v x h a = (v, x, refl, inl (refl, refl), (omega arith, tt))
  min_from ((v', x') ∷ rows) v x h a = elim (Bool-cases (lt impl v' v)) [
    | inl e ↦
        let (w, y, r, m, l) = min_from rows v' x' a.0 a.1 in
        let less : x' <ℤ x = (ltb_ℤ_iff x' x).0 (sym (lt-int64 impl v' v x' x a.0 h) ∙ e) in
        let first = min_call-some v' v v' (rw e refl) in
        (
          w,
          y,
          calls-step (min_call impl) (some v') (map some (values rows)) none (some v) _ first ∙ r,
          inr m,
          (omega (arith, less, l.0), l),
        )
    | inr e ↦
        let (w, y, r, m, l) = min_from rows v x h a.1 in
        let not_less = false_lt v' v x' x a.0 h e in
        let least : x ≤ℤ x' = omega (arith, not_less) in
        let first = min_call-some v' v v (rw e refl) in
        (
          w,
          y,
          calls-step (min_call impl) (some v') (map some (values rows)) none (some v) _ first ∙ r,
          elim m [ inl p ↦ inl p | inr p ↦ inr (inr p) ],
          (l.0, (omega (arith, least, l.0), l.1)),
        )
  ]

  -- Over a group of integers (of any of the types but `uint`, or pointers to them) whose numbers fit an
  -- int64, `min` gives one of
  -- the items, and its number is at most that of every item, whatever implementations are registered.
  pub min-least :
      (v : Any rt) (x : ℤ) (rows : List (Any rt × ℤ))
      → Whole v x
      → AllWhole rows
      → (w : Any rt) × (y : ℤ) × ((calls
            (min_call impl)
            none
            none
            (map some (values ((v, x) ∷ rows)))).0
          ≡ some w)
        × Among w y ((v, x) ∷ rows)
        × AtMostAll y ((v, x) ∷ rows)
  unfolding calls min_call
  min-least v x rows h a =
      let (w, y, r, m, l) = min_from rows v x h a in (w, y, ap (λ p. p.0) r, m, l)

  max_from :
      (rows : List (Any rt × ℤ)) (v : Any rt) (x : ℤ)
      → Whole v x
      → AllWhole rows
      → (w : Any rt) × (y : ℤ) × (calls (max_call impl) (some v) (some v) (map some (values rows))
          ≡ (some w, some w))
        × Among w y ((v, x) ∷ rows)
        × AtLeastAll y ((v, x) ∷ rows)
  unfolding calls
  max_from [] v x h a = (v, x, refl, inl (refl, refl), (omega arith, tt))
  max_from ((v', x') ∷ rows) v x h a = elim (Bool-cases (lt impl v' v)) [
    | inl e ↦
        let (w, y, r, m, l) = max_from rows v x h a.1 in
        let less : x' <ℤ x = (ltb_ℤ_iff x' x).0 (sym (lt-int64 impl v' v x' x a.0 h) ∙ e) in
        let least : x' ≤ℤ x = omega (arith, less) in
        let first = max_call-some v' v v (rw e refl) in
        (
          w,
          y,
          calls-step (max_call impl) (some v') (map some (values rows)) none (some v) _ first ∙ r,
          elim m [ inl p ↦ inl p | inr p ↦ inr (inr p) ],
          (l.0, (omega (arith, least, l.0), l.1)),
        )
    | inr e ↦
        let (w, y, r, m, l) = max_from rows v' x' a.0 a.1 in
        let not_less = false_lt v' v x' x a.0 h e in
        let first = max_call-some v' v v' (rw e refl) in
        (
          w,
          y,
          calls-step (max_call impl) (some v') (map some (values rows)) none (some v) _ first ∙ r,
          inr m,
          (omega (arith, not_less, l.0), l),
        )
  ]

  -- Over a group of integers (of any of the types but `uint`, or pointers to them) `max` gives one of
  -- the items, and its number is at least that of every item, whatever implementations are registered.
  max-greatest :
      (v : Any rt) (x : ℤ) (rows : List (Any rt × ℤ))
      → Whole v x
      → AllWhole rows
      → (w : Any rt) × (y : ℤ) × ((calls
            (max_call impl)
            none
            none
            (map some (values ((v, x) ∷ rows)))).0
          ≡ some w)
        × Among w y ((v, x) ∷ rows)
        × AtLeastAll y ((v, x) ∷ rows)
  unfolding calls max_call
  max-greatest v x rows h a =
      let (w, y, r, m, l) = max_from rows v x h a in (w, y, ap (λ p. p.0) r, m, l)
