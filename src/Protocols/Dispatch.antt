-- ===== src/Protocols/Dispatch.antt =====
-- The implementations that a client registers with a dispatcher (`impl`, `AddImpl` and the search
-- loop, which are alike in each protocols/protocol_*.go).
use mathlib.Core.List.{reverse, reverse-append}
use vfilter.Base.{
  Bool, Option, none, some, List, [], ◌∷◌, ◌++◌, ◌≡◌, refl, if◌then◌else◌, arith, append_assoc,
}
use vfilter.Value.{Runtime, Any}

-- An implementation of a protocol of two operands with results in `R`.
pub record Impl (rt : Runtime) (R : Type 0) : Type 0 where
  pub applicable : Any rt → Any rt → Bool
  pub run : Any rt → Any rt → R

-- What a switch decides, or else what the code behind it does.
abbrev pub or_else {ℓ} : {R : Type ℓ} → Option R → R → R
or_else none r = r
or_else (some x) r = x

module _ {rt : Runtime} {R : Type 0} where
  -- The first implementation that is applicable is run.
  unfoldable pub search : List (Impl rt R) → Any rt → Any rt → Option R
  search [] a b = none
  search (i ∷ impl) a b = if i.applicable a b then some (i.run a b) else search impl a b

  -- Each element goes to the front.
  unfoldable pub add_impl : List (Impl rt R) → List (Impl rt R) → List (Impl rt R)
  add_impl impl [] = impl
  add_impl impl (e ∷ elements) = add_impl (e ∷ impl) elements

  add_impl-reverse :
      (impl elements : List (Impl rt R)) → add_impl impl elements ≡ reverse elements ++ impl
  unfolding add_impl
  add_impl-reverse impl [] = refl
  add_impl-reverse impl (e ∷ elements) =
      rw (add_impl-reverse (e ∷ impl) elements, reverse-append (e ∷ []) elements, append_assoc)

  search-append :
      (xs ys : List (Impl rt R)) (a b : Any rt)
      → search (xs ++ ys) a b ≡ (elim (search xs a b) [ none ↦ search ys a b | some r ↦ some r ])
  unfolding search
  search-append [] ys a b = refl
  search-append (x ∷ xs) ys a b = ground (arith, search-append xs ys a b)

  -- Of the implementations registered, in calls of one or more, the one registered last wins among
  -- those that apply; the earlier ones are asked only if no later one applies.
  pub search-add_impl :
      (impl elements : List (Impl rt R)) (a b : Any rt)
      → search (add_impl impl elements) a b
        ≡ (elim (search (reverse elements) a b) [ none ↦ search impl a b | some r ↦ some r ])
  search-add_impl impl elements a b =
      rw add_impl-reverse (search-append (reverse elements) impl a b)
