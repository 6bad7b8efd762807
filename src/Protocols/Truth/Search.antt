-- ===== src/Protocols/Truth/Search.antt =====
-- `IN` finds what it looks for.
use vfilter.Base.{
  ℕ, zero, suc, Bool, true, none, some, List, [], ◌∷◌, ◌++◌, arith, ◌≡◌, refl, ap, ◌↔◌, inl, inr,
  Bytes, get_elem?, Bool-cases,
}
use vfilter.Value.{Runtime, Any, nil, string, array, Items, item, end, to_list}
use vfilter.Value.Convert.{maybe_reduce}
use vfilter.Protocols.Dispatch.{Impl, search}
use vfilter.Protocols.Compare.{eq}
use vfilter.Protocols.Truth.{member_reduced, is_prefix, contains, member_of, membership}

is_prefix_found : (p s : Bytes) → is_prefix p s ≡ true → (rest : Bytes) × (s ≡ p ++ rest)
is_prefix_found [] s h = (s, refl)
is_prefix_found (x ∷ p) [] h = absurd (ground arith)
is_prefix_found (x ∷ p) (y ∷ s) h =
    let (rest, e) = is_prefix_found p s (ground arith) in (rest, ground arith)

is_prefix-append : (p rest : Bytes) → is_prefix p (p ++ rest) ≡ true
is_prefix-append [] rest = refl
is_prefix-append (x ∷ p) rest = ground (arith, is_prefix-append p rest)

contains_found :
    (s p : Bytes) → contains s p ≡ true → (pre : Bytes) × (rest : Bytes) × (s ≡ pre ++ (p ++ rest))
unfolding contains
contains_found [] p h = let (rest, e) = is_prefix_found p [] h in ([], rest, e)
contains_found (x ∷ s) p h = elim (Bool-cases (is_prefix p (x ∷ s))) [
  | inl e ↦ let (rest, q) = is_prefix_found p (x ∷ s) e in ([], rest, q)
  | inr e ↦ let (pre, rest, q) = contains_found s p (ground arith) in (x ∷ pre, rest, ap (◌∷◌ x) q)
]

contains-append : (pre p rest : Bytes) → contains (pre ++ (p ++ rest)) p ≡ true
unfolding contains
contains-append [] [] [] = refl
contains-append [] [] (y ∷ rest) = refl
contains-append [] (x ∷ p) rest = ground (arith, is_prefix-append p rest)
contains-append (x ∷ pre) p rest = ground (arith, contains-append pre p rest)

module _ {rt : Runtime} (eqs impl : List (Impl rt Bool)) where
  -- One string is `IN` another exactly when it stands somewhere in it.
  membership-string :
      (s t : Bytes)
      → (membership eqs impl (string s) (string t) ≡ true)
        ↔ ((pre : Bytes) × (rest : Bytes) × (t ≡ pre ++ (s ++ rest)))
  unfolding membership
  membership-string s t = (λ h. contains_found t s h, λ h. rw h.2 (contains-append h.0 s h.1))

  member_found :
      (a : Any rt) (xs : Items rt)
      → member_of eqs a xs ≡ true
      → (i : ℕ) × (x : Any rt) × (get_elem? (to_list xs) i ≡ some x) × (eq eqs a x ≡ true)
  unfolding member_of
  member_found a end h = absurd (ground arith)
  member_found a (item x xs) h = elim (Bool-cases (eq eqs a x)) [
    | inl e ↦ (0, x, refl, e)
    | inr e ↦ let (i, y, at, q) = member_found a xs (ground arith) in (suc i, y, at, q)
  ]

  member_of-eq :
      (a : Any rt) (xs : Items rt) (i : ℕ) (x : Any rt)
      → get_elem? (to_list xs) i ≡ some x
      → eq eqs a x ≡ true
      → member_of eqs a xs ≡ true
  unfolding member_of
  member_of-eq a end i x h e = absurd (ground arith)
  member_of-eq a (item y ys) zero x h e = ground arith
  member_of-eq a (item y ys) (suc i) x h e = ground (arith, member_of-eq a ys i x h e)

  member_default-array :
      (a : Any rt) (xs : Items rt)
      → search impl a (array xs) ≡ none
      → member_reduced eqs impl a (array xs) ≡ member_of eqs a xs
  member_default-array nil xs h = ground arith
  member_default-array _ xs h = ground arith

  -- A value is `IN` a slice exactly when some element of the slice equals it, by the `=` of the scope,
  -- where no implementation of `IN` applies to the two.
  membership-array :
      (a : Any rt) (xs : Items rt)
      → search impl (maybe_reduce a) (array xs) ≡ none
      → (membership eqs impl a (array xs) ≡ true) ↔ (
          (i : ℕ) × (x : Any rt) × (get_elem? (to_list xs) i ≡ some x)
          × (eq eqs (maybe_reduce a) x ≡ true))
  unfolding membership
  membership-array a xs h =
      rw (member_default-array (maybe_reduce a) xs h)
        (member_found (maybe_reduce a) xs, λ w. member_of-eq (maybe_reduce a) xs w.0 w.1 w.2 w.3)
