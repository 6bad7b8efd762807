-- ===== src/Protocols/Arith/Concat.antt =====
-- `+` on slices.
use vfilter.Base.{true, ◌||◌, none, List, [], ◌∷◌, ◌++◌, arith, ◌≡◌, refl, ap, ◌≢◌}
use vfilter.Value.{Runtime, Any, nil, null, array, lazy, Items, item, end, append, to_list}
use vfilter.Value.Convert.{maybe_reduce, is_array, to_int64, to_float}
use vfilter.Protocols.Dispatch.{Impl, search}
use vfilter.Protocols.Arith.{add, add_reduced, convert_to_slice}

module _ {rt : Runtime} where
  pub to_list-append : (xs ys : Items rt) → to_list (append xs ys) ≡ to_list xs ++ to_list ys
  to_list-append end ys = refl
  to_list-append (item x xs) ys = ap (◌∷◌ x) (to_list-append xs ys)

  -- What a value adds to a concatenation: the elements of a slice, or the value itself.
  abbrev pub elements : Any rt → List (Any rt)
  elements (array xs) = to_list xs
  elements (lazy (array xs)) = to_list xs
  elements (lazy v) = v ∷ []
  elements v = v ∷ []

  add_reduced-slices :
      (impl : List (Impl rt (Any rt))) (a b : Any rt)
      → a ≢ nil
      → a ≢ null
      → (is_array a || is_array b) ≡ true
      → search impl a b ≡ none
      → add_reduced impl a b ≡ array (append (convert_to_slice a) (convert_to_slice b))
  unfolding to_int64 to_float
  add_reduced-slices impl (array xs) b hn hu s e = ground arith
  add_reduced-slices impl a (array ys) hn hu s e = ground arith
  add_reduced-slices impl a nil hn hu s e = ground arith
  add_reduced-slices impl a b hn hu s e = ground arith

  convert_to_slice-elements :
      (a : Any rt) → to_list (convert_to_slice (maybe_reduce a)) ≡ elements a
  convert_to_slice-elements (lazy (array xs)) = refl
  convert_to_slice-elements (lazy nil) = refl
  convert_to_slice-elements (lazy _) = refl
  convert_to_slice-elements (array xs) = refl
  convert_to_slice-elements nil = refl
  convert_to_slice-elements _ = refl

  -- Where one operand of `+` is a slice, the left one is not null and no implementation applies, the
  -- result is the slice of the left operand's elements and then the right one's, a value that is no
  -- slice counting as its own element.
  pub add-elements :
      (impl : List (Impl rt (Any rt))) (a b : Any rt)
      → maybe_reduce a ≢ nil
      → maybe_reduce a ≢ null
      → (is_array (maybe_reduce a) || is_array (maybe_reduce b)) ≡ true
      → search impl (maybe_reduce a) (maybe_reduce b) ≡ none
      → (zs : Items rt) × (add impl a b ≡ array zs) × (to_list zs ≡ elements a ++ elements b)
  unfolding add
  add-elements impl a b hn hu s e = (
    append (convert_to_slice (maybe_reduce a)) (convert_to_slice (maybe_reduce b)),
    add_reduced-slices impl (maybe_reduce a) (maybe_reduce b) hn hu s e,
    rw (to_list-append, convert_to_slice-elements, convert_to_slice-elements) refl,
  )
