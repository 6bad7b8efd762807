-- ===== src/Aggregates/Totals.antt =====
-- What `count`, `sum` and `enumerate` come to over the rows of a group.
use vfilter.Base.{
  ℕ, suc, ◌+◌, ◌^◌, ◌<◌, none, some, List, [], ◌∷◌, ◌++◌, length, map, ◌≡◌, refl, arith, ◌∙◌, ap,
  append-nil, append_assoc,
}
use vfilter.Base.Int.{ℤ, pos, wrap64, ◌+ℤ◌}
use vfilter.Value.{Runtime, Any, integer, array, Items, item, end, append, to_list, int64, uint64}
use vfilter.Aggregates.{count_call, sum_call, enumerate_call, calls, calls-step}
use vfilter.Protocols.Arith.Concat.{to_list-append}
use vfilter.Protocols.Arith.Integers.{wrap64-wrap64-add}

abbrev pub total : ℤ → List ℤ → ℤ
total acc [] = acc
total acc (x ∷ xs) = total (acc +ℤ x) xs

module _ {rt : Runtime} where
  abbrev counter : ℕ → Any rt
  counter n = integer uint64 (pos n)

  count_call-counter :
      (x : Any rt) (n : ℕ)
      → n + 1 < 2 ^ 64
      → count_call (some x) (some (counter n)) ≡ (counter (n + 1), some (counter (n + 1)))
  unfolding count_call
  count_call-counter x n h = ground arith

  count_from :
      (rows : List (Any rt)) (n m : ℕ)
      → n + length rows ≡ m
      → m < 2 ^ 64
      → calls count_call (some (counter n)) (some (counter n)) (map some rows)
        ≡ (some (counter m), some (counter m))
  unfolding calls
  count_from [] n m e h = let e' : n ≡ m = omega arith in rw e'
  count_from (x ∷ rows) n m e h =
      calls-step count_call (some x) (map some rows) none (some (counter n)) _
        (count_call-counter x n (omega arith))
      ∙ count_from rows (n + 1) m (omega arith) h

  -- Over a group of one row or more, and fewer than 2^64, `count` gives the number of the rows.
  pub count-length :
      (x : Any rt) (rows : List (Any rt))
      → length (x ∷ rows) < 2 ^ 64
      → (calls count_call none none (map some (x ∷ rows))).0
        ≡ some (integer uint64 (pos (length (x ∷ rows))))
  unfolding calls count_call
  count-length x rows h = ap (λ p. p.0) (count_from rows 1 (suc (length rows)) (omega arith) h)

  sum_call-wrap64 :
      (acc x : ℤ)
      → sum_call {rt = rt} (some x) (some (integer int64 (wrap64 acc)))
        ≡ (integer int64 (wrap64 (acc +ℤ x)), some (integer int64 (wrap64 (acc +ℤ x))))
  unfolding sum_call
  sum_call-wrap64 acc x =
      ap (λ z. (integer int64 z, some (integer int64 z))) (wrap64-wrap64-add acc x)

  sum_from :
      (xs : List ℤ) (acc : ℤ)
      → calls {rt = rt} sum_call
          (some (integer int64 (wrap64 acc)))
          (some (integer int64 (wrap64 acc)))
          (map some xs)
        ≡ (
          some (integer int64 (wrap64 (total acc xs))),
          some (integer int64 (wrap64 (total acc xs))),
        )
  unfolding calls
  sum_from [] acc = refl
  sum_from (x ∷ xs) acc =
      calls-step sum_call (some x) (map some xs) none (some (integer int64 (wrap64 acc))) _
        (sum_call-wrap64 acc x)
      ∙ sum_from xs (acc +ℤ x)

  -- Over a group of one row or more, `sum` gives the sum of the items, wrapped once to an int64.
  pub sum-total :
      (x : ℤ) (xs : List ℤ)
      → (calls {rt = rt} sum_call none none (map some (x ∷ xs))).0
        ≡ some (integer int64 (wrap64 (total (pos 0) (x ∷ xs))))
  unfolding calls sum_call
  sum-total x xs = ap (λ p. p.0) (sum_from xs (pos 0 +ℤ x))

  enumerate_from :
      (rows : List (Any rt)) (done : List (Any rt)) (xs : Items rt)
      → to_list xs ≡ done
      → (ys : Items rt) × (calls enumerate_call (some (array xs)) (some (array xs)) (map some rows)
          ≡ (some (array ys), some (array ys)))
        × (to_list ys ≡ done ++ rows)
  unfolding calls enumerate_call
  enumerate_from [] done xs e = (xs, refl, rw append-nil e)
  enumerate_from (x ∷ rows) done xs e =
      let (ys, f, g) =
        enumerate_from rows (done ++ x ∷ []) (append xs (item x end)) (rw (to_list-append, e)) in
      (ys, f, rw (← append_assoc done (x ∷ []) rows) g)

  -- Over a group of one row or more, `enumerate` gives the array of the items, in order.
  pub enumerate-rows :
      (x : Any rt) (rows : List (Any rt))
      → (ys : Items rt) × ((calls enumerate_call none none (map some (x ∷ rows))).0
          ≡ some (array ys))
        × (to_list ys ≡ x ∷ rows)
  unfolding calls enumerate_call
  enumerate-rows x rows =
      let (ys, e, f) = enumerate_from rows (x ∷ []) (item x end) refl in (ys, ap (λ p. p.0) e, f)
