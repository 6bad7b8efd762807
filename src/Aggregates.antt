-- ===== src/Aggregates.antt =====
-- The aggregate functions of functions/aggregates.go. A call takes the arguments, none where
-- `ExtractArgs` fails, and the value that the function finds in the scope's context under its id, none
-- where there is none; it gives the result and the value that it leaves there. Logging is left out.
pub mod Totals
pub mod Extremes
use vfilter.Base.{
  ℕ, ◌+◌, ◌%◌, ◌^◌, Bool, true, false, not, Option, none, some, List, [], ◌∷◌, if◌then◌else◌, ◌≡◌,
  ap,
}
use vfilter.Base.Int.{ℤ, pos, negsuc, wrap64, ◌+ℤ◌}
use vfilter.Value.{Runtime, Any, nil, null, integer, array, Items, item, end, append, int64, uint64}
use vfilter.Protocols.Dispatch.{Impl}
use vfilter.Protocols.Compare.{lt}

-- `count + 1` on a uint64.
abbrev pub next_count : ℤ → ℤ
next_count (pos n) = pos ((n + 1) % 2 ^ 64)
next_count (negsuc n) = negsuc n

module _ {rt : Runtime} where
  -- The counter: it expects a uint64 of its own.
  abbrev pub counted : Any rt → Option (Any rt) → Any rt × Option (Any rt)
  counted (integer uint64 c) previous =
      (integer uint64 (next_count c), some (integer uint64 (next_count c)))
  counted v previous = (null, previous)

  unfoldable pub count_call : Option (Any rt) → Option (Any rt) → Any rt × Option (Any rt)
  count_call none previous = (null, previous)
  count_call (some items) none = counted (integer uint64 (pos 0)) none
  count_call (some items) (some v) = counted v (some v)

  -- The sum: it expects an int64 of its own.
  abbrev pub summed : ℤ → Any rt → Option (Any rt) → Any rt × Option (Any rt)
  summed x (integer int64 sum) previous =
      (integer int64 (wrap64 (sum +ℤ x)), some (integer int64 (wrap64 (sum +ℤ x))))
  summed x v previous = (null, previous)

  unfoldable pub sum_call : Option ℤ → Option (Any rt) → Any rt × Option (Any rt)
  sum_call none previous = (null, previous)
  sum_call (some x) none = summed x (integer int64 (pos 0)) none
  sum_call (some x) (some v) = summed x v (some v)

  -- The item is the reduced argument.
  unfoldable pub min_call :
      List (Impl rt Bool) → Option (Any rt) → Option (Any rt) → Any rt × Option (Any rt)
  min_call impl none previous = (null, previous)
  min_call impl (some v) none = (v, some v)
  min_call impl (some v) (some previous) =
      let least = if not (lt impl v previous) then previous else v in (least, some least)

  unfoldable pub max_call :
      List (Impl rt Bool) → Option (Any rt) → Option (Any rt) → Any rt × Option (Any rt)
  max_call impl none previous = (null, previous)
  max_call impl (some v) none = (v, some v)
  max_call impl (some v) (some previous) =
      let greatest = if lt impl v previous then previous else v in (greatest, some greatest)

  -- A context that holds no array leaves Go's nil.
  abbrev pub enumerated : Any rt → Any rt → Any rt × Option (Any rt)
  enumerated v (array xs) = (array (append xs (item v end)), some (array (append xs (item v end))))
  enumerated v previous = (nil, some nil)

  unfoldable pub enumerate_call : Option (Any rt) → Option (Any rt) → Any rt × Option (Any rt)
  enumerate_call none previous = (null, previous)
  enumerate_call (some v) none = (array (item v end), some (array (item v end)))
  enumerate_call (some v) (some previous) = enumerated v previous

  -- The calls for the rows of a group, in order: the result of the last one, none where there was no
  -- call, and the context that is left.
  unfoldable pub calls :
      {A : Type 0}
      → (A → Option (Any rt) → Any rt × Option (Any rt))
      → Option (Any rt)
      → Option (Any rt)
      → List A
      → Option (Any rt) × Option (Any rt)
  calls f result context [] = (result, context)
  calls f result context (x ∷ xs) = calls f (some (f x context).0) (f x context).1 xs

  -- One call, of the result `r`.
  pub calls-step :
      {A : Type 0} (f : A → Option (Any rt) → Any rt × Option (Any rt)) (x : A) (xs : List A)
      (result context : Option (Any rt)) (r : Any rt)
      → f x context ≡ (r, some r)
      → calls f result context (x ∷ xs) ≡ calls f (some r) (some r) xs
  unfolding calls
  calls-step f x xs result context r e = ap (λ p. calls f (some p.0) p.1 xs) e
