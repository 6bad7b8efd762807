-- ===== src/Protocols/Slices/Bounds.antt =====
-- Indices and slices stay within bounds, and slices at one bound put a list together again.
use vfilter.Base.{
  ℕ, zero, suc, ◌-◌, ◌≤◌, ◌<◌, ◌≡◌, refl, Bool, true, false, Option, none, some, List, [], ◌∷◌,
  ◌++◌, arith, length, take, drop, get_elem?, ltb, if◌then◌else◌, take_all,
}
use vfilter.Base.Int.{ℤ, pos, negsuc, ◌+ℤ◌, ◌≤ℤ◌}
use vfilter.Value.{Runtime, Any, array, to_list, Items}
use vfilter.Protocols.Slices.{get_ranges, slice_list, associative_index}

-- Whatever bounds the query gives: the lower one is not negative, and the upper one is at most the
-- length and not negative, so that no slice that is taken reaches out of the array.
pub get_ranges_bounds :
    (start stop : Option ℤ) (n : ℕ)
    → (pos 0 ≤ℤ (get_ranges start stop (pos n)).0)
      × (pos 0 ≤ℤ (get_ranges start stop (pos n)).1)
      × ((get_ranges start stop (pos n)).1 ≤ℤ pos n)
unfolding get_ranges ◌+ℤ◌
get_ranges_bounds none none n = ground arith
get_ranges_bounds none (some j) n = ground arith
get_ranges_bounds (some i) none n = ground arith
get_ranges_bounds (some i) (some j) n = ground arith

-- Where the slices at `i` are cut.
abbrev cut : ℤ → ℕ → ℕ
cut (pos k) n = k
cut (negsuc k) n = n - suc k

ranges_before :
    (i : ℤ) (n : ℕ)
    → get_ranges none (some i) (pos n) ≡ (pos 0, pos (if ltb n (cut i n) then n else cut i n))
unfolding get_ranges ◌+ℤ◌
ranges_before (pos k) n = ground arith
ranges_before (negsuc k) n = ground arith

ranges_after : (i : ℤ) (n : ℕ) → get_ranges (some i) none (pos n) ≡ (pos (cut i n), pos n)
unfolding get_ranges ◌+ℤ◌
ranges_after (pos k) n = ground arith
ranges_after (negsuc k) n = ground arith

module _ {A : Type 0} where
  take-drop-all : (k : ℕ) (xs : List A) → take k xs ++ drop k xs ≡ xs
  take-drop-all zero xs = refl
  take-drop-all (suc k) [] = refl
  take-drop-all (suc k) (x ∷ xs) = rw (take-drop-all k xs)

  length-drop : (k : ℕ) (xs : List A) → length (drop k xs) ≡ length xs - k
  length-drop zero xs = omega arith
  length-drop (suc k) [] = omega arith
  length-drop (suc k) (x ∷ xs) = omega (arith, length-drop k xs)

  drop_all : (k : ℕ) (xs : List A) → length xs ≤ k → drop k xs ≡ []
  drop_all zero [] h = refl
  drop_all zero (x ∷ xs) h = absurd (omega arith)
  drop_all (suc k) [] h = refl
  drop_all (suc k) (x ∷ xs) h = drop_all k xs (omega arith)

  take_none : (k : ℕ) (xs : List A) → k ≡ 0 → take k xs ≡ []
  take_none zero xs h = refl
  take_none (suc k) xs h = absurd (omega arith)

  slice_before : (i : ℤ) (xs : List A) → slice_list none (some i) xs ≡ take (cut i (length xs)) xs
  unfolding slice_list
  slice_before i xs = ground (
    arith,
    ranges_before i (length xs),
    take_all xs (length xs),
    take_all xs (cut i (length xs)),
    take_none (cut i (length xs)) xs,
  )

  slice_after : (i : ℤ) (xs : List A) → slice_list (some i) none xs ≡ drop (cut i (length xs)) xs
  unfolding slice_list
  slice_after i xs =
      let k = cut i (length xs) in
      ground (
        arith,
        ranges_after i (length xs),
        drop_all k xs,
        take_all (drop k xs) (length xs - k),
        length-drop k xs,
      )

  -- The slices `xs[:i]` and `xs[i:]` at any bound, negative or out of range, make up the whole list.
  slice_split :
      (i : ℤ) (xs : List A) → slice_list none (some i) xs ++ slice_list (some i) none xs ≡ xs
  slice_split i xs = rw (slice_before, slice_after) (take-drop-all (cut i (length xs)) xs)

module _ {rt : Runtime} where
  index_in_range :
      (xs : List (Any rt)) (i : ℕ) → i < length xs → (v : Any rt) × (get_elem? xs i ≡ some v)
  index_in_range [] i h = absurd (omega arith)
  index_in_range (x ∷ xs) zero h = (x, refl)
  index_in_range (x ∷ xs) (suc i) h = index_in_range xs i (omega arith)

  get_elem?-none : (xs : List (Any rt)) (i : ℕ) → length xs ≤ i → get_elem? xs i ≡ none
  get_elem?-none [] i h = refl
  get_elem?-none (x ∷ xs) zero h = absurd (omega arith)
  get_elem?-none (x ∷ xs) (suc i) h = get_elem?-none xs i (omega arith)

  -- What an index finds: counted from the front, or from the end if it is negative.
  abbrev pub element_at : List (Any rt) → ℤ → Option (Any rt)
  element_at xs (pos k) = get_elem? xs k
  element_at xs (negsuc k) = if ltb k (length xs) then get_elem? xs (length xs - suc k) else none

  -- The result is the element, as present, or is absent.
  abbrev pub Found : Option (Any rt) → Any rt × Bool → Type 0
  Found (some v) r = r ≡ (v, true)
  Found none r = r.1 ≡ false

  Found-element :
      (xs : Items rt) (i : ℤ) (o : Option (Any rt))
      → element_at (to_list xs) i ≡ o
      → Found o (associative_index (array xs) i)
  unfolding associative_index ◌+ℤ◌
  Found-element xs (pos k) (some v) e = ground (arith, get_elem?-none (to_list xs) k)
  Found-element xs (pos k) none e = ground arith
  Found-element xs (negsuc k) (some v) e = ground arith
  Found-element xs (negsuc k) none e =
      ground (arith, index_in_range (to_list xs) (length (to_list xs) - suc k))

  -- An index into a slice gives the element that it names, as present; an index that names no element
  -- gives an absent value.
  associative_index-element :
      (xs : Items rt) (i : ℤ) → Found (element_at (to_list xs) i) (associative_index (array xs) i)
  associative_index-element xs i = Found-element xs i (element_at (to_list xs) i) refl
