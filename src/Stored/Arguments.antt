-- ===== src/Stored/Arguments.antt =====
-- What the check of the arguments reports.
use vfilter.Base.{
  Bool, true, false, not, ◌&&◌, ◌||◌, some, List, [], ◌∷◌, ◌++◌, Bytes, length, ltb, equal,
  equal_iff, if◌then◌else◌, ◌≡◌, refl, ap, ◌∙◌, arith,
}
use vfilter.Value.Convert.{in_string}
use vfilter.Value.Names.{all_in, distinct, distinct_le}
use vfilter.Stored.{
  Message, extra_arg, missing_arg, extra_args, seen_map, missing_args, check_calling_args,
}

-- The parameter `k` is reported as missing.
abbrev pub is_reported : Bytes → List Message → Bool
is_reported k [] = false
is_reported k (missing_arg j ∷ ms) = equal j k || is_reported k ms
is_reported k (extra_arg j ∷ ms) = is_reported k ms

is_reported-append :
    (k : Bytes) (ms ns : List Message)
    → is_reported k (ms ++ ns) ≡ (is_reported k ms || is_reported k ns)
is_reported-append k [] ns = refl
is_reported-append k (missing_arg j ∷ ms) ns = ground (arith, is_reported-append k ms ns)
is_reported-append k (extra_arg j ∷ ms) ns = is_reported-append k ms ns

is_reported-extra :
    (k : Bytes) (parameters keys : List Bytes) → is_reported k (extra_args parameters keys) ≡ false
is_reported-extra k parameters [] = refl
is_reported-extra k parameters (j ∷ keys) = ground (arith, is_reported-extra k parameters keys)

in_string-seen_map :
    (keys : List Bytes) (k : Bytes) → in_string (seen_map keys) k ≡ in_string keys k
unfolding in_string
in_string-seen_map [] k = refl
in_string-seen_map (j ∷ keys) k =
    ground (arith, in_string-seen_map keys k, in_string-seen_map keys j, equal_iff j k)

length-seen_map : (keys : List Bytes) → distinct keys ≡ true → length (seen_map keys) ≡ length keys
length-seen_map [] h = refl
length-seen_map (j ∷ keys) h = ground (arith, length-seen_map keys, in_string-seen_map keys j)

is_reported-missing :
    (k : Bytes) (seen parameters : List Bytes)
    → is_reported k (missing_args seen parameters)
      ≡ (in_string parameters k && not (in_string seen k))
unfolding in_string
is_reported-missing k seen [] = refl
is_reported-missing k seen (j ∷ parameters) =
    ground (arith, is_reported-missing k seen parameters, equal_iff j k)

-- Where the arguments are parameters, no two the same, a name is reported as missing if and only if it is
-- a parameter with no argument.
pub check_calling_args-missing :
    (parameters keys : List Bytes) (k : Bytes)
    → distinct keys ≡ true
    → all_in keys parameters ≡ true
    → is_reported k (check_calling_args (some parameters) keys)
      ≡ (in_string parameters k && not (in_string keys k))
unfolding check_calling_args
check_calling_args-missing parameters keys k d h =
    is_reported-append k (extra_args parameters keys) _
    ∙ rw (is_reported-extra k parameters keys)
        (by_count (ltb (length (seen_map keys)) (length parameters)) refl)
  where
    by_count :
        (b : Bool)
        → ltb (length (seen_map keys)) (length parameters) ≡ b
        → is_reported k (if b then missing_args (seen_map keys) parameters else [])
          ≡ (in_string parameters k && not (in_string keys k))
    by_count true e =
        is_reported-missing k (seen_map keys) parameters
        ∙ ap (λ b. in_string parameters k && not b) (in_string-seen_map keys k)
    by_count false e = ground (arith, distinct_le (k ∷ keys) parameters, length-seen_map keys d)
