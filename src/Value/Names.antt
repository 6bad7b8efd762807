-- ===== src/Value/Names.antt =====
-- Lists of names: sublists, and names that do not repeat.
use vfilter.Base.{
  ◌+◌, ◌≤◌, Bool, true, false, not, ◌&&◌, List, [], ◌∷◌, ◌++◌, Bytes, length, equal, equal_iff,
  if◌then◌else◌, ◌≡◌, refl, arith,
}
use vfilter.Value.Convert.{in_string, in_string-append}

abbrev pub all_in : List Bytes → List Bytes → Bool
all_in [] hay = true
all_in (k ∷ keys) hay = in_string hay k && all_in keys hay

-- No key stands twice.
abbrev pub distinct : List Bytes → Bool
distinct [] = true
distinct (k ∷ keys) = not (in_string keys k) && distinct keys

-- A list without the first place of `k`.
abbrev pub removed : Bytes → List Bytes → List Bytes
removed k [] = []
removed k (j ∷ hay) = let rest = removed k hay in if equal j k then hay else j ∷ rest

length-removed :
    (k : Bytes) (hay : List Bytes)
    → in_string hay k ≡ true
    → length hay ≡ length (removed k hay) + 1
unfolding in_string
length-removed k [] h = cc
length-removed k (j ∷ hay) h = ground (arith, length-removed k hay)

in_string-removed :
    (k m : Bytes) (hay : List Bytes)
    → equal k m ≡ false
    → in_string hay m ≡ true
    → in_string (removed k hay) m ≡ true
unfolding in_string
in_string-removed k m [] e h = h
in_string-removed k m (j ∷ hay) e h =
    ground (arith, in_string-removed k m hay e, equal_iff j k, equal_iff j m, equal_iff k m)

all_in-removed :
    (k : Bytes) (keys hay : List Bytes)
    → in_string keys k ≡ false
    → all_in keys hay ≡ true
    → all_in keys (removed k hay) ≡ true
unfolding in_string
all_in-removed k [] hay e h = refl
all_in-removed k (j ∷ keys) hay e h =
    ground
      (arith, all_in-removed k keys hay, in_string-removed k j hay, equal_iff j k, equal_iff k j)

-- Distinct keys among the parameters are no more than these.
pub distinct_le :
    (keys parameters : List Bytes)
    → distinct keys ≡ true
    → all_in keys parameters ≡ true
    → length keys ≤ length parameters
distinct_le [] parameters d h = omega arith
distinct_le (k ∷ keys) parameters d h = ground (
  arith,
  distinct_le keys (removed k parameters),
  length-removed k parameters,
  all_in-removed k keys parameters,
)

all_in-cons :
    (k : Bytes) (keys hay : List Bytes) → all_in keys hay ≡ true → all_in keys (k ∷ hay) ≡ true
unfolding in_string
all_in-cons k [] hay h = refl
all_in-cons k (j ∷ keys) hay h = ground (arith, all_in-cons k keys hay)

pub all_in_self : (keys : List Bytes) → all_in keys keys ≡ true
unfolding in_string
all_in_self [] = refl
all_in_self (k ∷ keys) = ground (arith, all_in-cons k keys keys, all_in_self keys, equal_iff k k)

pub distinct-append :
    (keys : List Bytes) (k : Bytes)
    → distinct (keys ++ k ∷ []) ≡ (distinct keys && not (in_string keys k))
unfolding in_string
distinct-append [] k = refl
distinct-append (j ∷ keys) k =
    ground (arith, distinct-append keys k, in_string-append keys k j, equal_iff j k, equal_iff k j)

pub all_in-append :
    (keys hay : List Bytes) (k : Bytes)
    → all_in (keys ++ k ∷ []) hay ≡ (all_in keys hay && in_string hay k)
unfolding in_string
all_in-append [] hay k = ground arith
all_in-append (j ∷ keys) hay k = ground (arith, all_in-append keys hay k)

-- A list of distinct names that is as long as one that has them all has all of that.
pub all_in_back :
    (keys xs ys : List Bytes)
    → distinct xs ≡ true
    → all_in xs ys ≡ true
    → length ys ≤ length xs
    → all_in keys ys ≡ true
    → all_in keys xs ≡ true
all_in_back [] xs ys d h e q = refl
all_in_back (k ∷ keys) xs ys d h e q =
    ground (arith, all_in_back keys xs ys d h e, distinct_le (k ∷ xs) ys)
