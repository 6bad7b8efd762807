-- ===== src/ArgParser/Keys.antt =====
-- The names of the parsed fields, and the keys of the arguments.
use vfilter.Base.{
  Bool, true, false, not, ◌&&◌, ◌||◌, Option, none, some, List, [], ◌∷◌, ◌++◌, Bytes, equal,
  equal_iff, ◌≡◌, refl, ap, arith, Bool-cases, inl, inr,
}
use vfilter.Value.Convert.{in_string, in_string-append}
use vfilter.Value.Names.{all_in, distinct, all_in_self, all_in_back, distinct-append, all_in-append}
use vfilter.ArgParser.{Args, unexpected, check_unexpected}

abbrev pub is_some : {A : Type 0} → Option A → Bool
is_some none = false
is_some (some x) = true

-- Each key stands once, and the keys are those that have a value.
pub record IsDict {V : Type 0} (args : Args V) : Type 0 where
  pub keys_distinct : distinct args.keys ≡ true
  pub keys_listed : (k : Bytes) → in_string args.keys k ≡ is_some (args.get k)

unexpected-all_in :
    (parsed keys : List Bytes) → is_some (unexpected parsed keys) ≡ not (all_in keys parsed)
unexpected-all_in parsed [] = refl
unexpected-all_in parsed (key ∷ keys) = ground (arith, unexpected-all_in parsed keys)

pub check_unexpected-all_in :
    (parsed keys : List Bytes)
    → distinct parsed ≡ true
    → all_in parsed keys ≡ true
    → is_some (check_unexpected parsed keys) ≡ not (all_in keys parsed)
check_unexpected-all_in parsed keys d h =
    ground
      (arith, unexpected-all_in parsed keys, all_in_back keys parsed keys d h, all_in_self keys)

-- The fields that are parsed in the end.
abbrev pub with_field : {V : Type 0} → List Bytes → Bytes → Option V → List Bytes
with_field parsed name none = parsed
with_field parsed name (some v) = parsed ++ name ∷ []

module _ {V : Type 0} where
  pub in_string-with_field :
      (parsed : List Bytes) (name k : Bytes) (o : Option V)
      → in_string (with_field parsed name o) k ≡ (in_string parsed k || (is_some o && equal name k))
  in_string-with_field parsed name k none = ground arith
  in_string-with_field parsed name k (some v) = ground (arith, in_string-append parsed name k)

  pub distinct-with_field :
      (parsed : List Bytes) (name : Bytes) (o : Option V)
      → distinct parsed ≡ true
      → in_string parsed name ≡ false
      → distinct (with_field parsed name o) ≡ true
  distinct-with_field parsed name none d h = d
  distinct-with_field parsed name (some v) d h = rw (distinct-append parsed name, d, h) refl

module _ {V : Type 0} (args : Args V) where
  pub same_key :
      (name k : Bytes)
      → (is_some (args.get name) && equal name k) ≡ (is_some (args.get k) && equal name k)
  same_key name k = elim (Bool-cases (equal name k)) [
    | inl e ↦ ap (λ n. is_some (args.get n) && equal name k) ((equal_iff name k).0 e)
    | inr e ↦ rw e (ground arith)
  ]

  pub all_in-with_field :
      (parsed : List Bytes) (name : Bytes) (o : Option V)
      → all_in parsed args.keys ≡ true
      → in_string args.keys name ≡ is_some o
      → all_in (with_field parsed name o) args.keys ≡ true
  all_in-with_field parsed name none h e = h
  all_in-with_field parsed name (some v) h e = rw (all_in-append parsed args.keys name, h, e) refl
