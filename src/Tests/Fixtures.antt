-- ===== src/Tests/Fixtures.antt =====
-- A float64 in half units, a dictionary as an association list, and a scope whose symbols count how
-- often they are evaluated.
use vfilter.Base.{
  ℕ, suc, ◌/◌, Bool, true, false, Option, none, some, List, [], ◌∷◌, ◌++◌, Bytes, equal, equal_iff,
  if◌then◌else◌, ◌≡◌, refl, arith, Bool-cases, inl, inr, returns,
}
use vfilter.Base.Int.{ℤ, pos, negsuc, sub_ℕ, eqb_ℤ, ltb_ℤ, ◌+ℤ◌, ◌-ℤ◌, ◌*ℤ◌}
use vfilter.Value.{Runtime, null, bool}
use vfilter.OrderedDict.{OrderedDict}
use vfilter.Expr.{Scope}

abbrev pub halve : ℤ → ℤ
halve (pos n) = pos (n / 2)
halve (negsuc n) = sub_ℕ 0 (suc n / 2)

abbrev pub halves : Runtime
halves = record {
  Float = ℤ;
  of_int = λ z. z +ℤ z;
  to_int = halve;
  float_eq = eqb_ℤ;
  float_lt = ltb_ℤ;
  float_add = ◌+ℤ◌;
  float_sub = ◌-ℤ◌;
  float_mul = λ x y. halve (x *ℤ y);
  float_div = λ x y. x;
  Dict = ℕ;
  dict_len = λ d. d;
}

module _ {V : Type 0} where
  abbrev pub lookup : Bytes → List (Bytes × V) → Option V
  lookup k [] = none
  lookup k ((j, v) ∷ d) = if equal j k then some v else lookup k d

  abbrev pub insert : Bytes → V → List (Bytes × V) → List (Bytes × V)
  insert j v [] = (j, v) ∷ []
  insert j v ((i, w) ∷ d) =
      let rest = insert j v d in if equal i j then (i, v) ∷ d else (i, w) ∷ rest

  abbrev pub key_list : List (Bytes × V) → List Bytes
  key_list [] = []
  key_list ((j, v) ∷ d) = j ∷ key_list d

  pub lookup-insert :
      (k j : Bytes) (v : V) (d : List (Bytes × V))
      → lookup k (insert j v d) ≡ (if equal j k then some v else lookup k d)
  lookup-insert k j v [] = refl
  lookup-insert k j v ((i, w) ∷ d) = elim (Bool-cases (equal i j)) [
    | inl e ↦ rw (e, (equal_iff i j).0 e) (same (equal j k))
    | inr e ↦ ground (arith, lookup-insert k j v d, equal_iff i k, equal_iff j k, equal_iff i j)
  ]
    where
      same :
          (b : Bool)
          → (if b then some v else lookup k d)
            ≡ (if b then some v else if b then some w else lookup k d)
      same true = refl
      same false = refl

  pub key_list-insert :
      (k : Bytes) (v : V) (d : List (Bytes × V))
      → lookup k d ≡ none
      → key_list (insert k v d) ≡ key_list d ++ k ∷ []
  key_list-insert k v [] h = refl
  key_list-insert k v ((i, w) ∷ d) h = ground (arith, key_list-insert k v d)

  abbrev pub association_list : OrderedDict V
  association_list = record {
    Dict = List (Bytes × V);
    new_dict = [];
    get = lookup;
    set = insert;
    keys = key_list;
    get_new = λ k. refl;
    get_set = lookup-insert;
    keys_new = refl;
    keys_set = key_list-insert;
  }

-- A symbol is true, and counts.
abbrev pub counting : Scope halves ℕ
counting = record {
  eq_impl = [];
  lt_impl = [];
  gt_impl = [];
  add_impl = [];
  sub_impl = [];
  mul_impl = [];
  div_impl = [];
  bool_impl = [];
  membership_impl = [];
  match_regex = λ a b. false;
  associative = λ a k s. returns ((null, false), s);
  reduce_symbol = λ r eager lazy s. returns (bool true, suc s);
  parse_int = λ s. some (pos 7);
  parse_float = λ s. none;
  unquote_ident = λ s. s;
}
