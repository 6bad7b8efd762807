-- ===== src/Plugins/Flatten/Spread.antt =====
-- `flatten` (plugins/flatten.go) beside the product of its columns.
use vfilter.Base.{
  ℕ, zero, suc, ◌*◌, ◌≤◌, ◌<◌, Option, none, some, List, [], ◌∷◌, ◌++◌, Bytes, equal, equal_iff,
  length, length-append, get_elem?, ◌≡◌, refl, sym, ap, ◌∙◌, subst, arith, Outcome, returns, panics,
  ◌>>=◌, Bool-cases, inl, inr,
}
use vfilter.Plugins.Flatten.{FlattenScope, collect, cell, real_member, flatten}

-- The first `n` names, the last one first.
abbrev pub columns : ℕ → List Bytes → List Bytes
columns zero ks = []
columns (suc n) ks = elim (get_elem? ks n) [ none ↦ columns n ks | some k ↦ k ∷ columns n ks ]

abbrev pub concat_map : {A B : Type 0} → (A → List B) → List A → List B
concat_map f [] = []
concat_map f (x ∷ xs) = f x ++ concat_map f xs

collect-concat_map :
    {A B : Type 0} (make : A → Outcome (List B)) (f : A → List B)
    → ((x : A) → make x ≡ returns (f x))
    → (xs : List A) → collect make xs ≡ returns (concat_map f xs)
unfolding collect
collect-concat_map make f h [] = refl
collect-concat_map make f h (x ∷ xs) = rw (h x) (rw (collect-concat_map make f h xs) refl)

length-concat_map :
    {A B : Type 0} (f : A → List B) (n : ℕ)
    → ((x : A) → length (f x) ≡ n)
    → (xs : List A) → length (concat_map f xs) ≡ length xs * n
length-concat_map f n h [] = omega arith
length-concat_map f n h (x ∷ xs) =
    length-append (f x) (concat_map f xs) ∙ ground (arith, h x, length-concat_map f n h xs)

get_elem?-inside :
    {A : Type 0} (xs : List A) (i : ℕ) → i < length xs → (x : A) × (get_elem? xs i ≡ some x)
get_elem?-inside [] i h = absurd (omega arith)
get_elem?-inside (x ∷ xs) zero h = (x, refl)
get_elem?-inside (x ∷ xs) (suc i) h = get_elem?-inside xs i (omega arith)

-- No name twice.
abbrev pub IsDistinct : List Bytes → Type 0
IsDistinct ks = (i j : ℕ) (k : Bytes) → get_elem? ks i ≡ some k → get_elem? ks j ≡ some k → i ≡ j

module _ {V : Type 0} (scope : FlattenScope V) where
  -- One row for each choice of a member in every column, as the row `item` has them; a cell without members
  -- stays as it is. The last column varies slowest.
  unfoldable pub spread : List Bytes → scope.Dict → scope.Dict → List scope.Dict
  spread [] item d = d ∷ []
  spread (c ∷ cs) item d = elim (scope.iterate (cell scope c item)) [
    | [] ↦ spread cs item d
    | m ∷ ms ↦ concat_map (λ v. spread cs item (scope.updated d c (real_member scope v))) (m ∷ ms)
  ]

  abbrev pub choices : List V → ℕ
  choices [] = 1
  choices (m ∷ ms) = length (m ∷ ms)

  abbrev pub product : List Bytes → scope.Dict → ℕ
  product [] item = 1
  product (c ∷ cs) item = choices (scope.iterate (cell scope c item)) * product cs item

  module _ (item : scope.Dict) where
    record Agrees (n : ℕ) (d : scope.Dict) : Type 0 where
      same_keys : scope.keys d ≡ scope.keys item
      same_cells :
          (j : ℕ) (k : Bytes)
          → j < n
          → get_elem? (scope.keys item) j ≡ some k
          → scope.get k d ≡ scope.get k item

    updated-Agrees :
        (n : ℕ) (d : scope.Dict) (k : Bytes) (v : V)
        → IsDistinct (scope.keys item)
        → Agrees (suc n) d
        → get_elem? (scope.keys item) n ≡ some k
        → Agrees n (scope.updated d k v)
    updated-Agrees n d k v distinct x at = record {
      same_keys =
          scope.keys_updated d n k v (subst (λ ks. get_elem? ks n ≡ some k) (sym x.same_keys) at)
          ∙ x.same_keys;
      same_cells = λ j k2 lt at2. scope.get_updated d k2 k v ∙ elim (Bool-cases (equal k k2)) [
        | inl e ↦
            absurd
              (omega (arith, distinct n j k at (at2 ∙ ap some (sym ((equal_iff k k2).0 e))), lt))
        | inr e ↦ rw e (x.same_cells j k2 (omega arith) at2)
      ];
    }

    fewer : (n : ℕ) (d : scope.Dict) → Agrees (suc n) d → Agrees n d
    fewer n d x = record {
      same_keys = x.same_keys;
      same_cells = λ j k lt at. x.same_cells j k (omega arith) at;
    }

    -- The rows for the members of a cell, as the code makes them and as they are described.
    abbrev flatten_members : ℕ → scope.Dict → Bytes → List V → Outcome (List scope.Dict)
    flatten_members n d k [] = flatten scope n d
    flatten_members n d k (m ∷ ms) =
        collect (λ v. flatten scope n (scope.updated d k (real_member scope v))) (m ∷ ms)

    abbrev spread_members : List Bytes → scope.Dict → Bytes → List V → List scope.Dict
    spread_members cs d k [] = spread cs item d
    spread_members cs d k (m ∷ ms) =
        concat_map (λ v. spread cs item (scope.updated d k (real_member scope v))) (m ∷ ms)

    flatten_at :
        (n : ℕ) (d : scope.Dict) (k : Bytes)
        → get_elem? (scope.keys d) n ≡ some k
        → flatten scope (suc n) d ≡ flatten_members n d k (scope.iterate (cell scope k d))
    unfolding flatten
    flatten_at n d k e =
        ap
          (λ (o : Option Bytes). (elim o [ none ↦ panics | some c ↦ returns c ]) >>= (λ c.
            elim (scope.iterate (cell scope c d)) [
              | [] ↦ flatten scope n d
              | m ∷ ms ↦
                  collect (λ v. flatten scope n (scope.updated d c (real_member scope v))) (m ∷ ms)
            ]))
          e
        ∙ members (scope.iterate (cell scope k d))
      where
        members :
            (ms : List V)
            → (elim ms [
              | [] ↦ flatten scope n d
              | m ∷ ms ↦
                  collect (λ v. flatten scope n (scope.updated d k (real_member scope v))) (m ∷ ms)
            ])
              ≡ flatten_members n d k ms
        members [] = refl
        members (m ∷ ms) = refl

    spread_at :
        (n : ℕ) (d : scope.Dict) (k : Bytes)
        → get_elem? (scope.keys item) n ≡ some k
        → spread (columns (suc n) (scope.keys item)) item d
          ≡ spread_members (columns n (scope.keys item)) d k (scope.iterate (cell scope k item))
    unfolding spread
    spread_at n d k e =
        ap
          (λ (o : Option Bytes).
            spread
              (elim o [
                | none ↦ columns n (scope.keys item)
                | some c ↦ c ∷ columns n (scope.keys item)
              ])
              item d)
          e
        ∙ members (scope.iterate (cell scope k item))
      where
        members :
            (ms : List V)
            → (elim ms [
              | [] ↦ spread (columns n (scope.keys item)) item d
              | m ∷ ms ↦
                  concat_map
                    (λ v.
                      spread
                        (columns n (scope.keys item))
                        item
                        (scope.updated d k (real_member scope v)))
                    (m ∷ ms)
            ])
              ≡ spread_members (columns n (scope.keys item)) d k ms
        members [] = refl
        members (m ∷ ms) = refl

    flatten_cells :
        (n : ℕ) (d : scope.Dict) (k : Bytes) (ms : List V)
        → flatten scope n d ≡ returns (spread (columns n (scope.keys item)) item d)
        → ((v : V)
            → flatten scope n (scope.updated d k (real_member scope v))
              ≡ returns (
                  spread
                    (columns n (scope.keys item))
                    item
                    (scope.updated d k (real_member scope v))))
        → flatten_members n d k ms ≡ returns (spread_members (columns n (scope.keys item)) d k ms)
    flatten_cells n d k [] h g = h
    flatten_cells n d k (m ∷ ms) h g = collect-concat_map _ _ g (m ∷ ms)

    flatten-Agrees :
        (n : ℕ) (d : scope.Dict)
        → IsDistinct (scope.keys item)
        → n ≤ length (scope.keys item)
        → Agrees n d
        → flatten scope n d ≡ returns (spread (columns n (scope.keys item)) item d)
    unfolding flatten spread
    flatten-Agrees zero d distinct inside x = refl
    flatten-Agrees (suc n) d distinct inside x =
        let (k, at) = get_elem?-inside (scope.keys item) n (omega arith) in
        flatten_at n d k (subst (λ ks. get_elem? ks n ≡ some k) (sym x.same_keys) at)
        ∙ ap
            (λ (o : Option V).
              flatten_members n d k (scope.iterate (elim o [ some v ↦ v | none ↦ scope.nil ])))
            (x.same_cells n k (omega arith) at)
        ∙ flatten_cells n d k (scope.iterate (cell scope k item))
            (flatten-Agrees n d distinct (omega arith) (fewer n d x))
            (λ v.
              flatten-Agrees n (scope.updated d k (real_member scope v)) distinct (omega arith)
                (updated-Agrees n d k (real_member scope v) distinct x at))
        ∙ ap returns (sym (spread_at n d k at))

    spread_cells :
        (c : Bytes) (cs : List Bytes) (d : scope.Dict) (ms : List V)
        → ((e : scope.Dict) → length (spread cs item e) ≡ product cs item)
        → length (elim ms [
          | [] ↦ spread cs item d
          | m ∷ ms ↦
              concat_map (λ v. spread cs item (scope.updated d c (real_member scope v))) (m ∷ ms)
        ])
          ≡ choices ms * product cs item
    spread_cells c cs d [] h = omega (arith, h d)
    spread_cells c cs d (m ∷ ms) h =
        length-concat_map _ _ (λ v. h (scope.updated d c (real_member scope v))) (m ∷ ms)

    length-spread : (cs : List Bytes) (d : scope.Dict) → length (spread cs item d) ≡ product cs item
    unfolding spread
    length-spread [] d = refl
    length-spread (c ∷ cs) d =
        spread_cells c cs d (scope.iterate (cell scope c item)) (λ e. length-spread cs e)

    -- A row whose columns have different names is flattened to one row for each choice of a member in every
    -- column, the last column varying slowest; the choices are those of the row itself, so no column that was
    -- flattened before makes a difference to them. Nothing panics, and there are as many rows as the product of
    -- the columns' numbers of members, where a cell without members counts as one.
    pub flatten-spread :
        IsDistinct (scope.keys item)
        → (flatten scope (length (scope.keys item)) item
            ≡ returns (spread (columns (length (scope.keys item)) (scope.keys item)) item item))
          × (length (spread (columns (length (scope.keys item)) (scope.keys item)) item item)
              ≡ product (columns (length (scope.keys item)) (scope.keys item)) item)
    flatten-spread distinct = (
      flatten-Agrees (length (scope.keys item)) item distinct (omega arith)
          (record { same_keys = refl; same_cells = λ j k lt at. refl }),
      length-spread (columns (length (scope.keys item)) (scope.keys item)) item,
    )
