-- ===== src/LazyRow/Cache.antt =====
-- The cache of a lazy row, and all of its columns at once.
use vfilter.Base.{
  subst, Bool, true, false, Option, none, some, List, [], ◌∷◌, All, Bytes, equal, equal_iff,
  if◌then◌else◌, Outcome, returns, panics, hangs, ◌≡◌, refl, sym, ap, ◌∙◌, Bool-cases, inl, inr,
}
use vfilter.OrderedDict.{OrderedDict}
use vfilter.Expr.Monad.{Eval, bind-returns}
use vfilter.LazyRow.{
  LazyRow, is_present, get, get_new, get_cached, column_value, set_columns, materialize,
}

module _ {V : Type 0} (dict : OrderedDict V) (value : Bytes → V) where
  -- All columns, evaluated in order.
  abbrev pub eager : List Bytes → dict.Dict → dict.Dict
  eager [] result = result
  eager (column ∷ columns) result = eager columns (dict.set column (value column) result)

  coherent_set :
      (key k : Bytes) (v w : V) (d : dict.Dict)
      → v ≡ value key
      → (dict.get k d ≡ some w → w ≡ value k)
      → dict.get k (dict.set key v d) ≡ some w
      → w ≡ value k
  coherent_set key k v w d e old f = elim (Bool-cases (equal key k)) [
    | inl same ↦
        let name : key ≡ k = (equal_iff key k).0 same in
        let q : some v ≡ some w =
          sym (ap (λ b. if b then some v else dict.get k d) same)
          ∙ sym (dict.get_set k key v d)
          ∙ f in
        cc
    | inr other ↦ old (
        sym (ap (λ b. if b then some v else dict.get k d) other) ∙ sym (dict.get_set k key v d) ∙ f)
  ]

module _ {Scope V : Type 0} where
  -- Where the value of a column comes from: the row's own scope if the column is in the cache.
  abbrev pub read_in : Option V → Scope → Scope → Scope
  read_in none own scope = scope
  read_in (some v) own scope = own

module _ {Scope V : Type 0} (dict : OrderedDict V) (value : Scope → Bytes → V) where
  -- The value of a column that is read through this cache.
  abbrev pub value_in : dict.Dict → Scope → Scope → Bytes → V
  value_in cache own scope column = value (read_in (dict.get column cache) own scope) column

module _ {Scope S V : Type 0} (dict : OrderedDict V) (null_value : V) where
  -- Where the code returns, its result satisfies `P`.
  abbrev pub Gives :
      ((V × Bool) × LazyRow Scope S dict → S → Type 0)
      → Outcome (((V × Bool) × LazyRow Scope S dict) × S)
      → Type 0
  Gives P (returns (r, t)) = P r t
  Gives P panics = Unit
  Gives P hangs = Unit

  get-Gives :
      (P : (V × Bool) × LazyRow Scope S dict → S → Type 0) (key : Bytes)
      (row : LazyRow Scope S dict) (s : S)
      → ((v : V) → dict.get key row.cache ≡ some v → P ((v, true), row) s)
      → (dict.get key row.cache ≡ none → row.getters key ≡ none → P ((null_value, false), row) s)
      → ((getter : Scope → Eval S V) (v : V) (t : S)
          → row.getters key ≡ some getter
          → getter row.scope s ≡ returns (v, t)
          → P ((v, true), record row { cache = dict.set key v row.cache }) t)
      → Gives P (get dict null_value key row s)
  unfolding get
  get-Gives P key row s cached missing fresh = by_cache (dict.get key row.cache) refl
    where
      by_outcome :
          (getter : Scope → Eval S V) (m : Outcome (V × S))
          → row.getters key ≡ some getter
          → getter row.scope s ≡ m
          → Gives P (elim m [
            | returns (res, u) ↦
                returns (((res, true), record row { cache = dict.set key res row.cache }), u)
            | panics ↦ panics
            | hangs ↦ hangs
          ])
      by_outcome getter (returns (v, t)) g e = fresh getter v t g e
      by_outcome getter panics g e = tt
      by_outcome getter hangs g e = tt

      by_getter :
          (g : Option (Scope → Eval S V))
          → dict.get key row.cache ≡ none
          → row.getters key ≡ g
          → Gives P (get_new dict null_value key g row s)
      by_getter none c e = missing c e
      by_getter (some getter) c e = by_outcome getter (getter row.scope s) e refl

      by_cache :
          (c : Option V)
          → dict.get key row.cache ≡ c
          → Gives P (get_cached dict null_value key c row s)
      by_cache none c = by_getter (row.getters key) c refl
      by_cache (some v) c = cached v c

  -- A second call gives the same, and changes neither the row nor the state.
  abbrev Repeats : Bytes → (V × Bool) × LazyRow Scope S dict → S → Type 0
  Repeats key r t = (u : S) → get dict null_value key r.1 u ≡ returns (r, u)

  get-cached_value :
      (key : Bytes) (row : LazyRow Scope S dict) (v : V)
      → dict.get key row.cache ≡ some v
      → (u : S) → get dict null_value key row u ≡ returns (((v, true), row), u)
  unfolding get
  get-cached_value key row v c u = ap (λ o. get_cached dict null_value key o row u) c

  get-Repeats :
      (key : Bytes) (row : LazyRow Scope S dict) (s : S)
      → Gives (Repeats key) (get dict null_value key row s)
  unfolding get
  get-Repeats key row s =
      get-Gives (Repeats key) key row s (λ v c u. get-cached_value key row v c u)
        (λ c g u.
          ap (λ o. get_cached dict null_value key o row u) c
          ∙ ap (λ o. get_new dict null_value key o row u) g)
        (λ getter v t g e u.
          get-cached_value key (record row { cache = dict.set key v row.cache }) v
            (dict.get_set key key v row.cache
              ∙ ap (λ b. if b then some v else dict.get key row.cache) ((equal_iff key key).1 refl))
            u)

  -- Once `Get` has returned for a key, any later `Get` of that key, in whatever state, returns the same
  -- value and changes neither the row nor the state: the getter is not run again.
  get-get :
      (key : Bytes) (row row' : LazyRow Scope S dict) (r : V × Bool) (s t u : S)
      → get dict null_value key row s ≡ returns ((r, row'), t)
      → get dict null_value key row' u ≡ returns ((r, row'), u)
  get-get key row row' r s t u e = subst (Gives (Repeats key)) e (get-Repeats key row s) u

  module _ (value : Scope → Bytes → V) where
    -- The getters have no effect and give these values, whatever the state is; and the cache holds
    -- the values of the row's own scope and no other.
    pub record IsPure (row : LazyRow Scope S dict) : Type 0 where
      pub pure_getters :
          (key : Bytes) (getter : Scope → Eval S V)
          → row.getters key ≡ some getter
          → (scope : Scope) (s : S) → getter scope s ≡ returns (value scope key, s)
      pub coherent :
          (key : Bytes) (v : V) → dict.get key row.cache ≡ some v → v ≡ value row.scope key
      pub complete : All (λ column. is_present (row.getters column) ≡ true) row.columns

    abbrev Same : LazyRow Scope S dict → S → (V × Bool) × LazyRow Scope S dict → S → Type 0
    Same row s r t = (r.1.columns ≡ row.columns) × (r.1.scope ≡ row.scope) × IsPure r.1 × (t ≡ s)

    get-Same :
        (key : Bytes) (row : LazyRow Scope S dict) (s : S)
        → IsPure row
        → Gives (Same row s) (get dict null_value key row s)
    get-Same key row s h =
        get-Gives (Same row s) key row s (λ v c. (refl, refl, h, refl))
          (λ c g. (refl, refl, h, refl))
          (λ getter v t g e.
            let q : ◌≡◌ {A = Outcome (V × S)} (returns (v, t)) (returns (value row.scope key, s)) =
              sym e ∙ h.pure_getters key getter g row.scope s in
            let same : v ≡ value row.scope key = cc in
            (
              refl,
              refl,
              record {
                pure_getters = h.pure_getters;
                coherent = λ k w f.
                    coherent_set dict (value row.scope) key k v w row.cache same (h.coherent k w) f;
                complete = h.complete;
              },
              cc,
            ))

    -- Calls of `Get`, one after the other, each in whatever state.
    pub data Accessed : LazyRow Scope S dict → LazyRow Scope S dict → Type 0 where
      unread : {row : LazyRow Scope S dict} → Accessed row row
      read :
          {row row1 row2 : LazyRow Scope S dict} (key : Bytes) (r : V × Bool) (s t : S)
          → get dict null_value key row s ≡ returns ((r, row1), t)
          → Accessed row1 row2
          → Accessed row row2

    read-Same :
        (key : Bytes) (row row1 : LazyRow Scope S dict) (r : V × Bool) (s t : S)
        → IsPure row
        → get dict null_value key row s ≡ returns ((r, row1), t)
        → (row1.columns ≡ row.columns) × (row1.scope ≡ row.scope) × IsPure row1
    read-Same key row row1 r s t h e =
        let same = subst (Gives (Same row s)) e (get-Same key row s h) in (same.0, same.1, same.2)

    Accessed-IsPure :
        {row row' : LazyRow Scope S dict}
        → IsPure row
        → Accessed row row'
        → (row'.columns ≡ row.columns) × (row'.scope ≡ row.scope) × IsPure row'
    Accessed-IsPure h unread = (refl, refl, h)
    Accessed-IsPure {row} h (read {row1 = row1} key r s t e more) =
        let (c1, o1, h1) = read-Same key row row1 r s t h e in
        let (c2, o2, h2) = Accessed-IsPure h1 more in (c2 ∙ c1, o2 ∙ o1, h2)

    column_value-pure :
        (row : LazyRow Scope S dict) (scope : Scope) (s : S) (column : Bytes)
        → IsPure row
        → is_present (row.getters column) ≡ true
        → column_value (dict.get column row.cache) (row.getters column) scope s
          ≡ returns (value (read_in (dict.get column row.cache) row.scope scope) column, s)
    column_value-pure row scope s column h p =
        go (dict.get column row.cache) (row.getters column) refl refl p
      where
        go :
            (c : Option V) (g : Option (Scope → Eval S V))
            → dict.get column row.cache ≡ c
            → row.getters column ≡ g
            → is_present g ≡ true
            → column_value c g scope s ≡ returns (value (read_in c row.scope scope) column, s)
        go (some v) g c e q = ap (λ w. returns (w, s)) (h.coherent column v c)
        go none (some getter) c e q = h.pure_getters column getter e scope s
        go none none c e q = cc

    set_columns-eager :
        (row : LazyRow Scope S dict) (scope : Scope) (s : S) (columns : List Bytes) (d : dict.Dict)
        → IsPure row
        → All (λ column. is_present (row.getters column) ≡ true) columns
        → set_columns dict row scope columns d s
          ≡ returns (eager dict (value_in dict value row.cache row.scope scope) columns d, s)
    unfolding set_columns
    set_columns-eager row scope s [] d h p = refl
    set_columns-eager row scope s (column ∷ columns) d h p =
        bind-returns (column_value (dict.get column row.cache) (row.getters column) scope) _
          (value_in dict value row.cache row.scope scope column) s s
          (column_value-pure row scope s column h p.0)
        ∙ set_columns-eager row scope s columns
            (dict.set column (value_in dict value row.cache row.scope scope column) d) h p.1

    -- A row whose getters change nothing and give a value that depends on the scope and not on the state
    -- materializes, whichever of its columns were read before, to the row of all its columns in order: a
    -- column that is in the cache then has its value in the row's own scope, and any other column its
    -- value in the scope that is passed.
    pub materialize-eager :
        {row row' : LazyRow Scope S dict} (scope : Scope) (s : S)
        → IsPure row
        → Accessed row row'
        → materialize dict row' scope s
          ≡ returns (
            eager dict (value_in dict value row'.cache row.scope scope) row.columns dict.new_dict,
            s,
          )
    unfolding materialize
    materialize-eager {row} {row'} scope s h a =
        let (c, o, h') = Accessed-IsPure h a in
        set_columns-eager row' scope s row'.columns dict.new_dict h' h'.complete
        ∙ ap
            (λ cs.
              returns
                (eager dict (value_in dict value row'.cache row'.scope scope) cs dict.new_dict, s))
            c
        ∙ ap
            (λ own.
              returns (
                eager dict (value_in dict value row'.cache own scope) row.columns dict.new_dict,
                s,
              ))
            o
