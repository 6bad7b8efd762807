-- ===== src/LazyRow/Columns.antt =====
-- The columns of the row that a SELECT builds.
use vfilter.Base.{
  Bool, true, false, map, none, List, [], ◌∷◌, ◌++◌, Bytes, equal, if◌then◌else◌, ◌≡◌, refl, sym,
  ap, ◌∙◌, arith, Bool-cases, inl, inr, append-nil, append_assoc,
}
use vfilter.OrderedDict.{OrderedDict}
use vfilter.Expr.Monad.{Eval, pure}
use vfilter.Value.Convert.{in_string, in_string-append}
use vfilter.Scope.{Vars, copy, append_vars}
use vfilter.LazyRow.{
  LazyRow, is_present, has, add_column, new_lazy_row, Column, star, add_member, add_all,
  merge_star_row, add_expression, add_expressions, transform,
}

module _ {Row V : Type 0} (get_members : Row → List Bytes)
    (associative : Row → Bytes → V × Bool) where
  -- The members that the row has, the columns `done` with those that `*` adds to them, and with those
  -- that expressions of these names add.
  abbrev pub present : Row → List Bytes → List Bytes
  present row [] = []
  present row (m ∷ ms) =
      let rest = present row ms in if (associative row m).1 then m ∷ rest else rest

  abbrev pub next_star : Row → List Bytes → Bytes → List Bytes
  next_star row done m =
      if in_string done m then done else if (associative row m).1 then done ++ m ∷ [] else done

  abbrev pub starred : Row → List Bytes → List Bytes → List Bytes
  starred row done [] = done
  starred row done (m ∷ ms) = starred row (next_star row done m) ms

  abbrev pub next_named : Row → List Bytes → Bytes → List Bytes
  next_named row done name =
      if equal name star then starred row done (get_members row) else done ++ name ∷ []

  abbrev pub named : Row → List Bytes → List Bytes → List Bytes
  named row done [] = done
  named row done (name ∷ names) = named row (next_named row done name) names

-- A row that was not read, with a getter for each of its columns and no other.
pub record IsUnread {Scope S V : Type 0} {dict : OrderedDict V} (row : LazyRow Scope S dict)
    : Type 0 where
  pub no_value : (key : Bytes) → dict.get key row.cache ≡ none
  pub listed : (key : Bytes) → in_string row.columns key ≡ is_present (row.getters key)

module _ {Scope S V : Type 0} (dict : OrderedDict V) where
  new_lazy_row-IsUnread : (scope : Scope) → IsUnread (new_lazy_row {S = S} dict scope)
  unfolding new_lazy_row in_string
  new_lazy_row-IsUnread scope = record { no_value = dict.get_new; listed = λ key. refl }

  add_column-IsUnread :
      (name : Bytes) (getter : Scope → Eval S V) (row : LazyRow Scope S dict)
      → IsUnread row
      → IsUnread (add_column dict name getter row)
  unfolding add_column
  add_column-IsUnread name getter row h = record {
    no_value = h.no_value;
    listed = λ key. ground (arith, in_string-append row.columns name key, h.listed key);
  }

  has-listed :
      (key : Bytes) (row : LazyRow Scope S dict)
      → IsUnread row
      → has dict key row ≡ in_string row.columns key
  unfolding has
  has-listed key row h = rw (h.no_value key) (sym (h.listed key))

-- The row is unread, and has these columns.
abbrev pub HasColumns :
    {Scope S V : Type 0} {dict : OrderedDict V} → List Bytes → LazyRow Scope S dict → Type 0
HasColumns names row = (row.columns ≡ names) × IsUnread row

module _ {Row S V : Type 0} (dict : OrderedDict V) (get_members : Row → List Bytes)
    (associative : Row → Bytes → V × Bool) where
  add_member-HasColumns :
      (m : Bytes) (found : V × Bool) (done : List Bytes) (new_row : LazyRow (Vars Row) S dict)
      → HasColumns done new_row
      → HasColumns
          (if found.1 then done ++ m ∷ [] else done)
          (add_member dict get_members associative m found new_row)
  unfolding add_column
  add_member-HasColumns m (v, true) done new_row h =
      (ap (λ cs. cs ++ m ∷ []) h.0, add_column-IsUnread dict m (λ scope. pure v) new_row h.1)
  add_member-HasColumns m (v, false) done new_row h = h

  add_all-HasColumns :
      (row : Row) (ms done : List Bytes) (new_row : LazyRow (Vars Row) S dict)
      → HasColumns done new_row
      → HasColumns
          (done ++ present get_members associative row ms)
          (add_all dict get_members associative row ms new_row)
  unfolding add_all
  add_all-HasColumns row [] done new_row h = (h.0 ∙ sym (append-nil done), h.1)
  add_all-HasColumns row (m ∷ ms) done new_row h =
      let next =
        add_all-HasColumns row ms _ _
          (add_member-HasColumns m (associative row m) done new_row h) in
      (next.0 ∙ regroup (associative row m).1, next.1)
    where
      regroup :
          (b : Bool)
          → (if b then done ++ m ∷ [] else done) ++ present get_members associative row ms
            ≡ done
              ++ (if b
                  then m ∷ present get_members associative row ms
                  else present get_members associative row ms)
      regroup true = append_assoc done (m ∷ []) (present get_members associative row ms)
      regroup false = refl

  merge_star_row-HasColumns :
      (row : Row) (ms done : List Bytes) (new_row : LazyRow (Vars Row) S dict)
      → HasColumns done new_row
      → HasColumns
          (starred get_members associative row done ms)
          (merge_star_row dict get_members associative row ms new_row)
  unfolding merge_star_row
  merge_star_row-HasColumns row [] done new_row h = h
  merge_star_row-HasColumns row (m ∷ ms) done new_row h =
      merge_star_row-HasColumns row ms (next_star get_members associative row done m) _
        (elim (Bool-cases (in_string done m)) [
          | inl e ↦ rw (e, listed_in e) h
          | inr e ↦ rw (e, listed_in e) (add_member-HasColumns m (associative row m) done new_row h)
        ])
    where
      listed_in : {b : Bool} → in_string done m ≡ b → has dict m new_row ≡ b
      listed_in e = has-listed dict m new_row h.1 ∙ ap (λ cs. in_string cs m) h.0 ∙ e

  add_expression-HasColumns :
      (scope : Vars Row) (row : Row) (e : Column Row S V) (done : List Bytes)
      (new_row : LazyRow (Vars Row) S dict)
      → HasColumns done new_row
      → HasColumns
          (next_named get_members associative row done e.name)
          (add_expression dict get_members associative scope row e new_row)
  unfolding add_column
  add_expression-HasColumns scope row e done new_row h = elim (Bool-cases (equal e.name star)) [
    | inl is ↦ rw is (merge_star_row-HasColumns row (get_members row) done new_row h)
    | inr is ↦ rw is (
      ap (λ cs. cs ++ e.name ∷ []) h.0,
      add_column-IsUnread dict e.name (λ s. e.reduce scope) new_row h.1,
    )
  ]

  add_expressions-HasColumns :
      (scope : Vars Row) (row : Row) (es : List (Column Row S V)) (done : List Bytes)
      (new_row : LazyRow (Vars Row) S dict)
      → HasColumns done new_row
      → HasColumns
          (named get_members associative row done (map (λ (e : Column Row S V). e.name) es))
          (add_expressions dict get_members associative scope row es new_row)
  unfolding add_expressions
  add_expressions-HasColumns scope row [] done new_row h = h
  add_expressions-HasColumns scope row (e ∷ es) done new_row h =
      add_expressions-HasColumns scope row es (next_named get_members associative row done e.name) _
        (add_expression-HasColumns scope row e done new_row h)

  -- The row of a SELECT has the members of its row first, if it starts with `*`, then a column for each
  -- expression in order; a `*` among them adds those members of the row, in order, that are not columns
  -- by then. No column is evaluated, and each has a getter.
  pub transform-HasColumns :
      (all : Bool) (es : List (Column Row S V)) (scope : Vars Row) (row : Row)
      → HasColumns
          (named get_members associative row
            (if all then present get_members associative row (get_members row) else [])
            (map (λ (e : Column Row S V). e.name) es))
          (transform dict get_members associative all es scope row)
  unfolding transform new_lazy_row
  transform-HasColumns all es scope row =
      add_expressions-HasColumns (append_vars row (copy scope)) row es _ _ (start all)
    where
      start :
          (b : Bool)
          → HasColumns {S = S}
              (if b then present get_members associative row (get_members row) else [])
              (if b
                then add_all dict get_members associative row
                    (get_members row)
                    (new_lazy_row dict scope)
                else new_lazy_row dict scope)
      start true =
          add_all-HasColumns row (get_members row) [] (new_lazy_row dict scope)
            (refl, new_lazy_row-IsUnread dict scope)
      start false = (refl, new_lazy_row-IsUnread dict scope)
