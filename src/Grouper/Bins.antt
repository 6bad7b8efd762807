-- ===== src/Grouper/Bins.antt =====
-- The grouping puts out, for each group, what its own rows come to, if reading the rows has nothing to do
-- with the contexts.
use mathlib.Core.Path.{fun_ext}
use vfilter.Base.{
  ℕ, ◌<◌, Bool, true, false, Option, none, some, List, [], ◌∷◌, ◌++◌, Bytes, equal, equal_iff,
  if◌then◌else◌, ◌≡◌, ◌∙◌, ap, refl, arith, Option-cases, inl, inr,
}
use vfilter.Value.Convert.{in_string, in_string-append}
use vfilter.OrderedDict.{OrderedDict}
use vfilter.Grouper.{
  AggregateContext, Groups, no_groups, fresh, absorb, absorb_at, new_bin, add_row, add_found,
  add_read, add_rows, current_context, update, bin_rows, bin_at, emit, group,
}

module _ {V : Type 0} where
  abbrev is_some : Option V → Bool
  is_some none = false
  is_some (some v) = true

-- The distinct keys of the rows behind those that are known, in order of first appearance.
module _ {Row : Type 0} where
  unfoldable pub keys_from : List Bytes → List (Row × Bytes) → List Bytes
  keys_from ks [] = ks
  keys_from ks ((r, key) ∷ rows) = keys_from (if in_string ks key then ks else ks ++ key ∷ []) rows

module _ {In Row : Type 0} where
  -- The rows that are not rejected.
  abbrev pub found_rows : (In → Option (Row × Bytes)) → List In → List (Row × Bytes)
  found_rows found [] = []
  found_rows found (r ∷ rows) =
      let rest = found_rows found rows in elim (found r) [ none ↦ rest | some row ↦ row ∷ rest ]

module _ {In Row Out Context : Type 0} (bins : OrderedDict ℕ) (no_context : Context)
    (read : In → Context → Option (Row × Bytes) × Context)
    (materialize : Row → Context → Out × Context) where
  -- What a row makes of its bin, a new one if there is none.
  abbrev pub fed : Row → Option (AggregateContext Out Context) → AggregateContext Out Context
  fed r none = absorb bins no_context read materialize r (fresh bins no_context read materialize)
  fed r (some c) = absorb bins no_context read materialize r c

  -- What the rows of one group, taken alone and in order, make of its bin.
  unfoldable pub bin_from :
      Bytes
      → Option (AggregateContext Out Context)
      → List (Row × Bytes)
      → Option (AggregateContext Out Context)
  bin_from k acc [] = acc
  bin_from k acc ((r, key) ∷ rows) = bin_from k (if equal key k then some (fed r acc) else acc) rows

  -- The groups are those of a view: a bin for each key, and the keys in order. Two keys never share
  -- an address.
  record Agrees (view : Bytes → Option (AggregateContext Out Context)) (ks : List Bytes)
      (g : Groups bins no_context read materialize) : Type 0 where
    shows : (k : Bytes) → bin_at bins no_context read materialize g k ≡ view k
    below : (k : Bytes) (a : ℕ) → bins.get k g.index ≡ some a → a < g.next
    apart :
        (j k : Bytes) (a : ℕ) → bins.get j g.index ≡ some a → bins.get k g.index ≡ some a → j ≡ k
    known : bins.keys g.index ≡ ks
    listed : (k : Bytes) → in_string ks k ≡ is_some (bins.get k g.index)

  abbrev with_row :
      (Bytes → Option (AggregateContext Out Context))
      → Row
      → Bytes
      → Bytes
      → Option (AggregateContext Out Context)
  with_row view r key k = if equal key k then some (fed r (view k)) else view k

  old_bin :
      (view : Bytes → Option (AggregateContext Out Context)) (ks : List Bytes)
      (g : Groups bins no_context read materialize) (r : Row) (key : Bytes) (a : ℕ)
      → Agrees view ks g
      → bins.get key g.index ≡ some a
      → Agrees (with_row view r key) ks (absorb_at bins no_context read materialize g a r)
  old_bin view ks g r key a v e = record {
    shows = λ k. elim (Option-cases (bins.get k g.index)) [
      | inl n ↦ ground (arith, v.shows k, equal_iff key k)
      | inr (b, f) ↦ ground (arith, v.shows k, v.shows key, equal_iff key k, v.apart key k a)
    ];
    below = v.below;
    apart = v.apart;
    known = v.known;
    listed = v.listed;
  }

  new_bin-Agrees :
      (view : Bytes → Option (AggregateContext Out Context)) (ks : List Bytes)
      (g : Groups bins no_context read materialize) (r : Row) (key : Bytes)
      → Agrees view ks g
      → bins.get key g.index ≡ none
      → Agrees (with_row view r key) (ks ++ key ∷ []) (
          absorb_at bins no_context read materialize
            (new_bin bins no_context read materialize g key)
            g.next
            r)
  new_bin-Agrees view ks g r key v e = record {
    shows = λ k. elim (Option-cases (bins.get k g.index)) [
      | inl n ↦
          ground (arith, v.shows k, v.shows key, equal_iff key k, bins.get_set k key g.next g.index)
      | inr (b, f) ↦ ground (
        arith,
        v.shows k,
        v.shows key,
        equal_iff key k,
        bins.get_set k key g.next g.index,
        v.below k b,
      )
    ];
    below = λ k b h. ground (arith, bins.get_set k key g.next g.index, v.below k b);
    apart = λ j k b h f. ground (
      arith,
      bins.get_set j key g.next g.index,
      bins.get_set k key g.next g.index,
      equal_iff key j,
      equal_iff key k,
      v.below j b,
      v.below k b,
      v.apart j k b,
    );
    known = ground (arith, bins.keys_set key g.next g.index e, v.known);
    listed = λ k.
        ground (arith, in_string-append ks key k, bins.get_set k key g.next g.index, v.listed k);
  }

  abbrev with_key : List Bytes → Bytes → List Bytes
  with_key ks key = if in_string ks key then ks else ks ++ key ∷ []

  add_row-Agrees :
      (view : Bytes → Option (AggregateContext Out Context)) (ks : List Bytes)
      (g : Groups bins no_context read materialize) (r : Row) (key : Bytes)
      → Agrees view ks g
      → Agrees
          (with_row view r key)
          (with_key ks key)
          (add_row bins no_context read materialize g r key)
  unfolding add_row
  add_row-Agrees view ks g r key v = elim (Option-cases (bins.get key g.index)) [
    | inl n ↦
        let unknown : in_string ks key ≡ false = ground (arith, v.listed key) in
        rw (n, unknown, add_row) (new_bin-Agrees view ks g r key v n)
    | inr (a, e) ↦
        let listed : in_string ks key ≡ true = ground (arith, v.listed key) in
        rw (e, listed, add_row) (old_bin view ks g r key a v e)
  ]

  -- The rows that were read, put into their bins.
  abbrev put_rows :
      Groups bins no_context read materialize
      → List (Row × Bytes)
      → Groups bins no_context read materialize
  put_rows g [] = g
  put_rows g ((r, key) ∷ rows) = put_rows (add_row bins no_context read materialize g r key) rows

  put_rows-Agrees :
      (rows : List (Row × Bytes)) (view : Bytes → Option (AggregateContext Out Context))
      (ks : List Bytes) (g : Groups bins no_context read materialize)
      → Agrees view ks g
      → Agrees (λ k. bin_from k (view k) rows) (keys_from ks rows) (put_rows g rows)
  unfolding bin_from keys_from
  put_rows-Agrees [] view ks g v = v
  put_rows-Agrees ((r, key) ∷ rows) view ks g v =
      put_rows-Agrees rows (with_row view r key) (with_key ks key)
        (add_row bins no_context read materialize g r key) (add_row-Agrees view ks g r key v)

  no_groups-Agrees :
      (own_context : Context)
      → Agrees (λ k. none) [] (no_groups bins no_context read materialize own_context)
  unfolding in_string
  no_groups-Agrees own_context = record {
    shows = λ k. ground (arith, bins.get_new k);
    below = λ k a h. ground (arith, bins.get_new k);
    apart = λ j k a h f. ground (arith, bins.get_new k);
    known = bins.keys_new;
    listed = λ k. ground (arith, bins.get_new k);
  }

  -- The rows that the groups of these keys come to, each from its own rows alone.
  abbrev pub bins_of : List Bytes → List (Row × Bytes) → List Out
  bins_of [] rows = []
  bins_of (k ∷ ks) rows =
      bin_rows bins no_context read materialize (bin_from k none rows) ++ bins_of ks rows

  emit-Agrees :
      (rows : List (Row × Bytes)) (all : List Bytes) (g : Groups bins no_context read materialize)
      (ks : List Bytes)
      → Agrees (λ k. bin_from k none rows) all g
      → emit bins no_context read materialize g ks ≡ bins_of ks rows
  unfolding emit
  emit-Agrees rows all g [] v = refl
  emit-Agrees rows all g (k ∷ ks) v = rw (v.shows k, emit-Agrees rows all g ks v)

  -- Reading a row comes to this, whatever the context is, and leaves the context as it is.
  abbrev pub IsSteady : (In → Option (Row × Bytes)) → Type 0
  IsSteady found = (r : In) (c : Context) → read r c ≡ (found r, c)

  update_same :
      (heap : ℕ → AggregateContext Out Context) (a : ℕ)
      → update heap a (record (heap a) { context = (heap a).context }) ≡ heap
  update_same heap a = fun_ext λ b. ground arith

  add_read-steady :
      (found : In → Option (Row × Bytes)) (g : Groups bins no_context read materialize) (r : In)
      → IsSteady found
      → add_read bins no_context read materialize g r
        ≡ add_found bins no_context read materialize g (found r)
  unfolding add_read
  add_read-steady found g r steady =
      rw
        (
          steady r (current_context bins no_context read materialize g),
          update_same g.heap g.current,
        )
        refl

  add_rows-steady :
      (found : In → Option (Row × Bytes)) (rows : List In)
      (g : Groups bins no_context read materialize)
      → IsSteady found
      → add_rows bins no_context read materialize g rows ≡ put_rows g (found_rows found rows)
  unfolding add_rows
  add_rows-steady found [] g steady = refl
  add_rows-steady found (r ∷ rows) g steady =
      add_rows-steady found rows (add_read bins no_context read materialize g r) steady
      ∙ ap (λ h. put_rows h (found_rows found rows)) (add_read-steady found g r steady)
      ∙ by_found (found r)
    where
      by_found :
          (o : Option (Row × Bytes))
          → put_rows (add_found bins no_context read materialize g o) (found_rows found rows)
            ≡ put_rows g
                (elim o [ none ↦ found_rows found rows | some row ↦ row ∷ found_rows found rows ])
      by_found none = refl
      by_found (some (row, key)) = refl

  -- Where WHERE and GROUP BY, with the columns that they ask for, neither look at the context of the aggregate
  -- functions nor change it: GROUP BY puts out one row for each distinct key of the rows that WHERE lets
  -- through, in the order in which the keys first appear; it is the last row of that key, materialized in a
  -- context that only the rows of that key, in order, have passed on.
  pub group-bins :
      (found : In → Option (Row × Bytes)) (own_context : Context) (rows : List In)
      → IsSteady found
      → group bins no_context read materialize own_context rows
        ≡ bins_of (keys_from [] (found_rows found rows)) (found_rows found rows)
  unfolding group
  group-bins found own_context rows steady =
      let all = found_rows found rows in
      let start = no_groups bins no_context read materialize own_context in
      let v = put_rows-Agrees all (λ k. none) [] start (no_groups-Agrees own_context) in
      let g = put_rows start all in
      ap (λ h. emit bins no_context read materialize h (bins.keys h.index))
        (add_rows-steady found rows start steady)
      ∙ ap (emit bins no_context read materialize g) v.known
      ∙ emit-Agrees all (keys_from [] all) g (keys_from [] all) v
