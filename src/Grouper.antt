-- ===== src/Grouper.antt =====
-- `DefaultGrouper.Group` of grouper/grouper.go. The rows of the actor's channel are a list. `read` stands
-- for what `GetNextRow` does with one of them: it evaluates WHERE and GROUP BY in the context that the
-- dispatcher holds, and gives the transformed row with the text of its group, or nothing where WHERE rejects
-- it, and the context that it leaves. `materialize` stands for `MaterializeRow`, which gives the new row and
-- the context that it leaves. The contexts live on a heap: the dictionary of bins and the dispatcher hold
-- their addresses. The dispatcher is that of the query's own scope, so a row is read in the context of the
-- bin of the row before it.
pub mod Bins
use vfilter.Base.{
  ℕ, ◌+◌, Bool, true, false, Option, none, some, List, [], ◌∷◌, ◌++◌, Bytes, equal, if◌then◌else◌,
  ◌==◌,
}
use vfilter.OrderedDict.{OrderedDict}

-- `AggregateContext`.
pub record AggregateContext (Out Context : Type 0) : Type 0 where
  pub row : Option Out
  pub context : Context

module _ {V : Type 0} where
  -- A write on the heap.
  abbrev pub update : (ℕ → V) → ℕ → V → ℕ → V
  update heap a v b = if a == b then v else heap b

module _ {In Row Out Context : Type 0} (bins : OrderedDict ℕ) (no_context : Context)
    (read : In → Context → Option (Row × Bytes) × Context)
    (materialize : Row → Context → Out × Context) where
  -- The bins, the address of the dispatcher's context, the next free address and the heap.
  pub record Groups : Type 0 where
    pub index : bins.Dict
    pub current : ℕ
    pub next : ℕ
    pub heap : ℕ → AggregateContext Out Context

  -- At the start the dispatcher holds the scope's own context.
  abbrev pub no_groups : Context → Groups
  no_groups own_context = record {
    index = bins.new_dict;
    current = 0;
    next = 1;
    heap = λ a. record { row = none; context = own_context };
  }

  abbrev pub fresh : AggregateContext Out Context
  fresh = record { row = none; context = no_context }

  -- The row is materialized in the context of its bin, which is left to the next row of the bin.
  abbrev pub absorb : Row → AggregateContext Out Context → AggregateContext Out Context
  absorb r c =
      let (out, context) = materialize r c.context in record { row = some out; context = context }

  -- The dispatcher keeps the context of the bin.
  abbrev pub absorb_at : Groups → ℕ → Row → Groups
  absorb_at g a r = record g { current = a; heap = update g.heap a (absorb r (g.heap a)) }

  -- A new bin at the next address.
  abbrev pub new_bin : Groups → Bytes → Groups
  new_bin g key = record g {
    index = bins.set key g.next g.index;
    next = g.next + 1;
    heap = update g.heap g.next fresh;
  }

  -- One row of the loop.
  unfoldable pub add_row : Groups → Row → Bytes → Groups
  add_row g r key = elim (bins.get key g.index) [
    | none ↦ absorb_at (new_bin g key) g.next r
    | some a ↦ absorb_at g a r
  ]

  abbrev pub current_context : Groups → Context
  current_context g = (g.heap g.current).context

  -- What a read leaves in the dispatcher's context.
  abbrev pub left_context : Groups → Context → Groups
  left_context g c = record g {
    heap = update g.heap g.current (record (g.heap g.current) { context = c });
  }

  abbrev pub add_found : Groups → Option (Row × Bytes) → Groups
  add_found g none = g
  add_found g (some (r, key)) = add_row g r key

  -- A row of the channel is read and, if it is not rejected, put into its bin.
  unfoldable pub add_read : Groups → In → Groups
  unfolding add_row
  add_read g r = let (found, c) = read r (current_context g) in add_found (left_context g c) found

  unfoldable pub add_rows : Groups → List In → Groups
  unfolding add_read
  add_rows g [] = g
  add_rows g (r ∷ rows) = add_rows (add_read g r) rows

  -- What one bin puts out.
  abbrev pub bin_rows : Option (AggregateContext Out Context) → List Out
  bin_rows none = []
  bin_rows (some c) = elim c.row [ none ↦ [] | some out ↦ out ∷ [] ]

  abbrev pub bin_at : Groups → Bytes → Option (AggregateContext Out Context)
  bin_at g key = elim (bins.get key g.index) [ none ↦ none | some a ↦ some (g.heap a) ]

  -- The loop over the keys of the bins.
  unfoldable pub emit : Groups → List Bytes → List Out
  emit g [] = []
  emit g (key ∷ keys) = bin_rows (bin_at g key) ++ emit g keys

  unfoldable pub group : Context → List In → List Out
  unfolding emit add_rows
  group own_context rows =
      let g = add_rows (no_groups own_context) rows in emit g (bins.keys g.index)
