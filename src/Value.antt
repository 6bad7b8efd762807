-- ===== src/Value.antt =====
-- The dynamic values of a query (types.Any), and the conversions of utils/utils.go.
-- What the source takes from elsewhere is the record `Runtime`: Go's float64 with its operations, and
-- the ordered dictionaries of github.com/Velocidex/ordereddict. A value of a type that only the
-- client knows is `other`, with a number for it. A `[]byte` is not among the values.
pub mod Convert
pub mod Names
use vfilter.Base.{ℕ, zero, suc, Bool, List, [], ◌∷◌, Bytes}
use vfilter.Base.Int.{ℤ}

pub record Runtime : Type 1 where
  pub Float : Type 0
  -- `float64(n)` and `int64(f)`
  pub of_int : ℤ → Float
  pub to_int : Float → ℤ
  -- `==` and `<`, and the operators
  pub float_eq : Float → Float → Bool
  pub float_lt : Float → Float → Bool
  pub float_add : Float → Float → Float
  pub float_sub : Float → Float → Float
  pub float_mul : Float → Float → Float
  pub float_div : Float → Float → Float
  -- `*ordereddict.Dict` and its `Len`
  pub Dict : Type 0
  pub dict_len : Dict → ℕ

-- Go's integer types.
pub data IntKind : Type 0 where
  int int8 int16 int32 int64 uint uint8 uint16 uint32 uint64 : IntKind

mutual
  -- `null` stands for `types.Null{}` and for a pointer to it, which the code treats alike; `time`
  -- for a time.Time and for a pointer to it, by its nanoseconds since 1970; `lazy v` for a LazyExpr
  -- whose Reduce gives `v`; the `ref` constructors for pointers to a string or a number.
  pub data Any (rt : Runtime) : Type 0 where
    nil null : Any rt
    bool : Bool → Any rt
    integer : IntKind → ℤ → Any rt
    integer_ref : IntKind → ℤ → Any rt
    float : rt.Float → Any rt
    float_ref : rt.Float → Any rt
    string : Bytes → Any rt
    string_ref : Bytes → Any rt
    time : ℤ → Any rt
    array : Items rt → Any rt
    dict : rt.Dict → Any rt
    lazy : Any rt → Any rt
    other : ℕ → Any rt

  -- The elements of a slice.
  pub data Items (rt : Runtime) : Type 0 where
    end : Items rt
    item : Any rt → Items rt → Items rt

module _ {rt : Runtime} where
  abbrev pub size : Items rt → ℕ
  size end = 0
  size (item x xs) = suc (size xs)

  abbrev pub to_list : Items rt → List (Any rt)
  to_list end = []
  to_list (item x xs) = x ∷ to_list xs

  abbrev pub of_list : List (Any rt) → Items rt
  of_list [] = end
  of_list (x ∷ xs) = item x (of_list xs)

  -- `append(xs, ys...)`.
  abbrev pub append : Items rt → Items rt → Items rt
  append end ys = ys
  append (item x xs) ys = item x (append xs ys)
