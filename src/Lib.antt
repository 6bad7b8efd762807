-- ===== src/Lib.antt =====
-- A verification library for vfilter, the engine of the query language VQL.
--
-- A query is parsed to a tree (vfilter.go). A `_Select` takes rows from its plugin, transforms each in a
-- copy of the scope, filters it by WHERE, and sorts, limits or groups what is left; the clauses are
-- expressions whose `Reduce` asks the scope for variables and for the operators. The operators are
-- protocols (protocols/): a dispatcher treats the built-in types itself and then asks the
-- implementations that a client registered.
--
-- Utils/ models utils/unquote.go: Unquote over bytes with explicit indices, out-of-range panics and a
-- loop on fuel, and Ident for SplitIdent. The fuel is the length of the text plus one, and each round
-- takes at least one byte.
-- Value and Value/Convert model the dynamic values (types/types.go, types/null.go) and the conversions
-- of utils/utils.go. Go's float64 with its operations, and the Dict of ordereddict, are fields of
-- the record Runtime.
-- Protocols/ has the dispatchers: Dispatch the search and registration that they share, Compare for
-- protocol_eq.go, protocol_lt.go and protocol_gt.go, Arith for protocol_add.go, protocol_sub.go,
-- protocol_mul.go and protocol_div.go, Truth for protocol_bool.go and protocol_membership.go, Slices for
-- utils.go and the integer and range cases of protocol_associative.go. A result is a value, or an Outcome
-- where the code can panic.
-- Expr/ has the tree of vfilter.go, the Reduce methods (Reduce) in a monad of state and panics, and the
-- IsAggregate methods (Aggregate). The record Scope holds what they ask of the scope; symbols and members
-- are its functions. Symbols models _SymbolRef.Reduce with stored expressions, on fuel for those that are
-- evaluated inside each other: 1000 is enough, since CheckForOverflow stops at that depth.
-- Scope models the variables of scope/scope.go: Copy, AppendVars, CheckForOverflow and Resolve;
-- Scope/Tree the tree of scopes with Copy, AddDestructor and Close, as nodes on a heap. The fuel of Close is
-- the number of scopes, since a scope closes only newer ones.
-- Select models Eval and processSingleRow of vfilter.go, and GetNextRow and EvalGroupBy of
-- vfilter_group.go. The rows of a channel are a list; a clause is a function of
-- the variables, without the context of the aggregate functions. Source models Plugin.Eval of vfilter.go, with fuel for
-- stored expressions that come to stored expressions, for which the code has no bound of its own. LazyRow and LazyExpr model lazy.go, and LazyRow also
-- the rows that Transform of vfilter.go builds. Statements models GetStatements and VQL.Eval of vfilter.go,
-- Stored the calls of stored.go and lambda.go.
-- Grouper models grouper/grouper.go over the interface OrderedDict, with the contexts of the bins and of the
-- dispatcher on a heap: a row is read in the context of the bin of the row before it, and materialized in
-- that of its own. Aggregates models the Call methods of functions/aggregates.go, Functions/If
-- functions/if.go, Sorter the order of sort/sort.go,
-- ArgParser the package arg_parser/ behind the reflection: Parse, and the parsers of the fields. Whether a field
-- can be set to a value is reflect's answer, a parameter; where it cannot, Parse panics.
-- Plugins/Range models plugins/range.go (the fuel is the distance from start to end and one more),
-- Plugins/Foreach plugins/foreach.go (a state of the loop and of the workers, and a relation with a step
-- for each thing that one of them can do, cancelling included), and Plugins/Flatten plugins/flatten.go.
-- Visitor models visitor.go: the fragments, indents and widths of a `Visitor` and its steps. Visitor/Syntax is
-- the tree with the comments that the parser leaves in it; Parts and Print are the visit methods; Document the
-- statements, the type switch of `Visit`, FormatToString, and ReFormatVQL of reformat/visitor.go, and what a
-- wide line does to the text after it (Widths). Tokens and
-- Document/Tokens describe the tokens of a node apart from any layout; Writes, Steps and Layout compare what
-- is written with them.
-- Base has the shared helpers: Outcome, lists and tests over the native numbers, and signed integers with
-- the wrap-around of an int64. Tests applies the theorems to concrete inputs.
--
-- Not modelled: the parser, which participle generates from struct tags; channels, goroutines, locks and
-- cancelling but for foreach: elsewhere only the order of the rows is kept; logging, tracing and
-- statistics; whatever works on Go's reflect; the plugins but for range, foreach and flatten, and the
-- functions but for if and the aggregates.
pub mod Base
pub mod Utils
pub mod Value
pub mod Protocols
pub mod Expr
pub mod OrderedDict
pub mod Grouper
pub mod Aggregates
pub mod Scope
pub mod LazyRow
pub mod LazyExpr
pub mod Statements
pub mod Stored
pub mod Sorter
pub mod Plugins
pub mod ArgParser
pub mod Source
pub mod Select
pub mod Tests
pub mod Visitor
pub mod Functions
