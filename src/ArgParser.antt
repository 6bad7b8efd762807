-- ===== src/ArgParser.antt =====
-- The argument parser (arg_parser/parser.go and arg_parser/args.go): `Parse`, the parsers of the fields, and
-- `_ExtractStringArray`. A struct is the writes to its fields, by their numbers, and reflect's answer to
-- whether a field can be set to a value: `Set` panics where it cannot, as with Go's nil. What reflect finds
-- out of the struct, `BuildParser`, is left out.
pub mod Keys
pub mod Accepts
use vfilter.Base.{
  ℕ, Bool, true, false, not, Option, none, some, List, [], ◌∷◌, ◌++◌, map, Bytes, length, ◌==◌, ◌≡◌,
  if◌then◌else◌, Outcome, returns, panics, hangs, ◌>>=◌,
}
use vfilter.Base.Int.{ℤ, pos, to_bits64}
use vfilter.Value.{
  Runtime, Any, Items, end, item, nil, null, bool, integer, integer_ref, float, float_ref, string,
  string_ref, time, array, dict, lazy, other, to_list, of_list, int64, uint64, int, IntKind,
}
use vfilter.Value.Convert.{maybe_reduce, to_int64, to_float, to_string, in_string, is_array}
use vfilter.Value.Names.{distinct}
use vfilter.Protocols.Dispatch.{Impl}
use vfilter.Protocols.Truth.{BoolImpl, truth_of}

-- The dictionary of the arguments: `Keys`, each once, and `Get`.
pub record Args (V : Type 0) : Type 0 where
  pub keys : List Bytes
  pub get : Bytes → Option V

-- What an error says.
pub data ParseError : Type 0 where
  required_field field_error unexpected_arg : Bytes → ParseError

-- A parser gives a value for the field or an error, or panics.
pub record FieldParser (V W : Type 0) : Type 0 where
  pub field : Bytes
  pub field_idx : ℕ
  pub required : Bool
  pub parser : V → Outcome (Option W)

-- The struct that is written to: whether its field of this number can be set to the value. It cannot where
-- there is no such field, where the value is of another type, and where it is Go's nil.
pub record Target (W : Type 0) : Type 0 where
  pub can_set : ℕ → W → Bool

-- The writes to the struct, and the error.
abbrev pub Parsed : Type 0 → Type 0
Parsed W = Outcome (List (ℕ × W) × Option ParseError)

-- The first key that was not parsed.
abbrev pub unexpected : List Bytes → List Bytes → Option ParseError
unexpected parsed [] = none
unexpected parsed (key ∷ keys) =
    let rest = unexpected parsed keys in
    if in_string parsed key then rest else some (unexpected_arg key)

-- The keys are looked at only where their number is not that of the parsed fields.
abbrev pub check_unexpected : List Bytes → List Bytes → Option ParseError
check_unexpected parsed keys = if length parsed == length keys then none else unexpected parsed keys

module _ {W : Type 0} where
  -- `field_value.Set`.
  abbrev pub set_field : Target W → ℕ → W → Parsed W → Parsed W
  set_field target idx w rest = if target.can_set idx w then rest else panics

module _ {V W : Type 0} where
  -- A field that the arguments do not have.
  abbrev pub absent_field : FieldParser V W → List (ℕ × W) → Parsed W → Parsed W
  absent_field f writes rest =
      if f.required then returns (writes, some (required_field f.field)) else rest

  -- A value or an error of the field's parser.
  abbrev pub parsed_field :
      Target W → FieldParser V W → List (ℕ × W) → (W → Parsed W) → Outcome (Option W) → Parsed W
  parsed_field target f writes rest (returns (some w)) = set_field target f.field_idx w (rest w)
  parsed_field target f writes rest (returns none) = returns (writes, some (field_error f.field))
  parsed_field target f writes rest panics = panics
  parsed_field target f writes rest hangs = hangs

module _ {V W : Type 0} (args : Args V) (target : Target W) where
  unfoldable pub parse_fields : List (FieldParser V W) → List Bytes → List (ℕ × W) → Parsed W
  parse_fields [] parsed writes = returns (writes, check_unexpected parsed args.keys)
  parse_fields (f ∷ fields) parsed writes = elim (args.get f.field) [
    | none ↦ absent_field f writes (parse_fields fields parsed writes)
    | some v ↦
        parsed_field target f writes
          (λ w. parse_fields fields (parsed ++ f.field ∷ []) (writes ++ (f.field_idx, w) ∷ []))
          (f.parser v)
  ]

  -- `Parser.Parse`.
  unfoldable pub parse : List (FieldParser V W) → Parsed W
  unfolding parse_fields
  parse fields = parse_fields fields [] []

module _ {rt : Runtime} where
  -- `_ExtractAnyArray`.
  abbrev pub any_array : Any rt → Outcome (List (Any rt))
  any_array nil = panics
  any_array (array xs) = returns (to_list xs)
  any_array value = returns (value ∷ [])

  unfoldable pub extract_any_array : Any rt → Outcome (List (Any rt))
  extract_any_array arg = any_array (maybe_reduce arg)

  -- The parsers of the fields, by the type of the field.
  unfoldable pub any_parser : Any rt → Outcome (Option (Any rt))
  any_parser arg = returns (some (maybe_reduce arg))

  unfoldable pub lazy_any_parser : Any rt → Outcome (Option (Any rt))
  lazy_any_parser arg = returns (some arg)

  unfoldable pub float_parser : Any rt → Outcome (Option (Any rt))
  float_parser arg = elim (to_float (maybe_reduce arg)) [
    | none ↦ returns none
    | some t ↦ returns (some (float t))
  ]

  abbrev pub int_parser_by : (ℤ → Any rt) → Any rt → Outcome (Option (Any rt))
  int_parser_by convert arg = elim (to_int64 (maybe_reduce arg)) [
    | none ↦ returns none
    | some z ↦ returns (some (convert z))
  ]

  unfoldable pub int64_parser : Any rt → Outcome (Option (Any rt))
  int64_parser arg = int_parser_by (integer int64) arg

  unfoldable pub uint64_parser : Any rt → Outcome (Option (Any rt))
  uint64_parser arg = int_parser_by (λ z. integer uint64 (pos (to_bits64 z))) arg

  unfoldable pub int_parser : Any rt → Outcome (Option (Any rt))
  int_parser arg = int_parser_by (integer int) arg

  unfoldable pub slice_any_parser : Any rt → Outcome (Option (Any rt))
  unfolding extract_any_array
  slice_any_parser arg = do
    values ← extract_any_array (maybe_reduce arg)
    returns (some (array (of_list values)))

-- What the parsers take as given: `Bool`, the members of a value, `String` of a Stringer, and `fmt.Sprintf`.
pub record Formats (rt : Runtime) : Type 0 where
  pub bool_impl : List (BoolImpl rt)
  pub members : Any rt → List Bytes
  pub associative : Any rt → Bytes → Any rt × Bool
  pub stringer : Any rt → Option Bytes
  pub sprint : Any rt → Bytes

module _ {rt : Runtime} (formats : Formats rt) where
  -- A dictionary with one member gives that member's text as well as its own.
  abbrev pub member_texts : Any rt → List Bytes → List Bytes
  member_texts value (name ∷ []) =
      if (formats.associative value name).1
      then elim (to_string (formats.associative value name).0) [ none ↦ [] | some text ↦ text ∷ [] ]
      else []
  member_texts value names = []

  abbrev pub element_texts : Any rt → List Bytes
  element_texts value = elim (to_string value) [
    | some text ↦ text ∷ []
    | none ↦ member_texts value (formats.members value) ++ formats.sprint value ∷ []
  ]

  abbrev pub all_texts : Items rt → List Bytes
  all_texts end = []
  all_texts (item x xs) = element_texts x ++ all_texts xs

  abbrev pub text_of : Any rt → Bytes
  text_of value = elim (to_string value) [ none ↦ formats.sprint value | some text ↦ text ]

  -- `_ExtractStringArray`; reflect has no type for nil.
  abbrev pub string_array : Any rt → Outcome (List Bytes)
  string_array nil = panics
  string_array (array xs) = returns (all_texts xs)
  string_array value = returns (text_of value ∷ [])

  unfoldable pub extract_string_array : Any rt → Outcome (List Bytes)
  extract_string_array arg = string_array (maybe_reduce arg)

  unfoldable pub bool_parser : Any rt → Outcome (Option (Any rt))
  bool_parser arg = returns (some (bool (truth_of formats.bool_impl (maybe_reduce arg))))

  unfoldable pub slice_parser : Any rt → Outcome (Option (Any rt))
  unfolding extract_string_array
  slice_parser arg = do
    texts ← extract_string_array (maybe_reduce arg)
    returns (some (array (of_list (map string texts))))

  -- The switch of the parser of strings.
  abbrev pub plain_string : Any rt → Bytes
  plain_string (string text) = text
  plain_string null = []
  plain_string nil = []
  plain_string arg = elim (formats.stringer arg) [ none ↦ formats.sprint arg | some text ↦ text ]

  -- An array of one text is that text.
  abbrev pub single_text : Any rt → List Bytes → Bytes
  single_text arg (text ∷ []) = text
  single_text arg texts = plain_string arg

  abbrev pub string_of : Any rt → Outcome Bytes
  string_of (array xs) = do
    texts ← extract_string_array (array xs)
    returns (single_text (array xs) texts)
  string_of arg = returns (plain_string arg)

  unfoldable pub string_parser : Any rt → Outcome (Option (Any rt))
  unfolding extract_string_array
  string_parser arg = do text ← string_of (maybe_reduce arg); returns (some (string text))
