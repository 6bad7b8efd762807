-- ===== src/ArgParser/Accepts.antt =====
-- Which arguments `Parse` accepts.
use vfilter.Base.{
  ℕ, Bool, true, false, not, ◌&&◌, ◌||◌, Option, none, some, List, [], ◌∷◌, ◌++◌, Bytes, equal,
  equal_iff, if◌then◌else◌, Outcome, returns, panics, hangs, ◌≡◌, refl, ap, ◌∙◌, arith,
}
use vfilter.Value.Convert.{in_string}
use vfilter.Value.Names.{all_in, distinct, all_in_self}
use vfilter.ArgParser.Keys.{
  is_some, IsDict, check_unexpected-all_in, with_field, in_string-with_field, distinct-with_field,
  same_key, all_in-with_field,
}
use vfilter.ArgParser.{
  Args, ParseError, required_field, FieldParser, Target, Parsed, check_unexpected, absent_field,
  parsed_field, parse_fields, parse,
}

module _ {W : Type 0} where
  abbrev pub accepted : Parsed W → Bool
  accepted (returns (writes, none)) = true
  accepted (returns (writes, some e)) = false
  accepted panics = false
  accepted hangs = false

  -- The parser of a field gives a value, and the field can be set to it.
  abbrev pub gives : Target W → ℕ → Outcome (Option W) → Bool
  gives target idx (returns (some w)) = target.can_set idx w
  gives target idx (returns none) = false
  gives target idx panics = false
  gives target idx hangs = false

  accepted-returns :
      (writes : List (ℕ × W)) (e : Option ParseError)
      → accepted (returns (writes, e)) ≡ not (is_some e)
  accepted-returns writes none = refl
  accepted-returns writes (some e) = refl

module _ {V W : Type 0} where
  abbrev pub is_fine : Target W → FieldParser V W → Option V → Bool
  is_fine target f none = not f.required
  is_fine target f (some v) = gives target f.field_idx (f.parser v)

  abbrev pub names : List (FieldParser V W) → List Bytes
  names [] = []
  names (f ∷ fields) = f.field ∷ names fields

module _ {V W : Type 0} (args : Args V) (target : Target W) where
  abbrev pub all_fine : List (FieldParser V W) → Bool
  all_fine [] = true
  all_fine (f ∷ fields) = is_fine target f (args.get f.field) && all_fine fields

  abbrev after : List Bytes → List (FieldParser V W) → List Bytes
  after parsed [] = parsed
  after parsed (f ∷ fields) = after (with_field parsed f.field (args.get f.field)) fields

  parse_fields-after :
      (fields : List (FieldParser V W)) (parsed : List Bytes) (writes : List (ℕ × W))
      → distinct (after parsed fields) ≡ true
      → all_in (after parsed fields) args.keys ≡ true
      → accepted (parse_fields args target fields parsed writes)
        ≡ (all_fine fields && all_in args.keys (after parsed fields))
  unfolding parse_fields
  parse_fields-after [] parsed writes d h =
      accepted-returns writes (check_unexpected parsed args.keys)
      ∙ ground (arith, check_unexpected-all_in parsed args.keys d h)
  parse_fields-after (f ∷ fields) parsed writes d h =
      by_value (args.get f.field) (λ p w. parse_fields-after fields p w) d h
    where
      by_set :
          (c : Bool) (m : Parsed W) (b : Bool)
          → accepted m ≡ b
          → accepted (if c then m else panics) ≡ (c && b)
      by_set true m b k = k
      by_set false m b k = refl

      by_result :
          (m : Outcome (Option W)) (rest : W → Parsed W) (b : Bool)
          → ((w : W) → accepted (rest w) ≡ b)
          → accepted (parsed_field target f writes rest m) ≡ (gives target f.field_idx m && b)
      by_result (returns (some w)) rest b k = by_set (target.can_set f.field_idx w) (rest w) b (k w)
      by_result (returns none) rest b k = refl
      by_result panics rest b k = refl
      by_result hangs rest b k = refl

      by_need :
          (required : Bool) (rest : Parsed W) (e : ParseError)
          → accepted (if required then returns (writes, some e) else rest)
            ≡ (not required && accepted rest)
      by_need true rest e = refl
      by_need false rest e = refl

      by_value :
          (o : Option V)
          → ((p : List Bytes) (w : List (ℕ × W))
              → distinct (after p fields) ≡ true
              → all_in (after p fields) args.keys ≡ true
              → accepted (parse_fields args target fields p w)
                ≡ (all_fine fields && all_in args.keys (after p fields)))
          → distinct (after (with_field parsed f.field o) fields) ≡ true
          → all_in (after (with_field parsed f.field o) fields) args.keys ≡ true
          → accepted (elim o [
            | none ↦ absent_field f writes (parse_fields args target fields parsed writes)
            | some v ↦
                parsed_field target f writes
                  (λ w.
                    parse_fields args target fields
                      (parsed ++ f.field ∷ [])
                      (writes ++ (f.field_idx, w) ∷ []))
                  (f.parser v)
          ])
            ≡ ((is_fine target f o && all_fine fields)
                && all_in args.keys (after (with_field parsed f.field o) fields))
      by_value none rest d' h' =
          by_need f.required (parse_fields args target fields parsed writes)
            (required_field f.field)
          ∙ ground (arith, rest parsed writes d' h')
      by_value (some v) rest d' h' =
          by_result (f.parser v) _ _
            (λ w. rest (parsed ++ f.field ∷ []) (writes ++ (f.field_idx, w) ∷ []) d' h')
          ∙ ground arith

  in_string-after :
      (fields : List (FieldParser V W)) (parsed : List Bytes) (k : Bytes)
      → in_string (after parsed fields) k
        ≡ (in_string parsed k || (is_some (args.get k) && in_string (names fields) k))
  unfolding in_string
  in_string-after [] parsed k = ground arith
  in_string-after (f ∷ fields) parsed k =
      in_string-after fields (with_field parsed f.field (args.get f.field)) k
      ∙ ap (λ b. b || (is_some (args.get k) && in_string (names fields) k))
          (in_string-with_field parsed f.field k (args.get f.field)
            ∙ ap (λ b. in_string parsed k || b) (same_key args f.field k))
      ∙ regroup (in_string parsed k) (is_some (args.get k)) (equal f.field k)
          (in_string (names fields) k)
    where
      regroup : (a b c d : Bool) → ((a || (b && c)) || (b && d)) ≡ (a || (b && (c || d)))
      regroup a b c d = ground arith

  distinct-after :
      (fields : List (FieldParser V W)) (parsed : List Bytes)
      → distinct parsed ≡ true
      → distinct (names fields) ≡ true
      → ((k : Bytes) → in_string (names fields) k ≡ true → in_string parsed k ≡ false)
      → distinct (after parsed fields) ≡ true
  unfolding in_string
  distinct-after [] parsed d n apart = d
  distinct-after (f ∷ fields) parsed d n apart =
      distinct-after fields (with_field parsed f.field (args.get f.field))
        (distinct-with_field parsed f.field (args.get f.field) d
          (apart f.field (ground (arith, equal_iff f.field f.field))))
        (ground arith)
        (λ k h. ground (
          arith,
          in_string-with_field parsed f.field k (args.get f.field),
          apart k,
          equal_iff f.field k,
        ))

  all_in-after :
      (fields : List (FieldParser V W)) (parsed : List Bytes)
      → IsDict args
      → all_in parsed args.keys ≡ true
      → all_in (after parsed fields) args.keys ≡ true
  all_in-after [] parsed dict h = h
  all_in-after (f ∷ fields) parsed dict h =
      all_in-after fields (with_field parsed f.field (args.get f.field)) dict
        (all_in-with_field args parsed f.field (args.get f.field) h (dict.keys_listed f.field))

  all_in-names :
      (keys : List Bytes) (fields : List (FieldParser V W))
      → IsDict args
      → all_in keys args.keys ≡ true
      → all_in keys (after [] fields) ≡ all_in keys (names fields)
  unfolding in_string
  all_in-names [] fields dict h = refl
  all_in-names (k ∷ keys) fields dict h =
      ground (arith, all_in-names keys fields dict, in_string-after fields [] k, dict.keys_listed k)

  -- Where no two fields have the same name, and each key of the arguments stands once, the arguments are
  -- accepted, without an error and without a panic, if and only if every required field is among them, the
  -- parser of every field that is among them gives a value to which that field of the struct can be set, and
  -- every argument is a field.
  pub parse-accepts :
      (fields : List (FieldParser V W))
      → IsDict args
      → distinct (names fields) ≡ true
      → accepted (parse args target fields) ≡ (all_fine fields && all_in args.keys (names fields))
  unfolding parse in_string
  parse-accepts fields dict d =
      parse_fields-after fields [] [] (distinct-after fields [] refl d (λ k h. refl))
        (all_in-after fields [] dict refl)
      ∙ ap (λ b. all_fine fields && b) (all_in-names args.keys fields dict (all_in_self args.keys))
