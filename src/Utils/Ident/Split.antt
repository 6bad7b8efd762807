-- ===== src/Utils/Ident/Split.antt =====
-- `SplitIdent` takes a dotted identifier apart, back-ticked components included.
use vfilter.Base.{
  ℕ, ◌≡◌, ◌≢◌, refl, ◌∙◌, Bool, true, false, List, [], ◌∷◌, ◌++◌, arith, Bytes, append_assoc,
  append-nil,
}
use vfilter.Utils.Ident.{split_from, split_ident}

-- The text `src` is a way to write a component named `name`, from outside of back ticks or (`true`)
-- from inside: outside, runes other than `.` and the back tick stand for themselves; between back
-- ticks every rune but the back tick does.
pub data Spells : Bool → Bytes → Bytes → Type 0 where
  done : Spells false [] []
  plain :
      {src name : Bytes} (c : ℕ)
      → c ≢ b'.'
      → c ≢ b'`'
      → Spells false src name
      → Spells false (c ∷ src) (c ∷ name)
  inside :
      {src name : Bytes} (c : ℕ)
      → c ≢ b'`'
      → Spells true src name
      → Spells true (c ∷ src) (c ∷ name)
  tick :
      {src name : Bytes} (tick_in tick_out : Bool)
      → tick_out ≢ tick_in
      → Spells tick_out src name
      → Spells tick_in (b'`' ∷ src) name

-- Components in order, with a dot between them.
pub data Dotted : Bytes → List Bytes → Type 0 where
  last : {src name : Bytes} → Spells false src name → Dotted src (name ∷ [])
  dot :
      {src name rest : Bytes} {names : List Bytes}
      → Spells false src name
      → Dotted rest names
      → Dotted (src ++ b'.' ∷ rest) (name ∷ names)

split_from-Spells :
    {escaped : Bool} {src name : Bytes} (result : List Bytes) (current rest : Bytes)
    → Spells escaped src name
    → split_from escaped result current (src ++ rest)
      ≡ split_from false result (current ++ name) rest
unfolding split_from
split_from-Spells result current rest done = rw append-nil
split_from-Spells result current rest (plain {src} {name} c d t s) =
    ground (
      arith,
      split_from-Spells result (current ++ c ∷ []) rest s,
      append_assoc current (c ∷ []) name,
    )
split_from-Spells result current rest (inside {src} {name} c t s) =
    ground (
      arith,
      split_from-Spells result (current ++ c ∷ []) rest s,
      append_assoc current (c ∷ []) name,
    )
split_from-Spells result current rest (tick true true h s) = absurd (h refl)
split_from-Spells result current rest (tick true false h s) =
    split_from-Spells result current rest s
split_from-Spells result current rest (tick false true h s) =
    split_from-Spells result current rest s
split_from-Spells result current rest (tick false false h s) = absurd (h refl)

split_from-Dotted :
    {src : Bytes} {names : List Bytes} (result : List Bytes)
    → Dotted src names
    → split_from false result [] src ≡ result ++ names
unfolding split_from
split_from-Dotted result (last {src} {name} s) =
    rw (← append-nil src) (split_from-Spells result [] [] s)
split_from-Dotted result (dot {src} {name} {rest} {names} s d) =
    split_from-Spells result [] (b'.' ∷ rest) s
    ∙ split_from-Dotted (result ++ name ∷ []) d
    ∙ append_assoc result (name ∷ []) names

-- An identifier written with dots between its components, each plain, back-ticked or both, is split
-- into just those components, in order.
pub split_ident-Dotted :
    {src : Bytes} {names : List Bytes} → Dotted src names → split_ident src ≡ names
unfolding split_ident
split_ident-Dotted d = split_from-Dotted [] d
