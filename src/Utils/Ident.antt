-- ===== src/Utils/Ident.antt =====
-- `SplitIdent` of utils/unquote.go, over strings as lists of runes.
pub mod Split
use vfilter.Base.{ℕ, Bool, true, false, List, [], ◌∷◌, ◌++◌, if◌then◌else◌, ◌==◌, Bytes}

-- The loop over the runes, with its variables: `state_escaped`, `result` and `current`.
unfoldable pub split_from : Bool → List Bytes → Bytes → Bytes → List Bytes
split_from escaped result current [] = result ++ current ∷ []
split_from true result current (c ∷ cs) =
    let inside = c == b'`' in
    split_from (if inside then false else true) result
      (if inside then current else current ++ c ∷ []) cs
split_from false result current (c ∷ cs) =
    let quote = c == b'`' in
    let dot = c == b'.' in
    split_from quote (if quote then result else if dot then result ++ current ∷ [] else result)
      (if quote then current else if dot then [] else current ++ c ∷ []) cs

unfoldable pub split_ident : Bytes → List Bytes
unfolding split_from
split_ident s = split_from false [] [] s
