-- ===== src/Utils/Unquote.antt =====
-- `Unquote` and `decode_hex` of utils/unquote.go, over strings as lists of bytes.
-- `in` and `out` keep their names and indices: `out[:j]` is the list of the bytes written so far,
-- so that `j` is its length, and a write at `j` panics when `j` reaches `len(in)`, the length of the
-- allocated slice. The loop takes fuel; `run` passes one round more than there are bytes.
pub mod Total
pub mod RoundTrip
use vfilter.Base.{
  ℕ, zero, suc, ◌+◌, ◌-◌, ◌*◌, ◌%◌, ◌^◌, Bool, true, false, ◌&&◌, ◌||◌, Option, none, some, List,
  [], ◌∷◌, ◌++◌, bit_or, if◌then◌else◌, ltb, leb, ◌==◌, length, take, drop, Bytes, equal, Outcome,
  returns, panics, hangs, ◌>>=◌, index,
}
use vfilter.Base.Int.{ℤ, pos, negsuc}

-- The table that `init` fills: an int8, -1 for a byte that is no digit.
unfoldable pub hex_lookup : ℕ → ℤ
hex_lookup c =
    if leb b'0' c && leb c b'9'
    then pos (c - b'0')
    else if leb b'a' c && leb c b'f'
    then pos (c - b'a' + 10)
    else if leb b'A' c && leb c b'F'
    then pos (c - b'A' + 10)
    else negsuc 0

-- `uint8(res<<4 | res2)`; the shift is made in 8 bits. `none` is `invalidError`.
unfoldable pub decode_hex : ℕ → ℕ → Option ℕ
decode_hex left right = elim (hex_lookup left) [
  | negsuc _ ↦ none
  | pos res ↦ elim (hex_lookup right) [
    | negsuc _ ↦ none
    | pos res2 ↦ some (bit_or (res * 2 ^ 4 % 2 ^ 8) res2)
  ]
]

-- How one round of the loop ends: by `break outer`, or with a new `i`; `out[:j]` goes along.
pub data Round : Type 0 where
  broke : Bytes → Round
  moved : ℕ → Bytes → Round

-- `out[j] = b; j++`, after which `i` is `next`.
abbrev pub write : Bytes → ℕ → Bytes → ℕ → Outcome Round
write inp next out b =
    if ltb (length out) (length inp) then returns (moved next (out ++ b ∷ [])) else panics

-- What is written for a hex escape: the decoded byte, or where there is none `in[j]`.
abbrev pub hex_result : Bytes → ℕ → Bytes → Option ℕ → Outcome Round
hex_result inp i out none = do c ← index inp (length out); write inp (i + 1) out c
hex_result inp i out (some decoded) = write inp (i + 4) out decoded

-- `case 'x', 'X'`.
abbrev pub hex_escape : Bytes → ℕ → Bytes → Outcome Round
hex_escape inp i out = if ltb (length inp) (i + 4) then returns (broke out) else do
  left ← index inp (i + 2)
  right ← index inp (i + 3)
  hex_result inp i out (decode_hex left right)

-- `switch in[i+1]`.
abbrev pub escape : Bytes → ℕ → Bytes → ℕ → Outcome Round
escape inp i out c =
    if c == b'x' || c == b'X'
    then hex_escape inp i out
    else if c == b'r'
    then write inp (i + 2) out b'\r'
    else if c == b'n'
    then write inp (i + 2) out b'\n'
    else if c == b't'
    then write inp (i + 2) out b'\t'
    else write inp (i + 2) out c

-- `case '\\'`.
abbrev pub backslash : Bytes → ℕ → Bytes → Outcome Round
backslash inp i out =
    if leb (length inp) (i + 1)
    then returns (broke out)
    else do e ← index inp (i + 1); escape inp i out e

-- `switch in[i]`.
abbrev pub on_byte : Bytes → ℕ → Bytes → ℕ → Outcome Round
on_byte inp i out c = if c == b'\\' then backslash inp i out else write inp (i + 1) out c

-- The body of the loop.
unfoldable pub round : Bytes → ℕ → Bytes → Outcome Round
round inp i out =
    if leb (length inp) i then returns (broke out) else do c ← index inp i; on_byte inp i out c

unfoldable pub loop : ℕ → Bytes → ℕ → Bytes → Outcome Bytes
unfolding round
loop zero inp i out = hangs
loop (suc fuel) inp i out = do
  r ← round inp i out
  elim r [ broke result ↦ returns result | moved next result ↦ loop fuel inp next result ]

-- `s[lo:hi]`.
abbrev pub slice : ℕ → ℕ → Bytes → Outcome Bytes
slice lo hi s =
    if leb lo hi && leb hi (length s) then returns (take (hi - lo) (drop lo s)) else panics

-- `strings.HasPrefix` and `strings.HasSuffix`.
abbrev pub has_prefix : Bytes → Bytes → Bool
has_prefix s p = equal (take (length p) s) p

abbrev pub has_suffix : Bytes → Bytes → Bool
has_suffix s p = equal (drop (length s - length p) s) p

abbrev pub triple : Bytes
triple = b'\'' ∷ b'\'' ∷ b'\'' ∷ []

-- The loop on the text between the quotes.
unfoldable pub decode : Bytes → Outcome Bytes
unfolding loop
decode inp = loop (length inp + 1) inp 0 []

-- What happens to a string that is no literal, by its first byte.
abbrev pub unquote_by : Bytes → ℕ → Outcome Bytes
unquote_by s quote =
    if quote == b'"' || quote == b'\''
    then (do inp ← slice 1 (length s - 1) s; decode inp)
    else returns s

unfoldable pub unquote : Bytes → Outcome Bytes
unfolding decode
unquote s =
    if has_prefix s triple && has_suffix s triple
    then slice 3 (length s - 3) s
    else do quote ← index s 0; unquote_by s quote
