-- ===== src/Utils/Unquote/RoundTrip.antt =====
-- `Unquote` reads back every way of writing a string between quotes.
use vfilter.Base.{
  if◌then◌else◌, ℕ, zero, suc, ◌+◌, ◌-◌, ◌*◌, ◌%◌, ◌^◌, ◌≤◌, ◌<◌, ◌≡◌, ◌≢◌, refl, ap, ◌⊎◌, Bool,
  true, false, [], ◌∷◌, ◌++◌, some, arith, bit_or, length, length-append, get_elem?-append,
  take-append, Bytes, returns, ◌==◌, ==_iff, append_assoc, append-nil,
}
use vfilter.Base.Int.{pos}
use vfilter.Utils.Unquote.{
  slice, has_prefix, triple, write, escape, moved, hex_lookup, decode_hex, round, loop, decode,
  unquote,
}

-- `c` is the hexadecimal digit of value `v`, in either case.
abbrev pub HexDigit : ℕ → ℕ → Type 0
HexDigit c v =
    ((v < 10) × (c ≡ b'0' + v))
    ⊎ ((10 ≤ v) × (v < 16) × (c + 10 ≡ b'a' + v))
    ⊎ ((10 ≤ v) × (v < 16) × (c + 10 ≡ b'A' + v))

-- What a backslash and one byte other than `x` stand for.
pub data Escape : ℕ → ℕ → Type 0 where
  carriage_return : {e b : ℕ} → e ≡ b'r' → b ≡ b'\r' → Escape e b
  newline : {e b : ℕ} → e ≡ b'n' → b ≡ b'\n' → Escape e b
  tabulator : {e b : ℕ} → e ≡ b't' → b ≡ b'\t' → Escape e b
  itself : {e b : ℕ} → e ≢ b'x' → e ≢ b'X' → e ≢ b'r' → e ≢ b'n' → e ≢ b't' → b ≡ e → Escape e b

-- The text `src` between quotes `q` is a way to write the bytes `s`: each byte stands as it is, or
-- behind a backslash, or as two hexadecimal digits.
pub data Encodes (q : ℕ) : Bytes → Bytes → Type 0 where
  done : Encodes q [] []
  literal :
      {src s : Bytes} (c : ℕ) → c ≢ b'\\' → c ≢ q → Encodes q src s → Encodes q (c ∷ src) (c ∷ s)
  escaped :
      {src s : Bytes} (e b : ℕ) → Escape e b → Encodes q src s → Encodes q (b'\\' ∷ e ∷ src) (b ∷ s)
  hex :
      {src s : Bytes} (x l r hi lo : ℕ)
      → (x ≡ b'x') ⊎ (x ≡ b'X')
      → HexDigit l hi
      → HexDigit r lo
      → Encodes q src s
      → Encodes q (b'\\' ∷ x ∷ l ∷ r ∷ src) ((16 * hi + lo) ∷ s)

hex_lookup-HexDigit : (c v : ℕ) → HexDigit c v → (v < 16) × (hex_lookup c ≡ pos v)
unfolding hex_lookup
hex_lookup-HexDigit c v h = ground arith

-- The test holds up to the limit.
holds_up_to : (ℕ → Bool) → ℕ → Bool
holds_up_to test zero = test zero
holds_up_to test (suc limit) = if test (suc limit) then holds_up_to test limit else false

test-holds_up_to :
    (test : ℕ → Bool) (limit value : ℕ)
    → value ≤ limit
    → holds_up_to test limit ≡ true
    → test value ≡ true
unfolding holds_up_to
test-holds_up_to test zero value below all = ground arith
test-holds_up_to test (suc limit) value below all =
    ground (arith, test-holds_up_to test limit value)

abbrev joined : ℕ → ℕ → Bool
joined hi lo = bit_or (hi * 2 ^ 4 % 2 ^ 8) lo == 16 * hi + lo

nibble_table : holds_up_to (λ hi. holds_up_to (joined hi) 15) 15 ≡ true
unfolding holds_up_to
nibble_table = refl

-- Two nibbles are joined by a shift and an or.
join_nibbles : (hi lo : ℕ) → hi < 16 → lo < 16 → bit_or (hi * 2 ^ 4 % 2 ^ 8) lo ≡ 16 * hi + lo
join_nibbles hi lo h l =
    let of_hi =
      test-holds_up_to (λ hi. holds_up_to (joined hi) 15) 15 hi (omega arith) nibble_table in
    (==_iff _ _).0 (test-holds_up_to (joined hi) 15 lo (omega arith) of_hi)

pub decode_hex-HexDigit :
    (l r hi lo : ℕ) → HexDigit l hi → HexDigit r lo → decode_hex l r ≡ some (16 * hi + lo)
unfolding decode_hex
decode_hex-HexDigit l r hi lo h k =
    let (hb, he) = hex_lookup-HexDigit l hi h in
    let (kb, ke) = hex_lookup-HexDigit r lo k in ground (arith, he, ke, join_nibbles hi lo hb kb)

-- One round at the place where `pre` is read, `out` is written and the rest starts with a piece.
module _ (pre rest out : Bytes) (o : length out ≤ length pre) where
  round_literal :
      (c : ℕ)
      → c ≢ b'\\'
      → round (pre ++ c ∷ rest) (length pre) out ≡ returns (moved (length pre + 1) (out ++ c ∷ []))
  unfolding round
  round_literal c h =
      ground (arith, get_elem?-append pre (c ∷ rest) (length pre) 0, length-append pre (c ∷ rest))

  round_backslash :
      (e b : ℕ)
      → escape (pre ++ b'\\' ∷ e ∷ rest) (length pre) out e
        ≡ write (pre ++ b'\\' ∷ e ∷ rest) (length pre + 2) out b
      → round (pre ++ b'\\' ∷ e ∷ rest) (length pre) out
        ≡ returns (moved (length pre + 2) (out ++ b ∷ []))
  unfolding round
  round_backslash e b h = ground (
    arith,
    get_elem?-append pre (b'\\' ∷ e ∷ rest) (length pre) 0,
    get_elem?-append pre (b'\\' ∷ e ∷ rest) (length pre + 1) 1,
    length-append pre (b'\\' ∷ e ∷ rest),
  )

  round_escaped :
      (e b : ℕ)
      → Escape e b
      → round (pre ++ b'\\' ∷ e ∷ rest) (length pre) out
        ≡ returns (moved (length pre + 2) (out ++ b ∷ []))
  round_escaped e b (carriage_return p q) = round_backslash e b (rw (p, q))
  round_escaped e b (newline p q) = round_backslash e b (rw (p, q))
  round_escaped e b (tabulator p q) = round_backslash e b (rw (p, q))
  round_escaped e b (itself x xx r n t q) = round_backslash e b (ground arith)

  round_hex :
      (x l r hi lo : ℕ)
      → (x ≡ b'x') ⊎ (x ≡ b'X')
      → HexDigit l hi
      → HexDigit r lo
      → round (pre ++ b'\\' ∷ x ∷ l ∷ r ∷ rest) (length pre) out
        ≡ returns (moved (length pre + 4) (out ++ (16 * hi + lo) ∷ []))
  unfolding round
  round_hex x l r hi lo h k m = ground (
    arith,
    decode_hex-HexDigit l r hi lo k m,
    get_elem?-append pre (b'\\' ∷ x ∷ l ∷ r ∷ rest) (length pre) 0,
    get_elem?-append pre (b'\\' ∷ x ∷ l ∷ r ∷ rest) (length pre + 1) 1,
    get_elem?-append pre (b'\\' ∷ x ∷ l ∷ r ∷ rest) (length pre + 2) 2,
    get_elem?-append pre (b'\\' ∷ x ∷ l ∷ r ∷ rest) (length pre + 3) 3,
    length-append pre (b'\\' ∷ x ∷ l ∷ r ∷ rest),
  )

loop-broke : (fuel : ℕ) (inp out : Bytes) → loop (suc fuel) inp (length inp) out ≡ returns out
unfolding loop round
loop-broke fuel inp out = ground arith

loop-moved :
    (fuel : ℕ) (inp : Bytes) (i k : ℕ) (out out' : Bytes)
    → round inp i out ≡ returns (moved k out')
    → loop (suc fuel) inp i out ≡ loop fuel inp k out'
unfolding loop
loop-moved fuel inp i k out out' e = rw e

-- A piece that stands for one byte, in front of text that the loop reads.
loop_piece :
    (fuel i k b : ℕ) (pre piece src out s : Bytes)
    → i ≡ length pre
    → round (pre ++ (piece ++ src)) (length pre) out ≡ returns (moved k (out ++ b ∷ []))
    → loop fuel ((pre ++ piece) ++ src) k (out ++ b ∷ []) ≡ returns ((out ++ b ∷ []) ++ s)
    → loop (suc fuel) (pre ++ (piece ++ src)) i out ≡ returns (out ++ b ∷ s)
loop_piece fuel i k b pre piece src out s ei e rest =
    rw
      (
        ei,
        loop-moved fuel (pre ++ (piece ++ src)) (length pre) k out (out ++ b ∷ []) e,
        ← append_assoc pre piece src,
        rest,
      )
      (ap returns (append_assoc out (b ∷ []) s))

-- The loop over the pieces that are left.
loop-Encodes :
    {q : ℕ} (fuel i : ℕ) (pre out : Bytes) {src s : Bytes}
    → Encodes q src s
    → i ≡ length pre
    → length out ≤ length pre
    → length src < fuel
    → loop fuel (pre ++ src) i out ≡ returns (out ++ s)
loop-Encodes zero i pre out e ei o f = absurd (omega arith)
loop-Encodes (suc fuel) i pre out done ei o f =
    rw (ei, append-nil pre, append-nil out) (loop-broke fuel pre out)
loop-Encodes (suc fuel) i pre out (literal {src} {s} c h k e) ei o f =
    let piece : Bytes = c ∷ [] in
    loop_piece fuel i (length pre + 1) c pre piece src out s ei (round_literal pre src out o c h) (
      loop-Encodes fuel (length pre + 1) (pre ++ piece) (out ++ c ∷ []) e
        (omega (arith, length-append pre piece))
        (omega (arith, length-append pre piece, length-append out (c ∷ []))) (omega arith))
loop-Encodes (suc fuel) i pre out (escaped {src} {s} e b h r) ei o f =
    let piece : Bytes = b'\\' ∷ e ∷ [] in
    loop_piece fuel i (length pre + 2) b pre piece src out s ei (round_escaped pre src out o e b h)
      (loop-Encodes fuel (length pre + 2) (pre ++ piece) (out ++ b ∷ []) r
        (omega (arith, length-append pre piece))
        (omega (arith, length-append pre piece, length-append out (b ∷ []))) (omega arith))
loop-Encodes (suc fuel) i pre out (hex {src} {s} x l r hi lo hx hl hr e) ei o f =
    let piece : Bytes = b'\\' ∷ x ∷ l ∷ r ∷ [] in
    let b : ℕ = 16 * hi + lo in
    loop_piece fuel i (length pre + 4) b pre piece src out s ei
      (round_hex pre src out o x l r hi lo hx hl hr)
      (loop-Encodes fuel (length pre + 4) (pre ++ piece) (out ++ b ∷ []) e
        (omega (arith, length-append pre piece))
        (omega (arith, length-append pre piece, length-append out (b ∷ []))) (omega arith))

decode-Encodes : {q : ℕ} {src s : Bytes} → Encodes q src s → decode src ≡ returns s
unfolding decode
decode-Encodes {src} e = loop-Encodes (length src + 1) 0 [] [] e refl (omega arith) (omega arith)

-- No literal of one quote starts like one of three.
not_triple :
    {q : ℕ} {src s : Bytes} → Encodes q src s → has_prefix (q ∷ (src ++ q ∷ [])) triple ≡ false
not_triple done = ground arith
not_triple (literal c h k e) = ground arith
not_triple (escaped e b h r) = ground arith
not_triple (hex x l r hi lo hx hl hr e) = ground arith

unquoted_middle :
    (q : ℕ) (src : Bytes)
    → slice 1 (length (q ∷ (src ++ q ∷ [])) - 1) (q ∷ (src ++ q ∷ [])) ≡ returns src
unquoted_middle q src =
    ground
      (arith, length-append src (q ∷ []), take-append src (q ∷ []) (length (src ++ q ∷ []) - 1))

-- Every way to write a string between double quotes, or between single ones, is read back.
pub unquote-Encodes :
    {q : ℕ} {src s : Bytes}
    → (q ≡ b'"') ⊎ (q ≡ b'\'')
    → Encodes q src s
    → unquote (q ∷ (src ++ q ∷ [])) ≡ returns s
unfolding unquote
unquote-Encodes {q} {src} {s} h e =
    ground (arith, not_triple e, unquoted_middle q src, decode-Encodes e)
