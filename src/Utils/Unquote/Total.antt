-- ===== src/Utils/Unquote/Total.antt =====
-- `Unquote` ends, and where it may panic.
use vfilter.Base.{
  ℕ, zero, suc, ◌+◌, ◌-◌, ◌≤◌, ◌<◌, ◌≡◌, refl, inl, inr, Bool, true, false, List, [], ◌∷◌, ◌&&◌,
  Option, none, some, arith, length, length-append, take, drop, Bytes, Outcome, returns, index,
  Bool-cases, panics, hangs, Halts, ◌>>=◌, length-take_le, leb, ltb, if◌then◌else◌, ◌||◌, ◌==◌,
}
use vfilter.Utils.Unquote.{
  Round, broke, moved, write, hex_result, hex_escape, escape, backslash, on_byte, round, loop,
  decode, slice, has_prefix, has_suffix, triple, unquote_by, unquote, decode_hex,
}

-- An index in range is read.
pub index-returns {ℓ} :
    {A : Type ℓ} (xs : List A) (i : ℕ) → i < length xs → (a : A) × (index xs i ≡ returns a)
index-returns [] i h = absurd (omega arith)
index-returns (x ∷ xs) zero h = (x, refl)
index-returns (x ∷ xs) (suc i) h = index-returns xs i (omega arith)

-- A round returns; if it goes on, then `i` has grown and `j` has not overtaken it.
abbrev Advances : ℕ → ℕ → Outcome Round → Type 0
Advances n i (returns (broke out)) = length out ≤ i
Advances n i (returns (moved k out)) = (i < k) × (k ≤ n) × (length out ≤ k)
Advances n i _ = ⊥

write-Advances :
    (inp : Bytes) (i k : ℕ) (out : Bytes) (b : ℕ)
    → i < k
    → k ≤ length inp
    → length out ≤ i
    → Advances (length inp) i (write inp k out b)
write-Advances inp i k out b h hk o = ground (arith, length-append out (b ∷ []))

hex_result-Advances :
    (inp : Bytes) (i : ℕ) (out : Bytes) (d : Option ℕ)
    → i + 4 ≤ length inp
    → length out ≤ i
    → Advances (length inp) i (hex_result inp i out d)
hex_result-Advances inp i out none h o =
    let (c, e) = index-returns inp (length out) (omega arith) in
    rw e (write-Advances inp i (i + 1) out c (omega arith) (omega arith) o)
hex_result-Advances inp i out (some d) h o = write-Advances inp i (i + 4) out d (omega arith) h o

hex_escape-Advances :
    (inp : Bytes) (i : ℕ) (out : Bytes)
    → length out ≤ i
    → Advances (length inp) i (hex_escape inp i out)
hex_escape-Advances inp i out o = elim (Bool-cases (ltb (length inp) (i + 4))) [
  | inl e ↦ rw e o
  | inr e ↦
      let (l, el) = index-returns inp (i + 2) (ground arith) in
      let (r, er) = index-returns inp (i + 3) (ground arith) in
      rw (e, el, er) (hex_result-Advances inp i out (decode_hex l r) (ground arith) o)
]

escape-Advances :
    (inp : Bytes) (i : ℕ) (out : Bytes) (c : ℕ)
    → i + 2 ≤ length inp
    → length out ≤ i
    → Advances (length inp) i (escape inp i out c)
escape-Advances inp i out c h o = ground (
  arith,
  hex_escape-Advances inp i out o,
  write-Advances inp i (i + 2) out b'\r' (omega arith) h o,
  write-Advances inp i (i + 2) out b'\n' (omega arith) h o,
  write-Advances inp i (i + 2) out b'\t' (omega arith) h o,
  write-Advances inp i (i + 2) out c (omega arith) h o,
)

round-Advances :
    (inp : Bytes) (i : ℕ) (out : Bytes) → length out ≤ i → Advances (length inp) i (round inp i out)
unfolding round
round-Advances inp i out o = elim (Bool-cases (leb (length inp) i)) [
  | inl e ↦ rw e o
  | inr e ↦
      let (c, ec) = index-returns inp i (ground arith) in
      rw (e, ec) (on_byte-Advances c (ground arith))
]
  where
    backslash-Advances : i < length inp → Advances (length inp) i (backslash inp i out)
    backslash-Advances h = elim (Bool-cases (leb (length inp) (i + 1))) [
      | inl e ↦ rw e o
      | inr e ↦
          let (c, ec) = index-returns inp (i + 1) (ground arith) in
          rw (e, ec) (escape-Advances inp i out c (ground arith) o)
    ]

    on_byte-Advances : (c : ℕ) → i < length inp → Advances (length inp) i (on_byte inp i out c)
    on_byte-Advances c h = ground (
      arith,
      backslash-Advances h,
      write-Advances inp i (i + 1) out c (omega arith) (omega arith) o,
    )

-- A run that returns, with at most `n` bytes.
abbrev pub Ends : ℕ → Outcome Bytes → Type 0
Ends n (returns res) = length res ≤ n
Ends n _ = ⊥

Ends-next :
    (fuel : ℕ) (inp : Bytes) (i : ℕ) (r : Outcome Round)
    → i ≤ length inp
    → Advances (length inp) i r
    → ((k : ℕ) (out : Bytes)
        → i < k
        → k ≤ length inp
        → length out ≤ k
        → Ends (length inp) (loop fuel inp k out))
    → Ends
        (length inp)
        (r >>= λ x. elim x [ broke out ↦ returns out | moved k out ↦ loop fuel inp k out ])
Ends-next fuel inp i (returns (broke out)) h a rest = omega arith
Ends-next fuel inp i (returns (moved k out)) h a rest = rest k out a.0 a.1 a.2
Ends-next fuel inp i panics h a rest = absurd a
Ends-next fuel inp i hangs h a rest = absurd a

-- With fuel for the bytes that are left the loop ends.
loop-Ends :
    (fuel : ℕ) (inp : Bytes) (i : ℕ) (out : Bytes)
    → i ≤ length inp
    → length out ≤ i
    → length inp < fuel + i
    → Ends (length inp) (loop fuel inp i out)
unfolding loop
loop-Ends zero inp i out h o f = absurd (omega arith)
loop-Ends (suc fuel) inp i out h o f =
    Ends-next fuel inp i (round inp i out) h (round-Advances inp i out o)
      λ k out' lt le o'. loop-Ends fuel inp k out' le o' (omega arith)

pub decode-Ends : (inp : Bytes) → Ends (length inp) (decode inp)
unfolding decode
decode-Ends inp = loop-Ends (length inp + 1) inp 0 [] (omega arith) (omega arith) (omega arith)

Ends-returns :
    (n m : ℕ) (r : Outcome Bytes)
    → n ≤ m
    → Ends n r
    → (res : Bytes) × (r ≡ returns res) × (length res ≤ m)
Ends-returns n m (returns res) h e = (res, refl, omega arith)
Ends-returns n m panics h e = absurd e
Ends-returns n m hangs h e = absurd e

slice-Ends : (lo hi : ℕ) (s : Bytes) → lo ≤ hi → hi ≤ length s → Ends (length s) (slice lo hi s)
slice-Ends lo hi s h k = ground (arith, length-take_le (hi - lo) (drop lo s))

unquote_by-Ends : (s : Bytes) (quote : ℕ) → 2 ≤ length s → Ends (length s) (unquote_by s quote)
unquote_by-Ends s quote h = ground (
  arith,
  decode-Ends (take (length s - 1 - 1) (drop 1 s)),
  length-take_le (length s - 1 - 1) (drop 1 s),
)

unquote-Ends :
    (s : Bytes)
    → 2 ≤ length s
    → (has_prefix s triple ≡ true → 6 ≤ length s)
    → Ends (length s) (unquote s)
unfolding unquote
unquote-Ends s h t = elim (Bool-cases (has_prefix s triple && has_suffix s triple)) [
  | inl e ↦ rw e (
      slice-Ends 3 (length s - 3) s (omega (arith, t (and_left (has_prefix s triple) _ e)))
        (omega arith))
  | inr e ↦ let (c, ec) = index-returns s 0 (omega arith) in rw (e, ec) (unquote_by-Ends s c h)
]
  where
    and_left : (a b : Bool) → (a && b) ≡ true → a ≡ true
    and_left a b e = ground arith

-- A literal of two bytes or more, of six or more if it starts with three single quotes, is
-- unquoted without a panic and without end of the fuel, to at most as many bytes.
pub unquote-returns :
    (s : Bytes)
    → 2 ≤ length s
    → (has_prefix s triple ≡ true → 6 ≤ length s)
    → (res : Bytes) × (unquote s ≡ returns res) × (length res ≤ length s)
unquote-returns s h t =
    Ends-returns (length s) (length s) (unquote s) (omega arith) (unquote-Ends s h t)

slice-Halts : (lo hi : ℕ) (s : Bytes) → Halts (slice lo hi s)
slice-Halts lo hi s = ground arith

Ends-Halts : (n : ℕ) (r : Outcome Bytes) → Ends n r → Halts r
Ends-Halts n (returns res) e = tt
Ends-Halts n panics e = absurd e
Ends-Halts n hangs e = absurd e

bind-Halts :
    {A : Type 0} (m : Outcome A) (f : A → Outcome Bytes)
    → Halts m
    → ((a : A) → Halts (f a))
    → Halts (m >>= f)
bind-Halts (returns a) f h k = k a
bind-Halts panics f h k = tt
bind-Halts hangs f h k = h

pub unquote-Halts : (s : Bytes) → Halts (unquote s)
unfolding unquote
unquote-Halts s = by_prefix (has_prefix s triple && has_suffix s triple)
  where
    by_quote : (quote : ℕ) → Halts (unquote_by s quote)
    by_quote quote = by_test (quote == b'"' || quote == b'\'')
      where
        by_test :
            (b : Bool)
            → Halts (if b then (do inp ← slice 1 (length s - 1) s; decode inp) else returns s)
        by_test true =
            bind-Halts (slice 1 (length s - 1) s) decode (slice-Halts 1 (length s - 1) s)
              (λ inp. Ends-Halts (length inp) (decode inp) (decode-Ends inp))
        by_test false = tt

    first : Halts (index s 0)
    first = ground arith

    by_prefix :
        (b : Bool)
        → Halts (if b then slice 3 (length s - 3) s else do quote ← index s 0; unquote_by s quote)
    by_prefix true = slice-Halts 3 (length s - 3) s
    by_prefix false = bind-Halts (index s 0) (unquote_by s) first by_quote
