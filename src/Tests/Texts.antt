-- ===== src/Tests/Texts.antt =====
-- Literals and identifiers.
use vfilter.Base.{
  ◌≤◌, ◌≡◌, refl, inl, [], ◌∷◌, ◌++◌, Bytes, codes, returns, length, arith, true, false,
}
use vfilter.Utils.Unquote.{unquote}
use vfilter.Utils.Unquote.RoundTrip.{Encodes, unquote-Encodes, Escape}
use vfilter.Utils.Unquote.Total.{unquote-returns}
use vfilter.Utils.Ident.{split_ident}
use vfilter.Utils.Ident.Split.{split_ident-Dotted, Dotted, Spells}

-- "a\n"
unquote-Encodes_example :
    unquote (b'"' ∷ ((b'a' ∷ b'\\' ∷ b'n' ∷ []) ++ b'"' ∷ [])) ≡ returns (b'a' ∷ b'\n' ∷ [])
unquote-Encodes_example = unquote-Encodes (inl refl) (
    Encodes.literal b'a' (omega arith) (omega arith)
      (Encodes.escaped b'n' b'\n' (Escape.newline refl refl) Encodes.done))

unquote-returns_example :
    (res : Bytes) × (unquote (codes "'a\\'") ≡ returns res) × (length res ≤ length (codes "'a\\'"))
unquote-returns_example = unquote-returns (codes "'a\\'") (omega arith) (λ h. ground arith)

-- a.`b.c`
split_ident-Dotted_example :
    split_ident ((b'a' ∷ []) ++ b'.' ∷ (b'`' ∷ b'.' ∷ b'`' ∷ [])) ≡ (b'a' ∷ []) ∷ (b'.' ∷ []) ∷ []
split_ident-Dotted_example = split_ident-Dotted (
    Dotted.dot (Spells.plain b'a' (omega arith) (omega arith) Spells.done) (
      Dotted.last (
        Spells.tick false true (λ e. ground arith)
          (Spells.inside b'.' (omega arith)
            (Spells.tick true false (λ e. ground arith) Spells.done)))))
