-- ===== src/Statements/Comments.antt =====
-- The comments and the statements that `GetStatements` gives.
use vfilter.Base.{List, [], ◌∷◌, ◌++◌, map, append-nil, append_assoc, ◌≡◌, refl, ap, ◌∙◌}
use vfilter.Statements.{
  Vql, MultiVql, last_statement, statement, with_comments, statements_from, get_statements,
}

module _ {E Q C : Type 0} where
  -- The statements of the text, with no comments; the comments in the order of the text but for those
  -- behind the last statement; and these.
  abbrev pub bare : Vql E Q C → Vql E Q C
  bare vql = with_comments [] vql

  abbrev pub parts : MultiVql E Q C → List (Vql E Q C)
  parts (last_statement comments vql comments2) = bare vql ∷ []
  parts (statement comments vql comments2 next) = bare vql ∷ parts next

  abbrev pub comments_before : MultiVql E Q C → List C
  comments_before (last_statement comments vql comments2) = comments
  comments_before (statement comments vql comments2 next) =
      comments ++ (comments2 ++ comments_before next)

  abbrev pub comments_behind : MultiVql E Q C → List C
  comments_behind (last_statement comments vql comments2) = comments2
  comments_behind (statement comments vql comments2 next) = comments_behind next

  abbrev pub collected : List (Vql E Q C) → List C
  collected [] = []
  collected (vql ∷ vqls) = vql.comments ++ collected vqls

  -- What `GetStatements` promises of the tree that it leaves and of the statements.
  pub record IsSplit (multi : MultiVql E Q C) (result : MultiVql E Q C × List (Vql E Q C))
      : Type 0 where
    pub in_order : map bare result.1 ≡ parts multi
    pub kept : collected result.1 ≡ comments_before multi
    pub trailing : comments_behind result.0 ≡ comments_behind multi

  collected-statements_from :
      (moved : List C) (multi : MultiVql E Q C)
      → collected (statements_from moved multi).1 ≡ moved ++ comments_before multi
  unfolding statements_from
  collected-statements_from moved (last_statement comments vql comments2) = append-nil _
  collected-statements_from moved (statement comments vql comments2 next) =
      ap (λ cs. (moved ++ comments) ++ cs) (collected-statements_from comments2 next)
      ∙ append_assoc moved comments (comments2 ++ comments_before next)

  bare-statements_from :
      (moved : List C) (multi : MultiVql E Q C)
      → map bare (statements_from moved multi).1 ≡ parts multi
  unfolding statements_from
  bare-statements_from moved (last_statement comments vql comments2) = refl
  bare-statements_from moved (statement comments vql comments2 next) =
      ap (λ vqls. bare vql ∷ vqls) (bare-statements_from comments2 next)

  behind-statements_from :
      (moved : List C) (multi : MultiVql E Q C)
      → comments_behind (statements_from moved multi).0 ≡ comments_behind multi
  unfolding statements_from
  behind-statements_from moved (last_statement comments vql comments2) = refl
  behind-statements_from moved (statement comments vql comments2 next) =
      behind-statements_from comments2 next

  again-statements_from :
      (moved : List C) (multi : MultiVql E Q C)
      → statements_from [] (statements_from moved multi).0 ≡ statements_from moved multi
  unfolding statements_from
  again-statements_from moved (last_statement comments vql comments2) = refl
  again-statements_from moved (statement comments vql comments2 next) =
      ap
        (λ (rest : MultiVql E Q C × List (Vql E Q C)).
          let vql1 = with_comments (moved ++ comments) vql in
          (statement (moved ++ comments) vql1 [] rest.0, vql1 ∷ rest.1))
        (again-statements_from comments2 next)

  -- The statements come in the order of the text and unchanged but for their comments; these are, one
  -- statement after the other, all comments of the text in order up to the last statement, and those
  -- behind it stay in the tree. A second call, on the tree that the first one leaves, gives the same.
  pub get_statements-IsSplit :
      (multi : MultiVql E Q C)
      → IsSplit multi (get_statements multi)
        × (get_statements (get_statements multi).0 ≡ get_statements multi)
  unfolding get_statements
  get_statements-IsSplit multi = (
    record {
      in_order = bare-statements_from [] multi;
      kept = collected-statements_from [] multi;
      trailing = behind-statements_from [] multi;
    },
    again-statements_from [] multi,
  )
