-- ===== src/Lexer/Scan/Agree.antt =====
-- The scans inside interpolations end where the lexer's own scans end.
use typenative.Prelude.{
  ℕ, ◌+◌, ◌-◌, false, ◌&&◌, [], ◌∷◌, Option, none, some, ◌≡◌, inl, inr, refl, ap, ◌∙◌, arith,
  length, drop, ◌==◌, Bool-cases,
}
use typenative.Lexer.Tokens.{LexError, unterminated_block_comment}
use typenative.Lexer.Scan.{
  Bytes, Scanned, accepted, rejected, star, slash, backslash, is_line_end, delimiter, comment_end,
  lex_block_comment, quoted_end, lex_quoted, skip_quoted_from, skip_quoted, skip_comment_from,
  skip_block_comment,
}

-- Where a comment ends: past its delimiter, or at the end of the text.
abbrev pub or_past : ℕ → ℕ → Option ℕ → ℕ
or_past past start none = past
or_past past start (some index) = start + index

comment_from-comment_end :
    (past depth start index : ℕ) (rest : Bytes)
    → skip_comment_from past depth (start + index) rest
      ≡ or_past past start (comment_end depth index rest)
unfolding skip_comment_from comment_end delimiter
comment_from-comment_end past depth start index [] = refl
comment_from-comment_end past depth start index (a ∷ []) = refl
comment_from-comment_end past depth start index (a ∷ b ∷ rest) =
    elim (Bool-cases ((a == slash) && (b == star))) [
      | inl opening ↦
          rw (opening, skip_comment_from, comment_end, delimiter)
            (move 2 (λ i. skip_comment_from past (depth + 1) i rest)
              ∙ comment_from-comment_end past (depth + 1) start (index + 2) rest)
      | inr plain ↦ elim (Bool-cases ((a == star) && (b == slash))) [
        | inl closing ↦ elim (Bool-cases ((depth - 1) == 0)) [
          | inl last ↦
              rw (plain, closing, last, skip_comment_from, comment_end, delimiter) (omega arith)
          | inr inner ↦
              rw (plain, closing, inner, skip_comment_from, comment_end, delimiter)
                (move 2 (λ i. skip_comment_from past (depth - 1) i rest)
                  ∙ comment_from-comment_end past (depth - 1) start (index + 2) rest)
        ]
        | inr other ↦
            rw (plain, other, skip_comment_from, comment_end, delimiter)
              (move 1 (λ i. skip_comment_from past depth i (b ∷ rest))
                ∙ comment_from-comment_end past depth start (index + 1) (b ∷ rest))
      ]
    ]
  where
    move : (k : ℕ) (f : ℕ → ℕ) → f (start + index + k) ≡ f (start + (index + k))
    move k f = ap f (omega arith)

two_on : (start index : ℕ) → start + index + 2 ≡ start + (index + 1 + 1)
two_on start index = omega arith

one_on : (start index : ℕ) → start + index + 1 ≡ start + (index + 1)
one_on start index = omega arith

-- the end of a comment, from what the lexer's callback did past its start
abbrev pub comment_past : ℕ → ℕ → Scanned → ℕ
comment_past past start (accepted index) = start + index
comment_past past start (rejected n error) = past

abbrev lexed_comment : ℕ → Option ℕ → Scanned
lexed_comment size (some index) = accepted index
lexed_comment size none = rejected size unterminated_block_comment

same_past :
    (past start size : ℕ) (o : Option ℕ)
    → or_past past start o ≡ comment_past past start (lexed_comment size o)
same_past past start size none = refl
same_past past start size (some index) = refl

skip_quoted_from-accepted :
    (quote : ℕ) (error : LexError) (start index past : ℕ) (rest : Bytes)
    → quoted_end quote error false index rest ≡ accepted past
    → skip_quoted_from quote (start + index) rest ≡ start + past
unfolding skip_quoted_from quoted_end
skip_quoted_from-accepted quote error start index past [] e = absurd (cc e)
skip_quoted_from-accepted quote error start index past (b ∷ []) e =
    elim (Bool-cases (is_line_end b)) [
      | inl ends ↦ absurd (cc (rw (ends, quoted_end) at e))
      | inr inside ↦ elim (Bool-cases (b == backslash)) [
        | inl escapes ↦ absurd (cc (rw (inside, quoted_end, escapes, quoted_end) at e))
        | inr plain ↦ elim (Bool-cases (b == quote)) [
          | inl closed ↦
              let q : index + 1 ≡ past = cc (rw (inside, quoted_end, plain, closed) at e) in
              omega (arith, q)
          | inr other ↦ absurd (cc (rw (inside, quoted_end, plain, other, quoted_end) at e))
        ]
      ]
    ]
skip_quoted_from-accepted quote error start index past (b ∷ c ∷ rest) e =
    elim (Bool-cases (is_line_end b)) [
      | inl ends ↦ absurd (cc (rw (ends, quoted_end) at e))
      | inr inside ↦ elim (Bool-cases (b == backslash)) [
        | inl escapes ↦ elim (Bool-cases (is_line_end c)) [
          | inl ends ↦ absurd (cc (rw (inside, quoted_end, escapes, quoted_end, ends) at e))
          | inr kept ↦
              rw (escapes, skip_quoted_from)
                (ap (λ i. skip_quoted_from quote i rest) (two_on start index)
                  ∙ skip_quoted_from-accepted quote error start (index + 1 + 1) past rest
                      (rw (inside, quoted_end, escapes, quoted_end, kept) at e))
        ]
        | inr plain ↦ elim (Bool-cases (b == quote)) [
          | inl closed ↦
              let q : index + 1 ≡ past = cc (rw (inside, quoted_end, plain, closed) at e) in
              rw (plain, skip_quoted_from, closed) (omega (arith, q))
          | inr other ↦
              rw (plain, skip_quoted_from, other)
                (ap (λ i. skip_quoted_from quote i (c ∷ rest)) (one_on start index)
                  ∙ skip_quoted_from-accepted quote error start (index + 1) past (c ∷ rest)
                      (rw (inside, quoted_end, plain, other) at e))
        ]
      ]
    ]

-- The comment that `scan_interpolation` skips ends where the lexer's comment ends, and at the end of the text where the lexer
-- finds no end.
pub skip_block_comment-lex_block_comment :
    (bytes : Bytes) (start : ℕ)
    → skip_block_comment bytes start
      ≡ comment_past (length bytes) (start + 2) (lex_block_comment (drop (start + 2) bytes))
unfolding skip_block_comment lex_block_comment
skip_block_comment-lex_block_comment bytes start =
    let rest = drop (start + 2) bytes in
    ap (λ i. skip_comment_from (length bytes) 1 i rest) (omega arith)
    ∙ comment_from-comment_end (length bytes) 1 (start + 2) 0 rest
    ∙ same_past (length bytes) (start + 2) (length rest) (comment_end 1 0 rest)

-- A quoted literal that the lexer accepts is skipped in an interpolation to the same end.
pub skip_quoted-lex_quoted :
    (bytes : Bytes) (quote : ℕ) (error : LexError) (start size : ℕ)
    → lex_quoted quote error (drop (start + 1) bytes) ≡ accepted size
    → skip_quoted bytes quote start ≡ start + 1 + size
unfolding skip_quoted lex_quoted
skip_quoted-lex_quoted bytes quote error start size e =
    let rest = drop (start + 1) bytes in
    ap (λ i. skip_quoted_from quote i rest) (omega arith)
    ∙ skip_quoted_from-accepted quote error (start + 1) 0 size rest e
