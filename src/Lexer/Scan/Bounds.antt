-- ===== src/Lexer/Scan/Bounds.antt =====
-- The scans of comments and quoted literals stay in the text.
use typenative.Prelude.{
  ℕ, ◌+◌, ◌-◌, ◌≤◌, Bool, true, false, [], ◌∷◌, some, ◌≡◌, ◌⊎◌, inl, inr, refl, arith, length, ◌==◌,
  Bool-cases, Option-cases,
}
use typenative.Lexer.Tokens.{LexError}
use typenative.Lexer.Scan.{
  Bytes, Scanned, accepted, rejected, backslash, is_line_end, Delimiter, opens, closes, neither,
  delimiter, comment_end, lex_block_comment, quoted_end, lex_quoted,
}

abbrev pub scanned_size : Scanned → ℕ
scanned_size (accepted n) = n
scanned_size (rejected n error) = n

Delimiter-cases : (d : Delimiter) → (d ≡ opens) ⊎ ((d ≡ closes) ⊎ (d ≡ neither))
Delimiter-cases opens = inl refl
Delimiter-cases closes = inr (inl refl)
Delimiter-cases neither = inr (inr refl)

pub comment_end-le :
    (depth index past : ℕ) (rest : Bytes)
    → comment_end depth index rest ≡ some past
    → past ≤ index + length rest
unfolding comment_end
comment_end-le depth index past [] e = absurd (cc e)
comment_end-le depth index past (a ∷ []) e = absurd (cc e)
comment_end-le depth index past (a ∷ b ∷ rest) e = elim (Delimiter-cases (delimiter a b)) [
  | inl d ↦
      omega (arith, comment_end-le (depth + 1) (index + 2) past rest (rw (d, comment_end) at e))
  | inr (inl d) ↦ elim (Bool-cases ((depth - 1) == 0)) [
    | inl last ↦ let q : index + 2 ≡ past = cc (rw (d, comment_end, last) at e) in omega (arith, q)
    | inr inner ↦
        omega (
          arith,
          comment_end-le (depth - 1) (index + 2) past rest (rw (d, comment_end, inner) at e),
        )
  ]
  | inr (inr d) ↦
      omega (arith, comment_end-le depth (index + 1) past (b ∷ rest) (rw (d, comment_end) at e))
]

pub lex_block_comment-le : (rest : Bytes) → scanned_size (lex_block_comment rest) ≤ length rest
unfolding lex_block_comment
lex_block_comment-le rest = elim (Option-cases (comment_end 1 0 rest)) [
  | inl endless ↦ rw (endless, scanned_size) (omega arith)
  | inr (past, closed) ↦
      rw (closed, scanned_size) (omega (arith, comment_end-le 1 0 past rest closed))
]

quoted_end-le :
    (quote : ℕ) (error : LexError) (escaped : Bool) (index : ℕ) (rest : Bytes)
    → scanned_size (quoted_end quote error escaped index rest) ≤ index + length rest
unfolding quoted_end
quoted_end-le quote error escaped index [] = omega arith
quoted_end-le quote error escaped index (b ∷ rest) = elim (Bool-cases (is_line_end b)) [
  | inl ends ↦ rw (ends, quoted_end) (omega arith)
  | inr inside ↦
      rw (inside, quoted_end)
        (elim (Bool-cases escaped) [
          | inl skips ↦
              rw (skips, quoted_end)
                (omega (arith, quoted_end-le quote error false (index + 1) rest))
          | inr looks ↦
              rw (looks, quoted_end)
                (elim (Bool-cases (b == backslash)) [
                  | inl starts ↦
                      rw (starts, quoted_end)
                        (omega (arith, quoted_end-le quote error true (index + 1) rest))
                  | inr plain ↦
                      rw (plain, quoted_end)
                        (elim (Bool-cases (b == quote)) [
                          | inl closed ↦ rw (closed, quoted_end) (omega arith)
                          | inr other ↦
                              rw (other, quoted_end)
                                (omega (arith, quoted_end-le quote error false (index + 1) rest))
                        ])
                ])
        ])
]

pub lex_quoted-le :
    (quote : ℕ) (error : LexError) (rest : Bytes)
    → scanned_size (lex_quoted quote error rest) ≤ length rest
unfolding lex_quoted
lex_quoted-le quote error rest = omega (arith, quoted_end-le quote error false 0 rest)
