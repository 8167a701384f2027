-- ===== src/Lexer/Scan.antt =====
-- crates/tn-syntax/src/lexer.rs: the scans over the bytes of comments, quoted literals and templates.
-- A text is the list of its bytes.
pub mod Bounds
pub mod Agree
pub mod Quoted
use typenative.Prelude.{
  ℕ, zero, suc, ◌+◌, ◌-◌, ◌<◌, ◌≤◌, Bool, true, false, ◌&&◌, ◌||◌, not, List, [], ◌∷◌, ◌++◌, Option,
  none, some, length, drop, get_elem?, ◌==◌, ltb,
}
use typenative.Lexer.Tokens.{
  LexError, Range, unterminated_block_comment, unterminated_template,
  unbalanced_template_interpolation,
}

abbrev pub Bytes : Type 0
Bytes = List ℕ

-- What a callback did: how far it moved the lexer, and its result.
pub data Scanned : Type 0 where
  accepted : ℕ → Scanned
  rejected : ℕ → LexError → Scanned

abbrev pub newline : ℕ
newline = 10

abbrev pub carriage_return : ℕ
carriage_return = 13

abbrev pub double_quote : ℕ
double_quote = 34

abbrev pub dollar : ℕ
dollar = 36

abbrev pub single_quote : ℕ
single_quote = 39

abbrev pub star : ℕ
star = 42

abbrev pub slash : ℕ
slash = 47

abbrev pub backslash : ℕ
backslash = 92

abbrev pub backtick : ℕ
backtick = 96

abbrev pub left_brace : ℕ
left_brace = 123

abbrev pub right_brace : ℕ
right_brace = 125

abbrev pub is_line_end : ℕ → Bool
is_line_end b = (b == newline) || (b == carriage_return)

-- what two bytes of a comment are
pub data Delimiter : Type 0 where
  opens : Delimiter
  closes : Delimiter
  neither : Delimiter

unfoldable pub delimiter : ℕ → ℕ → Delimiter
delimiter a b = elim ((a == slash) && (b == star)) [
  | true ↦ opens
  | false ↦ elim ((a == star) && (b == slash)) [ true ↦ closes | false ↦ neither ]
]

-- The loop of `lex_block_comment`: the index past the comment.
unfoldable pub comment_end : ℕ → ℕ → Bytes → Option ℕ
unfolding delimiter
comment_end depth index [] = none
comment_end depth index (a ∷ []) = none
comment_end depth index (a ∷ b ∷ rest) = elim (delimiter a b) [
  | opens ↦ comment_end (depth + 1) (index + 2) rest
  | closes ↦ elim ((depth - 1) == 0) [
    | true ↦ some (index + 2)
    | false ↦ comment_end (depth - 1) (index + 2) rest
  ]
  | neither ↦ comment_end depth (index + 1) (b ∷ rest)
]

unfoldable pub lex_block_comment : Bytes → Scanned
unfolding comment_end
lex_block_comment remainder = elim (comment_end 1 0 remainder) [
  | some index ↦ accepted index
  | none ↦ rejected (length remainder) unterminated_block_comment
]

-- The loop of `lex_quoted`.
unfoldable pub quoted_end : ℕ → LexError → Bool → ℕ → Bytes → Scanned
quoted_end delimiter error escaped index [] = rejected index error
quoted_end delimiter error escaped index (b ∷ rest) = elim (is_line_end b) [
  | true ↦ rejected index error
  | false ↦ elim escaped [
    | true ↦ quoted_end delimiter error false (index + 1) rest
    | false ↦ elim (b == backslash) [
      | true ↦ quoted_end delimiter error true (index + 1) rest
      | false ↦ elim (b == delimiter) [
        | true ↦ accepted (index + 1)
        | false ↦ quoted_end delimiter error false (index + 1) rest
      ]
    ]
  ]
]

unfoldable pub lex_quoted : ℕ → LexError → Bytes → Scanned
unfolding quoted_end
lex_quoted delimiter error remainder = quoted_end delimiter error false 0 remainder

-- The loop of `skip_quoted`; past a backslash at the end it stays at the end.
unfoldable pub skip_quoted_from : ℕ → ℕ → Bytes → ℕ
skip_quoted_from delimiter index [] = index
skip_quoted_from delimiter index (b ∷ []) = index + 1
skip_quoted_from delimiter index (b ∷ c ∷ rest) = elim (b == backslash) [
  | true ↦ skip_quoted_from delimiter (index + 2) rest
  | false ↦ elim (b == delimiter) [
    | true ↦ index + 1
    | false ↦ skip_quoted_from delimiter (index + 1) (c ∷ rest)
  ]
]

-- The scan from an opening delimiter `delimiter` at `start`.
unfoldable pub skip_quoted : Bytes → ℕ → ℕ → ℕ
unfolding skip_quoted_from
skip_quoted bytes delimiter start = skip_quoted_from delimiter (start + 1) (drop (start + 1) bytes)

-- The loop of `skip_block_comment`; where no delimiter matches it gives the end of the text.
unfoldable pub skip_comment_from : ℕ → ℕ → ℕ → Bytes → ℕ
skip_comment_from past depth index [] = past
skip_comment_from past depth index (a ∷ []) = past
skip_comment_from past depth index (a ∷ b ∷ rest) = elim ((a == slash) && (b == star)) [
  | true ↦ skip_comment_from past (depth + 1) (index + 2) rest
  | false ↦ elim ((a == star) && (b == slash)) [
    | true ↦ elim ((depth - 1) == 0) [
      | true ↦ index + 2
      | false ↦ skip_comment_from past (depth - 1) (index + 2) rest
    ]
    | false ↦ skip_comment_from past depth (index + 1) (b ∷ rest)
  ]
]

unfoldable pub skip_block_comment : Bytes → ℕ → ℕ
unfolding skip_comment_from
skip_block_comment bytes start =
    skip_comment_from (length bytes) 1 (start + 2) (drop (start + 2) bytes)

-- The loop over a line comment in `scan_interpolation`.
unfoldable pub skip_line_from : ℕ → Bytes → ℕ
skip_line_from index [] = index
skip_line_from index (b ∷ rest) = elim (is_line_end b) [
  | true ↦ index
  | false ↦ skip_line_from (index + 1) rest
]

unfoldable pub skip_line_comment : Bytes → ℕ → ℕ
unfolding skip_line_from
skip_line_comment bytes start = skip_line_from (start + 2) (drop (start + 2) bytes)
