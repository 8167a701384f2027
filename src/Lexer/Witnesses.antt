-- ===== src/Lexer/Witnesses.antt =====
-- The lexer's theorems at concrete inputs.
use typenative.Prelude.{
  ◌+◌, ◌≤◌, false, [], ◌∷◌, some, ◌≡◌, ◌≢◌, refl, arith, length, drop, get_elem?, ◌==◌, ltb,
  if◌then◌else◌,
}
use typenative.Lexer.Tokens.{identifier, string_literal, template_literal, unterminated_string}
use typenative.Lexer.Scan.{
  Bytes, accepted, double_quote, left_brace, lex_block_comment, lex_quoted, skip_quoted,
  skip_block_comment,
}
use typenative.Lexer.Scan.Agree.{
  comment_past, skip_block_comment-lex_block_comment, skip_quoted-lex_quoted,
}
use typenative.Lexer.Templates.{TemplateScan, ok, out_of_fuel, scan_template}
use typenative.Lexer.Templates.Sound.{IsTemplate, scan_template-IsTemplate}
use typenative.Lexer.Templates.Ends.{scan_template_ends}
use typenative.Lexer.Escapes.{issue, validate_escapes, validate_template}
use typenative.Lexer.Literals.{invalid_escape}
use typenative.Lexer.Escapes.Safe.{Safe, Points, validate_escapes-Safe}
use typenative.Lexer.Escapes.Checks.{validate_template-Points}
use typenative.Lexer.Source.{Match, matched, Lexed, lexed, lex_source}
use typenative.Lexer.Source.Covers.{IsMatcher, Covers}
use typenative.Lexer.Source.Lossless.{texts, texts-lex_source}
use typenative.Lexer.Input.{Utf8, text, utf8_error, lex, LexOutcome, lex-LexOutcome}
use typenative.Lexer.Source.Total.{lex_source_total}

-- A matcher of strings, templates and one-letter names.
abbrev letters : Bytes → Match
letters [] = matched identifier 0
letters (b ∷ rest) =
    if b == 34
    then matched string_literal 1
    else if b == 96
    then matched template_literal 1
    else matched identifier 1

letters-IsMatcher : IsMatcher letters
letters-IsMatcher b rest = ground arith

-- `a${"}"}b` between backticks
abbrev quoting : Bytes
quoting = 96 ∷ 97 ∷ 36 ∷ 123 ∷ 34 ∷ 125 ∷ 34 ∷ 125 ∷ 98 ∷ 96 ∷ []

-- `a "\q"`, whose escape is not valid
abbrev misquoting : Bytes
misquoting = 97 ∷ 34 ∷ 92 ∷ 113 ∷ 34 ∷ []

-- `x` before the fragment that opens an interpolation and does not close it, and `y` after it
abbrev around : Bytes
around = 120 ∷ 96 ∷ 36 ∷ 123 ∷ 121 ∷ []

lex_source_total_example :
    (r : Lexed) × (lex_source letters "test.tn" around (96 ∷ 36 ∷ 123 ∷ []) 1 ≡ lexed r)
    × Covers 1 r.tokens (1 + 3)
lex_source_total_example =
    lex_source_total letters letters-IsMatcher "test.tn" around (120 ∷ []) (96 ∷ 36 ∷ 123 ∷ [])
      (121 ∷ []) refl

abbrev quoting_scan : TemplateScan
quoting_scan = record { past = 10; interpolations = record { first = 4; past = 7 } ∷ [] }

scan_template-quoting : scan_template quoting 0 ≡ ok quoting_scan
unfolding scan_template
scan_template-quoting = refl

scan_template-IsTemplate_example :
    IsTemplate quoting (0 + 1) quoting_scan × (quoting_scan.past ≤ length quoting)
scan_template-IsTemplate_example =
    scan_template-IsTemplate quoting 0 quoting_scan scan_template-quoting

scan_template_ends_example : scan_template quoting 0 ≢ out_of_fuel
scan_template_ends_example = scan_template_ends quoting 0

-- `/* a /* b */ */ c`
abbrev commented : Bytes
commented = 47 ∷ 42 ∷ 97 ∷ 47 ∷ 42 ∷ 98 ∷ 42 ∷ 47 ∷ 42 ∷ 47 ∷ 99 ∷ []

skip_block_comment-lex_block_comment_example :
    skip_block_comment commented 0
    ≡ comment_past (length commented) (0 + 2) (lex_block_comment (drop (0 + 2) commented))
skip_block_comment-lex_block_comment_example = skip_block_comment-lex_block_comment commented 0

lex_quoted-quoting : lex_quoted double_quote unterminated_string (drop (4 + 1) quoting) ≡ accepted 2
unfolding lex_quoted
lex_quoted-quoting = refl

skip_quoted-lex_quoted_example : skip_quoted quoting double_quote 4 ≡ 4 + 1 + 2
skip_quoted-lex_quoted_example =
    skip_quoted-lex_quoted quoting double_quote unterminated_string 4 2 lex_quoted-quoting

-- `"\q"`
abbrev wrong_escape : Bytes
wrong_escape = 34 ∷ 92 ∷ 113 ∷ 34 ∷ []

quote_last : get_elem? wrong_escape 3 ≢ some left_brace
quote_last e = ground arith

validate_escapes-Safe_example : Safe 3 (validate_escapes wrong_escape false)
validate_escapes-Safe_example = validate_escapes-Safe wrong_escape false 3 refl quote_last

-- "a${1}\q" between backticks, whose escape is not valid
abbrev misescaped : Bytes
misescaped = 96 ∷ 97 ∷ 36 ∷ 123 ∷ 49 ∷ 125 ∷ 92 ∷ 113 ∷ 96 ∷ []

validate_template-misescaped : validate_template misescaped ≡ issue (invalid_escape 6 2)
unfolding validate_template
validate_template-misescaped = refl

validate_template-Points_example : Points misescaped 8 (validate_template misescaped)
validate_template-Points_example = validate_template-Points misescaped

texts-lex_source_example :
    (r : Lexed) × (lex_source letters "test.tn" misquoting misquoting 0 ≡ lexed r)
    × (texts misquoting r.tokens ≡ misquoting)
texts-lex_source_example = texts-lex_source letters letters-IsMatcher "test.tn" misquoting

-- a decoder that takes bytes below 128 as text
abbrev ascii : Bytes → Utf8
ascii [] = text
ascii (b ∷ rest) = if ltb b 128 then ascii rest else utf8_error 0 (some 1)

abbrev unchanged : Bytes → Bytes
unchanged bytes = bytes

lex-LexOutcome_example :
    LexOutcome letters ascii unchanged "test.tn"
      (200 ∷ [])
      (utf8_error 0 (some 1))
      (lex letters ascii unchanged "test.tn" (200 ∷ []))
lex-LexOutcome_example =
    lex-LexOutcome letters ascii unchanged "test.tn" letters-IsMatcher (200 ∷ [])
