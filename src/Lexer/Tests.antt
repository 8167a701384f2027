-- ===== src/Lexer/Tests.antt =====
-- Runs of the lexer's scans.
use typenative.Prelude.{some, none, false, [], ◌∷◌, ◌≡◌, refl}
use typenative.Diagnostics.{codes, new_condition, invalid_condition_id, new_span}
use typenative.Lexer.Tokens.{unbalanced_template_interpolation}
use typenative.Lexer.Literals.{invalid_escape, invalid_integer_suffix, validate_integer}
use typenative.Lexer.Escapes.{fine, issue, validate_escapes}
use typenative.Lexer.Source.{error_range}
use typenative.Lexer.Scan.{accepted, lex_block_comment}
use typenative.Lexer.Templates.{ok, failed, scan_template}

-- `/* a /* b */ c */ d` after its opening delimiter
lex_block_comment-nested :
    lex_block_comment (97 ∷ 47 ∷ 42 ∷ 98 ∷ 42 ∷ 47 ∷ 99 ∷ 42 ∷ 47 ∷ 32 ∷ []) ≡ accepted 9
unfolding lex_block_comment
lex_block_comment-nested = refl

-- `{a${"}"}b` between backticks
scan_template-quoted :
    scan_template (96 ∷ 97 ∷ 36 ∷ 123 ∷ 34 ∷ 125 ∷ 34 ∷ 125 ∷ 98 ∷ 96 ∷ []) 0
    ≡ ok (record { past = 10; interpolations = record { first = 4; past = 7 } ∷ [] })
unfolding scan_template
scan_template-quoted = refl

-- the interpolation in a template in an interpolation is not closed
scan_template-unbalanced :
    scan_template (96 ∷ 36 ∷ 123 ∷ 96 ∷ 36 ∷ 123 ∷ 96 ∷ 125 ∷ 96 ∷ []) 0
    ≡ failed unbalanced_template_interpolation
unfolding scan_template
scan_template-unbalanced = refl

new_condition-digit : new_condition "2_BAD" ≡ invalid_condition_id "2_BAD"
unfolding new_condition
new_condition-digit = refl

-- `δ` in the second line of a text, at byte 7
new_span-second_line :
    new_span "test.tn" 7 9 (206 ∷ 177 ∷ 206 ∷ 178 ∷ 10 ∷ 206 ∷ 179 ∷ 206 ∷ 180 ∷ [])
    ≡ record { file = "test.tn"; byte_start = 7; byte_end = 9; line = 2; unicode_column = 2 }
unfolding new_span
new_span-second_line = refl

-- `"\u{+41}"` is accepted: `from_str_radix` takes the sign.
validate_escapes-sign :
    validate_escapes (34 ∷ 92 ∷ 117 ∷ 123 ∷ 43 ∷ 52 ∷ 49 ∷ 125 ∷ 34 ∷ []) false ≡ fine
unfolding validate_escapes
validate_escapes-sign = refl

-- `1number` is accepted.
validate_integer-number : validate_integer (codes "1number") ≡ none
unfolding validate_integer codes
validate_integer-number = refl

-- `1i9` is not.
validate_integer-suffix : validate_integer (codes "1i9") ≡ some (invalid_integer_suffix 1 2)
unfolding validate_integer codes
validate_integer-suffix = refl

-- The error of `${b` after `${a}` is reported at `${a}`.
error_range-first :
    error_range unbalanced_template_interpolation
      (codes "`${a} ${b`")
      (record { first = 0; past = 10 })
    ≡ some (record { first = 1; past = 3 })
unfolding error_range codes
error_range-first = refl

-- A range past the end of the source panics.
error_range-outside :
    error_range unbalanced_template_interpolation [] (record { first = 0; past = 3 }) ≡ none
unfolding error_range
error_range-outside = refl

-- The escape before `é` is reported over two bytes, up to the middle of that character.
validate_escapes-accent :
    validate_escapes (34 ∷ 92 ∷ 195 ∷ 169 ∷ 34 ∷ []) false ≡ issue (invalid_escape 1 2)
unfolding validate_escapes
validate_escapes-accent = refl
