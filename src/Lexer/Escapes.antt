-- ===== src/Lexer/Escapes.antt =====
-- crates/tn-syntax/src/lexer.rs: the escapes of string, character and template literals.
pub mod Safe
pub mod Checks
use typenative.Prelude.{
  ℕ, zero, suc, ◌+◌, ◌-◌, ◌*◌, ◌^◌, Bool, true, false, ◌&&◌, ◌||◌, not, List, [], ◌∷◌, ◌++◌, Option,
  none, some, String, length, take, drop, get_elem?, ◌==◌, ltb, if◌then◌else◌,
}
use typenative.Diagnostics.{within, is_ascii_digit, is_empty}
use typenative.Lexer.Tokens.{Range}
use typenative.Lexer.Scan.{
  Bytes, dollar, single_quote, double_quote, backslash, backtick, left_brace, right_brace,
}
use typenative.Lexer.Templates.{
  is_at, min, Scan, TemplateScan, ok, failed, out_of_fuel, scan_template,
}
use typenative.Lexer.Literals.{TokenIssue, max, is_ascii_hexdigit, invalid_escape}

-- What a check of a literal does: it accepts it, reports an issue, or panics at a slice out of range.
pub data Checked : Type 0 where
  fine : Checked
  issue : TokenIssue → Checked
  panicked : Checked
  stuck : Checked

abbrev pub hex_value : ℕ → ℕ
hex_value b = if is_ascii_digit b then b - 48 else if within 65 b 70 then b - 55 else b - 87

unfoldable pub hex_from : ℕ → Bytes → Option ℕ
unfolding is_ascii_hexdigit
hex_from value [] = some value
hex_from value (b ∷ bs) = elim (is_ascii_hexdigit b && ltb (value * 16 + hex_value b) (2 ^ 32)) [
  | true ↦ hex_from (value * 16 + hex_value b) bs
  | false ↦ none
]

abbrev pub hex_digits : Bytes → Option ℕ
hex_digits [] = none
hex_digits (b ∷ bs) = hex_from 0 (b ∷ bs)

-- `u32::from_str_radix(digits, 16)`, which takes a leading `+`
unfoldable pub from_str_radix : Bytes → Option ℕ
unfolding hex_from
from_str_radix [] = none
from_str_radix (b ∷ bs) = if b == 43 then hex_digits bs else hex_digits (b ∷ bs)

-- `char::from_u32` gives a character
abbrev pub is_scalar : Option ℕ → Bool
is_scalar none = false
is_scalar (some n) = ltb n 55296 || within 57344 n 1114111

unfoldable pub position : ℕ → Bytes → Option ℕ
position b [] = none
position b (a ∷ bs) = elim (a == b) [
  | true ↦ some 0
  | false ↦ elim (position b bs) [ none ↦ none | some i ↦ some (suc i) ]
]

abbrev pub is_hex_byte : Option ℕ → Bool
is_hex_byte none = false
is_hex_byte (some b) = is_ascii_hexdigit b

-- the byte is `\`, `"`, `'`, `n`, `r`, `t` or `0`
abbrev pub is_simple_escape : ℕ → Bool
is_simple_escape b =
    (b == backslash)
    || (b == double_quote)
    || (b == single_quote)
    || (b == 110)
    || (b == 114)
    || (b == 116)
    || (b == 48)

-- Past an escape the check goes on at an index, or there is an issue of a size, or a slice is out of range.
pub data EscapeStep : Type 0 where
  to : ℕ → EscapeStep
  invalid : ℕ → EscapeStep
  out_of_range : EscapeStep

abbrev pub unicode_digits : ℕ → ℕ → Bytes → EscapeStep
unicode_digits escape_start digits_start digits =
    let digits_end = digits_start + length digits in
    if is_empty digits || ltb 6 (length digits) || not (is_scalar (from_str_radix digits))
    then invalid (digits_end + 1 - escape_start)
    else to (digits_end + 1)

abbrev pub unicode_end : Bytes → ℕ → ℕ → ℕ → Option ℕ → EscapeStep
unicode_end bytes past escape_start digits_start none = invalid (past - escape_start)
unicode_end bytes past escape_start digits_start (some relative_end) =
    unicode_digits escape_start digits_start (take relative_end (drop digits_start bytes))

abbrev pub unicode_escape : Bytes → ℕ → ℕ → ℕ → EscapeStep
unicode_escape bytes past escape_start digits_start =
    if ltb past digits_start
    then out_of_range
    else unicode_end bytes past escape_start digits_start
        (position right_brace (take (past - digits_start) (drop digits_start bytes)))

abbrev pub escape_byte : Bytes → Bool → ℕ → ℕ → ℕ → EscapeStep
escape_byte bytes template past escape_start byte =
    let index = escape_start + 1 in
    if is_simple_escape byte
    then to (index + 1)
    else if (byte == backtick) && template
    then to (index + 1)
    else if (byte == dollar) && template && is_at bytes (index + 1) left_brace
    then to (index + 2)
    else if byte == 120
    then if is_hex_byte (get_elem? bytes (index + 1)) && is_hex_byte (get_elem? bytes (index + 2))
      then to (index + 3)
      else invalid (min 4 (past - escape_start))
    else if (byte == 117) && is_at bytes (index + 1) left_brace
    then unicode_escape bytes past escape_start (index + 2)
    else invalid 2

abbrev pub escape_option : Bytes → Bool → ℕ → ℕ → Option ℕ → EscapeStep
escape_option bytes template past escape_start none = invalid 1
escape_option bytes template past escape_start (some byte) =
    escape_byte bytes template past escape_start byte

unfoldable pub escape_step : Bytes → Bool → ℕ → ℕ → EscapeStep
unfolding is_at is_ascii_hexdigit from_str_radix position
escape_step bytes template past escape_start =
    escape_option bytes template past escape_start (get_elem? bytes (escape_start + 1))

-- The loop of `validate_escapes`, on fuel.
unfoldable pub escapes_from : Bytes → Bool → ℕ → ℕ → ℕ → Checked
unfolding is_at escape_step
escapes_from bytes template past zero index = stuck
escapes_from bytes template past (suc fuel) index = elim (ltb index past) [
  | false ↦ fine
  | true ↦ elim (is_at bytes index backslash) [
    | false ↦ escapes_from bytes template past fuel (index + 1)
    | true ↦ elim (escape_step bytes template past index) [
      | to next ↦ escapes_from bytes template past fuel next
      | invalid size ↦ issue (invalid_escape index size)
      | out_of_range ↦ panicked
    ]
  ]
]

unfoldable pub validate_escapes : Bytes → Bool → Checked
unfolding escapes_from
validate_escapes text template = escapes_from text template (length text - 1) (length text + 1) 1

-- past the bytes that continue a character
unfoldable pub skip_continuation : Bytes → Bytes
skip_continuation [] = []
skip_continuation (b ∷ bs) = if within 128 b 191 then skip_continuation bs else b ∷ bs

unfoldable pub next_character : Bytes → Bytes
unfolding skip_continuation
next_character [] = []
next_character (b ∷ bs) = skip_continuation bs

unfoldable pub past_brace : Bytes → Bytes
past_brace [] = []
past_brace (b ∷ bs) = if b == right_brace then bs else past_brace bs

unfoldable pub past_escape : ℕ → Bytes → Bytes
unfolding next_character past_brace
past_escape escaped rest =
    if escaped == 120
    then next_character (next_character rest)
    else if escaped == 117
    then past_brace rest
    else rest

-- The loop of `validate_character` over the characters; each round takes one at least.
unfoldable pub scalars_from : ℕ → Bytes → ℕ → ℕ
unfolding skip_continuation past_escape
scalars_from zero text scalars = scalars
scalars_from (suc fuel) [] scalars = scalars
scalars_from (suc fuel) (b ∷ bs) scalars = elim (b == backslash) [
  | false ↦ scalars_from fuel (skip_continuation bs) (scalars + 1)
  | true ↦ elim (skip_continuation bs) [
    | [] ↦ scalars
    | escaped ∷ rest ↦
        scalars_from fuel (past_escape escaped (skip_continuation rest)) (scalars + 1)
  ]
]

abbrev pub invalid_length : ℕ → TokenIssue
invalid_length size = record {
  id = "SYNTAX_INVALID_CHARACTER_LENGTH";
  message = "character literal must contain exactly one Unicode scalar value";
  label = "this literal does not decode to one scalar value";
  offset = 1;
  size = size;
}

abbrev pub or_check : Checked → Checked → Checked
or_check fine next = next
or_check (issue i) next = issue i
or_check panicked next = panicked
or_check stuck next = stuck

abbrev pub length_check : Bytes → Checked
length_check inner =
    if scalars_from (length inner) inner 0 == 1
    then fine
    else issue (invalid_length (max (length inner) 1))

unfoldable pub validate_character : Bytes → Checked
unfolding validate_escapes scalars_from
validate_character text = or_check (validate_escapes text false) (
    if ltb (length text - 1) 1
    then panicked
    else length_check (drop 1 (take (length text - 1) text)))

-- An issue of the text between backticks, moved to the chunk at `start`.
abbrev pub moved : ℕ → Checked → Checked
moved start fine = fine
moved start (issue i) = issue (record i { offset = i.offset - 1 + start })
moved start panicked = panicked
moved start stuck = stuck

unfoldable pub validate_template_chunk : Bytes → ℕ → ℕ → Checked
unfolding validate_escapes
validate_template_chunk text start past =
    if ltb past start || ltb (length text) past
    then panicked
    else moved start
        (validate_escapes (backtick ∷ drop start (take past text) ++ backtick ∷ []) true)

unfoldable pub validate_chunks : Bytes → ℕ → ℕ → List Range → Checked
unfolding validate_template_chunk
validate_chunks text start past [] = validate_template_chunk text start past
validate_chunks text start past (r ∷ rs) =
    or_check (validate_template_chunk text start (r.first - 2))
      (validate_chunks text (r.past + 1) past rs)

abbrev pub scan_check : Bytes → Scan TemplateScan → Checked
scan_check text (ok scan) = validate_chunks text 1 (scan.past - 1) scan.interpolations
scan_check text (failed error) = fine
scan_check text out_of_fuel = stuck

unfoldable pub validate_template : Bytes → Checked
unfolding validate_chunks scan_template
validate_template text = scan_check text (scan_template text 0)
