-- ===== src/Lexer/Literals.antt =====
-- crates/tn-syntax/src/lexer.rs: the checks of numeric, string, character and template literals.
pub mod Safe
use typenative.Prelude.{
  ℕ, zero, suc, ◌+◌, ◌-◌, ◌*◌, ◌^◌, Bool, true, false, ◌&&◌, ◌||◌, not, List, [], ◌∷◌, ◌++◌, Option,
  none, some, String, length, take, drop, get_elem?, ◌==◌, ltb, if◌then◌else◌,
}
use typenative.Diagnostics.{codes, within, is_ascii_digit, is_ascii_uppercase, is_empty, all_bytes}
use typenative.Lexer.Scan.{
  Bytes, dollar, single_quote, double_quote, backslash, backtick, left_brace, right_brace,
}
use typenative.Lexer.Templates.{is_at, min}

pub record TokenIssue : Type 0 where
  pub id : String
  pub message : String
  pub label : String
  pub offset : ℕ
  pub size : ℕ

abbrev pub underscore : ℕ
underscore = 95

abbrev pub max : ℕ → ℕ → ℕ
max a b = if ltb a b then b else a

abbrev pub same_bytes : Bytes → Bytes → Bool
same_bytes [] [] = true
same_bytes [] (b ∷ bs) = false
same_bytes (a ∷ as') [] = false
same_bytes (a ∷ as') (b ∷ bs) = (a == b) && same_bytes as' bs

unfoldable pub starts_with : Bytes → Bytes → Bool
starts_with text [] = true
starts_with [] (b ∷ bs) = false
starts_with (a ∷ text) (b ∷ bs) = (a == b) && starts_with text bs

-- the first index from which the bytes stand in the text
unfoldable pub find_from : ℕ → Bytes → Bytes → Option ℕ
unfolding starts_with
find_from index pattern [] = if is_empty pattern then some index else none
find_from index pattern (a ∷ text) =
    if starts_with (a ∷ text) pattern then some index else find_from (index + 1) pattern text

abbrev pub is_found : Option ℕ → Bool
is_found none = false
is_found (some i) = true

abbrev pub or_zero : Option ℕ → ℕ
or_zero none = 0
or_zero (some i) = i

unfoldable pub contains : Bytes → Bytes → Bool
unfolding find_from
contains text pattern = is_found (find_from 0 pattern text)

unfoldable pub ends_with_byte : ℕ → Bytes → Bool
ends_with_byte b [] = false
ends_with_byte b (a ∷ []) = a == b
ends_with_byte b (a ∷ c ∷ text) = ends_with_byte b (c ∷ text)

unfoldable pub is_ascii_hexdigit : ℕ → Bool
is_ascii_hexdigit b = is_ascii_digit b || within 65 b 70 || within 97 b 102

unfoldable pub digit_valid : ℕ → ℕ → Bool
unfolding is_ascii_hexdigit
digit_valid base byte =
    if base == 2
    then within 48 byte 49
    else if base == 8
    then within 48 byte 55
    else if base == 10
    then is_ascii_digit byte
    else if base == 16
    then is_ascii_hexdigit byte
    else false

-- the base, and the length of its prefix
unfoldable pub base_of : Bytes → ℕ × ℕ
unfolding starts_with codes
base_of text =
    if starts_with text (codes "0b") || starts_with text (codes "0B")
    then (2, 2)
    else if starts_with text (codes "0o") || starts_with text (codes "0O")
    then (8, 2)
    else if starts_with text (codes "0x") || starts_with text (codes "0X")
    then (16, 2)
    else (10, 0)

-- how many bytes from the first on pass the test
unfoldable pub run : (ℕ → Bool) → Bytes → ℕ
run test [] = 0
run test (b ∷ bs) = if test b then 1 + run test bs else 0

unfoldable pub suffixes : List Bytes
unfolding codes
suffixes =
    codes "i8"
    ∷ codes "i16"
    ∷ codes "i32"
    ∷ codes "i64"
    ∷ codes "i128"
    ∷ codes "isize"
    ∷ codes "u8"
    ∷ codes "u16"
    ∷ codes "u32"
    ∷ codes "u64"
    ∷ codes "u128"
    ∷ codes "usize"
    ∷ codes "number"
    ∷ []

unfoldable pub is_one_of : Bytes → List Bytes → Bool
is_one_of text [] = false
is_one_of text (s ∷ ss) = same_bytes text s || is_one_of text ss

abbrev pub invalid_separator : ℕ → ℕ → TokenIssue
invalid_separator offset size = record {
  id = "SYNTAX_INVALID_NUMERIC_SEPARATOR";
  message = "invalid numeric separator placement";
  label = "underscores must occur singly between digits";
  offset = offset;
  size = size;
}

abbrev pub invalid_integer_suffix : ℕ → ℕ → TokenIssue
invalid_integer_suffix offset size = record {
  id = "SYNTAX_INVALID_INTEGER_SUFFIX";
  message = "invalid integer literal suffix";
  label = "this suffix is not a TypeNative integer type";
  offset = offset;
  size = size;
}

abbrev pub invalid_float_suffix : ℕ → ℕ → TokenIssue
invalid_float_suffix offset size = record {
  id = "SYNTAX_INVALID_FLOAT_SUFFIX";
  message = "invalid floating-point literal suffix";
  label = "floating-point suffix must be f32 or f64";
  offset = offset;
  size = size;
}

abbrev pub invalid_escape : ℕ → ℕ → TokenIssue
invalid_escape offset size = record {
  id = "SYNTAX_INVALID_ESCAPE";
  message = "invalid literal escape sequence";
  label = "this escape is not valid in the literal";
  offset = offset;
  size = size;
}

-- the digits and underscores of the number
unfoldable pub digits_size : Bytes → ℕ
unfolding base_of run digit_valid
digits_size text =
    let (base, start) = base_of text in
    run (λ b. digit_valid base b || (b == underscore)) (drop start text)

unfoldable pub separators_wrong : Bytes → Bool
unfolding starts_with ends_with_byte contains
separators_wrong digits =
    is_empty digits
    || starts_with digits (underscore ∷ [])
    || ends_with_byte underscore digits
    || contains digits (underscore ∷ underscore ∷ [])

unfoldable pub validate_integer : Bytes → Option TokenIssue
unfolding base_of digits_size separators_wrong is_one_of suffixes
validate_integer text =
    let start = (base_of text).1 in
    let past = start + digits_size text in
    let digits = take (digits_size text) (drop start text) in
    let suffix = drop past text in
    if separators_wrong digits
    then some (invalid_separator start (max (length digits) 1))
    else if not (is_empty suffix) && not (is_one_of suffix suffixes)
    then some (invalid_integer_suffix past (length suffix))
    else none

abbrev pub float_suffix : Bytes → Option ℕ → Option TokenIssue
float_suffix text none = none
float_suffix text (some index) =
    if is_one_of (drop index text) (codes "f32" ∷ codes "f64" ∷ [])
    then none
    else some (invalid_float_suffix index (length (drop index text)))

unfoldable pub validate_float : Bytes → Option TokenIssue
unfolding contains find_from starts_with ends_with_byte is_one_of codes
validate_float text =
    if contains text (underscore ∷ underscore ∷ [])
      || starts_with text (underscore ∷ [])
      || ends_with_byte underscore text
    then some (invalid_separator (or_zero (find_from 0 (underscore ∷ underscore ∷ []) text)) 2)
    else float_suffix text (find_from 0 (102 ∷ []) text)
