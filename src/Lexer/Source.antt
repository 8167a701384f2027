-- ===== src/Lexer/Source.antt =====
-- crates/tn-syntax/src/lexer.rs: lex_source and its diagnostics. The matcher that the `Logos` derive makes from the
-- patterns of TokenKind is a parameter.
pub mod Covers
pub mod Total
pub mod Lossless
use typenative.Prelude.{
  ℕ, zero, suc, ◌+◌, ◌-◌, Bool, true, false, ◌&&◌, ◌||◌, List, [], ◌∷◌, ◌++◌, Option, none, some,
  String, length, take, drop, ◌==◌, ltb, map, if◌then◌else◌,
}
use typenative.Diagnostics.{
  codes, is_ascii_uppercase, ConditionId, NewCondition, valid, invalid_condition_id, new_condition,
  Diagnostic, error_diagnostic, new_span,
}
use typenative.Lexer.Tokens.{
  TokenKind, block_comment, integer_literal, float_literal, string_literal, character_literal,
  template_literal, error_token, LexError, unexpected_character, unterminated_block_comment,
  unterminated_string, unterminated_character, unterminated_template,
  unbalanced_template_interpolation, Range, Token,
}
use typenative.Lexer.Scan.{
  Bytes, Scanned, accepted, rejected, double_quote, single_quote, dollar, left_brace,
  lex_block_comment, lex_quoted,
}
use typenative.Lexer.Templates.{lex_template, min}
use typenative.Lexer.Literals.{TokenIssue, validate_integer, validate_float, find_from, underscore}
use typenative.Lexer.Escapes.{
  Checked, fine, issue, panicked, stuck, validate_escapes, validate_character, validate_template,
}

abbrev pub checked : Option TokenIssue → Checked
checked none = fine
checked (some i) = issue i

abbrev pub unexpected : ℕ → TokenIssue
unexpected size = record {
  id = "SYNTAX_UNEXPECTED_CHARACTER";
  message = "unexpected character";
  label = "this character does not begin a TypeNative token";
  offset = 0;
  size = size;
}

unfoldable pub validate_token : TokenKind → Bytes → Checked
unfolding validate_integer validate_float validate_escapes validate_character validate_template
validate_token integer_literal text = checked (validate_integer text)
validate_token float_literal text = checked (validate_float text)
validate_token string_literal text = validate_escapes text false
validate_token character_literal text = validate_character text
validate_token template_literal text = validate_template text
validate_token error_token text = issue (unexpected (length text))
validate_token kind text = fine

-- `id.to_ascii_lowercase().replace('_', "/")`
abbrev pub key_byte : ℕ → ℕ
key_byte b = if b == underscore then 47 else if is_ascii_uppercase b then b + 32 else b

unfoldable pub documentation_key : String → List ℕ
unfolding codes
documentation_key id = map key_byte (codes id)

-- `ConditionId::new(id).expect(..)` panics on an invalid identifier.
abbrev pub on_condition : NewCondition → (ConditionId → Diagnostic) → Option Diagnostic
on_condition (valid condition) make = some (make condition)
on_condition (invalid_condition_id id) make = none

unfoldable pub diagnostic_at : String → Bytes → String → String → String → ℕ → ℕ → Option Diagnostic
unfolding new_condition new_span error_diagnostic documentation_key
diagnostic_at file source id message label first past =
    on_condition (new_condition id) (λ condition.
      error_diagnostic condition message
        (record { span = new_span file first past source; message = label }) (documentation_key id))

unfoldable pub literal_diagnostic : String → Bytes → Range → TokenIssue → Option Diagnostic
unfolding diagnostic_at
literal_diagnostic file source range i =
    let first = range.first + i.offset in
    diagnostic_at file source i.id i.message i.label first (min (first + i.size) range.past)

-- the condition, the message and the label of a lexical error
unfoldable pub error_texts : LexError → String × String × String
error_texts unexpected_character = (
  "SYNTAX_UNEXPECTED_CHARACTER", "unexpected character",
  "this character does not begin a TypeNative token",
)
error_texts unterminated_block_comment = (
  "SYNTAX_UNTERMINATED_BLOCK_COMMENT", "unterminated block comment",
  "comment starts here and has no matching delimiter",
)
error_texts unterminated_string = (
  "SYNTAX_UNTERMINATED_STRING", "unterminated string literal",
  "string literal has no closing quote",
)
error_texts unterminated_character = (
  "SYNTAX_UNTERMINATED_CHARACTER", "unterminated character literal",
  "character literal has no closing quote",
)
error_texts unterminated_template = (
  "SYNTAX_UNTERMINATED_TEMPLATE", "unterminated template literal",
  "template literal has no closing backtick",
)
error_texts unbalanced_template_interpolation = (
  "SYNTAX_UNBALANCED_TEMPLATE_INTERPOLATION", "unbalanced template interpolation",
  "this interpolation has no matching closing brace",
)

abbrev pub found_range : Range → Option ℕ → Range
found_range range none = range
found_range range (some relative) = record {
  first = range.first + relative;
  past = range.first + relative + 2;
}

-- `source[range]`, which panics where the range is reversed or past the end
abbrev pub source_slice : Bytes → Range → Option Bytes
source_slice source range =
    if ltb range.past range.first || ltb (length source) range.past
    then none
    else some (drop range.first (take range.past source))

-- Where an error is reported: an unbalanced interpolation at the first `${` of the token. None is a panic.
unfoldable pub error_range : LexError → Bytes → Range → Option Range
unfolding find_from
error_range unbalanced_template_interpolation source range = elim (source_slice source range) [
  | none ↦ none
  | some text ↦ some (found_range range (find_from 0 (dollar ∷ left_brace ∷ []) text))
]
error_range error source range = some range

unfoldable pub lex_diagnostic : String → Bytes → Range → LexError → Option Diagnostic
unfolding diagnostic_at error_texts error_range
lex_diagnostic file source range error =
    let (id, message, label) = error_texts error in
    elim (error_range error source range) [
      | none ↦ none
      | some at ↦ diagnostic_at file source id message label at.first at.past
    ]

-- What the matcher finds at the start of a text: a pattern of a kind, or none, and the bytes it takes.
pub data Match : Type 0 where
  matched : TokenKind → ℕ → Match
  unmatched : ℕ → Match

-- A token or an error, and its bytes.
pub data Item : Type 0 where
  token : TokenKind → ℕ → Item
  failure : LexError → ℕ → Item

abbrev pub scanned : TokenKind → ℕ → Scanned → Item
scanned kind size (accepted n) = token kind (size + n)
scanned kind size (rejected n error) = failure error (size + n)

-- The kinds with a callback hand it the text past the pattern.
unfoldable pub item_of : Bytes → Match → Item
unfolding lex_block_comment lex_quoted lex_template
item_of text (matched block_comment n) = scanned block_comment n (lex_block_comment (drop n text))
item_of text (matched string_literal n) =
    scanned string_literal n (lex_quoted double_quote unterminated_string (drop n text))
item_of text (matched character_literal n) =
    scanned character_literal n (lex_quoted single_quote unterminated_character (drop n text))
item_of text (matched template_literal n) = scanned template_literal n (lex_template (drop n text))
item_of text (matched kind n) = token kind n
item_of text (unmatched n) = failure unexpected_character n

abbrev pub item_size : Item → ℕ
item_size (token kind n) = n
item_size (failure error n) = n

-- The token of an item is its kind, or an error token.
abbrev pub item_kind : Item → TokenKind
item_kind (token kind n) = kind
item_kind (failure error n) = error_token

pub record Lexed : Type 0 where
  pub tokens : List Token
  pub diagnostics : List Diagnostic

-- The lexer's result, a panic, or no end on this fuel.
pub data LexResult : Type 0 where
  lexed : Lexed → LexResult
  panics : LexResult
  unfinished : LexResult

module _ (matcher : Bytes → Match) (file : String) (source : Bytes) where
  abbrev pub checked_diagnostics : Range → Checked → Option (List Diagnostic)
  checked_diagnostics range fine = some []
  checked_diagnostics range (issue i) = elim (literal_diagnostic file source range i) [
    | some d ↦ some (d ∷ [])
    | none ↦ none
  ]
  checked_diagnostics range panicked = none
  checked_diagnostics range stuck = none

  -- the diagnostics of an item whose text and range these are
  unfoldable pub item_diagnostics : Item → Bytes → Range → Option (List Diagnostic)
  unfolding validate_token literal_diagnostic lex_diagnostic
  item_diagnostics (token kind n) text range = checked_diagnostics range (validate_token kind text)
  item_diagnostics (failure error n) text range = elim (lex_diagnostic file source range error) [
    | some d ↦ some (d ∷ [])
    | none ↦ none
  ]

  abbrev pub add_item : Token → Option (List Diagnostic) → LexResult → LexResult
  add_item t none rest = panics
  add_item t (some ds) (lexed r) =
      lexed (record { tokens = t ∷ r.tokens; diagnostics = ds ++ r.diagnostics })
  add_item t (some ds) panics = panics
  add_item t (some ds) unfinished = unfinished

  abbrev pub range_of : ℕ → Item → Range
  range_of start i = record { first = start; past = start + item_size i }

  -- The loop of `lex_source` on the rest of the fragment, which starts at `start` of the source.
  unfoldable pub lex_from : ℕ → ℕ → Bytes → LexResult
  unfolding item_of item_diagnostics
  lex_from fuel start [] = lexed (record { tokens = []; diagnostics = [] })
  lex_from zero start (b ∷ rest) = unfinished
  lex_from (suc fuel) start (b ∷ rest) =
      let text = b ∷ rest in
      let i = item_of text (matcher text) in
      add_item (record { kind = item_kind i; range = range_of start i })
        (item_diagnostics i (take (item_size i) text) (range_of start i))
        (lex_from fuel (start + item_size i) (drop (item_size i) text))

  unfoldable pub lex_source : Bytes → ℕ → LexResult
  unfolding lex_from
  lex_source fragment base = lex_from (length fragment) base fragment

  -- `lex_range`, where the range is in the source
  unfoldable pub lex_range : Range → LexResult
  unfolding lex_source
  lex_range range = lex_source (drop range.first (take range.past source)) range.first
