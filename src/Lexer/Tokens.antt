-- ===== src/Lexer/Tokens.antt =====
-- crates/tn-syntax/src/lexer.rs: tokens and lexical errors.
use typenative.Prelude.{ℕ, Bool, true, false}

-- `TokenKind`; the keywords, many of which are reserved here, have the prefix `keyword_`.
pub data TokenKind : Type 0 where
  whitespace : TokenKind
  line_comment : TokenKind
  block_comment : TokenKind
  keyword_abstract : TokenKind
  keyword_as : TokenKind
  keyword_async : TokenKind
  keyword_await : TokenKind
  keyword_break : TokenKind
  keyword_case : TokenKind
  keyword_catch : TokenKind
  keyword_class : TokenKind
  keyword_const : TokenKind
  keyword_constructor : TokenKind
  keyword_continue : TokenKind
  keyword_crate : TokenKind
  keyword_declare : TokenKind
  keyword_default : TokenKind
  keyword_derives : TokenKind
  keyword_dyn : TokenKind
  keyword_else : TokenKind
  keyword_enum : TokenKind
  keyword_export : TokenKind
  keyword_extends : TokenKind
  keyword_extern : TokenKind
  keyword_false : TokenKind
  keyword_final : TokenKind
  keyword_for : TokenKind
  keyword_from : TokenKind
  keyword_function : TokenKind
  keyword_if : TokenKind
  keyword_impl : TokenKind
  keyword_implements : TokenKind
  keyword_import : TokenKind
  keyword_instance_of : TokenKind
  keyword_interface : TokenKind
  keyword_let : TokenKind
  keyword_lifetime : TokenKind
  keyword_match : TokenKind
  keyword_macro : TokenKind
  keyword_mod : TokenKind
  keyword_move : TokenKind
  keyword_mut : TokenKind
  keyword_new : TokenKind
  keyword_null : TokenKind
  keyword_of : TokenKind
  keyword_override : TokenKind
  keyword_private : TokenKind
  keyword_protected : TokenKind
  keyword_public : TokenKind
  keyword_pub : TokenKind
  keyword_record : TokenKind
  keyword_readonly : TokenKind
  keyword_return : TokenKind
  keyword_scope : TokenKind
  keyword_static : TokenKind
  keyword_struct : TokenKind
  keyword_super : TokenKind
  keyword_self_value : TokenKind
  keyword_switch : TokenKind
  keyword_this : TokenKind
  keyword_throw : TokenKind
  keyword_throws : TokenKind
  keyword_true : TokenKind
  keyword_try : TokenKind
  keyword_type : TokenKind
  keyword_undefined : TokenKind
  keyword_unknown : TokenKind
  keyword_unsafe : TokenKind
  keyword_use : TokenKind
  keyword_using : TokenKind
  keyword_where : TokenKind
  keyword_while : TokenKind
  keyword_yield : TokenKind
  keyword_extension : TokenKind
  identifier : TokenKind
  integer_literal : TokenKind
  float_literal : TokenKind
  string_literal : TokenKind
  character_literal : TokenKind
  template_literal : TokenKind
  equal_equal_equal : TokenKind
  bang_equal_equal : TokenKind
  shift_right_equal : TokenKind
  shift_left_equal : TokenKind
  question_dot : TokenKind
  question_question : TokenKind
  fat_arrow : TokenKind
  less_equal : TokenKind
  greater_equal : TokenKind
  amp_amp : TokenKind
  pipe_pipe : TokenKind
  shift_left : TokenKind
  shift_right : TokenKind
  plus_equal : TokenKind
  minus_equal : TokenKind
  star_equal : TokenKind
  slash_equal : TokenKind
  percent_equal : TokenKind
  amp_equal : TokenKind
  pipe_equal : TokenKind
  caret_equal : TokenKind
  as_question : TokenKind
  ellipsis : TokenKind
  at : TokenKind
  left_brace : TokenKind
  right_brace : TokenKind
  left_paren : TokenKind
  right_paren : TokenKind
  left_bracket : TokenKind
  right_bracket : TokenKind
  semicolon : TokenKind
  colon : TokenKind
  comma : TokenKind
  dot : TokenKind
  question : TokenKind
  equal : TokenKind
  plus : TokenKind
  minus : TokenKind
  star : TokenKind
  slash : TokenKind
  percent : TokenKind
  amp : TokenKind
  pipe : TokenKind
  caret : TokenKind
  bang : TokenKind
  tilde : TokenKind
  less : TokenKind
  greater : TokenKind
  error_token : TokenKind

unfoldable pub is_trivia : TokenKind → Bool
is_trivia whitespace = true
is_trivia line_comment = true
is_trivia block_comment = true
is_trivia _ = false

pub data LexError : Type 0 where
  unexpected_character : LexError
  unterminated_block_comment : LexError
  unterminated_string : LexError
  unterminated_character : LexError
  unterminated_template : LexError
  unbalanced_template_interpolation : LexError

-- `Range<usize>`
pub record Range : Type 0 where
  pub first : ℕ
  pub past : ℕ

pub record Token : Type 0 where
  pub kind : TokenKind
  pub range : Range
