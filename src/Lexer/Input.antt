-- ===== src/Lexer/Input.antt =====
-- crates/tn-syntax/src/lexer.rs: lex, from the bytes of a file. What the standard library finds in bytes, as text or as the
-- place of an error, and the text that it makes of bytes with errors are parameters.
use typenative.Prelude.{
  ℕ, ◌+◌, [], ◌∷◌, Option, none, some, String, length, ◌≡◌, refl, ap, sym, append-nil, true,
}
use typenative.Diagnostics.{codes, is_condition_name, Diagnostic}
use typenative.Lexer.Scan.{Bytes}
use typenative.Lexer.Source.{Match, Lexed, LexResult, lexed, panics, diagnostic_at, lex_source}
use typenative.Lexer.Source.Covers.{IsMatcher, Covers}
use typenative.Lexer.Source.Total.{diagnostic_at-IsSome, lex_source_total}

-- `std::str::from_utf8`: the bytes are text, or valid up to an index, with the length of the error where it is known
pub data Utf8 : Type 0 where
  text : Utf8
  utf8_error : ℕ → Option ℕ → Utf8

-- `error_len().unwrap_or(1)`
abbrev pub or_one : Option ℕ → ℕ
or_one none = 1
or_one (some n) = n

abbrev pub only_diagnostic : Option Diagnostic → LexResult
only_diagnostic none = panics
only_diagnostic (some d) = lexed (record { tokens = []; diagnostics = d ∷ [] })

module _ (matcher : Bytes → Match) (from_utf8 : Bytes → Utf8) (from_utf8_lossy : Bytes → Bytes)
    (file : String) where
  abbrev pub lex_decoded : Bytes → Utf8 → LexResult
  lex_decoded bytes text = lex_source matcher file bytes bytes 0
  lex_decoded bytes (utf8_error start size) = only_diagnostic (
      diagnostic_at file (from_utf8_lossy bytes) "SYNTAX_INVALID_UTF8"
        "source file is not valid UTF-8" "invalid byte sequence starts here" start
        (start + or_one size))

  unfoldable pub lex : Bytes → LexResult
  unfolding lex_source diagnostic_at
  lex bytes = lex_decoded bytes (from_utf8 bytes)

  -- What lex gives of bytes: tokens that cover a text, or one diagnostic and no token.
  abbrev pub LexOutcome : Bytes → Utf8 → LexResult → Type 0
  LexOutcome bytes text r = (l : Lexed) × (r ≡ lexed l) × Covers 0 l.tokens (0 + length bytes)
  LexOutcome bytes (utf8_error start size) r =
      (d : Diagnostic) × (r ≡ lexed (record { tokens = []; diagnostics = d ∷ [] }))

  utf8_name : is_condition_name (codes "SYNTAX_INVALID_UTF8") ≡ true
  unfolding is_condition_name codes
  utf8_name = refl

  lex_decoded-LexOutcome :
      IsMatcher matcher → (bytes : Bytes) (u : Utf8) → LexOutcome bytes u (lex_decoded bytes u)
  lex_decoded-LexOutcome law bytes text =
      lex_source_total matcher law file bytes [] bytes [] (sym (append-nil bytes))
  lex_decoded-LexOutcome law bytes (utf8_error start size) =
      let (d, e) =
        diagnostic_at-IsSome file (from_utf8_lossy bytes) "SYNTAX_INVALID_UTF8"
          "source file is not valid UTF-8" "invalid byte sequence starts here" start
          (start + or_one size) utf8_name in
      (d, ap only_diagnostic e)

  -- For a matcher that takes a byte at least and no more than there are, lex gives a result on all bytes: tokens that cover them
  -- without gaps where they are text, and one diagnostic and no token where they are not.
  pub lex-LexOutcome :
      IsMatcher matcher → (bytes : Bytes) → LexOutcome bytes (from_utf8 bytes) (lex bytes)
  unfolding lex
  lex-LexOutcome law bytes = lex_decoded-LexOutcome law bytes (from_utf8 bytes)
