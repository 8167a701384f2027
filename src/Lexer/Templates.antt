-- ===== src/Lexer/Templates.antt =====
-- crates/tn-syntax/src/lexer.rs: template literals and their interpolations.
pub mod Steps
pub mod Sound
pub mod Ends
use typenative.Prelude.{
  ℕ, zero, suc, ◌+◌, ◌-◌, Bool, true, false, ◌&&◌, ◌||◌, List, [], ◌∷◌, ◌++◌, Option, none, some,
  length, get_elem?, ◌==◌, ltb, if◌then◌else◌,
}
use typenative.Lexer.Tokens.{
  LexError, Range, unterminated_template, unbalanced_template_interpolation,
}
use typenative.Lexer.Scan.{
  Bytes, Scanned, accepted, rejected, double_quote, dollar, single_quote, star, slash, backslash,
  backtick, left_brace, right_brace, skip_quoted, skip_block_comment, skip_line_comment,
}

abbrev pub min : ℕ → ℕ → ℕ
min a b = if ltb a b then a else b

-- `bytes.get(index) == Some(&byte)`
abbrev is_byte : Option ℕ → ℕ → Bool
is_byte none b = false
is_byte (some a) b = a == b

unfoldable pub is_at : Bytes → ℕ → ℕ → Bool
is_at bytes index b = is_byte (get_elem? bytes index) b

pub record TemplateScan : Type 0 where
  pub past : ℕ
  pub interpolations : List Range

pub data Scan {ℓ} (A : Type ℓ) : Type ℓ where
  ok : A → Scan A
  failed : LexError → Scan A
  out_of_fuel : Scan A

-- The arms of the match of `scan_template`, and the end of its loop.
pub data TemplateStep : Type 0 where
  past_end : TemplateStep
  escape : TemplateStep
  closing : TemplateStep
  opening : TemplateStep
  other : TemplateStep

abbrev pub template_byte : Bytes → ℕ → ℕ → TemplateStep
template_byte bytes index b =
    if b == backslash
    then escape
    else if b == backtick
    then closing
    else if (b == dollar) && is_at bytes (index + 1) left_brace
    then opening
    else other

abbrev pub template_option : Bytes → ℕ → Option ℕ → TemplateStep
template_option bytes index none = past_end
template_option bytes index (some b) = template_byte bytes index b

unfoldable pub template_step : Bytes → ℕ → TemplateStep
unfolding is_at
template_step bytes index = template_option bytes index (get_elem? bytes index)

-- The arms of the match of `scan_interpolation`, and the end of its loop.
pub data InterpolationStep : Type 0 where
  past_end : InterpolationStep
  quoted : ℕ → InterpolationStep
  line_comment : InterpolationStep
  block_comment : InterpolationStep
  template : InterpolationStep
  left : InterpolationStep
  right : InterpolationStep
  other : InterpolationStep

abbrev pub interpolation_byte : Bytes → ℕ → ℕ → InterpolationStep
interpolation_byte bytes index b =
    if (b == single_quote) || (b == double_quote)
    then quoted b
    else if (b == slash) && is_at bytes (index + 1) slash
    then line_comment
    else if (b == slash) && is_at bytes (index + 1) star
    then block_comment
    else if b == backtick
    then template
    else if b == left_brace
    then left
    else if b == right_brace
    then right
    else other

abbrev pub interpolation_option : Bytes → ℕ → Option ℕ → InterpolationStep
interpolation_option bytes index none = past_end
interpolation_option bytes index (some b) = interpolation_byte bytes index b

unfoldable pub interpolation_step : Bytes → ℕ → InterpolationStep
unfolding is_at
interpolation_step bytes index = interpolation_option bytes index (get_elem? bytes index)

-- The loops of `scan_template` and `scan_interpolation`, which call each other, on fuel.
module _ (bytes : Bytes) where
  unfoldable mutual
    unfolding template_step interpolation_step skip_quoted skip_block_comment skip_line_comment

    pub scan_template_from : ℕ → ℕ → List Range → Scan TemplateScan
    scan_template_from zero index found = out_of_fuel
    scan_template_from (suc fuel) index found = elim (template_step bytes index) [
      | past_end ↦ failed unterminated_template
      | escape ↦ scan_template_from fuel (min (index + 2) (length bytes)) found
      | closing ↦ ok (record { past = index + 1; interpolations = found })
      | opening ↦ elim (scan_interpolation_from fuel (index + 2) 1) [
        | ok e ↦
            scan_template_from fuel (e + 1) (found ++ record { first = index + 2; past = e } ∷ [])
        | failed error ↦ failed error
        | out_of_fuel ↦ out_of_fuel
      ]
      | other ↦ scan_template_from fuel (index + 1) found
    ]

    pub scan_interpolation_from : ℕ → ℕ → ℕ → Scan ℕ
    scan_interpolation_from zero index depth = out_of_fuel
    scan_interpolation_from (suc fuel) index depth = elim (interpolation_step bytes index) [
      | past_end ↦ failed unbalanced_template_interpolation
      | quoted b ↦ scan_interpolation_from fuel (skip_quoted bytes b index) depth
      | line_comment ↦ scan_interpolation_from fuel (skip_line_comment bytes index) depth
      | block_comment ↦ scan_interpolation_from fuel (skip_block_comment bytes index) depth
      | template ↦ elim (scan_template_from fuel (index + 1) []) [
        | ok scan ↦ scan_interpolation_from fuel (scan.past) depth
        | failed error ↦ failed unbalanced_template_interpolation
        | out_of_fuel ↦ out_of_fuel
      ]
      | left ↦ scan_interpolation_from fuel (index + 1) (depth + 1)
      | right ↦ elim ((depth - 1) == 0) [
        | true ↦ ok index
        | false ↦ scan_interpolation_from fuel (index + 1) (depth - 1)
      ]
      | other ↦ scan_interpolation_from fuel (index + 1) depth
    ]

  -- The fuel is above the length, and each round moves on by a byte at least.
  unfoldable pub scan_template : ℕ → Scan TemplateScan
  unfolding scan_template_from
  scan_template start = scan_template_from (length bytes + 2) (start + 1) []

abbrev scanned_interpolations : Scan TemplateScan → List Range
scanned_interpolations (ok scan) = scan.interpolations
scanned_interpolations (failed error) = []
scanned_interpolations out_of_fuel = []

unfoldable pub template_interpolations : Bytes → List Range
unfolding scan_template
template_interpolations text = scanned_interpolations (scan_template text 0)

-- The callback of a template literal on the text past its backtick.
abbrev template_outcome : ℕ → Scan TemplateScan → Scanned
template_outcome remaining (ok scan) = accepted (scan.past - 1)
template_outcome remaining (failed error) = rejected remaining error
template_outcome remaining out_of_fuel = rejected remaining unterminated_template

unfoldable pub lex_template : Bytes → Scanned
unfolding scan_template
lex_template remainder =
    template_outcome (length remainder) (scan_template (backtick ∷ remainder) 0)
