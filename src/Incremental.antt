-- ===== src/Incremental.antt =====
-- crates/tn-syntax/src/incremental.rs: edits of a parsed document. The parser is a parameter: of a text it gives the
-- children of the root, nodes and tokens in order with their texts, and the diagnostics. A SyntaxKind is its number.
pub mod Edits
pub mod Witnesses
use typenative.Prelude.{
  ℕ, zero, suc, ◌+◌, ◌-◌, ◌≤◌, Bool, true, false, ◌&&◌, ◌||◌, not, List, [], ◌∷◌, ◌++◌, Option,
  none, some, String, length, take, drop, map, get_elem?, ◌==◌, ltb, if◌then◌else◌,
}
use typenative.Diagnostics.{within, SourceSpan, new_span, Label, Edit, Diagnostic}
use typenative.Lexer.Tokens.{Range}
use typenative.Lexer.Scan.{Bytes}

pub record TextEdit : Type 0 where
  pub range : Range
  pub replacement : Bytes

pub record ReparseStats : Type 0 where
  pub reparsed_range : Range
  pub reused_bytes : ℕ

pub data Element : Type 0 where
  node : ℕ → Bytes → Element
  token : Bytes → Element

pub record Parse : Type 0 where
  pub root : List Element
  pub diagnostics : List Diagnostic

pub record IncrementalDocument : Type 0 where
  pub file : String
  pub source : Bytes
  pub parse : Parse

-- `Result<ReparseStats, InvalidTextEdit>`, with the document after the edit
pub data EditResult : Type 0 where
  edited : IncrementalDocument → ReparseStats → EditResult
  invalid_text_edit : Range → EditResult

abbrev pub element_text : Element → Bytes
element_text (node kind text) = text
element_text (token text) = text

unfoldable pub root_size : List Element → ℕ
root_size [] = 0
root_size (x ∷ xs) = length (element_text x) + root_size xs

abbrev pub starts_character : Option ℕ → Bool
starts_character none = false
starts_character (some b) = not (within 128 b 191)

unfoldable pub is_char_boundary : Bytes → ℕ → Bool
is_char_boundary source i =
    (i == 0) || (i == length source) || starts_character (get_elem? source i)

unfoldable pub invalid_edit : Bytes → Range → Bool
unfolding is_char_boundary
invalid_edit source r =
    ltb r.past r.first
    || ltb (length source) r.past
    || not (is_char_boundary source r.first)
    || not (is_char_boundary source r.past)

unfoldable pub replace_range : Bytes → Range → Bytes → Bytes
replace_range source r replacement = take r.first source ++ replacement ++ drop r.past source

-- `x.saturating_add_signed(length_delta)`, the change from the old length to the new one
abbrev pub shifted : ℕ → ℕ → ℕ → ℕ
shifted old_length new_length x =
    if ltb new_length old_length
    then x - (old_length - new_length)
    else x + (new_length - old_length)

-- The node that an edit stays in, with what stands before and after it.
pub record Candidate : Type 0 where
  pub before : List Element
  pub kind : ℕ
  pub range : Range
  pub after : List Element

abbrev pub behind : Element → Option Candidate → Option Candidate
behind x none = none
behind x (some c) = some (record c { before = x ∷ c.before })

module _ (attribute : ℕ) (r : Range) where
  abbrev pub is_candidate : ℕ → ℕ → ℕ → Bool
  is_candidate kind first past =
      not (kind == attribute) && not (ltb r.first first) && not (ltb past r.past)

  -- `root.children().find(..)`, from an offset
  unfoldable pub find_candidate : ℕ → List Element → Option Candidate
  find_candidate offset [] = none
  find_candidate offset (token text ∷ xs) =
      behind (token text) (find_candidate (offset + length text) xs)
  find_candidate offset (node kind text ∷ xs) =
      let past = offset + length text in
      if is_candidate kind offset past
      then some (record {
        before = [];
        kind = kind;
        range = record { first = offset; past = past };
        after = xs;
      })
      else behind (node kind text) (find_candidate past xs)

unfoldable pub find_kind : ℕ → List Element → Option Bytes
find_kind kind [] = none
find_kind kind (token text ∷ xs) = find_kind kind xs
find_kind kind (node k text ∷ xs) = if k == kind then some text else find_kind kind xs

abbrev pub visit_label : (SourceSpan → SourceSpan) → Label → Label
visit_label visit l = record l { span = visit l.span }

abbrev pub visit_edit : (SourceSpan → SourceSpan) → Edit → Edit
visit_edit visit e = record e { span = visit e.span }

unfoldable pub visit_spans : (SourceSpan → SourceSpan) → Diagnostic → Diagnostic
visit_spans visit d = record d {
  primary = visit_label visit d.primary;
  secondary = map (visit_label visit) d.secondary;
  edits = map (visit_edit visit) d.edits;
}

unfoldable pub adjust_diagnostic_after_edit : ℕ → ℕ → ℕ → Bytes → Diagnostic → Diagnostic
unfolding visit_spans new_span
adjust_diagnostic_after_edit old_end old_length new_length source = visit_spans (λ s.
    if ltb s.byte_start old_end
    then s
    else new_span s.file (shifted old_length new_length s.byte_start)
        (shifted old_length new_length s.byte_end) source)

unfoldable pub shift_diagnostic : ℕ → Bytes → Diagnostic → Diagnostic
unfolding visit_spans new_span
shift_diagnostic offset source =
    visit_spans (λ s. new_span s.file (s.byte_start + offset) (s.byte_end + offset) source)

-- the diagnostics outside the range
unfoldable pub outside : Range → List Diagnostic → List Diagnostic
outside r [] = []
outside r (d ∷ ds) =
    let rest = outside r ds in
    let span = d.primary.span in
    if not (ltb r.first span.byte_end) || not (ltb span.byte_start r.past) then d ∷ rest else rest

module _ (parser : String → Bytes → Parse) (attribute : ℕ) where
  unfoldable pub new_document : String → Bytes → IncrementalDocument
  new_document file source = record { file = file; source = source; parse = parser file source }

  abbrev pub full_parse : String → Bytes → EditResult
  full_parse file source =
      edited (record { file = file; source = source; parse = parser file source })
        (record { reparsed_range = record { first = 0; past = length source }; reused_bytes = 0 })

  -- the new tree and diagnostics, from the node that takes the candidate's place
  abbrev pub with_replacement :
      IncrementalDocument → Bytes → Candidate → ℕ → List Diagnostic → Option Bytes → EditResult
  with_replacement d source c new_end found none = full_parse d.file source
  with_replacement d source c new_end found (some text) =
      let old_length = length d.source in
      edited
        (record {
          file = d.file;
          source = source;
          parse = record {
            root = c.before ++ node c.kind text ∷ c.after;
            diagnostics =
                map (adjust_diagnostic_after_edit c.range.past old_length (length source) source)
                  (outside c.range d.parse.diagnostics)
                ++ map (shift_diagnostic c.range.first source) found;
          };
        })
        (record {
          reparsed_range = record { first = c.range.first; past = new_end };
          reused_bytes = old_length - (c.range.past - c.range.first);
        })

  abbrev pub with_candidate : IncrementalDocument → Bytes → Option Candidate → EditResult
  with_candidate d source none = full_parse d.file source
  with_candidate d source (some c) =
      let new_end = shifted (length d.source) (length source) c.range.past in
      let fragment = parser d.file (drop c.range.first (take new_end source)) in
      if ltb (length source) new_end || not (is_char_boundary source new_end)
      then full_parse d.file source
      else with_replacement d source c new_end fragment.diagnostics (find_kind c.kind fragment.root)

  unfoldable pub apply_edit : IncrementalDocument → TextEdit → EditResult
  unfolding invalid_edit replace_range find_candidate find_kind is_char_boundary
      adjust_diagnostic_after_edit shift_diagnostic outside
  apply_edit d e =
      if invalid_edit d.source e.range
      then invalid_text_edit e.range
      else with_candidate d (replace_range d.source e.range e.replacement)
          (find_candidate attribute e.range 0 d.parse.root)
