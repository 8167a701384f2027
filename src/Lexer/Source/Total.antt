-- ===== src/Lexer/Source/Total.antt =====
-- The lexer gives a result on every source, whose tokens cover it.
use typenative.Prelude.{
  ℕ, zero, suc, ◌+◌, ◌≤◌, true, false, [], ◌∷◌, ◌++◌, Option, some, String, ◌≡◌, ◌≢◌, ◌⊎◌, inl, inr,
  refl, ap, arith, length, length-append, length-drop, Bool-cases, ◌||◌, ltb, get_elem?, take, drop,
}
use typenative.Diagnostics.{
  codes, is_condition_name, ConditionId, NewCondition, valid, condition_id, new_condition,
  Diagnostic,
}
use typenative.Lexer.Tokens.{
  TokenKind, block_comment, integer_literal, float_literal, string_literal, character_literal,
  template_literal, error_token, LexError, unexpected_character, unterminated_block_comment,
  unterminated_string, unterminated_character, unterminated_template,
  unbalanced_template_interpolation, Range,
}
use typenative.Lexer.Scan.{
  Bytes, Scanned, accepted, rejected, double_quote, single_quote, dollar, left_brace, lex_quoted,
  lex_block_comment,
}
use typenative.Lexer.Scan.Quoted.{IsQuoted, lex_quoted-IsQuoted}
use typenative.Lexer.Literals.{TokenIssue, find_from}
use typenative.Lexer.Literals.Safe.{validate_integer-Safe, validate_float-Safe}
use typenative.Lexer.Escapes.{
  Checked, fine, issue, panicked, stuck, validate_escapes, validate_character,
}
use typenative.Lexer.Escapes.Safe.{Safe, Safe-le, validate_escapes-Safe}
use typenative.Lexer.Escapes.Checks.{validate_character-Safe, validate_template-Safe}
use typenative.Lexer.Templates.{min, lex_template}
use typenative.Lexer.Source.{
  on_condition, validate_token, diagnostic_at, literal_diagnostic, error_texts, error_range,
  lex_diagnostic, found_range, Match, matched, unmatched, Item, token, failure, item_of, item_size,
  item_kind, Lexed, lexed, checked_diagnostics, item_diagnostics, range_of, lex_from, lex_source,
}
use typenative.Lexer.Source.Covers.{match_size, IsMatcher, Covers, item_of-bounds, lex_from-Covers}

error_name : (error : LexError) → is_condition_name (codes (error_texts error).0) ≡ true
unfolding is_condition_name codes error_texts
error_name unexpected_character = refl
error_name unterminated_block_comment = refl
error_name unterminated_string = refl
error_name unterminated_character = refl
error_name unterminated_template = refl
error_name unbalanced_template_interpolation = refl

unexpected_name : is_condition_name (codes "SYNTAX_UNEXPECTED_CHARACTER") ≡ true
unfolding is_condition_name codes
unexpected_name = refl

-- A literal in quotes ends in its quote.
abbrev WellQuoted : TokenKind → Bytes → Type 0
WellQuoted string_literal text = (past : ℕ) × IsQuoted double_quote text past
WellQuoted character_literal text = (past : ℕ) × IsQuoted single_quote text past
WellQuoted kind text = Unit

quote_brace :
    (bytes : Bytes) (past quote : ℕ)
    → get_elem? bytes past ≡ some quote
    → quote ≢ left_brace
    → get_elem? bytes past ≢ some left_brace
quote_brace bytes past quote e d f = let q : quote ≡ left_brace = cc (e, f) in d q

validate_token-Safe :
    (kind : TokenKind) (text : Bytes)
    → WellQuoted kind text
    → Safe (length text) (validate_token kind text)
unfolding validate_token
validate_token-Safe integer_literal text q = validate_integer-Safe text
validate_token-Safe float_literal text q = validate_float-Safe text
validate_token-Safe string_literal text (past, q) =
    Safe-le past (length text) (validate_escapes text false) (omega (arith, q.size)) (
      validate_escapes-Safe text false past q.size
        (quote_brace text past double_quote q.last (omega arith)))
validate_token-Safe character_literal text (past, q) =
    Safe-le past (length text) (validate_character text) (omega (arith, q.size)) (
      validate_character-Safe text past q.size q.one
        (quote_brace text past single_quote q.last (omega arith)))
validate_token-Safe template_literal text q = validate_template-Safe text
validate_token-Safe error_token text q = (omega arith, unexpected_name)
validate_token-Safe kind text q = tt

-- A token in quotes ends in its quote, in the bytes it takes.
abbrev WellQuotedItem : Item → Bytes → Type 0
WellQuotedItem (token kind n) text = WellQuoted kind (take n text)
WellQuotedItem (failure error n) text = Unit

new_condition-valid :
    (id : String) → is_condition_name (codes id) ≡ true → new_condition id ≡ valid (condition_id id)
unfolding new_condition
new_condition-valid id h = rw (h, new_condition) refl

abbrev pub IsSome {ℓ} : {A : Type ℓ} → Option A → Type ℓ
IsSome {A = A} o = (a : A) × (o ≡ some a)

IsSome-on_condition :
    (c : NewCondition) (make : ConditionId → Diagnostic) (x : ConditionId)
    → c ≡ valid x
    → IsSome (on_condition c make)
IsSome-on_condition c make x e = (make x, ap (λ c. on_condition c make) e)

pub diagnostic_at-IsSome :
    (file : String) (source : Bytes) (id message label : String) (first past : ℕ)
    → is_condition_name (codes id) ≡ true
    → IsSome (diagnostic_at file source id message label first past)
unfolding diagnostic_at
diagnostic_at-IsSome file source id message label first past h =
    IsSome-on_condition (new_condition id) _ (condition_id id) (new_condition-valid id h)

module _ (matcher : Bytes → Match) (file : String) (source : Bytes) where
  literal_diagnostic-IsSome :
      (range : Range) (i : TokenIssue)
      → is_condition_name (codes i.id) ≡ true
      → IsSome (literal_diagnostic file source range i)
  unfolding literal_diagnostic
  literal_diagnostic-IsSome range i name =
      diagnostic_at-IsSome file source i.id i.message i.label (range.first + i.offset)
        (min (range.first + i.offset + i.size) range.past) name

  checked_diagnostics-IsSome :
      (size : ℕ) (range : Range) (c : Checked)
      → Safe size c
      → IsSome (checked_diagnostics matcher file source range c)
  checked_diagnostics-IsSome size range fine h = ([], refl)
  checked_diagnostics-IsSome size range (issue i) (h, name) =
      let (d, e) = literal_diagnostic-IsSome range i name in
      (d ∷ [], rw (e, checked_diagnostics) refl)
  checked_diagnostics-IsSome size range panicked h = absurd h
  checked_diagnostics-IsSome size range stuck h = absurd h

  -- the range stands in the source
  abbrev InSource : Range → Type 0
  InSource range = (range.first ≤ range.past) × (range.past ≤ length source)

  error_range-IsSome :
      (range : Range) (error : LexError) → InSource range → IsSome (error_range error source range)
  unfolding error_range
  error_range-IsSome range unbalanced_template_interpolation (ordered, inside) =
      elim (Bool-cases (ltb range.past range.first || ltb (length source) range.past)) [
        | inl out ↦ absurd (ground arith)
        | inr within ↦
            let text = drop range.first (take range.past source) in
            (
              found_range range (find_from 0 (dollar ∷ left_brace ∷ []) text),
              rw (within, error_range) refl,
            )
      ]
  error_range-IsSome range unexpected_character h = (range, refl)
  error_range-IsSome range unterminated_block_comment h = (range, refl)
  error_range-IsSome range unterminated_string h = (range, refl)
  error_range-IsSome range unterminated_character h = (range, refl)
  error_range-IsSome range unterminated_template h = (range, refl)

  lex_diagnostic-IsSome :
      (range : Range) (error : LexError)
      → InSource range
      → IsSome (lex_diagnostic file source range error)
  unfolding lex_diagnostic
  lex_diagnostic-IsSome range error h =
      let texts = error_texts error in
      let (at, e) = error_range-IsSome range error h in
      let (d, f) =
        diagnostic_at-IsSome file source texts.0 texts.1 texts.2 at.first at.past
          (error_name error) in
      (d, rw (e, lex_diagnostic) f)

  item_diagnostics-IsSome :
      (i : Item) (text : Bytes) (range : Range)
      → InSource range
      → WellQuotedItem i text
      → IsSome (item_diagnostics matcher file source i (take (item_size i) text) range)
  unfolding item_diagnostics
  item_diagnostics-IsSome (token kind n) text range h q =
      checked_diagnostics-IsSome (length (take n text)) range (validate_token kind (take n text))
        (validate_token-Safe kind (take n text) q)
  item_diagnostics-IsSome (failure error n) text range h q =
      let (d, e) = lex_diagnostic-IsSome range error h in (d ∷ [], rw (e, item_diagnostics) refl)

Scanned-cases :
    (s : Scanned)
    → ((k : ℕ) × (s ≡ accepted k)) ⊎ ((k : ℕ) × (error : LexError) × (s ≡ rejected k error))
Scanned-cases (accepted k) = inl (k, refl)
Scanned-cases (rejected k error) = inr (k, error, refl)

item_of-WellQuoted :
    (text : Bytes) (m : Match)
    → 1 ≤ match_size m
    → match_size m ≤ length text
    → WellQuotedItem (item_of text m) text
unfolding item_of
item_of-WellQuoted text (matched block_comment n) one all =
    elim (Scanned-cases (lex_block_comment (drop n text))) [
      | inl (k, e) ↦ rw e tt
      | inr (k, error, e) ↦ rw e tt
    ]
item_of-WellQuoted text (matched string_literal n) one all =
    elim (Scanned-cases (lex_quoted double_quote unterminated_string (drop n text))) [
      | inl (k, e) ↦ rw e (lex_quoted-IsQuoted double_quote unterminated_string text n k one all e)
      | inr (k, error, e) ↦ rw e tt
    ]
item_of-WellQuoted text (matched character_literal n) one all =
    elim (Scanned-cases (lex_quoted single_quote unterminated_character (drop n text))) [
      | inl (k, e) ↦
          rw e (lex_quoted-IsQuoted single_quote unterminated_character text n k one all e)
      | inr (k, error, e) ↦ rw e tt
    ]
item_of-WellQuoted text (matched template_literal n) one all =
    elim (Scanned-cases (lex_template (drop n text))) [
      | inl (k, e) ↦ rw e tt
      | inr (k, error, e) ↦ rw e tt
    ]
item_of-WellQuoted text (matched kind n) one all = tt
item_of-WellQuoted text (unmatched n) one all = tt

module _ (matcher : Bytes → Match) (law : IsMatcher matcher) (file : String) (source : Bytes) where
  lex_from_total :
      (fuel start : ℕ) (text : Bytes)
      → length text ≤ fuel
      → start + length text ≤ length source
      → (r : Lexed) × (lex_from matcher file source fuel start text ≡ lexed r)
  unfolding lex_from
  lex_from_total fuel start [] h inside = (record { tokens = []; diagnostics = [] }, refl)
  lex_from_total zero start (b ∷ rest) h inside = absurd (omega (arith, h))
  lex_from_total (suc fuel) start (b ∷ rest) h inside =
      let text = b ∷ rest in
      let i = item_of text (matcher text) in
      let range = range_of matcher file source start i in
      let (one, all) = item_of-bounds matcher file source law b rest in
      let (ds, d) =
        item_diagnostics-IsSome matcher file source i text range
          (omega arith, omega (arith, all, inside))
          (item_of-WellQuoted text (matcher text) (law b rest).0 (law b rest).1) in
      let shorter = length-drop (item_size i) text in
      let (l, f) =
        lex_from_total fuel (start + item_size i) (drop (item_size i) text)
          (omega (arith, shorter, h, one, all)) (omega (arith, shorter, all, inside)) in
      (
        record {
          tokens = record { kind = item_kind i; range = range } ∷ l.tokens;
          diagnostics = ds ++ l.diagnostics;
        },
        rw (d, lex_from, f) refl,
      )

-- For a matcher that takes a byte at least and no more than there are, and for a fragment of the
-- source, the lexer neither panics nor stops early, apart from slices inside a character, and the
-- ranges of its tokens follow each other without gaps over the whole fragment, none of them empty.
pub lex_source_total :
    (matcher : Bytes → Match)
    → IsMatcher matcher
    → (file : String) (source before fragment after : Bytes) → source ≡ before ++ fragment ++ after
    → (r : Lexed) × (lex_source matcher file source fragment (length before) ≡ lexed r)
      × Covers (length before) r.tokens (length before + length fragment)
unfolding lex_source
lex_source_total matcher law file source before fragment after e =
    let base = length before in
    let sizes : length source ≡ length (before ++ fragment ++ after) = ap length e in
    let inside : base + length fragment ≤ length source =
      omega
        (arith, sizes, length-append (before ++ fragment) after, length-append before fragment) in
    let (r, f) =
      lex_from_total matcher law file source (length fragment) base fragment (omega arith) inside in
    (r, f, lex_from-Covers matcher file source law (length fragment) base fragment r f)
