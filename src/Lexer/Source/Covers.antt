-- ===== src/Lexer/Source/Covers.antt =====
-- The tokens of a source cover it without gaps.
use typenative.Prelude.{
  ℕ, zero, suc, ◌+◌, ◌≤◌, ◌<◌, List, [], ◌∷◌, ◌++◌, String, ◌≡◌, ◌≢◌, ◌⊎◌, inl, inr, refl, arith,
  length, length-drop, take, drop, Option-cases,
}
use mathlib.Core.Path.{subst}
use typenative.Lexer.Tokens.{
  TokenKind, block_comment, string_literal, character_literal, template_literal,
  unterminated_string, unterminated_character, Token,
}
use typenative.Lexer.Scan.{
  Bytes, Scanned, accepted, rejected, double_quote, single_quote, backtick, lex_block_comment,
  lex_quoted,
}
use typenative.Lexer.Scan.Bounds.{scanned_size, lex_block_comment-le, lex_quoted-le}
use typenative.Lexer.Templates.{scan_template, lex_template}
use typenative.Lexer.Templates.Sound.{Scan-cases, scan_template-IsTemplate}
use typenative.Lexer.Source.{
  Match, matched, unmatched, scanned, item_of, item_size, item_kind, Lexed, LexResult, lexed,
  panics, unfinished, item_diagnostics, range_of, lex_from,
}

abbrev pub match_size : Match → ℕ
match_size (matched kind n) = n
match_size (unmatched n) = n

-- A match takes a byte at least, and no more than there are.
abbrev pub IsMatcher : (Bytes → Match) → Type 0
IsMatcher matcher =
    (b : ℕ) (rest : Bytes)
    → (1 ≤ match_size (matcher (b ∷ rest))) × (match_size (matcher (b ∷ rest)) ≤ length (b ∷ rest))

-- The ranges follow each other from the one index to the other, and none is empty.
abbrev pub Covers : ℕ → List Token → ℕ → Type 0
Covers i [] j = i ≡ j
Covers i (t ∷ ts) j = (t.range.first ≡ i) × (i < t.range.past) × Covers t.range.past ts j

lex_template-le : (rest : Bytes) → scanned_size (lex_template rest) ≤ length rest
unfolding lex_template
lex_template-le rest = elim (Scan-cases rest (scan_template (backtick ∷ rest) 0)) [
  | inl (scan, e) ↦ rw e (omega (arith, (scan_template-IsTemplate (backtick ∷ rest) 0 scan e).1))
  | inr (inl e) ↦ rw e (omega arith)
  | inr (inr (x, e)) ↦ rw e (omega arith)
]

item_size-scanned :
    (kind : TokenKind) (n : ℕ) (s : Scanned) → item_size (scanned kind n s) ≡ n + scanned_size s
item_size-scanned kind n (accepted k) = refl
item_size-scanned kind n (rejected k error) = refl

-- a match in the text and a scan in what it leaves stay in the text
abbrev pub Within : ℕ → Bytes → Type 0
Within n text = (1 ≤ n) × (n ≤ length text)

scanned-Within :
    (kind : TokenKind) (n : ℕ) (s : Scanned) (text : Bytes)
    → Within n text
    → scanned_size s ≤ length (drop n text)
    → Within (item_size (scanned kind n s)) text
scanned-Within kind n s text (one, all) h =
    let q = item_size-scanned kind n s in
    (omega (arith, q, one), omega (arith, q, all, h, length-drop n text))

item_of-Within :
    (text : Bytes) (m : Match)
    → Within (match_size m) text
    → Within (item_size (item_of text m)) text
unfolding item_of
item_of-Within text (matched block_comment n) h =
    scanned-Within block_comment n (lex_block_comment (drop n text)) text h
      (lex_block_comment-le (drop n text))
item_of-Within text (matched string_literal n) h =
    scanned-Within string_literal n (lex_quoted double_quote unterminated_string (drop n text)) text
      h (lex_quoted-le double_quote unterminated_string (drop n text))
item_of-Within text (matched character_literal n) h =
    scanned-Within character_literal n
      (lex_quoted single_quote unterminated_character (drop n text)) text h
      (lex_quoted-le single_quote unterminated_character (drop n text))
item_of-Within text (matched template_literal n) h =
    scanned-Within template_literal n (lex_template (drop n text)) text h
      (lex_template-le (drop n text))
item_of-Within text (matched kind n) h = h
item_of-Within text (unmatched n) h = h

pub LexResult-cases :
    (r : LexResult) → ((l : Lexed) × (r ≡ lexed l)) ⊎ ((r ≡ panics) ⊎ (r ≡ unfinished))
LexResult-cases (lexed l) = inl (l, refl)
LexResult-cases panics = inr (inl refl)
LexResult-cases unfinished = inr (inr refl)

module _ (matcher : Bytes → Match) (file : String) (source : Bytes) (law : IsMatcher matcher) where
  pub item_of-bounds :
      (b : ℕ) (rest : Bytes)
      → Within (item_size (item_of (b ∷ rest) (matcher (b ∷ rest)))) (b ∷ rest)
  item_of-bounds b rest = item_of-Within (b ∷ rest) (matcher (b ∷ rest)) (law b rest)

  past_item :
      (start n : ℕ) (text : Bytes)
      → n ≤ length text
      → start + n + length (drop n text) ≡ start + length text
  past_item start n text h = omega (arith, length-drop n text, h)

  pub lex_from-Covers :
      (fuel start : ℕ) (text : Bytes) (r : Lexed)
      → lex_from matcher file source fuel start text ≡ lexed r
      → Covers start r.tokens (start + length text)
  unfolding lex_from
  lex_from-Covers fuel start [] r e =
      let q : record { tokens = []; diagnostics = [] } ≡ r = cc e in
      subst (λ l. Covers start l.tokens (start + 0)) q (omega arith)
  lex_from-Covers zero start (b ∷ rest) r e = absurd (cc e)
  lex_from-Covers (suc fuel) start (b ∷ rest) r e =
      let text = b ∷ rest in
      let i = item_of text (matcher text) in
      let (one, all) = item_of-bounds b rest in
      elim (Option-cases (
        item_diagnostics matcher file source i (take (item_size i) text)
          (range_of matcher file source start i))) [
            | inl d ↦ absurd (cc (rw (d, lex_from) at e))
            | inr (ds, d) ↦
                elim (LexResult-cases (
                  lex_from matcher file source fuel (start + item_size i)
                    (drop (item_size i) text))) [
                      | inl (l, f) ↦
                          let q : record {
                            tokens =
                                record {
                                  kind = item_kind i;
                                  range = range_of matcher file source start i;
                                }
                                ∷ l.tokens;
                            diagnostics = ds ++ l.diagnostics;
                          }
                              ≡ r =
                            cc (rw (d, lex_from, f) at e) in
                          subst (λ l. Covers start l.tokens (start + length text)) q
                            (
                              refl,
                              omega (arith, one),
                              subst (Covers (start + item_size i) l.tokens)
                                  (past_item start (item_size i) text all)
                                  (lex_from-Covers fuel (start + item_size i)
                                    (drop (item_size i) text) l f),
                            )
                      | inr (inl f) ↦ absurd (cc (rw (d, lex_from, f) at e))
                      | inr (inr f) ↦ absurd (cc (rw (d, lex_from, f) at e))
                    ]
          ]

  pub lex_from_ends :
      (fuel start : ℕ) (text : Bytes)
      → length text ≤ fuel
      → lex_from matcher file source fuel start text ≢ unfinished
  unfolding lex_from
  lex_from_ends fuel start [] h e = absurd (cc e)
  lex_from_ends zero start (b ∷ rest) h e = omega (arith, h)
  lex_from_ends (suc fuel) start (b ∷ rest) h e =
      let text = b ∷ rest in
      let i = item_of text (matcher text) in
      let (one, all) = item_of-bounds b rest in
      elim (Option-cases (
        item_diagnostics matcher file source i (take (item_size i) text)
          (range_of matcher file source start i))) [
            | inl d ↦ absurd (cc (rw (d, lex_from) at e))
            | inr (ds, d) ↦
                elim (LexResult-cases (
                  lex_from matcher file source fuel (start + item_size i)
                    (drop (item_size i) text))) [
                      | inl (l, f) ↦ absurd (cc (rw (d, lex_from, f) at e))
                      | inr (inl f) ↦ absurd (cc (rw (d, lex_from, f) at e))
                      | inr (inr f) ↦
                          lex_from_ends fuel (start + item_size i) (drop (item_size i) text)
                            (omega (arith, length-drop (item_size i) text, h, one, all)) f
                    ]
          ]
