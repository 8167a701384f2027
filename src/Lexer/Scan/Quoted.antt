-- ===== src/Lexer/Scan/Quoted.antt =====
-- The text of an accepted quoted literal.
use typenative.Prelude.{
  ℕ, suc, ◌+◌, ◌≤◌, ◌<◌, Bool, true, false, [], ◌∷◌, some, ◌≡◌, inl, inr, sym, ap, ◌∙◌, arith,
  length, length-take, get_elem?, get_elem?-take, get_elem?-drop, take, drop, ◌==◌, ==_iff,
  Bool-cases,
}
use typenative.Lexer.Tokens.{LexError}
use typenative.Lexer.Scan.{Bytes, accepted, backslash, is_line_end, quoted_end, lex_quoted}
use typenative.Lexer.Templates.Steps.{get_elem?-lt}

-- an accepted literal ends with its delimiter
quoted_end-delimiter :
    (quote : ℕ) (error : LexError) (escaped : Bool) (index past : ℕ) (rest : Bytes)
    → quoted_end quote error escaped index rest ≡ accepted past
    → (i : ℕ) × (past ≡ index + suc i) × (get_elem? rest i ≡ some quote)
unfolding quoted_end
quoted_end-delimiter quote error escaped index past [] e = absurd (cc e)
quoted_end-delimiter quote error escaped index past (b ∷ rest) e =
    elim (Bool-cases (is_line_end b)) [
      | inl ends ↦ absurd (cc (rw (ends, quoted_end) at e))
      | inr inside ↦ elim (Bool-cases escaped) [
        | inl skips ↦ later (
            quoted_end-delimiter quote error false (index + 1) past rest
              (rw (inside, quoted_end, skips) at e))
        | inr looks ↦ elim (Bool-cases (b == backslash)) [
          | inl starts ↦ later (
              quoted_end-delimiter quote error true (index + 1) past rest
                (rw (inside, quoted_end, looks, starts) at e))
          | inr plain ↦ elim (Bool-cases (b == quote)) [
            | inl closed ↦
                let q : index + 1 ≡ past =
                  cc (rw (inside, quoted_end, looks, plain, closed) at e) in
                (0, omega (arith, q), ap some ((==_iff b quote).0 closed))
            | inr other ↦ later (
                quoted_end-delimiter quote error false (index + 1) past rest
                  (rw (inside, quoted_end, looks, plain, other) at e))
          ]
        ]
      ]
    ]
  where
    later :
        ((i : ℕ) × (past ≡ index + 1 + suc i) × (get_elem? rest i ≡ some quote))
        → (i : ℕ) × (past ≡ index + suc i) × (get_elem? (b ∷ rest) i ≡ some quote)
    later (i, p, h) = (suc i, omega (arith, p), h)

-- The text of an accepted literal: its size and its last byte.
pub record IsQuoted (quote : ℕ) (text : Bytes) (past : ℕ) : Type 0 where
  pub size : length text ≡ suc past
  pub one : 1 ≤ past
  pub last : get_elem? text past ≡ some quote

pub lex_quoted-IsQuoted :
    (quote : ℕ) (error : LexError) (text : Bytes) (n k : ℕ)
    → 1 ≤ n
    → n ≤ length text
    → lex_quoted quote error (drop n text) ≡ accepted k
    → (past : ℕ) × IsQuoted quote (take (n + k) text) past
unfolding lex_quoted
lex_quoted-IsQuoted quote error text n k one all e =
    let (i, p, h) = quoted_end-delimiter quote error false 0 k (drop n text) e in
    let at : get_elem? text (n + i) ≡ some quote = sym (get_elem?-drop n i text) ∙ h in
    let inside : n + i < length text = get_elem?-lt text (n + i) quote at in
    (
      n + i,
      record {
        size = length-take (n + k) text (omega (arith, p, inside)) ∙ omega (arith, p);
        one = omega (arith, one);
        last = get_elem?-take (n + k) (n + i) text (omega (arith, p)) ∙ at;
      },
    )
