-- ===== src/Lexer/Templates/Steps.antt =====
-- What the steps of the template scans say of the bytes, and how far they move.
use typenative.Prelude.{
  ℕ, zero, suc, ◌+◌, ◌-◌, ◌≤◌, ◌<◌, true, ◌&&◌, [], ◌∷◌, Option, none, some, ◌≡◌, ◌⊎◌, inl, inr,
  refl, ap, ◌∙◌, arith, length, drop, get_elem?, ◌==◌, ==_iff, Bool-cases, Option-cases,
}
use typenative.Lexer.Scan.{
  Bytes, dollar, star, slash, backslash, backtick, left_brace, right_brace, is_line_end,
  skip_quoted_from, skip_quoted, skip_comment_from, skip_block_comment, skip_line_from,
  skip_line_comment,
}
use typenative.Lexer.Templates.{
  is_at, template_option, interpolation_option, past_end, closing, opening, template_step, right,
  interpolation_step,
}

pub get_elem?-lt : (bytes : Bytes) (i b : ℕ) → get_elem? bytes i ≡ some b → i < length bytes
get_elem?-lt [] i b e = absurd (cc e)
get_elem?-lt (a ∷ bytes) zero b e = omega arith
get_elem?-lt (a ∷ bytes) (suc i) b e = omega (arith, get_elem?-lt bytes i b e)

module _ (bytes : Bytes) (index : ℕ) where
  template_option-closing :
      (o : Option ℕ) → template_option bytes index o ≡ closing → o ≡ some backtick
  template_option-closing none e = absurd (cc e)
  template_option-closing (some b) e = ground arith

  pub closing-backtick : template_step bytes index ≡ closing → get_elem? bytes index ≡ some backtick
  unfolding template_step
  closing-backtick e = template_option-closing (get_elem? bytes index) e

  template_option-opening :
      (o : Option ℕ)
      → template_option bytes index o ≡ opening
      → (o ≡ some dollar) × (is_at bytes (index + 1) left_brace ≡ true)
  template_option-opening none e = absurd (cc e)
  template_option-opening (some b) e = ground arith

  pub is_at-get_elem? : (b : ℕ) → is_at bytes index b ≡ true → get_elem? bytes index ≡ some b
  unfolding is_at
  is_at-get_elem? b h = elim (Option-cases (get_elem? bytes index)) [
    | inl n ↦ absurd (cc (rw n at h))
    | inr (a, e) ↦ e ∙ ap some ((==_iff a b).0 (rw e at h))
  ]

  pub opening-dollar : template_step bytes index ≡ opening → get_elem? bytes index ≡ some dollar
  unfolding template_step
  opening-dollar e = (template_option-opening (get_elem? bytes index) e).0

  pub opening-left_brace :
      template_step bytes index ≡ opening → is_at bytes (index + 1) left_brace ≡ true
  unfolding template_step
  opening-left_brace e = (template_option-opening (get_elem? bytes index) e).1

  interpolation_option-right :
      (o : Option ℕ) → interpolation_option bytes index o ≡ right → o ≡ some right_brace
  interpolation_option-right none e = absurd (cc e)
  interpolation_option-right (some b) e = ground arith

  pub right-right_brace :
      interpolation_step bytes index ≡ right → get_elem? bytes index ≡ some right_brace
  unfolding interpolation_step
  right-right_brace e = interpolation_option-right (get_elem? bytes index) e

  pub template_step-lt : (template_step bytes index ≡ past_end) ⊎ (index < length bytes)
  unfolding template_step
  template_step-lt = elim (Option-cases (get_elem? bytes index)) [
    | inl n ↦ inl (ap (template_option bytes index) n)
    | inr (b, h) ↦ inr (get_elem?-lt bytes index b h)
  ]

  pub interpolation_step-lt : (interpolation_step bytes index ≡ past_end) ⊎ (index < length bytes)
  unfolding interpolation_step
  interpolation_step-lt = elim (Option-cases (get_elem? bytes index)) [
    | inl n ↦ inl (ap (interpolation_option bytes index) n)
    | inr (b, h) ↦ inr (get_elem?-lt bytes index b h)
  ]

skip_quoted_from-le : (delimiter i : ℕ) (rest : Bytes) → i ≤ skip_quoted_from delimiter i rest
unfolding skip_quoted_from
skip_quoted_from-le delimiter i [] = omega arith
skip_quoted_from-le delimiter i (b ∷ []) = omega arith
skip_quoted_from-le delimiter i (b ∷ c ∷ rest) = elim (Bool-cases (b == backslash)) [
  | inl escaped ↦
      rw (escaped, skip_quoted_from) (omega (arith, skip_quoted_from-le delimiter (i + 2) rest))
  | inr plain ↦
      rw (plain, skip_quoted_from)
        (elim (Bool-cases (b == delimiter)) [
          | inl closed ↦ rw (closed, skip_quoted_from) (omega arith)
          | inr inside ↦
              rw (inside, skip_quoted_from)
                (omega (arith, skip_quoted_from-le delimiter (i + 1) (c ∷ rest)))
        ])
]

skip_comment_from-lt :
    (past depth i : ℕ) (rest : Bytes)
    → (skip_comment_from past depth i rest ≡ past) ⊎ (i < skip_comment_from past depth i rest)
unfolding skip_comment_from
skip_comment_from-lt past depth i [] = inl refl
skip_comment_from-lt past depth i (a ∷ []) = inl refl
skip_comment_from-lt past depth i (a ∷ b ∷ rest) = elim (Bool-cases ((a == slash) && (b == star))) [
  | inl opens ↦
      rw (opens, skip_comment_from)
        (elim (skip_comment_from-lt past (depth + 1) (i + 2) rest) [
          | inl e ↦ inl e
          | inr h ↦ inr (omega (arith, h))
        ])
  | inr plain ↦
      rw (plain, skip_comment_from)
        (elim (Bool-cases ((a == star) && (b == slash))) [
          | inl closes ↦
              rw (closes, skip_comment_from)
                (elim (Bool-cases ((depth - 1) == 0)) [
                  | inl last ↦ rw (last, skip_comment_from) (inr (omega arith))
                  | inr inner ↦
                      rw (inner, skip_comment_from)
                        (elim (skip_comment_from-lt past (depth - 1) (i + 2) rest) [
                          | inl e ↦ inl e
                          | inr h ↦ inr (omega (arith, h))
                        ])
                ])
          | inr neither ↦
              rw (neither, skip_comment_from)
                (elim (skip_comment_from-lt past depth (i + 1) (b ∷ rest)) [
                  | inl e ↦ inl e
                  | inr h ↦ inr (omega (arith, h))
                ])
        ])
]

skip_line_from-le : (i : ℕ) (rest : Bytes) → i ≤ skip_line_from i rest
unfolding skip_line_from
skip_line_from-le i [] = omega arith
skip_line_from-le i (b ∷ rest) = elim (Bool-cases (is_line_end b)) [
  | inl ends ↦ rw (ends, skip_line_from) (omega arith)
  | inr inside ↦ rw (inside, skip_line_from) (omega (arith, skip_line_from-le (i + 1) rest))
]

module _ (bytes : Bytes) (start : ℕ) where
  pub skip_quoted-lt : (delimiter : ℕ) → start < skip_quoted bytes delimiter start
  unfolding skip_quoted
  skip_quoted-lt delimiter =
      omega (arith, skip_quoted_from-le delimiter (start + 1) (drop (start + 1) bytes))

  pub skip_block_comment-lt : start < length bytes → start < skip_block_comment bytes start
  unfolding skip_block_comment
  skip_block_comment-lt h =
      elim (skip_comment_from-lt (length bytes) 1 (start + 2) (drop (start + 2) bytes)) [
        | inl e ↦ omega (arith, e, h)
        | inr more ↦ omega (arith, more)
      ]

  pub skip_line_comment-lt : start < skip_line_comment bytes start
  unfolding skip_line_comment
  skip_line_comment-lt = omega (arith, skip_line_from-le (start + 2) (drop (start + 2) bytes))
