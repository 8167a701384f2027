-- ===== src/Lexer/Templates/Ends.antt =====
-- The scan of a template has fuel enough.
use typenative.Prelude.{
  ℕ, zero, suc, ◌+◌, ◌-◌, ◌<◌, List, [], ◌∷◌, ◌++◌, ◌≡◌, ◌≢◌, inl, inr, refl, arith, length, ◌==◌,
  Bool-cases,
}
use typenative.Lexer.Tokens.{Range}
use typenative.Lexer.Scan.{Bytes, skip_quoted, skip_block_comment, skip_line_comment}
use typenative.Lexer.Templates.{
  min, out_of_fuel, TemplateStep, past_end, escape, closing, opening, other, template_step,
  InterpolationStep, quoted, line_comment, block_comment, template, left, right, interpolation_step,
  scan_template_from, scan_interpolation_from, scan_template,
}
use typenative.Lexer.Templates.Steps.{skip_quoted-lt, skip_block_comment-lt, skip_line_comment-lt}
use typenative.Lexer.Templates.Sound.{Found-bounds, in_text, inside_text, Scan-cases, scans-Sound}

module _ (bytes : Bytes) where
  -- On this fuel the loops end from each index near enough to the end of the text.
  abbrev TemplateEnds : ℕ → Type 0
  TemplateEnds fuel =
      (index : ℕ) (found : List Range)
      → length bytes - index < fuel
      → scan_template_from bytes fuel index found ≢ out_of_fuel

  abbrev InterpolationEnds : ℕ → Type 0
  InterpolationEnds fuel =
      (index depth : ℕ)
      → length bytes - index < fuel
      → scan_interpolation_from bytes fuel index depth ≢ out_of_fuel

  -- the next index is nearer to the end
  closer :
      (fuel i j : ℕ)
      → i < length bytes
      → i < j
      → length bytes - i < suc fuel
      → length bytes - j < fuel
  closer fuel i j inside moved h = omega (arith, inside, moved, h)

  min-lt : (index : ℕ) → index < length bytes → index < min (index + 2) (length bytes)
  min-lt index h = ground arith

  module _ (fuel : ℕ) (templates : TemplateEnds fuel)
      (interpolations : InterpolationEnds fuel) where
    template_round :
        (index : ℕ) (found : List Range)
        → length bytes - index < suc fuel
        → (s : TemplateStep) → template_step bytes index ≡ s
        → index < length bytes
        → scan_template_from bytes (suc fuel) index found ≢ out_of_fuel
    unfolding scan_template_from
    template_round index found h past_end p inside e = absurd (cc (rw (p, scan_template_from) at e))
    template_round index found h escape p inside e =
        templates (min (index + 2) (length bytes)) found
          (closer fuel index (min (index + 2) (length bytes)) inside (min-lt index inside) h)
          (rw (p, scan_template_from) at e)
    template_round index found h closing p inside e = absurd (cc (rw (p, scan_template_from) at e))
    template_round index found h opening p inside e =
        elim (Scan-cases bytes (scan_interpolation_from bytes fuel (index + 2) 1)) [
          | inl (past, inner) ↦
              templates (past + 1) (found ++ record { first = index + 2; past = past } ∷ [])
                (closer fuel index (past + 1) inside
                  (omega (arith, ((scans-Sound bytes fuel).1 (index + 2) 1 past inner).0)) h)
                (rw (p, scan_template_from, inner) at e)
          | inr (inl inner) ↦
              interpolations (index + 2) 1 (closer fuel index (index + 2) inside (omega arith) h)
                inner
          | inr (inr (x, inner)) ↦ absurd (cc (rw (p, scan_template_from, inner) at e))
        ]
    template_round index found h other p inside e =
        templates (index + 1) found (closer fuel index (index + 1) inside (omega arith) h)
          (rw (p, scan_template_from) at e)

    interpolation_round :
        (index depth : ℕ)
        → length bytes - index < suc fuel
        → (s : InterpolationStep) → interpolation_step bytes index ≡ s
        → index < length bytes
        → scan_interpolation_from bytes (suc fuel) index depth ≢ out_of_fuel
    unfolding scan_template_from
    interpolation_round index depth h past_end p inside e =
        absurd (cc (rw (p, scan_interpolation_from) at e))
    interpolation_round index depth h (quoted b) p inside e =
        interpolations (skip_quoted bytes b index) depth
          (closer fuel index (skip_quoted bytes b index) inside (skip_quoted-lt bytes index b) h)
          (rw (p, scan_interpolation_from) at e)
    interpolation_round index depth h line_comment p inside e =
        interpolations (skip_line_comment bytes index) depth
          (closer fuel index (skip_line_comment bytes index) inside
            (skip_line_comment-lt bytes index) h)
          (rw (p, scan_interpolation_from) at e)
    interpolation_round index depth h block_comment p inside e =
        interpolations (skip_block_comment bytes index) depth
          (closer fuel index (skip_block_comment bytes index) inside
            (skip_block_comment-lt bytes index inside) h)
          (rw (p, scan_interpolation_from) at e)
    interpolation_round index depth h template p inside e =
        elim (Scan-cases bytes (scan_template_from bytes fuel (index + 1) [])) [
          | inl (scan, inner) ↦
              let t =
                (scans-Sound bytes fuel).0 (index + 1) (index + 1) [] scan (omega arith) inner in
              interpolations scan.past depth
                (closer fuel index scan.past inside
                  (omega (
                    arith,
                    t.positive,
                    Found-bounds bytes (index + 1) scan.interpolations (scan.past - 1) t.found,
                  ))
                  h)
                (rw (p, scan_interpolation_from, inner) at e)
          | inr (inl inner) ↦
              templates (index + 1) [] (closer fuel index (index + 1) inside (omega arith) h) inner
          | inr (inr (x, inner)) ↦ absurd (cc (rw (p, scan_interpolation_from, inner) at e))
        ]
    interpolation_round index depth h left p inside e =
        interpolations (index + 1) (depth + 1)
          (closer fuel index (index + 1) inside (omega arith) h)
          (rw (p, scan_interpolation_from) at e)
    interpolation_round index depth h right p inside e = elim (Bool-cases ((depth - 1) == 0)) [
      | inl last ↦ absurd (cc (rw (p, scan_interpolation_from, last) at e))
      | inr inner ↦
          interpolations (index + 1) (depth - 1)
            (closer fuel index (index + 1) inside (omega arith) h)
            (rw (p, scan_interpolation_from, inner) at e)
    ]
    interpolation_round index depth h other p inside e =
        interpolations (index + 1) depth (closer fuel index (index + 1) inside (omega arith) h)
          (rw (p, scan_interpolation_from) at e)

  scans-Ends : (fuel : ℕ) → TemplateEnds fuel × InterpolationEnds fuel
  unfolding scan_template_from
  scans-Ends zero = (λ index found h e. omega (arith, h), λ index depth h e. omega (arith, h))
  scans-Ends (suc fuel) =
      let (templates, interpolations) = scans-Ends fuel in
      (
        λ index found h e. elim (in_text bytes index (template_step bytes index) refl) [
          | inl q ↦ absurd (cc (rw (q, scan_template_from) at e))
          | inr inside ↦
              template_round fuel templates interpolations index found h (template_step bytes index)
                refl inside e
        ],
        λ index depth h e. elim (inside_text bytes index (interpolation_step bytes index) refl) [
          | inl q ↦ absurd (cc (rw (q, scan_interpolation_from) at e))
          | inr inside ↦
              interpolation_round fuel templates interpolations index depth h
                (interpolation_step bytes index) refl inside e
        ],
      )

  -- The scan of a template does not run out of fuel.
  pub scan_template_ends : (start : ℕ) → scan_template bytes start ≢ out_of_fuel
  unfolding scan_template
  scan_template_ends start = (scans-Ends (length bytes + 2)).0 (start + 1) [] (omega arith)
