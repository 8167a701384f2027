-- ===== src/Lexer/Templates/Sound.antt =====
-- What a scan of a template finds: interpolations in their delimiters, one after the other, and the closing backtick.
use typenative.Prelude.{
  ℕ, zero, suc, ◌+◌, ◌-◌, ◌≤◌, ◌<◌, List, [], ◌∷◌, ◌++◌, some, ◌≡◌, ◌⊎◌, inl, inr, refl, sym, ◌∙◌,
  arith, length, get_elem?, ◌==◌, Bool-cases,
}
use mathlib.Core.Path.{subst}
use typenative.Lexer.Tokens.{LexError, Range}
use typenative.Lexer.Scan.{
  Bytes, dollar, backtick, left_brace, right_brace, skip_quoted, skip_block_comment,
  skip_line_comment,
}
use typenative.Lexer.Templates.{
  min, TemplateScan, Scan, ok, failed, out_of_fuel, TemplateStep, past_end, escape, closing,
  opening, other, template_step, InterpolationStep, quoted, line_comment, block_comment, template,
  left, right, interpolation_step, scan_template_from, scan_interpolation_from, scan_template,
}
use typenative.Lexer.Templates.Steps.{
  get_elem?-lt, closing-backtick, opening-dollar, opening-left_brace, is_at-get_elem?,
  right-right_brace, template_step-lt, interpolation_step-lt, skip_quoted-lt, skip_block_comment-lt,
  skip_line_comment-lt,
}

module _ (bytes : Bytes) where
  -- `${` stands before the range, not before the bound, and `}` at its end.
  pub record IsInterpolation (low : ℕ) (r : Range) : Type 0 where
    pub after : low + 2 ≤ r.first
    pub sign : get_elem? bytes (r.first - 2) ≡ some dollar
    pub begins : get_elem? bytes (r.first - 1) ≡ some left_brace
    pub ordered : r.first ≤ r.past
    pub ends : get_elem? bytes r.past ≡ some right_brace

  -- The ranges follow each other from the one bound to the other.
  abbrev pub Found : ℕ → List Range → ℕ → Type 0
  Found low [] high = low ≤ high
  Found low (r ∷ rs) high = IsInterpolation low r × Found (r.past + 1) rs high

  -- The ranges stand from this bound on, before a closing backtick.
  pub record IsTemplate (low : ℕ) (scan : TemplateScan) : Type 0 where
    pub positive : 1 ≤ scan.past
    pub closed : get_elem? bytes (scan.past - 1) ≡ some backtick
    pub found : Found low scan.interpolations (scan.past - 1)

  Found-le : (low : ℕ) (rs : List Range) (i j : ℕ) → i ≤ j → Found low rs i → Found low rs j
  Found-le low [] i j h f = omega (arith, h, f)
  Found-le low (r ∷ rs) i j h (x, f) = (x, Found-le (r.past + 1) rs i j h f)

  Found-push :
      (low : ℕ) (rs : List Range) (i : ℕ) (r : Range)
      → Found low rs i
      → IsInterpolation i r
      → Found low (rs ++ r ∷ []) (r.past + 1)
  Found-push low [] i r f x = (
    record {
      after = omega (arith, x.after, f);
      sign = x.sign;
      begins = x.begins;
      ordered = x.ordered;
      ends = x.ends;
    },
    omega arith,
  )
  Found-push low (q ∷ rs) i r (x, f) k = (x, Found-push (q.past + 1) rs i r f k)

  pub Found-bounds : (low : ℕ) (rs : List Range) (i : ℕ) → Found low rs i → low ≤ i
  Found-bounds low [] i f = f
  Found-bounds low (r ∷ rs) i (x, f) =
      omega (arith, Found-bounds (r.past + 1) rs i f, x.after, x.ordered)

  pub in_text :
      (index : ℕ) (s : TemplateStep)
      → template_step bytes index ≡ s
      → (s ≡ past_end) ⊎ (index < length bytes)
  in_text index s e = elim (template_step-lt bytes index) [
    | inl p ↦ inl (sym e ∙ p)
    | inr h ↦ inr h
  ]

  index_back : (index : ℕ) → index ≡ index + 1 - 1
  index_back index = omega arith

  two_back : (index : ℕ) → index ≡ index + 2 - 2
  two_back index = omega arith

  one_back : (index : ℕ) → index + 1 ≡ index + 2 - 1
  one_back index = omega arith

  min-le : (index : ℕ) → index < length bytes → index ≤ min (index + 2) (length bytes)
  min-le index h = ground arith

  pub inside_text :
      (index : ℕ) (s : InterpolationStep)
      → interpolation_step bytes index ≡ s
      → (s ≡ past_end) ⊎ (index < length bytes)
  inside_text index s e = elim (interpolation_step-lt bytes index) [
    | inl p ↦ inl (sym e ∙ p)
    | inr h ↦ inr h
  ]

  -- the end of an interpolation, from this index on
  abbrev pub Reaches : ℕ → ℕ → Type 0
  Reaches index past = (index ≤ past) × (get_elem? bytes past ≡ some right_brace)

  Reaches-lt : (i j past : ℕ) → i < j → Reaches j past → Reaches i past
  Reaches-lt i j past h (le, brace) = (omega (arith, h, le), brace)

  pub Scan-cases {ℓ} :
      {A : Type ℓ} (s : Scan A)
      → ((a : A) × (s ≡ ok a)) ⊎ ((s ≡ out_of_fuel) ⊎ ((x : LexError) × (s ≡ failed x)))
  Scan-cases (ok a) = inl (a, refl)
  Scan-cases out_of_fuel = inr (inl refl)
  Scan-cases (failed x) = inr (inr (x, refl))

  -- What the two loops give on this fuel.
  abbrev pub TemplateSound : ℕ → Type 0
  TemplateSound fuel =
      (index low : ℕ) (found : List Range) (scan : TemplateScan)
      → Found low found index
      → scan_template_from bytes fuel index found ≡ ok scan
      → IsTemplate low scan

  abbrev pub InterpolationSound : ℕ → Type 0
  InterpolationSound fuel =
      (index depth past : ℕ)
      → scan_interpolation_from bytes fuel index depth ≡ ok past
      → Reaches index past

  module _ (fuel : ℕ) where
    IsTemplate-round :
        (again : TemplateSound fuel) (nested : InterpolationSound fuel) (index low : ℕ)
        (found : List Range) (scan : TemplateScan)
        → Found low found index
        → (s : TemplateStep) → template_step bytes index ≡ s
        → scan_template_from bytes (suc fuel) index found ≡ ok scan
        → IsTemplate low scan
    unfolding scan_template_from
    IsTemplate-round again nested index low found scan f past_end p e =
        absurd (cc (rw (p, scan_template_from) at e))
    IsTemplate-round again nested index low found scan f escape p e =
        elim (in_text index escape p) [
          | inl q ↦ absurd (cc q)
          | inr h ↦
              again (min (index + 2) (length bytes)) low found scan
                (Found-le low found index (min (index + 2) (length bytes)) (min-le index h) f)
                (rw (p, scan_template_from) at e)
        ]
    IsTemplate-round again nested index low found scan f closing p e =
        let q : record { past = index + 1; interpolations = found } ≡ scan =
          cc (rw (p, scan_template_from) at e) in
        subst (IsTemplate low) q (record {
          positive = omega arith;
          closed =
              subst (λ i. get_elem? bytes i ≡ some backtick) (index_back index)
                (closing-backtick bytes index p);
          found = subst (Found low found) (index_back index) f;
        })
    IsTemplate-round again nested index low found scan f opening p e =
        elim (Scan-cases (scan_interpolation_from bytes fuel (index + 2) 1)) [
          | inl (past, inner) ↦
              let (le, brace) = nested (index + 2) 1 past inner in
              again (past + 1) low (found ++ record { first = index + 2; past = past } ∷ []) scan
                (Found-push low found index (record { first = index + 2; past = past }) f
                  (record {
                    after = omega arith;
                    sign =
                        subst (λ i. get_elem? bytes i ≡ some dollar) (two_back index)
                          (opening-dollar bytes index p);
                    begins =
                        subst (λ i. get_elem? bytes i ≡ some left_brace) (one_back index)
                          (is_at-get_elem? bytes (index + 1) left_brace
                            (opening-left_brace bytes index p));
                    ordered = le;
                    ends = brace;
                  }))
                (rw (p, scan_template_from, inner) at e)
          | inr (inl inner) ↦ absurd (cc (rw (p, scan_template_from, inner) at e))
          | inr (inr (x, inner)) ↦ absurd (cc (rw (p, scan_template_from, inner) at e))
        ]
    IsTemplate-round again nested index low found scan f other p e =
        again (index + 1) low found scan (Found-le low found index (index + 1) (omega arith) f)
          (rw (p, scan_template_from) at e)

    Reaches-round :
        (nested : TemplateSound fuel) (again : InterpolationSound fuel) (index depth past : ℕ)
        (s : InterpolationStep)
        → interpolation_step bytes index ≡ s
        → scan_interpolation_from bytes (suc fuel) index depth ≡ ok past
        → Reaches index past
    unfolding scan_template_from
    Reaches-round nested again index depth past past_end p e =
        absurd (cc (rw (p, scan_interpolation_from) at e))
    Reaches-round nested again index depth past (quoted b) p e =
        Reaches-lt index (skip_quoted bytes b index) past (skip_quoted-lt bytes index b)
          (again (skip_quoted bytes b index) depth past (rw (p, scan_interpolation_from) at e))
    Reaches-round nested again index depth past line_comment p e =
        Reaches-lt index (skip_line_comment bytes index) past (skip_line_comment-lt bytes index)
          (again (skip_line_comment bytes index) depth past (rw (p, scan_interpolation_from) at e))
    Reaches-round nested again index depth past block_comment p e =
        elim (inside_text index block_comment p) [
          | inl q ↦ absurd (cc q)
          | inr h ↦
              Reaches-lt index (skip_block_comment bytes index) past
                (skip_block_comment-lt bytes index h)
                (again (skip_block_comment bytes index) depth past
                  (rw (p, scan_interpolation_from) at e))
        ]
    Reaches-round nested again index depth past template p e =
        elim (Scan-cases (scan_template_from bytes fuel (index + 1) [])) [
          | inl (scan, inner) ↦
              let t = nested (index + 1) (index + 1) [] scan (omega arith) inner in
              Reaches-lt index scan.past past
                (omega (
                  arith,
                  t.positive,
                  Found-bounds (index + 1) scan.interpolations (scan.past - 1) t.found,
                ))
                (again scan.past depth past (rw (p, scan_interpolation_from, inner) at e))
          | inr (inl inner) ↦ absurd (cc (rw (p, scan_interpolation_from, inner) at e))
          | inr (inr (x, inner)) ↦ absurd (cc (rw (p, scan_interpolation_from, inner) at e))
        ]
    Reaches-round nested again index depth past left p e =
        Reaches-lt index (index + 1) past (omega arith)
          (again (index + 1) (depth + 1) past (rw (p, scan_interpolation_from) at e))
    Reaches-round nested again index depth past right p e = elim (Bool-cases ((depth - 1) == 0)) [
      | inl last ↦
          let q : index ≡ past = cc (rw (p, scan_interpolation_from, last) at e) in
          (
            omega (arith, q),
            subst (λ i. get_elem? bytes i ≡ some right_brace) q (right-right_brace bytes index p),
          )
      | inr inner ↦
          Reaches-lt index (index + 1) past (omega arith)
            (again (index + 1) (depth - 1) past (rw (p, scan_interpolation_from, inner) at e))
    ]
    Reaches-round nested again index depth past other p e =
        Reaches-lt index (index + 1) past (omega arith)
          (again (index + 1) depth past (rw (p, scan_interpolation_from) at e))

  pub scans-Sound : (fuel : ℕ) → TemplateSound fuel × InterpolationSound fuel
  unfolding scan_template_from
  scans-Sound zero =
      (λ index low found scan f e. absurd (cc e), λ index depth past e. absurd (cc e))
  scans-Sound (suc fuel) =
      let (templates, interpolations) = scans-Sound fuel in
      (
        λ index low found scan f e.
            IsTemplate-round fuel templates interpolations index low found scan f
              (template_step bytes index) refl e,
        λ index depth past e.
            Reaches-round fuel templates interpolations index depth past
              (interpolation_step bytes index) refl e,
      )

  -- The interpolations stand in their delimiters, one after the other, between the backtick at the start and the one before the
  -- end of the scan, which is inside the text.
  pub scan_template-IsTemplate :
      (start : ℕ) (scan : TemplateScan)
      → scan_template bytes start ≡ ok scan
      → IsTemplate (start + 1) scan × (scan.past ≤ length bytes)
  unfolding scan_template
  scan_template-IsTemplate start scan e =
      let t = (scans-Sound (length bytes + 2)).0 (start + 1) (start + 1) [] scan (omega arith) e in
      (t, omega (arith, get_elem?-lt bytes (scan.past - 1) backtick t.closed, t.positive))
