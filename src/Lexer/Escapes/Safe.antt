-- ===== src/Lexer/Escapes/Safe.antt =====
-- The check of escapes ends, slices in range, and reports issues inside the literal.
use typenative.Prelude.{
  ℕ, zero, suc, ◌+◌, ◌-◌, ◌≤◌, ◌<◌, Bool, true, false, ◌&&◌, ◌||◌, not, [], ◌∷◌, Option, none, some,
  ◌≡◌, ◌≢◌, ◌⊎◌, inl, inr, refl, arith, length, take, drop, get_elem?, ◌==◌, ==_iff, ltb,
  Bool-cases, Option-cases,
}
use mathlib.Core.Path.{subst}
use typenative.Diagnostics.{codes, is_condition_name, is_empty}
use typenative.Lexer.Scan.{Bytes, dollar, backslash, backtick, left_brace, right_brace}
use typenative.Lexer.Templates.{is_at}
use typenative.Lexer.Templates.Steps.{get_elem?-lt, is_at-get_elem?}
use typenative.Lexer.Escapes.{
  Checked, fine, issue, panicked, stuck, EscapeStep, to, invalid, out_of_range, is_scalar,
  from_str_radix, position, is_simple_escape, is_hex_byte, unicode_digits, unicode_end,
  unicode_escape, escape_byte, escape_step, escapes_from, validate_escapes,
}

-- A check that neither panics nor stops early, and whose issue starts in a literal of this length, under a valid condition.
abbrev pub Safe : ℕ → Checked → Type 0
Safe size fine = Unit
Safe size (issue i) = (i.offset ≤ size) × (is_condition_name (codes i.id) ≡ true)
Safe size panicked = ⊥
Safe size stuck = ⊥

-- A check that neither panics nor stops early, and whose issue starts at a backslash past the opening
-- delimiter and before the closing one at this index, and ends in the literal, under a valid condition.
abbrev pub Points : Bytes → ℕ → Checked → Type 0
Points text past fine = Unit
Points text past (issue i) =
    (1 ≤ i.offset)
    × (i.offset < past)
    × (get_elem? text i.offset ≡ some backslash)
    × (i.offset + i.size ≤ past + 1)
    × (is_condition_name (codes i.id) ≡ true)
Points text past panicked = ⊥
Points text past stuck = ⊥

pub Safe-Points : (text : Bytes) (past : ℕ) (c : Checked) → Points text past c → Safe past c
Safe-Points text past fine h = tt
Safe-Points text past (issue i) (first, inside, at, size, name) = (omega (arith, inside), name)
Safe-Points text past panicked h = h
Safe-Points text past stuck h = h

and_right : (a b : Bool) → (a && b) ≡ true → b ≡ true
and_right true b h = h
and_right false b h = absurd (cc h)

pub Safe-le : (a b : ℕ) (c : Checked) → a ≤ b → Safe a c → Safe b c
Safe-le a b fine le h = tt
Safe-le a b (issue i) le (h, v) = (omega (arith, h, le), v)
Safe-le a b panicked le h = h
Safe-le a b stuck le h = h

-- The next index of a step is past this one, and an issue ends at the delimiter at the latest.
abbrev Moves : ℕ → ℕ → EscapeStep → Type 0
Moves past index (to next) = index < next
Moves past index (invalid size) = index + size ≤ past + 1
Moves past index out_of_range = ⊥

position-bounds : (b : ℕ) (bytes : Bytes) (i : ℕ) → position b bytes ≡ some i → i < length bytes
unfolding position
position-bounds b [] i e = absurd (cc)
position-bounds b (a ∷ bytes) i e = elim (Bool-cases (a == b)) [
  | inl same ↦ ground arith
  | inr other ↦ elim (Option-cases (position b bytes)) [
    | inl n ↦ ground arith
    | inr (j, f) ↦ let below = position-bounds b bytes j f in ground arith
  ]
]

length-take_le : (n : ℕ) (bytes : Bytes) → length (take n bytes) ≤ n
length-take_le zero bytes = omega arith
length-take_le (suc n) [] = omega arith
length-take_le (suc n) (b ∷ bytes) = omega (arith, length-take_le n bytes)

module _ (bytes : Bytes) (past escape_start : ℕ) where
  module _ (digits_start : ℕ) (later : escape_start < digits_start)
      (within : digits_start ≤ past) where
    unicode_digits-Moves :
        (digits : Bytes)
        → digits_start + length digits ≤ past
        → Moves past escape_start (unicode_digits escape_start digits_start digits)
    unicode_digits-Moves digits h =
        elim (Bool-cases
          (is_empty digits || ltb 6 (length digits) || not (is_scalar (from_str_radix digits)))) [
            | inl bad ↦ rw bad (omega (arith, h, later))
            | inr good ↦ rw good (omega (arith, later))
          ]

    unicode_end-Moves :
        (brace : Option ℕ)
        → ((i : ℕ) → brace ≡ some i → digits_start + i ≤ past)
        → Moves past escape_start (unicode_end bytes past escape_start digits_start brace)
    unicode_end-Moves none h = omega (arith, later, within)
    unicode_end-Moves (some relative_end) h =
        unicode_digits-Moves (take relative_end (drop digits_start bytes)) (
          omega (arith, h relative_end refl, length-take_le relative_end (drop digits_start bytes)))

    unicode_escape-Moves :
        Moves past escape_start (unicode_escape bytes past escape_start digits_start)
    unicode_escape-Moves = elim (Bool-cases (ltb past digits_start)) [
      | inl beyond ↦ absurd (ground arith)
      | inr inside ↦
          let digits = take (past - digits_start) (drop digits_start bytes) in
          rw inside (
            unicode_end-Moves (position right_brace digits) (λ i e.
              let below = position-bounds right_brace digits i e in
              let size = length-take_le (past - digits_start) (drop digits_start bytes) in
              omega (arith, below, size, within)))
    ]

  -- a brace after the escape's letter is not the end of the literal
  abbrev Closed : Type 0
  Closed = is_at bytes (escape_start + 1 + 1) left_brace ≡ true → escape_start + 1 + 2 ≤ past

  escape_byte-Moves :
      (template : Bool) (byte : ℕ)
      → escape_start < past
      → Closed
      → Moves past escape_start (escape_byte bytes template past escape_start byte)
  escape_byte-Moves template byte before h = elim (Bool-cases (is_simple_escape byte)) [
    | inl c ↦ rw c (omega arith)
    | inr d ↦ rw d (elim (Bool-cases ((byte == backtick) && template)) [
      | inl c ↦ rw c (omega arith)
      | inr d ↦
          rw d
            (elim (Bool-cases
              ((byte == dollar) && template && is_at bytes (escape_start + 1 + 1) left_brace)) [
                | inl c ↦ rw c (omega arith)
                | inr d ↦ rw d (elim (Bool-cases (byte == 120)) [
                  | inl c ↦
                      rw c
                        (elim (Bool-cases (
                          is_hex_byte (get_elem? bytes (escape_start + 1 + 1))
                          && is_hex_byte (get_elem? bytes (escape_start + 1 + 2)))) [
                            | inl c ↦ rw c (omega arith)
                            | inr d ↦ rw d (ground arith)
                          ])
                  | inr d ↦
                      rw d
                        (elim (Bool-cases
                          ((byte == 117) && is_at bytes (escape_start + 1 + 1) left_brace)) [
                            | inl c ↦ rw c (
                                unicode_escape-Moves (escape_start + 1 + 2) (omega arith) (
                                  h (
                                    and_right (byte == 117)
                                      (is_at bytes (escape_start + 1 + 1) left_brace) c)))
                            | inr d ↦ rw d (omega (arith, before))
                          ])
                ])
              ])
    ])
  ]

  escape_step-Moves :
      (template : Bool)
      → escape_start < past
      → Closed
      → Moves past escape_start (escape_step bytes template past escape_start)
  unfolding escape_step
  escape_step-Moves template before h = elim (Option-cases (get_elem? bytes (escape_start + 1))) [
    | inl n ↦ rw (n, escape_step) (omega (arith, before))
    | inr (byte, e) ↦ rw (e, escape_step) (escape_byte-Moves template byte before h)
  ]

Moves-cases :
    (past index : ℕ) (s : EscapeStep)
    → Moves past index s
    → ((next : ℕ) × (s ≡ to next) × (index < next))
      ⊎ ((size : ℕ) × (s ≡ invalid size) × (index + size ≤ past + 1))
Moves-cases past index (to next) h = inl (next, refl, h)
Moves-cases past index (invalid size) h = inr (size, refl, h)
Moves-cases past index out_of_range h = absurd h

escape_name : is_condition_name (codes "SYNTAX_INVALID_ESCAPE") ≡ true
unfolding is_condition_name codes
escape_name = refl

module _ (bytes : Bytes) (template : Bool) (past : ℕ) (last : length bytes ≡ suc past)
    (safe : get_elem? bytes past ≢ some left_brace) where
  closed : (index : ℕ) → Closed bytes past index
  closed index at =
      let e = is_at-get_elem? bytes (index + 1 + 1) left_brace at in
      let inside = get_elem?-lt bytes (index + 1 + 1) left_brace e in
      elim (Bool-cases ((index + 1 + 1) == past)) [
        | inl same ↦ absurd (
            safe (
              subst (λ i. get_elem? bytes i ≡ some left_brace)
                ((==_iff (index + 1 + 1) past).0 same) e))
        | inr other ↦ ground arith
      ]

  nearer : (fuel i j : ℕ) → ltb i past ≡ true → i < j → past - i < suc fuel → past - j < fuel
  nearer fuel i j inside moved h = ground arith

  escapes_from-Points :
      (fuel index : ℕ)
      → 1 ≤ index
      → past - index < fuel
      → Points bytes past (escapes_from bytes template past fuel index)
  unfolding escapes_from
  escapes_from-Points zero index one h = omega (arith, h)
  escapes_from-Points (suc fuel) index one h = elim (Bool-cases (ltb index past)) [
    | inr ends ↦ rw (ends, escapes_from) tt
    | inl inside ↦
        rw (inside, escapes_from)
          (elim (Bool-cases (is_at bytes index backslash)) [
            | inr plain ↦
                rw (plain, escapes_from)
                  (escapes_from-Points fuel (index + 1) (omega arith)
                    (nearer fuel index (index + 1) inside (omega arith) h))
            | inl escaped ↦
                elim (Moves-cases past index (escape_step bytes template past index)
                  (escape_step-Moves bytes past index template (ground arith) (closed index))) [
                    | inl (next, e, moved) ↦
                        rw (escaped, e, escapes_from)
                          (escapes_from-Points fuel next (omega (arith, one, moved))
                            (nearer fuel index next inside moved h))
                    | inr (size, e, bounded) ↦
                        rw (escaped, e, escapes_from)
                          (
                            one,
                            ground arith,
                            is_at-get_elem? bytes index backslash escaped,
                            bounded,
                            escape_name,
                          )
                  ]
          ])
  ]

-- In a literal that does not end in `{`, an issue of the check of escapes starts at a backslash
-- between the delimiters and ends in the literal.
pub validate_escapes-Points :
    (text : Bytes) (template : Bool) (past : ℕ)
    → length text ≡ suc past
    → get_elem? text past ≢ some left_brace
    → Points text past (validate_escapes text template)
unfolding validate_escapes
validate_escapes-Points text template past last safe =
    let q : past ≡ length text - 1 = omega (arith, last) in
    subst (λ p. Points text past (escapes_from text template p (length text + 1) 1)) q
      (escapes_from-Points text template past last safe (length text + 1) 1 (omega arith)
        (omega (arith, last)))

-- The check of the escapes in a literal that does not end in `{` accepts it or reports an issue that starts in it.
pub validate_escapes-Safe :
    (text : Bytes) (template : Bool) (past : ℕ)
    → length text ≡ suc past
    → get_elem? text past ≢ some left_brace
    → Safe past (validate_escapes text template)
validate_escapes-Safe text template past last safe =
    Safe-Points text past (validate_escapes text template)
      (validate_escapes-Points text template past last safe)
