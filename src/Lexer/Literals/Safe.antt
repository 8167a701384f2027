-- ===== src/Lexer/Literals/Safe.antt =====
-- The checks of numeric literals report issues inside the literal.
use typenative.Prelude.{
  ℕ, ◌+◌, ◌≤◌, Bool, true, ◌&&◌, ◌||◌, not, [], ◌∷◌, Option, none, some, ◌≡◌, inl, inr, refl, arith,
  length, length-drop, take, drop, ◌==◌, Bool-cases, Option-cases,
}
use typenative.Diagnostics.{codes, is_condition_name, is_empty}
use typenative.Lexer.Scan.{Bytes}
use typenative.Lexer.Literals.{
  underscore, or_zero, starts_with, find_from, contains, ends_with_byte, base_of, run, digit_valid,
  digits_size, separators_wrong, is_one_of, suffixes, float_suffix, validate_integer,
  validate_float,
}
use typenative.Lexer.Escapes.Safe.{Safe}
use typenative.Lexer.Source.{checked}

starts_with-le :
    (text prefix : Bytes) → starts_with text prefix ≡ true → length prefix ≤ length text
unfolding starts_with
starts_with-le text [] h = omega arith
starts_with-le [] (b ∷ bs) h = absurd (cc h)
starts_with-le (a ∷ text) (b ∷ bs) h = elim (Bool-cases (a == b)) [
  | inl same ↦ omega (arith, starts_with-le text bs (rw same at h))
  | inr other ↦ absurd (cc (rw other at h))
]

find_from-le :
    (index : ℕ) (pattern text : Bytes) (i : ℕ)
    → find_from index pattern text ≡ some i
    → i ≤ index + length text
unfolding find_from
find_from-le index pattern [] i e = elim (Bool-cases (is_empty pattern)) [
  | inl empty ↦ let q : index ≡ i = cc (rw (empty, find_from) at e) in omega (arith, q)
  | inr full ↦ absurd (cc (rw (full, find_from) at e))
]
find_from-le index pattern (a ∷ text) i e = elim (Bool-cases (starts_with (a ∷ text) pattern)) [
  | inl here ↦ let q : index ≡ i = cc (rw (here, find_from) at e) in omega (arith, q)
  | inr later ↦ omega (arith, find_from-le (index + 1) pattern text i (rw (later, find_from) at e))
]

run-le : (test : ℕ → Bool) (text : Bytes) → run test text ≤ length text
unfolding run
run-le test [] = omega arith
run-le test (b ∷ bs) = elim (Bool-cases (test b)) [
  | inl passes ↦ rw (passes, run) (omega (arith, run-le test bs))
  | inr fails ↦ rw (fails, run) (omega arith)
]

separator_name : is_condition_name (codes "SYNTAX_INVALID_NUMERIC_SEPARATOR") ≡ true
unfolding is_condition_name codes
separator_name = refl

integer_name : is_condition_name (codes "SYNTAX_INVALID_INTEGER_SUFFIX") ≡ true
unfolding is_condition_name codes
integer_name = refl

float_name : is_condition_name (codes "SYNTAX_INVALID_FLOAT_SUFFIX") ≡ true
unfolding is_condition_name codes
float_name = refl

two_bytes :
    (text a b : Bytes)
    → length a ≡ 2
    → length b ≡ 2
    → (starts_with text a || starts_with text b) ≡ true
    → 2 ≤ length text
two_bytes text a b la lb h = elim (Bool-cases (starts_with text a)) [
  | inl x ↦ omega (arith, starts_with-le text a x, la)
  | inr n ↦ omega (arith, starts_with-le text b (rw n at h), lb)
]

base_of-le : (text : Bytes) → (base_of text).1 ≤ length text
unfolding base_of codes
base_of-le text =
    elim (Bool-cases (starts_with text (codes "0b") || starts_with text (codes "0B"))) [
      | inl c ↦ rw (c, base_of) (two_bytes text (codes "0b") (codes "0B") refl refl c)
      | inr d ↦
          rw (d, base_of)
            (elim (Bool-cases (starts_with text (codes "0o") || starts_with text (codes "0O"))) [
              | inl c ↦ rw (c, base_of) (two_bytes text (codes "0o") (codes "0O") refl refl c)
              | inr d ↦
                  rw (d, base_of)
                    (elim (Bool-cases
                      (starts_with text (codes "0x") || starts_with text (codes "0X"))) [
                        | inl c ↦
                            rw (c, base_of) (two_bytes text (codes "0x") (codes "0X") refl refl c)
                        | inr d ↦ rw (d, base_of) (omega arith)
                      ])
            ])
    ]

digits_size-le : (text : Bytes) → (base_of text).1 + digits_size text ≤ length text
unfolding digits_size
digits_size-le text = omega (
  arith,
  base_of-le text,
  run-le (λ b. digit_valid (base_of text).0 b || (b == underscore)) (drop (base_of text).1 text),
  length-drop (base_of text).1 text,
)

pub validate_integer-Safe : (text : Bytes) → Safe (length text) (checked (validate_integer text))
unfolding validate_integer
validate_integer-Safe text =
    let start = (base_of text).1 in
    let past = start + digits_size text in
    elim (Bool-cases (separators_wrong (take (digits_size text) (drop start text)))) [
      | inl wrong ↦ rw (wrong, validate_integer) (base_of-le text, separator_name)
      | inr right ↦
          rw (right, validate_integer)
            (elim (Bool-cases
              (not (is_empty (drop past text)) && not (is_one_of (drop past text) suffixes))) [
                | inl wrong ↦ rw (wrong, validate_integer) (digits_size-le text, integer_name)
                | inr fits ↦ rw (fits, validate_integer) tt
              ])
    ]

or_zero-le : (pattern text : Bytes) → or_zero (find_from 0 pattern text) ≤ length text
or_zero-le pattern text = elim (Option-cases (find_from 0 pattern text)) [
  | inl n ↦ rw n (omega arith)
  | inr (i, e) ↦ rw e (omega (arith, find_from-le 0 pattern text i e))
]

float_suffix-Safe :
    (text : Bytes) (o : Option ℕ)
    → ((i : ℕ) → o ≡ some i → i ≤ length text)
    → Safe (length text) (checked (float_suffix text o))
float_suffix-Safe text none h = tt
float_suffix-Safe text (some i) h =
    elim (Bool-cases (is_one_of (drop i text) (codes "f32" ∷ codes "f64" ∷ []))) [
      | inl fits ↦ rw fits tt
      | inr wrong ↦ rw wrong (h i refl, float_name)
    ]

pub validate_float-Safe : (text : Bytes) → Safe (length text) (checked (validate_float text))
unfolding validate_float
validate_float-Safe text =
    let double = underscore ∷ underscore ∷ [] in
    elim (Bool-cases (
      contains text double
      || starts_with text (underscore ∷ [])
      || ends_with_byte underscore text)) [
        | inl wrong ↦ rw (wrong, validate_float) (or_zero-le double text, separator_name)
        | inr right ↦
            rw (right, validate_float)
              (float_suffix-Safe text (find_from 0 (102 ∷ []) text)
                (λ i e. omega (arith, find_from-le 0 (102 ∷ []) text i e)))
      ]
