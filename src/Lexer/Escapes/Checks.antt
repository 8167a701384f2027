-- ===== src/Lexer/Escapes/Checks.antt =====
-- The checks of character and template literals end, slice in range, and report issues inside the literal.
use typenative.Prelude.{
  ℕ, suc, ◌+◌, ◌-◌, ◌≤◌, true, false, ◌||◌, List, [], ◌∷◌, ◌++◌, some, ◌≡◌, ◌≢◌, inl, inr, refl,
  sym, ◌∙◌, ap, zero, ◌<◌, get_elem?-drop, get_elem?-take, arith, length, length-append,
  length-take, length-drop, take, drop, get_elem?, ◌==◌, ltb, Bool-cases, if◌then◌else◌,
}
use typenative.Diagnostics.{codes, is_condition_name}
use typenative.Lexer.Tokens.{Range}
use typenative.Lexer.Scan.{Bytes, backtick, left_brace}
use typenative.Lexer.Templates.{scan_template}
use typenative.Lexer.Templates.Sound.{Found, Scan-cases, scan_template-IsTemplate, Found-bounds}
use typenative.Lexer.Templates.Ends.{scan_template_ends}
use typenative.Lexer.Escapes.{
  Checked, fine, issue, panicked, stuck, validate_escapes, scalars_from, length_check, or_check,
  validate_character, moved, validate_template_chunk, validate_chunks, validate_template,
}
use typenative.Lexer.Escapes.Safe.{
  Safe, Safe-le, Points, Safe-Points, validate_escapes-Safe, validate_escapes-Points,
}

get_elem?-last : (bytes : Bytes) (b : ℕ) → get_elem? (bytes ++ b ∷ []) (length bytes) ≡ some b
get_elem?-last [] b = refl
get_elem?-last (a ∷ bytes) b = get_elem?-last bytes b

get_elem?-append :
    (i : ℕ) (bytes more : Bytes)
    → i < length bytes
    → get_elem? (bytes ++ more) i ≡ get_elem? bytes i
get_elem?-append i [] more h = absurd (omega (arith, h))
get_elem?-append zero (b ∷ bytes) more h = refl
get_elem?-append (suc i) (b ∷ bytes) more h = get_elem?-append i bytes more (omega (arith, h))

Safe-or_check : (size : ℕ) (a b : Checked) → Safe size a → Safe size b → Safe size (or_check a b)
Safe-or_check size fine b s t = t
Safe-or_check size (issue i) b s t = s
Safe-or_check size panicked b s t = s
Safe-or_check size stuck b s t = s

length_name : is_condition_name (codes "SYNTAX_INVALID_CHARACTER_LENGTH") ≡ true
unfolding is_condition_name codes
length_name = refl

length_check-Safe : (size : ℕ) (inner : Bytes) → 1 ≤ size → Safe size (length_check inner)
length_check-Safe size inner h = elim (Bool-cases (scalars_from (length inner) inner 0 == 1)) [
  | inl one ↦ rw one tt
  | inr other ↦ rw other (h, length_name)
]

-- The check of a character literal, of two bytes at least and not ending in `{`.
pub validate_character-Safe :
    (text : Bytes) (past : ℕ)
    → length text ≡ suc past
    → 1 ≤ past
    → get_elem? text past ≢ some left_brace
    → Safe past (validate_character text)
unfolding validate_character
validate_character-Safe text past last one safe =
    Safe-or_check past (validate_escapes text false)
      (if ltb (length text - 1) 1
        then panicked
        else length_check (drop 1 (take (length text - 1) text)))
      (validate_escapes-Safe text false past last safe)
      (elim (Bool-cases (ltb (length text - 1) 1)) [
        | inl small ↦ absurd (ground arith)
        | inr big ↦ rw big (length_check-Safe past (drop 1 (take (length text - 1) text)) one)
      ])

-- the byte of a chunk that stands at an index of its copy between backticks
module _ (text : Bytes) (start past : ℕ) (ordered : start ≤ past)
    (inside : past ≤ length text) where
  abbrev chunk : Bytes
  chunk = drop start (take past text)

  length-chunk : start + length chunk ≡ past
  length-chunk =
      omega (arith, length-drop start (take past text), length-take past text inside, ordered)

  get_elem?-chunk :
      (i : ℕ)
      → 1 ≤ i
      → i < suc (length chunk)
      → get_elem? (backtick ∷ chunk ++ backtick ∷ []) i ≡ get_elem? text (i - 1 + start)
  get_elem?-chunk zero one below = absurd (omega (arith, one))
  get_elem?-chunk (suc i) one below =
      get_elem?-append i chunk (backtick ∷ []) (omega (arith, below))
      ∙ get_elem?-drop start i (take past text)
      ∙ get_elem?-take past (start + i) text (omega (arith, below, length-chunk))
      ∙ ap (get_elem? text) (omega (arith, one))

  Points-moved :
      (c : Checked)
      → 1 ≤ start
      → Points (backtick ∷ chunk ++ backtick ∷ []) (suc (length chunk)) c
      → Points text past (moved start c)
  Points-moved fine one h = tt
  Points-moved (issue i) one (first, below, at, size, name) = (
    omega (arith, one),
    omega (arith, first, below, length-chunk),
    sym (get_elem?-chunk i.offset first below) ∙ at,
    omega (arith, first, size, length-chunk),
    name,
  )
  Points-moved panicked one h = h
  Points-moved stuck one h = h

  backtick_brace : some backtick ≢ some left_brace
  backtick_brace e = ground arith

  validate_template_chunk-Points :
      1 ≤ start → Points text past (validate_template_chunk text start past)
  unfolding validate_template_chunk
  validate_template_chunk-Points one =
      elim (Bool-cases (ltb past start || ltb (length text) past)) [
        | inl out ↦ absurd (ground arith)
        | inr within ↦
            let quoted = backtick ∷ chunk ++ backtick ∷ [] in
            rw (within, validate_template_chunk)
              (Points-moved (validate_escapes quoted true) one (
                validate_escapes-Points quoted true (suc (length chunk))
                  (omega (arith, length-append chunk (backtick ∷ [])))
                  (λ e. backtick_brace (sym (get_elem?-last chunk backtick) ∙ e))))
      ]

Points-le : (text : Bytes) (a b : ℕ) (c : Checked) → a ≤ b → Points text a c → Points text b c
Points-le text a b fine le h = tt
Points-le text a b (issue i) le (first, inside, at, size, name) =
    (first, omega (arith, inside, le), at, omega (arith, size, le), name)
Points-le text a b panicked le h = h
Points-le text a b stuck le h = h

Points-or_check :
    (text : Bytes) (past : ℕ) (a b : Checked)
    → Points text past a
    → Points text past b
    → Points text past (or_check a b)
Points-or_check text past fine b s t = t
Points-or_check text past (issue i) b s t = s
Points-or_check text past panicked b s t = s
Points-or_check text past stuck b s t = s

validate_chunks-Points :
    (text : Bytes) (start past : ℕ) (rs : List Range)
    → 1 ≤ start
    → Found text start rs past
    → past ≤ length text
    → Points text past (validate_chunks text start past rs)
unfolding validate_chunks
validate_chunks-Points text start past [] one f inside =
    validate_template_chunk-Points text start past f inside one
validate_chunks-Points text start past (r ∷ rs) one (x, f) inside =
    let le = Found-bounds text (r.past + 1) rs past f in
    let below : r.first - 2 ≤ past = omega (arith, le, x.ordered) in
    Points-or_check text past (validate_template_chunk text start (r.first - 2))
      (validate_chunks text (r.past + 1) past rs)
      (Points-le text (r.first - 2) past (validate_template_chunk text start (r.first - 2)) below (
        validate_template_chunk-Points text start (r.first - 2) (omega (arith, x.after))
          (omega (arith, below, inside)) one))
      (validate_chunks-Points text (r.past + 1) past rs (omega arith) f inside)

-- The check of a template ends and slices in range. An issue that it reports starts at a backslash
-- of the text, past its first byte and before its last, and ends in the text, under a valid
-- condition.
pub validate_template-Points :
    (text : Bytes) → Points text (length text - 1) (validate_template text)
unfolding validate_template
validate_template-Points text = elim (Scan-cases text (scan_template text 0)) [
  | inl (scan, e) ↦
      let (t, inside) = scan_template-IsTemplate text 0 scan e in
      rw (e, validate_template)
        (Points-le text (scan.past - 1) (length text - 1)
          (validate_chunks text 1 (scan.past - 1) scan.interpolations) (omega (arith, inside))
          (validate_chunks-Points text 1 (scan.past - 1) scan.interpolations (omega arith) t.found
            (omega (arith, inside))))
  | inr (inl e) ↦ absurd (scan_template_ends text 0 e)
  | inr (inr (x, e)) ↦ rw (e, validate_template) tt
]

pub validate_template-Safe : (text : Bytes) → Safe (length text) (validate_template text)
validate_template-Safe text =
    Safe-le (length text - 1) (length text) (validate_template text) (omega arith)
      (Safe-Points text (length text - 1) (validate_template text) (validate_template-Points text))
