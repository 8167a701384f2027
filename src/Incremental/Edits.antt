-- ===== src/Incremental/Edits.antt =====
-- What an edit does to the document, on each branch.
use typenative.Prelude.{
  ℕ, ◌+◌, ◌-◌, ◌≤◌, ◌<◌, true, false, ◌||◌, not, List, [], ◌∷◌, ◌++◌, Option, none, some, String,
  ◌≡◌, inl, inr, refl, ap, ◌∙◌, arith, length, length-append, length-take, length-drop, take, drop,
  ltb, Bool-cases,
}
use mathlib.Core.Path.{subst}
use typenative.Diagnostics.{Diagnostic}
use typenative.Lexer.Tokens.{Range}
use typenative.Lexer.Scan.{Bytes}
use typenative.Incremental.{
  TextEdit, ReparseStats, Element, node, token, Parse, IncrementalDocument, EditResult, edited,
  invalid_text_edit, root_size, is_char_boundary, invalid_edit, replace_range, shifted, Candidate,
  behind, is_candidate, find_candidate, find_kind, full_parse, with_replacement, with_candidate,
  apply_edit,
}

-- What an edit of this range leaves of a document, and what it reports: the file stays, the source is the new one, and the
-- reparsed range lies in it and makes it up with the reused bytes.
pub record IsEdited (file : String) (source : Bytes) (d : IncrementalDocument) (s : ReparseStats)
    : Type 0 where
  pub same_file : d.file ≡ file
  pub new_source : d.source ≡ source
  pub ordered : s.reparsed_range.first ≤ s.reparsed_range.past
  pub inside : s.reparsed_range.past ≤ length source
  pub all : s.reparsed_range.past - s.reparsed_range.first + s.reused_bytes ≡ length source

-- A range in order, in the text, and between characters.
pub record ValidRange (source : Bytes) (r : Range) : Type 0 where
  pub ordered : r.first ≤ r.past
  pub inside : r.past ≤ length source
  pub first_boundary : is_char_boundary source r.first ≡ true
  pub past_boundary : is_char_boundary source r.past ≡ true

abbrev pub EditOutcome : IncrementalDocument → TextEdit → EditResult → Type 0
EditOutcome d e (edited d' s) =
    ValidRange d.source e.range
    × IsEdited d.file (replace_range d.source e.range e.replacement) d' s
EditOutcome d e (invalid_text_edit r) = (¬ ValidRange d.source e.range) × (r ≡ e.range)

-- the candidate's range holds the edit's and ends in the text
record Holds (r : Range) (size : ℕ) (q : Range) : Type 0 where
  pub before_edit : q.first ≤ r.first
  pub after_edit : r.past ≤ q.past
  pub in_text : q.past ≤ size

module _ (attribute : ℕ) (r : Range) where
  Holds-behind :
      (size : ℕ) (x : Element) (o : Option Candidate) (c : Candidate)
      → ((b : Candidate) → o ≡ some b → Holds r size b.range)
      → behind x o ≡ some c
      → Holds r size c.range
  Holds-behind size x none c h e = absurd (cc e)
  Holds-behind size x (some b) c h e =
      let q : record b { before = x ∷ b.before } ≡ c = cc e in
      subst (Holds r size) (ap Candidate.range q) (h b refl)

  Holds-size : (a b : ℕ) (q : Range) → a ≡ b → Holds r a q → Holds r b q
  Holds-size a b q e h = subst (λ n. Holds r n q) e h

  find_candidate-Holds :
      (offset : ℕ) (xs : List Element) (c : Candidate)
      → find_candidate attribute r offset xs ≡ some c
      → Holds r (offset + root_size xs) c.range
  unfolding find_candidate root_size
  find_candidate-Holds offset [] c e = absurd (cc e)
  find_candidate-Holds offset (token text ∷ xs) c e =
      Holds-size (offset + length text + root_size xs) (offset + (length text + root_size xs))
        c.range (omega arith)
        (Holds-behind (offset + length text + root_size xs) (token text)
          (find_candidate attribute r (offset + length text) xs) c
          (λ b k. find_candidate-Holds (offset + length text) xs b k) e)
  find_candidate-Holds offset (node kind text ∷ xs) c e =
      elim (Bool-cases (is_candidate attribute r kind offset (offset + length text))) [
        | inl here ↦
            let q : record {
              before = [];
              kind = kind;
              range = record { first = offset; past = offset + length text };
              after = xs;
            }
                ≡ c =
              cc (rw (here, find_candidate) at e) in
            subst (Holds r (offset + (length text + root_size xs))) (ap Candidate.range q) (record {
              before_edit = ground arith;
              after_edit = ground arith;
              in_text = omega arith;
            })
        | inr later ↦
            Holds-size (offset + length text + root_size xs) (offset + (length text + root_size xs))
              c.range (omega arith)
              (Holds-behind (offset + length text + root_size xs) (node kind text)
                (find_candidate attribute r (offset + length text) xs) c
                (λ b k. find_candidate-Holds (offset + length text) xs b k)
                (rw (later, find_candidate) at e))
      ]

length-replace_range :
    (source : Bytes) (r : Range) (replacement : Bytes)
    → r.first ≤ r.past
    → r.past ≤ length source
    → length (replace_range source r replacement)
      ≡ r.first + length replacement + (length source - r.past)
unfolding replace_range
length-replace_range source r replacement h k =
    length-append (take r.first source ++ replacement) (drop r.past source)
    ∙ omega (
      arith,
      length-append (take r.first source) replacement,
      length-take r.first source (omega (arith, h, k)),
      length-drop r.past source,
    )

-- The range that is parsed again, from the start of the candidate: it is in order and in the new text, which it and the rest
-- of the old text make up.
record Fits (old_length new_length first past : ℕ) : Type 0 where
  in_order : first ≤ shifted old_length new_length past
  in_text : shifted old_length new_length past ≤ new_length
  all_text : shifted old_length new_length past - first + (old_length - (past - first)) ≡ new_length

shifted-Fits :
    (n m f p k cf cp : ℕ) → m ≡ f + k + (n - p) → f ≤ p → cf ≤ f → p ≤ cp → cp ≤ n → Fits n m cf cp
shifted-Fits n m f p k cf cp size fp ff pp inside = elim (Bool-cases (ltb m n)) [
  | inl shrinks ↦
      let less : m < n = ground arith in
      record {
        in_order = rw shrinks (omega arith);
        in_text = rw shrinks (omega arith);
        all_text = rw shrinks (omega arith);
      }
  | inr grows ↦
      let more : n ≤ m = ground arith in
      record {
        in_order = rw grows (omega arith);
        in_text = rw grows (omega arith);
        all_text = rw grows (omega arith);
      }
]

module _ (parser : String → Bytes → Parse) (attribute : ℕ) (d : IncrementalDocument)
    (e : TextEdit) where
  -- the source after the edit
  abbrev after : Bytes
  after = replace_range d.source e.range e.replacement

  full_parse-IsEdited :
      ValidRange d.source e.range → EditOutcome d e (full_parse parser attribute d.file after)
  full_parse-IsEdited v = (
    v,
    record {
      same_file = refl;
      new_source = refl;
      ordered = omega arith;
      inside = omega arith;
      all = omega arith;
    },
  )

  with_replacement-IsEdited :
      (c : Candidate) (found : List Diagnostic) (o : Option Bytes)
      → ValidRange d.source e.range
      → Holds e.range (length d.source) c.range
      → EditOutcome d e (
          with_replacement parser attribute d after c
            (shifted (length d.source) (length after) c.range.past)
            found
            o)
  with_replacement-IsEdited c found none v h = full_parse-IsEdited v
  with_replacement-IsEdited c found (some text) v h =
      let fits =
        shifted-Fits (length d.source) (length after) e.range.first e.range.past
          (length e.replacement) c.range.first c.range.past
          (length-replace_range d.source e.range e.replacement v.ordered v.inside) v.ordered
          h.before_edit h.after_edit h.in_text in
      (
        v,
        record {
          same_file = refl;
          new_source = refl;
          ordered = fits.in_order;
          inside = fits.in_text;
          all = fits.all_text;
        },
      )

  with_candidate-IsEdited :
      (o : Option Candidate)
      → ((c : Candidate) → o ≡ some c → Holds e.range (length d.source) c.range)
      → ValidRange d.source e.range
      → EditOutcome d e (with_candidate parser attribute d after o)
  with_candidate-IsEdited none h v = full_parse-IsEdited v
  with_candidate-IsEdited (some c) h v =
      let new_end = shifted (length d.source) (length after) c.range.past in
      let fragment = parser d.file (drop c.range.first (take new_end after)) in
      elim (Bool-cases (ltb (length after) new_end || not (is_char_boundary after new_end))) [
        | inl out ↦ rw (out, with_candidate) (full_parse-IsEdited v)
        | inr fits ↦
            rw (fits, with_candidate)
              (with_replacement-IsEdited c fragment.diagnostics (find_kind c.kind fragment.root) v
                (h c refl))
      ]

  valid_range : invalid_edit d.source e.range ≡ false → ValidRange d.source e.range
  unfolding invalid_edit
  valid_range h = record {
    ordered = ground arith;
    inside = ground arith;
    first_boundary = ground arith;
    past_boundary = ground arith;
  }

  invalid_range : invalid_edit d.source e.range ≡ true → ¬ ValidRange d.source e.range
  unfolding invalid_edit
  invalid_range h v = ground arith

  -- An edit of a document whose tree is as long as its source is rejected just when its range is reversed, out of bounds or not
  -- between characters. Otherwise the file stays, the source is the old one with the replacement in the range, and the reparsed
  -- range lies in the new source, which it and the reused bytes make up.
  pub apply_edit_lem :
      root_size d.parse.root ≡ length d.source → EditOutcome d e (apply_edit parser attribute d e)
  unfolding apply_edit
  apply_edit_lem size = elim (Bool-cases (invalid_edit d.source e.range)) [
    | inl bad ↦ rw (bad, apply_edit) (invalid_range bad, refl)
    | inr good ↦
        rw (good, apply_edit)
          (with_candidate-IsEdited (find_candidate attribute e.range 0 d.parse.root)
            (λ c k.
              Holds-size attribute e.range (0 + root_size d.parse.root) (length d.source) c.range
                (omega (arith, size)) (find_candidate-Holds attribute e.range 0 d.parse.root c k))
            (valid_range good))
  ]
