-- ===== src/Incremental/Witnesses.antt =====
-- Edits of a small document, and the theorem at one.
use typenative.Prelude.{ℕ, true, false, List, [], ◌∷◌, ◌++◌, String, ◌≡◌, refl, length, ◌==◌}
use typenative.Diagnostics.{is_empty}
use typenative.Lexer.Scan.{Bytes}
use typenative.Incremental.{
  TextEdit, Element, node, token, Parse, IncrementalDocument, edited, root_size, new_document,
  apply_edit,
}
use typenative.Incremental.Edits.{EditOutcome, apply_edit_lem}

-- A parser of statements that end in a semicolon.
abbrev statements : Bytes → Bytes → List Element
statements current [] = elim (is_empty current) [ true ↦ [] | false ↦ token current ∷ [] ]
statements current (b ∷ bs) = elim (b == 59) [
  | true ↦ node 1 (current ++ b ∷ []) ∷ statements [] bs
  | false ↦ statements (current ++ b ∷ []) bs
]

abbrev statement_parser : String → Bytes → Parse
statement_parser file source = record { root = statements [] source; diagnostics = [] }

-- `a;b;`
abbrev document : IncrementalDocument
document = record {
  file = "test.tn";
  source = 97 ∷ 59 ∷ 98 ∷ 59 ∷ [];
  parse = record { root = node 1 (97 ∷ 59 ∷ []) ∷ node 1 (98 ∷ 59 ∷ []) ∷ []; diagnostics = [] };
}

abbrev insert_at : ℕ → Bytes → TextEdit
insert_at i replacement = record {
  range = record { first = i; past = i };
  replacement = replacement;
}

new_document-statements :
    new_document statement_parser 0 "test.tn" (97 ∷ 59 ∷ 98 ∷ 59 ∷ []) ≡ document
unfolding new_document
new_document-statements = refl

-- `b` becomes `bc`: only the second statement is parsed again.
apply_edit-one :
    apply_edit statement_parser 0 document (insert_at 3 (99 ∷ []))
    ≡ edited
        (record {
          file = "test.tn";
          source = 97 ∷ 59 ∷ 98 ∷ 99 ∷ 59 ∷ [];
          parse = record {
            root = node 1 (97 ∷ 59 ∷ []) ∷ node 1 (98 ∷ 99 ∷ 59 ∷ []) ∷ [];
            diagnostics = [];
          };
        })
        (record { reparsed_range = record { first = 2; past = 5 }; reused_bytes = 2 })
unfolding apply_edit
apply_edit-one = refl

-- `a;` becomes `a;c;`: the tree keeps the first of the two statements, and loses the second.
apply_edit-split :
    apply_edit statement_parser 0 document (insert_at 1 (59 ∷ 99 ∷ []))
    ≡ edited
        (record {
          file = "test.tn";
          source = 97 ∷ 59 ∷ 99 ∷ 59 ∷ 98 ∷ 59 ∷ [];
          parse = record {
            root = node 1 (97 ∷ 59 ∷ []) ∷ node 1 (98 ∷ 59 ∷ []) ∷ [];
            diagnostics = [];
          };
        })
        (record { reparsed_range = record { first = 0; past = 4 }; reused_bytes = 2 })
unfolding apply_edit
apply_edit-split = refl

document_size : root_size document.parse.root ≡ length document.source
unfolding root_size
document_size = refl

apply_edit_lem_example :
    EditOutcome document
      (insert_at 3 (99 ∷ []))
      (apply_edit statement_parser 0 document (insert_at 3 (99 ∷ [])))
apply_edit_lem_example =
    apply_edit_lem statement_parser 0 document (insert_at 3 (99 ∷ [])) document_size
