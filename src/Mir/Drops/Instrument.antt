-- ===== src/Mir/Drops/Instrument.antt =====
-- The updates of drop flags of crates/tn-mir/src/drop_elaboration.rs: `moved_places_in_rvalue`,
-- `moved_places_in_terminator`, `instrument_statements` and `instrument_terminator_moves`.
pub mod Keeps
pub mod Operands
pub mod Flags
use typenative.Prelude.{Bool, true, false, List, [], ◌∷◌, ◌++◌, Option, none, some, map}
use typenative.Diagnostics.{SourceSpan}
use typenative.Mir.Syntax.{
  Place, local_place, Operand, move, Rvalue, use_operand, unary, checked_binary, checked_index,
  aggregate, closure, template, type_test, raw_operation, cast, StatementKind, assign, storage_live,
  set_drop_flag, Statement, TerminatorKind, switch, call, return, throw, tagged_return, suspend,
  BasicBlock,
}

unfoldable pub collect_move : Operand → List Place
collect_move (move p) = p ∷ []
collect_move _ = []

unfoldable pub collect_moves : List Operand → List Place
unfolding collect_move
collect_moves [] = []
collect_moves (o ∷ os) = collect_move o ++ collect_moves os

abbrev pub collect_option : Option Operand → List Place
collect_option none = []
collect_option (some o) = collect_move o

unfoldable pub moved_places_in_rvalue : {B : Type 0} → Rvalue B → List Place
unfolding collect_move collect_moves
moved_places_in_rvalue (use_operand o) = collect_move o
moved_places_in_rvalue (unary op o t r) = collect_move o
moved_places_in_rvalue (cast o t kind) = collect_move o
moved_places_in_rvalue (type_test o t) = collect_move o
moved_places_in_rvalue (checked_binary op l r t u) = collect_move l ++ collect_move r
moved_places_in_rvalue (checked_index c i) = collect_move i
moved_places_in_rvalue (aggregate t v fields ts) = collect_moves fields
moved_places_in_rvalue (closure id f captures b) = collect_moves captures
moved_places_in_rvalue (template id parts captures t) = collect_moves captures
moved_places_in_rvalue (raw_operation name os t) = collect_moves os
moved_places_in_rvalue _ = []

unfoldable pub moved_places_in_terminator : TerminatorKind → List Place
unfolding collect_move collect_moves
moved_places_in_terminator (switch value targets otherwise) = collect_move value
moved_places_in_terminator (throw value) = collect_move value
moved_places_in_terminator (suspend value d e resume on_error cancel) = collect_move value
moved_places_in_terminator (return payload) = collect_option payload
moved_places_in_terminator (tagged_return completion payload) = collect_option payload
moved_places_in_terminator (call callee receiver arguments d e on_success on_error) =
    collect_move callee ++ collect_option receiver ++ collect_moves arguments
moved_places_in_terminator _ = []

module _ {B : Type 0} where
  -- a flag update at a span
  abbrev pub flag : SourceSpan → Bool → Place → Statement B
  flag span b p = record { kind = set_drop_flag p b; span = span }

  -- one statement with the updates that follow it
  unfoldable pub instrument_kind : StatementKind B → SourceSpan → List (Statement B)
  unfolding moved_places_in_rvalue
  instrument_kind (storage_live l) span =
      record { kind = storage_live l; span = span } ∷ flag span false (local_place l) ∷ []
  instrument_kind (assign destination value) span =
      record { kind = assign destination value; span = span }
      ∷ (map (flag span false) (moved_places_in_rvalue value) ++ flag span true destination ∷ [])
  instrument_kind k span = record { kind = k; span = span } ∷ []

  unfoldable pub instrument_statements : List (Statement B) → List (Statement B)
  unfolding instrument_kind
  instrument_statements [] = []
  instrument_statements (s ∷ ss) = instrument_kind s.kind s.span ++ instrument_statements ss

  -- `instrument_terminator_moves` after `instrument_statements`
  unfoldable pub instrument_block : BasicBlock B → BasicBlock B
  unfolding instrument_statements moved_places_in_terminator
  instrument_block b = record b {
    statements =
        instrument_statements b.statements
        ++ map (flag b.terminator.span false) (moved_places_in_terminator b.terminator.kind);
  }
