-- ===== src/Mir/ErrorLowering.antt =====
-- crates/tn-mir/src/error_lowering.rs: returns and throws become tagged returns.
pub mod Laws
pub mod Validation
use typenative.Prelude.{ℕ, zero, suc, map, some}
use typenative.Mir.Syntax.{
  TerminatorKind, return, throw, tagged_return, success, error, Rvalue, closure, StatementKind,
  assign, Statement, BasicBlock, BodyOf, Closure, Body,
}

unfoldable pub lower_kind : TerminatorKind → TerminatorKind
lower_kind (return payload) = tagged_return success payload
lower_kind (throw payload) = tagged_return error (some payload)
lower_kind other = other

module _ {B : Type 0} (lower_nested : B → B) where
  unfoldable pub lower_rvalue : Rvalue B → Rvalue B
  lower_rvalue (closure id f captures body) = closure id f captures (lower_nested body)
  lower_rvalue other = other

  unfoldable pub lower_statement_kind : StatementKind B → StatementKind B
  lower_statement_kind (assign place value) = assign place (lower_rvalue value)
  lower_statement_kind other = other

  unfoldable pub lower_statement : Statement B → Statement B
  lower_statement s = record s { kind = lower_statement_kind s.kind }

  unfoldable pub lower_block : BasicBlock B → BasicBlock B
  lower_block b = record {
    statements = map lower_statement b.statements;
    terminator = record (b.terminator) { kind = lower_kind b.terminator.kind };
  }

  unfoldable pub lower_body : BodyOf B → BodyOf B
  lower_body b = record b { blocks = map lower_block b.blocks }

unfoldable pub lower_closure : (n : ℕ) → Closure n → Closure n
lower_closure zero c = c
lower_closure (suc n) c = lower_body (lower_closure n) c

-- `lower_typed_errors`
unfoldable pub lower_typed_errors : (n : ℕ) → Body n → Body n
lower_typed_errors n b = lower_body (lower_closure n) b
