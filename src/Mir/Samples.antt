-- ===== src/Mir/Samples.antt =====
-- Small bodies, shared by the tests and the witnesses.
use typenative.Prelude.{Bool, true, false, List, [], ◌∷◌, none, some}
use typenative.Diagnostics.{SourceSpan}
use typenative.Hir.Types.{PrimitiveType, Ty, primitive, string, void_type}
use typenative.Mir.Drops.Semantics.{DropSemantics}
use typenative.Mir.Syntax.{
  storage_live, storage_dead, set_drop_flag, drop, local_place, copy, move, use_operand,
  StatementKind, assign, Statement, TerminatorKind, goto, return, BasicBlock, Local, Closure, Body,
}

abbrev pub nowhere : SourceSpan
nowhere = record { file = "a.tn"; byte_start = 0; byte_end = 0; line = 1; unicode_column = 1 }

abbrev pub int : Ty
int = primitive PrimitiveType.i32

abbrev pub local : Ty → Bool → Local
local t argument = record {
  name = none;
  ty = t;
  mutable = true;
  argument = argument;
  span = nowhere;
}

abbrev pub statement : {B : Type 0} → StatementKind B → Statement B
statement k = record { kind = k; span = nowhere }

abbrev pub block : {B : Type 0} → List (Statement B) → TerminatorKind → BasicBlock B
block ss k = record { statements = ss; terminator = record { kind = k; span = nowhere } }

-- `_1 = copy _0; goto bb1` and `return move _1`, where only `_0` is an argument
abbrev pub copying : Body 0
copying = record {
  declaration = 7;
  member = none;
  locals = local int true ∷ local int false ∷ [];
  blocks =
      block (statement (assign (local_place 1) (use_operand (copy (local_place 0)))) ∷ []) (goto 1)
      ∷ block [] (return (some (move (local_place 1))))
      ∷ [];
  return_type = int;
  effects = [];
}

-- The same without the assignment: `_1` is returned before it is initialized.
abbrev pub uninitialized : Body 0
uninitialized = record copying {
  blocks = block [] (goto 1) ∷ block [] (return (some (move (local_place 1)))) ∷ [];
}

abbrev pub drops : DropSemantics
drops = record { nominal = [] }

-- An owned text moves from the argument `_0` to `_1`, whose storage ends before the body returns.
abbrev pub owning : Body 0
owning = record {
  declaration = 8;
  member = none;
  locals = local string true ∷ local string false ∷ [];
  blocks =
      block
        (statement (storage_live 1)
          ∷ statement (assign (local_place 1) (use_operand (move (local_place 0))))
          ∷ statement (storage_dead 1)
          ∷ [])
        (return none)
      ∷ [];
  return_type = void_type;
  effects = [];
}

-- What drop elaboration makes of it: the flags, the drop of `_1` before its storage ends, and that of
-- `_0` before the return.
abbrev pub owning_elaborated : Body 0
owning_elaborated = record owning {
  blocks =
      block
        (statement (set_drop_flag (local_place 0) true)
          ∷ statement (storage_live 1)
          ∷ statement (set_drop_flag (local_place 1) false)
          ∷ statement (assign (local_place 1) (use_operand (move (local_place 0))))
          ∷ statement (set_drop_flag (local_place 0) false)
          ∷ statement (set_drop_flag (local_place 1) true)
          ∷ [])
        (drop (local_place 1) 1)
      ∷ block (statement (storage_dead 1) ∷ []) (goto 3)
      ∷ block [] (return none)
      ∷ block [] (drop (local_place 0) 2)
      ∷ [];
}

-- The blocks of `owning` with flags, after its storage death is split.
abbrev pub owning_split : List (BasicBlock (Closure 0))
owning_split =
    block
      (statement (set_drop_flag (local_place 0) true)
        ∷ statement (storage_live 1)
        ∷ statement (set_drop_flag (local_place 1) false)
        ∷ statement (assign (local_place 1) (use_operand (move (local_place 0))))
        ∷ statement (set_drop_flag (local_place 0) false)
        ∷ statement (set_drop_flag (local_place 1) true)
        ∷ [])
      (drop (local_place 1) 1)
    ∷ block (statement (storage_dead 1) ∷ []) (return none)
    ∷ []

-- The one block of `owning`.
abbrev pub moving : BasicBlock (Closure 0)
moving =
    block
      (statement (storage_live 1)
        ∷ statement (assign (local_place 1) (use_operand (move (local_place 0))))
        ∷ statement (storage_dead 1)
        ∷ [])
      (return none)
