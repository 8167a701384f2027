-- ===== src/Mir/Syntax.antt =====
-- crates/tn-mir/src/lib.rs: places, operands, rvalues, statements, terminators, blocks and bodies.
-- A closure holds a body of its own. The data here take the type `B` of closure bodies as a
-- parameter, and `Body n` ties the knot for closures that nest less than `n + 1` deep.
use Prim.Native.Char.{Char}
use typenative.Prelude.{ℕ, zero, suc, ℤ, String, Bool, List, [], Option}
use typenative.Diagnostics.{SourceSpan}
use typenative.Hir.Types.{
  PrimitiveType, ReceiverMode, DeclarationId, MemberId, HirClosureId, HirTemplateId, Ty, primitive,
  reference, str, FunctionType,
}

-- LocalId, BasicBlockId and RegionId wrap a u32.
abbrev pub LocalId : Type 0
LocalId = ℕ

abbrev pub BasicBlockId : Type 0
BasicBlockId = ℕ

abbrev pub RegionId : Type 0
RegionId = ℕ

pub data BorrowKind : Type 0 where
  shared mutable : BorrowKind

pub data Projection : Type 0 where
  field : ℕ → Ty → Projection
  dereference : Projection
  index : LocalId → Projection
  downcast : ℕ → Projection
  base_class : DeclarationId → Projection

pub record Place : Type 0 where
  pub local : LocalId
  pub projection : List Projection

-- `Place::local`
abbrev pub local_place : LocalId → Place
local_place l = record { local = l; projection = [] }

pub data Constant : Type 0 where
  bool : Bool → Constant
  integer : ℤ → Ty → Constant
  float : ℕ → Ty → Constant
  character : Char → Constant
  string : String → Constant
  undefined : Ty → Constant
  function : DeclarationId → Ty → Constant
  external_function : String → Ty → Constant
  method : DeclarationId → MemberId → Ty → Constant
  constructor : DeclarationId → Option MemberId → Ty → Constant

-- `Constant::ty`
unfoldable pub constant_ty : Constant → Ty
constant_ty (bool b) = primitive PrimitiveType.bool
constant_ty (integer v t) = t
constant_ty (float bits t) = t
constant_ty (character c) = primitive PrimitiveType.char
constant_ty (string s) = reference Bool.false "static" str
constant_ty (undefined t) = t
constant_ty (function d t) = t
constant_ty (external_function s t) = t
constant_ty (method d m t) = t
constant_ty (constructor d m t) = t

pub data Operand : Type 0 where
  copy : Place → Operand
  move : Place → Operand
  constant : Constant → Operand

pub data BinaryOperator : Type 0 where
  add subtract multiply divide remainder shift_left shift_right : BinaryOperator
  bit_and bit_or bit_xor equal not_equal less less_equal : BinaryOperator
  greater greater_equal logical_and logical_or : BinaryOperator

pub data UnaryOperator : Type 0 where
  logical_not negate bit_not : UnaryOperator

pub data TemplatePart : Type 0 where
  literal : String → TemplatePart
  interpolation : ℕ → Ty → TemplatePart

pub data CastKind : Type 0 where
  class_upcast interface_coercion reborrow checked_downcast raw_pointer error_union : CastKind

-- The fields of each variant stand in the order of the source.
pub data Rvalue (B : Type 0) : Type 0 where
  use_operand : Operand → Rvalue B
  unary : UnaryOperator → Operand → Ty → Ty → Rvalue B
  checked_binary : BinaryOperator → Operand → Operand → Ty → Ty → Rvalue B
  checked_index : Place → Operand → Rvalue B
  aggregate : Ty → Option ℕ → List Operand → List Ty → Rvalue B
  closure : HirClosureId → FunctionType → List Operand → B → Rvalue B
  template : HirTemplateId → List TemplatePart → List Operand → Ty → Rvalue B
  length_of : Place → Rvalue B
  vtable_lookup : Place → DeclarationId → MemberId → ℕ → ReceiverMode → Ty → Rvalue B
  witness_lookup : Place → DeclarationId → ℕ → ReceiverMode → Ty → Rvalue B
  direct_method : Place → DeclarationId → MemberId → ReceiverMode → Ty → Rvalue B
  type_test : Operand → Ty → Rvalue B
  raw_operation : String → List Operand → Ty → Rvalue B
  cast : Operand → Ty → CastKind → Rvalue B

pub data StatementKind (B : Type 0) : Type 0 where
  assign : Place → Rvalue B → StatementKind B
  set_discriminant : Place → ℕ → StatementKind B
  storage_live : LocalId → StatementKind B
  storage_dead : LocalId → StatementKind B
  borrow : LocalId → BorrowKind → Place → RegionId → StatementKind B
  retag : Place → StatementKind B
  set_drop_flag : Place → Bool → StatementKind B

pub record Statement (B : Type 0) : Type 0 where
  pub kind : StatementKind B
  pub span : SourceSpan

pub data Completion : Type 0 where
  success error : Completion

-- `call function receiver arguments destination error_destination success error` and
-- `suspend value destination error_destination resume error cancel`
pub data TerminatorKind : Type 0 where
  goto : BasicBlockId → TerminatorKind
  switch : Operand → List (ℕ × BasicBlockId) → BasicBlockId → TerminatorKind
  call :
      Operand
      → Option Operand
      → List Operand
      → Option Place
      → Option Place
      → BasicBlockId
      → Option BasicBlockId
      → TerminatorKind
  return : Option Operand → TerminatorKind
  throw : Operand → TerminatorKind
  tagged_return : Completion → Option Operand → TerminatorKind
  suspend :
      Operand
      → Option Place
      → Option Place
      → BasicBlockId
      → Option BasicBlockId
      → BasicBlockId
      → TerminatorKind
  drop : Place → BasicBlockId → TerminatorKind
  abort : String → TerminatorKind
  unreachable : TerminatorKind

pub record Terminator : Type 0 where
  pub kind : TerminatorKind
  pub span : SourceSpan

pub record BasicBlock (B : Type 0) : Type 0 where
  pub statements : List (Statement B)
  pub terminator : Terminator

pub record Local : Type 0 where
  pub name : Option String
  pub ty : Ty
  pub mutable : Bool
  pub argument : Bool
  pub span : SourceSpan

pub record BodyOf (B : Type 0) : Type 0 where
  pub declaration : DeclarationId
  pub member : Option MemberId
  pub locals : List Local
  pub blocks : List (BasicBlock B)
  pub return_type : Ty
  pub effects : List DeclarationId

-- The bodies of closures, where closures nest at most `n` deep inside a body.
abbrev pub Closure : ℕ → Type 0
Closure zero = ⊥
Closure (suc n) = BodyOf (Closure n)

-- Each `Body` of the source is a `Body n`, for every `n` that is at least its nesting depth.
abbrev pub Body : ℕ → Type 0
Body n = BodyOf (Closure n)
