-- ===== src/Mir/Validate/Statements.antt =====
-- `validate_statement`, `validate_terminator` and the functions for its larger cases, of
-- crates/tn-mir/src/validate.rs.
use typenative.Prelude.{
  ℕ, Bool, true, false, not, ◌&&◌, ◌||◌, List, [], ◌∷◌, Option, none, some, if◌then◌else◌, contains,
}
use typenative.Hir.Types.{
  PrimitiveType, DeclarationId, Ty, primitive, promise, nominal, optional, union, tuple, reference,
  function, error_union, error_type, FunctionType, function_type, to_list, of_list, ty_eq,
  void_type,
}
use typenative.Mir.Syntax.{
  BorrowKind, shared, mutable, Place, Operand, Local, BasicBlockId, StatementKind, assign,
  set_discriminant, storage_live, storage_dead, borrow, retag, set_drop_flag, Completion, success,
  error, TerminatorKind, switch, call, return, throw, tagged_return, suspend, drop,
}
use typenative.Mir.Compatible.{types_compatible, types_compatible_slice}
use typenative.Mir.Validate.Check.{
  type_mismatch, invalid_error_edge, invalid_return, invalid_borrow_type, invalid_callable,
  invalid_throw, invalid_switch_type, M, ◌>>=◌, ◌>>◌, pure, skip, report, report_unless,
  mark_initialized, unmark_initialized, when_some, collect_some,
}
use typenative.Mir.Validate.Places.{
  check_local, local_type, place_type, use_place, is_local, operand_type,
}
use typenative.Mir.Validate.Rvalues.{ClosureView, some_compatible, or_error, rvalue_type}

abbrev is_mutable : BorrowKind → Bool
is_mutable shared = false
is_mutable mutable = true

abbrev pub same_bool : Bool → Bool → Bool
same_bool true b = b
same_bool false b = not b

-- the `matches!` on the destination's type of a borrow
unfoldable pub borrows_as : BorrowKind → Ty → Option Ty → Bool
unfolding ty_eq
borrows_as kind (reference m l referent) (some source) =
    same_bool m (is_mutable kind) && ty_eq referent source
borrows_as kind _ _ = false

-- whether an assignment of the source type to the destination's is reported
unfoldable pub assignable : Option Ty → Option Ty → Bool
unfolding types_compatible ty_eq
assignable (some destination) (some source) =
    types_compatible source destination || ty_eq destination error_type || ty_eq source error_type
assignable _ _ = true

unfoldable pub valid_primitive : PrimitiveType → Bool
valid_primitive PrimitiveType.f32 = false
valid_primitive PrimitiveType.f64 = false
valid_primitive PrimitiveType.void = false
valid_primitive PrimitiveType.never = false
valid_primitive _ = true

unfoldable pub valid_switch_type : Ty → Bool
unfolding valid_primitive
valid_switch_type (primitive p) = valid_primitive p
valid_switch_type (nominal d args) = true
valid_switch_type (optional t) = true
valid_switch_type (union ts) = true
valid_switch_type (error_union es) = true
valid_switch_type _ = false

unfoldable pub all_declared : List DeclarationId → List DeclarationId → Bool
unfolding contains
all_declared [] effects = true
all_declared (e ∷ es) effects = contains e effects && all_declared es effects

-- the types of values that a body with these effects may throw
unfoldable pub throws_within : List DeclarationId → Option Ty → Bool
unfolding contains all_declared
throws_within effects (some (nominal d args)) = contains d effects
throws_within effects (some (error_union es)) = all_declared es effects
throws_within effects _ = false

abbrev pub some_switch : Option Ty → Bool
some_switch none = false
some_switch (some t) = valid_switch_type t

-- `destination_type.is_some_and(|destination| types_compatible(&result, destination))`
abbrev pub result_fits : Ty → Option Ty → Bool
result_fits result none = false
result_fits result (some t) = types_compatible result t

abbrev pub is_some : {A : Type 0} → Option A → Bool
is_some none = false
is_some (some a) = true

abbrev pub is_empty : List DeclarationId → Bool
is_empty [] = true
is_empty (e ∷ es) = false

abbrev pub opt_ty_eq : Option Ty → Option Ty → Bool
opt_ty_eq none none = true
opt_ty_eq (some a) (some b) = ty_eq a b
opt_ty_eq a b = false

module _ (locals : List Local) (block : ℕ) where
  abbrev operand : Operand → M (Option Ty)
  operand = operand_type locals block

  -- `payload.and_then(|value| operand_type(…))`
  unfoldable pub payload_type : Option Operand → M (Option Ty)
  unfolding operand_type
  payload_type none = pure none
  payload_type (some o) = operand o

  -- `destination.and_then(|destination| place_type(…))`
  unfoldable pub destination_type : Option Place → M (Option Ty)
  unfolding place_type
  destination_type none = pure none
  destination_type (some p) = place_type locals block p

  module _ {B : Type 0} (view : B → ClosureView) where
    unfoldable pub validate_statement : StatementKind B → M (Unit {0})
    unfolding place_type rvalue_type assignable report_unless mark_initialized unmark_initialized
        check_local use_place borrows_as local_type
    validate_statement (assign place value) = do
      destination ← place_type locals block place
      source ← rvalue_type locals block view value
      report_unless (assignable destination source)
          (type_mismatch block (or_error source) (or_error destination))
      if is_local place then mark_initialized (place.local) else skip
    validate_statement (storage_live l) = do i ← check_local locals block l; skip
    validate_statement (storage_dead l) = do
      i ← check_local locals block l
      when_some i unmark_initialized
    validate_statement (borrow destination kind place region) = do
      use_place locals block place
      source ← place_type locals block place
      d ← check_local locals block destination
      when_some d λ l. do
        report_unless (borrows_as kind (local_type locals block l) source)
            (invalid_borrow_type block)
        mark_initialized l
    validate_statement (set_discriminant place v) = use_place locals block place
    validate_statement (retag place) = use_place locals block place
    validate_statement (set_drop_flag place b) = do t ← place_type locals block place; skip

  -- the checks of `validate_call` on a callee of this function type
  unfoldable pub call_signature :
      FunctionType → List Ty → Option Place → Option Place → Option BasicBlockId → M (Unit {0})
  unfolding types_compatible_slice report_unless destination_type place_type types_compatible ty_eq
  call_signature (function_type ps result effects generics is_async is_unsafe) arguments destination
        error_destination on_error =
      do
        report_unless (types_compatible_slice arguments (to_list ps))
            (type_mismatch block (tuple (of_list arguments)) (tuple ps))
        let fallible = not is_async && not (is_empty effects)
        report_unless (same_bool fallible (is_some on_error)) (invalid_error_edge block)
        actual ← destination_type error_destination
        report_unless (opt_ty_eq actual (if fallible then some (error_union effects) else none))
            (invalid_error_edge block)
        when_some destination λ d. do
          t ← place_type locals block d
          report_unless (result_fits result t) (type_mismatch block result (or_error t))

  -- the callee's type in `validate_call`
  unfoldable pub call_as :
      Option Ty → List Ty → Option Place → Option Place → Option BasicBlockId → M (Unit {0})
  unfolding call_signature report
  call_as none arguments destination error_destination on_error = skip
  call_as (some (function f)) arguments destination error_destination on_error =
      call_signature f arguments destination error_destination on_error
  call_as (some t) arguments destination error_destination on_error =
      report (invalid_callable block)

  unfoldable pub validate_call :
      Operand → List Operand → Option Place → Option Place → Option BasicBlockId → M (Unit {0})
  unfolding operand_type collect_some call_as
  validate_call callee arguments destination error_destination on_error = do
    t ← operand callee
    ts ← collect_some arguments (operand_type locals block)
    call_as t ts destination error_destination on_error

  -- the result type that a suspension stores, `none` for void
  abbrev pub stored_result : Ty → Option Ty
  stored_result result = if ty_eq result void_type then none else some result

  -- the negation of the first condition of `validate_suspend`
  abbrev pub suspend_result_ok : Option Ty → Option Ty → Bool
  suspend_result_ok none none = true
  suspend_result_ok (some actual) (some expected) = types_compatible actual expected
  suspend_result_ok a e = false

  abbrev pub or_void : Option Ty → Ty
  or_void none = void_type
  or_void (some t) = t

  -- the awaited value's type in `validate_suspend`
  unfoldable pub suspend_as :
      Option Ty → Option Place → Option Place → Option BasicBlockId → M (Unit {0})
  unfolding destination_type report_unless report types_compatible ty_eq
  suspend_as none destination error_destination on_error = skip
  suspend_as (some (promise result e effects)) destination error_destination on_error = do
    actual ← destination_type destination
    report_unless (suspend_result_ok actual (stored_result result))
        (type_mismatch block (or_error actual) (or_void (stored_result result)))
    actual_error ← destination_type error_destination
    report_unless
        (opt_ty_eq actual_error (if is_empty effects then none else some (error_union effects))
          && same_bool (is_empty effects) (not (is_some on_error)))
        (invalid_error_edge block)
  suspend_as (some t) destination error_destination on_error =
      report (type_mismatch block t (promise error_type (primitive PrimitiveType.never) []))

  unfoldable pub validate_suspend :
      Operand → Option Place → Option Place → Option BasicBlockId → M (Unit {0})
  unfolding operand_type suspend_as
  validate_suspend value destination error_destination on_error = do
    t ← operand value
    suspend_as t destination error_destination on_error

  module _ (return_type : Ty) (effects : List DeclarationId) where
    -- a payload of this type may be returned
    unfoldable pub returns_as : Option Ty → Bool
    unfolding ty_eq types_compatible
    returns_as actual =
        if ty_eq return_type void_type
        then not (is_some actual)
        else some_compatible actual return_type

    unfoldable pub validate_return : Option Operand → M (Unit {0})
    unfolding payload_type returns_as report_unless
    validate_return payload = do
      actual ← payload_type payload
      report_unless (returns_as actual) (invalid_return block actual return_type)

    unfoldable pub validate_throw : Option Operand → M (Unit {0})
    unfolding payload_type throws_within report_unless
    validate_throw payload = do
      actual ← payload_type payload
      report_unless (throws_within effects actual) (invalid_throw block)

    unfoldable pub validate_tagged_return : Completion → Option Operand → M (Unit {0})
    unfolding validate_return validate_throw
    validate_tagged_return success payload = validate_return payload
    validate_tagged_return error payload = validate_throw payload

    unfoldable pub validate_terminator : TerminatorKind → M (Unit {0})
    unfolding operand_type valid_switch_type report_unless validate_throw validate_suspend
        validate_call validate_return validate_tagged_return place_type
    validate_terminator (switch value targets otherwise) = do
      t ← operand value
      report_unless (some_switch t) (invalid_switch_type block)
    validate_terminator (throw value) = validate_throw (some value)
    validate_terminator (suspend value destination error_destination resume on_error cancel) =
        validate_suspend value destination error_destination on_error
    validate_terminator
          (call callee receiver arguments destination error_destination on_success on_error) =
        do
          when_some receiver (λ r. do t ← operand r; skip)
          validate_call callee arguments destination error_destination on_error
    validate_terminator (return payload) = validate_return payload
    validate_terminator (tagged_return completion payload) =
        validate_tagged_return completion payload
    validate_terminator (drop place on_success) = do t ← place_type locals block place; skip
    validate_terminator _ = skip
