-- ===== src/Mir/Validate/Monotone/Terminators.antt =====
-- `validate_statement` and `validate_terminator` of validate.rs are monotone.
use typenative.Prelude.{
  length, ◌≤◌, arith, ℕ, not, ◌&&◌, List, [], Option, none, some, if◌then◌else◌,
}
use typenative.Hir.Types.{
  PrimitiveType, DeclarationId, Ty, primitive, promise, tuple, function, error_union, error_type,
  FunctionType, function_type, to_list, of_list,
}
use typenative.Mir.Syntax.{
  Place, Operand, Local, BasicBlockId, StatementKind, assign, set_discriminant, storage_live,
  storage_dead, borrow, retag, set_drop_flag, success, error, TerminatorKind, switch, call, return,
  throw, tagged_return, suspend, drop,
}
use typenative.Mir.Compatible.{types_compatible_slice}
use typenative.Mir.Validate.Check.{
  report_unless, ◌>>◌, mark_initialized, type_mismatch, invalid_error_edge, invalid_return,
  invalid_borrow_type, invalid_callable, invalid_throw, invalid_switch_type,
}
use typenative.Mir.Validate.Places.{is_local, local_type}
use typenative.Mir.Validate.Rvalues.{ClosureView, or_error}
use typenative.Mir.Validate.Statements.{
  borrows_as, assignable, throws_within, some_switch, is_some, is_empty, result_fits, opt_ty_eq,
  same_bool, payload_type, destination_type, validate_statement, call_signature, call_as,
  validate_call, stored_result, suspend_result_ok, or_void, suspend_as, validate_suspend,
  returns_as, validate_return, validate_throw, validate_tagged_return, validate_terminator,
}
use typenative.Mir.Validate.Bodies.{statement_bound}
use typenative.Mir.Validate.Monotone.{
  Mono, Mono-pure, ◌⟫◌, Mono-report, Mono-report_unless, Mono-collect_some, Mono-when_some, Mono-if,
  Mono-mark, Mono-unmark, check_local-Mono, check_local-then, place_type-Mono, use_place-Mono,
  operand_type-Mono,
}
use typenative.Mir.Validate.Monotone.Rvalues.{rvalue_type-Mono}

module _ {b : ℕ} (locals : List Local) (block : ℕ) where
  payload_type-Mono : (o : Option Operand) → Mono b (payload_type locals block o)
  unfolding payload_type
  payload_type-Mono none = Mono-pure none
  payload_type-Mono (some o) = operand_type-Mono locals block o

  destination_type-Mono : (o : Option Place) → Mono b (destination_type locals block o)
  unfolding destination_type
  destination_type-Mono none = Mono-pure none
  destination_type-Mono (some p) = place_type-Mono locals block p

  pub validate_statement-Mono :
      {B : Type 0} (view : B → ClosureView) (k : StatementKind B)
      → length locals ≤ b
      → statement_bound k ≤ b
      → Mono b (validate_statement locals block view k)
  unfolding validate_statement
  validate_statement-Mono view (assign place value) fits bound =
      place_type-Mono locals block place ⟫ λ destination.
      rvalue_type-Mono locals block view value ⟫ λ source.
      Mono-report_unless (assignable destination source)
        (type_mismatch block (or_error source) (or_error destination))
      ⟫ λ _. Mono-if (is_local place) (Mono-mark (place.local) bound) (Mono-pure tt)
  validate_statement-Mono view (storage_live l) fits bound =
      check_local-Mono locals block l ⟫ λ _. Mono-pure tt
  validate_statement-Mono view (storage_dead l) fits bound =
      check_local-Mono locals block l ⟫ λ i. Mono-when_some i Mono-unmark
  validate_statement-Mono view (borrow destination kind place region) fits bound =
      use_place-Mono locals block place ⟫ λ _. place_type-Mono locals block place ⟫ λ source.
      check_local-then locals block destination
        (λ l.
          report_unless (borrows_as kind (local_type locals block l) source)
            (invalid_borrow_type block)
          >> mark_initialized l)
        λ lt.
          Mono-report_unless (borrows_as kind (local_type locals block destination) source)
            (invalid_borrow_type block)
          ⟫ λ _. Mono-mark destination (omega arith)
  validate_statement-Mono view (set_discriminant place v) fits bound =
      use_place-Mono locals block place
  validate_statement-Mono view (retag place) fits bound = use_place-Mono locals block place
  validate_statement-Mono view (set_drop_flag place b) fits bound =
      place_type-Mono locals block place ⟫ λ _. Mono-pure tt

  call_signature-Mono :
      (f : FunctionType) (arguments : List Ty) (d e : Option Place) (on_error : Option BasicBlockId)
      → Mono b (call_signature locals block f arguments d e on_error)
  unfolding call_signature
  call_signature-Mono (function_type ps result effects generics is_async is_unsafe) arguments d e
        on_error =
      let fallible = not is_async && not (is_empty effects) in
      Mono-report_unless (types_compatible_slice arguments (to_list ps))
        (type_mismatch block (tuple (of_list arguments)) (tuple ps))
      ⟫ λ _.
          Mono-report_unless (same_bool fallible (is_some on_error)) (invalid_error_edge block)
          ⟫ λ _. destination_type-Mono e ⟫ λ actual.
              Mono-report_unless
                (opt_ty_eq actual (if fallible then some (error_union effects) else none))
                (invalid_error_edge block)
              ⟫ λ _. Mono-when_some d λ p. place_type-Mono locals block p ⟫ λ t.
                  Mono-report_unless (result_fits result t)
                    (type_mismatch block result (or_error t))

  call_as-Mono :
      (t : Option Ty) (arguments : List Ty) (d e : Option Place) (on_error : Option BasicBlockId)
      → Mono b (call_as locals block t arguments d e on_error)
  unfolding call_as
  call_as-Mono none arguments d e on_error = Mono-pure tt
  call_as-Mono (some (function f)) arguments d e on_error =
      call_signature-Mono f arguments d e on_error
  call_as-Mono (some t) arguments d e on_error = Mono-report (invalid_callable block)

  validate_call-Mono :
      (callee : Operand) (arguments : List Operand) (d e : Option Place)
      (on_error : Option BasicBlockId)
      → Mono b (validate_call locals block callee arguments d e on_error)
  unfolding validate_call
  validate_call-Mono callee arguments d e on_error = operand_type-Mono locals block callee ⟫ λ t.
      Mono-collect_some arguments (operand_type-Mono locals block) ⟫ λ ts.
      call_as-Mono t ts d e on_error

  suspend_as-Mono :
      (t : Option Ty) (d e : Option Place) (on_error : Option BasicBlockId)
      → Mono b (suspend_as locals block t d e on_error)
  unfolding suspend_as
  suspend_as-Mono none d e on_error = Mono-pure tt
  suspend_as-Mono (some (promise result t effects)) d e on_error =
      let stored = stored_result locals block result in
      destination_type-Mono d ⟫ λ actual.
      Mono-report_unless (suspend_result_ok locals block actual stored)
        (type_mismatch block (or_error actual) (or_void locals block stored))
      ⟫ λ _. destination_type-Mono e ⟫ λ actual_error.
          Mono-report_unless
            (opt_ty_eq actual_error (if is_empty effects then none else some (error_union effects))
              && same_bool (is_empty effects) (not (is_some on_error)))
            (invalid_error_edge block)
  suspend_as-Mono (some t) d e on_error =
      Mono-report (type_mismatch block t (promise error_type (primitive PrimitiveType.never) []))

  module _ (return_type : Ty) (effects : List DeclarationId) where
    validate_return-Mono :
        (p : Option Operand) → Mono b (validate_return locals block return_type effects p)
    unfolding validate_return
    validate_return-Mono p = payload_type-Mono p ⟫ λ actual.
        Mono-report_unless (returns_as locals block return_type effects actual)
          (invalid_return block actual return_type)

    validate_throw-Mono :
        (p : Option Operand) → Mono b (validate_throw locals block return_type effects p)
    unfolding validate_throw
    validate_throw-Mono p = payload_type-Mono p ⟫ λ actual.
        Mono-report_unless (throws_within effects actual) (invalid_throw block)

    pub validate_terminator-Mono :
        (k : TerminatorKind) → Mono b (validate_terminator locals block return_type effects k)
    unfolding validate_terminator validate_suspend validate_tagged_return
    validate_terminator-Mono (switch value targets otherwise) =
        operand_type-Mono locals block value ⟫ λ t.
        Mono-report_unless (some_switch t) (invalid_switch_type block)
    validate_terminator-Mono (throw value) = validate_throw-Mono (some value)
    validate_terminator-Mono (suspend value d e resume on_error cancel) =
        operand_type-Mono locals block value ⟫ λ t. suspend_as-Mono t d e on_error
    validate_terminator-Mono (call callee receiver arguments d e on_success on_error) =
        Mono-when_some receiver (λ r. operand_type-Mono locals block r ⟫ λ _. Mono-pure tt) ⟫ λ _.
        validate_call-Mono callee arguments d e on_error
    validate_terminator-Mono (return payload) = validate_return-Mono payload
    validate_terminator-Mono (tagged_return success payload) = validate_return-Mono payload
    validate_terminator-Mono (tagged_return error payload) = validate_throw-Mono payload
    validate_terminator-Mono (drop place on_success) =
        place_type-Mono locals block place ⟫ λ _. Mono-pure tt
    validate_terminator-Mono _ = Mono-pure tt
