-- ===== src/Mir/Validate/Rvalues.antt =====
-- `rvalue_type` of crates/tn-mir/src/validate.rs and the functions for its larger cases. A closure's
-- body enters by `view`: its header, and the errors of `validate` on it.
use typenative.Prelude.{
  ℕ, ◌-◌, Bool, false, ◌&&◌, List, [], ◌∷◌, Option, none, some, if◌then◌else◌, length, get_elem?,
  take, drop,
}
use typenative.Hir.Types.{
  DeclarationId, Ty, array, slice, tuple, reference, function, template, error_type, FunctionType,
  function_type, unconstrained, to_list, of_list, ty_eq, effects_eq, usize_type, bool_type,
}
use typenative.Mir.Syntax.{
  Place, Operand, Local, TemplatePart, literal, interpolation, Rvalue, use_operand, unary,
  checked_binary, checked_index, aggregate, closure, length_of, vtable_lookup, witness_lookup,
  direct_method, type_test, raw_operation, cast,
}
use typenative.Mir.Compatible.{types_compatible, types_compatible_slice}
use typenative.Mir.Validate.Check.{
  MirValidationError, type_mismatch, invalid_projection, invalid_template_capture, M, ◌>>=◌, ◌>>◌,
  pure, skip, report, report_all, report_unless, for_each, collect_some,
}
use typenative.Mir.Validate.Places.{place_type, use_place, operand_type}

-- What the validator reads of a closure's body.
pub record ClosureView : Type 0 where
  pub locals : List Local
  pub return_type : Ty
  pub effects : List DeclarationId
  pub errors : List MirValidationError

abbrev pub types_eq : List Ty → List Ty → Bool
types_eq as_ es = ty_eq (tuple (of_list as_)) (tuple (of_list es))

-- `o.is_some_and(|t| types_compatible(t, expected))`
abbrev pub some_compatible : Option Ty → Ty → Bool
some_compatible none e = false
some_compatible (some a) e = types_compatible a e

abbrev pub same_ty : Option Ty → Ty → Bool
same_ty none e = false
same_ty (some a) e = ty_eq a e

abbrev pub or_error : Option Ty → Ty
or_error none = error_type
or_error (some t) = t

-- the argument types, `locals.iter().filter(|local| local.argument)`
unfoldable pub argument_types : List Local → List Ty
argument_types [] = []
argument_types (l ∷ ls) = if l.argument then l.ty ∷ argument_types ls else argument_types ls

module _ (locals : List Local) (block : ℕ) where
  abbrev operand : Operand → M (Option Ty)
  operand = operand_type locals block

  abbrev operands : List Operand → M (List Ty)
  operands os = collect_some os (operand_type locals block)

  -- `mismatch` unless the test holds
  abbrev expect : Bool → Ty → Ty → M (Unit {0})
  expect ok actual expected = report_unless ok (type_mismatch block actual expected)

  unfoldable pub unary_type : Operand → Ty → Ty → M (Option Ty)
  unfolding operand_type report_unless ty_eq
  unary_type o expected result = do
    actual ← operand o
    expect (same_ty actual expected) (or_error actual) expected
    pure (some result)

  unfoldable pub binary_type : Operand → Operand → Ty → Ty → M (Option Ty)
  unfolding operand_type report_unless types_compatible
  binary_type l r expected result = do
    left ← operand l
    right ← operand r
    expect (some_compatible left expected && some_compatible right expected)
        (tuple (of_list (or_error left ∷ or_error right ∷ [])))
        (tuple (of_list (expected ∷ expected ∷ [])))
    pure (some result)

  unfoldable pub stored_value : Ty → Ty
  stored_value (reference m l referent) = referent
  stored_value t = t

  -- the capture of an interpolation, if it is there
  unfoldable pub interpolated : ℕ → Ty → Option Ty → M (Unit {0})
  unfolding stored_value ty_eq report_unless report
  interpolated capture value_type none = report (invalid_template_capture block capture)
  interpolated capture value_type (some t) =
      expect (ty_eq (stored_value t) value_type) (stored_value t) value_type

  -- the loop over the parts in `template_rvalue_type`
  unfoldable pub template_part : List Ty → TemplatePart → M (Unit {0})
  unfolding interpolated
  template_part actual (literal s) = skip
  template_part actual (interpolation capture value_type) =
      interpolated capture value_type (get_elem? actual capture)

  -- `template_rvalue_type` at the type of the template, after its captures are typed
  unfoldable pub template_captures : List TemplatePart → List Ty → Ty → M (Unit {0})
  unfolding template_part for_each ty_eq report_unless report
  template_captures parts actual (template expected) = do
    expect (types_eq actual (to_list expected)) (tuple (of_list actual)) (tuple expected)
    for_each parts (template_part actual)
  template_captures parts actual ty = report (type_mismatch block ty (template (of_list actual)))

  unfoldable pub template_rvalue_type : List TemplatePart → List Operand → Ty → M (Option Ty)
  unfolding operand_type collect_some template_captures
  template_rvalue_type parts captures ty = do
    actual ← operands captures
    template_captures parts actual ty
    pure (some ty)

  -- the element type of a collection
  unfoldable pub element_type : Ty → M (Option Ty)
  unfolding report
  element_type (array t n) = pure (some t)
  element_type (slice t) = pure (some t)
  element_type _ = do report (invalid_projection block); pure (some error_type)

  -- The rest of `checked_index_type`, after its `?`: the index is looked at only if the collection
  -- has a type.
  unfoldable pub index_into : Operand → Option Ty → M (Option Ty)
  unfolding operand_type element_type
  index_into i none = pure none
  index_into i (some t) = do o ← operand i; element_type t

  unfoldable pub checked_index_type : Place → Operand → M (Option Ty)
  unfolding place_type index_into
  checked_index_type collection i = do t ← place_type locals block collection; index_into i t

  unfoldable pub aggregate_rvalue_type : Ty → List Operand → List Ty → M (Option Ty)
  unfolding operand_type collect_some types_compatible_slice report_unless
  aggregate_rvalue_type ty fields field_types = do
    actual ← operands fields
    expect (types_compatible_slice actual field_types) (tuple (of_list actual))
        (tuple (of_list field_types))
    pure (some ty)

  -- the part of `closure_rvalue_type` after the captures are typed: `own` are the parameters of the
  -- function type, `arguments` those of the body, its captures first
  unfoldable pub closure_checks : FunctionType → List Ty → ClosureView → M (Unit {0})
  unfolding argument_types types_compatible_slice ty_eq effects_eq report_unless report_all
  closure_checks (function_type ps result effects generics is_async is_unsafe) captured v = do
    let arguments = argument_types v.locals
    let count = length arguments - length (to_list ps)
    expect (types_compatible_slice captured (take count arguments)) (tuple (of_list captured))
        (tuple (of_list (take count arguments)))
    expect
        (types_eq (drop count arguments) (to_list ps)
          && ty_eq v.return_type result
          && effects_eq v.effects effects)
        (function (
          function_type (of_list (drop count arguments)) v.return_type v.effects unconstrained false
            false))
        (function (function_type ps result effects generics is_async is_unsafe))
    report_all v.errors

  unfoldable pub closure_rvalue_type : FunctionType → List Operand → ClosureView → M (Option Ty)
  unfolding operand_type collect_some closure_checks
  closure_rvalue_type f captures v = do
    captured ← operands captures
    closure_checks f captured v
    pure (some (function f))

  module _ {B : Type 0} (view : B → ClosureView) where
    unfoldable pub rvalue_type : Rvalue B → M (Option Ty)
    unfolding operand_type unary_type binary_type template_rvalue_type checked_index_type
        aggregate_rvalue_type closure_rvalue_type use_place collect_some
    rvalue_type (use_operand o) = operand o
    rvalue_type (unary op o expected result) = unary_type o expected result
    rvalue_type (checked_binary op l r expected result) = binary_type l r expected result
    rvalue_type (checked_index collection i) = checked_index_type collection i
    rvalue_type (aggregate ty variant fields field_types) =
        aggregate_rvalue_type ty fields field_types
    rvalue_type (closure id f captures b) = closure_rvalue_type f captures (view b)
    rvalue_type (Rvalue.template id parts captures ty) = template_rvalue_type parts captures ty
    rvalue_type (length_of p) = do use_place locals block p; pure (some usize_type)
    rvalue_type (vtable_lookup object i m slot receiver ty) = do
      use_place locals block object
      pure (some ty)
    rvalue_type (witness_lookup object i slot receiver ty) = do
      use_place locals block object
      pure (some ty)
    rvalue_type (direct_method object i m receiver ty) = do
      use_place locals block object
      pure (some ty)
    rvalue_type (type_test o target) = do t ← operand o; pure (some bool_type)
    rvalue_type (raw_operation name os ty) = do ts ← operands os; pure (some ty)
    rvalue_type (cast o ty kind) = do t ← operand o; pure (some ty)
