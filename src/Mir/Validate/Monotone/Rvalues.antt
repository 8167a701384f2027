-- ===== src/Mir/Validate/Monotone/Rvalues.antt =====
-- `rvalue_type` of validate.rs and the functions for its cases are monotone.
use typenative.Prelude.{
  length, Bool, ℕ, ◌-◌, ◌&&◌, List, [], ◌∷◌, Option, none, some, get_elem?, length, take, drop,
}
use typenative.Hir.Types.{
  Ty, array, slice, tuple, function, template, error_type, FunctionType, function_type,
  unconstrained, to_list, of_list, ty_eq, effects_eq, usize_type, bool_type,
}
use typenative.Mir.Syntax.{
  Place, Operand, Local, TemplatePart, literal, interpolation, Rvalue, use_operand, unary,
  checked_binary, checked_index, aggregate, closure, length_of, vtable_lookup, witness_lookup,
  direct_method, type_test, raw_operation, cast,
}
use typenative.Mir.Compatible.{types_compatible_slice}
use typenative.Mir.Validate.Check.{
  type_mismatch, invalid_projection, invalid_template_capture, ◌>>=◌, ◌>>◌, pure,
}
use typenative.Mir.Validate.Rvalues.{
  ClosureView, types_eq, some_compatible, or_error, argument_types, unary_type, binary_type,
  stored_value, template_part, template_captures, template_rvalue_type, element_type, index_into,
  checked_index_type, aggregate_rvalue_type, closure_checks, closure_rvalue_type, rvalue_type,
  same_ty, interpolated,
}
use typenative.Mir.Validate.Monotone.{
  Mono, Mono-pure, ◌⟫◌, Mono-report, Mono-report_all, Mono-report_unless, Mono-for_each,
  Mono-collect_some, place_type-Mono, use_place-Mono, operand_type-Mono,
}
use typenative.Mir.Validate.Places.{use_place, operand_type}

module _ {b : ℕ} (locals : List Local) (block : ℕ) where
  unary_type-Mono :
      (o : Operand) (expected result : Ty) → Mono b (unary_type locals block o expected result)
  unfolding unary_type
  unary_type-Mono o expected result = operand_type-Mono locals block o ⟫ λ actual.
      Mono-report_unless (same_ty actual expected) (type_mismatch block (or_error actual) expected)
      ⟫ λ _. Mono-pure (some result)

  binary_type-Mono :
      (l r : Operand) (expected result : Ty) → Mono b (binary_type locals block l r expected result)
  unfolding binary_type
  binary_type-Mono l r expected result = operand_type-Mono locals block l ⟫ λ left.
      operand_type-Mono locals block r ⟫ λ right.
      Mono-report_unless (some_compatible left expected && some_compatible right expected) (
        type_mismatch block (tuple (of_list (or_error left ∷ or_error right ∷ [])))
          (tuple (of_list (expected ∷ expected ∷ []))))
      ⟫ λ _. Mono-pure (some result)

  part_at-Mono :
      (capture : ℕ) (value_type : Ty) (o : Option Ty)
      → Mono b (interpolated locals block capture value_type o)
  unfolding interpolated
  part_at-Mono capture value_type none = Mono-report (invalid_template_capture block capture)
  part_at-Mono capture value_type (some t) =
      Mono-report_unless (ty_eq (stored_value locals block t) value_type)
        (type_mismatch block (stored_value locals block t) value_type)

  template_part-Mono :
      (actual : List Ty) (p : TemplatePart) → Mono b (template_part locals block actual p)
  unfolding template_part
  template_part-Mono actual (literal s) = Mono-pure tt
  template_part-Mono actual (interpolation capture value_type) =
      part_at-Mono capture value_type (get_elem? actual capture)

  template_captures-Mono :
      (parts : List TemplatePart) (actual : List Ty) (ty : Ty)
      → Mono b (template_captures locals block parts actual ty)
  unfolding template_captures
  template_captures-Mono parts actual (template expected) =
      Mono-report_unless (types_eq actual (to_list expected))
        (type_mismatch block (tuple (of_list actual)) (tuple expected))
      ⟫ λ _. Mono-for_each parts (template_part-Mono actual)
  template_captures-Mono parts actual ty =
      Mono-report (type_mismatch block ty (template (of_list actual)))

  template_rvalue_type-Mono :
      (parts : List TemplatePart) (captures : List Operand) (ty : Ty)
      → Mono b (template_rvalue_type locals block parts captures ty)
  unfolding template_rvalue_type
  template_rvalue_type-Mono parts captures ty =
      Mono-collect_some captures (operand_type-Mono locals block) ⟫ λ actual.
      template_captures-Mono parts actual ty ⟫ λ _. Mono-pure (some ty)

  element_type-Mono : (t : Ty) → Mono b (element_type locals block t)
  unfolding element_type
  element_type-Mono (array t n) = Mono-pure (some t)
  element_type-Mono (slice t) = Mono-pure (some t)
  element_type-Mono _ = Mono-report (invalid_projection block) ⟫ λ _. Mono-pure (some error_type)

  index_into-Mono : (i : Operand) (o : Option Ty) → Mono b (index_into locals block i o)
  unfolding index_into
  index_into-Mono i none = Mono-pure none
  index_into-Mono i (some t) = operand_type-Mono locals block i ⟫ λ _. element_type-Mono t

  checked_index_type-Mono :
      (collection : Place) (i : Operand) → Mono b (checked_index_type locals block collection i)
  unfolding checked_index_type
  checked_index_type-Mono collection i =
      place_type-Mono locals block collection ⟫ λ t. index_into-Mono i t

  aggregate_rvalue_type-Mono :
      (ty : Ty) (fields : List Operand) (field_types : List Ty)
      → Mono b (aggregate_rvalue_type locals block ty fields field_types)
  unfolding aggregate_rvalue_type
  aggregate_rvalue_type-Mono ty fields field_types =
      Mono-collect_some fields (operand_type-Mono locals block) ⟫ λ actual.
      Mono-report_unless (types_compatible_slice actual field_types)
        (type_mismatch block (tuple (of_list actual)) (tuple (of_list field_types)))
      ⟫ λ _. Mono-pure (some ty)

  closure_checks-Mono :
      (f : FunctionType) (captured : List Ty) (v : ClosureView)
      → Mono b (closure_checks locals block f captured v)
  unfolding closure_checks
  closure_checks-Mono (function_type ps result effects generics is_async is_unsafe) captured v =
      let arguments = argument_types v.locals in
      let count = length arguments - length (to_list ps) in
      Mono-report_unless (types_compatible_slice captured (take count arguments))
        (type_mismatch block (tuple (of_list captured)) (tuple (of_list (take count arguments))))
      ⟫ λ _.
          Mono-report_unless
            (types_eq (drop count arguments) (to_list ps)
              && ty_eq v.return_type result
              && effects_eq v.effects effects)
            (type_mismatch block
              (function (
                function_type (of_list (drop count arguments)) v.return_type v.effects unconstrained
                  Bool.false Bool.false))
              (function (function_type ps result effects generics is_async is_unsafe)))
          ⟫ λ _. Mono-report_all v.errors

  closure_rvalue_type-Mono :
      (f : FunctionType) (captures : List Operand) (v : ClosureView)
      → Mono b (closure_rvalue_type locals block f captures v)
  unfolding closure_rvalue_type
  closure_rvalue_type-Mono f captures v =
      Mono-collect_some captures (operand_type-Mono locals block) ⟫ λ captured.
      closure_checks-Mono f captured v ⟫ λ _. Mono-pure (some (function f))

  module _ {B : Type 0} (view : B → ClosureView) where
    looked_up :
        (object : Place) (ty : Ty) → Mono b (do use_place locals block object; pure (some ty))
    looked_up object ty = use_place-Mono locals block object ⟫ λ _. Mono-pure (some ty)

    typed : (o : Operand) (ty : Ty) → Mono b (do t ← operand_type locals block o; pure (some ty))
    typed o ty = operand_type-Mono locals block o ⟫ λ _. Mono-pure (some ty)

    pub rvalue_type-Mono : (v : Rvalue B) → Mono b (rvalue_type locals block view v)
    unfolding rvalue_type
    rvalue_type-Mono (use_operand o) = operand_type-Mono locals block o
    rvalue_type-Mono (unary op o expected result) = unary_type-Mono o expected result
    rvalue_type-Mono (checked_binary op l r expected result) = binary_type-Mono l r expected result
    rvalue_type-Mono (checked_index collection i) = checked_index_type-Mono collection i
    rvalue_type-Mono (aggregate ty variant fields field_types) =
        aggregate_rvalue_type-Mono ty fields field_types
    rvalue_type-Mono (closure id f captures b) = closure_rvalue_type-Mono f captures (view b)
    rvalue_type-Mono (Rvalue.template id parts captures ty) =
        template_rvalue_type-Mono parts captures ty
    rvalue_type-Mono (length_of p) = looked_up p usize_type
    rvalue_type-Mono (vtable_lookup object i m slot receiver ty) = looked_up object ty
    rvalue_type-Mono (witness_lookup object i slot receiver ty) = looked_up object ty
    rvalue_type-Mono (direct_method object i m receiver ty) = looked_up object ty
    rvalue_type-Mono (type_test o target) = typed o bool_type
    rvalue_type-Mono (raw_operation name os ty) =
        Mono-collect_some os (operand_type-Mono locals block) ⟫ λ _. Mono-pure (some ty)
    rvalue_type-Mono (cast o ty kind) = typed o ty
