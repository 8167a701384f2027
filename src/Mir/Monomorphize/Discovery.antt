-- ===== src/Mir/Monomorphize/Discovery.antt =====
-- The discovery of instances in a body: `discover_instances`, the `visit` functions,
-- `discover_callable`, `discover_drop_instance` and `discover_interface_target_methods` of
-- crates/tn-mir/src/monomorphize.rs. What a function adds to `discovered` is a new set.
pub mod Concrete
pub mod Visits
use typenative.Prelude.{
  ℕ, zero, suc, ◌-◌, Bool, true, false, not, ◌&&◌, ◌||◌, List, [], ◌∷◌, map, Option, none, some,
  String, ◌==◌, if◌then◌else◌, length, get_elem?,
}
use typenative.Prelude.Lists as Lists
use typenative.Hir.Types.{
  DeclarationId, Ty, promise, nominal, optional, union, array, slice, tuple, reference, raw_pointer,
  function, error_type, Tys, nil, cons, FunctionType, function_type, unconstrained, of_list,
  to_list,
}
use typenative.Mir.Syntax.{
  Projection, field, dereference, index, Place, Constant, external_function, method, constructor,
  constant_ty, Operand, copy, move, constant, Rvalue, use_operand, unary, checked_binary,
  checked_index, aggregate, closure, template, length_of, vtable_lookup, witness_lookup,
  direct_method, type_test, raw_operation, cast, CastKind, interface_coercion, StatementKind,
  assign, Statement, TerminatorKind, switch, call, return, throw, tagged_return, suspend, drop,
  BasicBlock, Local, BodyOf, Closure, Body,
}
use typenative.Mir.Drops.Elaborate.{is_receiver}
use typenative.Mir.Monomorphize.Types.{Substitutions, get, contains_generic}
use typenative.Mir.Monomorphize.Matching.{matches_target, infer_type}
use typenative.Mir.Monomorphize.Instances.{
  Callable, function_callable, GenericBody, DropImplementation, Instance, MonomorphizationError,
  unresolved_type_parameter, Result, ok, err, ◌>>=◌, Registry, registered, insert_instance, extend,
}

-- `place_type`
unfoldable pub projected : Projection → Ty → Option Ty
projected (field i t) u = some t
projected dereference (reference m l t) = some t
projected dereference (raw_pointer m t) = some t
projected dereference u = none
projected (index l) (array t n) = some t
projected (index l) (slice t) = some t
projected (index l) u = none
projected p u = some u

unfoldable pub projected_all : List Projection → Option Ty → Option Ty
unfolding projected
projected_all [] t = t
projected_all (p ∷ ps) none = none
projected_all (p ∷ ps) (some t) = projected_all ps (projected p t)

abbrev pub local_type : Option Local → Option Ty
local_type none = none
local_type (some l) = some (l.ty)

unfoldable pub type_of_place : List Local → Place → Option Ty
unfolding projected_all
type_of_place ls p = projected_all p.projection (local_type (get_elem? ls p.local))

-- `local.argument`
unfoldable pub arguments_of : List Local → List Local
arguments_of [] = []
arguments_of (l ∷ ls) = if l.argument then l ∷ arguments_of ls else arguments_of ls

-- the loop over the pairs of the last arguments and the parameters
unfoldable pub infer_parameters : List Local → List Ty → Substitutions → Substitutions
unfolding infer_type
infer_parameters [] ts s = s
infer_parameters (l ∷ ls) [] s = s
infer_parameters (l ∷ ls) (t ∷ ts) s = infer_parameters ls ts (infer_type l.ty t s)

-- the first argument that is `this` or `self`
unfoldable pub receiver_of : List Local → Option Local
receiver_of [] = none
receiver_of (l ∷ ls) = if is_receiver l.name then some l else receiver_of ls

-- what the receiver adds: its own type, or the result of a constructor
unfoldable pub infer_receiver : Option Local → Option Ty → Ty → Substitutions → Substitutions
unfolding infer_type
infer_receiver none r result s = s
infer_receiver (some l) (some r) result s = infer_type l.ty r s
infer_receiver (some l) none (nominal i ts) s = infer_type l.ty (nominal i ts) s
infer_receiver (some l) none result s = s

-- the inferred types of the parameters; the first one without a type is the error
unfoldable pub resolve : Callable → Substitutions → List String → Result (List Ty)
unfolding get
resolve c s [] = ok []
resolve c s (p ∷ ps) = elim (get s p) [
  | none ↦ err (unresolved_type_parameter c p)
  | some t ↦ resolve c s ps >>= λ ts. ok (t ∷ ts)
]

unfoldable pub any_contains_generic : List Ty → Bool
unfolding contains_generic
any_contains_generic [] = false
any_contains_generic (t ∷ ts) = contains_generic t || any_contains_generic ts

abbrev pub parameters_of : FunctionType → List Ty
parameters_of (function_type ps r effects generics a u) = to_list ps

abbrev pub result_of : FunctionType → Ty
result_of (function_type ps r effects generics a u) = r

abbrev pub effects_of : FunctionType → List DeclarationId
effects_of (function_type ps r effects generics a u) = effects

-- what a call of a generic body with this signature infers
unfoldable pub inferred_for : {B : Type 0} → BodyOf B → FunctionType → Option Ty → Substitutions
unfolding arguments_of infer_parameters receiver_of infer_receiver infer_type
inferred_for body f receiver_type =
    let arguments = arguments_of body.locals in
    let offset = length arguments - length (parameters_of f) in
    let parameters = infer_parameters (Lists.drop offset arguments) (parameters_of f) [] in
    let received = infer_receiver (receiver_of arguments) receiver_type (result_of f) parameters in
    infer_type body.return_type (result_of f) received

-- The discovered set is passed on, unless there is an error.
abbrev pub M : Type 0
M = List Instance → Result (List Instance)

infixl 5 ◌>>◌
abbrev pub ◌>>◌ : M → M → M
◌>>◌ m k s = m s >>= k

abbrev pub skip : M
skip s = ok s

abbrev pub for_each {ℓ} : {A : Type ℓ} → (A → M) → List A → M
for_each f [] s = ok s
for_each f (x ∷ xs) s = f x s >>= for_each f xs

abbrev pub for_some {ℓ} : {A : Type ℓ} → (A → M) → Option A → M
for_some f none s = ok s
for_some f (some x) s = f x s

module _ (before : Instance → Instance → Bool) {n : ℕ} (registry : Registry n) where
  -- an instance, unless one of its type arguments is generic
  unfoldable pub add_instance : Callable → List DeclarationId → List Ty → M
  unfolding insert_instance any_contains_generic
  add_instance c effects ts s =
      if any_contains_generic ts
      then ok s
      else ok (
          insert_instance before (record { callable = c; type_arguments = ts; effects = effects })
            s)

  unfoldable pub discover_function : Callable → GenericBody n → FunctionType → Option Ty → M
  unfolding inferred_for resolve add_instance
  discover_function c g f receiver_type s =
      resolve c (inferred_for g.body f receiver_type) g.type_parameters >>= λ ts.
      add_instance c (effects_of f) ts s

  abbrev pub discover_registered : Callable → Option (GenericBody n) → Ty → Option Ty → M
  discover_registered c none t receiver_type s = ok s
  discover_registered c (some g) (function f) receiver_type s =
      discover_function c g f receiver_type s
  discover_registered c (some g) t receiver_type s = ok s

  unfoldable pub discover_callable : Callable → Ty → Option Ty → M
  unfolding registered discover_function
  discover_callable c t receiver_type s =
      discover_registered c (registered registry c) t receiver_type s

  -- one drop implementation, with the match of its target and its body
  unfoldable pub discover_implementation :
      Callable → Bool × Substitutions → Option (GenericBody n) → M
  unfolding resolve add_instance
  discover_implementation c (false, inferred) g s = ok s
  discover_implementation c (true, inferred) none s = ok s
  discover_implementation c (true, inferred) (some g) s =
      resolve c inferred g.type_parameters >>= λ ts. add_instance c [] ts s

  module _ (implementations : List DropImplementation) where
    unfoldable pub discover_drop_instance : Ty → M
    unfolding matches_target registered discover_implementation
    discover_drop_instance t =
        for_each
          (λ i.
            discover_implementation i.callable (matches_target i.target t [])
              (registered registry i.callable))
          implementations

    unfoldable pub visit_constant : Constant → M
    unfolding discover_callable
    visit_constant (Constant.function d t) = discover_callable (function_callable d) t none
    visit_constant (method d m t) =
        discover_callable (record { declaration = d; member = some m }) t none
    visit_constant (constructor d (some m) t) =
        discover_callable (record { declaration = d; member = some m }) t none
    visit_constant (constructor d none t) = discover_callable (function_callable d) t none
    visit_constant _ = skip

    unfoldable pub visit_operand : Operand → M
    unfolding visit_constant
    visit_operand (constant c) = visit_constant c
    visit_operand _ = skip

    abbrev pub type_of_operand : List Local → Operand → Option Ty
    type_of_operand ls (copy p) = type_of_place ls p
    type_of_operand ls (move p) = type_of_place ls p
    type_of_operand ls (constant c) = some (constant_ty c)

    -- the signature of a method's generic body, less its receiver
    unfoldable pub method_parameters : List Local → List Ty
    method_parameters [] = []
    method_parameters (l ∷ ls) =
        if l.argument && not (is_receiver l.name)
        then l.ty ∷ method_parameters ls
        else method_parameters ls

    unfoldable pub method_signature : GenericBody n → Ty
    unfolding method_parameters
    method_signature g = function (
        function_type (of_list (method_parameters g.body.locals)) g.body.return_type g.body.effects
          unconstrained false false)

    abbrev pub is_some {ℓ} : {A : Type ℓ} → Option A → Bool
    is_some none = false
    is_some (some a) = true

    unfoldable pub discover_methods : DeclarationId → Ty → M
    unfolding discover_callable method_signature
    discover_methods d source =
        for_each
          (λ (c, g) s.
            if c.declaration == d && is_some c.member
            then discover_callable c (method_signature g) (some source) s
            else ok s)
          registry

    unfoldable pub discover_interface_target_methods : Option Ty → M
    unfolding discover_methods contains_generic
    discover_interface_target_methods (some (nominal d ts)) s =
        if contains_generic (nominal d ts) then ok s else discover_methods d (nominal d ts) s
    discover_interface_target_methods _ s = ok s

    -- `place_type(body, object).unwrap_or(Type::Error)`
    abbrev pub or_error : Option Ty → Ty
    or_error none = error_type
    or_error (some t) = t

    module _ (locals : List Local) where
      -- the arm of a call: a method is found by its receiver's type
      unfoldable pub visit_callee : Operand → Option Operand → M
      unfolding discover_callable visit_operand type_of_place constant_ty
      visit_callee (constant (method d m t)) none =
          discover_callable (record { declaration = d; member = some m }) t none
      visit_callee (constant (method d m t)) (some receiver) =
          discover_callable (record { declaration = d; member = some m }) t
            (type_of_operand locals receiver)
      visit_callee f receiver = visit_operand f

      unfoldable pub visit_terminator : TerminatorKind → M
      unfolding visit_operand visit_callee type_of_place discover_drop_instance
      visit_terminator (switch value targets otherwise) = visit_operand value
      visit_terminator (throw value) = visit_operand value
      visit_terminator (suspend value d e resume on_error cancel) = visit_operand value
      visit_terminator (return payload) = for_some visit_operand payload
      visit_terminator (tagged_return c payload) = for_some visit_operand payload
      visit_terminator (call f receiver arguments d e on_success on_error) =
          visit_callee f receiver
          >> for_some visit_operand receiver
          >> for_each visit_operand arguments
      visit_terminator (drop p t) = for_some discover_drop_instance (type_of_place locals p)
      visit_terminator _ = skip

      module _ {B : Type 0} (nested : B → Result (List Instance)) where
        unfoldable pub visit_rvalue : Rvalue B → M
        unfolding visit_operand discover_interface_target_methods type_of_place constant_ty
            discover_drop_instance discover_callable extend
        visit_rvalue (use_operand o) = visit_operand o
        visit_rvalue (unary op o t u) = visit_operand o
        visit_rvalue (type_test o t) = visit_operand o
        visit_rvalue (cast o t interface_coercion) =
            visit_operand o >> discover_interface_target_methods (type_of_operand locals o)
        visit_rvalue (cast o t kind) = visit_operand o
        visit_rvalue (checked_binary op l r t u) = visit_operand l >> visit_operand r
        visit_rvalue (checked_index c i) = visit_operand i
        visit_rvalue (closure id f captures body) = for_each visit_operand captures >> λ s.
            nested body >>= λ found. ok (extend before found s)
        visit_rvalue (template id parts captures t) = for_each visit_operand captures
        visit_rvalue (raw_operation name os t) = for_each visit_operand os
        visit_rvalue (aggregate t v fields ts) =
            for_each visit_operand fields
            >> discover_drop_instance t
            >> for_each discover_drop_instance ts
        visit_rvalue (direct_method p i m r t) =
            discover_callable (record { declaration = i; member = some m }) t
              (some (or_error (type_of_place locals p)))
        visit_rvalue (vtable_lookup p i m k r t) =
            discover_callable (record { declaration = i; member = some m }) t
              (some (or_error (type_of_place locals p)))
        visit_rvalue (length_of p) = skip
        visit_rvalue (witness_lookup p i k r t) = skip

        abbrev pub visit_statement : StatementKind B → M
        visit_statement (assign p v) = visit_rvalue v
        visit_statement _ = skip

        abbrev pub visit_block : BasicBlock B → M
        visit_block b =
            for_each (λ x. visit_statement (x.kind)) b.statements
            >> visit_terminator b.terminator.kind

    unfoldable pub discover_in :
        {B : Type 0} → (B → Result (List Instance)) → BodyOf B → Result (List Instance)
    unfolding discover_drop_instance visit_rvalue visit_terminator
    discover_in nested body =
        (for_each (λ l. discover_drop_instance l.ty) body.locals
            >> for_each (visit_block body.locals nested) body.blocks)
          []

    unfoldable pub discover_closure : (k : ℕ) → Closure k → Result (List Instance)
    unfolding discover_in
    discover_closure zero c = ok []
    discover_closure (suc k) c = discover_in (discover_closure k) c

    unfoldable pub discover_instances : (k : ℕ) → Body k → Result (List Instance)
    unfolding discover_in discover_closure
    discover_instances k body = discover_in (discover_closure k) body
