-- ===== src/Mir/Monomorphize/Discovery/Visits.antt =====
-- The visits of discovery keep the instances concrete.
use typenative.Prelude.{ℕ, zero, suc, Bool, List, [], Option, none, some, inl, inr, Bool-cases}
use typenative.Hir.Types.{Ty, nominal}
use typenative.Mir.Syntax.{
  method, Operand, constant, Rvalue, use_operand, unary, checked_binary, checked_index, aggregate,
  closure, length_of, vtable_lookup, witness_lookup, direct_method, type_test, raw_operation, cast,
  interface_coercion, StatementKind, assign, Statement, TerminatorKind, goto, switch, call, return,
  throw, tagged_return, suspend, drop, abort, unreachable, BasicBlock, Local, BodyOf, Closure, Body,
}
use typenative.Mir.Monomorphize.Types.{contains_generic}
use typenative.Mir.Monomorphize.Instances.{
  DropImplementation, Instance, Result, ok, err, ◌>>=◌, Registry, extend,
}
use typenative.Mir.Monomorphize.Discovery.{
  ◌>>◌, for_each, for_some, discover_drop_instance, visit_operand, type_of_operand,
  discover_interface_target_methods, or_error, type_of_place, visit_callee, visit_terminator,
  visit_rvalue, visit_statement, visit_block, discover_in, discover_closure, discover_instances,
}
use typenative.Mir.Monomorphize.Discovery.Concrete.{
  OkConcrete, Keeps, then-Keeps, for_each-Keeps, for_some-Keeps, extend-All,
  discover_callable-Keeps, discover_drop_instance-Keeps, visit_operand-Keeps, operands-Keeps,
  discover_methods-Keeps,
}

module _ (before : Instance → Instance → Bool) {n : ℕ} (registry : Registry n)
    (implementations : List DropImplementation) where
  interface-Keeps :
      (o : Option Ty) → Keeps (discover_interface_target_methods before registry implementations o)
  unfolding discover_interface_target_methods
  interface-Keeps none s h = h
  interface-Keeps (some (nominal d ts)) s h = elim (Bool-cases (contains_generic (nominal d ts))) [
    | inl open_type ↦ rw open_type h
    | inr closed ↦
        rw closed ((discover_methods-Keeps before registry implementations) d (nominal d ts) s h)
  ]
  interface-Keeps (some t) s h = h

  module _ (locals : List Local) where
    visit_callee-Keeps :
        (f : Operand) (r : Option Operand)
        → Keeps (visit_callee before registry implementations locals f r)
    unfolding visit_callee
    visit_callee-Keeps (constant (method d m t)) none =
        discover_callable-Keeps before registry (record { declaration = d; member = some m }) t none
    visit_callee-Keeps (constant (method d m t)) (some r) =
        discover_callable-Keeps before registry (record { declaration = d; member = some m }) t
          (type_of_operand before registry implementations locals r)
    visit_callee-Keeps f r = (visit_operand-Keeps before registry implementations) f

    visit_terminator-Keeps :
        (k : TerminatorKind) → Keeps (visit_terminator before registry implementations locals k)
    unfolding visit_terminator
    visit_terminator-Keeps (switch v ts o) = (visit_operand-Keeps before registry implementations) v
    visit_terminator-Keeps (throw v) = (visit_operand-Keeps before registry implementations) v
    visit_terminator-Keeps (suspend v d e x y z) =
        (visit_operand-Keeps before registry implementations) v
    visit_terminator-Keeps (return o) =
        for_some-Keeps (visit_operand before registry implementations)
          (visit_operand-Keeps before registry implementations) o
    visit_terminator-Keeps (tagged_return c o) =
        for_some-Keeps (visit_operand before registry implementations)
          (visit_operand-Keeps before registry implementations) o
    visit_terminator-Keeps (call f r os d e x y) =
        then-Keeps
          (visit_callee before registry implementations locals f r
            >> for_some (visit_operand before registry implementations) r)
          (for_each (visit_operand before registry implementations) os)
          (then-Keeps (visit_callee before registry implementations locals f r)
            (for_some (visit_operand before registry implementations) r) (visit_callee-Keeps f r)
            (for_some-Keeps (visit_operand before registry implementations)
              (visit_operand-Keeps before registry implementations) r))
          ((operands-Keeps before registry implementations) os)
    visit_terminator-Keeps (drop p t) =
        for_some-Keeps (discover_drop_instance before registry implementations)
          (discover_drop_instance-Keeps before registry implementations) (type_of_place locals p)
    visit_terminator-Keeps (goto t) = λ s h. h
    visit_terminator-Keeps (abort x) = λ s h. h
    visit_terminator-Keeps unreachable = λ s h. h

    module _ {B : Type 0} (nested : B → Result (List Instance))
        (concrete : (b : B) → OkConcrete (nested b)) where
      nested-Keeps : (b : B) → Keeps (λ s. nested b >>= λ found. ok (extend before found s))
      nested-Keeps b s h = found-Keeps (nested b) (concrete b)
        where
          found-Keeps :
              (r : Result (List Instance))
              → OkConcrete r
              → OkConcrete (r >>= λ found. ok (extend before found s))
          found-Keeps (ok is) c = extend-All before is s c h
          found-Keeps (err e) c = tt

      visit_rvalue-Keeps :
          (v : Rvalue B) → Keeps (visit_rvalue before registry implementations locals nested v)
      unfolding visit_rvalue
      visit_rvalue-Keeps (use_operand o) = (visit_operand-Keeps before registry implementations) o
      visit_rvalue-Keeps (unary op o t u) = (visit_operand-Keeps before registry implementations) o
      visit_rvalue-Keeps (type_test o t) = (visit_operand-Keeps before registry implementations) o
      visit_rvalue-Keeps (cast o t interface_coercion) =
          then-Keeps (visit_operand before registry implementations o)
            (discover_interface_target_methods before registry implementations
              (type_of_operand before registry implementations locals o))
            ((visit_operand-Keeps before registry implementations) o)
            (interface-Keeps (type_of_operand before registry implementations locals o))
      visit_rvalue-Keeps (cast o t kind) = (visit_operand-Keeps before registry implementations) o
      visit_rvalue-Keeps (checked_binary op l r t u) =
          then-Keeps (visit_operand before registry implementations l)
            (visit_operand before registry implementations r)
            ((visit_operand-Keeps before registry implementations) l)
            ((visit_operand-Keeps before registry implementations) r)
      visit_rvalue-Keeps (checked_index c i) =
          (visit_operand-Keeps before registry implementations) i
      visit_rvalue-Keeps (closure id f captures body) =
          then-Keeps (for_each (visit_operand before registry implementations) captures)
            (λ s. nested body >>= λ found. ok (extend before found s))
            ((operands-Keeps before registry implementations) captures) (nested-Keeps body)
      visit_rvalue-Keeps (Rvalue.template id parts captures t) =
          (operands-Keeps before registry implementations) captures
      visit_rvalue-Keeps (raw_operation name os t) =
          (operands-Keeps before registry implementations) os
      visit_rvalue-Keeps (aggregate t v fields ts) =
          then-Keeps
            (for_each (visit_operand before registry implementations) fields
              >> discover_drop_instance before registry implementations t)
            (for_each (discover_drop_instance before registry implementations) ts)
            (then-Keeps (for_each (visit_operand before registry implementations) fields)
              (discover_drop_instance before registry implementations t)
              ((operands-Keeps before registry implementations) fields)
              ((discover_drop_instance-Keeps before registry implementations) t))
            (for_each-Keeps (discover_drop_instance before registry implementations)
              (discover_drop_instance-Keeps before registry implementations) ts)
      visit_rvalue-Keeps (direct_method p i m r t) =
          discover_callable-Keeps before registry (record { declaration = i; member = some m }) t
            (some (or_error before registry implementations (type_of_place locals p)))
      visit_rvalue-Keeps (vtable_lookup p i m k r t) =
          discover_callable-Keeps before registry (record { declaration = i; member = some m }) t
            (some (or_error before registry implementations (type_of_place locals p)))
      visit_rvalue-Keeps (length_of p) = λ s h. h
      visit_rvalue-Keeps (witness_lookup p i k r t) = λ s h. h

      visit_statement-Keeps :
          (k : StatementKind B)
          → Keeps (visit_statement before registry implementations locals nested k)
      visit_statement-Keeps (assign p v) = visit_rvalue-Keeps v
      visit_statement-Keeps k = λ s h. h

      visit_block-Keeps :
          (b : BasicBlock B) → Keeps (visit_block before registry implementations locals nested b)
      visit_block-Keeps b =
          then-Keeps
            (for_each
              (λ (x : Statement B).
                visit_statement before registry implementations locals nested x.kind)
              b.statements)
            (visit_terminator before registry implementations locals b.terminator.kind)
            (for_each-Keeps
              (λ (x : Statement B).
                visit_statement before registry implementations locals nested x.kind)
              (λ x. visit_statement-Keeps x.kind) b.statements)
            (visit_terminator-Keeps b.terminator.kind)

  discover_in-Concrete :
      {B : Type 0} (nested : B → Result (List Instance))
      (concrete : (b : B) → OkConcrete (nested b)) (body : BodyOf B)
      → OkConcrete (discover_in before registry implementations nested body)
  unfolding discover_in
  discover_in-Concrete nested concrete body =
      then-Keeps
        (for_each (λ (l : Local). discover_drop_instance before registry implementations l.ty)
          body.locals)
        (for_each (visit_block before registry implementations body.locals nested) body.blocks)
        (for_each-Keeps (λ (l : Local). discover_drop_instance before registry implementations l.ty)
          (λ l. (discover_drop_instance-Keeps before registry implementations) l.ty) body.locals)
        (for_each-Keeps (visit_block before registry implementations body.locals nested)
          (visit_block-Keeps body.locals nested concrete) body.blocks)
        [] tt

  discover_closure-Concrete :
      (k : ℕ) (c : Closure k) → OkConcrete (discover_closure before registry implementations k c)
  unfolding discover_closure
  discover_closure-Concrete zero c = absurd c
  discover_closure-Concrete (suc k) c =
      discover_in-Concrete (discover_closure before registry implementations k)
        (discover_closure-Concrete k) c

-- Discovery in a body, also in its closures, returns only instances whose type arguments contain no
-- generic, or an error.
pub discover_instances-Concrete :
    (before : Instance → Instance → Bool) {n : ℕ} (registry : Registry n)
    (implementations : List DropImplementation) (k : ℕ) (body : Body k)
    → OkConcrete (discover_instances before registry implementations k body)
unfolding discover_instances
discover_instances-Concrete before registry implementations k body =
    discover_in-Concrete before registry implementations
      (discover_closure before registry implementations k)
      (discover_closure-Concrete before registry implementations k) body
