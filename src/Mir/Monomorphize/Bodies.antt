-- ===== src/Mir/Monomorphize/Bodies.antt =====
-- `substitute_body`, `substitute_place`, `substitute_operand`, `substitute_rvalue` and
-- `substitute_terminator` of crates/tn-mir/src/monomorphize.rs.
pub mod Commutes
use typenative.Prelude.{ℕ, zero, suc, List, [], ◌∷◌, map, Option, none, some}
use typenative.Mir.Syntax.{
  Projection, field, Place, Constant, bool, integer, float, character, string, undefined, function,
  external_function, method, constructor, Operand, copy, move, constant, TemplatePart, literal,
  interpolation, Rvalue, use_operand, unary, checked_binary, checked_index, aggregate, closure,
  template, length_of, vtable_lookup, witness_lookup, direct_method, type_test, raw_operation, cast,
  StatementKind, assign, set_discriminant, borrow, retag, set_drop_flag, Statement, TerminatorKind,
  switch, call, return, throw, tagged_return, suspend, drop, BasicBlock, Local, BodyOf, Closure,
  Body,
}
use typenative.Mir.Monomorphize.Types.{Substitutions, substitute_type, substitute_function}

module _ (s : Substitutions) where
  unfoldable pub substitute_projection : Projection → Projection
  unfolding substitute_type
  substitute_projection (field i t) = field i (substitute_type s t)
  substitute_projection p = p

  unfoldable pub substitute_place : Place → Place
  unfolding substitute_projection
  substitute_place p = record p { projection = map substitute_projection p.projection }

  unfoldable pub substitute_constant : Constant → Constant
  unfolding substitute_type
  substitute_constant (integer v t) = integer v (substitute_type s t)
  substitute_constant (float v t) = float v (substitute_type s t)
  substitute_constant (undefined t) = undefined (substitute_type s t)
  substitute_constant (function d t) = function d (substitute_type s t)
  substitute_constant (external_function n t) = external_function n (substitute_type s t)
  substitute_constant (method d m t) = method d m (substitute_type s t)
  substitute_constant (constructor d m t) = constructor d m (substitute_type s t)
  substitute_constant c = c

  unfoldable pub substitute_operand : Operand → Operand
  unfolding substitute_place substitute_constant
  substitute_operand (copy p) = copy (substitute_place p)
  substitute_operand (move p) = move (substitute_place p)
  substitute_operand (constant c) = constant (substitute_constant c)

  unfoldable pub substitute_part : TemplatePart → TemplatePart
  unfolding substitute_type
  substitute_part (interpolation i t) = interpolation i (substitute_type s t)
  substitute_part p = p

  -- `if let Some(receiver) = receiver`, and the like
  abbrev pub on_some {ℓ} : {A : Type ℓ} → (A → A) → Option A → Option A
  on_some f none = none
  on_some f (some a) = some (f a)

  unfoldable pub substitute_terminator : TerminatorKind → TerminatorKind
  unfolding substitute_operand substitute_place
  substitute_terminator (switch value targets otherwise) =
      switch (substitute_operand value) targets otherwise
  substitute_terminator (throw value) = throw (substitute_operand value)
  substitute_terminator (suspend value d e resume on_error cancel) =
      suspend (substitute_operand value) d e resume on_error cancel
  substitute_terminator (call f receiver arguments d e on_success on_error) =
      call (substitute_operand f) (on_some substitute_operand receiver)
        (map substitute_operand arguments) (on_some substitute_place d) (on_some substitute_place e)
        on_success on_error
  substitute_terminator (return payload) = return (on_some substitute_operand payload)
  substitute_terminator (tagged_return c payload) =
      tagged_return c (on_some substitute_operand payload)
  substitute_terminator (drop p t) = drop (substitute_place p) t
  substitute_terminator k = k

  unfoldable pub substitute_local : Local → Local
  unfolding substitute_type
  substitute_local l = record l { ty = substitute_type s l.ty }

  module _ {B : Type 0} (nested : B → B) where
    unfoldable pub substitute_rvalue : Rvalue B → Rvalue B
    unfolding substitute_operand substitute_place substitute_type substitute_function
        substitute_part
    substitute_rvalue (use_operand o) = use_operand (substitute_operand o)
    substitute_rvalue (unary op o t u) =
        unary op (substitute_operand o) (substitute_type s t) (substitute_type s u)
    substitute_rvalue (checked_binary op l r t u) =
        checked_binary op (substitute_operand l) (substitute_operand r) (substitute_type s t)
          (substitute_type s u)
    substitute_rvalue (checked_index c i) =
        checked_index (substitute_place c) (substitute_operand i)
    substitute_rvalue (aggregate t v fields ts) =
        aggregate (substitute_type s t) v (map substitute_operand fields)
          (map (substitute_type s) ts)
    substitute_rvalue (closure id f captures body) =
        closure id (substitute_function s f) (map substitute_operand captures) (nested body)
    substitute_rvalue (template id parts captures t) =
        template id (map substitute_part parts) (map substitute_operand captures)
          (substitute_type s t)
    substitute_rvalue (length_of p) = length_of (substitute_place p)
    substitute_rvalue (vtable_lookup p i m k r t) =
        vtable_lookup (substitute_place p) i m k r (substitute_type s t)
    substitute_rvalue (witness_lookup p i k r t) =
        witness_lookup (substitute_place p) i k r (substitute_type s t)
    substitute_rvalue (direct_method p i m r t) =
        direct_method (substitute_place p) i m r (substitute_type s t)
    substitute_rvalue (type_test o t) = type_test (substitute_operand o) (substitute_type s t)
    substitute_rvalue (raw_operation name os t) =
        raw_operation name (map substitute_operand os) (substitute_type s t)
    substitute_rvalue (cast o t kind) = cast (substitute_operand o) (substitute_type s t) kind

    unfoldable pub substitute_kind : StatementKind B → StatementKind B
    unfolding substitute_rvalue substitute_place
    substitute_kind (assign p v) = assign (substitute_place p) (substitute_rvalue v)
    substitute_kind (set_discriminant p v) = set_discriminant (substitute_place p) v
    substitute_kind (retag p) = retag (substitute_place p)
    substitute_kind (set_drop_flag p b) = set_drop_flag (substitute_place p) b
    substitute_kind (borrow l k p r) = borrow l k (substitute_place p) r
    substitute_kind k = k

    unfoldable pub substitute_statement : Statement B → Statement B
    unfolding substitute_kind
    substitute_statement x = record x { kind = substitute_kind x.kind }

    unfoldable pub substitute_block : BasicBlock B → BasicBlock B
    unfolding substitute_statement substitute_terminator
    substitute_block b = record {
      statements = map substitute_statement b.statements;
      terminator = record (b.terminator) { kind = substitute_terminator b.terminator.kind };
    }

    unfoldable pub substitute_with : BodyOf B → BodyOf B
    unfolding substitute_block substitute_local substitute_type
    substitute_with b = record b {
      locals = map substitute_local b.locals;
      return_type = substitute_type s b.return_type;
      blocks = map substitute_block b.blocks;
    }

  unfoldable pub substitute_closure : (n : ℕ) → Closure n → Closure n
  unfolding substitute_with
  substitute_closure zero c = c
  substitute_closure (suc n) c = substitute_with (substitute_closure n) c

  unfoldable pub substitute_body : (n : ℕ) → Body n → Body n
  unfolding substitute_with substitute_closure
  substitute_body n b = substitute_with (substitute_closure n) b
