-- ===== src/Mir/Monomorphize/Bodies/Commutes.antt =====
-- Substitution and the lowering of typed errors do not disturb one another.
use typenative.Prelude.{ℕ, zero, suc, List, [], ◌∷◌, map, none, some, ◌≡◌, refl, ap}
use typenative.Mir.Syntax.{
  Rvalue, use_operand, unary, checked_binary, checked_index, aggregate, closure, template,
  length_of, vtable_lookup, witness_lookup, direct_method, type_test, raw_operation, cast,
  StatementKind, assign, set_discriminant, borrow, retag, set_drop_flag, storage_live, storage_dead,
  Statement, TerminatorKind, goto, switch, call, return, throw, tagged_return, suspend, drop, abort,
  unreachable, BasicBlock, BodyOf, Closure, Body,
}
use typenative.Mir.ErrorLowering.{
  lower_kind, lower_rvalue, lower_statement_kind, lower_statement, lower_block, lower_body,
  lower_closure, lower_typed_errors,
}
use typenative.Mir.Monomorphize.Types.{Substitutions, substitute_type, substitute_function}
use typenative.Mir.Monomorphize.Bodies.{
  substitute_place, substitute_operand, substitute_local, substitute_terminator, substitute_rvalue,
  substitute_kind, substitute_statement, substitute_block, substitute_with, substitute_closure,
  substitute_body,
}

map_swap {ℓ} :
    {A : Type ℓ} (f g : A → A)
    → ((a : A) → f (g a) ≡ g (f a))
    → (xs : List A) → map f (map g xs) ≡ map g (map f xs)
map_swap f g h [] = refl
map_swap f g h (x ∷ xs) = rw (h x, map_swap f g h xs) refl

module _ (s : Substitutions) where
  terminator-swap :
      (k : TerminatorKind)
      → substitute_terminator s (lower_kind k) ≡ lower_kind (substitute_terminator s k)
  unfolding substitute_terminator lower_kind
  terminator-swap (goto t) = refl
  terminator-swap (switch v ts o) = refl
  terminator-swap (call f r as' d e x y) = refl
  terminator-swap (return none) = refl
  terminator-swap (return (some o)) = refl
  terminator-swap (throw o) = refl
  terminator-swap (tagged_return c o) = refl
  terminator-swap (suspend v d e x y z) = refl
  terminator-swap (drop p t) = refl
  terminator-swap (abort m) = refl
  terminator-swap unreachable = refl

  module _ {B : Type 0} (f g : B → B) (swap : (b : B) → f (g b) ≡ g (f b)) where
    rvalue-swap :
        (v : Rvalue B)
        → substitute_rvalue s f (lower_rvalue g v) ≡ lower_rvalue g (substitute_rvalue s f v)
    unfolding substitute_rvalue lower_rvalue
    rvalue-swap (closure id function captures body) =
        ap (closure id (substitute_function s function) (map (substitute_operand s) captures))
          (swap body)
    rvalue-swap (use_operand o) = refl
    rvalue-swap (unary op o t u) = refl
    rvalue-swap (checked_binary op l r t u) = refl
    rvalue-swap (checked_index c i) = refl
    rvalue-swap (aggregate t v fields ts) = refl
    rvalue-swap (template id parts captures t) = refl
    rvalue-swap (length_of p) = refl
    rvalue-swap (vtable_lookup p i m k r t) = refl
    rvalue-swap (witness_lookup p i k r t) = refl
    rvalue-swap (direct_method p i m r t) = refl
    rvalue-swap (type_test o t) = refl
    rvalue-swap (raw_operation name os t) = refl
    rvalue-swap (cast o t kind) = refl

    kind-swap :
        (k : StatementKind B)
        → substitute_kind s f (lower_statement_kind g k)
          ≡ lower_statement_kind g (substitute_kind s f k)
    unfolding substitute_kind lower_statement_kind
    kind-swap (assign p v) = ap (assign (substitute_place s p)) (rvalue-swap v)
    kind-swap (set_discriminant p v) = refl
    kind-swap (storage_live l) = refl
    kind-swap (storage_dead l) = refl
    kind-swap (borrow l k p r) = refl
    kind-swap (retag p) = refl
    kind-swap (set_drop_flag p b) = refl

    block-swap :
        (b : BasicBlock B)
        → substitute_block s f (lower_block g b) ≡ lower_block g (substitute_block s f b)
    unfolding substitute_block lower_block lower_statement_kind lower_statement
    block-swap b = λ i. record {
      statements =
          map_swap (substitute_statement s f) (lower_statement g) statement-swap b.statements i;
      terminator = record { kind = terminator-swap b.terminator.kind i; span = b.terminator.span };
    }
      where
        statement-swap :
            (x : Statement B)
            → substitute_statement s f (lower_statement g x)
              ≡ lower_statement g (substitute_statement s f x)
        statement-swap x = λ i. record { kind = kind-swap x.kind i; span = x.span }

    with-swap :
        (b : BodyOf B) → substitute_with s f (lower_body g b) ≡ lower_body g (substitute_with s f b)
    unfolding substitute_with lower_body
    with-swap b =
        ap
          (λ z. record b {
            locals = map (substitute_local s) b.locals;
            return_type = substitute_type s b.return_type;
            blocks = z;
          })
          (map_swap (substitute_block s f) (lower_block g) block-swap b.blocks)

  closure-swap :
      (n : ℕ) (c : Closure n)
      → substitute_closure s n (lower_closure n c) ≡ lower_closure n (substitute_closure s n c)
  unfolding substitute_closure lower_closure
  closure-swap zero c = refl
  closure-swap (suc n) c = with-swap (substitute_closure s n) (lower_closure n) (closure-swap n) c

-- A body may be specialized before or after its typed errors are lowered: the result is the same.
pub substitute_body-lower_typed_errors :
    (s : Substitutions) (n : ℕ) (b : Body n)
    → substitute_body s n (lower_typed_errors n b) ≡ lower_typed_errors n (substitute_body s n b)
unfolding substitute_body lower_typed_errors
substitute_body-lower_typed_errors s n b =
    with-swap s (substitute_closure s n) (lower_closure n) (closure-swap s n) b
