-- ===== src/Mir/ErrorLowering/Laws.antt =====
-- What the lowering of error_lowering.rs leaves in a body, closures included.
use typenative.Prelude.{ℕ, zero, suc, List, [], ◌∷◌, map, ◌≡◌, ◌↔◌, refl, ap, All}
use typenative.Mir.Syntax.{
  TerminatorKind, return, throw, Rvalue, closure, StatementKind, assign, Statement, BasicBlock,
  Closure, Body,
}
use typenative.Mir.ErrorLowering.{
  lower_kind, lower_rvalue, lower_statement_kind, lower_statement, lower_block, lower_body,
  lower_closure, lower_typed_errors,
}

-- neither a return nor a throw of the language
abbrev pub IsTagged : TerminatorKind → Type 0
IsTagged (return p) = ⊥
IsTagged (throw o) = ⊥
IsTagged _ = Unit

module _ {B : Type 0} (P : B → Type 0) where
  abbrev pub RvalueIsLowered : Rvalue B → Type 0
  RvalueIsLowered (closure id f captures c) = P c
  RvalueIsLowered _ = Unit

  abbrev pub StatementIsLowered : StatementKind B → Type 0
  StatementIsLowered (assign p v) = RvalueIsLowered v
  StatementIsLowered _ = Unit

  abbrev pub BlockIsLowered : BasicBlock B → Type 0
  BlockIsLowered b =
      All (λ s. StatementIsLowered s.kind) b.statements × IsTagged (b.terminator.kind)

-- No block of the body, nor of a closure in it at any depth, returns or throws.
abbrev pub ClosureIsLowered : (n : ℕ) → Closure n → Type 0
ClosureIsLowered zero c = ⊥
ClosureIsLowered (suc n) c = All (BlockIsLowered (ClosureIsLowered n)) c.blocks

abbrev pub IsLowered : (n : ℕ) → Body n → Type 0
IsLowered n b = All (BlockIsLowered (ClosureIsLowered n)) b.blocks

IsTagged-lower_kind : (k : TerminatorKind) → IsTagged (lower_kind k)
unfolding lower_kind
IsTagged-lower_kind (return p) = tt
IsTagged-lower_kind (throw o) = tt
IsTagged-lower_kind k = tt

lower_kind-fixed : (k : TerminatorKind) → IsTagged k → lower_kind k ≡ k
unfolding lower_kind
lower_kind-fixed (return p) h = absurd h
lower_kind-fixed (throw o) h = absurd h
lower_kind-fixed k h = refl

module _ {B : Type 0} (nested : B → B) (P : B → Type 0) where
  module _ (low : (c : B) → P (nested c)) where
    rvalue-IsLowered : (v : Rvalue B) → RvalueIsLowered P (lower_rvalue nested v)
    unfolding lower_rvalue
    rvalue-IsLowered (closure id f captures c) = low c
    rvalue-IsLowered v = tt

    statement-IsLowered :
        (k : StatementKind B) → StatementIsLowered P (lower_statement_kind nested k)
    unfolding lower_statement_kind
    statement-IsLowered (assign p v) = rvalue-IsLowered v
    statement-IsLowered k = tt

    statements-IsLowered :
        (ss : List (Statement B))
        → All (λ s. StatementIsLowered P s.kind) (map (lower_statement nested) ss)
    unfolding lower_statement
    statements-IsLowered [] = tt
    statements-IsLowered (s ∷ ss) = (statement-IsLowered s.kind, statements-IsLowered ss)

    blocks-IsLowered :
        (bs : List (BasicBlock B)) → All (BlockIsLowered P) (map (lower_block nested) bs)
    unfolding lower_block
    blocks-IsLowered [] = tt
    blocks-IsLowered (b ∷ bs) = (
      (statements-IsLowered b.statements, IsTagged-lower_kind b.terminator.kind),
      blocks-IsLowered bs,
    )

  module _ (fixed : (c : B) → P c → nested c ≡ c) where
    rvalue-fixed : (v : Rvalue B) → RvalueIsLowered P v → lower_rvalue nested v ≡ v
    unfolding lower_rvalue
    rvalue-fixed (closure id f captures c) h = ap (closure id f captures) (fixed c h)
    rvalue-fixed v h = refl

    statement-fixed :
        (k : StatementKind B) → StatementIsLowered P k → lower_statement_kind nested k ≡ k
    unfolding lower_statement_kind
    statement-fixed (assign p v) h = ap (assign p) (rvalue-fixed v h)
    statement-fixed k h = refl

    statements-fixed :
        (ss : List (Statement B))
        → All (λ s. StatementIsLowered P s.kind) ss
        → map (lower_statement nested) ss ≡ ss
    unfolding lower_statement
    statements-fixed [] h = refl
    statements-fixed (s ∷ ss) h = rw (statement-fixed s.kind h.0, statements-fixed ss h.1)

    blocks-fixed :
        (bs : List (BasicBlock B)) → All (BlockIsLowered P) bs → map (lower_block nested) bs ≡ bs
    unfolding lower_block
    blocks-fixed [] h = refl
    blocks-fixed (b ∷ bs) h = rw (
      statements-fixed b.statements h.0.0,
      lower_kind-fixed b.terminator.kind h.0.1,
      blocks-fixed bs h.1,
    )

closure-IsLowered : (n : ℕ) (c : Closure n) → ClosureIsLowered n (lower_closure n c)
unfolding lower_closure lower_body
closure-IsLowered zero c = elim c [ ]
closure-IsLowered (suc n) c =
    blocks-IsLowered (lower_closure n) (ClosureIsLowered n) (closure-IsLowered n) c.blocks

closure-fixed : (n : ℕ) (c : Closure n) → ClosureIsLowered n c → lower_closure n c ≡ c
unfolding lower_closure lower_body
closure-fixed zero c h = refl
closure-fixed (suc n) c h =
    ap (λ bs. record c { blocks = bs })
      (blocks-fixed (lower_closure n) (ClosureIsLowered n) (closure-fixed n) c.blocks h)

lower_typed_errors-fixed : (n : ℕ) (b : Body n) → IsLowered n b → lower_typed_errors n b ≡ b
unfolding lower_typed_errors lower_body
lower_typed_errors-fixed n b h =
    ap (λ bs. record b { blocks = bs })
      (blocks-fixed (lower_closure n) (ClosureIsLowered n) (closure-fixed n) b.blocks h)

pub lower_typed_errors-IsLowered : (n : ℕ) (b : Body n) → IsLowered n (lower_typed_errors n b)
unfolding lower_typed_errors lower_body
lower_typed_errors-IsLowered n b =
    blocks-IsLowered (lower_closure n) (ClosureIsLowered n) (closure-IsLowered n) b.blocks

-- The bodies that the lowering leaves alone are exactly those in which no block, nor a block of a
-- closure at any depth, ends in a return or a throw.
pub lower_typed_errors-fixed_iff :
    (n : ℕ) (b : Body n) → (lower_typed_errors n b ≡ b) ↔ IsLowered n b
lower_typed_errors-fixed_iff n b =
    (λ e. rw e at (lower_typed_errors-IsLowered n b), lower_typed_errors-fixed n b)
