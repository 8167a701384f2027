-- ===== src/Mir/ErrorLowering/Validation.antt =====
-- The validator (validate.rs) treats a lowered body as it treats the body.
use typenative.Prelude.{
  ℕ, zero, suc, List, [], ◌∷◌, map, Option, none, some, ◌≡◌, refl, ap, fun_ext, get_elem?, length,
  NatSet, length-map,
}
use typenative.Hir.Types.{DeclarationId, Ty}
use typenative.Mir.Syntax.{
  TerminatorKind, return, Rvalue, closure, StatementKind, assign, Local, Statement, BasicBlock,
  BodyOf, Closure, Body,
}
use typenative.Mir.ErrorLowering.{
  lower_kind, lower_rvalue, lower_statement_kind, lower_statement, lower_block, lower_body,
  lower_closure, lower_typed_errors,
}
use typenative.Mir.Validate.Check.{for_each, to_u32}
use typenative.Mir.Validate.Rvalues.{ClosureView, rvalue_type}
use typenative.Mir.Validate.Statements.{validate_statement, validate_terminator}
use mathlib.Core.Option
use typenative.Mir.Validate.Bodies.{
  validate_with_lem, is_nil, initial_flow, outcome, transfer_of, statement_bound, argument_indices,
  terminator_targets, edges_clash, target_errors, outgoing, outgoing_edges, terminator_bound,
  statements_bound, blocks_bound, local_bound, validate_targets, borrowed_region, statement_regions,
  validate_regions, validate_block, block_transfer, transfer, absent_states, initial_states,
  validate_dataflow, dataflow_fuel, validate_with, closure_view, validate,
}

terminator_targets-lower_kind :
    (k : TerminatorKind) → terminator_targets (lower_kind k) ≡ terminator_targets k
unfolding lower_kind terminator_targets
terminator_targets-lower_kind (return p) = refl
terminator_targets-lower_kind k = refl

edges_clash-lower_kind : (k : TerminatorKind) → edges_clash (lower_kind k) ≡ edges_clash k
unfolding lower_kind edges_clash
edges_clash-lower_kind (return p) = refl
edges_clash-lower_kind k = refl

outgoing-lower_kind : (k : TerminatorKind) → outgoing (lower_kind k) ≡ outgoing k
unfolding lower_kind outgoing
outgoing-lower_kind (return p) = refl
outgoing-lower_kind k = refl

terminator_bound-lower_kind :
    (k : TerminatorKind) → terminator_bound (lower_kind k) ≡ terminator_bound k
unfolding lower_kind terminator_bound
terminator_bound-lower_kind (return p) = refl
terminator_bound-lower_kind k = refl

-- A throw is checked as a tagged error, a return as a tagged success.
validate_terminator-lower_kind :
    (locals : List Local) (i : ℕ) (t : Ty) (effects : List DeclarationId) (k : TerminatorKind)
    → validate_terminator locals i t effects (lower_kind k)
      ≡ validate_terminator locals i t effects k
unfolding lower_kind validate_terminator
validate_terminator-lower_kind locals i t effects (return p) = refl
validate_terminator-lower_kind locals i t effects k = refl

target_errors-lower_kind :
    (n i : ℕ) (k : TerminatorKind) → target_errors n i (lower_kind k) ≡ target_errors n i k
unfolding target_errors
target_errors-lower_kind n i k = rw (terminator_targets-lower_kind k, edges_clash-lower_kind k)

outgoing_edges-lower_kind :
    (n : ℕ) (k : TerminatorKind) (ts : List ℕ) (s : NatSet)
    → outgoing_edges n (lower_kind k) ts s ≡ outgoing_edges n k ts s
unfolding outgoing_edges
outgoing_edges-lower_kind n k [] s = refl
outgoing_edges-lower_kind n k (t ∷ ts) s =
    rw (outgoing-lower_kind k, outgoing_edges-lower_kind n k ts s)

module _ {B : Type 0} (nested : B → B) (view : B → ClosureView)
    (same : (c : B) → view (nested c) ≡ view c) where
  rvalue_type-lower :
      (locals : List Local) (i : ℕ) (v : Rvalue B)
      → rvalue_type locals i view (lower_rvalue nested v) ≡ rvalue_type locals i view v
  unfolding rvalue_type lower_rvalue
  rvalue_type-lower locals i (closure id f captures c) = rw (same c)
  rvalue_type-lower locals i v = refl

  validate_statement-lower :
      (locals : List Local) (i : ℕ) (k : StatementKind B)
      → validate_statement locals i view (lower_statement_kind nested k)
        ≡ validate_statement locals i view k
  unfolding validate_statement lower_statement_kind
  validate_statement-lower locals i (assign p v) = rw (rvalue_type-lower locals i v)
  validate_statement-lower locals i k = refl

  abbrev lowered : BasicBlock B → BasicBlock B
  lowered = lower_block nested

  for_each-lower :
      (locals : List Local) (i : ℕ) (ss : List (Statement B))
      → for_each (map (lower_statement nested) ss) (λ s. validate_statement locals i view s.kind)
        ≡ for_each ss (λ s. validate_statement locals i view s.kind)
  unfolding for_each lower_statement
  for_each-lower locals i [] = refl
  for_each-lower locals i (s ∷ ss) =
      rw (validate_statement-lower locals i s.kind, for_each-lower locals i ss)

  borrowed_region-lower :
      (k : StatementKind B) (seen : NatSet)
      → borrowed_region (lower_statement_kind nested k) seen ≡ borrowed_region k seen
  unfolding borrowed_region lower_statement_kind
  borrowed_region-lower (assign p v) seen = refl
  borrowed_region-lower k seen = refl

  statement_regions-lower :
      (ss : List (Statement B)) (seen : NatSet)
      → statement_regions (map (lower_statement nested) ss) seen ≡ statement_regions ss seen
  unfolding statement_regions lower_statement
  statement_regions-lower [] seen = refl
  statement_regions-lower (s ∷ ss) seen = rw (
    borrowed_region-lower s.kind seen,
    statement_regions-lower ss (borrowed_region s.kind seen).0,
  )

  validate_regions-lower :
      (bs : List (BasicBlock B)) (seen : NatSet)
      → validate_regions (map lowered bs) seen ≡ validate_regions bs seen
  unfolding validate_regions lower_block
  validate_regions-lower [] seen = refl
  validate_regions-lower (b ∷ bs) seen = rw (
    statement_regions-lower b.statements seen,
    validate_regions-lower bs (statement_regions b.statements seen).0,
  )

  validate_targets-lower :
      (n i : ℕ) (bs : List (BasicBlock B))
      → validate_targets n i (map lowered bs) ≡ validate_targets n i bs
  unfolding validate_targets lower_block
  validate_targets-lower n i [] = refl
  validate_targets-lower n i (b ∷ bs) =
      rw (target_errors-lower_kind, validate_targets-lower n (suc i) bs)

  statement_bound-lower :
      (k : StatementKind B) → statement_bound (lower_statement_kind nested k) ≡ statement_bound k
  unfolding lower_statement_kind
  statement_bound-lower (assign p v) = refl
  statement_bound-lower k = refl

  statements_bound-lower :
      (ss : List (Statement B))
      → statements_bound (map (lower_statement nested) ss) ≡ statements_bound ss
  unfolding lower_statement
  statements_bound-lower [] = refl
  statements_bound-lower (s ∷ ss) = rw (statement_bound-lower s.kind, statements_bound-lower ss)

  blocks_bound-lower : (bs : List (BasicBlock B)) → blocks_bound (map lowered bs) ≡ blocks_bound bs
  unfolding blocks_bound lower_block
  blocks_bound-lower [] = refl
  blocks_bound-lower (b ∷ bs) = rw (
    statements_bound-lower b.statements,
    terminator_bound-lower_kind b.terminator.kind,
    blocks_bound-lower bs,
  )

  absent_states-lower :
      (bs : List (BasicBlock B)) → absent_states (map lowered bs) ≡ absent_states bs
  absent_states-lower [] = refl
  absent_states-lower (b ∷ bs) = ap (λ ss. none ∷ ss) (absent_states-lower bs)

  initial_states-lower :
      (ls : List Local) (bs : List (BasicBlock B))
      → initial_states ls (map lowered bs) ≡ initial_states ls bs
  initial_states-lower ls [] = refl
  initial_states-lower ls (b ∷ bs) =
      ap (λ ss. some (argument_indices 0 ls) ∷ ss) (absent_states-lower bs)

  get_elem?-lower :
      (bs : List (BasicBlock B)) (i : ℕ)
      → get_elem? (map lowered bs) i ≡ Option.map lowered (get_elem? bs i)
  get_elem?-lower [] i = refl
  get_elem?-lower (b ∷ bs) zero = refl
  get_elem?-lower (b ∷ bs) (suc i) = get_elem?-lower bs i

  is_nil-lower : (bs : List (BasicBlock B)) → is_nil (map lowered bs) ≡ is_nil bs
  is_nil-lower [] = refl
  is_nil-lower (b ∷ bs) = refl

  module _ (body : BodyOf B) where
    abbrev after : BodyOf B
    after = lower_body nested body

    validate_block-lower :
        (i : ℕ) (b : BasicBlock B)
        → validate_block view after i (lowered b) ≡ validate_block view body i b
    unfolding validate_block lower_block lower_body
    validate_block-lower i b =
        rw (for_each-lower body.locals i b.statements, validate_terminator-lower_kind)

    block_transfer-lower :
        (i : ℕ) (b : BasicBlock B) (s : NatSet)
        → block_transfer view after i (lowered b) s ≡ block_transfer view body i b s
    unfolding block_transfer lower_block lower_body
    block_transfer-lower i b s = rw (
      length-map lowered body.blocks,
      terminator_targets-lower_kind b.terminator.kind,
      for_each-lower body.locals (to_u32 i) b.statements,
      validate_terminator-lower_kind,
      outgoing_edges-lower_kind,
    )

    transfer_of-lower :
        (i : ℕ) (o : Option (BasicBlock B)) (s : NatSet)
        → transfer_of view after i (Option.map lowered o) s ≡ transfer_of view body i o s
    transfer_of-lower i none s = refl
    transfer_of-lower i (some b) s = block_transfer-lower i b s

    transfer-lower : transfer view after ≡ transfer view body
    unfolding transfer lower_body
    transfer-lower = fun_ext λ i.
        fun_ext
          λ s. rw (get_elem?-lower body.blocks i) (transfer_of-lower i (get_elem? body.blocks i) s)

    dataflow_fuel-lower : dataflow_fuel view after ≡ dataflow_fuel view body
    unfolding dataflow_fuel local_bound lower_body
    dataflow_fuel-lower = rw (blocks_bound-lower body.blocks, length-map lowered body.blocks)

    initial_flow-lower : initial_flow view after ≡ initial_flow view body
    unfolding lower_body
    initial_flow-lower = rw (initial_states-lower body.locals body.blocks)

    validate_dataflow-lower : validate_dataflow view after ≡ validate_dataflow view body
    unfolding validate_dataflow
    validate_dataflow-lower = rw (transfer-lower, dataflow_fuel-lower, initial_flow-lower)

    validate_with-lower : validate_with view after ≡ validate_with view body
    unfolding lower_body
    validate_with-lower = rw (
      validate_with_lem view after,
      validate_with_lem view body,
      is_nil-lower body.blocks,
      length-map lowered body.blocks,
      validate_targets-lower (length body.blocks) 0 body.blocks,
      validate_regions-lower body.blocks [],
      validate_dataflow-lower,
    )

closure_view-lower_closure :
    (n : ℕ) (c : Closure n) → closure_view n (lower_closure n c) ≡ closure_view n c
unfolding closure_view lower_closure lower_body
closure_view-lower_closure zero c = elim c [ ]
closure_view-lower_closure (suc n) c =
    rw (validate_with-lower (lower_closure n) (closure_view n) (closure_view-lower_closure n) c)

-- Lowering returns and throws changes no verdict of the validator: on every body it reports the
-- same errors, in the same order, before and after the lowering.
pub validate-lower_typed_errors :
    (n : ℕ) (body : Body n) → validate n (lower_typed_errors n body) ≡ validate n body
unfolding validate lower_typed_errors
validate-lower_typed_errors n body =
    ap outcome
      (validate_with-lower (lower_closure n) (closure_view n) (closure_view-lower_closure n) body)
