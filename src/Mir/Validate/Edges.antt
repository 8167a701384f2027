-- ===== src/Mir/Validate/Edges.antt =====
-- The states that a block passes on (`outgoing_edges`, `block_transfer` of the model of validate.rs):
-- they lead to blocks that are there, grow with the state the block is entered with, and hold
-- locals below `local_bound`.
use typenative.Prelude.{
  ℕ, zero, suc, ◌+◌, ◌≤◌, Bool, true, false, List, [], ◌∷◌, Option, none, some, if◌then◌else◌, ◌≡◌,
  refl, inl, inr, arith, ltb, ◌==◌, length, get_elem?, Bool-cases, NatSet, Subset, Within,
  Subset-insert, insert-Within,
}
use typenative.Mir.Syntax.{
  Place, BasicBlockId, TerminatorKind, call, suspend, Statement, BasicBlock, BodyOf,
}
use typenative.Mir.Validate.Check.{Check, for_each, to_u32}
use typenative.Mir.Validate.Places.{is_local}
use typenative.Mir.Validate.Rvalues.{ClosureView}
use typenative.Mir.Validate.Statements.{validate_statement}
use typenative.Mir.Validate.Worklist.Ends.{EdgesWithin}
use typenative.Mir.Validate.Worklist.Settles.{InRange}
use typenative.Mir.Validate.Worklist.Runs.{EdgesBelow}
use typenative.Mir.Validate.Monotone.{Mono, Mono-pure, ◌⟫◌}
use typenative.Mir.Validate.Monotone.Terminators.{validate_statement-Mono, validate_terminator-Mono}
use typenative.Mir.Validate.Bodies.{
  same_target, local_destination, destination_bound, terminator_targets, outgoing, outgoing_edges,
  terminator_bound, statements_bound, blocks_bound, local_bound, validate_block, block_transfer,
  transfer_of, transfer,
}

local_destination-Subset :
    (p : Option Place) (s c : NatSet)
    → Subset s c
    → Subset (local_destination p s) (local_destination p c)
local_destination-Subset none s c h = h
local_destination-Subset (some p) s c h = elim (Bool-cases (is_local p)) [
  | inl e ↦ rw e (Subset-insert p.local s c h)
  | inr e ↦ rw e h
]

local_destination-Within :
    (k : ℕ) (p : Option Place) (s : NatSet)
    → destination_bound p ≤ k
    → Within 0 k s
    → Within 0 k (local_destination p s)
local_destination-Within k none s b h = h
local_destination-Within k (some p) s b h = elim (Bool-cases (is_local p)) [
  | inl e ↦ rw e (insert-Within 0 k p.local s (omega arith) b h)
  | inr e ↦ rw e h
]

-- An edge adds one of two destinations, or nothing.
chosen-Subset :
    (a b : Bool) (p q : Option Place) (s c : NatSet)
    → Subset s c
    → Subset
        (if a then local_destination p s else if b then local_destination q s else s)
        (if a then local_destination p c else if b then local_destination q c else c)
chosen-Subset true b p q s c h = local_destination-Subset p s c h
chosen-Subset false true p q s c h = local_destination-Subset q s c h
chosen-Subset false false p q s c h = h

chosen-Within :
    (a b : Bool) (k : ℕ) (p q : Option Place) (s : NatSet)
    → destination_bound p + destination_bound q ≤ k
    → Within 0 k s
    → Within 0 k (if a then local_destination p s else if b then local_destination q s else s)
chosen-Within true b k p q s h w = local_destination-Within k p s (omega arith) w
chosen-Within false true k p q s h w = local_destination-Within k q s (omega arith) w
chosen-Within false false k p q s h w = w

outgoing-Subset :
    (k : TerminatorKind) (t : BasicBlockId) (s c : NatSet)
    → Subset s c
    → Subset (outgoing k t s) (outgoing k t c)
unfolding outgoing
outgoing-Subset (call f r as_ d e on_success on_error) t s c h =
    chosen-Subset (on_success == t) (same_target on_error t) d e s c h
outgoing-Subset (suspend v d e resume on_error cancel) t s c h =
    chosen-Subset (resume == t) (same_target on_error t) d e s c h
outgoing-Subset k t s c h = h

outgoing-Within :
    (b : ℕ) (k : TerminatorKind) (t : BasicBlockId) (s : NatSet)
    → terminator_bound k ≤ b
    → Within 0 b s
    → Within 0 b (outgoing k t s)
unfolding outgoing terminator_bound
outgoing-Within b (call f r as_ d e on_success on_error) t s h w =
    chosen-Within (on_success == t) (same_target on_error t) b d e s h w
outgoing-Within b (suspend v d e resume on_error cancel) t s h w =
    chosen-Within (resume == t) (same_target on_error t) b d e s h w
outgoing-Within b k t s h w = w

module _ (n : ℕ) (k : TerminatorKind) where
  outgoing_edges-InRange :
      (ts : List BasicBlockId) (s : NatSet) → InRange n (outgoing_edges n k ts s)
  unfolding outgoing_edges
  outgoing_edges-InRange [] s = tt
  outgoing_edges-InRange (t ∷ ts) s = elim (Bool-cases (ltb t n)) [
    | inl e ↦ rw e (ground arith, outgoing_edges-InRange ts s)
    | inr e ↦ rw e (outgoing_edges-InRange ts s)
  ]

  outgoing_edges-Below :
      (ts : List BasicBlockId) (s c : NatSet)
      → Subset s c
      → EdgesBelow (outgoing_edges n k ts s) (outgoing_edges n k ts c)
  unfolding outgoing_edges
  outgoing_edges-Below [] s c h = tt
  outgoing_edges-Below (t ∷ ts) s c h = elim (Bool-cases (ltb t n)) [
    | inl e ↦ rw e ((refl, outgoing-Subset k t s c h), outgoing_edges-Below ts s c h)
    | inr e ↦ rw e (outgoing_edges-Below ts s c h)
  ]

  outgoing_edges-Within :
      (b : ℕ) (ts : List BasicBlockId) (s : NatSet)
      → terminator_bound k ≤ b
      → Within 0 b s
      → EdgesWithin n b (outgoing_edges n k ts s)
  unfolding outgoing_edges
  outgoing_edges-Within b [] s h w = tt
  outgoing_edges-Within b (t ∷ ts) s h w = elim (Bool-cases (ltb t n)) [
    | inl e ↦ rw e ((ground arith, outgoing-Within b k t s h w), outgoing_edges-Within b ts s h w)
    | inr e ↦ rw e (outgoing_edges-Within b ts s h w)
  ]

module _ {B : Type 0} (view : B → ClosureView) (body : BodyOf B) where
  abbrev block_bound : BasicBlock B → ℕ
  block_bound b = statements_bound b.statements + terminator_bound b.terminator.kind

  statements-Mono :
      (k i : ℕ) (ss : List (Statement B))
      → length body.locals ≤ k
      → statements_bound ss ≤ k
      → Mono k (for_each ss (λ s. validate_statement body.locals i view s.kind))
  unfolding for_each
  statements-Mono k i [] h b = Mono-pure tt
  statements-Mono k i (s ∷ ss) h b =
      validate_statement-Mono body.locals i view s.kind h (omega arith) ⟫ λ _.
      statements-Mono k i ss h (omega arith)

  validate_block-Mono :
      (k i : ℕ) (b : BasicBlock B)
      → length body.locals ≤ k
      → block_bound b ≤ k
      → Mono k (validate_block view body i b)
  unfolding validate_block
  validate_block-Mono k i b h l = statements-Mono k i b.statements h (omega arith) ⟫ λ _.
      validate_terminator-Mono body.locals i body.return_type body.effects b.terminator.kind

  blocks_bound-get_elem? :
      (bs : List (BasicBlock B)) (i : ℕ) (b : BasicBlock B)
      → get_elem? bs i ≡ some b
      → block_bound b ≤ blocks_bound bs
  unfolding blocks_bound
  blocks_bound-get_elem? [] i b h = cc
  blocks_bound-get_elem? (x ∷ bs) zero b h = ground arith
  blocks_bound-get_elem? (x ∷ bs) (suc i) b h = omega (arith, blocks_bound-get_elem? bs i b h)

  abbrev entered : NatSet → Check
  entered s = record { initialized = s; errors = [] }

  transfer_of-InRange :
      (i : ℕ) (o : Option (BasicBlock B)) (s : NatSet)
      → InRange (length body.blocks) (transfer_of view body i o s).0
  unfolding block_transfer
  transfer_of-InRange i none s = tt
  transfer_of-InRange i (some b) s =
      outgoing_edges-InRange (length body.blocks) b.terminator.kind
        (terminator_targets b.terminator.kind)
        (validate_block view body (to_u32 i) b (entered s)).1.initialized

  pub transfer-InRange :
      (i : ℕ) (s : NatSet) → InRange (length body.blocks) (transfer view body i s).0
  unfolding transfer
  transfer-InRange i s = transfer_of-InRange i (get_elem? body.blocks i) s

  transfer_of-Below :
      (k i : ℕ) (o : Option (BasicBlock B)) (s c : NatSet)
      → length body.locals ≤ k
      → ((b : BasicBlock B) → o ≡ some b → block_bound b ≤ k)
      → Subset s c
      → (transfer_of view body i o s).1 ≡ []
      → ((transfer_of view body i o c).1 ≡ [])
        × EdgesBelow (transfer_of view body i o s).0 (transfer_of view body i o c).0
  unfolding block_transfer
  transfer_of-Below k i none s c l bound h e = (refl, tt)
  transfer_of-Below k i (some b) s c l bound h e =
      let (grown, clean) =
        (validate_block-Mono k (to_u32 i) b l (bound b refl)).keeps (entered s) (entered c) h refl
          e in
      (
        clean,
        outgoing_edges-Below (length body.blocks) b.terminator.kind
            (terminator_targets b.terminator.kind)
            (validate_block view body (to_u32 i) b (entered s)).1.initialized
            (validate_block view body (to_u32 i) b (entered c)).1.initialized grown,
      )

  transfer_of-Within :
      (k i : ℕ) (o : Option (BasicBlock B)) (s : NatSet)
      → length body.locals ≤ k
      → ((b : BasicBlock B) → o ≡ some b → block_bound b ≤ k)
      → Within 0 k s
      → EdgesWithin (length body.blocks) k (transfer_of view body i o s).0
  unfolding block_transfer
  transfer_of-Within k i none s l bound w = tt
  transfer_of-Within k i (some b) s l bound w =
      outgoing_edges-Within (length body.blocks) b.terminator.kind k
        (terminator_targets b.terminator.kind)
        (validate_block view body (to_u32 i) b (entered s)).1.initialized
        (omega (arith, bound b refl))
        ((validate_block-Mono k (to_u32 i) b l (bound b refl)).within (entered s) w)

  pub locals-le : length body.locals ≤ local_bound body
  unfolding local_bound
  locals-le = omega arith

  blocks-le :
      (i : ℕ) (b : BasicBlock B)
      → get_elem? body.blocks i ≡ some b
      → block_bound b ≤ local_bound body
  unfolding local_bound
  blocks-le i b e = omega (arith, blocks_bound-get_elem? body.blocks i b e)

  pub transfer-Below :
      (i : ℕ) (s c : NatSet)
      → Subset s c
      → (transfer view body i s).1 ≡ []
      → ((transfer view body i c).1 ≡ [])
        × EdgesBelow (transfer view body i s).0 (transfer view body i c).0
  unfolding transfer
  transfer-Below i s c =
      transfer_of-Below (local_bound body) i (get_elem? body.blocks i) s c locals-le (blocks-le i)

  pub transfer-Within :
      (i : ℕ) (s : NatSet)
      → Within 0 (local_bound body) s
      → EdgesWithin (length body.blocks) (local_bound body) (transfer view body i s).0
  unfolding transfer
  transfer-Within i s =
      transfer_of-Within (local_bound body) i (get_elem? body.blocks i) s locals-le (blocks-le i)
