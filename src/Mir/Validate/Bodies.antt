-- ===== src/Mir/Validate/Bodies.antt =====
-- `terminator_targets`, `validate_targets`, `validate_regions`, `validate_dataflow` and `validate`
-- of crates/tn-mir/src/validate.rs.
use typenative.Prelude.{
  ◌≡◌, refl, ℕ, zero, suc, ◌+◌, ◌*◌, Bool, true, false, ◌||◌, List, [], ◌∷◌, ◌++◌, Option, none,
  some, if◌then◌else◌, ltb, ◌==◌, length, get_elem?, NatSet, contains, insert,
}
use typenative.Mir.Syntax.{
  Place, Local, BasicBlockId, StatementKind, assign, borrow, Statement, TerminatorKind, goto,
  switch, call, suspend, drop, BasicBlock, BodyOf, Closure, Body,
}
use typenative.Mir.Validate.Check.{
  MirValidationError, empty_body, invalid_target, invalid_error_edge, duplicate_region, M, ◌>>◌,
  for_each, to_u32,
}
use typenative.Mir.Validate.Places.{is_local}
use typenative.Mir.Validate.Rvalues.{ClosureView}
use typenative.Mir.Validate.Statements.{validate_statement, validate_terminator}
use typenative.Mir.Validate.Worklist.{Flow, loop}

abbrev pub is_nil : {A : Type 0} → List A → Bool
is_nil [] = true
is_nil (x ∷ xs) = false

abbrev pub option_list : {A : Type 0} → Option A → List A
option_list none = []
option_list (some a) = a ∷ []

abbrev pub switch_targets : List (ℕ × BasicBlockId) → List BasicBlockId
switch_targets [] = []
switch_targets ((v, t) ∷ ts) = t ∷ switch_targets ts

unfoldable pub terminator_targets : TerminatorKind → List BasicBlockId
terminator_targets (goto target) = target ∷ []
terminator_targets (switch value targets otherwise) = switch_targets targets ++ otherwise ∷ []
terminator_targets (call f receiver arguments destination error_destination on_success on_error) =
    on_success ∷ option_list on_error
terminator_targets (suspend value destination error_destination resume on_error cancel) =
    resume ∷ option_list on_error ++ cancel ∷ []
terminator_targets (drop place on_success) = on_success ∷ []
terminator_targets _ = []

abbrev pub same_target : Option BasicBlockId → BasicBlockId → Bool
same_target none t = false
same_target (some e) t = e == t

-- a call or a suspension of which two successors that must differ are one
unfoldable pub edges_clash : TerminatorKind → Bool
edges_clash (call f receiver arguments destination error_destination on_success on_error) =
    same_target on_error on_success
edges_clash (suspend value destination error_destination resume on_error cancel) =
    (same_target on_error resume || same_target on_error cancel) || resume == cancel
edges_clash _ = false

abbrev pub missing_targets : ℕ → ℕ → List BasicBlockId → List MirValidationError
missing_targets count block [] = []
missing_targets count block (t ∷ ts) =
    if ltb t count
    then missing_targets count block ts
    else invalid_target block t ∷ missing_targets count block ts

-- the errors of `validate_targets` at one block
unfoldable pub target_errors : ℕ → ℕ → TerminatorKind → List MirValidationError
unfolding terminator_targets edges_clash
target_errors count block kind =
    missing_targets count block (terminator_targets kind)
    ++ (if edges_clash kind then invalid_error_edge block ∷ [] else [])

-- `destination.projection.is_empty()`, and its local
abbrev pub local_destination : Option Place → NatSet → NatSet
local_destination none s = s
local_destination (some p) s = if is_local p then insert (p.local) s else s

-- what the edge to this target initializes: a call's or a suspension's destination
unfoldable pub outgoing : TerminatorKind → BasicBlockId → NatSet → NatSet
unfolding insert
outgoing (call f receiver arguments destination error_destination on_success on_error) t s =
    if on_success == t
    then local_destination destination s
    else if same_target on_error t
    then local_destination error_destination s
    else s
outgoing (suspend value destination error_destination resume on_error cancel) t s =
    if resume == t
    then local_destination destination s
    else if same_target on_error t
    then local_destination error_destination s
    else s
outgoing _ t s = s

unfoldable pub argument_indices : ℕ → List Local → NatSet
argument_indices i [] = []
argument_indices i (l ∷ ls) =
    if l.argument then i ∷ argument_indices (suc i) ls else argument_indices (suc i) ls

-- the states for the targets that there are
unfoldable pub outgoing_edges : ℕ → TerminatorKind → List BasicBlockId → NatSet → List (ℕ × NatSet)
unfolding outgoing
outgoing_edges count kind [] s = []
outgoing_edges count kind (t ∷ ts) s =
    if ltb t count
    then (t, outgoing kind t s) ∷ outgoing_edges count kind ts s
    else outgoing_edges count kind ts s

-- A number above every local that the body initializes without a check that the local exists, and
-- not below the number of its locals: it bounds the states, and gives the fuel of the loop.
abbrev pub destination_bound : Option Place → ℕ
destination_bound none = 0
destination_bound (some p) = suc (p.local)

unfoldable pub terminator_bound : TerminatorKind → ℕ
terminator_bound (call f receiver arguments destination error_destination on_success on_error) =
    destination_bound destination + destination_bound error_destination
terminator_bound (suspend value destination error_destination resume on_error cancel) =
    destination_bound destination + destination_bound error_destination
terminator_bound _ = 0

module _ {B : Type 0} where
  abbrev pub statement_bound : StatementKind B → ℕ
  statement_bound (assign p v) = suc (p.local)
  statement_bound _ = 0

  abbrev pub statements_bound : List (Statement B) → ℕ
  statements_bound [] = 0
  statements_bound (s ∷ ss) = statement_bound (s.kind) + statements_bound ss

  unfoldable pub blocks_bound : List (BasicBlock B) → ℕ
  unfolding terminator_bound
  blocks_bound [] = 0
  blocks_bound (b ∷ bs) =
      statements_bound b.statements + terminator_bound (b.terminator.kind) + blocks_bound bs

  unfoldable pub local_bound : BodyOf B → ℕ
  unfolding blocks_bound
  local_bound body = length body.locals + blocks_bound body.blocks

  -- `validate_targets`, from the block of this index
  unfoldable pub validate_targets : ℕ → ℕ → List (BasicBlock B) → List MirValidationError
  unfolding target_errors to_u32
  validate_targets count i [] = []
  validate_targets count i (b ∷ bs) =
      target_errors count (to_u32 i) b.terminator.kind ++ validate_targets count (suc i) bs

  -- one statement in `validate_regions`: the regions met so far, and its error
  unfoldable pub borrowed_region : StatementKind B → NatSet → NatSet × List MirValidationError
  unfolding contains insert
  borrowed_region (borrow d k p region) met =
      (insert region met, if contains region met then duplicate_region region ∷ [] else [])
  borrowed_region _ met = (met, [])

  -- the inner loop of `validate_regions`; it passes on the regions that were met
  unfoldable pub statement_regions : List (Statement B) → NatSet → NatSet × List MirValidationError
  unfolding borrowed_region
  statement_regions [] seen = (seen, [])
  statement_regions (s ∷ ss) seen =
      let here = borrowed_region (s.kind) seen in
      let later = statement_regions ss here.0 in (later.0, here.1 ++ later.1)

  unfoldable pub validate_regions : List (BasicBlock B) → NatSet → List MirValidationError
  unfolding statement_regions
  validate_regions [] seen = []
  validate_regions (b ∷ bs) seen =
      let here = statement_regions b.statements seen in here.1 ++ validate_regions bs here.0

  -- `vec![None; body.blocks.len()]` with the arguments at the entry
  abbrev pub absent_states : List (BasicBlock B) → List (Option NatSet)
  absent_states [] = []
  absent_states (b ∷ bs) = none ∷ absent_states bs

  abbrev pub initial_states : List Local → List (BasicBlock B) → List (Option NatSet)
  initial_states ls [] = []
  initial_states ls (b ∷ bs) = some (argument_indices 0 ls) ∷ absent_states bs

  module _ (view : B → ClosureView) (body : BodyOf B) where
    -- the checks of a block, from the state it is entered with
    unfoldable pub validate_block : ℕ → BasicBlock B → M (Unit {0})
    unfolding for_each validate_statement validate_terminator
    validate_block block b = do
      for_each b.statements λ s. validate_statement body.locals block view s.kind
      validate_terminator body.locals block body.return_type body.effects b.terminator.kind

    unfoldable pub block_transfer :
        ℕ → BasicBlock B → NatSet → List (ℕ × NatSet) × List MirValidationError
    unfolding validate_block outgoing_edges terminator_targets to_u32
    block_transfer i b s =
        let out = (validate_block (to_u32 i) b (record { initialized = s; errors = [] })).1 in
        (
          outgoing_edges (length body.blocks) b.terminator.kind
              (terminator_targets b.terminator.kind) out.initialized,
          out.errors,
        )

    -- A block that is not there: the queue never holds its index.
    abbrev pub transfer_of :
        ℕ → Option (BasicBlock B) → NatSet → List (ℕ × NatSet) × List MirValidationError
    transfer_of i none s = ([], [])
    transfer_of i (some b) s = block_transfer i b s

    unfoldable pub transfer : ℕ → NatSet → List (ℕ × NatSet) × List MirValidationError
    unfolding block_transfer
    transfer i s = transfer_of i (get_elem? body.blocks i) s

    abbrev pub initial_flow : Flow MirValidationError
    initial_flow = record {
      states = initial_states body.locals body.blocks;
      work = 0 ∷ [];
      errors = [];
    }

    unfoldable pub dataflow_fuel : ℕ
    unfolding local_bound
    dataflow_fuel = suc (length body.blocks * suc (local_bound body))

    unfoldable pub validate_dataflow : Flow MirValidationError
    unfolding loop transfer dataflow_fuel argument_indices
    validate_dataflow = loop transfer dataflow_fuel initial_flow

    -- the errors that `validate` collects
    unfoldable pub validate_with : List MirValidationError
    unfolding validate_targets validate_regions validate_dataflow
    validate_with =
        if is_nil body.blocks
        then empty_body ∷ []
        else (validate_targets (length body.blocks) 0 body.blocks
            ++ validate_regions body.blocks []
            ++ validate_dataflow.errors)

    -- `validate_with` in its parts, for proofs in which these stay shut.
    pub validate_with_lem : validate_with ≡ (
        if is_nil body.blocks
        then empty_body ∷ []
        else (validate_targets (length body.blocks) 0 body.blocks
            ++ validate_regions body.blocks []
            ++ validate_dataflow.errors))
    unfolding validate_with
    validate_with_lem = refl

unfoldable pub closure_view : (n : ℕ) → Closure n → ClosureView
unfolding validate_with
closure_view zero c = elim c [ ]
closure_view (suc n) c = record {
  locals = c.locals;
  return_type = c.return_type;
  effects = c.effects;
  errors = validate_with (closure_view n) c;
}

pub data Outcome : Type 0 where
  ok : Outcome
  err : List MirValidationError → Outcome

abbrev pub outcome : List MirValidationError → Outcome
outcome [] = ok
outcome (e ∷ es) = err (e ∷ es)

unfoldable pub validate : (n : ℕ) → Body n → Outcome
unfolding closure_view validate_with
validate n body = outcome (validate_with (closure_view n) body)
