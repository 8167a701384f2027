-- ===== src/Mir/Drops/Storage.antt =====
-- `initialize_argument_flags` and `split_storage_deaths` of crates/tn-mir/src/drop_elaboration.rs.
pub mod Splits
use typenative.Prelude.{
  ℕ, zero, suc, Bool, true, false, List, [], ◌∷◌, ◌++◌, Option, none, some, map, if◌then◌else◌,
  length, contains,
}
use typenative.Mir.Syntax.{
  LocalId, local_place, Local, StatementKind, storage_dead, Statement, drop, Terminator, BasicBlock,
}
use typenative.Mir.Drops.Instrument.{flag}

-- `body.locals.get(local).is_some_and(|local| local.argument)`
unfoldable pub is_argument : List Local → LocalId → Bool
is_argument [] l = false
is_argument (d ∷ ds) zero = d.argument
is_argument (d ∷ ds) (suc l) = is_argument ds l

unfoldable pub argument_locals : List Local → List LocalId → List LocalId
unfolding is_argument
argument_locals ls [] = []
argument_locals ls (d ∷ ds) =
    if is_argument ls d then d ∷ argument_locals ls ds else argument_locals ls ds

module _ {B : Type 0} where
  unfoldable pub initialize_argument_flags :
      List Local → List LocalId → List (BasicBlock B) → List (BasicBlock B)
  unfolding argument_locals
  initialize_argument_flags ls droppable [] = []
  initialize_argument_flags ls droppable (b ∷ bs) =
      record b {
        statements =
            map (λ l. flag b.terminator.span true (local_place l)) (argument_locals ls droppable)
            ++ b.statements;
      }
      ∷ bs

  -- `blocks[i] = f(blocks[i])`
  abbrev pub modify : List (BasicBlock B) → ℕ → (BasicBlock B → BasicBlock B) → List (BasicBlock B)
  modify [] i f = []
  modify (b ∷ bs) zero f = f b ∷ bs
  modify (b ∷ bs) (suc i) f = b ∷ modify bs i f

  abbrev pub push_statement : Statement B → BasicBlock B → BasicBlock B
  push_statement s b = record b { statements = b.statements ++ s ∷ [] }

  abbrev pub set_terminator : Terminator → BasicBlock B → BasicBlock B
  set_terminator t b = record b { terminator = t }

  -- the local of a storage death that is to be dropped
  unfoldable pub dropped_local : List LocalId → StatementKind B → Option LocalId
  unfolding contains
  dropped_local droppable (storage_dead l) = if contains l droppable then some l else none
  dropped_local droppable _ = none

  -- the blocks and the index of the current one, after a statement of the loop in
  -- `split_storage_deaths`; `terminator` is that of the block which is split
  unfoldable pub split_at :
      Terminator → Statement B → Option LocalId → ℕ → List (BasicBlock B) → List (BasicBlock B) × ℕ
  split_at terminator s none current bs = (modify bs current (push_statement s), current)
  split_at terminator s (some l) current bs = (
    modify bs current
          (set_terminator (record { kind = drop (local_place l) (length bs); span = s.span }))
        ++ record { statements = s ∷ []; terminator = terminator } ∷ [],
    length bs,
  )

  unfoldable pub split_statements :
      List LocalId → Terminator → List (Statement B) → ℕ → List (BasicBlock B) → List (BasicBlock B)
  unfolding split_at dropped_local
  split_statements droppable terminator [] current bs =
      modify bs current (set_terminator terminator)
  split_statements droppable terminator (s ∷ ss) current bs =
      let next = split_at terminator s (dropped_local droppable s.kind) current bs in
      split_statements droppable terminator ss (next.1) (next.0)

  -- the loop over the original blocks, from this index
  unfoldable pub split_blocks :
      List LocalId → ℕ → List (BasicBlock B) → List (BasicBlock B) → List (BasicBlock B)
  unfolding split_statements
  split_blocks droppable i [] bs = bs
  split_blocks droppable i (b ∷ rest) bs =
      split_blocks droppable (suc i) rest
        (split_statements droppable b.terminator b.statements i bs)

  abbrev pub emptied : BasicBlock B → BasicBlock B
  emptied b = record b { statements = [] }

  unfoldable pub split_storage_deaths : List LocalId → List (BasicBlock B) → List (BasicBlock B)
  unfolding split_blocks
  split_storage_deaths droppable original = split_blocks droppable 0 original (map emptied original)
