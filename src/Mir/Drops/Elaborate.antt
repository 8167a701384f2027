-- ===== src/Mir/Drops/Elaborate.antt =====
-- `elaborate_drops` of crates/tn-mir/src/drop_elaboration.rs.
pub mod Cleans
pub mod Complete
use typenative.Prelude.{
  ℕ, zero, suc, Bool, true, false, not, ◌&&◌, ◌||◌, List, [], ◌∷◌, ◌++◌, map, Option, none, some,
  String, str_eq, if◌then◌else◌, get_elem?, NatSet,
}
use typenative.Mir.Syntax.{
  LocalId, Local, Rvalue, closure, StatementKind, assign, Statement, BasicBlock, BodyOf, Closure,
  Body,
}
use typenative.Mir.Drops.Semantics.{DropSemantics, needs_drop}
use typenative.Mir.Drops.Instrument.{instrument_block}
use typenative.Mir.Drops.Storage.{initialize_argument_flags, split_storage_deaths}
use typenative.Mir.Drops.Active.{active_local_sets}
use typenative.Mir.Drops.Cleanup.{rewrite_scope_exit_edges, add_exit_cleanup}

-- `matches!(local.name.as_deref(), Some("this" | "self"))`
abbrev pub is_receiver : Option String → Bool
is_receiver none = false
is_receiver (some name) = str_eq name "this" || str_eq name "self"

-- the droppable locals, from this index
unfoldable pub droppable_locals : DropSemantics → ℕ → List Local → List LocalId
unfolding needs_drop
droppable_locals d i [] = []
droppable_locals d i (l ∷ ls) =
    if not (is_receiver l.name) && needs_drop d l.ty
    then i ∷ droppable_locals d (suc i) ls
    else droppable_locals d (suc i) ls

module _ {B : Type 0} where
  -- the loop over the blocks that stand before it, from this index
  unfoldable pub cleanup_blocks :
      List LocalId → List NatSet → ℕ → List NatSet → List (BasicBlock B) → List (BasicBlock B)
  unfolding rewrite_scope_exit_edges add_exit_cleanup
  cleanup_blocks droppable entries i [] bs = bs
  cleanup_blocks droppable entries i (active ∷ exits) bs =
      let bs' = rewrite_scope_exit_edges i entries active droppable bs in
      cleanup_blocks droppable entries (suc i) exits
        (add_exit_cleanup i active droppable (get_elem? bs' i) bs')

  module _ (nested : B → B) where
    unfoldable pub elaborate_rvalue : Rvalue B → Rvalue B
    elaborate_rvalue (closure id f captures body) = closure id f captures (nested body)
    elaborate_rvalue v = v

    unfoldable pub elaborate_kind : StatementKind B → StatementKind B
    unfolding elaborate_rvalue
    elaborate_kind (assign place value) = assign place (elaborate_rvalue value)
    elaborate_kind k = k

    unfoldable pub elaborate_statement : Statement B → Statement B
    unfolding elaborate_kind
    elaborate_statement s = record s { kind = elaborate_kind s.kind }

    unfoldable pub elaborate_block : BasicBlock B → BasicBlock B
    unfolding elaborate_statement
    elaborate_block b = record b { statements = map elaborate_statement b.statements }

    unfoldable pub elaborate_body : DropSemantics → BodyOf B → BodyOf B
    unfolding instrument_block droppable_locals initialize_argument_flags split_storage_deaths
        active_local_sets cleanup_blocks elaborate_block
    elaborate_body d body =
        let droppable = droppable_locals d 0 body.locals in
        let flagged =
          initialize_argument_flags body.locals droppable (map instrument_block body.blocks) in
        let split = split_storage_deaths droppable flagged in
        let (entries, exits) = active_local_sets body.locals split in
        record body {
          blocks = map elaborate_block (cleanup_blocks droppable entries 0 exits split);
        }

unfoldable pub elaborate_closure : DropSemantics → (n : ℕ) → Closure n → Closure n
unfolding elaborate_body
elaborate_closure d zero c = c
elaborate_closure d (suc n) c = elaborate_body (elaborate_closure d n) d c

unfoldable pub elaborate_drops : DropSemantics → (n : ℕ) → Body n → Body n
unfolding elaborate_closure
elaborate_drops d n body = elaborate_body (elaborate_closure d n) d body
