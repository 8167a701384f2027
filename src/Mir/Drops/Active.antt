-- ===== src/Mir/Drops/Active.antt =====
-- `active_local_sets`, `apply_storage_lifetimes` and `successors` of
-- crates/tn-mir/src/drop_elaboration.rs: the locals whose storage is live where a block begins and
-- where it ends. The `loop` takes fuel, one round for each key that the states can lose.
pub mod Ends
pub mod Rounds
pub mod Live
use typenative.Prelude.{
  ℕ, zero, suc, ◌+◌, ◌*◌, Bool, true, false, List, [], ◌∷◌, ◌++◌, Option, none, some, if◌then◌else◌,
  length, set, NatSet, insert, remove,
}
use typenative.Mir.Syntax.{
  BasicBlockId, Local, StatementKind, storage_live, storage_dead, Statement, TerminatorKind, goto,
  switch, call, suspend, drop, BasicBlock,
}
use typenative.Mir.Validate.Worklist.{state_at, or_empty, merged, unchanged}
use typenative.Mir.Validate.Bodies.{option_list, switch_targets, argument_indices, initial_states}

unfoldable pub successors : TerminatorKind → List BasicBlockId
successors (goto target) = target ∷ []
successors (switch value targets otherwise) = switch_targets targets ++ otherwise ∷ []
successors (call f receiver arguments destination error_destination on_success on_error) =
    on_success ∷ option_list on_error
successors (suspend value destination error_destination resume on_error cancel) =
    resume ∷ option_list on_error ++ cancel ∷ []
successors (drop place on_success) = on_success ∷ []
successors _ = []

-- The entry states, and whether a state has changed in this round.
pub record Sweep : Type 0 where
  pub states : List (Option NatSet)
  pub changed : Bool

-- one successor of a block that ends with `active`
unfoldable pub sweep_successor : NatSet → BasicBlockId → Sweep → Sweep
unfolding merged unchanged
sweep_successor active t w =
    let next = merged (state_at w.states t) active in
    if unchanged (state_at w.states t) next
    then w
    else record { states = set w.states t (some next); changed = true }

unfoldable pub sweep_successors : NatSet → List BasicBlockId → Sweep → Sweep
unfolding sweep_successor
sweep_successors active [] w = w
sweep_successors active (t ∷ ts) w = sweep_successors active ts (sweep_successor active t w)

-- `entries.into_iter().map(Option::unwrap_or_default)`
abbrev pub entries_of : List (Option NatSet) → List NatSet
entries_of [] = []
entries_of (s ∷ ss) = or_empty s ∷ entries_of ss

module _ {B : Type 0} where
  unfoldable pub apply_storage_lifetime : StatementKind B → NatSet → NatSet
  unfolding insert remove
  apply_storage_lifetime (storage_live l) active = insert l active
  apply_storage_lifetime (storage_dead l) active = remove l active
  apply_storage_lifetime _ active = active

  unfoldable pub apply_storage_lifetimes : List (Statement B) → NatSet → NatSet
  unfolding apply_storage_lifetime
  apply_storage_lifetimes [] active = active
  apply_storage_lifetimes (s ∷ ss) active =
      apply_storage_lifetimes ss (apply_storage_lifetime s.kind active)

  -- a block with its entry state; one with none is passed over
  unfoldable pub sweep_block : BasicBlock B → Option NatSet → Sweep → Sweep
  unfolding apply_storage_lifetimes sweep_successors successors
  sweep_block b none w = w
  sweep_block b (some active) w =
      sweep_successors (apply_storage_lifetimes b.statements active) (successors b.terminator.kind)
        w

  -- one round over the blocks, from this index
  unfoldable pub sweep : ℕ → List (BasicBlock B) → Sweep → Sweep
  unfolding sweep_block
  sweep i [] w = w
  sweep i (b ∷ bs) w = sweep (suc i) bs (sweep_block b (state_at w.states i) w)

  unfoldable pub sweep_loop : ℕ → List (BasicBlock B) → List (Option NatSet) → Sweep
  unfolding sweep
  sweep_loop zero bs states = record { states = states; changed = true }
  sweep_loop (suc fuel) bs states =
      let w = sweep 0 bs (record { states = states; changed = false }) in
      let again = sweep_loop fuel bs w.states in if w.changed then again else w

  -- above every local whose storage is made live
  abbrev pub live_bound : StatementKind B → ℕ
  live_bound (storage_live l) = suc l
  live_bound _ = 0

  abbrev pub lives_bound : List (Statement B) → ℕ
  lives_bound [] = 0
  lives_bound (s ∷ ss) = live_bound (s.kind) + lives_bound ss

  abbrev pub storage_bound : List (BasicBlock B) → ℕ
  storage_bound [] = 0
  storage_bound (b ∷ bs) = lives_bound b.statements + storage_bound bs

  unfoldable pub active_fuel : List Local → List (BasicBlock B) → ℕ
  active_fuel ls bs = suc (length bs * suc (length ls + storage_bound bs))

  unfoldable pub active_sweep : List Local → List (BasicBlock B) → Sweep
  unfolding sweep_loop active_fuel argument_indices
  active_sweep ls bs = sweep_loop (active_fuel ls bs) bs (initial_states ls bs)

  unfoldable pub exits_of : List (BasicBlock B) → List NatSet → List NatSet
  unfolding apply_storage_lifetimes
  exits_of (b ∷ bs) (s ∷ ss) = apply_storage_lifetimes b.statements s ∷ exits_of bs ss
  exits_of _ _ = []

  unfoldable pub active_local_sets : List Local → List (BasicBlock B) → List NatSet × List NatSet
  unfolding active_sweep exits_of
  active_local_sets ls bs =
      let entries = entries_of (active_sweep ls bs).states in (entries, exits_of bs entries)
