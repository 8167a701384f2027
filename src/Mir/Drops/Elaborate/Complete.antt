-- ===== src/Mir/Drops/Elaborate/Complete.antt =====
-- The loop of `elaborate_drops` over the blocks, with the locals that `active_local_sets` finds.
use typenative.Prelude.{
  ℕ, zero, suc, ◌≤◌, false, List, [], ◌∷◌, Option, none, some, ◌≡◌, refl, ap, ◌∙◌, inl, inr, arith,
  length, length-set, get_elem?, NatSet, Bool-cases,
}
use typenative.Mir.Syntax.{LocalId, BasicBlockId, Local, BasicBlock}
use typenative.Mir.Validate.Worklist.{state_at, merged, unchanged}
use typenative.Mir.Validate.Bodies.{initial_states}
use typenative.Mir.Validate.Sound.{length-absent}
use typenative.Mir.Drops.Cleanup.{entry_at}
use typenative.Mir.Drops.Active.{
  Sweep, sweep_successor, sweep_successors, apply_storage_lifetimes, successors, sweep_block, sweep,
  sweep_loop, active_fuel, active_sweep, entries_of, exits_of, active_local_sets,
}
use typenative.Mir.Drops.Elaborate.{cleanup_blocks}
use typenative.Mir.Drops.Elaborate.Cleans.{CleanAt, cleanup_blocks-CleanAt}

length-sweep_successor :
    (active : NatSet) (t : BasicBlockId) (w : Sweep)
    → length (sweep_successor active t w).states ≡ length w.states
unfolding sweep_successor
length-sweep_successor active t w =
    elim (Bool-cases (unchanged (state_at w.states t) (merged (state_at w.states t) active))) [
      | inl same ↦ rw same refl
      | inr new ↦ rw new (length-set w.states t (some (merged (state_at w.states t) active)))
    ]

length-sweep_successors :
    (active : NatSet) (ts : List BasicBlockId) (w : Sweep)
    → length (sweep_successors active ts w).states ≡ length w.states
unfolding sweep_successors
length-sweep_successors active [] w = refl
length-sweep_successors active (t ∷ ts) w =
    length-sweep_successors active ts (sweep_successor active t w)
    ∙ length-sweep_successor active t w

length-entries_of : (ss : List (Option NatSet)) → length (entries_of ss) ≡ length ss
length-entries_of [] = refl
length-entries_of (s ∷ ss) = ap suc (length-entries_of ss)

module _ {B : Type 0} where
  length-sweep_block :
      (b : BasicBlock B) (o : Option NatSet) (w : Sweep)
      → length (sweep_block b o w).states ≡ length w.states
  unfolding sweep_block
  length-sweep_block b none w = refl
  length-sweep_block b (some s) w =
      length-sweep_successors (apply_storage_lifetimes b.statements s)
        (successors b.terminator.kind) w

  length-sweep :
      (i : ℕ) (bs : List (BasicBlock B)) (w : Sweep)
      → length (sweep i bs w).states ≡ length w.states
  unfolding sweep
  length-sweep i [] w = refl
  length-sweep i (b ∷ bs) w =
      length-sweep (suc i) bs (sweep_block b (state_at w.states i) w)
      ∙ length-sweep_block b (state_at w.states i) w

  length-sweep_loop :
      (fuel : ℕ) (bs : List (BasicBlock B)) (states : List (Option NatSet))
      → length (sweep_loop fuel bs states).states ≡ length states
  unfolding sweep_loop
  length-sweep_loop zero bs states = refl
  length-sweep_loop (suc fuel) bs states =
      let start : Sweep = record { states = states; changed = false } in
      let once = sweep 0 bs start in
      elim (Bool-cases once.changed) [
        | inl more ↦ rw more (length-sweep_loop fuel bs once.states ∙ length-sweep 0 bs start)
        | inr done ↦ rw done (length-sweep 0 bs start)
      ]

  length-initial_states :
      (ls : List Local) (bs : List (BasicBlock B)) → length (initial_states ls bs) ≡ length bs
  length-initial_states ls [] = refl
  length-initial_states ls (b ∷ bs) = ap suc (length-absent bs)

  exits_fit : (bs : List (BasicBlock B)) (ss : List NatSet) → length (exits_of bs ss) ≤ length bs
  unfolding exits_of
  exits_fit [] ss = omega arith
  exits_fit (b ∷ bs) [] = omega arith
  exits_fit (b ∷ bs) (s ∷ ss) = omega (arith, exits_fit bs ss)

  get_elem?-exits_of :
      (bs : List (BasicBlock B)) (ss : List NatSet) (i : ℕ) (b : BasicBlock B)
      → length ss ≡ length bs
      → get_elem? bs i ≡ some b
      → get_elem? (exits_of bs ss) i ≡ some (apply_storage_lifetimes b.statements (entry_at ss i))
  unfolding exits_of
  get_elem?-exits_of [] ss i b h e = absurd (cc)
  get_elem?-exits_of (x ∷ bs) [] i b h e = absurd (omega arith)
  get_elem?-exits_of (x ∷ bs) (s ∷ ss) zero b h e = cc
  get_elem?-exits_of (x ∷ bs) (s ∷ ss) (suc i) b h e = get_elem?-exits_of bs ss i b (omega arith) e

-- After the loop over the blocks, each block of the body keeps its statements and is clean. If it
-- leaves the body, it goes to drops of the droppable locals that are active at its end, the last
-- first, and then to a new block with its terminator. If it goes on, switches, calls or suspends,
-- its terminator changes only its edges: each leads through drops of the droppable locals that are
-- active at its end and not where its old target begins (for a cancellation, of all that are
-- active), the last first, to that target, after the drop flag of the destination of a call or of
-- a suspension is set. Other terminators, a drop with its edge among them, stay as they are. The
-- blocks on the way are new, and the sets are those of `active_local_sets`.
pub cleanup_blocks_complete :
    {B : Type 0} (droppable : List LocalId) (ls : List Local) (bs : List (BasicBlock B)) (i : ℕ)
    (b : BasicBlock B)
    → get_elem? bs i ≡ some b
    → CleanAt
        (length bs)
        (active_local_sets ls bs).0
        droppable
        (cleanup_blocks droppable (active_local_sets ls bs).0 0 (active_local_sets ls bs).1 bs)
        i
        (apply_storage_lifetimes b.statements (entry_at (active_local_sets ls bs).0 i))
        b
unfolding active_local_sets active_sweep
cleanup_blocks_complete droppable ls bs i b e =
    let states = (active_sweep ls bs).states in
    let entries = entries_of states in
    let sized =
      length-entries_of states
      ∙ length-sweep_loop (active_fuel ls bs) bs (initial_states ls bs)
      ∙ length-initial_states ls bs in
    cleanup_blocks-CleanAt (length bs) entries droppable 0 (exits_of bs entries) bs
      (omega (arith, exits_fit bs entries)) (omega arith) i i
      (apply_storage_lifetimes b.statements (entry_at entries i)) b (omega arith)
      (get_elem?-exits_of bs entries i b sized e) e
