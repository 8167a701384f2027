-- ===== src/Mir/Drops/Active/Ends.antt =====
-- The rounds of `active_local_sets` end: a round that changes a state makes it smaller.
use typenative.Prelude.{
  ℕ, zero, suc, ◌+◌, ◌≤◌, ◌<◌, true, false, List, [], ◌∷◌, Option, none, some, ◌≡◌, ◌∙◌, ◌⊎◌, inl,
  inr, arith, length, length-set, All, NatSet, Within, insert-Within, remove-Within, Bool-cases,
}
use typenative.Mir.Syntax.{
  BasicBlockId, Local, StatementKind, storage_live, storage_dead, Statement, BasicBlock,
}
use typenative.Mir.Validate.Worklist.{state_at, merged, unchanged}
use typenative.Mir.Validate.Worklist.Ends.{
  StateWithin, potentials, potentials-set, All-set, state_at-Within, merged-Within, merged-shrinks,
}
use typenative.Mir.Validate.Bodies.{initial_states}
use typenative.Mir.Validate.Sound.{initial-IsFlow}
use typenative.Mir.Drops.Active.{
  successors, Sweep, sweep_successor, sweep_successors, apply_storage_lifetime,
  apply_storage_lifetimes, sweep_block, sweep, sweep_loop, live_bound, lives_bound, storage_bound,
  active_fuel, active_sweep,
}

-- Every successor of every block is one of `n` blocks.
abbrev pub SuccessorsBelow : {B : Type 0} → ℕ → List (BasicBlock B) → Type 0
SuccessorsBelow n bs = All (λ b. All (λ t. t < n) (successors (b.terminator.kind))) bs

module _ (n k : ℕ) where
  abbrev SweepWithin : Sweep → Type 0
  SweepWithin w = (length w.states ≡ n) × All (StateWithin k) w.states

  -- From one sweep to a later one of the same round: the potential falls if a change is first seen.
  abbrev Falls : Sweep → Sweep → Type 0
  Falls w v =
      (potentials k v.states ≤ potentials k w.states)
      × (v.changed ≡ true → (w.changed ≡ true) ⊎ (potentials k v.states < potentials k w.states))

  Falls-refl : (w : Sweep) → Falls w w
  Falls-refl w = (omega arith, inl)

  Falls-trans : (u v w : Sweep) → Falls u v → Falls v w → Falls u w
  Falls-trans u v w (a, f) (b, g) = (
    omega arith,
    λ h. elim (g h) [
      | inr lt ↦ inr (omega arith)
      | inl c ↦ elim (f c) [ inl c' ↦ inl c' | inr lt ↦ inr (omega arith) ]
    ],
  )

  sweep_successor-Within :
      (active : NatSet) (t : ℕ) (w : Sweep)
      → Within 0 k active
      → t < n
      → SweepWithin w
      → SweepWithin (sweep_successor active t w) × Falls w (sweep_successor active t w)
  unfolding sweep_successor
  sweep_successor-Within active t w h lt (sized, within) =
      elim (Bool-cases (unchanged (state_at w.states t) next)) [
        | inl same ↦ rw same ((sized, within), Falls-refl w)
        | inr new ↦ rw new (
          (length-set w.states t (some next) ∙ sized, All-set k w.states t next within next_within),
          (
            omega (
              arith,
              potentials-set k w.states t next (omega arith),
              merged-shrinks k (state_at w.states t) active h new,
            ),
            λ c. inr (
                omega (
                  arith,
                  potentials-set k w.states t next (omega arith),
                  merged-shrinks k (state_at w.states t) active h new,
                )),
          ),
        )
      ]
    where
      next : NatSet
      next = merged (state_at w.states t) active

      next_within : Within 0 k next
      next_within =
          merged-Within k (state_at w.states t) active (state_at-Within k w.states t within) h

  sweep_successors-Within :
      (active : NatSet) (ts : List BasicBlockId) (w : Sweep)
      → Within 0 k active
      → All (λ t. t < n) ts
      → SweepWithin w
      → SweepWithin (sweep_successors active ts w) × Falls w (sweep_successors active ts w)
  unfolding sweep_successors
  sweep_successors-Within active [] w h ts v = (v, Falls-refl w)
  sweep_successors-Within active (t ∷ ts) w h below v =
      let u = sweep_successor active t w in
      let (v', f) = sweep_successor-Within active t w h below.0 v in
      let (v'', g) = sweep_successors-Within active ts u h below.1 v' in
      (v'', Falls-trans w u (sweep_successors active ts u) f g)

  module _ {B : Type 0} where
    lifetime-Within :
        (s : StatementKind B) (active : NatSet)
        → live_bound s ≤ k
        → Within 0 k active
        → Within 0 k (apply_storage_lifetime s active)
    unfolding apply_storage_lifetime
    lifetime-Within (storage_live l) active b h = insert-Within 0 k l active (omega arith) b h
    lifetime-Within (storage_dead l) active b h = remove-Within 0 k l active h
    lifetime-Within s active b h = h

    lifetimes-Within :
        (ss : List (Statement B)) (active : NatSet)
        → lives_bound ss ≤ k
        → Within 0 k active
        → Within 0 k (apply_storage_lifetimes ss active)
    unfolding apply_storage_lifetimes
    lifetimes-Within [] active b h = h
    lifetimes-Within (s ∷ ss) active b h =
        lifetimes-Within ss (apply_storage_lifetime s.kind active) (omega arith)
          (lifetime-Within s.kind active (omega arith) h)

    sweep_block-Within :
        (b : BasicBlock B) (o : Option NatSet) (w : Sweep)
        → lives_bound b.statements ≤ k
        → All (λ t. t < n) (successors b.terminator.kind)
        → StateWithin k o
        → SweepWithin w
        → SweepWithin (sweep_block b o w) × Falls w (sweep_block b o w)
    unfolding sweep_block
    sweep_block-Within b none w l ts h v = (v, Falls-refl w)
    sweep_block-Within b (some active) w l ts h v =
        sweep_successors-Within (apply_storage_lifetimes b.statements active)
          (successors b.terminator.kind) w (lifetimes-Within b.statements active l h) ts v

    sweep-Within :
        (i : ℕ) (bs : List (BasicBlock B)) (w : Sweep)
        → storage_bound bs ≤ k
        → SuccessorsBelow n bs
        → SweepWithin w
        → SweepWithin (sweep i bs w) × Falls w (sweep i bs w)
    unfolding sweep
    sweep-Within i [] w l ts v = (v, Falls-refl w)
    sweep-Within i (b ∷ bs) w l ts v =
        let u = sweep_block b (state_at w.states i) w in
        let (v', f) =
          sweep_block-Within b (state_at w.states i) w (omega arith) ts.0
            (state_at-Within k w.states i v.1) v in
        let (v'', g) = sweep-Within (suc i) bs u (omega arith) ts.1 v' in
        (v'', Falls-trans w u (sweep (suc i) bs u) f g)

    sweep_loop_ends :
        (fuel : ℕ) (bs : List (BasicBlock B)) (states : List (Option NatSet))
        → storage_bound bs ≤ k
        → SuccessorsBelow n bs
        → (length states ≡ n) × All (StateWithin k) states
        → potentials k states < fuel
        → (sweep_loop fuel bs states).changed ≡ false
    unfolding sweep_loop
    sweep_loop_ends zero bs states l ts v h = absurd (omega arith)
    sweep_loop_ends (suc fuel) bs states l ts v h =
        let start : Sweep = record { states = states; changed = false } in
        let (v', f) = sweep-Within 0 bs start l ts v in
        elim (Bool-cases (sweep 0 bs start).changed) [
          | inr done ↦ rw done done
          | inl more ↦ rw more (
              sweep_loop_ends fuel bs (sweep 0 bs start).states l ts v'
                (elim (f.1 more) [ inl c ↦ cc | inr lt ↦ omega arith ]))
        ]

-- Where every successor of a block is a block of the body, the rounds of `active_local_sets` end by
-- their own test: in the last round no state changes.
pub active_sweep_ends :
    {B : Type 0} (ls : List Local) (bs : List (BasicBlock B))
    → SuccessorsBelow (length bs) bs
    → (active_sweep ls bs).changed ≡ false
unfolding active_sweep active_fuel
active_sweep_ends ls bs ts =
    let k = length ls + storage_bound bs in
    let (sized, within, small) = initial-IsFlow k ls bs (omega arith) in
    sweep_loop_ends (length bs) k (active_fuel ls bs) bs (initial_states ls bs) (omega arith) ts
      (sized, within) (omega arith)
