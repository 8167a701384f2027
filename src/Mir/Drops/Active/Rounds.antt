-- ===== src/Mir/Drops/Active/Rounds.antt =====
-- The rounds of `active_local_sets`: what a round without a change shows, and that states only shrink.
use typenative.Prelude.{
  ℕ, zero, suc, ◌<◌, false, List, [], ◌∷◌, Option, none, some, ◌≡◌, refl, sym, ◌∙◌, inl, inr, arith,
  length, set, All, NatSet, Subset-refl, Bool-cases, ◌==◌, ==_iff,
}
use mathlib.Core.Path.{subst}
use typenative.Mir.Syntax.{BasicBlockId, BasicBlock}
use typenative.Mir.Validate.Worklist.{state_at, merged, unchanged}
use typenative.Mir.Validate.Worklist.Settles.{
  Covers, Refines, Refines-refl, Refines-trans, merged-Subset, merged-Subset_old, unchanged-eq,
  state_at-set_self, state_at-set_ne,
}
use typenative.Mir.Drops.Active.{
  successors, Sweep, sweep_successor, sweep_successors, apply_storage_lifetimes, sweep_block, sweep,
  sweep_loop,
}

-- A sweep that sees no change has changed nothing, and each sweep refines the states.
abbrev Quiet : Sweep → Sweep → Type 0
Quiet w v = v.changed ≡ false → (w.changed ≡ false) × (v.states ≡ w.states)

sweep_successor-Quiet :
    (active : NatSet) (t : ℕ) (w : Sweep)
    → Quiet w (sweep_successor active t w)
      × ((sweep_successor active t w).changed ≡ false → Covers w.states t active)
unfolding sweep_successor
sweep_successor-Quiet active t w =
    elim (Bool-cases (unchanged (state_at w.states t) (merged (state_at w.states t) active))) [
      | inl same ↦ rw same (
        λ h. (h, refl),
        λ h. (
          merged (state_at w.states t) active,
          unchanged-eq (state_at w.states t) (merged (state_at w.states t) active) same,
          merged-Subset (state_at w.states t) active,
        ),
      )
      | inr new ↦ rw new (λ h. absurd (cc), λ h. absurd (cc))
    ]

sweep_successors-Quiet :
    (active : NatSet) (ts : List BasicBlockId) (w : Sweep)
    → Quiet w (sweep_successors active ts w)
      × ((sweep_successors active ts w).changed ≡ false → All (λ t. Covers w.states t active) ts)
unfolding sweep_successors
sweep_successors-Quiet active [] w = (λ h. (h, refl), λ h. tt)
sweep_successors-Quiet active (t ∷ ts) w =
    let u = sweep_successor active t w in
    let (q, c) = sweep_successor-Quiet active t w in
    let (q', c') = sweep_successors-Quiet active ts u in
    (
      λ h. let (h', e) = q' h in let (h'', e') = q h' in (h'', e ∙ e'),
      λ h.
          let (h', e) = q' h in
          (c h', subst (λ ss. All (λ x. Covers ss x active) ts) (q h').1 (c' h)),
    )

module _ {B : Type 0} where
  -- A block with a state passes what is live at its end on to its successors.
  abbrev pub Passed : List (Option NatSet) → BasicBlock B → Option NatSet → Type 0
  Passed ss b none = Unit
  Passed ss b (some s) =
      All (λ t. Covers ss t (apply_storage_lifetimes b.statements s)) (successors b.terminator.kind)

  sweep_block-Quiet :
      (b : BasicBlock B) (o : Option NatSet) (w : Sweep)
      → Quiet w (sweep_block b o w) × ((sweep_block b o w).changed ≡ false → Passed w.states b o)
  unfolding sweep_block
  sweep_block-Quiet b none w = (λ h. (h, refl), λ h. tt)
  sweep_block-Quiet b (some s) w =
      sweep_successors-Quiet (apply_storage_lifetimes b.statements s) (successors b.terminator.kind)
        w

  abbrev pub AllPassed : List (Option NatSet) → ℕ → List (BasicBlock B) → Type 0
  AllPassed ss i [] = Unit
  AllPassed ss i (b ∷ bs) = Passed ss b (state_at ss i) × AllPassed ss (suc i) bs

  sweep-Quiet :
      (i : ℕ) (bs : List (BasicBlock B)) (w : Sweep)
      → Quiet w (sweep i bs w) × ((sweep i bs w).changed ≡ false → AllPassed w.states i bs)
  unfolding sweep
  sweep-Quiet i [] w = (λ h. (h, refl), λ h. tt)
  sweep-Quiet i (b ∷ bs) w =
      let u = sweep_block b (state_at w.states i) w in
      let (q, c) = sweep_block-Quiet b (state_at w.states i) w in
      let (q', c') = sweep-Quiet (suc i) bs u in
      (
        λ h. let (h', e) = q' h in let (h'', e') = q h' in (h'', e ∙ e'),
        λ h. let (h', e) = q' h in (c h', subst (λ ss. AllPassed ss (suc i) bs) (q h').1 (c' h)),
      )

  -- The loop ends with states that its last round did not change.
  pub sweep_loop-AllPassed :
      (fuel : ℕ) (bs : List (BasicBlock B)) (states : List (Option NatSet))
      → (sweep_loop fuel bs states).changed ≡ false
      → AllPassed (sweep_loop fuel bs states).states 0 bs
  unfolding sweep_loop
  sweep_loop-AllPassed zero bs states h = absurd (cc)
  sweep_loop-AllPassed (suc fuel) bs states h =
      let start : Sweep = record { states = states; changed = false } in
      elim (Bool-cases (sweep 0 bs start).changed) [
        | inl more ↦
            rw more
              (sweep_loop-AllPassed fuel bs (sweep 0 bs start).states (rw (more, sweep_loop) at h))
        | inr done ↦ rw done (
            let (q, c) = sweep-Quiet 0 bs start in
            subst (λ ss. AllPassed ss 0 bs) (sym (q done).1) (c done))
      ]

lt-length_of_state_at :
    (ss : List (Option NatSet)) (t : ℕ) (s : NatSet) → state_at ss t ≡ some s → t < length ss
lt-length_of_state_at [] t s e = cc
lt-length_of_state_at (x ∷ ss) zero s e = omega arith
lt-length_of_state_at (x ∷ ss) (suc t) s e = omega (arith, lt-length_of_state_at ss t s e)

set-Refines :
    (ss : List (Option NatSet)) (t : ℕ) (active : NatSet)
    → Refines ss (set ss t (some (merged (state_at ss t) active)))
set-Refines ss t active j s e = elim (Bool-cases (j == t)) [
  | inr other ↦ (s, state_at-set_ne ss t j (some next) other ∙ e, Subset-refl s)
  | inl same ↦
      let q = (==_iff j t).0 same in
      let e' = subst (λ z. state_at ss z ≡ some s) q e in
      subst (λ z. Covers (set ss t (some next)) z s) (sym q)
        (
          next,
          state_at-set_self ss t (some next) (lt-length_of_state_at ss t s e'),
          merged-Subset_old (state_at ss t) s active e',
        )
]
  where
    next : NatSet
    next = merged (state_at ss t) active

sweep_successor-Refines :
    (active : NatSet) (t : ℕ) (w : Sweep) → Refines w.states (sweep_successor active t w).states
unfolding sweep_successor
sweep_successor-Refines active t w =
    elim (Bool-cases (unchanged (state_at w.states t) (merged (state_at w.states t) active))) [
      | inl same ↦ rw same (Refines-refl w.states)
      | inr new ↦ rw new (set-Refines w.states t active)
    ]

sweep_successors-Refines :
    (active : NatSet) (ts : List BasicBlockId) (w : Sweep)
    → Refines w.states (sweep_successors active ts w).states
unfolding sweep_successors
sweep_successors-Refines active [] w = Refines-refl w.states
sweep_successors-Refines active (t ∷ ts) w =
    let u = sweep_successor active t w in
    Refines-trans w.states u.states (sweep_successors active ts u).states
      (sweep_successor-Refines active t w) (sweep_successors-Refines active ts u)

module _ {B : Type 0} where
  sweep_block-Refines :
      (b : BasicBlock B) (o : Option NatSet) (w : Sweep)
      → Refines w.states (sweep_block b o w).states
  unfolding sweep_block
  sweep_block-Refines b none w = Refines-refl w.states
  sweep_block-Refines b (some s) w =
      sweep_successors-Refines (apply_storage_lifetimes b.statements s)
        (successors b.terminator.kind) w

  sweep-Refines :
      (i : ℕ) (bs : List (BasicBlock B)) (w : Sweep) → Refines w.states (sweep i bs w).states
  unfolding sweep
  sweep-Refines i [] w = Refines-refl w.states
  sweep-Refines i (b ∷ bs) w =
      let u = sweep_block b (state_at w.states i) w in
      Refines-trans w.states u.states (sweep (suc i) bs u).states
        (sweep_block-Refines b (state_at w.states i) w) (sweep-Refines (suc i) bs u)

  pub sweep_loop-Refines :
      (fuel : ℕ) (bs : List (BasicBlock B)) (states : List (Option NatSet))
      → Refines states (sweep_loop fuel bs states).states
  unfolding sweep_loop
  sweep_loop-Refines zero bs states = Refines-refl states
  sweep_loop-Refines (suc fuel) bs states =
      let start : Sweep = record { states = states; changed = false } in
      let once = sweep 0 bs start in
      elim (Bool-cases once.changed) [
        | inl more ↦ rw more (
            Refines-trans states once.states (sweep_loop fuel bs once.states).states
              (sweep-Refines 0 bs start) (sweep_loop-Refines fuel bs once.states))
        | inr done ↦ rw done (sweep-Refines 0 bs start)
      ]
