-- ===== src/Mir/Validate/Sound.antt =====
-- What `validate` of validate.rs promises: its dataflow loop ends, and a body that it accepts has no
-- run on which a check of a block fails.
use typenative.Prelude.{
  ℕ, zero, suc, ◌+◌, ◌*◌, ◌≤◌, Bool, true, false, List, [], ◌∷◌, ◌++◌, some, if◌then◌else◌, ◌≡◌,
  refl, sym, ap, ◌∙◌, inl, inr, arith, length, NatSet, Subset-refl, Within, Within-lower,
  length-Within, contains, All, Bool-cases,
}
use typenative.Mir.Syntax.{Local, BasicBlock, BodyOf, Body}
use typenative.Mir.Validate.Check.{MirValidationError, empty_body}
use typenative.Mir.Validate.Rvalues.{ClosureView}
use typenative.Mir.Validate.Worklist.{state_at}
use typenative.Mir.Validate.Worklist.Ends.{StateWithin, potentials, loop_ends}
use typenative.Mir.Validate.Worklist.Settles.{Inv, loop-Inv, Covers}
use typenative.Mir.Validate.Worklist.Runs.{Run, Run-clean}
use typenative.Mir.Validate.Edges.{transfer-InRange, transfer-Below, transfer-Within, locals-le}
use typenative.Mir.Validate.Bodies.{
  is_nil, argument_indices, absent_states, initial_states, initial_flow, local_bound, transfer,
  dataflow_fuel, validate_dataflow, validate_targets, validate_regions, validate_with,
  validate_with_lem, closure_view, outcome, ok, validate,
}

argument_indices-Within :
    (k i : ℕ) (ls : List Local) → i + length ls ≤ k → Within i k (argument_indices i ls)
unfolding argument_indices
argument_indices-Within k i [] h = omega arith
argument_indices-Within k i (l ∷ ls) h =
    let later = argument_indices-Within k (suc i) ls (omega arith) in
    elim (Bool-cases l.argument) [
      | inl e ↦ rw e (omega arith, later)
      | inr e ↦ rw e (Within-lower i (suc i) k (argument_indices (suc i) ls) (omega arith) later)
    ]

module _ {B : Type 0} where
  absent-Within : (k : ℕ) (bs : List (BasicBlock B)) → All (StateWithin k) (absent_states bs)
  absent-Within k [] = tt
  absent-Within k (b ∷ bs) = (tt, absent-Within k bs)

  pub length-absent : (bs : List (BasicBlock B)) → length (absent_states bs) ≡ length bs
  length-absent [] = refl
  length-absent (b ∷ bs) = ap suc (length-absent bs)

  potentials-absent :
      (k : ℕ) (bs : List (BasicBlock B)) → potentials k (absent_states bs) ≡ length bs * suc k
  potentials-absent k [] = omega arith
  potentials-absent k (b ∷ bs) = omega (arith, potentials-absent k bs)

  state_at-absent :
      (bs : List (BasicBlock B)) (i : ℕ) (s : NatSet) → state_at (absent_states bs) i ≡ some s → ⊥
  state_at-absent [] i s e = cc
  state_at-absent (b ∷ bs) zero s e = cc
  state_at-absent (b ∷ bs) (suc i) s e = state_at-absent bs i s e

  pub initial-IsFlow :
      (k : ℕ) (ls : List Local) (bs : List (BasicBlock B))
      → length ls ≤ k
      → (length (initial_states ls bs) ≡ length bs)
        × All (StateWithin k) (initial_states ls bs)
        × (potentials k (initial_states ls bs) ≤ length bs * suc k)
  initial-IsFlow k ls [] h = (refl, tt, omega arith)
  initial-IsFlow k ls (b ∷ bs) h =
      let within = argument_indices-Within k 0 ls (omega arith) in
      (
        ap suc (length-absent bs),
        (within, absent-Within k bs),
        omega (arith, potentials-absent k bs, length-Within 0 k (argument_indices 0 ls) within),
      )

  pub initial-settled :
      (ls : List Local) (bs : List (BasicBlock B)) (i : ℕ) (s : NatSet)
      → state_at (initial_states ls bs) i ≡ some s
      → contains i (0 ∷ []) ≡ true
  unfolding contains
  initial-settled ls [] i s e = cc
  initial-settled ls (b ∷ bs) zero s e = refl
  initial-settled ls (b ∷ bs) (suc i) s e = absurd (state_at-absent bs i s e)

  pub initial-Covers :
      (ls : List Local) (bs : List (BasicBlock B))
      → is_nil bs ≡ false
      → Covers (initial_states ls bs) 0 (argument_indices 0 ls)
  initial-Covers ls [] h = cc
  initial-Covers ls (b ∷ bs) h = (argument_indices 0 ls, refl, Subset-refl (argument_indices 0 ls))

  module _ (view : B → ClosureView) (body : BodyOf B) where
    -- The dataflow loop of the validator ends by its own test on every body: its queue is empty
    -- when it stops, so the fuel of the model never cuts it short.
    pub validate_dataflow_ends : (validate_dataflow view body).work ≡ []
    unfolding validate_dataflow dataflow_fuel
    validate_dataflow_ends =
        let k = local_bound body in
        let (sized, within, small) =
          initial-IsFlow k body.locals body.blocks (locals-le view body) in
        loop_ends (length body.blocks) k (transfer view body) (transfer-Within view body)
          (dataflow_fuel view body) (initial_flow view body)
          (record { sized = sized; within = within }) (omega arith)

    final-Inv :
        is_nil body.blocks ≡ false
        → Inv
            (length body.blocks)
            (transfer view body)
            (transfer-InRange view body)
            (argument_indices 0 body.locals)
            (validate_dataflow view body)
    unfolding validate_dataflow
    final-Inv h =
        loop-Inv (length body.blocks) (transfer view body) (transfer-InRange view body)
          (argument_indices 0 body.locals) (dataflow_fuel view body) (initial_flow view body)
          (record {
            sized =
                (initial-IsFlow (local_bound body) body.locals body.blocks (locals-le view body)).0;
            entered = initial-Covers body.locals body.blocks h;
            settled = λ i s e. inl (initial-settled body.locals body.blocks i s e);
          })

    -- What no error from `validate` says of its parts.
    pub accepted_parts :
        validate_with view body ≡ []
        → (is_nil body.blocks ≡ false)
          × (validate_targets (length body.blocks) 0 body.blocks ≡ [])
          × (validate_regions body.blocks [] ≡ [])
          × ((validate_dataflow view body).errors ≡ [])
    accepted_parts h =
        parts (is_nil body.blocks) (validate_targets (length body.blocks) 0 body.blocks)
          (validate_regions body.blocks []) (validate_dataflow view body).errors
          (sym (validate_with_lem view body) ∙ h)
      where
        parts :
            (b : Bool) (ts rs ds : List MirValidationError)
            → (if b then empty_body ∷ [] else (ts ++ rs ++ ds)) ≡ []
            → (b ≡ false) × (ts ≡ []) × (rs ≡ []) × (ds ≡ [])
        parts true ts rs ds e = absurd (cc)
        parts false [] [] [] e = (refl, refl, refl, refl)
        parts false [] [] (d ∷ ds) e = absurd (cc)
        parts false [] (r ∷ rs) ds e = absurd (cc)
        parts false (t ∷ ts) rs ds e = absurd (cc)

    accepted-Run :
        validate_with view body ≡ []
        → {i : ℕ} {c : NatSet} → Run (transfer view body) (argument_indices 0 body.locals) i c
        → (transfer view body i c).1 ≡ []
    accepted-Run h r =
        let (filled, _, _, clean) = accepted_parts h in
        Run-clean (length body.blocks) (transfer view body) (transfer-InRange view body)
          (transfer-Below view body) (argument_indices 0 body.locals) (validate_dataflow view body)
          (final-Inv filled) validate_dataflow_ends clean r

pub outcome-ok : (es : List MirValidationError) → outcome es ≡ ok → es ≡ []
outcome-ok [] h = refl
outcome-ok (e ∷ es) h = cc

-- A body that the validator accepts passes every check on every path: wherever a path of the
-- control-flow graph from the entry block leads, the checks of the block's statements and
-- terminator report nothing, also when they start from just the locals that this path initialized.
pub validate-Run :
    (n : ℕ) (body : Body n)
    → validate n body ≡ ok
    → {i : ℕ} {c : NatSet}
    → Run (transfer (closure_view n) body) (argument_indices 0 body.locals) i c
    → (transfer (closure_view n) body i c).1 ≡ []
unfolding validate
validate-Run n body h =
    accepted-Run (closure_view n) body (outcome-ok (validate_with (closure_view n) body) h)
