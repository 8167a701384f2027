-- ===== src/Mir/Witnesses.antt =====
-- The theorems at concrete bodies.
use typenative.Prelude.{
  some, true, List, [], ◌∷◌, ◌≡◌, ◌↔◌, refl, inl, All, Subset, arith, false, none,
}
use typenative.Hir.Types.{generic, optional}
use typenative.Mir.Syntax.{
  BasicBlock, Closure, local_place, goto, storage_dead, return, shared, borrow,
}
use typenative.Mir.Samples.{int, copying, owning_elaborated, owning_split, moving, statement, block}
use typenative.Mir.ErrorLowering.{lower_typed_errors}
use typenative.Mir.ErrorLowering.Laws.{IsLowered, lower_typed_errors-fixed_iff}
use typenative.Mir.ErrorLowering.Validation.{validate-lower_typed_errors}
use typenative.Mir.Drops.Active.{
  active_sweep, active_local_sets, apply_storage_lifetimes, successors,
}
use typenative.Mir.Drops.Cleanup.{entry_at}
use typenative.Mir.Monomorphize.Types.{Substitutions, get, contains_generic, substitute_type}
use typenative.Mir.Monomorphize.Types.Substitution.{Bound, names, contains_generic-substitute_type}
use typenative.Mir.Drops.Instrument.{instrument_block}
use typenative.Mir.Drops.Instrument.Keeps.{Flagged, instrument_block-Flagged}
use typenative.Mir.Drops.Instrument.Flags.{flag_after, filled_at_end, instrument_block_flag}
use typenative.Mir.Drops.Storage.{split_storage_deaths}
use typenative.Mir.Drops.Storage.Splits.{Splits, split_storage_deaths-Splits}
use typenative.Mir.Drops.Elaborate.{cleanup_blocks}
use typenative.Mir.Drops.Elaborate.Cleans.{CleanAt}
use typenative.Mir.Drops.Elaborate.Complete.{cleanup_blocks_complete}
use typenative.Mir.Drops.Active.Ends.{SuccessorsBelow, active_sweep_ends}
use typenative.Mir.Drops.Active.Live.{LivePath, entry, along, active_local_sets-LivePath}
use typenative.Mir.Validate.Worklist.Runs.{Run, start, step}
use typenative.Mir.Validate.Bodies.{
  argument_indices, transfer, validate_dataflow, validate_targets, validate_regions, closure_view,
  ok, validate,
}
use typenative.Mir.Validate.Sound.{validate-Run, validate_dataflow_ends}
use typenative.Mir.Validate.Structure.{
  TargetsExist, Distinct, block_regions, validate-IsWellFormed, validate_targets_iff,
  validate_regions_iff,
}

validate-copying : validate 0 copying ≡ ok
unfolding validate
validate-copying = refl

-- The run of the body `copying` into its second block, with both locals initialized.
second_block :
    Run (transfer (closure_view 0) copying) (argument_indices 0 copying.locals) 1 (0 ∷ 1 ∷ [])
unfolding transfer argument_indices
second_block = step (start refl refl) (inl (refl, refl))

validate-Run_example : (transfer (closure_view 0) copying 1 (0 ∷ 1 ∷ [])).1 ≡ []
validate-Run_example = validate-Run 0 copying validate-copying second_block

validate_dataflow_ends_example : (validate_dataflow (closure_view 0) copying).work ≡ []
validate_dataflow_ends_example = validate_dataflow_ends (closure_view 0) copying

validate-lower_typed_errors_example : validate 0 (lower_typed_errors 0 copying) ≡ validate 0 copying
validate-lower_typed_errors_example = validate-lower_typed_errors 0 copying

validate-IsWellFormed_example :
    All (TargetsExist 2) copying.blocks × Distinct (block_regions copying.blocks)
validate-IsWellFormed_example = validate-IsWellFormed 0 copying validate-copying

lower_typed_errors-fixed_iff_example :
    (lower_typed_errors 0 copying ≡ copying) ↔ IsLowered 0 copying
lower_typed_errors-fixed_iff_example = lower_typed_errors-fixed_iff 0 copying

validate_targets_iff_example :
    (validate_targets 2 0 copying.blocks ≡ []) ↔ All (TargetsExist 2) copying.blocks
validate_targets_iff_example = validate_targets_iff 2 0 copying.blocks

-- one region created by two borrows
abbrev twice_borrowed : List (BasicBlock (Closure 0))
twice_borrowed =
    block
      (statement (borrow 1 shared (local_place 0) 4)
        ∷ statement (borrow 2 shared (local_place 0) 4)
        ∷ [])
      (goto 0)
    ∷ []

validate_regions_iff_example :
    (validate_regions twice_borrowed [] ≡ []) ↔ Distinct (block_regions twice_borrowed)
validate_regions_iff_example = validate_regions_iff twice_borrowed

owning_successors : SuccessorsBelow 4 owning_elaborated.blocks
unfolding successors
owning_successors = ((omega arith, tt), ((omega arith, tt), (tt, ((omega arith, tt), tt))))

active_sweep_ends_example :
    (active_sweep owning_elaborated.locals owning_elaborated.blocks).changed ≡ false
active_sweep_ends_example =
    active_sweep_ends owning_elaborated.locals owning_elaborated.blocks owning_successors

-- The path into the second block, where the argument and `_1` are live.
owning_path : LivePath owning_elaborated.locals owning_elaborated.blocks 1 (0 ∷ 1 ∷ [])
unfolding apply_storage_lifetimes argument_indices
owning_path = along (entry refl refl) refl refl

active_local_sets-LivePath_example :
    Subset
      (entry_at (active_local_sets owning_elaborated.locals owning_elaborated.blocks).0 1)
      (0 ∷ 1 ∷ [])
active_local_sets-LivePath_example =
    active_local_sets-LivePath owning_elaborated.locals owning_elaborated.blocks owning_successors
      refl owning_path

-- The second block of `owning_split` returns, with `_0` active.
cleanup_blocks_complete_example :
    CleanAt 2
      (active_local_sets owning_elaborated.locals owning_split).0
      (0 ∷ 1 ∷ [])
      (cleanup_blocks
        (0 ∷ 1 ∷ [])
        (active_local_sets owning_elaborated.locals owning_split).0
        0
        (active_local_sets owning_elaborated.locals owning_split).1
        owning_split)
      1
      (apply_storage_lifetimes
        (statement {B = Closure 0} (storage_dead 1) ∷ [])
        (entry_at (active_local_sets owning_elaborated.locals owning_split).0 1))
      (block (statement (storage_dead 1) ∷ []) (return none))
cleanup_blocks_complete_example =
    cleanup_blocks_complete (0 ∷ 1 ∷ []) owning_elaborated.locals owning_split 1
      (block (statement (storage_dead 1) ∷ []) (return none)) refl

split_storage_deaths-Splits_example :
    Splits 1
      (1 ∷ [])
      moving.terminator
      (split_storage_deaths (1 ∷ []) (moving ∷ []))
      0
      []
      moving.statements
split_storage_deaths-Splits_example =
    split_storage_deaths-Splits (1 ∷ []) (moving ∷ []) 0 moving refl

instrument_block-Flagged_example :
    Flagged moving.statements (instrument_block moving).statements
    × ((instrument_block moving).terminator ≡ moving.terminator)
instrument_block-Flagged_example = instrument_block-Flagged moving

instrument_block_flag_example :
    flag_after (instrument_block moving).statements 0 (some true)
    ≡ filled_at_end moving 0 (some true)
instrument_block_flag_example = instrument_block_flag moving 0 (some true)

-- `T` stands for i32.
abbrev int_for_t : Substitutions
int_for_t = ("T", int) ∷ []

int_for_t-Bound : All (Bound int_for_t) (names (optional (generic "T")))
unfolding get names contains_generic
int_for_t-Bound = ((int, refl, refl), tt)

contains_generic-substitute_type_example :
    contains_generic (substitute_type int_for_t (optional (generic "T"))) ≡ false
contains_generic-substitute_type_example =
    contains_generic-substitute_type int_for_t (optional (generic "T")) int_for_t-Bound
