-- ===== src/Mir/Validate/Places.antt =====
-- `check_local`, `place_type`, `use_place` and `operand_type` of crates/tn-mir/src/validate.rs.
-- A local's index fits a `usize`, so the source's `usize::try_from` of a u32 never fails.
use typenative.Prelude.{
  ℕ, Bool, true, false, List, [], ◌∷◌, Option, none, some, if◌then◌else◌, ltb, ◌==◌, length,
  get_elem?, contains,
}
use typenative.Hir.Types.{
  Ty, nominal, optional, union, array, slice, reference, raw_pointer, error_type, to_list, ty_eq,
  usize_type,
}
use typenative.Mir.Syntax.{
  Projection, field, dereference, index, downcast, base_class, Place, constant_ty, Operand, copy,
  move, constant, Local,
}
use typenative.Mir.Validate.Check.{
  invalid_local, uninitialized_use, invalid_projection, M, ◌>>=◌, ◌>>◌, pure, skip, report,
  report_unless, unmark_initialized, when_some, for_each, to_u32,
}

-- `place.projection.is_empty()`
abbrev pub is_local : Place → Bool
is_local place = elim (place.projection) [ [] ↦ true | _ ∷ _ ↦ false ]

module _ (locals : List Local) (block : ℕ) where
  unfoldable pub check_local : ℕ → M (Option ℕ)
  unfolding report
  check_local l =
      if ltb l (length locals)
      then pure (some l)
      else (do report (invalid_local block l); pure none)

  -- What an index gives that `check_local` has accepted; the last clause is never reached then.
  unfoldable pub local_type : ℕ → Ty
  local_type l = elim (get_elem? locals l) [ some d ↦ d.ty | none ↦ error_type ]

  abbrev invalid : M Ty
  invalid = do report (invalid_projection block); pure error_type

  unfoldable pub dereferenced : Ty → M Ty
  unfolding report
  dereferenced (reference m l t) = pure t
  dereferenced (raw_pointer m t) = pure t
  dereferenced _ = invalid

  unfoldable pub indexed : Ty → M Ty
  unfolding report
  indexed (array t n) = pure t
  indexed (slice t) = pure t
  indexed _ = invalid

  unfoldable pub based : Ty → M Ty
  unfolding report
  based (nominal d args) = pure (nominal d args)
  based _ = invalid

  unfoldable pub downcasted : ℕ → Ty → M Ty
  unfolding report
  downcasted i (nominal d args) = pure (nominal d args)
  downcasted i (optional t) = if i == 1 then pure t else invalid
  downcasted i (union ts) = elim (get_elem? (to_list ts) i) [ some t ↦ pure t | none ↦ invalid ]
  downcasted i _ = invalid

  -- the `match` in the loop of `place_type`
  unfoldable pub project : Projection → Ty → M Ty
  unfolding dereferenced indexed based downcasted
  project (field i t) ty = pure t
  project dereference ty = dereferenced ty
  project (index l) ty = indexed ty
  project (downcast i) ty = downcasted i ty
  project (base_class d) ty = based ty

  unfoldable pub project_all : List Projection → Ty → M Ty
  unfolding project
  project_all [] ty = pure ty
  project_all (p ∷ ps) ty = do t ← project p ty; project_all ps t

  -- The rest of `place_type`, after its `?`.
  unfoldable pub place_type_of : List Projection → Option ℕ → M (Option Ty)
  unfolding local_type project_all
  place_type_of ps none = pure none
  place_type_of ps (some l) = do t ← project_all ps (local_type l); pure (some t)

  unfoldable pub place_type : Place → M (Option Ty)
  unfolding check_local place_type_of
  place_type place = do l ← check_local place.local; place_type_of place.projection l

  -- `!initialized.contains(&local)` and the error; `shown` is the number in the error
  unfoldable pub require_initialized : ℕ → ℕ → M (Unit {0})
  unfolding contains report_unless
  require_initialized l shown c =
      report_unless (contains l c.initialized) (uninitialized_use block shown) c

  unfoldable pub use_projection : Projection → M (Unit {0})
  unfolding check_local require_initialized local_type to_u32 ty_eq report_unless
  use_projection (index l) = do
    i ← check_local l
    when_some i (λ k. require_initialized k (to_u32 k))
    j ← check_local l
    when_some j (λ k. report_unless (ty_eq (local_type k) usize_type) (invalid_projection block))
  use_projection _ = skip

  unfoldable pub use_place : Place → M (Unit {0})
  unfolding check_local require_initialized use_projection for_each
  use_place place = do
    l ← check_local place.local
    when_some l (λ k. require_initialized k place.local)
    for_each place.projection use_projection

  unfoldable pub operand_type : Operand → M (Option Ty)
  unfolding use_place place_type unmark_initialized constant_ty
  operand_type (copy place) = do use_place place; place_type place
  operand_type (move place) = do
    use_place place
    if is_local place then unmark_initialized place.local else skip
    place_type place
  operand_type (constant c) = pure (some (constant_ty c))
