-- ===== src/Mir/Monomorphize/Matching.antt =====
-- `matches_target` and `infer_type` of crates/tn-mir/src/monomorphize.rs. The map of inferred types is
-- passed on as an association list, to which a key is added only if it is absent.
pub mod Extends
pub mod Shapes
pub mod Sound
pub mod Recovers
use typenative.Prelude.{
  ℕ, suc, Bool, true, false, ◌&&◌, List, [], ◌∷◌, Option, none, some, String, ◌==◌, if◌then◌else◌,
}
use typenative.Hir.Types.{
  Ty, primitive, string, str, promise, nominal, optional, union, array, slice, tuple, reference,
  raw_pointer, function, template, dynamic_interface, generic, lifetime_of, error_union, error_type,
  unknown, Tys, nil, cons, FunctionType, function_type, ty_eq,
}
use typenative.Mir.Monomorphize.Types.{Substitutions, get}

abbrev pub tys_length : Tys → ℕ
tys_length nil = 0
tys_length (cons t ts) = suc (tys_length ts)

-- `a && b`, where `b` runs after `a` and only if `a` holds
abbrev pub and_then :
    Bool × Substitutions → (Substitutions → Bool × Substitutions) → Bool × Substitutions
and_then (true, s) k = k s
and_then (false, s) k = (false, s)

-- the arm of a generic: what is inferred for its name must be the concrete type
unfoldable pub matches_generic : Option Ty → String → Ty → Substitutions → Bool × Substitutions
unfolding ty_eq
matches_generic none name c s = (true, (name, c) ∷ s)
matches_generic (some previous) name c s = (ty_eq previous c, s)

unfoldable mutual
  unfolding get matches_generic ty_eq

  pub matches_target : Ty → Ty → Substitutions → Bool × Substitutions
  matches_target (generic name) c s = matches_generic (get s name) name c s
  matches_target (nominal i ts) c s = elim c [
    | nominal j cs ↦
        if i == j && tys_length ts == tys_length cs then matches_all ts cs s else (false, s)
    | other ↦ (false, s)
  ]
  matches_target (optional t) c s = elim c [
    | optional d ↦ matches_target t d s
    | other ↦ (false, s)
  ]
  matches_target (array t n) c s = elim c [ array d m ↦ matches_target t d s | other ↦ (false, s) ]
  matches_target (slice t) c s = elim c [ slice d ↦ matches_target t d s | other ↦ (false, s) ]
  matches_target (reference m l t) c s = elim c [
    | reference m' l' d ↦ matches_target t d s
    | other ↦ (false, s)
  ]
  matches_target (raw_pointer m t) c s = elim c [
    | raw_pointer m' d ↦ matches_target t d s
    | other ↦ (false, s)
  ]
  matches_target (promise r e effects) c s = elim c [
    | promise r' e' effects' ↦ and_then (matches_target r r' s) (λ s'. matches_target e e' s')
    | other ↦ (false, s)
  ]
  matches_target (tuple ts) c s = elim c [
    | tuple cs ↦ if tys_length ts == tys_length cs then matches_all ts cs s else (false, s)
    | other ↦ (false, s)
  ]
  matches_target (template ts) c s = elim c [
    | template cs ↦ if tys_length ts == tys_length cs then matches_all ts cs s else (false, s)
    | other ↦ (false, s)
  ]
  matches_target (union ts) c s = elim c [
    | union cs ↦ if tys_length ts == tys_length cs then matches_all ts cs s else (false, s)
    | other ↦ (false, s)
  ]
  matches_target t c s = (ty_eq t c, s)

  -- `template.iter().zip(concrete).all(..)`
  pub matches_all : Tys → Tys → Substitutions → Bool × Substitutions
  matches_all nil cs s = (true, s)
  matches_all (cons t ts) nil s = (true, s)
  matches_all (cons t ts) (cons c cs) s =
      and_then (matches_target t c s) (λ s'. matches_all ts cs s')

-- `inferred.entry(name).or_insert_with(..)`
unfoldable pub or_insert : Option Ty → String → Ty → Substitutions → Substitutions
or_insert none name c s = (name, c) ∷ s
or_insert (some previous) name c s = s

unfoldable mutual
  unfolding get or_insert

  pub infer_type : Ty → Ty → Substitutions → Substitutions
  infer_type (generic name) c s = or_insert (get s name) name c s
  infer_type (optional t) c s = elim c [ optional d ↦ infer_type t d s | other ↦ s ]
  infer_type (slice t) c s = elim c [ slice d ↦ infer_type t d s | other ↦ s ]
  infer_type (array t n) c s = elim c [ array d m ↦ infer_type t d s | other ↦ s ]
  infer_type (union ts) c s = elim c [ union cs ↦ infer_all ts cs s | other ↦ s ]
  infer_type (tuple ts) c s = elim c [ tuple cs ↦ infer_all ts cs s | other ↦ s ]
  infer_type (template ts) c s = elim c [ template cs ↦ infer_all ts cs s | other ↦ s ]
  infer_type (nominal i ts) c s = elim c [ nominal j cs ↦ infer_all ts cs s | other ↦ s ]
  infer_type (dynamic_interface i ts) c s = elim c [
    | dynamic_interface j cs ↦ infer_all ts cs s
    | other ↦ s
  ]
  infer_type (reference m l t) c s = elim c [ reference m' l' d ↦ infer_type t d s | other ↦ s ]
  infer_type (raw_pointer m t) c s = elim c [ raw_pointer m' d ↦ infer_type t d s | other ↦ s ]
  infer_type (promise r e effects) c s = elim c [
    | promise r' e' effects' ↦ infer_type e e' (infer_type r r' s)
    | other ↦ s
  ]
  infer_type (function f) c s = elim c [ function g ↦ infer_function f g s | other ↦ s ]
  infer_type t c s = s

  pub infer_function : FunctionType → FunctionType → Substitutions → Substitutions
  infer_function (function_type ps r effects generics a u) g s = elim g [
    | function_type ps' r' effects' generics' a' u' ↦ infer_type r r' (infer_all ps ps' s)
  ]

  -- the loop over the pairs of two lists
  pub infer_all : Tys → Tys → Substitutions → Substitutions
  infer_all nil cs s = s
  infer_all (cons t ts) nil s = s
  infer_all (cons t ts) (cons c cs) s = infer_all ts cs (infer_type t c s)
