-- ===== src/Mir/Monomorphize/Witnesses.antt =====
-- Runs of monomorphization on a small program, and its theorems there.
use typenative.Prelude.{
  true, false, List, [], ◌∷◌, some, ◌≡◌, refl, sym, ap, ◌∙◌, inl, inr, arith, All,
}
use mathlib.Core.Path.{subst}
use typenative.Hir.Types.{
  Ty, generic, optional, array, tuple, function, function_type, unconstrained, nil, cons, ty_eq,
}
use typenative.Mir.Syntax.{Body}
use typenative.Mir.Samples.{int, copying}
use typenative.Mir.ErrorLowering.{lower_typed_errors}
use typenative.Mir.Monomorphize.Types.{Substitutions, get, substitute_type, contains_generic}
use typenative.Mir.Monomorphize.Types.Substitution.{names}
use typenative.Mir.Monomorphize.Matching.{matches_target, infer_type}
use typenative.Mir.Monomorphize.Matching.Shapes.{shape}
use typenative.Mir.Monomorphize.Matching.Sound.{matches_target-shape}
use typenative.Mir.Monomorphize.Matching.Recovers.{Agree, Given, infer_type-substitute_type}
use typenative.Mir.Monomorphize.Bodies.{substitute_body}
use typenative.Mir.Monomorphize.Bodies.Commutes.{substitute_body-lower_typed_errors}
use typenative.Mir.Monomorphize.Instances.{
  Instance, Result, Registry, ok, err, registry_from, missing_body,
}
use typenative.Mir.Monomorphize.Discovery.{any_contains_generic}
use typenative.Mir.Monomorphize.Discovery.Concrete.{IsConcrete}
use typenative.Mir.Monomorphize.Queue.{
  MonomorphizedBody, specialize_instance, monomorphize_with_drops, monomorphize,
}
use typenative.Mir.Monomorphize.Queue.Members.{In}
use typenative.Mir.Monomorphize.Queue.Needed.{Needed, root, inside}
use typenative.Mir.Monomorphize.Queue.Correct.{IsAnswer, monomorphize_with_drops-IsAnswer}
use typenative.Mir.Monomorphize.Queue.Ends.{monomorphize_with_drops_ends}
use typenative.Mir.Monomorphize.Queue.Concretes.{monomorphize_with_drops-IsConcrete}
use typenative.Mir.Monomorphize.Samples.{
  identity, caller, main_instance, identity_instance, by_declaration,
}

-- `T` stands for i32.
abbrev int_for_t : Substitutions
int_for_t = ("T", int) ∷ []

abbrev specialized : List (MonomorphizedBody 0)
specialized =
    record { instance_of = main_instance; body = caller.body }
    ∷ record { instance_of = identity_instance; body = substitute_body int_for_t 0 identity.body }
    ∷ []

monomorphize-caller :
    monomorphize_with_drops by_declaration 3 (identity ∷ caller ∷ []) (main_instance ∷ []) []
    ≡ some (ok specialized)
unfolding monomorphize_with_drops substitute_body
monomorphize-caller = refl

monomorphize-missing :
    monomorphize by_declaration 3 (identity ∷ []) (main_instance ∷ [])
    ≡ some (err (missing_body main_instance.callable))
unfolding monomorphize
monomorphize-missing = refl

abbrev supplier : Ty
supplier = function (function_type nil int [] unconstrained false false)

-- `(T[3], () => int)` and `(int[4], () => int)`
abbrev array_target : Ty
array_target = tuple (cons (array (generic "T") 3) (cons supplier nil))

abbrev int_array : Ty
int_array = tuple (cons (array int 4) (cons supplier nil))

matches_target-shape_example :
    shape (substitute_type (matches_target array_target int_array []).1 array_target)
    ≡ shape int_array
unfolding matches_target contains_generic ty_eq
matches_target-shape_example = matches_target-shape array_target int_array [] refl refl

given : All (Given int_for_t) (names (optional (generic "T")))
unfolding names get
given = ((int, refl), tt)

infer_type-substitute_type_example :
    All
      (Agree
        (infer_type
          (optional (generic "T"))
          (substitute_type int_for_t (optional (generic "T")))
          [])
        int_for_t)
      (names (optional (generic "T")))
infer_type-substitute_type_example =
    infer_type-substitute_type int_for_t (optional (generic "T")) given

substitute_body-lower_typed_errors_example :
    substitute_body int_for_t 0 (lower_typed_errors 0 copying)
    ≡ lower_typed_errors 0 (substitute_body int_for_t 0 copying)
substitute_body-lower_typed_errors_example = substitute_body-lower_typed_errors int_for_t 0 copying

by_declaration_asym : (a b : Instance) → by_declaration a b ≡ true → by_declaration b a ≡ false
by_declaration_asym a b h = ground arith

abbrev registry : Registry 0
registry = registry_from (identity ∷ caller ∷ []) []

abbrev found_in : Instance → Result (Body 0 × List Instance)
found_in = specialize_instance by_declaration registry []

specialize-main : found_in main_instance ≡ ok (caller.body, identity_instance ∷ [])
unfolding specialize_instance registry_from
specialize-main = refl

specialize-identity :
    found_in identity_instance ≡ ok (substitute_body int_for_t 0 identity.body, [])
unfolding specialize_instance registry_from substitute_body
specialize-identity = refl

same :
    (b c : Body 0) (s t : List Instance)
    → ◌≡◌ {A = Result (Body 0 × List Instance)} (ok (b, s)) (ok (c, t))
    → s ≡ t
same b c s t q = cc q

-- What a known instance discovers.
found_by :
    (y z : Instance) (b c : Body 0) (s t : List Instance)
    → found_in y ≡ ok (b, s)
    → y ≡ z
    → found_in z ≡ ok (c, t)
    → s ≡ t
found_by y z b c s t e p q = same b c s t (sym e ∙ ap found_in p ∙ q)

finite :
    (x : Instance)
    → Needed by_declaration registry [] (main_instance ∷ []) x
    → In x (main_instance ∷ identity_instance ∷ [])
finite x (root (inl e)) = inl e
finite x (root (inr m)) = absurd m
finite x (inside {y = y} {body} {found} needed e m) = elim (finite y needed) [
  | inl main ↦ inr (
      subst (In x) {y = identity_instance ∷ []}
        (found_by y main_instance body caller.body found (identity_instance ∷ []) e main
          specialize-main)
        m)
  | inr (inl other) ↦ absurd (
      subst (In x) {y = []}
        (found_by y identity_instance body (substitute_body int_for_t 0 identity.body) found [] e
          other specialize-identity)
        m)
  | inr (inr z) ↦ absurd z
]

monomorphize_with_drops-IsAnswer_example :
    IsAnswer by_declaration
      (registry_from (identity ∷ caller ∷ []) [])
      []
      (main_instance ∷ [])
      (ok specialized)
monomorphize_with_drops-IsAnswer_example =
    monomorphize_with_drops-IsAnswer by_declaration by_declaration_asym 3 (identity ∷ caller ∷ [])
      (main_instance ∷ []) [] (ok specialized) monomorphize-caller

monomorphize_with_drops_ends_example :
    (r : Result (List (MonomorphizedBody 0))) × (monomorphize_with_drops by_declaration 3
        (identity ∷ caller ∷ [])
        (main_instance ∷ [])
        []
      ≡ some r)
monomorphize_with_drops_ends_example =
    monomorphize_with_drops_ends by_declaration (identity ∷ caller ∷ []) (main_instance ∷ []) []
      (main_instance ∷ identity_instance ∷ []) finite 3 (omega arith)

main-IsConcrete : All IsConcrete (main_instance ∷ [])
unfolding any_contains_generic
main-IsConcrete = (refl, tt)

monomorphize_with_drops-IsConcrete_example : IsConcrete identity_instance
monomorphize_with_drops-IsConcrete_example =
    monomorphize_with_drops-IsConcrete by_declaration by_declaration_asym 3 (identity ∷ caller ∷ [])
      (main_instance ∷ []) [] specialized main-IsConcrete monomorphize-caller identity_instance
      (inr (inl refl))
