-- ===== src/Mir/Monomorphize/Matching/Recovers.antt =====
-- `infer_type` recovers a substitution from a type and its instance.
use text.Mathlib.TextEquality.{eq_iff}
use typenative.Prelude.{
  List, [], ◌∷◌, ◌++◌, Option, none, some, String, str_eq, ◌≡◌, refl, sym, ap, ◌∙◌, inl, inr, All,
  Bool-cases,
}
use mathlib.Core.Path.{subst}
use typenative.Hir.Types.{
  Ty, primitive, string, str, promise, nominal, optional, union, array, slice, tuple, reference,
  raw_pointer, function, template, dynamic_interface, generic, lifetime_of, error_union, error_type,
  unknown, Tys, nil, cons, FunctionType, function_type,
}
use typenative.Mir.Monomorphize.Types.{
  Substitutions, get, replacement, substitute_type, substitute_function, substitute_types,
}
use typenative.Mir.Monomorphize.Types.Substitution.{
  names, function_names, all_names, All-append_split,
}
use typenative.Mir.Monomorphize.Matching.{or_insert, infer_type, infer_function, infer_all}
use typenative.Mir.Monomorphize.Matching.Extends.{
  Extends, get-cons_self, infer_type-Extends, infer_all-Extends,
}

All-append {ℓ} :
    (P : String → Type ℓ) (xs ys : List String) → All P xs → All P ys → All P (xs ++ ys)
All-append P [] ys h k = k
All-append P (x ∷ xs) ys (p, h) k = (p, All-append P xs ys h k)

-- The two maps have the same type for the name.
abbrev pub Agree : Substitutions → Substitutions → String → Type 0
Agree s z name = (t : Ty) × (get s name ≡ some t) × (get z name ≡ some t)

-- The name has a type.
abbrev pub Given : Substitutions → String → Type 0
Given z name = (t : Ty) × (get z name ≡ some t)

module _ (z : Substitutions) where
  Agree-Extends :
      (s s' : Substitutions)
      → Extends s s'
      → (ns : List String) → All (Agree s z) ns
      → All (Agree s' z) ns
  Agree-Extends s s' x [] h = tt
  Agree-Extends s s' x (n ∷ ns) ((t, e, f), h) = ((t, x n t e, f), Agree-Extends s s' x ns h)

  -- What is inferred agrees with `z`, and the names are inferred.
  abbrev Recovers : Substitutions → List String → Type 0
  Recovers s ns = Extends s z × All (Agree s z) ns

  cons-Extends_to :
      (name : String) (c : Ty) (s : Substitutions)
      → get z name ≡ some c
      → Extends s z
      → Extends ((name, c) ∷ s) z
  unfolding get
  cons-Extends_to name c s e x key t f = elim (Bool-cases (str_eq name key)) [
    | inl same ↦ let q = (eq_iff name key).0 same in sym (ap (get z) q) ∙ e ∙ rw same at f
    | inr differ ↦ x key t (rw differ at f)
  ]

  or_insert-Recovers :
      (o : Option Ty) (name : String) (c : Ty) (s : Substitutions)
      → get s name ≡ o
      → get z name ≡ some c
      → Extends s z
      → Recovers (or_insert o name c s) (name ∷ [])
  unfolding or_insert
  or_insert-Recovers none name c s e f x =
      (cons-Extends_to name c s f x, ((c, get-cons_self name c s, f), tt))
  or_insert-Recovers (some p) name c s e f x = (x, ((p, e, x name p e), tt))

  both :
      (ns ms : List String) (s s' : Substitutions)
      → Recovers s ns
      → Extends s s'
      → Recovers s' ms
      → Recovers s' (ns ++ ms)
  both ns ms s s' (x, h) y (x', h') =
      (x', All-append (Agree s' z) ns ms (Agree-Extends s s' y ns h) h')

  mutual
    unfolding substitute_type infer_type names replacement

    recovers :
        (t : Ty) (s : Substitutions)
        → All (Given z) (names t)
        → Extends s z
        → Recovers (infer_type t (substitute_type z t) s) (names t)
    recovers (generic name) s ((c, e), _) x =
        subst (λ o. Recovers (or_insert (get s name) name (replacement o name) s) (name ∷ []))
          (sym e) (or_insert-Recovers (get s name) name c s refl e x)
    recovers (promise r e effects) s h x =
        let (a, b) = All-append_split (Given z) (names r) (names e) h in
        let s' = infer_type r (substitute_type z r) s in
        let first = recovers r s a x in
        both (names r) (names e) s' (infer_type e (substitute_type z e) s') first
          (infer_type-Extends e (substitute_type z e) s') (recovers e s' b first.0)
    recovers (nominal i ts) s h x = Recovers-each ts s h x
    recovers (dynamic_interface i ts) s h x = Recovers-each ts s h x
    recovers (optional t) s h x = recovers t s h x
    recovers (array t n) s h x = recovers t s h x
    recovers (slice t) s h x = recovers t s h x
    recovers (union ts) s h x = Recovers-each ts s h x
    recovers (tuple ts) s h x = Recovers-each ts s h x
    recovers (template ts) s h x = Recovers-each ts s h x
    recovers (reference m l t) s h x = recovers t s h x
    recovers (raw_pointer m t) s h x = recovers t s h x
    recovers (function f) s h x = Recovers-function f s h x
    recovers (primitive p) s h x = (x, tt)
    recovers string s h x = (x, tt)
    recovers str s h x = (x, tt)
    recovers (lifetime_of l) s h x = (x, tt)
    recovers (error_union effects) s h x = (x, tt)
    recovers error_type s h x = (x, tt)
    recovers unknown s h x = (x, tt)

    Recovers-function :
        (f : FunctionType) (s : Substitutions)
        → All (Given z) (function_names f)
        → Extends s z
        → Recovers (infer_function f (substitute_function z f) s) (function_names f)
    Recovers-function (function_type ps r effects generics a u) s h x =
        let (p, q) = All-append_split (Given z) (all_names ps) (names r) h in
        let s' = infer_all ps (substitute_types z ps) s in
        let first = Recovers-each ps s p x in
        both (all_names ps) (names r) s' (infer_type r (substitute_type z r) s') first
          (infer_type-Extends r (substitute_type z r) s') (recovers r s' q first.0)

    Recovers-each :
        (ts : Tys) (s : Substitutions)
        → All (Given z) (all_names ts)
        → Extends s z
        → Recovers (infer_all ts (substitute_types z ts) s) (all_names ts)
    Recovers-each nil s h x = (x, tt)
    Recovers-each (cons t ts) s h x =
        let (p, q) = All-append_split (Given z) (names t) (all_names ts) h in
        let s' = infer_type t (substitute_type z t) s in
        let first = recovers t s p x in
        both (names t) (all_names ts) s' (infer_all ts (substitute_types z ts) s') first
          (infer_all-Extends ts (substitute_types z ts) s') (Recovers-each ts s' q first.0)

-- From a type and its instance under a substitution that gives each of its generic parameters a
-- type, inference recovers what the substitution gives them.
pub infer_type-substitute_type :
    (z : Substitutions) (t : Ty)
    → All (Given z) (names t)
    → All (Agree (infer_type t (substitute_type z t) []) z) (names t)
unfolding get
infer_type-substitute_type z t h = (recovers z t [] h (λ name u e. absurd (cc))).1
