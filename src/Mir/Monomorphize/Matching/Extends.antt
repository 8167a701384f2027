-- ===== src/Mir/Monomorphize/Matching/Extends.antt =====
-- What is inferred for a name stays as it is.
use text.Mathlib.TextEquality.{eq_iff}
use typenative.Prelude.{
  Bool, true, false, ◌&&◌, ◌∷◌, Option, none, some, String, str_eq, ◌≡◌, refl, ap, inl, inr, ◌==◌,
  Bool-cases, if◌then◌else◌,
}
use typenative.Hir.Types.{
  Ty, promise, nominal, optional, union, array, slice, tuple, reference, raw_pointer, function,
  template, dynamic_interface, generic, Tys, nil, cons, FunctionType, function_type,
}
use typenative.Mir.Monomorphize.Types.{Substitutions, get}
use typenative.Mir.Monomorphize.Matching.{
  tys_length, and_then, matches_generic, matches_target, matches_all, or_insert, infer_type,
  infer_function, infer_all,
}

-- Each name of the first map has the same type in the second one.
abbrev pub Extends : Substitutions → Substitutions → Type 0
Extends s s' = (name : String) (t : Ty) → get s name ≡ some t → get s' name ≡ some t

pub Extends-refl : (s : Substitutions) → Extends s s
Extends-refl s name t e = e

pub Extends-trans : (r s t : Substitutions) → Extends r s → Extends s t → Extends r t
Extends-trans r s t h k name u e = k name u (h name u e)

pub get-cons_self : (name : String) (c : Ty) (s : Substitutions) → get ((name, c) ∷ s) name ≡ some c
unfolding get
get-cons_self name c s = rw ((eq_iff name name).1 refl) refl

cons-Extends :
    (name : String) (c : Ty) (s : Substitutions) → get s name ≡ none → Extends s ((name, c) ∷ s)
unfolding get
cons-Extends name c s absent key t e = elim (Bool-cases (str_eq name key)) [
  | inl same ↦ let q = (eq_iff name key).0 same in cc (absent, e, ap (get s) q)
  | inr differ ↦ rw differ e
]

matches_generic-Extends :
    (o : Option Ty) (name : String) (c : Ty) (s : Substitutions)
    → get s name ≡ o
    → Extends s (matches_generic o name c s).1
unfolding matches_generic
matches_generic-Extends none name c s e = cons-Extends name c s e
matches_generic-Extends (some p) name c s e = Extends-refl s

and_then-Extends :
    (r : Substitutions) (p : Bool × Substitutions) (k : Substitutions → Bool × Substitutions)
    → Extends r (p.1)
    → ((s : Substitutions) → Extends s (k s).1)
    → Extends r (and_then p k).1
and_then-Extends r (true, s) k h step = Extends-trans r s (k s).1 h (step s)
and_then-Extends r (false, s) k h step = h

when-Extends :
    (b : Bool) (s : Substitutions) (p : Bool × Substitutions)
    → Extends s (p.1)
    → Extends s (if b then p else (false, s)).1
when-Extends true s p h = h
when-Extends false s p h = Extends-refl s

mutual
  unfolding matches_target

  pub matches_target-Extends : (t c : Ty) (s : Substitutions) → Extends s (matches_target t c s).1
  matches_target-Extends (generic name) c s = matches_generic-Extends (get s name) name c s refl
  matches_target-Extends (nominal i ts) (nominal j cs) s =
      when-Extends (i == j && tys_length ts == tys_length cs) s (matches_all ts cs s)
        (matches_all-Extends ts cs s)
  matches_target-Extends (nominal i ts) c s = Extends-refl s
  matches_target-Extends (optional t) (optional c) s = matches_target-Extends t c s
  matches_target-Extends (optional t) c s = Extends-refl s
  matches_target-Extends (array t n) (array c m) s = matches_target-Extends t c s
  matches_target-Extends (array t n) c s = Extends-refl s
  matches_target-Extends (slice t) (slice c) s = matches_target-Extends t c s
  matches_target-Extends (slice t) c s = Extends-refl s
  matches_target-Extends (reference m l t) (reference m' l' c) s = matches_target-Extends t c s
  matches_target-Extends (reference m l t) c s = Extends-refl s
  matches_target-Extends (raw_pointer m t) (raw_pointer m' c) s = matches_target-Extends t c s
  matches_target-Extends (raw_pointer m t) c s = Extends-refl s
  matches_target-Extends (promise r e effects) (promise r' e' effects') s =
      and_then-Extends s (matches_target r r' s) (λ s'. matches_target e e' s')
        (matches_target-Extends r r' s) (λ s'. matches_target-Extends e e' s')
  matches_target-Extends (promise r e effects) c s = Extends-refl s
  matches_target-Extends (tuple ts) (tuple cs) s =
      when-Extends (tys_length ts == tys_length cs) s (matches_all ts cs s)
        (matches_all-Extends ts cs s)
  matches_target-Extends (tuple ts) c s = Extends-refl s
  matches_target-Extends (template ts) (template cs) s =
      when-Extends (tys_length ts == tys_length cs) s (matches_all ts cs s)
        (matches_all-Extends ts cs s)
  matches_target-Extends (template ts) c s = Extends-refl s
  matches_target-Extends (union ts) (union cs) s =
      when-Extends (tys_length ts == tys_length cs) s (matches_all ts cs s)
        (matches_all-Extends ts cs s)
  matches_target-Extends (union ts) c s = Extends-refl s
  matches_target-Extends t c s = Extends-refl s

  pub matches_all-Extends : (ts cs : Tys) (s : Substitutions) → Extends s (matches_all ts cs s).1
  matches_all-Extends nil cs s = Extends-refl s
  matches_all-Extends (cons t ts) nil s = Extends-refl s
  matches_all-Extends (cons t ts) (cons c cs) s =
      and_then-Extends s (matches_target t c s) (λ s'. matches_all ts cs s')
        (matches_target-Extends t c s) (λ s'. matches_all-Extends ts cs s')

or_insert-Extends :
    (o : Option Ty) (name : String) (c : Ty) (s : Substitutions)
    → get s name ≡ o
    → Extends s (or_insert o name c s)
unfolding or_insert
or_insert-Extends none name c s e = cons-Extends name c s e
or_insert-Extends (some p) name c s e = Extends-refl s

mutual
  unfolding infer_type

  pub infer_type-Extends : (t c : Ty) (s : Substitutions) → Extends s (infer_type t c s)
  infer_type-Extends (generic name) c s = or_insert-Extends (get s name) name c s refl
  infer_type-Extends (optional t) (optional c) s = infer_type-Extends t c s
  infer_type-Extends (optional t) c s = Extends-refl s
  infer_type-Extends (slice t) (slice c) s = infer_type-Extends t c s
  infer_type-Extends (slice t) c s = Extends-refl s
  infer_type-Extends (array t n) (array c m) s = infer_type-Extends t c s
  infer_type-Extends (array t n) c s = Extends-refl s
  infer_type-Extends (union ts) (union cs) s = infer_all-Extends ts cs s
  infer_type-Extends (union ts) c s = Extends-refl s
  infer_type-Extends (tuple ts) (tuple cs) s = infer_all-Extends ts cs s
  infer_type-Extends (tuple ts) c s = Extends-refl s
  infer_type-Extends (template ts) (template cs) s = infer_all-Extends ts cs s
  infer_type-Extends (template ts) c s = Extends-refl s
  infer_type-Extends (nominal i ts) (nominal j cs) s = infer_all-Extends ts cs s
  infer_type-Extends (nominal i ts) c s = Extends-refl s
  infer_type-Extends (dynamic_interface i ts) (dynamic_interface j cs) s = infer_all-Extends ts cs s
  infer_type-Extends (dynamic_interface i ts) c s = Extends-refl s
  infer_type-Extends (reference m l t) (reference m' l' c) s = infer_type-Extends t c s
  infer_type-Extends (reference m l t) c s = Extends-refl s
  infer_type-Extends (raw_pointer m t) (raw_pointer m' c) s = infer_type-Extends t c s
  infer_type-Extends (raw_pointer m t) c s = Extends-refl s
  infer_type-Extends (promise r e effects) (promise r' e' effects') s =
      Extends-trans s (infer_type r r' s) (infer_type e e' (infer_type r r' s))
        (infer_type-Extends r r' s) (infer_type-Extends e e' (infer_type r r' s))
  infer_type-Extends (promise r e effects) c s = Extends-refl s
  infer_type-Extends (function f) (function g) s = infer_function-Extends f g s
  infer_type-Extends (function f) c s = Extends-refl s
  infer_type-Extends t c s = Extends-refl s

  infer_function-Extends :
      (f g : FunctionType) (s : Substitutions) → Extends s (infer_function f g s)
  infer_function-Extends (function_type ps r effects generics a u)
        (function_type ps' r' effects' generics' a' u') s =
      Extends-trans s (infer_all ps ps' s) (infer_type r r' (infer_all ps ps' s))
        (infer_all-Extends ps ps' s) (infer_type-Extends r r' (infer_all ps ps' s))

  pub infer_all-Extends : (ts cs : Tys) (s : Substitutions) → Extends s (infer_all ts cs s)
  infer_all-Extends nil cs s = Extends-refl s
  infer_all-Extends (cons t ts) nil s = Extends-refl s
  infer_all-Extends (cons t ts) (cons c cs) s =
      Extends-trans s (infer_type t c s) (infer_all ts cs (infer_type t c s))
        (infer_type-Extends t c s) (infer_all-Extends ts cs (infer_type t c s))
