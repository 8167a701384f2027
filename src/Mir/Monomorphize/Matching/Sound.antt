-- ===== src/Mir/Monomorphize/Matching/Sound.antt =====
-- What a match of `matches_target` says: the inferred types turn the template into the concrete type.
use typenative.Prelude.{
  Bool, true, false, ◌&&◌, Option, none, some, String, ◌≡◌, refl, sym, ap, arith, ◌==◌, ==_iff,
  if◌then◌else◌,
}
use mathlib.Core.Path.{subst}
use typenative.Hir.Types.{
  Ty, primitive, string, str, promise, nominal, optional, union, array, slice, tuple, reference,
  raw_pointer, function, template, dynamic_interface, generic, lifetime_of, error_union, error_type,
  unknown, Tys, nil, cons, ty_eq, ty_eq_iff,
}
use typenative.Mir.Monomorphize.Types.{
  Substitutions, get, replacement, contains_generic, any_generic, substitute_type, substitute_types,
}
use typenative.Mir.Monomorphize.Types.Substitution.{or_false}
use typenative.Mir.Monomorphize.Matching.{
  tys_length, and_then, matches_generic, matches_target, matches_all,
}
use typenative.Mir.Monomorphize.Matching.Shapes.{shape, shapes, shape-concrete}
use typenative.Mir.Monomorphize.Matching.Extends.{
  Extends, Extends-trans, matches_target-Extends, matches_all-Extends, get-cons_self,
}

equal_shape :
    (s : Substitutions) (t c : Ty)
    → contains_generic c ≡ false
    → ty_eq t c ≡ true
    → shape (substitute_type s t) ≡ shape c
equal_shape s t c h e =
    let q = (ty_eq_iff t c).0 e in
    subst (λ z. shape (substitute_type s z) ≡ shape c) (sym q) (shape-concrete s c h)

matches_generic-shape :
    (o : Option Ty) (name : String) (c : Ty) (s z : Substitutions)
    → get s name ≡ o
    → (matches_generic o name c s).0 ≡ true
    → Extends (matches_generic o name c s).1 z
    → replacement (get z name) name ≡ c
unfolding matches_generic replacement
matches_generic-shape none name c s z e h x = rw (x name c (get-cons_self name c s)) refl
matches_generic-shape (some p) name c s z e h x = rw (x name p e) ((ty_eq_iff p c).0 h)

and_then-split :
    (p : Bool × Substitutions) (k : Substitutions → Bool × Substitutions)
    → (and_then p k).0 ≡ true
    → (p.0 ≡ true) × ((k (p.1)).0 ≡ true) × ((and_then p k).1 ≡ (k (p.1)).1)
and_then-split (true, s) k h = (refl, h, refl)
and_then-split (false, s) k h = absurd (cc)

when-split :
    (b : Bool) (s : Substitutions) (p : Bool × Substitutions)
    → (if b then p else (false, s)).0 ≡ true
    → (b ≡ true) × (p.0 ≡ true) × ((if b then p else (false, s)).1 ≡ p.1)
when-split true s p h = (refl, h, refl)
when-split false s p h = absurd (cc)

and-split : (a b : Bool) → (a && b) ≡ true → (a ≡ true) × (b ≡ true)
and-split true b h = (refl, h)
and-split false b h = absurd (cc)

module _ (z : Substitutions) where
  -- A match holds with every later map.
  abbrev Fits : Ty → Ty → Substitutions → Type 0
  Fits t c s =
      contains_generic c ≡ false
      → (matches_target t c s).0 ≡ true
      → Extends (matches_target t c s).1 z
      → shape (substitute_type z t) ≡ shape c

  abbrev FitsAll : Tys → Tys → Substitutions → Type 0
  FitsAll ts cs s =
      tys_length ts ≡ tys_length cs
      → any_generic cs ≡ false
      → (matches_all ts cs s).0 ≡ true
      → Extends (matches_all ts cs s).1 z
      → shapes (substitute_types z ts) ≡ shapes cs

  -- the arms of two lists whose lengths are compared first
  listed :
      (ts cs : Tys) (s : Substitutions) (b : Bool)
      → FitsAll ts cs s
      → (b ≡ true → tys_length ts ≡ tys_length cs)
      → any_generic cs ≡ false
      → (if b then matches_all ts cs s else (false, s)).0 ≡ true
      → Extends (if b then matches_all ts cs s else (false, s)).1 z
      → shapes (substitute_types z ts) ≡ shapes cs
  listed ts cs s b fits len h m x =
      let (p, q, r) = when-split b s (matches_all ts cs s) m in
      fits (len p) h q (subst (λ y. Extends y z) r x)

  mutual
    unfolding matches_target contains_generic substitute_type shape ty_eq

    fits : (t c : Ty) (s : Substitutions) → Fits t c s
    fits (generic name) c s h m x =
        ap shape (matches_generic-shape (get s name) name c s z refl m x)
    fits (nominal i ts) (nominal j cs) s h m x =
        let (p, _, _) =
          when-split (i == j && tys_length ts == tys_length cs) s (matches_all ts cs s) m in
        let (same, _) = and-split (i == j) (tys_length ts == tys_length cs) p in
        let tails =
          listed ts cs s (i == j && tys_length ts == tys_length cs) (fits_all ts cs s)
            (λ q.
              (==_iff (tys_length ts) (tys_length cs)).0
                (and-split (i == j) (tys_length ts == tys_length cs) q).1)
            h m x in
        rw ((==_iff i j).0 same, tails) refl
    fits (nominal i ts) c s h m x = absurd (cc)
    fits (optional t) (optional c) s h m x = ap optional (fits t c s h m x)
    fits (optional t) c s h m x = absurd (cc)
    fits (array t n) (array c k) s h m x = ap (λ y. array y 0) (fits t c s h m x)
    fits (array t n) c s h m x = absurd (cc)
    fits (slice t) (slice c) s h m x = ap slice (fits t c s h m x)
    fits (slice t) c s h m x = absurd (cc)
    fits (reference b l t) (reference b' l' c) s h m x = ap (reference false "") (fits t c s h m x)
    fits (reference b l t) c s h m x = absurd (cc)
    fits (raw_pointer b t) (raw_pointer b' c) s h m x = ap (raw_pointer false) (fits t c s h m x)
    fits (raw_pointer b t) c s h m x = absurd (cc)
    fits (promise r e effects) (promise r' e' effects') s h m x =
        let (a, b) = or_false (contains_generic r') (contains_generic e') h in
        let (p, q, w) = and_then-split (matches_target r r' s) (λ s'. matches_target e e' s') m in
        let s' = (matches_target r r' s).1 in
        let x' = subst (λ y. Extends y z) w x in
        rw
          (
            fits r r' s a p
                (Extends-trans s' (matches_target e e' s').1 z (matches_target-Extends e e' s') x'),
            fits e e' s' b q x',
          )
          refl
    fits (promise r e effects) c s h m x = absurd (cc)
    fits (tuple ts) (tuple cs) s h m x = ap tuple (
        listed ts cs s (tys_length ts == tys_length cs) (fits_all ts cs s)
          (==_iff (tys_length ts) (tys_length cs)).0 h m x)
    fits (tuple ts) c s h m x = absurd (cc)
    fits (template ts) (template cs) s h m x = ap template (
        listed ts cs s (tys_length ts == tys_length cs) (fits_all ts cs s)
          (==_iff (tys_length ts) (tys_length cs)).0 h m x)
    fits (template ts) c s h m x = absurd (cc)
    fits (union ts) (union cs) s h m x = ap union (
        listed ts cs s (tys_length ts == tys_length cs) (fits_all ts cs s)
          (==_iff (tys_length ts) (tys_length cs)).0 h m x)
    fits (union ts) c s h m x = absurd (cc)
    fits (function f) c s h m x = equal_shape z (function f) c h m
    fits (dynamic_interface i ts) c s h m x = equal_shape z (dynamic_interface i ts) c h m
    fits (primitive p) c s h m x = equal_shape z (primitive p) c h m
    fits string c s h m x = equal_shape z string c h m
    fits str c s h m x = equal_shape z str c h m
    fits (lifetime_of l) c s h m x = equal_shape z (lifetime_of l) c h m
    fits (error_union effects) c s h m x = equal_shape z (error_union effects) c h m
    fits error_type c s h m x = equal_shape z error_type c h m
    fits unknown c s h m x = equal_shape z unknown c h m

    fits_all : (ts cs : Tys) (s : Substitutions) → FitsAll ts cs s
    fits_all nil nil s len h m x = refl
    fits_all nil (cons c cs) s len h m x = absurd (omega arith)
    fits_all (cons t ts) nil s len h m x = absurd (omega arith)
    fits_all (cons t ts) (cons c cs) s len h m x =
        let (a, b) = or_false (contains_generic c) (any_generic cs) h in
        let (p, q, w) = and_then-split (matches_target t c s) (λ s'. matches_all ts cs s') m in
        let s' = (matches_target t c s).1 in
        let x' = subst (λ y. Extends y z) w x in
        rw
          (
            fits t c s a p
                (Extends-trans s' (matches_all ts cs s').1 z (matches_all-Extends ts cs s') x'),
            fits_all ts cs s' (omega arith) b q x',
          )
          refl

-- Where a target matches a type without generics, the inferred types turn the target into that type,
-- but for what the match does not compare: the lengths of arrays, the mutability and lifetimes of
-- references and raw pointers, the effects of promises, and the constraints that substitution drops
-- from the generic parameters of function types.
pub matches_target-shape :
    (t c : Ty) (s : Substitutions)
    → contains_generic c ≡ false
    → (matches_target t c s).0 ≡ true
    → shape (substitute_type (matches_target t c s).1 t) ≡ shape c
matches_target-shape t c s h m = fits (matches_target t c s).1 t c s h m (λ name u e. e)
