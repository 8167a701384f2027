-- ===== src/Mir/Monomorphize/Matching/Shapes.antt =====
-- What a match of `matches_target` compares of a type, and that substitution keeps it.
use typenative.Prelude.{false, [], ◌≡◌, refl, ap}
use typenative.Hir.Types.{
  Ty, primitive, string, str, promise, nominal, optional, union, array, slice, tuple, reference,
  raw_pointer, function, template, dynamic_interface, generic, lifetime_of, error_union, error_type,
  unknown, Tys, nil, cons, FunctionType, function_type, unconstrained,
}
use typenative.Mir.Monomorphize.Types.{
  Substitutions, contains_generic, function_generic, any_generic, substitute_type,
  substitute_function, substitute_types,
}
use typenative.Mir.Monomorphize.Types.Substitution.{or_false}

-- A type less the constraints of the generic parameters of its function types, which substitution drops.
unfoldable mutual
  pub relaxed : Ty → Ty
  relaxed (array t n) = array (relaxed t) n
  relaxed (reference m l t) = reference m l (relaxed t)
  relaxed (raw_pointer m t) = raw_pointer m (relaxed t)
  relaxed (promise r e effects) = promise (relaxed r) (relaxed e) effects
  relaxed (function f) = function (relaxed_function f)
  relaxed (nominal i ts) = nominal i (relaxed_types ts)
  relaxed (dynamic_interface i ts) = dynamic_interface i (relaxed_types ts)
  relaxed (optional t) = optional (relaxed t)
  relaxed (slice t) = slice (relaxed t)
  relaxed (union ts) = union (relaxed_types ts)
  relaxed (tuple ts) = tuple (relaxed_types ts)
  relaxed (template ts) = template (relaxed_types ts)
  relaxed t = t

  pub relaxed_function : FunctionType → FunctionType
  relaxed_function (function_type ps r effects generics a u) =
      function_type (relaxed_types ps) (relaxed r) effects unconstrained a u

  pub relaxed_types : Tys → Tys
  relaxed_types nil = nil
  relaxed_types (cons t ts) = cons (relaxed t) (relaxed_types ts)

module _ (s : Substitutions) where
  mutual
    unfolding contains_generic substitute_type relaxed

    -- Substitution changes a type without generics only in what it drops.
    relaxed-concrete :
        (t : Ty) → contains_generic t ≡ false → relaxed (substitute_type s t) ≡ relaxed t
    relaxed-concrete (generic name) h = absurd (cc)
    relaxed-concrete (promise r e effects) h =
        let (a, b) = or_false (contains_generic r) (contains_generic e) h in
        rw (relaxed-concrete r a, relaxed-concrete e b) refl
    relaxed-concrete (nominal i ts) h = ap (nominal i) (relaxed_types-concrete ts h)
    relaxed-concrete (dynamic_interface i ts) h =
        ap (dynamic_interface i) (relaxed_types-concrete ts h)
    relaxed-concrete (optional t) h = ap optional (relaxed-concrete t h)
    relaxed-concrete (array t n) h = ap (λ z. array z n) (relaxed-concrete t h)
    relaxed-concrete (slice t) h = ap slice (relaxed-concrete t h)
    relaxed-concrete (union ts) h = ap union (relaxed_types-concrete ts h)
    relaxed-concrete (tuple ts) h = ap tuple (relaxed_types-concrete ts h)
    relaxed-concrete (template ts) h = ap template (relaxed_types-concrete ts h)
    relaxed-concrete (reference m l t) h = ap (reference m l) (relaxed-concrete t h)
    relaxed-concrete (raw_pointer m t) h = ap (raw_pointer m) (relaxed-concrete t h)
    relaxed-concrete (function f) h = ap function (relaxed_function-concrete f h)
    relaxed-concrete (primitive p) h = refl
    relaxed-concrete string h = refl
    relaxed-concrete str h = refl
    relaxed-concrete (lifetime_of l) h = refl
    relaxed-concrete (error_union effects) h = refl
    relaxed-concrete error_type h = refl
    relaxed-concrete unknown h = refl

    relaxed_function-concrete :
        (f : FunctionType)
        → function_generic f ≡ false
        → relaxed_function (substitute_function s f) ≡ relaxed_function f
    relaxed_function-concrete (function_type ps r effects generics a u) h =
        let (p, q) = or_false (any_generic ps) (contains_generic r) h in
        rw (relaxed_types-concrete ps p, relaxed-concrete r q) refl

    relaxed_types-concrete :
        (ts : Tys)
        → any_generic ts ≡ false
        → relaxed_types (substitute_types s ts) ≡ relaxed_types ts
    relaxed_types-concrete nil h = refl
    relaxed_types-concrete (cons t ts) h =
        let (p, q) = or_false (contains_generic t) (any_generic ts) h in
        rw (relaxed-concrete t p, relaxed_types-concrete ts q) refl

-- What a match compares of a type: not the length of an array, the mutability and the lifetime of a
-- reference, the mutability of a raw pointer, nor the effects of a promise. A function type and a
-- dynamic interface are compared whole, and kept but for what substitution drops.
unfoldable mutual
  unfolding relaxed

  pub shape : Ty → Ty
  shape (array t n) = array (shape t) 0
  shape (reference m l t) = reference false "" (shape t)
  shape (raw_pointer m t) = raw_pointer false (shape t)
  shape (promise r e effects) = promise (shape r) (shape e) []
  shape (function f) = relaxed (function f)
  shape (nominal i ts) = nominal i (shapes ts)
  shape (dynamic_interface i ts) = relaxed (dynamic_interface i ts)
  shape (optional t) = optional (shape t)
  shape (slice t) = slice (shape t)
  shape (union ts) = union (shapes ts)
  shape (tuple ts) = tuple (shapes ts)
  shape (template ts) = template (shapes ts)
  shape t = t

  pub shapes : Tys → Tys
  shapes nil = nil
  shapes (cons t ts) = cons (shape t) (shapes ts)

module _ (s : Substitutions) where
  mutual
    unfolding contains_generic substitute_type shape

    -- Substitution keeps the shape of a type without generics.
    pub shape-concrete :
        (t : Ty) → contains_generic t ≡ false → shape (substitute_type s t) ≡ shape t
    shape-concrete (generic name) h = absurd (cc)
    shape-concrete (promise r e effects) h =
        let (a, b) = or_false (contains_generic r) (contains_generic e) h in
        rw (shape-concrete r a, shape-concrete e b) refl
    shape-concrete (nominal i ts) h = ap (nominal i) (shapes-concrete ts h)
    shape-concrete (dynamic_interface i ts) h = relaxed-concrete s (dynamic_interface i ts) h
    shape-concrete (optional t) h = ap optional (shape-concrete t h)
    shape-concrete (array t n) h = ap (λ z. array z 0) (shape-concrete t h)
    shape-concrete (slice t) h = ap slice (shape-concrete t h)
    shape-concrete (union ts) h = ap union (shapes-concrete ts h)
    shape-concrete (tuple ts) h = ap tuple (shapes-concrete ts h)
    shape-concrete (template ts) h = ap template (shapes-concrete ts h)
    shape-concrete (reference m l t) h = ap (reference false "") (shape-concrete t h)
    shape-concrete (raw_pointer m t) h = ap (raw_pointer false) (shape-concrete t h)
    shape-concrete (function f) h = relaxed-concrete s (function f) h
    shape-concrete (primitive p) h = refl
    shape-concrete string h = refl
    shape-concrete str h = refl
    shape-concrete (lifetime_of l) h = refl
    shape-concrete (error_union effects) h = refl
    shape-concrete error_type h = refl
    shape-concrete unknown h = refl

    shapes-concrete :
        (ts : Tys) → any_generic ts ≡ false → shapes (substitute_types s ts) ≡ shapes ts
    shapes-concrete nil h = refl
    shapes-concrete (cons t ts) h =
        let (p, q) = or_false (contains_generic t) (any_generic ts) h in
        rw (shape-concrete t p, shapes-concrete ts q) refl
