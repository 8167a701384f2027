-- ===== src/Mir/Monomorphize/Types/Substitution.antt =====
-- Substitution and the generics that types contain.
use typenative.Prelude.{◌||◌, Bool, true, false, List, [], ◌∷◌, ◌++◌, All, some, String, ◌≡◌, refl}
use typenative.Hir.Types.{
  Ty, primitive, string, str, promise, nominal, optional, union, array, slice, tuple, reference,
  raw_pointer, function, template, dynamic_interface, generic, lifetime_of, error_union, error_type,
  unknown, Tys, nil, cons, FunctionType, function_type,
}
use typenative.Mir.Monomorphize.Types.{
  Substitutions, get, replacement, contains_generic, function_generic, any_generic, substitute_type,
  substitute_function, substitute_types,
}

-- the generic parameters that occur in a type, where `contains_generic` looks for them
unfoldable mutual
  pub names : Ty → List String
  names (generic name) = name ∷ []
  names (promise r e effects) = names r ++ names e
  names (nominal i ts) = all_names ts
  names (dynamic_interface i ts) = all_names ts
  names (optional t) = names t
  names (array t n) = names t
  names (slice t) = names t
  names (union ts) = all_names ts
  names (tuple ts) = all_names ts
  names (template ts) = all_names ts
  names (reference m l t) = names t
  names (raw_pointer m t) = names t
  names (function f) = function_names f
  names _ = []

  pub function_names : FunctionType → List String
  function_names (function_type ps r effects generics a u) = all_names ps ++ names r

  pub all_names : Tys → List String
  all_names nil = []
  all_names (cons t ts) = names t ++ all_names ts

pub or_false : (a b : Bool) → (a || b) ≡ false → (a ≡ false) × (b ≡ false)
or_false true b e = absurd (cc)
or_false false b e = (refl, e)

-- A name stands for a type without generics.
abbrev pub Bound : Substitutions → String → Type 0
Bound s name = (t : Ty) × (get s name ≡ some t) × (contains_generic t ≡ false)

pub All-append_split :
    (P : String → Type 0) (xs ys : List String) → All P (xs ++ ys) → All P xs × All P ys
All-append_split P [] ys h = (tt, h)
All-append_split P (x ∷ xs) ys (p, h) = let (a, b) = All-append_split P xs ys h in ((p, a), b)

module _ (s : Substitutions) where
  mutual
    unfolding contains_generic substitute_type names replacement

    closed : (t : Ty) → All (Bound s) (names t) → contains_generic (substitute_type s t) ≡ false
    closed (generic name) ((t, e, h), _) = rw e h
    closed (promise r e effects) h =
        let (a, b) = All-append_split (Bound s) (names r) (names e) h in
        rw (closed r a) (closed e b)
    closed (nominal i ts) h = closed_each ts h
    closed (dynamic_interface i ts) h = closed_each ts h
    closed (optional t) h = closed t h
    closed (array t n) h = closed t h
    closed (slice t) h = closed t h
    closed (union ts) h = closed_each ts h
    closed (tuple ts) h = closed_each ts h
    closed (template ts) h = closed_each ts h
    closed (reference m l t) h = closed t h
    closed (raw_pointer m t) h = closed t h
    closed (function f) h = closed_function f h
    closed (primitive p) h = refl
    closed string h = refl
    closed str h = refl
    closed (lifetime_of l) h = refl
    closed (error_union effects) h = refl
    closed error_type h = refl
    closed unknown h = refl

    closed_function :
        (f : FunctionType)
        → All (Bound s) (function_names f)
        → function_generic (substitute_function s f) ≡ false
    closed_function (function_type ps r effects generics a u) h =
        let (p, q) = All-append_split (Bound s) (all_names ps) (names r) h in
        rw (closed_each ps p) (closed r q)

    closed_each :
        (ts : Tys) → All (Bound s) (all_names ts) → any_generic (substitute_types s ts) ≡ false
    closed_each nil h = refl
    closed_each (cons t ts) h =
        let (p, q) = All-append_split (Bound s) (names t) (all_names ts) h in
        rw (closed t p) (closed_each ts q)

-- A substitution that gives each generic parameter of a type a type without generics makes that type
-- one without generics.
pub contains_generic-substitute_type :
    (s : Substitutions) (t : Ty)
    → All (Bound s) (names t)
    → contains_generic (substitute_type s t) ≡ false
contains_generic-substitute_type s t h = closed s t h
