-- ===== src/Mir/Monomorphize/Types.antt =====
-- `contains_generic`, `substitute_function` and `substitute_type` of
-- crates/tn-mir/src/monomorphize.rs. A map from names to types is an association list.
pub mod Substitution
use typenative.Prelude.{
  Bool, true, false, ◌||◌, List, [], ◌∷◌, Option, none, some, String, str_eq, if◌then◌else◌,
}
use typenative.Hir.Types.{
  Ty, primitive, string, str, promise, nominal, optional, union, array, slice, tuple, reference,
  raw_pointer, function, template, dynamic_interface, generic, lifetime_of, error_union, error_type,
  unknown, Tys, nil, cons, FunctionType, function_type, unconstrained,
}

abbrev pub Substitutions : Type 0
Substitutions = List (String × Ty)

-- `substitutions.get(name)`
unfoldable pub get : Substitutions → String → Option Ty
get [] name = none
get ((key, t) ∷ rest) name = if str_eq key name then some t else get rest name

-- what a generic of this name becomes
unfoldable pub replacement : Option Ty → String → Ty
replacement none name = generic name
replacement (some t) name = t

unfoldable mutual
  pub contains_generic : Ty → Bool
  contains_generic (generic name) = true
  contains_generic (nominal i ts) = any_generic ts
  contains_generic (dynamic_interface i ts) = any_generic ts
  contains_generic (optional t) = contains_generic t
  contains_generic (array t n) = contains_generic t
  contains_generic (slice t) = contains_generic t
  contains_generic (union ts) = any_generic ts
  contains_generic (promise r e effects) = contains_generic r || contains_generic e
  contains_generic (reference m l t) = contains_generic t
  contains_generic (raw_pointer m t) = contains_generic t
  contains_generic (tuple ts) = any_generic ts
  contains_generic (template ts) = any_generic ts
  contains_generic (function f) = function_generic f
  contains_generic _ = false

  pub function_generic : FunctionType → Bool
  function_generic (function_type ps r effects generics a u) = any_generic ps || contains_generic r

  -- `arguments.iter().any(contains_generic)`
  pub any_generic : Tys → Bool
  any_generic nil = false
  any_generic (cons t ts) = contains_generic t || any_generic ts

unfoldable mutual
  unfolding get replacement

  pub substitute_type : Substitutions → Ty → Ty
  substitute_type s (generic name) = replacement (get s name) name
  substitute_type s (promise r e effects) =
      promise (substitute_type s r) (substitute_type s e) effects
  substitute_type s (nominal i ts) = nominal i (substitute_types s ts)
  substitute_type s (dynamic_interface i ts) = dynamic_interface i (substitute_types s ts)
  substitute_type s (optional t) = optional (substitute_type s t)
  substitute_type s (array t n) = array (substitute_type s t) n
  substitute_type s (slice t) = slice (substitute_type s t)
  substitute_type s (union ts) = union (substitute_types s ts)
  substitute_type s (tuple ts) = tuple (substitute_types s ts)
  substitute_type s (template ts) = template (substitute_types s ts)
  substitute_type s (reference m l t) = reference m l (substitute_type s t)
  substitute_type s (raw_pointer m t) = raw_pointer m (substitute_type s t)
  substitute_type s (function f) = function (substitute_function s f)
  substitute_type s (primitive p) = primitive p
  substitute_type s string = string
  substitute_type s str = str
  substitute_type s (lifetime_of l) = lifetime_of l
  substitute_type s (error_union effects) = error_union effects
  substitute_type s error_type = error_type
  substitute_type s unknown = unknown

  pub substitute_function : Substitutions → FunctionType → FunctionType
  substitute_function s (function_type ps r effects generics a u) =
      function_type (substitute_types s ps) (substitute_type s r) effects unconstrained a u

  pub substitute_types : Substitutions → Tys → Tys
  substitute_types s nil = nil
  substitute_types s (cons t ts) = cons (substitute_type s t) (substitute_types s ts)
