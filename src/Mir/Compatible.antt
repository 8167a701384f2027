-- ===== src/Mir/Compatible.antt =====
-- `types_compatible` of crates/tn-mir/src/validate.rs. The source recurs on one type or on both;
-- here the calls are bounded by fuel, and the sizes of the two types are enough of it.
pub mod Fuel
use typenative.Prelude.{
  ℕ, zero, suc, ◌+◌, Bool, true, false, ◌&&◌, ◌||◌, List, [], ◌∷◌, String, if◌then◌else◌, str_eq,
}
use typenative.Hir.Types.{
  Ty, string, str, promise, optional, union, reference, Tys, nil, cons, ty_eq,
}

mutual
  -- the number of constructors that `types_compatible` can descend through
  pub size : Ty → ℕ
  size (promise r e d) = suc (size r)
  size (optional t) = suc (size t)
  size (union ts) = suc (sizes ts)
  size (reference m l t) = suc (size t)
  size other = 1

  pub sizes : Tys → ℕ
  sizes nil = 0
  sizes (cons t ts) = size t + sizes ts

abbrev bool_eq : Bool → Bool → Bool
bool_eq true b = b
bool_eq false true = false
bool_eq false false = true

abbrev is_text : Ty → Bool
is_text string = true
is_text str = true
is_text _ = false

module _ (rec : Ty → Ty → Bool) where
  -- `expected.iter().any(|expected| types_compatible(actual, expected))`
  unfoldable pub any_expected : Ty → Tys → Bool
  any_expected a nil = false
  any_expected a (cons e es) = rec a e || any_expected a es

  -- `actual.iter().all(|actual| types_compatible(actual, expected))`
  unfoldable pub all_actual : Tys → Ty → Bool
  all_actual nil e = true
  all_actual (cons a as_) e = rec a e && all_actual as_ e

  -- equal lengths, and compatible one by one
  unfoldable pub all_pairs : Tys → Tys → Bool
  all_pairs nil nil = true
  all_pairs (cons a as_) (cons e es) = rec a e && all_pairs as_ es
  all_pairs as_ es = false

  unfoldable pub string_compatible : Ty → Bool
  string_compatible str = true
  string_compatible (reference m l r) = is_text r
  string_compatible (union es) = any_expected string es
  string_compatible _ = false

  unfoldable pub str_compatible : Ty → Bool
  str_compatible string = true
  str_compatible (union es) = any_expected str es
  str_compatible _ = false

  unfoldable pub reference_compatible : Bool → String → Ty → Ty → Bool
  reference_compatible m l a (reference m' l' e) =
      bool_eq m m' && (str_eq l l' || str_eq l "static") && rec a e
  reference_compatible m l a string = is_text a
  reference_compatible m l a (union es) = any_expected (reference m l a) es
  reference_compatible m l a _ = false

  unfoldable pub optional_compatible : Ty → Ty → Bool
  optional_compatible a (optional e) = rec a e
  optional_compatible a (union es) = any_expected (optional a) es
  optional_compatible a _ = false

  unfoldable pub promise_compatible : Ty → Ty → Ty → Bool
  promise_compatible whole a (promise e e' d) = rec a e
  promise_compatible whole a (union es) = any_expected whole es
  promise_compatible whole a _ = false

  unfoldable pub union_compatible : Tys → Ty → Bool
  union_compatible as_ (union es) = all_pairs as_ es
  union_compatible as_ e = all_actual as_ e

  unfoldable pub other_compatible : Ty → Ty → Bool
  other_compatible a (union es) = any_expected a es
  other_compatible a _ = false

  -- The `match` on the two types, after the test that they are equal.
  unfoldable pub match_types : Ty → Ty → Bool
  match_types string e = string_compatible e
  match_types str e = str_compatible e
  match_types (reference m l a) e = reference_compatible m l a e
  match_types (optional a) e = optional_compatible a e
  match_types (promise a e' d) e = promise_compatible (promise a e' d) a e
  match_types (union as_) e = union_compatible as_ e
  match_types a e = other_compatible a e

unfoldable pub compatible_within : ℕ → Ty → Ty → Bool
unfolding match_types any_expected all_actual all_pairs string_compatible str_compatible
    reference_compatible optional_compatible promise_compatible union_compatible other_compatible
compatible_within zero a e = false
compatible_within (suc n) a e = if ty_eq a e then true else match_types (compatible_within n) a e

unfoldable pub types_compatible : Ty → Ty → Bool
unfolding compatible_within size
types_compatible a e = compatible_within (size a + size e) a e

-- `types_compatible_slice`
unfoldable pub types_compatible_slice : List Ty → List Ty → Bool
unfolding types_compatible
types_compatible_slice [] [] = true
types_compatible_slice (a ∷ as_) (e ∷ es) = types_compatible a e && types_compatible_slice as_ es
types_compatible_slice as_ es = false
