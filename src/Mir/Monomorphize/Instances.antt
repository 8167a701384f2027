-- ===== src/Mir/Monomorphize/Instances.antt =====
-- The callables, instances and errors of crates/tn-mir/src/monomorphize.rs, and its sets and maps. A
-- `BTreeSet` of instances is a list that is ordered by a parameter: the order that the derived `Ord`
-- of instances gives. The registry is a list that is ordered by callables.
use typenative.Prelude.{
  ℕ, Bool, true, false, ◌&&◌, ◌||◌, List, [], ◌∷◌, Option, none, some, String, ℕ_discrete, decide,
  ◌≡◌, ◌↔◌, arith, ltb, ◌==◌, if◌then◌else◌,
}
use typenative.Hir.Types.{DeclarationId, MemberId, Ty, Ty-discrete}
use typenative.Mir.Syntax.{BodyOf, Body}

pub record Callable : Type 0 where
  pub declaration : DeclarationId
  pub member : Option MemberId

-- `Callable::function`
abbrev pub function_callable : DeclarationId → Callable
function_callable d = record { declaration = d; member = none }

pub Callable-discrete : Discrete Callable
Callable-discrete = hlevel ℕ_discrete

unfoldable pub callable_eq : Callable → Callable → Bool
unfolding Callable-discrete decide ℕ_discrete
callable_eq a b = decide (Callable-discrete a b)

pub callable_eq_iff : (a b : Callable) → (callable_eq a b ≡ true) ↔ (a ≡ b)
unfolding callable_eq
callable_eq_iff a b = ground arith

abbrev pub member_ltb : Option MemberId → Option MemberId → Bool
member_ltb none none = false
member_ltb none (some n) = true
member_ltb (some m) none = false
member_ltb (some m) (some n) = ltb m n

-- the derived order of `Callable`
unfoldable pub callable_ltb : Callable → Callable → Bool
callable_ltb a b =
    ltb a.declaration b.declaration
    || (a.declaration == b.declaration && member_ltb a.member b.member)

pub record GenericBody (n : ℕ) : Type 0 where
  pub body : Body n
  pub type_parameters : List String

pub record DropImplementation : Type 0 where
  pub target : Ty
  pub callable : Callable

pub record Instance : Type 0 where
  pub callable : Callable
  pub type_arguments : List Ty
  pub effects : List DeclarationId

pub Instance-discrete : Discrete Instance
Instance-discrete = hlevel (Callable-discrete, Ty-discrete, ℕ_discrete)

unfoldable pub instance_eq : Instance → Instance → Bool
unfolding Instance-discrete decide ℕ_discrete
instance_eq a b = decide (Instance-discrete a b)

pub instance_eq_iff : (a b : Instance) → (instance_eq a b ≡ true) ↔ (a ≡ b)
unfolding instance_eq
instance_eq_iff a b = ground arith

pub data MonomorphizationError : Type 0 where
  missing_body : Callable → MonomorphizationError
  type_argument_arity : Callable → ℕ → ℕ → MonomorphizationError
  unresolved_type_parameter : Callable → String → MonomorphizationError

pub data Result {ℓ} (A : Type ℓ) : Type ℓ where
  ok : A → Result A
  err : MonomorphizationError → Result A

infixl 5 ◌>>=◌
abbrev pub ◌>>=◌ {ℓ κ} : {A : Type ℓ} {B : Type κ} → Result A → (A → Result B) → Result B
ok a >>= f = f a
err e >>= f = err e

-- `callable_of`
abbrev pub callable_of : {B : Type 0} → BodyOf B → Callable
callable_of b = record { declaration = b.declaration; member = b.member }

abbrev pub Registry : ℕ → Type 0
Registry n = List (Callable × GenericBody n)

module _ {n : ℕ} where
  -- `registry.get(&callable)`
  unfoldable pub registered : Registry n → Callable → Option (GenericBody n)
  unfolding callable_eq
  registered [] c = none
  registered ((k, g) ∷ r) c = if callable_eq k c then some g else registered r c

  -- A body with the callable of an earlier one takes its place.
  unfoldable pub register : Callable → GenericBody n → Registry n → Registry n
  unfolding callable_eq callable_ltb
  register c g [] = (c, g) ∷ []
  register c g ((k, h) ∷ r) =
      if callable_eq c k
      then (c, g) ∷ r
      else if callable_ltb c k
      then (c, g) ∷ (k, h) ∷ r
      else (k, h) ∷ register c g r

  unfoldable pub registry_from : List (GenericBody n) → Registry n → Registry n
  unfolding register
  registry_from [] r = r
  registry_from (g ∷ gs) r = registry_from gs (register (callable_of g.body) g r)

unfoldable pub has_instance : Instance → List Instance → Bool
unfolding instance_eq
has_instance i [] = false
has_instance i (x ∷ s) = instance_eq i x || has_instance i s

module _ (before : Instance → Instance → Bool) where
  -- the place of a new instance
  unfoldable pub place_instance : Instance → List Instance → List Instance
  place_instance i [] = i ∷ []
  place_instance i (x ∷ s) = if before i x then i ∷ x ∷ s else x ∷ place_instance i s

  -- `set.insert(instance)`
  unfoldable pub insert_instance : Instance → List Instance → List Instance
  unfolding has_instance place_instance
  insert_instance i s = if has_instance i s then s else place_instance i s

  -- `set.extend(instances)`
  unfoldable pub extend : List Instance → List Instance → List Instance
  unfolding insert_instance
  extend [] s = s
  extend (i ∷ is) s = extend is (insert_instance i s)
