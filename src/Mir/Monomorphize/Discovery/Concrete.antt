-- ===== src/Mir/Monomorphize/Discovery/Concrete.antt =====
-- Discovery adds only instances whose type arguments contain no generic.
use typenative.Prelude.{
  ℕ, Bool, true, false, ◌&&◌, List, [], ◌∷◌, Option, none, some, ◌≡◌, inl, inr, All, ◌==◌,
  Bool-cases, if◌then◌else◌,
}
use typenative.Hir.Types.{DeclarationId, Ty, function, FunctionType}
use typenative.Mir.Syntax.{Constant, method, constructor, Operand, copy, move, constant}
use typenative.Mir.Monomorphize.Types.{Substitutions}
use typenative.Mir.Monomorphize.Matching.{matches_target}
use typenative.Mir.Monomorphize.Instances.{
  Callable, function_callable, GenericBody, DropImplementation, Instance, Result, ok, err, ◌>>=◌,
  Registry, registered, has_instance, place_instance, insert_instance, extend,
}
use typenative.Mir.Monomorphize.Discovery.{
  M, ◌>>◌, for_each, for_some, any_contains_generic, resolve, inferred_for, effects_of,
  add_instance, discover_function, discover_registered, discover_callable, discover_implementation,
  discover_drop_instance, visit_constant, visit_operand, method_signature, is_some,
  discover_methods,
}

-- The type arguments of the instance contain no generic.
abbrev pub IsConcrete : Instance → Type 0
IsConcrete i = any_contains_generic i.type_arguments ≡ false

-- What is returned, unless it is an error.
abbrev pub OkConcrete : Result (List Instance) → Type 0
OkConcrete (ok s) = All IsConcrete s
OkConcrete (err e) = Unit

abbrev pub Keeps : M → Type 0
Keeps m = (s : List Instance) → All IsConcrete s → OkConcrete (m s)

bind-Keeps : (r : Result (List Instance)) (k : M) → OkConcrete r → Keeps k → OkConcrete (r >>= k)
bind-Keeps (ok s) k h keep = keep s h
bind-Keeps (err e) k h keep = tt

pub then-Keeps : (m k : M) → Keeps m → Keeps k → Keeps (m >> k)
then-Keeps m k h keep s c = bind-Keeps (m s) k (h s c) keep

pub for_each-Keeps {ℓ} :
    {A : Type ℓ} (f : A → M) → ((a : A) → Keeps (f a)) → (xs : List A) → Keeps (for_each f xs)
for_each-Keeps f h [] s c = c
for_each-Keeps f h (x ∷ xs) s c =
    bind-Keeps (f x s) (for_each f xs) (h x s c) (for_each-Keeps f h xs)

pub for_some-Keeps {ℓ} :
    {A : Type ℓ} (f : A → M) → ((a : A) → Keeps (f a)) → (o : Option A) → Keeps (for_some f o)
for_some-Keeps f h none s c = c
for_some-Keeps f h (some x) s c = h x s c

args-bind :
    (r : Result (List Ty)) (k : List Ty → Result (List Instance))
    → ((ts : List Ty) → OkConcrete (k ts))
    → OkConcrete (r >>= k)
args-bind (ok ts) k h = h ts
args-bind (err e) k h = tt

module _ (before : Instance → Instance → Bool) where
  place_instance-All :
      (i : Instance) (s : List Instance)
      → IsConcrete i
      → All IsConcrete s
      → All IsConcrete (place_instance before i s)
  unfolding place_instance
  place_instance-All i [] h c = (h, tt)
  place_instance-All i (x ∷ s) h (d, c) = elim (Bool-cases (before i x)) [
    | inl smaller ↦ rw smaller (h, (d, c))
    | inr larger ↦ rw larger (d, place_instance-All i s h c)
  ]

  insert_instance-All :
      (i : Instance) (s : List Instance)
      → IsConcrete i
      → All IsConcrete s
      → All IsConcrete (insert_instance before i s)
  unfolding insert_instance
  insert_instance-All i s h c = elim (Bool-cases (has_instance i s)) [
    | inl old ↦ rw old c
    | inr new ↦ rw new (place_instance-All i s h c)
  ]

  pub extend-All :
      (is s : List Instance)
      → All IsConcrete is
      → All IsConcrete s
      → All IsConcrete (extend before is s)
  unfolding extend
  extend-All [] s h c = c
  extend-All (i ∷ is) s (h, hs) c =
      extend-All is (insert_instance before i s) hs (insert_instance-All i s h c)

  module _ {n : ℕ} (registry : Registry n) where
    add_instance-Keeps :
        (c : Callable) (effects : List DeclarationId) (ts : List Ty)
        → Keeps (add_instance before registry c effects ts)
    unfolding add_instance
    add_instance-Keeps c effects ts s h = elim (Bool-cases (any_contains_generic ts)) [
      | inl open_type ↦ rw open_type h
      | inr closed ↦ rw closed (
          insert_instance-All (record { callable = c; type_arguments = ts; effects = effects }) s
            closed h)
    ]

    discover_function-Keeps :
        (c : Callable) (g : GenericBody n) (f : FunctionType) (r : Option Ty)
        → Keeps (discover_function before registry c g f r)
    unfolding discover_function
    discover_function-Keeps c g f r s h =
        args-bind (resolve c (inferred_for g.body f r) g.type_parameters)
          (λ ts. add_instance before registry c (effects_of f) ts s)
          (λ ts. add_instance-Keeps c (effects_of f) ts s h)

    discover_registered-Keeps :
        (c : Callable) (o : Option (GenericBody n)) (t : Ty) (r : Option Ty)
        → Keeps (discover_registered before registry c o t r)
    discover_registered-Keeps c none t r s h = h
    discover_registered-Keeps c (some g) (function f) r s h = discover_function-Keeps c g f r s h
    discover_registered-Keeps c (some g) t r s h = h

    pub discover_callable-Keeps :
        (c : Callable) (t : Ty) (r : Option Ty) → Keeps (discover_callable before registry c t r)
    unfolding discover_callable
    discover_callable-Keeps c t r s h = discover_registered-Keeps c (registered registry c) t r s h

    discover_implementation-Keeps :
        (c : Callable) (m : Bool × Substitutions) (o : Option (GenericBody n))
        → Keeps (discover_implementation before registry c m o)
    unfolding discover_implementation
    discover_implementation-Keeps c (false, inferred) o s h = h
    discover_implementation-Keeps c (true, inferred) none s h = h
    discover_implementation-Keeps c (true, inferred) (some g) s h =
        args-bind (resolve c inferred g.type_parameters)
          (λ ts. add_instance before registry c [] ts s) (λ ts. add_instance-Keeps c [] ts s h)

    module _ (implementations : List DropImplementation) where
      pub discover_drop_instance-Keeps :
          (t : Ty) → Keeps (discover_drop_instance before registry implementations t)
      unfolding discover_drop_instance
      discover_drop_instance-Keeps t =
          for_each-Keeps
            (λ i.
              discover_implementation before registry i.callable (matches_target i.target t [])
                (registered registry i.callable))
            (λ i.
              discover_implementation-Keeps i.callable (matches_target i.target t [])
                (registered registry i.callable))
            implementations

      visit_constant-Keeps :
          (c : Constant) → Keeps (visit_constant before registry implementations c)
      unfolding visit_constant
      visit_constant-Keeps (Constant.function d t) =
          discover_callable-Keeps (function_callable d) t none
      visit_constant-Keeps (method d m t) =
          discover_callable-Keeps (record { declaration = d; member = some m }) t none
      visit_constant-Keeps (constructor d (some m) t) =
          discover_callable-Keeps (record { declaration = d; member = some m }) t none
      visit_constant-Keeps (constructor d none t) =
          discover_callable-Keeps (function_callable d) t none
      visit_constant-Keeps c = λ s h. h

      pub visit_operand-Keeps :
          (o : Operand) → Keeps (visit_operand before registry implementations o)
      unfolding visit_operand
      visit_operand-Keeps (constant c) = visit_constant-Keeps c
      visit_operand-Keeps (copy p) = λ s h. h
      visit_operand-Keeps (move p) = λ s h. h

      pub operands-Keeps :
          (os : List Operand) → Keeps (for_each (visit_operand before registry implementations) os)
      operands-Keeps =
          for_each-Keeps (visit_operand before registry implementations) visit_operand-Keeps

      pub discover_methods-Keeps :
          (d : DeclarationId) (t : Ty)
          → Keeps (discover_methods before registry implementations d t)
      unfolding discover_methods
      discover_methods-Keeps d t =
          for_each-Keeps
            (λ (c, g) s.
              if c.declaration == d && is_some before registry implementations c.member
              then discover_callable before registry c
                  (method_signature before registry implementations g) (some t) s
              else ok s)
            (λ (c, g) s h.
              elim (Bool-cases
                (c.declaration == d && is_some before registry implementations c.member)) [
                  | inl own ↦ rw own (
                      discover_callable-Keeps c (method_signature before registry implementations g)
                        (some t) s h)
                  | inr other ↦ rw other h
                ])
            registry
