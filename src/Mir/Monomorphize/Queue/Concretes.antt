-- ===== src/Mir/Monomorphize/Queue/Concretes.antt =====
-- From roots without generics, monomorphization makes only instances without generics.
use typenative.Prelude.{
  ℕ, true, false, List, [], ◌∷◌, some, ◌≡◌, sym, inl, inr, All, ◌==◌, length, Bool, Bool-cases,
  none, Option,
}
use mathlib.Core.Path.{subst}
use typenative.Mir.Syntax.{Body}
use typenative.Mir.Monomorphize.Bodies.{substitute_body}
use typenative.Mir.Monomorphize.Instances.{
  GenericBody, DropImplementation, Instance, Registry, Result, ok, err, ◌>>=◌, registered,
  registry_from,
}
use typenative.Mir.Monomorphize.Discovery.{discover_instances}
use typenative.Mir.Monomorphize.Discovery.Concrete.{IsConcrete, OkConcrete}
use typenative.Mir.Monomorphize.Discovery.Visits.{discover_instances-Concrete}
use typenative.Mir.Monomorphize.Queue.{
  MonomorphizedBody, bindings, specialize, specialize_registered, specialize_instance,
  monomorphize_with_drops,
}
use typenative.Mir.Monomorphize.Queue.Members.{In}
use typenative.Mir.Monomorphize.Queue.Progresses.{instances}
use typenative.Mir.Monomorphize.Queue.Needed.{Needed, root, inside}
use typenative.Mir.Monomorphize.Queue.Correct.{monomorphize_with_drops-IsAnswer}

All-In : (s : List Instance) → All IsConcrete s → (x : Instance) → In x s → IsConcrete x
All-In [] h x m = absurd m
All-In (y ∷ s) (h, hs) x (inl e) = subst IsConcrete (sym e) h
All-In (y ∷ s) (h, hs) x (inr m) = All-In s hs x m

module _ (before : Instance → Instance → Bool) {n : ℕ} (registry : Registry n)
    (implementations : List DropImplementation) where
  -- What a specialized instance needs has no generics.
  abbrev Found : Result (Body n × List Instance) → Type 0
  Found (ok (body, found)) = All IsConcrete found
  Found (err e) = Unit

  Found-Concrete :
      (body : Body n) (r : Result (List Instance))
      → OkConcrete r
      → Found (r >>= λ found. ok (body, found))
  Found-Concrete body (ok s) c = c
  Found-Concrete body (err e) c = tt

  specialize-Found :
      (i : Instance) (g : GenericBody n) → Found (specialize before registry implementations i g)
  unfolding specialize
  specialize-Found i g = elim (Bool-cases (length g.type_parameters == length i.type_arguments)) [
    | inr arity ↦ rw arity tt
    | inl fits ↦ rw fits (
        let body = substitute_body (bindings g.type_parameters i.type_arguments []) n g.body in
        Found-Concrete body (discover_instances before registry implementations n body)
          (discover_instances-Concrete before registry implementations n body))
  ]

  registered-Found :
      (i : Instance) (o : Option (GenericBody n))
      → Found (specialize_registered before registry implementations i o)
  registered-Found i none = tt
  registered-Found i (some g) = specialize-Found i g

  specialize_instance-Found :
      (i : Instance) → Found (specialize_instance before registry implementations i)
  unfolding specialize_instance
  specialize_instance-Found i = registered-Found i (registered registry i.callable)

  Needed-IsConcrete :
      (roots : List Instance)
      → All IsConcrete roots
      → {x : Instance} → Needed before registry implementations roots x
      → IsConcrete x
  Needed-IsConcrete roots h {x} (root m) = All-In roots h x m
  Needed-IsConcrete roots h {x} (inside {y = y} {body} {found} needed e m) =
      All-In found (subst Found e (specialize_instance-Found y)) x m

-- Where the order of instances is asymmetric and no root has a generic among its type arguments, none of
-- the instances that are returned has one.
pub monomorphize_with_drops-IsConcrete :
    (before : Instance → Instance → Bool)
    → ((a b : Instance) → before a b ≡ true → before b a ≡ false)
    → {n : ℕ} (fuel : ℕ) (bodies : List (GenericBody n)) (roots : List Instance)
      (implementations : List DropImplementation) (bs : List (MonomorphizedBody n))
    → All IsConcrete roots
    → monomorphize_with_drops before fuel bodies roots implementations ≡ some (ok bs)
    → (x : Instance) → In x (instances bs)
    → IsConcrete x
monomorphize_with_drops-IsConcrete before asym fuel bodies roots implementations bs h e x m =
    let (_, needed, _) =
      monomorphize_with_drops-IsAnswer before asym fuel bodies roots implementations (ok bs) e in
    Needed-IsConcrete before (registry_from bodies []) implementations roots h (needed x m)
