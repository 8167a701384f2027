-- ===== src/Mir/Monomorphize/Queue.antt =====
-- `monomorphize` and `monomorphize_with_drops` of crates/tn-mir/src/monomorphize.rs. The work queue
-- takes fuel, one for each instance: generic recursion at ever larger types never ends in the source.
pub mod Members
pub mod Progresses
pub mod Needed
pub mod Closed
pub mod Correct
pub mod Ends
pub mod Concretes
use typenative.Prelude.{
  ℕ, zero, suc, Bool, true, false, List, [], ◌∷◌, ◌++◌, Option, none, some, String, ◌==◌,
  if◌then◌else◌, length,
}
use typenative.Hir.Types.{Ty}
use typenative.Mir.Syntax.{Body}
use typenative.Mir.Monomorphize.Types.{Substitutions}
use typenative.Mir.Monomorphize.Bodies.{substitute_body}
use typenative.Mir.Monomorphize.Instances.{
  GenericBody, DropImplementation, Instance, MonomorphizationError, missing_body,
  type_argument_arity, Result, ok, err, ◌>>=◌, Registry, registered, registry_from, insert_instance,
  extend, has_instance,
}
use typenative.Mir.Monomorphize.Discovery.{discover_instances}

pub record MonomorphizedBody (n : ℕ) : Type 0 where
  pub instance_of : Instance
  pub body : Body n

-- The instances that were ever queued, those that wait, and the bodies that were made.
pub record Progress (n : ℕ) : Type 0 where
  pub pending : List Instance
  pub queue : List Instance
  pub output : List (MonomorphizedBody n)

-- `type_parameters.zip(type_arguments).collect()`: a later pair stands before an earlier one
unfoldable pub bindings : List String → List Ty → Substitutions → Substitutions
bindings [] ts s = s
bindings (p ∷ ps) [] s = s
bindings (p ∷ ps) (t ∷ ts) s = bindings ps ts ((p, t) ∷ s)

module _ (before : Instance → Instance → Bool) {n : ℕ} where
  -- `if pending.insert(discovered.clone()) { queue.push_back(discovered) }`
  unfoldable pub enqueue : Instance → Progress n → Progress n
  unfolding has_instance insert_instance
  enqueue i p =
      if has_instance i p.pending
      then p
      else record p { pending = insert_instance before i p.pending; queue = p.queue ++ i ∷ [] }

  unfoldable pub enqueue_all : List Instance → Progress n → Progress n
  unfolding enqueue
  enqueue_all [] p = p
  enqueue_all (i ∷ is) p = enqueue_all is (enqueue i p)

  -- insertion by the order of instances; equal ones keep their order, as in `sort_by`
  unfoldable pub insert_output :
      MonomorphizedBody n → List (MonomorphizedBody n) → List (MonomorphizedBody n)
  insert_output b [] = b ∷ []
  insert_output b (c ∷ cs) =
      if before c.instance_of b.instance_of then c ∷ insert_output b cs else b ∷ c ∷ cs

  unfoldable pub sort_outputs : List (MonomorphizedBody n) → List (MonomorphizedBody n)
  unfolding insert_output
  sort_outputs [] = []
  sort_outputs (b ∷ bs) = insert_output b (sort_outputs bs)

  module _ (registry : Registry n) (implementations : List DropImplementation) where
    -- an instance of a generic body: the body, specialized, and what it needs
    unfoldable pub specialize : Instance → GenericBody n → Result (Body n × List Instance)
    unfolding substitute_body discover_instances bindings
    specialize i g =
        if length g.type_parameters == length i.type_arguments
        then (let body =
              substitute_body (bindings g.type_parameters i.type_arguments []) n g.body in
            discover_instances before registry implementations n body >>= λ found. ok (body, found))
        else err
            (type_argument_arity i.callable (length g.type_parameters) (length i.type_arguments))

    abbrev pub specialize_registered :
        Instance → Option (GenericBody n) → Result (Body n × List Instance)
    specialize_registered i none = err (missing_body i.callable)
    specialize_registered i (some g) = specialize i g

    unfoldable pub specialize_instance : Instance → Result (Body n × List Instance)
    unfolding specialize registered
    specialize_instance i = specialize_registered i (registered registry i.callable)

    -- the state after an instance left the queue
    abbrev pub made : Instance → List Instance → Body n × List Instance → Progress n → Progress n
    made i rest (body, found) p =
        let p' = enqueue_all found (record p { queue = rest }) in
        record p' { output = p'.output ++ record { instance_of = i; body = body } ∷ [] }

    -- `none` means that the fuel ran out
    unfoldable pub drain : ℕ → Progress n → Option (Result (List (MonomorphizedBody n)))
    unfolding specialize_instance enqueue_all
    drain zero p = none
    drain (suc fuel) p = elim (p.queue) [
      | [] ↦ some (ok p.output)
      | i ∷ rest ↦ elim (specialize_instance i) [
        | err e ↦ some (err e)
        | ok out ↦ drain fuel (made i rest out p)
      ]
    ]

    abbrev pub finish :
        Option (Result (List (MonomorphizedBody n))) → Option (Result (List (MonomorphizedBody n)))
    finish none = none
    finish (some (err e)) = some (err e)
    finish (some (ok bs)) = some (ok (sort_outputs bs))

  abbrev pub initial_progress : List Instance → Progress n
  initial_progress roots =
      let pending = extend before roots [] in
      record { pending = pending; queue = pending; output = [] }

  unfoldable pub monomorphize_with_drops :
      ℕ
      → List (GenericBody n)
      → List Instance
      → List DropImplementation
      → Option (Result (List (MonomorphizedBody n)))
  unfolding drain sort_outputs registry_from extend
  monomorphize_with_drops fuel bodies roots implementations =
      let registry = registry_from bodies [] in
      finish registry implementations (drain registry implementations fuel (initial_progress roots))

  unfoldable pub monomorphize :
      ℕ → List (GenericBody n) → List Instance → Option (Result (List (MonomorphizedBody n)))
  unfolding monomorphize_with_drops
  monomorphize fuel bodies roots = monomorphize_with_drops fuel bodies roots []
