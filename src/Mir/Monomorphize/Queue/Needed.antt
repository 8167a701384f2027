-- ===== src/Mir/Monomorphize/Queue/Needed.antt =====
-- The instances that the roots need, and that the queue holds no others.
use typenative.Prelude.{
  ℕ, Bool, true, false, List, [], ◌∷◌, ◌++◌, ◌≡◌, ◌⊎◌, inl, inr, refl, Bool-cases,
}
use mathlib.Core.Path.{subst}
use typenative.Mir.Syntax.{Body}
use typenative.Mir.Monomorphize.Instances.{
  DropImplementation, Instance, Registry, Result, ok, err, MonomorphizationError, has_instance,
}
use typenative.Mir.Monomorphize.Queue.{Progress, enqueue, enqueue_all, specialize_instance, made}
use typenative.Mir.Monomorphize.Queue.Members.{In, place_instance_iff}

pub Result-cases :
    {A : Type 0} (r : Result A)
    → ((a : A) × (r ≡ ok a)) ⊎ ((e : MonomorphizationError) × (r ≡ err e))
Result-cases (ok a) = inl (a, refl)
Result-cases (err e) = inr (e, refl)

module _ (before : Instance → Instance → Bool) {n : ℕ} where
  enqueue_only :
      (x i : Instance) (p : Progress n)
      → In x (enqueue before i p).pending
      → (x ≡ i) ⊎ In x p.pending
  unfolding enqueue
  enqueue_only x i p m = elim (Bool-cases (has_instance i p.pending)) [
    | inl old ↦ inr (subst (λ q. In x q.pending) (unchanged old) m)
    | inr new ↦
        (place_instance_iff before x i p.pending).0 (subst (λ q. In x q.pending) (added new) m)
  ]
    where
      unchanged : has_instance i p.pending ≡ true → enqueue before i p ≡ p
      unchanged e = rw e refl

      added :
          has_instance i p.pending ≡ false
          → enqueue before i p ≡ record p {
            pending = typenative.Mir.Monomorphize.Instances.place_instance before i p.pending;
            queue = p.queue ++ i ∷ [];
          }
      added e = rw e refl

  enqueue_all_only :
      (x : Instance) (found : List Instance) (p : Progress n)
      → In x (enqueue_all before found p).pending
      → In x found ⊎ In x p.pending
  unfolding enqueue_all
  enqueue_all_only x [] p m = inr m
  enqueue_all_only x (i ∷ found) p m = elim (enqueue_all_only x found (enqueue before i p) m) [
    | inl k ↦ inl (inr k)
    | inr k ↦ elim (enqueue_only x i p k) [ inl e ↦ inl (inl e) | inr h ↦ inr h ]
  ]

  module _ (registry : Registry n) (implementations : List DropImplementation) where
    -- The roots, and what is discovered in the body of a needed instance.
    pub data Needed (roots : List Instance) : Instance → Type 0 where
      root : {x : Instance} → In x roots → Needed roots x
      inside :
          {x y : Instance} {body : Body n} {found : List Instance}
          → Needed roots y
          → specialize_instance before registry implementations y ≡ ok (body, found)
          → In x found
          → Needed roots x

    -- Whatever was queued is needed.
    abbrev pub OnlyNeeded : List Instance → Progress n → Type 0
    OnlyNeeded roots p = (x : Instance) → In x p.pending → Needed roots x

    pub made-OnlyNeeded :
        (roots : List Instance) (i : Instance) (rest : List Instance) (body : Body n)
        (found : List Instance) (p : Progress n)
        → specialize_instance before registry implementations i ≡ ok (body, found)
        → Needed roots i
        → OnlyNeeded roots p
        → OnlyNeeded roots (made before registry implementations i rest (body, found) p)
    made-OnlyNeeded roots i rest body found p e needed only x m =
        elim (enqueue_all_only x found (record p { queue = rest }) m) [
          | inl k ↦ inside needed e k
          | inr k ↦ only x k
        ]
