-- ===== src/Mir/Monomorphize/Queue/Ends.antt =====
-- Monomorphization ends where the roots need finitely many instances.
use typenative.Prelude.{
  ℕ, zero, suc, ◌+◌, ◌≤◌, ◌<◌, Bool, List, [], ◌∷◌, ◌++◌, some, ◌≡◌, ◌≢◌, inl, inr, refl, sym, ap,
  ◌∙◌, arith, length, length-append, Bool-cases, List-cases, if◌then◌else◌,
}
use mathlib.Core.Path.{subst}
use typenative.Mir.Syntax.{Body}
use typenative.Mir.Monomorphize.Instances.{
  GenericBody, DropImplementation, Instance, instance_eq, instance_eq_iff, Registry, Result, ok,
  err, registry_from,
}
use typenative.Mir.Monomorphize.Queue.{
  MonomorphizedBody, Progress, specialize_instance, made, enqueue_all, drain, initial_progress,
  finish, monomorphize_with_drops,
}
use typenative.Mir.Monomorphize.Queue.Members.{In, Distinct, In-append_left}
use typenative.Mir.Monomorphize.Queue.Progresses.{
  instances, instances-append, IsSound, made-IsSound, enqueue_all_output,
}
use typenative.Mir.Monomorphize.Queue.Needed.{Needed, OnlyNeeded, Result-cases, made-OnlyNeeded}
use typenative.Mir.Monomorphize.Queue.Correct.{
  waiting_known, initial_progress-IsSound, initial_progress-OnlyNeeded,
}

-- the list less this instance
without : Instance → List Instance → List Instance
without x [] = []
without x (y ∷ s) = if instance_eq x y then without x s else y ∷ without x s

length-without-le : (x : Instance) (s : List Instance) → length (without x s) ≤ length s
unfolding without
length-without-le x [] = omega arith
length-without-le x (y ∷ s) = elim (Bool-cases (instance_eq x y)) [
  | inl same ↦ rw same (omega (arith, length-without-le x s))
  | inr other ↦ rw other (omega (arith, length-without-le x s))
]

length-without-lt : (x : Instance) (s : List Instance) → In x s → length (without x s) < length s
unfolding without
length-without-lt x [] m = absurd m
length-without-lt x (y ∷ s) (inl e) =
    rw ((instance_eq_iff x y).1 e) (omega (arith, length-without-le x s))
length-without-lt x (y ∷ s) (inr m) = elim (Bool-cases (instance_eq x y)) [
  | inl same ↦ rw same (omega (arith, length-without-le x s))
  | inr other ↦ rw other (omega (arith, length-without-lt x s m))
]

In-without : (x y : Instance) (s : List Instance) → x ≢ y → In y s → In y (without x s)
unfolding without
In-without x y [] ne m = absurd m
In-without x y (z ∷ s) ne m = elim (Bool-cases (instance_eq x z)) [
  | inl same ↦ rw same (elim m [
    | inl e ↦ absurd (ne ((instance_eq_iff x z).0 same ∙ sym e))
    | inr k ↦ In-without x y s ne k
  ])
  | inr other ↦ rw other (elim m [ inl e ↦ inl e | inr k ↦ inr (In-without x y s ne k) ])
]

-- Distinct members of a list are at most as many as its elements.
length-Distinct :
    (s u : List Instance) → Distinct s → ((x : Instance) → In x s → In x u) → length s ≤ length u
length-Distinct [] u d h = omega arith
length-Distinct (x ∷ s) u (fresh, d) h =
    let rest =
      length-Distinct s (without x u) d
        (λ y m. In-without x y u (λ e. fresh (subst (λ z. In z s) (sym e) m)) (h y (inr m))) in
    omega (arith, length-without-lt x u (h x (inl refl)))

Distinct-left : (s t : List Instance) → Distinct (s ++ t) → Distinct s
Distinct-left [] t d = tt
Distinct-left (x ∷ s) t (fresh, d) = (λ m. fresh (In-append_left x s t m), Distinct-left s t d)

module _ (before : Instance → Instance → Bool) {n : ℕ} (registry : Registry n)
    (implementations : List DropImplementation) (roots u : List Instance)
    (finite : (x : Instance) → Needed before registry implementations roots x → In x u) where
  outputs-le :
      (p : Progress n)
      → IsSound before registry implementations p
      → OnlyNeeded before registry implementations roots p
      → length (instances p.output) ≤ length u
  outputs-le p v only =
      length-Distinct (instances p.output) u
        (Distinct-left (instances p.output) p.queue v.tracked.distinct)
        (λ x m.
          finite x
            (only x ((v.tracked.same x).1 (In-append_left x (instances p.output) p.queue m))))

  made_output :
      (i : Instance) (rest : List Instance) (out : Body n × List Instance) (p : Progress n)
      → length (instances (made before registry implementations i rest out p).output)
        ≡ suc (length (instances p.output))
  made_output i rest (body, found) p =
      let b : MonomorphizedBody n = record { instance_of = i; body = body } in
      let after = enqueue_all before found (record p { queue = rest }) in
      ap length (instances-append after.output (b ∷ []))
      ∙ length-append (instances after.output) (i ∷ [])
      ∙ omega (
        arith,
        ap (λ z. length (instances z))
            (enqueue_all_output before found (record p { queue = rest })),
      )

  drain_step :
      (fuel : ℕ) (i : Instance) (rest : List Instance) (out : Body n × List Instance)
      (p : Progress n)
      → p.queue ≡ i ∷ rest
      → specialize_instance before registry implementations i ≡ ok out
      → drain before registry implementations (suc fuel) p
        ≡ drain before registry implementations fuel
            (made before registry implementations i rest out p)
  unfolding drain
  drain_step fuel i rest out p more done = rw (more, drain, done, drain) refl

  drain_ends :
      (fuel : ℕ) (p : Progress n)
      → IsSound before registry implementations p
      → OnlyNeeded before registry implementations roots p
      → length u < fuel + length (instances p.output)
      → (r : Result (List (MonomorphizedBody n))) × (drain before registry implementations fuel p
          ≡ some r)
  unfolding drain
  drain_ends zero p v only h = absurd (omega (arith, outputs-le p v only))
  drain_ends (suc fuel) p v only h = elim (List-cases p.queue) [
    | inl empty ↦ (ok p.output, rw (empty, drain) refl)
    | inr (i, rest, more) ↦
        elim (Result-cases (specialize_instance before registry implementations i)) [
          | inr (x, failed) ↦ (err x, rw (more, drain, failed, drain) refl)
          | inl ((body, found), done) ↦
              let (v', _) =
                made-IsSound before registry implementations i rest body found p more done v in
              let known = waiting_known (instances p.output) rest i p v.tracked more in
              let (r, e) =
                drain_ends fuel (made before registry implementations i rest (body, found) p) v'
                  (made-OnlyNeeded before registry implementations roots i rest body found p done
                    (only i known) only)
                  (omega (arith, made_output i rest (body, found) p)) in
              (r, drain_step fuel i rest (body, found) p more done ∙ e)
        ]
  ]

finish-some :
    (before : Instance → Instance → Bool) {n : ℕ} (registry : Registry n)
    (implementations : List DropImplementation) (r : Result (List (MonomorphizedBody n)))
    → (s : Result (List (MonomorphizedBody n))) × (finish before registry implementations (some r)
        ≡ some s)
finish-some before registry implementations (ok bs) = (_, refl)
finish-some before registry implementations (err e) = (_, refl)

-- Where the roots need only instances of a list, fuel above the length of the list is enough: the run
-- ends with bodies or an error.
pub monomorphize_with_drops_ends :
    (before : Instance → Instance → Bool) {n : ℕ} (bodies : List (GenericBody n))
    (roots : List Instance) (implementations : List DropImplementation) (u : List Instance)
    → ((x : Instance) → Needed before (registry_from bodies []) implementations roots x → In x u)
    → (fuel : ℕ) → length u < fuel
    → (r : Result (List (MonomorphizedBody n))) × (monomorphize_with_drops before fuel bodies roots
          implementations
        ≡ some r)
unfolding monomorphize_with_drops
monomorphize_with_drops_ends before bodies roots implementations u finite fuel h =
    let registry = registry_from bodies [] in
    let (r, e) =
      drain_ends before registry implementations roots u finite fuel (initial_progress before roots)
        (initial_progress-IsSound before registry implementations roots)
        (initial_progress-OnlyNeeded before registry implementations roots) (omega arith) in
    let (s, f) = finish-some before registry implementations r in
    (s, ap (finish before registry implementations) e ∙ f)
