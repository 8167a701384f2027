-- ===== src/Mir/Monomorphize/Queue/Closed.antt =====
-- What `monomorphize_with_drops` returns is closed under discovery.
use typenative.Prelude.{
  ℕ, zero, suc, Bool, true, false, List, [], ◌∷◌, ◌++◌, some, ◌≡◌, ◌↔◌, ◌⊎◌, inl, inr, sym, ap, ◌∙◌,
  Bool-cases, append-nil, All, List-cases,
}
use mathlib.Core.Path.{subst}
use typenative.Mir.Monomorphize.Instances.{DropImplementation, Instance, Registry, ok}
use typenative.Mir.Monomorphize.Queue.{
  MonomorphizedBody, Progress, specialize_instance, made, drain, insert_output, sort_outputs,
}
use typenative.Mir.Monomorphize.Queue.Members.{In, Distinct}
use typenative.Mir.Monomorphize.Queue.Needed.{Result-cases}
use typenative.Mir.Monomorphize.Queue.Progresses.{instances, Made, Made-mono, IsSound, made-IsSound}

module _ (before : Instance → Instance → Bool) {n : ℕ} where
  -- Each output comes after no output that stands before it in the order of instances.
  abbrev pub FirstOf : MonomorphizedBody n → List (MonomorphizedBody n) → Type 0
  FirstOf b [] = Unit
  FirstOf b (c ∷ cs) = before c.instance_of b.instance_of ≡ false

  abbrev pub IsSorted : List (MonomorphizedBody n) → Type 0
  IsSorted [] = Unit
  IsSorted (b ∷ bs) = FirstOf b bs × IsSorted bs

  module _ (asym : (a b : Instance) → before a b ≡ true → before b a ≡ false) where
    insert_output-FirstOf :
        (c b : MonomorphizedBody n) (cs : List (MonomorphizedBody n))
        → before c.instance_of b.instance_of ≡ true
        → FirstOf c cs
        → FirstOf c (insert_output before b cs)
    unfolding insert_output
    insert_output-FirstOf c b [] lt f = asym c.instance_of b.instance_of lt
    insert_output-FirstOf c b (d ∷ cs) lt f =
        elim (Bool-cases (before d.instance_of b.instance_of)) [
          | inl earlier ↦ rw earlier f
          | inr later ↦ rw later (asym c.instance_of b.instance_of lt)
        ]

    insert_output-IsSorted :
        (b : MonomorphizedBody n) (cs : List (MonomorphizedBody n))
        → IsSorted cs
        → IsSorted (insert_output before b cs)
    unfolding insert_output
    insert_output-IsSorted b [] s = (tt, tt)
    insert_output-IsSorted b (c ∷ cs) (f, s) =
        elim (Bool-cases (before c.instance_of b.instance_of)) [
          | inl earlier ↦
              rw earlier (insert_output-FirstOf c b cs earlier f, insert_output-IsSorted b cs s)
          | inr later ↦ rw later (later, (f, s))
        ]

    pub sort_outputs-IsSorted :
        (bs : List (MonomorphizedBody n)) → IsSorted (sort_outputs before bs)
    unfolding sort_outputs
    sort_outputs-IsSorted [] = tt
    sort_outputs-IsSorted (b ∷ bs) =
        insert_output-IsSorted b (sort_outputs before bs) (sort_outputs-IsSorted bs)

  insert_output_iff :
      (x : Instance) (b : MonomorphizedBody n) (cs : List (MonomorphizedBody n))
      → In x (instances (insert_output before b cs)) ↔ ((x ≡ b.instance_of) ⊎ In x (instances cs))
  unfolding insert_output
  insert_output_iff x b [] = (λ h. h, λ h. h)
  insert_output_iff x b (c ∷ cs) = elim (Bool-cases (before c.instance_of b.instance_of)) [
    | inr later ↦ rw later (λ h. h, λ h. h)
    | inl earlier ↦ rw earlier (
      λ h. elim h [
        | inl e ↦ inr (inl e)
        | inr m ↦ elim ((insert_output_iff x b cs).0 m) [ inl e ↦ inl e | inr k ↦ inr (inr k) ]
      ],
      λ h. elim h [
        | inl e ↦ inr ((insert_output_iff x b cs).1 (inl e))
        | inr (inl e) ↦ inl e
        | inr (inr k) ↦ inr ((insert_output_iff x b cs).1 (inr k))
      ],
    )
  ]

  insert_output-Distinct :
      (b : MonomorphizedBody n) (cs : List (MonomorphizedBody n))
      → ¬ In b.instance_of (instances cs)
      → Distinct (instances cs)
      → Distinct (instances (insert_output before b cs))
  unfolding insert_output
  insert_output-Distinct b [] new d = (λ m. m, tt)
  insert_output-Distinct b (c ∷ cs) new (fresh, d) =
      elim (Bool-cases (before c.instance_of b.instance_of)) [
        | inr later ↦ rw later (new, (fresh, d))
        | inl earlier ↦ rw earlier (
          λ m. elim ((insert_output_iff c.instance_of b cs).0 m) [
            | inl e ↦ new (inl (sym e))
            | inr k ↦ fresh k
          ],
          insert_output-Distinct b cs (λ m. new (inr m)) d,
        )
      ]

  pub sort_outputs_iff :
      (x : Instance) (bs : List (MonomorphizedBody n))
      → In x (instances (sort_outputs before bs)) ↔ In x (instances bs)
  unfolding sort_outputs
  sort_outputs_iff x [] = (λ h. h, λ h. h)
  sort_outputs_iff x (b ∷ bs) = (
    λ h. elim ((insert_output_iff x b (sort_outputs before bs)).0 h) [
      | inl e ↦ inl e
      | inr m ↦ inr ((sort_outputs_iff x bs).0 m)
    ],
    λ h.
        (insert_output_iff x b (sort_outputs before bs)).1
          (elim h [ inl e ↦ inl e | inr m ↦ inr ((sort_outputs_iff x bs).1 m) ]),
  )

  pub sort_outputs-Distinct :
      (bs : List (MonomorphizedBody n))
      → Distinct (instances bs)
      → Distinct (instances (sort_outputs before bs))
  unfolding sort_outputs
  sort_outputs-Distinct [] d = tt
  sort_outputs-Distinct (b ∷ bs) (new, d) =
      insert_output-Distinct b (sort_outputs before bs)
        (λ m. new ((sort_outputs_iff b.instance_of bs).0 m)) (sort_outputs-Distinct bs d)

  insert_output-All :
      (P : MonomorphizedBody n → Type 0) (b : MonomorphizedBody n) (cs : List (MonomorphizedBody n))
      → P b
      → All P cs
      → All P (insert_output before b cs)
  unfolding insert_output
  insert_output-All P b [] p all = (p, tt)
  insert_output-All P b (c ∷ cs) p (q, all) =
      elim (Bool-cases (before c.instance_of b.instance_of)) [
        | inl earlier ↦ rw earlier (q, insert_output-All P b cs p all)
        | inr later ↦ rw later (p, (q, all))
      ]

  pub sort_outputs-All :
      (P : MonomorphizedBody n → Type 0) (bs : List (MonomorphizedBody n))
      → All P bs
      → All P (sort_outputs before bs)
  unfolding sort_outputs
  sort_outputs-All P [] all = tt
  sort_outputs-All P (b ∷ bs) (p, all) =
      insert_output-All P b (sort_outputs before bs) p (sort_outputs-All P bs all)

  module _ (registry : Registry n) (implementations : List DropImplementation) where
    -- The bodies are those of these instances and of all that they need, each once.
    pub record IsClosed (roots : List Instance) (bs : List (MonomorphizedBody n)) : Type 0 where
      pub rooted : (x : Instance) → In x roots → In x (instances bs)
      pub closed : All (Made before registry implementations (instances bs)) bs
      pub once : Distinct (instances bs)

    pub drain-IsClosed :
        (fuel : ℕ) (p : Progress n) (bs : List (MonomorphizedBody n))
        → IsSound before registry implementations p
        → drain before registry implementations fuel p ≡ some (ok bs)
        → IsClosed p.pending bs
    unfolding drain
    drain-IsClosed zero p bs v e = absurd (cc)
    drain-IsClosed (suc fuel) p bs v e = elim (List-cases p.queue) [
      | inl empty ↦
          let q : p.output ≡ bs = cc (rw (empty, drain) at e) in
          let all : instances p.output ++ p.queue ≡ instances p.output =
            ap (λ z. instances p.output ++ z) empty ∙ append-nil (instances p.output) in
          let covered =
            λ (x : Instance) (m : In x p.pending). subst (In x) all ((v.tracked.same x).0 m) in
          subst (IsClosed p.pending) q (record {
            rooted = covered;
            closed =
                Made-mono before registry implementations p.pending (instances p.output) covered
                  p.output v.good;
            once = subst Distinct all v.tracked.distinct;
          })
      | inr (i, rest, more) ↦
          elim (Result-cases (specialize_instance before registry implementations i)) [
            | inr (x, failed) ↦ absurd (cc (rw (more, drain, failed, drain) at e))
            | inl ((body, found), done) ↦
                let (v', g) =
                  made-IsSound before registry implementations i rest body found p more done v in
                let p' = made before registry implementations i rest (body, found) p in
                let c = drain-IsClosed fuel p' bs v' (rw (more, drain, done, drain) at e) in
                record { rooted = λ x m. c.rooted x (g x m); closed = c.closed; once = c.once }
          ]
    ]
