-- ===== src/Mir/Monomorphize/Queue/Correct.antt =====
-- What `monomorphize_with_drops` returns: exactly the bodies that the roots need, or the error of one.
use typenative.Prelude.{
  ℕ, zero, suc, Bool, true, false, List, [], ◌∷◌, ◌++◌, Option, none, some, ◌≡◌, inl, inr, refl,
  sym, List-cases, append-nil,
}
use mathlib.Core.Path.{subst}
use mathlib.Core.Option.{some-injective}
use typenative.Mir.Monomorphize.Instances.{
  GenericBody, DropImplementation, Instance, Registry, Result, ok, err, registry_from,
}
use typenative.Mir.Monomorphize.Queue.{
  MonomorphizedBody, Progress, specialize_instance, made, drain, initial_progress, sort_outputs,
  finish, monomorphize_with_drops,
}
use typenative.Mir.Monomorphize.Queue.Members.{In, In-append_right, extend_iff, extend-Distinct}
use typenative.Mir.Monomorphize.Queue.Progresses.{
  instances, IsTracked, Made, Made-mono, IsSound, made-IsSound,
}
use typenative.Mir.Monomorphize.Queue.Needed.{
  Needed, OnlyNeeded, Result-cases, made-OnlyNeeded, root,
}
use typenative.Mir.Monomorphize.Queue.Closed.{
  IsSorted, IsClosed, drain-IsClosed, sort_outputs-IsSorted, sort_outputs_iff,
  sort_outputs-Distinct, sort_outputs-All,
}

pub waiting_known :
    {n : ℕ} (taken rest : List Instance) (i : Instance) (p : Progress n)
    → IsTracked taken p
    → p.queue ≡ i ∷ rest
    → In i p.pending
waiting_known taken rest i p t e =
    (t.same i).1
      (subst (λ q. In i (taken ++ q)) (sym e) (In-append_right i taken (i ∷ rest) (inl refl)))

module _ (before : Instance → Instance → Bool) {n : ℕ} where
  pub initial_progress-IsTracked :
      (roots : List Instance) → IsTracked {n = n} [] (initial_progress before roots)
  initial_progress-IsTracked roots = record {
    same = λ x. (λ m. m, λ m. m);
    distinct = extend-Distinct before roots [] tt;
  }

  module _ (registry : Registry n) (implementations : List DropImplementation)
      (roots : List Instance) where
    pub initial_progress-IsSound :
        IsSound before registry implementations (initial_progress before roots)
    initial_progress-IsSound = record { tracked = initial_progress-IsTracked roots; good = tt }

    pub initial_progress-OnlyNeeded :
        OnlyNeeded before registry implementations roots (initial_progress before roots)
    initial_progress-OnlyNeeded x m = elim ((extend_iff before x roots []).0 m) [
      | inl k ↦ root k
      | inr k ↦ absurd k
    ]

    -- What the loop says: each body is needed, or there is an instance that is needed and fails.
    abbrev Answers : Result (List (MonomorphizedBody n)) → Type 0
    Answers (ok bs) =
        (x : Instance) → In x (instances bs) → Needed before registry implementations roots x
    Answers (err e) =
        (x : Instance) × Needed before registry implementations roots x
        × (specialize_instance before registry implementations x ≡ err e)

    drain-Answers :
        (fuel : ℕ) (p : Progress n) (r : Result (List (MonomorphizedBody n)))
        → IsSound before registry implementations p
        → OnlyNeeded before registry implementations roots p
        → drain before registry implementations fuel p ≡ some r
        → Answers r
    unfolding drain
    drain-Answers zero p r v only e = absurd (cc)
    drain-Answers (suc fuel) p r v only e = elim (List-cases p.queue) [
      | inl empty ↦
          let q : ok p.output ≡ r = cc (rw (empty, drain) at e) in
          subst Answers q (λ x m. only x (
            (v.tracked.same x).1 (
              subst (λ z. In x (instances p.output ++ z)) (sym empty)
                (subst (In x) (sym (append-nil (instances p.output))) m))))
      | inr (i, rest, more) ↦
          let known = waiting_known (instances p.output) rest i p v.tracked more in
          elim (Result-cases (specialize_instance before registry implementations i)) [
            | inr (x, failed) ↦
                let q : err x ≡ r = cc (rw (more, drain, failed, drain) at e) in
                subst Answers q (i, only i known, failed)
            | inl ((body, found), done) ↦
                let (v', _) =
                  made-IsSound before registry implementations i rest body found p more done v in
                drain-Answers fuel (made before registry implementations i rest (body, found) p) r
                  v'
                  (made-OnlyNeeded before registry implementations roots i rest body found p done
                    (only i known) only)
                  (rw (more, drain, done, drain) at e)
          ]
    ]

  -- The result of a run that ends: bodies for exactly the needed instances, each once, in order and
  -- specialized, or the error of an instance that is needed.
  abbrev pub IsAnswer :
      Registry n
      → List DropImplementation
      → List Instance
      → Result (List (MonomorphizedBody n))
      → Type 0
  IsAnswer registry implementations roots (ok bs) =
      IsClosed before registry implementations roots bs
      × ((x : Instance) → In x (instances bs) → Needed before registry implementations roots x)
      × IsSorted before bs
  IsAnswer registry implementations roots (err e) =
      (x : Instance) × Needed before registry implementations roots x
      × (specialize_instance before registry implementations x ≡ err e)

  finish-IsAnswer :
      (asym : (a b : Instance) → before a b ≡ true → before b a ≡ false) (registry : Registry n)
      (implementations : List DropImplementation) (roots : List Instance) (fuel : ℕ)
      (o : Option (Result (List (MonomorphizedBody n)))) (r : Result (List (MonomorphizedBody n)))
      → drain before registry implementations fuel (initial_progress before roots) ≡ o
      → finish before registry implementations o ≡ some r
      → IsAnswer registry implementations roots r
  finish-IsAnswer asym registry implementations roots fuel none r d e = absurd (cc)
  finish-IsAnswer asym registry implementations roots fuel (some (err x)) r d e =
      subst (IsAnswer registry implementations roots) (some-injective (err x) r e) (
        drain-Answers registry implementations roots fuel (initial_progress before roots) (err x)
          (initial_progress-IsSound registry implementations roots)
          (initial_progress-OnlyNeeded registry implementations roots) d)
  finish-IsAnswer asym registry implementations roots fuel (some (ok bs)) r d e =
      let sound = initial_progress-IsSound registry implementations roots in
      let c =
        drain-IsClosed before registry implementations fuel (initial_progress before roots) bs sound
          d in
      let needed =
        drain-Answers registry implementations roots fuel (initial_progress before roots) (ok bs)
          sound (initial_progress-OnlyNeeded registry implementations roots) d in
      subst (IsAnswer registry implementations roots)
        (some-injective (ok (sort_outputs before bs)) r e)
        (
          record {
            rooted = λ x m.
                (sort_outputs_iff before x bs).1
                  (c.rooted x ((extend_iff before x roots []).1 (inl m)));
            closed =
                Made-mono before registry implementations (instances bs)
                  (instances (sort_outputs before bs)) (λ x m. (sort_outputs_iff before x bs).1 m)
                  (sort_outputs before bs)
                  (sort_outputs-All before (Made before registry implementations (instances bs)) bs
                    c.closed);
            once = sort_outputs-Distinct before bs c.once;
          },
          (λ x m. needed x ((sort_outputs_iff before x bs).0 m)),
          sort_outputs-IsSorted before asym bs,
        )

-- Where the order of instances is asymmetric, a run that ends gives the bodies of exactly the instances
-- that the roots need, each once, in order, each one the specialization of its generic body; or it gives
-- the error of an instance that the roots need.
pub monomorphize_with_drops-IsAnswer :
    (before : Instance → Instance → Bool)
    → ((a b : Instance) → before a b ≡ true → before b a ≡ false)
    → {n : ℕ} (fuel : ℕ) (bodies : List (GenericBody n)) (roots : List Instance)
      (implementations : List DropImplementation) (r : Result (List (MonomorphizedBody n)))
    → monomorphize_with_drops before fuel bodies roots implementations ≡ some r
    → IsAnswer before (registry_from bodies []) implementations roots r
unfolding monomorphize_with_drops
monomorphize_with_drops-IsAnswer before asym fuel bodies roots implementations r e =
    finish-IsAnswer before asym (registry_from bodies []) implementations roots fuel
      (drain before (registry_from bodies []) implementations fuel (initial_progress before roots))
      r refl e
