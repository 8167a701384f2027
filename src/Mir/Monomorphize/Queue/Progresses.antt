-- ===== src/Mir/Monomorphize/Queue/Progresses.antt =====
-- What a round of the work queue keeps.
use typenative.Prelude.{
  ℕ, Bool, List, [], ◌∷◌, ◌++◌, ◌≡◌, ◌↔◌, inl, inr, refl, sym, ap, ◌∙◌, Bool-cases, append_assoc,
  All,
}
use mathlib.Core.Path.{subst}
use typenative.Mir.Syntax.{Body}
use typenative.Mir.Monomorphize.Instances.{DropImplementation, Instance, Registry, ok, has_instance}
use typenative.Mir.Monomorphize.Queue.{
  MonomorphizedBody, Progress, enqueue, enqueue_all, specialize_instance, made,
}
use typenative.Mir.Monomorphize.Queue.Members.{
  In, Distinct, In-append_left, In-append_right, In-append_split, Distinct-push, has_instance_iff,
  place_instance_iff,
}

-- the instances of the output
abbrev pub instances : {n : ℕ} → List (MonomorphizedBody n) → List Instance
instances [] = []
instances (b ∷ bs) = b.instance_of ∷ instances bs

pub instances-append :
    {n : ℕ} (bs cs : List (MonomorphizedBody n))
    → instances (bs ++ cs) ≡ instances bs ++ instances cs
instances-append [] cs = refl
instances-append (b ∷ bs) cs = ap (λ z. b.instance_of ∷ z) (instances-append bs cs)

-- The instances that were ever queued are those already taken from the queue, `taken`, and those that
-- wait, each once.
pub record IsTracked {n : ℕ} (taken : List Instance) (p : Progress n) : Type 0 where
  pub same : (x : Instance) → In x p.pending ↔ In x (taken ++ p.queue)
  pub distinct : Distinct (taken ++ p.queue)

module _ (before : Instance → Instance → Bool) {n : ℕ} where
  -- Nothing that was ever queued is forgotten, and nothing that was made changes.
  abbrev pub Grows : Progress n → Progress n → Type 0
  Grows p q = ((x : Instance) → In x p.pending → In x q.pending) × (q.output ≡ p.output)

  enqueue-IsTracked :
      (taken : List Instance) (i : Instance) (p : Progress n)
      → IsTracked taken p
      → IsTracked taken (enqueue before i p)
        × Grows p (enqueue before i p)
        × In i (enqueue before i p).pending
  unfolding enqueue
  enqueue-IsTracked taken i p t = elim (Bool-cases (has_instance i p.pending)) [
    | inl old ↦ rw old (t, (λ x m. m, refl), (has_instance_iff i p.pending).0 old)
    | inr new ↦
        let fresh : ¬ In i (taken ++ p.queue) =
          λ m. cc (new, (has_instance_iff i p.pending).1 ((t.same i).1 m)) in
        rw new (
          record {
            same = λ x. (
              λ m.
                  subst (In x) (append_assoc taken p.queue (i ∷ []))
                    (elim ((place_instance_iff before x i p.pending).0 m) [
                      | inl e ↦ In-append_right x (taken ++ p.queue) (i ∷ []) (inl e)
                      | inr k ↦ In-append_left x (taken ++ p.queue) (i ∷ []) ((t.same x).0 k)
                    ]),
              λ m.
                  (place_instance_iff before x i p.pending).1
                    (elim (In-append_split x (taken ++ p.queue) (i ∷ [])
                      (subst (In x) (sym (append_assoc taken p.queue (i ∷ []))) m)) [
                        | inl k ↦ inr ((t.same x).1 k)
                        | inr (inl e) ↦ inl e
                        | inr (inr k) ↦ absurd k
                      ]),
            );
            distinct =
                subst Distinct (append_assoc taken p.queue (i ∷ []))
                  (Distinct-push i (taken ++ p.queue) fresh t.distinct);
          },
          (λ x m. (place_instance_iff before x i p.pending).1 (inr m), refl),
          (place_instance_iff before i i p.pending).1 (inl refl),
        )
  ]

  enqueue_all-IsTracked :
      (taken found : List Instance) (p : Progress n)
      → IsTracked taken p
      → IsTracked taken (enqueue_all before found p)
        × Grows p (enqueue_all before found p)
        × ((x : Instance) → In x found → In x (enqueue_all before found p).pending)
  unfolding enqueue_all
  enqueue_all-IsTracked taken [] p t = (t, (λ x m. m, refl), λ x m. absurd m)
  enqueue_all-IsTracked taken (i ∷ found) p t =
      let (t', (g, o), m) = enqueue-IsTracked taken i p t in
      let (t'', (g', o'), m') = enqueue_all-IsTracked taken found (enqueue before i p) t' in
      (
        t'',
        (λ x k. g' x (g x k), o' ∙ o),
        λ x k. elim k [
          | inl e ↦ g' x (subst (λ z. In z (enqueue before i p).pending) (sym e) m)
          | inr k' ↦ m' x k'
        ],
      )

  enqueue_output : (i : Instance) (p : Progress n) → (enqueue before i p).output ≡ p.output
  unfolding enqueue
  enqueue_output i p = elim (Bool-cases (has_instance i p.pending)) [
    | inl old ↦ rw old refl
    | inr new ↦ rw new refl
  ]

  pub enqueue_all_output :
      (found : List Instance) (p : Progress n) → (enqueue_all before found p).output ≡ p.output
  unfolding enqueue_all
  enqueue_all_output [] p = refl
  enqueue_all_output (i ∷ found) p =
      enqueue_all_output found (enqueue before i p) ∙ enqueue_output i p

  module _ (registry : Registry n) (implementations : List DropImplementation) where
    -- A body is that of its instance, and all that it needs stands in the list.
    abbrev pub Made : List Instance → MonomorphizedBody n → Type 0
    Made known b =
        (found : List Instance) × (specialize_instance before registry implementations b.instance_of
          ≡ ok (b.body, found))
        × ((x : Instance) → In x found → In x known)

    pub Made-mono :
        (known known' : List Instance)
        → ((x : Instance) → In x known → In x known')
        → (bs : List (MonomorphizedBody n)) → All (Made known) bs
        → All (Made known') bs
    Made-mono known known' h [] all = tt
    Made-mono known known' h (b ∷ bs) ((found, e, m), all) =
        ((found, e, λ x k. h x (m x k)), Made-mono known known' h bs all)

    All-push :
        (known : List Instance) (bs : List (MonomorphizedBody n)) (b : MonomorphizedBody n)
        → All (Made known) bs
        → Made known b
        → All (Made known) (bs ++ b ∷ [])
    All-push known [] b all m = (m, tt)
    All-push known (c ∷ bs) b (k, all) m = (k, All-push known bs b all m)

    -- The state of the loop: the queue is tracked, and the output is made of what is known.
    pub record IsSound (p : Progress n) : Type 0 where
      pub tracked : IsTracked (instances p.output) p
      pub good : All (Made p.pending) p.output

    pub made-IsSound :
        (i : Instance) (rest : List Instance) (body : Body n) (found : List Instance)
        (p : Progress n)
        → p.queue ≡ i ∷ rest
        → specialize_instance before registry implementations i ≡ ok (body, found)
        → IsSound p
        → IsSound (made before registry implementations i rest (body, found) p)
          × ((x : Instance)
              → In x p.pending
              → In x (made before registry implementations i rest (body, found) p).pending)
    made-IsSound i rest body found p q e v =
        let p' : Progress n = record p { queue = rest } in
        let taken = instances p.output in
        let shift : taken ++ p.queue ≡ (taken ++ i ∷ []) ++ rest =
          ap (λ z. taken ++ z) q ∙ sym (append_assoc taken (i ∷ []) rest) in
        let t : IsTracked (taken ++ i ∷ []) p' = record {
          same = λ x. (
            λ m. subst (In x) shift ((v.tracked.same x).0 m),
            λ m. (v.tracked.same x).1 (subst (In x) (sym shift) m),
          );
          distinct = subst Distinct shift v.tracked.distinct;
        } in
        let (t', (g, o), m) = enqueue_all-IsTracked (taken ++ i ∷ []) found p' t in
        let after = enqueue_all before found p' in
        let b : MonomorphizedBody n = record { instance_of = i; body = body } in
        let known = after.pending in
        let outs : instances (after.output ++ b ∷ []) ≡ taken ++ i ∷ [] =
          ap (λ z. instances (z ++ b ∷ [])) o ∙ instances-append p.output (b ∷ []) in
        (
          record {
            tracked = record {
              same = λ x.
                  (subst (λ z. In x after.pending ↔ In x (z ++ after.queue)) (sym outs)
                    (t'.same x));
              distinct = subst (λ z. Distinct (z ++ after.queue)) (sym outs) t'.distinct;
            };
            good =
                All-push known after.output b
                  (subst (All (Made known)) (sym o) (Made-mono p.pending known g p.output v.good))
                  (found, e, m);
          },
          g,
        )
