-- ===== src/Mir/Validate/Worklist/Runs.antt =====
-- Runs of the blocks, each with the exact set of locals that its path has initialized, against the
-- states that the worklist loop of `validate_dataflow` ends with.
use typenative.Prelude.{
  ℕ, List, [], ◌∷◌, some, ◌≡◌, sym, ◌∙◌, inl, inr, ◌⊎◌, NatSet, contains, Subset, Option, true,
}
use mathlib.Core.Path.{subst}
use typenative.Mir.Validate.Worklist.{Flow, state_at}
use typenative.Mir.Validate.Worklist.Settles.{Covers, EdgesCovered, InRange, Inv, Settled}

abbrev pub EdgeIn : ℕ → NatSet → List (ℕ × NatSet) → Type 0
EdgeIn t o [] = ⊥
EdgeIn t o ((t', o') ∷ es) = ((t ≡ t') × (o ≡ o')) ⊎ EdgeIn t o es

-- The same targets, one by one, with smaller sets on the left.
abbrev pub EdgesBelow : List (ℕ × NatSet) → List (ℕ × NatSet) → Type 0
EdgesBelow [] [] = Unit
EdgesBelow ((t, o) ∷ es) ((t', o') ∷ es') = ((t ≡ t') × Subset o o') × EdgesBelow es es'
EdgesBelow _ _ = ⊥

module _ {E : Type 0} (transfer : ℕ → NatSet → List (ℕ × NatSet) × List E) where
  -- The blocks that some path reaches from block 0, with the set that the path initializes.
  pub data Run (entry : NatSet) : ℕ → NatSet → Type 0 where
    start : {i : ℕ} {s : NatSet} → i ≡ 0 → s ≡ entry → Run entry i s
    step : {i t : ℕ} {s o : NatSet} → Run entry i s → EdgeIn t o (transfer i s).0 → Run entry t o

EdgesCovered-EdgeIn :
    (ss : List (Option NatSet)) (t : ℕ) (o : NatSet) (es es' : List (ℕ × NatSet))
    → EdgesCovered ss es
    → EdgesBelow es es'
    → EdgeIn t o es'
    → Covers ss t o
EdgesCovered-EdgeIn ss t o [] [] c b m = absurd m
EdgesCovered-EdgeIn ss t o ((x, p) ∷ es) ((y, q) ∷ es') c b (inl here) =
    let (s, e, below) = c.0 in
    (
      s,
      subst (λ z. state_at ss z ≡ some s) (b.0.0 ∙ sym here.0) e,
      λ k h. subst (λ z. contains k z ≡ true) (sym here.1) (b.0.1 k (below k h)),
    )
EdgesCovered-EdgeIn ss t o ((x, p) ∷ es) ((y, q) ∷ es') c b (inr later) =
    EdgesCovered-EdgeIn ss t o es es' c.1 b.1 later
EdgesCovered-EdgeIn ss t o es es' c b m = absurd b

module _ {E : Type 0} (n : ℕ) (transfer : ℕ → NatSet → List (ℕ × NatSet) × List E)
    (in_range : (i : ℕ) (s : NatSet) → InRange n (transfer i s).0)
    (monotone : (i : ℕ) (s c : NatSet)
      → Subset s c
      → (transfer i s).1 ≡ []
      → ((transfer i c).1 ≡ []) × EdgesBelow (transfer i s).0 (transfer i c).0)
    (entry : NatSet) (f : Flow E) (inv : Inv n transfer in_range entry f) (ended : f.work ≡ [])
    (accepted : f.errors ≡ []) where
  Settled-at :
      (i : ℕ) (s : NatSet) → state_at f.states i ≡ some s → Settled n transfer in_range f i s
  unfolding contains
  Settled-at i s e = elim (inv.settled i s e) [
    | inl queued ↦ absurd (no_work f.work ended queued)
    | inr done ↦ done
  ]
    where
      no_work : (w : List ℕ) → w ≡ [] → contains i w ≡ true → ⊥
      no_work [] p h = cc
      no_work (x ∷ w) p h = cc

  -- The state of each block is part of what any run enters the block with.
  Run-Covers : {i : ℕ} {c : NatSet} → Run transfer entry i c → Covers f.states i c
  Run-Covers (start {i} {s} p q) =
      subst (λ z. Covers f.states z s) (sym p) (subst (Covers f.states 0) (sym q) inv.entered)
  Run-Covers (step {i} {t} {s = c} {o} r m) =
      let (s, e, below) = Run-Covers r in
      let done = Settled-at i s e in
      EdgesCovered-EdgeIn f.states t o (transfer i s).0 (transfer i c).0 done.1
        (monotone i s c below (done.0 accepted)).1 m

  pub Run-clean : {i : ℕ} {c : NatSet} → Run transfer entry i c → (transfer i c).1 ≡ []
  Run-clean {i} {c} r =
      let (s, e, below) = Run-Covers r in (monotone i s c below ((Settled-at i s e).0 accepted)).0
