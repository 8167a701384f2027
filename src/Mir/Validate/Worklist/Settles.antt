-- ===== src/Mir/Validate/Worklist/Settles.antt =====
-- Where the worklist loop ends with no error, its states are a fixed point: each block that has a
-- state reports nothing from it, and passes it on to its targets. So no run of the blocks reports
-- an error.
use typenative.Prelude.{
  ℕ, zero, suc, ◌<◌, true, false, ◌||◌, List, [], ◌∷◌, ◌++◌, Option, none, some, ◌≡◌, refl, ap, sym,
  ◌∙◌, inl, inr, ◌⊎◌, arith, ◌==◌, ==_iff, length, set, NatSet, contains, Subset, Subset-refl,
  Subset-trans, intersection, set_eq_sound, Subset-intersection_left, Subset-intersection_right,
  Bool-cases, List-cases, length-set,
}
use mathlib.Core.Path.{subst}
use mathlib.Core.Option.{some-injective}
use typenative.Mir.Validate.Worklist.{
  Flow, state_at, or_empty, merged, unchanged, flow_edge, flow_edges, round, loop,
}

-- The block has a state, and it is part of `o`.
abbrev pub Covers : List (Option NatSet) → ℕ → NatSet → Type 0
Covers ss t o = (s : NatSet) × (state_at ss t ≡ some s) × Subset s o

-- States are only refined.
abbrev pub Refines : List (Option NatSet) → List (Option NatSet) → Type 0
Refines ss ss' = (t : ℕ) (s : NatSet) → state_at ss t ≡ some s → Covers ss' t s

abbrev pub EdgesCovered : List (Option NatSet) → List (ℕ × NatSet) → Type 0
EdgesCovered ss [] = Unit
EdgesCovered ss ((t, o) ∷ es) = Covers ss t o × EdgesCovered ss es

-- Every edge leads to a block below `n`.
abbrev pub InRange : ℕ → List (ℕ × NatSet) → Type 0
InRange n [] = Unit
InRange n ((t, o) ∷ es) = (t < n) × InRange n es

append-eq-nil : {A : Type 0} (xs ys : List A) → xs ++ ys ≡ [] → (xs ≡ []) × (ys ≡ [])
append-eq-nil [] ys h = (refl, h)
append-eq-nil (x ∷ xs) ys h = absurd (cc)

cons_split :
    (j x i : ℕ) (xs rest : List ℕ)
    → x ∷ xs ≡ i ∷ rest
    → (j ≡ x) ⊎ (contains j xs ≡ true)
    → (j ≡ i) ⊎ (contains j rest ≡ true)
cons_split j x i xs rest e (inl h) = inl (cc)
cons_split j x i xs rest e (inr h) = inr (cc)

contains-cons :
    (j i : ℕ) (rest work : List ℕ)
    → work ≡ i ∷ rest
    → contains j work ≡ true
    → (j ≡ i) ⊎ (contains j rest ≡ true)
unfolding contains
contains-cons j i rest [] e h = cc
contains-cons j i rest (x ∷ xs) e h =
    let split : (j ≡ x) ⊎ (contains j xs ≡ true) = ground (arith, ==_iff j x) in
    cons_split j x i xs rest e split

pub Refines-Covers :
    (ss ss' : List (Option NatSet)) (t : ℕ) (o : NatSet)
    → Refines ss ss'
    → Covers ss t o
    → Covers ss' t o
Refines-Covers ss ss' t o r (s, e, b) =
    let (s', e', b') = r t s e in (s', e', Subset-trans s' s o b' b)

pub Refines-refl : (ss : List (Option NatSet)) → Refines ss ss
Refines-refl ss t s e = (s, e, Subset-refl s)

pub Refines-trans : (a b c : List (Option NatSet)) → Refines a b → Refines b c → Refines a c
Refines-trans a b c r q t s e = Refines-Covers b c t s q (r t s e)

Refines-EdgesCovered :
    (ss ss' : List (Option NatSet)) (es : List (ℕ × NatSet))
    → Refines ss ss'
    → EdgesCovered ss es
    → EdgesCovered ss' es
Refines-EdgesCovered ss ss' [] r h = tt
Refines-EdgesCovered ss ss' ((t, o) ∷ es) r h =
    (Refines-Covers ss ss' t o r h.0, Refines-EdgesCovered ss ss' es r h.1)

pub state_at-set_self :
    (ss : List (Option NatSet)) (t : ℕ) (o : Option NatSet)
    → t < length ss
    → state_at (set ss t o) t ≡ o
state_at-set_self [] t o h = absurd (omega arith)
state_at-set_self (s ∷ ss) zero o h = refl
state_at-set_self (s ∷ ss) (suc t) o h = state_at-set_self ss t o (omega arith)

pub state_at-set_ne :
    (ss : List (Option NatSet)) (t j : ℕ) (o : Option NatSet)
    → (j == t) ≡ false
    → state_at (set ss t o) j ≡ state_at ss j
state_at-set_ne [] t j o h = refl
state_at-set_ne (s ∷ ss) zero zero o h = ground arith
state_at-set_ne (s ∷ ss) zero (suc j) o h = refl
state_at-set_ne (s ∷ ss) (suc t) zero o h = refl
state_at-set_ne (s ∷ ss) (suc t) (suc j) o h = state_at-set_ne ss t j o (ground arith)

contains-concat : (j t : ℕ) (xs : List ℕ) → contains j (xs ++ t ∷ []) ≡ (contains j xs || j == t)
unfolding contains
contains-concat j t [] = ground arith
contains-concat j t (x ∷ xs) = ground (arith, contains-concat j t xs)

pub merged-Subset : (o : Option NatSet) (s : NatSet) → Subset (merged o s) s
unfolding merged
merged-Subset none s = Subset-refl s
merged-Subset (some x) s = Subset-intersection_right x s

pub merged-Subset_old : (o : Option NatSet) (x s : NatSet) → o ≡ some x → Subset (merged o s) x
unfolding merged
merged-Subset_old none x s e = absurd (cc)
merged-Subset_old (some y) x s e =
    subst (Subset (intersection y s)) (some-injective y x e) (Subset-intersection_left y s)

pub unchanged-eq : (o : Option NatSet) (next : NatSet) → unchanged o next ≡ true → o ≡ some next
unfolding unchanged
unchanged-eq none next h = absurd (cc)
unchanged-eq (some x) next h = ap some (set_eq_sound x next h)

module _ {E : Type 0} where
  -- From one flow to a later one: states are refined, a block whose state differs is queued, and
  -- what is queued stays queued.
  pub record Follows (f g : Flow E) : Type 0 where
    pub sized : length g.states ≡ length f.states
    pub refines : Refines f.states g.states
    pub queued : (j : ℕ) → (state_at g.states j ≡ state_at f.states j) ⊎ (contains j g.work ≡ true)
    pub keeps : (j : ℕ) → contains j f.work ≡ true → contains j g.work ≡ true
    pub errors_same : g.errors ≡ f.errors

  Follows-refl : (f : Flow E) → Follows f f
  Follows-refl f = record {
    sized = refl;
    refines = Refines-refl f.states;
    queued = λ j. inl refl;
    keeps = λ j h. h;
    errors_same = refl;
  }

  Follows-trans : (f g h : Flow E) → Follows f g → Follows g h → Follows f h
  Follows-trans f g h a b = record {
    sized = b.sized ∙ a.sized;
    refines = Refines-trans f.states g.states h.states a.refines b.refines;
    queued = λ j. elim (b.queued j) [
      | inr q ↦ inr q
      | inl e ↦ elim (a.queued j) [ inr q ↦ inr (b.keeps j q) | inl e' ↦ inl (e ∙ e') ]
    ];
    keeps = λ j q. b.keeps j (a.keeps j q);
    errors_same = b.errors_same ∙ a.errors_same;
  }

  flow_edge-Follows :
      (t : ℕ) (o : NatSet) (f : Flow E)
      → t < length f.states
      → Follows f (flow_edge t o f) × Covers (flow_edge t o f).states t o
  unfolding flow_edge
  flow_edge-Follows t o f h =
      elim (Bool-cases (unchanged (state_at f.states t) (merged (state_at f.states t) o))) [
        | inl same ↦
            rw same (Follows-refl f, (next, unchanged-eq (state_at f.states t) next same, below))
        | inr new ↦ rw new (
          record {
            sized = length-set f.states t (some next);
            refines = λ j s e. refined j s e (Bool-cases (j == t));
            queued = λ j. elim (Bool-cases (j == t)) [
              | inl e ↦ inr (ground (arith, contains-concat j t f.work))
              | inr d ↦ inl (state_at-set_ne f.states t j (some next) d)
            ];
            keeps = λ j q. ground (arith, contains-concat j t f.work);
            errors_same = refl;
          },
          (next, state_at-set_self f.states t (some next) h, below),
        )
      ]
    where
      next : NatSet
      next = merged (state_at f.states t) o

      below : Subset next o
      below = merged-Subset (state_at f.states t) o

      refined :
          (j : ℕ) (s : NatSet)
          → state_at f.states j ≡ some s
          → ((j == t) ≡ true) ⊎ ((j == t) ≡ false)
          → Covers (set f.states t (some next)) j s
      refined j s e (inl same) =
          let q = (==_iff j t).0 same in
          subst (λ z. Covers (set f.states t (some next)) z s) (sym q)
            (
              next,
              state_at-set_self f.states t (some next) h,
              merged-Subset_old (state_at f.states t) s o
                  (subst (λ z. state_at f.states z ≡ some s) q e),
            )
      refined j s e (inr other) =
          (s, state_at-set_ne f.states t j (some next) other ∙ e, Subset-refl s)

  flow_edges-Follows :
      (es : List (ℕ × NatSet)) (f : Flow E)
      → InRange (length f.states) es
      → Follows f (flow_edges es f) × EdgesCovered (flow_edges es f).states es
  unfolding flow_edges
  flow_edges-Follows [] f h = (Follows-refl f, tt)
  flow_edges-Follows ((t, o) ∷ es) f h =
      let g = flow_edge t o f in
      let (a, covers) = flow_edge-Follows t o f h.0 in
      let (b, rest) = flow_edges-Follows es g (subst (λ n. InRange n es) (sym a.sized) h.1) in
      (
        Follows-trans f g (flow_edges es g) a b,
        (Refines-Covers g.states (flow_edges es g).states t o b.refines covers, rest),
      )

  module _ (n : ℕ) (transfer : ℕ → NatSet → List (ℕ × NatSet) × List E)
      (in_range : (i : ℕ) (s : NatSet) → InRange n (transfer i s).0) where
    -- The block has passed its state on, and reported no error that the flow does not hold.
    abbrev pub Settled : Flow E → ℕ → NatSet → Type 0
    Settled f i s = (f.errors ≡ [] → (transfer i s).1 ≡ []) × EdgesCovered f.states (transfer i s).0

    pub record Inv (entry : NatSet) (f : Flow E) : Type 0 where
      pub sized : length f.states ≡ n
      pub entered : Covers f.states 0 entry
      pub settled :
          (i : ℕ) (s : NatSet)
          → state_at f.states i ≡ some s
          → (contains i f.work ≡ true) ⊎ Settled f i s

    round-Inv :
        (entry : NatSet) (i : ℕ) (rest : List ℕ) (f : Flow E)
        → f.work ≡ i ∷ rest
        → Inv entry f
        → Inv entry (round transfer i rest f)
    unfolding round
    round-Inv entry i rest f e v = record {
      sized = follows.0.sized ∙ v.sized;
      entered = Refines-Covers f.states g.states 0 entry follows.0.refines v.entered;
      settled = λ j s q. elim (follows.0.queued j) [
        | inr queued ↦ inl queued
        | inl same ↦ kept j s (sym same ∙ q) (v.settled j s (sym same ∙ q))
      ];
    }
      where
        out : List (ℕ × NatSet) × List E
        out = transfer i (or_empty (state_at f.states i))

        f' : Flow E
        f' = record f { work = rest; errors = f.errors ++ out.1 }

        g : Flow E
        g = flow_edges (out.0) f'

        follows : Follows f' g × EdgesCovered g.states out.0
        follows = flow_edges-Follows (out.0) f' (
            subst (λ m. InRange m out.0) (sym v.sized)
              (in_range i (or_empty (state_at f.states i))))

        no_errors : g.errors ≡ [] → (f.errors ≡ []) × (out.1 ≡ [])
        no_errors h = append-eq-nil f.errors (out.1) (sym follows.0.errors_same ∙ h)

        fresh : (s : NatSet) → state_at f.states i ≡ some s → Settled g i s
        fresh s q = subst (Settled g i) (ap or_empty q) (λ h. (no_errors h).1, follows.1)

        kept :
            (j : ℕ) (s : NatSet)
            → state_at f.states j ≡ some s
            → (contains j f.work ≡ true) ⊎ Settled f j s
            → (contains j g.work ≡ true) ⊎ Settled g j s
        kept j s q (inl queued) = elim (contains-cons j i rest f.work e queued) [
          | inl same ↦ inr (
              subst (λ z. Settled g z s) (sym same)
                (fresh s (subst (λ z. state_at f.states z ≡ some s) same q)))
          | inr later ↦ inl (follows.0.keeps j later)
        ]
        kept j s q (inr old) = inr (
          λ h. old.0 (no_errors h).0,
          Refines-EdgesCovered f.states g.states (transfer j s).0 follows.0.refines old.1,
        )

    -- The loop keeps the invariant for as long as it runs.
    pub loop-Inv :
        (entry : NatSet) (fuel : ℕ) (f : Flow E) → Inv entry f → Inv entry (loop transfer fuel f)
    unfolding loop
    loop-Inv entry zero f v = v
    loop-Inv entry (suc fuel) f v = elim (List-cases f.work) [
      | inl empty ↦ rw (empty, loop) v
      | inr (i, rest, e) ↦
          rw (e, loop)
            (loop-Inv entry fuel (round transfer i rest f) (round-Inv entry i rest f e v))
    ]
