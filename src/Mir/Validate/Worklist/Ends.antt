-- ===== src/Mir/Validate/Worklist/Ends.antt =====
-- The worklist loop of `validate_dataflow` ends: each round takes an index off the queue, and an
-- index enters it only when the state of its block becomes smaller.
use typenative.Prelude.{
  ℕ, zero, suc, ◌+◌, ◌≤◌, ◌<◌, false, List, [], ◌∷◌, ◌++◌, Option, none, some, ◌≡◌, ap, ◌∙◌,
  List-cases, inl, inr, arith, length, set, length-append, length-set, All, NatSet, Within,
  length-Within, intersection-shrinks, intersection-Within, Bool-cases,
}
use typenative.Mir.Validate.Worklist.{
  Flow, state_at, or_empty, merged, unchanged, flow_edge, flow_edges, round, loop,
}

-- What a state can still lose, where `k` bounds the locals.
abbrev pub potential : ℕ → Option NatSet → ℕ
potential k none = suc k
potential k (some s) = length s

abbrev pub potentials : ℕ → List (Option NatSet) → ℕ
potentials k [] = 0
potentials k (o ∷ os) = potential k o + potentials k os

abbrev pub StateWithin : ℕ → Option NatSet → Type 0
StateWithin k none = Unit
StateWithin k (some s) = Within 0 k s

abbrev pub EdgesWithin : ℕ → ℕ → List (ℕ × NatSet) → Type 0
EdgesWithin n k [] = Unit
EdgesWithin n k ((t, s) ∷ es) = ((t < n) × Within 0 k s) × EdgesWithin n k es

pub potentials-set :
    (k : ℕ) (ss : List (Option NatSet)) (t : ℕ) (s : NatSet)
    → t < length ss
    → potentials k (set ss t (some s)) + potential k (state_at ss t) ≡ potentials k ss + length s
potentials-set k [] t s h = absurd (omega arith)
potentials-set k (o ∷ ss) zero s h = omega arith
potentials-set k (o ∷ ss) (suc t) s h = omega (arith, potentials-set k ss t s (omega arith))

pub All-set :
    (k : ℕ) (ss : List (Option NatSet)) (t : ℕ) (s : NatSet)
    → All (StateWithin k) ss
    → Within 0 k s
    → All (StateWithin k) (set ss t (some s))
All-set k [] t s h w = tt
All-set k (o ∷ ss) zero s h w = (w, h.1)
All-set k (o ∷ ss) (suc t) s h w = (h.0, All-set k ss t s h.1 w)

pub state_at-Within :
    (k : ℕ) (ss : List (Option NatSet)) (t : ℕ)
    → All (StateWithin k) ss
    → StateWithin k (state_at ss t)
state_at-Within k [] t h = tt
state_at-Within k (o ∷ ss) zero h = h.0
state_at-Within k (o ∷ ss) (suc t) h = state_at-Within k ss t h.1

pub merged-Within :
    (k : ℕ) (o : Option NatSet) (s : NatSet)
    → StateWithin k o
    → Within 0 k s
    → Within 0 k (merged o s)
unfolding merged
merged-Within k none s h w = w
merged-Within k (some x) s h w = intersection-Within 0 k x s h

-- A state that changes has lost something.
pub merged-shrinks :
    (k : ℕ) (o : Option NatSet) (s : NatSet)
    → Within 0 k s
    → unchanged o (merged o s) ≡ false
    → suc (length (merged o s)) ≤ potential k o
unfolding merged unchanged
merged-shrinks k none s w h = omega (arith, length-Within 0 k s w)
merged-shrinks k (some x) s w h = elim (intersection-shrinks x s) [ inl e ↦ cc | inr l ↦ l ]

or_empty-Within : (k : ℕ) (o : Option NatSet) → StateWithin k o → Within 0 k (or_empty o)
or_empty-Within k none h = omega arith
or_empty-Within k (some s) h = h

module _ {E : Type 0} (n k : ℕ) where
  pub record IsFlow (f : Flow E) : Type 0 where
    pub sized : length f.states ≡ n
    pub within : All (StateWithin k) f.states

  abbrev pub measure : Flow E → ℕ
  measure f = length f.work + potentials k f.states

  flow_edge-IsFlow :
      (t : ℕ) (s : NatSet) (f : Flow E)
      → t < n
      → Within 0 k s
      → IsFlow f
      → IsFlow (flow_edge t s f) × (measure (flow_edge t s f) ≤ measure f)
  unfolding flow_edge
  flow_edge-IsFlow t s f h w v =
      elim (Bool-cases (unchanged (state_at f.states t) (merged (state_at f.states t) s))) [
        | inl same ↦ rw same (v, omega arith)
        | inr new ↦ rw new (
          record {
            sized = length-set f.states t (some next) ∙ v.sized;
            within = All-set k f.states t next v.within next_within;
          },
          omega (
            arith,
            length-append f.work (t ∷ []),
            potentials-set k f.states t next (omega (arith, v.sized)),
            merged-shrinks k (state_at f.states t) s w new,
          ),
        )
      ]
    where
      next : NatSet
      next = merged (state_at f.states t) s

      next_within : Within 0 k next
      next_within =
          merged-Within k (state_at f.states t) s (state_at-Within k f.states t v.within) w

  flow_edges-IsFlow :
      (es : List (ℕ × NatSet)) (f : Flow E)
      → EdgesWithin n k es
      → IsFlow f
      → IsFlow (flow_edges es f) × (measure (flow_edges es f) ≤ measure f)
  unfolding flow_edges
  flow_edges-IsFlow [] f h v = (v, omega arith)
  flow_edges-IsFlow ((t, s) ∷ es) f h v =
      let (v', l) = flow_edge-IsFlow t s f h.0.0 h.0.1 v in
      let (v'', l') = flow_edges-IsFlow es (flow_edge t s f) h.1 v' in (v'', omega arith)

  module _ (transfer : ℕ → NatSet → List (ℕ × NatSet) × List E)
      (bounded : (i : ℕ) (s : NatSet) → Within 0 k s → EdgesWithin n k (transfer i s).0) where
    pub round-IsFlow :
        (i : ℕ) (rest : List ℕ) (f : Flow E)
        → f.work ≡ i ∷ rest
        → IsFlow f
        → IsFlow (round transfer i rest f) × (suc (measure (round transfer i rest f)) ≤ measure f)
    unfolding round
    round-IsFlow i rest f e v =
        let s = or_empty (state_at f.states i) in
        let w = or_empty-Within k (state_at f.states i) (state_at-Within k f.states i v.within) in
        let f' : Flow E = record f { work = rest; errors = f.errors ++ (transfer i s).1 } in
        let (v', l) =
          flow_edges-IsFlow (transfer i s).0 f' (bounded i s w)
            (record { sized = v.sized; within = v.within }) in
        (v', omega (arith, ap length e))

    -- With the measure as fuel the loop ends by its own test.
    pub loop_ends :
        (fuel : ℕ) (f : Flow E) → IsFlow f → measure f ≤ fuel → (loop transfer fuel f).work ≡ []
    unfolding loop
    loop_ends zero f v h = elim (List-cases f.work) [
      | inl empty ↦ empty
      | inr (i, rest, e) ↦ absurd (omega (arith, ap length e))
    ]
    loop_ends (suc fuel) f v h = elim (List-cases f.work) [
      | inl empty ↦ rw (empty, loop) empty
      | inr (i, rest, e) ↦
          let (v', l) = round-IsFlow i rest f e v in
          rw (e, loop) (loop_ends fuel (round transfer i rest f) v' (omega arith))
    ]
