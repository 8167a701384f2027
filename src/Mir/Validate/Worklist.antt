-- ===== src/Mir/Validate/Worklist.antt =====
-- The `while` loop of `validate_dataflow`, over what one round reads of a block: `transfer i s` are
-- the states that block `i`, entered with `s`, passes to its targets, and the errors it reports.
pub mod Ends
pub mod Settles
pub mod Runs
use typenative.Prelude.{
  ℕ, zero, suc, Bool, false, List, [], ◌∷◌, ◌++◌, Option, none, some, if◌then◌else◌, set, NatSet,
  intersection, set_eq,
}

-- `states` are the entry states, and `work` is the queue.
pub record Flow (E : Type 0) : Type 0 where
  pub states : List (Option NatSet)
  pub work : List ℕ
  pub errors : List E

-- A block has no state yet (`None`, or an index out of range), or the one it was given.
abbrev pub state_at : List (Option NatSet) → ℕ → Option NatSet
state_at [] i = none
state_at (s ∷ ss) zero = s
state_at (s ∷ ss) (suc i) = state_at ss i

-- `unwrap_or_default`
abbrev pub or_empty : Option NatSet → NatSet
or_empty none = []
or_empty (some s) = s

-- the new state of a target
unfoldable pub merged : Option NatSet → NatSet → NatSet
unfolding intersection
merged none outgoing = outgoing
merged (some existing) outgoing = intersection existing outgoing

-- `entry_states[target].as_ref() != Some(&next)`, negated
unfoldable pub unchanged : Option NatSet → NatSet → Bool
unfolding set_eq
unchanged none next = false
unchanged (some existing) next = set_eq existing next

-- The state reaches a target, which is queued again if its own state changes by it.
unfoldable pub flow_edge : {E : Type 0} → ℕ → NatSet → Flow E → Flow E
unfolding merged unchanged
flow_edge t outgoing f =
    let next = merged (state_at f.states t) outgoing in
    if unchanged (state_at f.states t) next
    then f
    else record f { states = set f.states t (some next); work = f.work ++ t ∷ [] }

unfoldable pub flow_edges : {E : Type 0} → List (ℕ × NatSet) → Flow E → Flow E
unfolding flow_edge
flow_edges [] f = f
flow_edges ((t, outgoing) ∷ es) f = flow_edges es (flow_edge t outgoing f)

module _ {E : Type 0} (transfer : ℕ → NatSet → List (ℕ × NatSet) × List E) where
  -- one round, after the block left the queue
  unfoldable pub round : ℕ → List ℕ → Flow E → Flow E
  unfolding flow_edges
  round i rest f =
      let out = transfer i (or_empty (state_at f.states i)) in
      flow_edges (out.0) (record f { work = rest; errors = f.errors ++ out.1 })

  unfoldable pub loop : ℕ → Flow E → Flow E
  unfolding round
  loop zero f = f
  loop (suc fuel) f = elim (f.work) [ [] ↦ f | i ∷ rest ↦ loop fuel (round i rest f) ]
