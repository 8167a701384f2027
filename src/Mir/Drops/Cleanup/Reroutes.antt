-- ===== src/Mir/Drops/Cleanup/Reroutes.antt =====
-- What `rewrite_scope_exit_edges` makes of the edges of a terminator.
use typenative.Prelude.{
  ℕ, ◌≤◌, true, List, [], ◌∷◌, Option, none, some, ◌≡◌, refl, length, get_elem?, NatSet, Among,
  contains, contains_iff, Among-false, Bool-cases, inl, inr,
}
use mathlib.Core.List.{reverse}
use typenative.Diagnostics.{SourceSpan}
use typenative.Mir.Syntax.{
  LocalId, BasicBlockId, Place, set_drop_flag, TerminatorKind, goto, switch, call, return, throw,
  tagged_return, suspend, drop, abort, unreachable, BasicBlock,
}
use typenative.Mir.Drops.Cleanup.{entry_at, active_droppable, leaving, initialize_edge_destination}
use typenative.Mir.Drops.Cleanup.Chains.{
  Keeps, Grown, Grown-refl, append-Grown, get_elem?-pushed, Drops, Drops-Keeps,
}

-- `ls` are those of `ds` of which this holds, in the same order.
pub data Picks (P : LocalId → Type 0) : List LocalId → List LocalId → Type 0 where
  ends : Picks P [] []
  takes : {l : LocalId} {ds ls : List LocalId} → P l → Picks P ds ls → Picks P (l ∷ ds) (l ∷ ls)
  passes : {l : LocalId} {ds ls : List LocalId} → (¬ P l) → Picks P ds ls → Picks P (l ∷ ds) ls

pub active_droppable-Picks :
    (active : NatSet) (ds : List LocalId)
    → Picks (λ l. Among l active) ds (active_droppable active ds)
unfolding active_droppable
active_droppable-Picks active [] = ends
active_droppable-Picks active (l ∷ ds) = elim (Bool-cases (contains l active)) [
  | inl here ↦
      rw (here, active_droppable)
        (takes ((contains_iff l active).0 here) (active_droppable-Picks active ds))
  | inr out ↦
      rw (out, active_droppable)
        (passes (Among-false l active out) (active_droppable-Picks active ds))
]

pub leaving-Picks :
    (active entry : NatSet) (ds : List LocalId)
    → Picks (λ l. Among l active × (¬ Among l entry)) ds (leaving active entry ds)
unfolding leaving
leaving-Picks active entry [] = ends
leaving-Picks active entry (l ∷ ds) = elim (Bool-cases (contains l active)) [
  | inr out ↦
      rw (out, leaving) (passes (λ p. Among-false l active out p.0) (leaving-Picks active entry ds))
  | inl here ↦ elim (Bool-cases (contains l entry)) [
    | inl stays ↦
        rw (here, stays, leaving)
          (passes (λ p. p.1 ((contains_iff l entry).0 stays)) (leaving-Picks active entry ds))
    | inr leaves ↦
        rw (here, leaves, leaving)
          (takes ((contains_iff l active).0 here, Among-false l entry leaves)
            (leaving-Picks active entry ds))
  ]
]

module _ {B : Type 0} (n : ℕ) where
  pub Grown-Keeps : (bs bs' : List (BasicBlock B)) → Grown bs bs' → Keeps (λ k. n ≤ k) bs bs'
  Grown-Keeps bs bs' g j b h e = g.1 j b tt e

  -- Block `i` sets the drop flag of the destination and goes to block `j`; without a destination it
  -- is that block.
  abbrev pub Initializes : List (BasicBlock B) → BasicBlockId → Option Place → BasicBlockId → Type 0
  Initializes bs i none j = i ≡ j
  Initializes bs i (some p) j =
      (n ≤ i)
      × (span : SourceSpan) × (get_elem? bs i
          ≡ some (record {
            statements = record { kind = set_drop_flag p true; span = span } ∷ [];
            terminator = record { kind = goto j; span = span };
          }))

  Initializes-Keeps :
      (bs bs' : List (BasicBlock B)) (i j : ℕ) (d : Option Place)
      → Keeps (λ k. n ≤ k) bs bs'
      → Initializes bs i d j
      → Initializes bs' i d j
  Initializes-Keeps bs bs' i j none keeps e = e
  Initializes-Keeps bs bs' i j (some p) keeps (h, span, e) = (h, span, keeps i _ h e)

  pub initialize_edge_destination-Initializes :
      (d : Option Place) (t : BasicBlockId) (span : SourceSpan) (bs : List (BasicBlock B))
      → n ≤ length bs
      → Grown bs (initialize_edge_destination d t span bs).1
        × Initializes
            (initialize_edge_destination d t span bs).1
            (initialize_edge_destination d t span bs).0
            d
            t
  unfolding initialize_edge_destination
  initialize_edge_destination-Initializes none t span bs h = (Grown-refl bs, refl)
  initialize_edge_destination-Initializes (some p) t span bs h =
      (append-Grown bs _, (h, span, get_elem?-pushed bs _))

  module _ (entries : List NatSet) (active : NatSet) (droppable : List LocalId) where
    -- The way from block `i` drops the droppable locals that are active here and not where block `t`
    -- begins, from the last local to the first, and reaches block `t`.
    abbrev pub Leaves : List (BasicBlock B) → BasicBlockId → BasicBlockId → Type 0
    Leaves bs i t =
        (ls : List LocalId) × Picks (λ l. Among l active × (¬ Among l (entry_at entries t)))
          droppable ls
        × Drops n bs i (reverse ls) t

    -- The way from block `i` drops the droppable locals that are active here, from the last local to
    -- the first, and reaches block `t`.
    abbrev pub LeavesAllActive : List (BasicBlock B) → BasicBlockId → BasicBlockId → Type 0
    LeavesAllActive bs i t =
        (ls : List LocalId) × Picks (λ l. Among l active) droppable ls × Drops n bs i (reverse ls) t

    -- The same, after the flag of the destination is set.
    abbrev pub LeavesInto :
        List (BasicBlock B) → BasicBlockId → Option Place → BasicBlockId → Type 0
    LeavesInto bs i d t = (middle : BasicBlockId) × Initializes bs i d middle × Leaves bs middle t

    abbrev pub LeavesError :
        List (BasicBlock B) → Option BasicBlockId → Option Place → Option BasicBlockId → Type 0
    LeavesError bs none d none = Unit
    LeavesError bs (some i) d (some t) = LeavesInto bs i d t
    LeavesError bs _ d _ = ⊥

    abbrev pub LeavesAll :
        List (BasicBlock B) → List (ℕ × BasicBlockId) → List (ℕ × BasicBlockId) → Type 0
    LeavesAll bs [] [] = Unit
    LeavesAll bs ((v', t') ∷ ts') ((v, t) ∷ ts) = (v' ≡ v) × Leaves bs t' t × LeavesAll bs ts' ts
    LeavesAll bs _ _ = ⊥

    -- A terminator differs from another one in its edges, each of which leads to its old target by way
    -- of the drops that its scope exit needs.
    abbrev pub Rerouted : List (BasicBlock B) → TerminatorKind → TerminatorKind → Type 0
    Rerouted bs k' (goto t) = (t' : BasicBlockId) × (k' ≡ goto t') × Leaves bs t' t
    Rerouted bs k' (switch value ts o) =
        (ts' : List (ℕ × BasicBlockId)) × (o' : BasicBlockId) × (k' ≡ switch value ts' o')
        × LeavesAll bs ts' ts
        × Leaves bs o' o
    Rerouted bs k' (call f receiver arguments d e s r) =
        (s' : BasicBlockId) × (r' : Option BasicBlockId) × (k'
          ≡ call f receiver arguments d e s' r')
        × LeavesInto bs s' d s
        × LeavesError bs r' e r
    Rerouted bs k' (suspend value d e s r c) =
        (s' : BasicBlockId) × (r' : Option BasicBlockId) × (c' : BasicBlockId) × (k'
          ≡ suspend value d e s' r' c')
        × LeavesInto bs s' d s
        × LeavesError bs r' e r
        × LeavesAllActive bs c' c
    Rerouted bs k' k = k' ≡ k

    module _ (bs bs' : List (BasicBlock B)) (keeps : Keeps (λ k. n ≤ k) bs bs') where
      pub Leaves-Keeps : (i t : ℕ) → Leaves bs i t → Leaves bs' i t
      Leaves-Keeps i t (ls, p, d) = (ls, p, Drops-Keeps n bs bs' i t (reverse ls) keeps d)

      pub LeavesAllActive-Keeps : (i t : ℕ) → LeavesAllActive bs i t → LeavesAllActive bs' i t
      LeavesAllActive-Keeps i t (ls, p, d) = (ls, p, Drops-Keeps n bs bs' i t (reverse ls) keeps d)

      pub LeavesInto-Keeps :
          (i t : ℕ) (d : Option Place) → LeavesInto bs i d t → LeavesInto bs' i d t
      LeavesInto-Keeps i t d (m, a, l) =
          (m, Initializes-Keeps bs bs' i m d keeps a, Leaves-Keeps m t l)

      pub LeavesError-Keeps :
          (r' : Option ℕ) (d : Option Place) (r : Option ℕ)
          → LeavesError bs r' d r
          → LeavesError bs' r' d r
      LeavesError-Keeps none d none h = tt
      LeavesError-Keeps (some i) d (some t) h = LeavesInto-Keeps i t d h
      LeavesError-Keeps none d (some t) h = h
      LeavesError-Keeps (some i) d none h = h

      pub LeavesAll-Keeps :
          (ts' ts : List (ℕ × BasicBlockId)) → LeavesAll bs ts' ts → LeavesAll bs' ts' ts
      LeavesAll-Keeps [] [] h = tt
      LeavesAll-Keeps ((v', t') ∷ ts') ((v, t) ∷ ts) (e, l, h) =
          (e, Leaves-Keeps t' t l, LeavesAll-Keeps ts' ts h)
      LeavesAll-Keeps [] (t ∷ ts) h = h
      LeavesAll-Keeps (t ∷ ts) [] h = h

      pub Rerouted-Keeps : (k' k : TerminatorKind) → Rerouted bs k' k → Rerouted bs' k' k
      Rerouted-Keeps k' (goto t) (t', e, l) = (t', e, Leaves-Keeps t' t l)
      Rerouted-Keeps k' (switch value ts o) (ts', o', e, ls, l) =
          (ts', o', e, LeavesAll-Keeps ts' ts ls, Leaves-Keeps o' o l)
      Rerouted-Keeps k' (call f receiver arguments d e s r) (s', r', q, l, l') =
          (s', r', q, LeavesInto-Keeps s' s d l, LeavesError-Keeps r' e r l')
      Rerouted-Keeps k' (suspend value d e s r c) (s', r', c', q, l, l', l'') = (
        s',
        r',
        c',
        q,
        LeavesInto-Keeps s' s d l,
        LeavesError-Keeps r' e r l',
        LeavesAllActive-Keeps c' c l'',
      )
      Rerouted-Keeps k' (return payload) h = h
      Rerouted-Keeps k' (throw payload) h = h
      Rerouted-Keeps k' (tagged_return c payload) h = h
      Rerouted-Keeps k' (drop p t) h = h
      Rerouted-Keeps k' (abort x) h = h
      Rerouted-Keeps k' unreachable h = h
