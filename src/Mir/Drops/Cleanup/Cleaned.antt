-- ===== src/Mir/Drops/Cleanup/Cleaned.antt =====
-- What the loop of `elaborate_drops` over the blocks makes of each of them.
use typenative.Prelude.{
  ℕ, ◌<◌, ◌≤◌, Bool, true, false, List, [], ◌∷◌, ◌++◌, some, ◌≡◌, refl, ap, ◌≢◌, arith, length,
  get_elem?, NatSet,
}
use mathlib.Core.List.{reverse}
use typenative.Mir.Syntax.{
  LocalId, BasicBlockId, TerminatorKind, goto, switch, call, return, throw, tagged_return, suspend,
  drop, abort, unreachable, BasicBlock,
}
use typenative.Mir.Drops.Storage.{modify, set_terminator}
use typenative.Mir.Drops.Cleanup.{
  is_exit, active_droppable, rewrite_kind, rewrite_terminator, rewrite_scope_exit_edges,
  cleanup_chain, exit_cleanup,
}
use typenative.Mir.Drops.Cleanup.Chains.{
  Keeps, Grown, Grown-trans, append-Grown, get_elem?-pushed, get_elem?-modify, length-modify,
  modify-Keeps, Drops-Keeps, cleanup_chain-Drops,
}
use typenative.Mir.Drops.Cleanup.Reroutes.{
  Rerouted, Rerouted-Keeps, LeavesAllActive, LeavesAllActive-Keeps, active_droppable-Picks,
}
use typenative.Mir.Drops.Cleanup.Rewrites.{rewrite_kind-Rerouted}

module _ {B : Type 0} (n : ℕ) (entries : List NatSet) (droppable : List LocalId) where
  -- The block with other edges, rerouted.
  abbrev pub EdgesClean : List (BasicBlock B) → NatSet → BasicBlock B → BasicBlock B → Type 0
  EdgesClean bs active b b' =
      (k : TerminatorKind) × (b' ≡ set_terminator (record { kind = k; span = b.terminator.span }) b)
      × Rerouted n entries active droppable bs k b.terminator.kind

  -- The block goes to the drops of the active locals, from the last to the first, behind which its
  -- terminator stands in a block of its own.
  abbrev pub ExitClean : List (BasicBlock B) → NatSet → BasicBlock B → BasicBlock B → Type 0
  ExitClean bs active b b' =
      (first : BasicBlockId) × (last : BasicBlockId) × (b'
        ≡ set_terminator (record { kind = goto first; span = b.terminator.span }) b)
      × LeavesAllActive n entries active droppable bs first last
      × (n ≤ last)
      × (get_elem? bs last ≡ some (record { statements = []; terminator = b.terminator }))

  abbrev pub CleanAs : Bool → List (BasicBlock B) → NatSet → BasicBlock B → BasicBlock B → Type 0
  CleanAs true bs active b b' = ExitClean bs active b b'
  CleanAs false bs active b b' = EdgesClean bs active b b'

  -- `b'` is what cleanup makes of `b`, which ends with `active`, in the blocks `bs`.
  abbrev pub Clean : List (BasicBlock B) → NatSet → BasicBlock B → BasicBlock B → Type 0
  Clean bs active b b' = CleanAs (is_exit b.terminator.kind) bs active b b'

  pub CleanAs-Keeps :
      (e : Bool) (bs bs' : List (BasicBlock B)) (active : NatSet) (b b' : BasicBlock B)
      → Keeps (λ k. n ≤ k) bs bs'
      → CleanAs e bs active b b'
      → CleanAs e bs' active b b'
  CleanAs-Keeps true bs bs' active b b' keeps (first, last, e, d, h, e') = (
    first,
    last,
    e,
    LeavesAllActive-Keeps n entries active droppable bs bs' keeps first last d,
    h,
    keeps last _ h e',
  )
  CleanAs-Keeps false bs bs' active b b' keeps (k, e, r) =
      (k, e, Rerouted-Keeps n entries active droppable bs bs' keeps k b.terminator.kind r)

  -- Rerouting changes no terminator that leaves the body, and makes none.
  pub Rerouted-is_exit :
      (bs : List (BasicBlock B)) (active : NatSet) (k' k : TerminatorKind)
      → Rerouted n entries active droppable bs k' k
      → (is_exit k' ≡ is_exit k) × (is_exit k ≡ true → k' ≡ k)
  Rerouted-is_exit bs active k' (goto t) (t', e, l) = (ap (λ z. is_exit z) e, λ h. absurd (cc))
  Rerouted-is_exit bs active k' (switch value ts o) (ts', o', e, _, _) =
      (ap (λ z. is_exit z) e, λ h. absurd (cc))
  Rerouted-is_exit bs active k' (call f receiver arguments d e s r) (s', r', q, _, _) =
      (ap (λ z. is_exit z) q, λ h. absurd (cc))
  Rerouted-is_exit bs active k' (suspend value d e s r c) (s', r', c', q, _, _, _) =
      (ap (λ z. is_exit z) q, λ h. absurd (cc))
  Rerouted-is_exit bs active k' (return payload) e = (ap (λ z. is_exit z) e, λ h. e)
  Rerouted-is_exit bs active k' (throw payload) e = (ap (λ z. is_exit z) e, λ h. e)
  Rerouted-is_exit bs active k' (tagged_return c payload) e = (ap (λ z. is_exit z) e, λ h. e)
  Rerouted-is_exit bs active k' (drop p t) e = (ap (λ z. is_exit z) e, λ h. e)
  Rerouted-is_exit bs active k' (abort x) e = (ap (λ z. is_exit z) e, λ h. e)
  Rerouted-is_exit bs active k' unreachable e = (ap (λ z. is_exit z) e, λ h. e)

  -- A pass over block `i` appends blocks and changes at most that block.
  abbrev pub Touches : ℕ → List (BasicBlock B) → List (BasicBlock B) → Type 0
  Touches i bs bs' = (length bs ≤ length bs') × Keeps (λ j. j ≢ i) bs bs'

  modify-Touches :
      (f : BasicBlock B → BasicBlock B) (i : ℕ) (bs bs' : List (BasicBlock B))
      → Grown bs bs'
      → Touches i bs (modify bs' i f)
  modify-Touches f i bs bs' g = (
    omega (arith, g.0, length-modify f bs' i),
    λ j b ne e. modify-Keeps f bs' i j b ne (g.1 j b tt e),
  )

  modify-Keeps_new :
      (f : BasicBlock B → BasicBlock B) (i : ℕ) (bs : List (BasicBlock B))
      → i < n
      → Keeps (λ j. n ≤ j) bs (modify bs i f)
  modify-Keeps_new f i bs lt j b h e = modify-Keeps f bs i j b (λ q. absurd (omega arith)) e

  module _ (i : ℕ) (active : NatSet) (lt : i < n) where
    pub rewrite_scope_exit_edges-EdgesClean :
        (bs : List (BasicBlock B)) (b : BasicBlock B)
        → n ≤ length bs
        → get_elem? bs i ≡ some b
        → Touches i bs (rewrite_scope_exit_edges i entries active droppable bs)
          × ((b' : BasicBlock B) × (get_elem?
                  (rewrite_scope_exit_edges i entries active droppable bs)
                  i
                ≡ some b')
              × EdgesClean (rewrite_scope_exit_edges i entries active droppable bs) active b b')
    unfolding rewrite_scope_exit_edges rewrite_terminator
    rewrite_scope_exit_edges-EdgesClean bs b h e = rw e (
        let out = rewrite_kind entries active droppable b.terminator.span b.terminator.kind bs in
        let f = set_terminator (record { kind = out.0; span = b.terminator.span }) in
        let (grown, r) =
          rewrite_kind-Rerouted n entries active droppable b.terminator.span b.terminator.kind bs
            h in
        (
          modify-Touches f i bs (out.1) grown,
          (
            f b,
            get_elem?-modify f (out.1) i (grown.1 i b tt e),
            (
              out.0,
              refl,
              Rerouted-Keeps n entries active droppable (out.1) (modify (out.1) i f)
                  (modify-Keeps_new f i (out.1) lt) (out.0) b.terminator.kind r,
            ),
          ),
        ))

    pub exit_cleanup-ExitClean :
        (bs : List (BasicBlock B)) (b : BasicBlock B)
        → n ≤ length bs
        → get_elem? bs i ≡ some b
        → Touches i bs (exit_cleanup i b.terminator (active_droppable active droppable) bs)
          × ((b' : BasicBlock B) × (get_elem?
                  (exit_cleanup i b.terminator (active_droppable active droppable) bs)
                  i
                ≡ some b')
              × ExitClean
                  (exit_cleanup i b.terminator (active_droppable active droppable) bs)
                  active
                  b
                  b')
    unfolding exit_cleanup
    exit_cleanup-ExitClean bs b h e =
        let end : BasicBlock B = record { statements = []; terminator = b.terminator } in
        let pushed = bs ++ end ∷ [] in
        let ls = active_droppable active droppable in
        let out = cleanup_chain ls (length bs) b.terminator.span pushed in
        let f = set_terminator (record { kind = goto (out.0); span = b.terminator.span }) in
        let grown = append-Grown bs (end ∷ []) in
        let (grown', d) =
          cleanup_chain-Drops n ls (length bs) b.terminator.span pushed (omega (arith, grown.0)) in
        let all = Grown-trans bs pushed (out.1) grown grown' in
        let new = modify-Keeps_new f i (out.1) lt in
        (
          modify-Touches f i bs (out.1) all,
          (
            f b,
            get_elem?-modify f (out.1) i (all.1 i b tt e),
            (
              out.0,
              length bs,
              refl,
              (
                ls,
                active_droppable-Picks active droppable,
                Drops-Keeps n (out.1) (modify (out.1) i f) (out.0) (length bs) (reverse ls) new d,
              ),
              h,
              new (length bs) end h (grown'.1 (length bs) end tt (get_elem?-pushed bs end)),
            ),
          ),
        )
