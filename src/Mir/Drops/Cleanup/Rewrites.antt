-- ===== src/Mir/Drops/Cleanup/Rewrites.antt =====
-- `rewrite_kind` reroutes the edges of a terminator.
use typenative.Prelude.{ℕ, ◌≤◌, List, [], ◌∷◌, Option, none, some, refl, arith, length, NatSet}
use typenative.Diagnostics.{SourceSpan}
use typenative.Mir.Syntax.{
  LocalId, BasicBlockId, Place, TerminatorKind, goto, switch, call, return, throw, tagged_return,
  suspend, drop, abort, unreachable, BasicBlock,
}
use typenative.Mir.Drops.Cleanup.{
  entry_at, active_droppable, leaving, cleanup_chain, initialize_edge_destination, leave_to,
  leave_and_initialize, leave_error, leave_targets, rewrite_kind,
}
use typenative.Mir.Drops.Cleanup.Chains.{Grown, Grown-refl, Grown-trans, cleanup_chain-Drops}
use typenative.Mir.Drops.Cleanup.Reroutes.{
  leaving-Picks, active_droppable-Picks, Grown-Keeps, initialize_edge_destination-Initializes,
  Leaves, LeavesInto, LeavesError, LeavesAll, Rerouted, Leaves-Keeps, LeavesInto-Keeps,
  LeavesError-Keeps, LeavesAll-Keeps,
}

module _ {B : Type 0} (n : ℕ) where
  module _ (entries : List NatSet) (active : NatSet) (droppable : List LocalId)
      (span : SourceSpan) where
    leave_to-Leaves :
        (t : BasicBlockId) (bs : List (BasicBlock B))
        → n ≤ length bs
        → Grown bs (leave_to entries active droppable span t bs).1
          × Leaves n entries active droppable
              (leave_to entries active droppable span t bs).1
              (leave_to entries active droppable span t bs).0
              t
    unfolding leave_to
    leave_to-Leaves t bs h =
        let ls = leaving active (entry_at entries t) droppable in
        let (grown, d) = cleanup_chain-Drops n ls t span bs h in
        (grown, (ls, leaving-Picks active (entry_at entries t) droppable, d))

    leave_and_initialize-LeavesInto :
        (d : Option Place) (t : BasicBlockId) (bs : List (BasicBlock B))
        → n ≤ length bs
        → Grown bs (leave_and_initialize entries active droppable span d t bs).1
          × LeavesInto n entries active droppable
              (leave_and_initialize entries active droppable span d t bs).1
              (leave_and_initialize entries active droppable span d t bs).0
              d
              t
    unfolding leave_and_initialize
    leave_and_initialize-LeavesInto d t bs h =
        let out = leave_to entries active droppable span t bs in
        let end = initialize_edge_destination d (out.0) span (out.1) in
        let (grown, l) = leave_to-Leaves t bs h in
        let (grown', a) =
          initialize_edge_destination-Initializes n d (out.0) span (out.1) (omega arith) in
        (
          Grown-trans bs (out.1) (end.1) grown grown',
          (
            out.0,
            a,
            Leaves-Keeps n entries active droppable (out.1) (end.1)
                (Grown-Keeps n (out.1) (end.1) grown') (out.0) t l,
          ),
        )

    leave_error-LeavesError :
        (d : Option Place) (r : Option BasicBlockId) (bs : List (BasicBlock B))
        → n ≤ length bs
        → Grown bs (leave_error entries active droppable span d r bs).1
          × LeavesError n entries active droppable
              (leave_error entries active droppable span d r bs).1
              (leave_error entries active droppable span d r bs).0
              d
              r
    unfolding leave_error
    leave_error-LeavesError d none bs h = (Grown-refl bs, tt)
    leave_error-LeavesError d (some t) bs h = leave_and_initialize-LeavesInto d t bs h

    leave_targets-LeavesAll :
        (ts : List (ℕ × BasicBlockId)) (bs : List (BasicBlock B))
        → n ≤ length bs
        → Grown bs (leave_targets entries active droppable span ts bs).1
          × LeavesAll n entries active droppable
              (leave_targets entries active droppable span ts bs).1
              (leave_targets entries active droppable span ts bs).0
              ts
    unfolding leave_targets
    leave_targets-LeavesAll [] bs h = (Grown-refl bs, tt)
    leave_targets-LeavesAll ((v, t) ∷ ts) bs h =
        let out = leave_to entries active droppable span t bs in
        let end = leave_targets entries active droppable span ts (out.1) in
        let (grown, l) = leave_to-Leaves t bs h in
        let (grown', ls) = leave_targets-LeavesAll ts (out.1) (omega arith) in
        (
          Grown-trans bs (out.1) (end.1) grown grown',
          (
            refl,
            Leaves-Keeps n entries active droppable (out.1) (end.1)
                (Grown-Keeps n (out.1) (end.1) grown') (out.0) t l,
            ls,
          ),
        )

    -- The rewritten terminator is rerouted, and blocks are only appended for it.
    pub rewrite_kind-Rerouted :
        (k : TerminatorKind) (bs : List (BasicBlock B))
        → n ≤ length bs
        → Grown bs (rewrite_kind entries active droppable span k bs).1
          × Rerouted n entries active droppable
              (rewrite_kind entries active droppable span k bs).1
              (rewrite_kind entries active droppable span k bs).0
              k
    unfolding rewrite_kind
    rewrite_kind-Rerouted (goto t) bs h =
        let (grown, l) = leave_to-Leaves t bs h in (grown, (_, refl, l))
    rewrite_kind-Rerouted (switch value ts o) bs h =
        let one = leave_targets entries active droppable span ts bs in
        let two = leave_to entries active droppable span o (one.1) in
        let (grown, ls) = leave_targets-LeavesAll ts bs h in
        let (grown', l) = leave_to-Leaves o (one.1) (omega arith) in
        (
          Grown-trans bs (one.1) (two.1) grown grown',
          (
            one.0,
            two.0,
            refl,
            LeavesAll-Keeps n entries active droppable (one.1) (two.1)
                (Grown-Keeps n (one.1) (two.1) grown') (one.0) ts ls,
            l,
          ),
        )
    rewrite_kind-Rerouted (call f receiver arguments d e s r) bs h =
        let one = leave_and_initialize entries active droppable span d s bs in
        let two = leave_error entries active droppable span e r (one.1) in
        let (grown, l) = leave_and_initialize-LeavesInto d s bs h in
        let (grown', l') = leave_error-LeavesError e r (one.1) (omega arith) in
        (
          Grown-trans bs (one.1) (two.1) grown grown',
          (
            one.0,
            two.0,
            refl,
            LeavesInto-Keeps n entries active droppable (one.1) (two.1)
                (Grown-Keeps n (one.1) (two.1) grown') (one.0) s d l,
            l',
          ),
        )
    rewrite_kind-Rerouted (suspend value d e s r c) bs h =
        let one = leave_and_initialize entries active droppable span d s bs in
        let two = leave_error entries active droppable span e r (one.1) in
        let three = cleanup_chain (active_droppable active droppable) c span (two.1) in
        let (grown, l) = leave_and_initialize-LeavesInto d s bs h in
        let (grown', l') = leave_error-LeavesError e r (one.1) (omega arith) in
        let (grown'', l'') =
          cleanup_chain-Drops n (active_droppable active droppable) c span (two.1) (omega arith) in
        let later = Grown-trans (one.1) (two.1) (three.1) grown' grown'' in
        (
          Grown-trans bs (one.1) (three.1) grown later,
          (
            one.0,
            two.0,
            three.0,
            refl,
            LeavesInto-Keeps n entries active droppable (one.1) (three.1)
                (Grown-Keeps n (one.1) (three.1) later) (one.0) s d l,
            LeavesError-Keeps n entries active droppable (two.1) (three.1)
                (Grown-Keeps n (two.1) (three.1) grown'') (two.0) e r l',
            (active_droppable active droppable, active_droppable-Picks active droppable, l''),
          ),
        )
    rewrite_kind-Rerouted (return payload) bs h = (Grown-refl bs, refl)
    rewrite_kind-Rerouted (throw payload) bs h = (Grown-refl bs, refl)
    rewrite_kind-Rerouted (tagged_return c payload) bs h = (Grown-refl bs, refl)
    rewrite_kind-Rerouted (drop p t) bs h = (Grown-refl bs, refl)
    rewrite_kind-Rerouted (abort x) bs h = (Grown-refl bs, refl)
    rewrite_kind-Rerouted unreachable bs h = (Grown-refl bs, refl)
