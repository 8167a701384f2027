-- ===== src/Mir/Drops/Cleanup.antt =====
-- `cleanup_chain`, `initialize_edge_destination`, `rewrite_scope_exit_edges` and `add_exit_cleanup`
-- of crates/tn-mir/src/drop_elaboration.rs. They append blocks, so a state monad carries the blocks.
pub mod Chains
pub mod Reroutes
pub mod Rewrites
pub mod Cleaned
use typenative.Prelude.{
  ℕ, zero, suc, Bool, true, false, not, ◌&&◌, List, [], ◌∷◌, ◌++◌, Option, none, some,
  if◌then◌else◌, length, get_elem?, NatSet, contains,
}
use typenative.Diagnostics.{SourceSpan}
use typenative.Mir.Syntax.{
  LocalId, BasicBlockId, Place, local_place, Statement, set_drop_flag, TerminatorKind, goto, switch,
  call, return, throw, tagged_return, suspend, drop, Terminator, BasicBlock,
}
use typenative.Mir.Drops.Storage.{modify, set_terminator}

-- `entries[target]`
abbrev pub entry_at : List NatSet → ℕ → NatSet
entry_at [] i = []
entry_at (s ∷ ss) zero = s
entry_at (s ∷ ss) (suc i) = entry_at ss i

-- the droppable locals that are active
unfoldable pub active_droppable : NatSet → List LocalId → List LocalId
unfolding contains
active_droppable active [] = []
active_droppable active (l ∷ ls) =
    if contains l active then l ∷ active_droppable active ls else active_droppable active ls

-- the closure `leaving`: the droppable locals that are active here and not where the target begins
unfoldable pub leaving : NatSet → NatSet → List LocalId → List LocalId
unfolding contains
leaving active entry [] = []
leaving active entry (l ∷ ls) =
    if contains l active && not (contains l entry)
    then l ∷ leaving active entry ls
    else leaving active entry ls

-- a block that leaves the body
abbrev pub is_exit : TerminatorKind → Bool
is_exit (return payload) = true
is_exit (throw value) = true
is_exit (tagged_return completion payload) = true
is_exit _ = false

module _ {B : Type 0} where
  abbrev pub drop_block : LocalId → BasicBlockId → SourceSpan → BasicBlock B
  drop_block l next span = record {
    statements = [];
    terminator = record { kind = drop (local_place l) next; span = span };
  }

  -- the first block of the chain and the blocks with it
  unfoldable pub cleanup_chain :
      List LocalId
      → BasicBlockId
      → SourceSpan
      → List (BasicBlock B)
      → BasicBlockId × List (BasicBlock B)
  cleanup_chain [] next span bs = (next, bs)
  cleanup_chain (l ∷ ls) next span bs =
      cleanup_chain ls (length bs) span (bs ++ drop_block l next span ∷ [])

  unfoldable pub initialize_edge_destination :
      Option Place
      → BasicBlockId
      → SourceSpan
      → List (BasicBlock B)
      → BasicBlockId × List (BasicBlock B)
  initialize_edge_destination none target span bs = (target, bs)
  initialize_edge_destination (some p) target span bs = (
    length bs,
    bs
        ++ record {
          statements = record { kind = set_drop_flag p true; span = span } ∷ [];
          terminator = record { kind = goto target; span = span };
        }
          ∷ [],
  )

  module _ (entries : List NatSet) (active : NatSet) (droppable : List LocalId)
      (span : SourceSpan) where
    -- `cleanup_chain(body, &leaving(target), target, &span)`
    unfoldable pub leave_to :
        BasicBlockId → List (BasicBlock B) → BasicBlockId × List (BasicBlock B)
    unfolding cleanup_chain leaving
    leave_to target = cleanup_chain (leaving active (entry_at entries target) droppable) target span

    unfoldable pub leave_and_initialize :
        Option Place → BasicBlockId → List (BasicBlock B) → BasicBlockId × List (BasicBlock B)
    unfolding leave_to initialize_edge_destination
    leave_and_initialize d target bs =
        let (cleanup, bs') = leave_to target bs in initialize_edge_destination d cleanup span bs'

    unfoldable pub leave_error :
        Option Place
        → Option BasicBlockId
        → List (BasicBlock B)
        → Option BasicBlockId × List (BasicBlock B)
    unfolding leave_and_initialize
    leave_error d none bs = (none, bs)
    leave_error d (some target) bs =
        let (cleanup, bs') = leave_and_initialize d target bs in (some cleanup, bs')

    unfoldable pub leave_targets :
        List (ℕ × BasicBlockId)
        → List (BasicBlock B)
        → List (ℕ × BasicBlockId) × List (BasicBlock B)
    unfolding leave_to
    leave_targets [] bs = ([], bs)
    leave_targets ((v, t) ∷ ts) bs =
        let (t', bs') = leave_to t bs in
        let (ts', bs'') = leave_targets ts bs' in ((v, t') ∷ ts', bs'')

    -- the `match` of `rewrite_scope_exit_edges`
    unfoldable pub rewrite_kind :
        TerminatorKind → List (BasicBlock B) → TerminatorKind × List (BasicBlock B)
    unfolding leave_to leave_and_initialize leave_error leave_targets cleanup_chain active_droppable
    rewrite_kind (goto target) bs = let (t, bs') = leave_to target bs in (goto t, bs')
    rewrite_kind (switch value targets otherwise) bs =
        let (ts, bs') = leave_targets targets bs in
        let (o, bs'') = leave_to otherwise bs' in (switch value ts o, bs'')
    rewrite_kind (call callee receiver arguments d e on_success on_error) bs =
        let (s, bs') = leave_and_initialize d on_success bs in
        let (r, bs'') = leave_error e on_error bs' in (call callee receiver arguments d e s r, bs'')
    rewrite_kind (suspend value d e resume on_error cancel) bs =
        let (s, bs') = leave_and_initialize d resume bs in
        let (r, bs'') = leave_error e on_error bs' in
        let (c, bs''') = cleanup_chain (active_droppable active droppable) cancel span bs'' in
        (suspend value d e s r c, bs''')
    rewrite_kind k bs = (k, bs)

  -- the terminator of the block of this index, rewritten; the blocks are those of the body
  unfoldable pub rewrite_terminator :
      ℕ
      → List NatSet
      → NatSet
      → List LocalId
      → Option (BasicBlock B)
      → List (BasicBlock B)
      → List (BasicBlock B)
  unfolding rewrite_kind
  rewrite_terminator i entries active droppable none bs = bs
  rewrite_terminator i entries active droppable (some b) bs =
      let (k, bs') = rewrite_kind entries active droppable b.terminator.span b.terminator.kind bs in
      modify bs' i (set_terminator (record { kind = k; span = b.terminator.span }))

  unfoldable pub rewrite_scope_exit_edges :
      ℕ → List NatSet → NatSet → List LocalId → List (BasicBlock B) → List (BasicBlock B)
  unfolding rewrite_terminator
  rewrite_scope_exit_edges i entries active droppable bs =
      rewrite_terminator i entries active droppable (get_elem? bs i) bs

  -- The terminator moves to a block of its own, behind the drops.
  unfoldable pub exit_cleanup :
      ℕ → Terminator → List LocalId → List (BasicBlock B) → List (BasicBlock B)
  unfolding cleanup_chain
  exit_cleanup i terminator droppable bs =
      let (next, bs') =
        cleanup_chain droppable (length bs) terminator.span
          (bs ++ record { statements = []; terminator = terminator } ∷ []) in
      modify bs' i (set_terminator (record { kind = goto next; span = terminator.span }))

  unfoldable pub add_exit_cleanup :
      ℕ → NatSet → List LocalId → Option (BasicBlock B) → List (BasicBlock B) → List (BasicBlock B)
  unfolding exit_cleanup active_droppable
  add_exit_cleanup i active droppable none bs = bs
  add_exit_cleanup i active droppable (some b) bs =
      if is_exit b.terminator.kind
      then exit_cleanup i b.terminator (active_droppable active droppable) bs
      else bs
