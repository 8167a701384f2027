-- ===== src/Mir/Drops/Active/Live.antt =====
-- What `active_local_sets` finds: a local that is active where a block begins has live storage on
-- every path that leads there.
use typenative.Prelude.{
  ℕ, zero, suc, ◌+◌, true, false, List, [], ◌∷◌, Option, some, ◌≡◌, refl, sym, ap, ◌∙◌, arith,
  length, get_elem?, NatSet, Subset, Subset-trans, Subset-insert, Subset-remove, contains,
}
use mathlib.Core.Path.{subst}
use mathlib.Core.Option.{some-injective}
use typenative.Mir.Syntax.{Local, StatementKind, storage_live, storage_dead, Statement, BasicBlock}
use typenative.Mir.Validate.Worklist.{state_at, or_empty}
use typenative.Mir.Validate.Worklist.Settles.{Covers, Refines-Covers}
use typenative.Mir.Validate.Bodies.{argument_indices, initial_states, is_nil}
use typenative.Mir.Validate.Sound.{initial-Covers}
use typenative.Mir.Drops.Cleanup.{entry_at}
use typenative.Mir.Targets.{Leads, successors-Leads}
use typenative.Mir.Drops.Active.{
  apply_storage_lifetime, apply_storage_lifetimes, active_sweep, entries_of, active_local_sets,
  active_fuel,
}
use typenative.Mir.Drops.Active.Ends.{SuccessorsBelow, active_sweep_ends}
use typenative.Mir.Drops.Active.Rounds.{Passed, AllPassed, sweep_loop-AllPassed, sweep_loop-Refines}

-- A key is one of a list of block identities.
-- The blocks that some path reaches from block 0, with the locals whose storage is live on it: at
-- first the arguments, then what each block on the path makes live and ends.
pub data LivePath {B : Type 0} (ls : List Local) (bs : List (BasicBlock B))
    : ℕ → NatSet → Type 0 where
  entry : {i : ℕ} {s : NatSet} → i ≡ 0 → s ≡ argument_indices 0 ls → LivePath ls bs i s
  along :
      {i t : ℕ} {s : NatSet} {b : BasicBlock B}
      → LivePath ls bs i s
      → get_elem? bs i ≡ some b
      → Leads b.terminator.kind t
      → LivePath ls bs t (apply_storage_lifetimes b.statements s)

entry_at-entries_of :
    (ss : List (Option NatSet)) (i : ℕ) → entry_at (entries_of ss) i ≡ or_empty (state_at ss i)
entry_at-entries_of [] i = refl
entry_at-entries_of (s ∷ ss) zero = refl
entry_at-entries_of (s ∷ ss) (suc i) = entry_at-entries_of ss i

module _ {B : Type 0} where
  lifetime-Subset :
      (s : StatementKind B) (a c : NatSet)
      → Subset a c
      → Subset (apply_storage_lifetime s a) (apply_storage_lifetime s c)
  unfolding apply_storage_lifetime
  lifetime-Subset (storage_live l) a c h = Subset-insert l a c h
  lifetime-Subset (storage_dead l) a c h = Subset-remove l a c h
  lifetime-Subset s a c h = h

  lifetimes-Subset :
      (ss : List (Statement B)) (a c : NatSet)
      → Subset a c
      → Subset (apply_storage_lifetimes ss a) (apply_storage_lifetimes ss c)
  unfolding apply_storage_lifetimes
  lifetimes-Subset [] a c h = h
  lifetimes-Subset (s ∷ ss) a c h =
      lifetimes-Subset ss (apply_storage_lifetime s.kind a) (apply_storage_lifetime s.kind c)
        (lifetime-Subset s.kind a c h)

  AllPassed-get_elem? :
      (ss : List (Option NatSet)) (k i : ℕ) (bs : List (BasicBlock B)) (b : BasicBlock B)
      → AllPassed ss k bs
      → get_elem? bs i ≡ some b
      → Passed ss b (state_at ss (i + k))
  AllPassed-get_elem? ss k i [] b h e = absurd (cc)
  AllPassed-get_elem? ss k zero (x ∷ bs) b h e =
      subst (λ z. Passed ss z (state_at ss (0 + k))) (some-injective x b e)
        (subst (λ z. Passed ss x (state_at ss z)) (omega arith) h.0)
  AllPassed-get_elem? ss k (suc i) (x ∷ bs) b h e =
      subst (λ z. Passed ss b (state_at ss z)) (omega arith)
        (AllPassed-get_elem? ss (suc k) i bs b h.1 e)

  module _ (ls : List Local) (bs : List (BasicBlock B)) (ts : SuccessorsBelow (length bs) bs) where
    abbrev final : List (Option NatSet)
    final = (active_sweep ls bs).states

    final-AllPassed : AllPassed final 0 bs
    unfolding active_sweep
    final-AllPassed =
        sweep_loop-AllPassed (active_fuel ls bs) bs (initial_states ls bs)
          (active_sweep_ends ls bs ts)

    path_covers : {i : ℕ} {c : NatSet} → is_nil bs ≡ false → LivePath ls bs i c → Covers final i c
    unfolding active_sweep
    path_covers h (entry {i} {s} p q) =
        subst (λ z. Covers final z s) (sym p)
          (subst (Covers final 0) (sym q) (
            Refines-Covers (initial_states ls bs) final 0 (argument_indices 0 ls)
              (sweep_loop-Refines (active_fuel ls bs) bs (initial_states ls bs))
              (initial-Covers ls bs h)))
    path_covers h (along {i} {t} {s} {b} path at_i m) =
        let (x, e, below) = path_covers h path in
        let passed : Passed final b (state_at final i) =
          subst (λ z. Passed final b (state_at final z)) (omega arith)
            (AllPassed-get_elem? final 0 i bs b final-AllPassed at_i) in
        let (y, e', below') =
          successors-Leads (λ z. Covers final z (apply_storage_lifetimes b.statements x))
            b.terminator.kind t (subst (Passed final b) e passed) m in
        (
          y,
          e',
          Subset-trans y (apply_storage_lifetimes b.statements x)
              (apply_storage_lifetimes b.statements s) below'
              (lifetimes-Subset b.statements x s below),
        )

-- Where every successor of a block is a block of the body, a local that `active_local_sets` counts
-- as active where a block begins has live storage on every path to that block.
pub active_local_sets-LivePath :
    {B : Type 0} (ls : List Local) (bs : List (BasicBlock B))
    → SuccessorsBelow (length bs) bs
    → is_nil bs ≡ false
    → {i : ℕ} {c : NatSet} → LivePath ls bs i c
    → Subset (entry_at (active_local_sets ls bs).0 i) c
unfolding active_local_sets
active_local_sets-LivePath ls bs ts h {i} path k found =
    let (s, e, below) = path_covers ls bs ts h path in
    below k (
      subst (λ z. contains k z ≡ true)
        (entry_at-entries_of (active_sweep ls bs).states i ∙ ap or_empty e) found)
