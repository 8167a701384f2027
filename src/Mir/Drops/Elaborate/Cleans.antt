-- ===== src/Mir/Drops/Elaborate/Cleans.antt =====
-- The loop of `elaborate_drops` over the blocks, from end to end.
use typenative.Prelude.{
  ℕ, zero, suc, ◌+◌, ◌<◌, ◌≤◌, true, false, List, [], ◌∷◌, some, ◌≡◌, refl, sym, ap, ◌∙◌, inl, inr,
  ◌⊎◌, arith, length, get_elem?, NatSet, Bool-cases,
}
use mathlib.Core.Path.{subst}
use mathlib.Core.Option.{some-injective}
use typenative.Mir.Syntax.{LocalId, BasicBlock}
use typenative.Mir.Drops.Storage.{set_terminator}
use typenative.Mir.Drops.Cleanup.{is_exit, rewrite_scope_exit_edges, add_exit_cleanup}
use typenative.Mir.Drops.Cleanup.Chains.{Keeps}
use typenative.Mir.Drops.Cleanup.Cleaned.{
  Clean, CleanAs, CleanAs-Keeps, Rerouted-is_exit, Touches, rewrite_scope_exit_edges-EdgesClean,
  exit_cleanup-ExitClean,
}
use typenative.Mir.Drops.Elaborate.{cleanup_blocks}

module _ {B : Type 0} (n : ℕ) (entries : List NatSet) (droppable : List LocalId) where
  -- Block `i` of `bs'` is what cleanup makes of `b`.
  abbrev pub CleanAt : List (BasicBlock B) → ℕ → NatSet → BasicBlock B → Type 0
  CleanAt bs' i active b =
      (b' : BasicBlock B) × (get_elem? bs' i ≡ some b') × Clean n entries droppable bs' active b b'

  CleanAt-Keeps :
      (bs bs' : List (BasicBlock B)) (i : ℕ) (active : NatSet) (b : BasicBlock B)
      → i < n
      → Keeps (λ j. (j ≡ i) ⊎ (n ≤ j)) bs bs'
      → CleanAt bs i active b
      → CleanAt bs' i active b
  CleanAt-Keeps bs bs' i active b lt keeps (b', e, c) = (
    b',
    keeps i b' (inl refl) e,
    CleanAs-Keeps n entries droppable (is_exit b.terminator.kind) bs bs' active b b'
        (λ j x h. keeps j x (inr h)) c,
  )

  -- the blocks after the exit cleanup of block `i`
  abbrev exited : ℕ → NatSet → List (BasicBlock B) → List (BasicBlock B)
  exited i active bs = add_exit_cleanup i active droppable (get_elem? bs i) bs

  exited-kept :
      (i : ℕ) (active : NatSet) (bs : List (BasicBlock B)) (b : BasicBlock B)
      → get_elem? bs i ≡ some b
      → is_exit b.terminator.kind ≡ false
      → exited i active bs ≡ bs
  unfolding add_exit_cleanup
  exited-kept i active bs b e stays = rw (e, stays) refl

  module _ (i : ℕ) (active : NatSet) (lt : i < n) where
    exited-Clean :
        (bs : List (BasicBlock B)) (b : BasicBlock B)
        → n ≤ length bs
        → get_elem? bs i ≡ some b
        → is_exit b.terminator.kind ≡ true
        → Touches n entries droppable i bs (exited i active bs)
          × CleanAt (exited i active bs) i active b
    unfolding add_exit_cleanup
    exited-Clean bs b h e leaves =
        rw (e, leaves) (exit_cleanup-ExitClean n entries droppable i active lt bs b h e)

    -- One round of the loop cleans its block, and leaves the other blocks as they are.
    step-Clean :
        (bs : List (BasicBlock B)) (b : BasicBlock B)
        → n ≤ length bs
        → get_elem? bs i ≡ some b
        → Touches n entries droppable i bs
            (exited i active (rewrite_scope_exit_edges i entries active droppable bs))
          × CleanAt
              (exited i active (rewrite_scope_exit_edges i entries active droppable bs))
              i
              active
              b
    step-Clean bs b h e =
        let middle = rewrite_scope_exit_edges i entries active droppable bs in
        let (touched, (b', e', (k, q, r))) =
          rewrite_scope_exit_edges-EdgesClean n entries droppable i active lt bs b h e in
        let (same, kept) =
          Rerouted-is_exit n entries droppable middle active k b.terminator.kind r in
        elim (Bool-cases (is_exit b.terminator.kind)) [
          | inl leaves ↦
              let back =
                q
                ∙ ap (λ z. set_terminator (record { kind = z; span = b.terminator.span }) b)
                    (kept leaves) in
              let (touched', c) =
                exited-Clean middle b (omega (arith, touched.0)) (e' ∙ ap some back) leaves in
              ((omega arith, λ j x ne at_j. touched'.1 j x ne (touched.1 j x ne at_j)), c)
          | inr stays ↦
              subst (λ z. Touches n entries droppable i bs z × CleanAt z i active b)
                (sym (
                  exited-kept i active middle b' e'
                    (ap (λ x. is_exit x.terminator.kind) q ∙ same ∙ stays)))
                (
                  touched,
                  (
                    b',
                    e',
                    subst (λ x. CleanAs n entries droppable x middle active b b') (sym stays)
                        (k, q, r),
                  ),
                )
        ]

  block_at :
      (bs : List (BasicBlock B)) (j : ℕ)
      → j < length bs
      → (b : BasicBlock B) × (get_elem? bs j ≡ some b)
  block_at [] j h = absurd (omega arith)
  block_at (x ∷ bs) zero h = (x, refl)
  block_at (x ∷ bs) (suc j) h = block_at bs j (omega arith)

  cleanup_blocks-Keeps :
      (k : ℕ) (exits : List NatSet) (bs : List (BasicBlock B))
      → k + length exits ≤ n
      → n ≤ length bs
      → Keeps (λ j. (j < k) ⊎ (n ≤ j)) bs (cleanup_blocks droppable entries k exits bs)
  unfolding cleanup_blocks
  cleanup_blocks-Keeps k [] bs fits h = λ j b p e. e
  cleanup_blocks-Keeps k (active ∷ exits) bs fits h = λ j b p e.
      let (x, at_k) = block_at bs k (omega arith) in
      let (touched, c) = step-Clean k active (omega arith) bs x h at_k in
      cleanup_blocks-Keeps (suc k) exits
        (exited k active (rewrite_scope_exit_edges k entries active droppable bs)) (omega arith)
        (omega (arith, touched.0)) j b (elim p [ inl lt ↦ inl (omega arith) | inr le ↦ inr le ])
        (touched.1 j b (λ q. elim p [ inl lt ↦ omega arith | inr le ↦ omega arith ]) e)

  pub cleanup_blocks-CleanAt :
      (k : ℕ) (exits : List NatSet) (bs : List (BasicBlock B))
      → k + length exits ≤ n
      → n ≤ length bs
      → (i j : ℕ) (active : NatSet) (b : BasicBlock B) → j ≡ i + k
      → get_elem? exits i ≡ some active
      → get_elem? bs j ≡ some b
      → CleanAt (cleanup_blocks droppable entries k exits bs) j active b
  unfolding cleanup_blocks
  cleanup_blocks-CleanAt k [] bs fits h i j active b q f e = absurd (cc)
  cleanup_blocks-CleanAt k (x ∷ exits) bs fits h zero j active b q f e =
      let at_k = subst (λ z. get_elem? bs z ≡ some b) (omega arith) e in
      let (touched, c) = step-Clean k x (omega arith) bs b h at_k in
      let after = exited k x (rewrite_scope_exit_edges k entries x droppable bs) in
      let end = cleanup_blocks droppable entries (suc k) exits after in
      let done =
        CleanAt-Keeps after end k x b (omega arith)
          (λ y z p e'.
            cleanup_blocks-Keeps (suc k) exits after (omega arith) (omega (arith, touched.0)) y z
              (elim p [ inl eq ↦ inl (omega arith) | inr le ↦ inr le ]) e')
          c in
      subst (λ z. CleanAt end z active b) (omega arith)
        (subst (λ z. CleanAt end k z b) (some-injective x active f) done)
  cleanup_blocks-CleanAt k (x ∷ exits) bs fits h (suc i) j active b q f e =
      let (y, at_k) = block_at bs k (omega arith) in
      let (touched, c) = step-Clean k x (omega arith) bs y h at_k in
      cleanup_blocks-CleanAt (suc k) exits
        (exited k x (rewrite_scope_exit_edges k entries x droppable bs)) (omega arith)
        (omega (arith, touched.0)) i j active b (omega arith) f (touched.1 j b (λ z. omega arith) e)
