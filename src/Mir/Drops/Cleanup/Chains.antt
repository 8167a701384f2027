-- ===== src/Mir/Drops/Cleanup/Chains.antt =====
-- Chains of drops among the blocks that a pass appends, and what keeps them.
use typenative.Prelude.{
  ℕ, zero, suc, ◌<◌, ◌≤◌, List, [], ◌∷◌, ◌++◌, some, ◌≡◌, refl, sym, ap, ◌∙◌, ◌≢◌, arith, length,
  length-append, get_elem?,
}
use mathlib.Core.Path.{subst}
use mathlib.Core.List.{reverse, reverse-cons}
use typenative.Diagnostics.{SourceSpan}
use typenative.Mir.Syntax.{LocalId, BasicBlockId, BasicBlock}
use typenative.Mir.Drops.Storage.{modify}
use typenative.Mir.Drops.Cleanup.{drop_block, cleanup_chain}

module _ {B : Type 0} where
  -- The blocks whose indices satisfy `P` stay as they are.
  abbrev pub Keeps : (ℕ → Type 0) → List (BasicBlock B) → List (BasicBlock B) → Type 0
  Keeps P bs bs' =
      (j : ℕ) (b : BasicBlock B) → P j → get_elem? bs j ≡ some b → get_elem? bs' j ≡ some b

  -- Blocks are only appended.
  abbrev pub Grown : List (BasicBlock B) → List (BasicBlock B) → Type 0
  Grown bs bs' = (length bs ≤ length bs') × Keeps (λ j. Unit) bs bs'

  pub Grown-refl : (bs : List (BasicBlock B)) → Grown bs bs
  Grown-refl bs = (omega arith, λ j b h e. e)

  pub Grown-trans : (bs cs ds : List (BasicBlock B)) → Grown bs cs → Grown cs ds → Grown bs ds
  Grown-trans bs cs ds (h, k) (h', k') = (omega arith, λ j b u e. k' j b u (k j b u e))

  get_elem?-append :
      (bs cs : List (BasicBlock B)) (j : ℕ) {b : BasicBlock B}
      → get_elem? bs j ≡ some b
      → get_elem? (bs ++ cs) j ≡ some b
  get_elem?-append [] cs j e = absurd (cc)
  get_elem?-append (x ∷ bs) cs zero e = e
  get_elem?-append (x ∷ bs) cs (suc j) e = get_elem?-append bs cs j e

  pub append-Grown : (bs cs : List (BasicBlock B)) → Grown bs (bs ++ cs)
  append-Grown bs cs = (omega (arith, length-append bs cs), λ j b h e. get_elem?-append bs cs j e)

  pub get_elem?-pushed :
      (bs : List (BasicBlock B)) (b : BasicBlock B) → get_elem? (bs ++ b ∷ []) (length bs) ≡ some b
  get_elem?-pushed [] b = refl
  get_elem?-pushed (x ∷ bs) b = get_elem?-pushed bs b

  pub lt-length_of_get_elem? :
      (bs : List (BasicBlock B)) (j : ℕ) {b : BasicBlock B}
      → get_elem? bs j ≡ some b
      → j < length bs
  lt-length_of_get_elem? [] j e = absurd (cc)
  lt-length_of_get_elem? (x ∷ bs) zero e = omega arith
  lt-length_of_get_elem? (x ∷ bs) (suc j) e = omega (arith, lt-length_of_get_elem? bs j e)

  module _ (f : BasicBlock B → BasicBlock B) where
    pub length-modify : (bs : List (BasicBlock B)) (i : ℕ) → length (modify bs i f) ≡ length bs
    length-modify [] i = refl
    length-modify (b ∷ bs) zero = refl
    length-modify (b ∷ bs) (suc i) = ap suc (length-modify bs i)

    pub get_elem?-modify :
        (bs : List (BasicBlock B)) (i : ℕ) {b : BasicBlock B}
        → get_elem? bs i ≡ some b
        → get_elem? (modify bs i f) i ≡ some (f b)
    get_elem?-modify [] i e = absurd (cc)
    get_elem?-modify (x ∷ bs) zero e = cc
    get_elem?-modify (x ∷ bs) (suc i) e = get_elem?-modify bs i e

    pub modify-Keeps :
        (bs : List (BasicBlock B)) (i j : ℕ) (b : BasicBlock B)
        → j ≢ i
        → get_elem? bs j ≡ some b
        → get_elem? (modify bs i f) j ≡ some b
    modify-Keeps [] i j b ne e = absurd (cc)
    modify-Keeps (x ∷ bs) zero zero b ne e = absurd (ne refl)
    modify-Keeps (x ∷ bs) zero (suc j) b ne e = e
    modify-Keeps (x ∷ bs) (suc i) zero b ne e = e
    modify-Keeps (x ∷ bs) (suc i) (suc j) b ne e = modify-Keeps bs i j b (λ q. ne (ap suc q)) e

  module _ (n : ℕ) where
    -- From block `i`, the drops of these locals in this order lead to block `j`, through blocks whose
    -- indices are at least `n`.
    abbrev pub Drops : List (BasicBlock B) → BasicBlockId → List LocalId → BasicBlockId → Type 0
    Drops bs i [] j = i ≡ j
    Drops bs i (l ∷ ls) j =
        (n ≤ i)
        × (next : BasicBlockId) × (span : SourceSpan) × (get_elem? bs i
            ≡ some (drop_block l next span))
        × Drops bs next ls j

    pub Drops-Keeps :
        (bs bs' : List (BasicBlock B)) (i j : ℕ) (ls : List LocalId)
        → Keeps (λ k. n ≤ k) bs bs'
        → Drops bs i ls j
        → Drops bs' i ls j
    Drops-Keeps bs bs' i j [] keeps d = d
    Drops-Keeps bs bs' i j (l ∷ ls) keeps (h, next, span, e, d) =
        (h, next, span, keeps i (drop_block l next span) h e, Drops-Keeps bs bs' next j ls keeps d)

    pub Drops-snoc :
        (bs : List (BasicBlock B)) (i k j : ℕ) (ls : List LocalId) (l : LocalId) (span : SourceSpan)
        → n ≤ k
        → get_elem? bs k ≡ some (drop_block l j span)
        → Drops bs i ls k
        → Drops bs i (ls ++ l ∷ []) j
    Drops-snoc bs i k j [] l span h e d =
        (subst (λ z. n ≤ z) (sym d) h, j, span, ap (get_elem? bs) d ∙ e, refl)
    Drops-snoc bs i k j (x ∷ ls) l span h e (h', next, span', e', d) =
        (h', next, span', e', Drops-snoc bs next k j ls l span h e d)

    -- The chain drops its locals from the last to the first and then reaches its target.
    pub cleanup_chain-Drops :
        (ls : List LocalId) (next : BasicBlockId) (span : SourceSpan) (bs : List (BasicBlock B))
        → n ≤ length bs
        → Grown bs (cleanup_chain ls next span bs).1
          × Drops
              (cleanup_chain ls next span bs).1
              (cleanup_chain ls next span bs).0
              (reverse ls)
              next
    unfolding cleanup_chain
    cleanup_chain-Drops [] next span bs h = (Grown-refl bs, refl)
    cleanup_chain-Drops (l ∷ ls) next span bs h =
        let pushed = bs ++ drop_block l next span ∷ [] in
        let grown = append-Grown bs (drop_block l next span ∷ []) in
        let out = cleanup_chain ls (length bs) span pushed in
        let (grown', d) = cleanup_chain-Drops ls (length bs) span pushed (omega (arith, grown.0)) in
        (
          Grown-trans bs pushed (out.1) grown grown',
          subst (λ ks. Drops (out.1) (out.0) ks next) (sym (reverse-cons l ls))
              (Drops-snoc (out.1) (out.0) (length bs) next (reverse ls) l span h
                (grown'.1 (length bs) (drop_block l next span) tt
                  (get_elem?-pushed bs (drop_block l next span)))
                d),
        )
