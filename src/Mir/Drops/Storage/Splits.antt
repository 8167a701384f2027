-- ===== src/Mir/Drops/Storage/Splits.antt =====
-- What `split_storage_deaths` makes of each block.
use typenative.Prelude.{
  ℕ, zero, suc, ◌+◌, ◌<◌, ◌≤◌, List, [], ◌∷◌, ◌++◌, Option, none, some, ◌≡◌, refl, ◌≢◌, inl, inr,
  ◌⊎◌, arith, map, length, length-map, get_elem?, ap, Bool-cases, contains, contains_iff, Among,
}
use mathlib.Core.Path.{subst}
use mathlib.Core.Option.{some-injective}
use typenative.Mir.Syntax.{
  LocalId, BasicBlockId, local_place, drop, StatementKind, storage_dead, Statement, Terminator,
  BasicBlock,
}
use typenative.Mir.Drops.Storage.{
  modify, push_statement, set_terminator, dropped_local, split_at, split_statements, split_blocks,
  emptied, split_storage_deaths,
}
use typenative.Mir.Drops.Cleanup.Chains.{
  Keeps, append-Grown, get_elem?-pushed, get_elem?-modify, length-modify, modify-Keeps,
  lt-length_of_get_elem?,
}

-- Block `i` holds the statements `done` and then these, up to the first storage death of a droppable
-- local. There it drops the local, and goes on in a block of index at least `n` that holds the
-- storage death and what follows, in the same way. The last block has the terminator.
pub data Splits {B : Type 0} (n : ℕ) (droppable : List LocalId) (t : Terminator)
    (bs : List (BasicBlock B))
    : BasicBlockId → List (Statement B) → List (Statement B) → Type 0 where
  ends :
      {i : BasicBlockId} {done : List (Statement B)}
      → get_elem? bs i ≡ some (record { statements = done; terminator = t })
      → Splits n droppable t bs i done []
  goes_on :
      {i : BasicBlockId} {done ss : List (Statement B)} {s : Statement B}
      → ((l : LocalId) → s.kind ≡ storage_dead l → ¬ Among l droppable)
      → Splits n droppable t bs i (done ++ s ∷ []) ss
      → Splits n droppable t bs i done (s ∷ ss)
  drops :
      {i next : BasicBlockId} {done ss : List (Statement B)} {s : Statement B} {l : LocalId}
      → s.kind ≡ storage_dead l
      → Among l droppable
      → n ≤ next
      → get_elem? bs i
        ≡ some (record {
          statements = done;
          terminator = record { kind = drop (local_place l) next; span = s.span };
        })
      → Splits n droppable t bs next (s ∷ []) ss
      → Splits n droppable t bs i done (s ∷ ss)

module _ {B : Type 0} (droppable : List LocalId) where
  kept_local :
      (k : StatementKind B)
      → dropped_local droppable k ≡ none
      → (l : LocalId) → k ≡ storage_dead l
      → ¬ Among l droppable
  unfolding dropped_local
  kept_local k h l e m =
      let h' : dropped_local {B = B} droppable (storage_dead l) ≡ none =
        subst (λ z. dropped_local {B = B} droppable z ≡ none) e h in
      cc (rw (dropped_local, (contains_iff l droppable).1 m) at h')

  dying_local :
      (k : StatementKind B) (l : LocalId)
      → dropped_local droppable k ≡ some l
      → (k ≡ storage_dead l) × Among l droppable
  unfolding dropped_local
  dying_local (storage_dead x) l h = elim (Bool-cases (contains x droppable)) [
    | inl found ↦
        let q : x ≡ l = cc (rw found at h) in
        (ap storage_dead q, subst (λ z. Among z droppable) q ((contains_iff x droppable).0 found))
    | inr missing ↦ absurd (cc (rw missing at h))
  ]
  dying_local k l h = absurd (cc h)

dropped_cases : (o : Option LocalId) → (o ≡ none) ⊎ ((l : LocalId) × (o ≡ some l))
dropped_cases none = inl refl
dropped_cases (some l) = inr (l, refl)

module _ {B : Type 0} (n : ℕ) (droppable : List LocalId) where
  Splits-Keeps :
      (t : Terminator) (P : ℕ → Type 0) (bs bs' : List (BasicBlock B))
      → Keeps P bs bs'
      → ((j : ℕ) → n ≤ j → P j)
      → {i : BasicBlockId} {done ss : List (Statement B)} → P i
      → Splits n droppable t bs i done ss
      → Splits n droppable t bs' i done ss
  Splits-Keeps t P bs bs' keeps new {i} p (ends e) = ends (keeps i _ p e)
  Splits-Keeps t P bs bs' keeps new p (goes_on e h) =
      goes_on e (Splits-Keeps t P bs bs' keeps new p h)
  Splits-Keeps t P bs bs' keeps new {i} p (drops {next = next} e m le q h) =
      drops e m le (keeps i _ p q) (Splits-Keeps t P bs bs' keeps new (new next le) h)

  -- The rounds over the statements of one block leave the other blocks as they are.
  abbrev Splitting :
      Terminator
      → List (Statement B)
      → BasicBlockId
      → List (Statement B)
      → List (BasicBlock B)
      → List (BasicBlock B)
      → Type 0
  Splitting t ss i done bs bs' =
      (length bs ≤ length bs') × Keeps (λ j. j ≢ i) bs bs' × Splits n droppable t bs' i done ss

  split_statements-Splits :
      (t t' : Terminator) (ss : List (Statement B)) (i : BasicBlockId) (done : List (Statement B))
      (bs : List (BasicBlock B))
      → n ≤ length bs
      → get_elem? bs i ≡ some (record { statements = done; terminator = t' })
      → Splitting t ss i done bs (split_statements droppable t ss i bs)
  unfolding split_statements split_at
  split_statements-Splits t t' [] i done bs h e =
      let f = set_terminator t in
      (omega (arith, length-modify f bs i), modify-Keeps f bs i, ends (get_elem?-modify f bs i e))
  split_statements-Splits t t' (s ∷ ss) i done bs h e =
      elim (dropped_cases (dropped_local droppable s.kind)) [
        | inl kept ↦ rw kept (
            let f = push_statement s in
            let bs' = modify bs i f in
            let (grown, keeps, later) =
              split_statements-Splits t t' ss i (done ++ s ∷ []) bs'
                (omega (arith, length-modify f bs i)) (get_elem?-modify f bs i e) in
            (
              omega (arith, length-modify f bs i),
              λ j b ne q. keeps j b ne (modify-Keeps f bs i j b ne q),
              goes_on (kept_local droppable s.kind kept) later,
            ))
        | inr (l, dropped) ↦ rw dropped (
            let dies = dying_local droppable s.kind l dropped in
            let dropping : Terminator = record {
              kind = drop (local_place l) (length bs);
              span = s.span;
            } in
            let f = set_terminator dropping in
            let new : BasicBlock B = record { statements = s ∷ []; terminator = t } in
            let bs' = modify bs i f ++ new ∷ [] in
            let same = length-modify f bs i in
            let grown = append-Grown (modify bs i f) (new ∷ []) in
            let (grown', keeps, later) =
              split_statements-Splits t t ss (length bs) (s ∷ []) bs' (omega arith) (
                subst (λ z. get_elem? bs' z ≡ some new) same
                  (get_elem?-pushed (modify bs i f) new)) in
            let below = lt-length_of_get_elem? bs i e in
            (
              omega arith,
              λ j b ne q.
                  let lt = lt-length_of_get_elem? bs j q in
                  keeps j b (λ z. omega arith) (grown.1 j b tt (modify-Keeps f bs i j b ne q)),
              drops (dies.0) (dies.1) h
                  (keeps i (f (record { statements = done; terminator = t' })) (λ z. omega arith)
                    (grown.1 i _ tt (get_elem?-modify f bs i e)))
                  later,
            ))
      ]

  split_blocks-Keeps :
      (k : ℕ) (rest bs : List (BasicBlock B))
      → k + length rest ≤ n
      → n ≤ length bs
      → ((i j : ℕ) (b : BasicBlock B)
          → j ≡ i + k
          → get_elem? rest i ≡ some b
          → get_elem? bs j ≡ some (emptied b))
      → Keeps (λ j. (j < k) ⊎ (n ≤ j)) bs (split_blocks droppable k rest bs)
  unfolding split_blocks
  split_blocks-Keeps k [] bs fits h start = λ j b p e. e
  split_blocks-Keeps k (x ∷ rest) bs fits h start = λ j b p e.
      let (grown, keeps, done) =
        split_statements-Splits x.terminator x.terminator x.statements k [] bs h
          (start 0 k x (omega arith) refl) in
      split_blocks-Keeps (suc k) rest (split_statements droppable x.terminator x.statements k bs)
        (omega arith) (omega arith)
        (λ i y c q f. keeps y (emptied c) (λ z. omega arith) (start (suc i) y c (omega arith) f)) j
        b (elim p [ inl lt ↦ inl (omega arith) | inr le ↦ inr le ])
        (keeps j b (λ z. elim p [ inl lt ↦ omega arith | inr le ↦ omega arith ]) e)

  split_blocks-Splits :
      (k : ℕ) (rest bs : List (BasicBlock B))
      → k + length rest ≤ n
      → n ≤ length bs
      → ((i j : ℕ) (b : BasicBlock B)
          → j ≡ i + k
          → get_elem? rest i ≡ some b
          → get_elem? bs j ≡ some (emptied b))
      → (i j : ℕ) (b : BasicBlock B) → j ≡ i + k
      → get_elem? rest i ≡ some b
      → Splits n droppable b.terminator (split_blocks droppable k rest bs) j [] b.statements
  unfolding split_blocks
  split_blocks-Splits k [] bs fits h start i j b q e = absurd (cc)
  split_blocks-Splits k (x ∷ rest) bs fits h start zero j b q e =
      let after = split_statements droppable x.terminator x.statements k bs in
      let (grown, keeps, done) =
        split_statements-Splits x.terminator x.terminator x.statements k [] bs h
          (start 0 k x (omega arith) refl) in
      let start' : (i j : ℕ) (c : BasicBlock B)
          → j ≡ i + suc k
          → get_elem? rest i ≡ some c
          → get_elem? after j ≡ some (emptied c) =
        λ i y c p f. keeps y (emptied c) (λ z. omega arith) (start (suc i) y c (omega arith) f) in
      subst
        (λ z.
          Splits n droppable b.terminator (split_blocks droppable (suc k) rest after) z []
            b.statements)
        (omega arith)
        (subst
          (λ c.
            Splits n droppable c.terminator (split_blocks droppable (suc k) rest after) k []
              c.statements)
          (some-injective x b e)
          (Splits-Keeps x.terminator (λ y. (y < suc k) ⊎ (n ≤ y)) after
            (split_blocks droppable (suc k) rest after)
            (split_blocks-Keeps (suc k) rest after (omega arith) (omega arith) start')
            (λ y le. inr le) (inl (omega arith)) done))
  split_blocks-Splits k (x ∷ rest) bs fits h start (suc i) j b q e =
      let (grown, keeps, done) =
        split_statements-Splits x.terminator x.terminator x.statements k [] bs h
          (start 0 k x (omega arith) refl) in
      split_blocks-Splits (suc k) rest (split_statements droppable x.terminator x.statements k bs)
        (omega arith) (omega arith)
        (λ i y c p f. keeps y (emptied c) (λ z. omega arith) (start (suc i) y c (omega arith) f)) i
        j b (omega arith) e

get_elem?-emptied :
    {B : Type 0} (bs : List (BasicBlock B)) (i : ℕ) (b : BasicBlock B)
    → get_elem? bs i ≡ some b
    → get_elem? (map emptied bs) i ≡ some (emptied b)
get_elem?-emptied [] i b e = absurd (cc)
get_elem?-emptied (x ∷ bs) zero b e = cc
get_elem?-emptied (x ∷ bs) (suc i) b e = get_elem?-emptied bs i b e

-- After `split_storage_deaths`, the statements of each block are spread over that block and new ones,
-- in order: a new block begins at each storage death of a droppable local, the block before it ends
-- with the drop of that local, and the last block has the terminator of the old block.
pub split_storage_deaths-Splits :
    {B : Type 0} (droppable : List LocalId) (original : List (BasicBlock B)) (i : ℕ)
    (b : BasicBlock B)
    → get_elem? original i ≡ some b
    → Splits
        (length original)
        droppable
        b.terminator
        (split_storage_deaths droppable original)
        i
        []
        b.statements
unfolding split_storage_deaths
split_storage_deaths-Splits droppable original i b e =
    split_blocks-Splits (length original) droppable 0 original (map emptied original) (omega arith)
      (omega (arith, length-map emptied original))
      (λ k j c q f.
        subst (λ z. get_elem? (map emptied original) z ≡ some (emptied c)) (omega arith)
          (get_elem?-emptied original k c f))
      i i b (omega arith) e
