-- ===== src/Mir/Validate/Structure.antt =====
-- `validate_targets` and `validate_regions` of validate.rs against what they stand for.
use typenative.Prelude.{
  ℕ, suc, ◌<◌, Bool, true, false, List, [], ◌∷◌, ◌++◌, Option, none, some, if◌then◌else◌, ◌≡◌, ◌≢◌,
  ◌↔◌, refl, sym, arith, length, NatSet, contains, insert, contains-insert, All, append-nil,
  append_assoc,
}
use typenative.Mir.Syntax.{
  BasicBlockId, TerminatorKind, call, suspend, StatementKind, borrow, Statement, BasicBlock, Body,
}
use typenative.Mir.Targets.{EachTarget, All-terminator_targets_iff}
use typenative.Mir.Validate.Check.{MirValidationError, invalid_error_edge, duplicate_region, to_u32}
use typenative.Mir.Validate.Sound.{accepted_parts, outcome-ok}
use typenative.Mir.Validate.Bodies.{
  closure_view, validate_with, validate, ok, missing_targets, same_target, edges_clash,
  terminator_targets, target_errors, validate_targets, borrowed_region, statement_regions,
  validate_regions,
}

abbrev pub Differs : Option BasicBlockId → BasicBlockId → Type 0
Differs none t = Unit
Differs (some e) t = e ≢ t

-- The successors of a call, and those of a suspension, are different blocks.
abbrev pub EdgesDiffer : TerminatorKind → Type 0
EdgesDiffer (call f r as_ d e on_success on_error) = Differs on_error on_success
EdgesDiffer (suspend v d e resume on_error cancel) =
    Differs on_error resume × Differs on_error cancel × (resume ≢ cancel)
EdgesDiffer _ = Unit

abbrev pub TargetsExist : {B : Type 0} → ℕ → BasicBlock B → Type 0
TargetsExist n b = EachTarget (λ t. t < n) (b.terminator.kind) × EdgesDiffer (b.terminator.kind)

missing_targets_iff :
    (n i : ℕ) (ts : List BasicBlockId) → (missing_targets n i ts ≡ []) ↔ All (λ t. t < n) ts
missing_targets_iff n i [] = (λ h. tt, λ h. refl)
missing_targets_iff n i (t ∷ ts) = ground (arith, missing_targets_iff n i ts)

same_target_iff :
    (o : Option BasicBlockId) (t : BasicBlockId) → (same_target o t ≡ false) ↔ Differs o t
same_target_iff none t = (λ h. tt, λ h. refl)
same_target_iff (some e) t = ground arith

edges_clash_iff : (k : TerminatorKind) → (edges_clash k ≡ false) ↔ EdgesDiffer k
unfolding edges_clash
edges_clash_iff (call f r as_ d e on_success on_error) = same_target_iff on_error on_success
edges_clash_iff (suspend v d e resume on_error cancel) =
    ground (arith, same_target_iff on_error resume, same_target_iff on_error cancel)
edges_clash_iff k = (λ h. tt, λ h. refl)

-- Two lists of errors are both empty exactly when what each stands for holds.
append-nil_iff :
    {A P Q : Type 0} (xs ys : List A) → (xs ≡ []) ↔ P → (ys ≡ []) ↔ Q → (xs ++ ys ≡ []) ↔ (P × Q)
append-nil_iff [] ys p q = (λ h. (p.0 refl, q.0 h), λ (a, b). q.1 b)
append-nil_iff (x ∷ xs) ys p q = (λ h. absurd (cc), λ (a, b). absurd (not_nil (p.1 a)))
  where
    not_nil : x ∷ xs ≡ [] → ⊥
    not_nil e = cc

if-nil_iff : {A : Type 0} (b : Bool) (x : A) → ((if b then x ∷ [] else []) ≡ []) ↔ (b ≡ false)
if-nil_iff true x = (λ h. absurd (cc), λ h. absurd (cc))
if-nil_iff false x = (λ h. refl, λ h. refl)

iff_trans : {P Q R : Type 0} → P ↔ Q → Q ↔ R → P ↔ R
iff_trans f g = (λ p. g.0 (f.0 p), λ r. f.1 (g.1 r))

target_errors_iff :
    (n i : ℕ) (k : TerminatorKind)
    → (target_errors n i k ≡ []) ↔ (EachTarget (λ t. t < n) k × EdgesDiffer k)
unfolding target_errors
target_errors_iff n i k =
    append-nil_iff (missing_targets n i (terminator_targets k))
      (if edges_clash k then invalid_error_edge i ∷ [] else [])
      (iff_trans (missing_targets_iff n i (terminator_targets k))
        (All-terminator_targets_iff (λ t. t < n) k))
      (iff_trans (if-nil_iff (edges_clash k) (invalid_error_edge i)) (edges_clash_iff k))

-- No region twice.
abbrev pub Distinct : List ℕ → Type 0
Distinct [] = Unit
Distinct (r ∷ rs) = All (λ x. r ≢ x) rs × Distinct rs

abbrev Fresh : List ℕ → NatSet → Type 0
Fresh rs seen = All (λ r. contains r seen ≡ false) rs

Fresh-empty : (rs : List ℕ) → Fresh rs []
unfolding contains
Fresh-empty [] = tt
Fresh-empty (r ∷ rs) = (refl, Fresh-empty rs)

-- The pass over the regions alone.
duplicates : List ℕ → NatSet → List MirValidationError
duplicates [] seen = []
duplicates (r ∷ rs) seen =
    (if contains r seen then duplicate_region r ∷ [] else []) ++ duplicates rs (insert r seen)

abbrev insert_all : List ℕ → NatSet → NatSet
insert_all [] seen = seen
insert_all (r ∷ rs) seen = insert_all rs (insert r seen)

insert_all-append :
    (rs qs : List ℕ) (seen : NatSet)
    → insert_all (rs ++ qs) seen ≡ insert_all qs (insert_all rs seen)
insert_all-append [] qs seen = refl
insert_all-append (r ∷ rs) qs seen = insert_all-append rs qs (insert r seen)

duplicates-append :
    (rs qs : List ℕ) (seen : NatSet)
    → duplicates (rs ++ qs) seen ≡ duplicates rs seen ++ duplicates qs (insert_all rs seen)
unfolding duplicates
duplicates-append [] qs seen = refl
duplicates-append (r ∷ rs) qs seen = simp (duplicates-append rs qs (insert r seen), append_assoc)

Fresh-insert_iff :
    (r : ℕ) (rs : List ℕ) (seen : NatSet)
    → Fresh rs (insert r seen) ↔ (All (λ x. r ≢ x) rs × Fresh rs seen)
Fresh-insert_iff r [] seen = (λ h. (tt, tt), λ h. tt)
Fresh-insert_iff r (x ∷ rs) seen =
    ground (arith, contains-insert r x seen, Fresh-insert_iff r rs seen)

duplicates_iff :
    (rs : List ℕ) (seen : NatSet) → (duplicates rs seen ≡ []) ↔ (Fresh rs seen × Distinct rs)
unfolding duplicates
duplicates_iff [] seen = (λ h. (tt, tt), λ h. refl)
duplicates_iff (r ∷ rs) seen =
    iff_trans
      (append-nil_iff (if contains r seen then duplicate_region r ∷ [] else [])
        (duplicates rs (insert r seen)) (if-nil_iff (contains r seen) (duplicate_region r))
        (duplicates_iff rs (insert r seen)))
      (
        λ (new, (fresh, distinct)).
            let (others, old) = (Fresh-insert_iff r rs seen).0 fresh in
            ((new, old), (others, distinct)),
        λ ((new, old), (others, distinct)).
            (new, ((Fresh-insert_iff r rs seen).1 (others, old), distinct)),
      )

module _ {B : Type 0} where
  -- The target pass of the validator reports nothing exactly when every successor of every block is
  -- a block of the body and the successors of each call and suspension differ.
  pub validate_targets_iff :
      (n i : ℕ) (bs : List (BasicBlock B))
      → (validate_targets n i bs ≡ []) ↔ All (TargetsExist n) bs
  unfolding validate_targets
  validate_targets_iff n i [] = (λ h. tt, λ h. refl)
  validate_targets_iff n i (b ∷ bs) =
      append-nil_iff (target_errors n (to_u32 i) b.terminator.kind) (validate_targets n (suc i) bs)
        (target_errors_iff n (to_u32 i) b.terminator.kind) (validate_targets_iff n (suc i) bs)

  -- the regions of the borrows, in order
  abbrev pub statement_region : StatementKind B → List ℕ
  statement_region (borrow d k p r) = r ∷ []
  statement_region _ = []

  abbrev pub regions : List (Statement B) → List ℕ
  regions [] = []
  regions (s ∷ ss) = statement_region (s.kind) ++ regions ss

  abbrev pub block_regions : List (BasicBlock B) → List ℕ
  block_regions [] = []
  block_regions (b ∷ bs) = regions b.statements ++ block_regions bs

  borrowed_region-duplicates :
      (k : StatementKind B) (seen : NatSet)
      → (borrowed_region k seen).1 ≡ duplicates (statement_region k) seen
  unfolding borrowed_region duplicates
  borrowed_region-duplicates (borrow d k p r) seen = sym (append-nil _)
  borrowed_region-duplicates k seen = refl

  borrowed_region-insert_all :
      (k : StatementKind B) (seen : NatSet)
      → (borrowed_region k seen).0 ≡ insert_all (statement_region k) seen
  unfolding borrowed_region
  borrowed_region-insert_all (borrow d k p r) seen = refl
  borrowed_region-insert_all k seen = refl

  statement_regions-insert_all :
      (ss : List (Statement B)) (seen : NatSet)
      → (statement_regions ss seen).0 ≡ insert_all (regions ss) seen
  unfolding statement_regions
  statement_regions-insert_all [] seen = refl
  statement_regions-insert_all (s ∷ ss) seen = simp (
    insert_all-append (statement_region s.kind) (regions ss) seen,
    borrowed_region-insert_all s.kind seen,
    statement_regions-insert_all ss (insert_all (statement_region s.kind) seen),
  )

  statement_regions-duplicates :
      (ss : List (Statement B)) (seen : NatSet)
      → (statement_regions ss seen).1 ≡ duplicates (regions ss) seen
  unfolding statement_regions
  statement_regions-duplicates [] seen = unfold duplicates in refl
  statement_regions-duplicates (s ∷ ss) seen = simp (
    duplicates-append (statement_region s.kind) (regions ss) seen,
    borrowed_region-insert_all s.kind seen,
    borrowed_region-duplicates s.kind seen,
    statement_regions-duplicates ss (insert_all (statement_region s.kind) seen),
  )

  validate_regions-duplicates :
      (bs : List (BasicBlock B)) (seen : NatSet)
      → validate_regions bs seen ≡ duplicates (block_regions bs) seen
  unfolding validate_regions
  validate_regions-duplicates [] seen = unfold duplicates in refl
  validate_regions-duplicates (b ∷ bs) seen = simp (
    duplicates-append (regions b.statements) (block_regions bs) seen,
    statement_regions-insert_all b.statements seen,
    statement_regions-duplicates b.statements seen,
    validate_regions-duplicates bs (insert_all (regions b.statements) seen),
  )

  -- The region pass of the validator reports nothing exactly when no two borrows of the blocks
  -- create the same region.
  pub validate_regions_iff :
      (bs : List (BasicBlock B)) → (validate_regions bs [] ≡ []) ↔ Distinct (block_regions bs)
  validate_regions_iff bs = rw (validate_regions-duplicates bs []) (
      iff_trans (duplicates_iff (block_regions bs) [])
        (λ (fresh, distinct). distinct, λ distinct. (Fresh-empty (block_regions bs), distinct)))

-- In a body that the validator accepts every successor of a block is a block of the body, the
-- successors of each call and suspension differ, and no two borrows create the same region.
pub validate-IsWellFormed :
    (n : ℕ) (body : Body n)
    → validate n body ≡ ok
    → All (TargetsExist (length body.blocks)) body.blocks × Distinct (block_regions body.blocks)
unfolding validate
validate-IsWellFormed n body h =
    let (_, targets, regions_once, _) =
      accepted_parts (closure_view n) body (outcome-ok (validate_with (closure_view n) body) h) in
    (
      (validate_targets_iff (length body.blocks) 0 body.blocks).0 targets,
      (validate_regions_iff body.blocks).0 regions_once,
    )
