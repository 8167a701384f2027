-- ===== src/Mir/Drops/Instrument/Flags.antt =====
-- What the drop flag of a local says after a block.
use typenative.Prelude.{
  Bool, true, false, ◌||◌, List, [], ◌∷◌, ◌++◌, Option, some, map, ◌≡◌, refl, ap, ◌∙◌, ◌==◌,
  if◌then◌else◌,
}
use typenative.Diagnostics.{SourceSpan}
use typenative.Mir.Syntax.{
  LocalId, Place, StatementKind, assign, set_discriminant, borrow, retag, storage_live,
  storage_dead, set_drop_flag, Statement, BasicBlock,
}
use typenative.Mir.Drops.Instrument.Operands.{
  is_whole, moves, any_moves, rvalue_operands, terminator_operands, moves-rvalue, moves-terminator,
}
use typenative.Mir.Drops.Instrument.{
  flag, instrument_kind, instrument_statements, instrument_block, moved_places_in_rvalue,
  moved_places_in_terminator,
}

module _ {B : Type 0} where
  abbrev pub flag_step : StatementKind B → LocalId → Option Bool → Option Bool
  flag_step (set_drop_flag p b) l o = if is_whole l p then some b else o
  flag_step _ l o = o

  -- The drop flag of a local, if it was ever set, after the updates of these statements.
  abbrev pub flag_after : List (Statement B) → LocalId → Option Bool → Option Bool
  flag_after [] l o = o
  flag_after (s ∷ ss) l o = flag_after ss l (flag_step (s.kind) l o)

  -- Whether a local is filled after a statement: new storage is empty, an assignment to the whole
  -- local fills it, a move out of the whole local empties it, and so does an update of its flag say.
  -- Other statements, the end of its storage too, leave it as it is.
  abbrev pub filled_step : StatementKind B → LocalId → Option Bool → Option Bool
  filled_step (storage_live x) l o = if x == l then some false else o
  filled_step (assign d v) l o =
      if is_whole l d
      then some true
      else (if any_moves l (rvalue_operands v) then some false else o)
  filled_step (set_drop_flag p b) l o = if is_whole l p then some b else o
  filled_step _ l o = o

  abbrev pub filled_after : List (Statement B) → LocalId → Option Bool → Option Bool
  filled_after [] l o = o
  filled_after (s ∷ ss) l o = filled_after ss l (filled_step (s.kind) l o)

  -- after the terminator, whose moves empty what they move from
  abbrev pub filled_at_end : BasicBlock B → LocalId → Option Bool → Option Bool
  filled_at_end b l o =
      if any_moves l (terminator_operands b.terminator.kind)
      then some false
      else filled_after b.statements l o

  flag_after-append :
      (ss ts : List (Statement B)) (l : LocalId) (o : Option Bool)
      → flag_after (ss ++ ts) l o ≡ flag_after ts l (flag_after ss l o)
  flag_after-append [] ts l o = refl
  flag_after-append (s ∷ ss) ts l o = flag_after-append ss ts l (flag_step s.kind l o)

flag_after-moved :
    (B : Type 0) (span : SourceSpan) (ps : List Place) (l : LocalId) (o : Option Bool)
    → flag_after (map (flag {B = B} span false) ps) l o ≡ (if moves l ps then some false else o)
flag_after-moved B span [] l o = refl
flag_after-moved B span (p ∷ ps) l o =
    flag_after-moved B span ps l (if is_whole l p then some false else o)
    ∙ either (is_whole l p) (moves l ps)
  where
    either :
        (a c : Bool)
        → (if c then some false else (if a then some false else o))
          ≡ (if a || c then some false else o)
    either true true = refl
    either true false = refl
    either false true = refl
    either false false = refl

module _ {B : Type 0} where
  instrument_kind-flag :
      (k : StatementKind B) (span : SourceSpan) (l : LocalId) (o : Option Bool)
      → flag_after (instrument_kind k span) l o ≡ filled_step k l o
  unfolding instrument_kind
  instrument_kind-flag (storage_live x) span l o = refl
  instrument_kind-flag (assign d v) span l o =
      flag_after-append (map (flag span false) (moved_places_in_rvalue v)) (flag span true d ∷ []) l
        o
      ∙ ap (λ z. if is_whole l d then some true else z)
          (flag_after-moved B span (moved_places_in_rvalue v) l o
            ∙ ap (λ z. if z then some false else o) (moves-rvalue l v))
  instrument_kind-flag (set_discriminant p n) span l o = refl
  instrument_kind-flag (storage_dead x) span l o = refl
  instrument_kind-flag (borrow x k p r) span l o = refl
  instrument_kind-flag (retag p) span l o = refl
  instrument_kind-flag (set_drop_flag p b) span l o = refl

  instrument_statements-flag :
      (ss : List (Statement B)) (l : LocalId) (o : Option Bool)
      → flag_after (instrument_statements ss) l o ≡ filled_after ss l o
  unfolding instrument_statements
  instrument_statements-flag [] l o = refl
  instrument_statements-flag (s ∷ ss) l o =
      flag_after-append (instrument_kind s.kind s.span) (instrument_statements ss) l o
      ∙ instrument_statements-flag ss l (flag_after (instrument_kind s.kind s.span) l o)
      ∙ ap (λ z. filled_after ss l z) (instrument_kind-flag s.kind s.span l o)

-- The drop flag of each local, as instrumentation leaves it at the end of a block, is the local's
-- state there: false since its storage began or the whole local was moved, also by the terminator,
-- true since it was assigned, and as an update says that the block had before. What came last
-- counts, and in one assignment the destination; the end of its storage does not change the flag.
pub instrument_block_flag :
    {B : Type 0} (b : BasicBlock B) (l : LocalId) (o : Option Bool)
    → flag_after (instrument_block b).statements l o ≡ filled_at_end b l o
unfolding instrument_block
instrument_block_flag {B} b l o =
    flag_after-append (instrument_statements b.statements) _ l o
    ∙ flag_after-moved B b.terminator.span (moved_places_in_terminator b.terminator.kind) l
        (flag_after (instrument_statements b.statements) l o)
    ∙ ap (λ z. if z then some false else flag_after (instrument_statements b.statements) l o)
        (moves-terminator l b.terminator.kind)
    ∙ ap (λ z. if any_moves l (terminator_operands b.terminator.kind) then some false else z)
        (instrument_statements-flag b.statements l o)
