-- ===== src/Mir/Drops/Instrument/Keeps.antt =====
-- What the updates of drop flags leave of a block.
use typenative.Prelude.{
  Bool, true, false, List, [], ◌∷◌, ◌++◌, map, ◌≡◌, refl, sym, append_assoc, append-nil,
}
use mathlib.Core.Path.{subst}
use typenative.Diagnostics.{SourceSpan}
use typenative.Mir.Syntax.{
  Place, StatementKind, assign, storage_live, set_drop_flag, Statement, BasicBlock,
}
use typenative.Mir.Drops.Instrument.{
  flag, instrument_kind, instrument_statements, instrument_block, moved_places_in_rvalue,
  moved_places_in_terminator,
}

module _ {B : Type 0} where
  -- The second list is the first with updates of drop flags put in, and nothing taken out.
  pub data Flagged : List (Statement B) → List (Statement B) → Type 0 where
    ends : Flagged [] []
    keeps :
        {s : Statement B} {ss ts : List (Statement B)} → Flagged ss ts → Flagged (s ∷ ss) (s ∷ ts)
    adds :
        {span : SourceSpan} {v : Bool} {p : Place} {ss ts : List (Statement B)}
        → Flagged ss ts
        → Flagged ss (record { kind = set_drop_flag p v; span = span } ∷ ts)

  adds_all :
      (span : SourceSpan) (v : Bool) (ps : List Place) (ss ts : List (Statement B))
      → Flagged ss ts
      → Flagged ss (map (flag span v) ps ++ ts)
  adds_all span v [] ss ts f = f
  adds_all span v (p ∷ ps) ss ts f = adds (adds_all span v ps ss ts f)

  adds_last :
      (ss ts us : List (Statement B)) → Flagged ss ts → Flagged [] us → Flagged ss (ts ++ us)
  adds_last ss ts us ends g = g
  adds_last ss ts us (keeps f) g = keeps (adds_last _ _ us f g)
  adds_last ss ts us (adds f) g = adds (adds_last _ _ us f g)

  instrument_kind-Flagged :
      (k : StatementKind B) (span : SourceSpan) (ss ts : List (Statement B))
      → Flagged ss ts
      → Flagged (record { kind = k; span = span } ∷ ss) (instrument_kind k span ++ ts)
  unfolding instrument_kind
  instrument_kind-Flagged (storage_live l) span ss ts f = keeps (adds f)
  instrument_kind-Flagged (assign d v) span ss ts f = keeps (
      subst (λ us. Flagged ss us)
        (sym (
          append_assoc (map (flag span false) (moved_places_in_rvalue v)) (flag span true d ∷ [])
            ts))
        (adds_all span false (moved_places_in_rvalue v) ss (flag span true d ∷ ts) (adds f)))
  instrument_kind-Flagged k span ss ts f = keeps f

  instrument_statements-Flagged : (ss : List (Statement B)) → Flagged ss (instrument_statements ss)
  unfolding instrument_statements
  instrument_statements-Flagged [] = ends
  instrument_statements-Flagged (s ∷ ss) =
      instrument_kind-Flagged s.kind s.span ss (instrument_statements ss)
        (instrument_statements-Flagged ss)

-- Instrumentation keeps every statement of a block, in order, and puts in updates of drop flags only;
-- it keeps the terminator.
pub instrument_block-Flagged :
    {B : Type 0} (b : BasicBlock B)
    → Flagged b.statements (instrument_block b).statements
      × ((instrument_block b).terminator ≡ b.terminator)
unfolding instrument_block
instrument_block-Flagged b =
    let moved = moved_places_in_terminator b.terminator.kind in
    let updates = map (flag b.terminator.span false) moved in
    (
      adds_last b.statements (instrument_statements b.statements) updates
          (instrument_statements-Flagged b.statements)
          (subst (λ us. Flagged [] us) (append-nil updates)
            (adds_all b.terminator.span false moved [] [] ends)),
      refl,
    )
