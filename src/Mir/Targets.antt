-- ===== src/Mir/Targets.antt =====
-- The blocks that a terminator names, constructor by constructor: what `terminator_targets` of
-- crates/tn-mir/src/validate.rs and `successors` of crates/tn-mir/src/drop_elaboration.rs are
-- compared with.
use typenative.Prelude.{
  ℕ, List, [], ◌∷◌, ◌++◌, Option, none, some, ◌≡◌, ◌⊎◌, inl, inr, ◌↔◌, sym, All,
}
use mathlib.Core.Path.{subst}
use typenative.Mir.Syntax.{BasicBlockId, TerminatorKind, goto, switch, call, suspend, drop}
use typenative.Mir.Validate.Bodies.{option_list, switch_targets, terminator_targets}
use typenative.Mir.Drops.Active.{successors}

abbrev IfSome : (BasicBlockId → Type 0) → Option BasicBlockId → Type 0
IfSome P none = Unit
IfSome P (some t) = P t

-- Each block that the terminator can go on at is such a block.
abbrev pub EachTarget : (BasicBlockId → Type 0) → TerminatorKind → Type 0
EachTarget P (goto target) = P target
EachTarget P (switch value cases otherwise) = All (λ c. P (c.1)) cases × P otherwise
EachTarget P (call f receiver as_ d e on_success on_error) = P on_success × IfSome P on_error
EachTarget P (suspend value d e resume on_error cancel) = P resume × IfSome P on_error × P cancel
EachTarget P (drop place on_success) = P on_success
EachTarget P _ = Unit

abbrev CaseLeads : List (ℕ × BasicBlockId) → BasicBlockId → Type 0
CaseLeads [] t = ⊥
CaseLeads ((v, c) ∷ cases) t = (t ≡ c) ⊎ CaseLeads cases t

-- The terminator can go on at this block.
abbrev pub Leads : TerminatorKind → BasicBlockId → Type 0
Leads (goto target) t = t ≡ target
Leads (switch value cases otherwise) t = CaseLeads cases t ⊎ (t ≡ otherwise)
Leads (call f receiver as_ d e on_success on_error) t = (t ≡ on_success) ⊎ (on_error ≡ some t)
Leads (suspend value d e resume on_error cancel) t =
    (t ≡ resume) ⊎ (on_error ≡ some t) ⊎ (t ≡ cancel)
Leads (drop place on_success) t = t ≡ on_success
Leads _ t = ⊥

module _ (P : BasicBlockId → Type 0) where
  All-switch_targets :
      (cases : List (ℕ × BasicBlockId)) (otherwise : BasicBlockId)
      → All P (switch_targets cases ++ otherwise ∷ []) ↔ (All (λ c. P (c.1)) cases × P otherwise)
  All-switch_targets [] otherwise = (λ h. (tt, h.0), λ h. (h.1, tt))
  All-switch_targets ((v, c) ∷ cases) otherwise =
      let (f, g) = All-switch_targets cases otherwise in
      (λ h. ((h.0, (f (h.1)).0), (f (h.1)).1), λ h. (h.0.0, g (h.0.1, h.1)))

  All-option_list :
      (o : Option BasicBlockId) (ts : List BasicBlockId)
      → All P (option_list o ++ ts) ↔ (IfSome P o × All P ts)
  All-option_list none ts = (λ h. (tt, h), λ h. h.1)
  All-option_list (some t) ts = (λ h. h, λ h. h)

  pub All-terminator_targets_iff :
      (k : TerminatorKind) → All P (terminator_targets k) ↔ EachTarget P k
  unfolding terminator_targets
  All-terminator_targets_iff (goto target) = (λ h. h.0, λ h. (h, tt))
  All-terminator_targets_iff (switch value cases otherwise) = All-switch_targets cases otherwise
  All-terminator_targets_iff (call f receiver as_ d e on_success none) = (λ h. h, λ h. h)
  All-terminator_targets_iff (call f receiver as_ d e on_success (some t)) =
      (λ h. (h.0, h.1.0), λ h. (h.0, (h.1, tt)))
  All-terminator_targets_iff (suspend value d e resume on_error cancel) =
      let (f, g) = All-option_list on_error (cancel ∷ []) in
      (λ h. (h.0, (f (h.1)).0, (f (h.1)).1.0), λ h. (h.0, g (h.1, (h.2, tt))))
  All-terminator_targets_iff (drop place on_success) = (λ h. h.0, λ h. (h, tt))
  All-terminator_targets_iff k = (λ h. tt, λ h. tt)

  All-successors : (k : TerminatorKind) → All P (successors k) → EachTarget P k
  unfolding successors
  All-successors (goto target) h = h.0
  All-successors (switch value cases otherwise) h = (All-switch_targets cases otherwise).0 h
  All-successors (call f receiver as_ d e on_success none) h = h
  All-successors (call f receiver as_ d e on_success (some t)) h = (h.0, h.1.0)
  All-successors (suspend value d e resume on_error cancel) h =
      let (x, y) = (All-option_list on_error (cancel ∷ [])).0 (h.1) in (h.0, x, y.0)
  All-successors (drop place on_success) h = h.0
  All-successors k h = tt

  case_led :
      (cases : List (ℕ × BasicBlockId)) (t : BasicBlockId)
      → All (λ c. P (c.1)) cases
      → CaseLeads cases t
      → P t
  case_led [] t h m = absurd m
  case_led ((v, c) ∷ cases) t h (inl e) = subst P (sym e) h.0
  case_led ((v, c) ∷ cases) t h (inr m) = case_led cases t h.1 m

  if_some : (o : Option BasicBlockId) (t : BasicBlockId) → IfSome P o → o ≡ some t → P t
  if_some o t h e = subst (IfSome P) e h

  each_led : (k : TerminatorKind) (t : BasicBlockId) → EachTarget P k → Leads k t → P t
  each_led (goto target) t h e = subst P (sym e) h
  each_led (switch value cases otherwise) t h (inl m) = case_led cases t h.0 m
  each_led (switch value cases otherwise) t h (inr e) = subst P (sym e) h.1
  each_led (call f receiver as_ d e on_success on_error) t h (inl p) = subst P (sym p) h.0
  each_led (call f receiver as_ d e on_success on_error) t h (inr p) = if_some on_error t h.1 p
  each_led (suspend value d e resume on_error cancel) t h (inl p) = subst P (sym p) h.0
  each_led (suspend value d e resume on_error cancel) t h (inr (inl p)) = if_some on_error t h.1 p
  each_led (suspend value d e resume on_error cancel) t h (inr (inr p)) = subst P (sym p) h.2
  each_led (drop place on_success) t h e = subst P (sym e) h
  each_led k t h m = absurd m

  -- What holds of all successors holds of each block that the terminator leads to.
  pub successors-Leads :
      (k : TerminatorKind) (t : BasicBlockId) → All P (successors k) → Leads k t → P t
  successors-Leads k t h m = each_led k t (All-successors k h) m
