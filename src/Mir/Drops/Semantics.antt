-- ===== src/Mir/Drops/Semantics.antt =====
-- `DropSemantics::needs_drop` of crates/tn-mir/src/drop_elaboration.rs.
use typenative.Prelude.{Bool, true, false, ◌||◌, List, [], ◌∷◌, NatSet, contains}
use typenative.Hir.Types.{
  DeclarationId, Ty, string, promise, optional, union, array, tuple, function, template,
  dynamic_interface, generic, error_union, Tys, nil, cons,
}

pub record DropSemantics : Type 0 where
  pub nominal : NatSet

-- `effects.iter().any(|effect| self.nominal.contains(effect))`
unfoldable pub any_nominal : NatSet → List DeclarationId → Bool
unfolding contains
any_nominal s [] = false
any_nominal s (e ∷ es) = contains e s || any_nominal s es

unfoldable mutual
  unfolding contains any_nominal

  pub needs_drop : DropSemantics → Ty → Bool
  needs_drop d string = true
  needs_drop d (function f) = true
  needs_drop d (promise result error effects) = true
  needs_drop d (dynamic_interface i args) = true
  needs_drop d (generic name) = true
  needs_drop d (Ty.nominal i args) = contains i d.nominal
  needs_drop d (error_union effects) = any_nominal d.nominal effects
  needs_drop d (optional t) = needs_drop d t
  needs_drop d (array t n) = needs_drop d t
  needs_drop d (union ts) = any_needs_drop d ts
  needs_drop d (tuple ts) = any_needs_drop d ts
  needs_drop d (template ts) = any_needs_drop d ts
  needs_drop d _ = false

  -- `elements.iter().any(|element| self.needs_drop(element))`
  pub any_needs_drop : DropSemantics → Tys → Bool
  any_needs_drop d nil = false
  any_needs_drop d (cons t ts) = needs_drop d t || any_needs_drop d ts
