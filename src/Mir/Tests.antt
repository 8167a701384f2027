-- ===== src/Mir/Tests.antt =====
-- Runs of the model on small bodies.
use typenative.Prelude.{[], ◌∷◌, ◌≡◌, refl}
use typenative.Mir.Samples.{copying, uninitialized, drops, owning, owning_elaborated}
use typenative.Mir.Drops.Elaborate.{elaborate_drops}
use typenative.Mir.Validate.Check.{uninitialized_use}
use typenative.Mir.Validate.Bodies.{validate, ok, err}

validate-copying : validate 0 copying ≡ ok
unfolding validate
validate-copying = refl

validate-uninitialized : validate 0 uninitialized ≡ err (uninitialized_use 1 1 ∷ [])
unfolding validate
validate-uninitialized = refl

elaborate_drops-owning : elaborate_drops drops 0 owning ≡ owning_elaborated
unfolding elaborate_drops
elaborate_drops-owning = refl

validate-owning_elaborated : validate 0 (elaborate_drops drops 0 owning) ≡ ok
unfolding validate elaborate_drops
validate-owning_elaborated = refl
