-- ===== src/Actuator/Weights/Runs.antt =====
-- Runs of the weights of actuator/router.py at concrete inputs.
use samsung.Prelude.{pos, ◌+ℤ◌, ◌-ℤ◌, ◌≡◌, refl, false, text_eq, [], ◌∷◌, codes}
use samsung.Schemas.{int, not_int, Weights}
use samsung.Actuator.Weights.{
  Targets, normalize_targets, pass_ref, pass_refs, pass_rule, apply_weights_to_route,
}
use samsung.Tests.Fixtures.{route}

abbrev pub weights : Weights
weights =
    (codes "stable", int (pos 100))
    ∷ (codes "canary", int (pos 100))
    ∷ (codes "x", not_int (codes "'a'"))
    ∷ []

abbrev pub targets : Targets
targets = (codes "stable", pos 100) ∷ (codes "canary", pos 100) ∷ []

normalize_targets_run : normalize_targets weights ≡ (targets, codes "x='a'(정수 아님)" ∷ [])
unfolding normalize_targets
normalize_targets_run = refl

pub unchanged_run : (apply_weights_to_route ((codes "stable", pos 100) ∷ []) route).changed ≡ false
unfolding apply_weights_to_route pass_rule pass_refs pass_ref text_eq ◌+ℤ◌ ◌-ℤ◌
unchanged_run = refl
