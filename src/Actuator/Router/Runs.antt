-- ===== src/Actuator/Router/Runs.antt =====
-- Runs of actuator/router.py at concrete inputs.
use samsung.Prelude.{◌+ℤ◌, ◌-ℤ◌, ◌≡◌, refl, false, text_eq, contains, codes}
use samsung.Actuator.Cluster.{returned, ActionOutcome, applied, failed}
use samsung.Actuator.Weights.{
  normalize_targets, pass_ref, pass_refs, pass_rule, apply_weights_to_route,
}
use samsung.Actuator.Weights.Runs.{weights}
use samsung.Actuator.Router.{
  get_route, write_back, replace_with, one_round, after_round, rounds, set_backend_weights,
}
use samsung.Tests.Fixtures.{cluster, locked, world}

pub set_backend_weights_run :
    (a : ActionOutcome) × ((set_backend_weights cluster
        (codes "shop")
        (codes "web")
        weights
        false
        world).0
      ≡ returned a)
    × (a.status ≡ applied)
unfolding set_backend_weights rounds after_round one_round get_route write_back replace_with
    normalize_targets apply_weights_to_route pass_rule pass_refs pass_ref text_eq contains ◌+ℤ◌ ◌-ℤ◌
set_backend_weights_run = (_, refl, refl)

-- two conflicts
locked_writes_fail :
    (a : ActionOutcome) × ((set_backend_weights locked
        (codes "shop")
        (codes "web")
        weights
        false
        world).0
      ≡ returned a)
    × (a.status ≡ failed)
unfolding set_backend_weights rounds after_round one_round get_route write_back replace_with
    normalize_targets apply_weights_to_route pass_rule pass_refs pass_ref text_eq contains ◌+ℤ◌ ◌-ℤ◌
locked_writes_fail = (_, refl, refl)
