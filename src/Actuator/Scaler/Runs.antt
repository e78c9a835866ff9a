-- ===== src/Actuator/Scaler/Runs.antt =====
-- Runs of actuator/scaler.py at concrete inputs.
use samsung.Prelude.{pos, ◌+ℤ◌, ◌-ℤ◌, ◌≡◌, refl, none, some, codes}
use samsung.Actuator.Cluster.{returned, ActionOutcome, applied, failed}
use samsung.Actuator.Scaler.{clamp_replicas, plan_text, move, patch_to, scale_deployment}
use samsung.Tests.Fixtures.{cluster, locked, world, options}

clamp_replicas_run :
    clamp_replicas (pos 9) (pos 3) (some (pos 2)) (some (pos 10)) (some (pos 2)) ≡ pos 5
unfolding clamp_replicas ◌+ℤ◌ ◌-ℤ◌
clamp_replicas_run = refl

abbrev pub scaled : ActionOutcome
scaled = record { status = applied; detail = plan_text (pos 3) (pos 5) (pos 9); error = none }

pub scale_deployment_run :
    (scale_deployment cluster (codes "shop") (codes "web") (pos 9) options world).0
    ≡ returned scaled
unfolding scale_deployment move patch_to clamp_replicas ◌+ℤ◌ ◌-ℤ◌
scale_deployment_run = refl

-- a patch that is forbidden
pub locked_patch_fails :
    (a : ActionOutcome) × ((scale_deployment locked
        (codes "shop")
        (codes "web")
        (pos 9)
        options
        world).0
      ≡ returned a)
    × (a.status ≡ failed)
unfolding scale_deployment move patch_to clamp_replicas ◌+ℤ◌ ◌-ℤ◌
locked_patch_fails = (_, refl, refl)
